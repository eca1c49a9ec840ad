-- ===== src/Mux.antt =====
-- common/mux: several sessions over one connection. `Frame` has the metadata in front of a frame
-- (frame.go), `Sessions` the table of sessions (session.go).
pub mod Frame
pub mod Sessions
