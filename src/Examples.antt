-- ===== src/Examples.antt =====
-- Concrete runs of the proxy, and its theorems at concrete inputs.
mod Setup
mod Sessions
mod Segments
mod Connections
mod Inbounds
mod Morphs
mod Buffers
mod Matchers
mod Packets
mod Frames
mod Routes
mod Tables
