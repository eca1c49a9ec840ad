-- ===== src/Lib.antt =====
-- The Reflex proxy and the parts of its Xray-core fork that it stands on. Paths below are from the
-- folder Reflex-networkProject-main/xray-core of the repository.
--
-- The program. A client opens a connection to the inbound handler (proxy/reflex/inbound/inbound.go),
-- which peeks at its first bytes and takes it for a Reflex handshake, for an HTTP POST that carries
-- one, or for other traffic, which it hands to a fallback server. A handshake leads to a session
-- (proxy/reflex/session.go): frames sealed by an AEAD, whose nonces carry a counter. Data frames go to
-- the dispatcher, and the answers come back in frames whose sizes and delays follow a traffic profile
-- (proxy/reflex/morph.go), which the client's control frames change. Payloads move in buffers and lists
-- of buffers (common/buf). The mKCP transport (transport/internet/kcp) carries a stream over datagrams:
-- a sending worker numbers payloads and sends them until they are acknowledged, and a receiving worker
-- puts the segments in order and reports their numbers; the connection around them opens and closes,
-- and a packet of segments travels behind a header and under a cipher. Beside this chain stand parts of
-- the fork that its other handlers share: the matchers of domain names (common/strmatcher), the formats
-- of addresses (common/net, common/protocol), and the frames of the multiplexer (common/mux), whose
-- metadata carries such an address, and the table of rules that picks an outbound (app/router).
--
-- The modules.
--   Prelude: Go's tests, lists, signed integers and encoding/binary over the native numbers.
--   Io: Go's readers and writers, as the bytes that a peer still sends and those that were written, and
--     the early `return err` as a monad.
--   Session: `NewSession`, `makeNonce`, `WriteFrame` and `ReadFrame`. Session/Frames describes the
--     format of a frame on its own; Session/RoundTrip, Replay and Progress are about runs of frames.
--   Morph: `TrafficProfile`, `AddPadding`, `WriteFrameWithMorphing`, `ApplyControlFrame` and the capture
--     statistics; Morph/Sampling, Padding, Control and Capture are their theorems.
--   Inbound: the handler. Inbound/Detect, HttpRequest, Handshake and Fallback are its parts,
--     Inbound/Server is `processHandshake` and `handleSession`, Inbound/Process is `Process`;
--     Inbound/Server/Rounds is about its loop, Inbound/Routing, Client and Server/Answer and Relay are
--     about whole connections.
--   Buffer: buffer.go, every operation on one buffer. MultiBuffer: multi_buffer.go. Their Content and
--     Reading modules compare them with operations on plain lists of bytes.
--   Kcp/Segment: segment.go, with the loop of `KCPPacketReader.Read`; Kcp/AckList and Kcp/Receiving:
--     receiving.go; Kcp/SendingWindow and Kcp/Sending: sending.go; Kcp/EndToEnd: both workers at once.
--     Kcp/RoundTripInfo and Kcp/Connection: connection.go, its states, `Input`, and in its Flush `flush` and `Ping`;
--     Kcp/Connection/Races is about `Close` while a segment comes in.
--   Kcp/Crypt: crypt.go and xor.go; Kcp/Packets: `KCPPacketReader`, `KCPPacketWriter` and the segment
--     writer of io.go and output.go, over any cipher and header.
--   Strmatcher: matchers.go, full_matcher.go, domain_matcher.go and strmatcher.go. A node of the domain
--     tree holds a list of labels and nodes; Strmatcher/DomainGroup/Walk takes the loop over positions
--     to a walk along labels, Insert and Labels compare the tree with the single patterns, and
--     Strmatcher/Group/Refinement the whole group.
--   Address: common/net/address.go and the address parser of common/protocol/address.go.
--   Mux: Mux/Frame is common/mux/frame.go, Mux/Sessions the table of common/mux/session.go: sessions are
--     places in the list of all that were made, since others hold them, too.
--   Balancing and Router: app/router, the choice of a balancer and the table of rules with `PickRoute`,
--     `ReloadRules` and `RemoveRule`. Router/Tags is about the tags of the rules, Router/Removal about
--     the routes behind a removal.
--   Examples: tests, and the theorems at concrete inputs.
--
-- The state. A Go struct is a record, and a method is a function from the state to the new state
-- and its results. A mutex that a method holds makes it one step; the operations of a KCP
-- connection, which hold none, take what other goroutines do between their accesses as arguments,
-- and the events of the two KCP workers are lists in any order. A segment or a buffer has one
-- owner, so that a change in place is the new value in its place.
--
-- Parameters. Cryptography (the AEAD, X25519, HKDF), randomness, the clock, float64, JSON, base64,
-- the text of a UUID or of an IP, regular expressions, the dispatcher, the context of a route, the
-- memory of a fresh buffer and the network are arguments. What the code relies on is a named
-- hypothesis: `IsAead` (key, nonce and tag sizes, and that opening undoes sealing), `Fills` (a
-- random source gives as many bytes as asked), `Dispatches` (links open, and their readers return),
-- `size` bytes at least in a fresh buffer, for KCP `Delivers` (the network makes no segment up),
-- and Kcp/Packets has its own `IsAead` for a cipher without a key argument, which the simple
-- authenticator is shown to meet.
--
-- Machine integers. Counters, lengths and times of 16, 32 and 64 bits wrap around where the code's do:
-- the remainder is written out. Positions in a buffer are natural numbers under `IsValid`.
--
-- Loops. Most are structural, the loop over the labels of a pattern and the xor passes among them.
-- On fuel are the frame loop of `handleSession` (the length of the input and one more; a frame
-- takes two bytes at least), `ReadFrom` and `MergeBytes` (a round takes a byte at least), the loop
-- of `KCPPacketReader.Read` (a segment takes sixteen bytes), that of the domain tree (the position
-- falls, so the length and two more is enough) and that of `ReadMultiBuffer` (a turn takes an entry
-- out of the window).
--
-- Not modelled: the sockets, goroutines and timers of the runtime, the generated protobuf code, the
-- registration of the handler, the blocking reads and writes of a KCP connection, the copies of the fallback, the streams and
-- workers of the multiplexer, and the other protocols, transports, the conditions of the router,
-- DNS and configuration readers of the fork.
pub mod Prelude
pub mod Io
pub mod Session
pub mod Morph
pub mod Buffer
pub mod MultiBuffer
pub mod Inbound
pub mod Kcp
pub mod Strmatcher
pub mod Address
pub mod Mux
pub mod Balancing
pub mod Router
pub mod Examples
