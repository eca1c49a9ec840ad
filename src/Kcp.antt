-- ===== src/Kcp.antt =====
-- transport/internet/kcp: segments, the two workers of a stream, and the connection around them.
pub mod Uint32
pub mod Segment
pub mod Crypt
pub mod Packets
pub mod AckList
pub mod Receiving
pub mod SendingWindow
pub mod Sending
pub mod EndToEnd
pub mod RoundTripInfo
pub mod Connection
