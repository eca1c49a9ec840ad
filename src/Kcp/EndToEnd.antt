-- ===== src/Kcp/EndToEnd.antt =====
-- transport/internet/kcp: both workers of a stream, with the segments between them on any network.
use reflex_network_project.Prelude.{◌⊎◌, List, [], ◌∷◌}
use reflex_network_project.Buffer.{Buffer, IsValid}
use reflex_network_project.Buffer
use reflex_network_project.Kcp.Segment.{DataSegment}
use reflex_network_project.Kcp.Segment.RoundTrip.{Received}
use reflex_network_project.Kcp.Receiving
use reflex_network_project.Kcp.Receiving.Stream as Reader
use reflex_network_project.Kcp.Sending
use reflex_network_project.Kcp.Sending.Stream as Writer

-- A segment is what a receiver reads of one that was sent.
abbrev pub Copies : DataSegment → List DataSegment → Type 0
Copies t [] = ⊥
Copies t (s ∷ ss) = ((b b' : Buffer) × Received s t b b') ⊎ Copies t ss

-- The network may lose, repeat and reorder segments, but it makes none up.
abbrev pub Delivers : List DataSegment → Reader.Event → Type 0
Delivers sent (Reader.arrives t) = Copies t sent
Delivers sent (Reader.sending_next n) = Unit
Delivers sent (Reader.reads n) = Unit
Delivers sent Reader.reads_buffers = Unit
Delivers sent (Reader.flushes conn current) = Unit
