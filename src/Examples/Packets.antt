-- ===== src/Examples/Packets.antt =====
-- Runs of the cipher and of the packets of transport/internet/kcp.
use reflex_network_project.Prelude.{
  ℕ, ◌^◌, ◌≡◌, ap, refl, some, List, [], ◌∷◌, arith, length, ltb, if◌then◌else◌,
}
use reflex_network_project.Examples.Setup.{zeros}
use reflex_network_project.Kcp.Segment.{Segment, CmdOnlySegment, cmd_only_segment, serialize}
use reflex_network_project.Kcp.Segment.Packet.{AllFit, SameSegments, serialize_all}
use reflex_network_project.Kcp.Crypt.{
  xor_at, forward, xorfwd, backward, xorbkd, fnv_loop, put_at, padded, labelled, seal, plain,
  invalid_auth, checked, open_sealed,
}
use reflex_network_project.Kcp.Crypt.RoundTrip.{open_sealed-seal, seal-open_sealed}
use reflex_network_project.Kcp.Packets.{
  simple_authenticator, packet_overhead, read_packet, write_packet,
}
use reflex_network_project.Kcp.Packets.RoundTrip.{
  simple_authenticator-IsAead, read_packet-write_packet,
}
use reflex_network_project.Prelude.Bytes.{put_uint16, put_uint32, uint16, uint32}

abbrev secret : List ℕ
secret = 97 ∷ 98 ∷ 99 ∷ []

abbrev sealed_secret : List ℕ
sealed_secret = 136 ∷ 64 ∷ 136 ∷ 60 ∷ 136 ∷ 67 ∷ 233 ∷ 94 ∷ 235 ∷ []

seals_secret : seal [] secret ≡ sealed_secret
unfolding seal labelled put_at padded xorfwd forward xor_at fnv_loop put_uint16 put_uint32
seals_secret = refl

opens_secret : open_sealed 9 [] sealed_secret ≡ some (plain secret)
unfolding open_sealed checked padded xorbkd backward xor_at fnv_loop uint16 uint32
opens_secret = refl

open_sealed-seal_example :
    open_sealed 100 [] (seal [] secret)
    ≡ some (if ltb (length secret) (2 ^ 16) then plain secret else invalid_auth)
open_sealed-seal_example = open_sealed-seal 100 secret (omega (arith, ap length seals_secret))

seal-open_sealed_example : seal [] secret ≡ sealed_secret
seal-open_sealed_example = seal-open_sealed 9 sealed_secret secret (omega arith) opens_secret

abbrev a_ping : CmdOnlySegment
a_ping = record {
  conv = 7;
  cmd = 3;
  option = 0;
  sending_next = 1;
  receiving_next = 2;
  peer_rto = 100;
}

abbrev ping_bytes : List ℕ
ping_bytes = 0 ∷ 7 ∷ 3 ∷ 0 ∷ 0 ∷ 0 ∷ 0 ∷ 1 ∷ 0 ∷ 0 ∷ 0 ∷ 2 ∷ 0 ∷ 0 ∷ 0 ∷ 100 ∷ []

abbrev pings : List Segment
pings = cmd_only_segment a_ping ∷ []

pings-AllFit : AllFit pings
pings-AllFit = (
  record {
    conv_16 = omega arith;
    sending_next_32 = omega arith;
    receiving_next_32 = omega arith;
    peer_rto_32 = omega arith;
    not_data = omega arith;
    not_ack = omega arith;
  },
  tt,
)

serializes_pings : serialize_all pings ≡ some ping_bytes
unfolding serialize_all serialize put_uint16 put_uint32
serializes_pings = refl

-- Behind four bytes of a header, with the simple authenticator.
read_packet-write_packet_example :
    (wire : List ℕ) × (write_packet (1 ∷ 2 ∷ 3 ∷ 4 ∷ []) (some simple_authenticator) [] ping_bytes
      ≡ some wire)
    × SameSegments pings (read_packet (some 4) (some simple_authenticator) (zeros 8192) wire)
unfolding simple_authenticator packet_overhead
read_packet-write_packet_example =
    read_packet-write_packet 65535 3 (some 4) (some simple_authenticator) (zeros 8192)
      (1 ∷ 2 ∷ 3 ∷ 4 ∷ []) [] ping_bytes pings pings-AllFit serializes_pings (omega arith) refl
      (simple_authenticator-IsAead, refl) (omega arith) (omega arith) (omega arith)
