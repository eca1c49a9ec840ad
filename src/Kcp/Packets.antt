-- ===== src/Kcp/Packets.antt =====
-- transport/internet/kcp/io.go and output.go: what stands around the segments of a packet, a header
-- that looks like another protocol's and a cipher.
--
-- The header's bytes and the nonce, which are new for each packet, are arguments, and so is the
-- cipher. `none` is a Go panic, where a packet outgrows its buffer. The error of the writer below
-- comes back as it is, and is left out.
pub mod RoundTrip
use reflex_network_project.Prelude.{
  ℕ, ◌+◌, ◌-◌, ◌≤◌, ◌≡◌, Option, none, some, List, [], ◌∷◌, ◌++◌, ltb, leb, if◌then◌else◌, length,
  take, drop,
}
use reflex_network_project.Buffer.{size}
use reflex_network_project.Kcp.Segment.{Segment, read_segments, serialize, byte_size}
use reflex_network_project.Kcp.Crypt.{
  Opened, plain, invalid_auth, seal, open_sealed, padded, labelled,
}

-- `cipher.AEAD`; `open_with` gives nothing on an error. `Seal` appends to a slice in the packet's
-- buffer, and its result is not used: `seal_with` is what stands in the buffer behind the call, by the
-- room that there is from the start of the slice on.
pub record Aead : Type 0 where
  pub nonce_size : ℕ
  pub overhead : ℕ
  pub seal_with : ℕ → List ℕ → List ℕ → List ℕ
  pub open_with : List ℕ → List ℕ → Option (List ℕ)

abbrev pub opened_bytes : Option Opened → Option (List ℕ)
opened_bytes none = none
opened_bytes (some (plain p)) = some p
opened_bytes (some invalid_auth) = none

-- `Seal` of the simple authenticator into the room of a buffer: if its zeros up to a whole word do not
-- fit, `append` moves to a new array, and the passes run there.
unfoldable pub seal_within : ℕ → List ℕ → List ℕ
seal_within room p = if leb (length (padded (labelled [] p))) room then seal [] p else labelled [] p

-- `NewSimpleAuthenticator`; it has no nonce, and is opened in place.
unfoldable pub simple_authenticator : Aead
simple_authenticator = record {
  nonce_size = 0;
  overhead = 6;
  seal_with = λ room nonce p. seal_within room p;
  open_with = λ nonce c. opened_bytes (open_sealed (length c) [] c);
}

-- `b[r.Header.Size():]`
abbrev pub behind_header : Option ℕ → List ℕ → Option (List ℕ)
behind_header none b = some b
behind_header (some n) b = if leb (length b) n then none else some (drop n b)

abbrev pub decrypted : Option Aead → List ℕ → Option (List ℕ)
decrypted none b = some b
decrypted (some a) b =
    if leb (length b) (a.nonce_size + a.overhead)
    then none
    else a.open_with (take a.nonce_size b) (drop a.nonce_size b)

abbrev pub segments_of : List ℕ → Option (List ℕ) → List Segment
segments_of memory none = []
segments_of memory (some b) = read_segments memory b

abbrev pub decrypted_of : Option Aead → Option (List ℕ) → Option (List ℕ)
decrypted_of security none = none
decrypted_of security (some b) = decrypted security b

-- `KCPPacketReader.Read`, with a header of a size, if any.
unfoldable pub read_packet : Option ℕ → Option Aead → List ℕ → List ℕ → List Segment
read_packet header security memory b =
    segments_of memory (decrypted_of security (behind_header header b))

abbrev pub header_size : Option ℕ → ℕ
header_size none = 0
header_size (some n) = n

-- `KCPPacketWriter.Overhead`
unfoldable pub packet_overhead : Option ℕ → Option Aead → ℕ
packet_overhead header none = header_size header
packet_overhead header (some a) = header_size header + a.overhead

-- `bb.BytesFrom(int32(-nonceSize))`, which is the whole buffer for a nonce of no bytes.
abbrev pub nonce_of : List ℕ → List ℕ → List ℕ
nonce_of header [] = header
nonce_of header (b ∷ bs) = b ∷ bs

abbrev pub sealed_behind : Aead → List ℕ → List ℕ → List ℕ → List ℕ
sealed_behind a header nonce b =
    a.seal_with (size - (length header + length nonce)) (nonce_of header nonce) b

-- `KCPPacketWriter.Write` behind a header of the given bytes, which are none if there is no header.
unfoldable pub write_packet : List ℕ → Option Aead → List ℕ → List ℕ → Option (List ℕ)
write_packet header none nonce b =
    if ltb size (length header) then none else some (header ++ take (size - length header) b)
write_packet header (some a) nonce b =
    if ltb size (length header + length nonce + (a.overhead + length b))
    then none
    else some (header ++ (nonce ++ sealed_behind a header nonce b))

-- `SimpleSegmentWriter.Write`: the bytes that its writer is given.
unfoldable pub write_segment : Segment → Option (List ℕ)
write_segment s = if ltb size (byte_size s) then none else serialize s
