-- ===== src/Kcp/Packets/RoundTrip.antt =====
-- The reader takes off what the writer has put around a packet.
use reflex_network_project.Prelude.{
  ℕ, ◌+◌, ◌-◌, ◌^◌, ◌≤◌, ◌<◌, ◌≡◌, ◌≢◌, ◌⊎◌, ◌∙◌, inl, inr, ◌==◌, replicate, length-replicate,
  le→leb, Bool-cases, sym, ap, subst, refl, Option, none, some, List, [], ◌∷◌, ◌++◌, arith, length,
  length-append, take-append_eq, drop-append_eq, take_all, le→ltb, lt→leb, lt→ltb,
}
use reflex_network_project.Buffer.{size}
use reflex_network_project.Kcp.Segment.{Segment, read_segments}
use reflex_network_project.Kcp.Segment.Packet.{
  AllFit, SameSegments, serialize_all, read_segments-serialize_all,
}
use reflex_network_project.Kcp.Crypt.{seal, padded, labelled, xtra}
use reflex_network_project.Kcp.Crypt.RoundTrip.{length-labelled, length-seal, open_sealed-seal}
use reflex_network_project.Kcp.Packets.{
  Aead, simple_authenticator, behind_header, decrypted, nonce_of, sealed_behind, seal_within,
  header_size, read_packet, write_packet, packet_overhead,
}

-- What is documented of an AEAD with nonces of its size, for packets of up to `most` bytes and a
-- buffer with `slack` bytes more than the sealed packet takes. One without a nonce takes no notice of
-- what it is given as the nonce.
pub record IsAead (most slack : ℕ) (a : Aead) : Type 0 where
  pub length_seal :
      (room : ℕ) (used p : List ℕ)
      → length p + a.overhead + slack ≤ room
      → length (a.seal_with room used p) ≡ length p + a.overhead
  pub open_seal :
      (room : ℕ) (nonce used p : List ℕ)
      → length nonce ≡ a.nonce_size
      → (used ≡ nonce) ⊎ (a.nonce_size ≡ 0)
      → length p ≤ most
      → length p + a.overhead + slack ≤ room
      → a.open_with nonce (a.seal_with room used p) ≡ some p

-- The zeros up to a whole word are three at most.
length-padded_le : (dst : List ℕ) → length (padded dst) ≤ length dst + 3
unfolding padded
length-padded_le dst = elim (Bool-cases (xtra (length dst) == 4)) [
  | inl whole ↦ rw whole (omega arith)
  | inr part ↦
      let short : xtra (length dst) ≢ 4 = λ h. ground (arith, part, h) in
      rw part (
        omega (
          arith,
          short,
          length-append dst (replicate (xtra (length dst)) 0),
          length-replicate {A = ℕ} (xtra (length dst)) 0,
        ))
]

seal_within-seal :
    (room : ℕ) (p : List ℕ) → length p + 6 + 3 ≤ room → seal_within room p ≡ seal [] p
unfolding seal_within
seal_within-seal room p h =
    rw
      (le→leb (length (padded (labelled [] p))) room
        (omega (arith, length-padded_le (labelled [] p), length-labelled p)))
      refl

pub simple_authenticator-IsAead : IsAead 65535 3 simple_authenticator
unfolding simple_authenticator
simple_authenticator-IsAead = record {
  length_seal = λ room used p h. ap length (seal_within-seal room p h) ∙ length-seal p;
  open_seal = λ room nonce used p e same h fits.
      rw
        (
          seal_within-seal room p fits,
          open_sealed-seal (length (seal [] p)) p (omega arith),
          lt→ltb (length p) (2 ^ 16) (omega arith),
        )
        refl;
}

abbrev pub Secures : ℕ → ℕ → ℕ → Option Aead → Type 0
Secures most slack n none = n ≡ 0
Secures most slack n (some a) = IsAead most slack a × (a.nonce_size ≡ n)

-- The nonce that the cipher is given is the one that goes out, or there is none.
nonce_of-same : (header nonce : List ℕ) → (nonce_of header nonce ≡ nonce) ⊎ (length nonce ≡ 0)
nonce_of-same header [] = inr refl
nonce_of-same header (b ∷ bs) = inl refl

nil_of_length : (xs : List ℕ) → length xs ≡ 0 → xs ≡ []
nil_of_length [] h = refl
nil_of_length (x ∷ xs) h = absurd (omega arith)

behind_header_lem :
    (hs : Option ℕ) (header b : List ℕ)
    → length header ≡ header_size hs
    → 0 < length b
    → behind_header hs (header ++ b) ≡ some b
behind_header_lem none header b e pos = ap (λ h. some (h ++ b)) (nil_of_length header e)
behind_header_lem (some n) header b e pos =
    rw
      (
        lt→leb (length (header ++ b)) n (omega (arith, length-append header b)),
        drop-append_eq n header b (sym e),
      )
      refl

decrypted-seal :
    (most slack : ℕ) (a : Aead) (header nonce out : List ℕ)
    → IsAead most slack a
    → a.nonce_size ≡ length nonce
    → 0 < length out
    → length out ≤ most
    → length header + a.overhead + length nonce + length out + slack ≤ size
    → (decrypted (some a) (nonce ++ sealed_behind a header nonce out) ≡ some out)
      × (0 < length (nonce ++ sealed_behind a header nonce out))
decrypted-seal most slack a header nonce out l n pos h room =
    let sealed = sealed_behind a header nonce out in
    let free = size - (length header + length nonce) in
    let fits : length out + a.overhead + slack ≤ free = omega (arith, room) in
    let len = length-append nonce sealed in
    let size_sealed = l.length_seal free (nonce_of header nonce) out fits in
    let front = take-append_eq a.nonce_size nonce sealed n in
    let back = drop-append_eq a.nonce_size nonce sealed n in
    let used : (nonce_of header nonce ≡ nonce) ⊎ (a.nonce_size ≡ 0) =
      elim (nonce_of-same header nonce) [ inl same ↦ inl same | inr empty ↦ inr (n ∙ empty) ] in
    (
      rw
          (
            lt→leb (length (nonce ++ sealed)) (a.nonce_size + a.overhead)
                (omega (arith, len, size_sealed, n, pos)),
            front,
            back,
          )
          (l.open_seal free nonce (nonce_of header nonce) out (sym n) used h fits),
      omega (arith, len, size_sealed, pos),
    )

-- What goes on the wire, and comes off it again.
pub read_packet-write :
    (most slack : ℕ) (hs : Option ℕ) (security : Option Aead) (memory header nonce out : List ℕ)
    → length header ≡ header_size hs
    → Secures most slack (length nonce) security
    → 0 < length out
    → length out ≤ most
    → packet_overhead hs security + length nonce + length out + slack ≤ size
    → (wire : List ℕ) × (write_packet header security nonce out ≡ some wire)
      × (read_packet hs security memory wire ≡ read_segments memory out)
unfolding read_packet write_packet packet_overhead
read_packet-write most slack hs none memory header nonce out len l pos h room = (
  header ++ out,
  rw (le→ltb size (length header) (omega arith), take_all (size - length header) out (omega arith))
      refl,
  rw (behind_header_lem hs header out len pos) refl,
)
read_packet-write most slack hs (some a) memory header nonce out len (l, n) pos h room =
    let sealed = nonce ++ sealed_behind a header nonce out in
    let (opened, some_bytes) =
      decrypted-seal most slack a header nonce out l n pos h (omega (arith, len, room)) in
    (
      header ++ sealed,
      rw (le→ltb size (length header + length nonce + (a.overhead + length out)) (omega arith))
          refl,
      rw (behind_header_lem hs header sealed len some_bytes, opened) refl,
    )

-- Segments that fit their widths, whose data is not empty, put into one packet, come out of it as the
-- same segments in the same order, whatever header and cipher stand around them: the header has
-- the size that the reader expects, the cipher opens what it sealed, and the buffer of 8192 bytes
-- takes the packet with as many bytes more as the cipher needs to seal in place, which are three
-- for the simple authenticator.
pub read_packet-write_packet :
    (most slack : ℕ) (hs : Option ℕ) (security : Option Aead) (memory header nonce out : List ℕ)
    (ss : List Segment)
    → AllFit ss
    → serialize_all ss ≡ some out
    → size ≤ length memory
    → length header ≡ header_size hs
    → Secures most slack (length nonce) security
    → 0 < length out
    → length out ≤ most
    → packet_overhead hs security + length nonce + length out + slack ≤ size
    → (wire : List ℕ) × (write_packet header security nonce out ≡ some wire)
      × SameSegments ss (read_packet hs security memory wire)
read_packet-write_packet most slack hs security memory header nonce out ss fit written enough len l
      pos h room =
    let (wire, sent, got) =
      read_packet-write most slack hs security memory header nonce out len l pos h room in
    let (out', (written', same)) = read_segments-serialize_all memory ss enough fit in
    let e : out' ≡ out = cc in
    (
      wire,
      sent,
      subst (SameSegments ss) (sym got)
          (subst (λ o. SameSegments ss (read_segments memory o)) e same),
    )
