-- ===== src/Buffer/Reading.antt =====
-- common/buf/buffer.go: what the operations that take bytes out do to a valid buffer.
use reflex_network_project.Prelude.{
  ℕ, ◌+◌, ◌-◌, ◌≤◌, ◌<◌, ◌≡◌, ◌≢◌, refl, ap, ◌∙◌, sym, ◌⊎◌, inl, inr, List, [], ◌∷◌, ◌++◌, arith,
  length, take, drop, length-take, length-drop, drop-take, drop-drop, take-cong, drop_all,
  length-append, take_all,
}
use native.Mathlib.Decide.{dec_lt}
use reflex_network_project.Io.{Error, ok, err}
use reflex_network_project.Buffer.{
  Buffer, IsValid, bytes, read, clear, len, slice, write, available,
}
use reflex_network_project.Buffer.Content.{length-bytes, write_lem}

-- Moving the start by `n` cuts `n` bytes off the content.
pub slice_advance :
    (v : List ℕ) (start stop n : ℕ) → slice v (start + n) stop ≡ drop n (slice v start stop)
slice_advance v start stop n =
    rw (drop-take n (stop - start) (drop start v), drop-drop n start v)
      (take-cong (stop - (start + n)) (stop - start - n) (drop (start + n) v) (omega arith))

slice_self : (v : List ℕ) (n : ℕ) → slice v n n ≡ []
slice_self v n = take-cong (n - n) 0 (drop n v) (omega arith)

read_empty : (b : Buffer) (n : ℕ) → b.stop ≤ b.start → read b n ≡ err Error.eof b
unfolding read
read_empty b n h = ground arith

length-slice :
    (v : List ℕ) (start stop : ℕ) → stop ≤ length v → length (slice v start stop) ≡ stop - start
length-slice v start stop h =
    omega (arith, length-take (stop - start) (drop start v), length-drop start v)

read_all :
    (b : Buffer) (n : ℕ)
    → IsValid b
    → b.start < b.stop
    → b.stop ≤ b.start + n
    → read b n ≡ ok (bytes b) (clear b)
unfolding read
read_all b n v some_left all =
    let l : length (slice b.v b.start b.stop) ≡ b.stop - b.start =
      length-slice b.v b.start b.stop v.within in
    ground (arith, take_all n (slice b.v b.start b.stop) (omega arith))

read_some :
    (b : Buffer) (n : ℕ)
    → IsValid b
    → b.start + n < b.stop
    → read b n ≡ ok (take n (bytes b)) (record b { start = b.start + n })
unfolding read
read_some b n v more =
    ground
      (arith, length-take n (slice b.v b.start b.stop), length-slice b.v b.start b.stop v.within)

bytes-empty : (b : Buffer) → b.stop ≤ b.start → bytes b ≡ []
unfolding bytes
bytes-empty b h = take-cong (b.stop - b.start) 0 (drop b.start b.v) (omega arith)

bytes-advance : (b : Buffer) (n : ℕ) → bytes (record b { start = b.start + n }) ≡ drop n (bytes b)
unfolding bytes
bytes-advance b n = slice_advance b.v b.start b.stop n

bytes-clear : (b : Buffer) → bytes (clear b) ≡ []
unfolding bytes clear
bytes-clear b = refl

-- What is left after `n` bytes are read: still valid, the rest of the content, no less room.
pub record Rest (b : Buffer) (n : ℕ) (b' : Buffer) : Type 0 where
  pub valid : IsValid b'
  pub content : bytes b' ≡ drop n (bytes b)
  pub same_array : b'.v ≡ b.v
  pub room : b'.stop ≤ b.stop

pub read_lem :
    (b : Buffer) (n : ℕ)
    → IsValid b
    → ((bytes b ≡ []) × (read b n ≡ err Error.eof b))
      ⊎ ((b' : Buffer) × (read b n ≡ ok (take n (bytes b)) b') × Rest b n b')
read_lem b n v = elim (dec_lt b.start b.stop) [
  | no empty ↦ inl (bytes-empty b (omega arith), read_empty b n (omega arith))
  | yes left ↦ elim (dec_lt (b.start + n) b.stop) [
    | yes more ↦ inr (
      record b { start = b.start + n },
      read_some b n v more,
      record {
        valid = omega arith;
        content = bytes-advance b n;
        same_array = refl;
        room = omega arith;
      },
    )
    | no all ↦
        let l = length-bytes b v in
        inr (
          clear b,
          read_all b n v left (omega arith)
              ∙ ap (λ xs. ok xs (clear b)) (sym (take_all n (bytes b) (unfold len in omega arith))),
          unfold clear in
              record {
                valid = omega arith;
                content = bytes-clear b ∙ sym (drop_all n (bytes b) (unfold len in omega arith));
                same_array = refl;
                room = omega arith;
              },
        )
  ]
]

append-eq_nil : (xs ys : List ℕ) → xs ++ ys ≡ [] → ys ≡ []
append-eq_nil [] ys e = e
append-eq_nil (x ∷ xs) ys e = cc

-- First in, first out: bytes written to a valid buffer that has room for them are read back behind
-- what was there before, unchanged.
pub read-write :
    (b : Buffer) (p : List ℕ)
    → IsValid b
    → p ≢ []
    → length p ≤ available b
    → (b' : Buffer) × (read (write b p).0 (length (bytes b) + length p) ≡ ok (bytes b ++ p) b')
      × (bytes b' ≡ [])
read-write b p v some_bytes fits =
    let after = write_lem b p v in
    let content : bytes (write b p).0 ≡ bytes b ++ p =
      after.1 ∙ ap (λ xs. bytes b ++ xs) (take_all (available b) p fits) in
    let total = length-append (bytes b) p in
    elim (read_lem (write b p).0 (length (bytes b) + length p) after.0) [
      | inl (empty, _) ↦ absurd (some_bytes (append-eq_nil (bytes b) p (sym content ∙ empty)))
      | inr (b', e, rest) ↦ (
        b',
        e
            ∙ ap (λ xs. ok xs b')
                (rw content (take_all (length (bytes b) + length p) (bytes b ++ p) (omega arith))),
        rest.content
            ∙ rw content (drop_all (length (bytes b) + length p) (bytes b ++ p) (omega arith)),
      )
    ]
