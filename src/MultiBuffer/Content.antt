-- ===== src/MultiBuffer/Content.antt =====
-- common/buf/multi_buffer.go: the operations as operations on the bytes that a list of buffers
-- holds, wherever its buffers begin and end.
use reflex_network_project.Prelude.{
  ℕ, true, zero, suc, ◌+◌, ◌-◌, ◌≤◌, ◌≡◌, ◌≢◌, refl, ap, ◌∙◌, sym, inl, inr, List, [], ◌∷◌, ◌++◌,
  arith, ◌==◌, length, take, drop, min, All, length-append, length-take, length-drop, append_assoc,
  append-nil, Bool-cases, drop_all, take_all, take-append_le, drop-append_le, take-append_add,
  drop-append_add, take-cong, take-append-drop, take-min,
}
use native.Mathlib.Decide.{dec_lt}
use reflex_network_project.Io.{ok, Wire}
use reflex_network_project.Io.{write_fits}
use reflex_network_project.Buffer.{Buffer, IsValid, size}
use reflex_network_project.Buffer
use reflex_network_project.Buffer.Content.{
  length-bytes, write_lem, new-IsValid, available-new, bytes-new,
}
use reflex_network_project.Buffer.Reading.{read_lem}
use reflex_network_project.MultiBuffer.{
  MultiBuffer, is_empty, fill_new, merge_bytes, copy, split_bytes, read_some, len,
  write_multi_buffer,
}

-- The bytes of all buffers, in order.
unfoldable pub content : MultiBuffer → List ℕ
content [] = []
content (b ∷ mb) = Buffer.bytes b ++ content mb

pub len_lem : (mb : MultiBuffer) → All IsValid mb → len mb ≡ length (content mb)
unfolding len content
len_lem [] v = refl
len_lem (b ∷ mb) v =
    omega (arith, len_lem mb v.1, length-bytes b v.0, length-append (Buffer.bytes b) (content mb))

-- `Copy` gives the first `n` bytes of the content of valid buffers.
pub copy_lem : (mb : MultiBuffer) (n : ℕ) → All IsValid mb → copy mb n ≡ take n (content mb)
unfolding copy content
copy_lem [] n v = sym (take_all n [] (omega arith))
copy_lem (b ∷ mb) n v = elim (dec_lt n (length (Buffer.bytes b))) [
  | yes short ↦ ground (
    arith,
    length-take n (Buffer.bytes b),
    length-bytes b v.0,
    take-append_le n (Buffer.bytes b) (content mb),
  )
  | no long ↦ ground (
    arith,
    length-take n (Buffer.bytes b),
    length-bytes b v.0,
    take_all n (Buffer.bytes b) (omega arith),
    take-append_add n (n - length (Buffer.bytes b)) (Buffer.bytes b) (content mb),
    copy_lem mb (n - length (Buffer.bytes b)) v.1,
  )
]

-- What a write took and what it left make up what was written.
write_rest :
    (b : Buffer) (p : List ℕ)
    → IsValid b
    → let (b', n, _) = Buffer.write b p in Buffer.bytes b' ++ drop n p ≡ Buffer.bytes b ++ p
write_rest b p v =
    let w = write_lem b p v in
    let n = (Buffer.write b p).1 in
    let room = Buffer.available b in
    let e : take room p ≡ take n p =
      sym (take-min room p) ∙ take-cong (min room (length p)) n p (sym w.2) in
    rw (w.1, e)
      (append_assoc (Buffer.bytes b) (take n p) (drop n p)
        ∙ ap (◌++◌ (Buffer.bytes b)) (take-append-drop n p))

module _ (memory : List ℕ) (enough : size ≤ length memory) where
  fill_new_lem :
      (fuel : ℕ) (src : List ℕ)
      → length src ≤ fuel
      → All IsValid (fill_new memory fuel src) × (content (fill_new memory fuel src) ≡ src)
  unfolding fill_new content
  fill_new_lem zero [] h = (tt, refl)
  fill_new_lem (suc fuel) [] h = (tt, refl)
  fill_new_lem zero (x ∷ xs) h = absurd (omega arith)
  fill_new_lem (suc fuel) (x ∷ xs) h =
      let b = Buffer.new memory in
      let v = new-IsValid memory enough in
      let w = write_lem b (x ∷ xs) v in
      let n = (Buffer.write b (x ∷ xs)).1 in
      let left : List ℕ = drop n (x ∷ xs) in
      let rest =
        fill_new_lem fuel left
          (omega (arith, w.2, available-new memory enough, length-drop n (x ∷ xs))) in
      (
        (w.0, rest.0),
        rw rest.1 (write_rest b (x ∷ xs) v ∙ ap (λ bs. bs ++ (x ∷ xs)) (bytes-new memory enough)),
      )

  -- Merging bytes into a list of valid buffers adds them behind its content, and leaves every
  -- buffer valid. A new buffer's memory has the regular size at least.
  pub merge_bytes_lem :
      (mb : MultiBuffer) (src : List ℕ)
      → All IsValid mb
      → All IsValid (merge_bytes memory mb src)
        × (content (merge_bytes memory mb src) ≡ content mb ++ src)
  unfolding merge_bytes content
  merge_bytes_lem [] src v = fill_new_lem (length src) src (omega arith)
  merge_bytes_lem (b ∷ []) src v = elim (Bool-cases (Buffer.is_full b)) [
    | inl full ↦
        let rest = fill_new_lem (length src) src (omega arith) in
        rw full ((v.0, rest.0), rw (rest.1, append-nil (Buffer.bytes b)) refl)
    | inr not_full ↦
        let left : List ℕ = drop (Buffer.write b src).1 src in
        let rest = fill_new_lem (length left) left (omega arith) in
        rw not_full (
          ((write_lem b src v.0).0, rest.0),
          rw (rest.1, append-nil (Buffer.bytes b)) (write_rest b src v.0),
        )
  ]
  merge_bytes_lem (b ∷ c ∷ mb) src v =
      let rest = merge_bytes_lem (c ∷ mb) src v.1 in
      (
        (v.0, rest.0),
        ap (◌++◌ (Buffer.bytes b)) rest.1
            ∙ sym (append_assoc (Buffer.bytes b) (content (c ∷ mb)) src),
      )

-- One buffer's part of `SplitBytes`: what it gives, and what is left in it.
read_some_lem :
    (b : Buffer) (n : ℕ)
    → IsValid b
    → let (b', bs) = read_some b n in
      IsValid b' × (bs ≡ take n (Buffer.bytes b)) × (Buffer.bytes b' ≡ drop n (Buffer.bytes b))
read_some_lem b n v = elim (read_lem b n v) [
  | inl (empty, e) ↦
      rw (e, read_some, empty)
        (v, sym (take_all n [] (omega arith)), sym (drop_all n [] (omega arith)))
  | inr (b', e, rest) ↦ rw (e, read_some) (rest.valid, refl, rest.content)
]

is_empty_lem : (b : Buffer) → IsValid b → Buffer.is_empty b ≡ (length (Buffer.bytes b) == 0)
unfolding Buffer.is_empty
is_empty_lem b v = ground (arith, length-bytes b v)

-- `IsEmpty` holds only where there are no bytes.
pub is_empty→content : (mb : MultiBuffer) → All IsValid mb → is_empty mb ≡ true → content mb ≡ []
unfolding is_empty content
is_empty→content [] v h = refl
is_empty→content (b ∷ mb) v h = elim (Bool-cases (Buffer.is_empty b)) [
  | inl gone ↦
      let none : length (Buffer.bytes b) ≡ 0 = ground (arith, is_empty_lem b v.0, gone) in
      rw (length_zero (Buffer.bytes b) none) (is_empty→content mb v.1 (rw gone at h))
  | inr more ↦ cc (rw more at h)
]
  where
    length_zero : (bs : List ℕ) → length bs ≡ 0 → bs ≡ []
    length_zero [] e = refl
    length_zero (x ∷ xs) e = absurd (omega arith)

-- Splitting off up to `n` bytes of valid buffers gives the first `n` bytes of their content, or all
-- of it if there are fewer, and leaves valid buffers with the rest, wherever the buffers end.
pub split_bytes_lem :
    (mb : MultiBuffer) (n : ℕ)
    → All IsValid mb
    → let (left, bs) = split_bytes mb n in
      All IsValid left × (bs ≡ take n (content mb)) × (content left ≡ drop n (content mb))
unfolding split_bytes content
split_bytes_lem [] n v = (tt, sym (take_all n [] (omega arith)), sym (drop_all n [] (omega arith)))
split_bytes_lem (b ∷ mb) n v =
    let (b', bs) = read_some b n in
    let one = read_some_lem b n v.0 in
    let rest = split_bytes_lem mb (n - length bs) v.1 in
    let empty = is_empty_lem b' one.0 in
    let cut = length-drop n (Buffer.bytes b) in
    let took = length-take n (Buffer.bytes b) in
    elim (Bool-cases (Buffer.is_empty b')) [
      | inl done ↦
          let gone : length (Buffer.bytes b') ≡ 0 = ground (arith, empty, done) in
          let whole : length (Buffer.bytes b) ≤ n = omega (arith, cut, gone, ap length one.2) in
          let all : bs ≡ Buffer.bytes b = one.1 ∙ take_all n (Buffer.bytes b) whole in
          let count : n ≡ length (Buffer.bytes b) + (n - length bs) =
            omega (arith, ap length all) in
          rw done (
            rest.0,
            ap (λ xs. xs ++ (split_bytes mb (n - length bs)).1) all
                ∙ (ap (◌++◌ (Buffer.bytes b)) rest.1
                    ∙ sym (take-append_add n (n - length bs) (Buffer.bytes b) (content mb) count)),
            rest.2 ∙ sym (drop-append_add n (n - length bs) (Buffer.bytes b) (content mb) count),
          )
      | inr more ↦
          let kept : length (Buffer.bytes b') ≢ 0 = λ h. ground (arith, empty, more, h) in
          let part : n ≤ length (Buffer.bytes b) = omega (arith, cut, kept, ap length one.2) in
          rw more (
            (one.0, v.1),
            one.1 ∙ sym (take-append_le n (Buffer.bytes b) (content mb) part),
            ap (λ xs. xs ++ content mb) one.2
                ∙ sym (drop-append_le n (Buffer.bytes b) (content mb) part),
          )
    ]

-- What an output with room for it is sent is the content, in order, and nothing is left.
pub write_multi_buffer_lem :
    (mb : MultiBuffer) (w : Wire)
    → length (content mb) ≤ w.room
    → write_multi_buffer mb w ≡ (
      ok tt (record { written = w.written ++ content mb; room = w.room - length (content mb) }),
      [],
    )
unfolding write_multi_buffer content
write_multi_buffer_lem [] w h = ground (arith, append-nil w.written)
write_multi_buffer_lem (b ∷ mb) w h = ground (
  arith,
  length-append (Buffer.bytes b) (content mb),
  write_fits (Buffer.bytes b) w,
  append_assoc w.written (Buffer.bytes b) (content mb),
  write_multi_buffer_lem mb
      (record { written = w.written ++ Buffer.bytes b; room = w.room - length (Buffer.bytes b) }),
)
