-- ===== src/Buffer/Content.antt =====
-- common/buf/buffer.go: what the operations that add bytes do to the content of a valid buffer.
use reflex_network_project.Prelude.{
  ℕ, ◌+◌, ◌-◌, ◌≤◌, ◌<◌, ◌≡◌, refl, ap, ◌∙◌, none, some, List, [], ◌++◌, arith, ◌⊎◌, inl, inr,
  lt→ltb, le→ltb, leb, if◌then◌else◌, length, take, drop, replicate, min, length-append,
  length-take, length-drop, drop-append_le, take-append_add, take-append, drop-take,
  length-replicate, take-min,
}
use native.Mathlib.Decide.{dec_lt}
use reflex_network_project.Io.{Error}
use reflex_network_project.Buffer.{
  Buffer, IsValid, bytes, overwrite, write, extend, len, available, size, new, slice,
}

pub length-overwrite :
    (v : List ℕ) (at : ℕ) (bs : List ℕ)
    → at + length bs ≤ length v
    → length (overwrite v at bs) ≡ length v
unfolding overwrite
length-overwrite v at bs h = omega (
  arith,
  length-append (take at v) (bs ++ drop (at + length bs) v),
  length-append bs (drop (at + length bs) v),
  length-take at v,
  length-drop (at + length bs) v,
)

-- Writing at the end of a window adds to the window's content.
pub slice-overwrite :
    (v : List ℕ) (start stop stop' : ℕ) (bs : List ℕ)
    → start ≤ stop
    → stop + length bs ≤ length v
    → stop' ≡ stop + length bs
    → slice (overwrite v stop bs) start stop' ≡ slice v start stop ++ bs
unfolding overwrite
slice-overwrite v start stop stop' bs order fits e =
    let back = drop (stop + length bs) v in
    let front = drop start (take stop v) in
    let l1 = length-take stop v in
    let l2 = length-drop start (take stop v) in
    rw (drop-append_le start (take stop v) (bs ++ back) (omega arith)) (
      take-append_add (stop' - start) (length bs) front (bs ++ back) (omega arith)
      ∙ (rw (take-append bs back) (ap (λ xs. xs ++ bs) (drop-take start stop v))))

pub length-bytes : (b : Buffer) → IsValid b → length (bytes b) ≡ len b
unfolding bytes len
length-bytes b v =
    omega (arith, length-take (b.stop - b.start) (drop b.start b.v), length-drop b.start b.v)

-- A write to a valid buffer adds to its content as many bytes as there is room for, reports their
-- number, and reports a full buffer exactly when some are left over. The buffer stays valid, with
-- the same capacity.
pub write_lem :
    (b : Buffer) (p : List ℕ)
    → IsValid b
    → let (b', n, e) = write b p in
      IsValid b'
      × (bytes b' ≡ bytes b ++ take (available b) p)
      × (n ≡ min (available b) (length p))
      × (e ≡ (if leb (length p) (available b) then none else some Error.buffer_full))
      × (length b'.v ≡ length b.v)
unfolding write bytes available
write_lem b p v =
    let n = min (length b.v - b.stop) (length p) in
    let lt = length-take n p in
    let lo = length-overwrite b.v b.stop (take n p) (omega arith) in
    (
      omega arith,
      slice-overwrite b.v b.start b.stop (b.stop + n) (take n p) v.ordered (omega arith)
            (omega arith)
          ∙ ap (λ xs. bytes b ++ xs) (take-min (length b.v - b.stop) p),
      refl,
      ground arith,
      lo,
    )

-- Extending by `n` bytes adds `n` zeros to the content, or panics where there is no room for them.
pub extend_lem :
    (b : Buffer) (n : ℕ)
    → IsValid b
    → ((available b < n) × (extend b n ≡ none))
      ⊎ ((b' : Buffer) × (extend b n ≡ some b')
          × IsValid b'
          × (bytes b' ≡ bytes b ++ replicate n 0))
unfolding extend bytes available
extend_lem b n v = elim (dec_lt (length b.v) (b.stop + n)) [
  | yes over ↦ inl (omega arith, rw (lt→ltb _ _ over))
  | no fits ↦
      let zeros : List ℕ = replicate n 0 in
      let lz : length zeros ≡ n = length-replicate n 0 in
      let lo = length-overwrite b.v b.stop zeros (omega arith) in
      inr (
        record b { v = overwrite b.v b.stop zeros; stop = b.stop + n },
        rw (le→ltb (length b.v) (b.stop + n) (omega arith)),
        omega arith,
        slice-overwrite b.v b.start b.stop (b.stop + n) zeros v.ordered (omega arith) (omega arith),
      )
]

module _ (memory : List ℕ) (enough : size ≤ length memory) where
  length-new : length (new memory).v ≡ size
  unfolding new
  length-new = omega (arith, length-take size memory)

  pub new-IsValid : IsValid (new memory)
  unfolding new
  new-IsValid = record { ordered = omega arith; within = omega arith }

  pub bytes-new : bytes (new memory) ≡ []
  unfolding new bytes
  bytes-new = refl

  pub available-new : available (new memory) ≡ size
  unfolding new available
  available-new = omega (arith, length-new)

  -- A new buffer takes the first 8192 bytes of what is written to it.
  pub bytes-write-new : (p : List ℕ) → bytes (write (new memory) p).0 ≡ take size p
  bytes-write-new p =
      (write_lem (new memory) p new-IsValid).1 ∙ (rw bytes-new (ap (λ n. take n p) available-new))
