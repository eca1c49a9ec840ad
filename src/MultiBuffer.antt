-- ===== src/MultiBuffer.antt =====
-- common/buf/multi_buffer.go: a list of buffers, in order. A buffer is owned by the list that holds
-- it, so the in-place changes that Go makes to it are the new list here. `memory` is what the pool
-- gives for a new buffer, at least `Size` bytes of anything.
pub mod Content
use reflex_network_project.Prelude.{
  ℕ, zero, suc, ◌+◌, ◌-◌, ◌≡◌, Bool, true, false, ◌&&◌, not, Option, none, some, List, [], ◌∷◌,
  ◌++◌, ltb, leb, ◌==◌, if◌then◌else◌, length, take, drop,
}
use reflex_network_project.Prelude.Int.{ℤ, pos}
use reflex_network_project.Io.{Error, Outcome, ok, err, Stream, Wire}
use reflex_network_project.Io
use reflex_network_project.Buffer.{Buffer, size}
use reflex_network_project.Buffer

abbrev pub MultiBuffer : Type 0
MultiBuffer = List Buffer

-- The source list is emptied.
unfoldable pub merge_multi : MultiBuffer → MultiBuffer → MultiBuffer × MultiBuffer
merge_multi dest src = (dest ++ src, [])

-- `for len(src) > 0`: a new buffer for each 8192 bytes. A round takes a byte at least, so the
-- length of `src` is enough fuel.
unfoldable pub fill_new : List ℕ → ℕ → List ℕ → MultiBuffer
fill_new memory fuel [] = []
fill_new memory zero (x ∷ xs) = []
fill_new memory (suc fuel) (x ∷ xs) =
    let (b, n, _) = Buffer.write (Buffer.new memory) (x ∷ xs) in
    b ∷ fill_new memory fuel (drop n (x ∷ xs))

-- The last buffer takes what it has room for.
unfoldable pub merge_bytes : List ℕ → MultiBuffer → List ℕ → MultiBuffer
unfolding fill_new
merge_bytes memory [] src = fill_new memory (length src) src
merge_bytes memory (b ∷ []) src =
    if Buffer.is_full b
    then b ∷ fill_new memory (length src) src
    else (let (b', n, _) = Buffer.write b src in
        b' ∷ fill_new memory (length (drop n src)) (drop n src))
merge_bytes memory (b ∷ c ∷ mb) src = b ∷ merge_bytes memory (c ∷ mb) src

-- Every buffer is released, and the list emptied.
unfoldable pub release_multi : MultiBuffer → MultiBuffer
release_multi mb = []

-- `Copy` into a slice of `n` bytes: the bytes copied.
unfoldable pub copy : MultiBuffer → ℕ → List ℕ
copy [] n = []
copy (b ∷ mb) n =
    let part = take n (Buffer.bytes b) in
    let rest = copy mb (n - length part) in
    if ltb (length part) (Buffer.len b) then part else part ++ rest

-- `SplitBytes` into a slice of `n` bytes: what is left, and the bytes read. An empty buffer gives
-- nothing and is dropped.
abbrev pub read_some : Buffer → ℕ → Buffer × List ℕ
read_some b n = elim (Buffer.read b n) [ ok bs b' ↦ (b', bs) | err e b' ↦ (b', []) ]

unfoldable pub split_bytes : MultiBuffer → ℕ → MultiBuffer × List ℕ
split_bytes [] n = ([], [])
split_bytes (b ∷ mb) n =
    let (b', bs) = read_some b n in
    let rest = split_bytes mb (n - length bs) in
    if Buffer.is_empty b' then (rest.0, bs ++ rest.1) else (b' ∷ mb, bs)

unfoldable pub split_first : MultiBuffer → MultiBuffer × Option Buffer
split_first [] = ([], none)
split_first (b ∷ mb) = (mb, some b)

-- The bytes that `copy(p, b.Bytes())` puts in a slice of `n`.
unfoldable pub split_first_bytes : MultiBuffer → ℕ → MultiBuffer × List ℕ
split_first_bytes [] n = ([], [])
split_first_bytes (b ∷ mb) n = (mb, take n (Buffer.bytes b))

-- `last.ReadFrom(curr)`: one `Read` of `curr` into the free part of `last`; an error is a panic,
-- which for `curr` means that it is empty.
unfoldable pub absorb : Buffer → Buffer → Option Buffer
absorb last curr = elim (Buffer.read curr (Buffer.available last)) [
  | ok bs _ ↦ some (Buffer.read_from last bs none).0
  | err e _ ↦ none
]

unfoldable pub compact_loop : Buffer → MultiBuffer → Option MultiBuffer
compact_loop last [] = some (last ∷ [])
compact_loop last (curr ∷ mb) =
    if ltb (Buffer.available last) (Buffer.len curr)
    then elim (compact_loop curr mb) [ none ↦ none | some mb' ↦ some (last ∷ mb') ]
    else elim (absorb last curr) [ none ↦ none | some last' ↦ compact_loop last' mb ]

unfoldable pub compact : MultiBuffer → Option MultiBuffer
unfolding compact_loop
compact [] = some []
compact (b ∷ mb) = compact_loop b mb

-- The buffers in front that fit `n` bytes whole, and those behind them.
unfoldable pub split_whole : MultiBuffer → ℕ → MultiBuffer × MultiBuffer
split_whole [] n = ([], [])
split_whole (b ∷ mb) n =
    let rest = split_whole mb (n - Buffer.len b) in
    if ltb n (Buffer.len b) then (b ∷ mb, []) else (rest.0, b ∷ rest.1)

-- What is left, and what was split off; `none` is the panic of `Extend` where a first buffer longer
-- than a regular one is cut behind 8192 bytes.
unfoldable pub split_size : List ℕ → MultiBuffer → ℕ → Option (MultiBuffer × MultiBuffer)
split_size memory [] n = some ([], [])
split_size memory (b ∷ mb) n =
    if ltb n (Buffer.len b)
    then elim (Buffer.extend (Buffer.new memory) n) [
      | none ↦ none
      | some c ↦ some (
        Buffer.advance b (pos n) ∷ mb,
        record c { v = Buffer.overwrite c.v 0 (take n (Buffer.bytes b)) } ∷ [],
      )
    ]
    else some (split_whole (b ∷ mb) n)

-- `SplitMulti` at an index; one that is negative or too large splits nothing off.
unfoldable pub split_multi : MultiBuffer → ℤ → MultiBuffer × MultiBuffer
split_multi mb (pos i) = if ltb i (length mb) then (take i mb, drop i mb) else (mb, [])
split_multi mb (ℤ.negsuc _) = (mb, [])

-- What is left behind a failed write.
unfoldable pub write_multi_buffer : MultiBuffer → Wire → Outcome Wire (Unit {0}) × MultiBuffer
write_multi_buffer [] w = (ok tt w, [])
write_multi_buffer (b ∷ mb) w = elim (Io.write (Buffer.bytes b) w) [
  | ok _ w' ↦ write_multi_buffer mb w'
  | err e w' ↦ (err e w', mb)
]

unfoldable pub len : MultiBuffer → ℕ
len [] = 0
len (b ∷ mb) = Buffer.len b + len mb

unfoldable pub is_empty : MultiBuffer → Bool
is_empty [] = true
is_empty (b ∷ mb) = Buffer.is_empty b && is_empty mb

-- `ReadFrom` and, on its result, `ReadAllToBytes`: buffers of 8192 bytes until the reader ends. A
-- round that goes on takes 8192 bytes, so the length of the input and one more is enough fuel.
unfoldable pub read_from : List ℕ → ℕ → Stream → MultiBuffer × Option Error
read_from memory zero st = ([], none)
read_from memory (suc fuel) st =
    let (b, st', e) = Buffer.read_full_from (Buffer.new memory) size st in
    let front : MultiBuffer = if Buffer.is_empty b then [] else b ∷ [] in
    elim e [
      | none ↦ (let (mb, e') = read_from memory fuel st' in (front ++ mb, e'))
      | some Error.eof ↦ (front, none)
      | some Error.unexpected_eof ↦ (front, none)
      | some x ↦ (front, some x)
    ]

unfoldable pub read_all_to_bytes : List ℕ → Stream → Option (List ℕ) × Option Error
read_all_to_bytes memory st = all_bytes (read_from memory (length st.pending + 1) st)
  where
    all_bytes : MultiBuffer × Option Error → Option (List ℕ) × Option Error
    all_bytes (mb, some e) = (none, some e)
    all_bytes (mb, none) =
        if len mb == 0 then (none, none) else (some (split_bytes mb (len mb)).1, none)
