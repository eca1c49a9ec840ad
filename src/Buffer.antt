-- ===== src/Buffer.antt =====
-- common/buf/buffer.go: a window `start..end` on a byte array.
--
-- `v` is the array's contents, so `length v` is its capacity (the empty list stands for nil, as
-- after a release). Positions are int32 in Go; they lie between 0 and the capacity, which is
-- `IsValid`, and an argument that may be negative is an integer. `none` is a Go panic. The memory
-- that a pool hands out is an argument. Slices that Go shares with the array are copies here.
pub mod Content
pub mod Reading
use reflex_network_project.Prelude.{
  ℕ, ◌+◌, ◌-◌, ◌≤◌, Bool, true, false, ◌&&◌, ◌||◌, Option, none, some, List, [], ◌∷◌, ◌++◌, ltb,
  leb, ◌==◌, if◌then◌else◌, length, take, drop, get_or, replicate, min,
}
use reflex_network_project.Prelude.Int.{ℤ, pos, negsuc, ltb_ℤ, ◌+ℤ◌, ◌-ℤ◌}
use reflex_network_project.Io.{Error, Outcome, ok, err, Stream, read_full}

-- `Size`, the capacity of a regular buffer.
abbrev pub size : ℕ
size = 8192

pub data Ownership : Type 0 where
  managed unmanaged bytespools : Ownership

pub record Buffer : Type 0 where
  pub v : List ℕ
  pub start : ℕ
  pub stop : ℕ
  pub ownership : Ownership
  -- The UDP destination, by its number.
  pub udp : Option ℕ

pub record IsValid (b : Buffer) : Type 0 where
  pub ordered : b.start ≤ b.stop
  pub within : b.stop ≤ length b.v

-- `New` and `StackNew`, on `Size` bytes of memory from the pool.
unfoldable pub new : List ℕ → Buffer
new memory = record {
  v = take size memory;
  start = 0;
  stop = 0;
  ownership = Ownership.managed;
  udp = none;
}

-- `NewExisted` of a slice with `spare` bytes of capacity behind it.
unfoldable pub new_existed : List ℕ → List ℕ → Option Buffer
new_existed b spare =
    if ltb (length b + length spare) size
    then none
    else some (record {
      v = if ltb (length b) size then take size (b ++ spare) else b;
      start = 0;
      stop = length b;
      ownership = Ownership.managed;
      udp = none;
    })

unfoldable pub from_bytes : List ℕ → Buffer
from_bytes b = record {
  v = b;
  start = 0;
  stop = length b;
  ownership = Ownership.unmanaged;
  udp = none;
}

-- `NewWithSize`, on the memory that `bytespool.Alloc` gives.
unfoldable pub new_with_size : List ℕ → Buffer
new_with_size memory = record {
  v = memory;
  start = 0;
  stop = 0;
  ownership = Ownership.bytespools;
  udp = none;
}

unfoldable pub clear : Buffer → Buffer
clear b = record b { start = 0; stop = 0 }

-- The memory that goes back to a pool is the second part.
unfoldable pub release : Buffer → Buffer × Option (List ℕ)
release b =
    let freed = record b { v = []; start = 0; stop = 0; udp = none } in
    if length b.v == 0 then (b, none) else elim b.ownership [
      | Ownership.unmanaged ↦ (b, none)
      | Ownership.managed ↦ (freed, if length b.v == size then some b.v else none)
      | Ownership.bytespools ↦ (freed, some b.v)
    ]

unfoldable pub byte_at : Buffer → ℕ → Option ℕ
byte_at b index =
    if ltb (b.start + index) (length b.v) then some (get_or b.v (b.start + index) 0) else none

unfoldable pub set_byte : Buffer → ℕ → ℕ → Option Buffer
set_byte b index value =
    if ltb (b.start + index) (length b.v)
    then some
        (record b { v = take (b.start + index) b.v ++ (value ∷ drop (b.start + index + 1) b.v) })
    else none

-- `v[from:to]`
abbrev pub slice : List ℕ → ℕ → ℕ → List ℕ
slice v from to = take (to - from) (drop from v)

abbrev pub slice? : List ℕ → ℕ → ℕ → Option (List ℕ)
slice? v from to = if leb from to && leb to (length v) then some (slice v from to) else none

unfoldable pub bytes : Buffer → List ℕ
bytes b = slice b.v b.start b.stop

-- `b.v` with `bs` written over it from `at` on.
unfoldable pub overwrite : List ℕ → ℕ → List ℕ → List ℕ
overwrite v at bs = take at v ++ (bs ++ drop (at + length bs) v)

-- The extended part is cleared.
unfoldable pub extend : Buffer → ℕ → Option Buffer
unfolding overwrite
extend b n =
    let stop = b.stop + n in
    if ltb (length b.v) stop
    then none
    else some (record b { v = overwrite b.v b.stop (replicate n 0); stop = stop })

unfoldable pub len : Buffer → ℕ
len b = b.stop - b.start

unfoldable pub cap : Buffer → ℕ
cap b = length b.v

unfoldable pub available : Buffer → ℕ
available b = length b.v - b.stop

unfoldable pub is_empty : Buffer → Bool
unfolding len
is_empty b = len b == 0

unfoldable pub is_full : Buffer → Bool
is_full b = b.stop == length b.v

-- `if from < 0 { from += b.Len() }`, and whether it is still negative.
abbrev pub from_end : Buffer → ℤ → ℤ
from_end b (pos n) = pos n
from_end b (negsuc n) = pos (b.stop - b.start) -ℤ pos (n + 1)

-- `BytesRange`, `BytesFrom` and `BytesTo`. A position left of the array is a panic, and so is an
-- empty range turned round.
unfoldable pub range_at : Buffer → ℤ → ℤ → Option (List ℕ)
range_at b (pos from) (pos to) = slice? b.v (b.start + from) (b.start + to)
range_at b (pos from) (negsuc to) =
    if leb (to + 1) b.start then slice? b.v (b.start + from) (b.start - (to + 1)) else none
range_at b (negsuc from) (pos to) =
    if leb (from + 1) b.start then slice? b.v (b.start - (from + 1)) (b.start + to) else none
range_at b (negsuc from) (negsuc to) =
    if leb (from + 1) b.start && leb (to + 1) b.start
    then slice? b.v (b.start - (from + 1)) (b.start - (to + 1))
    else none

unfoldable pub bytes_range : Buffer → ℤ → ℤ → Option (List ℕ)
unfolding range_at ◌-ℤ◌
bytes_range b from to = range_at b (from_end b from) (from_end b to)

unfoldable pub bytes_from : Buffer → ℤ → Option (List ℕ)
unfolding range_at ◌-ℤ◌
bytes_from b from = range_at b (from_end b from) (pos (b.stop - b.start))

-- A position that is negative even from the end counts as 0.
abbrev pub floor_zero : ℤ → ℕ
floor_zero (pos n) = n
floor_zero (negsuc n) = 0

unfoldable pub bytes_to : Buffer → ℤ → Option (List ℕ)
unfolding ◌-ℤ◌
bytes_to b to = slice? b.v b.start (b.start + floor_zero (from_end b to))

-- `Check` on positions that a cut may have made negative or turned round.
unfoldable pub check : ℤ → ℤ → ℕ × ℕ
check start stop =
    let start' = floor_zero start in
    let stop' = floor_zero stop in (if ltb stop' start' then stop' else start', stop')

-- The part behind the old end is cleared; a position behind the array is a panic there.
unfoldable pub resize : Buffer → ℤ → ℤ → Option Buffer
unfolding check overwrite ◌-ℤ◌ ◌+ℤ◌
resize b from to =
    let from' = from_end b from in
    let to' = from_end b to in
    let (start, stop) = check (pos b.start +ℤ from') (pos b.start +ℤ to') in
    if ltb_ℤ to' from'
    then none
    else if leb stop b.stop
    then some (record b { start = start; stop = stop })
    else if ltb (length b.v) stop
    then none
    else some (record b {
      v = overwrite b.v b.stop (replicate (stop - b.stop) 0);
      start = start;
      stop = stop;
    })

unfoldable pub advance : Buffer → ℤ → Buffer
unfolding check ◌-ℤ◌ ◌+ℤ◌
advance b from =
    let (start, stop) = check (pos b.start +ℤ from_end b from) (pos b.stop) in
    record b { start = start; stop = stop }

-- `Write`: what fits is written, and the number of bytes written is the second part.
unfoldable pub write : Buffer → List ℕ → Buffer × ℕ × Option Error
unfolding overwrite
write b p =
    let n = min (length b.v - b.stop) (length p) in
    (
      record b { v = overwrite b.v b.stop (take n p); stop = b.stop + n },
      n,
      if ltb n (length p) then some Error.buffer_full else none,
    )

unfoldable pub write_byte : Buffer → ℕ → Buffer × Option Error
unfolding overwrite
write_byte b c =
    if b.stop == length b.v
    then (b, some Error.buffer_full)
    else (record b { v = overwrite b.v b.stop (c ∷ []); stop = b.stop + 1 }, none)

unfoldable pub read_byte : Buffer → Outcome Buffer ℕ
read_byte b =
    if b.start == b.stop
    then err Error.eof b
    else ok (get_or b.v b.start 0) (record b { start = b.start + 1 })

unfoldable pub read_bytes : Buffer → ℕ → Outcome Buffer (List ℕ)
read_bytes b n =
    if ltb (b.stop - b.start) n
    then err Error.eof b
    else ok (slice b.v b.start (b.start + n)) (record b { start = b.start + n })

-- `Read` into a slice of `n` bytes: a buffer that is read out is cleared.
unfoldable pub read : Buffer → ℕ → Outcome Buffer (List ℕ)
unfolding bytes len clear
read b n =
    let taken = take n (bytes b) in
    if len b == 0
    then err Error.eof b
    else if length taken == len b
    then ok taken (clear b)
    else ok taken (record b { start = b.start + length taken })

-- `ReadFrom`: one `Read` of the reader, which gave `got` and the error `e`, on the free part.
unfoldable pub read_from : Buffer → List ℕ → Option Error → Buffer × ℕ × Option Error
unfolding overwrite
read_from b got e =
    (record b { v = overwrite b.v b.stop got; stop = b.stop + length got }, length got, e)

-- `ReadFullFrom`: a partial read stays in the buffer. The stream is the second part.
unfoldable pub read_full_from : Buffer → ℕ → Stream → Buffer × Stream × Option Error
unfolding overwrite
read_full_from b n st =
    if ltb (length b.v) (b.stop + n)
    then (b, st, some (Error.failure (b.stop + n)))
    else elim (read_full n st) [
      | ok got st' ↦
          (record b { v = overwrite b.v b.stop got; stop = b.stop + length got }, st', none)
      | err e st' ↦ (
        record b { v = overwrite b.v b.stop st.pending; stop = b.stop + length st.pending },
        st',
        some e,
      )
    ]
