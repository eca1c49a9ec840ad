-- ===== src/Prelude/Bytes.antt =====
-- Go's encoding/binary, big endian: `PutUint16`, `PutUint64` and their readers. A byte slice is a
-- list of numbers; the readers look at the first bytes only, as the Go functions do.
use reflex_network_project.Prelude.Lists.{length, get_or}
use Prim.Native.Nat.{ℕ, ◌+◌, ◌*◌, ◌/◌, ◌%◌, ◌^◌, ◌<◌}
use mathlib.Core.Path.{◌≡◌, refl}
use mathlib.Core.List.{List, [], ◌∷◌, ◌++◌}
use native.Mathlib.Omega.{arith}

unfoldable pub put_uint16 : ℕ → List ℕ
put_uint16 n = (n / 256 % 256) ∷ (n % 256) ∷ []

unfoldable pub uint16 : List ℕ → ℕ
uint16 b = get_or b 0 0 * 256 + get_or b 1 0

unfoldable pub uint32 : List ℕ → ℕ
uint32 b = get_or b 0 0 * 2 ^ 24 + get_or b 1 0 * 2 ^ 16 + get_or b 2 0 * 256 + get_or b 3 0

unfoldable pub put_uint32 : ℕ → List ℕ
put_uint32 n = (n / 2 ^ 24 % 256) ∷ (n / 2 ^ 16 % 256) ∷ (n / 256 % 256) ∷ (n % 256) ∷ []

unfoldable pub put_uint64 : ℕ → List ℕ
put_uint64 n =
    (n / 2 ^ 56 % 256)
    ∷ (n / 2 ^ 48 % 256)
    ∷ (n / 2 ^ 40 % 256)
    ∷ (n / 2 ^ 32 % 256)
    ∷ (n / 2 ^ 24 % 256)
    ∷ (n / 2 ^ 16 % 256)
    ∷ (n / 256 % 256)
    ∷ (n % 256)
    ∷ []

unfoldable pub uint64 : List ℕ → ℕ
uint64 b =
    get_or b 0 0 * 2 ^ 56
    + get_or b 1 0 * 2 ^ 48
    + get_or b 2 0 * 2 ^ 40
    + get_or b 3 0 * 2 ^ 32
    + get_or b 4 0 * 2 ^ 24
    + get_or b 5 0 * 2 ^ 16
    + get_or b 6 0 * 256
    + get_or b 7 0

pub length-put_uint16 : (n : ℕ) → length (put_uint16 n) ≡ 2
unfolding put_uint16
length-put_uint16 n = refl

pub length-put_uint32 : (n : ℕ) → length (put_uint32 n) ≡ 4
unfolding put_uint32
length-put_uint32 n = refl

pub length-put_uint64 : (n : ℕ) → length (put_uint64 n) ≡ 8
unfolding put_uint64
length-put_uint64 n = refl

-- The number is read back from the front of what was written, whatever follows it.
pub uint16-put_uint16 : (n : ℕ) (rest : List ℕ) → n < 2 ^ 16 → uint16 (put_uint16 n ++ rest) ≡ n
unfolding uint16 put_uint16
uint16-put_uint16 n rest h = omega arith

pub uint32-put_uint32 : (n : ℕ) (rest : List ℕ) → n < 2 ^ 32 → uint32 (put_uint32 n ++ rest) ≡ n
unfolding uint32 put_uint32
uint32-put_uint32 n rest h = omega arith

pub uint64-put_uint64 : (n : ℕ) (rest : List ℕ) → n < 2 ^ 64 → uint64 (put_uint64 n ++ rest) ≡ n
unfolding uint64 put_uint64
uint64-put_uint64 n rest h = omega arith
