-- ===== src/Prelude/Xor.antt =====
-- Go's `^` on bytes and words: exclusive or, taken back by a second one.
use Prim.Native.Nat.{
  ℕ, zero, suc, ◌+◌, ◌*◌, ◌/◌, ◌%◌, ◌≤◌, ◌<◌, bit_xor, differ, digits, bit_xor-bitwise,
}
use mathlib.Core.Path.{◌≡◌, refl, ◌∙◌}
use native.Mathlib.Omega.{arith}

-- More rounds than the first number needs change nothing.
abbrev rounds : ℕ → ℕ → ℕ → ℕ
rounds k x y = digits (λ (left : ℕ). left) differ k x y

rounds-same : (x y k l : ℕ) → x ≤ k → x ≤ l → rounds k x y ≡ rounds l x y
rounds-same zero y zero zero p q = refl
rounds-same zero y zero (suc l) p q = refl
rounds-same zero y (suc k) zero p q = refl
rounds-same zero y (suc k) (suc l) p q = refl
rounds-same (suc x) y zero l p q = absurd (omega arith)
rounds-same (suc x) y (suc k) zero p q = absurd (omega arith)
rounds-same (suc x) y (suc k) (suc l) p q =
    let halves = rounds-same (suc x / 2) (y / 2) k l (omega arith) (omega arith) in omega arith

bit_xor-zero : (y : ℕ) → bit_xor 0 y ≡ y
bit_xor-zero y = bit_xor-bitwise 0 y

differ-zero : (y : ℕ) → differ 0 y ≡ y
differ-zero zero = refl
differ-zero (suc y) = refl

-- The law for the lowest digit.
bit_xor_step : (x y : ℕ) → bit_xor x y ≡ bit_xor (x / 2) (y / 2) * 2 + differ (x % 2) (y % 2)
bit_xor_step zero y = omega (arith, bit_xor-zero y, bit_xor-zero (y / 2), differ-zero (y % 2))
bit_xor_step (suc x) y =
    let half = suc x / 2 in
    let same = rounds-same half (y / 2) x half (omega arith) (omega arith) in
    omega (arith, same, bit_xor-bitwise (suc x) y, bit_xor-bitwise half (y / 2))

differ_bit : (x y : ℕ) → x < 2 → y < 2 → (differ (differ x y) y ≡ x) × (differ x y < 2)
differ_bit zero zero h k = (refl, omega arith)
differ_bit zero (suc zero) h k = (refl, omega arith)
differ_bit (suc zero) zero h k = (refl, omega arith)
differ_bit (suc zero) (suc zero) h k = (refl, omega arith)
differ_bit x (suc (suc y)) h k = absurd (omega arith)
differ_bit (suc (suc x)) y h k = absurd (omega arith)

bit_xor_halves :
    (a b : ℕ)
    → (bit_xor a b / 2 ≡ bit_xor (a / 2) (b / 2)) × (bit_xor a b % 2 ≡ differ (a % 2) (b % 2))
bit_xor_halves a b =
    let (_, small) = differ_bit (a % 2) (b % 2) (omega arith) (omega arith) in
    (omega (arith, bit_xor_step a b), omega (arith, bit_xor_step a b))

cancel_fuel : (n a b : ℕ) → a ≤ n → b ≤ n → bit_xor (bit_xor a b) b ≡ a
cancel_fuel zero zero zero p q = refl
cancel_fuel zero (suc a) b p q = absurd (omega arith)
cancel_fuel zero a (suc b) p q = absurd (omega arith)
cancel_fuel (suc n) a b p q =
    let (high, low) = bit_xor_halves a b in
    let (back, _) = differ_bit (a % 2) (b % 2) (omega arith) (omega arith) in
    let ih = cancel_fuel n (a / 2) (b / 2) (omega arith) (omega arith) in
    let e : bit_xor (bit_xor a b) b
        ≡ bit_xor (bit_xor (a / 2) (b / 2)) (b / 2) * 2 + differ (differ (a % 2) (b % 2)) (b % 2) =
      bit_xor_step (bit_xor a b) b ∙ rw (high, low) refl in
    omega (arith, e, ih, back)

-- A second exclusive or with the same number takes the first one back.
pub bit_xor_cancel : (a b : ℕ) → bit_xor (bit_xor a b) b ≡ a
bit_xor_cancel a b = cancel_fuel (a + b) a b (omega arith) (omega arith)

double : (m a b : ℕ) → bit_xor (a / 2) (b / 2) < m → bit_xor a b < 2 * m
double m a b h =
    let (_, small) = differ_bit (a % 2) (b % 2) (omega arith) (omega arith) in
    omega (arith, bit_xor_step a b)

abbrev doubled : ℕ → ℕ
doubled zero = 1
doubled (suc k) = 2 * doubled k

bit_xor-lt : (k a b : ℕ) → a < doubled k → b < doubled k → bit_xor a b < doubled k
bit_xor-lt zero zero zero h q = omega arith
bit_xor-lt zero (suc a) b h q = absurd (omega arith)
bit_xor-lt zero a (suc b) h q = absurd (omega arith)
bit_xor-lt (suc k) a b h q =
    double (doubled k) a b (bit_xor-lt k (a / 2) (b / 2) (omega arith) (omega arith))

pub bit_xor-byte : (a b : ℕ) → a < 256 → b < 256 → bit_xor a b < 256
bit_xor-byte a b h q = bit_xor-lt 8 a b h q
