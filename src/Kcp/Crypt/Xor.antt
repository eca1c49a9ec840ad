-- ===== src/Kcp/Crypt/Xor.antt =====
-- The two passes undo each other, also on the first part of a list.
use Prim.Native.Nat.{bit_xor}
use native.Mathlib.Decide.{dec_lt}
use reflex_network_project.Prelude.{
  ℕ, zero, suc, ◌+◌, ◌-◌, ◌≤◌, ◌<◌, ◌≡◌, ◌∙◌, sym, ap, subst, refl, List, [], ◌∷◌, ◌++◌, arith,
  length, take, All, get_or, set, take-append, length-take, replicate, ◌==◌, if◌then◌else◌,
  Bool-cases, inl, inr, append-nil, length-append,
}
use reflex_network_project.Prelude.Xor.{bit_xor_cancel, bit_xor-byte}
use reflex_network_project.Kcp.Crypt.{xor_at, forward, backward, xorfwd, xorbkd, padded, xtra}

set_self : (x : List ℕ) (i : ℕ) → set x i (get_or x i 0) ≡ x
set_self [] i = refl
set_self (a ∷ x) zero = refl
set_self (a ∷ x) (suc i) = ap (◌∷◌ a) (set_self x i)

set_twice : (x : List ℕ) (i v w : ℕ) → set (set x i v) i w ≡ set x i w
set_twice [] i v w = refl
set_twice (a ∷ x) zero v w = refl
set_twice (a ∷ x) (suc i) v w = ap (◌∷◌ a) (set_twice x i v w)

get_or-set_self : (x : List ℕ) (i v : ℕ) → i < length x → get_or (set x i v) i 0 ≡ v
get_or-set_self [] i v h = absurd (omega arith)
get_or-set_self (a ∷ x) zero v h = refl
get_or-set_self (a ∷ x) (suc i) v h = get_or-set_self x i v (omega arith)

get_or-set_lt : (x : List ℕ) (j i v : ℕ) → j < i → get_or (set x i v) j 0 ≡ get_or x j 0
get_or-set_lt [] j i v h = refl
get_or-set_lt (a ∷ x) j zero v h = absurd (omega arith)
get_or-set_lt (a ∷ x) zero (suc i) v h = refl
get_or-set_lt (a ∷ x) (suc j) (suc i) v h = get_or-set_lt x j i v (omega arith)

set_out : (x : List ℕ) (i v : ℕ) → length x ≤ i → set x i v ≡ x
set_out [] i v h = refl
set_out (a ∷ x) zero v h = absurd (omega arith)
set_out (a ∷ x) (suc i) v h = ap (◌∷◌ a) (set_out x i v (omega arith))

pub length-set : (x : List ℕ) (i v : ℕ) → length (set x i v) ≡ length x
length-set [] i v = refl
length-set (a ∷ x) zero v = refl
length-set (a ∷ x) (suc i) v = ap suc (length-set x i v)

xor_at_twice : (i : ℕ) (x : List ℕ) → 4 ≤ i → xor_at i (xor_at i x) ≡ x
unfolding xor_at
xor_at_twice i x h = elim (dec_lt i (length x)) [
  | yes inside ↦
      let v = bit_xor (get_or x i 0) (get_or x (i - 4) 0) in
      let here : get_or (set x i v) i 0 ≡ v = get_or-set_self x i v inside in
      let before : get_or (set x i v) (i - 4) 0 ≡ get_or x (i - 4) 0 =
        get_or-set_lt x (i - 4) i v (omega arith) in
      rw
        (
          here,
          before,
          bit_xor_cancel (get_or x i 0) (get_or x (i - 4) 0),
          set_twice x i v (get_or x i 0),
        )
        (set_self x i)
  | no outside ↦
      let same : (v : ℕ) → set x i v ≡ x = λ v. set_out x i v (omega arith) in
      rw (same (bit_xor (get_or x i 0) (get_or x (i - 4) 0)))
        (same (bit_xor (get_or x i 0) (get_or x (i - 4) 0)))
]

forward-suc :
    (rounds i : ℕ) (x : List ℕ)
    → forward (suc rounds) i x ≡ xor_at (rounds + i) (forward rounds i x)
unfolding forward
forward-suc zero i x = ap (λ k. xor_at k x) (omega arith)
forward-suc (suc rounds) i x =
    forward-suc rounds (i + 1) (xor_at i x)
    ∙ ap (λ k. xor_at k (forward rounds (i + 1) (xor_at i x))) (omega arith)

pub backward-forward : (rounds : ℕ) (x : List ℕ) → backward rounds (forward rounds 4 x) ≡ x
unfolding backward
backward-forward zero x = unfold forward in refl
backward-forward (suc rounds) x =
    rw (forward-suc rounds 4 x, xor_at_twice (rounds + 4) (forward rounds 4 x) (omega arith))
      (backward-forward rounds x)

pub forward-backward : (rounds : ℕ) (x : List ℕ) → forward rounds 4 (backward rounds x) ≡ x
unfolding backward
forward-backward zero x = unfold forward in refl
forward-backward (suc rounds) x =
    rw
      (
        forward-suc rounds 4 (backward rounds (xor_at (rounds + 4) x)),
        forward-backward rounds (xor_at (rounds + 4) x),
      )
      (xor_at_twice (rounds + 4) x (omega arith))

-- What stands behind the first `n` bytes does not matter to them.
take-set : (n i v : ℕ) (x : List ℕ) → take n (set x i v) ≡ set (take n x) i v
take-set zero i v x = refl
take-set (suc n) i v [] = refl
take-set (suc n) zero v (a ∷ x) = refl
take-set (suc n) (suc i) v (a ∷ x) = ap (◌∷◌ a) (take-set n i v x)

get_or-take : (n j : ℕ) (x : List ℕ) → j < n → get_or (take n x) j 0 ≡ get_or x j 0
get_or-take zero j x h = absurd (omega arith)
get_or-take (suc n) j [] h = refl
get_or-take (suc n) zero (a ∷ x) h = refl
get_or-take (suc n) (suc j) (a ∷ x) h = get_or-take n j x (omega arith)

take-xor_at : (n i : ℕ) (x : List ℕ) → take n (xor_at i x) ≡ xor_at i (take n x)
unfolding xor_at
take-xor_at n i x = elim (dec_lt i n) [
  | yes inside ↦
      rw (get_or-take n i x inside, get_or-take n (i - 4) x (omega arith))
        (take-set n i (bit_xor (get_or x i 0) (get_or x (i - 4) 0)) x)
  | no outside ↦
      let short : length (take n x) ≤ i = omega (arith, length-take n x) in
      take-set n i (bit_xor (get_or x i 0) (get_or x (i - 4) 0)) x
      ∙ set_out (take n x) i _ short
      ∙ sym (set_out (take n x) i _ short)
]

take-forward :
    (rounds n i : ℕ) (x : List ℕ) → take n (forward rounds i x) ≡ forward rounds i (take n x)
unfolding forward
take-forward zero n i x = refl
take-forward (suc rounds) n i x =
    take-forward rounds n (i + 1) (xor_at i x) ∙ ap (forward rounds (i + 1)) (take-xor_at n i x)

take-backward :
    (rounds n : ℕ) (x : List ℕ) → take n (backward rounds x) ≡ backward rounds (take n x)
unfolding backward
take-backward zero n x = refl
take-backward (suc rounds) n x =
    take-backward rounds n (xor_at (rounds + 4) x)
    ∙ ap (backward rounds) (take-xor_at n (rounds + 4) x)

length-xor_at : (i : ℕ) (x : List ℕ) → length (xor_at i x) ≡ length x
unfolding xor_at
length-xor_at i x = length-set x i (bit_xor (get_or x i 0) (get_or x (i - 4) 0))

length-forward : (rounds i : ℕ) (x : List ℕ) → length (forward rounds i x) ≡ length x
unfolding forward
length-forward zero i x = refl
length-forward (suc rounds) i x = length-forward rounds (i + 1) (xor_at i x) ∙ length-xor_at i x

length-backward : (rounds : ℕ) (x : List ℕ) → length (backward rounds x) ≡ length x
unfolding backward
length-backward zero x = refl
length-backward (suc rounds) x =
    length-backward rounds (xor_at (rounds + 4) x) ∙ length-xor_at (rounds + 4) x

padding : List ℕ → List ℕ
padding x = if xtra (length x) == 4 then [] else replicate (xtra (length x)) 0

padded-padding : (x : List ℕ) → padded x ≡ x ++ padding x
unfolding padded padding
padded-padding x = elim (Bool-cases (xtra (length x) == 4)) [
  | inl e ↦ rw e (sym (append-nil x))
  | inr e ↦ rw e refl
]

padding-cong : (x y : List ℕ) → length x ≡ length y → padding x ≡ padding y
unfolding padding
padding-cong x y e = rw e refl

-- What is sealed and what is opened, with the padding cut off: the passes over the bytes alone, with
-- as many rounds as the padded ones take.
pub take-xorfwd :
    (x : List ℕ) → take (length x) (xorfwd (padded x)) ≡ forward (length (padded x) - 4) 4 x
unfolding xorfwd
take-xorfwd x =
    take-forward (length (padded x) - 4) (length x) 4 (padded x)
    ∙ ap (forward (length (padded x) - 4) 4)
        (ap (take (length x)) (padded-padding x) ∙ take-append x (padding x))

pub take-xorbkd :
    (x : List ℕ) → take (length x) (xorbkd (padded x)) ≡ backward (length (padded x) - 4) x
unfolding xorbkd
take-xorbkd x =
    take-backward (length (padded x) - 4) (length x) (padded x)
    ∙ ap (backward (length (padded x) - 4))
        (ap (take (length x)) (padded-padding x) ∙ take-append x (padding x))

length-padded-cong : (x y : List ℕ) → length x ≡ length y → length (padded x) ≡ length (padded y)
length-padded-cong x y e =
    ap length (padded-padding x)
    ∙ length-append x (padding x)
    ∙ rw (e, padding-cong x y e) (sym (ap length (padded-padding y) ∙ length-append y (padding y)))

abbrev pub scrambled : List ℕ → List ℕ
scrambled x = take (length x) (xorfwd (padded x))

abbrev pub unscrambled : List ℕ → List ℕ
unscrambled x = take (length x) (xorbkd (padded x))

pub length-scrambled : (x : List ℕ) → length (scrambled x) ≡ length x
length-scrambled x = ap length (take-xorfwd x) ∙ length-forward (length (padded x) - 4) 4 x

pub length-unscrambled : (x : List ℕ) → length (unscrambled x) ≡ length x
length-unscrambled x = ap length (take-xorbkd x) ∙ length-backward (length (padded x) - 4) x

-- Each pass takes the other one back, whatever the padding was.
pub unscrambled-scrambled : (x : List ℕ) → unscrambled (scrambled x) ≡ x
unscrambled-scrambled x =
    take-xorbkd (scrambled x)
    ∙ rw (length-padded-cong (scrambled x) x (length-scrambled x), take-xorfwd x)
        (backward-forward (length (padded x) - 4) x)

pub scrambled-unscrambled : (x : List ℕ) → scrambled (unscrambled x) ≡ x
scrambled-unscrambled x =
    take-xorfwd (unscrambled x)
    ∙ rw (length-padded-cong (unscrambled x) x (length-unscrambled x), take-xorbkd x)
        (forward-backward (length (padded x) - 4) x)

-- The passes keep bytes bytes.
All-set : (x : List ℕ) (i v : ℕ) → All (λ b. b < 256) x → v < 256 → All (λ b. b < 256) (set x i v)
All-set [] i v h k = h
All-set (a ∷ x) zero v h k = (k, h.1)
All-set (a ∷ x) (suc i) v h k = (h.0, All-set x i v h.1 k)

get_or-byte : (x : List ℕ) (i : ℕ) → All (λ b. b < 256) x → get_or x i 0 < 256
get_or-byte [] i h = omega arith
get_or-byte (a ∷ x) zero h = h.0
get_or-byte (a ∷ x) (suc i) h = get_or-byte x i h.1

All-backward :
    (rounds : ℕ) (x : List ℕ) → All (λ b. b < 256) x → All (λ b. b < 256) (backward rounds x)
unfolding backward xor_at
All-backward zero x h = h
All-backward (suc rounds) x h = All-backward rounds (xor_at (rounds + 4) x) (
    All-set x (rounds + 4) (bit_xor (get_or x (rounds + 4) 0) (get_or x (rounds + 4 - 4) 0)) h (
      bit_xor-byte (get_or x (rounds + 4) 0) (get_or x (rounds + 4 - 4) 0)
        (get_or-byte x (rounds + 4) h) (get_or-byte x (rounds + 4 - 4) h)))

pub All-unscrambled : (x : List ℕ) → All (λ b. b < 256) x → All (λ b. b < 256) (unscrambled x)
All-unscrambled x h =
    subst (All (λ b. b < 256)) (sym (take-xorbkd x)) (All-backward (length (padded x) - 4) x h)
