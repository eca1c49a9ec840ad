-- ===== src/Strmatcher/DomainGroup/Walk.antt =====
-- The loop of `Match` over positions in the string goes down the labels of the string, the last one
-- first.
use mathlib.Core.List.{reverse, reverse-append}
use reflex_network_project.Prelude.{
  ℕ, zero, suc, ◌≤◌, ◌<◌, ◌≡◌, ◌∙◌, sym, ap, refl, false, Option, none, some, List, [], ◌∷◌, ◌++◌,
  arith, ◌==◌, Bool-cases, Option-cases, inl, inr, length, take, drop, get_or, drop-append_le,
  drop_all, length-take,
}
use reflex_network_project.Strmatcher.Text.{dot, split, prepend, split-dot, split-cases}
use reflex_network_project.Strmatcher.DomainGroup.{
  Node, values, subs, find, keep, next_part, part_at, walk,
}
use reflex_network_project.Strmatcher.DomainGroup.Insert.{collect}

-- One more byte behind the last part.
add_last : ℕ → List (List ℕ) → List (List ℕ)
add_last c [] = (c ∷ []) ∷ []
add_last c (part ∷ []) = (part ++ (c ∷ [])) ∷ []
add_last c (part ∷ next ∷ parts) = part ∷ add_last c (next ∷ parts)

add_last-append :
    (c : ℕ) (parts : List (List ℕ)) (part : List ℕ)
    → add_last c (parts ++ (part ∷ [])) ≡ parts ++ ((part ++ (c ∷ [])) ∷ [])
unfolding add_last
add_last-append c [] part = refl
add_last-append c (p ∷ []) part = refl
add_last-append c (p ∷ q ∷ parts) part = ap (◌∷◌ p) (add_last-append c (q ∷ parts) part)

prepend-add_last :
    (b c : ℕ) (part : List ℕ) (parts : List (List ℕ))
    → prepend b (add_last c (part ∷ parts)) ≡ add_last c (prepend b (part ∷ parts))
unfolding add_last
prepend-add_last b c part [] = refl
prepend-add_last b c part (next ∷ parts) = refl

add_last-nil :
    (c : ℕ) (part : List ℕ) (parts : List (List ℕ))
    → add_last c ([] ∷ part ∷ parts) ≡ [] ∷ add_last c (part ∷ parts)
unfolding add_last
add_last-nil c part parts = refl

split-snoc :
    (xs : List ℕ) (c : ℕ) → (c == dot) ≡ false → split (xs ++ (c ∷ [])) ≡ add_last c (split xs)
unfolding split
split-snoc [] c h = unfold add_last in rw h refl
split-snoc (x ∷ xs) c h =
    let (part, parts, e) = split-cases xs in
    elim (Bool-cases (x == dot)) [
      | inl d ↦ rw (d, split-snoc xs c h, e) (sym (add_last-nil c part parts))
      | inr n ↦ rw (n, split-snoc xs c h, e) (prepend-add_last x c part parts)
    ]

take-suc :
    (i : ℕ) (d : List ℕ) → suc i ≤ length d → take (suc i) d ≡ take i d ++ (get_or d i 0 ∷ [])
take-suc i [] h = absurd (omega arith)
take-suc zero (c ∷ d) h = refl
take-suc (suc i) (c ∷ d) h = ap (◌∷◌ c) (take-suc i d (omega arith))

-- Where the last part begins.
abbrev LastPart : List ℕ → ℕ → Option ℕ → Type 0
LastPart d idx none = split (take idx d) ≡ take idx d ∷ []
LastPart d idx (some i) =
    (i < idx) × (split (take idx d) ≡ split (take i d) ++ (drop (suc i) (take idx d) ∷ []))

LastPart-suc :
    (d : List ℕ) (i : ℕ) (o : Option ℕ)
    → suc i ≤ length d
    → (get_or d i 0 == dot) ≡ false
    → LastPart d i o
    → LastPart d (suc i) o
LastPart-suc d i none h n e =
    rw (take-suc i d h, split-snoc (take i d) (get_or d i 0) n, e)
      (add_last-append (get_or d i 0) [] (take i d))
LastPart-suc d i (some j) h n (lt, e) =
    let inside : suc j ≤ length (take i d) = omega (arith, length-take i d) in
    (
      omega arith,
      rw
          (
            take-suc i d h,
            split-snoc (take i d) (get_or d i 0) n,
            e,
            drop-append_le (suc j) (take i d) (get_or d i 0 ∷ []) inside,
          )
          (add_last-append (get_or d i 0) (split (take j d)) (drop (suc j) (take i d))),
    )

last_at-LastPart :
    (d : List ℕ) (i : ℕ) → suc i ≤ length d → get_or d i 0 ≡ dot → LastPart d (suc i) (some i)
unfolding split
last_at-LastPart d i h e = (
  omega arith,
  rw (drop_all (suc i) (take (suc i) d) (omega (arith, length-take (suc i) d)), take-suc i d h, e)
      (split-dot (take i d) []),
)

next_part-LastPart : (d : List ℕ) (idx : ℕ) → idx ≤ length d → LastPart d idx (next_part d idx)
unfolding next_part
next_part-LastPart d zero h = unfold split in refl
next_part-LastPart d (suc i) h =
    let ih = next_part-LastPart d i (omega arith) in
    elim (Bool-cases (get_or d i 0 == dot)) [
      | inl e ↦ rw e (last_at-LastPart d i h (ground (arith, e)))
      | inr n ↦ rw n (LastPart-suc d i (next_part d i) h n ih)
    ]

-- The step that the loop and `collect` share.
abbrev descend : Option Node → (Node → List (List ℕ)) → List (List ℕ)
descend o below = elim o [ none ↦ [] | some next ↦ keep (values next) (below next) ]

descend-cong :
    (o : Option Node) (f g : Node → List (List ℕ))
    → ((next : Node) → f next ≡ g next)
    → descend o f ≡ descend o g
descend-cong none f g h = refl
descend-cong (some next) f g h = ap (keep (values next)) (h next)

walk-none : (fuel : ℕ) (d : List ℕ) (n : Node) → walk fuel d none n ≡ collect [] n
unfolding walk collect
walk-none zero d n = refl
walk-none (suc fuel) d n = refl

collect-snoc :
    (parts : List (List ℕ)) (part : List ℕ) (n : Node)
    → collect (reverse (parts ++ (part ∷ []))) n
      ≡ descend (find part (subs n)) (collect (reverse parts))
unfolding collect
collect-snoc parts part n = rw (reverse-append parts (part ∷ [])) refl

walk-some :
    (fuel : ℕ) (d : List ℕ) (idx : ℕ) (n : Node)
    → walk (suc fuel) d (some idx) n
      ≡ descend (find (part_at d (next_part d idx) idx) (subs n)) (walk fuel d (next_part d idx))
unfolding walk
walk-some fuel d idx n = refl

-- The positions that the loop visits are the ends of the labels.
pub walk_lem :
    (fuel : ℕ) (d : List ℕ) (idx : ℕ) (n : Node)
    → suc idx < fuel
    → idx ≤ length d
    → walk fuel d (some idx) n ≡ collect (reverse (split (take idx d))) n
walk_lem zero d idx n f h = absurd (omega arith)
walk_lem (suc fuel) d idx n f h =
    let last = next_part-LastPart d idx h in
    elim (Option-cases (next_part d idx)) [
      | inl e ↦
          let only : split (take idx d) ≡ take idx d ∷ [] = rw e at last in
          rw (walk-some fuel d idx n, e, only)
            (descend-cong (find (take idx d) (subs n)) (walk fuel d none) (collect [])
                (walk-none fuel d)
              ∙ sym (collect-snoc [] (take idx d) n))
      | inr (i, e) ↦
          let (lt, parts) : (i < idx)
              × (split (take idx d) ≡ split (take i d) ++ (drop (suc i) (take idx d) ∷ [])) =
            rw e at last in
          rw (walk-some fuel d idx n, e, parts)
            (descend-cong (find (drop (suc i) (take idx d)) (subs n)) (walk fuel d (some i))
                (collect (reverse (split (take i d))))
                (λ next. walk_lem fuel d i next (omega arith) (omega arith))
              ∙ sym (collect-snoc (split (take i d)) (drop (suc i) (take idx d)) n))
    ]
