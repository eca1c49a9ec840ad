-- ===== src/Strmatcher/Text.antt =====
-- What common/strmatcher uses of Go's strings: HasPrefix, HasSuffix, Contains and Split at dots,
-- on strings as lists of bytes; and how often a number stands in a list.
use reflex_network_project.Prelude.{
  ℕ, zero, suc, ◌⊎◌, ◌+◌, ◌-◌, ◌≤◌, ◌≡◌, refl, sym, ap, ◌∙◌, Bool, true, false, ◌&&◌, ◌||◌, List,
  [], ◌∷◌, ◌++◌, arith, leb, ◌==◌, if◌then◌else◌, length, drop, same, same→eq, same_refl,
  length-append, drop-append_eq, take-append-drop, take, Bool-cases, inl, inr, append_assoc, get_or,
}

-- How often an index is among those that a group reports.
abbrev pub count : ℕ → List ℕ → ℕ
count id [] = 0
count id (value ∷ values) = (if id == value then 1 else 0) + count id values

pub count-append :
    (id : ℕ) (front back : List ℕ) → count id (front ++ back) ≡ count id front + count id back
count-append id [] back = omega arith
count-append id (value ∷ front) back = let ih = count-append id front back in omega arith

abbrev pub dot : ℕ
dot = 46

-- `strings.HasPrefix`
unfoldable pub has_prefix : List ℕ → List ℕ → Bool
has_prefix s [] = true
has_prefix [] (p ∷ ps) = false
has_prefix (c ∷ s) (p ∷ ps) = c == p && has_prefix s ps

-- `strings.HasSuffix`
unfoldable pub has_suffix : List ℕ → List ℕ → Bool
has_suffix s p = leb (length p) (length s) && same (drop (length s - length p) s) p

-- `strings.Contains`
unfoldable pub contains : List ℕ → List ℕ → Bool
contains [] p = has_prefix [] p
contains (c ∷ s) p = has_prefix (c ∷ s) p || contains s p

-- One more byte in front of the first part.
abbrev pub prepend : ℕ → List (List ℕ) → List (List ℕ)
prepend c [] = (c ∷ []) ∷ []
prepend c (part ∷ parts) = (c ∷ part) ∷ parts

-- `strings.Split(s, ".")`
unfoldable pub split : List ℕ → List (List ℕ)
split [] = [] ∷ []
split (c ∷ s) = let parts = split s in if c == dot then [] ∷ parts else prepend c parts

-- The parts with a dot between any two.
unfoldable pub join : List (List ℕ) → List ℕ
join [] = []
join (part ∷ []) = part
join (part ∷ next ∷ parts) = part ++ (dot ∷ join (next ∷ parts))

pub split-cases :
    (s : List ℕ) → (part : List ℕ) × (parts : List (List ℕ)) × (split s ≡ part ∷ parts)
unfolding split
split-cases [] = ([], [], refl)
split-cases (c ∷ s) =
    let (part, parts, e) = split-cases s in
    elim (Bool-cases (c == dot)) [
      | inl d ↦ ([], split s, rw d)
      | inr n ↦ (c ∷ part, parts, rw (n, e))
    ]

join-prepend :
    (c : ℕ) (part : List ℕ) (parts : List (List ℕ))
    → join ((c ∷ part) ∷ parts) ≡ c ∷ join (part ∷ parts)
unfolding join
join-prepend c part [] = refl
join-prepend c part (next ∷ parts) = refl

join-nil :
    (part : List ℕ) (parts : List (List ℕ)) → join ([] ∷ part ∷ parts) ≡ dot ∷ join (part ∷ parts)
unfolding join
join-nil part parts = refl

pub join-split : (s : List ℕ) → join (split s) ≡ s
unfolding split
join-split [] = unfold join in refl
join-split (c ∷ s) =
    let (part, parts, e) = split-cases s in
    let ih : join (part ∷ parts) ≡ s = rw (← e) (join-split s) in
    elim (Bool-cases (c == dot)) [
      | inl d ↦ rw (d, e) (join-nil part parts ∙ ground (arith, ih))
      | inr n ↦ rw (n, e) (join-prepend c part parts ∙ ap (◌∷◌ c) ih)
    ]

-- A dot separates the parts before it from those behind it.
pub split-dot : (xs ys : List ℕ) → split (xs ++ (dot ∷ ys)) ≡ split xs ++ split ys
unfolding split
split-dot [] ys = refl
split-dot (c ∷ xs) ys =
    let (part, parts, e) = split-cases xs in
    elim (Bool-cases (c == dot)) [
      | inl d ↦ rw (d, split-dot xs ys) refl
      | inr n ↦ rw (n, split-dot xs ys, e) refl
    ]

join-append :
    (part : List ℕ) (parts : List (List ℕ)) (next : List ℕ) (rest : List (List ℕ))
    → join ((part ∷ parts) ++ (next ∷ rest)) ≡ join (part ∷ parts) ++ (dot ∷ join (next ∷ rest))
unfolding join
join-append part [] next rest = refl
join-append part (p ∷ parts) next rest =
    rw
      (
        join-append p parts next rest,
        append_assoc part (dot ∷ join (p ∷ parts)) (dot ∷ join (next ∷ rest)),
      )
      refl

-- One string's parts end in another's exactly when it ends in the other, behind a dot or alone.
abbrev pub EndsIn : List ℕ → List ℕ → Type 0
EndsIn s p = (s ≡ p) ⊎ ((front : List ℕ) × (s ≡ front ++ (dot ∷ p)))

pub split-EndsIn :
    (s p : List ℕ) → EndsIn s p → (parts : List (List ℕ)) × (split s ≡ parts ++ split p)
split-EndsIn s p (inl e) = ([], ap split e)
split-EndsIn s p (inr (front, e)) = (split front, ap split e ∙ split-dot front p)

pub EndsIn-split : (s p : List ℕ) (parts : List (List ℕ)) → split s ≡ parts ++ split p → EndsIn s p
EndsIn-split s p [] e = inl (sym (join-split s) ∙ ap join e ∙ join-split p)
EndsIn-split s p (part ∷ parts) e =
    let (first, others, e') = split-cases p in
    let whole : join (split s) ≡ join (part ∷ parts) ++ (dot ∷ join (split p)) =
      rw (e, e') (join-append part parts first others) in
    inr (
      join (part ∷ parts),
      sym (join-split s) ∙ whole ∙ ap (λ t. join (part ∷ parts) ++ (dot ∷ t)) (join-split p),
    )

pub has_suffix_lem : (s p : List ℕ) → has_suffix s p ≡ true → s ≡ take (length s - length p) s ++ p
unfolding has_suffix
has_suffix_lem s p h =
    let e : drop (length s - length p) s ≡ p = same→eq _ _ (ground arith) in
    sym (take-append-drop (length s - length p) s) ∙ ap (◌++◌ (take (length s - length p) s)) e

pub has_suffix-append : (xs p : List ℕ) → has_suffix (xs ++ p) p ≡ true
unfolding has_suffix
has_suffix-append xs p =
    let len : length (xs ++ p) ≡ length xs + length p = length-append xs p in
    let e : drop (length (xs ++ p) - length p) (xs ++ p) ≡ p =
      drop-append_eq _ xs p (omega arith) in
    ground (arith, e, same_refl p)

pub take-get_or-drop :
    (n : ℕ) (s : List ℕ) → suc n ≤ length s → s ≡ take n s ++ (get_or s n 0 ∷ drop (suc n) s)
take-get_or-drop n [] h = absurd (omega arith)
take-get_or-drop zero (c ∷ s) h = refl
take-get_or-drop (suc n) (c ∷ s) h = ap (◌∷◌ c) (take-get_or-drop n s (omega arith))

pub nil_of_length : (xs : List ℕ) → length xs ≡ 0 → xs ≡ []
nil_of_length [] h = refl
nil_of_length (x ∷ xs) h = absurd (omega arith)

-- The last byte of the front part of a string.
pub last-front :
    (n : ℕ) (front p : List ℕ) (c : ℕ)
    → length front ≡ suc n
    → get_or (front ++ p) n 0 ≡ c
    → (xs : List ℕ) × (front ≡ xs ++ (c ∷ []))
last-front n [] p c h e = absurd (omega arith)
last-front zero (x ∷ []) p c h e = ([], ground (arith, e))
last-front zero (x ∷ y ∷ front) p c h e = absurd (omega arith)
last-front (suc n) (x ∷ front) p c h e =
    let (xs, e') = last-front n front p c (omega arith) e in (x ∷ xs, ap (◌∷◌ x) e')

pub get_or-front : (front p : List ℕ) (c : ℕ) → get_or (front ++ (c ∷ p)) (length front) 0 ≡ c
get_or-front [] p c = refl
get_or-front (x ∷ front) p c = get_or-front front p c
