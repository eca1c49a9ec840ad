-- ===== src/Strmatcher/Matchers.antt =====
-- common/strmatcher/matchers.go: the single patterns. A compiled regular expression is a value of a
-- type `R`, and what it matches a parameter, since Go's regexp is not part of the program.
use reflex_network_project.Prelude.{
  ℕ, suc, subst, ◌+◌, ◌-◌, ◌≡◌, sym, ap, ◌∙◌, Bool, true, false, ◌||◌, List, [], ◌∷◌, ◌++◌, arith,
  ◌==◌, if◌then◌else◌, length, same, length-append, take, Bool-cases, inl, inr, get_or,
  append_assoc, Option, none, some,
}
use reflex_network_project.Strmatcher.Text.{
  dot, has_suffix, contains, EndsIn, has_suffix_lem, has_suffix-append, nil_of_length, last-front,
  get_or-front,
}

pub data Matcher (R : Type 0) : Type 0 where
  full : List ℕ → Matcher R
  substr : List ℕ → Matcher R
  domain : List ℕ → Matcher R
  regex : R → Matcher R

-- `fullMatcher.Match`
unfoldable pub full_match : List ℕ → List ℕ → Bool
full_match m s = same m s

-- `substrMatcher.Match`
unfoldable pub substr_match : List ℕ → List ℕ → Bool
substr_match m s = contains s m

-- `domainMatcher.Match`
unfoldable pub domain_match : List ℕ → List ℕ → Bool
domain_match pattern s =
    if has_suffix s pattern
    then (length s == length pattern || get_or s (length s - length pattern - 1) 0 == dot)
    else false

-- `Matcher.Match` of each type.
unfoldable pub matches : {R : Type 0} → (R → List ℕ → Bool) → Matcher R → List ℕ → Bool
matches match_string (full m) s = full_match m s
matches match_string (substr m) s = substr_match m s
matches match_string (domain m) s = domain_match m s
matches match_string (regex r) s = match_string r s

-- `Type`, where any other byte is `other`.
pub data Kind : Type 0 where
  full substr domain regex : Kind
  other : ℕ → Kind

pub data Error : Type 0 where
  unknown_type bad_regexp : Error

pub data Result {ℓ} (A : Type ℓ) : Type ℓ where
  ok : A → Result A
  err : Error → Result A

compiled : {R : Type 0} → Option R → Result (Matcher R)
compiled none = err bad_regexp
compiled (some r) = ok (Matcher.regex r)

-- `Type.New`, with `regexp.Compile` as a parameter.
unfoldable pub new : {R : Type 0} → (List ℕ → Option R) → Kind → List ℕ → Result (Matcher R)
unfolding compiled
new compile Kind.full pattern = ok (Matcher.full pattern)
new compile Kind.substr pattern = ok (Matcher.substr pattern)
new compile Kind.domain pattern = ok (Matcher.domain pattern)
new compile Kind.regex pattern = compiled (compile pattern)
new compile (Kind.other n) pattern = err unknown_type

-- A domain pattern takes itself and its sub-domains.
pub domain_match→EndsIn : (p s : List ℕ) → domain_match p s ≡ true → EndsIn s p
unfolding domain_match
domain_match→EndsIn p s h =
    let suffix : has_suffix s p ≡ true = ground arith in
    let front = take (length s - length p) s in
    let whole : s ≡ front ++ p = has_suffix_lem s p suffix in
    let len : length s ≡ length front + length p = ap length whole ∙ length-append front p in
    elim (Bool-cases (length s == length p)) [
      | inl e ↦ inl (whole ∙ ap (λ t. t ++ p) (nil_of_length front (ground arith)))
      | inr n ↦
          let at_dot : get_or s (length s - length p - 1) 0 ≡ dot = ground arith in
          let (xs, e) =
            last-front (length s - length p - 1) front p dot (ground arith)
              (subst (λ t. get_or t (length s - length p - 1) 0 ≡ dot) whole at_dot) in
          inr (xs, whole ∙ ap (λ t. t ++ p) e ∙ append_assoc xs (dot ∷ []) p)
    ]

pub EndsIn→domain_match : (p s : List ℕ) → EndsIn s p → domain_match p s ≡ true
unfolding domain_match
EndsIn→domain_match p s (inl e) = rw (e, has_suffix-append [] p) (ground arith)
EndsIn→domain_match p s (inr (front, e)) =
    let e' : s ≡ (front ++ (dot ∷ [])) ++ p = e ∙ sym (append_assoc front (dot ∷ []) p) in
    let suffix : has_suffix s p ≡ true =
      subst (λ t. has_suffix t p ≡ true) (sym e') (has_suffix-append (front ++ (dot ∷ [])) p) in
    let len : length s ≡ length front + suc (length p) =
      ap length e ∙ length-append front (dot ∷ p) in
    let n : length s - length p - 1 ≡ length front = omega arith in
    let at_dot : get_or s (length s - length p - 1) 0 ≡ dot =
      rw (n, e) (get_or-front front p dot) in
    ground (arith, suffix, at_dot)
