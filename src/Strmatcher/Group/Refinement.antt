-- ===== src/Strmatcher/Group/Refinement.antt =====
-- The group of patterns gives what trying the patterns one by one would give, for any string but
-- the empty one.
use reflex_network_project.Prelude.{
  ℕ, ◌+◌, ◌%◌, ◌^◌, ◌<◌, ◌≡◌, ◌≢◌, ◌∙◌, ap, refl, Bool, ◌&&◌, List, [], ◌∷◌, ◌++◌, arith, ◌==◌,
  if◌then◌else◌, length,
}
use reflex_network_project.Strmatcher.Text.{count, count-append}
use reflex_network_project.Strmatcher.Matchers.{Matcher, matches}
use reflex_network_project.Strmatcher.FullGroup
use reflex_network_project.Strmatcher.DomainGroup
use reflex_network_project.Strmatcher.DomainGroup.Labels
use reflex_network_project.Strmatcher.Group.{
  Group, new, add_at, next_index, add, match_others, match,
}

-- The patterns are added one after the other.
unfoldable pub add_all : {R : Type 0} → List (Matcher R) → Group R → Group R
add_all [] g = g
add_all (m ∷ ms) g = add_all ms (add m g).0

-- The patterns are tried one after the other, and numbered behind `n`.
unfoldable pub try_all : {R : Type 0} → (R → List ℕ → Bool) → ℕ → List (Matcher R) → List ℕ → List ℕ
try_all match_string n [] s = []
try_all match_string n (m ∷ ms) s =
    let rest = try_all match_string (n + 1) ms s in
    if matches match_string m s then (n + 1) ∷ rest else rest

module _ {R : Type 0} (match_string : R → List ℕ → Bool) where
  count-match_others-append :
      (id : ℕ) (xs ys : List (Matcher R × ℕ)) (s : List ℕ)
      → count id (match_others match_string (xs ++ ys) s)
        ≡ count id (match_others match_string xs s) + count id (match_others match_string ys s)
  unfolding match_others
  count-match_others-append id [] ys s = omega arith
  count-match_others-append id ((m, c) ∷ xs) ys s =
      ground (arith, count-match_others-append id xs ys s)

  count-match_others-snoc :
      (id c : ℕ) (m : Matcher R) (xs : List (Matcher R × ℕ)) (s : List ℕ)
      → count id (match_others match_string (xs ++ ((m, c) ∷ [])) s)
        ≡ count id (match_others match_string xs s)
          + (if matches match_string m s && id == c then 1 else 0)
  unfolding match_others
  count-match_others-snoc id c m xs s =
      ground (arith, count-match_others-append id xs ((m, c) ∷ []) s)

  count-match :
      (id : ℕ) (g : Group R) (s : List ℕ)
      → count id (match match_string g s)
        ≡ count id (FullGroup.match s g.full_matcher)
          + count id (DomainGroup.match s g.domain_matcher)
          + count id (match_others match_string g.other_matchers s)
  unfolding match
  count-match id g s = omega (
    arith,
    count-append id (FullGroup.match s g.full_matcher ++ DomainGroup.match s g.domain_matcher)
        (match_others match_string g.other_matchers s),
    count-append id (FullGroup.match s g.full_matcher) (DomainGroup.match s g.domain_matcher),
  )

  count-match-add_at :
      (id c : ℕ) (m : Matcher R) (g : Group R) (s : List ℕ)
      → s ≢ []
      → count id (match match_string (add_at c m g) s)
        ≡ count id (match match_string g s) + (if matches match_string m s && id == c then 1 else 0)
  unfolding add_at matches
  count-match-add_at id c (Matcher.full m) g s h =
      let full = FullGroup.count-match-add id c m s g.full_matcher in
      omega (arith, full, count-match id g s, count-match id (add_at c (Matcher.full m) g) s)
  count-match-add_at id c (Matcher.domain m) g s h =
      let domains = DomainGroup.Labels.count-match-add id c m s g.domain_matcher h in
      omega (arith, domains, count-match id g s, count-match id (add_at c (Matcher.domain m) g) s)
  count-match-add_at id c (Matcher.substr m) g s h =
      let others = count-match_others-snoc id c (Matcher.substr m) g.other_matchers s in
      omega (arith, others, count-match id g s, count-match id (add_at c (Matcher.substr m) g) s)
  count-match-add_at id c (Matcher.regex r) g s h =
      let others = count-match_others-snoc id c (Matcher.regex r) g.other_matchers s in
      omega (arith, others, count-match id g s, count-match id (add_at c (Matcher.regex r) g) s)

  add_at-count : (c : ℕ) (m : Matcher R) (g : Group R) → (add_at c m g).count ≡ g.count
  unfolding add_at
  add_at-count c (Matcher.full m) g = refl
  add_at-count c (Matcher.domain m) g = refl
  add_at-count c (Matcher.substr m) g = refl
  add_at-count c (Matcher.regex r) g = refl

  count-match-add :
      (id : ℕ) (m : Matcher R) (g : Group R) (s : List ℕ)
      → s ≢ []
      → g.count + 1 < 2 ^ 32
      → count id (match match_string (add m g).0 s)
        ≡ count id (match match_string g s)
          + (if matches match_string m s && id == g.count + 1 then 1 else 0)
  unfolding add next_index match
  count-match-add id m g s h w =
      let c : (g.count + 1) % 2 ^ 32 ≡ g.count + 1 = omega arith in
      rw c (count-match-add_at id (g.count + 1) m (record g { count = g.count + 1 }) s h)

  add-count : (m : Matcher R) (g : Group R) → g.count + 1 < 2 ^ 32 → (add m g).0.count ≡ g.count + 1
  unfolding add next_index
  add-count m g w =
      add_at-count ((g.count + 1) % 2 ^ 32) m (record g { count = (g.count + 1) % 2 ^ 32 })
      ∙ omega arith

  count-match-add_all :
      (id : ℕ) (ms : List (Matcher R)) (g : Group R) (s : List ℕ)
      → s ≢ []
      → g.count + length ms < 2 ^ 32
      → count id (match match_string (add_all ms g) s)
        ≡ count id (match match_string g s) + count id (try_all match_string g.count ms s)
  unfolding add_all try_all
  count-match-add_all id [] g s h w = omega arith
  count-match-add_all id (m ∷ ms) g s h w =
      let n = add-count m g (omega arith) in
      let ih = count-match-add_all id ms (add m g).0 s h (omega arith) in
      let one = count-match-add id m g s h (omega arith) in
      let later = ap (λ k. count id (try_all match_string k ms s)) n in
      ground (arith, ih, one, later)

  match-new : (s : List ℕ) → match match_string new s ≡ []
  unfolding match new match_others FullGroup.match DomainGroup.match DomainGroup.walk
      DomainGroup.find DomainGroup.ranked
  match-new [] = refl
  match-new (c ∷ s) = refl

  -- A group that fewer than 2^32 patterns were added to gives, for a string that is not empty, every
  -- index as often as trying the patterns one by one does: each pattern that takes the string
  -- is reported by its number, once, and no other is.
  pub match-add_all :
      (id : ℕ) (ms : List (Matcher R)) (s : List ℕ)
      → s ≢ []
      → length ms < 2 ^ 32
      → count id (match match_string (add_all ms new) s) ≡ count id (try_all match_string 0 ms s)
  unfolding new
  match-add_all id ms s h w =
      let grown = count-match-add_all id ms new s h (omega arith) in
      omega (arith, grown, ap (count id) (match-new s))
