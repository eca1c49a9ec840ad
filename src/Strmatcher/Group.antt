-- ===== src/Strmatcher/Group.antt =====
-- common/strmatcher/strmatcher.go: the group that keeps full and domain patterns in their indexes
-- and the other patterns in a list. Indexes are uint32 and count the patterns from 1.
pub mod Refinement
use reflex_network_project.Prelude.{ℕ, ◌+◌, ◌%◌, ◌^◌, Bool, List, [], ◌∷◌, ◌++◌, if◌then◌else◌}
use reflex_network_project.Strmatcher.Matchers.{Matcher, matches}
use reflex_network_project.Strmatcher.FullGroup.{FullGroup}
use reflex_network_project.Strmatcher.FullGroup
use reflex_network_project.Strmatcher.DomainGroup.{Node, empty}
use reflex_network_project.Strmatcher.DomainGroup

-- `MatcherGroup`
pub record Group (R : Type 0) : Type 0 where
  pub count : ℕ
  pub full_matcher : FullGroup
  pub domain_matcher : Node
  pub other_matchers : List (Matcher R × ℕ)

-- The zero value.
unfoldable pub new : {R : Type 0} → Group R
new = record { count = 0; full_matcher = []; domain_matcher = empty; other_matchers = [] }

-- The `switch` of `Add`, at the index `c`.
unfoldable pub add_at : {R : Type 0} → ℕ → Matcher R → Group R → Group R
add_at c (Matcher.full m) g = record g { full_matcher = FullGroup.add m c g.full_matcher }
add_at c (Matcher.domain m) g = record g { domain_matcher = DomainGroup.add m c g.domain_matcher }
add_at c (Matcher.substr m) g = record g {
  other_matchers = g.other_matchers ++ ((Matcher.substr m, c) ∷ []);
}
add_at c (Matcher.regex r) g = record g {
  other_matchers = g.other_matchers ++ ((Matcher.regex r, c) ∷ []);
}

unfoldable pub next_index : {R : Type 0} → Group R → ℕ
next_index g = (g.count + 1) % 2 ^ 32

-- `MatcherGroup.Add`: the group, and the index of the pattern.
unfoldable pub add : {R : Type 0} → Matcher R → Group R → Group R × ℕ
unfolding next_index
add m g = (add_at (next_index g) m (record g { count = next_index g }), next_index g)

-- `MatcherGroup.Size`
unfoldable pub size : {R : Type 0} → Group R → ℕ
size g = g.count

module _ {R : Type 0} (match_string : R → List ℕ → Bool) where
  -- The loop of `Match` over the other patterns.
  unfoldable pub match_others : List (Matcher R × ℕ) → List ℕ → List ℕ
  match_others [] s = []
  match_others ((m, id) ∷ others) s =
      let rest = match_others others s in if matches match_string m s then id ∷ rest else rest

  -- `MatcherGroup.Match`
  unfoldable pub match : Group R → List ℕ → List ℕ
  match g s =
      (FullGroup.match s g.full_matcher ++ DomainGroup.match s g.domain_matcher)
      ++ match_others g.other_matchers s
