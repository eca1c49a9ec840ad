-- ===== src/Strmatcher/FullGroup.antt =====
-- common/strmatcher/full_matcher.go. The Go map is an association list; the nil map of an empty
-- group is the empty list, since both give nil for every key.
use reflex_network_project.Prelude.{
  ℕ, ◌+◌, ◌≡◌, ◌&&◌, List, [], ◌∷◌, ◌++◌, arith, ◌==◌, if◌then◌else◌, same, same→eq, same_refl,
}
use reflex_network_project.Strmatcher.Text.{count, count-append}
use reflex_network_project.Strmatcher.Matchers.{full_match}

abbrev pub FullGroup : Type 0
FullGroup = List (List ℕ × List ℕ)

-- `FullMatcherGroup.Add`, and `addMatcher` with it.
unfoldable pub add : List ℕ → ℕ → FullGroup → FullGroup
add domain value [] = (domain, value ∷ []) ∷ []
add domain value ((d, values) ∷ matchers) =
    if same d domain
    then (d, values ++ (value ∷ [])) ∷ matchers
    else (d, values) ∷ add domain value matchers

-- `FullMatcherGroup.Match`
unfoldable pub match : List ℕ → FullGroup → List ℕ
match str [] = []
match str ((d, values) ∷ matchers) = if same d str then values else match str matchers

-- Once more if the pattern that was added takes the string, for the index that it was given.
pub count-match-add :
    (id value : ℕ) (domain str : List ℕ) (g : FullGroup)
    → count id (match str (add domain value g))
      ≡ count id (match str g) + (if full_match domain str && id == value then 1 else 0)
unfolding match add full_match
count-match-add id value domain str [] = ground arith
count-match-add id value domain str ((d, values) ∷ g) = ground (
  arith,
  same→eq d domain,
  same→eq d str,
  same→eq domain str,
  same_refl domain,
  same_refl str,
  count-append id values (value ∷ []),
  count-match-add id value domain str g,
)
