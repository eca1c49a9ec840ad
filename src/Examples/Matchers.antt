-- ===== src/Examples/Matchers.antt =====
-- Runs of common/strmatcher.
use reflex_network_project.Prelude.{ℕ, ◌≡◌, refl, Bool, false, List, [], ◌∷◌, arith, length, ap}
use mathlib.Core.List.{flatten}
use reflex_network_project.Strmatcher.Text.{count, split, contains, has_prefix}
use reflex_network_project.Strmatcher.FullGroup
use reflex_network_project.Strmatcher.Group
use reflex_network_project.Strmatcher.Matchers.{Matcher, matches, substr_match}
use reflex_network_project.Strmatcher.DomainGroup
use reflex_network_project.Strmatcher.DomainGroup.{empty}
use reflex_network_project.Strmatcher.Group.{new, match}
use reflex_network_project.Strmatcher.Group.Refinement.{add_all, try_all, match-add_all}
use reflex_network_project.Inbound.Detect.{codes}

-- No expression ever matches.
abbrev never : ℕ → List ℕ → Bool
never r s = false

abbrev patterns : List (Matcher ℕ)
patterns =
    Matcher.domain (codes "example.org")
    ∷ Matcher.full (codes "www.example.org")
    ∷ Matcher.substr (codes "exam")
    ∷ Matcher.domain (codes "org")
    ∷ Matcher.regex 5
    ∷ Matcher.domain (codes "ample.org")
    ∷ []

-- The full pattern, then the domains, the longer first, then the others.
ranks_matches : match never (add_all patterns new) (codes "www.example.org") ≡ 2 ∷ 1 ∷ 4 ∷ 3 ∷ []
unfolding match add_all new DomainGroup.match FullGroup.match Group.add Group.add_at FullGroup.add
    DomainGroup.ranked DomainGroup.walk DomainGroup.find DomainGroup.add DomainGroup.insert split
    DomainGroup.store DomainGroup.next_part flatten Group.match_others matches substr_match contains
    has_prefix Group.next_index
ranks_matches = refl

match-add_all_example :
    count 4 (match never (add_all patterns new) (codes "www.example.org"))
    ≡ count 4 (try_all never 0 patterns (codes "www.example.org"))
match-add_all_example =
    match-add_all never 4 patterns (codes "www.example.org") (λ e. omega (arith, ap length e))
      (omega arith)
