-- ===== src/Strmatcher/DomainGroup.antt =====
-- common/strmatcher/domain_matcher.go: domain patterns in a tree with a label on each edge, the
-- last label of a pattern at the root. A node's map is a list of labels and nodes; the nil map and
-- the nil root are the empty ones, for which the Go code does the same.
pub mod Insert
pub mod Walk
pub mod Labels
use reflex_network_project.Prelude.{
  ℕ, zero, suc, ◌+◌, ◌-◌, Bool, true, false, Option, none, some, List, [], ◌∷◌, ◌++◌, ◌==◌,
  if◌then◌else◌, length, take, drop, get_or, same,
}
use reflex_network_project.Strmatcher.Text.{dot, split}
use mathlib.Core.List.{reverse, flatten}

mutual
  pub data Node : Type 0 where
    node : List ℕ → Subs → Node

  pub data Subs : Type 0 where
    nil : Subs
    cons : List ℕ → Node → Subs → Subs

abbrev pub empty : Node
empty = node [] nil

abbrev pub values : Node → List ℕ
values (node vs subs) = vs

-- `current.sub[part]`
unfoldable pub find : List ℕ → Subs → Option Node
find part nil = none
find part (cons label next subs) = if same label part then some next else find part subs

-- `current.sub[part] = next`
unfoldable pub store : List ℕ → Node → Subs → Subs
store part next nil = cons part next nil
store part next (cons label old subs) =
    if same label part then cons label next subs else cons label old (store part next subs)

abbrev pub or_new : Option Node → Node
or_new none = empty
or_new (some next) = next

-- The loop of `Add` over the labels from the last to the first, and the value at its end.
unfoldable pub insert : List (List ℕ) → ℕ → Node → Node
insert [] value (node vs subs) = node (vs ++ (value ∷ [])) subs
insert (part ∷ parts) value (node vs subs) =
    node vs (store part (insert parts value (or_new (find part subs))) subs)

-- `DomainMatcherGroup.Add`, and `addMatcher` with it.
unfoldable pub add : List ℕ → ℕ → Node → Node
add domain value root = insert (reverse (split domain)) value root

-- `nextPart`: the last dot before `idx`; `none` is -1.
unfoldable pub next_part : List ℕ → ℕ → Option ℕ
next_part domain zero = none
next_part domain (suc i) = if get_or domain i 0 == dot then some i else next_part domain i

-- `nidx+1`
abbrev pub after : Option ℕ → ℕ
after none = 0
after (some i) = suc i

-- `domain[nidx+1 : idx]`
abbrev pub part_at : List ℕ → Option ℕ → ℕ → List ℕ
part_at domain nidx idx = drop (after nidx) (take idx domain)

abbrev pub keep : List ℕ → List (List ℕ) → List (List ℕ)
keep [] found = found
keep (v ∷ vs) found = (v ∷ vs) ∷ found

abbrev pub subs : Node → Subs
subs (node vs s) = s

-- The loop of `Match`, which gives `matches`.
unfoldable pub walk : ℕ → List ℕ → Option ℕ → Node → List (List ℕ)
walk zero domain idx current = []
walk (suc fuel) domain none current = []
walk (suc fuel) domain (some idx) current =
    elim (find (part_at domain (next_part domain idx) idx) (subs current)) [
      | none ↦ []
      | some next ↦ keep (values next) (walk fuel domain (next_part domain idx) next)
    ]

-- The `switch` at the end: nothing, the only match, or the last found first.
unfoldable pub ranked : List (List ℕ) → List ℕ
ranked [] = []
ranked (found ∷ []) = found
ranked (found ∷ next ∷ more) = flatten (reverse (found ∷ next ∷ more))

-- `DomainMatcherGroup.Match`
unfoldable pub match : List ℕ → Node → List ℕ
match [] root = []
match (c ∷ domain) root =
    ranked (walk (suc (suc (length (c ∷ domain)))) (c ∷ domain) (some (length (c ∷ domain))) root)
