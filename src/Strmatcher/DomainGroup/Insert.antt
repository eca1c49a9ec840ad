-- ===== src/Strmatcher/DomainGroup/Insert.antt =====
-- What the tree holds along a path of labels, and what an insertion adds to it.
use mathlib.Core.List.{reverse, flatten, reverse-cons}
use reflex_network_project.Prelude.{
  ℕ, ◌+◌, ◌≡◌, ap, refl, Bool, true, false, ◌&&◌, Option, none, some, List, [], ◌∷◌, ◌++◌, arith,
  ◌==◌, if◌then◌else◌, same, same→eq, same_refl, Bool-cases, inl, inr, append-nil,
}
use reflex_network_project.Strmatcher.Text.{count, count-append}
use reflex_network_project.Strmatcher.DomainGroup.{
  Node, node, Subs, nil, cons, empty, values, subs, find, store, or_new, insert, keep, ranked,
}

-- The values on the way down along the labels, as the loop of `Match` collects them.
unfoldable pub collect : List (List ℕ) → Node → List (List ℕ)
collect [] current = []
collect (part ∷ parts) current = elim (find part (subs current)) [
  | none ↦ []
  | some next ↦ keep (values next) (collect parts next)
]

-- The first path is the beginning of the second.
unfoldable pub starts : List (List ℕ) → List (List ℕ) → Bool
starts [] qs = true
starts (p ∷ ps) [] = false
starts (p ∷ ps) (q ∷ qs) = same p q && starts ps qs

-- How often an index stands in a node and below it along the labels.
hits : ℕ → List (List ℕ) → Node → ℕ
hits id [] current = count id (values current)
hits id (part ∷ parts) current =
    count id (values current)
    + elim (find part (subs current)) [ none ↦ 0 | some next ↦ hits id parts next ]

find-store :
    (q p : List ℕ) (n : Node) (s : Subs)
    → find q (store p n s) ≡ (if same p q then some n else find q s)
unfolding find store
find-store q p n nil = refl
find-store q p n (cons label old s) = ground (
  arith,
  same→eq label p,
  same→eq p q,
  same→eq label q,
  same_refl p,
  same_refl q,
  find-store q p n s,
)

hits-empty : (id : ℕ) (parts : List (List ℕ)) → hits id parts empty ≡ 0
unfolding hits find
hits-empty id [] = refl
hits-empty id (part ∷ parts) = refl

hits-or_new :
    (id : ℕ) (parts : List (List ℕ)) (o : Option Node)
    → hits id parts (or_new o) ≡ elim o [ none ↦ 0 | some next ↦ hits id parts next ]
hits-or_new id parts none = hits-empty id parts
hits-or_new id parts (some next) = refl

hits-insert :
    (id value : ℕ) (path parts : List (List ℕ)) (n : Node)
    → hits id parts (insert path value n)
      ≡ hits id parts n + (if starts path parts && id == value then 1 else 0)
unfolding hits insert starts
hits-insert id value [] [] (node vs s) = ground (arith, count-append id vs (value ∷ []))
hits-insert id value [] (part ∷ parts) (node vs s) = ground (arith, count-append id vs (value ∷ []))
hits-insert id value (p ∷ path) [] (node vs s) = ground arith
hits-insert id value (p ∷ path) (part ∷ parts) (node vs s) =
    let ih = hits-insert id value path parts (or_new (find p s)) in
    let old = hits-or_new id parts (find p s) in
    elim (Bool-cases (same p part)) [
      | inl e ↦
          rw
            (
              find-store part p (insert path value (or_new (find p s))) s,
              e,
              ← (same→eq p part e),
              ih,
              old,
            )
            (ground arith)
      | inr e ↦ rw (find-store part p (insert path value (or_new (find p s))) s, e) (ground arith)
    ]

count-keep :
    (id : ℕ) (vs : List ℕ) (found : List (List ℕ))
    → count id (flatten (keep vs found)) ≡ count id vs + count id (flatten found)
unfolding flatten
count-keep id [] found = omega arith
count-keep id (v ∷ vs) found = count-append id (v ∷ vs) (flatten found)

hits-collect :
    (id : ℕ) (parts : List (List ℕ)) (n : Node)
    → hits id parts n ≡ count id (values n) + count id (flatten (collect parts n))
unfolding hits collect
hits-collect id [] n = unfold flatten in omega arith
hits-collect id (part ∷ parts) n =
    elim (find part (subs n))
      as (λ o.
        count id (values n) + elim o [ none ↦ 0 | some next ↦ hits id parts next ]
        ≡ count id (values n)
          + count id (
              flatten
                (elim o [ none ↦ [] | some next ↦ keep (values next) (collect parts next) ]))) [
                  | none ↦ unfold flatten in refl
                  | some next ↦ omega (
                    arith,
                    hits-collect id parts next,
                    count-keep id (values next) (collect parts next),
                  )
                ]

values-insert :
    (value : ℕ) (p : List ℕ) (path : List (List ℕ)) (n : Node)
    → values (insert (p ∷ path) value n) ≡ values n
unfolding insert
values-insert value p path (node vs s) = refl

-- An insertion adds its value to what is collected along the paths that begin with its own.
pub count-collect-insert :
    (id value : ℕ) (p : List ℕ) (path parts : List (List ℕ)) (n : Node)
    → count id (flatten (collect parts (insert (p ∷ path) value n)))
      ≡ count id (flatten (collect parts n))
        + (if starts (p ∷ path) parts && id == value then 1 else 0)
count-collect-insert id value p path parts n =
    let same_values = ap (count id) (values-insert value p path n) in
    omega (
      arith,
      hits-insert id value (p ∷ path) parts n,
      hits-collect id parts n,
      hits-collect id parts (insert (p ∷ path) value n),
      same_values,
    )

count-flatten-append :
    (id : ℕ) (a b : List (List ℕ))
    → count id (flatten (a ++ b)) ≡ count id (flatten a) + count id (flatten b)
unfolding flatten
count-flatten-append id [] b = omega arith
count-flatten-append id (x ∷ a) b = omega (
  arith,
  count-append id x (flatten (a ++ b)),
  count-append id x (flatten a),
  count-flatten-append id a b,
)

count-flatten-cons :
    (id : ℕ) (x : List ℕ) (a : List (List ℕ))
    → count id (flatten (x ∷ a)) ≡ count id x + count id (flatten a)
unfolding flatten
count-flatten-cons id x a = count-append id x (flatten a)

count-flatten-reverse :
    (id : ℕ) (a : List (List ℕ)) → count id (flatten (reverse a)) ≡ count id (flatten a)
unfolding flatten
count-flatten-reverse id [] = refl
count-flatten-reverse id (x ∷ a) =
    let split = count-flatten-append id (reverse a) (x ∷ []) in
    rw (reverse-cons x a) (
      omega (
        arith,
        split,
        count-flatten-reverse id a,
        count-flatten-cons id x a,
        count-flatten-cons id x [],
      ))

-- The order of the ranking loses nothing.
pub count-ranked :
    (id : ℕ) (found : List (List ℕ)) → count id (ranked found) ≡ count id (flatten found)
unfolding ranked
count-ranked id [] = unfold flatten in refl
count-ranked id (x ∷ []) = unfold flatten in rw (append-nil x) refl
count-ranked id (x ∷ y ∷ more) = count-flatten-reverse id (x ∷ y ∷ more)
