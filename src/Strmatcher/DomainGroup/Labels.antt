-- ===== src/Strmatcher/DomainGroup/Labels.antt =====
-- A pattern's labels begin those of a string, the last ones first, where the single domain pattern
-- takes the string; so the group and the single patterns agree.
use mathlib.Core.List.{reverse, reverse-append, reverse-cons, reverse-reverse}
use reflex_network_project.Prelude.{
  ℕ, suc, ◌+◌, ◌≡◌, ◌≢◌, ◌∙◌, sym, ap, refl, Bool, true, false, ◌&&◌, List, [], ◌∷◌, ◌++◌, arith,
  ◌==◌, if◌then◌else◌, same→eq, same_refl, length, take_all,
}
use reflex_network_project.Strmatcher.Text.{
  count, split, split-cases, EndsIn, split-EndsIn, EndsIn-split,
}
use reflex_network_project.Strmatcher.Matchers.{
  domain_match, domain_match→EndsIn, EndsIn→domain_match,
}
use reflex_network_project.Strmatcher.DomainGroup.{Node, add, ranked, match}
use reflex_network_project.Strmatcher.DomainGroup.Insert.{
  collect, starts, count-collect-insert, count-ranked,
}
use reflex_network_project.Strmatcher.DomainGroup.Walk.{walk_lem}

starts→append :
    (ps qs : List (List ℕ)) → starts ps qs ≡ true → (rest : List (List ℕ)) × (qs ≡ ps ++ rest)
unfolding starts
starts→append [] qs h = (qs, refl)
starts→append (p ∷ ps) [] h = cc h
starts→append (p ∷ ps) (q ∷ qs) h =
    let (rest, e) = starts→append ps qs (ground arith) in (rest, ground (arith, e, same→eq p q))

starts-append : (ps rest : List (List ℕ)) → starts ps (ps ++ rest) ≡ true
unfolding starts
starts-append [] rest = refl
starts-append (p ∷ ps) rest = ground (arith, same_refl p, starts-append ps rest)

Bool-ext : (a b : Bool) → (a ≡ true → b ≡ true) → (b ≡ true → a ≡ true) → a ≡ b
Bool-ext true b f g = sym (f refl)
Bool-ext false true f g = g refl
Bool-ext false false f g = refl

starts-split : (p s : List ℕ) → starts (reverse (split p)) (reverse (split s)) ≡ domain_match p s
starts-split p s =
    Bool-ext _ _ (λ h. EndsIn→domain_match p s (ends h)) (λ h. begins (domain_match→EndsIn p s h))
  where
    ends : starts (reverse (split p)) (reverse (split s)) ≡ true → EndsIn s p
    ends h =
        let (rest, e) = starts→append (reverse (split p)) (reverse (split s)) h in
        EndsIn-split s p (reverse rest) (
          sym (reverse-reverse (split s))
          ∙ ap reverse e
          ∙ reverse-append (reverse (split p)) rest
          ∙ ap (λ t. reverse rest ++ t) (reverse-reverse (split p)))

    begins : EndsIn s p → starts (reverse (split p)) (reverse (split s)) ≡ true
    begins h =
        let (parts, e) = split-EndsIn s p h in
        rw (e, reverse-append parts (split p)) (starts-append (reverse (split p)) (reverse parts))

match-collect :
    (c : ℕ) (s : List ℕ) (root : Node)
    → match (c ∷ s) root ≡ ranked (collect (reverse (split (c ∷ s))) root)
unfolding match
match-collect c s root = ap ranked (
    walk_lem (suc (suc (length (c ∷ s)))) (c ∷ s) (length (c ∷ s)) root (omega arith) (omega arith)
    ∙ ap (λ t. collect (reverse (split t)) root) (take_all (length (c ∷ s)) (c ∷ s) (omega arith)))

reverse-cases :
    (p : List ℕ) (ps : List (List ℕ))
    → (q : List ℕ) × (qs : List (List ℕ)) × (reverse (p ∷ ps) ≡ q ∷ qs)
reverse-cases p ps = first (reverse ps) (reverse-cons p ps)
  where
    first :
        (xs : List (List ℕ))
        → reverse (p ∷ ps) ≡ xs ++ (p ∷ [])
        → (q : List ℕ) × (qs : List (List ℕ)) × (reverse (p ∷ ps) ≡ q ∷ qs)
    first [] e = (p, [], e)
    first (x ∷ xs) e = (x, xs ++ (p ∷ []), e)

-- Once more if the pattern that was added takes the string, for the index that it was given.
pub count-match-add :
    (id value : ℕ) (domain s : List ℕ) (root : Node)
    → s ≢ []
    → count id (match s (add domain value root))
      ≡ count id (match s root) + (if domain_match domain s && id == value then 1 else 0)
unfolding add
count-match-add id value domain [] root h = absurd (h refl)
count-match-add id value domain (c ∷ s) root h =
    let (p, ps, e) = split-cases domain in
    let (q, qs, r) = reverse-cases p ps in
    let path : reverse (split domain) ≡ q ∷ qs = ap reverse e ∙ r in
    let parts = reverse (split (c ∷ s)) in
    let more = count-collect-insert id value q qs parts root in
    let same_test : starts (q ∷ qs) parts ≡ domain_match domain (c ∷ s) =
      rw (← path) (starts-split domain (c ∷ s)) in
    rw (match-collect, match-collect, path, count-ranked, count-ranked, more, same_test) refl
