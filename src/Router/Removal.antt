-- ===== src/Router/Removal.antt =====
-- Routes after `RemoveRule`.
use reflex_network_project.Prelude.{
  ℕ, ◌≡◌, refl, sym, subst, ap, ◌∙◌, Bool, false, not, ◌||◌, ◌≢◌, Option, none, some, List, [], ◌∷◌,
  arith, same, Bool-cases, Option-cases, inl, inr,
}
use reflex_network_project.Balancing.{Result, ok, err, is_empty}
use reflex_network_project.Router.{
  Rule, Router, has_tag, rule_exists, without, remove_rule, first_rule, first_context, pick_again,
  pick_route_internal, route_by, route_of, under, pick_route, get_tag, is_ip_if_non_match,
}

module _ {C : Type 0} where
  has_tag-without : (t : List ℕ) (rules : List (Rule C)) → has_tag t (without t rules) ≡ false
  unfolding has_tag without
  has_tag-without t [] = refl
  has_tag-without t (x ∷ rules) = elim (Bool-cases (same x.rule_tag t)) [
    | inl e ↦ rw e (has_tag-without t rules)
    | inr e ↦ rw (e, e) (has_tag-without t rules)
  ]

  first_rule-without :
      (t : List ℕ) (rules : List (Rule C)) (c : C) (rule : Rule C)
      → same rule.rule_tag t ≡ false
      → first_rule rules c ≡ some rule
      → first_rule (without t rules) c ≡ some rule
  unfolding first_rule without
  first_rule-without t [] c rule n h = h
  first_rule-without t (x ∷ rules) c rule n h = elim (Bool-cases (x.condition c)) [
    | inl e ↦
        let q : x ≡ rule = ground (arith, h, e) in
        let s : same x.rule_tag t ≡ false = subst (λ y. same y.rule_tag t ≡ false) (sym q) n in
        rw (s, e) (ap some q)
    | inr e ↦ elim (Bool-cases (same x.rule_tag t)) [
      | inl s ↦ rw s (first_rule-without t rules c rule n (ground (arith, h, e)))
      | inr s ↦ rw (s, e) (first_rule-without t rules c rule n (ground (arith, h, e)))
    ]
  ]

  first_rule-without-none :
      (t : List ℕ) (rules : List (Rule C)) (c : C)
      → first_rule rules c ≡ none
      → first_rule (without t rules) c ≡ none
  unfolding first_rule without
  first_rule-without-none t [] c h = h
  first_rule-without-none t (x ∷ rules) c h = elim (Bool-cases (x.condition c)) [
    | inl e ↦ absurd (ground (arith, h, e))
    | inr e ↦ elim (Bool-cases (same x.rule_tag t)) [
      | inl s ↦ rw s (first_rule-without-none t rules c (ground (arith, h, e)))
      | inr s ↦ rw (s, e) (first_rule-without-none t rules c (ground (arith, h, e)))
    ]
  ]

  -- A loop that ends with a rule, in the context that it was tried in.
  under-without :
      (t : List ℕ) (rules : List (Rule C)) (c c' : C) (rule : Rule C) (first : Option (Rule C))
      → first_rule rules c ≡ first
      → same rule.rule_tag t ≡ false
      → under c first ≡ some (rule, c')
      → under c (first_rule (without t rules) c) ≡ some (rule, c')
  under-without t rules c c' rule none hf n h = cc h
  under-without t rules c c' rule (some x) hf n h =
      let q : x ≡ rule = cc h in
      let same_rule : first_rule (without t rules) c ≡ some rule =
        first_rule-without t rules c rule n (hf ∙ ap some q) in
      rw same_rule (cc (q, h))

  module _ (skip_dns_resolve : C → Bool) (target_domain : C → List ℕ)
      (with_dns_client : C → C) where
    pick_again-without :
        (t : List ℕ) (r : Router C) (skip : Bool) (c c' : C) (rule : Rule C)
        (first : Option (Rule C))
        → first_rule r.rules c ≡ first
        → same rule.rule_tag t ≡ false
        → pick_again skip_dns_resolve target_domain with_dns_client r skip c first ≡ some (rule, c')
        → pick_again skip_dns_resolve target_domain with_dns_client
            (record r { rules = without t r.rules })
            skip
            c
            (first_rule (without t r.rules) c)
          ≡ some (rule, c')
    pick_again-without t r skip c c' rule (some x) hf n h =
        let q : x ≡ rule = cc h in
        let same_rule : first_rule (without t r.rules) c ≡ some rule =
          first_rule-without t r.rules c rule n (hf ∙ ap some q) in
        rw same_rule (cc (q, h))
    pick_again-without t r skip c c' rule none hf n h =
        elim (Bool-cases
          (not (is_ip_if_non_match r.domain_strategy) || (is_empty (target_domain c) || skip))) [
            | inl e ↦ absurd (ground (arith, h, e))
            | inr e ↦
                rw (first_rule-without-none t r.rules c hf, e)
                  (under-without t r.rules (with_dns_client c) c' rule
                    (first_rule r.rules (with_dns_client c)) refl n (ground (arith, h, e)))
          ]

    route_of-tag :
        (rule : Rule C) (tag : Result (List ℕ)) (out label : List ℕ)
        → route_of rule tag ≡ ok (out, label)
        → rule.rule_tag ≡ label
    route_of-tag rule (err e) out label h = cc h
    route_of-tag rule (ok tag) out label h = cc h

    none-ne-ok : (moment : ℕ) {a : List ℕ × List ℕ} → route_by {C = C} moment none ≢ ok a
    none-ne-ok moment h = cc h

    pick_route_internal-remove_rule :
        (t : List ℕ) (r : Router C) (c c' : C) (rule : Rule C)
        → is_empty t ≡ false
        → same rule.rule_tag t ≡ false
        → pick_route_internal skip_dns_resolve target_domain with_dns_client r c ≡ some (rule, c')
        → pick_route_internal skip_dns_resolve target_domain with_dns_client (remove_rule t r).0 c
          ≡ some (rule, c')
    unfolding pick_route_internal remove_rule first_context
    pick_route_internal-remove_rule t r c c' rule ht n h = rw ht (
        pick_again-without t r (skip_dns_resolve c)
          (first_context skip_dns_resolve target_domain with_dns_client r c) c' rule
          (first_rule r.rules (first_context skip_dns_resolve target_domain with_dns_client r c))
          refl n h)

    -- If `PickRoute` gives a route by a rule whose tag is not the one that is removed, then RemoveRule
    -- of that tag, which is not empty, has no error and leaves no rule with it, and behind it the same
    -- rule is found in the same context, with or without a resolved address. PickRoute then gives the
    -- same route, if the strategy of the rule's balancer, where there is one, answers as before.
    pub pick_route-remove_rule :
        (moment : ℕ) (t : List ℕ) (r : Router C) (c : C) (out label : List ℕ)
        → is_empty t ≡ false
        → same label t ≡ false
        → pick_route skip_dns_resolve target_domain with_dns_client moment r c ≡ ok (out, label)
        → (pick_route_internal skip_dns_resolve target_domain with_dns_client (remove_rule t r).0 c
            ≡ pick_route_internal skip_dns_resolve target_domain with_dns_client r c)
          × (pick_route skip_dns_resolve target_domain with_dns_client moment (remove_rule t r).0 c
              ≡ ok (out, label))
          × (rule_exists t (remove_rule t r).0.rules ≡ false)
          × ((remove_rule t r).1 ≡ none)
    unfolding pick_route remove_rule rule_exists
    pick_route-remove_rule moment t r c out label ht n h =
        elim (Option-cases
          (pick_route_internal skip_dns_resolve target_domain with_dns_client r c)) [
            | inl e ↦ absurd (none-ne-ok moment (sym (ap (route_by moment) e) ∙ h))
            | inr ((rule, c'), e) ↦
                let named : route_of rule (get_tag moment rule) ≡ ok (out, label) =
                  sym (ap (route_by moment) e) ∙ h in
                let same_label : same rule.rule_tag t ≡ false =
                  subst (λ l. same l t ≡ false)
                    (sym (route_of-tag rule (get_tag moment rule) out label named)) n in
                let found = pick_route_internal-remove_rule t r c c' rule ht same_label e in
                (
                  found ∙ sym e,
                  ap (route_by moment) found ∙ named,
                  rw ht (has_tag-without t r.rules),
                  rw ht refl,
                )
          ]
