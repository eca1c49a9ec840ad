-- ===== src/Router/Tags.antt =====
-- The tags of the rules after any calls of `ReloadRules` and `RemoveRule`.
use reflex_network_project.Prelude.{
  ℕ, ◌≡◌, refl, sym, subst, Bool, true, false, Option, none, some, List, [], ◌∷◌, ◌++◌, ◌⊎◌, arith,
  same, same→eq, same_refl, Bool-cases, inl, inr,
}
use reflex_network_project.Balancing.{Error, Balancer, Result, ok, err, is_empty}
use reflex_network_project.Router.{
  Rule, Router, Config, RoutingRule, has_tag, rule_exists, without, remove_rule, add_balancers,
  build_rule, add_rules, cleared, after_balancers, reload_rules, balancer_of, with_balancer,
  with_condition, new_balancer, find_balancer, BalancingRule,
}

Result-cases {ℓ} :
    {A : Type ℓ} (x : Result A) → ((e : Error) × (x ≡ err e)) ⊎ ((a : A) × (x ≡ ok a))
Result-cases (err e) = inl (e, refl)
Result-cases (ok a) = inr (a, refl)

module _ {C : Type 0} where
  -- No two rules have the same tag, but for rules without a tag.
  abbrev pub UniqueTags : List (Rule C) → Type 0
  UniqueTags [] = Unit
  UniqueTags (r ∷ rules) = (rule_exists r.rule_tag rules ≡ false) × UniqueTags rules

  has_tag-append :
      (t : List ℕ) (rules : List (Rule C)) (r : Rule C)
      → has_tag t rules ≡ false
      → same r.rule_tag t ≡ false
      → has_tag t (rules ++ (r ∷ [])) ≡ false
  unfolding has_tag
  has_tag-append t [] r h e = rw e refl
  has_tag-append t (x ∷ rules) r h e = elim (Bool-cases (same x.rule_tag t)) [
    | inl s ↦ absurd (ground (arith, s))
    | inr s ↦ ground (arith, has_tag-append t rules r, s)
  ]

  not_same_tag :
      (x r : Rule C) (rules : List (Rule C))
      → is_empty x.rule_tag ≡ false
      → rule_exists r.rule_tag (x ∷ rules) ≡ false
      → same r.rule_tag x.rule_tag ≡ false
  unfolding rule_exists has_tag
  not_same_tag x r rules e h = elim (Bool-cases (same r.rule_tag x.rule_tag)) [
    | inl s ↦
        let here : rule_exists x.rule_tag (x ∷ rules) ≡ false =
          subst (λ t. rule_exists t (x ∷ rules) ≡ false) (same→eq r.rule_tag x.rule_tag s) h in
        absurd (ground (arith, here, e, same_refl x.rule_tag))
    | inr s ↦ s
  ]

  rule_exists-append :
      (x r : Rule C) (rules : List (Rule C))
      → rule_exists x.rule_tag rules ≡ false
      → rule_exists r.rule_tag (x ∷ rules) ≡ false
      → rule_exists x.rule_tag (rules ++ (r ∷ [])) ≡ false
  unfolding rule_exists has_tag
  rule_exists-append x r rules hx hr = elim (Bool-cases (is_empty x.rule_tag)) [
    | inl e ↦ rw e refl
    | inr e ↦
        rw e
          (has_tag-append x.rule_tag rules r (ground (arith, hx, e)) (not_same_tag x r rules e hr))
  ]

  rule_exists-tail :
      (t : List ℕ) (x : Rule C) (rules : List (Rule C))
      → rule_exists t (x ∷ rules) ≡ false
      → rule_exists t rules ≡ false
  unfolding rule_exists has_tag
  rule_exists-tail t x rules h = elim (Bool-cases (is_empty t)) [
    | inl e ↦ rw e refl
    | inr e ↦ ground (arith, h, e)
  ]

  rule_exists-cons :
      (t : List ℕ) (x : Rule C) (rules rules' : List (Rule C))
      → rule_exists t (x ∷ rules) ≡ false
      → rule_exists t rules' ≡ false
      → rule_exists t (x ∷ rules') ≡ false
  unfolding rule_exists has_tag
  rule_exists-cons t x rules rules' h h' = elim (Bool-cases (is_empty t)) [
    | inl e ↦ rw e refl
    | inr e ↦ ground (arith, h, h', e)
  ]

  UniqueTags-append :
      (rules : List (Rule C)) (r : Rule C)
      → UniqueTags rules
      → rule_exists r.rule_tag rules ≡ false
      → UniqueTags (rules ++ (r ∷ []))
  UniqueTags-append [] r u h = (h, tt)
  UniqueTags-append (x ∷ rules) r (ux, u) h = (
    rule_exists-append x r rules ux h,
    UniqueTags-append rules r u (rule_exists-tail r.rule_tag x rules h),
  )

  rule_exists-without :
      (s t : List ℕ) (rules : List (Rule C))
      → rule_exists s rules ≡ false
      → rule_exists s (without t rules) ≡ false
  unfolding without
  rule_exists-without s t [] h = h
  rule_exists-without s t (x ∷ rules) h =
      let rest : rule_exists s (without t rules) ≡ false =
        rule_exists-without s t rules (rule_exists-tail s x rules h) in
      elim (Bool-cases (same x.rule_tag t)) [
        | inl e ↦ rw e rest
        | inr e ↦ rw e (rule_exists-cons s x rules (without t rules) h rest)
      ]

  UniqueTags-without :
      (t : List ℕ) (rules : List (Rule C)) → UniqueTags rules → UniqueTags (without t rules)
  unfolding without
  UniqueTags-without t [] u = tt
  UniqueTags-without t (x ∷ rules) (ux, u) = elim (Bool-cases (same x.rule_tag t)) [
    | inl e ↦ rw e (UniqueTags-without t rules u)
    | inr e ↦ rw e (rule_exists-without x.rule_tag t rules ux, UniqueTags-without t rules u)
  ]

  with_balancer-tag :
      (rule : RoutingRule C) (cond : C → Bool) (b : Result (Option Balancer)) (new : Rule C)
      → with_balancer rule cond b ≡ ok new
      → rule.rule_tag ≡ new.rule_tag
  with_balancer-tag rule cond (err e) new h = cc h
  with_balancer-tag rule cond (ok b) new h = cc h

  with_condition-tag :
      (rule : RoutingRule C) (built : Option (C → Bool)) (r : Router C) (new : Rule C)
      → with_condition rule built r ≡ ok new
      → rule.rule_tag ≡ new.rule_tag
  with_condition-tag rule none r new h = cc h
  with_condition-tag rule (some cond) r new h =
      with_balancer-tag rule cond (balancer_of rule.balancing_tag r) new h

  build_rule-tag :
      (rule : RoutingRule C) (r : Router C) (new : Rule C)
      → build_rule rule r ≡ ok new
      → rule_exists new.rule_tag r.rules ≡ false
  unfolding build_rule
  build_rule-tag rule r new h = elim (Bool-cases (rule_exists rule.rule_tag r.rules)) [
    | inl e ↦ absurd (ground (arith, h, e))
    | inr e ↦
        subst (λ t. rule_exists t r.rules ≡ false)
          (with_condition-tag rule rule.built r new (ground (arith, h, e))) e
  ]

  add_rules-UniqueTags :
      (rules : List (RoutingRule C)) (r : Router C)
      → UniqueTags r.rules
      → UniqueTags (add_rules rules r).0.rules
  unfolding add_rules
  add_rules-UniqueTags [] r u = u
  add_rules-UniqueTags (rule ∷ rules) r u = elim (Result-cases (build_rule rule r)) [
    | inl (e, h) ↦ rw h u
    | inr (new, h) ↦ rw h (
        add_rules-UniqueTags rules _
          (UniqueTags-append r.rules new u (build_rule-tag rule r new h)))
  ]

  add_balancers-rules :
      (rules : List BalancingRule) (r : Router C) → (add_balancers rules r).0.rules ≡ r.rules
  unfolding add_balancers
  add_balancers-rules [] r = refl
  add_balancers-rules (rule ∷ rules) r =
      elim (Result-cases (new_balancer (find_balancer rule.tag r.balancers) rule.built)) [
        | inl (e, h) ↦ rw h refl
        | inr (b, h) ↦ rw h (add_balancers-rules rules _)
      ]

  after_balancers-UniqueTags :
      (rules : List (RoutingRule C)) (x : Router C × Option Error)
      → UniqueTags x.0.rules
      → UniqueTags (after_balancers rules x).0.rules
  after_balancers-UniqueTags rules (r, some e) u = u
  after_balancers-UniqueTags rules (r, none) u = add_rules-UniqueTags rules r u

  reload_rules-UniqueTags :
      (config : Config C) (should_append : Bool) (r : Router C)
      → UniqueTags (cleared should_append r).rules
      → UniqueTags (reload_rules config should_append r).0.rules
  unfolding reload_rules
  reload_rules-UniqueTags config should_append r u =
      after_balancers-UniqueTags config.rule
        (add_balancers config.balancing_rule (cleared should_append r))
        (subst UniqueTags
          (sym (add_balancers-rules config.balancing_rule (cleared should_append r))) u)

  remove_rule-UniqueTags :
      (t : List ℕ) (r : Router C) → UniqueTags r.rules → UniqueTags (remove_rule t r).0.rules
  unfolding remove_rule
  remove_rule-UniqueTags [] r u = u
  remove_rule-UniqueTags (b ∷ bs) r u = UniqueTags-without (b ∷ bs) r.rules u

-- The calls that change the rules. An error of a call stays with its caller.
pub data Call (C : Type 0) : Type 0 where
  reload : Config C → Bool → Call C
  remove : List ℕ → Call C

module _ {C : Type 0} where
  unfoldable pub step : Call C → Router C → Router C
  step (Call.reload config should_append) r = (reload_rules config should_append r).0
  step (Call.remove t) r = (remove_rule t r).0

  unfoldable pub run : List (Call C) → Router C → Router C
  run [] r = r
  run (call ∷ calls) r = run calls (step call r)

  step-UniqueTags :
      (call : Call C) (r : Router C) → UniqueTags r.rules → UniqueTags (step call r).rules
  unfolding step
  step-UniqueTags (Call.reload config true) r u = reload_rules-UniqueTags config true r u
  step-UniqueTags (Call.reload config false) r u = reload_rules-UniqueTags config false r tt
  step-UniqueTags (Call.remove t) r u = remove_rule-UniqueTags t r u

  -- If the tags of the rules are unique, leaving the empty one aside, they are so after any calls of
  -- ReloadRules, replacing or appending, and RemoveRule, whether the calls succeed or fail on the way.
  pub run-UniqueTags :
      (calls : List (Call C)) (r : Router C) → UniqueTags r.rules → UniqueTags (run calls r).rules
  unfolding run
  run-UniqueTags [] r u = u
  run-UniqueTags (call ∷ calls) r u = run-UniqueTags calls (step call r) (step-UniqueTags call r u)
