-- ===== src/Router.antt =====
-- app/router: the table of rules of router.go, `Rule` of config.go and `ConditionChan` of
-- condition.go.
--
-- A condition is a test of a routing context, and the context itself is a parameter. A rule of the
-- configuration comes with what `BuildCondition` gives for it, and a balancer with what `Build`
-- gives; nothing is an error. A method that holds the lock is one step.
pub mod Tags
pub mod Removal
use reflex_network_project.Prelude.{
  ℕ, Bool, true, false, ◌&&◌, ◌||◌, not, Option, none, some, List, [], ◌∷◌, ◌++◌, if◌then◌else◌,
  same,
}
use reflex_network_project.Balancing.{
  Error, duplicate_balancer_tag, duplicate_rule_tag, build_failed, balancer_not_found,
  empty_tag_name, no_clue, Result, ok, err, is_empty, Balancer, pick_outbound,
}

-- `ConditionChan.Apply`
unfoldable pub apply_all : {C : Type 0} → List (C → Bool) → C → Bool
apply_all [] c = true
apply_all (cond ∷ conds) c = let rest = apply_all conds c in if not (cond c) then false else rest

-- `Rule`
pub record Rule (C : Type 0) : Type 0 where
  pub tag : List ℕ
  pub rule_tag : List ℕ
  pub balancer : Option Balancer
  pub condition : C → Bool

-- `Config_DomainStrategy`
pub data DomainStrategy : Type 0 where
  as_is : DomainStrategy
  ip_if_non_match : DomainStrategy
  ip_on_demand : DomainStrategy

abbrev pub is_ip_on_demand : DomainStrategy → Bool
is_ip_on_demand ip_on_demand = true
is_ip_on_demand as_is = false
is_ip_on_demand ip_if_non_match = false

abbrev pub is_ip_if_non_match : DomainStrategy → Bool
is_ip_if_non_match ip_if_non_match = true
is_ip_if_non_match as_is = false
is_ip_if_non_match ip_on_demand = false

-- `Router`
pub record Router (C : Type 0) : Type 0 where
  pub domain_strategy : DomainStrategy
  pub rules : List (Rule C)
  pub balancers : List (List ℕ × Balancer)

-- `RoutingRule`, `BalancingRule` and `Config`.
pub record RoutingRule (C : Type 0) : Type 0 where
  pub tag : List ℕ
  pub rule_tag : List ℕ
  pub balancing_tag : List ℕ
  pub built : Option (C → Bool)

pub record BalancingRule : Type 0 where
  pub tag : List ℕ
  pub built : Option Balancer

pub record Config (C : Type 0) : Type 0 where
  pub rule : List (RoutingRule C)
  pub balancing_rule : List BalancingRule

-- `Rule.GetTag`
unfoldable pub tag_of : ℕ → List ℕ → Option Balancer → Result (List ℕ)
tag_of moment tag none = ok tag
tag_of moment tag (some b) = pick_outbound moment b

abbrev pub get_tag : {C : Type 0} → ℕ → Rule C → Result (List ℕ)
get_tag moment r = tag_of moment r.tag r.balancer

-- `r.balancers[tag]`
unfoldable pub find_balancer : List ℕ → List (List ℕ × Balancer) → Option Balancer
find_balancer tag [] = none
find_balancer tag ((t, b) ∷ rest) = if same t tag then some b else find_balancer tag rest

-- The balancer of a rule of the configuration, or why it is refused.
abbrev pub new_balancer : Option Balancer → Option Balancer → Result Balancer
new_balancer (some found) built = err duplicate_balancer_tag
new_balancer none none = err build_failed
new_balancer none (some b) = ok b

module _ {C : Type 0} where
  -- The loop of `RuleExists`, under a tag that is not empty.
  unfoldable pub has_tag : List ℕ → List (Rule C) → Bool
  has_tag tag [] = false
  has_tag tag (r ∷ rules) = if same r.rule_tag tag then true else has_tag tag rules

  -- `RuleExists`
  unfoldable pub rule_exists : List ℕ → List (Rule C) → Bool
  rule_exists tag rules = if not (is_empty tag) then has_tag tag rules else false

  -- The loop of `RemoveRule`.
  unfoldable pub without : List ℕ → List (Rule C) → List (Rule C)
  without tag [] = []
  without tag (r ∷ rules) =
      let rest = without tag rules in if not (same r.rule_tag tag) then r ∷ rest else rest

  -- `RemoveRule`: the router, and the error.
  unfoldable pub remove_rule : List ℕ → Router C → Router C × Option Error
  remove_rule tag r =
      if not (is_empty tag)
      then (record r { rules = without tag r.rules }, none)
      else (r, some empty_tag_name)

  -- `if err != nil { return err }`
  abbrev pub or_return {ℓ} :
      {A : Type ℓ} → Router C → Result A → (A → Router C × Option Error) → Router C × Option Error
  or_return r (err e) next = (r, some e)
  or_return r (ok a) next = next a

  -- The loop of `ReloadRules` over the balancers.
  unfoldable pub add_balancers : List BalancingRule → Router C → Router C × Option Error
  add_balancers [] r = (r, none)
  add_balancers (rule ∷ rules) r =
      or_return r (new_balancer (find_balancer rule.tag r.balancers) rule.built)
        (λ b. add_balancers rules (record r { balancers = (rule.tag, b) ∷ r.balancers }))

  -- The balancer of a rule of the configuration: none without a tag.
  abbrev pub balancer_of : List ℕ → Router C → Result (Option Balancer)
  balancer_of tag r = if is_empty tag then ok none else elim (find_balancer tag r.balancers) [
    | some b ↦ ok (some b)
    | none ↦ err balancer_not_found
  ]

  abbrev pub with_balancer : RoutingRule C → (C → Bool) → Result (Option Balancer) → Result (Rule C)
  with_balancer rule cond (err e) = err e
  with_balancer rule cond (ok b) =
      ok (record { tag = rule.tag; rule_tag = rule.rule_tag; balancer = b; condition = cond })

  abbrev pub with_condition : RoutingRule C → Option (C → Bool) → Router C → Result (Rule C)
  with_condition rule none r = err build_failed
  with_condition rule (some cond) r = with_balancer rule cond (balancer_of rule.balancing_tag r)

  -- A turn of the loop of `ReloadRules` over the rules: the new rule.
  unfoldable pub build_rule : RoutingRule C → Router C → Result (Rule C)
  build_rule rule r =
      if rule_exists rule.rule_tag r.rules
      then err duplicate_rule_tag
      else with_condition rule rule.built r

  -- The loop of `ReloadRules` over the rules.
  unfoldable pub add_rules : List (RoutingRule C) → Router C → Router C × Option Error
  add_rules [] r = (r, none)
  add_rules (rule ∷ rules) r =
      or_return r (build_rule rule r)
        (λ new. add_rules rules (record r { rules = r.rules ++ (new ∷ []) }))

  abbrev pub after_balancers :
      List (RoutingRule C) → Router C × Option Error → Router C × Option Error
  after_balancers rules (r, some e) = (r, some e)
  after_balancers rules (r, none) = add_rules rules r

  abbrev pub cleared : Bool → Router C → Router C
  cleared should_append r = if not should_append then record r { balancers = []; rules = [] } else r

  -- `ReloadRules`: the router, which keeps what was done before an error, and the error.
  unfoldable pub reload_rules : Config C → Bool → Router C → Router C × Option Error
  reload_rules config should_append r =
      after_balancers config.rule (add_balancers config.balancing_rule (cleared should_append r))

  -- The loops of `pickRouteInternal`: the first rule that applies.
  unfoldable pub first_rule : List (Rule C) → C → Option (Rule C)
  first_rule [] c = none
  first_rule (r ∷ rules) c = if r.condition c then some r else first_rule rules c

  abbrev pub under : C → Option (Rule C) → Option (Rule C × C)
  under c none = none
  under c (some rule) = some (rule, c)

  abbrev pub route_of : Rule C → Result (List ℕ) → Result (List ℕ × List ℕ)
  route_of rule (err e) = err e
  route_of rule (ok tag) = ok (tag, rule.rule_tag)

  abbrev pub route_by : ℕ → Option (Rule C × C) → Result (List ℕ × List ℕ)
  route_by moment none = err no_clue
  route_by moment (some (rule, c)) = route_of rule (get_tag moment rule)

  module _ (skip_dns_resolve : C → Bool) (target_domain : C → List ℕ)
      (with_dns_client : C → C) where
    -- The context that the first loop sees.
    unfoldable pub first_context : Router C → C → C
    first_context r c =
        if is_ip_on_demand r.domain_strategy && not (skip_dns_resolve c)
        then with_dns_client c
        else c

    -- The second loop, behind the test for it.
    abbrev pub pick_again : Router C → Bool → C → Option (Rule C) → Option (Rule C × C)
    pick_again r skip c (some rule) = some (rule, c)
    pick_again r skip c none =
        if not (is_ip_if_non_match r.domain_strategy) || (is_empty (target_domain c) || skip)
        then none
        else under (with_dns_client c) (first_rule r.rules (with_dns_client c))

    -- `pickRouteInternal`; nothing is `ErrNoClue`.
    unfoldable pub pick_route_internal : Router C → C → Option (Rule C × C)
    pick_route_internal r c =
        pick_again r (skip_dns_resolve c) (first_context r c)
          (first_rule r.rules (first_context r c))

    -- `PickRoute` at a moment: the tag of the outbound, and that of the rule.
    unfoldable pub pick_route : ℕ → Router C → C → Result (List ℕ × List ℕ)
    pick_route moment r c = route_by moment (pick_route_internal r c)
