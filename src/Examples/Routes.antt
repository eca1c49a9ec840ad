-- ===== src/Examples/Routes.antt =====
-- Routes and rules of app/router. A context is the number of a port, and its address is resolved from
-- 100 on.
use reflex_network_project.Prelude.{ℕ, ◌+◌, ◌≡◌, refl, true, false, none, some, List, [], ◌∷◌, ◌==◌}
use reflex_network_project.Balancing.{Balancer, Error, ok, pick_outbound}
use reflex_network_project.Router.{
  Router, RoutingRule, Config, DomainStrategy, apply_all, tag_of, find_balancer, has_tag,
  rule_exists, remove_rule, add_balancers, build_rule, add_rules, reload_rules, first_rule,
  first_context, pick_route_internal, pick_route,
}
use reflex_network_project.Router.Tags.{UniqueTags, Call, run, run-UniqueTags}
use reflex_network_project.Router.Removal.{pick_route-remove_rule}

-- A balancer that takes the first candidate.
abbrev first_of : List (List ℕ) → List ℕ
first_of [] = []
first_of (t ∷ ts) = t

abbrev balancer : Balancer
balancer = record {
  selectors = (7 ∷ []) ∷ [];
  strategy = λ moment. first_of;
  handler_selector = some (λ selectors. selectors);
  fallback_tag = 9 ∷ [];
  override_target = [];
}

picks_first : pick_outbound 0 balancer ≡ ok (7 ∷ [])
unfolding pick_outbound
picks_first = refl

falls_back : pick_outbound 0 (record balancer { handler_selector = none }) ≡ ok (9 ∷ [])
unfolding pick_outbound
falls_back = refl

abbrev rule_for : List ℕ → ℕ → List ℕ → RoutingRule ℕ
rule_for label port balancing = record {
  tag = 1 ∷ [];
  rule_tag = label;
  balancing_tag = balancing;
  built = some (apply_all ((λ c. c == port) ∷ []));
}

abbrev config : Config ℕ
config = record {
  rule = rule_for (1 ∷ []) 80 [] ∷ rule_for (2 ∷ []) 110 (5 ∷ []) ∷ [];
  balancing_rule = record { tag = 5 ∷ []; built = some balancer } ∷ [];
}

abbrev empty_router : Router ℕ
empty_router = record {
  domain_strategy = DomainStrategy.ip_if_non_match;
  rules = [];
  balancers = [];
}

abbrev router : Router ℕ
router = (reload_rules config false empty_router).0

-- No rule is for port 10, but one for what it is resolved to.
routes_resolved :
    pick_route (λ c. false) (λ c. c ∷ []) (λ c. c + 100) 0 router 10 ≡ ok (7 ∷ [], 2 ∷ [])
unfolding pick_route pick_route_internal first_context first_rule reload_rules add_rules build_rule
    add_balancers rule_exists has_tag find_balancer tag_of pick_outbound apply_all
routes_resolved = refl

-- The tag of the balancer is taken.
refuses_duplicate : (reload_rules config true router).1 ≡ some Error.duplicate_balancer_tag
unfolding reload_rules add_rules build_rule add_balancers rule_exists has_tag find_balancer
refuses_duplicate = refl

abbrev calls : List (Call ℕ)
calls = Call.reload config false ∷ Call.remove (1 ∷ []) ∷ Call.reload config true ∷ []

run-UniqueTags_example : UniqueTags (run calls empty_router).rules
run-UniqueTags_example = run-UniqueTags calls empty_router tt

pick_route-remove_rule_example :
    (pick_route_internal
        (λ c. false)
        (λ c. c ∷ [])
        (λ c. c + 100)
        (remove_rule (1 ∷ []) router).0
        10
      ≡ pick_route_internal (λ c. false) (λ c. c ∷ []) (λ c. c + 100) router 10)
    × (pick_route (λ c. false) (λ c. c ∷ []) (λ c. c + 100) 0 (remove_rule (1 ∷ []) router).0 10
        ≡ ok (7 ∷ [], 2 ∷ []))
    × (rule_exists (1 ∷ []) (remove_rule (1 ∷ []) router).0.rules ≡ false)
    × ((remove_rule (1 ∷ []) router).1 ≡ none)
pick_route-remove_rule_example =
    pick_route-remove_rule (λ c. false) (λ c. c ∷ []) (λ c. c + 100) 0 (1 ∷ []) router 10 (7 ∷ [])
      (2 ∷ []) refl refl routes_resolved
