-- ===== src/Balancing.antt =====
-- app/router/balancing.go: the outbound that a balancer picks, with the errors of the router.
--
-- A strategy may answer each time in another way: the round robin counts its picks, and others draw or
-- measure. So it is asked at a moment, and what it answers at different moments is unrelated. The
-- setting of an override, which changes a balancer in place, is left out.
use reflex_network_project.Prelude.{
  ℕ, Bool, true, false, Option, none, some, List, [], ◌∷◌, if◌then◌else◌,
}

pub data Error : Type 0 where
  duplicate_balancer_tag : Error
  duplicate_rule_tag : Error
  build_failed : Error
  balancer_not_found : Error
  empty_tag_name : Error
  no_clue : Error
  not_a_selector : Error
  empty_tag_returned : Error

pub data Result {ℓ} (A : Type ℓ) : Type ℓ where
  ok : A → Result A
  err : Error → Result A

abbrev pub is_empty : List ℕ → Bool
is_empty [] = true
is_empty (b ∷ bs) = false

-- `Balancer`; `handler_selector` is nothing if the manager of outbounds does not select.
pub record Balancer : Type 0 where
  pub selectors : List (List ℕ)
  pub strategy : ℕ → List (List ℕ) → List ℕ
  pub handler_selector : Option (List (List ℕ) → List (List ℕ))
  pub fallback_tag : List ℕ
  pub override_target : List ℕ

abbrev pub or_fallback : Balancer → Error → Result (List ℕ)
or_fallback b e = if is_empty b.fallback_tag then err e else ok b.fallback_tag

-- `SelectOutbounds`
abbrev pub select_outbounds :
    Balancer → Option (List (List ℕ) → List (List ℕ)) → Result (List (List ℕ))
select_outbounds b none = err not_a_selector
select_outbounds b (some select) = ok (select b.selectors)

abbrev pub chosen : ℕ → Balancer → List (List ℕ) → List ℕ
chosen moment b candidates =
    if is_empty b.override_target then b.strategy moment candidates else b.override_target

abbrev pub pick_among : ℕ → Balancer → Result (List (List ℕ)) → Result (List ℕ)
pick_among moment b (err e) = or_fallback b e
pick_among moment b (ok candidates) =
    if is_empty (chosen moment b candidates)
    then or_fallback b empty_tag_returned
    else ok (chosen moment b candidates)

-- `Balancer.PickOutbound`
unfoldable pub pick_outbound : ℕ → Balancer → Result (List ℕ)
pick_outbound moment b = pick_among moment b (select_outbounds b b.handler_selector)
