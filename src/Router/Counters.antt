-- ===== src/Router/Counters.antt =====
-- src/router.py: what the counters of `Router` add up to after any calls.
use mathlib.Core.Path.{subst}
use unison_orchestrator.Prelude.{
  ℕ, suc, ◌+◌, String, ◌≡◌, refl, Option, none, some, List, [], ◌∷◌, arith, if◌then◌else◌, ◌==◌,
  eq_iff, Result, ok, err,
}
use unison_orchestrator.Prelude.Dict.{Dict, lookup, lookup-insert}
use unison_orchestrator.Router.Runtime.{Runtime}
use unison_orchestrator.Router.Types.{
  RoutingStrategy, RoutingContext, RouteCandidate, RouteError, Rule,
}
use unison_orchestrator.Router.Service.{
  StrategyRouter, rule_router, score_router, hybrid_router, Router, metric, count, strategy_name,
  counted, new_router, add_routing_rule, set_strategy, strategy_route, route,
}

-- A call of `Router`.
pub data Call {ℓ κ} (F : Type ℓ) (H : Type κ) : Type (ℓ ⊔ κ) where
  routing : F → F → RoutingContext F → Dict H → Call F H
  adding_rule : Rule → Call F H
  setting_strategy : RoutingStrategy → Call F H

-- The counters of the decisions add up, over a number of them.
pub record IsBalanced (n : ℕ) (m : Dict ℕ) : Type 0 where
  pub by_outcome :
      metric "routing_requests" m ≡ metric "routing_success" m + metric "routing_no_match" m
  pub by_strategy :
      metric "routing_requests" m
      ≡ metric "routing_rule_based" m + metric "routing_score_based" m + metric "routing_hybrid" m
  pub by_failure : metric "routing_requests" m + metric "routing_errors" m ≡ n

metric-count :
    (k j : String) (m : Dict ℕ)
    → metric j (count k m) ≡ (if k == j then metric j m + 1 else metric j m)
unfolding count
metric-count k j m = ground (arith, lookup-insert k j (metric k m + 1) m, eq_iff k j)

-- One, where two keys are the same.
abbrev hit : String → String → ℕ
hit k j = if k == j then 1 else 0

metric-count_three :
    (a b c j : String) (m : Dict ℕ)
    → metric j (count a (count b (count c m))) ≡ metric j m + hit c j + hit b j + hit a j
metric-count_three a b c j m = ground (
  arith,
  metric-count a j (count b (count c m)),
  metric-count b j (count c m),
  metric-count c j m,
)

-- The keys of an outcome and of a strategy.
abbrev IsKeyPair : String → String → Type 0
IsKeyPair a b =
    (hit a "routing_success" + hit a "routing_no_match" ≡ 1)
    × (hit b "routing_success" + hit b "routing_no_match" ≡ 0)
    × (hit a "routing_rule_based" + hit a "routing_score_based" + hit a "routing_hybrid" ≡ 0)
    × (hit b "routing_rule_based" + hit b "routing_score_based" + hit b "routing_hybrid" ≡ 1)
    × (hit a "routing_requests" + hit b "routing_requests" ≡ 0)
    × (hit a "routing_errors" + hit b "routing_errors" ≡ 0)

counted_pair :
    (a b : String) {n : ℕ} (m : Dict ℕ)
    → IsKeyPair a b
    → IsBalanced n m
    → IsBalanced (suc n) (count a (count b (count "routing_requests" m)))
counted_pair a b m (o, p, q, s, t, u) h =
    let f = λ (j : String). metric-count_three a b "routing_requests" j m in
    record {
      by_outcome =
          omega
            (arith, h.by_outcome, f "routing_requests", f "routing_success", f "routing_no_match");
      by_strategy = omega (
        arith,
        h.by_strategy,
        f "routing_requests",
        f "routing_rule_based",
        f "routing_score_based",
        f "routing_hybrid",
      );
      by_failure = omega (arith, h.by_failure, f "routing_requests", f "routing_errors");
    }

counted_error :
    {n : ℕ} (m : Dict ℕ) → IsBalanced n m → IsBalanced (suc n) (count "routing_errors" m)
counted_error m h =
    let f = λ (j : String). metric-count "routing_errors" j m in
    record {
      by_outcome =
          omega
            (arith, h.by_outcome, f "routing_requests", f "routing_success", f "routing_no_match");
      by_strategy = omega (
        arith,
        h.by_strategy,
        f "routing_requests",
        f "routing_rule_based",
        f "routing_score_based",
        f "routing_hybrid",
      );
      by_failure = omega (arith, h.by_failure, f "routing_requests", f "routing_errors");
    }

module _ {ℓ κ} {F : Type ℓ} {H : Type κ} where
  counted-IsBalanced :
      (strategy : StrategyRouter F) (result : Result RouteError (Option (RouteCandidate F H)))
      {n : ℕ} (m : Dict ℕ)
      → IsBalanced n m
      → IsBalanced (suc n) (counted (strategy_name strategy) result m)
  unfolding counted
  counted-IsBalanced strategy (err x) m b = counted_error m b
  counted-IsBalanced (rule_router _) (ok (some c)) m b =
      counted_pair "routing_success" "routing_rule_based" m (refl, refl, refl, refl, refl, refl) b
  counted-IsBalanced (score_router _) (ok (some c)) m b =
      counted_pair "routing_success" "routing_score_based" m (refl, refl, refl, refl, refl, refl) b
  counted-IsBalanced (hybrid_router _ _) (ok (some c)) m b =
      counted_pair "routing_success" "routing_hybrid" m (refl, refl, refl, refl, refl, refl) b
  counted-IsBalanced (rule_router _) (ok none) m b =
      counted_pair "routing_no_match" "routing_rule_based" m (refl, refl, refl, refl, refl, refl) b
  counted-IsBalanced (score_router _) (ok none) m b =
      counted_pair "routing_no_match" "routing_score_based" m (refl, refl, refl, refl, refl, refl) b
  counted-IsBalanced (hybrid_router _ _) (ok none) m b =
      counted_pair "routing_no_match" "routing_hybrid" m (refl, refl, refl, refl, refl, refl) b

  -- How many of the calls are routing decisions.
  abbrev pub decisions : List (Call F H) → ℕ
  decisions [] = 0
  decisions (routing _ _ _ _ ∷ calls) = suc (decisions calls)
  decisions (_ ∷ calls) = decisions calls

module _ {ℓ κ} {F : Type ℓ} {H : Type κ} ⦃r : Runtime F⦄ where
  -- The router after some calls, the first call first.
  unfoldable pub after_calls : List (Call F H) → Router F → Router F
  after_calls [] s = s
  after_calls (routing started ended context skills ∷ calls) s =
      after_calls calls (route started ended context skills s).1
  after_calls (adding_rule rule ∷ calls) s = after_calls calls (add_routing_rule rule s)
  after_calls (setting_strategy strategy ∷ calls) s = after_calls calls (set_strategy strategy s)

  after_calls_keep :
      (calls : List (Call F H)) (s : Router F) {n total : ℕ}
      → decisions calls + n ≡ total
      → IsBalanced n s.metrics
      → IsBalanced total (after_calls calls s).metrics
  unfolding after_calls route add_routing_rule set_strategy
  after_calls_keep [] s {n} {total} e b =
      let same : n ≡ total = omega (arith, e) in subst (λ k. IsBalanced k s.metrics) same b
  after_calls_keep (routing started ended context skills ∷ calls) s e b =
      after_calls_keep calls (route started ended context skills s).1 (omega (arith, e))
        (counted-IsBalanced s.router (strategy_route s.router context skills) s.metrics b)
  after_calls_keep (adding_rule rule ∷ calls) s e b =
      after_calls_keep calls (add_routing_rule rule s) e b
  after_calls_keep (setting_strategy strategy ∷ calls) s e b =
      after_calls_keep calls (set_strategy strategy s) e b

  -- After any calls of a new router, every decision was counted once: the requests and the errors
  -- are the decisions, the requests are those that found a candidate and those that did not, and
  -- they are the requests of the three strategies. Neither a new rule nor a new strategy moves a
  -- counter.
  pub after_calls-IsBalanced :
      (strategy : RoutingStrategy) (calls : List (Call F H))
      → IsBalanced (decisions calls) (after_calls calls (new_router strategy)).metrics
  unfolding lookup
  after_calls-IsBalanced strategy calls =
      after_calls_keep calls (new_router strategy) (omega arith)
        record { by_outcome = refl; by_strategy = refl; by_failure = refl }
