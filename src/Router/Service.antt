-- ===== src/Router/Service.antt =====
-- `Router` of src/router.py: the strategy that is set, with the counters of what it did. The
-- two readings of the clock around a decision are arguments.
use Prim.Native.String
use unison_orchestrator.Prelude.{
  ℕ, ◌+◌, String, Option, none, some, List, [], ◌∷◌, ◌++◌, Result, ok, err,
}
use unison_orchestrator.Prelude.Dict.{Dict, lookup, insert}
use unison_orchestrator.Router.Runtime.{Runtime}
use unison_orchestrator.Router.Types.{
  RoutingStrategy, rule_based, score_based, hybrid, RoutingContext, Rule, RouteCandidate,
  RouteError,
}
use unison_orchestrator.Router.Rules.{number_or, rule_route}
use unison_orchestrator.Router.Score.{default_weights, score_route}
use unison_orchestrator.Router.Hybrid.{hybrid_route}

-- A strategy's object, with its rules and its weights.
pub data StrategyRouter {ℓ} (F : Type ℓ) : Type ℓ where
  rule_router : List Rule → StrategyRouter F
  score_router : Dict F → StrategyRouter F
  hybrid_router : List Rule → Dict F → StrategyRouter F

pub record Router {ℓ} (F : Type ℓ) : Type ℓ where
  pub strategy : RoutingStrategy
  pub router : StrategyRouter F
  pub metrics : Dict ℕ
  -- `metrics['routing_duration_ms']`
  pub duration_ms : F

-- `metrics[k]`, which is 0 for a key that is not there
abbrev pub metric : String → Dict ℕ → ℕ
metric k metrics = number_or 0 (lookup k metrics)

-- `metrics[k] += 1`
unfoldable pub count : String → Dict ℕ → Dict ℕ
count k metrics = insert k (metric k metrics + 1) metrics

module _ {ℓ} {F : Type ℓ} where
  -- `get_strategy_name`
  abbrev pub strategy_name : StrategyRouter F → String
  strategy_name (rule_router _) = "rule_based"
  strategy_name (score_router _) = "score_based"
  strategy_name (hybrid_router _ _) = "hybrid"

  -- `add_routing_rule`, on a strategy's object
  abbrev add_rule : Rule → StrategyRouter F → StrategyRouter F
  add_rule rule (rule_router rules) = rule_router (rules ++ rule ∷ [])
  add_rule rule (score_router weights) = score_router weights
  add_rule rule (hybrid_router rules weights) = hybrid_router (rules ++ rule ∷ []) weights

  -- `add_routing_rule`
  unfoldable pub add_routing_rule : Rule → Router F → Router F
  add_routing_rule rule s = record s { router = add_rule rule s.router }

module _ {ℓ} {F : Type ℓ} ⦃r : Runtime F⦄ where
  -- `_create_router`
  abbrev pub create_router : RoutingStrategy → StrategyRouter F
  create_router rule_based = rule_router []
  create_router score_based = score_router default_weights
  create_router hybrid = hybrid_router [] default_weights

  -- `Router(strategy)`
  abbrev pub new_router : RoutingStrategy → Router F
  new_router strategy = record {
    strategy = strategy;
    router = create_router strategy;
    metrics = [];
    duration_ms = r.nought;
  }

  -- `set_strategy`
  unfoldable pub set_strategy : RoutingStrategy → Router F → Router F
  set_strategy strategy s = record s { strategy = strategy; router = create_router strategy }

module _ {ℓ κ} {F : Type ℓ} {H : Type κ} where
  -- What a decision returns.
  unfoldable pub decision :
      Result RouteError (Option (RouteCandidate F H)) → Option (RouteCandidate F H)
  decision (ok c) = c
  decision (err _) = none

  -- What a decision counts.
  unfoldable pub counted :
      String → Result RouteError (Option (RouteCandidate F H)) → Dict ℕ → Dict ℕ
  unfolding count
  counted name (ok (some _)) metrics =
      count "routing_success"
        (count (String.◌++◌ "routing_" name) (count "routing_requests" metrics))
  counted name (ok none) metrics =
      count "routing_no_match"
        (count (String.◌++◌ "routing_" name) (count "routing_requests" metrics))
  counted name (err _) metrics = count "routing_errors" metrics

module _ {ℓ κ} {F : Type ℓ} {H : Type κ} ⦃r : Runtime F⦄ where
  -- `self.router.route`
  abbrev pub strategy_route :
      StrategyRouter F → RoutingContext F → Dict H → Result RouteError (Option (RouteCandidate F H))
  strategy_route (rule_router rules) context skills = rule_route rules context skills
  strategy_route (score_router weights) context skills = score_route weights context skills
  strategy_route (hybrid_router rules weights) context skills =
      hybrid_route rules weights context skills

  -- `Router.route`
  unfoldable pub route :
      F → F → RoutingContext F → Dict H → Router F → Option (RouteCandidate F H) × Router F
  unfolding decision counted
  route started ended context skills s =
      let result = strategy_route s.router context skills in
      (
        decision result,
        record s {
          metrics = counted (strategy_name s.router) result s.metrics;
          duration_ms = r.add s.duration_ms (r.mul (r.sub ended started) r.thousand);
        },
      )
