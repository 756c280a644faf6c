-- ===== src/Router/Hybrid.antt =====
-- `HybridRouter` of src/router.py: a sure match of the rules, else the better of both candidates.
use unison_orchestrator.Prelude.{
  Bool, false, Option, none, some, List, if◌then◌else◌, Result, ok, ◌>>=◌,
}
use unison_orchestrator.Prelude.Dict.{Dict}
use unison_orchestrator.Router.Runtime.{Runtime}
use unison_orchestrator.Router.Types.{RoutingContext, Rule, RouteCandidate, RouteError}
use unison_orchestrator.Router.Rules.{rule_route}
use unison_orchestrator.Router.Score.{score_route}

module _ {ℓ κ} {F : Type ℓ} {H : Type κ} ⦃r : Runtime F⦄ where
  -- The rule's candidate is a sure one.
  abbrev pub is_sure : Option (RouteCandidate F H) → Bool
  is_sure (some c) = r.le r.nine_tenths c.score
  is_sure none = false

  -- The better of what the two strategies found, the rule's on a tie.
  abbrev pub better_of :
      Option (RouteCandidate F H) → Option (RouteCandidate F H) → Option (RouteCandidate F H)
  better_of (some c) (some d) = if r.le d.score c.score then some c else some d
  better_of (some c) none = some c
  better_of none (some d) = some d
  better_of none none = none

  -- `HybridRouter.route`
  unfoldable pub hybrid_route :
      List Rule
      → Dict F
      → RoutingContext F
      → Dict H
      → Result RouteError (Option (RouteCandidate F H))
  hybrid_route rules weights context skills = rule_route rules context skills >>= λ by_rule.
      if is_sure by_rule
      then ok by_rule
      else (score_route weights context skills >>= λ by_score. ok (better_of by_rule by_score))
