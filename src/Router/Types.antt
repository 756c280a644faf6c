-- ===== src/Router/Types.antt =====
-- The data of src/router.py: the context of a routing decision, a rule with its conditions, a
-- candidate, and the exceptions that a strategy lets through.
use unison_orchestrator.Prelude.{ℕ, String, Option, List}
use unison_orchestrator.Prelude.Json.{Json, Fields}
use unison_orchestrator.Prelude.Dict.{Dict}

pub data RoutingStrategy : Type 0 where
  rule_based score_based hybrid : RoutingStrategy

pub record RoutingContext {ℓ} (F : Type ℓ) : Type ℓ where
  pub intent : String
  pub payload : Fields
  pub user : Fields
  pub source : String
  pub event_id : String
  pub timestamp : F

-- The hours of `time_window`.
pub record TimeWindow : Type 0 where
  pub start : Option ℕ
  pub stop : Option ℕ

pub record Conditions : Type 0 where
  pub sources : Option (List String)
  pub required_roles : Option (List String)
  pub payload_conditions : Option (Dict Json)
  pub time_window : Option TimeWindow

-- A rule is a dict with these keys; none is a key that it lacks.
pub record Rule : Type 0 where
  pub id : Option String
  pub intent_prefix : Option String
  pub skill_id : Option String
  pub priority : Option ℕ
  pub conditions : Option Conditions

pub data Metadata {ℓ} (F : Type ℓ) : Type ℓ where
  -- `rule_id`, `priority` and `conditions_matched`
  by_rule : Option String → ℕ → Conditions → Metadata F
  -- `match_type`
  prefix_fallback : Metadata F
  -- `intent_similarity`, `context_match` and `user_preference`
  score_breakdown : F → F → F → Metadata F

pub record RouteCandidate {ℓ κ} (F : Type ℓ) (H : Type κ) : Type (ℓ ⊔ κ) where
  pub skill_id : String
  pub handler : H
  pub score : F
  pub metadata : Metadata F
  pub strategy_used : String

pub data RouteError : Type 0 where
  -- `in` on what is no container
  type_error : RouteError
  -- a time that `time.gmtime` refuses
  value_error : RouteError
  key_error : String → RouteError
