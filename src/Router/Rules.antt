-- ===== src/Router/Rules.antt =====
-- `RuleBasedRouter` of src/router.py: the first rule that matches and whose skill is registered,
-- else the first registered prefix of the intent.
use unison_orchestrator.Prelude.{
  ℕ, String, Bool, true, false, not, ◌&&◌, ◌||◌, Option, none, some, List, [], ◌∷◌, if◌then◌else◌,
  is_some, ◌==◌, leb, elem, starts_with, contains_text, Result, ok, err, ◌>>=◌,
}
use unison_orchestrator.Prelude.Json.{Json, null, str, arr, obj, Items, nil, cons, Fields, get}
use unison_orchestrator.Prelude.Dict.{Dict, lookup}
use unison_orchestrator.Router.Runtime.{Runtime}
use unison_orchestrator.Router.Types.{
  RoutingContext, TimeWindow, Conditions, Rule, by_rule, prefix_fallback, RouteCandidate,
  RouteError, type_error, value_error,
}

in_items : String → Items → Bool
in_items s nil = false
in_items s (cons (str t) rest) = s == t || in_items s rest
in_items s (cons _ rest) = in_items s rest

-- `role in user.get('roles', [])`
unfoldable pub role_in : String → Option Json → Result RouteError Bool
unfolding in_items
role_in s none = ok false
role_in s (some (arr items)) = ok (in_items s items)
role_in s (some (obj d)) = ok (is_some (get s d))
role_in s (some (str t)) = ok (contains_text s t)
role_in s (some _) = err type_error

-- `any(role in user_roles for role in required_roles)`
unfoldable pub any_role : List String → Option Json → Result RouteError Bool
unfolding role_in
any_role [] user_roles = ok false
any_role (role ∷ rest) user_roles =
    let later = any_role rest user_roles in
    role_in role user_roles >>= λ found. if found then ok true else later

abbrev empty_conditions : Conditions
empty_conditions = record {
  sources = none;
  required_roles = none;
  payload_conditions = none;
  time_window = none;
}

-- `rule.get('conditions', {})`
abbrev pub conditions_of : Rule → Conditions
conditions_of rule = elim (rule.conditions) [ some c ↦ c | none ↦ empty_conditions ]

abbrev or_null : Option Json → Json
or_null (some v) = v
or_null none = null

-- `x` if it is there, else a default
abbrev pub number_or : ℕ → Option ℕ → ℕ
number_or d (some n) = n
number_or d none = d

unfoldable pub prefix_ok : String → Option String → Bool
prefix_ok intent (some p) = p == "" || starts_with p intent
prefix_ok intent none = true

unfoldable pub source_ok : String → Option (List String) → Bool
source_ok source (some allowed) = elem source allowed
source_ok source none = true

unfoldable pub roles_ok : Fields → Option (List String) → Result RouteError Bool
unfolding any_role
roles_ok user (some required) = any_role required (get "roles" user)
roles_ok user none = ok true

-- Every wanted value is `==` to the payload's, for an equality of values.
all_same : (Json → Json → Bool) → Fields → Dict Json → Bool
all_same same payload [] = true
all_same same payload ((key, expected) ∷ rest) =
    same (or_null (get key payload)) expected && all_same same payload rest

unfoldable pub payload_ok : (Json → Json → Bool) → Fields → Option (Dict Json) → Bool
unfolding all_same
payload_ok same payload (some wanted) = all_same same payload wanted
payload_ok same payload none = true

-- The skill of a rule, where it is registered.
abbrev pub registered {κ} : {H : Type κ} → Option String → Dict H → Option (String × H)
registered none skills = none
registered (some k) skills = elim (lookup k skills) [ some h ↦ some (k, h) | none ↦ none ]

module _ {ℓ} {F : Type ℓ} ⦃r : Runtime F⦄ where
  unfoldable pub window_ok : F → Option TimeWindow → Result RouteError Bool
  window_ok timestamp (some w) = elim (r.hour_of timestamp) [
    | some hour ↦ ok (leb (number_or 0 w.start) hour && leb hour (number_or 23 w.stop))
    | none ↦ err value_error
  ]
  window_ok timestamp none = ok true

  -- `_matches_rule`
  unfoldable pub matches_rule : RoutingContext F → Rule → Result RouteError Bool
  unfolding prefix_ok source_ok roles_ok payload_ok window_ok
  matches_rule context rule =
      let conditions = conditions_of rule in
      if not (prefix_ok context.intent rule.intent_prefix)
      then ok false
      else if not (source_ok context.source conditions.sources)
      then ok false
      else roles_ok context.user conditions.required_roles >>= λ role.
          if not role
          then ok false
          else if not (payload_ok r.same context.payload conditions.payload_conditions)
          then ok false
          else window_ok context.timestamp conditions.time_window

module _ {ℓ κ} {F : Type ℓ} {H : Type κ} ⦃r : Runtime F⦄ where
  abbrev pub rule_candidate : Rule → String → H → RouteCandidate F H
  rule_candidate rule k h = record {
    skill_id = k;
    handler = h;
    score = r.one;
    metadata = by_rule rule.id (number_or 0 rule.priority) (conditions_of rule);
    strategy_used = "rule_based";
  }

  abbrev pub prefix_candidate : String → H → RouteCandidate F H
  prefix_candidate k h = record {
    skill_id = k;
    handler = h;
    score = r.eight_tenths;
    metadata = prefix_fallback;
    strategy_used = "rule_based";
  }

  -- The loop over the rules.
  unfoldable pub first_rule :
      RoutingContext F → List Rule → Dict H → Result RouteError (Option (RouteCandidate F H))
  unfolding matches_rule
  first_rule context [] skills = ok none
  first_rule context (rule ∷ rest) skills =
      let later = first_rule context rest skills in
      matches_rule context rule >>= λ hit.
      if hit
      then elim (registered rule.skill_id skills) [
        | some (k, h) ↦ ok (some (rule_candidate rule k h))
        | none ↦ later
      ]
      else later

  -- The loop over the registered prefixes.
  unfoldable pub first_prefix : String → Dict H → Option (RouteCandidate F H)
  first_prefix intent [] = none
  first_prefix intent ((k, h) ∷ skills) =
      if starts_with k intent then some (prefix_candidate k h) else first_prefix intent skills

  -- `RuleBasedRouter.route`
  unfoldable pub rule_route :
      List Rule → RoutingContext F → Dict H → Result RouteError (Option (RouteCandidate F H))
  unfolding first_rule first_prefix
  rule_route rules context skills = first_rule context rules skills >>= λ found. elim found [
    | some c ↦ ok (some c)
    | none ↦ ok (first_prefix context.intent skills)
  ]
