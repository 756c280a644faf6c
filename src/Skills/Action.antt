-- ===== src/Skills/Action.antt =====
-- src/orchestrator/skills.py: `proposed_action`, which passes an action on to the actuation
-- service, and the telemetry of it.
use unison_orchestrator.Prelude.{
  String, Bool, true, false, not, ◌&&◌, ◌||◌, Option, none, some, List, [], ◌∷◌, if◌then◌else◌,
  starts_with, is_some, Result, ok, err,
}
use unison_orchestrator.Prelude.Json.{
  Json, null, bool, str, arr, obj, Items, nil, cons, Fields, end, field, get, put, truthy, dict,
  py_or, value_or, text_for, has_truthy,
}
use unison_orchestrator.Companion.Types.{
  Request, grants_get, actuate, actuation_telemetry, Reply, CompanionError, unusable, Python, Act,
  ◌>>=◌, ◌>>◌, return, lift, send, body_dict,
}
use unison_orchestrator.Companion.Context.{list_or_empty}
use unison_orchestrator.Skills.Types.{
  SkillConfig, payload_or_empty, name_of, refusal, dict_in, error_with,
}

-- An action that may be passed on.
pub record Action : Type 0 where
  pub person : String
  pub target : Fields
  pub intent : Fields
  pub policy_context : Fields

-- The dict at a key, if it has the keys.
abbrev pub dict_with : (Fields → Bool) → Option Json → Option Fields
dict_with has (some (obj d)) = if has d then some d else none
dict_with has _ = none

abbrev pub has_device : Fields → Bool
has_device d = is_some (get "device_id" d) && is_some (get "device_class" d)

abbrev pub has_name : Fields → Bool
has_name d = is_some (get "name" d)

-- The checks of the handler, in their order.
unfoldable pub valid_action : Fields → Result String (String × Fields × Fields)
valid_action payload = elim (name_of (get "person_id" payload)) [
  | none ↦ err "missing person_id"
  | some person ↦ elim (dict_with has_device (get "target" payload)) [
    | none ↦ err "invalid target"
    | some target ↦ elim (dict_with has_name (get "intent" payload)) [
      | none ↦ err "invalid intent"
      | some intent ↦ ok (person, target, intent)
    ]
  ]
]

module _ (python : Python) where
  abbrev is_actuation : Json → Bool
  is_actuation scope = starts_with "actuation." (text_for python.shown scope)

  unfoldable pub any_actuation : Items → Bool
  any_actuation nil = false
  any_actuation (cons scope scopes) =
      let later = any_actuation scopes in is_actuation scope || later

  unfoldable pub any_actuation_key : Fields → Bool
  any_actuation_key end = false
  any_actuation_key (field k v d) = let later = any_actuation_key d in is_actuation (str k) || later

  -- `any(...)` over the scopes of a grant; no letter of a text is a scope of actuation
  unfoldable pub grants_actuation : Json → Result CompanionError Bool
  unfolding any_actuation any_actuation_key
  grants_actuation (arr scopes) = ok (any_actuation scopes)
  grants_actuation (obj scopes) = ok (any_actuation_key scopes)
  grants_actuation (str scopes) = ok false
  grants_actuation v = if truthy v then err unusable else ok false

  -- The reference of the first grant for actuation.
  unfoldable pub granted_reference : Items → Result CompanionError (Option Json)
  unfolding grants_actuation
  granted_reference nil = ok none
  granted_reference (cons (obj g) rest) =
      let later = granted_reference rest in
      elim (grants_actuation (value_or null (get "scopes" g))) [
        | err e ↦ err e
        | ok found ↦
            if found
            then ok (some (py_or (value_or null (get "jti" g)) (value_or null (get "id" g))))
            else later
      ]
  granted_reference (cons _ rest) = err unusable

  abbrev with_reference : Fields → Option Json → Fields
  with_reference d none = d
  with_reference d (some reference) = put "consent_reference" reference d

  abbrev grants_of : Option Fields → Items
  grants_of none = nil
  grants_of (some body) = list_or_empty (get "grants" body)

  module _ (answer : List Request → Reply) (config : SkillConfig) where
    -- The policy context, with a grant of the person where none is named.
    unfoldable pub with_consent : String → Fields → Act Fields
    with_consent person policy_context =
        if has_truthy (get "consent_reference" policy_context) || not config.consent
        then return policy_context
        else (do
          reply ← send answer (grants_get (str person))
          reference ← lift (granted_reference (grants_of (body_dict reply)))
          return (with_reference policy_context reference))

    abbrev action_id_of : Fields → Json
    action_id_of payload = py_or (value_or null (get "action_id" payload)) (str config.new_action)

    abbrev risk_of : Fields → Json
    risk_of payload = value_or (str "low") (get "risk_level" payload)

    abbrev provenance_of : Fields → Fields → Fields → Json
    provenance_of envelope payload intent = py_or (value_or null (get "provenance" payload)) (
        obj (
          dict (
            ("source_intent", value_or (str "proposed_action") (get "name" intent))
            ∷ ("orchestrator_task_id", value_or null (get "event_id" envelope))
            ∷ [])))

    unfoldable pub actuation_body : Fields → Fields → Action → Fields
    actuation_body envelope payload a = dict (
        ("schema_version", str "1.0")
        ∷ ("action_id", action_id_of payload)
        ∷ ("person_id", str a.person)
        ∷ ("target", obj a.target)
        ∷ (
          "intent",
          obj (
              dict (
                ("name", value_or null (get "name" a.intent))
                ∷ ("parameters", py_or (value_or null (get "parameters" a.intent)) (obj end))
                ∷ ("human_readable", value_or null (get "human_readable" a.intent))
                ∷ [])),
        )
        ∷ ("risk_level", risk_of payload)
        ∷ ("constraints", py_or (value_or null (get "constraints" payload)) (obj end))
        ∷ ("policy_context", obj a.policy_context)
        ∷ ("telemetry_channel", value_or null (get "telemetry_channel" payload))
        ∷ ("provenance", provenance_of envelope payload a.intent)
        ∷ ("correlation_id", value_or null (get "correlation_id" envelope))
        ∷ [])

    abbrev status_in : Json → Json
    status_in (obj body) = value_or null (get "status" body)
    status_in _ = null

    abbrev telemetry_of : Fields → Fields → Action → Reply → Fields
    telemetry_of envelope payload a reply = dict (
        ("action_id", action_id_of payload)
        ∷ ("person_id", str a.person)
        ∷ ("correlation_id", value_or null (get "correlation_id" envelope))
        ∷ ("intent", value_or null (get "name" a.intent))
        ∷ ("target", obj a.target)
        ∷ ("risk_level", risk_of payload)
        ∷ ("actuation_status", status_in reply.body)
        ∷ [])

    -- The posts to the targets, up to the first that raises.
    unfoldable pub post_telemetry : List String → Fields → Act (Unit {0})
    post_telemetry [] payload = return tt
    post_telemetry (target ∷ targets) payload = do
      reply ← send answer (actuation_telemetry target payload)
      if reply.success then post_telemetry targets payload else return tt

    -- `_publish_actuation_telemetry`
    unfoldable pub publish_actuation_telemetry : Fields → Act (Unit {0})
    unfolding post_telemetry
    publish_actuation_telemetry payload =
        let renderer : List String = if config.experience_url then "renderer" ∷ [] else [] in
        post_telemetry (if config.graph_url then "context-graph" ∷ renderer else renderer) payload

    -- What the handler answers of the actuation service's reply.
    abbrev actuated : Fields → Reply → Fields
    actuated payload reply = elim (body_dict reply) [
      | some body ↦ dict (
          ("ok", bool true)
          ∷ ("action_id", action_id_of payload)
          ∷ ("actuation_result", obj body)
          ∷ [])
      | none ↦ dict (
          ("ok", bool false)
          ∷ ("error", str (error_with python "actuation error " reply.status))
          ∷ ("body", reply.body)
          ∷ [])
    ]

    unfoldable pub pass_on : Fields → Fields → Action → Act Fields
    unfolding publish_actuation_telemetry actuation_body
    pass_on envelope payload a =
        if not config.actuation then return (refusal "actuation client not configured") else (do
          reply ← send answer (actuate (actuation_body envelope payload a))
          publish_actuation_telemetry (telemetry_of envelope payload a reply)
          return (actuated payload reply))

    unfoldable pub propose : Fields → Fields → Result String (String × Fields × Fields) → Act Fields
    unfolding with_consent pass_on
    propose envelope payload (err e) = return (refusal e)
    propose envelope payload (ok (person, target, intent)) = do
      given ← lift (dict_in (get "policy_context" payload))
      policy_context ← with_consent person given
      pass_on envelope payload record {
        person = person;
        target = target;
        intent = intent;
        policy_context = policy_context;
      }

    -- `handler_proposed_action`
    unfoldable pub proposed_action : Fields → Act Fields
    unfolding valid_action propose
    proposed_action envelope = do
      payload ← lift (payload_or_empty envelope)
      propose envelope payload (valid_action payload)
