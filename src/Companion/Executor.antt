-- ===== src/Companion/Executor.antt =====
-- src/orchestrator/companion.py: `_execute_tool_calls`, with the policy's verdict on each tool and
-- `_execute_single_tool`. The prompt engines are called as services.
use Prim.Native.String
use unison_orchestrator.Prelude.{
  String, Bool, true, false, not, ◌||◌, Option, none, some, List, [], ◌∷◌, if◌then◌else◌, elem,
  strip, ◌==◌, Result, ok, err,
}
use unison_orchestrator.Prelude.Json.{
  Json, null, bool, int, arr, str, obj, Items, nil, cons, Fields, end, get, truthy, dict, is_text,
  text_of,
}
use unison_orchestrator.Prelude.Dict.{Dict, lookup, insert}
use unison_orchestrator.Companion.Types.{
  Request, policy_check, kv_get as kv_get_request, storage_put, engine_propose, engine_apply,
  engine_rollback, Reply, CompanionError, unusable, engine_failed, State, Config, Python, Act,
  ◌>>=◌, ◌>>◌, return, raise, lift, read, change, send, as_dict, value_or, py_or, body_dict,
  text_for,
}
use unison_orchestrator.Companion.Recall.{recall_workflow_from_dashboard}
use unison_orchestrator.Companion.Design.{apply_workflow_design}

abbrev pub failure : String → Json
failure e = obj (dict (("error", str e) ∷ []))

-- What the policy's answer says of a tool: only a reached service that denies it stops it.
unfoldable pub verdict : Reply → Bool
verdict reply = elim (body_dict reply) [
  | none ↦ true
  | some body ↦ elim (value_or (obj end) (get "decision" body)) [
    | obj decision ↦ truthy (value_or (bool true) (get "allowed" decision))
    | _ ↦ true
  ]
]

-- `self._prompt_engines[person_id] = engine`
abbrev pub with_engine : String → State → State
with_engine person s = record s { engines = insert person true s.engines }

abbrev proposals_of : String → State → Dict Json
proposals_of person s = elim (lookup person s.proposals) [ some d ↦ d | none ↦ [] ]

-- The base URL of a server, by the registry's answer.
abbrev pub base_of : Fields → Json
base_of server = py_or (value_or null (get "base_url" server)) (value_or null (get "url" server))

-- The first tool of a server's list has the name; none where a tool before it is no dict.
unfoldable pub has_tool : String → Items → Result CompanionError Bool
has_tool name nil = ok false
has_tool name (cons (obj tool) rest) =
    let later = has_tool name rest in if is_text name (get "name" tool) then ok true else later
has_tool name (cons _ rest) = err unusable

abbrev pub with_proposal : String → String → Json → State → State
with_proposal person id proposal s = record s {
  proposals = insert person (insert id proposal (proposals_of person s)) s.proposals;
}

-- A proposal that the tool may pass on.
pub record Proposal : Type 0 where
  pub target : String
  pub ops : Items
  pub rationale : String
  pub risk : String

-- The checks of `propose_prompt_update`, in their order.
unfoldable pub valid_proposal : Fields → Result String Proposal
valid_proposal arguments = elim (text_of (get "target" arguments)) [
  | none ↦ err "target must be 'identity' or 'priorities'"
  | some target ↦
      if not (elem target ("identity" ∷ "priorities" ∷ []))
      then err "target must be 'identity' or 'priorities'"
      else elim (value_or null (get "ops" arguments)) [
        | arr ops ↦ elim (py_or (value_or null (get "rationale" arguments)) (str "")) [
          | str rationale ↦
              if strip rationale == ""
              then err "rationale is required"
              else elim (py_or (value_or null (get "risk" arguments)) (str "medium")) [
                | str risk ↦
                    if elem risk ("low" ∷ "medium" ∷ "high" ∷ [])
                    then ok
                        record { target = target; ops = ops; rationale = rationale; risk = risk }
                    else err "risk must be low|medium|high"
                | _ ↦ err "risk must be low|medium|high"
              ]
          | _ ↦ err "rationale is required"
        ]
        | _ ↦ err "ops must be an array of JSON Patch operations"
      ]
]

-- The checks of `apply_prompt_update`, in their order.
unfoldable pub valid_application : Fields → Result String (String × Bool)
valid_application arguments = elim (text_of (get "proposal_id" arguments)) [
  | none ↦ err "proposal_id is required"
  | some id ↦
      if id == ""
      then err "proposal_id is required"
      else elim (value_or (bool false) (get "approved" arguments)) [
        | bool approved ↦ ok (id, approved)
        | _ ↦ err "approved must be boolean"
      ]
]

module _ (python : Python) (answer : List Request → Reply) (config : Config) where
  -- `_policy_allows_tool`
  unfoldable pub policy_allows_tool : String → Json → Json → Act Bool
  unfolding verdict
  policy_allows_tool name person event_id = do
    reply ← send answer (policy_check name person event_id)
    return (verdict reply)

  -- The engine's proposal is kept under its id.
  unfoldable pub keep_proposal : Json → Fields → Act Json
  keep_proposal person proposal = do
    let id = value_or null (get "proposal_id" proposal)
    let engine_risk = value_or null (get "engine_risk" proposal)
    change (with_proposal (text_for python.shown person) (text_for python.shown id) (obj proposal))
    return (
        obj (
          dict (
            ("ok", bool true)
            ∷ ("proposal_id", id)
            ∷ ("target", value_or null (get "target" proposal))
            ∷ ("engine_risk", engine_risk)
            ∷ ("model_risk", value_or null (get "model_risk" proposal))
            ∷ ("requires_approval", bool (is_text "high" (some engine_risk)))
            ∷ [])))

  -- The answer of a person's engine.
  unfoldable pub engine_answer : Json → Request → Act Json
  engine_answer person q = do
    change (with_engine (text_for python.shown person))
    reply ← send answer q
    if reply.success then return (reply.body) else raise (engine_failed reply.body)

  unfoldable pub propose_valid : Json → Result String Proposal → Act Json
  unfolding keep_proposal engine_answer
  propose_valid person (err e) = return (failure e)
  propose_valid person (ok p) = do
    body ← engine_answer person (engine_propose person p.target p.ops p.rationale p.risk)
    proposal ← lift (as_dict body)
    keep_proposal person proposal

  -- `propose_prompt_update`
  unfoldable pub propose_prompt_update : Fields → Json → Act Json
  unfolding valid_proposal propose_valid
  propose_prompt_update arguments person = propose_valid person (valid_proposal arguments)

  unfoldable pub apply_known : Json → String → Bool → Option Json → Act Json
  unfolding engine_answer
  apply_known person id approved none = return (failure (String.◌++◌ "unknown proposal_id: " id))
  apply_known person id approved (some proposal) =
      engine_answer person (engine_apply person proposal approved)

  unfoldable pub apply_valid : Json → Result String (String × Bool) → Act Json
  unfolding apply_known
  apply_valid person (err e) = return (failure e)
  apply_valid person (ok (id, approved)) = do
    s ← read
    apply_known person id approved (lookup id (proposals_of (text_for python.shown person) s))

  -- `apply_prompt_update`
  unfoldable pub apply_prompt_update : Fields → Json → Act Json
  unfolding valid_application apply_valid
  apply_prompt_update arguments person = apply_valid person (valid_application arguments)

  unfoldable pub rollback_valid : Json → Option String → Act Json
  unfolding engine_answer
  rollback_valid person none =
      return (failure "snapshot is required (path to a .tar in prompt snapshots dir)")
  rollback_valid person (some snapshot) =
      if snapshot == ""
      then return (failure "snapshot is required (path to a .tar in prompt snapshots dir)")
      else engine_answer person (engine_rollback person snapshot)

  -- `rollback_prompt_update`
  unfoldable pub rollback_prompt_update : Fields → Json → Act Json
  unfolding rollback_valid
  rollback_prompt_update arguments person =
      rollback_valid person (text_of (get "snapshot" arguments))

  -- The body of a service's answer, or an error with its status.
  abbrev body_or_error : String → Reply → Json
  body_or_error service reply =
      if reply.success
      then reply.body
      else failure (
          String.◌++◌ service
            (String.◌++◌ " service error (" (String.◌++◌ (python.shown (int reply.status)) ")")))

  unfoldable pub context_keys : Json → Act Json
  context_keys (arr keys) = do
    reply ← send answer (kv_get_request (arr keys))
    return (body_or_error "context" reply)
  context_keys _ = return (failure "keys must be list")

  -- `context.get`
  unfoldable pub context_get : Fields → Act Json
  unfolding context_keys
  context_get arguments = context_keys (value_or (arr nil) (get "keys" arguments))

  abbrev is_null : Json → Bool
  is_null null = true
  is_null _ = false

  -- `storage.put`
  unfoldable pub storage_put_tool : Fields → Act Json
  storage_put_tool arguments =
      let key = value_or null (get "key" arguments) in
      let value = value_or null (get "value" arguments) in
      if not (truthy key) || is_null value
      then return (failure "key and value required")
      else (do reply ← send answer (storage_put key value); return (body_or_error "storage" reply))

  abbrev hint_of : Option Json → Option Items
  hint_of (some (arr l)) = some l
  hint_of _ = none

  -- `workflow.recall`
  unfoldable pub workflow_recall : Fields → Json → Act Json
  workflow_recall arguments person =
      let days = py_or (value_or null (get "time_hint_days" arguments)) (int 30) in
      recall_workflow_from_dashboard python answer config
        (py_or (value_or null (get "person_id" arguments)) person)
        (py_or (value_or null (get "query" arguments)) (str ""))
        (elim (python.int_from days) [ some n ↦ n | none ↦ int 30 ])
        (hint_of (get "tags_hint" arguments))

  -- `workflow.design`
  unfoldable pub workflow_design : Fields → Json → Act Json
  workflow_design arguments person =
      apply_workflow_design python answer config
        (py_or (value_or null (get "person_id" arguments)) person)
        (py_or (value_or null (get "workflow_id" arguments)) (str ""))
        (value_or null (get "project_id" arguments))
        (py_or (value_or null (get "mode" arguments)) (str "design"))
        (py_or (value_or null (get "changes" arguments)) (arr nil))
