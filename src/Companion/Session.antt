-- ===== src/Companion/Session.antt =====
-- src/orchestrator/companion.py: `CompanionSessionManager.process_turn`: its requests to the model, and the stage of
-- its tools.
use Prim.Native.String
use unison_orchestrator.Prelude.{
  String, not, none, some, List, [], ◌∷◌, ◌++◌, if◌then◌else◌, ◌==◌, Result, ok, err,
}
use unison_orchestrator.Prelude.Json.{
  Json, null, int, arr, str, obj, Items, nil, cons, Fields, get, truthy, dict,
}
use unison_orchestrator.Companion.Types.{
  Request, inference, Reply, CompanionError, unusable, Config, Python, Act, ◌>>=◌, return, lift,
  read, send, as_loop, value_or, py_or, body_dict,
}
use unison_orchestrator.Companion.Registry.{list_llm_tools}
use unison_orchestrator.Companion.Memory.{joined}
use unison_orchestrator.Companion.Dispatch.{ToolOutcome, execute_tool_calls}

-- Who a turn is of.
pub record Who : Type 0 where
  pub event_id : Json
  pub person_id : Json
  pub session_id : Json

-- What the tools of a turn leave: the body that counts, the activity, and the calls reported.
pub record ToolStage : Type 0 where
  pub final_body : Fields
  pub activity : Items
  pub tool_calls : Json

abbrev pub got : String → Fields → Json
got k d = value_or null (get k d)

abbrev message : String → Json → Json
message role content = obj (dict (("role", str role) ∷ ("content", content) ∷ []))

-- The messages of a payload, or its text as one of them.
unfoldable pub turn_messages : Fields → Json
turn_messages payload =
    let messages = got "messages" payload in
    let text =
      py_or (got "text" payload) (py_or (got "transcript" payload) (got "prompt" payload)) in
    if truthy messages
    then messages
    else if truthy text
    then arr (cons (message "user" text) nil)
    else arr nil

unfoldable pub messages_in : List ToolOutcome → Items
messages_in [] = nil
messages_in (o ∷ os) = cons o.message (messages_in os)

unfoldable pub activity_in : List ToolOutcome → Items
activity_in [] = nil
activity_in (o ∷ os) = cons o.activity (activity_in os)

abbrev pub named_text : Json → List String
named_text (str s) = if s == "" then [] else s ∷ []
named_text _ = []

-- The names of the tools that were active.
unfoldable pub active_names : Items → Result CompanionError (List String)
active_names nil = ok []
active_names (cons (obj d) rest) = elim (active_names rest) [
  | err e ↦ err e
  | ok names ↦ ok (named_text (py_or (got "tool" d) (got "name" d)) ++ names)
]
active_names (cons _ rest) = err unusable

abbrev pub error_of : String → Json → Fields
error_of e event_id = dict (("error", str e) ∷ ("event_id", event_id) ∷ [])

abbrev blocked : Json
blocked = obj (
    dict (
      ("tool", str "boundary")
      ∷ ("status", str "blocked")
      ∷ ("detail", str "interaction_model_tool_calls_disallowed")
      ∷ []))

module _ (python : Python) (answer : List Request → Reply) (config : Config) where
  -- `xs.extend(v)`, for a value that counts as true
  abbrev listed : Json → Result CompanionError Items
  listed (arr l) = ok l
  listed v =
      if truthy v
      then elim (python.items_from v) [ some l ↦ ok l | none ↦ err unusable ]
      else ok nil

  abbrev token_limit : Fields → Json
  token_limit payload = value_or (int config.max_tokens) (get "max_tokens" payload)

  abbrev pub first_request : Who → String → Fields → Items → Items → Items → Fields
  first_request who intent payload prior messages tools =
      let system =
        message "system" (str (python.system_prompt who.person_id who.session_id intent)) in
      dict (
        ("intent", str "companion.turn")
        ∷ ("person_id", who.person_id)
        ∷ ("session_id", who.session_id)
        ∷ ("messages", arr (cons system (joined prior messages)))
        ∷ (
          "attachments",
          py_or (got "attachments" payload) (py_or (got "images" payload) (arr nil)),
        )
        ∷ ("max_tokens", token_limit payload)
        ∷ ("tools", arr (if config.boundaries then nil else tools))
        ∷ (
          "tool_choice",
          if config.boundaries
              then str "none"
              else value_or (str "auto") (get "tool_choice" payload),
        )
        ∷ ("response_format", value_or (str "text-and-tools") (get "response_format" payload))
        ∷ [])

  abbrev followup_request : Who → Fields → Items → Items → Fields
  followup_request who payload messages tools = dict (
      ("intent", str "companion.turn")
      ∷ ("person_id", who.person_id)
      ∷ ("session_id", who.session_id)
      ∷ ("messages", arr messages)
      ∷ ("max_tokens", token_limit payload)
      ∷ ("tools", arr tools)
      ∷ ("tool_choice", str "auto")
      ∷ [])

  abbrev followup_failed : Reply → Json
  followup_failed reply = obj (
      dict (
        ("tool", str "inference_followup")
        ∷ ("status", str "error")
        ∷ ("detail", str (String.◌++◌ "status=" (python.shown (int reply.status))))
        ∷ []))

  -- The tools of a turn, and the second request to the model.
  unfoldable pub run_tools : Who → Fields → Items → Items → Fields → Json → Act ToolStage
  unfolding list_llm_tools messages_in activity_in
  run_tools who payload prior messages body tool_calls = do
    calls ← lift (as_loop tool_calls)
    outcomes ← execute_tool_calls python answer config calls who.person_id who.event_id
    more ← lift (listed (got "messages" body))
    s ← read
    let said = joined (joined (joined prior messages) more) (messages_in outcomes)
    reply ← send answer (inference (followup_request who payload said (list_llm_tools s.tools)))
    let active = activity_in outcomes
    return (elim (body_dict reply) [
      | some final ↦ record { final_body = final; activity = active; tool_calls = tool_calls }
      | none ↦ record {
        final_body = body;
        activity = joined active (cons (followup_failed reply) nil);
        tool_calls = tool_calls;
      }
    ])

  -- The tool calls of the model's answer: run, or blocked by the boundaries of phase 1.
  unfoldable pub tool_stage : Who → Fields → Items → Items → Fields → Act ToolStage
  unfolding run_tools
  tool_stage who payload prior messages body =
      let tool_calls = py_or (got "tool_calls" body) (arr nil) in
      if not (truthy tool_calls)
      then return record { final_body = body; activity = nil; tool_calls = tool_calls }
      else if config.boundaries
      then return record { final_body = body; activity = cons blocked nil; tool_calls = arr nil }
      else run_tools who payload prior messages body tool_calls
