-- ===== src/Companion/Process.antt =====
-- src/orchestrator/companion.py: `CompanionSessionManager.process_turn`, from the session's memory to
-- the answer.
use Prim.Native.String
use unison_orchestrator.Prelude.{
  String, not, Option, none, some, List, [], ◌∷◌, ◌++◌, if◌then◌else◌, Result, ok, err,
}
use unison_orchestrator.Prelude.Json.{
  Json, null, int, arr, str, obj, Items, nil, Fields, end, get, truthy, dict,
}
use unison_orchestrator.Companion.Types.{
  Request, inference, Reply, CompanionError, Config, Python, Act, ◌>>=◌, ◌>>◌, return, lift, read,
  send, as_dict, as_list, value_or, py_or, body_dict, text_for,
}
use unison_orchestrator.Companion.Registry.{list_llm_tools, refresh}
use unison_orchestrator.Companion.Context.{list_or_empty}
use unison_orchestrator.Companion.Memory.{
  joined, first_assistant_content, remember_turn, load_memory,
}
use unison_orchestrator.Companion.Design.{distinct_tags}
use unison_orchestrator.Companion.Downstream.{
  Surface, tag_items, emit_downstream, log_context_graph,
}
use unison_orchestrator.Companion.Session.{
  Who, ToolStage, got, turn_messages, named_text, active_names, error_of, first_request, tool_stage,
}

module _ (python : Python) (answer : List Request → Reply) (config : Config) where
  -- The activity that the final body reports itself.
  abbrev whole_activity : ToolStage → Items
  whole_activity stage =
      joined stage.activity (list_or_empty (get "tool_activity" stage.final_body))

  -- The tags of a turn: its intent and the tools that were active, each once.
  unfoldable pub turn_tags : Json → Items → Result CompanionError (List String)
  unfolding active_names distinct_tags
  turn_tags origin_intent activity = elim (active_names activity) [
    | err e ↦ err e
    | ok names ↦ ok (distinct_tags [] (named_text origin_intent ++ names))
  ]

  abbrev shown_if : Json → Json → Json
  shown_if text v = if truthy text then v else null

  abbrev answer_of : Who → Fields → ToolStage → Surface → Fields
  answer_of who payload stage turn =
      let text = turn.text in
      dict (
        ("text", text)
        ∷ ("tool_calls", stage.tool_calls)
        ∷ ("tool_activity", arr turn.tool_activity)
        ∷ ("provider", got "provider" stage.final_body)
        ∷ ("model", got "model" stage.final_body)
        ∷ ("event_id", who.event_id)
        ∷ ("session_id", who.session_id)
        ∷ ("person_id", who.person_id)
        ∷ ("origin_intent", turn.origin_intent)
        ∷ ("tags", tag_items turn.tags)
        ∷ ("created_at", python.now)
        ∷ ("raw_response", obj stage.final_body)
        ∷ ("display_intent", shown_if text (obj (dict (("text", text) ∷ ("images", arr nil) ∷ []))))
        ∷ ("speak_intent", shown_if text (obj (dict (("text", text) ∷ []))))
        ∷ ("wakeword", if truthy (got "wakeword_command" payload) then text else null)
        ∷ [])

  -- What follows the tools: the reply's text, the memory of the turn, and the other surfaces.
  unfoldable pub finish_turn : Who → Json → Fields → Items → ToolStage → Act Fields
  unfolding first_assistant_content turn_tags
  finish_turn who origin_intent payload messages stage = do
    let body = stage.final_body
    let activity = whole_activity stage
    let text : Result CompanionError Json =
        if truthy (got "result" body)
        then ok (got "result" body)
        else first_assistant_content (got "messages" body)
    reply_text ← lift text
    remember_turn python.shown answer who.person_id who.session_id messages body who.event_id
    tags ← lift (turn_tags origin_intent activity)
    let turn : Surface = record {
      text = reply_text;
      tool_activity = activity;
      person_id = who.person_id;
      session_id = who.session_id;
      cards = got "cards" body;
      origin_intent = origin_intent;
      tags = tags;
    }
    emit_downstream python answer config turn
    log_context_graph python answer config turn
    return (answer_of who payload stage turn)

  -- What follows the model's answer.
  unfoldable pub answer_body :
      Who → Json → Fields → Items → Items → Reply → Option Fields → Act Fields
  unfolding tool_stage finish_turn
  answer_body who origin_intent payload prior said reply none = return (
      error_of
        (String.◌++◌ "Inference service unavailable ("
          (String.◌++◌ (python.shown (int reply.status)) ")"))
        who.event_id)
  answer_body who origin_intent payload prior said reply (some body) = do
    stage ← tool_stage python answer config who payload prior said body
    finish_turn who origin_intent payload said stage

  -- The request to the model, and what follows its answer.
  unfoldable pub answer_turn : Who → Json → Fields → Json → Act Fields
  unfolding answer_body
  answer_turn who origin_intent payload messages = do
    prior ← load_memory python.shown answer who.person_id who.session_id
    said ← lift (as_list messages)
    s ← read
    reply ← send answer (
        inference (
          first_request python answer config who (text_for python.shown origin_intent) payload prior
            said (list_llm_tools s.tools)))
    answer_body who origin_intent payload prior said reply (body_dict reply)

  -- `process_turn`
  unfoldable pub process_turn : Fields → Act Fields
  unfolding turn_messages answer_turn
  process_turn envelope = do
    let event_id = value_or (str python.new_event) (get "event_id" envelope)
    payload ← lift (as_dict (py_or (value_or (obj end) (get "payload" envelope)) (obj end)))
    let who : Who = record {
      event_id = event_id;
      person_id = py_or (got "person_id" payload) (py_or (got "user_id" payload) (str "anonymous"));
      session_id = py_or (got "session_id" payload) (str python.new_session);
    }
    refresh answer config
    let messages = turn_messages payload
    if not (truthy messages)
        then return (error_of "Missing messages or text for companion turn" event_id)
        else answer_turn who (py_or (got "intent" envelope) (str "companion.turn")) payload messages
