-- ===== src/Companion/Tests.antt =====
-- src/orchestrator/companion.py and context_client.py: runs, with services that refuse one tool.
use unison_orchestrator.Prelude.{
  starts_with, lower, contains_text, sorted, strip, ◌+◌, String, Bool, true, false, not, none, some,
  List, [], ◌∷◌, if◌then◌else◌, ◌==◌, ◌≡◌, refl,
}
use unison_orchestrator.Prelude.Json.{
  get, Json, null, bool, int, str, arr, obj, Items, nil, cons, Fields, end, dict,
}
use unison_orchestrator.Prelude.Dict.{lookup, insert}
use unison_orchestrator.Companion.Types
use unison_orchestrator.Companion.Types.{Request, Reply, State, Config, Python, Turn}
use unison_orchestrator.Companion.Memory.{
  last_of, turns_of, remembered, remember, load_memory, messages_from, store_summary, remember_turn,
}
use unison_orchestrator.Companion.Design.{changed_steps, designed, items_length}
use unison_orchestrator.Companion.Process.{
  process_turn, finish_turn, answer_turn, answer_body, turn_tags,
}
use unison_orchestrator.Companion.Registry.{
  refresh, refresh_from_mcp, refresh_from_context_graph, publish_to_context_graph, keep_answered,
}
use unison_orchestrator.Companion.Context.{load_conversation_messages, store_conversation_turn}
use unison_orchestrator.Companion.Session.{tool_stage, turn_messages, run_tools}
use unison_orchestrator.Companion.Dispatch.{
  execute_tool_calls, execute_tool_call, execute_single_tool, named_tool, on_dict,
}
use unison_orchestrator.Companion.Executor.{policy_allows_tool, context_get, context_keys}
use unison_orchestrator.Companion.Downstream.{emit_downstream, log_context_graph}
use unison_orchestrator.Companion.Guard.{is_guarded}
use unison_orchestrator.Companion.Guarded.{has_acted, process_turn-Guarded, process_turn-Quiet}
use unison_orchestrator.Companion.Recent.{remember_all, turns_under, remember_all-last_of}
use unison_orchestrator.Companion.Numbered.{KeptIn, Numbered, added_count, designed-Numbered}

abbrev python : Python
python = record {
  shown = λ _. "shown";
  loads = λ _. some (obj end);
  dict_from = λ _. none;
  items_from = λ _. none;
  int_from = λ v. some v;
  complaint = "unusable";
  same = λ a b. false;
  stale = λ a b. false;
  since = λ v. v;
  now = int 1;
  new_event = "event";
  new_session = "session";
  system_prompt = λ _ _ _. "prompt";
  new_id = λ _. "step";
}

abbrev open_config : Config
open_config = record {
  boundaries = false;
  mcp_url = false;
  renderer_url = false;
  speech_url = false;
  graph_url = false;
  max_tokens = 256;
}

abbrev phase1_config : Config
phase1_config = record open_config { boundaries = true }

abbrev call_of : String → Json
call_of name = obj (dict (("name", str name) ∷ []))

abbrev was_asked : List Request → Bool
was_asked [] = false
was_asked (Types.policy_check _ _ _ ∷ _) = true
was_asked (_ ∷ log) = was_asked log

abbrev reply_of : Fields → Reply
reply_of d = record { success = true; status = 200; body = obj d }

-- The policy refuses `storage.put`; the model asks for two tools and then answers.
abbrev answer : List Request → Reply
answer (Types.policy_check name _ _ ∷ _) =
    reply_of
      (dict (("decision", obj (dict (("allowed", bool (not (name == "storage.put"))) ∷ []))) ∷ []))
answer (Types.inference _ ∷ log) =
    if was_asked log
    then reply_of (dict (("result", str "done") ∷ []))
    else reply_of (
        dict (
          ("tool_calls", arr (cons (call_of "storage.put") (cons (call_of "context.get") nil)))
          ∷ []))
answer _ = record { success = false; status = 500; body = null }

abbrev new_state : State
new_state = record {
  tools = [];
  last_published = [];
  memory = [];
  engines = [];
  proposals = [];
  log = [];
}

abbrev envelope : Fields
envelope =
    dict (("payload", obj (dict (("text", str "hello") ∷ ("person_id", str "ann") ∷ []))) ∷ [])

process_turn-Guarded_example :
    is_guarded answer (process_turn python answer open_config envelope new_state).1.log ≡ true
unfolding is_guarded
process_turn-Guarded_example =
    process_turn-Guarded python answer open_config envelope new_state refl

process_turn-Quiet_example :
    has_acted (process_turn python answer phase1_config envelope new_state).1.log ≡ false
unfolding has_acted
process_turn-Quiet_example =
    process_turn-Quiet python answer phase1_config envelope new_state refl refl

acts : List Request → List Request
acts [] = []
acts (q ∷ log) = let later = acts log in if has_acted (q ∷ []) then q ∷ later else later

-- One of the two tools runs.
turn_run :
    acts (process_turn python answer open_config envelope new_state).1.log
    ≡ Types.kv_get (arr nil) ∷ []
unfolding acts process_turn has_acted Types.◌>>=◌ Types.next Types.lift get Types.◌>>◌ refresh
    Types.return Types.send Types.read Types.change Types.raise sorted load_memory lookup
    load_conversation_messages tool_stage execute_tool_calls strip insert remember_turn finish_turn
    answer_turn answer_body store_conversation_turn emit_downstream log_context_graph
    execute_single_tool policy_allows_tool named_tool starts_with lower contains_text
    execute_tool_call refresh_from_mcp refresh_from_context_graph publish_to_context_graph
    keep_answered context_get context_keys messages_from store_summary turn_messages run_tools
    on_dict remember remembered turn_tags last_of
turn_run = refl

abbrev turn_of : String → Turn
turn_of s = record { messages = cons (str s) nil; response = end; event_id = null }

remember_all-last_of_example :
    turns_of "ann:1"
      (remember_all
        (("ann:1", turn_of "a") ∷ ("bob:2", turn_of "b") ∷ ("ann:1", turn_of "c") ∷ [])
        new_state).memory
    ≡ turn_of "a" ∷ turn_of "c" ∷ []
unfolding last_of turns_under
remember_all-last_of_example =
    remember_all-last_of
      (("ann:1", turn_of "a") ∷ ("bob:2", turn_of "b") ∷ ("ann:1", turn_of "c") ∷ []) "ann:1"
      new_state refl

abbrev old_steps : Items
old_steps = cons (obj (dict (("title", str "first") ∷ []))) nil

abbrev changes : Items
changes =
    cons (obj (dict (("op", str "add_step") ∷ ("title", str "second") ∷ ("position", int 0) ∷ [])))
      nil

abbrev new_steps : Items
new_steps = cons (obj (dict (("id", str "step") ∷ ("title", str "second") ∷ []))) old_steps

designed-Numbered_example :
    (stored : Items) × (get "steps" (designed python "w" (str "ann") none new_steps end)
      ≡ some (arr stored))
    × Numbered 1 stored
    × KeptIn old_steps stored
    × (items_length stored ≡ items_length old_steps + added_count changes)
unfolding changed_steps get strip items_length
designed-Numbered_example =
    designed-Numbered python "w" (str "ann") none changes old_steps end {out = new_steps} {b = true}
      refl
