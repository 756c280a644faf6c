-- ===== src/Phase1/Model.antt =====
-- phase1/planner.py: what the inference service is asked for a plan, and the search for an object
-- in the text it answers. The system prompt of unison_common, `json.loads` with what it raises, and
-- `json.dumps` are arguments; the trace event and the headers are left out. The configured number
-- of tokens and the temperature are what `int` and `float` give, or raise. Texts are ASCII where
-- they are stripped or lowered.
use Prim.Native.Char.{code}
use Prim.Native.String
use unison_orchestrator.Prelude.{
  ℕ, String, Bool, false, Option, none, some, List, [], ◌∷◌, if◌then◌else◌, nat_eq, ◌==◌, elem,
  strip, lower, Result, ok, err,
}
use unison_orchestrator.Prelude.Json.{
  Json, bool, int, str, arr, obj, Fields, get, dict, to_items, text_of,
}
use unison_orchestrator.Phase1.Memory.{Reply, or_null, is_success}
use unison_orchestrator.Phase1.Stub.{
  PlannerError, value_error, runtime_error, profile_or_empty, default_renderer_directives,
  plan_step,
}

-- What the environment says of the planner, a text as `os.getenv` gives it, and whether there are
-- clients.
pub record PlannerConfig : Type 0 where
  pub disable_inference : Option String
  pub mode : Option String
  pub fallback : Option String
  pub provider : Option String
  pub inference_provider : Option String
  pub model : Option String
  pub max_tokens : Result PlannerError Json
  pub temperature : Result PlannerError Json
  pub has_clients : Bool

-- `os.getenv(name) or default`
abbrev env_or : String → Option String → String
env_or default (some s) = if s == "" then default else s
env_or default none = default

-- `_planner_mode`
unfoldable pub planner_mode : PlannerConfig → String
planner_mode config =
    if elem (lower (env_or "" config.disable_inference)) ("1" ∷ "true" ∷ "yes" ∷ "on" ∷ [])
    then "stub"
    else let raw = lower (strip (env_or "llm" config.mode)) in
      if elem raw ("llm" ∷ "stub" ∷ []) then raw else "llm"

-- `_planner_fallback`
unfoldable pub planner_fallback : PlannerConfig → String
planner_fallback config =
    let raw = lower (strip (env_or "error" config.fallback)) in
    if elem raw ("error" ∷ "stub" ∷ []) then raw else "error"

-- `_planner_provider`
abbrev pub planner_provider : PlannerConfig → String
planner_provider config = strip (env_or (env_or "ollama" config.inference_provider) config.provider)

-- `_planner_model`
abbrev pub planner_model_of : PlannerConfig → String
planner_model_of config = strip (env_or "qwen2.5" config.model)

-- `raw[raw.find(c):]`, where the character is found
from_first : ℕ → String → Option String
from_first n String.[] = none
from_first n (String.◌∷◌ c s) =
    let later = from_first n s in if nat_eq (code c) n then some (String.◌∷◌ c s) else later

-- `raw[:raw.rfind(c) + 1]`, where the character is found
to_last : ℕ → String → Option String
to_last n String.[] = none
to_last n (String.◌∷◌ c s) = elim (to_last n s) [
  | some r ↦ some (String.◌∷◌ c r)
  | none ↦ if nat_eq (code c) n then some (String.◌∷◌ c String.[]) else none
]

-- From the first opening brace to the last closing brace, if that one comes later.
unfoldable pub braced : String → Option String
unfolding from_first to_last
braced raw = elim (from_first b'{' raw) [ none ↦ none | some s ↦ to_last b'}' s ]

-- An object, or the complaint.
abbrev as_object : Json → Result PlannerError Fields
as_object (obj d) = ok d
as_object _ = err (value_error "planner output is not a JSON object")

module _ (loads : String → Result PlannerError Json) where
  -- `json.loads(raw[start : end + 1])`
  abbrev object_within : Option String → Result PlannerError Fields
  object_within none = err (value_error "planner output is not a JSON object")
  object_within (some t) = elim (loads t) [ ok v ↦ as_object v | err e ↦ err e ]

  -- `_extract_json_object`
  unfoldable pub extract_json_object : String → Result PlannerError Fields
  unfolding braced
  extract_json_object text =
      let raw = strip text in
      if raw == ""
      then err (value_error "empty planner output")
      else elim (loads raw) [ ok (obj d) ↦ ok d | _ ↦ object_within (braced raw) ]

abbrev concat_texts : List String → String
concat_texts [] = ""
concat_texts (s ∷ ss) = String.◌++◌ s (concat_texts ss)

abbrev message : String → String → Json
message role content = obj (dict (("role", str role) ∷ ("content", str content) ∷ []))

-- `directives`
abbrev pub plan_directives : String → Option Fields → Option Fields
plan_directives modality profile =
    default_renderer_directives (if modality == "voice" then "voice" else "text") profile none none

abbrev plan_shape_hint : Fields → Fields → Fields
plan_shape_hint intent directives = dict (
    ("plan_id", str "string (min length 8, unique)")
    ∷ ("intent_id", or_null (get "intent_id" intent))
    ∷ ("steps", arr (to_items (plan_step "step_1" "respond" "string" (to_items []) ∷ [])))
    ∷ ("tool_calls", arr (to_items []))
    ∷ ("memory_ops", arr (to_items []))
    ∷ ("renderer_directives", obj directives)
    ∷ ("requires_confirmation", bool false)
    ∷ ("confirmation_prompt", str "string (only when requires_confirmation=true)")
    ∷ [])

-- The message of the system, after the injected prompt.
unfoldable pub system_message : String → String
system_message injected = concat_texts (
    injected ∷ "\n\n" ∷ "You are the UnisonOS planner model.\n"
    ∷ "Return ONLY a single JSON object (no markdown, no prose) that conforms to PlanV1.\n"
    ∷ "Do not include user-facing language; planning output is internal.\n"
    ∷ "Use ONLY tool_name values from the ToolCallV1 schema.\n"
    ∷ "Use renderer_directives EXACTLY as provided.\n"
    ∷ "For steps[].type, use exactly one of: respond, clarify, tool, memory.\n" ∷ [])

-- The message of the user.
unfoldable pub user_message : (Json → String) → Fields → Option Fields → Fields → String
user_message dumps intent profile directives = concat_texts (
    "Create a PlanV1 for the following intent.\n\n"
    ∷ "intent: "
    ∷ dumps (obj intent)
    ∷ "\n"
    ∷ "profile: "
    ∷ dumps (obj (profile_or_empty profile))
    ∷ "\n"
    ∷ "required_renderer_directives: "
    ∷ dumps (obj directives)
    ∷ "\n"
    ∷ "PlanV1 shape hint: "
    ∷ dumps (obj (plan_shape_hint intent directives))
    ∷ "\n"
    ∷ [])

unfoldable pub retry_system : String → String
retry_system system = concat_texts (
    system ∷ "\n\n" ∷ "Your previous output failed schema validation. You MUST correct it.\n"
    ∷ "Return ONLY a single PlanV1 JSON object.\n" ∷ [])

unfoldable pub retry_user : String → String → String → String
retry_user user complaint raw = concat_texts (
    user ∷ "\n\n" ∷ "Schema validation error: " ∷ complaint ∷ "\n" ∷ "Previous output:\n" ∷ raw
    ∷ [])

-- The body of a request for a plan.
unfoldable pub plan_request :
    PlannerConfig → String → Option String → String → String → String → Json → Json → Fields
plan_request config intent person_id session_id system user max_tokens temperature = dict (
    ("intent", str intent)
    ∷ ("person_id", str (env_or "anonymous" person_id))
    ∷ ("session_id", str session_id)
    ∷ ("provider", str (planner_provider config))
    ∷ ("model", str (planner_model_of config))
    ∷ ("messages", arr (to_items (message "system" system ∷ message "user" user ∷ [])))
    ∷ ("tools", arr (to_items []))
    ∷ ("tool_choice", str "none")
    ∷ ("response_format", str "json_object")
    ∷ ("max_tokens", max_tokens)
    ∷ ("temperature", temperature)
    ∷ [])

-- The text of an answer that counts.
unfoldable pub answer_text : (Json → String) → Reply → Result PlannerError String
answer_text shown (success, status, obj body) =
    if is_success success status
    then elim (text_of (get "result" body)) [ some raw ↦ ok raw | none ↦ ok "" ]
    else err (
        runtime_error
          (concat_texts ("planner inference failed (status=" ∷ shown (int status) ∷ ")" ∷ [])))
answer_text shown (success, status, body) = err (
    runtime_error
      (concat_texts ("planner inference failed (status=" ∷ shown (int status) ∷ ")" ∷ [])))
