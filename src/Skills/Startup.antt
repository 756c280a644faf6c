-- ===== src/Skills/Startup.antt =====
-- src/orchestrator/skills.py: the capabilities of a device and the prompts it starts with, and the
-- skills that the companion's functions carry out.
use Prim.Native.String
use unison_orchestrator.Prelude.{
  String, Bool, true, false, ◌&&◌, Option, none, some, List, [], ◌∷◌, if◌then◌else◌, ◌==◌, strip,
  split_on,
}
use unison_orchestrator.Prelude.Json.{
  nil, Json, null, bool, int, str, arr, obj, Items, Fields, end, field, get, truthy, has_truthy,
  dict, py_or, value_or, text_for, dict_or_empty,
}
use unison_orchestrator.Companion.Types.{
  Request, kv_set, profile_get, inference_ready, Reply, Config, Python, Act, ◌>>=◌, return, lift,
  send, body_dict,
}
use unison_orchestrator.Companion.Context.{kv_get}
use unison_orchestrator.Companion.Recall.{recall_workflow_from_dashboard}
use unison_orchestrator.Companion.Design.{apply_workflow_design}
use unison_orchestrator.Companion.Process.{process_turn}
use unison_orchestrator.Skills.Types.{SkillConfig, payload_or_empty, refusal, dict_in, error_with}

abbrev hint_of : Option Json → Option Items
hint_of (some (arr l)) = some l
hint_of _ = none

-- `text.split(".")[0]`
unfoldable pub before_dot : String → String
before_dot s = elim (split_on b'.' s) [ [] ↦ s | piece ∷ _ ↦ piece ]

-- A text that is not blank, stripped.
abbrev pub stripped_text : Option Json → Option String
stripped_text (some (str s)) = if strip s == "" then none else some (strip s)
stripped_text _ = none

-- `isinstance(v, dict) and v.get("present", False)`
abbrev pub is_present : String → Fields → Bool
is_present part caps = has_truthy (get "present" (dict_or_empty (get part caps)))

module _ (python : Python) (answer : List Request → Reply) where
  abbrev caps_key : Json → String
  caps_key person = String.◌++◌ "caps:" (text_for python.shown person)

  unfoldable pub report_caps : Json → Json → Act Fields
  report_caps person (obj caps) = do
    reply ← send answer (kv_set (caps_key person) (obj caps))
    if reply.success
        then return (
            dict (
              ("ok", bool true)
              ∷ ("person_id", person)
              ∷ ("key", str (caps_key person))
              ∷ ("caps", obj caps)
              ∷ []))
        else return (
            dict (
              ("ok", bool false)
              ∷ ("error", str (error_with python "context error " reply.status))
              ∷ ("person_id", person)
              ∷ []))
  report_caps person _ = return (refusal "invalid-caps")

  -- `handler_caps_report`
  unfoldable pub caps_report : Fields → Act Fields
  unfolding report_caps
  caps_report envelope = do
    payload ← lift (payload_or_empty envelope)
    report_caps (value_or null (get "person_id" payload))
        (py_or (value_or null (get "caps" payload)) (obj end))

  unfoldable pub caps_read : Json → Option Fields → Act Fields
  caps_read person none = return end
  caps_read person (some body) = do
    values ← lift (dict_in (get "values" body))
    return (dict_or_empty (get (caps_key person) values))

  -- `_load_caps`
  unfoldable pub load_caps : Json → Act Fields
  unfolding caps_read
  load_caps person = do
    reply ← kv_get answer (caps_key person ∷ [])
    caps_read person (body_dict reply)

  abbrev env_locale : SkillConfig → String
  env_locale config = before_dot (if config.locale == "" then "en-US" else config.locale)

  abbrev or_env : SkillConfig → Option String → String
  or_env config none = env_locale config
  or_env config (some locale) = locale

  unfoldable pub locale_read : SkillConfig → Option Fields → Act String
  locale_read config none = return (env_locale config)
  locale_read config (some body) = do
    profile ← lift (dict_in (get "profile" body))
    return (
        or_env config (
          stripped_text (
            some (
              py_or (value_or null (get "locale" profile))
                (value_or null (get "language" profile))))))

  -- `_pick_locale`
  unfoldable pub pick_locale : SkillConfig → Json → Option String → Act String
  unfolding locale_read
  pick_locale config person (some hint) = return hint
  pick_locale config person none = do
    reply ← send answer (profile_get person)
    locale_read config (body_dict reply)

  -- `bool(ready and isinstance(body, dict) and body.get("ready", True))`
  abbrev pub is_ready : Reply → Bool
  is_ready reply = elim (body_dict reply) [
    | some body ↦ truthy (value_or (bool true) (get "ready" body))
    | none ↦ false
  ]

  abbrev pub mode_of : Fields → String
  mode_of caps =
      if is_present "display" caps && (is_present "audio_in" caps && is_present "audio_out" caps)
      then "display_voice"
      else "voice_only"

  abbrev pub prompt_plan : Json → Fields → String → Reply → Fields
  prompt_plan person caps locale reply = dict (
      ("ok", bool true)
      ∷ ("person_id", person)
      ∷ ("mode", str (mode_of caps))
      ∷ ("locale", str locale)
      ∷ ("caps", obj caps)
      ∷ ("camera_present", bool (is_present "camera" caps))
      ∷ ("display_present", bool (is_present "display" caps))
      ∷ ("audio_in_present", bool (is_present "audio_in" caps))
      ∷ ("audio_out_present", bool (is_present "audio_out" caps))
      ∷ (
        "prompts",
        obj (
            dict (
              (
                "voice",
                str (
                    String.◌++◌ "Hi, I'm Unison. I can help in "
                      (String.◌++◌ locale ". Which language do you prefer?")),
              )
              ∷ (
                "display",
                if is_present "display" caps
                    then str "Welcome to Unison. Select your language or speak now."
                    else null,
              )
              ∷ [])),
      )
      ∷ ("inference_ready", bool (is_ready reply))
      ∷ [])

  -- The capabilities given, or those kept.
  unfoldable pub caps_for : Json → Fields → Act Fields
  unfolding load_caps
  caps_for person end = load_caps person
  caps_for person (field k v caps) = return (field k v caps)

  -- `handler_startup_prompt_plan`
  unfoldable pub startup_prompt_plan : SkillConfig → Fields → Act Fields
  unfolding caps_for pick_locale
  startup_prompt_plan config envelope = do
    payload ← lift (payload_or_empty envelope)
    let person = value_or null (get "person_id" payload)
    caps ← caps_for person (dict_or_empty (get "caps" payload))
    locale ← pick_locale config person (stripped_text (get "locale_hint" payload))
    reply ← send answer inference_ready
    return (prompt_plan person caps locale reply)

  -- `handler_companion_turn`
  abbrev pub companion_turn : Config → Fields → Act Fields
  companion_turn = process_turn python answer

  unfoldable pub workflow_design : Config → Fields → Act Json
  workflow_design config envelope = do
    payload ← lift (payload_or_empty envelope)
    apply_workflow_design python answer config (value_or null (get "person_id" payload))
        (py_or (value_or null (get "workflow_id" payload)) (str ""))
        (value_or null (get "project_id" payload))
        (py_or (value_or null (get "mode" payload)) (str "design"))
        (py_or (value_or null (get "changes" payload)) (arr nil))

  unfoldable pub workflow_recall : Config → Fields → Act Json
  workflow_recall config envelope = do
    payload ← lift (payload_or_empty envelope)
    let days = py_or (value_or null (get "time_hint_days" payload)) (int 30)
    recall_workflow_from_dashboard python answer config (value_or null (get "person_id" payload))
        (py_or (value_or null (get "query" payload)) (str ""))
        (elim (python.int_from days) [ some n ↦ n | none ↦ int 30 ])
        (hint_of (get "tags_hint" payload))
