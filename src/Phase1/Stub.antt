-- ===== src/Phase1/Stub.antt =====
-- phase1/planner.py: intents, the plans made without a model, and the checks on a model's plan. Ids
-- are arguments, as are Python's equality of values and the schema validator, which gives what it
-- raises; `mem n` is the id of the n-th memory operation. Timestamps are left out. Looking up a
-- list or a dict in a set raises: such a function gives nothing then.
use Prim.Native.String
use unison_orchestrator.Prelude.{
  ℕ, String, Bool, true, false, not, ◌&&◌, ◌||◌, Option, none, some, List, [], ◌∷◌, if◌then◌else◌,
  leb, ◌==◌, elem, strip, lower, starts_with, contains_text, Result, ok, err,
}
use unison_orchestrator.Prelude.Json.{
  append, items_or_empty, Json, bool, int, str, float, arr, obj, Items, nil, cons, Fields, end, get,
  put, dict_or_empty, dict, is_text, to_items,
}
use unison_orchestrator.Phase1.Planner.{browse_call, extract_url, harden, normalize_plan}

-- What planning raises: `ValueError` and `RuntimeError` with their texts, or another exception.
pub data PlannerError : Type 0 where
  value_error : String → PlannerError
  runtime_error : String → PlannerError
  other_error : PlannerError

-- What `Phase1SchemaValidator.validate` leaves of an object: the object, or what it raises.
abbrev pub checked : (Fields → Option PlannerError) → Fields → Result PlannerError Fields
checked check out = elim (check out) [ none ↦ ok out | some e ↦ err e ]

-- A text of the set, or the default; nothing where the lookup raises.
abbrev pub member_or : String → List String → Option Json → Option String
member_or default allowed (some (str s)) = some (if elem s allowed then s else default)
member_or default allowed (some (arr _)) = none
member_or default allowed (some (obj _)) = none
member_or default allowed _ = some default

abbrev pub override_or : String → List String → Option String → String
override_or current allowed (some s) = if elem s allowed then s else current
override_or current allowed none = current

abbrev pub wpm_of : Option Json → ℕ
wpm_of (some (int n)) = if leb 80 n && leb n 240 then n else 160
wpm_of _ = 160

abbrev motion_of : Option Json → Bool
motion_of (some (bool b)) = b
motion_of _ = true

abbrev pub verbosities : List String
verbosities = "minimal" ∷ "normal" ∷ "detailed" ∷ []

abbrev pub densities : List String
densities = "sparse" ∷ "balanced" ∷ "dense" ∷ []

abbrev pub presences : List String
presences = "calm" ∷ "neutral" ∷ "energetic" ∷ []

abbrev pub profile_or_empty : Option Fields → Fields
profile_or_empty (some p) = p
profile_or_empty none = end

-- The directives, from the three texts and the preferences.
abbrev pub directives_for :
    String → Option String → Option String → Fields → String → String → String → Fields
directives_for modality verbosity_override density_override prefs verbosity density presence =
    dict (
      ("verbosity", str (override_or verbosity verbosities verbosity_override))
      ∷ ("visual_density", str (override_or density densities density_override))
      ∷ ("presence", str presence)
      ∷ ("modality", str (if modality == "voice" then "voice" else "renderer"))
      ∷ ("pacing_wpm", int (wpm_of (get "pacing_wpm" prefs)))
      ∷ ("allow_motion", bool (motion_of (get "allow_motion" prefs)))
      ∷ ("accessibility_hints", obj end)
      ∷ [])

-- The directives of three lookups, nothing where one raises.
abbrev pub with_texts :
    (String → String → String → Fields)
    → Option String
    → Option String
    → Option String
    → Option Fields
with_texts f (some v) (some d) (some p) = some (f v d p)
with_texts f (some v) (some d) none = none
with_texts f (some v) none presence = none
with_texts f none density presence = none

-- `_default_renderer_directives`, nothing where it raises
unfoldable pub default_renderer_directives :
    String → Option Fields → Option String → Option String → Option Fields
default_renderer_directives modality profile verbosity_override density_override =
    let prefs = dict_or_empty (get "preferences" (profile_or_empty profile)) in
    with_texts (directives_for modality verbosity_override density_override prefs)
      (member_or "normal" verbosities (get "verbosity" prefs))
      (member_or "balanced" densities (get "visual_density" prefs))
      (member_or "calm" presences (get "presence" prefs))

unfoldable pub parse_verbosity : String → Option String
parse_verbosity text =
    let t = lower (strip text) in
    if t == ""
    then none
    else if elem t ("minimal" ∷ "min" ∷ "brief" ∷ "short" ∷ [])
    then some "minimal"
    else if elem t ("normal" ∷ "default" ∷ "standard" ∷ [])
    then some "normal"
    else if elem t ("detailed" ∷ "detail" ∷ "verbose" ∷ "long" ∷ [])
    then some "detailed"
    else none

unfoldable pub parse_visual_density : String → Option String
parse_visual_density text =
    let t = lower (strip text) in
    if t == ""
    then none
    else if elem t ("sparse" ∷ "minimal" ∷ "low" ∷ [])
    then some "sparse"
    else if elem t ("balanced" ∷ "normal" ∷ "default" ∷ "medium" ∷ [])
    then some "balanced"
    else if elem t ("dense" ∷ "high" ∷ "compact" ∷ [])
    then some "dense"
    else none

unfoldable pub parse_skip : String → Bool
parse_skip text =
    elem (lower (strip text)) ("skip" ∷ "no" ∷ "none" ∷ "nah" ∷ "nope" ∷ "nothing" ∷ [])

pub record OnboardingState : Type 0 where
  pub completed : Bool
  pub stage : String
  pub awaiting : Option String

abbrev is_true : Option Json → Bool
is_true (some (bool b)) = b
is_true _ = false

abbrev awaited : Option Json → Option (Option String)
awaited (some (str s)) =
    some (if elem s ("name" ∷ "verbosity" ∷ "visual_density" ∷ "goals" ∷ []) then some s else none)
awaited (some (arr _)) = none
awaited (some (obj _)) = none
awaited _ = some none

-- `_onboarding_state`, nothing where it raises
unfoldable pub onboarding_state : Option Fields → Option OnboardingState
onboarding_state profile =
    let onboarding = dict_or_empty (get "onboarding" (profile_or_empty profile)) in
    let stages = "name" ∷ "verbosity" ∷ "visual_density" ∷ "goals" ∷ "done" ∷ [] in
    elim (member_or "name" stages (get "stage" onboarding)) [
      | none ↦ none
      | some stage ↦ elim (awaited (get "awaiting" onboarding)) [
        | none ↦ none
        | some waits ↦ some (record {
          completed = is_true (get "completed" onboarding);
          stage = stage;
          awaiting = waits;
        })
      ]
    ]

-- `Phase1Planner.create_intent`, without the validation
unfoldable pub create_intent : String → String → String → Fields
create_intent intent_id raw modality =
    let normalized = strip raw in
    let l = lower normalized in
    dict (
      ("intent_id", str intent_id)
      ∷ ("modality", str (if modality == "voice" then "voice" else "text"))
      ∷ ("raw_input", str raw)
      ∷ ("normalized_text", str normalized)
      ∷ ("language", str "en")
      ∷ (
        "category",
        str (
            if starts_with "remember" l || contains_text "remember that" l
            then "memory"
            else if starts_with "browse " l || starts_with "open " l
            then "actuation"
            else "qa"),
      )
      ∷ ("confidence", float "0.72")
      ∷ ("entities", arr (to_items []))
      ∷ ("requires_clarification", bool false)
      ∷ ("clarification_questions", arr (to_items []))
      ∷ [])

-- Some dict of the list has this text at the key.
abbrev pub any_text : String → String → Items → Bool
any_text key text nil = false
any_text key text (cons (obj d) rest) = is_text text (get key d) || any_text key text rest
any_text key text (cons v rest) = any_text key text rest

abbrev pub plan_step : String → String → String → Items → Json
plan_step step_id kind summary depends_on = obj (
    dict (
      ("step_id", str step_id)
      ∷ ("type", str kind)
      ∷ ("summary", str summary)
      ∷ ("depends_on", arr depends_on)
      ∷ []))

module _ (hostname : String → String) (domains : String) where
  -- The plan with a call for the URL, and a step of type tool if it had none.
  unfoldable pub inject : String → String → Fields → Fields
  inject call_id url out =
      let called =
        put "tool_calls"
          (arr (
            append (items_or_empty (get "tool_calls" out))
              (obj (browse_call hostname domains call_id url))))
          out in
      let steps = items_or_empty (get "steps" called) in
      if any_text "type" "tool" steps
      then called
      else put "steps"
          (arr (append steps (plan_step "tool_1" "tool" (String.◌++◌ "Open URL: " url) nil))) called

  -- `_ensure_vdi_tool_call_for_actuation`
  unfoldable pub ensure_vdi_tool_call : String → Fields → String → Fields → Fields
  unfolding inject
  ensure_vdi_tool_call call_id intent raw out =
      if not (is_text "actuation" (get "category" intent)) then out else elim (extract_url raw) [
        | none ↦ out
        | some url ↦
            if any_text "tool_name" "vdi.use_computer" (items_or_empty (get "tool_calls" out))
            then out
            else inject call_id url out
      ]

  -- What `_parse_validate` does with the object it found. `same` is Python's `==`.
  unfoldable pub validated :
      (Option Json → Option Json → Bool)
      → (Fields → Option PlannerError)
      → String
      → String
      → Fields
      → Fields
      → String
      → Fields
      → Result PlannerError Fields
  unfolding ensure_vdi_tool_call
  validated same check call_id model directives intent raw parsed =
      let out = put "planner_model" (str model) parsed in
      if not (same (get "intent_id" out) (get "intent_id" intent))
      then err (value_error "planner output intent_id mismatch")
      else if not (same (get "renderer_directives" out) (some (obj directives)))
      then err (value_error "planner output renderer_directives mismatch")
      else checked check
          (ensure_vdi_tool_call call_id intent raw (normalize_plan (harden hostname domains out)))
