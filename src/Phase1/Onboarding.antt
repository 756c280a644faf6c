-- ===== src/Phase1/Onboarding.antt =====
-- phase1/onboarding.py: the deterministic onboarding of a person. Ids, and Python's `str` of a
-- value that is no text, are arguments; texts are ASCII where they are stripped, lowered or
-- matched. Timestamps are left out of the intents.
use Prim.Native.Char.{code}
use Prim.Native.String
use unison_orchestrator.Prelude.{
  ℕ, String, Bool, true, false, not, ◌&&◌, ◌||◌, Option, none, some, List, [], ◌∷◌, if◌then◌else◌,
  leb, nat_eq, ◌==◌, elem, strip, lower, any,
}
use unison_orchestrator.Prelude.Json.{
  Json, null, bool, str, obj, Fields, get, dict_or_empty, dict, truthy, has_truthy, text_of,
}

-- Where the scan for `\\s+` in `_norm` stands: in plain text, behind a backslash, or in the letters
-- that follow one. The pattern is the raw text `\\s+`, a backslash and one or more letters s.
pub data Scan : Type 0 where
  plain behind_backslash in_run : Scan

unfoldable pub squash : Scan → String → String
squash behind_backslash String.[] = "\\"
squash _ String.[] = ""
squash plain (String.◌∷◌ c s) =
    let pending = squash behind_backslash s in
    let rest = squash plain s in if nat_eq (code c) 92 then pending else (String.◌∷◌ c rest)
squash behind_backslash (String.◌∷◌ c s) =
    let pending = squash behind_backslash s in
    let run = squash in_run s in
    let rest = squash plain s in
    if nat_eq (code c) b's'
    then String.◌++◌ " " run
    else if nat_eq (code c) 92
    then String.◌++◌ "\\" pending
    else String.◌++◌ "\\" (String.◌∷◌ c rest)
squash in_run (String.◌∷◌ c s) =
    let pending = squash behind_backslash s in
    let run = squash in_run s in
    let rest = squash plain s in
    if nat_eq (code c) b's'
    then run
    else if nat_eq (code c) 92
    then pending
    else (String.◌∷◌ c rest)

-- `_norm`
unfoldable pub norm : String → String
unfolding squash
norm text = lower (squash plain (strip text))

-- `\b` behind a match: the text ends, or no letter, digit or underscore follows.
is_word : ℕ → Bool
is_word n =
    (leb b'a' n && leb n b'z')
    || (leb b'A' n && leb n b'Z')
    || (leb b'0' n && leb n b'9')
    || nat_eq n b'_'

starts_word : String → String → Bool
starts_word String.[] String.[] = true
starts_word String.[] (String.◌∷◌ c s) = not (is_word (code c))
starts_word (String.◌∷◌ d w) String.[] = false
starts_word (String.◌∷◌ d w) (String.◌∷◌ c s) =
    if nat_eq (code d) (code c) then starts_word w s else false

-- `_GREETING_RE.match`
unfoldable pub greets : String → Bool
unfolding is_word starts_word
greets text =
    any (λ w. starts_word w (lower text)) ("hi" ∷ "hello" ∷ "hey" ∷ "yo" ∷ "sup" ∷ "howdy" ∷ [])

-- The sets of answers.
unfoldable pub finishes : String → Bool
finishes s = elem s ("skip" ∷ "done" ∷ "finish" ∷ "complete" ∷ [])

unfoldable pub is_filler : String → Bool
is_filler s = elem s ("ok" ∷ "okay" ∷ "yes" ∷ "yep" ∷ "no" ∷ "nah" ∷ [])

unfoldable pub verbosity_of : String → Option String
verbosity_of s =
    if elem s ("minimal" ∷ "min" ∷ [])
    then some "minimal"
    else if elem s ("detailed" ∷ "detail" ∷ "verbose" ∷ [])
    then some "detailed"
    else if elem s ("normal" ∷ "balanced" ∷ "default" ∷ [])
    then some "normal"
    else none

unfoldable pub density_of : String → Option String
density_of s =
    if elem s ("sparse" ∷ "low" ∷ "light" ∷ [])
    then some "sparse"
    else if elem s ("balanced" ∷ "normal" ∷ "default" ∷ [])
    then some "balanced"
    else if elem s ("dense" ∷ "high" ∷ [])
    then some "dense"
    else none

-- `{"onboarding": {"completed": ..., "stage": ..., "awaiting": ...}}`
abbrev pub onboarding_fields : Bool → String → Json → Fields
onboarding_fields completed stage awaiting =
    dict (("completed", bool completed) ∷ ("stage", str stage) ∷ ("awaiting", awaiting) ∷ [])

abbrev pub onboarding_patch : Bool → String → Json → Fields
onboarding_patch completed stage awaiting =
    dict (("onboarding", obj (onboarding_fields completed stage awaiting)) ∷ [])

-- A call of `add_profile_patch` or `add_prefs_patch`.
pub record Patch : Type 0 where
  pub target : String
  pub payload : Fields
  pub summary : String

abbrev pub profile_patch : Fields → String → Patch
profile_patch payload summary = record { target = "profile"; payload = payload; summary = summary }

abbrev pub prefs_patch : Fields → String → Patch
prefs_patch payload summary = record {
  target = "preferences";
  payload = payload;
  summary = summary;
}

-- What a turn comes to: nothing to do here, a question, or patches.
pub data Turn : Type 0 where
  pass : Turn
  ask : (question step_id summary policy : String) → Turn
  patch : List Patch → Turn

abbrev pub complete_onboarding : Turn
complete_onboarding =
    patch (profile_patch (onboarding_patch true "done" null) "Complete onboarding" ∷ [])

unfoldable pub name_turn : String → String → Turn
name_turn text normalized =
    if greets text || is_filler normalized
    then ask "What name should I use for you?" "askname" "Ask for preferred name"
        "Ask for preferred name to personalize responses."
    else patch (
        profile_patch
          (dict (
            ("preferred_name", str (strip text))
            ∷ ("onboarding", obj (onboarding_fields false "verbosity" (str "verbosity")))
            ∷ []))
          "Set preferred name"
        ∷ [])

unfoldable pub verbosity_turn : String → Turn
verbosity_turn normalized = elim (verbosity_of normalized) [
  | none ↦
      ask "Verbosity preference: minimal, normal, or detailed?" "askverb" "Ask verbosity preference"
        "Clarify verbosity preference."
  | some v ↦ patch (
      prefs_patch (dict (("verbosity", str v) ∷ [])) "Set verbosity preference"
      ∷ profile_patch (onboarding_patch false "density" (str "visual_density"))
          "Advance onboarding stage"
      ∷ [])
]

unfoldable pub density_turn : String → Turn
density_turn normalized = elim (density_of normalized) [
  | none ↦
      ask "Visual density: sparse, balanced, or dense?" "askdens" "Ask visual density preference"
        "Clarify visual density preference."
  | some d ↦ patch (
      prefs_patch (dict (("visual_density", str d) ∷ [])) "Set visual density preference"
      ∷ profile_patch (onboarding_patch false "confirm" (str "confirm")) "Advance onboarding stage"
      ∷ [])
]

-- `isinstance(prof.get("preferred_name"), str) and prof.get(...).strip()`
abbrev pub has_name : Fields → Bool
has_name prof = elim (text_of (get "preferred_name" prof)) [
  | none ↦ false
  | some n ↦ not (strip n == "")
]

abbrev pub has_prefs : Fields → Bool
has_prefs prof =
    has_truthy (get "verbosity" (dict_or_empty (get "preferences" prof)))
    && has_truthy (get "visual_density" (dict_or_empty (get "preferences" prof)))

unfoldable pub confirm_turn : Fields → Turn
confirm_turn prof = if has_name prof && has_prefs prof then complete_onboarding else pass

-- The branches on the answer and the stage.
unfoldable pub stage_turn : String → String → Fields → Turn
unfolding name_turn verbosity_turn density_turn confirm_turn
stage_turn stage text prof =
    let normalized = norm text in
    if finishes normalized
    then complete_onboarding
    else if stage == "name"
    then name_turn text normalized
    else if stage == "verbosity"
    then verbosity_turn normalized
    else if stage == "density"
    then density_turn normalized
    else confirm_turn prof

module _ (py_str : Json → String) where
  -- `str(onboarding.get("stage") or "name")`
  abbrev pub stage_text : Option Json → String
  stage_text (some (str s)) = if s == "" then "name" else s
  stage_text (some v) = if truthy v then py_str v else "name"
  stage_text none = "name"

  -- `maybe_plan_onboarding`, up to the building of intent and plan.
  unfoldable pub turn_of : String → Fields → Turn
  unfolding stage_turn
  turn_of raw prof =
      let onboarding = dict_or_empty (get "onboarding" prof) in
      let text = strip raw in
      if has_truthy (get "completed" onboarding)
      then pass
      else if text == ""
      then pass
      else stage_turn (stage_text (get "stage" onboarding)) text prof
