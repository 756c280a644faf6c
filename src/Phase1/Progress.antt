-- ===== src/Phase1/Progress.antt =====
-- The onboarding comes to its end.
use mathlib.Core.Path.{subst}
use unison_orchestrator.Prelude.{
  String, Bool, true, false, ◌&&◌, ◌||◌, Option, none, some, List, [], ◌∷◌, if◌then◌else◌, ◌≡◌,
  refl, ◌==◌, strip, Bool-cases, Option-cases, inl, inr,
}
use unison_orchestrator.Prelude.Json.{
  Json, null, bool, str, obj, Fields, get, put, dict_or_empty, dict, has_truthy, Distinct,
}
use unison_orchestrator.Phase1.Memory.{deep_merge, dict_of, upserted}
use unison_orchestrator.Phase1.Merge.{merged, get-deep_merge}
use unison_orchestrator.Phase1.Onboarding.{
  Turn, patch, Patch, turn_of, stage_turn, norm, finishes, name_turn, verbosity_turn, density_turn,
  confirm_turn, greets, is_filler, verbosity_of, density_of, onboarding_fields, onboarding_patch,
  has_name, has_prefs, profile_patch, stage_text,
}
use unison_orchestrator.Phase1.Reply.{apply_patches}

-- The dict under `onboarding`.
abbrev onboarding : Fields → Fields
onboarding prof = dict_or_empty (get "onboarding" prof)

abbrev preferences : Fields → Fields
preferences prof = dict_or_empty (get "preferences" prof)

-- A patch of the onboarding sets the keys it has.
onboarding_set :
    (k : String) (v : Json) (new prof p : Fields)
    → Distinct p
    → Distinct new
    → get "onboarding" p ≡ some (obj new)
    → get k new ≡ some v
    → ((old : Option Json) → merged (some v) old ≡ some v)
    → get k (onboarding (deep_merge prof p)) ≡ some v
onboarding_set k v new prof p h hn e ek plain =
    elim (Option-cases (dict_of (get "onboarding" prof))) [
      | inl none_there ↦ rw (get-deep_merge "onboarding" prof p h, e, merged, none_there) ek
      | inr (b, there) ↦
          rw (get-deep_merge "onboarding" prof p h, e, merged, there, get-deep_merge k b new hn, ek)
            (plain (get k b))
    ]

-- What a patch of the profile does not name stays.
pub kept :
    (k : String) (prof p : Fields)
    → Distinct p
    → get k p ≡ none
    → get k (deep_merge prof p) ≡ get k prof
kept k prof p h e = rw (get-deep_merge k prof p h, e) refl

-- After the answer to a stage, the stage that follows.
abbrev pub next_stage : String → String → String
next_stage stage normalized =
    if finishes normalized
    then "done"
    else if stage == "name"
    then "verbosity"
    else if stage == "verbosity"
    then "density"
    else if stage == "density"
    then "confirm"
    else "done"

-- The onboarding of the profile stands at a stage, and is completed or not.
abbrev pub Stands : String → Bool → Fields → Type 0
Stands stage completed prof =
    (get "stage" (onboarding prof) ≡ some (str stage))
    × (get "completed" (onboarding prof) ≡ some (bool completed))

pub Stands-profile :
    (stage : String) (completed : Bool) (awaiting : Json) (prof p : Fields)
    → Distinct p
    → get "onboarding" p ≡ some (obj (onboarding_fields completed stage awaiting))
    → Stands stage completed (deep_merge prof p)
unfolding get
Stands-profile stage completed awaiting prof p h e = (
  onboarding_set "stage" (str stage) (onboarding_fields completed stage awaiting) prof p h
      (refl, (refl, (refl, tt))) e refl (λ _. refl),
  onboarding_set "completed" (bool completed) (onboarding_fields completed stage awaiting) prof p h
      (refl, (refl, (refl, tt))) e refl (λ _. refl),
)

-- A turn that patches leaves the onboarding at this stage.
abbrev Leads : String → Bool → Fields → Turn → Type 0
Leads stage completed prof (patch ps) = Stands stage completed (apply_patches ps prof)
Leads stage completed prof _ = Unit

complete-Leads :
    (prof : Fields)
    → Leads "done" true prof
        (patch (profile_patch (onboarding_patch true "done" null) "Complete onboarding" ∷ []))
unfolding apply_patches upserted get
complete-Leads prof =
    Stands-profile "done" true null prof (onboarding_patch true "done" null) (refl, tt) refl

name-Leads :
    (text normalized : String) (prof : Fields)
    → Leads "verbosity" false prof (name_turn text normalized)
unfolding apply_patches upserted name_turn get
name-Leads text normalized prof = elim (Bool-cases (greets text || is_filler normalized)) [
  | inl e ↦ rw (e, Leads) tt
  | inr e ↦ rw e (
      Stands-profile "verbosity" false (str "verbosity") prof
        (dict (
          ("preferred_name", str (strip text))
          ∷ ("onboarding", obj (onboarding_fields false "verbosity" (str "verbosity")))
          ∷ []))
        (refl, (refl, tt)) refl)
]

verbosity-Leads :
    (normalized : String) (prof : Fields) → Leads "density" false prof (verbosity_turn normalized)
unfolding apply_patches upserted verbosity_turn get
verbosity-Leads normalized prof = elim (Option-cases (verbosity_of normalized)) [
  | inl e ↦ rw (e, Leads) tt
  | inr (v, e) ↦
      rw (e, Leads)
        (Stands-profile "density" false (str "visual_density")
          (put "preferences"
            (obj (deep_merge (preferences prof) (dict (("verbosity", str v) ∷ [])))) prof)
          (onboarding_patch false "density" (str "visual_density")) (refl, tt) refl)
]

density-Leads :
    (normalized : String) (prof : Fields) → Leads "confirm" false prof (density_turn normalized)
unfolding apply_patches upserted density_turn get
density-Leads normalized prof = elim (Option-cases (density_of normalized)) [
  | inl e ↦ rw (e, Leads) tt
  | inr (d, e) ↦
      rw (e, Leads)
        (Stands-profile "confirm" false (str "confirm")
          (put "preferences"
            (obj (deep_merge (preferences prof) (dict (("visual_density", str d) ∷ [])))) prof)
          (onboarding_patch false "confirm" (str "confirm")) (refl, tt) refl)
]

confirm-Leads : (prof : Fields) → Leads "done" true prof (confirm_turn prof)
unfolding confirm_turn
confirm-Leads prof = elim (Bool-cases (has_name prof && has_prefs prof)) [
  | inl e ↦ rw e (complete-Leads prof)
  | inr e ↦ rw (e, Leads) tt
]

branch-Leads :
    (f n v d : Bool) (text : String) (prof : Fields)
    → let next : String =
        if f
        then "done"
        else if n
        then "verbosity"
        else if v
        then "density"
        else if d
        then "confirm"
        else "done" in
      Leads next (next == "done") prof (
        if f
        then patch (profile_patch (onboarding_patch true "done" null) "Complete onboarding" ∷ [])
        else if n
        then name_turn text (norm text)
        else if v
        then verbosity_turn (norm text)
        else if d
        then density_turn (norm text)
        else confirm_turn prof)
branch-Leads true n v d text prof = complete-Leads prof
branch-Leads false true v d text prof = name-Leads text (norm text) prof
branch-Leads false false true d text prof = verbosity-Leads (norm text) prof
branch-Leads false false false true text prof = density-Leads (norm text) prof
branch-Leads false false false false text prof = confirm-Leads prof

stage-Leads :
    (stage text : String) (prof : Fields)
    → Leads
        (next_stage stage (norm text))
        (next_stage stage (norm text) == "done")
        prof
        (stage_turn stage text prof)
unfolding stage_turn
stage-Leads stage text prof =
    branch-Leads (finishes (norm text)) (stage == "name") (stage == "verbosity")
      (stage == "density") text prof

-- `bool(onboarding.get("completed"))`
abbrev pub is_completed : Fields → Bool
is_completed prof = has_truthy (get "completed" (onboarding prof))

abbrev pub stage_in : (Json → String) → Fields → String
stage_in py_str prof = stage_text py_str (get "stage" (onboarding prof))

turn_of-Leads :
    (py_str : Json → String) (raw : String) (prof : Fields)
    → let next = next_stage (stage_in py_str prof) (norm (strip raw)) in
      Leads next (next == "done") prof (turn_of py_str raw prof)
unfolding turn_of
turn_of-Leads py_str raw prof = elim (Bool-cases (is_completed prof)) [
  | inl c ↦ rw (c, Leads) tt
  | inr c ↦
      rw (c, Leads)
        (elim (Bool-cases (strip raw == "")) [
          | inl b ↦ rw (b, Leads) tt
          | inr b ↦ rw (b, Leads) (stage-Leads (stage_in py_str prof) (strip raw) prof)
        ])
]

-- When a turn patches the profile, the onboarding then stands at the stage that follows the one it
-- stood at, or at `done` if the answer asks to finish; it is completed exactly at `done`.
pub turn_advances :
    (py_str : Json → String) (raw : String) (prof : Fields) (ps : List Patch)
    → turn_of py_str raw prof ≡ patch ps
    → let next = next_stage (stage_in py_str prof) (norm (strip raw)) in
      (get "stage" (dict_or_empty (get "onboarding" (apply_patches ps prof))) ≡ some (str next))
      × (get "completed" (dict_or_empty (get "onboarding" (apply_patches ps prof)))
          ≡ some (bool (next == "done")))
turn_advances py_str raw prof ps e =
    let next = next_stage (stage_in py_str prof) (norm (strip raw)) in
    subst (λ t. Leads next (next == "done") prof t) e (turn_of-Leads py_str raw prof)
