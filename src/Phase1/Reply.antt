-- ===== src/Phase1/Reply.antt =====
-- phase1/onboarding.py: intent and plan of a turn, and what its memory operations leave in a
-- profile. Ids are arguments: `mem n` is the id of the n-th operation. Timestamps are left out.
use unison_orchestrator.Prelude.{
  text_length, ℕ, zero, suc, ◌-◌, String, true, false, Option, none, some, List, [], ◌∷◌,
  if◌then◌else◌, map, ◌==◌, strip,
}
use unison_orchestrator.Prelude.Json.{Json, bool, float, str, arr, obj, Fields, dict, to_items}
use unison_orchestrator.Phase1.Memory.{upserted}
use unison_orchestrator.Phase1.Onboarding.{pass, ask, patch, Patch, turn_of, norm}

text_drop : ℕ → String → String
text_drop zero s = s
text_drop (suc n) String.[] = String.[]
text_drop (suc n) (String.◌∷◌ c s) = text_drop n s

-- `s[-8:]`
unfoldable pub last_eight : String → String
unfolding text_length text_drop
last_eight s = text_drop (text_length s - 8) s

abbrev pub step : String → String → String → Json
step step_id kind summary = obj (
    dict (
      ("step_id", str step_id)
      ∷ ("type", str kind)
      ∷ ("summary", str summary)
      ∷ ("depends_on", arr (to_items []))
      ∷ []))

abbrev pub memory_op : String → Patch → Fields
memory_op op_id p = dict (
    ("op_id", str op_id)
    ∷ ("op", str "upsert")
    ∷ ("target", str p.target)
    ∷ ("payload", obj p.payload)
    ∷ ("expected_effect", str "write")
    ∷ [])

unfoldable pub memory_ops : (ℕ → String) → ℕ → List Patch → List Fields
memory_ops mem n [] = []
memory_ops mem n (p ∷ ps) = memory_op (mem n) p ∷ memory_ops mem (suc n) ps

unfoldable pub memory_steps : (ℕ → String) → ℕ → List Patch → List Json
unfolding last_eight
memory_steps mem n [] = step "respond" "respond" "Respond to user" ∷ []
memory_steps mem n (p ∷ ps) =
    step (last_eight (mem n)) "memory" p.summary ∷ memory_steps mem (suc n) ps

pub record OnboardingPlan : Type 0 where
  pub intent : Fields
  pub plan : Fields

abbrev renderer_directives : String → Json
renderer_directives modality = obj (
    dict (
      ("verbosity", str "normal")
      ∷ ("visual_density", str "balanced")
      ∷ ("presence", str "neutral")
      ∷ ("modality", str (if modality == "voice" then "voice" else "renderer"))
      ∷ []))

module _ (intent_id plan_id : String) (mem : ℕ → String) where
  abbrev clarification :
      String → String → String → String → String → String → String → OnboardingPlan
  clarification modality raw normalized question step_id summary policy = record {
    intent = dict (
        ("intent_id", str intent_id)
        ∷ ("modality", str modality)
        ∷ ("raw_input", str raw)
        ∷ ("normalized_text", str normalized)
        ∷ ("category", str "clarification")
        ∷ ("confidence", float "0.8")
        ∷ ("requires_clarification", bool true)
        ∷ ("clarification_questions", arr (to_items (str question ∷ [])))
        ∷ []);
    plan = dict (
        ("plan_id", str plan_id)
        ∷ ("intent_id", str intent_id)
        ∷ ("planner_model", str "deterministic.onboarding")
        ∷ ("policy_summary", str policy)
        ∷ ("steps", arr (to_items (step step_id "clarify" summary ∷ [])))
        ∷ ("tool_calls", arr (to_items []))
        ∷ ("memory_ops", arr (to_items []))
        ∷ ("renderer_directives", renderer_directives modality)
        ∷ []);
  }

  abbrev update : String → String → String → List Patch → OnboardingPlan
  update modality raw normalized ps = record {
    intent = dict (
        ("intent_id", str intent_id)
        ∷ ("modality", str modality)
        ∷ ("raw_input", str raw)
        ∷ ("normalized_text", str normalized)
        ∷ ("category", str "memory")
        ∷ ("confidence", float "0.95")
        ∷ ("entities", arr (to_items []))
        ∷ ("requires_clarification", bool false)
        ∷ ("clarification_questions", arr (to_items []))
        ∷ []);
    plan = dict (
        ("plan_id", str plan_id)
        ∷ ("intent_id", str intent_id)
        ∷ ("planner_model", str "deterministic.onboarding")
        ∷ ("policy_summary", str "Apply onboarding memory updates.")
        ∷ ("steps", arr (to_items (memory_steps mem 0 ps)))
        ∷ ("tool_calls", arr (to_items []))
        ∷ ("memory_ops", arr (to_items (map (λ o. obj o) (memory_ops mem 0 ps))))
        ∷ ("renderer_directives", renderer_directives modality)
        ∷ ("requires_confirmation", bool false)
        ∷ []);
  }

  -- `maybe_plan_onboarding`. No profile is an empty one.
  unfoldable pub maybe_plan_onboarding :
      (Json → String) → String → String → Fields → Option OnboardingPlan
  unfolding turn_of memory_steps memory_ops
  maybe_plan_onboarding py_str raw modality prof = elim (turn_of py_str raw prof) [
    | pass ↦ none
    | ask question step_id summary policy ↦
        some (clarification modality raw (norm (strip raw)) question step_id summary policy)
    | patch ps ↦ some (update modality raw (norm (strip raw)) ps)
  ]

-- The profile after the patches, each of them written as an upsert.
unfoldable pub apply_patches : List Patch → Fields → Fields
unfolding upserted
apply_patches [] prof = prof
apply_patches (p ∷ ps) prof = apply_patches ps (upserted (p.target == "profile") prof p.payload)
