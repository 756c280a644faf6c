-- ===== src/Phase1/StubPlan.antt =====
-- phase1/planner.py: `create_plan`, the plan made without a model, before its validation. Ids are
-- arguments; `mem n` is the id of the n-th memory operation. Python's `str` of a value that is no
-- text is an argument too.
use Prim.Native.String
use unison_orchestrator.Prelude.{
  ℕ, String, true, false, Option, none, some, List, [], ◌∷◌, if◌then◌else◌, ◌==◌, elem, strip,
}
use unison_orchestrator.Prelude.Json.{
  Json, null, bool, str, arr, obj, Items, Fields, get, dict, is_text, to_items,
}
use unison_orchestrator.Phase1.Memory.{text_or_empty, or_null}
use unison_orchestrator.Phase1.Planner.{browse_call, extract_url, authorization_of}
use unison_orchestrator.Phase1.Stub.{
  OnboardingState, onboarding_state, parse_verbosity, parse_visual_density, parse_skip, plan_step,
  default_renderer_directives,
}

-- Steps and memory operations of a turn.
pub record Turned : Type 0 where
  pub steps : List Json
  pub memory_ops : List Json

-- `_memory_op`, always an upsert
abbrev pub memory_op : String → String → Fields → Json
memory_op op_id target payload = obj (
    dict (
      ("op_id", str op_id)
      ∷ ("op", str "upsert")
      ∷ ("target", str target)
      ∷ ("payload", obj payload)
      ∷ ("expected_effect", str "write")
      ∷ []))

abbrev waiting_at : String → Json
waiting_at stage = obj (dict (("stage", str stage) ∷ ("awaiting", str stage) ∷ []))

abbrev after_first : Items
after_first = to_items (str "step_1" ∷ [])

abbrev collect : String → String
collect stage = String.◌++◌ "Collect onboarding." stage

abbrev done_fields : Json
done_fields =
    obj (dict (("completed", bool true) ∷ ("stage", str "done") ∷ ("awaiting", null) ∷ []))

module _ (mem : ℕ → String) where
  -- `ask`
  unfoldable pub ask_stage : String → Turned
  ask_stage stage = record {
    steps = plan_step "step_1" "clarify" (collect stage) (to_items []) ∷ [];
    memory_ops =
        memory_op (mem 0) "profile" (
          dict (
            (
              "onboarding",
              obj (
                  dict (
                    ("completed", bool false)
                    ∷ ("stage", str stage)
                    ∷ ("awaiting", str stage)
                    ∷ [])),
            )
            ∷ []))
        ∷ [];
  }

  unfoldable pub answer_name : String → Turned
  unfolding ask_stage
  answer_name text = if strip text == "" then ask_stage "name" else record {
    steps =
        plan_step "step_1" "memory" "Persist preferred name" (to_items [])
        ∷ plan_step "step_2" "clarify" (collect "verbosity") after_first
        ∷ [];
    memory_ops =
        memory_op (mem 0) "profile" (
          dict (("preferred_name", str (strip text)) ∷ ("onboarding", waiting_at "verbosity") ∷ []))
        ∷ [];
  }

  -- A preference that was understood, and the stage that follows.
  abbrev answer_preference : String → String → String → String → Turned
  answer_preference key value summary next = record {
    steps =
        plan_step "step_1" "memory" summary (to_items [])
        ∷ plan_step "step_2" "clarify" (collect next) after_first
        ∷ [];
    memory_ops =
        memory_op (mem 0) "preferences" (dict ((key, str value) ∷ []))
        ∷ memory_op (mem 1) "profile" (dict (("onboarding", waiting_at next) ∷ []))
        ∷ [];
  }

  abbrev answer_goals : String → Turned
  answer_goals text = record {
    steps =
        plan_step "step_1" "memory"
          (if parse_skip text
            then "Mark onboarding complete"
            else "Persist goals and mark onboarding complete")
          (to_items [])
        ∷ plan_step "step_2" "respond" "Confirm onboarding completion" after_first
        ∷ [];
    memory_ops =
        memory_op (mem 0) "profile" (
          dict (
            ("goals", str (if parse_skip text then "" else text))
            ∷ ("onboarding", done_fields)
            ∷ []))
        ∷ [];
  }

  -- The turn as the answer to the stage that is awaited.
  unfoldable pub answer_stage : String → String → Turned
  unfolding answer_name ask_stage
  answer_stage awaiting text =
      if awaiting == "name"
      then answer_name text
      else if awaiting == "verbosity"
      then elim (parse_verbosity text) [
        | some v ↦ answer_preference "verbosity" v "Persist verbosity preference" "visual_density"
        | none ↦ ask_stage "verbosity"
      ]
      else if awaiting == "visual_density"
      then elim (parse_visual_density text) [
        | some d ↦ answer_preference "visual_density" d "Persist visual density preference" "goals"
        | none ↦ ask_stage "visual_density"
      ]
      else answer_goals text

  unfoldable pub onboarding_turn : OnboardingState → String → Turned
  unfolding answer_stage ask_stage
  onboarding_turn state text = elim (state.awaiting) [
    | some awaiting ↦ answer_stage awaiting text
    | none ↦ ask_stage (
        if elem (state.stage) ("name" ∷ "verbosity" ∷ "visual_density" ∷ "goals" ∷ [])
        then state.stage
        else "name")
  ]

  module _ (py_str : Json → String) (hostname : String → String)
      (domains plan_id call_id planner_model : String) where
    abbrev pub directives : Fields → Option Fields → Option Fields
    directives intent profile =
        default_renderer_directives
          (if is_text "voice" (get "modality" intent) then "voice" else "text") profile none none

    -- The plan while the onboarding is open.
    unfoldable pub onboarding_plan : OnboardingState → Fields → Fields → Fields
    unfolding onboarding_turn
    onboarding_plan state d intent =
        let turn = onboarding_turn state (text_or_empty py_str (get "normalized_text" intent)) in
        dict (
          ("plan_id", str plan_id)
          ∷ ("intent_id", or_null (get "intent_id" intent))
          ∷ ("planner_model", str planner_model)
          ∷ ("policy_summary", str "onboarding")
          ∷ ("steps", arr (to_items (turn.steps)))
          ∷ ("tool_calls", arr (to_items []))
          ∷ ("memory_ops", arr (to_items (turn.memory_ops)))
          ∷ ("renderer_directives", obj d)
          ∷ [])

    -- The plan of an onboarded person: one call for the URL, if the text has one.
    unfoldable pub browse_plan : Option String → Fields → Fields → Fields
    browse_plan (some url) d intent = dict (
        ("plan_id", str plan_id)
        ∷ ("intent_id", or_null (get "intent_id" intent))
        ∷ ("planner_model", str planner_model)
        ∷ ("policy_summary", str "stub")
        ∷ (
          "steps",
          arr (
              to_items (
                plan_step "step_1" "tool" "Open the requested URL in a bounded computer session"
                  (to_items [])
                ∷ plan_step "step_2" "respond" "Confirm the result and offer next steps" after_first
                ∷ [])),
        )
        ∷ ("tool_calls", arr (to_items (obj (browse_call hostname domains call_id url) ∷ [])))
        ∷ ("memory_ops", arr (to_items []))
        ∷ ("renderer_directives", obj d)
        ∷ (
          "requires_confirmation",
          bool (is_text "confirm" (get "policy_decision" (authorization_of hostname domains url))),
        )
        ∷ ("confirmation_prompt", str "I can do that. Do you want me to proceed?")
        ∷ [])
    browse_plan none d intent = dict (
        ("plan_id", str plan_id)
        ∷ ("intent_id", or_null (get "intent_id" intent))
        ∷ ("planner_model", str planner_model)
        ∷ ("policy_summary", str "stub")
        ∷ (
          "steps",
          arr (to_items (plan_step "step_1" "respond" "Answer the user" (to_items []) ∷ [])),
        )
        ∷ ("tool_calls", arr (to_items []))
        ∷ ("memory_ops", arr (to_items []))
        ∷ ("renderer_directives", obj d)
        ∷ ("requires_confirmation", bool false)
        ∷ [])

    -- The plan of a state, with the directives.
    unfoldable pub plan_of : OnboardingState → Fields → Fields → Fields
    unfolding onboarding_plan browse_plan
    plan_of state d intent =
        if state.completed
        then browse_plan (extract_url (text_or_empty py_str (get "normalized_text" intent))) d
            intent
        else onboarding_plan state d intent

    abbrev pub plan_with : Option OnboardingState → Option Fields → Fields → Option Fields
    plan_with (some state) (some d) intent = some (plan_of state d intent)
    plan_with (some state) none intent = none
    plan_with none d intent = none

    -- `Phase1Planner.create_plan`, nothing where it raises
    unfoldable pub create_plan : Fields → Option Fields → Option Fields
    unfolding plan_of
    create_plan intent profile =
        plan_with (onboarding_state profile) (directives intent profile) intent
