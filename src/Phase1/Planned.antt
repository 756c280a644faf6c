-- ===== src/Phase1/Planned.antt =====
-- phase1/planner.py, `plan`: a plan is made whatever the model answers.
use unison_orchestrator.Prelude.{
  String, Bool, true, false, not, if◌then◌else◌, Option, Option-cases, inl, inr, none, some, List,
  ◌≡◌, refl, arith, ◌+◌, ◌≤◌, length, ◌==◌, Result, ok, err,
}
use unison_orchestrator.Prelude.Json.{Fields}
use unison_orchestrator.Phase1.Memory.{Reply}
use unison_orchestrator.Phase1.Stub.{
  PlannerError, checked, create_intent, OnboardingState, onboarding_state,
}
use unison_orchestrator.Phase1.StubPlan.{create_plan}
use unison_orchestrator.Phase1.Model.{PlannerConfig, planner_mode, planner_fallback}
use unison_orchestrator.Phase1.Plan.{
  by_state, PlannerPython, PlannerIds, Asked, plan_with_llm, stub_plan, or_fallback, plan_intent,
  with_intent, plan_checked, plan,
}
use unison_orchestrator.Phase1.Asked.{length-plan_intent}

checked_ok :
    (check : Fields → Option PlannerError) (out : Fields)
    → check out ≡ none
    → checked check out ≡ ok out
checked_ok check out h = rw (h, checked) refl

-- The two branches with the stub, and the third.
branch_returns :
    (completed is_stub : Bool) (x y : Asked Fields)
    → ((out : Fields) × (x.0 ≡ ok out))
    → ((out : Fields) × (y.0 ≡ ok out))
    → (out : Fields) × ((if not completed then x else if is_stub then x else y).0 ≡ ok out)
branch_returns false is_stub x y p q = p
branch_returns true true x y p q = p
branch_returns true false x y p q = q

module _ (python : PlannerPython) (domains : String) (config : PlannerConfig) (ids : PlannerIds)
    (planner_model : String) (answer : List Fields → Reply) where
  stub_plan_returns :
      (intent stub : Fields) (profile : Option Fields)
      → create_plan ids.memory_id python.shown python.hostname domains ids.plan_id ids.call_id
          planner_model intent profile
        ≡ some stub
      → python.check_plan stub ≡ none
      → stub_plan python domains config ids planner_model answer intent profile ≡ ok stub
  unfolding stub_plan
  stub_plan_returns intent stub profile made v = rw made (checked_ok python.check_plan stub v)

  or_fallback_returns :
      (intent stub : Fields) (profile : Option Fields) (x : Asked Fields)
      → (planner_fallback config == "stub") ≡ true
      → stub_plan python domains config ids planner_model answer intent profile ≡ ok stub
      → (out : Fields) × ((or_fallback python domains config ids planner_model answer intent profile
            x).0
          ≡ ok out)
  unfolding or_fallback
  or_fallback_returns intent stub profile (ok out, asked) f v = (out, refl)
  or_fallback_returns intent stub profile (err e, asked) f v = (stub, rw f v)

  by_state_returns :
      (raw_input modality : String) (profile : Option Fields) (person_id : Option String)
      (session_id : String) (intent stub : Fields) (state : OnboardingState) (asked : List Fields)
      → (planner_fallback config == "stub") ≡ true
      → stub_plan python domains config ids planner_model answer intent profile ≡ ok stub
      → (out : Fields) × ((by_state python domains config ids planner_model answer raw_input
            modality profile person_id session_id intent
            (some state)
            asked).0
          ≡ ok out)
  unfolding by_state
  by_state_returns raw_input modality profile person_id session_id intent stub state asked f v =
      branch_returns (state.completed) (planner_mode config == "stub")
        (stub_plan python domains config ids planner_model answer intent profile, asked)
        (or_fallback python domains config ids planner_model answer intent profile (
          plan_with_llm python domains config ids planner_model answer raw_input modality profile
            person_id session_id intent asked))
        (stub, v)
        (or_fallback_returns intent stub profile
          (plan_with_llm python domains config ids planner_model answer raw_input modality profile
            person_id session_id intent asked)
          f v)

  -- A plan was made from a state of the onboarding.
  create_plan-onboarding_state :
      (intent stub : Fields) (profile : Option Fields)
      → create_plan ids.memory_id python.shown python.hostname domains ids.plan_id ids.call_id
          planner_model intent profile
        ≡ some stub
      → (state : OnboardingState) × (onboarding_state profile ≡ some state)
  unfolding create_plan
  create_plan-onboarding_state intent stub profile made =
      elim (Option-cases (onboarding_state profile)) [
        | inl e ↦ absurd (ground (arith, made, e))
        | inr h ↦ h
      ]

  plan_intent_returns :
      (raw_input modality : String) (profile : Option Fields) (person_id : Option String)
      (session_id : String) (intent stub : Fields) (asked : List Fields)
      → (planner_fallback config == "stub") ≡ true
      → create_plan ids.memory_id python.shown python.hostname domains ids.plan_id ids.call_id
          planner_model intent profile
        ≡ some stub
      → python.check_plan stub ≡ none
      → (out : Fields) × ((plan_intent python domains config ids planner_model answer raw_input
            modality profile person_id session_id intent asked).0
          ≡ ok out)
  unfolding plan_intent
  plan_intent_returns raw_input modality profile person_id session_id intent stub asked f made v =
      let (state, e) = create_plan-onboarding_state intent stub profile made in
      rw e (
        by_state_returns raw_input modality profile person_id session_id intent stub state asked f
          (stub_plan_returns intent stub profile made v))

  with_intent_kept :
      (intent : Fields) (x : Asked Fields)
      → (with_intent python domains config ids planner_model answer intent x).1 ≡ x.1
  with_intent_kept intent (ok out, asked) = refl
  with_intent_kept intent (err e, asked) = refl

  with_intent_returns :
      (intent : Fields) (x : Asked Fields)
      → ((out : Fields) × (x.0 ≡ ok out))
      → (out : Fields) × ((with_intent python domains config ids planner_model answer intent x).0
          ≡ ok (intent, out))
  with_intent_returns intent (ok out, asked) h = (out, refl)
  with_intent_returns intent (err e, asked) h = absurd (ground (arith, h.1))

  -- What an accepted intent comes to.
  checked_returns :
      (raw_input modality : String) (profile : Option Fields) (person_id : Option String)
      (session_id : String) (intent stub : Fields) (r : Result PlannerError Fields)
      (asked : List Fields)
      → (planner_fallback config == "stub") ≡ true
      → create_plan ids.memory_id python.shown python.hostname domains ids.plan_id ids.call_id
          planner_model intent profile
        ≡ some stub
      → python.check_plan stub ≡ none
      → r ≡ ok intent
      → let after =
          plan_checked python domains config ids planner_model answer raw_input modality profile
            person_id session_id r asked in
        ((out : Fields) × (after.0 ≡ ok (intent, out))) × (length (after.1) ≤ 2 + length asked)
  unfolding plan_checked
  checked_returns raw_input modality profile person_id session_id intent stub r asked f made v e =
      rw e (
        with_intent_returns intent _ (
            plan_intent_returns raw_input modality profile person_id session_id intent stub asked f
              made v),
        rw (with_intent_kept intent) (
            omega (
              arith,
              length-plan_intent python domains config ids planner_model answer raw_input modality
                  profile person_id session_id intent asked,
            )),
      )

  -- Where the planner falls back to the stub, the plan made without a model can be made of this
  -- profile, and the schemas accept that plan and the intent: whatever the model answers, `plan`
  -- returns the intent with a plan, after at most two requests.
  pub plan_returns :
      (raw_input modality : String) (profile : Option Fields) (person_id : Option String)
      (session_id : String) (asked : List Fields) (stub : Fields)
      → let intent = create_intent ids.intent_id raw_input modality in
        (planner_fallback config == "stub") ≡ true
        → python.check_intent intent ≡ none
        → create_plan ids.memory_id python.shown python.hostname domains ids.plan_id ids.call_id
            planner_model intent profile
          ≡ some stub
        → python.check_plan stub ≡ none
        → let after =
            plan python domains config ids planner_model answer raw_input modality profile person_id
              session_id asked in
          ((out : Fields) × (after.0 ≡ ok (intent, out))) × (length (after.1) ≤ 2 + length asked)
  unfolding plan
  plan_returns raw_input modality profile person_id session_id asked stub f i made v =
      let intent = create_intent ids.intent_id raw_input modality in
      checked_returns raw_input modality profile person_id session_id intent stub
        (checked python.check_intent intent) asked f made v
        (checked_ok python.check_intent intent i)
