-- ===== src/Phase1/Asked.antt =====
-- phase1/planner.py, `plan`: how often the model is asked.
use unison_orchestrator.Prelude.{
  suc, String, Option, none, some, List, ◌≡◌, refl, arith, ◌≤◌, length, ◌==◌, Result, ok, err,
  Bool-cases, inl, inr,
}
use unison_orchestrator.Prelude.Json.{Json, Fields}
use unison_orchestrator.Phase1.Memory.{Reply}
use unison_orchestrator.Phase1.Stub.{
  PlannerError, value_error, runtime_error, other_error, OnboardingState,
}
use unison_orchestrator.Phase1.Model.{
  PlannerConfig, planner_mode, planner_fallback, plan_directives,
}
use unison_orchestrator.Phase1.Plan.{
  PlannerPython, PlannerIds, Asked, ask, parse_answer, or_retry, with_retry, ask_plan,
  with_settings, with_directives, by_state, plan_with_llm, or_fallback, plan_intent,
}

module _ (python : PlannerPython) (domains : String) (config : PlannerConfig) (ids : PlannerIds)
    (planner_model : String) (answer : List Fields → Reply) where
  parse_answer_kept :
      (call_id : String) (directives intent : Fields) (raw_input : String) (x : Asked String)
      → (parse_answer python domains config ids planner_model answer call_id directives intent
          raw_input x).1
        ≡ x.1
  unfolding parse_answer
  parse_answer_kept call_id directives intent raw_input (ok raw, asked) = refl
  parse_answer_kept call_id directives intent raw_input (err e, asked) = refl

  module _ (raw_input : String) (profile : Option Fields) (person_id : Option String)
      (session_id : String) (intent directives : Fields) (max_tokens temperature : Json) where
    length-or_retry :
        (raw : String) (r : Result PlannerError Fields) (asked : List Fields)
        → length (
            (or_retry python domains config ids planner_model answer raw_input profile person_id
              session_id intent directives max_tokens temperature raw r asked).1)
          ≤ suc (length asked)
    unfolding or_retry ask
    length-or_retry raw (ok out) asked = omega arith
    length-or_retry raw (err (value_error complaint)) asked =
        rw (parse_answer_kept ids.second_id directives intent raw_input (ask _ _ _ _ _ _ _ asked))
          (omega arith)
    length-or_retry raw (err (runtime_error e)) asked = omega arith
    length-or_retry raw (err other_error) asked = omega arith

    length-with_retry :
        (x : Asked String)
        → length (
            (with_retry python domains config ids planner_model answer raw_input profile person_id
              session_id intent directives max_tokens temperature x).1)
          ≤ suc (length (x.1))
    unfolding with_retry
    length-with_retry (ok raw, asked) = length-or_retry raw _ asked
    length-with_retry (err e, asked) = omega arith

    length-ask_plan :
        (asked : List Fields)
        → length (
            (ask_plan python domains config ids planner_model answer raw_input profile person_id
              session_id intent directives max_tokens temperature asked).1)
          ≤ suc (suc (length asked))
    unfolding ask_plan ask
    length-ask_plan asked =
        length-with_retry (ask python domains config ids planner_model answer _ asked)

  length-with_settings :
      (raw_input : String) (profile : Option Fields) (person_id : Option String)
      (session_id : String) (intent directives : Fields) (n t : Result PlannerError Json)
      (asked : List Fields)
      → length (
          (with_settings python domains config ids planner_model answer raw_input profile person_id
            session_id intent directives n t asked).1)
        ≤ suc (suc (length asked))
  unfolding with_settings
  length-with_settings raw_input profile person_id session_id intent directives (ok n) (ok t)
        asked =
      length-ask_plan raw_input profile person_id session_id intent directives n t asked
  length-with_settings raw_input profile person_id session_id intent directives (ok n) (err e)
        asked =
      omega arith
  length-with_settings raw_input profile person_id session_id intent directives (err e) t asked =
      omega arith

  length-with_directives :
      (raw_input : String) (profile : Option Fields) (person_id : Option String)
      (session_id : String) (intent : Fields) (d : Option Fields) (asked : List Fields)
      → length (
          (with_directives python domains config ids planner_model answer raw_input profile
            person_id session_id intent d asked).1)
        ≤ suc (suc (length asked))
  unfolding with_directives
  length-with_directives raw_input profile person_id session_id intent (some d) asked =
      length-with_settings raw_input profile person_id session_id intent d config.max_tokens
        config.temperature asked
  length-with_directives raw_input profile person_id session_id intent none asked = omega arith

  length-plan_with_llm :
      (raw_input modality : String) (profile : Option Fields) (person_id : Option String)
      (session_id : String) (intent : Fields) (asked : List Fields)
      → length (
          (plan_with_llm python domains config ids planner_model answer raw_input modality profile
            person_id session_id intent asked).1)
        ≤ suc (suc (length asked))
  unfolding plan_with_llm
  length-plan_with_llm raw_input modality profile person_id session_id intent asked =
      elim (Bool-cases (config.has_clients)) [
        | inl e ↦ simp e (
            length-with_directives raw_input profile person_id session_id intent
              (plan_directives modality profile) asked)
        | inr e ↦ simp e (omega arith)
      ]

  or_fallback_kept :
      (intent : Fields) (profile : Option Fields) (x : Asked Fields)
      → (or_fallback python domains config ids planner_model answer intent profile x).1 ≡ x.1
  unfolding or_fallback
  or_fallback_kept intent profile (ok out, asked) = refl
  or_fallback_kept intent profile (err e, asked) =
      elim (Bool-cases (planner_fallback config == "stub")) [
        | inl b ↦ rw b refl
        | inr b ↦ rw b refl
      ]

  length-by_state :
      (raw_input modality : String) (profile : Option Fields) (person_id : Option String)
      (session_id : String) (intent : Fields) (o : Option OnboardingState) (asked : List Fields)
      → length (
          (by_state python domains config ids planner_model answer raw_input modality profile
            person_id session_id intent o asked).1)
        ≤ suc (suc (length asked))
  unfolding by_state
  length-by_state raw_input modality profile person_id session_id intent none asked = omega arith
  length-by_state raw_input modality profile person_id session_id intent (some state) asked =
      elim (Bool-cases (state.completed)) [
        | inr o ↦ simp o (omega arith)
        | inl o ↦ elim (Bool-cases (planner_mode config == "stub")) [
          | inl m ↦ simp (o, m) (omega arith)
          | inr m ↦
              simp
                (
                  o,
                  m,
                  or_fallback_kept intent profile (
                      plan_with_llm python domains config ids planner_model answer raw_input
                        modality profile person_id session_id intent asked),
                )
                (length-plan_with_llm raw_input modality profile person_id session_id intent asked)
        ]
      ]

  pub length-plan_intent :
      (raw_input modality : String) (profile : Option Fields) (person_id : Option String)
      (session_id : String) (intent : Fields) (asked : List Fields)
      → length (
          (plan_intent python domains config ids planner_model answer raw_input modality profile
            person_id session_id intent asked).1)
        ≤ suc (suc (length asked))
  unfolding plan_intent
  length-plan_intent raw_input modality profile person_id session_id intent asked =
      length-by_state raw_input modality profile person_id session_id intent _ asked
