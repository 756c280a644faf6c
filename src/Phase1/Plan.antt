-- ===== src/Phase1/Plan.antt =====
-- phase1/planner.py: `_plan_with_llm` and `plan`. The requests that were made of the inference
-- service are a list, the newest first, and an answer depends on all of them.
use Prim.Native.String
use unison_orchestrator.Prelude.{
  ℕ, String, Bool, not, Option, none, some, List, ◌∷◌, if◌then◌else◌, ◌==◌, Result, ok, err,
}
use unison_orchestrator.Prelude.Json.{Json, float, Fields}
use unison_orchestrator.Phase1.Memory.{Reply}
use unison_orchestrator.Phase1.Stub.{
  PlannerError, value_error, runtime_error, other_error, OnboardingState, checked, create_intent,
  onboarding_state, validated,
}
use unison_orchestrator.Phase1.StubPlan.{create_plan}
use unison_orchestrator.Phase1.Model.{
  PlannerConfig, planner_mode, planner_fallback, planner_provider, planner_model_of,
  extract_json_object, plan_directives, system_message, user_message, retry_system, retry_user,
  plan_request, answer_text,
}

-- What is used of the libraries, and of the schemas, which give what their validation raises.
pub record PlannerPython : Type 0 where
  pub shown : Json → String
  pub dumps : Json → String
  pub loads : String → Result PlannerError Json
  pub same : Option Json → Option Json → Bool
  pub hostname : String → String
  -- `compile_injected_system_prompt`, of a person and a session
  pub injected : Option String → String → String
  pub check_intent : Fields → Option PlannerError
  pub check_plan : Fields → Option PlannerError

-- The ids that `uuid4` makes: of the intent, a plan without a model, its call and its memory
-- operations, and a call that is added to the first and to the second answer of a model.
pub record PlannerIds : Type 0 where
  pub intent_id : String
  pub plan_id : String
  pub call_id : String
  pub memory_id : ℕ → String
  pub first_id : String
  pub second_id : String

-- What a call gives or raises, and the requests made so far.
abbrev pub Asked : Type 0 → Type 0
Asked A = Result PlannerError A × List Fields

module _ (python : PlannerPython) (domains : String) (config : PlannerConfig) (ids : PlannerIds)
    (planner_model : String) (answer : List Fields → Reply) where
  -- `clients.inference.post`, and the text of its answer.
  unfoldable pub ask : Fields → List Fields → Asked String
  ask request asked = (answer_text python.shown (answer (request ∷ asked)), request ∷ asked)

  -- `_parse_validate`
  unfoldable pub parse_validate :
      String → Fields → Fields → String → String → Result PlannerError Fields
  unfolding validated extract_json_object
  parse_validate call_id directives intent raw_input raw =
      elim (extract_json_object python.loads raw) [
        | err e ↦ err e
        | ok parsed ↦
            validated python.hostname domains python.same python.check_plan call_id
              (String.◌++◌ (planner_provider config) (String.◌++◌ ":" (planner_model_of config)))
              directives intent raw_input parsed
      ]

  -- The plan of an answer that counts.
  unfoldable pub parse_answer : String → Fields → Fields → String → Asked String → Asked Fields
  unfolding parse_validate
  parse_answer call_id directives intent raw_input (ok raw, asked) =
      (parse_validate call_id directives intent raw_input raw, asked)
  parse_answer call_id directives intent raw_input (err e, asked) = (err e, asked)

  module _ (raw_input : String) (profile : Option Fields) (person_id : Option String)
      (session_id : String) (intent directives : Fields) (max_tokens temperature : Json) where
    abbrev pub system : String
    system = system_message (python.injected person_id session_id)

    abbrev pub user : String
    user = user_message python.dumps intent profile directives

    -- The request that shows the model its text and the complaint about it.
    abbrev pub retry_request : String → String → Fields
    retry_request complaint raw =
        plan_request config "phase1.planner.plan.retry" person_id session_id (retry_system system)
          (retry_user user complaint raw) max_tokens (float "0.0")

    -- A plan, or one retry where the first text raised `ValueError`.
    unfoldable pub or_retry : String → Result PlannerError Fields → List Fields → Asked Fields
    unfolding parse_answer ask
    or_retry raw (ok plan) asked = (ok plan, asked)
    or_retry raw (err (value_error complaint)) asked =
        parse_answer ids.second_id directives intent raw_input
          (ask (retry_request complaint raw) asked)
    or_retry raw (err e) asked = (err e, asked)

    unfoldable pub with_retry : Asked String → Asked Fields
    unfolding or_retry parse_validate
    with_retry (ok raw, asked) =
        or_retry raw (parse_validate ids.first_id directives intent raw_input raw) asked
    with_retry (err e, asked) = (err e, asked)

    unfoldable pub ask_plan : List Fields → Asked Fields
    unfolding with_retry ask
    ask_plan asked = with_retry (
        ask
          (plan_request config "phase1.planner.plan" person_id session_id system user max_tokens
            temperature)
          asked)

  -- `_plan_with_llm`, given the number of tokens and the temperature, which may raise
  unfoldable pub with_settings :
      String
      → Option Fields
      → Option String
      → String
      → Fields
      → Fields
      → Result PlannerError Json
      → Result PlannerError Json
      → List Fields
      → Asked Fields
  unfolding ask_plan
  with_settings raw_input profile person_id session_id intent directives (ok n) (ok t) asked =
      ask_plan raw_input profile person_id session_id intent directives n t asked
  with_settings raw_input profile person_id session_id intent directives (ok n) (err e) asked =
      (err e, asked)
  with_settings raw_input profile person_id session_id intent directives (err e) t asked =
      (err e, asked)

  -- `_plan_with_llm`, given the directives, which may raise
  unfoldable pub with_directives :
      String
      → Option Fields
      → Option String
      → String
      → Fields
      → Option Fields
      → List Fields
      → Asked Fields
  unfolding with_settings
  with_directives raw_input profile person_id session_id intent (some d) asked =
      with_settings raw_input profile person_id session_id intent d config.max_tokens
        config.temperature asked
  with_directives raw_input profile person_id session_id intent none asked =
      (err other_error, asked)

  -- `_plan_with_llm`
  unfoldable pub plan_with_llm :
      String → String → Option Fields → Option String → String → Fields → List Fields → Asked Fields
  unfolding with_directives
  plan_with_llm raw_input modality profile person_id session_id intent asked =
      if not config.has_clients
      then (err (runtime_error "planner requires inference clients"), asked)
      else with_directives raw_input profile person_id session_id intent
          (plan_directives modality profile) asked

  -- A plan, validated; a lookup that raises gives none.
  abbrev pub stub_checked : Option Fields → Result PlannerError Fields
  stub_checked (some out) = checked python.check_plan out
  stub_checked none = err other_error

  -- `create_plan`
  unfoldable pub stub_plan : Fields → Option Fields → Result PlannerError Fields
  unfolding create_plan
  stub_plan intent profile = stub_checked (
      create_plan ids.memory_id python.shown python.hostname domains ids.plan_id ids.call_id
        planner_model intent profile)

  -- The plan of a model, or what is done where that raises.
  unfoldable pub or_fallback : Fields → Option Fields → Asked Fields → Asked Fields
  unfolding stub_plan planner_fallback
  or_fallback intent profile (ok plan, asked) = (ok plan, asked)
  or_fallback intent profile (err e, asked) =
      if planner_fallback config == "stub"
      then (stub_plan intent profile, asked)
      else (err e, asked)

  -- The plan of an intent, for an onboarding that is completed or not, in a mode.
  unfoldable pub by_state :
      String
      → String
      → Option Fields
      → Option String
      → String
      → Fields
      → Option OnboardingState
      → List Fields
      → Asked Fields
  unfolding stub_plan or_fallback plan_with_llm planner_mode
  by_state raw_input modality profile person_id session_id intent none asked =
      (err other_error, asked)
  by_state raw_input modality profile person_id session_id intent (some state) asked =
      if not state.completed
      then (stub_plan intent profile, asked)
      else if planner_mode config == "stub"
      then (stub_plan intent profile, asked)
      else or_fallback intent profile
          (plan_with_llm raw_input modality profile person_id session_id intent asked)

  -- The plan of an intent.
  unfoldable pub plan_intent :
      String → String → Option Fields → Option String → String → Fields → List Fields → Asked Fields
  unfolding by_state onboarding_state
  plan_intent raw_input modality profile person_id session_id intent asked =
      by_state raw_input modality profile person_id session_id intent (onboarding_state profile)
        asked

  -- The intent stands before the plan.
  abbrev pub with_intent : Fields → Asked Fields → Asked (Fields × Fields)
  with_intent intent (ok plan, asked) = (ok (intent, plan), asked)
  with_intent intent (err e, asked) = (err e, asked)

  -- The intent with its plan, or what validating the intent raised.
  unfoldable pub plan_checked :
      String
      → String
      → Option Fields
      → Option String
      → String
      → Result PlannerError Fields
      → List Fields
      → Asked (Fields × Fields)
  unfolding plan_intent
  plan_checked raw_input modality profile person_id session_id (ok intent) asked =
      with_intent intent (plan_intent raw_input modality profile person_id session_id intent asked)
  plan_checked raw_input modality profile person_id session_id (err e) asked = (err e, asked)

  -- `plan`
  unfoldable pub plan :
      String
      → String
      → Option Fields
      → Option String
      → String
      → List Fields
      → Asked (Fields × Fields)
  unfolding plan_checked create_intent
  plan raw_input modality profile person_id session_id asked =
      plan_checked raw_input modality profile person_id session_id
        (checked python.check_intent (create_intent ids.intent_id raw_input modality)) asked
