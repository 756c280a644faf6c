-- ===== src/Phase1/PlanSafety.antt =====
-- From `plan` to the actuation service: whoever made the plan.
use mathlib.Core.Path.{subst}
use unison_orchestrator.Prelude.{
  ℕ, String, false, not, Option, none, some, List, ◌≡◌, ap, arith, ◌==◌, Result, ok, err,
}
use unison_orchestrator.Prelude.Json.{items_or_empty, Json, str, Fields, get, dict_or_empty}
use unison_orchestrator.Phase1.Memory.{Reply}
use unison_orchestrator.Phase1.Planner.{is_allowlisted}
use unison_orchestrator.Phase1.Stub.{
  PlannerError, value_error, runtime_error, other_error, OnboardingState,
}
use unison_orchestrator.Phase1.Tools.{execute}
use unison_orchestrator.Phase1.Browse.{AllGuarded, calls, nth_call, nth_call-Guarded}
use unison_orchestrator.Phase1.Safety.{Plain, validated-AllGuarded, execute-Guarded}
use unison_orchestrator.Phase1.Model.{
  PlannerConfig, planner_mode, planner_fallback, plan_directives, extract_json_object,
}
use unison_orchestrator.Phase1.Plan.{
  PlannerPython, PlannerIds, Asked, parse_validate, parse_answer, or_retry, with_retry, ask_plan,
  with_settings, with_directives, by_state, stub_checked, plan_with_llm, stub_plan, or_fallback,
  plan_intent, with_intent, plan_checked, plan,
}
use unison_orchestrator.Phase1.Harmless.{
  Harmless, every-Harmless, checked-Harmless, then-Harmless, if-Harmless, Made, create_plan-Made,
}

module _ (python : PlannerPython) (domains : String) (config : PlannerConfig) (ids : PlannerIds)
    (planner_model : String) (answer : List Fields → Reply) where
  parse_validate-Harmless :
      (call_id : String) (directives intent : Fields) (raw_input raw : String)
      → Harmless python.hostname domains (
          parse_validate python domains config ids planner_model answer call_id directives intent
            raw_input raw)
  unfolding parse_validate
  parse_validate-Harmless call_id directives intent raw_input raw =
      then-Harmless python.hostname domains (extract_json_object python.loads raw) _ (λ parsed.
        every-Harmless python.hostname domains _ (λ out e.
          validated-AllGuarded python.hostname domains python.same python.check_plan call_id _
            directives intent raw_input parsed out e))

  parse_answer-Harmless :
      (call_id : String) (directives intent : Fields) (raw_input : String) (x : Asked String)
      → Harmless python.hostname domains (
          (parse_answer python domains config ids planner_model answer call_id directives intent
            raw_input x).0)
  unfolding parse_answer Harmless
  parse_answer-Harmless call_id directives intent raw_input (ok raw, asked) =
      parse_validate-Harmless call_id directives intent raw_input raw
  parse_answer-Harmless call_id directives intent raw_input (err e, asked) = tt

  module _ (raw_input : String) (profile : Option Fields) (person_id : Option String)
      (session_id : String) (intent directives : Fields) (max_tokens temperature : Json) where
    or_retry-Harmless :
        (raw : String) (r : Result PlannerError Fields) (asked : List Fields)
        → Harmless python.hostname domains r
        → Harmless python.hostname domains (
            (or_retry python domains config ids planner_model answer raw_input profile person_id
              session_id intent directives max_tokens temperature raw r asked).0)
    unfolding or_retry Harmless
    or_retry-Harmless raw (ok out) asked h = h
    or_retry-Harmless raw (err (value_error complaint)) asked h =
        parse_answer-Harmless ids.second_id directives intent raw_input _
    or_retry-Harmless raw (err (runtime_error e)) asked h = tt
    or_retry-Harmless raw (err other_error) asked h = tt

    with_retry-Harmless :
        (x : Asked String)
        → Harmless python.hostname domains (
            (with_retry python domains config ids planner_model answer raw_input profile person_id
              session_id intent directives max_tokens temperature x).0)
    unfolding with_retry Harmless
    with_retry-Harmless (ok raw, asked) =
        or_retry-Harmless raw _ asked
          (parse_validate-Harmless ids.first_id directives intent raw_input raw)
    with_retry-Harmless (err e, asked) = tt

  with_settings-Harmless :
      (raw_input : String) (profile : Option Fields) (person_id : Option String)
      (session_id : String) (intent directives : Fields) (n t : Result PlannerError Json)
      (asked : List Fields)
      → Harmless python.hostname domains (
          (with_settings python domains config ids planner_model answer raw_input profile person_id
            session_id intent directives n t asked).0)
  unfolding with_settings ask_plan Harmless
  with_settings-Harmless raw_input profile person_id session_id intent directives (ok n) (ok t)
        asked =
      with_retry-Harmless raw_input profile person_id session_id intent directives n t _
  with_settings-Harmless raw_input profile person_id session_id intent directives (ok n) (err e)
        asked =
      tt
  with_settings-Harmless raw_input profile person_id session_id intent directives (err e) t asked =
      tt

  with_directives-Harmless :
      (raw_input : String) (profile : Option Fields) (person_id : Option String)
      (session_id : String) (intent : Fields) (d : Option Fields) (asked : List Fields)
      → Harmless python.hostname domains (
          (with_directives python domains config ids planner_model answer raw_input profile
            person_id session_id intent d asked).0)
  unfolding with_directives Harmless
  with_directives-Harmless raw_input profile person_id session_id intent (some d) asked =
      with_settings-Harmless raw_input profile person_id session_id intent d config.max_tokens
        config.temperature asked
  with_directives-Harmless raw_input profile person_id session_id intent none asked = tt

  plan_with_llm-Harmless :
      (raw_input modality : String) (profile : Option Fields) (person_id : Option String)
      (session_id : String) (intent : Fields) (asked : List Fields)
      → Harmless python.hostname domains (
          (plan_with_llm python domains config ids planner_model answer raw_input modality profile
            person_id session_id intent asked).0)
  unfolding plan_with_llm Harmless
  plan_with_llm-Harmless raw_input modality profile person_id session_id intent asked =
      if-Harmless python.hostname domains (not config.has_clients) _ _ tt (
        with_directives-Harmless raw_input profile person_id session_id intent
          (plan_directives modality profile) asked)

  stub_checked-Harmless :
      (o : Option Fields)
      → Made python.hostname domains o
      → Harmless python.hostname domains
          (stub_checked python domains config ids planner_model answer o)
  unfolding Made Harmless
  stub_checked-Harmless (some out) h =
      checked-Harmless python.hostname domains python.check_plan out h
  stub_checked-Harmless none h = tt

  stub_plan-Harmless :
      (intent : Fields) (profile : Option Fields)
      → Harmless python.hostname domains
          (stub_plan python domains config ids planner_model answer intent profile)
  unfolding stub_plan
  stub_plan-Harmless intent profile = stub_checked-Harmless _ (
      create_plan-Made python.hostname domains ids.memory_id python.shown ids.plan_id ids.call_id
        planner_model intent profile)

  or_fallback-Harmless :
      (intent : Fields) (profile : Option Fields) (x : Asked Fields)
      → Harmless python.hostname domains (x.0)
      → Harmless python.hostname domains
          ((or_fallback python domains config ids planner_model answer intent profile x).0)
  unfolding or_fallback Harmless
  or_fallback-Harmless intent profile (ok out, asked) h = h
  or_fallback-Harmless intent profile (err e, asked) h =
      if-Harmless python.hostname domains (planner_fallback config == "stub") _ _
        (stub_plan-Harmless intent profile) tt

  by_state-Harmless :
      (raw_input modality : String) (profile : Option Fields) (person_id : Option String)
      (session_id : String) (intent : Fields) (o : Option OnboardingState) (asked : List Fields)
      → Harmless python.hostname domains (
          (by_state python domains config ids planner_model answer raw_input modality profile
            person_id session_id intent o asked).0)
  unfolding by_state Harmless
  by_state-Harmless raw_input modality profile person_id session_id intent none asked = tt
  by_state-Harmless raw_input modality profile person_id session_id intent (some state) asked =
      if-Harmless python.hostname domains (not state.completed) _ _
        (stub_plan-Harmless intent profile)
        (if-Harmless python.hostname domains (planner_mode config == "stub") _ _
          (stub_plan-Harmless intent profile)
          (or_fallback-Harmless intent profile _
            (plan_with_llm-Harmless raw_input modality profile person_id session_id intent asked)))

  plan_intent-Harmless :
      (raw_input modality : String) (profile : Option Fields) (person_id : Option String)
      (session_id : String) (intent : Fields) (asked : List Fields)
      → Harmless python.hostname domains (
          (plan_intent python domains config ids planner_model answer raw_input modality profile
            person_id session_id intent asked).0)
  unfolding plan_intent
  plan_intent-Harmless raw_input modality profile person_id session_id intent asked =
      by_state-Harmless raw_input modality profile person_id session_id intent _ asked

  -- The plan that stands beside an intent.
  with_intent-AllGuarded :
      (intent given out : Fields) (x : Asked Fields)
      → Harmless python.hostname domains (x.0)
      → (with_intent python domains config ids planner_model answer intent x).0 ≡ ok (given, out)
      → AllGuarded python.hostname domains (calls python.hostname domains out)
  unfolding Harmless
  with_intent-AllGuarded intent given out (ok made, asked) h e =
      subst (λ p. AllGuarded python.hostname domains (calls python.hostname domains p))
        (ap (λ r. elim r [ ok (i, p) ↦ p | err _ ↦ made ]) e) h
  with_intent-AllGuarded intent given out (err e, asked) h p = absurd (ground (arith, p))

  checked-AllGuarded :
      (raw_input modality : String) (profile : Option Fields) (person_id : Option String)
      (session_id : String) (r : Result PlannerError Fields) (asked : List Fields)
      (given out : Fields)
      → (plan_checked python domains config ids planner_model answer raw_input modality profile
          person_id session_id r asked).0
        ≡ ok (given, out)
      → AllGuarded python.hostname domains (calls python.hostname domains out)
  unfolding plan_checked
  checked-AllGuarded raw_input modality profile person_id session_id (ok intent) asked given out e =
      with_intent-AllGuarded intent given out _
        (plan_intent-Harmless raw_input modality profile person_id session_id intent asked) e
  checked-AllGuarded raw_input modality profile person_id session_id (err x) asked given out e =
      absurd (ground (arith, e))

  -- Whoever makes the plan, a model or the planner itself, and whatever the model answers:
  -- executing any call of a plan that `plan` returns, to a URL off the allowlist, leaves the
  -- actuation service as it was. Python's `str` gives the name of the browsing tool for that text
  -- only.
  pub plan-execute :
      {S : Type 0}
      → (post : S → Fields → Reply × S) (raw_input modality : String) (profile : Option Fields)
        (person_id : Option String) (session_id : String) (asked : List Fields) (given out : Fields)
        (n : ℕ) (tc : Fields) (url : String) (person trace_id session : Option String)
        (service : Option S)
      → Plain python.shown python.dumps post
      → (plan python domains config ids planner_model answer raw_input modality profile person_id
          session_id asked).0
        ≡ ok (given, out)
      → nth_call n (items_or_empty (get "tool_calls" out)) ≡ some tc
      → get "url" (dict_or_empty (get "args" tc)) ≡ some (str url)
      → is_allowlisted python.hostname domains url ≡ false
      → (execute python.shown python.dumps post tc person trace_id session service).1 ≡ service
  unfolding plan calls
  plan-execute post raw_input modality profile person_id session_id asked given out n tc url person
        trace_id session service plain e at u h =
      execute-Guarded python.shown python.dumps post python.hostname domains url tc person trace_id
        session service plain
        (nth_call-Guarded python.hostname domains n (calls python.hostname domains out) tc
          (checked-AllGuarded raw_input modality profile person_id session_id _ asked given out e)
          at)
        u h
