-- ===== src/Phase1/Harmless.antt =====
-- Plans whose calls are guarded: how they are put together, and those made without a model.
use unison_orchestrator.Prelude.{
  ℕ, String, Bool, true, false, Option, none, some, if◌then◌else◌, ◌≡◌, refl, Result, ok, err,
  Bool-cases, Option-cases, inl, inr,
}
use unison_orchestrator.Prelude.Json.{Json, Fields, get}
use unison_orchestrator.Phase1.Stub.{PlannerError, checked, OnboardingState}
use unison_orchestrator.Phase1.StubPlan.{
  plan_of, plan_with, create_plan, onboarding_plan, browse_plan,
}
use unison_orchestrator.Phase1.Browse.{AllGuarded, calls, browse_call-Guarded}
use unison_orchestrator.Phase1.Plan.{Asked}

module _ (hostname : String → String) (domains : String) where
  -- A plan, where there is one, has guarded calls alone.
  unfoldable pub Harmless : Result PlannerError Fields → Type 0
  Harmless (ok out) = AllGuarded hostname domains (calls hostname domains out)
  Harmless (err e) = Unit

  pub every-Harmless :
      (r : Result PlannerError Fields)
      → ((out : Fields) → r ≡ ok out → AllGuarded hostname domains (calls hostname domains out))
      → Harmless r
  unfolding Harmless
  every-Harmless (ok out) h = h out refl
  every-Harmless (err e) h = tt

  pub checked-Harmless :
      (check : Fields → Option PlannerError) (out : Fields)
      → AllGuarded hostname domains (calls hostname domains out)
      → Harmless (checked check out)
  unfolding Harmless
  checked-Harmless check out h = elim (Option-cases (check out)) [
    | inl e ↦ rw (e, checked) h
    | inr (x, e) ↦ rw (e, checked) tt
  ]

  pub then-Harmless :
      (r : Result PlannerError Fields) (f : Fields → Result PlannerError Fields)
      → ((x : Fields) → Harmless (f x))
      → Harmless (elim r [ err e ↦ err e | ok x ↦ f x ])
  unfolding Harmless
  then-Harmless (ok x) f h = h x
  then-Harmless (err e) f h = tt

  pub if-Harmless :
      (b : Bool) (x y : Asked Fields)
      → Harmless (x.0)
      → Harmless (y.0)
      → Harmless ((if b then x else y).0)
  if-Harmless true x y p q = p
  if-Harmless false x y p q = q

  -- What is made, if anything, has guarded calls alone.
  unfoldable pub Made : Option Fields → Type 0
  Made (some out) = AllGuarded hostname domains (calls hostname domains out)
  Made none = Unit

  module _ (mem : ℕ → String) (py_str : Json → String)
      (plan_id call_id planner_model : String) where
    browse_plan-AllGuarded :
        (url : Option String) (d intent : Fields)
        → AllGuarded hostname domains (
            calls hostname domains
              (browse_plan mem py_str hostname domains plan_id call_id planner_model url d intent))
    unfolding calls AllGuarded browse_plan get
    browse_plan-AllGuarded (some url) d intent =
        (browse_call-Guarded hostname domains call_id url, tt)
    browse_plan-AllGuarded none d intent = tt

    plan_of-AllGuarded :
        (state : OnboardingState) (d intent : Fields)
        → AllGuarded hostname domains (
            calls hostname domains
              (plan_of mem py_str hostname domains plan_id call_id planner_model state d intent))
    unfolding calls AllGuarded plan_of onboarding_plan get
    plan_of-AllGuarded state d intent = elim (Bool-cases (state.completed)) [
      | inl e ↦ simp e (browse_plan-AllGuarded _ d intent)
      | inr e ↦ simp e tt
    ]

    plan_with-Made :
        (state : Option OnboardingState) (d : Option Fields) (intent : Fields)
        → Made (plan_with mem py_str hostname domains plan_id call_id planner_model state d intent)
    unfolding Made
    plan_with-Made (some state) (some d) intent = plan_of-AllGuarded state d intent
    plan_with-Made (some state) none intent = tt
    plan_with-Made none d intent = tt

    pub create_plan-Made :
        (intent : Fields) (profile : Option Fields)
        → Made
            (create_plan mem py_str hostname domains plan_id call_id planner_model intent profile)
    unfolding create_plan
    create_plan-Made intent profile = plan_with-Made _ _ intent
