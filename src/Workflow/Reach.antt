-- ===== src/Workflow/Reach.antt =====
-- Every state of the engine that calls can reach has exact approvals only.
use unison_orchestrator.Prelude.{
  ℕ, String, Bool, true, false, none, some, List, [], ◌∷◌, ◌≡◌, ◌≢◌, refl, arith, Option-cases,
  Bool-cases, inl, inr, ◌∙◌, ap, Result, ok, err, last_segment, All, ◌==◌, eq_refl,
}
use unison_orchestrator.Prelude.Dict.{Dict, lookup, All-lookup, All-insert}
use unison_orchestrator.Prelude.Json.{Json}
use unison_orchestrator.Workflow.Provider.{FakeProvider, ProviderFailure, Digest}
use unison_orchestrator.Workflow.Types.{
  WorkflowRequest, WorkflowStep, TaskPlan, ApprovalRecord, Execution, OutcomeEvidence, Engine,
  EngineError,
}
use unison_orchestrator.Workflow.Plan.{plan, new_execution, find_step, approve}
use unison_orchestrator.Workflow.Planning.{plan_made}
use unison_orchestrator.Workflow.Cases.{
  execute-fresh, execute-cached, execute-unknown, cancel-known, cancel-unknown,
}
use unison_orchestrator.Workflow.Engine.{
  StepEnd, done, blocked, missing, failure, cancel, cancel_with, cancelled_execution, swap_provider,
  execute, execute_new, conclude, run_steps, run_step, next_step, record_answer, is_blocked, retry,
  replace_provider, log,
}
use unison_orchestrator.Workflow.Approval.{
  execute_blocked, ExactApproval, Exact, IsExact, approve-IsExact,
}

-- Two executions with one plan and the same approvals.
abbrev Same : Execution → Execution → Type 0
Same x y = (y.plan ≡ x.plan) × (y.approvals ≡ x.approvals)

Same-Exact : (id : String) (x y : Execution) → Same x y → Exact (id, x) → Exact (id, y)
Same-Exact id x y (p, a) h = ground (arith, p, a, h)

record_answer-Same :
    (step : WorkflowStep) (kind : String) (x : Execution) (ps : Dict FakeProvider)
    (r : Result ProviderFailure String × FakeProvider)
    → Same x (record_answer step kind x ps r).1
unfolding record_answer
record_answer-Same step kind x ps (ok receipt, p) = (refl, refl)
record_answer-Same step kind x ps (err f, p) = (refl, refl)

run_step-Same :
    (digest : Digest) (step : WorkflowStep) (x : Execution) (ps : Dict FakeProvider)
    → Same x (run_step digest step x ps).1
unfolding run_step
run_step-Same digest step x ps = elim (Bool-cases (is_blocked step x.approvals)) [
  | inl b ↦ simp b (refl, refl)
  | inr b ↦ elim (Option-cases (lookup (last_segment step.capability) ps)) [
    | inl q ↦ simp b (rw (q, run_step) (refl, refl))
    | inr (p, q) ↦ simp b (rw (q, run_step) (record_answer-Same step _ (log x _) ps _))
  ]
]

run_steps-Same :
    (digest : Digest) (steps : List WorkflowStep) (x : Execution) (ps : Dict FakeProvider)
    → Same x (run_steps digest steps x ps).1
unfolding run_steps
run_steps-Same digest [] x ps = (refl, refl)
run_steps-Same digest (step ∷ steps) x ps =
    chain (run_step digest step x ps) (run_step-Same digest step x ps)
      (λ y qs. run_steps-Same digest steps y qs)
  where
    chain :
        (r : StepEnd × Execution × Dict FakeProvider)
        → Same x r.1
        → ((y : Execution) (qs : Dict FakeProvider) → Same y (run_steps digest steps y qs).1)
        → Same x (next_step r (run_steps digest steps)).1
    chain (done, y, qs) h ih = ((ih y qs).0 ∙ h.0, (ih y qs).1 ∙ h.1)
    chain (blocked, y, qs) h ih = h
    chain (missing, y, qs) h ih = h
    chain (failure r, y, qs) h ih = h

pub conclude-IsExact :
    (id : String) (e : Engine) (r : StepEnd × Execution × Dict FakeProvider)
    → IsExact e
    → Exact (id, r.1)
    → IsExact (conclude id e r).1
unfolding conclude
conclude-IsExact id e (done, x, ps) g h = All-insert Exact id x e.executions h g
conclude-IsExact id e (blocked, x, ps) g h = All-insert Exact id x e.executions h g
conclude-IsExact id e (missing, x, ps) g h = All-insert Exact id x e.executions h g
conclude-IsExact id e (failure r, x, ps) g h = All-insert Exact id x e.executions h g

pub cancel_with-IsExact :
    (id : String) (x : Execution) (e : Engine) (r : Bool × Dict FakeProvider)
    → IsExact e
    → Exact (id, x)
    → IsExact (cancel_with id x e r).1
unfolding cancel_with
cancel_with-IsExact id x e (true, ps) g h =
    All-insert Exact id (cancelled_execution x) e.executions h g
cancel_with-IsExact id x e (false, ps) g h =
    All-insert Exact id (record x { cancelled = true }) e.executions h g

pub cancel-IsExact : (id : String) (e : Engine) → IsExact e → IsExact (cancel id e).1
cancel-IsExact id e g = elim (Option-cases (lookup id e.executions)) [
  | inl q ↦ rw (cancel-unknown id e q) g
  | inr (x, q) ↦
      rw (cancel-known id e q)
        (cancel_with-IsExact id x e _ g (All-lookup Exact id e.executions g q))
]

pub execute_new-IsExact :
    (digest : Digest) (id : String) (e : Engine) (x : Execution)
    → IsExact e
    → Exact (id, x)
    → IsExact (execute_new digest id e x).1
unfolding execute_new
execute_new-IsExact digest id e x g h = elim (Bool-cases x.cancelled) [
  | inl c ↦ simp c (cancel-IsExact id e g)
  | inr c ↦ simp c (
      conclude-IsExact id e (run_steps digest x.plan.steps x e.providers) g (
        Same-Exact id x (run_steps digest x.plan.steps x e.providers).1
          (run_steps-Same digest x.plan.steps x e.providers) h))
]

pub execute-IsExact :
    (digest : Digest) (id : String) (e : Engine) → IsExact e → IsExact (execute digest id e).1
execute-IsExact digest id e g = elim (Option-cases (lookup id e.outcomes)) [
  | inr (o, q) ↦ rw (execute-cached digest id e q) g
  | inl q ↦ elim (Option-cases (lookup id e.executions)) [
    | inl r ↦ rw (execute-unknown digest id e q r) g
    | inr (x, r) ↦
        rw (execute-fresh digest id e q r)
          (execute_new-IsExact digest id e x g (All-lookup Exact id e.executions g r))
  ]
]

pub retry-IsExact :
    (digest : Digest) (id : String) (e : Engine) → IsExact e → IsExact (retry digest id e).1
unfolding retry
retry-IsExact digest id e g = elim (Option-cases (lookup id e.executions)) [
  | inl q ↦ rw (q, retry) g
  | inr (x, q) ↦
      rw (q, retry)
        (execute-IsExact digest id _
          (All-insert Exact id (log x _) e.executions (All-lookup Exact id e.executions g q) g))
]

pub swap_provider-IsExact :
    (digest : Digest) (id : String) (p : FakeProvider) (e : Engine) (x : Execution)
    (steps : List WorkflowStep)
    → IsExact e
    → Exact (id, x)
    → IsExact (swap_provider digest id p e x steps).1
unfolding swap_provider
swap_provider-IsExact digest id p e x [] g h = g
swap_provider-IsExact digest id p e x (step ∷ steps) g h =
    elim (Bool-cases (p.kind == last_segment step.capability)) [
      | inl k ↦ rw k (execute-IsExact digest id _ (All-insert Exact id (log x _) e.executions h g))
      | inr k ↦ rw k g
    ]

pub replace_provider-IsExact :
    (digest : Digest) (id : String) (p : FakeProvider) (e : Engine)
    → IsExact e
    → IsExact (replace_provider digest id p e).1
unfolding replace_provider
replace_provider-IsExact digest id p e g = elim (Option-cases (lookup id e.executions)) [
  | inl q ↦ rw (q, replace_provider) g
  | inr (x, q) ↦
      rw (q, replace_provider)
        (swap_provider-IsExact digest id p e x x.plan.steps g
          (All-lookup Exact id e.executions g q))
]

pub plan-IsExact :
    (signals_ok : Dict Json → Bool) (id : String) (n : ℕ) (request : WorkflowRequest) (e : Engine)
    {p : TaskPlan} {e' : Engine}
    → IsExact e
    → plan signals_ok id n request e ≡ ok (p, e')
    → IsExact e'
unfolding new_execution
plan-IsExact signals_ok id n request e {p} g h =
    let (v, made, stored) = plan_made signals_ok id n request e h in
    rw stored (All-insert Exact id (new_execution p request) e.executions tt g)

find_first :
    (step : WorkflowStep) (steps : List WorkflowStep)
    → find_step step.step_id (step ∷ steps) ≡ some step
unfolding find_step
find_first step steps = rw eq_refl

-- A first step that needs an approval and is not held back has one.
approval_of :
    (step : WorkflowStep) (x : Execution) {steps : List WorkflowStep}
    → step.requires_approval ≡ true
    → is_blocked step x.approvals ≡ false
    → x.plan.steps ≡ step ∷ steps
    → All (ExactApproval x.plan) x.approvals
    → (r : ApprovalRecord) × (lookup step.step_id x.approvals ≡ some r)
      × (r.approved ≡ true)
      × (r.exact_action ≡ step.action)
      × (r.exact_recipients ≡ step.recipient_ids)
      × (r.person_id ≡ x.plan.person_id)
unfolding is_blocked
approval_of step x {steps} needs free s exact =
    elim (Option-cases (lookup step.step_id x.approvals)) [
      | inl q ↦ absurd (ground arith)
      | inr (r, q) ↦
          let g = All-lookup (ExactApproval x.plan) step.step_id x.approvals exact q in
          let same : g.step ≡ step = ground (arith, g.found, find_first step steps, s) in
          (
            r,
            q,
            ground arith,
            g.action ∙ ap (λ (t : WorkflowStep). t.action) same,
            g.recipients ∙ ap (λ (t : WorkflowStep). t.recipient_ids) same,
            g.person,
          )
    ]

-- A call of the engine by its clients.
pub data Act : Type 0 where
  plan_act : String → ℕ → WorkflowRequest → Act
  approve_act : String → String → String → String → List String → Bool → Act
  cancel_act execute_act retry_act : String → Act
  replace_act : String → FakeProvider → Act

abbrev kept : {A : Type 0} → Engine → Result EngineError (A × Engine) → Engine
kept e (ok (_, e')) = e'
kept e (err f) = e

module _ (signals_ok : Dict Json → Bool) (digest : Digest) where
  unfoldable pub act : Act → Engine → Engine
  act (plan_act id n request) e = kept e (plan signals_ok id n request e)
  act (approve_act id sid person action recipients approved) e =
      kept e (approve id sid person action recipients approved e)
  act (cancel_act id) e = (cancel id e).1
  act (execute_act id) e = (execute digest id e).1
  act (retry_act id) e = (retry digest id e).1
  act (replace_act id p) e = (replace_provider digest id p e).1

  unfoldable pub acts : List Act → Engine → Engine
  acts [] e = e
  acts (a ∷ rest) e = acts rest (act a e)

  kept-IsExact :
      {A : Type 0} (e : Engine) (r : Result EngineError (A × Engine))
      → ((a : A) (e' : Engine) → r ≡ ok (a, e') → IsExact e')
      → IsExact e
      → IsExact (kept e r)
  kept-IsExact e (ok (a, e')) h g = h a e' refl
  kept-IsExact e (err f) h g = g

  act-IsExact : (a : Act) (e : Engine) → IsExact e → IsExact (act a e)
  unfolding act
  act-IsExact (plan_act id n request) e g =
      kept-IsExact e (plan signals_ok id n request e)
        (λ p e' h. plan-IsExact signals_ok id n request e g h) g
  act-IsExact (approve_act id sid person action recipients approved) e g =
      kept-IsExact e (approve id sid person action recipients approved e)
        (λ r e' h. approve-IsExact id sid person action recipients approved e g h) g
  act-IsExact (cancel_act id) e g = cancel-IsExact id e g
  act-IsExact (execute_act id) e g = execute-IsExact digest id e g
  act-IsExact (retry_act id) e g = retry-IsExact digest id e g
  act-IsExact (replace_act id p) e g = replace_provider-IsExact digest id p e g

  acts-IsExact : (l : List Act) (e : Engine) → IsExact e → IsExact (acts l e)
  unfolding acts
  acts-IsExact [] e g = g
  acts-IsExact (a ∷ l) e g = acts-IsExact l (act a e) (act-IsExact a e g)

  abbrev engine_after : Dict FakeProvider → List Act → Engine
  engine_after ps l = acts l (record { providers = ps; executions = []; outcomes = [] })

  -- Whatever calls are made on an engine without executions: if executing a plan that is neither
  -- concluded nor cancelled, and whose first step needs an approval, changes the providers, then
  -- an approval of this step is recorded, with its action and its recipients, by the person of
  -- the plan.
  pub execute-approved :
      (ps : Dict FakeProvider) (l : List Act) (id : String) {x : Execution} {step : WorkflowStep}
      {steps : List WorkflowStep}
      → lookup id (engine_after ps l).outcomes ≡ none
      → lookup id (engine_after ps l).executions ≡ some x
      → x.cancelled ≡ false
      → x.plan.steps ≡ step ∷ steps
      → step.requires_approval ≡ true
      → (execute digest id (engine_after ps l)).1.providers ≢ (engine_after ps l).providers
      → (r : ApprovalRecord) × (lookup step.step_id x.approvals ≡ some r)
        × (r.approved ≡ true)
        × (r.exact_action ≡ step.action)
        × (r.exact_recipients ≡ step.recipient_ids)
        × (r.person_id ≡ x.plan.person_id)
  execute-approved ps l id {x} {step} fresh q live s needs changed =
      elim (Bool-cases (is_blocked step x.approvals)) [
        | inl b ↦
            let t = execute_blocked digest id (engine_after ps l) fresh q live s b in
            absurd (
              changed
                (ap (λ (r : Result EngineError OutcomeEvidence × Engine). r.1.providers) t.3 ∙ t.5))
        | inr b ↦
            approval_of step x needs b s
              (All-lookup Exact id (engine_after ps l).executions (acts-IsExact l _ tt) q)
      ]
