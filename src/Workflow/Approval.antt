-- ===== src/Workflow/Approval.antt =====
-- Approvals are exact: who approves, what action, and which recipients; a step that needs one
-- calls no provider without.
use unison_orchestrator.Prelude.{
  String, Bool, true, false, none, some, List, [], ◌∷◌, ◌≡◌, refl, arith, Option-cases, inl, inr,
  ◌∙◌, Result, ok, err, All, eq_iff, texts_eq→eq,
}
use unison_orchestrator.Prelude.Dict.{lookup, insert, lookup-insert_self, All-lookup, All-insert}
use unison_orchestrator.Workflow.Provider.{Digest}
use unison_orchestrator.Workflow.Types.{
  awaiting_approval, WorkflowStep, TaskPlan, ApprovalRecord, Execution, OutcomeEvidence, Engine,
  EngineError,
}
use unison_orchestrator.Workflow.Plan.{find_step, approve_step, approve}
use unison_orchestrator.Workflow.Cases.{execute-fresh}
use unison_orchestrator.Workflow.Engine.{
  evidence, execute, execute_new, conclude, run_steps, run_step, is_blocked, log,
}

-- An approval stands for a step of the plan, with its action and recipients, by the plan's person.
pub record ExactApproval (p : TaskPlan) (entry : String × ApprovalRecord) : Type 0 where
  pub step : WorkflowStep
  pub found : find_step entry.0 p.steps ≡ some step
  pub action : entry.1.exact_action ≡ step.action
  pub recipients : entry.1.exact_recipients ≡ step.recipient_ids
  pub person : entry.1.person_id ≡ p.person_id

abbrev pub Exact : String × Execution → Type 0
Exact (id, x) = All (ExactApproval x.plan) x.approvals

abbrev pub IsExact : Engine → Type 0
IsExact e = All Exact e.executions

approve_step-Exact :
    (id sid person action : String) (recipients : List String) (approved : Bool) (x : Execution)
    (step : WorkflowStep) {r : ApprovalRecord} {x' : Execution}
    → find_step sid x.plan.steps ≡ some step
    → approve_step id sid person action recipients approved x step ≡ ok (r, x')
    → Exact (id, x)
    → Exact (id, x') × ExactApproval x.plan (sid, r)
unfolding approve_step
approve_step-Exact id sid person action recipients approved x step {r} {x'} f h g =
    (rw changed (All-insert (ExactApproval x.plan) sid r x.approvals exact g), exact)
  where
    exact : ExactApproval x.plan (sid, r)
    exact = record {
      step = step;
      found = f;
      action = ground (arith, eq_iff action step.action);
      recipients = ground (arith, texts_eq→eq recipients step.recipient_ids);
      person = ground (arith, eq_iff person x.plan.person_id);
    }

    changed : x' ≡ record x { approvals = insert sid r x.approvals; audit = x'.audit }
    changed = ground arith

pub approve_found :
    (id sid person action : String) (recipients : List String) (approved : Bool) (e : Engine)
    {r : ApprovalRecord} {e' : Engine}
    → approve id sid person action recipients approved e ≡ ok (r, e')
    → (x : Execution) × (step : WorkflowStep) × (x' : Execution) × (lookup id e.executions ≡ some x)
      × (find_step sid x.plan.steps ≡ some step)
      × (approve_step id sid person action recipients approved x step ≡ ok (r, x'))
      × (e' ≡ record e { executions = insert id x' e.executions })
unfolding approve
approve_found id sid person action recipients approved e {r} {e'} h =
    elim (Option-cases (lookup id e.executions)) [
      | inl q ↦ absurd (ground arith)
      | inr (x, q) ↦ elim (Option-cases (find_step sid x.plan.steps)) [
        | inl f ↦ absurd (ground arith)
        | inr (step, f) ↦
            went x step q f (approve_step id sid person action recipients approved x step) refl
      ]
    ]
  where
    went :
        (x : Execution) (step : WorkflowStep)
        → lookup id e.executions ≡ some x
        → find_step sid x.plan.steps ≡ some step
        → (m : Result EngineError (ApprovalRecord × Execution))
        → approve_step id sid person action recipients approved x step ≡ m
        → (x : Execution) × (step : WorkflowStep) × (x' : Execution) × (lookup id e.executions
            ≡ some x)
          × (find_step sid x.plan.steps ≡ some step)
          × (approve_step id sid person action recipients approved x step ≡ ok (r, x'))
          × (e' ≡ record e { executions = insert id x' e.executions })
    went x step q f (ok (r', x')) g =
        (x, step, x', q, f, ground (arith, g, h, q, f), ground (arith, g, h, q, f))
    went x step q f (err z) g = absurd (ground (arith, g, h, q, f))

pub approve-IsExact :
    (id sid person action : String) (recipients : List String) (approved : Bool) (e : Engine)
    {r : ApprovalRecord} {e' : Engine}
    → IsExact e
    → approve id sid person action recipients approved e ≡ ok (r, e')
    → IsExact e'
approve-IsExact id sid person action recipients approved e g h =
    let (x, step, x', q, f, a, s) = approve_found id sid person action recipients approved e h in
    rw s (
      All-insert Exact id x' e.executions
        (approve_step-Exact id sid person action recipients approved x step f a
          (All-lookup Exact id e.executions g q)).0
        g)

-- A step that still needs an approval stops the plan: the call reports that it waits for one, and
-- changes no provider, no outcome and no receipt.
pub execute_blocked :
    (digest : Digest) (id : String) (e : Engine) {x : Execution} {step : WorkflowStep}
    {steps : List WorkflowStep}
    → lookup id e.outcomes ≡ none
    → lookup id e.executions ≡ some x
    → x.cancelled ≡ false
    → x.plan.steps ≡ step ∷ steps
    → is_blocked step x.approvals ≡ true
    → (ev : OutcomeEvidence) × (e' : Engine) × (x' : Execution) × (execute digest id e
        ≡ (ok ev, e'))
      × (ev.state ≡ awaiting_approval)
      × (e'.providers ≡ e.providers)
      × (e'.outcomes ≡ e.outcomes)
      × (lookup id e'.executions ≡ some x')
      × (x'.receipts ≡ x.receipts)
unfolding execute_new run_steps run_step conclude evidence
execute_blocked digest id e {x} q r live steps b =
    let x' = log x ("execution.blocked_missing_approval" ∷ []) in
    (
      evidence x' awaiting_approval none none,
      record e { executions = insert id x' e.executions },
      x',
      execute-fresh digest id e q r ∙ simp (live, steps, b),
      refl,
      refl,
      refl,
      lookup-insert_self id x' e.executions,
      refl,
    )
