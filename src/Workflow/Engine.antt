-- ===== src/Workflow/Engine.antt =====
-- engine.py: evidence, `cancel`, `execute`, `retry` and `replace_provider`.
use mathlib.Core.List.{reverse}
use unison_orchestrator.Prelude.{
  ℕ, zero, suc, ◌+◌, String, Bool, true, false, not, ◌&&◌, Option, none, some, List, [], ◌∷◌, ◌++◌,
  map, length, is_empty, if◌then◌else◌, Result, ok, err, ◌==◌, last_segment,
}
use unison_orchestrator.Prelude.Dict.{Dict, lookup, insert}
use unison_orchestrator.Workflow.Provider.{
  FakeProvider, ProviderFailure, timeout, failed, Digest, provider_execute, compensate,
}
use unison_orchestrator.Workflow.Types.{
  WorkflowState, awaiting_approval, recoverable, completed, cancelled, compensated, EngineError,
  key_error, index_error, value_error, WorkflowStep, ApprovalRecord, Execution, FailureRecovery,
  OutcomeEvidence, Engine,
}
use unison_orchestrator.Workflow.Plan.{templates, minimized_payload, ◌+s◌}

abbrev pub is_completed : WorkflowState → Bool
is_completed completed = true
is_completed _ = false

abbrev pub counts_steps : WorkflowState → Bool
counts_steps completed = true
counts_steps compensated = true
counts_steps _ = false

-- `xs[:n]`
abbrev pub take {ℓ} : {A : Type ℓ} → ℕ → List A → List A
take zero xs = []
take (suc n) [] = []
take (suc n) (x ∷ xs) = x ∷ take n xs

abbrev pub one_if : Bool → ℕ
one_if b = if b then 1 else 0

-- The sum of the disclosed fields of the steps that call outside.
abbrev pub disclosures : List WorkflowStep → ℕ
disclosures [] = 0
disclosures (step ∷ steps) =
    (if step.external_call then length step.disclosed_fields else 0) + disclosures steps

-- `_evidence`
unfoldable pub evidence :
    Execution → WorkflowState → Option FailureRecovery → Option ℕ → OutcomeEvidence
evidence x state recovery recoveries = record {
  plan_id = x.plan.plan_id;
  person_id = x.plan.person_id;
  kind = x.plan.kind;
  state = state;
  completed_step_ids =
      map (λ (step : WorkflowStep). step.step_id)
        (take (if counts_steps state then length x.receipts else 0) x.plan.steps);
  provider_receipts = map (λ (r : String × String). r.1) x.receipts;
  recovery = recovery;
  metrics = record {
    administrative_tasks_completed = one_if (is_completed state);
    commitments_completed = one_if (is_completed state && not (is_empty x.plan.commitment_ids));
    interruptions_avoided = one_if (is_completed state);
    recoveries = elim recoveries [ none ↦ x.recovery_count | some n ↦ n ];
    external_calls = length x.receipts;
    minimized_fields_disclosed = disclosures x.plan.steps;
    estimated_minutes_returned = if is_completed state then (templates x.plan.kind).minutes else 0;
    boundary_incidents = 0;
  };
  audit_events = x.audit;
}

-- The compensations of `cancel`, last receipt first; a provider that is gone is a KeyError.
unfoldable pub compensate_all :
    List (String × String) → Dict FakeProvider → Bool × Dict FakeProvider
compensate_all [] ps = (true, ps)
compensate_all ((kind, receipt) ∷ rs) ps = elim (lookup kind ps) [
  | none ↦ (false, ps)
  | some p ↦ compensate_all rs (insert kind (compensate receipt p) ps)
]

-- The end of `cancel`, once the providers have compensated.
abbrev pub cancelled_execution : Execution → Execution
cancelled_execution x = record x {
  cancelled = true;
  audit = x.audit ++ "workflow.cancelled" ∷ "workflow.compensated" ∷ [];
}

abbrev pub cancel_evidence : Execution → OutcomeEvidence
cancel_evidence x =
    if is_empty x.receipts
    then evidence (cancelled_execution x) cancelled none (some 0)
    else evidence (cancelled_execution x) compensated none (some 1)

unfoldable pub cancel_with :
    String
    → Execution
    → Engine
    → Bool × Dict FakeProvider
    → Result EngineError OutcomeEvidence × Engine
cancel_with plan_id x e (true, ps) = (
  ok (cancel_evidence x),
  record e { providers = ps; executions = insert plan_id (cancelled_execution x) e.executions },
)
cancel_with plan_id x e (false, ps) = (
  err key_error,
  record e {
    providers = ps;
    executions = insert plan_id (record x { cancelled = true }) e.executions;
  },
)

unfoldable pub cancel : String → Engine → Result EngineError OutcomeEvidence × Engine
unfolding compensate_all cancel_with
cancel plan_id e = elim (lookup plan_id e.executions) [
  | none ↦ (err key_error, e)
  | some x ↦ cancel_with plan_id x e (compensate_all (reverse x.receipts) e.providers)
]

-- Whether a step lacks the approval that it needs.
unfoldable pub is_blocked : WorkflowStep → Dict ApprovalRecord → Bool
is_blocked step approvals =
    step.requires_approval
    && elim (lookup step.step_id approvals) [ none ↦ true | some r ↦ not r.approved ]

-- How one step of `execute` ends.
pub data StepEnd : Type 0 where
  done blocked missing : StepEnd
  failure : FailureRecovery → StepEnd

abbrev pub failure_code : ProviderFailure → String
failure_code timeout = "provider_timeout"
failure_code failed = "provider_error"

abbrev pub recovery_of : ProviderFailure → WorkflowStep → FailureRecovery
recovery_of f step = record {
  failure_code = failure_code f;
  failed_step_id = step.step_id;
  safe_to_retry = true;
  retry_count = step.attempt + 1;
  compensation_actions = "cancel_completed_external_actions" ∷ [];
  user_message = "The provider did not complete the step. Retry, replace the provider, or cancel.";
}

abbrev pub log : Execution → List String → Execution
log x events = record x { audit = x.audit ++ events }

-- After the provider's answer.
unfoldable pub record_answer :
    WorkflowStep
    → String
    → Execution
    → Dict FakeProvider
    → Result ProviderFailure String × FakeProvider
    → StepEnd × Execution × Dict FakeProvider
record_answer step kind x ps (ok receipt, p) = (
  done,
  log (record x { receipts = x.receipts ++ (kind, receipt) ∷ [] })
      ("step.completed" ∷ "provider.receipt_recorded" ∷ []),
  insert kind p ps,
)
record_answer step kind x ps (err f, p) = (
  failure (recovery_of f step),
  log (record x { recovery_count = x.recovery_count + 1 })
      ("step.failed" ∷ "recovery.available" ∷ []),
  insert kind p ps,
)

unfoldable pub run_step :
    Digest → WorkflowStep → Execution → Dict FakeProvider → StepEnd × Execution × Dict FakeProvider
unfolding record_answer
run_step digest step x ps =
    if is_blocked step x.approvals
    then (blocked, log x ("execution.blocked_missing_approval" ∷ []), ps)
    else elim (lookup (last_segment step.capability) ps) [
      | none ↦ (missing, x, ps)
      | some p ↦
          record_answer step (last_segment step.capability)
            (log x ("step.running" ∷ "disclosure.minimized" ∷ [])) ps
            (provider_execute digest step.action (minimized_payload x.request)
              (x.plan.idempotency_key +s ":" +s step.step_id) p)
    ]

-- What an ended step means for the loop: go on, or stop.
abbrev pub next_step :
    StepEnd × Execution × Dict FakeProvider
    → (Execution → Dict FakeProvider → StepEnd × Execution × Dict FakeProvider)
    → StepEnd × Execution × Dict FakeProvider
next_step (done, x, ps) next = next x ps
next_step (blocked, x, ps) next = (blocked, x, ps)
next_step (missing, x, ps) next = (missing, x, ps)
next_step (failure r, x, ps) next = (failure r, x, ps)

-- The loop over the plan's steps ends at the first that is not done.
unfoldable pub run_steps :
    Digest
    → List WorkflowStep
    → Execution
    → Dict FakeProvider
    → StepEnd × Execution × Dict FakeProvider
run_steps digest [] x ps = (done, x, ps)
run_steps digest (step ∷ steps) x ps =
    next_step (run_step digest step x ps) (run_steps digest steps)

-- What `execute` returns, and whether it is kept as the plan's outcome.
unfoldable pub conclude :
    String
    → Engine
    → StepEnd × Execution × Dict FakeProvider
    → Result EngineError OutcomeEvidence × Engine
conclude plan_id e (done, x, ps) =
    let outcome = evidence x completed none none in
    (
      ok outcome,
      record e {
        providers = ps;
        executions = insert plan_id x e.executions;
        outcomes = insert plan_id outcome e.outcomes;
      },
    )
conclude plan_id e (blocked, x, ps) = (
  ok (evidence x awaiting_approval none none),
  record e { providers = ps; executions = insert plan_id x e.executions },
)
conclude plan_id e (missing, x, ps) =
    (err key_error, record e { providers = ps; executions = insert plan_id x e.executions })
conclude plan_id e (failure r, x, ps) = (
  ok (evidence x recoverable (some r) none),
  record e { providers = ps; executions = insert plan_id x e.executions },
)

unfoldable pub execute_new :
    Digest → String → Engine → Execution → Result EngineError OutcomeEvidence × Engine
execute_new digest plan_id e x =
    if x.cancelled
    then cancel plan_id e
    else conclude plan_id e (run_steps digest x.plan.steps x e.providers)

unfoldable pub execute : Digest → String → Engine → Result EngineError OutcomeEvidence × Engine
unfolding execute_new conclude
execute digest plan_id e = elim (lookup plan_id e.outcomes) [
  | some outcome ↦ (ok outcome, e)
  | none ↦ elim (lookup plan_id e.executions) [
    | none ↦ (err key_error, e)
    | some x ↦ execute_new digest plan_id e x
  ]
]

unfoldable pub retry : Digest → String → Engine → Result EngineError OutcomeEvidence × Engine
retry digest plan_id e = elim (lookup plan_id e.executions) [
  | none ↦ (err key_error, e)
  | some x ↦
      execute digest plan_id
        (record e { executions = insert plan_id (log x ("recovery.retry" ∷ [])) e.executions })
]

-- The part of `replace_provider` behind the look at the plan's first step.
unfoldable pub swap_provider :
    Digest
    → String
    → FakeProvider
    → Engine
    → Execution
    → List WorkflowStep
    → Result EngineError OutcomeEvidence × Engine
swap_provider digest plan_id provider e x [] = (err index_error, e)
swap_provider digest plan_id provider e x (step ∷ steps) =
    let kind = last_segment step.capability in
    if provider.kind == kind
    then execute digest plan_id (record e {
      providers = insert kind provider e.providers;
      executions = insert plan_id (log x ("recovery.provider_replaced" ∷ [])) e.executions;
    })
    else (err value_error, e)

unfoldable pub replace_provider :
    Digest → String → FakeProvider → Engine → Result EngineError OutcomeEvidence × Engine
unfolding swap_provider
replace_provider digest plan_id provider e = elim (lookup plan_id e.executions) [
  | none ↦ (err key_error, e)
  | some x ↦ swap_provider digest plan_id provider e x x.plan.steps
]
