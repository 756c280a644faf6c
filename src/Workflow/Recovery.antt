-- ===== src/Workflow/Recovery.antt =====
-- A step whose provider fails once: the plan is recoverable, and a retry completes it.
use unison_orchestrator.Prelude.{
  ◌+◌, String, false, none, some, [], ◌∷◌, ◌++◌, ◌≡◌, refl, ◌∙◌, ap, ok, err, last_segment,
}
use unison_orchestrator.Prelude.Dict.{lookup, insert, lookup-insert_self}
use unison_orchestrator.Workflow.Provider.{
  FakeProvider, ProviderCall, ProviderFailure, Digest, provider_execute, accept_call,
  pending_failure,
}
use unison_orchestrator.Workflow.Types.{
  completed, recoverable, WorkflowStep, Execution, OutcomeEvidence, Engine,
}
use unison_orchestrator.Workflow.Plan.{minimized_payload, ◌+s◌}
use unison_orchestrator.Workflow.Cases.{execute-fresh}
use unison_orchestrator.Workflow.Engine.{
  evidence, execute, execute_new, conclude, run_steps, run_step, next_step, record_answer,
  is_blocked, retry, log, recovery_of,
}

-- The key under which a step calls its provider.
abbrev pub step_key : Execution → WorkflowStep → String
step_key x step = x.plan.idempotency_key +s ":" +s step.step_id

-- A plan with one step, which may run: the plan is known, not concluded and not cancelled, the
-- step is approved, and its provider is there and has not answered this step.
pub record MayRun (id : String) (e : Engine) (x : Execution) (step : WorkflowStep)
    (p : FakeProvider) : Type 0 where
  pub open_plan : lookup id e.outcomes ≡ none
  pub known : lookup id e.executions ≡ some x
  pub live : x.cancelled ≡ false
  pub one_step : x.plan.steps ≡ step ∷ []
  pub approved : is_blocked step x.approvals ≡ false
  pub provider : lookup (last_segment step.capability) e.providers ≡ some p
  pub unanswered : lookup (step_key x step) p.receipts ≡ none

module _ (digest : Digest) (id : String) {e : Engine} {x : Execution} {step : WorkflowStep}
    {p : FakeProvider} (m : MayRun id e x step p) where
  abbrev started : Execution
  started = log x ("step.running" ∷ "disclosure.minimized" ∷ [])

  execute_new-one_step :
      execute_new digest id e x
      ≡ conclude id e (next_step (run_step digest step x e.providers) (run_steps digest []))
  unfolding execute_new run_steps
  execute_new-one_step = simp (m.live, m.one_step)

  run_step-called :
      run_step digest step x e.providers
      ≡ record_answer step
          (last_segment step.capability)
          started
          e.providers
          (provider_execute digest step.action (minimized_payload x.request) (step_key x step) p)
  unfolding run_step
  run_step-called = simp m.approved (rw (m.provider, run_step))

  execute-one_step :
      execute digest id e
      ≡ conclude id e (
          next_step
            (record_answer step (last_segment step.capability) started e.providers (
              provider_execute digest step.action
                (minimized_payload x.request)
                (step_key x step)
                p))
            (run_steps digest []))
  execute-one_step =
      execute-fresh digest id e m.open_plan m.known
      ∙ (execute_new-one_step
          ∙ ap (λ r. conclude id e (next_step r (run_steps digest []))) run_step-called)

  provider-fails :
      {f : ProviderFailure}
      → pending_failure p.fail_once ≡ some f
      → provider_execute digest step.action (minimized_payload x.request) (step_key x step) p
        ≡ (err f, record p { fail_once = none })
  unfolding provider_execute
  provider-fails h = rw (m.unanswered, provider_execute) (rw (h, provider_execute))

  provider-answers :
      pending_failure p.fail_once ≡ none
      → provider_execute digest step.action (minimized_payload x.request) (step_key x step) p
        ≡ accept_call digest step.action (minimized_payload x.request) (step_key x step) p
  unfolding provider_execute
  provider-answers h = rw (m.unanswered, provider_execute) (rw (h, provider_execute))

  -- The execution after a failure, and the engine with it.
  abbrev failed_execution : Execution
  failed_execution =
      log (record started { recovery_count = x.recovery_count + 1 })
        ("step.failed" ∷ "recovery.available" ∷ [])

  abbrev failed_engine : Engine
  failed_engine = record e {
    providers = insert (last_segment step.capability) (record p { fail_once = none }) e.providers;
    executions = insert id failed_execution e.executions;
  }

  execute-fails :
      {f : ProviderFailure}
      → pending_failure p.fail_once ≡ some f
      → execute digest id e ≡ (
        ok (evidence failed_execution recoverable (some (recovery_of f step)) none),
        failed_engine,
      )
  unfolding conclude record_answer
  execute-fails h = execute-one_step ∙ rw (provider-fails h)

  -- The execution after the provider has answered, and the receipt.
  abbrev new_receipt : String
  new_receipt = digest p.provider_id p.kind step.action (minimized_payload x.request)

  abbrev answered_execution : Execution
  answered_execution =
      log
        (record started {
          receipts = x.receipts ++ (last_segment step.capability, new_receipt) ∷ [];
        })
        ("step.completed" ∷ "provider.receipt_recorded" ∷ [])

  abbrev noted_call : ProviderCall
  noted_call = record {
    action = step.action;
    payload = minimized_payload x.request;
    receipt = new_receipt;
  }

  abbrev answered_provider : FakeProvider
  answered_provider = record p {
    calls = p.calls ++ noted_call ∷ [];
    receipts = insert (step_key x step) new_receipt p.receipts;
  }

  abbrev answered_engine : Engine
  answered_engine = record e {
    providers = insert (last_segment step.capability) answered_provider e.providers;
    executions = insert id answered_execution e.executions;
    outcomes = insert id (evidence answered_execution completed none none) e.outcomes;
  }

  execute-completes :
      pending_failure p.fail_once ≡ none
      → execute digest id e
        ≡ (ok (evidence answered_execution completed none none), answered_engine)
  unfolding conclude record_answer accept_call run_steps
  execute-completes h = execute-one_step ∙ rw (provider-answers h)

  -- The engine in which `retry` calls `execute`, and why the step may run there.
  abbrev retrying : Execution
  retrying = log failed_execution ("recovery.retry" ∷ [])

  abbrev retrying_engine : Engine
  retrying_engine = record failed_engine {
    executions = insert id retrying failed_engine.executions;
  }

  retry-execute : retry digest id failed_engine ≡ execute digest id retrying_engine
  unfolding retry
  retry-execute = rw (lookup-insert_self id failed_execution e.executions, retry)

  MayRun-again : MayRun id retrying_engine retrying step (record p { fail_once = none })
  MayRun-again = record {
    open_plan = m.open_plan;
    known = lookup-insert_self id retrying failed_engine.executions;
    live = m.live;
    one_step = m.one_step;
    approved = m.approved;
    provider = lookup-insert_self (last_segment step.capability) _ e.providers;
    unanswered = m.unanswered;
  }

-- A plan with one step that may run, whose provider fails once: the first call reports a
-- recoverable failure of that step, calls nobody and keeps the receipts; the retry then completes
-- the plan: the provider has been called once, and the receipt of that call stands, with the kind of
-- the provider, behind those that the execution had.
pub retry_recovers :
    (digest : Digest) (id : String) {e : Engine} {x : Execution} {step : WorkflowStep}
    {p : FakeProvider} {f : ProviderFailure}
    → MayRun id e x step p
    → pending_failure p.fail_once ≡ some f
    → (ev1 ev2 : OutcomeEvidence) × (e1 e2 : Engine) × (p1 p2 : FakeProvider) × (x1 x2 : Execution)
      × (execute digest id e ≡ (ok ev1, e1))
      × (ev1.state ≡ recoverable)
      × (ev1.recovery ≡ some (recovery_of f step))
      × (lookup (last_segment step.capability) e1.providers ≡ some p1)
      × (p1.calls ≡ p.calls)
      × (lookup id e1.executions ≡ some x1)
      × (x1.receipts ≡ x.receipts)
      × (retry digest id e1 ≡ (ok ev2, e2))
      × (ev2.state ≡ completed)
      × (lookup (last_segment step.capability) e2.providers ≡ some p2)
      × (lookup id e2.executions ≡ some x2)
      × ((c : ProviderCall) × (c.action ≡ step.action)
          × (p2.calls ≡ p.calls ++ c ∷ [])
          × (x2.receipts ≡ x.receipts ++ (last_segment step.capability, c.receipt) ∷ []))
unfolding evidence
retry_recovers digest id {e} {x} {step} {p} m h =
    let m2 = MayRun-again digest id m in
    (
      _,
      _,
      _,
      _,
      _,
      _,
      _,
      _,
      execute-fails digest id m h,
      refl,
      refl,
      lookup-insert_self (last_segment step.capability) _ e.providers,
      refl,
      lookup-insert_self id _ e.executions,
      refl,
      retry-execute digest id m ∙ execute-completes digest id m2 refl,
      refl,
      lookup-insert_self (last_segment step.capability) _ (retrying_engine digest id m).providers,
      lookup-insert_self id _ (retrying_engine digest id m).executions,
      (_, refl, refl, refl),
    )
