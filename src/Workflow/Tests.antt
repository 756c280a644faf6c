-- ===== src/Workflow/Tests.antt =====
-- Runs of the engine, and the theorems at concrete states.
use unison_orchestrator.Prelude.{
  ℕ, true, false, none, some, List, [], ◌∷◌, ◌++◌, ◌≡◌, ◌≢◌, refl, ap, arith, ok, All, last_segment,
  length,
}
use unison_orchestrator.Prelude.Dict.{Dict, lookup, insert}
use unison_orchestrator.Prelude.Json.{str, int}
use unison_orchestrator.Workflow.Provider.{
  FakeProvider, ProviderCall, timeout, Digest, provider_execute,
}
use unison_orchestrator.Workflow.Types.{
  completed, recoverable, awaiting_approval, calendar_coordination, compensated, WorkflowRequest,
  WorkflowStep, TaskPlan, ApprovalRecord, Execution, OutcomeEvidence, Engine,
}
use unison_orchestrator.Workflow.Plan.{
  plan, new_plan, new_step, new_execution, templates, minimal_fields, minimized_payload, approve,
}
use unison_orchestrator.Workflow.Engine.{
  execute, execute_new, run_steps, run_step, record_answer, is_blocked, evidence, conclude, cancel,
  cancelled_execution, retry, recovery_of,
}
use unison_orchestrator.Workflow.Planning.{Within, Addresses, plan-Permitted}
use unison_orchestrator.Workflow.Disclosure.{disclosed, lookup-minimized_payload}
use unison_orchestrator.Workflow.Completion.{execute_twice}
use unison_orchestrator.Workflow.Recovery.{MayRun, retry_recovers}
use unison_orchestrator.Workflow.Reach.{Act, plan_act, approve_act, acts, act, execute-approved}
use unison_orchestrator.Workflow.Cancellation.{Compensated, cancel-Compensated}

abbrev digest : Digest
digest id kind action payload = "receipt"

abbrev request : WorkflowRequest
request = record {
  person_id = "ann";
  assistant_id = "a1";
  kind = calendar_coordination;
  purpose = "meet";
  context_space_ids = "work" ∷ [];
  allowed_context_space_ids = "home" ∷ "work" ∷ [];
  recipient_ids = "bob" ∷ [];
  allowed_recipient_ids = "bob" ∷ [];
  charter_constraints = [];
  commitment_ids = [];
  content = ("duration", int 30) ∷ ("instructions", str "wire money") ∷ [];
  ranking_signals = [];
  idempotency_key = "k";
}

abbrev calendar : FakeProvider
calendar = record {
  kind = "calendar";
  provider_id = "fake-primary";
  fail_once = none;
  calls = [];
  compensations = [];
  receipts = [];
}

abbrev flaky : FakeProvider
flaky = record calendar { fail_once = some "timeout" }

abbrev providers : FakeProvider → Dict FakeProvider
providers p = ("calendar", p) ∷ []

abbrev empty : FakeProvider → Engine
empty p = record { providers = providers p; executions = []; outcomes = [] }

abbrev step : WorkflowStep
step = record {
  step_id = "calendar-1";
  capability = "phase7.calendar";
  action = "propose_then_create_event";
  provider = "fake-primary";
  requires_approval = true;
  external_call = true;
  reversible = true;
  recipient_ids = "bob" ∷ [];
  disclosed_fields = "availability" ∷ "attendees" ∷ "duration" ∷ [];
  attempt = 0;
}

abbrev the_plan : TaskPlan
the_plan = record {
  plan_id = "p1";
  person_id = "ann";
  assistant_id = "a1";
  kind = calendar_coordination;
  purpose = "meet";
  context_space_ids = "work" ∷ [];
  charter_constraints = [];
  commitment_ids = [];
  steps = step ∷ [];
  state = awaiting_approval;
  idempotency_key = "k";
}

abbrev approval : ApprovalRecord
approval = record {
  plan_id = "p1";
  step_id = "calendar-1";
  person_id = "ann";
  exact_action = "propose_then_create_event";
  exact_recipients = "bob" ∷ [];
  approved = true;
}

abbrev planned_execution : Execution
planned_execution = record {
  plan = the_plan;
  request = request;
  receipts = [];
  approvals = [];
  audit = "plan.created" ∷ "policy.context_allowed" ∷ "ranking.person_aligned" ∷ [];
  recovery_count = 0;
  cancelled = false;
}

abbrev approved_execution : Execution
approved_execution = record planned_execution { approvals = ("calendar-1", approval) ∷ [] }

abbrev with_execution : FakeProvider → Execution → Engine
with_execution p x = record (empty p) { executions = ("p1", x) ∷ [] }

planned_as_expected :
    plan (λ r. true) "p1" 0 request (empty calendar)
    ≡ ok (the_plan, with_execution calendar planned_execution)
unfolding plan new_plan new_step new_execution templates minimal_fields lookup insert
planned_as_expected = refl

plan-Permitted_example :
    (request.context_space_ids ≢ [])
    × Within request.context_space_ids request.allowed_context_space_ids
    × Within request.recipient_ids request.allowed_recipient_ids
    × (the_plan.context_space_ids ≡ request.context_space_ids)
    × Addresses request the_plan
    × (providers calendar ≡ providers calendar)
    × (◌≡◌ {A = Dict OutcomeEvidence} [] [])
plan-Permitted_example =
    plan-Permitted (λ r. true) "p1" 0 request (empty calendar) planned_as_expected

lookup-minimized_payload_example :
    lookup "instructions" (minimized_payload request) ≡ disclosed request "instructions"
lookup-minimized_payload_example = lookup-minimized_payload request "instructions"

kept_secret : disclosed request "instructions" ≡ none
unfolding minimal_fields
kept_secret = refl

abbrev ready : Engine
ready = with_execution calendar approved_execution

finished : (ev : OutcomeEvidence) × ((execute digest "p1" ready).0 ≡ ok ev) × (ev.state ≡ completed)
unfolding execute execute_new run_steps run_step is_blocked record_answer provider_execute evidence
    lookup last_segment
finished = (_, refl, refl)

execute_twice_example :
    execute digest "p1" (execute digest "p1" ready).1
    ≡ (ok finished.0, (execute digest "p1" ready).1)
execute_twice_example = execute_twice digest "p1" ready finished.1 finished.2

flaky-MayRun : MayRun "p1" (with_execution flaky approved_execution) approved_execution step flaky
unfolding lookup is_blocked last_segment
flaky-MayRun = record {
  open_plan = refl;
  known = refl;
  live = refl;
  one_step = refl;
  approved = refl;
  provider = refl;
  unanswered = refl;
}

retry_recovers_example :
    (ev1 ev2 : OutcomeEvidence) × (e1 e2 : Engine) × (p1 p2 : FakeProvider) × (x1 x2 : Execution)
    × (execute digest "p1" (with_execution flaky approved_execution) ≡ (ok ev1, e1))
    × (ev1.state ≡ recoverable)
    × (ev1.recovery ≡ some (recovery_of timeout step))
    × (lookup (last_segment step.capability) e1.providers ≡ some p1)
    × (p1.calls ≡ flaky.calls)
    × (lookup "p1" e1.executions ≡ some x1)
    × (x1.receipts ≡ approved_execution.receipts)
    × (retry digest "p1" e1 ≡ (ok ev2, e2))
    × (ev2.state ≡ completed)
    × (lookup (last_segment step.capability) e2.providers ≡ some p2)
    × (lookup "p1" e2.executions ≡ some x2)
    × ((c : ProviderCall) × (c.action ≡ step.action)
        × (p2.calls ≡ flaky.calls ++ c ∷ [])
        × (x2.receipts
            ≡ approved_execution.receipts ++ (last_segment step.capability, c.receipt) ∷ []))
retry_recovers_example = retry_recovers digest "p1" flaky-MayRun refl

abbrev session : List Act
session =
    plan_act "p1" 0 request
    ∷ approve_act "p1" "calendar-1" "ann" "propose_then_create_event" ("bob" ∷ []) true
    ∷ []

abbrev reached : Engine
reached = acts (λ r. true) digest session (empty calendar)

abbrev audited : Execution
audited = record approved_execution { audit = planned_execution.audit ++ "approval.accepted" ∷ [] }

reached_state : reached ≡ with_execution calendar audited
unfolding acts act plan new_plan new_step new_execution templates minimal_fields lookup insert
    approve
reached_state = refl

abbrev total_calls : Dict FakeProvider → ℕ
total_calls [] = 0
total_calls ((_, p) ∷ ps) = length p.calls

called :
    (execute digest "p1" (with_execution calendar audited)).1.providers
    ≢ (with_execution calendar audited).providers
unfolding execute execute_new run_steps run_step is_blocked record_answer provider_execute lookup
    insert last_segment conclude
called = λ h. absurd (omega (arith, ap total_calls h))

execute-approved_example :
    (r : ApprovalRecord) × (lookup "calendar-1" audited.approvals ≡ some r)
    × (r.approved ≡ true)
    × (r.exact_action ≡ "propose_then_create_event")
    × (r.exact_recipients ≡ "bob" ∷ [])
    × (r.person_id ≡ "ann")
unfolding acts act plan new_plan new_step new_execution templates minimal_fields lookup insert
    approve
execute-approved_example =
    execute-approved (λ r. true) digest (providers calendar) session "p1" {x = audited}
      {step = step} refl refl refl refl refl called

abbrev paid_execution : Execution
paid_execution = record approved_execution { receipts = ("calendar", "r1") ∷ [] }

cancel-Compensated_example :
    (ev : OutcomeEvidence) × (e' : Engine) × (cancel "p1" (with_execution calendar paid_execution)
      ≡ (ok ev, e'))
    × (ev.state ≡ compensated)
    × All (Compensated e'.providers) (("calendar", "r1") ∷ [])
    × (e'.executions
        ≡ insert "p1" (cancelled_execution paid_execution) (("p1", paid_execution) ∷ []))
    × (e'.outcomes ≡ [])
unfolding lookup
cancel-Compensated_example =
    cancel-Compensated "p1" (with_execution calendar paid_execution) refl (refl, tt)

abbrev concluded : Engine
concluded = record (with_execution calendar paid_execution) {
  outcomes = ("p1", evidence paid_execution completed none none) ∷ [];
}
