-- ===== src/Workflow/Plan.antt =====
-- engine.py: `plan`, `approve` and the payload that a provider gets.
use Prim.Native.String
use unison_orchestrator.Prelude.{
  ℕ, String, Bool, true, false, not, ◌&&◌, ◌||◌, Option, none, some, List, [], ◌∷◌, ◌++◌, is_empty,
  all, elem, if◌then◌else◌, Result, ok, err, ◌==◌, sorted, texts_eq,
}
use unison_orchestrator.Prelude.Dict.{Dict, lookup, insert, erase}
use unison_orchestrator.Prelude.Json.{Json, str, arr, Items, nil, cons}
use unison_orchestrator.Workflow.Provider.{FakeProvider}
use unison_orchestrator.Workflow.Types.{
  WorkflowKind, calendar_coordination, email_triage_draft, reminder_commitment_review,
  household_coordination, contact_recall, document_web_research, travel_planning, planned,
  awaiting_approval, EngineError, permission_error, key_error, ranking_error, WorkflowRequest,
  WorkflowStep, TaskPlan, ApprovalRecord, Execution, Engine,
}

pub record Template : Type 0 where
  pub provider_kind : String
  pub action : String
  pub minutes : ℕ
  pub approval : Bool

abbrev pub template : String → String → ℕ → Bool → Template
template provider_kind action minutes approval = record {
  provider_kind = provider_kind;
  action = action;
  minutes = minutes;
  approval = approval;
}

-- `_TEMPLATES`
unfoldable pub templates : WorkflowKind → Template
templates calendar_coordination = template "calendar" "propose_then_create_event" 12 true
templates email_triage_draft = template "mail" "triage_summarize_and_draft" 10 true
templates reminder_commitment_review = template "tasks" "review_and_schedule_reminder" 8 false
templates household_coordination = template "household" "coordinate_shared_artifact" 9 true
templates contact_recall = template "contacts" "recall_relationship_context" 4 false
templates document_web_research = template "research" "retrieve_summarize_with_citations" 18 false
templates travel_planning = template "travel" "compare_itinerary_options" 20 false

unfoldable pub minimal_fields : WorkflowKind → List String
minimal_fields calendar_coordination = "availability" ∷ "attendees" ∷ "duration" ∷ []
minimal_fields email_triage_draft = "sender" ∷ "subject" ∷ "body_excerpt" ∷ "recipient" ∷ []
minimal_fields household_coordination = "shared_artifact" ∷ "members" ∷ []
minimal_fields document_web_research = "query" ∷ "approved_document_excerpt" ∷ []
minimal_fields travel_planning = "dates" ∷ "origin" ∷ "destination" ∷ "constraints" ∷ []
minimal_fields reminder_commitment_review = []
minimal_fields contact_recall = []

-- `set(xs).issubset(ys)`
abbrev pub is_subset : List String → List String → Bool
is_subset xs ys = all (λ x. elem x ys) xs

infixl 65 ◌+s◌
abbrev pub ◌+s◌ : String → String → String
s +s t = String.◌++◌ s t

-- The step of a plan: its provider's kind, its template, and what is disclosed.
unfoldable pub new_step : WorkflowRequest → FakeProvider → ℕ → WorkflowStep
new_step request provider attempt =
    let t = templates request.kind in
    let external = not (elem t.provider_kind ("tasks" ∷ "contacts" ∷ [])) in
    record {
      step_id = t.provider_kind +s "-1";
      capability = "phase7." +s t.provider_kind;
      action = t.action;
      provider = provider.provider_id;
      requires_approval = t.approval;
      external_call = external;
      reversible = true;
      recipient_ids = request.recipient_ids;
      disclosed_fields = if external then minimal_fields request.kind else [];
      attempt = attempt;
    }

unfoldable pub new_plan : String → WorkflowRequest → WorkflowStep → TaskPlan
new_plan plan_id request step = record {
  plan_id = plan_id;
  person_id = request.person_id;
  assistant_id = request.assistant_id;
  kind = request.kind;
  purpose = request.purpose;
  context_space_ids = request.context_space_ids;
  charter_constraints = request.charter_constraints;
  commitment_ids = request.commitment_ids;
  steps = step ∷ [];
  state = if (templates request.kind).approval then awaiting_approval else planned;
  idempotency_key = request.idempotency_key;
}

unfoldable pub new_execution : TaskPlan → WorkflowRequest → Execution
new_execution plan request = record {
  plan = plan;
  request = request;
  receipts = [];
  approvals = [];
  audit = "plan.created" ∷ "policy.context_allowed" ∷ "ranking.person_aligned" ∷ [];
  recovery_count = 0;
  cancelled = false;
}

-- `GovernedWorkflowEngine.plan`. The ranking check of unison_common, and the plan id and first
-- attempt number that its models fill in, are arguments.
unfoldable pub plan :
    (Dict Json → Bool)
    → String
    → ℕ
    → WorkflowRequest
    → Engine
    → Result EngineError (TaskPlan × Engine)
plan signals_ok plan_id attempt request e =
    if not (signals_ok request.ranking_signals)
    then err ranking_error
    else if is_empty request.context_space_ids
        || not (is_subset request.context_space_ids request.allowed_context_space_ids)
    then err (permission_error "workflow requested an unauthorized context space")
    else if not (is_subset request.recipient_ids request.allowed_recipient_ids)
    then err (permission_error "workflow requested a wrong-context recipient")
    else elim (lookup (templates request.kind).provider_kind e.providers) [
      | none ↦ err key_error
      | some provider ↦
          let p = new_plan plan_id request (new_step request provider attempt) in
          ok (p, record e { executions = insert plan_id (new_execution p request) e.executions })
    ]

-- `_step`
unfoldable pub find_step : String → List WorkflowStep → Option WorkflowStep
find_step step_id [] = none
find_step step_id (step ∷ steps) =
    if step.step_id == step_id then some step else find_step step_id steps

abbrev pub new_approval : String → String → String → String → List String → Bool → ApprovalRecord
new_approval plan_id step_id person_id exact_action exact_recipients approved = record {
  plan_id = plan_id;
  step_id = step_id;
  person_id = person_id;
  exact_action = exact_action;
  exact_recipients = exact_recipients;
  approved = approved;
}

-- The checks of `approve` once the execution and the step are found, and what it records.
unfoldable pub approve_step :
    String
    → String
    → String
    → String
    → List String
    → Bool
    → Execution
    → WorkflowStep
    → Result EngineError (ApprovalRecord × Execution)
approve_step plan_id step_id person_id exact_action exact_recipients approved x step =
    if not (person_id == x.plan.person_id)
    then err (permission_error "only the bound person may approve")
    else if not (exact_action == step.action && texts_eq exact_recipients step.recipient_ids)
    then err (permission_error "approval does not match exact action and recipients")
    else (let r = new_approval plan_id step_id person_id exact_action exact_recipients approved in
        ok (
          r,
          record x {
            approvals = insert step_id r x.approvals;
            audit = x.audit ++ (if approved then "approval.accepted" else "approval.denied") ∷ [];
          },
        ))

-- The changed execution goes back into its engine.
abbrev pub store :
    String
    → Engine
    → Result EngineError (ApprovalRecord × Execution)
    → Result EngineError (ApprovalRecord × Engine)
store plan_id e (ok (r, x)) = ok (r, record e { executions = insert plan_id x e.executions })
store plan_id e (err f) = err f

unfoldable pub approve :
    String
    → String
    → String
    → String
    → List String
    → Bool
    → Engine
    → Result EngineError (ApprovalRecord × Engine)
unfolding find_step approve_step
approve plan_id step_id person_id exact_action exact_recipients approved e =
    elim (lookup plan_id e.executions) [
      | none ↦ err key_error
      | some x ↦ elim (find_step step_id x.plan.steps) [
        | none ↦ err key_error
        | some step ↦
            store plan_id e
              (approve_step plan_id step_id person_id exact_action exact_recipients approved x step)
      ]
    ]

unfoldable pub items : List String → Items
items [] = nil
items (s ∷ ss) = cons (str s) (items ss)

-- `{key: content[key] for key in ... if key in content}`
unfoldable pub select : List String → Dict Json → Dict Json
select [] content = []
select (k ∷ ks) content = elim (lookup k content) [
  | none ↦ select ks content
  | some v ↦ (k, v) ∷ select ks content
]

unfoldable pub minimized_payload : WorkflowRequest → Dict Json
unfolding items
minimized_payload request =
    let chosen = select (sorted (minimal_fields request.kind)) request.content in
    let addressed =
      if is_empty request.recipient_ids
      then chosen
      else insert "recipient_ids" (arr (items request.recipient_ids)) chosen in
    insert "purpose" (str request.purpose) (erase "sponsored" (erase "instructions" addressed))
