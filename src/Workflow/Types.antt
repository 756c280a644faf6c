-- ===== src/Workflow/Types.antt =====
-- The data of engine.py. The models of unison_common (TaskPlan, WorkflowStep, ApprovalRecord,
-- OutcomeEvidence, FailureRecovery) have the fields that the engine sets or reads.
use unison_orchestrator.Prelude.{ℕ, String, Bool, Option, List}
use unison_orchestrator.Prelude.Dict.{Dict}
use unison_orchestrator.Prelude.Json.{Json}
use unison_orchestrator.Workflow.Provider.{FakeProvider}

-- The members of unison_common's `WorkflowKind` that `_TEMPLATES` has.
pub data WorkflowKind : Type 0 where
  calendar_coordination email_triage_draft reminder_commitment_review household_coordination :
      WorkflowKind
  contact_recall document_web_research travel_planning : WorkflowKind

-- The members of `WorkflowState` that the engine uses.
pub data WorkflowState : Type 0 where
  planned awaiting_approval recoverable completed cancelled compensated : WorkflowState

pub data EngineError : Type 0 where
  permission_error : String → EngineError
  key_error index_error value_error ranking_error : EngineError

pub record WorkflowRequest : Type 0 where
  pub person_id : String
  pub assistant_id : String
  pub kind : WorkflowKind
  pub purpose : String
  pub context_space_ids : List String
  pub allowed_context_space_ids : List String
  pub recipient_ids : List String
  pub allowed_recipient_ids : List String
  pub charter_constraints : List String
  pub commitment_ids : List String
  pub content : Dict Json
  pub ranking_signals : Dict Json
  pub idempotency_key : String

pub record WorkflowStep : Type 0 where
  pub step_id : String
  pub capability : String
  pub action : String
  pub provider : String
  pub requires_approval : Bool
  pub external_call : Bool
  pub reversible : Bool
  pub recipient_ids : List String
  pub disclosed_fields : List String
  pub attempt : ℕ

pub record TaskPlan : Type 0 where
  pub plan_id : String
  pub person_id : String
  pub assistant_id : String
  pub kind : WorkflowKind
  pub purpose : String
  pub context_space_ids : List String
  pub charter_constraints : List String
  pub commitment_ids : List String
  pub steps : List WorkflowStep
  pub state : WorkflowState
  pub idempotency_key : String

pub record ApprovalRecord : Type 0 where
  pub plan_id : String
  pub step_id : String
  pub person_id : String
  pub exact_action : String
  pub exact_recipients : List String
  pub approved : Bool

pub record Execution : Type 0 where
  pub plan : TaskPlan
  pub request : WorkflowRequest
  pub receipts : List (String × String)
  pub approvals : Dict ApprovalRecord
  pub audit : List String
  pub recovery_count : ℕ
  pub cancelled : Bool

pub record FailureRecovery : Type 0 where
  pub failure_code : String
  pub failed_step_id : String
  pub safe_to_retry : Bool
  pub retry_count : ℕ
  pub compensation_actions : List String
  pub user_message : String

pub record OutcomeMetrics : Type 0 where
  pub administrative_tasks_completed : ℕ
  pub commitments_completed : ℕ
  pub interruptions_avoided : ℕ
  pub recoveries : ℕ
  pub external_calls : ℕ
  pub minimized_fields_disclosed : ℕ
  pub estimated_minutes_returned : ℕ
  pub boundary_incidents : ℕ

pub record OutcomeEvidence : Type 0 where
  pub plan_id : String
  pub person_id : String
  pub kind : WorkflowKind
  pub state : WorkflowState
  pub completed_step_ids : List String
  pub provider_receipts : List String
  pub recovery : Option FailureRecovery
  pub metrics : OutcomeMetrics
  pub audit_events : List String

pub record Engine : Type 0 where
  pub providers : Dict FakeProvider
  pub executions : Dict Execution
  pub outcomes : Dict OutcomeEvidence
