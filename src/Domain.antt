-- ===== src/Domain.antt =====
-- src/enterprise_agent/domain/contracts.py: the immutable records shared by every component.
-- An instant is the number of microseconds since 0001-01-01T00:00 in the one fixed business
-- timezone, so that the order of datetimes is the order of numbers. Identifiers are texts.
mod Instants
mod SourceVersions
pub mod Attention
pub mod Triggers
mod Tests
unfoldable pub use Instants.*
unfoldable pub use SourceVersions.*
use harmony_takehome.Prelude.{ℕ, String, Bool, true, false, Option, List}
use harmony_takehome.Json.{Fields}
use harmony_takehome.Domain.Attention.{AttentionStatus}

-- A decimal is its canonical text `str(d)`, which determines it.
abbrev pub Decimal : Type 0
Decimal = String

pub data ApprovalStatus : Type 0 where
  pending rerouted approved rejected expired : ApprovalStatus

pub data ToolInvocationStatus : Type 0 where
  pending started succeeded failed compensated : ToolInvocationStatus

pub data WorkflowStatus : Type 0 where
  pending running succeeded failed compensating compensated : WorkflowStatus

pub data WorkflowStepStatus : Type 0 where
  pending running succeeded failed compensating compensated : WorkflowStepStatus

pub data ScheduledTaskStatus : Type 0 where
  pending claimed succeeded failed cancelled : ScheduledTaskStatus

-- `status is WorkflowStatus.X`, and the same for the other enumerations.
abbrev pub is_running : WorkflowStatus → Bool
is_running WorkflowStatus.running = true
is_running _ = false

abbrev pub is_failed : WorkflowStatus → Bool
is_failed WorkflowStatus.failed = true
is_failed _ = false

abbrev pub is_compensating : WorkflowStatus → Bool
is_compensating WorkflowStatus.compensating = true
is_compensating _ = false

abbrev pub is_compensated : WorkflowStatus → Bool
is_compensated WorkflowStatus.compensated = true
is_compensated _ = false

abbrev pub is_pending : WorkflowStatus → Bool
is_pending WorkflowStatus.pending = true
is_pending _ = false

abbrev pub step_is_pending : WorkflowStepStatus → Bool
step_is_pending WorkflowStepStatus.pending = true
step_is_pending _ = false

abbrev pub step_is_running : WorkflowStepStatus → Bool
step_is_running WorkflowStepStatus.running = true
step_is_running _ = false

abbrev pub step_is_succeeded : WorkflowStepStatus → Bool
step_is_succeeded WorkflowStepStatus.succeeded = true
step_is_succeeded _ = false

abbrev pub step_is_compensating : WorkflowStepStatus → Bool
step_is_compensating WorkflowStepStatus.compensating = true
step_is_compensating _ = false

pub record ActorContext : Type 0 where
  pub user_id : String
  pub role : String
  pub scopes : List String
  pub plant_ids : List String
  pub backup_approver_id : Option String
  pub approval_limits : List (String × Decimal)

pub record Evidence : Type 0 where
  pub evidence_id : String
  pub source : String
  pub record_type : String
  pub record_id : String
  pub source_version : ℕ
  pub observed_at : Instant
  pub payload : Fields

pub record AttentionItem : Type 0 where
  pub attention_id : String
  pub scenario : String
  pub cause : String
  pub dedupe_key : String
  pub status : AttentionStatus
  pub created_at : Instant
  pub source_versions : Versions
  pub resolved_at : Option Instant

pub record Plan : Type 0 where
  pub plan_id : String
  pub attention_id : String
  pub actor_id : String
  pub approver_id : String
  pub intent : String
  pub workflow_name : Option String
  pub workflow_version : Option ℕ
  pub parameters : Fields
  pub source_versions : Versions
  pub policy_version : String
  pub plan_hash : String
  pub created_at : Instant
  pub expires_at : Instant

pub record Approval : Type 0 where
  pub approval_id : String
  pub plan_id : String
  pub plan_hash : String
  pub requester_id : String
  pub approver_id : String
  pub status : ApprovalStatus
  pub requested_at : Instant
  pub expires_at : Instant
  pub decided_at : Option Instant

pub record WorkflowState : Type 0 where
  pub workflow_id : String
  pub plan_id : String
  pub definition_name : String
  pub definition_version : ℕ
  pub status : WorkflowStatus
  pub current_step : ℕ
  pub started_at : Option Instant
  pub completed_at : Option Instant
  pub last_error : Option String
  pub lease_owner : Option String
  pub lease_expires_at : Option Instant
  pub created_at : Instant
  pub updated_at : Instant

pub record WorkflowStepState : Type 0 where
  pub step_id : String
  pub workflow_id : String
  pub step_index : ℕ
  pub step_name : String
  pub tool_name : Option String
  pub status : WorkflowStepStatus
  pub idempotency_key : Option String
  pub input : Fields
  pub result : Option Fields
  pub error : Option String
  pub attempt_count : ℕ
  pub started_at : Option Instant
  pub completed_at : Option Instant
  pub lease_owner : Option String
  pub lease_expires_at : Option Instant
  pub created_at : Instant
  pub updated_at : Instant

pub record WorkflowStateSnapshot : Type 0 where
  pub workflow : WorkflowState
  pub steps : List WorkflowStepState

pub record ToolInvocation : Type 0 where
  pub invocation_id : String
  pub workflow_id : String
  pub tool_name : String
  pub idempotency_key : String
  pub status : ToolInvocationStatus
  pub parameters : Fields
  pub result : Option Fields
  pub attempt_count : ℕ
  pub started_at : Option Instant
  pub completed_at : Option Instant
  pub audit_run_id : Option String

pub record ToolCompensation : Type 0 where
  pub workflow_id : String
  pub tool_name : String
  pub action : String
  pub original_idempotency_key : String
  pub idempotency_key : String
  pub effect_result : Fields
  pub requested_at : Instant

pub record ScheduledTask : Type 0 where
  pub task_id : String
  pub task_type : String
  pub due_at : Instant
  pub status : ScheduledTaskStatus
  pub idempotency_key : String
  pub payload : Fields
  pub attempt_count : ℕ
  pub lease_expires_at : Option Instant
  pub completed_at : Option Instant

pub record AuditEvent : Type 0 where
  pub occurred_at : Instant
  pub event_type : String
  pub run_id : String
  pub actor_id : Option String
  pub attention_id : Option String
  pub workflow_id : Option String
  pub plan_id : Option String
  pub evidence_ids : List String
  pub payload : Fields
  pub policy_version : Option String
  pub plan_hash : Option String
  pub idempotency_key : Option String
  pub failure_category : Option String
