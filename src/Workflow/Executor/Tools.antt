-- ===== src/Workflow/Executor/Tools.antt =====
-- `begin_next_tool` and `execute_started_tool` of ScenarioAWorkflowExecutor.
use harmony_takehome.Prelude.{
  ℕ, ◌+◌, ◌-◌, String, Bool, true, false, not, none, some, get_elem?, pure, gets, lift, or_raise,
  raise_if, ◌>>=◌, ◌>>◌, ◌!=◌, string_eq, nat_eq, option_eq, if◌then◌else◌,
}
use harmony_takehome.Json.{Fields, end, field, text}
use harmony_takehome.Domain.{
  Instant, Versions, ActorContext, ToolInvocation, ToolInvocationStatus, WorkflowStepState,
  WorkflowStateSnapshot,
}
use harmony_takehome.Workflow.Tools.{ToolName, tool_value, authorized, build_tool_idempotency_key}
use harmony_takehome.Workflow.Declarations.{WorkflowStepDefinition, step_value}
use harmony_takehome.Workflow.Store.Request.{start_tool_step}
use harmony_takehome.Workflow.Store.Database.{load, transact}
use harmony_takehome.Workflow.Executor.Machine.{
  ToolExecutor, rejected, claim_lost, unavailable, identity_not_found, index_error, Ports, Exec,
  AuditFacts, store, record_audit, audit_run_id, value_checked,
}
use harmony_takehome.Workflow.Executor.Checks.{runnable, declared_definition}
use harmony_takehome.Workflow.Executor.Cursor.{
  next_step_is_started_external_tool, has_completed_external_tool, require_active_tool_lease,
}
use harmony_takehome.Workflow.Executor.Inputs.{tool_input_for_step}
use harmony_takehome.Workflow.Executor.Claim.{claim, claimed_step, workflow_facts}

pub record StartedToolExecution : Type 0 where
  pub actor : ActorContext
  pub invocation : ToolInvocation
  pub step_index : ℕ

-- The facts of an event about one tool.
abbrev pub tool_event : String → Instant → String → Fields → String → AuditFacts
tool_event event_type occurred_at actor_id payload key = record {
  event_type = event_type;
  occurred_at = occurred_at;
  payload = payload;
  actor_id = some actor_id;
  idempotency_key = some key;
  failure_category = none;
}

abbrev pub is_configured : {E : Type 0} → ToolExecutor E → Bool
is_configured ToolExecutor.absent = false
is_configured _ = true

abbrev pub attempts : Bool → ℕ → ℕ
attempts true count = count
attempts false count = 1

module _ {E : Type 0} (ports : Ports E) where
  -- The `resuming` branch keeps the stored start; the other commits a new one before any effect.
  unfoldable pub start_or_resume :
      WorkflowStateSnapshot
      → WorkflowStepDefinition
      → ToolName
      → ActorContext
      → WorkflowStepState
      → Bool
      → String
      → String
      → Instant
      → Exec E (Unit {0})
  unfolding transact start_tool_step record_audit step_value tool_value
  start_or_resume claimed next tool actor step true worker key started_at =
      raise_if (step.idempotency_key != some key)
        (rejected "workflow started tool idempotency key does not match its declared input")
  start_or_resume claimed next tool actor step false worker key started_at = do
    answer ←
        store
          (transact claimed.workflow.workflow_id (start_tool_step worker next.index key started_at))
    started ← or_raise answer (claim_lost "workflow tool start transition was not acquired")
    record_audit ports started (
        workflow_facts "workflow.step_started" started_at
          (field "step_name" (text (step_value next.name)) end))
    record_audit ports started (
        tool_event "tool.started" (started_at + 1) actor.user_id
          (field "tool_name" (text (tool_value tool)) end) key)

  -- The lease of a workflow that has already had effects, or a fresh claim.
  unfoldable pub leased :
      String
      → WorkflowStateSnapshot
      → String
      → Instant
      → Instant
      → Versions
      → Exec E WorkflowStateSnapshot
  unfolding has_completed_external_tool require_active_tool_lease claim
  leased id current worker now expires versions =
      if has_completed_external_tool current
      then lift (require_active_tool_lease worker now current)
      else claim ports id worker now expires versions

  -- `begin_next_tool`; `invocation_id` is the fresh `uuid4`.
  unfoldable pub begin_next_tool :
      String → String → String → Instant → Instant → Versions → Exec E StartedToolExecution
  unfolding load leased declared_definition next_step_is_started_external_tool authorized
      tool_input_for_step build_tool_idempotency_key start_or_resume audit_run_id
  begin_next_tool invocation_id id worker now expires versions = do
    raise_if (not (is_configured ports.tool_executor)) unavailable
    found ← gets (λ s. load id s.db)
    current ← or_raise found (rejected "workflow does not exist")
    claimed ← leased id current worker now expires versions
    binding ←
        or_raise (ports.load_for_plan claimed.workflow.plan_id)
          (rejected "workflow has no approval binding")
    definition ← lift (declared_definition ports claimed (some binding.0) runnable)
    let resuming = next_step_is_started_external_tool claimed
    next ← lift (claimed_step claimed definition)
    tool ← or_raise next.tool_name (rejected "workflow next step is a read-only guard")
    actor ← or_raise (ports.actor_for binding.0.actor_id) identity_not_found
    raise_if (not (authorized actor tool))
        (rejected "workflow actor no longer has the required write scope")
    step ← or_raise (get_elem? claimed.steps (next.index - 1)) index_error
    started_at ←
        or_raise (if resuming then step.started_at else some now)
          (rejected "workflow started tool has no start timestamp")
    input ← lift (tool_input_for_step ports claimed next started_at)
    key ← lift (
        value_checked
          (build_tool_idempotency_key ports.python claimed.workflow.workflow_id next.index input))
    start_or_resume claimed next tool actor step resuming worker key started_at
    run_id ← lift (audit_run_id claimed)
    pure (record {
      actor = actor;
      invocation = record {
        invocation_id = invocation_id;
        workflow_id = claimed.workflow.workflow_id;
        tool_name = tool_value tool;
        idempotency_key = key;
        status = ToolInvocationStatus.started;
        parameters = input.dump;
        result = none;
        attempt_count = attempts resuming step.attempt_count;
        started_at = some started_at;
        completed_at = none;
        audit_run_id = run_id;
      };
      step_index = next.index;
    })
