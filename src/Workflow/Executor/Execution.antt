-- ===== src/Workflow/Executor/Execution.antt =====
-- `execute_started_tool` of ScenarioAWorkflowExecutor: the effect, and then its result.
pub mod Gate
use harmony_takehome.Prelude.{
  ◌+◌, ◌-◌, String, Bool, true, false, not, ◌&&◌, ◌||◌, Option, none, some, get_elem?, length, ltb,
  pure, raise, gets, lift, or_raise, raise_if, ◌>>=◌, ◌>>◌, ◌==◌, string_eq, nat_eq, option_eq,
  if◌then◌else◌,
}
use harmony_takehome.Json
use harmony_takehome.Json.{Json, Fields, end, field, text}
use harmony_takehome.Text.{Python, is_blank, first_chars}
use harmony_takehome.Domain.{
  Instant, ActorContext, ToolInvocation, ToolInvocationStatus, WorkflowState, WorkflowStepState,
  WorkflowStateSnapshot, is_running,
}
use harmony_takehome.Workflow.Sql.{holds, after}
use harmony_takehome.Workflow.Tools.{ToolName, schedule_arrival_check, tool_value}
use harmony_takehome.Workflow.Declarations.{WorkflowDefinition, WorkflowStepDefinition, step_value}
use harmony_takehome.Workflow.Store.Request.{complete_tool_step, fail_tool_step}
use harmony_takehome.Workflow.Store.Database.{load, transact}
use harmony_takehome.Workflow.Executor.Machine.{
  ToolExecutor, ToolOutcome, returned, not_mapping, failed_for_good, raised, rejected, claim_lost,
  terminal, tool_raised, unavailable, crash_injected, Ports, Exec, store, record_audit, call_tool,
}
use harmony_takehome.Workflow.Executor.Checks.{runnable, declared_definition}
use harmony_takehome.Workflow.Executor.Cursor.{validate_started_tool}
use harmony_takehome.Workflow.Executor.Compensation.{compensate_failed_workflow}
use harmony_takehome.Workflow.Executor.Tools.{StartedToolExecution, tool_event}

-- `DeterministicCrashInjector.after_external_effect`: whether it raises.
unfoldable pub injects_at : ToolName → ToolInvocation → Bool
unfolding tool_value
injects_at target invocation = invocation.tool_name == tool_value target

-- `_safe_terminal_error`
unfoldable pub safe_terminal_error : Python → String → String
unfolding first_chars
safe_terminal_error python message =
    let category = first_chars 500 (python.strip message) in
    if category == "" then "terminal tool execution failed" else category

abbrev pub text_or_unknown : Option Json → String
text_or_unknown (some (Json.text value)) = if is_blank value then "unknown" else value
text_or_unknown _ = "unknown"

-- `_audit_result_text`
unfoldable pub audit_result_text : Fields → String → String
unfolding is_blank Json.get
audit_result_text result name = text_or_unknown (Json.get name result)

-- `invocation.started_at is None or completed_at < invocation.started_at`
abbrev pub begins_late : Option Instant → Instant → Bool
begins_late none at = true
begins_late (some started_at) at = ltb at started_at

abbrev pub is_started : ToolInvocationStatus → Bool
is_started ToolInvocationStatus.started = true
is_started _ = false

abbrev pub has_key : String → Option WorkflowStepState → Bool
has_key key none = false
has_key key (some step) = step.idempotency_key == some key

abbrev pub names_tool : String → Option ToolName → Bool
names_tool name none = false
names_tool name (some tool) = tool_value tool == name

-- The stored step, the started invocation and the live lease agree.
unfoldable pub may_execute :
    WorkflowStateSnapshot → WorkflowStepDefinition → StartedToolExecution → String → Instant → Bool
unfolding tool_value
may_execute snapshot next started worker at =
    let w = snapshot.workflow in
    next.index == started.step_index
    && names_tool started.invocation.tool_name next.tool_name
    && has_key started.invocation.idempotency_key (get_elem? snapshot.steps w.current_step)
    && is_running w.status
    && holds w.lease_owner worker
    && after w.lease_expires_at at

abbrev pub crashes : Option (ToolInvocation → Bool) → ToolInvocation → Bool
crashes none invocation = false
crashes (some injects) invocation = injects invocation

module _ {E : Type 0} (ports : Ports E) where
  -- The handler of a TerminalToolExecutionError: the failure is recorded, the completed effects are
  -- undone, and the exception is raised again.
  unfoldable pub after_terminal_error :
      WorkflowState
      → WorkflowStepDefinition
      → StartedToolExecution
      → String
      → Instant
      → String
      → Exec E WorkflowStateSnapshot
  unfolding transact fail_tool_step safe_terminal_error record_audit compensate_failed_workflow
  after_terminal_error w next started worker at message = do
    let invocation = started.invocation
    let category = safe_terminal_error ports.python message
    answer ← store (
        transact w.workflow_id
          (fail_tool_step worker next.index invocation.idempotency_key category at))
    failed ← or_raise answer (claim_lost "workflow terminal-failure transition was not acquired")
    record_audit ports failed (record {
      event_type = "tool.failed";
      occurred_at = at - 1;
      payload =
          field "tool_name" (text invocation.tool_name)
            (field "failure_category" (text category) end);
      actor_id = some started.actor.user_id;
      idempotency_key = some invocation.idempotency_key;
      failure_category = some category;
    })
    record_audit ports failed (record {
      event_type = "workflow.failed";
      occurred_at = at;
      payload = field "failure_category" (text category) end;
      actor_id = none;
      idempotency_key = none;
      failure_category = some category;
    })
    undone ← compensate_failed_workflow ports w.workflow_id worker at
    raise (terminal message)

  -- What follows a result mapping: the injected crash, or the commit of the result.
  unfoldable pub after_result :
      WorkflowState
      → WorkflowDefinition
      → WorkflowStepDefinition
      → StartedToolExecution
      → String
      → Instant
      → Fields
      → Exec E WorkflowStateSnapshot
  unfolding transact complete_tool_step record_audit audit_result_text step_value tool_value
  after_result w definition next started worker at result = do
    let invocation = started.invocation
    let user = started.actor.user_id
    let key = invocation.idempotency_key
    raise_if (crashes ports.crash_injector invocation) crash_injected
    answer ← store (
        transact w.workflow_id (
          complete_tool_step worker next.index key result (next.index == length definition.steps)
            at))
    completed ← or_raise answer (claim_lost "workflow tool completion transition was not acquired")
    record_audit ports completed (
        tool_event "tool.succeeded" (at - 1) user
          (field "tool_name" (text invocation.tool_name) end) key)
    record_audit ports completed (record {
      event_type = "workflow.step_completed";
      occurred_at = at;
      payload =
          field "step_name" (text (step_value next.name))
            (field "result" (text "tool-succeeded") end);
      actor_id = none;
      idempotency_key = some key;
      failure_category = none;
    })
    if invocation.tool_name == tool_value schedule_arrival_check
        then record_audit ports completed (
            tool_event "schedule.created" (at + 1) user
              (field "task_type" (text "arrival_check")
                (field "due_at" (text (audit_result_text result "due_at")) end))
              key)
        else pure tt
    pure completed

  abbrev pub after_effect :
      WorkflowState
      → WorkflowDefinition
      → WorkflowStepDefinition
      → StartedToolExecution
      → String
      → Instant
      → ToolOutcome
      → Exec E WorkflowStateSnapshot
  after_effect w definition next started worker at (returned result) =
      after_result w definition next started worker at result
  after_effect w definition next started worker at not_mapping =
      raise (rejected "tool result must be a mapping")
  after_effect w definition next started worker at (failed_for_good message) =
      after_terminal_error w next started worker at message
  after_effect w definition next started worker at (raised message) = raise (tool_raised message)

  module _ (execute : ActorContext → ToolInvocation → E → ToolOutcome × E)
      (started : StartedToolExecution) (worker : String) (at : Instant) where
    abbrev pub call_effect :
        WorkflowStateSnapshot
        → WorkflowDefinition
        → WorkflowStepDefinition
        → Exec E WorkflowStateSnapshot
    call_effect snapshot definition next = do
      outcome ← call_tool (execute started.actor started.invocation)
      after_effect snapshot.workflow definition next started worker at outcome

    -- The last check, of the lease and the durable start, and then the call.
    abbrev pub execute_next :
        WorkflowStateSnapshot
        → WorkflowDefinition
        → WorkflowStepDefinition
        → Exec E WorkflowStateSnapshot
    execute_next snapshot definition next = do
      raise_if (not (may_execute snapshot next started worker at))
          (claim_lost "workflow tool execution requires the active lease")
      call_effect snapshot definition next

    abbrev pub execute_declared :
        WorkflowStateSnapshot → WorkflowDefinition → Exec E WorkflowStateSnapshot
    execute_declared snapshot definition =
        lift (validate_started_tool snapshot definition) >>= execute_next snapshot definition

    abbrev pub execute_loaded : WorkflowStateSnapshot → Exec E WorkflowStateSnapshot
    execute_loaded snapshot =
        lift (declared_definition ports snapshot none runnable) >>= execute_declared snapshot

    abbrev pub execute_found : Exec E WorkflowStateSnapshot
    execute_found = do
      found ← gets (λ s. load started.invocation.workflow_id s.db)
      or_raise found (rejected "workflow does not exist") >>= execute_loaded

    -- `execute_started_tool`, with the adapter's `execute`
    unfoldable pub execute_with : Exec E WorkflowStateSnapshot
    unfolding load declared_definition validate_started_tool may_execute after_result
        after_terminal_error
    execute_with = do
      raise_if
          (not (is_started started.invocation.status)
            || begins_late started.invocation.started_at at)
          (rejected "tool invocation is not a valid started action")
      execute_found

  abbrev pub execute_by :
      ToolExecutor E → StartedToolExecution → String → Instant → Exec E WorkflowStateSnapshot
  execute_by ToolExecutor.absent started worker at = raise unavailable
  execute_by (ToolExecutor.effects_only execute) started worker at =
      execute_with execute started worker at
  execute_by (ToolExecutor.compensating execute call) started worker at =
      execute_with execute started worker at

  unfoldable pub execute_started_tool :
      StartedToolExecution → String → Instant → Exec E WorkflowStateSnapshot
  unfolding execute_with
  execute_started_tool started worker at = execute_by ports.tool_executor started worker at
