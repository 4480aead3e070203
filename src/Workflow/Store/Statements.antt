-- ===== src/Workflow/Store/Statements.antt =====
-- The SQL statements of src/enterprise_agent/adapters/workflow_state.py, one definition for each:
-- what an UPDATE does to the row of the workflow, or to the rows of its steps.
use harmony_takehome.Prelude.{
  ℕ, ◌+◌, String, Bool, ◌&&◌, ◌||◌, not, Option, none, some, List, any, ◌==◌, nat_eq, string_eq,
  if◌then◌else◌,
}
use harmony_takehome.Json.{Fields, text, object, end, field}
use harmony_takehome.Domain.{
  Instant, WorkflowStatus, WorkflowStepStatus, WorkflowState, WorkflowStepState,
  WorkflowStateSnapshot, is_pending, is_running, is_failed, is_compensating, step_is_pending,
  step_is_running, step_is_succeeded, step_is_compensating,
}
use harmony_takehome.Workflow.Sql.{holds, after, not_after, is_null, is_not_null, coalesce, update}

-- The lease that every transition but a claim asks of the row: its owner is the worker, and it
-- expires after the instant of the transition.
abbrev pub lease_live : String → Instant → WorkflowState → Bool
lease_live worker at w = holds w.lease_owner worker && after w.lease_expires_at at

-- CLAIM_WORKFLOW
abbrev pub claimable : String → Instant → WorkflowState → Bool
claimable worker at w =
    is_pending w.status
    || (is_running w.status && (lease_live worker at w || not_after w.lease_expires_at at))

unfoldable pub claim_workflow : String → Instant → Instant → WorkflowState → Option WorkflowState
claim_workflow worker at expires w =
    if claimable worker at w
    then some (record w {
      status = WorkflowStatus.running;
      lease_owner = some worker;
      lease_expires_at = some expires;
      started_at = some (coalesce w.started_at at);
      updated_at = at;
    })
    else none

-- The conditions on the workflow row that the statements of a running step share.
abbrev pub at_step : String → ℕ → Instant → WorkflowState → Bool
at_step worker index at w =
    is_running w.status && lease_live worker at w && w.current_step + 1 == index

abbrev pub guard_result : Fields
guard_result = field "guard" (text "confirmed") end

-- COMPLETE_GUARD_STEP
abbrev pub guard_row : ℕ → WorkflowStepState → Bool
guard_row index s = s.step_index == index && is_null s.tool_name && step_is_pending s.status

abbrev pub guard_change : Instant → WorkflowStepState → WorkflowStepState
guard_change at row = record row {
  status = WorkflowStepStatus.succeeded;
  attempt_count = row.attempt_count + 1;
  started_at = some (coalesce row.started_at at);
  completed_at = some at;
  result = some guard_result;
  updated_at = at;
}

unfoldable pub complete_guard_row :
    String → ℕ → Instant → WorkflowStateSnapshot → Option (List WorkflowStepState)
unfolding update
complete_guard_row worker index at s =
    update (at_step worker index at s.workflow) (guard_row index) (guard_change at) s.steps

-- ADVANCE_WORKFLOW_AFTER_GUARD
unfoldable pub advance_after_guard : String → ℕ → Instant → WorkflowState → Option WorkflowState
advance_after_guard worker index at w =
    if at_step worker index at w
    then some (record w { current_step = index; updated_at = at })
    else none

-- START_TOOL_STEP
abbrev pub startable_row : ℕ → WorkflowStepState → Bool
startable_row index s = s.step_index == index && is_not_null s.tool_name && step_is_pending s.status

abbrev pub start_change :
    String → String → Instant → WorkflowState → WorkflowStepState → WorkflowStepState
start_change worker key at w row = record row {
  status = WorkflowStepStatus.running;
  idempotency_key = some key;
  attempt_count = row.attempt_count + 1;
  started_at = some (coalesce row.started_at at);
  lease_owner = some worker;
  lease_expires_at = w.lease_expires_at;
  updated_at = at;
}

unfoldable pub start_tool_row :
    String → ℕ → String → Instant → WorkflowStateSnapshot → Option (List WorkflowStepState)
unfolding update
start_tool_row worker index key at s =
    update (at_step worker index at s.workflow) (startable_row index)
      (start_change worker key at s.workflow) s.steps

-- The started row that COMPLETE_TOOL_STEP and FAIL_TOOL_STEP settle.
abbrev pub started_row : ℕ → String → WorkflowStepState → Bool
started_row index key s =
    s.step_index == index
    && is_not_null s.tool_name
    && step_is_running s.status
    && holds s.idempotency_key key

-- COMPLETE_TOOL_STEP
abbrev pub complete_change : Fields → Instant → WorkflowStepState → WorkflowStepState
complete_change result at row = record row {
  status = WorkflowStepStatus.succeeded;
  result = some result;
  completed_at = some at;
  lease_owner = none;
  lease_expires_at = none;
  updated_at = at;
}

unfoldable pub complete_tool_row :
    String → ℕ → String → Fields → Instant → WorkflowStateSnapshot → Option (List WorkflowStepState)
unfolding update
complete_tool_row worker index key result at s =
    update (at_step worker index at s.workflow) (started_row index key) (complete_change result at)
      s.steps

-- ADVANCE_WORKFLOW_AFTER_TOOL
unfoldable pub advance_after_tool :
    String → ℕ → Bool → Instant → WorkflowState → Option WorkflowState
advance_after_tool worker index finish at w =
    if at_step worker index at w
    then some (record w {
      current_step = index;
      status = if finish then WorkflowStatus.succeeded else w.status;
      completed_at = if finish then some at else w.completed_at;
      lease_owner = if finish then none else w.lease_owner;
      lease_expires_at = if finish then none else w.lease_expires_at;
      updated_at = at;
    })
    else none

-- FAIL_TOOL_STEP
abbrev pub fail_change : String → Instant → WorkflowStepState → WorkflowStepState
fail_change error at row = record row {
  status = WorkflowStepStatus.failed;
  error = some error;
  completed_at = some at;
  lease_owner = none;
  lease_expires_at = none;
  updated_at = at;
}

unfoldable pub fail_tool_row :
    String → ℕ → String → String → Instant → WorkflowStateSnapshot → Option (List WorkflowStepState)
unfolding update
fail_tool_row worker index key error at s =
    update (at_step worker index at s.workflow) (started_row index key) (fail_change error at)
      s.steps

-- FAIL_WORKFLOW_AFTER_TOOL
unfoldable pub fail_after_tool :
    String → ℕ → String → Instant → WorkflowState → Option WorkflowState
fail_after_tool worker index error at w =
    if at_step worker index at w
    then some
        (record w { status = WorkflowStatus.failed; last_error = some error; updated_at = at })
    else none

-- `tool_name IS NOT NULL AND status = 'succeeded'`: an external effect that is still in place.
abbrev pub is_effect : WorkflowStepState → Bool
is_effect s = is_not_null s.tool_name && step_is_succeeded s.status

-- BEGIN_COMPENSATION
unfoldable pub begin_row : String → Instant → WorkflowStateSnapshot → Option WorkflowState
begin_row worker at s =
    let w = s.workflow in
    let effects = any is_effect s.steps in
    if is_failed w.status && lease_live worker at w
    then some (record w {
      status = if effects then WorkflowStatus.compensating else WorkflowStatus.compensated;
      completed_at = if effects then w.completed_at else some at;
      lease_owner = if effects then w.lease_owner else none;
      lease_expires_at = if effects then w.lease_expires_at else none;
      updated_at = at;
    })
    else none

-- The conditions on the workflow row that the statements of a compensation share.
abbrev pub in_compensation : String → Instant → WorkflowState → Bool
in_compensation worker at w = is_compensating w.status && lease_live worker at w

-- START_COMPENSATION_STEP
abbrev pub effect_row : ℕ → WorkflowStepState → Bool
effect_row index s = s.step_index == index && is_effect s

abbrev pub unwind_change : String → Instant → WorkflowState → WorkflowStepState → WorkflowStepState
unwind_change worker at w row = record row {
  status = WorkflowStepStatus.compensating;
  lease_owner = some worker;
  lease_expires_at = w.lease_expires_at;
  updated_at = at;
}

unfoldable pub start_compensation_row :
    String → ℕ → Instant → WorkflowStateSnapshot → Option (List WorkflowStepState)
unfolding update
start_compensation_row worker index at s =
    update (in_compensation worker at s.workflow) (effect_row index)
      (unwind_change worker at s.workflow) s.steps

-- COMPLETE_COMPENSATION_STEP
abbrev pub unwinding_row : ℕ → WorkflowStepState → Bool
unwinding_row index s =
    s.step_index == index && is_not_null s.tool_name && step_is_compensating s.status

abbrev pub compensation_record : Option Fields → Fields → Fields
compensation_record effect result =
    field "effect" (object (coalesce effect end)) (field "compensation" (object result) end)

abbrev pub compensate_change : Fields → Instant → WorkflowStepState → WorkflowStepState
compensate_change result at row = record row {
  status = WorkflowStepStatus.compensated;
  result = some (compensation_record row.result result);
  completed_at = some at;
  lease_owner = none;
  lease_expires_at = none;
  updated_at = at;
}

unfoldable pub complete_compensation_row :
    String → ℕ → Fields → Instant → WorkflowStateSnapshot → Option (List WorkflowStepState)
unfolding update
complete_compensation_row worker index result at s =
    update (in_compensation worker at s.workflow) (unwinding_row index)
      (compensate_change result at) s.steps

-- FINISH_COMPENSATION, on the rows that COMPLETE_COMPENSATION_STEP has left
unfoldable pub finish_compensation :
    String → Instant → List WorkflowStepState → WorkflowState → Option WorkflowState
finish_compensation worker at steps w =
    if in_compensation worker at w && not (any is_effect steps)
    then some (record w {
      status = WorkflowStatus.compensated;
      completed_at = some at;
      lease_owner = none;
      lease_expires_at = none;
      updated_at = at;
    })
    else none
