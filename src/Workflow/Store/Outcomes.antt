-- ===== src/Workflow/Store/Outcomes.antt =====
-- The transactions of the store as one compare-and-swap each.
use harmony_takehome.Prelude.{
  ℕ, String, ◌≡◌, Bool, true, false, ◌&&◌, none, some, any, ok, err, arith, if◌then◌else◌,
}
use harmony_takehome.Json.{Fields}
use harmony_takehome.Domain.{Instant, WorkflowStatus, is_failed, WorkflowStateSnapshot}
use harmony_takehome.Workflow.Sql.{changed, coalesce}
use harmony_takehome.Workflow.Store.Statements.{
  claimable, lease_live, at_step, in_compensation, guard_row, guard_change, started_row,
  complete_change, fail_change, is_effect, effect_row, unwinding_row, compensate_change,
  startable_row, start_change, unwind_change,
}
use harmony_takehome.Workflow.Store.Request.{
  Transaction, claim, begin_compensation, complete_guard_step, start_tool_step, complete_tool_step,
  fail_tool_step, start_compensation_step, complete_compensation_step,
}

-- The transaction that commits a snapshot if its conditions hold, and returns `None` otherwise.
abbrev pub commits_if : Bool → WorkflowStateSnapshot → Transaction
commits_if condition s = if condition then ok (some s) else ok none

-- The end of a transaction that also closes the workflow if asked to: it raises, and so commits
-- nothing, where an effect is still in place.
abbrev pub finishes : Bool → Bool → WorkflowStateSnapshot → WorkflowStateSnapshot → Transaction
finishes false effects open_still closed = ok (some open_still)
finishes true false open_still closed = ok (some closed)
finishes true true open_still closed = err "workflow compensation completion was lost"

module _ (worker : String) (index : ℕ) (at : Instant) (s : WorkflowStateSnapshot) where
  pub complete_guard_step_outcome :
      complete_guard_step worker index at s
      ≡ commits_if (at_step worker index at s.workflow && any (guard_row index) s.steps) (record {
        workflow = record s.workflow { current_step = index; updated_at = at };
        steps = changed (guard_row index) (guard_change at) s.steps;
      })
  unfolding complete_guard_step
  complete_guard_step_outcome = ground arith

  pub start_tool_step_outcome :
      (key : String)
      → start_tool_step worker index key at s
        ≡ commits_if
            (at_step worker index at s.workflow && any (startable_row index) s.steps)
            (record s {
              steps = changed (startable_row index) (start_change worker key at s.workflow) s.steps;
            })
  unfolding start_tool_step
  start_tool_step_outcome key = ground arith

  pub complete_tool_step_outcome :
      (key : String) (result : Fields) (finish : Bool)
      → complete_tool_step worker index key result finish at s
        ≡ commits_if
            (at_step worker index at s.workflow && any (started_row index key) s.steps)
            (record {
              workflow = record s.workflow {
                current_step = index;
                status = if finish then WorkflowStatus.succeeded else s.workflow.status;
                completed_at = if finish then some at else s.workflow.completed_at;
                lease_owner = if finish then none else s.workflow.lease_owner;
                lease_expires_at = if finish then none else s.workflow.lease_expires_at;
                updated_at = at;
              };
              steps = changed (started_row index key) (complete_change result at) s.steps;
            })
  unfolding complete_tool_step
  complete_tool_step_outcome key result finish = ground arith

  pub fail_tool_step_outcome :
      (key error : String)
      → fail_tool_step worker index key error at s
        ≡ commits_if
            (at_step worker index at s.workflow && any (started_row index key) s.steps)
            (record {
              workflow = record s.workflow {
                status = WorkflowStatus.failed;
                last_error = some error;
                updated_at = at;
              };
              steps = changed (started_row index key) (fail_change error at) s.steps;
            })
  unfolding fail_tool_step
  fail_tool_step_outcome key error = ground arith

  pub start_compensation_step_outcome :
      start_compensation_step worker index at s
      ≡ commits_if
          (in_compensation worker at s.workflow && any (effect_row index) s.steps)
          (record s {
            steps = changed (effect_row index) (unwind_change worker at s.workflow) s.steps;
          })
  unfolding start_compensation_step
  start_compensation_step_outcome = ground arith

  -- For every worker, step and instant, every snapshot, every result, and whether or not it is
  -- asked to close the workflow: without the live lease of the worker on a compensating workflow,
  -- or without the step being compensated, the completion returns nothing; else it raises if it is
  -- to close a workflow with an effect still in place, and commits the compensated step otherwise,
  -- with the workflow closed if asked.
  pub complete_compensation_step_outcome :
      (result : Fields) (finish : Bool)
      → let steps = changed (unwinding_row index) (compensate_change result at) s.steps in
        complete_compensation_step worker index result finish at s ≡ (
          if in_compensation worker at s.workflow && any (unwinding_row index) s.steps
          then finishes finish
              (any is_effect steps)
              (record s { steps = steps })
              (record {
                workflow = record s.workflow {
                  status = WorkflowStatus.compensated;
                  completed_at = some at;
                  lease_owner = none;
                  lease_expires_at = none;
                  updated_at = at;
                };
                steps = steps;
              })
          else ok none)
  unfolding complete_compensation_step
  complete_compensation_step_outcome result finish = ground arith

pub claim_outcome :
    (worker : String) (at expires : Instant) (s : WorkflowStateSnapshot)
    → claim worker at expires s
      ≡ commits_if (claimable worker at s.workflow) (record s {
        workflow = record s.workflow {
          status = WorkflowStatus.running;
          lease_owner = some worker;
          lease_expires_at = some expires;
          started_at = some (coalesce s.workflow.started_at at);
          updated_at = at;
        };
      })
unfolding claim
claim_outcome worker at expires s = ground arith

pub begin_compensation_outcome :
    (worker : String) (at : Instant) (s : WorkflowStateSnapshot)
    → let effects = any is_effect s.steps in
      begin_compensation worker at s
      ≡ commits_if (is_failed s.workflow.status && lease_live worker at s.workflow) (record s {
        workflow = record s.workflow {
          status = if effects then WorkflowStatus.compensating else WorkflowStatus.compensated;
          completed_at = if effects then s.workflow.completed_at else some at;
          lease_owner = if effects then s.workflow.lease_owner else none;
          lease_expires_at = if effects then s.workflow.lease_expires_at else none;
          updated_at = at;
        };
      })
unfolding begin_compensation
begin_compensation_outcome worker at s = ground arith
