-- ===== src/Workflow/Store/Consistency.antt =====
-- The invariant of a stored workflow.
pub mod Running
pub mod Unwinding
pub mod Runs
use harmony_takehome.Prelude.{
  ℕ, zero, suc, ◌+◌, ◌<◌, ◌≡◌, refl, sym, subst, ◌⊎◌, Bool, true, false, ◌&&◌, Option, none, some,
  List, [], ◌∷◌, any, map, All, arith, Bool-cases, &&-true, inl, inr, String, ok, err, ◌==◌, nat_eq,
  if◌then◌else◌, length, length-map, nat_eqb_iff,
}
use harmony_takehome.Json.{Fields}
use harmony_takehome.Domain.{
  Instant, WorkflowState, WorkflowStateSnapshot, WorkflowStatus, WorkflowStepState,
  WorkflowStepStatus,
}
use harmony_takehome.Workflow.Sql.{is_null, is_not_null, changed}
use harmony_takehome.Workflow.Store.Statements.{
  at_step, in_compensation, claimable, guard_row, guard_change, startable_row, start_change,
  started_row, complete_change, fail_change, is_effect, unwind_change, unwinding_row,
  compensate_change,
}
use harmony_takehome.Workflow.Store.Request.{
  Request, Transaction, perform, run_requests, committed, claim, complete_guard_step,
  start_tool_step, complete_tool_step, fail_tool_step, begin_compensation, start_compensation_step,
  complete_compensation_step,
}
use harmony_takehome.Workflow.Store.Outcomes.{
  commits_if, claim_outcome, complete_guard_step_outcome, start_tool_step_outcome,
  complete_tool_step_outcome, fail_tool_step_outcome, begin_compensation_outcome,
  start_compensation_step_outcome, complete_compensation_step_outcome,
}
use harmony_takehome.Workflow.Store.Progress.{
  IsIndexed, Selects, IsDone, IsWaiting, IsStarted, Progress, IsIndexed-changed, Progress-changed,
  selected_within, Progress-advance, Progress-weaken, Progress-kept,
}

-- What may stand at the cursor of a running workflow.
abbrev pub IsReady : WorkflowStepState → Type 0
IsReady x = IsWaiting x ⊎ IsStarted x

abbrev pub IsFailed : WorkflowStepState → Type 0
IsFailed x = x.status ≡ WorkflowStepStatus.failed

-- A step before the cursor of a workflow that unwinds: still succeeded, or an effect that is being
-- or has been compensated.
abbrev pub IsUnwound : WorkflowStepState → Type 0
IsUnwound x =
    IsDone x
    ⊎ ((is_not_null x.tool_name ≡ true)
        × ((x.status ≡ WorkflowStepStatus.compensating)
            ⊎ (x.status ≡ WorkflowStepStatus.compensated)))

abbrev pub IsHeld : WorkflowState → Type 0
IsHeld w = (is_not_null w.lease_owner ≡ true) × (is_not_null w.lease_expires_at ≡ true)

abbrev pub IsFree : WorkflowState → Type 0
IsFree w = (w.lease_owner ≡ none) × (w.lease_expires_at ≡ none)

-- What the status of the workflow says of its cursor, its steps and its lease.
abbrev pub Shape : WorkflowStatus → WorkflowState → List WorkflowStepState → Type 0
Shape WorkflowStatus.pending w steps = (w.current_step ≡ 0) × All IsWaiting steps × IsFree w
Shape WorkflowStatus.running w steps = Progress IsDone IsReady w.current_step steps × IsHeld w
Shape WorkflowStatus.succeeded w steps = Progress IsDone IsWaiting w.current_step steps × IsFree w
Shape WorkflowStatus.failed w steps =
    (w.current_step < length steps) × Progress IsDone IsFailed w.current_step steps × IsHeld w
Shape WorkflowStatus.compensating w steps =
    (w.current_step < length steps) × Progress IsUnwound IsFailed w.current_step steps × IsHeld w
Shape WorkflowStatus.compensated w steps =
    (w.current_step < length steps)
    × Progress IsUnwound IsFailed w.current_step steps
    × (any is_effect steps ≡ false)
    × IsFree w

pub record IsConsistent (s : WorkflowStateSnapshot) : Type 0 where
  pub indexed : IsIndexed 1 s.steps
  pub shape : Shape s.workflow.status s.workflow s.steps

pub Progress-start :
    (steps : List WorkflowStepState) → All IsWaiting steps → Progress IsDone IsReady 0 steps
Progress-start [] h = tt
Progress-start (x ∷ steps) h = (inl h.0, h.1)

-- The conditions that a statement found on the row of the workflow.
pub running_at_step :
    (worker : String) (index : ℕ) (at : Instant) (w : WorkflowState)
    → at_step worker index at w ≡ true
    → (w.status ≡ WorkflowStatus.running) × (index ≡ 1 + w.current_step)
running_at_step worker index at w h = ground arith

pub claimable_status :
    (worker : String) (at : Instant) (w : WorkflowState)
    → claimable worker at w ≡ true
    → (w.status ≡ WorkflowStatus.pending) ⊎ (w.status ≡ WorkflowStatus.running)
claimable_status worker at w h = ground arith

-- It is enough to look at the snapshot that a transaction commits.
pub committed_by :
    {t : Transaction} {b : Bool} {s s' : WorkflowStateSnapshot}
    → t ≡ commits_if b s'
    → IsConsistent s
    → (b ≡ true → IsConsistent s')
    → IsConsistent (committed s t)
committed_by {b = true} e c k = rw e (k refl)
committed_by {b = false} e c k = rw e c

module _ (s : WorkflowStateSnapshot) (c : IsConsistent s) where
  pub Shape-at :
      {status : WorkflowStatus} → s.workflow.status ≡ status → Shape status s.workflow s.steps
  Shape-at e = subst (λ status. Shape status s.workflow s.steps) e c.shape
