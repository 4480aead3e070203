-- ===== src/Workflow/Store/Consistency/Running.antt =====
-- The invariant under the requests of a running workflow: the claim, the guards and the tools.
use harmony_takehome.Prelude.{
  ℕ, suc, ◌+◌, ◌<◌, ◌≡◌, refl, sym, subst, Bool, true, false, none, some, List, any, arith, &&-true,
  inl, inr, String, nat_eq, if◌then◌else◌, length, length-map,
}
use harmony_takehome.Json.{Fields}
use harmony_takehome.Domain.{
  Instant, WorkflowState, WorkflowStateSnapshot, WorkflowStatus, WorkflowStepState,
}
use harmony_takehome.Workflow.Sql.{changed}
use harmony_takehome.Workflow.Store.Statements.{
  at_step, claimable, guard_row, guard_change, startable_row, start_change, started_row,
  complete_change, fail_change,
}
use harmony_takehome.Workflow.Store.Request.{
  committed, claim, complete_guard_step, start_tool_step, complete_tool_step, fail_tool_step,
}
use harmony_takehome.Workflow.Store.Outcomes.{
  claim_outcome, complete_guard_step_outcome, start_tool_step_outcome, complete_tool_step_outcome,
  fail_tool_step_outcome,
}
use harmony_takehome.Workflow.Store.Progress.{
  Selects, IsDone, IsWaiting, Progress, IsIndexed-changed, Progress-changed, selected_within,
  Progress-advance,
}
use harmony_takehome.Workflow.Store.Consistency.{
  IsReady, IsFailed, IsHeld, Shape, IsConsistent, Progress-start, running_at_step, claimable_status,
  committed_by, Shape-at,
}

module _ (s : WorkflowStateSnapshot) (c : IsConsistent s) where
  claimed-Progress :
      (worker : String) (at : Instant)
      → claimable worker at s.workflow ≡ true
      → Progress IsDone IsReady s.workflow.current_step s.steps
  claimed-Progress worker at go = elim (claimable_status worker at s.workflow go) [
    | inl e ↦ let sh = Shape-at s c e in rw sh.0 (Progress-start s.steps sh.1)
    | inr e ↦ (Shape-at s c e).0
  ]

  pub claim-IsConsistent :
      (worker : String) (at expires : Instant)
      → IsConsistent (committed s (claim worker at expires s))
  claim-IsConsistent worker at expires =
      committed_by (claim_outcome worker at expires s) c (λ go. record {
        indexed = c.indexed;
        shape = (claimed-Progress worker at go, (refl, refl));
      })

  module _ (worker : String) (index : ℕ) (at : Instant)
      (go : at_step worker index at s.workflow ≡ true) where
    status_running : s.workflow.status ≡ WorkflowStatus.running
    status_running = (running_at_step worker index at s.workflow go).0

    index_next : index ≡ 1 + s.workflow.current_step
    index_next = (running_at_step worker index at s.workflow go).1

    index_suc : index ≡ suc s.workflow.current_step
    index_suc = omega (arith, index_next)

    running_shape : Progress IsDone IsReady s.workflow.current_step s.steps × IsHeld s.workflow
    running_shape = Shape-at s c status_running

    -- A row that is selected at the next index and ends `succeeded` lets the cursor move on.
    advanced :
        (test : WorkflowStepState → Bool) (change : WorkflowStepState → WorkflowStepState)
        → Selects test index
        → ((x : WorkflowStepState) → IsDone (change x))
        → any test s.steps ≡ true
        → (head : WorkflowStepState → Type 0) → ((x : WorkflowStepState) → IsWaiting x → head x)
        → Progress IsDone head index (changed test change s.steps)
    advanced test change selects done hit head ready =
        let cursor = s.workflow.current_step in
        let within =
          selected_within test change index selects 1 cursor s.steps index_next c.indexed hit in
        let moved =
          Progress-changed test change index selects IsDone IsReady IsDone (λ x h t. done x) 1
            cursor s.steps index_next c.indexed hit running_shape.0 in
        subst (λ n. Progress IsDone head n (changed test change s.steps)) (sym index_suc)
          (Progress-advance IsDone head ready cursor (changed test change s.steps)
            (omega
              (arith, within, length-map (λ row. if test row then change row else row) s.steps))
            moved)

    -- The same where the row at the cursor keeps the cursor.
    settled :
        (test : WorkflowStepState → Bool) (change : WorkflowStepState → WorkflowStepState)
        → Selects test index
        → (head : WorkflowStepState → Type 0)
        → ((x : WorkflowStepState) → test x ≡ true → head (change x))
        → any test s.steps ≡ true
        → Progress IsDone head s.workflow.current_step (changed test change s.steps)
    settled test change selects head step hit =
        Progress-changed test change index selects IsDone IsReady head (λ x h t. step x t) 1
          s.workflow.current_step s.steps index_next c.indexed hit running_shape.0

    cursor_within :
        (test : WorkflowStepState → Bool) (change : WorkflowStepState → WorkflowStepState)
        → Selects test index
        → any test s.steps ≡ true
        → s.workflow.current_step < length (changed test change s.steps)
    cursor_within test change selects hit = omega (
      arith,
      selected_within test change index selects 1 s.workflow.current_step s.steps index_next
          c.indexed hit,
      length-map (λ row. if test row then change row else row) s.steps,
    )

    -- A shape of a running workflow, at the status that the row still has.
    still_running :
        (w : WorkflowState) (steps : List WorkflowStepState)
        → Shape WorkflowStatus.running w steps
        → Shape s.workflow.status w steps
    still_running w steps = subst (λ status. Shape status w steps) (sym status_running)

  pub guard-IsConsistent :
      (worker : String) (index : ℕ) (at : Instant)
      → IsConsistent (committed s (complete_guard_step worker index at s))
  guard-IsConsistent worker index at =
      committed_by (complete_guard_step_outcome worker index at s) c (λ both.
        let (go, hit) = &&-true _ _ both in
        record {
          indexed =
              IsIndexed-changed (guard_change at) (λ x. refl) (guard_row index) 1 s.steps c.indexed;
          shape = still_running worker index at go _ _ (
            advanced worker index at go (guard_row index) (guard_change at) (λ x t. ground arith)
                (λ x. refl) hit IsReady (λ x. inl),
            (running_shape worker index at go).1,
          );
        })

  pub start-IsConsistent :
      (worker : String) (index : ℕ) (key : String) (at : Instant)
      → IsConsistent (committed s (start_tool_step worker index key at s))
  start-IsConsistent worker index key at =
      committed_by (start_tool_step_outcome worker index at s key) c (λ both.
        let (go, hit) = &&-true _ _ both in
        record {
          indexed =
              IsIndexed-changed (start_change worker key at s.workflow) (λ x. refl)
                (startable_row index) 1 s.steps c.indexed;
          shape = still_running worker index at go _ _ (
            settled worker index at go (startable_row index) (start_change worker key at s.workflow)
                (λ x t. ground arith) IsReady (λ x t. inr (refl, ground arith, refl)) hit,
            (running_shape worker index at go).1,
          );
        })

  completed-Shape :
      (worker : String) (index : ℕ) (key : String) (result : Fields) (finish : Bool) (at : Instant)
      (go : at_step worker index at s.workflow ≡ true)
      (hit : any (started_row index key) s.steps ≡ true)
      → Shape
          (if finish then WorkflowStatus.succeeded else s.workflow.status)
          (record s.workflow {
            current_step = index;
            status = if finish then WorkflowStatus.succeeded else s.workflow.status;
            completed_at = if finish then some at else s.workflow.completed_at;
            lease_owner = if finish then none else s.workflow.lease_owner;
            lease_expires_at = if finish then none else s.workflow.lease_expires_at;
            updated_at = at;
          })
          (changed (started_row index key) (complete_change result at) s.steps)
  completed-Shape worker index key result true at go hit = (
    advanced worker index at go (started_row index key) (complete_change result at)
        (λ x t. ground arith) (λ x. refl) hit IsWaiting (λ x w. w),
    (refl, refl),
  )
  completed-Shape worker index key result false at go hit = still_running worker index at go _ _ (
    advanced worker index at go (started_row index key) (complete_change result at)
        (λ x t. ground arith) (λ x. refl) hit IsReady (λ x. inl),
    (running_shape worker index at go).1,
  )

  pub complete-IsConsistent :
      (worker : String) (index : ℕ) (key : String) (result : Fields) (finish : Bool) (at : Instant)
      → IsConsistent (committed s (complete_tool_step worker index key result finish at s))
  complete-IsConsistent worker index key result finish at =
      committed_by (complete_tool_step_outcome worker index at s key result finish) c (λ both.
        let (go, hit) = &&-true _ _ both in
        record {
          indexed =
              IsIndexed-changed (complete_change result at) (λ x. refl) (started_row index key) 1
                s.steps c.indexed;
          shape = completed-Shape worker index key result finish at go hit;
        })

  pub fail-IsConsistent :
      (worker : String) (index : ℕ) (key error : String) (at : Instant)
      → IsConsistent (committed s (fail_tool_step worker index key error at s))
  fail-IsConsistent worker index key error at =
      committed_by (fail_tool_step_outcome worker index at s key error) c (λ both.
        let (go, hit) = &&-true _ _ both in
        record {
          indexed =
              IsIndexed-changed (fail_change error at) (λ x. refl) (started_row index key) 1 s.steps
                c.indexed;
          shape = (
            cursor_within worker index at go (started_row index key) (fail_change error at)
                (λ x t. ground arith) hit,
            settled worker index at go (started_row index key) (fail_change error at)
                (λ x t. ground arith) IsFailed (λ x t. refl) hit,
            (running_shape worker index at go).1,
          );
        })
