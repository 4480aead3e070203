-- ===== src/Workflow/Store/Consistency/Unwinding.antt =====
-- The invariant under the requests of a compensation.
use harmony_takehome.Prelude.{
  ℕ, ◌<◌, ◌≡◌, refl, sym, subst, Bool, true, false, ◌&&◌, none, some, any, arith, &&-true, inl, inr,
  String, ok, nat_eq, if◌then◌else◌, length, length-map,
}
use harmony_takehome.Json.{Fields}
use harmony_takehome.Domain.{
  is_failed, Instant, WorkflowStateSnapshot, WorkflowStatus, WorkflowStepState,
}
use harmony_takehome.Workflow.Sql.{changed}
use harmony_takehome.Workflow.Store.Statements.{
  in_compensation, is_effect, effect_row, lease_live, unwind_change, unwinding_row,
  compensate_change,
}
use harmony_takehome.Workflow.Store.Request.{
  Transaction, committed, begin_compensation, start_compensation_step, complete_compensation_step,
}
use harmony_takehome.Workflow.Store.Outcomes.{
  finishes, begin_compensation_outcome, start_compensation_step_outcome,
  complete_compensation_step_outcome,
}
use harmony_takehome.Workflow.Store.Progress.{
  IsDone, IsWaiting, Progress, IsIndexed-changed, Progress-weaken, Progress-kept,
}
use harmony_takehome.Workflow.Store.Consistency.{
  IsFailed, IsUnwound, Shape, IsConsistent, committed_by, Shape-at,
}

finished_by :
    {t : Transaction} {b effects : Bool} {s s' s'' : WorkflowStateSnapshot} (finish : Bool)
    → t ≡ (if b then finishes finish effects s' s'' else ok none)
    → IsConsistent s
    → (b ≡ true → IsConsistent s')
    → (b ≡ true → effects ≡ false → IsConsistent s'')
    → IsConsistent (committed s t)
finished_by {b = false} finish e c k l = rw e c
finished_by {b = true} false e c k l = rw e (k refl)
finished_by {b = true} {effects = false} true e c k l = rw e (l refl refl)
finished_by {b = true} {effects = true} true e c k l = rw e c

module _ (s : WorkflowStateSnapshot) (c : IsConsistent s) where
  begun-Shape :
      (effects : Bool) (at : Instant)
      → any is_effect s.steps ≡ effects
      → s.workflow.status ≡ WorkflowStatus.failed
      → Shape
          (if effects then WorkflowStatus.compensating else WorkflowStatus.compensated)
          (record s.workflow {
            status = if effects then WorkflowStatus.compensating else WorkflowStatus.compensated;
            completed_at = if effects then s.workflow.completed_at else some at;
            lease_owner = if effects then s.workflow.lease_owner else none;
            lease_expires_at = if effects then s.workflow.lease_expires_at else none;
            updated_at = at;
          })
          s.steps
  begun-Shape true at e f =
      let sh = Shape-at s c f in
      (
        sh.0,
        Progress-weaken IsDone IsUnwound IsFailed IsFailed (λ x d. inl d) (λ x h. h)
            s.workflow.current_step s.steps sh.1,
        sh.2,
      )
  begun-Shape false at e f =
      let sh = Shape-at s c f in
      (
        sh.0,
        Progress-weaken IsDone IsUnwound IsFailed IsFailed (λ x d. inl d) (λ x h. h)
            s.workflow.current_step s.steps sh.1,
        e,
        (refl, refl),
      )

  failed_status :
      (worker : String) (at : Instant)
      → (is_failed s.workflow.status && lease_live worker at s.workflow) ≡ true
      → s.workflow.status ≡ WorkflowStatus.failed
  failed_status worker at go = ground arith

  pub begin-IsConsistent :
      (worker : String) (at : Instant) → IsConsistent (committed s (begin_compensation worker at s))
  begin-IsConsistent worker at = committed_by (begin_compensation_outcome worker at s) c (λ go.
      record {
        indexed = c.indexed;
        shape = begun-Shape (any is_effect s.steps) at refl (failed_status worker at go);
      })

  module _ (worker : String) (at : Instant) (go : in_compensation worker at s.workflow ≡ true) where
    unwinding : s.workflow.status ≡ WorkflowStatus.compensating
    unwinding = ground arith

    unwinding-Shape : Shape WorkflowStatus.compensating s.workflow s.steps
    unwinding-Shape = Shape-at s c unwinding

    -- A row that is selected among the effects stays unwound, and no other row is touched.
    unwound :
        (test : WorkflowStepState → Bool) (change : WorkflowStepState → WorkflowStepState)
        → ((x : WorkflowStepState) → test x ≡ true → IsUnwound (change x))
        → ((x : WorkflowStepState) → IsFailed x → test x ≡ false)
        → ((x : WorkflowStepState) → IsWaiting x → test x ≡ false)
        → (s.workflow.current_step < length (changed test change s.steps))
          × Progress IsUnwound IsFailed s.workflow.current_step (changed test change s.steps)
    unwound test change step failed waiting = (
      omega (
        arith,
        unwinding-Shape.0,
        length-map (λ row. if test row then change row else row) s.steps,
      ),
      Progress-kept IsUnwound IsFailed test change (λ x h t. step x t) failed waiting
          s.workflow.current_step s.steps unwinding-Shape.1,
    )

  pub start_compensation-IsConsistent :
      (worker : String) (index : ℕ) (at : Instant)
      → IsConsistent (committed s (start_compensation_step worker index at s))
  start_compensation-IsConsistent worker index at =
      committed_by (start_compensation_step_outcome worker index at s) c (λ both.
        let (go, hit) = &&-true _ _ both in
        let kept =
          unwound worker at go (effect_row index) (unwind_change worker at s.workflow)
            (λ x t. inr (ground arith, inl refl)) (λ x f. ground arith) (λ x w. ground arith) in
        record {
          indexed =
              IsIndexed-changed (unwind_change worker at s.workflow) (λ x. refl) (effect_row index)
                1 s.steps c.indexed;
          shape =
              subst
                (λ status.
                  Shape status s.workflow
                    (changed (effect_row index) (unwind_change worker at s.workflow) s.steps))
                (sym (unwinding worker at go)) (kept.0, kept.1, (unwinding-Shape worker at go).2);
        })

  compensated_rows :
      (worker : String) (index : ℕ) (result : Fields) (at : Instant)
      → in_compensation worker at s.workflow ≡ true
      → let steps = changed (unwinding_row index) (compensate_change result at) s.steps in
        (s.workflow.current_step < length steps)
        × Progress IsUnwound IsFailed s.workflow.current_step steps
  compensated_rows worker index result at go =
      unwound worker at go (unwinding_row index) (compensate_change result at)
        (λ x t. inr (ground arith, inr refl)) (λ x f. ground arith) (λ x w. ground arith)

  pub complete_compensation-IsConsistent :
      (worker : String) (index : ℕ) (result : Fields) (finish : Bool) (at : Instant)
      → IsConsistent (committed s (complete_compensation_step worker index result finish at s))
  complete_compensation-IsConsistent worker index result finish at =
      finished_by finish (complete_compensation_step_outcome worker index at s result finish) c
        (λ both.
          let (go, hit) = &&-true _ _ both in
          let rows = compensated_rows worker index result at go in
          record {
            indexed =
                IsIndexed-changed (compensate_change result at) (λ x. refl) (unwinding_row index) 1
                  s.steps c.indexed;
            shape =
                subst
                  (λ status.
                    Shape status s.workflow
                      (changed (unwinding_row index) (compensate_change result at) s.steps))
                  (sym (unwinding worker at go)) (rows.0, rows.1, (unwinding-Shape worker at go).2);
          })
        (λ both gone.
          let (go, hit) = &&-true _ _ both in
          let rows = compensated_rows worker index result at go in
          record {
            indexed =
                IsIndexed-changed (compensate_change result at) (λ x. refl) (unwinding_row index) 1
                  s.steps c.indexed;
            shape = (rows.0, rows.1, gone, (refl, refl));
          })
