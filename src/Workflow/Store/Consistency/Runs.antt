-- ===== src/Workflow/Store/Consistency/Runs.antt =====
-- The invariant under sequences of requests.
use harmony_takehome.Prelude.{List, [], ◌∷◌}
use harmony_takehome.Domain.{WorkflowStateSnapshot}
use harmony_takehome.Workflow.Store.Request.{Request, perform, run_requests, committed}
use harmony_takehome.Workflow.Store.Consistency.{IsConsistent}
use harmony_takehome.Workflow.Store.Consistency.Running.{
  claim-IsConsistent, guard-IsConsistent, start-IsConsistent, complete-IsConsistent,
  fail-IsConsistent,
}
use harmony_takehome.Workflow.Store.Consistency.Unwinding.{
  begin-IsConsistent, start_compensation-IsConsistent, complete_compensation-IsConsistent,
}

perform-IsConsistent :
    (r : Request) (s : WorkflowStateSnapshot)
    → IsConsistent s
    → IsConsistent (committed s (perform r s))
unfolding perform
perform-IsConsistent (Request.claims worker at expires) s c =
    claim-IsConsistent s c worker at expires
perform-IsConsistent (Request.completes_guard worker index at) s c =
    guard-IsConsistent s c worker index at
perform-IsConsistent (Request.starts_tool worker index key at) s c =
    start-IsConsistent s c worker index key at
perform-IsConsistent (Request.completes_tool worker index key result finish at) s c =
    complete-IsConsistent s c worker index key result finish at
perform-IsConsistent (Request.fails_tool worker index key error at) s c =
    fail-IsConsistent s c worker index key error at
perform-IsConsistent (Request.begins_compensation worker at) s c = begin-IsConsistent s c worker at
perform-IsConsistent (Request.starts_compensation worker index at) s c =
    start_compensation-IsConsistent s c worker index at
perform-IsConsistent (Request.completes_compensation worker index result finish at) s c =
    complete_compensation-IsConsistent s c worker index result finish at

-- Whatever requests any workers send, in any order and at any instants, a stored workflow that is
-- consistent stays consistent: the steps before its cursor are done (or, once it has failed, done
-- or unwound), the step at the cursor fits the status, every later step is pending, and there is a
-- lease exactly while the workflow is running, failed or compensating.
pub run_requests-IsConsistent :
    (rs : List Request) (s : WorkflowStateSnapshot)
    → IsConsistent s
    → IsConsistent (run_requests rs s)
unfolding run_requests
run_requests-IsConsistent [] s c = c
run_requests-IsConsistent (r ∷ rs) s c =
    run_requests-IsConsistent rs (committed s (perform r s)) (perform-IsConsistent r s c)
