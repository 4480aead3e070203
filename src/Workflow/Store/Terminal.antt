-- ===== src/Workflow/Store/Terminal.antt =====
-- The requests on a workflow that has succeeded or has been compensated.
use harmony_takehome.Prelude.{◌≡◌, refl, ◌⊎◌, List, [], ◌∷◌, ok, none, arith}
use harmony_takehome.Domain.{WorkflowStatus, WorkflowStateSnapshot}
use harmony_takehome.Workflow.Store.Request.{Request, perform, run_requests}

abbrev pub IsFinal : WorkflowStateSnapshot → Type 0
IsFinal s =
    (s.workflow.status ≡ WorkflowStatus.succeeded)
    ⊎ (s.workflow.status ≡ WorkflowStatus.compensated)

final_refuses : (r : Request) (s : WorkflowStateSnapshot) → IsFinal s → perform r s ≡ ok none
unfolding perform
final_refuses (Request.claims worker at until) s f = ground arith
final_refuses (Request.completes_guard worker index at) s f = ground arith
final_refuses (Request.starts_tool worker index key at) s f = ground arith
final_refuses (Request.completes_tool worker index key result finish at) s f = ground arith
final_refuses (Request.fails_tool worker index key error at) s f = ground arith
final_refuses (Request.begins_compensation worker at) s f = ground arith
final_refuses (Request.starts_compensation worker index at) s f = ground arith
final_refuses (Request.completes_compensation worker index result finish at) s f = ground arith

-- A stored workflow whose status is succeeded or compensated is left exactly as it is by every
-- sequence of requests, of any workers and at any instants.
pub run_requests_final :
    (rs : List Request) (s : WorkflowStateSnapshot) → IsFinal s → run_requests rs s ≡ s
unfolding run_requests
run_requests_final [] s f = refl
run_requests_final (r ∷ rs) s f = rw (final_refuses r s f) (run_requests_final rs s f)
