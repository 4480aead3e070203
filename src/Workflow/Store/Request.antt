-- ===== src/Workflow/Store/Request.antt =====
-- The methods of PostgresWorkflowStateAdapter that change a workflow, as one transaction each on
-- its snapshot, and the requests that workers may send in any order.
use harmony_takehome.Prelude.{
  ℕ, String, Bool, Option, none, some, List, Result, ok, err, if◌then◌else◌,
}
use harmony_takehome.Json.{Fields}
use harmony_takehome.Domain.{Instant, WorkflowState, WorkflowStepState, WorkflowStateSnapshot}
use harmony_takehome.Workflow.Store.Statements.{
  claim_workflow, complete_guard_row, advance_after_guard, start_tool_row, complete_tool_row,
  advance_after_tool, fail_tool_row, fail_after_tool, begin_row, start_compensation_row,
  complete_compensation_row, finish_compensation,
}

abbrev pub Transaction : Type 0
Transaction = Result String (Option WorkflowStateSnapshot)

-- A transaction that commits these rows, or returns `None` where the row was not updated.
abbrev pub with_workflow : List WorkflowStepState → Option WorkflowState → Transaction
with_workflow steps none = ok none
with_workflow steps (some w) = ok (some (record { workflow = w; steps = steps }))

abbrev pub with_steps : WorkflowState → Option (List WorkflowStepState) → Transaction
with_steps w none = ok none
with_steps w (some steps) = ok (some (record { workflow = w; steps = steps }))

-- The second statement of a transaction: it raises where it finds no row.
abbrev pub then_advance : String → List WorkflowStepState → Option WorkflowState → Transaction
then_advance message steps none = err message
then_advance message steps (some w) = ok (some (record { workflow = w; steps = steps }))

unfoldable pub claim : String → Instant → Instant → WorkflowStateSnapshot → Transaction
unfolding claim_workflow
claim worker at expires s = with_workflow s.steps (claim_workflow worker at expires s.workflow)

unfoldable pub complete_guard_step : String → ℕ → Instant → WorkflowStateSnapshot → Transaction
unfolding complete_guard_row advance_after_guard
complete_guard_step worker index at s = elim (complete_guard_row worker index at s) [
  | none ↦ ok none
  | some steps ↦
      then_advance "workflow cursor was lost while completing a declared guard" steps
        (advance_after_guard worker index at s.workflow)
]

unfoldable pub start_tool_step : String → ℕ → String → Instant → WorkflowStateSnapshot → Transaction
unfolding start_tool_row
start_tool_step worker index key at s = with_steps s.workflow (start_tool_row worker index key at s)

unfoldable pub complete_tool_step :
    String → ℕ → String → Fields → Bool → Instant → WorkflowStateSnapshot → Transaction
unfolding complete_tool_row advance_after_tool
complete_tool_step worker index key result finish at s =
    elim (complete_tool_row worker index key result at s) [
      | none ↦ ok none
      | some steps ↦
          then_advance "workflow cursor was lost while completing a declared tool" steps
            (advance_after_tool worker index finish at s.workflow)
    ]

unfoldable pub fail_tool_step :
    String → ℕ → String → String → Instant → WorkflowStateSnapshot → Transaction
unfolding fail_tool_row fail_after_tool
fail_tool_step worker index key error at s = elim (fail_tool_row worker index key error at s) [
  | none ↦ ok none
  | some steps ↦
      then_advance "workflow transition was lost while recording a tool failure" steps
        (fail_after_tool worker index error at s.workflow)
]

unfoldable pub begin_compensation : String → Instant → WorkflowStateSnapshot → Transaction
unfolding begin_row
begin_compensation worker at s = with_workflow s.steps (begin_row worker at s)

unfoldable pub start_compensation_step : String → ℕ → Instant → WorkflowStateSnapshot → Transaction
unfolding start_compensation_row
start_compensation_step worker index at s =
    with_steps s.workflow (start_compensation_row worker index at s)

unfoldable pub complete_compensation_step :
    String → ℕ → Fields → Bool → Instant → WorkflowStateSnapshot → Transaction
unfolding complete_compensation_row finish_compensation
complete_compensation_step worker index result finish at s =
    elim (complete_compensation_row worker index result at s) [
      | none ↦ ok none
      | some steps ↦
          if finish
          then then_advance "workflow compensation completion was lost" steps
              (finish_compensation worker at steps s.workflow)
          else ok (some (record { workflow = s.workflow; steps = steps }))
    ]

-- One call of the adapter by some worker at some instant.
pub data Request : Type 0 where
  claims : String → Instant → Instant → Request
  completes_guard : String → ℕ → Instant → Request
  starts_tool : String → ℕ → String → Instant → Request
  completes_tool : String → ℕ → String → Fields → Bool → Instant → Request
  fails_tool : String → ℕ → String → String → Instant → Request
  begins_compensation : String → Instant → Request
  starts_compensation : String → ℕ → Instant → Request
  completes_compensation : String → ℕ → Fields → Bool → Instant → Request

unfoldable pub perform : Request → WorkflowStateSnapshot → Transaction
unfolding claim complete_guard_step start_tool_step complete_tool_step fail_tool_step
    begin_compensation start_compensation_step complete_compensation_step
perform (claims worker at expires) = claim worker at expires
perform (completes_guard worker index at) = complete_guard_step worker index at
perform (starts_tool worker index key at) = start_tool_step worker index key at
perform (completes_tool worker index key result finish at) =
    complete_tool_step worker index key result finish at
perform (fails_tool worker index key error at) = fail_tool_step worker index key error at
perform (begins_compensation worker at) = begin_compensation worker at
perform (starts_compensation worker index at) = start_compensation_step worker index at
perform (completes_compensation worker index result finish at) =
    complete_compensation_step worker index result finish at

-- The worker and the instant of a request.
abbrev pub worker_of : Request → String
worker_of (claims worker at expires) = worker
worker_of (completes_guard worker index at) = worker
worker_of (starts_tool worker index key at) = worker
worker_of (completes_tool worker index key result finish at) = worker
worker_of (fails_tool worker index key error at) = worker
worker_of (begins_compensation worker at) = worker
worker_of (starts_compensation worker index at) = worker
worker_of (completes_compensation worker index result finish at) = worker

abbrev pub instant_of : Request → Instant
instant_of (claims worker at expires) = at
instant_of (completes_guard worker index at) = at
instant_of (starts_tool worker index key at) = at
instant_of (completes_tool worker index key result finish at) = at
instant_of (fails_tool worker index key error at) = at
instant_of (begins_compensation worker at) = at
instant_of (starts_compensation worker index at) = at
instant_of (completes_compensation worker index result finish at) = at

-- What a transaction leaves in the tables: a lost or rolled back one leaves the rows as they were.
abbrev pub committed : WorkflowStateSnapshot → Transaction → WorkflowStateSnapshot
committed s (ok none) = s
committed s (ok (some s')) = s'
committed s (err message) = s

unfoldable pub run_requests : List Request → WorkflowStateSnapshot → WorkflowStateSnapshot
unfolding perform
run_requests List.[] s = s
run_requests (List.◌∷◌ r rs) s = run_requests rs (committed s (perform r s))
