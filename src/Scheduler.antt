-- ===== src/Scheduler.antt =====
-- PostgresSchedulerAdapter of src/enterprise_agent/adapters/scheduler.py. The table is the list of
-- its tasks; the columns of creation and update are not read back and are left out. Every method is
-- one transaction. All instants carry the one timezone of the program.
pub mod Leases
pub mod Claims
pub mod Fairness
pub mod Replay
mod Tests
-- TESTS
use harmony_takehome.Prelude.{
  ℕ, suc, ◌+◌, String, Bool, true, false, ◌&&◌, ◌||◌, Option, none, some, List, [], ◌∷◌, ◌++◌, map,
  take, filter, sort_by, find, any, Result, ok, err, Action, pure, raise, raise_if, ◌>>◌, ◌==◌,
  ◌!=◌, nat_eq, string_eq, ltb, leb, nat_eqb, not, if◌then◌else◌,
}
use harmony_takehome.Json.{fields_eqb}
use harmony_takehome.Text.{is_blank, text_le}
use harmony_takehome.Domain.{Instant, ScheduledTask, ScheduledTaskStatus}
use harmony_takehome.Workflow.Sql.{after, not_after, is_null, is_not_null}

abbrev pub TaskDb : Type 0
TaskDb = List ScheduledTask

pub data SchedulerError : Type 0 where
  value_error idempotency_error claim_lost integrity_error : String → SchedulerError

abbrev pub is_new : ScheduledTaskStatus → Bool
is_new ScheduledTaskStatus.pending = true
is_new _ = false

abbrev pub is_claimed : ScheduledTaskStatus → Bool
is_claimed ScheduledTaskStatus.claimed = true
is_claimed _ = false

-- `_validate_new_task`
unfoldable pub validate_new_task : ScheduledTask → Action TaskDb SchedulerError (Unit {0})
unfolding is_blank
validate_new_task task =
    raise_if (not (is_new task.status)) (value_error "new scheduled tasks must be pending")
    >> raise_if (task.attempt_count != 0)
        (value_error "new scheduled tasks must have zero attempts")
    >> raise_if (is_not_null task.lease_expires_at || is_not_null task.completed_at)
        (value_error "new scheduled tasks cannot have a lease or completion timestamp")
    >> raise_if (is_blank task.task_type || is_blank task.idempotency_key)
        (value_error "scheduled task type and idempotency key must be nonblank")

-- `_matches_scheduled_task`
unfoldable pub matches_scheduled_task : ScheduledTask → ScheduledTask → Bool
unfolding fields_eqb
matches_scheduled_task row task =
    row.task_id == task.task_id
    && row.task_type == task.task_type
    && row.due_at == task.due_at
    && row.idempotency_key == task.idempotency_key
    && fields_eqb row.payload task.payload

abbrev pub has_key : String → ScheduledTask → Bool
has_key key row = row.idempotency_key == key

abbrev pub has_task_id : String → ScheduledTask → Bool
has_task_id id row = row.task_id == id

-- INSERT_SCHEDULED_TASK where no row has the key: the primary key may still refuse the row.
unfoldable pub insert_task : ScheduledTask → Action TaskDb SchedulerError (Unit {0})
insert_task task db =
    if any (has_task_id task.task_id) db
    then (err (integrity_error "duplicate key value violates unique constraint"), db)
    else (ok tt, db ++ task ∷ [])

-- Where a row has the key, the insertion does nothing, and that row has to agree.
unfoldable pub insert_or_replay :
    ScheduledTask → Option ScheduledTask → Action TaskDb SchedulerError (Unit {0})
unfolding insert_task matches_scheduled_task
insert_or_replay task none = insert_task task
insert_or_replay task (some existing) =
    raise_if (not (matches_scheduled_task existing task))
      (idempotency_error "scheduled task idempotency key is already bound to different task input")

unfoldable pub schedule : ScheduledTask → Action TaskDb SchedulerError (Unit {0})
unfolding validate_new_task insert_or_replay
schedule task = validate_new_task task >> λ db.
    insert_or_replay task (find (has_key task.idempotency_key) db) db

-- The condition of the rows that CLAIM_DUE_TASKS selects.
unfoldable pub claimable : Instant → ScheduledTask → Bool
claimable now task =
    (is_new task.status && leb task.due_at now)
    || (is_claimed task.status && not_after task.lease_expires_at now)

-- `ORDER BY due_at ASC, id ASC`, and `_task_order_key`
unfoldable pub task_before : ScheduledTask → ScheduledTask → Bool
unfolding text_le
task_before a b = ltb a.due_at b.due_at || (a.due_at == b.due_at && text_le a.task_id b.task_id)

-- What CLAIM_DUE_TASKS sets.
abbrev pub leased_task : Instant → ScheduledTask → ScheduledTask
leased_task expiry task = record task {
  status = ScheduledTaskStatus.claimed;
  attempt_count = suc task.attempt_count;
  lease_expires_at = some expiry;
}

-- The rows that the query may lock: `SKIP LOCKED` passes over those that concurrent transactions
-- hold, which are given by their identifiers.
unfoldable pub available : List String → Instant → ScheduledTask → Bool
unfolding claimable
available held now task = claimable now task && not (any (λ id. id == task.task_id) held)

-- The rows that the query locks.
unfoldable pub due_tasks : List String → Instant → ℕ → TaskDb → List ScheduledTask
unfolding available task_before
due_tasks held now limit db = take limit (sort_by task_before (filter (available held now) db))

-- The update joins the locked rows, which satisfy its condition, by their primary key.
unfoldable pub is_due : Instant → List ScheduledTask → ScheduledTask → Bool
unfolding claimable
is_due now due task = claimable now task && any (has_task_id task.task_id) due

-- CLAIM_DUE_TASKS. The updated rows come in no order and are sorted again.
unfoldable pub claim_locked :
    ℕ → List String → Instant → ℕ → Action TaskDb SchedulerError (List ScheduledTask)
unfolding due_tasks is_due task_before
claim_locked duration held now limit db =
    let due = due_tasks held now limit db in
    (
      ok (sort_by task_before (map (leased_task (now + duration)) due)),
      map (λ row. if is_due now due row then leased_task (now + duration) row else row) db,
    )

-- `claim_due`, with the lease duration of the adapter and the rows that others hold.
unfoldable pub claim_due :
    ℕ → List String → Instant → ℕ → Action TaskDb SchedulerError (List ScheduledTask)
unfolding claim_locked
claim_due duration held now limit =
    raise_if (limit == 0) (value_error "scheduled task claim limit must be positive")
    >> claim_locked duration held now limit

-- The condition of MARK_TASK_SUCCEEDED, and what it sets.
unfoldable pub completable : String → Instant → ScheduledTask → Bool
completable id at task =
    task.task_id == id && is_claimed task.status && after task.lease_expires_at at

abbrev pub completed_task : Instant → ScheduledTask → ScheduledTask
completed_task at task = record task {
  status = ScheduledTaskStatus.succeeded;
  lease_expires_at = none;
  completed_at = some at;
}

unfoldable pub mark_succeeded : String → Instant → Action TaskDb SchedulerError (Unit {0})
unfolding completable
mark_succeeded id at db =
    if any (completable id at) db
    then (ok tt, map (λ row. if completable id at row then completed_task at row else row) db)
    else (err (claim_lost "scheduled task is not claimed with a live lease for completion"), db)

-- One call of the adapter.
pub data Request : Type 0 where
  schedules : ScheduledTask → Request
  claims : List String → Instant → ℕ → Request
  succeeds : String → Instant → Request

unfoldable pub perform : ℕ → Request → TaskDb → TaskDb
unfolding schedule claim_due mark_succeeded
perform duration (schedules task) db = (schedule task db).1
perform duration (claims held now limit) db = (claim_due duration held now limit db).1
perform duration (succeeds id at) db = (mark_succeeded id at db).1

unfoldable pub run_requests : ℕ → List Request → TaskDb → TaskDb
unfolding perform
run_requests duration [] db = db
run_requests duration (r ∷ rs) db = run_requests duration rs (perform duration r db)
