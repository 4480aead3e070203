-- ===== src/Scheduler/Replay.antt =====
-- Replays of a schedule, and the keys of the stored tasks.
use harmony_takehome.Prelude.{
  String, ℕ, ◌+◌, ◌≡◌, refl, ap, subst, sym, Bool, true, false, not, Option, none, some, List, [],
  ◌∷◌, ◌++◌, map, find, any, arith, Distinct, Distinct-map, Distinct-snoc, ◌==◌, string_eq, nat_eq,
  if◌then◌else◌, if-cases, find-map, Result, ok, err, continue, raise_if, same_refl, bind_inv,
}
use harmony_takehome.Json.{fields_eqb}
use harmony_takehome.Domain.{Instant, ScheduledTask}
use harmony_takehome.Scheduler.{
  TaskDb, Request, schedules, claims, succeeds, perform, run_requests, completable, claim_due,
  mark_succeeded, schedule, SchedulerError, value_error, leased_task, completed_task, is_due,
  due_tasks, claim_locked, has_task_id, has_key, insert_task, insert_or_replay, validate_new_task,
  matches_scheduled_task, idempotency_error, integrity_error,
}
use harmony_takehome.Scheduler.Leases.{
  Stepped, same, added, schedule-Stepped, found-Stepped, raise_if-state,
}

-- What every request keeps: the step adds a task, or changes tasks in what a claim or a success sets.
module _ (P : TaskDb → Type 0) (grown : (db db' : TaskDb) → Stepped db db' → P db → P db')
    (leased : (expiry : Instant) (test : ScheduledTask → Bool) (db : TaskDb)
      → P db
      → P (map (λ row. if test row then leased_task expiry row else row) db))
    (done : (at : Instant) (test : ScheduledTask → Bool) (db : TaskDb)
      → P db
      → P (map (λ row. if test row then completed_task at row else row) db)) where
  claim_due-keeps :
      (duration : ℕ) (held : List String) (now : Instant) (limit : ℕ) (db : TaskDb)
      → P db
      → P (claim_due duration held now limit db).1
  unfolding claim_due claim_locked
  claim_due-keeps duration held now limit db h =
      checked (raise_if (limit == 0) (value_error "scheduled task claim limit must be positive") db)
        (raise_if-state (limit == 0) (value_error "scheduled task claim limit must be positive") db)
    where
      checked :
          (p : Result SchedulerError (Unit {0}) × TaskDb)
          → p.1 ≡ db
          → P (continue p.0 (λ _. claim_locked duration held now limit) p.1).1
      checked (ok x, db') e =
          rw e (leased (now + duration) (is_due now (due_tasks held now limit db)) db h)
      checked (err x, db') e = rw e h

  perform-keeps : (duration : ℕ) (r : Request) (db : TaskDb) → P db → P (perform duration r db)
  unfolding perform mark_succeeded
  perform-keeps duration (schedules task) db h =
      grown db (schedule task db).1 (schedule-Stepped task db) h
  perform-keeps duration (claims held now limit) db h = claim_due-keeps duration held now limit db h
  perform-keeps duration (succeeds id at) db h =
      if-cases (λ (p : Result SchedulerError (Unit {0}) × TaskDb). P p.1)
        (any (completable id at) db) _ _ (λ e. done at (completable id at) db h) (λ e. h)

  pub run_requests-keeps :
      (duration : ℕ) (rs : List Request) (db : TaskDb) → P db → P (run_requests duration rs db)
  unfolding run_requests
  run_requests-keeps duration [] db h = h
  run_requests-keeps duration (r ∷ rs) db h =
      run_requests-keeps duration rs (perform duration r db) (perform-keeps duration r db h)

-- The table's two unique columns.
abbrev pub HasKeys : TaskDb → Type 0
HasKeys db = Distinct (λ t. t.task_id) db × Distinct (λ t. t.idempotency_key) db

HasKeys-grown : (db db' : TaskDb) → Stepped db db' → HasKeys db → HasKeys db'
HasKeys-grown db _ same h = h
HasKeys-grown db _ (added task no_id no_key) h = (
  Distinct-snoc (λ t. t.task_id) db task no_id h.0,
  Distinct-snoc (λ t. t.idempotency_key) db task no_key h.1,
)

HasKeys-changed :
    (test : ScheduledTask → Bool) (f : ScheduledTask → ScheduledTask)
    → ((t : ScheduledTask) → (f t).task_id ≡ t.task_id)
    → ((t : ScheduledTask) → (f t).idempotency_key ≡ t.idempotency_key)
    → (db : TaskDb) → HasKeys db
    → HasKeys (map (λ row. if test row then f row else row) db)
HasKeys-changed test f ids keys db h = (
  Distinct-map (λ t. t.task_id) (λ row. if test row then f row else row)
      (λ x. ground (arith, ids x)) db h.0,
  Distinct-map (λ t. t.idempotency_key) (λ row. if test row then f row else row)
      (λ x. ground (arith, keys x)) db h.1,
)

-- No sequence of requests makes two tasks with one identifier or with one idempotency key.
pub run_requests-HasKeys :
    (duration : ℕ) (rs : List Request) (db : TaskDb)
    → HasKeys db
    → HasKeys (run_requests duration rs db)
run_requests-HasKeys =
    run_requests-keeps HasKeys HasKeys-grown
      (λ expiry test. HasKeys-changed test (leased_task expiry) (λ t. refl) (λ t. refl))
      (λ at test. HasKeys-changed test (completed_task at) (λ t. refl) (λ t. refl))

-- The task is stored: the row with its key agrees with it.
IsStored : ScheduledTask → TaskDb → Type 0
IsStored task db =
    (row : ScheduledTask) × (find (has_key task.idempotency_key) db ≡ some row)
    × (matches_scheduled_task row task ≡ true)

IsStored-grown :
    (task : ScheduledTask) (db db' : TaskDb) → Stepped db db' → IsStored task db → IsStored task db'
unfolding IsStored
IsStored-grown task db db' step (row, found, agrees) =
    (row, found-Stepped (has_key task.idempotency_key) db db' row step found, agrees)

IsStored-changed :
    (task : ScheduledTask) (test : ScheduledTask → Bool) (f : ScheduledTask → ScheduledTask)
    → ((t : ScheduledTask) → (f t).idempotency_key ≡ t.idempotency_key)
    → ((t : ScheduledTask) → matches_scheduled_task (f t) task ≡ matches_scheduled_task t task)
    → (db : TaskDb) → IsStored task db
    → IsStored task (map (λ row. if test row then f row else row) db)
unfolding IsStored
IsStored-changed task test f keys agree db (row, found, agrees) = (
  if test row then f row else row,
  find-map (has_key task.idempotency_key) (λ row. if test row then f row else row)
      (λ x. ground (arith, keys x)) db row found,
  if-cases (λ t. matches_scheduled_task t task ≡ true) (test row) (f row) row
      (λ e. subst (λ b. b ≡ true) (sym (agree row)) agrees) (λ e. agrees),
)

run_requests-IsStored :
    (task : ScheduledTask) (duration : ℕ) (rs : List Request) (db : TaskDb)
    → IsStored task db
    → IsStored task (run_requests duration rs db)
unfolding matches_scheduled_task
run_requests-IsStored task =
    run_requests-keeps (IsStored task) (IsStored-grown task)
      (λ expiry test. IsStored-changed task test (leased_task expiry) (λ t. refl) (λ t. refl))
      (λ at test. IsStored-changed task test (completed_task at) (λ t. refl) (λ t. refl))

validate_new_task-anywhere :
    (task : ScheduledTask) (db db' other : TaskDb)
    → validate_new_task task db ≡ (ok tt, db')
    → (db ≡ db') × (validate_new_task task other ≡ (ok tt, other))
unfolding validate_new_task
validate_new_task-anywhere task db db' other h = ground arith

matches_refl :
    (task : ScheduledTask)
    → fields_eqb task.payload task.payload ≡ true
    → matches_scheduled_task task task ≡ true
unfolding matches_scheduled_task
matches_refl task h = ground (
  arith,
  h,
  same_refl task.task_id,
  same_refl task.task_type,
  same_refl task.due_at,
  same_refl task.idempotency_key,
)

find-last :
    (test : ScheduledTask → Bool) (db : TaskDb) (task : ScheduledTask)
    → find test db ≡ none
    → test task ≡ true
    → find test (db ++ task ∷ []) ≡ some task
find-last test [] task h e = ground arith
find-last test (x ∷ xs) task h e = ground (arith, find-last test xs task)

-- What an accepted test and an accepted insertion say.
raise_if_ok :
    (bad : Bool) (e : SchedulerError) (db db' : TaskDb)
    → raise_if (not bad) e db ≡ (ok tt, db')
    → (bad ≡ true) × (db ≡ db')
raise_if_ok true e db db' h = (refl, ap (λ p. p.1) h)
raise_if_ok false e db db' h = cc

if_ok :
    (bad : Bool) (p : Result SchedulerError (Unit {0}) × TaskDb) (e : SchedulerError)
    (db grown db' : TaskDb)
    → (if bad then p else (ok tt, grown)) ≡ (ok tt, db')
    → p ≡ (err e, db)
    → grown ≡ db'
if_ok true p e db grown db' h k = cc
if_ok false p e db grown db' h k = ap (λ p. p.1) h

insert_or_replay-IsStored :
    (task : ScheduledTask) (o : Option ScheduledTask) (db db' : TaskDb)
    → find (has_key task.idempotency_key) db ≡ o
    → fields_eqb task.payload task.payload ≡ true
    → insert_or_replay task o db ≡ (ok tt, db')
    → IsStored task db'
unfolding insert_or_replay insert_task IsStored
insert_or_replay-IsStored task none db db' found proper h =
    subst (IsStored task)
      (if_ok (any (has_task_id task.task_id) db) _
        (integrity_error "duplicate key value violates unique constraint") db (db ++ task ∷ []) db'
        h refl)
      (
        task,
        find-last (has_key task.idempotency_key) db task found (same_refl task.idempotency_key),
        matches_refl task proper,
      )
insert_or_replay-IsStored task (some row) db db' found proper h =
    let (agrees, unchanged) =
      raise_if_ok (matches_scheduled_task row task)
        (idempotency_error
          "scheduled task idempotency key is already bound to different task input")
        db db' h in
    subst (IsStored task) unchanged (row, found, agrees)

replayed :
    (task : ScheduledTask) (db : TaskDb)
    → IsStored task db
    → insert_or_replay task (find (has_key task.idempotency_key) db) db ≡ (ok tt, db)
unfolding insert_or_replay IsStored
replayed task db (row, found, agrees) = rw (found, agrees) refl

-- Once a task with a proper payload has been scheduled, scheduling the same task again, after any
-- requests, succeeds and changes nothing.
pub schedule-replay :
    (duration : ℕ) (task : ScheduledTask) (rs : List Request) (db db' : TaskDb)
    → fields_eqb task.payload task.payload ≡ true
    → schedule task db ≡ (ok tt, db')
    → schedule task (run_requests duration rs db') ≡ (ok tt, run_requests duration rs db')
unfolding schedule
schedule-replay duration task rs db db' proper h =
    bind_inv (validate_new_task task)
      (λ _ db. insert_or_replay task (find (has_key task.idempotency_key) db) db) tt db db' h
      (λ _ s valid e.
        let final = run_requests duration rs db' in
        let again = validate_new_task-anywhere task db s final valid in
        let stored : IsStored task db' =
          insert_or_replay-IsStored task (find (has_key task.idempotency_key) s) s db' refl proper
            e in
        rw (again.1, replayed task final (run_requests-IsStored task duration rs db' stored)) refl)
