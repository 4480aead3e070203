-- ===== src/Scheduler/Leases.antt =====
-- What requests do to one stored task.
use harmony_takehome.Prelude.{
  ℕ, ◌+◌, String, ◌≡◌, refl, Bool, true, false, not, Option, none, some, List, [], ◌∷◌, ◌++◌, map,
  find, any, arith, All, All-weaken, ◌==◌, string_eq, nat_eq, subst, ap, ltb, if◌then◌else◌,
  if-cases, find-map, find-append, raise_if, Result, ok, err, continue,
}
use harmony_takehome.Domain.{Instant, ScheduledTask, ScheduledTaskStatus}
use harmony_takehome.Scheduler.{
  TaskDb, Request, schedules, claims, succeeds, perform, run_requests, claimable, completable,
  claim_due, mark_succeeded, schedule, leased_task, completed_task, is_due, due_tasks, claim_locked,
  has_task_id, has_key, insert_task, insert_or_replay, validate_new_task, SchedulerError,
  value_error, idempotency_error, matches_scheduled_task,
}

-- A step leaves the table as it is, adds one task to it, under an identifier and a key that no other
-- task has, or changes its tasks one by one.
pub data Stepped (db : TaskDb) : TaskDb → Type 0 where
  same : Stepped db db
  added :
      (task : ScheduledTask)
      → any (has_task_id task.task_id) db ≡ false
      → any (has_key task.idempotency_key) db ≡ false
      → Stepped db (db ++ task ∷ [])

pub raise_if-state : (bad : Bool) (e : SchedulerError) (db : TaskDb) → (raise_if bad e db).1 ≡ db
raise_if-state true e db = refl
raise_if-state false e db = refl

any-find : (test : ScheduledTask → Bool) (db : TaskDb) → find test db ≡ none → any test db ≡ false
any-find test [] h = refl
any-find test (x ∷ xs) h = ground (arith, any-find test xs)

insert_or_replay-Stepped :
    (task : ScheduledTask) (o : Option ScheduledTask) (db : TaskDb)
    → find (has_key task.idempotency_key) db ≡ o
    → Stepped db (insert_or_replay task o db).1
unfolding insert_or_replay insert_task
insert_or_replay-Stepped task none db h = inserted (any (has_task_id task.task_id) db) refl
  where
    inserted :
        (b : Bool) → any (has_task_id task.task_id) db ≡ b → Stepped db (insert_task task db).1
    inserted true e = rw e same
    inserted false e = rw e (added task e (any-find (has_key task.idempotency_key) db h))
insert_or_replay-Stepped task (some row) db h =
    rw
      (raise_if-state (not (matches_scheduled_task row task))
        (idempotency_error
          "scheduled task idempotency key is already bound to different task input")
        db)
      same

validate_new_task-state : (task : ScheduledTask) (db : TaskDb) → (validate_new_task task db).1 ≡ db
unfolding validate_new_task
validate_new_task-state task db = ground (arith)

pub schedule-Stepped : (task : ScheduledTask) (db : TaskDb) → Stepped db (schedule task db).1
unfolding schedule
schedule-Stepped task db =
    checked-Stepped (validate_new_task task db) (validate_new_task-state task db)
      (insert_or_replay-Stepped task (find (has_key task.idempotency_key) db) db refl)
  where
    checked-Stepped :
        (p : Result SchedulerError (Unit {0}) × TaskDb)
        → p.1 ≡ db
        → Stepped db (insert_or_replay task (find (has_key task.idempotency_key) db) db).1
        → Stepped db
            (continue p.0
              (λ _ db. insert_or_replay task (find (has_key task.idempotency_key) db) db)
              p.1).1
    checked-Stepped (ok a, db') e h = rw e h
    checked-Stepped (err x, db') e h = rw e same

-- A request that may not change this task.
unfoldable pub leaves : ScheduledTask → Request → Bool
unfolding claimable completable
leaves task (schedules other) = true
leaves task (claims held now limit) = not (claimable now task)
leaves task (succeeds id at) = not (completable id at task)

pub found-Stepped :
    (test : ScheduledTask → Bool) (db db' : TaskDb) (a : ScheduledTask)
    → Stepped db db'
    → find test db ≡ some a
    → find test db' ≡ some a
found-Stepped test db _ a same h = h
found-Stepped test db _ a (added task _ _) h = find-append test db (task ∷ []) a h

-- A change of the rows under a condition that this row does not satisfy.
pub found-unchanged :
    (test condition : ScheduledTask → Bool) (f : ScheduledTask → ScheduledTask)
    → ((x : ScheduledTask) → test (f x) ≡ test x)
    → (db : TaskDb) (a : ScheduledTask) → find test db ≡ some a
    → condition a ≡ false
    → find test (map (λ row. if condition row then f row else row) db) ≡ some a
found-unchanged test condition f keeps db a h q =
    subst (λ x. find test (map (λ row. if condition row then f row else row) db) ≡ some x)
      (ap (λ b. if b then f a else a) q)
      (find-map test (λ row. if condition row then f row else row) (λ x. ground (arith, keeps x)) db
        a h)

found-claim :
    (duration : ℕ) (id : String) (held : List String) (now : Instant) (limit : ℕ) (db : TaskDb)
    (a : ScheduledTask)
    → find (has_task_id id) db ≡ some a
    → claimable now a ≡ false
    → find (has_task_id id) (claim_due duration held now limit db).1 ≡ some a
unfolding claim_due is_due claim_locked
found-claim duration id held now limit db a h q =
    checked (raise_if (limit == 0) (value_error "scheduled task claim limit must be positive") db)
      (raise_if-state (limit == 0) (value_error "scheduled task claim limit must be positive") db)
  where
    checked :
        (p : Result SchedulerError (Unit {0}) × TaskDb)
        → p.1 ≡ db
        → find (has_task_id id) (continue p.0 (λ _. claim_locked duration held now limit) p.1).1
          ≡ some a
    checked (ok x, db') e = rw e (
        found-unchanged (has_task_id id) (is_due now (due_tasks held now limit db))
          (leased_task (now + duration)) (λ x. refl) db a h (ground (arith, q)))
    checked (err x, db') e = rw e h

found-success :
    (id other : String) (at : Instant) (db : TaskDb) (a : ScheduledTask)
    → find (has_task_id id) db ≡ some a
    → completable other at a ≡ false
    → find (has_task_id id) (mark_succeeded other at db).1 ≡ some a
unfolding mark_succeeded
found-success id other at db a h q =
    if-cases (λ (p : Result SchedulerError (Unit {0}) × TaskDb). find (has_task_id id) p.1 ≡ some a)
      (any (completable other at) db) _ _
      (λ e.
        found-unchanged (has_task_id id) (completable other at) (completed_task at) (λ x. refl) db a
          h q)
      (λ e. h)

perform-leaves :
    (duration : ℕ) (id : String) (r : Request) (db : TaskDb) (a : ScheduledTask)
    → find (has_task_id id) db ≡ some a
    → leaves a r ≡ true
    → find (has_task_id id) (perform duration r db) ≡ some a
unfolding perform leaves
perform-leaves duration id (schedules task) db a h q =
    found-Stepped (has_task_id id) db (schedule task db).1 a (schedule-Stepped task db) h
perform-leaves duration id (claims held now limit) db a h q =
    found-claim duration id held now limit db a h (ground arith)
perform-leaves duration id (succeeds other at) db a h q =
    found-success id other at db a h (ground arith)

pub run_requests-leaves :
    (duration : ℕ) (id : String) (rs : List Request) (db : TaskDb) (a : ScheduledTask)
    → find (has_task_id id) db ≡ some a
    → All (λ r. leaves a r ≡ true) rs
    → find (has_task_id id) (run_requests duration rs db) ≡ some a
unfolding run_requests
run_requests-leaves duration id [] db a h q = h
run_requests-leaves duration id (r ∷ rs) db a h q =
    run_requests-leaves duration id rs (perform duration r db) a
      (perform-leaves duration id r db a h q.0) q.1

-- A request that does not claim before the instant, and does not complete this task.
unfoldable pub outside : ScheduledTask → Instant → Request → Bool
outside task expiry (schedules other) = true
outside task expiry (claims held now limit) = ltb now expiry
outside task expiry (succeeds id at) = not (task.task_id == id)

outside-leaves :
    (a : ScheduledTask) (expiry : Instant) (r : Request)
    → a.status ≡ ScheduledTaskStatus.claimed
    → a.lease_expires_at ≡ some expiry
    → outside a expiry r ≡ true
    → leaves a r ≡ true
unfolding outside leaves claimable completable
outside-leaves a expiry (schedules other) s l q = refl
outside-leaves a expiry (claims held now limit) s l q = rw (s, l) (ground arith)
outside-leaves a expiry (succeeds id at) s l q = ground (arith, q)

-- While a task is claimed, no requests change it that claim due tasks before its lease expires,
-- schedule any tasks, or complete other tasks.
pub run_requests-leased :
    (duration : ℕ) (id : String) (rs : List Request) (db : TaskDb) (a : ScheduledTask)
    (expiry : Instant)
    → find (has_task_id id) db ≡ some a
    → a.status ≡ ScheduledTaskStatus.claimed
    → a.lease_expires_at ≡ some expiry
    → All (λ r. outside a expiry r ≡ true) rs
    → find (has_task_id id) (run_requests duration rs db) ≡ some a
run_requests-leased duration id rs db a expiry h s l q = run_requests-leaves duration id rs db a h (
    All-weaken (λ r. outside a expiry r ≡ true) (λ r. leaves a r ≡ true)
      (λ r. outside-leaves a expiry r s l) rs q)

succeeded-leaves :
    (a : ScheduledTask) (rs : List Request)
    → a.status ≡ ScheduledTaskStatus.succeeded
    → All (λ r. leaves a r ≡ true) rs
unfolding leaves claimable completable
succeeded-leaves a [] s = tt
succeeded-leaves a (schedules task ∷ rs) s = (refl, succeeded-leaves a rs s)
succeeded-leaves a (claims held now limit ∷ rs) s = (rw s refl, succeeded-leaves a rs s)
succeeded-leaves a (succeeds id at ∷ rs) s = (ground (arith, s), succeeded-leaves a rs s)

-- A task that has succeeded stays exactly as it is under every sequence of requests.
pub run_requests-succeeded :
    (duration : ℕ) (id : String) (rs : List Request) (db : TaskDb) (a : ScheduledTask)
    → find (has_task_id id) db ≡ some a
    → a.status ≡ ScheduledTaskStatus.succeeded
    → find (has_task_id id) (run_requests duration rs db) ≡ some a
run_requests-succeeded duration id rs db a h s =
    run_requests-leaves duration id rs db a h (succeeded-leaves a rs s)
