-- ===== src/Scheduler/Tests.antt =====
-- The theorems on two tasks.
use harmony_takehome.Prelude.{
  Memᴰ, arith, ◌≤◌, ◌≡◌, refl, List, [], ◌∷◌, some, none, ok, All, IsSorted, length, filter, find,
  ◌⊎◌,
}
use harmony_takehome.Json.{Json, end, field, fields_eqb}
use harmony_takehome.Domain.{ScheduledTask, ScheduledTaskStatus}
use harmony_takehome.Scheduler.{
  TaskDb, Request, schedules, claims, succeeds, run_requests, schedule, claim_due, available,
  has_task_id,
}
use harmony_takehome.Scheduler.Leases.{run_requests-leased, run_requests-succeeded, outside}
use harmony_takehome.Scheduler.Claims.{claim_due-Claimed, Claimed}
use harmony_takehome.Scheduler.Fairness.{claim_due-Served, Served}
use harmony_takehome.Scheduler.Replay.{run_requests-HasKeys, HasKeys, schedule-replay}

abbrev late_task : ScheduledTask
late_task = record {
  task_id = "late";
  task_type = "arrival_check";
  due_at = 20;
  status = ScheduledTaskStatus.pending;
  idempotency_key = "late key";
  payload = field "actor_id" (Json.text "planner") end;
  attempt_count = 0;
  lease_expires_at = none;
  completed_at = none;
}

abbrev early_task : ScheduledTask
early_task = record late_task { task_id = "early"; idempotency_key = "early key"; due_at = 10 }

abbrev claimed_task : ScheduledTask
claimed_task = record early_task {
  status = ScheduledTaskStatus.claimed;
  attempt_count = 1;
  lease_expires_at = some 35;
}

abbrev done_task : ScheduledTask
done_task = record claimed_task {
  status = ScheduledTaskStatus.succeeded;
  lease_expires_at = none;
  completed_at = some 33;
}

abbrev leased_table : TaskDb
leased_table = late_task ∷ claimed_task ∷ []

abbrev busy : List Request
busy = claims [] 32 5 ∷ schedules early_task ∷ succeeds "late" 33 ∷ []

run_requests-leased_example :
    find (has_task_id "early") (run_requests 5 busy leased_table) ≡ some claimed_task
unfolding outside
run_requests-leased_example =
    run_requests-leased 5 "early" busy leased_table claimed_task 35 refl refl refl
      (refl, (refl, (refl, tt)))

run_requests-succeeded_example :
    find (has_task_id "early") (run_requests 5 busy (done_task ∷ late_task ∷ [])) ≡ some done_task
run_requests-succeeded_example =
    run_requests-succeeded 5 "early" busy (done_task ∷ late_task ∷ []) done_task refl refl

-- A claim of one task takes the earlier.
abbrev two_tasks : TaskDb
two_tasks = late_task ∷ early_task ∷ []

claim_due-Claimed_example :
    IsSorted (λ t. t.due_at) (claimed_task ∷ [])
    × All (Claimed 5 [] 30 two_tasks (late_task ∷ claimed_task ∷ [])) (claimed_task ∷ [])
    × ((length (claimed_task ∷ []) ≡ 1)
        ⊎ ((length (claimed_task ∷ []) ≡ length (filter (available [] 30) two_tasks))
            × (length (filter (available [] 30) two_tasks) ≤ 1)))
unfolding claim_due
claim_due-Claimed_example =
    claim_due-Claimed 5 [] 30 1 two_tasks (late_task ∷ claimed_task ∷ []) (claimed_task ∷ []) refl

claim_due-Served_example :
    (tasks : List ScheduledTask) × (db : TaskDb) × (claim_due 5 ("early" ∷ []) 40 1 two_tasks
      ≡ (ok tasks, db))
    × Served 5 ("early" ∷ []) 40 1 two_tasks late_task db tasks
unfolding available
claim_due-Served_example =
    claim_due-Served 5 ("early" ∷ []) 40 1 two_tasks late_task (omega arith) refl (Memᴰ.head refl)

run_requests-HasKeys_example : HasKeys (run_requests 5 busy two_tasks)
run_requests-HasKeys_example =
    run_requests-HasKeys 5 busy two_tasks (((refl, tt), (tt, tt)), ((refl, tt), (tt, tt)))

schedule-replay_example :
    schedule late_task (run_requests 5 busy (late_task ∷ []))
    ≡ (ok tt, run_requests 5 busy (late_task ∷ []))
unfolding schedule fields_eqb
schedule-replay_example = schedule-replay 5 late_task busy [] (late_task ∷ []) refl refl
