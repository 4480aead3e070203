-- ===== src/Scheduler/Fairness.antt =====
-- Which of the due tasks a claim serves.
use harmony_takehome.Prelude.{
  ℕ, String, ◌+◌, ◌≤◌, ◌≡◌, true, List, map, arith, All, All-map, All-sort_by, sort_by-IsSorted,
  sort_by, length-sort_by, length, length-map, filter, ◌⊎◌, inl, inr, ok, ◌∙◌, Memᴰ, filter-member,
  sort_by-member, take-member, map-member,
}
use harmony_takehome.Domain.{Instant, ScheduledTask}
use harmony_takehome.Scheduler.{
  TaskDb, available, task_before, leased_task, due_tasks, claim_locked, claim_due,
}
use harmony_takehome.Scheduler.Claims.{before_due, after_due, claimed_tasks, due_tasks-stored}

module _ (duration : ℕ) (held : List String) (now : Instant) (limit : ℕ) (db : TaskDb)
    (task : ScheduledTask) where
  -- The task is returned and stored as claimed, or the claim is full of tasks that were not due
  -- later.
  abbrev pub Served : TaskDb → List ScheduledTask → Type 0
  Served db' tasks =
      (Memᴰ (leased_task (now + duration) task) tasks
        × Memᴰ (leased_task (now + duration) task) db')
      ⊎ ((length tasks ≡ limit) × All (λ t. t.due_at ≤ task.due_at) tasks)

  due_tasks-member :
      available held now task ≡ true
      → Memᴰ task db
      → Memᴰ task (due_tasks held now limit db)
        ⊎ ((length (due_tasks held now limit db) ≡ limit)
            × All (λ t. t.due_at ≤ task.due_at) (due_tasks held now limit db))
  unfolding due_tasks
  due_tasks-member h m =
      take-member (λ t. t.due_at) limit task (sort_by task_before (filter (available held now) db))
        (sort_by-IsSorted (λ t. t.due_at) task_before before_due after_due
          (filter (available held now) db))
        (sort_by-member task_before task (filter (available held now) db)
          (filter-member (available held now) task db h m))

  claimed_tasks-Served :
      available held now task ≡ true
      → Memᴰ task db
      → Served
          (claim_locked duration held now limit db).1
          (claimed_tasks duration held now limit db)
  claimed_tasks-Served h m =
      let leased = map (leased_task (now + duration)) (due_tasks held now limit db) in
      elim (due_tasks-member h m) [
        | inl k ↦ inl (
          sort_by-member task_before (leased_task (now + duration) task) leased
              (map-member (leased_task (now + duration)) task (due_tasks held now limit db) k),
          due_tasks-stored duration held now limit db task m h k,
        )
        | inr k ↦ inr (
          length-sort_by task_before leased
              ∙ (length-map (leased_task (now + duration)) (due_tasks held now limit db) ∙ k.0),
          All-sort_by (λ t. t.due_at ≤ task.due_at) task_before leased
              (All-map (λ t. t.due_at ≤ task.due_at) (leased_task (now + duration))
                (due_tasks held now limit db) k.1),
        )
      ]

claim_due-returns :
    (duration : ℕ) (held : List String) (now : Instant) (limit : ℕ) (db : TaskDb)
    → 1 ≤ limit
    → claim_due duration held now limit db
      ≡ (ok (claimed_tasks duration held now limit db), (claim_locked duration held now limit db).1)
unfolding claim_due claim_locked
claim_due-returns duration held now limit db h = ground arith

-- Every claim with a positive limit returns, and it serves each stored task that could be claimed
-- and that no other transaction held: the task is returned and stored as claimed, with a lease until
-- the given duration later, or the returned tasks are as many as the limit and none of them was due
-- later than it.
pub claim_due-Served :
    (duration : ℕ) (held : List String) (now : Instant) (limit : ℕ) (db : TaskDb)
    (task : ScheduledTask)
    → 1 ≤ limit
    → available held now task ≡ true
    → Memᴰ task db
    → (tasks : List ScheduledTask) × (db' : TaskDb) × (claim_due duration held now limit db
        ≡ (ok tasks, db'))
      × Served duration held now limit db task db' tasks
claim_due-Served duration held now limit db task positive h m = (
  claimed_tasks duration held now limit db,
  (claim_locked duration held now limit db).1,
  claim_due-returns duration held now limit db positive,
  claimed_tasks-Served duration held now limit db task h m,
)
