-- ===== src/Scheduler/Claims.antt =====
-- What a claim of due tasks returns and stores.
use harmony_takehome.Prelude.{
  ℕ, String, ◌+◌, ◌≤◌, ◌≡◌, refl, sym, subst, ap, true, false, List, map, arith, All, All-map,
  All-take, All-sort_by, All-member, All-members, All-filtered, any-member, map-member, Memᴰ,
  IsSorted, sort_by-IsSorted, sort_by, length-sort_by, length-take, length, length-map, filter, ◌⊎◌,
  ok, raise_if_inv, nat_eq, string_eq, same_refl, ◌==◌, if◌then◌else◌,
}
use harmony_takehome.Domain.{Instant, ScheduledTask}
use harmony_takehome.Scheduler.{
  TaskDb, value_error, available, task_before, leased_task, due_tasks, is_due, has_task_id,
  claim_locked, claim_due,
}

pub before_due : (a b : ScheduledTask) → task_before a b ≡ true → a.due_at ≤ b.due_at
unfolding task_before
before_due a b h = ground arith

pub after_due : (a b : ScheduledTask) → task_before a b ≡ false → b.due_at ≤ a.due_at
unfolding task_before
after_due a b h = ground arith

module _ (duration : ℕ) (held : List String) (now : Instant) where
  -- A task as it is returned and stored, for a stored one that could be claimed and was not held.
  abbrev pub Claimed : TaskDb → TaskDb → ScheduledTask → Type 0
  Claimed db db' task =
      (before : ScheduledTask) × Memᴰ before db
      × (available held now before ≡ true)
      × (task ≡ leased_task (now + duration) before)
      × Memᴰ task db'

  module _ (limit : ℕ) (db : TaskDb) where
    abbrev pub claimed_tasks : List ScheduledTask
    claimed_tasks =
        sort_by task_before (map (leased_task (now + duration)) (due_tasks held now limit db))

    due_tasks-available :
        All (λ t. Memᴰ t db × (available held now t ≡ true)) (due_tasks held now limit db)
    unfolding due_tasks
    due_tasks-available =
        All-take (λ t. Memᴰ t db × (available held now t ≡ true)) limit
          (sort_by task_before (filter (available held now) db))
          (All-sort_by (λ t. Memᴰ t db × (available held now t ≡ true)) task_before
            (filter (available held now) db)
            (All-filtered (λ t. Memᴰ t db) (available held now) db
              (All-members (λ t. Memᴰ t db) db (λ t m. m))))

    due_task_is_due :
        (t : ScheduledTask)
        → available held now t ≡ true
        → Memᴰ t (due_tasks held now limit db)
        → is_due now (due_tasks held now limit db) t ≡ true
    unfolding is_due available
    due_task_is_due t free due =
        let found =
          any-member (has_task_id t.task_id) t (due_tasks held now limit db) (same_refl t.task_id)
            due in
        ground (arith, free, found)

    -- The claim stores the lease of each row that it has locked.
    pub due_tasks-stored :
        (t : ScheduledTask)
        → Memᴰ t db
        → available held now t ≡ true
        → Memᴰ t (due_tasks held now limit db)
        → Memᴰ (leased_task (now + duration) t) (claim_locked duration held now limit db).1
    unfolding claim_locked
    due_tasks-stored t stored free due =
        subst (λ x. Memᴰ x (claim_locked duration held now limit db).1)
          (leased t (due_task_is_due t free due)) (map-member after t db stored)
      where
        after : ScheduledTask → ScheduledTask
        after row =
            if is_due now (due_tasks held now limit db) row
            then leased_task (now + duration) row
            else row

        leased :
            (row : ScheduledTask)
            → is_due now (due_tasks held now limit db) row ≡ true
            → after row ≡ leased_task (now + duration) row
        leased row h = rw h refl

    claimed_tasks-Claimed :
        All (Claimed db (claim_locked duration held now limit db).1) claimed_tasks
    claimed_tasks-Claimed =
        let after = (claim_locked duration held now limit db).1 in
        let due = due_tasks held now limit db in
        All-sort_by (Claimed db after) task_before (map (leased_task (now + duration)) due) (
          All-map (Claimed db after) (leased_task (now + duration)) due (
            All-members (λ t. Claimed db after (leased_task (now + duration) t)) due
              (λ t m.
                let (stored, free) =
                  All-member (λ t. Memᴰ t db × (available held now t ≡ true)) t due m
                    due_tasks-available in
                (t, stored, free, refl, due_tasks-stored t stored free m))))

    claimed_length :
        (length claimed_tasks ≡ limit)
        ⊎ ((length claimed_tasks ≡ length (filter (available held now) db))
            × (length (filter (available held now) db) ≤ limit))
    unfolding due_tasks
    claimed_length =
        rw
          (
            length-sort_by task_before
                (map (leased_task (now + duration)) (due_tasks held now limit db)),
            length-map (leased_task (now + duration)) (due_tasks held now limit db),
            sym (length-sort_by task_before (filter (available held now) db)),
          )
          (length-take limit (sort_by task_before (filter (available held now) db)))

-- If claim_due returns tasks, they are in the order of their due times; each of them comes from a
-- stored task that could be claimed, pending and due or with an expired lease, and that no other
-- transaction held; it is returned and stored as claimed, with one more attempt and a lease until
-- the given duration later; and there are as many as the limit, or all that could be claimed and
-- were not held, where these are no more than the limit.
pub claim_due-Claimed :
    (duration : ℕ) (held : List String) (now : Instant) (limit : ℕ) (db db' : TaskDb)
    (tasks : List ScheduledTask)
    → claim_due duration held now limit db ≡ (ok tasks, db')
    → IsSorted (λ t. t.due_at) tasks
      × All (Claimed duration held now db db') tasks
      × ((length tasks ≡ limit)
          ⊎ ((length tasks ≡ length (filter (available held now) db))
              × (length (filter (available held now) db) ≤ limit)))
unfolding claim_due claim_locked
claim_due-Claimed duration held now limit db db' tasks h =
    raise_if_inv (limit == 0) (value_error "scheduled task claim limit must be positive")
      (λ _. claim_locked duration held now limit) tasks db db' h
      (λ _ e.
        let same : claimed_tasks duration held now limit db ≡ tasks = ground arith in
        let left : (claim_locked duration held now limit db).1 ≡ db' = ap (λ p. p.1) e in
        rw (sym same) (
          sort_by-IsSorted (λ t. t.due_at) task_before before_due after_due
              (map (leased_task (now + duration)) (due_tasks held now limit db)),
          subst
              (λ d. All (Claimed duration held now db d) (claimed_tasks duration held now limit db))
              left (claimed_tasks-Claimed duration held now limit db),
          claimed_length duration held now limit db,
        ))
