-- ===== src/Workflow/Executor/Inputs/Tuesday.antt =====
-- The due time that `_next_tuesday_at_nine` gives an arrival check.
use harmony_takehome.Prelude.{◌+◌, ◌<◌, ◌≤◌, ◌≡◌, arith}
use harmony_takehome.Domain.{Instant, weekday, date_of, at_hour}
use harmony_takehome.Workflow.Executor.Inputs.{next_tuesday_at_nine}

-- For every instant, the arrival check is due on a Tuesday, at nine o'clock exactly, on a later
-- date than that of the instant, and at most seven days later.
pub next_tuesday_at_nine_lem :
    (now : Instant)
    → let due = next_tuesday_at_nine now in
      (weekday due ≡ 1)
      × (due ≡ at_hour (date_of due) 9)
      × (date_of now < date_of due)
      × (date_of due ≤ date_of now + 7)
unfolding next_tuesday_at_nine
next_tuesday_at_nine_lem now = (ground arith, ground arith, ground arith, ground arith)
