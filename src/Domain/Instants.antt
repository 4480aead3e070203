-- ===== src/Domain/Instants.antt =====
-- Instants and business dates: the parts of Python's `datetime` that the code uses.
use harmony_takehome.Prelude.{ℕ, ◌+◌, ◌*◌, ◌/◌, ◌%◌}

abbrev pub Instant : Type 0
Instant = ℕ

-- One day in microseconds.
abbrev pub day : ℕ
day = 86400000000

abbrev pub hour : ℕ
hour = 3600000000

-- `instant.date()`, as the number of days since 0001-01-01.
unfoldable pub date_of : Instant → ℕ
date_of t = t / day

-- `instant.weekday()`: Monday is 0, and 0001-01-01 was a Monday.
unfoldable pub weekday : Instant → ℕ
weekday t = (t / day) % 7

-- `datetime.combine(date, time(hour))`
unfoldable pub at_hour : ℕ → ℕ → Instant
at_hour date h = date * day + h * hour
