-- ===== src/Workflow/Sql.antt =====
-- The SQL that src/enterprise_agent/adapters/workflow_state.py relies on: comparisons in which a
-- NULL column never passes, and `UPDATE ... WHERE ... RETURNING`. The store's tables hold a unique
-- index on the workflow and the step index, so at most one row of a workflow is updated.
use harmony_takehome.Prelude.{
  Bool, true, false, ◌&&◌, Option, none, some, List, map, any, ltb, leb, Compared, ◌==◌,
  if◌then◌else◌,
}
use harmony_takehome.Domain.{Instant}

-- `column = :value`
abbrev pub holds {ℓ} : {A : Type ℓ} ⦃c : Compared A⦄ → Option A → A → Bool
holds none value = false
holds (some column) value = column == value

-- `column > :at`
abbrev pub after : Option Instant → Instant → Bool
after none at = false
after (some column) at = ltb at column

-- `column <= :at`
abbrev pub not_after : Option Instant → Instant → Bool
not_after none at = false
not_after (some column) at = leb column at

-- `column IS NULL`
abbrev pub is_null {ℓ} : {A : Type ℓ} → Option A → Bool
is_null none = true
is_null (some column) = false

-- `column IS NOT NULL`
abbrev pub is_not_null {ℓ} : {A : Type ℓ} → Option A → Bool
is_not_null none = false
is_not_null (some column) = true

-- `COALESCE(column, :value)`
abbrev pub coalesce {ℓ} : {A : Type ℓ} → Option A → A → A
coalesce none value = value
coalesce (some column) value = column

-- The rows after an update of those that pass the test.
abbrev pub changed {ℓ} : {A : Type ℓ} → (A → Bool) → (A → A) → List A → List A
changed test change = map (λ row. if test row then change row else row)

-- `UPDATE ... SET change WHERE joined AND test ... RETURNING id` with `scalar_one_or_none`, where
-- `joined` is the part of the condition on the row of the workflow: nothing if no row passes.
unfoldable pub update {ℓ} :
    {A : Type ℓ} → (joined : Bool) → (A → Bool) → (A → A) → List A → Option (List A)
update joined test change rows =
    if joined && any test rows then some (changed test change rows) else none
