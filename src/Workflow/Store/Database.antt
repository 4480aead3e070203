-- ===== src/Workflow/Store/Database.antt =====
-- The adapter's methods on the whole database, and `load` and `create`.
use harmony_takehome.Prelude.{
  String, Bool, true, false, ◌||◌, Option, none, some, List, [], ◌∷◌, ◌++◌, find, any, Result, ok,
  err, Action, ◌==◌, string_eq, if◌then◌else◌,
}
use harmony_takehome.Domain.{WorkflowStateSnapshot, WorkflowStepState}
use harmony_takehome.Workflow.Store.Request.{Transaction}

abbrev pub WorkflowDb : Type 0
WorkflowDb = List WorkflowStateSnapshot

abbrev pub has_id : String → WorkflowStateSnapshot → Bool
has_id id s = s.workflow.workflow_id == id

-- `_load_snapshot`
unfoldable pub load : String → WorkflowDb → Option WorkflowStateSnapshot
load id db = find (has_id id) db

-- `create`: the primary key and the unique index on the plan refuse a second row.
unfoldable pub create : WorkflowStateSnapshot → Action WorkflowDb String (Unit {0})
create s db =
    if any (λ old. has_id s.workflow.workflow_id old || old.workflow.plan_id == s.workflow.plan_id)
      db
    then (err "duplicate key value violates unique constraint", db)
    else (ok tt, db ++ s ∷ [])

-- The unique constraint on `workflow_steps.idempotency_key`: NULL clashes with nothing.
abbrev pub same_key : Option String → Option String → Bool
same_key (some key) (some other) = key == other
same_key _ _ = false

-- Whether some of these steps holds a key that a later one of them, or another step, holds.
abbrev pub keys_clash : List WorkflowStepState → List WorkflowStepState → Bool
keys_clash [] others = false
keys_clash (s ∷ steps) others =
    any (λ other. same_key s.idempotency_key other.idempotency_key) (steps ++ others)
    || keys_clash steps others

-- The steps of the other workflows.
abbrev pub other_steps : String → WorkflowDb → List WorkflowStepState
other_steps id [] = []
other_steps id (s ∷ rest) =
    let steps = other_steps id rest in if has_id id s then steps else s.steps ++ steps

abbrev pub written :
    Bool
    → WorkflowStateSnapshot
    → WorkflowStateSnapshot
    → WorkflowDb
    → Result String (Option WorkflowStateSnapshot) × WorkflowDb
written true s' s rest = (err "duplicate key value violates unique constraint", s ∷ rest)
written false s' s rest = (ok (some s'), s' ∷ rest)

abbrev pub settle :
    List WorkflowStepState
    → Transaction
    → WorkflowStateSnapshot
    → WorkflowDb
    → Result String (Option WorkflowStateSnapshot) × WorkflowDb
settle others (ok none) s rest = (ok none, s ∷ rest)
settle others (ok (some s')) s rest = written (keys_clash s'.steps others) s' s rest
settle others (err message) s rest = (err message, s ∷ rest)

abbrev pub past :
    WorkflowStateSnapshot
    → Result String (Option WorkflowStateSnapshot) × WorkflowDb
    → Result String (Option WorkflowStateSnapshot) × WorkflowDb
past s (result, rest) = (result, s ∷ rest)

-- The rows that the statements select by `WHERE id = ...` are those of one workflow: the identifier
-- is the primary key.
abbrev pub transact_rows :
    List WorkflowStepState
    → String
    → (WorkflowStateSnapshot → Transaction)
    → Action WorkflowDb String (Option WorkflowStateSnapshot)
transact_rows others id body [] = (ok none, [])
transact_rows others id body (s ∷ rest) =
    let later = transact_rows others id body rest in
    if has_id id s then settle others (body s) s rest else past s later

-- `with self._engine.begin()`: one transaction on the rows of the workflow with this id.
unfoldable pub transact :
    String
    → (WorkflowStateSnapshot → Transaction)
    → Action WorkflowDb String (Option WorkflowStateSnapshot)
transact id body db = transact_rows (other_steps id db) id body db
