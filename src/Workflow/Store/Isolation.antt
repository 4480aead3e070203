-- ===== src/Workflow/Store/Isolation.antt =====
-- What a transaction on one workflow does to the database.
use harmony_takehome.Prelude.{
  Bool-cases, inl, inr, true, false, List, Result, Option, Bool, ap, String, ◌≡◌, true, none, some,
  [], ◌∷◌, ok, err, arith, string_eq, if◌then◌else◌,
}
use harmony_takehome.Domain.{WorkflowStateSnapshot, WorkflowStepState}
use harmony_takehome.Workflow.Store.Request.{Transaction}
use harmony_takehome.Workflow.Store.Database.{
  WorkflowDb, has_id, load, transact, transact_rows, settle, written, past, keys_clash, other_steps,
}

-- The database with another snapshot in the place of the first that has this id.
abbrev pub replaced : String → WorkflowStateSnapshot → WorkflowDb → WorkflowDb
replaced id s' [] = []
replaced id s' (s ∷ rest) = if has_id id s then s' ∷ rest else s ∷ replaced id s' rest

pub load-replaced :
    (id : String) (s s' : WorkflowStateSnapshot) (db : WorkflowDb)
    → load id db ≡ some s
    → has_id id s' ≡ true
    → load id (replaced id s' db) ≡ some s'
unfolding load
load-replaced id s s' [] found same = cc
load-replaced id s s' (row ∷ db) found same = ground (arith, load-replaced id s s' db)

pub has_id_of_load :
    (id : String) (s : WorkflowStateSnapshot) (db : WorkflowDb)
    → load id db ≡ some s
    → has_id id s ≡ true
unfolding load
has_id_of_load id s [] found = cc
has_id_of_load id s (row ∷ db) found = ground (arith, has_id_of_load id s db)

-- What has been written has not clashed.
written_ok :
    (clash : Bool) (s s' s'' : WorkflowStateSnapshot) (rest db' : WorkflowDb)
    → written clash s'' s rest ≡ (ok (some s'), db')
    → (s'' ≡ s') × (db' ≡ s' ∷ rest)
written_ok true s s' s'' rest db' h = cc
written_ok false s s' s'' rest db' h = ground arith

settled :
    (others : List WorkflowStepState) (t : Transaction) (s s' : WorkflowStateSnapshot)
    (rest db' : WorkflowDb)
    → settle others t s rest ≡ (ok (some s'), db')
    → (t ≡ ok (some s')) × (db' ≡ s' ∷ rest)
settled others (ok none) s s' rest db' h = ground arith
settled others (ok (some s'')) s s' rest db' h =
    let (same, left) = written_ok (keys_clash s''.steps others) s s' s'' rest db' h in
    (ap (λ x. ok (some x)) same, left)
settled others (err message) s s' rest db' h = cc

past_ok :
    (row s' : WorkflowStateSnapshot) (p : Result String (Option WorkflowStateSnapshot) × WorkflowDb)
    (db' : WorkflowDb)
    → past row p ≡ (ok (some s'), db')
    → (p ≡ (ok (some s'), p.1)) × (db' ≡ row ∷ p.1)
past_ok row s' (r, rest) db' h = ground arith

rows_return :
    (others : List WorkflowStepState) (id : String) (body : WorkflowStateSnapshot → Transaction)
    (s' : WorkflowStateSnapshot) (db db' : WorkflowDb)
    → transact_rows others id body db ≡ (ok (some s'), db')
    → (s : WorkflowStateSnapshot) × (load id db ≡ some s)
      × (body s ≡ ok (some s'))
      × (db' ≡ replaced id s' db)
unfolding load
rows_return others id body s' [] db' h = cc
rows_return others id body s' (row ∷ db) db' h = elim (Bool-cases (has_id id row)) [
  | inl here ↦
      let done = settled others (body row) row s' db db' (ground arith) in
      (row, ground arith, done.0, ground (arith, done.1))
  | inr there ↦
      let (one, two) = past_ok row s' (transact_rows others id body db) db' (ground arith) in
      let (s, found, commits, rest) =
        rows_return others id body s' db (transact_rows others id body db).1 one in
      (s, ground arith, commits, ground (arith, two, rest))
]

-- A transaction that has returned a snapshot has committed it.
pub transact_returns :
    (id : String) (body : WorkflowStateSnapshot → Transaction) (s' : WorkflowStateSnapshot)
    (db db' : WorkflowDb)
    → transact id body db ≡ (ok (some s'), db')
    → (s : WorkflowStateSnapshot) × (load id db ≡ some s)
      × (body s ≡ ok (some s'))
      × (db' ≡ replaced id s' db)
unfolding transact
transact_returns id body s' db db' h = rows_return (other_steps id db) id body s' db db' h
