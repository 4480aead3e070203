-- ===== src/Workflow/Store/Grant.antt =====
-- What a claim, and the beginning of a compensation, that have returned a row have done.
use harmony_takehome.Prelude.{
  String, ◌≡◌, subst, any, false, true, some, ok, arith, Bool-cases, inl, inr, string_eq,
}
use harmony_takehome.Domain.{Instant, is_compensated, WorkflowStateSnapshot}
use harmony_takehome.Workflow.Store.Statements.{claimable, is_effect}
use harmony_takehome.Workflow.Store.Request.{begin_compensation, claim}
use harmony_takehome.Workflow.Store.Database.{WorkflowDb, load, transact}
use harmony_takehome.Workflow.Store.Outcomes.{begin_compensation_outcome, claim_outcome}
use harmony_takehome.Workflow.Store.Lease.{IsLeased}
use harmony_takehome.Workflow.Store.Isolation.{transact_returns, load-replaced, has_id_of_load}

claimed_row :
    (worker : String) (at expires : Instant) (s s' : WorkflowStateSnapshot)
    → claim worker at expires s ≡ ok (some s')
    → (claimable worker at s.workflow ≡ true)
      × (s'.workflow.workflow_id ≡ s.workflow.workflow_id)
      × IsLeased worker expires s'
claimed_row worker at expires s s' h = elim (Bool-cases (claimable worker at s.workflow)) [
  | inl free ↦ (
    free,
    ground (arith, claim_outcome worker at expires s),
    record {
      taken = ground (arith, claim_outcome worker at expires s);
      owned = ground (arith, claim_outcome worker at expires s);
      until = ground (arith, claim_outcome worker at expires s);
    },
  )
  | inr busy ↦ ground (arith, claim_outcome worker at expires s)
]

-- The row was free to claim, it is now leased to the worker, and it is what the database holds.
pub transact-claim :
    (id worker : String) (at expires : Instant) (s' : WorkflowStateSnapshot) (db db' : WorkflowDb)
    → transact id (claim worker at expires) db ≡ (ok (some s'), db')
    → (s : WorkflowStateSnapshot) × (load id db ≡ some s)
      × (claimable worker at s.workflow ≡ true)
      × IsLeased worker expires s'
      × (load id db' ≡ some s')
transact-claim id worker at expires s' db db' h =
    let (s, found, commits, e) = transact_returns id (claim worker at expires) s' db db' h in
    let (free, same, leased) = claimed_row worker at expires s s' commits in
    (
      s,
      found,
      free,
      leased,
      rw e (load-replaced id s s' db found (rw same (has_id_of_load id s db found))),
    )

begun_row :
    (worker : String) (at : Instant) (s s' : WorkflowStateSnapshot)
    → begin_compensation worker at s ≡ ok (some s')
    → (s'.steps ≡ s.steps)
      × (is_compensated s'.workflow.status ≡ true → any is_effect s.steps ≡ false)
begun_row worker at s s' h = ground (arith, begin_compensation_outcome worker at s)

-- The steps are those that were loaded, and the workflow is compensated at once only if none of
-- them is an effect.
pub transact-begin_compensation :
    (id worker : String) (at : Instant) (s s' : WorkflowStateSnapshot) (db db' : WorkflowDb)
    → load id db ≡ some s
    → transact id (begin_compensation worker at) db ≡ (ok (some s'), db')
    → (s'.steps ≡ s.steps)
      × (is_compensated s'.workflow.status ≡ true → any is_effect s.steps ≡ false)
transact-begin_compensation id worker at s s' db db' loaded h =
    let (row, found, commits, e) = transact_returns id (begin_compensation worker at) s' db db' h in
    let same : row ≡ s = ground arith in
    subst
      (λ (r : WorkflowStateSnapshot).
        (s'.steps ≡ r.steps)
        × (is_compensated s'.workflow.status ≡ true → any is_effect r.steps ≡ false))
      same (begun_row worker at row s' commits)
