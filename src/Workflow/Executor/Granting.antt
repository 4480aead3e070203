-- ===== src/Workflow/Executor/Granting.antt =====
-- What `claim` has done when it returns.
use harmony_takehome.Prelude.{
  ◌<◌, ◌≡◌, subst, String, true, false, Option, some, Result, ok, Action, raise_if_inv,
  or_raise_inv, lift_inv, bind_inv, leb, arith, string_eq,
}
use harmony_takehome.Domain.{Instant, Versions, WorkflowStateSnapshot}
use harmony_takehome.Workflow.Declarations.{WorkflowDefinition}
use harmony_takehome.Workflow.Executor.Machine.{
  record_audit_keeps, store, Machine, Ports, ExecutionError,
}
use harmony_takehome.Workflow.Store.Request as Store
use harmony_takehome.Workflow.Store.Database.{WorkflowDb, load, transact}
use harmony_takehome.Workflow.Store.Statements.{claimable}
use harmony_takehome.Workflow.Store.Lease.{IsLeased}
use harmony_takehome.Text.{is_blank}
use harmony_takehome.Workflow.Store.Grant.{transact-claim}
use harmony_takehome.Workflow.Executor.Claim.{claim_checks, claim, start_event, started_facts}
use harmony_takehome.Workflow.Executor.Authorization.{Cleared, claim_checks_ok}

module _ {E : Type 0} (ports : Ports E) where
  start_event_keeps :
      (snapshot : WorkflowStateSnapshot) (definition : WorkflowDefinition) (now : Instant)
      (claimed : WorkflowStateSnapshot) (m m' : Machine E) (u : Unit)
      → start_event ports snapshot definition now claimed m ≡ (ok u, m')
      → (m'.db ≡ m.db) × (m'.effects ≡ m.effects)
  start_event_keeps snapshot definition now claimed m m' u h =
      ground (arith, record_audit_keeps ports claimed (started_facts definition now) m)

  pub stored_ok :
      {A : Type 0} (t : Action WorkflowDb String A) (a : A) (m m' : Machine E)
      → store t m ≡ (ok a, m')
      → (t m.db ≡ (ok a, m'.db)) × (m'.effects ≡ m.effects)
  stored_ok t a m m' h = ground arith

  -- The grant of a lease: the loaded workflow was cleared and free to claim, its row now names the
  -- worker and the expiry, and no tool has been called.
  pub record IsGranted (id worker : String) (now expires : Instant) (current : Versions)
      (m m' : Machine E) (claimed : WorkflowStateSnapshot) : Type 0 where
    pub snapshot : WorkflowStateSnapshot
    pub definition : WorkflowDefinition
    pub loaded : load id m.db ≡ some snapshot
    pub cleared : Cleared ports snapshot now current definition
    pub later : now < expires
    pub free : claimable worker now snapshot.workflow ≡ true
    pub leased : IsLeased worker expires claimed
    pub written : load id m'.db ≡ some claimed
    pub untouched : m'.effects ≡ m.effects

  granted :
      (id worker : String) (now expires : Instant) (current : Versions) (m m' : Machine E)
      (claimed snapshot : WorkflowStateSnapshot) (definition : WorkflowDefinition)
      → load id m.db ≡ some snapshot
      → leb expires now ≡ false
      → claim_checks ports snapshot now current ≡ ok definition
      → transact id (Store.claim worker now expires) m.db ≡ (ok (some claimed), m'.db)
      → m'.effects ≡ m.effects
      → IsGranted id worker now expires current m m' claimed
  granted id worker now expires current m m' claimed snapshot definition loaded later checked sent
        kept =
      let (row, found, free, leased, written) =
        transact-claim id worker now expires claimed m.db m'.db sent in
      let same : row ≡ snapshot = ground arith in
      record {
        snapshot = snapshot;
        definition = definition;
        loaded = loaded;
        cleared = claim_checks_ok ports snapshot now current definition checked;
        later = ground arith;
        free =
            subst (λ (r : WorkflowStateSnapshot). claimable worker now r.workflow ≡ true) same free;
        leased = leased;
        written = written;
        untouched = kept;
      }

  sent_row :
      (id worker : String) (now expires : Instant) (claimed snapshot : WorkflowStateSnapshot)
      (definition : WorkflowDefinition) (m m1 m2 m' : Machine E)
      (answer : Option WorkflowStateSnapshot) (row : WorkflowStateSnapshot) (u : Unit)
      → store (transact id (Store.claim worker now expires)) m ≡ (ok answer, m1)
      → answer ≡ some row
      → start_event ports snapshot definition now row m1 ≡ (ok u, m2)
      → Path (Result ExecutionError WorkflowStateSnapshot × Machine E) (ok row, m2) (ok claimed, m')
      → (transact id (Store.claim worker now expires) m.db ≡ (ok (some claimed), m'.db))
        × (m'.effects ≡ m.effects)
  sent_row id worker now expires claimed snapshot definition m m1 m2 m' answer row u sent returned
        noted h =
      let (asked, kept) =
        stored_ok (transact id (Store.claim worker now expires)) answer m m1 sent in
      let (same_db, same_effects) = start_event_keeps snapshot definition now row m1 m2 u noted in
      (cc, cc)

  -- If `claim` returns, the loaded workflow had an approved, unexpired approval that is bound to its
  -- plan by the recomputed hash, unchanged sources, the declared steps and an actor with every
  -- declared scope; its row was free to claim; the store now holds it leased to the worker until
  -- the expiry, which is in the future; and no tool has been called.
  pub claim_ok :
      (id worker : String) (now expires : Instant) (current : Versions) (m m' : Machine E)
      (claimed : WorkflowStateSnapshot)
      → claim ports id worker now expires current m ≡ (ok claimed, m')
      → IsGranted id worker now expires current m m' claimed
  unfolding claim
  claim_ok id worker now expires current m m' claimed h =
      raise_if_inv (is_blank worker) _ _ claimed m m' h (λ named h1.
        raise_if_inv (leb expires now) _ _ claimed m m' h1 (λ later h2.
          or_raise_inv (load id m.db) _ _ claimed m m' h2 (λ snapshot loaded h3.
            lift_inv (claim_checks ports snapshot now current) _ claimed m m' h3
              (λ definition checked h4.
                bind_inv (store (transact id (Store.claim worker now expires))) _ claimed m m' h4
                  (λ answer m1 sent h5. or_raise_inv answer _ _ claimed m1 m' h5 (λ row returned h6.
                    bind_inv (start_event ports snapshot definition now row) _ claimed m1 m' h6
                      (λ u m2 noted h7.
                        granted id worker now expires current m m' claimed snapshot definition
                          loaded later checked
                          (sent_row id worker now expires claimed snapshot definition m m1 m2 m'
                            answer row u sent returned noted h7).0
                          (sent_row id worker now expires claimed snapshot definition m m1 m2 m'
                            answer row u sent returned noted h7).1)))))))
