-- ===== src/Approvals/Execution.antt =====
-- The executor over the store of approvals: its port reads the table by the plan of the workflow.
use harmony_takehome.Prelude.{
  ◌<◌, String, ◌≡◌, ◌≢◌, sym, ap, subst, ◌∙◌, ◌⊎◌, inl, inr, some, List, ok, arith,
}
use harmony_takehome.Domain.{
  Instant, Plan, Approval, ApprovalStatus, Versions, WorkflowStateSnapshot,
}
use harmony_takehome.Approvals.Store.{Binding, ApprovalDb, Request, load_for_plan, run_requests}
use harmony_takehome.Approvals.Store.Lifecycle.{
  load_for_plan-run_requests, after_requests, after_requests-IsLater, rank,
}
use harmony_takehome.Workflow.Declarations.{WorkflowDefinition}
use harmony_takehome.Workflow.Executor.Machine.{Ports, Machine}
use harmony_takehome.Workflow.Executor.Claim.{claim}
use harmony_takehome.Workflow.Executor.Granting.{claim_ok}
use harmony_takehome.Workflow.Executor.Authorization.{Cleared}
use harmony_takehome.Workflow.Store.Database
use harmony_takehome.Workflow.Store.Database.{WorkflowDb}

-- The ports of an executor that reads this table.
abbrev pub over : {E : Type 0} → Ports E → ApprovalDb → Ports E
over ports db = record ports { load_for_plan = λ plan_id. load_for_plan plan_id db }

-- A decided approval stays as it is.
settled_approval : (rs : List Request) (a : Approval) → rank a.status ≡ 2 → after_requests rs a ≡ a
settled_approval rs a k = same (after_requests-IsLater rs a).settled
  where
    same : (rank a.status < 2) ⊎ (after_requests rs a ≡ a) → after_requests rs a ≡ a
    same (inl early) = ground (arith, early, k)
    same (inr e) = e

module _ {E : Type 0} (ports : Ports E) (id worker : String) (now expires : Instant)
    (current : Versions) (m m' : Machine E) (claimed : WorkflowStateSnapshot) where
  cleared_status :
      (db : ApprovalDb) (snapshot : WorkflowStateSnapshot) (definition : WorkflowDefinition)
      (plan : Plan) (a : Approval)
      → Cleared (over ports db) snapshot now current definition
      → load_for_plan snapshot.workflow.plan_id db ≡ some (plan, a)
      → a.status ≡ ApprovalStatus.approved
  unfolding Cleared
  cleared_status db snapshot definition plan a (plan', a', found', authorized) found =
      let same : a' ≡ a = some_pair (plan', a') (plan, a) (sym found' ∙ found) in
      subst (λ (x : Approval). x.status ≡ ApprovalStatus.approved) same authorized.approved
    where
      some_pair : (x y : Binding) → some x ≡ some y → x.1 ≡ y.1
      some_pair x y h = ground arith

  -- If a workflow is claimed over the table, then the approval that the table holds for its plan is
  -- approved.
  approved_for :
      (db : ApprovalDb) (snapshot : WorkflowStateSnapshot) (plan : Plan) (a : Approval)
      → Database.load id m.db ≡ some snapshot
      → load_for_plan snapshot.workflow.plan_id db ≡ some (plan, a)
      → claim (over ports db) id worker now expires current m ≡ (ok claimed, m')
      → a.status ≡ ApprovalStatus.approved
  approved_for db snapshot plan a loaded found h =
      let grant = claim_ok (over ports db) id worker now expires current m m' claimed h in
      let same : snapshot ≡ grant.snapshot =
        some_inj snapshot grant.snapshot (sym loaded ∙ grant.loaded) in
      cleared_status db grant.snapshot grant.definition plan a grant.cleared (
        subst (λ (s : WorkflowStateSnapshot). load_for_plan s.workflow.plan_id db ≡ some (plan, a))
          same found)
    where
      some_inj : (s s' : WorkflowStateSnapshot) → some s ≡ some s' → s ≡ s'
      some_inj s s' h = ground arith

  -- Once the approval of a plan has been decided and is not approved, as after a rejection, no
  -- workflow of that plan can be claimed over the store of approvals, whatever requests the store
  -- has answered since, insertions included.
  pub claim-unapproved :
      (db : ApprovalDb) (rs : List Request) (snapshot : WorkflowStateSnapshot) (plan : Plan)
      (a : Approval)
      → Database.load id m.db ≡ some snapshot
      → load_for_plan snapshot.workflow.plan_id db ≡ some (plan, a)
      → rank a.status ≡ 2
      → a.status ≢ ApprovalStatus.approved
      → claim (over ports (run_requests rs db)) id worker now expires current m ≢ (ok claimed, m')
  claim-unapproved db rs snapshot plan a loaded found settled unapproved h = unapproved (
      approved_for (run_requests rs db) snapshot plan a loaded
        (load_for_plan-run_requests snapshot.workflow.plan_id rs db plan a found
          ∙ ap (λ x. some (plan, x)) (settled_approval rs a settled))
        h)
