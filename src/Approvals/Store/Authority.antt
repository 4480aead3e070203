-- ===== src/Approvals/Store/Authority.antt =====
-- Which requests can approve.
use harmony_takehome.Prelude.{
  String, ◌≡◌, refl, ◌≢◌, Bool, false, ◌&&◌, some, List, [], ◌∷◌, ltb, arith, All, ◌==◌, string_eq,
}
use harmony_takehome.Domain.{Plan, Approval, ApprovalStatus}
use harmony_takehome.Approvals.Store.{
  ApprovalDb, Request, creates, approves, rejects, reroutes, load, run_requests,
}
use harmony_takehome.Approvals.Store.Lifecycle.{
  after_request, after_requests, load-run_requests, IsLater, after_request-IsLater,
}

-- A request to approve this approval, by its hash and before it expires.
abbrev pub may_approve : Approval → Request → Bool
may_approve a (approves id hash decider at) =
    a.approval_id == id && a.plan_hash == hash && ltb at a.expires_at
may_approve a _ = false

unapproved_by :
    (r : Request) (a : Approval)
    → may_approve a r ≡ false
    → a.status ≢ ApprovalStatus.approved
    → (after_request r a).status ≢ ApprovalStatus.approved
unapproved_by (creates plan approval) a h u = u
unapproved_by (approves id hash decider at) a h u = ground arith
unapproved_by (rejects id hash decider at) a h u = ground arith
unapproved_by (reroutes id hash original backup at) a h u = ground arith

may_approve_later :
    (a b : Approval) (r : Request) → IsLater a b → may_approve a r ≡ false → may_approve b r ≡ false
may_approve_later a b (creates plan approval) l h = refl
may_approve_later a b (approves id hash decider at) l h =
    rw (l.same_id, l.same_hash, l.same_times.1) h
may_approve_later a b (rejects id hash decider at) l h = refl
may_approve_later a b (reroutes id hash original backup at) l h = refl

All-later :
    (a b : Approval) (rs : List Request)
    → IsLater a b
    → All (λ r. may_approve a r ≡ false) rs
    → All (λ r. may_approve b r ≡ false) rs
All-later a b [] l h = tt
All-later a b (r ∷ rs) l h = (may_approve_later a b r l h.0, All-later a b rs l h.1)

unapproved :
    (rs : List Request) (a : Approval)
    → All (λ r. may_approve a r ≡ false) rs
    → a.status ≢ ApprovalStatus.approved
    → (after_requests rs a).status ≢ ApprovalStatus.approved
unapproved [] a h u = u
unapproved (r ∷ rs) a h u =
    unapproved rs (after_request r a)
      (All-later a (after_request r a) rs (after_request-IsLater r a) h.1) (unapproved_by r a h.0 u)

-- A stored approval that is not approved is still not approved after any requests, insertions
-- included, among which none asks to approve it by its exact plan hash before its expiry.
pub run_requests-unapproved :
    (id : String) (rs : List Request) (db : ApprovalDb) (plan : Plan) (a : Approval)
    → load id db ≡ some (plan, a)
    → All (λ r. may_approve a r ≡ false) rs
    → a.status ≢ ApprovalStatus.approved
    → (b : Approval) × (load id (run_requests rs db) ≡ some (plan, b))
      × (b.status ≢ ApprovalStatus.approved)
run_requests-unapproved id rs db plan a found h u =
    (after_requests rs a, load-run_requests id rs db plan a found, unapproved rs a h u)
