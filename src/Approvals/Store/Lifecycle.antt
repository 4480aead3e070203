-- ===== src/Approvals/Store/Lifecycle.antt =====
-- What requests do to the approval with one identifier.
use harmony_takehome.Prelude.{
  String, ◌≡◌, refl, ◌∙◌, find-map, find-append, find, any, if-cases, Result, ◌!=◌, Bool, true,
  false, ◌⊎◌, inl, inr, Option, some, List, [], ◌∷◌, arith, ◌<◌, ◌≤◌, ℕ, if◌then◌else◌, string_eq,
}
use harmony_takehome.Domain.{Instant, Plan, Approval, ApprovalStatus}
use harmony_takehome.Approvals.Store.{
  Binding, ApprovalDb, Request, creates, create_pending, clashes, approve, reject, reroute, decide,
  approves, rejects, reroutes, load, load_for_plan, perform, run_requests, has_approval_id,
  has_plan_id, decidable_by, decided, reroutable, transferred,
}

-- The row after a request.
abbrev pub after_request : Request → Approval → Approval
after_request (creates plan approval) a = a
after_request (approves id hash decider at) a =
    if decidable_by id hash decider at a then decided ApprovalStatus.approved at a else a
after_request (rejects id hash decider at) a =
    if decidable_by id hash decider at a then decided ApprovalStatus.rejected at a else a
after_request (reroutes id hash original backup at) a =
    if reroutable id hash original at a then transferred backup a else a

abbrev pub after_requests : List Request → Approval → Approval
after_requests [] a = a
after_requests (r ∷ rs) a = after_requests rs (after_request r a)

-- How far an approval is decided: pending 0, rerouted 1, and a decision 2.
abbrev pub rank : ApprovalStatus → ℕ
rank ApprovalStatus.pending = 0
rank ApprovalStatus.rerouted = 1
rank _ = 2

-- What stays of an approval, and what may change of it: its binding stays, its status only moves
-- forward, a decision stays as it is, and the approver changes only with the status.
pub record IsLater (a b : Approval) : Type 0 where
  pub same_id : b.approval_id ≡ a.approval_id
  pub same_plan : b.plan_id ≡ a.plan_id
  pub same_hash : b.plan_hash ≡ a.plan_hash
  pub same_requester : b.requester_id ≡ a.requester_id
  pub same_times : (b.requested_at ≡ a.requested_at) × (b.expires_at ≡ a.expires_at)
  pub forward : rank a.status ≤ rank b.status
  pub settled : (rank a.status < 2) ⊎ (b ≡ a)
  pub approver : (b.approver_id ≡ a.approver_id) ⊎ (rank a.status < rank b.status)

after_request_id : (r : Request) (a : Approval) → (after_request r a).approval_id ≡ a.approval_id
after_request_id (creates plan approval) a = refl
after_request_id (approves id hash decider at) a = ground arith
after_request_id (rejects id hash decider at) a = ground arith
after_request_id (reroutes id hash original backup at) a = ground arith

-- The rows of the table after a request.
abbrev after_row : Request → Binding → Binding
after_row r (plan, a) = (plan, after_request r a)

-- What is found among the rows is found, as the request leaves it.
find-perform :
    (test : Binding → Bool) (r : Request) (db : ApprovalDb) (plan : Plan) (a : Approval)
    → ((b : Binding) → test (after_row r b) ≡ test b)
    → find test db ≡ some (plan, a)
    → find test (perform r db) ≡ some (plan, after_request r a)
unfolding perform create_pending approve reject reroute decide
find-perform test (creates new approval) db plan a same h =
    if-cases (λ (p : Result String (Unit {0}) × ApprovalDb). find test p.1 ≡ some (plan, a))
      (any (clashes new approval) db) _ _ (λ _. h)
      (λ _.
        if-cases (λ (p : Result String (Unit {0}) × ApprovalDb). find test p.1 ≡ some (plan, a))
          (approval.plan_hash != new.plan_hash) _ _ (λ _. h)
          (λ _. find-append test db _ (plan, a) h))
find-perform test (approves id hash decider at) db plan a same h =
    find-map test (after_row (approves id hash decider at)) same db (plan, a) h
find-perform test (rejects id hash decider at) db plan a same h =
    find-map test (after_row (rejects id hash decider at)) same db (plan, a) h
find-perform test (reroutes id hash original backup at) db plan a same h =
    find-map test (after_row (reroutes id hash original backup at)) same db (plan, a) h

load-perform :
    (id : String) (r : Request) (db : ApprovalDb) (plan : Plan) (a : Approval)
    → load id db ≡ some (plan, a)
    → load id (perform r db) ≡ some (plan, after_request r a)
unfolding load
load-perform id r db plan a h =
    find-perform (has_approval_id id) r db plan a (λ b. ground (arith, after_request_id r b.1)) h

load_for_plan-perform :
    (id : String) (r : Request) (db : ApprovalDb) (plan : Plan) (a : Approval)
    → load_for_plan id db ≡ some (plan, a)
    → load_for_plan id (perform r db) ≡ some (plan, after_request r a)
unfolding load_for_plan
load_for_plan-perform id r db plan a h = find-perform (has_plan_id id) r db plan a (λ b. refl) h

pub load-run_requests :
    (id : String) (rs : List Request) (db : ApprovalDb) (plan : Plan) (a : Approval)
    → load id db ≡ some (plan, a)
    → load id (run_requests rs db) ≡ some (plan, after_requests rs a)
unfolding run_requests
load-run_requests id [] db plan a h = h
load-run_requests id (r ∷ rs) db plan a h =
    load-run_requests id rs (perform r db) plan (after_request r a) (load-perform id r db plan a h)

pub load_for_plan-run_requests :
    (id : String) (rs : List Request) (db : ApprovalDb) (plan : Plan) (a : Approval)
    → load_for_plan id db ≡ some (plan, a)
    → load_for_plan id (run_requests rs db) ≡ some (plan, after_requests rs a)
unfolding run_requests
load_for_plan-run_requests id [] db plan a h = h
load_for_plan-run_requests id (r ∷ rs) db plan a h =
    load_for_plan-run_requests id rs (perform r db) plan (after_request r a)
      (load_for_plan-perform id r db plan a h)

IsLater-refl : (a : Approval) → IsLater a a
IsLater-refl a = record {
  same_id = refl;
  same_plan = refl;
  same_hash = refl;
  same_requester = refl;
  same_times = (refl, refl);
  forward = omega arith;
  settled = inr refl;
  approver = inl refl;
}

changed-IsLater :
    (b : Bool) (a a' : Approval) → (b ≡ true → IsLater a a') → IsLater a (if b then a' else a)
changed-IsLater true a a' h = h refl
changed-IsLater false a a' h = IsLater-refl a

-- An active approval that keeps all but its status, its approver and its time of decision.
advanced :
    (a : Approval) (approver : String) (status : ApprovalStatus) (at : Option Instant)
    → rank a.status < 2
    → rank a.status < rank status
    → IsLater a (record a { approver_id = approver; status = status; decided_at = at })
advanced a approver status at active forward = record {
  same_id = refl;
  same_plan = refl;
  same_hash = refl;
  same_requester = refl;
  same_times = (refl, refl);
  forward = omega (arith, forward);
  settled = inl active;
  approver = inr forward;
}

pub after_request-IsLater : (r : Request) (a : Approval) → IsLater a (after_request r a)
after_request-IsLater (creates plan approval) a = IsLater-refl a
after_request-IsLater (approves id hash decider at) a =
    changed-IsLater (decidable_by id hash decider at a) a (decided ApprovalStatus.approved at a)
      (λ e.
        advanced a a.approver_id ApprovalStatus.approved (some at) (ground arith) (ground arith))
after_request-IsLater (rejects id hash decider at) a =
    changed-IsLater (decidable_by id hash decider at a) a (decided ApprovalStatus.rejected at a)
      (λ e.
        advanced a a.approver_id ApprovalStatus.rejected (some at) (ground arith) (ground arith))
after_request-IsLater (reroutes id hash original backup at) a =
    changed-IsLater (reroutable id hash original at a) a (transferred backup a)
      (λ e. advanced a backup ApprovalStatus.rerouted a.decided_at (ground arith) (ground arith))

IsLater-trans : (a b c : Approval) → IsLater a b → IsLater b c → IsLater a c
IsLater-trans a b c h k = record {
  same_id = k.same_id ∙ h.same_id;
  same_plan = k.same_plan ∙ h.same_plan;
  same_hash = k.same_hash ∙ h.same_hash;
  same_requester = k.same_requester ∙ h.same_requester;
  same_times = (k.same_times.0 ∙ h.same_times.0, k.same_times.1 ∙ h.same_times.1);
  forward = omega (arith, h.forward, k.forward);
  settled = ground (arith, h.settled, k.settled);
  approver = ground (arith, h.approver, k.approver, h.forward, k.forward);
}

pub after_requests-IsLater : (rs : List Request) (a : Approval) → IsLater a (after_requests rs a)
after_requests-IsLater [] a = IsLater-refl a
after_requests-IsLater (r ∷ rs) a =
    IsLater-trans a (after_request r a) (after_requests rs (after_request r a))
      (after_request-IsLater r a) (after_requests-IsLater rs (after_request r a))

-- After any requests, insertions included, an approval that was stored is still stored with its own
-- plan: its binding to the plan, its hash, its requester and its times are as they were, its status
-- has only moved forward, from pending to rerouted to a decision, and a decided approval is exactly
-- as it was.
pub run_requests-IsLater :
    (id : String) (rs : List Request) (db : ApprovalDb) (plan : Plan) (a : Approval)
    → load id db ≡ some (plan, a)
    → (b : Approval) × (load id (run_requests rs db) ≡ some (plan, b)) × IsLater a b
run_requests-IsLater id rs db plan a h =
    (after_requests rs a, load-run_requests id rs db plan a h, after_requests-IsLater rs a)
