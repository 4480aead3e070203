-- ===== src/Approvals/Store.antt =====
-- PostgresPlanApprovalAdapter of src/enterprise_agent/adapters/plan_approvals.py. The database is a
-- list of plans with their approvals: a plan and an approval are only inserted together. An UPDATE
-- acts on every row that its condition selects, and returns the first.
pub mod Lookup
pub mod Lifecycle
pub mod Authority
use harmony_takehome.Prelude.{
  String, Bool, true, false, ◌&&◌, ◌||◌, Option, none, some, List, [], ◌∷◌, ◌++◌, map, find, any,
  Result, ok, err, ◌==◌, ◌!=◌, string_eq, ltb, if◌then◌else◌,
}
use harmony_takehome.Domain.{Instant, Plan, Approval, ApprovalStatus}

abbrev pub Binding : Type 0
Binding = Plan × Approval

abbrev pub ApprovalDb : Type 0
ApprovalDb = List Binding

abbrev pub is_pending : ApprovalStatus → Bool
is_pending ApprovalStatus.pending = true
is_pending _ = false

-- `status IN ('pending', 'rerouted')`
abbrev pub is_active : ApprovalStatus → Bool
is_active ApprovalStatus.pending = true
is_active ApprovalStatus.rerouted = true
is_active _ = false

abbrev pub clashes : Plan → Approval → Binding → Bool
clashes plan approval (p, a) = p.plan_id == plan.plan_id || a.approval_id == approval.approval_id

-- `create_pending`: the primary keys refuse a second row, and the trigger of the table refuses an
-- approval whose hash is not that of its plan.
unfoldable pub create_pending : Plan → Approval → ApprovalDb → Result String (Unit {0}) × ApprovalDb
create_pending plan approval db =
    if any (clashes plan approval) db
    then (err "duplicate key value violates unique constraint", db)
    else if approval.plan_hash != plan.plan_hash
    then (err "approval plan hash must match its immutable plan", db)
    else (ok tt, db ++ (plan, record approval { decided_at = none }) ∷ [])

abbrev pub has_approval_id : String → Binding → Bool
has_approval_id id (plan, approval) = approval.approval_id == id

abbrev pub has_plan_id : String → Binding → Bool
has_plan_id id (plan, approval) = plan.plan_id == id

unfoldable pub load : String → ApprovalDb → Option Binding
load id db = find (has_approval_id id) db

unfoldable pub load_for_plan : String → ApprovalDb → Option Binding
load_for_plan id db = find (has_plan_id id) db

-- The condition of DECIDE_ACTIVE_APPROVAL, and what it sets.
abbrev pub decidable_by : String → String → String → Instant → Approval → Bool
decidable_by id hash decider at a =
    a.approval_id == id
    && is_active a.status
    && a.plan_hash == hash
    && a.approver_id == decider
    && ltb at a.expires_at

abbrev pub decided : ApprovalStatus → Instant → Approval → Approval
decided status at a = record a { status = status; decided_at = some at }

-- The condition of REROUTE_PENDING_APPROVAL, and what it sets.
abbrev pub reroutable : String → String → String → Instant → Approval → Bool
reroutable id hash original at a =
    a.approval_id == id
    && is_pending a.status
    && a.plan_hash == hash
    && a.approver_id == original
    && ltb at a.expires_at

abbrev pub transferred : String → Approval → Approval
transferred backup a = record a { approver_id = backup; status = ApprovalStatus.rerouted }

abbrev pub changed_row : (Approval → Bool) → (Approval → Approval) → Binding → Binding
changed_row test change (plan, a) = (plan, if test a then change a else a)

abbrev pub selected_by : (Approval → Bool) → Binding → Bool
selected_by test (plan, a) = test a

abbrev pub returned_row : (Approval → Approval) → Option Binding → Option Approval
returned_row change none = none
returned_row change (some (plan, a)) = some (change a)

-- `UPDATE approvals SET change WHERE test RETURNING ...`
abbrev pub update_approvals :
    (Approval → Bool) → (Approval → Approval) → ApprovalDb → Option Approval × ApprovalDb
update_approvals test change db =
    (returned_row change (find (selected_by test) db), map (changed_row test change) db)

-- `_decide`
unfoldable pub decide :
    String → String → String → ApprovalStatus → Instant → ApprovalDb → Option Approval × ApprovalDb
decide id hash decider status at =
    update_approvals (decidable_by id hash decider at) (decided status at)

unfoldable pub approve :
    String → String → String → Instant → ApprovalDb → Option Approval × ApprovalDb
unfolding decide
approve id hash decider at = decide id hash decider ApprovalStatus.approved at

unfoldable pub reject :
    String → String → String → Instant → ApprovalDb → Option Approval × ApprovalDb
unfolding decide
reject id hash decider at = decide id hash decider ApprovalStatus.rejected at

unfoldable pub reroute :
    String → String → String → String → Instant → ApprovalDb → Option Approval × ApprovalDb
reroute id hash original backup at =
    update_approvals (reroutable id hash original at) (transferred backup)

-- One call of the adapter that writes.
pub data Request : Type 0 where
  creates : Plan → Approval → Request
  approves : String → String → String → Instant → Request
  rejects : String → String → String → Instant → Request
  reroutes : String → String → String → String → Instant → Request

-- The table after the call, whatever it returns or raises.
unfoldable pub perform : Request → ApprovalDb → ApprovalDb
unfolding create_pending approve reject reroute
perform (creates plan approval) db = (create_pending plan approval db).1
perform (approves id hash decider at) db = (approve id hash decider at db).1
perform (rejects id hash decider at) db = (reject id hash decider at db).1
perform (reroutes id hash original backup at) db = (reroute id hash original backup at db).1

unfoldable pub run_requests : List Request → ApprovalDb → ApprovalDb
unfolding perform
run_requests [] db = db
run_requests (r ∷ rs) db = run_requests rs (perform r db)
