-- ===== src/Approvals/PendingRequest.antt =====
-- `request_pending` of src/enterprise_agent/application/approvals.py: from a recommendation and its
-- gate to a stored plan, its pending approval and the task of its escalation. The gate is an
-- argument, as in the constructor; fresh identifiers are arguments.
pub mod Stored
use harmony_takehome.Prelude.{
  ℕ, ◌+◌, String, Bool, true, false, not, ◌||◌, Option, none, some, List, [], ◌∷◌, map, Result, ok,
  err, and_then, Action, if◌then◌else◌, leb,
}
use harmony_takehome.Json.{Json, Fields, text, end, field}
use harmony_takehome.Text.{Python}
use harmony_takehome.Domain.{
  Instant, Plan, Approval, ApprovalStatus, AuditEvent, ScheduledTask, Versions,
}
use harmony_takehome.Audit.{recorded}
use harmony_takehome.Planning.{Money, GateDecision, is_pending_approval}
use harmony_takehome.Planning.Context.{
  AuthorizedContextBundle, EnterWorkflowRecommendation, ScenarioARecommendation, enter_workflow,
  evidence, source_versions,
}
use harmony_takehome.Planning.BoundedGate.{hashed}
use harmony_takehome.Approvals.Store.{ApprovalDb, create_pending}
use harmony_takehome.Approvals.Service.{
  PendingPlanApproval, requested_approval, pending_plan_events,
}
use harmony_takehome.Approvals.Escalation.{RoutingError}
use harmony_takehome.Approvals.Routing
use harmony_takehome.Approvals.Routing.{RoutingPorts, Office}

pub data RequestError : Type 0 where
  not_approvable gate_error store_error : String → RequestError
  escalation_error : RoutingError → RequestError

abbrev pub Gate : Type 0
Gate = AuthorizedContextBundle → ScenarioARecommendation → Versions → Result String GateDecision

-- The plan of a proposal and of its value, before its hash.
unfoldable pub proposed_plan :
    String
    → AuthorizedContextBundle
    → EnterWorkflowRecommendation
    → Money
    → String
    → Instant
    → Instant
    → Plan
unfolding source_versions
proposed_plan id context r value policy requested expires = record {
  plan_id = id;
  attention_id = context.attention.attention_id;
  actor_id = context.actor.user_id;
  approver_id = context.actor.user_id;
  intent = "enter_workflow";
  workflow_name = some r.workflow_name;
  workflow_version = some r.workflow_version;
  parameters = field "supplier_id" (text r.supplier_id) (
      field "quantity" (text r.quantity) (
        field "original_purchase_order_id" (text r.original_purchase_order_id) (
          field "production_order_id" (text r.production_order_id) (
            field "estimated_value_amount" (text value.amount)
              (field "estimated_value_currency" (text value.currency) end)))));
  source_versions = source_versions context;
  policy_version = policy;
  plan_hash = "";
  created_at = requested;
  expires_at = expires;
}

abbrev pub proposal_of :
    ScenarioARecommendation
    → Option Money
    → Result RequestError (EnterWorkflowRecommendation × Money)
proposal_of (enter_workflow r) (some value) = ok (r, value)
proposal_of _ _ = err (not_approvable "only a gate result pending approval may create a plan")

-- The decision lets the recommendation become a plan.
abbrev pub planned_for :
    GateDecision
    → ScenarioARecommendation
    → Result RequestError (EnterWorkflowRecommendation × Money)
planned_for decision recommendation =
    if not (is_pending_approval decision.status) || not decision.approval_required
    then err (not_approvable "only a gate result pending approval may create a plan")
    else proposal_of recommendation decision.estimated_value

abbrev pub decided_gate : Result String GateDecision → Result RequestError GateDecision
decided_gate (ok decision) = ok decision
decided_gate (err message) = err (gate_error message)

-- What the request accepts: the decision, the proposal and its value.
unfoldable pub accepted :
    Gate
    → AuthorizedContextBundle
    → ScenarioARecommendation
    → Versions
    → Instant
    → Instant
    → Result RequestError (GateDecision × (EnterWorkflowRecommendation × Money))
accepted gate context recommendation current requested expires =
    if leb expires requested
    then err (not_approvable "plan expiry must be after the approval request time")
    else and_then (decided_gate (gate context recommendation current)) (λ decision.
      and_then (planned_for decision recommendation) (λ proposal. ok (decision, proposal)))

abbrev pub after_escalation :
    PendingPlanApproval
    → Result RoutingError ScheduledTask × Office
    → Result RequestError PendingPlanApproval × Office
after_escalation pending (ok task, office) = (ok pending, office)
after_escalation pending (err e, office) = (err (escalation_error e), office)

-- The paired escalation, where a scheduler is configured.
abbrev pub escalated :
    Option RoutingPorts
    → Option String
    → PendingPlanApproval
    → Office
    → Result RequestError PendingPlanApproval × Office
escalated none run_id pending office = (ok pending, office)
escalated (some ports) run_id pending office =
    after_escalation pending (Routing.schedule_escalation ports pending.approval run_id office)

-- The plan and its approval are stored together; then come the events and the escalation.
unfoldable pub stored_pending :
    Python
    → Bool
    → Option RoutingPorts
    → Option String
    → List String
    → PendingPlanApproval
    → Office
    → Result String (Unit {0}) × ApprovalDb
    → Result RequestError PendingPlanApproval × Office
unfolding Routing.schedule_escalation pending_plan_events
stored_pending python audited ports run_id evidence_ids pending office (err message, db) =
    (err (store_error message), record office { approvals = db })
stored_pending python audited ports run_id evidence_ids pending office (ok _, db) =
    escalated ports run_id pending (record office {
      approvals = db;
      trail =
          recorded audited run_id
            (pending_plan_events python pending.plan pending.approval pending.gate_decision
              evidence_ids (some "ENTER_WORKFLOW"))
            office.trail;
    })

-- The plan with its hash, its approval, and the decision.
abbrev pub pending_plan :
    Python
    → String
    → String
    → AuthorizedContextBundle
    → String
    → Instant
    → Instant
    → GateDecision
    → EnterWorkflowRecommendation
    → Money
    → PendingPlanApproval
pending_plan python plan_id approval_id context policy requested expires decision r value =
    let plan = hashed python (proposed_plan plan_id context r value policy requested expires) in
    record {
      plan = plan;
      approval = requested_approval python approval_id plan requested expires;
      gate_decision = decision;
    }

abbrev requested_with :
    (PendingPlanApproval → Result RequestError PendingPlanApproval × Office)
    → (GateDecision → EnterWorkflowRecommendation → Money → PendingPlanApproval)
    → Office
    → Result RequestError (GateDecision × (EnterWorkflowRecommendation × Money))
    → Result RequestError PendingPlanApproval × Office
requested_with call pending office (err e) = (err e, office)
requested_with call pending office (ok (decision, (r, value))) = call (pending decision r value)

unfoldable pub request_pending :
    Python
    → Bool
    → Gate
    → Option RoutingPorts
    → String
    → String
    → AuthorizedContextBundle
    → ScenarioARecommendation
    → Versions
    → String
    → Instant
    → Instant
    → Option String
    → Action Office RequestError PendingPlanApproval
unfolding accepted stored_pending proposed_plan hashed create_pending evidence
request_pending python audited gate ports plan_id approval_id context recommendation current policy
      requested expires run_id office =
    requested_with
      (λ pending.
        stored_pending python audited ports run_id
          (map (λ item. item.evidence_id) (evidence context)) pending office
          (create_pending pending.plan pending.approval office.approvals))
      (pending_plan python plan_id approval_id context policy requested expires) office
      (accepted gate context recommendation current requested expires)
