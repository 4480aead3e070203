-- ===== src/Approvals/Service.antt =====
-- PlanApprovalService of src/enterprise_agent/application/approvals.py: `approve`, `reject` and
-- `request_pending_plan`, on the tables of the approvals and the trail of audit events. An error is
-- the message of a PlanNotApprovableError, or the database's own. A fresh identifier is an argument.
pub mod Decisions
pub mod Finality
use harmony_takehome.Prelude.{
  ℕ, ◌+◌, String, Bool, true, false, ◌&&◌, ◌||◌, not, Option, none, some, List, [], ◌∷◌, ◌++◌,
  Result, ok, err, and_then, Action, if◌then◌else◌, ◌==◌, ◌!=◌, string_eq, nat_eq, leb,
}
use harmony_takehome.Json.{Fields, text, end, field}
use harmony_takehome.Text.{Python, is_blank}
use harmony_takehome.Domain.{
  Instant, Plan, Approval, ApprovalStatus, AuditEvent, Versions, versions_eqb,
}
use harmony_takehome.Audit.{material_event, recorded}
use harmony_takehome.Planning.{Money, GateStatus, GateDecision, is_pending_approval}
use harmony_takehome.Workflow.PlanHash.{recompute_plan_hash}
use harmony_takehome.Approvals.Store
use harmony_takehome.Approvals.Store.{Binding, ApprovalDb, is_active, load, create_pending}

pub record Desk : Type 0 where
  pub approvals : ApprovalDb
  pub trail : List AuditEvent

pub record PendingPlanApproval : Type 0 where
  pub plan : Plan
  pub approval : Approval
  pub gate_decision : GateDecision

-- `if bad: raise PlanNotApprovableError(message)`
abbrev pub refuse_if : {A : Type 0} → Bool → String → Result String A → Result String A
refuse_if true message rest = err message
refuse_if false message rest = rest

abbrev pub or_missing : Option Binding → Result String Binding
or_missing none = err "approval does not exist"
or_missing (some binding) = ok binding

-- The event of one fact about a plan.
abbrev pub plan_event :
    String → String → Instant → String → List String → Fields → Plan → AuditEvent
plan_event event_type run_id at actor evidence_ids payload plan =
    record (material_event event_type run_id at payload) {
      actor_id = some actor;
      attention_id = some plan.attention_id;
      plan_id = some plan.plan_id;
      evidence_ids = evidence_ids;
      policy_version = some plan.policy_version;
      plan_hash = some plan.plan_hash;
    }

-- The answer of the store, and the event of the decision.
abbrev pub finish_decision :
    Bool
    → String
    → Option String
    → String
    → Instant
    → Plan
    → Desk
    → Option Approval × ApprovalDb
    → Result String Approval × Desk
finish_decision audited event_type run_id decider at plan desk (none, db) =
    (err "approval could not be atomically advanced", record desk { approvals = db })
finish_decision audited event_type run_id decider at plan desk (some approval, db) = (
  ok approval,
  record {
    approvals = db;
    trail =
        recorded audited run_id
          (λ run.
            plan_event event_type run at decider [] (field "approver_id" (text decider) end) plan
            ∷ [])
          desk.trail;
  },
)

abbrev pub decided_by :
    (Plan → Result String Approval × Desk)
    → Desk
    → Result String Binding
    → Result String Approval × Desk
decided_by call desk (err message) = (err message, desk)
decided_by call desk (ok (plan, approval)) = call plan

module _ (python : Python) where
  -- The conditions that both decisions check, in their order, with those that follow.
  unfoldable pub decision_checks :
      String → String → Instant → Result String Binding → Binding → Result String Binding
  unfolding recompute_plan_hash
  decision_checks hash decider at rest (plan, approval) =
      refuse_if (not (is_active approval.status)) "approval is no longer pending or rerouted" (
        refuse_if (decider != approval.approver_id)
          "approval decision actor is not the current approver"
          (refuse_if (leb plan.expires_at at || leb approval.expires_at at)
            "plan approval has expired"
            (refuse_if (hash != plan.plan_hash || approval.plan_hash != plan.plan_hash)
              "approval does not match the expected plan hash"
              (refuse_if (recompute_plan_hash python plan != plan.plan_hash)
                "persisted plan hash does not match immutable plan content" rest))))

  -- What `approve` accepts.
  unfoldable pub approvable :
      String → String → String → Versions → Instant → ApprovalDb → Result String Binding
  unfolding decision_checks versions_eqb load
  approvable id hash decider current at db =
      and_then (or_missing (load id db)) (λ (binding : Binding).
        decision_checks hash decider at
          (refuse_if (not (versions_eqb current binding.0.source_versions))
            "plan source evidence is stale" (ok binding))
          binding)

  unfoldable pub approve :
      Bool
      → String
      → String
      → String
      → Versions
      → Instant
      → Option String
      → Action Desk String Approval
  unfolding approvable Store.approve material_event
  approve audited id hash decider current at run_id desk =
      decided_by
        (λ plan.
          finish_decision audited "approval.approved" run_id decider at plan desk
            (Store.approve id hash decider at desk.approvals))
        desk (approvable id hash decider current at desk.approvals)

  -- What `reject` accepts.
  unfoldable pub rejectable :
      String → String → String → Instant → ApprovalDb → Result String Binding
  unfolding decision_checks load
  rejectable id hash decider at db =
      and_then (or_missing (load id db))
        (λ binding. decision_checks hash decider at (ok binding) binding)

  unfoldable pub reject :
      Bool → String → String → String → Instant → Option String → Action Desk String Approval
  unfolding rejectable Store.reject material_event
  reject audited id hash decider at run_id desk =
      decided_by
        (λ plan.
          finish_decision audited "approval.rejected" run_id decider at plan desk
            (Store.reject id hash decider at desk.approvals))
        desk (rejectable id hash decider at desk.approvals)

  abbrev amount_text : Option Money → String
  amount_text none = "unknown"
  amount_text (some money) = money.amount

  abbrev or_default : Option String → String → String
  or_default none default = default
  or_default (some value) default = if value == "" then default else value

  -- The events of `_record_pending_immutable_plan_audit`.
  unfoldable pub pending_plan_events :
      Plan → Approval → GateDecision → List String → Option String → String → List AuditEvent
  unfolding material_event
  pending_plan_events plan approval decision evidence_ids outcome run =
      plan_event "planner.recommended" run (plan.created_at + 3) plan.actor_id evidence_ids
        (field "outcome" (text (or_default outcome plan.intent))
          (field "workflow_name" (text (or_default plan.workflow_name "unknown")) end))
        plan
      ∷ plan_event "gate.allowed" run (plan.created_at + 4) plan.actor_id evidence_ids
          (field "estimated_value" (text (amount_text decision.estimated_value)) end) plan
      ∷ plan_event "approval.requested" run (plan.created_at + 5) plan.actor_id evidence_ids
          (field "approver_id" (text approval.approver_id) end) plan
      ∷ []

  abbrev pub blank_outcome : Option String → Bool
  unfolding is_blank
  blank_outcome none = false
  blank_outcome (some outcome) = is_blank outcome

  -- The approval that is requested for a plan.
  abbrev pub requested_approval : String → Plan → Instant → Instant → Approval
  requested_approval id plan requested expires = record {
    approval_id = id;
    plan_id = plan.plan_id;
    plan_hash = plan.plan_hash;
    requester_id = plan.actor_id;
    approver_id = plan.approver_id;
    status = ApprovalStatus.pending;
    requested_at = requested;
    expires_at = expires;
    decided_at = none;
  }

  abbrev stored_pending :
      Bool
      → PendingPlanApproval
      → (String → List AuditEvent)
      → Option String
      → Desk
      → Result String (Unit {0}) × ApprovalDb
      → Result String PendingPlanApproval × Desk
  stored_pending audited pending events run_id desk (ok _, db) =
      (ok pending, record { approvals = db; trail = recorded audited run_id events desk.trail })
  stored_pending audited pending events run_id desk (err message, db) =
      (err message, record desk { approvals = db })

  abbrev requested_by :
      (Desk → Result String PendingPlanApproval × Desk)
      → Desk
      → Result String (Unit {0})
      → Result String PendingPlanApproval × Desk
  requested_by call desk (err message) = (err message, desk)
  requested_by call desk (ok _) = call desk

  -- What `request_pending_plan` accepts.
  unfoldable pub requestable :
      Plan → GateDecision → Instant → Instant → Option String → Result String (Unit {0})
  unfolding recompute_plan_hash is_blank
  requestable plan decision requested expires outcome =
      refuse_if (leb expires requested) "plan expiry must be after the approval request time" (
        refuse_if (not (is_pending_approval decision.status) || not decision.approval_required)
          "only a gate result pending approval may create a plan"
          (refuse_if (plan.created_at != requested || plan.expires_at != expires)
            "plan timestamps do not match the approval request"
            (refuse_if (recompute_plan_hash python plan != plan.plan_hash)
              "persisted plan hash does not match immutable plan content"
              (refuse_if (blank_outcome outcome) "planner outcome must be non-empty when provided"
                (ok tt)))))

  unfoldable pub request_pending_plan :
      Bool
      → String
      → Plan
      → GateDecision
      → Instant
      → Instant
      → List String
      → Option String
      → Option String
      → Action Desk String PendingPlanApproval
  unfolding requestable create_pending pending_plan_events
  request_pending_plan audited id plan decision requested expires evidence_ids outcome run_id desk =
      let approval = requested_approval id plan requested expires in
      requested_by
        (λ desk.
          stored_pending audited
            (record { plan = plan; approval = approval; gate_decision = decision })
            (pending_plan_events plan approval decision evidence_ids outcome) run_id desk
            (create_pending plan approval desk.approvals))
        desk (requestable plan decision requested expires outcome)
