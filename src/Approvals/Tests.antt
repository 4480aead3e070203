-- ===== src/Approvals/Tests.antt =====
-- The theorems on one approval.
use harmony_takehome.Prelude.{
  Result, String, ◌≡◌, ◌≢◌, refl, true, List, [], ◌∷◌, some, none, ok, err, inl, Option,
  if◌then◌else◌, ◌==◌, string_eq,
}
use harmony_takehome.Json.{Json, end, field}
use harmony_takehome.Domain.{
  Plan, Approval, ApprovalStatus, ActorContext, Evidence, ScheduledTask, ScheduledTaskStatus,
  versions_eqb,
}
use harmony_takehome.Workflow.Samples.{
  python, planner, reroute_plan, approval, ports, machine, pending_workflow,
}
use harmony_takehome.Workflow.Executor.Claim.{claim}
use harmony_takehome.Workflow.Store.Database
use harmony_takehome.Approvals.Store.{
  ApprovalDb, Request, creates, approves, rejects, reroutes, load, load_for_plan, run_requests,
}
use harmony_takehome.Approvals.Store.Lifecycle.{run_requests-IsLater, IsLater}
use harmony_takehome.Approvals.Store.Authority.{run_requests-unapproved}
use harmony_takehome.Approvals.Service.{Desk, approve, reject}
use harmony_takehome.Approvals.Service.Decisions.{approve_ok, IsDecided}
use harmony_takehome.Approvals.Service.Finality.{decision-final}
use harmony_takehome.Approvals.Execution.{claim-unapproved, over}
use harmony_takehome.Approvals.Escalation.{ApprovalRoutingResult, rerouted}
use harmony_takehome.Approvals.Routing.{RoutingPorts, Office, handle_claimed_task}
use harmony_takehome.Approvals.Routing.Rerouted.{handle_claimed_task-rerouted, IsRerouted}
use harmony_takehome.Planning.{GateStatus}
use harmony_takehome.Planning.Context.{enter_workflow}
use harmony_takehome.Planning.ScenarioAGate.{evaluate, safe_outcome}
use harmony_takehome.Planning.Samples.{with_zero, context, current, proposal}
use harmony_takehome.Approvals.Service.{PendingPlanApproval}
use harmony_takehome.Approvals.PendingRequest.{RequestError, request_pending}
use harmony_takehome.Approvals.PendingRequest.Stored.{request_pending_ok, IsRequested}

abbrev pending : Approval
pending = record approval { status = ApprovalStatus.pending; decided_at = none }

abbrev table : ApprovalDb
table = (reroute_plan, pending) ∷ []

abbrev desk : Desk
desk = record { approvals = table; trail = [] }

-- A second insertion, which is refused, a rejection in time, and an approval that comes too late.
abbrev requests : List Request
requests =
    creates reroute_plan pending
    ∷ rejects "approval" "sha256:payload" "manager" 10
    ∷ approves "approval" "sha256:payload" "manager" 11
    ∷ []

run_requests-IsLater_example :
    (b : Approval) × (load "approval" (run_requests requests table) ≡ some (reroute_plan, b))
    × IsLater pending b
unfolding load
run_requests-IsLater_example =
    run_requests-IsLater "approval" requests table reroute_plan pending refl

abbrev harmless : List Request
harmless =
    reroutes "approval" "sha256:payload" "manager" "backup" 9
    ∷ approves "approval" "other hash" "backup" 10
    ∷ []

run_requests-unapproved_example :
    (b : Approval) × (load "approval" (run_requests harmless table) ≡ some (reroute_plan, b))
    × (b.status ≢ ApprovalStatus.approved)
unfolding load
run_requests-unapproved_example =
    run_requests-unapproved "approval" harmless table reroute_plan pending refl (refl, (refl, tt))
      (λ e. cc)

abbrev approved_desk : Desk
approved_desk =
    (approve python true "approval" "sha256:payload" "manager" (("erp", 4) ∷ []) 10 (some "run")
      desk).1

abbrev approved : Approval
approved = record pending { status = ApprovalStatus.approved; decided_at = some 10 }

approve_ok_example :
    (plan : Plan) × IsDecided python "approval" "sha256:payload" "manager" ApprovalStatus.approved
      10 desk approved_desk plan approved
    × (versions_eqb (("erp", 4) ∷ []) plan.source_versions ≡ true)
unfolding approve
approve_ok_example =
    approve_ok python true "approval" "sha256:payload" "manager" (("erp", 4) ∷ []) 10 (some "run")
      desk approved_desk approved refl

abbrev later_desk : Desk
later_desk = record approved_desk { approvals = run_requests requests approved_desk.approvals }

decision-final_example :
    ((approve python true "approval" "sha256:payload" "manager" [] 12 none later_desk).0
      ≡ err "approval is no longer pending or rerouted")
    × ((reject python true "approval" "sha256:payload" "manager" 12 none later_desk).0
        ≡ err "approval is no longer pending or rerouted")
unfolding approve
decision-final_example =
    decision-final python true "approval" "sha256:payload" "manager" "sha256:payload" "manager"
      (("erp", 4) ∷ []) [] 10 12 (some "run") none requests desk approved_desk later_desk approved
      (inl refl) refl

abbrev rejected : Approval
rejected = record pending { status = ApprovalStatus.rejected; decided_at = some 9 }

claim-unapproved_example :
    claim
      (over ports (run_requests requests ((reroute_plan, rejected) ∷ [])))
      "workflow"
      "worker"
      10
      100
      (("erp", 4) ∷ [])
      (machine pending_workflow)
    ≢ (ok pending_workflow, machine pending_workflow)
unfolding load_for_plan Database.load
claim-unapproved_example =
    claim-unapproved ports "workflow" "worker" 10 100 (("erp", 4) ∷ []) (machine pending_workflow)
      (machine pending_workflow) pending_workflow ((reroute_plan, rejected) ∷ []) requests
      pending_workflow reroute_plan rejected refl refl refl (λ e. cc)

-- The approver is away on the day after the request, and names a backup who may decide.
abbrev manager : ActorContext
manager = record planner { user_id = "manager"; backup_approver_id = some "backup" }

abbrev backup : ActorContext
backup = record planner { user_id = "backup"; scopes = "approval:decide" ∷ [] }

abbrev actor_named : String → Option ActorContext
actor_named id = some (if id == "backup" then backup else manager)

abbrev absence : Evidence
absence = record {
  evidence_id = "absence";
  source = "calendar";
  record_type = "calendar_event";
  record_id = "absence";
  source_version = 1;
  observed_at = 86400000001;
  payload = field "event_type" (Json.text "out_of_office") end;
}

abbrev routing : RoutingPorts
routing = record {
  actor_for = actor_named;
  calendar = λ actor query. absence ∷ [];
  audited = true;
  python = python;
}

abbrev valued_plan : Plan
valued_plan = record reroute_plan {
  parameters =
      field "estimated_value_amount" (Json.text "100")
        (field "estimated_value_currency" (Json.text "EUR") end);
  expires_at = 90000000000;
}

abbrev waiting : Approval
waiting = record pending { expires_at = 90000000000 }

abbrev office : Office
office = record { approvals = (valued_plan, waiting) ∷ []; tasks = []; trail = [] }

abbrev escalation : ScheduledTask
escalation = record {
  task_id = "task";
  task_type = "approval_escalation";
  due_at = 61200000000;
  status = ScheduledTaskStatus.claimed;
  idempotency_key = "key";
  payload = field "approval_id" (Json.text "approval") (
      field "original_approver_id" (Json.text "manager")
        (field "plan_hash" (Json.text "sha256:payload") end));
  attempt_count = 1;
  lease_expires_at = some 61300000000;
  completed_at = none;
}

abbrev routed_office : Office
routed_office = (handle_claimed_task routing escalation 61200000001 office).1

abbrev routed : ApprovalRoutingResult
routed = record {
  outcome = rerouted;
  approval = some (record waiting { approver_id = "backup"; status = ApprovalStatus.rerouted });
}

handle_claimed_task-rerouted_example :
    (id : String) × (hash : String) × (plan : Plan) × (before : Approval) × IsRerouted routing
      escalation 61200000001 id hash office routed_office routed plan before
unfolding handle_claimed_task
handle_claimed_task-rerouted_example =
    handle_claimed_task-rerouted routing escalation 61200000001 office routed_office routed refl
      refl

-- A request for the proposal, without a scheduler.
abbrev requesting : Result RequestError PendingPlanApproval × Office
requesting =
    request_pending with_zero true (evaluate with_zero) none "new plan" "new approval" context
      (enter_workflow proposal) current "v1" 5 50 (some "run")
      (record { approvals = []; tasks = []; trail = [] })

abbrev answer_of : Result RequestError PendingPlanApproval → PendingPlanApproval
answer_of (ok answer) = answer
answer_of (err e) = record {
  plan = reroute_plan;
  approval = pending;
  gate_decision = safe_outcome GateStatus.denied;
}

request_pending_ok_example :
    IsRequested with_zero true none
      (some "run")
      context
      (enter_workflow proposal)
      current
      "new approval"
      5
      50
      requesting.1
      (answer_of requesting.0)
unfolding request_pending evaluate
request_pending_ok_example =
    request_pending_ok with_zero true none (some "run") "new plan" "new approval" context
      (enter_workflow proposal) current "v1" 5 50
      (record { approvals = []; tasks = []; trail = [] }) requesting.1 (answer_of requesting.0) refl
