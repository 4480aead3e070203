-- ===== src/Workflow/Samples.antt =====
-- Concrete values that the tests share: one plan of each kind, its approval, the ports of an
-- executor, and a workflow at three points of its life.
use harmony_takehome.Prelude.{ℕ, String, ok, none, some, List, [], ◌∷◌, true, false, ◌++◌}
use harmony_takehome.Json.{Fields, Json, Items, end, field, text, object}
use harmony_takehome.Text.{Python}
use harmony_takehome.Domain.{
  WorkflowStatus, WorkflowStepStatus, WorkflowStepState, ToolCompensation, ActorContext, Plan,
  Approval, ApprovalStatus, ToolInvocation, ToolInvocationStatus, WorkflowStateSnapshot,
}
use harmony_takehome.Workflow.Declarations.{po_reroute_v1}
use harmony_takehome.Workflow.Tools.{ToolName, ToolInput}
use harmony_takehome.Workflow.Staging.{staged_step, staged_workflow, static_snapshot}
use harmony_takehome.Workflow.Store.Request.{Request, run_requests}
use harmony_takehome.Workflow.Executor.Machine.{Ports, Machine, ToolExecutor, ToolOutcome}
use harmony_takehome.Workflow.Executor.Tools.{StartedToolExecution}

abbrev pub python : Python
python = record {
  dumps = λ payload. "payload";
  sha256_hex = λ bytes. bytes;
  str_int = λ n. "1";
  strip = λ value. value;
  isoformat = λ instant. "2026-01-06T09:00:00";
  date_isoformat = λ date. "2026-01-06";
  str_json = λ value. "value";
  upper = λ value. value;
  lower = λ value. value;
  decimals = record {
    of_text = λ value. some value;
    is_finite = λ value. true;
    le = λ a b. some true;
    add = λ a b. some a;
    sub = λ a b. some a;
    mul = λ a b. some a;
  };
  is_uuid = λ value. true;
  uuid5 = λ name. name;
  date_fromisoformat = λ value. none;
  is_alpha = λ value. true;
}

abbrev pub planner : ActorContext
planner = record {
  user_id = "planner";
  role = "planner";
  scopes = "erp:po:create" ∷ "erp:po:cancel" ∷ "production:notify" ∷ "scheduler:write" ∷ [];
  plant_ids = "plant" ∷ [];
  backup_approver_id = none;
  approval_limits = ("EUR", "1000") ∷ [];
}

abbrev pub reroute_plan : Plan
reroute_plan = record {
  plan_id = "plan";
  attention_id = "attention";
  actor_id = "planner";
  approver_id = "manager";
  intent = "enter_workflow";
  workflow_name = some "po_reroute";
  workflow_version = some 1;
  parameters = end;
  source_versions = ("erp", 4) ∷ [];
  policy_version = "v1";
  plan_hash = "sha256:payload";
  created_at = 1;
  expires_at = 500;
}

-- A bounded plan with one call, of the tool that has no step of its own name.
abbrev pub reduction_plan : Plan
reduction_plan = record reroute_plan {
  intent = "bounded_tool_plan";
  workflow_name = some "bounded_tool_plan";
  parameters =
      field "tool_calls"
        (Json.array (
          Items.cons
            (object
              (field "tool_name" (text "reduce_or_cancel_po") (field "input" (object end) end)))
            Items.nil))
        end;
}

abbrev pub reduction_calls : List ToolInput
reduction_calls = record { model = ToolName.reduce_or_cancel_po; dump = end } ∷ []

abbrev pub approval : Approval
approval = record {
  approval_id = "approval";
  plan_id = "plan";
  plan_hash = "sha256:payload";
  requester_id = "planner";
  approver_id = "manager";
  status = ApprovalStatus.approved;
  requested_at = 1;
  expires_at = 400;
  decided_at = some 2;
}

-- The world that the tools act on: the keys of the effects, in order.
abbrev pub perform_effect : ActorContext → ToolInvocation → List String → ToolOutcome × List String
perform_effect actor invocation world =
    (ToolOutcome.returned end, world ++ invocation.idempotency_key ∷ [])

abbrev pub ports : Ports (List String)
ports = record {
  load_for_plan = λ plan_id. some (reroute_plan, approval);
  actor_for = λ actor_id. some planner;
  tool_executor = ToolExecutor.effects_only perform_effect;
  crash_injector = none;
  audit = some (λ event trail. (ok tt, trail ++ event ∷ []));
  validate = λ tool raw. some raw;
  python = python;
}

abbrev pub step_id : ℕ → String
step_id index = "step"

-- A staged workflow, the same when its first tool has been started, and when it has been compensated.
abbrev pub pending_workflow : WorkflowStateSnapshot
pending_workflow = static_snapshot step_id "workflow" 5 none reroute_plan po_reroute_v1

abbrev pub to_first_tool : List Request
to_first_tool =
    Request.claims "worker" 10 100
    ∷ Request.completes_guard "worker" 1 11
    ∷ Request.completes_guard "worker" 2 12
    ∷ Request.starts_tool "worker" 3 "key" 13
    ∷ []

abbrev pub to_compensated : List Request
to_compensated =
    Request.completes_tool "worker" 3 "key" end false 14
    ∷ Request.starts_tool "worker" 4 "other" 15
    ∷ Request.fails_tool "worker" 4 "other" "no stock" 16
    ∷ Request.begins_compensation "worker" 17
    ∷ Request.starts_compensation "worker" 3 18
    ∷ Request.completes_compensation "worker" 3 end true 19
    ∷ []

abbrev pub started_workflow : WorkflowStateSnapshot
started_workflow = run_requests to_first_tool pending_workflow

abbrev pub compensated_workflow : WorkflowStateSnapshot
compensated_workflow = run_requests to_compensated started_workflow

abbrev pub machine : WorkflowStateSnapshot → Machine (List String)
machine snapshot = record { db = snapshot ∷ []; effects = []; audit = [] }

abbrev pub started_tool : StartedToolExecution
started_tool = record {
  actor = planner;
  invocation = record {
    invocation_id = "invocation";
    workflow_id = "workflow";
    tool_name = "create_replacement_po";
    idempotency_key = "key";
    status = ToolInvocationStatus.started;
    parameters = end;
    result = none;
    attempt_count = 1;
    started_at = some 13;
    completed_at = none;
    audit_run_id = none;
  };
  step_index = 3;
}

-- A bounded workflow of two notifications: the first has succeeded, and the second has failed.
abbrev notification : Fields
notification = field "tool_input" (object end) end

abbrev notification_step : ℕ → String → WorkflowStepStatus → WorkflowStepState
notification_step index key status =
    record (staged_step "step" "workflow" index "notify_production" (some "notify_production")
      notification 5) {
        status = status;
        idempotency_key = some key;
        result = some end;
        started_at = some 11;
      }

abbrev pub failed_workflow : WorkflowStateSnapshot
failed_workflow = record {
  workflow = record (staged_workflow reduction_plan "workflow" "bounded_tool_plan" 1 5) {
    status = WorkflowStatus.failed;
    current_step = 1;
    lease_owner = some "worker";
    lease_expires_at = some 100;
  };
  steps =
      notification_step 1 "key" WorkflowStepStatus.succeeded
      ∷ notification_step 2 "other" WorkflowStepStatus.failed
      ∷ [];
}

-- The world after a reversal has the key of the reversed effect at its end.
abbrev pub reverse_effect :
    ActorContext → ToolCompensation → List String → ToolOutcome × List String
reverse_effect actor request world =
    (ToolOutcome.returned end, world ++ request.original_idempotency_key ∷ [])
