-- ===== src/Workflow/Staging.antt =====
-- src/enterprise_agent/application/workflow_state.py: an approved plan becomes a pending workflow
-- with one pending step for each declared step.
pub mod Fresh
use harmony_takehome.Prelude.{
  ℕ, suc, String, Option, none, some, List, [], ◌∷◌, Action, pure, ◌>>=◌, ◌>>◌, or_raise, ◌!=◌,
  string_eq, if◌then◌else◌,
}
use harmony_takehome.Json.{Fields, end, field, text, num, object}
use harmony_takehome.Domain.{
  Instant, Plan, Versions, WorkflowStatus, WorkflowStepStatus, WorkflowState, WorkflowStepState,
  WorkflowStateSnapshot,
}
use harmony_takehome.Workflow.Tools.{ToolName, ToolInput, Validator, tool_value}
use harmony_takehome.Workflow.Declarations.{
  WorkflowDefinition, WorkflowStepDefinition, declared_workflow, step_value,
}
use harmony_takehome.Workflow.BoundedPlan.{
  bounded_tool_plan_name, bounded_tool_plan_version, bounded_tool_calls_from_plan,
}
use harmony_takehome.Workflow.Store.Database.{WorkflowDb, create}

-- `dict(plan.source_versions)` as a JSON mapping
unfoldable pub versions_json : Versions → Fields
versions_json [] = end
versions_json ((source, version) ∷ rest) = field source (num version) (versions_json rest)

abbrev pub with_run_id : Option String → Fields → Fields
with_run_id none fields = fields
with_run_id (some run_id) fields = field "audit_run_id" (text run_id) fields

-- The input snapshot that every step of a plan shares.
unfoldable pub common_input : Plan → Option String → Fields
unfolding versions_json
common_input plan run_id = with_run_id run_id (
    field "plan_hash" (text plan.plan_hash) (
      field "plan_parameters" (object plan.parameters)
        (field "source_versions" (object (versions_json plan.source_versions)) end)))

abbrev pub staged_workflow : Plan → String → String → ℕ → Instant → WorkflowState
staged_workflow plan workflow_id name version created_at = record {
  workflow_id = workflow_id;
  plan_id = plan.plan_id;
  definition_name = name;
  definition_version = version;
  status = WorkflowStatus.pending;
  current_step = 0;
  started_at = none;
  completed_at = none;
  last_error = none;
  lease_owner = none;
  lease_expires_at = none;
  created_at = created_at;
  updated_at = created_at;
}

abbrev pub staged_step :
    String → String → ℕ → String → Option String → Fields → Instant → WorkflowStepState
staged_step step_id workflow_id index name tool input created_at = record {
  step_id = step_id;
  workflow_id = workflow_id;
  step_index = index;
  step_name = name;
  tool_name = tool;
  status = WorkflowStepStatus.pending;
  idempotency_key = none;
  input = input;
  result = none;
  error = none;
  attempt_count = 0;
  started_at = none;
  completed_at = none;
  lease_owner = none;
  lease_expires_at = none;
  created_at = created_at;
  updated_at = created_at;
}

abbrev pub stored_tool_name : Option ToolName → Option String
stored_tool_name none = none
stored_tool_name (some tool) = some (tool_value tool)

-- `WorkflowStepId(str(uuid4()))`: the fresh identifier of the step with an index.
module _ (step_id : ℕ → String) (workflow_id : String) (created_at : Instant) where
  unfoldable pub static_steps : Fields → List WorkflowStepDefinition → List WorkflowStepState
  unfolding step_value tool_value
  static_steps input [] = []
  static_steps input (d ∷ rest) =
      staged_step (step_id d.index) workflow_id d.index (step_value d.name)
        (stored_tool_name d.tool_name) input created_at
      ∷ static_steps input rest

  -- `enumerate(tool_calls, start=1)`
  unfoldable pub bounded_steps : Fields → ℕ → List ToolInput → List WorkflowStepState
  unfolding tool_value
  bounded_steps input index [] = []
  bounded_steps input index (call ∷ rest) =
      staged_step (step_id index) workflow_id index (tool_value call.model)
        (some (tool_value call.model)) (field "tool_input" (object call.dump) input) created_at
      ∷ bounded_steps input (suc index) rest

  module _ (run_id : Option String) (plan : Plan) where
    abbrev pub static_snapshot : WorkflowDefinition → WorkflowStateSnapshot
    static_snapshot definition = record {
      workflow = staged_workflow plan workflow_id definition.name definition.version created_at;
      steps = static_steps (common_input plan run_id) definition.steps;
    }

    abbrev pub bounded_snapshot : List ToolInput → WorkflowStateSnapshot
    bounded_snapshot calls = record {
      workflow =
          staged_workflow plan workflow_id bounded_tool_plan_name bounded_tool_plan_version
            created_at;
      steps = bounded_steps (common_input plan run_id) 1 calls;
    }

    -- The definition that an enter-workflow plan names.
    abbrev pub planned_definition : Option String → Option ℕ → Option WorkflowDefinition
    planned_definition (some name) (some version) = declared_workflow name version
    planned_definition _ _ = none

    unfoldable pub staged_snapshot : Option WorkflowStateSnapshot
    unfolding static_steps common_input declared_workflow
    staged_snapshot =
        if plan.intent != "enter_workflow"
        then none
        else elim (planned_definition plan.workflow_name plan.workflow_version) [
          | none ↦ none
          | some definition ↦ some (static_snapshot definition)
        ]

    -- `WorkflowStateService.stage`
    unfoldable pub stage : Action WorkflowDb String WorkflowStateSnapshot
    unfolding staged_snapshot create
    stage = do
      snapshot ← or_raise staged_snapshot "plan does not name a declared workflow"
      create snapshot
      pure snapshot

    -- `WorkflowStateService.stage_bounded_tool_plan`
    unfoldable pub stage_bounded_tool_plan :
        Validator → Action WorkflowDb String WorkflowStateSnapshot
    unfolding bounded_steps common_input create bounded_tool_calls_from_plan
    stage_bounded_tool_plan validate = do
      calls ←
          or_raise (bounded_tool_calls_from_plan validate plan)
            "plan does not name a valid bounded tool workflow"
      create (bounded_snapshot calls)
      pure (bounded_snapshot calls)
