-- ===== src/Workflow/Executor/Checks.antt =====
-- The validation of a stored workflow against its plan and its declaration: `_declared_definition`
-- and its helpers.
pub mod Reduction
use harmony_takehome.Prelude.{
  ℕ, suc, String, Bool, true, false, not, ◌&&◌, ◌||◌, Option, none, some, List, [], ◌∷◌, any, all,
  map, take, drop, length, get_elem?, ok, err, and_then, leb, ltb, ◌==◌, ◌!=◌, string_eq, nat_eq,
  option_eq, if◌then◌else◌,
}
use harmony_takehome.Json
use harmony_takehome.Json.{Json, Fields, fields_eqb, field, object}
use harmony_takehome.Domain.{
  Instant, Plan, Approval, ApprovalStatus, ActorContext, Versions, versions_eqb, WorkflowStatus,
  WorkflowState, WorkflowStepState, WorkflowStateSnapshot, is_running, step_is_pending,
  step_is_running, step_is_succeeded,
}
use harmony_takehome.Workflow.Sql.{holds, after, is_null, is_not_null}
use harmony_takehome.Workflow.Tools.{ToolInput, tool_value, authorized}
use harmony_takehome.Workflow.Declarations.{
  WorkflowDefinition, WorkflowStepDefinition, declared_workflow, step_value, step_named,
}
use harmony_takehome.Workflow.BoundedPlan.{
  bounded_tool_plan_intent, bounded_tool_plan_name, bounded_tool_plan_version,
  bounded_tool_calls_from_plan, validated_call, both_parts,
}
use harmony_takehome.Workflow.Staging.{common_input, stored_tool_name}
use harmony_takehome.Workflow.PlanHash.{recompute_plan_hash}
use harmony_takehome.Workflow.Executor.Machine.{
  rejected, claim_lost, identity_not_found, index_error, Ports, Check, reject_if, or_error,
  audit_run_id,
}

abbrev pub runnable : WorkflowStatus → Bool
runnable WorkflowStatus.pending = true
runnable WorkflowStatus.running = true
runnable _ = false

abbrev pub mismatch : String
mismatch = "workflow stored steps do not match the declaration"

-- The definition, and the input that each stored step must have where the plan is known.
abbrev pub Expected : Type 0
Expected = WorkflowDefinition × Option (List Fields)

module _ {E : Type 0} (ports : Ports E) where
  open ports use {validate, python}

  -- `enumerate(tool_calls, start=1)` with `WorkflowStepName(tool_call.tool_name.value)`
  unfoldable pub bounded_definition_steps :
      ℕ → List ToolInput → Option (List WorkflowStepDefinition)
  unfolding step_named tool_value
  bounded_definition_steps index [] = some []
  bounded_definition_steps index (call ∷ rest) =
      let later = bounded_definition_steps (suc index) rest in
      elim (step_named (tool_value call.model)) [
        | none ↦ none
        | some name ↦
            both_parts (some (record { index = index; name = name; tool_name = some call.model }))
              later
      ]

  -- `_bounded_tool_definition`
  unfoldable pub bounded_tool_definition : List ToolInput → Check WorkflowDefinition
  unfolding bounded_definition_steps
  bounded_tool_definition [] = err (rejected mismatch)
  bounded_tool_definition (call ∷ rest) = elim (bounded_definition_steps 1 (call ∷ rest)) [
    | none ↦ err (rejected mismatch)
    | some steps ↦ ok (record {
      name = bounded_tool_plan_name;
      version = bounded_tool_plan_version;
      steps = steps;
    })
  ]

  -- `_bounded_tool_definition_from_plan`
  unfoldable pub bounded_tool_definition_from_plan : WorkflowStateSnapshot → Plan → Check Expected
  unfolding bounded_tool_definition bounded_tool_calls_from_plan audit_run_id common_input
  bounded_tool_definition_from_plan snapshot plan =
      let w = snapshot.workflow in
      reject_if
        (w.definition_name != bounded_tool_plan_name
          || w.definition_version != bounded_tool_plan_version)
        "workflow plan does not match its declaration"
        (and_then
          (or_error (bounded_tool_calls_from_plan validate plan)
            (rejected "workflow bounded tool plan is invalid"))
          (λ calls. and_then (bounded_tool_definition calls) (λ definition.
            and_then (audit_run_id snapshot) (λ run_id. ok (
              definition,
              some (
                  map
                    (λ (call : ToolInput).
                      field "tool_input" (object call.dump) (common_input plan run_id))
                    calls),
            )))))

  -- `_tool_call_from_stored_step`
  abbrev pub tool_call_from_stored_step : Option String → Option Json → Option ToolInput
  tool_call_from_stored_step (some raw_name) (some (Json.object raw_input)) =
      validated_call validate raw_name raw_input
  tool_call_from_stored_step _ _ = none

  unfoldable pub stored_calls : List WorkflowStepState → Option (List ToolInput)
  unfolding validated_call Json.get
  stored_calls [] = some []
  stored_calls (step ∷ rest) =
      both_parts (tool_call_from_stored_step step.tool_name (Json.get "tool_input" step.input))
        (stored_calls rest)

  -- `_bounded_tool_definition_from_snapshot`
  unfoldable pub bounded_tool_definition_from_snapshot :
      WorkflowStateSnapshot → Check WorkflowDefinition
  unfolding bounded_tool_definition stored_calls
  bounded_tool_definition_from_snapshot snapshot =
      reject_if (snapshot.workflow.definition_version != bounded_tool_plan_version)
        "workflow has no declared definition"
        (and_then (or_error (stored_calls snapshot.steps) (rejected mismatch))
          bounded_tool_definition)

  -- `_static_declared_workflow`
  unfoldable pub static_declared_workflow : String → ℕ → Check WorkflowDefinition
  unfolding declared_workflow
  static_declared_workflow name version =
      or_error (declared_workflow name version) (rejected "workflow has no declared definition")

  -- `_static_expected_inputs`
  unfoldable pub static_expected_inputs : WorkflowStateSnapshot → Plan → Check (List Fields)
  unfolding common_input audit_run_id
  static_expected_inputs snapshot plan =
      and_then (audit_run_id snapshot)
        (λ run_id. ok (map (λ (step : WorkflowStepState). common_input plan run_id) snapshot.steps))

  -- The definition by the plan's intent, where the plan is known.
  unfoldable pub planned_expected : WorkflowStateSnapshot → Plan → Check Expected
  unfolding bounded_tool_definition_from_plan static_declared_workflow static_expected_inputs
  planned_expected snapshot plan =
      let w = snapshot.workflow in
      reject_if
        (w.plan_id != plan.plan_id
          || plan.workflow_name != some w.definition_name
          || plan.workflow_version != some w.definition_version)
        "workflow plan does not match its declaration"
        (if plan.intent == bounded_tool_plan_intent
          then bounded_tool_definition_from_plan snapshot plan
          else if plan.intent == "enter_workflow"
          then and_then (static_declared_workflow w.definition_name w.definition_version)
              (λ definition.
                and_then (static_expected_inputs snapshot plan)
                  (λ inputs. ok (definition, some inputs)))
          else err (rejected "workflow plan does not match its declaration"))

  unfoldable pub expected_definition : WorkflowStateSnapshot → Option Plan → Check Expected
  unfolding planned_expected bounded_tool_definition_from_snapshot static_declared_workflow
  expected_definition snapshot (some plan) = planned_expected snapshot plan
  expected_definition snapshot none =
      let w = snapshot.workflow in
      and_then
        (if w.definition_name == bounded_tool_plan_name
          then bounded_tool_definition_from_snapshot snapshot
          else static_declared_workflow w.definition_name w.definition_version)
        (λ definition. ok (definition, none))

-- One stored step against the declared step at the same place.
unfoldable pub step_matches : WorkflowState → WorkflowStepState → WorkflowStepDefinition → Bool
unfolding step_value tool_value
step_matches w step declared =
    step.workflow_id == w.workflow_id
    && step.step_index == declared.index
    && step.step_name == step_value declared.name
    && step.tool_name == stored_tool_name declared.tool_name

abbrev pub input_matches : Option Fields → WorkflowStepState → Bool
input_matches none step = true
input_matches (some input) step = fields_eqb step.input input

abbrev pub first_input : Option (List Fields) → Option Fields
first_input none = none
first_input (some []) = none
first_input (some (input ∷ rest)) = some input

abbrev pub later_inputs : Option (List Fields) → Option (List Fields)
later_inputs none = none
later_inputs (some []) = some []
later_inputs (some (input ∷ rest)) = some rest

-- The loop over `zip(snapshot.steps, definition.steps, strict=True)`. The expected inputs are as
-- many as the stored steps.
unfoldable pub steps_match :
    WorkflowState
    → List WorkflowStepState
    → List WorkflowStepDefinition
    → Option (List Fields)
    → Bool
unfolding step_matches fields_eqb
steps_match w [] [] inputs = true
steps_match w (step ∷ steps) (declared ∷ rest) inputs =
    step_matches w step declared
    && input_matches (first_input inputs) step
    && steps_match w steps rest (later_inputs inputs)
steps_match w _ _ inputs = false

module _ {E : Type 0} (ports : Ports E) where
  -- `_declared_definition`
  unfoldable pub declared_definition :
      WorkflowStateSnapshot → Option Plan → (WorkflowStatus → Bool) → Check WorkflowDefinition
  unfolding expected_definition steps_match
  declared_definition snapshot plan allowed =
      let w = snapshot.workflow in
      reject_if (not (allowed w.status)) "workflow is not runnable" (
        reject_if
          ((is_null w.lease_owner && is_not_null w.lease_expires_at)
            || (is_not_null w.lease_owner && is_null w.lease_expires_at))
          "workflow lease state is invalid"
          (and_then (expected_definition ports snapshot plan) (λ (definition, inputs).
            reject_if (ltb (length definition.steps) w.current_step)
              "workflow step cursor is invalid"
              (reject_if (length snapshot.steps != length definition.steps) mismatch (
                reject_if (not (steps_match w snapshot.steps definition.steps inputs)) mismatch
                  (ok definition))))))
