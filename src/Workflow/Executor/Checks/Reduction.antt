-- ===== src/Workflow/Executor/Checks/Reduction.antt =====
-- A bounded plan with a call of `reduce_or_cancel_po`: the tool's value is no value of
-- `WorkflowStepName`, whose member for that step is `reduce_or_cancel_original_po`.
use harmony_takehome.Prelude.{
  ℕ, suc, ◌≡◌, refl, ◌≢◌, not, ◌&&◌, ◌!=◌, nat_eq, option_eq, if◌then◌else◌, Bool, true, false,
  ◌||◌, none, some, List, [], ◌∷◌, any, ok, err, arith, string_eq, ◌==◌, Bool-cases, inl, inr,
  and_then_ok, equal_of,
}
use harmony_takehome.Domain.{Plan, WorkflowStatus, WorkflowStateSnapshot}
use harmony_takehome.Workflow.Sql.{is_null, is_not_null}
use harmony_takehome.Workflow.Tools.{ToolInput, tool_value}
use harmony_takehome.Workflow.Declarations.{WorkflowDefinition, step_named}
use harmony_takehome.Workflow.BoundedPlan.{bounded_tool_calls_from_plan, bounded_tool_plan_intent}
use harmony_takehome.Workflow.Executor.Machine.{Ports, Check, rejected, reject_if_ok}
use harmony_takehome.Workflow.Executor.Checks.{
  mismatch, bounded_definition_steps, bounded_tool_definition, bounded_tool_definition_from_plan,
  planned_expected, expected_definition, Expected, declared_definition,
}

abbrev pub is_reduction : ToolInput → Bool
is_reduction call = tool_value call.model == "reduce_or_cancel_po"

module _ {E : Type 0} (ports : Ports E) where
  unnamed :
      (call : ToolInput) → is_reduction call ≡ true → step_named (tool_value call.model) ≡ none
  unfolding step_named
  unnamed call h = rw (equal_of (tool_value call.model) "reduce_or_cancel_po" h) refl

  no_steps :
      (index : ℕ) (calls : List ToolInput)
      → any is_reduction calls ≡ true
      → bounded_definition_steps ports index calls ≡ none
  unfolding bounded_definition_steps
  no_steps index [] h = cc
  no_steps index (call ∷ rest) h = elim (Bool-cases (is_reduction call)) [
    | inl here ↦ ground (arith, unnamed call here)
    | inr there ↦ ground (arith, no_steps (suc index) rest (ground arith))
  ]

  no_definition :
      (calls : List ToolInput)
      → any is_reduction calls ≡ true
      → bounded_tool_definition ports calls ≡ err (rejected mismatch)
  unfolding bounded_tool_definition
  no_definition [] h = cc
  no_definition (call ∷ rest) h = ground (arith, no_steps 1 (call ∷ rest) h)

  no_plan :
      (snapshot : WorkflowStateSnapshot) (plan : Plan) (calls : List ToolInput) (e : Expected)
      → bounded_tool_calls_from_plan ports.validate plan ≡ some calls
      → any is_reduction calls ≡ true
      → bounded_tool_definition_from_plan ports snapshot plan ≢ ok e
  unfolding bounded_tool_definition_from_plan
  no_plan snapshot plan calls e parsed h = ground (arith, no_definition calls h)

  bounded_intent :
      (plan : Plan) (calls : List ToolInput)
      → bounded_tool_calls_from_plan ports.validate plan ≡ some calls
      → (plan.intent == bounded_tool_plan_intent) ≡ true
  unfolding bounded_tool_calls_from_plan
  bounded_intent plan calls parsed = ground arith

  chosen :
      (b : Bool) (x y : Check Expected) (e : Expected)
      → b ≡ true
      → (if b then x else y) ≡ ok e
      → x ≡ ok e
  chosen true x y e h passed = passed
  chosen false x y e h passed = cc

  no_expected :
      (snapshot : WorkflowStateSnapshot) (plan : Plan) (calls : List ToolInput) (e : Expected)
      → bounded_tool_calls_from_plan ports.validate plan ≡ some calls
      → any is_reduction calls ≡ true
      → expected_definition ports snapshot (some plan) ≢ ok e
  unfolding expected_definition planned_expected
  no_expected snapshot plan calls e parsed h passed =
      let (bound, inner) =
        reject_if_ok
          (snapshot.workflow.plan_id != plan.plan_id
            || plan.workflow_name != some snapshot.workflow.definition_name
            || plan.workflow_version != some snapshot.workflow.definition_version)
          _ _ e passed in
      no_plan snapshot plan calls e parsed h (
        chosen (plan.intent == bounded_tool_plan_intent) _ _ e (bounded_intent plan calls parsed)
          inner)

  -- Where the bounded plan of a workflow parses, and one of its calls is of `reduce_or_cancel_po`,
  -- the check of the stored workflow against that plan never passes, whatever the workflow holds
  -- and whatever statuses are allowed.
  pub declared_definition-reduction :
      (snapshot : WorkflowStateSnapshot) (plan : Plan) (calls : List ToolInput)
      (allowed : WorkflowStatus → Bool) (definition : WorkflowDefinition)
      → bounded_tool_calls_from_plan ports.validate plan ≡ some calls
      → any is_reduction calls ≡ true
      → declared_definition ports snapshot (some plan) allowed ≢ ok definition
  unfolding declared_definition
  declared_definition-reduction snapshot plan calls allowed definition parsed h passed =
      let w = snapshot.workflow in
      let (runs, h1) = reject_if_ok (not (allowed w.status)) _ _ definition passed in
      let (lease, h2) =
        reject_if_ok
          ((is_null w.lease_owner && is_not_null w.lease_expires_at)
            || (is_not_null w.lease_owner && is_null w.lease_expires_at))
          _ _ definition h1 in
      let (e, expected, h3) =
        and_then_ok (expected_definition ports snapshot (some plan)) _ definition h2 in
      no_expected snapshot plan calls e parsed h expected
