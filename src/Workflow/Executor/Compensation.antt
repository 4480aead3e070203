-- ===== src/Workflow/Executor/Compensation.antt =====
-- `compensate_failed_workflow` of ScenarioAWorkflowExecutor: the completed effects of a failed
-- workflow are undone in the reverse of their declared order.
pub mod Reversal
pub mod Undone
use harmony_takehome.Prelude.{
  ◌+◌, ◌-◌, String, not, none, some, List, [], ◌∷◌, any, reverse, get_elem?, ok, err, pure, raise,
  gets, lift, or_raise, raise_if, ◌>>=◌, ◌>>◌, ◌==◌, string_eq, option_eq, if◌then◌else◌,
}
use harmony_takehome.Json.{Fields, end, field, text}
use harmony_takehome.Domain.{
  Instant, ActorContext, ToolCompensation, WorkflowStepState, WorkflowStateSnapshot, is_failed,
  is_compensated,
}
use harmony_takehome.Workflow.Sql.{coalesce}
use harmony_takehome.Workflow.Tools.{
  ToolName, tool_value, action_value, compensation_of, build_compensation_idempotency_key,
}
use harmony_takehome.Workflow.Declarations.{WorkflowDefinition}
use harmony_takehome.Workflow.Store.Statements.{is_effect}
use harmony_takehome.Workflow.Store.Request.{
  begin_compensation, start_compensation_step, complete_compensation_step,
}
use harmony_takehome.Workflow.Store.Database.{load, transact}
use harmony_takehome.Workflow.Executor.Machine.{
  ToolExecutor, ToolOutcome, rejected, claim_lost, unavailable, identity_not_found, index_error,
  Ports, Exec, Check, AuditFacts, store, record_audit, call_tool, mapping_of, value_checked,
}
use harmony_takehome.Workflow.Executor.Checks.{mismatch, declared_definition}

abbrev pub tool_facts : String → Instant → String → WorkflowStepState → AuditFacts
tool_facts event_type occurred_at actor_id step = record {
  event_type = event_type;
  occurred_at = occurred_at;
  payload = field "tool_name" (text (coalesce step.tool_name "")) end;
  actor_id = some actor_id;
  idempotency_key = step.idempotency_key;
  failure_category = none;
}

-- What a completed step shows of its effect.
pub record Provenance : Type 0 where
  pub key : String
  pub effect : Fields
  pub tool : ToolName

module _ {E : Type 0} (ports : Ports E) where
  -- `_compensation_actor`
  unfoldable pub compensation_actor : WorkflowStateSnapshot → Check ActorContext
  compensation_actor snapshot = elim (ports.load_for_plan snapshot.workflow.plan_id) [
    | none ↦ err (rejected "workflow has no approval binding")
    | some (plan, approval) ↦ elim (ports.actor_for plan.actor_id) [
      | none ↦ err identity_not_found
      | some actor ↦
          if actor.user_id == plan.actor_id
          then ok actor
          else err (rejected "workflow actor identity does not match the plan")
    ]
  ]

  module _ (call : ActorContext → ToolCompensation → E → ToolOutcome × E) (id worker : String)
      (now : Instant) (definition : WorkflowDefinition) (actor : ActorContext) where
    -- What the loop checks of a completed step before it unwinds it: the key and the result of the
    -- effect, and the tool that its declaration names.
    unfoldable pub unwind_provenance : WorkflowStepState → Check Provenance
    unfolding tool_value
    unwind_provenance step = elim step.idempotency_key [
      | none ↦ err (rejected "completed external step lacks compensation provenance")
      | some key ↦ elim step.result [
        | none ↦ err (rejected "completed external step lacks compensation provenance")
        | some effect ↦ elim (get_elem? definition.steps (step.step_index - 1)) [
          | none ↦ err index_error
          | some declared ↦ elim declared.tool_name [
            | none ↦ err (rejected mismatch)
            | some tool ↦
                if step.tool_name == some (tool_value tool)
                then ok (record { key = key; effect = effect; tool = tool })
                else err (rejected mismatch)
          ]
        ]
      ]
    ]

    -- The reverse action that the provider is asked for.
    abbrev pub compensation_for : Provenance → String → ToolCompensation
    compensation_for from reverse_key = record {
      workflow_id = id;
      tool_name = tool_value from.tool;
      action = action_value (compensation_of from.tool);
      original_idempotency_key = from.key;
      idempotency_key = reverse_key;
      effect_result = from.effect;
      requested_at = now;
    }

    -- What follows the provider's answer: the result is recorded, and the last one closes the
    -- workflow.
    abbrev pub after_reversal :
        WorkflowStepState → WorkflowStateSnapshot → ToolOutcome → Exec E WorkflowStateSnapshot
    after_reversal step started outcome = do
      result ← lift (mapping_of "tool compensation result must be a mapping" outcome)
      let finish = not (any is_effect started.steps)
      ended ←
          store (transact id (complete_compensation_step worker step.step_index result finish now))
      completed ← or_raise ended (claim_lost "workflow compensation completion was not acquired")
      record_audit ports completed
          (tool_facts "compensation.completed" (now + 1) actor.user_id step)
      pure completed

    -- The body of the loop for one completed effect.
    unfoldable pub unwind_step : WorkflowStepState → Exec E WorkflowStateSnapshot
    unfolding unwind_provenance transact start_compensation_step complete_compensation_step
        record_audit build_compensation_idempotency_key tool_value action_value compensation_of
    unwind_step step = do
      from ← lift (unwind_provenance step)
      begun ← store (transact id (start_compensation_step worker step.step_index now))
      started ← or_raise begun (claim_lost "workflow compensation step was not acquired")
      record_audit ports started (tool_facts "compensation.started" now actor.user_id step)
      reverse_key ← lift (
          value_checked (
            build_compensation_idempotency_key ports.python id step.step_index
              (compensation_of from.tool) from.key))
      call_tool (call actor (compensation_for from reverse_key)) >>= after_reversal step started

    -- `for step in reversed(compensating.steps)`, over the steps as they were when it began
    unfoldable pub unwind_all :
        List WorkflowStepState → WorkflowStateSnapshot → Exec E WorkflowStateSnapshot
    unfolding unwind_step
    unwind_all [] latest = pure latest
    unwind_all (step ∷ rest) latest =
        if is_effect step then (unwind_step step >>= unwind_all rest) else unwind_all rest latest

  abbrev pub unwind_loop :
      (ActorContext → ToolCompensation → E → ToolOutcome × E)
      → String
      → String
      → Instant
      → WorkflowDefinition
      → ActorContext
      → WorkflowStateSnapshot
      → Exec E WorkflowStateSnapshot
  unwind_loop call id worker now definition actor begun = do
    latest ← unwind_all call id worker now definition actor (reverse begun.steps) begun
    raise_if (not (is_compensated latest.workflow.status))
        (rejected "workflow compensation did not reach a terminal state")
    pure latest

  -- `compensate_failed_workflow`, with the adapter's compensation port
  unfoldable pub compensate_with :
      (ActorContext → ToolCompensation → E → ToolOutcome × E)
      → String
      → String
      → Instant
      → Exec E WorkflowStateSnapshot
  unfolding load declared_definition compensation_actor transact begin_compensation unwind_all
  compensate_with call id worker now = do
    found ← gets (λ s. load id s.db)
    snapshot ← or_raise found (rejected "workflow does not exist")
    raise_if (not (is_failed snapshot.workflow.status))
        (rejected "workflow is not ready for compensation")
    definition ← lift (declared_definition ports snapshot none is_failed)
    actor ← lift (compensation_actor snapshot)
    answer ← store (transact id (begin_compensation worker now))
    begun ← or_raise answer (claim_lost "workflow compensation transition was not acquired")
    if is_compensated begun.workflow.status
        then pure begun
        else unwind_loop call id worker now definition actor begun

  unfoldable pub compensate_failed_workflow :
      String → String → Instant → Exec E WorkflowStateSnapshot
  unfolding compensate_with
  compensate_failed_workflow id worker now = elim ports.tool_executor [
    | ToolExecutor.absent ↦ raise unavailable
    | ToolExecutor.effects_only execute ↦ raise unavailable
    | ToolExecutor.compensating execute call ↦ compensate_with call id worker now
  ]
