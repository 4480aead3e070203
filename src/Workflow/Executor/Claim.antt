-- ===== src/Workflow/Executor/Claim.antt =====
-- `claim` and `advance_next_guard` of ScenarioAWorkflowExecutor.
use harmony_takehome.Prelude.{
  ◌-◌, String, not, ◌&&◌, none, some, ok, err, and_then, leb, pure, gets, lift, or_raise, raise_if,
  ◌>>=◌, ◌>>◌, string_eq, if◌then◌else◌,
}
use harmony_takehome.Json.{Fields, end, field, text}
use harmony_takehome.Text.{is_blank}
use harmony_takehome.Domain.{Instant, Versions, WorkflowStateSnapshot, is_pending, is_running}
use harmony_takehome.Workflow.Sql.{holds, after, is_not_null}
use harmony_takehome.Workflow.Declarations.{WorkflowDefinition, WorkflowStepDefinition, step_value}
use harmony_takehome.Workflow.Store.Request as Store
use harmony_takehome.Workflow.Store.Database.{load, transact}
use harmony_takehome.Workflow.Executor.Machine.{
  rejected, claim_lost, external_step_pending, Ports, Exec, Check, AuditFacts, store, record_audit,
}
use harmony_takehome.Workflow.Executor.Checks.{runnable, declared_definition}
use harmony_takehome.Workflow.Executor.Cursor.{
  validate_next_step, validate_started_tool, next_step_is_started_external_tool,
  revalidate_execution,
}

-- The facts of an event of the workflow alone.
abbrev pub workflow_facts : String → Instant → Fields → AuditFacts
workflow_facts event_type occurred_at payload = record {
  event_type = event_type;
  occurred_at = occurred_at;
  payload = payload;
  actor_id = none;
  idempotency_key = none;
  failure_category = none;
}

abbrev pub started_facts : WorkflowDefinition → Instant → AuditFacts
started_facts definition now =
    workflow_facts "workflow.started" now (field "workflow_name" (text definition.name) end)

-- The exact next step, pending or already started.
abbrev pub claimed_step : WorkflowStateSnapshot → WorkflowDefinition → Check WorkflowStepDefinition
claimed_step snapshot definition =
    if next_step_is_started_external_tool snapshot
    then validate_started_tool snapshot definition
    else validate_next_step snapshot definition

module _ {E : Type 0} (ports : Ports E) where
  -- Everything that `claim` checks before it asks the store, on the loaded snapshot.
  unfoldable pub claim_checks :
      WorkflowStateSnapshot → Instant → Versions → Check WorkflowDefinition
  unfolding revalidate_execution next_step_is_started_external_tool validate_started_tool
      validate_next_step
  claim_checks snapshot now current = elim (ports.load_for_plan snapshot.workflow.plan_id) [
    | none ↦ err (rejected "workflow has no approval binding")
    | some (plan, approval) ↦
        and_then (revalidate_execution ports snapshot plan approval now current)
          (λ definition. and_then (claimed_step snapshot definition) (λ next. ok definition))
  ]

  -- The event of the first claim.
  abbrev pub start_event :
      WorkflowStateSnapshot
      → WorkflowDefinition
      → Instant
      → WorkflowStateSnapshot
      → Exec E (Unit {0})
  start_event snapshot definition now claimed =
      if is_pending snapshot.workflow.status
      then record_audit ports claimed (started_facts definition now)
      else pure tt

  -- `claim`
  unfoldable pub claim :
      String → String → Instant → Instant → Versions → Exec E WorkflowStateSnapshot
  unfolding is_blank load claim_checks transact Store.claim record_audit
  claim id worker now expires current = do
    raise_if (is_blank worker) (rejected "workflow worker identity is required")
    raise_if (leb expires now) (rejected "workflow lease expiry must be in the future")
    found ← gets (λ s. load id s.db)
    snapshot ← or_raise found (rejected "workflow does not exist")
    definition ← lift (claim_checks snapshot now current)
    answer ← store (transact id (Store.claim worker now expires))
    claimed ← or_raise answer (claim_lost "workflow claim was not acquired")
    start_event snapshot definition now claimed
    pure claimed

  -- `advance_next_guard`
  unfoldable pub advance_next_guard :
      WorkflowStateSnapshot → String → Instant → Exec E WorkflowStateSnapshot
  unfolding declared_definition validate_next_step transact Store.complete_guard_step record_audit
      step_value
  advance_next_guard snapshot worker at = do
    definition ← lift (declared_definition ports snapshot none runnable)
    next ← lift (validate_next_step snapshot definition)
    raise_if (is_not_null next.tool_name) external_step_pending
    let w = snapshot.workflow
    raise_if
        (not (is_running w.status && holds w.lease_owner worker && after w.lease_expires_at at))
        (claim_lost "workflow guard transition requires the active lease")
    answer ← store (transact w.workflow_id (Store.complete_guard_step worker next.index at))
    advanced ← or_raise answer (claim_lost "workflow guard transition was not acquired")
    record_audit ports advanced (
        workflow_facts "workflow.step_started" (at - 1)
          (field "step_name" (text (step_value next.name)) end))
    record_audit ports advanced (
        workflow_facts "workflow.step_completed" at (
          field "step_name" (text (step_value next.name))
            (field "result" (text "guard-satisfied") end)))
    pure advanced
