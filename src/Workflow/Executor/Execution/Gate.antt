-- ===== src/Workflow/Executor/Execution/Gate.antt =====
-- When the executor may call a tool.
use text.Mathlib.TextEquality.{eq_iff}
use harmony_takehome.Prelude.{
  ◌<◌, ◌≡◌, refl, String, ◌⊎◌, inl, inr, true, false, not, ◌||◌, Option, equal_of, string_eq,
  option_eq, none, some, get_elem?, ok, err, Result, arith, raise_if_cases, or_raise_cases,
  lift_cases, string_eq, nat_eq, Option-cases,
}
use harmony_takehome.Domain.{
  Instant, ActorContext, ToolInvocation, WorkflowStepState, WorkflowStepStatus, WorkflowStatus,
  WorkflowStateSnapshot,
}
use harmony_takehome.Workflow.Declarations.{WorkflowDefinition, WorkflowStepDefinition}
use harmony_takehome.Workflow.Sql.{holds}
use harmony_takehome.Workflow.Store.Database.{load}
use harmony_takehome.Workflow.Executor.Machine.{
  ToolExecutor, ToolOutcome, ExecutionError, unavailable, Ports, Machine,
}
use harmony_takehome.Workflow.Executor.Checks.{runnable, declared_definition}
use harmony_takehome.Workflow.Executor.Cursor.{validate_started_tool}
use harmony_takehome.Workflow.Executor.Tools.{StartedToolExecution}
use harmony_takehome.Workflow.Executor.Execution.{
  is_started, begins_late, may_execute, execute_with, execute_started_tool, execute_by, has_key,
  call_effect, execute_next, execute_declared, execute_loaded, execute_found,
}

started_step :
    (snapshot : WorkflowStateSnapshot) (definition : WorkflowDefinition)
    (next : WorkflowStepDefinition)
    → validate_started_tool snapshot definition ≡ ok next
    → (step : WorkflowStepState) × (get_elem? snapshot.steps snapshot.workflow.current_step
        ≡ some step)
      × (step.status ≡ WorkflowStepStatus.running)
unfolding validate_started_tool
started_step snapshot definition next h =
    elim (Option-cases (get_elem? snapshot.steps snapshot.workflow.current_step)) [
      | inl nothing ↦ ground arith
      | inr (step, here) ↦ (step, here, ground arith)
    ]

leased_until :
    (snapshot : WorkflowStateSnapshot) (next : WorkflowStepDefinition)
    (started : StartedToolExecution) (worker : String) (at : Instant)
    → not (may_execute snapshot next started worker at) ≡ false
    → (expires : Instant) × (snapshot.workflow.lease_expires_at ≡ some expires) × (at < expires)
unfolding may_execute
leased_until snapshot next started worker at h =
    elim (Option-cases snapshot.workflow.lease_expires_at) [
      | inl nothing ↦ ground arith
      | inr (expires, here) ↦ (expires, here, ground arith)
    ]

holds-some : (o : Option String) (value : String) → holds o value ≡ true → o ≡ some value
holds-some none value h = cc
holds-some (some x) value h = ground (arith, eq_iff x value)

key_some :
    (step : WorkflowStepState) (key : String)
    → has_key key (some step) ≡ true
    → step.idempotency_key ≡ some key
key_some step key h = equal_of step.idempotency_key (some key) h

leased_to :
    (snapshot : WorkflowStateSnapshot) (next : WorkflowStepDefinition)
    (started : StartedToolExecution) (worker : String) (at : Instant) (step : WorkflowStepState)
    → not (may_execute snapshot next started worker at) ≡ false
    → get_elem? snapshot.steps snapshot.workflow.current_step ≡ some step
    → (snapshot.workflow.status ≡ WorkflowStatus.running)
      × (snapshot.workflow.lease_owner ≡ some worker)
      × (step.idempotency_key ≡ some started.invocation.idempotency_key)
unfolding may_execute
leased_to snapshot next started worker at step h here = (
  ground arith,
  holds-some snapshot.workflow.lease_owner worker (ground arith),
  key_some step started.invocation.idempotency_key (ground arith),
)

-- The start of the tool is on record: the stored workflow is running and matches its declaration,
-- its lease is the worker's and has not expired, and the step at its cursor is running under the
-- key of the invocation.
pub record IsRecorded {E : Type 0} (ports : Ports E) (started : StartedToolExecution)
    (worker : String) (at : Instant) (m : Machine E) : Type 0 where
  pub snapshot : WorkflowStateSnapshot
  pub definition : WorkflowDefinition
  pub step : WorkflowStepState
  pub loaded : load started.invocation.workflow_id m.db ≡ some snapshot
  pub declared : declared_definition ports snapshot none runnable ≡ ok definition
  pub running : snapshot.workflow.status ≡ WorkflowStatus.running
  pub owned : snapshot.workflow.lease_owner ≡ some worker
  pub expires : Instant
  pub until : snapshot.workflow.lease_expires_at ≡ some expires
  pub live : at < expires
  pub at_cursor : get_elem? snapshot.steps snapshot.workflow.current_step ≡ some step
  pub step_running : step.status ≡ WorkflowStepStatus.running
  pub keyed : step.idempotency_key ≡ some started.invocation.idempotency_key

module _ {E : Type 0} (ports : Ports E) (started : StartedToolExecution) (worker : String)
    (at : Instant) (m : Machine E) where
  -- The effects are as they were, or the start was on record.
  pub Guarded : Result ExecutionError WorkflowStateSnapshot × Machine E → Type 0
  Guarded r = (r.1.effects ≡ m.effects) ⊎ IsRecorded ports started worker at m

  refused : (e : ExecutionError) → Guarded (err e, m)
  unfolding Guarded
  refused e = inl refl

  on_record :
      IsRecorded ports started worker at m
      → (r : Result ExecutionError WorkflowStateSnapshot × Machine E) → Guarded r
  unfolding Guarded
  on_record h r = inr h

  recorded :
      (snapshot : WorkflowStateSnapshot) (definition : WorkflowDefinition)
      (next : WorkflowStepDefinition)
      → load started.invocation.workflow_id m.db ≡ some snapshot
      → declared_definition ports snapshot none runnable ≡ ok definition
      → validate_started_tool snapshot definition ≡ ok next
      → not (may_execute snapshot next started worker at) ≡ false
      → IsRecorded ports started worker at m
  recorded snapshot definition next loaded declared valid may =
      let (step, here, step_running) = started_step snapshot definition next valid in
      let (expires, until, live) = leased_until snapshot next started worker at may in
      let (running, owned, keyed) = leased_to snapshot next started worker at step may here in
      record {
        snapshot = snapshot;
        definition = definition;
        step = step;
        loaded = loaded;
        declared = declared;
        running = running;
        owned = owned;
        expires = expires;
        until = until;
        live = live;
        at_cursor = here;
        step_running = step_running;
        keyed = keyed;
      }

  execute_with-Guarded :
      (execute : ActorContext → ToolInvocation → E → ToolOutcome × E)
      → Guarded (execute_with ports execute started worker at m)
  unfolding execute_with
  execute_with-Guarded execute =
      raise_if_cases Guarded
        (not (is_started started.invocation.status) || begins_late started.invocation.started_at at)
        _ (λ u. execute_found ports execute started worker at) m (refused _)
        (λ fit.
          or_raise_cases Guarded (load started.invocation.workflow_id m.db) _
            (execute_loaded ports execute started worker at) m (refused _)
            (λ snapshot loaded.
              lift_cases Guarded (declared_definition ports snapshot none runnable)
                (execute_declared ports execute started worker at snapshot) m refused
                (λ definition declared.
                  lift_cases Guarded (validate_started_tool snapshot definition)
                    (execute_next ports execute started worker at snapshot definition) m refused
                    (λ next valid.
                      raise_if_cases Guarded (not (may_execute snapshot next started worker at)) _
                        (λ u. call_effect ports execute started worker at snapshot definition next)
                        m (refused _)
                        (λ may.
                          on_record (recorded snapshot definition next loaded declared valid may)
                            _)))))

  execute_by-Guarded :
      (tools : ToolExecutor E) → Guarded (execute_by ports tools started worker at m)
  execute_by-Guarded ToolExecutor.absent = refused unavailable
  execute_by-Guarded (ToolExecutor.effects_only execute) = execute_with-Guarded execute
  execute_by-Guarded (ToolExecutor.compensating execute call) = execute_with-Guarded execute

  -- Whatever `execute_started_tool` returns or raises, either the world behind the tools is as it
  -- was, or the start was on record before the call: the stored workflow matched its declaration
  -- and was running under the worker's live lease, and the step at its cursor was running under the
  -- key of the invocation.
  pub execute_started_tool-Guarded : Guarded (execute_started_tool ports started worker at m)
  unfolding execute_started_tool
  execute_started_tool-Guarded = execute_by-Guarded ports.tool_executor
