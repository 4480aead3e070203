-- ===== src/Workflow/Executor/Machine.antt =====
-- The executor's ports and exceptions, and the state behind the ports: the workflow database, the
-- world `E` that the tools act on, and the audit trail.
use harmony_takehome.Prelude.{
  arith, refl, ◌≡◌, String, Bool, true, false, Option, none, some, List, [], Result, ok, err,
  Action, if◌then◌else◌, get_elem?,
}
use harmony_takehome.Json
use harmony_takehome.Json.{Json, Fields}
use harmony_takehome.Text.{Python, is_blank}
use harmony_takehome.Domain.{
  Instant, Plan, Approval, ActorContext, ToolInvocation, ToolCompensation, AuditEvent,
  WorkflowStateSnapshot,
}
use harmony_takehome.Workflow.Tools.{Validator}
use harmony_takehome.Workflow.Store.Database.{WorkflowDb}

pub data ExecutionError : Type 0 where
  rejected claim_lost store_error : String → ExecutionError
  terminal tool_raised value_error : String → ExecutionError
  external_step_pending unavailable crash_injected : ExecutionError
  audit_error : String → ExecutionError
  identity_not_found invalid_input index_error : ExecutionError

-- What a call of a tool adapter comes to: a result mapping, another value, a
-- TerminalToolExecutionError with its message, or any other exception.
pub data ToolOutcome : Type 0 where
  returned : Fields → ToolOutcome
  not_mapping : ToolOutcome
  failed_for_good raised : String → ToolOutcome

-- The tool adapter: not configured, without the compensation port, or with it.
pub data ToolExecutor (E : Type 0) : Type 0 where
  absent : ToolExecutor E
  effects_only : (ActorContext → ToolInvocation → E → ToolOutcome × E) → ToolExecutor E
  compensating :
      (ActorContext → ToolInvocation → E → ToolOutcome × E)
      → (ActorContext → ToolCompensation → E → ToolOutcome × E)
      → ToolExecutor E

pub record Ports (E : Type 0) : Type 0 where
  pub load_for_plan : String → Option (Plan × Approval)
  pub actor_for : String → Option ActorContext
  pub tool_executor : ToolExecutor E
  -- Whether the injector stops the process after this effect.
  pub crash_injector : Option (ToolInvocation → Bool)
  -- `append` of the audit ledger, with the identifier that it gives the event.
  pub audit : Option (AuditEvent → Action (List AuditEvent) String (Unit {0}))
  pub validate : Validator
  pub python : Python

pub record Machine (E : Type 0) : Type 0 where
  pub db : WorkflowDb
  pub effects : E
  pub audit : List AuditEvent

abbrev pub Exec : Type 0 → Type 0 → Type 0
Exec E A = Action (Machine E) ExecutionError A

abbrev pub Check : Type 0 → Type 0
Check A = Result ExecutionError A

-- `if bad: raise WorkflowExecutionRejectedError(message)`
abbrev pub reject_if : {A : Type 0} → Bool → String → Check A → Check A
reject_if true message rest = err (rejected message)
reject_if false message rest = rest

abbrev pub or_error : {A : Type 0} → Option A → ExecutionError → Check A
or_error none e = err e
or_error (some a) e = ok a

-- An exception of the store passes through the executor.
abbrev pub stored : {A : Type 0} → Result String A → Result ExecutionError A
stored (ok a) = ok a
stored (err message) = err (store_error message)

-- An exception of the audit ledger passes through too.
abbrev pub audit_checked : {A : Type 0} → Result String A → Result ExecutionError A
audit_checked (ok a) = ok a
audit_checked (err message) = err (audit_error message)

-- A ValueError of the catalogue passes through too.
abbrev pub value_checked : {A : Type 0} → Result String A → Check A
value_checked (ok a) = ok a
value_checked (err message) = err (value_error message)

-- A call of the tool adapter. A result that is no mapping is refused by the executor.
abbrev pub mapping_of : String → ToolOutcome → Check Fields
mapping_of message (returned result) = ok result
mapping_of message not_mapping = err (rejected message)
mapping_of message (failed_for_good error) = err (terminal error)
mapping_of message (raised error) = err (tool_raised error)

abbrev pub call_tool : {E : Type 0} → (E → ToolOutcome × E) → Exec E ToolOutcome
call_tool call s =
    let (outcome, effects) = call s.effects in (ok outcome, record s { effects = effects })

module _ {E A : Type 0} where
  abbrev pub store : Action WorkflowDb String A → Exec E A
  store m s = let (r, db') = m s.db in (stored r, record s { db = db' })

-- `isinstance(value, str) and value.strip()`, for the run that every step's input carries
abbrev pub run_id_of : Option Json → Check (Option String)
run_id_of none = ok none
run_id_of (some Json.null) = ok none
run_id_of (some (Json.text value)) =
    if is_blank value then err (rejected "workflow audit_run_id is invalid") else ok (some value)
run_id_of (some _) = err (rejected "workflow audit_run_id is invalid")

-- `_audit_run_id`
unfoldable pub audit_run_id : WorkflowStateSnapshot → Check (Option String)
unfolding is_blank Json.get
audit_run_id snapshot = elim (get_elem? snapshot.steps 0) [
  | none ↦ ok none
  | some step ↦ run_id_of (Json.get "audit_run_id" step.input)
]

-- The facts of an event that a call of `_record_audit` names.
pub record AuditFacts : Type 0 where
  pub event_type : String
  pub occurred_at : Instant
  pub payload : Fields
  pub actor_id : Option String
  pub idempotency_key : Option String
  pub failure_category : Option String

module _ {E : Type 0} (ports : Ports E) where
  abbrev event_of : WorkflowStateSnapshot → AuditFacts → String → AuditEvent
  event_of snapshot facts run_id = record {
    occurred_at = facts.occurred_at;
    event_type = facts.event_type;
    run_id = run_id;
    actor_id = facts.actor_id;
    attention_id = none;
    workflow_id = some snapshot.workflow.workflow_id;
    plan_id = some snapshot.workflow.plan_id;
    evidence_ids = [];
    payload = facts.payload;
    policy_version = none;
    plan_hash = none;
    idempotency_key = facts.idempotency_key;
    failure_category = facts.failure_category;
  }

  -- `append_material_audit_event`, whose exceptions pass through.
  abbrev appended :
      (AuditEvent → Action (List AuditEvent) String (Unit {0})) → AuditEvent → Exec E (Unit {0})
  appended append event s =
      let (r, audit) = append event s.audit in (audit_checked r, record s { audit = audit })

  abbrev audit_run :
      (AuditEvent → Action (List AuditEvent) String (Unit {0}))
      → WorkflowStateSnapshot
      → AuditFacts
      → Check (Option String)
      → Exec E (Unit {0})
  audit_run append snapshot facts (err e) s = (err e, s)
  audit_run append snapshot facts (ok none) s = (ok tt, s)
  audit_run append snapshot facts (ok (some run_id)) s =
      appended append (event_of snapshot facts run_id) s

  abbrev audit_through :
      Option (AuditEvent → Action (List AuditEvent) String (Unit {0}))
      → WorkflowStateSnapshot
      → AuditFacts
      → Exec E (Unit {0})
  unfolding audit_run_id
  audit_through none snapshot facts s = (ok tt, s)
  audit_through (some append) snapshot facts s =
      audit_run append snapshot facts (audit_run_id snapshot) s

  -- `_record_audit`
  unfoldable pub record_audit : WorkflowStateSnapshot → AuditFacts → Exec E (Unit {0})
  unfolding audit_through
  record_audit snapshot facts = audit_through ports.audit snapshot facts

  -- Auditing writes to the trail alone.
  pub record_audit_keeps :
      (snapshot : WorkflowStateSnapshot) (facts : AuditFacts) (m : Machine E)
      → let m' = (record_audit snapshot facts m).1 in (m'.db ≡ m.db) × (m'.effects ≡ m.effects)
  unfolding record_audit audit_through
  record_audit_keeps snapshot facts m = through ports.audit
    where
      run :
          (append : AuditEvent → Action (List AuditEvent) String (Unit {0}))
          (r : Check (Option String))
          → let m' = (audit_run append snapshot facts r m).1 in
            (m'.db ≡ m.db) × (m'.effects ≡ m.effects)
      run append (err e) = (refl, refl)
      run append (ok none) = (refl, refl)
      run append (ok (some run_id)) = (refl, refl)

      through :
          (o : Option (AuditEvent → Action (List AuditEvent) String (Unit {0})))
          → let m' = (audit_through o snapshot facts m).1 in
            (m'.db ≡ m.db) × (m'.effects ≡ m.effects)
      through none = (refl, refl)
      through (some append) = run append (audit_run_id snapshot)

-- What a check that has passed says of its first condition.
pub reject_if_ok :
    {A : Type 0} (bad : Bool) (message : String) (rest : Check A) (a : A)
    → reject_if bad message rest ≡ ok a
    → (bad ≡ false) × (rest ≡ ok a)
reject_if_ok true message rest a h = cc
reject_if_ok false message rest a h = (refl, h)

pub or_error_ok :
    {A : Type 0} (o : Option A) (e : ExecutionError) (a : A) → or_error o e ≡ ok a → o ≡ some a
or_error_ok none e a h = cc
or_error_ok (some x) e a h = ground arith
