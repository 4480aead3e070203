-- ===== src/Audit/Ledger.antt =====
-- PostgresAuditAdapter of src/enterprise_agent/adapters/audit.py: the table of audit events, each
-- with its identifier. Every instant has the one timezone.
pub mod Appends
use harmony_takehome.Prelude.{
  String, Bool, true, false, ◌||◌, ◌&&◌, not, Option, none, some, List, [], ◌∷◌, ◌++◌, map, any,
  filter, sort_by, Result, ok, err, and_then, Action, if◌then◌else◌, ◌==◌, string_eq, nat_eq,
  option_eq, ltb,
}
use harmony_takehome.Json.{Fields}
use harmony_takehome.Text.{Python, text_le}
use harmony_takehome.Domain.{AuditEvent}
use harmony_takehome.Audit.Sanitizer.{sanitize_fields}

abbrev pub Row : Type 0
Row = String × AuditEvent

abbrev pub Ledger : Type 0
Ledger = List Row

abbrev pub required_audit_event_types : List String
required_audit_event_types =
    "attention.detected" ∷ "attention.deduplicated" ∷ "context.gathered" ∷ "evidence.observed"
    ∷ "llm.completed" ∷ "planner.recommended" ∷ "gate.allowed" ∷ "gate.denied"
    ∷ "approval.requested" ∷ "approval.rerouted" ∷ "approval.approved" ∷ "approval.rejected"
    ∷ "workflow.started" ∷ "workflow.step_started" ∷ "workflow.step_completed" ∷ "workflow.failed"
    ∷ "tool.started" ∷ "tool.succeeded" ∷ "tool.failed" ∷ "compensation.started"
    ∷ "compensation.completed" ∷ "schedule.created" ∷ "schedule.fired" ∷ "followup.resolved"
    ∷ "followup.reopened" ∷ []

unfoldable pub is_supported : String → Bool
is_supported event_type =
    any (λ name. name == event_type) required_audit_event_types
    || event_type == "attention.status_changed"

abbrev pub require : Bool → String → Result String (Unit {0}) → Result String (Unit {0})
require true message rest = rest
require false message rest = err message

module _ (python : Python) where
  abbrev pub optional_uuid : Option String → Bool
  optional_uuid none = true
  optional_uuid (some value) = python.is_uuid value

  -- `_validate_event`. Its last line sanitises the payload for the errors alone.
  unfoldable pub validate_event : String → AuditEvent → Result String (Unit {0})
  unfolding is_supported sanitize_fields
  validate_event id event = require (is_supported event.event_type) "unsupported event type" (
      require (python.is_uuid id) "audit event ID must be a UUID" (
        require (optional_uuid event.actor_id) "actor ID must be a UUID" (
          require (optional_uuid event.attention_id) "attention ID must be a UUID" (
            require (optional_uuid event.workflow_id) "workflow ID must be a UUID" (
              require (optional_uuid event.plan_id) "plan ID must be a UUID"
                (and_then (sanitize_fields python event.payload) (λ _. ok tt)))))))

  -- `_event_parameters`
  unfoldable pub event_parameters : String → AuditEvent → Result String Row
  unfolding sanitize_fields
  event_parameters id event =
      and_then (sanitize_fields python event.payload)
        (λ payload. ok (id, record event { payload = payload }))

  abbrev pub inserted : Row → Ledger → Result String (Unit {0}) × Ledger
  inserted (id, event) ledger =
      if any (λ row. row.0 == id) ledger
      then (err "duplicate key value violates unique constraint", ledger)
      else (ok tt, ledger ++ (id, event) ∷ [])

  abbrev pub insert_event : Result String Row → Ledger → Result String (Unit {0}) × Ledger
  insert_event (ok row) ledger = inserted row ledger
  insert_event (err e) ledger = (err e, ledger)

  -- `append`
  unfoldable pub append : String → AuditEvent → Action Ledger String (Unit {0})
  unfolding validate_event event_parameters
  append id event =
      insert_event (and_then (validate_event id event) (λ _. event_parameters id event))

-- `ORDER BY occurred_at ASC, id ASC`
unfoldable pub row_before : Row → Row → Bool
unfolding text_le
row_before (i, a) (j, b) =
    ltb a.occurred_at b.occurred_at || (a.occurred_at == b.occurred_at && text_le i j)

unfoldable pub events_for_run : String → Ledger → List AuditEvent
unfolding row_before
events_for_run run_id ledger =
    map (λ row. row.1) (sort_by row_before (filter (λ row. row.1.run_id == run_id) ledger))

abbrev first_run : List Row → Option String
first_run [] = none
first_run ((id, event) ∷ rows) = some event.run_id

unfoldable pub latest_run_for_plan : String → Ledger → Option String
unfolding row_before
latest_run_for_plan plan_id ledger =
    first_run
      (sort_by (λ a b. row_before b a) (filter (λ row. row.1.plan_id == some plan_id) ledger))

unfoldable pub llm_usage_events : Ledger → List AuditEvent
unfolding row_before
llm_usage_events ledger =
    map (λ row. row.1)
      (sort_by row_before (filter (λ row. row.1.event_type == "llm.completed") ledger))
