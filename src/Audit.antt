-- ===== src/Audit.antt =====
-- src/enterprise_agent/application/audit_trail.py: `append_material_audit_event`. The fresh
-- identifier of an event is left out.
pub mod Sanitizer
pub mod Ledger
mod Tests
use harmony_takehome.Prelude.{Option, none, some, Bool, true, false, String, List, [], ◌∷◌, ◌++◌}
use harmony_takehome.Json.{Fields}
use harmony_takehome.Domain.{Instant, AuditEvent}

-- The event of which only these four facts are given; a caller sets the others.
unfoldable pub material_event : String → String → Instant → Fields → AuditEvent
material_event event_type run_id occurred_at payload = record {
  occurred_at = occurred_at;
  event_type = event_type;
  run_id = run_id;
  actor_id = none;
  attention_id = none;
  workflow_id = none;
  plan_id = none;
  evidence_ids = [];
  payload = payload;
  policy_version = none;
  plan_hash = none;
  idempotency_key = none;
  failure_category = none;
}

-- `if audit is not None and run_id is not None: append_material_audit_event(...)`
abbrev pub recorded :
    Bool → Option String → (String → List AuditEvent) → List AuditEvent → List AuditEvent
recorded true (some run_id) events trail = trail ++ events run_id
recorded _ _ events trail = trail
