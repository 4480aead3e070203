-- ===== src/Attention.antt =====
-- PostgresAttentionAdapter of src/enterprise_agent/adapters/attention.py: the table of attention
-- items and the ledger of audit events, which every method changes in one transaction. A fresh
-- identifier is an argument of the method that draws it.
pub mod Items
pub mod Registrations
pub mod Deduplication
pub mod Transitions
pub mod Records
mod Tests
use Prim.Native.String.{◌++◌ as join_text}
use harmony_takehome.Prelude.{
  ℕ, String, Bool, true, false, ◌&&◌, not, Option, none, some, List, [], ◌∷◌, ◌++◌, map, any, find,
  sort_by, Result, ok, err, Action, if◌then◌else◌, ◌==◌, string_eq,
}
use harmony_takehome.Json.{Json, Fields, text, bool, num, object, end, field, update}
use harmony_takehome.Text.{Python, text_le, join}
use harmony_takehome.Domain.{Instant, AttentionItem, AuditEvent, Evidence, Versions}
use harmony_takehome.Domain.Attention.{
  AttentionStatus, open_item, pending_approval, in_progress, resolved, cancelled,
  allowed_transition,
}
use harmony_takehome.Domain.Triggers.{AttentionTrigger}
use harmony_takehome.Audit.Ledger.{Ledger, append}
use harmony_takehome.Workflow.Staging.{versions_json}

pub record AttentionDb : Type 0 where
  pub items : List AttentionItem
  pub ledger : Ledger

-- What a method raises: the two errors of the program, and that of the database.
pub data AttentionError : Type 0 where
  invalid_transition audit_event_error integrity_error : String → AttentionError

pub record AttentionRegistration : Type 0 where
  pub attention : AttentionItem
  pub created : Bool

abbrev pub status_value : AttentionStatus → String
status_value open_item = "open"
status_value pending_approval = "pending_approval"
status_value in_progress = "in_progress"
status_value resolved = "resolved"
status_value cancelled = "cancelled"

-- `status = :current_status`, on the distinct texts of the statuses
abbrev pub same_status : AttentionStatus → AttentionStatus → Bool
same_status open_item open_item = true
same_status pending_approval pending_approval = true
same_status in_progress in_progress = true
same_status resolved resolved = true
same_status cancelled cancelled = true
same_status _ _ = false

abbrev pub is_resolved : AttentionStatus → Bool
is_resolved resolved = true
is_resolved _ = false

-- `_TERMINAL_STATUSES`
abbrev pub is_terminal : AttentionStatus → Bool
is_terminal resolved = true
is_terminal cancelled = true
is_terminal _ = false

abbrev pub has_dedupe_key : String → AttentionItem → Bool
has_dedupe_key key item = item.dedupe_key == key

abbrev pub has_id : String → AttentionItem → Bool
has_id id item = item.attention_id == id

-- What INSERT_ATTENTION stores.
abbrev pub open_attention : String → String → String → String → Versions → Instant → AttentionItem
open_attention id scenario cause key versions at = record {
  attention_id = id;
  scenario = scenario;
  cause = cause;
  dedupe_key = key;
  status = open_item;
  created_at = at;
  source_versions = versions;
  resolved_at = none;
}

-- INSERT_ATTENTION: `ON CONFLICT (dedupe_key) DO NOTHING`, and then the row that is there.
abbrev existing_or_new :
    AttentionItem
    → Option AttentionItem
    → List AttentionItem
    → Result AttentionError AttentionRegistration × List AttentionItem
existing_or_new item (some existing) items =
    (ok (record { attention = existing; created = false }), items)
existing_or_new item none items =
    if any (has_id item.attention_id) items
    then (err (integrity_error "duplicate key value violates unique constraint"), items)
    else (ok (record { attention = item; created = true }), items ++ item ∷ [])

unfoldable pub insert_attention :
    AttentionItem
    → List AttentionItem
    → Result AttentionError AttentionRegistration × List AttentionItem
insert_attention item items =
    existing_or_new item (find (has_dedupe_key item.dedupe_key) items) items

-- The end of a transaction: the event is appended, or everything is rolled back.
abbrev pub audited :
    {A : Type 0}
    → AttentionDb
    → List AttentionItem
    → A
    → Result String (Unit {0}) × Ledger
    → Result AttentionError A × AttentionDb
audited before items value (ok _, ledger) = (ok value, record { items = items; ledger = ledger })
audited before items value (err message, ledger) = (err (audit_event_error message), before)

abbrev trigger_evidence : Option AttentionTrigger → List String
trigger_evidence none = []
trigger_evidence (some trigger) = sort_by text_le (map (λ v. v.0) trigger.source_versions)

abbrev trigger_payload : Option AttentionTrigger → Fields → Fields
trigger_payload none payload = payload
trigger_payload (some trigger) payload = update payload trigger.audit_payload

-- The event of `_append_audit_attempt`.
unfoldable pub attempt_event :
    AttentionItem → Option AttentionTrigger → String → String → Instant → Fields → AuditEvent
unfolding update text_le
attempt_event attention trigger run_id event_type occurred_at payload = record {
  occurred_at = occurred_at;
  event_type = event_type;
  run_id = run_id;
  actor_id = none;
  attention_id = some attention.attention_id;
  workflow_id = none;
  plan_id = none;
  evidence_ids = trigger_evidence trigger;
  payload = trigger_payload trigger (
      update
        (field "dedupe_key" (text attention.dedupe_key)
          (field "scenario" (text attention.scenario) (field "cause" (text attention.cause) end)))
        payload);
  policy_version = none;
  plan_hash = none;
  idempotency_key = none;
  failure_category = none;
}

unfoldable pub load : String → AttentionDb → Option AttentionItem
load id db = find (has_id id) db.items

abbrev pub triggered_item : String → AttentionTrigger → AttentionItem
triggered_item new_id trigger =
    open_attention new_id trigger.scenario trigger.cause trigger.dedupe_key trigger.source_versions
      trigger.detected_at

-- The events of the three methods.
abbrev pub registration_event : AttentionTrigger → String → AttentionRegistration → AuditEvent
registration_event trigger run_id r =
    attempt_event r.attention (some trigger) run_id
      (if r.created then "attention.detected" else "attention.deduplicated") trigger.detected_at
      (field "created" (bool r.created) end)

abbrev pub followup_event :
    AttentionItem → Evidence → String → Instant → AttentionRegistration → AuditEvent
followup_event original purchase_order run_id detected_at r =
    attempt_event r.attention none run_id "followup.reopened" detected_at (
      field "created" (bool r.created) (
        field "original_attention_id" (text original.attention_id)
          (field "purchase_order_id" (text purchase_order.record_id) end)))

abbrev pub transition_event :
    AttentionItem → AttentionStatus → String → Instant → AttentionItem → AuditEvent
transition_event attention target run_id at item =
    attempt_event item none run_id
      (if is_resolved target then "followup.resolved" else "attention.status_changed") at
      (field "from_status" (text (status_value attention.status))
        (field "to_status" (text (status_value target)) end))

-- The error of `require_attention_transition`.
abbrev pub refused_transition : AttentionStatus → AttentionStatus → AttentionError
refused_transition current target = invalid_transition (
    join (
      "attention transition from "
      ∷ status_value current
      ∷ " to "
      ∷ status_value target
      ∷ " is not allowed"
      ∷ []))

-- UPDATE_ATTENTION_STATUS
abbrev pub moved : AttentionStatus → Instant → AttentionItem → AttentionItem
moved target at item = record item {
  status = target;
  resolved_at = if is_terminal target then some at else none;
}

abbrev pub movable : AttentionItem → AttentionItem → Bool
movable attention item =
    item.attention_id == attention.attention_id && same_status item.status attention.status

abbrev pub moved_items :
    AttentionItem → AttentionStatus → Instant → List AttentionItem → List AttentionItem
moved_items attention target at items =
    map (λ item. if movable attention item then moved target at item else item) items

module _ (python : Python) where
  abbrev recorded_registration :
      String
      → (AttentionRegistration → AuditEvent)
      → AttentionDb
      → Result AttentionError AttentionRegistration × List AttentionItem
      → Result AttentionError AttentionRegistration × AttentionDb
  recorded_registration event_id event db (ok registration, items) =
      audited db items registration (append python event_id (event registration) db.ledger)
  recorded_registration event_id event db (err e, items) = (err e, db)

  unfoldable pub register :
      String
      → String
      → AttentionTrigger
      → String
      → Action AttentionDb AttentionError AttentionRegistration
  unfolding insert_attention attempt_event append
  register new_id event_id trigger run_id db =
      recorded_registration event_id (registration_event trigger run_id) db
        (insert_attention (triggered_item new_id trigger) db.items)

  abbrev pub followup_versions : Evidence → Versions
  followup_versions purchase_order =
      (join_text "purchase_order:" purchase_order.record_id, purchase_order.source_version) ∷ []

  unfoldable pub arrival_followup_dedupe_key : String → String → Versions → String
  arrival_followup_dedupe_key original_attention_id purchase_order_id versions =
      join_text "scenario_a:arrival_check:v1:" (
        python.sha256_hex (
          python.dumps (
            field "cause" (text "arrival_check") (
              field "original_attention_id" (text original_attention_id) (
                field "purchase_order_id" (text purchase_order_id)
                  (field "source_versions" (object (versions_json versions)) end))))))

  abbrev pub followup_item : String → AttentionItem → Evidence → Instant → AttentionItem
  followup_item new_id original purchase_order detected_at =
      let versions = followup_versions purchase_order in
      open_attention new_id "scenario_a" "arrival_check"
        (arrival_followup_dedupe_key original.attention_id purchase_order.record_id versions)
        versions detected_at

  unfoldable pub register_arrival_followup :
      String
      → String
      → AttentionItem
      → Evidence
      → String
      → Instant
      → Action AttentionDb AttentionError AttentionRegistration
  unfolding insert_attention attempt_event append arrival_followup_dedupe_key
  register_arrival_followup new_id event_id original purchase_order run_id detected_at db =
      recorded_registration event_id (followup_event original purchase_order run_id detected_at) db
        (insert_attention (followup_item new_id original purchase_order detected_at) db.items)

  abbrev recorded_transition :
      String
      → AttentionItem
      → AttentionStatus
      → String
      → Instant
      → AttentionDb
      → Option AttentionItem
      → Result AttentionError AttentionItem × AttentionDb
  recorded_transition event_id attention target run_id at db none = (
    err (
        invalid_transition
          "attention transition is no longer valid for the persisted current status"),
    db,
  )
  recorded_transition event_id attention target run_id at db (some item) =
      audited db (moved_items attention target at db.items) (moved target at item) (
        append python event_id (transition_event attention target run_id at (moved target at item))
          db.ledger)

  unfoldable pub transition :
      String
      → AttentionItem
      → AttentionStatus
      → String
      → Instant
      → Action AttentionDb AttentionError AttentionItem
  unfolding allowed_transition attempt_event append
  transition event_id attention target run_id at db =
      if allowed_transition attention.status target
      then recorded_transition event_id attention target run_id at db
          (find (movable attention) db.items)
      else (err (refused_transition attention.status target), db)

-- One call of the adapter that writes.
pub data Request : Type 0 where
  registers : String → String → AttentionTrigger → String → Request
  follows_up : String → String → AttentionItem → Evidence → String → Instant → Request
  transitions : String → AttentionItem → AttentionStatus → String → Instant → Request

unfoldable pub perform : Python → Request → AttentionDb → AttentionDb
unfolding register register_arrival_followup transition
perform python (registers new_id event_id trigger run_id) db =
    (register python new_id event_id trigger run_id db).1
perform python (follows_up new_id event_id original order run_id at) db =
    (register_arrival_followup python new_id event_id original order run_id at db).1
perform python (transitions event_id attention target run_id at) db =
    (transition python event_id attention target run_id at db).1

unfoldable pub run_requests : Python → List Request → AttentionDb → AttentionDb
unfolding perform
run_requests python [] db = db
run_requests python (r ∷ rs) db = run_requests python rs (perform python r db)
