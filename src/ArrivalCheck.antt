-- ===== src/ArrivalCheck.antt =====
-- TuesdayArrivalCheckService of src/enterprise_agent/application/arrival_check.py, over the store of
-- attention items. The identities and the ERP are parameters. All instants have the one timezone, so
-- no timestamp is refused; a fresh identifier is an argument.
pub mod Resolution
mod Tests
use harmony_takehome.Prelude.{
  ℕ, String, Bool, true, false, ◌&&◌, ◌||◌, not, Option, none, some, List, [], ◌∷◌, Result, ok, err,
  and_then, Action, filter, if◌then◌else◌, ◌==◌, ◌!=◌, string_eq, leb, ltb,
}
use harmony_takehome.Json
use harmony_takehome.Json.{Json, end, field}
use harmony_takehome.Text.{Python, is_blank, str_of}
use harmony_takehome.Domain.{
  Instant, ActorContext, AttentionItem, AuditEvent, Decimal, Evidence, ScheduledTask,
}
use harmony_takehome.Domain.Attention.{AttentionStatus}
use harmony_takehome.Workflow.Sql.{is_null}
use harmony_takehome.Audit.{material_event, recorded}
use harmony_takehome.Scheduler.{is_claimed}
use harmony_takehome.Approvals.Escalation.{EvidenceQuery, expires_by}
use harmony_takehome.Attention
use harmony_takehome.Attention.{AttentionDb, AttentionError, AttentionRegistration, is_terminal}

pub data ArrivalError : Type 0 where
  arrival_error : String → ArrivalError
  attention_error : AttentionError → ArrivalError
  identity_not_found decimal_error : ArrivalError

pub data ArrivalCheckOutcome : Type 0 where
  resolved reopened not_actionable missing_attention : ArrivalCheckOutcome

pub record ArrivalCheckResult : Type 0 where
  pub outcome : ArrivalCheckOutcome
  pub attention : Option AttentionItem
  pub followup : Option AttentionItem

-- The tables of attention, and the trail of the events that the service appends itself.
pub record Station : Type 0 where
  pub attention : AttentionDb
  pub trail : List AuditEvent

pub record ArrivalPorts : Type 0 where
  pub actor_for : String → Option ActorContext
  pub erp : ActorContext → EvidenceQuery → List Evidence
  pub audited : Bool
  pub python : Python

abbrev pub arrival_check_task_type : String
arrival_check_task_type = "arrival_check"

abbrev pub refuse_if : {A : Type 0} → Bool → String → Result ArrivalError A → Result ArrivalError A
refuse_if true message rest = err (arrival_error message)
refuse_if false message rest = rest

-- `_validate_claimed_arrival_task`
unfoldable pub validate_claimed_arrival_task :
    ScheduledTask → Instant → Result ArrivalError (Unit {0})
validate_claimed_arrival_task task at =
    refuse_if (task.task_type != arrival_check_task_type) "scheduled task is not an arrival check" (
      refuse_if (not (is_claimed task.status) || is_null task.lease_expires_at)
        "arrival check task must hold a scheduler lease"
        (refuse_if (ltb at task.due_at) "arrival check task is not due" (
          refuse_if (expires_by task.lease_expires_at at) "arrival check task lease has expired"
            (ok tt))))

abbrev pub payload_text_of : Option Json → Result ArrivalError String
unfolding is_blank
payload_text_of (some (Json.text value)) =
    if is_blank value then err (arrival_error "arrival check task lacks payload text") else ok value
payload_text_of _ = err (arrival_error "arrival check task lacks payload text")

-- `_required_payload_text`
unfoldable pub required_payload_text : String → ScheduledTask → Result ArrivalError String
unfolding is_blank Json.get
required_payload_text name task = payload_text_of (Json.get name task.payload)

-- The caller's run must agree with that of the task.
abbrev agreed_run : String → Option String → Result ArrivalError String
agreed_run run none = ok run
agreed_run run (some given) =
    if given == run
    then ok run
    else err (arrival_error "arrival check task audit_run_id does not match the caller")

abbrev given_run : Option String → Result ArrivalError String
given_run none = err (arrival_error "arrival check task lacks audit_run_id")
given_run (some run) = ok run

-- `_effective_run_id`
unfoldable pub effective_run_id : ScheduledTask → Option String → Result ArrivalError String
unfolding is_blank Json.get
effective_run_id task run_id = elim (Json.get "audit_run_id" task.payload) [
  | none ↦ given_run run_id
  | some Json.null ↦ given_run run_id
  | some (Json.text value) ↦
      if is_blank value
      then err (arrival_error "arrival check task has an invalid audit_run_id")
      else agreed_run value run_id
  | some _ ↦ err (arrival_error "arrival check task has an invalid audit_run_id")
]

abbrev pub is_purchase_order : String → Evidence → Bool
is_purchase_order id item = item.record_type == "purchase_order" && item.record_id == id

abbrev pub only_one : List Evidence → Result ArrivalError Evidence
only_one (item ∷ []) = ok item
only_one _ = err (arrival_error "arrival check requires one current purchase-order evidence record")

-- `_current_purchase_order`
unfoldable pub current_purchase_order : List Evidence → String → Result ArrivalError Evidence
current_purchase_order evidence id = only_one (filter (is_purchase_order id) evidence)

abbrev pub compared : Option Bool → Result ArrivalError Bool
compared none = err decimal_error
compared (some b) = ok b

module _ (python : Python) where
  abbrev pub invalid_quantity : {A : Type 0} → Result ArrivalError A
  invalid_quantity = err (arrival_error "arrival check purchase order has an invalid quantity")

  abbrev nonnegative : Decimal → Result ArrivalError Decimal
  nonnegative value =
      if python.decimals.is_finite value
      then and_then (compared (python.decimals.le "0" value))
          (λ positive. if positive then ok value else invalid_quantity)
      else invalid_quantity

  abbrev parsed_quantity : Option Decimal → Result ArrivalError Decimal
  parsed_quantity none = invalid_quantity
  parsed_quantity (some value) = nonnegative value

  abbrev quantity_of : Option Json → Result ArrivalError Decimal
  quantity_of none = invalid_quantity
  quantity_of (some value) = parsed_quantity (python.decimals.of_text (str_of python value))

  -- `_required_nonnegative_decimal`
  unfoldable pub required_nonnegative_decimal : String → Evidence → Result ArrivalError Decimal
  unfolding Json.get
  required_nonnegative_decimal name purchase_order =
      quantity_of (Json.get name purchase_order.payload)

  -- `_has_full_receipt`. A quantity that is not negative is zero if it is at most zero.
  unfoldable pub has_full_receipt : Evidence → Result ArrivalError Bool
  unfolding required_nonnegative_decimal
  has_full_receipt purchase_order =
      and_then (required_nonnegative_decimal "ordered_quantity" purchase_order) (λ ordered.
        and_then (required_nonnegative_decimal "received_quantity" purchase_order) (λ received.
          and_then (compared (python.decimals.le ordered "0")) (λ zero_ordered.
            refuse_if zero_ordered "arrival check purchase order has zero ordered quantity"
              (compared (python.decimals.le ordered received)))))

module _ (ports : ArrivalPorts) where
  abbrev pub settled :
      AttentionItem
      → Station
      → Result AttentionError AttentionItem × AttentionDb
      → Result ArrivalError ArrivalCheckResult × Station
  settled original station (ok item, db) = (
    ok (record { outcome = resolved; attention = some item; followup = none }),
    record station { attention = db },
  )
  settled original station (err e, db) =
      (err (attention_error e), record station { attention = db })

  abbrev pub followed_up :
      AttentionItem
      → Station
      → Result AttentionError AttentionRegistration × AttentionDb
      → Result ArrivalError ArrivalCheckResult × Station
  followed_up original station (ok registration, db) = (
    ok (record {
      outcome = reopened;
      attention = some original;
      followup = some registration.attention;
    }),
    record station { attention = db },
  )
  followed_up original station (err e, db) =
      (err (attention_error e), record station { attention = db })

  -- The receipt decides.
  unfoldable pub check_receipt :
      String
      → String
      → AttentionItem
      → String
      → Instant
      → Result ArrivalError Evidence
      → Result ArrivalError Bool
      → Action Station ArrivalError ArrivalCheckResult
  unfolding Attention.transition Attention.register_arrival_followup
  check_receipt new_id event_id original run at (err e) receipt station = (err e, station)
  check_receipt new_id event_id original run at (ok order) (err e) station = (err e, station)
  check_receipt new_id event_id original run at (ok order) (ok true) station =
      settled original station (
        Attention.transition ports.python event_id original AttentionStatus.resolved run at
          station.attention)
  check_receipt new_id event_id original run at (ok order) (ok false) station =
      followed_up original station (
        Attention.register_arrival_followup ports.python new_id event_id original order run at
          station.attention)

  abbrev pub order_query : String → EvidenceQuery
  order_query id = record {
    record_types = "purchase_order" ∷ [];
    record_ids = id ∷ [];
    date_range = none;
  }

  abbrev pub receipt_of : Result ArrivalError Evidence → Result ArrivalError Bool
  receipt_of (err e) = err e
  receipt_of (ok order) = has_full_receipt ports.python order

  unfoldable pub check_order :
      String
      → String
      → String
      → AttentionItem
      → String
      → Instant
      → Option ActorContext
      → Action Station ArrivalError ArrivalCheckResult
  unfolding current_purchase_order check_receipt has_full_receipt
  check_order new_id event_id order_id original run at none station =
      (err identity_not_found, station)
  check_order new_id event_id order_id original run at (some actor) station =
      let order = current_purchase_order (ports.erp actor (order_query order_id)) order_id in
      check_receipt new_id event_id original run at order (receipt_of order) station

  unfoldable pub check_attention :
      String
      → String
      → String
      → String
      → String
      → Instant
      → Option AttentionItem
      → Action Station ArrivalError ArrivalCheckResult
  unfolding check_order
  check_attention new_id event_id order_id actor_id run at none station =
      (ok (record { outcome = missing_attention; attention = none; followup = none }), station)
  check_attention new_id event_id order_id actor_id run at (some original) station =
      if is_terminal original.status
      then (
        ok (record { outcome = not_actionable; attention = some original; followup = none }),
        station,
      )
      else check_order new_id event_id order_id original run at (ports.actor_for actor_id) station

  -- The validated task: its order, its item, its actor and its run.
  unfoldable pub task_binding :
      ScheduledTask
      → Instant
      → Option String
      → Result ArrivalError (String × String × String × String)
  unfolding validate_claimed_arrival_task required_payload_text effective_run_id
  task_binding task at run_id = and_then (validate_claimed_arrival_task task at) (λ _.
      and_then (required_payload_text "purchase_order_id" task) (λ order_id.
        and_then (required_payload_text "original_attention_id" task) (λ attention_id.
          and_then (required_payload_text "actor_id" task) (λ actor_id.
            and_then (effective_run_id task run_id)
              (λ run. ok (order_id, attention_id, actor_id, run))))))

  abbrev pub fired : ScheduledTask → Instant → String → String → String → Station → Station
  unfolding material_event
  fired task at attention_id actor_id run station = record station {
    trail =
        recorded ports.audited (some run)
          (λ run.
            record (material_event "schedule.fired" run at
              (field "task_type" (Json.text task.task_type) end)) {
                actor_id = some actor_id;
                attention_id = some attention_id;
                idempotency_key = some task.idempotency_key;
              }
            ∷ [])
          station.trail;
  }

  unfoldable pub check_bound :
      String
      → String
      → ScheduledTask
      → Instant
      → Result ArrivalError (String × String × String × String)
      → Action Station ArrivalError ArrivalCheckResult
  unfolding check_attention Attention.load material_event
  check_bound new_id event_id task at (err e) station = (err e, station)
  check_bound new_id event_id task at (ok (order_id, attention_id, actor_id, run)) station =
      check_attention new_id event_id order_id actor_id run at
        (Attention.load attention_id station.attention)
        (fired task at attention_id actor_id run station)

  unfoldable pub handle_claimed_task :
      String
      → String
      → ScheduledTask
      → Instant
      → Option String
      → Action Station ArrivalError ArrivalCheckResult
  unfolding task_binding check_bound
  handle_claimed_task new_id event_id task at run_id =
      check_bound new_id event_id task at (task_binding task at run_id)
