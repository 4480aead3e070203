-- ===== src/Approvals/Escalation.antt =====
-- The checks of src/enterprise_agent/application/approval_routing.py: the task of an escalation, its
-- validation, and the policy on the backup and on the calendar. All instants have the one timezone,
-- so no timestamp is refused.
use Prim.Native.String.{◌++◌ as join_text}
use harmony_takehome.Prelude.{
  ℕ, String, Bool, true, false, ◌&&◌, ◌||◌, not, Option, none, some, List, [], ◌∷◌, Result, ok, err,
  and_then, if◌then◌else◌, ◌==◌, ◌!=◌, string_eq, nat_eq, leb, ltb,
}
use harmony_takehome.Json
use harmony_takehome.Json.{Json, Fields, end, field}
use harmony_takehome.Text.{Python, is_blank, str_of}
use harmony_takehome.Domain.{
  Instant, Plan, Approval, ActorContext, Evidence, ScheduledTask, ScheduledTaskStatus, Decimal,
  date_of, at_hour,
}
use harmony_takehome.Workflow.Sql.{is_null}
use harmony_takehome.Workflow.Tools.{in_scopes}
use harmony_takehome.Scheduler.{SchedulerError, is_claimed}

pub record EvidenceQuery : Type 0 where
  pub record_types : List String
  pub record_ids : List String
  pub date_range : Option (ℕ × ℕ)

pub data RoutingError : Type 0 where
  routing_error : String → RoutingError
  scheduler_error : SchedulerError → RoutingError
  identity_not_found decimal_error : RoutingError

pub data ApprovalRoutingOutcome : Type 0 where
  rerouted not_pending expired stale_task missing_approval no_backup : ApprovalRoutingOutcome
  backup_not_authorized original_approver_available race_lost : ApprovalRoutingOutcome

pub record ApprovalRoutingResult : Type 0 where
  pub outcome : ApprovalRoutingOutcome
  pub approval : Option Approval

abbrev pub escalation_task_type : String
escalation_task_type = "approval_escalation"

abbrev pub run_field : Option String → Fields
run_field none = end
run_field (some run) = field "audit_run_id" (Json.text run) end

-- The task that `schedule_escalation` persists: at 17:00 on the day of the request.
unfoldable pub escalation_task : Python → Approval → Option String → ScheduledTask
unfolding date_of at_hour
escalation_task python approval run_id =
    let key = join_text "approval-escalation:v1:" approval.approval_id in
    record {
      task_id = python.uuid5 key;
      task_type = escalation_task_type;
      due_at = at_hour (date_of approval.requested_at) 17;
      status = ScheduledTaskStatus.pending;
      idempotency_key = key;
      payload = field "approval_id" (Json.text approval.approval_id) (
          field "original_approver_id" (Json.text approval.approver_id)
            (field "plan_hash" (Json.text approval.plan_hash) (run_field run_id)));
      attempt_count = 0;
      lease_expires_at = none;
      completed_at = none;
    }

abbrev pub payload_text_of : Option Json → Result RoutingError String
unfolding is_blank
payload_text_of (some (Json.text value)) =
    if is_blank value
    then err (routing_error "approval escalation task lacks payload text")
    else ok value
payload_text_of _ = err (routing_error "approval escalation task lacks payload text")

-- `_required_payload_text`
unfoldable pub required_payload_text : String → ScheduledTask → Result RoutingError String
unfolding is_blank Json.get
required_payload_text name task = payload_text_of (Json.get name task.payload)

-- `_audit_run_id`
unfoldable pub audit_run_id : ScheduledTask → Result RoutingError (Option String)
unfolding is_blank Json.get
audit_run_id task = elim (Json.get "audit_run_id" task.payload) [
  | none ↦ ok none
  | some Json.null ↦ ok none
  | some (Json.text value) ↦
      if is_blank value
      then err (routing_error "approval escalation task has an invalid audit_run_id")
      else ok (some value)
  | some _ ↦ err (routing_error "approval escalation task has an invalid audit_run_id")
]

abbrev pub refuse_if : {A : Type 0} → Bool → String → Result RoutingError A → Result RoutingError A
refuse_if true message rest = err (routing_error message)
refuse_if false message rest = rest

abbrev pub expires_by : Option Instant → Instant → Bool
expires_by none at = false
expires_by (some lease) at = leb lease at

-- `_validate_claimed_escalation`
unfoldable pub validate_claimed_escalation :
    ScheduledTask → Instant → Result RoutingError (Unit {0})
validate_claimed_escalation task at =
    refuse_if (task.task_type != escalation_task_type)
      "scheduled task is not an approval escalation"
      (refuse_if (not (is_claimed task.status) || is_null task.lease_expires_at)
        "approval escalation task must hold a scheduler lease"
        (refuse_if (ltb at task.due_at) "approval escalation task is not due" (
          refuse_if (expires_by task.lease_expires_at at)
            "approval escalation task lease has expired" (ok tt))))

-- `str(value)` for a value of a mapping, or for None where the key is missing
abbrev pub text_of : Python → Option Json → String
text_of python none = "None"
text_of python (some value) = str_of python value

abbrev pub limit_for : String → List (String × Decimal) → Option Decimal
limit_for currency [] = none
limit_for currency ((name, limit) ∷ rest) =
    let found = limit_for currency rest in if name == currency then some limit else found

-- A comparison of decimals raises an InvalidOperation for a NaN.
abbrev pub compared : Option Bool → Result RoutingError Bool
compared none = err decimal_error
compared (some b) = ok b

-- `Decimal(0) <= amount <= limit`
abbrev pub within_limit : Python → Decimal → Option Decimal → Result RoutingError Bool
within_limit python amount none = ok false
within_limit python amount (some limit) =
    and_then (compared (python.decimals.le "0" amount))
      (λ positive. if positive then compared (python.decimals.le amount limit) else ok false)

abbrev pub amount_within :
    Python → ActorContext → String → Option Decimal → Result RoutingError Bool
amount_within python actor currency none = ok false
amount_within python actor currency (some amount) =
    within_limit python amount (limit_for (python.upper currency) actor.approval_limits)

abbrev pub currency_within : Python → ActorContext → Plan → Option Json → Result RoutingError Bool
unfolding Json.get
currency_within python actor plan (some (Json.text currency)) =
    amount_within python actor currency
      (python.decimals.of_text (text_of python (Json.get "estimated_value_amount" plan.parameters)))
currency_within python actor plan _ = ok false

-- `_can_decide`
unfoldable pub can_decide : Python → ActorContext → Plan → Result RoutingError Bool
unfolding Json.get
can_decide python actor plan =
    if in_scopes actor.scopes "approval:decide"
    then currency_within python actor plan (Json.get "estimated_value_currency" plan.parameters)
    else ok false

abbrev pub is_text : String → Option Json → Bool
is_text value (some (Json.text t)) = t == value
is_text value _ = false

abbrev pub end_date : Evidence → Option Json → ℕ
unfolding date_of
end_date event (some (Json.moment ends_at)) = date_of ends_at
end_date event _ = date_of event.observed_at

-- `_is_out_of_office`
unfoldable pub is_out_of_office : ℕ → Evidence → Bool
unfolding date_of Json.get
is_out_of_office day event =
    event.record_type == "calendar_event"
    && is_text "out_of_office" (Json.get "event_type" event.payload)
    && leb (date_of event.observed_at) day
    && leb day (end_date event (Json.get "ends_at" event.payload))

abbrev pub stale_binding : String → String → Plan → Approval → Bool
stale_binding hash original_id plan approval =
    approval.plan_hash != hash
    || plan.plan_hash != hash
    || approval.approver_id != original_id
    || plan.approver_id != original_id
