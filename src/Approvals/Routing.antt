-- ===== src/Approvals/Routing.antt =====
-- ApprovalRoutingService of src/enterprise_agent/application/approval_routing.py, on the tables of
-- the approvals and of the scheduled tasks and on the trail of audit events. The identities and the
-- calendar are parameters.
pub mod Rerouted
use Prim.Native.String.{◌++◌ as join_text}
use harmony_takehome.Prelude.{
  ℕ, zero, suc, ◌+◌, String, Bool, true, false, ◌&&◌, ◌||◌, not, any, Option, none, some, List, [],
  ◌∷◌, Result, ok, err, and_then, Action, if◌then◌else◌, ◌==◌, ◌!=◌, string_eq, nat_eq, leb, ltb,
}
use harmony_takehome.Json
use harmony_takehome.Json.{Json, Fields, end, field}
use harmony_takehome.Text.{Python, is_blank}
use harmony_takehome.Domain.{
  Instant, Plan, Approval, ApprovalStatus, ActorContext, AuditEvent, Evidence, ScheduledTask,
  ScheduledTaskStatus, Decimal, date_of, at_hour,
}
use harmony_takehome.Workflow.Sql.{is_null}
use harmony_takehome.Workflow.Tools.{in_scopes}
use harmony_takehome.Audit.{material_event, recorded}
use harmony_takehome.Scheduler
use harmony_takehome.Scheduler.{TaskDb, SchedulerError, is_claimed}
use harmony_takehome.Approvals.Store
use harmony_takehome.Approvals.Store.{Binding, ApprovalDb, is_pending}
use harmony_takehome.Approvals.Escalation.{
  EvidenceQuery, RoutingError, routing_error, scheduler_error, identity_not_found, decimal_error,
  ApprovalRoutingOutcome, rerouted, not_pending, expired, stale_task, missing_approval, no_backup,
  backup_not_authorized, original_approver_available, race_lost, ApprovalRoutingResult,
  escalation_task_type, escalation_task, required_payload_text, audit_run_id, refuse_if, expires_by,
  validate_claimed_escalation, text_of, limit_for, compared, within_limit, currency_within,
  can_decide, is_out_of_office, stale_binding,
}

pub record Office : Type 0 where
  pub approvals : ApprovalDb
  pub tasks : TaskDb
  pub trail : List AuditEvent

pub record RoutingPorts : Type 0 where
  pub actor_for : String → Option ActorContext
  pub calendar : ActorContext → EvidenceQuery → List Evidence
  pub audited : Bool
  pub python : Python

module _ (ports : RoutingPorts) where
  abbrev pub scheduled :
      Approval
      → Option String
      → Office
      → ScheduledTask
      → Result SchedulerError (Unit {0}) × TaskDb
      → Result RoutingError ScheduledTask × Office
  scheduled approval run_id office task (err e, tasks) =
      (err (scheduler_error e), record office { tasks = tasks })
  scheduled approval run_id office task (ok _, tasks) = (
    ok task,
    record office {
      tasks = tasks;
      trail =
          recorded ports.audited run_id
            (λ run.
              record (material_event "schedule.created" run (approval.requested_at + 6) (
                field "task_type" (Json.text task.task_type)
                  (field "due_at" (Json.text (ports.python.isoformat task.due_at)) end))) {
                    actor_id = some approval.requester_id;
                    plan_id = some approval.plan_id;
                    idempotency_key = some task.idempotency_key;
                    plan_hash = some approval.plan_hash;
                  }
              ∷ [])
            office.trail;
    },
  )

  unfoldable pub schedule_escalation :
      Approval → Option String → Action Office RoutingError ScheduledTask
  unfolding escalation_task material_event Scheduler.schedule
  schedule_escalation approval run_id office =
      let task = escalation_task ports.python approval run_id in
      if is_pending approval.status
      then scheduled approval run_id office task (Scheduler.schedule task office.tasks)
      else (err (routing_error "only a pending approval may receive an escalation task"), office)

  abbrev stays :
      ApprovalRoutingOutcome → Office → Result RoutingError ApprovalRoutingResult × Office
  stays outcome office = (ok (record { outcome = outcome; approval = none }), office)

  -- The compare-and-swap, and its event.
  abbrev pub swapped :
      Plan
      → String
      → Option String
      → Instant
      → Office
      → Option Approval × ApprovalDb
      → Result RoutingError ApprovalRoutingResult × Office
  swapped plan backup run at office (none, db) = stays race_lost (record office { approvals = db })
  swapped plan backup run at office (some approval, db) = (
    ok (record { outcome = rerouted; approval = some approval }),
    record office {
      approvals = db;
      trail =
          recorded ports.audited run
            (λ run.
              record (material_event "approval.rerouted" run (at + 1)
                (field "approver_id" (Json.text backup) end)) {
                  actor_id = some backup;
                  plan_id = some plan.plan_id;
                  plan_hash = some plan.plan_hash;
                }
              ∷ [])
            office.trail;
    },
  )

  abbrev day_query : ℕ → EvidenceQuery
  day_query day = record {
    record_types = "calendar_event" ∷ [];
    record_ids = [];
    date_range = some (day, day);
  }

  -- The backup may decide: reroute, if the calendar shows the original approver away on the next day.
  unfoldable pub route_to :
      ScheduledTask
      → Plan
      → String
      → String
      → String
      → Option String
      → Instant
      → ActorContext
      → String
      → Result RoutingError Bool
      → Action Office RoutingError ApprovalRoutingResult
  unfolding is_out_of_office Store.reroute material_event
  route_to task plan id hash original_id run at original backup (err e) office = (err e, office)
  route_to task plan id hash original_id run at original backup (ok false) office =
      stays backup_not_authorized office
  route_to task plan id hash original_id run at original backup (ok true) office =
      if any (is_out_of_office (date_of task.due_at + 1))
        (ports.calendar original (day_query (date_of task.due_at + 1)))
      then swapped plan backup run at office
          (Store.reroute id hash original_id backup at office.approvals)
      else stays original_approver_available office

  abbrev pub route_actor :
      ScheduledTask
      → Plan
      → String
      → String
      → String
      → Option String
      → Instant
      → ActorContext
      → String
      → Option ActorContext
      → Action Office RoutingError ApprovalRoutingResult
  route_actor task plan id hash original_id run at original backup none office =
      (err identity_not_found, office)
  route_actor task plan id hash original_id run at original backup (some actor) office =
      route_to task plan id hash original_id run at original backup
        (can_decide ports.python actor plan) office

  abbrev pub route_backup :
      ScheduledTask
      → Plan
      → String
      → String
      → String
      → Option String
      → Instant
      → ActorContext
      → Option String
      → Action Office RoutingError ApprovalRoutingResult
  route_backup task plan id hash original_id run at original none office = stays no_backup office
  route_backup task plan id hash original_id run at original (some backup) office =
      route_actor task plan id hash original_id run at original backup (ports.actor_for backup)
        office

  unfoldable pub route_from :
      ScheduledTask
      → Plan
      → String
      → String
      → String
      → Option String
      → Instant
      → Option ActorContext
      → Action Office RoutingError ApprovalRoutingResult
  unfolding route_to can_decide
  route_from task plan id hash original_id run at none office = (err identity_not_found, office)
  route_from task plan id hash original_id run at (some original) office =
      route_backup task plan id hash original_id run at original original.backup_approver_id office

  unfoldable pub route_found :
      ScheduledTask
      → String
      → String
      → String
      → Option String
      → Instant
      → Option Binding
      → Action Office RoutingError ApprovalRoutingResult
  unfolding route_from
  route_found task id original_id hash run at none office = stays missing_approval office
  route_found task id original_id hash run at (some (plan, approval)) office =
      if not (is_pending approval.status)
      then stays not_pending office
      else if stale_binding hash original_id plan approval
      then stays stale_task office
      else if leb approval.expires_at at || leb plan.expires_at at
      then stays expired office
      else route_from task plan id hash original_id run at (ports.actor_for original_id) office

  -- The three texts of the payload and the run, once the task has been validated.
  unfoldable pub task_binding :
      ScheduledTask → Instant → Result RoutingError (String × String × String × Option String)
  unfolding validate_claimed_escalation required_payload_text audit_run_id
  task_binding task at = and_then (validate_claimed_escalation task at) (λ _.
      and_then (required_payload_text "approval_id" task) (λ id.
        and_then (required_payload_text "original_approver_id" task) (λ original_id.
          and_then (required_payload_text "plan_hash" task)
            (λ hash. and_then (audit_run_id task) (λ run. ok (id, original_id, hash, run))))))

  abbrev pub fired : ScheduledTask → Instant → String → String → Option String → Office → Office
  unfolding material_event
  fired task at original_id hash run office = record office {
    trail =
        recorded ports.audited run
          (λ run.
            record (material_event "schedule.fired" run at
              (field "task_type" (Json.text task.task_type) end)) {
                actor_id = some original_id;
                idempotency_key = some task.idempotency_key;
                plan_hash = some hash;
              }
            ∷ [])
          office.trail;
  }

  unfoldable pub route_bound :
      ScheduledTask
      → Instant
      → Result RoutingError (String × String × String × Option String)
      → Action Office RoutingError ApprovalRoutingResult
  unfolding route_found Store.load material_event
  route_bound task at (err e) office = (err e, office)
  route_bound task at (ok (id, original_id, hash, run)) office =
      route_found task id original_id hash run at (Store.load id office.approvals)
        (fired task at original_id hash run office)

  unfoldable pub handle_claimed_task :
      ScheduledTask → Instant → Action Office RoutingError ApprovalRoutingResult
  unfolding task_binding route_bound
  handle_claimed_task task at = route_bound task at (task_binding task at)
