-- ===== src/ArrivalCheck/Tests.antt =====
-- The theorem on an order that has been received.
use harmony_takehome.Prelude.{refl, true, [], ◌∷◌, some, none, if◌then◌else◌, ◌==◌, string_eq}
use harmony_takehome.Json.{Json, end, field}
use harmony_takehome.Text.{Python}
use harmony_takehome.Domain.{AttentionItem, Evidence, ScheduledTask, ScheduledTaskStatus}
use harmony_takehome.Domain.Attention.{AttentionStatus}
use harmony_takehome.Attention.{moved, open_attention}
use harmony_takehome.Workflow.Samples.{python, planner}
use harmony_takehome.ArrivalCheck.{
  ArrivalPorts, ArrivalCheckResult, resolved, Station, handle_claimed_task,
}
use harmony_takehome.ArrivalCheck.Resolution.{handle_claimed_task-resolved, IsReceived}

-- Decimals of which only zero is at most zero.
abbrev with_zero : Python
with_zero = record python {
  decimals = record python.decimals { le = λ a b. some (if b == "0" then a == "0" else true) };
}

abbrev order : Evidence
order = record {
  evidence_id = "purchase_order:order";
  source = "erp";
  record_type = "purchase_order";
  record_id = "order";
  source_version = 2;
  observed_at = 8;
  payload =
      field "ordered_quantity" (Json.text "10") (field "received_quantity" (Json.text "10") end);
}

abbrev ports : ArrivalPorts
ports = record {
  actor_for = λ id. some planner;
  erp = λ actor query. order ∷ [];
  audited = true;
  python = with_zero;
}

abbrev item : AttentionItem
item = open_attention "attention" "scenario_a" "projected_stockout" "key" [] 1

abbrev station : Station
station = record { attention = record { items = item ∷ []; ledger = [] }; trail = [] }

abbrev task : ScheduledTask
task = record {
  task_id = "task";
  task_type = "arrival_check";
  due_at = 7;
  status = ScheduledTaskStatus.claimed;
  idempotency_key = "key";
  payload = field "purchase_order_id" (Json.text "order") (
      field "original_attention_id" (Json.text "attention")
        (field "actor_id" (Json.text "planner") end));
  attempt_count = 1;
  lease_expires_at = some 20;
  completed_at = none;
}

abbrev checked : Station
checked = (handle_claimed_task ports "new" "event" task 9 (some "run") station).1

abbrev answer : ArrivalCheckResult
answer = record {
  outcome = resolved;
  attention = some (moved AttentionStatus.resolved 9 item);
  followup = none;
}

handle_claimed_task-resolved_example :
    (before : AttentionItem) × IsReceived ports "new" "event" task 9 station checked answer before
unfolding handle_claimed_task
handle_claimed_task-resolved_example =
    handle_claimed_task-resolved ports "new" "event" task 9 (some "run") station checked answer refl
      refl
