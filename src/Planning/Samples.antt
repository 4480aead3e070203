-- ===== src/Planning/Samples.antt =====
-- A context in which one supplier is a viable alternate, and a proposal for it.
use harmony_takehome.Prelude.{String, true, [], ◌∷◌, some, none, if◌then◌else◌, ◌==◌, string_eq}
use harmony_takehome.Json.{Json, Fields, end, field}
use harmony_takehome.Text.{Python}
use harmony_takehome.Domain.{ActorContext, AttentionItem, Evidence, Versions}
use harmony_takehome.Domain.Attention.{open_item}
use harmony_takehome.Workflow.Samples.{python, planner}
use harmony_takehome.Planning.Context.{AuthorizedContextBundle, EnterWorkflowRecommendation}

-- Decimals of which only zero is at most zero.
abbrev pub with_zero : Python
with_zero = record python {
  decimals = record python.decimals { le = λ a b. some (if b == "0" then a == "0" else true) };
}

abbrev fact : String → String → Fields → Evidence
fact id record_type payload = record {
  evidence_id = id;
  source = "erp";
  record_type = record_type;
  record_id = id;
  source_version = 1;
  observed_at = 3;
  payload = payload;
}

abbrev buyer : ActorContext
buyer = record planner {
  scopes = "erp:read" ∷ "mail:read" ∷ "calendar:read" ∷ "erp:po:reroute" ∷ [];
}

abbrev pub alternate : Evidence
alternate = fact "alternate" "supplier" (
    field "approved" (Json.bool true) (
      field "part_id" (Json.text "part") (
        field "plant_id" (Json.text "plant") (
          field "lead_time_days" (Json.num 2)
            (field "unit_price" (Json.text "5") (field "currency" (Json.text "EUR") end))))))

abbrev item : AttentionItem
item = record {
  attention_id = "attention";
  scenario = "scenario_a";
  cause = "projected_stockout";
  dedupe_key = "key";
  status = open_item;
  created_at = 1;
  source_versions = [];
  resolved_at = none;
}

abbrev pub context : AuthorizedContextBundle
context = record {
  actor = buyer;
  attention = item;
  trigger = record {
    detector = "stockout";
    part_id = "part";
    production_order_id = "production";
    inventory_version = 1;
    production_start_date = 20;
    detected_at = 5;
    source_versions = ("inventory", 1) ∷ [];
  };
  inventory = fact "inventory" "inventory" end;
  production_order = fact "production" "production_order" end;
  original_purchase_order = fact "order" "purchase_order" (
      field "supplier_id" (Json.text "original") (
        field "status" (Json.text "open") (
          field "ordered_quantity" (Json.text "10")
            (field "received_quantity" (Json.text "0") end))));
  suppliers = alternate ∷ [];
  shipment_update = fact "mail" "mail" end;
  calendar_events = [];
}

abbrev pub current : Versions
current = ("inventory", 1) ∷ ("production", 1) ∷ ("order", 1) ∷ ("alternate", 1) ∷ ("mail", 1) ∷ []

abbrev pub proposal : EnterWorkflowRecommendation
proposal = record {
  workflow_name = "po_reroute";
  workflow_version = 1;
  supplier_id = "alternate";
  quantity = "10";
  original_purchase_order_id = "order";
  production_order_id = "production";
  rationale = "late";
}
