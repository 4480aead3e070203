-- ===== src/Workflow/Declarations.antt =====
-- src/enterprise_agent/application/workflows.py: the reviewed workflow declarations.
use harmony_takehome.Prelude.{
  ℕ, String, ◌&&◌, Option, none, some, List, [], ◌∷◌, find, ◌==◌, string_eq, nat_eq, if◌then◌else◌,
}
use harmony_takehome.Workflow.Tools.{ToolName}

pub data WorkflowStepName : Type 0 where
  confirm_alternate_supplier_approved confirm_alternate_lead_time : WorkflowStepName
  create_replacement_po reduce_or_cancel_original_po : WorkflowStepName
  place_purchase_order_hold notify_production schedule_arrival_check : WorkflowStepName
  reallocate_lot flag_shortage_to_purchasing : WorkflowStepName

-- `WorkflowStepName.value`
unfoldable pub step_value : WorkflowStepName → String
step_value WorkflowStepName.confirm_alternate_supplier_approved =
    "confirm_alternate_supplier_approved"
step_value WorkflowStepName.confirm_alternate_lead_time = "confirm_alternate_lead_time"
step_value WorkflowStepName.create_replacement_po = "create_replacement_po"
step_value WorkflowStepName.reduce_or_cancel_original_po = "reduce_or_cancel_original_po"
step_value WorkflowStepName.place_purchase_order_hold = "place_purchase_order_hold"
step_value WorkflowStepName.notify_production = "notify_production"
step_value WorkflowStepName.schedule_arrival_check = "schedule_arrival_check"
step_value WorkflowStepName.reallocate_lot = "reallocate_lot"
step_value WorkflowStepName.flag_shortage_to_purchasing = "flag_shortage_to_purchasing"

abbrev pub all_step_names : List WorkflowStepName
all_step_names =
    WorkflowStepName.confirm_alternate_supplier_approved
    ∷ WorkflowStepName.confirm_alternate_lead_time ∷ WorkflowStepName.create_replacement_po
    ∷ WorkflowStepName.reduce_or_cancel_original_po ∷ WorkflowStepName.place_purchase_order_hold
    ∷ WorkflowStepName.notify_production ∷ WorkflowStepName.schedule_arrival_check
    ∷ WorkflowStepName.reallocate_lot ∷ WorkflowStepName.flag_shortage_to_purchasing ∷ []

-- `WorkflowStepName(raw)`: nothing stands for its ValueError.
unfoldable pub step_named : String → Option WorkflowStepName
unfolding step_value
step_named raw = find (λ name. step_value name == raw) all_step_names

pub record WorkflowStepDefinition : Type 0 where
  pub index : ℕ
  pub name : WorkflowStepName
  pub tool_name : Option ToolName

pub record WorkflowDefinition : Type 0 where
  pub name : String
  pub version : ℕ
  pub steps : List WorkflowStepDefinition

unfoldable pub po_reroute_v1 : WorkflowDefinition
po_reroute_v1 = record {
  name = "po_reroute";
  version = 1;
  steps =
      record {
        index = 1;
        name = WorkflowStepName.confirm_alternate_supplier_approved;
        tool_name = none;
      }
      ∷ record { index = 2; name = WorkflowStepName.confirm_alternate_lead_time; tool_name = none }
      ∷ record {
        index = 3;
        name = WorkflowStepName.create_replacement_po;
        tool_name = some ToolName.create_replacement_po;
      }
      ∷ record {
        index = 4;
        name = WorkflowStepName.reduce_or_cancel_original_po;
        tool_name = some ToolName.reduce_or_cancel_po;
      }
      ∷ record {
        index = 5;
        name = WorkflowStepName.notify_production;
        tool_name = some ToolName.notify_production;
      }
      ∷ record {
        index = 6;
        name = WorkflowStepName.schedule_arrival_check;
        tool_name = some ToolName.schedule_arrival_check;
      }
      ∷ [];
}

-- `declared_workflow`: nothing stands for WorkflowNotDeclaredError.
unfoldable pub declared_workflow : String → ℕ → Option WorkflowDefinition
unfolding po_reroute_v1
declared_workflow name version =
    if name == "po_reroute" && version == 1 then some po_reroute_v1 else none
