-- ===== src/Workflow/Executor/Inputs.antt =====
-- The typed input that a declared step hands to its tool: `_tool_input_for_step` and its helpers.
pub mod Tuesday
use harmony_takehome.Prelude.{
  ℕ, ◌+◌, ◌-◌, ◌*◌, ◌%◌, String, Option, none, some, [], ◌∷◌, get_elem?, ok, err, and_then, ◌==◌,
  string_eq, nat_eq, if◌then◌else◌,
}
use harmony_takehome.Json
use harmony_takehome.Json.{Json, Fields, end, field, text}
use harmony_takehome.Text.{join, is_blank}
use harmony_takehome.Domain.{
  Instant, day, weekday, date_of, at_hour, WorkflowStateSnapshot, step_is_succeeded,
}
use harmony_takehome.Workflow.Tools.{ToolName, ToolInput}
use harmony_takehome.Workflow.Declarations.{WorkflowStepDefinition}
use harmony_takehome.Workflow.BoundedPlan.{bounded_tool_plan_name}
use harmony_takehome.Workflow.Executor.Machine.{
  rejected, invalid_input, index_error, Ports, Check, or_error,
}

-- `(1 - now.weekday()) % 7`: a weekday is at most 6, so 7 may be added before the subtraction.
unfoldable pub days_until_tuesday : Instant → ℕ
unfolding weekday
days_until_tuesday now = let days = (8 - weekday now) % 7 in if days == 0 then 7 else days

-- `_next_tuesday_at_nine`
unfoldable pub next_tuesday_at_nine : Instant → Instant
unfolding days_until_tuesday at_hour date_of
next_tuesday_at_nine now = at_hour (date_of (now + days_until_tuesday now * day)) 9

-- `_required_parameter`
unfoldable pub required_parameter : Fields → String → Check Json
unfolding Json.get
required_parameter parameters name =
    or_error (Json.get name parameters) (rejected "workflow stored tool parameters are invalid")

abbrev pub missing_replacement : Check String
missing_replacement = err (rejected "workflow replacement purchase order result is unavailable")

abbrev pub replacement_text : Option Json → Check String
replacement_text (some (Json.text value)) = if is_blank value then missing_replacement else ok value
replacement_text _ = missing_replacement

abbrev pub replacement_of : Option Fields → Check String
replacement_of none = missing_replacement
replacement_of (some result) = replacement_text (Json.get "replacement_purchase_order_id" result)

-- `_completed_replacement_purchase_order_id`
unfoldable pub completed_replacement : WorkflowStateSnapshot → Check String
unfolding is_blank Json.get
completed_replacement snapshot =
    and_then (or_error (get_elem? snapshot.steps 2) index_error) (λ step.
      if step_is_succeeded step.status then replacement_of step.result else missing_replacement)

module _ {E : Type 0} (ports : Ports E) where
  -- The text of a parameter inside an f-string.
  abbrev pub shown : Json → String
  shown (Json.text value) = value
  shown value = ports.python.str_json value

  -- `Model.model_validate(...)`; a ValidationError passes through.
  abbrev pub validated : ToolName → Fields → Check ToolInput
  validated tool fields =
      and_then (or_error (ports.validate tool fields) invalid_input)
        (λ dump. ok (record { model = tool; dump = dump }))

  abbrev pub create_replacement_input : Fields → Check ToolInput
  create_replacement_input parameters =
      and_then (required_parameter parameters "original_purchase_order_id") (λ original.
        and_then (required_parameter parameters "supplier_id") (λ supplier.
          and_then (required_parameter parameters "production_order_id") (λ production.
            and_then (required_parameter parameters "quantity") (λ quantity.
              validated ToolName.create_replacement_po (
                field "original_purchase_order_id" original (
                  field "supplier_id" supplier
                    (field "production_order_id" production (field "quantity" quantity end))))))))

  abbrev pub reduce_input : Fields → Check ToolInput
  reduce_input parameters =
      and_then (required_parameter parameters "original_purchase_order_id") (λ original.
        and_then (required_parameter parameters "quantity") (λ quantity.
          validated ToolName.reduce_or_cancel_po
            (field "original_purchase_order_id" original (field "quantity" quantity end))))

  abbrev pub notify_input : Fields → String → Check ToolInput
  notify_input parameters replacement =
      and_then (required_parameter parameters "original_purchase_order_id") (λ original.
        and_then (required_parameter parameters "production_order_id") (λ production.
          validated ToolName.notify_production (
            field "production_order_id" production (
              field "message"
                (text (
                  join (
                    "Replacement purchase order "
                    ∷ replacement
                    ∷ " was created; original purchase order "
                    ∷ shown original
                    ∷ " was reduced or cancelled."
                    ∷ [])))
                end))))

  abbrev pub arrival_input : String → Instant → Check ToolInput
  arrival_input replacement started_at = validated ToolName.schedule_arrival_check (
      field "purchase_order_id" (text replacement)
        (field "due_at" (text (ports.python.isoformat (next_tuesday_at_nine started_at))) end))

  abbrev pub unsupported : Check ToolInput
  unsupported = err (rejected "workflow references an unsupported external tool")

  -- The branches on `step.tool_name` of a static workflow.
  unfoldable pub static_input :
      Option ToolName → Fields → WorkflowStateSnapshot → Instant → Check ToolInput
  unfolding required_parameter completed_replacement next_tuesday_at_nine join
  static_input (some ToolName.create_replacement_po) parameters snapshot started_at =
      create_replacement_input parameters
  static_input (some ToolName.reduce_or_cancel_po) parameters snapshot started_at =
      reduce_input parameters
  static_input (some ToolName.notify_production) parameters snapshot started_at =
      and_then (completed_replacement snapshot) (notify_input parameters)
  static_input (some ToolName.schedule_arrival_check) parameters snapshot started_at =
      and_then (completed_replacement snapshot)
        (λ replacement. arrival_input replacement started_at)
  static_input _ parameters snapshot started_at =
      and_then (completed_replacement snapshot) (λ replacement. unsupported)

  abbrev pub invalid_parameters : Check ToolInput
  invalid_parameters = err (rejected "workflow stored tool parameters are invalid")

  abbrev pub bounded_input : Option ToolName → Option Json → Check ToolInput
  bounded_input (some tool) (some (Json.object raw)) = elim (ports.validate tool raw) [
    | none ↦ invalid_parameters
    | some dump ↦ ok (record { model = tool; dump = dump })
  ]
  bounded_input _ _ = invalid_parameters

  abbrev pub parameters_input :
      Option ToolName → Option Json → WorkflowStateSnapshot → Instant → Check ToolInput
  parameters_input tool (some (Json.object parameters)) snapshot started_at =
      static_input tool parameters snapshot started_at
  parameters_input tool _ snapshot started_at = invalid_parameters

  -- `_tool_input_for_step`; a declared index is at least 1.
  unfoldable pub tool_input_for_step :
      WorkflowStateSnapshot → WorkflowStepDefinition → Instant → Check ToolInput
  unfolding static_input Json.get
  tool_input_for_step snapshot declared started_at =
      and_then (or_error (get_elem? snapshot.steps (declared.index - 1)) index_error) (λ step.
        if snapshot.workflow.definition_name == bounded_tool_plan_name
        then bounded_input declared.tool_name (Json.get "tool_input" step.input)
        else parameters_input declared.tool_name (Json.get "plan_parameters" step.input) snapshot
            started_at)
