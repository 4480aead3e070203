-- ===== src/Workflow/Tools.antt =====
-- src/enterprise_agent/application/tools.py: the closed catalogue of effectful tools.
use harmony_takehome.Prelude.{
  ℕ, zero, suc, String, ◌≡◌, refl, Bool, Option, some, List, [], ◌∷◌, any, all, find, Result, ok,
  err, ◌==◌, string_eq, if◌then◌else◌,
}
use harmony_takehome.Json.{Fields}
use harmony_takehome.Text.{Python, join, is_blank, first_chars}
use harmony_takehome.Domain.{ActorContext}

pub data ToolName : Type 0 where
  create_replacement_po reduce_or_cancel_po place_purchase_order_hold : ToolName
  notify_production schedule_arrival_check reallocate_lot flag_shortage_to_purchasing : ToolName

-- `ToolName.value`
unfoldable pub tool_value : ToolName → String
tool_value create_replacement_po = "create_replacement_po"
tool_value reduce_or_cancel_po = "reduce_or_cancel_po"
tool_value place_purchase_order_hold = "place_purchase_order_hold"
tool_value notify_production = "notify_production"
tool_value schedule_arrival_check = "schedule_arrival_check"
tool_value reallocate_lot = "reallocate_lot"
tool_value flag_shortage_to_purchasing = "flag_shortage_to_purchasing"

abbrev pub all_tools : List ToolName
all_tools =
    create_replacement_po ∷ reduce_or_cancel_po ∷ place_purchase_order_hold ∷ notify_production
    ∷ schedule_arrival_check ∷ reallocate_lot ∷ flag_shortage_to_purchasing ∷ []

-- `ToolName(raw)`: nothing stands for its ValueError.
unfoldable pub tool_named : String → Option ToolName
unfolding tool_value
tool_named raw = find (λ tool. tool_value tool == raw) all_tools

pub data CompensationAction : Type 0 where
  cancel_created_replacement_po restore_original_purchase_order : CompensationAction
  restore_held_purchase_order send_correction_notification : CompensationAction
  cancel_arrival_check restore_prior_allocation : CompensationAction

unfoldable pub action_value : CompensationAction → String
action_value cancel_created_replacement_po = "cancel_created_replacement_po"
action_value restore_original_purchase_order = "restore_original_purchase_order"
action_value restore_held_purchase_order = "restore_held_purchase_order"
action_value send_correction_notification = "send_correction_notification"
action_value cancel_arrival_check = "cancel_arrival_check"
action_value restore_prior_allocation = "restore_prior_allocation"

-- `_TOOL_CATALOG`, by its two columns. Each tool has an input model of its own, so a validated
-- input is named by its tool.
unfoldable pub required_scopes : ToolName → List String
required_scopes create_replacement_po = "erp:po:create" ∷ []
required_scopes reduce_or_cancel_po = "erp:po:cancel" ∷ []
required_scopes place_purchase_order_hold = "erp:po:hold" ∷ []
required_scopes notify_production = "production:notify" ∷ []
required_scopes schedule_arrival_check = "scheduler:write" ∷ []
required_scopes reallocate_lot = "erp:lot:write" ∷ []
required_scopes flag_shortage_to_purchasing = "production:notify" ∷ []

unfoldable pub compensation_of : ToolName → CompensationAction
compensation_of create_replacement_po = cancel_created_replacement_po
compensation_of reduce_or_cancel_po = restore_original_purchase_order
compensation_of place_purchase_order_hold = restore_held_purchase_order
compensation_of notify_production = send_correction_notification
compensation_of schedule_arrival_check = cancel_arrival_check
compensation_of reallocate_lot = restore_prior_allocation
compensation_of flag_shortage_to_purchasing = send_correction_notification

-- `scope in scopes`
abbrev pub in_scopes : List String → String → Bool
in_scopes scopes scope = any (λ own. own == scope) scopes

-- `authorize_tool`: whether it returns rather than raise a ToolAuthorizationError
unfoldable pub authorized : ActorContext → ToolName → Bool
unfolding required_scopes
authorized actor tool = all (in_scopes actor.scopes) (required_scopes tool)

-- A validated input: the tool whose model it has, and its `model_dump(mode="json")`.
pub record ToolInput : Type 0 where
  pub model : ToolName
  pub dump : Fields

-- pydantic's `model_validate` for the input model of a tool: nothing stands for a ValidationError.
abbrev pub Validator : Type 0
Validator = ToolName → Fields → Option Fields

module _ (python : Python) where
  open python use {dumps, sha256_hex, str_int}

  -- The tool and its input's model agree by the type of `ToolInput`.
  unfoldable pub build_tool_idempotency_key : String → ℕ → ToolInput → Result String String
  unfolding join tool_value first_chars
  build_tool_idempotency_key workflow_id zero input = err "step index must be positive"
  build_tool_idempotency_key workflow_id (suc before) input = ok (
      join (
        "tool:v1:"
        ∷ workflow_id
        ∷ ":"
        ∷ str_int (suc before)
        ∷ ":"
        ∷ tool_value input.model
        ∷ ":"
        ∷ first_chars 24 (sha256_hex (dumps input.dump))
        ∷ []))

  unfoldable pub build_compensation_idempotency_key :
      String → ℕ → CompensationAction → String → Result String String
  unfolding join action_value is_blank first_chars
  build_compensation_idempotency_key workflow_id zero action original =
      err "compensation requires a positive step and original idempotency key"
  build_compensation_idempotency_key workflow_id (suc before) action original =
      if is_blank original
      then err "compensation requires a positive step and original idempotency key"
      else ok (
          join (
            "compensation:v1:"
            ∷ workflow_id
            ∷ ":"
            ∷ str_int (suc before)
            ∷ ":"
            ∷ action_value action
            ∷ ":"
            ∷ first_chars 24 (sha256_hex original)
            ∷ []))

-- Reading a tool's own value gives the tool back, so a stored tool name determines its tool.
pub tool_named-tool_value : (tool : ToolName) → tool_named (tool_value tool) ≡ some tool
unfolding tool_named
tool_named-tool_value create_replacement_po = refl
tool_named-tool_value reduce_or_cancel_po = refl
tool_named-tool_value place_purchase_order_hold = refl
tool_named-tool_value notify_production = refl
tool_named-tool_value schedule_arrival_check = refl
tool_named-tool_value reallocate_lot = refl
tool_named-tool_value flag_shortage_to_purchasing = refl
