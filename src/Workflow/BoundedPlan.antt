-- ===== src/Workflow/BoundedPlan.antt =====
-- src/enterprise_agent/application/bounded_tool_plan.py: the ordered catalogue calls that a
-- bounded plan carries in its parameters.
use harmony_takehome.Prelude.{
  ℕ, String, ◌||◌, Option, none, some, List, [], ◌∷◌, ◌==◌, ◌!=◌, string_eq, nat_eq, option_eq,
  if◌then◌else◌,
}
use harmony_takehome.Json
use harmony_takehome.Json.{Json, Items, Fields, size}
use harmony_takehome.Domain.{Plan}
use harmony_takehome.Workflow.Tools.{ToolInput, Validator, tool_named}

abbrev pub bounded_tool_plan_intent : String
bounded_tool_plan_intent = "bounded_tool_plan"

abbrev pub bounded_tool_plan_name : String
bounded_tool_plan_name = "bounded_tool_plan"

abbrev pub bounded_tool_plan_version : ℕ
bounded_tool_plan_version = 1

-- Python's `for` over the serialised calls stops with the first exception.
abbrev pub both_parts {ℓ} : {A : Type ℓ} → Option A → Option (List A) → Option (List A)
both_parts none rest = none
both_parts (some x) none = none
both_parts (some x) (some xs) = some (x ∷ xs)

module _ (validate : Validator) where
  -- `ToolName(raw_name)` and `input_model.model_validate(dict(raw_input))`
  unfoldable pub validated_call : String → Fields → Option ToolInput
  unfolding tool_named
  validated_call raw_name raw_input = elim (tool_named raw_name) [
    | none ↦ none
    | some tool ↦ elim (validate tool raw_input) [
      | none ↦ none
      | some dump ↦ some (record { model = tool; dump = dump })
    ]
  ]

  -- The two values under "tool_name" and "input".
  abbrev pub call_of_parts : Option Json → Option Json → Option ToolInput
  call_of_parts (some (Json.text raw_name)) (some (Json.object raw_input)) =
      validated_call raw_name raw_input
  call_of_parts _ _ = none

  abbrev pub call_from : Json → Option ToolInput
  call_from (Json.object call) =
      if size call == 2
      then call_of_parts (Json.get "tool_name" call) (Json.get "input" call)
      else none
  call_from _ = none

  unfoldable pub calls_from : Items → Option (List ToolInput)
  unfolding validated_call size Json.get
  calls_from Items.nil = some []
  calls_from (Items.cons call rest) = both_parts (call_from call) (calls_from rest)

  -- `plan.parameters["tool_calls"]`, a list that is not empty
  abbrev pub calls_of_parameters : Option Json → Option (List ToolInput)
  calls_of_parameters (some (Json.array (Items.cons call rest))) = calls_from (Items.cons call rest)
  calls_of_parameters _ = none

  -- `bounded_tool_calls_from_plan`: nothing stands for a BoundedToolPlanError. The keys of a mapping
  -- are distinct, so one key and a value under "tool_calls" mean that it is the only key.
  unfoldable pub bounded_tool_calls_from_plan : Plan → Option (List ToolInput)
  unfolding calls_from size Json.get
  bounded_tool_calls_from_plan plan =
      if plan.intent != bounded_tool_plan_intent
        || plan.workflow_name != some bounded_tool_plan_name
        || plan.workflow_version != some bounded_tool_plan_version
      then none
      else if size plan.parameters != 1
      then none
      else calls_of_parameters (Json.get "tool_calls" plan.parameters)
