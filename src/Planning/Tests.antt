-- ===== src/Planning/Tests.antt =====
-- The theorems on a plan with one call.
use harmony_takehome.Prelude.{none, ◌+◌, ◌<◌, ◌≡◌, ◌↔◌, refl, true, false, List, [], ◌∷◌, some, All}
use harmony_takehome.Json.{Json, end, field}
use harmony_takehome.Domain.{Plan, Versions, date_of, versions_eqb}
use harmony_takehome.Workflow.Tools.{ToolInput, ToolName, authorized}
use harmony_takehome.Workflow.BoundedPlan.{bounded_tool_calls_from_plan}
use harmony_takehome.Workflow.PlanHash.{recompute_plan_hash}
use harmony_takehome.Workflow.Samples.{python, planner, ports}
use harmony_takehome.Planning.{GateDecision, GateStatus}
use harmony_takehome.Planning.BoundedGate.{
  evaluate, is_nil, build_bounded_tool_plan, hashed, unhashed_plan,
}
use harmony_takehome.Planning.Context.{
  EnterWorkflowRecommendation, enter_workflow, string_payload_value,
}
use harmony_takehome.Planning.Samples.{with_zero, context, current, proposal, alternate}
use harmony_takehome.Planning.Candidates.{SupplierCandidateResult, filter_candidates}
use harmony_takehome.Planning.Candidates.Viability.{filter_candidates-IsViable, IsViable}
use harmony_takehome.Planning.ScenarioAGate
use harmony_takehome.Planning.ScenarioAGate.{shipment_update_outcome}
use harmony_takehome.Planning.ScenarioAGate.Held.{evaluate-IsHeld, IsHeld}
use harmony_takehome.Planning.BoundedGate.Authority.{evaluate-pending}
use harmony_takehome.Planning.BoundedGate.RoundTrip.{build_bounded_tool_plan-read}

abbrev calls : List ToolInput
calls =
    record { model = ToolName.notify_production; dump = field "message" (Json.text "late") end }
    ∷ []

abbrev sources : Versions
sources = ("erp", 4) ∷ []

evaluate-pending_example :
    ((decision : GateDecision) × (evaluate planner calls sources sources ≡ some decision)
      × (decision.status ≡ GateStatus.pending_approval))
    ↔ ((is_nil calls ≡ false)
        × (versions_eqb sources sources ≡ true)
        × All (λ call. authorized planner call.model ≡ true) calls)
evaluate-pending_example = evaluate-pending planner calls sources sources

abbrev plan : Plan
plan = hashed python (unhashed_plan "plan" "attention" "planner" "manager" calls sources "v1" 5 50)

build_bounded_tool_plan-read_example :
    (bounded_tool_calls_from_plan ports.validate plan ≡ some calls)
    × (recompute_plan_hash python plan ≡ plan.plan_hash)
    × (5 < 50)
unfolding build_bounded_tool_plan
build_bounded_tool_plan-read_example =
    build_bounded_tool_plan-read ports.validate python "plan" "attention" "planner" "manager" calls
      sources "v1" 5 50 plan (refl, tt) refl

abbrev viable_suppliers : SupplierCandidateResult
viable_suppliers = record {
  candidates =
      record {
        supplier_id = "alternate";
        evidence = alternate;
        lead_time_days = 2;
        arrival_date = 2;
      }
      ∷ [];
  exclusions = [];
}

filter_candidates-IsViable_example :
    All
      (IsViable with_zero
        (string_payload_value with_zero "supplier_id" context.original_purchase_order)
        "part"
        ("plant" ∷ [])
        (date_of 5)
        20)
      viable_suppliers.candidates
    × (1 + 0 ≡ 1)
unfolding filter_candidates
filter_candidates-IsViable_example =
    filter_candidates-IsViable with_zero context viable_suppliers refl

abbrev held_decision : GateDecision
held_decision = record {
  status = GateStatus.pending_approval;
  approval_required = true;
  denial_reasons = [];
  estimated_value = some (record { amount = "10"; currency = "EUR" });
  candidate = some (record {
    supplier_id = "alternate";
    evidence = alternate;
    lead_time_days = 2;
    arrival_date = 2;
  });
}

evaluate-IsHeld_example :
    (r : EnterWorkflowRecommendation) × (enter_workflow proposal ≡ enter_workflow r)
    × (shipment_update_outcome with_zero context ≡ none)
    × IsHeld with_zero context r current held_decision
unfolding ScenarioAGate.evaluate
evaluate-IsHeld_example =
    evaluate-IsHeld with_zero context (enter_workflow proposal) current held_decision refl refl
