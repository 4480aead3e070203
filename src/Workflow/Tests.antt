-- ===== src/Workflow/Tests.antt =====
-- The theorems on concrete workflows.
use text.Mathlib.TextEquality.{eq_iff}
use harmony_takehome.Prelude.{
  Result, String, ◌≡◌, refl, ◌≢◌, none, some, List, [], ◌∷◌, ok, err, arith, inr, ◌<◌, ◌≤◌, ◌+◌,
  string_eq,
}
use harmony_takehome.Domain.{WorkflowStatus, WorkflowStateSnapshot, weekday, date_of, at_hour}
use harmony_takehome.Workflow.Samples.{
  failed_workflow, reverse_effect, ports, reroute_plan, reduction_plan, reduction_calls, step_id,
  pending_workflow, started_workflow, compensated_workflow, to_first_tool, machine, started_tool,
}
use harmony_takehome.Workflow.Staging.{
  static_steps, stage, stage_bounded_tool_plan, bounded_snapshot,
}
use harmony_takehome.Workflow.Declarations.{po_reroute_v1}
use harmony_takehome.Workflow.Staging.Fresh.{
  stage-IsConsistent, stage_bounded_tool_plan-IsConsistent,
}
use harmony_takehome.Workflow.BoundedPlan.{bounded_tool_calls_from_plan}
use harmony_takehome.Workflow.Store.Request.{Request, run_requests}
use harmony_takehome.Workflow.Store.Database.{WorkflowDb, load}
use harmony_takehome.Workflow.Store.Consistency.{IsConsistent}
use harmony_takehome.Workflow.Store.Consistency.Runs.{run_requests-IsConsistent}
use harmony_takehome.Workflow.Store.Lease.{IsLeased, run_requests_outside}
use harmony_takehome.Workflow.Store.Terminal.{run_requests_final}
use harmony_takehome.Workflow.Executor.Checks.{declared_definition, runnable}
use harmony_takehome.Workflow.Executor.Checks.Reduction.{declared_definition-reduction}
use harmony_takehome.Workflow.Executor.Inputs.{next_tuesday_at_nine}
use harmony_takehome.Workflow.Executor.Inputs.Tuesday.{next_tuesday_at_nine_lem}
use harmony_takehome.Workflow.Executor.Machine.{ExecutionError, Machine}
use harmony_takehome.Workflow.Executor.Claim as Executor
use harmony_takehome.Workflow.Executor.Compensation.{compensate_with}
use harmony_takehome.Workflow.Executor.Compensation.Undone.{IsUndone, compensate_with-IsUndone}
use harmony_takehome.Workflow.Executor.Granting.{IsGranted, claim_ok}
use harmony_takehome.Workflow.Executor.Execution.{execute_started_tool}
use harmony_takehome.Workflow.Executor.Execution.Gate.{Guarded, execute_started_tool-Guarded}

pending_good : IsConsistent pending_workflow
unfolding static_steps po_reroute_v1
pending_good = record {
  indexed = (refl, (refl, (refl, (refl, (refl, (refl, tt))))));
  shape = (refl, (refl, (refl, (refl, (refl, (refl, (refl, tt)))))), (refl, refl));
}

-- The whole life of a workflow that fails at its second tool and is compensated.
test_life : compensated_workflow.workflow.status ≡ WorkflowStatus.compensated
unfolding run_requests static_steps po_reroute_v1
test_life = refl

run_requests-IsConsistent_example : IsConsistent (run_requests to_first_tool pending_workflow)
run_requests-IsConsistent_example =
    run_requests-IsConsistent to_first_tool pending_workflow pending_good

abbrev intrusions : List Request
intrusions =
    Request.claims "intruder" 50 150 ∷ Request.fails_tool "intruder" 3 "key" "error" 99 ∷ []

started_lease : IsLeased "worker" 100 started_workflow
unfolding run_requests static_steps po_reroute_v1
started_lease = record { taken = ground arith; owned = refl; until = refl }

abbrev intruder_id : String
intruder_id = "intruder"

intruder : intruder_id ≢ "worker"
intruder = ground (arith, eq_iff "intruder" "worker")

run_requests_outside_example : run_requests intrusions started_workflow ≡ started_workflow
run_requests_outside_example =
    run_requests_outside "worker" 100 started_workflow started_lease intrusions
      ((intruder, omega arith), ((intruder, omega arith), tt))

run_requests_final_example : run_requests to_first_tool compensated_workflow ≡ compensated_workflow
unfolding run_requests static_steps po_reroute_v1
run_requests_final_example = run_requests_final to_first_tool compensated_workflow (inr refl)

-- The started workflow beside one that is pending.
abbrev two_workflows : WorkflowDb
two_workflows =
    record pending_workflow {
      workflow = record pending_workflow.workflow { workflow_id = "first" };
    }
    ∷ started_workflow
    ∷ []

stage-IsConsistent_example :
    IsConsistent pending_workflow
    × (load "workflow" (pending_workflow ∷ []) ≡ some pending_workflow)
unfolding stage
stage-IsConsistent_example =
    stage-IsConsistent step_id "workflow" 5 none reroute_plan pending_workflow []
      (pending_workflow ∷ []) refl

abbrev reduction_workflow : WorkflowStateSnapshot
reduction_workflow = bounded_snapshot step_id "workflow" 5 none reduction_plan reduction_calls

stage_bounded_tool_plan-IsConsistent_example :
    IsConsistent reduction_workflow
    × (load "workflow" (reduction_workflow ∷ []) ≡ some reduction_workflow)
unfolding stage_bounded_tool_plan
stage_bounded_tool_plan-IsConsistent_example =
    stage_bounded_tool_plan-IsConsistent step_id "workflow" 5 none reduction_plan ports.validate
      reduction_workflow [] (reduction_workflow ∷ []) refl

declared_definition-reduction_example :
    declared_definition ports reduction_workflow (some reduction_plan) runnable
    ≢ ok (record { name = "bounded_tool_plan"; version = 1; steps = [] })
unfolding bounded_tool_calls_from_plan
declared_definition-reduction_example =
    declared_definition-reduction ports reduction_workflow reduction_plan reduction_calls runnable
      (record { name = "bounded_tool_plan"; version = 1; steps = [] }) refl refl

next_tuesday_at_nine_lem_example :
    (weekday (next_tuesday_at_nine 0) ≡ 1)
    × (next_tuesday_at_nine 0 ≡ at_hour (date_of (next_tuesday_at_nine 0)) 9)
    × (date_of 0 < date_of (next_tuesday_at_nine 0))
    × (date_of (next_tuesday_at_nine 0) ≤ date_of 0 + 7)
next_tuesday_at_nine_lem_example = next_tuesday_at_nine_lem 0

abbrev claimed_workflow : WorkflowStateSnapshot
claimed_workflow = run_requests (Request.claims "worker" 10 100 ∷ []) pending_workflow

abbrev claimed_machine : Machine (List String)
claimed_machine = machine claimed_workflow

claim_ok_example :
    IsGranted ports "workflow" "worker" 10 100
      (("erp", 4) ∷ [])
      (machine pending_workflow)
      claimed_machine
      claimed_workflow
unfolding Executor.claim run_requests static_steps
claim_ok_example =
    claim_ok ports "workflow" "worker" 10 100 (("erp", 4) ∷ []) (machine pending_workflow)
      claimed_machine claimed_workflow refl

execute_started_tool-Guarded_example :
    Guarded ports started_tool "worker" 20
      (machine started_workflow)
      (execute_started_tool ports started_tool "worker" 20 (machine started_workflow))
execute_started_tool-Guarded_example =
    execute_started_tool-Guarded ports started_tool "worker" 20 (machine started_workflow)

-- The run of the compensation on the failed workflow.
abbrev unwinding : Result ExecutionError WorkflowStateSnapshot × Machine (List String)
unwinding = compensate_with ports reverse_effect "workflow" "worker" 20 (machine failed_workflow)

abbrev unwound : WorkflowStateSnapshot
unwound = elim unwinding.0 [ ok s ↦ s | err e ↦ failed_workflow ]

compensate_with-IsUndone_example :
    IsUndone ports reverse_effect "workflow" "worker" 20
      (machine failed_workflow)
      unwinding.1
      unwound
unfolding compensate_with
compensate_with-IsUndone_example =
    compensate_with-IsUndone ports reverse_effect "workflow" "worker" 20 (machine failed_workflow)
      unwinding.1 unwound refl
