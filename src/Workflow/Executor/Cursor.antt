-- ===== src/Workflow/Executor/Cursor.antt =====
-- The checks of the step at the cursor, of the lease, and of the approval of an execution:
-- `_validate_next_step`, `_validate_started_tool`, `_revalidate_execution` and their helpers.
use harmony_takehome.Prelude.{
  ℕ, suc, String, Bool, true, false, not, ◌&&◌, ◌||◌, Option, none, some, List, any, all, take,
  drop, length, get_elem?, ok, err, and_then, leb, ◌!=◌, string_eq, nat_eq, option_eq,
  if◌then◌else◌,
}
use harmony_takehome.Domain.{
  Instant, Plan, Approval, ApprovalStatus, ActorContext, Versions, versions_eqb, WorkflowStepState,
  WorkflowStateSnapshot, is_running, step_is_pending, step_is_running, step_is_succeeded,
}
use harmony_takehome.Workflow.Sql.{holds, after, is_null, is_not_null}
use harmony_takehome.Workflow.Tools.{authorized}
use harmony_takehome.Workflow.Declarations.{WorkflowDefinition, WorkflowStepDefinition}
use harmony_takehome.Workflow.PlanHash.{recompute_plan_hash}
use harmony_takehome.Workflow.Executor.Machine.{
  claim_lost, identity_not_found, index_error, Ports, Check, reject_if, or_error,
}
use harmony_takehome.Workflow.Executor.Checks.{runnable, declared_definition}

abbrev pub not_succeeded : WorkflowStepState → Bool
not_succeeded s = not (step_is_succeeded s.status)

abbrev pub not_pending : WorkflowStepState → Bool
not_pending s = not (step_is_pending s.status)

-- The declared and the stored step at a place: an IndexError where there is none.
abbrev pub at_place :
    {A : Type 0}
    → WorkflowStateSnapshot
    → WorkflowDefinition
    → ℕ
    → (WorkflowStepDefinition → WorkflowStepState → Check A)
    → Check A
at_place snapshot definition place body =
    and_then (or_error (get_elem? definition.steps place) index_error)
      (λ declared. and_then (or_error (get_elem? snapshot.steps place) index_error) (body declared))

-- `_validate_next_step`
unfoldable pub validate_next_step :
    WorkflowStateSnapshot → WorkflowDefinition → Check WorkflowStepDefinition
validate_next_step snapshot definition =
    let c = snapshot.workflow.current_step in
    reject_if (leb (length definition.steps) c) "workflow has no remaining declared step" (
      at_place snapshot definition c (λ declared step.
        reject_if (not_pending step) "workflow next step is not pending" (
          reject_if (any not_succeeded (take c snapshot.steps))
            "workflow has an incomplete prior step"
            (reject_if (any not_pending (drop c snapshot.steps))
              "workflow has an invalid future step" (ok declared)))))

-- `_validate_started_tool`
unfoldable pub validate_started_tool :
    WorkflowStateSnapshot → WorkflowDefinition → Check WorkflowStepDefinition
validate_started_tool snapshot definition =
    let c = snapshot.workflow.current_step in
    reject_if (leb (length definition.steps) c) "workflow has no remaining declared step" (
      at_place snapshot definition c (λ declared step.
        reject_if (is_null declared.tool_name || not (step_is_running step.status))
          "workflow next step is not a started external tool"
          (reject_if (is_null step.idempotency_key) "workflow started tool has no idempotency key" (
            reject_if (any not_succeeded (take c snapshot.steps))
              "workflow has an incomplete prior step"
              (reject_if (any not_pending (drop (suc c) snapshot.steps))
                "workflow has an invalid future step" (ok declared))))))

abbrev pub started_external : Option WorkflowStepState → Bool
started_external none = false
started_external (some step) = is_not_null step.tool_name && step_is_running step.status

-- `_next_step_is_started_external_tool`
unfoldable pub next_step_is_started_external_tool : WorkflowStateSnapshot → Bool
next_step_is_started_external_tool snapshot =
    started_external (get_elem? snapshot.steps snapshot.workflow.current_step)

-- `_has_completed_external_tool`
unfoldable pub has_completed_external_tool : WorkflowStateSnapshot → Bool
has_completed_external_tool snapshot =
    any (λ step. is_not_null step.tool_name && step_is_succeeded step.status) snapshot.steps

-- `_require_active_tool_lease`
unfoldable pub require_active_tool_lease :
    String → Instant → WorkflowStateSnapshot → Check WorkflowStateSnapshot
require_active_tool_lease worker now snapshot =
    let w = snapshot.workflow in
    if is_running w.status && holds w.lease_owner worker && after w.lease_expires_at now
    then ok snapshot
    else err (claim_lost "workflow tool start requires the active lease")

abbrev pub tools_authorized : ActorContext → List WorkflowStepDefinition → Bool
tools_authorized actor =
    all (λ step. elim step.tool_name [ none ↦ true | some tool ↦ authorized actor tool ])

abbrev pub is_approved : ApprovalStatus → Bool
is_approved ApprovalStatus.approved = true
is_approved _ = false

-- The approval is missing, bound to another plan or expired.
abbrev pub not_current : Plan → Approval → Instant → Bool
not_current plan approval now =
    not (is_approved approval.status)
    || approval.plan_id != plan.plan_id
    || approval.plan_hash != plan.plan_hash
    || approval.requester_id != plan.actor_id
    || leb approval.expires_at now
    || leb plan.expires_at now

module _ {E : Type 0} (ports : Ports E) where
  -- The identity and the scopes of the actor, at the time of the execution.
  abbrev pub actor_checks : Plan → WorkflowDefinition → ActorContext → Check WorkflowDefinition
  actor_checks plan definition actor =
      reject_if (actor.user_id != plan.actor_id) "workflow actor identity does not match the plan" (
        reject_if (not (tools_authorized actor definition.steps))
          "workflow actor no longer has the required write scope" (ok definition))

  abbrev pub definition_checks : Plan → WorkflowDefinition → Check WorkflowDefinition
  definition_checks plan definition =
      and_then (or_error (ports.actor_for plan.actor_id) identity_not_found)
        (actor_checks plan definition)

  -- `_revalidate_execution`
  unfoldable pub revalidate_execution :
      WorkflowStateSnapshot → Plan → Approval → Instant → Versions → Check WorkflowDefinition
  unfolding declared_definition recompute_plan_hash versions_eqb authorized
  revalidate_execution snapshot plan approval now current =
      reject_if (not_current plan approval now) "workflow approval is not currently approved" (
        reject_if (recompute_plan_hash ports.python plan != plan.plan_hash)
          "workflow approval binding does not match the plan"
          (reject_if (not (versions_eqb current plan.source_versions))
            "workflow source evidence is stale"
            (and_then (declared_definition ports snapshot (some plan) runnable)
              (definition_checks plan))))
