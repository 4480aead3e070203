-- ===== src/Workflow/Executor/Authorization.antt =====
-- What `claim` has established when it hands out a lease.
use text.Mathlib.TextEquality.{eq_iff}
use harmony_takehome.Prelude.{
  ◌<◌, ◌≡◌, subst, String, Bool, true, false, not, some, Result, ok, and_then, and_then_ok, arith,
  ◌!=◌, string_eq, Option-cases, inl, inr,
}
use harmony_takehome.Domain.{
  Instant, Plan, Approval, ApprovalStatus, ActorContext, Versions, versions_eqb,
  WorkflowStateSnapshot,
}
use harmony_takehome.Workflow.PlanHash.{recompute_plan_hash}
use harmony_takehome.Workflow.Declarations.{WorkflowDefinition}
use harmony_takehome.Workflow.Executor.Machine.{
  reject_if_ok, or_error_ok, Ports, ExecutionError, identity_not_found, or_error,
}
use harmony_takehome.Workflow.Executor.Checks.{runnable, declared_definition}
use harmony_takehome.Workflow.Executor.Cursor.{
  tools_authorized, revalidate_execution, not_current, definition_checks, actor_checks,
}
use harmony_takehome.Workflow.Executor.Claim.{claim_checks, claimed_step}

same_text : (a b : String) → (a != b) ≡ false → a ≡ b
same_text a b h = ground (arith, eq_iff a b)

ok_same :
    (a b : WorkflowDefinition)
    → Path (Result ExecutionError WorkflowDefinition) (ok a) (ok b)
    → a ≡ b
ok_same a b h = ground arith

not-false : (b : Bool) → not b ≡ false → b ≡ true
not-false b h = ground arith

current_facts :
    (plan : Plan) (approval : Approval) (now : Instant)
    → not_current plan approval now ≡ false
    → (approval.status ≡ ApprovalStatus.approved)
      × ((approval.plan_id ≡ plan.plan_id)
          × (approval.plan_hash ≡ plan.plan_hash)
          × (approval.requester_id ≡ plan.actor_id))
      × (now < approval.expires_at)
      × (now < plan.expires_at)
current_facts plan approval now h = ground (
  arith,
  eq_iff approval.plan_id plan.plan_id,
  eq_iff approval.plan_hash plan.plan_hash,
  eq_iff approval.requester_id plan.actor_id,
)

-- The plan and the approval of the workflow are bound to each other and to the recomputed hash,
-- neither has expired, the sources are those that were approved, the stored steps are those that
-- the plan declares, and the requester holds the scopes of every declared tool.
pub record IsAuthorized {E : Type 0} (ports : Ports E) (snapshot : WorkflowStateSnapshot)
    (now : Instant) (current : Versions) (plan : Plan) (approval : Approval)
    (definition : WorkflowDefinition) : Type 0 where
  pub actor : ActorContext
  pub approved : approval.status ≡ ApprovalStatus.approved
  pub same_plan : approval.plan_id ≡ plan.plan_id
  pub same_hash : approval.plan_hash ≡ plan.plan_hash
  pub same_requester : approval.requester_id ≡ plan.actor_id
  pub unexpired : (now < approval.expires_at) × (now < plan.expires_at)
  pub intact : recompute_plan_hash ports.python plan ≡ plan.plan_hash
  pub fresh : versions_eqb current plan.source_versions ≡ true
  pub declared : declared_definition ports snapshot (some plan) runnable ≡ ok definition
  pub known : ports.actor_for plan.actor_id ≡ some actor
  pub itself : actor.user_id ≡ plan.actor_id
  pub scoped : tools_authorized actor definition.steps ≡ true

module _ {E : Type 0} (ports : Ports E) (snapshot : WorkflowStateSnapshot) (now : Instant)
    (current : Versions) (definition : WorkflowDefinition) where
  revalidated :
      (plan : Plan) (approval : Approval)
      → revalidate_execution ports snapshot plan approval now current ≡ ok definition
      → IsAuthorized ports snapshot now current plan approval definition
  unfolding revalidate_execution
  revalidated plan approval h =
      let (current_ok, h1) = reject_if_ok (not_current plan approval now) _ _ definition h in
      let (hash_ok, h2) =
        reject_if_ok (recompute_plan_hash ports.python plan != plan.plan_hash) _ _ definition h1 in
      let (fresh_ok, h3) =
        reject_if_ok (not (versions_eqb current plan.source_versions)) _ _ definition h2 in
      let (found, declared_ok, h4) =
        and_then_ok (declared_definition ports snapshot (some plan) runnable)
          (definition_checks ports plan) definition h3 in
      let (actor, known_ok, h5) =
        and_then_ok (or_error (ports.actor_for plan.actor_id) identity_not_found)
          (actor_checks ports plan found) definition h4 in
      let (itself_ok, h6) = reject_if_ok (actor.user_id != plan.actor_id) _ _ definition h5 in
      let (scoped_ok, h7) =
        reject_if_ok (not (tools_authorized actor found.steps)) _ (ok found) definition h6 in
      let (approved, (plan_ok, named_ok, asker_ok), early, earlier) =
        current_facts plan approval now current_ok in
      record {
        actor = actor;
        approved = approved;
        same_plan = plan_ok;
        same_hash = named_ok;
        same_requester = asker_ok;
        unexpired = (early, earlier);
        intact = same_text (recompute_plan_hash ports.python plan) plan.plan_hash hash_ok;
        fresh = not-false (versions_eqb current plan.source_versions) fresh_ok;
        declared =
            subst (λ d. declared_definition ports snapshot (some plan) runnable ≡ ok d)
              (ok_same found definition h7) declared_ok;
        known = or_error_ok (ports.actor_for plan.actor_id) identity_not_found actor known_ok;
        itself = same_text actor.user_id plan.actor_id itself_ok;
        scoped =
            subst (λ (d : WorkflowDefinition). tools_authorized actor d.steps ≡ true)
              (ok_same found definition h7)
              (not-false (tools_authorized actor found.steps) scoped_ok);
      }

  -- The loaded snapshot has passed every check of `claim`.
  unfoldable pub Cleared : Type 0
  Cleared =
      (plan : Plan) × (approval : Approval) × (ports.load_for_plan snapshot.workflow.plan_id
        ≡ some (plan, approval))
      × IsAuthorized ports snapshot now current plan approval definition

  pub claim_checks_ok : claim_checks ports snapshot now current ≡ ok definition → Cleared
  unfolding Cleared claim_checks
  claim_checks_ok h = elim (Option-cases (ports.load_for_plan snapshot.workflow.plan_id)) [
    | inl none_found ↦ cc
    | inr ((plan, approval), found) ↦
        let (checked, done, rest) =
          and_then_ok (revalidate_execution ports snapshot plan approval now current)
            (λ d. and_then (claimed_step snapshot d) (λ next. ok d)) definition (ground arith) in
        let (next, stepped, same) =
          and_then_ok (claimed_step snapshot checked) (λ next. ok checked) definition rest in
        (
          plan,
          approval,
          found,
          revalidated plan approval (
              subst (λ d. revalidate_execution ports snapshot plan approval now current ≡ ok d)
                (ok_same checked definition same) done),
        )
  ]
