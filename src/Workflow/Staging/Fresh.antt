-- ===== src/Workflow/Staging/Fresh.antt =====
-- What staging puts into the store.
use harmony_takehome.Prelude.{
  ℕ, suc, String, ◌≡◌, refl, subst, if◌then◌else◌, nat_eq, Bool, true, false, ◌||◌, ◌&&◌, Option,
  none, some, List, [], ◌∷◌, ◌++◌, any, All, ok, arith, Bool-cases, inl, inr, Option-cases,
  or_raise_inv, bind_inv, ◌==◌, string_eq, same_refl, pure, ◌>>◌,
}
use harmony_takehome.Json.{Fields}
use harmony_takehome.Domain.{Instant, Plan, WorkflowStateSnapshot}
use harmony_takehome.Workflow.Tools.{Validator, ToolInput}
use harmony_takehome.Workflow.Declarations.{
  WorkflowDefinition, WorkflowStepDefinition, po_reroute_v1, declared_workflow,
}
use harmony_takehome.Workflow.BoundedPlan.{bounded_tool_calls_from_plan}
use harmony_takehome.Workflow.Staging.{
  static_steps, bounded_steps, stage, stage_bounded_tool_plan, common_input, static_snapshot,
  bounded_snapshot, staged_snapshot, planned_definition,
}
use harmony_takehome.Workflow.Store.Progress.{IsIndexed, IsWaiting}
use harmony_takehome.Workflow.Store.Consistency.{IsConsistent}
use harmony_takehome.Workflow.Store.Database.{WorkflowDb, has_id, load, create}

-- The declared indexes count up from `first`.
abbrev Counts : ℕ → List WorkflowStepDefinition → Type 0
Counts first [] = Unit
Counts first (d ∷ rest) = (d.index ≡ first) × Counts (suc first) rest

module _ (step_id : ℕ → String) (workflow_id : String) (created_at : Instant) where
  static_fresh :
      (input : Fields) (first : ℕ) (steps : List WorkflowStepDefinition)
      → Counts first steps
      → IsIndexed first (static_steps step_id workflow_id created_at input steps)
        × All IsWaiting (static_steps step_id workflow_id created_at input steps)
  unfolding static_steps
  static_fresh input first [] c = (tt, tt)
  static_fresh input first (d ∷ steps) c =
      let rest = static_fresh input (suc first) steps c.1 in ((c.0, rest.0), (refl, rest.1))

  bounded_fresh :
      (input : Fields) (first : ℕ) (calls : List ToolInput)
      → IsIndexed first (bounded_steps step_id workflow_id created_at input first calls)
        × All IsWaiting (bounded_steps step_id workflow_id created_at input first calls)
  unfolding bounded_steps
  bounded_fresh input first [] = (tt, tt)
  bounded_fresh input first (call ∷ calls) =
      let rest = bounded_fresh input (suc first) calls in ((refl, rest.0), (refl, rest.1))

  module _ (run_id : Option String) (plan : Plan) where
    static-IsConsistent :
        (definition : WorkflowDefinition)
        → Counts 1 definition.steps
        → IsConsistent (static_snapshot step_id workflow_id created_at run_id plan definition)
    static-IsConsistent definition c =
        let fresh = static_fresh (common_input plan run_id) 1 definition.steps c in
        record { indexed = fresh.0; shape = (refl, fresh.1, (refl, refl)) }

    bounded-IsConsistent :
        (calls : List ToolInput)
        → IsConsistent (bounded_snapshot step_id workflow_id created_at run_id plan calls)
    bounded-IsConsistent calls =
        let fresh = bounded_fresh (common_input plan run_id) 1 calls in
        record { indexed = fresh.0; shape = (refl, fresh.1, (refl, refl)) }

load-append :
    (s : WorkflowStateSnapshot) (db : WorkflowDb)
    → any
        (λ old. has_id s.workflow.workflow_id old || old.workflow.plan_id == s.workflow.plan_id)
        db
      ≡ false
    → load s.workflow.workflow_id (db ++ s ∷ []) ≡ some s
unfolding load
load-append s [] h = ground (arith, same_refl s.workflow.workflow_id)
load-append s (old ∷ db) h = ground (arith, load-append s db (ground arith))

created :
    (s : WorkflowStateSnapshot) (db db' : WorkflowDb) (u : Unit)
    → create s db ≡ (ok u, db')
    → load s.workflow.workflow_id db' ≡ some s
unfolding create
created s db db' u h =
    elim (Bool-cases (
      any (λ old. has_id s.workflow.workflow_id old || old.workflow.plan_id == s.workflow.plan_id)
        db)) [ inl taken ↦ ground arith | inr free ↦ ground (arith, load-append s db free) ]

counted :
    (b : Bool) (definition : WorkflowDefinition)
    → (if b then some po_reroute_v1 else none) ≡ some definition
    → Counts 1 definition.steps
unfolding po_reroute_v1
counted true definition h =
    subst (λ o. elim o [ none ↦ Unit | some d ↦ Counts 1 d.steps ]) h
      (refl, (refl, (refl, (refl, (refl, (refl, tt))))))
counted false definition h = cc

module _ (step_id : ℕ → String) (workflow_id : String) (created_at : Instant)
    (run_id : Option String) (plan : Plan) where
  planned-Counts :
      (name : Option String) (version : Option ℕ) (definition : WorkflowDefinition)
      → planned_definition step_id workflow_id created_at run_id plan name version ≡ some definition
      → Counts 1 definition.steps
  unfolding declared_workflow
  planned-Counts (some name) (some version) definition h =
      counted (name == "po_reroute" && version == 1) definition h
  planned-Counts (some name) none definition h = cc
  planned-Counts none version definition h = cc

  staged_ok :
      (s : WorkflowStateSnapshot)
      → staged_snapshot step_id workflow_id created_at run_id plan ≡ some s
      → IsConsistent s × (s.workflow.workflow_id ≡ workflow_id)
  unfolding staged_snapshot
  staged_ok s h =
      elim (Option-cases (
        planned_definition step_id workflow_id created_at run_id plan plan.workflow_name
          plan.workflow_version)) [
            | inl undeclared ↦ ground arith
            | inr (definition, found) ↦
                let same : static_snapshot step_id workflow_id created_at run_id plan definition
                    ≡ s =
                  ground arith in
                (
                  subst IsConsistent same (
                      static-IsConsistent step_id workflow_id created_at run_id plan definition
                        (planned-Counts plan.workflow_name plan.workflow_version definition found)),
                  ground arith,
                )
          ]

  put :
      (s s' : WorkflowStateSnapshot) (db db' : WorkflowDb)
      → (create s >> pure s) db ≡ (ok s', db')
      → (s ≡ s') × (load s.workflow.workflow_id db' ≡ some s)
  put s s' db db' h =
      bind_inv (create s) (λ u. pure s) s' db db' h
        (λ u db1 made done. (ground arith, ground (arith, created s db db1 u made)))

  -- If `stage` returns, the workflow that it returns satisfies the invariant of the store, and is
  -- what the store holds under the new identifier.
  pub stage-IsConsistent :
      (s : WorkflowStateSnapshot) (db db' : WorkflowDb)
      → stage step_id workflow_id created_at run_id plan db ≡ (ok s, db')
      → IsConsistent s × (load workflow_id db' ≡ some s)
  unfolding stage
  stage-IsConsistent s db db' h =
      or_raise_inv (staged_snapshot step_id workflow_id created_at run_id plan)
        "plan does not name a declared workflow" (λ snapshot. create snapshot >> pure snapshot) s db
        db' h
        (λ snapshot staged rest.
          let (good, same_id) = staged_ok snapshot staged in
          let (same, held) = put snapshot s db db' rest in
          (subst IsConsistent same good, ground arith))

  -- If `stage_bounded_tool_plan` returns, the workflow that it returns satisfies the invariant of
  -- the store, and is what the store holds under the new identifier.
  pub stage_bounded_tool_plan-IsConsistent :
      (validate : Validator) (s : WorkflowStateSnapshot) (db db' : WorkflowDb)
      → stage_bounded_tool_plan step_id workflow_id created_at run_id plan validate db ≡ (ok s, db')
      → IsConsistent s × (load workflow_id db' ≡ some s)
  unfolding stage_bounded_tool_plan
  stage_bounded_tool_plan-IsConsistent validate s db db' h =
      or_raise_inv (bounded_tool_calls_from_plan validate plan)
        "plan does not name a valid bounded tool workflow"
        (λ calls.
          create (bounded_snapshot step_id workflow_id created_at run_id plan calls)
          >> pure (bounded_snapshot step_id workflow_id created_at run_id plan calls))
        s db db' h
        (λ calls parsed rest.
          let (same, held) =
            put (bounded_snapshot step_id workflow_id created_at run_id plan calls) s db db' rest in
          (
            subst IsConsistent same
                (bounded-IsConsistent step_id workflow_id created_at run_id plan calls),
            ground arith,
          ))
