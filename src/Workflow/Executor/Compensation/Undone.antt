-- ===== src/Workflow/Executor/Compensation/Undone.antt =====
-- What a compensation that has returned has done, from the beginning to the end.
use mathlib.Core.List.{reverse_aux}
use harmony_takehome.Prelude.{
  subst, String, ◌≡◌, refl, ◌∙◌, sym, ap, Bool, true, false, not, Option, none, some, List, [], ◌∷◌,
  any, Result, ok, arith, bind_inv, lift_inv, or_raise_inv, raise_if_inv, pure, if◌then◌else◌,
  reverse,
}
use harmony_takehome.Domain.{
  Instant, ActorContext, ToolCompensation, WorkflowStatus, WorkflowStepState, WorkflowStateSnapshot,
  is_failed, is_compensated,
}
use harmony_takehome.Workflow.Declarations.{WorkflowDefinition}
use harmony_takehome.Workflow.Store.Statements.{is_effect}
use harmony_takehome.Workflow.Store.Request.{begin_compensation}
use harmony_takehome.Workflow.Store.Database.{load, transact}
use harmony_takehome.Workflow.Executor.Machine.{ToolOutcome, ExecutionError, Ports, Machine, store}
use harmony_takehome.Workflow.Store.Grant.{transact-begin_compensation}
use harmony_takehome.Workflow.Executor.Checks.{declared_definition}
use harmony_takehome.Workflow.Executor.Granting.{stored_ok}
use harmony_takehome.Workflow.Executor.Compensation.{
  unwind_all, unwind_loop, compensation_actor, compensate_with,
}
use harmony_takehome.Workflow.Executor.Compensation.Reversal.{Reversal, unwind_all_ok}

module _ {E : Type 0} (ports : Ports E)
    (call : ActorContext → ToolCompensation → E → ToolOutcome × E) (id worker : String)
    (now : Instant) (definition : WorkflowDefinition) (actor : ActorContext) where
  -- Steps without a completed effect leave nothing to reverse.
  nothing_onto :
      (xs acc : List WorkflowStepState) (world : E)
      → any is_effect xs ≡ false
      → Reversal ports call id worker now definition actor acc world world
      → Reversal ports call id worker now definition actor (reverse_aux xs acc) world world
  nothing_onto [] acc world none_left r = r
  nothing_onto (x ∷ xs) acc world none_left r =
      let idle : is_effect x ≡ false = ground arith in
      nothing_onto xs (x ∷ acc) world (ground arith) (rw idle r)

  same_world :
      (a s : WorkflowStateSnapshot) (m m' : Machine E)
      → Path (Result ExecutionError WorkflowStateSnapshot × Machine E) (ok a, m) (ok s, m')
      → m.effects ≡ m'.effects
  same_world a s m m' h =
      ap (λ (r : Result ExecutionError WorkflowStateSnapshot × Machine E). r.1.effects) h

  -- The end of a compensation that has begun, with or without effects to reverse.
  ended :
      (begun s : WorkflowStateSnapshot) (m m' : Machine E)
      → (is_compensated begun.workflow.status ≡ true → any is_effect begun.steps ≡ false)
      → (if is_compensated begun.workflow.status
            then pure begun
            else unwind_loop ports call id worker now definition actor begun)
          m
        ≡ (ok s, m')
      → (is_compensated s.workflow.status ≡ true)
        × Reversal ports call id worker now definition actor
            (reverse begun.steps)
            m.effects
            m'.effects
  ended begun s m m' idle h = settle (is_compensated begun.workflow.status) refl h
    where
      settle :
          (b : Bool)
          → is_compensated begun.workflow.status ≡ b
          → (if b then pure begun else unwind_loop ports call id worker now definition actor begun)
              m
            ≡ (ok s, m')
          → (is_compensated s.workflow.status ≡ true)
            × Reversal ports call id worker now definition actor
                (reverse begun.steps)
                m.effects
                m'.effects
      settle true e k = (
        ground arith,
        subst (Reversal ports call id worker now definition actor (reverse begun.steps) m.effects)
            (same_world begun s m m' k) (nothing_onto begun.steps [] m.effects (idle e) refl),
      )
      settle false e k =
          bind_inv
            (unwind_all ports call id worker now definition actor (reverse begun.steps) begun) _ s m
            m' k
            (λ latest m1 e1 k1.
              raise_if_inv (not (is_compensated latest.workflow.status)) _ _ s m1 m' k1
                (λ closed k2. (
                  ground arith,
                  subst
                      (Reversal ports call id worker now definition actor (reverse begun.steps)
                        m.effects)
                      (same_world latest s m1 m' k2)
                      (unwind_all_ok ports call id worker now definition actor (reverse begun.steps)
                        begun latest m m1 e1),
                )))

closed_status :
    (s : WorkflowStateSnapshot)
    → is_compensated s.workflow.status ≡ true
    → s.workflow.status ≡ WorkflowStatus.compensated
closed_status s h = ground arith

module _ {E : Type 0} (ports : Ports E)
    (call : ActorContext → ToolCompensation → E → ToolOutcome × E) (id worker : String)
    (now : Instant) (m m' : Machine E) (s : WorkflowStateSnapshot) where
  -- The loaded workflow was failed and matched its declaration; each of its completed effects has
  -- been reversed once, from the last step to the first, by the actor of its plan; the provider has
  -- been asked for nothing else; and the workflow is compensated.
  pub record IsUndone : Type 0 where
    pub definition : WorkflowDefinition
    pub actor : ActorContext
    pub snapshot : WorkflowStateSnapshot
    pub loaded : load id m.db ≡ some snapshot
    pub declared : declared_definition ports snapshot none is_failed ≡ ok definition
    pub known : compensation_actor ports snapshot ≡ ok actor
    pub undone :
        Reversal ports call id worker now definition actor
          (reverse snapshot.steps)
          m.effects
          m'.effects
    pub closed : s.workflow.status ≡ WorkflowStatus.compensated

  -- If the compensation of a failed workflow returns, the loaded workflow matched its declaration,
  -- each of its completed effects has been reversed exactly once, from the last step to the first,
  -- for the actor of its plan and under the key derived from that of the effect, the provider has
  -- been asked for nothing else, and the workflow that is returned is compensated.
  pub compensate_with-IsUndone : compensate_with ports call id worker now m ≡ (ok s, m') → IsUndone
  unfolding compensate_with
  compensate_with-IsUndone h = or_raise_inv (load id m.db) _ _ s m m' h (λ snapshot loaded h1.
      raise_if_inv (not (is_failed snapshot.workflow.status)) _ _ s m m' h1 (λ failed h2.
        lift_inv (declared_definition ports snapshot none is_failed) _ s m m' h2
          (λ definition declared h3.
            lift_inv (compensation_actor ports snapshot) _ s m m' h3 (λ actor known h4.
              bind_inv (store (transact id (begin_compensation worker now))) _ s m m' h4
                (λ answer m1 e1 h5. or_raise_inv answer _ _ s m1 m' h5 (λ begun got h6.
                  let (sent, kept) =
                    stored_ok ports (transact id (begin_compensation worker now)) answer m m1 e1 in
                  let (same, idle) =
                    transact-begin_compensation id worker now snapshot begun m.db m1.db loaded
                      (sent ∙ ap (λ (o : Option WorkflowStateSnapshot). (ok o, m1.db)) got) in
                  let (closed, undone) =
                    ended ports call id worker now definition actor begun s m1 m'
                      (subst
                        (λ steps.
                          is_compensated begun.workflow.status ≡ true → any is_effect steps ≡ false)
                        (sym same) idle)
                      h6 in
                  record {
                    definition = definition;
                    actor = actor;
                    snapshot = snapshot;
                    loaded = loaded;
                    declared = declared;
                    known = known;
                    undone =
                        subst
                          (λ world.
                            Reversal ports call id worker now definition actor
                              (reverse snapshot.steps) world m'.effects)
                          kept
                          (subst
                            (λ steps.
                              Reversal ports call id worker now definition actor (reverse steps)
                                m1.effects m'.effects)
                            same undone);
                    closed = closed_status s closed;
                  }))))))
