-- ===== src/Workflow/Executor/Compensation/Reversal.antt =====
-- What a compensation that has returned has asked of the provider.
use harmony_takehome.Prelude.{
  ◌+◌, String, ◌≡◌, ◌∙◌, sym, ap, Bool, true, false, not, List, [], ◌∷◌, any, Result, ok, err,
  arith, bind_inv, lift_inv, or_raise_inv, ◌>>=◌, if◌then◌else◌, Bool-cases, inl, inr,
}
use harmony_takehome.Json.{Fields}
use harmony_takehome.Domain.{
  Instant, ActorContext, ToolCompensation, WorkflowStepState, WorkflowStateSnapshot,
}
use harmony_takehome.Workflow.Tools.{build_compensation_idempotency_key, compensation_of}
use harmony_takehome.Workflow.Declarations.{WorkflowDefinition}
use harmony_takehome.Workflow.Store.Statements.{is_effect}
use harmony_takehome.Workflow.Store.Request.{start_compensation_step, complete_compensation_step}
use harmony_takehome.Workflow.Store.Database.{transact}
use harmony_takehome.Workflow.Executor.Machine.{
  ToolOutcome, ExecutionError, AuditFacts, Ports, Machine, Exec, store, record_audit, call_tool,
  mapping_of, value_checked,
}
use harmony_takehome.Workflow.Executor.Machine.{record_audit_keeps}
use harmony_takehome.Workflow.Executor.Granting.{stored_ok}
use harmony_takehome.Workflow.Executor.Compensation.{
  Provenance, tool_facts, unwind_provenance, compensation_for, after_reversal, unwind_step,
  unwind_all,
}

abbrev refusal : String
refusal = "tool compensation result must be a mapping"

call_ok :
    {E : Type 0} (f : E → ToolOutcome × E) (outcome : ToolOutcome) (m m' : Machine E)
    → Path (Result ExecutionError ToolOutcome × Machine E) (call_tool f m) (ok outcome, m')
    → f m.effects ≡ (outcome, m'.effects)
call_ok f outcome m m' h = ground arith

mapping_ok :
    (message : String) (outcome : ToolOutcome) (result : Fields)
    → mapping_of message outcome ≡ ok result
    → outcome ≡ ToolOutcome.returned result
mapping_ok message (ToolOutcome.returned r) result h = ground arith
mapping_ok message ToolOutcome.not_mapping result h = cc
mapping_ok message (ToolOutcome.failed_for_good e) result h = cc
mapping_ok message (ToolOutcome.raised e) result h = cc

module _ {E : Type 0} (ports : Ports E)
    (call : ActorContext → ToolCompensation → E → ToolOutcome × E) (id worker : String)
    (now : Instant) (definition : WorkflowDefinition) (actor : ActorContext) where
  -- One call of the provider took the world from `before` to `after`: the reverse action of the
  -- step's own tool, with the key and the result of its effect, under the key derived from it.
  pub record IsReversed (step : WorkflowStepState) (before after : E) : Type 0 where
    pub from : Provenance
    pub reverse_key : String
    pub result : Fields
    pub provenance : unwind_provenance ports call id worker now definition actor step ≡ ok from
    pub key :
        build_compensation_idempotency_key ports.python id step.step_index
          (compensation_of from.tool)
          from.key
        ≡ ok reverse_key
    pub asked :
        call actor
          (compensation_for ports call id worker now definition actor from reverse_key)
          before
        ≡ (ToolOutcome.returned result, after)

  -- The completed effects among the steps have been reversed, in the order of the list, and the
  -- provider has been asked for nothing else.
  abbrev pub Reversal : List WorkflowStepState → E → E → Type 0
  Reversal [] before after = before ≡ after
  Reversal (step ∷ rest) before after =
      if is_effect step
      then ((between : E) × IsReversed step before between × Reversal rest between after)
      else Reversal rest before after

  audit_ok :
      (s : WorkflowStateSnapshot) (facts : AuditFacts) (m m' : Machine E) (u : Unit)
      → record_audit ports s facts m ≡ (ok u, m')
      → m'.effects ≡ m.effects
  audit_ok s facts m m' u h =
      let kept = (record_audit_keeps ports s facts m).1 in
      sym (ap (λ (r : Result ExecutionError Unit × Machine E). r.1.effects) h) ∙ kept

  joined :
      (f : E → ToolOutcome × E) (e0 e1 e2 e3 : E) (outcome : ToolOutcome) (result : Fields)
      → e1 ≡ e0
      → f e1 ≡ (outcome, e2)
      → outcome ≡ ToolOutcome.returned result
      → e3 ≡ e2
      → f e0 ≡ (ToolOutcome.returned result, e3)
  joined f e0 e1 e2 e3 outcome result before asked mapped later = cc

  ended_ok :
      (m3 m4 m5 m' : Machine E) (completed s : WorkflowStateSnapshot)
      → m4.effects ≡ m3.effects
      → m5.effects ≡ m4.effects
      → Path (Result ExecutionError WorkflowStateSnapshot × Machine E) (ok completed, m5) (ok s, m')
      → m'.effects ≡ m3.effects
  ended_ok m3 m4 m5 m' completed s first second last = cc

  key_ok : {A : Type 0} (r : Result String A) (a : A) → value_checked r ≡ ok a → r ≡ ok a
  key_ok (ok x) a h = ground arith
  key_ok (err x) a h = cc

  after_reversal_ok :
      (step : WorkflowStepState) (started s : WorkflowStateSnapshot) (outcome : ToolOutcome)
      (m m' : Machine E)
      → after_reversal ports call id worker now definition actor step started outcome m ≡ (ok s, m')
      → (result : Fields) × (outcome ≡ ToolOutcome.returned result) × (m'.effects ≡ m.effects)
  after_reversal_ok step started s outcome m m' h =
      lift_inv (mapping_of refusal outcome) _ s m m' h (λ result mapped h1.
        bind_inv
          (store (
            transact id (
              complete_compensation_step worker step.step_index result
                (not (any is_effect started.steps)) now)))
          _ s m m' h1
          (λ ended m1 e1 h2. or_raise_inv ended _ _ s m1 m' h2 (λ completed done h3.
            bind_inv
              (record_audit ports completed
                (tool_facts "compensation.completed" (now + 1) actor.user_id step))
              _ s m1 m' h3
              (λ u m2 e2 h4. (
                result,
                mapping_ok refusal outcome result mapped,
                ended_ok m m1 m2 m' completed s
                    (stored_ok ports
                      (transact id (
                        complete_compensation_step worker step.step_index result
                          (not (any is_effect started.steps)) now))
                      ended m m1 e1).1
                    (audit_ok completed
                      (tool_facts "compensation.completed" (now + 1) actor.user_id step) m1 m2 u e2)
                    h4,
              )))))

  unwind_step_ok :
      (step : WorkflowStepState) (m m' : Machine E) (s : WorkflowStateSnapshot)
      → unwind_step ports call id worker now definition actor step m ≡ (ok s, m')
      → IsReversed step m.effects m'.effects
  unfolding unwind_step
  unwind_step_ok step m m' s h =
      lift_inv (unwind_provenance ports call id worker now definition actor step) _ s m m' h
        (λ from proven h1.
          bind_inv (store (transact id (start_compensation_step worker step.step_index now))) _ s m
            m' h1
            (λ begun m1 e1 h2. or_raise_inv begun _ _ s m1 m' h2 (λ started got h3.
              bind_inv
                (record_audit ports started
                  (tool_facts "compensation.started" now actor.user_id step))
                _ s m1 m' h3
                (λ u1 m2 e2 h4.
                  lift_inv
                    (value_checked (
                      build_compensation_idempotency_key ports.python id step.step_index
                        (compensation_of from.tool) from.key))
                    _ s m2 m' h4
                    (λ reverse_key keyed h5.
                      let request =
                        compensation_for ports call id worker now definition actor from
                          reverse_key in
                      bind_inv (call_tool (call actor request))
                        (after_reversal ports call id worker now definition actor step started) s m2
                        m' h5
                        (λ outcome m3 e3 h6.
                          let (result, mapped, kept) =
                            after_reversal_ok step started s outcome m3 m' h6 in
                          record {
                            from = from;
                            reverse_key = reverse_key;
                            result = result;
                            provenance = proven;
                            key = key_ok _ reverse_key keyed;
                            asked =
                                joined (call actor request) m.effects m2.effects m3.effects
                                  m'.effects outcome result
                                  (audit_ok started
                                      (tool_facts "compensation.started" now actor.user_id step) m1
                                      m2 u1 e2
                                    ∙ (stored_ok ports
                                        (transact id
                                          (start_compensation_step worker step.step_index now))
                                        begun m m1 e1).1)
                                  (call_ok (call actor request) outcome m2 m3 e3) mapped kept;
                          }))))))

  chosen :
      (b : Bool) (x y : Exec E WorkflowStateSnapshot) (m m' : Machine E) (s : WorkflowStateSnapshot)
      → b ≡ true
      → (if b then x else y) m ≡ (ok s, m')
      → x m ≡ (ok s, m')
  chosen true x y m m' s e h = h
  chosen false x y m m' s e h = cc

  pub unwind_all_ok :
      (todo : List WorkflowStepState) (latest s : WorkflowStateSnapshot) (m m' : Machine E)
      → unwind_all ports call id worker now definition actor todo latest m ≡ (ok s, m')
      → Reversal todo m.effects m'.effects
  unfolding unwind_all
  unwind_all_ok [] latest s m m' h = ground arith
  unwind_all_ok (step ∷ rest) latest s m m' h = elim (Bool-cases (is_effect step)) [
    | inl effect ↦
        let one = unwind_step ports call id worker now definition actor step in
        let others = unwind_all ports call id worker now definition actor rest in
        bind_inv one others s m m'
          (chosen (is_effect step) (one >>= others) (others latest) m m' s effect h)
          (λ between m1 e1 h1. rw effect (
            m1.effects,
            unwind_step_ok step m m1 between e1,
            unwind_all_ok rest between s m1 m' h1,
          ))
    | inr other ↦ rw other (unwind_all_ok rest latest s m m' (ground arith))
  ]
