-- ===== src/Planning/BoundedGate/Authority.antt =====
-- What the gate over bounded plans lets pass.
use harmony_takehome.Prelude.{
  ◌≡◌, refl, sym, subst, Bool, true, false, none, some, List, [], ◌∷◌, ◌++◌, if◌then◌else◌, arith,
  All, ◌↔◌,
}
use harmony_takehome.Domain.{ActorContext, Versions, versions_eqb}
use harmony_takehome.Workflow.Tools.{ToolInput, authorized}
use harmony_takehome.Planning.{GateStatus, GateDenialReason, GateDecision, decision_for}
use harmony_takehome.Planning.BoundedGate.{evaluate, scope_reasons, is_nil}

no_reasons :
    (actor : ActorContext) (calls : List ToolInput)
    → scope_reasons actor calls ≡ []
    → All (λ call. authorized actor call.model ≡ true) calls
unfolding scope_reasons
no_reasons actor [] h = tt
no_reasons actor (call ∷ calls) h = ground (arith, no_reasons actor calls)

authorized_reasons :
    (actor : ActorContext) (calls : List ToolInput)
    → All (λ call. authorized actor call.model ≡ true) calls
    → scope_reasons actor calls ≡ []
unfolding scope_reasons
authorized_reasons actor [] h = refl
authorized_reasons actor (call ∷ calls) h = rw h.0 (authorized_reasons actor calls h.1)

pending_reasons :
    (reasons : List GateDenialReason)
    → (decision_for reasons none none).status ≡ GateStatus.pending_approval
    → reasons ≡ []
unfolding decision_for
pending_reasons [] h = refl
pending_reasons (r ∷ rs) h = cc

pending_as :
    (reasons : List GateDenialReason) (decision : GateDecision)
    → some (decision_for reasons none none) ≡ some decision
    → decision.status ≡ GateStatus.pending_approval
    → reasons ≡ []
pending_as reasons decision h k =
    let same : decision_for reasons none none ≡ decision = ground arith in
    pending_reasons reasons
      (subst (λ (d : GateDecision). d.status ≡ GateStatus.pending_approval) (sym same) k)

pending_none : (decision_for [] none none).status ≡ GateStatus.pending_approval
unfolding decision_for
pending_none = refl

-- The gate over a bounded plan holds it for approval exactly if there is at least one call, the
-- sources are those that the plan was made from, and the actor has every scope that the tool of
-- every call requires.
pub evaluate-pending :
    (actor : ActorContext) (calls : List ToolInput) (versions current : Versions)
    → ((decision : GateDecision) × (evaluate actor calls versions current ≡ some decision)
        × (decision.status ≡ GateStatus.pending_approval))
      ↔ ((is_nil calls ≡ false)
          × (versions_eqb versions current ≡ true)
          × All (λ call. authorized actor call.model ≡ true) calls)
unfolding evaluate
evaluate-pending actor calls versions current = (forth, back)
  where
    reasons : Bool → List GateDenialReason
    reasons fresh =
        (if fresh then [] else GateDenialReason.stale_source_evidence ∷ [])
        ++ scope_reasons actor calls

    given :
        (empty fresh : Bool) (decision : GateDecision)
        → (if empty then none else some (decision_for (reasons fresh) none none)) ≡ some decision
        → decision.status ≡ GateStatus.pending_approval
        → (empty ≡ false) × (fresh ≡ true) × All (λ call. authorized actor call.model ≡ true) calls
    given true fresh decision h k = cc
    given false true decision h k =
        (refl, refl, no_reasons actor calls (pending_as (scope_reasons actor calls) decision h k))
    given false false decision h k =
        let wrong =
          pending_as (GateDenialReason.stale_source_evidence ∷ scope_reasons actor calls) decision h
            k in
        cc

    forth :
        (decision : GateDecision) × (evaluate actor calls versions current ≡ some decision)
          × (decision.status ≡ GateStatus.pending_approval)
        → (is_nil calls ≡ false)
          × (versions_eqb versions current ≡ true)
          × All (λ call. authorized actor call.model ≡ true) calls
    forth (decision, h, k) = given (is_nil calls) (versions_eqb versions current) decision h k

    back :
        (is_nil calls ≡ false)
          × (versions_eqb versions current ≡ true)
          × All (λ call. authorized actor call.model ≡ true) calls
        → (decision : GateDecision) × (evaluate actor calls versions current ≡ some decision)
          × (decision.status ≡ GateStatus.pending_approval)
    back (some_call, fresh, held) = (
      decision_for [] none none,
      rw (some_call, fresh, authorized_reasons actor calls held) refl,
      pending_none,
    )
