-- ===== src/Approvals/PendingRequest/Stored.antt =====
-- What a request that returns has stored.
use harmony_takehome.Prelude.{
  ◌<◌, String, ◌≡◌, refl, sym, ap, ◌∙◌, subst, Bool, true, false, not, ◌||◌, Option, none, some,
  List, [], ◌∷◌, ◌++◌, any, find, map, Result, ok, err, and_then_ok, guard_ok, if◌then◌else◌,
  if-cases, ◌!=◌, string_eq, same_refl, leb, arith,
}
use harmony_takehome.Text.{Python}
use harmony_takehome.Domain.{Instant, Plan, Approval, ApprovalStatus, ScheduledTask, Versions}
use harmony_takehome.Scheduler
use harmony_takehome.Scheduler.{TaskDb, SchedulerError}
use harmony_takehome.Planning.{Money, GateDecision, is_pending_approval}
use harmony_takehome.Planning.Context.{
  AuthorizedContextBundle, EnterWorkflowRecommendation, ScenarioARecommendation, enter_workflow,
  evidence,
}
use harmony_takehome.Planning.BoundedGate.{hashed}
use harmony_takehome.Planning.ScenarioAGate.{evaluate}
use harmony_takehome.Planning.ScenarioAGate.Held.{IsHeld, evaluate-IsHeld}
use harmony_takehome.Workflow.PlanHash.{recompute_plan_hash, hash_payload}
use harmony_takehome.Approvals.Store.{
  ApprovalDb, is_pending, create_pending, load, has_approval_id, clashes,
}
use harmony_takehome.Approvals.Service.{PendingPlanApproval}
use harmony_takehome.Approvals.Escalation.{RoutingError, escalation_task}
use harmony_takehome.Approvals.Routing
use harmony_takehome.Approvals.Routing.{RoutingPorts, Office, scheduled}
use harmony_takehome.Approvals.PendingRequest.{
  RequestError, planned_for, decided_gate, accepted, after_escalation, escalated, stored_pending,
  pending_plan, requested_with, request_pending, proposed_plan,
}

-- The escalation does not touch the approvals.
schedule-approvals :
    (ports : RoutingPorts) (approval : Approval) (run_id : Option String) (office : Office)
    → (Routing.schedule_escalation ports approval run_id office).1.approvals ≡ office.approvals
unfolding Routing.schedule_escalation
schedule-approvals ports approval run_id office =
    if-cases (λ (p : Result RoutingError ScheduledTask × Office). p.1.approvals ≡ office.approvals)
      (is_pending approval.status) _ _
      (λ e. kept (Scheduler.schedule (escalation_task ports.python approval run_id) office.tasks))
      (λ e. refl)
  where
    kept :
        (p : Result SchedulerError (Unit {0}) × TaskDb)
        → (scheduled ports approval run_id office
            (escalation_task ports.python approval run_id)
            p).1.approvals
          ≡ office.approvals
    kept (ok x, tasks) = refl
    kept (err e, tasks) = refl

appended :
    (db : ApprovalDb) (plan : Plan) (approval : Approval)
    → any (clashes plan approval) db ≡ false
    → find (has_approval_id approval.approval_id) (db ++ (plan, approval) ∷ [])
      ≡ some (plan, approval)
appended [] plan approval h = ground (arith, same_refl approval.approval_id)
appended (b ∷ bs) plan approval h = ground (arith, appended bs plan approval)

created :
    (plan : Plan) (approval : Approval) (db db' : ApprovalDb)
    → create_pending plan approval db ≡ (ok tt, db')
    → load approval.approval_id db' ≡ some (plan, record approval { decided_at = none })
unfolding create_pending load
created plan approval db db' h =
    unclashed (any (clashes plan approval) db) (approval.plan_hash != plan.plan_hash) refl h
  where
    answer : Bool → Bool → Result String (Unit {0}) × ApprovalDb
    answer clash wrong =
        if clash
        then (err "duplicate key value violates unique constraint", db)
        else if wrong
        then (err "approval plan hash must match its immutable plan", db)
        else (ok tt, db ++ (plan, record approval { decided_at = none }) ∷ [])

    unclashed :
        (clash wrong : Bool)
        → any (clashes plan approval) db ≡ clash
        → answer clash wrong ≡ (ok tt, db')
        → find (has_approval_id approval.approval_id) db'
          ≡ some (plan, record approval { decided_at = none })
    unclashed true wrong e k = cc
    unclashed false true e k = cc
    unclashed false false e k =
        subst
          (λ d.
            find (has_approval_id approval.approval_id) d
            ≡ some (plan, record approval { decided_at = none }))
          (ap (λ (p : Result String (Unit {0}) × ApprovalDb). p.1) k)
          (appended db plan (record approval { decided_at = none }) e)

escalated_ok :
    (ports : Option RoutingPorts) (run_id : Option String) (pending answer : PendingPlanApproval)
    (office office' : Office)
    → escalated ports run_id pending office ≡ (ok answer, office')
    → (answer ≡ pending) × (office'.approvals ≡ office.approvals)
escalated_ok none run_id pending answer office office' h = (
  ground arith,
  ap (λ (p : Result RequestError PendingPlanApproval × Office). p.1.approvals) (sym h),
)
escalated_ok (some ports) run_id pending answer office office' h =
    let (same, after) =
      returned (Routing.schedule_escalation ports pending.approval run_id office) h in
    (same, after ∙ schedule-approvals ports pending.approval run_id office)
  where
    returned :
        (p : Result RoutingError ScheduledTask × Office)
        → after_escalation pending p ≡ (ok answer, office')
        → (answer ≡ pending) × (office'.approvals ≡ p.1.approvals)
    returned (ok task, o) k = (
      ground arith,
      ap (λ (p : Result RequestError PendingPlanApproval × Office). p.1.approvals) (sym k),
    )
    returned (err e, o) k = cc

module _ (python : Python) (audited : Bool) (ports : Option RoutingPorts)
    (run_id : Option String) where
  stored_ok :
      (ids : List String) (pending answer : PendingPlanApproval) (office office' : Office)
      → stored_pending python audited ports run_id ids pending office
          (create_pending pending.plan pending.approval office.approvals)
        ≡ (ok answer, office')
      → (answer ≡ pending)
        × (load pending.approval.approval_id office'.approvals
            ≡ some (pending.plan, record pending.approval { decided_at = none }))
  unfolding stored_pending
  stored_ok ids pending answer office office' h =
      written (create_pending pending.plan pending.approval office.approvals) refl h
    where
      written :
          (p : Result String (Unit {0}) × ApprovalDb)
          → create_pending pending.plan pending.approval office.approvals ≡ p
          → stored_pending python audited ports run_id ids pending office p ≡ (ok answer, office')
          → (answer ≡ pending)
            × (load pending.approval.approval_id office'.approvals
                ≡ some (pending.plan, record pending.approval { decided_at = none }))
      written (err message, db) e k = cc
      written (ok x, db) e k =
          let (same, kept) = escalated_ok ports run_id pending answer _ office' k in
          (
            same,
            ap (load pending.approval.approval_id) kept
                ∙ created pending.plan pending.approval office.approvals db e,
          )

  -- What a request has stored, and what the gate has held.
  pub record IsRequested (context : AuthorizedContextBundle)
      (recommendation : ScenarioARecommendation) (current : Versions) (approval_id : String)
      (requested expires : Instant) (office' : Office) (answer : PendingPlanApproval) : Type 0 where
    pub proposal : EnterWorkflowRecommendation
    pub recommended : recommendation ≡ enter_workflow proposal
    pub held : IsHeld python context proposal current answer.gate_decision
    pub later : requested < expires
    pub sealed : recompute_plan_hash python answer.plan ≡ answer.plan.plan_hash
    pub bound :
        (answer.approval.plan_id ≡ answer.plan.plan_id)
        × (answer.approval.plan_hash ≡ answer.plan.plan_hash)
    pub waiting : answer.approval.status ≡ ApprovalStatus.pending
    pub same_actor :
        (answer.plan.actor_id ≡ context.actor.user_id)
        × (answer.plan.approver_id ≡ context.actor.user_id)
    pub stored : load approval_id office'.approvals ≡ some (answer.plan, answer.approval)

  decided_gate_ok :
      (p : Result String GateDecision) (d : GateDecision) → decided_gate p ≡ ok d → p ≡ ok d
  decided_gate_ok (ok decision) d h = ap ok (inner decision d h)
    where
      inner :
          (a b : GateDecision) → ◌≡◌ {A = Result RequestError GateDecision} (ok a) (ok b) → a ≡ b
      inner a b k = ground arith
  decided_gate_ok (err message) d h = cc

  accepted_ok :
      (context : AuthorizedContextBundle) (recommendation : ScenarioARecommendation)
      (current : Versions) (requested expires : Instant) (decision : GateDecision)
      (p : EnterWorkflowRecommendation × Money)
      → accepted (evaluate python) context recommendation current requested expires
        ≡ ok (decision, p)
      → (requested < expires)
        × (evaluate python context recommendation current ≡ ok decision)
        × (decision.approval_required ≡ true)
  unfolding accepted
  accepted_ok context recommendation current requested expires decision p h =
      let (later, h1) = guard_ok (leb expires requested) _ _ (decision, p) h in
      let (d, gated, h2) =
        and_then_ok (decided_gate (evaluate python context recommendation current)) _ (decision, p)
          h1 in
      let (q, planned, h3) = and_then_ok (planned_for d recommendation) _ (decision, p) h2 in
      let (needed, h4) =
        guard_ok (not (is_pending_approval d.status) || not d.approval_required) _ _ q planned in
      let same : d ≡ decision = first d decision q p h3 in
      (
        ground arith,
        decided_gate_ok (evaluate python context recommendation current) decision
            (gated ∙ ap ok same),
        subst (λ (x : GateDecision). x.approval_required ≡ true) same
            (required (is_pending_approval d.status) d.approval_required needed),
      )
    where
      first :
          (a b : GateDecision) (x y : EnterWorkflowRecommendation × Money)
          → ◌≡◌ {A = Result RequestError (GateDecision × (EnterWorkflowRecommendation × Money))}
              (ok (a, x))
              (ok (b, y))
          → a ≡ b
      first a b x y k = ground arith

      required : (a b : Bool) → (not a || not b) ≡ false → b ≡ true
      required a b k = ground arith

  -- If `request_pending` returns with the gate of scenario A, then the gate has held the proposal of
  -- the recommendation for approval, the request expires after it is made, the plan carries its
  -- recomputed hash, and the store holds it with the approval that is returned, which is pending,
  -- bound to the plan and its hash; the actor of the context is the actor and the approver of the
  -- plan.
  pub request_pending_ok :
      (plan_id approval_id : String) (context : AuthorizedContextBundle)
      (recommendation : ScenarioARecommendation) (current : Versions) (policy : String)
      (requested expires : Instant) (office office' : Office) (answer : PendingPlanApproval)
      → request_pending python audited
          (evaluate python)
          ports
          plan_id
          approval_id
          context
          recommendation
          current
          policy
          requested
          expires
          run_id
          office
        ≡ (ok answer, office')
      → IsRequested context recommendation current approval_id requested expires office' answer
  unfolding request_pending hashed recompute_plan_hash hash_payload proposed_plan
  request_pending_ok plan_id approval_id context recommendation current policy requested expires
        office office' answer h =
      answered (accepted (evaluate python) context recommendation current requested expires) refl h
    where
      call : PendingPlanApproval → Result RequestError PendingPlanApproval × Office
      call pending =
          stored_pending python audited ports run_id
            (map (λ item. item.evidence_id) (evidence context)) pending office
            (create_pending pending.plan pending.approval office.approvals)

      answered :
          (a : Result RequestError (GateDecision × (EnterWorkflowRecommendation × Money)))
          → accepted (evaluate python) context recommendation current requested expires ≡ a
          → requested_with call
              (pending_plan python plan_id approval_id context policy requested expires)
              office
              a
            ≡ (ok answer, office')
          → IsRequested context recommendation current approval_id requested expires office' answer
      answered (err e) accepted_as k = cc
      answered (ok (decision, (r, value))) accepted_as k =
          let (later, gated, required) =
            accepted_ok context recommendation current requested expires decision (r, value)
              accepted_as in
          let (proposal, recommended, _, held) =
            evaluate-IsHeld python context recommendation current decision gated required in
          let pending =
            pending_plan python plan_id approval_id context policy requested expires decision r
              value in
          let (same, stored) =
            stored_ok (map (λ item. item.evidence_id) (evidence context)) pending answer office
              office' k in
          subst (IsRequested context recommendation current approval_id requested expires office')
            (sym same)
            (record {
              proposal = proposal;
              recommended = recommended;
              held = held;
              later = later;
              sealed = refl;
              bound = (refl, refl);
              waiting = refl;
              same_actor = (refl, refl);
              stored = stored;
            })
