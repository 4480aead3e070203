-- ===== src/Approvals/Service/Decisions.antt =====
-- What a decision that the service returns says.
use harmony_takehome.Prelude.{
  ◌<◌, String, ◌≡◌, refl, sym, ap, ◌∙◌, subst, Bool, true, false, ◌||◌, not, Option, none, some,
  Result, ok, err, and_then_ok, ◌!=◌, string_eq, equal_of, same_refl, leb, arith,
}
use harmony_takehome.Text.{Python}
use harmony_takehome.Domain.{Instant, Plan, Approval, ApprovalStatus, Versions, versions_eqb}
use harmony_takehome.Workflow.PlanHash.{recompute_plan_hash}
use harmony_takehome.Approvals.Store
use harmony_takehome.Approvals.Store.{
  Binding, ApprovalDb, Request, approves, rejects, is_active, load, decidable_by, decided,
  run_requests, has_approval_id, selected_by, update_approvals, returned_row, changed_row, decide,
}
use harmony_takehome.Approvals.Store.Lookup.{find-passes, update-loaded}
use harmony_takehome.Approvals.Service.{
  Desk, approve, reject, approvable, rejectable, decision_checks, refuse_if, or_missing, decided_by,
  finish_decision,
}

refuse_if_ok :
    {A : Type 0} (bad : Bool) (message : String) (rest : Result String A) (a : A)
    → refuse_if bad message rest ≡ ok a
    → (bad ≡ false) × (rest ≡ ok a)
refuse_if_ok true message rest a h = cc
refuse_if_ok false message rest a h = (refl, h)

same_text : (a b : String) → (a != b) ≡ false → a ≡ b
same_text a b h = equal_of a b (ground arith)

-- A decision on this approval of this plan, as the service accepts it.
pub record IsDecidable (python : Python) (hash decider : String) (at : Instant) (plan : Plan)
    (a : Approval) : Type 0 where
  pub active : is_active a.status ≡ true
  pub current_approver : decider ≡ a.approver_id
  pub unexpired : (at < plan.expires_at) × (at < a.expires_at)
  pub expected_hash : hash ≡ plan.plan_hash
  pub bound_hash : a.plan_hash ≡ plan.plan_hash
  pub true_hash : recompute_plan_hash python plan ≡ plan.plan_hash

decision_checks_ok :
    (python : Python) (hash decider : String) (at : Instant) (rest : Result String Binding)
    (plan : Plan) (a : Approval) (b : Binding)
    → decision_checks python hash decider at rest (plan, a) ≡ ok b
    → IsDecidable python hash decider at plan a × (rest ≡ ok b)
unfolding decision_checks
decision_checks_ok python hash decider at rest plan a b h =
    let (h1, k1) = refuse_if_ok (not (is_active a.status)) _ _ b h in
    let (h2, k2) = refuse_if_ok (decider != a.approver_id) _ _ b k1 in
    let (h3, k3) = refuse_if_ok (leb plan.expires_at at || leb a.expires_at at) _ _ b k2 in
    let (h4, k4) =
      refuse_if_ok (hash != plan.plan_hash || a.plan_hash != plan.plan_hash) _ _ b k3 in
    let (h5, k5) = refuse_if_ok (recompute_plan_hash python plan != plan.plan_hash) _ _ b k4 in
    let (same_hash, same_bound) =
      both_false (hash != plan.plan_hash) (a.plan_hash != plan.plan_hash) h4 in
    let (plan_late, late) = both_false (leb plan.expires_at at) (leb a.expires_at at) h3 in
    (
      record {
        active = ground arith;
        current_approver = same_text decider a.approver_id h2;
        unexpired = (ground (arith, plan_late), ground (arith, late));
        expected_hash = same_text hash plan.plan_hash same_hash;
        bound_hash = same_text a.plan_hash plan.plan_hash same_bound;
        true_hash = same_text (recompute_plan_hash python plan) plan.plan_hash h5;
      },
      k5,
    )
  where
    both_false : (a b : Bool) → (a || b) ≡ false → (a ≡ false) × (b ≡ false)
    both_false a b h = ground arith

or_missing_ok : (o : Option Binding) (b : Binding) → or_missing o ≡ ok b → o ≡ some b
or_missing_ok none b h = cc
or_missing_ok (some c) b h = ground arith

rejectable_ok :
    (python : Python) (id hash decider : String) (at : Instant) (db : ApprovalDb) (plan : Plan)
    (a : Approval)
    → rejectable python id hash decider at db ≡ ok (plan, a)
    → (load id db ≡ some (plan, a)) × IsDecidable python hash decider at plan a
unfolding rejectable
rejectable_ok python id hash decider at db plan a h =
    let (b, e, k) =
      and_then_ok (or_missing (load id db))
        (λ binding. decision_checks python hash decider at (ok binding) binding) (plan, a) h in
    let (d, same) = decision_checks_ok python hash decider at (ok b) b.0 b.1 (plan, a) k in
    let here : b ≡ (plan, a) = same_ok b (plan, a) same in
    (
      or_missing_ok (load id db) b e ∙ ap some here,
      subst (λ (x : Binding). IsDecidable python hash decider at x.0 x.1) here d,
    )
  where
    same_ok : (b c : Binding) → ◌≡◌ {A = Result String Binding} (ok b) (ok c) → b ≡ c
    same_ok b c h = ground arith

approvable_ok :
    (python : Python) (id hash decider : String) (current : Versions) (at : Instant)
    (db : ApprovalDb) (plan : Plan) (a : Approval)
    → approvable python id hash decider current at db ≡ ok (plan, a)
    → (load id db ≡ some (plan, a))
      × IsDecidable python hash decider at plan a
      × (versions_eqb current plan.source_versions ≡ true)
unfolding approvable
approvable_ok python id hash decider current at db plan a h =
    let (b, e, k) =
      and_then_ok (or_missing (load id db))
        (λ (binding : Binding).
          decision_checks python hash decider at
            (refuse_if (not (versions_eqb current binding.0.source_versions))
              "plan source evidence is stale" (ok binding))
            binding)
        (plan, a) h in
    let (d, fresh) =
      decision_checks_ok python hash decider at
        (refuse_if (not (versions_eqb current b.0.source_versions)) "plan source evidence is stale"
          (ok b))
        b.0 b.1 (plan, a) k in
    let (current_sources, same) =
      refuse_if_ok (not (versions_eqb current b.0.source_versions)) _ _ (plan, a) fresh in
    let here : b ≡ (plan, a) = same_ok b (plan, a) same in
    (
      or_missing_ok (load id db) b e ∙ ap some here,
      subst (λ (x : Binding). IsDecidable python hash decider at x.0 x.1) here d,
      subst (λ (x : Binding). versions_eqb current x.0.source_versions ≡ true) here (ground arith),
    )
  where
    same_ok : (b c : Binding) → ◌≡◌ {A = Result String Binding} (ok b) (ok c) → b ≡ c
    same_ok b c h = ground arith

-- The parts of a decision that has returned.
decided_by_ok :
    (call : Plan → Result String Approval × Desk) (desk desk' : Desk) (r : Result String Binding)
    (answer : Approval)
    → decided_by call desk r ≡ (ok answer, desk')
    → (plan : Plan) × (a : Approval) × (r ≡ ok (plan, a)) × (call plan ≡ (ok answer, desk'))
decided_by_ok call desk desk' (ok (plan, a)) answer h = (plan, a, refl, h)
decided_by_ok call desk desk' (err message) answer h = cc

finish_decision_ok :
    (audited : Bool) (event_type : String) (run_id : Option String) (decider : String)
    (at : Instant) (plan : Plan) (desk desk' : Desk) (p : Option Approval × ApprovalDb)
    (answer : Approval)
    → finish_decision audited event_type run_id decider at plan desk p ≡ (ok answer, desk')
    → (p.0 ≡ some answer) × (desk'.approvals ≡ p.1)
finish_decision_ok audited event_type run_id decider at plan desk desk' (none, db) answer h = cc
finish_decision_ok audited event_type run_id decider at plan desk desk' (some approval, db) answer
      h =
    (ground arith, sym (ap (λ (q : Result String Approval × Desk). q.1.approvals) h))

may_decide :
    (python : Python) (id hash decider : String) (at : Instant) (db : ApprovalDb) (plan : Plan)
    (a : Approval)
    → load id db ≡ some (plan, a)
    → IsDecidable python hash decider at plan a
    → decidable_by id hash decider at a ≡ true
unfolding load
may_decide python id hash decider at db plan a found d =
    let same_id = find-passes (has_approval_id id) db (plan, a) found in
    rw (d.current_approver, d.expected_hash, sym d.bound_hash)
      (ground
        (arith, same_id, d.active, d.unexpired.1, same_refl a.plan_hash, same_refl a.approver_id))

-- What has been decided: the approval that was loaded could be decided so, and the store now holds
-- the answer, which is that approval with its new status and the time of the decision.
pub record IsDecided (python : Python) (id hash decider : String) (status : ApprovalStatus)
    (at : Instant) (desk desk' : Desk) (plan : Plan) (answer : Approval) : Type 0 where
  pub before : Approval
  pub loaded : load id desk.approvals ≡ some (plan, before)
  pub allowed : IsDecidable python hash decider at plan before
  pub answered : answer ≡ decided status at before
  pub stored : load id desk'.approvals ≡ some (plan, answer)

after_decision :
    (python : Python) (id hash decider : String) (status : ApprovalStatus) (at : Instant)
    (desk desk' : Desk) (plan : Plan) (before answer : Approval)
    → load id desk.approvals ≡ some (plan, before)
    → IsDecidable python hash decider at plan before
    → (decide id hash decider status at desk.approvals).0 ≡ some answer
    → desk'.approvals ≡ (decide id hash decider status at desk.approvals).1
    → IsDecided python id hash decider status at desk desk' plan answer
unfolding decide
after_decision python id hash decider status at desk desk' plan before answer loaded allowed given
      written =
    let may = may_decide python id hash decider at desk.approvals plan before loaded allowed in
    let (returned, stored) =
      update-loaded id (decidable_by id hash decider at) (decided status at) (λ a e. ground arith)
        (λ a. refl) desk.approvals plan before loaded may in
    let same : answer ≡ decided status at before =
      some_inj answer (decided status at before) (sym given ∙ returned) in
    record {
      before = before;
      loaded = loaded;
      allowed = allowed;
      answered = same;
      stored = ap (load id) written ∙ stored ∙ ap (λ x. some (plan, x)) (sym same);
    }
  where
    some_inj : (a b : Approval) → some a ≡ some b → a ≡ b
    some_inj a b h = ground arith

-- If `approve` returns, then the decider is the current approver of an approval that is still
-- pending or rerouted and neither expired nor bound to another plan: the expected hash, the stored
-- one and the one recomputed from the plan are the same; the sources of the plan are unchanged; and
-- the store holds this approval, approved at the time of the decision.
pub approve_ok :
    (python : Python) (audited : Bool) (id hash decider : String) (current : Versions)
    (at : Instant) (run_id : Option String) (desk desk' : Desk) (answer : Approval)
    → approve python audited id hash decider current at run_id desk ≡ (ok answer, desk')
    → (plan : Plan) × IsDecided python id hash decider ApprovalStatus.approved at desk desk' plan
        answer
      × (versions_eqb current plan.source_versions ≡ true)
unfolding approve Store.approve
approve_ok python audited id hash decider current at run_id desk desk' answer h =
    let (plan, before, accepted, finished) =
      decided_by_ok
        (λ plan.
          finish_decision audited "approval.approved" run_id decider at plan desk
            (decide id hash decider ApprovalStatus.approved at desk.approvals))
        desk desk' (approvable python id hash decider current at desk.approvals) answer h in
    let (loaded, allowed, fresh) =
      approvable_ok python id hash decider current at desk.approvals plan before accepted in
    let (given, written) =
      finish_decision_ok audited "approval.approved" run_id decider at plan desk desk'
        (decide id hash decider ApprovalStatus.approved at desk.approvals) answer finished in
    (
      plan,
      after_decision python id hash decider ApprovalStatus.approved at desk desk' plan before answer
          loaded allowed given written,
      fresh,
    )

-- If `reject` returns, then the decider is the current approver of an approval that is still pending
-- or rerouted and neither expired nor bound to another plan, with the expected, the stored and the
-- recomputed hash the same; and the store holds this approval, rejected at the time of the decision.
pub reject_ok :
    (python : Python) (audited : Bool) (id hash decider : String) (at : Instant)
    (run_id : Option String) (desk desk' : Desk) (answer : Approval)
    → reject python audited id hash decider at run_id desk ≡ (ok answer, desk')
    → (plan : Plan) × IsDecided python id hash decider ApprovalStatus.rejected at desk desk' plan
        answer
unfolding reject Store.reject
reject_ok python audited id hash decider at run_id desk desk' answer h =
    let (plan, before, accepted, finished) =
      decided_by_ok
        (λ plan.
          finish_decision audited "approval.rejected" run_id decider at plan desk
            (decide id hash decider ApprovalStatus.rejected at desk.approvals))
        desk desk' (rejectable python id hash decider at desk.approvals) answer h in
    let (loaded, allowed) =
      rejectable_ok python id hash decider at desk.approvals plan before accepted in
    let (given, written) =
      finish_decision_ok audited "approval.rejected" run_id decider at plan desk desk'
        (decide id hash decider ApprovalStatus.rejected at desk.approvals) answer finished in
    (
      plan,
      after_decision python id hash decider ApprovalStatus.rejected at desk desk' plan before answer
          loaded allowed given written,
    )
