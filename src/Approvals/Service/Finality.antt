-- ===== src/Approvals/Service/Finality.antt =====
-- A second decision on one approval.
use harmony_takehome.Prelude.{
  ◌<◌, String, ◌≡◌, refl, ap, ◌∙◌, Bool, false, ◌⊎◌, inl, inr, Option, some, List, ok, err, arith,
}
use harmony_takehome.Text.{Python}
use harmony_takehome.Domain.{Instant, Plan, Approval, Versions}
use harmony_takehome.Approvals.Store.{ApprovalDb, Request, is_active, load, run_requests}
use harmony_takehome.Approvals.Store.Lifecycle.{run_requests-IsLater, rank}
use harmony_takehome.Approvals.Service.{
  Desk, approve, reject, approvable, rejectable, decision_checks,
}
use harmony_takehome.Approvals.Service.Decisions.{approve_ok, reject_ok}

-- A decided approval is found again, exactly as it is.
found_decided :
    (id : String) (rs : List Request) (db : ApprovalDb) (plan : Plan) (a : Approval)
    → load id db ≡ some (plan, a)
    → rank a.status ≡ 2
    → load id (run_requests rs db) ≡ some (plan, a)
found_decided id rs db plan a h k =
    let (b, found, later) = run_requests-IsLater id rs db plan a h in same b found later.settled
  where
    same :
        (b : Approval)
        → load id (run_requests rs db) ≡ some (plan, b)
        → (rank a.status < 2) ⊎ (b ≡ a)
        → load id (run_requests rs db) ≡ some (plan, a)
    same b found (inl open_still) = ground (arith, open_still, k)
    same b found (inr e) = found ∙ ap (λ x. some (plan, x)) e

refused :
    (python : Python) (id hash decider : String) (current : Versions) (at : Instant)
    (db : ApprovalDb) (plan : Plan) (a : Approval)
    → load id db ≡ some (plan, a)
    → rank a.status ≡ 2
    → (approvable python id hash decider current at db
        ≡ err "approval is no longer pending or rerouted")
      × (rejectable python id hash decider at db ≡ err "approval is no longer pending or rerouted")
unfolding approvable rejectable decision_checks
refused python id hash decider current at db plan a h k =
    let closed : is_active a.status ≡ false = ground arith in
    (rw (h, closed) refl, rw (h, closed) refl)

-- Once `approve` or `reject` has returned for an approval, every later `approve` and every later
-- `reject` of it raises, whoever asks and with whatever hash, sources and instant, and whatever
-- requests the store has answered in between, insertions included.
pub decision-final :
    (python : Python) (audited : Bool) (id hash decider hash' decider' : String)
    (current current' : Versions) (at at' : Instant) (run_id run_id' : Option String)
    (rs : List Request) (desk desk' desk'' : Desk) (answer : Approval)
    → (approve python audited id hash decider current at run_id desk ≡ (ok answer, desk'))
      ⊎ (reject python audited id hash decider at run_id desk ≡ (ok answer, desk'))
    → desk''.approvals ≡ run_requests rs desk'.approvals
    → ((approve python audited id hash' decider' current' at' run_id' desk'').0
        ≡ err "approval is no longer pending or rerouted")
      × ((reject python audited id hash' decider' at' run_id' desk'').0
          ≡ err "approval is no longer pending or rerouted")
unfolding approve reject
decision-final python audited id hash decider hash' decider' current current' at at' run_id run_id'
      rs desk desk' desk'' answer given later =
    closed (settled_answer given).0 (settled_answer given).1 (settled_answer given).2
  where
    settled_answer :
        (approve python audited id hash decider current at run_id desk ≡ (ok answer, desk'))
          ⊎ (reject python audited id hash decider at run_id desk ≡ (ok answer, desk'))
        → (plan : Plan) × (load id desk'.approvals ≡ some (plan, answer)) × (rank answer.status ≡ 2)
    settled_answer (inl h) =
        let (plan, d, _) =
          approve_ok python audited id hash decider current at run_id desk desk' answer h in
        (plan, d.stored, ap (λ (a : Approval). rank a.status) d.answered)
    settled_answer (inr h) =
        let (plan, d) = reject_ok python audited id hash decider at run_id desk desk' answer h in
        (plan, d.stored, ap (λ (a : Approval). rank a.status) d.answered)

    closed :
        (plan : Plan)
        → load id desk'.approvals ≡ some (plan, answer)
        → rank answer.status ≡ 2
        → ((approve python audited id hash' decider' current' at' run_id' desk'').0
            ≡ err "approval is no longer pending or rerouted")
          × ((reject python audited id hash' decider' at' run_id' desk'').0
              ≡ err "approval is no longer pending or rerouted")
    closed plan stored done =
        let found =
          ap (load id) later ∙ found_decided id rs desk'.approvals plan answer stored done in
        let (a, r) =
          refused python id hash' decider' current' at' desk''.approvals plan answer found done in
        (rw a refl, rw r refl)
