-- ===== src/Approvals/Routing/Rerouted.antt =====
-- What a rerouting says.
use harmony_takehome.Prelude.{
  ◌<◌, ◌+◌, String, ◌≡◌, refl, sym, ap, ◌∙◌, Bool, true, false, ◌||◌, not, any, Option, none, some,
  Result, ok, err, and_then_ok, if◌then◌else◌, string_eq, equal_of, same_refl, leb, arith,
}
use harmony_takehome.Json
use harmony_takehome.Json.{Json}
use harmony_takehome.Domain.{Instant, Plan, Approval, ActorContext, ScheduledTask, date_of}
use harmony_takehome.Workflow.Tools.{in_scopes}
use harmony_takehome.Approvals.Store
use harmony_takehome.Approvals.Store.{
  Binding, ApprovalDb, is_pending, transferred, reroutable, has_approval_id, selected_by,
  returned_row, changed_row,
}
use harmony_takehome.Approvals.Store.Lookup.{find-passes, update-loaded}
use harmony_takehome.Approvals.Escalation.{
  RoutingError, ApprovalRoutingOutcome, rerouted, not_pending, expired, stale_task,
  original_approver_available, ApprovalRoutingResult, currency_within, can_decide, is_out_of_office,
  stale_binding, validate_claimed_escalation, required_payload_text, payload_text_of, audit_run_id,
}
use harmony_takehome.Approvals.Routing.{
  RoutingPorts, Office, handle_claimed_task, route_bound, route_found, route_from, route_actor,
  route_backup, route_to, task_binding, stays, swapped, day_query, fired,
}

module _ (ports : RoutingPorts) (task : ScheduledTask) (at : Instant) where
  -- An approval as it has been rerouted to a backup.
  pub record IsRerouted (id hash : String) (office office' : Office)
      (result : ApprovalRoutingResult) (plan : Plan) (before : Approval) : Type 0 where
    pub original : ActorContext
    pub backup : String
    pub actor : ActorContext
    pub valid : validate_claimed_escalation task at ≡ ok tt
    pub approval_named : Json.get "approval_id" task.payload ≡ some (Json.text id)
    pub hash_named : Json.get "plan_hash" task.payload ≡ some (Json.text hash)
    pub approver_named :
        Json.get "original_approver_id" task.payload ≡ some (Json.text before.approver_id)
    pub loaded : Store.load id office.approvals ≡ some (plan, before)
    pub pending : is_pending before.status ≡ true
    pub bound : (before.plan_hash ≡ hash) × (plan.plan_hash ≡ hash)
    pub unexpired : (at < before.expires_at) × (at < plan.expires_at)
    pub known : ports.actor_for before.approver_id ≡ some original
    pub named : original.backup_approver_id ≡ some backup
    pub registered : ports.actor_for backup ≡ some actor
    pub scoped : in_scopes actor.scopes "approval:decide" ≡ true
    pub capable : can_decide ports.python actor plan ≡ ok true
    pub away :
        any
          (is_out_of_office (date_of task.due_at + 1))
          (ports.calendar original (day_query ports (date_of task.due_at + 1)))
        ≡ true
    pub answered : result.approval ≡ some (transferred backup before)
    pub stored : Store.load id office'.approvals ≡ some (plan, transferred backup before)

  -- What the task says.
  abbrev Named : String → String → String → Type 0
  Named id original_id hash =
      (validate_claimed_escalation task at ≡ ok tt)
      × (Json.get "approval_id" task.payload ≡ some (Json.text id))
      × (Json.get "original_approver_id" task.payload ≡ some (Json.text original_id))
      × (Json.get "plan_hash" task.payload ≡ some (Json.text hash))

  payload_named :
      (name value : String)
      → required_payload_text name task ≡ ok value
      → Json.get name task.payload ≡ some (Json.text value)
  unfolding required_payload_text
  payload_named name value h = text_of_ok (Json.get name task.payload) h
    where
      text_of_ok : (o : Option Json) → payload_text_of o ≡ ok value → o ≡ some (Json.text value)
      text_of_ok none k = cc
      text_of_ok (some (Json.text text)) k = ground arith
      text_of_ok (some _) k = ground arith

  binding-Named :
      (id original_id hash : String) (run : Option String)
      → task_binding ports task at ≡ ok (id, original_id, hash, run)
      → Named id original_id hash
  unfolding task_binding
  binding-Named id original_id hash run h =
      let (_, valid, h1) = and_then_ok (validate_claimed_escalation task at) _ _ h in
      let (i, is_id, h2) = and_then_ok (required_payload_text "approval_id" task) _ _ h1 in
      let (o, is_original, h3) =
        and_then_ok (required_payload_text "original_approver_id" task) _ _ h2 in
      let (p, is_hash, h4) = and_then_ok (required_payload_text "plan_hash" task) _ _ h3 in
      let (r, is_run, h5) = and_then_ok (audit_run_id task) _ _ h4 in
      (
        valid,
        payload_named "approval_id" id (is_id ∙ ground arith),
        payload_named "original_approver_id" original_id (is_original ∙ ground arith),
        payload_named "plan_hash" hash (is_hash ∙ ground arith),
      )

  -- An outcome that is not the rerouting.
  not_rerouted :
      (outcome : ApprovalRoutingOutcome) (office office' : Office) (result : ApprovalRoutingResult)
      → stays ports outcome office ≡ (ok result, office')
      → result.outcome ≡ rerouted
      → outcome ≡ rerouted
  not_rerouted outcome office office' result h k = ground (arith, k)

  swapped_ok :
      (plan : Plan) (backup : String) (run : Option String) (office office' : Office)
      (p : Option Approval × ApprovalDb) (result : ApprovalRoutingResult)
      → swapped ports plan backup run at office p ≡ (ok result, office')
      → result.outcome ≡ rerouted
      → (p.0 ≡ result.approval) × (office'.approvals ≡ p.1)
  swapped_ok plan backup run office office' (none, db) result h k =
      let wrong = not_rerouted _ _ office' result h k in cc
  swapped_ok plan backup run office office' (some approval, db) result h k = (
    ground (arith),
    sym (ap (λ (q : Result RoutingError ApprovalRoutingResult × Office). q.1.approvals) h),
  )

  -- The facts that only the last part knows.
  record Routed (plan : Plan) (id hash original_id : String) (office office' : Office)
      (result : ApprovalRoutingResult) (original : ActorContext) (backup : String)
      (capability : Result RoutingError Bool) : Type 0 where
    pub capable : capability ≡ ok true
    pub away :
        any
          (is_out_of_office (date_of task.due_at + 1))
          (ports.calendar original (day_query ports (date_of task.due_at + 1)))
        ≡ true
    pub answered :
        (Store.reroute id hash original_id backup at office.approvals).0 ≡ result.approval
    pub written :
        office'.approvals ≡ (Store.reroute id hash original_id backup at office.approvals).1

  route_to_ok :
      (plan : Plan) (id hash original_id : String) (run : Option String) (original : ActorContext)
      (backup : String) (capability : Result RoutingError Bool) (office office' : Office)
      (result : ApprovalRoutingResult)
      → route_to ports task plan id hash original_id run at original backup capability office
        ≡ (ok result, office')
      → result.outcome ≡ rerouted
      → Routed plan id hash original_id office office' result original backup capability
  unfolding route_to
  route_to_ok plan id hash original_id run original backup (err e) office office' result h k = cc
  route_to_ok plan id hash original_id run original backup (ok false) office office' result h k =
      let wrong = not_rerouted _ office office' result h k in cc
  route_to_ok plan id hash original_id run original backup (ok true) office office' result h k =
      found
        (any (is_out_of_office (date_of task.due_at + 1))
          (ports.calendar original (day_query ports (date_of task.due_at + 1))))
        refl h
    where
      found :
          (b : Bool)
          → any
              (is_out_of_office (date_of task.due_at + 1))
              (ports.calendar original (day_query ports (date_of task.due_at + 1)))
            ≡ b
          → (if b
              then swapped ports plan backup run at office
                  (Store.reroute id hash original_id backup at office.approvals)
              else stays ports original_approver_available office)
            ≡ (ok result, office')
          → Routed plan id hash original_id office office' result original backup (ok true)
      found true e h' =
          let (given, written) =
            swapped_ok plan backup run office office'
              (Store.reroute id hash original_id backup at office.approvals) result h' k in
          record { capable = refl; away = e; answered = given; written = written }
      found false e h' = let wrong = not_rerouted _ office office' result h' k in cc

  -- The approval is found, and is the one that the task was made for.
  routed :
      (id hash original_id : String) (plan : Plan) (before : Approval) (office office' : Office)
      (result : ApprovalRoutingResult) (original : ActorContext) (backup : String)
      (actor : ActorContext)
      → Named id original_id hash
      → Store.load id office.approvals ≡ some (plan, before)
      → is_pending before.status ≡ true
      → stale_binding hash original_id plan before ≡ false
      → (leb before.expires_at at || leb plan.expires_at at) ≡ false
      → ports.actor_for original_id ≡ some original
      → original.backup_approver_id ≡ some backup
      → ports.actor_for backup ≡ some actor
      → Routed plan id hash original_id office office' result original backup
          (can_decide ports.python actor plan)
      → IsRerouted id hash office office' result plan before
  unfolding Store.load Store.reroute can_decide
  routed id hash original_id plan before office office' result original backup actor task_named
        loaded pending current unexpired known named registered r =
      let (same_approver, same_hashes) = current_binding current in
      let may = may_reroute same_approver same_hashes in
      let (returned, stored) =
        update-loaded id (reroutable id hash original_id at) (transferred backup)
          (λ a e. ground arith) (λ a. refl) office.approvals plan before loaded may in
      record {
        original = original;
        backup = backup;
        actor = actor;
        valid = task_named.0;
        approval_named = task_named.1;
        hash_named = task_named.3;
        approver_named =
            task_named.2 ∙ ap (λ original. some (Json.text original)) (sym same_approver);
        loaded = loaded;
        pending = pending;
        bound = same_hashes;
        unexpired = (ground arith, ground arith);
        known = ap ports.actor_for same_approver ∙ known;
        named = named;
        registered = registered;
        scoped = scoped (in_scopes actor.scopes "approval:decide") r.capable;
        capable = r.capable;
        away = r.away;
        answered = sym r.answered ∙ returned;
        stored = ap (Store.load id) r.written ∙ stored;
      }
    where
      current_binding :
          stale_binding hash original_id plan before ≡ false
          → (before.approver_id ≡ original_id)
            × ((before.plan_hash ≡ hash) × (plan.plan_hash ≡ hash))
      current_binding h = (
        equal_of before.approver_id original_id (ground arith),
        (
          equal_of before.plan_hash hash (ground arith),
          equal_of plan.plan_hash hash (ground arith),
        ),
      )

      may_reroute :
          before.approver_id ≡ original_id
          → (before.plan_hash ≡ hash) × (plan.plan_hash ≡ hash)
          → reroutable id hash original_id at before ≡ true
      may_reroute a h =
          let same_id = find-passes (has_approval_id id) office.approvals (plan, before) loaded in
          rw (sym a, sym h.0)
            (ground (
              arith,
              same_id,
              pending,
              unexpired,
              same_refl before.plan_hash,
              same_refl before.approver_id,
            ))

      scoped :
          (b : Bool)
          → (if b
              then currency_within ports.python actor plan
                  (Json.get "estimated_value_currency" plan.parameters)
              else ok false)
            ≡ ok true
          → b ≡ true
      scoped true h = refl
      scoped false h = cc

  route_from_ok :
      (id hash original_id : String) (run : Option String) (plan : Plan) (before : Approval)
      (office office' : Office) (result : ApprovalRoutingResult) (o : Option ActorContext)
      → Named id original_id hash
      → ports.actor_for original_id ≡ o
      → Store.load id office.approvals ≡ some (plan, before)
      → is_pending before.status ≡ true
      → stale_binding hash original_id plan before ≡ false
      → (leb before.expires_at at || leb plan.expires_at at) ≡ false
      → route_from ports task plan id hash original_id run at o office ≡ (ok result, office')
      → result.outcome ≡ rerouted
      → IsRerouted id hash office office' result plan before
  unfolding route_from
  route_from_ok id hash original_id run plan before office office' result none task_named known
        loaded pending current unexpired h k =
      cc
  route_from_ok id hash original_id run plan before office office' result (some original) task_named
        known loaded pending current unexpired h k =
      backup_ok original.backup_approver_id refl h
    where
      actor_ok :
          (backup : String) (o : Option ActorContext)
          → original.backup_approver_id ≡ some backup
          → ports.actor_for backup ≡ o
          → route_actor ports task plan id hash original_id run at original backup o office
            ≡ (ok result, office')
          → IsRerouted id hash office office' result plan before
      actor_ok backup none named registered h' = cc
      actor_ok backup (some actor) named registered h' =
          routed id hash original_id plan before office office' result original backup actor
            task_named loaded pending current unexpired known named registered
            (route_to_ok plan id hash original_id run original backup
              (can_decide ports.python actor plan) office office' result h' k)

      backup_ok :
          (o : Option String)
          → original.backup_approver_id ≡ o
          → route_backup ports task plan id hash original_id run at original o office
            ≡ (ok result, office')
          → IsRerouted id hash office office' result plan before
      backup_ok none named h' = let wrong = not_rerouted _ office office' result h' k in cc
      backup_ok (some backup) named h' = actor_ok backup (ports.actor_for backup) named refl h'

  -- A guard that ends with another outcome did not hold.
  guarded :
      {C : Type 0} (bad : Bool) (outcome : ApprovalRoutingOutcome)
      (rest : Result RoutingError ApprovalRoutingResult × Office) (office office' : Office)
      (result : ApprovalRoutingResult)
      → (outcome ≡ rerouted → C)
      → (if bad then stays ports outcome office else rest) ≡ (ok result, office')
      → result.outcome ≡ rerouted
      → (bad ≡ false → rest ≡ (ok result, office') → C)
      → C
  guarded true outcome rest office office' result other h k next =
      other (not_rerouted outcome office office' result h k)
  guarded false outcome rest office office' result other h k next = next refl h

  route_found_ok :
      (id original_id hash : String) (run : Option String) (o : Option Binding)
      (office office' : Office) (result : ApprovalRoutingResult)
      → Named id original_id hash
      → Store.load id office.approvals ≡ o
      → route_found ports task id original_id hash run at o office ≡ (ok result, office')
      → result.outcome ≡ rerouted
      → (plan : Plan) × (before : Approval) × IsRerouted id hash office office' result plan before
  unfolding route_found
  route_found_ok id original_id hash run none office office' result task_named loaded h k =
      let wrong = not_rerouted _ office office' result h k in cc
  route_found_ok id original_id hash run (some (plan, before)) office office' result task_named
        loaded h k =
      guarded (not (is_pending before.status)) not_pending _ office office' result (λ e. cc) h k
        (λ pending h1.
          guarded (stale_binding hash original_id plan before) stale_task _ office office' result
            (λ e. cc) h1 k
            (λ current h2.
              guarded (leb before.expires_at at || leb plan.expires_at at) expired _ office office'
                result (λ e. cc) h2 k
                (λ unexpired h3. (
                  plan,
                  before,
                  route_from_ok id hash original_id run plan before office office' result
                      (ports.actor_for original_id) task_named refl loaded (ground arith) current
                      unexpired h3 k,
                ))))

  -- If a claimed escalation task is handled with the outcome that its approval has been rerouted,
  -- then the task is valid and due; the approval that its payload names was stored, pending,
  -- unexpired like its plan, and with its plan bound to the hash in the payload; its approver, whom
  -- the payload names too, is known to be out of office on the day after the task was due, and
  -- names a backup who holds the scope to decide and whose limit admits the plan; and the store now
  -- holds the approval rerouted to this backup.
  pub handle_claimed_task-rerouted :
      (office office' : Office) (result : ApprovalRoutingResult)
      → handle_claimed_task ports task at office ≡ (ok result, office')
      → result.outcome ≡ rerouted
      → (id : String) × (hash : String) × (plan : Plan) × (before : Approval) × IsRerouted id hash
          office office' result plan before
  unfolding handle_claimed_task route_bound
  handle_claimed_task-rerouted office office' result h k =
      bound_ok (task_binding ports task at) refl h
    where
      moved :
          (id hash original_id : String) (run : Option String) (plan : Plan) (before : Approval)
          → IsRerouted id hash
              (fired ports task at original_id hash run office)
              office'
              result
              plan
              before
          → IsRerouted id hash office office' result plan before
      moved id hash original_id run plan before r = record {
        original = r.original;
        backup = r.backup;
        actor = r.actor;
        valid = r.valid;
        approval_named = r.approval_named;
        hash_named = r.hash_named;
        approver_named = r.approver_named;
        loaded = r.loaded;
        pending = r.pending;
        bound = r.bound;
        unexpired = r.unexpired;
        known = r.known;
        named = r.named;
        registered = r.registered;
        scoped = r.scoped;
        capable = r.capable;
        away = r.away;
        answered = r.answered;
        stored = r.stored;
      }

      bound_ok :
          (b : Result RoutingError (String × String × String × Option String))
          → task_binding ports task at ≡ b
          → route_bound ports task at b office ≡ (ok result, office')
          → (id : String) × (hash : String) × (plan : Plan) × (before : Approval) × IsRerouted id
              hash office office' result plan before
      bound_ok (err e) is_bound h' = cc
      bound_ok (ok (id, original_id, hash, run)) is_bound h' =
          let (plan, before, r) =
            route_found_ok id original_id hash run (Store.load id office.approvals)
              (fired ports task at original_id hash run office) office' result
              (binding-Named id original_id hash run is_bound) refl h' k in
          (id, hash, plan, before, moved id hash original_id run plan before r)
