-- ===== src/ArrivalCheck/Resolution.antt =====
-- What the outcomes of an arrival check say.
use harmony_takehome.Prelude.{
  String, ◌≡◌, refl, sym, ap, ◌∙◌, subst, Bool, true, false, Option, none, some, Result, ok, err,
  and_then_ok, if◌then◌else◌, arith, string_eq,
}
use harmony_takehome.Domain.{Instant, ActorContext, AttentionItem, Evidence, ScheduledTask}
use harmony_takehome.Domain.Attention.{AttentionStatus}
use harmony_takehome.Json
use harmony_takehome.Json.{Json}
use harmony_takehome.Attention
use harmony_takehome.Attention.{
  AttentionDb, AttentionError, AttentionRegistration, is_terminal, moved, has_id,
}
use harmony_takehome.Attention.Transitions.{transition_ok, loaded_id}
use harmony_takehome.ArrivalCheck.{
  ArrivalPorts, ArrivalError, ArrivalCheckOutcome, resolved, reopened, ArrivalCheckResult, Station,
  handle_claimed_task, check_bound, check_attention, check_order, check_receipt, settled,
  followed_up, receipt_of, current_purchase_order, has_full_receipt, order_query, task_binding,
  fired, validate_claimed_arrival_task, required_payload_text, payload_text_of, effective_run_id,
}

module _ (ports : ArrivalPorts) (new_id event_id : String) (task : ScheduledTask)
    (at : Instant) where
  -- A receipt that was found for the order of an item that was still open.
  pub record IsReceived (station station' : Station) (result : ArrivalCheckResult)
      (before : AttentionItem) : Type 0 where
    pub actor_id : String
    pub actor : ActorContext
    pub order_id : String
    pub order : Evidence
    pub valid : validate_claimed_arrival_task task at ≡ ok tt
    pub item_named :
        Json.get "original_attention_id" task.payload ≡ some (Json.text before.attention_id)
    pub actor_named : Json.get "actor_id" task.payload ≡ some (Json.text actor_id)
    pub order_named : Json.get "purchase_order_id" task.payload ≡ some (Json.text order_id)
    pub registered : ports.actor_for actor_id ≡ some actor
    pub loaded : Attention.load before.attention_id station.attention ≡ some before
    pub unsettled : is_terminal before.status ≡ false
    pub current :
        current_purchase_order (ports.erp actor (order_query ports order_id)) order_id ≡ ok order
    pub full : has_full_receipt ports.python order ≡ ok true
    pub answered : result.attention ≡ some (moved AttentionStatus.resolved at before)
    pub stored :
        Attention.load before.attention_id station'.attention
        ≡ some (moved AttentionStatus.resolved at before)

  -- What the task says.
  abbrev Named : String → String → String → Type 0
  Named order_id attention_id actor_id =
      (validate_claimed_arrival_task task at ≡ ok tt)
      × (Json.get "purchase_order_id" task.payload ≡ some (Json.text order_id))
      × (Json.get "original_attention_id" task.payload ≡ some (Json.text attention_id))
      × (Json.get "actor_id" task.payload ≡ some (Json.text actor_id))

  payload_named :
      (name value : String)
      → required_payload_text name task ≡ ok value
      → Json.get name task.payload ≡ some (Json.text value)
  unfolding required_payload_text
  payload_named name value h = text_of_ok (Json.get name task.payload) h
    where
      text_of_ok : (o : Option Json) → payload_text_of o ≡ ok value → o ≡ some (Json.text value)
      text_of_ok none k = cc
      text_of_ok (some (Json.text text)) k = ground arith
      text_of_ok (some _) k = ground arith

  binding-Named :
      (run_id : Option String) (order_id attention_id actor_id run : String)
      → task_binding ports task at run_id ≡ ok (order_id, attention_id, actor_id, run)
      → Named order_id attention_id actor_id
  unfolding task_binding
  binding-Named run_id order_id attention_id actor_id run h =
      let (_, valid, h1) = and_then_ok (validate_claimed_arrival_task task at) _ _ h in
      let (o, is_order, h2) = and_then_ok (required_payload_text "purchase_order_id" task) _ _ h1 in
      let (i, is_item, h3) =
        and_then_ok (required_payload_text "original_attention_id" task) _ _ h2 in
      let (a, is_actor, h4) = and_then_ok (required_payload_text "actor_id" task) _ _ h3 in
      let (r, is_run, h5) = and_then_ok (effective_run_id task run_id) _ _ h4 in
      (
        valid,
        payload_named "purchase_order_id" order_id (is_order ∙ ground arith),
        payload_named "original_attention_id" attention_id (is_item ∙ ground arith),
        payload_named "actor_id" actor_id (is_actor ∙ ground arith),
      )

  settled_ok :
      (original : AttentionItem) (station station' : Station) (result : ArrivalCheckResult)
      (p : Result AttentionError AttentionItem × AttentionDb)
      → settled ports original station p ≡ (ok result, station')
      → (item : AttentionItem) × (p ≡ (ok item, station'.attention))
        × (result.attention ≡ some item)
  settled_ok original station station' result (ok item, db) h = (
    item,
    ap (λ d. (ok item, d))
        (ap (λ (q : Result ArrivalError ArrivalCheckResult × Station). q.1.attention) h),
    ground arith,
  )
  settled_ok original station station' result (err e, db) h = cc

  -- The outcome of a follow-up is never the resolution.
  not_resolved :
      (original : AttentionItem) (station station' : Station) (result : ArrivalCheckResult)
      (p : Result AttentionError AttentionRegistration × AttentionDb)
      → followed_up ports original station p ≡ (ok result, station')
      → result.outcome ≡ reopened
  not_resolved original station station' result (ok r, db) h = ground arith
  not_resolved original station station' result (err e, db) h = cc

  receipt_ok :
      (actor_id : String) (actor : ActorContext) (order_id run : String) (before : AttentionItem)
      (station station' : Station) (result : ArrivalCheckResult) (o : Result ArrivalError Evidence)
      → Named order_id before.attention_id actor_id
      → ports.actor_for actor_id ≡ some actor
      → Attention.load before.attention_id station.attention ≡ some before
      → is_terminal before.status ≡ false
      → current_purchase_order (ports.erp actor (order_query ports order_id)) order_id ≡ o
      → check_receipt ports new_id event_id before run at o (receipt_of ports o) station
        ≡ (ok result, station')
      → result.outcome ≡ resolved
      → IsReceived station station' result before
  unfolding check_receipt
  receipt_ok actor_id actor order_id run before station station' result (err e) named registered
        loaded unsettled current h k =
      cc
  receipt_ok actor_id actor order_id run before station station' result (ok order) named registered
        loaded unsettled current h k =
      decided (has_full_receipt ports.python order) refl h
    where
      decided :
          (r : Result ArrivalError Bool)
          → has_full_receipt ports.python order ≡ r
          → check_receipt ports new_id event_id before run at (ok order) r station
            ≡ (ok result, station')
          → IsReceived station station' result before
      decided (err e) full h' = cc
      decided (ok false) full h' =
          let other =
            not_resolved before station station' result
              (Attention.register_arrival_followup ports.python new_id event_id before order run at
                station.attention)
              h' in
          cc
      decided (ok true) full h' =
          let (item, moved_on, answer) =
            settled_ok before station station' result
              (Attention.transition ports.python event_id before AttentionStatus.resolved run at
                station.attention)
              h' in
          let (same, stored) =
            transition_ok ports.python event_id before AttentionStatus.resolved run at
              station.attention station'.attention item loaded moved_on in
          record {
            actor_id = actor_id;
            actor = actor;
            valid = named.0;
            item_named = named.2;
            actor_named = named.3;
            order_named = named.1;
            registered = registered;
            order_id = order_id;
            order = order;
            loaded = loaded;
            unsettled = unsettled;
            current = current;
            full = full;
            answered = answer ∙ ap some same;
            stored = stored;
          }

  attention_ok :
      (order_id actor_id run : String) (id : String) (o : Option AttentionItem)
      (station station' : Station) (result : ArrivalCheckResult)
      → Named order_id id actor_id
      → Attention.load id station.attention ≡ o
      → check_attention ports new_id event_id order_id actor_id run at o station
        ≡ (ok result, station')
      → result.outcome ≡ resolved
      → (before : AttentionItem) × (before.attention_id ≡ id)
        × IsReceived station station' result before
  unfolding check_attention check_order
  attention_ok order_id actor_id run id none station station' result named loaded h k =
      ground (arith, k)
  attention_ok order_id actor_id run id (some before) station station' result named loaded h k =
      open_item (is_terminal before.status) refl h
    where
      same_id : before.attention_id ≡ id
      same_id = loaded_id id station.attention before loaded

      known :
          (o : Option ActorContext)
          → ports.actor_for actor_id ≡ o
          → is_terminal before.status ≡ false
          → check_order ports new_id event_id order_id before run at o station
            ≡ (ok result, station')
          → (before : AttentionItem) × (before.attention_id ≡ id)
            × IsReceived station station' result before
      known none registered unsettled h' = cc
      known (some actor) registered unsettled h' = (
        before,
        same_id,
        receipt_ok actor_id actor order_id run before station station' result
            (current_purchase_order (ports.erp actor (order_query ports order_id)) order_id)
            (subst (λ i. Named order_id i actor_id) (sym same_id) named) registered
            (subst (λ i. Attention.load i station.attention ≡ some before) (sym same_id) loaded)
            unsettled refl h' k,
      )

      open_item :
          (b : Bool)
          → is_terminal before.status ≡ b
          → (if b
              then (
                ok (record {
                  outcome = ArrivalCheckOutcome.not_actionable;
                  attention = some before;
                  followup = none;
                }),
                station,
              )
              else check_order ports new_id event_id order_id before run at
                  (ports.actor_for actor_id)
                  station)
            ≡ (ok result, station')
          → (before : AttentionItem) × (before.attention_id ≡ id)
            × IsReceived station station' result before
      open_item true unsettled h' = ground (arith, k)
      open_item false unsettled h' = known (ports.actor_for actor_id) refl unsettled h'

  -- If a claimed arrival check is handled with the outcome that its attention item is resolved, then
  -- the task is valid and due; the item that its payload names was stored and neither resolved nor
  -- cancelled; the ERP shows the actor of the payload exactly one current record of the purchase
  -- order of the payload, with an ordered quantity that is not zero and is received in full; and
  -- the store now holds the item, resolved at the time of the check.
  pub handle_claimed_task-resolved :
      (run_id : Option String) (station station' : Station) (result : ArrivalCheckResult)
      → handle_claimed_task ports new_id event_id task at run_id station ≡ (ok result, station')
      → result.outcome ≡ resolved
      → (before : AttentionItem) × IsReceived station station' result before
  unfolding handle_claimed_task check_bound
  handle_claimed_task-resolved run_id station station' result h k =
      bound_ok (task_binding ports task at run_id) refl h
    where
      moved_station :
          (attention_id actor_id run : String) (before : AttentionItem)
          → IsReceived
              (fired ports task at attention_id actor_id run station)
              station'
              result
              before
          → IsReceived station station' result before
      moved_station attention_id actor_id run before r = record {
        actor_id = r.actor_id;
        actor = r.actor;
        valid = r.valid;
        item_named = r.item_named;
        actor_named = r.actor_named;
        order_named = r.order_named;
        registered = r.registered;
        order_id = r.order_id;
        order = r.order;
        loaded = r.loaded;
        unsettled = r.unsettled;
        current = r.current;
        full = r.full;
        answered = r.answered;
        stored = r.stored;
      }

      bound_ok :
          (b : Result ArrivalError (String × String × String × String))
          → task_binding ports task at run_id ≡ b
          → check_bound ports new_id event_id task at b station ≡ (ok result, station')
          → (before : AttentionItem) × IsReceived station station' result before
      bound_ok (err e) is_bound h' = cc
      bound_ok (ok (order_id, attention_id, actor_id, run)) is_bound h' =
          let (before, same_id, r) =
            attention_ok order_id actor_id run attention_id
              (Attention.load attention_id station.attention)
              (fired ports task at attention_id actor_id run station) station' result
              (binding-Named run_id order_id attention_id actor_id run is_bound) refl h' k in
          (before, moved_station attention_id actor_id run before r)
