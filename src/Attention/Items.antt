-- ===== src/Attention/Items.antt =====
-- What requests do to the table of attention items.
use harmony_takehome.Prelude.{
  String, ◌≡◌, refl, Bool, true, false, Option, none, some, List, [], ◌∷◌, ◌++◌, any, find, Result,
  ok, err, if-cases, string_eq, arith,
}
use harmony_takehome.Text.{Python}
use harmony_takehome.Domain.{Instant, AttentionItem, AuditEvent}
use harmony_takehome.Domain.Attention.{AttentionStatus, allowed_transition}
use harmony_takehome.Audit.Ledger.{Ledger, append}
use harmony_takehome.Attention.{
  AttentionDb, AttentionError, AttentionRegistration, Request, registers, follows_up, transitions,
  perform, register, register_arrival_followup, transition, insert_attention, existing_or_new,
  has_id, has_dedupe_key, moved, movable, moved_items, audited, recorded_registration,
  recorded_transition, triggered_item, followup_item, registration_event, followup_event,
  transition_event,
}

-- One step of the table.
pub data Stepped (items : List AttentionItem) : List AttentionItem → Type 0 where
  same : Stepped items items
  added :
      (item : AttentionItem)
      → any (has_id item.attention_id) items ≡ false
      → any (has_dedupe_key item.dedupe_key) items ≡ false
      → Stepped items (items ++ item ∷ [])
  advanced :
      (attention : AttentionItem) (target : AttentionStatus) (at : Instant)
      → allowed_transition attention.status target ≡ true
      → Stepped items (moved_items attention target at items)

any-find :
    (test : AttentionItem → Bool) (items : List AttentionItem)
    → find test items ≡ none
    → any test items ≡ false
any-find test [] h = refl
any-find test (x ∷ xs) h = ground (arith, any-find test xs)

module _ (db : AttentionDb) where
  audited-Stepped :
      {A : Type 0} (items : List AttentionItem) (value : A) (p : Result String (Unit {0}) × Ledger)
      → Stepped db.items items
      → Stepped db.items (audited db items value p).1.items
  audited-Stepped items value (ok x, ledger) h = h
  audited-Stepped items value (err e, ledger) h = same

  inserted-Stepped :
      (item : AttentionItem) (o : Option AttentionItem)
      → find (has_dedupe_key item.dedupe_key) db.items ≡ o
      → Stepped db.items (existing_or_new item o db.items).1
  inserted-Stepped item (some existing) h = same
  inserted-Stepped item none h =
      if-cases
        (λ (p : Result AttentionError AttentionRegistration × List AttentionItem).
          Stepped db.items p.1)
        (any (has_id item.attention_id) db.items) _ _ (λ e. same)
        (λ e. added item e (any-find (has_dedupe_key item.dedupe_key) db.items h))

module _ (python : Python) where
  registered-Stepped :
      (event_id : String) (event : AttentionRegistration → AuditEvent) (db : AttentionDb)
      (p : Result AttentionError AttentionRegistration × List AttentionItem)
      → Stepped db.items p.1
      → Stepped db.items (recorded_registration python event_id event db p).1.items
  registered-Stepped event_id event db (ok registration, items) h =
      audited-Stepped db items registration (append python event_id (event registration) db.ledger)
        h
  registered-Stepped event_id event db (err e, items) h = same

  moved-Stepped :
      (event_id : String) (attention : AttentionItem) (target : AttentionStatus) (run_id : String)
      (at : Instant) (db : AttentionDb) (o : Option AttentionItem)
      → allowed_transition attention.status target ≡ true
      → Stepped db.items
          (recorded_transition python event_id attention target run_id at db o).1.items
  moved-Stepped event_id attention target run_id at db none h = same
  moved-Stepped event_id attention target run_id at db (some item) h =
      audited-Stepped db (moved_items attention target at db.items) (moved target at item)
        (append python event_id (transition_event attention target run_id at (moved target at item))
          db.ledger)
        (advanced attention target at h)

  pub perform-Stepped :
      (r : Request) (db : AttentionDb) → Stepped db.items (perform python r db).items
  unfolding perform register register_arrival_followup transition insert_attention
  perform-Stepped (registers new_id event_id trigger run_id) db =
      registered-Stepped event_id (registration_event trigger run_id) db
        (insert_attention (triggered_item new_id trigger) db.items)
        (inserted-Stepped db (triggered_item new_id trigger)
          (find (has_dedupe_key trigger.dedupe_key) db.items) refl)
  perform-Stepped (follows_up new_id event_id original order run_id at) db =
      let item = followup_item python new_id original order at in
      registered-Stepped event_id (followup_event original order run_id at) db
        (insert_attention item db.items)
        (inserted-Stepped db item (find (has_dedupe_key item.dedupe_key) db.items) refl)
  perform-Stepped (transitions event_id attention target run_id at) db =
      if-cases
        (λ (p : Result AttentionError AttentionItem × AttentionDb). Stepped db.items p.1.items)
        (allowed_transition attention.status target) _ _
        (λ e.
          moved-Stepped event_id attention target run_id at db (find (movable attention) db.items)
            e)
        (λ e. same)
