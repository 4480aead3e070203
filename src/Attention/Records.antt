-- ===== src/Attention/Records.antt =====
-- What every change of the table leaves in the ledger.
use harmony_takehome.Prelude.{
  String, ◌≡◌, refl, Option, none, some, List, [], ◌∷◌, ◌++◌, find, Result, ok, err, if-cases, ◌⊎◌,
  inl, inr, string_eq,
}
use harmony_takehome.Text.{Python}
use harmony_takehome.Domain.{Instant, AttentionItem, AuditEvent}
use harmony_takehome.Domain.Attention.{AttentionStatus, allowed_transition}
use harmony_takehome.Audit.Ledger.{Row, Ledger, append}
use harmony_takehome.Audit.Ledger.Appends.{IsProper, append-ok}
use harmony_takehome.Attention.{
  AttentionDb, AttentionError, AttentionRegistration, Request, registers, follows_up, transitions,
  perform, register, register_arrival_followup, transition, audited, recorded_registration,
  recorded_transition, registration_event, followup_event, transition_event, moved, moved_items,
  movable, insert_attention, triggered_item, followup_item,
}

module _ (python : Python) where
  -- A call changes nothing, or it has added one proper event to the ledger.
  unfoldable pub Recorded : AttentionDb → AttentionDb → Type 0
  Recorded db db' =
      (db' ≡ db) ⊎ ((row : Row) × (db'.ledger ≡ db.ledger ++ row ∷ []) × IsProper python row)

  audited-Recorded :
      {A : Type 0} (db : AttentionDb) (items : List AttentionItem) (value : A) (id : String)
      (event : AuditEvent)
      → Recorded db (audited db items value (append python id event db.ledger)).1
  unfolding Recorded
  audited-Recorded db items value id event = decided (append python id event db.ledger) refl
    where
      decided :
          (p : Result String (Unit {0}) × Ledger)
          → append python id event db.ledger ≡ p
          → Recorded db (audited db items value p).1
      decided (ok x, ledger) h = inr (append-ok python id event db.ledger ledger h)
      decided (err e, ledger) h = inl refl

  registered-Recorded :
      (event_id : String) (event : AttentionRegistration → AuditEvent) (db : AttentionDb)
      (p : Result AttentionError AttentionRegistration × List AttentionItem)
      → Recorded db (recorded_registration python event_id event db p).1
  unfolding Recorded
  registered-Recorded event_id event db (ok r, items) =
      audited-Recorded db items r event_id (event r)
  registered-Recorded event_id event db (err e, items) = inl refl

  transition-Recorded :
      (event_id : String) (attention : AttentionItem) (target : AttentionStatus) (run_id : String)
      (at : Instant) (db : AttentionDb) (o : Option AttentionItem)
      → Recorded db (recorded_transition python event_id attention target run_id at db o).1
  unfolding Recorded
  transition-Recorded event_id attention target run_id at db none = inl refl
  transition-Recorded event_id attention target run_id at db (some item) =
      audited-Recorded db (moved_items attention target at db.items) (moved target at item) event_id
        (transition_event attention target run_id at (moved target at item))

  -- Every registration, follow-up and transition, whether it returns or raises, either leaves the
  -- items and the ledger as they were, or has added exactly one event to the ledger, of a supported
  -- type and with a redacted payload: no item changes without an event.
  pub perform-Recorded : (r : Request) (db : AttentionDb) → Recorded db (perform python r db)
  unfolding perform register register_arrival_followup transition Recorded
  perform-Recorded (registers new_id event_id trigger run_id) db =
      registered-Recorded event_id (registration_event trigger run_id) db
        (insert_attention (triggered_item new_id trigger) db.items)
  perform-Recorded (follows_up new_id event_id original order run_id at) db =
      registered-Recorded event_id (followup_event original order run_id at) db
        (insert_attention (followup_item python new_id original order at) db.items)
  perform-Recorded (transitions event_id attention target run_id at) db =
      if-cases (λ (p : Result AttentionError AttentionItem × AttentionDb). Recorded db p.1)
        (allowed_transition attention.status target) _ _
        (λ e.
          transition-Recorded event_id attention target run_id at db
            (find (movable attention) db.items))
        (λ e. unchanged db)
    where
      unchanged : (db : AttentionDb) → Recorded db db
      unchanged db = inl refl
