-- ===== src/Attention/Deduplication.antt =====
-- Registrations of one signal.
use harmony_takehome.Prelude.{
  String, ◌≡◌, refl, sym, ap, subst, Bool, true, false, Option, none, some, List, [], ◌∷◌, ◌++◌,
  any, find, Result, ok, err, if◌then◌else◌, string_eq, arith, same_refl,
}
use harmony_takehome.Text.{Python}
use harmony_takehome.Domain.{AttentionItem, AuditEvent}
use harmony_takehome.Domain.Triggers.{AttentionTrigger}
use harmony_takehome.Audit.Ledger.{Ledger, append}
use harmony_takehome.Attention.{
  AttentionDb, AttentionError, AttentionRegistration, Request, run_requests, register,
  insert_attention, existing_or_new, audited, recorded_registration, registration_event,
  triggered_item, has_id, has_dedupe_key,
}
use harmony_takehome.Attention.Registrations.{found-Becomes, Becomes}

-- A registration is stored under its key.
IsRegistered : String → AttentionRegistration → List AttentionItem → Type 0
IsRegistered key registration items = find (has_dedupe_key key) items ≡ some registration.attention

find-last :
    (test : AttentionItem → Bool) (items : List AttentionItem) (item : AttentionItem)
    → find test items ≡ none
    → test item ≡ true
    → find test (items ++ item ∷ []) ≡ some item
find-last test [] item h e = ground arith
find-last test (x ∷ xs) item h e = ground (arith, find-last test xs item)

-- What an insertion that has not failed says.
inserted :
    (clash : Bool) (p : Result AttentionError AttentionRegistration × List AttentionItem)
    (e : AttentionError) (registration : AttentionRegistration)
    (items before grown : List AttentionItem) (item : AttentionItem)
    → p ≡ (err e, before)
    → (if clash then p else (ok (record { attention = item; created = true }), grown))
      ≡ (ok registration, items)
    → (registration ≡ record { attention = item; created = true }) × (items ≡ grown)
inserted true p e registration items before grown item k h = cc
inserted false p e registration items before grown item k h = (ground arith, ground arith)

existing_or_new-IsRegistered :
    (item : AttentionItem) (o : Option AttentionItem) (before items : List AttentionItem)
    (registration : AttentionRegistration)
    → find (has_dedupe_key item.dedupe_key) before ≡ o
    → existing_or_new item o before ≡ (ok registration, items)
    → IsRegistered item.dedupe_key registration items
unfolding IsRegistered
existing_or_new-IsRegistered item (some existing) before items registration h k = ground arith
existing_or_new-IsRegistered item none before items registration h k =
    let (a, b) =
      inserted (any (has_id item.attention_id) before) _ _ registration items before
        (before ++ item ∷ []) item refl k in
    rw (a, b) (find-last (has_dedupe_key item.dedupe_key) before item h (same_refl item.dedupe_key))

existing :
    (item a : AttentionItem) (o : Option AttentionItem) (items items' : List AttentionItem)
    (reg : AttentionRegistration)
    → o ≡ some a
    → existing_or_new item o items ≡ (ok reg, items')
    → (reg ≡ record { attention = a; created = false }) × (items ≡ items')
existing item a none items items' reg h k = cc
existing item a (some b) items items' reg h k =
    let same : b ≡ a = ground arith in
    (
      subst (λ x. reg ≡ record { attention = x; created = false }) same (ground arith),
      ap (λ p. p.1) k,
    )

audited-ok :
    (db db' : AttentionDb) (items : List AttentionItem) (r reg : AttentionRegistration)
    (q : Result String (Unit {0}) × Ledger)
    → audited db items r q ≡ (ok reg, db')
    → (r ≡ reg) × (items ≡ db'.items)
audited-ok db db' items r reg (ok x, ledger) h = (ground arith, ap (λ p. p.1.items) h)
audited-ok db db' items r reg (err e, ledger) h = cc

module _ (python : Python) where
  recorded_registration-ok :
      (event_id : String) (event : AttentionRegistration → AuditEvent) (db db' : AttentionDb)
      (p : Result AttentionError AttentionRegistration × List AttentionItem)
      (reg : AttentionRegistration)
      → recorded_registration python event_id event db p ≡ (ok reg, db')
      → p ≡ (ok reg, db'.items)
  recorded_registration-ok event_id event db db' (ok r, items) reg h =
      let (a, b) = audited-ok db db' items r reg (append python event_id (event r) db.ledger) h in
      rw (a, b) refl
  recorded_registration-ok event_id event db db' (err e, items) reg h = cc

  register-IsRegistered :
      (new_id event_id : String) (trigger : AttentionTrigger) (run_id : String)
      (db db' : AttentionDb) (reg : AttentionRegistration)
      → register python new_id event_id trigger run_id db ≡ (ok reg, db')
      → IsRegistered trigger.dedupe_key reg db'.items
  unfolding register insert_attention
  register-IsRegistered new_id event_id trigger run_id db db' reg h =
      let item = triggered_item new_id trigger in
      existing_or_new-IsRegistered item (find (has_dedupe_key trigger.dedupe_key) db.items) db.items
        db'.items reg refl
        (recorded_registration-ok event_id (registration_event trigger run_id) db db'
          (insert_attention item db.items) reg h)

  existing_registration :
      (item a : AttentionItem) (items items' : List AttentionItem) (reg : AttentionRegistration)
      → find (has_dedupe_key item.dedupe_key) items ≡ some a
      → insert_attention item items ≡ (ok reg, items')
      → (reg ≡ record { attention = a; created = false }) × (items ≡ items')
  unfolding insert_attention
  existing_registration item a items items' reg h k =
      existing item a (find (has_dedupe_key item.dedupe_key) items) items items' reg h k

  -- Once a signal has been registered, then after any requests a registration of a signal with the
  -- same key, by any detector, creates nothing: if it returns, it returns the item that the first
  -- registration returned, as it has become by then, and the table of items is unchanged.
  pub register-once :
      (id id' event event' run run' : String) (trigger trigger' : AttentionTrigger)
      (rs : List Request) (db db' db'' : AttentionDb) (reg reg' : AttentionRegistration)
      → register python id event trigger run db ≡ (ok reg, db')
      → trigger'.dedupe_key ≡ trigger.dedupe_key
      → register python id' event' trigger' run' (run_requests python rs db') ≡ (ok reg', db'')
      → (reg'.created ≡ false)
        × Becomes reg.attention reg'.attention
        × (db''.items ≡ (run_requests python rs db').items)
  unfolding register IsRegistered
  register-once id id' event event' run run' trigger trigger' rs db db' db'' reg reg' first key
        second =
      let before = run_requests python rs db' in
      let item = triggered_item id' trigger' in
      let (b, found, becomes) =
        found-Becomes (has_dedupe_key trigger.dedupe_key) (λ x target at. refl) python rs db'
          reg.attention (register-IsRegistered id event trigger run db db' reg first) in
      let (a, c) = existing_registration item b before.items db''.items reg' (rw key found) (
        recorded_registration-ok event' (registration_event trigger' run') before db''
          (insert_attention item before.items) reg' second) in
      (ap (λ r. r.created) a, subst (λ r. Becomes reg.attention r.attention) (sym a) becomes, sym c)
