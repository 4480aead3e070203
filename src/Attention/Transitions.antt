-- ===== src/Attention/Transitions.antt =====
-- A transition of the item that is loaded.
use harmony_takehome.Prelude.{
  String, ◌≡◌, sym, ap, ◌∙◌, Bool, true, false, Option, none, some, List, [], ◌∷◌, find, Result, ok,
  err, if◌then◌else◌, string_eq, arith, same_refl, equal_of, find-map,
}
use harmony_takehome.Text.{Python}
use harmony_takehome.Domain.{Instant, AttentionItem}
use harmony_takehome.Domain.Attention.{AttentionStatus, allowed_transition}
use harmony_takehome.Audit.Ledger.{Ledger, append}
use harmony_takehome.Attention.{
  AttentionDb, AttentionError, load, transition, recorded_transition, transition_event, audited,
  moved, movable, moved_items, has_id, same_status, refused_transition,
}

find-narrowed :
    (p q : AttentionItem → Bool) (items : List AttentionItem) (a : AttentionItem)
    → ((x : AttentionItem) → q x ≡ true → p x ≡ true)
    → find p items ≡ some a
    → q a ≡ true
    → find q items ≡ some a
find-narrowed p q [] a within h k = cc
find-narrowed p q (x ∷ xs) a within h k = ground (arith, within x, find-narrowed p q xs a within)

same_status_refl : (s : AttentionStatus) → same_status s s ≡ true
same_status_refl s = ground arith

movable_itself : (a : AttentionItem) → movable a a ≡ true
movable_itself a = ground (arith, same_refl a.attention_id, same_status_refl a.status)

audited_item :
    (db db' : AttentionDb) (items : List AttentionItem) (a b : AttentionItem)
    (q : Result String (Unit {0}) × Ledger)
    → audited db items a q ≡ (ok b, db')
    → (b ≡ a) × (db'.items ≡ items)
audited_item db db' items a b (ok x, ledger) h = (
  ground arith,
  sym (ap (λ (p : Result AttentionError AttentionItem × AttentionDb). p.1.items) h),
)
audited_item db db' items a b (err e, ledger) h = cc

module _ (python : Python) where
  -- A transition that returns, of an item as the store holds it.
  pub transition_ok :
      (event_id : String) (a : AttentionItem) (target : AttentionStatus) (run_id : String)
      (at : Instant) (db db' : AttentionDb) (b : AttentionItem)
      → load a.attention_id db ≡ some a
      → transition python event_id a target run_id at db ≡ (ok b, db')
      → (b ≡ moved target at a) × (load a.attention_id db' ≡ some (moved target at a))
  unfolding transition load
  transition_ok event_id a target run_id at db db' b loaded h =
      allowed (allowed_transition a.status target) h
    where
      stored :
          (o : Option AttentionItem)
          → o ≡ some a
          → recorded_transition python event_id a target run_id at db o ≡ (ok b, db')
          → (b ≡ moved target at a)
            × (find (has_id a.attention_id) db'.items ≡ some (moved target at a))
      stored none e k = cc
      stored (some item) e k =
          let same : item ≡ a = ground arith in
          let (given, written) =
            audited_item db db' (moved_items a target at db.items) (moved target at item) b
              (append python event_id (transition_event a target run_id at (moved target at item))
                db.ledger)
              k in
          (
            given ∙ ap (moved target at) same,
            ap (find (has_id a.attention_id)) written
                ∙ find-map (has_id a.attention_id)
                    (λ item. if movable a item then moved target at item else item)
                    (λ x. ground arith) db.items a loaded
                ∙ ap (λ c. some (if c then moved target at a else a)) (movable_itself a),
          )

      allowed :
          (c : Bool)
          → (if c
              then recorded_transition python event_id a target run_id at db
                  (find (movable a) db.items)
              else (err (refused_transition a.status target), db))
            ≡ (ok b, db')
          → (b ≡ moved target at a)
            × (find (has_id a.attention_id) db'.items ≡ some (moved target at a))
      allowed true k =
          stored (find (movable a) db.items)
            (find-narrowed (has_id a.attention_id) (movable a) db.items a (λ x e. ground arith)
              loaded (movable_itself a))
            k
      allowed false k = cc

find_passes :
    (p : AttentionItem → Bool) (items : List AttentionItem) (a : AttentionItem)
    → find p items ≡ some a
    → p a ≡ true
find_passes p [] a h = cc
find_passes p (x ∷ xs) a h = ground (arith, find_passes p xs a)

-- What is loaded has the identifier asked for.
pub loaded_id :
    (id : String) (db : AttentionDb) (a : AttentionItem) → load id db ≡ some a → a.attention_id ≡ id
unfolding load
loaded_id id db a h = equal_of a.attention_id id (find_passes (has_id id) db.items a h)
