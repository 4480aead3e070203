-- ===== src/Attention/Registrations.antt =====
-- Invariants of the table of attention items, over any requests.
use harmony_takehome.Prelude.{
  String, ◌≡◌, refl, sym, ap, ◌∙◌, subst, Bool, true, false, &&-true, some, List, [], ◌∷◌, ◌++◌,
  find, if◌then◌else◌, if-cases, ◌⊎◌, inl, inr, ◌==◌, string_eq, arith, find-map, find-append,
  Distinct, Distinct-snoc, Distinct-map,
}
use harmony_takehome.Text.{Python}
use harmony_takehome.Domain.{Instant, AttentionItem}
use harmony_takehome.Domain.Attention.{AttentionStatus, allowed_transition}
use harmony_takehome.Domain.Attention.Lifecycle.{IsLifecycle}
use harmony_takehome.Attention.{
  AttentionDb, Request, perform, run_requests, load, has_id, moved, movable, is_terminal,
  same_status,
}
use harmony_takehome.Attention.Items.{Stepped, same, added, advanced, perform-Stepped}

-- No two items have one identifier or one key.
abbrev pub HasKeys : List AttentionItem → Type 0
HasKeys items = Distinct (λ i. i.attention_id) items × Distinct (λ i. i.dedupe_key) items

Stepped-HasKeys :
    (items items' : List AttentionItem) → Stepped items items' → HasKeys items → HasKeys items'
Stepped-HasKeys items _ same h = h
Stepped-HasKeys items _ (added item no_id no_key) h = (
  Distinct-snoc (λ i. i.attention_id) items item no_id h.0,
  Distinct-snoc (λ i. i.dedupe_key) items item no_key h.1,
)
Stepped-HasKeys items _ (advanced attention target at allowed) h = (
  Distinct-map (λ i. i.attention_id)
      (λ item. if movable attention item then moved target at item else item) (λ x. ground arith)
      items h.0,
  Distinct-map (λ i. i.dedupe_key)
      (λ item. if movable attention item then moved target at item else item) (λ x. ground arith)
      items h.1,
)

-- No sequence of requests makes two attention items with one deduplication key, or with one
-- identifier.
pub run_requests-one_item :
    (python : Python) (rs : List Request) (db : AttentionDb)
    → HasKeys db.items
    → HasKeys (run_requests python rs db).items
unfolding run_requests
run_requests-one_item python [] db h = h
run_requests-one_item python (r ∷ rs) db h =
    run_requests-one_item python rs (perform python r db)
      (Stepped-HasKeys db.items (perform python r db).items (perform-Stepped python r db) h)

-- The status at the end of a path.
abbrev pub arrives : AttentionStatus → List AttentionStatus → AttentionStatus
arrives status [] = status
arrives status (next ∷ rest) = arrives next rest

-- What an item may become.
pub record BecomesBy (a b : AttentionItem) (path : List AttentionStatus) : Type 0 where
  pub same_id : b.attention_id ≡ a.attention_id
  pub same_key : b.dedupe_key ≡ a.dedupe_key
  pub same_origin : (b.scenario ≡ a.scenario) × (b.cause ≡ a.cause) × (b.created_at ≡ a.created_at)
  pub same_sources : b.source_versions ≡ a.source_versions
  pub lifecycle : IsLifecycle a.status path × (b.status ≡ arrives a.status path)
  pub settled : (is_terminal a.status ≡ false) ⊎ (b ≡ a)

abbrev pub Becomes : AttentionItem → AttentionItem → Type 0
Becomes a b = (path : List AttentionStatus) × BecomesBy a b path

Becomes-refl : (a : AttentionItem) → Becomes a a
Becomes-refl a = (
  [],
  record {
    same_id = refl;
    same_key = refl;
    same_origin = (refl, refl, refl);
    same_sources = refl;
    lifecycle = (tt, refl);
    settled = inr refl;
  },
)

IsLifecycle-append :
    (a : AttentionStatus) (p q : List AttentionStatus)
    → IsLifecycle a p
    → IsLifecycle (arrives a p) q
    → IsLifecycle a (p ++ q)
IsLifecycle-append a [] q h k = k
IsLifecycle-append a (next ∷ rest) q h k = (h.0, IsLifecycle-append next rest q h.1 k)

arrives-append :
    (a : AttentionStatus) (p q : List AttentionStatus)
    → arrives a (p ++ q) ≡ arrives (arrives a p) q
arrives-append a [] q = refl
arrives-append a (next ∷ rest) q = arrives-append next rest q

Becomes-trans : (a b c : AttentionItem) → Becomes a b → Becomes b c → Becomes a c
Becomes-trans a b c (p, h) (q, k) = (
  p ++ q,
  record {
    same_id = k.same_id ∙ h.same_id;
    same_key = k.same_key ∙ h.same_key;
    same_origin = (
      k.same_origin.0 ∙ h.same_origin.0,
      k.same_origin.1 ∙ h.same_origin.1,
      k.same_origin.2 ∙ h.same_origin.2,
    );
    same_sources = k.same_sources ∙ h.same_sources;
    lifecycle = (
      IsLifecycle-append a.status p q h.lifecycle.0
          (subst (λ s. IsLifecycle s q) h.lifecycle.1 k.lifecycle.0),
      k.lifecycle.1 ∙ ap (λ s. arrives s q) h.lifecycle.1 ∙ sym (arrives-append a.status p q),
    );
    settled = ground (arith, h.settled, k.settled);
  },
)

same_status-allowed :
    (s s' t : AttentionStatus)
    → same_status s' s ≡ true
    → allowed_transition s t ≡ true
    → allowed_transition s' t ≡ true
unfolding allowed_transition
same_status-allowed s s' t h k = ground arith

allowed-unsettled : (s t : AttentionStatus) → allowed_transition s t ≡ true → is_terminal s ≡ false
unfolding allowed_transition
allowed-unsettled s t h = ground arith

moved-Becomes :
    (attention item : AttentionItem) (target : AttentionStatus) (at : Instant)
    → allowed_transition attention.status target ≡ true
    → Becomes item (if movable attention item then moved target at item else item)
moved-Becomes attention item target at allowed =
    if-cases (Becomes item) (movable attention item) (moved target at item) item
      (λ e.
        let step =
          same_status-allowed attention.status item.status target
            (&&-true (item.attention_id == attention.attention_id)
              (same_status item.status attention.status) e).1
            allowed in
        (
          target ∷ [],
          record {
            same_id = refl;
            same_key = refl;
            same_origin = (refl, refl, refl);
            same_sources = refl;
            lifecycle = ((step, tt), refl);
            settled = inl (allowed-unsettled item.status target step);
          },
        ))
      (λ e. Becomes-refl item)

-- A search by what no step changes.
module _ (test : AttentionItem → Bool)
    (keeps : (x : AttentionItem) (target : AttentionStatus) (at : Instant)
      → test (moved target at x) ≡ test x) where
  Stepped-Becomes :
      (items items' : List AttentionItem) (a : AttentionItem)
      → Stepped items items'
      → find test items ≡ some a
      → (b : AttentionItem) × (find test items' ≡ some b) × Becomes a b
  Stepped-Becomes items _ a same h = (a, h, Becomes-refl a)
  Stepped-Becomes items _ a (added item no_id no_key) h =
      (a, find-append test items (item ∷ []) a h, Becomes-refl a)
  Stepped-Becomes items _ a (advanced attention target at allowed) h = (
    if movable attention a then moved target at a else a,
    find-map test (λ item. if movable attention item then moved target at item else item)
        (λ x. ground (arith, keeps x target at)) items a h,
    moved-Becomes attention a target at allowed,
  )

  pub found-Becomes :
      (python : Python) (rs : List Request) (db : AttentionDb) (a : AttentionItem)
      → find test db.items ≡ some a
      → (b : AttentionItem) × (find test (run_requests python rs db).items ≡ some b) × Becomes a b
  unfolding run_requests
  found-Becomes python [] db a h = (a, h, Becomes-refl a)
  found-Becomes python (r ∷ rs) db a h =
      let (b, found, step) =
        Stepped-Becomes db.items (perform python r db).items a (perform-Stepped python r db) h in
      let (c, found', rest) = found-Becomes python rs (perform python r db) b found in
      (c, found', Becomes-trans a b c step rest)

-- After any requests, an item that was stored is still stored: its identity, its key, its origin and
-- the versions it was detected at are as they were, its status has moved along the lifecycle by
-- allowed transitions, and an item that was resolved or cancelled is exactly as it was.
pub run_requests-Becomes :
    (python : Python) (id : String) (rs : List Request) (db : AttentionDb) (a : AttentionItem)
    → load id db ≡ some a
    → (b : AttentionItem) × (load id (run_requests python rs db) ≡ some b) × Becomes a b
unfolding load
run_requests-Becomes python id = found-Becomes (has_id id) (λ x target at. refl) python
