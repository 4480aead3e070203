-- ===== src/Audit/Ledger/Appends.antt =====
-- Sequences of appends, and the order of what is read.
use harmony_takehome.Prelude.{
  String, ◌≡◌, refl, sym, ap, subst, Bool, true, false, List, [], ◌∷◌, ◌++◌, any, Result, ok, err,
  and_then, and_then_ok, ◌∙◌, arith, All, All-append, if◌then◌else◌, ◌==◌, string_eq, if-cases,
}
use harmony_takehome.Text.{Python}
use harmony_takehome.Domain.{AuditEvent}
use harmony_takehome.Audit.Sanitizer.{sanitize_fields}
use harmony_takehome.Audit.Sanitizer.Redaction.{safe_fields, sanitize_fields-redacted}
use harmony_takehome.Audit.Ledger.{
  Row, Ledger, append, is_supported, validate_event, event_parameters, insert_event, require,
}

append_nil : (xs : Ledger) → xs ++ [] ≡ xs
append_nil [] = refl
append_nil (x ∷ xs) = ap (λ ys. x ∷ ys) (append_nil xs)

append_assoc : (xs ys zs : Ledger) → (xs ++ ys) ++ zs ≡ xs ++ (ys ++ zs)
append_assoc [] ys zs = refl
append_assoc (x ∷ xs) ys zs = ap (λ ws. x ∷ ws) (append_assoc xs ys zs)

ok_row : (a b : Row) → ◌≡◌ {A = Result String Row} (ok a) (ok b) → a ≡ b
ok_row a b h = ground arith

module _ (python : Python) where
  unfoldable pub run_appends : List Row → Ledger → Ledger
  unfolding append
  run_appends [] ledger = ledger
  run_appends ((id, event) ∷ rest) ledger = run_appends rest (append python id event ledger).1

  -- A stored event has a supported type, a UUID, and a payload without secrets.
  abbrev pub IsProper : Row → Type 0
  IsProper (id, event) =
      (is_supported event.event_type ≡ true)
      × (python.is_uuid id ≡ true)
      × (safe_fields python event.payload ≡ true)

  require_ok :
      (b : Bool) (message : String) (rest : Result String (Unit {0})) (x : Unit {0})
      → require b message rest ≡ ok x
      → (b ≡ true) × (rest ≡ ok x)
  require_ok true message rest x h = (refl, h)
  require_ok false message rest x h = cc

  checked :
      (id : String) (event : AuditEvent) (row : Row)
      → and_then (validate_event python id event) (λ _. event_parameters python id event) ≡ ok row
      → IsProper row
  unfolding validate_event event_parameters
  checked id event row h =
      let (x, valid, k) =
        and_then_ok (validate_event python id event) (λ _. event_parameters python id event) row
          h in
      let (supported, rest) = require_ok (is_supported event.event_type) _ _ x valid in
      let (named, _) = require_ok (python.is_uuid id) _ _ x rest in
      let (payload, clean, same) =
        and_then_ok (sanitize_fields python event.payload)
          (λ payload. ok (id, record event { payload = payload })) row k in
      subst IsProper (ok_row (id, record event { payload = payload }) row same)
        (supported, named, (sanitize_fields-redacted python event.payload payload clean).0)

  -- What one append adds: nothing, or one proper event.
  Appended : Ledger → Result String (Unit {0}) × Ledger → Type 0
  Appended ledger p = (new : Ledger) × (p.1 ≡ ledger ++ new) × All IsProper new

  nothing : (r : Result String (Unit {0})) (ledger : Ledger) → Appended ledger (r, ledger)
  unfolding Appended
  nothing r ledger = ([], sym (append_nil ledger), tt)

  append-Appended :
      (id : String) (event : AuditEvent) (ledger : Ledger)
      → Appended ledger (append python id event ledger)
  unfolding append Appended
  append-Appended id event ledger =
      decided (and_then (validate_event python id event) (λ _. event_parameters python id event))
        (checked id event)
    where
      decided :
          (r : Result String Row)
          → ((row : Row) → r ≡ ok row → IsProper row)
          → Appended ledger (insert_event python r ledger)
      decided (err e) proper = nothing (err e) ledger
      decided (ok (i, e)) proper =
          if-cases (Appended ledger) (any (λ row. row.0 == i) ledger) _ _
            (λ _. nothing (err "duplicate key value violates unique constraint") ledger)
            (λ _. ((i, e) ∷ [], refl, (proper (i, e) refl, tt)))

  -- An append that returns adds one proper row.
  pub append-ok :
      (id : String) (event : AuditEvent) (ledger ledger' : Ledger)
      → append python id event ledger ≡ (ok tt, ledger')
      → (row : Row) × (ledger' ≡ ledger ++ row ∷ []) × IsProper row
  unfolding append
  append-ok id event ledger ledger' h =
      decided (and_then (validate_event python id event) (λ _. event_parameters python id event))
        (checked id event) h
    where
      placed :
          (clash : Bool) (p : Result String (Unit {0}) × Ledger) (row : Row)
          → p ≡ (err "duplicate key value violates unique constraint", ledger)
          → (if clash then p else (ok tt, ledger ++ row ∷ [])) ≡ (ok tt, ledger')
          → ledger' ≡ ledger ++ row ∷ []
      placed true p row k q = cc
      placed false p row k q = sym (ap (λ p. p.1) q)

      decided :
          (r : Result String Row)
          → ((row : Row) → r ≡ ok row → IsProper row)
          → insert_event python r ledger ≡ (ok tt, ledger')
          → (row : Row) × (ledger' ≡ ledger ++ row ∷ []) × IsProper row
      decided (err e) proper k = cc
      decided (ok (i, e)) proper k =
          ((i, e), placed (any (λ row. row.0 == i) ledger) _ (i, e) refl k, proper (i, e) refl)

  -- After any appends, whether they are accepted or not, the ledger still begins with all that it
  -- held before; and each event that they have added is of a supported type, under an identifier
  -- that is a UUID, with a payload in which every sensitive key is redacted.
  pub run_appends-append_only :
      (rows : List Row) (ledger : Ledger)
      → (new : Ledger) × (run_appends rows ledger ≡ ledger ++ new) × All IsProper new
  unfolding run_appends Appended
  run_appends-append_only [] ledger = ([], sym (append_nil ledger), tt)
  run_appends-append_only ((id, event) ∷ rest) ledger =
      let (new, grown, proper) = append-Appended id event ledger in
      let (more, later, proper') = run_appends-append_only rest (append python id event ledger).1 in
      (
        new ++ more,
        later ∙ ap (λ xs. xs ++ more) grown ∙ append_assoc ledger new more,
        All-append IsProper new more proper proper',
      )
