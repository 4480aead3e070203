-- ===== src/Audit/Sanitizer/Redaction.antt =====
-- What a sanitised payload holds.
use harmony_takehome.Prelude.{
  String, ◌≡◌, refl, sym, ap, Bool, true, false, ◌&&◌, &&-true, Result, ok, and_then, and_then_ok,
  if◌then◌else◌, ◌==◌, string_eq, arith, subst, equal_of,
}
use harmony_takehome.Json.{
  Json, Items, Fields, null, bool, num, negative, decimal, moment, date, text, array, object, nil,
  cons, end, field,
}
use harmony_takehome.Text.{Python}
use harmony_takehome.Audit.Sanitizer.{
  is_sensitive_key, sanitize_value, sanitize_items, sanitize_fields,
}

abbrev redacted : Json → Bool
redacted (text value) = value == "[redacted]"
redacted _ = false

module _ (python : Python) where
  -- Only JSON's own values, and under a sensitive key, at any depth, only the mark of redaction.
  unfoldable mutual
    pub is_safe : Json → Bool
    is_safe (decimal d) = false
    is_safe (moment t) = false
    is_safe (date d) = false
    is_safe (object fields) = safe_fields fields
    is_safe (array items) = safe_items items
    is_safe _ = true

    pub safe_items : Items → Bool
    safe_items nil = true
    safe_items (cons x xs) = is_safe x && safe_items xs

    pub safe_fields : Fields → Bool
    safe_fields end = true
    safe_fields (field key value rest) =
        let safe = is_safe value in
        (if is_sensitive_key python key then redacted value else safe) && safe_fields rest

  ok_inj : {A : Type 0} (a b : A) → ◌≡◌ {A = Result String A} (ok a) (ok b) → a ≡ b
  ok_inj a b h = ground arith

  -- The child of a sensitive key, or of another.
  child_safe :
      (sensitive : Bool) (r : Result String Json) (v : Json) (safe : Bool)
      → (if sensitive then ok (text "[redacted]") else r) ≡ ok v
      → (r ≡ ok v → safe ≡ true)
      → (if sensitive then redacted v else safe) ≡ true
  child_safe true r v safe h k =
      subst (λ v. redacted v ≡ true) (ok_inj (text "[redacted]") v h) refl
  child_safe false r v safe h k = k h

  redacted_text : (v : Json) → redacted v ≡ true → text "[redacted]" ≡ v
  redacted_text (text value) h = ap text (sym (equal_of value "[redacted]" h))
  redacted_text null h = cc
  redacted_text (bool b) h = cc
  redacted_text (num n) h = cc
  redacted_text (negative n) h = cc
  redacted_text (decimal d) h = cc
  redacted_text (moment t) h = cc
  redacted_text (date d) h = cc
  redacted_text (array items) h = cc
  redacted_text (object fields) h = cc

  unchanged_child :
      (sensitive : Bool) (r : Result String Json) (v : Json) (safe : Bool)
      → (if sensitive then redacted v else safe) ≡ true
      → (safe ≡ true → r ≡ ok v)
      → (if sensitive then ok (text "[redacted]") else r) ≡ ok v
  unchanged_child true r v safe h k = ap ok (redacted_text v h)
  unchanged_child false r v safe h k = k h

  both_true : (a b : Bool) → a ≡ true → b ≡ true → (a && b) ≡ true
  both_true a b h k = ground arith

  mutual
    unfolding is_safe sanitize_value

    sanitize_value-is_safe : (v w : Json) → sanitize_value python v ≡ ok w → is_safe w ≡ true
    sanitize_value-is_safe (decimal d) w h = ground arith
    sanitize_value-is_safe (moment t) w h = ground arith
    sanitize_value-is_safe (date d) w h = ground arith
    sanitize_value-is_safe null w h = ground arith
    sanitize_value-is_safe (bool b) w h = ground arith
    sanitize_value-is_safe (num n) w h = ground arith
    sanitize_value-is_safe (negative n) w h = ground arith
    sanitize_value-is_safe (text t) w h = ground arith
    sanitize_value-is_safe (object fields) w h =
        let (fs, e, k) = and_then_ok (sanitize_fields python fields) (λ fs. ok (object fs)) w h in
        let safe = sanitize_fields-safe_fields fields fs e in ground (arith, safe)
    sanitize_value-is_safe (array items) w h =
        let (xs, e, k) = and_then_ok (sanitize_items python items) (λ xs. ok (array xs)) w h in
        let safe = sanitize_items-safe_items items xs e in ground (arith, safe)

    sanitize_items-safe_items :
        (xs ys : Items) → sanitize_items python xs ≡ ok ys → safe_items ys ≡ true
    sanitize_items-safe_items nil ys h = ground arith
    sanitize_items-safe_items (cons x xs) ys h =
        let (y, e, k) =
          and_then_ok (sanitize_value python x)
            (λ y. and_then (sanitize_items python xs) (λ ys. ok (cons y ys))) ys h in
        let (zs, e', k') = and_then_ok (sanitize_items python xs) (λ zs. ok (cons y zs)) ys k in
        let safe = sanitize_value-is_safe x y e in
        let rest = sanitize_items-safe_items xs zs e' in
        subst (λ p. safe_items p ≡ true) (ok_inj (cons y zs) ys k')
          (both_true (is_safe y) (safe_items zs) safe rest)

    sanitize_fields-safe_fields :
        (fs gs : Fields) → sanitize_fields python fs ≡ ok gs → safe_fields gs ≡ true
    sanitize_fields-safe_fields end gs h = ground arith
    sanitize_fields-safe_fields (field key value rest) gs h =
        let (v, e, k) =
          and_then_ok
            (if is_sensitive_key python key
              then ok (text "[redacted]")
              else sanitize_value python value)
            (λ v. and_then (sanitize_fields python rest) (λ fs. ok (field key v fs))) gs h in
        let (fs, e', k') =
          and_then_ok (sanitize_fields python rest) (λ fs. ok (field key v fs)) gs k in
        let kept = sanitize_value-is_safe value v in
        let later = sanitize_fields-safe_fields rest fs e' in
        subst (λ p. safe_fields p ≡ true) (ok_inj (field key v fs) gs k')
          (both_true (if is_sensitive_key python key then redacted v else is_safe v)
            (safe_fields fs)
            (child_safe (is_sensitive_key python key) (sanitize_value python value) v (is_safe v) e
              kept)
            later)

  mutual
    unfolding is_safe sanitize_value

    is_safe-sanitize_value : (v : Json) → is_safe v ≡ true → sanitize_value python v ≡ ok v
    is_safe-sanitize_value (decimal d) h = cc
    is_safe-sanitize_value (moment t) h = cc
    is_safe-sanitize_value (date d) h = cc
    is_safe-sanitize_value null h = refl
    is_safe-sanitize_value (bool b) h = refl
    is_safe-sanitize_value (num n) h = refl
    is_safe-sanitize_value (negative n) h = refl
    is_safe-sanitize_value (text t) h = refl
    is_safe-sanitize_value (object fields) h = rw (safe_fields-sanitize_fields fields h) refl
    is_safe-sanitize_value (array items) h = rw (safe_items-sanitize_items items h) refl

    safe_items-sanitize_items :
        (xs : Items) → safe_items xs ≡ true → sanitize_items python xs ≡ ok xs
    safe_items-sanitize_items nil h = refl
    safe_items-sanitize_items (cons x xs) h =
        let (first, rest) = &&-true (is_safe x) (safe_items xs) h in
        rw (is_safe-sanitize_value x first, safe_items-sanitize_items xs rest) refl

    safe_fields-sanitize_fields :
        (fs : Fields) → safe_fields fs ≡ true → sanitize_fields python fs ≡ ok fs
    safe_fields-sanitize_fields end h = refl
    safe_fields-sanitize_fields (field key value rest) h =
        let (first, later) =
          &&-true (if is_sensitive_key python key then redacted value else is_safe value)
            (safe_fields rest) h in
        rw
          (
            unchanged_child (is_sensitive_key python key) (sanitize_value python value) value
                (is_safe value) first (is_safe-sanitize_value value),
            safe_fields-sanitize_fields rest later,
          )
          refl

  -- If the payload of an event is sanitised, then at every depth a sensitive key holds nothing but
  -- the mark of redaction and every other value is one of JSON's own; and sanitising the sanitised
  -- payload again, as when a stored event is appended again, changes nothing.
  pub sanitize_fields-redacted :
      (payload sanitized : Fields)
      → sanitize_fields python payload ≡ ok sanitized
      → (safe_fields sanitized ≡ true) × (sanitize_fields python sanitized ≡ ok sanitized)
  sanitize_fields-redacted payload sanitized h =
      let safe = sanitize_fields-safe_fields payload sanitized h in
      (safe, safe_fields-sanitize_fields sanitized safe)
