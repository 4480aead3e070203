-- ===== src/Audit/Sanitizer.antt =====
-- `_sanitize_payload` of src/enterprise_agent/adapters/audit.py: the only form in which the facts of
-- an event reach the ledger. A value that is no JSON value of the model cannot occur, and every
-- instant has the one timezone, so that only a non-finite decimal is refused.
pub mod Redaction
use harmony_takehome.Prelude.{
  String, Bool, ◌||◌, any, List, [], ◌∷◌, Option, none, some, Result, ok, err, and_then,
  if◌then◌else◌, ◌==◌, string_eq,
}
use harmony_takehome.Json.{
  Json, Items, Fields, null, bool, num, negative, decimal, moment, date, text, array, object, nil,
  cons, end, field,
}
use harmony_takehome.Text.{Python, dashes_replaced, ends_with}

abbrev pub sensitive_payload_keys : List String
sensitive_payload_keys =
    "access_token" ∷ "api_key" ∷ "authorization" ∷ "client_secret" ∷ "password"
    ∷ "provider_response" ∷ "raw_response" ∷ "refresh_token" ∷ "secret" ∷ "token" ∷ []

module _ (python : Python) where
  -- `_is_sensitive_key`
  unfoldable pub is_sensitive_key : String → Bool
  unfolding dashes_replaced ends_with
  is_sensitive_key key =
      any (λ name. name == dashes_replaced (python.lower key)) sensitive_payload_keys
      || ends_with (dashes_replaced (python.lower key)) "_api_key"

  -- A value without a key; a mapping's values are redacted by their keys.
  unfoldable mutual
    unfolding is_sensitive_key

    pub sanitize_value : Json → Result String Json
    sanitize_value (decimal d) =
        if python.decimals.is_finite d
        then ok (text d)
        else err "audit payload contains non-finite decimal"
    sanitize_value (moment t) = ok (text (python.isoformat t))
    sanitize_value (date d) = ok (text (python.date_isoformat d))
    sanitize_value (object fields) = and_then (sanitize_fields fields) (λ fs. ok (object fs))
    sanitize_value (array items) = and_then (sanitize_items items) (λ xs. ok (array xs))
    sanitize_value value = ok value

    pub sanitize_items : Items → Result String Items
    sanitize_items nil = ok nil
    sanitize_items (cons x xs) =
        and_then (sanitize_value x) (λ y. and_then (sanitize_items xs) (λ ys. ok (cons y ys)))

    pub sanitize_fields : Fields → Result String Fields
    sanitize_fields end = ok end
    sanitize_fields (field key value rest) =
        let child = sanitize_value value in
        and_then (if is_sensitive_key key then ok (text "[redacted]") else child)
          (λ v. and_then (sanitize_fields rest) (λ fs. ok (field key v fs)))
