-- ===== src/Text.antt =====
-- Python's text operations that the code uses, and the parts of its standard library that are taken
-- as parameters.
use Prim.Native.Char.{code}
use Prim.Native.Nat.{Ordering}
use Prim.Native.String.{◌++◌ as append, compare}
use harmony_takehome.Prelude.{
  Option, ℕ, zero, suc, String, Bool, true, false, ◌&&◌, ◌||◌, leb, List, [], ◌∷◌, ◌==◌, nat_eq,
  string_eq, if◌then◌else◌,
}
use harmony_takehome.Json.{Json, Fields}

-- `"".join(parts)`, and the f-strings
unfoldable pub join : List String → String
join [] = ""
join (part ∷ parts) = append part (join parts)

-- The characters that `str.strip` removes.
abbrev pub is_space : ℕ → Bool
is_space c =
    (leb 9 c && leb c 13)
    || (leb 28 c && leb c 32)
    || c == 133
    || c == 160
    || c == 5760
    || (leb 8192 c && leb c 8202)
    || c == 8232
    || c == 8233
    || c == 8239
    || c == 8287
    || c == 12288

-- `not text.strip()`
unfoldable pub is_blank : String → Bool
is_blank String.[] = true
is_blank (String.◌∷◌ c rest) = is_space (code c) && is_blank rest

-- `text[:n]`
unfoldable pub first_chars : ℕ → String → String
first_chars zero text = String.[]
first_chars (suc n) String.[] = String.[]
first_chars (suc n) (String.◌∷◌ c rest) = String.◌∷◌ c (first_chars n rest)

-- `len(text)`
unfoldable pub text_length : String → ℕ
text_length String.[] = 0
text_length (String.◌∷◌ c rest) = suc (text_length rest)

-- `text.replace("-", "_")`
unfoldable pub dashes_replaced : String → String
dashes_replaced String.[] = String.[]
dashes_replaced (String.◌∷◌ c rest) =
    let changed = dashes_replaced rest in
    if code c == 45 then append "_" changed else String.◌∷◌ c changed

-- `text.endswith(suffix)`
unfoldable pub ends_with : String → String → Bool
ends_with String.[] suffix = String.[] == suffix
ends_with (String.◌∷◌ c rest) suffix = String.◌∷◌ c rest == suffix || ends_with rest suffix

-- `<=` on texts
unfoldable pub text_le : String → String → Bool
text_le a b = elim (compare a b) [ Ordering.gt ↦ false | _ ↦ true ]

-- `decimal.Decimal`, on the canonical texts of decimals: the value of a text, or nothing for an
-- InvalidOperation; and the operations, which signal it too, on a NaN for one.
pub record Decimals : Type 0 where
  pub of_text : String → Option String
  pub is_finite : String → Bool
  pub le : String → String → Option Bool
  pub add : String → String → Option String
  pub sub : String → String → Option String
  pub mul : String → String → Option String

-- What the code takes from `json`, `hashlib`, `str` and `decimal`: the canonical text of a mapping
-- with sorted keys, the hexadecimal SHA-256 of a text, the decimal text of an integer, a stripped
-- text, the ISO texts of an instant and of a date, what `str` makes of a JSON value that is no text,
-- the two changes of case, whether a text is that of a UUID, the UUID of a name in the namespace of
-- URLs, the date of an ISO text, and whether a text has letters alone.
pub record Python : Type 0 where
  pub dumps : Fields → String
  pub sha256_hex : String → String
  pub str_int : ℕ → String
  pub strip : String → String
  pub isoformat : ℕ → String
  pub date_isoformat : ℕ → String
  pub str_json : Json → String
  pub upper : String → String
  pub lower : String → String
  pub decimals : Decimals
  pub is_uuid : String → Bool
  pub uuid5 : String → String
  pub date_fromisoformat : String → Option ℕ
  pub is_alpha : String → Bool

-- `str(value)`
abbrev pub str_of : Python → Json → String
str_of python (Json.text value) = value
str_of python value = python.str_json value
