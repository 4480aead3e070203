-- ===== src/Json.antt =====
-- JSON values as the program holds them: `Mapping[str, object]` payloads, inputs and results.
-- Only the kinds that the code distinguishes are kept: integers, non-negative or `negative n` for
-- -(n + 1); and, in the evidence of a provider, decimals by their canonical text, datetimes and dates.
use harmony_takehome.Prelude.{
  ℕ, suc, String, Bool, true, false, ◌&&◌, Option, none, some, ◌==◌, string_eq, nat_eqb,
}

mutual
  pub data Json : Type 0 where
    null : Json
    bool : Bool → Json
    num : ℕ → Json
    negative : ℕ → Json
    decimal : String → Json
    moment : ℕ → Json
    date : ℕ → Json
    text : String → Json
    array : Items → Json
    object : Fields → Json

  pub data Items : Type 0 where
    nil : Items
    cons : Json → Items → Items

  pub data Fields : Type 0 where
    end : Fields
    field : String → Json → Fields → Fields

-- `mapping.get(name)`
unfoldable pub get : String → Fields → Option Json
get name end = none
get name (field k v rest) =
    let found = get name rest in elim (k == name) [ true ↦ some v | false ↦ found ]

-- `len(mapping)`
unfoldable pub size : Fields → ℕ
size end = 0
size (field k v rest) = suc (size rest)

bool_eqb : Bool → Bool → Bool
bool_eqb true b = b
bool_eqb false true = false
bool_eqb false false = true

-- Python's `==` on such values. Two mappings are equal if they have as many keys, and each key of
-- one has an equal value in the other: the order of the keys does not matter.
unfoldable mutual
  unfolding get size bool_eqb

  pub json_eqb : Json → Json → Bool
  json_eqb null null = true
  json_eqb (bool a) (bool b) = bool_eqb a b
  json_eqb (num a) (num b) = nat_eqb a b
  json_eqb (negative a) (negative b) = nat_eqb a b
  json_eqb (moment a) (moment b) = nat_eqb a b
  json_eqb (date a) (date b) = nat_eqb a b
  json_eqb (decimal a) (decimal b) = a == b
  json_eqb (text a) (text b) = a == b
  json_eqb (array a) (array b) = items_eqb a b
  json_eqb (object a) (object b) = nat_eqb (size a) (size b) && fields_within a b
  json_eqb _ _ = false

  pub items_eqb : Items → Items → Bool
  items_eqb nil nil = true
  items_eqb (cons x xs) (cons y ys) = json_eqb x y && items_eqb xs ys
  items_eqb _ _ = false

  pub fields_within : Fields → Fields → Bool
  fields_within end other = true
  fields_within (field k v rest) other = elim (get k other) [
    | none ↦ false
    | some w ↦ json_eqb v w && fields_within rest other
  ]

-- `dict(a) == dict(b)`
unfoldable pub fields_eqb : Fields → Fields → Bool
unfolding json_eqb fields_within size
fields_eqb a b = nat_eqb (size a) (size b) && fields_within a b

-- `mapping[name] = value`: a key that is there keeps its place.
unfoldable pub put : String → Json → Fields → Fields
put name value end = field name value end
put name value (field k v rest) =
    let changed = put name value rest in
    elim (k == name) [ true ↦ field k value rest | false ↦ field k v changed ]

-- `mapping.update(changes)`
unfoldable pub update : Fields → Fields → Fields
unfolding put
update mapping end = mapping
update mapping (field k v rest) = update (put k v mapping) rest
