-- ===== src/Prelude/Outcome.antt =====
-- Fallible code: `raise` stands for a Python exception of the caller's own type of errors.
-- A method that also changes state keeps what it has committed when it raises.
use mathlib.Core.Bool.{Bool, true, false}
use mathlib.Core.Option.{Option, none, some}

pub data Result {ℓ} (E A : Type ℓ) : Type ℓ where
  ok : A → Result E A
  err : E → Result E A

-- An action on a state `S` that may raise an `E`.
abbrev pub Action {ℓ} : Type ℓ → Type ℓ → Type ℓ → Type ℓ
Action S E A = S → Result E A × S

module _ {ℓ} {S E A : Type ℓ} where
  abbrev pub pure : A → Action S E A
  pure a s = (ok a, s)

  abbrev pub raise : E → Action S E A
  raise e s = (err e, s)

  abbrev pub gets : (S → A) → Action S E A
  gets f s = (ok (f s), s)

  abbrev pub lift : Result E A → Action S E A
  lift r s = (r, s)

  -- The value of an optional result, or the exception for `None`.
  abbrev pub or_raise : Option A → E → Action S E A
  or_raise none e = raise e
  or_raise (some a) e = pure a

module _ {ℓ} {S E A B : Type ℓ} where
  abbrev pub continue : Result E A → (A → Action S E B) → Action S E B
  continue (ok a) f s = f a s
  continue (err e) f s = (err e, s)

  infixl 5 ◌>>=◌
  abbrev pub ◌>>=◌ : Action S E A → (A → Action S E B) → Action S E B
  ◌>>=◌ m f s = let (r, s') = m s in continue r f s'

module _ {ℓ} {S E B : Type ℓ} where
  infixl 5 ◌>>◌
  abbrev pub ◌>>◌ : Action S E (Unit {ℓ}) → Action S E B → Action S E B
  m >> k = m >>= λ _. k

module _ {ℓ} {S E : Type ℓ} where
  -- `if bad: raise e`
  abbrev pub raise_if : Bool → E → Action S E (Unit {ℓ})
  raise_if true e = raise e
  raise_if false e = pure tt

-- The bind of code that changes no state.
abbrev pub and_then {ℓ} : {E A B : Type ℓ} → Result E A → (A → Result E B) → Result E B
and_then (ok a) f = f a
and_then (err e) f = err e
