-- ===== src/Prelude/Inversion.antt =====
-- What a computation that has returned says of its first part, handed to the rest of a proof.
use mathlib.Core.Path.{◌≡◌, refl}
use mathlib.Core.Bool.{Bool, true, false}
use mathlib.Core.Option.{Option, none, some}
use harmony_takehome.Prelude.Tests.{if◌then◌else◌}
use harmony_takehome.Prelude.Outcome.{
  Result, ok, err, Action, continue, ◌>>=◌, raise_if, or_raise, lift, and_then,
}

module _ {ℓ κ} {S E A B : Type ℓ} {C : Type κ} where
  -- Any first part: it has returned, in some state.
  pub bind_inv :
      (m : Action S E A) (f : A → Action S E B) (b : B) (s s'' : S)
      → (m >>= f) s ≡ (ok b, s'')
      → ((a : A) (s' : S) → m s ≡ (ok a, s') → f a s' ≡ (ok b, s'') → C)
      → C
  bind_inv m f b s s'' h k = finish (m s) refl h
    where
      finish : (p : Result E A × S) → m s ≡ p → continue p.0 f p.1 ≡ (ok b, s'') → C
      finish (ok a, s') e h' = k a s' e h'
      finish (err x, s') e h' = cc

  pub or_raise_inv :
      (o : Option A) (e : E) (f : A → Action S E B) (b : B) (s s'' : S)
      → (or_raise o e >>= f) s ≡ (ok b, s'')
      → ((a : A) → o ≡ some a → f a s ≡ (ok b, s'') → C)
      → C
  or_raise_inv none e f b s s'' h k = cc
  or_raise_inv (some a) e f b s s'' h k = k a refl h

  pub lift_inv :
      (r : Result E A) (f : A → Action S E B) (b : B) (s s'' : S)
      → (lift r >>= f) s ≡ (ok b, s'')
      → ((a : A) → r ≡ ok a → f a s ≡ (ok b, s'') → C)
      → C
  lift_inv (ok a) f b s s'' h k = k a refl h
  lift_inv (err x) f b s s'' h k = cc

module _ {ℓ κ} {S E B : Type ℓ} {C : Type κ} where
  pub raise_if_inv :
      (bad : Bool) (e : E) (f : Unit → Action S E B) (b : B) (s s'' : S)
      → (raise_if bad e >>= f) s ≡ (ok b, s'')
      → (bad ≡ false → f tt s ≡ (ok b, s'') → C)
      → C
  raise_if_inv true e f b s s'' h k = cc
  raise_if_inv false e f b s s'' h k = k refl h

pub and_then_ok {ℓ} :
    {E A B : Type ℓ} (r : Result E A) (f : A → Result E B) (b : B)
    → and_then r f ≡ ok b
    → (a : A) × (r ≡ ok a) × (f a ≡ ok b)
and_then_ok (ok a) f b h = (a, refl, h)
and_then_ok (err e) f b h = cc

-- A guard that has let pass.
pub guard_ok {ℓ} :
    {E A : Type ℓ} (bad : Bool) (e : E) (r : Result E A) (a : A)
    → (if bad then err e else r) ≡ ok a
    → (bad ≡ false) × (r ≡ ok a)
guard_ok true e r a h = cc
guard_ok false e r a h = (refl, h)

-- A property of what a computation comes to, whether its first part returns or raises.
module _ {ℓ κ} {S E A B : Type ℓ} (P : Result E B × S → Type κ) where
  pub or_raise_cases :
      (o : Option A) (e : E) (f : A → Action S E B) (s : S)
      → P (err e, s)
      → ((a : A) → o ≡ some a → P (f a s))
      → P ((or_raise o e >>= f) s)
  or_raise_cases none e f s raised returned = raised
  or_raise_cases (some a) e f s raised returned = returned a refl

  pub lift_cases :
      (r : Result E A) (f : A → Action S E B) (s : S)
      → ((e : E) → P (err e, s))
      → ((a : A) → r ≡ ok a → P (f a s))
      → P ((lift r >>= f) s)
  lift_cases (ok a) f s raised returned = returned a refl
  lift_cases (err e) f s raised returned = raised e

module _ {ℓ κ} {S E B : Type ℓ} (P : Result E B × S → Type κ) where
  pub raise_if_cases :
      (bad : Bool) (e : E) (f : Unit → Action S E B) (s : S)
      → P (err e, s)
      → (bad ≡ false → P (f tt s))
      → P ((raise_if bad e >>= f) s)
  raise_if_cases true e f s raised returned = raised
  raise_if_cases false e f s raised returned = returned refl
