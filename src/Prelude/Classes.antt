-- ===== src/Prelude/Classes.antt =====
-- Python's `==` and `!=` on numbers, texts and optional values, by instance.
use Prim.Native.Nat.{ℕ}
use Prim.Native.String.{String}
use mathlib.Core.Path.{◌≡◌, refl}
use mathlib.Core.Logic.{◌↔◌}
use mathlib.Core.Bool.{Bool, true, false, not}
use mathlib.Core.Option.{Option, none, some}
use native.Mathlib.Omega.{arith}
use text.Mathlib.Text.{◌==◌ as text_same}
use text.Mathlib.TextEquality.{eq_iff}
use harmony_takehome.Prelude.Tests.{nat_eqb, nat_eqb_iff}

-- A type whose values Python compares.
pub record Compared {ℓ} (A : Type ℓ) : Type ℓ where
  pub same : A → A → Bool
  pub same_iff : (x y : A) → (same x y ≡ true) ↔ (x ≡ y)

module _ {ℓ} {A : Type ℓ} ⦃c : Compared A⦄ where
  infix 50 ◌==◌ ◌!=◌
  abbrev pub ◌==◌ : A → A → Bool
  x == y = c.same x y

  abbrev pub ◌!=◌ : A → A → Bool
  x != y = not (c.same x y)

  pub same_refl : (x : A) → c.same x x ≡ true
  same_refl x = (c.same_iff x x).1 refl

  pub equal_of : (x y : A) → c.same x y ≡ true → x ≡ y
  equal_of x y h = (c.same_iff x y).0 h

instance abbrev pub string_eq : Compared String
string_eq = record { same = text_same; same_iff = eq_iff }

-- `None` equals `None` alone.
abbrev pub option_same {ℓ} : {A : Type ℓ} → (A → A → Bool) → Option A → Option A → Bool
option_same test none none = true
option_same test (some x) (some y) = test x y
option_same test _ _ = false

pub option_same_iff {ℓ} :
    {A : Type ℓ} (c : Compared A) (x y : Option A) → (option_same c.same x y ≡ true) ↔ (x ≡ y)
option_same_iff c none none = ground arith
option_same_iff c (some x) (some y) = ground (arith, c.same_iff x y)
option_same_iff c none (some y) = ground arith
option_same_iff c (some x) none = ground arith

instance abbrev pub option_eq {ℓ} : {A : Type ℓ} ⦃c : Compared A⦄ → Compared (Option A)
option_eq ⦃c⦄ = record { same = option_same c.same; same_iff = option_same_iff c }

instance abbrev pub nat_eq : Compared ℕ
nat_eq = record { same = nat_eqb; same_iff = nat_eqb_iff }
