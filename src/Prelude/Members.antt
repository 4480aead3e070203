-- ===== src/Prelude/Members.antt =====
-- The members of selected, sorted and shortened lists.
use Prim.Native.Nat.{ℕ, zero, suc, ◌≤◌}
use mathlib.Core.Path.{◌≡◌, refl, sym, ap, subst}
use mathlib.Core.Logic.{◌⊎◌, inl, inr}
use mathlib.Core.Bool.{Bool, true}
use mathlib.Core.List.{List, [], ◌∷◌, map, Memᴰ}
use native.Mathlib.Omega.{arith}
use harmony_takehome.Prelude.Lists.{any, length, take, All}
use harmony_takehome.Prelude.Tests.{if-cases}
use harmony_takehome.Prelude.Sorting.{filter, insert_by, sort_by, IsSorted}

module _ {ℓ} {A : Type ℓ} where
  pub All-member {κ} : (P : A → Type κ) (x : A) (xs : List A) → Memᴰ x xs → All P xs → P x
  All-member P x [] m h = elim m [ ]
  All-member P x (y ∷ ys) (Memᴰ.head e) h = subst P (sym e) h.0
  All-member P x (y ∷ ys) (Memᴰ.tail m) h = All-member P x ys m h.1

  -- What holds of every member of a list, from its membership.
  pub All-members {κ} : (P : A → Type κ) (xs : List A) → ((x : A) → Memᴰ x xs → P x) → All P xs
  All-members P [] p = tt
  All-members P (x ∷ xs) p = (p x (Memᴰ.head refl), All-members P xs (λ y m. p y (Memᴰ.tail m)))

  pub All-filtered {κ} :
      (P : A → Type κ) (test : A → Bool) (xs : List A)
      → All P xs
      → All (λ x. P x × (test x ≡ true)) (filter test xs)
  All-filtered P test [] h = tt
  All-filtered P test (x ∷ xs) h =
      let rest = All-filtered P test xs h.1 in
      if-cases (All (λ x. P x × (test x ≡ true))) (test x) (x ∷ filter test xs) (filter test xs)
        (λ e. ((h.0, e), rest)) (λ e. rest)

  pub any-member :
      (test : A → Bool) (x : A) (xs : List A) → test x ≡ true → Memᴰ x xs → any test xs ≡ true
  any-member test x [] h m = elim m [ ]
  any-member test x (y ∷ ys) h (Memᴰ.head e) = cc (ap test e, h)
  any-member test x (y ∷ ys) h (Memᴰ.tail m) = ground (arith, any-member test x ys h m)

  pub filter-member :
      (test : A → Bool) (x : A) (xs : List A) → test x ≡ true → Memᴰ x xs → Memᴰ x (filter test xs)
  filter-member test x [] h m = elim m [ ]
  filter-member test x (y ∷ ys) h (Memᴰ.head e) =
      if-cases (Memᴰ x) (test y) (y ∷ filter test ys) (filter test ys) (λ _. Memᴰ.head e)
        (λ k. cc (e, h, k))
  filter-member test x (y ∷ ys) h (Memᴰ.tail m) =
      let rest = filter-member test x ys h m in
      if-cases (Memᴰ x) (test y) (y ∷ filter test ys) (filter test ys) (λ _. Memᴰ.tail rest)
        (λ _. rest)

  module _ (before : A → A → Bool) where
    insert_by-self : (x y : A) (ys : List A) → x ≡ y → Memᴰ x (insert_by before y ys)
    insert_by-self x y [] e = Memᴰ.head e
    insert_by-self x y (z ∷ zs) e =
        let rest = insert_by-self x y zs e in
        if-cases (Memᴰ x) (before y z) (y ∷ z ∷ zs) (z ∷ insert_by before y zs) (λ _. Memᴰ.head e)
          (λ _. Memᴰ.tail rest)

    insert_by-member : (x y : A) (ys : List A) → Memᴰ x ys → Memᴰ x (insert_by before y ys)
    insert_by-member x y [] m = elim m [ ]
    insert_by-member x y (z ∷ zs) (Memᴰ.head e) =
        if-cases (Memᴰ x) (before y z) (y ∷ z ∷ zs) (z ∷ insert_by before y zs)
          (λ _. Memᴰ.tail (Memᴰ.head e)) (λ _. Memᴰ.head e)
    insert_by-member x y (z ∷ zs) (Memᴰ.tail m) =
        let rest = insert_by-member x y zs m in
        if-cases (Memᴰ x) (before y z) (y ∷ z ∷ zs) (z ∷ insert_by before y zs)
          (λ _. Memᴰ.tail (Memᴰ.tail m)) (λ _. Memᴰ.tail rest)

    pub sort_by-member : (x : A) (xs : List A) → Memᴰ x xs → Memᴰ x (sort_by before xs)
    sort_by-member x [] m = elim m [ ]
    sort_by-member x (y ∷ ys) (Memᴰ.head e) = insert_by-self x y (sort_by before ys) e
    sort_by-member x (y ∷ ys) (Memᴰ.tail m) =
        insert_by-member x y (sort_by before ys) (sort_by-member x ys m)

  -- A member of a sorted list is among its first ones, or these are as many as were asked for and
  -- none of them is greater.
  pub take-member :
      (number : A → ℕ) (n : ℕ) (x : A) (xs : List A)
      → IsSorted number xs
      → Memᴰ x xs
      → Memᴰ x (take n xs) ⊎ ((length (take n xs) ≡ n) × All (λ y. number y ≤ number x) (take n xs))
  take-member number zero x xs s m = inr (refl, tt)
  take-member number (suc n) x [] s m = elim m [ ]
  take-member number (suc n) x (y ∷ ys) s (Memᴰ.head e) = inl (Memᴰ.head e)
  take-member number (suc n) x (y ∷ ys) s (Memᴰ.tail m) =
      let least = All-member (λ z. number y ≤ number z) x ys m s.0 in
      elim (take-member number n x ys s.1 m) [
        | inl k ↦ inl (Memᴰ.tail k)
        | inr k ↦ inr (ap suc k.0, (least, k.1))
      ]

pub map-member {ℓ} :
    {A B : Type ℓ} (f : A → B) (x : A) (xs : List A) → Memᴰ x xs → Memᴰ (f x) (map f xs)
map-member f x [] m = elim m [ ]
map-member f x (y ∷ ys) (Memᴰ.head e) = Memᴰ.head (ap f e)
map-member f x (y ∷ ys) (Memᴰ.tail m) = Memᴰ.tail (map-member f x ys m)
