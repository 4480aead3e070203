-- ===== src/Prelude/Sorting.antt =====
-- Selected and sorted lists, and lists whose members have distinct keys.
use Prim.Native.Nat.{ℕ, zero, suc, ◌≤◌}
use Prim.Native.String.{String}
use mathlib.Core.Path.{◌≡◌, refl, ap, ◌∙◌}
use mathlib.Core.Logic.{◌⊎◌, inl, inr}
use mathlib.Core.Bool.{Bool, true, false}
use mathlib.Core.List.{List, [], ◌∷◌, ◌++◌, map}
use mathlib.Core.Option.{some}
use native.Mathlib.Omega.{arith}
use harmony_takehome.Prelude.Lists.{length, take, any, find, All}
use harmony_takehome.Prelude.Classes.{◌==◌, string_eq}
use harmony_takehome.Prelude.Tests.{if◌then◌else◌, if-cases}

module _ {ℓ} {A : Type ℓ} where
  -- `[x for x in xs if test(x)]`
  abbrev pub filter : (A → Bool) → List A → List A
  filter test [] = []
  filter test (x ∷ xs) = let rest = filter test xs in if test x then x ∷ rest else rest

  abbrev pub insert_by : (A → A → Bool) → A → List A → List A
  insert_by before x [] = x ∷ []
  insert_by before x (y ∷ ys) =
      let rest = insert_by before x ys in if before x y then x ∷ y ∷ ys else y ∷ rest

  -- `sorted(xs)`, with `before` for `<=` on the keys.
  abbrev pub sort_by : (A → A → Bool) → List A → List A
  sort_by before [] = []
  sort_by before (x ∷ xs) = insert_by before x (sort_by before xs)

  pub length-insert_by :
      (before : A → A → Bool) (x : A) (xs : List A)
      → length (insert_by before x xs) ≡ suc (length xs)
  length-insert_by before x [] = refl
  length-insert_by before x (y ∷ ys) = ground (arith, length-insert_by before x ys)

  pub length-sort_by :
      (before : A → A → Bool) (xs : List A) → length (sort_by before xs) ≡ length xs
  length-sort_by before [] = refl
  length-sort_by before (x ∷ xs) =
      length-insert_by before x (sort_by before xs) ∙ ap suc (length-sort_by before xs)

  pub length-take :
      (n : ℕ) (xs : List A)
      → (length (take n xs) ≡ n) ⊎ ((length (take n xs) ≡ length xs) × (length xs ≤ n))
  length-take zero xs = inl refl
  length-take (suc n) [] = inr (refl, omega arith)
  length-take (suc n) (x ∷ xs) = ground (arith, length-take n xs)

  pub find-append :
      (test : A → Bool) (xs ys : List A) (a : A)
      → find test xs ≡ some a
      → find test (xs ++ ys) ≡ some a
  find-append test [] ys a h = cc
  find-append test (x ∷ xs) ys a h = ground (arith, find-append test xs ys a)

module _ {ℓ κ} {A : Type ℓ} (P : A → Type κ) where
  pub All-insert_by :
      (before : A → A → Bool) (x : A) (xs : List A) → P x → All P xs → All P (insert_by before x xs)
  All-insert_by before x [] p h = (p, tt)
  All-insert_by before x (y ∷ ys) p h =
      let rest = All-insert_by before x ys p h.1 in
      if-cases (All P) (before x y) (x ∷ y ∷ ys) (y ∷ insert_by before x ys) (λ e. (p, h))
        (λ e. (h.0, rest))

  pub All-sort_by : (before : A → A → Bool) (xs : List A) → All P xs → All P (sort_by before xs)
  All-sort_by before [] h = tt
  All-sort_by before (x ∷ xs) h =
      All-insert_by before x (sort_by before xs) h.0 (All-sort_by before xs h.1)

  pub All-take : (n : ℕ) (xs : List A) → All P xs → All P (take n xs)
  All-take zero xs h = tt
  All-take (suc n) [] h = tt
  All-take (suc n) (x ∷ xs) h = (h.0, All-take n xs h.1)

  -- Every member passes the test and has what the test implies.
  pub All-filter :
      (test : A → Bool) → ((x : A) → test x ≡ true → P x) → (xs : List A) → All P (filter test xs)
  All-filter test p [] = tt
  All-filter test p (x ∷ xs) =
      let rest = All-filter test p xs in
      if-cases (All P) (test x) (x ∷ filter test xs) (filter test xs) (λ e. (p x e, rest))
        (λ e. rest)

pub All-map {ℓ κ} :
    {A B : Type ℓ} (P : B → Type κ) (f : A → B) (xs : List A)
    → All (λ x. P (f x)) xs
    → All P (map f xs)
All-map P f [] h = tt
All-map P f (x ∷ xs) h = (h.0, All-map P f xs h.1)

pub All-weaken {ℓ κ} :
    {A : Type ℓ} (P Q : A → Type κ) → ((x : A) → P x → Q x) → (xs : List A) → All P xs → All Q xs
All-weaken P Q f [] h = tt
All-weaken P Q f (x ∷ xs) h = (f x h.0, All-weaken P Q f xs h.1)

-- The members are in the order of a number.
module _ {ℓ} {A : Type ℓ} (number : A → ℕ) where
  abbrev pub IsSorted : List A → Type 0
  IsSorted [] = Unit
  IsSorted (x ∷ xs) = All (λ y. number x ≤ number y) xs × IsSorted xs

  module _ (before : A → A → Bool) (up : (x y : A) → before x y ≡ true → number x ≤ number y)
      (down : (x y : A) → before x y ≡ false → number y ≤ number x) where
    insert_by-IsSorted : (x : A) (xs : List A) → IsSorted xs → IsSorted (insert_by before x xs)
    insert_by-IsSorted x [] h = (tt, tt)
    insert_by-IsSorted x (y ∷ ys) h =
        let rest = insert_by-IsSorted x ys h.1 in
        if-cases IsSorted (before x y) (x ∷ y ∷ ys) (y ∷ insert_by before x ys)
          (λ e. (
            (
              up x y e,
              All-weaken (λ z. number y ≤ number z) (λ z. number x ≤ number z)
                  (λ z q. omega (arith, up x y e, q)) ys h.0,
            ),
            h,
          ))
          (λ e. (All-insert_by (λ z. number y ≤ number z) before x ys (down x y e) h.0, rest))

    pub sort_by-IsSorted : (xs : List A) → IsSorted (sort_by before xs)
    sort_by-IsSorted [] = tt
    sort_by-IsSorted (x ∷ xs) = insert_by-IsSorted x (sort_by before xs) (sort_by-IsSorted xs)

-- No two members have one key.
module _ {ℓ} {A : Type ℓ} (key : A → String) where
  abbrev pub Distinct : List A → Type 0
  Distinct [] = Unit
  Distinct (x ∷ xs) = All (λ y. (key x == key y) ≡ false) xs × Distinct xs

  All-snoc-key :
      (k : String) (xs : List A) (x : A)
      → All (λ y. (k == key y) ≡ false) xs
      → (k == key x) ≡ false
      → All (λ y. (k == key y) ≡ false) (xs ++ x ∷ [])
  All-snoc-key k [] x h e = (e, tt)
  All-snoc-key k (y ∷ ys) x h e = (h.0, All-snoc-key k ys x h.1 e)

  pub Distinct-snoc :
      (xs : List A) (x : A)
      → any (λ y. key y == key x) xs ≡ false
      → Distinct xs
      → Distinct (xs ++ x ∷ [])
  Distinct-snoc [] x h d = (tt, tt)
  Distinct-snoc (y ∷ ys) x h d =
      (All-snoc-key (key y) ys x d.0 (ground arith), Distinct-snoc ys x (ground arith) d.1)

  module _ (f : A → A) (keeps : (x : A) → key (f x) ≡ key x) where
    All-map-key :
        (k k' : String) (xs : List A)
        → k' ≡ k
        → All (λ y. (k == key y) ≡ false) xs
        → All (λ y. (k' == key y) ≡ false) (map f xs)
    All-map-key k k' [] e h = tt
    All-map-key k k' (x ∷ xs) e h = (rw (keeps x, e) h.0, All-map-key k k' xs e h.1)

    pub Distinct-map : (xs : List A) → Distinct xs → Distinct (map f xs)
    Distinct-map [] d = tt
    Distinct-map (x ∷ xs) d =
        (All-map-key (key x) (key (f x)) xs (keeps x) d.0, Distinct-map xs d.1)
