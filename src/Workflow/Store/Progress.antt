-- ===== src/Workflow/Store/Progress.antt =====
-- The shape of the stored steps: the steps before the cursor, the step at it, and those after it,
-- and what an update of one row does to that shape.
use harmony_takehome.Prelude.{
  ℕ, zero, suc, ◌+◌, ◌<◌, ◌≡◌, refl, Bool, true, false, List, [], ◌∷◌, any, length, All, arith,
  Bool-cases, inl, inr,
}
use harmony_takehome.Domain.{WorkflowStepState, WorkflowStepStatus}
use harmony_takehome.Workflow.Sql.{is_not_null, changed}

-- The steps stand in the order of their index, which begins at `first`.
abbrev pub IsIndexed : ℕ → List WorkflowStepState → Type 0
IsIndexed first [] = Unit
IsIndexed first (x ∷ xs) = (x.step_index ≡ first) × IsIndexed (suc first) xs

abbrev pub IsDone : WorkflowStepState → Type 0
IsDone x = x.status ≡ WorkflowStepStatus.succeeded

abbrev pub IsWaiting : WorkflowStepState → Type 0
IsWaiting x = x.status ≡ WorkflowStepStatus.pending

-- A declared tool whose start is on record, with the key that identifies its effect.
abbrev pub IsStarted : WorkflowStepState → Type 0
IsStarted x =
    (x.status ≡ WorkflowStepStatus.running)
    × (is_not_null x.tool_name ≡ true)
    × (is_not_null x.idempotency_key ≡ true)

-- `Progress before head cursor steps`: `cursor` steps satisfy `before`, the next one, if there is
-- one, satisfies `head`, and all others are pending.
abbrev pub Progress :
    (WorkflowStepState → Type 0)
    → (WorkflowStepState → Type 0)
    → ℕ
    → List WorkflowStepState
    → Type 0
Progress before head zero [] = Unit
Progress before head zero (x ∷ xs) = head x × All IsWaiting xs
Progress before head (suc c) [] = ⊥
Progress before head (suc c) (x ∷ xs) = before x × Progress before head c xs

module _ (change : WorkflowStepState → WorkflowStepState)
    (same_index : (x : WorkflowStepState) → (change x).step_index ≡ x.step_index) where
  pub IsIndexed-changed :
      (test : WorkflowStepState → Bool) (first : ℕ) (xs : List WorkflowStepState)
      → IsIndexed first xs
      → IsIndexed first (changed test change xs)
  IsIndexed-changed test first [] h = tt
  IsIndexed-changed test first (x ∷ xs) h =
      (ground (arith, same_index x), IsIndexed-changed test (suc first) xs h.1)

-- A test that only rows with one index pass.
abbrev pub Selects : (WorkflowStepState → Bool) → ℕ → Type 0
Selects test index = (x : WorkflowStepState) → test x ≡ true → x.step_index ≡ index

module _ (test : WorkflowStepState → Bool) (change : WorkflowStepState → WorkflowStepState)
    (index : ℕ) (selects : Selects test index) where
  -- Rows past the selected index are left alone.
  changed_past :
      (first : ℕ) (xs : List WorkflowStepState)
      → index < first
      → IsIndexed first xs
      → (changed test change xs ≡ xs) × (any test xs ≡ false)
  changed_past first [] h i = (refl, refl)
  changed_past first (x ∷ xs) h i =
      let past = changed_past (suc first) xs (omega arith) i.1 in
      elim (Bool-cases (test x)) [
        | inl hit ↦ absurd (omega (arith, selects x hit))
        | inr miss ↦ (rw (miss, past.0) refl, rw (miss, past.1) refl)
      ]

  module _ (before head head' : WorkflowStepState → Type 0)
      (step : (x : WorkflowStepState) → head x → test x ≡ true → head' (change x)) where
    -- An update that selects the row at the cursor changes that row, and no other.
    pub Progress-changed :
        (first cursor : ℕ) (xs : List WorkflowStepState)
        → index ≡ first + cursor
        → IsIndexed first xs
        → any test xs ≡ true
        → Progress before head cursor xs
        → Progress before head' cursor (changed test change xs)
    Progress-changed first zero [] e i hit p = cc
    Progress-changed first zero (x ∷ xs) e i hit p =
        let past = changed_past (suc first) xs (omega arith) i.1 in
        let here : test x ≡ true = ground (arith, past.1) in
        rw (here, past.0) (step x p.0 here, p.1)
    Progress-changed first (suc c) [] e i hit p = p
    Progress-changed first (suc c) (x ∷ xs) e i hit p = elim (Bool-cases (test x)) [
      | inl now ↦ absurd (omega (arith, selects x now))
      | inr miss ↦
          rw miss (p.0, Progress-changed (suc first) c xs (omega arith) i.1 (ground arith) p.1)
    ]

  -- A selected row stands inside the list.
  pub selected_within :
      (first cursor : ℕ) (xs : List WorkflowStepState)
      → index ≡ first + cursor
      → IsIndexed first xs
      → any test xs ≡ true
      → cursor < length xs
  selected_within first cursor [] e i hit = cc
  selected_within first zero (x ∷ xs) e i hit = omega arith
  selected_within first (suc c) (x ∷ xs) e i hit = elim (Bool-cases (test x)) [
    | inl now ↦ absurd (omega (arith, selects x now))
    | inr miss ↦ omega (arith, selected_within (suc first) c xs (omega arith) i.1 (ground arith))
  ]

-- The cursor may move past a head that satisfies what is asked of the steps before it.
module _ (before head : WorkflowStepState → Type 0)
    (ready : (x : WorkflowStepState) → IsWaiting x → head x) where
  Progress-next : (xs : List WorkflowStepState) → All IsWaiting xs → Progress before head zero xs
  Progress-next [] w = tt
  Progress-next (x ∷ xs) w = (ready x w.0, w.1)

  pub Progress-advance :
      (cursor : ℕ) (xs : List WorkflowStepState)
      → cursor < length xs
      → Progress before before cursor xs
      → Progress before head (suc cursor) xs
  Progress-advance zero [] h p = elim h [ ]
  Progress-advance zero (x ∷ xs) h p = (p.0, Progress-next xs p.1)
  Progress-advance (suc c) [] h p = p
  Progress-advance (suc c) (x ∷ xs) h p = (p.0, Progress-advance c xs (omega arith) p.1)

-- A weakening of what is asked of the steps before the cursor and of the step at it.
module _ (before before' head head' : WorkflowStepState → Type 0)
    (weaken : (x : WorkflowStepState) → before x → before' x)
    (weaken_head : (x : WorkflowStepState) → head x → head' x) where
  pub Progress-weaken :
      (cursor : ℕ) (xs : List WorkflowStepState)
      → Progress before head cursor xs
      → Progress before' head' cursor xs
  Progress-weaken zero [] p = tt
  Progress-weaken zero (x ∷ xs) p = (weaken_head x p.0, p.1)
  Progress-weaken (suc c) [] p = p
  Progress-weaken (suc c) (x ∷ xs) p = (weaken x p.0, Progress-weaken c xs p.1)

-- An update that keeps each of the three conditions keeps the shape, whatever rows it selects.
module _ (before head : WorkflowStepState → Type 0) (test : WorkflowStepState → Bool)
    (change : WorkflowStepState → WorkflowStepState)
    (keeps : (x : WorkflowStepState) → before x → test x ≡ true → before (change x))
    (spares_head : (x : WorkflowStepState) → head x → test x ≡ false)
    (spares_rest : (x : WorkflowStepState) → IsWaiting x → test x ≡ false) where
  changed_rest :
      (xs : List WorkflowStepState) → All IsWaiting xs → All IsWaiting (changed test change xs)
  changed_rest [] w = tt
  changed_rest (x ∷ xs) w = rw (spares_rest x w.0) (w.0, changed_rest xs w.1)

  pub Progress-kept :
      (cursor : ℕ) (xs : List WorkflowStepState)
      → Progress before head cursor xs
      → Progress before head cursor (changed test change xs)
  Progress-kept zero [] p = tt
  Progress-kept zero (x ∷ xs) p = rw (spares_head x p.0) (p.0, changed_rest xs p.1)
  Progress-kept (suc c) [] p = p
  Progress-kept (suc c) (x ∷ xs) p = elim (Bool-cases (test x)) [
    | inl hit ↦ rw hit (keeps x p.0 hit, Progress-kept c xs p.1)
    | inr miss ↦ rw miss (p.0, Progress-kept c xs p.1)
  ]
