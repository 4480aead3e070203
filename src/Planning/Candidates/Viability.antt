-- ===== src/Planning/Candidates/Viability.antt =====
-- The suppliers that the filter lets pass.
use harmony_takehome.Prelude.{
  ℕ, ◌+◌, ◌≤◌, String, ◌≡◌, refl, sym, ◌∙◌, subst, Bool, true, false, not, any, Option, none, some,
  List, [], ◌∷◌, ◌++◌, length, length-sort_by, sort_by, All, if◌then◌else◌, ◌==◌, ◌!=◌, string_eq,
  equal_of, ltb, arith,
}
use harmony_takehome.Json
use harmony_takehome.Json.{Json}
use harmony_takehome.Text.{Python}
use harmony_takehome.Domain.{Evidence, date_of}
use harmony_takehome.Planning.{SupplierCandidate}
use harmony_takehome.Planning.Context.{AuthorizedContextBundle, string_payload_value}
use harmony_takehome.Planning.Candidates.{
  SupplierExclusionReason, SupplierCandidateResult, reason_if, is_true, lead_time_days,
  lead_time_reasons, exclusion_reasons, sorted_out, filter_suppliers, filter_candidates,
  by_record_id,
}

both_none : (xs ys : List SupplierExclusionReason) → xs ++ ys ≡ [] → (xs ≡ []) × (ys ≡ [])
both_none [] ys h = (refl, h)
both_none (x ∷ xs) ys h = cc

no_exclusion :
    (bad : Bool) (reason : SupplierExclusionReason) → reason_if bad reason ≡ [] → bad ≡ false
no_exclusion true reason h = cc
no_exclusion false reason h = refl

on_time :
    (detected_on start : ℕ) (o : Option ℕ)
    → lead_time_reasons detected_on start o ≡ []
    → (days : ℕ) × (o ≡ some days) × (detected_on + days ≤ start)
on_time detected_on start none h = cc
on_time detected_on start (some days) h = (
  days,
  refl,
  in_time
      (no_exclusion (ltb start (detected_on + days)) SupplierExclusionReason.lead_time_too_long h),
)
  where
    in_time : ltb start (detected_on + days) ≡ false → detected_on + days ≤ start
    in_time h = ground arith

module _ (python : Python) (original part_id : String) (plant_ids : List String)
    (detected_on start : ℕ) where
  -- A viable alternate: approved, for the part, at a plant of the actor, in time, and not the supplier
  -- of the original order.
  pub record IsViable (c : SupplierCandidate) : Type 0 where
    pub itself : c.supplier_id ≡ c.evidence.record_id
    pub alternate : (c.supplier_id == original) ≡ false
    pub approved : is_true (Json.get "approved" c.evidence.payload) ≡ true
    pub right_part : string_payload_value python "part_id" c.evidence ≡ part_id
    pub right_plant :
        any (λ plant. plant == string_payload_value python "plant_id" c.evidence) plant_ids ≡ true
    pub lead : lead_time_days c.evidence ≡ some c.lead_time_days
    pub arrives : (c.arrival_date ≡ detected_on + c.lead_time_days) × (c.arrival_date ≤ start)

  not-false : (b : Bool) → not b ≡ false → b ≡ true
  not-false b h = ground arith

  viable :
      (supplier : Evidence) (days : ℕ)
      → exclusion_reasons python supplier original part_id plant_ids detected_on start ≡ []
      → lead_time_days supplier ≡ some days
      → IsViable (record {
        supplier_id = supplier.record_id;
        evidence = supplier;
        lead_time_days = days;
        arrival_date = detected_on + days;
      })
  unfolding exclusion_reasons
  viable supplier days h lead =
      let (abcd, e) =
        both_none _ (lead_time_reasons detected_on start (lead_time_days supplier)) h in
      let (abc, d) =
        both_none _
          (reason_if
            (not
              (any (λ plant. plant == string_payload_value python "plant_id" supplier) plant_ids))
            SupplierExclusionReason.wrong_plant)
          abcd in
      let (ab, c) =
        both_none _
          (reason_if (string_payload_value python "part_id" supplier != part_id)
            SupplierExclusionReason.wrong_part)
          abc in
      let (a, b) =
        both_none
          (reason_if (supplier.record_id == original) SupplierExclusionReason.original_supplier)
          (reason_if (not (is_true (Json.get "approved" supplier.payload)))
            SupplierExclusionReason.not_approved)
          ab in
      let (n, is_n, early) = on_time detected_on start (lead_time_days supplier) e in
      record {
        itself = refl;
        alternate = no_exclusion (supplier.record_id == original) _ a;
        approved = not-false (is_true (Json.get "approved" supplier.payload)) (no_exclusion _ _ b);
        right_part = equal_of (string_payload_value python "part_id" supplier) part_id (
            not-false (string_payload_value python "part_id" supplier == part_id)
              (no_exclusion _ _ c));
        right_plant =
            not-false
              (any (λ plant. plant == string_payload_value python "plant_id" supplier) plant_ids)
              (no_exclusion _ _ d);
        lead = lead;
        arrives =
            (refl, subst (λ k. detected_on + k ≤ start) (some_inj n days (sym is_n ∙ lead)) early);
      }
    where
      some_inj : (n m : ℕ) → some n ≡ some m → n ≡ m
      some_inj n m h = ground arith

  -- One step of the loop keeps both facts.
  Sorted : List Evidence → SupplierCandidateResult → Type 0
  Sorted suppliers result =
      All IsViable result.candidates
      × (length result.candidates + length result.exclusions ≡ length suppliers)

  step :
      (supplier : Evidence) (suppliers : List Evidence) (rest : SupplierCandidateResult)
      (reasons : List SupplierExclusionReason) (days : Option ℕ)
      → exclusion_reasons python supplier original part_id plant_ids detected_on start ≡ reasons
      → lead_time_days supplier ≡ days
      → Sorted suppliers rest
      → Sorted (supplier ∷ suppliers) (sorted_out python supplier detected_on reasons days rest)
  unfolding Sorted
  step supplier suppliers rest [] (some days) h lead s =
      ((viable supplier days h lead, s.0), omega (arith, s.1))
  step supplier suppliers rest [] none h lead s = (s.0, omega (arith, s.1))
  step supplier suppliers rest (r ∷ rs) days h lead s = (s.0, omega (arith, s.1))

  sorted_suppliers :
      (suppliers : List Evidence)
      → Sorted suppliers
          (filter_suppliers python original part_id plant_ids detected_on start suppliers)
  unfolding filter_suppliers Sorted
  sorted_suppliers [] = (tt, refl)
  sorted_suppliers (supplier ∷ suppliers) =
      step supplier suppliers
        (filter_suppliers python original part_id plant_ids detected_on start suppliers)
        (exclusion_reasons python supplier original part_id plant_ids detected_on start)
        (lead_time_days supplier) refl refl (sorted_suppliers suppliers)

-- If the filter returns, then every candidate is an approved alternate of the supplier of the order,
-- for the part, at a plant of the actor, and its parts arrive by the start of production; and the
-- candidates and the exclusions are together as many as the suppliers of the context.
pub filter_candidates-IsViable :
    (python : Python) (context : AuthorizedContextBundle) (result : SupplierCandidateResult)
    → filter_candidates python context ≡ some result
    → All
        (IsViable python
          (string_payload_value python "supplier_id" context.original_purchase_order)
          context.trigger.part_id
          context.actor.plant_ids
          (date_of context.trigger.detected_at)
          context.trigger.production_start_date)
        result.candidates
      × (length result.candidates + length result.exclusions ≡ length context.suppliers)
unfolding filter_candidates Sorted
filter_candidates-IsViable python context result h =
    named (string_payload_value python "supplier_id" context.original_purchase_order == "") h
  where
    original : String
    original = string_payload_value python "supplier_id" context.original_purchase_order

    outcome : SupplierCandidateResult
    outcome =
        filter_suppliers python original context.trigger.part_id context.actor.plant_ids
          (date_of context.trigger.detected_at) context.trigger.production_start_date
          (sort_by (by_record_id python) context.suppliers)

    P : SupplierCandidateResult → Type 0
    P r =
        All
          (IsViable python original context.trigger.part_id context.actor.plant_ids
            (date_of context.trigger.detected_at) context.trigger.production_start_date)
          r.candidates
        × (length r.candidates + length r.exclusions ≡ length context.suppliers)

    holds : P outcome
    holds =
        let s =
          sorted_suppliers python original context.trigger.part_id context.actor.plant_ids
            (date_of context.trigger.detected_at) context.trigger.production_start_date
            (sort_by (by_record_id python) context.suppliers) in
        (s.0, s.1 ∙ length-sort_by (by_record_id python) context.suppliers)

    some_result : (a b : SupplierCandidateResult) → some a ≡ some b → a ≡ b
    some_result a b k = ground arith

    named : (b : Bool) → (if b then none else some outcome) ≡ some result → P result
    named true k = cc
    named false k = subst P (some_result outcome result k) holds
