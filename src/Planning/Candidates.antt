-- ===== src/Planning/Candidates.antt =====
-- SupplierCandidateFilter of src/enterprise_agent/application/candidates.py.
pub mod Viability
use harmony_takehome.Prelude.{
  ℕ, ◌+◌, String, Bool, true, false, not, any, ◌&&◌, ◌||◌, Option, none, some, List, [], ◌∷◌, ◌++◌,
  sort_by, if◌then◌else◌, ◌==◌, ◌!=◌, string_eq, leb, ltb,
}
use harmony_takehome.Json
use harmony_takehome.Json.{Json}
use harmony_takehome.Text.{Python, text_le}
use harmony_takehome.Domain.{Evidence, date_of}
use harmony_takehome.Planning.{SupplierCandidate}
use harmony_takehome.Planning.Context.{AuthorizedContextBundle, string_payload_value}

pub data SupplierExclusionReason : Type 0 where
  original_supplier not_approved wrong_part wrong_plant : SupplierExclusionReason
  invalid_lead_time lead_time_too_long : SupplierExclusionReason

pub record SupplierExclusion : Type 0 where
  pub supplier_id : String
  pub evidence : Evidence
  pub reasons : List SupplierExclusionReason

pub record SupplierCandidateResult : Type 0 where
  pub candidates : List SupplierCandidate
  pub exclusions : List SupplierExclusion

-- `if bad: reasons.append(reason)`
abbrev pub reason_if : {A : Type 0} → Bool → A → List A
reason_if true reason = reason ∷ []
reason_if false reason = []

abbrev pub is_true : Option Json → Bool
is_true (some (Json.bool b)) = b
is_true _ = false

-- `_lead_time_days`
unfoldable pub lead_time_days : Evidence → Option ℕ
unfolding Json.get
lead_time_days supplier = elim (Json.get "lead_time_days" supplier.payload) [
  | some (Json.num n) ↦ some n
  | _ ↦ none
]

abbrev pub lead_time_reasons : ℕ → ℕ → Option ℕ → List SupplierExclusionReason
lead_time_reasons detected_on start none = SupplierExclusionReason.invalid_lead_time ∷ []
lead_time_reasons detected_on start (some days) =
    reason_if (ltb start (detected_on + days)) SupplierExclusionReason.lead_time_too_long

module _ (python : Python) where
  -- `_exclusion_reasons`
  unfoldable pub exclusion_reasons :
      Evidence → String → String → List String → ℕ → ℕ → List SupplierExclusionReason
  unfolding string_payload_value lead_time_days Json.get
  exclusion_reasons supplier original_supplier_id part_id plant_ids detected_on start =
      reason_if (supplier.record_id == original_supplier_id)
        SupplierExclusionReason.original_supplier
      ++ reason_if (not (is_true (Json.get "approved" supplier.payload)))
          SupplierExclusionReason.not_approved
      ++ reason_if (string_payload_value python "part_id" supplier != part_id)
          SupplierExclusionReason.wrong_part
      ++ reason_if
          (not (any (λ plant. plant == string_payload_value python "plant_id" supplier) plant_ids))
          SupplierExclusionReason.wrong_plant
      ++ lead_time_reasons detected_on start (lead_time_days supplier)

  -- One supplier of the loop, in front of the later ones.
  abbrev pub sorted_out :
      Evidence
      → ℕ
      → List SupplierExclusionReason
      → Option ℕ
      → SupplierCandidateResult
      → SupplierCandidateResult
  sorted_out supplier detected_on [] (some days) rest = record rest {
    candidates =
        record {
          supplier_id = supplier.record_id;
          evidence = supplier;
          lead_time_days = days;
          arrival_date = detected_on + days;
        }
        ∷ rest.candidates;
  }
  sorted_out supplier detected_on reasons days rest = record rest {
    exclusions =
        record { supplier_id = supplier.record_id; evidence = supplier; reasons = reasons }
        ∷ rest.exclusions;
  }

  unfoldable pub filter_suppliers :
      String → String → List String → ℕ → ℕ → List Evidence → SupplierCandidateResult
  unfolding exclusion_reasons lead_time_days
  filter_suppliers original part_id plant_ids detected_on start [] = record {
    candidates = [];
    exclusions = [];
  }
  filter_suppliers original part_id plant_ids detected_on start (supplier ∷ suppliers) =
      sorted_out supplier detected_on
        (exclusion_reasons supplier original part_id plant_ids detected_on start)
        (lead_time_days supplier)
        (filter_suppliers original part_id plant_ids detected_on start suppliers)

  abbrev pub by_record_id : Evidence → Evidence → Bool
  unfolding text_le
  by_record_id a b = text_le a.record_id b.record_id

  -- `filter`: nothing for the ValueError where the order names no supplier.
  unfoldable pub filter_candidates : AuthorizedContextBundle → Option SupplierCandidateResult
  unfolding filter_suppliers text_le date_of string_payload_value
  filter_candidates context =
      let original = string_payload_value python "supplier_id" context.original_purchase_order in
      if original == ""
      then none
      else some (
          filter_suppliers original context.trigger.part_id context.actor.plant_ids
            (date_of context.trigger.detected_at) context.trigger.production_start_date
            (sort_by by_record_id context.suppliers))
