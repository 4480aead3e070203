-- ===== src/Domain/Triggers.antt =====
-- The triggers of src/enterprise_agent/domain/attention.py. Instants have the one timezone, integers
-- that are versions are not negative, and a mapping of versions is already one of texts to integers.
use Prim.Native.String.{◌++◌ as join_text}
use harmony_takehome.Prelude.{
  ℕ, String, ◌||◌, any, List, [], ◌∷◌, Result, ok, err, and_then, if◌then◌else◌, ◌==◌, string_eq,
  nat_eq,
}
use harmony_takehome.Json.{Fields, text, num, end, field}
use harmony_takehome.Text.{Python, is_blank}
use harmony_takehome.Domain.Instants.{Instant}
use harmony_takehome.Domain.SourceVersions.{Versions}

-- What the control plane takes from a trigger, whatever its scenario.
pub record AttentionTrigger : Type 0 where
  pub detector : String
  pub detected_at : Instant
  pub source_versions : Versions
  pub scenario : String
  pub cause : String
  pub dedupe_key : String
  pub audit_payload : Fields

pub record ScenarioAStockoutTrigger : Type 0 where
  pub detector : String
  pub part_id : String
  pub production_order_id : String
  pub inventory_version : ℕ
  pub production_start_date : ℕ
  pub detected_at : Instant
  pub source_versions : Versions

pub record ScenarioBQualityHoldTrigger : Type 0 where
  pub detector : String
  pub part_id : String
  pub quality_lot_id : String
  pub quality_lot_version : ℕ
  pub production_allocation_id : String
  pub production_allocation_version : ℕ
  pub production_order_id : String
  pub production_order_version : ℕ
  pub production_start_date : ℕ
  pub detected_at : Instant
  pub source_versions : Versions

pub record ScenarioCSupplierRiskTrigger : Type 0 where
  pub detector : String
  pub bulletin_id : String
  pub bulletin_version : ℕ
  pub supplier_id : String
  pub purchase_order_id : String
  pub purchase_order_version : ℕ
  pub production_order_id : String
  pub production_order_version : ℕ
  pub part_id : String
  pub production_start_date : ℕ
  pub detected_at : Instant
  pub source_versions : Versions

-- `for field_name, value in ...: if not value.strip(): raise ValueError`
abbrev pub named_texts : List (String × String) → Result String (Unit {0})
unfolding is_blank
named_texts [] = ok tt
named_texts ((name, value) ∷ rest) =
    if is_blank value then err (join_text name " must not be blank") else named_texts rest

abbrev pub positive_versions : List ℕ → String → Result String (Unit {0})
positive_versions versions message = if any (λ v. v == 0) versions then err message else ok tt

abbrev pub source_versions_valid : Versions → Result String (Unit {0})
source_versions_valid versions =
    if any (λ (v : String × ℕ). v.0 == "" || v.1 == 0) versions
    then err "source versions must use non-empty names and positive values"
    else ok tt

-- The three `__post_init__`.
unfoldable pub stockout_trigger_valid : ScenarioAStockoutTrigger → Result String (Unit {0})
unfolding is_blank
stockout_trigger_valid t =
    and_then
      (named_texts (
        ("detector", t.detector)
        ∷ ("part ID", t.part_id)
        ∷ ("production order ID", t.production_order_id)
        ∷ []))
      (λ _.
        and_then (positive_versions (t.inventory_version ∷ []) "inventory version must be positive")
          (λ _. source_versions_valid t.source_versions))

unfoldable pub quality_hold_trigger_valid : ScenarioBQualityHoldTrigger → Result String (Unit {0})
unfolding is_blank
quality_hold_trigger_valid t =
    and_then
      (named_texts (
        ("detector", t.detector)
        ∷ ("part ID", t.part_id)
        ∷ ("quality-lot ID", t.quality_lot_id)
        ∷ ("production-allocation ID", t.production_allocation_id)
        ∷ ("production-order ID", t.production_order_id)
        ∷ []))
      (λ _.
        and_then
          (positive_versions
            (t.quality_lot_version ∷ t.production_allocation_version ∷ t.production_order_version
              ∷ [])
            "quality-hold source versions must be positive")
          (λ _. source_versions_valid t.source_versions))

unfoldable pub supplier_risk_trigger_valid : ScenarioCSupplierRiskTrigger → Result String (Unit {0})
unfolding is_blank
supplier_risk_trigger_valid t =
    and_then
      (named_texts (
        ("detector", t.detector)
        ∷ ("bulletin ID", t.bulletin_id)
        ∷ ("supplier ID", t.supplier_id)
        ∷ ("purchase-order ID", t.purchase_order_id)
        ∷ ("production-order ID", t.production_order_id)
        ∷ ("part ID", t.part_id)
        ∷ []))
      (λ _.
        and_then
          (positive_versions
            (t.bulletin_version ∷ t.purchase_order_version ∷ t.production_order_version ∷ [])
            "supplier-risk source versions must be positive")
          (λ _. source_versions_valid t.source_versions))

module _ (python : Python) where
  -- The key of a signal: a prefix and the hash of its canonical text.
  abbrev pub hashed_key : String → Fields → String
  hashed_key prefix signal = join_text prefix (python.sha256_hex (python.dumps signal))

  -- The facts that both the key and the audit payload of a trigger hold.
  unfoldable pub stockout_signal : ScenarioAStockoutTrigger → Fields
  stockout_signal t = field "detector" (text t.detector) (
      field "part_id" (text t.part_id) (
        field "production_order_id" (text t.production_order_id) (
          field "inventory_version" (num t.inventory_version) (
            field "production_start_date" (text (python.date_isoformat t.production_start_date))
              end))))

  unfoldable pub quality_hold_signal : ScenarioBQualityHoldTrigger → Fields
  quality_hold_signal t = field "detector" (text t.detector) (
      field "part_id" (text t.part_id) (
        field "quality_lot_id" (text t.quality_lot_id) (
          field "quality_lot_version" (num t.quality_lot_version) (
            field "production_allocation_id" (text t.production_allocation_id) (
              field "production_allocation_version" (num t.production_allocation_version) (
                field "production_order_id" (text t.production_order_id) (
                  field "production_order_version" (num t.production_order_version) (
                    field "production_start_date"
                      (text (python.date_isoformat t.production_start_date)) end))))))))

  unfoldable pub supplier_risk_signal : ScenarioCSupplierRiskTrigger → Fields
  supplier_risk_signal t = field "detector" (text t.detector) (
      field "bulletin_id" (text t.bulletin_id) (
        field "bulletin_version" (num t.bulletin_version) (
          field "supplier_id" (text t.supplier_id) (
            field "purchase_order_id" (text t.purchase_order_id) (
              field "purchase_order_version" (num t.purchase_order_version) (
                field "production_order_id" (text t.production_order_id) (
                  field "production_order_version" (num t.production_order_version) (
                    field "part_id" (text t.part_id) (
                      field "production_start_date"
                        (text (python.date_isoformat t.production_start_date)) end)))))))))

  -- The properties of the three classes.
  unfoldable pub stockout_attention : ScenarioAStockoutTrigger → AttentionTrigger
  unfolding stockout_signal
  stockout_attention t = record {
    detector = t.detector;
    detected_at = t.detected_at;
    source_versions = t.source_versions;
    scenario = "scenario_a";
    cause = "projected_stockout";
    dedupe_key = hashed_key "scenario_a:stockout:v1:" (stockout_signal t);
    audit_payload = stockout_signal t;
  }

  unfoldable pub quality_hold_attention : ScenarioBQualityHoldTrigger → AttentionTrigger
  unfolding quality_hold_signal
  quality_hold_attention t = record {
    detector = t.detector;
    detected_at = t.detected_at;
    source_versions = t.source_versions;
    scenario = "scenario_b";
    cause = "quality_hold";
    dedupe_key = hashed_key "scenario_b:quality_hold:v1:" (quality_hold_signal t);
    audit_payload = quality_hold_signal t;
  }

  unfoldable pub supplier_risk_attention : ScenarioCSupplierRiskTrigger → AttentionTrigger
  unfolding supplier_risk_signal
  supplier_risk_attention t = record {
    detector = t.detector;
    detected_at = t.detected_at;
    source_versions = t.source_versions;
    scenario = "scenario_c";
    cause = "supplier_risk";
    dedupe_key = hashed_key "scenario_c:supplier_risk:v1:" (supplier_risk_signal t);
    audit_payload = supplier_risk_signal t;
  }
