-- ===== src/Planning/Context.antt =====
-- The facts and the proposals that the gate of scenario A reads: AuthorizedContextBundle of
-- src/enterprise_agent/application/context.py, and the recommendations of planning.py.
use harmony_takehome.Prelude.{
  ℕ, String, Bool, true, not, any, ◌&&◌, List, [], ◌∷◌, ◌++◌, map, Option, none, some, ◌==◌,
  string_eq,
}
use harmony_takehome.Json
use harmony_takehome.Json.{Json}
use harmony_takehome.Text.{Python, str_of}
use harmony_takehome.Domain.{ActorContext, AttentionItem, Decimal, Evidence, Versions}
use harmony_takehome.Domain.Triggers.{ScenarioAStockoutTrigger}

pub record AuthorizedContextBundle : Type 0 where
  pub actor : ActorContext
  pub attention : AttentionItem
  pub trigger : ScenarioAStockoutTrigger
  pub inventory : Evidence
  pub production_order : Evidence
  pub original_purchase_order : Evidence
  pub suppliers : List Evidence
  pub shipment_update : Evidence
  pub calendar_events : List Evidence

pub record EnterWorkflowRecommendation : Type 0 where
  pub workflow_name : String
  pub workflow_version : ℕ
  pub supplier_id : String
  pub quantity : Decimal
  pub original_purchase_order_id : String
  pub production_order_id : String
  pub rationale : String

pub data ScenarioARecommendation : Type 0 where
  no_action manual_review : String → ScenarioARecommendation
  enter_workflow : EnterWorkflowRecommendation → ScenarioARecommendation

-- `evidence`
unfoldable pub evidence : AuthorizedContextBundle → List Evidence
evidence context =
    (context.inventory ∷ context.production_order ∷ context.original_purchase_order ∷ [])
    ++ context.suppliers
    ++ (context.shipment_update ∷ [])
    ++ context.calendar_events

abbrev distinct_ids : List String → Bool
distinct_ids [] = true
distinct_ids (id ∷ ids) = not (any (λ other. other == id) ids) && distinct_ids ids

-- `__post_init__`: whether no identifier of evidence is there twice.
unfoldable pub context_valid : AuthorizedContextBundle → Bool
unfolding evidence
context_valid context = distinct_ids (map (λ item. item.evidence_id) (evidence context))

-- `source_versions`
unfoldable pub source_versions : AuthorizedContextBundle → Versions
unfolding evidence
source_versions context = map (λ item. (item.evidence_id, item.source_version)) (evidence context)

-- `str(evidence.payload.get(name, "")).strip()`
abbrev stripped : Python → Option Json → String
stripped python none = python.strip ""
stripped python (some value) = python.strip (str_of python value)

unfoldable pub string_payload_value : Python → String → Evidence → String
unfolding Json.get
string_payload_value python name item = stripped python (Json.get name item.payload)
