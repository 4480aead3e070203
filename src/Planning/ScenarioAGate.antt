-- ===== src/Planning/ScenarioAGate.antt =====
-- ScenarioAGate of src/enterprise_agent/application/gate.py. An error is an InvalidOperation of the
-- arithmetic of decimals that the gate does not catch.
pub mod Held
use harmony_takehome.Prelude.{
  ℕ, String, Bool, true, false, not, any, all, ◌&&◌, ◌||◌, Option, none, some, List, [], ◌∷◌, ◌++◌,
  find, Result, ok, err, and_then, if◌then◌else◌, ◌==◌, ◌!=◌, string_eq, leb, nat_eq,
}
use harmony_takehome.Json
use harmony_takehome.Json.{Json, Fields}
use harmony_takehome.Text.{Python, str_of, text_length}
use harmony_takehome.Domain.{Decimal, Evidence, Versions, versions_eqb}
use harmony_takehome.Workflow.Tools.{in_scopes}
use harmony_takehome.Approvals.Escalation.{limit_for}
use harmony_takehome.Planning.{
  Money, SupplierCandidate, GateStatus, GateDenialReason, GateDecision, decision_for,
}
use harmony_takehome.Planning.Context.{
  AuthorizedContextBundle, EnterWorkflowRecommendation, ScenarioARecommendation, no_action,
  manual_review, enter_workflow, source_versions, string_payload_value,
}
use harmony_takehome.Planning.Candidates.{SupplierCandidateResult, filter_candidates, reason_if}

abbrev pub Checked : Type 0 → Type 0
Checked A = Result String A

abbrev pub operation : {A : Type 0} → Option A → Checked A
operation none = err "invalid operation"
operation (some a) = ok a

-- `_safe_outcome`
unfoldable pub safe_outcome : GateStatus → GateDecision
safe_outcome status = record {
  status = status;
  approval_required = false;
  denial_reasons = [];
  estimated_value = none;
  candidate = none;
}

module _ (python : Python) where
  -- The text of a field, stripped and in lower case, and empty without the field.
  abbrev pub status_of : Option Json → String
  status_of none = python.lower (python.strip "")
  status_of (some value) = python.lower (python.strip (str_of python value))

  abbrev receipt_outcome : ℕ → Option ℕ → GateStatus
  receipt_outcome start none = GateStatus.manual_review
  receipt_outcome start (some receipt) =
      if leb receipt start then GateStatus.no_action else GateStatus.manual_review

  abbrev receipt_date : Option Json → Option ℕ
  receipt_date none = none
  receipt_date (some value) = python.date_fromisoformat (str_of python value)

  abbrev details_outcome : ℕ → Fields → Option GateStatus
  unfolding Json.get
  details_outcome start details =
      if any (λ status. status == status_of (Json.get "shipment_status" details))
        ("on_schedule" ∷ "on_track" ∷ [])
      then some (receipt_outcome start (receipt_date (Json.get "expected_receipt_date" details)))
      else none

  -- `payload.get("payload", payload)`, which has to be a mapping
  abbrev nested_outcome : ℕ → Fields → Option Json → Option GateStatus
  nested_outcome start payload none = details_outcome start payload
  nested_outcome start payload (some (Json.object details)) = details_outcome start details
  nested_outcome start payload (some _) = some GateStatus.manual_review

  -- `_shipment_update_outcome`
  unfoldable pub shipment_update_outcome : AuthorizedContextBundle → Option GateStatus
  unfolding Json.get
  shipment_update_outcome context =
      nested_outcome context.trigger.production_start_date context.shipment_update.payload
        (Json.get "payload" context.shipment_update.payload)

  -- `_has_required_reroute_scopes`
  abbrev pub has_required_reroute_scopes : AuthorizedContextBundle → Bool
  has_required_reroute_scopes context =
      all (in_scopes context.actor.scopes)
        ("erp:read" ∷ "mail:read" ∷ "calendar:read" ∷ "erp:po:reroute" ∷ [])

  abbrev pub parsed : Option Json → Option Decimal
  parsed none = none
  parsed (some value) = python.decimals.of_text (str_of python value)

  abbrev pub positive_finite : Decimal → Checked (Option Decimal)
  positive_finite value =
      if python.decimals.is_finite value
      then and_then (operation (python.decimals.le value "0"))
          (λ low. ok (if low then none else some value))
      else ok none

  abbrev difference : Option Decimal → Option Decimal → Checked (Option Decimal)
  difference (some ordered) (some received) =
      and_then (operation (python.decimals.sub ordered received)) positive_finite
  difference _ _ = ok none

  -- `_outstanding_quantity`
  unfoldable pub outstanding_quantity : AuthorizedContextBundle → Checked (Option Decimal)
  unfolding Json.get
  outstanding_quantity context =
      let payload = context.original_purchase_order.payload in
      if any (λ status. status == status_of (Json.get "status" payload))
        ("delayed" ∷ "open" ∷ "partial" ∷ [])
      then difference (parsed (Json.get "ordered_quantity" payload))
          (parsed (Json.get "received_quantity" payload))
      else ok none

  -- `_eligible_candidate`
  unfoldable pub eligible_candidate : AuthorizedContextBundle → String → Option SupplierCandidate
  unfolding filter_candidates
  eligible_candidate context supplier_id = elim (filter_candidates python context) [
    | none ↦ none
    | some result ↦ find (λ candidate. candidate.supplier_id == supplier_id) result.candidates
  ]

  -- `Money(amount=..., currency=...)`, whose ValueError the caller catches
  abbrev pub money : Decimal → String → Checked (Option Money)
  unfolding text_length
  money amount currency = and_then (operation (python.decimals.le "0" amount)) (λ nonnegative. ok (
      if nonnegative
        && (text_length (python.upper currency) == 3 && python.is_alpha (python.upper currency))
      then some (record { amount = amount; currency = python.upper currency })
      else none))

  abbrev pub times : Decimal → Json → Option Decimal → Checked (Option Money)
  unfolding text_length
  times quantity currency none = ok none
  times quantity currency (some price) =
      and_then (operation (python.decimals.mul quantity price))
        (λ amount. money amount (str_of python currency))

  abbrev pub priced : Decimal → Option Decimal → Option Json → Checked (Option Money)
  unfolding text_length
  priced quantity (some unit_price) (some currency) =
      and_then (positive_finite unit_price) (times quantity currency)
  priced quantity _ _ = ok none

  -- `_estimated_value`
  unfoldable pub estimated_value : Option SupplierCandidate → Decimal → Checked (Option Money)
  unfolding Json.get text_length
  estimated_value none quantity = ok none
  estimated_value (some candidate) quantity =
      priced quantity (parsed (Json.get "unit_price" candidate.evidence.payload))
        (Json.get "currency" candidate.evidence.payload)

  -- Equal values, by both comparisons.
  abbrev pub same_value : Decimal → Decimal → Checked Bool
  same_value a b =
      and_then (operation (python.decimals.le a b))
        (λ below. and_then (operation (python.decimals.le b a)) (λ above. ok (below && above)))

  abbrev pub quantity_reasons : Decimal → Option Decimal → Checked (List GateDenialReason)
  quantity_reasons quantity none = ok (GateDenialReason.purchase_order_not_reroutable ∷ [])
  quantity_reasons quantity (some outstanding) =
      and_then (same_value quantity outstanding)
        (λ same. ok (reason_if (not same) GateDenialReason.quantity_mismatch))

  abbrev pub limit_reasons : Decimal → Option Decimal → Checked (List GateDenialReason)
  limit_reasons amount none = ok (GateDenialReason.missing_approval_limit ∷ [])
  limit_reasons amount (some limit) =
      and_then (operation (python.decimals.le amount limit))
        (λ within. ok (reason_if (not within) GateDenialReason.approval_limit_exceeded))

  abbrev pub candidate_reasons : Option SupplierCandidate → List GateDenialReason
  candidate_reasons none = GateDenialReason.ineligible_supplier ∷ []
  candidate_reasons (some candidate) = []

  abbrev pub value_reasons :
      AuthorizedContextBundle
      → Option SupplierCandidate
      → Option Money
      → Checked (List GateDenialReason)
  value_reasons context none none = ok []
  value_reasons context (some candidate) none = ok (GateDenialReason.invalid_supplier_pricing ∷ [])
  value_reasons context candidate (some value) =
      limit_reasons value.amount
        (limit_for (python.upper value.currency) context.actor.approval_limits)

  -- The four conditions that need no arithmetic.
  abbrev pub binding_reasons :
      AuthorizedContextBundle → EnterWorkflowRecommendation → Versions → List GateDenialReason
  binding_reasons context r current =
      reason_if (not (versions_eqb (source_versions context) current))
        GateDenialReason.stale_source_evidence
      ++ reason_if (not (has_required_reroute_scopes context))
          GateDenialReason.missing_required_scope
      ++ reason_if (r.original_purchase_order_id != context.original_purchase_order.record_id)
          GateDenialReason.original_purchase_order_mismatch
      ++ reason_if (r.production_order_id != context.production_order.record_id)
          GateDenialReason.production_order_mismatch

  -- The proposal, once no shipment update makes it unnecessary.
  unfoldable pub evaluate_proposal :
      AuthorizedContextBundle → EnterWorkflowRecommendation → Versions → Checked GateDecision
  unfolding outstanding_quantity eligible_candidate estimated_value decision_for versions_eqb
      source_versions
  evaluate_proposal context r current = and_then (outstanding_quantity context) (λ outstanding.
      and_then (quantity_reasons r.quantity outstanding) (λ quantity.
        and_then (estimated_value (eligible_candidate context r.supplier_id) r.quantity) (λ value.
          and_then (value_reasons context (eligible_candidate context r.supplier_id) value)
            (λ priced. ok (
              decision_for
                (binding_reasons context r current
                  ++ (quantity
                      ++ (candidate_reasons (eligible_candidate context r.supplier_id) ++ priced)))
                value (eligible_candidate context r.supplier_id))))))

  abbrev pub shipped_or_proposed :
      AuthorizedContextBundle
      → EnterWorkflowRecommendation
      → Versions
      → Option GateStatus
      → Checked GateDecision
  shipped_or_proposed context r current (some status) = ok (safe_outcome status)
  shipped_or_proposed context r current none = evaluate_proposal context r current

  -- `evaluate`
  unfoldable pub evaluate :
      AuthorizedContextBundle → ScenarioARecommendation → Versions → Checked GateDecision
  unfolding evaluate_proposal shipment_update_outcome safe_outcome
  evaluate context (no_action rationale) current = ok (safe_outcome GateStatus.no_action)
  evaluate context (manual_review reason) current = ok (safe_outcome GateStatus.manual_review)
  evaluate context (enter_workflow r) current =
      shipped_or_proposed context r current (shipment_update_outcome context)
