-- ===== src/Planning.antt =====
-- The decisions of the gates: src/enterprise_agent/application/gate.py and candidates.py, with `Money`
-- of domain/contracts.py. A currency is a text, and a decimal its canonical text.
pub mod Context
pub mod Candidates
pub mod ScenarioAGate
pub mod BoundedGate
pub mod Samples
mod Tests
use harmony_takehome.Prelude.{ℕ, String, Bool, true, false, Option, none, some, List, []}
use harmony_takehome.Domain.{Decimal, Evidence}

pub record Money : Type 0 where
  pub amount : Decimal
  pub currency : String

pub record SupplierCandidate : Type 0 where
  pub supplier_id : String
  pub evidence : Evidence
  pub lead_time_days : ℕ
  pub arrival_date : ℕ

pub data GateStatus : Type 0 where
  no_action manual_review pending_approval denied : GateStatus

pub data GateDenialReason : Type 0 where
  missing_required_scope stale_source_evidence : GateDenialReason
  original_purchase_order_mismatch production_order_mismatch quantity_mismatch : GateDenialReason
  purchase_order_not_reroutable ineligible_supplier invalid_supplier_pricing : GateDenialReason
  missing_approval_limit approval_limit_exceeded : GateDenialReason

pub record GateDecision : Type 0 where
  pub status : GateStatus
  pub approval_required : Bool
  pub denial_reasons : List GateDenialReason
  pub estimated_value : Option Money
  pub candidate : Option SupplierCandidate

abbrev pub is_pending_approval : GateStatus → Bool
is_pending_approval GateStatus.pending_approval = true
is_pending_approval _ = false

-- The end of both gates: denied for the reasons found, and else held for approval.
unfoldable pub decision_for :
    List GateDenialReason → Option Money → Option SupplierCandidate → GateDecision
decision_for [] value candidate = record {
  status = GateStatus.pending_approval;
  approval_required = true;
  denial_reasons = [];
  estimated_value = value;
  candidate = candidate;
}
decision_for reasons value candidate = record {
  status = GateStatus.denied;
  approval_required = false;
  denial_reasons = reasons;
  estimated_value = value;
  candidate = candidate;
}
