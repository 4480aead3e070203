-- ===== src/Planning/ScenarioAGate/Held.antt =====
-- What the gate of scenario A holds for approval.
use harmony_takehome.Prelude.{
  String, ◌≡◌, refl, sym, ap, ◌∙◌, subst, Bool, true, false, not, Option, none, some, List, [], ◌∷◌,
  ◌++◌, ok, and_then_ok, ◌&&◌, ◌==◌, nat_eq, if◌then◌else◌, ◌!=◌, string_eq, equal_of, arith,
}
use harmony_takehome.Json
use harmony_takehome.Json.{Json}
use harmony_takehome.Text.{Python, str_of, text_length}
use harmony_takehome.Domain.{Decimal, Versions, versions_eqb}
use harmony_takehome.Approvals.Escalation.{limit_for}
use harmony_takehome.Planning.{
  Money, SupplierCandidate, GateStatus, GateDenialReason, GateDecision, decision_for,
}
use harmony_takehome.Planning.Context.{
  AuthorizedContextBundle, EnterWorkflowRecommendation, ScenarioARecommendation, no_action,
  manual_review, enter_workflow, source_versions,
}
use harmony_takehome.Planning.Candidates.{reason_if}
use harmony_takehome.Planning.ScenarioAGate.{
  Checked, operation, safe_outcome, shipment_update_outcome, shipped_or_proposed, evaluate,
  evaluate_proposal, outstanding_quantity, quantity_reasons, same_value, eligible_candidate,
  estimated_value, value_reasons, limit_reasons, candidate_reasons, binding_reasons,
  has_required_reroute_scopes, parsed, positive_finite, money, times, priced,
}

both_nil : (xs ys : List GateDenialReason) → xs ++ ys ≡ [] → (xs ≡ []) × (ys ≡ [])
both_nil [] ys h = (refl, h)
both_nil (x ∷ xs) ys h = cc

no_reason : (bad : Bool) (reason : GateDenialReason) → reason_if bad reason ≡ [] → bad ≡ false
no_reason true reason h = cc
no_reason false reason h = refl

ok_value : {A : Type 0} (a b : A) → ◌≡◌ {A = Checked A} (ok a) (ok b) → a ≡ b
ok_value a b h = ground arith

required_none :
    (reasons : List GateDenialReason) (value : Option Money) (candidate : Option SupplierCandidate)
    → (decision_for reasons value candidate).approval_required ≡ true
    → (reasons ≡ [])
      × ((decision_for reasons value candidate).status ≡ GateStatus.pending_approval)
      × ((decision_for reasons value candidate).estimated_value ≡ value)
      × ((decision_for reasons value candidate).candidate ≡ candidate)
unfolding decision_for
required_none [] value candidate h = (refl, refl, refl, refl)
required_none (r ∷ rs) value candidate h = cc

same_id : (a b : String) → (a != b) ≡ false → a ≡ b
same_id a b h = equal_of a b (ground arith)

module _ (python : Python) (context : AuthorizedContextBundle) where
  -- A proposal that is held: nothing speaks against it.
  pub record IsHeld (r : EnterWorkflowRecommendation) (current : Versions) (decision : GateDecision)
      : Type 0 where
    pub outstanding : Decimal
    pub candidate : SupplierCandidate
    pub value : Money
    pub limit : Decimal
    pub pending : decision.status ≡ GateStatus.pending_approval
    pub fresh : versions_eqb (source_versions context) current ≡ true
    pub scoped : has_required_reroute_scopes python context ≡ true
    pub same_order : r.original_purchase_order_id ≡ context.original_purchase_order.record_id
    pub same_production : r.production_order_id ≡ context.production_order.record_id
    pub reroutable : outstanding_quantity python context ≡ ok (some outstanding)
    pub same_quantity : same_value python r.quantity outstanding ≡ ok true
    pub eligible : eligible_candidate python context r.supplier_id ≡ some candidate
    pub chosen : decision.candidate ≡ some candidate
    pub price : Decimal
    pub currency : Json
    pub priced :
        (parsed python (Json.get "unit_price" candidate.evidence.payload) ≡ some price)
        × (Json.get "currency" candidate.evidence.payload ≡ some currency)
    pub positive :
        (python.decimals.is_finite price ≡ true) × (python.decimals.le price "0" ≡ some false)
    pub product :
        (python.decimals.mul r.quantity price ≡ some value.amount)
        × (python.decimals.le "0" value.amount ≡ some true)
    pub in_currency : value.currency ≡ python.upper (str_of python currency)
    pub valued : decision.estimated_value ≡ some value
    pub limited : limit_for (python.upper value.currency) context.actor.approval_limits ≡ some limit
    pub within : python.decimals.le value.amount limit ≡ some true

  operation_ok : {A : Type 0} (o : Option A) (a : A) → operation o ≡ ok a → o ≡ some a
  operation_ok none a h = cc
  operation_ok (some b) a h = ground arith

  positive_ok :
      (value price : Decimal)
      → positive_finite python value ≡ ok (some price)
      → (value ≡ price)
        × (python.decimals.is_finite price ≡ true)
        × (python.decimals.le price "0" ≡ some false)
  positive_ok value price h = ground arith

  -- What the price, the currency and the value of a supplier are.
  abbrev Priced : SupplierCandidate → Decimal → Money → Type 0
  Priced c quantity m =
      (price : Decimal) × (currency : Json) × (parsed python
          (Json.get "unit_price" c.evidence.payload)
        ≡ some price)
      × (Json.get "currency" c.evidence.payload ≡ some currency)
      × (python.decimals.is_finite price ≡ true)
      × (python.decimals.le price "0" ≡ some false)
      × (python.decimals.mul quantity price ≡ some m.amount)
      × (python.decimals.le "0" m.amount ≡ some true)
      × (m.currency ≡ python.upper (str_of python currency))

  money_ok :
      (amount : Decimal) (currency : String) (m : Money)
      → money python amount currency ≡ ok (some m)
      → (amount ≡ m.amount)
        × (m.currency ≡ python.upper currency)
        × (python.decimals.le "0" m.amount ≡ some true)
  unfolding text_length
  money_ok amount currency m h =
      let (nonnegative, e, k) =
        and_then_ok (operation (python.decimals.le "0" amount)) _ (some m) h in
      let code =
        text_length (python.upper currency) == 3 && python.is_alpha (python.upper currency) in
      let (here, same) =
        some_only (nonnegative && code)
          (record { amount = amount; currency = python.upper currency }) m
          (ok_value _ (some m) k) in
      (
        ap (λ (x : Money). x.amount) same,
        ap (λ (x : Money). x.currency) (sym same),
        subst (λ (a : Decimal). python.decimals.le "0" a ≡ some true)
            (ap (λ (x : Money). x.amount) same)
            (operation_ok (python.decimals.le "0" amount) nonnegative e
              ∙ ap some (first_true nonnegative code here)),
      )
    where
      some_only :
          (b : Bool) (x y : Money) → (if b then some x else none) ≡ some y → (b ≡ true) × (x ≡ y)
      some_only b x y q = ground arith

      first_true : (a b : Bool) → (a && b) ≡ true → a ≡ true
      first_true a b q = ground arith

  priced_ok :
      (c : SupplierCandidate) (quantity : Decimal) (p : Option Decimal) (k : Option Json)
      (m : Money)
      → parsed python (Json.get "unit_price" c.evidence.payload) ≡ p
      → Json.get "currency" c.evidence.payload ≡ k
      → priced python quantity p k ≡ ok (some m)
      → Priced c quantity m
  unfolding priced times
  priced_ok c quantity none k m is_price is_currency h = let wrong = ok_value none (some m) h in cc
  priced_ok c quantity (some unit) none m is_price is_currency h =
      let wrong = ok_value none (some m) h in cc
  priced_ok c quantity (some unit) (some currency) m is_price is_currency h =
      let (o, e, k) = and_then_ok (positive_finite python unit) _ (some m) h in counted o e k
    where
      counted :
          (o : Option Decimal)
          → positive_finite python unit ≡ ok o
          → times python quantity currency o ≡ ok (some m)
          → Priced c quantity m
      counted none e k = let wrong = ok_value none (some m) k in cc
      counted (some price) e k =
          let (same, finite, positive) = positive_ok unit price e in
          let (amount, product, k') =
            and_then_ok (operation (python.decimals.mul quantity price)) _ (some m) k in
          let (same_amount, in_currency, nonnegative) =
            money_ok amount (str_of python currency) m k' in
          (
            price,
            currency,
            is_price ∙ ap some same,
            is_currency,
            finite,
            positive,
            operation_ok (python.decimals.mul quantity price) amount product ∙ ap some same_amount,
            nonnegative,
            in_currency,
          )

  -- The value of a candidate, where there is one.
  estimate_held :
      (c : SupplierCandidate) (quantity : Decimal) (m : Money)
      → estimated_value python (some c) quantity ≡ ok (some m)
      → Priced c quantity m
  unfolding estimated_value
  estimate_held c quantity m h =
      priced_ok c quantity (parsed python (Json.get "unit_price" c.evidence.payload))
        (Json.get "currency" c.evidence.payload) m refl refl h

  quantity_held :
      (quantity : Decimal) (o : Option Decimal)
      → quantity_reasons python quantity o ≡ ok []
      → (q : Decimal) × (o ≡ some q) × (same_value python quantity q ≡ ok true)
  quantity_held quantity none h = ground arith
  quantity_held quantity (some q) h =
      let (same, e, k) =
        and_then_ok (same_value python quantity q)
          (λ same. ok (reason_if (not same) GateDenialReason.quantity_mismatch)) [] h in
      let right =
        no_reason (not same) GateDenialReason.quantity_mismatch
          (ok_value (reason_if (not same) GateDenialReason.quantity_mismatch) [] k) in
      (q, refl, e ∙ ap ok (double same right))
    where
      double : (b : Bool) → not b ≡ false → b ≡ true
      double b h = ground arith

  limit_held :
      (amount : Decimal) (o : Option Decimal)
      → limit_reasons python amount o ≡ ok []
      → (l : Decimal) × (o ≡ some l) × (python.decimals.le amount l ≡ some true)
  limit_held amount none h = ground arith
  limit_held amount (some l) h =
      let (within, e, k) =
        and_then_ok (operation (python.decimals.le amount l))
          (λ within. ok (reason_if (not within) GateDenialReason.approval_limit_exceeded)) [] h in
      let right =
        no_reason (not within) GateDenialReason.approval_limit_exceeded
          (ok_value (reason_if (not within) GateDenialReason.approval_limit_exceeded) [] k) in
      (l, refl, operation_ok (python.decimals.le amount l) within e ∙ ap some (double within right))
    where
      double : (b : Bool) → not b ≡ false → b ≡ true
      double b h = ground arith

  value_held :
      (c : SupplierCandidate) (v : Option Money)
      → value_reasons python context (some c) v ≡ ok []
      → (m : Money) × (l : Decimal) × (v ≡ some m)
        × (limit_for (python.upper m.currency) context.actor.approval_limits ≡ some l)
        × (python.decimals.le m.amount l ≡ some true)
  value_held c none h = ground arith
  value_held c (some m) h =
      let (l, found, within) =
        limit_held m.amount (limit_for (python.upper m.currency) context.actor.approval_limits) h in
      (m, l, refl, found, within)

  candidate_held :
      (o : Option SupplierCandidate)
      → candidate_reasons python o ≡ []
      → (c : SupplierCandidate) × (o ≡ some c)
  candidate_held none h = cc
  candidate_held (some c) h = (c, refl)

  -- What the four bindings say.
  bound :
      (r : EnterWorkflowRecommendation) (current : Versions)
      → binding_reasons python context r current ≡ []
      → (versions_eqb (source_versions context) current ≡ true)
        × (has_required_reroute_scopes python context ≡ true)
        × (r.original_purchase_order_id ≡ context.original_purchase_order.record_id)
        × (r.production_order_id ≡ context.production_order.record_id)
  bound r current h =
      let (abc, d) =
        both_nil _
          (reason_if (r.production_order_id != context.production_order.record_id)
            GateDenialReason.production_order_mismatch)
          h in
      let (ab, c) =
        both_nil _
          (reason_if (r.original_purchase_order_id != context.original_purchase_order.record_id)
            GateDenialReason.original_purchase_order_mismatch)
          abc in
      let (a, b) =
        both_nil
          (reason_if (not (versions_eqb (source_versions context) current))
            GateDenialReason.stale_source_evidence)
          _ ab in
      (
        holds (versions_eqb (source_versions context) current) (no_reason _ _ a),
        holds (has_required_reroute_scopes python context) (no_reason _ _ b),
        same_id r.original_purchase_order_id context.original_purchase_order.record_id
            (no_reason _ _ c),
        same_id r.production_order_id context.production_order.record_id (no_reason _ _ d),
      )
    where
      holds : (b : Bool) → not b ≡ false → b ≡ true
      holds b h = ground arith

  -- The parts of a decision that has no reason against it.
  gathered :
      (r : EnterWorkflowRecommendation) (current : Versions) (decision : GateDecision)
      (o : Option Decimal) (v : Option Money) (qs ps : List GateDenialReason)
      → outstanding_quantity python context ≡ ok o
      → quantity_reasons python r.quantity o ≡ ok qs
      → estimated_value python (eligible_candidate python context r.supplier_id) r.quantity ≡ ok v
      → value_reasons python context (eligible_candidate python context r.supplier_id) v ≡ ok ps
      → decision_for
          (binding_reasons python context r current
            ++ (qs
                ++ (candidate_reasons python (eligible_candidate python context r.supplier_id)
                    ++ ps)))
          v
          (eligible_candidate python context r.supplier_id)
        ≡ decision
      → decision.approval_required ≡ true
      → IsHeld r current decision
  gathered r current decision o v qs ps e1 e2 e3 e4 same required =
      let found = eligible_candidate python context r.supplier_id in
      let reasons =
        binding_reasons python context r current
        ++ (qs ++ (candidate_reasons python found ++ ps)) in
      let (none_at_all, pending, valued, chosen) =
        required_none reasons v found
          (subst (λ (d : GateDecision). d.approval_required ≡ true) (sym same) required) in
      let (unbound, rest) =
        both_nil (binding_reasons python context r current)
          (qs ++ (candidate_reasons python found ++ ps)) none_at_all in
      let (no_quantity, rest') = both_nil qs (candidate_reasons python found ++ ps) rest in
      let (no_candidate, no_value) = both_nil (candidate_reasons python found) ps rest' in
      let (fresh, scoped, order, production) = bound r current unbound in
      let (q, is_q, same_q) = quantity_held r.quantity o (e2 ∙ ap ok no_quantity) in
      let (c, is_c) = candidate_held found no_candidate in
      let (m, l, is_m, limited, within) =
        value_held c v
          (subst (λ f. value_reasons python context f v ≡ ok []) is_c (e4 ∙ ap ok no_value)) in
      let (
        price, currency, is_price, is_currency, finite, positive, product, nonneg, same_currency,
      ) =
        estimate_held c r.quantity m
          (subst (λ f. estimated_value python f r.quantity ≡ ok (some m)) is_c (e3 ∙ ap ok is_m)) in
      record {
        outstanding = q;
        candidate = c;
        value = m;
        limit = l;
        pending = ap (λ (d : GateDecision). d.status) (sym same) ∙ pending;
        fresh = fresh;
        scoped = scoped;
        same_order = order;
        same_production = production;
        reroutable = e1 ∙ ap ok is_q;
        same_quantity = same_q;
        eligible = is_c;
        chosen = ap (λ (d : GateDecision). d.candidate) (sym same) ∙ chosen ∙ is_c;
        price = price;
        currency = currency;
        priced = (is_price, is_currency);
        positive = (finite, positive);
        product = (product, nonneg);
        in_currency = same_currency;
        valued = ap (λ (d : GateDecision). d.estimated_value) (sym same) ∙ valued ∙ is_m;
        limited = limited;
        within = within;
      }

  proposal-IsHeld :
      (r : EnterWorkflowRecommendation) (current : Versions) (decision : GateDecision)
      → evaluate_proposal python context r current ≡ ok decision
      → decision.approval_required ≡ true
      → IsHeld r current decision
  unfolding evaluate_proposal
  proposal-IsHeld r current decision h required =
      let (o, e1, k1) = and_then_ok (outstanding_quantity python context) _ decision h in
      let (qs, e2, k2) = and_then_ok (quantity_reasons python r.quantity o) _ decision k1 in
      let (v, e3, k3) =
        and_then_ok
          (estimated_value python (eligible_candidate python context r.supplier_id) r.quantity) _
          decision k2 in
      let (ps, e4, k4) =
        and_then_ok
          (value_reasons python context (eligible_candidate python context r.supplier_id) v) _
          decision k3 in
      gathered r current decision o v qs ps e1 e2 e3 e4 (ok_value _ decision k4) required

  -- If the gate of scenario A decides that a recommendation requires approval, then the decision is
  -- pending approval; the recommendation enters the workflow, and no shipment update makes it
  -- unnecessary; the sources are current; the actor has the scopes to read and to reroute; the
  -- orders are those of the context; the quantity is the outstanding one of an order that can be
  -- rerouted; the supplier is a viable candidate, whose record has a currency and a finite price
  -- above zero; the value is the quantity at this price in this currency, it is not negative, and it
  -- is within the limit of the actor for the currency.
  pub evaluate-IsHeld :
      (recommendation : ScenarioARecommendation) (current : Versions) (decision : GateDecision)
      → evaluate python context recommendation current ≡ ok decision
      → decision.approval_required ≡ true
      → (r : EnterWorkflowRecommendation) × (recommendation ≡ enter_workflow r)
        × (shipment_update_outcome python context ≡ none)
        × IsHeld r current decision
  unfolding evaluate safe_outcome
  evaluate-IsHeld (no_action rationale) current decision h required = ground (arith, required)
  evaluate-IsHeld (manual_review reason) current decision h required = ground (arith, required)
  evaluate-IsHeld (enter_workflow r) current decision h required =
      shipped (shipment_update_outcome python context) refl h
    where
      shipped :
          (o : Option GateStatus)
          → shipment_update_outcome python context ≡ o
          → shipped_or_proposed python context r current o ≡ ok decision
          → (r' : EnterWorkflowRecommendation) × (enter_workflow r ≡ enter_workflow r')
            × (shipment_update_outcome python context ≡ none)
            × IsHeld r' current decision
      shipped (some status) e k = ground (arith, required)
      shipped none e k = (r, refl, e, proposal-IsHeld r current decision k required)
