-- ===== src/Planning/BoundedGate/RoundTrip.antt =====
-- Reading back the calls of a plan that has been built.
use harmony_takehome.Prelude.{
  String, ◌≡◌, refl, false, Option, none, some, List, [], ◌∷◌, ok, arith, All, subst, ◌<◌, leb,
  guard_ok,
}
use harmony_takehome.Json.{Fields, size, get}
use harmony_takehome.Text.{Python, is_blank}
use harmony_takehome.Domain.{Instant, Plan, Versions}
use harmony_takehome.Workflow.Tools.{ToolInput, ToolName, Validator, tool_value}
use harmony_takehome.Workflow.BoundedPlan.{bounded_tool_calls_from_plan, calls_from, validated_call}
use harmony_takehome.Workflow.PlanHash.{recompute_plan_hash, hash_payload}
use harmony_takehome.Planning.BoundedGate.{
  serialized, serialized_calls, hashed, unhashed_plan, build_bounded_tool_plan, is_nil,
  source_versions_error, plan_or_error,
}

-- The input of a call is one that its model has validated: validating its dump gives it back.
abbrev pub IsValidated : Validator → ToolInput → Type 0
IsValidated validate call = validate call.model call.dump ≡ some call.dump

module _ (validate : Validator) where
  validated_call-value :
      (tool : ToolName) (dump : Fields)
      → validate tool dump ≡ some dump
      → validated_call validate (tool_value tool) dump ≡ some (record { model = tool; dump = dump })
  unfolding validated_call
  validated_call-value ToolName.create_replacement_po dump h = rw h refl
  validated_call-value ToolName.reduce_or_cancel_po dump h = rw h refl
  validated_call-value ToolName.place_purchase_order_hold dump h = rw h refl
  validated_call-value ToolName.notify_production dump h = rw h refl
  validated_call-value ToolName.schedule_arrival_check dump h = rw h refl
  validated_call-value ToolName.reallocate_lot dump h = rw h refl
  validated_call-value ToolName.flag_shortage_to_purchasing dump h = rw h refl

  calls_from-serialized_calls :
      (calls : List ToolInput)
      → All (IsValidated validate) calls
      → calls_from validate (serialized_calls calls) ≡ some calls
  unfolding calls_from serialized_calls serialized size get
  calls_from-serialized_calls [] h = refl
  calls_from-serialized_calls (call ∷ calls) h =
      rw (validated_call-value call.model call.dump h.0, calls_from-serialized_calls calls h.1) refl

  planned : (o : Option String) (p plan : Plan) → plan_or_error o p ≡ ok plan → p ≡ plan
  planned none p plan h = ground arith
  planned (some message) p plan h = cc

  -- The calls are not empty, and the plan has been built.
  built :
      (python : Python) (id attention actor approver : String) (calls : List ToolInput)
      (versions : Versions) (policy : String) (created expires : Instant) (plan : Plan)
      → build_bounded_tool_plan python id attention actor approver calls versions policy created
          expires
        ≡ ok plan
      → (is_nil calls ≡ false)
        × (created < expires)
        × (hashed python
              (unhashed_plan id attention actor approver calls versions policy created expires)
            ≡ plan)
  unfolding build_bounded_tool_plan
  built python id attention actor approver calls versions policy created expires plan h =
      let (some_call, h1) = guard_ok (is_nil calls) _ _ plan h in
      let (later, h2) = guard_ok (leb expires created) _ _ plan h1 in
      let (named, h3) = guard_ok (is_blank policy) _ _ plan h2 in
      (
        some_call,
        ground arith,
        planned (source_versions_error versions)
            (hashed python
              (unhashed_plan id attention actor approver calls versions policy created expires))
            plan h3,
      )

  parsed :
      (python : Python) (id attention actor approver : String) (calls : List ToolInput)
      (versions : Versions) (policy : String) (created expires : Instant)
      → is_nil calls ≡ false
      → All (IsValidated validate) calls
      → bounded_tool_calls_from_plan validate (
          hashed python
            (unhashed_plan id attention actor approver calls versions policy created expires))
        ≡ some calls
  unfolding bounded_tool_calls_from_plan hashed serialized_calls size get
  parsed python id attention actor approver [] versions policy created expires e h = cc
  parsed python id attention actor approver (call ∷ calls) versions policy created expires e h =
      calls_from-serialized_calls (call ∷ calls) h

  -- If a bounded plan is built from calls that their models validate, then the calls that are read
  -- back from its parameters are exactly these, in their order; its hash is the one recomputed from
  -- it; and it expires after its creation.
  pub build_bounded_tool_plan-read :
      (python : Python) (id attention actor approver : String) (calls : List ToolInput)
      (versions : Versions) (policy : String) (created expires : Instant) (plan : Plan)
      → All (IsValidated validate) calls
      → build_bounded_tool_plan python id attention actor approver calls versions policy created
          expires
        ≡ ok plan
      → (bounded_tool_calls_from_plan validate plan ≡ some calls)
        × (recompute_plan_hash python plan ≡ plan.plan_hash)
        × (created < expires)
  unfolding hashed recompute_plan_hash hash_payload
  build_bounded_tool_plan-read python id attention actor approver calls versions policy created
        expires plan valid h =
      let (some_call, later, same) =
        built python id attention actor approver calls versions policy created expires plan h in
      (
        subst (λ p. bounded_tool_calls_from_plan validate p ≡ some calls) same
            (parsed python id attention actor approver calls versions policy created expires
              some_call valid),
        subst (λ (p : Plan). recompute_plan_hash python p ≡ p.plan_hash) same refl,
        later,
      )
