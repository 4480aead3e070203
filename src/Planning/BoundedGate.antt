-- ===== src/Planning/BoundedGate.antt =====
-- `BoundedToolPlanGate` and `build_bounded_tool_plan` of
-- src/enterprise_agent/application/bounded_tool_plan.py. A fresh identifier is an argument.
pub mod Authority
pub mod RoundTrip
use harmony_takehome.Prelude.{
  String, Bool, true, false, ◌||◌, not, any, leb, Option, none, some, List, [], ◌∷◌, ◌++◌, map,
  Result, ok, err, if◌then◌else◌, ◌==◌, nat_eq, ℕ,
}
use harmony_takehome.Json.{Json, Items, Fields, text, object, array, nil, cons, end, field}
use harmony_takehome.Text.{Python, is_blank}
use harmony_takehome.Domain.{Instant, Plan, ActorContext, Versions, versions_eqb}
use harmony_takehome.Workflow.Tools.{ToolInput, tool_value, authorized}
use harmony_takehome.Workflow.BoundedPlan.{
  bounded_tool_plan_intent, bounded_tool_plan_name, bounded_tool_plan_version,
}
use harmony_takehome.Workflow.PlanHash.{recompute_plan_hash}
use harmony_takehome.Planning.{GateDenialReason, GateDecision, decision_for}

-- `BoundedToolCall.serialized`. The tool of a call is the one whose model its input has.
unfoldable pub serialized : ToolInput → Json
serialized call =
    object (field "tool_name" (text (tool_value call.model)) (field "input" (object call.dump) end))

abbrev pub is_nil : List ToolInput → Bool
is_nil [] = true
is_nil _ = false

-- The first refusal adds the reason, and later ones do not repeat it.
unfoldable pub scope_reasons : ActorContext → List ToolInput → List GateDenialReason
unfolding authorized
scope_reasons actor [] = []
scope_reasons actor (call ∷ calls) =
    let rest = scope_reasons actor calls in
    if authorized actor call.model then rest else GateDenialReason.missing_required_scope ∷ []

-- `evaluate`: nothing for the error where there is no call.
unfoldable pub evaluate : ActorContext → List ToolInput → Versions → Versions → Option GateDecision
unfolding scope_reasons decision_for versions_eqb
evaluate actor calls source_versions current =
    if is_nil calls
    then none
    else some (
        decision_for
          ((if versions_eqb source_versions current
              then []
              else GateDenialReason.stale_source_evidence ∷ [])
            ++ scope_reasons actor calls)
          none none)

abbrev pub is_empty : Versions → Bool
is_empty [] = true
is_empty _ = false

-- `_validate_source_versions`
unfoldable pub source_versions_error : Versions → Option String
unfolding is_blank
source_versions_error versions =
    if is_empty versions
    then some "bounded tool plan requires source versions"
    else if any (λ (v : String × ℕ). is_blank v.0 || v.1 == 0) versions
    then some "bounded tool plan source versions are invalid"
    else none

unfoldable pub serialized_calls : List ToolInput → Items
unfolding serialized
serialized_calls [] = nil
serialized_calls (call ∷ calls) = cons (serialized call) (serialized_calls calls)

abbrev pub unhashed_plan :
    String
    → String
    → String
    → String
    → List ToolInput
    → Versions
    → String
    → Instant
    → Instant
    → Plan
unfolding serialized_calls
unhashed_plan id attention actor approver calls versions policy created expires = record {
  plan_id = id;
  attention_id = attention;
  actor_id = actor;
  approver_id = approver;
  intent = bounded_tool_plan_intent;
  workflow_name = some bounded_tool_plan_name;
  workflow_version = some bounded_tool_plan_version;
  parameters = field "tool_calls" (array (serialized_calls calls)) end;
  source_versions = versions;
  policy_version = policy;
  plan_hash = "";
  created_at = created;
  expires_at = expires;
}

-- `replace(plan, plan_hash=recompute_plan_hash(plan))`
unfoldable pub hashed : Python → Plan → Plan
unfolding recompute_plan_hash
hashed python plan = record plan { plan_hash = recompute_plan_hash python plan }

abbrev plan_or_error : Option String → Plan → Result String Plan
plan_or_error none plan = ok plan
plan_or_error (some message) plan = err message

unfoldable pub build_bounded_tool_plan :
    Python
    → String
    → String
    → String
    → String
    → List ToolInput
    → Versions
    → String
    → Instant
    → Instant
    → Result String Plan
unfolding source_versions_error hashed is_blank serialized_calls
build_bounded_tool_plan python id attention actor approver calls versions policy created expires =
    if is_nil calls
    then err "bounded tool plan must contain at least one tool"
    else if leb expires created
    then err "plan expiry must be after its creation time"
    else if is_blank policy
    then err "policy version is required"
    else plan_or_error (source_versions_error versions) (
        hashed python
          (unhashed_plan id attention actor approver calls versions policy created expires))
