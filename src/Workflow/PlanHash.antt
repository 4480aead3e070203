-- ===== src/Workflow/PlanHash.antt =====
-- `recompute_plan_hash` of src/enterprise_agent/application/approvals.py.
use Prim.Native.String.{◌++◌ as append}
use harmony_takehome.Prelude.{ℕ, String, Option, none, some}
use harmony_takehome.Json.{Json, Fields, null, num, text, object, end, field}
use harmony_takehome.Text.{Python}
use harmony_takehome.Domain.{Plan}
use harmony_takehome.Workflow.Staging.{versions_json}

abbrev text_or_null : Option String → Json
text_or_null none = null
text_or_null (some value) = text value

abbrev num_or_null : Option ℕ → Json
num_or_null none = null
num_or_null (some value) = num value

-- The approval-relevant fields. `json.dumps` sorts the keys; JSON values cannot fail to serialise.
unfoldable pub hash_payload : Python → Plan → Fields
hash_payload python plan = field "attention_id" (text plan.attention_id) (
    field "actor_id" (text plan.actor_id) (
      field "approver_id" (text plan.approver_id) (
        field "intent" (text plan.intent) (
          field "workflow_name" (text_or_null plan.workflow_name) (
            field "workflow_version" (num_or_null plan.workflow_version) (
              field "parameters" (object plan.parameters) (
                field "source_versions" (object (versions_json plan.source_versions)) (
                  field "policy_version" (text plan.policy_version)
                    (field "expires_at" (text (python.isoformat plan.expires_at)) end)))))))))

unfoldable pub recompute_plan_hash : Python → Plan → String
unfolding hash_payload
recompute_plan_hash python plan =
    append "sha256:" (python.sha256_hex (python.dumps (hash_payload python plan)))
