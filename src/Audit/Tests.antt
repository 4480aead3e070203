-- ===== src/Audit/Tests.antt =====
-- The theorems on one event.
use harmony_takehome.Prelude.{◌≡◌, refl, true, [], ◌∷◌, ◌++◌, ok, All}
use harmony_takehome.Json.{Json, Fields, end, field}
use harmony_takehome.Domain.{AuditEvent}
use harmony_takehome.Audit.{material_event}
use harmony_takehome.Audit.Sanitizer.{sanitize_fields}
use harmony_takehome.Audit.Sanitizer.Redaction.{safe_fields, sanitize_fields-redacted}
use harmony_takehome.Audit.Ledger.{Ledger}
use harmony_takehome.Audit.Ledger.Appends.{run_appends, run_appends-append_only, IsProper}
use harmony_takehome.Workflow.Samples.{python}

abbrev payload : Fields
payload = field "amount" (Json.decimal "12.50") (
    field "provider"
      (Json.object (field "api-key" (Json.text "k") (field "at" (Json.moment 7) end))) end)

abbrev redacted_payload : Fields
redacted_payload = field "amount" (Json.text "12.50") (
    field "provider"
      (Json.object (
        field "api-key" (Json.text "[redacted]")
          (field "at" (Json.text "2026-01-06T09:00:00") end)))
      end)

sanitize_fields-redacted_example :
    (safe_fields python redacted_payload ≡ true)
    × (sanitize_fields python redacted_payload ≡ ok redacted_payload)
unfolding sanitize_fields
sanitize_fields-redacted_example = sanitize_fields-redacted python payload redacted_payload refl

abbrev event : AuditEvent
unfolding material_event
event = material_event "schedule.fired" "run" 5 payload

run_appends-append_only_example :
    (new : Ledger) × (run_appends python (("event", event) ∷ ("event", event) ∷ []) [] ≡ [] ++ new)
    × All (IsProper python) new
run_appends-append_only_example =
    run_appends-append_only python (("event", event) ∷ ("event", event) ∷ []) []
