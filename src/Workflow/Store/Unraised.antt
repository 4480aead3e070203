-- ===== src/Workflow/Store/Unraised.antt =====
-- Where the transactions of the store cannot raise.
use harmony_takehome.Prelude.{◌≡◌, Bool, true, false, List}
use harmony_takehome.Domain.{WorkflowStateSnapshot, WorkflowStepState}
use harmony_takehome.Workflow.Store.Outcomes.{commits_if}
use harmony_takehome.Workflow.Store.Request.{Request, Transaction}
use harmony_takehome.Workflow.Store.Database.{keys_clash}

-- The request asks the store to close a compensated workflow, or to take an idempotency key.
abbrev pub may_raise : Request → Bool
may_raise (Request.completes_compensation worker index result finish at) = finish
may_raise (Request.starts_tool worker index key at) = true
may_raise _ = false

-- A transaction that commits a snapshot without a clash, or nothing, does not raise.
abbrev Quiet : List WorkflowStepState → Transaction → Type 0
Quiet others t =
    (b : Bool) × (s : WorkflowStateSnapshot) × (t ≡ commits_if b s)
    × (keys_clash s.steps others ≡ false)
