-- ===== src/Domain/Attention.antt =====
-- The attention lifecycle of src/enterprise_agent/domain/attention.py.
pub mod Lifecycle
use harmony_takehome.Prelude.{Bool, true, false}

pub data AttentionStatus : Type 0 where
  open_item pending_approval in_progress resolved cancelled : AttentionStatus

-- `_ALLOWED_TRANSITIONS`: whether the target is in the set of the current status.
unfoldable pub allowed_transition : AttentionStatus → AttentionStatus → Bool
allowed_transition open_item pending_approval = true
allowed_transition open_item resolved = true
allowed_transition open_item cancelled = true
allowed_transition pending_approval in_progress = true
allowed_transition pending_approval resolved = true
allowed_transition pending_approval cancelled = true
allowed_transition in_progress resolved = true
allowed_transition in_progress cancelled = true
allowed_transition _ _ = false
