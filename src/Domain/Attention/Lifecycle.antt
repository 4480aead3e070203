-- ===== src/Domain/Attention/Lifecycle.antt =====
-- Sequences of transitions of one attention item.
use harmony_takehome.Prelude.{ℕ, ◌+◌, ◌≤◌, ◌<◌, ◌≡◌, true, List, [], ◌∷◌, length, arith}
use harmony_takehome.Domain.Attention.{
  AttentionStatus, open_item, pending_approval, in_progress, resolved, cancelled,
  allowed_transition,
}

-- Each status of the list follows the one before it by an allowed transition.
abbrev pub IsLifecycle : AttentionStatus → List AttentionStatus → Type 0
IsLifecycle status [] = Unit
IsLifecycle status (next ∷ rest) = (allowed_transition status next ≡ true) × IsLifecycle next rest

-- The transitions that a status is behind the longest way from open: open 0, pending approval 1, in
-- progress 2, resolved and cancelled 3.
abbrev pub rank : AttentionStatus → ℕ
rank open_item = 0
rank pending_approval = 1
rank in_progress = 2
rank resolved = 3
rank cancelled = 3

climbs :
    (status next : AttentionStatus)
    → allowed_transition status next ≡ true
    → rank status < rank next
unfolding allowed_transition
climbs status next h = ground arith

-- An attention item makes at most three transitions from open, two from pending approval, one from
-- in progress, and none once it is resolved or cancelled.
pub length-IsLifecycle :
    (status : AttentionStatus) (path : List AttentionStatus)
    → IsLifecycle status path
    → length path + rank status ≤ 3
length-IsLifecycle status [] h = ground arith
length-IsLifecycle status (next ∷ rest) h =
    omega (arith, climbs status next h.0, length-IsLifecycle next rest h.1)
