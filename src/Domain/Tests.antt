-- ===== src/Domain/Tests.antt =====
-- The theorems on a concrete attention item.
use harmony_takehome.Prelude.{◌≤◌, ◌+◌, refl, List, [], ◌∷◌, length}
use harmony_takehome.Domain.Attention.{
  AttentionStatus, open_item, pending_approval, in_progress, resolved, allowed_transition,
}
use harmony_takehome.Domain.Attention.Lifecycle.{rank, length-IsLifecycle}

abbrev longest : List AttentionStatus
longest = pending_approval ∷ in_progress ∷ resolved ∷ []

length-IsLifecycle_example : length longest + rank open_item ≤ 3
unfolding allowed_transition
length-IsLifecycle_example = length-IsLifecycle open_item longest (refl, (refl, (refl, tt)))
