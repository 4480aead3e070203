-- ===== src/Workflow/Store/Lease.antt =====
-- The requests of other workers on a leased workflow.
use harmony_takehome.Prelude.{
  ℕ, String, ◌≡◌, refl, ◌≢◌, false, none, some, List, [], ◌∷◌, ok, arith, ◌<◌, string_eq, nat_eq,
  All,
}
use text.Mathlib.TextEquality.{eq_iff}
use harmony_takehome.Domain.{Instant, WorkflowStatus, WorkflowState, WorkflowStateSnapshot}
use harmony_takehome.Workflow.Store.Statements.{lease_live, at_step, in_compensation}
use harmony_takehome.Workflow.Store.Request.{Request, perform, run_requests, worker_of, instant_of}

-- A worker that does not own the live lease holds no lease in the sense of the store.
not_live :
    (worker : String) (at : Instant) (w : WorkflowState) {owner : String}
    → w.lease_owner ≡ some owner
    → worker ≢ owner
    → lease_live worker at w ≡ false
not_live worker at w {owner} o ne = ground (arith, eq_iff owner worker)

-- The row is leased: it has left `pending`, and it has an owner and an expiry.
pub record IsLeased (owner : String) (expires : Instant) (s : WorkflowStateSnapshot) : Type 0 where
  pub taken : s.workflow.status ≢ WorkflowStatus.pending
  pub owned : s.workflow.lease_owner ≡ some owner
  pub until : s.workflow.lease_expires_at ≡ some expires

module _ (owner : String) (expires : Instant) (s : WorkflowStateSnapshot)
    (l : IsLeased owner expires s) where
  outsider_not_live :
      (worker : String) (at : Instant) → worker ≢ owner → lease_live worker at s.workflow ≡ false
  outsider_not_live worker at ne = not_live worker at s.workflow l.owned ne

  blocked_at_step :
      (worker : String) (index : ℕ) (at : Instant)
      → worker ≢ owner
      → at_step worker index at s.workflow ≡ false
  blocked_at_step worker index at ne = ground (arith, outsider_not_live worker at ne)

  blocked_compensation :
      (worker : String) (at : Instant)
      → worker ≢ owner
      → in_compensation worker at s.workflow ≡ false
  blocked_compensation worker at ne = ground (arith, outsider_not_live worker at ne)

  outsider_refused :
      (r : Request) → worker_of r ≢ owner → instant_of r < expires → perform r s ≡ ok none
  unfolding perform
  outsider_refused (Request.claims worker at until) ne t =
      ground (arith, outsider_not_live worker at ne, l.taken, l.until)
  outsider_refused (Request.completes_guard worker index at) ne t =
      ground (arith, blocked_at_step worker index at ne)
  outsider_refused (Request.starts_tool worker index key at) ne t =
      ground (arith, blocked_at_step worker index at ne)
  outsider_refused (Request.completes_tool worker index key result finish at) ne t =
      ground (arith, blocked_at_step worker index at ne)
  outsider_refused (Request.fails_tool worker index key error at) ne t =
      ground (arith, blocked_at_step worker index at ne)
  outsider_refused (Request.begins_compensation worker at) ne t =
      ground (arith, outsider_not_live worker at ne)
  outsider_refused (Request.starts_compensation worker index at) ne t =
      ground (arith, blocked_compensation worker at ne)
  outsider_refused (Request.completes_compensation worker index result finish at) ne t =
      ground (arith, blocked_compensation worker at ne)

  -- The requests are all of other workers, before the lease expires.
  abbrev pub IsOutside : Request → Type 0
  IsOutside r = (worker_of r ≢ owner) × (instant_of r < expires)

  -- While a workflow is leased to an owner until an expiry, every sequence of requests of other
  -- workers, each at an instant before the expiry, leaves it exactly as it is.
  pub run_requests_outside : (rs : List Request) → All IsOutside rs → run_requests rs s ≡ s
  unfolding run_requests
  run_requests_outside [] h = refl
  run_requests_outside (r ∷ rs) h =
      rw (outsider_refused r h.0.0 h.0.1) (run_requests_outside rs h.1)
