-- ===== src/Approvals/Store/Lookup.antt =====
-- Searches of the table of approvals.
use harmony_takehome.Prelude.{
  String, ◌≡◌, ap, ◌∙◌, Bool, true, some, [], ◌∷◌, find, find-map, arith, if◌then◌else◌, ◌==◌,
  string_eq,
}
use harmony_takehome.Domain.{Plan, Approval}
use harmony_takehome.Approvals.Store.{
  Binding, ApprovalDb, load, has_approval_id, selected_by, returned_row, changed_row,
  update_approvals,
}

-- A narrower search stops at the same row, where that row passes it.
pub find-refined :
    (p q : Binding → Bool) (db : ApprovalDb) (b : Binding)
    → ((x : Binding) → q x ≡ true → p x ≡ true)
    → find p db ≡ some b
    → q b ≡ true
    → find q db ≡ some b
find-refined p q [] b within h k = cc
find-refined p q (x ∷ xs) b within h k = ground (arith, within x, find-refined p q xs b within)

pub find-passes :
    (p : Binding → Bool) (db : ApprovalDb) (b : Binding) → find p db ≡ some b → p b ≡ true
find-passes p [] b h = cc
find-passes p (x ∷ xs) b h = ground (arith, find-passes p xs b)

-- An update that asks for this identifier answers with the row that is loaded under it, changed, and
-- that row is loaded after it.
pub update-loaded :
    (id : String) (test : Approval → Bool) (change : Approval → Approval)
    → ((a : Approval) → test a ≡ true → (a.approval_id == id) ≡ true)
    → ((a : Approval) → (change a).approval_id ≡ a.approval_id)
    → (db : ApprovalDb) (plan : Plan) (a : Approval) → load id db ≡ some (plan, a)
    → test a ≡ true
    → ((update_approvals test change db).0 ≡ some (change a))
      × (load id (update_approvals test change db).1 ≡ some (plan, change a))
unfolding load
update-loaded id test change within keeps db plan a h k = (
  ap (returned_row change)
      (find-refined (has_approval_id id) (selected_by test) db (plan, a) (λ x. within x.1) h k),
  find-map (has_approval_id id) (changed_row test change) (λ b. ground (arith, keeps b.1)) db
        (plan, a) h
      ∙ ap (λ c. some (plan, if c then change a else a)) k,
)
