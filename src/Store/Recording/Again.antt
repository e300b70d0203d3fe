-- ===== src/Store/Recording/Again.antt =====
-- `record_uploaded_item` of control-plane/app/repos/workspace_repo.py on an item that it has
-- recorded.
use mathlib.Core.Path.{subst}
use multi_tenant_file_delive.Prelude.{
  ℕ, String, Bool, ◌≡◌, ◌≢◌, refl, sym, ◌∙◌, true, false, Option, none, some, List, [], ◌∷◌, ◌++◌,
  ◌==◌, string_eq, ==_refl, any, any-append, find, arith, Bool-cases, inl, inr,
}
use multi_tenant_file_delive.Text.{Text}
use multi_tenant_file_delive.Store.Rows.{
  Task, TaskItem, Workspace, PhysicalObject, WorkspaceObject, Database,
}
use multi_tenant_file_delive.Store.Session.{Session, ◌>>=◌, pure}
use multi_tenant_file_delive.Store.Ensures.{Ensures, ensures-pure, ensures-bind}
use multi_tenant_file_delive.Store.Workspaces.{
  WorkspaceResultReceipt, WorkspaceObjectRecord, WorkspaceObjectWriteResult, record_uploaded_item,
  join, join_row,
}
use multi_tenant_file_delive.Store.Recording.{
  Recorded, unrecorded, existing, created, record_uploaded_item-Recorded,
}

-- The item has an object.
abbrev pub has_object : String → List WorkspaceObject → Bool
has_object item_id = any (λ o. o.task_item_id == item_id)

-- A record of the join is one of an object in the table.
abbrev of_item : String → WorkspaceObjectRecord → Bool
of_item item_id r = r.workspace_object.task_item_id == item_id

skip_row :
    (item_id : String) (o : WorkspaceObject) (p : Option PhysicalObject) (w : Option Workspace)
    (rest : List WorkspaceObjectRecord)
    → (o.task_item_id == item_id) ≡ false
    → find (of_item item_id) (join_row o p w ++ rest) ≡ find (of_item item_id) rest
skip_row item_id o none w rest other = refl
skip_row item_id o (some p) none rest other = refl
skip_row item_id o (some p) (some w) rest other = rw other refl

find-join :
    (item_id : String) (ps : List PhysicalObject) (ws : List Workspace) (os : List WorkspaceObject)
    (r : WorkspaceObjectRecord)
    → find (of_item item_id) (join ps ws os) ≡ some r
    → has_object item_id os ≡ true
unfolding join
find-join item_id ps ws [] r h = absurd (ground arith)
find-join item_id ps ws (o ∷ os) r h = elim (Bool-cases (o.task_item_id == item_id)) [
  | inl same ↦ rw same refl
  | inr other ↦
      rw other
        (find-join item_id ps ws os r (sym (skip_row item_id o _ _ (join ps ws os) other) ∙ h))
]

module _ (task : Task) (item : TaskItem) (receipt : WorkspaceResultReceipt) (bucket : Text) where
  Recorded-has_object :
      (db db' : Database) (r : Option WorkspaceObjectWriteResult)
      → Recorded task item receipt bucket db r db'
      → r ≢ none
      → has_object item.id db'.workspace_objects ≡ true
  Recorded-has_object db db' r (unrecorded why) found = absurd (found refl)
  Recorded-has_object db db' r (existing old here) found =
      find-join item.id db.physical_objects db.workspaces db.workspace_objects old here
  Recorded-has_object db db' r (created w p o is) found =
      let same : (o.task_item_id == item.id) ≡ true = rw is.of_item (==_refl item.id) in
      any-append (λ x. x.task_item_id == item.id) db.workspace_objects (o ∷ [])
      ∙ ground (arith, same)

  -- An item that has an object gets no other.
  Recorded-unchanged :
      (db db' : Database) (r : Option WorkspaceObjectWriteResult)
      → has_object item.id db.workspace_objects ≡ true
      → Recorded task item receipt bucket db r db'
      → db' ≡ db
  Recorded-unchanged db db' r has (unrecorded why) = refl
  Recorded-unchanged db db' r has (existing old here) = refl
  Recorded-unchanged db db' r has (created w p o is) = absurd (ground (arith, is.new_item))

-- Once an item has its object, recording it again, with whatever receipt and time, changes no
-- table: the second result may differ, the rows are those that the first call left.
record_uploaded_item-again :
    (task : Task) (item : TaskItem) (receipt receipt' : WorkspaceResultReceipt) (bucket : Text)
    (at at' : Option ℕ) (s : Session)
    → Ensures
        (record_uploaded_item task item receipt bucket at >>= λ first.
          record_uploaded_item task item receipt' bucket at' >>= λ second. pure (first, second))
        s
        (λ (first, second) t. first ≢ none → Recorded task item receipt bucket s.db first t.db)
record_uploaded_item-again task item receipt receipt' bucket at at' s =
    ensures-bind _ _ _ (record_uploaded_item-Recorded task item receipt bucket at s)
      λ first t recorded.
        ensures-bind _ _ _ (record_uploaded_item-Recorded task item receipt' bucket at' t)
          λ second u again. ensures-pure _ λ found.
            subst (Recorded task item receipt bucket s.db first)
              (sym (
                Recorded-unchanged task item receipt' bucket t.db u.db second
                  (Recorded-has_object task item receipt bucket s.db t.db first recorded found)
                  again))
              recorded
