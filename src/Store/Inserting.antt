-- ===== src/Store/Inserting.antt =====
-- What an insert of a list of items leaves: `bulk_insert` of control-plane/app/repos/item_repo.py.
use mathlib.Core.List.{append-nil, append_assoc}
use multi_tenant_file_delive.Prelude.{
  String, ◌≡◌, sym, ap, ◌∙◌, false, List, [], ◌∷◌, ◌++◌, arith, string_eq, any, any-append, All,
  Bool-cases, inl, inr,
}
use multi_tenant_file_delive.Classifier.Item.{ClassifiedItem}
use multi_tenant_file_delive.Store.Rows.{TaskItem, Database}
use multi_tenant_file_delive.Store.Session.{Session, Action, ◌>>=◌}
use multi_tenant_file_delive.Store.Ensures.{
  Ensures, ensures-assoc, ensures-pure-bind, with_db, with_drawn,
}
use multi_tenant_file_delive.Store.Items

-- The row that a classified item becomes, if its id is drawn in the session.
abbrev pub row_in : Session → String → ClassifiedItem → TaskItem
row_in s task_id c =
    Items.row_of (s.ids s.drawn) task_id (Items.matched_or_empty c.target_name_matched) c

abbrev add_item : TaskItem → Database → Database
add_item i db = record db { items = db.items ++ i ∷ [] }

abbrev inserted_one : String → ClassifiedItem → Session → Session
inserted_one task_id c s = with_db (add_item (row_in s task_id c)) (with_drawn s)

-- The rows of a bulk insert, and the session after it.
abbrev pub rows_in : Session → String → List ClassifiedItem → List TaskItem
rows_in s task_id [] = []
rows_in s task_id (c ∷ cs) = row_in s task_id c ∷ rows_in (inserted_one task_id c s) task_id cs

abbrev pub inserted : String → List ClassifiedItem → Session → Session
inserted task_id [] s = s
inserted task_id (c ∷ cs) s = inserted task_id cs (inserted_one task_id c s)

-- No row of the list has the id of the new one, or its task and source path.
abbrev pub IsFresh : List TaskItem → TaskItem → Type 0
IsFresh items row = any (Items.clashes row) items ≡ false

IsFresh-left :
    (items more : List TaskItem) (row : TaskItem) → IsFresh (items ++ more) row → IsFresh items row
IsFresh-left items more row h = ground (arith, any-append (Items.clashes row) items more)

All-IsFresh-left :
    (items more rows : List TaskItem)
    → All (IsFresh (items ++ more)) rows
    → All (IsFresh items) rows
All-IsFresh-left items more [] h = tt
All-IsFresh-left items more (row ∷ rows) h =
    (IsFresh-left items more row h.0, All-IsFresh-left items more rows h.1)

module _ {B : Type 0} {Q : B → Session → Type 0} where
  ensures-insert_row :
      {s : Session} (task_id : String) (c : ClassifiedItem) (f : TaskItem → Action B)
      → (IsFresh s.db.items (row_in s task_id c)
          → Ensures (f (row_in s task_id c)) (inserted_one task_id c s) Q)
      → Ensures (Items.insert_row task_id c >>= f) s Q
  unfolding Items.insert_row ◌>>=◌
  ensures-insert_row {s = s} task_id c f h =
      elim (Bool-cases (any (Items.clashes (row_in s task_id c)) s.db.items)) [
        | inl taken ↦ record { post = rw taken tt }
        | inr fresh ↦ record { post = rw fresh (h fresh).post }
      ]

module _ {B : Type 0} {Q : B → Session → Type 0} where
  -- An insert of a list that succeeds stores all the rows, each of them new to the table.
  pub ensures-bulk_insert :
      (task_id : String) (cs : List ClassifiedItem) {s : Session} (f : List TaskItem → Action B)
      → (All (IsFresh s.db.items) (rows_in s task_id cs)
          → Ensures (f (rows_in s task_id cs)) (inserted task_id cs s) Q)
      → Ensures (Items.bulk_insert task_id cs >>= f) s Q
  unfolding Items.bulk_insert
  ensures-bulk_insert task_id [] f h = ensures-pure-bind [] f (h tt)
  ensures-bulk_insert task_id (c ∷ cs) {s} f h = ensures-assoc _ f _ (
      ensures-insert_row task_id c _ λ fresh. ensures-assoc _ f _ (
        ensures-bulk_insert task_id cs _ λ all_fresh.
          ensures-pure-bind _ f (h (fresh, All-IsFresh-left s.db.items _ _ all_fresh))))

-- A bulk insert appends the rows to the items and touches no other table.
pub inserted-db :
    (task_id : String) (cs : List ClassifiedItem) (s : Session)
    → (inserted task_id cs s).db ≡ record s.db { items = s.db.items ++ rows_in s task_id cs }
inserted-db task_id [] s =
    ap (λ (l : List TaskItem). record s.db { items = l }) (sym (append-nil s.db.items))
inserted-db task_id (c ∷ cs) s =
    inserted-db task_id cs (inserted_one task_id c s)
    ∙ ap (λ (l : List TaskItem). record s.db { items = l })
        (append_assoc s.db.items (row_in s task_id c ∷ [])
          (rows_in (inserted_one task_id c s) task_id cs))
