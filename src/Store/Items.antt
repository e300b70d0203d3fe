-- ===== src/Store/Items.antt =====
-- control-plane/app/repos/item_repo.py. An argument that is `None` is `none`.
use multi_tenant_file_delive.Prelude.{
  ℕ, suc, String, Bool, true, ◌&&◌, ◌||◌, Option, none, some, List, [], ◌∷◌, ◌++◌, ◌==◌, string_eq,
  text_eq, any, keep, find, count_p, update_where, str_leb, text_leb, sort_by, if◌then◌else◌,
}
use multi_tenant_file_delive.Text.{Text}
use multi_tenant_file_delive.Classifier.Item.{ClassifiedItem}
use multi_tenant_file_delive.Store.Rows.{TaskItem, Task}
use multi_tenant_file_delive.Store.Session.{
  Action, integrity_error, ◌>>=◌, ◌>>◌, pure, raise_if, reads, writes, gen_id,
}

-- The join with the item's task, which has to belong to the tenant, where one is given.
abbrev pub in_tenant : List Task → Option String → String → Bool
in_tenant tasks none task_id = true
in_tenant tasks (some tenant) task_id =
    any (λ t. t.id == task_id && t.owner_tenant_id == tenant) tasks

abbrev pub of_task : Option String → TaskItem → Bool
of_task none i = true
of_task (some task_id) i = i.task_id == task_id

-- The columns of a classified item, with the defaults of `TaskItem`.
abbrev pub row_of : String → String → Text → ClassifiedItem → TaskItem
row_of id task_id matched c = record {
  id = id;
  task_id = task_id;
  src_path = c.src_path;
  filename = c.filename;
  ext = c.ext;
  file_size = c.file_size;
  target_name_raw = c.target_name_raw;
  target_name_matched = matched;
  document_type = c.document_type;
  category_name = c.category_name;
  dst_dir = c.dst_dir;
  dst_path = c.dst_path;
  severity = c.severity;
  error_code = c.error_code;
  error_message = c.error_message;
  warning_message = c.warning_message;
  upload_status = "pending";
  upload_error = [];
  uploaded_at = none;
}

-- A row breaks the unique constraint on task and source path, or the primary key.
abbrev pub clashes : TaskItem → TaskItem → Bool
clashes new i = (i.task_id == new.task_id && i.src_path == new.src_path) || i.id == new.id

-- `d["target_name_matched"] = ""` for `None`, which `classify_task` does to every row.
abbrev pub matched_or_empty : Option Text → Text
matched_or_empty none = []
matched_or_empty (some t) = t

unfoldable pub insert_row : String → ClassifiedItem → Action TaskItem
insert_row task_id c = do
  id ← gen_id
  let row : TaskItem = row_of id task_id (matched_or_empty c.target_name_matched) c
  taken ← reads (λ db. any (clashes row) db.items)
  raise_if taken integrity_error
  writes (λ db. record db { items = db.items ++ row ∷ [] })
  pure row

unfoldable pub bulk_insert : String → List ClassifiedItem → Action (List TaskItem)
bulk_insert task_id [] = pure []
bulk_insert task_id (c ∷ cs) = do
  row ← insert_row task_id c
  rows ← bulk_insert task_id cs
  pure (row ∷ rows)

-- By source path, then by id.
abbrev pub by_path : TaskItem → TaskItem → Bool
by_path a b = if a.src_path == b.src_path then str_leb a.id b.id else text_leb a.src_path b.src_path

abbrev pub listed : List Task → String → Option String → TaskItem → Bool
listed tasks task_id tenant i = i.task_id == task_id && in_tenant tasks tenant i.task_id

unfoldable pub list_by_task : String → Option String → Action (List TaskItem)
list_by_task task_id tenant =
    reads (λ db. sort_by by_path (keep (listed db.tasks task_id tenant) db.items))

abbrev pub selects_item : List Task → String → Option String → Option String → TaskItem → Bool
selects_item tasks item_id task_id tenant i =
    i.id == item_id && (of_task task_id i && in_tenant tasks tenant i.task_id)

abbrev pub with_upload : String → Text → Option ℕ → TaskItem → TaskItem
with_upload status error uploaded_at i = record i {
  upload_status = status;
  upload_error = error;
  uploaded_at = uploaded_at;
}

-- The row as it is after the update, or `none` where the query finds none.
unfoldable pub update_upload_status :
    String → String → Option String → Option String → Text → Option ℕ → Action (Option TaskItem)
update_upload_status item_id status task_id tenant error uploaded_at = do
  writes (λ db. record db {
    items =
        update_where (selects_item db.tasks item_id task_id tenant)
          (with_upload status error uploaded_at) db.items;
  })
  reads (λ db. find (selects_item db.tasks item_id task_id tenant) db.items)

-- `Task.id == task_id` and the owner, in the subquery of the reset.
abbrev pub resets : List Task → String → Option String → TaskItem → Bool
resets tasks task_id tenant i =
    i.task_id == task_id && (i.upload_status == "failed" && in_tenant tasks tenant i.task_id)

-- The failed items of a task are pending again; the result is their number.
unfoldable pub batch_reset_failed : String → Option String → Action ℕ
batch_reset_failed task_id tenant = do
  reset ← reads (λ db. count_p (resets db.tasks task_id tenant) db.items)
  writes (λ db. record db {
    items = update_where (resets db.tasks task_id tenant) (with_upload "pending" [] none) db.items;
  })
  pure reset

-- `group_by(TaskItem.upload_status)`: each status once, with its number of rows.
unfoldable pub add_status : String → List (String × ℕ) → List (String × ℕ)
add_status status [] = (status, 1) ∷ []
add_status status ((key, n) ∷ counts) =
    let rest = add_status status counts in
    if key == status then (key, suc n) ∷ counts else (key, n) ∷ rest

unfoldable pub group_statuses : List TaskItem → List (String × ℕ)
unfolding add_status
group_statuses [] = []
group_statuses (i ∷ items) = add_status i.upload_status (group_statuses items)

unfoldable pub count_by_status : String → Option String → Action (List (String × ℕ))
unfolding group_statuses
count_by_status task_id tenant =
    reads (λ db. group_statuses (keep (listed db.tasks task_id tenant) db.items))
