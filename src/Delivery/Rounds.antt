-- ===== src/Delivery/Rounds.antt =====
-- One round of the loop of `apply_delivery_result` of control-plane/app/services/delivery.py.
use mathlib.Core.List.{append-nil}
use multi_tenant_file_delive.Prelude.{
  ℕ, String, ◌≡◌, refl, sym, ◌∙◌, Bool, Option, none, some, List, [], arith, ◌==◌, string_eq, any,
  find, update_where, length-snoc, Bool-cases, inl, inr, if◌then◌else◌, ◌+◌, ◌++◌,
}
use multi_tenant_file_delive.Text.{Text}
use multi_tenant_file_delive.Store.Rows.{Task, TaskItem, Database}
use multi_tenant_file_delive.Store.Session.{Session, ◌>>=◌, pure}
use multi_tenant_file_delive.Store.Ensures.{
  Ensures, ensures-pure, ensures-weaken, ensures-bind, ensures-assoc, ensures-pure-bind, with_db,
}
use multi_tenant_file_delive.Store.Steps.{set_upload, ensures-update_upload_status}
use multi_tenant_file_delive.Store.Items
use multi_tenant_file_delive.Store.Workspaces.{WorkspaceObjectWriteResult}
use multi_tenant_file_delive.Store.Recording.{
  Recorded, unrecorded, existing, created, record_uploaded_item-Recorded,
}
use multi_tenant_file_delive.Delivery.{
  DeliveryResultItemSpec, DeliveryResultMessage, Applied, count_updated, note_object, has_key,
  error_of, receipt_of, record_object, update_item, apply_uploaded, apply_failed, apply_item,
}
use multi_tenant_file_delive.Delivery.Accounting.{
  means, reaches, report, Moved, count_reached, lost_if, is_there, is_there-find, any-update_where,
}

-- Where no table changes, the counters are all there is to compare.
Moved-still :
    {reached : ℕ} {lost : List String} (acc acc' : Applied) (db : Database)
    → acc'.applied_items ≡ acc.applied_items + reached
    → acc'.missing_items ≡ acc.missing_items ++ lost
    → acc'.workspace_objects_created ≡ acc.workspace_objects_created
    → Moved db.items reached lost acc db acc' db
Moved-still acc acc' db applied missing objects = record {
  tasks = refl;
  workspaces = refl;
  events = refl;
  items = refl;
  applied = applied;
  missing = missing;
  objects = omega (arith, objects);
  bytes = omega (arith, objects);
}

module _ (bucket : Text) (message : DeliveryResultMessage) (task : Task)
    (item : DeliveryResultItemSpec) (acc : Applied) where
  noted :
      (db db' : Database) (row : TaskItem) (r : Option WorkspaceObjectWriteResult)
      → Recorded task row (receipt_of item) bucket db r db'
      → Moved db.items 1 [] acc db (count_updated item (some row) (note_object item r acc)) db'
  noted db db' row r (unrecorded why) = elim (Bool-cases (has_key item.key)) [
    | inl keyed ↦
        rw (keyed, if◌then◌else◌) (Moved-still _ _ _ refl (sym (append-nil acc.missing_items)) refl)
    | inr keyless ↦
        rw (keyless, if◌then◌else◌)
          (Moved-still _ _ _ refl (sym (append-nil acc.missing_items)) refl)
  ]
  noted db db' row r (existing old here) =
      Moved-still _ _ _ refl (sym (append-nil acc.missing_items)) refl
  noted db db' row r (created w p o is) = record {
    tasks = refl;
    workspaces = refl;
    events = refl;
    items = refl;
    applied = refl;
    missing = sym (append-nil acc.missing_items);
    objects = omega (arith, length-snoc db.workspace_objects o);
    bytes = omega (arith, length-snoc db.physical_objects p);
  }

  after_update :
      (found : Option TaskItem) (s : Session)
      → Ensures
          (record_object bucket message task item found acc >>= λ noted.
            pure (count_updated item found noted))
          s
          (λ acc' t.
            Moved s.db.items
              (count_reached (is_there found))
              (lost_if (is_there found) item.item_id)
              acc
              s.db
              acc'
              t.db)
  unfolding record_object is_there
  after_update none s =
      ensures-pure-bind acc _ (ensures-pure _ (Moved-still _ _ _ (omega arith) refl refl))
  after_update (some row) s = ensures-assoc _ _ _ (
      ensures-bind _ _ _
        (record_uploaded_item-Recorded task row (receipt_of item) bucket (some message.ended_at) s)
        λ r t recorded. ensures-pure-bind _ _ (ensures-pure _ (noted s.db t.db row r recorded)))

  after_failure :
      (found : Option TaskItem) (s : Session)
      → Moved s.db.items
          (count_reached (is_there found))
          (lost_if (is_there found) item.item_id)
          acc
          s.db
          (count_updated item found acc)
          s.db
  unfolding is_there
  after_failure none s = Moved-still _ _ _ (omega arith) refl refl
  after_failure (some row) s = Moved-still _ _ _ refl (sym (append-nil acc.missing_items)) refl

  -- An update finds a row exactly if there was one.
  found_after :
      (tasks : List Task) (status : String) (error : Text) (at : Option ℕ) (rows : List TaskItem)
      → is_there (
          find
            (means tasks message task item)
            (update_where (means tasks message task item) (Items.with_upload status error at) rows))
        ≡ any (means tasks message task item) rows
  found_after tasks status error at rows =
      is_there-find (means tasks message task item)
        (update_where (means tasks message task item) (Items.with_upload status error at) rows)
      ∙ any-update_where (means tasks message task item) (means tasks message task item)
          (Items.with_upload status error at) rows (λ row. refl)

  -- The items before the update do not matter to what is counted.
  rebase :
      (rows rows' : List TaskItem) (found known : Bool) (db : Database) (acc' : Applied)
      (db' : Database)
      → found ≡ known
      → Moved rows
          (count_reached found)
          (lost_if found item.item_id)
          acc
          (record db { items = rows' })
          acc'
          db'
      → Moved rows (count_reached known) (lost_if known item.item_id) acc db acc' db'
  rebase rows rows' found known db acc' db' same m = rw (← same) (record {
    tasks = m.tasks;
    workspaces = m.workspaces;
    events = m.events;
    items = m.items;
    applied = m.applied;
    missing = m.missing;
    objects = m.objects;
    bytes = m.bytes;
  })

  abbrev Updated : List TaskItem → Session → Applied → Session → Type 0
  Updated rows s acc' t =
      Moved rows (count_reached (any (means s.db.tasks message task item) s.db.items))
        (lost_if (any (means s.db.tasks message task item) s.db.items) item.item_id) acc s.db acc'
        t.db

  apply_uploaded-Moved :
      (s : Session)
      → Ensures (apply_uploaded bucket message task item acc) s (
          Updated
            (update_where
              (means s.db.tasks message task item)
              (Items.with_upload "uploaded" [] (some message.ended_at))
              s.db.items)
            s)
  unfolding apply_uploaded update_item
  apply_uploaded-Moved s = ensures-update_upload_status _ _ _ _ _ _ _ (
      ensures-weaken _ _ (after_update _ _) λ acc' t moved.
        rebase _ _ _ _ s.db acc' t.db
          (found_after s.db.tasks "uploaded" [] (some message.ended_at) s.db.items) moved)

  apply_failed-Moved :
      (s : Session)
      → Ensures (apply_failed message task item acc) s (
          Updated
            (update_where
              (means s.db.tasks message task item)
              (Items.with_upload "failed" (error_of item message) none)
              s.db.items)
            s)
  unfolding apply_failed update_item
  apply_failed-Moved s = ensures-update_upload_status _ _ _ _ _ _ _ (
      ensures-pure _ (
        rebase _ _ _ _ s.db _ _
          (found_after s.db.tasks "failed" (error_of item message) none s.db.items)
          (after_failure _ (
            with_db
              (set_upload item.item_id "failed" (some message.task_id) (some task.owner_tenant_id)
                (error_of item message) none)
              s))))

  pub apply_item-Moved :
      (s : Session)
      → Ensures (apply_item bucket message task item acc) s (λ acc' t.
        Moved
          (report s.db.tasks message task s.db.items item)
          (count_reached (reaches s.db.tasks message task s.db.items item))
          (lost_if (reaches s.db.tasks message task s.db.items item) item.item_id)
          acc
          s.db
          acc'
          t.db)
  unfolding apply_item
  apply_item-Moved s = elim (Bool-cases (item.status == "uploaded")) [
    | inl uploaded ↦ rw (uploaded, if◌then◌else◌) (apply_uploaded-Moved s)
    | inr other ↦ elim (Bool-cases (item.status == "failed")) [
      | inl failed ↦ rw (other, failed, if◌then◌else◌) (apply_failed-Moved s)
      | inr neither ↦
          rw (other, neither, if◌then◌else◌)
            (ensures-pure _ (Moved-still _ _ _ (omega arith) refl refl))
    ]
  ]
