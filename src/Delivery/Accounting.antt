-- ===== src/Delivery/Accounting.antt =====
-- What one result of the data plane does to the items of its task, and how its own items are
-- counted: the loop of `apply_delivery_result` of control-plane/app/services/delivery.py.

use multi_tenant_file_delive.Prelude.{
  ℕ, String, ◌≡◌, refl, Bool, true, false, ◌&&◌, ◌||◌, ◌+◌, Option, none, some, List, [], ◌∷◌, ◌++◌,
  arith, ◌==◌, string_eq, any, find, update_where, length, if◌then◌else◌,
}
use multi_tenant_file_delive.Store.Rows.{Task, TaskItem, Database}
use multi_tenant_file_delive.Store.Items
use multi_tenant_file_delive.Delivery.{
  DeliveryResultItemSpec, DeliveryResultMessage, Applied, error_of,
}

-- The row that an item of the result means: of the task, for the task's tenant.
abbrev pub means :
    List Task → DeliveryResultMessage → Task → DeliveryResultItemSpec → TaskItem → Bool
means tasks message task item =
    Items.selects_item tasks item.item_id (some message.task_id) (some task.owner_tenant_id)

-- The result has one of the two known states, and there is such a row.
abbrev pub reaches :
    List Task → DeliveryResultMessage → Task → List TaskItem → DeliveryResultItemSpec → Bool
reaches tasks message task rows item =
    (item.status == "uploaded" || item.status == "failed")
    && any (means tasks message task item) rows

-- The rows after one item of the result.
abbrev pub report :
    List Task
    → DeliveryResultMessage
    → Task
    → List TaskItem
    → DeliveryResultItemSpec
    → List TaskItem
report tasks message task rows item =
    if item.status == "uploaded"
    then update_where (means tasks message task item)
        (Items.with_upload "uploaded" [] (some message.ended_at)) rows
    else if item.status == "failed"
    then update_where (means tasks message task item)
        (Items.with_upload "failed" (error_of item message) none) rows
    else rows

-- What a part of the loop did: `rows` are the items after it, `reached` how many of the result's
-- items it applied and `lost` those that it did not.
pub record Moved (rows : List TaskItem) (reached : ℕ) (lost : List String) (acc : Applied)
    (db : Database) (acc' : Applied) (db' : Database) : Type 0 where
  pub tasks : db'.tasks ≡ db.tasks
  pub workspaces : db'.workspaces ≡ db.workspaces
  pub events : db'.events ≡ db.events
  pub items : db'.items ≡ rows
  pub applied : acc'.applied_items ≡ acc.applied_items + reached
  pub missing : acc'.missing_items ≡ acc.missing_items ++ lost
  pub objects :
      length db'.workspace_objects + acc.workspace_objects_created
      ≡ length db.workspace_objects + acc'.workspace_objects_created
  pub bytes :
      length db'.physical_objects + acc.workspace_objects_created
      ≡ length db.physical_objects + acc'.workspace_objects_created

abbrev pub count_reached : Bool → ℕ
count_reached b = if b then 1 else 0

abbrev pub lost_if : Bool → String → List String
lost_if reached id = if reached then [] else id ∷ []

-- A row that is found is there.
unfoldable pub is_there : Option TaskItem → Bool
is_there none = false
is_there (some row) = true

pub is_there-find :
    (p : TaskItem → Bool) (rows : List TaskItem) → is_there (find p rows) ≡ any p rows
unfolding is_there
is_there-find p [] = refl
is_there-find p (row ∷ rows) = ground (arith, is_there-find p rows)

pub any-update_where :
    (p q : TaskItem → Bool) (f : TaskItem → TaskItem) (rows : List TaskItem)
    → ((row : TaskItem) → q (f row) ≡ q row)
    → any q (update_where p f rows) ≡ any q rows
any-update_where p q f [] h = refl
any-update_where p q f (row ∷ rows) h = ground (arith, h row, any-update_where p q f rows h)
