-- ===== src/Delivery.antt =====
-- How the control plane applies what the data plane reports: control-plane/app/services/delivery.py.
-- Spans and metrics are left out. The name of the bucket is that of the settings.
pub mod Messages
pub mod Accounting
pub mod Rounds
pub mod Loop
pub mod Applying
pub mod Tenancy
pub mod Redelivery
pub mod Twice
pub mod Consuming
pub mod Tests
use multi_tenant_file_delive.Prelude.{
  ℕ, String, Bool, true, false, ◌+◌, Option, none, some, List, [], ◌∷◌, ◌++◌, map, ◌==◌, string_eq,
  text_eq, if◌then◌else◌,
}
use multi_tenant_file_delive.Text.{Text, text, take}
use multi_tenant_file_delive.Store.Rows.{Task, TaskItem, TaskEvent, str, num, ids}
use multi_tenant_file_delive.Store.Session.{Action, ◌>>=◌, ◌>>◌, pure}
use multi_tenant_file_delive.Store.Tasks
use multi_tenant_file_delive.Store.Items
use multi_tenant_file_delive.Store.Events
use multi_tenant_file_delive.Store.Workspaces.{
  WorkspaceResultReceipt, WorkspaceObjectWriteResult, record_uploaded_item,
}

pub record DeliveryResultItemSpec : Type 0 where
  pub item_id : String
  pub status : String
  pub key : Option Text
  pub size : Option ℕ
  pub sha256 : Option String
  pub error : Option Text

pub record DeliveryResultMessage : Type 0 where
  pub topic : String
  pub task_id : String
  pub status : String
  pub uploaded : ℕ
  pub failed : ℕ
  pub processed : ℕ
  pub items : List DeliveryResultItemSpec
  pub started_at : ℕ
  pub ended_at : ℕ
  pub error : Option Text

pub record DeliveryResultApplySummary : Type 0 where
  pub task_id : String
  pub status : String
  pub uploaded : ℕ
  pub failed : ℕ
  pub processed : ℕ
  pub applied_items : ℕ
  pub missing_items : List String

-- The four variables of the loop over the items.
pub record Applied : Type 0 where
  pub applied_items : ℕ
  pub missing_items : List String
  pub workspace_objects_created : ℕ
  pub workspace_mapping_missing : List String

abbrev pub nothing_applied : Applied
nothing_applied = record {
  applied_items = 0;
  missing_items = [];
  workspace_objects_created = 0;
  workspace_mapping_missing = [];
}

-- `missing_items.append(item.item_id)`
abbrev pub add_missing : DeliveryResultItemSpec → Applied → Applied
add_missing item acc = record acc { missing_items = acc.missing_items ++ item.item_id ∷ [] }

abbrev pub count_updated : DeliveryResultItemSpec → Option TaskItem → Applied → Applied
count_updated item none acc = add_missing item acc
count_updated item (some row) acc = record acc { applied_items = acc.applied_items + 1 }

-- `if item.key`
abbrev pub has_key : Option Text → Bool
has_key none = false
has_key (some key) = if key == [] then Bool.false else true

-- What the loop notes of the object of an uploaded item.
abbrev pub note_object :
    DeliveryResultItemSpec → Option WorkspaceObjectWriteResult → Applied → Applied
note_object item none acc =
    if has_key item.key
    then record acc {
      workspace_mapping_missing = acc.workspace_mapping_missing ++ item.item_id ∷ [];
    }
    else acc
note_object item (some result) acc =
    if result.created
    then record acc { workspace_objects_created = acc.workspace_objects_created + 1 }
    else acc

-- `a or b` of texts
abbrev pub text_or : Option Text → Text → Text
text_or none b = b
text_or (some t) b = if t == [] then b else t

-- `(item.error or message.error or "upload failed")[:1000]`
abbrev pub error_of : DeliveryResultItemSpec → DeliveryResultMessage → Text
error_of item message =
    take 1000 (text_or item.error (text_or message.error (text "upload failed")))

abbrev pub receipt_of : DeliveryResultItemSpec → WorkspaceResultReceipt
receipt_of item = record { key = item.key; size = item.size; sha256 = item.sha256 }

unfoldable pub record_object :
    Text
    → DeliveryResultMessage
    → Task
    → DeliveryResultItemSpec
    → Option TaskItem
    → Applied
    → Action Applied
record_object bucket message task item none acc = pure acc
record_object bucket message task item (some row) acc = do
  result ← record_uploaded_item task row (receipt_of item) bucket (some message.ended_at)
  pure (note_object item result acc)

-- The update of an item that has arrived, or of one that has failed.
unfoldable pub update_item :
    DeliveryResultMessage
    → Task
    → DeliveryResultItemSpec
    → String
    → Text
    → Option ℕ
    → Action (Option TaskItem)
update_item message task item status error uploaded_at =
    Items.update_upload_status item.item_id status (some message.task_id)
      (some task.owner_tenant_id) error uploaded_at

unfoldable pub apply_uploaded :
    Text → DeliveryResultMessage → Task → DeliveryResultItemSpec → Applied → Action Applied
apply_uploaded bucket message task item acc = do
  updated ← update_item message task item "uploaded" [] (some message.ended_at)
  noted ← record_object bucket message task item updated acc
  pure (count_updated item updated noted)

unfoldable pub apply_failed :
    DeliveryResultMessage → Task → DeliveryResultItemSpec → Applied → Action Applied
apply_failed message task item acc = do
  updated ← update_item message task item "failed" (error_of item message) none
  pure (count_updated item updated acc)

-- The body of the loop.
unfoldable pub apply_item :
    Text → DeliveryResultMessage → Task → DeliveryResultItemSpec → Applied → Action Applied
apply_item bucket message task item acc =
    if item.status == "uploaded"
    then apply_uploaded bucket message task item acc
    else if item.status == "failed"
    then apply_failed message task item acc
    else pure (add_missing item acc)

unfoldable pub apply_items :
    Text → DeliveryResultMessage → Task → List DeliveryResultItemSpec → Applied → Action Applied
apply_items bucket message task [] acc = pure acc
apply_items bucket message task (item ∷ items) acc = do
  next ← apply_item bucket message task item acc
  apply_items bucket message task items next

abbrev pub summary_of : DeliveryResultMessage → ℕ → List String → DeliveryResultApplySummary
summary_of message applied missing = record {
  task_id = message.task_id;
  status = message.status;
  uploaded = message.uploaded;
  failed = message.failed;
  processed = message.processed;
  applied_items = applied;
  missing_items = missing;
}

abbrev pub applied_payload : DeliveryResultMessage → Applied → Events.Payload
applied_payload message acc =
    ("topic", str message.topic)
    ∷ ("status", str message.status)
    ∷ ("uploaded", num message.uploaded)
    ∷ ("failed", num message.failed)
    ∷ ("processed", num message.processed)
    ∷ ("applied_items", num acc.applied_items)
    ∷ ("missing_items", ids acc.missing_items)
    ∷ ("workspace_objects_created", num acc.workspace_objects_created)
    ∷ ("workspace_mapping_missing", ids acc.workspace_mapping_missing)
    ∷ []

-- The second event, if an item had no workspace.
unfoldable pub report_missing : DeliveryResultMessage → List String → Action (Unit {0})
report_missing message [] = pure tt
report_missing message (i ∷ is) = do
  Events.append message.task_id "workspace_mapping_missing"
      (("item_ids", ids (i ∷ is)) ∷ ("reason", str "No workspace found for item target key") ∷ [])
  pure tt

unfoldable pub apply_to :
    Text → DeliveryResultMessage → Option Task → Action DeliveryResultApplySummary
apply_to bucket message none = pure (summary_of message 0 (map (λ i. i.item_id) message.items))
apply_to bucket message (some task) = do
  acc ← apply_items bucket message task message.items nothing_applied
  Tasks.update_status message.task_id message.status (some task.owner_tenant_id) none
      (some message.ended_at)
  Events.append message.task_id "delivery_result_applied" (applied_payload message acc)
  report_missing message acc.workspace_mapping_missing
  pure (summary_of message acc.applied_items acc.missing_items)

-- The commit is the caller's.
unfoldable pub apply_delivery_result :
    Text → DeliveryResultMessage → Action DeliveryResultApplySummary
unfolding apply_to
apply_delivery_result bucket message = do
  task ← Tasks.get message.task_id none
  apply_to bucket message task
