-- ===== src/Delivery/Tests.antt =====
-- A result of the data plane at a concrete database: one item arrives, one is not of the task, one
-- has a state that the control plane does not know.
use multi_tenant_file_delive.Prelude.{◌≡◌, refl, String, none, some, [], ◌∷◌, map, length, text_beq}
use multi_tenant_file_delive.Text.{text, is_space, strip}
use multi_tenant_file_delive.Store.Rows.{Database, TaskItem}
use multi_tenant_file_delive.Store.Session.{ok, Action, Session, ◌>>=◌, pure}
use multi_tenant_file_delive.Store.Ensures.{Ensures, opened}
use multi_tenant_file_delive.Store.Tasks
use multi_tenant_file_delive.Store.Items
use multi_tenant_file_delive.Store.Events
use multi_tenant_file_delive.Store.Workspaces.{
  WorkspaceResultReceipt, record_uploaded_item, with_key, unless_existing, in_workspace,
  insert_object, get_object_by_task_item, get_workspace_by_target_key, join,
}
use multi_tenant_file_delive.Store.Recording.Ending.{Ending, record_uploaded_item-Ending}
use multi_tenant_file_delive.Delivery.{
  DeliveryResultItemSpec, DeliveryResultMessage, DeliveryResultApplySummary, apply_delivery_result,
  apply_to, apply_items, apply_item, apply_uploaded, apply_failed, update_item, record_object,
  report_missing,
}
use multi_tenant_file_delive.Delivery.Applying.{Delivered, apply_delivery_result-Delivered}
use multi_tenant_file_delive.Delivery.Twice.{IsRepeated, apply_delivery_result-again}
use multi_tenant_file_delive.Delivery.Tenancy.{IsConfined, apply_delivery_result-IsConfined}
use multi_tenant_file_delive.Api.Tasks.Samples.{id_of, database, failed_item, failed_task}

abbrev reported_item : String → String → DeliveryResultItemSpec
reported_item id status = record {
  item_id = id;
  status = status;
  key = some (text "k");
  size = none;
  sha256 = none;
  error = none;
}

abbrev message : DeliveryResultMessage
message = record {
  topic = "delivery.results.v1";
  task_id = "f";
  status = "partial_failed";
  uploaded = 1;
  failed = 1;
  processed = 2;
  items = reported_item "i" "uploaded" ∷ reported_item "k" "failed" ∷ reported_item "j" "lost" ∷ [];
  started_at = 3;
  ended_at = 4;
  error = none;
}

abbrev start : Session
start = opened id_of 7 database

apply : Action DeliveryResultApplySummary
unfolding apply_delivery_result apply_to apply_items apply_item apply_uploaded apply_failed
    update_item record_object report_missing Tasks.get Tasks.update_status
    Items.update_upload_status Events.append record_uploaded_item with_key unless_existing
    in_workspace insert_object get_object_by_task_item get_workspace_by_target_key join ◌>>=◌
    is_space strip text_beq
apply = apply_delivery_result (text "bucket") message

applied_run :
    let (answer, after) = apply start in
    (answer
      ≡ ok (record {
        task_id = "f";
        status = "partial_failed";
        uploaded = 1;
        failed = 1;
        processed = 2;
        applied_items = 1;
        missing_items = "k" ∷ "j" ∷ [];
      }))
    × (map (λ (i : TaskItem). i.upload_status) after.db.items
        ≡ "uploaded" ∷ "uploaded" ∷ "pending" ∷ [])
    × (length after.db.workspace_objects ≡ 1)
    × (length after.db.events ≡ 1)
unfolding apply
applied_run = (refl, refl, refl, refl)

apply_delivery_result-Delivered_example :
    Ensures
      (apply_delivery_result (text "bucket") message)
      start
      (λ answer t. Delivered message database answer t.db)
apply_delivery_result-Delivered_example =
    apply_delivery_result-Delivered (text "bucket") message start

apply_delivery_result-again_example :
    Ensures
      (apply_delivery_result (text "bucket") message >>= λ first.
        apply_delivery_result (text "bucket") message >>= λ second. pure (first, second))
      start
      (λ (first, second) t.
        (once : Database) × Delivered message database first once
        × IsRepeated first second once t.db)
apply_delivery_result-again_example = apply_delivery_result-again (text "bucket") message start

apply_delivery_result-IsConfined_example :
    Ensures
      (apply_delivery_result (text "bucket") message)
      start
      (λ answer t. IsConfined message database answer t.db)
apply_delivery_result-IsConfined_example =
    apply_delivery_result-IsConfined (text "bucket") message start

abbrev receipt : WorkspaceResultReceipt
receipt = record { key = some (text "k"); size = none; sha256 = none }

record_uploaded_item-Ending_example :
    Ending failed_task failed_item receipt
      (text "bucket")
      none
      start
      (record_uploaded_item failed_task failed_item receipt (text "bucket") none start)
record_uploaded_item-Ending_example =
    record_uploaded_item-Ending failed_task failed_item receipt (text "bucket") none start
