-- ===== src/Api/Tasks/Samples.antt =====
-- Test data for the handlers of tasks: two tenants, a task that is classified and one that has
-- failed in part, and ids that count in marks.
use multi_tenant_file_delive.Prelude.{ℕ, zero, suc, String, none, [], ◌∷◌}
use multi_tenant_file_delive.Text.{Text, text}
use multi_tenant_file_delive.Classifier.Item.{Severity}
use multi_tenant_file_delive.Classifier.Samples.{archive}
use multi_tenant_file_delive.Store.Rows.{Task, TaskItem, Database}
use multi_tenant_file_delive.Auth.{CurrentActor}
use multi_tenant_file_delive.Api.Tasks.{Archive, readable}

abbrev pub id_of : ℕ → String
id_of zero = ""
id_of (suc n) = String.◌∷◌ "1" (id_of n)

abbrev pub uploader : CurrentActor
uploader = record { tenant_id = "hq"; user_id = "user"; role = "hq_uploader" }

abbrev pub viewer : CurrentActor
viewer = record { tenant_id = "hq"; user_id = "guest"; role = "subsidiary_viewer" }

abbrev task : String → String → Task
task id status = record {
  id = id;
  status = status;
  idempotency_key = id;
  owner_tenant_id = "hq";
  owner_user_id = "user";
  submission_label = [];
  temp_dir = text "work";
  summary_json = none;
  created_by = "user";
  created_at = 1;
  confirmed_at = none;
  finished_at = none;
}

abbrev pub classified_task : Task
classified_task = task "c" "classified"

abbrev pub failed_task : Task
failed_task = task "f" "partial_failed"

abbrev pub confirmed_task : Task
confirmed_task = task "d" "confirmed"

abbrev foreign_task : Task
foreign_task = record (task "x" "classified") { owner_tenant_id = "other" }

abbrev item : String → String → Text → String → TaskItem
item id task_id src status = record {
  id = id;
  task_id = task_id;
  src_path = src;
  filename = src;
  ext = [];
  file_size = 4;
  target_name_raw = [];
  target_name_matched = text "acme";
  document_type = text "report";
  category_name = text "finance";
  dst_dir = [];
  dst_path = text "finance/report";
  severity = Severity.ok;
  error_code = "";
  error_message = [];
  warning_message = [];
  upload_status = status;
  upload_error = [];
  uploaded_at = none;
}

abbrev pub failed_item : TaskItem
failed_item = item "i" "f" (text "a") "failed"

abbrev pub confirmed_item : TaskItem
confirmed_item = item "m" "d" (text "c") "pending"

abbrev pub database : Database
database = record {
  tasks = classified_task ∷ failed_task ∷ foreign_task ∷ [];
  items = failed_item ∷ item "j" "f" (text "b") "uploaded" ∷ item "k" "c" (text "a") "pending" ∷ [];
  events = [];
  workspaces =
      record {
        id = "w";
        name = text "Acme";
        owner_tenant_id = "hq";
        target_tenant_id = "acme";
        target_key = text "acme";
        created_at = 0;
      }
      ∷ [];
  physical_objects = [];
  workspace_objects = [];
}

abbrev pub files : Text → Archive
files dir = readable archive
