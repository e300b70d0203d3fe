-- ===== src/Delivery/Messages.antt =====
-- The message that hands a task to the data plane: `build_delivery_task_message` of
-- control-plane/app/services/delivery.py. A time stands for its ISO text.
use multi_tenant_file_delive.Prelude.{
  ℕ, String, Option, none, some, List, [], ◌∷◌, map, ◌==◌, text_eq, if◌then◌else◌,
}
use multi_tenant_file_delive.Text.{Text}
use multi_tenant_file_delive.Classifier.Item.{Severity}
use multi_tenant_file_delive.Store.Rows.{Task, TaskItem, Value, str, num}

pub record DeliveryItemSpec : Type 0 where
  pub item_id : String
  pub src_path : Text
  pub filename : Text
  pub ext : Text
  pub file_size : ℕ
  pub dst_path : Text
  pub severity : Severity
  pub target_name_raw : Text
  pub target_name_matched : Option Text
  pub document_type : Text
  pub category_name : Text
  pub upload_status : String
  pub source_path : Option Text

pub record DeliverySourceReference : Type 0 where
  pub type_name : String
  pub bucket : String
  pub key : Text
  pub sha256 : Option String
  pub size : Option ℕ

pub record DeliveryTaskMessage : Type 0 where
  pub schema_version : ℕ
  pub topic : String
  pub task_id : String
  pub idempotency_key : String
  pub submission_label : Text
  pub temp_dir : Text
  pub bucket_name : Text
  pub created_at : ℕ
  pub items : List DeliveryItemSpec
  pub source : Option DeliverySourceReference
  pub traceparent : Option String
  pub metadata : List (String × Value)

-- `item.target_name_matched or None`
abbrev pub or_none : Text → Option Text
or_none t = if t == [] then none else some t

-- `item.src_path if source is not None else None`
abbrev pub path_if : Option DeliverySourceReference → Text → Option Text
path_if none path = none
path_if (some source) path = some path

abbrev pub spec_of : Option DeliverySourceReference → TaskItem → DeliveryItemSpec
spec_of source item = record {
  item_id = item.id;
  src_path = item.src_path;
  filename = item.filename;
  ext = item.ext;
  file_size = item.file_size;
  dst_path = item.dst_path;
  severity = item.severity;
  target_name_raw = item.target_name_raw;
  target_name_matched = or_none item.target_name_matched;
  document_type = item.document_type;
  category_name = item.category_name;
  upload_status = item.upload_status;
  source_path = path_if source item.src_path;
}

abbrev pub version_of : Option DeliverySourceReference → ℕ
version_of none = 1
version_of (some source) = 2

abbrev pub confirmed_at_entry : Option ℕ → List (String × Value)
confirmed_at_entry none = []
confirmed_at_entry (some at) = ("confirmed_at", num at) ∷ []

abbrev pub metadata_of : Task → List (String × Value)
metadata_of task =
    ("status", str task.status)
    ∷ ("created_by", str task.created_by)
    ∷ ("created_at", num task.created_at)
    ∷ confirmed_at_entry task.confirmed_at

-- `now` is the default of `created_at`, and `traceparent` what the tracing library gives.
unfoldable pub build_delivery_task_message :
    Task
    → List TaskItem
    → Text
    → Option DeliverySourceReference
    → Option String
    → ℕ
    → DeliveryTaskMessage
build_delivery_task_message task upload_items bucket_name source traceparent now = record {
  schema_version = version_of source;
  topic = "delivery.tasks.v1";
  task_id = task.id;
  idempotency_key = task.idempotency_key;
  submission_label = task.submission_label;
  temp_dir = task.temp_dir;
  bucket_name = bucket_name;
  created_at = now;
  items = map (spec_of source) upload_items;
  source = source;
  traceparent = traceparent;
  metadata = metadata_of task;
}
