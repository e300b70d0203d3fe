-- ===== src/Store/Rows.antt =====
-- The tables of control-plane/app/models. A column that the program only compares is a `String`; a
-- path or a name that it walks is a `Text`; a time is a number. Foreign keys, the lengths of
-- columns and the tables `tenant` and `app_user` are left out.
use multi_tenant_file_delive.Prelude.{ℕ, String, Option, List}
use multi_tenant_file_delive.Text.{Text}
use multi_tenant_file_delive.Classifier.Item.{Severity, ClassifySummary}

pub record Task : Type 0 where
  pub id : String
  pub status : String
  pub idempotency_key : String
  pub owner_tenant_id : String
  pub owner_user_id : String
  pub submission_label : Text
  pub temp_dir : Text
  -- `none` is the empty dict of a task that is not classified
  pub summary_json : Option ClassifySummary
  pub created_by : String
  pub created_at : ℕ
  pub confirmed_at : Option ℕ
  pub finished_at : Option ℕ

pub record TaskItem : Type 0 where
  pub id : String
  pub task_id : String
  pub src_path : Text
  pub filename : Text
  pub ext : Text
  pub file_size : ℕ
  pub target_name_raw : Text
  pub target_name_matched : Text
  pub document_type : Text
  pub category_name : Text
  pub dst_dir : Text
  pub dst_path : Text
  pub severity : Severity
  pub error_code : String
  pub error_message : Text
  pub warning_message : Text
  pub upload_status : String
  pub upload_error : Text
  pub uploaded_at : Option ℕ

-- A value in the payload of an event.
pub data Value : Type 0 where
  str : String → Value
  chars : Text → Value
  num : ℕ → Value
  ids : List String → Value
  summary : ClassifySummary → Value
  null : Value

pub record TaskEvent : Type 0 where
  pub id : String
  pub task_id : String
  pub event_type : String
  pub payload_json : List (String × Value)
  pub created_at : ℕ

pub record Workspace : Type 0 where
  pub id : String
  pub name : Text
  pub owner_tenant_id : String
  pub target_tenant_id : String
  pub target_key : Text
  pub created_at : ℕ

pub record PhysicalObject : Type 0 where
  pub id : String
  pub owner_tenant_id : String
  pub sink_type : String
  pub bucket : Text
  pub object_key : Text
  pub size_bytes : ℕ
  pub sha256 : String
  pub created_at : ℕ

pub record WorkspaceObject : Type 0 where
  pub id : String
  pub workspace_id : String
  pub physical_object_id : String
  pub task_id : String
  pub task_item_id : String
  pub display_name : Text
  pub dst_path : Text
  pub uploaded_by_user_id : String
  pub uploaded_at : ℕ

pub record Database : Type 0 where
  pub tasks : List Task
  pub items : List TaskItem
  pub events : List TaskEvent
  pub workspaces : List Workspace
  pub physical_objects : List PhysicalObject
  pub workspace_objects : List WorkspaceObject
