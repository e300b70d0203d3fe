-- ===== src/Api/Tasks/Upload.antt =====
-- `upload_task` of control-plane/app/api/tasks.py, with `stage_task_archive` of
-- control-plane/app/services/staging_source.py. The archive on disk, the object store, the publisher
-- and the background run are outside. The claim of the idempotency guard is here a yes or a no from
-- outside; Claimed.antt has it in Redis. The metrics are left out.
use multi_tenant_file_delive.Prelude.{
  ℕ, String, Bool, true, false, not, ◌&&◌, ◌||◌, Option, none, some, List, [], ◌∷◌, ◌++◌, keep,
  length, ◌==◌, string_eq, if◌then◌else◌,
}
use multi_tenant_file_delive.Text.{Text, text}
use multi_tenant_file_delive.Classifier.Item.{Severity}
use multi_tenant_file_delive.Store.Rows.{Task, TaskItem, Value, str, num, chars, null}
use multi_tenant_file_delive.Store.Session.{
  Result, ok, err, Error, Session, Action, http, runtime_error, integrity_error, ◌>>=◌, ◌>>◌, pure,
  raise, or_raise, raise_if, commit, clock,
}
use multi_tenant_file_delive.Store.Tasks
use multi_tenant_file_delive.Store.Items
use multi_tenant_file_delive.Store.Events
use multi_tenant_file_delive.Auth.{CurrentActor, require_task_writer, to_event_payload}
use multi_tenant_file_delive.Delivery.Messages.{
  DeliverySourceReference, DeliveryTaskMessage, build_delivery_task_message,
}
use multi_tenant_file_delive.Api.Tasks.{find_task}

pub record UploadSettings : Type 0 where
  pub delivery_backend : String
  pub delivery_transport : String
  pub delivery_source_mode : String
  pub staging_bucket_name : String
  pub s3_bucket_name : Text

-- What the services outside do in this request: whether the guard grants the claim, the digest and
-- the size of the archive that a directory holds, and whether the object store and the publisher
-- succeed.
pub record Outside : Type 0 where
  pub claim : Bool
  pub archive : Text → Option (String × ℕ)
  pub put_object : String → Text → Bool
  pub delete_object : String → Text → Bool
  pub publish : DeliveryTaskMessage → Bool
  pub traceparent : Option String

-- `item.severity in ("ok", "warning") and item.upload_status == "pending"`
abbrev pub is_uploadable : TaskItem → Bool
is_uploadable item =
    elim item.severity [ Severity.ok ↦ true | Severity.warning ↦ true | _ ↦ false ]
    && item.upload_status == "pending"

abbrev pub handled : {A : Type 0} → (Error → Action A) → Result A × Session → Result A × Session
handled handler (ok a, s) = (ok a, s)
handled handler (err e, s) = handler e s

-- `try: m` with a handler that sees the error.
unfoldable pub on_error : {A : Type 0} → Action A → (Error → Action A) → Action A
on_error m handler s = handled handler (m s)

abbrev pub staged_key : String → Text
staged_key task_id = text "staged/tasks/" ++ (text task_id ++ text "/archive.zip")

unfoldable pub stage_task_archive : Outside → UploadSettings → Task → Action DeliverySourceReference
stage_task_archive outside settings task = do
  held ← or_raise (outside.archive task.temp_dir) runtime_error
  raise_if (not (outside.put_object settings.staging_bucket_name (staged_key task.id)))
      runtime_error
  pure (record {
    type_name = "object";
    bucket = settings.staging_bucket_name;
    key = staged_key task.id;
    sha256 = some held.0;
    size = some held.1;
  })

abbrev pub digest_value : Option String → Value
digest_value none = null
digest_value (some s) = str s

abbrev pub size_value : Option ℕ → Value
size_value none = null
size_value (some n) = num n

-- In the mode `object` the archive is staged; in the other modes there is no reference.
unfoldable pub source_of : Outside → UploadSettings → Task → Action (Option DeliverySourceReference)
unfolding stage_task_archive
source_of outside settings task =
    if settings.delivery_source_mode == "object"
    then (do ref ← stage_task_archive outside settings task; pure (some ref))
    else pure none

-- The event of a staged archive, which is committed at once.
unfoldable pub note_staged :
    CurrentActor → String → Option DeliverySourceReference → Action (Unit {0})
note_staged actor task_id none = pure tt
note_staged actor task_id (some ref) = do
  Events.append task_id "task_staged_source" (
      to_event_payload actor
      ++ ("type", str ref.type_name)
        ∷ ("bucket", str ref.bucket)
        ∷ ("key", chars ref.key)
        ∷ ("sha256", digest_value ref.sha256)
        ∷ ("size", size_value ref.size)
        ∷ [])
  commit

unfoldable pub deliver :
    Outside
    → UploadSettings
    → CurrentActor
    → String
    → Task
    → List TaskItem
    → Option DeliverySourceReference
    → Action DeliveryTaskMessage
deliver outside settings actor task_id task upload_items source = do
  note_staged actor task_id source
  now ← clock
  let message =
      build_delivery_task_message task upload_items settings.s3_bucket_name source
        outside.traceparent now
  raise_if (not (outside.publish message)) runtime_error
  pure message

-- A session whose flush has failed raises on the next use, before anything is written.
abbrev pub is_broken : Error → Bool
is_broken integrity_error = true
is_broken _ = false

-- The `except` block: the staged archive is deleted again, and the error raised again.
unfoldable pub compensate :
    Outside
    → CurrentActor
    → String
    → Option DeliverySourceReference
    → Error
    → Action DeliveryTaskMessage
compensate outside actor task_id none e = raise e
compensate outside actor task_id (some ref) e = do
  raise_if (not (outside.delete_object ref.bucket ref.key)) runtime_error
  raise_if (is_broken e) runtime_error
  now ← clock
  Events.append task_id "task_staged_source_deleted" (
      to_event_payload actor
      ++ ("bucket", str ref.bucket)
        ∷ ("key", chars ref.key)
        ∷ ("reason", str "publish_failed")
        ∷ ("deleted_at", num now)
        ∷ [])
  commit
  raise e

-- The worker's branch, from the list of items on.
unfoldable pub queue_task : Outside → UploadSettings → CurrentActor → String → Task → Action String
queue_task outside settings actor task_id task = do
  items ← Items.list_by_task task_id (some actor.tenant_id)
  raise_if (not (settings.delivery_transport == "file" || settings.delivery_transport == "kafka"))
      (http 500)
  source ← source_of outside settings task
  message ←
      on_error (deliver outside settings actor task_id task (keep is_uploadable items) source)
        (compensate outside actor task_id source)
  Tasks.update_status task_id "queued" (some actor.tenant_id) none none
  Events.append task_id "task_queued" (
      to_event_payload actor
      ++ ("topic", str message.topic)
        ∷ ("transport", str settings.delivery_transport)
        ∷ ("upload_items", num (length (keep is_uploadable items)))
        ∷ [])
  commit
  pure "queued"

-- The other branch: the run itself goes on in the background.
unfoldable pub request_upload : CurrentActor → String → Action String
request_upload actor task_id = do
  Events.append task_id "task_upload_requested" (to_event_payload actor)
  commit
  pure "uploading"

unfoldable pub upload_task : Outside → UploadSettings → CurrentActor → String → Action String
upload_task outside settings actor task_id = do
  require_task_writer actor
  task ← find_task actor task_id
  raise_if (not (task.status == "confirmed")) (http 422)
  raise_if (not outside.claim) (http 409)
  (if settings.delivery_backend == "go-worker"
      then queue_task outside settings actor task_id task
      else request_upload actor task_id)
