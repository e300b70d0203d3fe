-- ===== src/Api/Tasks/Tests.antt =====
-- The handlers of tasks at a concrete database.
use multi_tenant_file_delive.Prelude.{
  sort_by, true, false, ◌==◌, nat_eq, ◌≡◌, refl, ℕ, String, List, [], ◌∷◌, map, some, none, Option,
  length, text_beq,
}
use multi_tenant_file_delive.Text.{text, starts_with, ends_with, is_space, contains_text}
use multi_tenant_file_delive.Paths.{climbs, parts, name, suffix, stem, parent, suffix_index}
use multi_tenant_file_delive.Classifier.Names.{render_path, is_path_traversal, decode_zip_filename}
use multi_tenant_file_delive.Classifier.Targets.{
  resolve_target, match_target, strip_number, extract_target_raw,
}
use multi_tenant_file_delive.Classifier.Documents.{resolve_document_type}
use multi_tenant_file_delive.Classifier.Item.{ZipInfo, add, ClassifySummary}
use multi_tenant_file_delive.Classifier.Engine.{
  classify_zip, classify_entry, filter_entry, classify_target, matched_target, finish_entry,
  category_name_of, destination, directory_of,
}
use multi_tenant_file_delive.Classifier.Profile.{ProfileConfig}
use multi_tenant_file_delive.Classifier.Samples.{ascii, profile}
use multi_tenant_file_delive.Store.Rows.{TaskEvent, Task, TaskItem, Database}
use multi_tenant_file_delive.Store.Session.{
  runtime_error, Action, ok, err, http, Result, serve, ◌>>=◌,
}
use multi_tenant_file_delive.Store.Ensures.{opened, Served}
use multi_tenant_file_delive.Store.Rules.{RolledBack}
use multi_tenant_file_delive.Store.Tasks
use multi_tenant_file_delive.Store.Items
use multi_tenant_file_delive.Store.Events
use multi_tenant_file_delive.Auth.{require_task_writer, require_role}
use multi_tenant_file_delive.Api.Tasks.{
  confirm_task, retry_task, classify_task, find_task, reopen_if, store_summary, read_archive,
}
use multi_tenant_file_delive.Api.Tasks.Atomic.{failed_request_changes_nothing}
use multi_tenant_file_delive.Api.Tasks.Confirming.{Confirmed, confirm_task-Confirmed}
use multi_tenant_file_delive.Api.Tasks.Retrying.{
  failed_items, status_after, reopens, Retried, retry_task-Retried,
}
use multi_tenant_file_delive.Api.Tasks.Classifying.{Classified, classify_task-Classified}
use multi_tenant_file_delive.Delivery.Messages.{build_delivery_task_message}
use multi_tenant_file_delive.Store.Steady.{FailedKeeping}
use multi_tenant_file_delive.Api.Tasks.Upload.{
  UploadSettings, Outside, on_error, stage_task_archive, source_of, note_staged, deliver,
  compensate, queue_task, request_upload, upload_task,
}
use multi_tenant_file_delive.Api.Tasks.Queueing.{upload_task-FailedKeeping}
use multi_tenant_file_delive.Api.Tasks.Queued.{IsUploaded, upload_task-IsUploaded}
use multi_tenant_file_delive.Api.Tasks.Succeeding.{
  confirm_task-succeeds, retry_task-succeeds, upload_task-succeeds,
}
use multi_tenant_file_delive.Api.Tasks.Samples.{
  classified_task, failed_task, confirmed_task, confirmed_item, id_of, uploader, viewer, database,
  files,
}

abbrev statuses : Database → List String
statuses db = map (λ (t : Task). t.status) db.tasks

abbrev uploads : Database → List String
uploads db = map (λ (i : TaskItem). i.upload_status) db.items

abbrev status_of : Result ClassifySummary → Option ℕ
status_of (ok summary) = some summary.total
status_of (err e) = none

confirmed_run :
    let (answer, after) = serve id_of 7 (confirm_task uploader "c") database in
    (answer ≡ ok "confirmed")
    × (statuses after ≡ "confirmed" ∷ "partial_failed" ∷ "classified" ∷ [])
unfolding serve confirm_task require_task_writer require_role find_task Tasks.get
    Tasks.update_status Events.append ◌>>=◌
confirmed_run = (refl, refl)

-- A task of another tenant is not found; a viewer may not confirm; a task that has failed may not
-- be confirmed.
refused_runs :
    ((serve id_of 7 (confirm_task uploader "x") database).0 ≡ err (http 404))
    × ((serve id_of 7 (confirm_task viewer "c") database).0 ≡ err (http 403))
    × ((serve id_of 7 (confirm_task uploader "f") database).0 ≡ err (http 422))
unfolding serve confirm_task require_task_writer require_role find_task Tasks.get
    Tasks.update_status Events.append ◌>>=◌
refused_runs = (refl, refl, refl)

retried_run :
    let (answer, after) = serve id_of 7 (retry_task uploader "f") database in
    (answer ≡ ok (1, "confirmed")) × (uploads after ≡ "pending" ∷ "uploaded" ∷ "pending" ∷ [])
unfolding serve retry_task require_task_writer require_role find_task Tasks.get reopen_if
    Items.batch_reset_failed Events.append ◌>>=◌
retried_run = (refl, refl)

-- A task that has failed in part is classified again, and gets five more items.
classified_run :
    let (answer, after) =
      serve id_of 7 (classify_task ascii files (some profile) uploader "f") database in
    (status_of answer ≡ some 6)
    × (statuses after ≡ "classified" ∷ "classified" ∷ "classified" ∷ [])
    × (length after.items ≡ 8)
unfolding serve classify_task require_task_writer require_role find_task Tasks.get read_archive
    store_summary Tasks.update_status Events.append Items.bulk_insert Items.insert_row ◌>>=◌
    classify_zip classify_entry filter_entry classify_target matched_target finish_entry
    category_name_of destination directory_of resolve_document_type resolve_target match_target
    strip_number extract_target_raw render_path is_path_traversal decode_zip_filename climbs parts
    name suffix stem parent suffix_index add starts_with ends_with is_space text_beq contains_text
classified_run = (refl, refl, refl)

confirm_task-Confirmed_example :
    Served
      (serve id_of 7 (confirm_task uploader "c") database)
      (λ status db'. (t : Task) × Confirmed uploader "c" id_of 7 database status db' t)
confirm_task-Confirmed_example = confirm_task-Confirmed uploader "c" id_of 7 database

retry_task-Retried_example :
    Served
      (serve id_of 7 (retry_task uploader "f") database)
      (λ answer db'. (t : Task) × Retried uploader "f" id_of 7 database answer db' t)
retry_task-Retried_example = retry_task-Retried uploader "f" id_of 7 database

classify_task-Classified_example :
    Served
      (serve id_of 7 (classify_task ascii files (some profile) uploader "f") database)
      (λ answer db'.
        (t : Task) × (infos : List ZipInfo) × (config : ProfileConfig) × Classified ascii files
          (some profile)
          uploader
          "f"
          (opened id_of 7 database)
          answer
          db'
          t
          infos
          config)
classify_task-Classified_example =
    classify_task-Classified ascii files (some profile) uploader "f" id_of 7 database

failed_request_changes_nothing_example :
    RolledBack database (serve id_of 7 (confirm_task uploader "f") database)
    × RolledBack database (serve id_of 7 (retry_task uploader "f") database)
    × RolledBack database (serve id_of 7 (classify_task ascii files none uploader "f") database)
failed_request_changes_nothing_example =
    failed_request_changes_nothing ascii files none uploader "f" id_of 7 database

abbrev settings : UploadSettings
settings = record {
  delivery_backend = "go-worker";
  delivery_transport = "file";
  delivery_source_mode = "object";
  staging_bucket_name = "staging";
  s3_bucket_name = text "bucket";
}

-- The publisher takes a message of one item.
abbrev outside : Outside
outside = record {
  claim = true;
  archive = λ dir. some ("digest", 12);
  put_object = λ bucket key. true;
  delete_object = λ bucket key. true;
  publish = λ message. length message.items == 1;
  traceparent = none;
}

abbrev ready : Database
ready = record database {
  tasks = confirmed_task ∷ database.tasks;
  items = confirmed_item ∷ database.items;
}

upload : Outside → Action String
unfolding upload_task queue_task request_upload source_of stage_task_archive note_staged deliver
    compensate on_error build_delivery_task_message require_task_writer require_role find_task
    Tasks.get Tasks.update_status Items.list_by_task Events.append ◌>>=◌ text_beq
upload outside = upload_task outside settings uploader "d"

uploaded_run :
    let (answer, after) = serve id_of 7 (upload outside) ready in
    (answer ≡ ok "queued")
    × (statuses after ≡ "queued" ∷ "classified" ∷ "partial_failed" ∷ "classified" ∷ [])
    × (length after.events ≡ 2)
unfolding serve upload sort_by
uploaded_run = (refl, refl, refl)

-- The publisher refuses: the archive is deleted again, and the task stays confirmed.
refused_run :
    let (answer, after) =
      serve id_of 7 (upload (record outside { publish = λ message. false })) ready in
    (answer ≡ err runtime_error)
    × (statuses after ≡ "confirmed" ∷ "classified" ∷ "partial_failed" ∷ "classified" ∷ [])
    × (map (λ (e : TaskEvent). e.event_type) after.events
        ≡ "task_staged_source" ∷ "task_staged_source_deleted" ∷ [])
unfolding serve upload sort_by
refused_run = (refl, refl, refl)

upload_task-IsUploaded_example :
    Served (serve id_of 7 (upload_task outside settings uploader "d") ready) (λ status db'.
      (task : Task) × IsUploaded outside settings uploader "d"
        (opened id_of 7 ready)
        status
        db'
        task)
upload_task-IsUploaded_example = upload_task-IsUploaded outside settings uploader "d" id_of 7 ready

upload_task-FailedKeeping_example :
    FailedKeeping ready (serve id_of 7 (upload_task outside settings viewer "d") ready)
upload_task-FailedKeeping_example =
    upload_task-FailedKeeping outside settings viewer "d" id_of 7 ready

confirm_task-succeeds_example :
    (serve id_of 7 (confirm_task uploader "c") database).0 ≡ ok "confirmed"
confirm_task-succeeds_example =
    confirm_task-succeeds uploader "c" id_of 7 database classified_task refl refl refl refl refl

retry_task-succeeds_example :
    (serve id_of 7 (retry_task uploader "f") database).0
    ≡ ok (
      failed_items uploader "f" database,
      status_after (reopens (failed_items uploader "f" database) "partial_failed") "partial_failed",
    )
retry_task-succeeds_example =
    retry_task-succeeds uploader "f" id_of 7 database failed_task refl refl refl

abbrev willing : Outside
willing = record outside { publish = λ message. true }

abbrev unstaged : UploadSettings
unstaged = record settings { delivery_source_mode = "file" }

upload_task-succeeds_example :
    (serve id_of 7 (upload_task willing unstaged uploader "d") ready).0 ≡ ok "queued"
upload_task-succeeds_example =
    upload_task-succeeds uploader "d" id_of 7 ready confirmed_task refl refl refl willing unstaged
      refl refl refl refl refl (λ message. refl)
