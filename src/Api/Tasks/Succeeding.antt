-- ===== src/Api/Tasks/Succeeding.antt =====
-- Requests of control-plane/app/api/tasks.py that cannot fail.
use multi_tenant_file_delive.Prelude.{
  ℕ, String, ◌≡◌, refl, true, false, none, some, ◌==◌, string_eq, any, find-passes, find-updated,
  ◌||◌, keep, sort_by, Bool-cases, inl, inr, contains, if◌then◌else◌,
}
use multi_tenant_file_delive.Store.Rows.{Task, Database}
use multi_tenant_file_delive.Store.Session.{ok, serve, ◌>>=◌, or_raise}
use multi_tenant_file_delive.Store.Tasks
use multi_tenant_file_delive.Store.Items
use multi_tenant_file_delive.Store.Events
use multi_tenant_file_delive.Auth.{
  CurrentActor, task_writer_roles, require_task_writer, require_role,
}
use multi_tenant_file_delive.Api.Tasks.{confirm_task, retry_task, find_task, is_blocked, reopen_if}
use multi_tenant_file_delive.Api.Tasks.Confirming.{own_task}
use multi_tenant_file_delive.Delivery.Messages.{DeliveryTaskMessage, build_delivery_task_message}
use multi_tenant_file_delive.Api.Tasks.Upload.{
  Outside, UploadSettings, is_uploadable, upload_task, queue_task, source_of, deliver, note_staged,
  on_error,
}
use multi_tenant_file_delive.Api.Tasks.Retrying.{failed_items, status_after, reopens}

module _ (actor : CurrentActor) (task_id : String) (ids : ℕ → String) (now : ℕ) (db : Database)
    (t : Task) (writer : contains actor.role task_writer_roles ≡ true)
    (found : own_task actor task_id db ≡ some t)
    (fresh : any (λ e. e.id == ids 0) db.events ≡ false) where
  -- A writer's request to confirm a classified task of the tenant without blocking errors succeeds,
  -- if the id drawn for its event is new.
  pub confirm_task-succeeds :
      (t.status == "classified") ≡ true
      → is_blocked t.summary_json ≡ false
      → (serve ids now (confirm_task actor task_id) db).0 ≡ ok "confirmed"
  unfolding serve confirm_task require_task_writer require_role find_task Tasks.get
      Tasks.update_status Events.append ◌>>=◌
  confirm_task-succeeds classified free =
      let updated =
        find-updated (Tasks.selects task_id (some actor.tenant_id))
          (Tasks.selects task_id (some actor.tenant_id))
          (Tasks.with_status "confirmed" (some now) none) db.tasks t (λ y hit. hit) (λ y. refl)
          found (find-passes (Tasks.selects task_id (some actor.tenant_id)) db.tasks t found) in
      rw (writer, if◌then◌else◌, found, or_raise, classified, free, updated, fresh) refl

  -- A writer's request to retry a task of the tenant succeeds, if the id drawn for its event is new,
  -- in whatever state the task is: it answers the number of failed items, and the status after it.
  pub retry_task-succeeds :
      (serve ids now (retry_task actor task_id) db).0
      ≡ ok (
        failed_items actor task_id db,
        status_after (reopens (failed_items actor task_id db) t.status) t.status,
      )
  unfolding serve retry_task require_task_writer require_role find_task Tasks.get reopen_if
      Items.batch_reset_failed Events.append ◌>>=◌
  retry_task-succeeds = elim (Bool-cases (reopens (failed_items actor task_id db) t.status)) [
    | inl again ↦ rw (writer, if◌then◌else◌, found, or_raise, again, fresh) refl
    | inr over ↦ rw (writer, if◌then◌else◌, found, or_raise, over, fresh) refl
  ]

  -- A writer's request to upload a confirmed task of the tenant to the worker, without staging and
  -- over a known transport, succeeds and answers `queued`, if the claim is granted, the publisher
  -- takes every message, and the id drawn for its event is new.
  pub upload_task-succeeds :
      (outside : Outside) (settings : UploadSettings)
      → (t.status == "confirmed") ≡ true
      → outside.claim ≡ true
      → (settings.delivery_backend == "go-worker") ≡ true
      → (settings.delivery_transport == "file" || settings.delivery_transport == "kafka") ≡ true
      → (settings.delivery_source_mode == "object") ≡ false
      → ((message : DeliveryTaskMessage) → outside.publish message ≡ true)
      → (serve ids now (upload_task outside settings actor task_id) db).0 ≡ ok "queued"
  unfolding serve upload_task queue_task source_of deliver note_staged on_error require_task_writer
      require_role find_task Tasks.get Tasks.update_status Items.list_by_task Events.append ◌>>=◌
  upload_task-succeeds outside settings confirmed claimed worker transport plain accepts =
      rw
        (
          writer,
          if◌then◌else◌,
          found,
          or_raise,
          confirmed,
          claimed,
          worker,
          transport,
          plain,
          accepts (
              build_delivery_task_message t
                (keep is_uploadable (
                  sort_by Items.by_path
                    (keep (Items.listed db.tasks task_id (some actor.tenant_id)) db.items)))
                settings.s3_bucket_name none outside.traceparent now),
          fresh,
        )
        refl
