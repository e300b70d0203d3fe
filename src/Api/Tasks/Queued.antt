-- ===== src/Api/Tasks/Queued.antt =====
-- What an upload that succeeds handed over: `upload_task` of control-plane/app/api/tasks.py.
use multi_tenant_file_delive.Prelude.{
  ℕ, String, ◌≡◌, refl, ◌∙◌, ◌⊎◌, inl, inr, Bool, true, false, ◌&&◌, ◌||◌, Option, none, some, List,
  arith, keep, contains, count_p, count_p-sort_by, count_p-keep, sort_by, ◌==◌, string_eq,
  Bool-cases, if◌then◌else◌, count_p-cong, ap,
}
use multi_tenant_file_delive.Classifier.Item.{Severity}
use multi_tenant_file_delive.Store.Rows.{Task, TaskItem, Database}
use multi_tenant_file_delive.Store.Session.{Session, serve}
use multi_tenant_file_delive.Store.Ensures.{
  Ensures, opened, ensures-pure, ensures-bind, ensures-reads, ensures-raise_if, ensures-commit,
  Served, serve-Served, ensures-weaken,
}
use multi_tenant_file_delive.Store.Steps.{
  set_status, add_event, event_of, ensures-append, ensures-update_status,
}
use multi_tenant_file_delive.Store.Items
use multi_tenant_file_delive.Auth.{CurrentActor, task_writer_roles, to_event_payload}
use multi_tenant_file_delive.Delivery.Messages.{
  DeliverySourceReference, build_delivery_task_message,
}
use multi_tenant_file_delive.Api.Tasks.Confirming.{
  own_task, ensures-require_task_writer, ensures-find_task,
}
use multi_tenant_file_delive.Api.Tasks.Upload.{
  UploadSettings, Outside, is_uploadable, queue_task, request_upload, upload_task,
}
use multi_tenant_file_delive.Api.Tasks.Staging.{
  IsSource, ensures-source_of, ensures-on_error, compensate-raises, deliver-published,
}

abbrev pub can_go : Severity → Bool
can_go Severity.ok = true
can_go Severity.warning = true
can_go _ = false

-- The item is ok or a warning, and has neither arrived nor failed.
abbrev pub is_due : TaskItem → Bool
is_due i = can_go i.severity && i.upload_status == "pending"

due_of :
    (s : Severity) (b : Bool)
    → (elim s [ Severity.ok ↦ true | Severity.warning ↦ true | _ ↦ false ] && b) ≡ (can_go s && b)
due_of Severity.ok b = refl
due_of Severity.warning b = refl
due_of Severity.error b = refl
due_of Severity.ignored b = refl

-- The items that a message hands over are the pending ones of the task that are ok or a warning, for
-- the tenant: each as often as it stands in the table.
abbrev pub HandsOver : CurrentActor → String → Database → List TaskItem → Type 0
HandsOver actor task_id db items =
    (p : TaskItem → Bool)
    → count_p p items
      ≡ count_p (λ i. Items.listed db.tasks task_id (some actor.tenant_id) i && (is_due i && p i))
          db.items

-- An upload that went to the worker.
pub record IsQueued (outside : Outside) (settings : UploadSettings) (actor : CurrentActor)
    (task_id : String) (start : Session) (status : String) (db' : Database) (task : Task)
    (items : List TaskItem) (source : Option DeliverySourceReference) : Type 0 where
  pub answered : status ≡ "queued"
  pub transport :
      (settings.delivery_transport == "file" || settings.delivery_transport == "kafka") ≡ true
  pub handed_over : HandsOver actor task_id start.db items
  pub staged : IsSource outside settings task source
  pub published :
      outside.publish (
        build_delivery_task_message task items settings.s3_bucket_name source outside.traceparent
          start.now)
      ≡ true
  pub tasks :
      db'.tasks ≡ (set_status task_id "queued" (some actor.tenant_id) none none start.db).tasks
  pub items_kept : db'.items ≡ start.db.items

module _ (outside : Outside) (settings : UploadSettings) (actor : CurrentActor) (task_id : String)
    (task : Task) where
  listed-HandsOver :
      (db : Database)
      → HandsOver actor task_id db (
          keep is_uploadable (
            sort_by Items.by_path
              (keep (Items.listed db.tasks task_id (some actor.tenant_id)) db.items)))
  listed-HandsOver db p =
      count_p-keep p is_uploadable (
        sort_by Items.by_path
          (keep (Items.listed db.tasks task_id (some actor.tenant_id)) db.items))
      ∙ count_p-sort_by Items.by_path (λ i. is_uploadable i && p i)
          (keep (Items.listed db.tasks task_id (some actor.tenant_id)) db.items)
      ∙ count_p-keep (λ i. is_uploadable i && p i)
          (Items.listed db.tasks task_id (some actor.tenant_id)) db.items
      ∙ count_p-cong db.items (λ i.
        ap (λ b. Items.listed db.tasks task_id (some actor.tenant_id) i && (b && p i))
          (due_of i.severity (i.upload_status == "pending")))

  queue_task-IsQueued :
      (s : Session)
      → Ensures (queue_task outside settings actor task_id task) s (λ status t.
        (items : List TaskItem) × (source : Option DeliverySourceReference) × IsQueued outside
          settings actor task_id s status t.committed task items source)
  unfolding queue_task Items.list_by_task
  queue_task-IsQueued s = ensures-reads _ _ (
      ensures-raise_if _ _ _ λ transport. ensures-source_of outside settings task _ λ source staged.
        ensures-bind _ _ _
          (ensures-on_error _ _ s (deliver-published outside settings actor task_id task _ source s)
            (compensate-raises outside actor task_id source))
          λ message t sent. ensures-update_status _ _ _ _ _ _ (
            ensures-append _ _ _ _ (
              ensures-commit _ (
                ensures-pure _ (
                  _,
                  source,
                  record {
                    answered = refl;
                    transport = ground arith;
                    handed_over = listed-HandsOver s.db;
                    staged = staged;
                    published = rw (← sent.1) sent.2;
                    tasks = rw sent.0.tasks refl;
                    items_kept = sent.0.items;
                  },
                )))))

-- What an upload found, and the two ways in which it succeeds.
pub record IsUploaded (outside : Outside) (settings : UploadSettings) (actor : CurrentActor)
    (task_id : String) (start : Session) (status : String) (db' : Database) (task : Task)
    : Type 0 where
  pub found : own_task actor task_id start.db ≡ some task
  pub writer : contains actor.role task_writer_roles ≡ true
  pub confirmed : (task.status == "confirmed") ≡ true
  pub claimed : outside.claim ≡ true
  pub outcome :
      (((settings.delivery_backend == "go-worker") ≡ true)
        × ((items : List TaskItem) × (source : Option DeliverySourceReference) × IsQueued outside
              settings actor task_id start status db' task items source))
      ⊎ (((settings.delivery_backend == "go-worker") ≡ false)
          × (status ≡ "uploading")
          × (db'
              ≡ add_event
                  (event_of start task_id "task_upload_requested" (to_event_payload actor))
                  start.db))

request_upload-eq :
    (actor : CurrentActor) (task_id : String) (s : Session)
    → Ensures (request_upload actor task_id) s (λ status t.
      (status ≡ "uploading")
      × (t.committed
          ≡ add_event (event_of s task_id "task_upload_requested" (to_event_payload actor)) s.db))
unfolding request_upload
request_upload-eq actor task_id s =
    ensures-append _ _ _ _ (ensures-commit _ (ensures-pure _ (refl, refl)))

-- An upload that succeeds was made by a writer who holds the claim, on a confirmed task of the
-- actor's own tenant. With the worker's backend the publisher has accepted the message for
-- exactly the pending items of the task that are ok or a warning, over a transport that is known;
-- the archive was staged under the task's key in the mode `object`, and in no other; the task,
-- and no other, is `queued`, and no item changes. With the other backend one event is added,
-- after those that were there, and nothing else changes.
pub upload_task-IsUploaded :
    (outside : Outside) (settings : UploadSettings) (actor : CurrentActor) (task_id : String)
    (ids : ℕ → String) (now : ℕ) (db : Database)
    → Served (serve ids now (upload_task outside settings actor task_id) db) (λ status db'.
      (task : Task) × IsUploaded outside settings actor task_id (opened ids now db) status db' task)
unfolding upload_task
upload_task-IsUploaded outside settings actor task_id ids now db =
    serve-Served _ ids now (upload_task outside settings actor task_id) db (
      ensures-require_task_writer actor _ λ writer. ensures-find_task actor task_id _ λ task found.
        ensures-raise_if _ _ _ λ confirmed. ensures-raise_if _ _ _ λ claimed.
          elim (Bool-cases (settings.delivery_backend == "go-worker")) [
            | inl worker ↦
                rw (worker, if◌then◌else◌)
                  (ensures-weaken _ _ (queue_task-IsQueued outside settings actor task_id task _)
                    λ status t queued. (
                      task,
                      record {
                        found = found;
                        writer = writer;
                        confirmed = ground arith;
                        claimed = ground arith;
                        outcome = inl (worker, queued);
                      },
                    ))
            | inr other ↦
                rw (other, if◌then◌else◌)
                  (ensures-weaken _ _ (request_upload-eq actor task_id _) λ status t requested. (
                    task,
                    record {
                      found = found;
                      writer = writer;
                      confirmed = ground arith;
                      claimed = ground arith;
                      outcome = inr (other, requested.0, requested.1);
                    },
                  ))
          ])
