-- ===== src/Api/Tasks/Classifying.antt =====
-- What a classification stores: `classify_task` of control-plane/app/api/tasks.py.

use multi_tenant_file_delive.Prelude.{
  ℕ, String, ◌≡◌, refl, ap, true, Option, none, some, List, [], ◌∷◌, ◌++◌, string_eq, All, contains,
  update_where,
}
use multi_tenant_file_delive.Text.{Text}
use multi_tenant_file_delive.Classifier.Profile.{ProfileConfig}
use multi_tenant_file_delive.Classifier.Python.{Python}
use multi_tenant_file_delive.Classifier.Item.{ZipInfo, ClassifiedItem, ClassifySummary}
use multi_tenant_file_delive.Classifier.Engine.{classify_zip}
use multi_tenant_file_delive.Store.Rows.{Task, TaskEvent, Database, summary}
use multi_tenant_file_delive.Store.Session.{Session, Action, ◌>>=◌, serve}
use multi_tenant_file_delive.Store.Ensures.{
  opened, Ensures, ensures-pure, ensures-commit, ensures-raise_if, ensures-or_raise, Served,
  serve-Served, with_db,
}
use multi_tenant_file_delive.Store.Steps.{
  event_of, set_status, ensures-append, ensures-update_status,
}
use multi_tenant_file_delive.Store.Tasks
use multi_tenant_file_delive.Auth.{CurrentActor, task_writer_roles, to_event_payload}
use multi_tenant_file_delive.Api.Tasks.{
  Archive, readable, read_archive, classify_task, store_summary, with_summary,
}
use multi_tenant_file_delive.Api.Tasks.Confirming.{
  own_task, ensures-require_task_writer, ensures-find_task,
}
use multi_tenant_file_delive.Store.Inserting.{
  rows_in, inserted, IsFresh, inserted-db, ensures-bulk_insert,
}

-- The rows of the tasks after a summary is stored.
abbrev summarised : String → ClassifySummary → Database → Database
summarised task_id sm db = record db {
  tasks = update_where (Tasks.selects task_id none) (with_summary sm) db.tasks;
}

module _ (task_id : String) (cs : List ClassifiedItem) (s : Session) where
  classified-tasks :
      (tenant : Option String) (sm : ClassifySummary)
      → (set_status task_id "classified" tenant none none
          (summarised task_id sm (inserted task_id cs s).db)).tasks
        ≡ update_where
            (Tasks.selects task_id tenant)
            (Tasks.with_status "classified" none none)
            (update_where (Tasks.selects task_id none) (with_summary sm) s.db.tasks)
  classified-tasks tenant sm =
      ap
        (λ (d : Database).
          (set_status task_id "classified" tenant none none (summarised task_id sm d)).tasks)
        (inserted-db task_id cs s)

  inserted-items : (inserted task_id cs s).db.items ≡ s.db.items ++ rows_in s task_id cs
  inserted-items = ap (λ (d : Database). d.items) (inserted-db task_id cs s)

  classified-events :
      (e : TaskEvent) → (inserted task_id cs s).db.events ++ e ∷ [] ≡ s.db.events ++ e ∷ []
  classified-events e = ap (λ (d : Database). d.events ++ e ∷ []) (inserted-db task_id cs s)

  inserted-workspaces : (inserted task_id cs s).db.workspaces ≡ s.db.workspaces
  inserted-workspaces = ap (λ (d : Database). d.workspaces) (inserted-db task_id cs s)

  inserted-physical_objects : (inserted task_id cs s).db.physical_objects ≡ s.db.physical_objects
  inserted-physical_objects = ap (λ (d : Database). d.physical_objects) (inserted-db task_id cs s)

  inserted-workspace_objects : (inserted task_id cs s).db.workspace_objects ≡ s.db.workspace_objects
  inserted-workspace_objects = ap (λ (d : Database). d.workspace_objects) (inserted-db task_id cs s)

-- What a classification found, what it answers, and what it left.
pub record Classified (py : Python) (files : Text → Archive) (profile : Option ProfileConfig)
    (actor : CurrentActor) (task_id : String) (start : Session) (answer : ClassifySummary)
    (db' : Database) (t : Task) (infos : List ZipInfo) (config : ProfileConfig) : Type 0 where
  pub found : own_task actor task_id start.db ≡ some t
  pub writer : contains actor.role task_writer_roles ≡ true
  pub archive : files t.temp_dir ≡ readable infos
  pub configured : profile ≡ some config
  pub answered : answer ≡ (classify_zip py config infos).1
  pub fresh : All (IsFresh start.db.items) (rows_in start task_id (classify_zip py config infos).0)
  pub items : db'.items ≡ start.db.items ++ rows_in start task_id (classify_zip py config infos).0
  pub tasks :
      db'.tasks
      ≡ update_where
          (Tasks.selects task_id (some actor.tenant_id))
          (Tasks.with_status "classified" none none)
          (update_where (Tasks.selects task_id none) (with_summary answer) start.db.tasks)
  pub events :
      db'.events
      ≡ start.db.events
        ++ event_of
            (inserted task_id (classify_zip py config infos).0 start)
            task_id
            "classified"
            (to_event_payload actor ++ ("summary", summary answer) ∷ [])
          ∷ []
  pub workspaces : db'.workspaces ≡ start.db.workspaces
  pub physical_objects : db'.physical_objects ≡ start.db.physical_objects
  pub workspace_objects : db'.workspace_objects ≡ start.db.workspace_objects

module _ {B : Type 0} {s : Session} {Q : B → Session → Type 0} where
  ensures-read_archive :
      (a : Archive) (f : List ZipInfo → Action B)
      → ((infos : List ZipInfo) → a ≡ readable infos → Ensures (f infos) s Q)
      → Ensures (read_archive a >>= f) s Q
  unfolding read_archive ◌>>=◌
  ensures-read_archive (readable infos) f h = record { post = (h infos refl).post }
  ensures-read_archive _ f h = record { post = tt }

  ensures-store_summary :
      (task_id : String) (sm : ClassifySummary) (f : Unit {0} → Action B)
      → Ensures (f tt) (with_db (summarised task_id sm) s) Q
      → Ensures (store_summary task_id sm >>= f) s Q
  unfolding store_summary ◌>>=◌
  ensures-store_summary task_id sm f h = record { post = h.post }

-- A classification that succeeds was made by a writer on a task of the actor's own tenant, in
-- whatever state; its archive could be read and the profile was there. It answers the summary of
-- `classify_zip`, stores it in the task with the status `classified`, and appends one event and one
-- row for each classified item; none of these rows has the id, or the task and source path, of a
-- row that was there. The workspaces and their objects stay as they were.
pub classify_task-Classified :
    (py : Python) (files : Text → Archive) (profile : Option ProfileConfig) (actor : CurrentActor)
    (task_id : String) (ids : ℕ → String) (now : ℕ) (db : Database)
    → Served (serve ids now (classify_task py files profile actor task_id) db) (λ answer db'.
      (t : Task) × (infos : List ZipInfo) × (config : ProfileConfig) × Classified py files profile
        actor task_id
        (opened ids now db)
        answer
        db'
        t
        infos
        config)
unfolding classify_task
classify_task-Classified py files profile actor task_id ids now db =
    serve-Served _ ids now (classify_task py files profile actor task_id) db (
      ensures-require_task_writer actor _ λ writer. ensures-find_task actor task_id _ λ t found.
        ensures-raise_if _ _ _ λ present. ensures-or_raise _ _ _ λ config configured.
          ensures-read_archive _ _ λ infos archive. ensures-bulk_insert task_id _ _ λ fresh.
            ensures-store_summary _ _ _ (
              ensures-update_status _ _ _ _ _ _ (
                ensures-append _ _ _ _ (
                  ensures-commit _ (
                    ensures-pure _ (
                      t,
                      infos,
                      config,
                      record {
                        found = found;
                        writer = writer;
                        archive = archive;
                        configured = configured;
                        answered = refl;
                        fresh = fresh;
                        items =
                            inserted-items task_id (classify_zip py config infos).0
                              (opened ids now db);
                        tasks =
                            classified-tasks task_id (classify_zip py config infos).0
                              (opened ids now db) (some actor.tenant_id) _;
                        events =
                            classified-events task_id (classify_zip py config infos).0
                              (opened ids now db) _;
                        workspaces =
                            inserted-workspaces task_id (classify_zip py config infos).0
                              (opened ids now db);
                        physical_objects =
                            inserted-physical_objects task_id (classify_zip py config infos).0
                              (opened ids now db);
                        workspace_objects =
                            inserted-workspace_objects task_id (classify_zip py config infos).0
                              (opened ids now db);
                      },
                    ))))))
