-- ===== src/Api/Tasks/Queueing.antt =====
-- What a failed upload leaves: `upload_task` of control-plane/app/api/tasks.py.
use multi_tenant_file_delive.Prelude.{ℕ, String, Option, none, some, List, keep}
use multi_tenant_file_delive.Store.Rows.{Task, TaskItem, Database}
use multi_tenant_file_delive.Store.Session.{Result, ok, err, Error, Session, Action, serve}
use multi_tenant_file_delive.Store.Steady.{
  IsSteady, steady_rules, FailsSteadily, FailsSteadily-bind, FailsSteadily-if, FailsSteadily-atomic,
  Kept, FailedKeeping, serve-FailedKeeping,
}
use multi_tenant_file_delive.Store.Rules.{atomic_rules}
use multi_tenant_file_delive.Store.Items
use multi_tenant_file_delive.Auth.{CurrentActor, require_task_writer}
use multi_tenant_file_delive.Delivery.Messages.{DeliverySourceReference}
use multi_tenant_file_delive.Api.Tasks.{find_task}
use multi_tenant_file_delive.Api.Tasks.Atomic.{update_status-IsQuiet, append-IsQuiet}
use multi_tenant_file_delive.Api.Tasks.Upload.{
  UploadSettings, Outside, on_error, handled, is_uploadable, stage_task_archive, source_of,
  note_staged, deliver, compensate, queue_task, request_upload, upload_task,
}

find_task-IsSteady : (actor : CurrentActor) (task_id : String) → IsSteady (find_task actor task_id)
unfolding find_task
find_task-IsSteady actor task_id = search steady_rules

require_task_writer-IsSteady : (actor : CurrentActor) → IsSteady (require_task_writer actor)
unfolding require_task_writer
require_task_writer-IsSteady actor = record { at = λ before s k. k }

list_by_task-IsSteady :
    (task_id : String) (tenant : Option String) → IsSteady (Items.list_by_task task_id tenant)
unfolding Items.list_by_task
list_by_task-IsSteady task_id tenant = search steady_rules

module _ {A : Type 0} (handler : Error → Action A) where
  handled_steady :
      (before : Database) (r : Result A × Session)
      → ((e : Error) → IsSteady (handler e))
      → Kept before r.1
      → Kept before (handled handler r).1
  handled_steady before (ok a, s) h k = k
  handled_steady before (err e, s) h k = (h e).at before s k

  on_error-IsSteady :
      (m : Action A)
      → IsSteady m
      → ((e : Error) → IsSteady (handler e))
      → IsSteady (on_error m handler)
  unfolding on_error
  on_error-IsSteady m sm sh = record {
    at = λ before s k. handled_steady before (m s) sh (sm.at before s k);
  }

module _ (outside : Outside) (settings : UploadSettings) (actor : CurrentActor) where
  stage_task_archive-IsSteady : (task : Task) → IsSteady (stage_task_archive outside settings task)
  unfolding stage_task_archive
  stage_task_archive-IsSteady task = search steady_rules depth 8

  source_of-IsSteady : (task : Task) → IsSteady (source_of outside settings task)
  unfolding source_of
  source_of-IsSteady task = search (steady_rules, stage_task_archive-IsSteady) depth 8

  note_staged-IsSteady :
      (task_id : String) (source : Option DeliverySourceReference)
      → IsSteady (note_staged actor task_id source)
  unfolding note_staged
  note_staged-IsSteady task_id none = search steady_rules
  note_staged-IsSteady task_id (some ref) = search steady_rules depth 8

  deliver-IsSteady :
      (task_id : String) (task : Task) (items : List TaskItem)
      (source : Option DeliverySourceReference)
      → IsSteady (deliver outside settings actor task_id task items source)
  unfolding deliver
  deliver-IsSteady task_id task items source = search (steady_rules, note_staged-IsSteady) depth 10

  compensate-IsSteady :
      (task_id : String) (source : Option DeliverySourceReference) (e : Error)
      → IsSteady (compensate outside actor task_id source e)
  unfolding compensate
  compensate-IsSteady task_id none e = search steady_rules
  compensate-IsSteady task_id (some ref) e = search steady_rules depth 14

  queue_task-FailsSteadily :
      (task_id : String) (task : Task)
      → FailsSteadily (queue_task outside settings actor task_id task)
  unfolding queue_task
  queue_task-FailsSteadily task_id task =
      FailsSteadily-bind _ _ (list_by_task-IsSteady task_id (some actor.tenant_id)) λ items.
        FailsSteadily-bind _ _ (search steady_rules) λ supported.
          FailsSteadily-bind _ _ (source_of-IsSteady task) λ source.
            FailsSteadily-bind _ _
              (on_error-IsSteady _ _
                (deliver-IsSteady task_id task (keep is_uploadable items) source)
                (compensate-IsSteady task_id source))
              λ message.
                FailsSteadily-atomic _
                  (search (atomic_rules, update_status-IsQuiet, append-IsQuiet) depth 12)

  request_upload-FailsSteadily : (task_id : String) → FailsSteadily (request_upload actor task_id)
  unfolding request_upload
  request_upload-FailsSteadily task_id =
      FailsSteadily-atomic _ (search (atomic_rules, append-IsQuiet) depth 8)

  upload_task-FailsSteadily :
      (task_id : String) → FailsSteadily (upload_task outside settings actor task_id)
  unfolding upload_task
  upload_task-FailsSteadily task_id =
      FailsSteadily-bind _ _ (require_task_writer-IsSteady actor) λ writer.
        FailsSteadily-bind _ _ (find_task-IsSteady actor task_id) λ task.
          FailsSteadily-bind _ _ (search steady_rules) λ confirmed.
            FailsSteadily-bind _ _ (search steady_rules) λ claimed.
              FailsSteadily-if _ _ _ (queue_task-FailsSteadily task_id task)
                (request_upload-FailsSteadily task_id)

  -- An upload that fails, also after its archive was staged and that was committed, leaves the
  -- status of every task and every row of the items, the workspaces and their objects as they
  -- were; the events that were there stay, and at most others come after them.
  pub upload_task-FailedKeeping :
      (task_id : String) (ids : ℕ → String) (now : ℕ) (db : Database)
      → FailedKeeping db (serve ids now (upload_task outside settings actor task_id) db)
  upload_task-FailedKeeping task_id ids now db =
      serve-FailedKeeping ids now (upload_task outside settings actor task_id) db
        (upload_task-FailsSteadily task_id)
