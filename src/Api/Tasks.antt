-- ===== src/Api/Tasks.antt =====
-- The handlers of control-plane/app/api/tasks.py that move a task through its states. The metrics
-- that they record are left out.
pub mod Atomic
pub mod Confirming
pub mod Retrying
pub mod Classifying
pub mod Upload
pub mod Queueing
pub mod Staging
pub mod Queued
pub mod Succeeding
pub mod Claimed
pub mod Claiming
pub mod ClaimedTests
pub mod Streaming
pub mod Samples
pub mod Tests
use multi_tenant_file_delive.Prelude.{
  ℕ, String, Bool, true, false, not, ◌&&◌, ◌||◌, Option, none, some, List, [], ◌∷◌, ◌++◌, ◌==◌,
  string_eq, ltb, update_where,
}
use multi_tenant_file_delive.Text.{Text}
use multi_tenant_file_delive.Classifier.Profile.{ProfileConfig}
use multi_tenant_file_delive.Classifier.Python.{Python}
use multi_tenant_file_delive.Classifier.Item.{ZipInfo, ClassifySummary}
use multi_tenant_file_delive.Classifier.Engine.{classify_zip}
use multi_tenant_file_delive.Store.Rows.{Task, TaskItem, num, summary}
use multi_tenant_file_delive.Store.Session.{
  Action, http, runtime_error, ◌>>=◌, ◌>>◌, pure, raise, or_raise, raise_if, writes, commit, clock,
}
use multi_tenant_file_delive.Store.Tasks
use multi_tenant_file_delive.Store.Items
use multi_tenant_file_delive.Store.Events
use multi_tenant_file_delive.Auth.{CurrentActor, require_task_writer, to_event_payload}

-- `_task_repo.get`, with a 404 for a task that the tenant does not have.
unfoldable pub find_task : CurrentActor → String → Action Task
unfolding Tasks.get
find_task actor task_id = do
  found ← Tasks.get task_id (some actor.tenant_id)
  or_raise found (http 404)

-- `(task.summary_json or {}).get("has_blocking_errors")`
abbrev pub is_blocked : Option ClassifySummary → Bool
is_blocked none = false
is_blocked (some s) = s.has_blocking_errors

unfoldable pub confirm_task : CurrentActor → String → Action String
confirm_task actor task_id = do
  require_task_writer actor
  task ← find_task actor task_id
  raise_if (not (task.status == "classified")) (http 422)
  raise_if (is_blocked task.summary_json) (http 422)
  now ← clock
  found ← Tasks.update_status task_id "confirmed" (some actor.tenant_id) (some now) none
  updated ← or_raise found (http 404)
  Events.append task_id "confirmed" (to_event_payload actor)
  commit
  pure updated.status

-- What stands at the path of a task's archive: nothing, bytes that are no zip, or an archive.
pub data Archive : Type 0 where
  missing corrupt : Archive
  readable : List ZipInfo → Archive

abbrev is_missing : Archive → Bool
is_missing missing = true
is_missing _ = false

unfoldable pub read_archive : Archive → Action (List ZipInfo)
read_archive (readable infos) = pure infos
read_archive _ = raise runtime_error

abbrev pub with_summary : ClassifySummary → Task → Task
with_summary s t = record t { summary_json = some s }

-- `task_obj.summary_json = summary_dict`, for the row that is read by its id alone.
unfoldable pub store_summary : String → ClassifySummary → Action (Unit {0})
store_summary task_id s = writes (λ db. record db {
  tasks = update_where (Tasks.selects task_id none) (with_summary s) db.tasks;
})

-- `files` is the archive at the path that the task's directory gives, and `profile` the file of
-- the settings, `none` where it is missing.
unfoldable pub classify_task :
    Python
    → (Text → Archive)
    → Option ProfileConfig
    → CurrentActor
    → String
    → Action ClassifySummary
classify_task py files profile actor task_id = do
  require_task_writer actor
  task ← find_task actor task_id
  raise_if (is_missing (files task.temp_dir)) (http 422)
  config ← or_raise profile (http 500)
  infos ← read_archive (files task.temp_dir)
  let found = classify_zip py config infos
  Items.bulk_insert task_id found.0
  store_summary task_id found.1
  Tasks.update_status task_id "classified" (some actor.tenant_id) none none
  Events.append task_id "classified" (to_event_payload actor ++ ("summary", summary found.1) ∷ [])
  commit
  pure found.1

-- The task's row, its summary and its items.
unfoldable pub preview_task :
    CurrentActor → String → Action (Option ClassifySummary × List TaskItem)
preview_task actor task_id = do
  task ← find_task actor task_id
  items ← Items.list_by_task task_id (some actor.tenant_id)
  pure (task.summary_json, items)

unfoldable pub get_task : CurrentActor → String → Action Task
unfolding find_task
get_task actor task_id = find_task actor task_id

unfoldable pub list_tasks : CurrentActor → ℕ → ℕ → Action (List Task)
list_tasks actor limit offset = Tasks.list limit offset (some actor.tenant_id)

-- The two states that a retry opens again.
abbrev pub can_retry : String → Bool
can_retry status = status == "failed" || status == "partial_failed"

abbrev pub reopened : Task → Task
reopened t = record t { status = "confirmed"; finished_at = none }

-- `task.status = "confirmed"` on the row that was found, if the test holds.
unfoldable pub reopen_if : Bool → CurrentActor → Task → Action Task
reopen_if false actor task = pure task
reopen_if true actor task = do
  writes (λ db. record db {
    tasks = update_where (Tasks.selects task.id (some actor.tenant_id)) reopened db.tasks;
  })
  pure (reopened task)

-- The number of items that are pending again, and the status after it.
unfoldable pub retry_task : CurrentActor → String → Action (ℕ × String)
retry_task actor task_id = do
  require_task_writer actor
  task ← find_task actor task_id
  reset_count ← Items.batch_reset_failed task_id (some actor.tenant_id)
  after ← reopen_if (ltb 0 reset_count && can_retry task.status) actor task
  Events.append task_id "task_retry_requested"
      (to_event_payload actor ++ ("reset_count", num reset_count) ∷ [])
  commit
  pure (reset_count, after.status)
