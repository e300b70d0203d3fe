-- ===== src/Api/Tasks/Atomic.antt =====
-- A handler of control-plane/app/api/tasks.py that fails leaves the database as it was.
use multi_tenant_file_delive.Prelude.{ℕ, String, refl, Bool, true, false, Option, List, [], ◌∷◌}
use multi_tenant_file_delive.Text.{Text}
use multi_tenant_file_delive.Classifier.Profile.{ProfileConfig}
use multi_tenant_file_delive.Classifier.Python.{Python}
use multi_tenant_file_delive.Classifier.Item.{ClassifiedItem, ClassifySummary}
use multi_tenant_file_delive.Store.Rows.{Task, Database}
use multi_tenant_file_delive.Store.Session.{serve}
use multi_tenant_file_delive.Store.Rules.{
  IsQuiet, IsQuiet-bind, IsQuiet-pure, IsAtomic, quiet_rules, atomic_rules, RolledBack,
  serve-RolledBack,
}
use multi_tenant_file_delive.Store.Tasks
use multi_tenant_file_delive.Store.Items
use multi_tenant_file_delive.Store.Events
use multi_tenant_file_delive.Auth.{CurrentActor, require_task_writer}
use multi_tenant_file_delive.Api.Tasks.{
  Archive, readable, read_archive, find_task, confirm_task, classify_task, retry_task, reopen_if,
  store_summary,
}

pub update_status-IsQuiet :
    (task_id status : String) (tenant : Option String) (confirmed finished : Option ℕ)
    → IsQuiet (Tasks.update_status task_id status tenant confirmed finished)
unfolding Tasks.update_status
update_status-IsQuiet task_id status tenant confirmed finished = search quiet_rules

pub append-IsQuiet :
    (task_id event_type : String) (payload : Events.Payload)
    → IsQuiet (Events.append task_id event_type payload)
unfolding Events.append
append-IsQuiet task_id event_type payload = search quiet_rules depth 8

insert_row-IsQuiet : (task_id : String) (c : ClassifiedItem) → IsQuiet (Items.insert_row task_id c)
unfolding Items.insert_row
insert_row-IsQuiet task_id c = search quiet_rules depth 8

bulk_insert-IsQuiet :
    (task_id : String) (cs : List ClassifiedItem) → IsQuiet (Items.bulk_insert task_id cs)
unfolding Items.bulk_insert
bulk_insert-IsQuiet task_id [] = search quiet_rules
bulk_insert-IsQuiet task_id (c ∷ cs) =
    IsQuiet-bind _ (Items.insert_row task_id c) (insert_row-IsQuiet task_id c) (λ row.
      IsQuiet-bind _ (Items.bulk_insert task_id cs) (bulk_insert-IsQuiet task_id cs)
        (λ rows. IsQuiet-pure (row ∷ rows)))

batch_reset_failed-IsQuiet :
    (task_id : String) (tenant : Option String) → IsQuiet (Items.batch_reset_failed task_id tenant)
unfolding Items.batch_reset_failed
batch_reset_failed-IsQuiet task_id tenant = search quiet_rules

require_task_writer-IsQuiet : (actor : CurrentActor) → IsQuiet (require_task_writer actor)
unfolding require_task_writer
require_task_writer-IsQuiet actor = record { at = λ s. refl }

find_task-IsQuiet : (actor : CurrentActor) (task_id : String) → IsQuiet (find_task actor task_id)
unfolding find_task
find_task-IsQuiet actor task_id = search quiet_rules

read_archive-IsQuiet : (a : Archive) → IsQuiet (read_archive a)
unfolding read_archive
read_archive-IsQuiet (readable infos) = search quiet_rules
read_archive-IsQuiet _ = search quiet_rules

store_summary-IsQuiet : (task_id : String) (s : ClassifySummary) → IsQuiet (store_summary task_id s)
unfolding store_summary
store_summary-IsQuiet task_id s = search quiet_rules

reopen_if-IsQuiet :
    (b : Bool) (actor : CurrentActor) (task : Task) → IsQuiet (reopen_if b actor task)
unfolding reopen_if
reopen_if-IsQuiet true actor task = search quiet_rules
reopen_if-IsQuiet false actor task = search quiet_rules

ruleset handler_rules = (
  atomic_rules, update_status-IsQuiet, append-IsQuiet, bulk_insert-IsQuiet,
  batch_reset_failed-IsQuiet, require_task_writer-IsQuiet, find_task-IsQuiet, read_archive-IsQuiet,
  store_summary-IsQuiet, reopen_if-IsQuiet,
)

confirm_task-IsAtomic :
    (actor : CurrentActor) (task_id : String) → IsAtomic (confirm_task actor task_id)
unfolding confirm_task
confirm_task-IsAtomic actor task_id = search handler_rules depth 12

retry_task-IsAtomic :
    (actor : CurrentActor) (task_id : String) → IsAtomic (retry_task actor task_id)
unfolding retry_task
retry_task-IsAtomic actor task_id = search handler_rules depth 12

classify_task-IsAtomic :
    (py : Python) (files : Text → Archive) (profile : Option ProfileConfig) (actor : CurrentActor)
    (task_id : String)
    → IsAtomic (classify_task py files profile actor task_id)
unfolding classify_task
classify_task-IsAtomic py files profile actor task_id = search handler_rules depth 14

-- A request to confirm, to retry or to classify a task that ends in an error, whether the
-- handler's own or an integrity error of a write, leaves every table as it was.
pub failed_request_changes_nothing :
    (py : Python) (files : Text → Archive) (profile : Option ProfileConfig) (actor : CurrentActor)
    (task_id : String) (ids : ℕ → String) (now : ℕ) (db : Database)
    → RolledBack db (serve ids now (confirm_task actor task_id) db)
      × RolledBack db (serve ids now (retry_task actor task_id) db)
      × RolledBack db (serve ids now (classify_task py files profile actor task_id) db)
failed_request_changes_nothing py files profile actor task_id ids now db = (
  serve-RolledBack ids now (confirm_task actor task_id) db (confirm_task-IsAtomic actor task_id),
  serve-RolledBack ids now (retry_task actor task_id) db (retry_task-IsAtomic actor task_id),
  serve-RolledBack ids now (classify_task py files profile actor task_id) db
      (classify_task-IsAtomic py files profile actor task_id),
)
