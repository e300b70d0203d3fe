-- ===== src/Runner/Tests.antt =====
-- A run over a confirmed task with two files, of which the second fails, its writes interleaved; and a
-- run over a task that is not confirmed. control-plane/app/services/task_runner.py
use multi_tenant_file_delive.Prelude.{
  ◌≡◌, refl, Option, none, some, List, [], ◌∷◌, ◌==◌, string_eq, text_beq, map, if◌then◌else◌,
  sort_by, text_leb, insert_by,
}
use multi_tenant_file_delive.Text.{Text, text}
use multi_tenant_file_delive.Store.Rows.{TaskItem, Database}
use multi_tenant_file_delive.Store.Session.{Session, Error, ok, ◌>>=◌, commit}
use multi_tenant_file_delive.Store.Ensures.{opened}
use multi_tenant_file_delive.Store.Tasks
use multi_tenant_file_delive.Store.Items
use multi_tenant_file_delive.Store.Events
use multi_tenant_file_delive.Api.Tasks.Upload.{on_error}
use multi_tenant_file_delive.Api.Tasks.Samples.{
  id_of, database as base, confirmed_task, confirmed_item,
}
use multi_tenant_file_delive.Runner.{
  Move, starts, finishes, move, move_all, add_to_group, group_items, results_of, reopened, finish,
  finish_empty, run_task_inner, mark_failed, run_task,
}
use multi_tenant_file_delive.Runner.Moves.{IsSchedule}
use multi_tenant_file_delive.Runner.Running.{run_task-settles, uploadable, end_of, found}

abbrev other_item : TaskItem
other_item = record confirmed_item { id = "n"; src_path = text "d" }

abbrev database : Database
database = record base {
  tasks = confirmed_task ∷ base.tasks;
  items = confirmed_item ∷ other_item ∷ base.items;
}

abbrev start : Session
start = opened id_of 7 database

abbrev attempt : TaskItem → Option Text
attempt item = if item.id == "n" then some (text "gone") else none

abbrev str_of : Error → Text
str_of e = text "not confirmed"

abbrev moves : List Move
moves =
    starts confirmed_item ∷ starts other_item ∷ finishes other_item ∷ finishes confirmed_item ∷ []

schedule : IsSchedule attempt 7 (uploadable attempt str_of "d" start) moves
unfolding sort_by text_beq text_leb insert_by
schedule = record { only = (refl, (refl, (refl, (refl, tt)))); ends = (refl, (refl, tt)) }

run_task-settles_example :
    run_task attempt str_of "d" moves start
    ≡ (ok tt, end_of attempt str_of "d" (found attempt str_of "d" start) start)
run_task-settles_example =
    run_task-settles attempt str_of "d" moves start refl refl refl (λ runs. schedule)

statuses :
    let (answer, after) = run_task attempt str_of "d" moves start in
    (answer ≡ ok tt)
    × (map (λ i. i.upload_status) after.db.items
        ≡ "uploaded" ∷ "failed" ∷ "failed" ∷ "uploaded" ∷ "pending" ∷ [])
    × (map (λ t. t.status) after.committed.tasks
        ≡ "partial_failed" ∷ "classified" ∷ "partial_failed" ∷ "classified" ∷ [])
    × (map (λ e. e.event_type) after.committed.events ≡ "upload_started" ∷ "task_completed" ∷ [])
unfolding run_task run_task_inner mark_failed finish finish_empty move_all move add_to_group
    group_items results_of reopened on_error Tasks.get Tasks.update_status Items.list_by_task
    Items.update_upload_status Events.append ◌>>=◌ commit sort_by text_beq text_leb insert_by
statuses = (refl, refl, refl, refl)

-- A task that is classified but not confirmed is marked failed.
not_confirmed :
    map (λ t. t.status) (run_task attempt str_of "c" [] start).1.committed.tasks
    ≡ "confirmed" ∷ "failed" ∷ "partial_failed" ∷ "classified" ∷ []
unfolding run_task run_task_inner mark_failed finish finish_empty move_all move add_to_group
    group_items results_of reopened on_error Tasks.get Tasks.update_status Items.list_by_task
    Items.update_upload_status Events.append ◌>>=◌ commit sort_by text_beq text_leb insert_by
not_confirmed = refl
