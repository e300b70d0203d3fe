-- ===== src/Runner.antt =====
-- The upload of a task by the control plane itself: control-plane/app/services/task_runner.py. The
-- files are read and sent outside: `attempt` says of an item that its upload succeeds, `none`, or
-- with what text it raises. The items of a task are uploaded at the same time; in what order their
-- writes come is the list of moves. Progress messages and metrics are left out. Each session of the
-- program commits before the next is opened, so that one session stands for them all.
pub mod Moves
pub mod Counts
pub mod Finishing
pub mod Running
pub mod Tests
use multi_tenant_file_delive.Prelude.{
  ℕ, String, Bool, true, false, not, ◌&&◌, ◌||◌, Option, none, some, List, [], ◌∷◌, ◌++◌, map, ◌==◌,
  nat_eq, text_eq, string_eq, keep, length, count_p, if◌then◌else◌,
}
use multi_tenant_file_delive.Text.{Text, text, take}
use multi_tenant_file_delive.Classifier.Item.{Severity}
use multi_tenant_file_delive.Store.Rows.{Task, TaskItem, str, num, chars}
use multi_tenant_file_delive.Store.Session.{
  Session, Action, Error, Result, ok, err, runtime_error, ◌>>=◌, ◌>>◌, pure, or_raise, raise_if,
  commit, clock,
}
use multi_tenant_file_delive.Store.Tasks
use multi_tenant_file_delive.Store.Items
use multi_tenant_file_delive.Store.Events
use multi_tenant_file_delive.Api.Tasks.Upload.{is_uploadable, on_error}

-- A write of one of the uploads that run.
pub data Move : Type 0 where
  starts finishes : TaskItem → Move

module _ (attempt : TaskItem → Option Text) where
  -- The write after the upload: `uploaded`, or `failed` with what was raised.
  abbrev pub settle : TaskItem → Option Text → ℕ → Action (Option TaskItem)
  settle item none now = Items.update_upload_status item.id "uploaded" none none [] (some now)
  settle item (some error) now =
      Items.update_upload_status item.id "failed" none none (take 1000 error) none

  unfoldable pub move : Move → Action (Unit {0})
  move (starts item) = do Items.update_upload_status item.id "uploading" none none [] none; commit
  move (finishes item) = do now ← clock; settle item (attempt item) now; commit

  unfoldable pub move_all : List Move → Action (Unit {0})
  unfolding move
  move_all [] = pure tt
  move_all (m ∷ moves) = do move m; move_all moves

  -- What `_upload_item` returns.
  abbrev pub succeeds : TaskItem → Bool
  succeeds item = elim (attempt item) [ none ↦ true | some error ↦ false ]

-- `item.target_name_matched or "__unmatched__"`
abbrev pub group_of : TaskItem → Text
group_of item =
    if item.target_name_matched == [] then text "__unmatched__" else item.target_name_matched

-- `grouped[target].append(item)`: a new target comes last.
unfoldable pub add_to_group : TaskItem → List (Text × List TaskItem) → List (Text × List TaskItem)
add_to_group item [] = (group_of item, item ∷ []) ∷ []
add_to_group item ((target, items) ∷ groups) =
    let rest = add_to_group item groups in
    if target == group_of item
    then (target, items ++ item ∷ []) ∷ groups
    else (target, items) ∷ rest

unfoldable pub group_items :
    List TaskItem → List (Text × List TaskItem) → List (Text × List TaskItem)
unfolding add_to_group
group_items [] groups = groups
group_items (item ∷ items) groups = group_items items (add_to_group item groups)

-- The answers of the groups, one after the other.
unfoldable pub results_of : (TaskItem → Bool) → List (Text × List TaskItem) → List Bool
results_of answer [] = []
results_of answer ((target, items) ∷ groups) = map answer items ++ results_of answer groups

abbrev pub is_true : Bool → Bool
is_true b = b

abbrev pub final_status : ℕ → String
final_status failed_count = if failed_count == 0 then "uploaded" else "partial_failed"

-- `async with async_session_maker()`: a session over what is committed.
unfoldable pub reopened : Action (Unit {0})
reopened s = (ok tt, record s { db = s.committed })

-- `except Exception: log`
abbrev pub suppressed : Result (Unit {0}) × Session → Result (Unit {0}) × Session
suppressed (ok a, s) = (ok tt, s)
suppressed (err e, s) = (ok tt, record s { db = s.committed })

module _ (attempt : TaskItem → Option Text) (str_of : Error → Text) (task_id : String) where
  -- Nothing to upload.
  unfoldable pub finish_empty : ℕ → Action (Unit {0})
  finish_empty skipped = do
    now ← clock
    Tasks.update_status task_id "uploaded" none none (some now)
    Events.append task_id "task_completed"
        (("uploaded", num 0) ∷ ("failed", num 0) ∷ ("skipped", num skipped) ∷ [])
    commit

  -- The uploads, and the status that they lead to.
  unfoldable pub finish : List TaskItem → List Move → Action (Unit {0})
  unfolding move_all results_of group_items
  finish uploadable moves = do
    move_all attempt moves
    let all_results = results_of (succeeds attempt) (group_items uploadable [])
    let uploaded_count = count_p is_true all_results
    let failed_count = count_p not all_results
    now ← clock
    Tasks.update_status task_id (final_status failed_count) none none (some now)
    Events.append task_id "task_completed" (
        ("uploaded", num uploaded_count)
        ∷ ("failed", num failed_count)
        ∷ ("total", num (length uploadable))
        ∷ [])
    commit

  abbrev pub finish_items : List TaskItem → ℕ → List Move → Action (Unit {0})
  finish_items [] total moves = finish_empty total
  finish_items (item ∷ items) total moves = finish (item ∷ items) moves

  unfoldable pub run_task_inner : List Move → Action (Unit {0})
  unfolding finish_empty finish
  run_task_inner moves = do
    found ← Tasks.get task_id none
    task ← or_raise found runtime_error
    raise_if (not (task.status == "confirmed")) runtime_error
    Tasks.update_status task_id "uploading" none none none
    Events.append task_id "upload_started" (("task_id", str task_id) ∷ [])
    commit
    all_items ← Items.list_by_task task_id none
    finish_items (keep is_uploadable all_items) (length all_items) moves

  -- The handler of whatever the run raises.
  unfoldable pub mark_failed : Error → Action (Unit {0})
  unfolding reopened
  mark_failed e = do
    reopened
    now ← clock
    Tasks.update_status task_id "failed" none none (some now)
    Events.append task_id "task_failed" (("error", chars (take 500 (str_of e))) ∷ [])
    commit

  unfoldable pub run_task : List Move → Action (Unit {0})
  unfolding run_task_inner mark_failed on_error
  run_task moves s = suppressed (on_error (run_task_inner moves) mark_failed s)
