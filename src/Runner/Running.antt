-- ===== src/Runner/Running.antt =====
-- A run from its start to its end: `run_task` of control-plane/app/services/task_runner.py.
use multi_tenant_file_delive.Prelude.{
  ℕ, String, ◌≡◌, refl, Bool, true, false, Option, none, some, List, [], ◌∷◌, ◌==◌, string_eq, any,
  find, keep, sort_by, length, Bool-cases, inl, inr, if◌then◌else◌,
}
use multi_tenant_file_delive.Text.{Text, take}
use multi_tenant_file_delive.Store.Rows.{TaskItem, Task, str, num, chars}
use multi_tenant_file_delive.Store.Session.{
  Session, Error, ok, err, runtime_error, ◌>>=◌, commit, or_raise, raise_if,
}
use multi_tenant_file_delive.Store.Ensures.{with_db, with_drawn, with_commit}
use multi_tenant_file_delive.Store.Steps.{event_of, add_event, set_status}
use multi_tenant_file_delive.Store.Items
use multi_tenant_file_delive.Store.Tasks
use multi_tenant_file_delive.Store.Events
use multi_tenant_file_delive.Api.Tasks.Upload.{is_uploadable, on_error}
use multi_tenant_file_delive.Runner.{
  Move, finish_empty, finish_items, run_task_inner, mark_failed, run_task, reopened,
}
use multi_tenant_file_delive.Runner.Moves.{IsSchedule}
use multi_tenant_file_delive.Runner.Finishing.{finished, finish-eq}

module _ (attempt : TaskItem → Option Text) (str_of : Error → Text) (task_id : String) where
  abbrev pub found : Session → Option Task
  found s = find (Tasks.selects task_id none) s.db.tasks

  abbrev pub all_items : Session → List TaskItem
  all_items s = sort_by Items.by_path (keep (Items.listed s.db.tasks task_id none) s.db.items)

  abbrev pub uploadable : Session → List TaskItem
  uploadable s = keep is_uploadable (all_items s)

  -- The task is `uploading`, with the event that says so.
  abbrev pub begun : Session → Session
  begun s = with_commit (
      with_drawn (
        with_db
          (λ db.
            add_event (event_of s task_id "upload_started" (("task_id", str task_id) ∷ []))
              (set_status task_id "uploading" none none none db))
          s))

  -- The task is `uploaded` with nothing to upload.
  abbrev pub emptied : ℕ → Session → Session
  emptied skipped s = with_commit (
      with_drawn (
        with_db
          (λ db.
            add_event
              (event_of s task_id "task_completed"
                (("uploaded", num 0) ∷ ("failed", num 0) ∷ ("skipped", num skipped) ∷ []))
              (set_status task_id "uploaded" none none (some s.now) db))
          s))

  -- The task is `failed`, with what was raised.
  abbrev pub failed : Error → Session → Session
  failed e s = with_commit (
      with_drawn (
        with_db
          (λ db.
            add_event
              (event_of s task_id "task_failed" (("error", chars (take 500 (str_of e))) ∷ []))
              (set_status task_id "failed" none none (some s.now) db))
          s))

  abbrev pub ended : List TaskItem → ℕ → Session → Session
  ended [] total s = emptied total s
  ended (item ∷ items) total s = finished attempt str_of task_id (item ∷ items) s

  abbrev pub Fresh : Session → Type 0
  Fresh s = any (λ e. e.id == s.ids s.drawn) s.db.events ≡ false

  finish_items-eq :
      (items : List TaskItem) (total : ℕ) (moves : List Move) (s : Session)
      → s.committed ≡ s.db
      → Fresh s
      → IsSchedule attempt s.now items moves
      → finish_items attempt str_of task_id items total moves s ≡ (ok tt, ended items total s)
  unfolding finish_empty Tasks.update_status Events.append ◌>>=◌
  finish_items-eq [] total moves s clean fresh schedule = rw (fresh, if◌then◌else◌, commit) refl
  finish_items-eq (item ∷ items) total moves s clean fresh schedule =
      finish-eq attempt str_of task_id (item ∷ items) moves s clean schedule fresh

  inner-eq :
      (task : Task) (moves : List Move) (s : Session)
      → found s ≡ some task
      → (task.status == "confirmed") ≡ true
      → Fresh s
      → Fresh (begun s)
      → IsSchedule attempt s.now (uploadable s) moves
      → run_task_inner attempt str_of task_id moves s
        ≡ (ok tt, ended (uploadable s) (length (all_items s)) (begun s))
  unfolding run_task_inner Tasks.get Tasks.update_status Items.list_by_task Events.append ◌>>=◌
  inner-eq task moves s is_found confirmed fresh again schedule =
      rw (is_found, or_raise, confirmed, raise_if, fresh, if◌then◌else◌, commit)
        (finish_items-eq (uploadable s) (length (all_items s)) moves (begun s) refl again schedule)

  mark_failed-eq :
      (e : Error) (s : Session)
      → s.committed ≡ s.db
      → Fresh s
      → mark_failed attempt str_of task_id e s ≡ (ok tt, failed e s)
  unfolding mark_failed reopened Tasks.update_status Events.append ◌>>=◌
  mark_failed-eq e s clean fresh = rw (clean, fresh, if◌then◌else◌, commit) refl

  run_task_inner-missing :
      (moves : List Move) (s : Session)
      → found s ≡ none
      → run_task_inner attempt str_of task_id moves s ≡ (err runtime_error, s)
  unfolding run_task_inner Tasks.get ◌>>=◌
  run_task_inner-missing moves s missing = rw (missing, or_raise) refl

  run_task_inner-unconfirmed :
      (task : Task) (moves : List Move) (s : Session)
      → found s ≡ some task
      → (task.status == "confirmed") ≡ false
      → run_task_inner attempt str_of task_id moves s ≡ (err runtime_error, s)
  unfolding run_task_inner Tasks.get ◌>>=◌
  run_task_inner-unconfirmed task moves s is_found other =
      rw (is_found, or_raise, other, raise_if) refl

  -- A run that starts: the task is there and is confirmed.
  abbrev pub is_runnable : Option Task → Bool
  is_runnable none = false
  is_runnable (some task) = task.status == "confirmed"

  -- What becomes of a run.
  abbrev pub end_of : Option Task → Session → Session
  end_of task s =
      if is_runnable task
      then ended (uploadable s) (length (all_items s)) (begun s)
      else failed runtime_error s

  run_task-ends :
      (o : Option Task) (moves : List Move) (s : Session)
      → found s ≡ o
      → s.committed ≡ s.db
      → Fresh s
      → Fresh (begun s)
      → (is_runnable o ≡ true → IsSchedule attempt s.now (uploadable s) moves)
      → run_task attempt str_of task_id moves s ≡ (ok tt, end_of o s)
  unfolding run_task on_error
  run_task-ends none moves s e clean fresh again schedule =
      rw (run_task_inner-missing moves s e, mark_failed-eq runtime_error s clean fresh) refl
  run_task-ends (some task) moves s e clean fresh again schedule =
      elim (Bool-cases (task.status == "confirmed")) [
        | inl confirmed ↦
            rw
              (
                inner-eq task moves s e confirmed fresh again (schedule confirmed),
                confirmed,
                if◌then◌else◌,
              )
              refl
        | inr other ↦
            rw
              (
                run_task_inner-unconfirmed task moves s e other,
                mark_failed-eq runtime_error s clean fresh,
                other,
                if◌then◌else◌,
              )
              refl
      ]

  -- A run over a session with nothing uncommitted, whose two event ids are new, never raises. If
  -- the task is there and confirmed, then in whatever order the writes of the uploads come, each
  -- item that is uploadable ends as its own upload says and every other row stays, the task is
  -- `uploaded` if no upload failed and `partial_failed` otherwise, and its events tell the start
  -- and how many items were uploaded and failed; with nothing to upload it is `uploaded` at once.
  -- Otherwise the task, if there is one, is marked `failed`, with an event, and no item changes.
  pub run_task-settles :
      (moves : List Move) (s : Session)
      → s.committed ≡ s.db
      → Fresh s
      → Fresh (begun s)
      → (is_runnable (found s) ≡ true → IsSchedule attempt s.now (uploadable s) moves)
      → run_task attempt str_of task_id moves s ≡ (ok tt, end_of (found s) s)
  run_task-settles moves s clean fresh again schedule =
      run_task-ends (found s) moves s refl clean fresh again schedule
