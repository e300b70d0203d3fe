-- ===== src/Runner/Finishing.antt =====
-- What a run leaves: `run_task` of control-plane/app/services/task_runner.py.

use multi_tenant_file_delive.Prelude.{
  ℕ, suc, arith, String, Bool-cases, inl, inr, ◌≡◌, refl, sym, ap, ◌∙◌, Bool, true, false, not,
  ◌&&◌, Option, none, some, List, [], ◌∷◌, ◌++◌, map, map_ext, map_id_lem, map_twice,
  update_where-map, ◌==◌, string_eq, nat_eq, any, length, if◌then◌else◌, update_where, count_p,
}
use multi_tenant_file_delive.Text.{Text}
use multi_tenant_file_delive.Store.Rows.{TaskItem, Database, Task, num}
use multi_tenant_file_delive.Store.Session.{
  Session, ok, Error, Result, ◌>>=◌, ◌>>◌, pure, commit, continue,
}
use multi_tenant_file_delive.Store.Ensures.{with_db, with_drawn, with_commit}
use multi_tenant_file_delive.Store.Steps.{event_of}
use multi_tenant_file_delive.Store.Items
use multi_tenant_file_delive.Store.Tasks
use multi_tenant_file_delive.Store.Events
use multi_tenant_file_delive.Runner.{
  Move, starts, finishes, settle, move, move_all, succeeds, is_true, final_status, finish,
}
use multi_tenant_file_delive.Runner.Moves.{
  settled_by, row_after, rows_after, IsSchedule, uploaded_row, rows_after-schedule,
}
use multi_tenant_file_delive.Runner.Counts.{count_p-grouped}

-- A write by id alone, row by row.
by_id :
    (tasks : List Task) (id : String) (f : TaskItem → TaskItem) (rows : List TaskItem)
    → update_where (Items.selects_item tasks id none none) f rows
      ≡ map (λ row. if row.id == id then f row else row) rows
by_id tasks id f rows =
    update_where-map (Items.selects_item tasks id none none) f rows
    ∙ map_ext (λ row. selected row (row.id == id)) rows
  where
    selected :
        (row : TaskItem) (mine : Bool)
        → (if mine && true then f row else row) ≡ (if mine then f row else row)
    selected row true = refl
    selected row false = refl

module _ (attempt : TaskItem → Option Text) where
  -- The session after one write.
  abbrev with_rows : (TaskItem → TaskItem) → Session → Session
  with_rows f s = with_commit (with_db (λ db. record db { items = map f db.items }) s)

  settle-eq :
      (x : TaskItem) (o : Option Text) (s : Session)
      → (settle attempt x o s.now >> commit) s ≡ (
        ok tt,
        with_rows (λ row. if row.id == x.id then settled_by attempt s.now o row else row) s,
      )
  unfolding Items.update_upload_status ◌>>=◌
  settle-eq x none s =
      ap
        (λ (rows : List TaskItem).
          (ok tt, with_commit (with_db (λ db. record db { items = rows }) s)))
        (by_id s.db.tasks x.id _ s.db.items)
  settle-eq x (some error) s =
      ap
        (λ (rows : List TaskItem).
          (ok tt, with_commit (with_db (λ db. record db { items = rows }) s)))
        (by_id s.db.tasks x.id _ s.db.items)

  move-eq :
      (m : Move) (s : Session) → move attempt m s ≡ (ok tt, with_rows (row_after attempt s.now m) s)
  unfolding move Items.update_upload_status ◌>>=◌
  move-eq (starts x) s =
      ap
        (λ (rows : List TaskItem).
          (ok tt, with_commit (with_db (λ db. record db { items = rows }) s)))
        (by_id s.db.tasks x.id _ s.db.items)
  move-eq (finishes x) s = settle-eq x (attempt x) s

  -- All writes together, from a session that has nothing uncommitted.
  pub move_all-eq :
      (moves : List Move) (s : Session)
      → s.committed ≡ s.db
      → move_all attempt moves s ≡ (ok tt, with_rows (rows_after attempt s.now moves) s)
  unfolding move_all pure ◌>>=◌
  move_all-eq [] s clean =
      ap (λ (c : Database). (ok tt, record s { committed = c })) clean
      ∙ ap
          (λ (rows : List TaskItem).
            (ok tt, with_commit (with_db (λ db. record db { items = rows }) s)))
          (sym (map_id_lem s.db.items))
  move_all-eq (m ∷ moves) s clean =
      ap (λ (p : Result (Unit {0}) × Session). continue p.0 (λ _. move_all attempt moves) p.1)
        (move-eq m s)
      ∙ move_all-eq moves (with_rows (row_after attempt s.now m) s) refl
      ∙ ap
          (λ (rows : List TaskItem).
            (ok tt, with_commit (with_db (λ db. record db { items = rows }) s)))
          (map_twice (rows_after attempt s.now moves) (row_after attempt s.now m) s.db.items)

module _ (attempt : TaskItem → Option Text) (str_of : Error → Text) (task_id : String) where
  abbrev pub fails : TaskItem → Bool
  fails x = not (succeeds attempt x)

  -- The task has failed in part if any upload has failed.
  abbrev pub settle_task : List TaskItem → ℕ → List Task → List Task
  settle_task items now =
      update_where (Tasks.selects task_id none) (
        Tasks.with_status (if any fails items then "partial_failed" else "uploaded") none
          (some now))

  zero_differs : (n : ℕ) → (suc n == 0) ≡ false
  zero_differs n = ground arith

  final_status-count_p :
      (items : List TaskItem)
      → final_status (count_p fails items)
        ≡ (if any fails items then "partial_failed" else "uploaded")
  final_status-count_p [] = refl
  final_status-count_p (x ∷ items) = elim (Bool-cases (fails x)) [
    | inl failed ↦ rw failed (rw (zero_differs (count_p fails items)) refl)
    | inr fine ↦ rw fine (final_status-count_p items)
  ]

  abbrev pub upload_counts : List TaskItem → Events.Payload
  upload_counts items =
      ("uploaded", num (count_p (succeeds attempt) items))
      ∷ ("failed", num (count_p fails items))
      ∷ ("total", num (length items))
      ∷ []

  abbrev pub finished : List TaskItem → Session → Session
  finished items s = with_commit (
      with_drawn (
        with_db
          (λ db. record db {
            items = map (uploaded_row attempt s.now items) db.items;
            tasks = settle_task items s.now db.tasks;
            events = db.events ++ event_of s task_id "task_completed" (upload_counts items) ∷ [];
          })
          s))

  -- The uploads, whatever the order of their writes, and the end of the task.
  pub finish-eq :
      (items : List TaskItem) (moves : List Move) (s : Session)
      → s.committed ≡ s.db
      → IsSchedule attempt s.now items moves
      → any (λ e. e.id == s.ids s.drawn) s.db.events ≡ false
      → finish attempt str_of task_id items moves s ≡ (ok tt, finished items s)
  unfolding finish Tasks.update_status Events.append ◌>>=◌
  finish-eq items moves s clean schedule fresh =
      rw
        (
          move_all-eq attempt moves s clean,
          fresh,
          if◌then◌else◌,
          commit,
          count_p-grouped is_true (succeeds attempt) items,
          count_p-grouped not (succeeds attempt) items,
          final_status-count_p items,
          map_ext (λ row. rows_after-schedule attempt s.now items moves row schedule) s.db.items,
        )
        refl
