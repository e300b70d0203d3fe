-- ===== src/Api/Tasks/Retrying.antt =====
-- What a retry opens again: `retry_task` of control-plane/app/api/tasks.py.
use multi_tenant_file_delive.Prelude.{
  ℕ, String, ◌≡◌, refl, Bool, true, false, ◌&&◌, ◌||◌, Option, none, some, List, [], ◌∷◌, ◌++◌,
  ◌==◌, string_eq, ltb, count_p, update_where, contains, Bool-cases, inl, inr, if◌then◌else◌,
}
use multi_tenant_file_delive.Store.Rows.{Task, TaskItem, Database, num}
use multi_tenant_file_delive.Store.Session.{Session, Action, ◌>>=◌, serve}
use multi_tenant_file_delive.Store.Ensures.{
  opened, Ensures, ensures-pure, ensures-commit, Served, serve-Served, with_db,
}
use multi_tenant_file_delive.Store.Steps.{
  event_of, add_event, reset_failed, ensures-append, ensures-batch_reset_failed,
}
use multi_tenant_file_delive.Store.Tasks
use multi_tenant_file_delive.Store.Items
use multi_tenant_file_delive.Auth.{CurrentActor, task_writer_roles, to_event_payload}
use multi_tenant_file_delive.Api.Tasks.{retry_task, reopen_if, reopened}
use multi_tenant_file_delive.Api.Tasks.Confirming.{
  own_task, ensures-require_task_writer, ensures-find_task,
}

-- The rows of the task after it is opened again.
abbrev pub reopen : String → CurrentActor → Database → Database
reopen id actor db = record db {
  tasks = update_where (Tasks.selects id (some actor.tenant_id)) reopened db.tasks;
}

abbrev pub reopen_rows : Bool → String → CurrentActor → Database → Database
reopen_rows b id actor db = if b then reopen id actor db else db

abbrev pub status_after : Bool → String → String
status_after b status = if b then "confirmed" else status

-- The task had failed items, and had failed in whole or in part.
abbrev pub reopens : ℕ → String → Bool
reopens failed status = ltb 0 failed && (status == "failed" || status == "partial_failed")

-- How many items of the task have failed, for the actor's tenant.
abbrev pub failed_items : CurrentActor → String → Database → ℕ
failed_items actor task_id db =
    count_p (Items.resets db.tasks task_id (some actor.tenant_id)) db.items

module _ {B : Type 0} {s : Session} {Q : B → Session → Type 0} where
  ensures-reopen_if :
      (b : Bool) (actor : CurrentActor) (task : Task) (f : Task → Action B)
      → Ensures (f (if b then reopened task else task)) (with_db (reopen_rows b task.id actor) s) Q
      → Ensures (reopen_if b actor task >>= f) s Q
  unfolding reopen_if ◌>>=◌
  ensures-reopen_if true actor task f h = record { post = h.post }
  ensures-reopen_if false actor task f h = record { post = h.post }

-- What a retry found, what it answers, and what it left.
pub record Retried (actor : CurrentActor) (task_id : String) (ids : ℕ → String) (now : ℕ)
    (db : Database) (answer : ℕ × String) (db' : Database) (t : Task) : Type 0 where
  pub found : own_task actor task_id db ≡ some t
  pub writer : contains actor.role task_writer_roles ≡ true
  pub reset : answer.0 ≡ failed_items actor task_id db
  pub status : answer.1 ≡ status_after (reopens (failed_items actor task_id db) t.status) t.status
  pub after :
      db'
      ≡ add_event
          (event_of
            (opened ids now db)
            task_id
            "task_retry_requested"
            (to_event_payload actor ++ ("reset_count", num (failed_items actor task_id db)) ∷ []))
          (reopen_rows
            (reopens (failed_items actor task_id db) t.status)
            t.id
            actor
            (reset_failed task_id (some actor.tenant_id) db))

status_of_reopened :
    (b : Bool) (t : Task) → (if b then reopened t else t).status ≡ status_after b t.status
status_of_reopened true t = refl
status_of_reopened false t = refl

-- A retry that succeeds was made by a writer on a task of the actor's own tenant. Every failed item
-- of the task, and no other, is pending again with no error, and their number is the answer; the
-- task is confirmed again exactly if there was such an item and the task had failed in whole or in
-- part. It appends one event and changes nothing else.
pub retry_task-Retried :
    (actor : CurrentActor) (task_id : String) (ids : ℕ → String) (now : ℕ) (db : Database)
    → Served
        (serve ids now (retry_task actor task_id) db)
        (λ answer db'. (t : Task) × Retried actor task_id ids now db answer db' t)
unfolding retry_task
retry_task-Retried actor task_id ids now db = serve-Served _ ids now (retry_task actor task_id) db (
    ensures-require_task_writer actor _ λ writer. ensures-find_task actor task_id _ λ t found.
      ensures-batch_reset_failed _ _ _ (
        ensures-reopen_if _ _ _ _ (
          ensures-append _ _ _ _ (
            ensures-commit _ (
              ensures-pure _ (
                t,
                record {
                  found = found;
                  writer = writer;
                  reset = refl;
                  status = status_of_reopened _ t;
                  after = refl;
                },
              ))))))

resets-pending :
    (tasks : List Task) (task_id : String) (tenant : Option String) (i : TaskItem)
    → Items.resets tasks task_id tenant (Items.with_upload "pending" [] none i) ≡ false
resets-pending tasks task_id tenant i = elim (Bool-cases (i.task_id == task_id)) [
  | inl same ↦ rw same refl
  | inr other ↦ rw other refl
]

none_failed :
    (tasks : List Task) (task_id : String) (tenant : Option String) (items : List TaskItem)
    → count_p (Items.resets tasks task_id tenant) (
        update_where
          (Items.resets tasks task_id tenant)
          (Items.with_upload "pending" [] none)
          items)
      ≡ 0
none_failed tasks task_id tenant [] = refl
none_failed tasks task_id tenant (i ∷ items) =
    elim (Bool-cases (Items.resets tasks task_id tenant i)) [
      | inl hit ↦
          rw (hit, resets-pending tasks task_id tenant i) (none_failed tasks task_id tenant items)
      | inr miss ↦ rw (miss, miss) (none_failed tasks task_id tenant items)
    ]
