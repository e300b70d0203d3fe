-- ===== src/Api/Tasks/Confirming.antt =====
-- When a task may be confirmed, and what that changes: `confirm_task` of
-- control-plane/app/api/tasks.py.
use multi_tenant_file_delive.Prelude.{
  ℕ, String, ◌≡◌, refl, true, false, Option, none, some, List, arith, ◌==◌, string_eq, ap, find,
  find-update_where, update_where, contains, Option-cases, Bool-cases, inl, inr, if◌then◌else◌,
}
use multi_tenant_file_delive.Store.Rows.{Task, Database}
use multi_tenant_file_delive.Store.Session.{Session, Action, ◌>>=◌, ◌>>◌, or_raise, serve}
use multi_tenant_file_delive.Store.Ensures.{
  opened, Ensures, ensures-raise_if, ensures-clock, ensures-or_raise, ensures-commit, ensures-pure,
  Served, serve-Served,
}
use multi_tenant_file_delive.Store.Steps.{
  event_of, add_event, set_status, ensures-update_status, ensures-append,
}
use multi_tenant_file_delive.Store.Tasks
use multi_tenant_file_delive.Auth.{
  CurrentActor, require_task_writer, task_writer_roles, to_event_payload,
}
use multi_tenant_file_delive.Api.Tasks.{find_task, confirm_task, is_blocked}

-- The task that a request of the actor means.
abbrev pub own_task : CurrentActor → String → Database → Option Task
own_task actor task_id db = find (Tasks.selects task_id (some actor.tenant_id)) db.tasks

-- What a confirmation found, what it answers, and what it left.
pub record Confirmed (actor : CurrentActor) (task_id : String) (ids : ℕ → String) (now : ℕ)
    (db : Database) (status : String) (db' : Database) (t : Task) : Type 0 where
  pub found : own_task actor task_id db ≡ some t
  pub writer : contains actor.role task_writer_roles ≡ true
  pub classified : (t.status == "classified") ≡ true
  pub free : is_blocked t.summary_json ≡ false
  pub answer : status ≡ "confirmed"
  pub after :
      db'
      ≡ add_event
          (event_of (opened ids now db) task_id "confirmed" (to_event_payload actor))
          (set_status task_id "confirmed" (some actor.tenant_id) (some now) none db)

-- The first two steps of a handler that writes: the role, and the task of the actor's tenant.
module _ {B : Type 0} {s : Session} {Q : B → Session → Type 0} where
  pub ensures-require_task_writer :
      (actor : CurrentActor) (m : Action B)
      → (contains actor.role task_writer_roles ≡ true → Ensures m s Q)
      → Ensures (require_task_writer actor >> m) s Q
  unfolding require_task_writer ◌>>=◌
  ensures-require_task_writer actor m h =
      elim (Bool-cases (contains actor.role task_writer_roles)) [
        | inl writer ↦ record { post = rw (writer, if◌then◌else◌) (h writer).post }
        | inr reader ↦ record { post = rw (reader, if◌then◌else◌) tt }
      ]

  pub ensures-find_task :
      (actor : CurrentActor) (task_id : String) (f : Task → Action B)
      → ((t : Task) → own_task actor task_id s.db ≡ some t → Ensures (f t) s Q)
      → Ensures (find_task actor task_id >>= f) s Q
  unfolding find_task Tasks.get ◌>>=◌
  ensures-find_task actor task_id f h = elim (Option-cases (own_task actor task_id s.db)) [
    | inl nothing ↦ record { post = rw (nothing, or_raise) tt }
    | inr (t, found) ↦ record { post = rw (found, or_raise) (h t found).post }
  ]

confirmed_status :
    (actor : CurrentActor) (task_id : String) (now : ℕ) (tasks : List Task) (u : Task)
    → find (Tasks.selects task_id (some actor.tenant_id)) (
        update_where
          (Tasks.selects task_id (some actor.tenant_id))
          (Tasks.with_status "confirmed" (some now) none)
          tasks)
      ≡ some u
    → u.status ≡ "confirmed"
confirmed_status actor task_id now tasks u h =
    ap (λ (t : Task). t.status)
      (find-update_where (Tasks.selects task_id (some actor.tenant_id))
        (Tasks.with_status "confirmed" (some now) none) tasks u h).2

-- A confirmation that succeeds was made by a writer, on a task of the actor's own tenant that is
-- classified and has no blocking errors. It answers `confirmed`, sets the status and the time of
-- that task, appends one event, and changes nothing else.
pub confirm_task-Confirmed :
    (actor : CurrentActor) (task_id : String) (ids : ℕ → String) (now : ℕ) (db : Database)
    → Served
        (serve ids now (confirm_task actor task_id) db)
        (λ status db'. (t : Task) × Confirmed actor task_id ids now db status db' t)
unfolding confirm_task
confirm_task-Confirmed actor task_id ids now db =
    serve-Served _ ids now (confirm_task actor task_id) db (
      ensures-require_task_writer actor _ λ writer. ensures-find_task actor task_id _ λ t found.
        ensures-raise_if _ _ _ λ classified. ensures-raise_if _ _ _ λ free. ensures-clock _ (
          ensures-update_status _ _ _ _ _ _ (
            ensures-or_raise _ _ _ λ updated present. ensures-append _ _ _ _ (
              ensures-commit _ (
                ensures-pure _ (
                  t,
                  record {
                    found = found;
                    writer = writer;
                    classified = ground arith;
                    free = free;
                    answer = confirmed_status actor task_id now db.tasks updated present;
                    after = refl;
                  },
                ))))))
