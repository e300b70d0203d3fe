-- ===== src/Store/Steps.antt =====
-- What the repositories' operations do to the session, as steps of a handler.
use multi_tenant_file_delive.Prelude.{
  ℕ, String, Option, none, [], ◌∷◌, ◌++◌, ◌==◌, string_eq, any, find, count_p, update_where,
  Bool-cases, inl, inr,
}
use multi_tenant_file_delive.Text.{Text}
use multi_tenant_file_delive.Store.Rows.{Task, TaskItem, TaskEvent, Database}
use multi_tenant_file_delive.Store.Session.{Session, Action, ◌>>=◌}
use multi_tenant_file_delive.Store.Ensures.{Ensures, with_db, with_drawn}
use multi_tenant_file_delive.Store.Tasks
use multi_tenant_file_delive.Store.Items
use multi_tenant_file_delive.Store.Events

-- The row that `append` adds.
abbrev pub event_of : Session → String → String → Events.Payload → TaskEvent
event_of s task_id event_type payload = record {
  id = s.ids s.drawn;
  task_id = task_id;
  event_type = event_type;
  payload_json = payload;
  created_at = s.now;
}

abbrev pub add_event : TaskEvent → Database → Database
add_event e db = record db { events = db.events ++ e ∷ [] }

abbrev pub set_status : String → String → Option String → Option ℕ → Option ℕ → Database → Database
set_status task_id status tenant confirmed finished db = record db {
  tasks =
      update_where (Tasks.selects task_id tenant) (Tasks.with_status status confirmed finished)
        db.tasks;
}

abbrev pub set_upload :
    String → String → Option String → Option String → Text → Option ℕ → Database → Database
set_upload item_id status task_id tenant error uploaded_at db = record db {
  items =
      update_where (Items.selects_item db.tasks item_id task_id tenant)
        (Items.with_upload status error uploaded_at) db.items;
}

abbrev pub reset_failed : String → Option String → Database → Database
reset_failed task_id tenant db = record db {
  items =
      update_where (Items.resets db.tasks task_id tenant) (Items.with_upload "pending" [] none)
        db.items;
}

module _ {B : Type 0} {s : Session} {Q : B → Session → Type 0} where
  pub ensures-get :
      (task_id : String) (tenant : Option String) (f : Option Task → Action B)
      → Ensures (f (find (Tasks.selects task_id tenant) s.db.tasks)) s Q
      → Ensures (Tasks.get task_id tenant >>= f) s Q
  unfolding Tasks.get ◌>>=◌
  ensures-get task_id tenant f h = record { post = h.post }

  pub ensures-update_status :
      (task_id status : String) (tenant : Option String) (confirmed finished : Option ℕ)
      (f : Option Task → Action B)
      → Ensures
          (f (
            find
              (Tasks.selects task_id tenant)
              (set_status task_id status tenant confirmed finished s.db).tasks))
          (with_db (set_status task_id status tenant confirmed finished) s)
          Q
      → Ensures (Tasks.update_status task_id status tenant confirmed finished >>= f) s Q
  unfolding Tasks.update_status ◌>>=◌
  ensures-update_status task_id status tenant confirmed finished f h = record { post = h.post }

  pub ensures-append :
      (task_id event_type : String) (payload : Events.Payload) (f : TaskEvent → Action B)
      → Ensures
          (f (event_of s task_id event_type payload))
          (with_db (add_event (event_of s task_id event_type payload)) (with_drawn s))
          Q
      → Ensures (Events.append task_id event_type payload >>= f) s Q
  unfolding Events.append ◌>>=◌
  ensures-append task_id event_type payload f h =
      elim (Bool-cases (any (λ e. e.id == s.ids s.drawn) s.db.events)) [
        | inl taken ↦ record { post = rw taken tt }
        | inr fresh ↦ record { post = rw fresh h.post }
      ]

  pub ensures-batch_reset_failed :
      (task_id : String) (tenant : Option String) (f : ℕ → Action B)
      → Ensures
          (f (count_p (Items.resets s.db.tasks task_id tenant) s.db.items))
          (with_db (reset_failed task_id tenant) s)
          Q
      → Ensures (Items.batch_reset_failed task_id tenant >>= f) s Q
  unfolding Items.batch_reset_failed ◌>>=◌
  ensures-batch_reset_failed task_id tenant f h = record { post = h.post }

  pub ensures-update_upload_status :
      (item_id status : String) (task_id tenant : Option String) (error : Text)
      (uploaded_at : Option ℕ) (f : Option TaskItem → Action B)
      → Ensures
          (f (
            find
              (Items.selects_item s.db.tasks item_id task_id tenant)
              (set_upload item_id status task_id tenant error uploaded_at s.db).items))
          (with_db (set_upload item_id status task_id tenant error uploaded_at) s)
          Q
      → Ensures
          (Items.update_upload_status item_id status task_id tenant error uploaded_at >>= f)
          s
          Q
  unfolding Items.update_upload_status ◌>>=◌
  ensures-update_upload_status item_id status task_id tenant error uploaded_at f h = record {
    post = h.post;
  }
