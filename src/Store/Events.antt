-- ===== src/Store/Events.antt =====
-- control-plane/app/repos/event_repo.py
use multi_tenant_file_delive.Prelude.{
  String, Bool, ◌&&◌, ◌||◌, Option, List, [], ◌∷◌, ◌++◌, ◌==◌, string_eq, nat_eq, any, keep, ltb,
  str_leb, sort_by,
}
use multi_tenant_file_delive.Store.Rows.{TaskEvent, Value}
use multi_tenant_file_delive.Store.Session.{
  Action, integrity_error, raise_if, ◌>>=◌, ◌>>◌, pure, reads, writes, gen_id, clock,
}
use multi_tenant_file_delive.Store.Items.{in_tenant}

-- The payload of an event; `None` is the empty dict.
abbrev pub Payload : Type 0
Payload = List (String × Value)

unfoldable pub append : String → String → Payload → Action TaskEvent
append task_id event_type payload = do
  id ← gen_id
  now ← clock
  let event : TaskEvent = record {
    id = id;
    task_id = task_id;
    event_type = event_type;
    payload_json = payload;
    created_at = now;
  }
  taken ← reads (λ db. any (λ e. e.id == event.id) db.events)
  raise_if taken integrity_error
  writes (λ db. record db { events = db.events ++ event ∷ [] })
  pure event

-- Oldest first.
abbrev pub older : TaskEvent → TaskEvent → Bool
older a b = ltb a.created_at b.created_at || (a.created_at == b.created_at && str_leb a.id b.id)

unfoldable pub list_by_task : String → Option String → Action (List TaskEvent)
list_by_task task_id tenant = reads (λ db.
    sort_by older
      (keep (λ e. e.task_id == task_id && in_tenant db.tasks tenant e.task_id) db.events))
