-- ===== src/Store/Tasks.antt =====
-- control-plane/app/repos/task_repo.py. A query with `tenant_id=None` is `none`.
use multi_tenant_file_delive.Prelude.{
  ℕ, String, Bool, true, ◌&&◌, ◌||◌, Option, none, some, List, [], ◌∷◌, ◌++◌, ◌==◌, string_eq, any,
  keep, find, update_where, ltb, str_leb, sort_by, nat_eq,
}
use multi_tenant_file_delive.Text.{Text, take, drop}
use multi_tenant_file_delive.Store.Rows.{Task}
use multi_tenant_file_delive.Store.Session.{
  Action, integrity_error, runtime_error, ◌>>=◌, ◌>>◌, pure, raise, raise_if, reads, writes, gen_id,
  clock,
}

-- `.where(Task.owner_tenant_id == tenant_id)`, where a tenant is given.
abbrev pub owned_by : Option String → Task → Bool
owned_by none t = true
owned_by (some tenant) t = t.owner_tenant_id == tenant

abbrev pub selects : String → Option String → Task → Bool
selects task_id tenant t = t.id == task_id && owned_by tenant t

-- `scalar_one_or_none`: two rows are an error.
unfoldable pub one_or_none : {A : Type 0} → List A → Action (Option A)
one_or_none [] = pure none
one_or_none (x ∷ []) = pure (some x)
one_or_none (x ∷ y ∷ xs) = raise runtime_error

unfoldable pub get : String → Option String → Action (Option Task)
get task_id tenant = reads (λ db. find (selects task_id tenant) db.tasks)

unfoldable pub get_by_idempotency_key : String → Option String → Action (Option Task)
get_by_idempotency_key key tenant = do
  rows ← reads (λ db. keep (λ t. t.idempotency_key == key && owned_by tenant t) db.tasks)
  one_or_none rows

-- A row breaks the unique constraint on owner and key, or the primary key.
abbrev pub clashes : Task → Task → Bool
clashes new t =
    (t.owner_tenant_id == new.owner_tenant_id && t.idempotency_key == new.idempotency_key)
    || t.id == new.id

-- `session.add(task)` and the flush.
unfoldable pub create : String → Text → String → String → String → String → Action Task
create idempotency_key label created_by tenant user status = do
  id ← gen_id
  now ← clock
  let task : Task = record {
    id = id;
    status = status;
    idempotency_key = idempotency_key;
    owner_tenant_id = tenant;
    owner_user_id = user;
    submission_label = label;
    temp_dir = [];
    summary_json = none;
    created_by = created_by;
    created_at = now;
    confirmed_at = none;
    finished_at = none;
  }
  taken ← reads (λ db. any (clashes task) db.tasks)
  raise_if taken integrity_error
  writes (λ db. record db { tasks = db.tasks ++ task ∷ [] })
  pure task

-- A time that is given replaces the one that is there.
abbrev pub or_else : {A : Type 0} → Option A → Option A → Option A
or_else none old = old
or_else (some new) old = some new

abbrev pub with_status : String → Option ℕ → Option ℕ → Task → Task
with_status status confirmed_at finished_at t = record t {
  status = status;
  confirmed_at = or_else confirmed_at t.confirmed_at;
  finished_at = or_else finished_at t.finished_at;
}

-- The row as it is after the update, or `none` where the query finds none. The primary key makes
-- the row the only one.
unfoldable pub update_status :
    String → String → Option String → Option ℕ → Option ℕ → Action (Option Task)
unfolding get
update_status task_id status tenant confirmed_at finished_at = do
  writes (λ db. record db {
    tasks =
        update_where (selects task_id tenant) (with_status status confirmed_at finished_at)
          db.tasks;
  })
  get task_id tenant

-- Newest first.
abbrev newer : Task → Task → Bool
newer a b = ltb b.created_at a.created_at || (a.created_at == b.created_at && str_leb b.id a.id)

unfoldable pub list : ℕ → ℕ → Option String → Action (List Task)
list limit offset tenant =
    reads (λ db. take limit (drop offset (sort_by newer (keep (owned_by tenant) db.tasks))))
