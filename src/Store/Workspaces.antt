-- ===== src/Store/Workspaces.antt =====
-- control-plane/app/repos/workspace_repo.py
use multi_tenant_file_delive.Prelude.{
  ℕ, String, Bool, true, false, ◌&&◌, ◌||◌, Option, none, some, List, [], ◌∷◌, ◌++◌, ◌==◌,
  string_eq, text_eq, nat_eq, any, keep, find, ltb, str_leb, text_leb, sort_by, if◌then◌else◌,
}
use multi_tenant_file_delive.Text.{Text, strip}
use multi_tenant_file_delive.Store.Rows.{
  Task, TaskItem, Workspace, PhysicalObject, WorkspaceObject, Database,
}
use multi_tenant_file_delive.Store.Session.{
  Action, integrity_error, ◌>>=◌, ◌>>◌, pure, raise_if, reads, writes, gen_id, clock,
}

pub data AccessScope : Type 0 where
  owner target : AccessScope

-- The condition that the scope adds to a query.
abbrev pub in_scope : AccessScope → String → Workspace → Bool
in_scope owner tenant w = w.owner_tenant_id == tenant
in_scope target tenant w = w.target_tenant_id == tenant

pub record WorkspaceObjectRecord : Type 0 where
  pub workspace_object : WorkspaceObject
  pub physical_object : PhysicalObject
  pub workspace : Workspace

-- The inner join of the three tables; the primary keys make each match the only one.
abbrev pub join_row :
    WorkspaceObject → Option PhysicalObject → Option Workspace → List WorkspaceObjectRecord
join_row o none w = []
join_row o (some p) none = []
join_row o (some p) (some w) =
    record { workspace_object = o; physical_object = p; workspace = w } ∷ []

unfoldable pub join :
    List PhysicalObject → List Workspace → List WorkspaceObject → List WorkspaceObjectRecord
join ps ws [] = []
join ps ws (o ∷ os) =
    join_row o (find (λ p. p.id == o.physical_object_id) ps) (find (λ w. w.id == o.workspace_id) ws)
    ++ join ps ws os

abbrev pub records : Database → List WorkspaceObjectRecord
records db = join db.physical_objects db.workspaces db.workspace_objects

-- By name, then by id.
abbrev by_name : Workspace → Workspace → Bool
by_name a b = if a.name == b.name then str_leb a.id b.id else text_leb a.name b.name

unfoldable pub list_workspaces : String → AccessScope → Action (List Workspace)
list_workspaces tenant scope =
    reads (λ db. sort_by by_name (keep (in_scope scope tenant) db.workspaces))

unfoldable pub get_workspace : String → String → AccessScope → Action (Option Workspace)
get_workspace workspace_id tenant scope =
    reads (λ db. find (λ w. w.id == workspace_id && in_scope scope tenant w) db.workspaces)

-- The unique constraint on owner and key makes the row the only one.
unfoldable pub get_workspace_by_target_key : String → Text → Action (Option Workspace)
get_workspace_by_target_key owner_tenant target_key = reads (λ db.
    find (λ w. w.owner_tenant_id == owner_tenant && w.target_key == target_key) db.workspaces)

-- Newest first.
abbrev newer : WorkspaceObjectRecord → WorkspaceObjectRecord → Bool
newer a b =
    ltb b.workspace_object.uploaded_at a.workspace_object.uploaded_at
    || (a.workspace_object.uploaded_at == b.workspace_object.uploaded_at
        && str_leb b.workspace_object.id a.workspace_object.id)

unfoldable pub objects_of : String → Option Workspace → Action (Option (List WorkspaceObjectRecord))
objects_of workspace_id none = pure none
objects_of workspace_id (some w) = reads (λ db.
    some (sort_by newer (keep (λ r. r.workspace_object.workspace_id == workspace_id) (records db))))

unfoldable pub list_objects :
    String → String → AccessScope → Action (Option (List WorkspaceObjectRecord))
unfolding get_workspace objects_of
list_objects workspace_id tenant scope = do
  workspace ← get_workspace workspace_id tenant scope
  objects_of workspace_id workspace

unfoldable pub get_object : String → String → AccessScope → Action (Option WorkspaceObjectRecord)
get_object object_id tenant scope = reads (λ db.
    find (λ r. r.workspace_object.id == object_id && in_scope scope tenant r.workspace)
      (records db))

unfoldable pub get_object_by_task_item : String → Action (Option WorkspaceObjectRecord)
get_object_by_task_item item_id =
    reads (λ db. find (λ r. r.workspace_object.task_item_id == item_id) (records db))

-- What the data plane reports of an uploaded item.
pub record WorkspaceResultReceipt : Type 0 where
  pub key : Option Text
  pub size : Option ℕ
  pub sha256 : Option String

pub record WorkspaceObjectWriteResult : Type 0 where
  pub object : WorkspaceObjectRecord
  pub created : Bool

-- `a or b`, where 0 and `None` count as false.
abbrev pub size_or : Option ℕ → ℕ → ℕ
size_or none b = b
size_or (some n) b = if n == 0 then b else n

abbrev pub digest_or : Option String → String
digest_or none = ""
digest_or (some s) = s

abbrev pub time_or : Option ℕ → Option ℕ → ℕ → ℕ
time_or (some t) other now = t
time_or none (some t) now = t
time_or none none now = now

-- The two inserts, with their flushes.
unfoldable pub insert_object :
    Task
    → TaskItem
    → WorkspaceResultReceipt
    → Text
    → Text
    → Option ℕ
    → Workspace
    → Action (Option WorkspaceObjectWriteResult)
insert_object task item receipt key bucket uploaded_at workspace = do
  physical_id ← gen_id
  now ← clock
  let physical : PhysicalObject = record {
    id = physical_id;
    owner_tenant_id = task.owner_tenant_id;
    sink_type = "s3";
    bucket = bucket;
    object_key = key;
    size_bytes = size_or receipt.size item.file_size;
    sha256 = digest_or receipt.sha256;
    created_at = now;
  }
  taken ← reads (λ db. any (λ p. p.id == physical_id) db.physical_objects)
  raise_if taken integrity_error
  writes (λ db. record db { physical_objects = db.physical_objects ++ physical ∷ [] })
  object_id ← gen_id
  let object : WorkspaceObject = record {
    id = object_id;
    workspace_id = workspace.id;
    physical_object_id = physical_id;
    task_id = task.id;
    task_item_id = item.id;
    display_name = item.filename;
    dst_path = if item.dst_path == [] then key else item.dst_path;
    uploaded_by_user_id = task.owner_user_id;
    uploaded_at = time_or uploaded_at item.uploaded_at now;
  }
  clash ←
      reads (λ db. any (λ o. o.id == object_id || o.task_item_id == item.id) db.workspace_objects)
  raise_if clash integrity_error
  writes (λ db. record db { workspace_objects = db.workspace_objects ++ object ∷ [] })
  pure (
      some (record {
        object = record {
          workspace_object = object;
          physical_object = physical;
          workspace = workspace;
        };
        created = true;
      }))

unfoldable pub in_workspace :
    Task
    → TaskItem
    → WorkspaceResultReceipt
    → Text
    → Text
    → Option ℕ
    → Option Workspace
    → Action (Option WorkspaceObjectWriteResult)
in_workspace task item receipt key bucket uploaded_at none = pure none
in_workspace task item receipt key bucket uploaded_at (some w) =
    insert_object task item receipt key bucket uploaded_at w

unfoldable pub unless_existing :
    Task
    → TaskItem
    → WorkspaceResultReceipt
    → Text
    → Text
    → Option ℕ
    → Option WorkspaceObjectRecord
    → Action (Option WorkspaceObjectWriteResult)
unless_existing task item receipt key bucket uploaded_at (some existing) =
    pure (some (record { object = existing; created = false }))
unless_existing task item receipt key bucket uploaded_at none =
    if strip item.target_name_matched == [] then pure none else (do
      workspace ← get_workspace_by_target_key task.owner_tenant_id (strip item.target_name_matched)
      in_workspace task item receipt key bucket uploaded_at workspace)

unfoldable pub with_key :
    Task
    → TaskItem
    → WorkspaceResultReceipt
    → Text
    → Option ℕ
    → Option Text
    → Action (Option WorkspaceObjectWriteResult)
with_key task item receipt bucket uploaded_at none = pure none
with_key task item receipt bucket uploaded_at (some key) = if key == [] then pure none else (do
  existing ← get_object_by_task_item item.id
  unless_existing task item receipt key bucket uploaded_at existing)

-- Creates the metadata of one uploaded item, once.
unfoldable pub record_uploaded_item :
    Task
    → TaskItem
    → WorkspaceResultReceipt
    → Text
    → Option ℕ
    → Action (Option WorkspaceObjectWriteResult)
unfolding with_key unless_existing in_workspace get_object_by_task_item get_workspace_by_target_key
record_uploaded_item task item receipt bucket uploaded_at =
    with_key task item receipt bucket uploaded_at receipt.key
