-- ===== src/Api/Workspaces.antt =====
-- The handlers of control-plane/app/api/workspaces.py. The rendering of their answers is left out.
pub mod Visibility
pub mod Tests
use multi_tenant_file_delive.Prelude.{ℕ, String, Option, List, [], ◌∷◌, ◌++◌}
use multi_tenant_file_delive.Text.{Text}
use multi_tenant_file_delive.Store.Rows.{Workspace, str, num}
use multi_tenant_file_delive.Store.Session.{
  Action, http, runtime_error, ◌>>=◌, ◌>>◌, pure, or_raise, commit,
}
use multi_tenant_file_delive.Store.Workspaces as Repo
use multi_tenant_file_delive.Store.Events
use multi_tenant_file_delive.Auth.{CurrentActor, workspace_access_scope, to_event_payload}

unfoldable pub list_workspaces : CurrentActor → Action (List Workspace)
list_workspaces actor = Repo.list_workspaces actor.tenant_id (workspace_access_scope actor)

unfoldable pub list_workspace_objects :
    CurrentActor → String → Action (List Repo.WorkspaceObjectRecord)
list_workspace_objects actor workspace_id = do
  records ← Repo.list_objects workspace_id actor.tenant_id (workspace_access_scope actor)
  or_raise records (http 404)

unfoldable pub get_workspace_object : CurrentActor → String → Action Repo.WorkspaceObjectRecord
get_workspace_object actor object_id = do
  found ← Repo.get_object object_id actor.tenant_id (workspace_access_scope actor)
  or_raise found (http 404)

-- The third-party client makes a URL for a bucket, a key and a time to live, or fails.
abbrev pub Presign : Type 0
Presign = Text → Text → ℕ → Option String

abbrev pub url_payload : CurrentActor → Repo.WorkspaceObjectRecord → ℕ → Events.Payload
url_payload actor r expires_in =
    to_event_payload actor
    ++ ("workspace_id", str r.workspace.id)
      ∷ ("workspace_object_id", str r.workspace_object.id)
      ∷ ("physical_object_id", str r.physical_object.id)
      ∷ ("expires_in_seconds", num expires_in)
      ∷ []

unfoldable pub create_workspace_object_download_url :
    Presign → ℕ → CurrentActor → String → Action (String × ℕ)
create_workspace_object_download_url presign expires_in actor object_id = do
  found ← Repo.get_object object_id actor.tenant_id (workspace_access_scope actor)
  r ← or_raise found (http 404)
  url ←
      or_raise (presign r.physical_object.bucket r.physical_object.object_key expires_in)
        runtime_error
  Events.append r.workspace_object.task_id "workspace_object_download_url_issued"
      (url_payload actor r expires_in)
  commit
  pure (url, expires_in)
