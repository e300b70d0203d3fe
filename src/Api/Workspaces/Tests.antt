-- ===== src/Api/Workspaces/Tests.antt =====
-- The handlers of workspaces at a database with one workspace and one object.
use multi_tenant_file_delive.Prelude.{◌≡◌, refl, ◌&&◌, some, [], ◌∷◌, ◌==◌, string_eq, count_p}
use multi_tenant_file_delive.Text.{text}
use multi_tenant_file_delive.Store.Rows.{PhysicalObject, WorkspaceObject, Database}
use multi_tenant_file_delive.Store.Session.{Session, ok, err, http, serve, ◌>>=◌}
use multi_tenant_file_delive.Store.Ensures.{Ensures, opened, Served}
use multi_tenant_file_delive.Store.Workspaces as Repo
use multi_tenant_file_delive.Store.Events
use multi_tenant_file_delive.Auth.{CurrentActor, workspace_access_scope, is_hq}
use multi_tenant_file_delive.Api.Workspaces.{
  Presign, list_workspaces, list_workspace_objects, get_workspace_object,
  create_workspace_object_download_url,
}
use multi_tenant_file_delive.Api.Workspaces.Visibility.{
  sees, list_workspaces-sees, IsVisible, get_workspace_object-IsVisible, IsIssued,
  create_workspace_object_download_url-IsIssued, Listing, list_workspace_objects-HasObjects,
}
use multi_tenant_file_delive.Api.Tasks.Samples.{id_of, database as base, uploader}

abbrev bytes : PhysicalObject
bytes = record {
  id = "p";
  owner_tenant_id = "hq";
  sink_type = "s3";
  bucket = text "b";
  object_key = text "k";
  size_bytes = 4;
  sha256 = "";
  created_at = 1;
}

abbrev object : WorkspaceObject
object = record {
  id = "o";
  workspace_id = "w";
  physical_object_id = "p";
  task_id = "f";
  task_item_id = "j";
  display_name = text "b";
  dst_path = text "finance/report";
  uploaded_by_user_id = "user";
  uploaded_at = 1;
}

abbrev database : Database
database = record base { physical_objects = bytes ∷ []; workspace_objects = object ∷ [] }

abbrev acme_viewer : CurrentActor
acme_viewer = record { tenant_id = "acme"; user_id = "v"; role = "subsidiary_viewer" }

abbrev stranger : CurrentActor
stranger = record { tenant_id = "globex"; user_id = "v"; role = "subsidiary_admin" }

abbrev presign : Presign
presign bucket key life = some "https://sink/b/k"

abbrev start : Session
start = opened id_of 7 database

issued_run :
    ((serve id_of 7 (create_workspace_object_download_url presign 60 acme_viewer "o") database).0
      ≡ ok ("https://sink/b/k", 60))
    × ((serve id_of 7 (create_workspace_object_download_url presign 60 uploader "o") database).0
        ≡ ok ("https://sink/b/k", 60))
    × ((serve id_of 7 (create_workspace_object_download_url presign 60 stranger "o") database).0
        ≡ err (http 404))
unfolding serve create_workspace_object_download_url workspace_access_scope is_hq Repo.get_object
    Repo.join Events.append ◌>>=◌
issued_run = (refl, refl, refl)

list_workspaces-sees_example : Ensures (list_workspaces acme_viewer) start (λ ws t.
    (count_p (λ w. w.id == "w") ws
      ≡ count_p (λ w. sees acme_viewer w && (w.id == "w")) database.workspaces)
    × (t ≡ start))
list_workspaces-sees_example = list_workspaces-sees acme_viewer start (λ w. w.id == "w")

get_workspace_object-IsVisible_example :
    Ensures
      (get_workspace_object acme_viewer "o")
      start
      (λ r t. IsVisible acme_viewer "o" database r × (t ≡ start))
get_workspace_object-IsVisible_example = get_workspace_object-IsVisible acme_viewer "o" start

list_workspace_objects-HasObjects_example :
    Listing acme_viewer "w" start (list_workspace_objects acme_viewer "w" start)
list_workspace_objects-HasObjects_example = list_workspace_objects-HasObjects acme_viewer "w" start

create_workspace_object_download_url-IsIssued_example :
    Served
      (serve id_of 7 (create_workspace_object_download_url presign 60 acme_viewer "o") database)
      (λ url db'.
        (r : Repo.WorkspaceObjectRecord) × IsIssued presign 60 acme_viewer "o"
          (opened id_of 7 database)
          url
          db'
          r)
create_workspace_object_download_url-IsIssued_example =
    create_workspace_object_download_url-IsIssued presign 60 acme_viewer "o" id_of 7 database
