-- ===== src/Api/Workspaces/Visibility.antt =====
-- Who sees which workspace and which object: control-plane/app/api/workspaces.py.
use multi_tenant_file_delive.Prelude.{
  ℕ, String, ◌≡◌, refl, sym, ◌∙◌, ap, Bool, true, false, ◌&&◌, Option, none, some, List, [], ◌∷◌,
  arith, ◌==◌, string_eq, any, any-cong, find, find-passes, keep, count_p, contains,
  count_p-sort_by, count_p-keep, count_p-cong, Bool-cases, inl, inr, if◌then◌else◌,
}
use multi_tenant_file_delive.Store.Rows.{Workspace, Database}
use multi_tenant_file_delive.Store.Session.{
  Session, Action, Result, ok, err, ◌>>=◌, or_raise, serve, http,
}
use multi_tenant_file_delive.Store.Ensures.{
  Ensures, opened, ensures-pure, ensures-or_raise, ensures-or_raise_last, ensures-reads_last,
  ensures-commit, ensures-reads, Served, serve-Served,
}
use multi_tenant_file_delive.Store.Steps.{event_of, add_event, ensures-append}
use multi_tenant_file_delive.Store.Workspaces as Repo
use multi_tenant_file_delive.Auth.{CurrentActor, hq_roles, is_hq, workspace_access_scope}
use multi_tenant_file_delive.Api.Workspaces.{
  list_workspaces, list_workspace_objects, get_workspace_object, Presign, url_payload,
  create_workspace_object_download_url,
}

-- The two roles of the headquarters see the workspaces that their tenant owns; everybody else sees
-- those that are meant for their tenant.
abbrev pub sees : CurrentActor → Workspace → Bool
sees actor w =
    if contains actor.role hq_roles
    then w.owner_tenant_id == actor.tenant_id
    else w.target_tenant_id == actor.tenant_id

in_scope-sees :
    (actor : CurrentActor) (w : Workspace)
    → Repo.in_scope (workspace_access_scope actor) actor.tenant_id w ≡ sees actor w
unfolding workspace_access_scope is_hq
in_scope-sees actor w = elim (Bool-cases (contains actor.role hq_roles)) [
  | inl hq ↦ rw (hq, if◌then◌else◌) refl
  | inr other ↦ rw (other, if◌then◌else◌) refl
]

-- The list of workspaces has, for every test, as many that pass it as the table has among those
-- that the actor sees: it is the visible ones, each as often as it stands there.
pub list_workspaces-sees :
    (actor : CurrentActor) (s : Session) (p : Workspace → Bool)
    → Ensures
        (list_workspaces actor)
        s
        (λ ws t. (count_p p ws ≡ count_p (λ w. sees actor w && p w) s.db.workspaces) × (t ≡ s))
unfolding list_workspaces Repo.list_workspaces
list_workspaces-sees actor s p = ensures-reads_last _ (
  count_p-sort_by _ p
        (keep (Repo.in_scope (workspace_access_scope actor) actor.tenant_id) s.db.workspaces)
      ∙ count_p-keep p (Repo.in_scope (workspace_access_scope actor) actor.tenant_id)
          s.db.workspaces
      ∙ count_p-cong s.db.workspaces (λ w. ap (λ b. b && p w) (in_scope-sees actor w)),
  refl,
)

-- A record of the database, of an object with this id, in a workspace that the actor sees.
pub record IsVisible (actor : CurrentActor) (object_id : String) (db : Database)
    (r : Repo.WorkspaceObjectRecord) : Type 0 where
  pub first :
      find
        (λ r.
          r.workspace_object.id == object_id
          && Repo.in_scope (workspace_access_scope actor) actor.tenant_id r.workspace)
        (Repo.records db)
      ≡ some r
  pub object : (r.workspace_object.id == object_id) ≡ true
  pub visible : sees actor r.workspace ≡ true

module _ (actor : CurrentActor) (object_id : String) (db : Database) where
  found-IsVisible :
      (r : Repo.WorkspaceObjectRecord)
      → find
          (λ r.
            r.workspace_object.id == object_id
            && Repo.in_scope (workspace_access_scope actor) actor.tenant_id r.workspace)
          (Repo.records db)
        ≡ some r
      → IsVisible actor object_id db r
  found-IsVisible r h =
      let passes =
        find-passes
          (λ r.
            r.workspace_object.id == object_id
            && Repo.in_scope (workspace_access_scope actor) actor.tenant_id r.workspace)
          (Repo.records db) r h in
      record {
        first = h;
        object = ground arith;
        visible = sym (in_scope-sees actor r.workspace) ∙ ground arith;
      }

module _ {B : Type 0} {s : Session} {Q : B → Session → Type 0} where
  ensures-get_object :
      (actor : CurrentActor) (object_id : String) (f : Option Repo.WorkspaceObjectRecord → Action B)
      → Ensures
          (f (
            find
              (λ r.
                r.workspace_object.id == object_id
                && Repo.in_scope (workspace_access_scope actor) actor.tenant_id r.workspace)
              (Repo.records s.db)))
          s
          Q
      → Ensures (Repo.get_object object_id actor.tenant_id (workspace_access_scope actor) >>= f) s Q
  unfolding Repo.get_object
  ensures-get_object actor object_id f h = ensures-reads f _ h

-- A request for an object that is answered is answered with the first record of this id in a
-- workspace that the actor sees. Nothing changes.
pub get_workspace_object-IsVisible :
    (actor : CurrentActor) (object_id : String) (s : Session)
    → Ensures
        (get_workspace_object actor object_id)
        s
        (λ r t. IsVisible actor object_id s.db r × (t ≡ s))
unfolding get_workspace_object
get_workspace_object-IsVisible actor object_id s =
    ensures-get_object actor object_id _
      (ensures-or_raise_last _ _ λ r h. (found-IsVisible actor object_id s.db r h, refl))

-- What a request for a download URL found, and what it left.
pub record IsIssued (presign : Presign) (expires_in : ℕ) (actor : CurrentActor) (object_id : String)
    (start : Session) (url : String × ℕ) (db' : Database) (r : Repo.WorkspaceObjectRecord)
    : Type 0 where
  pub visible : IsVisible actor object_id start.db r
  pub signed : presign r.physical_object.bucket r.physical_object.object_key expires_in ≡ some url.0
  pub life : url.1 ≡ expires_in
  pub after :
      db'
      ≡ add_event
          (event_of start r.workspace_object.task_id "workspace_object_download_url_issued"
            (url_payload actor r expires_in))
          start.db

-- A request for a download URL that succeeds gives the URL that the client made for the bytes of
-- an object which the actor sees, with the configured time to live. It commits one event of the
-- object's task and changes nothing else.
pub create_workspace_object_download_url-IsIssued :
    (presign : Presign) (expires_in : ℕ) (actor : CurrentActor) (object_id : String)
    (ids : ℕ → String) (now : ℕ) (db : Database)
    → Served
        (serve ids now (create_workspace_object_download_url presign expires_in actor object_id) db)
        (λ url db'.
          (r : Repo.WorkspaceObjectRecord) × IsIssued presign expires_in actor object_id
            (opened ids now db)
            url
            db'
            r)
unfolding create_workspace_object_download_url
create_workspace_object_download_url-IsIssued presign expires_in actor object_id ids now db =
    serve-Served _ ids now (create_workspace_object_download_url presign expires_in actor object_id)
      db
      (ensures-get_object actor object_id _ (
        ensures-or_raise _ _ _ λ r h. ensures-or_raise _ _ _ λ url signed. ensures-append _ _ _ _ (
          ensures-commit _ (
            ensures-pure _ (
              r,
              record {
                visible = found-IsVisible actor object_id db r h;
                signed = signed;
                life = refl;
                after = refl;
              },
            )))))

any-find : {A : Type 0} (p : A → Bool) (xs : List A) (x : A) → find p xs ≡ some x → any p xs ≡ true
any-find p [] x h = absurd (ground arith)
any-find p (y ∷ xs) x h = ground (arith, any-find p xs x)

any-none : {A : Type 0} (p : A → Bool) (xs : List A) → find p xs ≡ none → any p xs ≡ false
any-none p [] h = refl
any-none p (y ∷ xs) h = ground (arith, any-none p xs)

-- The objects of one workspace, and no others, each as often as it stands in the tables.
abbrev pub HasObjects : String → Database → List Repo.WorkspaceObjectRecord → Type 0
HasObjects workspace_id db rs =
    (p : Repo.WorkspaceObjectRecord → Bool)
    → count_p p rs
      ≡ count_p (λ r. r.workspace_object.workspace_id == workspace_id && p r) (Repo.records db)

module _ (actor : CurrentActor) (workspace_id : String) where
  abbrev pub opens : Workspace → Bool
  opens w = w.id == workspace_id && Repo.in_scope (workspace_access_scope actor) actor.tenant_id w

  -- The two ways in which the objects of a workspace are answered.
  pub data Listing (s : Session) (out : Result (List Repo.WorkspaceObjectRecord) × Session)
      : Type 0 where
    listed :
        any (λ w. w.id == workspace_id && sees actor w) s.db.workspaces ≡ true
        → (rs : List Repo.WorkspaceObjectRecord) → out ≡ (ok rs, s)
        → HasObjects workspace_id s.db rs
        → Listing s out
    not_found :
        any (λ w. w.id == workspace_id && sees actor w) s.db.workspaces ≡ false
        → out ≡ (err (http 404), s)
        → Listing s out

  any-opens :
      (ws : List Workspace) → any opens ws ≡ any (λ w. w.id == workspace_id && sees actor w) ws
  any-opens ws = any-cong ws (λ w. ap (λ b. w.id == workspace_id && b) (in_scope-sees actor w))

  objects_of-Listing :
      (found : Option Workspace) (s : Session)
      → find opens s.db.workspaces ≡ found
      → Listing s ((Repo.objects_of workspace_id found >>= λ rs. or_raise rs (http 404)) s)
  unfolding Repo.objects_of or_raise ◌>>=◌
  objects_of-Listing none s h =
      not_found (sym (any-opens s.db.workspaces) ∙ any-none opens s.db.workspaces h) refl
  objects_of-Listing (some w) s h =
      listed (sym (any-opens s.db.workspaces) ∙ any-find opens s.db.workspaces w h) _ refl
        (λ p. count_p-sort_by _ p _ ∙ count_p-keep p _ (Repo.records s.db))

  -- If there is a workspace with this id that the actor sees, its objects are listed, all of them
  -- and no others, each as often as it stands in the tables; otherwise the request ends in a 404.
  -- Nothing changes in either case.
  pub list_workspace_objects-HasObjects :
      (s : Session) → Listing s (list_workspace_objects actor workspace_id s)
  unfolding list_workspace_objects Repo.list_objects Repo.get_workspace ◌>>=◌
  list_workspace_objects-HasObjects s = objects_of-Listing (find opens s.db.workspaces) s refl
