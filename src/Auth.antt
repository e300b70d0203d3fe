-- ===== src/Auth.antt =====
-- control-plane/app/services/auth.py. The headers are a function from a header's name, as the
-- framework's mapping is; a missing header is `none`.
pub mod Roles
pub mod Tests
use Prim.Native.Char.{code}
use multi_tenant_file_delive.Prelude.{
  String, Bool, true, false, not, ◌&&◌, ◌||◌, Option, none, some, List, [], ◌∷◌, ◌==◌, string_eq,
  contains, if◌then◌else◌,
}
use multi_tenant_file_delive.Text.{is_space}
use multi_tenant_file_delive.Store.Session.{Result, ok, err, http, Action}
use multi_tenant_file_delive.Store.Workspaces.{AccessScope, owner, target}
use multi_tenant_file_delive.Store.Rows.{Value, str}
use multi_tenant_file_delive.Store.Events.{Payload}

abbrev pub valid_roles : List String
valid_roles = "hq_admin" ∷ "hq_uploader" ∷ "subsidiary_admin" ∷ "subsidiary_viewer" ∷ []

abbrev pub task_writer_roles : List String
task_writer_roles = "hq_admin" ∷ "hq_uploader" ∷ []

abbrev pub hq_roles : List String
hq_roles = "hq_admin" ∷ "hq_uploader" ∷ []

pub record CurrentActor : Type 0 where
  pub tenant_id : String
  pub user_id : String
  pub role : String

unfoldable pub is_hq : CurrentActor → Bool
is_hq actor = contains actor.role hq_roles

unfoldable pub workspace_access_scope : CurrentActor → AccessScope
workspace_access_scope actor = if is_hq actor then owner else target

unfoldable pub can_write_tasks : CurrentActor → Bool
can_write_tasks actor = contains actor.role task_writer_roles

unfoldable pub require_role : CurrentActor → List String → Result CurrentActor
require_role actor allowed = if contains actor.role allowed then ok actor else err (http 403)

-- As a step of a handler.
unfoldable pub require_task_writer : CurrentActor → Action CurrentActor
unfolding require_role
require_task_writer actor s = (require_role actor task_writer_roles, s)

abbrev pub to_event_payload : CurrentActor → Payload
to_event_payload actor =
    ("actor_tenant_id", str actor.tenant_id)
    ∷ ("actor_user_id", str actor.user_id)
    ∷ ("actor_role", str actor.role)
    ∷ []

-- `role in VALID_ROLES`
unfoldable pub is_valid_role : String → Bool
is_valid_role role = contains role valid_roles

-- The settings of control-plane/app/core/settings.py that the module reads.
pub record Settings : Type 0 where
  pub auth_allow_dev_headers : Bool
  pub auth_default_actor_enabled : Bool
  pub auth_default_tenant_id : String
  pub auth_default_user_id : String
  pub auth_default_role : String
  pub auth_actor_tenant_header : String
  pub auth_actor_user_header : String
  pub auth_actor_role_header : String

lstrip_str : String → String
lstrip_str String.[] = String.[]
lstrip_str (String.◌∷◌ c s) = if is_space (code c) then lstrip_str s else String.◌∷◌ c s

rstrip_str : String → String
rstrip_str String.[] = String.[]
rstrip_str (String.◌∷◌ c s) =
    let rest = rstrip_str s in
    if rest == "" && is_space (code c) then String.[] else String.◌∷◌ c rest

-- `headers.get(name, "").strip()`
unfoldable pub header : (String → Option String) → String → String
unfolding lstrip_str rstrip_str is_space
header headers name = elim (headers name) [ none ↦ "" | some v ↦ rstrip_str (lstrip_str v) ]

unfoldable pub parse_actor_from_headers : (String → Option String) → Settings → Result CurrentActor
parse_actor_from_headers headers settings =
    let tenant_id = header headers settings.auth_actor_tenant_header in
    let user_id = header headers settings.auth_actor_user_header in
    let role = header headers settings.auth_actor_role_header in
    if not settings.auth_allow_dev_headers
    then err (http 401)
    else if tenant_id == "" || (user_id == "" || role == "")
    then err (http 401)
    else if not (is_valid_role role)
    then err (http 403)
    else ok (record { tenant_id = tenant_id; user_id = user_id; role = role })

unfoldable pub has_actor_headers : (String → Option String) → Settings → Bool
has_actor_headers headers settings =
    not (header headers settings.auth_actor_tenant_header == "")
    || (not (header headers settings.auth_actor_user_header == "")
        || not (header headers settings.auth_actor_role_header == ""))

unfoldable pub default_actor : Settings → Result CurrentActor
default_actor settings =
    if not settings.auth_default_actor_enabled
    then err (http 401)
    else if not (is_valid_role settings.auth_default_role)
    then err (http 403)
    else ok (record {
      tenant_id = settings.auth_default_tenant_id;
      user_id = settings.auth_default_user_id;
      role = settings.auth_default_role;
    })

unfoldable pub resolve_current_actor : (String → Option String) → Settings → Result CurrentActor
resolve_current_actor headers settings =
    if has_actor_headers headers settings
    then parse_actor_from_headers headers settings
    else default_actor settings
