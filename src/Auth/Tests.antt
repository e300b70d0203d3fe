-- ===== src/Auth/Tests.antt =====
-- The resolution of an actor at a request with headers and the default settings.
use multi_tenant_file_delive.Prelude.{
  String, ◌≡◌, refl, ◌⊎◌, true, Option, none, some, ◌==◌, string_eq, if◌then◌else◌,
}
use multi_tenant_file_delive.Store.Session.{ok, err, http}
use multi_tenant_file_delive.Auth.{
  CurrentActor, Settings, resolve_current_actor, parse_actor_from_headers, has_actor_headers,
  header, is_valid_role,
}
use multi_tenant_file_delive.Auth.Roles.{IsFromHeaders, IsDefault, resolve_current_actor-cases}

abbrev settings : Settings
settings = record {
  auth_allow_dev_headers = true;
  auth_default_actor_enabled = true;
  auth_default_tenant_id = "hq";
  auth_default_user_id = "local-user";
  auth_default_role = "hq_uploader";
  auth_actor_tenant_header = "X-Actor-Tenant";
  auth_actor_user_header = "X-Actor-User";
  auth_actor_role_header = "X-Actor-Role";
}

abbrev headers : String → Option String
headers name =
    if name == "X-Actor-Tenant"
    then some "tenant_a"
    else if name == "X-Actor-User"
    then some "user_a"
    else if name == "X-Actor-Role"
    then some " subsidiary_viewer "
    else none

abbrev viewer : CurrentActor
viewer = record { tenant_id = "tenant_a"; user_id = "user_a"; role = "subsidiary_viewer" }

resolved : resolve_current_actor headers settings ≡ ok viewer
unfolding resolve_current_actor parse_actor_from_headers has_actor_headers header is_valid_role
resolved = refl

-- One header alone is refused, although the default actor is enabled.
half_named :
    resolve_current_actor
      (λ name. if name == "X-Actor-Role" then some "hq_admin" else none)
      settings
    ≡ err (http 401)
unfolding resolve_current_actor parse_actor_from_headers has_actor_headers header is_valid_role
half_named = refl

resolve_current_actor-cases_example :
    IsFromHeaders headers settings viewer ⊎ IsDefault headers settings viewer
resolve_current_actor-cases_example = resolve_current_actor-cases headers settings viewer resolved
