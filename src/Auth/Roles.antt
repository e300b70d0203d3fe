-- ===== src/Auth/Roles.antt =====
-- What the rest of the program may rely on of a resolved actor.
use multi_tenant_file_delive.Prelude.{
  String, ◌≡◌, ◌⊎◌, inl, inr, true, false, Option, arith, ◌==◌, string_eq, Bool-cases,
  if◌then◌else◌,
}
use multi_tenant_file_delive.Store.Session.{ok}
use multi_tenant_file_delive.Auth.{
  is_valid_role, default_actor, parse_actor_from_headers, has_actor_headers, CurrentActor, Settings,
  header, resolve_current_actor,
}

-- The actor is the one that the three headers name, none of them blank, and these are allowed.
pub record IsFromHeaders (headers : String → Option String) (settings : Settings)
    (actor : CurrentActor) : Type 0 where
  pub allowed : settings.auth_allow_dev_headers ≡ true
  pub valid : is_valid_role actor.role ≡ true
  pub tenant : actor.tenant_id ≡ header headers settings.auth_actor_tenant_header
  pub has_tenant : (actor.tenant_id == "") ≡ false
  pub user : actor.user_id ≡ header headers settings.auth_actor_user_header
  pub has_user : (actor.user_id == "") ≡ false
  pub role : actor.role ≡ header headers settings.auth_actor_role_header
  pub has_role : (actor.role == "") ≡ false

-- The actor is the default one, which is enabled, and no header names a part of another.
pub record IsDefault (headers : String → Option String) (settings : Settings) (actor : CurrentActor)
    : Type 0 where
  pub enabled : settings.auth_default_actor_enabled ≡ true
  pub valid : is_valid_role actor.role ≡ true
  pub tenant : actor.tenant_id ≡ settings.auth_default_tenant_id
  pub user : actor.user_id ≡ settings.auth_default_user_id
  pub role : actor.role ≡ settings.auth_default_role
  pub no_tenant : (header headers settings.auth_actor_tenant_header == "") ≡ true
  pub no_user : (header headers settings.auth_actor_user_header == "") ≡ true
  pub no_role : (header headers settings.auth_actor_role_header == "") ≡ true

module _ (headers : String → Option String) (settings : Settings) (actor : CurrentActor) where
  parse_actor_from_headers-IsFromHeaders :
      parse_actor_from_headers headers settings ≡ ok actor → IsFromHeaders headers settings actor
  unfolding parse_actor_from_headers
  parse_actor_from_headers-IsFromHeaders h = ground arith

  default_actor-IsDefault :
      has_actor_headers headers settings ≡ false
      → default_actor settings ≡ ok actor
      → IsDefault headers settings actor
  unfolding default_actor has_actor_headers
  default_actor-IsDefault none_given h = ground arith

  -- An actor that is resolved is the one that the headers name, or the default one; the records say
  -- under which settings. In both cases its role is one of the four, and a request that names any
  -- part of an actor is never taken for the default one.
  pub resolve_current_actor-cases :
      resolve_current_actor headers settings ≡ ok actor
      → IsFromHeaders headers settings actor ⊎ IsDefault headers settings actor
  unfolding resolve_current_actor
  resolve_current_actor-cases h = elim (Bool-cases (has_actor_headers headers settings)) [
    | inl given ↦ inl (parse_actor_from_headers-IsFromHeaders (rw (given, if◌then◌else◌) at h))
    | inr none_given ↦
        inr (default_actor-IsDefault none_given (rw (none_given, if◌then◌else◌) at h))
  ]
