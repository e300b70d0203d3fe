-- ===== src/Leases.antt =====
-- Leases in Redis: control-plane/app/services/redis_lease.py, and its copy for the idempotency of
-- requests, idempotency_guard.py. The two Lua scripts are read as what Redis does when it runs them.
-- `uuid.uuid4().hex` is drawn outside and comes in as the token.
pub mod Keys
pub mod Schedule
pub mod Changes
pub mod Exclusion
pub mod Tests
use multi_tenant_file_delive.Prelude.{
  ℕ, Bool, true, false, not, ◌||◌, ◌&&◌, Option, none, some, List, [], ◌∷◌, ◌++◌, ◌==◌, nat_eq,
  text_eq, leb, if◌then◌else◌,
}
use multi_tenant_file_delive.Text.{Text, text, strip, take}
use multi_tenant_file_delive.Redis.{Redis, get}

-- The class of `_KEY_PART_RE` holds what these are not.
unfoldable pub is_key_char : ℕ → Bool
is_key_char c =
    (leb 65 c && leb c 90)
    || (leb 97 c && leb c 122)
    || (leb 48 c && leb c 57)
    || c == 95
    || c == 46
    || c == 58
    || c == 45

-- `_KEY_PART_RE.sub("_", s)`: one underscore for each run; `inside` says that the run has begun.
unfoldable pub sub_runs : Bool → Text → Text
unfolding is_key_char
sub_runs inside [] = []
sub_runs inside (c ∷ s) =
    let rest = sub_runs (not (is_key_char c)) s in
    if is_key_char c then c ∷ rest else if inside then rest else 95 ∷ rest

-- `s[:n] or "_"`
unfoldable pub cut_or_underscore : ℕ → Text → Text
cut_or_underscore n s = if take n s == [] then text "_" else take n s

unfoldable pub lease_key : Text → Text
unfolding cut_or_underscore sub_runs strip
lease_key resource = text "lease:v1:" ++ cut_or_underscore 160 (sub_runs false (strip resource))

unfoldable pub safe_key_part : Text → Text
unfolding cut_or_underscore sub_runs strip
safe_key_part value = cut_or_underscore 128 (sub_runs false (strip value))

unfoldable pub guard_key : Text → Text → Text
unfolding safe_key_part
guard_key operation identity =
    text "idempotency:v1:" ++ (safe_key_part operation ++ (b':' ∷ safe_key_part identity))

-- `LeaseClaim`, and `IdempotencyClaim` with the same fields.
pub record Claim : Type 0 where
  pub key : Text
  pub token : Text
  pub acquired : Bool

-- The two classes of the protocol `LeaseClient`, and so of `IdempotencyGuard`.
pub data Client : Type 0 where
  disabled_client : Client
  redis_client : ℕ → Client

-- The settings that the constructors read.
pub record Settings : Type 0 where
  pub redis_lease_enabled : Bool
  pub redis_lease_ttl_seconds : ℕ
  pub redis_idempotency_enabled : Bool
  pub redis_idempotency_ttl_seconds : ℕ

unfoldable pub create_redis_lease : Settings → Client
create_redis_lease settings =
    if settings.redis_lease_enabled
    then redis_client settings.redis_lease_ttl_seconds
    else disabled_client

unfoldable pub create_idempotency_guard : Settings → Client
create_idempotency_guard settings =
    if settings.redis_idempotency_enabled
    then redis_client settings.redis_idempotency_ttl_seconds
    else disabled_client

abbrev granted_to_all : Text → Claim
granted_to_all key = record { key = key; token = text "disabled"; acquired = true }

abbrev pub is_token : Text → Option Text → Bool
is_token token none = false
is_token token (some value) = value == token

module _ (redis : Redis) where
  open redis use {Server, set_nx_ex, del, expire}

  -- `redis.call("GET", KEYS[1]) == ARGV[1]`
  abbrev pub owns : Text → Text → Server → Bool
  owns key token s = is_token token (get redis key s)

  unfoldable pub release_script : Text → Text → Server → Server
  release_script key token s = if owns key token s then del key s else s

  unfoldable pub refresh_script : Text → Text → ℕ → Server → Bool × Server
  refresh_script key token ttl s = if owns key token s then expire key ttl s else (false, s)

  abbrev set_claim : Text → Text → ℕ → Server → Claim × Server
  set_claim key token ttl s =
      let (acquired, s') = set_nx_ex key token ttl s in
      (record { key = key; token = token; acquired = acquired }, s')

  unfoldable pub acquire : Client → Text → Text → Server → Claim × Server
  unfolding lease_key
  acquire disabled_client resource token s = (granted_to_all (lease_key resource), s)
  acquire (redis_client ttl) resource token s = set_claim (lease_key resource) token ttl s

  unfoldable pub refresh : Client → Claim → Server → Bool × Server
  unfolding refresh_script
  refresh disabled_client claim s = (claim.acquired, s)
  refresh (redis_client ttl) claim s =
      if claim.acquired then refresh_script claim.key claim.token ttl s else (false, s)

  unfoldable pub release : Client → Claim → Server → Server
  unfolding release_script
  release disabled_client claim s = s
  release (redis_client ttl) claim s =
      if claim.acquired then release_script claim.key claim.token s else s

  -- The guard of a request: the same commands under its own keys, and no refresh.
  unfoldable pub acquire_guard : Client → Text → Text → Text → Server → Claim × Server
  unfolding guard_key
  acquire_guard disabled_client operation identity token s =
      (granted_to_all (guard_key operation identity), s)
  acquire_guard (redis_client ttl) operation identity token s =
      set_claim (guard_key operation identity) token ttl s

  unfoldable pub release_guard : Client → Claim → Server → Server
  unfolding release_script
  release_guard disabled_client claim s = s
  release_guard (redis_client ttl) claim s =
      if claim.acquired then release_script claim.key claim.token s else s
