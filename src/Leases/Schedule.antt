-- ===== src/Leases/Schedule.antt =====
-- The calls of all clients of control-plane/app/services/redis_lease.py and idempotency_guard.py as
-- they arrive at Redis, one after the other, and the time between them.
use multi_tenant_file_delive.Prelude.{ℕ, ◌+◌, ◌<◌, ◌≢◌, List, [], ◌∷◌, text_eq}
use multi_tenant_file_delive.Text.{Text}
use multi_tenant_file_delive.Redis.{Redis}
use multi_tenant_file_delive.Leases.{
  Claim, Client, disabled_client, redis_client, acquire, refresh, release, acquire_guard,
  release_guard,
}

-- What a client of either kind sends, and time.
pub data Call : Type 0 where
  acquires : Client → Text → Text → Call
  refreshes releases : Client → Claim → Call
  acquires_guard : Client → Text → Text → Text → Call
  releases_guard : Client → Claim → Call
  elapses : ℕ → Call

-- The lifetime is positive, as Redis demands.
abbrev pub IsLive : Client → Type 0
IsLive disabled_client = Unit {0}
IsLive (redis_client ttl) = 0 < ttl

-- A call of a client that does not know the token.
abbrev pub IsForeign : Text → Call → Type 0
IsForeign token (acquires client resource other) = IsLive client × (other ≢ token)
IsForeign token (refreshes client claim) = IsLive client × (claim.token ≢ token)
IsForeign token (releases client claim) = IsLive client × (claim.token ≢ token)
IsForeign token (acquires_guard client operation identity other) = IsLive client × (other ≢ token)
IsForeign token (releases_guard client claim) = IsLive client × (claim.token ≢ token)
IsForeign token (elapses d) = Unit {0}

abbrev pub seconds : Call → ℕ
seconds (elapses d) = d
seconds (acquires client resource other) = 0
seconds (refreshes client claim) = 0
seconds (releases client claim) = 0
seconds (acquires_guard client operation identity other) = 0
seconds (releases_guard client claim) = 0

abbrev pub total_seconds : List Call → ℕ
total_seconds [] = 0
total_seconds (c ∷ cs) = seconds c + total_seconds cs

module _ (redis : Redis) where
  open redis use {Server, elapse}

  unfoldable pub step : Call → Server → Server
  step (acquires client resource token) s = (acquire redis client resource token s).1
  step (refreshes client claim) s = (refresh redis client claim s).1
  step (releases client claim) s = release redis client claim s
  step (acquires_guard client operation identity token) s =
      (acquire_guard redis client operation identity token s).1
  step (releases_guard client claim) s = release_guard redis client claim s
  step (elapses d) s = elapse d s

  unfoldable pub run : List Call → Server → Server
  unfolding step
  run [] s = s
  run (c ∷ cs) s = run cs (step c s)
