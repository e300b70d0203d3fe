-- ===== src/Redis.antt =====
-- The Redis server as its documentation describes it, for the commands that
-- control-plane/app/services/redis_lease.py and idempotency_guard.py send. The server is not part of
-- the repository: it is a record of commands with their laws, and a parameter of what uses it.
pub mod Memory
use multi_tenant_file_delive.Prelude.{
  ℕ, ◌<◌, ◌-◌, ◌≡◌, Bool, true, false, Option, none, some, ◌==◌, text_eq, if◌then◌else◌, ltb,
}
use multi_tenant_file_delive.Text.{Text}

-- A value, and the seconds until it expires.
pub record Entry : Type 0 where
  pub value : Text
  pub left : ℕ

abbrev pub is_some : {A : Type 0} → Option A → Bool
is_some none = false
is_some (some a) = true

-- What is there stays.
abbrev pub or_new : Option Entry → Entry → Option Entry
or_new none fresh = some fresh
or_new (some e) fresh = some e

abbrev pub extended : ℕ → Option Entry → Option Entry
extended ttl none = none
extended ttl (some e) = some (record e { left = ttl })

-- An entry is gone when its seconds are over.
abbrev pub aged : ℕ → Option Entry → Option Entry
aged d none = none
aged d (some e) = if ltb d e.left then some (record e { left = e.left - d }) else none

-- `SET key value NX EX ttl`, `DEL key`, `EXPIRE key ttl` with their answers, and the passing of time.
-- An entry is what `GET` and `TTL` show of a key.
pub record Redis : Type 1 where
  pub Server : Type 0
  pub entry : Text → Server → Option Entry
  pub set_nx_ex : Text → Text → ℕ → Server → Bool × Server
  pub del : Text → Server → Server
  pub expire : Text → ℕ → Server → Bool × Server
  pub elapse : ℕ → Server → Server
  -- `NX`: an entry that is there is kept, and the answer says so.
  pub set-answer :
      (k v : Text) (ttl : ℕ) (s : Server)
      → 0 < ttl
      → (set_nx_ex k v ttl s).0 ≡ (if is_some (entry k s) then false else true)
  pub set-entry :
      (k v : Text) (ttl : ℕ) (s : Server) (j : Text)
      → 0 < ttl
      → entry j (set_nx_ex k v ttl s).1
        ≡ (if j == k then or_new (entry k s) (record { value = v; left = ttl }) else entry j s)
  pub del-entry :
      (k : Text) (s : Server) (j : Text) → entry j (del k s) ≡ (if j == k then none else entry j s)
  pub expire-answer :
      (k : Text) (ttl : ℕ) (s : Server) → 0 < ttl → (expire k ttl s).0 ≡ is_some (entry k s)
  pub expire-entry :
      (k : Text) (ttl : ℕ) (s : Server) (j : Text)
      → 0 < ttl
      → entry j (expire k ttl s).1 ≡ (if j == k then extended ttl (entry k s) else entry j s)
  pub elapse-entry : (d : ℕ) (s : Server) (j : Text) → entry j (elapse d s) ≡ aged d (entry j s)

abbrev pub value_of : Option Entry → Option Text
value_of none = none
value_of (some e) = some e.value

-- `GET key`
abbrev pub get : (redis : Redis) → Text → redis.Server → Option Text
get redis k s = value_of (redis.entry k s)

-- Two servers that answer alike.
abbrev pub SameEntries : (redis : Redis) → redis.Server → redis.Server → Type 0
SameEntries redis s t = (j : Text) → redis.entry j t ≡ redis.entry j s
