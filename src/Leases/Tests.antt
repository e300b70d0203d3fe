-- ===== src/Leases/Tests.antt =====
-- Runs of control-plane/app/services/redis_lease.py and idempotency_guard.py on a server in memory.
use multi_tenant_file_delive.Prelude.{
  ◌≡◌, ◌≢◌, ◌↔◌, refl, true, false, some, List, [], ◌∷◌, arith, All,
}
use multi_tenant_file_delive.Text.{Text, text}
use multi_tenant_file_delive.Redis.{SameEntries, get}
use multi_tenant_file_delive.Redis.Memory.{memory, vacant}
use multi_tenant_file_delive.Leases.{
  redis_client, lease_key, guard_key, acquire, refresh, release, is_key_char,
}
use multi_tenant_file_delive.Leases.Keys.{IsSafe, lease_key-separates}
use multi_tenant_file_delive.Leases.Schedule.{
  Call, acquires, elapses, acquires_guard, IsForeign, run,
}
use multi_tenant_file_delive.Leases.Exclusion.{own, after, lease-IsExclusive, lease-IsLapsed}
use multi_tenant_file_delive.Prelude.{text_beq}

abbrev resource : Text
resource = text "delivery_result_apply:t1"

abbrev mine : Text
mine = text "aa11"

abbrev theirs : Text
theirs = text "bb22"

-- Another worker tries for the lease, half a minute goes by, and it tries again.
abbrev rivals : List Call
rivals =
    acquires (redis_client 30) resource theirs
    ∷ elapses 12
    ∷ acquires_guard (redis_client 60) (text "create_task") (text "acme:k1") theirs
    ∷ []

abbrev late_rivals : List Call
late_rivals = elapses 45 ∷ acquires (redis_client 30) resource theirs ∷ []

rivals-IsForeign : All (IsForeign mine) rivals
rivals-IsForeign = ((omega arith, ground arith), (tt, ((omega arith, ground arith), tt)))

late_rivals-IsForeign : All (IsForeign mine) late_rivals
late_rivals-IsForeign = (tt, ((omega arith, ground arith), tt))

first_is_granted : (own memory 30 resource mine vacant).acquired ≡ true
unfolding acquire
first_is_granted = refl

lease-IsExclusive_example :
    ((acquire memory
        (redis_client 30)
        resource
        theirs
        (after memory 30 resource mine vacant rivals)).0.acquired
      ≡ false)
    × SameEntries memory
        (after memory 30 resource mine vacant rivals)
        (acquire memory
          (redis_client 30)
          resource
          theirs
          (after memory 30 resource mine vacant rivals)).1
    × ((refresh memory
          (redis_client 30)
          (own memory 30 resource mine vacant)
          (after memory 30 resource mine vacant rivals)).0
        ≡ true)
lease-IsExclusive_example =
    lease-IsExclusive memory 30 resource mine vacant rivals (omega arith) first_is_granted
      rivals-IsForeign (omega arith) theirs 30 (omega arith)

lease-IsLapsed_example :
    (refresh memory
        (redis_client 30)
        (own memory 30 resource mine vacant)
        (after memory 30 resource mine vacant late_rivals)
      ≡ (false, after memory 30 resource mine vacant late_rivals))
    × (release memory
          (redis_client 30)
          (own memory 30 resource mine vacant)
          (after memory 30 resource mine vacant late_rivals)
        ≡ after memory 30 resource mine vacant late_rivals)
lease-IsLapsed_example =
    lease-IsLapsed memory 30 resource mine vacant late_rivals (omega arith) first_is_granted
      late_rivals-IsForeign (omega arith)

abbrev other_resource : Text
other_resource = text "delivery_result_apply:t2"

resource-IsSafe : IsSafe resource
unfolding is_key_char
resource-IsSafe = refl

other_resource-IsSafe : IsSafe other_resource
unfolding is_key_char
other_resource-IsSafe = refl

lease_key-separates_example :
    ((lease_key resource ≡ lease_key other_resource) ↔ (resource ≡ other_resource))
    × (guard_key (text "create_task") (text "acme:k1") ≢ lease_key resource)
lease_key-separates_example =
    lease_key-separates resource other_resource (text "create_task") (text "acme:k1")
      resource-IsSafe other_resource-IsSafe (ground arith) (ground arith) (omega arith)
      (omega arith)

-- The keys as Redis sees them.
written_keys :
    (lease_key (text "  report 2024/é ") ≡ text "lease:v1:report_2024_")
    × (lease_key (text "  ") ≡ text "lease:v1:_")
    × (guard_key (text "create_task") (text "acme:k 1")
        ≡ text "idempotency:v1:create_task:acme:k_1")
unfolding lease_key guard_key text_beq
written_keys = (refl, refl, refl)

-- After a release the next worker gets the lease; a stale claim releases nothing.
handed_over :
    (get memory (lease_key resource) (
        release memory
          (redis_client 30)
          (own memory 30 resource mine vacant)
          (after memory 30 resource mine vacant late_rivals))
      ≡ some theirs)
    × ((acquire memory (redis_client 30) resource theirs (
          release memory
            (redis_client 30)
            (own memory 30 resource mine vacant)
            (after memory 30 resource mine vacant []))).0.acquired
        ≡ true)
unfolding acquire release run text_beq
handed_over = (refl, refl)
