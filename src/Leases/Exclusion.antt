-- ===== src/Leases/Exclusion.antt =====
-- Who holds a lease while the other clients of control-plane/app/services/redis_lease.py and
-- idempotency_guard.py call Redis in any order.
use multi_tenant_file_delive.Prelude.{
  ℕ, ◌+◌, ◌-◌, ◌<◌, ◌≤◌, ◌≡◌, ◌≢◌, refl, ◌∙◌, ◌⊎◌, inl, inr, true, false, Option, none, some, List,
  [], ◌∷◌, arith, text_eq, ltb, Bool-cases, All,
}
use native.Mathlib.Nat.{zero-add}
use multi_tenant_file_delive.Text.{Text}
use multi_tenant_file_delive.Redis.{Redis, Entry, aged, value_of, SameEntries}
use multi_tenant_file_delive.Leases.{
  Claim, redis_client, lease_key, release_script, refresh_script, acquire, refresh, release,
}
use multi_tenant_file_delive.Leases.Schedule.{Call, IsForeign, seconds, total_seconds, step, run}
use multi_tenant_file_delive.Leases.Changes.{
  Change, untouched, taken, dropped, prolonged, step-Change, set_granted, set_refused,
  refresh_script_own, not_owned,
}

-- `e` seconds after the lease was taken: it stands with what is left, or it is over.
abbrev Standing : Text → ℕ → ℕ → Option Entry → Type 0
Standing token ttl e o =
    ((e < ttl) × (o ≡ some (record { value = token; left = ttl - e })))
    ⊎ ((ttl ≤ e) × (value_of o ≢ some token))

Change-Standing :
    (token : Text) (ttl e : ℕ) (a b : Option Entry)
    → Change token a b
    → Standing token ttl e a
    → Standing token ttl e b
Change-Standing token ttl e a b (untouched same) st = rw same st
Change-Standing token ttl e a b (taken x foreign was is) (inl st) = absurd (ground arith)
Change-Standing token ttl e a b (taken x foreign was is) (inr st) =
    inr (st.0, λ h. foreign (ground arith))
Change-Standing token ttl e a b (dropped x foreign was is) (inl st) =
    absurd (foreign (ground arith))
Change-Standing token ttl e a b (dropped x foreign was is) (inr st) = inr (st.0, λ h. ground arith)
Change-Standing token ttl e a b (prolonged x n foreign was is) (inl st) =
    absurd (foreign (ground arith))
Change-Standing token ttl e a b (prolonged x n foreign was is) (inr st) =
    inr (st.0, λ h. foreign (ground arith))

aged-Standing :
    (token : Text) (ttl e d : ℕ) (o : Option Entry)
    → Standing token ttl e o
    → Standing token ttl (d + e) (aged d o)
aged-Standing token ttl e d none (inl st) = absurd (ground arith)
aged-Standing token ttl e d none (inr st) = inr (omega arith, λ h. ground arith)
aged-Standing token ttl e d (some x) (inl st) = elim (Bool-cases (ltb d x.left)) [
  | inl lasts ↦ inl (ground arith, rw lasts (ground arith))
  | inr over ↦ inr (ground arith, rw over (λ h. ground arith))
]
aged-Standing token ttl e d (some x) (inr st) = inr (omega arith, λ h. st.1 (ground arith))

module _ (redis : Redis) where
  open redis use {
    Server, entry, set_nx_ex, del, expire, elapse, set-entry, del-entry, expire-entry, elapse-entry,
  }

  module _ (key token : Text) (ttl : ℕ) where
    step-Standing :
        (c : Call) (e : ℕ) (s : Server)
        → IsForeign token c
        → Standing token ttl e (entry key s)
        → Standing token ttl (seconds c + e) (entry key (step redis c s))
    step-Standing c e s foreign st = elim (step-Change redis key token s c foreign) [
      | inl (now, change) ↦ rw now (rw zero-add (Change-Standing token ttl e _ _ change st))
      | inr ages ↦ rw ages (aged-Standing token ttl e (seconds c) (entry key s) st)
    ]

    run-Standing :
        (cs : List Call) (e : ℕ) (s : Server)
        → All (IsForeign token) cs
        → Standing token ttl e (entry key s)
        → Standing token ttl (total_seconds cs + e) (entry key (run redis cs s))
    unfolding run
    run-Standing [] e s foreign st = rw zero-add st
    run-Standing (c ∷ cs) e s foreign st =
        let h : total_seconds (c ∷ cs) + e ≡ total_seconds cs + (seconds c + e) = omega arith in
        rw h (
          run-Standing cs (seconds c + e) (step redis c s) foreign.1
            (step-Standing c e s foreign.0 st))

  -- A lease is taken, and then others call.
  module _ (ttl : ℕ) (resource token : Text) (s : Server) where
    abbrev pub own : Claim
    own = (acquire redis (redis_client ttl) resource token s).0

    abbrev pub after : List Call → Server
    after cs = run redis cs (acquire redis (redis_client ttl) resource token s).1

    stands :
        (cs : List Call)
        → 0 < ttl
        → own.acquired ≡ true
        → All (IsForeign token) cs
        → Standing token ttl (total_seconds cs + 0) (entry (lease_key resource) (after cs))
    unfolding acquire
    stands cs h done foreign =
        run-Standing (lease_key resource) token ttl cs 0 _ foreign
          (inl (h, (set_granted redis (lease_key resource) token ttl s h done).1 ∙ ground arith))

    -- Before the lease has run out the key is the holder's: every other client is refused and
    -- leaves the server as it is, and the holder's refresh succeeds.
    pub lease-IsExclusive :
        (cs : List Call)
        → 0 < ttl
        → own.acquired ≡ true
        → All (IsForeign token) cs
        → total_seconds cs < ttl
        → (other : Text) (n : ℕ) → 0 < n
        → ((acquire redis (redis_client n) resource other (after cs)).0.acquired ≡ false)
          × SameEntries redis
              (after cs)
              (acquire redis (redis_client n) resource other (after cs)).1
          × ((refresh redis (redis_client ttl) own (after cs)).0 ≡ true)
    unfolding acquire refresh refresh_script
    lease-IsExclusive cs h done foreign early other n live = elim (stands cs h done foreign) [
      | inr over ↦ absurd (omega arith)
      | inl st ↦
          let refused = set_refused redis (lease_key resource) other n (after cs) _ live st.1 in
          let renewed =
            refresh_script_own redis (lease_key resource) token ttl _ (after cs) h st.1 in
          (refused.0, refused.1, rw done renewed)
    ]

    -- When it has run out the holder has lost the lease: its refresh fails, and its refresh and its
    -- release leave the server as it is, so the lease of whoever came next stands.
    pub lease-IsLapsed :
        (cs : List Call)
        → 0 < ttl
        → own.acquired ≡ true
        → All (IsForeign token) cs
        → ttl ≤ total_seconds cs
        → (refresh redis (redis_client ttl) own (after cs) ≡ (false, after cs))
          × (release redis (redis_client ttl) own (after cs) ≡ after cs)
    unfolding acquire refresh refresh_script release release_script
    lease-IsLapsed cs h done foreign late = elim (stands cs h done foreign) [
      | inl st ↦ absurd (omega arith)
      | inr over ↦
          let lost = not_owned redis (lease_key resource) token (after cs) over.1 in
          (rw (done, lost) refl, rw (done, lost) refl)
    ]
