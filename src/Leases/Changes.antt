-- ===== src/Leases/Changes.antt =====
-- What a call does to one entry, for the scripts and clients of
-- control-plane/app/services/redis_lease.py and idempotency_guard.py.
use multi_tenant_file_delive.Prelude.{
  ℕ, ◌<◌, ◌≡◌, ◌≢◌, refl, ap, ◌∙◌, sym, ◌⊎◌, inl, inr, Bool, true, false, Option, none, some, ◌==◌,
  ==_refl, text_eq, text_beq_iff, if◌then◌else◌, Bool-cases, if_rule, Option-cases,
}
use multi_tenant_file_delive.Text.{Text}
use multi_tenant_file_delive.Redis.{
  Redis, Entry, is_some, or_new, extended, aged, value_of, SameEntries,
}
use multi_tenant_file_delive.Leases.{
  Claim, Client, disabled_client, redis_client, lease_key, guard_key, owns, is_token,
  release_script, refresh_script, acquire, refresh, release, acquire_guard, release_guard,
}
use multi_tenant_file_delive.Leases.Schedule.{
  Call, acquires, refreshes, releases, acquires_guard, releases_guard, elapses, IsLive, IsForeign,
  seconds, step,
}

-- What a call of a client without the token, or time, does to the entry of a key.
pub data Change (token : Text) (a b : Option Entry) : Type 0 where
  untouched : b ≡ a → Change token a b
  taken : (e : Entry) → e.value ≢ token → a ≡ none → b ≡ some e → Change token a b
  dropped : (e : Entry) → e.value ≢ token → a ≡ some e → b ≡ none → Change token a b
  prolonged :
      (e : Entry) (n : ℕ)
      → e.value ≢ token
      → a ≡ some e
      → b ≡ some (record e { left = n })
      → Change token a b

-- A script acts only on an entry whose value is the token that it was given.
owned :
    (other : Text) (o : Option Entry)
    → is_token other (value_of o) ≡ true
    → (e : Entry) × (o ≡ some e) × (e.value ≡ other)
owned other none h = absurd (cc)
owned other (some e) h = (e, refl, (text_beq_iff e.value other).0 h)

module _ (redis : Redis) where
  open redis use {
    Server, entry, set_nx_ex, del, expire, elapse, set-entry, del-entry, expire-entry, elapse-entry,
  }

  module _ (key token : Text) (s : Server) where
    set-Change :
        (k other : Text) (ttl : ℕ)
        → 0 < ttl
        → other ≢ token
        → Change token (entry key s) (entry key (set_nx_ex k other ttl s).1)
    set-Change k other ttl h foreign = elim (Bool-cases (key == k)) [
      | inl same ↦
          rw (set-entry k other ttl s key h, same)
            (rw (← (text_beq_iff key k).0 same) (or_new-Change (entry key s)))
      | inr differs ↦ untouched (set-entry k other ttl s key h ∙ rw differs refl)
    ]
      where
        or_new-Change :
            (a : Option Entry) → Change token a (or_new a (record { value = other; left = ttl }))
        or_new-Change none = taken _ foreign refl refl
        or_new-Change (some e) = untouched refl

    release_script-Change :
        (k other : Text)
        → other ≢ token
        → Change token (entry key s) (entry key (release_script redis k other s))
    unfolding release_script
    release_script-Change k other foreign = elim (Bool-cases (owns redis k other s)) [
      | inr not_own ↦ rw not_own (untouched refl)
      | inl own ↦ rw own (elim (Bool-cases (key == k)) [
        | inr differs ↦ untouched (del-entry k s key ∙ rw differs refl)
        | inl same ↦
            let (e, here, is) = owned other (entry k s) own in
            dropped e (λ h. foreign (sym is ∙ h)) (rw ((text_beq_iff key k).0 same) here)
              (del-entry k s key ∙ rw same refl)
      ])
    ]

    refresh_script-Change :
        (k other : Text) (ttl : ℕ)
        → 0 < ttl
        → other ≢ token
        → Change token (entry key s) (entry key (refresh_script redis k other ttl s).1)
    unfolding refresh_script
    refresh_script-Change k other ttl h foreign = elim (Bool-cases (owns redis k other s)) [
      | inr not_own ↦ rw not_own (untouched refl)
      | inl own ↦ rw own (elim (Bool-cases (key == k)) [
        | inr differs ↦ untouched (expire-entry k ttl s key h ∙ rw differs refl)
        | inl same ↦
            let (e, here, is) = owned other (entry k s) own in
            prolonged e ttl (λ h'. foreign (sym is ∙ h'))
              (ap (λ (j : Text). entry j s) ((text_beq_iff key k).0 same) ∙ here)
              (expire-entry k ttl s key h ∙ rw same (ap (extended ttl) here))
      ])
    ]

    refresh-Change :
        (client : Client) (claim : Claim)
        → IsLive client
        → claim.token ≢ token
        → Change token (entry key s) (entry key (refresh redis client claim s).1)
    unfolding refresh
    refresh-Change disabled_client claim live foreign = untouched refl
    refresh-Change (redis_client n) claim live foreign =
        if_rule (λ (r : Bool × Server). Change token (entry key s) (entry key r.1)) claim.acquired
          (refresh_script-Change claim.key claim.token n live foreign) (untouched refl)

    release-Change :
        (client : Client) (claim : Claim)
        → claim.token ≢ token
        → Change token (entry key s) (entry key (release redis client claim s))
    unfolding release
    release-Change disabled_client claim foreign = untouched refl
    release-Change (redis_client n) claim foreign =
        if_rule (λ (t : Server). Change token (entry key s) (entry key t)) claim.acquired
          (release_script-Change claim.key claim.token foreign) (untouched refl)

    release_guard-Change :
        (client : Client) (claim : Claim)
        → claim.token ≢ token
        → Change token (entry key s) (entry key (release_guard redis client claim s))
    unfolding release_guard
    release_guard-Change disabled_client claim foreign = untouched refl
    release_guard-Change (redis_client n) claim foreign =
        if_rule (λ (t : Server). Change token (entry key s) (entry key t)) claim.acquired
          (release_script-Change claim.key claim.token foreign) (untouched refl)

    -- A call of another client takes no time; time only ages.
    pub step-Change :
        (c : Call)
        → IsForeign token c
        → ((seconds c ≡ 0) × Change token (entry key s) (entry key (step redis c s)))
          ⊎ (entry key (step redis c s) ≡ aged (seconds c) (entry key s))
    unfolding step acquire acquire_guard
    step-Change (elapses d) f = inr (elapse-entry d s key)
    step-Change (acquires disabled_client resource other) f = inl (refl, untouched refl)
    step-Change (acquires (redis_client n) resource other) f =
        inl (refl, set-Change (lease_key resource) other n f.0 f.1)
    step-Change (refreshes client claim) f = inl (refl, refresh-Change client claim f.0 f.1)
    step-Change (releases client claim) f = inl (refl, release-Change client claim f.1)
    step-Change (acquires_guard disabled_client operation identity other) f =
        inl (refl, untouched refl)
    step-Change (acquires_guard (redis_client n) operation identity other) f =
        inl (refl, set-Change (guard_key operation identity) other n f.0 f.1)
    step-Change (releases_guard client claim) f = inl (refl, release_guard-Change client claim f.1)

  open redis use {set-answer, expire-answer}

  -- `SET NX` succeeds exactly on a key with no entry.
  pub set_granted :
      (k token : Text) (ttl : ℕ) (s : Server)
      → 0 < ttl
      → (set_nx_ex k token ttl s).0 ≡ true
      → (entry k s ≡ none)
        × (entry k (set_nx_ex k token ttl s).1 ≡ some (record { value = token; left = ttl }))
  set_granted k token ttl s h done = elim (Option-cases (entry k s)) [
    | inl free ↦ (free, set-entry k token ttl s k h ∙ rw (==_refl k, free) refl)
    | inr (e, there) ↦
        absurd (refused (entry k s) e there (sym (set-answer k token ttl s h) ∙ done))
  ]
    where
      refused :
          (o : Option Entry) (e : Entry)
          → o ≡ some e
          → (if is_some o then false else true) ≡ true
          → ⊥
      refused none e h' h = cc
      refused (some x) e h' h = cc

  pub set_refused :
      (k token : Text) (ttl : ℕ) (s : Server) (e : Entry)
      → 0 < ttl
      → entry k s ≡ some e
      → ((set_nx_ex k token ttl s).0 ≡ false) × SameEntries redis s (set_nx_ex k token ttl s).1
  set_refused k token ttl s e h there = (
    set-answer k token ttl s h ∙ rw there refl,
    λ j. elim (Bool-cases (j == k)) [
      | inl same ↦
          set-entry k token ttl s j h ∙ rw (same, there, (text_beq_iff j k).0 same) (sym there)
      | inr differs ↦ set-entry k token ttl s j h ∙ rw differs refl
    ],
  )

  -- A key with no entry: `SET NX` succeeds, and the release that follows leaves no trace.
  pub set_released :
      (k token : Text) (ttl : ℕ) (s : Server)
      → 0 < ttl
      → entry k s ≡ none
      → ((set_nx_ex k token ttl s).0 ≡ true)
        × SameEntries redis s (release_script redis k token (set_nx_ex k token ttl s).1)
  unfolding release_script
  set_released k token ttl s h free =
      let done = set-answer k token ttl s h ∙ rw free refl in
      let there = (set_granted k token ttl s h done).1 in
      (
        done,
        λ j.
            rw (there, ==_refl token)
              (elim (Bool-cases (j == k)) [
                | inl same ↦
                    del-entry k _ j
                    ∙ rw same
                        (sym (ap (λ (i : Text). entry i s) ((text_beq_iff j k).0 same) ∙ free))
                | inr differs ↦
                    del-entry k _ j ∙ rw differs (set-entry k token ttl s j h ∙ rw differs refl)
              ]),
      )

  -- A script with the right token acts, one with another does nothing.
  pub refresh_script_own :
      (k token : Text) (ttl n : ℕ) (s : Server)
      → 0 < ttl
      → entry k s ≡ some (record { value = token; left = n })
      → (refresh_script redis k token ttl s).0 ≡ true
  unfolding refresh_script
  refresh_script_own k token ttl n s h there =
      rw (there, ==_refl token) (expire-answer k ttl s h ∙ rw there refl)

  pub not_owned :
      (k token : Text) (s : Server)
      → value_of (entry k s) ≢ some token
      → owns redis k token s ≡ false
  not_owned k token s lost = elim (Bool-cases (owns redis k token s)) [
    | inr other ↦ other
    | inl own ↦
        let (e, there, is) = owned token (entry k s) own in absurd (lost (rw there (ap some is)))
  ]
