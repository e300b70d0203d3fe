-- ===== src/Delivery/Consuming/Refinement.antt =====
-- `consume_delivery_results` of control-plane/app/services/delivery.py against the plain loop that
-- applies and acknowledges one result after the other.
use multi_tenant_file_delive.Prelude.{
  ◌≡◌, refl, ap, ◌∙◌, Bool, true, false, Option, none, some, List, [], ◌∷◌, ◌++◌, arith, text_eq,
  not, keep, Bool-cases, Option-cases, inl, inr,
}
use multi_tenant_file_delive.Text.{Text}
use multi_tenant_file_delive.Redis.{Redis, Entry, is_some, SameEntries}
use multi_tenant_file_delive.Leases.{
  Claim, Client, disabled_client, redis_client, lease_key, acquire, release,
}
use multi_tenant_file_delive.Leases.Schedule.{IsLive}
use multi_tenant_file_delive.Leases.Changes.{set_released, set_refused}
use multi_tenant_file_delive.Store.Session.{Result, ok, err}
use multi_tenant_file_delive.Delivery.{DeliveryResultApplySummary}
use multi_tenant_file_delive.Delivery.Consuming.{
  Ack, DeliveryResultRecord, Progress, World, result_apply_resource, apply_record, and_then,
  consume_loop, consume_delivery_results,
}

-- The reference: no leases.
module _ (accepts : Ack → Bool) (bucket : Text) where
  unfoldable pub apply_in_order :
      List DeliveryResultRecord
      → List DeliveryResultApplySummary
      → Progress
      → Result (List DeliveryResultApplySummary) × Progress
  apply_in_order [] summaries p = (ok summaries, p)
  apply_in_order (r ∷ records) summaries p =
      and_then (apply_record accepts bucket r p)
        λ summary q. apply_in_order records (summaries ++ summary ∷ []) q

module _ (redis : Redis) where
  open redis use {Server, entry, set-answer, set-entry, del-entry}

  -- No one holds the lease of the record.
  abbrev pub is_free : Client → Server → DeliveryResultRecord → Bool
  is_free disabled_client s r = true
  is_free (redis_client ttl) s r =
      not (is_some (entry (lease_key (result_apply_resource r.message)) s))

  is_vacant : (o : Option Entry) → not (is_some o) ≡ true → o ≡ none
  is_vacant none h = refl
  is_vacant (some e) h = cc

  module _ (client : Client) (r : DeliveryResultRecord) (token : Text) where
    abbrev claim : Server → Claim
    claim s = (acquire redis client (result_apply_resource r.message) token s).0

    abbrev claimed : Server → Server
    claimed s = (acquire redis client (result_apply_resource r.message) token s).1

  -- A free lease is acquired, and free again after its release.
  acquire_free :
      (client : Client) (r : DeliveryResultRecord) (token : Text) (s : Server)
      → IsLive client
      → is_free client s r ≡ true
      → ((claim client r token s).acquired ≡ true)
        × SameEntries redis s
            (release redis client (claim client r token s) (claimed client r token s))
  unfolding acquire release
  acquire_free disabled_client r token s live free = (refl, λ j. refl)
  acquire_free (redis_client ttl) r token s live free =
      let kept =
        set_released redis (lease_key (result_apply_resource r.message)) token ttl s live
          (is_vacant (entry (lease_key (result_apply_resource r.message)) s) free) in
      (kept.0, rw kept.0 kept.1)

  -- One that is held is refused, and nothing changes.
  acquire_held :
      (client : Client) (r : DeliveryResultRecord) (token : Text) (s : Server)
      → IsLive client
      → is_free client s r ≡ false
      → ((claim client r token s).acquired ≡ false) × SameEntries redis s (claimed client r token s)
  unfolding acquire
  acquire_held disabled_client r token s live held = absurd (cc)
  acquire_held (redis_client ttl) r token s live held =
      elim (Option-cases (entry (lease_key (result_apply_resource r.message)) s)) [
        | inl vacant ↦ absurd (ground arith)
        | inr (e, there) ↦
            set_refused redis (lease_key (result_apply_resource r.message)) token ttl s e live there
      ]

  is_free-same :
      (client : Client) (r : DeliveryResultRecord) (s t : Server)
      → SameEntries redis s t
      → is_free client t r ≡ is_free client s r
  is_free-same disabled_client r s t same = refl
  is_free-same (redis_client ttl) r s t same =
      ap (λ o. not (is_some o)) (same (lease_key (result_apply_resource r.message)))

  -- Two outcomes are one: result, session and acknowledgements; and the server shows what it did.
  pub record Follows (s : Server) (out : Result (List DeliveryResultApplySummary) × World Server)
      (reference : Result (List DeliveryResultApplySummary) × Progress) : Type 0 where
    pub answer : out.0 ≡ reference.0
    pub progress : out.1.progress ≡ reference.1
    pub server : SameEntries redis s out.1.server

  module _ (client : Client) (accepts : Ack → Bool) (bucket : Text) (live : IsLive client)
      (s : Server) where
    abbrev free_of : List DeliveryResultRecord → List DeliveryResultRecord
    free_of = keep (is_free client s)

    -- The rest of the loop follows, so the record that was applied does.
    and_then-Follows :
        (records : List DeliveryResultRecord) (summaries : List DeliveryResultApplySummary)
        → ((summary : DeliveryResultApplySummary) (w : World Server)
            → SameEntries redis s w.server
            → Follows s
                (consume_loop redis client accepts bucket records (summaries ++ summary ∷ []) w)
                (apply_in_order accepts bucket
                  (free_of records)
                  (summaries ++ summary ∷ [])
                  w.progress))
        → (r : Result DeliveryResultApplySummary) (w : World Server) → SameEntries redis s w.server
        → Follows s
            (and_then
              (r, w)
              λ summary v.
                consume_loop redis client accepts bucket records (summaries ++ summary ∷ []) v)
            (and_then
              (r, w.progress)
              λ summary q.
                apply_in_order accepts bucket (free_of records) (summaries ++ summary ∷ []) q)
    and_then-Follows records summaries rest (err e) w same = record {
      answer = refl;
      progress = refl;
      server = same;
    }
    and_then-Follows records summaries rest (ok summary) w same = rest summary w same

    consume_loop-Follows :
        (records : List DeliveryResultRecord) (summaries : List DeliveryResultApplySummary)
        (w : World Server)
        → SameEntries redis s w.server
        → Follows s
            (consume_loop redis client accepts bucket records summaries w)
            (apply_in_order accepts bucket (free_of records) summaries w.progress)
    unfolding consume_loop apply_in_order
    consume_loop-Follows [] summaries w same = record {
      answer = refl;
      progress = refl;
      server = same;
    }
    consume_loop-Follows (r ∷ records) summaries w same = elim (Bool-cases (is_free client s r)) [
      | inl free ↦
          let got =
            acquire_free client r (w.tokens w.drawn) w.server live
              (is_free-same client r s w.server same ∙ free) in
          rw (free, got.0, consume_loop)
            (and_then-Follows records summaries
              (λ summary v same'. consume_loop-Follows records (summaries ++ summary ∷ []) v same')
              (apply_record accepts bucket r w.progress).0 _ (λ j. got.1 j ∙ same j))
      | inr held ↦
          let refused =
            acquire_held client r (w.tokens w.drawn) w.server live
              (is_free-same client r s w.server same ∙ held) in
          rw (held, refused.0, consume_loop)
            (consume_loop-Follows records summaries _ (λ j. refused.1 j ∙ same j))
    ]

  module _ (client : Client) (accepts : Ack → Bool) (bucket : Text) where
    -- What was fetched is applied and acknowledged one result after the other, up to the first that
    -- raises, except for the results whose task's lease another worker holds, which are left out;
    -- and every lease that the loop took is given back, also when it raises.
    pub consume_delivery_results-Follows :
        (records : List DeliveryResultRecord) (w : World Server)
        → IsLive client
        → Follows w.server
            (consume_delivery_results redis client accepts bucket (ok records) w)
            (apply_in_order accepts bucket (keep (is_free client w.server) records) [] w.progress)
    unfolding consume_delivery_results
    consume_delivery_results-Follows records w live =
        consume_loop-Follows client accepts bucket live w.server records [] w (λ j. refl)
