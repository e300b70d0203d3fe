-- ===== src/Delivery/Consuming/Passing.antt =====
-- What happens to a result whose lease is held when the next one of its partition is acknowledged:
-- `consume_delivery_results` and `KafkaDeliveryResultConsumer` of
-- control-plane/app/services/delivery.py.
use multi_tenant_file_delive.Prelude.{
  ℕ, ◌+◌, ◌<◌, ◌≡◌, refl, Bool, true, false, Option, some, List, [], ◌∷◌, ◌++◌, arith, ◌==◌,
  ==_refl, nat_eq, if◌then◌else◌, keep,
}
use multi_tenant_file_delive.Text.{Text}
use multi_tenant_file_delive.Redis.{Redis}
use multi_tenant_file_delive.Leases.{Client}
use multi_tenant_file_delive.Leases.Schedule.{IsLive}
use multi_tenant_file_delive.Store.Session.{Session, ok}
use multi_tenant_file_delive.Delivery.{
  DeliveryResultMessage, DeliveryResultApplySummary, apply_delivery_result,
}
use multi_tenant_file_delive.Delivery.Consuming.{
  Ack, noop_ack, commits, DeliveryResultRecord, Progress, World, apply_record,
  consume_delivery_results, kafka_records,
}
use multi_tenant_file_delive.Delivery.Consuming.Refinement.{
  is_free, apply_in_order, consume_delivery_results-Follows,
}

-- The offset from which the broker hands out a partition again: that of the last commit.
abbrev pub position : ℕ → ℕ → List Ack → ℕ
position partition start [] = start
position partition start (noop_ack ∷ acks) = position partition start acks
position partition start (commits p offset ∷ acks) =
    position partition (if p == partition then offset else start) acks

module _ {Payload : Type 0} (parse : Payload → Option DeliveryResultMessage) where
  -- Two messages of one partition.
  fetched :
      (partition first second : ℕ) (a b : Payload) (m n : DeliveryResultMessage)
      → parse a ≡ some m
      → parse b ≡ some n
      → kafka_records parse ((partition, (first, a) ∷ (second, b) ∷ []) ∷ [])
        ≡ ok (
            record { message = m; ack = commits partition (first + 1) }
            ∷ record { message = n; ack = commits partition (second + 1) }
            ∷ [])
  unfolding kafka_records
  fetched partition first second a b m n pa pb = rw (pa, pb) refl

  module _ (redis : Redis) (client : Client) (accepts : Ack → Bool) (bucket : Text) where
    one_applied :
        (r : DeliveryResultRecord) (p : Progress) (summary : DeliveryResultApplySummary)
        (session : Session)
        → apply_delivery_result bucket r.message p.session ≡ (ok summary, session)
        → accepts r.ack ≡ true
        → apply_in_order accepts bucket (r ∷ []) [] p ≡ (
          ok (summary ∷ []),
          record { session = session; acknowledged = p.acknowledged ++ r.ack ∷ [] },
        )
    unfolding apply_in_order apply_record
    one_applied r p summary session applied accepted = rw (applied, accepted) refl

    behind :
        (partition second start : ℕ) (acks : List Ack)
        → acks ≡ []
        → position partition start (acks ++ commits partition (second + 1) ∷ []) ≡ second + 1
    behind partition second start acks none_yet = rw (none_yet, ==_refl partition) refl

    -- The lease of the first of two results of a partition is held, and that of the second is
    -- free, applies and is acknowledged: then the session is as if the second had come alone, and
    -- the offset from which the broker goes on is the one after the second, which is behind the
    -- first, so that the first is not delivered again.
    pub held_result_is_passed :
        (partition first second start : ℕ) (a b : Payload) (m n : DeliveryResultMessage)
        (w : World redis.Server) (summary : DeliveryResultApplySummary) (session : Session)
        → IsLive client
        → parse a ≡ some m
        → parse b ≡ some n
        → first < second
        → w.progress.acknowledged ≡ []
        → is_free redis client w.server
            (record { message = m; ack = commits partition (first + 1) })
          ≡ false
        → is_free redis client w.server
            (record { message = n; ack = commits partition (second + 1) })
          ≡ true
        → apply_delivery_result bucket n w.progress.session ≡ (ok summary, session)
        → accepts (commits partition (second + 1)) ≡ true
        → let out =
            consume_delivery_results redis client accepts bucket
              (kafka_records parse ((partition, (first, a) ∷ (second, b) ∷ []) ∷ []))
              w in
          (out.0 ≡ ok (summary ∷ []))
          × (out.1.progress.session ≡ session)
          × (position partition start out.1.progress.acknowledged ≡ second + 1)
          × (first < second + 1)
    held_result_is_passed partition first second start a b m n w summary session live pa pb order
          new held free applied accepted =
        let two : List DeliveryResultRecord =
          record { message = m; ack = commits partition (first + 1) }
          ∷ record { message = n; ack = commits partition (second + 1) }
          ∷ [] in
        let alone =
          one_applied (record { message = n; ack = commits partition (second + 1) }) w.progress
            summary session applied accepted in
        let followed = consume_delivery_results-Follows redis client accepts bucket two w live in
        let kept : apply_in_order accepts bucket (keep (is_free redis client w.server) two) []
              w.progress
            ≡ (
              ok (summary ∷ []),
              record {
                session = session;
                acknowledged = w.progress.acknowledged ++ commits partition (second + 1) ∷ [];
              },
            ) =
          rw (held, free) alone in
        let behind_both = behind partition second start w.progress.acknowledged new in
        rw (fetched partition first second a b m n pa pb, followed.answer, followed.progress, kept)
          (refl, refl, behind_both, omega arith)
