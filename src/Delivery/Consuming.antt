-- ===== src/Delivery/Consuming.antt =====
-- The loop over the results that a consumer has fetched: `consume_delivery_results` of
-- control-plane/app/services/delivery.py, with its leases and acknowledgements. The parser of a
-- message is a parameter, and so is the broker: which offsets it accepts. Spans and metrics are left out.
pub mod Refinement
pub mod Passing
pub mod Samples
use multi_tenant_file_delive.Prelude.{
  ℕ, suc, ◌+◌, String, Bool, true, false, Option, none, some, List, [], ◌∷◌, ◌++◌, if◌then◌else◌,
  text_leb, sort_by, not, keep,
}
use multi_tenant_file_delive.Text.{Text, text}
use multi_tenant_file_delive.Redis.{Redis, is_some}
use multi_tenant_file_delive.Leases.{
  Claim, Client, disabled_client, redis_client, lease_key, acquire, release,
}
use multi_tenant_file_delive.Store.Session.{Session, Result, ok, err, Error, runtime_error}
use multi_tenant_file_delive.Delivery.{
  DeliveryResultMessage, DeliveryResultApplySummary, apply_delivery_result,
}

-- `_noop_ack`, or the commit of an offset of a partition.
pub data Ack : Type 0 where
  noop_ack : Ack
  commits : ℕ → ℕ → Ack

pub record DeliveryResultRecord : Type 0 where
  pub message : DeliveryResultMessage
  pub ack : Ack

-- The session of the caller, and what has been acknowledged.
pub record Progress : Type 0 where
  pub session : Session
  pub acknowledged : List Ack

-- With the Redis server, and the tokens that `uuid4` draws.
pub record World (Server : Type 0) : Type 0 where
  pub progress : Progress
  pub server : Server
  pub tokens : ℕ → Text
  pub drawn : ℕ

abbrev pub or_error : {A : Type 0} → Option A → Result A
or_error none = err runtime_error
or_error (some a) = ok a

-- Fetching: a message that does not parse raises.
module _ {Payload : Type 0} (parse : Payload → Option DeliveryResultMessage) where
  abbrev with_ack :
      Ack
      → Option DeliveryResultMessage
      → Result (List DeliveryResultRecord)
      → Result (List DeliveryResultRecord)
  with_ack ack none rest = err runtime_error
  with_ack ack (some message) (err e) = err e
  with_ack ack (some message) (ok records) = ok (record { message = message; ack = ack } ∷ records)

  -- The messages of one partition, with their offsets, in front of the others.
  unfoldable pub partition_records :
      ℕ
      → List (ℕ × Payload)
      → Result (List DeliveryResultRecord)
      → Result (List DeliveryResultRecord)
  partition_records partition [] rest = rest
  partition_records partition ((offset, payload) ∷ messages) rest =
      with_ack (commits partition (offset + 1)) (parse payload)
        (partition_records partition messages rest)

  -- `KafkaDeliveryResultConsumer.consume_records`, over what `getmany` returns.
  unfoldable pub kafka_records : List (ℕ × List (ℕ × Payload)) → Result (List DeliveryResultRecord)
  unfolding partition_records
  kafka_records [] = ok []
  kafka_records ((partition, messages) ∷ batches) =
      partition_records partition messages (kafka_records batches)

  unfoldable pub read_files : List (Text × Payload) → Result (List DeliveryResultRecord)
  read_files [] = ok []
  read_files ((path, payload) ∷ files) = with_ack noop_ack (parse payload) (read_files files)

  -- `FileSpoolDeliveryResultConsumer.consume_records`, over the files of the directory.
  unfoldable pub file_records : List (Text × Payload) → Result (List DeliveryResultRecord)
  unfolding read_files sort_by
  file_records files = read_files (sort_by (λ f g. text_leb f.0 g.0) files)

-- The resource of `_acquire_result_apply_lease`.
abbrev pub result_apply_resource : DeliveryResultMessage → Text
result_apply_resource message = text "delivery_result_apply:" ++ text message.task_id

module _ (accepts : Ack → Bool) (bucket : Text) where
  unfoldable pub acknowledge :
      Ack
      → Result DeliveryResultApplySummary × Progress
      → Result DeliveryResultApplySummary × Progress
  acknowledge ack (err e, p) = (err e, p)
  acknowledge ack (ok summary, p) =
      if accepts ack
      then (ok summary, record p { acknowledged = p.acknowledged ++ ack ∷ [] })
      else (err runtime_error, p)

  -- The two lines under `try`.
  unfoldable pub apply_record :
      DeliveryResultRecord → Progress → Result DeliveryResultApplySummary × Progress
  unfolding acknowledge
  apply_record r p =
      let (result, session) = apply_delivery_result bucket r.message p.session in
      acknowledge r.ack (result, record p { session = session })

-- A raise ends the loop.
module _ {A S : Type 0} where
  abbrev pub and_then : Result A × S → (A → S → Result (List A) × S) → Result (List A) × S
  and_then (err e, s) rest = (err e, s)
  and_then (ok a, s) rest = rest a s

module _ (redis : Redis) (client : Client) (accepts : Ack → Bool) (bucket : Text) where
  -- `_acquire_result_apply_lease`
  unfoldable pub acquire_result_apply_lease :
      DeliveryResultMessage → World redis.Server → Claim × World redis.Server
  acquire_result_apply_lease message w =
      let (lease, server) =
        acquire redis client (result_apply_resource message) (w.tokens w.drawn) w.server in
      (lease, record w { server = server; drawn = suc w.drawn })

  -- The body of the loop for a lease that was acquired: `try` and `finally`.
  unfoldable pub apply_under_lease :
      Claim
      → DeliveryResultRecord
      → World redis.Server
      → Result DeliveryResultApplySummary × World redis.Server
  unfolding apply_record
  apply_under_lease lease r w =
      let (result, progress) = apply_record accepts bucket r w.progress in
      (result, record w { progress = progress; server = release redis client lease w.server })

  unfoldable pub consume_loop :
      List DeliveryResultRecord
      → List DeliveryResultApplySummary
      → World redis.Server
      → Result (List DeliveryResultApplySummary) × World redis.Server
  unfolding acquire_result_apply_lease apply_under_lease
  consume_loop [] summaries w = (ok summaries, w)
  consume_loop (r ∷ records) summaries w =
      let (lease, w') = acquire_result_apply_lease r.message w in
      elim lease.acquired [
        | false ↦ consume_loop records summaries w'
        | true ↦
            and_then (apply_under_lease lease r w')
              λ summary v. consume_loop records (summaries ++ summary ∷ []) v
      ]

  -- A fetch that raises ends in an error; else the loop runs over what was fetched.
  unfoldable pub consume_delivery_results :
      Result (List DeliveryResultRecord)
      → World redis.Server
      → Result (List DeliveryResultApplySummary) × World redis.Server
  unfolding consume_loop
  consume_delivery_results (err e) w = (err e, w)
  consume_delivery_results (ok records) w = consume_loop records [] w
