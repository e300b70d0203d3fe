-- ===== src/Delivery/Consuming/Samples.antt =====
-- Two results of one partition, the first under the lease of another worker, at a concrete session
-- and a server in memory: `consume_delivery_results` of control-plane/app/services/delivery.py.
use multi_tenant_file_delive.Prelude.{
  String, ◌+◌, ◌<◌, ◌≡◌, refl, arith, Bool, true, false, Option, none, some, List, [], ◌∷◌, nat_eq,
  keep, text_beq, text_leb,
}
use multi_tenant_file_delive.Text.{text}
use multi_tenant_file_delive.Redis.Memory.{memory, vacant}
use multi_tenant_file_delive.Leases.{Client, redis_client, acquire}
use multi_tenant_file_delive.Store.Session.{ok, ◌>>=◌}
use multi_tenant_file_delive.Store.Ensures.{opened}
use multi_tenant_file_delive.Store.Tasks
use multi_tenant_file_delive.Delivery.{
  DeliveryResultMessage, DeliveryResultApplySummary, apply_delivery_result, apply_to, summary_of,
}
use multi_tenant_file_delive.Delivery.Consuming.{
  Ack, commits, DeliveryResultRecord, World, consume_delivery_results, kafka_records, file_records,
  result_apply_resource,
}
use multi_tenant_file_delive.Delivery.Consuming.Refinement.{
  is_free, apply_in_order, Follows, consume_delivery_results-Follows,
}
use multi_tenant_file_delive.Delivery.Consuming.Passing.{position, held_result_is_passed}
use multi_tenant_file_delive.Api.Tasks.Samples.{id_of, database}

abbrev result_of : String → DeliveryResultMessage
result_of task_id = record {
  topic = "delivery.results.v1";
  task_id = task_id;
  status = "uploaded";
  uploaded = 0;
  failed = 0;
  processed = 0;
  items = [];
  started_at = 3;
  ended_at = 4;
  error = none;
}

abbrev worker : Client
worker = redis_client 30

-- Another worker has the lease of task `f`.
abbrev world : World memory.Server
world = record {
  progress = record { session = opened id_of 7 database; acknowledged = [] };
  server = (acquire memory worker (result_apply_resource (result_of "f")) (text "bb22") vacant).1;
  tokens = λ n. text "aa11";
  drawn = 0;
}

abbrev accepts_all : Ack → Bool
accepts_all ack = true

-- A payload is the name of its task.
abbrev parse : String → Option DeliveryResultMessage
parse task_id = some (result_of task_id)

abbrev fetched_records : List DeliveryResultRecord
fetched_records =
    record { message = result_of "f"; ack = commits 0 5 }
    ∷ record { message = result_of "gone"; ack = commits 0 6 }
    ∷ []

abbrev gone_summary : DeliveryResultApplySummary
gone_summary = summary_of (result_of "gone") 0 []

first_is_held :
    is_free memory worker world.server (record { message = result_of "f"; ack = commits 0 (4 + 1) })
    ≡ false
unfolding acquire text_beq
first_is_held = refl

second_is_free :
    is_free memory worker world.server
      (record { message = result_of "gone"; ack = commits 0 (5 + 1) })
    ≡ true
unfolding acquire text_beq
second_is_free = refl

second_applies :
    apply_delivery_result (text "bucket") (result_of "gone") world.progress.session
    ≡ (ok gone_summary, world.progress.session)
unfolding apply_delivery_result apply_to Tasks.get ◌>>=◌
second_applies = refl

consume_delivery_results-Follows_example :
    Follows memory world.server
      (consume_delivery_results memory worker accepts_all
        (text "bucket")
        (ok fetched_records)
        world)
      (apply_in_order accepts_all
        (text "bucket")
        (keep (is_free memory worker world.server) fetched_records)
        []
        world.progress)
consume_delivery_results-Follows_example =
    consume_delivery_results-Follows memory worker accepts_all (text "bucket") fetched_records world
      (omega arith)

held_result_is_passed_example :
    let out =
      consume_delivery_results memory worker accepts_all
        (text "bucket")
        (kafka_records parse ((0, (4, "f") ∷ (5, "gone") ∷ []) ∷ []))
        world in
    (out.0 ≡ ok (gone_summary ∷ []))
    × (out.1.progress.session ≡ world.progress.session)
    × (position 0 0 out.1.progress.acknowledged ≡ 6)
    × (4 < 6)
held_result_is_passed_example =
    held_result_is_passed parse memory worker accepts_all (text "bucket") 0 4 5 0 "f" "gone"
      (result_of "f") (result_of "gone") world gone_summary world.progress.session (omega arith)
      refl refl (omega arith) refl first_is_held second_is_free second_applies refl

-- Files are read in the order of their names and acknowledged by nothing.
files_in_order :
    file_records parse ((text "b.json", "u") ∷ (text "a.json", "t") ∷ [])
    ≡ file_records parse ((text "a.json", "t") ∷ (text "b.json", "u") ∷ [])
unfolding file_records text_leb
files_in_order = refl
