-- ===== src/Progress/Tests.antt =====
-- Two subscribers of a task and one of another: control-plane/app/services/progress_bus.py.
use multi_tenant_file_delive.Prelude.{ℕ, ◌≡◌, refl, none, some, List, [], ◌∷◌}
use multi_tenant_file_delive.Store.Rows.{num}
use multi_tenant_file_delive.Progress.{
  Event, empty_bus, Call, subscribes, unsubscribes, publishes, closes, subscribe, step, run,
}
use multi_tenant_file_delive.Api.Tasks.Streaming.{
  Turn, timed_out, got, keep_alive, message, event_stream, Drains, sent_events, until_close,
  event_stream-heard,
}
use multi_tenant_file_delive.Progress.Hearing.{heard, subscribe-hears}

abbrev event : ℕ → Event
event n = ("n", num n) ∷ []

abbrev before : List Call
before = subscribes "t" ∷ publishes "t" (event 1) ∷ []

abbrev after : List Call
after =
    publishes "t" (event 2)
    ∷ subscribes "u"
    ∷ publishes "u" (event 3)
    ∷ unsubscribes "t" 0
    ∷ closes "t"
    ∷ unsubscribes "t" 1
    ∷ publishes "t" (event 4)
    ∷ []

subscribe-hears_example :
    let (q, bus) = subscribe "t" (run before empty_bus) in
    (run after bus).queues q ≡ heard q "t" after
subscribe-hears_example = subscribe-hears "t" before after

contents :
    let (q, bus) = subscribe "t" (run before empty_bus) in
    ((run after bus).queues q ≡ some (event 2) ∷ none ∷ [])
    × ((run after bus).queues 0 ≡ some (event 1) ∷ some (event 2) ∷ [])
    × ((run after bus).queues 2 ≡ some (event 3) ∷ [])
unfolding run step subscribe
contents = (refl, refl, refl)

abbrev turns : List Turn
turns = timed_out ∷ got (some (event 2)) ∷ got none ∷ []

drained :
    let (q, bus) = subscribe "t" (run before empty_bus) in Drains turns ((run after bus).queues q)
unfolding run step subscribe
drained = (none ∷ [], refl, ([], refl, refl))

event_stream-heard_example :
    sent_events (event_stream turns)
    ≡ until_close (heard (subscribe "t" (run before empty_bus)).0 "t" after)
event_stream-heard_example = event_stream-heard "t" before after turns drained

streamed : event_stream turns ≡ keep_alive ∷ message (event 2) ∷ []
unfolding event_stream
streamed = refl
