-- ===== src/Progress/Hearing.antt =====
-- What reaches a subscriber: control-plane/app/services/progress_bus.py.
use mathlib.Core.List.{append_assoc, append-nil}
use multi_tenant_file_delive.Prelude.{
  ℕ, ◌+◌, ◌-◌, ◌≤◌, ◌<◌, String, ◌≡◌, refl, sym, ap, ◌∙◌, arith, Bool, true, false, ◌&&◌, Option,
  none, some, List, [], ◌∷◌, ◌++◌, ◌==◌, ==_refl, nat_eq, string_eq, Bool-cases, inl, inr,
  if◌then◌else◌,
}
use multi_tenant_file_delive.Progress.{
  Event, Bus, empty_bus, subscribed, subscribe, unsubscribe, publish, close_task, aclose, Call,
  subscribes, unsubscribes, publishes, closes, shuts, step, run,
}
use multi_tenant_file_delive.Progress.Places.{
  one_if, tally, copies, joins, leaves, put_all-copies, tally-step, made-step, tally-old,
}
use multi_tenant_file_delive.Progress.Silence.{IsDeaf, queues-step-deaf, run-deaf}

-- What a call puts into the queues of a task.
abbrev pub put_by : String → Call → List (Option Event)
put_by key (publishes task_id event) = if task_id == key then some event ∷ [] else []
put_by key (closes task_id) = if task_id == key then none ∷ [] else []
put_by key _ = []

-- The queue is that of one subscriber of the task.
record IsHeard (q : ℕ) (task_id : String) (bus : Bus) : Type 0 where
  here : (key : String) → tally q key bus ≡ one_if (key == task_id)
  old : q < bus.made

-- The subscriber of a queue is gone.
abbrev pub ends : ℕ → String → Call → Bool
ends q task_id (unsubscribes key queue) = task_id == key && q == queue
ends q task_id shuts = true
ends q task_id _ = false

-- What is put into the queue of a subscriber, up to its end.
abbrev pub heard : ℕ → String → List Call → List (Option Event)
heard q task_id [] = []
heard q task_id (call ∷ calls) =
    if ends q task_id call then [] else put_by task_id call ++ heard q task_id calls

copies-one_if :
    (mine : Bool) (message : Option Event)
    → copies (one_if mine) message ≡ (if mine then message ∷ [] else [])
copies-one_if true message = refl
copies-one_if false message = refl

queues-step-heard :
    (q : ℕ) (task_id : String) (call : Call) (bus : Bus)
    → IsHeard q task_id bus
    → (step call bus).queues q ≡ bus.queues q ++ put_by task_id call
unfolding step subscribe unsubscribe publish close_task aclose
queues-step-heard q task_id (subscribes key) bus live = sym (append-nil (bus.queues q))
queues-step-heard q task_id (unsubscribes key queue) bus live = sym (append-nil (bus.queues q))
queues-step-heard q task_id (publishes key event) bus live =
    put_all-copies (subscribed key bus) (some event) bus.queues q
    ∙ rw (live.here key, copies-one_if (key == task_id) (some event)) refl
queues-step-heard q task_id (closes key) bus live =
    put_all-copies (subscribed key bus) none bus.queues q
    ∙ rw (live.here key, copies-one_if (key == task_id) none) refl
queues-step-heard q task_id shuts bus live = sym (append-nil (bus.queues q))

-- Only an end takes a subscriber's queue away.
leaves-ends :
    (q : ℕ) (task_id : String) (bus : Bus) (call : Call)
    → tally q task_id bus ≡ 1
    → leaves q task_id bus call ≡ one_if (ends q task_id call)
leaves-ends q task_id bus (subscribes key) one = refl
leaves-ends q task_id bus (unsubscribes key queue) one = refl
leaves-ends q task_id bus (publishes key event) one = refl
leaves-ends q task_id bus (closes key) one = refl
leaves-ends q task_id bus shuts one = one

tally-heard :
    (q : ℕ) (task_id key : String) (call : Call) (bus : Bus)
    → IsHeard q task_id bus
    → tally q key (step call bus) ≡ one_if (key == task_id) - one_if (ends q task_id call)
tally-heard q task_id key call bus live = elim (Bool-cases (key == task_id)) [
  | inl mine ↦
      let same = (string_eq.equal_iff key task_id).0 mine in
      let one = live.here task_id ∙ ap one_if (==_refl task_id) in
      rw (same, ==_refl task_id)
        (omega
          (arith, tally-old q task_id bus call live.old, one, leaves-ends q task_id bus call one))
  | inr other ↦
      rw other (omega (arith, tally-old q key bus call live.old, live.here key ∙ ap one_if other))
]

-- A subscriber stays until its end, and is deaf from then on.
IsHeard-step :
    (q : ℕ) (task_id : String) (call : Call) (bus : Bus)
    → IsHeard q task_id bus
    → ends q task_id call ≡ false
    → IsHeard q task_id (step call bus)
IsHeard-step q task_id call bus live goes_on = record {
  here = λ key. tally-heard q task_id key call bus live ∙ rw goes_on (omega arith);
  old = omega (arith, live.old, made-step call bus);
}

IsDeaf-ended :
    (q : ℕ) (task_id : String) (call : Call) (bus : Bus)
    → IsHeard q task_id bus
    → ends q task_id call ≡ true
    → IsDeaf q (step call bus)
IsDeaf-ended q task_id call bus live over = record {
  nowhere = λ key. tally-heard q task_id key call bus live ∙ rw over (gone (key == task_id));
  old = omega (arith, live.old, made-step call bus);
}
  where
    gone : (mine : Bool) → one_if mine - 1 ≡ 0
    gone true = omega arith
    gone false = omega arith

put_by-ends :
    (q : ℕ) (task_id : String) (call : Call) → ends q task_id call ≡ true → put_by task_id call ≡ []
put_by-ends q task_id (subscribes key) over = refl
put_by-ends q task_id (unsubscribes key queue) over = refl
put_by-ends q task_id (publishes key event) over = absurd (cc)
put_by-ends q task_id (closes key) over = absurd (cc)
put_by-ends q task_id shuts over = refl

run-heard :
    (q : ℕ) (task_id : String) (calls : List Call) (bus : Bus)
    → IsHeard q task_id bus
    → (run calls bus).queues q ≡ bus.queues q ++ heard q task_id calls
unfolding run
run-heard q task_id [] bus live = sym (append-nil (bus.queues q))
run-heard q task_id (call ∷ calls) bus live = elim (Bool-cases (ends q task_id call)) [
  | inl over ↦
      run-deaf q calls (step call bus) (IsDeaf-ended q task_id call bus live over)
      ∙ queues-step-heard q task_id call bus live
      ∙ rw (over, put_by-ends q task_id call over) refl
  | inr goes_on ↦
      run-heard q task_id calls (step call bus) (IsHeard-step q task_id call bus live goes_on)
      ∙ rw (queues-step-heard q task_id call bus live, goes_on)
          (append_assoc (bus.queues q) (put_by task_id call) (heard q task_id calls))
]

-- A number that no queue has yet.
record IsFresh (bus : Bus) : Type 0 where
  nowhere : (q : ℕ) → bus.made ≤ q → (key : String) → tally q key bus ≡ 0
  unused : (q : ℕ) → bus.made ≤ q → bus.queues q ≡ []

joins-new :
    (q : ℕ) (key : String) (bus : Bus) (call : Call)
    → (step call bus).made ≤ q
    → joins q key bus call ≡ 0
unfolding step subscribe
joins-new q key bus (subscribes task_id) new = elim (Bool-cases (key == task_id)) [
  | inl mine ↦ rw mine (ground arith)
  | inr other ↦ rw other refl
]
joins-new q key bus (unsubscribes task_id queue) new = refl
joins-new q key bus (publishes task_id event) new = refl
joins-new q key bus (closes task_id) new = refl
joins-new q key bus shuts new = refl

IsFresh-step : (call : Call) (bus : Bus) → IsFresh bus → IsFresh (step call bus)
IsFresh-step call bus fresh = record {
  nowhere = λ q new key.
      let old = before q new in
      omega
        (arith, tally-step q key bus call, joins-new q key bus call new, fresh.nowhere q old key);
  unused = λ q new.
      let old = before q new in
      queues-step-deaf q call bus (fresh.nowhere q old) ∙ fresh.unused q old;
}
  where
    before : (q : ℕ) → (step call bus).made ≤ q → bus.made ≤ q
    before q new = omega (arith, made-step call bus, new)

run-IsFresh : (calls : List Call) (bus : Bus) → IsFresh bus → IsFresh (run calls bus)
unfolding run
run-IsFresh [] bus fresh = fresh
run-IsFresh (call ∷ calls) bus fresh =
    run-IsFresh calls (step call bus) (IsFresh-step call bus fresh)

subscribe-IsHeard :
    (task_id : String) (bus : Bus)
    → IsFresh bus
    → IsHeard bus.made task_id (step (subscribes task_id) bus)
unfolding step subscribe
subscribe-IsHeard task_id bus fresh = record {
  here = λ key.
      tally-step bus.made key bus (subscribes task_id)
      ∙ rw (fresh.nowhere bus.made (omega arith) key) (mine_alone (key == task_id));
  old = omega arith;
}
  where
    mine_alone : (mine : Bool) → 0 + one_if (mine && bus.made == bus.made) - 0 ≡ one_if mine
    mine_alone true = ground arith
    mine_alone false = refl

-- A subscriber's queue gets exactly the messages of its task from its subscription until it
-- leaves or the bus is shut, in the order in which they were published, each once, with a mark
-- for each close: whatever other calls came before and come between, of whatever other tasks and
-- subscribers.
pub subscribe-hears :
    (task_id : String) (before after : List Call)
    → let (q, bus) = subscribe task_id (run before empty_bus) in
      (run after bus).queues q ≡ heard q task_id after
unfolding step subscribe
subscribe-hears task_id before after =
    let bus = run before empty_bus in
    let fresh = run-IsFresh before empty_bus nothing_yet in
    run-heard bus.made task_id after (step (subscribes task_id) bus)
      (subscribe-IsHeard task_id bus fresh)
    ∙ rw (fresh.unused bus.made (omega arith)) refl
  where
    nothing_yet : IsFresh empty_bus
    nothing_yet = record { nowhere = λ q new key. refl; unused = λ q new. refl }
