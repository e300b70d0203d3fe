-- ===== src/Progress.antt =====
-- The messages of progress within a process: `MemoryProgressBackend` of
-- control-plane/app/services/progress_bus.py, which the `ProgressBus` passes its calls on to. A queue
-- is known by its number; what is put into it stands in its list, the oldest first, and is not taken
-- out here. `None`, the message that ends a stream, is `none`.
pub mod Places
pub mod Silence
pub mod Hearing
pub mod Remote
pub mod Tests
use multi_tenant_file_delive.Prelude.{
  ℕ, suc, String, Bool, Option, none, some, List, [], ◌∷◌, ◌++◌, ◌==◌, nat_eq, string_eq,
  if◌then◌else◌,
}
use multi_tenant_file_delive.Store.Rows.{Value}

abbrev pub Event : Type 0
Event = List (String × Value)

pub record Bus : Type 0 where
  pub subscribers : String → Option (List ℕ)
  pub queues : ℕ → List (Option Event)
  -- the number of the queues that were made
  pub made : ℕ

abbrev pub empty_bus : Bus
empty_bus = record { subscribers = λ task_id. none; queues = λ queue. []; made = 0 }

-- `self._subscribers.get(task_id, [])`
abbrev pub or_empty : Option (List ℕ) → List ℕ
or_empty none = []
or_empty (some queues) = queues

abbrev pub subscribed : String → Bus → List ℕ
subscribed task_id bus = or_empty (bus.subscribers task_id)

-- The entry of one task is replaced.
abbrev pub set_queues : String → Option (List ℕ) → Bus → Bus
set_queues task_id queues bus = record bus {
  subscribers = λ key. if key == task_id then queues else bus.subscribers key;
}

-- The queue of a new subscriber, as the block is entered.
unfoldable pub subscribe : String → Bus → ℕ × Bus
subscribe task_id bus = (
  bus.made,
  set_queues task_id (some (subscribed task_id bus ++ bus.made ∷ []))
      (record bus { made = suc bus.made }),
)

-- `subs.remove(queue)`, where an error is caught.
unfoldable pub remove : ℕ → List ℕ → List ℕ
remove queue [] = []
remove queue (x ∷ xs) = let rest = remove queue xs in if x == queue then xs else x ∷ rest

-- `if not subs: del self._subscribers[task_id]`
abbrev pub unless_empty : List ℕ → Option (List ℕ)
unless_empty [] = none
unless_empty (x ∷ xs) = some (x ∷ xs)

abbrev pub left_over : ℕ → Option (List ℕ) → Option (List ℕ)
left_over queue none = none
left_over queue (some queues) = unless_empty (remove queue queues)

-- As the block is left.
unfoldable pub unsubscribe : String → ℕ → Bus → Bus
unfolding remove
unsubscribe task_id queue bus = set_queues task_id (left_over queue (bus.subscribers task_id)) bus

unfoldable pub put_all : List ℕ → Option Event → (ℕ → List (Option Event)) → ℕ → List (Option Event)
put_all [] message contents = contents
put_all (x ∷ xs) message contents =
    put_all xs message
      (λ queue. if queue == x then contents queue ++ message ∷ [] else contents queue)

abbrev put : String → Option Event → Bus → Bus
put task_id message bus = record bus {
  queues = put_all (subscribed task_id bus) message bus.queues;
}

unfoldable pub publish : String → Event → Bus → Bus
unfolding put_all
publish task_id event bus = put task_id (some event) bus

unfoldable pub close_task : String → Bus → Bus
unfolding put_all
close_task task_id bus = put task_id none bus

unfoldable pub aclose : Bus → Bus
aclose bus = record bus { subscribers = λ task_id. none }

-- The calls of all who use the bus, one after the other.
pub data Call : Type 0 where
  subscribes : String → Call
  unsubscribes : String → ℕ → Call
  publishes : String → Event → Call
  closes : String → Call
  shuts : Call

unfoldable pub step : Call → Bus → Bus
unfolding subscribe unsubscribe publish close_task aclose
step (subscribes task_id) bus = (subscribe task_id bus).1
step (unsubscribes task_id queue) bus = unsubscribe task_id queue bus
step (publishes task_id event) bus = publish task_id event bus
step (closes task_id) bus = close_task task_id bus
step shuts bus = aclose bus

unfoldable pub run : List Call → Bus → Bus
unfolding step
run [] bus = bus
run (call ∷ calls) bus = run calls (step call bus)
