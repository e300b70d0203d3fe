-- ===== src/Api/Tasks/Streaming.antt =====
-- `task_progress` of control-plane/app/api/tasks.py: the stream of a task's messages. Each turn of
-- its loop is given: the client has gone, fifteen seconds pass, or a message is taken from the queue.
use multi_tenant_file_delive.Prelude.{String, ◌≡◌, refl, ◌∙◌, ap, Option, none, some, List, [], ◌∷◌}
use multi_tenant_file_delive.Store.Session.{Action, ◌>>=◌, pure}
use multi_tenant_file_delive.Auth.{CurrentActor}
use multi_tenant_file_delive.Api.Tasks.{find_task}
use multi_tenant_file_delive.Progress.{Event, Call, empty_bus, subscribe, run}
use multi_tenant_file_delive.Progress.Hearing.{heard, subscribe-hears}

pub data Turn : Type 0 where
  disconnected : Turn
  timed_out : Turn
  got : Option Event → Turn

pub data Chunk : Type 0 where
  keep_alive : Chunk
  message : Event → Chunk

unfoldable pub event_stream : List Turn → List Chunk
event_stream [] = []
event_stream (disconnected ∷ turns) = []
event_stream (timed_out ∷ turns) = keep_alive ∷ event_stream turns
event_stream (got none ∷ turns) = []
event_stream (got (some event) ∷ turns) = message event ∷ event_stream turns

unfoldable pub task_progress : CurrentActor → String → List Turn → Action (List Chunk)
unfolding event_stream
task_progress actor task_id turns = do task ← find_task actor task_id; pure (event_stream turns)

-- The turns take the whole queue, and the client stays.
abbrev pub Drains : List Turn → List (Option Event) → Type 0
Drains [] queue = queue ≡ []
Drains (disconnected ∷ turns) queue = ⊥
Drains (timed_out ∷ turns) queue = Drains turns queue
Drains (got m ∷ turns) queue = (rest : List (Option Event)) × (queue ≡ m ∷ rest) × Drains turns rest

abbrev pub sent_events : List Chunk → List Event
sent_events [] = []
sent_events (keep_alive ∷ chunks) = sent_events chunks
sent_events (message event ∷ chunks) = event ∷ sent_events chunks

abbrev pub until_close : List (Option Event) → List Event
until_close [] = []
until_close (none ∷ messages) = []
until_close (some event ∷ messages) = event ∷ until_close messages

-- The client is sent what its queue holds up to the first close, in that order.
event_stream-drained :
    (turns : List Turn) (queue : List (Option Event))
    → Drains turns queue
    → sent_events (event_stream turns) ≡ until_close queue
unfolding event_stream
event_stream-drained [] queue drained = rw drained refl
event_stream-drained (disconnected ∷ turns) queue drained = absurd drained
event_stream-drained (timed_out ∷ turns) queue drained = event_stream-drained turns queue drained
event_stream-drained (got none ∷ turns) queue (rest, taken, drained) = rw taken refl
event_stream-drained (got (some event) ∷ turns) queue (rest, taken, drained) =
    rw (taken, event_stream-drained turns rest drained) refl

-- A client that stays until its queue is empty is sent every event of its task from its
-- subscription on, each once and in the order of publication, up to the close of the task or the
-- end of its subscription, whatever calls of the bus came before and come between, and whatever
-- turns time out.
pub event_stream-heard :
    (task_id : String) (before after : List Call) (turns : List Turn)
    → (let (q, bus) = subscribe task_id (run before empty_bus) in
        Drains turns ((run after bus).queues q))
    → sent_events (event_stream turns)
      ≡ until_close (heard (subscribe task_id (run before empty_bus)).0 task_id after)
event_stream-heard task_id before after turns drained =
    event_stream-drained turns _ drained ∙ ap until_close (subscribe-hears task_id before after)
