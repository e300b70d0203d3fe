-- ===== src/Progress/Remote.antt =====
-- The backend over Redis of control-plane/app/services/progress_bus.py: what it sends, and the pump
-- that fills a subscriber's queue. Redis is outside: whether a command succeeds, and what each poll of
-- a subscription gives. The texts of JSON are `dumps` and `loads`.
use multi_tenant_file_delive.Prelude.{
  ◌≡◌, refl, Bool, false, String, Option, none, some, List, [], ◌∷◌, ◌++◌, map, ◌==◌, ==_refl,
  text_eq, if◌then◌else◌,
}
use multi_tenant_file_delive.Text.{Text, text}
use multi_tenant_file_delive.Progress.{Event, Bus, publish, close_task}

abbrev pub close_message : Text
close_message = text "__progress_bus_close__"

abbrev pub channel : String → Text
channel task_id = text "progress:" ++ text task_id

-- What `json.loads` gives: a dict, something else, or an error.
pub data Decoded : Type 0 where
  object : Event → Decoded
  no_object : Decoded
  malformed : Decoded

-- What a poll of the subscription gives: nothing, a message of another type, the data of a message,
-- or an error of Redis, after which there is no further poll.
pub data Poll : Type 0 where
  no_message : Poll
  of_other_type : Poll
  data_of : Text → Poll
  redis_error : Poll

module _ (dumps : Event → Text) (loads : Text → Decoded) where
  abbrev pub put_decoded : Decoded → List (Option Event)
  put_decoded (object event) = some event ∷ []
  put_decoded no_object = []
  put_decoded malformed = []

  abbrev pub put_text : Text → List (Option Event)
  put_text content = if content == close_message then none ∷ [] else put_decoded (loads content)

  -- What the polls put into the queue, up to the last one before the subscriber leaves.
  unfoldable pub pump : List Poll → List (Option Event)
  pump [] = []
  pump (no_message ∷ polls) = pump polls
  pump (of_other_type ∷ polls) = pump polls
  pump (data_of content ∷ polls) = put_text content ++ pump polls
  pump (redis_error ∷ polls) = none ∷ []

  -- The text of a message on its way.
  abbrev pub sent : Option Event → Text
  sent none = close_message
  sent (some event) = dumps event

  -- The command, which may fail, and the subscribers within the process in either case: what goes
  -- out on which channel, and the bus afterwards.
  unfoldable pub publish_remote : Bool → String → Event → Bus → List (Text × Text) × Bus
  publish_remote connected task_id event bus = (
    if connected then (channel task_id, sent (some event)) ∷ [] else [],
    publish task_id event bus,
  )

  unfoldable pub close_remote : Bool → String → Bus → List (Text × Text) × Bus
  close_remote connected task_id bus =
      (if connected then (channel task_id, sent none) ∷ [] else [], close_task task_id bus)

  module _ (loads-dumps : (event : Event) → loads (dumps event) ≡ object event)
      (dumps-differs : (event : Event) → (dumps event == close_message) ≡ false) where
    -- The messages that went out come into the queue as they were, in their order, where a dict that
    -- is written and read is the same and is not written as the mark of a close.
    pump-sent :
        (messages : List (Option Event)) → pump (map (λ m. data_of (sent m)) messages) ≡ messages
    unfolding pump
    pump-sent [] = refl
    pump-sent (none ∷ messages) = rw (==_refl close_message, pump-sent messages) refl
    pump-sent (some event ∷ messages) =
        rw (dumps-differs event, loads-dumps event, pump-sent messages) refl
