-- ===== src/Progress/Silence.antt =====
-- A queue that is no subscriber's stays as it is:
-- control-plane/app/services/progress_bus.py.
use mathlib.Core.List.{append-nil}
use multi_tenant_file_delive.Prelude.{
  ℕ, ◌<◌, String, ◌≡◌, refl, ◌∙◌, arith, none, some, List, [], ◌∷◌, nat_eq, string_eq,
}
use multi_tenant_file_delive.Progress.{
  Bus, subscribed, subscribe, unsubscribe, publish, close_task, aclose, Call, subscribes,
  unsubscribes, publishes, closes, shuts, step, run,
}
use multi_tenant_file_delive.Progress.Places.{tally, put_all-copies, made-step, tally-old}

-- The queue is nowhere.
pub record IsDeaf (q : ℕ) (bus : Bus) : Type 0 where
  pub nowhere : (key : String) → tally q key bus ≡ 0
  pub old : q < bus.made

pub queues-step-deaf :
    (q : ℕ) (call : Call) (bus : Bus)
    → ((key : String) → tally q key bus ≡ 0)
    → (step call bus).queues q ≡ bus.queues q
unfolding step subscribe unsubscribe publish close_task aclose
queues-step-deaf q (subscribes task_id) bus deaf = refl
queues-step-deaf q (unsubscribes task_id queue) bus deaf = refl
queues-step-deaf q (publishes task_id event) bus deaf =
    put_all-copies (subscribed task_id bus) (some event) bus.queues q
    ∙ rw (deaf task_id) (append-nil (bus.queues q))
queues-step-deaf q (closes task_id) bus deaf =
    put_all-copies (subscribed task_id bus) none bus.queues q
    ∙ rw (deaf task_id) (append-nil (bus.queues q))
queues-step-deaf q shuts bus deaf = refl

IsDeaf-step : (q : ℕ) (call : Call) (bus : Bus) → IsDeaf q bus → IsDeaf q (step call bus)
IsDeaf-step q call bus deaf = record {
  nowhere = λ key. omega (arith, tally-old q key bus call deaf.old, deaf.nowhere key);
  old = omega (arith, deaf.old, made-step call bus);
}

pub run-deaf :
    (q : ℕ) (calls : List Call) (bus : Bus) → IsDeaf q bus → (run calls bus).queues q ≡ bus.queues q
unfolding run
run-deaf q [] bus deaf = refl
run-deaf q (call ∷ calls) bus deaf =
    run-deaf q calls (step call bus) (IsDeaf-step q call bus deaf)
    ∙ queues-step-deaf q call bus deaf.nowhere
