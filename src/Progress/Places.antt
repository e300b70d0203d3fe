-- ===== src/Progress/Places.antt =====
-- The places of a queue among the subscribers, and what a call makes of them:
-- control-plane/app/services/progress_bus.py.
use mathlib.Core.List.{append_assoc, append-nil}
use multi_tenant_file_delive.Prelude.{
  ℕ, zero, suc, ◌+◌, ◌-◌, ◌≤◌, ◌<◌, String, ◌≡◌, refl, sym, ap, ◌∙◌, arith, Bool, true, false, ◌&&◌,
  Option, none, some, List, [], ◌∷◌, ◌++◌, ◌==◌, nat_eq, string_eq, count_p, count_p-append,
  Bool-cases, inl, inr,
}
use multi_tenant_file_delive.Progress.{
  Event, Bus, or_empty, subscribed, subscribe, remove, unless_empty, left_over, unsubscribe,
  put_all, publish, close_task, aclose, Call, subscribes, unsubscribes, publishes, closes, shuts,
  step,
}

abbrev pub one_if : Bool → ℕ
one_if true = 1
one_if false = 0

-- How often a queue stands in a list, and among the subscribers of a task.
abbrev pub count : ℕ → List ℕ → ℕ
count q xs = count_p (λ x. q == x) xs

abbrev pub tally : ℕ → String → Bus → ℕ
tally q task_id bus = count q (subscribed task_id bus)

abbrev pub copies : ℕ → Option Event → List (Option Event)
copies zero message = []
copies (suc n) message = message ∷ copies n message

pub put_all-copies :
    (xs : List ℕ) (message : Option Event) (contents : ℕ → List (Option Event)) (q : ℕ)
    → put_all xs message contents q ≡ contents q ++ copies (count q xs) message
unfolding put_all
put_all-copies [] message contents q = sym (append-nil (contents q))
put_all-copies (x ∷ xs) message contents q = elim (Bool-cases (q == x)) [
  | inl same ↦
      rw (put_all-copies xs message _ q, same)
        (append_assoc (contents q) (message ∷ []) (copies (count q xs) message))
  | inr differs ↦ rw (put_all-copies xs message _ q, differs) refl
]

count-remove :
    (q queue : ℕ) (xs : List ℕ) → count q (remove queue xs) ≡ count q xs - one_if (q == queue)
unfolding remove
count-remove q queue [] = ground arith
count-remove q queue (x ∷ xs) = ground (arith, count-remove q queue xs)

count-left_over :
    (q queue : ℕ) (queues : Option (List ℕ))
    → count q (or_empty (left_over queue queues)) ≡ count q (or_empty queues) - one_if (q == queue)
count-left_over q queue none = ground arith
count-left_over q queue (some queues) = same (remove queue queues) ∙ count-remove q queue queues
  where
    same : (xs : List ℕ) → count q (or_empty (unless_empty xs)) ≡ count q xs
    same [] = refl
    same (x ∷ xs) = refl

-- What a call adds to, and takes from, the places of a queue.
abbrev pub joins : ℕ → String → Bus → Call → ℕ
joins q key bus (subscribes task_id) = one_if (key == task_id && q == bus.made)
joins q key bus _ = 0

abbrev pub leaves : ℕ → String → Bus → Call → ℕ
leaves q key bus (unsubscribes task_id queue) = one_if (key == task_id && q == queue)
leaves q key bus shuts = tally q key bus
leaves q key bus _ = 0

pub tally-step :
    (q : ℕ) (key : String) (bus : Bus) (call : Call)
    → tally q key (step call bus) ≡ tally q key bus + joins q key bus call - leaves q key bus call
unfolding step unsubscribe
tally-step q key bus (subscribes task_id) = elim (Bool-cases (key == task_id)) [
  | inl mine ↦ rw mine (
      ground (
        arith,
        count_p-append (λ x. q == x) (subscribed task_id bus) (bus.made ∷ []),
        ap (λ (k : String). tally q k bus) ((string_eq.equal_iff key task_id).0 mine),
      ))
  | inr other ↦ rw other (omega arith)
]
tally-step q key bus (unsubscribes task_id queue) = elim (Bool-cases (key == task_id)) [
  | inl mine ↦ rw mine (
      omega (
        arith,
        count-left_over q queue (bus.subscribers task_id),
        ap (λ (k : String). tally q k bus) ((string_eq.equal_iff key task_id).0 mine),
      ))
  | inr other ↦ rw other (omega arith)
]
tally-step q key bus (publishes task_id event) = omega arith
tally-step q key bus (closes task_id) = omega arith
tally-step q key bus shuts = omega arith

pub made-step : (call : Call) (bus : Bus) → bus.made ≤ (step call bus).made
unfolding step subscribe unsubscribe publish close_task aclose
made-step (subscribes task_id) bus = omega arith
made-step (unsubscribes task_id queue) bus = omega arith
made-step (publishes task_id event) bus = omega arith
made-step (closes task_id) bus = omega arith
made-step shuts bus = omega arith

-- No subscriber gets a queue that was made before.
joins-old :
    (q : ℕ) (key : String) (bus : Bus) (call : Call) → q < bus.made → joins q key bus call ≡ 0
joins-old q key bus (subscribes task_id) old = elim (Bool-cases (key == task_id)) [
  | inl mine ↦ rw mine (ground arith)
  | inr other ↦ rw other refl
]
joins-old q key bus (unsubscribes task_id queue) old = refl
joins-old q key bus (publishes task_id event) old = refl
joins-old q key bus (closes task_id) old = refl
joins-old q key bus shuts old = refl

pub tally-old :
    (q : ℕ) (key : String) (bus : Bus) (call : Call)
    → q < bus.made
    → tally q key (step call bus) ≡ tally q key bus - leaves q key bus call
tally-old q key bus call old =
    omega (arith, tally-step q key bus call, joins-old q key bus call old)
