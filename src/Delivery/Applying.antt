-- ===== src/Delivery/Applying.antt =====
-- What `apply_delivery_result` of control-plane/app/services/delivery.py leaves and answers.
use multi_tenant_file_delive.Prelude.{
  String, ◌≡◌, refl, ◌∙◌, ◌⊎◌, inl, inr, ◌+◌, Option, none, some, List, [], ◌∷◌, ◌++◌, map, arith,
  find, update_where, length,
}
use multi_tenant_file_delive.Text.{Text}
use multi_tenant_file_delive.Store.Rows.{Task, TaskEvent, Database}
use multi_tenant_file_delive.Store.Session.{Session}
use multi_tenant_file_delive.Store.Ensures.{Ensures, ensures-pure, ensures-bind}
use multi_tenant_file_delive.Store.Steady.{SameRows, SameRows-refl, SameRows-event}
use multi_tenant_file_delive.Store.Steps.{ensures-get, ensures-update_status, ensures-append}
use multi_tenant_file_delive.Store.Tasks
use multi_tenant_file_delive.Delivery.{
  DeliveryResultMessage, DeliveryResultApplySummary, Applied, nothing_applied, summary_of, apply_to,
  report_missing, apply_delivery_result,
}
use multi_tenant_file_delive.Delivery.Loop.{
  reported, reached_of, missing_of, LoopMoved, apply_items-Moved,
}

-- The task that a result names is looked up by its id alone.
abbrev pub named_task : DeliveryResultMessage → Database → Option Task
named_task message db = find (Tasks.selects message.task_id none) db.tasks

-- The result of a task that is there.
pub record IsDelivered (message : DeliveryResultMessage) (db : Database)
    (answer : DeliveryResultApplySummary) (db' : Database) (task : Task) : Type 0 where
  pub found : named_task message db ≡ some task
  pub answered :
      answer
      ≡ summary_of message
          (reached_of db.tasks message task db.items message.items)
          (missing_of db.tasks message task db.items message.items)
  pub items : db'.items ≡ reported db.tasks message task db.items message.items
  pub tasks :
      db'.tasks
      ≡ update_where
          (Tasks.selects message.task_id (some task.owner_tenant_id))
          (Tasks.with_status message.status none (some message.ended_at))
          db.tasks
  pub workspaces : db'.workspaces ≡ db.workspaces
  pub objects :
      length db'.workspace_objects + length db.physical_objects
      ≡ length db.workspace_objects + length db'.physical_objects

-- The result of a task that is not there.
pub record IsLost (message : DeliveryResultMessage) (db : Database)
    (answer : DeliveryResultApplySummary) (db' : Database) : Type 0 where
  pub not_found : named_task message db ≡ none
  pub answered : answer ≡ summary_of message 0 (map (λ i. i.item_id) message.items)
  pub unchanged : db' ≡ db

abbrev pub Delivered :
    DeliveryResultMessage → Database → DeliveryResultApplySummary → Database → Type 0
Delivered message db answer db' =
    IsLost message db answer db' ⊎ ((task : Task) × IsDelivered message db answer db' task)

report_missing-SameRows :
    (message : DeliveryResultMessage) (missing : List String) (s : Session)
    → Ensures (report_missing message missing) s (λ u t. SameRows s.db t.db)
unfolding report_missing
report_missing-SameRows message [] s = ensures-pure tt (SameRows-refl s.db)
report_missing-SameRows message (i ∷ is) s =
    ensures-append _ _ _ _ (ensures-pure tt (SameRows-event s.db s.db _ (SameRows-refl s.db)))

module _ (bucket : Text) (message : DeliveryResultMessage) (s : Session) where
  delivered :
      (task : Task) (acc : Applied) (t u : Session) (e : TaskEvent)
      → named_task message s.db ≡ some task
      → LoopMoved message task message.items nothing_applied s.db acc t.db
      → SameRows
          (record t.db {
            tasks =
                update_where
                  (Tasks.selects message.task_id (some task.owner_tenant_id))
                  (Tasks.with_status message.status none (some message.ended_at))
                  t.db.tasks;
            events = t.db.events ++ e ∷ [];
          })
          u.db
      → IsDelivered message s.db (summary_of message acc.applied_items acc.missing_items) u.db task
  delivered task acc t u e found moved same =
      let applied : acc.applied_items
          ≡ reached_of s.db.tasks message task s.db.items message.items =
        omega (arith, moved.applied) in
      record {
        found = found;
        answered = rw (applied, moved.missing) refl;
        items = same.items ∙ moved.items;
        tasks = same.tasks ∙ rw moved.tasks refl;
        workspaces = same.workspaces ∙ moved.workspaces;
        objects =
            rw (same.physical_objects, same.workspace_objects)
              (omega (arith, moved.objects, moved.bytes));
      }

  apply_to-Delivered :
      (found : Option Task)
      → named_task message s.db ≡ found
      → Ensures (apply_to bucket message found) s (λ answer t. Delivered message s.db answer t.db)
  unfolding apply_to
  apply_to-Delivered none nothing =
      ensures-pure _ (inl record { not_found = nothing; answered = refl; unchanged = refl })
  apply_to-Delivered (some task) found =
      ensures-bind _ _ _ (apply_items-Moved message task bucket message.items nothing_applied s)
        λ acc t moved. ensures-update_status _ _ _ _ _ _ (
          ensures-append _ _ _ _ (
            ensures-bind _ _ _ (report_missing-SameRows message acc.workspace_mapping_missing _)
              λ x u same. ensures-pure _ (inr (task, delivered task acc t u _ found moved same))))

  -- A result whose task is not there changes nothing, and all its items are missing. Otherwise an
  -- item is applied exactly if it is `uploaded` or `failed` and the task has it, for the tenant
  -- that owns the task; the answer counts these and lists the others in their order; the rows
  -- change item by item as the result says; the task gets the status and the end of the result, and
  -- no other task changes; no workspace changes, and there are as many new workspace objects as new physical ones.
  pub apply_delivery_result-Delivered :
      Ensures
        (apply_delivery_result bucket message)
        s
        (λ answer t. Delivered message s.db answer t.db)
  unfolding apply_delivery_result
  apply_delivery_result-Delivered = ensures-get _ _ _ (apply_to-Delivered _ refl)
