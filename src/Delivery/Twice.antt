-- ===== src/Delivery/Twice.antt =====
-- `apply_delivery_result` of control-plane/app/services/delivery.py on a result that arrives twice.
use mathlib.Core.Path.{subst}
use multi_tenant_file_delive.Prelude.{
  ==_refl, ◌≡◌, refl, sym, ap, ◌∙◌, inl, inr, ◌&&◌, ◌||◌, none, some, List, [], ◌∷◌, arith, ◌==◌,
  string_eq, find-passes, update_where, update_where-cong, any-cong, any-updated,
  update_where-twice, find-updated, Bool-cases, if◌then◌else◌,
}
use multi_tenant_file_delive.Text.{Text}
use multi_tenant_file_delive.Store.Rows.{Task, TaskItem, Database}
use multi_tenant_file_delive.Store.Session.{Session, ◌>>=◌, pure}
use multi_tenant_file_delive.Store.Ensures.{Ensures, ensures-pure, ensures-bind}
use multi_tenant_file_delive.Store.Tasks
use multi_tenant_file_delive.Delivery.{
  DeliveryResultItemSpec, DeliveryResultMessage, DeliveryResultApplySummary, apply_delivery_result,
}
use multi_tenant_file_delive.Delivery.Accounting.{means, reaches, report}
use multi_tenant_file_delive.Delivery.Loop.{
  reported, reached_of, missing_of, missing_of-report, reached_of-report,
}
use multi_tenant_file_delive.Delivery.Redelivery.{reported-twice}
use multi_tenant_file_delive.Delivery.Applying.{
  named_task, Delivered, IsDelivered, apply_delivery_result-Delivered,
}

module _ (message : DeliveryResultMessage) (tasks tasks' : List Task) (task task' : Task)
    (same : (item : DeliveryResultItemSpec) (row : TaskItem)
      → means tasks' message task' item row ≡ means tasks message task item row) where
  report-same :
      (rows : List TaskItem) (item : DeliveryResultItemSpec)
      → report tasks' message task' rows item ≡ report tasks message task rows item
  report-same rows item = elim (Bool-cases (item.status == "uploaded")) [
    | inl uploaded ↦ rw (uploaded, if◌then◌else◌) (update_where-cong _ rows (same item))
    | inr other ↦ elim (Bool-cases (item.status == "failed")) [
      | inl failed ↦ rw (other, failed, if◌then◌else◌) (update_where-cong _ rows (same item))
      | inr neither ↦ rw (other, neither, if◌then◌else◌) refl
    ]
  ]

  reaches-same :
      (rows : List TaskItem) (item : DeliveryResultItemSpec)
      → reaches tasks' message task' rows item ≡ reaches tasks message task rows item
  reaches-same rows item =
      ap (λ b. (item.status == "uploaded" || item.status == "failed") && b)
        (any-cong rows (same item))

  reported-same :
      (rows : List TaskItem) (items : List DeliveryResultItemSpec)
      → reported tasks' message task' rows items ≡ reported tasks message task rows items
  reported-same rows [] = refl
  reported-same rows (item ∷ items) =
      rw (report-same rows item) (reported-same (report tasks message task rows item) items)

  missing_of-same :
      (rows : List TaskItem) (items : List DeliveryResultItemSpec)
      → missing_of tasks' message task' rows items ≡ missing_of tasks message task rows items
  missing_of-same rows [] = refl
  missing_of-same rows (item ∷ items) = rw (reaches-same rows item, missing_of-same rows items) refl

  reached_of-same :
      (rows : List TaskItem) (items : List DeliveryResultItemSpec)
      → reached_of tasks' message task' rows items ≡ reached_of tasks message task rows items
  reached_of-same rows [] = refl
  reached_of-same rows (item ∷ items) = rw (reaches-same rows item, reached_of-same rows items) refl

module _ (tasks : List Task) (message : DeliveryResultMessage) (task : Task)
    (items : List DeliveryResultItemSpec) where
  missing_of-reported :
      (rows : List TaskItem) (past : List DeliveryResultItemSpec)
      → missing_of tasks message task (reported tasks message task rows past) items
        ≡ missing_of tasks message task rows items
  missing_of-reported rows [] = refl
  missing_of-reported rows (i ∷ past) =
      missing_of-reported (report tasks message task rows i) past
      ∙ missing_of-report tasks message task rows i items

  reached_of-reported :
      (rows : List TaskItem) (past : List DeliveryResultItemSpec)
      → reached_of tasks message task (reported tasks message task rows past) items
        ≡ reached_of tasks message task rows items
  reached_of-reported rows [] = refl
  reached_of-reported rows (i ∷ past) =
      reached_of-reported (report tasks message task rows i) past
      ∙ reached_of-report tasks message task rows i items

module _ (message : DeliveryResultMessage) where
  -- The task as the result leaves it, and the tasks.
  abbrev closed : Task → Task
  closed = Tasks.with_status message.status none (some message.ended_at)

  abbrev closed_tasks : Task → List Task → List Task
  closed_tasks task =
      update_where (Tasks.selects message.task_id (some task.owner_tenant_id)) closed

  means-closed :
      (tasks : List Task) (task : Task) (item : DeliveryResultItemSpec) (row : TaskItem)
      → means (closed_tasks task tasks) message (closed task) item row
        ≡ means tasks message task item row
  means-closed tasks task item row =
      ap (λ b. row.id == item.item_id && (row.task_id == message.task_id && b))
        (any-updated (Tasks.selects message.task_id (some task.owner_tenant_id))
          (λ t. t.id == row.task_id && t.owner_tenant_id == task.owner_tenant_id) closed tasks
          (λ t. refl))

  named_task-closed :
      (db db' : Database) (task : Task)
      → named_task message db ≡ some task
      → db'.tasks ≡ closed_tasks task db.tasks
      → named_task message db' ≡ some (closed task)
  named_task-closed db db' task found tasks =
      let named = find-passes (Tasks.selects message.task_id none) db.tasks task found in
      rw tasks (
        find-updated (Tasks.selects message.task_id (some task.owner_tenant_id))
          (Tasks.selects message.task_id none) closed db.tasks task (λ y hit. ground arith)
          (λ y. refl) found (ground (arith, named, ==_refl task.owner_tenant_id)))

-- The second application of a result changes no row and answers the same.
pub record IsRepeated (first second : DeliveryResultApplySummary) (db db' : Database) : Type 0 where
  pub answered : second ≡ first
  pub items : db'.items ≡ db.items
  pub tasks : db'.tasks ≡ db.tasks
  pub workspaces : db'.workspaces ≡ db.workspaces

module _ (message : DeliveryResultMessage) (db db' db'' : Database)
    (first second : DeliveryResultApplySummary) where
  repeated :
      (task : Task)
      → IsDelivered message db first db' task
      → IsDelivered message db' second db'' (closed message task)
      → IsRepeated first second db' db''
  repeated task d e =
      let same = means-closed message db.tasks task in
      let tasks' = closed_tasks message task db.tasks in
      let reached : reached_of db'.tasks message (closed message task) db'.items message.items
          ≡ reached_of db.tasks message task db.items message.items =
        rw (d.tasks, d.items)
          (reached_of-same message db.tasks tasks' task (closed message task) same _ message.items
            ∙ reached_of-reported db.tasks message task message.items db.items message.items) in
      let missing : missing_of db'.tasks message (closed message task) db'.items message.items
          ≡ missing_of db.tasks message task db.items message.items =
        rw (d.tasks, d.items)
          (missing_of-same message db.tasks tasks' task (closed message task) same _ message.items
            ∙ missing_of-reported db.tasks message task message.items db.items message.items) in
      record {
        answered = e.answered ∙ rw (reached, missing) (sym d.answered);
        items =
            e.items
            ∙ rw (d.tasks, d.items)
                (reported-same message db.tasks tasks' task (closed message task) same _
                    message.items
                  ∙ reported-twice db.tasks message task message.items db.items);
        tasks =
            e.tasks
            ∙ rw d.tasks (
                update_where-twice (Tasks.selects message.task_id (some task.owner_tenant_id))
                  (closed message) db.tasks (λ t. refl) (λ t. refl));
        workspaces = e.workspaces;
      }

  Delivered-again :
      Delivered message db first db'
      → Delivered message db' second db''
      → IsRepeated first second db' db''
  Delivered-again (inl a) (inl b) = rw b.unchanged record {
    answered = b.answered ∙ sym a.answered;
    items = refl;
    tasks = refl;
    workspaces = refl;
  }
  Delivered-again (inl a) (inr (task, e)) =
      let clash : none ≡ some task =
        sym a.not_found ∙ sym (ap (named_task message) a.unchanged) ∙ e.found in
      absurd (ground arith)
  Delivered-again (inr (task, d)) (inl b) =
      let clash : none ≡ some (closed message task) =
        sym b.not_found ∙ named_task-closed message db db' task d.found d.tasks in
      absurd (ground arith)
  Delivered-again (inr (task, d)) (inr (task', e)) =
      let found = named_task-closed message db db' task d.found d.tasks in
      let same : task' ≡ closed message task = cc (found, e.found) in
      repeated task d (subst (IsDelivered message db' second db'') same e)

-- A result that is applied twice, as it may be where deliveries are repeated: if neither
-- application raises, the second leaves the items, the tasks and the workspaces as the first left
-- them, and answers the same.
pub apply_delivery_result-again :
    (bucket : Text) (message : DeliveryResultMessage) (s : Session)
    → Ensures
        (apply_delivery_result bucket message >>= λ first.
          apply_delivery_result bucket message >>= λ second. pure (first, second))
        s
        (λ (first, second) t.
          (once : Database) × Delivered message s.db first once × IsRepeated first second once t.db)
apply_delivery_result-again bucket message s =
    ensures-bind _ _ _ (apply_delivery_result-Delivered bucket message s) λ first t once.
      ensures-bind _ _ _ (apply_delivery_result-Delivered bucket message t) λ second u twice.
        ensures-pure _ (t.db, once, Delivered-again message s.db t.db u.db first second once twice)
