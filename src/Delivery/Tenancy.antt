-- ===== src/Delivery/Tenancy.antt =====
-- What a result of the data plane cannot touch, and that it accounts for all its items:
-- `apply_delivery_result` of control-plane/app/services/delivery.py.
use multi_tenant_file_delive.Prelude.{
  ℕ, String, Option, ◌≡◌, refl, ◌∙◌, inl, inr, Bool, not, ◌||◌, some, none, ◌+◌, List, [], ◌∷◌, map,
  arith, ◌==◌, string_eq, keep, keep-update_where, length, update_where, Bool-cases, if◌then◌else◌,
}
use multi_tenant_file_delive.Text.{Text}
use multi_tenant_file_delive.Store.Rows.{Task, TaskItem, Database}
use multi_tenant_file_delive.Store.Session.{Session}
use multi_tenant_file_delive.Store.Ensures.{Ensures, ensures-weaken}
use multi_tenant_file_delive.Store.Items
use multi_tenant_file_delive.Store.Tasks
use multi_tenant_file_delive.Delivery.{
  DeliveryResultItemSpec, DeliveryResultMessage, DeliveryResultApplySummary, apply_delivery_result,
}
use multi_tenant_file_delive.Delivery.Accounting.{means, reaches, report}
use multi_tenant_file_delive.Delivery.Loop.{reported, reached_of, missing_of}
use multi_tenant_file_delive.Delivery.Applying.{
  named_task, Delivered, apply_delivery_result-Delivered,
}

module _ (tasks : List Task) (message : DeliveryResultMessage) (task : Task) where
  -- Every item of the result is applied or missing.
  accounted :
      (rows : List TaskItem) (items : List DeliveryResultItemSpec)
      → reached_of tasks message task rows items + length (missing_of tasks message task rows items)
        ≡ length items
  accounted rows [] = omega arith
  accounted rows (item ∷ items) = elim (Bool-cases (reaches tasks message task rows item)) [
    | inl hit ↦ rw hit (omega (arith, accounted rows items))
    | inr miss ↦ rw miss (omega (arith, accounted rows items))
  ]

  -- A row that no item of the result can mean: of another task, or of a task of another tenant.
  abbrev pub is_foreign : TaskItem → Bool
  is_foreign row =
      not (row.task_id == message.task_id)
      || not (Items.in_tenant tasks (some task.owner_tenant_id) row.task_id)

  update-foreign :
      (item : DeliveryResultItemSpec) (status : String) (error : Text) (at : Option ℕ)
      (rows : List TaskItem)
      → keep is_foreign
          (update_where (means tasks message task item) (Items.with_upload status error at) rows)
        ≡ keep is_foreign rows
  update-foreign item status error at rows =
      keep-update_where (means tasks message task item) is_foreign
        (Items.with_upload status error at) rows (λ row hit. (ground arith, ground arith))

  report-foreign :
      (rows : List TaskItem) (item : DeliveryResultItemSpec)
      → keep is_foreign (report tasks message task rows item) ≡ keep is_foreign rows
  report-foreign rows item = elim (Bool-cases (item.status == "uploaded")) [
    | inl uploaded ↦ rw (uploaded, if◌then◌else◌) (update-foreign item _ _ _ rows)
    | inr other ↦ elim (Bool-cases (item.status == "failed")) [
      | inl failed ↦ rw (other, failed, if◌then◌else◌) (update-foreign item _ _ _ rows)
      | inr neither ↦ rw (other, neither, if◌then◌else◌) refl
    ]
  ]

  reported-foreign :
      (rows : List TaskItem) (items : List DeliveryResultItemSpec)
      → keep is_foreign (reported tasks message task rows items) ≡ keep is_foreign rows
  reported-foreign rows [] = refl
  reported-foreign rows (item ∷ items) =
      reported-foreign (report tasks message task rows item) items ∙ report-foreign rows item

-- What is left of the items when those are left out that the result may mean, and how the result's
-- own items are counted.
pub record IsConfined (message : DeliveryResultMessage) (db : Database)
    (answer : DeliveryResultApplySummary) (db' : Database) : Type 0 where
  pub accounts : answer.applied_items + length answer.missing_items ≡ length message.items
  pub foreign_items :
      (task : Task)
      → named_task message db ≡ some task
      → keep (is_foreign db.tasks message task) db'.items
        ≡ keep (is_foreign db.tasks message task) db.items
  pub foreign_tasks :
      keep (λ t. not (t.id == message.task_id)) db'.tasks
      ≡ keep (λ t. not (t.id == message.task_id)) db.tasks

length-ids :
    (items : List DeliveryResultItemSpec) → length (map (λ i. i.item_id) items) ≡ length items
length-ids [] = refl
length-ids (i ∷ items) = omega (arith, length-ids items)

Delivered-IsConfined :
    (message : DeliveryResultMessage) (db : Database) (answer : DeliveryResultApplySummary)
    (db' : Database)
    → Delivered message db answer db'
    → IsConfined message db answer db'
Delivered-IsConfined message db answer db' (inl lost) =
    rw (lost.answered, lost.unchanged)
      (record {
        accounts = rw (length-ids message.items) (omega arith);
        foreign_items = λ task h. refl;
        foreign_tasks = refl;
      })
Delivered-IsConfined message db answer db' (inr (task, d)) = record {
  accounts = rw d.answered (accounted db.tasks message task db.items message.items);
  foreign_items = λ other h.
      let same : other ≡ task = cc (h, d.found) in
      rw (same, d.items) (reported-foreign db.tasks message task db.items message.items);
  foreign_tasks = rw d.tasks (
      keep-update_where (Tasks.selects message.task_id (some task.owner_tenant_id))
        (λ t. not (t.id == message.task_id))
        (Tasks.with_status message.status none (some message.ended_at)) db.tasks
        (λ t hit. (ground arith, ground arith)));
}

-- A result accounts for each of its items once, applied or missing. It changes no row of an item
-- of another task, or of a task that the owner of the named one does not own, and no row of another
-- task: these stay, in their order.
pub apply_delivery_result-IsConfined :
    (bucket : Text) (message : DeliveryResultMessage) (s : Session)
    → Ensures
        (apply_delivery_result bucket message)
        s
        (λ answer t. IsConfined message s.db answer t.db)
apply_delivery_result-IsConfined bucket message s =
    ensures-weaken _ _ (apply_delivery_result-Delivered bucket message s)
      λ answer t done. Delivered-IsConfined message s.db answer t.db done
