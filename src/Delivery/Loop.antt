-- ===== src/Delivery/Loop.antt =====
-- The loop of `apply_delivery_result` of control-plane/app/services/delivery.py as a whole.
use mathlib.Core.List.{append-nil, append_assoc}
use multi_tenant_file_delive.Prelude.{
  ℕ, String, ◌≡◌, refl, sym, ◌∙◌, ◌+◌, none, some, List, [], ◌∷◌, ◌++◌, arith, ◌==◌, string_eq,
  Bool-cases, inl, inr, if◌then◌else◌,
}
use multi_tenant_file_delive.Text.{Text}
use multi_tenant_file_delive.Store.Rows.{Task, TaskItem, Database}
use multi_tenant_file_delive.Store.Session.{Session}
use multi_tenant_file_delive.Store.Ensures.{Ensures, ensures-pure, ensures-bind, ensures-weaken}
use multi_tenant_file_delive.Store.Items
use multi_tenant_file_delive.Delivery.{
  DeliveryResultItemSpec, DeliveryResultMessage, Applied, error_of, apply_items,
}
use multi_tenant_file_delive.Delivery.Rounds.{apply_item-Moved}
use multi_tenant_file_delive.Delivery.Accounting.{
  means, reaches, report, Moved, lost_if, count_reached, any-update_where,
}

module _ (tasks : List Task) (message : DeliveryResultMessage) (task : Task) where
  -- The rows after all items of the result, one after the other.
  abbrev pub reported : List TaskItem → List DeliveryResultItemSpec → List TaskItem
  reported rows [] = rows
  reported rows (item ∷ items) = reported (report tasks message task rows item) items

  -- The ids of the items that are not applied.
  abbrev pub missing_of : List TaskItem → List DeliveryResultItemSpec → List String
  missing_of rows [] = []
  missing_of rows (item ∷ items) =
      lost_if (reaches tasks message task rows item) item.item_id ++ missing_of rows items

  -- How many items are applied.
  abbrev pub reached_of : List TaskItem → List DeliveryResultItemSpec → ℕ
  reached_of rows [] = 0
  reached_of rows (item ∷ items) =
      count_reached (reaches tasks message task rows item) + reached_of rows items

  -- The items of a result do not get in each other's way.
  reaches-report :
      (rows : List TaskItem) (i j : DeliveryResultItemSpec)
      → reaches tasks message task (report tasks message task rows i) j
        ≡ reaches tasks message task rows j
  reaches-report rows i j = elim (Bool-cases (i.status == "uploaded")) [
    | inl uploaded ↦
        rw (uploaded, if◌then◌else◌)
          (rw
            (any-update_where (means tasks message task i) (means tasks message task j)
              (Items.with_upload "uploaded" [] (some message.ended_at)) rows (λ row. refl))
            refl)
    | inr other ↦ elim (Bool-cases (i.status == "failed")) [
      | inl failed ↦
          rw (other, failed, if◌then◌else◌)
            (rw
              (any-update_where (means tasks message task i) (means tasks message task j)
                (Items.with_upload "failed" (error_of i message) none) rows (λ row. refl))
              refl)
      | inr neither ↦ rw (other, neither, if◌then◌else◌) refl
    ]
  ]

  pub missing_of-report :
      (rows : List TaskItem) (i : DeliveryResultItemSpec) (items : List DeliveryResultItemSpec)
      → missing_of (report tasks message task rows i) items ≡ missing_of rows items
  missing_of-report rows i [] = refl
  missing_of-report rows i (j ∷ items) =
      rw (reaches-report rows i j, missing_of-report rows i items) refl

  pub reached_of-report :
      (rows : List TaskItem) (i : DeliveryResultItemSpec) (items : List DeliveryResultItemSpec)
      → reached_of (report tasks message task rows i) items ≡ reached_of rows items
  reached_of-report rows i [] = refl
  reached_of-report rows i (j ∷ items) =
      rw (reaches-report rows i j, reached_of-report rows i items) refl

module _ (message : DeliveryResultMessage) (task : Task) where
  abbrev pub LoopMoved :
      List DeliveryResultItemSpec → Applied → Database → Applied → Database → Type 0
  LoopMoved items acc db acc' db' =
      Moved (reported db.tasks message task db.items items)
        (reached_of db.tasks message task db.items items)
        (missing_of db.tasks message task db.items items) acc db acc' db'

  -- One round and the rest.
  compose :
      (item : DeliveryResultItemSpec) (items : List DeliveryResultItemSpec)
      (acc next last : Applied) (db db' db'' : Database)
      → Moved
          (report db.tasks message task db.items item)
          (count_reached (reaches db.tasks message task db.items item))
          (lost_if (reaches db.tasks message task db.items item) item.item_id)
          acc
          db
          next
          db'
      → LoopMoved items next db' last db''
      → LoopMoved (item ∷ items) acc db last db''
  compose item items acc next last db db' db'' m n = record {
    tasks = n.tasks ∙ m.tasks;
    workspaces = n.workspaces ∙ m.workspaces;
    events = n.events ∙ m.events;
    items = n.items ∙ rw (m.tasks, m.items) refl;
    applied =
        n.applied
        ∙ rw
            (
              m.tasks,
              m.items,
              reached_of-report db.tasks message task db.items item items,
              m.applied,
            )
            (omega arith);
    missing =
        n.missing
        ∙ rw
            (
              m.tasks,
              m.items,
              missing_of-report db.tasks message task db.items item items,
              m.missing,
            )
            (append_assoc acc.missing_items _ _);
    objects = omega (arith, m.objects, n.objects);
    bytes = omega (arith, m.bytes, n.bytes);
  }

  pub apply_items-Moved :
      (bucket : Text) (items : List DeliveryResultItemSpec) (acc : Applied) (s : Session)
      → Ensures
          (apply_items bucket message task items acc)
          s
          (λ acc' t. LoopMoved items acc s.db acc' t.db)
  unfolding apply_items
  apply_items-Moved bucket [] acc s = ensures-pure acc record {
    tasks = refl;
    workspaces = refl;
    events = refl;
    items = refl;
    applied = omega arith;
    missing = sym (append-nil acc.missing_items);
    objects = refl;
    bytes = refl;
  }
  apply_items-Moved bucket (item ∷ items) acc s =
      ensures-bind _ _ _ (apply_item-Moved bucket message task item acc s) λ next t m.
        ensures-weaken _ _ (apply_items-Moved bucket items next t)
          λ last u n. compose item items acc next last s.db t.db u.db m n
