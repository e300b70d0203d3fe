-- ===== src/Delivery/Redelivery.antt =====
-- A result of the data plane that arrives twice: the rows after the second time are those after the
-- first. `apply_delivery_result` of control-plane/app/services/delivery.py.
use multi_tenant_file_delive.Prelude.{
  ℕ, String, ◌≡◌, refl, sym, ap, ◌∙◌, ◌⊎◌, inl, inr, Option, none, some, List, [], ◌∷◌, map,
  map_id_lem, map_twice, map_ext, update_where-map, ◌==◌, string_eq, update_where, Bool-cases,
  if◌then◌else◌,
}
use multi_tenant_file_delive.Text.{Text}
use multi_tenant_file_delive.Store.Rows.{Task, TaskItem}
use multi_tenant_file_delive.Store.Items
use multi_tenant_file_delive.Delivery.{DeliveryResultItemSpec, DeliveryResultMessage, error_of}
use multi_tenant_file_delive.Delivery.Accounting.{means, report}
use multi_tenant_file_delive.Delivery.Loop.{reported}

module _ (tasks : List Task) (message : DeliveryResultMessage) (task : Task) where
  -- What one item of the result, and all of them, make of one row.
  abbrev row_after : DeliveryResultItemSpec → TaskItem → TaskItem
  row_after item row =
      if item.status == "uploaded"
      then (if means tasks message task item row
          then Items.with_upload "uploaded" [] (some message.ended_at) row
          else row)
      else if item.status == "failed"
      then (if means tasks message task item row
          then Items.with_upload "failed" (error_of item message) none row
          else row)
      else row

  abbrev settled : List DeliveryResultItemSpec → TaskItem → TaskItem
  settled [] row = row
  settled (item ∷ items) row = settled items (row_after item row)

  -- The item writes over what another left in the row, or leaves all rows with this id alone.
  abbrev Overwrites : DeliveryResultItemSpec → TaskItem → String → Text → Option ℕ → Type 0
  Overwrites item row status error at =
      (row_after item (Items.with_upload status error at row) ≡ row_after item row)
      ⊎ ((row_after item (Items.with_upload status error at row)
            ≡ Items.with_upload status error at row)
          × (row_after item row ≡ row))

  row_after-Overwrites :
      (item : DeliveryResultItemSpec) (row : TaskItem) (status : String) (error : Text)
      (at : Option ℕ)
      → Overwrites item row status error at
  row_after-Overwrites item row status error at =
      elim (Bool-cases (means tasks message task item row)) [
        | inl hit ↦ elim (Bool-cases (item.status == "uploaded")) [
          | inl uploaded ↦ inl (rw (uploaded, hit) refl)
          | inr other ↦ elim (Bool-cases (item.status == "failed")) [
            | inl failed ↦ inl (rw (other, failed, hit) refl)
            | inr neither ↦ inr (rw (other, neither) (refl, refl))
          ]
        ]
        | inr miss ↦ elim (Bool-cases (item.status == "uploaded")) [
          | inl uploaded ↦ inr (rw (uploaded, miss) (refl, refl))
          | inr other ↦ elim (Bool-cases (item.status == "failed")) [
            | inl failed ↦ inr (rw (other, failed, miss) (refl, refl))
            | inr neither ↦ inr (rw (other, neither) (refl, refl))
          ]
        ]
      ]

  settled-overwrites :
      (items : List DeliveryResultItemSpec) (row : TaskItem) (status : String) (error : Text)
      (at : Option ℕ)
      → (settled items (Items.with_upload status error at row) ≡ settled items row)
        ⊎ ((settled items (Items.with_upload status error at row)
              ≡ Items.with_upload status error at row)
            × (settled items row ≡ row))
  settled-overwrites [] row status error at = inr (refl, refl)
  settled-overwrites (item ∷ items) row status error at =
      elim (row_after-Overwrites item row status error at) [
        | inl same ↦ inl (ap (settled items) same)
        | inr (left, alone) ↦ rw (left, alone) (settled-overwrites items row status error at)
      ]

  -- Only the three columns of the upload differ.
  abbrev Keeps : TaskItem → TaskItem → Type 0
  Keeps row row' =
      row' ≡ Items.with_upload row'.upload_status row'.upload_error row'.uploaded_at row

  row_after-Keeps :
      (item : DeliveryResultItemSpec) (row : TaskItem) → Keeps row (row_after item row)
  row_after-Keeps item row = elim (Bool-cases (means tasks message task item row)) [
    | inl hit ↦ elim (Bool-cases (item.status == "uploaded")) [
      | inl uploaded ↦ rw (uploaded, hit) refl
      | inr other ↦ elim (Bool-cases (item.status == "failed")) [
        | inl failed ↦ rw (other, failed, hit) refl
        | inr neither ↦ rw (other, neither) refl
      ]
    ]
    | inr miss ↦ elim (Bool-cases (item.status == "uploaded")) [
      | inl uploaded ↦ rw (uploaded, miss) refl
      | inr other ↦ elim (Bool-cases (item.status == "failed")) [
        | inl failed ↦ rw (other, failed, miss) refl
        | inr neither ↦ rw (other, neither) refl
      ]
    ]
  ]

  settled-Keeps :
      (items : List DeliveryResultItemSpec) (row : TaskItem) → Keeps row (settled items row)
  settled-Keeps [] row = refl
  settled-Keeps (item ∷ items) row =
      let last : TaskItem = settled items (row_after item row) in
      settled-Keeps items (row_after item row)
      ∙ ap (Items.with_upload last.upload_status last.upload_error last.uploaded_at)
          (row_after-Keeps item row)

  settled-twice :
      (items : List DeliveryResultItemSpec) (row : TaskItem)
      → settled items (settled items row) ≡ settled items row
  settled-twice items row =
      let last : TaskItem = settled items row in
      let form = settled-Keeps items row in
      elim (settled-overwrites items row last.upload_status last.upload_error last.uploaded_at) [
        | inl same ↦ ap (settled items) form ∙ same
        | inr (left, alone) ↦ ap (settled items) form ∙ left ∙ sym form
      ]

  by_row :
      (item : DeliveryResultItemSpec) (status : String) (error : Text) (at : Option ℕ)
      (rows : List TaskItem)
      → ((row : TaskItem)
          → (if means tasks message task item row
              then Items.with_upload status error at row
              else row)
            ≡ row_after item row)
      → update_where (means tasks message task item) (Items.with_upload status error at) rows
        ≡ map (row_after item) rows
  by_row item status error at rows h =
      update_where-map (means tasks message task item) (Items.with_upload status error at) rows
      ∙ map_ext h rows

  report-map :
      (item : DeliveryResultItemSpec) (rows : List TaskItem)
      → report tasks message task rows item ≡ map (row_after item) rows
  report-map item rows = elim (Bool-cases (item.status == "uploaded")) [
    | inl uploaded ↦
        rw (uploaded, if◌then◌else◌)
          (by_row item "uploaded" [] (some message.ended_at) rows (λ row. rw (uploaded) refl))
    | inr other ↦ elim (Bool-cases (item.status == "failed")) [
      | inl failed ↦
          rw (other, failed, if◌then◌else◌)
            (by_row item "failed" (error_of item message) none rows
              (λ row. rw (other, failed) refl))
      | inr neither ↦
          rw (other, neither, if◌then◌else◌)
            (sym (map_ext (λ row. rw (other, neither) refl) rows ∙ map_id_lem rows))
    ]
  ]

  reported-map :
      (items : List DeliveryResultItemSpec) (rows : List TaskItem)
      → reported tasks message task rows items ≡ map (settled items) rows
  reported-map [] rows = sym (map_id_lem rows)
  reported-map (item ∷ items) rows = rw (report-map item rows) (
      reported-map items (map (row_after item) rows)
      ∙ map_twice (settled items) (row_after item) rows)

  -- The rows after the second time are those after the first.
  pub reported-twice :
      (items : List DeliveryResultItemSpec) (rows : List TaskItem)
      → reported tasks message task (reported tasks message task rows items) items
        ≡ reported tasks message task rows items
  reported-twice items rows = rw (reported-map items rows) (
      reported-map items (map (settled items) rows)
      ∙ map_twice (settled items) (settled items) rows
      ∙ map_ext (settled-twice items) rows)
