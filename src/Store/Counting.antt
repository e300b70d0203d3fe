-- ===== src/Store/Counting.antt =====
-- What `count_by_status` of control-plane/app/repos/item_repo.py counts.
use multi_tenant_file_delive.Prelude.{
  ℕ, suc, String, ◌≡◌, refl, ◌∙◌, Bool, true, false, ◌&&◌, Option, List, [], ◌∷◌, ◌==◌, string_eq,
  keep, count_p, count_p-keep, Bool-cases, inl, inr, if◌then◌else◌,
}
use multi_tenant_file_delive.Store.Rows.{TaskItem}
use multi_tenant_file_delive.Store.Session.{Session, ok, reads}
use multi_tenant_file_delive.Store.Items.{add_status, group_statuses, count_by_status, listed}

-- `counts.get(status, 0)`
abbrev count_of : String → List (String × ℕ) → ℕ
count_of status [] = 0
count_of status ((key, n) ∷ counts) = if key == status then n else count_of status counts

abbrev has_status : String → TaskItem → Bool
has_status status i = i.upload_status == status

count_of-add_status :
    (status new : String) (counts : List (String × ℕ))
    → count_of status (add_status new counts)
      ≡ (if new == status then suc (count_of status counts) else count_of status counts)
unfolding add_status
count_of-add_status status new [] = refl
count_of-add_status status new ((key, n) ∷ counts) = elim (Bool-cases (key == new)) [
  | inl same ↦
      let equal = (string_eq.equal_iff key new).0 same in
      elim (Bool-cases (new == status)) [
        | inl mine ↦ rw (same, equal, mine) refl
        | inr other ↦ rw (same, equal, other) refl
      ]
  | inr differs ↦ elim (Bool-cases (key == status)) [
    | inr other ↦ rw (differs, other) (count_of-add_status status new counts)
    | inl mine ↦ let apart = not_same key new status mine differs in rw (differs, mine, apart) refl
  ]
]
  where
    not_same :
        (key new status : String)
        → (key == status) ≡ true
        → (key == new) ≡ false
        → (new == status) ≡ false
    not_same key new status mine differs = elim (Bool-cases (new == status)) [
      | inr apart ↦ apart
      | inl same ↦ absurd (cc ((string_eq.equal_iff new status).0 same, mine, differs))
    ]

count_of-group_statuses :
    (status : String) (items : List TaskItem)
    → count_of status (group_statuses items) ≡ count_p (has_status status) items
unfolding group_statuses
count_of-group_statuses status [] = refl
count_of-group_statuses status (i ∷ items) =
    count_of-add_status status i.upload_status (group_statuses items)
    ∙ rw (count_of-group_statuses status items) refl

-- For each status the answer has the number of items of the task with it, in the tenant, and nothing
-- changes.
count_by_status-counts :
    (task_id : String) (tenant : Option String) (s : Session)
    → (counts : List (String × ℕ)) × (count_by_status task_id tenant s ≡ (ok counts, s))
      × ((status : String)
          → count_of status counts
            ≡ count_p (λ i. listed s.db.tasks task_id tenant i && has_status status i) s.db.items)
unfolding count_by_status reads
count_by_status-counts task_id tenant s = (
  group_statuses (keep (listed s.db.tasks task_id tenant) s.db.items),
  refl,
  λ status.
      count_of-group_statuses status (keep (listed s.db.tasks task_id tenant) s.db.items)
      ∙ count_p-keep (has_status status) (listed s.db.tasks task_id tenant) s.db.items,
)
