-- ===== src/Runner/Counts.antt =====
-- What the groups answer, counted: `_run_task_inner` of control-plane/app/services/task_runner.py.
use multi_tenant_file_delive.Prelude.{
  ℕ, ◌+◌, ◌≡◌, refl, Bool, List, [], ◌∷◌, ◌++◌, map, arith, ◌==◌, text_eq, count_p, count_p-append,
  Bool-cases, inl, inr, nat_eq,
}
use multi_tenant_file_delive.Text.{Text}
use multi_tenant_file_delive.Store.Rows.{TaskItem}
use multi_tenant_file_delive.Runner.{add_to_group, group_items, results_of, group_of}

module _ (p : Bool → Bool) (answer : TaskItem → Bool) where
  abbrev counted : TaskItem → Bool
  counted x = p (answer x)

  count_p-map : (xs : List TaskItem) → count_p p (map answer xs) ≡ count_p counted xs
  count_p-map [] = refl
  count_p-map (x ∷ xs) = ground (arith, count_p-map xs)

  abbrev group_count : List (Text × List TaskItem) → ℕ
  group_count groups = count_p p (results_of answer groups)

  one_more :
      (item : TaskItem) (groups : List (Text × List TaskItem))
      → group_count (add_to_group item groups) ≡ count_p counted (item ∷ []) + group_count groups
  unfolding add_to_group results_of
  one_more item [] = omega arith
  one_more item ((target, items) ∷ groups) = elim (Bool-cases (target == group_of item)) [
    | inl same ↦ rw same (
        omega (
          arith,
          count_p-append p (map answer (items ++ item ∷ [])) (results_of answer groups),
          count_p-map (items ++ item ∷ []),
          count_p-append counted items (item ∷ []),
          count_p-append p (map answer items) (results_of answer groups),
          count_p-map items,
        ))
    | inr differs ↦ rw differs (
        omega (
          arith,
          count_p-append p (map answer items) (results_of answer (add_to_group item groups)),
          count_p-append p (map answer items) (results_of answer groups),
          one_more item groups,
        ))
  ]

  count_p-groups :
      (items : List TaskItem) (groups : List (Text × List TaskItem))
      → group_count (group_items items groups) ≡ count_p counted items + group_count groups
  unfolding group_items
  count_p-groups [] groups = omega arith
  count_p-groups (x ∷ items) groups =
      ground (arith, count_p-groups items (add_to_group x groups), one_more x groups)

  -- Grouping by target changes no count.
  pub count_p-grouped :
      (items : List TaskItem)
      → count_p p (results_of answer (group_items items [])) ≡ count_p (λ x. p (answer x)) items
  unfolding results_of
  count_p-grouped items = omega (arith, count_p-groups items [])
