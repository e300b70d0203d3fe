-- ===== src/Runner/Moves.antt =====
-- What the writes of the uploads make of the rows, in whatever order they come: `_upload_item` of
-- control-plane/app/services/task_runner.py.
use multi_tenant_file_delive.Prelude.{
  ℕ, String, ◌≡◌, refl, ap, ◌∙◌, Bool, true, false, Option, none, some, List, [], ◌∷◌, ◌==◌,
  string_eq, any, All, Bool-cases, Option-cases, inl, inr, if◌then◌else◌, if_rule,
}
use multi_tenant_file_delive.Text.{Text, take}
use multi_tenant_file_delive.Store.Rows.{TaskItem}
use multi_tenant_file_delive.Store.Items
use multi_tenant_file_delive.Runner.{Move, starts, finishes}

module _ (attempt : TaskItem → Option Text) (now : ℕ) where
  abbrev pub settled_by : Option Text → TaskItem → TaskItem
  settled_by none row = Items.with_upload "uploaded" [] (some now) row
  settled_by (some error) row = Items.with_upload "failed" (take 1000 error) none row

  -- The row of an item whose upload has ended.
  abbrev pub settled : TaskItem → TaskItem → TaskItem
  settled x = settled_by (attempt x)

  abbrev pub row_after : Move → TaskItem → TaskItem
  row_after (starts x) row =
      if row.id == x.id then Items.with_upload "uploading" [] none row else row
  row_after (finishes x) row = if row.id == x.id then settled x row else row

  abbrev pub rows_after : List Move → TaskItem → TaskItem
  rows_after [] row = row
  rows_after (m ∷ moves) row = rows_after moves (row_after m row)

  abbrev pub item_of : Move → TaskItem
  item_of (starts x) = x
  item_of (finishes x) = x

  abbrev pub or_this : Option Move → Bool → Move → Option Move
  or_this (some later) mine m = some later
  or_this none true m = some m
  or_this none false m = none

  -- The last write for an id.
  abbrev pub last_move : String → List Move → Option Move
  last_move id [] = none
  last_move id (m ∷ moves) = or_this (last_move id moves) (id == (item_of m).id) m

  settled_by-id : (o : Option Text) (row : TaskItem) → (settled_by o row).id ≡ row.id
  settled_by-id none row = refl
  settled_by-id (some error) row = refl

  row_after-id : (m : Move) (row : TaskItem) → (row_after m row).id ≡ row.id
  row_after-id (starts x) row = if_rule (λ (r : TaskItem). r.id ≡ row.id) (row.id == x.id) refl refl
  row_after-id (finishes x) row =
      if_rule (λ (r : TaskItem). r.id ≡ row.id) (row.id == x.id) (settled_by-id (attempt x) row)
        refl

  settled_by-twice :
      (o p : Option Text) (row : TaskItem) → settled_by o (settled_by p row) ≡ settled_by o row
  settled_by-twice none none row = refl
  settled_by-twice none (some e) row = refl
  settled_by-twice (some e) none row = refl
  settled_by-twice (some e) (some f) row = refl

  settled_by-uploading :
      (o : Option Text) (row : TaskItem)
      → settled_by o (Items.with_upload "uploading" [] none row) ≡ settled_by o row
  settled_by-uploading none row = refl
  settled_by-uploading (some e) row = refl

  -- What an end writes hides what an earlier write left.
  settled-row_after :
      (x : TaskItem) (m : Move) (row : TaskItem) → settled x (row_after m row) ≡ settled x row
  settled-row_after x (starts y) row =
      if_rule (λ (r : TaskItem). settled x r ≡ settled x row) (row.id == y.id)
        (settled_by-uploading (attempt x) row) refl
  settled-row_after x (finishes y) row =
      if_rule (λ (r : TaskItem). settled x r ≡ settled x row) (row.id == y.id)
        (settled_by-twice (attempt x) (attempt y) row) refl

  -- A row that no write is about stays.
  rows_after-none :
      (moves : List Move) (row : TaskItem)
      → last_move row.id moves ≡ none
      → rows_after moves row ≡ row
  rows_after-none [] row h = refl
  rows_after-none (m ∷ moves) row h =
      let (none_later, not_mine) =
        or_this-none (last_move row.id moves) (row.id == (item_of m).id) m h in
      let same = row_after-other m row not_mine in
      ap (rows_after moves) same ∙ rows_after-none moves row none_later
    where
      or_this-none :
          (o : Option Move) (mine : Bool) (m : Move)
          → or_this o mine m ≡ none
          → (o ≡ none) × (mine ≡ false)
      or_this-none (some later) mine m h = absurd (cc)
      or_this-none none true m h = absurd (cc)
      or_this-none none false m h = (refl, refl)

      row_after-other :
          (m : Move) (row : TaskItem) → (row.id == (item_of m).id) ≡ false → row_after m row ≡ row
      row_after-other (starts x) row h = rw h refl
      row_after-other (finishes x) row h = rw h refl

  -- A row whose last write is the end of an upload shows that end.
  rows_after-finished :
      (moves : List Move) (row x : TaskItem)
      → last_move row.id moves ≡ some (finishes x)
      → rows_after moves row ≡ settled x row
  rows_after-finished [] row x h = absurd (cc)
  rows_after-finished (m ∷ moves) row x h = elim (Option-cases (last_move row.id moves)) [
    | inr (later, e) ↦
        rows_after-finished moves (row_after m row) x
          (ap (λ (id : String). last_move id moves) (row_after-id m row) ∙ (e ∙ (rw e at h)))
        ∙ settled-row_after x m row
    | inl nothing ↦
        let (mine, ends) = or_this-mine (row.id == (item_of m).id) m x (rw nothing at h) in
        rows_after-none moves (row_after m row)
          (ap (λ (id : String). last_move id moves) (row_after-id m row) ∙ nothing)
        ∙ row_after-mine m row x mine ends
  ]
    where
      or_this-mine :
          (mine : Bool) (m : Move) (x : TaskItem)
          → or_this none mine m ≡ some (finishes x)
          → (mine ≡ true) × (m ≡ finishes x)
      or_this-mine true m x h = (refl, cc)
      or_this-mine false m x h = absurd (cc)

      row_after-mine :
          (m : Move) (row x : TaskItem)
          → (row.id == (item_of m).id) ≡ true
          → m ≡ finishes x
          → row_after m row ≡ settled x row
      row_after-mine (starts y) row x mine ends = absurd (cc)
      row_after-mine (finishes y) row x mine ends =
          rw mine (ap (λ (z : TaskItem). settled z row) same)
        where
          same : y ≡ x
          same = cc

  -- The moves are those of the uploads: each is about one of the items, and the last about an item is
  -- its end.
  pub record IsSchedule (items : List TaskItem) (moves : List Move) : Type 0 where
    pub only : All (λ m. any (λ x. (item_of m).id == x.id) items ≡ true) moves
    pub ends : All (λ x. last_move x.id moves ≡ some (finishes x)) items

  -- What the uploads make of a row: that of the first item with its id.
  abbrev pub uploaded_row : List TaskItem → TaskItem → TaskItem
  uploaded_row [] row = row
  uploaded_row (x ∷ items) row = if row.id == x.id then settled x row else uploaded_row items row

  rows_after-ended :
      (items : List TaskItem) (moves : List Move) (row : TaskItem)
      → All (λ x. last_move x.id moves ≡ some (finishes x)) items
      → (any (λ x. row.id == x.id) items ≡ false → rows_after moves row ≡ row)
      → rows_after moves row ≡ uploaded_row items row
  rows_after-ended [] moves row ends other = other refl
  rows_after-ended (x ∷ items) moves row ends other = elim (Bool-cases (row.id == x.id)) [
    | inl mine ↦ rw mine (
        rows_after-finished moves row x (
          ap (λ (id : String). last_move id moves) ((string_eq.equal_iff row.id x.id).0 mine)
          ∙ ends.0))
    | inr differs ↦ rw differs (
        rows_after-ended items moves row ends.1 (λ none_left. other (rw (differs, none_left) refl)))
  ]

  last_move-none :
      (items : List TaskItem) (moves : List Move) (id : String)
      → All (λ m. any (λ x. (item_of m).id == x.id) items ≡ true) moves
      → any (λ x. id == x.id) items ≡ false
      → last_move id moves ≡ none
  last_move-none items [] id only unused = refl
  last_move-none items (m ∷ moves) id only unused =
      rw (last_move-none items moves id only.1 unused) (elim (Bool-cases (id == (item_of m).id)) [
        | inr differs ↦ rw differs refl
        | inl same ↦
            let p =
              ap (λ (i : String). any (λ x. i == x.id) items)
                ((string_eq.equal_iff id (item_of m).id).0 same) in
            absurd (cc (p, unused, only.0))
      ])

  -- In whatever order the uploads run, a row ends as the end of its upload says, and a row that is not
  -- uploaded stays.
  pub rows_after-schedule :
      (items : List TaskItem) (moves : List Move) (row : TaskItem)
      → IsSchedule items moves
      → rows_after moves row ≡ uploaded_row items row
  rows_after-schedule items moves row schedule =
      rows_after-ended items moves row schedule.ends (λ unused.
        rows_after-none moves row (last_move-none items moves row.id schedule.only unused))
