-- ===== src/Store/Recording/Ending.antt =====
-- Every way in which `record_uploaded_item` of control-plane/app/repos/workspace_repo.py ends.
use multi_tenant_file_delive.Prelude.{
  ℕ, suc, ◌≡◌, refl, ap, ◌∙◌, ◌⊎◌, true, false, ◌||◌, Option, none, some, [], ◌==◌, string_eq,
  text_eq, any, find, Bool-cases, inl, inr, if◌then◌else◌,
}
use multi_tenant_file_delive.Text.{Text, strip}
use multi_tenant_file_delive.Store.Rows.{Task, TaskItem, Workspace, PhysicalObject, WorkspaceObject}
use multi_tenant_file_delive.Store.Session.{Session, Result, ok, err, integrity_error, ◌>>=◌, pure}
use multi_tenant_file_delive.Store.Workspaces.{
  WorkspaceResultReceipt, WorkspaceObjectRecord, WorkspaceObjectWriteResult, record_uploaded_item,
  get_object_by_task_item, get_workspace_by_target_key, insert_object, in_workspace,
  unless_existing, with_key, records,
}
use multi_tenant_file_delive.Store.Recording.{
  with_object, target_workspace, IsObjectOf, is_keyless, any-neither,
}

module _ (task : Task) (item : TaskItem) (receipt : WorkspaceResultReceipt) (bucket : Text)
    (uploaded_at : Option ℕ) (s : Session) where
  -- The record of the item's object.
  abbrev pub object_there : Option WorkspaceObjectRecord
  object_there = find (λ r. r.workspace_object.task_item_id == item.id) (records s.db)

  -- One of the two ids that are drawn is taken, or a row without its bytes or its workspace is there
  -- for the item.
  abbrev pub Clash : Type 0
  Clash =
      (any (λ p. p.id == s.ids s.drawn) s.db.physical_objects ≡ true)
      ⊎ (any (λ o. o.id == s.ids (suc s.drawn) || o.task_item_id == item.id) s.db.workspace_objects
          ≡ true)

  abbrev Out : Type 0
  Out = Result (Option WorkspaceObjectWriteResult) × Session

  -- The five ways, each with what leads to it.
  pub data Ending (out : Out) : Type 0 where
    keyless : is_keyless receipt.key ≡ true → out ≡ (ok none, s) → Ending out
    existing :
        (r : WorkspaceObjectRecord)
        → is_keyless receipt.key ≡ false
        → object_there ≡ some r
        → out ≡ (ok (some (record { object = r; created = false })), s)
        → Ending out
    nowhere :
        is_keyless receipt.key ≡ false
        → object_there ≡ none
        → ((strip item.target_name_matched == []) ≡ true) ⊎ (target_workspace task item s.db ≡ none)
        → out ≡ (ok none, s)
        → Ending out
    created :
        (w : Workspace) (p : PhysicalObject) (o : WorkspaceObject)
        → is_keyless receipt.key ≡ false
        → object_there ≡ none
        → (strip item.target_name_matched == []) ≡ false
        → IsObjectOf task item receipt bucket s.db w p o
        → out.0
          ≡ ok (
              some (record {
                object = record { workspace_object = o; physical_object = p; workspace = w };
                created = true;
              }))
        → out.1.db ≡ with_object p o s.db
        → Ending out
    clashed :
        (w : Workspace)
        → is_keyless receipt.key ≡ false
        → object_there ≡ none
        → (strip item.target_name_matched == []) ≡ false
        → target_workspace task item s.db ≡ some w
        → Clash
        → out.0 ≡ err integrity_error
        → Ending out

  insert_object-Ending :
      (key : Text) (w : Workspace)
      → receipt.key ≡ some key
      → is_keyless receipt.key ≡ false
      → object_there ≡ none
      → (strip item.target_name_matched == []) ≡ false
      → target_workspace task item s.db ≡ some w
      → Ending (insert_object task item receipt key bucket uploaded_at w s)
  unfolding insert_object ◌>>=◌
  insert_object-Ending key w keyed has_key new named here =
      elim (Bool-cases (any (λ p. p.id == s.ids s.drawn) s.db.physical_objects)) [
        | inl taken ↦ rw taken (clashed w has_key new named here (inl taken) refl)
        | inr free ↦
            elim (Bool-cases (
              any (λ o. o.id == s.ids (suc s.drawn) || o.task_item_id == item.id)
                s.db.workspace_objects)) [
                  | inl clash ↦ rw (free, clash) (clashed w has_key new named here (inr clash) refl)
                  | inr fresh ↦
                      let (no_object, no_item) = any-neither _ _ s.db.workspace_objects fresh in
                      rw (free, fresh)
                        (created w _ _ has_key new named
                          record {
                            workspace = here;
                            stands_in = refl;
                            refers_to = refl;
                            of_item = refl;
                            of_task = refl;
                            owner = refl;
                            place = refl;
                            key = keyed;
                            new_item = no_item;
                            new_object = no_object;
                            new_bytes = free;
                          }
                          refl refl)
                ]
      ]

  in_workspace-Ending :
      (key : Text) (found : Option Workspace)
      → receipt.key ≡ some key
      → is_keyless receipt.key ≡ false
      → object_there ≡ none
      → (strip item.target_name_matched == []) ≡ false
      → target_workspace task item s.db ≡ found
      → Ending (in_workspace task item receipt key bucket uploaded_at found s)
  unfolding in_workspace pure
  in_workspace-Ending key none keyed has_key new named here = nowhere has_key new (inr here) refl
  in_workspace-Ending key (some w) keyed has_key new named here =
      insert_object-Ending key w keyed has_key new named here

  unless_existing-Ending :
      (key : Text) (found : Option WorkspaceObjectRecord)
      → receipt.key ≡ some key
      → is_keyless receipt.key ≡ false
      → object_there ≡ found
      → Ending (unless_existing task item receipt key bucket uploaded_at found s)
  unfolding unless_existing get_workspace_by_target_key ◌>>=◌
  unless_existing-Ending key (some r) keyed has_key there = existing r has_key there refl
  unless_existing-Ending key none keyed has_key new =
      elim (Bool-cases (strip item.target_name_matched == [])) [
        | inl blank ↦ rw (blank, if◌then◌else◌) (nowhere has_key new (inl blank) refl)
        | inr named ↦
            rw (named, if◌then◌else◌) (in_workspace-Ending key _ keyed has_key new named refl)
      ]

  with_key-Ending :
      (key : Option Text)
      → receipt.key ≡ key
      → Ending (with_key task item receipt bucket uploaded_at key s)
  unfolding with_key get_object_by_task_item ◌>>=◌
  with_key-Ending none keyed = keyless (ap is_keyless keyed) refl
  with_key-Ending (some key) keyed = elim (Bool-cases (key == [])) [
    | inl blank ↦ rw (blank, if◌then◌else◌) (keyless (ap is_keyless keyed ∙ blank) refl)
    | inr named ↦
        rw (named, if◌then◌else◌)
          (unless_existing-Ending key _ keyed (ap is_keyless keyed ∙ named) refl)
  ]

  -- Recording an uploaded item ends in one of five ways, told apart by what is there before.
  -- Without a key nothing happens. With one, an object that the item has is returned and nothing
  -- changes; an item without one whose target is blank, or names no workspace of the task's
  -- tenant, changes nothing; and where there is such a workspace, the item gets an object in it
  -- that refers to new bytes of that tenant, unless one of the two ids is taken or a row of the
  -- item is there that no record shows: then, and only then, it raises, an integrity error.
  pub record_uploaded_item-Ending :
      Ending (record_uploaded_item task item receipt bucket uploaded_at s)
  unfolding record_uploaded_item
  record_uploaded_item-Ending = with_key-Ending receipt.key refl
