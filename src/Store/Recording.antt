-- ===== src/Store/Recording.antt =====
-- What `record_uploaded_item` of control-plane/app/repos/workspace_repo.py leaves in the tables.
pub mod Again
pub mod Ending
use multi_tenant_file_delive.Prelude.{
  ℕ, String, ◌≡◌, refl, ap, ◌∙◌, ◌⊎◌, Bool, true, false, ◌||◌, ◌&&◌, Option, none, some, List, [],
  ◌∷◌, ◌++◌, ◌==◌, string_eq, text_eq, any, find, Bool-cases, Option-cases, inl, inr, if◌then◌else◌,
  arith,
}
use multi_tenant_file_delive.Text.{Text, strip}
use multi_tenant_file_delive.Store.Rows.{
  Task, TaskItem, Workspace, PhysicalObject, WorkspaceObject, Database,
}
use multi_tenant_file_delive.Store.Session.{Session, Action, ◌>>=◌}
use multi_tenant_file_delive.Store.Ensures.{
  Ensures, ensures-pure, ensures-reads, ensures-raise_if, ensures-writes, ensures-gen_id,
  ensures-clock,
}
use multi_tenant_file_delive.Store.Workspaces.{
  WorkspaceResultReceipt, WorkspaceObjectRecord, WorkspaceObjectWriteResult, record_uploaded_item,
  get_object_by_task_item, get_workspace_by_target_key, insert_object, in_workspace,
  unless_existing, with_key, records,
}

-- The database with one physical object and one workspace object more.
abbrev pub with_object : PhysicalObject → WorkspaceObject → Database → Database
with_object p o db = record db {
  physical_objects = db.physical_objects ++ p ∷ [];
  workspace_objects = db.workspace_objects ++ o ∷ [];
}

-- The workspace of the task's tenant that the item's target names.
abbrev pub target_workspace : Task → TaskItem → Database → Option Workspace
target_workspace task item db =
    find
      (λ w.
        w.owner_tenant_id == task.owner_tenant_id && w.target_key == strip item.target_name_matched)
      db.workspaces

-- The object is the one of the item: it refers to the new bytes, which belong to the tenant of the
-- task, and stands in the workspace of that tenant which the item's target names; neither an object
-- of the item nor bytes or an object with these ids were there.
pub record IsObjectOf (task : Task) (item : TaskItem) (receipt : WorkspaceResultReceipt)
    (bucket : Text) (db : Database) (w : Workspace) (p : PhysicalObject) (o : WorkspaceObject)
    : Type 0 where
  pub workspace : target_workspace task item db ≡ some w
  pub stands_in : o.workspace_id ≡ w.id
  pub refers_to : o.physical_object_id ≡ p.id
  pub of_item : o.task_item_id ≡ item.id
  pub of_task : o.task_id ≡ task.id
  pub owner : p.owner_tenant_id ≡ task.owner_tenant_id
  pub place : p.bucket ≡ bucket
  pub key : receipt.key ≡ some p.object_key
  pub new_item : any (λ o. o.task_item_id == item.id) db.workspace_objects ≡ false
  pub new_object : any (λ x. x.id == o.id) db.workspace_objects ≡ false
  pub new_bytes : any (λ x. x.id == p.id) db.physical_objects ≡ false

-- No key, or an empty one.
abbrev pub is_keyless : Option Text → Bool
is_keyless none = true
is_keyless (some key) = key == []

-- Three ways to end: nothing to record, an object that is there already, a new object.
pub data Recorded (task : Task) (item : TaskItem) (receipt : WorkspaceResultReceipt) (bucket : Text)
    : Database → Option WorkspaceObjectWriteResult → Database → Type 0 where
  unrecorded :
      {db : Database}
      → (is_keyless receipt.key ≡ true)
        ⊎ ((strip item.target_name_matched == []) ≡ true)
        ⊎ (target_workspace task item db ≡ none)
      → Recorded task item receipt bucket db none db
  existing :
      {db : Database} (r : WorkspaceObjectRecord)
      → find (λ r. r.workspace_object.task_item_id == item.id) (records db) ≡ some r
      → Recorded task item receipt bucket db (some (record { object = r; created = false })) db
  created :
      {db : Database} (w : Workspace) (p : PhysicalObject) (o : WorkspaceObject)
      → IsObjectOf task item receipt bucket db w p o
      → Recorded task item receipt bucket db
          (some (record {
            object = record { workspace_object = o; physical_object = p; workspace = w };
            created = true;
          }))
          (with_object p o db)

any-or :
    {A : Type 0} (p q : A → Bool) (xs : List A) → any (λ x. p x || q x) xs ≡ (any p xs || any q xs)
any-or p q [] = refl
any-or p q (x ∷ xs) = ground (arith, any-or p q xs)

-- A disjunction that no element passes is two tests that none passes.
any-neither :
    {A : Type 0} (p q : A → Bool) (xs : List A)
    → any (λ x. p x || q x) xs ≡ false
    → (any p xs ≡ false) × (any q xs ≡ false)
any-neither p q xs h = ground (arith, any-or p q xs)

module _ (task : Task) (item : TaskItem) (receipt : WorkspaceResultReceipt) (bucket : Text)
    (uploaded_at : Option ℕ) (s : Session) where
  abbrev pub Records : Option WorkspaceObjectWriteResult → Session → Type 0
  Records r t = Recorded task item receipt bucket s.db r t.db

  insert_object-Recorded :
      (key : Text) (w : Workspace)
      → receipt.key ≡ some key
      → target_workspace task item s.db ≡ some w
      → Ensures (insert_object task item receipt key bucket uploaded_at w) s Records
  unfolding insert_object
  insert_object-Recorded key w keyed here = ensures-gen_id _ (
      ensures-clock _ (
        ensures-reads _ _ (
          ensures-raise_if _ _ _ λ fresh. ensures-writes _ _ (
            ensures-gen_id _ (
              ensures-reads _ _ (
                ensures-raise_if _ _ _ λ free. ensures-writes _ _ (
                  ensures-pure _ (
                    let (no_object, no_item) = any-neither _ _ s.db.workspace_objects free in
                    created w _ _ record {
                      workspace = here;
                      stands_in = refl;
                      refers_to = refl;
                      of_item = refl;
                      of_task = refl;
                      owner = refl;
                      place = refl;
                      key = keyed;
                      new_item = no_item;
                      new_object = no_object;
                      new_bytes = fresh;
                    }))))))))

  in_workspace-Recorded :
      (key : Text) (found : Option Workspace)
      → receipt.key ≡ some key
      → target_workspace task item s.db ≡ found
      → Ensures (in_workspace task item receipt key bucket uploaded_at found) s Records
  unfolding in_workspace
  in_workspace-Recorded key none keyed here = ensures-pure none (unrecorded (inr (inr here)))
  in_workspace-Recorded key (some w) keyed here = insert_object-Recorded key w keyed here

  unless_existing-Recorded :
      (key : Text) (found : Option WorkspaceObjectRecord)
      → receipt.key ≡ some key
      → find (λ r. r.workspace_object.task_item_id == item.id) (records s.db) ≡ found
      → Ensures (unless_existing task item receipt key bucket uploaded_at found) s Records
  unfolding unless_existing get_workspace_by_target_key
  unless_existing-Recorded key (some r) keyed here = ensures-pure _ (existing r here)
  unless_existing-Recorded key none keyed here =
      elim (Bool-cases (strip item.target_name_matched == [])) [
        | inl blank ↦ rw (blank, if◌then◌else◌) (ensures-pure none (unrecorded (inr (inl blank))))
        | inr named ↦
            rw (named, if◌then◌else◌) (ensures-reads _ _ (in_workspace-Recorded key _ keyed refl))
      ]

  with_key-Recorded :
      (key : Option Text)
      → receipt.key ≡ key
      → Ensures (with_key task item receipt bucket uploaded_at key) s Records
  unfolding with_key get_object_by_task_item
  with_key-Recorded none keyed = ensures-pure none (unrecorded (inl (ap is_keyless keyed)))
  with_key-Recorded (some key) keyed = elim (Bool-cases (key == [])) [
    | inl blank ↦
        rw (blank, if◌then◌else◌)
          (ensures-pure none (unrecorded (inl (ap is_keyless keyed ∙ blank))))
    | inr named ↦
        rw (named, if◌then◌else◌) (ensures-reads _ _ (unless_existing-Recorded key _ keyed refl))
  ]

  -- Recording an uploaded item either changes nothing, where no key was reported, no workspace of
  -- the task's tenant has the item's target, or the item has an object already, which is returned;
  -- or it adds the item's only object, in the workspace of the tenant that its target names.
  pub record_uploaded_item-Recorded :
      Ensures (record_uploaded_item task item receipt bucket uploaded_at) s Records
  unfolding record_uploaded_item
  record_uploaded_item-Recorded = with_key-Recorded receipt.key refl
