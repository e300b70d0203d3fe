-- ===== src/Store/Creating.antt =====
-- What the creation of a task leaves, and who holds a key: control-plane/app/repos/task_repo.py.
use multi_tenant_file_delive.Prelude.{
  String, ◌≡◌, refl, Bool, true, false, ◌&&◌, Option, none, some, List, [], ◌∷◌, ◌++◌, arith, keep,
  any, ◌==◌, text_eq, string_eq, Bool-cases, inl, inr, find, update_where,
}
use multi_tenant_file_delive.Text.{Text}
use multi_tenant_file_delive.Store.Rows.{Task, Database}
use multi_tenant_file_delive.Store.Session.{Session, Action, ◌>>=◌}
use multi_tenant_file_delive.Store.Ensures.{Ensures, with_db, with_drawn}
use multi_tenant_file_delive.Store.Tasks

module _ {A : Type 0} where
  pub update_where-snoc :
      (p : A → Bool) (f : A → A) (xs : List A) (x : A)
      → any p xs ≡ false
      → p x ≡ true
      → update_where p f (xs ++ x ∷ []) ≡ xs ++ f x ∷ []
  update_where-snoc p f [] x h hit = rw hit refl
  update_where-snoc p f (y ∷ xs) x h hit = elim (Bool-cases (p y)) [
    | inl other ↦ absurd (ground arith)
    | inr miss ↦ rw (miss, update_where-snoc p f xs x (ground arith) hit) refl
  ]

  pub find-snoc :
      (p : A → Bool) (xs : List A) (x : A)
      → any p xs ≡ false
      → p x ≡ true
      → find p (xs ++ x ∷ []) ≡ some x
  find-snoc p [] x h hit = rw hit refl
  find-snoc p (y ∷ xs) x h hit = ground (arith, find-snoc p xs x)

-- The row that `create` adds in a session.
abbrev pub task_in : Session → String → Text → String → String → String → String → Task
task_in s key label created_by tenant user status = record {
  id = s.ids s.drawn;
  status = status;
  idempotency_key = key;
  owner_tenant_id = tenant;
  owner_user_id = user;
  submission_label = label;
  temp_dir = [];
  summary_json = none;
  created_by = created_by;
  created_at = s.now;
  confirmed_at = none;
  finished_at = none;
}

abbrev pub add_task : Task → Database → Database
add_task t db = record db { tasks = db.tasks ++ t ∷ [] }

-- The rows of a tenant that have the key.
abbrev pub holders : String → Option String → Database → List Task
holders key tenant db = keep (λ t. t.idempotency_key == key && Tasks.owned_by tenant t) db.tasks

module _ {B : Type 0} {s : Session} {Q : B → Session → Type 0} where
  pub ensures-create :
      (key : String) (label : Text) (created_by tenant user status : String) (f : Task → Action B)
      → (any (Tasks.clashes (task_in s key label created_by tenant user status)) s.db.tasks ≡ false
          → Ensures
              (f (task_in s key label created_by tenant user status))
              (with_db
                (add_task (task_in s key label created_by tenant user status))
                (with_drawn s))
              Q)
      → Ensures (Tasks.create key label created_by tenant user status >>= f) s Q
  unfolding Tasks.create ◌>>=◌
  ensures-create key label created_by tenant user status f h =
      elim (Bool-cases
        (any (Tasks.clashes (task_in s key label created_by tenant user status)) s.db.tasks)) [
          | inl taken ↦ record { post = rw taken tt }
          | inr fresh ↦ record { post = rw fresh (h fresh).post }
        ]

  pub ensures-get_by_idempotency_key :
      (key : String) (tenant : Option String) (f : Option Task → Action B)
      → (holders key tenant s.db ≡ [] → Ensures (f none) s Q)
      → ((t : Task) → holders key tenant s.db ≡ t ∷ [] → Ensures (f (some t)) s Q)
      → Ensures (Tasks.get_by_idempotency_key key tenant >>= f) s Q
  unfolding Tasks.get_by_idempotency_key Tasks.one_or_none ◌>>=◌
  ensures-get_by_idempotency_key key tenant f new old = rows (holders key tenant s.db) refl
    where
      rows :
          (found : List Task)
          → holders key tenant s.db ≡ found
          → Ensures (Tasks.get_by_idempotency_key key tenant >>= f) s Q
      rows [] e = record { post = rw (e, Tasks.one_or_none) (new e).post }
      rows (t ∷ []) e = record { post = rw (e, Tasks.one_or_none) (old t e).post }
      rows (t ∷ u ∷ ts) e = record { post = rw (e, Tasks.one_or_none) tt }
