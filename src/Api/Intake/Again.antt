-- ===== src/Api/Intake/Again.antt =====
-- A request for a new task that is sent twice: `create_task` of control-plane/app/api/tasks.py.

use multi_tenant_file_delive.Prelude.{
  ℕ, String, ◌≡◌, refl, sym, ap, ◌∙◌, Bool, ◌&&◌, Option, none, some, List, [], ◌∷◌, ◌++◌, keep,
  map, ◌==◌, ==_refl, string_eq, inl, inr, Bool-cases,
}
use multi_tenant_file_delive.Text.{Text}
use multi_tenant_file_delive.Store.Rows.{Task, Database}
use multi_tenant_file_delive.Store.Session.{Session, ok, ◌>>=◌}
use multi_tenant_file_delive.Store.Ensures.{Ensures, ensures-weaken}
use multi_tenant_file_delive.Store.Tasks
use multi_tenant_file_delive.Store.Creating.{holders}
use multi_tenant_file_delive.Auth.{CurrentActor}
use multi_tenant_file_delive.Api.Intake.Folder.{UploadFile, Entry, IntakeSettings}
use multi_tenant_file_delive.Api.Intake.Creating.{placed, create_claimed-cases}
use multi_tenant_file_delive.Api.Intake.{Created, create_claimed, existing_or_new}

module _ {A : Type 0} where
  keep-append : (p : A → Bool) (xs ys : List A) → keep p (xs ++ ys) ≡ keep p xs ++ keep p ys
  keep-append p [] ys = refl
  keep-append p (x ∷ xs) ys = elim (Bool-cases (p x)) [
    | inl kept ↦ rw (kept, keep-append p xs ys) refl
    | inr dropped ↦ rw (dropped, keep-append p xs ys) refl
  ]

-- The answer that names a task that is there.
abbrev pub known_answer : String → String → Created
known_answer task_id status = record {
  status_code = 200;
  task_id = task_id;
  status = status;
  archive = none;
  files = [];
}

-- One task of the tenant has the key.
one_holder :
    (packed : List Entry → ℕ) (settings : IntakeSettings) (actor : CurrentActor) (key : String)
    (files : List UploadFile) (submission_label : Option Text) (u : Session) (t : Task)
    → holders key (some actor.tenant_id) u.db ≡ t ∷ []
    → create_claimed packed settings actor key files submission_label u
      ≡ (ok (known_answer t.id t.status), u)
unfolding create_claimed existing_or_new Tasks.get_by_idempotency_key Tasks.one_or_none ◌>>=◌
one_holder packed settings actor key files submission_label u t claimed =
    rw (claimed, Tasks.one_or_none) refl

holders-snoc :
    (actor : CurrentActor) (key : String) (db : Database) (t : Task)
    → holders key (some actor.tenant_id) db ≡ []
    → t.idempotency_key ≡ key
    → t.owner_tenant_id ≡ actor.tenant_id
    → keep
        (λ u. u.idempotency_key == key && Tasks.owned_by (some actor.tenant_id) u)
        (db.tasks ++ t ∷ [])
      ≡ t ∷ []
holders-snoc actor key db t none_yet same_key same_tenant =
    keep-append _ db.tasks (t ∷ [])
    ∙ rw (none_yet, same_key, same_tenant, ==_refl key, ==_refl actor.tenant_id) refl

abbrev ids_of : List Task → List String
ids_of tasks = map (λ t. t.id) tasks

-- The one task with an id, in a list that has no other.
only_one :
    (tasks : List Task) (id : String)
    → ids_of tasks ≡ id ∷ []
    → (t : Task) × (tasks ≡ t ∷ []) × (t.id ≡ id)
only_one [] id h = absurd (cc)
only_one (t ∷ []) id h = (t, refl, cc)
only_one (t ∷ v ∷ tasks) id h = absurd (cc)

-- The answer of a request that finds the tenant's task, as it is then.
abbrev pub AnswersKnown :
    (List Entry → ℕ)
    → IntakeSettings
    → CurrentActor
    → String
    → List UploadFile
    → Option Text
    → String
    → Session
    → Type 0
AnswersKnown packed settings actor key files submission_label task_id v =
    (t : Task) × (holders key (some actor.tenant_id) v.db ≡ t ∷ [])
    × (t.id ≡ task_id)
    × (create_claimed packed settings actor key files submission_label v
        ≡ (ok (known_answer task_id t.status), v))

later_answer :
    (packed : List Entry → ℕ) (settings : IntakeSettings) (actor : CurrentActor) (key : String)
    (files : List UploadFile) (submission_label : Option Text) (v : Session) (id : String)
    → ids_of (holders key (some actor.tenant_id) v.db) ≡ id ∷ []
    → AnswersKnown packed settings actor key files submission_label id v
later_answer packed settings actor key files submission_label v id same =
    let (t, there, named) = only_one (holders key (some actor.tenant_id) v.db) id same in
    (
      t,
      there,
      named,
      one_holder packed settings actor key files submission_label v t there
          ∙ ap (λ (i : String). (ok (known_answer i t.status), v)) named,
    )

-- Once a request with a key has succeeded, a request of the same tenant with that key, whatever
-- files it brings, succeeds in every later session in which the tasks that the tenant has under
-- the key are still the same by their ids, whatever else other requests did in between: it
-- answers that task, with the status that it has then, writes no file and changes nothing.
pub create_claimed-again :
    (packed : List Entry → ℕ) (settings : IntakeSettings) (actor other : CurrentActor)
    (key : String) (files more_files : List UploadFile) (submission_label other_label : Option Text)
    (s : Session)
    → other.tenant_id ≡ actor.tenant_id
    → Ensures (create_claimed packed settings actor key files submission_label) s (λ answer u.
      (v : Session)
      → map (λ t. t.id) (holders key (some other.tenant_id) v.db)
        ≡ map (λ t. t.id) (holders key (some other.tenant_id) u.db)
      → AnswersKnown packed settings other key more_files other_label answer.task_id v)
create_claimed-again packed settings actor other key files more_files submission_label other_label s
      same_tenant =
    ensures-weaken _ _ (create_claimed-cases settings actor key packed files submission_label s)
      (λ answer u outcome v kept. elim outcome [
        | inl (t, known) ↦
            let claimed =
              ap (λ (tenant : String). holders key (some tenant) u.db) same_tenant
              ∙ (ap (λ (v : Session). holders key (some actor.tenant_id) v.db) known.same
                  ∙ known.claimed) in
            later_answer packed settings other key more_files other_label v answer.task_id
              (kept ∙ ap ids_of claimed ∙ ap (λ (a : Created). a.task_id ∷ []) (sym known.answered))
        | inr (prepared, entries, new) ↦
            let row = placed settings actor key s prepared.label in
            let claimed =
              ap (λ (tenant : String). holders key (some tenant) u.db) same_tenant
              ∙ (ap (λ (db : Database). holders key (some actor.tenant_id) db) new.after
                  ∙ holders-snoc actor key s.db row new.unclaimed refl refl) in
            later_answer packed settings other key more_files other_label v answer.task_id
              (kept ∙ ap ids_of claimed ∙ ap (λ (i : String). i ∷ []) (sym new.id))
      ])
