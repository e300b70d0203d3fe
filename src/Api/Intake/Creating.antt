-- ===== src/Api/Intake/Creating.antt =====
-- What a request for a new task finds and leaves: `create_task` of control-plane/app/api/tasks.py,
-- behind its claim.
use multi_tenant_file_delive.Prelude.{
  ℕ, String, ◌≡◌, refl, sym, ap, ◌∙◌, ◌⊎◌, true, false, Option, none, some, List, [], ◌∷◌, ◌++◌,
  arith, keep, any, ==_refl, text_eq, string_eq, inl, inr, find, update_where,
}
use multi_tenant_file_delive.Text.{Text, text}
use multi_tenant_file_delive.Paths.Normal.{join_path}
use multi_tenant_file_delive.Store.Rows.{Task, TaskEvent, chars}
use multi_tenant_file_delive.Store.Session.{Session}
use multi_tenant_file_delive.Store.Ensures.{
  Ensures, ensures-pure, ensures-bind, ensures-weaken, ensures-or_raise, ensures-raise_if,
  ensures-writes, ensures-commit, with_db, with_drawn, with_commit,
}
use multi_tenant_file_delive.Store.Steps.{event_of, add_event, ensures-append, ensures-get}
use multi_tenant_file_delive.Store.Tasks
use multi_tenant_file_delive.Store.Creating.{
  update_where-snoc, find-snoc, task_in, add_task, holders, ensures-create,
  ensures-get_by_idempotency_key,
}
use multi_tenant_file_delive.Auth.{CurrentActor, to_event_payload}
use multi_tenant_file_delive.Api.Intake.Folder.{UploadFile, Entry, IntakeSettings, PreparedArchive}
use multi_tenant_file_delive.Api.Intake.Extraction.{
  Totals, counted, validate_entries, validate_internal_archive_limits, extract_entries,
  extract_internal_archive, WrittenFile,
}
use multi_tenant_file_delive.Api.Intake.Names.{task_archive_path}
use multi_tenant_file_delive.Api.Intake.Bounds.{IsPacked, prepare_folder_upload-IsPacked}
use multi_tenant_file_delive.Api.Intake.{
  Created, with_temp_dir, create_new, existing_or_new, create_claimed, has_filename,
}

validate_entries-quiet :
    (settings : IntakeSettings) (entries : List Entry) (totals : Totals) (s : Session)
    → Ensures (validate_entries settings entries totals) s (λ x t. t ≡ s)
unfolding validate_entries
validate_entries-quiet settings [] totals s = ensures-pure tt refl
validate_entries-quiet settings (e ∷ entries) totals s = ensures-raise_if _ _ _ λ few.
    ensures-raise_if _ _ _ λ small. validate_entries-quiet settings entries (counted e totals) s

extract_internal_archive-quiet :
    (settings : IntakeSettings) (dir : Text) (entries : List Entry) (s : Session)
    → Ensures
        (extract_internal_archive settings dir (some entries))
        s
        (λ files t. (files ≡ extract_entries dir entries entries) × (t ≡ s))
unfolding extract_internal_archive validate_internal_archive_limits
extract_internal_archive-quiet settings dir entries s =
    ensures-bind _ _ _ (validate_entries-quiet settings entries _ s)
      λ x t quiet. ensures-pure _ (refl, quiet)

module _ (settings : IntakeSettings) (actor : CurrentActor) (key : String) where
  abbrev pub new_dir : Session → Text
  new_dir s = join_path settings.task_dir_base (text (s.ids s.drawn))

  -- The row of the new task, before and after its directory is known.
  abbrev pub drafted : Session → Text → Task
  drafted s label = task_in s key label actor.user_id actor.tenant_id actor.user_id "draft"

  abbrev pub placed : Session → Text → Task
  placed s label = with_temp_dir (new_dir s) (drafted s label)

  abbrev pub created_event : Session → Text → TaskEvent
  created_event s label =
      event_of (with_drawn s) (s.ids s.drawn) "task_created"
        (to_event_payload actor ++ (("submission_label", chars label) ∷ []))

  -- A new task: what the request found, answers and leaves.
  pub record IsNew (packed : List Entry → ℕ) (uploads : List UploadFile) (s : Session)
      (answer : Created) (u : Session) (prepared : PreparedArchive) (entries : List Entry)
      : Type 0 where
    pub unclaimed : holders key (some actor.tenant_id) s.db ≡ []
    pub packs : IsPacked packed settings uploads s prepared s entries
    pub fresh : any (Tasks.clashes (drafted s prepared.label)) s.db.tasks ≡ false
    pub code : answer.status_code ≡ 201
    pub id : answer.task_id ≡ s.ids s.drawn
    pub status : answer.status ≡ "draft"
    pub files : answer.files ≡ extract_entries (new_dir s) prepared.entries prepared.entries
    pub after :
        u.db ≡ add_event (created_event s prepared.label) (add_task (placed s prepared.label) s.db)
    pub kept : u.committed ≡ u.db

  -- A key that has its task: that is the answer, and nothing changes.
  pub record IsKnown (s : Session) (answer : Created) (u : Session) (t : Task) : Type 0 where
    pub claimed : holders key (some actor.tenant_id) s.db ≡ t ∷ []
    pub answered : answer ≡ record {
      status_code = 200;
      task_id = t.id;
      status = t.status;
      archive = none;
      files = [];
    }
    pub same : u ≡ s

  selects-fresh :
      (new : Task) (tasks : List Task)
      → any (Tasks.clashes new) tasks ≡ false
      → any (Tasks.selects new.id none) tasks ≡ false
  selects-fresh new [] h = refl
  selects-fresh new (t ∷ tasks) h = ground (arith, selects-fresh new tasks)

  selects_self : (t : Task) → Tasks.selects t.id none t ≡ true
  selects_self t = rw (==_refl t.id) refl

  -- The row in the table, and the row that is read back.
  placed_row :
      (s : Session) (label : Text) (final : Task)
      → any (Tasks.clashes (drafted s label)) s.db.tasks ≡ false
      → find (Tasks.selects (s.ids s.drawn) none) (
          update_where
            (Tasks.selects (s.ids s.drawn) none)
            (with_temp_dir (new_dir s))
            (s.db.tasks ++ drafted s label ∷ []))
        ≡ some final
      → (update_where
            (Tasks.selects (s.ids s.drawn) none)
            (with_temp_dir (new_dir s))
            (s.db.tasks ++ drafted s label ∷ [])
          ≡ s.db.tasks ++ placed s label ∷ [])
        × (final ≡ placed s label)
  placed_row s label final fresh found =
      let unused = selects-fresh (drafted s label) s.db.tasks fresh in
      let there =
        update_where-snoc (Tasks.selects (s.ids s.drawn) none) (with_temp_dir (new_dir s))
          s.db.tasks (drafted s label) unused (selects_self (drafted s label)) in
      let back =
        find-snoc (Tasks.selects (s.ids s.drawn) none) s.db.tasks (placed s label) unused
          (selects_self (drafted s label)) in
      (
        there,
        some_injective (sym found ∙ (ap (find (Tasks.selects (s.ids s.drawn) none)) there ∙ back)),
      )
    where
      some_injective : {a b : Task} → some a ≡ some b → a ≡ b
      some_injective h = cc

  created_outcome :
      (packed : List Entry → ℕ) (uploads : List UploadFile) (s t : Session)
      (prepared : PreparedArchive) (entries : List Entry) (written : List WrittenFile)
      (final : Task)
      → holders key (some actor.tenant_id) s.db ≡ []
      → IsPacked packed settings uploads s prepared t entries
      → any (Tasks.clashes (drafted s prepared.label)) s.db.tasks ≡ false
      → written ≡ extract_entries (new_dir s) prepared.entries prepared.entries
      → find (Tasks.selects (s.ids s.drawn) none) (
          update_where
            (Tasks.selects (s.ids s.drawn) none)
            (with_temp_dir (new_dir s))
            (s.db.tasks ++ drafted s prepared.label ∷ []))
        ≡ some final
      → let u = with_commit (
          with_db
            (λ db. record db {
              tasks =
                  update_where
                    (Tasks.selects (s.ids s.drawn) none)
                    (with_temp_dir (new_dir s))
                    db.tasks;
            })
            (with_db
              (add_event (created_event s prepared.label))
              (with_drawn (with_db (add_task (drafted s prepared.label)) (with_drawn s))))) in
        IsNew packed uploads s
          (record {
            status_code = 201;
            task_id = final.id;
            status = final.status;
            archive = some (task_archive_path (new_dir s), prepared.entries);
            files = written;
          })
          u
          prepared
          entries
  created_outcome packed uploads s t prepared entries written final unclaimed packs fresh extracted
        found =
      let (there, back) = placed_row s prepared.label final fresh found in
      record {
        unclaimed = unclaimed;
        packs = record {
          packs = packs.packs;
          written = packs.written;
          some_files = packs.some_files;
          few = packs.few;
          small = packs.small;
          archive = packs.archive;
          quiet = refl;
        };
        fresh = fresh;
        code = refl;
        id = ap (λ (t : Task). t.id) back;
        status = ap (λ (t : Task). t.status) back;
        files = extracted;
        after =
            ap
              (λ (tasks : List Task). record s.db {
                tasks = tasks;
                events = s.db.events ++ created_event s prepared.label ∷ [];
              })
              there;
        kept = refl;
      }

  create_new-IsNew :
      (packed : List Entry → ℕ) (files : List UploadFile) (submission_label : Option Text)
      (s : Session)
      → holders key (some actor.tenant_id) s.db ≡ []
      → Ensures (create_new packed settings actor key files submission_label) s (λ answer u.
        (prepared : PreparedArchive) × (entries : List Entry) × IsNew packed
          (keep has_filename files)
          s
          answer
          u
          prepared
          entries)
  unfolding create_new
  create_new-IsNew packed files submission_label s unclaimed =
      ensures-bind _ _ _
        (prepare_folder_upload-IsPacked packed settings (keep has_filename files) submission_label
          s)
        λ prepared t (entries, packs). rw packs.quiet (
          ensures-create _ _ _ _ _ _ _ λ fresh. ensures-append _ _ _ _ (
            ensures-bind _ _ _
              (extract_internal_archive-quiet settings (new_dir s) prepared.entries _)
              λ written v (extracted, quiet). rw quiet (
                ensures-writes _ _ (
                  ensures-commit _ (
                    ensures-get _ _ _ (
                      ensures-or_raise _ _ _ λ final found. ensures-pure _ (
                        prepared,
                        entries,
                        created_outcome packed (keep has_filename files) s t prepared entries
                            written final unclaimed packs fresh extracted found,
                      )))))))

  -- A request behind its claim that succeeds is of one of two kinds. If a task of the tenant has the
  -- key, it answers that task and changes nothing. Otherwise it was given at least one file and kept
  -- to the limits; it adds one task for the actor's tenant and user, a draft with the key and its
  -- directory, with one event, and changes no other row; it answers that task, and the files that
  -- it wrote are those of its archive.
  pub create_claimed-cases :
      (packed : List Entry → ℕ) (files : List UploadFile) (submission_label : Option Text)
      (s : Session)
      → Ensures (create_claimed packed settings actor key files submission_label) s (λ answer u.
        ((t : Task) × IsKnown s answer u t)
        ⊎ ((prepared : PreparedArchive) × (entries : List Entry) × IsNew packed
              (keep has_filename files)
              s
              answer
              u
              prepared
              entries))
  unfolding create_claimed existing_or_new
  create_claimed-cases packed files submission_label s =
      ensures-get_by_idempotency_key _ _ _
        (λ unclaimed.
          ensures-weaken _ _ (create_new-IsNew packed files submission_label s unclaimed)
            (λ answer u new. inr new))
        (λ t claimed.
          ensures-pure _ (inl (t, record { claimed = claimed; answered = refl; same = refl })))
