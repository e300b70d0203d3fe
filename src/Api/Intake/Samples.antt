-- ===== src/Api/Intake/Samples.antt =====
-- A folder with a file in it, an archive with hostile names, and requests for a task at a concrete
-- database: `create_task` of control-plane/app/api/tasks.py.
use multi_tenant_file_delive.Prelude.{
  map, ℕ, suc, String, ◌≡◌, ◌⊎◌, refl, arith, none, some, List, [], ◌∷◌, All, length, keep,
  text_beq,
}
use multi_tenant_file_delive.Text.{text}
use multi_tenant_file_delive.Redis.Memory.{memory, vacant}
use multi_tenant_file_delive.Leases.{redis_client}
use multi_tenant_file_delive.Store.Rows.{Task}
use multi_tenant_file_delive.Store.Creating.{holders}
use multi_tenant_file_delive.Store.Session.{Session, ok, ◌>>=◌, ◌>>◌}
use multi_tenant_file_delive.Store.Tasks
use multi_tenant_file_delive.Store.Events
use multi_tenant_file_delive.Store.Ensures.{Ensures, opened}
use multi_tenant_file_delive.Auth.{require_task_writer}
use multi_tenant_file_delive.Api.Intake.Names.{safe_archive_name, folder_label}
use multi_tenant_file_delive.Api.Intake.Folder.{
  UploadFile, Entry, IntakeSettings, PreparedArchive, prepare_folder_upload,
}
use multi_tenant_file_delive.Api.Intake.Extraction.{extract_entries}
use multi_tenant_file_delive.Api.Intake.{create_claimed, create_task, key_or_new, has_filename}
use multi_tenant_file_delive.Api.Intake.Bounds.{IsPacked, prepare_folder_upload-IsPacked}
use multi_tenant_file_delive.Api.Intake.Extracting.{Extracted, extract_entries-Extracted}
use multi_tenant_file_delive.Api.Intake.Creating.{IsNew, IsKnown, create_claimed-cases}
use multi_tenant_file_delive.Api.Intake.Again.{AnswersKnown, create_claimed-again}
use multi_tenant_file_delive.Api.Intake.Guarding.{IsGuarded, unguarded, create_task-IsGuarded}
use multi_tenant_file_delive.Api.Tasks.Samples.{id_of, uploader, database}

abbrev settings : IntakeSettings
settings = record {
  max_file_count = none;
  max_folder_payload_bytes = some 64;
  max_internal_archive_bytes = none;
  task_dir_base = text "/data/tasks";
}

abbrev folder : List UploadFile
folder =
    record { filename = some (text "acme\\2024/a.pdf"); content = 1 ∷ 2 ∷ [] }
    ∷ record { filename = some (text "acme//./b.pdf"); content = 3 ∷ [] }
    ∷ []

abbrev packed : List Entry → ℕ
packed entries = length entries

abbrev start : Session
start = opened id_of 7 database

abbrev entry : String → Entry
entry filename = record { filename = text filename; content = 9 ∷ [] }

abbrev entry_of : String → List ℕ → Entry
entry_of filename content = record { filename = text filename; content = content }

abbrev hostile : List Entry
hostile =
    entry "../../etc/passwd"
    ∷ entry "acme/../../x"
    ∷ entry ".auto_upload_internal/original.zip"
    ∷ entry "acme/"
    ∷ entry "."
    ∷ entry "/abs/./file"
    ∷ []

-- Only the last entry is written, under the directory.
hostile_names :
    extract_entries (text "/data/tasks/t") hostile hostile
    ≡ record { path = text "/data/tasks/t/abs/file"; content = 9 ∷ [] } ∷ []
unfolding extract_entries text_beq
hostile_names = refl

names :
    (safe_archive_name (text "acme\\2024//a.pdf") ≡ some (text "acme/2024/a.pdf"))
    × (safe_archive_name (text "/") ≡ none)
    × (folder_label (text "acme/a" ∷ text "acme/b" ∷ []) ≡ text "acme")
    × (folder_label (text "acme/a" ∷ text "other/b" ∷ []) ≡ text "folder-upload")
unfolding safe_archive_name folder_label text_beq
names = (refl, refl, refl, refl)

prepare_folder_upload-IsPacked_example :
    Ensures (prepare_folder_upload packed settings folder none) start (λ prepared t.
      (entries : List Entry) × IsPacked packed settings folder start prepared t entries)
prepare_folder_upload-IsPacked_example =
    prepare_folder_upload-IsPacked packed settings folder none start

extract_entries-Extracted_example :
    All
      (Extracted (text "/data/tasks/t") hostile)
      (extract_entries (text "/data/tasks/t") hostile hostile)
extract_entries-Extracted_example =
    extract_entries-Extracted (text "/data/tasks/t") hostile (λ h. ground arith) hostile

create_claimed-cases_example :
    Ensures (create_claimed packed settings uploader "k" folder none) start (λ answer u.
      ((t : Task) × IsKnown settings uploader "k" start answer u t)
      ⊎ ((prepared : PreparedArchive) × (entries : List Entry) × IsNew settings uploader "k" packed
            (keep has_filename folder)
            start
            answer
            u
            prepared
            entries))
create_claimed-cases_example = create_claimed-cases settings uploader "k" packed folder none start

create_claimed-again_example :
    Ensures (create_claimed packed settings uploader "k" folder none) start (λ answer u.
      (v : Session)
      → map (λ t. t.id) (holders "k" (some uploader.tenant_id) v.db)
        ≡ map (λ t. t.id) (holders "k" (some uploader.tenant_id) u.db)
      → AnswersKnown packed settings uploader "k" [] none answer.task_id v)
create_claimed-again_example =
    create_claimed-again packed settings uploader uploader "k" folder [] none none start refl

create_task-IsGuarded_example :
    IsGuarded memory vacant
      (unguarded memory
        (redis_client 60)
        packed
        settings
        uploader
        folder
        none
        vacant
        ((require_task_writer uploader >> key_or_new (some "k")) start))
      (create_task memory
        (redis_client 60)
        packed
        settings
        uploader
        folder
        (some "k")
        none
        (text "aa11")
        (start, vacant))
create_task-IsGuarded_example =
    create_task-IsGuarded memory (redis_client 60) packed settings uploader folder (some "k") none
      (text "aa11") start vacant (omega arith)

-- A request that succeeds, and the task it leaves.
created_run :
    let (answer, u) = create_claimed packed settings uploader "k" folder none start in
    (answer
      ≡ ok (record {
        status_code = 201;
        task_id = "";
        status = "draft";
        archive = some (
          text "/data/tasks/.auto_upload_internal/original.zip",
          entry_of "acme/2024/a.pdf" (1 ∷ 2 ∷ []) ∷ entry_of "acme/./b.pdf" (3 ∷ []) ∷ [],
        );
        files =
            record { path = text "/data/tasks/acme/2024/a.pdf"; content = 1 ∷ 2 ∷ [] }
            ∷ record { path = text "/data/tasks/acme/b.pdf"; content = 3 ∷ [] }
            ∷ [];
      }))
    × (length u.committed.tasks ≡ suc (length database.tasks))
unfolding create_claimed Tasks.get_by_idempotency_key Tasks.one_or_none Tasks.create Tasks.get
    Events.append ◌>>=◌ text_beq
created_run = (refl, refl)
