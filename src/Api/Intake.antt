-- ===== src/Api/Intake.antt =====
-- How a task comes in: `create_task` of control-plane/app/api/tasks.py. What it writes to the disk is
-- part of its answer; metrics are left out.
pub mod Names
pub mod Folder
pub mod Extraction
pub mod Bounds
pub mod Extracting
pub mod Creating
pub mod Again
pub mod Guarding
pub mod Samples
use mathlib.Core.List.{reverse}
use multi_tenant_file_delive.Prelude.{
  ℕ, suc, ◌+◌, String, Bool, true, false, not, ◌&&◌, ◌||◌, Option, none, some, List, [], ◌∷◌, ◌++◌,
  map, ◌==◌, nat_eq, text_eq, string_eq, keep, any, all, ltb, length, update_where, if◌then◌else◌,
}
use multi_tenant_file_delive.Text.{
  Text, text, split, join, strip_by, replace_char, starts_with, ends_with,
}
use multi_tenant_file_delive.Paths.{slash}
use multi_tenant_file_delive.Paths.Normal.{join_path, normpath}
use multi_tenant_file_delive.Store.Rows.{Task, chars}
use multi_tenant_file_delive.Redis.{Redis}
use multi_tenant_file_delive.Leases.{Claim, Client, acquire_guard, release_guard}
use multi_tenant_file_delive.Store.Session.{
  Session, Result, ok, err, Action, http, runtime_error, ◌>>=◌, ◌>>◌, pure, raise, or_raise,
  raise_if, writes, commit, gen_id,
}
use multi_tenant_file_delive.Store.Tasks
use multi_tenant_file_delive.Store.Events
use multi_tenant_file_delive.Auth.{CurrentActor, require_task_writer, to_event_payload}
use multi_tenant_file_delive.Api.Intake.Names.{
  internal_archive_dir, internal_archive_name, task_archive_path, safe_archive_name, folder_label,
  name_parts, safe_parts, is_part, is_up,
}
use multi_tenant_file_delive.Api.Intake.Folder.{
  UploadFile, Entry, IntakeSettings, setting_int, max_files, max_payload, max_archive, Received,
  nothing_received, received, or_nil, receive, receive_all, zip_filename, zipped, PreparedArchive,
  prepare_folder_upload,
}
use multi_tenant_file_delive.Api.Intake.Extraction.{
  Totals, validate_entries, validate_internal_archive_limits, WrittenFile, extract_entries,
  extract_internal_archive,
}

-- The answer of `create_task`, with what it wrote to the disk: the archive and the files in it.
pub record Created : Type 0 where
  pub status_code : ℕ
  pub task_id : String
  pub status : String
  pub archive : Option (Text × List Entry)
  pub files : List WrittenFile

abbrev pub with_temp_dir : Text → Task → Task
with_temp_dir dir t = record t { temp_dir = dir }

abbrev has_filename : UploadFile → Bool
has_filename upload = not (or_nil upload.filename == [])

module _ (packed : List Entry → ℕ) (settings : IntakeSettings) (actor : CurrentActor) where
  -- The task of a new key.
  unfoldable pub create_new : String → List UploadFile → Option Text → Action Created
  unfolding prepare_folder_upload extract_internal_archive task_archive_path join_path
  create_new key files submission_label = do
    prepared ← prepare_folder_upload packed settings (keep has_filename files) submission_label
    task ← Tasks.create key prepared.label actor.user_id actor.tenant_id actor.user_id "draft"
    Events.append task.id "task_created"
        (to_event_payload actor ++ (("submission_label", chars prepared.label) ∷ []))
    let extract_dir = join_path settings.task_dir_base (text task.id)
    written ← extract_internal_archive settings extract_dir (some prepared.entries)
    writes (λ db. record db {
      tasks = update_where (Tasks.selects task.id none) (with_temp_dir extract_dir) db.tasks;
    })
    commit
    found ← Tasks.get task.id none
    final ← or_raise found runtime_error
    pure (record {
      status_code = 201;
      task_id = final.id;
      status = final.status;
      archive = some (task_archive_path extract_dir, prepared.entries);
      files = written;
    })

  -- A key that has its task already.
  unfoldable pub existing_or_new :
      String → List UploadFile → Option Text → Option Task → Action Created
  unfolding create_new
  existing_or_new key files submission_label none = create_new key files submission_label
  existing_or_new key files submission_label (some existing) = pure (record {
    status_code = 200;
    task_id = existing.id;
    status = existing.status;
    archive = none;
    files = [];
  })

  -- What stands under `try`, behind the claim.
  unfoldable pub create_claimed : String → List UploadFile → Option Text → Action Created
  unfolding existing_or_new
  create_claimed key files submission_label = do
    existing ← Tasks.get_by_idempotency_key key (some actor.tenant_id)
    existing_or_new key files submission_label existing

-- `idempotency_key or str(uuid.uuid4())`
unfoldable pub key_or_new : Option String → Action String
key_or_new none = gen_id
key_or_new (some key) = if key == "" then gen_id else pure key

-- The identity of the claim: `f"{actor.tenant_id}:{key}"`
abbrev pub identity_of : CurrentActor → String → Text
identity_of actor key = text actor.tenant_id ++ (b':' ∷ text key)

-- A session and the Redis server beside it.
abbrev pub Beside : Type 0 → Type 0
Beside Server = Session × Server

module _ (redis : Redis) (client : Client) where
  -- `_acquire_idempotency_claim`, a body under `try`, and `_release_idempotency_claim` under `finally`.
  unfoldable pub guarded :
      {A : Type 0}
      → Text
      → Text
      → Text
      → Action A
      → Beside redis.Server
      → Result A × Beside redis.Server
  guarded operation identity token body (s, server) =
      let (claim, claimed) = acquire_guard redis client operation identity token server in
      elim claim.acquired [
        | false ↦ (err (http 409), (s, claimed))
        | true ↦ let (r, t) = body s in (r, (t, release_guard redis client claim claimed))
      ]

module _ (redis : Redis) (client : Client) (packed : List Entry → ℕ) (settings : IntakeSettings)
    (actor : CurrentActor) where
  abbrev pub with_key :
      List UploadFile
      → Option Text
      → Text
      → Result String × Session
      → redis.Server
      → Result Created × Beside redis.Server
  with_key files submission_label token (err e, s) server = (err e, (s, server))
  with_key files submission_label token (ok key, s) server =
      guarded redis client (text "create_task") (identity_of actor key) token
        (create_claimed packed settings actor key files submission_label) (s, server)

  -- The role comes first, then the key, then the claim.
  unfoldable pub create_task :
      List UploadFile
      → Option String
      → Option Text
      → Text
      → Beside redis.Server
      → Result Created × Beside redis.Server
  unfolding guarded create_claimed key_or_new
  create_task files idempotency_key submission_label token (s, server) =
      with_key files submission_label token
        ((require_task_writer actor >> key_or_new idempotency_key) s) server
