-- ===== src/Api/Intake/Folder.antt =====
-- The files of a request and the archive that they are packed into: `_prepare_folder_upload` of
-- control-plane/app/api/tasks.py. A zip file is the list of its entries; how many bytes its
-- compressed form has is a parameter.

use multi_tenant_file_delive.Prelude.{
  ℕ, ◌+◌, Bool, true, false, Option, none, some, List, [], ◌∷◌, ◌++◌, map, ◌==◌, nat_eq, text_eq,
  string_eq, ltb, length, if◌then◌else◌,
}
use multi_tenant_file_delive.Text.{Text}
use multi_tenant_file_delive.Store.Session.{Action, http, ◌>>=◌, ◌>>◌, pure, or_raise, raise_if}
use multi_tenant_file_delive.Api.Intake.Names.{safe_archive_name, folder_label}

-- A file of the form: its name, if it has one, and its bytes.
pub record UploadFile : Type 0 where
  pub filename : Option Text
  pub content : List ℕ

-- An entry of a zip file.
pub record Entry : Type 0 where
  pub filename : Text
  pub content : List ℕ

-- The settings that the intake reads; `none` is one that is no number.
pub record IntakeSettings : Type 0 where
  pub max_file_count : Option ℕ
  pub max_folder_payload_bytes : Option ℕ
  pub max_internal_archive_bytes : Option ℕ
  pub task_dir_base : Text

abbrev pub setting_int : Option ℕ → ℕ → ℕ
setting_int none default_value = default_value
setting_int (some value) default_value = value

abbrev pub max_files : IntakeSettings → ℕ
max_files settings = setting_int settings.max_file_count 5000

abbrev pub max_payload : IntakeSettings → ℕ
max_payload settings = setting_int settings.max_folder_payload_bytes 1_073_741_824

abbrev pub max_archive : IntakeSettings → ℕ
max_archive settings = setting_int settings.max_internal_archive_bytes 524_288_000

-- The variables of the loop over the uploads.
pub record Received : Type 0 where
  pub total_size : ℕ
  pub file_count : ℕ
  pub safe_entries : List Entry
  pub raw_names : List Text

abbrev pub nothing_received : Received
nothing_received = record { total_size = 0; file_count = 0; safe_entries = []; raw_names = [] }

abbrev pub or_nil : Option Text → Text
or_nil none = []
or_nil (some name) = name

abbrev pub received : Text → List ℕ → Received → Received
received archive_name content st = record {
  total_size = st.total_size + length content;
  file_count = st.file_count + 1;
  safe_entries = st.safe_entries ++ record { filename = archive_name; content = content } ∷ [];
  raw_names = st.raw_names ++ archive_name ∷ [];
}

-- The body of the loop.
unfoldable pub receive : IntakeSettings → UploadFile → Received → Action Received
receive settings upload st = do
  archive_name ← or_raise (safe_archive_name (or_nil upload.filename)) (http 400)
  let st' = received archive_name upload.content st
  raise_if (ltb (max_files settings) st'.file_count) (http 413)
  raise_if (ltb (max_payload settings) st'.total_size) (http 413)
  pure st'

unfoldable pub receive_all : IntakeSettings → List UploadFile → Received → Action Received
unfolding receive
receive_all settings [] st = pure st
receive_all settings (upload ∷ uploads) st = do
  st' ← receive settings upload st
  receive_all settings uploads st'

-- `zipfile` cuts the name of an entry at a NUL.
unfoldable pub zip_filename : Text → Text
zip_filename [] = []
zip_filename (c ∷ s) = let rest = zip_filename s in if c == 0 then [] else c ∷ rest

-- The archive that `zf.writestr` makes of the entries.
abbrev pub zipped : List Entry → List Entry
zipped = map λ (e : Entry). record e { filename = zip_filename e.filename }

pub record PreparedArchive : Type 0 where
  pub label : Text
  pub entries : List Entry

-- `a or b`
abbrev pub label_or : Option Text → Text → Text
label_or none b = b
label_or (some a) b = if a == [] then b else a

abbrev pub uploads_empty : List UploadFile → Bool
uploads_empty [] = true
uploads_empty (upload ∷ uploads) = false

-- `packed` is the length of the compressed archive.
unfoldable pub prepare_folder_upload :
    (List Entry → ℕ) → IntakeSettings → List UploadFile → Option Text → Action PreparedArchive
unfolding receive_all folder_label zip_filename
prepare_folder_upload packed settings uploads submission_label = do
  raise_if (uploads_empty uploads) (http 400)
  st ← receive_all settings uploads nothing_received
  let entries = zipped st.safe_entries
  raise_if (ltb (max_archive settings) (packed entries)) (http 413)
  pure (record { label = label_or submission_label (folder_label st.raw_names); entries = entries })
