-- ===== src/Api/Intake/Extraction.antt =====
-- `_validate_internal_archive_limits` and `_extract_internal_archive` of
-- control-plane/app/api/tasks.py. The files are written by answering them.

use multi_tenant_file_delive.Prelude.{
  ℕ, ◌+◌, Bool, true, false, not, ◌&&◌, ◌||◌, Option, none, some, List, [], ◌∷◌, ◌++◌, ◌==◌, nat_eq,
  text_eq, string_eq, ltb, length, if◌then◌else◌,
}
use multi_tenant_file_delive.Text.{Text, text, starts_with, ends_with}
use multi_tenant_file_delive.Paths.Normal.{join_path, normpath}
use multi_tenant_file_delive.Store.Session.{Action, http, ◌>>◌, pure, raise, raise_if}
use multi_tenant_file_delive.Api.Intake.Names.{safe_archive_name}
use multi_tenant_file_delive.Api.Intake.Folder.{Entry, IntakeSettings, max_files, max_payload}

-- The two totals of `_validate_internal_archive_limits`.
pub record Totals : Type 0 where
  pub total_size : ℕ
  pub file_count : ℕ

-- Entries that the extraction passes over: directories and unsafe names.
abbrev pub is_skipped : Option Text → Bool
is_skipped none = true
is_skipped (some name) = false

abbrev pub passed_over : Entry → Bool
passed_over e = ends_with e.filename (text "/") || is_skipped (safe_archive_name e.filename)

abbrev pub counted : Entry → Totals → Totals
counted e t =
    if passed_over e
    then t
    else record { total_size = t.total_size + length e.content; file_count = t.file_count + 1 }

-- The checks stand behind each entry that counts; the totals of the others have been checked.
unfoldable pub validate_entries : IntakeSettings → List Entry → Totals → Action (Unit {0})
unfolding safe_archive_name ends_with
validate_entries settings [] t = pure tt
validate_entries settings (e ∷ entries) t = do
  let t' = counted e t
  raise_if (not (passed_over e) && ltb (max_files settings) t'.file_count) (http 413)
  raise_if (not (passed_over e) && ltb (max_payload settings) t'.total_size) (http 413)
  validate_entries settings entries t'

-- The bytes of an upload are a zip file, or they are not.
unfoldable pub validate_internal_archive_limits :
    IntakeSettings → Option (List Entry) → Action (Unit {0})
unfolding validate_entries
validate_internal_archive_limits settings none = raise (http 400)
validate_internal_archive_limits settings (some entries) =
    validate_entries settings entries (record { total_size = 0; file_count = 0 })

-- `zf.read(name)`: of two entries of one name the later one.
unfoldable pub read_entry : Text → List Entry → List ℕ → List ℕ
read_entry name [] content = content
read_entry name (e ∷ entries) content =
    read_entry name entries (if e.filename == name then e.content else content)

pub record WrittenFile : Type 0 where
  pub path : Text
  pub content : List ℕ

-- `os.path.normpath(os.path.join(extract_dir, archive_name))`
abbrev pub safe_path : Text → Text → Text
safe_path extract_dir archive_name = normpath (join_path extract_dir archive_name)

-- What one entry writes; `content` is what the archive has under its name.
abbrev pub write_entry : Text → List ℕ → Option Text → List WrittenFile
write_entry extract_dir content none = []
write_entry extract_dir content (some archive_name) =
    if starts_with (safe_path extract_dir archive_name) (normpath extract_dir ++ text "/")
    then record { path = safe_path extract_dir archive_name; content = content } ∷ []
    else []

abbrev pub extract_entry : Text → List Entry → Entry → List WrittenFile
extract_entry extract_dir archive e =
    if ends_with e.filename (text "/")
    then []
    else write_entry extract_dir (read_entry e.filename archive []) (safe_archive_name e.filename)

unfoldable pub extract_entries : Text → List Entry → List Entry → List WrittenFile
unfolding safe_archive_name ends_with starts_with normpath join_path read_entry
extract_entries extract_dir archive [] = []
extract_entries extract_dir archive (e ∷ entries) =
    extract_entry extract_dir archive e ++ extract_entries extract_dir archive entries

abbrev entries_of : Option (List Entry) → List Entry
entries_of none = []
entries_of (some entries) = entries

unfoldable pub extract_internal_archive :
    IntakeSettings → Text → Option (List Entry) → Action (List WrittenFile)
unfolding validate_internal_archive_limits extract_entries
extract_internal_archive settings extract_dir archive = do
  validate_internal_archive_limits settings archive
  pure (extract_entries extract_dir (entries_of archive) (entries_of archive))
