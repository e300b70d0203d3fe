-- ===== src/Api/Intake/Names.antt =====
-- The names of archive entries and of folders: `_safe_archive_name` and `_folder_label` of
-- control-plane/app/api/tasks.py, and the paths of control-plane/app/services/staging_source.py.

use multi_tenant_file_delive.Prelude.{
  Bool, not, Option, none, some, List, [], ◌∷◌, ◌++◌, ◌==◌, nat_eq, text_eq, string_eq, keep, any,
  all, if◌then◌else◌,
}
use multi_tenant_file_delive.Text.{Text, text, split, join, strip_by, replace_char}
use multi_tenant_file_delive.Paths.{slash}
use multi_tenant_file_delive.Paths.Normal.{join_path}

-- `INTERNAL_ARCHIVE_DIR` and `INTERNAL_ARCHIVE_NAME` of control-plane/app/services/staging_source.py.
abbrev pub internal_archive_dir : Text
internal_archive_dir = text ".auto_upload_internal"

abbrev pub internal_archive_name : Text
internal_archive_name = text "original.zip"

unfoldable pub task_archive_path : Text → Text
unfolding join_path
task_archive_path task_dir =
    join_path (join_path task_dir internal_archive_dir) internal_archive_name

abbrev pub is_part : Text → Bool
is_part part = not (part == [])

abbrev pub is_up : Text → Bool
is_up part = part == text ".."

abbrev pub safe_parts : List Text → Option Text
safe_parts [] = none
safe_parts (p ∷ ps) =
    if any is_up (p ∷ ps)
    then none
    else if p == internal_archive_dir
    then none
    else some (join slash (p ∷ ps))

-- `[part for part in name.replace("\\", "/").strip("/").split("/") if part]`
abbrev pub name_parts : Text → List Text
name_parts raw_name =
    keep is_part (split slash (strip_by (λ c. c == slash) (replace_char b'\\' slash raw_name)))

unfoldable pub safe_archive_name : Text → Option Text
unfolding split join strip_by replace_char
safe_archive_name raw_name = safe_parts (name_parts raw_name)

abbrev first_part : List Text → List Text
first_part [] = []
first_part (p ∷ ps) = p ∷ []

-- The first part of each name that has one.
unfoldable pub first_parts : List Text → List Text
unfolding split replace_char
first_parts [] = []
first_parts (name ∷ names) =
    first_part (keep is_part (split slash (replace_char b'\\' slash name))) ++ first_parts names

abbrev common_part : List Text → Text
common_part [] = text "folder-upload"
common_part (p ∷ ps) = if all (λ q. q == p) (p ∷ ps) then p else text "folder-upload"

unfoldable pub folder_label : List Text → Text
unfolding first_parts
folder_label file_names = common_part (first_parts file_names)
