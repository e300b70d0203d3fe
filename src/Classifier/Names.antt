-- ===== src/Classifier/Names.antt =====
-- `_decode_zip_filename`, `_is_path_traversal` and `_render_path` of
-- control-plane/app/services/classifier.py.
use multi_tenant_file_delive.Prelude.{
  String, Bool, true, ◌&&◌, Option, none, some, List, [], ◌∷◌, ◌++◌, leb, all, any, if◌then◌else◌,
}
use multi_tenant_file_delive.Text.{Text, text, starts_with}
use multi_tenant_file_delive.Paths.{climbs}
use multi_tenant_file_delive.Classifier.Profile.{
  ProfileConfig, Piece, lit, category, document_type, filename,
}
use multi_tenant_file_delive.Classifier.Python.{Python}

-- The handler of the two exceptions keeps the name.
or_keep : Text → Option Text → Text
or_keep name none = name
or_keep name (some decoded) = decoded

-- `filename.encode("latin-1")`; `none` is the UnicodeEncodeError
encode_latin1 : Text → Option Text
encode_latin1 name = if all (λ c. leb c 255) name then some name else none

recover_gbk : Python → Option Text → Option Text
recover_gbk py none = none
recover_gbk py (some raw) = py.decode_gbk raw

unfoldable pub decode_zip_filename : Python → Text → Text
unfolding or_keep encode_latin1 recover_gbk
decode_zip_filename py name =
    if any (λ c. leb 128 c && leb c 255) name
    then or_keep name (recover_gbk py (encode_latin1 name))
    else name

unfoldable pub is_path_traversal : Text → Bool
is_path_traversal src_path = if starts_with src_path (text "/") then true else climbs src_path

-- `path_template.format(...)`
unfoldable pub format : List Piece → Text → Text → Text → Text
format [] cat doc file = []
format (lit t ∷ pieces) cat doc file = t ++ format pieces cat doc file
format (category ∷ pieces) cat doc file = cat ++ format pieces cat doc file
format (document_type ∷ pieces) cat doc file = doc ++ format pieces cat doc file
format (filename ∷ pieces) cat doc file = file ++ format pieces cat doc file

-- The path and an error code, which is empty on success.
unfoldable pub render_path : ProfileConfig → Text → Text → Text → Text × String
unfolding format
render_path profile cat doc file =
    let rendered = format profile.path_template cat doc file in
    if climbs rendered then ([], "path_render_error") else (rendered, "")
