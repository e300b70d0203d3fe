-- ===== src/Classifier/Engine.antt =====
-- `classify_zip` of control-plane/app/services/classifier.py: the loop over the archive's entries,
-- cut where its body continues.
use multi_tenant_file_delive.Prelude.{
  ℕ, ◌+◌, String, true, ◌&&◌, not, Option, none, some, List, [], ◌∷◌, ◌++◌, ◌==◌, string_eq,
  text_eq, any, contains, lookup, ltb, if◌then◌else◌,
}
use multi_tenant_file_delive.Text.{Text, text, starts_with, ends_with}
use multi_tenant_file_delive.Paths.{name, suffix, parent}
use multi_tenant_file_delive.Classifier.Profile.{ProfileConfig, DocumentTypeConfig}
use multi_tenant_file_delive.Classifier.Python.{Python}
use multi_tenant_file_delive.Classifier.Item.{
  ZipInfo, Severity, ClassifiedItem, ClassifySummary, Progress, plain_item, start, add,
}
use multi_tenant_file_delive.Classifier.Names.{decode_zip_filename, is_path_traversal, render_path}
use multi_tenant_file_delive.Classifier.Targets.{extract_target_raw, resolve_target}
use multi_tenant_file_delive.Classifier.Documents.{resolve_document_type}

-- `summary.total += 1`
abbrev pub count_entry : Progress → Progress
count_entry st = record st { summary = record st.summary { total = st.summary.total + 1 } }

-- `summary.ignored += 1`
abbrev pub ignore : Progress → Progress
ignore st = record st { summary = record st.summary { ignored = st.summary.ignored + 1 } }

-- Appends an item with an error, which blocks.
abbrev pub reject : ClassifiedItem → Progress → Progress
reject item st = record {
  items = st.items ++ item ∷ [];
  summary = record st.summary { error = st.summary.error + 1; has_blocking_errors = true };
}

-- The same, of an item whose target is not known.
abbrev pub reject_target : ClassifiedItem → Progress → Progress
reject_target item st = record {
  items = st.items ++ item ∷ [];
  summary = record st.summary {
    error = st.summary.error + 1;
    has_blocking_errors = true;
    unmatched_targets = st.summary.unmatched_targets + 1;
  };
}

-- `summary.ok += 1`, and the target joins the set unless its key is empty.
abbrev pub accept : ClassifiedItem → Text → Progress → Progress
accept item key st = record {
  items = st.items ++ item ∷ [];
  summary = record st.summary {
    ok = st.summary.ok + 1;
    targets_involved =
        if key == [] then st.summary.targets_involved else add key st.summary.targets_involved;
  };
}

-- An item with no document type.
abbrev pub warn : ClassifiedItem → Progress → Progress
warn item st = record {
  items = st.items ++ item ∷ [];
  summary = record st.summary {
    unmatched_document_types = st.summary.unmatched_document_types + 1;
    warning = st.summary.warning + 1;
  };
}

abbrev category_of : Option DocumentTypeConfig → Text
category_of none = []
category_of (some dt) = dt.category

-- `category_name`
unfoldable pub category_name_of : ProfileConfig → Text → Text
category_name_of profile doc_type =
    if doc_type == [] then [] else category_of (lookup doc_type profile.document_types)

-- `dst_path` and `path_error`
unfoldable pub destination : ProfileConfig → Text → Text → Text → Text × String
destination profile category doc_type filename =
    if not (doc_type == []) && not (category == [])
    then render_path profile category doc_type filename
    else ([], "")

-- `dst_dir`
unfoldable pub directory_of : Text → Text
directory_of dst_path =
    if dst_path == [] then [] else if parent dst_path == text "." then [] else parent dst_path

-- What the loop knows of an entry once it has passed the filters.
pub record Entry : Type 0 where
  pub src_path : Text
  pub filename : Text
  pub ext : Text
  pub file_size : ℕ

abbrev pub item_of : Entry → ClassifiedItem
item_of e = record (plain_item e.src_path e.filename) { ext = e.ext; file_size = e.file_size }

-- From the document type on; `raw` and `key` are the target as written and as matched.
unfoldable pub finish_entry :
    ProfileConfig → Entry → Text → Text → String → Text × String × ℕ → Progress → Progress
finish_entry profile e raw key method (doc_type, doc_method, score) st =
    let category = category_name_of profile doc_type in
    let (dst_path, path_error) = destination profile category doc_type e.filename in
    if not (path_error == "")
    then reject
        (record (item_of e) {
          target_name_raw = raw;
          target_name_matched = some key;
          target_match_method = method;
          document_type = doc_type;
          category_name = category;
          severity = Severity.error;
          error_code = "path_render_error";
          error_message = text "Rendered path contains '..'";
        })
        st
    else (let item = record (item_of e) {
      target_name_raw = raw;
      target_name_matched = some key;
      document_type = doc_type;
      category_name = category;
      dst_dir = directory_of dst_path;
      dst_path = dst_path;
      target_match_method = method;
      document_match_method = doc_method;
      match_score = score;
      severity = if doc_type == [] then Severity.warning else Severity.ok;
    } in
        if doc_type == [] then warn item st else accept item key st)

module _ (py : Python) (profile : ProfileConfig) where
  -- The target resolution: `none` with an empty method where no target is known.
  unfoldable pub matched_target : Text → Option Text × String
  matched_target raw =
      if profile.target_extraction.strategy == "broadcast"
      then (if raw == [] then (none, "") else (some raw, "broadcast"))
      else resolve_target py raw profile

  unfoldable pub with_target : Entry → Text → Option Text × String → Progress → Progress
  with_target e raw (none, method) st =
      reject_target
        (record (item_of e) {
          target_name_raw = raw;
          severity = Severity.error;
          error_code = "unknown_target";
          error_message = text "Target '" ++ (raw ++ text "' did not match any known target");
        })
        st
  with_target e raw (some key, method) st =
      finish_entry profile e raw key method (resolve_document_type py e.filename e.ext profile) st

  -- From the target extraction on.
  unfoldable pub classify_target : Entry → Text × String → Progress → Progress
  unfolding with_target
  classify_target e (raw, target_error) st =
      if target_error == "unknown_target"
      then reject_target
          (record (item_of e) {
            target_name_raw = raw;
            severity = Severity.error;
            error_code = "unknown_target";
            error_message = text "Could not determine target from filename";
          })
          st
      else with_target e raw (matched_target raw) st

  -- The safety check and the two filters.
  unfoldable pub filter_entry : Entry → Progress → Progress
  filter_entry e st =
      if is_path_traversal e.src_path
      then reject
          (record (item_of e) {
            severity = Severity.error;
            error_code = "path_traversal";
            error_message = text "Path traversal detected: " ++ e.src_path;
          })
          st
      else if contains e.filename profile.entry_filters.ignored_filenames
      then ignore st
      else if any (λ prefix. starts_with e.src_path prefix) profile.entry_filters.ignored_prefixes
      then ignore st
      else classify_target e (extract_target_raw e.src_path e.filename profile) st

  abbrev pub entry_of : Text → ℕ → Entry
  entry_of src_path file_size = record {
    src_path = src_path;
    filename = name src_path;
    ext = py.lower (suffix (name src_path));
    file_size = file_size;
  }

  -- The body of the loop.
  unfoldable pub classify_entry : ZipInfo → Progress → Progress
  classify_entry info st =
      let src_path = decode_zip_filename py info.filename in
      if ends_with src_path (text "/")
      then st
      else filter_entry (entry_of src_path info.file_size) (count_entry st)

  unfoldable pub classify_from : List ZipInfo → Progress → Progress
  classify_from [] st = st
  classify_from (info ∷ infos) st = classify_from infos (classify_entry info st)

  -- The last statement sets the flag from the count.
  unfoldable pub classify_zip : List ZipInfo → List ClassifiedItem × ClassifySummary
  unfolding classify_from
  classify_zip infos =
      let st = classify_from infos start in
      (st.items, record st.summary { has_blocking_errors = ltb 0 st.summary.error })
