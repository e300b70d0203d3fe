-- ===== src/Classifier/Tests.antt =====
-- The classifier at concrete archives.
use multi_tenant_file_delive.Prelude.{◌≡◌, refl, List, [], ◌∷◌, map, true, text_beq}
use multi_tenant_file_delive.Text.{text, starts_with, ends_with, is_space, contains_text}
use multi_tenant_file_delive.Paths.{climbs, parts, name, suffix, stem, parent, suffix_index}
use multi_tenant_file_delive.Classifier.Names.{render_path, is_path_traversal, decode_zip_filename}
use multi_tenant_file_delive.Classifier.Targets.{
  resolve_target, match_target, strip_number, extract_target_raw,
}
use multi_tenant_file_delive.Classifier.Documents.{resolve_document_type}
use multi_tenant_file_delive.Classifier.Item.{
  ZipInfo, add, Severity, ClassifiedItem, ClassifySummary,
}
use multi_tenant_file_delive.Classifier.Engine.{
  classify_zip, classify_entry, filter_entry, classify_target, matched_target, finish_entry,
  category_name_of, destination, directory_of,
}
use multi_tenant_file_delive.Classifier.Samples.{ascii, profile, archive}

-- The whole engine, opened for a test.
classify : List ZipInfo → List ClassifiedItem × ClassifySummary
unfolding classify_zip classify_entry filter_entry classify_target matched_target finish_entry
    category_name_of destination directory_of resolve_document_type resolve_target match_target
    strip_number extract_target_raw render_path is_path_traversal decode_zip_filename climbs parts
    name suffix stem parent suffix_index add starts_with ends_with is_space text_beq
classify = classify_zip ascii profile

abbrev severities : List ClassifiedItem → List Severity
severities = map (λ i. i.severity)

classify-archive :
    (severities (classify archive).0
      ≡ Severity.ok ∷ Severity.ok ∷ Severity.warning ∷ Severity.error ∷ Severity.error ∷ [])
    × (map (λ i. i.dst_path) (classify archive).0
        ≡ text "finance/report/Q1.XLSX"
          ∷ text "finance/report/orders - globex.txt"
          ∷ []
          ∷ []
          ∷ []
          ∷ [])
    × ((classify archive).1 ≡ record {
      total = 6;
      ok = 2;
      warning = 1;
      error = 2;
      ignored = 1;
      unmatched_targets = 1;
      unmatched_document_types = 1;
      targets_involved = text "acme" ∷ text "12. Globex" ∷ [];
      has_blocking_errors = true;
    })
unfolding classify contains_text
classify-archive = (refl, refl, refl)
