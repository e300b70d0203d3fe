-- ===== src/Classifier/Examples.antt =====
-- The theorems on the classifier at one archive, which has entries of every kind.
use multi_tenant_file_delive.Prelude.{
  ◌+◌, ◌<◌, ◌≡◌, ◌↔◌, true, [], ◌∷◌, ◌++◌, text_eq, count_p, length, All,
}
use multi_tenant_file_delive.Text.{text}
use multi_tenant_file_delive.Classifier.Targets.{resolve_target}
use multi_tenant_file_delive.Classifier.Engine.{classify_zip}
use multi_tenant_file_delive.Classifier.Counts.{
  is_ok, is_warning, is_error, has_unknown_target, classify_zip-counts,
}
use multi_tenant_file_delive.Classifier.Safety.{IsPlaced, classify_zip-IsPlaced}
use multi_tenant_file_delive.Classifier.Order.{classify_zip-append}
use multi_tenant_file_delive.Classifier.Matching.{Resolution, resolve_target-Resolution}
use multi_tenant_file_delive.Classifier.Samples.{ascii, profile, archive, good}

classify_zip-counts_example :
    let (items, summary) = classify_zip ascii profile archive in
    (summary.total ≡ length items + summary.ignored)
    × (summary.ok ≡ count_p is_ok items)
    × (summary.warning ≡ count_p is_warning items)
    × (summary.error ≡ count_p is_error items)
    × (summary.unmatched_targets ≡ count_p has_unknown_target items)
    × (summary.unmatched_document_types ≡ count_p is_warning items)
    × ((summary.has_blocking_errors ≡ true) ↔ (0 < count_p is_error items))
classify_zip-counts_example = classify_zip-counts ascii profile archive

classify_zip-IsPlaced_example : All IsPlaced (classify_zip ascii profile archive).0
classify_zip-IsPlaced_example = classify_zip-IsPlaced ascii profile archive

classify_zip-append_example :
    (classify_zip ascii profile (archive ++ good ∷ [])).0
    ≡ (classify_zip ascii profile archive).0 ++ (classify_zip ascii profile (good ∷ [])).0
classify_zip-append_example = classify_zip-append ascii profile archive (good ∷ [])

resolve_target-Resolution_example :
    Resolution ascii (text "globex") profile.targets (resolve_target ascii (text "Globex") profile)
resolve_target-Resolution_example = resolve_target-Resolution ascii (text "Globex") profile
