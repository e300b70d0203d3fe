-- ===== src/Classifier/Documents.antt =====
-- `_resolve_document_type` of control-plane/app/services/classifier.py.
use multi_tenant_file_delive.Prelude.{
  ℕ, String, Bool, true, false, Option, none, some, List, [], ◌∷◌, ◌&&◌, not, text_eq, lookup,
  if◌then◌else◌,
}
use multi_tenant_file_delive.Text.{Text, contains_text}
use multi_tenant_file_delive.Paths.{stem}
use multi_tenant_file_delive.Classifier.Profile.{ProfileConfig}
use multi_tenant_file_delive.Classifier.Python.{Python}

-- The first keyword that occurs in the stem.
unfoldable pub find_keyword : Text → List (Text × Text) → Option Text
find_keyword s [] = none
find_keyword s ((keyword, doc_type) ∷ mapping) =
    if contains_text keyword s then some doc_type else find_keyword s mapping

module _ (py : Python) where
  -- The best score and its type: the loop of the fuzzy match.
  unfoldable pub best_match : Text → List (Text × Text) → py.Score × Text → py.Score × Text
  best_match s [] best = best
  best_match s ((keyword, doc_type) ∷ mapping) best =
      let score = py.ratio keyword s in
      best_match s mapping (if py.exceeds score best.0 then (score, doc_type) else best)

  fallback : Text → ProfileConfig → Text × String × ℕ
  fallback ext profile = elim (lookup ext profile.suffix_fallback) [
    | some doc_type ↦ (doc_type, "suffix_fallback", 0)
    | none ↦ ([], "unmatched", 0)
  ]

  is_empty : List (Text × Text) → Bool
  is_empty [] = true
  is_empty (e ∷ es) = false

  fuzzy_or_fallback : Text → Text → ProfileConfig → Text × String × ℕ
  unfolding best_match fallback is_empty
  fuzzy_or_fallback s ext profile =
      let best = best_match s profile.description_mapping (py.zero_score, []) in
      if profile.matching_config.enable_fuzzy_match && not (is_empty profile.description_mapping)
      then (if py.reaches best.0 profile.matching_config.description_fuzzy_threshold
          then (best.1, "description_fuzzy", py.to_int best.0)
          else fallback ext profile)
      else fallback ext profile

  -- The document type, how it was found, and the score.
  unfoldable pub resolve_document_type : Text → Text → ProfileConfig → Text × String × ℕ
  unfolding find_keyword fuzzy_or_fallback
  resolve_document_type filename ext profile = elim (lookup ext profile.suffix_priority) [
    | some doc_type ↦ (doc_type, "suffix_priority", 100)
    | none ↦ elim (find_keyword (stem filename) profile.description_mapping) [
      | some doc_type ↦ (doc_type, "description_exact", 100)
      | none ↦ fuzzy_or_fallback (stem filename) ext profile
    ]
  ]
