-- ===== src/Classifier/Counts.antt =====
-- The summary of `classify_zip` against its list of items: every counter is the number of items of
-- its kind, and every entry of the archive that is no directory is counted once.

use multi_tenant_file_delive.Prelude.{
  ℕ, suc, ◌+◌, ◌<◌, ◌≡◌, ◌↔◌, Bool, true, false, not, List, [], ◌∷◌, ◌++◌, arith, ◌==◌, string_eq,
  text_eq, length, count_p, count_p-snoc, length-snoc, if◌then◌else◌,
}
use multi_tenant_file_delive.Text.{text, ends_with}
use multi_tenant_file_delive.Classifier.Profile.{ProfileConfig}
use multi_tenant_file_delive.Classifier.Python.{Python}
use multi_tenant_file_delive.Classifier.Item.{ZipInfo, Severity, ClassifiedItem, Progress, start}
use multi_tenant_file_delive.Classifier.Names.{decode_zip_filename}
use multi_tenant_file_delive.Classifier.Engine.{classify_zip}
use multi_tenant_file_delive.Classifier.Outcome.{
  Outcome, ignored, rejected, unmatched, accepted, warned, classify_from_rule,
}

abbrev pub is_ok : ClassifiedItem → Bool
is_ok item = elim item.severity [ Severity.ok ↦ true | _ ↦ false ]

abbrev pub is_warning : ClassifiedItem → Bool
is_warning item = elim item.severity [ Severity.warning ↦ true | _ ↦ false ]

abbrev pub is_error : ClassifiedItem → Bool
is_error item = elim item.severity [ Severity.error ↦ true | _ ↦ false ]

abbrev pub has_unknown_target : ClassifiedItem → Bool
has_unknown_target item = item.error_code == "unknown_target"

-- The entry is a file, which the loop counts.
abbrev pub is_file : Python → ZipInfo → Bool
is_file py info = not (ends_with (decode_zip_filename py info.filename) (text "/"))

-- The counters agree with the items; `due` entries are counted and not yet placed.
pub record IsTallied (due : ℕ) (st : Progress) : Type 0 where
  pub total : st.summary.total ≡ length st.items + st.summary.ignored + due
  pub ok : st.summary.ok ≡ count_p is_ok st.items
  pub warning : st.summary.warning ≡ count_p is_warning st.items
  pub error : st.summary.error ≡ count_p is_error st.items
  pub unmatched_targets : st.summary.unmatched_targets ≡ count_p has_unknown_target st.items
  pub unmatched_document_types : st.summary.unmatched_document_types ≡ count_p is_warning st.items

-- One more item: its effect on the length and on each count.
record Appended (items : List ClassifiedItem) (item : ClassifiedItem) : Type 0 where
  pub size : length (items ++ item ∷ []) ≡ suc (length items)
  pub ok :
      count_p is_ok (items ++ item ∷ [])
      ≡ (if is_ok item then suc (count_p is_ok items) else count_p is_ok items)
  pub warning :
      count_p is_warning (items ++ item ∷ [])
      ≡ (if is_warning item then suc (count_p is_warning items) else count_p is_warning items)
  pub error :
      count_p is_error (items ++ item ∷ [])
      ≡ (if is_error item then suc (count_p is_error items) else count_p is_error items)
  pub unknown : count_p has_unknown_target (items ++ item ∷ []) ≡ (
      if has_unknown_target item
      then suc (count_p has_unknown_target items)
      else count_p has_unknown_target items)

appended : (items : List ClassifiedItem) (item : ClassifiedItem) → Appended items item
appended items item = record {
  size = length-snoc items item;
  ok = count_p-snoc is_ok items item;
  warning = count_p-snoc is_warning items item;
  error = count_p-snoc is_error items item;
  unknown = count_p-snoc has_unknown_target items item;
}

Outcome-IsTallied :
    {src : List ℕ} {st st' : Progress} → Outcome src st st' → IsTallied 1 st → IsTallied 0 st'
Outcome-IsTallied ignored h = ground arith
Outcome-IsTallied {st = st} (rejected item p q r) h = ground (arith, appended st.items item)
Outcome-IsTallied {st = st} (unmatched item p q r) h = ground (arith, appended st.items item)
Outcome-IsTallied {st = st} (accepted item key p q r t u v) h =
    ground (arith, appended st.items item)
Outcome-IsTallied {st = st} (warned item p q r t u v) h = ground (arith, appended st.items item)

module _ (py : Python) (profile : ProfileConfig) where
  -- The counters of the summary are the numbers of items of each kind, whatever the archive: `ok`,
  -- `warning` and `error` by severity, `unmatched_targets` by the error code `unknown_target`, and
  -- `unmatched_document_types` the warnings; `total` is the listed items and the ignored entries;
  -- and the archive is blocked exactly when an item has an error.
  pub classify_zip-counts :
      (infos : List ZipInfo)
      → let (items, summary) = classify_zip py profile infos in
        (summary.total ≡ length items + summary.ignored)
        × (summary.ok ≡ count_p is_ok items)
        × (summary.warning ≡ count_p is_warning items)
        × (summary.error ≡ count_p is_error items)
        × (summary.unmatched_targets ≡ count_p has_unknown_target items)
        × (summary.unmatched_document_types ≡ count_p is_warning items)
        × ((summary.has_blocking_errors ≡ true) ↔ (0 < count_p is_error items))
  unfolding classify_zip
  classify_zip-counts infos =
      let h =
        classify_from_rule py profile (IsTallied 0) (IsTallied 1) (λ st h. ground arith)
          (λ src st st'. Outcome-IsTallied) infos start (omega arith) in
      ground (arith, h)
