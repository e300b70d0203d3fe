-- ===== src/Classifier/Outcome.antt =====
-- What one round of the loop of `classify_zip` may do, as a relation between the states before and
-- after: the case analysis that the proofs about the loop share.
use multi_tenant_file_delive.Prelude.{
  ℕ, String, ◌≡◌, ◌≢◌, refl, true, false, none, some, ◌⊎◌, inl, inr, List, [], ◌∷◌, ◌==◌, string_eq,
  text_eq, text_beq, arith, any, contains, Bool-cases, text_beq_iff, if_rule, ==_refl, Option,
}
use multi_tenant_file_delive.Text.{Text, text, starts_with, ends_with}
use multi_tenant_file_delive.Paths.{climbs}
use multi_tenant_file_delive.Classifier.Profile.{ProfileConfig}
use multi_tenant_file_delive.Classifier.Python.{Python}
use multi_tenant_file_delive.Classifier.Item.{ZipInfo, Severity, ClassifiedItem, Progress}
use multi_tenant_file_delive.Classifier.Names.{decode_zip_filename, is_path_traversal, render_path}
use multi_tenant_file_delive.Classifier.Targets.{extract_target_raw}
use multi_tenant_file_delive.Classifier.Documents.{resolve_document_type}
use multi_tenant_file_delive.Classifier.Engine.{
  ignore, reject, reject_target, accept, warn, destination, category_name_of, Entry, finish_entry,
  matched_target, with_target, classify_target, filter_entry, classify_entry, classify_from,
  entry_of, count_entry,
}

-- Neither path of the item steps out of its directory.
abbrev pub IsContained : ClassifiedItem → Type 0
IsContained item = (is_path_traversal item.src_path ≡ false) × (climbs item.dst_path ≡ false)

-- How an entry that is no directory leaves the state.
pub data Outcome (src : Text) (st : Progress) : Progress → Type 0 where
  ignored : Outcome src st (ignore st)
  rejected :
      (item : ClassifiedItem)
      → item.src_path ≡ src
      → item.severity ≡ Severity.error
      → (item.error_code == "unknown_target") ≡ false
      → Outcome src st (reject item st)
  unmatched :
      (item : ClassifiedItem)
      → item.src_path ≡ src
      → item.severity ≡ Severity.error
      → (item.error_code == "unknown_target") ≡ true
      → Outcome src st (reject_target item st)
  accepted :
      (item : ClassifiedItem) (key : Text)
      → item.src_path ≡ src
      → item.severity ≡ Severity.ok
      → (item.error_code == "unknown_target") ≡ false
      → item.target_name_matched ≡ some key
      → item.document_type ≢ []
      → IsContained item
      → Outcome src st (accept item key st)
  warned :
      (item : ClassifiedItem)
      → item.src_path ≡ src
      → item.severity ≡ Severity.warning
      → (item.error_code == "unknown_target") ≡ false
      → item.document_type ≡ []
      → item.dst_path ≡ []
      → IsContained item
      → Outcome src st (warn item st)

climbs-nil : climbs [] ≡ false
unfolding climbs text_beq
climbs-nil = refl

-- The destination is empty or the rendered path, and a path that climbs is an error.
destination-cases :
    (profile : ProfileConfig) (category doc_type filename : Text)
    → let (dst, code) = destination profile category doc_type filename in
      ((code ≡ "") × (climbs dst ≡ false)) ⊎ (code ≡ "path_render_error")
unfolding destination render_path
destination-cases profile category doc_type filename = ground (arith, climbs-nil)

destination-nil :
    (profile : ProfileConfig) (category filename : Text)
    → destination profile category [] filename ≡ ([], "")
unfolding destination text_beq
destination-nil profile category filename = refl

destination-untyped :
    (profile : ProfileConfig) (category doc_type filename : Text)
    → doc_type ≡ []
    → (destination profile category doc_type filename).0 ≡ []
destination-untyped profile category doc_type filename h =
    rw h (rw (destination-nil profile category filename))

module _ (profile : ProfileConfig) (e : Entry)
    (contained : is_path_traversal e.src_path ≡ false) where
  -- With the destination named, the two ways to finish.
  finish_entry-Outcome :
      (raw key : Text) (method : String) (found : Text × String × ℕ) (st : Progress)
      → Outcome e.src_path st (finish_entry profile e raw key method found st)
  unfolding finish_entry
  finish_entry-Outcome raw key method (doc_type, doc_method, score) st =
      let category : Text = category_name_of profile doc_type in
      elim (destination-cases profile category doc_type e.filename) [
        | inl (fine, safe) ↦ rw fine (elim (Bool-cases (doc_type == [])) [
          | inl untyped ↦
              let none_found = (text_beq_iff doc_type []).0 untyped in
              rw untyped (
                warned _ refl refl refl none_found
                  (destination-untyped profile category doc_type e.filename none_found)
                  (contained, safe))
          | inr typed ↦ rw typed (
              accepted _ key refl refl refl refl (λ untyped. cc (==_refl doc_type))
                (contained, safe))
        ])
        | inr bad ↦ rw bad (rejected _ refl refl refl)
      ]

module _ (py : Python) (profile : ProfileConfig) where
  with_target-Outcome :
      (e : Entry) (raw : Text) (found : Option Text × String) (st : Progress)
      → is_path_traversal e.src_path ≡ false
      → Outcome e.src_path st (with_target py profile e raw found st)
  unfolding with_target
  with_target-Outcome e raw (none, method) st h = unmatched _ refl refl refl
  with_target-Outcome e raw (some key, method) st h =
      finish_entry-Outcome profile e h raw key method
        (resolve_document_type py e.filename e.ext profile) st

  classify_target-Outcome :
      (e : Entry) (found : Text × String) (st : Progress)
      → is_path_traversal e.src_path ≡ false
      → Outcome e.src_path st (classify_target py profile e found st)
  unfolding classify_target
  classify_target-Outcome e (raw, code) st h = elim (Bool-cases (code == "unknown_target")) [
    | inl failed ↦ rw failed (unmatched _ refl refl refl)
    | inr fine ↦ rw fine (with_target-Outcome e raw (matched_target py profile raw) st h)
  ]

  -- An entry that is no directory, once counted, is ignored, rejected or listed.
  pub filter_entry-Outcome :
      (e : Entry) (st : Progress) → Outcome e.src_path st (filter_entry py profile e st)
  unfolding filter_entry
  filter_entry-Outcome e st = elim (Bool-cases (is_path_traversal e.src_path)) [
    | inl climbing ↦ rw climbing (rejected _ refl refl refl)
    | inr contained ↦ rw contained (
        if_rule (Outcome e.src_path st)
          (contains e.filename profile.entry_filters.ignored_filenames) ignored
          (if_rule (Outcome e.src_path st)
            (any (λ prefix. starts_with e.src_path prefix) profile.entry_filters.ignored_prefixes)
            ignored
            (classify_target-Outcome e (extract_target_raw e.src_path e.filename profile) st
              contained)))
  ]

  -- Induction over the loop: counting an entry leads from `P` to `Q`, and its outcome back to `P`.
  module _ (P Q : Progress → Type 0) (count : (st : Progress) → P st → Q (count_entry st))
      (step : (src : Text) (st st' : Progress) → Outcome src st st' → Q st → P st') where
    pub classify_from_rule :
        (infos : List ZipInfo) (st : Progress) → P st → P (classify_from py profile infos st)
    unfolding classify_from classify_entry
    classify_from_rule [] st h = h
    classify_from_rule (info ∷ infos) st h =
        let src : Text = decode_zip_filename py info.filename in
        let e : Entry = entry_of py profile src info.file_size in
        classify_from_rule infos (classify_entry py profile info st) (
          if_rule P (ends_with src (text "/")) h (
            step src (count_entry st) (filter_entry py profile e (count_entry st))
              (filter_entry-Outcome e (count_entry st)) (count st h)))
