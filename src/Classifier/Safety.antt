-- ===== src/Classifier/Safety.antt =====
-- What `classify_zip` says of each item that it lists, and of the targets that it involves.
use multi_tenant_file_delive.Prelude.{
  ◌≡◌, ◌≢◌, refl, ◌⊎◌, inl, inr, Bool, false, not, ◌&&◌, ◌||◌, none, some, List, [], ◌∷◌, ◌∙◌,
  arith, ◌==◌, text_eq, text_beq_iff, any, any-append, contains, All, All-append, Bool-cases,
}
use multi_tenant_file_delive.Text.{Text}
use multi_tenant_file_delive.Classifier.Profile.{ProfileConfig}
use multi_tenant_file_delive.Classifier.Python.{Python}
use multi_tenant_file_delive.Classifier.Item.{
  ZipInfo, Severity, ClassifiedItem, Progress, start, add,
}
use multi_tenant_file_delive.Classifier.Engine.{classify_zip}
use multi_tenant_file_delive.Classifier.Outcome.{
  IsContained, Outcome, ignored, rejected, unmatched, accepted, warned, classify_from_rule,
}
use multi_tenant_file_delive.Classifier.Counts.{is_ok}

-- What an item of the plan is: an error, or a file with no document type and no destination, or
-- a file with a target and a document type; the paths of the last two do not climb.
abbrev pub IsPlaced : ClassifiedItem → Type 0
IsPlaced item =
    (item.severity ≡ Severity.error)
    ⊎ ((item.severity ≡ Severity.warning)
        × (item.document_type ≡ [])
        × (item.dst_path ≡ [])
        × IsContained item)
    ⊎ ((item.severity ≡ Severity.ok)
        × (item.document_type ≢ [])
        × (item.target_name_matched ≢ none)
        × IsContained item)

-- The item goes to a target whose key is not empty.
abbrev pub goes_to : Text → ClassifiedItem → Bool
goes_to t item =
    is_ok item
    && elim item.target_name_matched [ none ↦ false | some key ↦ key == t && not (key == []) ]

-- The set of targets is that of the items listed.
abbrev HasTargets : Text → Progress → Type 0
HasTargets t st = contains t st.summary.targets_involved ≡ any (goes_to t) st.items

contains-add :
    (t key : Text) (ts : List Text) → contains t (add key ts) ≡ (contains t ts || key == t)
unfolding add
contains-add t key ts = elim (Bool-cases (contains key ts)) [
  | inl old ↦ rw old (ground (arith, text_beq_iff key t))
  | inr new ↦ rw new (any-append (λ x. x == t) ts (key ∷ []) ∙ ground arith)
]

Outcome-IsPlaced :
    {src : Text} {st st' : Progress}
    → Outcome src st st'
    → All IsPlaced st.items
    → All IsPlaced st'.items
Outcome-IsPlaced ignored h = h
Outcome-IsPlaced {st = st} (rejected item p q r) h =
    All-append IsPlaced st.items (item ∷ []) h (inl q, tt)
Outcome-IsPlaced {st = st} (unmatched item p q r) h =
    All-append IsPlaced st.items (item ∷ []) h (inl q, tt)
Outcome-IsPlaced {st = st} (accepted item key p q r m typed c) h =
    All-append IsPlaced st.items (item ∷ []) h (inr (inr (q, typed, (λ missing. cc), c)), tt)
Outcome-IsPlaced {st = st} (warned item p q r untyped empty c) h =
    All-append IsPlaced st.items (item ∷ []) h (inr (inl (q, untyped, empty, c)), tt)

Outcome-HasTargets :
    (t : Text) {src : Text} {st st' : Progress}
    → Outcome src st st'
    → HasTargets t st
    → HasTargets t st'
Outcome-HasTargets t ignored h = h
Outcome-HasTargets t {st = st} (rejected item p q r) h =
    rw (any-append (goes_to t) st.items (item ∷ [])) (ground arith)
Outcome-HasTargets t {st = st} (unmatched item p q r) h =
    rw (any-append (goes_to t) st.items (item ∷ [])) (ground arith)
Outcome-HasTargets t {st = st} (accepted item key p q r m typed c) h =
    rw (any-append (goes_to t) st.items (item ∷ []))
      (ground (arith, contains-add t key st.summary.targets_involved, text_beq_iff key []))
Outcome-HasTargets t {st = st} (warned item p q r untyped empty c) h =
    rw (any-append (goes_to t) st.items (item ∷ [])) (ground arith)

module _ (py : Python) (profile : ProfileConfig) where
  -- Every item of the plan is an error; or a warning with no document type and no destination; or
  -- a file with a matched target and a document type. The paths of a warning and of a file are
  -- not absolute (the source) and have no component `..` (both).
  pub classify_zip-IsPlaced :
      (infos : List ZipInfo) → All IsPlaced (classify_zip py profile infos).0
  unfolding classify_zip
  classify_zip-IsPlaced infos =
      classify_from_rule py profile (λ st. All IsPlaced st.items) (λ st. All IsPlaced st.items)
        (λ st h. h) (λ src st st'. Outcome-IsPlaced) infos start tt

  -- The targets involved are exactly the targets of the items without warning or error.
  classify_zip-targets :
      (infos : List ZipInfo) (t : Text)
      → let (items, summary) = classify_zip py profile infos in
        contains t summary.targets_involved ≡ any (goes_to t) items
  unfolding classify_zip
  classify_zip-targets infos t =
      classify_from_rule py profile (HasTargets t) (HasTargets t) (λ st h. h)
        (λ src st st'. Outcome-HasTargets t) infos start refl
