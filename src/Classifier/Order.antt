-- ===== src/Classifier/Order.antt =====
-- `classify_zip` treats each entry by itself and in the order of the archive, and counts each file
-- once.
use mathlib.Core.List.{append-nil, append_assoc}
use multi_tenant_file_delive.Prelude.{
  ℕ, ◌+◌, ◌≡◌, refl, ◌∙◌, ap, sym, Bool, true, false, not, none, some, Option, String, List, [],
  ◌∷◌, ◌++◌, arith, ◌==◌, text_eq, string_eq, count_p, any, contains, if◌then◌else◌,
}
use multi_tenant_file_delive.Text.{Text, text, starts_with, ends_with}
use multi_tenant_file_delive.Classifier.Profile.{ProfileConfig}
use multi_tenant_file_delive.Classifier.Python.{Python}
use multi_tenant_file_delive.Classifier.Item.{ZipInfo, ClassifiedItem, Progress, start}
use multi_tenant_file_delive.Classifier.Names.{decode_zip_filename, is_path_traversal}
use multi_tenant_file_delive.Classifier.Targets.{extract_target_raw}
use multi_tenant_file_delive.Classifier.Documents.{resolve_document_type}
use multi_tenant_file_delive.Classifier.Engine.{
  Entry, ignore, count_entry, entry_of, finish_entry, with_target, matched_target, classify_target,
  filter_entry, classify_entry, classify_from, classify_zip, destination, category_name_of,
}
use multi_tenant_file_delive.Classifier.Outcome.{
  Outcome, ignored, rejected, unmatched, accepted, warned, filter_entry-Outcome,
}
use multi_tenant_file_delive.Classifier.Counts.{is_file}

-- The items that a step adds do not depend on the state, and go to the end.
abbrev IsLocal : (Progress → Progress) → Type 0
IsLocal f = (st : Progress) → (f st).items ≡ st.items ++ (f start).items

ignore-IsLocal : IsLocal ignore
ignore-IsLocal st = sym (append-nil st.items)

if_IsLocal :
    (b : Bool) (f g : Progress → Progress)
    → IsLocal f
    → IsLocal g
    → IsLocal (λ st. if b then f st else g st)
if_IsLocal true f g lf lg = lf
if_IsLocal false f g lf lg = lg

Outcome-total :
    {src : Text} {st st' : Progress} → Outcome src st st' → st'.summary.total ≡ st.summary.total
Outcome-total ignored = refl
Outcome-total (rejected item p q r) = refl
Outcome-total (unmatched item p q r) = refl
Outcome-total (accepted item key p q r m typed c) = refl
Outcome-total (warned item p q r untyped empty c) = refl

module _ (profile : ProfileConfig) where
  finish_entry-IsLocal :
      (e : Entry) (raw key : Text) (method : String) (found : Text × String × ℕ)
      → IsLocal (finish_entry profile e raw key method found)
  unfolding finish_entry
  finish_entry-IsLocal e raw key method (doc_type, doc_method, score) =
      let dst = destination profile (category_name_of profile doc_type) doc_type e.filename in
      if_IsLocal (not (dst.1 == "")) _ _ (λ st. refl)
        (if_IsLocal (doc_type == []) _ _ (λ st. refl) (λ st. refl))

module _ (py : Python) (profile : ProfileConfig) where
  with_target-IsLocal :
      (e : Entry) (raw : Text) (found : Option Text × String)
      → IsLocal (with_target py profile e raw found)
  unfolding with_target
  with_target-IsLocal e raw (none, method) st = refl
  with_target-IsLocal e raw (some key, method) st =
      finish_entry-IsLocal profile e raw key method
        (resolve_document_type py e.filename e.ext profile) st

  filter_entry-IsLocal : (e : Entry) → IsLocal (filter_entry py profile e)
  unfolding filter_entry classify_target
  filter_entry-IsLocal e =
      let (raw, code) = extract_target_raw e.src_path e.filename profile in
      if_IsLocal (is_path_traversal e.src_path) _ _ (λ st. refl)
        (if_IsLocal (contains e.filename profile.entry_filters.ignored_filenames) _ _ ignore-IsLocal
          (if_IsLocal
            (any (λ prefix. starts_with e.src_path prefix) profile.entry_filters.ignored_prefixes) _
            _ ignore-IsLocal
            (if_IsLocal (code == "unknown_target") _ _ (λ st. refl)
              (with_target-IsLocal e raw (matched_target py profile raw)))))

  classify_entry-IsLocal : (info : ZipInfo) → IsLocal (classify_entry py profile info)
  unfolding classify_entry
  classify_entry-IsLocal info =
      let src : Text = decode_zip_filename py info.filename in
      let e : Entry = entry_of py profile src info.file_size in
      if_IsLocal (ends_with src (text "/")) _ _ (λ st. sym (append-nil st.items))
        (λ st.
          filter_entry-IsLocal e (count_entry st)
          ∙ ap (λ (l : List ClassifiedItem). st.items ++ l)
              (sym (filter_entry-IsLocal e (count_entry start))))

  classify_from-IsLocal : (infos : List ZipInfo) → IsLocal (classify_from py profile infos)
  unfolding classify_from
  classify_from-IsLocal [] st = sym (append-nil st.items)
  classify_from-IsLocal (info ∷ infos) st = cc (
    classify_from-IsLocal infos (classify_entry py profile info st),
    classify_from-IsLocal infos (classify_entry py profile info start),
    classify_entry-IsLocal info st,
    append_assoc st.items (classify_entry py profile info start).items
        (classify_from py profile infos start).items,
  )

  classify_from-append :
      (xs ys : List ZipInfo) (st : Progress)
      → classify_from py profile (xs ++ ys) st
        ≡ classify_from py profile ys (classify_from py profile xs st)
  unfolding classify_from
  classify_from-append [] ys st = refl
  classify_from-append (x ∷ xs) ys st = classify_from-append xs ys (classify_entry py profile x st)

  -- Classifying two archives one after the other lists what classifying them together lists, in
  -- that order: no entry changes how another is classified.
  pub classify_zip-append :
      (xs ys : List ZipInfo)
      → (classify_zip py profile (xs ++ ys)).0
        ≡ (classify_zip py profile xs).0 ++ (classify_zip py profile ys).0
  unfolding classify_zip
  classify_zip-append xs ys =
      rw (classify_from-append xs ys start)
        (classify_from-IsLocal ys (classify_from py profile xs start))

  classify_entry-total :
      (info : ZipInfo) (st : Progress)
      → (classify_entry py profile info st).summary.total
        ≡ st.summary.total + (if is_file py info then 1 else 0)
  unfolding classify_entry
  classify_entry-total info st =
      let src : Text = decode_zip_filename py info.filename in
      let e : Entry = entry_of py profile src info.file_size in
      ground (arith, Outcome-total (filter_entry-Outcome py profile e (count_entry st)))

  classify_from-total :
      (infos : List ZipInfo) (st : Progress)
      → (classify_from py profile infos st).summary.total
        ≡ st.summary.total + count_p (is_file py) infos
  unfolding classify_from
  classify_from-total [] st = omega arith
  classify_from-total (info ∷ infos) st = ground (
    arith,
    classify_from-total infos (classify_entry py profile info st),
    classify_entry-total info st,
  )

  -- Every entry whose decoded name does not end with a slash is counted, once.
  pub classify_zip-total :
      (infos : List ZipInfo) → (classify_zip py profile infos).1.total ≡ count_p (is_file py) infos
  unfolding classify_zip
  classify_zip-total infos = ground (arith, classify_from-total infos start)
