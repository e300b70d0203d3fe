-- ===== src/Api/Intake/Extracting.antt =====
-- Where the files of an archive are written: `_extract_internal_archive` of
-- control-plane/app/api/tasks.py.
use mathlib.Core.List.{append-nil}
use multi_tenant_file_delive.Prelude.{
  ℕ, ◌≡◌, ◌≢◌, refl, ◌∙◌, true, false, some, List, [], ◌∷◌, ◌++◌, arith, keep, any, all, ◌==◌,
  text_eq, text_beq, nat_eq, Bool-cases, Option-cases, inl, inr, All, All-append, All-keep,
  all-keep, ==_refl,
}
use multi_tenant_file_delive.Text.{
  Text, text, split, join, starts_with, ends_with, strip_by, replace_char,
}
use multi_tenant_file_delive.Text.Splitting.{without, split-Without, split-join}
use multi_tenant_file_delive.Paths.{slash, root, is_component}
use multi_tenant_file_delive.Paths.Normal.{join_path, normpath, normal_parts, render}
use multi_tenant_file_delive.Paths.Normal.Joining.{join_path-parts}
use multi_tenant_file_delive.Api.Intake.Names.{safe_archive_name, safe_parts, is_part, is_up}
use multi_tenant_file_delive.Api.Intake.Folder.{Entry}
use multi_tenant_file_delive.Api.Intake.Extraction.{
  WrittenFile, safe_path, write_entry, extract_entry, extract_entries, read_entry,
}

safe_parts-eq :
    (p : Text) (ps : List Text) (name : Text)
    → safe_parts (p ∷ ps) ≡ some name
    → (any is_up (p ∷ ps) ≡ false) × (name ≡ join slash (p ∷ ps))
safe_parts-eq p ps name h = elim (Bool-cases (any is_up (p ∷ ps))) [
  | inl up ↦ absurd (ground arith)
  | inr down ↦ (down, ground arith)
]

-- The first character of joined parts is that of the first part.
join-relative :
    (c : ℕ) (p : Text) (ps : List Text)
    → (c == slash) ≡ false
    → starts_with (join slash ((c ∷ p) ∷ ps)) (text "/") ≡ false
unfolding join starts_with
join-relative c p [] h = ground arith
join-relative c p (q ∷ ps) h = ground arith

safe_parts-stay :
    (ps : List Text) (name : Text)
    → All (λ p. without slash p ≡ true) ps
    → all is_part ps ≡ true
    → safe_parts ps ≡ some name
    → (starts_with name (text "/") ≡ false) × (any is_up (split slash name) ≡ false)
safe_parts-stay [] name no_slash real h = absurd (cc)
safe_parts-stay ([] ∷ ps) name no_slash real h = absurd (unfold text_beq in ground arith)
safe_parts-stay ((c ∷ p) ∷ ps) name no_slash real h =
    let (down, e) = safe_parts-eq (c ∷ p) ps name h in
    rw e (join-relative c p ps (ground arith), rw (split-join slash (c ∷ p) ps no_slash) down)

-- A safe name neither starts at the root nor climbs.
pub safe_archive_name-stays :
    (raw_name name : Text)
    → safe_archive_name raw_name ≡ some name
    → (starts_with name (text "/") ≡ false) × (any is_up (split slash name) ≡ false)
unfolding safe_archive_name
safe_archive_name-stays raw_name name h =
    let stripped = strip_by (λ c. c == slash) (replace_char b'\\' slash raw_name) in
    let cut = split slash stripped in
    safe_parts-stay (keep is_part cut) name
      (All-keep (λ p. without slash p ≡ true) is_part cut (split-Without slash stripped))
      (all-keep is_part cut) h

-- The file that an entry of the archive becomes.
pub record IsExtracted (dir : Text) (archive : List Entry) (file : WrittenFile) (e : Entry)
    (name : Text) : Type 0 where
  pub safe : safe_archive_name e.filename ≡ some name
  pub content : file.content ≡ read_entry e.filename archive []
  pub path :
      file.path ≡ render (root dir) (normal_parts dir ++ keep is_component (split slash name))
  pub stays : any is_up (split slash name) ≡ false
  pub deeper : keep is_component (split slash name) ≢ []

not_under_itself : (p : Text) → starts_with p (p ++ text "/") ≡ false
unfolding starts_with
not_under_itself [] = refl
not_under_itself (c ∷ p) = rw (==_refl c) (not_under_itself p)

safe_path-eq :
    (dir name : Text)
    → dir ≢ []
    → starts_with name (text "/") ≡ false
    → any is_up (split slash name) ≡ false
    → safe_path dir name
      ≡ render (root dir) (normal_parts dir ++ keep is_component (split slash name))
safe_path-eq dir name some_dir relative stays =
    let (same_root, parts) = join_path-parts dir name some_dir relative stays in
    normpath_lem (join_path dir name) ∙ rw (same_root, parts) refl
  where
    normpath_lem : (p : Text) → normpath p ≡ render (root p) (normal_parts p)
    normpath_lem p = unfold normpath in refl

-- What lies strictly under the directory has a component of its own.
deeper_lem :
    (dir name : Text)
    → safe_path dir name
      ≡ render (root dir) (normal_parts dir ++ keep is_component (split slash name))
    → starts_with (safe_path dir name) (normpath dir ++ text "/") ≡ true
    → keep is_component (split slash name) ≢ []
deeper_lem dir name path under none_left = cc (not_under_itself (normpath dir), under, same)
  where
    same : safe_path dir name ≡ normpath dir
    same = path ∙ unfold normpath in rw (none_left, append-nil) refl

abbrev pub Extracted : Text → List Entry → WrittenFile → Type 0
Extracted dir archive file = (e : Entry) × (name : Text) × IsExtracted dir archive file e name

module _ (dir : Text) (archive : List Entry) (some_dir : dir ≢ []) where
  write_entry-Extracted :
      (e : Entry) (name : Text)
      → safe_archive_name e.filename ≡ some name
      → All (Extracted dir archive) (write_entry dir (read_entry e.filename archive []) (some name))
  write_entry-Extracted e name safe =
      let (relative, stays) = safe_archive_name-stays e.filename name safe in
      let path = safe_path-eq dir name some_dir relative stays in
      elim (Bool-cases (starts_with (safe_path dir name) (normpath dir ++ text "/"))) [
        | inr out ↦ rw out tt
        | inl under ↦ rw under (
          (
            e,
            name,
            record {
              safe = safe;
              content = refl;
              path = path;
              stays = stays;
              deeper = deeper_lem dir name path under;
            },
          ),
          tt,
        )
      ]

  extract_entry-Extracted : (e : Entry) → All (Extracted dir archive) (extract_entry dir archive e)
  extract_entry-Extracted e = elim (Bool-cases (ends_with e.filename (text "/"))) [
    | inl directory ↦ rw directory tt
    | inr plain ↦ rw plain (elim (Option-cases (safe_archive_name e.filename)) [
      | inl unsafe ↦ rw unsafe tt
      | inr (name, safe) ↦ rw safe (write_entry-Extracted e name safe)
    ])
  ]

  -- Whatever names an archive holds, each file that is written comes from an entry with a safe name
  -- and has the bytes that the archive has under it; its path is that of the directory, with the
  -- components of the name behind it, of which there is one at least and none climbs.
  pub extract_entries-Extracted :
      (entries : List Entry) → All (Extracted dir archive) (extract_entries dir archive entries)
  unfolding extract_entries
  extract_entries-Extracted [] = tt
  extract_entries-Extracted (e ∷ entries) =
      All-append (Extracted dir archive) (extract_entry dir archive e)
        (extract_entries dir archive entries) (extract_entry-Extracted e)
        (extract_entries-Extracted entries)
