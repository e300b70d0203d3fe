-- ===== src/Api/Intake/Bounds.antt =====
-- What a folder is packed into, and within which limits: `_prepare_folder_upload` of
-- control-plane/app/api/tasks.py.
use mathlib.Core.List.{append_assoc, append-nil}
use multi_tenant_file_delive.Prelude.{
  ℕ, ◌+◌, ◌<◌, ◌≤◌, ◌≡◌, refl, sym, ap, ◌∙◌, false, Option, some, List, [], ◌∷◌, ◌++◌, arith,
  length, text_eq,
}
use multi_tenant_file_delive.Text.{Text}
use multi_tenant_file_delive.Store.Session.{Session}
use multi_tenant_file_delive.Store.Ensures.{
  Ensures, ensures-pure, ensures-bind, ensures-or_raise, ensures-raise_if, ensures-weaken,
}
use multi_tenant_file_delive.Api.Intake.Names.{safe_archive_name}
use multi_tenant_file_delive.Api.Intake.Folder.{
  UploadFile, Entry, IntakeSettings, max_files, max_payload, max_archive, Received,
  nothing_received, received, or_nil, receive, receive_all, zipped, PreparedArchive, uploads_empty,
  prepare_folder_upload,
}

-- Entry by entry, the safe names of the uploads with their bytes.
abbrev pub Packs : List UploadFile → List Entry → Type 0
Packs [] [] = Unit {0}
Packs [] (e ∷ es) = ⊥
Packs (u ∷ us) [] = ⊥
Packs (u ∷ us) (e ∷ es) =
    (safe_archive_name (or_nil u.filename) ≡ some e.filename)
    × (e.content ≡ u.content)
    × Packs us es

abbrev pub total_content : List UploadFile → ℕ
total_content [] = 0
total_content (u ∷ us) = length u.content + total_content us

-- What the loop over the uploads adds to its variables.
record Receives (settings : IntakeSettings) (uploads : List UploadFile) (s : Session)
    (st st' : Received) (t : Session) (entries : List Entry) : Type 0 where
  packed : Packs uploads entries
  added : st'.safe_entries ≡ st.safe_entries ++ entries
  count : st'.file_count ≡ st.file_count + length uploads
  total : st'.total_size ≡ st.total_size + total_content uploads
  few : st'.file_count ≤ max_files settings
  small : st'.total_size ≤ max_payload settings
  quiet : t ≡ s

-- One upload: its name is safe, and the totals with it are within the limits.
record Receipt (settings : IntakeSettings) (upload : UploadFile) (s : Session) (st st' : Received)
    (t : Session) (name : Text) : Type 0 where
  safe : safe_archive_name (or_nil upload.filename) ≡ some name
  added : st' ≡ received name upload.content st
  few : st'.file_count ≤ max_files settings
  small : st'.total_size ≤ max_payload settings
  quiet : t ≡ s

module _ (settings : IntakeSettings) where
  receive-Receipt :
      (upload : UploadFile) (st : Received) (s : Session)
      → Ensures
          (receive settings upload st)
          s
          (λ st' t. (name : Text) × Receipt settings upload s st st' t name)
  unfolding receive
  receive-Receipt upload st s = ensures-or_raise _ _ _ λ name safe. ensures-raise_if _ _ _ λ few.
      ensures-raise_if _ _ _ λ small. ensures-pure (received name upload.content st) (
        name,
        record {
          safe = safe;
          added = refl;
          few = ground arith;
          small = ground arith;
          quiet = refl;
        },
      )

  receive_all-Receives :
      (uploads : List UploadFile) (st : Received) (s : Session)
      → st.file_count ≤ max_files settings
      → st.total_size ≤ max_payload settings
      → Ensures
          (receive_all settings uploads st)
          s
          (λ st' t. (entries : List Entry) × Receives settings uploads s st st' t entries)
  unfolding receive_all
  receive_all-Receives [] st s few small = ensures-pure st (
    [],
    record {
      packed = tt;
      added = sym (append-nil _);
      count = omega arith;
      total = omega arith;
      few = few;
      small = small;
      quiet = refl;
    },
  )
  receive_all-Receives (u ∷ us) st s few small =
      ensures-bind _ _ _ (receive-Receipt u st s) λ st' t one.
        ensures-weaken _ _ (receive_all-Receives us st' t one.1.few one.1.small)
          λ st'' t' more. (entry one.0 ∷ more.0, joined st' st'' t t' one.0 more.0 one.1 more.1)
    where
      entry : Text → Entry
      entry name = record { filename = name; content = u.content }

      joined :
          (st' st'' : Received) (t t' : Session) (name : Text) (entries : List Entry)
          → Receipt settings u s st st' t name
          → Receives settings us t st' st'' t' entries
          → Receives settings (u ∷ us) s st st'' t' (entry name ∷ entries)
      joined st' st'' t t' name entries one more = record {
        packed = (one.safe, refl, more.packed);
        added = more.added ∙ rw one.added (append_assoc st.safe_entries (entry name ∷ []) entries);
        count = omega (arith, more.count, ap (λ (r : Received). r.file_count) one.added);
        total = omega (arith, more.total, ap (λ (r : Received). r.total_size) one.added);
        few = more.few;
        small = more.small;
        quiet = more.quiet ∙ one.quiet;
      }

-- A prepared archive, and the uploads that it was made of.
pub record IsPacked (packed : List Entry → ℕ) (settings : IntakeSettings)
    (uploads : List UploadFile) (s : Session) (prepared : PreparedArchive) (t : Session)
    (entries : List Entry) : Type 0 where
  pub packs : Packs uploads entries
  pub written : prepared.entries ≡ zipped entries
  pub some_files : 0 < length uploads
  pub few : length uploads ≤ max_files settings
  pub small : total_content uploads ≤ max_payload settings
  pub archive : packed prepared.entries ≤ max_archive settings
  pub quiet : t ≡ s

some_uploads : (uploads : List UploadFile) → uploads_empty uploads ≡ false → 0 < length uploads
some_uploads [] h = absurd (cc)
some_uploads (u ∷ us) h = omega arith

-- An archive is prepared only of at least one file and at most as many as the settings allow, whose
-- bytes together, and whose compressed form, are within the limits; it has one entry for each
-- file, in their order, under the file's safe name and with its bytes; nothing else changes.
pub prepare_folder_upload-IsPacked :
    (packed : List Entry → ℕ) (settings : IntakeSettings) (uploads : List UploadFile)
    (submission_label : Option Text) (s : Session)
    → Ensures (prepare_folder_upload packed settings uploads submission_label) s (λ prepared t.
      (entries : List Entry) × IsPacked packed settings uploads s prepared t entries)
unfolding prepare_folder_upload
prepare_folder_upload-IsPacked packed settings uploads submission_label s =
    ensures-raise_if _ _ _ λ not_empty.
      ensures-bind _ _ _
        (receive_all-Receives settings uploads nothing_received s (omega arith) (omega arith))
        λ st t loop. ensures-raise_if _ _ _ λ fits. ensures-pure _ (
          loop.0,
          record {
            packs = loop.1.packed;
            written = ap zipped loop.1.added;
            some_files = some_uploads uploads not_empty;
            few = omega (arith, loop.1.count, loop.1.few);
            small = omega (arith, loop.1.total, loop.1.small);
            archive = ground arith;
            quiet = loop.1.quiet;
          },
        )
