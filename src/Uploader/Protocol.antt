-- ===== src/Uploader/Protocol.antt =====
-- What an upload sends on every branch: `upload_file` of control-plane/app/services/s3_uploader.py.

use multi_tenant_file_delive.Prelude.{
  ℕ, ◌+◌, ◌<◌, ◌≤◌, ◌≡◌, refl, sym, ap, ◌∙◌, String, Bool, true, false, Option, none, some, List,
  [], ◌∷◌, ◌++◌, arith, length, leb, Bool-cases, inl, inr, insert_by,
}
use multi_tenant_file_delive.Text.{Text}
use multi_tenant_file_delive.Uploader.{
  Bytes, chunk_size, multipart_threshold, iter_chunks, Part, S3, Request, puts, creates, completes,
  aborts, Sent, reports, unquoted, put_object, part_of, and_parts, upload_parts, part_requests,
  parts_sorted, or_abort, complete, multipart, multipart_upload, UploadResult, result_of,
  upload_file, put_answer,
}
use multi_tenant_file_delive.Uploader.Chunks.{concat, IsCut, iter_chunks-roundtrip}

-- Each chunk has its part: the number from `n` on, and the tag that the store answered when it took
-- the chunk under this number.
abbrev pub Taken : S3 → String → ℕ → List Bytes → List Part → Type 0
Taken s3 upload_id n [] [] = Unit {0}
Taken s3 upload_id n [] (p ∷ ps) = ⊥
Taken s3 upload_id n (c ∷ cs) [] = ⊥
Taken s3 upload_id n (c ∷ cs) (p ∷ ps) =
    (p.part_number ≡ n)
    × (s3.upload_part upload_id n c ≡ some p.etag)
    × Taken s3 upload_id (n + 1) cs ps

upload_parts-Taken :
    (s3 : S3) (upload_id : String) (n : ℕ) (chunks : List Bytes) (parts : List Part)
    → upload_parts s3 upload_id n chunks ≡ some parts
    → Taken s3 upload_id n chunks parts
unfolding upload_parts
upload_parts-Taken s3 upload_id n [] [] h = tt
upload_parts-Taken s3 upload_id n [] (p ∷ ps) h = cc
upload_parts-Taken s3 upload_id n (c ∷ cs) parts h =
    go (s3.upload_part upload_id n c) refl (upload_parts s3 upload_id (n + 1) cs)
      (λ ps e. upload_parts-Taken s3 upload_id (n + 1) cs ps e) parts h
  where
    go :
        (answer : Option Text)
        → s3.upload_part upload_id n c ≡ answer
        → (rest : Option (List Part))
        → ((ps : List Part) → rest ≡ some ps → Taken s3 upload_id (n + 1) cs ps)
        → (parts : List Part) → and_parts (part_of n answer) rest ≡ some parts
        → Taken s3 upload_id n (c ∷ cs) parts
    go none taken rest ih parts h = absurd (cc)
    go (some etag) taken none ih parts h = absurd (cc)
    go (some etag) taken (some ps) ih [] h = absurd (cc)
    go (some etag) taken (some ps) ih (q ∷ qs) h =
        let same : record { part_number = n; etag = etag } ≡ q = ground arith in
        (
          ap (λ (p : Part). p.part_number) (sym same),
          taken ∙ ap (λ (p : Part). some p.etag) same,
          ih qs (ap some (ground arith)),
        )

-- The parts come in the order of their numbers, so that sorting leaves them alone.
insert_by-first :
    (s3 : S3) (upload_id : String) (n : ℕ) (p : Part) (cs : List Bytes) (ps : List Part)
    → p.part_number ≤ n
    → Taken s3 upload_id n cs ps
    → insert_by (λ p q. leb p.part_number q.part_number) p ps ≡ p ∷ ps
unfolding insert_by
insert_by-first s3 upload_id n p [] [] h numbered = refl
insert_by-first s3 upload_id n p [] (q ∷ ps) h numbered = absurd numbered
insert_by-first s3 upload_id n p (c ∷ cs) [] h numbered = absurd numbered
insert_by-first s3 upload_id n p (c ∷ cs) (q ∷ ps) h numbered = ground arith

parts_sorted-eq :
    (s3 : S3) (upload_id : String) (n : ℕ) (cs : List Bytes) (ps : List Part)
    → Taken s3 upload_id n cs ps
    → parts_sorted ps ≡ ps
unfolding parts_sorted
parts_sorted-eq s3 upload_id n [] [] numbered = refl
parts_sorted-eq s3 upload_id n [] (q ∷ ps) numbered = absurd numbered
parts_sorted-eq s3 upload_id n (c ∷ cs) [] numbered = absurd numbered
parts_sorted-eq s3 upload_id n (c ∷ cs) (p ∷ ps) numbered =
    ap (insert_by (λ p q. leb p.part_number q.part_number) p)
      (parts_sorted-eq s3 upload_id (n + 1) cs ps numbered.2)
    ∙ insert_by-first s3 upload_id (n + 1) p cs ps (omega arith) numbered.2

-- How an upload may end.
pub data Outcome (s3 : S3) (content : Bytes) (out : Sent UploadResult) : Type 0 where
  put_whole :
      (etag : Text)
      → length content < multipart_threshold
      → s3.put_object content ≡ some etag
      → out
        ≡ (some (record { etag = unquoted etag; size_bytes = length content }), puts content ∷ [])
      → Outcome s3 content out
  put_raised :
      length content < multipart_threshold
      → out ≡ (none, puts content ∷ [])
      → Outcome s3 content out
  not_created :
      multipart_threshold ≤ length content
      → s3.create_multipart_upload ≡ none
      → out ≡ (none, creates ∷ [])
      → Outcome s3 content out
  completed :
      (upload_id : String) (cs : List Bytes) (ps : List Part) (etag : Text)
      → s3.create_multipart_upload ≡ some upload_id
      → multipart_threshold ≤ length content
      → concat cs ≡ content
      → IsCut chunk_size cs
      → Taken s3 upload_id 1 cs ps
      → s3.complete_multipart_upload upload_id ps ≡ some etag
      → out ≡ (
        some (record { etag = unquoted etag; size_bytes = length content }),
        (creates ∷ part_requests upload_id 1 cs) ++ completes upload_id ps ∷ [],
      )
      → Outcome s3 content out
  aborted :
      (upload_id : String) (sent : List Request)
      → s3.create_multipart_upload ≡ some upload_id
      → multipart_threshold ≤ length content
      → out ≡ (none, sent ++ aborts upload_id ∷ [])
      → Outcome s3 content out

module _ (s3 : S3) (content : Bytes) (on_progress : Option (ℕ → Bool)) where
  completing :
      (upload_id : String) (cs : List Bytes) (reported : Bool) (parts : Option (List Part))
      → s3.create_multipart_upload ≡ some upload_id
      → multipart_threshold ≤ length content
      → concat cs ≡ content
      → IsCut chunk_size cs
      → ((ps : List Part) → parts ≡ some ps → Taken s3 upload_id 1 cs ps)
      → Outcome s3 content (
          result_of content
            (complete s3 upload_id reported parts (creates ∷ part_requests upload_id 1 cs)))
  completing upload_id cs reported none created large whole cut numbered =
      aborted upload_id (creates ∷ part_requests upload_id 1 cs) created large refl
  completing upload_id cs false (some ps) created large whole cut numbered =
      aborted upload_id (creates ∷ part_requests upload_id 1 cs) created large refl
  completing upload_id cs true (some ps) created large whole cut numbered =
      rw (parts_sorted-eq s3 upload_id 1 cs ps (numbered ps refl))
        (answered (s3.complete_multipart_upload upload_id ps) refl)
    where
      answered :
          (answer : Option Text)
          → s3.complete_multipart_upload upload_id ps ≡ answer
          → Outcome s3 content (
              result_of content (
                or_abort upload_id answer
                  ((creates ∷ part_requests upload_id 1 cs) ++ completes upload_id ps ∷ [])))
      answered none e =
          aborted upload_id
            ((creates ∷ part_requests upload_id 1 cs) ++ completes upload_id ps ∷ []) created large
            refl
      answered (some etag) e =
          completed upload_id cs ps etag created large whole cut (numbered ps refl) e refl

  multipart-Outcome :
      (created : Option String)
      → s3.create_multipart_upload ≡ created
      → multipart_threshold ≤ length content
      → Outcome s3 content (
          result_of content
            (multipart s3 content on_progress created (iter_chunks content chunk_size)))
  multipart-Outcome none e large = not_created large e refl
  multipart-Outcome (some upload_id) e large =
      let (cs, yields, whole, cut) = iter_chunks-roundtrip content chunk_size (omega arith) in
      rw yields (
        completing upload_id cs (reports on_progress (length content))
          (upload_parts s3 upload_id 1 cs) e large whole cut (upload_parts-Taken s3 upload_id 1 cs))

  put-Outcome :
      (answer : Option Text)
      → s3.put_object content ≡ answer
      → length content < multipart_threshold
      → Outcome s3 content
          (result_of content (put_answer on_progress content answer, puts content ∷ []))
  put-Outcome none e small = put_raised small refl
  put-Outcome (some etag) e small = elim (Bool-cases (reports on_progress (length content))) [
    | inl done ↦ rw done (put_whole etag small e refl)
    | inr raised ↦ rw raised (put_raised small refl)
  ]

  -- A file below the threshold is sent whole, in one request, and there is an answer only if the
  -- store took it. A larger one is answered only when the store took each of its chunks, numbered
  -- from 1, and the upload was completed with their numbers and the tags that the store gave, in
  -- order; the chunks are the file, and all but the last are full. If anything raises after the
  -- upload was created, its last request aborts it. An answer holds the size of the file.
  pub upload_file-Outcome : Outcome s3 content (upload_file s3 content on_progress)
  unfolding upload_file multipart_upload put_object
  upload_file-Outcome = elim (Bool-cases (leb multipart_threshold (length content))) [
    | inl large ↦ rw large (multipart-Outcome s3.create_multipart_upload refl (ground arith))
    | inr small ↦ rw small (put-Outcome (s3.put_object content) refl (ground arith))
  ]
