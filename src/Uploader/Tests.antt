-- ===== src/Uploader/Tests.antt =====
-- Uploads of control-plane/app/services/s3_uploader.py against a client that takes everything, and
-- against one that loses a part.
use multi_tenant_file_delive.Prelude.{
  ◌≡◌, refl, arith, none, some, List, [], ◌∷◌, ◌==◌, nat_eq, if◌then◌else◌,
}
use multi_tenant_file_delive.Text.{text}
use multi_tenant_file_delive.Uploader.{
  Bytes, iter_chunks, S3, puts, creates, uploads_part, aborts, multipart, upload_file, upload_parts,
  part_requests,
}
use multi_tenant_file_delive.Uploader.Chunks.{concat, IsCut, iter_chunks-roundtrip}
use multi_tenant_file_delive.Uploader.Protocol.{Outcome, upload_file-Outcome}

abbrev willing : S3
willing = record {
  put_object = λ content. some (text "\"e\"");
  create_multipart_upload = some "u";
  upload_part = λ upload_id n chunk. some (text "p");
  complete_multipart_upload = λ upload_id parts. some (text "\"c\"");
  head_bucket = some "404";
  create_bucket = none;
}

abbrev losing : S3
losing = record willing {
  upload_part = λ upload_id n chunk. if n == 2 then none else some (text "p");
}

abbrev seven : Bytes
seven = 1 ∷ 2 ∷ 3 ∷ 4 ∷ 5 ∷ 6 ∷ 7 ∷ []

cut_in_threes : iter_chunks seven 3 ≡ some ((1 ∷ 2 ∷ 3 ∷ []) ∷ (4 ∷ 5 ∷ 6 ∷ []) ∷ (7 ∷ []) ∷ [])
unfolding iter_chunks
cut_in_threes = refl

iter_chunks-roundtrip_example :
    (cs : List Bytes) × (iter_chunks seven 3 ≡ some cs) × (concat cs ≡ seven) × IsCut 3 cs
iter_chunks-roundtrip_example = iter_chunks-roundtrip seven 3 (omega arith)

upload_file-Outcome_example : Outcome willing seven (upload_file willing seven none)
upload_file-Outcome_example = upload_file-Outcome willing seven none

small_file :
    upload_file willing seven none
    ≡ (some (record { etag = text "e"; size_bytes = 7 }), puts seven ∷ [])
unfolding upload_file
small_file = refl

-- Of three parts the second is lost: all are sent, nothing is completed.
lost_part : multipart losing seven none (some "u") (iter_chunks seven 3) ≡ (
  none,
  creates
      ∷ uploads_part "u" 1 (1 ∷ 2 ∷ 3 ∷ [])
      ∷ uploads_part "u" 2 (4 ∷ 5 ∷ 6 ∷ [])
      ∷ uploads_part "u" 3 (7 ∷ [])
      ∷ aborts "u"
      ∷ [],
)
unfolding iter_chunks upload_parts part_requests
lost_part = refl
