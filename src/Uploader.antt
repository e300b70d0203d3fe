-- ===== src/Uploader.antt =====
-- The upload of one file: control-plane/app/services/s3_uploader.py. The S3 client is third-party: it
-- is a record that says of each request what it answers, `none` where it raises; what was sent is a
-- list of requests. Exceptions carry nothing here.
pub mod Chunks
pub mod Protocol
pub mod Tests
use multi_tenant_file_delive.Prelude.{
  ℕ, zero, suc, ◌+◌, ◌*◌, String, Bool, true, false, Option, none, some, List, [], ◌∷◌, ◌++◌, map,
  ◌==◌, nat_eq, string_eq, ltb, leb, length, sort_by, ◌||◌, if◌then◌else◌,
}
use multi_tenant_file_delive.Text.{Text, text, take, drop, strip_by}

abbrev pub Bytes : Type 0
Bytes = List ℕ

-- `CHUNK_SIZE` and `MULTIPART_THRESHOLD`
abbrev pub chunk_size : ℕ
chunk_size = 8_388_608

abbrev pub multipart_threshold : ℕ
multipart_threshold = 52_428_800

abbrev pub prepend : {A : Type 0} → A → Option (List A) → Option (List A)
prepend x none = none
prepend x (some xs) = some (x ∷ xs)

-- `while offset < len(data)`, with fuel; `none` says that the fuel ran out.
unfoldable pub chunks_from : ℕ → ℕ → Bytes → ℕ → Option (List Bytes)
chunks_from zero offset content size = none
chunks_from (suc fuel) offset content size =
    let rest =
      prepend (take size (drop offset content)) (chunks_from fuel (offset + size) content size) in
    if ltb offset (length content) then rest else some []

-- `list(_iter_chunks(data, chunk_size))`
unfoldable pub iter_chunks : Bytes → ℕ → Option (List Bytes)
unfolding chunks_from
iter_chunks content size = chunks_from (suc (length content)) 0 content size

-- `{"PartNumber": part_number, "ETag": resp["ETag"]}`
pub record Part : Type 0 where
  pub part_number : ℕ
  pub etag : Text

-- What the client answers.
pub record S3 : Type 0 where
  pub put_object : Bytes → Option Text
  pub create_multipart_upload : Option String
  pub upload_part : String → ℕ → Bytes → Option Text
  pub complete_multipart_upload : String → List Part → Option Text
  pub head_bucket : Option String
  pub create_bucket : Option String

-- The requests that change the store.
pub data Request : Type 0 where
  puts : Bytes → Request
  creates : Request
  uploads_part : String → ℕ → Bytes → Request
  completes : String → List Part → Request
  aborts : String → Request
  creates_bucket : Request

-- What a call answers, or that it raises, and what it sent.
abbrev pub Sent : Type 0 → Type 0
Sent A = Option A × List Request

-- `on_progress` raises or not; `none` is no callback.
abbrev pub reports : Option (ℕ → Bool) → ℕ → Bool
reports none n = true
reports (some on_progress) n = on_progress n

-- `etag.strip('"')`
abbrev pub unquoted : Text → Text
unquoted = strip_by (λ c. c == 34)

abbrev if_reported : Bool → Text → Option Text
if_reported true etag = some (unquoted etag)
if_reported false etag = none

abbrev put_answer : Option (ℕ → Bool) → Bytes → Option Text → Option Text
put_answer on_progress content none = none
put_answer on_progress content (some etag) = if_reported (reports on_progress (length content)) etag

unfoldable pub put_object : S3 → Bytes → Option (ℕ → Bool) → Sent Text
unfolding strip_by
put_object s3 content on_progress =
    (put_answer on_progress content (s3.put_object content), puts content ∷ [])

abbrev pub part_of : ℕ → Option Text → Option Part
part_of n none = none
part_of n (some etag) = some (record { part_number = n; etag = etag })

abbrev pub and_parts : Option Part → Option (List Part) → Option (List Part)
and_parts none parts = none
and_parts (some part) parts = prepend part parts

-- `asyncio.gather` over the parts, numbered from `n`: their answers in order, or a raise.
unfoldable pub upload_parts : S3 → String → ℕ → List Bytes → Option (List Part)
upload_parts s3 upload_id n [] = some []
upload_parts s3 upload_id n (chunk ∷ chunks) =
    and_parts (part_of n (s3.upload_part upload_id n chunk))
      (upload_parts s3 upload_id (n + 1) chunks)

-- All parts are sent, whichever of them fails.
unfoldable pub part_requests : String → ℕ → List Bytes → List Request
part_requests upload_id n [] = []
part_requests upload_id n (chunk ∷ chunks) =
    uploads_part upload_id n chunk ∷ part_requests upload_id (n + 1) chunks

unfoldable pub parts_sorted : List Part → List Part
unfolding sort_by
parts_sorted = sort_by (λ p q. leb p.part_number q.part_number)

-- `except Exception: abort; raise`
abbrev pub or_abort : String → Option Text → List Request → Sent Text
or_abort upload_id none sent = (none, sent ++ aborts upload_id ∷ [])
or_abort upload_id (some etag) sent = (some (unquoted etag), sent)

abbrev pub complete : S3 → String → Bool → Option (List Part) → List Request → Sent Text
complete s3 upload_id reported none sent = or_abort upload_id none sent
complete s3 upload_id false (some parts) sent = or_abort upload_id none sent
complete s3 upload_id true (some parts) sent =
    or_abort upload_id (s3.complete_multipart_upload upload_id (parts_sorted parts))
      (sent ++ completes upload_id (parts_sorted parts) ∷ [])

abbrev pub multipart :
    S3 → Bytes → Option (ℕ → Bool) → Option String → Option (List Bytes) → Sent Text
multipart s3 content on_progress none chunks = (none, creates ∷ [])
multipart s3 content on_progress (some upload_id) none = (none, creates ∷ [])
multipart s3 content on_progress (some upload_id) (some chunks) =
    complete s3 upload_id (reports on_progress (length content))
      (upload_parts s3 upload_id 1 chunks) (creates ∷ part_requests upload_id 1 chunks)

unfoldable pub multipart_upload : S3 → Bytes → Option (ℕ → Bool) → Sent Text
unfolding iter_chunks upload_parts part_requests parts_sorted strip_by
multipart_upload s3 content on_progress =
    multipart s3 content on_progress s3.create_multipart_upload (iter_chunks content chunk_size)

pub record UploadResult : Type 0 where
  pub etag : Text
  pub size_bytes : ℕ

abbrev pub result_of : Bytes → Sent Text → Sent UploadResult
result_of content (none, sent) = (none, sent)
result_of content (some etag, sent) =
    (some (record { etag = etag; size_bytes = length content }), sent)

unfoldable pub upload_file : S3 → Bytes → Option (ℕ → Bool) → Sent UploadResult
unfolding multipart_upload put_object
upload_file s3 content on_progress = result_of content (
    if leb multipart_threshold (length content)
    then multipart_upload s3 content on_progress
    else put_object s3 content on_progress)

abbrev is_absent : String → Bool
is_absent code = code == "404" || code == "NoSuchBucket"

-- `head_bucket` and `create_bucket` answer the code of the error that they raise, if they do.
abbrev some_if_none : Option String → Option (Unit {0})
some_if_none none = some tt
some_if_none (some code) = none

abbrev bucket_answer : S3 → Option String → Sent (Unit {0})
bucket_answer s3 none = (some tt, [])
bucket_answer s3 (some code) =
    if is_absent code then (some_if_none s3.create_bucket, creates_bucket ∷ []) else (none, [])

unfoldable pub ensure_bucket_exists : S3 → Sent (Unit {0})
ensure_bucket_exists s3 = bucket_answer s3 s3.head_bucket
