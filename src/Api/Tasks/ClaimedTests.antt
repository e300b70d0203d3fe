-- ===== src/Api/Tasks/ClaimedTests.antt =====
-- Two uploads of a task one after the other, with the claims in Redis and the run in the background:
-- control-plane/app/api/tasks.py.
use multi_tenant_file_delive.Prelude.{◌≡◌, refl, arith, true, ◌&&◌, none, ◌∷◌, string_eq, text_beq}
use multi_tenant_file_delive.Text.{text}
use multi_tenant_file_delive.Redis.Memory.{memory, vacant}
use multi_tenant_file_delive.Leases
use multi_tenant_file_delive.Leases.{acquire_guard, release_guard, create_idempotency_guard}
use multi_tenant_file_delive.Store.Session.{Session, ok, err, http, ◌>>=◌, commit}
use multi_tenant_file_delive.Store.Ensures.{opened}
use multi_tenant_file_delive.Store.Tasks
use multi_tenant_file_delive.Store.Events
use multi_tenant_file_delive.Auth.{require_task_writer, require_role}
use multi_tenant_file_delive.Api.Tasks.{find_task}
use multi_tenant_file_delive.Api.Tasks.Samples.{id_of, uploader, database, confirmed_task}
use multi_tenant_file_delive.Api.Tasks.Upload.{Outside, UploadSettings, upload_task, request_upload}
use multi_tenant_file_delive.Api.Tasks.Claimed.{may_upload, keeps_claim, upload_task_claimed}
use multi_tenant_file_delive.Api.Tasks.Claiming.{
  IsClaimed, is_ok, is_free, with_claim, upload_task_claimed-IsClaimed,
}

abbrev guard : Leases.Settings
guard = record {
  redis_lease_enabled = true;
  redis_lease_ttl_seconds = 60;
  redis_idempotency_enabled = true;
  redis_idempotency_ttl_seconds = 60;
}

abbrev settings : UploadSettings
settings = record {
  delivery_backend = "python";
  delivery_transport = "file";
  delivery_source_mode = "file";
  staging_bucket_name = "staging";
  s3_bucket_name = text "files";
}

abbrev outside : Outside
outside = record {
  claim = true;
  archive = λ dir. none;
  put_object = λ bucket key. true;
  delete_object = λ bucket key. true;
  publish = λ message. true;
  traceparent = none;
}

abbrev start : Session
start = opened id_of 7 (record database { tasks = confirmed_task ∷ database.tasks })

upload_task_claimed-IsClaimed_example :
    IsClaimed memory guard outside settings uploader "d" vacant
      (text "aa11")
      (is_ok (may_upload uploader "d" start).0
        && (keeps_claim settings guard
            && is_free memory guard outside settings uploader "d" vacant))
      (upload_task
        (with_claim memory guard outside settings uploader "d"
          (is_free memory guard outside settings uploader "d" vacant))
        settings
        uploader
        "d"
        start)
      (upload_task_claimed memory guard outside settings uploader "d" (text "aa11") (start, vacant))
upload_task_claimed-IsClaimed_example =
    upload_task_claimed-IsClaimed memory guard outside settings uploader "d" (text "aa11") start
      vacant (omega arith)

-- The first is granted and leaves its claim, so that the second is refused.
two_uploads :
    let (first, after) =
      upload_task_claimed memory guard outside settings uploader "d"
        (text "aa11")
        (start, vacant) in
    let (second, end) =
      upload_task_claimed memory guard outside settings uploader "d" (text "bb22") after in
    (first ≡ ok "uploading") × (second ≡ err (http 409))
unfolding upload_task_claimed may_upload require_task_writer require_role find_task Tasks.get
    request_upload Events.append commit ◌>>=◌ acquire_guard release_guard create_idempotency_guard
    Leases.guard_key Leases.safe_key_part Leases.cut_or_underscore Leases.sub_runs
    Leases.is_key_char text_beq
two_uploads = (refl, refl)
