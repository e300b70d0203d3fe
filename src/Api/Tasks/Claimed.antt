-- ===== src/Api/Tasks/Claimed.antt =====
-- `upload_task` of control-plane/app/api/tasks.py with its claim in Redis, as it is taken and given
-- back.
use multi_tenant_file_delive.Prelude.{
  String, Bool, true, false, not, ◌&&◌, ◌==◌, string_eq, text_eq, if◌then◌else◌,
}
use multi_tenant_file_delive.Text.{Text, text}
use multi_tenant_file_delive.Redis.{Redis}
use multi_tenant_file_delive.Leases
use multi_tenant_file_delive.Leases.{
  Claim, Client, create_idempotency_guard, guard_key, acquire_guard, release_guard,
}
use multi_tenant_file_delive.Store.Rows.{Task}
use multi_tenant_file_delive.Store.Session.{
  Session, Action, Result, ok, err, http, ◌>>=◌, ◌>>◌, pure, raise_if,
}
use multi_tenant_file_delive.Auth.{CurrentActor, require_task_writer}
use multi_tenant_file_delive.Api.Intake.{Beside, identity_of}
use multi_tenant_file_delive.Api.Tasks.{find_task}
use multi_tenant_file_delive.Api.Tasks.Upload.{Outside, UploadSettings, queue_task, request_upload}

-- The handler up to the claim.
unfoldable pub may_upload : CurrentActor → String → Action Task
may_upload actor task_id = do
  require_task_writer actor
  task ← find_task actor task_id
  raise_if (not (task.status == "confirmed")) (http 422)
  pure task

-- The claim is released at the end, but not where the run goes on in the background and claims are
-- kept in Redis.
abbrev pub keeps_claim : UploadSettings → Leases.Settings → Bool
keeps_claim settings guard =
    guard.redis_idempotency_enabled && not (settings.delivery_backend == "go-worker")

module _ (redis : Redis) (guard : Leases.Settings) (outside : Outside) (settings : UploadSettings)
    (actor : CurrentActor) (task_id : String) where
  abbrev pub claim_ended : Claim → redis.Server → redis.Server
  claim_ended claim server =
      if keeps_claim settings guard
      then server
      else release_guard redis (create_idempotency_guard guard) claim server

  abbrev pub upload_body : Task → Action String
  upload_body task =
      if settings.delivery_backend == "go-worker"
      then queue_task outside settings actor task_id task
      else request_upload actor task_id

  abbrev pub claim_upload :
      Text → Result Task × Session → redis.Server → Result String × Beside redis.Server
  claim_upload token (err e, s) server = (err e, (s, server))
  claim_upload token (ok task, s) server =
      let (claim, claimed) =
        acquire_guard redis (create_idempotency_guard guard) (text "upload_task")
          (identity_of actor task_id) token server in
      elim claim.acquired [
        | false ↦ (err (http 409), (s, claimed))
        | true ↦ let (r, t) = upload_body task s in (r, (t, claim_ended claim claimed))
      ]

  unfoldable pub upload_task_claimed :
      Text → Beside redis.Server → Result String × Beside redis.Server
  unfolding may_upload
  upload_task_claimed token (s, server) = claim_upload token (may_upload actor task_id s) server
