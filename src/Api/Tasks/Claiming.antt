-- ===== src/Api/Tasks/Claiming.antt =====
-- What the claim of `upload_task` does to the request, and what is left of it:
-- control-plane/app/api/tasks.py.
use multi_tenant_file_delive.Prelude.{
  ◌<◌, String, ◌≡◌, refl, ap, ◌∙◌, Bool, true, false, not, ◌&&◌, Option, none, some, ◌==◌,
  string_eq, text_eq, if◌then◌else◌, Bool-cases, Option-cases, inl, inr, find, contains,
}
use multi_tenant_file_delive.Text.{Text, text}
use multi_tenant_file_delive.Redis.{Redis, Entry}
use multi_tenant_file_delive.Leases
use multi_tenant_file_delive.Leases.{
  Client, disabled_client, redis_client, create_idempotency_guard, guard_key, acquire_guard,
  release_guard,
}
use multi_tenant_file_delive.Leases.Changes.{set_released, set_refused}
use multi_tenant_file_delive.Store.Rows.{Task}
use multi_tenant_file_delive.Store.Session.{
  Session, Action, Result, ok, err, http, ◌>>=◌, ◌>>◌, raise_if, or_raise,
}
use multi_tenant_file_delive.Store.Tasks
use multi_tenant_file_delive.Auth.{
  CurrentActor, require_task_writer, require_role, task_writer_roles,
}
use multi_tenant_file_delive.Api.Intake.{Beside, identity_of}
use multi_tenant_file_delive.Api.Intake.Guarding.{is_unclaimed}
use multi_tenant_file_delive.Api.Tasks.{find_task}
use multi_tenant_file_delive.Api.Tasks.Upload.{
  source_of, stage_task_archive, deliver, compensate, Outside, UploadSettings, queue_task,
  request_upload, upload_task,
}
use multi_tenant_file_delive.Api.Tasks.Claimed.{
  may_upload, keeps_claim, upload_body, claim_upload, upload_task_claimed,
}

abbrev pub is_ok : {A : Type 0} → Result A → Bool
is_ok (ok a) = true
is_ok (err e) = false

module _ (outside : Outside) (settings : UploadSettings) (actor : CurrentActor)
    (task_id : String) where
  -- The rest of the handler, where the claim is a yes or a no.
  abbrev upload_from : Result Task × Session → Result String × Session
  upload_from (err e, s) = (err e, s)
  upload_from (ok task, s) =
      (raise_if (not outside.claim) (http 409)
          >> (if settings.delivery_backend == "go-worker"
              then queue_task outside settings actor task_id task
              else request_upload actor task_id))
        s

  upload_task-checked :
      (s : Session)
      → upload_task outside settings actor task_id s ≡ upload_from (may_upload actor task_id s)
  unfolding upload_task may_upload require_task_writer require_role find_task Tasks.get ◌>>=◌
  upload_task-checked s = elim (Bool-cases (contains actor.role task_writer_roles)) [
    | inr reader ↦ rw (reader, if◌then◌else◌) refl
    | inl writer ↦
        elim (Option-cases (find (Tasks.selects task_id (some actor.tenant_id)) s.db.tasks)) [
          | inl missing ↦ rw (writer, if◌then◌else◌, missing, or_raise) refl
          | inr (task, found) ↦ elim (Bool-cases (task.status == "confirmed")) [
            | inl confirmed ↦ rw (writer, if◌then◌else◌, found, or_raise, confirmed, raise_if) refl
            | inr other ↦ rw (writer, if◌then◌else◌, found, or_raise, other, raise_if) refl
          ]
        ]
  ]

module _ (redis : Redis) (guard : Leases.Settings) (outside : Outside) (settings : UploadSettings)
    (actor : CurrentActor) (task_id : String) where
  open redis use {Server, entry, set_nx_ex, set-answer, set-entry}

  -- The key of the claim is not there.
  abbrev pub is_free : Server → Bool
  is_free server =
      is_unclaimed redis (create_idempotency_guard guard) (text "upload_task")
        (identity_of actor task_id) server

  abbrev pub claim_key : Text
  claim_key = guard_key (text "upload_task") (identity_of actor task_id)

  abbrev pub with_claim : Bool → Outside
  with_claim claim = record outside { claim = claim }

  -- The entries after the request, where `kept` says that the claim stays.
  abbrev pub entry_after : Bool → Text → Server → Text → Option Entry
  entry_after kept token server j =
      if kept && j == claim_key
      then some (record { value = token; left = guard.redis_idempotency_ttl_seconds })
      else entry j server

  pub record IsClaimed (server : Server) (token : Text) (kept : Bool)
      (expected : Result String × Session) (out : Result String × Beside Server) : Type 0 where
    pub answer : out.0 ≡ expected.0
    pub session : out.1.0 ≡ expected.1
    pub server_after : (j : Text) → entry j out.1.1 ≡ entry_after kept token server j

  -- The steps after the claim do not look at it.
  queue_task-with_claim :
      (claim : Bool) (task : Task)
      → queue_task outside settings actor task_id task
        ≡ queue_task (with_claim claim) settings actor task_id task
  unfolding queue_task source_of stage_task_archive deliver compensate
  queue_task-with_claim claim task = refl

  upload_body-with_claim :
      (claim : Bool) (task : Task)
      → upload_body redis guard outside settings actor task_id task
        ≡ upload_body redis guard (with_claim claim) settings actor task_id task
  upload_body-with_claim claim task =
      ap
        (λ (queued : Action String).
          if settings.delivery_backend == "go-worker" then queued else request_upload actor task_id)
        (queue_task-with_claim claim task)

  set_nx_ex-entry_after :
      (token : Text) (server : Server)
      → 0 < guard.redis_idempotency_ttl_seconds
      → entry claim_key server ≡ none
      → (j : Text)
      → entry j (set_nx_ex claim_key token guard.redis_idempotency_ttl_seconds server).1
        ≡ entry_after true token server j
  set_nx_ex-entry_after token server live free j =
      set-entry claim_key token guard.redis_idempotency_ttl_seconds server j live
      ∙ elim (Bool-cases (j == claim_key)) [
        | inl same ↦ rw (same, free) refl
        | inr differs ↦ rw differs refl
      ]

  refused_after :
      {j : Text} {server after : Server} (token : Text) (worker : Bool)
      → entry j after ≡ entry j server
      → entry j after ≡ entry_after (not worker && false) token server j
  refused_after token true same = same
  refused_after token false same = same

  claim_upload-IsClaimed :
      (token : Text) (r : Result Task × Session) (server : Server)
      → 0 < guard.redis_idempotency_ttl_seconds
      → IsClaimed server token
          (is_ok r.0 && (keeps_claim settings guard && is_free server))
          (upload_from (with_claim (is_free server)) settings actor task_id r)
          (claim_upload redis guard outside settings actor task_id token r server)
  unfolding acquire_guard release_guard create_idempotency_guard ◌>>=◌
  claim_upload-IsClaimed token (err e, s) server live = record {
    answer = refl;
    session = refl;
    server_after = λ j. refl;
  }
  claim_upload-IsClaimed token (ok task, s) server live =
      elim (Bool-cases guard.redis_idempotency_enabled) [
        | inr disabled ↦
            rw (disabled, if◌then◌else◌, raise_if)
              (record {
                answer =
                    ap (λ (body : Action String). (body s).0) (upload_body-with_claim true task);
                session =
                    ap (λ (body : Action String). (body s).1) (upload_body-with_claim true task);
                server_after = λ j. refl;
              })
        | inl enabled ↦ elim (Option-cases (entry claim_key server)) [
          | inr (e, there) ↦
              let refused =
                set_refused redis claim_key token guard.redis_idempotency_ttl_seconds server e live
                  there in
              rw (enabled, there, refused.0)
                (record {
                  answer = refl;
                  session = refl;
                  server_after = λ j.
                      refused_after token (settings.delivery_backend == "go-worker") (refused.1 j);
                })
          | inl free ↦
              let released =
                set_released redis claim_key token guard.redis_idempotency_ttl_seconds server live
                  free in
              elim (Bool-cases (settings.delivery_backend == "go-worker")) [
                | inl worker ↦
                    rw (enabled, free, released.0, worker)
                      (record {
                        answer =
                            ap (λ (body : Action String). (body s).0)
                              (queue_task-with_claim true task);
                        session =
                            ap (λ (body : Action String). (body s).1)
                              (queue_task-with_claim true task);
                        server_after = λ j. rw released.0 (released.1 j);
                      })
                | inr here ↦
                    rw (enabled, free, released.0, here)
                      (record {
                        answer = refl;
                        session = refl;
                        server_after = set_nx_ex-entry_after token server live free;
                      })
              ]
        ]
      ]

  -- With the claim in Redis, the request answers and leaves the session as it does where the
  -- claim is granted exactly if no one holds its key. Afterwards every key of the server is as
  -- before, with one exception: where claims are kept in Redis and the run goes on in the
  -- background, a claim that was granted stays, with its whole lifetime, whether the request
  -- succeeded or not.
  pub upload_task_claimed-IsClaimed :
      (token : Text) (s : Session) (server : Server)
      → 0 < guard.redis_idempotency_ttl_seconds
      → IsClaimed server token
          (is_ok (may_upload actor task_id s).0 && (keeps_claim settings guard && is_free server))
          (upload_task (with_claim (is_free server)) settings actor task_id s)
          (upload_task_claimed redis guard outside settings actor task_id token (s, server))
  unfolding upload_task_claimed
  upload_task_claimed-IsClaimed token s server live =
      rw (upload_task-checked (with_claim (is_free server)) settings actor task_id s)
        (claim_upload-IsClaimed token (may_upload actor task_id s) server live)
