-- ===== src/Api/Intake/Guarding.antt =====
-- The claim around a request: `_acquire_idempotency_claim` and `_release_idempotency_claim` of
-- control-plane/app/api/tasks.py, and `create_task` under it.
use multi_tenant_file_delive.Prelude.{
  ℕ, String, ◌≡◌, refl, Bool, true, false, not, Option, List, text_eq, Option-cases, inl, inr,
}
use multi_tenant_file_delive.Text.{Text, text}
use multi_tenant_file_delive.Redis.{Redis, SameEntries, is_some}
use multi_tenant_file_delive.Leases.{
  Client, disabled_client, redis_client, guard_key, acquire_guard, release_guard,
}
use multi_tenant_file_delive.Leases.Schedule.{IsLive}
use multi_tenant_file_delive.Leases.Changes.{set_released, set_refused}
use multi_tenant_file_delive.Store.Session.{Session, Action, Result, ok, err, http, ◌>>◌}
use multi_tenant_file_delive.Auth.{CurrentActor, require_task_writer}
use multi_tenant_file_delive.Api.Intake.Folder.{UploadFile, Entry, IntakeSettings}
use multi_tenant_file_delive.Api.Intake.{
  Created, Beside, guarded, identity_of, create_claimed, key_or_new, create_task, with_key,
}

module _ (redis : Redis) where
  open redis use {Server, entry}

  -- No one has the claim.
  abbrev pub is_unclaimed : Client → Text → Text → Server → Bool
  is_unclaimed disabled_client operation identity server = true
  is_unclaimed (redis_client ttl) operation identity server =
      not (is_some (entry (guard_key operation identity) server))

  -- With the claim free the body runs as if there were no guard; otherwise a 409 is raised and the
  -- body does not run.
  abbrev pub unless_claimed : {A : Type 0} → Bool → Action A → Session → Result A × Session
  unless_claimed true body s = body s
  unless_claimed false body s = (err (http 409), s)

  pub record IsGuarded {A : Type 0} (server : Server) (expected : Result A × Session)
      (out : Result A × Beside Server) : Type 0 where
    pub answer : out.0 ≡ expected.0
    pub session : out.1.0 ≡ expected.1
    pub server_same : SameEntries redis server out.1.1

  guarded-IsGuarded :
      {A : Type 0} (client : Client) (operation identity token : Text) (body : Action A)
      (s : Session) (server : Server)
      → IsLive client
      → IsGuarded server
          (unless_claimed (is_unclaimed client operation identity server) body s)
          (guarded redis client operation identity token body (s, server))
  unfolding guarded acquire_guard release_guard
  guarded-IsGuarded disabled_client operation identity token body s server live = record {
    answer = refl;
    session = refl;
    server_same = λ j. refl;
  }
  guarded-IsGuarded (redis_client ttl) operation identity token body s server live =
      elim (Option-cases (entry (guard_key operation identity) server)) [
        | inl free ↦
            let kept =
              set_released redis (guard_key operation identity) token ttl server live free in
            rw (free, kept.0)
              (record { answer = refl; session = refl; server_same = rw kept.0 kept.1 })
        | inr (e, there) ↦
            let refused =
              set_refused redis (guard_key operation identity) token ttl server e live there in
            rw (there, refused.0)
              (record { answer = refl; session = refl; server_same = refused.1 })
      ]

  module _ (client : Client) (packed : List Entry → ℕ) (settings : IntakeSettings)
      (actor : CurrentActor) where
    -- The request with no guard, but for the answer of one whose claim is held.
    abbrev pub unguarded :
        List UploadFile → Option Text → Server → Result String × Session → Result Created × Session
    unguarded files submission_label server (err e, s) = (err e, s)
    unguarded files submission_label server (ok key, s) =
        unless_claimed (is_unclaimed client (text "create_task") (identity_of actor key) server)
          (create_claimed packed settings actor key files submission_label) s

    with_key-IsGuarded :
        (files : List UploadFile) (submission_label : Option Text) (token : Text)
        (r : Result String × Session) (server : Server)
        → IsLive client
        → IsGuarded server
            (unguarded files submission_label server r)
            (with_key redis client packed settings actor files submission_label token r server)
    with_key-IsGuarded files submission_label token (err e, s) server live = record {
      answer = refl;
      session = refl;
      server_same = λ j. refl;
    }
    with_key-IsGuarded files submission_label token (ok key, s) server live =
        guarded-IsGuarded client (text "create_task") (identity_of actor key) token
          (create_claimed packed settings actor key files submission_label) s server live

    -- Whatever the request does, also if it raises, the server is afterwards as it was: no claim is
    -- left. If the claim of the tenant's key is free the request does what it does with no guard; if
    -- another request holds it, it ends in a 409 and changes nothing.
    pub create_task-IsGuarded :
        (files : List UploadFile) (idempotency_key : Option String) (submission_label : Option Text)
        (token : Text) (s : Session) (server : Server)
        → IsLive client
        → IsGuarded server
            (unguarded files submission_label server
              ((require_task_writer actor >> key_or_new idempotency_key) s))
            (create_task redis client packed settings actor files idempotency_key submission_label
              token
              (s, server))
    unfolding create_task
    create_task-IsGuarded files idempotency_key submission_label token s server live =
        with_key-IsGuarded files submission_label token
          ((require_task_writer actor >> key_or_new idempotency_key) s) server live
