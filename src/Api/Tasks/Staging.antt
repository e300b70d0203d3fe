-- ===== src/Api/Tasks/Staging.antt =====
-- The steps of `upload_task` of control-plane/app/api/tasks.py around the publisher: staging,
-- publishing, and what follows an error.
use multi_tenant_file_delive.Prelude.{
  String, ◌≡◌, refl, ap, inl, inr, true, false, Option, none, some, List, arith, ◌==◌, string_eq,
  Bool-cases, if◌then◌else◌,
}
use multi_tenant_file_delive.Store.Rows.{Task, TaskItem}
use multi_tenant_file_delive.Store.Session.{Session, Action, Error, Result, ok, err, ◌>>=◌, raise}
use multi_tenant_file_delive.Store.Steady.{SameRows, SameRows-refl, SameRows-event}
use multi_tenant_file_delive.Store.Ensures.{
  Post, Ensures, ensures-pure, ensures-bind, ensures-assoc, ensures-pure-bind, ensures-raise_if,
  ensures-or_raise, ensures-clock, ensures-commit, ensures-commit_last,
}
use multi_tenant_file_delive.Store.Steps.{ensures-append}
use multi_tenant_file_delive.Auth.{CurrentActor}
use multi_tenant_file_delive.Delivery.Messages.{
  DeliverySourceReference, DeliveryTaskMessage, build_delivery_task_message,
}
use multi_tenant_file_delive.Api.Tasks.Upload.{
  UploadSettings, Outside, on_error, handled, staged_key, stage_task_archive, source_of,
  note_staged, deliver, compensate,
}

-- The reference to the archive: none without staging, and else the object that was put under the
-- task's key.
abbrev pub IsSource : Outside → UploadSettings → Task → Option DeliverySourceReference → Type 0
IsSource outside settings task none = (settings.delivery_source_mode == "object") ≡ false
IsSource outside settings task (some ref) =
    ((settings.delivery_source_mode == "object") ≡ true)
    × (ref.bucket ≡ settings.staging_bucket_name)
    × (ref.key ≡ staged_key task.id)
    × (outside.put_object ref.bucket ref.key ≡ true)

module _ {B : Type 0} {s : Session} {Q : B → Session → Type 0} where
  pub ensures-source_of :
      (outside : Outside) (settings : UploadSettings) (task : Task)
      (f : Option DeliverySourceReference → Action B)
      → ((source : Option DeliverySourceReference)
          → IsSource outside settings task source
          → Ensures (f source) s Q)
      → Ensures (source_of outside settings task >>= f) s Q
  unfolding source_of stage_task_archive
  ensures-source_of outside settings task f h =
      elim (Bool-cases (settings.delivery_source_mode == "object")) [
        | inl staged ↦
            rw (staged, if◌then◌else◌)
              (ensures-assoc _ _ _ (
                ensures-assoc _ _ _ (
                  ensures-or_raise _ _ _ λ held there. ensures-assoc _ _ _ (
                    ensures-raise_if _ _ _ λ put.
                      ensures-pure-bind _ _
                        (ensures-pure-bind _ _ (h _ (staged, refl, refl, ground arith)))))))
        | inr plain ↦ rw (plain, if◌then◌else◌) (ensures-pure-bind _ _ (h none plain))
      ]

ensures-raise :
    {A : Type 0} {Q : A → Session → Type 0} (e : Error) (s : Session) → Ensures (raise e) s Q
unfolding raise
ensures-raise e s = record { post = tt }

module _ {A : Type 0} {Q : A → Session → Type 0} (handler : Error → Action A) where
  handled_post :
      (r : Result A × Session)
      → Post r Q
      → ((e : Error) (t : Session) → Ensures (handler e) t Q)
      → Post (handled handler r) Q
  handled_post (ok a, t) h k = h
  handled_post (err e, t) h k = (k e t).post

  pub ensures-on_error :
      (m : Action A) (s : Session)
      → Ensures m s Q
      → ((e : Error) (t : Session) → Ensures (handler e) t Q)
      → Ensures (on_error m handler) s Q
  unfolding on_error
  ensures-on_error m s h k = record { post = handled_post (m s) h.post k }

-- The handler of the error raises in every case.
pub compensate-raises :
    {Q : DeliveryTaskMessage → Session → Type 0} (outside : Outside) (actor : CurrentActor)
    (task_id : String) (source : Option DeliverySourceReference) (e : Error) (s : Session)
    → Ensures (compensate outside actor task_id source e) s Q
unfolding compensate
compensate-raises outside actor task_id none e s = ensures-raise e s
compensate-raises outside actor task_id (some ref) e s = ensures-raise_if _ _ _ λ deleted.
    ensures-raise_if _ _ _
      λ usable. ensures-clock _ (ensures-append _ _ _ _ (ensures-commit _ (ensures-raise e _)))

-- The rows and the clock as they were.
abbrev Noted : Session → Session → Type 0
Noted s t = SameRows s.db t.db × (t.now ≡ s.now)

note_staged-Noted :
    (actor : CurrentActor) (task_id : String) (source : Option DeliverySourceReference)
    (s : Session)
    → Ensures (note_staged actor task_id source) s (λ u t. Noted s t)
unfolding note_staged
note_staged-Noted actor task_id none s = ensures-pure tt (SameRows-refl s.db, refl)
note_staged-Noted actor task_id (some ref) s =
    ensures-append _ _ _ _
      (ensures-commit_last (SameRows-event s.db s.db _ (SameRows-refl s.db), refl))

module _ (outside : Outside) (settings : UploadSettings) (actor : CurrentActor) (task_id : String)
    (task : Task) where
  pub deliver-published :
      (items : List TaskItem) (source : Option DeliverySourceReference) (s : Session)
      → Ensures (deliver outside settings actor task_id task items source) s (λ message t.
        SameRows s.db t.db
        × (message
            ≡ build_delivery_task_message task items settings.s3_bucket_name source
                outside.traceparent s.now)
        × (outside.publish message ≡ true))
  unfolding deliver
  deliver-published items source s =
      ensures-bind _ _ _ (note_staged-Noted actor task_id source s) λ u t noted. ensures-clock _ (
        ensures-raise_if _ _ _ λ published. ensures-pure _ (
          noted.0,
          ap
              (build_delivery_task_message task items settings.s3_bucket_name source
                outside.traceparent)
              noted.1,
          ground arith,
        ))
