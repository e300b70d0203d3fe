-- ===== src/Cleanup/Fates.antt =====
-- What should become of a staged archive in a cleanup, told without the loop of
-- control-plane/app/services/staging_cleanup.py.
use mathlib.Core.Path.{fun_ext}
use multi_tenant_file_delive.Prelude.{
  ℕ, String, ◌≡◌, refl, ap, Bool, true, false, ◌&&◌, ◌||◌, Option, none, some, List, [], ◌∷◌, ◌++◌,
  any, any-cong, keep, contains, leb, ◌==◌, string_eq, text_eq, Bool-cases, inl, inr, if◌then◌else◌,
  not,
}
use multi_tenant_file_delive.Text.{Text}
use multi_tenant_file_delive.Store.Rows.{Task, TaskEvent, str, chars, num}
use multi_tenant_file_delive.Store.Events
use multi_tenant_file_delive.Cleanup.{
  Deletion, done, client_error, source_of, is_candidate, is_elsewhere, is_gone, same_place,
  locations, terminal_task_statuses,
}

-- The event of a staged archive, not newer than the cutoff, whose task is `uploaded`,
-- `partial_failed` or `failed`.
abbrev pub is_due : List Task → ℕ → TaskEvent → Bool
is_due tasks cutoff e =
    e.event_type == "task_staged_source"
    && (any
          (λ t.
            t.id == e.task_id
            && ("uploaded" == t.status || ("partial_failed" == t.status || "failed" == t.status)))
          tasks
        && leb e.created_at cutoff)

-- Its bucket is the one that is asked for, if one is.
abbrev pub is_asked : Option String → String → Bool
is_asked none bucket = true
is_asked (some name) bucket = bucket == name

-- The store has deleted it, or says that it is not there.
abbrev pub is_removed : Deletion → Bool
is_removed done = true
is_removed (client_error code) = "404" == code || ("NoSuchKey" == code || "NotFound" == code)

abbrev pub is_at : String × Text → Option (String × Text) → Bool
is_at place none = false
is_at place (some other) = place.0 == other.0 && place.1 == other.1

-- An event says that it was deleted before.
abbrev pub was_deleted : List TaskEvent → String × Text → Bool
was_deleted events place =
    any
      (λ e. e.event_type == "task_staged_source_deleted" && is_at place (source_of e.payload_json))
      events

pub data Fate : Type 0 where
  removed : String × Text → Fate
  refused : Fate
  passed : Fate

module _ (delete_object : String → Text → Deletion) (bucket_name : Option String)
    (gone_before : String × Text → Bool) where
  abbrev pub fate_at : Option (String × Text) → Fate
  fate_at none = passed
  fate_at (some place) =
      if is_asked bucket_name place.0 && not (gone_before place)
      then (if is_removed (delete_object place.0 place.1) then removed place else refused)
      else passed

  abbrev pub fate : TaskEvent → Fate
  fate e = fate_at (source_of e.payload_json)

-- Task, type and payload of an event.
abbrev pub Notice : Type 0
Notice = String × String × Events.Payload

abbrev pub notice_of : TaskEvent → Notice
notice_of e = (e.task_id, e.event_type, e.payload_json)

abbrev pub deletion_notice : ℕ → TaskEvent → Fate → List Notice
deletion_notice now e (removed place) =
    (
      e.task_id,
      "task_staged_source_deleted",
      ("bucket", str place.0)
          ∷ ("key", chars place.1)
          ∷ ("source_event_id", str e.id)
          ∷ ("deleted_at", num now)
          ∷ [],
    )
    ∷ []
deletion_notice now e refused = []
deletion_notice now e passed = []

abbrev pub is_refused : Fate → Bool
is_refused refused = true
is_refused (removed place) = false
is_refused passed = false

-- The notices of the archives that are removed, in the order of the archives.
abbrev pub deletion_notices : ℕ → (TaskEvent → Fate) → List TaskEvent → List Notice
deletion_notices now fates [] = []
deletion_notices now fates (e ∷ es) =
    deletion_notice now e (fates e) ++ deletion_notices now fates es

or_false : (b : Bool) → (b || false) ≡ b
or_false true = refl
or_false false = refl

-- The code's tests.
pub is_due-candidate :
    (tasks : List Task) (cutoff : ℕ) → is_candidate tasks cutoff ≡ is_due tasks cutoff
is_due-candidate tasks cutoff = fun_ext λ e.
    ap (λ b. e.event_type == "task_staged_source" && (b && leb e.created_at cutoff))
      (any-cong tasks λ t. ap (λ b. t.id == e.task_id && b) (ended t.status))
  where
    ended :
        (status : String)
        → contains status terminal_task_statuses
          ≡ ("uploaded" == status || ("partial_failed" == status || "failed" == status))
    ended status =
        ap (λ b. "uploaded" == status || ("partial_failed" == status || b))
          (or_false ("failed" == status))

pub is_gone-removed : (answer : Deletion) → is_gone answer ≡ is_removed answer
is_gone-removed done = refl
is_gone-removed (client_error code) =
    ap (λ b. "404" == code || ("NoSuchKey" == code || b)) (or_false ("NotFound" == code))

pub is_elsewhere-asked :
    (name : Option String) (bucket : String) → is_elsewhere name bucket ≡ not (is_asked name bucket)
is_elsewhere-asked none bucket = refl
is_elsewhere-asked (some name) bucket = refl

pub any-was_deleted :
    (place : String × Text) (events : List TaskEvent)
    → any
        (same_place place)
        (locations (keep (λ e. e.event_type == "task_staged_source_deleted") events))
      ≡ was_deleted events place
any-was_deleted place [] = refl
any-was_deleted place (e ∷ events) =
    elim (Bool-cases (e.event_type == "task_staged_source_deleted")) [
      | inl deletion ↦
          rw (deletion, if◌then◌else◌)
            (at_source (source_of e.payload_json)
              (locations (keep (λ e. e.event_type == "task_staged_source_deleted") events))
              (any-was_deleted place events))
      | inr other ↦ rw (other, if◌then◌else◌) (any-was_deleted place events)
    ]
  where
    at_source :
        (o : Option (String × Text)) (rest : List (String × Text)) {b : Bool}
        → any (same_place place) rest ≡ b
        → any (same_place place) (elim o [ none ↦ rest | some at ↦ at ∷ rest ])
          ≡ (is_at place o || b)
    at_source none rest same = same
    at_source (some at) rest same = ap (λ c. same_place place at || c) same
