-- ===== src/Cleanup.antt =====
-- The removal of staged archives: control-plane/app/services/staging_cleanup.py. The object store
-- is outside. In the payload of an event a bucket is a `str` and a key is `chars`; a value that is
-- missing or empty counts as none.
pub mod Fates
pub mod Tally
pub mod Job
pub mod Tests
use multi_tenant_file_delive.Prelude.{
  ℕ, String, Bool, true, false, not, ◌&&◌, ◌||◌, ◌+◌, Option, none, some, List, [], ◌∷◌, ◌++◌, any,
  keep, length, lookup, contains, ltb, leb, sort_by, ◌==◌, string_eq, text_eq, if◌then◌else◌,
}
use multi_tenant_file_delive.Text.{Text}
use multi_tenant_file_delive.Store.Rows.{Task, TaskEvent, Value, str, chars, num, Database}
use multi_tenant_file_delive.Store.Session.{Action, ◌>>=◌, ◌>>◌, pure, reads}
use multi_tenant_file_delive.Store.Events

abbrev pub terminal_task_statuses : List String
terminal_task_statuses = "uploaded" ∷ "partial_failed" ∷ "failed" ∷ []

pub record StagingCleanupSummary : Type 0 where
  pub scanned : ℕ
  pub deleted : ℕ
  pub failed : ℕ
  pub skipped : ℕ

-- What the client says of a deletion: done, or an error with its code.
pub data Deletion : Type 0 where
  done : Deletion
  client_error : String → Deletion

abbrev pub str_or_none : Option Value → Option String
str_or_none (some (str s)) = if s == "" then none else some s
str_or_none _ = none

abbrev pub chars_or_none : Option Value → Option Text
chars_or_none (some (chars t)) = if t == [] then none else some t
chars_or_none _ = none

abbrev pub location : Option String → Option Text → Option (String × Text)
location (some bucket) (some key) = some (bucket, key)
location _ _ = none

-- The bucket and the key of a payload, if it has both.
abbrev pub source_of : Events.Payload → Option (String × Text)
source_of payload =
    location (str_or_none (lookup "bucket" payload)) (chars_or_none (lookup "key" payload))

abbrev pub is_candidate : List Task → ℕ → TaskEvent → Bool
is_candidate tasks cutoff e =
    e.event_type == "task_staged_source"
    && (any (λ t. t.id == e.task_id && contains t.status terminal_task_statuses) tasks
        && leb e.created_at cutoff)

unfoldable pub list_cleanup_candidates : ℕ → Action (List TaskEvent)
list_cleanup_candidates cutoff =
    reads (λ db. sort_by Events.older (keep (is_candidate db.tasks cutoff) db.events))

abbrev pub locations : List TaskEvent → List (String × Text)
locations [] = []
locations (e ∷ es) = elim (source_of e.payload_json) [
  | none ↦ locations es
  | some at ↦ at ∷ locations es
]

unfoldable pub list_deleted_source_keys : Action (List (String × Text))
list_deleted_source_keys =
    reads (λ db. locations (keep (λ e. e.event_type == "task_staged_source_deleted") db.events))

abbrev pub same_place : String × Text → String × Text → Bool
same_place a b = a.0 == b.0 && a.1 == b.1

-- `bucket_name is not None and bucket != bucket_name`
abbrev pub is_elsewhere : Option String → String → Bool
is_elsewhere none bucket = false
is_elsewhere (some name) bucket = not (bucket == name)

abbrev pub is_gone : Deletion → Bool
is_gone done = true
is_gone (client_error code) = contains code ("404" ∷ "NoSuchKey" ∷ "NotFound" ∷ [])

abbrev pub skip : StagingCleanupSummary → StagingCleanupSummary
skip tally = record tally { skipped = tally.skipped + 1 }

module _ (delete_object : String → Text → Deletion) (bucket_name : Option String) (now : ℕ)
    (deleted_keys : List (String × Text)) where
  unfoldable pub record_deletion :
      TaskEvent → String × Text → StagingCleanupSummary → Action StagingCleanupSummary
  record_deletion event at tally = do
    Events.append event.task_id "task_staged_source_deleted" (
        ("bucket", str at.0)
        ∷ ("key", chars at.1)
        ∷ ("source_event_id", str event.id)
        ∷ ("deleted_at", num now)
        ∷ [])
    pure (record tally { deleted = tally.deleted + 1 })

  unfoldable pub clean_at :
      TaskEvent → Option (String × Text) → StagingCleanupSummary → Action StagingCleanupSummary
  clean_at event none tally = pure (skip tally)
  clean_at event (some at) tally =
      if is_elsewhere bucket_name at.0 || any (same_place at) deleted_keys
      then pure (skip tally)
      else if is_gone (delete_object at.0 at.1)
      then record_deletion event at tally
      else pure (record tally { failed = tally.failed + 1 })

  unfoldable pub clean_all : List TaskEvent → StagingCleanupSummary → Action StagingCleanupSummary
  clean_all [] tally = pure tally
  clean_all (event ∷ events) tally = do
    next ← clean_at event (source_of event.payload_json) tally
    clean_all events next

-- `cutoff` is `now` less the retention. The commit is the caller's.
unfoldable pub cleanup_staging_sources :
    (String → Text → Deletion) → Option String → ℕ → ℕ → Action StagingCleanupSummary
cleanup_staging_sources delete_object bucket_name now cutoff = do
  candidates ← list_cleanup_candidates cutoff
  deleted_keys ← list_deleted_source_keys
  clean_all delete_object bucket_name now deleted_keys candidates
      (record { scanned = length candidates; deleted = 0; failed = 0; skipped = 0 })
