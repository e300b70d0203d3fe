-- ===== src/Cleanup/Tests.antt =====
-- A cleanup over three staged archives: one is deleted, one was deleted before, one belongs to a task
-- that has not ended.
use multi_tenant_file_delive.Prelude.{String, ◌≡◌, refl, none, [], ◌∷◌, length, sort_by, text_beq}
use multi_tenant_file_delive.Text.{Text, text}
use multi_tenant_file_delive.Store.Rows.{TaskEvent, Database, str, chars}
use multi_tenant_file_delive.Store.Session.{Session, Action, ok, ◌>>=◌}
use multi_tenant_file_delive.Store.Ensures.{Ensures, opened}
use multi_tenant_file_delive.Store.Events
use multi_tenant_file_delive.Cleanup.{
  StagingCleanupSummary, Deletion, client_error, record_deletion, clean_at, clean_all,
  list_cleanup_candidates, list_deleted_source_keys, cleanup_staging_sources,
}
use multi_tenant_file_delive.Api.Tasks.Samples.{id_of, database as base}

abbrev event : String → String → String → Text → TaskEvent
event id task_id event_type key = record {
  id = id;
  task_id = task_id;
  event_type = event_type;
  payload_json = ("bucket", str "staging") ∷ ("key", chars key) ∷ [];
  created_at = 1;
}

abbrev database : Database
database = record base {
  events =
      event "e" "f" "task_staged_source" (text "k")
      ∷ event "g" "f" "task_staged_source" (text "old")
      ∷ event "h" "f" "task_staged_source_deleted" (text "old")
      ∷ event "l" "c" "task_staged_source" (text "c")
      ∷ [];
}

abbrev delete_object : String → Text → Deletion
delete_object bucket key = client_error "404"

abbrev start : Session
start = opened id_of 7 database

clean : Action StagingCleanupSummary
unfolding cleanup_staging_sources list_cleanup_candidates list_deleted_source_keys clean_all
    clean_at record_deletion Events.append ◌>>=◌ sort_by text_beq
clean = cleanup_staging_sources delete_object none 7 5

cleaned_run :
    let (answer, after) = clean start in
    (answer ≡ ok (record { scanned = 2; deleted = 1; failed = 0; skipped = 1 }))
    × (length after.db.events ≡ 5)
unfolding clean
cleaned_run = (refl, refl)
