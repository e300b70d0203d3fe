-- ===== src/Lib.antt =====
-- Multi-tenant file delivery: a model of the control plane, and its theorems.
--
-- The control plane is a web service. A request names an actor (tenant, user, role); a task is an
-- archive of files that a tenant hands in; the classifier plans a destination for each file; the
-- task is confirmed, delivered by the data plane, and retried where it fails. Rows of a relational
-- database hold the tasks, their items, the events, and the workspaces with their objects.
--
-- The parts, and where they stand (paths from the repository's root):
--   * Prelude: tests on numbers and strings, lists, sorting. Text and Paths: the operations of
--     `str`, of `PurePosixPath` and (in Paths.Normal) of `os.path` that the program uses; a text is
--     the list of its code points.
--   * Classifier: control-plane/app/services/classifier.py over the profile of
--     control-plane/app/services/classification_profile.py. Names decodes and renders paths
--     (`_decode_zip_filename`, `_is_path_traversal`, `_render_path`), Targets and Documents resolve
--     (`_extract_target_raw`, `_filename_segment`, `_resolve_target`, `_resolve_document_type`),
--     and Engine is the loop of `classify_zip`, one function per stage of its body. Outcome gives
--     the five ways an entry ends; Counts, Safety, Order and Matching hold the theorems.
--   * Store: the rows (control-plane/app/models), the session with what it flushed and committed
--     (control-plane/app/core/db.py), and the repositories (control-plane/app/repos). An action is
--     a function of the session that returns or raises; `serve` is a whole request, at whose end
--     what is not committed is lost. Rules, Ensures and Steady are the program logics: what
--     leaves the committed state alone, postconditions of the runs that succeed, and what writes
--     events only. Recording is what `record_uploaded_item` leaves, with every way in which it ends
--     in Ending; Creating is what a new task does.
--   * Auth: control-plane/app/services/auth.py.
--   * Delivery: `apply_delivery_result` of control-plane/app/services/delivery.py, what a report of
--     the data plane does. Rounds is one round of its loop, Loop the whole of it, Applying and
--     Tenancy what it leaves, Redelivery and Twice the same result a second time;
--     Messages is `build_delivery_task_message`. Consuming is
--     `consume_delivery_results`, the fetched results under their leases, with the loop's
--     specification in Refinement.
--   * Redis and Leases: control-plane/app/services/redis_lease.py and idempotency_guard.py beside it.
--     Redis states what the server does, Memory is one that does so; Schedule has the calls of all
--     clients in the order in which they come, Exclusion what a claim is worth.
--   * Api.Tasks: handlers of control-plane/app/api/tasks.py, each with every call that changes
--     state, composed from the repositories and the classifier. Confirming, Classifying, Retrying
--     and Queued say what a request that succeeds found and left, Atomic and Queueing what one that
--     fails leaves, Succeeding when one cannot fail; Upload is `upload_task` with `stage_task_archive` of
--     control-plane/app/services/staging_source.py, Claimed and Claiming the same with its claim.
--   * Api.Intake: `create_task` of the same file and what it calls: Names the checks of names and
--     paths, Folder the limits of a folder, Extraction the files of an archive; Guarding is the
--     request under its claim.
--   * Api.Workspaces: the handlers of control-plane/app/api/workspaces.py; Visibility says who sees
--     what.
--   * Runner: control-plane/app/services/task_runner.py, the upload of a task by the control plane
--     itself. The writes of the uploads are moves in any order; Moves says what they make of a row,
--     Running what a run leaves.
--   * Uploader: control-plane/app/services/s3_uploader.py; Chunks cuts a file, Protocol is the
--     multipart upload.
--   * Progress: the backend within a process of control-plane/app/services/progress_bus.py, with the
--     calls of all who use it in their order; Hearing says what reaches a subscriber. Remote is what
--     goes over Redis, and Api.Tasks.Streaming the stream of `task_progress`.
--   * Cleanup: control-plane/app/services/staging_cleanup.py, the removal of staged archives, and in Job
--     control-plane/app/jobs/cleanup_staging_sources.py. Fates tells without the loop what should
--     become of an archive, Tally compares.
--
-- Parameters: `Python` holds the letter case, digits, codec and similarity ratio that the program
-- takes from Python's tables; `ids` and `now` are the ids and the clock that a request draws; the
-- archive on disk is a function of its directory, and the profile is given already read. `Outside`
-- says whether the guard, the object store and the publisher succeed in an upload; `Presign` signs
-- download URLs. `Redis` is the server with the laws of its commands; the tokens of claims, the
-- parsed messages, and whether the broker takes an acknowledgement come from outside. `packed` is
-- the size of an archive, `S3` what the store answers, `attempt` whether the upload of an item by
-- the runner succeeds.
--
-- Bounds: the loop that cuts a file into chunks is on fuel, one more than the length of the file; a
-- chunk takes one byte at least, so that this is enough. Every other function is structural on a list
-- or a text. Numbers are unbounded, as Python's are.
--
-- Requests are taken one at a time. Where the program runs several things at once, what it does to
-- shared state is a list of steps: the calls of the clients of Redis, the writes of the uploads of a
-- run, the calls of a bus.
--
-- Not modelled: rendering of responses, the reading of the profile's file, the publishers, metrics
-- and tracing; the subscription to progress over Redis; foreign keys and the lengths of columns; the HTTP
-- framework, the database engine, Redis, Kafka and S3, which are third-party; the legacy scripts of
-- control-plane/_legacy, which the service does not call; the data plane in Go and the web client.
pub mod Prelude
pub mod Text
pub mod Paths
pub mod Classifier
pub mod Store
pub mod Auth
pub mod Redis
pub mod Leases
pub mod Delivery
pub mod Api
pub mod Uploader
pub mod Runner
pub mod Progress
pub mod Cleanup
