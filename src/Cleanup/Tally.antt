-- ===== src/Cleanup/Tally.antt =====
-- What `cleanup_staging_sources` of control-plane/app/services/staging_cleanup.py counts and writes.
use mathlib.Core.List.{append-nil, append_assoc}
use mathlib.Core.Path.{fun_ext, ap₂}
use multi_tenant_file_delive.Prelude.{
  ℕ, String, ◌≡◌, refl, sym, ap, ◌∙◌, Bool, ◌+◌, Option, none, some, List, [], ◌∷◌, ◌++◌, arith,
  any, keep, map, length, length-append, length-sort_by, count_p, sort_by, Bool-cases, inl, inr,
  if◌then◌else◌, string_eq,
}
use multi_tenant_file_delive.Text.{Text}
use multi_tenant_file_delive.Store.Rows.{TaskEvent, Database}
use multi_tenant_file_delive.Store.Session.{Session}
use multi_tenant_file_delive.Store.Ensures.{
  Ensures, ensures-pure, ensures-bind, ensures-reads, ensures-weaken,
}
use multi_tenant_file_delive.Store.Steps.{ensures-append}
use multi_tenant_file_delive.Store.Events
use multi_tenant_file_delive.Cleanup.{
  StagingCleanupSummary, Deletion, source_of, is_candidate, same_place, record_deletion, clean_at,
  clean_all, list_cleanup_candidates, list_deleted_source_keys, cleanup_staging_sources,
}
use multi_tenant_file_delive.Cleanup.Fates.{
  Fate, fate, is_due, is_asked, is_removed, is_refused, was_deleted, notice_of, deletion_notice,
  deletion_notices, is_due-candidate, is_gone-removed, is_elsewhere-asked, any-was_deleted,
}

-- What the loop did for some archives whose fates are given: the numbers that it added, and what it
-- wrote.
pub record Cleaned (now : ℕ) (fates : TaskEvent → Fate) (events : List TaskEvent)
    (tally : StagingCleanupSummary) (db : Database) (tally' : StagingCleanupSummary)
    (db' : Database) : Type 0 where
  pub scanned : tally'.scanned ≡ tally.scanned
  pub counted :
      tally'.deleted + tally'.failed + tally'.skipped
      ≡ tally.deleted + tally.failed + tally.skipped + length events
  pub failures : tally'.failed ≡ tally.failed + count_p (λ e. is_refused (fates e)) events
  pub written :
      (new : List TaskEvent) × (db' ≡ record db { events = db.events ++ new })
      × (tally'.deleted ≡ tally.deleted + length new)
      × (map notice_of new ≡ deletion_notices now fates events)

-- Nothing is written.
none_written :
    (db : Database) (deleted : ℕ)
    → (new : List TaskEvent) × (db ≡ record db { events = db.events ++ new })
      × (deleted ≡ deleted + length new)
      × (map notice_of new ≡ [])
none_written db deleted = (
  [],
  ap (λ (l : List TaskEvent). record db { events = l }) (sym (append-nil db.events)),
  omega arith,
  refl,
)

map-append :
    (xs ys : List TaskEvent) → map notice_of (xs ++ ys) ≡ map notice_of xs ++ map notice_of ys
map-append [] ys = refl
map-append (x ∷ xs) ys = rw (map-append xs ys) refl

module _ (delete_object : String → Text → Deletion) (bucket_name : Option String) (now : ℕ)
    (deleted_keys : List (String × Text)) where
  abbrev fates : TaskEvent → Fate
  fates = fate delete_object bucket_name (λ place. any (same_place place) deleted_keys)

  clean_at-Cleaned :
      (event : TaskEvent) (at : Option (String × Text)) (tally : StagingCleanupSummary)
      (s : Session)
      → source_of event.payload_json ≡ at
      → Ensures
          (clean_at delete_object bucket_name now deleted_keys event at tally)
          s
          (λ tally' t. Cleaned now fates (event ∷ []) tally s.db tally' t.db)
  unfolding clean_at record_deletion
  clean_at-Cleaned event none tally s e = ensures-pure _ record {
    scanned = refl;
    counted = omega arith;
    failures = rw e (omega arith);
    written = rw e (none_written s.db tally.deleted);
  }
  clean_at-Cleaned event (some at) tally s e = elim (Bool-cases (is_asked bucket_name at.0)) [
    | inr elsewhere ↦
        rw (is_elsewhere-asked bucket_name at.0, elsewhere, if◌then◌else◌)
          (ensures-pure _ record {
            scanned = refl;
            counted = omega arith;
            failures = rw (e, elsewhere) (omega arith);
            written = rw (e, elsewhere) (none_written s.db tally.deleted);
          })
    | inl asked ↦ elim (Bool-cases (any (same_place at) deleted_keys)) [
      | inl before ↦
          rw (is_elsewhere-asked bucket_name at.0, asked, before, if◌then◌else◌)
            (ensures-pure _ record {
              scanned = refl;
              counted = omega arith;
              failures = rw (e, asked, before) (omega arith);
              written = rw (e, asked, before) (none_written s.db tally.deleted);
            })
      | inr due ↦ elim (Bool-cases (is_removed (delete_object at.0 at.1))) [
        | inl gone ↦
            rw
              (
                is_elsewhere-asked bucket_name at.0,
                asked,
                due,
                is_gone-removed (delete_object at.0 at.1),
                gone,
                if◌then◌else◌,
              )
              (ensures-append _ _ _ _ (
                ensures-pure _ record {
                  scanned = refl;
                  counted = omega arith;
                  failures = rw (e, asked, due, gone) (omega arith);
                  written = rw (e, asked, due, gone) (_ ∷ [], refl, refl, refl);
                }))
        | inr kept ↦
            rw
              (
                is_elsewhere-asked bucket_name at.0,
                asked,
                due,
                is_gone-removed (delete_object at.0 at.1),
                kept,
                if◌then◌else◌,
              )
              (ensures-pure _ record {
                scanned = refl;
                counted = omega arith;
                failures = rw (e, asked, due, kept) (omega arith);
                written = rw (e, asked, due, kept) (none_written s.db tally.deleted);
              })
      ]
    ]
  ]

  compose :
      (event : TaskEvent) (events : List TaskEvent) (one two three : StagingCleanupSummary)
      (db db' db'' : Database)
      → Cleaned now fates (event ∷ []) one db two db'
      → Cleaned now fates events two db' three db''
      → Cleaned now fates (event ∷ events) one db three db''
  compose event events one two three db db' db'' a b =
      let (new, wrote, many, notices) = a.written in
      let (more, wrote', many', notices') = b.written in
      record {
        scanned = b.scanned ∙ a.scanned;
        counted = omega (arith, a.counted, b.counted);
        failures = ground (arith, a.failures, b.failures);
        written = (
          new ++ more,
          wrote'
              ∙ rw wrote (
                  ap (λ (l : List TaskEvent). record db { events = l })
                    (append_assoc db.events new more)),
          omega (arith, many, many', length-append new more),
          map-append new more
              ∙ rw (notices, notices', append-nil (deletion_notice now event (fates event))) refl,
        );
      }

  clean_all-Cleaned :
      (events : List TaskEvent) (tally : StagingCleanupSummary) (s : Session)
      → Ensures
          (clean_all delete_object bucket_name now deleted_keys events tally)
          s
          (λ tally' t. Cleaned now fates events tally s.db tally' t.db)
  unfolding clean_all
  clean_all-Cleaned [] tally s = ensures-pure _ record {
    scanned = refl;
    counted = omega arith;
    failures = omega arith;
    written = none_written s.db tally.deleted;
  }
  clean_all-Cleaned (event ∷ events) tally s =
      ensures-bind _ _ _ (clean_at-Cleaned event (source_of event.payload_json) tally s refl)
        λ next t one.
          ensures-weaken _ _ (clean_all-Cleaned events next t)
            λ last u rest. compose event events tally next last s.db t.db u.db one rest

length-keep : {A : Type 0} (p : A → Bool) (xs : List A) → length (keep p xs) ≡ count_p p xs
length-keep p [] = refl
length-keep p (x ∷ xs) = ground (arith, length-keep p xs)

-- The archives that a cleanup looks at, the oldest first.
abbrev pub due : ℕ → Database → List TaskEvent
due cutoff db = sort_by Events.older (keep (is_due db.tasks cutoff) db.events)

-- What a cleanup answers and leaves.
pub record IsCleaned (delete_object : String → Text → Deletion) (bucket_name : Option String)
    (now cutoff : ℕ) (db : Database) (sum : StagingCleanupSummary) (db' : Database) : Type 0 where
  pub scanned : sum.scanned ≡ count_p (is_due db.tasks cutoff) db.events
  pub adds_up : sum.deleted + sum.failed + sum.skipped ≡ sum.scanned
  pub failures :
      sum.failed
      ≡ count_p
          (λ e. is_refused (fate delete_object bucket_name (was_deleted db.events) e))
          (due cutoff db)
  pub written :
      (new : List TaskEvent) × (db' ≡ record db { events = db.events ++ new })
      × (length new ≡ sum.deleted)
      × (map notice_of new
          ≡ deletion_notices now
              (fate delete_object bucket_name (was_deleted db.events))
              (due cutoff db))

pub cleanup_staging_sources-counts :
    (delete_object : String → Text → Deletion) (bucket_name : Option String) (now cutoff : ℕ)
    (s : Session)
    → Ensures
        (cleanup_staging_sources delete_object bucket_name now cutoff)
        s
        (λ sum t. IsCleaned delete_object bucket_name now cutoff s.db sum t.db)
unfolding cleanup_staging_sources list_cleanup_candidates list_deleted_source_keys
cleanup_staging_sources-counts delete_object bucket_name now cutoff s =
    let found =
      length-sort_by Events.older (keep (is_due s.db.tasks cutoff) s.db.events)
      ∙ length-keep (is_due s.db.tasks cutoff) s.db.events in
    let same : sort_by Events.older (keep (is_candidate s.db.tasks cutoff) s.db.events)
        ≡ due cutoff s.db =
      ap (λ (p : TaskEvent → Bool). sort_by Events.older (keep p s.db.events))
        (is_due-candidate s.db.tasks cutoff) in
    let before = fun_ext (λ place. any-was_deleted place s.db.events) in
    ensures-reads _ _ (
      ensures-reads _ _ (
        ensures-weaken _ _ (clean_all-Cleaned delete_object bucket_name now _ _ _ s) λ sum t all.
          let (new, wrote, many, notices) = all.written in
          record {
            scanned = all.scanned ∙ ap length same ∙ found;
            adds_up = omega (arith, all.counted, all.scanned);
            failures = omega (
              arith,
              all.failures,
              ap₂
                  (λ (gone : String × Text → Bool) (l : List TaskEvent).
                    count_p (λ e. is_refused (fate delete_object bucket_name gone e)) l)
                  before same,
            );
            written = (
              new,
              wrote,
              omega (arith, many),
              notices
                  ∙ ap₂
                      (λ (gone : String × Text → Bool) (l : List TaskEvent).
                        deletion_notices now (fate delete_object bucket_name gone) l)
                      before same,
            );
          }))
