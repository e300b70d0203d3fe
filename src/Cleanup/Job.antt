-- ===== src/Cleanup/Job.antt =====
-- The job around a cleanup: `run` of control-plane/app/jobs/cleanup_staging_sources.py, with its
-- arguments already read. The retention is in the unit of the clock and is not negative.
use multi_tenant_file_delive.Prelude.{ℕ, ◌-◌, String, Option}
use multi_tenant_file_delive.Text.{Text}
use multi_tenant_file_delive.Store.Session.{Session, Action, ◌>>=◌, ◌>>◌, pure, clock, commit}
use multi_tenant_file_delive.Store.Ensures.{
  Ensures, ensures-bind, ensures-clock, ensures-commit, ensures-pure,
}
use multi_tenant_file_delive.Cleanup.{StagingCleanupSummary, Deletion, cleanup_staging_sources}
use multi_tenant_file_delive.Cleanup.Tally.{IsCleaned, cleanup_staging_sources-counts}

unfoldable pub run : (String → Text → Deletion) → Option String → ℕ → Action StagingCleanupSummary
run delete_object bucket_name retention = do
  now ← clock
  summary ← cleanup_staging_sources delete_object bucket_name now (now - retention)
  commit
  pure summary

-- A job that ends well has cleaned up by its own clock and has committed what it wrote.
run-commits :
    (delete_object : String → Text → Deletion) (bucket_name : Option String) (retention : ℕ)
    (s : Session)
    → Ensures (run delete_object bucket_name retention) s (λ sum t.
      IsCleaned delete_object bucket_name s.now (s.now - retention) s.db sum t.committed)
unfolding run
run-commits delete_object bucket_name retention s = ensures-clock _ (
    ensures-bind _ _ _
      (cleanup_staging_sources-counts delete_object bucket_name s.now (s.now - retention) s)
      λ sum t cleaned. ensures-commit _ (ensures-pure sum cleaned))
