-- ===== src/Api/Jobs/Tended.antt =====
-- Jobs and threads of the server: helper/helper_app/api/routes_jobs.py over jobs/store.py and jobs/runner.py.
use vmware_migration_helper.Base.{◌≡◌, refl, arith, true, false, [], ◌∷◌, String, All, All-map}
use vmware_migration_helper.Jobs.Model.{Job}
use vmware_migration_helper.Jobs.Store.{Table}
use vmware_migration_helper.Jobs.Store.Rows.{All-delete_finished, delete_finished-IsUnique}
use vmware_migration_helper.Jobs.Runner.Restart.{fail_stale_jobs_lem, fail_stale_jobs-IsUnique}
use vmware_migration_helper.Api.Checks.{Site}
use vmware_migration_helper.Api.Server.{purge_jobs}
use vmware_migration_helper.Api.Jobs.{Place, cancelling, finishing, resuming}
use vmware_migration_helper.Api.Jobs.Steps.{
  will_submit, holds, State, is_first, Step, request, purge, begin, move, save, miss, exit, boot,
  IsReachable, booted, after,
}
use vmware_migration_helper.Api.Jobs.Handlers.{IsTended, request-IsTended, move-IsTended}
use vmware_migration_helper.Api.Jobs.Pool.{park-IsTended, save-IsTended, exit-IsTended, missing}

first_none :
    (p : Place)
    → is_first p ≡ true
    → (id : String) → (will_submit id p ≡ false) × (holds id p ≡ false)
first_none (cancelling c id) e i = (refl, refl)
first_none (finishing id) e i = (refl, refl)
first_none (resuming id) e i = (refl, refl)
first_none _ e i = absurd (cc)

All-both : (P Q : Job → Type 0) (rows : Table) → All P rows → All Q rows → All (λ r. P r × Q r) rows
All-both P Q [] g h = tt
All-both P Q (r ∷ rows) g h = ((g.0, h.0), All-both P Q rows g.1 h.1)

step-IsTended : (site : Site) (s t : State) → Step site s t → IsTended s → IsTended t
unfolding purge_jobs
step-IsTended site s _ (request id now r seen job e) h = request-IsTended now r job s h
step-IsTended site s _ (purge phases) h = record {
  unique = delete_finished-IsUnique phases s.server.table h.unique;
  rows = All-delete_finished phases _ s.server.table h.rows;
  held = h.held;
}
step-IsTended site s _ (begin p f) h = record {
  unique = h.unique;
  rows = All-map _ _ s.server.table (λ r k. ground (arith, k)) h.rows;
  held = λ i k. let n = first_none p f i in ground (arith, k, n.1, h.held i);
}
step-IsTended site s _ (move now front back p e) h = move-IsTended now front back p s e h
step-IsTended site s _ (save now job front back t e same) h =
    save-IsTended s front back t e now job same h
step-IsTended site s _ (miss front back t e n) h =
    park-IsTended s front back t e s.server.table h.unique
      (All-map _ _ s.server.table (λ r k. ground (arith, k.0, k.1))
        (All-both _ _ s.server.table h.rows (missing s front back t e s.server.table n)))
      h
step-IsTended site s _ (exit front back t e over) h = exit-IsTended s front back t e over h

-- At every moment of a server that was started on at most 10,000 rows with different ids, in whatever order the single
-- calls of the handlers that make, cancel, finish and resume jobs, the saves and ends of threads and purges come:
-- no two rows have the same id, and for every job that has neither ended nor is an ISO job in INSTALLING, the pool has
-- a thread whose last save did not end the job, or a handler is about to submit one, or a thread once came to the
-- job's end while a cancel held an older copy of it. The same is true of a job that a cancel has read before
-- its end and not put back. A thread leaves the pool after the save of an end, or when it did not find its job.
pub reachable-IsTended : (site : Site) (st : State) → IsReachable site st → IsTended st
unfolding boot
reachable-IsTended site _ (booted clock rows few u) = record {
  unique = fail_stale_jobs-IsUnique clock rows u;
  rows = All-map _ _ _ (λ r e. ground arith) (fail_stale_jobs_lem clock rows few u).0;
  held = λ id e. absurd (cc);
}
reachable-IsTended site t (after s before step) =
    step-IsTended site s t step (reachable-IsTended site s before)
