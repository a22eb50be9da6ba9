-- ===== src/Api/Server.antt =====
-- What the requests and the threads change: the table of the store, and the books and the pool of the runner; with
-- `purge_jobs` of helper/helper_app/api/routes_setup.py.
use vmware_migration_helper.Base.{ℕ, Bool, false, List, ◌∷◌, String}
use vmware_migration_helper.Jobs.Model.{Job, JobPhase}
use vmware_migration_helper.Jobs.Store.{Table, put, stamp, delete_finished}
use vmware_migration_helper.Jobs.Runner.Safely.{Threads, finish}
use vmware_migration_helper.Api.Checks.{Answer, accepted, refused}

-- The method that a thread of the pool runs: `_run_safely`, `_run_iso_safely`, `_finalize_safely`, or
-- `_cleanup_safely`.
pub data Method : Type 0 where
  run run_iso finalize clean : Method

-- `parked` says that the job which the thread saved last, or did not find, needs nothing more of it.
pub record Task : Type 0 where
  pub method : Method
  pub id : String
  pub parked : Bool

-- `store`, and the runner with the tasks that its pool has and has not ended.
pub record Server : Type 0 where
  pub table : Table
  pub threads : Threads
  pub pool : List Task

-- `store.put`, and a method of the runner that changes its books and submits a task
abbrev pub start : Method → (Threads → Threads) → ℕ → Job → Server → Job × Server
start method books now job s = (
  stamp now job,
  record {
    table = put now job s.table;
    threads = books s.threads;
    pool = record { method = method; id = job.id; parked = false } ∷ s.pool;
  },
)

-- A handler that was refused has changed nothing.
abbrev pub respond :
    {A : Type 0} → Answer A → (A → Server → Job × Server) → Server → Answer Job × Server
respond (accepted a) f s = let (job, t) = f a s in (accepted job, t)
respond (refused e) f s = (refused e, s)

-- `purge_jobs`, without its counts
unfoldable pub purge_jobs : List JobPhase → Server → Server
purge_jobs phases s = record s { table = (delete_finished phases s.table).0 }

-- A thread of the pool saves its job.
unfoldable pub save_job : ℕ → Job → Server → Server
save_job now job s = record s { table = put now job s.table }

-- A thread of the pool ends, with the other tasks: `_finish` was its last call.
unfoldable pub end_thread : String → List Task → Server → Server
end_thread id others s = record s { threads = finish id s.threads; pool = others }
