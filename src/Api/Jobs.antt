-- ===== src/Api/Jobs.antt =====
-- The other handlers of helper/helper_app/api/routes_jobs.py that change jobs. They run in threads of their own, without
-- a lock around the handler: a handler is a place between two of its calls on the store and the runner, and
-- `advance` does its next call. The steps and messages that only the pages show are left out, and so is the sign-in.
pub mod Steps
pub mod Calls
pub mod Handlers
pub mod Pool
pub mod Tended
pub mod Replies
pub mod Alone
use vmware_migration_helper.Base.{
  ℕ, Bool, true, false, not, ◌&&◌, ◌||◌, Option, none, some, List, [], ◌∷◌, map, String, ◌=s=◌,
  ◌==◌, if◌then◌else◌,
}
use vmware_migration_helper.Oci.Mapping.{OciTarget, bios}
use vmware_migration_helper.Jobs.Model.{
  Job, JobKind, JobPhase, queued, installing, completed, cancelled, DiskState, pending, DiskSpec,
  CaptureMode, can_resume_finalize,
}
use vmware_migration_helper.Jobs.Store.{Table, get, put, stamp, same_phase, delete_finished}
use vmware_migration_helper.Jobs.Runner.Safely.{
  Threads, submit, submit_iso, cleanup, request_cancel, is_running, resume_finalize,
}
use vmware_migration_helper.Api.Checks.{
  HttpError, not_found, conflict, Answer, accepted, refused, ◌>>=◌, ◌>>◌, refuse_if, Site,
  VmInspection, check_source, TargetOptions, IsoRequest, check_iso,
}
use vmware_migration_helper.Api.Server.{
  Method, run, run_iso, finalize, clean, Task, Server, start, respond,
}
use vmware_migration_helper.Api.Create.{
  CreateJobRequest, new_disk, new_job, new_iso_job, start_job, start_iso, create_job,
  create_azure_job, create_gcp_job, create_iso_job,
}

-- `_get_job`
unfoldable pub get_job : String → Table → Answer Job
get_job id rows = elim (get id rows) [ none ↦ refused not_found | some job ↦ accepted job ]

abbrev pub is_phase : JobPhase → Job → Bool
is_phase phase job = same_phase job.phase phase

unfoldable pub can_cancel : String → Table → Answer Job
can_cancel id rows = do
  job ← get_job id rows
  refuse_if (is_phase completed job || is_phase cancelled job) conflict
  accepted job

abbrev pub is_iso : JobKind → Bool
is_iso JobKind.iso = true
is_iso _ = false

-- `IsoInstaller.finish`
unfoldable pub finish_iso : ℕ → Job → Server → Job × Server
finish_iso now job s =
    let over = record job { phase = completed; error = none } in
    (stamp now over, record s { table = put now over s.table })

unfoldable pub can_finish : String → Table → Answer Job
can_finish id rows = do
  job ← get_job id rows
  refuse_if (not (is_iso job.kind) || not (is_phase installing job)) conflict
  accepted job

unfoldable pub can_resume : Job → Threads → Answer Job
can_resume job threads = do
  refuse_if (is_running job.id threads) conflict
  refuse_if (not (can_resume_finalize job)) conflict
  accepted job

-- The call that a handler does next, with the job that it has read. The first argument of a cancel says that the user
-- has an Azure or Google login.
pub data Place : Type 0 where
  cancelling : Bool → String → Place
  testing cleaning submitting_clean : Bool → Job → Place
  requesting noting : Job → Place
  finishing : String → Place
  submitting_run submitting_iso : Job → Place
  completing : Job → Place
  resuming : String → Place
  testing_resume queueing submitting_finalize : Job → Place
  replied : Answer Job → Place

-- A handler that is refused ends.
abbrev pub answered : Answer Job → (Job → Place) → Place
answered (accepted job) next = next job
answered (refused e) next = replied (refused e)

-- What `cleanup` and `resume_finalize` of the runner do
abbrev pub submit_task : Method → (Threads → Threads) → String → Server → Server
submit_task method books id s = record s {
  threads = books s.threads;
  pool = record { method = method; id = id; parked = false } ∷ s.pool;
}

abbrev pub put_job : ℕ → Job → Server → Server
put_job now job s = record s { table = put now job s.table }

-- `cancel_job`, then `finish_installation`, then `resume_finalize`, then the last call of the handlers that make a job
unfoldable pub advance : ℕ → Place → Server → Place × Server
advance now (cancelling has_cloud id) s = (answered (can_cancel id s.table) (testing has_cloud), s)
advance now (testing has_cloud job) s =
    (if is_running job.id s.threads then requesting job else cleaning has_cloud job, s)
advance now (requesting job) s =
    (noting job, record s { threads = request_cancel job.id s.threads })
advance now (noting job) s = (replied (accepted (stamp now job)), put_job now job s)
advance now (cleaning has_cloud job) s =
    (submitting_clean has_cloud (stamp now job), put_job now job s)
advance now (submitting_clean has_cloud job) s =
    (replied (accepted job), submit_task clean (cleanup has_cloud job.id) job.id s)
advance now (finishing id) s = (answered (can_finish id s.table) completing, s)
advance now (completing job) s =
    let (over, t) = finish_iso now job s in (replied (accepted over), t)
advance now (resuming id) s = (answered (get_job id s.table) testing_resume, s)
advance now (testing_resume job) s = (answered (can_resume job s.threads) queueing, s)
advance now (queueing job) s = (submitting_finalize (stamp now job), put_job now job s)
advance now (submitting_finalize job) s =
    (replied (accepted job), submit_task finalize (resume_finalize job.id) job.id s)
advance now (submitting_run job) s =
    (replied (accepted job), submit_task run (submit job.id) job.id s)
advance now (submitting_iso job) s =
    (replied (accepted job), submit_task run_iso (submit_iso job.id) job.id s)
advance now (replied answer) s = (replied answer, s)

-- The requests for a new job, each with what its handler is given.
pub data Request : Type 0 where
  create_vmware create_azure create_gcp : Answer VmInspection → CreateJobRequest → Request
  create_iso : IsoRequest → Request

unfoldable pub handle : Site → String → ℕ → Request → Server → Answer Job × Server
unfolding create_job create_azure_job create_gcp_job create_iso_job
handle site id now (create_vmware found body) s = create_job site id now found body s
handle site id now (create_azure found body) s = create_azure_job site id now found body s
handle site id now (create_gcp found body) s = create_gcp_job site id now found body s
handle site id now (create_iso body) s = create_iso_job site id now body s

-- The handler of the request, after its `put`.
abbrev pub after_put : Request → Job → Place
after_put (create_iso body) = submitting_iso
after_put _ = submitting_run
