-- ===== src/Jobs/Runner/Safely.antt =====
-- The threads of the pool, and how each ends when its job raises: `_run_safely`, `_run_iso_safely`,
-- `_finalize_safely`, `_cleanup_safely`, `_release_azure`, `_release_gcp` and `_finish` of
-- helper/helper_app/jobs/runner.py. A thread that finds no job only finishes. The wait for a slot is
-- an outcome here: a free slot, or the cancel that ended the wait (Jobs/Slots has the slots).
pub mod Laws
pub mod Books
pub mod Iso
use vmware_migration_helper.Base.{
  any, ℕ, ◌+◌, ◌-◌, Bool, true, false, not, ◌&&◌, Option, none, some, List, [], ◌∷◌, String, ◌=s=◌,
  if◌then◌else◌,
}
use vmware_migration_helper.Jobs.Model.{
  Job, JobKind, JobPhase, provisioning, finalizing, failed, cancelled, Exception, job_cancelled,
  export_error, transfer_error, other_error,
}
use vmware_migration_helper.Jobs.Store.{get}
use vmware_migration_helper.Jobs.Actions.{Outcome, ok, raised, ◌>>=◌, ◌>>◌, skip, try_catch, lift}
use vmware_migration_helper.Jobs.Runner.{
  Services, World, M, get_job, modify_job, save, save_phase, call_on_job, call_finalize,
}
use vmware_migration_helper.Jobs.Runner.Run.{run, run_azure, run_gcp}

abbrev pub is_cloud : JobKind → Bool
is_cloud JobKind.azure = true
is_cloud JobKind.gcp = true
is_cloud _ = false

-- `job.phase = JobPhase.FAILED` and its error
abbrev pub fail_with : Exception → Job → Job
fail_with e j = record j { error = some e; phase = failed }

abbrev pub cancel_with : Exception → Job → Job
cancel_with e j = record j { error = some e; phase = cancelled }

module _ (s : Services) where
  -- With no login the message names what stays behind.
  pub release_known : Bool → M (Unit {0})
  release_known true = call_on_job s s.release_left >> save s
  release_known false = save s

  -- `_release_azure` and `_release_gcp`, of which each does nothing for a job of another kind
  pub release_cloud : M (Unit {0})
  release_cloud = do
    j ← get_job
    if is_cloud j.kind && s.has_left j then release_known (s.has_login j) else skip

  -- `prov.cleanup` saves the job as its last act.
  pub clean : M (Unit {0})
  clean = do call_on_job s s.cleanup; save s; release_cloud

  pub clean_iso : M (Unit {0})
  clean_iso = do call_on_job s s.iso_cleanup; save s

  pub incomplete : Exception → M (Unit {0})
  incomplete e = modify_job (cancel_with e) >> save s

  pub on_failure : Exception → M (Unit {0})
  on_failure e = modify_job (fail_with e) >> save s

  pub on_exception : M (Unit {0}) → Exception → M (Unit {0})
  on_exception cleaning job_cancelled = save s >> try_catch cleaning incomplete
  on_exception cleaning export_error = on_failure export_error
  on_exception cleaning transfer_error = on_failure transfer_error
  on_exception cleaning other_error = on_failure other_error

  pub run_kind : JobKind → M (Unit {0})
  run_kind JobKind.azure = run_azure s
  run_kind JobKind.gcp = run_gcp s
  run_kind JobKind.vmware = run s
  run_kind JobKind.iso = run s

  -- The `try` statement of `_run_safely`.
  unfoldable pub guarded_run : Outcome (Unit {0}) → M (Unit {0})
  guarded_run waited = try_catch (do lift waited; j ← get_job; run_kind j.kind) (on_exception clean)

  -- `iso.run` saves the job as its last act.
  unfoldable pub guarded_iso : M (Unit {0})
  guarded_iso =
      try_catch (do save_phase s provisioning; call_on_job s s.iso_run; save s)
        (on_exception clean_iso)

  unfoldable pub guarded_finalize : M (Unit {0})
  guarded_finalize =
      try_catch
        (do
          modify_job (λ j. record j { error = none })
          save_phase s finalizing
          call_finalize s
          save s)
        on_failure

  pub clean_kind : JobKind → M (Unit {0})
  clean_kind JobKind.iso = clean_iso
  clean_kind JobKind.azure = clean
  clean_kind JobKind.gcp = clean
  clean_kind JobKind.vmware = clean

  unfoldable pub guarded_cleanup : M (Unit {0})
  guarded_cleanup = try_catch (do j ← get_job; clean_kind j.kind) incomplete

-- What the runner keeps of its threads: `_running`, `_sessions` and `_cancel_requested` as sets of job
-- ids, and `_migrating`.
pub record Threads : Type 0 where
  pub running : List String
  pub sessions : List String
  pub cancel_requested : List String
  pub migrating : ℕ

-- `set.discard`, and `dict.pop` with a default
unfoldable pub discard : String → List String → List String
discard id [] = []
discard id (x ∷ xs) = let rest = discard id xs in if x =s= id then rest else x ∷ rest

-- `_finish`
unfoldable pub finish : String → Threads → Threads
finish id t = record t {
  running = discard id t.running;
  sessions = discard id t.sessions;
  cancel_requested = discard id t.cancel_requested;
}

abbrev pub member : String → List String → Bool
member id xs = any (λ x. x =s= id) xs

-- `set.add`
abbrev pub add : String → List String → List String
add id xs = if member id xs then xs else id ∷ xs

-- What the web requests do to the books before a thread starts. `_sessions[job_id] = session` keeps the id here;
-- the pin is in Sessions.
unfoldable pub submit : String → Threads → Threads
submit id t = record t { running = add id t.running; sessions = add id t.sessions }

-- `submit_iso` and `resume_finalize`
unfoldable pub submit_iso : String → Threads → Threads
submit_iso id t = record t { running = add id t.running }

unfoldable pub resume_finalize : String → Threads → Threads
resume_finalize id t = record t { running = add id t.running }

-- `cleanup`; a session comes with it if the user has an Azure login
unfoldable pub cleanup : Bool → String → Threads → Threads
cleanup has_session id t = record t {
  running = add id t.running;
  sessions = if has_session then add id t.sessions else t.sessions;
}

unfoldable pub request_cancel : String → Threads → Threads
request_cancel id t = record t { cancel_requested = add id t.cancel_requested }

unfoldable pub is_running : String → Threads → Bool
is_running id t = member id t.running

unfoldable pub cancelled_job : String → Threads → Bool
cancelled_job id t = member id t.cancel_requested

abbrev pub acquire_slot : Threads → Threads
acquire_slot t = record t { migrating = t.migrating + 1 }

abbrev pub release_slot : Threads → Threads
release_slot t = record t { migrating = t.migrating - 1 }

-- The slot goes back only if the thread got it.
abbrev pub use_slot : Outcome (Unit {0}) → Threads → Threads
use_slot (ok u) t = release_slot (acquire_slot t)
use_slot (raised e) t = t

-- The job that a thread works on is its own copy of the row.
abbrev pub load : Job → World → World
load j w = record w { job = j }

abbrev pub with_job : Option Job → M (Unit {0}) → World → World
with_job none m w = w
with_job (some j) m w = (m (load j w)).1

-- `_run_safely`, `_run_iso_safely`, `_finalize_safely` and `_cleanup_safely`, in this order
unfoldable pub run_safely :
    Services → Outcome (Unit {0}) → String → World → Threads → World × Threads
run_safely s waited id w t = (
  with_job (get id w.table) (guarded_run s waited) w,
  finish id (elim (get id w.table) [ none ↦ t | some j ↦ use_slot waited t ]),
)

unfoldable pub run_iso_safely : Services → String → World → Threads → World × Threads
run_iso_safely s id w t = (with_job (get id w.table) (guarded_iso s) w, finish id t)

unfoldable pub finalize_safely : Services → String → World → Threads → World × Threads
finalize_safely s id w t = (with_job (get id w.table) (guarded_finalize s) w, finish id t)

unfoldable pub cleanup_safely : Services → String → World → Threads → World × Threads
cleanup_safely s id w t = (with_job (get id w.table) (guarded_cleanup s) w, finish id t)
