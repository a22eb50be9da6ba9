-- ===== src/Jobs/Runner.antt =====
-- helper/helper_app/jobs/runner.py: the state that a migration's thread works on, and the actions that
-- its methods are made of. What the code calls (the provisioner, vCenter, the clouds, the disk copy,
-- the guest fix-up) is the record `Services`; a thread sees a request to cancel at one of its checks.
pub mod Rules
pub mod Copy
pub mod Run
pub mod Safely
pub mod Restart
use vmware_migration_helper.Base.{
  ℕ, zero, suc, ◌+◌, ◌-◌, Bool, true, false, not, ◌&&◌, ◌||◌, Option, none, some, List, [], ◌∷◌,
  ◌++◌, String, leb, ◌==◌, if◌then◌else◌, is_some,
}
use vmware_migration_helper.Jobs.Model.{
  Job, JobPhase, DiskState, DiskStatus, Exception, job_cancelled, PowerOffResult, Fixup,
  TransferStats,
}
use vmware_migration_helper.Jobs.Actions.{
  Act, Outcome, ok, raised, ◌>>=◌, ◌>>◌, pure, raise, skip, continue, recover, try_catch,
  finish_with, try_finally, lift, when,
}
use vmware_migration_helper.Jobs.Store.{Table, put, stamp}

-- One chunk of a disk stream: what feeding it does, its length, the decoder's counters and the rate once it is fed, the
-- progress of the lease, and whether two seconds have passed since the job was last saved.
pub record Chunk : Type 0 where
  pub fed : Outcome (Unit {0})  -- whether the decoder or the writer raises
  pub len : ℕ
  pub written : ℕ
  pub grains : ℕ
  pub rate_bps : ℕ
  pub export_percent : ℕ
  pub late : Bool

-- The counters of a finished copy.
pub record CopyStats : Type 0 where
  pub received : ℕ
  pub written : ℕ
  pub grains : ℕ
  pub rate_bps : ℕ
  pub export_percent : ℕ

-- One attempt to copy a disk: whether the writer opens, what the code does before the first byte (its
-- stream size, or an exception), the chunks that arrive, and how the copy ends after them.
pub record Attempt : Type 0 where
  pub opens : Bool
  pub start : Outcome (Option ℕ)
  pub chunks : List Chunk
  pub finish : Outcome CopyStats
  pub close : Outcome (Unit {0})  -- the `writer.close()` of the `finally`, whose `fsync` may raise

-- `FixupResult`; a step that does not apply is none.
pub record FixupResult : Type 0 where
  pub initramfs : Option Fixup
  pub network : Option Fixup
  pub azure_cloud : Fixup
  pub gcp_cloud : Fixup

pub record Services : Type 0 where
  pub cancelled : ℕ → Bool  -- whether the job is in `_cancel_requested` at the n-th check
  pub tick : ℕ → ℕ  -- the time after a save
  pub retry_attempts : ℕ  -- `disk_retry_attempts`
  pub prepare : Job → Outcome (Unit {0}) × Job  -- `Provisioner.prepare`, which may raise at its checks
  pub finalize : Job → Outcome (Unit {0}) × Job
  pub cleanup : Job → Outcome (Unit {0}) × Job
  pub has_login : Job → Bool  -- the session has the Azure or GCP login that the job needs
  pub powered_off : Job → Outcome Bool  -- the source's power state, as read before the export
  pub shut_down : Job → Outcome PowerOffResult
  pub stop_vm : Job → Outcome (Unit {0})  -- `deallocate_vm`, `stop_instance`
  pub esxi_host_name : Job → String  -- empty if vCenter reports none
  pub nfc_host_override : String
  pub vc_host : String  -- the session's vCenter, without brackets
  pub open_export : Job → Outcome (List (Option ℕ))  -- the size of each disk's stream, if reported
  pub attempt : Job → ℕ → ℕ → Attempt  -- the disk's position, and the number of the attempt
  pub release : Job → Outcome (Unit {0})  -- the `__exit__` of the export
  pub fix_guest : Job → Outcome FixupResult
  pub has_left : Job → Bool  -- a cloud source has an export or a snapshot that is recorded on the job
  pub release_left : Job → Outcome (Unit {0}) × Job  -- `release_azure_resources`, `release_gcp_resources`
  pub iso_run : Job → Outcome (Unit {0}) × Job
  pub iso_cleanup : Job → Outcome (Unit {0}) × Job

pub record World : Type 0 where
  pub job : Job
  pub table : Table
  pub now : ℕ
  pub checks : ℕ  -- how often the thread has looked for a request to cancel
  pub finalized : List Job  -- the job at each call of `prov.finalize`
  pub stops : ℕ  -- how often the source was asked to shut down

-- What was written before an exception stays written.
abbrev pub M : Type 0 → Type 0
M A = Act World A

unfoldable pub get_job : M Job
get_job w = (ok w.job, w)

unfoldable pub modify_job : (Job → Job) → M (Unit {0})
modify_job f w = (ok tt, record w { job = f w.job })

-- The disk at a position, changed in place.
unfoldable pub modify : ℕ → (DiskState → DiskState) → List DiskState → List DiskState
modify k f [] = []
modify zero f (d ∷ ds) = f d ∷ ds
modify (suc k) f (d ∷ ds) = d ∷ modify k f ds

unfoldable pub modify_disk : ℕ → (DiskState → DiskState) → M (Unit {0})
unfolding modify_job
modify_disk k f = modify_job (λ j. record j { disks = modify k f j.disks })

unfoldable pub modify_transfer : (TransferStats → TransferStats) → M (Unit {0})
unfolding modify_job
modify_transfer f = modify_job (λ j. record j { transfer = f j.transfer })

module _ (s : Services) where
  -- `store.put(job)`
  unfoldable pub save : M (Unit {0})
  save w = (
    ok tt,
    record w { job = stamp w.now w.job; table = put w.now w.job w.table; now = s.tick w.now },
  )

  -- `_save(job, phase)`; the message is not modelled.
  unfoldable pub save_phase : JobPhase → M (Unit {0})
  save_phase p = modify_job (λ j. record j { phase = p }) >> save

  -- `_check_cancel`
  unfoldable pub check_cancel : M (Unit {0})
  check_cancel w = (
    if s.cancelled w.checks then raised job_cancelled else ok tt,
    record w { checks = w.checks + 1 },
  )

  -- A call of a service that answers, and one that also changes the job.
  unfoldable pub call : {A : Type 0} → (Job → Outcome A) → M A
  call f w = (f w.job, w)

  unfoldable pub call_on_job : (Job → Outcome (Unit {0}) × Job) → M (Unit {0})
  call_on_job f w = let (r, j) = f w.job in (r, record w { job = j })

  unfoldable pub call_finalize : M (Unit {0})
  call_finalize w =
      let (r, j) = s.finalize w.job in (r, record w { job = j; finalized = w.job ∷ w.finalized })

  -- A call that shuts the source down.
  unfoldable pub call_stop : {A : Type 0} → (Job → Outcome A) → M A
  call_stop f w = (f w.job, record w { stops = w.stops + 1 })
