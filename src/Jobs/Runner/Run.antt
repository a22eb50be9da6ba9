-- ===== src/Jobs/Runner/Run.antt =====
-- A whole migration: `_run`, `_run_azure`, `_run_gcp`, `_guest_fixup` and `_resolve_nfc_host` of
-- helper/helper_app/jobs/runner.py. That a failed VMware copy is also noted on the lease is the lease's
-- affair, and is left out.
pub mod Laws
pub mod GuestFixup
use vmware_migration_helper.Base.{
  ℕ, zero, suc, ◌+◌, Bool, true, false, not, ◌&&◌, ◌||◌, Option, none, some, List, [], ◌∷◌, String,
  ◌=s=◌, if◌then◌else◌, or_default, length,
}
use vmware_migration_helper.Jobs.Model.{
  Job, JobKind, JobPhase, provisioning, exporting, finalizing, DiskState, DiskStatus, is_copied,
  Exception, export_error, other_error, CaptureMode, PowerOffResult, Fixup, TransferStats,
}
use vmware_migration_helper.Jobs.Actions.{
  Outcome, ok, raised, ◌>>=◌, ◌>>◌, pure, raise, skip, try_catch, try_finally, lift,
}
use vmware_migration_helper.Jobs.Runner.{
  FixupResult, Services, World, M, get_job, modify_job, modify_transfer, save, save_phase,
  check_cancel, call, call_on_job, call_finalize, call_stop,
}
use vmware_migration_helper.Jobs.Runner.Copy.{export_disk, copy_azure_disk, copy_gcp_disk}

-- The status of the disk at a position.
unfoldable pub copied_at : ℕ → List DiskState → Bool
copied_at k [] = false
copied_at zero (d ∷ ds) = is_copied d.status
copied_at (suc k) (d ∷ ds) = copied_at k ds

-- `for disk in job.disks`, with the number of disks left; a disk that is copied is skipped.
unfoldable pub copy_disks : Services → (ℕ → M (Unit {0})) → ℕ → ℕ → M (Unit {0})
copy_disks s copy zero k = skip
copy_disks s copy (suc n) k = do
  j ← get_job
  if copied_at k j.disks then skip else (check_cancel s >> copy k)
  copy_disks s copy n (suc k)

-- The time of the first start is kept.
abbrev start_transfer : ℕ → TransferStats → TransferStats
start_transfer now t = record t { started_at = some (or_default t.started_at now); percent = 0 }

abbrev end_transfer : ℕ → TransferStats → TransferStats
end_transfer now t = record t { finished_at = some now; throughput_bps = 0 }

abbrev full_transfer : TransferStats → TransferStats
full_transfer t = record t { percent = 100 }

unfoldable pub get_now : M ℕ
get_now w = (ok w.now, w)

-- The part of the three methods from `job.transfer.started_at` to the end of the `finally`.
unfoldable pub transfer_disks : Services → (ℕ → M (Unit {0})) → M (Unit {0})
transfer_disks s copy = do
  now ← get_now
  modify_transfer (start_transfer now)
  save s
  try_finally (do j ← get_job; copy_disks s copy (length j.disks) 0; modify_transfer full_transfer)
      (do later ← get_now; modify_transfer (end_transfer later))

-- `urls[disk.index].file_size or None` for each disk in turn; a disk with no URL gets none here, while
-- `match_disk_urls` has refused the lease before.
unfoldable pub set_streams : List (Option ℕ) → List DiskState → List DiskState
set_streams sizes [] = []
set_streams [] (d ∷ ds) = record d { stream_bytes = none } ∷ set_streams [] ds
set_streams (n ∷ sizes) (d ∷ ds) = record d { stream_bytes = n } ∷ set_streams sizes ds

-- `_resolve_nfc_host`
abbrev esxi_host : String → Outcome String
esxi_host host = if host =s= "" then raised export_error else ok host

unfoldable pub resolve_nfc_host : Services → Job → Outcome String
resolve_nfc_host s j =
    if j.nfc_direct_to_esxi
    then esxi_host (if s.esxi_host_name j =s= "" then j.vm_host_name else s.esxi_host_name j)
    else ok (if s.nfc_host_override =s= "" then s.vc_host else s.nfc_host_override)

abbrev powered : PowerOffResult → Job → Job
powered r j = record j { power_off_result = some r; vm_powered_off = true }

abbrev already : Job → Job
already j = record j { power_off_result = some PowerOffResult.already_off }

-- The source must be off: `stop` runs if it is not, and the user confirmed that, the second argument.
stop_source : Bool → Bool → M (Unit {0}) → M (Unit {0})
stop_source true true stop = modify_job already  -- someone shut it down in the meantime
stop_source true false stop = skip
stop_source false true stop = stop
stop_source false false stop = raise export_error

unfoldable pub power_off_vmware : Services → M (Unit {0})
unfolding stop_source
power_off_vmware s = do
  off ← call s s.powered_off
  j ← get_job
  stop_source off j.power_off_source
      (do r ← call_stop s s.shut_down; modify_job (powered r); save s)

unfoldable pub capture_cloud : Services → PowerOffResult → CaptureMode → M (Unit {0})
unfolding stop_source
capture_cloud s stopped_how CaptureMode.snapshot = do
  off ← call s s.powered_off
  modify_job
      (λ j. record j { vm_powered_off = off; power_off_result = some PowerOffResult.snapshotted })
capture_cloud s stopped_how CaptureMode.stop = do
  off ← call s s.powered_off
  modify_job (λ j. record j { vm_powered_off = off })
  j ← get_job
  stop_source off j.power_off_source
      (do save s; call_stop s s.stop_vm; modify_job (powered stopped_how); save s)

-- `all_steps`: the outcome of each step that the job wants; `disabled` is a skipped step.
abbrev wanted : Bool → Fixup → Fixup
wanted true fx = fx
wanted false fx = Fixup.skipped

abbrev is_azure : JobKind → Bool
is_azure JobKind.azure = true
is_azure _ = false

abbrev is_gcp : JobKind → Bool
is_gcp JobKind.gcp = true
is_gcp _ = false

abbrev only_if : Bool → Fixup → Option Fixup
only_if true fx = some fx
only_if false fx = none

unfoldable pub all_steps : Fixup → Job → Job
all_steps fx j = record j {
  guest_fixup = some (wanted j.rebuild_initramfs fx);
  network_fixup = some (wanted j.fix_network fx);
  azure_fixup = only_if (is_azure j.kind) (wanted j.azure_cleanup fx);
  gcp_fixup = only_if (is_gcp j.kind) (wanted j.gcp_cleanup fx);
}

unfoldable pub record_fixups : FixupResult → Job → Job
record_fixups res j = record j {
  guest_fixup = some (or_default res.initramfs Fixup.skipped);
  network_fixup = some (or_default res.network Fixup.skipped);
  azure_fixup = only_if (is_azure j.kind) (wanted j.azure_cleanup res.azure_cloud);
  gcp_fixup = only_if (is_gcp j.kind) (wanted j.gcp_cleanup res.gcp_cloud);
}

abbrev windows_steps : Job → Job
windows_steps j = record j {
  guest_fixup = some Fixup.skipped;
  network_fixup = some Fixup.skipped;
  azure_fixup = none;
  gcp_fixup = none;
}

-- `not want_initramfs and not want_network and not want_azure and not want_gcp`
abbrev wants_nothing : Job → Bool
wants_nothing j =
    not j.rebuild_initramfs
    && not j.fix_network
    && not (is_azure j.kind && j.azure_cleanup)
    && not (is_gcp j.kind && j.gcp_cleanup)

-- `next((d for d in job.disks if d.is_boot), job.disks[0])`; none stands for the `IndexError`.
first_or : DiskState → List DiskState → DiskState
first_or d [] = d
first_or d (e ∷ es) = if e.is_boot then e else first_or d es

unfoldable pub boot_disk : List DiskState → Option DiskState
unfolding first_or
boot_disk [] = none
boot_disk (d ∷ ds) = some (first_or d (d ∷ ds))

fix_boot : Services → Option DiskState → M (Unit {0})
fix_boot s none = raise other_error
fix_boot s (some boot) =
    if or_default boot.device "" =s= ""
    then modify_job (all_steps Fixup.skipped)
    else (save_phase s finalizing
        >> (try_catch (do res ← call s s.fix_guest; modify_job (record_fixups res))
              (λ e. modify_job (all_steps Fixup.failed))
            >> save s))

fixup_of : Services → Job → M (Unit {0})
unfolding fix_boot
fixup_of s j =
    if j.vm_is_windows
    then modify_job windows_steps
    else if wants_nothing j
    then modify_job (all_steps Fixup.skipped)
    else fix_boot s (boot_disk j.disks)

unfoldable pub guest_fixup : Services → M (Unit {0})
unfolding fixup_of
guest_fixup s = get_job >>= fixup_of s

-- The last steps, the same in the three methods.
unfoldable pub fix_and_finalize : Services → M (Unit {0})
fix_and_finalize s = do
  check_cancel s
  guest_fixup s
  save_phase s finalizing
  call_finalize s
  save s

unfoldable pub run : Services → M (Unit {0})
run s = do
  save_phase s provisioning
  call_on_job s s.prepare
  check_cancel s
  save_phase s exporting
  power_off_vmware s
  host ← call s (resolve_nfc_host s)
  modify_job (λ j. record j { nfc_host = some host })
  save s
  sizes ← call s s.open_export
  try_finally
      (do
        modify_job (λ j. record j { disks = set_streams sizes j.disks })
        transfer_disks s (export_disk s))
      (call s s.release)
  fix_and_finalize s

-- `_run_azure` and `_run_gcp`, which differ in the way that the source is stopped and in the copy.
unfoldable pub run_cloud :
    Services → PowerOffResult → (ℕ → M (Unit {0})) → Option CaptureMode → M (Unit {0})
run_cloud s stopped_how copy none = raise export_error
run_cloud s stopped_how copy (some mode) = do
  save_phase s provisioning
  call_on_job s s.prepare
  check_cancel s
  save_phase s exporting
  capture_cloud s stopped_how mode
  save s
  sizes ← call s s.open_export
  try_finally (transfer_disks s copy) (call s s.release)
  save s
  fix_and_finalize s

unfoldable pub logged_in : Bool → M (Unit {0}) → M (Unit {0})
logged_in true m = m
logged_in false m = raise export_error

unfoldable pub run_azure : Services → M (Unit {0})
unfolding logged_in
run_azure s = do
  j ← get_job
  logged_in (s.has_login j)
      (run_cloud s PowerOffResult.deallocated (copy_azure_disk s) j.capture_mode)

unfoldable pub run_gcp : Services → M (Unit {0})
unfolding logged_in
run_gcp s = do
  j ← get_job
  logged_in (s.has_login j) (run_cloud s PowerOffResult.stopped (copy_gcp_disk s) j.capture_mode)
