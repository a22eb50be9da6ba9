-- ===== src/Tests/Runner.antt =====
-- The runner: helper/helper_app/jobs/runner.py.
use vmware_migration_helper.Base.{◌≡◌, refl, [], ◌∷◌}
use vmware_migration_helper.Jobs.Model.{JobKind, JobPhase, DiskStatus}
use vmware_migration_helper.Jobs.Actions.{ok}
use vmware_migration_helper.Jobs.Runner.{World}
use vmware_migration_helper.Jobs.Runner.Copy.{export_disk, copy_azure_disk, copy_gcp_disk}
use vmware_migration_helper.Jobs.Runner.Copy.Laws.{
  CopyInv, export_disk-Copies, copy_azure_disk-Copies, copy_gcp_disk-Copies,
}
use vmware_migration_helper.Jobs.Actions.Hoare.{Post}
use vmware_migration_helper.Jobs.Runner.Run.{run, run_azure, run_gcp, guest_fixup}
use vmware_migration_helper.Jobs.Runner.Run.Laws.{
  FinalizesCopied, run-FinalizesCopied, run_azure-FinalizesCopied, run_gcp-FinalizesCopied,
}
use vmware_migration_helper.Jobs.Runner.Run.GuestFixup.{guest_fixup-Returns}
use vmware_migration_helper.Jobs.Runner.Safely.{guarded_finalize, guarded_cleanup}
use vmware_migration_helper.Jobs.Runner.Safely.Laws.{
  EndsWell, guarded_finalize-EndsWell, guarded_cleanup-EndsWell,
}
use vmware_migration_helper.Tests.Data.{services, world_of, job_of, two_disks, disk_of}

abbrev start : JobKind → World
start kind = world_of (job_of kind JobPhase.queued two_disks)

run_example : FinalizesCopied (run services (start JobKind.vmware)).1
run_example = (run-FinalizesCopied services).at (start JobKind.vmware) tt

run_azure_example : FinalizesCopied (run_azure services (start JobKind.azure)).1
run_azure_example = (run_azure-FinalizesCopied services).at (start JobKind.azure) tt

run_gcp_example : FinalizesCopied (run_gcp services (start JobKind.gcp)).1
run_gcp_example = (run_gcp-FinalizesCopied services).at (start JobKind.gcp) tt

before_copy : (kind : JobKind) → CopyInv 0 2 (start kind)
before_copy kind = record { count = refl; before = tt; finalized_copied = tt }

export_disk_example :
    Post (λ u. CopyInv 1 2) (CopyInv 0 2) (export_disk services 0 (start JobKind.vmware))
export_disk_example =
    (export_disk-Copies services).at (start JobKind.vmware) (before_copy JobKind.vmware)

copy_azure_disk_example :
    Post (λ u. CopyInv 1 2) (CopyInv 0 2) (copy_azure_disk services 0 (start JobKind.azure))
copy_azure_disk_example =
    (copy_azure_disk-Copies services).at (start JobKind.azure) (before_copy JobKind.azure)

copy_gcp_disk_example :
    Post (λ u. CopyInv 1 2) (CopyInv 0 2) (copy_gcp_disk services 0 (start JobKind.gcp))
copy_gcp_disk_example =
    (copy_gcp_disk-Copies services).at (start JobKind.gcp) (before_copy JobKind.gcp)

guest_fixup_example : (guest_fixup services (start JobKind.vmware)).0 ≡ ok tt
guest_fixup_example =
    guest_fixup-Returns services (start JobKind.vmware) (disk_of 0 DiskStatus.attached)
      (disk_of 1 DiskStatus.attached ∷ []) refl

guarded_finalize_example : EndsWell (guarded_finalize services (start JobKind.vmware))
guarded_finalize_example = guarded_finalize-EndsWell services (λ j e. refl) (start JobKind.vmware)

guarded_cleanup_example : EndsWell (guarded_cleanup services (start JobKind.iso))
guarded_cleanup_example =
    guarded_cleanup-EndsWell services (λ j e. refl) (λ j. refl) (λ j e. refl) (start JobKind.iso)
