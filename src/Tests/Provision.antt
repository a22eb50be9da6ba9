-- ===== src/Tests/Provision.antt =====
-- The provisioner: helper/helper_app/oci/provision.py, on an OCI that does what it is asked.
use vmware_migration_helper.Base.{◌≡◌, refl, ◌==◌, false, none, some, [], ◌∷◌}
use vmware_migration_helper.Jobs.Model.{Job, JobKind, JobPhase, DiskStatus}
use vmware_migration_helper.Jobs.Actions.{ok, ◌>>=◌, lift, pure, skip}
use vmware_migration_helper.Jobs.Runner.Safely.{guarded_run}
use vmware_migration_helper.Jobs.Runner.Safely.Laws.{EndsWell}
use vmware_migration_helper.Oci.Mapping.{map_launch_options, volume_size_gb}
use vmware_migration_helper.Jobs.Runner.{modify}
use vmware_migration_helper.Disk.Devices.{wait_for_new_device, matching}
use vmware_migration_helper.Oci.Provision.{
  get_job, change, save, request, step, check_cancel, await, each, on_disk, wait_for, Call, Reply,
  Cloud, seed_image, launch_instance, get_instance, poll, create_volume, attach_volume,
  get_volume_attachment, list_boot_volume_attachments, attach_boot_volume, list_instance_devices,
  scan_devices, watch_devices, ensure_shape_compatible, instance_action, detach_volume,
  detach_boot_volume, terminate_instance, delete_boot_volume, delete_volume,
}
use vmware_migration_helper.Oci.Provision.Prepare.{
  prepare, set_up, resolve_seed_image, launch, seed_and_launch, new_volume, create_one,
  target_device, attach_to_target, attach_data, share_and_stop, take_boot_volume, detach_boot,
  attach_to_helper, attach_boot_volume_to_helper, attach_volume_to_helper, attach_disk, attach_one,
  insert, sort_disks, pick, first_attached,
}
use vmware_migration_helper.Oci.Provision.History.{fresh}
use vmware_migration_helper.Oci.Provision.Service.{provisioned, provisioned-EndsWell}
use vmware_migration_helper.Tests.Data.{services, world_of, job_of, disk_of}

abbrev answer : (c : Call) → Reply c
answer seed_image = "image-1"
answer (ensure_shape_compatible image) = tt
answer (launch_instance image size) = "instance-2"
answer (get_instance id) = "RUNNING"
answer (instance_action id action) = tt
answer (poll r) = record {
  states = "PROVISIONING" ∷ "RUNNING" ∷ "AVAILABLE" ∷ "ATTACHED" ∷ "DETACHED" ∷ [];
  at_deadline = "STOPPED";
  device = none;
}
answer (create_volume index size) = "volume-2"
answer (attach_volume i v d b) = "attachment-1"
answer (get_volume_attachment id) = "ATTACHED"
answer (detach_volume id) = tt
answer (list_boot_volume_attachments id) =
    record { id = "boot-1"; boot_volume_id = "volume-1"; lifecycle_state = "ATTACHED" } ∷ []
answer (attach_boot_volume v i) = "attachment-2"
answer (detach_boot_volume id) = tt
answer list_instance_devices = "/dev/oraclevdb" ∷ "/dev/oraclevdc" ∷ []
answer scan_devices = []
answer watch_devices = ((("/dev/sdb", 53687091200) ∷ []) ∷ [], [])
answer (terminate_instance id) = tt
answer (delete_boot_volume id) = tt
answer (delete_volume id) = tt

abbrev cloud : Cloud
cloud = record {
  reply = λ h c. ok (answer c);
  cancelled = λ n. false;
  availability_domain = "AD-1";
  helper_id = "helper";
  min_volume_gb = 50;
  target_device = λ n. "/dev/oraclevdb";
  named_windows = λ j. false;
  plan_shape = λ j. ok tt;
  plan_platform = λ j. ok tt;
}

-- A cancel at the seventh check, while the volumes are attached.
abbrev interrupted : Cloud
interrupted = record cloud { cancelled = λ n. n == 6 }

abbrev new_job : Job
new_job = record (job_of JobKind.vmware JobPhase.queued []) { instance_id = none }

-- It returns.
new_job_prepared : (prepare cloud (fresh new_job)).0 ≡ ok tt
unfolding prepare set_up resolve_seed_image launch seed_and_launch new_volume create_one
    target_device attach_to_target attach_data share_and_stop take_boot_volume detach_boot
    attach_to_helper attach_boot_volume_to_helper attach_volume_to_helper attach_disk attach_one
    insert sort_disks pick first_attached get_job change save request step check_cancel await each
    on_disk wait_for ◌>>=◌ lift pure skip map_launch_options volume_size_gb modify
    wait_for_new_device matching
new_job_prepared = refl

-- Two copied disks, of which the second is still on the helper.
abbrev copied_job : Job
copied_job = job_of JobKind.vmware JobPhase.exporting (
    record (disk_of 0 DiskStatus.copied) { volume_id = some "volume-1" }
    ∷ record (disk_of 1 DiskStatus.copied) {
      volume_id = some "volume-2";
      helper_attachment_id = some "attachment-1";
    }
    ∷ [])

provisioned_example :
    EndsWell (guarded_run (provisioned (λ j. cloud) services) (ok tt) (world_of new_job))
provisioned_example =
    provisioned-EndsWell (λ j. cloud) services (λ j. refl) (ok tt) (world_of new_job)
