-- ===== src/Tests/Installer.antt =====
-- The ISO installer: helper/helper_app/oci/iso_install.py.
use vmware_migration_helper.Base.{◌≡◌, true, false, some, none, [], ◌∷◌, All}
use vmware_migration_helper.Oci.Mapping.{oci_uefi}
use vmware_migration_helper.Jobs.Model.{Job, JobKind, JobPhase, IsoSpec}
use vmware_migration_helper.Jobs.Actions.{ok}
use vmware_migration_helper.Jobs.Runner.Safely.{guarded_iso}
use vmware_migration_helper.Jobs.Runner.Safely.Iso.{EndsParked}
use vmware_migration_helper.Oci.Installer.{
  Call, Reply, Cloud, list_images, create_image, hostname_label, import_failure_detail,
  ensure_data_volume_types, wait_import, update_image, apply_capability_schema,
  ensure_shape_compatible, launch_instance, poll_instance, work_request_errors, terminate_instance,
  run, cleanup,
}
use vmware_migration_helper.Oci.Installer.Cancel.{fresh, stopped, cleanup-Stops}
use vmware_migration_helper.Oci.Installer.Service.{with_installer, installed-EndsParked}
use vmware_migration_helper.Tests.Data.{job_of, services, world_of}

abbrev answer : (c : Call) → Reply c
answer list_images = record { id = "image-1"; freeform_tags = ("iso", "false") ∷ [] } ∷ []
answer create_image = "image-2"
answer hostname_label = tt
answer import_failure_detail = tt
answer (ensure_data_volume_types id) = tt
answer (wait_import id) = record { reports = 2; ended = ok tt }
answer (update_image id) = tt
answer (apply_capability_schema id) = tt
answer (ensure_shape_compatible image) = tt
answer (launch_instance image) = "instance-2"
answer (poll_instance id) = record {
  states = "PROVISIONING" ∷ [];
  at_deadline = "STARTING";
  device = none;
}
answer (work_request_errors id) = tt
answer (terminate_instance id) = tt

-- The instance does not reach RUNNING before the deadline.
abbrev cloud : Cloud
cloud = record {
  reply = λ h c. ok (answer c);
  cancelled = λ n. false;
  availability_domain = "AD-1";
  image_tags = λ iso lo. ("iso", "true") ∷ [];
  platform = λ j. ok tt;
}

abbrev iso : IsoSpec
iso = record {
  object_name = "rocky.iso";
  is_windows = false;
  operating_system = "Rocky Linux";
  operating_system_version = "9";
  firmware = oci_uefi;
  secure_boot = false;
}

abbrev iso_job : Job
iso_job = record (job_of JobKind.iso JobPhase.queued []) { iso = some iso; instance_id = none }

cleanup-Stops_example :
    let w = (run cloud (fresh iso_job)).1 in
    All (λ e. stopped (cleanup cloud w).1.trace e.call e.reply ≡ true) w.trace
cleanup-Stops_example = cleanup-Stops cloud iso_job

installed-EndsParked_example :
    EndsParked (guarded_iso (with_installer (λ j. cloud) services) (world_of iso_job))
installed-EndsParked_example = installed-EndsParked (λ j. cloud) services (world_of iso_job)
