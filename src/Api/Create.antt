-- ===== src/Api/Create.antt =====
-- The handlers of helper/helper_app/api/routes_jobs.py that make a job. A handler reads and writes in one step
-- here: between the test for a job in flight and the submission it does not wait.
use vmware_migration_helper.Base.{ℕ, Bool, false, Option, none, some, [], map, String, ◌==◌}
use vmware_migration_helper.Oci.Mapping.{OciTarget, bios}
use vmware_migration_helper.Jobs.Model.{
  Job, JobKind, queued, DiskState, pending, DiskSpec, IsoSpec, CaptureMode,
}
use vmware_migration_helper.Jobs.Runner.Safely.{submit, submit_iso}
use vmware_migration_helper.Api.Checks.{
  Answer, Site, VmInspection, check_source, TargetOptions, IsoRequest, check_iso,
}
use vmware_migration_helper.Api.Server.{run, run_iso, Server, start, respond}

-- A request to migrate a machine: `vm_moid` is the key of the machine, and the clouds have a capture mode.
pub record CreateJobRequest : Type 0 where
  pub vm_moid : String
  pub target : OciTarget
  pub power_off_source : Bool
  pub capture_mode : Option CaptureMode
  pub options : TargetOptions

abbrev pub new_disk : DiskSpec → DiskState
new_disk d = record {
  index = d.index;
  capacity_bytes = d.capacity_bytes;
  is_boot = d.index == 0;
  device = none;
  volume_id = none;
  size_gb = 0;
  helper_attachment_id = none;
  target_attachment_id = none;
  status = pending;
  attempts = 0;
  bytes_received = 0;
  bytes_written = 0;
  grains_written = 0;
  stream_bytes = none;
  percent = 0;
  throughput_bps = 0;
  error = none;
}

-- The `Job(…)` of the handlers.
unfoldable pub new_job :
    JobKind → Option IsoSpec → CreateJobRequest → String → ℕ → VmInspection → Job
new_job kind iso body id now vm = record {
  id = id;
  kind = kind;
  phase = queued;
  error = none;
  source_key = vm.moid;
  vm_powered_off = vm.powered_off;
  vm_is_windows = vm.is_windows;
  vm_host_name = vm.host_name;
  vm_firmware = vm.firmware;
  vm_secure_boot = vm.secure_boot;
  vm_disks = vm.disks;
  iso = iso;
  iso_image_id = none;
  target = body.target;
  launch_options = none;
  capture_mode = body.capture_mode;
  rebuild_initramfs = body.options.rebuild_initramfs;
  fix_network = body.options.fix_network;
  azure_cleanup = body.options.azure_cleanup;
  gcp_cleanup = body.options.gcp_cleanup;
  nfc_direct_to_esxi = body.options.nfc_direct_to_esxi;
  power_off_source = vm.needs_power_off;
  power_off_result = none;
  seed_image_id = none;
  instance_id = none;
  boot_volume_id = none;
  nfc_host = none;
  guest_fixup = none;
  network_fixup = none;
  azure_fixup = none;
  gcp_fixup = none;
  disks = map new_disk vm.disks;
  transfer = record {
    started_at = none;
    finished_at = none;
    bytes_received = 0;
    bytes_written = 0;
    percent = 0;
    throughput_bps = 0;
  };
  created_at = now;
  updated_at = now;
  finished_at = none;
}

-- An ISO job has no machine: the fields of one are blank.
unfoldable pub new_iso_job : IsoRequest → String → ℕ → Job
unfolding new_job
new_iso_job body id now = new_job JobKind.iso (some body.iso) request id now no_vm
  where
    request : CreateJobRequest
    request = record {
      vm_moid = "";
      target = body.target;
      power_off_source = false;
      capture_mode = none;
      options = body.options;
    }

    no_vm : VmInspection
    no_vm = record {
      moid = "";
      powered_off = false;
      is_windows = false;
      host_name = "";
      firmware = bios;
      secure_boot = false;
      disks = [];
      can_export = false;
      needs_power_off = false;
      os = record {
        operating_system = "";
        operating_system_version = [];
        version_detected = false;
      };
    }

module _ (site : Site) (id : String) (now : ℕ) where
  abbrev pub start_job : JobKind → CreateJobRequest → VmInspection → Server → Job × Server
  start_job kind body vm = start run (submit id) now (new_job kind none body id now vm)

  -- The new id and the time are arguments, and so is what the inspection of the machine finds.
  unfoldable pub create_job : Answer VmInspection → CreateJobRequest → Server → Answer Job × Server
  create_job found body s =
      respond
        (check_source site found body.power_off_source body.target (λ vm. body.vm_moid) s.table)
        (start_job JobKind.vmware body) s

  unfoldable pub create_azure_job :
      Answer VmInspection → CreateJobRequest → Server → Answer Job × Server
  create_azure_job found body s =
      respond (check_source site found body.power_off_source body.target (λ vm. vm.moid) s.table)
        (start_job JobKind.azure body) s

  unfoldable pub create_gcp_job :
      Answer VmInspection → CreateJobRequest → Server → Answer Job × Server
  create_gcp_job found body s =
      respond (check_source site found body.power_off_source body.target (λ vm. vm.moid) s.table)
        (start_job JobKind.gcp body) s

  abbrev pub start_iso : IsoRequest → Unit {0} → Server → Job × Server
  start_iso body u = start run_iso (submit_iso id) now (new_iso_job body id now)

  unfoldable pub create_iso_job : IsoRequest → Server → Answer Job × Server
  create_iso_job body s = respond (check_iso site body) (start_iso body) s
