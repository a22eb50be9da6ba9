-- ===== src/Tests/Data.antt =====
-- The inputs that the tests share: a job of two disks, services that answer, and a world to start from.
use vmware_migration_helper.Base.{
  ℕ, ◌+◌, ◌==◌, if◌then◌else◌, true, false, none, some, List, [], ◌∷◌,
}
use vmware_migration_helper.Jobs.Model.{
  Job, JobKind, JobPhase, DiskState, DiskStatus, Fixup, CaptureMode, PowerOffResult, export_error,
}
use vmware_migration_helper.Oci.Mapping.{efi}
use vmware_migration_helper.Jobs.Actions.{ok, raised}
use vmware_migration_helper.Jobs.Runner.{Chunk, Attempt, Services, World}

abbrev pub disk_of : ℕ → DiskStatus → DiskState
disk_of i status = record {
  index = i;
  capacity_bytes = 1024;
  is_boot = true;
  device = some "/dev/sdb";
  volume_id = none;
  size_gb = 50;
  helper_attachment_id = none;
  target_attachment_id = none;
  status = status;
  attempts = 0;
  bytes_received = 0;
  bytes_written = 0;
  grains_written = 0;
  stream_bytes = none;
  percent = 0;
  throughput_bps = 0;
  error = none;
}

abbrev pub job_of : JobKind → JobPhase → List DiskState → Job
job_of kind phase disks = record {
  id = "job-1";
  kind = kind;
  phase = phase;
  error = none;
  source_key = "vm-7";
  vm_powered_off = true;
  vm_is_windows = false;
  vm_host_name = "esx1";
  vm_firmware = efi;
  vm_secure_boot = false;
  vm_disks =
      record { index = 0; capacity_bytes = 1024 }
      ∷ record { index = 1; capacity_bytes = 1024 }
      ∷ [];
  iso = none;
  iso_image_id = none;
  target = record {
    availability_domain = "AD-1";
    subnet_id = "subnet-1";
    shape = none;
    private_ip = none;
    operating_system_version = none;
    windows_license_type = none;
    start_after_migration = true;
    compatibility_mode = false;
    boot_volume_type_override = none;
    network_type_override = none;
  };
  launch_options = none;
  capture_mode = some CaptureMode.stop;
  rebuild_initramfs = true;
  fix_network = true;
  azure_cleanup = false;
  gcp_cleanup = false;
  nfc_direct_to_esxi = false;
  power_off_source = true;
  power_off_result = none;
  seed_image_id = none;
  instance_id = some "instance-1";
  boot_volume_id = none;
  nfc_host = none;
  guest_fixup = none;
  network_fixup = none;
  azure_fixup = none;
  gcp_fixup = none;
  disks = disks;
  transfer = record {
    started_at = none;
    finished_at = none;
    bytes_received = 0;
    bytes_written = 0;
    percent = 0;
    throughput_bps = 0;
  };
  created_at = 5;
  updated_at = 5;
  finished_at = none;
}

abbrev pub two_disks : List DiskState
two_disks = disk_of 0 DiskStatus.attached ∷ disk_of 1 DiskStatus.attached ∷ []

abbrev pub half : Chunk
half = record {
  fed = ok tt;
  len = 512;
  written = 512;
  grains = 1;
  rate_bps = 100;
  export_percent = 50;
  late = true;
}

abbrev pub whole_copy : Attempt
whole_copy = record {
  opens = true;
  start = ok (some 1024);
  chunks = half ∷ half ∷ [];
  finish =
      ok (record {
        received = 1024;
        written = 1024;
        grains = 2;
        rate_bps = 100;
        export_percent = 99;
      });
  close = ok tt;
}

-- An attempt that the link breaks.
abbrev pub broken_copy : Attempt
broken_copy = record {
  opens = true;
  start = ok (some 1024);
  chunks = half ∷ [];
  finish = raised export_error;
  close = ok tt;
}

-- The first attempt of each disk breaks, the others copy the disk.
abbrev pub nth_copy : ℕ → Attempt
nth_copy n = if n == 1 then broken_copy else whole_copy

abbrev pub services : Services
services = record {
  cancelled = λ n. false;
  tick = λ n. n + 1;
  retry_attempts = 3;
  prepare = λ j. (ok tt, j);
  finalize = λ j. (ok tt, record j { phase = JobPhase.completed });
  cleanup = λ j. (ok tt, record j { phase = JobPhase.cancelled });
  has_login = λ j. true;
  powered_off = λ j. ok true;
  shut_down = λ j. ok PowerOffResult.guest_shutdown;
  stop_vm = λ j. ok tt;
  esxi_host_name = λ j. "esx1";
  nfc_host_override = "";
  vc_host = "vcenter";
  open_export = λ j. ok (some 1024 ∷ some 1024 ∷ []);
  attempt = λ j k n. nth_copy n;
  release = λ j. ok tt;
  fix_guest = λ j. ok (record {
    initramfs = some Fixup.done;
    network = some Fixup.not_needed;
    azure_cloud = Fixup.skipped;
    gcp_cloud = Fixup.skipped;
  });
  has_left = λ j. true;
  release_left = λ j. (ok tt, j);
  iso_run = λ j. (ok tt, record j { phase = JobPhase.installing });
  iso_cleanup = λ j. (ok tt, record j { phase = JobPhase.cancelled });
}

abbrev pub world_of : Job → World
world_of j = record { job = j; table = j ∷ []; now = 100; checks = 0; finalized = []; stops = 0 }
