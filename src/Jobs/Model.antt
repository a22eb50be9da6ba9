-- ===== src/Jobs/Model.antt =====
-- The job of helper/helper_app/models.py. Left out are the fields that only the pages show: the message,
-- the progress of a step, display names, text of the pages. A point in time is a number
-- of seconds, a rate a whole number of bytes per second; a detail text of a fix-up is left out.
use vmware_migration_helper.Base.{
  ℕ, ◌*◌, ◌/◌, Bool, true, false, not, ◌&&◌, Option, List, [], ◌∷◌, String, ◌=s=◌, ◌==◌,
  if◌then◌else◌, sum_by, all, or_default, min,
}
use vmware_migration_helper.Oci.Mapping.{Firmware, OciFirmware, OciTarget, LaunchOptionsSpec}

pub data JobPhase : Type 0 where
  queued provisioning exporting finalizing installing completed failed cancelled : JobPhase

-- `JobPhase.terminal`
abbrev pub terminal : JobPhase → Bool
terminal completed = true
terminal failed = true
terminal cancelled = true
terminal _ = false

-- `==` on phases
unfoldable pub JobPhase-discrete : Discrete JobPhase
JobPhase-discrete = hlevel

pub data DiskStatus : Type 0 where
  pending attached copying copied failed : DiskStatus

abbrev pub is_copied : DiskStatus → Bool
is_copied copied = true
is_copied _ = false

pub data JobKind : Type 0 where
  vmware iso azure gcp : JobKind

-- What a `try` of the runner may catch: `JobCancelled`, the errors that a copy is retried for
-- (`ExportError`, `VmdkFormatError`, `VhdCopyError`, `GcsCopyError`, `AzureError`, `GcpError`,
-- `OSError`, `httpx.HTTPError`), and any other exception.
pub data Exception : Type 0 where
  job_cancelled export_error transfer_error other_error : Exception

pub record DiskState : Type 0 where
  pub index : ℕ
  pub capacity_bytes : ℕ
  pub is_boot : Bool
  pub device : Option String
  pub volume_id : Option String
  pub size_gb : ℕ
  pub helper_attachment_id : Option String
  pub target_attachment_id : Option String
  pub status : DiskStatus
  pub attempts : ℕ
  pub bytes_received : ℕ
  pub bytes_written : ℕ
  pub grains_written : ℕ
  pub stream_bytes : Option ℕ
  pub percent : ℕ
  pub throughput_bps : ℕ
  pub error : Option Exception

pub record TransferStats : Type 0 where
  pub started_at : Option ℕ
  pub finished_at : Option ℕ
  pub bytes_received : ℕ
  pub bytes_written : ℕ
  pub percent : ℕ
  pub throughput_bps : ℕ

-- `GuestFixup.status`
pub data Fixup : Type 0 where
  done not_needed skipped failed : Fixup

-- `AzureCaptureMode` and `GcpCaptureMode`: stop the VM (or deallocate it), or snapshot its disks.
pub data CaptureMode : Type 0 where
  stop snapshot : CaptureMode

pub data PowerOffResult : Type 0 where
  already_off guest_shutdown powered_off deallocated stopped snapshotted : PowerOffResult

-- `DiskSpec`
pub record DiskSpec : Type 0 where
  pub index : ℕ
  pub capacity_bytes : ℕ

-- `IsoSpec`
pub record IsoSpec : Type 0 where
  pub object_name : String
  pub is_windows : Bool
  pub operating_system : String
  pub operating_system_version : String
  pub firmware : OciFirmware
  pub secure_boot : Bool

pub record Job : Type 0 where
  pub id : String
  pub kind : JobKind
  pub phase : JobPhase
  pub error : Option Exception
  pub source_key : String
  pub vm_powered_off : Bool  -- `vm.power_state == "poweredOff"`
  pub vm_is_windows : Bool
  pub vm_host_name : String
  pub vm_firmware : Firmware
  pub vm_secure_boot : Bool
  pub vm_disks : List DiskSpec
  pub iso : Option IsoSpec
  pub iso_image_id : Option String
  pub target : OciTarget
  pub launch_options : Option LaunchOptionsSpec
  pub capture_mode : Option CaptureMode  -- of the Azure or GCP source information, if there is any
  pub rebuild_initramfs : Bool
  pub fix_network : Bool
  pub azure_cleanup : Bool
  pub gcp_cleanup : Bool
  pub nfc_direct_to_esxi : Bool
  pub power_off_source : Bool
  pub power_off_result : Option PowerOffResult
  pub seed_image_id : Option String
  pub instance_id : Option String
  pub boot_volume_id : Option String
  pub nfc_host : Option String
  pub guest_fixup : Option Fixup
  pub network_fixup : Option Fixup
  pub azure_fixup : Option Fixup
  pub gcp_fixup : Option Fixup
  pub disks : List DiskState
  pub transfer : TransferStats
  pub created_at : ℕ
  pub updated_at : ℕ
  pub finished_at : Option ℕ

-- `Job.total_bytes`
unfoldable pub total_bytes : Job → ℕ
total_bytes job = sum_by (λ d. d.capacity_bytes) job.disks

abbrev pub is_failed : JobPhase → Bool
is_failed failed = true
is_failed _ = false

-- `MigrationRunner.can_resume_finalize`
unfoldable pub can_resume_finalize : Job → Bool
can_resume_finalize job =
    is_failed job.phase
    && has_instance
    && has_disks job.disks
    && all (λ d. is_copied d.status) job.disks
  where
    has_instance : Bool
    has_instance = not (or_default job.instance_id "" =s= "")

    has_disks : List DiskState → Bool
    has_disks [] = false
    has_disks (d ∷ ds) = true

-- `max(0, min(99, int(n * 100 / total))) if total else 0`, for whole numbers
abbrev pub percent_of : ℕ → ℕ → ℕ
percent_of n total = if total == 0 then 0 else min 99 (n * 100 / total)
