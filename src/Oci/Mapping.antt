-- ===== src/Oci/Mapping.antt =====
-- helper/helper_app/oci/mapping.py: the devices of the target, and the size of its volumes. Whether the guest's
-- name is that of a Windows (`map_guest_os`, which is made of regular expressions) is an argument. Guest has
-- the releases and the shapes.
pub mod Guest
pub mod Laws
use vmware_migration_helper.Base.{
  ℕ, ◌+◌, ◌-◌, ◌*◌, ◌/◌, ◌^◌, Bool, true, false, not, ◌&&◌, ◌||◌, Option, none, some, max,
  or_default, String,
}

pub data Firmware : Type 0 where
  bios efi : Firmware

-- `OCI_FIRMWARE_BIOS`, `OCI_FIRMWARE_UEFI`
pub data OciFirmware : Type 0 where
  oci_bios oci_uefi : OciFirmware

pub data BootVolumeType : Type 0 where
  paravirtualized iscsi scsi ide vfio : BootVolumeType

pub data NetworkType : Type 0 where
  net_paravirtualized e1000 net_vfio : NetworkType

pub data DataVolumeType : Type 0 where
  data_paravirtualized data_iscsi data_scsi : DataVolumeType

pub record VmSpec : Type 0 where
  pub firmware : Firmware
  pub secure_boot : Bool
  pub is_windows : Bool

pub data WindowsLicenseType : Type 0 where
  oci_provided bring_your_own_license : WindowsLicenseType

pub record OciTarget : Type 0 where
  pub availability_domain : String
  pub subnet_id : String
  pub shape : Option String
  pub private_ip : Option String
  pub operating_system_version : Option String
  pub windows_license_type : Option WindowsLicenseType
  pub start_after_migration : Bool
  pub compatibility_mode : Bool
  pub boot_volume_type_override : Option BootVolumeType
  pub network_type_override : Option NetworkType

pub record LaunchOptionsSpec : Type 0 where
  pub firmware : OciFirmware
  pub boot_volume_type : BootVolumeType
  pub network_type : NetworkType
  pub remote_data_volume_type : DataVolumeType
  pub is_consistent_volume_naming_enabled : Bool
  pub secure_boot : Bool

abbrev pub oci_firmware : Firmware → OciFirmware
oci_firmware efi = oci_uefi
oci_firmware bios = oci_bios

abbrev pub is_uefi : OciFirmware → Bool
is_uefi oci_uefi = true
is_uefi oci_bios = false

abbrev pub remote_data_volume_type_for : BootVolumeType → DataVolumeType
remote_data_volume_type_for paravirtualized = data_paravirtualized
remote_data_volume_type_for iscsi = data_iscsi
remote_data_volume_type_for scsi = data_scsi
remote_data_volume_type_for ide = data_scsi
remote_data_volume_type_for vfio = data_scsi

abbrev pub is_paravirtualized : BootVolumeType → Bool
is_paravirtualized paravirtualized = true
is_paravirtualized _ = false

abbrev pub is_e1000 : NetworkType → Bool
is_e1000 e1000 = true
is_e1000 _ = false

unfoldable pub is_emulated : BootVolumeType → NetworkType → Bool
is_emulated boot net = not (is_paravirtualized boot) || is_e1000 net

abbrev pub preset_boot : Bool → BootVolumeType
preset_boot true = ide
preset_boot false = paravirtualized

abbrev pub preset_net : Bool → NetworkType
preset_net true = e1000
preset_net false = net_paravirtualized

unfoldable pub map_launch_options : Bool → VmSpec → OciTarget → LaunchOptionsSpec
map_launch_options named_windows vm target =
    let boot =
      or_default target.boot_volume_type_override (preset_boot target.compatibility_mode) in
    let net = or_default target.network_type_override (preset_net target.compatibility_mode) in
    let firmware = oci_firmware vm.firmware in
    record {
      firmware = firmware;
      boot_volume_type = boot;
      network_type = net;
      remote_data_volume_type = remote_data_volume_type_for boot;
      is_consistent_volume_naming_enabled = not (vm.is_windows || named_windows);
      secure_boot = vm.secure_boot && is_uefi firmware;
    }

abbrev pub gib : ℕ
gib = 1024 ^ 3

-- `volume_size_gb`. The division by a power of two is exact for the floating-point numbers of Python
-- up to 2^53 bytes.
unfoldable pub volume_size_gb : ℕ → ℕ → ℕ
volume_size_gb capacity_bytes min_volume_gb = max min_volume_gb ((capacity_bytes + gib - 1) / gib)
