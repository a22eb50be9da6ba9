-- ===== src/Oci/Mapping/Laws.antt =====
-- What the mapping promises: helper/helper_app/oci/mapping.py.
use vmware_migration_helper.Base.{
  ℕ, ◌+◌, ◌*◌, ◌≤◌, ◌<◌, ◌≡◌, refl, Bool, true, false, ◌&&◌, none, arith, ◌⊎◌,
}
use vmware_migration_helper.Oci.Mapping.{
  VmSpec, OciTarget, BootVolumeType, paravirtualized, iscsi, scsi, ide, vfio, preset_boot,
  preset_net, DataVolumeType, data_paravirtualized, data_iscsi, data_scsi, is_uefi, is_emulated,
  is_paravirtualized, map_launch_options, remote_data_volume_type_for, gib, volume_size_gb,
}

-- A volume holds the whole disk, is no smaller than the smallest volume, and is only larger than that by
-- less than one GiB.
pub volume_size_gb_lem :
    (capacity smallest : ℕ)
    → (capacity ≤ volume_size_gb capacity smallest * gib)
      × (smallest ≤ volume_size_gb capacity smallest)
      × ((volume_size_gb capacity smallest ≡ smallest)
          ⊎ (volume_size_gb capacity smallest * gib < capacity + gib))
unfolding volume_size_gb
volume_size_gb_lem capacity smallest = ground arith

abbrev pub is_iscsi : BootVolumeType → Bool
is_iscsi iscsi = true
is_iscsi _ = false

-- The device class of a boot volume.
abbrev pub class_of : BootVolumeType → Bool × Bool
class_of b = (is_paravirtualized b, is_iscsi b)

-- The device class of the data volumes.
abbrev pub data_class_of : DataVolumeType → Bool × Bool
data_class_of data_paravirtualized = (true, false)
data_class_of data_iscsi = (false, true)
data_class_of data_scsi = (false, false)

same_class : (b : BootVolumeType) → data_class_of (remote_data_volume_type_for b) ≡ class_of b
same_class paravirtualized = refl
same_class iscsi = refl
same_class scsi = refl
same_class ide = refl
same_class vfio = refl

abbrev pub no_override : OciTarget → OciTarget
no_override target = record target {
  boot_volume_type_override = none;
  network_type_override = none;
}

-- The launch options of a target: the data volumes have the boot volume's class, of paravirtualized, iSCSI
-- and emulated; Secure Boot is asked for exactly if the source has it and the target boots with UEFI; and with
-- no override a device is emulated exactly in the preset of maximum compatibility.
pub map_launch_options_lem :
    (windows : Bool) (vm : VmSpec) (target : OciTarget)
    → let o = map_launch_options windows vm target in
      (data_class_of o.remote_data_volume_type ≡ class_of o.boot_volume_type)
      × (o.secure_boot ≡ (vm.secure_boot && is_uefi o.firmware))
      × (let p = map_launch_options windows vm (no_override target) in
          is_emulated p.boot_volume_type p.network_type ≡ target.compatibility_mode)
unfolding map_launch_options is_emulated
map_launch_options_lem windows vm target = (same_class _, refl, by_preset target.compatibility_mode)
  where
    by_preset : (c : Bool) → is_emulated (preset_boot c) (preset_net c) ≡ c
    by_preset true = refl
    by_preset false = refl
