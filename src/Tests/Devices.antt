-- ===== src/Tests/Devices.antt =====
-- Writers, devices, the shutdown of a source and the mapping: helper/helper_app/disk, vsphere and oci.
use vmware_migration_helper.Base.{
  String, ◌=s=◌, not, if◌then◌else◌, ℕ, ◌≤◌, ◌≡◌, refl, true, false, ◌&&◌, some, [], ◌∷◌, length,
  min, arith,
}
use vmware_migration_helper.Base.Bytes.{Bytes}
use vmware_migration_helper.Clouds.Release.{
  Answer, released, gone, refused, Recorded, release_azure_resources,
}
use vmware_migration_helper.Clouds.Release.Laws.{
  keep_if, is_refused, is_kept, release_azure_resources_lem,
}
use vmware_migration_helper.Disk.Writer.{Device, write_at}
use vmware_migration_helper.Disk.Writer.Laws.{Puts, write_at-Puts}
use vmware_migration_helper.Disk.Devices.{Devices, found, wait_for_new_device, matching}
use vmware_migration_helper.Disk.Devices.Laws.{IsTheNew, SomeScan, wait_for_new_device-IsTheNew}
use vmware_migration_helper.Vsphere.Power.{Vm, on, off, success, running, shut_down}
use vmware_migration_helper.Vsphere.Power.Laws.{Explained, shut_down-Explained}

-- A device that takes two bytes at a time.
abbrev two_at_most : ℕ → Bytes → ℕ
two_at_most offset bytes = min 2 (length bytes)

abbrev zeros : Device
zeros x = 0

two_at_most-le : (offset : ℕ) (bytes : Bytes) → two_at_most offset bytes ≤ length bytes
two_at_most-le offset bytes = omega arith

write_at_example : Puts 4 (1 ∷ 2 ∷ 3 ∷ []) zeros (write_at two_at_most 4 (1 ∷ 2 ∷ 3 ∷ []) zeros)
write_at_example = write_at-Puts two_at_most two_at_most-le 4 (1 ∷ 2 ∷ 3 ∷ []) zeros

abbrev old_disks : Devices
old_disks = ("/dev/sda", 100) ∷ []

-- The new disk is of size 0 at first.
abbrev settling : Devices
settling = ("/dev/sda", 100) ∷ ("/dev/sdb", 0) ∷ []

abbrev settled : Devices
settled = ("/dev/sda", 100) ∷ ("/dev/sdb", 50) ∷ []

finds : wait_for_new_device old_disks 50 (settling ∷ settled ∷ []) settled ≡ found "/dev/sdb"
unfolding wait_for_new_device matching
finds = refl

wait_for_new_device_example :
    SomeScan (IsTheNew old_disks 50 "/dev/sdb") (settling ∷ settled ∷ settled ∷ [])
wait_for_new_device_example =
    wait_for_new_device-IsTheNew old_disks 50 (settling ∷ settled ∷ []) settled "/dev/sdb" finds

-- The guest does not go down in time, and the VM is powered off.
abbrev stubborn : Vm
stubborn = record {
  first = on;
  tools_running = true;
  accepts = true;
  guest = record { polls = record { cancelled = false; state = on } ∷ []; last = on };
  task = some (running ∷ success ∷ []);
  hard = record { polls = []; last = off };
}

shut_down_example : Explained stubborn (shut_down stubborn)
shut_down_example = shut_down-Explained stubborn

-- The export of the second disk is gone already, and the snapshot of the first cannot be deleted.
abbrev revoke : String → Answer
revoke x = if x =s= "disk-2" then gone else released

abbrev delete : String → Answer
delete x = if x =s= "snapshot-1" then refused else released

abbrev recorded : Recorded
recorded = record {
  exports = "disk-1" ∷ "disk-2" ∷ [];
  snapshots = "snapshot-1" ∷ "" ∷ "snapshot-2" ∷ [];
}

release_azure_resources_example :
    let left = (release_azure_resources revoke delete recorded).0 in
    (left.exports ≡ keep_if (λ x. is_refused (revoke x)) recorded.exports)
    × (left.snapshots ≡ keep_if (λ x. not (x =s= "") && is_kept (delete x)) recorded.snapshots)
release_azure_resources_example = release_azure_resources_lem revoke delete recorded
