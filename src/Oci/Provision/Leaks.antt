-- ===== src/Oci/Provision/Leaks.antt =====
-- `Provisioner.prepare` and `finalize` of helper/helper_app/oci/provision.py keep the ledger, whatever OCI
-- answers and wherever they raise.
use vmware_migration_helper.Base.{ℕ, refl, Bool, true, false, Option, none, some, String}
use vmware_migration_helper.Jobs.Model.{DiskState}
use vmware_migration_helper.Jobs.Actions.Hoare.{
  Keeps, Keeps-bind, Keeps-when, Keeps-lift, Keeps-raise,
}
use vmware_migration_helper.Oci.Provision.{
  Cloud, start, stop, soft_stop, get_volume_attachment, detach_volume, attachment_state,
  attach_boot_volume, get_instance, instance_action, list_boot_volume_attachments,
  detach_boot_volume, boot_attachment_state, scan_devices, watch_devices, list_instance_devices,
  instance_state,
}
use vmware_migration_helper.Oci.Provision.Prepare.{
  set_volume, set_target, attach_to_target, attach_data, share_and_stop, take_boot_volume,
  detach_boot, attach_to_helper, attach_boot_volume_to_helper, attach_volume_to_helper, attach_disk,
  attach_one, prepare, set_device, set_attached,
}
use vmware_migration_helper.Oci.Provision.Rules.{
  Keeps-get_job, Keeps-on_disk, Keeps-each, Keeps-each_data,
}
use vmware_migration_helper.Oci.Provision.Ledger.{Booked, Keeps-save, Keeps-change}
use vmware_migration_helper.Oci.Provision.Volumes.{boot-Extends}
use vmware_migration_helper.Oci.Provision.Create.{
  step-Booked, rest-Booked, disk-Booked, other-Booked, await_then, set_up-Booked,
  seed_and_launch-Booked, create_one-Booked, ledger_rules,
}
use vmware_migration_helper.Oci.Provision.Finish.{
  free_of_helper, free_of_target, detach, free_helper, detach_from_helper, detach_all_from_helper,
  attach_boot, attach_boot_of, attach_boot_to_target, attach_pending, start_target, stop_again,
  attach_data_disks, settle, complete, move_to_target, finalize, free_target,
}

module _ (o : Cloud) where
  pub attach_to_target-Booked : (k : ℕ) (b : Bool) → Keeps Booked (attach_to_target o k b)
  unfolding attach_to_target
  attach_to_target-Booked k b = search ledger_rules depth 14

  attach_data-Booked : (k : ℕ) → Keeps Booked (attach_data o k)
  unfolding attach_data
  attach_data-Booked k =
      Keeps-on_disk k _
        λ d. Keeps-when _ _ (Keeps-bind _ _ (step-Booked o) λ u. attach_to_target-Booked k true)

  share_and_stop-Booked : Keeps Booked (share_and_stop o)
  unfolding share_and_stop
  share_and_stop-Booked = Keeps-bind _ _ Keeps-get_job λ j.
      Keeps-bind _ _ (other-Booked o (get_instance j.instance_id) refl) λ state.
        Keeps-bind _ _ (Keeps-when _ _ (Keeps-each 1 _ _ attach_data-Booked)) λ u. Keeps-when _ _ (
          Keeps-bind _ _ (step-Booked o) λ u.
            Keeps-bind _ _
              (Keeps-when _ _ (other-Booked o (instance_action j.instance_id stop) refl))
              λ u. await_then o (instance_state j.instance_id) "STOPPED")

  detach_boot-Booked : Keeps Booked (detach_boot o)
  unfolding detach_boot take_boot_volume
  detach_boot-Booked = Keeps-bind _ _ Keeps-get_job λ j. Keeps-when _ _ (
      Keeps-bind _ _ (step-Booked o) λ u. Keeps-bind _ _ Keeps-get_job λ i.
        Keeps-bind _ _ (other-Booked o (list_boot_volume_attachments i.instance_id) refl) λ atts.
          Keeps-bind _ _ (Keeps-lift _) λ att.
            Keeps-bind _ _ (rest-Booked o _ (λ i. refl) (λ i. refl)) λ u.
              Keeps-bind _ _ (Keeps-change _ (boot-Extends (set_volume att.boot_volume_id))) λ u.
                Keeps-bind _ _ Keeps-save λ u.
                  Keeps-bind _ _ (other-Booked o (detach_boot_volume att.id) refl)
                    λ u. await_then o (boot_attachment_state (some att.id)) "DETACHED")

  attach_to_helper-Booked :
      (k : ℕ) (d : DiskState) (device : Option String) (b : Bool)
      → Keeps Booked (attach_to_helper o k d device b)
  unfolding attach_to_helper
  attach_to_helper-Booked k d device b = search ledger_rules depth 12

  attach_disk-Booked : (b : Bool) (k : ℕ) (d : DiskState) → Keeps Booked (attach_disk o b k d)
  unfolding attach_disk attach_boot_volume_to_helper attach_volume_to_helper
  attach_disk-Booked true k d = Keeps-bind _ _ (step-Booked o) λ u.
      Keeps-bind _ _ (other-Booked o scan_devices refl) λ before.
        Keeps-bind _ _ (attach_to_helper-Booked k d none false) λ e.
          Keeps-bind _ _ (other-Booked o watch_devices refl) λ scans.
            Keeps-bind _ _ (Keeps-lift _) λ path. disk-Booked o k (set_device path) (λ i. refl)
  attach_disk-Booked false k d = Keeps-bind _ _ Keeps-get_job λ j.
      Keeps-bind _ _ (other-Booked o list_instance_devices refl) λ names.
        Keeps-bind _ _ (Keeps-lift _) λ device. Keeps-bind _ _ (step-Booked o) λ u.
          Keeps-bind _ _ (attach_to_helper-Booked k d (some device) _)
            λ e. disk-Booked o k (set_device _) (λ i. refl)

  attach_one-Booked : (k : ℕ) → Keeps Booked (attach_one o k)
  unfolding attach_one
  attach_one-Booked k = Keeps-on_disk k _ λ d. Keeps-when _ _ (
      Keeps-bind _ _ (attach_disk-Booked d.is_boot k d)
        λ u. Keeps-bind _ _ (disk-Booked o k set_attached (λ i. refl)) λ u. Keeps-save)

  -- `prepare`
  pub prepare-Booked : Keeps Booked (prepare o)
  unfolding prepare
  prepare-Booked = Keeps-bind _ _ (set_up-Booked o) λ u.
      Keeps-bind _ _ (seed_and_launch-Booked o) λ u. Keeps-bind _ _ Keeps-get_job λ j.
        Keeps-bind _ _ (Keeps-each_data 0 _ _ (create_one-Booked o)) λ u.
          Keeps-bind _ _ share_and_stop-Booked λ u.
            Keeps-bind _ _ detach_boot-Booked
              λ u. Keeps-bind _ _ (Keeps-each 0 _ _ attach_one-Booked) λ u. (step-Booked o)

  -- `finalize`
  detach-Booked : (id : Option String) → Keeps Booked (detach o id)
  unfolding detach
  detach-Booked id = Keeps-bind _ _ (other-Booked o (get_volume_attachment id) refl) λ state.
      Keeps-bind _ _ (Keeps-when _ _ (other-Booked o (detach_volume id) refl))
        λ u. await_then o (attachment_state id) "DETACHED"

  free_helper-Booked : (k : ℕ) (d : DiskState) → Keeps Booked (free_helper o k d)
  unfolding free_helper
  free_helper-Booked k d = Keeps-bind _ _ Keeps-save λ u.
      Keeps-bind _ _ (detach-Booked d.helper_attachment_id)
        λ u. Keeps-bind _ _ (disk-Booked o k free_of_helper (λ i. refl)) λ u. Keeps-save

  pub detach_all-Booked : Keeps Booked (detach_all_from_helper o)
  unfolding detach_all_from_helper detach_from_helper
  detach_all-Booked =
      Keeps-bind _ _ Keeps-get_job
        λ j. Keeps-each 0 _ _ (λ k. Keeps-on_disk k _ λ d. Keeps-when _ _ (free_helper-Booked k d))

  attach_boot-Booked : (found : Option DiskState) → Keeps Booked (attach_boot_of o found)
  unfolding attach_boot_of attach_boot
  attach_boot-Booked none = Keeps-raise _
  attach_boot-Booked (some d) = Keeps-when _ _ (
      Keeps-bind _ _ Keeps-save λ u. Keeps-bind _ _ Keeps-get_job λ j.
        Keeps-bind _ _ (other-Booked o (attach_boot_volume d.volume_id j.instance_id) refl) λ id.
          Keeps-bind _ _ (disk-Booked o 0 (set_target id) (λ i. refl)) λ u.
            Keeps-bind _ _ Keeps-save
              λ u. await_then o (boot_attachment_state (some id)) "ATTACHED")

  start_target-Booked : Keeps Booked (start_target o)
  unfolding start_target
  start_target-Booked = Keeps-bind _ _ Keeps-get_job λ j.
      Keeps-bind _ _ (other-Booked o (get_instance j.instance_id) refl) λ state. Keeps-when _ _ (
        Keeps-bind _ _ Keeps-save λ u.
          Keeps-bind _ _
            (Keeps-when _ _ (other-Booked o (instance_action j.instance_id start) refl))
            λ u. await_then o (instance_state j.instance_id) "RUNNING")

  attach_pending-Booked : (k : ℕ) → Keeps Booked (attach_pending o k)
  unfolding attach_pending
  attach_pending-Booked k =
      Keeps-on_disk k _
        λ d. Keeps-when _ _ (Keeps-bind _ _ Keeps-save λ u. attach_to_target-Booked k false)

  settle-Booked : (a b : Bool) → Keeps Booked (settle o a b)
  unfolding settle stop_again
  settle-Booked true b = Keeps-when _ _ start_target-Booked
  settle-Booked false b = Keeps-when _ _ (
      Keeps-bind _ _ Keeps-save λ u. Keeps-bind _ _ Keeps-get_job λ j.
        Keeps-bind _ _ (other-Booked o (instance_action j.instance_id soft_stop) refl)
          λ u. await_then o (instance_state j.instance_id) "STOPPED")

  pub finalize-Booked : Keeps Booked (finalize o)
  unfolding finalize move_to_target attach_boot_to_target attach_data_disks complete
  finalize-Booked = Keeps-bind _ _ Keeps-get_job λ j. Keeps-bind _ _ (Keeps-lift _) λ u.
      Keeps-bind _ _ (rest-Booked o _ (λ i. refl) (λ i. refl)) λ u.
        Keeps-bind _ _ detach_all-Booked λ u.
          Keeps-bind _ _ (Keeps-bind _ _ Keeps-get_job λ i. attach_boot-Booked _) λ u.
            Keeps-bind _ _ Keeps-get_job λ i.
              Keeps-bind _ _
                (Keeps-when _ _ (
                  Keeps-bind _ _ start_target-Booked
                    λ u. Keeps-bind _ _ Keeps-get_job λ x. Keeps-each 1 _ _ attach_pending-Booked))
                λ u.
                  Keeps-bind _ _ (settle-Booked _ _)
                    λ u. Keeps-bind _ _ (rest-Booked o _ (λ i. refl) (λ i. refl)) λ u. Keeps-save

  -- A data disk taken off the target in `cleanup`.
  pub free_target-Booked : (k : ℕ) (d : DiskState) → Keeps Booked (free_target o k d)
  unfolding free_target
  free_target-Booked k d =
      Keeps-bind _ _ (detach-Booked d.target_attachment_id)
        λ u. disk-Booked o k free_of_target (λ i. refl)
