-- ===== src/Oci/Provision/Under.antt =====
-- What the parts of `Provisioner.prepare` of helper/helper_app/oci/provision.py keep: the phase, and the
-- number of the disks.
use vmware_migration_helper.Base.{ℕ, ◌≡◌, ◌∙◌, true, some, length}
use vmware_migration_helper.Jobs.Model.{Job, DiskState, provisioning}
use vmware_migration_helper.Jobs.Actions.Hoare.{Keeps, Keeps-bind, Keeps-when, Keeps-lift}
use vmware_migration_helper.Jobs.Runner.{modify}
use vmware_migration_helper.Oci.Provision.{
  Cloud, stop, instance_state, volume_state, attachment_state, boot_attachment_state, seed_image,
  ensure_shape_compatible, launch_instance, create_volume, attach_volume, get_instance,
  instance_action, list_boot_volume_attachments, detach_boot_volume,
}
use vmware_migration_helper.Oci.Provision.Prepare.{
  resolve_seed_image, launch, seed_and_launch, first_size, new_volume, create_one, target_device,
  attach_to_target, attach_data, share_and_stop, take_boot_volume, detach_boot, set_volume,
  set_target,
}
use vmware_migration_helper.Oci.Provision.Rules.{
  OfJob, Keeps-get_job, Keeps-on_disk, Keeps-each, Keeps-request_job, Keeps-save_job,
  Keeps-change_job,
}
use vmware_migration_helper.Oci.Provision.Create.{step_job}
use vmware_migration_helper.Oci.Provision.Positions.{length-modify}
use vmware_migration_helper.Oci.Provision.Rounds.{await_then_job}

-- The job is being provisioned.
abbrev pub Under : Job → Type 0
Under j = j.phase ≡ provisioning

-- … with this many disks.
abbrev pub Counted : ℕ → Job → Type 0
Counted n j = Under j × (length j.disks ≡ n)

pub modify-Counted :
    (n k : ℕ) (f : DiskState → DiskState) (j : Job)
    → Counted n j
    → Counted n (record j { disks = modify k f j.disks })
modify-Counted n k f j h = (h.0, length-modify f k j.disks ∙ h.1)

module _ (o : Cloud) where
  resolve-Under : Keeps (OfJob Under) (resolve_seed_image o)
  unfolding resolve_seed_image
  resolve-Under = Keeps-bind _ _ (step_job o) λ u.
      Keeps-bind _ _ (Keeps-request_job o seed_image)
        λ id. Keeps-bind _ _ (Keeps-change_job _ (λ j h. h)) λ u. Keeps-save_job

  launch-Under : Keeps (OfJob Under) (launch o)
  unfolding launch
  launch-Under = Keeps-bind _ _ (step_job o) λ u. Keeps-bind _ _ Keeps-get_job λ j.
      Keeps-bind _ _ (Keeps-request_job o (ensure_shape_compatible j.seed_image_id)) λ u.
        Keeps-bind _ _ (step_job o) λ u.
          Keeps-bind _ _
            (Keeps-request_job o (launch_instance j.seed_image_id (first_size j.disks)))
            λ id. Keeps-bind _ _ (Keeps-change_job _ (λ j h. h)) λ u.
              Keeps-bind _ _ Keeps-save_job
                λ u. await_then_job o (instance_state (some id)) "RUNNING"

  pub seed_and_launch-Under : Keeps (OfJob Under) (seed_and_launch o)
  unfolding seed_and_launch
  seed_and_launch-Under =
      Keeps-bind _ _ Keeps-get_job
        λ j. Keeps-bind _ _ (Keeps-when _ _ resolve-Under) λ u. Keeps-when _ _ launch-Under

module _ (o : Cloud) (n : ℕ) where
  pub create_one-Counted : (k : ℕ) → Keeps (OfJob (Counted n)) (create_one o k)
  unfolding create_one new_volume
  create_one-Counted k = Keeps-on_disk k _ λ d. Keeps-when _ _ (
      Keeps-bind _ _ (step_job o) λ u.
        Keeps-bind _ _ (Keeps-request_job o (create_volume d.index d.size_gb)) λ id.
          Keeps-bind _ _ (Keeps-change_job _ (modify-Counted n k (set_volume id))) λ u.
            Keeps-bind _ _ Keeps-save_job
              λ u. await_then_job o (volume_state (some id)) "AVAILABLE")

  attach_data-Counted : (k : ℕ) → Keeps (OfJob (Counted n)) (attach_data o k)
  unfolding attach_data attach_to_target
  attach_data-Counted k = Keeps-on_disk k _ λ d. Keeps-when _ _ (
      Keeps-bind _ _ (step_job o) λ u. Keeps-bind _ _ Keeps-get_job λ j. Keeps-on_disk k _ λ e.
        Keeps-bind _ _
          (Keeps-request_job o (attach_volume j.instance_id e.volume_id (target_device o j k) true))
          λ id. Keeps-bind _ _ (Keeps-change_job _ (modify-Counted n k (set_target id))) λ u.
            Keeps-bind _ _ Keeps-save_job
              λ u. await_then_job o (attachment_state (some id)) "ATTACHED")

  pub share_and_stop-Counted : Keeps (OfJob (Counted n)) (share_and_stop o)
  unfolding share_and_stop
  share_and_stop-Counted = Keeps-bind _ _ Keeps-get_job λ j.
      Keeps-bind _ _ (Keeps-request_job o (get_instance j.instance_id)) λ state.
        Keeps-bind _ _ (Keeps-when _ _ (Keeps-each 1 _ _ attach_data-Counted)) λ u. Keeps-when _ _ (
          Keeps-bind _ _ (step_job o) λ u.
            Keeps-bind _ _
              (Keeps-when _ _ (Keeps-request_job o (instance_action j.instance_id stop)))
              λ u. await_then_job o (instance_state j.instance_id) "STOPPED")

  pub detach_boot-Counted : Keeps (OfJob (Counted n)) (detach_boot o)
  unfolding detach_boot take_boot_volume
  detach_boot-Counted = Keeps-bind _ _ Keeps-get_job λ j. Keeps-when _ _ (
      Keeps-bind _ _ (step_job o) λ u. Keeps-bind _ _ Keeps-get_job λ i.
        Keeps-bind _ _ (Keeps-request_job o (list_boot_volume_attachments i.instance_id)) λ atts.
          Keeps-bind _ _ (Keeps-lift _) λ att. Keeps-bind _ _ (Keeps-change_job _ (λ i h. h)) λ u.
            Keeps-bind _ _ (Keeps-change_job _ (modify-Counted n 0 (set_volume att.boot_volume_id)))
              λ u. Keeps-bind _ _ Keeps-save_job λ u.
                Keeps-bind _ _ (Keeps-request_job o (detach_boot_volume att.id))
                  λ u. await_then_job o (boot_attachment_state (some att.id)) "DETACHED")
