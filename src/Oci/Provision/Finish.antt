-- ===== src/Oci/Provision/Finish.antt =====
-- `Provisioner.finalize` and `Provisioner.cleanup` of helper/helper_app/oci/provision.py.
use vmware_migration_helper.Base.{
  ℕ, ◌-◌, Bool, true, false, not, Option, none, some, [], ◌∷◌, String, ◌=s=◌, all, any, length,
}
use vmware_migration_helper.Jobs.Model.{Job, JobPhase, DiskState, is_copied, other_error}
use vmware_migration_helper.Jobs.Actions.{Act, ◌>>=◌, ◌>>◌, skip, lift, when, try_catch, raise}
use vmware_migration_helper.Oci.Provision.{
  Cloud, Site, start, soft_stop, instance_state, attachment_state, boot_attachment_state,
  get_instance, instance_action, get_volume_attachment, detach_volume, attach_boot_volume,
  terminate_instance, delete_boot_volume, delete_volume, is_set, is_one_of, get_job, change,
  change_disk, save, refuse_if, data_disks, on_disk, disk_at, each, request, await,
}
use vmware_migration_helper.Oci.Provision.Prepare.{set_target, attach_to_target}

abbrev pub free_of_helper : DiskState → DiskState
free_of_helper d = record d { helper_attachment_id = none; device = none }

abbrev pub free_of_target : DiskState → DiskState
free_of_target d = record d { target_attachment_id = none }

-- Whether a data disk is not on the target.
abbrev pub has_pending : Job → Bool
has_pending j = any (λ d. not (is_set d.target_attachment_id)) (data_disks j.disks)

unfoldable pub complete : Act Site (Unit {0})
complete = change (λ j. record j { phase = JobPhase.completed }) >> save

-- `attempt` of `cleanup`; the texts of the actions are left out.
unfoldable pub attempt : Act Site (Unit {0}) → Act Site (Unit {0})
attempt m = try_catch m (λ e. skip)

module _ (o : Cloud) where
  -- `detach_volume`, unless it is under way, and the wait for it
  unfoldable pub detach : Option String → Act Site (Unit {0})
  detach id = do
    state ← request o (get_volume_attachment id)
    when (not (is_one_of state ("DETACHED" ∷ "DETACHING" ∷ []))) (request o (detach_volume id))
    d ← await o (attachment_state id) "DETACHED"
    skip

  unfoldable pub free_helper : ℕ → DiskState → Act Site (Unit {0})
  free_helper k disk = do save; detach disk.helper_attachment_id; change_disk k free_of_helper; save

  unfoldable pub detach_from_helper : ℕ → Act Site (Unit {0})
  detach_from_helper k =
      on_disk k λ disk. when (is_set disk.helper_attachment_id) (free_helper k disk)

  -- `_detach_all_from_helper`
  unfoldable pub detach_all_from_helper : Act Site (Unit {0})
  detach_all_from_helper = do j ← get_job; each 0 (length j.disks) detach_from_helper

  unfoldable pub attach_boot : DiskState → Act Site (Unit {0})
  attach_boot disk = do
    save
    j ← get_job
    id ← request o (attach_boot_volume disk.volume_id j.instance_id)
    change_disk 0 (set_target id)
    save
    d ← await o (boot_attachment_state (some id)) "ATTACHED"
    skip

  -- `job.disks[0]` of a job with no disks raises.
  unfoldable pub attach_boot_of : Option DiskState → Act Site (Unit {0})
  attach_boot_of none = raise other_error
  attach_boot_of (some disk) = when (not (is_set disk.target_attachment_id)) (attach_boot disk)

  unfoldable pub attach_boot_to_target : Act Site (Unit {0})
  attach_boot_to_target = do j ← get_job; attach_boot_of (disk_at 0 j.disks)

  unfoldable pub attach_pending : ℕ → Act Site (Unit {0})
  attach_pending k =
      on_disk k
        λ disk. when (not (is_set disk.target_attachment_id)) (save >> attach_to_target o k false)

  -- `_start_target`
  unfoldable pub start_target : Act Site (Unit {0})
  start_target = do
    j ← get_job
    state ← request o (get_instance j.instance_id)
    when (not (state =s= "RUNNING")) (do
      save
      when (not (is_one_of state ("STARTING" ∷ "PROVISIONING" ∷ [])))
          (request o (instance_action j.instance_id start))
      d ← await o (instance_state j.instance_id) "RUNNING"
      skip)

  unfoldable pub stop_again : Act Site (Unit {0})
  stop_again = do
    save
    j ← get_job
    request o (instance_action j.instance_id soft_stop)
    d ← await o (instance_state j.instance_id) "STOPPED"
    skip

  unfoldable pub attach_data_disks : Bool → Act Site (Unit {0})
  attach_data_disks pending =
      when pending (do start_target; j ← get_job; each 1 (length j.disks - 1) attach_pending)

  -- Start the target if the user wants it and it was not started, or stop it if it was and he does not.
  unfoldable pub settle : Bool → Bool → Act Site (Unit {0})
  settle true started = when (not started) start_target
  settle false started = when started stop_again

  -- `finalize` behind its guard
  unfoldable pub move_to_target : Act Site (Unit {0})
  move_to_target = do
    change (λ i. record i { phase = JobPhase.finalizing })
    detach_all_from_helper
    attach_boot_to_target
    i ← get_job
    attach_data_disks (has_pending i)
    settle i.target.start_after_migration (has_pending i)
    complete

  unfoldable pub finalize : Act Site (Unit {0})
  finalize = do
    j ← get_job
    lift (refuse_if (not (all (λ d. is_copied d.status) j.disks)))
    move_to_target

  -- `_detach_from_target`
  unfoldable pub free_target : ℕ → DiskState → Act Site (Unit {0})
  free_target k disk = detach disk.target_attachment_id >> change_disk k free_of_target

  unfoldable pub detach_from_target : ℕ → Act Site (Unit {0})
  detach_from_target k =
      on_disk k λ disk. when (is_set disk.target_attachment_id) (attempt (free_target k disk))

  unfoldable pub terminate : Act Site (Unit {0})
  terminate = do
    j ← get_job
    when (is_set j.instance_id) (attempt (request o (terminate_instance j.instance_id)))

  unfoldable pub delete_call : Bool → Option String → Act Site (Unit {0})
  delete_call true id = request o (delete_boot_volume id)
  delete_call false id = request o (delete_volume id)

  unfoldable pub delete : ℕ → Act Site (Unit {0})
  delete k =
      on_disk k
        λ disk. when (is_set disk.volume_id) (attempt (delete_call disk.is_boot disk.volume_id))

  unfoldable pub cleanup : Act Site (Unit {0})
  cleanup = do
    attempt detach_all_from_helper
    j ← get_job
    each 1 (length j.disks - 1) detach_from_target
    terminate
    i ← get_job
    each 0 (length i.disks) delete
    change (λ i. record i { phase = JobPhase.cancelled })
    save
