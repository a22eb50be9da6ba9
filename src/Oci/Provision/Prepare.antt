-- ===== src/Oci/Provision/Prepare.antt =====
-- `Provisioner.prepare` of helper/helper_app/oci/provision.py, a definition for each of its numbered parts.
use vmware_migration_helper.Base.{
  ℕ, ◌-◌, ◌*◌, Bool, true, false, not, ◌&&◌, ◌||◌, Option, none, some, List, [], ◌∷◌, String, ◌=s=◌,
  ◌==◌, if◌then◌else◌, any, or_default, leb, length, map,
}
use vmware_migration_helper.Disk.Devices.{Found, found, wait_for_new_device}
use vmware_migration_helper.Jobs.Model.{Job, JobPhase, DiskState, DiskStatus, DiskSpec, other_error}
use vmware_migration_helper.Jobs.Actions.{Outcome, ok, raised, Act, ◌>>=◌, ◌>>◌, skip, lift, when}
use vmware_migration_helper.Oci.Mapping.{
  DataVolumeType, data_paravirtualized, data_scsi, gib, map_launch_options, volume_size_gb,
}
use vmware_migration_helper.Oci.Provision.{
  Cloud, Site, stop, instance_state, volume_state, attachment_state, boot_attachment_state,
  BootAttachment, seed_image, ensure_shape_compatible, launch_instance, get_instance,
  instance_action, create_volume, attach_volume, list_boot_volume_attachments, detach_boot_volume,
  list_instance_devices, scan_devices, watch_devices, is_set, is_one_of, get_job, change,
  change_disk, save, refuse_if, on_disk, each, request, step, await,
}

abbrev pub is_empty : List DiskSpec → Bool
is_empty [] = true
is_empty (d ∷ ds) = false

-- `sorted(vm.disks, key=lambda d: d.index)`
unfoldable pub insert : DiskSpec → List DiskSpec → List DiskSpec
insert d [] = d ∷ []
insert d (x ∷ xs) = let rest = insert d xs in if leb d.index x.index then d ∷ x ∷ xs else x ∷ rest

unfoldable pub sort_disks : List DiskSpec → List DiskSpec
sort_disks [] = []
sort_disks (d ∷ ds) = insert d (sort_disks ds)

-- `DiskState(index=..., capacity_bytes=..., is_boot=...)`
abbrev pub new_disk : DiskSpec → DiskState
new_disk d = record {
  index = d.index;
  capacity_bytes = d.capacity_bytes;
  is_boot = d.index == 0;
  device = none;
  volume_id = none;
  size_gb = 0;
  helper_attachment_id = none;
  target_attachment_id = none;
  status = DiskStatus.pending;
  attempts = 0;
  bytes_received = 0;
  bytes_written = 0;
  grains_written = 0;
  stream_bytes = none;
  percent = 0;
  throughput_bps = 0;
  error = none;
}

abbrev pub with_disks : List DiskState → List DiskSpec → List DiskState
with_disks [] vm_disks = map new_disk (sort_disks vm_disks)
with_disks (d ∷ ds) vm_disks = d ∷ ds

abbrev pub sized : ℕ → DiskState → DiskState
sized least d =
    if d.size_gb == 0 then record d { size_gb = volume_size_gb d.capacity_bytes least } else d

abbrev pub set_volume : String → DiskState → DiskState
set_volume id d = record d { volume_id = some id }

abbrev pub set_target : String → DiskState → DiskState
set_target id d = record d { target_attachment_id = some id }

abbrev pub set_helper : String → DiskState → DiskState
set_helper id d = record d { helper_attachment_id = some id }

abbrev pub set_device : String → DiskState → DiskState
set_device path d = record d { device = some path }

abbrev pub set_attached : DiskState → DiskState
set_attached d = record d { status = DiskStatus.attached }

-- `_remote_data_volume_type`
abbrev pub remote_data_volume_type : Job → DataVolumeType
remote_data_volume_type j = elim j.launch_options [
  | none ↦ data_paravirtualized
  | some l ↦ l.remote_data_volume_type
]

-- `_shareable_target_attachments`
abbrev pub is_shareable : DataVolumeType → Bool
is_shareable data_scsi = false
is_shareable _ = true

-- The first name that no disk of the job has: `_pick_free_device`.
abbrev pub is_used : List DiskState → String → Bool
is_used disks name = any (λ d. is_set d.device && or_default d.device "" =s= name) disks

unfoldable pub pick : List DiskState → List String → Outcome String
pick disks [] = raised other_error
pick disks (name ∷ names) =
    let rest = pick disks names in if is_used disks name then rest else ok name

abbrev pub is_attached : BootAttachment → Bool
is_attached a = is_one_of a.lifecycle_state ("ATTACHED" ∷ "ATTACHING" ∷ [])

-- `atts[0]` of those that are attached
unfoldable pub first_attached : List BootAttachment → Outcome BootAttachment
first_attached [] = raised other_error
first_attached (a ∷ more) = let rest = first_attached more in if is_attached a then ok a else rest

abbrev pub found_path : Found → Outcome String
found_path (found path) = ok path
found_path _ = raised other_error

abbrev pub first_size : List DiskState → ℕ
first_size [] = 0
first_size (d ∷ ds) = d.size_gb

module _ (o : Cloud) where
  -- The guards, the phase, the launch options and the disk records.
  unfoldable pub set_up : Act Site (Unit {0})
  set_up = do
    j ← get_job
    lift (refuse_if (is_empty j.vm_disks))
    lift (refuse_if (not (j.target.availability_domain =s= o.availability_domain)))
    change (λ i. record i { phase = JobPhase.provisioning })
    i ← get_job
    lift (o.plan_shape i)
    change (λ i. record i {
      launch_options = some (
          map_launch_options (o.named_windows i)
            (record {
              firmware = i.vm_firmware;
              secure_boot = i.vm_secure_boot;
              is_windows = i.vm_is_windows;
            })
            i.target);
    })
    i ← get_job
    lift (o.plan_platform i)
    change (λ i. record i { disks = map (sized o.min_volume_gb) (with_disks i.disks i.vm_disks) })

  unfoldable pub resolve_seed_image : Act Site (Unit {0})
  resolve_seed_image = do
    step o
    id ← request o seed_image
    change (λ i. record i { seed_image_id = some id })
    save

  -- The id is saved before the wait; an error of the wait gets the work request's text.
  unfoldable pub launch : Act Site (Unit {0})
  launch = do
    step o
    j ← get_job
    request o (ensure_shape_compatible j.seed_image_id)
    step o
    id ← request o (launch_instance j.seed_image_id (first_size j.disks))
    change (λ i. record i { instance_id = some id })
    save
    d ← await o (instance_state (some id)) "RUNNING"
    skip

  unfoldable pub seed_and_launch : Act Site (Unit {0})
  seed_and_launch = do
    j ← get_job
    when (not (is_set j.seed_image_id)) resolve_seed_image
    when (not (is_set j.instance_id)) launch

  unfoldable pub new_volume : ℕ → DiskState → Act Site (Unit {0})
  new_volume k disk = do
    step o
    id ← request o (create_volume disk.index disk.size_gb)
    change_disk k (set_volume id)
    save
    d ← await o (volume_state (some id)) "AVAILABLE"
    skip

  unfoldable pub create_one : ℕ → Act Site (Unit {0})
  create_one k = on_disk k λ disk. when (not (is_set disk.volume_id)) (new_volume k disk)

  -- `_attach_to_target`; Linux alone gets a device path.
  unfoldable pub target_device : Job → ℕ → Option String
  target_device j n =
      if j.vm_is_windows || o.named_windows j then none else some (o.target_device n)

  unfoldable pub attach_to_target : ℕ → Bool → Act Site (Unit {0})
  attach_to_target k shareable = do
    j ← get_job
    on_disk k λ disk. do
      id ← request o (attach_volume j.instance_id disk.volume_id (target_device j k) shareable)
      change_disk k (set_target id)
      save
      d ← await o (attachment_state (some id)) "ATTACHED"
      skip

  unfoldable pub attach_data : ℕ → Act Site (Unit {0})
  attach_data k =
      on_disk k
        λ disk. when (not (is_set disk.target_attachment_id)) (step o >> attach_to_target k true)

  -- 4. and 5., of which both go by the one answer
  unfoldable pub share_and_stop : Act Site (Unit {0})
  share_and_stop = do
    j ← get_job
    state ← request o (get_instance j.instance_id)
    when (state =s= "RUNNING" && is_shareable (remote_data_volume_type j))
        (each 1 (length j.disks - 1) attach_data)
    when (not (state =s= "STOPPED")) (do
      step o
      when (is_one_of state ("RUNNING" ∷ "STARTING" ∷ "PROVISIONING" ∷ []))
          (request o (instance_action j.instance_id stop))
      d ← await o (instance_state j.instance_id) "STOPPED"
      skip)

  -- 6.
  unfoldable pub take_boot_volume : Act Site (Unit {0})
  take_boot_volume = do
    step o
    j ← get_job
    atts ← request o (list_boot_volume_attachments j.instance_id)
    att ← lift (first_attached atts)
    change (λ i. record i { boot_volume_id = some att.boot_volume_id })
    change_disk 0 (set_volume att.boot_volume_id)
    save
    request o (detach_boot_volume att.id)
    d ← await o (boot_attachment_state (some att.id)) "DETACHED"
    skip

  unfoldable pub detach_boot : Act Site (Unit {0})
  detach_boot = do j ← get_job; when (not (is_set j.boot_volume_id)) take_boot_volume

  -- `_attach_to_helper`
  unfoldable pub attach_to_helper : ℕ → DiskState → Option String → Bool → Act Site (Option String)
  attach_to_helper k disk device shareable = do
    id ← request o (attach_volume (some o.helper_id) disk.volume_id device shareable)
    change_disk k (set_helper id)
    save
    await o (attachment_state (some id)) "ATTACHED"

  -- `_attach_boot_volume_to_helper`
  unfoldable pub attach_boot_volume_to_helper : ℕ → DiskState → Act Site (Unit {0})
  attach_boot_volume_to_helper k disk = do
    before ← request o scan_devices
    d ← attach_to_helper k disk none false
    scans ← request o watch_devices
    path ← lift (found_path (wait_for_new_device before (disk.size_gb * gib) scans.0 scans.1))
    change_disk k (set_device path)

  unfoldable pub attach_volume_to_helper : ℕ → DiskState → Act Site (Unit {0})
  attach_volume_to_helper k disk = do
    j ← get_job
    names ← request o list_instance_devices
    device ← lift (pick j.disks names)
    step o
    d ← attach_to_helper k disk (some device) (is_set disk.target_attachment_id)
    change_disk k (set_device (if is_set d then or_default d "" else device))

  unfoldable pub attach_disk : Bool → ℕ → DiskState → Act Site (Unit {0})
  attach_disk true k disk = step o >> attach_boot_volume_to_helper k disk
  attach_disk false k disk = attach_volume_to_helper k disk

  -- 7.
  unfoldable pub attach_one : ℕ → Act Site (Unit {0})
  attach_one k = on_disk k λ disk.
      when (not (is_set disk.helper_attachment_id && is_set disk.device))
        (do attach_disk disk.is_boot k disk; change_disk k set_attached; save)

  unfoldable pub prepare : Act Site (Unit {0})
  prepare = do
    set_up
    seed_and_launch
    j ← get_job
    each 1 (length j.disks - 1) create_one
    share_and_stop
    detach_boot
    each 0 (length j.disks) attach_one
    step o
