-- ===== src/Oci/Provision.antt =====
-- helper/helper_app/oci/provision.py: the state that the provisioner works on and the calls that it makes, and
-- `wait_for` of helper/helper_app/oci/clients.py. OCI, the import of the seed image and the scan of the
-- block devices are the record `Cloud`, whose answer to a call may depend on all the calls before it. A
-- request's display names, tags and texts are left out, and so is the lock around the boot volume's scan.
pub mod Prepare
pub mod Finish
pub mod Rules
pub mod Ledger
pub mod Volumes
pub mod Create
pub mod Leaks
pub mod Reclaim
pub mod Cleanup
pub mod History
pub mod Under
pub mod Attached
pub mod Service
pub mod Positions
pub mod Rounds
pub mod Outcomes
pub mod Finalize
use vmware_migration_helper.Base.{
  ℕ, zero, suc, ◌+◌, Bool, true, false, not, ◌&&◌, Option, none, some, List, [], ◌∷◌, String, ◌=s=◌,
  if◌then◌else◌, any, or_default,
}
use vmware_migration_helper.Disk.Devices.{Devices}
use vmware_migration_helper.Jobs.Model.{
  Job, JobPhase, DiskState, Exception, job_cancelled, other_error,
}
use vmware_migration_helper.Jobs.Actions.{Outcome, ok, raised, Act, ◌>>=◌, ◌>>◌, pure, skip, lift}
use vmware_migration_helper.Jobs.Runner.{modify}

pub data InstanceAction : Type 0 where
  start stop soft_stop : InstanceAction

-- What `wait_for` polls.
pub data Resource : Type 0 where
  instance_state volume_state attachment_state boot_attachment_state : Option String → Resource

pub data Call : Type 0 where
  seed_image : Call  -- `SeedImageService.get_or_create`
  ensure_shape_compatible : Option String → Call
  launch_instance : (image : Option String) (boot_volume_size_gb : ℕ) → Call
  get_instance : Option String → Call
  instance_action : Option String → InstanceAction → Call
  poll : Resource → Call
  create_volume : (index size_gb : ℕ) → Call
  attach_volume : (instance_id volume_id device : Option String) (is_shareable : Bool) → Call
  get_volume_attachment : Option String → Call
  detach_volume : Option String → Call
  list_boot_volume_attachments : Option String → Call
  attach_boot_volume : (volume_id instance_id : Option String) → Call
  detach_boot_volume : String → Call
  list_instance_devices : Call
  scan_devices : Call
  watch_devices : Call  -- the scans of `wait_for_new_device`
  terminate_instance : Option String → Call
  delete_boot_volume delete_volume : Option String → Call

-- The states that are seen before the deadline, the one at it, and the device of the last answer.
pub record Polled : Type 0 where
  pub states : List String
  pub at_deadline : String
  pub device : Option String

pub record BootAttachment : Type 0 where
  pub id : String
  pub boot_volume_id : String
  pub lifecycle_state : String

abbrev pub Reply : Call → Type 0
Reply seed_image = String
Reply (launch_instance image size) = String
Reply (get_instance id) = String
Reply (poll r) = Polled
Reply (create_volume index size) = String
Reply (attach_volume i v d b) = String
Reply (get_volume_attachment id) = String
Reply (list_boot_volume_attachments id) = List BootAttachment
Reply (attach_boot_volume v i) = String
Reply list_instance_devices = List String
Reply scan_devices = Devices
Reply watch_devices = List Devices × Devices
Reply _ = Unit {0}

-- A call that was made, with what it returned or raised.
pub record Event : Type 0 where
  pub call : Call
  pub reply : Outcome (Reply call)

pub record Cloud : Type 0 where
  pub reply : List Event → (c : Call) → Outcome (Reply c)  -- given the calls so far, the newest first
  pub cancelled : ℕ → Bool  -- whether the n-th `check_cancel` raises
  pub availability_domain : String  -- of the helper
  pub helper_id : String
  pub min_volume_gb : ℕ
  pub target_device : ℕ → String  -- `device_prefix` with the n-th letter
  pub named_windows : Job → Bool  -- `map_guest_os(...).is_windows`
  pub plan_shape : Job → Outcome (Unit {0})  -- `map_shape`
  pub plan_platform : Job → Outcome (Unit {0})  -- `secure_boot_platform_config`, if it is called

pub record Site : Type 0 where
  pub job : Job
  pub saved : Job  -- as `save` got it last
  pub trace : List Event  -- the newest first
  pub checks : ℕ

-- Python's truth of an optional id
abbrev pub is_set : Option String → Bool
is_set o = not (or_default o "" =s= "")

-- How one state of the resource ends the wait.
pub data Seen : Type 0 where
  reached failing pending : Seen

abbrev pub failure_states : List String
failure_states = "FAILED" ∷ "TERMINATED" ∷ "TERMINATING" ∷ "DELETED" ∷ "FAULTY" ∷ []

abbrev pub is_one_of : String → List String → Bool
is_one_of state states = any (λ s. s =s= state) states

abbrev pub judge : List String → String → Seen
judge targets state =
    if is_one_of state targets
    then reached
    else (if is_one_of state failure_states then failing else pending)

unfoldable pub wait_for : List String → List String → String → Outcome String
wait_for targets [] last = elim (judge targets last) [ reached ↦ ok last | _ ↦ raised other_error ]
wait_for targets (s ∷ states) last = elim (judge targets s) [
  | reached ↦ ok s
  | failing ↦ raised other_error
  | pending ↦ wait_for targets states last
]

-- The disk at a position.
abbrev pub disk_at : ℕ → List DiskState → Option DiskState
disk_at k [] = none
disk_at zero (d ∷ ds) = some d
disk_at (suc k) (d ∷ ds) = disk_at k ds

-- `job.disks[1:]`
abbrev pub data_disks : List DiskState → List DiskState
data_disks [] = []
data_disks (d ∷ ds) = ds

unfoldable pub get_job : Act Site Job
get_job w = (ok w.job, w)

unfoldable pub change : (Job → Job) → Act Site (Unit {0})
change f w = (ok tt, record w { job = f w.job })

unfoldable pub save : Act Site (Unit {0})
save w = (ok tt, record w { saved = w.job })

abbrev pub change_disk : ℕ → (DiskState → DiskState) → Act Site (Unit {0})
change_disk k f = change (λ j. record j { disks = modify k f j.disks })

-- `if b: raise OciError(...)`
abbrev pub refuse_if : Bool → Outcome (Unit {0})
refuse_if true = raised other_error
refuse_if false = ok tt

-- Do something with the disk at a position.
abbrev pub with_disk : Option DiskState → (DiskState → Act Site (Unit {0})) → Act Site (Unit {0})
with_disk none body = skip
with_disk (some d) body = body d

unfoldable pub on_disk : ℕ → (DiskState → Act Site (Unit {0})) → Act Site (Unit {0})
on_disk k body = do j ← get_job; with_disk (disk_at k j.disks) body

-- A loop over the positions from `k` on.
unfoldable pub each : ℕ → ℕ → (ℕ → Act Site (Unit {0})) → Act Site (Unit {0})
each k zero body = skip
each k (suc n) body = body k >> each (suc k) n body

module _ (o : Cloud) where
  unfoldable pub request : (c : Call) → Act Site (Reply c)
  request c w =
      let r = o.reply w.trace c in
      (r, record w { trace = record { call = c; reply = r } ∷ w.trace })

  unfoldable pub check_cancel : Act Site (Unit {0})
  check_cancel w = (
    if o.cancelled w.checks then raised job_cancelled else ok tt,
    record w { checks = w.checks + 1 },
  )

  -- `step` of `prepare`; the `_step` without a check is `save`.
  unfoldable pub step : Act Site (Unit {0})
  step = check_cancel >> save

  -- `self.c.wait_for(...)`, with the device of the answer
  unfoldable pub await : Resource → String → Act Site (Option String)
  await r target = do
    p ← request (poll r)
    state ← lift (wait_for (target ∷ []) p.states p.at_deadline)
    pure p.device
