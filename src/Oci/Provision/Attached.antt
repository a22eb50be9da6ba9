-- ===== src/Oci/Provision/Attached.antt =====
-- What holds when `Provisioner.prepare` of helper/helper_app/oci/provision.py returns.
use vmware_migration_helper.Base.{ℕ, ◌≡◌, true, is_some, All}
use vmware_migration_helper.Jobs.Model.{Job, DiskState}
use vmware_migration_helper.Oci.Provision.{Site}
use vmware_migration_helper.Oci.Provision.Positions.{At}
use vmware_migration_helper.Oci.Provision.Rounds.{Round}
use vmware_migration_helper.Oci.Provision.Under.{Under, Counted}

-- The disk is on the helper, under a known device.
abbrev pub OnHelper : DiskState → Type 0
OnHelper d = (is_some d.helper_attachment_id ≡ true) × (is_some d.device ≡ true)

abbrev HasAttachment : DiskState → Type 0
HasAttachment d = is_some d.helper_attachment_id ≡ true

-- Within a round: something holds of the round's disk already.
abbrev Mid : ℕ → (DiskState → Type 0) → ℕ → Job → Type 0
Mid n D k j = Round (Counted n) OnHelper k j × At D k j.disks

abbrev Anything : DiskState → Type 0
Anything d = Unit

-- All disks are on the helper, and so is it stored.
pub record Prepared (w : Site) : Type 0 where
  pub phase : Under w.job
  pub on_helper : All OnHelper w.job.disks
  pub stored : w.saved ≡ w.job

abbrev Ready : Job → Type 0
Ready j = Under j × All OnHelper j.disks
