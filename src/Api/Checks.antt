-- ===== src/Api/Checks.antt =====
-- The checks of helper/helper_app/api/routes_jobs.py before a job is made. What OCI says of a private IP, what the
-- inspection of a machine finds, and `map_guest_os` are arguments; the texts of the errors are left out.
pub mod Allowed
use vmware_migration_helper.Base.{
  is_nil, ℕ, Bool, true, false, not, ◌&&◌, ◌||◌, Option, none, some, List, [], String, ◌=s=◌,
  if◌then◌else◌, is_some, ◌≡◌, refl, map, rev_onto, leb, ◌+◌,
}
use vmware_migration_helper.Base.Bytes.{strip, codes}
use vmware_migration_helper.Oci.Mapping.{
  Firmware, OciFirmware, is_uefi, OciTarget, WindowsLicenseType, oci_provided,
  bring_your_own_license,
}
use vmware_migration_helper.Oci.Mapping.Guest.{
  OsMetadata, windows_client_versions, has_version, os_version_choices, with_os_version, text,
  has_text, choices_in, all_version_choices, after_prefix, is_arm_shape, is_bare_metal_shape,
}
use vmware_migration_helper.Jobs.Model.{DiskSpec, IsoSpec}
use vmware_migration_helper.Jobs.Store.{Table, active_for_vm}

-- `HTTPException`: 400, 404, 409, 502
pub data HttpError : Type 0 where
  bad_request not_found conflict bad_gateway : HttpError

pub data Answer (A : Type 0) : Type 0 where
  accepted : A → Answer A
  refused : HttpError → Answer A

infixl 10 ◌>>=◌ ◌>>◌
abbrev pub ◌>>=◌ : {A B : Type 0} → Answer A → (A → Answer B) → Answer B
accepted a >>= f = f a
refused e >>= f = refused e

abbrev pub ◌>>◌ : {B : Type 0} → Answer (Unit {0}) → Answer B → Answer B
m >> k = m >>= λ u. k

-- `if test: raise HTTPException(e)`
abbrev pub refuse_if : Bool → HttpError → Answer (Unit {0})
refuse_if true e = refused e
refuse_if false e = accepted tt

-- How `check_private_ip` ends: it returns, raises `PrivateIpError`, or raises anything else.
pub data IpCheck : Type 0 where
  usable unusable unknown : IpCheck

abbrev pub ip_answer : IpCheck → Answer (Unit {0})
ip_answer usable = accepted tt
ip_answer unusable = refused bad_request
ip_answer unknown = refused bad_gateway

-- What the checks read of `app.state`, and the lookup that they make.
pub record Site : Type 0 where
  pub helper_ad : String  -- `clients.identity_info.availability_domain`
  pub default_shape : String
  pub check_private_ip : String → String → IpCheck  -- of a subnet and an address

abbrev pub shape_of : Site → OciTarget → String
shape_of site target = if has_text target.shape then text target.shape else site.default_shape

abbrev pub check_ip : Site → OciTarget → Answer (Unit {0})
check_ip site target =
    if has_text target.private_ip
    then ip_answer (site.check_private_ip target.subnet_id (text target.private_ip))
    else accepted tt

-- `_check_target`
unfoldable pub check_target : Site → Bool → OciTarget → Answer (Unit {0})
check_target site allow_arm target = do
  refuse_if (not (target.availability_domain =s= site.helper_ad)) bad_request
  refuse_if (is_arm_shape (shape_of site target) && not allow_arm) bad_request
  check_ip site target

-- `VmInspection` with its `VmSpec`: what a job takes of it, and what `map_guest_os` makes of the guest's names
pub record VmInspection : Type 0 where
  pub moid : String
  pub powered_off : Bool
  pub is_windows : Bool
  pub host_name : String
  pub firmware : Firmware
  pub secure_boot : Bool
  pub disks : List DiskSpec
  pub can_export : Bool
  pub needs_power_off : Bool
  pub os : OsMetadata

abbrev pub is_oci_provided : Option WindowsLicenseType → Bool
is_oci_provided (some oci_provided) = true
is_oci_provided (some bring_your_own_license) = false
is_oci_provided none = false

abbrev pub unlicensed : VmInspection → OciTarget → Bool
unlicensed inspection target = inspection.is_windows && not (is_some target.windows_license_type)

abbrev pub unnamed_release : OsMetadata → OciTarget → Bool
unnamed_release os target =
    not os.version_detected
    && not (has_text target.operating_system_version)
    && not (is_nil (os_version_choices os))

abbrev pub client_without_license : OsMetadata → OciTarget → Bool
client_without_license os target =
    let named = with_os_version os target.operating_system_version in
    has_version named.operating_system_version windows_client_versions
    && is_oci_provided target.windows_license_type

-- `_check_guest_os`
unfoldable pub check_guest_os : Site → VmInspection → OciTarget → Answer (Unit {0})
check_guest_os site inspection target = do
  refuse_if (unlicensed inspection target) bad_request
  refuse_if (unnamed_release inspection.os target) bad_request
  refuse_if (client_without_license inspection.os target) bad_request
  check_target site false target

-- `active_for_vm` must find nothing.
abbrev pub no_active : String → Table → Answer (Unit {0})
no_active key rows = elim (active_for_vm key rows) [
  | none ↦ accepted tt
  | some job ↦ refused conflict
]

-- The checks of the three migrations, in their order: the machine can be exported, the user agreed to stop it
-- if it must be, the guest and the target are fine, and no job for the machine is in flight.
unfoldable pub check_source :
    Site
    → Answer VmInspection
    → Bool
    → OciTarget
    → (VmInspection → String)
    → Table
    → Answer VmInspection
check_source site found power_off_source target key rows = do
  inspection ← found
  refuse_if (not inspection.can_export) bad_request
  refuse_if (inspection.needs_power_off && not power_off_source) bad_request
  check_guest_os site inspection target
  no_active (key inspection) rows
  accepted inspection

-- `str.lower` on ASCII
abbrev pub lower : ℕ → ℕ
lower c = if leb b'A' c && leb c b'Z' then c + 32 else c

-- `object_name.lower().endswith(".iso")`
unfoldable pub is_iso_name : String → Bool
is_iso_name name = elim (after_prefix (codes "osi.") (rev_onto (map lower (codes name)) [])) [
  | none ↦ false
  | some rest ↦ true
]

-- The fields of a target that only the runner reads
pub record TargetOptions : Type 0 where
  pub rebuild_initramfs : Bool
  pub fix_network : Bool
  pub azure_cleanup : Bool
  pub gcp_cleanup : Bool
  pub nfc_direct_to_esxi : Bool

-- `CreateIsoJobRequest`, with the fields of its target that only these checks read
pub record IsoRequest : Type 0 where
  pub iso : IsoSpec
  pub target : OciTarget
  pub options : TargetOptions
  pub display_name : Option String
  pub has_ocpus : Bool
  pub has_memory : Bool

abbrev pub wrong_license : IsoSpec → Option WindowsLicenseType → Bool
wrong_license iso license =
    has_version (codes iso.operating_system_version) windows_client_versions
    && is_oci_provided license

abbrev pub unknown_release : IsoSpec → Bool
unknown_release iso =
    let choices = choices_in iso.operating_system all_version_choices in
    not (is_nil choices) && not (has_version (codes iso.operating_system_version) choices)

-- The checks of `create_iso_job`. On a bare metal shape the request's cores and memory are dropped.
unfoldable pub check_iso : Site → IsoRequest → Answer (Unit {0})
check_iso site body =
    let iso = body.iso in
    let target = body.target in
    let shape = shape_of site target in
    do
      refuse_if (not (is_iso_name iso.object_name)) bad_request
      refuse_if (is_nil (strip (codes (text body.display_name)))) bad_request
      refuse_if (iso.is_windows && not (is_some target.windows_license_type)) bad_request
      refuse_if (iso.is_windows && wrong_license iso target.windows_license_type) bad_request
      refuse_if (unknown_release iso) bad_request
      refuse_if (not (is_bare_metal_shape shape) && (not body.has_ocpus || not body.has_memory))
          bad_request
      refuse_if (is_arm_shape shape && not (is_uefi iso.firmware)) bad_request
      refuse_if (is_arm_shape shape && iso.secure_boot) bad_request
      check_target site true target

pub accepted_bind :
    {A B : Type 0} (m : Answer A) (f : A → Answer B) (b : B)
    → (m >>= f) ≡ accepted b
    → (a : A) × (m ≡ accepted a) × (f a ≡ accepted b)
accepted_bind (accepted a) f b e = (a, refl, e)
accepted_bind (refused x) f b e = cc

pub accepted_after :
    {B : Type 0} (test : Bool) (x : HttpError) (k : Answer B) (b : B)
    → (refuse_if test x >> k) ≡ accepted b
    → (test ≡ false) × (k ≡ accepted b)
accepted_after true x k b e = cc
accepted_after false x k b e = (refl, e)
