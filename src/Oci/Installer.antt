-- ===== src/Oci/Installer.antt =====
-- helper/helper_app/oci/iso_install.py: an instance that boots an installer ISO. What OCI answers to a call is any
-- function of the calls before it. The tags of an image, which are made of regular expressions, the options of
-- a shielded instance, and the texts are arguments or left out.
pub mod Laws
pub mod Ledger
pub mod Launches
pub mod Cancel
pub mod Service
use vmware_migration_helper.Base.{
  ℕ, zero, suc, ◌+◌, Bool, true, false, not, ◌&&◌, Option, none, some, List, [], ◌∷◌, String, ◌=s=◌,
  if◌then◌else◌, all, or_default,
}
use vmware_migration_helper.Base.Bytes.{codes}
use vmware_migration_helper.Oci.Mapping.{
  OciTarget, LaunchOptionsSpec, preset_boot, preset_net, remote_data_volume_type_for, is_uefi,
}
use vmware_migration_helper.Oci.Mapping.Guest.{has_version, windows_client_versions}
use vmware_migration_helper.Oci.Provision.{Polled, is_set, wait_for, refuse_if}
use vmware_migration_helper.Jobs.Model.{
  Job, JobPhase, IsoSpec, Exception, job_cancelled, other_error,
}
use vmware_migration_helper.Jobs.Actions.{
  Outcome, ok, raised, Act, ◌>>=◌, ◌>>◌, pure, raise, skip, lift, when, try_catch,
}

abbrev pub iso_launch_options : IsoSpec → OciTarget → LaunchOptionsSpec
iso_launch_options iso target =
    let boot =
      or_default target.boot_volume_type_override (preset_boot target.compatibility_mode) in
    let net = or_default target.network_type_override (preset_net target.compatibility_mode) in
    record {
      firmware = iso.firmware;
      boot_volume_type = boot;
      network_type = net;
      remote_data_volume_type = remote_data_volume_type_for boot;
      is_consistent_volume_naming_enabled = not iso.is_windows;
      secure_boot = iso.secure_boot && is_uefi iso.firmware;
    }

abbrev pub Tags : Type 0
Tags = List (String × String)

pub record Image : Type 0 where
  pub id : String
  pub freeform_tags : Tags

-- `have.get(k) == v`
abbrev pub has_tag : Tags → String × String → Bool
has_tag [] tag = false
has_tag (t ∷ tags) tag = if t.0 =s= tag.0 then t.1 =s= tag.1 else has_tag tags tag

abbrev pub carries : Tags → Image → Bool
carries tags image = all (has_tag image.freeform_tags) tags

-- `find_image` on the images that are AVAILABLE
unfoldable pub find_image : Tags → List Image → Option String
find_image tags [] = none
find_image tags (image ∷ images) =
    let rest = find_image tags images in if carries tags image then some image.id else rest

-- An import: how often it reports progress, and how it ends.
pub record Import : Type 0 where
  pub reports : ℕ
  pub ended : Outcome (Unit {0})

pub data Call : Type 0 where
  list_images create_image hostname_label import_failure_detail : Call
  ensure_data_volume_types wait_import update_image apply_capability_schema : String → Call
  ensure_shape_compatible launch_instance : (image : Option String) → Call
  poll_instance work_request_errors terminate_instance : (id : Option String) → Call

abbrev pub Reply : Call → Type 0
Reply list_images = List Image
Reply create_image = String
Reply (wait_import id) = Import
Reply (launch_instance image) = String
Reply (poll_instance id) = Polled
Reply _ = Unit {0}

pub record Event : Type 0 where
  pub call : Call
  pub reply : Outcome (Reply call)

pub record Cloud : Type 0 where
  pub reply : List Event → (c : Call) → Outcome (Reply c)  -- given the calls so far, the newest first
  pub cancelled : ℕ → Bool  -- whether the n-th `check_cancel` raises
  pub availability_domain : String  -- of the helper
  pub image_tags : IsoSpec → LaunchOptionsSpec → Tags
  pub platform : Job → Outcome (Unit {0})  -- `secure_boot_platform_config`

pub record Site : Type 0 where
  pub job : Job
  pub saved : Job  -- as `save` got it last
  pub trace : List Event
  pub checks : ℕ

unfoldable pub get_job : Act Site Job
get_job w = (ok w.job, w)

unfoldable pub change : (Job → Job) → Act Site (Unit {0})
change f w = (ok tt, record w { job = f w.job })

unfoldable pub save : Act Site (Unit {0})
save w = (ok tt, record w { saved = w.job })

abbrev pub iso_of : Option IsoSpec → Outcome IsoSpec
iso_of none = raised other_error
iso_of (some iso) = ok iso

-- `except OciError`: a cancel passes.
abbrev pub on_error : Act Site (Unit {0}) → Exception → Act Site (Unit {0})
on_error explain job_cancelled = raise job_cancelled
on_error explain e = explain >> raise e

abbrev pub is_client : IsoSpec → Bool
is_client iso =
    iso.is_windows && has_version (codes iso.operating_system_version) windows_client_versions

-- An empty id is no image.
abbrev pub non_empty : Option String → Option String
non_empty id = if is_set id then id else none

module _ (o : Cloud) where
  unfoldable pub request : (c : Call) → Act Site (Reply c)
  request c w =
      let r = o.reply w.trace c in
      (r, record w { trace = record { call = c; reply = r } ∷ w.trace })

  unfoldable pub check_cancel : Act Site (Unit {0})
  check_cancel w = (
    if o.cancelled w.checks then raised job_cancelled else ok tt,
    record w { checks = w.checks + 1 },
  )

  -- `_step` and `_step_progress`
  unfoldable pub step : Act Site (Unit {0})
  step = check_cancel >> save

  unfoldable pub report : ℕ → Act Site (Unit {0})
  report zero = skip
  report (suc n) = step >> report n

  -- `wait_import`, whose failure is explained
  unfoldable pub imported : String → Act Site (Unit {0})
  imported id =
      try_catch (do i ← request (wait_import id); report i.reports; lift i.ended)
        (on_error (request import_failure_detail))

  unfoldable pub make_image : IsoSpec → Act Site String
  make_image iso = do
    step
    id ← request create_image
    imported id
    step
    when (is_client iso) (request (update_image id))
    request (apply_capability_schema id)
    pure id

  abbrev pub use_image : IsoSpec → Option String → Act Site String
  use_image iso none = make_image iso
  use_image iso (some id) = do request (ensure_data_volume_types id); pure id

  unfoldable pub get_or_create_image : IsoSpec → LaunchOptionsSpec → Act Site String
  get_or_create_image iso lo = do
    images ← request list_images
    use_image iso (non_empty (find_image (o.image_tags iso lo) images))

  unfoldable pub provide_image : IsoSpec → LaunchOptionsSpec → Act Site (Unit {0})
  provide_image iso lo = do
    step
    id ← get_or_create_image iso lo
    change (λ j. record j { iso_image_id = some id })
    save

  -- The wait for RUNNING, whose failure is explained
  unfoldable pub await_running : Option String → Act Site (Unit {0})
  await_running id =
      try_catch
        (do
          p ← request (poll_instance id)
          state ← lift (wait_for ("RUNNING" ∷ []) p.states p.at_deadline)
          skip)
        (on_error (request (work_request_errors id)))

  unfoldable pub launch : Option String → Act Site (Unit {0})
  launch image = do
    step
    request (ensure_shape_compatible image)
    step
    request hostname_label
    id ← request (launch_instance image)
    change (λ j. record j { instance_id = some id })
    save
    await_running (some id)

  -- `IsoInstaller.run`
  unfoldable pub run : Act Site (Unit {0})
  run = do
    j ← get_job
    iso ← lift (iso_of j.iso)
    lift (refuse_if (not (j.target.availability_domain =s= o.availability_domain)))
    let lo = iso_launch_options iso j.target
    change (λ i. record i { phase = JobPhase.provisioning; launch_options = some lo })
    when lo.secure_boot (lift (o.platform j))
    when (not (is_set j.iso_image_id)) (provide_image iso lo)
    k ← get_job
    when (not (is_set k.instance_id)) (launch k.iso_image_id)
    change (λ i. record i { phase = JobPhase.installing })
    save

  -- `IsoInstaller.cleanup`; a call that fails is noted.
  unfoldable pub cleanup : Act Site (Unit {0})
  cleanup = do
    j ← get_job
    when (is_set j.instance_id) (try_catch (request (terminate_instance j.instance_id)) (λ e. skip))
    change (λ i. record i { phase = JobPhase.cancelled })
    save
