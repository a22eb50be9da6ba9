-- ===== src/Api/Checks/Allowed.antt =====
-- What the checks of helper/helper_app/api/routes_jobs.py let through.
use mathlib.Core.Path.{subst}
use vmware_migration_helper.Base.{
  ◌≡◌, arith, Bool, true, false, not, ◌&&◌, none, String, ◌=s=◌, Option-cases, not-not, inl, inr,
  is_some,
}
use vmware_migration_helper.Oci.Mapping.{OciTarget}
use vmware_migration_helper.Oci.Mapping.Guest.{text, has_text, is_arm_shape}
use vmware_migration_helper.Jobs.Store.{Table, active_for_vm}
use vmware_migration_helper.Api.Checks.{
  Answer, accepted, bad_request, accepted_bind, accepted_after, Site, shape_of, IpCheck, usable,
  ip_answer, check_ip, check_target, VmInspection, check_guest_os, unlicensed, unnamed_release,
  client_without_license, no_active, check_source,
}

-- What the user asks for can be done with the machine.
pub record IsAllowed (site : Site) (agreed : Bool) (target : OciTarget) (vm : VmInspection)
    : Type 0 where
  pub exported : vm.can_export ≡ true
  pub consents : vm.needs_power_off ≡ true → agreed ≡ true
  pub licensed : vm.is_windows ≡ true → is_some target.windows_license_type ≡ true
  pub local : target.availability_domain =s= site.helper_ad ≡ true
  pub runs_x86 : is_arm_shape (shape_of site target) ≡ false
  pub address :
      has_text target.private_ip ≡ true
      → site.check_private_ip target.subnet_id (text target.private_ip) ≡ usable

ip_answer-usable : (c : IpCheck) → ip_answer c ≡ accepted tt → c ≡ usable
ip_answer-usable c e = ground arith

check_ip-usable :
    (site : Site) (target : OciTarget)
    → check_ip site target ≡ accepted tt
    → has_text target.private_ip ≡ true
    → site.check_private_ip target.subnet_id (text target.private_ip) ≡ usable
check_ip-usable site target e h = ip_answer-usable _ (rw h at e)

no_active-none :
    (key : String) (rows : Table) → no_active key rows ≡ accepted tt → active_for_vm key rows ≡ none
no_active-none key rows e = elim (Option-cases (active_for_vm key rows)) [
  | inl n ↦ n
  | inr (job, f) ↦ absurd (cc (rw (no_active, f) at e))
]

accepted_same : (v w : VmInspection) → accepted v ≡ accepted w → v ≡ w
accepted_same v w e = cc

guest_os-target :
    (site : Site) (vm : VmInspection) (target : OciTarget)
    → check_guest_os site vm target ≡ accepted tt
    → (vm.is_windows && not (is_some target.windows_license_type) ≡ false)
      × (check_target site false target ≡ accepted tt)
unfolding check_guest_os
guest_os-target site vm target e =
    let (licensed, e₁) = accepted_after (unlicensed vm target) bad_request _ tt e in
    let (named, e₂) = accepted_after (unnamed_release vm.os target) bad_request _ tt e₁ in
    let (client, e₃) = accepted_after (client_without_license vm.os target) bad_request _ tt e₂ in
    (licensed, e₃)

and_true : (b : Bool) → (b && true) ≡ false → b ≡ false
and_true b e = ground arith

implied : (a b : Bool) → (a && not b) ≡ false → a ≡ true → b ≡ true
implied a b e h = ground arith

target-IsFine :
    (site : Site) (target : OciTarget)
    → check_target site false target ≡ accepted tt
    → (target.availability_domain =s= site.helper_ad ≡ true)
      × (is_arm_shape (shape_of site target) ≡ false)
      × (check_ip site target ≡ accepted tt)
unfolding check_target
target-IsFine site target e =
    let (local, e₁) =
      accepted_after (not (target.availability_domain =s= site.helper_ad)) bad_request _ tt e in
    let (arm, e₂) =
      accepted_after (is_arm_shape (shape_of site target) && not false) bad_request _ tt e₁ in
    (not-not _ local, and_true _ arm, e₂)

-- When the checks of a request to migrate a machine let the machine through, then it is the one that was
-- inspected, the disks of it can be exported, the user has agreed to its shutdown if it must be shut down, a
-- Windows machine has a license type, the target is in the tool's availability domain and of no Arm shape, a
-- fixed address was found usable, and no job for the machine is in flight.
pub check_source-IsAllowed :
    (site : Site) (found : Answer VmInspection) (agreed : Bool) (target : OciTarget)
    (key : VmInspection → String) (rows : Table) (vm : VmInspection)
    → check_source site found agreed target key rows ≡ accepted vm
    → (found ≡ accepted vm)
      × (IsAllowed site agreed target vm)
      × (active_for_vm (key vm) rows ≡ none)
unfolding check_source
check_source-IsAllowed site found agreed target key rows vm e =
    let (v, read, e₁) = accepted_bind found _ vm e in
    let (exported, e₂) = accepted_after (not v.can_export) bad_request _ vm e₁ in
    let (consents, e₃) = accepted_after (v.needs_power_off && not agreed) bad_request _ vm e₂ in
    let (u, guest, e₄) = accepted_bind (check_guest_os site v target) _ vm e₃ in
    let (w, idle, e₅) = accepted_bind (no_active (key v) rows) _ vm e₄ in
    let same : v ≡ vm = accepted_same v vm e₅ in
    let (licensed, good) = guest_os-target site v target guest in
    let (local, x86, ip) = target-IsFine site target good in
    subst
      (λ z.
        (found ≡ accepted z)
        × (IsAllowed site agreed target z)
        × (active_for_vm (key z) rows ≡ none))
      same
      (
        read,
        record {
          exported = not-not _ exported;
          consents = implied _ _ consents;
          licensed = implied _ _ licensed;
          local = local;
          runs_x86 = x86;
          address = check_ip-usable site target ip;
        },
        no_active-none (key v) rows idle,
      )
