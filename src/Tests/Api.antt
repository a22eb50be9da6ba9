-- ===== src/Tests/Api.antt =====
-- The handlers of the jobs: helper/helper_app/api/routes_jobs.py.
use vmware_migration_helper.Base.{
  ℕ, ◌+◌, ◌≡◌, ◌≤◌, refl, true, false, none, some, [], ◌∷◌, arith, length, String,
}
use vmware_migration_helper.Base.Bytes.{strip, codes}
use vmware_migration_helper.Oci.Mapping.{efi, OciTarget, bring_your_own_license}
use vmware_migration_helper.Oci.Mapping.Guest.{
  is_arm_shape, is_bare_metal_shape, with_os_version, os_version_choices,
}
use vmware_migration_helper.Jobs.Model.{Job, JobKind, JobPhase, JobPhase-discrete}
use vmware_migration_helper.Jobs.Store.{
  Table, put, stamp, list, of_source, first_active, active_for_vm, active, keep_active,
}
use vmware_migration_helper.Jobs.Runner.Restart.{fail_stale_jobs, fail_all, stale}
use vmware_migration_helper.Api.Checks.{
  Site, usable, VmInspection, accepted, check_source, check_guest_os, check_target, is_iso_name,
}
use vmware_migration_helper.Api.Server.{Server, run}
use vmware_migration_helper.Api.Create.{
  CreateJobRequest, new_job, create_job, create_azure_job, create_gcp_job,
}
use vmware_migration_helper.Api.Jobs.{
  handle, create_vmware, cancelling, advance, submitting_run, put_job,
}
use vmware_migration_helper.Api.Jobs.Steps.{
  State, boot, IsReachable, booted, after, request, begin, save, saved, move,
}
use vmware_migration_helper.Api.Jobs.Handlers.{IsTended}
use vmware_migration_helper.Api.Jobs.Tended.{reachable-IsTended}
use vmware_migration_helper.Api.Jobs.Alone.{Leads, create_job-Leads}
use vmware_migration_helper.Api.Jobs.Replies.{Cancels, uninterrupted, cancelling-Cancels}
use vmware_migration_helper.Tests.Data.{job_of}

abbrev site : Site
site = record {
  helper_ad = "AD-1";
  default_shape = "VM.Standard.E5.Flex";
  check_private_ip = λ subnet ip. usable;
}

abbrev vm : VmInspection
vm = record {
  moid = "vm-8";
  powered_off = false;
  is_windows = true;
  host_name = "esx1";
  firmware = efi;
  secure_boot = false;
  disks = record { index = 0; capacity_bytes = 1024 } ∷ [];
  can_export = true;
  needs_power_off = true;
  os = record {
    operating_system = "Windows";
    operating_system_version = codes "Server 2019 Standard";
    version_detected = false;
  };
}

abbrev target : OciTarget
target = record {
  availability_domain = "AD-1";
  subnet_id = "subnet-1";
  shape = none;
  private_ip = some "10.0.0.5";
  operating_system_version = some " Windows11 ";
  windows_license_type = some bring_your_own_license;
  start_after_migration = true;
  compatibility_mode = false;
  boot_volume_type_override = none;
  network_type_override = none;
}

abbrev body : CreateJobRequest
body = record {
  vm_moid = "vm-8";
  target = target;
  power_off_source = true;
  capture_mode = none;
  options = record {
    rebuild_initramfs = true;
    fix_network = true;
    azure_cleanup = true;
    gcp_cleanup = true;
    nfc_direct_to_esxi = false;
  };
}

abbrev named : String → JobPhase → Job
named id phase = record (job_of JobKind.vmware phase []) { id = id }

abbrev rows : Table
rows = named "a" JobPhase.completed ∷ named "b" JobPhase.exporting ∷ []

abbrev clock : ℕ → ℕ
clock n = n + 9

abbrev server : Server
server = boot clock rows

few_of_source : length (of_source "vm-8" server.table) ≤ 200
unfolding of_source boot fail_stale_jobs fail_all stale active keep_active list JobPhase-discrete
    put
few_of_source = omega arith

arm_shape : is_arm_shape "vm.Standard.A1.Flex" ≡ true
unfolding is_arm_shape
arm_shape = refl

metal_shape : is_bare_metal_shape "BM.Standard.E5.192" ≡ true
unfolding is_bare_metal_shape
metal_shape = refl

iso_name : is_iso_name "images/Rocky-9.ISO" ≡ true
unfolding is_iso_name
iso_name = refl

-- A job is made, its thread saves it, and a cancel begins.
abbrev new : Job
new = stamp 30 (new_job JobKind.vmware none body "job-9" 30 vm)

abbrev put_new : State
put_new = record {
  server = put_job 30 new server;
  handlers = submitting_run new ∷ [];
  overtaken = [];
}

abbrev made : State
made = record put_new {
  server = (advance 30 (submitting_run new) put_new.server).1;
  handlers = (advance 30 (submitting_run new) put_new.server).0 ∷ [];
}

answers_new : (handle site "job-9" 30 (create_vmware (accepted vm) body) server).0 ≡ accepted new
unfolding handle create_job check_source check_guest_os check_target with_os_version strip
    os_version_choices is_arm_shape active_for_vm list of_source first_active boot fail_stale_jobs
    fail_all stale active keep_active JobPhase-discrete put new_job
answers_new = refl

made-pool : made.server.pool ≡ record { method = run; id = "job-9"; parked = false } ∷ []
unfolding advance boot new_job
made-pool = refl

abbrev busy : State
busy =
    saved 31 (named "job-9" JobPhase.exporting) []
      record { method = run; id = "job-9"; parked = false } [] made

abbrev asked : State
asked = record busy { handlers = cancelling true "job-9" ∷ busy.handlers }

reached : IsReachable site asked
unfolding JobPhase-discrete
reached =
    after busy
      (after made
        (after put_new
          (after _ (booted clock rows (omega arith) ((refl, tt), (tt, tt)))
            (request "job-9" 30 (create_vmware (accepted vm) body) server new answers_new))
          (move 30 [] [] (submitting_run new) refl))
        (save 31 (named "job-9" JobPhase.exporting) [] [] _ made-pool refl))
      (begin (cancelling true "job-9") refl)

reachable-IsTended_example : IsTended (record asked {
  server = (advance 32 (cancelling true "job-9") asked.server).1;
  handlers = (advance 32 (cancelling true "job-9") asked.server).0 ∷ busy.handlers;
})
reachable-IsTended_example =
    reachable-IsTended site _
      (after asked reached (move 32 [] busy.handlers (cancelling true "job-9") refl))

create_job-Leads_example :
    Leads "vm-8" "job-9" server (create_job site "job-9" 30 (accepted vm) body server)
    × Leads "vm-8" "job-9" server (create_azure_job site "job-9" 30 (accepted vm) body server)
    × Leads "vm-8" "job-9" server (create_gcp_job site "job-9" 30 (accepted vm) body server)
create_job-Leads_example = create_job-Leads site "job-9" 30 body server vm refl few_of_source refl

cancelling-Cancels_example :
    Cancels 32 "job-9" busy.server (uninterrupted 32 4 (cancelling true "job-9") busy.server)
cancelling-Cancels_example = cancelling-Cancels 32 true "job-9" busy.server
