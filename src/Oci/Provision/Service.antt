-- ===== src/Oci/Provision/Service.antt =====
-- The runner of helper/helper_app/jobs/runner.py with the provisioner of helper/helper_app/oci/provision.py.
use vmware_migration_helper.Base.{◌≡◌, []}
use vmware_migration_helper.Jobs.Model.{Job, cancelled}
use vmware_migration_helper.Jobs.Actions.{Outcome, ok, Act}
use vmware_migration_helper.Jobs.Runner.{Services, World}
use vmware_migration_helper.Jobs.Runner.Safely.{guarded_run, guarded_finalize}
use vmware_migration_helper.Jobs.Runner.Safely.Laws.{
  EndsWell, guarded_run-EndsWell, guarded_finalize-EndsWell,
}
use vmware_migration_helper.Oci.Provision.{Cloud, Site}
use vmware_migration_helper.Oci.Provision.Prepare.{prepare}
use vmware_migration_helper.Oci.Provision.Finish.{finalize, cleanup}
use vmware_migration_helper.Oci.Provision.Finalize.{finalize_completes}
use vmware_migration_helper.Oci.Provision.History.{fresh, cleanup-CleansUp}

-- A method of the provisioner, as the runner calls it.
abbrev pub called : Act Site (Unit {0}) → Job → Outcome (Unit {0}) × Job
called m j = let r = m (fresh j) in (r.0, r.1.job)

-- The services with the provisioner's methods. What OCI answers may differ from call to call.
abbrev pub provisioned : (Job → Cloud) → Services → Services
provisioned clouds s = record s {
  prepare = λ j. called (prepare (clouds j)) j;
  finalize = λ j. called (finalize (clouds j)) j;
  cleanup = λ j. called (cleanup (clouds j)) j;
}

module _ (clouds : Job → Cloud) (s : Services) where
  cleanup_cancels :
      (j : Job)
      → ((provisioned clouds s).cleanup j).0 ≡ ok tt
      → ((provisioned clouds s).cleanup j).1.phase ≡ cancelled
  cleanup_cancels j e = (cleanup-CleansUp (clouds j) j []).1.phase

  -- `_run_safely` with the provisioner: whatever OCI and the other services answer and whenever a cancel comes, no
  -- exception leaves the thread, and the job is in a terminal phase and saved as it is. The release of a
  -- cloud's resources leaves the phase alone.
  pub provisioned-EndsWell :
      ((j : Job) → (s.release_left j).1.phase ≡ j.phase)
      → (waited : Outcome (Unit {0})) (w : World)
      → EndsWell (guarded_run (provisioned clouds s) waited w)
  provisioned-EndsWell release_keeps =
      guarded_run-EndsWell (provisioned clouds s) cleanup_cancels release_keeps
        (λ j. finalize_completes (clouds j) (fresh j))

  -- `_finalize_safely` with the provisioner: whatever OCI answers, no exception leaves the thread, and the job is
  -- in a terminal phase and saved as it is.
  pub provisioned_finalize-EndsWell :
      (w : World) → EndsWell (guarded_finalize (provisioned clouds s) w)
  provisioned_finalize-EndsWell =
      guarded_finalize-EndsWell (provisioned clouds s)
        (λ j. finalize_completes (clouds j) (fresh j))
