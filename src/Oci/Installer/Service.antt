-- ===== src/Oci/Installer/Service.antt =====
-- The thread of an ISO job, of helper/helper_app/jobs/runner.py, with the installer of
-- helper/helper_app/oci/iso_install.py.
use vmware_migration_helper.Base.{◌≡◌}
use vmware_migration_helper.Jobs.Model.{Job, installing}
use vmware_migration_helper.Jobs.Actions.{Outcome, ok, raised, Act}
use vmware_migration_helper.Jobs.Actions.Hoare.{Post, Always}
use vmware_migration_helper.Jobs.Runner.{Services, World}
use vmware_migration_helper.Jobs.Runner.Safely.{guarded_iso}
use vmware_migration_helper.Jobs.Runner.Safely.Iso.{EndsParked, guarded_iso-EndsParked}
use vmware_migration_helper.Oci.Installer.{Cloud, Site, run, cleanup}
use vmware_migration_helper.Oci.Installer.Cancel.{fresh}
use vmware_migration_helper.Oci.Installer.Laws.{Installed, run-Installs, cleanup-CleansUp}

-- A method of the installer, as the runner calls it.
abbrev pub called : Act Site (Unit {0}) → Job → Outcome (Unit {0}) × Job
called m j = let r = m (fresh j) in (r.0, r.1.job)

-- The services with the installer's methods. What OCI answers may differ from call to call.
abbrev pub with_installer : (Job → Cloud) → Services → Services
with_installer clouds s = record s {
  iso_run = λ j. called (run (clouds j)) j;
  iso_cleanup = λ j. called (cleanup (clouds j)) j;
}

installs :
    (r : Outcome (Unit {0}) × Site)
    → Post (λ u. Installed) Always r
    → r.0 ≡ ok tt
    → r.1.job.phase ≡ installing
installs (ok u, w) h e = h.phase
installs (raised x, w) h e = cc

-- `_run_iso_safely` with the installer: whatever OCI answers and whenever a cancel comes, no exception leaves the
-- thread, and the job is in INSTALLING or in a terminal phase, and saved as it is.
pub installed-EndsParked :
    (clouds : Job → Cloud) (s : Services) (w : World)
    → EndsParked (guarded_iso (with_installer clouds s) w)
installed-EndsParked clouds s =
    guarded_iso-EndsParked (with_installer clouds s)
      (λ j.
        installs (run (clouds j) (fresh j))
          ((run-Installs (clouds j) {P = Always}).at (fresh j) tt))
      (λ j e. (cleanup-CleansUp (clouds j) (fresh j)).phase)
