-- ===== src/Oci/Installer/Cancel.antt =====
-- A run of helper/helper_app/oci/iso_install.py and the cleanup after it.
use vmware_migration_helper.Base.{
  ◌≡◌, refl, arith, Bool, true, false, not, ◌||◌, some, List, [], String, ◌=s=◌, eq_iff, Bool-cases,
  inl, inr, any, All, All-map, or_default,
}
use vmware_migration_helper.Jobs.Model.{Job}
use vmware_migration_helper.Jobs.Actions.{Outcome, ok}
use vmware_migration_helper.Oci.Provision.{is_set}
use vmware_migration_helper.Oci.Installer.{
  Cloud, Site, Call, launch_instance, terminate_instance, Reply, Event, run, cleanup,
}
use vmware_migration_helper.Oci.Installer.Laws.{CleansUp, cleanup-CleansUp}
use vmware_migration_helper.Oci.Installer.Ledger.{kept, Booked, AnyJob}
use vmware_migration_helper.Oci.Installer.Launches.{run-Keeps}

abbrev pub fresh : Job → Site
fresh j = record { job = j; saved = j; trace = []; checks = 0 }

abbrev pub terminates : String → Call → Bool
terminates id (terminate_instance x) = or_default x "" =s= id
terminates id _ = false

-- Whether the instance that the call launched, if it did and the id is not empty, was asked to terminate.
abbrev pub stopped : List Event → (c : Call) → Outcome (Reply c) → Bool
stopped trace (launch_instance image) (ok id) =
    not (is_set (some id)) || any (λ e. terminates id e.call) trace
stopped trace _ _ = true

stopped-kept :
    (w : Site) (r : Outcome (Unit {0}) × Site)
    → CleansUp w r
    → (c : Call) (a : Outcome (Reply c)) → kept w.job c a ≡ true
    → stopped r.1.trace c a ≡ true
stopped-kept w r h (launch_instance image) (ok id) k = elim (Bool-cases (id =s= "")) [
  | inl e ↦ rw e refl
  | inr e ↦
      let same : or_default w.job.instance_id "" =s= id ≡ true = rw e at k in
      let set : is_set w.job.instance_id ≡ true = ground (
        arith,
        eq_iff (or_default w.job.instance_id "") id,
        eq_iff (or_default w.job.instance_id "") "",
        eq_iff id "",
      ) in
      let (last, call, trace) = h.asked set in rw (e, trace, call, same) refl
]
stopped-kept w r h _ _ k = refl

-- However `run` ends, after `cleanup` of the job that it leaves every instance that it launched was asked to
-- terminate, if its id is not empty.
pub cleanup-Stops :
    (o : Cloud) (j : Job)
    → let w = (run o (fresh j)).1 in
      All (λ e. stopped (cleanup o w).1.trace e.call e.reply ≡ true) w.trace
cleanup-Stops o j =
    let w : Site = (run o (fresh j)).1 in
    let booked : Booked AnyJob w =
      (run-Keeps o).at (fresh j) (record { live = tt; stored = tt; on_job = tt }) in
    All-map _ _ w.trace (λ e. stopped-kept w (cleanup o w) (cleanup-CleansUp o w) e.call e.reply)
      booked.live
