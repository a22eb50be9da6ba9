-- ===== src/Jobs/Runner/Safely/Iso.antt =====
-- How `_run_iso_safely` of helper/helper_app/jobs/runner.py leaves its job.
use mathlib.Core.Path.{subst}
use vmware_migration_helper.Base.{◌≡◌, refl, sym, arith, true, some}
use vmware_migration_helper.Jobs.Model.{Job, installing, cancelled, Exception, JobPhase-discrete}
use vmware_migration_helper.Jobs.Store.{get}
use vmware_migration_helper.Jobs.Store.Rows.{get-put}
use vmware_migration_helper.Jobs.Actions.{Outcome, ok, raised}
use vmware_migration_helper.Jobs.Actions.Hoare.{
  Pred, Post, Triple, Triple-bind, Triple-to, Triple-try_catch, Always, Never, after,
}
use vmware_migration_helper.Jobs.Runner.{Services, World, M, save, call_on_job}
use vmware_migration_helper.Jobs.Runner.Restart.{is_settled}
use vmware_migration_helper.Jobs.Runner.Safely.{guarded_iso, clean_iso, on_exception}
use vmware_migration_helper.Jobs.Runner.Safely.Laws.{
  on_exception-Triple, clean_iso-Ended, string_refl,
}

-- The job needs nothing of the helper any more, and the store holds the job as it is.
pub record Parked (w : World) : Type 0 where
  pub over : is_settled w.job ≡ true
  pub saved : get w.job.id w.table ≡ some w.job

abbrev pub EndsParked : Outcome (Unit {0}) × World → Type 0
EndsParked r = (r.0 ≡ ok tt) × (Parked r.1)

abbrev Quiet : Pred World
Quiet w = is_settled w.job ≡ true

ends_parked :
    (m : M (Unit {0})) (w : World) → Triple Always m (λ u. Parked) Never → EndsParked (m w)
ends_parked m w h = of_Post (m w) (h.at w tt)
  where
    of_Post : (r : Outcome (Unit {0}) × World) → Post (λ u. Parked) Never r → EndsParked r
    of_Post (ok u, v) p = (refl, p)
    of_Post (raised e, v) p = absurd p

call_Quiet :
    (r : Outcome (Unit {0}) × Job) (w : World)
    → (r.0 ≡ ok tt → r.1.phase ≡ installing)
    → w.job ≡ r.1
    → Post (λ u. Quiet) Always (r.0, w)
unfolding JobPhase-discrete
call_Quiet (ok u, j) w h e = subst (λ i. is_settled i ≡ true) (sym e) (rw (h refl) refl)
call_Quiet (raised x, j) w h e = tt

module _ (s : Services) where
  save-Parked : {E : Pred World} → Triple Quiet (save s) (λ u. Parked) E
  unfolding save
  save-Parked = record {
    at = λ w h. record {
      over = h;
      saved = rw (get-put w.now w.job w.job.id w.table, string_refl w.job.id) refl;
    };
  }

  module _ (run_installs : (j : Job) → (s.iso_run j).0 ≡ ok tt → (s.iso_run j).1.phase ≡ installing)
      (cleanup_cancels : (j : Job)
        → (s.iso_cleanup j).0 ≡ ok tt
        → (s.iso_cleanup j).1.phase ≡ cancelled) where
    call_run-Quiet : {P : Pred World} → Triple P (call_on_job s s.iso_run) (λ u. Quiet) Always
    unfolding call_on_job
    call_run-Quiet = record { at = λ w p. call_Quiet (s.iso_run w.job) _ (run_installs w.job) refl }

    on_exception-Parks :
        (e : Exception) → Triple Always (on_exception s (clean_iso s) e) (λ u. Parked) Never
    on_exception-Parks e =
        Triple-to (λ u w h. record { over = ground (arith, h.over); saved = h.saved })
          (on_exception-Triple s (clean_iso s) (clean_iso-Ended s cleanup_cancels) e)

    -- `_run_iso_safely` of a job that the store has: whatever `iso.run` and `iso.cleanup` do, no exception leaves
    -- the thread, and the job is in INSTALLING or in a terminal phase, and saved as it is. A call of
    -- `iso.run` that returns leaves the job in INSTALLING, one of `iso.cleanup` leaves it CANCELLED.
    pub guarded_iso-EndsParked : (w : World) → EndsParked (guarded_iso s w)
    unfolding guarded_iso
    guarded_iso-EndsParked w = ends_parked _ w (
        Triple-try_catch Always
          (after _ λ u. Triple-bind (λ u. Quiet) call_run-Quiet λ u. save-Parked)
          on_exception-Parks)
