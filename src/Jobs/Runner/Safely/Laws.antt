-- ===== src/Jobs/Runner/Safely/Laws.antt =====
-- How a thread of helper/helper_app/jobs/runner.py leaves its job, and what it leaves of itself.
use vmware_migration_helper.Base.{
  ℕ, ◌≡◌, refl, sym, Bool, true, false, Option, none, some, String, ◌=s=◌, eq_iff, if◌then◌else◌,
}
use mathlib.Core.Path.{subst}
use vmware_migration_helper.Jobs.Model.{
  Job, JobKind, JobPhase, completed, cancelled, terminal, Exception, job_cancelled, export_error,
  transfer_error, other_error, CaptureMode, PowerOffResult,
}
use vmware_migration_helper.Jobs.Store.{get}
use vmware_migration_helper.Jobs.Store.Rows.{get-put}
use vmware_migration_helper.Jobs.Actions.{Outcome, ok, raised, ◌>>◌, skip, raise}
use vmware_migration_helper.Jobs.Runner.{
  Services, World, M, get_job, modify_job, save, call_on_job, call_finalize,
}
use vmware_migration_helper.Jobs.Actions.Hoare.{
  Pred, Post, Triple, Triple-bind, Triple-try_catch, Always, Never, after,
}
use vmware_migration_helper.Jobs.Runner.Run.{
  run, run_azure, run_gcp, run_cloud, fix_and_finalize, logged_in,
}
use vmware_migration_helper.Jobs.Runner.Safely.{
  fail_with, cancel_with, release_known, release_cloud, clean, clean_iso, incomplete, on_failure,
  on_exception, run_kind, guarded_run, guarded_finalize, clean_kind, guarded_cleanup,
}

-- The job is in a terminal phase, and the store holds the job as it is.
pub record Ended (w : World) : Type 0 where
  pub over : terminal w.job.phase ≡ true
  pub saved : get w.job.id w.table ≡ some w.job

abbrev Over : Pred World
Over w = terminal w.job.phase ≡ true

abbrev pub EndsWell : Outcome (Unit {0}) × World → Type 0
EndsWell r = (r.0 ≡ ok tt) × (Ended r.1)

pub string_refl : (a : String) → (a =s= a) ≡ true
string_refl a = (eq_iff a a).1 refl

module _ (s : Services) where
  save-Ended : {E : Pred World} → Triple Over (save s) (λ u. Ended) E
  unfolding save
  save-Ended = record {
    at = λ w h. record {
      over = h;
      saved = rw (get-put w.now w.job w.job.id w.table, string_refl w.job.id) refl;
    };
  }

  modify-Ended :
      {P E : Pred World} (f : Job → Job)
      → ((j : Job) → terminal (f j).phase ≡ true)
      → Triple P (modify_job f >> save s) (λ u. Ended) E
  modify-Ended f over =
      Triple-bind (λ u. Over) (unfold modify_job in record { at = λ w p. over w.job })
        λ u. save-Ended

  pub incomplete-Triple :
      {P E : Pred World} (e : Exception) → Triple P (incomplete s e) (λ u. Ended) E
  unfolding incomplete
  incomplete-Triple e = modify-Ended (cancel_with e) (λ j. refl)

  pub on_failure-Triple :
      {P E : Pred World} (e : Exception) → Triple P (on_failure s e) (λ u. Ended) E
  unfolding on_failure
  on_failure-Triple e = modify-Ended (fail_with e) (λ j. refl)

  -- A cleanup that returns leaves an ended job; one that raises is recorded.
  pub on_exception-Triple :
      {P : Pred World} (cleaning : M (Unit {0}))
      → Triple Always cleaning (λ u. Ended) Always
      → (e : Exception) → Triple P (on_exception s cleaning e) (λ u. Ended) Never
  unfolding on_exception
  on_exception-Triple cleaning h job_cancelled =
      Triple-bind (λ u. Always) (unfold save in record { at = λ w p. tt })
        λ u. Triple-try_catch Always h (λ e. incomplete-Triple e)
  on_exception-Triple cleaning h export_error = on_failure-Triple export_error
  on_exception-Triple cleaning h transfer_error = on_failure-Triple transfer_error
  on_exception-Triple cleaning h other_error = on_failure-Triple other_error

ends_well : (m : M (Unit {0})) (w : World) → Triple Always m (λ u. Ended) Never → EndsWell (m w)
ends_well m w h = of_Post (m w) (h.at w tt)
  where
    of_Post : (r : Outcome (Unit {0}) × World) → Post (λ u. Ended) Never r → EndsWell r
    of_Post (ok u, v) p = (refl, p)
    of_Post (raised e, v) p = absurd p

-- A service that returned has left the job in a given phase.
call_Over :
    (p : JobPhase) (r : Outcome (Unit {0}) × Job) (w : World)
    → terminal p ≡ true
    → (r.0 ≡ ok tt → r.1.phase ≡ p)
    → w.job ≡ r.1
    → Post (λ u. Over) Always (r.0, w)
call_Over p (ok u, j) w t h e = subst (λ i. terminal i.phase ≡ true) (sym e) (rw (h refl) t)
call_Over p (raised x, j) w t h e = tt

keep_Over : (o : Outcome (Unit {0})) (w : World) → Over w → Post (λ u. Over) Always (o, w)
keep_Over (ok u) w h = h
keep_Over (raised x) w h = tt

module _ (s : Services) where
  call_on_job-Over :
      {P : Pred World} (f : Job → Outcome (Unit {0}) × Job)
      → ((j : Job) → (f j).0 ≡ ok tt → (f j).1.phase ≡ cancelled)
      → Triple P (call_on_job s f) (λ u. Over) Always
  unfolding call_on_job
  call_on_job-Over f h = record { at = λ w p. call_Over cancelled (f w.job) _ refl (h w.job) refl }

  module _ (release_keeps : (j : Job) → (s.release_left j).1.phase ≡ j.phase) where
    release_left-Over : Triple Ended (call_on_job s s.release_left) (λ u. Over) Always
    unfolding call_on_job
    release_left-Over = record {
      at = λ w h. keep_Over (s.release_left w.job).0 _ (rw (release_keeps w.job) h.over);
    }

    save_again : Triple Ended (save s) (λ u. Ended) Always
    save_again = record { at = λ w h. (save-Ended s).at w h.over }

    release_known-Ended : (b : Bool) → Triple Ended (release_known s b) (λ u. Ended) Always
    unfolding release_known
    release_known-Ended true = Triple-bind (λ u. Over) release_left-Over λ u. save-Ended s
    release_known-Ended false = save_again

    release_if :
        (b c : Bool) → Triple Ended (if b then release_known s c else skip) (λ u. Ended) Always
    release_if true c = release_known-Ended c
    release_if false c = unfold skip in record { at = λ w h. h }

    release_cloud-Ended : Triple Ended (release_cloud s) (λ u. Ended) Always
    unfolding release_cloud
    release_cloud-Ended =
        Triple-bind (λ j. Ended) (unfold get_job in record { at = λ w h. h }) λ j. release_if _ _

    clean-Ended :
        ((j : Job) → (s.cleanup j).0 ≡ ok tt → (s.cleanup j).1.phase ≡ cancelled)
        → Triple Always (clean s) (λ u. Ended) Always
    unfolding clean
    clean-Ended h =
        Triple-bind (λ u. Over) (call_on_job-Over s.cleanup h)
          λ u. Triple-bind (λ u. Ended) (save-Ended s) λ u. release_cloud-Ended

  pub clean_iso-Ended :
      ((j : Job) → (s.iso_cleanup j).0 ≡ ok tt → (s.iso_cleanup j).1.phase ≡ cancelled)
      → Triple Always (clean_iso s) (λ u. Ended) Always
  unfolding clean_iso
  clean_iso-Ended h = Triple-bind (λ u. Over) (call_on_job-Over s.iso_cleanup h) λ u. save-Ended s

  module _
      (finalize_completes : (j : Job)
        → (s.finalize j).0 ≡ ok tt
        → (s.finalize j).1.phase ≡ completed) where
    finalize_and_save : {P : Pred World} → Triple P (call_finalize s >> save s) (λ u. Ended) Always
    unfolding call_finalize
    finalize_and_save =
        Triple-bind (λ u. Over)
          record {
            at = λ w p.
                call_Over completed (s.finalize w.job) _ refl (finalize_completes w.job) refl;
          }
          λ u. save-Ended s

    fix_and_finalize-Ended : {P : Pred World} → Triple P (fix_and_finalize s) (λ u. Ended) Always
    unfolding fix_and_finalize
    fix_and_finalize-Ended = after _ λ u. after _ λ u. after _ λ u. finalize_and_save

    run-Ended : {P : Pred World} → Triple P (run s) (λ u. Ended) Always
    unfolding run
    run-Ended = after _ λ u. after _ λ u. after _ λ u. after _ λ u.
        after _ λ u.
          after _ λ u. after _ λ u. after _ λ u. after _ λ u. after _ λ u. fix_and_finalize-Ended

    run_cloud-Ended :
        {P : Pred World} (r : PowerOffResult) (copy : ℕ → M (Unit {0})) (m : Option CaptureMode)
        → Triple P (run_cloud s r copy m) (λ u. Ended) Always
    unfolding run_cloud
    run_cloud-Ended r copy none = unfold raise in record { at = λ w p. tt }
    run_cloud-Ended r copy (some m) = after _ λ u. after _ λ u. after _ λ u.
        after _ λ u.
          after _ λ u. after _ λ u. after _ λ u. after _ λ u. after _ λ u. fix_and_finalize-Ended

    logged_in-Ended :
        (b : Bool) {m : M (Unit {0})}
        → Triple Always m (λ u. Ended) Always
        → Triple Always (logged_in b m) (λ u. Ended) Always
    unfolding logged_in
    logged_in-Ended true h = h
    logged_in-Ended false h = unfold raise in record { at = λ w p. tt }

    run_kind-Ended : (k : JobKind) → Triple Always (run_kind s k) (λ u. Ended) Always
    unfolding run_kind run_azure run_gcp
    run_kind-Ended JobKind.azure = after _ λ j. logged_in-Ended _ (run_cloud-Ended _ _ _)
    run_kind-Ended JobKind.gcp = after _ λ j. logged_in-Ended _ (run_cloud-Ended _ _ _)
    run_kind-Ended JobKind.vmware = run-Ended
    run_kind-Ended JobKind.iso = run-Ended

module _ (s : Services)
    (finalize_completes : (j : Job)
      → (s.finalize j).0 ≡ ok tt
      → (s.finalize j).1.phase ≡ completed) where
  -- `_finalize_safely`: whatever `prov.finalize` does, no exception leaves the thread, and the job is in
  -- a terminal phase and saved as it is; `prov.finalize` leaves a job COMPLETED when it returns.
  pub guarded_finalize-EndsWell : (w : World) → EndsWell (guarded_finalize s w)
  unfolding guarded_finalize
  guarded_finalize-EndsWell w = ends_well _ w (
      Triple-try_catch Always (after _ λ u. after _ λ u. finalize_and_save s finalize_completes)
        (λ e. on_failure-Triple s e))

module _ (s : Services)
    (cleanup_cancels : (j : Job) → (s.cleanup j).0 ≡ ok tt → (s.cleanup j).1.phase ≡ cancelled)
    (release_keeps : (j : Job) → (s.release_left j).1.phase ≡ j.phase) where
  -- `_run_safely` from the wait for a slot on: whatever the services answer and whenever a cancel comes,
  -- no exception leaves the thread, and the job is in a terminal phase and saved as it is. A call of
  -- `prov.finalize` that returns leaves the job COMPLETED, one of `prov.cleanup` leaves it CANCELLED, and
  -- the release of a cloud's resources leaves the phase alone.
  pub guarded_run-EndsWell :
      ((j : Job) → (s.finalize j).0 ≡ ok tt → (s.finalize j).1.phase ≡ completed)
      → (waited : Outcome (Unit {0})) (w : World) → EndsWell (guarded_run s waited w)
  unfolding guarded_run
  guarded_run-EndsWell h waited w = ends_well _ w (
      Triple-try_catch Always (after _ λ u. after _ λ j. run_kind-Ended s h j.kind)
        (on_exception-Triple s _ (clean-Ended s release_keeps cleanup_cancels)))

  clean_kind-Ended :
      ((j : Job) → (s.iso_cleanup j).0 ≡ ok tt → (s.iso_cleanup j).1.phase ≡ cancelled)
      → (k : JobKind) → Triple Always (clean_kind s k) (λ u. Ended) Always
  unfolding clean_kind
  clean_kind-Ended h JobKind.iso = clean_iso-Ended s h
  clean_kind-Ended h JobKind.azure = clean-Ended s release_keeps cleanup_cancels
  clean_kind-Ended h JobKind.gcp = clean-Ended s release_keeps cleanup_cancels
  clean_kind-Ended h JobKind.vmware = clean-Ended s release_keeps cleanup_cancels

  -- `_cleanup_safely` of a job that the store has: no exception leaves the thread, and the job is in a
  -- terminal phase and saved as it is, also where the cleanup raises; a cleanup that returns leaves the
  -- job CANCELLED, and the release of a cloud's resources leaves the phase alone.
  pub guarded_cleanup-EndsWell :
      ((j : Job) → (s.iso_cleanup j).0 ≡ ok tt → (s.iso_cleanup j).1.phase ≡ cancelled)
      → (w : World) → EndsWell (guarded_cleanup s w)
  unfolding guarded_cleanup
  guarded_cleanup-EndsWell h w = ends_well _ w (
      Triple-try_catch Always (after _ λ j. clean_kind-Ended h j.kind) (λ e. incomplete-Triple s e))
