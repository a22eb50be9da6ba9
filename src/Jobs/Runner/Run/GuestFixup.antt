-- ===== src/Jobs/Runner/Run/GuestFixup.antt =====
-- The guest fix-up never fails a migration: `_guest_fixup` of helper/helper_app/jobs/runner.py.
use vmware_migration_helper.Base.{◌≡◌, refl, Bool, true, false, some, List, ◌∷◌, if◌then◌else◌}
use vmware_migration_helper.Jobs.Model.{Job, JobPhase, DiskState}
use vmware_migration_helper.Jobs.Actions.{Outcome, ok, raised, ◌>>=◌}
use vmware_migration_helper.Jobs.Runner.{Services, World, M, get_job, modify_job, save, save_phase}
use vmware_migration_helper.Jobs.Actions.Hoare.{
  Post, Triple, Triple-bind, Triple-try_catch, Always, Never, anything,
}
use vmware_migration_helper.Jobs.Runner.Run.{
  wants_nothing, first_or, boot_disk, fix_boot, fixup_of, guest_fixup,
}

-- It returns, whatever happened before.
abbrev Returns : M (Unit {0}) → Type 0
Returns m = Triple Always m (λ u. Always) Never

modify_job-Returns : (f : Job → Job) → Returns (modify_job f)
unfolding modify_job
modify_job-Returns f = record { at = λ w p. tt }

Returns-if : (b : Bool) {m n : M (Unit {0})} → Returns m → Returns n → Returns (if b then m else n)
Returns-if true h k = h
Returns-if false h k = k

module _ (s : Services) where
  save-Returns : Returns (save s)
  unfolding save
  save-Returns = record { at = λ w p. tt }

  save_phase-Returns : (p : JobPhase) → Returns (save_phase s p)
  unfolding save_phase
  save_phase-Returns p = Triple-bind (λ u. Always) (modify_job-Returns _) λ u. save-Returns

  fix_boot-Returns : (d : DiskState) → Returns (fix_boot s (some d))
  unfolding fix_boot
  fix_boot-Returns d = Returns-if _ (modify_job-Returns _) (
      Triple-bind (λ u. Always) (save_phase-Returns _)
        λ u.
          Triple-bind (λ u. Always) (Triple-try_catch Always anything (λ e. modify_job-Returns _))
            λ u. save-Returns)

  fixup_of-Returns :
      (j : Job) (d : DiskState) (ds : List DiskState) → j.disks ≡ d ∷ ds → Returns (fixup_of s j)
  unfolding fixup_of boot_disk
  fixup_of-Returns j d ds e = Returns-if j.vm_is_windows (modify_job-Returns _) (
      Returns-if (wants_nothing j) (modify_job-Returns _)
        (rw e (fix_boot-Returns (first_or d (d ∷ ds)))))

  of_Post : (r : Outcome (Unit {0}) × World) → Post (λ u. Always) Never r → r.0 ≡ ok tt
  of_Post (ok u, v) p = refl
  of_Post (raised e, v) p = absurd p

  -- `_guest_fixup` of a job that has a disk returns, whatever the guest fix-up answers: an exception of
  -- it is caught, and the migration goes on.
  pub guest_fixup-Returns :
      (w : World) (d : DiskState) (ds : List DiskState)
      → w.job.disks ≡ d ∷ ds
      → (guest_fixup s w).0 ≡ ok tt
  unfolding guest_fixup ◌>>=◌ get_job
  guest_fixup-Returns w d ds e =
      of_Post (fixup_of s w.job w) ((fixup_of-Returns w.job d ds e).at w tt)
