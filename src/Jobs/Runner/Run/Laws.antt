-- ===== src/Jobs/Runner/Run/Laws.antt =====
-- A migration finalizes its target only with every disk copied: `_run`, `_run_azure` and `_run_gcp` of
-- helper/helper_app/jobs/runner.py.
use vmware_migration_helper.Base.{
  ℕ, zero, suc, ◌+◌, ◌≡◌, refl, ap, Bool, true, false, Option, none, some, List, [], ◌∷◌, arith,
  length, All, if◌then◌else◌,
}
use mathlib.Core.Path.{subst}
use vmware_migration_helper.Jobs.Model.{
  Job, JobPhase, DiskState, TransferStats, PowerOffResult, CaptureMode, Fixup, export_error,
  other_error,
}
use vmware_migration_helper.Jobs.Actions.{Outcome, ◌>>=◌, ◌>>◌, skip}
use vmware_migration_helper.Jobs.Runner.{
  Services, World, M, get_job, modify_job, modify_transfer, save, save_phase, check_cancel, call,
  call_on_job, call_finalize, call_stop,
}
use vmware_migration_helper.Jobs.Runner.Rules.{Keeps-get_job, runner_rules}
use vmware_migration_helper.Jobs.Actions.Hoare.{
  Pred, Triple, Keeps, Triple-bind, Triple-Keeps, state-Triple, Keeps-Triple, Triple-try_finally,
  Triple-weaken, Keeps-bind, Keeps-skip, Keeps-raise, Keeps-if, Keeps-try_catch,
}
use vmware_migration_helper.Jobs.Runner.Copy.{export_disk}
use vmware_migration_helper.Jobs.Runner.Copy.Laws.{
  AllCopied, CopiedUpTo, CopyInv, Copies, export_disk-Copies, copy_azure_disk-Copies,
  copy_gcp_disk-Copies,
}
use vmware_migration_helper.Jobs.Runner.Run.{
  copied_at, copy_disks, get_now, transfer_disks, set_streams, stop_source, power_off_vmware,
  capture_cloud, all_steps, record_fixups, boot_disk, fix_boot, fixup_of, guest_fixup,
  fix_and_finalize, run, run_cloud, logged_in, run_azure, run_gcp, powered, windows_steps,
  wants_nothing,
}

-- Every call of `prov.finalize` so far found all of its job's disks copied; and if the flag is true, all
-- disks are copied now.
pub record RunInv (b : Bool) (w : World) : Type 0 where
  pub finalized_copied : All (λ j. AllCopied j.disks) w.finalized
  pub ready : b ≡ true → AllCopied w.job.disks

-- Every job that `prov.finalize` was called with had all of its disks copied.
abbrev pub FinalizesCopied : World → Type 0
FinalizesCopied w = All (λ j. AllCopied j.disks) w.finalized

CopiedUpTo-AllCopied : (ds : List DiskState) → CopiedUpTo (length ds) ds → AllCopied ds
CopiedUpTo-AllCopied [] h = tt
CopiedUpTo-AllCopied (d ∷ ds) h = (h.0, CopiedUpTo-AllCopied ds h.1)

copied_at-CopiedUpTo :
    (k : ℕ) (ds : List DiskState) → copied_at k ds ≡ true → CopiedUpTo k ds → CopiedUpTo (suc k) ds
unfolding copied_at
copied_at-CopiedUpTo k [] e h = tt
copied_at-CopiedUpTo zero (d ∷ ds) e h = (e, tt)
copied_at-CopiedUpTo (suc k) (d ∷ ds) e h = (h.0, copied_at-CopiedUpTo k ds e h.1)

module _ {b : Bool} where
  Keeps-modify_job :
      (f : Job → Job) → ((j : Job) → (f j).disks ≡ j.disks) → Keeps (RunInv b) (modify_job f)
  unfolding modify_job
  Keeps-modify_job f same = record {
    at = λ w h. record {
      finalized_copied = h.finalized_copied;
      ready = λ e. rw (same w.job) (h.ready e);
    };
  }

  Keeps-modify_transfer : (f : TransferStats → TransferStats) → Keeps (RunInv b) (modify_transfer f)
  unfolding modify_transfer modify_job
  Keeps-modify_transfer f = Keeps-modify_job _ (λ j. refl)

  Keeps-get_now : Keeps (RunInv b) get_now
  unfolding get_now
  Keeps-get_now = record { at = λ w h. h }

  Keeps-save : (s : Services) → Keeps (RunInv b) (save s)
  unfolding save
  Keeps-save s = record {
    at = λ w h. record { finalized_copied = h.finalized_copied; ready = h.ready };
  }

  Keeps-save_phase : (s : Services) (p : JobPhase) → Keeps (RunInv b) (save_phase s p)
  unfolding save_phase
  Keeps-save_phase s p = Keeps-bind _ _ (Keeps-modify_job _ (λ j. refl)) (λ u. Keeps-save s)

  Keeps-check_cancel : (s : Services) → Keeps (RunInv b) (check_cancel s)
  unfolding check_cancel
  Keeps-check_cancel s = record {
    at = λ w h. record { finalized_copied = h.finalized_copied; ready = h.ready };
  }

  Keeps-call : {A : Type 0} (s : Services) (f : Job → Outcome A) → Keeps (RunInv b) (call s f)
  unfolding call
  Keeps-call s f = record { at = λ w h. h }

  Keeps-call_stop :
      {A : Type 0} (s : Services) (f : Job → Outcome A) → Keeps (RunInv b) (call_stop s f)
  unfolding call_stop
  Keeps-call_stop s f = record {
    at = λ w h. record { finalized_copied = h.finalized_copied; ready = h.ready };
  }

  Keeps-stop_source :
      (off wanted : Bool) (stop : M (Unit {0}))
      → Keeps (RunInv b) stop
      → Keeps (RunInv b) (stop_source off wanted stop)
  unfolding stop_source
  Keeps-stop_source true true stop h = Keeps-modify_job _ (λ j. refl)
  Keeps-stop_source true false stop h = Keeps-skip
  Keeps-stop_source false true stop h = h
  Keeps-stop_source false false stop h = Keeps-raise export_error

ruleset run_rules = (
  runner_rules, Keeps-modify_transfer, Keeps-get_now, Keeps-save, Keeps-save_phase,
  Keeps-check_cancel, Keeps-call, Keeps-call_stop, Keeps-stop_source,
)

module _ (s : Services) {b : Bool} where
  power_off_vmware-Keeps : Keeps (RunInv b) (power_off_vmware s)
  unfolding power_off_vmware
  power_off_vmware-Keeps =
      search (run_rules, λ (r : PowerOffResult). Keeps-modify_job {b = b} (powered r) (λ j. refl))
        depth 12

  capture_cloud-Keeps :
      (r : PowerOffResult) (m : CaptureMode) → Keeps (RunInv b) (capture_cloud s r m)
  unfolding capture_cloud
  capture_cloud-Keeps r CaptureMode.snapshot =
      Keeps-bind _ _ (Keeps-call s _) (λ off. Keeps-modify_job _ (λ j. refl))
  capture_cloud-Keeps r CaptureMode.stop = Keeps-bind _ _ (Keeps-call s _) λ off.
      Keeps-bind _ _ (Keeps-modify_job _ (λ j. refl)) λ u. Keeps-bind _ _ Keeps-get_job λ j.
        Keeps-stop_source off j.power_off_source _ (
          Keeps-bind _ _ (Keeps-save s) λ u.
            Keeps-bind _ _ (Keeps-call_stop s _)
              λ u. Keeps-bind _ _ (Keeps-modify_job (powered r) (λ j. refl)) λ u. Keeps-save s)

  fix_boot-Keeps : (d : Option DiskState) → Keeps (RunInv b) (fix_boot s d)
  unfolding fix_boot all_steps record_fixups
  fix_boot-Keeps none = Keeps-raise other_error
  fix_boot-Keeps (some d) = Keeps-if _ _ _ (Keeps-modify_job _ (λ j. refl)) (
      Keeps-bind _ _ (Keeps-save_phase s _) λ u.
        Keeps-bind _ _
          (Keeps-try_catch _ _ (Keeps-bind _ _ (Keeps-call s _) λ r. Keeps-modify_job _ (λ j. refl))
            (λ e. Keeps-modify_job _ (λ j. refl)))
          (λ u. Keeps-save s))

  fixup_of-Keeps : (j : Job) → Keeps (RunInv b) (fixup_of s j)
  unfolding fixup_of all_steps
  fixup_of-Keeps j = Keeps-if j.vm_is_windows _ _ (Keeps-modify_job windows_steps (λ i. refl)) (
      Keeps-if (wants_nothing j) _ _ (Keeps-modify_job (all_steps Fixup.skipped) (λ i. refl))
        (fix_boot-Keeps (boot_disk j.disks)))

  guest_fixup-Keeps : Keeps (RunInv b) (guest_fixup s)
  unfolding guest_fixup
  guest_fixup-Keeps = Keeps-bind _ _ Keeps-get_job fixup_of-Keeps

-- Forget that all disks are copied.
forget : (w : World) → RunInv true w → RunInv false w
forget w h = record { finalized_copied = h.finalized_copied; ready = λ e. absurd (cc e) }

of_copy : {k n : ℕ} (w : World) → CopyInv k n w → RunInv false w
of_copy w h = record { finalized_copied = h.finalized_copied; ready = λ e. absurd (cc e) }

-- The state in which a job was just read.
abbrev Read : Pred World → Job → Pred World
Read P j w = P w × (w.job ≡ j)

get_job-Read : {P E : Pred World} → Triple P get_job (Read P) E
unfolding get_job
get_job-Read = record { at = λ w h. (h, refl) }

-- The provisioner may change the disks, before any is known to be copied.
Keeps-call_on_job :
    (s : Services) (f : Job → Outcome (Unit {0}) × Job) → Keeps (RunInv false) (call_on_job s f)
unfolding call_on_job
Keeps-call_on_job s f = record {
  at = λ w h. record { finalized_copied = h.finalized_copied; ready = λ e. absurd (cc e) };
}

module _ (s : Services) where
  -- With all disks copied, the target may be finalized.
  call_finalize-Triple : Triple (RunInv true) (call_finalize s) (λ u. RunInv false) (RunInv false)
  unfolding call_finalize
  call_finalize-Triple = state-Triple λ w h. record {
    finalized_copied = (h.ready refl, h.finalized_copied);
    ready = λ e. absurd (cc e);
  }

  keeping :
      {b : Bool} {A : Type 0} {m : M A}
      → Keeps (RunInv b) m
      → Triple (RunInv b) m (λ a. RunInv b) (RunInv false)
  keeping {b = true} h = Triple-weaken (RunInv true) (RunInv false) forget (Triple-Keeps h)
  keeping {b = false} h = Triple-Keeps h

  after :
      {b : Bool} {A B : Type 0} {m : M A} {f : A → M B} {Q : B → Pred World}
      → Keeps (RunInv b) m
      → ((a : A) → Triple (RunInv b) (f a) Q (RunInv false))
      → Triple (RunInv b) (m >>= f) Q (RunInv false)
  after {b} h k = Triple-bind (λ u. RunInv b) (keeping h) k

  fix_and_finalize-Triple :
      Triple (RunInv true) (fix_and_finalize s) (λ u. RunInv false) (RunInv false)
  unfolding fix_and_finalize
  fix_and_finalize-Triple = after (Keeps-check_cancel s) λ u. after (guest_fixup-Keeps s) λ u.
      after (Keeps-save_phase s _)
        λ u. Triple-bind (λ u. RunInv false) call_finalize-Triple λ u. keeping (Keeps-save s)

  copy_check :
      {k n : ℕ} (copy : ℕ → M (Unit {0})) (j : Job)
      → Triple (Read (CopyInv k n) j) (check_cancel s) (λ u. CopyInv k n) (RunInv false)
  unfolding check_cancel
  copy_check {k} {n} copy j = Triple-weaken (CopyInv k n) (RunInv false) of_copy (
      state-Triple λ w h. record {
        count = h.0.count;
        before = h.0.before;
        finalized_copied = h.0.finalized_copied;
      })

  next_disk :
      {k n : ℕ} (copy : ℕ → M (Unit {0})) (j : Job) (b : Bool)
      → copied_at k j.disks ≡ b
      → Copies k n (copy k)
      → Triple
          (Read (CopyInv k n) j)
          (if b then skip else (check_cancel s >> copy k))
          (λ u. CopyInv (suc k) n)
          (RunInv false)
  next_disk copy j true e h =
      unfold skip in
      record {
        at = λ w h. record {
          count = h.0.count;
          before = copied_at-CopiedUpTo _ w.job.disks (rw h.1 e) h.0.before;
          finalized_copied = h.0.finalized_copied;
        };
      }
  next_disk {k} {n} copy j false e h =
      Triple-bind (λ u. CopyInv k n) (copy_check copy j)
        λ u. Triple-weaken (CopyInv k n) (RunInv false) of_copy h

  copy_disks-Triple :
      {n : ℕ} (copy : ℕ → M (Unit {0}))
      → ((k : ℕ) → Copies k n (copy k))
      → (left k total : ℕ) → k + left ≡ total
      → Triple (CopyInv k n) (copy_disks s copy left k) (λ u. CopyInv total n) (RunInv false)
  unfolding copy_disks skip
  copy_disks-Triple {n} copy h zero k total e = record {
    at = λ w p. subst (λ i. CopyInv i n w) (omega arith) p;
  }
  copy_disks-Triple {n} copy h (suc left) k total e =
      Triple-bind (Read (CopyInv k n)) get_job-Read λ j.
        Triple-bind (λ u. CopyInv (suc k) n) (next_disk copy j _ refl (h k))
          λ u. copy_disks-Triple copy h left (suc k) total (omega arith)

  -- After the last disk.
  mark_full :
      {n : ℕ} (f : TransferStats → TransferStats)
      → Triple (CopyInv n n) (modify_transfer f) (λ u. RunInv true) (RunInv false)
  unfolding modify_transfer modify_job
  mark_full f = record {
    at = λ w h. record {
      finalized_copied = h.finalized_copied;
      ready = λ e. CopiedUpTo-AllCopied w.job.disks (rw h.count h.before);
    };
  }

  start_copy :
      (copy : ℕ → M (Unit {0})) (j : Job)
      → ((k n : ℕ) → Copies k n (copy k))
      → Triple
          (Read (RunInv false) j)
          (copy_disks s copy (length j.disks) 0)
          (λ u. CopyInv (length j.disks) (length j.disks))
          (RunInv false)
  start_copy copy j h = record {
    at = λ w p.
        (copy_disks-Triple copy (λ k. h k (length j.disks)) (length j.disks) 0 (length j.disks)
            (omega arith)).at
          w
          record {
            count = ap (λ i. length i.disks) p.1;
            before = tt;
            finalized_copied = p.0.finalized_copied;
          };
  }

  transfer_disks-Triple :
      (copy : ℕ → M (Unit {0}))
      → ((k n : ℕ) → Copies k n (copy k))
      → Triple (RunInv false) (transfer_disks s copy) (λ u. RunInv true) (RunInv false)
  unfolding transfer_disks
  transfer_disks-Triple copy h = after Keeps-get_now λ now. after (Keeps-modify_transfer _) λ u.
      after (Keeps-save s) λ u.
        Triple-try_finally
          (Triple-bind (Read (RunInv false)) get_job-Read λ j.
            Triple-bind (λ u. CopyInv (length j.disks) (length j.disks)) (start_copy copy j h)
              λ u. mark_full _)
          (λ u. keeping (search run_rules)) (search run_rules)

  -- Any change of the disks, before they are copied.
  set_disks :
      (f : List DiskState → List DiskState)
      → Triple
          (RunInv false)
          (modify_job (λ j. record j { disks = f j.disks }))
          (λ u. RunInv false)
          (RunInv false)
  unfolding modify_job
  set_disks f = record {
    at = λ w h. record { finalized_copied = h.finalized_copied; ready = λ e. absurd (cc e) };
  }

  -- The part of the three methods from the copy on: the copy, the release of the export, and the last steps.
  run_cloud-Triple :
      (r : PowerOffResult) (copy : ℕ → M (Unit {0})) (m : Option CaptureMode)
      → ((k n : ℕ) → Copies k n (copy k))
      → Triple (RunInv false) (run_cloud s r copy m) (λ u. RunInv false) (RunInv false)
  unfolding run_cloud
  run_cloud-Triple r copy none h = keeping (Keeps-raise export_error)
  run_cloud-Triple r copy (some m) h = after (Keeps-save_phase s _) λ u.
      after (Keeps-call_on_job s _) λ u. after (Keeps-check_cancel s) λ u.
        after (Keeps-save_phase s _) λ u. after (capture_cloud-Keeps s r m) λ u.
          after (Keeps-save s) λ u. after (Keeps-call s _) λ u.
            Triple-bind (λ u. RunInv true)
              (Triple-try_finally (transfer_disks-Triple copy h) (λ u. keeping (Keeps-call s _))
                (Keeps-call s _))
              λ u. after (Keeps-save s) λ u. fix_and_finalize-Triple

  run-Triple : Triple (RunInv false) (run s) (λ u. RunInv false) (RunInv false)
  unfolding run
  run-Triple = after (Keeps-save_phase s _) λ u. after (Keeps-call_on_job s _) λ u.
      after (Keeps-check_cancel s) λ u. after (Keeps-save_phase s _) λ u.
        after (power_off_vmware-Keeps s) λ u. after (Keeps-call s _) λ host.
          after (Keeps-modify_job _ (λ j. refl)) λ u. after (Keeps-save s) λ u.
            after (Keeps-call s _) λ sizes.
              Triple-bind (λ u. RunInv true)
                (Triple-try_finally
                  (Triple-bind (λ u. RunInv false) (set_disks (set_streams sizes))
                    λ u. transfer_disks-Triple (export_disk s) (λ k n. export_disk-Copies s))
                  (λ u. keeping (Keeps-call s _)) (Keeps-call s _))
                λ u. fix_and_finalize-Triple

  of_inv :
      {m : M (Unit {0})}
      → Triple (RunInv false) m (λ u. RunInv false) (RunInv false)
      → Keeps FinalizesCopied m
  of_inv h = record {
    at = λ w p.
        ((Keeps-Triple h).at w
          record { finalized_copied = p; ready = λ e. absurd (cc e) }).finalized_copied;
  }

  -- `_run` calls `prov.finalize` only while every disk of the job is COPIED, whatever the services answer,
  -- whenever a cancel comes, and whether the method returns or raises: if it held of the calls before,
  -- it holds of all calls afterwards.
  pub run-FinalizesCopied : Keeps FinalizesCopied (run s)
  run-FinalizesCopied = of_inv run-Triple

  logged_in-Triple :
      (b : Bool) (m : M (Unit {0}))
      → Triple (RunInv false) m (λ u. RunInv false) (RunInv false)
      → Triple (RunInv false) (logged_in b m) (λ u. RunInv false) (RunInv false)
  unfolding logged_in
  logged_in-Triple true m h = h
  logged_in-Triple false m h = keeping (Keeps-raise export_error)

  -- `_run_azure` calls `prov.finalize` only while every disk of the job is COPIED, whatever the services
  -- answer, whenever a cancel comes, and whether the method returns or raises: if it held of the calls
  -- before, it holds of all calls afterwards.
  pub run_azure-FinalizesCopied : Keeps FinalizesCopied (run_azure s)
  unfolding run_azure
  run_azure-FinalizesCopied = of_inv (
      after Keeps-get_job
        λ j. logged_in-Triple _ _ (run_cloud-Triple _ _ _ (λ k n. copy_azure_disk-Copies s)))

  -- `_run_gcp` calls `prov.finalize` only while every disk of the job is COPIED, whatever the services
  -- answer, whenever a cancel comes, and whether the method returns or raises: if it held of the calls
  -- before, it holds of all calls afterwards.
  pub run_gcp-FinalizesCopied : Keeps FinalizesCopied (run_gcp s)
  unfolding run_gcp
  run_gcp-FinalizesCopied = of_inv (
      after Keeps-get_job
        λ j. logged_in-Triple _ _ (run_cloud-Triple _ _ _ (λ k n. copy_gcp_disk-Copies s)))
