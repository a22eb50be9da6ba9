-- ===== src/Oci/Provision/Cleanup.antt =====
-- `Provisioner.cleanup` of helper/helper_app/oci/provision.py deletes each disk's volume and terminates the instance.
use vmware_migration_helper.Base.{
  ℕ, suc, ◌<◌, ◌≡◌, refl, sym, ap, ◌∙◌, arith, Bool, true, false, not, ◌||◌, Option, none, some,
  List, [], ◌∷◌, String, All, or_default, length,
}
use mathlib.Core.Option.{some-injective}
use native.Mathlib.Decide.{dec_lt}
use vmware_migration_helper.Jobs.Model.{Job, DiskState, cancelled}
use vmware_migration_helper.Jobs.Actions.{
  Outcome, ok, raised, Act, ◌>>=◌, ◌>>◌, skip, when, recover, try_catch,
}
use vmware_migration_helper.Jobs.Actions.Hoare.{
  Pred, Post, Triple, Keeps, Triple-bind, Triple-Keeps, Triple-try_catch, Triple-from, Triple-when,
  Never,
}
use vmware_migration_helper.Oci.Provision.{
  Site, Event, Cloud, Call, terminate_instance, delete_boot_volume, delete_volume, Reply, is_set,
  disk_at, get_job, change, save, request,
}
use vmware_migration_helper.Oci.Provision.Finish.{
  attempt, detach_from_target, terminate, delete_call, delete, cleanup,
}
use vmware_migration_helper.Oci.Provision.Rules.{Found, Triple-each, Triple-on_disk}
use vmware_migration_helper.Oci.Provision.Ledger.{Booked, creates, kept_other, all_extend, Extends}
use vmware_migration_helper.Oci.Provision.Leaks.{detach_all-Booked, free_target-Booked}
use vmware_migration_helper.Oci.Provision.Reclaim.{
  deletes, Reclaimed, gone, ended, still, string_refl, all_reclaimed,
}

-- The first disks of the job are gone.
abbrev Upto : Job → ℕ → List Event → Type 0
Upto j k t = (n : ℕ) → n < k → (d : DiskState) → disk_at n j.disks ≡ some d → gone t d ≡ true

all_of_upto :
    (t : List Event) (ds : List DiskState)
    → ((n : ℕ) → n < length ds → (d : DiskState) → disk_at n ds ≡ some d → gone t d ≡ true)
    → All (λ d. gone t d ≡ true) ds
all_of_upto t [] h = tt
all_of_upto t (d ∷ ds) h =
    (h 0 (omega arith) d refl, all_of_upto t ds (λ n lt. h (suc n) (omega arith)))

abbrev logged : (c : Call) → Outcome (Reply c) → Site → Site
logged c r w = record w { trace = record { call = c; reply = r } ∷ w.trace }

recovered :
    (Q : Unit {0} → Pred Site) (r : Outcome (Unit {0})) (w : Site)
    → Q tt w
    → Post Q Never (recover (λ e. skip) (r, w))
unfolding skip
recovered Q (ok u) w q = q
recovered Q (raised e) w q = q

module _ {P : Pred Site} {Q : Unit {0} → Pred Site} (o : Cloud) where
  -- A single call, whatever it answers.
  attempt_delete :
      (b : Bool) (id : Option String)
      → ((w : Site) (r : Outcome (Unit {0})) → P w → Q tt (logged (delete_boot_volume id) r w))
      → ((w : Site) (r : Outcome (Unit {0})) → P w → Q tt (logged (delete_volume id) r w))
      → Triple P (attempt (delete_call o b id)) Q Never
  unfolding attempt try_catch delete_call request
  attempt_delete true id h k = record { at = λ w p. recovered Q _ _ (h w _ p) }
  attempt_delete false id h k = record { at = λ w p. recovered Q _ _ (k w _ p) }

  attempt_terminate :
      (id : Option String)
      → ((w : Site) (r : Outcome (Unit {0})) → P w → Q tt (logged (terminate_instance id) r w))
      → Triple P (attempt (request o (terminate_instance id))) Q Never
  unfolding attempt try_catch request
  attempt_terminate id h = record { at = λ w p. recovered Q _ _ (h w _ p) }

-- A call that creates nothing, in the ledger.
Booked-log :
    (c : Call) (r : Outcome (Reply c)) (w : Site)
    → creates c ≡ false
    → Booked w
    → Booked (logged c r w)
Booked-log c r w h p = record {
  live = (kept_other w.job c r h, p.live);
  stored = (kept_other w.saved c r h, p.stored);
}

-- During the deletions: the job stays as it is, its instance is stopped, and `k` disks are done.
record Deleting (j : Job) (k : ℕ) (w : Site) : Type 0 where
  booked : Booked w
  same : w.job ≡ j
  stopped : ended w.trace j ≡ true
  done : Upto j k w.trace

log_Upto :
    (j : Job) (k : ℕ) (c : Call) (r : Outcome (Reply c)) (w : Site)
    → Upto j k w.trace
    → Upto j k (logged c r w).trace
log_Upto j k c r w h n lt d e = still (not (is_set d.volume_id)) _ _ (h n lt d e)

Upto-suc :
    (j : Job) (k : ℕ) (t : List Event)
    → ((d : DiskState) → disk_at k j.disks ≡ some d → gone t d ≡ true)
    → Upto j k t
    → Upto j (suc k) t
Upto-suc j k t last before n lt d e = elim (dec_lt n k) [
  | yes below ↦ before n below d e
  | no stop ↦ let at : n ≡ k = omega arith in last d (rw (← at) e)
]

true_or : (a b c : Bool) → b ≡ true → (a || (b || c)) ≡ true
true_or a b c h = ground arith

module _ (j : Job) (k : ℕ) where
  -- One more disk is done, by a call or because it has no volume.
  Deleting-suc :
      (w : Site) (found : Option DiskState)
      → ((d : DiskState) → found ≡ some d → gone w.trace d ≡ true)
      → Found (Deleting j k) k found w
      → Deleting j (suc k) w
  Deleting-suc w found g (p, e) = record {
    booked = p.booked;
    same = p.same;
    stopped = p.stopped;
    done = Upto-suc j k w.trace (λ d f. g d (sym e ∙ rw p.same f)) p.done;
  }

  delete_logged :
      (d : DiskState) (c : Call) (r : Outcome (Reply c)) (w : Site)
      → creates c ≡ false
      → deletes (or_default d.volume_id "") c ≡ true
      → Found (Deleting j k) k (some d) w
      → Deleting j (suc k) (logged c r w)
  delete_logged d c r w h g (p, e) =
      Deleting-suc (logged c r w) (some d)
        (λ x f. rw (← some-injective _ _ f) (true_or (not (is_set d.volume_id)) _ _ g))
        (
          record {
            booked = Booked-log c r w h p.booked;
            same = p.same;
            stopped = still (not (is_set j.instance_id)) _ _ p.stopped;
            done = log_Upto j k c r w p.done;
          },
          e,
        )

  no_volume : (w : Site) (d : DiskState) → is_set d.volume_id ≡ false → gone w.trace d ≡ true
  no_volume w d e = rw e refl

  delete-Deletes : (o : Cloud) → Triple (Deleting j k) (delete o k) (λ u. Deleting j (suc k)) Never
  unfolding delete skip
  delete-Deletes o =
      Triple-on_disk k _ (λ w p. Deleting-suc w none (λ d f. absurd (cc f)) p)
        λ d. delete_when d (is_set d.volume_id) refl
    where
      delete_when :
          (d : DiskState) (b : Bool)
          → is_set d.volume_id ≡ b
          → Triple
              (Found (Deleting j k) k (some d))
              (when b (attempt (delete_call o d.is_boot d.volume_id)))
              (λ u. Deleting j (suc k))
              Never
      delete_when d true e =
          attempt_delete o d.is_boot d.volume_id
            (λ w r p. delete_logged d _ r w refl (string_refl _) p)
            (λ w r p. delete_logged d _ r w refl (string_refl _) p)
      delete_when d false e = record {
        at =
            λ w p. Deleting-suc w (some d) (λ x f. rw (← some-injective _ _ f) (no_volume w d e)) p;
      }

attempt-Booked :
    (m : Act Site (Unit {0})) → Keeps Booked m → Triple Booked (attempt m) (λ u. Booked) Never
unfolding attempt skip
attempt-Booked m h = Triple-try_catch Booked (Triple-Keeps h) (λ e. record { at = λ w p. p })

-- What is known once the instance is asked to stop.
record Stopped (w : Site) : Type 0 where
  booked : Booked w
  stopped : ended w.trace w.job ≡ true

terminate_logged :
    (j : Job) (r : Outcome (Unit {0})) (w : Site)
    → Booked w × (w.job ≡ j)
    → Stopped (logged (terminate_instance j.instance_id) r w)
terminate_logged j r w (p, e) = record {
  booked = Booked-log _ r w refl p;
  stopped =
      rw (ap (λ i. or_default i.instance_id "") e)
        (true_or (not (is_set j.instance_id)) _ _ (string_refl (or_default j.instance_id "")));
}

read_job : {P E : Pred Site} → Triple P get_job (λ j w. P w × (w.job ≡ j)) E
unfolding get_job
read_job = record { at = λ w p. (p, refl) }

-- All that `cleanup` promises.
pub record Cleaned (w : Site) : Type 0 where
  pub phase : w.job.phase ≡ cancelled
  pub saved : w.saved ≡ w.job
  pub booked : Booked w
  pub gone : All (Reclaimed w.trace) w.trace

module _ (o : Cloud) where
  terminate-Stopped : Triple Booked (terminate o) (λ u. Stopped) Never
  unfolding terminate skip
  terminate-Stopped =
      Triple-bind (λ j w. Booked w × (w.job ≡ j)) read_job
        λ j. terminate_when j (is_set j.instance_id) refl
    where
      terminate_when :
          (j : Job) (b : Bool)
          → is_set j.instance_id ≡ b
          → Triple
              (λ w. Booked w × (w.job ≡ j))
              (when b (attempt (request o (terminate_instance j.instance_id))))
              (λ u. Stopped)
              Never
      terminate_when j true e =
          attempt_terminate o j.instance_id (λ w r p. terminate_logged j r w p)
      terminate_when j false e = record {
        at = λ w p. record { booked = p.0; stopped = rw (p.1, e) refl };
      }

  detach_data-Booked : (k : ℕ) → Triple Booked (detach_from_target o k) (λ u. Booked) Never
  unfolding detach_from_target
  detach_data-Booked k =
      Triple-on_disk k _ (λ w p. p.0)
        λ d.
          Triple-from (λ w p. p.0)
            (Triple-when _ (λ w p. p) λ e. attempt-Booked _ (free_target-Booked o k d))

  same_things : {i : Job} → Extends i (record i { phase = cancelled })
  same_things = record { instance_kept = λ id s h. h; volumes_kept = λ id s h. h }

  finish_cleanup :
      (j : Job)
      → Triple
          (Deleting j (length j.disks))
          (change (λ i. record i { phase = cancelled }) >> save)
          (λ u. Cleaned)
          Never
  unfolding change save ◌>>=◌
  finish_cleanup j = record {
    at = λ w p. record {
      phase = refl;
      saved = refl;
      booked = record {
        live = all_extend {j = w.job} same_things w.trace p.booked.live;
        stored = all_extend {j = w.job} same_things w.trace p.booked.live;
      };
      gone =
          all_reclaimed j w.trace (all_of_upto w.trace j.disks p.done) p.stopped w.trace
            (rw (← p.same) p.booked.live);
    };
  }

  pub cleanup-Triple : Triple Booked (cleanup o) (λ u. Cleaned) Never
  unfolding cleanup
  cleanup-Triple =
      Triple-bind (λ u. Booked) (attempt-Booked _ (detach_all-Booked o))
        λ u.
          Triple-bind (λ j w. Booked w × (w.job ≡ j)) read_job
            λ j.
              Triple-bind (λ u. Booked)
                (Triple-from (λ w p. p.0)
                  (Triple-each (λ k. Booked) _ detach_data-Booked _ 1 _ refl))
                λ u.
                  Triple-bind (λ u. Stopped) terminate-Stopped
                    λ u.
                      Triple-bind (λ i w. Stopped w × (w.job ≡ i)) read_job
                        λ i.
                          Triple-bind (λ u. Deleting i (length i.disks))
                            (Triple-from
                              (λ w p. record {
                                booked = p.0.booked;
                                same = p.1;
                                stopped = rw (← p.1) p.0.stopped;
                                done = λ n lt. absurd (omega arith);
                              })
                              (Triple-each (Deleting i) _ (λ k. delete-Deletes i k o)
                                (length i.disks) 0 _ (omega arith)))
                            λ u. finish_cleanup i
