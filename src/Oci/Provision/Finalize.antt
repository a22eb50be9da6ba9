-- ===== src/Oci/Provision/Finalize.antt =====
-- `Provisioner.finalize` of helper/helper_app/oci/provision.py.
use vmware_migration_helper.Base.{
  ℕ, suc, ◌+◌, ◌-◌, ◌≡◌, refl, ◌∙◌, arith, Bool, true, false, not, List, [], ◌∷◌, any, all, All,
  length,
}
use vmware_migration_helper.Jobs.Model.{Job, DiskState, completed, finalizing, is_copied}
use vmware_migration_helper.Jobs.Actions.{Outcome, ok, raised, ◌>>=◌, skip, lift}
use vmware_migration_helper.Jobs.Actions.Hoare.{
  Pred, Post, Triple, Triple-bind, Triple-from, Triple-to, Triple-weaken, Always,
}
use vmware_migration_helper.Oci.Provision.{
  Site, Cloud, is_set, data_disks, change, save, get_job, refuse_if,
}
use vmware_migration_helper.Oci.Provision.Prepare.{set_target}
use vmware_migration_helper.Oci.Provision.Finish.{
  has_pending, attach_pending, attach_data_disks, move_to_target, complete, finalize,
}
use vmware_migration_helper.Oci.Provision.Rules.{OfJob, Triple-each, Keeps-save_job}
use vmware_migration_helper.Oci.Provision.Positions.{Upto, All-Upto, length-modify}
use vmware_migration_helper.Oci.Provision.Rounds.{
  Broken, change-Triple, start_target_job, settle_job, quietly, Round, round-Triple,
}
use vmware_migration_helper.Oci.Provision.Outcomes.{
  OffHelper, OnTarget, set_some, Copied, Fine, Freed, set_target-Freed, read_size,
  detach_all-Triple, attach_to_target-Triple, attach_boot_to_target-Triple,
}

on_target :
    (ds : List DiskState)
    → any (λ d. not (is_set d.target_attachment_id)) ds ≡ false
    → All OnTarget ds
on_target [] e = tt
on_target (d ∷ ds) e = (set_some d.target_attachment_id (ground arith), on_target ds (ground arith))

join_first :
    (ds : List DiskState)
    → Upto OnTarget 1 ds
    → any (λ d. not (is_set d.target_attachment_id)) (data_disks ds) ≡ false
    → All OnTarget ds
join_first [] h e = tt
join_first (d ∷ ds) h e = (h 0 (omega arith) d refl, on_target ds e)

-- What is known of the job when all disks are on the target.
abbrev Attached : Job → Type 0
Attached j = Freed j × All OnTarget j.disks

module _ (o : Cloud) where
  attach_pending-Triple :
      (n k : ℕ)
      → Triple
          (OfJob (Round (λ j. Freed j × (length j.disks ≡ n)) OnTarget k))
          (attach_pending o k)
          (λ u. OfJob (Round (λ j. Freed j × (length j.disks ≡ n)) OnTarget (suc k)))
          Broken
  unfolding attach_pending
  attach_pending-Triple n k =
      round-Triple k _ _ (λ d e. set_some d.target_attachment_id e)
        λ d.
          quietly (λ j p. p.0.0.0.0) Keeps-save_job
            λ u.
              attach_to_target-Triple o _ k false (λ j p. p.0.0.0)
                (λ id j p.
                  (set_target-Freed k id j p.0, length-modify (set_target id) k j.disks ∙ p.1))

  attach_when :
      (i : Job) (b : Bool)
      → has_pending i ≡ b
      → Triple
          (OfJob (λ x. Round Freed OnTarget 1 x × (x ≡ i)))
          (attach_data_disks o b)
          (λ u. OfJob Attached)
          Broken
  unfolding attach_data_disks skip
  attach_when i false e = record {
    at = λ w p. record {
      on_job = (p.on_job.0.0, join_first w.job.disks p.on_job.0.1 (rw p.on_job.1 e));
    };
  }
  attach_when i true e =
      Triple-from (λ w p. record { on_job = p.on_job.0 })
        (quietly (λ j p. p.0.0.0) (start_target_job o)
          λ u. read_size o λ j.
            Triple-from
              (λ w p. record { on_job = ((p.on_job.0.0, rw p.on_job.1 refl), p.on_job.0.1) })
              (Triple-to
                (λ u w p. record {
                  on_job = (
                    p.on_job.0.0,
                    All-Upto OnTarget w.job.disks
                        (λ n lt. p.on_job.1 n (omega (arith, p.on_job.0.1))),
                  );
                })
                (Triple-each
                  (λ k. OfJob (Round (λ x. Freed x × (length x.disks ≡ length j.disks)) OnTarget k))
                  _ (attach_pending-Triple (length j.disks)) (length j.disks - 1) 1
                  (1 + (length j.disks - 1)) refl)))

-- What holds when `finalize` returns.
pub record Finalized (w : Site) : Type 0 where
  pub phase : w.job.phase ≡ completed
  pub saved : w.saved ≡ w.job
  pub copied : All Copied w.job.disks
  pub off_helper : All OffHelper w.job.disks
  pub on_target : All OnTarget w.job.disks

complete-Triple : {E : Pred Site} → Triple (OfJob Attached) complete (λ u. Finalized) E
unfolding complete change save ◌>>=◌
complete-Triple = record {
  at = λ w p. record {
    phase = refl;
    saved = refl;
    copied = p.on_job.0.0.1;
    off_helper = p.on_job.0.1;
    on_target = p.on_job.1;
  };
}

all-Copied : (ds : List DiskState) → all (λ d. is_copied d.status) ds ≡ true → All Copied ds
all-Copied [] e = tt
all-Copied (d ∷ ds) e = (ground arith, all-Copied ds (ground arith))

module _ (o : Cloud) where
  move_to_target-Triple :
      Triple (OfJob (λ j. All Copied j.disks)) (move_to_target o) (λ u. Finalized) Broken
  unfolding move_to_target
  move_to_target-Triple =
      Triple-bind (λ u. OfJob Fine)
        (change-Triple (λ i. record i { phase = finalizing }) (λ j p. ((λ e. absurd (cc e)), p)))
        λ u.
          Triple-bind (λ u. OfJob Freed) (detach_all-Triple o)
            λ u.
              Triple-bind (λ u. OfJob (Round Freed OnTarget 1)) (attach_boot_to_target-Triple o)
                λ u. read_size o λ i.
                  Triple-bind (λ u. OfJob Attached) (attach_when o i (has_pending i) refl)
                    λ u. quietly (λ j p. p.0.0.0) (settle_job o _ _) λ u. complete-Triple

  guard_Post :
      (P : Pred Site) (j : Job) (w : Site) (b : Bool)
      → w.job ≡ j
      → all (λ d. is_copied d.status) j.disks ≡ b
      → P w
      → Post (λ u. OfJob (λ i. All Copied i.disks)) P (lift (refuse_if (not b)) w)
  unfolding lift
  guard_Post P j w true e h p = record { on_job = rw e (all-Copied j.disks h) }
  guard_Post P j w false e h p = p

  finalize-Triple :
      (P : Pred Site) → ((w : Site) → Broken w → P w) → Triple P (finalize o) (λ u. Finalized) P
  unfolding finalize
  finalize-Triple P h =
      Triple-bind (λ j w. P w × (w.job ≡ j)) (unfold get_job in record { at = λ w p. (p, refl) })
        λ j.
          Triple-bind (λ u. OfJob (λ i. All Copied i.disks))
            record { at = λ w p. guard_Post P j w _ p.1 refl p.0 }
            λ u. Triple-weaken Broken P h move_to_target-Triple

  -- What the runner relies on: a call of `finalize` that returns leaves the job COMPLETED.
  pub finalize_completes :
      (w : Site) → (finalize o w).0 ≡ ok tt → (finalize o w).1.job.phase ≡ completed
  finalize_completes w = of_Post (finalize o w) ((finalize-Triple Always (λ v p. tt)).at w tt)
    where
      of_Post :
          (r : Outcome (Unit {0}) × Site)
          → Post (λ u. Finalized) Always r
          → r.0 ≡ ok tt
          → r.1.job.phase ≡ completed
      of_Post (ok u, v) p e = p.phase
      of_Post (raised x, v) p e = absurd (cc e)
