-- ===== src/Oci/Provision/Outcomes.antt =====
-- The parts of `Provisioner.finalize` of helper/helper_app/oci/provision.py: the disks leave the helper, and
-- the boot volume and the data disks go to the target.
use vmware_migration_helper.Base.{
  ℕ, suc, ◌≡◌, refl, sym, ◌∙◌, arith, Bool, true, false, not, Option, none, some, String, is_some,
  All, length,
}
use mathlib.Core.Option.{some-injective}
use vmware_migration_helper.Jobs.Model.{Job, DiskState, is_copied}
use vmware_migration_helper.Jobs.Actions.{Act, ◌>>=◌, skip, when, raise}
use vmware_migration_helper.Jobs.Actions.Hoare.{Pred, Triple, Triple-bind, Triple-from, Triple-to}
use vmware_migration_helper.Jobs.Runner.{modify}
use vmware_migration_helper.Oci.Provision.{
  Site, Cloud, is_set, disk_at, get_job, attachment_state, boot_attachment_state,
  attach_boot_volume, attach_volume,
}
use vmware_migration_helper.Oci.Provision.Prepare.{set_target, attach_to_target, target_device}
use vmware_migration_helper.Oci.Provision.Finish.{
  free_of_helper, free_helper, detach_from_helper, detach_all_from_helper, attach_boot,
  attach_boot_of, attach_boot_to_target,
}
use vmware_migration_helper.Oci.Provision.Rules.{
  OfJob, Triple-each, Triple-on_disk, Keeps-get_job, Keeps-request_job, Keeps-save_job,
}
use vmware_migration_helper.Oci.Provision.Positions.{
  Upto-zero, Upto-suc, All-Upto, length-modify, All-modify,
}
use vmware_migration_helper.Oci.Provision.Rounds.{
  Unfinished, Broken, await_then_job, detach_job, quietly, Round, round-Triple, change_round,
  last_job,
}

-- The disk is off the helper, and on the target.
abbrev pub OffHelper : DiskState → Type 0
OffHelper d = is_set d.helper_attachment_id ≡ false

abbrev pub OnTarget : DiskState → Type 0
OnTarget d = is_some d.target_attachment_id ≡ true

pub set_some : (x : Option String) → not (is_set x) ≡ false → is_some x ≡ true
set_some none e = absurd (cc e)
set_some (some s) e = refl

abbrev pub Copied : DiskState → Type 0
Copied d = is_copied d.status ≡ true

-- The job is under way, and its disks are copied.
abbrev pub Fine : Job → Type 0
Fine j = Unfinished j × All Copied j.disks

-- All disks are off the helper.
abbrev pub Freed : Job → Type 0
Freed j = Fine j × All OffHelper j.disks

pub set_target-Freed :
    (k : ℕ) (id : String) (j : Job)
    → Freed j
    → Freed (record j { disks = modify k (set_target id) j.disks })
set_target-Freed k id j p = (
  (p.0.0, All-modify (set_target id) Copied k j.disks (λ d h. h) p.0.1),
  All-modify (set_target id) OffHelper k j.disks (λ d h. h) p.1,
)

abbrev Sized : ℕ → Job → Type 0
Sized n j = Fine j × (length j.disks ≡ n)

module _ (o : Cloud) where
  free_helper-Triple :
      (n k : ℕ) (d : DiskState)
      → Triple
          (OfJob (Round (Sized n) OffHelper k))
          (free_helper o k d)
          (λ u. OfJob (Round (Sized n) OffHelper (suc k)))
          Broken
  unfolding free_helper
  free_helper-Triple n k d =
      quietly (λ j p. p.0.0.0) Keeps-save_job
        λ u.
          quietly (λ j p. p.0.0.0) (detach_job o d.helper_attachment_id)
            λ u.
              Triple-bind (λ u. OfJob (Round (Sized n) OffHelper (suc k)))
                (change_round k free_of_helper
                  (λ j p. (
                    (p.0.0, All-modify free_of_helper Copied k j.disks (λ d h. h) p.0.1),
                    length-modify free_of_helper k j.disks ∙ p.1,
                  ))
                  (λ d. refl))
                λ u. last_job (λ j p. p.0.0.0) Keeps-save_job

  pub read_size :
      {E : Pred Site} {R : Job → Type 0} {A : Type 0} {f : Job → Act Site A} {Q : A → Pred Site}
      → ((j : Job) → Triple (OfJob (λ i. R i × (i ≡ j))) (f j) Q E)
      → Triple (OfJob R) (get_job >>= f) Q E
  unfolding get_job
  read_size {E} {R} h =
      Triple-bind (λ j. OfJob (λ i. R i × (i ≡ j)))
        record { at = λ w p. record { on_job = (p.on_job, refl) } } h

  pub detach_all-Triple : Triple (OfJob Fine) (detach_all_from_helper o) (λ u. OfJob Freed) Broken
  unfolding detach_all_from_helper detach_from_helper
  detach_all-Triple = read_size λ j.
      Triple-from
        (λ w p. record {
          on_job = ((p.on_job.0, rw p.on_job.1 refl), Upto-zero OffHelper w.job.disks);
        })
        (Triple-to
          (λ u w p. record {
            on_job = (p.on_job.0.0, All-Upto OffHelper w.job.disks (rw p.on_job.0.1 p.on_job.1));
          })
          (Triple-each (λ k. OfJob (Round (Sized (length j.disks)) OffHelper k)) _
            (λ k. round-Triple k _ _ (λ d e. e) (free_helper-Triple (length j.disks) k))
            (length j.disks) 0 (length j.disks) (omega arith)))

  -- Every data disk from the first on that is not on the target is put there.
  pub attach_to_target-Triple :
      (R : Job → Type 0) (k : ℕ) (b : Bool)
      → ((j : Job) → R j → Unfinished j)
      → ((id : String) (j : Job) → R j → R (record j { disks = modify k (set_target id) j.disks }))
      → Triple
          (OfJob (Round R OnTarget k))
          (attach_to_target o k b)
          (λ u. OfJob (Round R OnTarget (suc k)))
          Broken
  unfolding attach_to_target
  attach_to_target-Triple R k b fine keeps =
      quietly (λ j p. fine j p.0) Keeps-get_job
        λ j.
          Triple-on_disk k _
            (λ w p. record {
              on_job =
                  (p.0.on_job.0, Upto-suc OnTarget k _ p.0.on_job.1 (λ d e. absurd (cc (p.1, e))));
            })
            λ d.
              Triple-from (λ w p. p.0)
                (quietly (λ j p. fine j p.0)
                  (Keeps-request_job o
                    (attach_volume j.instance_id d.volume_id (target_device o j k) b))
                  λ id.
                    Triple-bind (λ u. OfJob (Round R OnTarget (suc k)))
                      (change_round k (set_target id) (keeps id) (λ d. refl))
                      λ u.
                        quietly (λ j p. fine j p.0) Keeps-save_job
                          λ u.
                            last_job (λ j p. fine j p.0)
                              (await_then_job o (attachment_state (some id)) "ATTACHED"))

  attach_boot-Triple :
      (found : Option DiskState)
      → Triple
          (OfJob (λ i. Freed i × (disk_at 0 i.disks ≡ found)))
          (attach_boot_of o found)
          (λ u. OfJob (Round Freed OnTarget 1))
          Broken
  unfolding attach_boot_of attach_boot raise skip
  attach_boot-Triple none = record { at = λ w p. record { on_job = p.on_job.0.0.0 } }
  attach_boot-Triple (some d) = boot_when (is_set d.target_attachment_id) refl
    where
      boot_when :
          (b : Bool)
          → is_set d.target_attachment_id ≡ b
          → Triple
              (OfJob (λ i. Freed i × (disk_at 0 i.disks ≡ some d)))
              (when (not b) (attach_boot o d))
              (λ u. OfJob (Round Freed OnTarget 1))
              Broken
      boot_when true e = record {
        at = λ w p. record {
          on_job = (
            p.on_job.0,
            Upto-suc OnTarget 0 _ (Upto-zero OnTarget w.job.disks)
                (λ x f. rw (← some-injective _ _ (sym p.on_job.1 ∙ f)) (set_some _ (rw e refl))),
          );
        };
      }
      boot_when false e =
          Triple-from (λ w p. record { on_job = (p.on_job.0, Upto-zero OnTarget w.job.disks) })
            (quietly (λ j p. p.0.0.0) Keeps-save_job
              λ u.
                quietly (λ j p. p.0.0.0) Keeps-get_job
                  λ j.
                    quietly (λ j p. p.0.0.0)
                      (Keeps-request_job o (attach_boot_volume d.volume_id j.instance_id))
                      λ id.
                        Triple-bind (λ u. OfJob (Round Freed OnTarget 1))
                          (change_round 0 (set_target id) (set_target-Freed 0 id) (λ x. refl))
                          λ u.
                            quietly (λ j p. p.0.0.0) Keeps-save_job
                              λ u.
                                last_job (λ j p. p.0.0.0)
                                  (await_then_job o (boot_attachment_state (some id)) "ATTACHED"))

  pub attach_boot_to_target-Triple :
      Triple (OfJob Freed) (attach_boot_to_target o) (λ u. OfJob (Round Freed OnTarget 1)) Broken
  unfolding attach_boot_to_target
  attach_boot_to_target-Triple = read_size λ j.
      Triple-from (λ w p. record { on_job = (p.on_job.0, rw p.on_job.1 refl) })
        (attach_boot-Triple (disk_at 0 j.disks))
