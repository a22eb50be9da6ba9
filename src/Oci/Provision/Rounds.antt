-- ===== src/Oci/Provision/Rounds.antt =====
-- How an action of helper/helper_app/oci/provision.py changes what is known of the job and of its disks.
use vmware_migration_helper.Base.{
  ℕ, suc, ◌≡◌, ◌≢◌, refl, sym, ◌∙◌, Bool, true, false, Option, some, String,
}
use mathlib.Core.Option.{some-injective}
use vmware_migration_helper.Jobs.Model.{Job, DiskState, completed}
use vmware_migration_helper.Jobs.Actions.{Act, ◌>>=◌, skip, when}
use vmware_migration_helper.Jobs.Actions.Hoare.{
  Pred, Triple, Keeps, Triple-bind, Triple-Keeps, Triple-from, Triple-weaken, Keeps-bind,
  Keeps-when, Keeps-skip, keeps_rules,
}
use vmware_migration_helper.Jobs.Runner.{modify}
use vmware_migration_helper.Oci.Provision.{
  Site, Cloud, Resource, change, change_disk, on_disk, await, poll, get_instance, instance_action,
  get_volume_attachment, detach_volume, attachment_state, instance_state,
}
use vmware_migration_helper.Oci.Provision.Finish.{detach, start_target, stop_again, settle}
use vmware_migration_helper.Oci.Provision.Rules.{
  OfJob, Found, Triple-on_disk, Keeps-get_job, Keeps-request_job, Keeps-save_job,
}
use vmware_migration_helper.Oci.Provision.Positions.{Upto, Upto-suc, At-modify, Upto-modify}

-- A job that is not COMPLETED.
abbrev pub Unfinished : Job → Type 0
Unfinished j = j.phase ≢ completed

abbrev pub Broken : Pred Site
Broken = OfJob Unfinished

-- What a condition on the job becomes by a change of it.
pub change-Triple :
    {R T : Job → Type 0} {E : Pred Site} (f : Job → Job)
    → ((j : Job) → R j → T (f j))
    → Triple (OfJob R) (change f) (λ u. OfJob T) E
unfolding change
change-Triple f h = record { at = λ w p. record { on_job = h w.job p.on_job } }

module _ (o : Cloud) {R : Job → Type 0} where
  pub await_job : (r : Resource) (target : String) → Keeps (OfJob R) (await o r target)
  unfolding await
  await_job r target = Keeps-bind _ _ (Keeps-request_job o (poll r)) λ p. search keeps_rules

  pub await_then_job :
      (r : Resource) (target : String) → Keeps (OfJob R) (await o r target >>= λ d. skip)
  await_then_job r target = Keeps-bind _ _ (await_job r target) λ d. Keeps-skip

  pub detach_job : (id : Option String) → Keeps (OfJob R) (detach o id)
  unfolding detach
  detach_job id = Keeps-bind _ _ (Keeps-request_job o (get_volume_attachment id)) λ state.
      Keeps-bind _ _ (Keeps-when _ _ (Keeps-request_job o (detach_volume id)))
        λ u. await_then_job (attachment_state id) "DETACHED"

  pub start_target_job : Keeps (OfJob R) (start_target o)
  unfolding start_target
  start_target_job = Keeps-bind _ _ Keeps-get_job λ j.
      Keeps-bind _ _ (Keeps-request_job o (get_instance j.instance_id)) λ state. Keeps-when _ _ (
        Keeps-bind _ _ Keeps-save_job λ u.
          Keeps-bind _ _ (Keeps-when _ _ (Keeps-request_job o (instance_action j.instance_id _)))
            λ u. await_then_job (instance_state j.instance_id) "RUNNING")

  pub settle_job : (a b : Bool) → Keeps (OfJob R) (settle o a b)
  unfolding settle stop_again
  settle_job true b = Keeps-when _ _ start_target_job
  settle_job false b = Keeps-when _ _ (
      Keeps-bind _ _ Keeps-save_job λ u. Keeps-bind _ _ Keeps-get_job λ j.
        Keeps-bind _ _ (Keeps-request_job o (instance_action j.instance_id _))
          λ u. await_then_job (instance_state j.instance_id) "STOPPED")

-- An action that changes no job, in the middle of one that must not complete it.
pub quietly :
    {A B : Type 0} {R : Job → Type 0} {m : Act Site A} {f : A → Act Site B} {Q : B → Pred Site}
    → ((j : Job) → R j → Unfinished j)
    → Keeps (OfJob R) m
    → ((a : A) → Triple (OfJob R) (f a) Q Broken)
    → Triple (OfJob R) (m >>= f) Q Broken
quietly {R} h k next =
    Triple-bind (λ a. OfJob R)
      (Triple-weaken (OfJob R) Broken (λ w p. record { on_job = h w.job p.on_job })
        (Triple-Keeps k))
      next

-- A loop over the disks: what holds of the job, and what holds of the disks so far.
abbrev pub Round : (Job → Type 0) → (DiskState → Type 0) → ℕ → Job → Type 0
Round R D k j = R j × Upto D k j.disks

-- One round, which changes the disk unless the test says that it need not.
pub round-Triple :
    {R : Job → Type 0} {D : DiskState → Type 0} (k : ℕ) (test : DiskState → Bool)
    (act : DiskState → Act Site (Unit {0}))
    → ((d : DiskState) → test d ≡ false → D d)
    → ((d : DiskState)
        → Triple (OfJob (Round R D k)) (act d) (λ u. OfJob (Round R D (suc k))) Broken)
    → Triple
        (OfJob (Round R D k))
        (on_disk k λ d. when (test d) (act d))
        (λ u. OfJob (Round R D (suc k)))
        Broken
unfolding skip
round-Triple {R} {D} k test act idle busy =
    Triple-on_disk k _
      (λ w p. record {
        on_job = (p.0.on_job.0, Upto-suc D k _ p.0.on_job.1 (λ d e. absurd (cc (p.1, e))));
      })
      λ d. act_when d (test d) refl
  where
    act_when :
        (d : DiskState) (b : Bool)
        → test d ≡ b
        → Triple
            (Found (OfJob (Round R D k)) k (some d))
            (when b (act d))
            (λ u. OfJob (Round R D (suc k)))
            Broken
    act_when d true e = Triple-from (λ w p. p.0) (busy d)
    act_when d false e = record {
      at = λ w p. record {
        on_job = (
          p.0.on_job.0,
          Upto-suc D k _ p.0.on_job.1 (λ x f. rw (← some-injective _ _ (sym p.1 ∙ f)) (idle d e)),
        );
      };
    }

-- A change of the disk of this round that makes the condition hold of it.
pub change_round :
    {R : Job → Type 0} {D : DiskState → Type 0} {E : Pred Site} (k : ℕ) (f : DiskState → DiskState)
    → ((j : Job) → R j → R (record j { disks = modify k f j.disks }))
    → ((d : DiskState) → D (f d))
    → Triple (OfJob (Round R D k)) (change_disk k f) (λ u. OfJob (Round R D (suc k))) E
change_round {R} {D} k f keeps new = change-Triple _ λ j p. (
  keeps j p.0,
  Upto-suc D k _ (Upto-modify f D k j.disks p.1) (At-modify f D k j.disks (λ x e. new x)),
)

-- An action that changes no job, at the end.
pub last_job :
    {R : Job → Type 0} {m : Act Site (Unit {0})}
    → ((j : Job) → R j → Unfinished j)
    → Keeps (OfJob R) m
    → Triple (OfJob R) m (λ u. OfJob R) Broken
last_job {R} h k =
    Triple-weaken (OfJob R) Broken (λ w p. record { on_job = h w.job p.on_job }) (Triple-Keeps k)
