-- ===== src/Oci/Provision/Rules.antt =====
-- Rules for the actions of the provisioner, on top of those for actions on any state.
use vmware_migration_helper.Base.{ℕ, zero, suc, ◌+◌, ◌≡◌, refl, arith, Option, none, some}
use vmware_migration_helper.Jobs.Model.{Job, DiskState}
use vmware_migration_helper.Jobs.Actions.{Act, ◌>>=◌, skip}
use vmware_migration_helper.Jobs.Actions.Hoare.{
  Pred, Post, Triple, Keeps, Triple-bind, Keeps-bind, keeps_rules,
}
use vmware_migration_helper.Oci.Provision.{
  Site, Cloud, Call, get_job, change, save, with_disk, disk_at, on_disk, each, request,
  check_cancel,
}

module _ {P : Pred Site} where
  pub Keeps-get_job : Keeps P get_job
  unfolding get_job
  Keeps-get_job = record { at = λ w p. p }

  with_disk-Keeps :
      (found : Option DiskState) (body : DiskState → Act Site (Unit {0}))
      → ((d : DiskState) → Keeps P (body d))
      → Keeps P (with_disk found body)
  with_disk-Keeps none body h = unfold skip in record { at = λ w p. p }
  with_disk-Keeps (some d) body h = h d

  pub Keeps-on_disk :
      (k : ℕ) (body : DiskState → Act Site (Unit {0}))
      → ((d : DiskState) → Keeps P (body d))
      → Keeps P (on_disk k body)
  unfolding on_disk
  Keeps-on_disk k body h = Keeps-bind _ _ Keeps-get_job λ j. with_disk-Keeps _ body h

  pub Keeps-each :
      (k n : ℕ) (body : ℕ → Act Site (Unit {0}))
      → ((i : ℕ) → Keeps P (body i))
      → Keeps P (each k n body)
  unfolding each
  Keeps-each k zero body h = unfold skip in record { at = λ w p. p }
  Keeps-each k (suc n) body h = Keeps-bind _ _ (h k) λ u. Keeps-each (suc k) n body h

  -- A loop that leaves the first position out.
  pub Keeps-each_data :
      (k n : ℕ) (body : ℕ → Act Site (Unit {0}))
      → ((i : ℕ) → Keeps P (body (suc i)))
      → Keeps P (each (suc k) n body)
  unfolding each
  Keeps-each_data k zero body h = unfold skip in record { at = λ w p. p }
  Keeps-each_data k (suc n) body h = Keeps-bind _ _ (h k) λ u. Keeps-each_data (suc k) n body h

-- A loop whose rounds each advance the condition by one position.
pub Triple-each :
    (Q : ℕ → Pred Site) {E : Pred Site} (body : ℕ → Act Site (Unit {0}))
    → ((k : ℕ) → Triple (Q k) (body k) (λ u. Q (suc k)) E)
    → (n k end : ℕ) → k + n ≡ end
    → Triple (Q k) (each k n body) (λ u. Q end) E
unfolding each
Triple-each Q body h zero k end e =
    let same : k ≡ end = omega arith in rw (← same) (unfold skip in record { at = λ w p. p })
Triple-each Q body h (suc n) k end e =
    Triple-bind (λ u. Q (suc k)) (h k) λ u. Triple-each Q body h n (suc k) end (omega arith)

-- The state in which the disk at a position was just read.
abbrev pub Found : Pred Site → ℕ → Option DiskState → Pred Site
Found P k found w = P w × (disk_at k w.job.disks ≡ found)

module _ {P E : Pred Site} {Q : Unit {0} → Pred Site} where
  read_then :
      (k : ℕ) (body : DiskState → Act Site (Unit {0}))
      → ((w : Site) → Found P k none w → Q tt w)
      → ((d : DiskState) → Triple (Found P k (some d)) (body d) Q E)
      → (w : Site) (found : Option DiskState) → disk_at k w.job.disks ≡ found
      → P w
      → Post Q E (with_disk found body w)
  unfolding skip
  read_then k body missing h w none e p = missing w (p, e)
  read_then k body missing h w (some d) e p = (h d).at w (p, e)

  pub Triple-on_disk :
      (k : ℕ) (body : DiskState → Act Site (Unit {0}))
      → ((w : Site) → Found P k none w → Q tt w)
      → ((d : DiskState) → Triple (Found P k (some d)) (body d) Q E)
      → Triple P (on_disk k body) Q E
  unfolding on_disk get_job ◌>>=◌
  Triple-on_disk k body missing h = record {
    at = λ w p. read_then k body missing h w (disk_at k w.job.disks) refl p;
  }

module _ {A : Type 0} {P R : Pred Site} where
  -- Two conditions that are each kept are kept together.
  pub Keeps-both : {m : Act Site A} → Keeps P m → Keeps R m → Keeps (λ w. P w × R w) m
  Keeps-both h k = record { at = λ w p. (h.at w p.0, k.at w p.1) }

-- A condition on the job alone.
pub record OfJob (R : Job → Type 0) (w : Site) : Type 0 where
  pub on_job : R w.job

module _ (o : Cloud) {R : Job → Type 0} where
  pub Keeps-request_job : (c : Call) → Keeps (OfJob R) (request o c)
  unfolding request
  Keeps-request_job c = record { at = λ w p. record { on_job = p.on_job } }

  pub Keeps-check_job : Keeps (OfJob R) (check_cancel o)
  unfolding check_cancel
  Keeps-check_job = record { at = λ w p. record { on_job = p.on_job } }

module _ {R : Job → Type 0} where
  pub Keeps-save_job : Keeps (OfJob R) save
  unfolding save
  Keeps-save_job = record { at = λ w p. record { on_job = p.on_job } }

  pub Keeps-change_job : (f : Job → Job) → ((j : Job) → R j → R (f j)) → Keeps (OfJob R) (change f)
  unfolding change
  Keeps-change_job f h = record { at = λ w p. record { on_job = h w.job p.on_job } }

pub ruleset site_rules = (keeps_rules, Keeps-get_job, Keeps-on_disk, Keeps-each)

-- for conditions on the job; a change of the job is a rule of the condition
pub ruleset job_rules = (site_rules, Keeps-request_job, Keeps-check_job, Keeps-save_job)
