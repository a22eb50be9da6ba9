-- ===== src/Oci/Installer/Ledger.antt =====
-- What helper/helper_app/oci/iso_install.py creates and is billed for is on the job before anything that may raise.
use vmware_migration_helper.Base.{
  ℕ, zero, suc, ◌≡◌, refl, arith, Bool, true, false, not, ◌||◌, some, ◌=s=◌, All, All-map,
  or_default, eq_iff, not-not,
}
use vmware_migration_helper.Jobs.Model.{
  Job, Exception, job_cancelled, export_error, transfer_error, other_error,
}
use vmware_migration_helper.Jobs.Actions.{Outcome, ok, Act}
use vmware_migration_helper.Jobs.Actions.Hoare.{
  Pred, Post, Triple, Keeps, Triple-bind, Keeps-bind, Triple-Keeps, keeps_rules, Keeps-raise,
  Keeps-skip, Keeps-lift, Keeps-when, Keeps-pure, Keeps-try_catch, Triple-weaken, Triple-from,
  Triple-when, Keeps-Triple,
}
use vmware_migration_helper.Oci.Provision.{is_set}
use vmware_migration_helper.Oci.Installer.{
  Cloud, Site, Call, launch_instance, Reply, Event, change, save, get_job, request, check_cancel,
  step, report, on_error,
}

-- Whether the job has the instance that the call launched, if it did and the id is not empty.
abbrev pub kept : Job → (c : Call) → Outcome (Reply c) → Bool
kept j (launch_instance image) (ok id) =
    not (is_set (some id)) || or_default j.instance_id "" =s= id
kept j _ _ = true

abbrev pub Keeping : Job → Event → Type 0
Keeping j e = kept j e.call e.reply ≡ true

-- The job, and the row that was saved last, keep what was created; something more holds of the job.
pub record Booked (R : Job → Type 0) (w : Site) : Type 0 where
  pub live : All (Keeping w.job) w.trace
  pub stored : All (Keeping w.saved) w.trace
  pub on_job : R w.job

abbrev pub AnyJob : Job → Type 0
AnyJob j = Unit

abbrev pub NoInstance : Job → Type 0
NoInstance j = is_set j.instance_id ≡ false

abbrev pub launches : Call → Bool
launches (launch_instance image) = true
launches _ = false

kept_other : (j : Job) (c : Call) (r : Outcome (Reply c)) → launches c ≡ false → kept j c r ≡ true
kept_other j (launch_instance image) r h = absurd (cc h)
kept_other j _ r h = refl

-- A job with the same instance keeps the same.
kept_same :
    (j i : Job)
    → i.instance_id ≡ j.instance_id
    → (c : Call) (r : Outcome (Reply c)) → kept j c r ≡ true
    → kept i c r ≡ true
kept_same j i e (launch_instance image) (ok id) h = rw e h
kept_same j i e _ _ h = refl

-- What a job without an instance keeps is nothing, so any job keeps it.
pub kept_none :
    (j i : Job)
    → NoInstance j
    → (c : Call) (r : Outcome (Reply c)) → kept j c r ≡ true
    → kept i c r ≡ true
kept_none j i n (launch_instance image) (ok id) h =
    let empty : or_default j.instance_id "" ≡ "" =
      (eq_iff (or_default j.instance_id "") "").0 (not-not _ n) in
    by_id (rw empty at h)
  where
    by_id :
        (not (not (id =s= "")) || "" =s= id) ≡ true
        → (not (not (id =s= "")) || or_default i.instance_id "" =s= id) ≡ true
    by_id k = ground (arith, eq_iff id "", eq_iff "" id)
kept_none j i n _ _ h = refl

module _ (o : Cloud) {R : Job → Type 0} where
  pub Keeps-request : (c : Call) → launches c ≡ false → Keeps (Booked R) (request o c)
  unfolding request
  Keeps-request c h = record {
    at = λ w p. record {
      live = (kept_other w.job c (o.reply w.trace c) h, p.live);
      stored = (kept_other w.saved c (o.reply w.trace c) h, p.stored);
      on_job = p.on_job;
    };
  }

  pub Keeps-check : Keeps (Booked R) (check_cancel o)
  unfolding check_cancel
  Keeps-check = record {
    at = λ w p. record { live = p.live; stored = p.stored; on_job = p.on_job };
  }

module _ {R : Job → Type 0} where
  pub Keeps-save : Keeps (Booked R) save
  unfolding save
  Keeps-save = record { at = λ w p. record { live = p.live; stored = p.live; on_job = p.on_job } }

  pub Keeps-get_job : Keeps (Booked R) get_job
  unfolding get_job
  Keeps-get_job = record { at = λ w p. p }

-- A change that leaves the instance alone.
pub Keeps-change :
    (f : Job → Job)
    → ((j : Job) → (f j).instance_id ≡ j.instance_id)
    → Keeps (Booked AnyJob) (change f)
unfolding change
Keeps-change f h = record {
  at = λ w p. record {
    live =
        All-map (Keeping w.job) (Keeping (f w.job)) w.trace
          (λ e. kept_same w.job (f w.job) (h w.job) e.call e.reply) p.live;
    stored = p.stored;
    on_job = tt;
  };
}

module _ {P : Pred Site} where
  pub Keeps-on_error :
      (explain : Act Site (Unit {0}))
      → Keeps P explain
      → (e : Exception) → Keeps P (on_error explain e)
  Keeps-on_error explain h job_cancelled = Keeps-raise job_cancelled
  Keeps-on_error explain h export_error = Keeps-bind _ _ h λ u. Keeps-raise export_error
  Keeps-on_error explain h transfer_error = Keeps-bind _ _ h λ u. Keeps-raise transfer_error
  Keeps-on_error explain h other_error = Keeps-bind _ _ h λ u. Keeps-raise other_error

module _ (o : Cloud) {R : Job → Type 0} where
  pub step-Booked : Keeps (Booked R) (step o)
  unfolding step
  step-Booked = Keeps-bind _ _ (Keeps-check o) λ u. Keeps-save

  pub report-Booked : (n : ℕ) → Keeps (Booked R) (report o n)
  unfolding report
  report-Booked zero = Keeps-skip
  report-Booked (suc n) = Keeps-bind _ _ step-Booked λ u. report-Booked n

pub ruleset booked_rules = (
  keeps_rules, Keeps-request, Keeps-check, Keeps-save, Keeps-get_job, Keeps-on_error, step-Booked,
  report-Booked,
)
