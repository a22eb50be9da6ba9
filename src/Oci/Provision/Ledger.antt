-- ===== src/Oci/Provision/Ledger.antt =====
-- What the provisioner creates is on the job, and in the row that it saved last, before anything that
-- may raise: the instance and the data volumes of helper/helper_app/oci/provision.py.
use vmware_migration_helper.Base.{
  ◌≡◌, refl, Bool, true, false, not, ◌||◌, some, List, ◌∷◌, String, ◌=s=◌, any, All, All-map,
  or_default,
}
use vmware_migration_helper.Jobs.Model.{Job, DiskState, Exception}
use vmware_migration_helper.Jobs.Actions.{Outcome, ok, raised, Act, ◌>>=◌, ◌>>◌}
use vmware_migration_helper.Jobs.Actions.Hoare.{
  Pred, Post, Triple, Keeps, Triple-bind, Triple-Keeps,
}
use vmware_migration_helper.Oci.Provision.{
  Site, Event, Cloud, Call, launch_instance, create_volume, Reply, data_disks, is_set, change, save,
  request, check_cancel,
}
use vmware_migration_helper.Oci.Provision.Rules.{OfJob}

-- Whether a disk of the list has the volume.
abbrev pub has_volume : String → List DiskState → Bool
has_volume id disks = any (λ d. or_default d.volume_id "" =s= id) disks

-- Whether the job holds what the call created, if it did and the id is not empty.
abbrev pub kept : Job → (c : Call) → Outcome (Reply c) → Bool
kept j (launch_instance image size) (ok id) =
    not (is_set (some id)) || or_default j.instance_id "" =s= id
kept j (create_volume index size) (ok id) =
    not (is_set (some id)) || has_volume id (data_disks j.disks)
kept j _ _ = true

abbrev pub Keeping : Job → Event → Type 0
Keeping j e = kept j e.call e.reply ≡ true

pub record Booked (w : Site) : Type 0 where
  pub live : All (Keeping w.job) w.trace
  pub stored : All (Keeping w.saved) w.trace

-- A job that still has every instance and volume of another one.
pub record Extends (j i : Job) : Type 0 where
  pub instance_kept :
      (id : String)
      → is_set (some id) ≡ true
      → (or_default j.instance_id "" =s= id) ≡ true
      → (or_default i.instance_id "" =s= id) ≡ true
  pub volumes_kept :
      (id : String)
      → is_set (some id) ≡ true
      → has_volume id (data_disks j.disks) ≡ true
      → has_volume id (data_disks i.disks) ≡ true

keep_or :
    (known old new : Bool)
    → (known ≡ true → old ≡ true → new ≡ true)
    → (not known || old) ≡ true
    → (not known || new) ≡ true
keep_or true old new h p = h refl p
keep_or false old new h p = refl

kept-Extends :
    {j i : Job}
    → Extends j i
    → (c : Call) (r : Outcome (Reply c)) → kept j c r ≡ true
    → kept i c r ≡ true
kept-Extends x (launch_instance image size) (ok id) =
    keep_or (is_set (some id)) _ _ (x.instance_kept id)
kept-Extends x (create_volume index size) (ok id) =
    keep_or (is_set (some id)) _ _ (x.volumes_kept id)
kept-Extends x _ _ = λ p. refl

pub all_extend :
    {j i : Job} → Extends j i → (t : List Event) → All (Keeping j) t → All (Keeping i) t
all_extend {j} {i} x t = All-map (Keeping j) (Keeping i) t (λ e. kept-Extends x e.call e.reply)

-- Calls that create nothing that is billed.
abbrev pub creates : Call → Bool
creates (launch_instance image size) = true
creates (create_volume index size) = true
creates _ = false

pub kept_other :
    (j : Job) (c : Call) (r : Outcome (Reply c)) → creates c ≡ false → kept j c r ≡ true
kept_other j (launch_instance image size) r h = absurd (cc h)
kept_other j (create_volume index size) r h = absurd (cc h)
kept_other j _ r h = refl

kept_raised : (j : Job) (c : Call) (e : Exception) → kept j c (raised e) ≡ true
kept_raised j (launch_instance image size) e = refl
kept_raised j (create_volume index size) e = refl
kept_raised j _ e = refl

module _ (o : Cloud) where
  pub Keeps-request : (c : Call) → creates c ≡ false → Keeps Booked (request o c)
  unfolding request
  Keeps-request c h = record {
    at = λ w p. record {
      live = (kept_other w.job c (o.reply w.trace c) h, p.live);
      stored = (kept_other w.saved c (o.reply w.trace c) h, p.stored);
    };
  }

  pub Keeps-check : Keeps Booked (check_cancel o)
  unfolding check_cancel
  Keeps-check = record { at = λ w p. record { live = p.live; stored = p.stored } }

pub Keeps-save : Keeps Booked save
unfolding save
Keeps-save = record { at = λ w p. record { live = p.live; stored = p.live } }

pub Keeps-change : (f : Job → Job) → ((j : Job) → Extends j (f j)) → Keeps Booked (change f)
unfolding change
Keeps-change f h = record {
  at = λ w p. record { live = all_extend (h w.job) w.trace p.live; stored = p.stored };
}

-- The job would keep all that was created if it were changed so.
abbrev LiveAs : (Job → Job) → Pred Site
LiveAs f w = All (Keeping (f w.job)) w.trace

module _ (o : Cloud) {R : Job → Type 0} (c : Call) (f : Reply c → Job → Job)
    (extends : (a : Reply c) (j : Job) → R j → Extends j (f a j))
    (holds : (a : Reply c) (j : Job) → R j → kept (f a j) c (ok a) ≡ true) where
  created_Post :
      (r : Outcome (Reply c)) (w : Site)
      → Booked w
      → OfJob R w
      → Post
          (λ a. LiveAs (f a))
          Booked
          (r, record w { trace = record { call = c; reply = r } ∷ w.trace })
  created_Post (ok a) w p q =
      (holds a w.job q.on_job, all_extend (extends a w.job q.on_job) w.trace p.live)
  created_Post (raised e) w p q = record {
    live = (kept_raised w.job c e, p.live);
    stored = (kept_raised w.saved c e, p.stored);
  }

  -- What a call creates is on the job before anything else happens.
  pub Triple-create :
      {rest : Reply c → Act Site (Unit {0})}
      → ((a : Reply c) → Keeps Booked (rest a))
      → Triple
          (λ w. Booked w × OfJob R w)
          (request o c >>= λ a. change (f a) >> (save >> rest a))
          (λ u. Booked)
          Booked
  unfolding request
  Triple-create h =
      Triple-bind (λ a. LiveAs (f a))
        record { at = λ w p. created_Post (o.reply w.trace c) w p.0 p.1 }
        λ a.
          Triple-bind (λ u. LiveAs (λ j. j)) (unfold change in record { at = λ w p. p })
            λ u.
              Triple-bind (λ u. Booked)
                (unfold save in record { at = λ w p. record { live = p; stored = p } })
                λ u. Triple-Keeps (h a)
