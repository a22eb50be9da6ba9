-- ===== src/Oci/Provision/Reclaim.antt =====
-- `Provisioner.cleanup` of helper/helper_app/oci/provision.py asks OCI to remove whatever was created.
use vmware_migration_helper.Base.{
  ◌≡◌, refl, sym, ap, ◌∙◌, Bool, true, false, not, ◌||◌, some, List, [], ◌∷◌, String, ◌=s=◌, eq_iff,
  any, All, All-map, or_default, inl, inr, Bool-cases,
}
use mathlib.Core.Path.{subst}
use vmware_migration_helper.Jobs.Model.{Job, DiskState}
use vmware_migration_helper.Jobs.Actions.{Outcome, ok}
use vmware_migration_helper.Oci.Provision.{
  Event, Call, launch_instance, create_volume, terminate_instance, delete_boot_volume,
  delete_volume, Reply, is_set, data_disks,
}
use vmware_migration_helper.Oci.Provision.Ledger.{has_volume, Keeping, kept}

-- Whether a call asks to remove the volume, or the instance.
abbrev pub deletes : String → Call → Bool
deletes id (delete_boot_volume v) = or_default v "" =s= id
deletes id (delete_volume v) = or_default v "" =s= id
deletes id _ = false

abbrev pub terminates : String → Call → Bool
terminates id (terminate_instance i) = or_default i "" =s= id
terminates id _ = false

abbrev pub asked : (Call → Bool) → List Event → Bool
asked is_it t = any (λ e. is_it e.call) t

-- Whether OCI was asked to remove what the call created, if it did and the id is not empty.
abbrev pub reclaimed : List Event → (c : Call) → Outcome (Reply c) → Bool
reclaimed t (launch_instance image size) (ok id) = not (is_set (some id)) || asked (terminates id) t
reclaimed t (create_volume index size) (ok id) = not (is_set (some id)) || asked (deletes id) t
reclaimed t _ _ = true

abbrev pub Reclaimed : List Event → Event → Type 0
Reclaimed t e = reclaimed t e.call e.reply ≡ true

abbrev pub gone : List Event → DiskState → Bool
gone t d = not (is_set d.volume_id) || asked (deletes (or_default d.volume_id "")) t

abbrev pub ended : List Event → Job → Bool
ended t j = not (is_set j.instance_id) || asked (terminates (or_default j.instance_id "")) t

pub still : (a b c : Bool) → (a || c) ≡ true → (a || (b || c)) ≡ true
still true b c h = refl
still false true c h = refl
still false false c h = h

pub string_refl : (s : String) → (s =s= s) ≡ true
string_refl s = (eq_iff s s).1 refl

-- What holds of an id that is set holds of the id that it equals.
named :
    (p : String → Bool) (x id : String)
    → x ≡ id
    → is_set (some id) ≡ true
    → (not (is_set (some x)) || p x) ≡ true
    → p id ≡ true
named p x id e s h = force (id =s= "") s (subst (λ y. (not (is_set (some y)) || p y) ≡ true) e h)
  where
    force : (b : Bool) → not b ≡ true → (not (not b) || p id) ≡ true → p id ≡ true
    force true s h = absurd (cc s)
    force false s h = h

-- From the job to the events: what the job holds was asked to go.
volume_gone :
    (t : List Event) (id : String) (ds : List DiskState)
    → is_set (some id) ≡ true
    → has_volume id ds ≡ true
    → All (λ d. gone t d ≡ true) ds
    → asked (deletes id) t ≡ true
volume_gone t id [] s h g = absurd (cc h)
volume_gone t id (d ∷ ds) s h g = elim (Bool-cases (or_default d.volume_id "" =s= id)) [
  | inl e ↦
      named (λ i. asked (deletes i) t) (or_default d.volume_id "") id
        ((eq_iff (or_default d.volume_id "") id).0 e) s g.0
  | inr e ↦ volume_gone t id ds s (sym (ap (λ b. b || has_volume id ds) e) ∙ h) g.1
]

data_gone :
    (t : List Event) (ds : List DiskState)
    → All (λ d. gone t d ≡ true) ds
    → All (λ d. gone t d ≡ true) (data_disks ds)
data_gone t [] g = tt
data_gone t (d ∷ ds) g = g.1

known_or : (a b c : Bool) → (a ≡ false → b ≡ true → c ≡ true) → (a || b) ≡ true → (a || c) ≡ true
known_or true b c h p = refl
known_or false b c h p = h refl p

module _ (j : Job) (t : List Event) (removed : All (λ d. gone t d ≡ true) j.disks)
    (stopped : ended t j ≡ true) where
  kept-reclaimed : (c : Call) (r : Outcome (Reply c)) → kept j c r ≡ true → reclaimed t c r ≡ true
  kept-reclaimed (launch_instance image size) (ok id) = known_or (not (is_set (some id))) _ _ λ s e.
      named (λ i. asked (terminates i) t) (or_default j.instance_id "") id
        ((eq_iff (or_default j.instance_id "") id).0 e) (flip (is_set (some id)) s) stopped
    where
      flip : (b : Bool) → not b ≡ false → b ≡ true
      flip true e = refl
      flip false e = absurd (cc e)
  kept-reclaimed (create_volume index size) (ok id) = known_or (not (is_set (some id))) _ _ λ s e.
      volume_gone t id (data_disks j.disks) (flip (is_set (some id)) s) e
        (data_gone t j.disks removed)
    where
      flip : (b : Bool) → not b ≡ false → b ≡ true
      flip true e = refl
      flip false e = absurd (cc e)
  kept-reclaimed _ _ = λ p. refl

  pub all_reclaimed : (es : List Event) → All (Keeping j) es → All (Reclaimed t) es
  all_reclaimed es = All-map (Keeping j) (Reclaimed t) es (λ e. kept-reclaimed e.call e.reply)
