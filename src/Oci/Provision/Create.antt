-- ===== src/Oci/Provision/Create.antt =====
-- Where `Provisioner.prepare` of helper/helper_app/oci/provision.py creates something: the launch of the target,
-- and the data volumes.
use vmware_migration_helper.Base.{
  ℕ, zero, suc, ◌≡◌, refl, Bool, true, false, not, ◌||◌, ◌=s=◌, or_default, some, List, [], ◌∷◌,
  String, eq_iff, arith,
}
use vmware_migration_helper.Jobs.Model.{Job, DiskState}
use vmware_migration_helper.Jobs.Actions.{Act, ◌>>=◌, skip, when}
use vmware_migration_helper.Jobs.Actions.Hoare.{
  Pred, Triple, Keeps, Triple-bind, Triple-Keeps, Keeps-Triple, Triple-from, Triple-when,
  Triple-weaken, Keeps-bind, Keeps-when, Keeps-lift, Keeps-skip, keeps_rules,
}
use vmware_migration_helper.Jobs.Runner.{modify}
use vmware_migration_helper.Oci.Provision.{
  Site, Cloud, is_set, step, await, disk_at, Resource, get_job, data_disks, volume_state, poll,
  Call, request, change, change_disk, create_volume, launch_instance, instance_state,
  ensure_shape_compatible,
}
use vmware_migration_helper.Oci.Provision.Prepare.{
  set_volume, set_up, resolve_seed_image, launch, first_size, seed_and_launch, new_volume,
  create_one,
}
use vmware_migration_helper.Oci.Provision.Rules.{
  Found, OfJob, Keeps-get_job, Keeps-on_disk, Keeps-each, Keeps-each_data, Triple-on_disk,
  Keeps-both, site_rules, job_rules, Keeps-change_job, Keeps-request_job,
}
use vmware_migration_helper.Oci.Provision.Ledger.{
  has_volume, Booked, Extends, Keeps-request, Keeps-check, Keeps-save, Keeps-change, Triple-create,
  creates,
}
use vmware_migration_helper.Oci.Provision.Volumes.{
  disk-Extends, sized-Extends, vacant, has_volume-vacant, has_volume-new,
}

module _ (o : Cloud) where
  pub step-Booked : Keeps Booked (step o)
  unfolding step
  step-Booked = Keeps-bind _ _ (Keeps-check o) λ u. Keeps-save

  pub step_job : {R : Job → Type 0} → Keeps (OfJob R) (step o)
  unfolding step
  step_job {R} = search job_rules

  pub await-Booked : (r : Resource) (target : String) → Keeps Booked (await o r target)
  unfolding await
  await-Booked r target = Keeps-bind _ _ (Keeps-request o (poll r) refl) λ p. search keeps_rules

  -- A change that leaves the instance and the disks.
  pub rest-Booked :
      (f : Job → Job)
      → ((j : Job) → (f j).instance_id ≡ j.instance_id)
      → ((j : Job) → (f j).disks ≡ j.disks)
      → Keeps Booked (change f)
  rest-Booked f h k =
      Keeps-change f
        λ j. record { instance_kept = λ id s p. rw (h j) p; volumes_kept = λ id s p. rw (k j) p }

  pub disk-Booked :
      (k : ℕ) (f : DiskState → DiskState)
      → ((d : DiskState) → (f d).volume_id ≡ d.volume_id)
      → Keeps Booked (change_disk k f)
  disk-Booked k f h = Keeps-change _ (disk-Extends f h k)

  pub other-Booked : (c : Call) → creates c ≡ false → Keeps Booked (request o c)
  other-Booked = Keeps-request o

  pub ruleset ledger_rules =
      (site_rules, Keeps-save, step-Booked, await-Booked, other-Booked, rest-Booked, disk-Booked)

  pub set_up-Booked : Keeps Booked (set_up o)
  unfolding set_up
  set_up-Booked = Keeps-bind _ _ Keeps-get_job λ j. Keeps-bind _ _ (Keeps-lift _) λ u.
      Keeps-bind _ _ (Keeps-lift _) λ u. Keeps-bind _ _ (rest-Booked _ (λ i. refl) (λ i. refl)) λ u.
        Keeps-bind _ _ Keeps-get_job λ i. Keeps-bind _ _ (Keeps-lift _) λ u.
          Keeps-bind _ _ (rest-Booked _ (λ i. refl) (λ i. refl)) λ u.
            Keeps-bind _ _ Keeps-get_job
              λ i. Keeps-bind _ _ (Keeps-lift _) λ u. Keeps-change _ (sized-Extends o.min_volume_gb)

  seed-Booked : Keeps Booked (resolve_seed_image o)
  unfolding resolve_seed_image
  seed-Booked = search ledger_rules

  -- The instance is launched only if the job has none.
  abbrev NoInstance : Job → Type 0
  NoInstance j = is_set j.instance_id ≡ false

  both_step : {R : Job → Type 0} → Keeps (λ w. Booked w × OfJob R w) (step o)
  both_step = Keeps-both step-Booked step_job

  both_call :
      {R : Job → Type 0} (c : Call)
      → creates c ≡ false
      → Keeps (λ w. Booked w × OfJob R w) (request o c)
  both_call c h = Keeps-both (other-Booked c h) (Keeps-request_job o c)

  launch-Extends :
      (id : String) (j : Job) → NoInstance j → Extends j (record j { instance_id = some id })
  launch-Extends id j unset = record {
    instance_kept = λ other s h. ground (
      arith,
      eq_iff (or_default j.instance_id "") other,
      eq_iff other "",
      eq_iff (or_default j.instance_id "") "",
    );
    volumes_kept = λ other s h. h;
  }

  or_same : (b : Bool) (id : String) → (b || id =s= id) ≡ true
  or_same b id = ground (arith, eq_iff id id)

  pub await_then : (r : Resource) (target : String) → Keeps Booked (await o r target >>= λ d. skip)
  await_then r target = Keeps-bind _ _ (await-Booked r target) λ d. Keeps-skip

  launch-Booked : Triple (λ w. Booked w × OfJob NoInstance w) (launch o) (λ u. Booked) Booked
  unfolding launch
  launch-Booked = keep both_step λ u. keep Keeps-get_job λ j.
      keep (both_call (ensure_shape_compatible j.seed_image_id) refl) λ u. keep both_step λ u.
        Triple-create o {R = NoInstance} (launch_instance j.seed_image_id (first_size j.disks))
          (λ id i. record i { instance_id = some id }) launch-Extends
          (λ id i unset. or_same (not (is_set (some id))) id)
          λ id. await_then (instance_state (some id)) "RUNNING"
    where
      keep :
          {A B : Type 0} {m : Act Site A} {f : A → Act Site B} {Q : B → Pred Site}
          → Keeps (λ w. Booked w × OfJob NoInstance w) m
          → ((a : A) → Triple (λ w. Booked w × OfJob NoInstance w) (f a) Q Booked)
          → Triple (λ w. Booked w × OfJob NoInstance w) (m >>= f) Q Booked
      keep h k =
          Triple-bind (λ a w. Booked w × OfJob NoInstance w)
            (Triple-weaken _ Booked (λ w p. p.0) (Triple-Keeps h)) k

  seed_job : Keeps (OfJob NoInstance) (resolve_seed_image o)
  unfolding resolve_seed_image
  seed_job =
      search
        (
          job_rules,
          step_job,
          λ (id : String).
              Keeps-change_job {R = NoInstance} (λ i. record i { seed_image_id = some id })
                (λ j h. h),
        )
        depth 10

  seed_then :
      (j : Job) (b c : Bool)
      → is_set j.instance_id ≡ c
      → Triple
          (λ w. Booked w × (w.job ≡ j))
          (when b (resolve_seed_image o) >>= λ u. when (not c) (launch o))
          (λ u. Booked)
          Booked
  seed_then j b true e =
      Triple-from (λ w p. p.0)
        (Triple-Keeps (Keeps-bind _ _ (Keeps-when b _ seed-Booked) λ u. Keeps-skip))
  seed_then j b false e =
      Triple-from (λ w p. (p.0, record { on_job = rw (p.1) e }))
        (Triple-bind (λ u w. Booked w × OfJob NoInstance w)
          (Triple-weaken _ Booked (λ w p. p.0)
            (Triple-Keeps (Keeps-when b _ (Keeps-both seed-Booked seed_job))))
          λ u. launch-Booked)

  pub seed_and_launch-Booked : Keeps Booked (seed_and_launch o)
  unfolding seed_and_launch get_job
  seed_and_launch-Booked = Keeps-Triple (
      Triple-bind (λ j w. Booked w × (w.job ≡ j)) record { at = λ w p. (p, refl) }
        λ j. seed_then j _ _ refl)

  -- A volume is created for a disk that has none, and not for the boot disk.
  abbrev Vacant : ℕ → Job → Type 0
  Vacant k j = vacant k j.disks ≡ true

  volume-Extends :
      (k : ℕ) (id : String) (j : Job)
      → Vacant (suc k) j
      → Extends j (record j { disks = modify (suc k) (set_volume id) j.disks })
  unfolding modify
  volume-Extends k id j v = record {
    instance_kept = λ other s h. h;
    volumes_kept = λ other s. old other s j.disks v;
  }
    where
      old :
          (other : String)
          → is_set (some other) ≡ true
          → (ds : List DiskState) → vacant (suc k) ds ≡ true
          → has_volume other (data_disks ds) ≡ true
          → has_volume other (data_disks (modify (suc k) (set_volume id) ds)) ≡ true
      old other s [] v h = h
      old other s (d ∷ ds) v h = has_volume-vacant id other k ds s v h

  volume_kept :
      (k : ℕ) (id : String) (ds : List DiskState)
      → vacant (suc k) ds ≡ true
      → (not (is_set (some id)) || has_volume id (data_disks (modify (suc k) (set_volume id) ds)))
        ≡ true
  unfolding modify
  volume_kept k id [] v = absurd (cc v)
  volume_kept k id (d ∷ ds) v = rw (has_volume-new id k ds v) (ground arith)

  new_volume-Booked :
      (k : ℕ) (d : DiskState)
      → Triple
          (λ w. Booked w × OfJob (Vacant (suc k)) w)
          (new_volume o (suc k) d)
          (λ u. Booked)
          Booked
  unfolding new_volume
  new_volume-Booked k d =
      Triple-bind (λ u w. Booked w × OfJob (Vacant (suc k)) w)
        (Triple-weaken _ Booked (λ w p. p.0) (Triple-Keeps both_step))
        λ u.
          Triple-create o {R = Vacant (suc k)} (create_volume d.index d.size_gb)
            (λ id j. record j { disks = modify (suc k) (set_volume id) j.disks }) (volume-Extends k)
            (λ id j v. volume_kept k id j.disks v)
            λ id. await_then (volume_state (some id)) "AVAILABLE"

  unset_vacant :
      (k : ℕ) (ds : List DiskState) (d : DiskState)
      → disk_at k ds ≡ some d
      → not (is_set d.volume_id) ≡ true
      → vacant k ds ≡ true
  unset_vacant k [] d e h = absurd (cc e)
  unset_vacant zero (x ∷ ds) d e h = ground (arith, e)
  unset_vacant (suc k) (x ∷ ds) d e h = unset_vacant k ds d e h

  pub create_one-Booked : (k : ℕ) → Keeps Booked (create_one o (suc k))
  unfolding create_one
  create_one-Booked k = Keeps-Triple (
      Triple-on_disk (suc k) _ (λ w p. p.0)
        λ d.
          Triple-when _ (λ w p. p.0)
            λ unset.
              Triple-from
                (λ w p. (p.0, record { on_job = unset_vacant (suc k) w.job.disks d p.1 unset }))
                (new_volume-Booked k d))
