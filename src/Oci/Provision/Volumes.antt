-- ===== src/Oci/Provision/Volumes.antt =====
-- What a change of the disk records of helper/helper_app/oci/provision.py does to the volumes on them.
use vmware_migration_helper.Base.{
  ℕ, zero, suc, ◌≡◌, refl, sym, ap, ◌∙◌, Bool, true, false, not, ◌||◌, some, List, [], ◌∷◌, String,
  ◌=s=◌, eq_iff, arith, or_default, inl, inr, Bool-cases, map,
}
use vmware_migration_helper.Jobs.Model.{Job, DiskState, DiskSpec}
use vmware_migration_helper.Jobs.Runner.{modify}
use vmware_migration_helper.Oci.Provision.{is_set, data_disks}
use vmware_migration_helper.Oci.Provision.Prepare.{with_disks, sized, set_volume}
use vmware_migration_helper.Oci.Provision.Ledger.{has_volume, Extends}

module _ (f : DiskState → DiskState) (same : (d : DiskState) → (f d).volume_id ≡ d.volume_id) where
  has_volume-modify :
      (id : String) (k : ℕ) (ds : List DiskState) → has_volume id (modify k f ds) ≡ has_volume id ds
  unfolding modify
  has_volume-modify id k [] = refl
  has_volume-modify id zero (d ∷ ds) = rw (same d) refl
  has_volume-modify id (suc k) (d ∷ ds) = rw (has_volume-modify id k ds) refl

  has_volume-data :
      (id : String) (k : ℕ) (ds : List DiskState)
      → has_volume id (data_disks (modify k f ds)) ≡ has_volume id (data_disks ds)
  unfolding modify
  has_volume-data id k [] = refl
  has_volume-data id zero (d ∷ ds) = refl
  has_volume-data id (suc k) (d ∷ ds) = has_volume-modify id k ds

  -- A change of a disk that leaves its volume.
  pub disk-Extends : (k : ℕ) (j : Job) → Extends j (record j { disks = modify k f j.disks })
  disk-Extends k j = record {
    instance_kept = λ id s h. h;
    volumes_kept = λ id s h. has_volume-data id k j.disks ∙ h;
  }

has_volume-first :
    (f : DiskState → DiskState) (id : String) (ds : List DiskState)
    → has_volume id (data_disks (modify 0 f ds)) ≡ has_volume id (data_disks ds)
unfolding modify
has_volume-first f id [] = refl
has_volume-first f id (d ∷ ds) = refl

-- The boot disk's volume is not one that the provisioner creates.
pub boot-Extends :
    (f : DiskState → DiskState) (j : Job) → Extends j (record j { disks = modify 0 f j.disks })
boot-Extends f j = record {
  instance_kept = λ id s h. h;
  volumes_kept = λ id s h. has_volume-first f id j.disks ∙ h;
}

sized-volume : (n : ℕ) (d : DiskState) → (sized n d).volume_id ≡ d.volume_id
sized-volume n d = ground arith

has_volume-sized :
    (n : ℕ) (id : String) (ds : List DiskState)
    → has_volume id (map (sized n) ds) ≡ has_volume id ds
has_volume-sized n id [] = refl
has_volume-sized n id (d ∷ ds) = rw (sized-volume n d, has_volume-sized n id ds) refl

has_volume-with_disks :
    (n : ℕ) (id : String) (ds : List DiskState) (vs : List DiskSpec)
    → has_volume id (data_disks ds) ≡ true
    → has_volume id (data_disks (map (sized n) (with_disks ds vs))) ≡ true
has_volume-with_disks n id [] vs h = absurd (cc h)
has_volume-with_disks n id (d ∷ ds) vs h = has_volume-sized n id ds ∙ h

pub sized-Extends :
    (n : ℕ) (j : Job)
    → Extends j (record j { disks = map (sized n) (with_disks j.disks j.vm_disks) })
sized-Extends n j = record {
  instance_kept = λ id s h. h;
  volumes_kept = λ id s. has_volume-with_disks n id j.disks j.vm_disks;
}

-- The disk at the position has no volume yet.
abbrev pub vacant : ℕ → List DiskState → Bool
vacant k [] = false
vacant zero (d ∷ ds) = not (is_set d.volume_id)
vacant (suc k) (d ∷ ds) = vacant k ds

module _ (new : String) where
  pub has_volume-vacant :
      (id : String) (k : ℕ) (ds : List DiskState)
      → is_set (some id) ≡ true
      → vacant k ds ≡ true
      → has_volume id ds ≡ true
      → has_volume id (modify k (set_volume new) ds) ≡ true
  unfolding modify
  has_volume-vacant id k [] s v h = h
  has_volume-vacant id zero (d ∷ ds) s v h = later (has_volume id ds) h
    where
      unset : (or_default d.volume_id "" =s= id) ≡ false
      unset = ground (
        arith,
        eq_iff (or_default d.volume_id "") id,
        eq_iff id "",
        eq_iff (or_default d.volume_id "") "",
      )

      later : (b : Bool) → (or_default d.volume_id "" =s= id || b) ≡ true → (new =s= id || b) ≡ true
      later b e = ground (arith, unset)
  has_volume-vacant id (suc k) (d ∷ ds) s v h =
      elim (Bool-cases (or_default d.volume_id "" =s= id)) [
        | inl e ↦ rw e refl
        | inr e ↦
            rw (e, has_volume-vacant id k ds s v (sym (ap (λ b. b || has_volume id ds) e) ∙ h)) refl
      ]

  pub has_volume-new :
      (k : ℕ) (ds : List DiskState)
      → vacant k ds ≡ true
      → has_volume new (modify k (set_volume new) ds) ≡ true
  unfolding modify
  has_volume-new k [] v = absurd (cc v)
  has_volume-new zero (d ∷ ds) v = rw ((eq_iff new new).1 refl) refl
  has_volume-new (suc k) (d ∷ ds) v =
      rw (has_volume-new k ds v) (or_true (or_default d.volume_id "" =s= new))
    where
      or_true : (b : Bool) → (b || true) ≡ true
      or_true true = refl
      or_true false = refl
