-- ===== src/Oci/Provision/Positions.antt =====
-- The disks of a job by their positions, for the loops of helper/helper_app/oci/provision.py.
use vmware_migration_helper.Base.{
  ℕ, zero, suc, ◌<◌, ◌≡◌, refl, sym, ◌∙◌, ◌≢◌, arith, some, List, [], ◌∷◌, All, length,
}
use mathlib.Core.Option.{some-injective}
use native.Mathlib.Decide.{dec_lt}
use vmware_migration_helper.Jobs.Model.{DiskState}
use vmware_migration_helper.Jobs.Runner.{modify}
use vmware_migration_helper.Oci.Provision.{disk_at}

module _ (D : DiskState → Type 0) where
  -- The disk at the position, if there is one, and the disks before a position.
  abbrev pub At : ℕ → List DiskState → Type 0
  At k ds = (d : DiskState) → disk_at k ds ≡ some d → D d

  abbrev pub Upto : ℕ → List DiskState → Type 0
  Upto k ds = (n : ℕ) → n < k → At n ds

  pub Upto-zero : (ds : List DiskState) → Upto 0 ds
  Upto-zero ds n lt = absurd (omega arith)

  pub Upto-suc : (k : ℕ) (ds : List DiskState) → Upto k ds → At k ds → Upto (suc k) ds
  Upto-suc k ds before last n lt d e = elim (dec_lt n k) [
    | yes below ↦ before n below d e
    | no stop ↦ let at : n ≡ k = omega arith in last d (rw (← at) e)
  ]

  pub All-Upto : (ds : List DiskState) → Upto (length ds) ds → All D ds
  All-Upto [] h = tt
  All-Upto (d ∷ ds) h = (h 0 (omega arith) d refl, All-Upto ds (λ n lt. h (suc n) (omega arith)))

  pub At-of_All : (k : ℕ) (ds : List DiskState) → All D ds → At k ds
  At-of_All k [] h d e = absurd (cc e)
  At-of_All zero (x ∷ ds) h d e = rw (← some-injective x d e) h.0
  At-of_All (suc k) (x ∷ ds) h d e = At-of_All k ds h.1 d e

module _ (f : DiskState → DiskState) where
  pub length-modify : (k : ℕ) (ds : List DiskState) → length (modify k f ds) ≡ length ds
  unfolding modify
  length-modify k [] = refl
  length-modify zero (d ∷ ds) = refl
  length-modify (suc k) (d ∷ ds) = rw (length-modify k ds) refl

  disk_at-modify_other :
      (n k : ℕ) (ds : List DiskState) → n ≢ k → disk_at n (modify k f ds) ≡ disk_at n ds
  unfolding modify
  disk_at-modify_other n k [] h = refl
  disk_at-modify_other zero zero (d ∷ ds) h = absurd (h refl)
  disk_at-modify_other zero (suc k) (d ∷ ds) h = refl
  disk_at-modify_other (suc n) zero (d ∷ ds) h = refl
  disk_at-modify_other (suc n) (suc k) (d ∷ ds) h =
      disk_at-modify_other n k ds (λ e. h (omega arith))

  module _ (D : DiskState → Type 0) where
    -- The changed disk is what the change makes of the old one.
    pub At-modify :
        (k : ℕ) (ds : List DiskState)
        → ((d : DiskState) → disk_at k ds ≡ some d → D (f d))
        → At D k (modify k f ds)
    unfolding modify
    At-modify k [] h d e = absurd (cc e)
    At-modify zero (x ∷ ds) h d e = rw (← some-injective (f x) d e) (h x refl)
    At-modify (suc k) (x ∷ ds) h d e = At-modify k ds h d e

    -- The disks before the changed one stay.
    pub Upto-modify : (k : ℕ) (ds : List DiskState) → Upto D k ds → Upto D k (modify k f ds)
    Upto-modify k ds h n lt d e =
        h n lt d (sym (disk_at-modify_other n k ds (λ s. absurd (omega arith))) ∙ e)

    pub All-modify :
        (k : ℕ) (ds : List DiskState)
        → ((d : DiskState) → D d → D (f d))
        → All D ds
        → All D (modify k f ds)
    unfolding modify
    All-modify k [] h p = tt
    All-modify zero (d ∷ ds) h p = (h d p.0, p.1)
    All-modify (suc k) (d ∷ ds) h p = (p.0, All-modify k ds h p.1)
