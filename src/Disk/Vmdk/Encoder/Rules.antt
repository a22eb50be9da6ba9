-- ===== src/Disk/Vmdk/Encoder/Rules.antt =====
-- What an action of the encoder in helper/helper_app/disk/vmdk_stream.py gives, unless a number does not fit its field.
use vmware_migration_helper.Base.{
  ℕ, ◌*◌, ◌^◌, ◌<◌, ◌≡◌, refl, ◌∙◌, ap, Bool, true, false, List, [], ◌∷◌, ◌++◌, arith, length,
  length-append,
}
use vmware_migration_helper.Base.Bytes.{to_le, ljust, length-to_le}
use vmware_migration_helper.Disk.Vmdk.{
  SparseExtentHeader, Result, ok, err, ◌>>=◌, ◌>>◌, check, unpackable, pack, sector, is_version,
  is_grain,
}
use vmware_migration_helper.Disk.Vmdk.Header.{IsPackable}
use vmware_migration_helper.Disk.Vmdk.Encoder.{
  fits, pack_int, pack_ints, header_fits, pack_header, marker,
}

-- The value is as said, or `struct.pack` raised.
pub data Returned {A : Type 0} (P : A → Type 0) : Result A → Type 0 where
  made : {a : A} → P a → Returned P (ok a)
  too_large : Returned P (err unpackable)

module _ {A : Type 0} where
  pub Returned-bind :
      {B : Type 0} {P : A → Type 0} {Q : B → Type 0} {m : Result A} {f : A → Result B}
      → Returned P m
      → ((a : A) → P a → Returned Q (f a))
      → Returned Q (m >>= f)
  Returned-bind (made {a} p) k = k a p
  Returned-bind too_large k = too_large

  pub Returned-check :
      {P : A → Type 0} (b : Bool) {m : Result A}
      → (b ≡ true → Returned P m)
      → Returned P (check b unpackable >> m)
  Returned-check true h = h refl
  Returned-check false h = too_large

pub pack_int-Returned : (n v : ℕ) → Returned (λ b. (b ≡ to_le n v) × (v < 256 ^ n)) (pack_int n v)
unfolding pack_int
pack_int-Returned n v = Returned-check (fits n v) λ e. made (refl, ground arith)

pub pack_ints-Returned :
    (n : ℕ) (vs : List ℕ) → Returned (λ b. length b ≡ n * length vs) (pack_ints n vs)
unfolding pack_ints
pack_ints-Returned n [] = made (omega arith)
pack_ints-Returned n (v ∷ vs) = Returned-bind (pack_int-Returned n v) λ b p.
    Returned-bind (pack_ints-Returned n vs) λ bs q.
      let first : length b ≡ n = ap length p.0 ∙ length-to_le n v in
      made (grind (arith, length-append b bs))

pub pack_header-Returned :
    (h : SparseExtentHeader)
    → is_version h.version ≡ true
    → is_grain h.grain_sectors ≡ true
    → Returned (λ b. (b ≡ pack h) × IsPackable h) (pack_header h)
unfolding pack_header
pack_header-Returned h v g = Returned-check (header_fits h) λ e. made (
  refl,
  record {
    version_fits = ground arith;
    flags_fits = ground arith;
    capacity_fits = ground arith;
    grain_fits = ground arith;
    descriptor_offset_fits = ground arith;
    descriptor_sectors_fits = ground arith;
    gtes_fits = ground arith;
    rgd_fits = ground arith;
    gd_fits = ground arith;
    overhead_fits = ground arith;
    compress_fits = ground arith;
    version_known = v;
    grain_power = g;
  },
)

pub marker-Returned :
    (val size mtype : ℕ)
    → Returned
        (λ b. (b ≡ ljust sector (to_le 8 val ++ (to_le 4 size ++ to_le 4 mtype))) × (val < 256 ^ 8))
        (marker val size mtype)
unfolding marker
marker-Returned val size mtype = Returned-bind (pack_int-Returned 8 val) λ v p.
    Returned-bind (pack_int-Returned 4 size)
      λ s q. Returned-bind (pack_int-Returned 4 mtype) λ m r. made (rw (p.0, q.0, r.0) (refl, p.1))
