-- ===== src/Disk/Vmdk/Header.antt =====
-- The header survives packing and unpacking.
use vmware_migration_helper.Base.{
  ◌^◌, ◌<◌, ◌≡◌, refl, Bool, true, false, arith, ◌==◌, length, length-append, take_all,
  if◌then◌else◌, not,
}
use vmware_migration_helper.Base.Bytes.{take-to_le, drop-to_le, from_le-to_le, length-to_le}
use vmware_migration_helper.Disk.Vmdk.{
  SparseExtentHeader, sector, vmdk_magic, pack, unpack, ok, is_version, is_grain,
}

-- Every field fits its place in the header, and the version and the grain size are supported.
pub record IsPackable (h : SparseExtentHeader) : Type 0 where
  pub version_fits : h.version < 256 ^ 4
  pub flags_fits : h.flags < 256 ^ 4
  pub capacity_fits : h.capacity_sectors < 256 ^ 8
  pub grain_fits : h.grain_sectors < 256 ^ 8
  pub descriptor_offset_fits : h.descriptor_offset < 256 ^ 8
  pub descriptor_sectors_fits : h.descriptor_sectors < 256 ^ 8
  pub gtes_fits : h.gtes_per_gt < 256 ^ 4
  pub rgd_fits : h.rgd_offset < 256 ^ 8
  pub gd_fits : h.gd_offset < 256 ^ 8
  pub overhead_fits : h.overhead_sectors < 256 ^ 8
  pub compress_fits : h.compress_algorithm < 256 ^ 2
  pub version_known : is_version h.version ≡ true
  pub grain_power : is_grain h.grain_sectors ≡ true

pub length-pack : (h : SparseExtentHeader) → length (pack h) ≡ sector
unfolding pack
length-pack h = simp (length-append, length-to_le) (omega arith)

flag_round : (b : Bool) → not ((if b then 1 else 0) == 0) ≡ b
flag_round true = refl
flag_round false = refl

flag_fits : (b : Bool) → (if b then 1 else 0) < 256 ^ 1
flag_fits true = omega arith
flag_fits false = omega arith

-- `unpack` gives back the header that `pack` wrote.
pub unpack-pack : (h : SparseExtentHeader) → IsPackable h → unpack (pack h) ≡ ok h
unfolding unpack
unpack-pack h p =
    rw (length-pack h, take_all sector (pack h) (omega (arith, length-pack h)))
      (unfold pack in
        simp (
          take-to_le,
          drop-to_le,
          from_le-to_le 4 vmdk_magic (omega arith),
          from_le-to_le 4 h.version p.version_fits,
          from_le-to_le 4 h.flags p.flags_fits,
          from_le-to_le 8 h.capacity_sectors p.capacity_fits,
          from_le-to_le 8 h.grain_sectors p.grain_fits,
          from_le-to_le 8 h.descriptor_offset p.descriptor_offset_fits,
          from_le-to_le 8 h.descriptor_sectors p.descriptor_sectors_fits,
          from_le-to_le 4 h.gtes_per_gt p.gtes_fits,
          from_le-to_le 8 h.rgd_offset p.rgd_fits,
          from_le-to_le 8 h.gd_offset p.gd_fits,
          from_le-to_le 8 h.overhead_sectors p.overhead_fits,
          from_le-to_le 1 (if h.unclean_shutdown then 1 else 0) (flag_fits h.unclean_shutdown),
          from_le-to_le 2 h.compress_algorithm p.compress_fits,
          p.version_known,
          p.grain_power,
          flag_round h.unclean_shutdown,
        ))
