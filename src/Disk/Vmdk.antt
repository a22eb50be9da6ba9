-- ===== src/Disk/Vmdk.antt =====
-- helper/helper_app/disk/vmdk_stream.py: constants, the sparse extent header and its errors.
pub mod Header
pub mod Decoder
pub mod Encoder
use Prim.Native.Nat.{bit_and}
use mathlib.Core.Path.{refl}
use vmware_migration_helper.Base.{
  ℕ, ◌+◌, ◌-◌, ◌*◌, ◌/◌, ◌≡◌, Bool, true, false, not, ◌&&◌, ◌||◌, Option, none, some, List, [], ◌∷◌,
  ◌++◌, ltb, leb, ◌==◌, if◌then◌else◌, length, take, replicate,
}
use vmware_migration_helper.Base.Bytes.{Bytes, to_le, read}

abbrev pub sector : ℕ
sector = 512

abbrev pub vmdk_magic : ℕ
vmdk_magic = 0x564D444B

abbrev pub flag_newline_valid : ℕ
flag_newline_valid = 0x1

abbrev pub flag_compressed : ℕ
flag_compressed = 0x10000

abbrev pub flag_markers : ℕ
flag_markers = 0x20000

abbrev pub compression_deflate : ℕ
compression_deflate = 1

abbrev pub gd_at_end : ℕ
gd_at_end = 0xFFFFFFFFFFFFFFFF

abbrev pub default_overhead_sectors : ℕ
default_overhead_sectors = 128

abbrev pub default_gtes_per_gt : ℕ
default_gtes_per_gt = 512

abbrev pub marker_eos : ℕ
marker_eos = 0

abbrev pub marker_gt : ℕ
marker_gt = 1

abbrev pub marker_gd : ℕ
marker_gd = 2

abbrev pub marker_footer : ℕ
marker_footer = 3

-- The `VmdkFormatError`s, one for each place that raises one; `write_failed` is an `OSError` of the
-- writer, and `out_of_fuel` is a loop of the model that did not end. The last ones are the encoder's: its
-- `ValueError`s, and the errors of a division, of an index and of `struct.pack`.
pub data Error : Type 0 where
  short_header bad_magic bad_version bad_grain not_stream_optimized bad_compression : Error
  bad_overhead bad_capacity unknown_marker inflate_failed beyond_capacity premature_end : Error
  no_header write_failed out_of_fuel : Error
  unaligned_capacity unaligned_grain large_grain zero_division bad_index unpackable : Error

pub data Result {ℓ} (A : Type ℓ) : Type ℓ where
  ok : A → Result A
  err : Error → Result A

-- `if not test: raise`
abbrev pub check : Bool → Error → Result (Unit {0})
check true error = ok tt
check false error = err error

infixl 10 ◌>>=◌ ◌>>◌
abbrev pub ◌>>=◌ {ℓ κ} :
    {Given : Type ℓ} {Made : Type κ} → Result Given → (Given → Result Made) → Result Made
err error >>= rest = err error
ok value >>= rest = rest value

abbrev pub ◌>>◌ {κ} : {Made : Type κ} → Result (Unit {0}) → Result Made → Result Made
first >> next = first >>= (λ done. next)

pub record SparseExtentHeader : Type 0 where
  pub version : ℕ
  pub flags : ℕ
  pub capacity_sectors : ℕ
  pub grain_sectors : ℕ
  pub descriptor_offset : ℕ
  pub descriptor_sectors : ℕ
  pub gtes_per_gt : ℕ
  pub rgd_offset : ℕ
  pub gd_offset : ℕ
  pub overhead_sectors : ℕ
  pub unclean_shutdown : Bool
  pub compress_algorithm : ℕ

abbrev pub capacity_bytes : SparseExtentHeader → ℕ
capacity_bytes h = h.capacity_sectors * sector

abbrev pub grain_bytes : SparseExtentHeader → ℕ
grain_bytes h = h.grain_sectors * sector

abbrev pub is_stream_optimized : SparseExtentHeader → Bool
is_stream_optimized h =
    not (bit_and h.flags flag_compressed == 0) && not (bit_and h.flags flag_markers == 0)

-- `HEADER_STRUCT.pack`, "<IIIQQQQIQQQB4sH433s"
unfoldable pub pack : SparseExtentHeader → Bytes
pack h =
    to_le 4 vmdk_magic
    ++ (to_le 4 h.version
        ++ (to_le 4 h.flags
            ++ (to_le 8 h.capacity_sectors
                ++ (to_le 8 h.grain_sectors
                    ++ (to_le 8 h.descriptor_offset
                        ++ (to_le 8 h.descriptor_sectors
                            ++ (to_le 4 h.gtes_per_gt
                                ++ (to_le 8 h.rgd_offset
                                    ++ (to_le 8 h.gd_offset
                                        ++ (to_le 8 h.overhead_sectors
                                            ++ (to_le 1 (if h.unclean_shutdown then 1 else 0)
                                                ++ (to_le 4 0x0A0D200A
                                                    ++ (to_le 2 h.compress_algorithm
                                                        ++ replicate 433 0)))))))))))))

-- `version not in (1, 2, 3)`
abbrev pub is_version : ℕ → Bool
is_version v = v == 1 || v == 2 || v == 3

-- `grain <= 0 or (grain & (grain - 1)) != 0` is the error.
abbrev pub is_grain : ℕ → Bool
is_grain g = ltb 0 g && bit_and g (g - 1) == 0

-- `HEADER_STRUCT.unpack`: the fields in the order of the bytes.
unfoldable pub unpack : Bytes → Result SparseExtentHeader
unpack bytes = do
  check (leb sector (length bytes)) short_header
  let (magic, b1) = read 4 (take sector bytes)
  let (version, b2) = read 4 b1
  let (flags, b3) = read 4 b2
  let (capacity, b4) = read 8 b3
  let (grain, b5) = read 8 b4
  let (desc_off, b6) = read 8 b5
  let (desc_size, b7) = read 8 b6
  let (gtes, b8) = read 4 b7
  let (rgd, b9) = read 8 b8
  let (gd, b10) = read 8 b9
  let (overhead, b11) = read 8 b10
  let (unclean, b12) = read 1 b11
  let (eol, b13) = read 4 b12
  let (compress, b14) = read 2 b13
  check (magic == vmdk_magic) bad_magic
  check (is_version version) bad_version
  check (is_grain grain) bad_grain
  ok (record {
    version = version;
    flags = flags;
    capacity_sectors = capacity;
    grain_sectors = grain;
    descriptor_offset = desc_off;
    descriptor_sectors = desc_size;
    gtes_per_gt = gtes;
    rgd_offset = rgd;
    gd_offset = gd;
    overhead_sectors = overhead;
    unclean_shutdown = not (unclean == 0);
    compress_algorithm = compress;
  })

module _ {ℓ κ} {Given : Type ℓ} {Made : Type κ} where
  -- Where a chain made a value, its first action returned.
  pub >>=-eq-ok :
      (first : Result Given) (rest : Given → Result Made) {made : Made}
      → (first >>= rest) ≡ ok made
      → (given : Given) × (first ≡ ok given) × (rest given ≡ ok made)
  >>=-eq-ok (err error) rest returned = absurd (cc)
  >>=-eq-ok (ok given) rest returned = (given, refl, returned)
