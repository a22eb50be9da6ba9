-- ===== src/Disk/Vmdk/Encoder.antt =====
-- The encoder of helper/helper_app/disk/vmdk_stream.py: `encode_stream_optimized` and its callers. The file that is
-- written to is the bytes so far, `zlib.compress` at the level in use is a parameter, and `extent_name`
-- and `adapter` stand for their UTF-8. The file that is read gives all the bytes asked for, if it has them.
pub mod Rules
pub mod Pieces
pub mod RoundTrip
pub mod Image
use vmware_migration_helper.Base.{
  ℕ, zero, suc, ◌+◌, ◌-◌, ◌*◌, ◌/◌, ◌%◌, ◌^◌, max, Bool, true, false, not, ◌&&◌, List, [], ◌∷◌,
  ◌++◌, ltb, leb, ◌==◌, if◌then◌else◌, length, take, drop, replicate, set,
}
use vmware_migration_helper.Base.Bytes.{Bytes, to_le, all_zero, ljust, codes, decimal}
use vmware_migration_helper.Disk.Vmdk.{
  SparseExtentHeader, Result, ok, err, ◌>>=◌, ◌>>◌, check, pack, sector, flag_newline_valid,
  flag_compressed, flag_markers, compression_deflate, gd_at_end, default_overhead_sectors,
  default_gtes_per_gt, marker_eos, marker_gt, marker_gd, marker_footer, unaligned_capacity,
  unaligned_grain, large_grain, zero_division, bad_index, unpackable,
}
use vmware_migration_helper.Disk.Vmdk.Decoder.{round_up}

-- A sector number and the bytes there.
abbrev pub Grain : Type 0
Grain = ℕ × Bytes

unfoldable pub build_descriptor : ℕ → Bytes → Bytes → Bytes
build_descriptor capacity_sectors extent_name adapter =
    codes "# Disk DescriptorFile\nversion=1\nCID=fffffffe\nparentCID=ffffffff\n"
    ++ (codes "createType=\"streamOptimized\"\n\n# Extent description\nRW "
        ++ (decimal capacity_sectors
            ++ (codes " SPARSE \""
                ++ (extent_name
                    ++ (codes "\"\n\n# The Disk Data Base\n#DDB\n\nddb.adapterType = \""
                        ++ (adapter
                            ++ (codes "\"\nddb.geometry.cylinders = \""
                                ++ (decimal (max 1 (capacity_sectors / (16 * 63)))
                                    ++ codes
                                        "\"\nddb.geometry.heads = \"16\"\nddb.geometry.sectors = \"63\"\nddb.virtualHWVersion = \"4\"\n"))))))))

-- Whether `struct.pack` takes a number for an unsigned field of so many bytes.
abbrev pub fits : ℕ → ℕ → Bool
fits n v = ltb v (256 ^ n)

unfoldable pub pack_int : ℕ → ℕ → Result Bytes
pack_int n v = check (fits n v) unpackable >> ok (to_le n v)

-- `struct.pack(f"<{len(vs)}I", *vs)`, for n = 4
unfoldable pub pack_ints : ℕ → List ℕ → Result Bytes
pack_ints n [] = ok []
pack_ints n (v ∷ vs) = do b ← pack_int n v; bs ← pack_ints n vs; ok (b ++ bs)

abbrev pub header_fits : SparseExtentHeader → Bool
header_fits h =
    fits 4 h.version
    && (fits 4 h.flags
        && (fits 8 h.capacity_sectors
            && (fits 8 h.grain_sectors
                && (fits 8 h.descriptor_offset
                    && (fits 8 h.descriptor_sectors
                        && (fits 4 h.gtes_per_gt
                            && (fits 8 h.rgd_offset
                                && (fits 8 h.gd_offset
                                    && (fits 8 h.overhead_sectors
                                        && fits 2 h.compress_algorithm)))))))))

-- `header.pack()` with its error
unfoldable pub pack_header : SparseExtentHeader → Result Bytes
pack_header h = check (header_fits h) unpackable >> ok (pack h)

-- `_marker`
unfoldable pub marker : ℕ → ℕ → ℕ → Result Bytes
marker val size mtype = do
  v ← pack_int 8 val
  s ← pack_int 4 size
  m ← pack_int 4 mtype
  ok (ljust sector (v ++ (s ++ m)))

-- What was written, with the count `written`.
pub record Output : Type 0 where
  pub out : Bytes
  pub written : ℕ

unfoldable pub emit : Bytes → Output → Output
emit b o = record { out = o.out ++ b; written = o.written + length b }

-- `gt_entries[i] = v`
unfoldable pub set_entry : List ℕ → ℕ → ℕ → Result (List ℕ)
set_entry entries i v = check (ltb i (length entries)) bad_index >> ok (set entries i v)

abbrev pub num_grains : ℕ → ℕ → ℕ
num_grains capacity_sectors grain_sectors = round_up capacity_sectors grain_sectors / grain_sectors

abbrev pub num_gts : ℕ → ℕ → ℕ
num_gts capacity_sectors grain_sectors =
    max 1 (
      round_up (num_grains capacity_sectors grain_sectors) default_gtes_per_gt
      / default_gtes_per_gt)

abbrev pub descriptor_sectors : Bytes → ℕ
descriptor_sectors descriptor = max 1 (round_up (length descriptor) sector / sector)

-- `overhead_sectors`, raised where the descriptor does not fit
abbrev pub overhead_for : ℕ → ℕ → ℕ
overhead_for desc_sectors overhead_sectors =
    if ltb overhead_sectors (1 + desc_sectors)
    then round_up (1 + desc_sectors) default_overhead_sectors
    else overhead_sectors

abbrev pub header_of :
    (capacity_sectors grain_sectors desc_sectors overhead gd_offset : ℕ) → SparseExtentHeader
header_of capacity_sectors grain_sectors desc_sectors overhead gd_offset = record {
  version = 3;
  flags = flag_newline_valid + flag_compressed + flag_markers;
  capacity_sectors = capacity_sectors;
  grain_sectors = grain_sectors;
  descriptor_offset = 1;
  descriptor_sectors = desc_sectors;
  gtes_per_gt = default_gtes_per_gt;
  rgd_offset = 0;
  gd_offset = gd_offset;
  overhead_sectors = overhead;
  unclean_shutdown = false;
  compress_algorithm = compression_deflate;
}

-- The header, the descriptor, and zeros up to the overhead.
unfoldable pub put_front : SparseExtentHeader → Bytes → Result Output
put_front h descriptor = do
  first ← pack_header h
  ok (
      emit (replicate ((h.overhead_sectors - 1 - h.descriptor_sectors) * sector) 0) (
        emit (ljust (h.descriptor_sectors * sector) descriptor)
          (emit first (record { out = []; written = 0 }))))

module _ (compress : Bytes → Bytes) (grain_sectors : ℕ) where
  -- The rest of a round of the loop over the grains, for one that is not all zeros.
  unfoldable pub put_data : ℕ → Bytes → Output × List ℕ → Result (Output × List ℕ)
  put_data lba whole (o, entries) = do
    let comp = compress whole
    entries' ← set_entry entries (lba / grain_sectors) (o.written / sector)
    l ← pack_int 8 lba
    s ← pack_int 4 (length comp)
    let body = l ++ (s ++ comp)
    ok (emit (ljust (round_up (length body) sector) body) o, entries')

  unfoldable pub put_grain : Grain → Output × List ℕ → Result (Output × List ℕ)
  put_grain (lba, bytes) s = do
    check (lba % grain_sectors == 0) unaligned_grain
    check (leb (length bytes) (grain_sectors * sector)) large_grain
    if all_zero bytes then ok s else put_data lba (ljust (grain_sectors * sector) bytes) s

  unfoldable pub put_grains : List Grain → Output × List ℕ → Result (Output × List ℕ)
  put_grains [] s = ok s
  put_grains (g ∷ grains) s = put_grain g s >>= put_grains grains

-- `gt_entries[i * gtes : (i + 1) * gtes]`
abbrev pub table_of : List ℕ → ℕ → List ℕ
table_of entries i = take default_gtes_per_gt (drop (i * default_gtes_per_gt) entries)

-- The grain tables from the i-th on, with the sectors where they are.
unfoldable pub put_tables : List ℕ → (i left : ℕ) → Output × List ℕ → Result (Output × List ℕ)
put_tables entries i zero s = ok s
put_tables entries i (suc left) (o, gd_entries) = do
  m ← marker (default_gtes_per_gt * 4 / sector) 0 marker_gt
  table ← pack_ints 4 (table_of entries i)
  let here = emit m o
  put_tables entries (i + 1) left (emit table here, gd_entries ++ (here.written / sector) ∷ [])

-- The grain directory, the footer and the end mark.
unfoldable pub put_end : SparseExtentHeader → Output × List ℕ → Result Output
put_end h (o, gd_entries) = do
  gd_bytes ← pack_ints 4 gd_entries
  let gd_sectors = round_up (length gd_bytes) sector / sector
  m ← marker gd_sectors 0 marker_gd
  let here = emit m o
  f ← marker 1 0 marker_footer
  footer ← pack_header (record h { gd_offset = here.written / sector })
  e ← marker 0 0 marker_eos
  ok (emit e (emit footer (emit f (emit (ljust (gd_sectors * sector) gd_bytes) here))))

-- `encode_stream_optimized`: what it writes, and as `written` what it returns.
unfoldable pub encode_stream_optimized :
    (compress : Bytes → Bytes) (capacity_bytes : ℕ) (grains : List Grain)
    (grain_sectors overhead_sectors : ℕ) (extent_name : Bytes)
    → Result Output
encode_stream_optimized compress capacity_bytes grains grain_sectors overhead_sectors extent_name =
    do
      check (capacity_bytes % sector == 0) unaligned_capacity
      check (not (grain_sectors == 0)) zero_division
      let capacity_sectors = capacity_bytes / sector
      let gts = num_gts capacity_sectors grain_sectors
      let descriptor = build_descriptor capacity_sectors extent_name (codes "lsilogic")
      let desc_sectors = descriptor_sectors descriptor
      let h =
          header_of capacity_sectors grain_sectors desc_sectors
            (overhead_for desc_sectors overhead_sectors) gd_at_end
      o ← put_front h descriptor
      (o', entries) ←
          put_grains compress grain_sectors grains (o, replicate (gts * default_gtes_per_gt) 0)
      s ← put_tables entries 0 gts (o', [])
      put_end h s

-- `iter_grains_from_file`; every round reads a byte at least.
unfoldable pub iter_grains : (fuel grain_bytes lba : ℕ) → Bytes → List Grain
iter_grains zero grain_bytes lba src = []
iter_grains (suc fuel) grain_bytes lba src =
    let rest = iter_grains fuel grain_bytes (lba + grain_bytes / sector) (drop grain_bytes src) in
    elim (take grain_bytes src) [
      | [] ↦ []
      | b ∷ bs ↦ if all_zero (b ∷ bs) then rest else (lba, b ∷ bs) ∷ rest
    ]

-- `encode_raw_bytes`, with the other parameters as the caller gives them
unfoldable pub encode_raw_bytes :
    (compress : Bytes → Bytes) (raw : Bytes) (grain_sectors overhead_sectors : ℕ)
    (extent_name : Bytes)
    → Result Output
encode_raw_bytes compress raw grain_sectors overhead_sectors extent_name =
    let capacity = round_up (length raw) sector in
    let padded = ljust capacity raw in
    encode_stream_optimized compress capacity
      (iter_grains (suc (length padded)) (grain_sectors * sector) 0 padded) grain_sectors
      overhead_sectors extent_name

unfoldable pub encode_empty_disk :
    (compress : Bytes → Bytes) (capacity_bytes : ℕ) (grain_sectors overhead_sectors : ℕ)
    (extent_name : Bytes)
    → Result Output
encode_empty_disk compress capacity_bytes grain_sectors overhead_sectors extent_name =
    encode_stream_optimized compress capacity_bytes [] grain_sectors overhead_sectors extent_name
