-- ===== src/Disk/Vmdk/Encoder/RoundTrip.antt =====
-- What the encoder of helper/helper_app/disk/vmdk_stream.py writes, the decoder reads back.
use vmware_migration_helper.Base.{
  ℕ, zero, suc, ◌+◌, ◌-◌, ◌*◌, ◌/◌, ◌%◌, ◌^◌, ◌≤◌, ◌<◌, ◌≡◌, refl, ap, ◌∙◌, true, false, List, [],
  ◌∷◌, ◌++◌, append_assoc, arith, ◌==◌, length, drop, length-append, length-take, length-drop, All,
  sum_by,
}
use vmware_migration_helper.Base.Bytes.{Bytes, codes, ljust, length-ljust, length-replicate}
use native.Mathlib.Nat.{mul-div_cancel, le-div_iff_mul-le, div-mul-le_self}
use vmware_migration_helper.Disk.Vmdk.{
  SparseExtentHeader, ok, sector, capacity_bytes, grain_bytes, is_version, is_grain, marker_gt,
  marker_gd, marker_footer, marker_eos, default_gtes_per_gt, gd_at_end,
}
use vmware_migration_helper.Disk.Vmdk.Header.{length-pack}
use vmware_migration_helper.Disk.Vmdk.Decoder.{
  Write, st_done, Core, Config, round_up, capacity_matches, decode, DecodeStats,
}
use vmware_migration_helper.Disk.Vmdk.Decoder.Reads.{
  Reads-metadata, Reads-eos, IsMetadata, marker_bytes, length-marker_bytes,
}
use vmware_migration_helper.Disk.Vmdk.Decoder.Grains.{
  At, stats_of, decode_whole, validate_header_lem,
}
use vmware_migration_helper.Disk.Vmdk.Encoder.{
  Grain, Output, emit, table_of, put_tables, put_end, num_gts, num_grains, header_of, overhead_for,
  descriptor_sectors, build_descriptor, encode_stream_optimized,
}
use vmware_migration_helper.Disk.Vmdk.Encoder.Rules.{
  Returned, made, Returned-bind, pack_ints-Returned, pack_header-Returned, marker-Returned,
}
use vmware_migration_helper.Disk.Vmdk.Encoder.Pieces.{
  emit-Wrote, Encoded, put_front-Encoded, all_writes, IsPlaced, Inverts, put_grains-Grained,
}

-- One metadata marker more.
At-marker :
    {h : SparseExtentHeader} {ws : List Write} {m : ℕ} {c : Core}
    → At h ws m c
    → At h ws (m + 1) (record c { metadata_markers = c.metadata_markers + 1 })
At-marker a = record {
  state = a.state;
  header = a.header;
  writes = a.writes;
  grains_written = a.grains_written;
  bytes_written = a.bytes_written;
  metadata_markers = rw a.metadata_markers refl;
}

module _ (cfg : Config) (h : SparseExtentHeader) (ws : List Write) where
  emit_out : (a b : Bytes) (o : Output) → emit b (emit a o) ≡ emit (a ++ b) o
  unfolding emit
  emit_out a b o = ground (arith, append_assoc o.out a b, length-append a b)

  -- A marker and what it announces.
  emit-metadata :
      (m : ℕ) (o : Output) (val mtype : ℕ) (payload : Bytes)
      → val < 256 ^ 8
      → IsMetadata mtype
      → length payload ≡ val * sector
      → Encoded cfg h ws m o
      → Encoded cfg h ws (m + 1) (emit payload (emit (marker_bytes val mtype) o))
  emit-metadata m o val mtype payload p q e (c, w, a) =
      rw (emit_out (marker_bytes val mtype) payload o) (
        _,
        emit-Wrote w (Reads-metadata cfg h c a.state a.header val mtype payload p q e),
        At-marker a,
      )

  length-table_of :
      (entries : List ℕ) (n i : ℕ)
      → length entries ≡ n * default_gtes_per_gt
      → i < n
      → length (table_of entries i) ≡ default_gtes_per_gt
  length-table_of entries n i e lt = omega (
    arith,
    length-take default_gtes_per_gt (drop (i * default_gtes_per_gt) entries),
    length-drop (i * default_gtes_per_gt) entries,
  )

  put_tables-Encoded :
      (entries : List ℕ) (n i left m : ℕ) (s : Output × List ℕ)
      → length entries ≡ n * default_gtes_per_gt
      → i + left ≡ n
      → Encoded cfg h ws m s.0
      → Returned (λ t. Encoded cfg h ws (m + left) t.0) (put_tables entries i left s)
  unfolding put_tables
  put_tables-Encoded entries n i zero m s e k a = let z : m + 0 ≡ m = omega arith in rw z (made a)
  put_tables-Encoded entries n i (suc left) m (o, gd) e k a =
      Returned-bind (marker-Returned (default_gtes_per_gt * 4 / sector) 0 marker_gt) λ b p.
        Returned-bind (pack_ints-Returned 4 (table_of entries i)) λ table q.
          let size : length table ≡ (default_gtes_per_gt * 4 / sector) * sector =
            omega (arith, length-table_of entries n i e (omega arith)) in
          let next =
            emit-metadata m o (default_gtes_per_gt * 4 / sector) marker_gt table (omega arith) refl
              size a in
          let count : m + suc left ≡ (m + 1) + left = omega arith in
          rw (p.0, count) (put_tables-Encoded entries n (i + 1) left (m + 1) _ e (omega arith) next)

-- What the decoder returns for a stream with these writes and so many metadata markers.
abbrev pub stats_for : List Write → ℕ → Output → DecodeStats
stats_for ws m o = record {
  bytes_consumed = o.written;
  grains_written = length ws;
  bytes_written = sum_by (λ w. length w.1) ws;
  metadata_markers = m;
  finished = true;
  writes = ws;
}

-- The count is right, and the decoder makes the writes.
abbrev pub Decodes : Config → List Write → ℕ → Output → Type 0
Decodes cfg ws m o = (o.written ≡ length o.out) × (decode cfg (o.out ∷ []) ≡ ok (stats_for ws m o))

stats-At :
    {h : SparseExtentHeader} {ws : List Write} {m n : ℕ} (c : Core) (o : Output)
    → At h ws m c
    → o.written ≡ n
    → stats_of (record c { state = st_done; metadata_markers = c.metadata_markers + 1 }) n
      ≡ stats_for ws (m + 1) o
stats-At c o a e = rw (a.writes, a.grains_written, a.bytes_written, a.metadata_markers, e) refl

emit_longer : (b : Bytes) (o : Output) → length b ≤ length (emit b o).out
unfolding emit
emit_longer b o = omega (arith, length-append o.out b)

module _ (cfg : Config) (h : SparseExtentHeader) (ws : List Write) where
  put_eos-Decodes :
      (m : ℕ) (o : Output)
      → Encoded cfg h ws m o
      → Decodes cfg ws (m + 1) (emit (marker_bytes 0 marker_eos) o)
  put_eos-Decodes m o (c, w, a) =
      let last = emit-Wrote w (Reads-eos cfg h c a.state a.header) in
      let some_bytes : 0 < length (emit (marker_bytes 0 marker_eos) o).out =
        omega
          (arith, emit_longer (marker_bytes 0 marker_eos) o, length-marker_bytes 0 marker_eos) in
      (
        last.counted,
        decode_whole cfg _ _ some_bytes last.reads refl
            ∙ ap ok (stats-At c (emit (marker_bytes 0 marker_eos) o) a last.counted),
      )

  put_end-Decodes :
      (m : ℕ) (s : Output × List ℕ)
      → is_version h.version ≡ true
      → is_grain h.grain_sectors ≡ true
      → Encoded cfg h ws m s.0
      → Returned (Decodes cfg ws (m + 3)) (put_end h s)
  unfolding put_end
  put_end-Decodes m (o, gd) v g a = Returned-bind (pack_ints-Returned 4 gd) λ gd_bytes size.
      let gd_sectors = round_up (length gd_bytes) sector / sector in
      let padded = ljust (gd_sectors * sector) gd_bytes in
      Returned-bind (marker-Returned gd_sectors 0 marker_gd) λ b p.
        Returned-bind (marker-Returned 1 0 marker_footer) λ f q.
          Returned-bind (pack_header-Returned _ v g) λ footer r.
            Returned-bind (marker-Returned 0 0 marker_eos) λ e t.
              let directory =
                emit-metadata cfg h ws m o gd_sectors marker_gd padded p.1 refl
                  (length-ljust (gd_sectors * sector) gd_bytes (omega arith)) a in
              let count : m + 3 ≡ (m + 1 + 1) + 1 = omega arith in
              rw (p.0, q.0, r.0, t.0, count)
                (made (
                  put_eos-Decodes (m + 1 + 1) _ (
                    emit-metadata cfg h ws (m + 1) _ 1 marker_footer _ q.1 refl (length-pack _)
                      directory)))

num_grains_lem : (cap g : ℕ) → 0 < g → num_grains cap g ≡ (cap + g - 1) / g
num_grains_lem cap g pos = mul-div_cancel ((cap + g - 1) / g) pos

-- The tables have an entry for every grain of the disk.
num_gts_cover : (cap g lba : ℕ) → 0 < g → lba < cap → lba / g < num_gts cap g * default_gtes_per_gt
num_gts_cover cap g lba pos lt =
    let below : lba / g * g ≤ lba = div-mul-le_self lba g in
    let fits : lba / g + 1 ≤ (cap + g - 1) / g = (le-div_iff_mul-le pos).1 (grind arith) in
    omega (arith, num_grains_lem cap g pos)

-- The header that the encoder writes first.
abbrev pub header_for : (capacity grain_sectors overhead : ℕ) → Bytes → SparseExtentHeader
header_for capacity grain_sectors overhead name =
    let d = descriptor_sectors (build_descriptor (capacity / sector) name (codes "lsilogic")) in
    header_of (capacity / sector) grain_sectors d (overhead_for d overhead) gd_at_end

-- The capacity is a whole number of sectors; the size of a grain in sectors is a power of two, which the decoder
-- insists on and the encoder does not test; the grains are in their places; the decoder expects no capacity, or
-- this one; its inflate undoes the encoder's compress, which never returns nothing; and its writes work. Then
-- `encode_stream_optimized` either raises because a number does not fit its field, or returns the number of
-- bytes written, and from these the decoder makes, in order, exactly the writes of the grains that are not all
-- zeros, each at its full size and cut at the end of the disk, and finishes.
pub encode-Decodes :
    (cfg : Config) (compress : Bytes → Bytes) (capacity : ℕ) (grains : List Grain)
    (grain_sectors overhead : ℕ) (name : Bytes)
    → let h = header_for capacity grain_sectors overhead name in
      Inverts cfg compress
      → capacity_matches cfg.expected_capacity h ≡ true
      → capacity % sector ≡ 0
      → is_grain grain_sectors ≡ true
      → All (IsPlaced h) grains
      → Returned
          (Decodes cfg
            (all_writes cfg.skip_zero (capacity_bytes h) (grain_bytes h) grains)
            (num_gts (capacity / sector) grain_sectors + 3))
          (encode_stream_optimized compress capacity grains grain_sectors overhead name)
unfolding encode_stream_optimized
encode-Decodes cfg compress capacity grains grain_sectors overhead name z expects aligned power
      placed =
    let cap = capacity / sector in
    let gts = num_gts cap grain_sectors in
    let n = gts * default_gtes_per_gt in
    let descriptor = build_descriptor cap name (codes "lsilogic") in
    let d = descriptor_sectors descriptor in
    let h = header_for capacity grain_sectors overhead name in
    let pos : 0 < grain_sectors = ground arith in
    let t : (capacity % sector == 0) ≡ true = ground arith in
    let u : (grain_sectors == 0) ≡ false = ground arith in
    let room : 1 + d ≤ overhead_for d overhead = ground arith in
    let valid = validate_header_lem cfg h refl refl (omega arith) expects in
    rw (t, u)
      (Returned-bind (put_front-Encoded cfg h descriptor refl power valid (omega arith) room) λ o a.
        Returned-bind
          (put_grains-Grained cfg compress z h n grains [] _ placed
            (λ lba lt. num_gts_cover cap grain_sectors lba pos lt) (a, length-replicate n 0))
          λ s b.
            Returned-bind (put_tables-Encoded cfg h _ s.1 gts 0 gts 0 _ b.1 (omega arith) b.0)
              λ r k.
                let count : 0 + gts ≡ gts = omega arith in
                put_end-Decodes cfg h _ gts r refl power (rw count at k))
