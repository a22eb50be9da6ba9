-- ===== src/Disk/Vmdk/Decoder/Grains.antt =====
-- What the decoder makes of a grain, and of a whole stream.
use vmware_migration_helper.Base.{
  ℕ, zero, suc, ◌+◌, ◌-◌, ◌*◌, ◌^◌, ◌≤◌, ◌<◌, ◌≡◌, refl, sym, ap, ◌∙◌, ◌||◌, ◌&&◌, Bool, true,
  false, some, List, [], ◌∷◌, ◌++◌, append-nil, append_assoc, arith, leb, if◌then◌else◌, length,
  take, drop, replicate, length-append, take-append, take_all, sum_by,
}
use vmware_migration_helper.Base.Bytes.{
  Bytes, to_le, ljust, eq_bytes, all_zero, length-to_le, length-ljust,
}
use vmware_migration_helper.Disk.Vmdk.{
  SparseExtentHeader, ok, is_stream_optimized, compression_deflate, sector, capacity_bytes,
  grain_bytes,
}
use vmware_migration_helper.Disk.Vmdk.Decoder.{
  Write, st_markers, st_done, Core, Config, new, read_marker, marker_step, drain, feed, feed_all,
  finish, decode, DecodeStats, on_grain, emit_grain, emit_inflated, write_grain, extract_descriptor,
  validate_header, capacity_matches, clip, round_up,
}
use vmware_migration_helper.Disk.Vmdk.Decoder.Chunks.{drain_done, feed_first, decode_eq}
use vmware_migration_helper.Disk.Vmdk.Decoder.Reads.{
  at_bytes, Reads, by_step, consume_front, process_front, read_marker-grain, drop_twelve,
}

-- What the decoder is at: the header, the writes so far, the metadata markers.
pub record At (h : SparseExtentHeader) (ws : List Write) (m : ℕ) (c : Core) : Type 0 where
  pub state : c.state ≡ st_markers
  pub header : c.header ≡ some h
  pub writes : c.writes ≡ ws
  pub grains_written : c.grains_written ≡ length ws
  pub bytes_written : c.bytes_written ≡ sum_by (λ w. length w.1) ws
  pub metadata_markers : c.metadata_markers ≡ m

pub extract-At :
    (h : SparseExtentHeader) (b : Bytes) (c : Core)
    → At h [] 0 (record c { state = st_markers })
    → At h [] 0 (record (extract_descriptor h b c) { state = st_markers })
unfolding extract_descriptor
extract-At h b c a = ground arith

pub validate_header_lem :
    (cfg : Config) (h : SparseExtentHeader)
    → is_stream_optimized h ≡ true
    → h.compress_algorithm ≡ compression_deflate
    → 1 ≤ h.overhead_sectors
    → capacity_matches cfg.expected_capacity h ≡ true
    → validate_header cfg h ≡ ok tt
unfolding validate_header
validate_header_lem cfg h p q r e = ground arith

-- A grain marker with its compressed bytes, up to the end of a sector.
abbrev pub body_bytes : ℕ → Bytes → Bytes
body_bytes lba comp = to_le 8 lba ++ (to_le 4 (length comp) ++ comp)

abbrev pub framed : ℕ → Bytes → Bytes
framed lba comp = ljust (round_up (length (body_bytes lba comp)) sector) (body_bytes lba comp)

length-body_bytes : (lba : ℕ) (comp : Bytes) → length (body_bytes lba comp) ≡ 12 + length comp
length-body_bytes lba comp = simp (length-append, length-to_le) (omega arith)

length-framed :
    (lba : ℕ) (comp : Bytes) → length (framed lba comp) ≡ round_up (12 + length comp) sector
length-framed lba comp =
    length-ljust _ (body_bytes lba comp) (omega arith)
    ∙ ap (λ n. round_up n sector) (length-body_bytes lba comp)

framed_front :
    (lba : ℕ) (comp rest : Bytes)
    → framed lba comp ++ rest
      ≡ to_le 8 lba
        ++ (to_le 4 (length comp)
            ++ (comp
                ++ (replicate
                      (round_up (length (body_bytes lba comp)) sector
                        - length (body_bytes lba comp))
                      0
                    ++ rest)))
framed_front lba comp rest = simp append_assoc

take-framed : (lba : ℕ) (comp : Bytes) → take (length comp) (drop 12 (framed lba comp)) ≡ comp
take-framed lba comp =
    ap (λ l. take (length comp) (drop 12 l))
      (sym (append-nil (framed lba comp)) ∙ framed_front lba comp [])
    ∙ ap (take (length comp)) (drop_twelve lba (length comp) _)
    ∙ take-append (length comp) comp _ (omega arith)
    ∙ take_all (length comp) comp (omega arith)

pub Reads-grain :
    (cfg : Config) (h : SparseExtentHeader) (c c' : Core) (lba : ℕ) (comp : Bytes)
    → c.state ≡ st_markers
    → c.header ≡ some h
    → lba < 256 ^ 8
    → length comp < 256 ^ 4
    → 0 < length comp
    → emit_grain cfg h lba comp c ≡ ok c'
    → Reads cfg (framed lba comp) c c'
unfolding marker_step on_grain
Reads-grain cfg h c c' lba comp s k p q pos e = by_step cfg λ rest n.
    let size = length-framed lba comp in
    let act = on_grain cfg h lba (length comp) in
    process_front cfg h c (framed lba comp ++ rest) n s k
      (omega (arith, length-append (framed lba comp) rest))
    ∙ ap (λ x. marker_step cfg h x (at_bytes c (framed lba comp ++ rest) n))
        (ap read_marker (framed_front lba comp rest)
          ∙ read_marker-grain lba (length comp) _ p q pos)
    ∙ consume_front cfg (round_up (12 + length comp) sector) act (framed lba comp) rest n c size
        (ap (λ l. emit_grain cfg h lba l c) (take-framed lba comp) ∙ e)

-- The writes, with their numbers.
abbrev pub add_writes : List Write → Core → Core
add_writes ws c = record c {
  writes = c.writes ++ ws;
  grains_written = c.grains_written + length ws;
  bytes_written = c.bytes_written + sum_by (λ w. length w.1) ws;
}

-- A write that is made unless it is skipped.
abbrev pub kept : Bool → ℕ → Bytes → List Write
kept skip offset bytes = if skip && all_zero bytes then [] else (offset, bytes) ∷ []

eq_bytes-zero :
    (bytes : Bytes) (n : ℕ) → eq_bytes bytes (replicate n 0) ≡ true → all_zero bytes ≡ true
eq_bytes-zero [] n e = refl
eq_bytes-zero (b ∷ bytes) zero e = absurd (cc)
eq_bytes-zero (b ∷ bytes) (suc n) e = ground (arith, eq_bytes-zero bytes n)

zero_test :
    (bytes : Bytes) (n : ℕ) → (eq_bytes bytes (replicate n 0) || all_zero bytes) ≡ all_zero bytes
zero_test bytes n = ground (arith, eq_bytes-zero bytes n)

add_writes-nil : (c : Core) → c ≡ add_writes [] c
add_writes-nil c = ground (arith, append-nil c.writes)

write_grain-kept :
    (cfg : Config) (h : SparseExtentHeader) (offset : ℕ) (bytes : Bytes) (c : Core)
    → cfg.write_works offset bytes ≡ true
    → write_grain cfg h offset bytes c ≡ ok (add_writes (kept cfg.skip_zero offset bytes) c)
unfolding write_grain
write_grain-kept cfg h offset bytes c works =
    rw (zero_test bytes (grain_bytes h), works) (ground (arith, append-nil c.writes))

pub emit_grain-kept :
    (cfg : Config) (h : SparseExtentHeader) (lba : ℕ) (comp whole : Bytes) (c : Core)
    → ((offset : ℕ) (bytes : Bytes) → cfg.write_works offset bytes ≡ true)
    → cfg.inflate comp ≡ some whole
    → lba * sector < capacity_bytes h
    → emit_grain cfg h lba comp c
      ≡ ok (
          add_writes
            (kept cfg.skip_zero (lba * sector) (clip (capacity_bytes h) (lba * sector) whole))
            c)
unfolding emit_grain emit_inflated
emit_grain-kept cfg h lba comp whole c works inflates within =
    let inside : leb (capacity_bytes h) (lba * sector) ≡ false = ground arith in
    rw (inflates, inside) (write_grain-kept cfg h (lba * sector) _ c (works (lba * sector) _))

-- The outcome of the decoder at the end mark.
abbrev pub stats_of : Core → ℕ → DecodeStats
stats_of c n = record {
  bytes_consumed = n;
  grains_written = c.grains_written;
  bytes_written = c.bytes_written;
  metadata_markers = c.metadata_markers;
  finished = true;
  writes = c.writes;
}

pub decode_whole :
    (cfg : Config) (b : Bytes) (c : Core)
    → 0 < length b
    → Reads cfg b new.core c
    → c.state ≡ st_done
    → decode cfg (b ∷ []) ≡ ok (stats_of c (length b))
unfolding feed_all finish new feed
decode_whole cfg [] c pos r s = absurd (omega arith)
decode_whole cfg (x ∷ b) c pos r s =
    let count : 0 + length (x ∷ b) ≡ length (x ∷ b) = omega arith in
    let first : feed cfg (x ∷ b) new ≡ ok (at_bytes c [] (length (x ∷ b))) =
      feed_first cfg x b new refl
      ∙ ap (λ n. drain cfg (at_bytes new.core (x ∷ b) n)) count
      ∙ ap (λ l. drain cfg (at_bytes new.core l (length (x ∷ b)))) (sym (append-nil (x ∷ b)))
      ∙ r.read [] (length (x ∷ b))
      ∙ drain_done cfg (at_bytes c [] (length (x ∷ b))) (rw s refl) in
    decode_eq cfg ((x ∷ b) ∷ []) ∙ rw first (rw s refl)
