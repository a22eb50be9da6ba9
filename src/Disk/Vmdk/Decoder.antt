-- ===== src/Disk/Vmdk/Decoder.antt =====
-- `StreamOptimizedDecoder` of helper/helper_app/disk/vmdk_stream.py. The object is a record: what a
-- step of `_drain` reads of it, and apart from that the buffer and the count of bytes that were fed.
-- `zlib.decompress` and the sink `write` are parameters; the calls of `write` are recorded in order.
pub mod Steps
pub mod Chunks
pub mod Bounds
pub mod Termination
pub mod Reads
pub mod Grains
use vmware_migration_helper.Base.{
  ℕ, zero, suc, ◌+◌, ◌-◌, ◌*◌, ◌/◌, Bool, true, false, not, ◌&&◌, ◌||◌, Option, none, some, List,
  [], ◌∷◌, ◌++◌, ltb, leb, ◌==◌, if◌then◌else◌, length, take, drop, replicate, is_some,
}
use vmware_migration_helper.Base.Bytes.{Bytes, from_le, eq_bytes, all_zero}
use vmware_migration_helper.Disk.Vmdk.{
  SparseExtentHeader, Result, ok, err, ◌>>=◌, ◌>>◌, check, unpack, sector, capacity_bytes,
  grain_bytes, is_stream_optimized, compression_deflate, marker_eos, marker_gt, marker_gd,
  marker_footer, not_stream_optimized, bad_compression, bad_overhead, bad_capacity, unknown_marker,
  inflate_failed, beyond_capacity, premature_end, no_header, write_failed, out_of_fuel,
}

-- `_ST_HEADER`, `_ST_PREAMBLE`, `_ST_MARKERS`, `_ST_DONE`
pub data State : Type 0 where
  st_header st_preamble st_markers st_done : State

-- An offset with the bytes written there.
abbrev pub Write : Type 0
Write = ℕ × Bytes

pub record Core : Type 0 where
  pub state : State
  pub header : Option SparseExtentHeader
  pub descriptor : Bytes  -- before the decoding of UTF-8
  pub grains_written : ℕ
  pub bytes_written : ℕ
  pub metadata_markers : ℕ
  pub writes : List Write

pub record Decoder : Type 0 where
  pub core : Core
  pub buf : Bytes
  pub bytes_consumed : ℕ

-- The arguments of the constructor, and the library that inflates.
pub record Config : Type 0 where
  pub expected_capacity : Option ℕ
  pub skip_zero : Bool
  pub inflate : Bytes → Option Bytes
  pub write_works : ℕ → Bytes → Bool  -- false where the writer raises

unfoldable pub new : Decoder
new = record {
  core = record {
    state = st_header;
    header = none;
    descriptor = [];
    grains_written = 0;
    bytes_written = 0;
    metadata_markers = 0;
    writes = [];
  };
  buf = [];
  bytes_consumed = 0;
}

abbrev pub round_up : ℕ → ℕ → ℕ
round_up n to = (n + to - 1) / to * to

-- `expected_capacity is not None and h.capacity_bytes != expected_capacity` is the error.
abbrev pub capacity_matches : Option ℕ → SparseExtentHeader → Bool
capacity_matches none h = true
capacity_matches (some n) h = capacity_bytes h == n

pub validate_header : Config → SparseExtentHeader → Result (Unit {0})
validate_header cfg h = do
  check (is_stream_optimized h) not_stream_optimized
  check (h.compress_algorithm == compression_deflate) bad_compression
  check (leb 1 h.overhead_sectors) bad_overhead
  check (capacity_matches cfg.expected_capacity h) bad_capacity

-- The branch `_ST_HEADER` of `_drain`, on the first sector.
pub on_header : Config → Bytes → Core → Result Core
on_header cfg bytes c = do
  h ← unpack bytes
  validate_header cfg h
  ok (record c { header = some h; state = st_preamble })

-- `split(b"\0", 1)[0]`
until_zero : Bytes → Bytes
until_zero [] = []
until_zero (b ∷ bs) = let rest = until_zero bs in if b == 0 then [] else b ∷ rest

-- `_extract_descriptor`. With an offset of at least 1 no subtraction goes below 0.
pub extract_descriptor : SparseExtentHeader → Bytes → Core → Core
extract_descriptor h preamble c =
    let start = (h.descriptor_offset - 1) * sector in
    let end = start + h.descriptor_sectors * sector in
    if leb 1 h.descriptor_offset && ltb start end && leb end (length preamble)
    then record c { descriptor = until_zero (take (end - start) (drop start preamble)) }
    else c

pub on_preamble : SparseExtentHeader → Bytes → Core → Result Core
on_preamble h preamble c = ok (record (extract_descriptor h preamble c) { state = st_markers })

-- `data[: cap - offset]` where the grain passes the capacity
abbrev pub clip : ℕ → ℕ → Bytes → Bytes
clip cap offset whole = if ltb cap (offset + length whole) then take (cap - offset) whole else whole

-- The end of `_emit_grain`: a grain of zeros is skipped, any other is written and counted.
write_grain : Config → SparseExtentHeader → ℕ → Bytes → Core → Result Core
write_grain cfg h offset bytes c =
    if cfg.skip_zero && (eq_bytes bytes (replicate (grain_bytes h) 0) || all_zero bytes)
    then ok c
    else if cfg.write_works offset bytes
    then ok (record c {
      writes = c.writes ++ (offset, bytes) ∷ [];
      grains_written = c.grains_written + 1;
      bytes_written = c.bytes_written + length bytes;
    })
    else err write_failed

-- `_emit_grain`, given what `zlib.decompress` returned.
emit_inflated : Config → SparseExtentHeader → ℕ → Option Bytes → Core → Result Core
emit_inflated cfg h lba none c = err inflate_failed
emit_inflated cfg h lba (some whole) c =
    let offset = lba * sector in
    let cap = capacity_bytes h in
    if leb cap offset
    then err beyond_capacity
    else write_grain cfg h offset (clip cap offset whole) c

pub emit_grain : Config → SparseExtentHeader → ℕ → Bytes → Core → Result Core
emit_grain cfg h lba compressed c = emit_inflated cfg h lba (cfg.inflate compressed) c

-- What a marker sector announces.
pub data Marker : Type 0 where
  grain : ℕ → ℕ → Marker  -- LBA, compressed size
  eos : Marker
  metadata : ℕ → Marker  -- sectors that follow
  unknown : Marker

-- `MARKER_STRUCT.unpack_from(buf, 0)` and the tests on its fields.
pub read_marker : Bytes → Marker
read_marker buf =
    let val = from_le (take 8 buf) in
    let size = from_le (take 4 (drop 8 buf)) in
    let mtype = from_le (take 4 (drop 12 buf)) in
    if ltb 0 size
    then grain val size
    else if mtype == marker_eos
    then eos
    else if mtype == marker_gt || mtype == marker_gd || mtype == marker_footer
    then metadata val
    else unknown

pub on_grain : Config → SparseExtentHeader → ℕ → ℕ → Bytes → Core → Result Core
on_grain cfg h lba size bytes c = emit_grain cfg h lba (take size (drop 12 bytes)) c

pub on_eos : Bytes → Core → Result Core
on_eos bytes c = ok (record c { state = st_done; metadata_markers = c.metadata_markers + 1 })

pub on_metadata : Bytes → Core → Result Core
on_metadata bytes c = ok (record c { metadata_markers = c.metadata_markers + 1 })

-- `if len(buf) < need: return`; take the first `need` bytes off the buffer and go on with them.
pub consume : ℕ → (Bytes → Core → Result Core) → Decoder → Result (Option Decoder)
consume need act d = if ltb (length d.buf) need then ok none else do
  c ← act (take need d.buf) d.core
  ok (some (record d { core = c; buf = drop need d.buf }))

-- `_process_marker`, from the tests on the marker on.
pub marker_step : Config → SparseExtentHeader → Marker → Decoder → Result (Option Decoder)
marker_step cfg h (grain lba size) d =
    consume (round_up (12 + size) sector) (on_grain cfg h lba size) d
marker_step cfg h eos d = consume sector on_eos d
marker_step cfg h (metadata val) d = consume (sector + val * sector) on_metadata d
marker_step cfg h unknown d = err unknown_marker

process_marker : Config → SparseExtentHeader → Decoder → Result (Option Decoder)
process_marker cfg h d =
    if ltb (length d.buf) sector then ok none else marker_step cfg h (read_marker d.buf) d

-- One round of the loop of `_drain`; `none` is its `return`. `no_header` is a failing `assert`.
step_in : Config → State → Option SparseExtentHeader → Decoder → Result (Option Decoder)
step_in cfg st_header h d = consume sector (on_header cfg) d
step_in cfg st_preamble none d = err no_header
step_in cfg st_preamble (some h) d = consume ((h.overhead_sectors - 1) * sector) (on_preamble h) d
step_in cfg st_markers none d = err no_header
step_in cfg st_markers (some h) d = process_marker cfg h d
step_in cfg st_done h d = ok none

pub step : Config → Decoder → Result (Option Decoder)
step cfg d = step_in cfg d.core.state d.core.header d

pub drain_fuel : ℕ → Config → Decoder → Result Decoder
drain_fuel zero cfg d = err out_of_fuel
drain_fuel (suc fuel) cfg d = elim (step cfg d) [
  | err e ↦ err e
  | ok o ↦ elim o [ none ↦ ok d | some d' ↦ drain_fuel fuel cfg d' ]
]

-- Every round takes a byte off the buffer or goes on to a later state, so this many rounds are enough.
abbrev pub rank : State → ℕ
rank st_header = 2
rank st_preamble = 1
rank _ = 0

abbrev pub measure : Decoder → ℕ
measure d = length d.buf + rank d.core.state

pub drain : Config → Decoder → Result Decoder
drain cfg d = drain_fuel (suc (measure d)) cfg d

abbrev pub is_done : State → Bool
is_done st_done = true
is_done _ = false

-- `self._buf.extend(chunk)` and the count
abbrev pub extend : Decoder → Bytes → Decoder
extend d chunk = record d { buf = d.buf ++ chunk; bytes_consumed = d.bytes_consumed + length chunk }

unfoldable pub feed : Config → Bytes → Decoder → Result Decoder
feed cfg [] d = ok d
feed cfg (b ∷ chunk) d =
    if is_done d.core.state
    then ok (record d { bytes_consumed = d.bytes_consumed + length (b ∷ chunk) })
    else drain cfg (extend d (b ∷ chunk))

-- `DecodeStats`, once the decoder has finished, with the writes that were made.
pub record DecodeStats : Type 0 where
  pub bytes_consumed : ℕ
  pub grains_written : ℕ
  pub bytes_written : ℕ
  pub metadata_markers : ℕ
  pub finished : Bool
  pub writes : List Write

abbrev pub stats : Decoder → DecodeStats
stats d = record {
  bytes_consumed = d.bytes_consumed;
  grains_written = d.core.grains_written;
  bytes_written = d.core.bytes_written;
  metadata_markers = d.core.metadata_markers;
  finished = true;
  writes = d.core.writes;
}

-- A stream may end without the EOS marker, at a marker's boundary.
abbrev pub may_end : State → Bytes → Bool
may_end st_done buf = true
may_end st_markers [] = true
may_end _ _ = false

unfoldable pub finish : Decoder → Result DecodeStats
finish d = if may_end d.core.state d.buf then ok (stats d) else err premature_end

-- The loop of the export: every chunk is fed, then the decoder is finished.
unfoldable pub feed_all : Config → List Bytes → Decoder → Result Decoder
feed_all cfg [] d = ok d
feed_all cfg (chunk ∷ chunks) d = feed cfg chunk d >>= feed_all cfg chunks

unfoldable pub decode : Config → List Bytes → Result DecodeStats
unfolding feed_all feed finish new drain drain_fuel step step_in process_marker marker_step
    read_marker consume on_header on_preamble on_grain on_eos on_metadata emit_grain emit_inflated
    write_grain extract_descriptor until_zero validate_header
decode cfg chunks = feed_all cfg chunks new >>= finish
