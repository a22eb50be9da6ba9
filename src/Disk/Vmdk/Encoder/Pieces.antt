-- ===== src/Disk/Vmdk/Encoder/Pieces.antt =====
-- What the encoder of helper/helper_app/disk/vmdk_stream.py has written so far, as the decoder reads it: the front
-- and the grains.
use vmware_migration_helper.Base.{
  ℕ, ◌+◌, ◌-◌, ◌*◌, ◌/◌, ◌%◌, ◌≤◌, ◌<◌, ◌≡◌, refl, sym, ◌∙◌, Bool, true, some, List, [], ◌∷◌, ◌++◌,
  append-nil, append_assoc, arith, leb, ltb, ◌==◌, if◌then◌else◌, length, replicate, length-append,
  length-set, sum_by-append, All, Bool-cases, inl, inr,
}
use vmware_migration_helper.Base.Bytes.{Bytes, ljust, all_zero, length-ljust, length-replicate}
use vmware_migration_helper.Disk.Vmdk.{
  SparseExtentHeader, ok, sector, capacity_bytes, grain_bytes, is_version, is_grain,
}
use vmware_migration_helper.Disk.Vmdk.Decoder.{
  Write, st_preamble, st_markers, Core, Config, new, clip, validate_header, extract_descriptor,
}
use vmware_migration_helper.Disk.Vmdk.Decoder.Reads.{
  Reads, Reads-append, Reads-header, Reads-preamble,
}
use vmware_migration_helper.Disk.Vmdk.Decoder.Grains.{
  At, extract-At, add_writes, kept, Reads-grain, emit_grain-kept,
}
use vmware_migration_helper.Disk.Vmdk.Encoder.{
  Grain, Output, emit, put_front, set_entry, put_data, put_grain, put_grains,
}
use vmware_migration_helper.Disk.Vmdk.Encoder.Rules.{
  Returned, made, Returned-bind, pack_int-Returned, pack_header-Returned,
}

-- What is written takes the decoder to a state, and is counted.
pub record Wrote (cfg : Config) (o : Output) (c : Core) : Type 0 where
  pub reads : Reads cfg o.out new.core c
  pub counted : o.written ≡ length o.out

emit_counted :
    (o : Output) (b : Bytes) → o.written ≡ length o.out → (emit b o).written ≡ length (emit b o).out
unfolding emit
emit_counted o b e = omega (arith, length-append o.out b)

emit_three :
    (a b c : Bytes)
    → (emit c (emit b (emit a (record { out = []; written = 0 })))).out ≡ a ++ (b ++ c)
unfolding emit
emit_three a b c = append_assoc a b c

pub emit-Wrote :
    {cfg : Config} {o : Output} {b : Bytes} {c d : Core}
    → Wrote cfg o c
    → Reads cfg b c d
    → Wrote cfg (emit b o) d
emit-Wrote {cfg} {o} {b} w r = record {
  reads = unfold emit in Reads-append cfg w.reads r;
  counted = emit_counted o b w.counted;
}

-- … to a state of the markers.
abbrev pub Encoded : Config → SparseExtentHeader → List Write → ℕ → Output → Type 0
Encoded cfg h ws m o = (c : Core) × Wrote cfg o c × At h ws m c

pub put_front-Encoded :
    (cfg : Config) (h : SparseExtentHeader) (descriptor : Bytes)
    → is_version h.version ≡ true
    → is_grain h.grain_sectors ≡ true
    → validate_header cfg h ≡ ok tt
    → length descriptor ≤ h.descriptor_sectors * sector
    → 1 + h.descriptor_sectors ≤ h.overhead_sectors
    → Returned (Encoded cfg h [] 0) (put_front h descriptor)
unfolding put_front new
put_front-Encoded cfg h descriptor v g valid fit room =
    Returned-bind (pack_header-Returned h v g) λ first p.
      let desc = ljust (h.descriptor_sectors * sector) descriptor in
      let zeros = replicate ((h.overhead_sectors - 1 - h.descriptor_sectors) * sector) 0 in
      let size : length (desc ++ zeros) ≡ (h.overhead_sectors - 1) * sector = omega (
        arith,
        length-append desc zeros,
        length-ljust (h.descriptor_sectors * sector) descriptor fit,
        length-replicate ((h.overhead_sectors - 1 - h.descriptor_sectors) * sector) 0,
      ) in
      let front =
        Reads-append cfg (Reads-header cfg h new.core refl p.1 valid)
          (Reads-preamble cfg h (desc ++ zeros) _ refl refl size) in
      let mid = record new.core { header = some h; state = st_preamble } in
      made (
        record (extract_descriptor h (desc ++ zeros) mid) { state = st_markers },
        record {
          reads = rw (emit_three first desc zeros, p.0) front;
          counted =
              emit_counted _ zeros
                (emit_counted _ desc (emit_counted (record { out = []; written = 0 }) first refl));
        },
        extract-At h (desc ++ zeros) mid (record {
          state = refl;
          header = refl;
          writes = refl;
          grains_written = refl;
          bytes_written = refl;
          metadata_markers = refl;
        }),
      )

-- The writes that the decoder makes of a grain: none for zeros, else the grain at its full size, cut at the
-- end of the disk.
abbrev pub grain_writes : Bool → ℕ → ℕ → Grain → List Write
grain_writes skip cap size (lba, bytes) =
    if all_zero bytes
    then []
    else kept skip (lba * sector) (clip cap (lba * sector) (ljust size bytes))

abbrev pub all_writes : Bool → ℕ → ℕ → List Grain → List Write
all_writes skip cap size [] = []
all_writes skip cap size (g ∷ grains) =
    grain_writes skip cap size g ++ all_writes skip cap size grains

-- The grain starts at a multiple of the grain size and before the end of the disk, and is not too large.
pub record IsPlaced (h : SparseExtentHeader) (g : Grain) : Type 0 where
  pub aligned : g.0 % h.grain_sectors ≡ 0
  pub small : length g.1 ≤ grain_bytes h
  pub inside : g.0 < h.capacity_sectors

-- What the decoder relies on of zlib and of the sink.
pub record Inverts (cfg : Config) (compress : Bytes → Bytes) : Type 0 where
  pub inflates : (b : Bytes) → cfg.inflate (compress b) ≡ some b
  pub not_empty : (b : Bytes) → 0 < length (compress b)
  pub works : (offset : ℕ) (b : Bytes) → cfg.write_works offset b ≡ true

At-add_writes :
    {h : SparseExtentHeader} {ws : List Write} {m : ℕ} {c : Core} (vs : List Write)
    → At h ws m c
    → At h (ws ++ vs) m (add_writes vs c)
At-add_writes {ws} vs a = record {
  state = a.state;
  header = a.header;
  writes = rw a.writes refl;
  grains_written = rw a.grains_written (sym (length-append ws vs));
  bytes_written = rw a.bytes_written (sym (sum_by-append (λ w. length w.1) ws vs));
  metadata_markers = a.metadata_markers;
}

module _ (cfg : Config) (compress : Bytes → Bytes) (z : Inverts cfg compress)
    (h : SparseExtentHeader) where
  -- The entries cover every grain of the disk.
  abbrev pub IsCovering : List ℕ → Type 0
  IsCovering entries = (lba : ℕ) → lba < h.capacity_sectors → lba / h.grain_sectors < length entries

  abbrev pub Grained : ℕ → List Write → Output × List ℕ → Type 0
  Grained n ws s = Encoded cfg h ws 0 s.0 × (length s.1 ≡ n)

  set_entry-Returned :
      (entries : List ℕ) (i v : ℕ)
      → i < length entries
      → Returned (λ es. length es ≡ length entries) (set_entry entries i v)
  unfolding set_entry
  set_entry-Returned entries i v lt =
      let inside : ltb i (length entries) ≡ true = ground arith in
      rw inside (made (length-set entries i v))

  put_data-Grained :
      (n lba : ℕ) (whole : Bytes) (ws : List Write) (s : Output × List ℕ)
      → lba < h.capacity_sectors
      → lba / h.grain_sectors < n
      → Grained n ws s
      → Returned
          (Grained n (
            ws ++ kept cfg.skip_zero (lba * sector) (clip (capacity_bytes h) (lba * sector) whole)))
          (put_data compress h.grain_sectors lba whole s)
  unfolding put_data
  put_data-Grained n lba whole ws (o, entries) inside index ((c, w, a), e) =
      let comp = compress whole in
      let vs = kept cfg.skip_zero (lba * sector) (clip (capacity_bytes h) (lba * sector) whole) in
      Returned-bind (set_entry-Returned entries _ _ (rw e index)) λ es q.
        Returned-bind (pack_int-Returned 8 lba) λ l p.
          Returned-bind (pack_int-Returned 4 (length comp)) λ k r.
            let read =
              Reads-grain cfg h c (add_writes vs c) lba comp a.state a.header p.1 r.1
                (z.not_empty whole)
                (emit_grain-kept cfg h lba comp whole c z.works (z.inflates whole) (omega arith)) in
            made (rw (p.0, r.0) ((add_writes vs c, emit-Wrote w read, At-add_writes vs a), q ∙ e))

  put_grain-Grained :
      (n : ℕ) (g : Grain) (ws : List Write) (s : Output × List ℕ)
      → IsPlaced h g
      → g.0 / h.grain_sectors < n
      → Grained n ws s
      → Returned
          (Grained n (ws ++ grain_writes cfg.skip_zero (capacity_bytes h) (grain_bytes h) g))
          (put_grain compress h.grain_sectors g s)
  unfolding put_grain
  put_grain-Grained n (lba, bytes) ws s p index a =
      let t : (lba % h.grain_sectors == 0) ≡ true = ground (arith, p.aligned) in
      let u : leb (length bytes) (grain_bytes h) ≡ true = ground (arith, p.small) in
      rw (t, u)
        (elim (Bool-cases (all_zero bytes)) [
          | inl e ↦ rw (e, append-nil ws) (made a)
          | inr e ↦
              rw e (put_data-Grained n lba (ljust (grain_bytes h) bytes) ws s p.inside index a)
        ])

  pub put_grains-Grained :
      (n : ℕ) (grains : List Grain) (ws : List Write) (s : Output × List ℕ)
      → All (IsPlaced h) grains
      → ((lba : ℕ) → lba < h.capacity_sectors → lba / h.grain_sectors < n)
      → Grained n ws s
      → Returned
          (Grained n (ws ++ all_writes cfg.skip_zero (capacity_bytes h) (grain_bytes h) grains))
          (put_grains compress h.grain_sectors grains s)
  unfolding put_grains
  put_grains-Grained n [] ws s p index a = rw (append-nil ws) (made a)
  put_grains-Grained n (g ∷ grains) ws s p index a =
      Returned-bind (put_grain-Grained n g ws s p.0 (index g.0 p.0.inside) a) λ t b.
        rw (← append_assoc ws (grain_writes cfg.skip_zero (capacity_bytes h) (grain_bytes h) g) _)
          (put_grains-Grained n grains _ t p.1 index b)
