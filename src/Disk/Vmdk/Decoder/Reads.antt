-- ===== src/Disk/Vmdk/Decoder/Reads.antt =====
-- What the decoder makes of each piece of a stream, whatever comes behind it.
use vmware_migration_helper.Base.{
  ℕ, suc, ◌+◌, ◌-◌, ◌*◌, ◌^◌, ◌≤◌, ◌<◌, ◌≡◌, refl, ap, ◌∙◌, ◌||◌, true, false, Option, some, [],
  ◌∷◌, ◌++◌, append_assoc, arith, ltb, ◌==◌, length, take, drop, replicate, length-append,
  take-append, take_all, drop-drop,
}
use vmware_migration_helper.Base.Bytes.{
  Bytes, to_le, from_le, ljust, length-to_le, take-to_le, drop-to_le, from_le-to_le, length-ljust,
}
use vmware_migration_helper.Disk.Vmdk.{
  SparseExtentHeader, Result, ok, sector, pack, marker_eos, marker_gt, marker_gd, marker_footer,
}
use vmware_migration_helper.Disk.Vmdk.Header.{IsPackable, length-pack, unpack-pack}
use vmware_migration_helper.Disk.Vmdk.Decoder.{
  State, st_header, st_preamble, st_markers, st_done, Core, Decoder, Config, step, step_in,
  process_marker, read_marker, marker_step, consume, drain, validate_header, on_header, on_preamble,
  on_eos, on_metadata, extract_descriptor, grain, eos, metadata,
}
use vmware_migration_helper.Disk.Vmdk.Decoder.Chunks.{drain-step}

marker_fields :
    (val size mtype : ℕ) (rest : Bytes)
    → (take 8 (to_le 8 val ++ (to_le 4 size ++ rest)) ≡ to_le 8 val)
      × (take 4 (drop 8 (to_le 8 val ++ (to_le 4 size ++ rest))) ≡ to_le 4 size)
      × (drop 12 (to_le 8 val ++ (to_le 4 size ++ rest)) ≡ rest)
marker_fields val size mtype rest = (
  take-to_le 8 val (to_le 4 size ++ rest),
  rw (drop-to_le 8 val (to_le 4 size ++ rest)) (take-to_le 4 size rest),
  drop-drop 8 4 (to_le 8 val ++ (to_le 4 size ++ rest))
      ∙ ap (drop 4) (drop-to_le 8 val (to_le 4 size ++ rest))
      ∙ drop-to_le 4 size rest,
)

read_fields :
    (val size mtype : ℕ) (rest : Bytes)
    → val < 256 ^ 8
    → size < 256 ^ 4
    → (from_le (take 8 (to_le 8 val ++ (to_le 4 size ++ rest))) ≡ val)
      × (from_le (take 4 (drop 8 (to_le 8 val ++ (to_le 4 size ++ rest)))) ≡ size)
read_fields val size mtype rest p q =
    let (a, b, c) = marker_fields val size mtype rest in
    (ap from_le a ∙ from_le-to_le 8 val p, ap from_le b ∙ from_le-to_le 4 size q)

pub read_marker-grain :
    (val size : ℕ) (rest : Bytes)
    → val < 256 ^ 8
    → size < 256 ^ 4
    → 0 < size
    → read_marker (to_le 8 val ++ (to_le 4 size ++ rest)) ≡ grain val size
unfolding read_marker
read_marker-grain val size rest p q pos =
    let (a, b) = read_fields val size 0 rest p q in
    let t : ltb 0 size ≡ true = ground arith in rw (a, b, t)

-- The type of a metadata marker.
abbrev pub IsMetadata : ℕ → Type 0
IsMetadata mtype = (mtype == marker_gt || mtype == marker_gd || mtype == marker_footer) ≡ true

read_type :
    (val mtype : ℕ) (rest : Bytes)
    → mtype < 256 ^ 4
    → from_le (take 4 (drop 12 (to_le 8 val ++ (to_le 4 0 ++ (to_le 4 mtype ++ rest))))) ≡ mtype
read_type val mtype rest q =
    let (a, b, c) = marker_fields val 0 mtype (to_le 4 mtype ++ rest) in
    ap (λ l. from_le (take 4 l)) c ∙ ap from_le (take-to_le 4 mtype rest) ∙ from_le-to_le 4 mtype q

read_marker-metadata :
    (val mtype : ℕ) (rest : Bytes)
    → val < 256 ^ 8
    → IsMetadata mtype
    → read_marker (to_le 8 val ++ (to_le 4 0 ++ (to_le 4 mtype ++ rest))) ≡ metadata val
unfolding read_marker
read_marker-metadata val mtype rest p m =
    let (a, b) = read_fields val 0 0 (to_le 4 mtype ++ rest) p (omega arith) in
    let small : mtype < 256 ^ 4 = ground arith in
    let other : (mtype == marker_eos) ≡ false = ground arith in
    rw (a, b, read_type val mtype rest small, other, m)

read_marker-eos :
    (val : ℕ) (rest : Bytes)
    → val < 256 ^ 8
    → read_marker (to_le 8 val ++ (to_le 4 0 ++ (to_le 4 marker_eos ++ rest))) ≡ eos
unfolding read_marker
read_marker-eos val rest p =
    let (a, b) = read_fields val 0 0 (to_le 4 marker_eos ++ rest) p (omega arith) in
    rw (a, b, read_type val marker_eos rest (omega arith))

-- `_marker`, with its numbers as bytes
abbrev pub marker_bytes : ℕ → ℕ → Bytes
marker_bytes val mtype = ljust sector (to_le 8 val ++ (to_le 4 0 ++ to_le 4 mtype))

pub length-marker_bytes : (val mtype : ℕ) → length (marker_bytes val mtype) ≡ sector
length-marker_bytes val mtype =
    length-ljust sector (to_le 8 val ++ (to_le 4 0 ++ to_le 4 mtype))
      (simp (length-append, length-to_le) (omega arith))

marker_front :
    (val mtype : ℕ) (rest : Bytes)
    → marker_bytes val mtype ++ rest
      ≡ to_le 8 val ++ (to_le 4 0 ++ (to_le 4 mtype ++ (replicate 496 0 ++ rest)))
marker_front val mtype rest = simp (length-append, length-to_le, append_assoc)

pub drop_twelve :
    (val size : ℕ) (rest : Bytes) → drop 12 (to_le 8 val ++ (to_le 4 size ++ rest)) ≡ rest
drop_twelve val size rest = let (a, b, c) = marker_fields val size 0 rest in c

abbrev pub at_bytes : Core → Bytes → ℕ → Decoder
at_bytes c b n = record { core = c; buf = b; bytes_consumed = n }

module _ (cfg : Config) where
  -- The bytes take the decoder from one state to another.
  pub record Reads (b : Bytes) (c c' : Core) : Type 0 where
    pub read :
        (rest : Bytes) (n : ℕ)
        → drain cfg (at_bytes c (b ++ rest) n) ≡ drain cfg (at_bytes c' rest n)

  pub Reads-append : {a b : Bytes} {c d e : Core} → Reads a c d → Reads b d e → Reads (a ++ b) c e
  Reads-append {a} {b} {c} r s = record {
    read = λ rest n.
        ap (λ l. drain cfg (at_bytes c l n)) (append_assoc a b rest)
        ∙ r.read (b ++ rest) n
        ∙ s.read rest n;
  }

  pub Reads-nil : (c : Core) → Reads [] c c
  Reads-nil c = record { read = λ rest n. refl }

  pub by_step :
      {b : Bytes} {c c' : Core}
      → ((rest : Bytes) (n : ℕ)
          → step cfg (at_bytes c (b ++ rest) n) ≡ ok (some (at_bytes c' rest n)))
      → Reads b c c'
  by_step h = record { read = λ rest n. drain-step cfg _ _ (h rest n) }

  take_front : (b rest : Bytes) (n : ℕ) → length b ≡ n → take n (b ++ rest) ≡ b
  take_front b rest n e = take-append n b rest (omega arith) ∙ take_all n b (omega arith)

  drop_front : (b rest : Bytes) (n : ℕ) → length b ≡ n → drop n (b ++ rest) ≡ rest
  drop_front [] rest n e = let z : n ≡ 0 = omega arith in rw z
  drop_front (x ∷ b) rest n e =
      let s : n ≡ suc (n - 1) = omega arith in rw s (drop_front b rest (n - 1) (omega arith))

  pub consume_front :
      (need : ℕ) (act : Bytes → Core → Result Core) (b rest : Bytes) (n : ℕ) (c : Core) {c' : Core}
      → length b ≡ need
      → act b c ≡ ok c'
      → consume need act (at_bytes c (b ++ rest) n) ≡ ok (some (at_bytes c' rest n))
  unfolding consume
  consume_front need act b rest n c e h =
      let long : ltb (length (b ++ rest)) need ≡ false = ground (arith, length-append b rest) in
      rw (long, take_front b rest need e, drop_front b rest need e, h)

  step_at :
      (c : Core) (b : Bytes) (n : ℕ) {s : State} {k : Option SparseExtentHeader}
      → c.state ≡ s
      → c.header ≡ k
      → step cfg (at_bytes c b n) ≡ step_in cfg s k (at_bytes c b n)
  unfolding step
  step_at c b n {s} p q =
      ap (λ t. step_in cfg t c.header (at_bytes c b n)) p
      ∙ ap (λ t. step_in cfg s t (at_bytes c b n)) q

  pub Reads-header :
      (h : SparseExtentHeader) (c : Core)
      → c.state ≡ st_header
      → IsPackable h
      → validate_header cfg h ≡ ok tt
      → Reads (pack h) c (record c { header = some h; state = st_preamble })
  unfolding step_in on_header
  Reads-header h c s p v = by_step λ rest n.
      step_at c (pack h ++ rest) n s refl
      ∙ consume_front sector (on_header cfg) (pack h) rest n c (length-pack h)
          (rw (unpack-pack h p, v))

  pub Reads-preamble :
      (h : SparseExtentHeader) (b : Bytes) (c : Core)
      → c.state ≡ st_preamble
      → c.header ≡ some h
      → length b ≡ (h.overhead_sectors - 1) * sector
      → Reads b c (record (extract_descriptor h b c) { state = st_markers })
  unfolding step_in on_preamble
  Reads-preamble h b c s k e =
      by_step
        λ rest n. step_at c (b ++ rest) n s k ∙ consume_front _ (on_preamble h) b rest n c e refl

  pub process_front :
      (h : SparseExtentHeader) (c : Core) (b : Bytes) (n : ℕ)
      → c.state ≡ st_markers
      → c.header ≡ some h
      → sector ≤ length b
      → step cfg (at_bytes c b n) ≡ marker_step cfg h (read_marker b) (at_bytes c b n)
  unfolding step_in process_marker
  process_front h c b n s k l =
      let long : ltb (length b) sector ≡ false = ground arith in step_at c b n s k ∙ rw long

  module _ (h : SparseExtentHeader) (c : Core) (s : c.state ≡ st_markers)
      (k : c.header ≡ some h) where
    pub Reads-metadata :
        (val mtype : ℕ) (payload : Bytes)
        → val < 256 ^ 8
        → IsMetadata mtype
        → length payload ≡ val * sector
        → Reads
            (marker_bytes val mtype ++ payload)
            c
            (record c { metadata_markers = c.metadata_markers + 1 })
    unfolding marker_step on_metadata
    Reads-metadata val mtype payload p m e = by_step λ rest n.
        let whole = marker_bytes val mtype ++ payload in
        let size : length whole ≡ sector + val * sector =
          omega (
            arith,
            length-append (marker_bytes val mtype) payload,
            length-marker_bytes val mtype,
          ) in
        let front : whole ++ rest
            ≡ to_le 8 val
              ++ (to_le 4 0 ++ (to_le 4 mtype ++ (replicate 496 0 ++ (payload ++ rest)))) =
          append_assoc (marker_bytes val mtype) payload rest
          ∙ marker_front val mtype (payload ++ rest) in
        process_front h c (whole ++ rest) n s k (omega (arith, length-append whole rest))
        ∙ ap (λ x. marker_step cfg h x (at_bytes c (whole ++ rest) n))
            (ap read_marker front ∙ read_marker-metadata val mtype _ p m)
        ∙ consume_front _ on_metadata whole rest n c size refl

    pub Reads-eos :
        Reads
          (marker_bytes 0 marker_eos)
          c
          (record c { state = st_done; metadata_markers = c.metadata_markers + 1 })
    unfolding marker_step on_eos
    Reads-eos = by_step λ rest n.
        let whole = marker_bytes 0 marker_eos in
        let size = length-marker_bytes 0 marker_eos in
        process_front h c (whole ++ rest) n s k (omega (arith, length-append whole rest, size))
        ∙ ap (λ x. marker_step cfg h x (at_bytes c (whole ++ rest) n))
            (ap read_marker (marker_front 0 marker_eos rest) ∙ read_marker-eos 0 _ (omega arith))
        ∙ consume_front sector on_eos whole rest n c size refl
