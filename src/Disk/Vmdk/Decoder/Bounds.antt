-- ===== src/Disk/Vmdk/Decoder/Bounds.antt =====
-- What the decoder writes lies inside the disk, and its statistics count what it wrote.
use vmware_migration_helper.Base.{
  ℕ, zero, suc, ◌+◌, ◌-◌, ◌*◌, ◌≤◌, ◌<◌, ◌≡◌, refl, sym, ◌∙◌, Bool, true, false, Option, none, some,
  List, [], ◌∷◌, ◌++◌, arith, length, length-append, length-take, sum_by, sum_by-append, All,
  All-append, Bool-cases, inl, inr, ltb, leb, take, ◌&&◌, ◌||◌, replicate,
}
use vmware_migration_helper.Base.Bytes.{Bytes, all_zero, eq_bytes}
use mathlib.Core.Path.{subst}
use vmware_migration_helper.Disk.Vmdk.{
  >>=-eq-ok, SparseExtentHeader, ok, capacity_bytes, grain_bytes, sector, unpack,
}
use vmware_migration_helper.Disk.Vmdk.Decoder.{
  st_preamble, Core, Decoder, Config, Write, DecodeStats, new, step, drain_fuel, drain, is_done,
  feed, feed_all, finish, decode, stats, extend, on_header, on_preamble, on_grain, on_eos,
  on_metadata, emit_grain, emit_inflated, write_grain, clip, extract_descriptor, validate_header,
}
use vmware_migration_helper.Disk.Vmdk.Decoder.Steps.{
  Stepped, by_header, by_preamble, by_grain, by_eos, by_metadata, step_inv,
}
use vmware_migration_helper.Disk.Vmdk.Decoder.Chunks.{
  fails, waits, goes, drain-Round, drain_fails, drain_waits, drain_goes, decode_eq,
}

-- The write ends within `n` bytes.
abbrev pub Fits : ℕ → Write → Type 0
Fits n w = w.0 + length w.1 ≤ n

abbrev pub IsNonzero : Bool → Write → Type 0
IsNonzero skip w = skip ≡ true → all_zero w.1 ≡ false

module _ (cfg : Config) (n : ℕ) (expects : cfg.expected_capacity ≡ some n) where
  record Inv (c : Core) : Type 0 where
    fits : All (Fits n) c.writes
    nonzero : All (IsNonzero cfg.skip_zero) c.writes
    grains : c.grains_written ≡ length c.writes
    bytes : c.bytes_written ≡ sum_by (λ w. length w.1) c.writes
    capacity : (h : SparseExtentHeader) → c.header ≡ some h → capacity_bytes h ≡ n

  validated : (h : SparseExtentHeader) → validate_header cfg h ≡ ok tt → capacity_bytes h ≡ n
  unfolding validate_header
  validated h e = ground arith

  on_header-Inv : (b : Bytes) (c c' : Core) → on_header cfg b c ≡ ok c' → Inv c → Inv c'
  unfolding on_header
  on_header-Inv b c c' e i =
      let (h, p, q) = >>=-eq-ok (unpack b) _ e in
      let (u, v, w) = >>=-eq-ok (validate_header cfg h) _ q in
      let r : record c { header = some h; state = st_preamble } ≡ c' = cc in
      let cap = validated h v in
      subst Inv r (record {
        fits = i.fits;
        nonzero = i.nonzero;
        grains = i.grains;
        bytes = i.bytes;
        capacity = λ k eq. cc;
      })

  add_write :
      (c : Core) (w : Write)
      → Fits n w
      → IsNonzero cfg.skip_zero w
      → Inv c
      → Inv (record c {
        writes = c.writes ++ w ∷ [];
        grains_written = c.grains_written + 1;
        bytes_written = c.bytes_written + length w.1;
      })
  add_write c w f z i = record {
    fits = All-append (Fits n) c.writes (w ∷ []) i.fits (f, tt);
    nonzero = All-append (IsNonzero cfg.skip_zero) c.writes (w ∷ []) i.nonzero (z, tt);
    grains = omega (arith, i.grains, length-append c.writes (w ∷ []));
    bytes = omega (arith, i.bytes, sum_by-append (λ v. length v.1) c.writes (w ∷ []));
    capacity = i.capacity;
  }

  -- What `_emit_grain` writes ends at the capacity at the latest.
  length-clip :
      (cap offset : ℕ) (whole : Bytes)
      → offset < cap
      → offset + length (clip cap offset whole) ≤ cap
  length-clip cap offset whole h = elim (Bool-cases (ltb cap (offset + length whole))) [
    | inl e ↦ rw e (omega (arith, length-take (cap - offset) whole))
    | inr e ↦ rw e (ground arith)
  ]

  write_grain-Inv :
      (h : SparseExtentHeader) (offset : ℕ) (b : Bytes) (c c' : Core)
      → offset + length b ≤ n
      → write_grain cfg h offset b c ≡ ok c'
      → Inv c
      → Inv c'
  unfolding write_grain
  write_grain-Inv h offset b c c' k e i =
      elim (Bool-cases
        (cfg.skip_zero && (eq_bytes b (replicate (grain_bytes h) 0) || all_zero b))) [
          | inl z ↦ let r : c ≡ c' = cc (rw z at e) in subst Inv r i
          | inr z ↦ elim (Bool-cases (cfg.write_works offset b)) [
            | inl w ↦
                let r : record c {
                  writes = c.writes ++ (offset, b) ∷ [];
                  grains_written = c.grains_written + 1;
                  bytes_written = c.bytes_written + length b;
                }
                    ≡ c' =
                  cc (rw (z, w) at e) in
                subst Inv r (add_write c (offset, b) k (λ s. ground arith) i)
            | inr w ↦ absurd (cc (rw (z, w) at e))
          ]
        ]

  emit_inflated-Inv :
      (h : SparseExtentHeader) (lba : ℕ) (o : Option Bytes) (c c' : Core)
      → capacity_bytes h ≡ n
      → emit_inflated cfg h lba o c ≡ ok c'
      → Inv c
      → Inv c'
  unfolding emit_inflated
  emit_inflated-Inv h lba none c c' k e i = absurd (cc)
  emit_inflated-Inv h lba (some whole) c c' k e i =
      elim (Bool-cases (leb (capacity_bytes h) (lba * sector))) [
        | inl past ↦ absurd (cc (rw past at e))
        | inr inside ↦
            let lt : lba * sector < capacity_bytes h = ground arith in
            write_grain-Inv h (lba * sector) (clip (capacity_bytes h) (lba * sector) whole) c c'
              (omega (arith, length-clip (capacity_bytes h) (lba * sector) whole lt))
              (rw inside at e) i
      ]

  -- A step that touches neither the writes, their counts nor the header.
  keep :
      (c c' : Core)
      → (c'.writes ≡ c.writes)
        × (c'.grains_written ≡ c.grains_written)
        × (c'.bytes_written ≡ c.bytes_written)
        × (c'.header ≡ c.header)
      → Inv c
      → Inv c'
  keep c c' (w, g, b, h) i = record {
    fits = rw w i.fits;
    nonzero = rw w i.nonzero;
    grains = rw (w, g) i.grains;
    bytes = rw (w, b) i.bytes;
    capacity = λ k e. i.capacity k (sym h ∙ e);
  }

  step-Inv : (d d' : Decoder) → Stepped cfg d d' → Inv d.core → Inv d'.core
  unfolding on_preamble on_eos on_metadata on_grain emit_grain extract_descriptor
  step-Inv d d' (by_header s (c, r, e, k)) i =
      subst (λ x. Inv x.core) (sym e) (on_header-Inv (take sector d.buf) d.core c r i)
  step-Inv d d' (by_preamble h s k (c, r, e, m)) i =
      subst (λ x. Inv x.core) (sym e) (keep d.core c (ground arith) i)
  step-Inv d d' (by_grain h lba size s k (c, r, e, m)) i =
      subst (λ x. Inv x.core) (sym e) (emit_inflated-Inv h lba _ d.core c (i.capacity h k) r i)
  step-Inv d d' (by_eos s (c, r, e, k)) i =
      subst (λ x. Inv x.core) (sym e) (keep d.core c (ground arith) i)
  step-Inv d d' (by_metadata val s (c, r, e, k)) i =
      subst (λ x. Inv x.core) (sym e) (keep d.core c (ground arith) i)

  drain_fuel-Inv : (f : ℕ) (d d' : Decoder) → drain_fuel f cfg d ≡ ok d' → Inv d.core → Inv d'.core
  drain_fuel-Inv zero d d' e i = absurd (unfold drain_fuel in cc)
  drain_fuel-Inv (suc f) d d' e i = elim (drain-Round cfg d (step cfg d) refl) [
    | fails x h ↦ absurd (cc (drain_fails cfg f d h))
    | waits h ↦ let q : d ≡ d' = cc (drain_waits cfg f d h) in subst (λ x. Inv x.core) q i
    | goes m h lt ↦
        drain_fuel-Inv f m d' (sym (drain_goes cfg f d h) ∙ e) (step-Inv d m (step_inv cfg d h) i)
  ]

  feed-Inv : (b : Bytes) (d d' : Decoder) → feed cfg b d ≡ ok d' → Inv d.core → Inv d'.core
  unfolding feed
  feed-Inv [] d d' e i = let q : d ≡ d' = cc in subst (λ x. Inv x.core) q i
  feed-Inv (b ∷ bs) d d' e i = elim (Bool-cases (is_done d.core.state)) [
    | inl y ↦
        let q : record d { bytes_consumed = d.bytes_consumed + length (b ∷ bs) } ≡ d' =
          cc (rw y at e) in
        subst (λ x. Inv x.core) q i
    | inr y ↦ unfold drain in drain_fuel-Inv _ (extend d (b ∷ bs)) d' (rw y at e) i
  ]

  feed_all-Inv :
      (chunks : List Bytes) (d d' : Decoder)
      → feed_all cfg chunks d ≡ ok d'
      → Inv d.core
      → Inv d'.core
  unfolding feed_all
  feed_all-Inv [] d d' e i = let q : d ≡ d' = cc in subst (λ x. Inv x.core) q i
  feed_all-Inv (c ∷ cs) d d' e i =
      let (m, p, q) = >>=-eq-ok (feed cfg c d) (feed_all cfg cs) e in
      feed_all-Inv cs m d' q (feed-Inv c d m p i)

  new-Inv : Inv new.core
  unfolding new
  new-Inv = record {
    fits = tt;
    nonzero = tt;
    grains = refl;
    bytes = refl;
    capacity = λ h e. absurd (cc);
  }

  -- When a stream decodes and the disk has `n` bytes, every write ends within the disk, the statistics
  -- count the writes and their bytes, and with `skip_zero` no write is all zeros.
  pub decode_safe :
      (chunks : List Bytes) (s : DecodeStats)
      → decode cfg chunks ≡ ok s
      → (All (Fits n) s.writes)
        × (All (IsNonzero cfg.skip_zero) s.writes)
        × (s.grains_written ≡ length s.writes)
        × (s.bytes_written ≡ sum_by (λ w. length w.1) s.writes)
  unfolding finish
  decode_safe chunks s e =
      let (d, p, q) = >>=-eq-ok (feed_all cfg chunks new) finish (sym (decode_eq cfg chunks) ∙ e) in
      let i = feed_all-Inv chunks new d p new-Inv in
      let r : stats d ≡ s = ground arith in
      subst
        (λ t.
          (All (Fits n) t.writes)
          × (All (IsNonzero cfg.skip_zero) t.writes)
          × (t.grains_written ≡ length t.writes)
          × (t.bytes_written ≡ sum_by (λ w. length w.1) t.writes))
        r (i.fits, i.nonzero, i.grains, i.bytes)
