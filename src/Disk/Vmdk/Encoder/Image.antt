-- ===== src/Disk/Vmdk/Encoder/Image.antt =====
-- `encode_raw_bytes` of helper/helper_app/disk/vmdk_stream.py, and the decoder's writes on an empty device.
use vmware_migration_helper.Base.{
  ℕ, zero, suc, ◌+◌, ◌-◌, ◌*◌, ◌/◌, ◌%◌, ◌≤◌, ◌<◌, ◌≡◌, refl, sym, ap, ◌∙◌, Bool, true, false, List,
  [], ◌∷◌, append-nil, arith, ltb, if◌then◌else◌, length, take, drop, replicate, length-take,
  length-drop, take-append, take_all, All, Bool-cases, inl, inr, if_elim,
}
use vmware_migration_helper.Base.Bytes.{
  Bytes, ljust, all_zero, byte_at, byte_at-zero, byte_at-take, byte_at-drop, byte_at-zeros,
  byte_at-behind, length-ljust,
}
use mathlib.Core.Path.{subst}
use native.Mathlib.Decide.{dec_lt}
use native.Mathlib.Nat.{add-mod_right}
use vmware_migration_helper.Disk.Vmdk.{
  Result, ok, sector, capacity_bytes, grain_bytes, is_grain, SparseExtentHeader,
}
use vmware_migration_helper.Disk.Vmdk.Decoder.{
  Write, Config, DecodeStats, clip, round_up, decode, capacity_matches,
}
use vmware_migration_helper.Disk.Vmdk.Encoder.{Output, num_gts, iter_grains, encode_raw_bytes}
use vmware_migration_helper.Disk.Vmdk.Encoder.Rules.{Returned, made, too_large}
use vmware_migration_helper.Disk.Vmdk.Encoder.Pieces.{grain_writes, all_writes, IsPlaced, Inverts}
use vmware_migration_helper.Disk.Vmdk.Encoder.RoundTrip.{header_for, encode-Decodes, Decodes}
use vmware_migration_helper.Disk.Writer.{Device, put_bytes}
use vmware_migration_helper.Disk.Writer.Laws.{put_bytes-before, put_bytes-after, put_bytes-at}

-- The writes, in order.
abbrev pub apply_writes : List Write → Device → Device
apply_writes [] dev = dev
apply_writes ((offset, bytes) ∷ ws) dev = apply_writes ws (put_bytes offset bytes dev)

iter_grains-cons :
    (fuel size lba b : ℕ) (src : Bytes)
    → 0 < size
    → iter_grains (suc fuel) size lba (b ∷ src) ≡ (
        let rest = iter_grains fuel size (lba + size / sector) (drop size (b ∷ src)) in
        if all_zero (take size (b ∷ src)) then rest else (lba, take size (b ∷ src)) ∷ rest)
unfolding iter_grains
iter_grains-cons fuel zero lba b src h = absurd (omega arith)
iter_grains-cons fuel (suc size) lba b src h = refl

iter_grains-nil : (fuel size lba : ℕ) → iter_grains fuel size lba [] ≡ []
unfolding iter_grains
iter_grains-nil zero size lba = refl
iter_grains-nil (suc fuel) zero lba = refl
iter_grains-nil (suc fuel) (suc size) lba = refl

-- The padding of the last grain is cut off again.
clip-ljust :
    (cap offset size : ℕ) (src : Bytes)
    → offset + length src ≡ cap
    → clip cap offset (ljust size (take size src)) ≡ take size src
clip-ljust cap offset size src e = elim (dec_lt (length src) size) [
  | yes short ↦
      let whole : take size src ≡ src = take_all size src (omega arith) in
      let cut : ltb cap (offset + length (ljust size src)) ≡ true =
        ground (arith, length-ljust size src (omega arith)) in
      let left : cap - offset ≡ length src = omega arith in
      rw (whole, cut, left)
        (take-append (length src) src (replicate (size - length src) 0) (omega arith)
          ∙ take_all (length src) src (omega arith))
  | no long ↦
      let full : length (take size src) ≡ size = omega (arith, length-take size src) in
      let none_left : size - length (take size src) ≡ 0 = omega arith in
      let kept_whole : ltb cap (offset + length (take size src)) ≡ false = ground arith in
      rw (none_left, append-nil (take size src), kept_whole)
]

grain_writes-piece :
    (skip : Bool) (cap size lba : ℕ) (src : Bytes)
    → lba * sector + length src ≡ cap
    → all_zero (take size src) ≡ false
    → grain_writes skip cap size (lba, take size src) ≡ (lba * sector, take size src) ∷ []
grain_writes-piece skip cap size lba src e z =
    rw (z, clip-ljust cap (lba * sector) size src e, z) (ground arith)

-- A device with a grain in its place, what was before it, and nothing behind.
record Placed (offset size : ℕ) (src : Bytes) (dev dev' : Device) : Type 0 where
  before : (x : ℕ) → x < offset → dev' x ≡ dev x
  at : (i : ℕ) → i < size → dev' (offset + i) ≡ byte_at i src
  behind : (x : ℕ) → offset + size ≤ x → dev' x ≡ 0

abbrev IsBlank : ℕ → Device → Type 0
IsBlank offset dev = (x : ℕ) → offset ≤ x → dev x ≡ 0

zero_Placed :
    (offset size : ℕ) (src : Bytes) (dev : Device)
    → IsBlank offset dev
    → all_zero (take size src) ≡ true
    → Placed offset size src dev dev
zero_Placed offset size src dev blank z = record {
  before = λ x lt. refl;
  at = λ i lt.
      blank (offset + i) (omega arith)
      ∙ sym (byte_at-zero (take size src) i z)
      ∙ byte_at-take size i src lt;
  behind = λ x le. blank x (omega arith);
}

put_Placed :
    (offset size : ℕ) (src : Bytes) (dev : Device)
    → IsBlank offset dev
    → Placed offset size src dev (put_bytes offset (take size src) dev)
put_Placed offset size src dev blank = record {
  before = λ x lt. put_bytes-before x offset (take size src) dev lt;
  at = λ i lt. elim (dec_lt i (length (take size src))) [
    | yes inside ↦ put_bytes-at i offset (take size src) dev inside ∙ byte_at-take size i src lt
    | no outside ↦
        put_bytes-after (offset + i) offset (take size src) dev (omega arith)
        ∙ blank (offset + i) (omega arith)
        ∙ sym (byte_at-behind (take size src) i (omega arith))
        ∙ byte_at-take size i src lt
  ];
  behind = λ x le.
      put_bytes-after x offset (take size src) dev (omega (arith, length-take size src))
      ∙ blank x (omega arith);
}

-- The bytes from an offset on, and the device before it.
record Shows (offset : ℕ) (src : Bytes) (dev dev' : Device) : Type 0 where
  before : (x : ℕ) → x < offset → dev' x ≡ dev x
  at : (i : ℕ) → dev' (offset + i) ≡ byte_at i src

Shows-next :
    {offset size : ℕ} {src : Bytes} {dev mid dev' : Device}
    → Placed offset size src dev mid
    → Shows (offset + size) (drop size src) mid dev'
    → Shows offset src dev dev'
Shows-next {offset} {size} {src} {dev' = last} p s = record {
  before = λ x lt. s.before x (omega arith) ∙ p.before x lt;
  at = λ i. elim (dec_lt i size) [
    | yes lt ↦ s.before (offset + i) (omega arith) ∙ p.at i lt
    | no ge ↦
        let there : offset + i ≡ (offset + size) + (i - size) = omega arith in
        let back : size + (i - size) ≡ i = omega arith in
        ap last there
        ∙ s.at (i - size)
        ∙ byte_at-drop size (i - size) src
        ∙ ap (λ k. byte_at k src) back
  ];
}

module _ (skip : Bool) (cap size : ℕ) (pos : 0 < size) (whole : size / sector * sector ≡ size) where
  iter_grains-Shows :
      (fuel lba : ℕ) (src : Bytes) (dev : Device)
      → length src < fuel
      → (0 < length src → lba * sector + length src ≡ cap)
      → IsBlank (lba * sector) dev
      → Shows
          (lba * sector)
          src
          dev
          (apply_writes (all_writes skip cap size (iter_grains fuel size lba src)) dev)
  iter_grains-Shows zero lba src dev lt e blank = absurd (omega arith)
  iter_grains-Shows (suc fuel) lba [] dev lt e blank =
      rw (iter_grains-nil (suc fuel) size lba)
        (record { before = λ x less. refl; at = λ i. blank (lba * sector + i) (omega arith) })
  iter_grains-Shows (suc fuel) lba (b ∷ src) dev lt e blank =
      let piece = take size (b ∷ src) in
      let left = drop size (b ∷ src) in
      let here = e (omega arith) in
      let next : (lba + size / sector) * sector ≡ lba * sector + size = omega (arith, whole) in
      let later = λ (mid : Device) (p : Placed (lba * sector) size (b ∷ src) dev mid).
        Shows-next p (
          subst
            (λ o. Shows o left mid (
              apply_writes
                (all_writes skip cap size (iter_grains fuel size (lba + size / sector) left)) mid))
            next
            (iter_grains-Shows fuel (lba + size / sector) left mid
              (omega (arith, length-drop size (b ∷ src)))
              (λ more. omega (arith, whole, length-drop size (b ∷ src)))
              (λ x le. p.behind x (omega arith)))) in
      elim (Bool-cases (all_zero piece)) [
        | inl z ↦
            rw (iter_grains-cons fuel size lba b src pos, z)
              (later dev (zero_Placed (lba * sector) size (b ∷ src) dev blank z))
        | inr z ↦
            rw (iter_grains-cons fuel size lba b src pos, z)
              (rw (grain_writes-piece skip cap size lba (b ∷ src) here z)
                (later _ (put_Placed (lba * sector) size (b ∷ src) dev blank)))
      ]

iter_grains-IsPlaced :
    (h : SparseExtentHeader) (fuel lba : ℕ) (src : Bytes)
    → 0 < h.grain_sectors
    → lba % h.grain_sectors ≡ 0
    → (0 < length src → lba * sector + length src ≡ capacity_bytes h)
    → All (IsPlaced h) (iter_grains fuel (grain_bytes h) lba src)
iter_grains-IsPlaced h zero lba src pos m e = unfold iter_grains in tt
iter_grains-IsPlaced h (suc fuel) lba [] pos m e =
    rw (iter_grains-nil (suc fuel) (grain_bytes h) lba) tt
iter_grains-IsPlaced h (suc fuel) lba (b ∷ src) pos m e =
    let size = grain_bytes h in
    let here = e (omega arith) in
    let step : size / sector ≡ h.grain_sectors = omega arith in
    let rest =
      iter_grains-IsPlaced h fuel (lba + size / sector) (drop size (b ∷ src)) pos
        (rw step (add-mod_right lba h.grain_sectors ∙ m))
        (λ more. omega (arith, length-drop size (b ∷ src))) in
    let first : IsPlaced h (lba, take size (b ∷ src)) = record {
      aligned = m;
      small = omega (arith, length-take size (b ∷ src));
      inside = omega arith;
    } in
    rw (iter_grains-cons fuel size lba b src (omega arith))
      (if_elim (All (IsPlaced h)) (all_zero (take size (b ∷ src))) rest (first, rest))

-- The stream decodes, and the decoder's writes put the image on a device of zeros.
abbrev pub Restores : Config → Bytes → Output → Type 0
Restores cfg raw o =
    (stats : DecodeStats) × (decode cfg (o.out ∷ []) ≡ ok stats)
    × ((x : ℕ) → apply_writes stats.writes (λ y. 0) x ≡ byte_at x raw)

Returned-Restores :
    (cfg : Config) (raw : Bytes) (ws : List Write) (m : ℕ) {r : Result Output}
    → ((x : ℕ) → apply_writes ws (λ y. 0) x ≡ byte_at x raw)
    → Returned (Decodes cfg ws m) r
    → Returned (Restores cfg raw) r
Returned-Restores cfg raw ws m h (made d) = made (_, d.1, h)
Returned-Restores cfg raw ws m h too_large = too_large

image_lem :
    (skip : Bool) (raw : Bytes) (grain_sectors : ℕ)
    → 0 < grain_sectors
    → let padded = ljust (round_up (length raw) sector) raw in
      (x : ℕ)
      → apply_writes
          (all_writes skip
            (round_up (length raw) sector)
            (grain_sectors * sector)
            (iter_grains (suc (length padded)) (grain_sectors * sector) 0 padded))
          (λ y. 0)
          x
        ≡ byte_at x raw
image_lem skip raw grain_sectors pos x =
    let cap = round_up (length raw) sector in
    let padded = ljust cap raw in
    let shows =
      iter_grains-Shows skip cap (grain_sectors * sector) (omega arith) (omega arith)
        (suc (length padded)) 0 padded (λ y. 0) (omega arith)
        (λ more. omega (arith, length-ljust cap raw (omega arith))) (λ y le. refl) in
    let from : 0 * sector + x ≡ x = omega arith in
    let writes =
      all_writes skip cap (grain_sectors * sector)
        (iter_grains (suc (length padded)) (grain_sectors * sector) 0 padded) in
    sym (ap (apply_writes writes (λ z. 0)) from)
    ∙ shows.at x
    ∙ byte_at-zeros raw (cap - length raw) x

-- The size of a grain in sectors is a power of two, which the decoder insists on and the encoder does not test;
-- the decoder expects no capacity, or the length of the image rounded up to sectors; its inflate undoes the
-- encoder's compress, which never returns nothing; and its writes work. Then `encode_raw_bytes` of an image
-- either raises because a number does not fit its field, or returns a stream that the decoder accepts and whose
-- writes, made on a device of zeros, put at every position the byte of the image, and 0 behind it.
pub encode_raw-Restores :
    (cfg : Config) (compress : Bytes → Bytes) (raw : Bytes) (grain_sectors overhead : ℕ)
    (name : Bytes)
    → Inverts cfg compress
    → capacity_matches cfg.expected_capacity
        (header_for (round_up (length raw) sector) grain_sectors overhead name)
      ≡ true
    → is_grain grain_sectors ≡ true
    → Returned (Restores cfg raw) (encode_raw_bytes compress raw grain_sectors overhead name)
unfolding encode_raw_bytes
encode_raw-Restores cfg compress raw grain_sectors overhead name z expects power =
    let cap = round_up (length raw) sector in
    let padded = ljust cap raw in
    let h = header_for cap grain_sectors overhead name in
    let pos : 0 < grain_sectors = ground arith in
    let full : cap / sector * sector ≡ cap = omega arith in
    Returned-Restores cfg raw _ _ (image_lem cfg.skip_zero raw grain_sectors pos) (
      subst
        (λ n.
          Returned
            (Decodes cfg
              (all_writes cfg.skip_zero n (grain_sectors * sector)
                (iter_grains (suc (length padded)) (grain_sectors * sector) 0 padded))
              (num_gts (cap / sector) grain_sectors + 3))
            (encode_raw_bytes compress raw grain_sectors overhead name))
        full
        (encode-Decodes cfg compress cap _ grain_sectors overhead name z expects (omega arith) power
          (iter_grains-IsPlaced h (suc (length padded)) 0 padded pos (omega arith)
            (λ more. omega (arith, length-ljust cap raw (omega arith))))))
