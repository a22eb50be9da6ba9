-- ===== src/Disk/Vmdk/Decoder/Steps.antt =====
-- One round of `_drain`: it makes the same step when more bytes wait behind those it has, and it takes
-- the loop nearer to its end.
use vmware_migration_helper.Base.{
  ℕ, ◌+◌, ◌-◌, ◌*◌, ◌≤◌, ◌<◌, ◌≡◌, ◌≢◌, refl, true, false, Option, none, some, ◌++◌, arith, ltb,
  length, take, drop, length-append, length-drop, take-append, drop-append, Bool-cases, inl, inr,
}
use vmware_migration_helper.Base.Bytes.{Bytes}
use vmware_migration_helper.Disk.Vmdk.{SparseExtentHeader, Result, ok, err, ◌>>=◌, sector}
use vmware_migration_helper.Disk.Vmdk.Decoder.{
  State, st_header, st_preamble, st_markers, st_done, Core, Decoder, Config, Marker, grain, eos,
  metadata, unknown, on_header, on_preamble, on_grain, on_eos, on_metadata, emit_grain,
  emit_inflated, write_grain, consume, read_marker, marker_step, process_marker, step_in, step,
  measure, extend, round_up,
}

-- A step's result with more bytes behind the buffer.
abbrev pub grow : Bytes → Result (Option Decoder) → Result (Option Decoder)
grow x (err e) = err e
grow x (ok none) = ok none
grow x (ok (some d)) = ok (some (extend d x))

finish_consume : Decoder → Bytes → Result Core → Result (Option Decoder)
finish_consume d rest r = r >>= λ c. ok (some (record d { core = c; buf = rest }))

grow-finish :
    (x : Bytes) (d : Decoder) (rest : Bytes) (r : Result Core)
    → finish_consume (extend d x) (rest ++ x) r ≡ grow x (finish_consume d rest r)
unfolding finish_consume
grow-finish x d rest (ok c) = refl
grow-finish x d rest (err e) = refl

consume_enough :
    (need : ℕ) (act : Bytes → Core → Result Core) (d : Decoder)
    → need ≤ length d.buf
    → consume need act d ≡ finish_consume d (drop need d.buf) (act (take need d.buf) d.core)
unfolding consume finish_consume
consume_enough need act d h = let e : ltb (length d.buf) need ≡ false = ground arith in rw e

consume_short :
    (need : ℕ) (act : Bytes → Core → Result Core) (d : Decoder)
    → length d.buf < need
    → consume need act d ≡ ok none
unfolding consume
consume_short need act d h = let e : ltb (length d.buf) need ≡ true = ground arith in rw e

consume-extend :
    (x : Bytes) (need : ℕ) (act : Bytes → Core → Result Core) (d : Decoder)
    → consume need act d ≢ ok none
    → consume need act (extend d x) ≡ grow x (consume need act d)
consume-extend x need act d ne = elim (Bool-cases (ltb (length d.buf) need)) [
  | inl e ↦ absurd (ne (consume_short need act d (ground arith)))
  | inr e ↦
      let h : need ≤ length d.buf = ground arith in
      rw
        (
          consume_enough need act d h,
          consume_enough need act (extend d x) (omega (arith, length-append d.buf x)),
          take-append need d.buf x h,
          drop-append need d.buf x h,
        )
        (grow-finish x d (drop need d.buf) (act (take need d.buf) d.core))
]

read_marker-append :
    (buf x : Bytes) → sector ≤ length buf → read_marker (buf ++ x) ≡ read_marker buf
unfolding read_marker
read_marker-append buf x h = rw (
  take-append 8 buf x (omega arith),
  drop-append 8 buf x (omega arith),
  drop-append 12 buf x (omega arith),
  take-append 4 (drop 8 buf) x (omega (arith, length-drop 8 buf)),
  take-append 4 (drop 12 buf) x (omega (arith, length-drop 12 buf)),
)

marker_step-extend :
    (cfg : Config) (h : SparseExtentHeader) (x : Bytes) (m : Marker) (d : Decoder)
    → marker_step cfg h m d ≢ ok none
    → marker_step cfg h m (extend d x) ≡ grow x (marker_step cfg h m d)
unfolding marker_step
marker_step-extend cfg h x (grain lba size) d ne = consume-extend x _ (on_grain cfg h lba size) d ne
marker_step-extend cfg h x eos d ne = consume-extend x _ on_eos d ne
marker_step-extend cfg h x (metadata val) d ne = consume-extend x _ on_metadata d ne
marker_step-extend cfg h x unknown d ne = refl

process_marker-extend :
    (cfg : Config) (h : SparseExtentHeader) (x : Bytes) (d : Decoder)
    → process_marker cfg h d ≢ ok none
    → process_marker cfg h (extend d x) ≡ grow x (process_marker cfg h d)
unfolding process_marker
process_marker-extend cfg h x d ne = elim (Bool-cases (ltb (length d.buf) sector)) [
  | inl e ↦ absurd (ne (rw e))
  | inr e ↦
      let k : sector ≤ length d.buf = ground arith in
      let e' : ltb (length (d.buf ++ x)) sector ≡ false = ground (arith, length-append d.buf x) in
      rw (e, e', read_marker-append d.buf x k)
        (marker_step-extend cfg h x (read_marker d.buf) d (λ q. ne (rw e q)))
]

step_in-extend :
    (cfg : Config) (s : State) (h : Option SparseExtentHeader) (x : Bytes) (d : Decoder)
    → step_in cfg s h d ≢ ok none
    → step_in cfg s h (extend d x) ≡ grow x (step_in cfg s h d)
unfolding step_in
step_in-extend cfg st_header h x d ne = consume-extend x _ (on_header cfg) d ne
step_in-extend cfg st_preamble none x d ne = refl
step_in-extend cfg st_preamble (some h) x d ne = consume-extend x _ (on_preamble h) d ne
step_in-extend cfg st_markers none x d ne = refl
step_in-extend cfg st_markers (some h) x d ne = process_marker-extend cfg h x d ne
step_in-extend cfg st_done h x d ne = refl

-- A round that does not wait for bytes makes the same step with more bytes at hand.
pub step-extend :
    (cfg : Config) (x : Bytes) (d : Decoder)
    → step cfg d ≢ ok none
    → step cfg (extend d x) ≡ grow x (step cfg d)
unfolding step
step-extend cfg x d ne = step_in-extend cfg d.core.state d.core.header x d ne

finish_consume_inv :
    (d : Decoder) (rest : Bytes) (r : Result Core) {d' : Decoder}
    → finish_consume d rest r ≡ ok (some d')
    → (c : Core) × (r ≡ ok c) × (d' ≡ record d { core = c; buf = rest })
unfolding finish_consume
finish_consume_inv d rest (ok c) h = (c, refl, cc)
finish_consume_inv d rest (err e) h = absurd (cc)

-- What a step that goes on has done: the action ran on the first `need` bytes.
abbrev pub Ran : ℕ → (Bytes → Core → Result Core) → Decoder → Decoder → Type 0
Ran need act d d' =
    (c : Core) × (act (take need d.buf) d.core ≡ ok c)
    × (d' ≡ record d { core = c; buf = drop need d.buf })
    × (need ≤ length d.buf)

consume_inv :
    (need : ℕ) (act : Bytes → Core → Result Core) (d : Decoder) {d' : Decoder}
    → consume need act d ≡ ok (some d')
    → Ran need act d d'
consume_inv need act d h = elim (Bool-cases (ltb (length d.buf) need)) [
  | inl e ↦ absurd (cc (consume_short need act d (ground arith)))
  | inr e ↦
      let k : need ≤ length d.buf = ground arith in
      let (c, p, q) =
        finish_consume_inv d (drop need d.buf) (act (take need d.buf) d.core)
          (rw (consume_enough need act d k) at h) in
      (c, p, q, k)
]

-- A step that goes on, by the state it was made in.
pub data Stepped (cfg : Config) (d d' : Decoder) : Type 0 where
  by_header : d.core.state ≡ st_header → Ran sector (on_header cfg) d d' → Stepped cfg d d'
  by_preamble :
      (h : SparseExtentHeader)
      → d.core.state ≡ st_preamble
      → d.core.header ≡ some h
      → Ran ((h.overhead_sectors - 1) * sector) (on_preamble h) d d'
      → Stepped cfg d d'
  by_grain :
      (h : SparseExtentHeader) (lba size : ℕ)
      → d.core.state ≡ st_markers
      → d.core.header ≡ some h
      → Ran (round_up (12 + size) sector) (on_grain cfg h lba size) d d'
      → Stepped cfg d d'
  by_eos : d.core.state ≡ st_markers → Ran sector on_eos d d' → Stepped cfg d d'
  by_metadata :
      (val : ℕ)
      → d.core.state ≡ st_markers
      → Ran (sector + val * sector) on_metadata d d'
      → Stepped cfg d d'

marker_step_inv :
    (cfg : Config) (h : SparseExtentHeader) (m : Marker) (d : Decoder) {d' : Decoder}
    → d.core.state ≡ st_markers
    → d.core.header ≡ some h
    → marker_step cfg h m d ≡ ok (some d')
    → Stepped cfg d d'
unfolding marker_step
marker_step_inv cfg h (grain lba size) d s k r =
    by_grain h lba size s k (consume_inv _ (on_grain cfg h lba size) d r)
marker_step_inv cfg h eos d s k r = by_eos s (consume_inv _ on_eos d r)
marker_step_inv cfg h (metadata val) d s k r = by_metadata val s (consume_inv _ on_metadata d r)
marker_step_inv cfg h unknown d s k r = absurd (cc)

step_in_inv :
    (cfg : Config) (s : State) (h : Option SparseExtentHeader) (d : Decoder) {d' : Decoder}
    → d.core.state ≡ s
    → d.core.header ≡ h
    → step_in cfg s h d ≡ ok (some d')
    → Stepped cfg d d'
unfolding step_in process_marker
step_in_inv cfg st_header h d p q r = by_header p (consume_inv _ (on_header cfg) d r)
step_in_inv cfg st_preamble none d p q r = absurd (cc)
step_in_inv cfg st_preamble (some h) d p q r = by_preamble h p q (consume_inv _ (on_preamble h) d r)
step_in_inv cfg st_markers none d p q r = absurd (cc)
step_in_inv cfg st_markers (some h) d p q r = elim (Bool-cases (ltb (length d.buf) sector)) [
  | inl e ↦ absurd (cc (rw e at r))
  | inr e ↦ marker_step_inv cfg h (read_marker d.buf) d p q (rw e at r)
]
step_in_inv cfg st_done h d p q r = absurd (cc)

pub step_inv :
    (cfg : Config) (d : Decoder) {d' : Decoder} → step cfg d ≡ ok (some d') → Stepped cfg d d'
unfolding step
step_inv cfg d r = step_in_inv cfg d.core.state d.core.header d refl refl r

state-on_header :
    (cfg : Config) (b : Bytes) (c c' : Core) → on_header cfg b c ≡ ok c' → c'.state ≡ st_preamble
unfolding on_header
state-on_header cfg b c c' h = ground arith

state-emit_inflated :
    (cfg : Config) (h : SparseExtentHeader) (lba : ℕ) (o : Option Bytes) (c c' : Core)
    → emit_inflated cfg h lba o c ≡ ok c'
    → c'.state ≡ c.state
unfolding emit_inflated write_grain
state-emit_inflated cfg h lba o c c' e = ground arith

state-on_grain :
    (cfg : Config) (h : SparseExtentHeader) (lba size : ℕ) (b : Bytes) (c c' : Core)
    → on_grain cfg h lba size b c ≡ ok c'
    → c'.state ≡ c.state
unfolding on_grain emit_grain
state-on_grain cfg h lba size b c c' e =
    state-emit_inflated cfg h lba (cfg.inflate (take size (drop 12 b))) c c' e

-- Every step that goes on brings the loop nearer to its end.
pub measure-step-lt : (cfg : Config) (d d' : Decoder) → Stepped cfg d d' → measure d' < measure d
unfolding on_preamble on_eos on_metadata
measure-step-lt cfg d d' (by_header s (c, r, e, n)) =
    ground (arith, state-on_header cfg (take sector d.buf) d.core c, length-drop sector d.buf)
measure-step-lt cfg d d' (by_preamble h s k (c, r, e, n)) =
    ground (arith, length-drop ((h.overhead_sectors - 1) * sector) d.buf)
measure-step-lt cfg d d' (by_grain h lba size s k (c, r, e, n)) = ground (
  arith,
  state-on_grain cfg h lba size (take (round_up (12 + size) sector) d.buf) d.core c,
  length-drop (round_up (12 + size) sector) d.buf,
)
measure-step-lt cfg d d' (by_eos s (c, r, e, n)) = ground (arith, length-drop sector d.buf)
measure-step-lt cfg d d' (by_metadata val s (c, r, e, n)) =
    ground (arith, length-drop (sector + val * sector) d.buf)
