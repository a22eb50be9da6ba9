-- ===== src/Disk/Vmdk/Decoder/Termination.antt =====
-- The loop of `_drain` ends.
use vmware_migration_helper.Base.{
  ℕ, zero, suc, ◌<◌, ◌≡◌, ◌≢◌, refl, sym, ◌∙◌, ap, Option, none, some, List, [], ◌∷◌, arith, take,
}
use vmware_migration_helper.Base.Bytes.{Bytes}
use vmware_migration_helper.Disk.Vmdk.{
  SparseExtentHeader, Result, ok, err, ◌>>=◌, out_of_fuel, unpack, sector,
}
use vmware_migration_helper.Disk.Vmdk.Decoder.{
  State, st_header, st_preamble, st_markers, st_done, Core, Decoder, Config, Marker, grain, eos,
  metadata, unknown, new, step, step_in, marker_step, process_marker, consume, read_marker,
  drain_fuel, drain, feed, feed_all, finish, decode, extend, on_header, on_preamble, on_grain,
  on_eos, on_metadata, emit_grain, emit_inflated, write_grain, validate_header, measure,
}
use vmware_migration_helper.Disk.Vmdk.Decoder.Chunks.{
  fails, waits, goes, drain-Round, drain_fails, drain_waits, drain_goes, decode_eq,
}

bind-Ends {ℓ κ} :
    {A : Type ℓ} {B : Type κ} (m : Result A) (f : A → Result B)
    → m ≢ err out_of_fuel
    → ((a : A) → f a ≢ err out_of_fuel)
    → (m >>= f) ≢ err out_of_fuel
bind-Ends (ok a) f h k e = k a e
bind-Ends (err x) f h k e = h (cc)

unpack-Ends : (b : Bytes) → unpack b ≢ err out_of_fuel
unfolding unpack
unpack-Ends b h = ground arith

validate-Ends : (cfg : Config) (h : SparseExtentHeader) → validate_header cfg h ≢ err out_of_fuel
unfolding validate_header
validate-Ends cfg h e = ground arith

on_header-Ends : (cfg : Config) (b : Bytes) (c : Core) → on_header cfg b c ≢ err out_of_fuel
unfolding on_header
on_header-Ends cfg b c h = grind (arith, unpack-Ends, validate-Ends)

emit_inflated-Ends :
    (cfg : Config) (h : SparseExtentHeader) (lba : ℕ) (o : Option Bytes) (c : Core)
    → emit_inflated cfg h lba o c ≢ err out_of_fuel
unfolding emit_inflated write_grain
emit_inflated-Ends cfg h lba o c e = ground arith

consume-Ends :
    (need : ℕ) (act : Bytes → Core → Result Core) (d : Decoder)
    → act (take need d.buf) d.core ≢ err out_of_fuel
    → consume need act d ≢ err out_of_fuel
unfolding consume
consume-Ends need act d h e = ground arith

marker_step-Ends :
    (cfg : Config) (h : SparseExtentHeader) (m : Marker) (d : Decoder)
    → marker_step cfg h m d ≢ err out_of_fuel
unfolding marker_step on_grain on_eos on_metadata emit_grain
marker_step-Ends cfg h (grain lba size) d =
    consume-Ends _ (on_grain cfg h lba size) d (emit_inflated-Ends cfg h lba _ d.core)
marker_step-Ends cfg h eos d = consume-Ends _ on_eos d (λ e. cc)
marker_step-Ends cfg h (metadata val) d = consume-Ends _ on_metadata d (λ e. cc)
marker_step-Ends cfg h unknown d = λ e. cc

step_in-Ends :
    (cfg : Config) (s : State) (h : Option SparseExtentHeader) (d : Decoder)
    → step_in cfg s h d ≢ err out_of_fuel
unfolding step_in process_marker on_preamble
step_in-Ends cfg st_header h d =
    consume-Ends _ (on_header cfg) d (on_header-Ends cfg (take sector d.buf) d.core)
step_in-Ends cfg st_preamble none d = λ e. cc
step_in-Ends cfg st_preamble (some h) d = consume-Ends _ (on_preamble h) d (λ e. cc)
step_in-Ends cfg st_markers none d = λ e. cc
step_in-Ends cfg st_markers (some h) d =
    λ e. ground (arith, marker_step-Ends cfg h (read_marker d.buf) d)
step_in-Ends cfg st_done h d = λ e. cc

drain_fuel-Ends :
    (cfg : Config) (f : ℕ) (d : Decoder) → measure d < f → drain_fuel f cfg d ≢ err out_of_fuel
drain_fuel-Ends cfg zero d p e = elim p [ ]
drain_fuel-Ends cfg (suc f) d p e = elim (drain-Round cfg d (step cfg d) refl) [
  | fails x h ↦
      let q : x ≡ out_of_fuel = cc (drain_fails cfg f d h) in
      unfold step in step_in-Ends cfg d.core.state d.core.header d (h ∙ ap err q)
  | waits h ↦ cc (drain_waits cfg f d h)
  | goes m h lt ↦ drain_fuel-Ends cfg f m (omega arith) (sym (drain_goes cfg f d h) ∙ e)
]

feed-Ends : (cfg : Config) (b : Bytes) (d : Decoder) → feed cfg b d ≢ err out_of_fuel
unfolding feed drain
feed-Ends cfg [] d e = cc
feed-Ends cfg (b ∷ bs) d e =
    ground (arith, drain_fuel-Ends cfg (suc (measure (extend d (b ∷ bs)))) (extend d (b ∷ bs)))

feed_all-Ends : (cfg : Config) (cs : List Bytes) (d : Decoder) → feed_all cfg cs d ≢ err out_of_fuel
unfolding feed_all
feed_all-Ends cfg [] d = λ e. cc
feed_all-Ends cfg (c ∷ cs) d =
    bind-Ends (feed cfg c d) (feed_all cfg cs) (feed-Ends cfg c d) (feed_all-Ends cfg cs)

-- Whatever the stream, the loops of the decoder end: decoding returns statistics or raises one of the
-- errors of the code, and never runs out of the rounds that the model gives it.
pub decode_ends : (cfg : Config) (chunks : List Bytes) → decode cfg chunks ≢ err out_of_fuel
unfolding finish
decode_ends cfg chunks = rw decode_eq (
    bind-Ends (feed_all cfg chunks new) finish (feed_all-Ends cfg chunks new) (λ d e. ground arith))
