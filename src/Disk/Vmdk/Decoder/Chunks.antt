-- ===== src/Disk/Vmdk/Decoder/Chunks.antt =====
-- How the stream is cut into chunks makes no difference.
use vmware_migration_helper.Base.{
  ℕ, zero, suc, ◌<◌, ◌≡◌, refl, sym, ap, ◌∙◌, true, false, Option, none, some, List, [], ◌∷◌, ◌++◌,
  append-nil, append_assoc, arith, length-append, Bool-cases, inl, inr, if◌then◌else◌,
}
use vmware_migration_helper.Base.Bytes.{Bytes}
use vmware_migration_helper.Disk.Vmdk.{Result, Error, ok, err, ◌>>=◌}
use vmware_migration_helper.Disk.Vmdk.Decoder.{
  Decoder, Config, new, step, step_in, measure, extend, drain_fuel, drain, is_done, feed, feed_all,
  finish, decode,
}
use vmware_migration_helper.Disk.Vmdk.Decoder.Steps.{grow, step-extend, step_inv, measure-step-lt}

-- What a round gives, with the equation.
pub data Round (cfg : Config) (d : Decoder) : Type 0 where
  fails : (e : Error) → step cfg d ≡ err e → Round cfg d
  waits : step cfg d ≡ ok none → Round cfg d
  goes : (d' : Decoder) → step cfg d ≡ ok (some d') → measure d' < measure d → Round cfg d

pub drain-Round :
    (cfg : Config) (d : Decoder) (r : Result (Option Decoder)) → step cfg d ≡ r → Round cfg d
drain-Round cfg d (err e) h = fails e h
drain-Round cfg d (ok none) h = waits h
drain-Round cfg d (ok (some d')) h = goes d' h (measure-step-lt cfg d d' (step_inv cfg d h))

module _ (cfg : Config) (f : ℕ) (d : Decoder) where
  pub drain_fails : {e : Error} → step cfg d ≡ err e → drain_fuel (suc f) cfg d ≡ err e
  unfolding drain_fuel
  drain_fails h = rw (h, drain_fuel)

  pub drain_waits : step cfg d ≡ ok none → drain_fuel (suc f) cfg d ≡ ok d
  unfolding drain_fuel
  drain_waits h = rw (h, drain_fuel)

  pub drain_goes :
      {d' : Decoder} → step cfg d ≡ ok (some d') → drain_fuel (suc f) cfg d ≡ drain_fuel f cfg d'
  unfolding drain_fuel
  drain_goes h = rw (h, drain_fuel)

drain_fuel-enough :
    (cfg : Config) (f g : ℕ) (d : Decoder)
    → measure d < f
    → measure d < g
    → drain_fuel f cfg d ≡ drain_fuel g cfg d
drain_fuel-enough cfg zero g d p q = elim p [ ]
drain_fuel-enough cfg (suc f) zero d p q = elim q [ ]
drain_fuel-enough cfg (suc f) (suc g) d p q = elim (drain-Round cfg d (step cfg d) refl) [
  | fails e h ↦ drain_fails cfg f d h ∙ sym (drain_fails cfg g d h)
  | waits h ↦ drain_waits cfg f d h ∙ sym (drain_waits cfg g d h)
  | goes d' h lt ↦
      drain_goes cfg f d h
      ∙ drain_fuel-enough cfg f g d' (omega arith) (omega arith)
      ∙ sym (drain_goes cfg g d h)
]

-- A round that goes on leaves the rest of the loop.
pub drain-step :
    (cfg : Config) (d d' : Decoder) → step cfg d ≡ ok (some d') → drain cfg d ≡ drain cfg d'
unfolding drain
drain-step cfg d d' h =
    let lt = measure-step-lt cfg d d' (step_inv cfg d h) in
    drain_goes cfg (measure d) d h ∙ drain_fuel-enough cfg (measure d) _ d' lt (omega arith)

-- Draining with more bytes behind is draining, and then draining with those bytes.
drain_fuel-extend :
    (cfg : Config) (x : Bytes) (f g : ℕ) (d : Decoder)
    → measure d < f
    → measure (extend d x) < g
    → drain_fuel g cfg (extend d x) ≡ (drain_fuel f cfg d >>= λ d'. drain cfg (extend d' x))
drain_fuel-extend cfg x zero g d p q = elim p [ ]
drain_fuel-extend cfg x (suc f) zero d p q = elim q [ ]
drain_fuel-extend cfg x (suc f) (suc g) d p q = elim (drain-Round cfg d (step cfg d) refl) [
  | fails e h ↦
      let k : step cfg (extend d x) ≡ err e = step-extend cfg x d (λ w. cc) ∙ ap (grow x) h in
      rw (drain_fails cfg f d h, drain_fails cfg g (extend d x) k)
  | waits h ↦ rw (drain_waits cfg f d h) (
      unfold drain in
      drain_fuel-enough cfg (suc g) (suc (measure (extend d x))) (extend d x) q (omega arith))
  | goes d' h lt ↦
      let k : step cfg (extend d x) ≡ ok (some (extend d' x)) =
        step-extend cfg x d (λ w. cc) ∙ ap (grow x) h in
      let lt' = measure-step-lt cfg (extend d x) (extend d' x) (step_inv cfg (extend d x) k) in
      rw (drain_goes cfg f d h, drain_goes cfg g (extend d x) k)
        (drain_fuel-extend cfg x f g d' (omega arith) (omega arith))
]

drain-extend :
    (cfg : Config) (x : Bytes) (d : Decoder)
    → drain cfg (extend d x) ≡ (drain cfg d >>= λ d'. drain cfg (extend d' x))
drain-extend cfg x d = unfold drain in drain_fuel-extend cfg x _ _ d (omega arith) (omega arith)

-- A finished decoder never looks at its buffer again.
abbrev settled : Decoder → Decoder
settled d = if is_done d.core.state then record d { buf = [] } else d

abbrev settle : Result Decoder → Result Decoder
settle (ok d) = ok (settled d)
settle (err e) = err e

settle-bind :
    (m : Result Decoder) (f g : Decoder → Result Decoder)
    → ((d : Decoder) → settle (f d) ≡ settle (g d))
    → settle (m >>= f) ≡ settle (m >>= g)
settle-bind (ok d) f g h = h d
settle-bind (err e) f g h = refl

pub drain_done : (cfg : Config) (d : Decoder) → is_done d.core.state ≡ true → drain cfg d ≡ ok d
unfolding drain drain_fuel step step_in
drain_done cfg d h = ground arith

settle-drain :
    (cfg : Config) (b : ℕ) (x : Bytes) (d : Decoder)
    → settle (drain cfg (extend d (b ∷ x))) ≡ settle (feed cfg (b ∷ x) d)
unfolding feed
settle-drain cfg b x d = elim (Bool-cases (is_done d.core.state)) [
  | inl e ↦ rw (drain_done cfg (extend d (b ∷ x)) e, e) (rw e)
  | inr e ↦ rw e
]

bind-ok : (m : Result Decoder) → (m >>= λ d. ok d) ≡ m
bind-ok (ok d) = refl
bind-ok (err e) = refl

extend-append : (d : Decoder) (x y : Bytes) → extend d (x ++ y) ≡ extend (extend d x) y
extend-append d x y = ground (arith, append_assoc d.buf x y, length-append x y)

pub feed_first :
    (cfg : Config) (b : ℕ) (x : Bytes) (d : Decoder)
    → is_done d.core.state ≡ false
    → feed cfg (b ∷ x) d ≡ drain cfg (extend d (b ∷ x))
unfolding feed
feed_first cfg b x d e = rw e

feed-append :
    (cfg : Config) (x y : Bytes) (d : Decoder)
    → settle (feed cfg (x ++ y) d) ≡ settle (feed cfg x d >>= feed cfg y)
feed-append cfg [] y d = unfold feed in refl
feed-append cfg (a ∷ x) [] d = rw append-nil (
    ap settle (sym (bind-ok (feed cfg (a ∷ x) d)))
    ∙ settle-bind (feed cfg (a ∷ x) d) (λ e. ok e) (feed cfg []) (λ e. unfold feed in refl))
feed-append cfg (a ∷ x) (b ∷ y) d = elim (Bool-cases (is_done d.core.state)) [
  | inl e ↦ unfold feed in rw (e, e) (ground (arith, length-append x (b ∷ y)))
  | inr e ↦
      ap settle (feed_first cfg a (x ++ b ∷ y) d e)
      ∙ (ap (λ k. settle (drain cfg k)) (extend-append d (a ∷ x) (b ∷ y))
          ∙ ap settle (drain-extend cfg (b ∷ y) (extend d (a ∷ x))))
      ∙ settle-bind (drain cfg (extend d (a ∷ x))) _ (feed cfg (b ∷ y)) (settle-drain cfg b y)
      ∙ ap (λ m. settle (m >>= feed cfg (b ∷ y))) (sym (feed_first cfg a x d e))
]

-- `b"".join(chunks)`
abbrev pub join : List Bytes → Bytes
join [] = []
join (c ∷ cs) = c ++ join cs

feed_all-join :
    (cfg : Config) (chunks : List Bytes) (d : Decoder)
    → settle (feed_all cfg chunks d) ≡ settle (feed cfg (join chunks) d)
unfolding feed_all
feed_all-join cfg [] d = unfold feed in refl
feed_all-join cfg (c ∷ cs) d =
    settle-bind (feed cfg c d) (feed_all cfg cs) (feed cfg (join cs)) (feed_all-join cfg cs)
    ∙ sym (feed-append cfg c (join cs) d)

finish-settled : (d : Decoder) → finish (settled d) ≡ finish d
unfolding finish
finish-settled d = ground arith

finish-settle : (m : Result Decoder) → (settle m >>= finish) ≡ (m >>= finish)
finish-settle (ok d) = finish-settled d
finish-settle (err e) = refl

pub decode_eq :
    (cfg : Config) (chunks : List Bytes) → decode cfg chunks ≡ (feed_all cfg chunks new >>= finish)
unfolding decode
decode_eq cfg chunks = refl

decode-settle :
    (cfg : Config) (chunks : List Bytes)
    → decode cfg chunks ≡ (settle (feed cfg (join chunks) new) >>= finish)
decode-settle cfg chunks =
    decode_eq cfg chunks
    ∙ sym (finish-settle (feed_all cfg chunks new))
    ∙ ap (λ m. m >>= finish) (feed_all-join cfg chunks new)

-- Decoding a stream gives the same writes and statistics, or the same error, however it is cut into
-- chunks: the outcome is that of feeding the whole stream at once.
pub decode-join :
    (cfg : Config) (chunks : List Bytes) → decode cfg chunks ≡ decode cfg (join chunks ∷ [])
decode-join cfg chunks =
    decode-settle cfg chunks
    ∙ sym (
        decode-settle cfg (join chunks ∷ [])
        ∙ ap (λ l. settle (feed cfg l new) >>= finish) (append-nil (join chunks)))
