-- ===== src/Disk/Writer/Laws.antt =====
-- What a write leaves on the device: helper/helper_app/disk/writer.py.
use vmware_migration_helper.Base.{
  ℕ, zero, suc, ◌+◌, ◌≤◌, ◌<◌, ◌≡◌, refl, sym, ap, ◌∙◌, ◌⊎◌, inl, inr, [], ◌∷◌, arith, ◌==◌,
  if◌then◌else◌, length, length-drop, length-take, take, drop, Bool-cases,
}
use vmware_migration_helper.Base.Bytes.{Bytes, byte_at}
use mathlib.Core.Path.{subst}
use vmware_migration_helper.Disk.Writer.{
  Device, short_write, Written, done, failed, put_bytes, write_loop, write_at,
}

-- The bytes from an offset on.
abbrev pub read_bytes : ℕ → ℕ → Device → Bytes
read_bytes zero offset dev = []
read_bytes (suc n) offset dev = dev offset ∷ read_bytes n (offset + 1) dev

-- Every byte outside of the range is as it was.
abbrev pub SameOutside : ℕ → ℕ → Device → Device → Type 0
SameOutside offset n dev dev' = (x : ℕ) → (x < offset) ⊎ (offset + n ≤ x) → dev' x ≡ dev x

-- A write that fails says so; one that does not has put the bytes there, and nothing else.
abbrev pub Puts : ℕ → Bytes → Device → Written → Type 0
Puts offset bytes dev (failed e) = e ≡ short_write
Puts offset bytes dev (done dev') =
    (read_bytes (length bytes) offset dev' ≡ bytes) × (SameOutside offset (length bytes) dev dev')

pub put_bytes-before :
    (x offset : ℕ) (bytes : Bytes) (dev : Device)
    → x < offset
    → put_bytes offset bytes dev x ≡ dev x
unfolding put_bytes
put_bytes-before x offset [] dev h = refl
put_bytes-before x offset (b ∷ bytes) dev h =
    put_bytes-before x (offset + 1) bytes (λ y. if y == offset then b else dev y) (omega arith)
    ∙ ground arith

pub put_bytes-after :
    (x offset : ℕ) (bytes : Bytes) (dev : Device)
    → offset + length bytes ≤ x
    → put_bytes offset bytes dev x ≡ dev x
unfolding put_bytes
put_bytes-after x offset [] dev h = refl
put_bytes-after x offset (b ∷ bytes) dev h =
    put_bytes-after x (offset + 1) bytes (λ y. if y == offset then b else dev y) (omega arith)
    ∙ ground arith

put_bytes-SameOutside :
    (offset : ℕ) (bytes : Bytes) (dev : Device)
    → SameOutside offset (length bytes) dev (put_bytes offset bytes dev)
put_bytes-SameOutside offset bytes dev x (inl h) = put_bytes-before x offset bytes dev h
put_bytes-SameOutside offset bytes dev x (inr h) = put_bytes-after x offset bytes dev h

read_bytes-put_bytes :
    (offset : ℕ) (bytes : Bytes) (dev : Device)
    → read_bytes (length bytes) offset (put_bytes offset bytes dev) ≡ bytes
unfolding put_bytes
read_bytes-put_bytes offset [] dev = refl
read_bytes-put_bytes offset (b ∷ bytes) dev =
    let dev' : Device = λ y. if y == offset then b else dev y in
    let first : put_bytes (offset + 1) bytes dev' offset ≡ b =
      put_bytes-before offset (offset + 1) bytes dev' (omega arith) ∙ ground arith in
    rw (first, read_bytes-put_bytes (offset + 1) bytes dev') refl

add_zero : (n : ℕ) → n + 0 ≡ n
add_zero n = omega arith

add_suc : (m n : ℕ) → m + suc n ≡ (m + 1) + n
add_suc m n = omega arith

-- Bytes put in two parts.
put_bytes-split :
    (n offset : ℕ) (bytes : Bytes) (dev : Device)
    → put_bytes
        (offset + length (take n bytes))
        (drop n bytes)
        (put_bytes offset (take n bytes) dev)
      ≡ put_bytes offset bytes dev
unfolding put_bytes
put_bytes-split zero offset bytes dev = ap (λ o. put_bytes o bytes dev) (add_zero offset)
put_bytes-split (suc n) offset [] dev = refl
put_bytes-split (suc n) offset (b ∷ bytes) dev =
    let dev' : Device = λ y. if y == offset then b else dev y in
    ap (λ o. put_bytes o (drop n bytes) (put_bytes (offset + 1) (take n bytes) dev'))
      (add_suc offset (length (take n bytes)))
    ∙ put_bytes-split n (offset + 1) bytes dev'

module _ (pwrite : ℕ → Bytes → ℕ)
    (partial : (offset : ℕ) (bytes : Bytes) → pwrite offset bytes ≤ length bytes) where
  abbrev Ends : Written → Written → Type 0
  Ends w target = (w ≡ failed short_write) ⊎ (w ≡ target)

  -- The rest of the loop after a write of `n` bytes.
  next_round :
      (n offset : ℕ) (view : Bytes) (dev : Device)
      → n ≤ length view
      → put_bytes (offset + n) (drop n view) (put_bytes offset (take n view) dev)
        ≡ put_bytes offset view dev
  next_round n offset view dev h =
      let same : length (take n view) ≡ n = omega (arith, length-take n view) in
      ap (λ m. put_bytes (offset + m) (drop n view) (put_bytes offset (take n view) dev)) (sym same)
      ∙ put_bytes-split n offset view dev

  write_loop_lem :
      (fuel offset : ℕ) (view : Bytes) (dev : Device)
      → length view ≤ fuel
      → Ends (write_loop fuel pwrite offset view dev) (done (put_bytes offset view dev))
  unfolding write_loop
  write_loop_lem fuel offset [] dev h = unfold put_bytes in inr refl
  write_loop_lem zero offset (b ∷ view) dev h = absurd (omega arith)
  write_loop_lem (suc fuel) offset (b ∷ view) dev h =
      elim (Bool-cases (pwrite offset (b ∷ view) == 0)) [
        | inl e ↦ rw (e, write_loop) (inl refl)
        | inr e ↦
            let n = pwrite offset (b ∷ view) in
            rw (e, write_loop)
              (subst
                (λ d.
                  Ends
                    (write_loop fuel pwrite (offset + n) (drop n (b ∷ view))
                      (put_bytes offset (take n (b ∷ view)) dev))
                    (done d))
                (next_round n offset (b ∷ view) dev (partial offset (b ∷ view)))
                (write_loop_lem fuel (offset + n) (drop n (b ∷ view)) _
                  (ground (arith, length-drop n (b ∷ view), partial offset (b ∷ view)))))
      ]

  -- `write_at` ends for every `pwrite` that accepts at most the bytes it is given, however few it accepts
  -- at a time: either a call accepted nothing, and it raises, or the bytes stand at the offset and
  -- every byte outside of the range is as it was.
  pub write_at-Puts :
      (offset : ℕ) (bytes : Bytes) (dev : Device)
      → Puts offset bytes dev (write_at pwrite offset bytes dev)
  unfolding write_at
  write_at-Puts offset bytes dev =
      of_Ends (write_loop_lem (length bytes) offset bytes dev (omega arith))
    where
      of_Ends : {w : Written} → Ends w (done (put_bytes offset bytes dev)) → Puts offset bytes dev w
      of_Ends (inl e) = rw e refl
      of_Ends (inr e) =
          rw e (read_bytes-put_bytes offset bytes dev, put_bytes-SameOutside offset bytes dev)

pub put_bytes-at :
    (i offset : ℕ) (bytes : Bytes) (dev : Device)
    → i < length bytes
    → put_bytes offset bytes dev (offset + i) ≡ byte_at i bytes
unfolding put_bytes
put_bytes-at i offset [] dev h = absurd (omega arith)
put_bytes-at zero offset (b ∷ bytes) dev h =
    put_bytes-before (offset + 0) (offset + 1) bytes (λ y. if y == offset then b else dev y)
      (omega arith)
    ∙ ground arith
put_bytes-at (suc i) offset (b ∷ bytes) dev h =
    let e : offset + suc i ≡ (offset + 1) + i = omega arith in
    rw e (put_bytes-at i (offset + 1) bytes (λ y. if y == offset then b else dev y) (omega arith))
