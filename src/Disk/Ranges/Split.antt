-- ===== src/Disk/Ranges/Split.antt =====
-- `split_chunks` and `gcs_ranges` cut ranges into requests.
use vmware_migration_helper.Base.{
  ℕ, zero, suc, ◌+◌, ◌-◌, ◌≤◌, ◌<◌, min, ◌≡◌, ◌≢◌, refl, ◌&&◌, ◌||◌, Option, none, some, List, [],
  ◌∷◌, ◌++◌, arith, ltb, leb, ◌==◌, All, All-append, any, inl, inr, Bool-cases,
}
use vmware_migration_helper.Disk.Ranges.{
  Range, prepend, extend, split_one, split_chunks, gcs_loop, gcs_ranges, within_pair, covers,
}

-- The loop ended, and its chunks satisfy `P`.
abbrev pub Returns : Option (List Range) → (List Range → Type 0) → Type 0
Returns none P = ⊥
Returns (some chunks) P = P chunks

covers-append : (x : ℕ) (xs ys : List Range) → covers x (xs ++ ys) ≡ (covers x xs || covers x ys)
covers-append x [] ys = refl
covers-append x (r ∷ xs) ys = ground (arith, covers-append x xs ys)

-- The size of a request: not empty, and at most `chunk` bytes.
abbrev pub IsRequest : ℕ → Range → Type 0
IsRequest chunk r = (0 < r.1) × (r.1 ≤ chunk)

-- The chunks are requests, and cover exactly the bytes of the ranges.
abbrev pub Cuts : ℕ → List Range → List Range → Type 0
Cuts chunk ranges chunks =
    (All (IsRequest chunk) chunks) × ((x : ℕ) → covers x chunks ≡ covers x ranges)

prepend_lem :
    (P Q : List Range → Type 0) (r : Range) (o : Option (List Range))
    → ((rs : List Range) → P rs → Q (r ∷ rs))
    → Returns o P
    → Returns (prepend r o) Q
prepend_lem P Q r none f h = h
prepend_lem P Q r (some rs) f h = f rs h

extend_lem :
    (P Q R : List Range → Type 0) (o rest : Option (List Range))
    → ((xs ys : List Range) → P xs → Q ys → R (xs ++ ys))
    → Returns o P
    → Returns rest Q
    → Returns (extend o rest) R
extend_lem P Q R none rest f h k = h
extend_lem P Q R (some xs) none f h k = k
extend_lem P Q R (some xs) (some ys) f h k = f xs ys h k

module _ (chunk : ℕ) (pos : 0 < chunk) where
  cut_first :
      (off ln : ℕ) (rs : List Range)
      → ln ≢ 0
      → Cuts chunk ((off + min ln chunk, ln - min ln chunk) ∷ []) rs
      → Cuts chunk ((off, ln) ∷ []) ((off, min ln chunk) ∷ rs)
  cut_first off ln rs ne h =
      (((omega arith, omega arith), h.0), λ x. let c = h.1 x in ground (arith, c))

  split_one_lem :
      (fuel off ln : ℕ)
      → ln ≤ fuel
      → Returns (split_one fuel chunk off ln) (Cuts chunk ((off, ln) ∷ []))
  unfolding split_one
  split_one_lem zero off ln h = elim (Bool-cases (ln == 0)) [
    | inl e ↦ rw e (tt, λ x. ground arith)
    | inr e ↦ absurd (ground arith)
  ]
  split_one_lem (suc fuel) off ln h = elim (Bool-cases (ln == 0)) [
    | inl e ↦ rw (e, Returns) (tt, λ x. ground arith)
    | inr e ↦
        rw (e, Returns)
          (prepend_lem (Cuts chunk ((off + min ln chunk, ln - min ln chunk) ∷ [])) _ _ _
            (λ rs k. cut_first off ln rs (ground arith) k)
            (split_one_lem fuel (off + min ln chunk) (ln - min ln chunk) (ground arith)))
  ]

  -- With a chunk size above 0 the loops end; every request is for 1 to `chunk` bytes, and the requests
  -- cover exactly the bytes that the ranges cover.
  pub split_chunks-Cuts :
      (ranges : List Range) → Returns (split_chunks ranges chunk) (Cuts chunk ranges)
  unfolding split_chunks
  split_chunks-Cuts [] = (tt, λ x. refl)
  split_chunks-Cuts ((off, ln) ∷ ranges) =
      extend_lem (Cuts chunk ((off, ln) ∷ [])) (Cuts chunk ranges) _ _ _
        (λ xs ys h k. (
          All-append (IsRequest chunk) xs ys h.0 k.0,
          λ x. let a = h.1 x in let b = k.1 x in ground (arith, covers-append x xs ys, a, b),
        ))
        (split_one_lem ln off ln (omega arith)) (split_chunks-Cuts ranges)

  -- The requests of `copy_sequential` from `pos` on: each at most `chunk` bytes and inside the object,
  -- and every byte from `from` to the end is in one.
  abbrev pub CutsObject : ℕ → ℕ → List Range → Type 0
  CutsObject total from ranges =
      (All (λ r. (r.0 ≤ r.1) × (r.1 + 1 ≤ r.0 + chunk) × (r.1 < total)) ranges)
      × ((x : ℕ) → any (within_pair x) ranges ≡ (leb from x && ltb x total))

  gcs_loop_lem :
      (fuel total from : ℕ)
      → total ≤ fuel + from
      → Returns (gcs_loop fuel total chunk from) (CutsObject total from)
  unfolding gcs_loop
  gcs_loop_lem zero total from h = elim (Bool-cases (ltb from total)) [
    | inl e ↦ absurd (ground arith)
    | inr e ↦ rw e (tt, λ x. ground arith)
  ]
  gcs_loop_lem (suc fuel) total from h = elim (Bool-cases (ltb from total)) [
    | inr e ↦ rw (e, Returns) (tt, λ x. ground arith)
    | inl e ↦
        let last = min (total - 1) (from + chunk - 1) in
        rw (e, Returns)
          (prepend_lem (CutsObject total (last + 1)) _ _ _
            (λ rs k. (
              ((ground arith, ground arith, ground arith), k.0),
              λ x. let c = k.1 x in ground (arith, c),
            ))
            (gcs_loop_lem fuel total (last + 1) (ground arith)))
  ]

  -- With a chunk size above 0 the loop ends; no request is empty, longer than `chunk` or past the end
  -- of the object, and every byte of the object is in one.
  pub gcs_ranges-CutsObject : (total : ℕ) → Returns (gcs_ranges total chunk) (CutsObject total 0)
  unfolding gcs_ranges
  gcs_ranges-CutsObject total = gcs_loop_lem total total 0 (omega arith)
