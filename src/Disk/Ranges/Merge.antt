-- ===== src/Disk/Ranges/Merge.antt =====
-- `merge_ranges` keeps exactly the bytes below the limit, in separate, ascending ranges.
use vmware_migration_helper.Base.{
  ℕ, ◌+◌, ◌≤◌, ◌<◌, leb, ◌≡◌, refl, ◌&&◌, ◌||◌, List, [], ◌∷◌, arith, ltb, All, All-map, if_elim,
  Bool-cases, inl, inr, rev_onto, sum_by, min, ◌-◌,
}
use vmware_migration_helper.Disk.Ranges.{
  Range, range_le, insert, sort, push, merge_step, merge_loop, merge_ranges, within, covers,
}

-- The offset of every range is at least that of the ranges before it.
abbrev IsSorted : List Range → Type 0
IsSorted [] = Unit
IsSorted (r ∷ rs) = All (λ s. r.0 ≤ s.0) rs × IsSorted rs

All-insert {ℓ} :
    (P : Range → Type ℓ) (r : Range) (rs : List Range) → P r → All P rs → All P (insert r rs)
unfolding insert
All-insert P r [] p h = (p, tt)
All-insert P r (s ∷ rs) p h = if_elim (All P) (range_le r s) (p, h) (h.0, All-insert P r rs p h.1)

insert-IsSorted : (r : Range) (rs : List Range) → IsSorted rs → IsSorted (insert r rs)
unfolding insert
insert-IsSorted r [] h = (tt, tt)
insert-IsSorted (a, n) ((b, m) ∷ rs) h = elim (Bool-cases (range_le (a, n) (b, m))) [
  | inl e ↦ rw e let le : a ≤ b = ground arith in ((le, All-map _ _ rs (λ s k. omega arith) h.0), h)
  | inr e ↦
      rw e (All-insert (λ s. b ≤ s.0) (a, n) rs (ground arith) h.0, insert-IsSorted (a, n) rs h.1)
]

sort-IsSorted : (rs : List Range) → IsSorted (sort rs)
unfolding sort
sort-IsSorted [] = tt
sort-IsSorted (r ∷ rs) = insert-IsSorted r (sort rs) (sort-IsSorted rs)

covers-insert :
    (x : ℕ) (r : Range) (rs : List Range) → covers x (insert r rs) ≡ (within x r || covers x rs)
unfolding insert
covers-insert x r [] = refl
covers-insert x r (s ∷ rs) = ground (arith, covers-insert x r rs)

covers-sort : (x : ℕ) (rs : List Range) → covers x (sort rs) ≡ covers x rs
unfolding sort
covers-sort x [] = refl
covers-sort x (r ∷ rs) = ground (arith, covers-insert x r (sort rs), covers-sort x rs)

All-zero : (rs : List Range) → All (λ s. 0 ≤ s.0) rs
All-zero [] = tt
All-zero (r ∷ rs) = (omega arith, All-zero rs)

-- Ranges with their last item first: none is empty or passes the limit, and none touches the next.
abbrev IsApartBack : ℕ → List Range → Type 0
IsApartBack limit [] = Unit
IsApartBack limit (r ∷ out) =
    (0 < r.1) × (r.0 + r.1 ≤ limit) × (All (λ s. s.0 + s.1 < r.0) out) × (IsApartBack limit out)

abbrev StartBy : ℕ → List Range → Type 0
StartBy b = All (λ s. s.0 ≤ b)

push-IsApartBack :
    (limit : ℕ) (out : List Range) (off n : ℕ)
    → 0 < n
    → off + n ≤ limit
    → StartBy off out
    → IsApartBack limit out
    → IsApartBack limit (push out off n) × StartBy off (push out off n)
unfolding push
push-IsApartBack limit [] off n p q s h = ((p, q, tt, tt), (omega arith, tt))
push-IsApartBack limit ((lo, ll) ∷ out) off n p q s h = elim (Bool-cases (leb off (lo + ll))) [
  | inl e ↦ rw e (
    (let m : lo ≤ off = s.0 in omega arith, let b : lo + ll ≤ limit = h.1 in omega arith, h.2, h.3),
    s,
  )
  | inr e ↦
      let gap : lo + ll < off = ground arith in
      rw e (
        (p, q, (gap, All-map _ _ out (λ t k. let m : lo ≤ off = s.0 in omega arith) h.2), h),
        (omega arith, s),
      )
]

covers-push :
    (x : ℕ) (out : List Range) (off n : ℕ)
    → StartBy off out
    → covers x (push out off n) ≡ (covers x out || within x (off, n))
unfolding push
covers-push x [] off n s = ground arith
covers-push x ((lo, ll) ∷ out) off n s = ground arith

merge_step_keeps :
    (limit : ℕ) (out : List Range) (r : Range)
    → StartBy r.0 out
    → IsApartBack limit out
    → IsApartBack limit (merge_step limit out r) × StartBy r.0 (merge_step limit out r)
unfolding merge_step
merge_step_keeps limit out (off, ln) s h =
    ground (arith, push-IsApartBack limit out off (min ln (limit - off)))

covers-merge_step :
    (x limit : ℕ) (out : List Range) (r : Range)
    → StartBy r.0 out
    → covers x (merge_step limit out r) ≡ (covers x out || (within x r && ltb x limit))
unfolding merge_step
covers-merge_step x limit out (off, ln) s =
    ground (arith, covers-push x out off (min ln (limit - off)))

merge_loop-IsApartBack :
    (limit b : ℕ) (out rs : List Range)
    → StartBy b out
    → All (λ s. b ≤ s.0) rs
    → IsSorted rs
    → IsApartBack limit out
    → IsApartBack limit (merge_loop limit out rs)
unfolding merge_loop
merge_loop-IsApartBack limit b out [] s l o h = h
merge_loop-IsApartBack limit b out (r ∷ rs) s l o h =
    let k = merge_step_keeps limit out r (All-map _ _ out (λ t m. omega arith) s) h in
    merge_loop-IsApartBack limit r.0 (merge_step limit out r) rs k.1 o.0 o.1 k.0

covers-merge_loop :
    (x limit b : ℕ) (out rs : List Range)
    → StartBy b out
    → All (λ s. b ≤ s.0) rs
    → IsSorted rs
    → IsApartBack limit out
    → covers x (merge_loop limit out rs) ≡ (covers x out || (covers x rs && ltb x limit))
unfolding merge_loop
covers-merge_loop x limit b out [] s l o h = ground arith
covers-merge_loop x limit b out (r ∷ rs) s l o h =
    let t = All-map _ _ out (λ t m. omega arith) s in
    let k = merge_step_keeps limit out r t h in
    let ih = covers-merge_loop x limit r.0 (merge_step limit out r) rs k.1 o.0 o.1 k.0 in
    let st = covers-merge_step x limit out r t in ground (arith, ih, st)

covers-rev_onto :
    (x : ℕ) (xs ys : List Range) → covers x (rev_onto xs ys) ≡ (covers x xs || covers x ys)
covers-rev_onto x [] ys = refl
covers-rev_onto x (r ∷ xs) ys = ground (arith, covers-rev_onto x xs (r ∷ ys))

-- A byte is covered by the merged ranges exactly when one of the given ranges covers it and it lies
-- below the limit.
pub covers-merge_ranges :
    (x : ℕ) (ranges : List Range) (limit : ℕ)
    → covers x (merge_ranges ranges limit) ≡ (covers x ranges && ltb x limit)
unfolding merge_ranges
covers-merge_ranges x ranges limit = ground (
  arith,
  covers-rev_onto x (merge_loop limit [] (sort ranges)) [],
  covers-merge_loop x limit 0 [] (sort ranges) tt (All-zero (sort ranges)) (sort-IsSorted ranges)
      tt,
  covers-sort x ranges,
)

-- Ranges in ascending order: none is empty or passes the limit, and a gap stands before each next one.
abbrev pub IsApart : ℕ → List Range → Type 0
IsApart limit [] = Unit
IsApart limit (r ∷ rs) =
    (0 < r.1) × (r.0 + r.1 ≤ limit) × (All (λ s. r.0 + r.1 < s.0) rs) × (IsApart limit rs)

-- Every range of `out` ends before every range of `rs` starts.
abbrev EndBefore : List Range → List Range → Type 0
EndBefore [] rs = Unit
EndBefore (r ∷ out) rs = All (λ s. r.0 + r.1 < s.0) rs × EndBefore out rs

EndBefore-cons :
    (r : Range) (out rs : List Range)
    → All (λ s. s.0 + s.1 < r.0) out
    → EndBefore out rs
    → EndBefore out (r ∷ rs)
EndBefore-cons r [] rs h e = tt
EndBefore-cons r (s ∷ out) rs h e = ((h.0, e.0), EndBefore-cons r out rs h.1 e.1)

rev_onto-IsApart :
    (limit : ℕ) (out rs : List Range)
    → IsApartBack limit out
    → IsApart limit rs
    → EndBefore out rs
    → IsApart limit (rev_onto out rs)
rev_onto-IsApart limit [] rs h k e = k
rev_onto-IsApart limit (r ∷ out) rs h k e =
    rev_onto-IsApart limit out (r ∷ rs) h.3 (h.0, h.1, e.0, k) (EndBefore-cons r out rs h.2 e.1)

EndBefore-nil : (out : List Range) → EndBefore out []
EndBefore-nil [] = tt
EndBefore-nil (r ∷ out) = (tt, EndBefore-nil out)

-- The merged ranges stand in ascending order with a gap between any two, none is empty, and none
-- passes the limit.
pub merge_ranges-IsApart :
    (ranges : List Range) (limit : ℕ) → IsApart limit (merge_ranges ranges limit)
unfolding merge_ranges
merge_ranges-IsApart ranges limit =
    let out = merge_loop limit [] (sort ranges) in
    rev_onto-IsApart limit out []
      (merge_loop-IsApartBack limit 0 [] (sort ranges) tt (All-zero (sort ranges))
        (sort-IsSorted ranges) tt)
      tt (EndBefore-nil out)

-- `sum(ln for _, ln in ranges)`
abbrev pub total : List Range → ℕ
total = sum_by (λ r. r.1)

total-le :
    (limit a : ℕ) (rs : List Range)
    → a ≤ limit
    → All (λ s. a ≤ s.0) rs
    → IsApart limit rs
    → a + total rs ≤ limit
total-le limit a [] p l h = omega arith
total-le limit a ((off, n) ∷ rs) p l h =
    omega
      (arith, total-le limit (off + n) rs h.1 (All-map _ _ rs (λ s k. omega arith) h.2) h.3, l.0)

-- The bytes of the merged ranges are at most the bytes of the disk, however the given ranges overlap.
pub total-merge_ranges-le :
    (ranges : List Range) (limit : ℕ) → total (merge_ranges ranges limit) ≤ limit
total-merge_ranges-le ranges limit = omega (
  arith,
  total-le limit 0 (merge_ranges ranges limit) (omega arith) (All-zero (merge_ranges ranges limit))
      (merge_ranges-IsApart ranges limit),
)
