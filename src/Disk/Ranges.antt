-- ===== src/Disk/Ranges.antt =====
-- The pure range arithmetic of helper/helper_app/disk/vhd_range_copy.py and gcs_range_copy.py. A range
-- is an offset with a length; offsets and lengths of a blob are not negative, so they are numbers.
pub mod Merge
pub mod Split
pub mod Pages
pub mod Workers
use vmware_migration_helper.Base.{
  ℕ, zero, suc, ◌+◌, ◌-◌, ◌≤◌, ◌<◌, min, max, Bool, true, false, ◌&&◌, ◌||◌, List, [], ◌∷◌, ◌++◌,
  Option, none, some, ltb, leb, ◌==◌, if◌then◌else◌, any, rev_onto,
}

-- `(offset, length)`
abbrev pub Range : Type 0
Range = ℕ × ℕ

-- Python compares tuples by the first field, then by the second.
abbrev pub range_le : Range → Range → Bool
range_le (a, n) (b, m) = ltb a b || (a == b && leb n m)

insert : Range → List Range → List Range
insert r [] = r ∷ []
insert r (s ∷ rs) = let rest = insert r rs in if range_le r s then r ∷ s ∷ rs else s ∷ rest

-- Python's `sorted`
sort : List Range → List Range
unfolding insert
sort [] = []
sort (r ∷ rs) = insert r (sort rs)

-- `out` is kept with its last item first. The body of the loop from the test on `out[-1]`.
push : List Range → ℕ → ℕ → List Range
push [] off n = (off, n) ∷ []
push ((last_off, last_len) ∷ out) off n =
    if leb off (last_off + last_len)
    then (last_off, max (last_off + last_len) (off + n) - last_off) ∷ out
    else (off, n) ∷ (last_off, last_len) ∷ out

merge_step : ℕ → List Range → Range → List Range
merge_step limit out (off, ln) =
    if leb limit off
    then out
    else let n = min ln (limit - off) in if n == 0 then out else push out off n

merge_loop : ℕ → List Range → List Range → List Range
merge_loop limit out [] = out
merge_loop limit out (r ∷ rs) = merge_loop limit (merge_step limit out r) rs

unfoldable pub merge_ranges : List Range → ℕ → List Range
unfolding sort merge_loop merge_step push
merge_ranges ranges limit = rev_onto (merge_loop limit [] (sort ranges)) []

-- One more item in front of what a loop returns.
abbrev pub prepend : Range → Option (List Range) → Option (List Range)
prepend r none = none
prepend r (some rs) = some (r ∷ rs)

-- The `while ln > 0` loop of one range; `none` is a loop that does not end (a chunk of 0 bytes).
split_one : ℕ → ℕ → ℕ → ℕ → Option (List Range)
split_one zero chunk off ln = if ln == 0 then some [] else none
split_one (suc fuel) chunk off ln = elim (ln == 0) [
  | true ↦ some []
  | false ↦ let n = min ln chunk in prepend (off, n) (split_one fuel chunk (off + n) (ln - n))
]

-- `chunks` grows by what the loop of one range appends, then by the rest.
abbrev pub extend : Option (List Range) → Option (List Range) → Option (List Range)
extend none rest = none
extend (some chunks) none = none
extend (some chunks) (some rest) = some (chunks ++ rest)

-- A range of `ln` bytes takes at most `ln` rounds.
unfoldable pub split_chunks : List Range → ℕ → Option (List Range)
unfolding split_one
split_chunks [] chunk = some []
split_chunks ((off, ln) ∷ ranges) chunk =
    extend (split_one ln chunk off ln) (split_chunks ranges chunk)

-- The `while pos < total_bytes` loop of `copy_sequential`: inclusive `(start, end)` pairs. The loop does
-- not end for a chunk of 0 bytes.
gcs_loop : ℕ → ℕ → ℕ → ℕ → Option (List Range)
gcs_loop zero total chunk pos = if ltb pos total then none else some []
gcs_loop (suc fuel) total chunk pos = elim (ltb pos total) [
  | false ↦ some []
  | true ↦
      let end = min (total - 1) (pos + chunk - 1) in
      prepend (pos, end) (gcs_loop fuel total chunk (end + 1))
]

unfoldable pub gcs_ranges : ℕ → ℕ → Option (List Range)
unfolding gcs_loop
gcs_ranges total chunk = gcs_loop total total chunk 0

-- Byte `x` lies in the range.
abbrev pub within : ℕ → Range → Bool
within x (off, n) = leb off x && ltb x (off + n)

-- Byte `x` lies in one of the ranges.
abbrev pub covers : ℕ → List Range → Bool
covers x = any (within x)

-- Byte `x` lies in an inclusive pair of `gcs_ranges`.
abbrev pub within_pair : ℕ → Range → Bool
within_pair x (start, end) = leb start x && leb x end
