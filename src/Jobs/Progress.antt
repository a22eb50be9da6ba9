-- ===== src/Jobs/Progress.antt =====
-- `RateMeter` of helper/helper_app/jobs/progress.py. A clock reading is a number of milliseconds, the rate a whole
-- number of bytes per second.
use vmware_migration_helper.Base.{
  ℕ, ◌+◌, ◌-◌, ◌*◌, ◌/◌, ◌≤◌, ◌≡◌, ◌∙◌, refl, ap, false, List, [], ◌∷◌, ◌++◌, leb, arith, sum_by,
  if◌then◌else◌, max, min, All, Bool-cases, inl, inr,
}

-- A time and the bytes that came then.
abbrev pub Sample : Type 0
Sample = ℕ × ℕ

pub record RateMeter : Type 0 where
  pub window : ℕ
  pub start : ℕ
  pub samples : List Sample  -- the oldest first

-- `_trim`: samples go from the front until one is inside the window.
unfoldable pub trim : ℕ → ℕ → List Sample → List Sample
trim window now [] = []
trim window now ((time, n) ∷ samples) =
    let rest = trim window now samples in
    if leb (time + window) now then rest else (time, n) ∷ samples

unfoldable pub add : ℕ → ℕ → RateMeter → RateMeter
add now n m = record m { samples = trim m.window now (m.samples ++ (now, n) ∷ []) }

abbrev pub total : List Sample → ℕ
total samples = sum_by (λ s. s.1) samples

abbrev pub per_second : ℕ → List Sample → ℕ
per_second span [] = 0
per_second span (s ∷ samples) = total (s ∷ samples) * 1000 / max span 1

unfoldable pub rate : ℕ → RateMeter → ℕ × RateMeter
rate now m =
    let kept = trim m.window now m.samples in
    (per_second (min m.window (now - m.start)) kept, record m { samples = kept })

-- The times of the samples do not go down.
abbrev pub IsAscending : List Sample → Type 0
IsAscending [] = Unit
IsAscending (s ∷ samples) = (All (λ t. s.0 ≤ t.0) samples) × (IsAscending samples)

-- The bytes of the samples that are inside the window, each looked at by itself.
abbrev pub recent : ℕ → ℕ → List Sample → ℕ
recent window now samples = sum_by (λ s. if leb (s.0 + window) now then 0 else s.1) samples

total-recent :
    (window now time : ℕ) (samples : List Sample)
    → leb (time + window) now ≡ false
    → All (λ t. time ≤ t.0) samples
    → total samples ≡ recent window now samples
total-recent window now time [] e h = refl
total-recent window now time ((t, n) ∷ samples) e h =
    let ih = total-recent window now time samples e h.1 in
    let first = h.0 in ground (arith, e, ih, first)

zero_plus : (n : ℕ) → n ≡ 0 + n
zero_plus n = omega arith

-- With a clock that does not go back, `_trim` keeps samples of as many bytes as came inside the window.
pub total-trim :
    (window now : ℕ) (samples : List Sample)
    → IsAscending samples
    → total (trim window now samples) ≡ recent window now samples
unfolding trim
total-trim window now [] h = refl
total-trim window now ((time, n) ∷ samples) h = elim (Bool-cases (leb (time + window) now)) [
  | inl old ↦ rw old (total-trim window now samples h.1 ∙ zero_plus (recent window now samples))
  | inr young ↦ rw young (ap (λ m. n + m) (total-recent window now time samples young h.0))
]
