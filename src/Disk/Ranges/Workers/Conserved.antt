-- ===== src/Disk/Ranges/Workers/Conserved.antt =====
-- No chunk is lost and none is made up: whatever is counted of the chunks is the same after every move of
-- `copy_ranges` of helper/helper_app/disk/vhd_range_copy.py.
use vmware_migration_helper.Base.{
  ℕ, zero, suc, ◌+◌, ◌≡◌, refl, ap, ◌∙◌, arith, Option, none, some, List, sum_by, replicate,
}
use vmware_migration_helper.Disk.Ranges.{Range}
use vmware_migration_helper.Disk.Ranges.Workers.{
  Worker, idle, looking, reporting, checking, writing, counting, fetching, failing, stopping, ended,
  Shared, Move, pop, write, add, Step, here, there, Run, start, later, init,
}

module _ (f : Range → ℕ) where
  abbrev kept_by : Option Range → ℕ
  kept_by none = 0
  kept_by (some c) = f c

  -- What a worker holds that is not written.
  abbrev pub held : Worker → ℕ
  held idle = 0
  held looking = 0
  held reporting = 0
  held (checking c) = f c
  held (writing c) = f c
  held (counting c) = 0
  held (fetching c n) = f c
  held (failing e h) = kept_by h
  held (stopping h) = kept_by h
  held (ended h) = kept_by h

  abbrev pub total : Shared → ℕ
  total s = sum_by f s.queue + sum_by f s.written

  Move-total :
      {retries : ℕ} {s t : Shared} {w v : Worker}
      → Move retries s w t v
      → total t + held v ≡ total s + held w
  Move-total (pop e) = omega (arith, ap (sum_by f) e)
  Move-total _ = omega arith

  Step-total :
      {retries : ℕ} {s t : Shared} {ws vs : List Worker}
      → Step retries s t ws vs
      → total t + sum_by held vs ≡ total s + sum_by held ws
  Step-total (here m) = omega (arith, Move-total m)
  Step-total (there st) = omega (arith, Step-total st)

  Run-total :
      {retries : ℕ} {s : Shared} {ws : List Worker} {k : ℕ} {t : Shared} {vs : List Worker}
      → Run retries s ws k t vs
      → total t + sum_by held vs ≡ total s + sum_by held ws
  Run-total start = refl
  Run-total (later r st) = Step-total st ∙ Run-total r

  held_none : (n : ℕ) → sum_by held (replicate n idle) ≡ 0
  held_none zero = refl
  held_none (suc n) = omega (arith, held_none n)

  -- From the start of the threads on.
  pub Run-init-total :
      {retries k : ℕ} {chunks : List Range} {t : Shared} {vs : List Worker} (n : ℕ)
      → Run retries (init chunks) (replicate n idle) k t vs
      → total t + sum_by held vs ≡ sum_by f chunks
  Run-init-total n r = omega (arith, Run-total r, held_none n)

-- A chunk that is written and not yet counted.
abbrev pub uncounted : Worker → ℕ
uncounted (counting c) = c.1
uncounted _ = 0

abbrev pub size : List Range → ℕ
size = sum_by (λ c. c.1)

Move-bytes :
    {retries : ℕ} {s t : Shared} {w v : Worker}
    → Move retries s w t v
    → size t.written + s.bytes + uncounted w ≡ size s.written + t.bytes + uncounted v
Move-bytes write = omega arith
Move-bytes add = omega arith
Move-bytes _ = omega arith

Step-bytes :
    {retries : ℕ} {s t : Shared} {ws vs : List Worker}
    → Step retries s t ws vs
    → size t.written + s.bytes + sum_by uncounted ws
      ≡ size s.written + t.bytes + sum_by uncounted vs
Step-bytes (here m) = omega (arith, Move-bytes m)
Step-bytes (there st) = omega (arith, Step-bytes st)

uncounted_none : (n : ℕ) → sum_by uncounted (replicate n idle) ≡ 0
uncounted_none zero = refl
uncounted_none (suc n) = omega (arith, uncounted_none n)

-- The bytes that are counted are those of the chunks that are written, but for the ones in between.
pub Run-bytes :
    {retries : ℕ} {s : Shared} {ws : List Worker} {k : ℕ} {t : Shared} {vs : List Worker}
    → Run retries s ws k t vs
    → size t.written + s.bytes + sum_by uncounted ws
      ≡ size s.written + t.bytes + sum_by uncounted vs
Run-bytes start = refl
Run-bytes (later r st) = omega (arith, Run-bytes r, Step-bytes st)

pub Run-init-bytes :
    {retries k : ℕ} {chunks : List Range} {t : Shared} {vs : List Worker} (n : ℕ)
    → Run retries (init chunks) (replicate n idle) k t vs
    → size t.written ≡ t.bytes + sum_by uncounted vs
Run-init-bytes n r = omega (arith, Run-bytes r, uncounted_none n)
