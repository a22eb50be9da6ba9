-- ===== src/Disk/Ranges/Workers/Ends.antt =====
-- The threads of `copy_ranges` of helper/helper_app/disk/vhd_range_copy.py end, whatever their order.
use vmware_migration_helper.Base.{
  ℕ, zero, suc, ◌+◌, ◌*◌, ◌≤◌, ◌<◌, ◌≡◌, refl, ap, arith, true, false, List, [], ◌∷◌, sum_by,
  replicate, ◌⊎◌, inl, inr, all, max, min, length, Bool-cases, Option-cases,
}
use vmware_migration_helper.Disk.Ranges.{Range}
use vmware_migration_helper.Disk.Ranges.Workers.{
  Worker, idle, looking, reporting, checking, writing, counting, fetching, failing, stopping, ended,
  Shared, Move, go_on, quit, drained, pop, pass, give_up, abort, fetched, write, add, report,
  note_first, note_later, set_stop, Step, here, there, Run, start, later, init, threads,
}
use vmware_migration_helper.Disk.Ranges.Workers.Sound.{is_ended}

module _ (retries : ℕ) where
  -- How many moves a worker has at most before it looks at the queue again or ends.
  abbrev pub ahead : Worker → ℕ
  ahead idle = 2
  ahead looking = 1
  ahead reporting = 3
  ahead (counting c) = 4
  ahead (writing c) = 5
  ahead (fetching c n) = n + 6
  ahead (checking c) = retries + 7
  ahead (failing e h) = 2
  ahead (stopping h) = 1
  ahead (ended h) = 0

  abbrev pub waiting : List Range → ℕ
  waiting = sum_by (λ c. retries + 7)

  Move-falls :
      {s t : Shared} {w v : Worker}
      → Move retries s w t v
      → waiting t.queue + ahead v < waiting s.queue + ahead w
  Move-falls (pop e) = omega (arith, ap waiting e)
  Move-falls _ = omega arith

  Step-falls :
      {s t : Shared} {ws vs : List Worker}
      → Step retries s t ws vs
      → waiting t.queue + sum_by ahead vs < waiting s.queue + sum_by ahead ws
  Step-falls (here m) = omega (arith, Move-falls m)
  Step-falls (there st) = omega (arith, Step-falls st)

  Run-falls :
      {s : Shared} {ws : List Worker} {k : ℕ} {t : Shared} {vs : List Worker}
      → Run retries s ws k t vs
      → k + (waiting t.queue + sum_by ahead vs) ≤ waiting s.queue + sum_by ahead ws
  Run-falls start = omega arith
  Run-falls (later r st) = omega (arith, Run-falls r, Step-falls st)

  -- A worker that has not ended can move.
  Next : Shared → Worker → Type 0
  Next s w = (t : Shared) × (v : Worker) × Move retries s w t v

  next : (s : Shared) (w : Worker) → is_ended w ≡ false → Next s w
  unfolding Next
  next s idle h = elim (Bool-cases s.stop) [ inl e ↦ (_, _, quit e) | inr e ↦ (_, _, go_on e) ]
  next s looking h = look s.queue refl
    where
      look : (q : List Range) → s.queue ≡ q → Next s looking
      look [] e = (_, _, drained e)
      look (c ∷ q) e = (_, _, pop e)
  next s reporting h = (_, _, report)
  next s (checking c) h = (_, _, pass)
  next s (writing c) h = (_, _, write)
  next s (counting c) h = (_, _, add)
  next s (fetching c zero) h = (_, _, give_up)
  next s (fetching c (suc n)) h = elim (Bool-cases s.stop) [
    | inl e ↦ (_, _, abort e)
    | inr e ↦ (_, _, fetched e)
  ]
  next s (failing x g) h = elim (Option-cases s.failure) [
    | inl e ↦ (_, _, note_first e)
    | inr (y, e) ↦ (_, _, note_later e)
  ]
  next s (stopping g) h = (_, _, set_stop)
  next s (ended g) h = absurd (cc h)

  abbrev pub CanMove : Shared → List Worker → Type 0
  CanMove s ws = (t : Shared) × (vs : List Worker) × Step retries s t ws vs

  next_step : (s : Shared) (ws : List Worker) → (all is_ended ws ≡ true) ⊎ CanMove s ws
  unfolding Next
  next_step s [] = inl refl
  next_step s (w ∷ ws) = elim (Bool-cases (is_ended w)) [
    | inl e ↦ elim (next_step s ws) [
      | inl h ↦ inl (ground (arith, e, h))
      | inr (t, vs, st) ↦ inr (t, w ∷ vs, there st)
    ]
    | inr e ↦ let (t, v, m) = next s w e in inr (t, v ∷ ws, here m)
  ]

  ahead_idle : (n : ℕ) → sum_by ahead (replicate n idle) ≡ 2 * n
  ahead_idle zero = refl
  ahead_idle (suc n) = omega (arith, ahead_idle n)

  -- No order of the moves of `copy_ranges` goes on for ever, and none gets stuck: a run has at most
  -- `retries + 7` moves for each chunk and 2 for each thread, and at its end either all threads have
  -- ended or one of them can move.
  pub copy_ranges-Ends :
      (workers : ℕ) (chunks : List Range) {k : ℕ} {t : Shared} {vs : List Worker}
      → Run retries (init chunks) (threads workers chunks) k t vs
      → (k ≤ waiting chunks + 2 * max 1 (min workers (length chunks)))
        × ((all is_ended vs ≡ true) ⊎ CanMove t vs)
  copy_ranges-Ends workers chunks {t} {vs} r =
      (omega (arith, Run-falls r, ahead_idle (max 1 (min workers (length chunks)))), next_step t vs)
