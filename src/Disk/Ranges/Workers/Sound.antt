-- ===== src/Disk/Ranges/Workers/Sound.antt =====
-- When `copy_ranges` of helper/helper_app/disk/vhd_range_copy.py returns, every chunk is written.
use vmware_migration_helper.Base.{
  ℕ, zero, suc, ◌<◌, ◌≡◌, refl, ap, ◌∙◌, arith, Bool, true, false, not, ◌||◌, none, some, List, [],
  ◌∷◌, sum_by, replicate, is_some, All, all, max, min, length,
}
use vmware_migration_helper.Disk.Ranges.{Range}
use vmware_migration_helper.Disk.Ranges.Workers.{
  Worker, idle, stopping, ended, Shared, Move, quit, drained, pop, write, add, note_first,
  note_later, set_stop, Step, here, there, Run, start, later, init, threads,
}
use vmware_migration_helper.Disk.Ranges.Workers.Conserved.{
  held, Run-init-total, uncounted, Run-init-bytes,
}

abbrev has_failed : Shared → Bool
has_failed s = is_some s.failure

abbrev is_drained : Shared → Bool
is_drained s = elim s.queue [ [] ↦ true | c ∷ q ↦ false ]

-- What the place of a worker says of the shared state: a worker ends because of a failure, or of an empty
-- queue.
abbrev fits : Shared → Worker → Bool
fits s (stopping h) = has_failed s
fits s (ended none) = has_failed s || is_drained s
fits s (ended (some c)) = has_failed s
fits s _ = true

abbrev Fits : Shared → Worker → Type 0
Fits s w = fits s w ≡ true

-- A failure stays, and an empty queue stays empty.
record Grows (s t : Shared) : Type 0 where
  failed : has_failed s ≡ true → has_failed t ≡ true
  empty : is_drained s ≡ true → is_drained t ≡ true

fits-Grows : {s t : Shared} → Grows s t → (w : Worker) → Fits s w → Fits t w
fits-Grows g (stopping h) p = g.failed p
fits-Grows g (ended none) p = ground (arith, g.failed, g.empty)
fits-Grows g (ended (some c)) p = g.failed p
fits-Grows g _ p = refl

All-Grows : {s t : Shared} → Grows s t → (ws : List Worker) → All (Fits s) ws → All (Fits t) ws
All-Grows g [] p = tt
All-Grows g (w ∷ ws) p = (fits-Grows g w p.0, All-Grows g ws p.1)

same : {s : Shared} → Grows s s
same = record { failed = λ e. e; empty = λ e. e }

Move-Grows : {retries : ℕ} {s t : Shared} {w v : Worker} → Move retries s w t v → Grows s t
Move-Grows (pop e) = record { failed = λ h. h; empty = λ h. absurd (ground (arith, e)) }
Move-Grows (note_first e) = record { failed = λ h. refl; empty = λ h. h }
Move-Grows write = record { failed = λ h. h; empty = λ h. h }
Move-Grows add = record { failed = λ h. h; empty = λ h. h }
Move-Grows set_stop = record { failed = λ h. h; empty = λ h. h }
Move-Grows _ = same

-- `stop` is set because of a failure.
abbrev Backed : Shared → Type 0
Backed s = (not s.stop || has_failed s) ≡ true

-- The mover fits in its new place.
Move-fits :
    {retries : ℕ} {s t : Shared} {w v : Worker}
    → Move retries s w t v
    → Backed s
    → Fits s w
    → Fits t v
Move-fits (quit e) b p = ground (arith, e)
Move-fits (drained e) b p = ground (arith, e)
Move-fits (set_stop {h = none}) b p = ground (arith, p)
Move-fits (set_stop {h = some c}) b p = p
Move-fits (note_first e) b p = refl
Move-fits (note_later e) b p = ap is_some e
Move-fits _ b p = refl

Move-Backed :
    {retries : ℕ} {s t : Shared} {w v : Worker}
    → Move retries s w t v
    → Backed s
    → Fits s w
    → Backed t
Move-Backed (set_stop {h}) b p = p
Move-Backed (note_first e) b p = ground arith
Move-Backed (pop e) b p = b
Move-Backed write b p = b
Move-Backed add b p = b
Move-Backed _ b p = b

record Sound (s : Shared) (ws : List Worker) : Type 0 where
  backed : Backed s
  placed : All (Fits s) ws

Step-Sound :
    {retries : ℕ} {s t : Shared} {ws vs : List Worker}
    → Step retries s t ws vs
    → Backed s
    → All (Fits s) ws
    → Grows s t × Backed t × All (Fits t) vs
Step-Sound (here {ws} m) b p =
    let g = Move-Grows m in (g, Move-Backed m b p.0, (Move-fits m b p.0, All-Grows g ws p.1))
Step-Sound (there {w} st) b p =
    let (g, c, q) = Step-Sound st b p.1 in (g, c, (fits-Grows g w p.0, q))

idle_fits : (s : Shared) (n : ℕ) → All (Fits s) (replicate n idle)
idle_fits s zero = tt
idle_fits s (suc n) = (refl, idle_fits s n)

Run-Sound :
    {retries : ℕ} {s : Shared} {ws : List Worker} {k : ℕ} {t : Shared} {vs : List Worker}
    → Run retries s ws k t vs
    → Backed s
    → All (Fits s) ws
    → Backed t × All (Fits t) vs
Run-Sound start b p = (b, p)
Run-Sound (later r st) b p =
    let (c, q) = Run-Sound r b p in let (g, d, e) = Step-Sound st c q in (d, e)

abbrev pub is_ended : Worker → Bool
is_ended (ended h) = true
is_ended _ = false

-- Ended workers hold nothing unless there was a failure, and if there is one, the queue is empty.
ended_held :
    (f : Range → ℕ) (s : Shared) (ws : List Worker)
    → s.failure ≡ none
    → all is_ended ws ≡ true
    → All (Fits s) ws
    → sum_by (held f) ws ≡ 0
ended_held f s [] e h p = refl
ended_held f s (ended none ∷ ws) e h p = omega (arith, ended_held f s ws e h p.1)
ended_held f s (ended (some c) ∷ ws) e h p = absurd (cc (ap is_some e, p.0))
ended_held f s (w ∷ ws) e h p = absurd (ground arith)

ended_uncounted : (ws : List Worker) → all is_ended ws ≡ true → sum_by uncounted ws ≡ 0
ended_uncounted [] h = refl
ended_uncounted (ended x ∷ ws) h = omega (arith, ended_uncounted ws h)
ended_uncounted (w ∷ ws) h = absurd (ground arith)

queue_empty :
    (s : Shared) (w : Worker) → s.failure ≡ none → is_ended w ≡ true → Fits s w → s.queue ≡ []
queue_empty s (ended none) e h p = ground (arith, e, p)
queue_empty s (ended (some c)) e h p = absurd (cc (ap is_some e, p))
queue_empty s w e h p = absurd (ground arith)

Step-length :
    {retries : ℕ} {s t : Shared} {ws vs : List Worker}
    → Step retries s t ws vs
    → length vs ≡ length ws
Step-length (here m) = refl
Step-length (there st) = ap suc (Step-length st)

pub Run-length :
    {retries : ℕ} {s : Shared} {ws : List Worker} {k : ℕ} {t : Shared} {vs : List Worker}
    → Run retries s ws k t vs
    → length vs ≡ length ws
Run-length start = refl
Run-length (later r st) = Step-length st ∙ Run-length r

length-replicate : (n : ℕ) → length (replicate n idle) ≡ n
length-replicate zero = refl
length-replicate (suc n) = ap suc (length-replicate n)

all_ended_queue :
    (s : Shared) (ws : List Worker)
    → 0 < length ws
    → s.failure ≡ none
    → all is_ended ws ≡ true
    → All (Fits s) ws
    → s.queue ≡ []
all_ended_queue s [] l e h p = absurd (omega arith)
all_ended_queue s (w ∷ ws) l e h p = queue_empty s w e (ground arith) p.0

-- `copy_ranges` with any number of threads, in any order of their moves: when all threads have ended and none has
-- failed, the queue is empty, each range was written as often as it is among the chunks, whatever is
-- counted of them, and `stats.bytes` is the sum of their lengths.
pub copy_ranges-Copies :
    (retries workers : ℕ) (chunks : List Range) {k : ℕ} {t : Shared} {vs : List Worker}
    → Run retries (init chunks) (threads workers chunks) k t vs
    → all is_ended vs ≡ true
    → t.failure ≡ none
    → (t.queue ≡ [])
      × ((f : Range → ℕ) → sum_by f t.written ≡ sum_by f chunks)
      × (t.bytes ≡ sum_by (λ c. c.1) chunks)
copy_ranges-Copies retries workers chunks {t} {vs} r h e =
    let n = max 1 (min workers (length chunks)) in
    let (b, p) = Run-Sound r refl (idle_fits (init chunks) n) in
    let empty = all_ended_queue t vs (omega (arith, Run-length r, length-replicate n)) e h p in
    let counted : (f : Range → ℕ) → sum_by f t.written ≡ sum_by f chunks =
      λ f. omega (arith, Run-init-total f n r, ended_held f t vs e h p, ap (sum_by f) empty) in
    (empty, counted, omega (arith, Run-init-bytes n r, ended_uncounted vs h, counted (λ c. c.1)))
