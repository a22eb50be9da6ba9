-- ===== src/Disk/Ranges/Workers.antt =====
-- The threads of `copy_ranges` of helper/helper_app/disk/vhd_range_copy.py, as moves of one worker at a time in any
-- order. What a call of the client, the writer or a callback does is a choice of the move. The sleep
-- between two attempts, the refresh of the SAS and the count of the retries are left out.
pub mod Conserved
pub mod Sound
pub mod Ends
use vmware_migration_helper.Base.{
  ℕ, zero, suc, ◌+◌, ◌≡◌, Bool, true, false, Option, none, some, List, [], ◌∷◌, length, replicate,
  max, min, if◌then◌else◌,
}
use vmware_migration_helper.Disk.Ranges.{Range}

-- What a worker reports: `check_cancel` raises, `fetch` gives up or another worker's failure stops it, the
-- client raises what is not retried, `write_at` raises, or `on_progress` does.
pub data Failure : Type 0 where
  check_raised fetch_failed aborted client_raised write_raised progress_raised : Failure

-- Where a worker is, with the chunk that it holds: before the test of `stop`, before the pop, before the
-- check, in `fetch` with the attempts that are left, before the write, between the write and the count,
-- before the callback, in `fail` before the failure is noted and before `stop` is set, and at its end. A
-- failed worker keeps the chunk that it did not write.
pub data Worker : Type 0 where
  idle looking reporting : Worker
  checking writing counting : Range → Worker
  fetching : Range → ℕ → Worker
  failing : Failure → Option Range → Worker
  stopping ended : Option Range → Worker

pub record Shared : Type 0 where
  pub queue : List Range  -- the next to be popped first
  pub stop : Bool
  pub failure : Option Failure
  pub written : List Range  -- the chunks that were written, the newest first
  pub bytes : ℕ  -- `stats.bytes`

pub data Move (retries : ℕ) (s : Shared) : Worker → Shared → Worker → Type 0 where
  go_on : s.stop ≡ false → Move retries s idle s looking
  quit : s.stop ≡ true → Move retries s idle s (ended none)
  drained : s.queue ≡ [] → Move retries s looking s (ended none)
  pop :
      {c : Range} {rest : List Range}
      → s.queue ≡ c ∷ rest
      → Move retries s looking (record s { queue = rest }) (checking c)
  pass : {c : Range} → Move retries s (checking c) s (fetching c retries)
  cancel : {c : Range} → Move retries s (checking c) s (failing check_raised (some c))
  give_up : {c : Range} → Move retries s (fetching c zero) s (failing fetch_failed (some c))
  abort :
      {c : Range} {n : ℕ}
      → s.stop ≡ true
      → Move retries s (fetching c (suc n)) s (failing aborted (some c))
  fetched : {c : Range} {n : ℕ} → s.stop ≡ false → Move retries s (fetching c (suc n)) s (writing c)
  again :
      {c : Range} {n : ℕ} → s.stop ≡ false → Move retries s (fetching c (suc n)) s (fetching c n)
  break :
      {c : Range} {n : ℕ}
      → s.stop ≡ false
      → Move retries s (fetching c (suc n)) s (failing client_raised (some c))
  write :
      {c : Range} → Move retries s (writing c) (record s { written = c ∷ s.written }) (counting c)
  refuse : {c : Range} → Move retries s (writing c) s (failing write_raised (some c))
  add : {c : Range} → Move retries s (counting c) (record s { bytes = s.bytes + c.1 }) reporting
  report : Move retries s reporting s idle
  protest : Move retries s reporting s (failing progress_raised none)
  note_first :
      {e : Failure} {h : Option Range}
      → s.failure ≡ none
      → Move retries s (failing e h) (record s { failure = some e }) (stopping h)
  note_later :
      {e x : Failure} {h : Option Range}
      → s.failure ≡ some x
      → Move retries s (failing e h) s (stopping h)
  set_stop : {h : Option Range} → Move retries s (stopping h) (record s { stop = true }) (ended h)

-- One worker of the list moves.
pub data Step (retries : ℕ) (s t : Shared) : List Worker → List Worker → Type 0 where
  here :
      {w v : Worker} {ws : List Worker} → Move retries s w t v → Step retries s t (w ∷ ws) (v ∷ ws)
  there :
      {w : Worker} {ws vs : List Worker}
      → Step retries s t ws vs
      → Step retries s t (w ∷ ws) (w ∷ vs)

-- A run from one state to another, of a number of moves.
pub data Run (retries : ℕ) (s : Shared) (ws : List Worker) : ℕ → Shared → List Worker → Type 0 where
  start : Run retries s ws 0 s ws
  later :
      {k : ℕ} {t u : Shared} {vs us : List Worker}
      → Run retries s ws k t vs
      → Step retries t u vs us
      → Run retries s ws (suc k) u us

abbrev pub init : List Range → Shared
init chunks = record { queue = chunks; stop = false; failure = none; written = []; bytes = 0 }

-- `n = max(1, min(int(workers), len(chunks)))` threads
abbrev pub threads : ℕ → List Range → List Worker
threads workers chunks = replicate (max 1 (min workers (length chunks))) idle
