-- ===== src/Jobs/Slots.antt =====
-- The migration slots of helper/helper_app/jobs/runner.py: `max_concurrent`, `set_max_concurrent`,
-- `_acquire_slot` and `_release_slot`. The condition variable makes each test and each change one step, so
-- a run of the threads is a sequence of steps. `holders` is not in the code: it names the threads
-- between `slot = True` and the release in the `finally`.
pub mod Limit
use vmware_migration_helper.Base.{
  ℕ, ◌+◌, ◌-◌, Bool, true, false, List, [], ◌∷◌, String, ◌=s=◌, ◌≡◌, leb, if◌then◌else◌, min, max,
  any,
}

abbrev pub max_concurrent_jobs : ℕ
max_concurrent_jobs = 16

pub record Slots : Type 0 where
  pub limit : ℕ  -- `settings.max_concurrent_jobs`; a negative one counts as 0
  pub migrating : ℕ
  pub holders : List String

abbrev pub clamp : ℕ → ℕ
clamp n = max 1 (min max_concurrent_jobs n)

-- `max_concurrent`
unfoldable pub max_concurrent : Slots → ℕ
max_concurrent s = clamp s.limit

-- `set_max_concurrent`
unfoldable pub set_max_concurrent : ℕ → Slots → Slots
set_max_concurrent n s = record s { limit = clamp n }

-- One turn of the `while` of `_acquire_slot`: with no slot free the thread waits on, or its job was cancelled.
pub data Turn : Type 0 where
  waits gives_up : Turn
  acquired : Slots → Turn

unfoldable pub acquire : Bool → String → Slots → Turn
acquire cancelled id s =
    if leb (max_concurrent s) s.migrating
    then (if cancelled then gives_up else waits)
    else acquired (record s { migrating = s.migrating + 1; holders = id ∷ s.holders })

-- The thread of `id` is no holder any more; a thread releases its slot once.
pub remove : String → List String → List String
remove id [] = []
remove id (x ∷ xs) = let rest = remove id xs in if x =s= id then xs else x ∷ rest

-- `_release_slot`: `max(0, migrating - 1)`
unfoldable pub release : String → Slots → Slots
release id s = record s { migrating = s.migrating - 1; holders = remove id s.holders }

-- A step of a thread or of the Setup page. Only a thread that got a slot releases one.
pub data Step : Slots → Slots → Type 0 where
  turn :
      {s t : Slots} (cancelled : Bool) (id : String)
      → acquire cancelled id s ≡ acquired t
      → Step s t
  gives_back :
      {s : Slots} (id : String) → any (λ x. x =s= id) s.holders ≡ true → Step s (release id s)
  set_limit : {s : Slots} (n : ℕ) → Step s (set_max_concurrent n s)

pub data Reachable : Slots → Type 0 where
  start : (limit : ℕ) → Reachable (record { limit = limit; migrating = 0; holders = [] })
  next : {s t : Slots} → Reachable s → Step s t → Reachable t
