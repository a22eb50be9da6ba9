-- ===== src/Jobs/Slots/Limit.antt =====
-- The limit on the migrations that run at the same time, of helper/helper_app/jobs/runner.py.
use vmware_migration_helper.Base.{
  ℕ, suc, ◌+◌, ◌-◌, ◌≤◌, ◌≡◌, refl, ap, sym, Bool, true, false, List, [], ◌∷◌, String, ◌=s=◌, leb,
  if◌then◌else◌, any, length, arith, inl, inr, Bool-cases,
}
use vmware_migration_helper.Jobs.Slots.{
  max_concurrent_jobs, Slots, clamp, max_concurrent, set_max_concurrent, Turn, waits, gives_up,
  acquired, acquire, remove, release, Step, turn, gives_back, set_limit, Reachable, start, next,
}

-- The count is that of the threads that hold a slot, and within the tool's limit.
pub record IsCounted (s : Slots) : Type 0 where
  pub count : s.migrating ≡ length s.holders
  pub bound : s.migrating ≤ max_concurrent_jobs

-- A thread that gets a slot found fewer migrations than the limit of that moment.
pub record Got (id : String) (s t : Slots) : Type 0 where
  pub free : s.migrating + 1 ≤ max_concurrent s
  pub taken : t.migrating ≡ s.migrating + 1
  pub held : t.holders ≡ id ∷ s.holders
  pub same_limit : t.limit ≡ s.limit

-- What a turn that got a slot left.
after_turn : Slots → Turn → Slots
after_turn s (acquired t) = t
after_turn s waits = s
after_turn s gives_up = s

no_slot : (c : Bool) (t : Slots) → (if c then gives_up else waits) ≡ acquired t → ⊥
no_slot true t e = absurd (cc e)
no_slot false t e = absurd (cc e)

with_slot : String → Slots → Slots
with_slot id s = record s { migrating = s.migrating + 1; holders = id ∷ s.holders }

with_slot-Got :
    (id : String) (s t : Slots)
    → leb (max_concurrent s) s.migrating ≡ false
    → with_slot id s ≡ t
    → Got id s t
unfolding with_slot
with_slot-Got id s t h e = record {
  free = ground arith;
  taken = sym (ap (λ x. x.migrating) e);
  held = sym (ap (λ x. x.holders) e);
  same_limit = sym (ap (λ x. x.limit) e);
}

-- `_acquire_slot` returns only while fewer migrations run than `max_concurrent` allows, which it still
-- does with the new one; it counts one more, held by the thread, and leaves the limit alone.
pub acquire-Got :
    (cancelled : Bool) (id : String) (s t : Slots)
    → acquire cancelled id s ≡ acquired t
    → Got id s t
unfolding acquire with_slot after_turn
acquire-Got cancelled id s t e = elim (Bool-cases (leb (max_concurrent s) s.migrating)) [
  | inl full ↦ absurd (no_slot cancelled t (rw full at e))
  | inr free ↦ with_slot-Got id s t free (ap (after_turn s) (rw free at e))
]

next_length : (m n : ℕ) → m + 1 ≡ n → suc m + 1 ≡ suc n
next_length m n e = omega arith

length-remove :
    (id : String) (xs : List String)
    → any (λ x. x =s= id) xs ≡ true
    → length (remove id xs) + 1 ≡ length xs
unfolding remove
length-remove id [] h = absurd (cc h)
length-remove id (x ∷ xs) h = elim (Bool-cases (x =s= id)) [
  | inl e ↦ rw e (omega arith)
  | inr e ↦ rw e (next_length _ _ (length-remove id xs (rw e at h)))
]

clamp-le : (n : ℕ) → clamp n ≤ max_concurrent_jobs
clamp-le n = ground arith

limit-le : (s : Slots) → max_concurrent s ≤ max_concurrent_jobs
unfolding max_concurrent
limit-le s = clamp-le s.limit

counted_up : (m n k : ℕ) → n ≡ m + 1 → m ≡ k → n ≡ suc k
counted_up m n k e h = omega arith

counted_back : (m n k : ℕ) → m ≡ n → k + 1 ≡ n → m - 1 ≡ k
counted_back m n k h e = omega arith

lower : (m : ℕ) → m ≤ max_concurrent_jobs → m - 1 ≤ max_concurrent_jobs
lower m h = omega arith

Got-IsCounted : (id : String) (s t : Slots) → IsCounted s → Got id s t → IsCounted t
Got-IsCounted id s t h g = record {
  count = rw g.held (counted_up s.migrating t.migrating (length s.holders) g.taken h.count);
  bound = rw g.taken (at_most _ _ g.free (limit-le s));
}
  where
    at_most : (m n : ℕ) → m ≤ n → n ≤ max_concurrent_jobs → m ≤ max_concurrent_jobs
    at_most m n a b = omega arith

Step-IsCounted : {s t : Slots} → IsCounted s → Step s t → IsCounted t
unfolding set_max_concurrent release
Step-IsCounted {s} {t} h (turn c id e) = Got-IsCounted id s t h (acquire-Got c id s t e)
Step-IsCounted {s} h (gives_back id e) = record {
  count = counted_back _ _ _ h.count (length-remove id s.holders e);
  bound = lower _ h.bound;
}
Step-IsCounted {s} h (set_limit n) = record { count = h.count; bound = h.bound }

-- At every moment of a run of the threads and the Setup page, `_migrating` is the number of the threads
-- that hold a slot, and there are 16 at most, however the limit was changed.
pub slots-IsCounted : {s : Slots} → Reachable s → IsCounted s
slots-IsCounted (start limit) = record { count = refl; bound = omega arith }
slots-IsCounted (next r step) = Step-IsCounted (slots-IsCounted r) step
