-- ===== src/Jobs/Runner/Safely/Books.antt =====
-- The books that helper/helper_app/jobs/runner.py keeps of its threads, from a request to the thread's end.
use vmware_migration_helper.Base.{
  ◌∙◌, ◌||◌, ◌+◌, ◌-◌, ◌≡◌, refl, Bool, true, false, Option, none, some, List, [], ◌∷◌, String,
  ◌=s=◌, eq_iff, arith, any, inl, inr, ap, Bool-cases, if◌then◌else◌,
}
use mathlib.Core.Path.{subst}
use vmware_migration_helper.Jobs.Model.{Job}
use vmware_migration_helper.Jobs.Store.{get}
use vmware_migration_helper.Jobs.Actions.{Outcome, ok, raised}
use vmware_migration_helper.Jobs.Runner.{Services, World}
use vmware_migration_helper.Jobs.Runner.Safely.{
  add, submit, request_cancel, is_running, cancelled_job, Threads, discard, finish, use_slot,
  run_safely,
}
use vmware_migration_helper.Jobs.Runner.Safely.Laws.{string_refl}

-- Whether an id is in a set of job ids.
abbrev pub has : String → List String → Bool
has id xs = any (λ x. x =s= id) xs

pub is_running-has : (id : String) (t : Threads) → is_running id t ≡ has id t.running
unfolding is_running
is_running-has id t = refl

pub discard-has :
    (id other : String) (xs : List String)
    → has other (discard id xs) ≡ (if id =s= other then false else has other xs)
unfolding discard
discard-has id other [] = if_same (id =s= other) false
  where
    if_same : (b c : Bool) → false ≡ (if b then false else false)
    if_same true c = refl
    if_same false c = refl
discard-has id other (x ∷ xs) = elim (Bool-cases (x =s= id)) [
  | inl e ↦
      rw (e, discard-has id other xs) (ground (arith, eq_iff x id, eq_iff id other, eq_iff x other))
  | inr e ↦
      rw (e, discard-has id other xs) (ground (arith, eq_iff x id, eq_iff id other, eq_iff x other))
]

use_slot_lem : (waited : Outcome (Unit {0})) (t : Threads) → use_slot waited t ≡ t
use_slot_lem (ok u) t = ap (λ n. record t { migrating = n }) back
  where
    back : t.migrating + 1 - 1 ≡ t.migrating
    back = omega arith
use_slot_lem (raised e) t = refl

threads_lem :
    (found : Option Job) (waited : Outcome (Unit {0})) (t : Threads)
    → elim found [ none ↦ t | some j ↦ use_slot waited t ] ≡ t
threads_lem none waited t = refl
threads_lem (some j) waited t = use_slot_lem waited t

-- `_run_safely` ends with the runner's books in order: every migration slot is free that was free before,
-- the id of its job is in none of the sets, and each of the sets has another id if it had it before.
run_safely_lem :
    (s : Services) (waited : Outcome (Unit {0})) (id other : String) (w : World) (t : Threads)
    → (let after_all = (run_safely s waited id w t).1 in
        (after_all.migrating ≡ t.migrating)
        × (has other after_all.running ≡ (if id =s= other then false else has other t.running))
        × (has other after_all.sessions ≡ (if id =s= other then false else has other t.sessions))
        × (has other after_all.cancel_requested
            ≡ (if id =s= other then false else has other t.cancel_requested)))
unfolding run_safely finish
run_safely_lem s waited id other w t = rw (threads_lem (get id w.table) waited t) (
  refl,
  discard-has id other t.running,
  discard-has id other t.sessions,
  discard-has id other t.cancel_requested,
)

pub has-add :
    (id other : String) (xs : List String) → has other (add id xs) ≡ (id =s= other || has other xs)
has-add id other xs = elim (Bool-cases (has id xs)) [
  | inl e ↦ rw e (already (id =s= other) refl e)
  | inr e ↦ rw e refl
]
  where
    already :
        (b : Bool) → (id =s= other) ≡ b → has id xs ≡ true → has other xs ≡ (b || has other xs)
    already true s e = subst (λ z. has z xs ≡ true) ((eq_iff id other).0 s) e
    already false s e = refl

-- The books of a job from the request to its end: once submitted it runs, a request to cancel is seen from then
-- on and by no other job, and after the thread's end it runs no more and no request to cancel it is left.
submit_lem :
    (s : Services) (waited : Outcome (Unit {0})) (id other : String) (w : World) (t : Threads)
    → let asked = request_cancel id (submit id t) in
      let ended = (run_safely s waited id w asked).1 in
      (is_running id asked ≡ true)
      × (cancelled_job other asked ≡ (id =s= other || cancelled_job other t))
      × (is_running id ended ≡ false)
      × (cancelled_job id ended ≡ false)
unfolding is_running cancelled_job request_cancel submit
submit_lem s waited id other w t =
    let asked : Threads = record t {
      running = add id t.running;
      sessions = add id t.sessions;
      cancel_requested = add id t.cancel_requested;
    } in
    let ended = run_safely_lem s waited id id w asked in
    (
      has-add id id t.running ∙ ap (λ b. b || has id t.running) (string_refl id),
      has-add id other t.cancel_requested,
      ended.1 ∙ ap (λ b. if b then false else has id asked.running) (string_refl id),
      ended.3 ∙ ap (λ b. if b then false else has id asked.cancel_requested) (string_refl id),
    )
