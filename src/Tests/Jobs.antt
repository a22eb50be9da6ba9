-- ===== src/Tests/Jobs.antt =====
-- The store of jobs, the slots and the sessions: helper/helper_app/jobs/store.py, jobs/runner.py and
-- sessions.py.
use vmware_migration_helper.Base.{
  ◌+◌, ◌≡◌, refl, true, false, none, some, List, [], ◌∷◌, String, All, arith,
}
use vmware_migration_helper.Jobs.Model.{Job, JobKind, JobPhase, JobPhase-discrete}
use vmware_migration_helper.Jobs.Store.{
  Table, list, first_active, active_for_vm, active, keep_active,
}
use vmware_migration_helper.Jobs.Runner.Restart.{
  is_settled, stale, fail_all, fail_stale_jobs, IsStill, fail_stale_jobs_lem,
}
use vmware_migration_helper.Jobs.Slots.{
  Slots, max_concurrent, acquire, acquired, set_max_concurrent, start, next, turn, set_limit,
}
use vmware_migration_helper.Jobs.Slots.Limit.{IsCounted, slots-IsCounted}
use vmware_migration_helper.Sessions.{SessionStore, create, pin_job, change, pin, add}
use vmware_migration_helper.Sessions.Lifetime.{
  IsSound, Op, create_op, get_op, logout_op, sweep_op, pin_op, unpin_op, apply, apply_all,
  apply_all-IsSound,
}
use vmware_migration_helper.Sessions.Pinned.{AllHeld, apply_all-AllHeld}
use vmware_migration_helper.Tests.Data.{job_of}

abbrev named : String → JobPhase → Job
named id phase = record (job_of JobKind.vmware phase []) { id = id }

abbrev table : Table
table = named "a" JobPhase.completed ∷ named "b" JobPhase.exporting ∷ []

abbrev failed_b : Job
failed_b = named "b" JobPhase.failed

active_b : active_for_vm "vm-7" table ≡ some (named "b" JobPhase.exporting)
unfolding active_for_vm list first_active
active_b = refl

none_active : active_for_vm "vm-8" table ≡ none
unfolding active_for_vm list first_active
none_active = refl

fail_stale_jobs_example :
    All (λ r. is_settled r ≡ true) (fail_stale_jobs (λ n. n + 9) table).0
    × All (IsStill (fail_stale_jobs (λ n. n + 9) table).0) table
fail_stale_jobs_example =
    fail_stale_jobs_lem (λ n. n + 9) table (omega arith) ((refl, tt), (tt, tt))

failed_ids : (fail_stale_jobs (λ n. n + 9) table).1 ≡ "b" ∷ []
unfolding fail_stale_jobs stale fail_all keep_active active list JobPhase-discrete
failed_ids = refl

abbrev empty : Slots
empty = record { limit = 1; migrating = 0; holders = [] }

abbrev one : Slots
one = record { limit = 1; migrating = 1; holders = "a" ∷ [] }

first_turn : acquire false "a" empty ≡ acquired one
unfolding acquire max_concurrent
first_turn = refl

slots-IsCounted_example : IsCounted (set_max_concurrent 40 one)
slots-IsCounted_example =
    slots-IsCounted (next (next (start 1) (turn false "a" first_turn)) (set_limit 40))

-- A user has logged in and started a job, and logs out; a second job of the user ends.
abbrev started : List Op
started = create_op "t1" 10 ∷ pin_op "t1" "job-1" ∷ pin_op "t1" "job-2" ∷ []

abbrev ops : List Op
ops = get_op "t1" 20 ∷ logout_op "t1" ∷ sweep_op 30 ∷ unpin_op "t1" "job-2" ∷ []

abbrev no_sessions : SessionStore
no_sessions = record { ttl_s = 3600; sessions = []; dropped = [] }

abbrev pinned : SessionStore
pinned = apply_all started no_sessions

pinned-AllHeld : AllHeld "t1" "job-1" pinned
unfolding apply_all apply create pin_job change pin add
pinned-AllHeld = record { listed = (λ e. (refl, refl), tt); left = tt }

apply_all-AllHeld_example :
    IsSound (apply_all ops pinned) × AllHeld "t1" "job-1" (apply_all ops pinned)
apply_all-AllHeld_example =
    apply_all-AllHeld "t1" "job-1" ops pinned (refl, (refl, (refl, (refl, tt))))
      (apply_all-IsSound started no_sessions record { listed = tt; released = tt }) pinned-AllHeld
