-- ===== src/Api/Jobs/Calls.antt =====
-- What a call of a handler keeps: helper/helper_app/api/routes_jobs.py.
use mathlib.Core.Path.{subst}
use vmware_migration_helper.Base.{
  ℕ, ◌≡◌, refl, arith, Bool, true, false, ◌||◌, none, List, [], ◌∷◌, ◌++◌, String, ◌=s=◌, eq_iff,
  if_elim, Bool-cases, inl, inr, any, All, All-map,
}
use vmware_migration_helper.Jobs.Model.{Job, completed}
use vmware_migration_helper.Jobs.Store.{Table, get}
use vmware_migration_helper.Jobs.Store.Rows.{IsUnique, put-IsUnique, All-put}
use vmware_migration_helper.Jobs.Runner.Safely.{
  submit, submit_iso, Threads, is_running, cleanup, resume_finalize,
}
use vmware_migration_helper.Jobs.Runner.Restart.{is_settled}
use vmware_migration_helper.Api.Checks.{
  Answer, accepted, refused, conflict, accepted_bind, accepted_after,
}
use vmware_migration_helper.Api.Server.{Method, Server}
use vmware_migration_helper.Api.Jobs.{
  submitting_run, submitting_iso, get_job, can_cancel, finish_iso, can_finish, can_resume, Place,
  cancelling, testing, cleaning, submitting_clean, requesting, noting, finishing, completing,
  resuming, testing_resume, queueing, submitting_finalize, replied, answered, submit_task, put_job,
  advance,
}
use vmware_migration_helper.Api.Jobs.Steps.{will_submit, holds, unparked}

pub any-append :
    {A : Type 0} (f : A → Bool) (xs ys : List A) → any f (xs ++ ys) ≡ (any f xs || any f ys)
any-append f [] ys = refl
any-append f (x ∷ xs) ys = ground (arith, any-append f xs ys)

-- The same around one handler: `base` and `hold` are what the others make of an id.
pub record At (base hold : String → Bool) (p : Place) (s : Server) : Type 0 where
  pub unique : IsUnique s.table
  pub rows :
      All
        (λ r. is_settled r || (base r.id || (will_submit r.id p || unparked r.id s.pool)) ≡ true)
        s.table
  pub held :
      (id : String)
      → hold id || holds id p ≡ true
      → base id || (will_submit id p || unparked id s.pool) ≡ true

module _ (base hold : String → Bool) (p q : Place) (s : Server) where
  -- A call that changes neither the table nor the pool.
  keep-At :
      (threads : Threads)
      → ((id : String) → will_submit id p ≡ true → will_submit id q ≡ true)
      → ((id : String)
          → holds id q ≡ true
          → base id || (will_submit id q || unparked id s.pool) ≡ true)
      → At base hold p s
      → At base hold q (record s { threads = threads })
  keep-At threads w o h = record {
    unique = h.unique;
    rows = All-map _ _ s.table (λ r e. ground (arith, w r.id, e)) h.rows;
    held = λ id e. ground (arith, e, w id, o id, h.held id);
  }

  -- A call that puts a job.
  put-At :
      (now : ℕ) (job : Job)
      → ((id : String) → will_submit id p ≡ true → will_submit id q ≡ true)
      → ((id : String) → holds id q ≡ false)
      → is_settled job || (base job.id || (will_submit job.id q || unparked job.id s.pool)) ≡ true
      → At base hold p s
      → At base hold q (put_job now job s)
  put-At now job w o c h = record {
    unique = put-IsUnique now job s.table h.unique;
    rows =
        All-put _ now job s.table c
          (All-map _ _ s.table (λ r e f. ground (arith, w r.id, e)) h.rows);
    held = λ id e. ground (arith, e, w id, o id, h.held id);
  }

  -- A call that submits a thread, as the handler was about to.
  task-At :
      (method : Method) (books : Threads → Threads) (job : String)
      → ((id : String) → will_submit id p ≡ true → job =s= id ≡ true)
      → ((id : String) → holds id q ≡ false)
      → At base hold p s
      → At base hold q (submit_task method books job s)
  task-At method books job w o h = record {
    unique = h.unique;
    rows = All-map _ _ s.table (λ r e. ground (arith, w r.id, e)) h.rows;
    held = λ id e. ground (arith, e, w id, o id, h.held id);
  }

get_job-All :
    (P : Job → Type 0) (id : String) (rows : Table) (job : Job)
    → All P rows
    → get_job id rows ≡ accepted job
    → P job
unfolding get_job get
get_job-All P id [] job h e = absurd (cc)
get_job-All P id (row ∷ rows) job h e = elim (Bool-cases (row.id =s= id)) [
  | inl f ↦ let same : row ≡ job = cc (rw (f, get_job, get) at e) in subst P same h.0
  | inr f ↦ get_job-All P id rows job h.1 (rw (f, get_job, get) at e)
]

can_cancel-All :
    (P : Job → Type 0) (id : String) (rows : Table) (job : Job)
    → All P rows
    → can_cancel id rows ≡ accepted job
    → P job
unfolding can_cancel
can_cancel-All P id rows job h e =
    let (found, read, checked) = accepted_bind (get_job id rows) _ job e in
    let (open_still, same) = accepted_after _ conflict (accepted found) job checked in
    let one : found ≡ job = cc in subst P one (get_job-All P id rows found h read)

answered-At :
    {base hold : String → Bool} {s : Server} (a : Answer Job) (next : Job → Place)
    → ((job : Job) → a ≡ accepted job → At base hold (next job) s)
    → ((e : _) → At base hold (replied (refused e)) s)
    → At base hold (answered a next) s
answered-At (accepted job) next f g = f job refl
answered-At (refused e) next f g = g e

-- The next call of a handler.
pub advance-At :
    (base hold : String → Bool) (now : ℕ) (p : Place) (s : Server)
    → At base hold p s
    → At base hold (advance now p s).0 (advance now p s).1
unfolding advance finish_iso
advance-At base hold now (cancelling c id) s h =
    answered-At (can_cancel id s.table) (testing c)
      (λ job e.
        keep-At base hold _ (testing c job) s s.threads (λ i k. ground arith)
          (λ i k. ground (
            arith,
            k,
            eq_iff job.id i,
            can_cancel-All (λ r. is_settled r || (base r.id || unparked r.id s.pool) ≡ true) id
                s.table job h.rows e,
          ))
          h)
      (λ e. keep-At base hold _ _ s s.threads (λ i k. ground arith) (λ i k. ground arith) h)
advance-At base hold now (testing c job) s h =
    if_elim (λ q. At base hold q s) (is_running job.id s.threads)
      (keep-At base hold _ _ s s.threads (λ i k. ground arith) (λ i k. ground (arith, h.held i, k))
        h)
      (keep-At base hold _ _ s s.threads (λ i k. ground arith) (λ i k. ground arith) h)
advance-At base hold now (requesting job) s h =
    keep-At base hold _ _ s _ (λ i k. ground arith) (λ i k. ground (arith, h.held i, k)) h
advance-At base hold now (noting job) s h =
    put-At base hold _ _ s now job (λ i k. ground arith) (λ i. refl)
      (ground (arith, h.held job.id, eq_iff job.id job.id)) h
advance-At base hold now (cleaning c job) s h =
    put-At base hold _ _ s now job (λ i k. k) (λ i. refl) (ground (arith, eq_iff job.id job.id)) h
advance-At base hold now (submitting_clean c job) s h =
    task-At base hold _ _ s _ (cleanup c job.id) job.id (λ i k. k) (λ i. refl) h
advance-At base hold now (finishing id) s h =
    answered-At (can_finish id s.table) completing
      (λ job e. keep-At base hold _ _ s s.threads (λ i k. ground arith) (λ i k. ground arith) h)
      (λ e. keep-At base hold _ _ s s.threads (λ i k. ground arith) (λ i k. ground arith) h)
advance-At base hold now (completing job) s h =
    put-At base hold _ _ s now (record job { phase = completed; error = none })
      (λ i k. ground arith) (λ i. refl) refl h
advance-At base hold now (resuming id) s h =
    answered-At (get_job id s.table) testing_resume
      (λ job e. keep-At base hold _ _ s s.threads (λ i k. ground arith) (λ i k. ground arith) h)
      (λ e. keep-At base hold _ _ s s.threads (λ i k. ground arith) (λ i k. ground arith) h)
advance-At base hold now (testing_resume job) s h =
    answered-At (can_resume job s.threads) queueing
      (λ j e. keep-At base hold _ _ s s.threads (λ i k. ground arith) (λ i k. ground arith) h)
      (λ e. keep-At base hold _ _ s s.threads (λ i k. ground arith) (λ i k. ground arith) h)
advance-At base hold now (queueing job) s h =
    put-At base hold _ _ s now job (λ i k. k) (λ i. refl) (ground (arith, eq_iff job.id job.id)) h
advance-At base hold now (submitting_finalize job) s h =
    task-At base hold _ _ s _ (resume_finalize job.id) job.id (λ i k. k) (λ i. refl) h
advance-At base hold now (submitting_run job) s h =
    task-At base hold _ _ s _ (submit job.id) job.id (λ i k. k) (λ i. refl) h
advance-At base hold now (submitting_iso job) s h =
    task-At base hold _ _ s _ (submit_iso job.id) job.id (λ i k. k) (λ i. refl) h
advance-At base hold now (replied a) s h = h
