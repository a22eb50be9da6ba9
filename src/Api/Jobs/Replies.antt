-- ===== src/Api/Jobs/Replies.antt =====
-- How `cancel_job` of helper/helper_app/api/routes_jobs.py answers when nothing comes between its calls.
use mathlib.Core.Path.{subst}
use mathlib.Core.Option.{some-injective}
use vmware_migration_helper.Base.{
  ℕ, zero, suc, ◌≡◌, refl, sym, ap, ◌∙◌, Bool, true, false, ◌||◌, Option, none, some, [], ◌∷◌,
  String, ◌=s=◌, eq_iff, Bool-cases, inl, inr, ◌⊎◌,
}
use vmware_migration_helper.Jobs.Model.{Job, completed, cancelled}
use vmware_migration_helper.Jobs.Store.{Table, get, put, stamp}
use vmware_migration_helper.Jobs.Runner.Safely.{request_cancel, cleanup, is_running, cancelled_job}
use vmware_migration_helper.Jobs.Runner.Safely.Laws.{string_refl}
use vmware_migration_helper.Jobs.Runner.Safely.Books.{has-add, is_running-has}
use vmware_migration_helper.Api.Checks.{
  not_found, conflict, Answer, accepted, refused, ◌>>=◌, ◌>>◌, refuse_if,
}
use vmware_migration_helper.Api.Server.{clean, Server}
use vmware_migration_helper.Api.Jobs.{
  get_job, is_phase, can_cancel, Place, cancelling, testing, replied, answered, advance,
}

get-id : (id : String) (rows : Table) (job : Job) → get id rows ≡ some job → job.id ≡ id
unfolding get
get-id id [] job e = cc
get-id id (row ∷ rows) job e = elim (Bool-cases (row.id =s= id)) [
  | inl t ↦
      let same : row ≡ job = some-injective _ _ (rw t at e) in
      sym (ap (λ j. j.id) same) ∙ (eq_iff row.id id).0 t
  | inr t ↦ get-id id rows job (rw t at e)
]

abbrev pub is_over : Job → Bool
is_over job = is_phase completed job || is_phase cancelled job

-- The job that the table had runs now: in the thread that it had, with the cancel requested, or else in a new one
-- that cleans up.
pub record IsStopping (s : Server) (id : String) (t : Server) : Type 0 where
  pub runs : is_running id t.threads ≡ true
  pub told :
      ((is_running id s.threads ≡ true) × (cancelled_job id t.threads ≡ true) × (t.pool ≡ s.pool))
      ⊎ ((is_running id s.threads ≡ false)
          × (t.pool ≡ record { method = clean; id = id; parked = false } ∷ s.pool))

-- The calls of a handler, with nothing between them.
abbrev pub uninterrupted : ℕ → ℕ → Place → Server → Place × Server
uninterrupted now zero p s = (p, s)
uninterrupted now (suc calls) p s = let (q, t) = advance now p s in uninterrupted now calls q t

-- What an answer to a request to cancel says of the job.
abbrev pub Cancels : ℕ → String → Server → Place × Server → Type 0
Cancels now id s (replied (refused not_found), t) = (get id s.table ≡ none) × (t ≡ s)
Cancels now id s (replied (refused conflict), t) =
    (job : Job) × (get id s.table ≡ some job) × (is_over job ≡ true) × (t ≡ s)
Cancels now id s (replied (accepted reply), t) =
    (job : Job) × (get id s.table ≡ some job)
    × (is_over job ≡ false)
    × (reply ≡ stamp now job)
    × (t.table ≡ put now job s.table)
    × (IsStopping s id t)
Cancels now id s _ = ⊥

module _ (now : ℕ) (has_cloud : Bool) (id : String) (s : Server) where
  -- Asked to cancel a job that is there and not over.
  testing-Cancels :
      (job : Job)
      → get id s.table ≡ some job
      → is_over job ≡ false
      → job.id ≡ id
      → Cancels now id s (uninterrupted now 3 (testing has_cloud job) s)
  unfolding advance request_cancel cleanup cancelled_job
  testing-Cancels job e o same = elim (Bool-cases (is_running job.id s.threads)) [
    | inl r ↦ rw r (
      job,
      e,
      o,
      refl,
      refl,
      record {
        runs =
            is_running-has id _
            ∙ sym (is_running-has id s.threads)
            ∙ subst (λ i. is_running i s.threads ≡ true) same r;
        told = inl (
          subst (λ i. is_running i s.threads ≡ true) same r,
          has-add job.id id s.threads.cancel_requested ∙ rw (same, string_refl id) refl,
          refl,
        );
      },
    )
    | inr r ↦ rw r (
      job,
      e,
      o,
      refl,
      refl,
      record {
        runs =
            is_running-has id _
            ∙ has-add job.id id s.threads.running
            ∙ rw (same, string_refl id) refl;
        told = inr (
          subst (λ i. is_running i s.threads ≡ false) same r,
          ap (λ i. record { method = clean; id = i; parked = false } ∷ s.pool) same,
        );
      },
    )
  ]

  cancel_found :
      (job : Job)
      → get id s.table ≡ some job
      → (over : Bool) → is_over job ≡ over
      → Cancels now id s (
          uninterrupted now 3
            (answered (refuse_if over conflict >> accepted job) (testing has_cloud))
            s)
  unfolding advance
  cancel_found job e true o = (job, e, o, refl)
  cancel_found job e false o = testing-Cancels job e o (get-id id s.table job e)

  cancel_got :
      (o : Option Job)
      → get id s.table ≡ o
      → Cancels now id s (
          uninterrupted now 3
            (answered
              (elim o as (λ x. Answer Job) [ none ↦ refused not_found | some job ↦ accepted job ]
                >>= λ job. refuse_if (is_over job) conflict >> accepted job)
              (testing has_cloud))
            s)
  unfolding advance
  cancel_got none e = (e, refl)
  cancel_got (some job) e = cancel_found job e (is_over job) refl

  -- When nothing else comes between its four calls, a request to cancel a job is refused as "not found" if the table
  -- has no such job, as a conflict if the job is COMPLETED or CANCELLED, and for no other reason; refused, it
  -- changes nothing. Accepted, it puts the job as it was read and answers it, and the job is among the running ones:
  -- if it was before, with the cancel requested and no new task, and if not, with a new task that cleans up.
  pub cancelling-Cancels : Cancels now id s (uninterrupted now 4 (cancelling has_cloud id) s)
  unfolding advance can_cancel get_job
  cancelling-Cancels = cancel_got (get id s.table) refl
