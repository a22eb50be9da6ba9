-- ===== src/Jobs/Runner/Restart.antt =====
-- `fail_stale_jobs` of helper/helper_app/jobs/runner.py, on the table of the store. The texts for the user
-- are left out.
use mathlib.Core.Path.{subst}
use mathlib.Core.Option.{some-injective}
use vmware_migration_helper.Base.{
  ℕ, suc, ◌≤◌, ◌≡◌, refl, sym, ◌∙◌, arith, Bool, true, false, not, ◌||◌, some, List, [], ◌∷◌,
  String, ◌=s=◌, eq_iff, if◌then◌else◌, Bool-cases, inl, inr, ◌⊎◌, map, length, take_all, All,
  All-take, All-map,
}
use vmware_migration_helper.Jobs.Model.{Job, failed, installing, terminal}
use vmware_migration_helper.Jobs.Store.{
  Table, get, put, same_phase, list, keep_active, active, newest_first,
}
use vmware_migration_helper.Jobs.Store.Rows.{
  IsUnique, put-IsUnique, All-put, get-put, All-newest_first, All-newest_first_back,
  length-newest_first,
}

abbrev pub is_installing : Job → Bool
is_installing job = same_phase job.phase installing

-- The jobs that the loop does not pass over.
unfoldable pub stale : List Job → List Job
stale [] = []
stale (job ∷ jobs) = let rest = stale jobs in if is_installing job then rest else job ∷ rest

abbrev pub fail_job : Job → Job
fail_job job = record job { phase = failed }

-- The n-th put is stamped with the n-th time of the clock.
unfoldable pub fail_all : (ℕ → ℕ) → ℕ → List Job → Table → Table
fail_all clock n [] rows = rows
fail_all clock n (job ∷ jobs) rows = fail_all clock (suc n) jobs (put (clock n) (fail_job job) rows)

-- The table afterwards, and the ids.
unfoldable pub fail_stale_jobs : (ℕ → ℕ) → Table → Table × List String
fail_stale_jobs clock rows =
    let jobs = stale (active rows) in (fail_all clock 0 jobs rows, map (λ job. job.id) jobs)

-- The job needs nothing of the helper any more.
abbrev pub is_settled : Job → Bool
is_settled job = terminal job.phase || is_installing job

is_listed : String → List Job → Bool
is_listed id [] = false
is_listed id (job ∷ jobs) = let rest = is_listed id jobs in job.id =s= id || rest

fail_all-settles :
    (clock : ℕ → ℕ) (n : ℕ) (jobs : List Job) (rows : Table)
    → All (λ r. is_settled r || is_listed r.id jobs ≡ true) rows
    → All (λ r. is_settled r ≡ true) (fail_all clock n jobs rows)
unfolding fail_all is_listed
fail_all-settles clock n [] rows h = All-map _ _ rows (λ r e. ground arith) h
fail_all-settles clock n (job ∷ jobs) rows h =
    fail_all-settles clock (suc n) jobs (put (clock n) (fail_job job) rows) (
      All-put _ (clock n) (fail_job job) rows refl
        (All-map _ _ rows (λ r e f. ground (arith, eq_iff job.id r.id, eq_iff r.id job.id)) h))

stale_passes :
    (x : Job) (xs : List Job)
    → is_settled x ≡ true
    → stale (keep_active (x ∷ xs)) ≡ stale (keep_active xs)
unfolding stale keep_active
stale_passes x xs h = elim (Bool-cases (terminal x.phase)) [
  | inl t ↦ rw t refl
  | inr t ↦ let i : is_installing x ≡ true = ground arith in rw (t, i) refl
]

stale_takes :
    (x : Job) (xs : List Job)
    → is_settled x ≡ false
    → stale (keep_active (x ∷ xs)) ≡ x ∷ stale (keep_active xs)
unfolding stale keep_active
stale_takes x xs h =
    let t : terminal x.phase ≡ false = ground arith in
    let i : is_installing x ≡ false = ground arith in rw (t, i) refl

-- Every job is settled or on the list that is failed.
abbrev Covered : List Job → List Job → Type 0
Covered jobs xs = All (λ r. is_settled r || is_listed r.id jobs ≡ true) xs

all-Covered : (xs : List Job) → Covered (stale (keep_active xs)) xs
unfolding is_listed
all-Covered [] = tt
all-Covered (x ∷ xs) = elim (Bool-cases (is_settled x)) [
  | inl t ↦
      subst (λ jobs. Covered jobs (x ∷ xs)) (sym (stale_passes x xs t))
        (ground arith, all-Covered xs)
  | inr t ↦
      subst (λ jobs. Covered jobs (x ∷ xs)) (sym (stale_takes x xs t))
        (ground (arith, eq_iff x.id x.id), All-map _ _ xs (λ r e. ground arith) (all-Covered xs))
]

get-fail_all :
    (clock : ℕ → ℕ) (n : ℕ) (jobs : List Job) (id : String) (rows : Table)
    → is_listed id jobs ≡ false
    → get id (fail_all clock n jobs rows) ≡ get id rows
unfolding fail_all is_listed
get-fail_all clock n [] id rows h = refl
get-fail_all clock n (job ∷ jobs) id rows h =
    let other : job.id =s= id ≡ false = ground arith in
    let rest : is_listed id jobs ≡ false = ground arith in
    get-fail_all clock (suc n) jobs id _ rest
    ∙ get-put (clock n) (fail_job job) id rows
    ∙ rw other refl

-- Every job with the id is settled.
abbrev pub Settled : String → Job → Type 0
Settled id job = not (job.id =s= id) || is_settled job ≡ true

not_listed :
    (id : String) (xs : List Job)
    → All (Settled id) xs
    → is_listed id (stale (keep_active xs)) ≡ false
unfolding is_listed stale keep_active
not_listed id [] h = refl
not_listed id (x ∷ xs) h =
    let rest = not_listed id xs h.1 in
    let first = h.0 in
    elim (Bool-cases (is_settled x)) [
      | inl t ↦ rw (stale_passes x xs t) rest
      | inr t ↦ rw (stale_takes x xs t) (ground arith)
    ]

pub all_Settled :
    (id : String) (rows : Table) (job : Job)
    → IsUnique rows
    → get id rows ≡ some job
    → is_settled job ≡ true
    → All (Settled id) rows
unfolding get
all_Settled id [] job u e s = tt
all_Settled id (row ∷ rows) job u e s = elim (Bool-cases (row.id =s= id)) [
  | inl t ↦
      let same : row ≡ job = some-injective _ _ (rw t at e) in
      (
        subst (Settled id) (sym same) (ground arith),
        All-map _ _ rows
            (λ r f. ground (arith, eq_iff row.id id, eq_iff r.id id, eq_iff r.id row.id)) u.0,
      )
  | inr t ↦ (ground arith, all_Settled id rows job u.1 (rw t at e) s)
]

found_later :
    (row : Job) (rows xs : Table)
    → All (λ r. r.id =s= row.id ≡ false) xs
    → All (λ r. get r.id rows ≡ some r) xs
    → All (λ r. get r.id (row ∷ rows) ≡ some r) xs
unfolding get
found_later row rows [] h k = tt
found_later row rows (x ∷ xs) h k =
    let other : row.id =s= x.id ≡ false =
      ground (arith, h.0, eq_iff row.id x.id, eq_iff x.id row.id) in
    (rw other k.0, found_later row rows xs h.1 k.1)

all_found : (rows : Table) → IsUnique rows → All (λ r. get r.id rows ≡ some r) rows
unfolding get
all_found [] u = tt
all_found (row ∷ rows) u =
    let same : row.id =s= row.id ≡ true = ground (arith, eq_iff row.id row.id) in
    (rw same refl, found_later row rows rows u.0 (all_found rows u.1))

-- What the table says of a row from before: it was not settled, or it is found as it was.
abbrev pub IsStill : Table → Job → Type 0
IsStill rows row = (is_settled row ≡ false) ⊎ (get row.id rows ≡ some row)

get-fail_stale_jobs :
    (clock : ℕ → ℕ) (rows : Table) (row : Job)
    → IsUnique rows
    → get row.id rows ≡ some row
    → IsStill (fail_stale_jobs clock rows).0 row
unfolding fail_stale_jobs active list
get-fail_stale_jobs clock rows row u e = elim (Bool-cases (is_settled row)) [
  | inl s ↦ inr (
      get-fail_all clock 0 _ row.id rows (
        not_listed row.id _
          (All-take _ 10000 _ (All-newest_first _ rows (all_Settled row.id rows row u e s))))
      ∙ e)
  | inr s ↦ inl s
]

-- After `fail_stale_jobs` of a table of at most 10,000 rows with different ids, every job has ended or is an ISO
-- job in INSTALLING, and every row of which that held before is in the table as it was.
pub fail_stale_jobs_lem :
    (clock : ℕ → ℕ) (rows : Table)
    → length rows ≤ 10000
    → IsUnique rows
    → All (λ r. is_settled r ≡ true) (fail_stale_jobs clock rows).0
      × All (IsStill (fail_stale_jobs clock rows).0) rows
unfolding fail_stale_jobs active list
fail_stale_jobs_lem clock rows few u = (
  fail_all-settles clock 0 _ rows (
      All-newest_first_back _ rows (
        rw (take_all 10000 (newest_first rows) (omega (arith, length-newest_first rows)))
          (all-Covered (newest_first rows)))),
  All-map _ _ rows (λ r e. get-fail_stale_jobs clock rows r u e) (all_found rows u),
)

fail_all-IsUnique :
    (clock : ℕ → ℕ) (n : ℕ) (jobs : List Job) (rows : Table)
    → IsUnique rows
    → IsUnique (fail_all clock n jobs rows)
unfolding fail_all
fail_all-IsUnique clock n [] rows u = u
fail_all-IsUnique clock n (job ∷ jobs) rows u =
    fail_all-IsUnique clock (suc n) jobs _ (put-IsUnique (clock n) (fail_job job) rows u)

pub fail_stale_jobs-IsUnique :
    (clock : ℕ → ℕ) (rows : Table) → IsUnique rows → IsUnique (fail_stale_jobs clock rows).0
unfolding fail_stale_jobs
fail_stale_jobs-IsUnique clock rows u = fail_all-IsUnique clock 0 _ rows u
