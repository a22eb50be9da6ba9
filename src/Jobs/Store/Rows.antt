-- ===== src/Jobs/Store/Rows.antt =====
-- What the methods of the job store promise.
use mathlib.Core.Path.{subst}
use vmware_migration_helper.Base.{
  ℕ, suc, ◌+◌, ◌≤◌, ◌≡◌, refl, ap, ◌∙◌, true, false, none, some, List, [], ◌∷◌, String, ◌=s=◌,
  eq_iff, arith, leb, if◌then◌else◌, if_elim, Bool-cases, inl, inr, length, take, take_all, All,
  All-take,
}
use vmware_migration_helper.Jobs.Model.{Job, JobPhase, terminal}
use vmware_migration_helper.Jobs.Store.{
  Table, get, replace, put, stamp, is_wanted, delete_finished, insert_newest, newest_first,
  of_source, list, keep_active, first_active, active_for_vm,
}

get-replace :
    (job : Job) (id : String) (rows : Table)
    → get id (replace job rows) ≡ (if job.id =s= id then some job else get id rows)
unfolding get replace
get-replace job id [] = refl
get-replace job id (row ∷ rows) =
    ground
      (arith, get-replace job id rows, eq_iff row.id job.id, eq_iff row.id id, eq_iff job.id id)

-- After `put`, the job's id yields the job with its new time stamp, and with the finishing time if its
-- phase is terminal and it had none; every other id yields what it did before.
pub get-put :
    (now : ℕ) (job : Job) (id : String) (rows : Table)
    → get id (put now job rows) ≡ (if job.id =s= id then some (stamp now job) else get id rows)
unfolding put
get-put now job id rows = get-replace (stamp now job) id rows

-- No two rows have the same id.
abbrev pub IsUnique : Table → Type 0
IsUnique [] = Unit
IsUnique (row ∷ rows) = (All (λ r. r.id =s= row.id ≡ false) rows) × (IsUnique rows)

All-replace :
    (P : Job → Type 0) (job : Job) (rows : Table) → P job → All P rows → All P (replace job rows)
unfolding replace
All-replace P job [] p h = (p, tt)
All-replace P job (row ∷ rows) p h =
    let rest = All-replace P job rows p h.1 in if_elim (All P) (row.id =s= job.id) rest (h.0, rest)

replace-IsUnique : (job : Job) (rows : Table) → IsUnique rows → IsUnique (replace job rows)
unfolding replace
replace-IsUnique job [] h = (tt, tt)
replace-IsUnique job (row ∷ rows) h = elim (Bool-cases (row.id =s= job.id)) [
  | inl e ↦ rw e (replace-IsUnique job rows h.1)
  | inr e ↦ rw e (
    All-replace (λ r. r.id =s= row.id ≡ false) job rows
        (ground (arith, eq_iff row.id job.id, eq_iff job.id row.id)) h.0,
    replace-IsUnique job rows h.1,
  )
]

-- Writing a job keeps the ids of the table unique.
pub put-IsUnique :
    (now : ℕ) (job : Job) (rows : Table) → IsUnique rows → IsUnique (put now job rows)
unfolding put
put-IsUnique now job rows h = replace-IsUnique (stamp now job) rows h

-- What holds of the new row, and of every row with another id, holds of all rows after a put.
All-replace_other :
    (P : Job → Type 0) (job : Job) (rows : Table)
    → P job
    → All (λ r. r.id =s= job.id ≡ false → P r) rows
    → All P (replace job rows)
unfolding replace
All-replace_other P job [] p h = (p, tt)
All-replace_other P job (row ∷ rows) p h =
    let rest = All-replace_other P job rows p h.1 in
    elim (Bool-cases (row.id =s= job.id)) [ inl e ↦ rw e rest | inr e ↦ rw e (h.0 e, rest) ]

pub All-put :
    (P : Job → Type 0) (now : ℕ) (job : Job) (rows : Table)
    → P (stamp now job)
    → All (λ r. r.id =s= job.id ≡ false → P r) rows
    → All P (put now job rows)
unfolding put
All-put P now job rows p h = All-replace_other P (stamp now job) rows p h

is_wanted-terminal :
    (phases : List JobPhase) (p : JobPhase) → is_wanted phases p ≡ true → terminal p ≡ true
unfolding is_wanted
is_wanted-terminal phases p h = ground arith

-- `delete_finished` leaves the jobs in flight as they are and in their order, leaves no finished job of
-- the wanted phases, and returns how many rows it deleted.
pub delete_finished_lem :
    (phases : List JobPhase) (rows : Table)
    → let (rest, n) = delete_finished phases rows in
      (keep_active rest ≡ keep_active rows)
      × (All (λ row. is_wanted phases row.phase ≡ false) rest)
      × (length rest + n ≡ length rows)
unfolding delete_finished keep_active
delete_finished_lem phases [] = (refl, tt, omega arith)
delete_finished_lem phases (row ∷ rows) =
    let (kept, gone, counted) = delete_finished_lem phases rows in
    elim (Bool-cases (is_wanted phases row.phase)) [
      | inl e ↦ rw e (rw (is_wanted-terminal phases row.phase e) (kept, gone, omega arith))
      | inr e ↦ rw e (rw kept (refl, (e, gone), omega arith))
    ]

All-insert_newest :
    (P : Job → Type 0) (job : Job) (rows : List Job)
    → P job
    → All P rows
    → All P (insert_newest job rows)
unfolding insert_newest
All-insert_newest P job [] p h = (p, tt)
All-insert_newest P job (row ∷ rows) p h =
    if_elim (All P) (leb row.created_at job.created_at) (p, h)
      (h.0, All-insert_newest P job rows p h.1)

pub All-newest_first : (P : Job → Type 0) (rows : List Job) → All P rows → All P (newest_first rows)
unfolding newest_first
All-newest_first P [] h = tt
All-newest_first P (row ∷ rows) h =
    All-insert_newest P row (newest_first rows) h.0 (All-newest_first P rows h.1)

All-insert_newest_back :
    (P : Job → Type 0) (job : Job) (rows : List Job)
    → All P (insert_newest job rows)
    → P job × All P rows
unfolding insert_newest
All-insert_newest_back P job [] h = h
All-insert_newest_back P job (row ∷ rows) h =
    elim (Bool-cases (leb row.created_at job.created_at)) [
      | inl e ↦ rw e at h
      | inr e ↦
          let k = rw e at h in let (p, r) = All-insert_newest_back P job rows k.1 in (p, (k.0, r))
    ]

pub All-newest_first_back :
    (P : Job → Type 0) (rows : List Job) → All P (newest_first rows) → All P rows
unfolding newest_first
All-newest_first_back P [] h = tt
All-newest_first_back P (row ∷ rows) h =
    let (p, r) = All-insert_newest_back P row (newest_first rows) h in
    (p, All-newest_first_back P rows r)

length-insert_newest :
    (job : Job) (rows : List Job) → length (insert_newest job rows) ≡ suc (length rows)
unfolding insert_newest
length-insert_newest job [] = refl
length-insert_newest job (row ∷ rows) = ground (arith, length-insert_newest job rows)

pub length-newest_first : (rows : List Job) → length (newest_first rows) ≡ length rows
unfolding newest_first
length-newest_first [] = refl
length-newest_first (row ∷ rows) =
    length-insert_newest row (newest_first rows) ∙ ap suc (length-newest_first rows)

All-of_source :
    (key : String) (rows : Table) → All (λ r. r.source_key =s= key ≡ true) (of_source key rows)
unfolding of_source
All-of_source key [] = tt
All-of_source key (row ∷ rows) = elim (Bool-cases (row.source_key =s= key)) [
  | inl e ↦ rw e (e, All-of_source key rows)
  | inr e ↦ rw e (All-of_source key rows)
]

first_active-some :
    (P : Job → Type 0) (jobs : List Job) (job : Job)
    → All P jobs
    → first_active jobs ≡ some job
    → (terminal job.phase ≡ false) × P job
unfolding first_active
first_active-some P [] job h e = absurd (cc)
first_active-some P (j ∷ jobs) job h e = elim (Bool-cases (terminal j.phase)) [
  | inl t ↦ first_active-some P jobs job h.1 (rw t at e)
  | inr t ↦
      let q : j ≡ job = cc (rw t at e) in subst (λ k. (terminal k.phase ≡ false) × P k) q (t, h.0)
]

first_active-none :
    (jobs : List Job) → first_active jobs ≡ none → All (λ j. terminal j.phase ≡ true) jobs
unfolding first_active
first_active-none [] e = tt
first_active-none (j ∷ jobs) e = elim (Bool-cases (terminal j.phase)) [
  | inl t ↦ (t, first_active-none jobs (rw t at e))
  | inr t ↦ absurd (cc (rw t at e))
]

list-of_source :
    (key : String) (limit : ℕ) (rows : Table)
    → key =s= "" ≡ false
    → list (some key) limit rows ≡ take limit (newest_first (of_source key rows))
unfolding list
list-of_source key limit rows h = rw h

-- What `active_for_vm` returns for a source is a job of that source that is still in flight.
pub active_for_vm-some :
    (key : String) (rows : Table) (job : Job)
    → key =s= "" ≡ false
    → active_for_vm key rows ≡ some job
    → (terminal job.phase ≡ false) × (job.source_key =s= key ≡ true)
unfolding active_for_vm
active_for_vm-some key rows job named e =
    first_active-some (λ r. r.source_key =s= key ≡ true) (list (some key) 200 rows) job
      (rw (list-of_source key 200 rows named) (
        All-take _ 200 (newest_first (of_source key rows))
          (All-newest_first _ (of_source key rows) (All-of_source key rows))))
      e

-- While a source has at most 200 jobs, `active_for_vm` returns nothing only if all of them have ended.
pub active_for_vm-none :
    (key : String) (rows : Table)
    → key =s= "" ≡ false
    → length (of_source key rows) ≤ 200
    → active_for_vm key rows ≡ none
    → All (λ j. terminal j.phase ≡ true) (of_source key rows)
unfolding active_for_vm
active_for_vm-none key rows named few e = All-newest_first_back _ (of_source key rows) (
    first_active-none (newest_first (of_source key rows)) (
      rw
        (
          list-of_source key 200 rows named,
          take_all 200 (newest_first (of_source key rows))
              (omega (arith, length-newest_first (of_source key rows))),
        )
        at e))

module _ (phases : List JobPhase) where
  pub All-delete_finished :
      (P : Job → Type 0) (rows : Table) → All P rows → All P (delete_finished phases rows).0
  unfolding delete_finished
  All-delete_finished P [] h = tt
  All-delete_finished P (row ∷ rows) h =
      let rest = All-delete_finished P rows h.1 in
      elim (Bool-cases (is_wanted phases row.phase)) [
        | inl e ↦ rw e rest
        | inr e ↦ rw e (h.0, rest)
      ]

  pub delete_finished-IsUnique :
      (rows : Table) → IsUnique rows → IsUnique (delete_finished phases rows).0
  unfolding delete_finished
  delete_finished-IsUnique [] h = tt
  delete_finished-IsUnique (row ∷ rows) h =
      let rest = delete_finished-IsUnique rows h.1 in
      elim (Bool-cases (is_wanted phases row.phase)) [
        | inl e ↦ rw e rest
        | inr e ↦ rw e (All-delete_finished _ rows h.0, rest)
      ]
