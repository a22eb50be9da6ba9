-- ===== src/Jobs/Store.antt =====
-- helper/helper_app/jobs/store.py. The table is the list of its rows; a row is a job, since the data
-- column holds the whole document and the other columns copy fields of it. The lock makes each method
-- one step.
pub mod Rows
use vmware_migration_helper.Base.{
  ℕ, zero, suc, ◌+◌, Bool, true, false, not, ◌&&◌, ◌||◌, Option, none, some, List, [], ◌∷◌, String,
  ◌=s=◌, leb, if◌then◌else◌, any, take, length,
}
use vmware_migration_helper.Jobs.Model.{
  Job, JobPhase, queued, provisioning, exporting, finalizing, installing, completed, failed,
  cancelled, terminal, JobPhase-discrete,
}

abbrev pub Table : Type 0
Table = List Job

-- `WHERE id = ?`, of which there is one row at most
unfoldable pub get : String → Table → Option Job
get id [] = none
get id (job ∷ rows) = if job.id =s= id then some job else get id rows

-- `INSERT OR REPLACE`: the row with the job's id goes, and the new one is the last.
replace : Job → Table → Table
replace job [] = job ∷ []
replace job (row ∷ rows) =
    let rest = replace job rows in if row.id =s= job.id then rest else row ∷ rest

-- `put`, which also stamps the job.
abbrev pub stamp : ℕ → Job → Job
stamp now job = record job {
  updated_at = now;
  finished_at = elim job.finished_at [
    | none ↦ if terminal job.phase then some now else none
    | some t ↦ some t
  ];
}

unfoldable pub put : ℕ → Job → Table → Table
unfolding replace
put now job rows = replace (stamp now job) rows

-- `p in phases`
abbrev pub same_phase : JobPhase → JobPhase → Bool
same_phase p q = elim (JobPhase-discrete p q) [ yes e ↦ true | no e ↦ false ]

-- `set(JobPhase)`
abbrev pub all_phases : List JobPhase
all_phases =
    queued ∷ provisioning ∷ exporting ∷ finalizing ∷ installing ∷ completed ∷ failed ∷ cancelled
    ∷ []

-- `phases or set(JobPhase)`: an empty set means all phases too.
abbrev pub phases_or_all : List JobPhase → List JobPhase
phases_or_all [] = all_phases
phases_or_all (p ∷ ps) = p ∷ ps

-- `phase IN (wanted)`, where `wanted` holds the terminal ones of the phases
unfoldable pub is_wanted : List JobPhase → JobPhase → Bool
is_wanted phases p = terminal p && any (same_phase p) (phases_or_all phases)

-- `DELETE`, with the number of rows that went
unfoldable pub delete_finished : List JobPhase → Table → Table × ℕ
delete_finished phases [] = ([], 0)
delete_finished phases (row ∷ rows) =
    let (rest, n) = delete_finished phases rows in
    if is_wanted phases row.phase then (rest, n + 1) else (row ∷ rest, n)

-- `ORDER BY created_at DESC`
insert_newest : Job → List Job → List Job
insert_newest job [] = job ∷ []
insert_newest job (row ∷ rows) =
    let rest = insert_newest job rows in
    if leb row.created_at job.created_at then job ∷ row ∷ rows else row ∷ rest

pub newest_first : List Job → List Job
unfolding insert_newest
newest_first [] = []
newest_first (row ∷ rows) = insert_newest row (newest_first rows)

-- `WHERE vm_moid = ?`
unfoldable pub of_source : String → List Job → List Job
of_source key [] = []
of_source key (row ∷ rows) =
    let rest = of_source key rows in if row.source_key =s= key then row ∷ rest else rest

-- `list`; an empty source is no filter
unfoldable pub list : Option String → ℕ → Table → List Job
unfolding newest_first of_source
list none limit rows = take limit (newest_first rows)
list (some key) limit rows =
    if key =s= ""
    then take limit (newest_first rows)
    else take limit (newest_first (of_source key rows))

unfoldable pub keep_active : List Job → List Job
keep_active [] = []
keep_active (job ∷ jobs) =
    let rest = keep_active jobs in if terminal job.phase then rest else job ∷ rest

unfoldable pub active : Table → List Job
active rows = keep_active (list none 10000 rows)

unfoldable pub first_active : List Job → Option Job
first_active [] = none
first_active (job ∷ jobs) = if terminal job.phase then first_active jobs else some job

unfoldable pub active_for_vm : String → Table → Option Job
active_for_vm key rows = first_active (list (some key) 200 rows)
