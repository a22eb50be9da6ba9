-- ===== src/Api/Jobs/Steps.antt =====
-- The server with its threads, step by step: helper/helper_app/api/routes_jobs.py over jobs/store.py and jobs/runner.py. The
-- handlers that cancel, finish and resume a job advance call by call, between those of the others and the saves of
-- the threads of the pool.
use vmware_migration_helper.Base.{
  ℕ, ◌≤◌, ◌≡◌, Bool, true, false, not, ◌&&◌, ◌||◌, none, List, [], ◌∷◌, ◌++◌, String, ◌=s=◌,
  if◌then◌else◌, length, any,
}
use vmware_migration_helper.Jobs.Model.{Job, JobPhase}
use vmware_migration_helper.Jobs.Store.{Table, get}
use vmware_migration_helper.Jobs.Store.Rows.{IsUnique}
use vmware_migration_helper.Jobs.Runner.Safely.Books.{has}
use vmware_migration_helper.Jobs.Runner.Restart.{is_settled, fail_stale_jobs}
use vmware_migration_helper.Api.Checks.{Site, accepted}
use vmware_migration_helper.Api.Server.{Task, Server, purge_jobs, save_job, end_thread}
use vmware_migration_helper.Api.Jobs.{
  Place, cancelling, testing, cleaning, submitting_clean, requesting, noting, finishing, resuming,
  queueing, submitting_finalize, submitting_run, submitting_iso, put_job, after_put, advance,
  Request, handle,
}

-- The handler is about to submit a thread for the job.
abbrev pub will_submit : String → Place → Bool
will_submit id (cleaning _ job) = job.id =s= id
will_submit id (submitting_clean _ job) = job.id =s= id
will_submit id (queueing job) = job.id =s= id
will_submit id (submitting_finalize job) = job.id =s= id
will_submit id (submitting_run job) = job.id =s= id
will_submit id (submitting_iso job) = job.id =s= id
will_submit id _ = false

-- The handler cancels the job and has read it before it was over.
abbrev pub holds : String → Place → Bool
holds id (testing _ job) = not (is_settled job) && job.id =s= id
holds id (requesting job) = not (is_settled job) && job.id =s= id
holds id (noting job) = not (is_settled job) && job.id =s= id
holds id _ = false

-- A thread of the pool has still to bring the job to its end.
abbrev pub unparked : String → List Task → Bool
unparked id tasks = any (λ t. t.id =s= id && not t.parked) tasks

-- The server, its handlers, and the jobs whose last thread came to the job's end while a cancel held an older copy.
pub record State : Type 0 where
  pub server : Server
  pub handlers : List Place
  pub overtaken : List String

-- A thread has the job or will have it, or a cancel of it was overtaken.
abbrev pub is_tended : String → State → Bool
is_tended id st =
    (has id st.overtaken || any (will_submit id) st.handlers) || unparked id st.server.pool

abbrev pub is_first : Place → Bool
is_first (cancelling _ _) = true
is_first (finishing _) = true
is_first (resuming _) = true
is_first _ = false

-- A thread comes to the end of its job: cancels that hold an older copy of it are overtaken.
abbrev pub park : String → State → State
park id st = record st {
  overtaken = if any (holds id) st.handlers then id ∷ st.overtaken else st.overtaken;
}

-- A thread saves its job, and is parked exactly if the job is over.
abbrev pub saved : ℕ → Job → List Task → Task → List Task → State → State
saved now job front t back st = record (if is_settled job then park t.id st else st) {
  server = record (save_job now job st.server) {
    pool = front ++ record t { parked = is_settled job } ∷ back;
  };
}

-- What happens: the `put` of a handler that makes a job, after what it has seen of the server; a purge; the begin
-- of another handler, and each call of a handler; and what a thread does: it saves its job, or finds that the
-- table has lost it, and ends when it is parked.
pub data Step (site : Site) (st : State) : State → Type 0 where
  request :
      (id : String) (now : ℕ) (r : Request) (seen : Server) (job : Job)
      → (handle site id now r seen).0 ≡ accepted job
      → Step site st (record st {
        server = put_job now job st.server;
        handlers = after_put r job ∷ st.handlers;
      })
  purge :
      (phases : List JobPhase) → Step site st (record st { server = purge_jobs phases st.server })
  begin : (p : Place) → is_first p ≡ true → Step site st (record st { handlers = p ∷ st.handlers })
  move :
      (now : ℕ) (front back : List Place) (p : Place)
      → st.handlers ≡ front ++ p ∷ back
      → Step site st (record st {
        server = (advance now p st.server).1;
        handlers = front ++ (advance now p st.server).0 ∷ back;
      })
  save :
      (now : ℕ) (job : Job) (front back : List Task) (t : Task)
      → st.server.pool ≡ front ++ t ∷ back
      → job.id ≡ t.id
      → Step site st (saved now job front t back st)
  miss :
      (front back : List Task) (t : Task)
      → st.server.pool ≡ front ++ t ∷ back
      → get t.id st.server.table ≡ none
      → Step site st (record (park t.id st) {
        server = record st.server { pool = front ++ record t { parked = true } ∷ back };
      })
  exit :
      (front back : List Task) (t : Task)
      → st.server.pool ≡ front ++ t ∷ back
      → t.parked ≡ true
      → Step site st (record st { server = end_thread t.id (front ++ back) st.server })

-- The server as `main.py` starts it.
unfoldable pub boot : (ℕ → ℕ) → Table → Server
boot clock rows = record {
  table = (fail_stale_jobs clock rows).0;
  threads = record { running = []; sessions = []; cancel_requested = []; migrating = 0 };
  pool = [];
}

pub data IsReachable (site : Site) : State → Type 0 where
  booted :
      (clock : ℕ → ℕ) (rows : Table)
      → length rows ≤ 10000
      → IsUnique rows
      → IsReachable site (record { server = boot clock rows; handlers = []; overtaken = [] })
  after : (s : State) {t : State} → IsReachable site s → Step site s t → IsReachable site t
