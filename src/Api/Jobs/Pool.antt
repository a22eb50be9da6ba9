-- ===== src/Api/Jobs/Pool.antt =====
-- Threads of the pool of helper/helper_app/jobs/runner.py that save, end, or do not find their job.
use mathlib.Core.Path.{subst}
use vmware_migration_helper.Base.{
  ℕ, ◌≡◌, sym, ◌∙◌, arith, Bool, true, false, not, ◌&&◌, ◌||◌, none, List, [], ◌∷◌, ◌++◌, String,
  ◌=s=◌, eq_iff, if◌then◌else◌, Bool-cases, inl, inr, any, All, All-map,
}
use vmware_migration_helper.Jobs.Model.{Job}
use vmware_migration_helper.Jobs.Store.{Table, put, get}
use vmware_migration_helper.Jobs.Store.Rows.{IsUnique, put-IsUnique, All-put}
use vmware_migration_helper.Jobs.Runner.Safely.Books.{has}
use vmware_migration_helper.Jobs.Runner.Restart.{is_settled}
use vmware_migration_helper.Api.Server.{Task, save_job, end_thread}
use vmware_migration_helper.Api.Jobs.{put_job}
use vmware_migration_helper.Api.Jobs.Steps.{holds, unparked, State, is_tended, park, saved}
use vmware_migration_helper.Api.Jobs.Calls.{any-append}
use vmware_migration_helper.Api.Jobs.Handlers.{IsTended}

module _ (st : State) (front back : List Task) (t : Task)
    (e : st.server.pool ≡ front ++ t ∷ back) where
  pooled :
      (id : String)
      → unparked id st.server.pool
        ≡ (unparked id front || t.id =s= id && not t.parked || unparked id back)
  pooled id = rw e (any-append (λ x. x.id =s= id && not x.parked) front (t ∷ back) ∙ ground arith)

  pool_with :
      (id : String) (u : Task)
      → unparked id (front ++ u ∷ back)
        ≡ (unparked id front || u.id =s= id && not u.parked || unparked id back)
  pool_with id u = any-append (λ x. x.id =s= id && not x.parked) front (u ∷ back) ∙ ground arith

  parks :
      (id : String)
      → has id (park t.id st).overtaken
        ≡ (any (holds t.id) st.handlers && t.id =s= id || has id st.overtaken)
  parks id = if_elim_both (any (holds t.id) st.handlers)
    where
      if_elim_both :
          (b : Bool)
          → has id (if b then t.id ∷ st.overtaken else st.overtaken)
            ≡ (b && t.id =s= id || has id st.overtaken)
      if_elim_both true = ground arith
      if_elim_both false = ground arith

  -- The thread comes to the end of its job.
  pub park-IsTended :
      (table : Table)
      → IsUnique table
      → All (λ r. is_settled r || (is_tended r.id st && not (r.id =s= t.id)) ≡ true) table
      → IsTended st
      → IsTended (record (park t.id st) {
        server = record st.server {
          table = table;
          pool = front ++ record t { parked = true } ∷ back;
        };
      })
  park-IsTended table u rows h =
      let over : Task = record t { parked = true } in
      record {
        unique = u;
        rows =
            All-map _ _ table
              (λ r f. ground (
                arith,
                f,
                pooled r.id,
                pool_with r.id over,
                parks r.id,
                eq_iff t.id r.id,
                eq_iff r.id t.id,
              ))
              rows;
        held = λ i f. elim (Bool-cases (t.id =s= i)) [
          | inl g ↦
              let same : t.id ≡ i = (eq_iff t.id i).0 g in
              let mine : any (holds t.id) st.handlers ≡ true =
                subst (λ z. any (holds z) st.handlers ≡ true) (sym same) f in
              ground (arith, g, mine, parks i)
          | inr g ↦ ground (arith, g, f, h.held i, pooled i, pool_with i over, parks i)
        ];
      }

  -- The thread saves its job before the end.
  unpark-IsTended :
      (now : ℕ) (job : Job)
      → job.id ≡ t.id
      → IsTended st
      → IsTended (record st {
        server = record (put_job now job st.server) {
          pool = front ++ record t { parked = false } ∷ back;
        };
      })
  unpark-IsTended now job same h =
      let still : Task = record t { parked = false } in
      record {
        unique = put-IsUnique now job st.server.table h.unique;
        rows =
            All-put _ now job st.server.table
              (ground (arith, pool_with job.id still, (eq_iff t.id job.id).1 (sym same)))
              (All-map _ _ st.server.table
                (λ r f g. ground (arith, f, pooled r.id, pool_with r.id still)) h.rows);
        held = λ i f. ground (arith, f, h.held i, pooled i, pool_with i still);
      }

  pub save-IsTended :
      (now : ℕ) (job : Job) → job.id ≡ t.id → IsTended st → IsTended (saved now job front t back st)
  unfolding save_job
  save-IsTended now job same h = elim (Bool-cases (is_settled job)) [
    | inl f ↦ rw f (
        park-IsTended (put now job st.server.table) (put-IsUnique now job st.server.table h.unique)
          (All-put _ now job st.server.table (ground (arith, f)) (
            All-map _ _ st.server.table
              (λ r k g. ground (arith, k, g, eq_iff r.id job.id, eq_iff r.id t.id, same)) h.rows))
          h)
    | inr f ↦ rw f (unpark-IsTended now job same h)
  ]

  pub exit-IsTended :
      t.parked ≡ true
      → IsTended st
      → IsTended (record st { server = end_thread t.id (front ++ back) st.server })
  unfolding end_thread
  exit-IsTended over h = record {
    unique = h.unique;
    rows =
        All-map _ _ st.server.table
          (λ r f. ground (
            arith,
            f,
            over,
            pooled r.id,
            any-append (λ x. x.id =s= r.id && not x.parked) front back,
          ))
          h.rows;
    held = λ i f. ground (
      arith,
      f,
      over,
      h.held i,
      pooled i,
      any-append (λ x. x.id =s= i && not x.parked) front back,
    );
  }

  pub missing : (rows : Table) → get t.id rows ≡ none → All (λ r. r.id =s= t.id ≡ false) rows
  unfolding get
  missing [] n = tt
  missing (r ∷ rows) n = elim (Bool-cases (r.id =s= t.id)) [
    | inl f ↦ absurd (cc (rw f at n))
    | inr f ↦ (f, missing rows (rw f at n))
  ]
