-- ===== src/Api/Jobs/Handlers.antt =====
-- Requests of helper/helper_app/api/routes_jobs.py and their calls, among those of the others.
use vmware_migration_helper.Base.{
  ℕ, ◌≡◌, refl, false, ◌=s=◌, ◌∙◌, arith, Bool, true, ◌||◌, List, ◌∷◌, ◌++◌, String, eq_iff, any,
  All, All-map,
}
use vmware_migration_helper.Jobs.Model.{Job}
use vmware_migration_helper.Jobs.Store.Rows.{IsUnique, put-IsUnique, All-put}
use vmware_migration_helper.Jobs.Runner.Safely.Books.{has}
use vmware_migration_helper.Jobs.Runner.Restart.{is_settled}
use vmware_migration_helper.Api.Server.{Server}
use vmware_migration_helper.Api.Jobs.{
  Place, put_job, after_put, advance, Request, create_vmware, create_azure, create_gcp, create_iso,
}
use vmware_migration_helper.Api.Jobs.Steps.{will_submit, holds, State, is_tended}
use vmware_migration_helper.Api.Jobs.Calls.{any-append, At, advance-At}

pub record IsTended (st : State) : Type 0 where
  pub unique : IsUnique st.server.table
  pub rows : All (λ r. is_settled r || is_tended r.id st ≡ true) st.server.table
  pub held : (id : String) → any (holds id) st.handlers ≡ true → is_tended id st ≡ true

after_put_lem :
    (r : Request) (job : Job) (id : String)
    → (will_submit id (after_put r job) ≡ job.id =s= id) × (holds id (after_put r job) ≡ false)
after_put_lem (create_iso body) job id = (refl, refl)
after_put_lem (create_vmware found body) job id = (refl, refl)
after_put_lem (create_azure found body) job id = (refl, refl)
after_put_lem (create_gcp found body) job id = (refl, refl)

pub request-IsTended :
    (now : ℕ) (r : Request) (job : Job) (st : State)
    → IsTended st
    → IsTended
        (record st { server = put_job now job st.server; handlers = after_put r job ∷ st.handlers })
request-IsTended now r job st h = record {
  unique = put-IsUnique now job st.server.table h.unique;
  rows =
      All-put _ now job st.server.table
        (ground (arith, (after_put_lem r job job.id).0, eq_iff job.id job.id))
        (All-map _ _ st.server.table (λ x e f. ground (arith, e)) h.rows);
  held = λ i e. ground (arith, e, (after_put_lem r job i).1, h.held i);
}

pub move-IsTended :
    (now : ℕ) (front back : List Place) (p : Place) (st : State)
    → st.handlers ≡ front ++ p ∷ back
    → IsTended st
    → IsTended (record st {
      server = (advance now p st.server).1;
      handlers = front ++ (advance now p st.server).0 ∷ back;
    })
move-IsTended now front back p st e h =
    out (advance now p st.server).0 (advance now p st.server).1 (
      advance-At base hold now p st.server record {
        unique = h.unique;
        rows = All-map _ _ st.server.table (λ r k. ground (arith, k, wills r.id)) h.rows;
        held = λ i k. ground (arith, k, h.held i, wills i, holding i);
      })
  where
    base : String → Bool
    base i = has i st.overtaken || any (will_submit i) front || any (will_submit i) back

    hold : String → Bool
    hold i = any (holds i) front || any (holds i) back

    wills :
        (i : String)
        → any (will_submit i) st.handlers
          ≡ (any (will_submit i) front || will_submit i p || any (will_submit i) back)
    wills i = rw e (any-append (will_submit i) front (p ∷ back) ∙ ground arith)

    holding :
        (i : String)
        → any (holds i) st.handlers ≡ (any (holds i) front || holds i p || any (holds i) back)
    holding i = rw e (any-append (holds i) front (p ∷ back) ∙ ground arith)

    out :
        (q : Place) (s : Server)
        → At base hold q s
        → IsTended (record st { server = s; handlers = front ++ q ∷ back })
    out q s k = record {
      unique = k.unique;
      rows =
          All-map _ _ s.table
            (λ r f. ground (arith, f, any-append (will_submit r.id) front (q ∷ back))) k.rows;
      held = λ i f. ground (
        arith,
        f,
        k.held i,
        any-append (will_submit i) front (q ∷ back),
        any-append (holds i) front (q ∷ back),
      );
    }
