-- ===== src/Api/Jobs/Alone.antt =====
-- What a request to migrate a machine leads to: helper/helper_app/api/routes_jobs.py.
use mathlib.Core.Path.{subst}
use vmware_migration_helper.Base.{
  ℕ, ◌≤◌, ◌≡◌, refl, sym, ◌∙◌, arith, true, false, not, ◌||◌, none, some, [], ◌∷◌, String, ◌=s=◌,
  Bool-cases, inl, inr, length, All, All-map,
}
use vmware_migration_helper.Jobs.Model.{Job, JobKind, terminal}
use vmware_migration_helper.Jobs.Store.{Table, get, of_source, active_for_vm}
use vmware_migration_helper.Jobs.Store.Rows.{get-put, All-put, active_for_vm-none}
use vmware_migration_helper.Jobs.Runner.Safely.{submit, is_running}
use vmware_migration_helper.Jobs.Runner.Safely.Laws.{string_refl}
use vmware_migration_helper.Jobs.Runner.Safely.Books.{has-add}
use vmware_migration_helper.Api.Checks.{Answer, accepted, refused, Site, VmInspection, check_source}
use vmware_migration_helper.Api.Checks.Allowed.{check_source-IsAllowed}
use vmware_migration_helper.Api.Server.{run, Server, respond}
use vmware_migration_helper.Api.Create.{
  CreateJobRequest, new_job, start_job, create_job, create_azure_job, create_gcp_job,
}

of_source-All :
    (P : Job → Type 0) (key : String) (rows : Table)
    → All P (of_source key rows)
    → All (λ r. r.source_key =s= key ≡ true → P r) rows
unfolding of_source
of_source-All P key [] h = tt
of_source-All P key (row ∷ rows) h = elim (Bool-cases (row.source_key =s= key)) [
  | inl e ↦ let k = rw e at h in (λ f. k.0, of_source-All P key rows k.1)
  | inr e ↦ (λ f. absurd (cc), of_source-All P key rows (rw e at h))
]

-- What the table says of the other jobs of a machine: they have ended.
abbrev pub Over : String → String → Job → Type 0
Over key id r = (r.id =s= id || not (r.source_key =s= key) || terminal r.phase) ≡ true

-- The server has a new job for the machine, and no other job for it in flight; the job runs.
pub record IsAlone (s : Server) (key id : String) (job : Job) (t : Server) : Type 0 where
  pub kept : get id t.table ≡ some job
  pub in_flight : terminal job.phase ≡ false
  pub of_machine : job.source_key ≡ key
  pub others : All (Over key id) t.table
  pub runs : is_running id t.threads ≡ true
  pub tasked : t.pool ≡ record { method = run; id = id; parked = false } ∷ s.pool

-- A request leads to such a server, or to the one that it met.
abbrev pub Leads : String → String → Server → Answer Job × Server → Type 0
Leads key id s (accepted job, t) = IsAlone s key id job t
Leads key id s (refused e, t) = t ≡ s

respond-Leads :
    (key id : String) (a : Answer VmInspection) (f : VmInspection → Server → Job × Server)
    (s : Server)
    → ((vm : VmInspection) → a ≡ accepted vm → IsAlone s key id (f vm s).0 (f vm s).1)
    → Leads key id s (respond a f s)
respond-Leads key id (accepted vm) f s h = h vm refl
respond-Leads key id (refused e) f s h = refl

ended-Over :
    (key id : String) (rows : Table)
    → All (λ r. terminal r.phase ≡ true) (of_source key rows)
    → All (λ r. r.id =s= id ≡ false → Over key id r) rows
ended-Over key id rows h =
    All-map _ _ rows (λ r k other. by_key r k)
      (of_source-All (λ r. terminal r.phase ≡ true) key rows h)
  where
    by_key : (r : Job) → (r.source_key =s= key ≡ true → terminal r.phase ≡ true) → Over key id r
    by_key r k = elim (Bool-cases (r.source_key =s= key)) [
      | inl e ↦ let t = k e in ground arith
      | inr e ↦ ground arith
    ]

start-IsAlone :
    (site : Site) (id : String) (now : ℕ) (kind : JobKind) (body : CreateJobRequest)
    (vm : VmInspection) (s : Server)
    → All (λ r. terminal r.phase ≡ true) (of_source vm.moid s.table)
    → let made = start_job site id now kind body vm s in IsAlone s vm.moid id made.0 made.1
unfolding submit new_job is_running
start-IsAlone site id now kind body vm s ended =
    let job : Job = new_job kind none body id now vm in
    record {
      kept = get-put now job id s.table ∙ rw (string_refl id) refl;
      in_flight = refl;
      of_machine = refl;
      others =
          All-put (Over vm.moid id) now job s.table (rw (string_refl id) refl)
            (ended-Over vm.moid id s.table ended);
      runs = has-add id id s.threads.running ∙ rw (string_refl id) refl;
      tasked = refl;
    }

module _ (site : Site) (id : String) (now : ℕ) (body : CreateJobRequest) (s : Server)
    (vm : VmInspection) (named : vm.moid =s= "" ≡ false)
    (few : length (of_source vm.moid s.table) ≤ 200) where
  create-Leads :
      (kind : JobKind) (key : VmInspection → String)
      → key vm ≡ vm.moid
      → Leads vm.moid id s (
          respond
            (check_source site (accepted vm) body.power_off_source body.target key s.table)
            (start_job site id now kind body)
            s)
  create-Leads kind key same =
      respond-Leads vm.moid id
        (check_source site (accepted vm) body.power_off_source body.target key s.table)
        (start_job site id now kind body) s
        λ v e.
          let (found, allowed, idle) =
            check_source-IsAllowed site (accepted vm) body.power_off_source body.target key s.table
              v e in
          let it : vm ≡ v = cc in
          subst
            (λ z.
              let made = start_job site id now kind body z s in IsAlone s vm.moid id made.0 made.1)
            it
            (start-IsAlone site id now kind body vm s (
              active_for_vm-none vm.moid s.table named few (
                subst (λ k. active_for_vm k s.table ≡ none) same
                  (subst (λ z. active_for_vm (key z) s.table ≡ none) (sym it) idle))))

  -- A request to migrate a machine that was found, of vCenter, Azure or Google Cloud, is refused and changes
  -- nothing, or makes a job with the new id for the machine: the table has it, it has not ended, it runs in a
  -- new task, and every other job for the machine has ended. The machine has a name, at most 200 jobs, and for
  -- vCenter the name that the request has.
  pub create_job-Leads :
      body.vm_moid ≡ vm.moid
      → Leads vm.moid id s (create_job site id now (accepted vm) body s)
        × Leads vm.moid id s (create_azure_job site id now (accepted vm) body s)
        × Leads vm.moid id s (create_gcp_job site id now (accepted vm) body s)
  unfolding create_job create_azure_job create_gcp_job
  create_job-Leads same = (
    create-Leads JobKind.vmware (λ v. body.vm_moid) same,
    create-Leads JobKind.azure (λ v. v.moid) refl,
    create-Leads JobKind.gcp (λ v. v.moid) refl,
  )
