-- ===== src/Oci/Provision/History.antt =====
-- Any history of one job's provisioner of helper/helper_app/oci/provision.py.
use vmware_migration_helper.Base.{◌≡◌, refl, List, [], ◌∷◌, All}
use vmware_migration_helper.Jobs.Model.{Job}
use vmware_migration_helper.Jobs.Actions.{Outcome, ok, raised}
use vmware_migration_helper.Jobs.Actions.Hoare.{Post, Never}
use vmware_migration_helper.Oci.Provision.{Site, Cloud}
use vmware_migration_helper.Oci.Provision.Finish.{cleanup, finalize}
use vmware_migration_helper.Oci.Provision.Ledger.{Keeping, Booked}
use vmware_migration_helper.Oci.Provision.Leaks.{prepare-Booked, finalize-Booked}
use vmware_migration_helper.Oci.Provision.Prepare.{prepare}
use vmware_migration_helper.Oci.Provision.Cleanup.{Cleaned, cleanup-Triple}

-- The calls of a job's life, in any order: a thread may also start from the row that was saved.
pub data Op : Type 0 where
  prepares finalizes cleans reloads : Op

abbrev pub reload : Site → Site
reload w = record w { job = w.saved }

abbrev pub perform : Cloud → Op → Site → Site
perform o prepares w = (prepare o w).1
perform o finalizes w = (finalize o w).1
perform o cleans w = (cleanup o w).1
perform o reloads w = reload w

abbrev pub perform_all : Cloud → List Op → Site → Site
perform_all o [] w = w
perform_all o (op ∷ ops) w = perform_all o ops (perform o op w)

abbrev pub fresh : Job → Site
fresh j = record { job = j; saved = j; trace = []; checks = 0 }

abbrev pub CleansUp : Outcome (Unit {0}) × Site → Type 0
CleansUp r = (r.0 ≡ ok tt) × Cleaned r.1

of_Post : (r : Outcome (Unit {0}) × Site) → Post (λ u. Cleaned) Never r → CleansUp r
of_Post (ok u, w) p = (refl, p)
of_Post (raised e, w) p = absurd p

cleanup_lem : (o : Cloud) (w : Site) → Booked w → CleansUp (cleanup o w)
cleanup_lem o w p = of_Post (cleanup o w) ((cleanup-Triple o).at w p)

perform-Booked : (o : Cloud) (op : Op) (w : Site) → Booked w → Booked (perform o op w)
perform-Booked o prepares w p = (prepare-Booked o).at w p
perform-Booked o finalizes w p = (finalize-Booked o).at w p
perform-Booked o cleans w p = (cleanup_lem o w p).1.booked
perform-Booked o reloads w p = record { live = p.stored; stored = p.stored }

perform_all-Booked :
    (o : Cloud) (ops : List Op) (w : Site) → Booked w → Booked (perform_all o ops w)
perform_all-Booked o [] w p = p
perform_all-Booked o (op ∷ ops) w p =
    perform_all-Booked o ops (perform o op w) (perform-Booked o op w p)

pub cleanup-CleansUp :
    (o : Cloud) (j : Job) (ops : List Op) → CleansUp (cleanup o (perform_all o ops (fresh j)))
cleanup-CleansUp o j ops =
    cleanup_lem o _ (perform_all-Booked o ops (fresh j) (record { live = tt; stored = tt }))

-- At the end of any sequence of calls on a job, with restarts between them, what a creation returned with an
-- id that is not empty is on the job, and in the row that was saved last.
pub perform_all-Keeping :
    (o : Cloud) (j : Job) (ops : List Op)
    → let w = perform_all o ops (fresh j) in
      All (Keeping w.job) w.trace × All (Keeping w.saved) w.trace
perform_all-Keeping o j ops =
    let b = perform_all-Booked o ops (fresh j) (record { live = tt; stored = tt }) in
    (b.live, b.stored)
