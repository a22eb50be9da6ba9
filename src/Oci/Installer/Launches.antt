-- ===== src/Oci/Installer/Launches.antt =====
-- `run` of helper/helper_app/oci/iso_install.py and the instance that it launches.
use vmware_migration_helper.Base.{
  ◌≡◌, refl, arith, Bool, true, false, not, Option, none, some, ◌∷◌, String, All, All-map, eq_iff,
}
use vmware_migration_helper.Jobs.Model.{Job, IsoSpec}
use vmware_migration_helper.Oci.Mapping.{LaunchOptionsSpec}
use vmware_migration_helper.Jobs.Actions.{Outcome, ok, raised, Act, ◌>>=◌, when}
use vmware_migration_helper.Jobs.Actions.Hoare.{
  Pred, Post, Triple, Keeps, Triple-bind, Keeps-bind, Triple-Keeps, Keeps-skip, Keeps-lift,
  Keeps-when, Keeps-pure, Keeps-try_catch, Triple-weaken, Triple-from, Triple-when, Keeps-Triple,
}
use vmware_migration_helper.Oci.Provision.{is_set}
use vmware_migration_helper.Oci.Installer.{
  Cloud, Site, launch_instance, change, save, get_job, request, imported, make_image, use_image,
  get_or_create_image, provide_image, await_running, launch, run, wait_import,
  import_failure_detail, create_image, update_image, is_client, apply_capability_schema,
  ensure_data_volume_types, poll_instance, work_request_errors, ensure_shape_compatible,
  hostname_label,
}
use vmware_migration_helper.Oci.Installer.Ledger.{
  Keeping, Booked, AnyJob, NoInstance, kept_none, Keeps-request, Keeps-save, Keeps-get_job,
  Keeps-change, Keeps-on_error, step-Booked, report-Booked, booked_rules,
}

module _ (o : Cloud) where
  imported-Booked : (id : String) → Keeps (Booked AnyJob) (imported o id)
  unfolding imported
  imported-Booked id =
      Keeps-try_catch _ _
        (Keeps-bind _ _ (Keeps-request o (wait_import id) refl)
          λ i. Keeps-bind _ _ (report-Booked o i.reports) λ u. Keeps-lift i.ended)
        (Keeps-on_error _ (Keeps-request o import_failure_detail refl))

  make_image-Booked : (iso : IsoSpec) → Keeps (Booked AnyJob) (make_image o iso)
  unfolding make_image
  make_image-Booked iso = Keeps-bind _ _ (step-Booked o) λ u.
      Keeps-bind _ _ (Keeps-request o create_image refl) λ id.
        Keeps-bind _ _ (imported-Booked id) λ u. Keeps-bind _ _ (step-Booked o) λ u.
          Keeps-bind _ _ (Keeps-when (is_client iso) _ (Keeps-request o (update_image id) refl))
            λ u.
              Keeps-bind _ _ (Keeps-request o (apply_capability_schema id) refl) λ u. Keeps-pure id

  use_image-Booked :
      (iso : IsoSpec) (found : Option String) → Keeps (Booked AnyJob) (use_image o iso found)
  use_image-Booked iso none = make_image-Booked iso
  use_image-Booked iso (some id) =
      Keeps-bind _ _ (Keeps-request o (ensure_data_volume_types id) refl) λ u. Keeps-pure id

  provide_image-Booked :
      (iso : IsoSpec) (lo : LaunchOptionsSpec) → Keeps (Booked AnyJob) (provide_image o iso lo)
  unfolding provide_image get_or_create_image
  provide_image-Booked iso lo =
      search
        (
          booked_rules,
          use_image-Booked,
          λ (id : String). Keeps-change (λ j. record j { iso_image_id = some id }) (λ j. refl),
        )
        depth 14

  await_running-Booked : (id : Option String) → Keeps (Booked AnyJob) (await_running o id)
  unfolding await_running
  await_running-Booked id =
      Keeps-try_catch _ _
        (Keeps-bind _ _ (Keeps-request o (poll_instance id) refl)
          λ p. Keeps-bind _ _ (Keeps-lift _) λ state. Keeps-skip)
        (Keeps-on_error _ (Keeps-request o (work_request_errors id) refl))

  -- The job would keep all that was created if it had the instance.
  LiveWith : String → Pred Site
  LiveWith id w = All (Keeping (record w.job { instance_id = some id })) w.trace

  launched_Post :
      (image : Option String) (r : Outcome String) (w : Site)
      → Booked NoInstance w
      → Post LiveWith
          (Booked AnyJob)
          (r, record w { trace = record { call = launch_instance image; reply = r } ∷ w.trace })
  unfolding LiveWith
  launched_Post image (ok id) w p = (
    ground (arith, eq_iff id id),
    All-map _ _ w.trace
        (λ e. kept_none w.job (record w.job { instance_id = some id }) p.on_job e.call e.reply)
        p.live,
  )
  launched_Post image (raised x) w p = record {
    live = (refl, p.live);
    stored = (refl, p.stored);
    on_job = tt;
  }

  Live : Pred Site
  Live w = All (Keeping w.job) w.trace

  request_launch :
      (image : Option String)
      → Triple (Booked NoInstance) (request o (launch_instance image)) LiveWith (Booked AnyJob)
  unfolding request
  request_launch image = record {
    at = λ w p. launched_Post image (o.reply w.trace (launch_instance image)) w p;
  }

  set_instance :
      (id : String)
      → Triple
          (LiveWith id)
          (change (λ j. record j { instance_id = some id }))
          (λ u. Live)
          (Booked AnyJob)
  unfolding change LiveWith Live
  set_instance id = record { at = λ w p. p }

  save-Live : Triple Live save (λ u. Booked AnyJob) (Booked AnyJob)
  unfolding save Live
  save-Live = record { at = λ w p. record { live = p; stored = p; on_job = tt } }

  read_job : Triple (Booked AnyJob) get_job (λ k w. Booked AnyJob w × (w.job ≡ k)) (Booked AnyJob)
  unfolding get_job
  read_job = record { at = λ w p. (p, refl) }

  launch-Booked :
      (image : Option String)
      → Triple (Booked NoInstance) (launch o image) (λ u. Booked AnyJob) (Booked AnyJob)
  unfolding launch LiveWith
  launch-Booked image = before (step-Booked o) λ u.
      before (Keeps-request o (ensure_shape_compatible image) refl) λ u. before (step-Booked o) λ u.
        before (Keeps-request o hostname_label refl) λ u.
          Triple-bind LiveWith (request_launch image) λ id.
            Triple-bind (λ u. Live) (set_instance id)
              λ u.
                Triple-bind (λ u. Booked AnyJob) save-Live
                  λ u. Triple-Keeps (await_running-Booked (some id))
    where
      before :
          {A B : Type 0} {m : Act Site A} {f : A → Act Site B} {Q : B → Pred Site}
          → Keeps (Booked NoInstance) m
          → ((a : A) → Triple (Booked NoInstance) (f a) Q (Booked AnyJob))
          → Triple (Booked NoInstance) (m >>= f) Q (Booked AnyJob)
      before k h =
          Triple-bind (λ a. Booked NoInstance)
            (Triple-weaken (Booked NoInstance) (Booked AnyJob)
              (λ w p. record { live = p.live; stored = p.stored; on_job = tt }) (Triple-Keeps k))
            h

  with_instance :
      (k : Job) (w : Site) → Booked AnyJob w × (w.job ≡ k) → NoInstance k → Booked NoInstance w
  with_instance k w (p, e) n = record { live = p.live; stored = p.stored; on_job = rw e n }

  maybe_launch-Booked :
      (k : Job)
      → Triple
          (λ w. Booked AnyJob w × (w.job ≡ k))
          (when (not (is_set k.instance_id)) (launch o k.iso_image_id))
          (λ u. Booked AnyJob)
          (Booked AnyJob)
  maybe_launch-Booked k =
      Triple-when (not (is_set k.instance_id)) (λ w p. p.0)
        λ e.
          Triple-from (λ w p. with_instance k w p (unset (is_set k.instance_id) e))
            (launch-Booked k.iso_image_id)
    where
      unset : (b : Bool) → not b ≡ true → b ≡ false
      unset true e = cc
      unset false e = refl

  -- The instance that `run` launches is on the job and in the row that was saved last, before anything that may
  -- raise: however `run` ends, and wherever a cancel comes, the job has the id of every launch, if it is not
  -- empty.
  pub run-Keeps : Keeps (Booked AnyJob) (run o)
  unfolding run
  run-Keeps = Keeps-bind _ _ Keeps-get_job λ j. Keeps-bind _ _ (Keeps-lift _) λ iso.
      Keeps-bind _ _ (Keeps-lift _) λ u. Keeps-bind _ _ (Keeps-change _ (λ i. refl)) λ u.
        Keeps-bind _ _ (Keeps-when _ _ (Keeps-lift _)) λ u.
          Keeps-bind _ _ (Keeps-when _ _ (provide_image-Booked iso _)) λ u. Keeps-Triple (
            Triple-bind (λ k w. Booked AnyJob w × (w.job ≡ k)) read_job
              λ k.
                Triple-bind (λ u. Booked AnyJob) (maybe_launch-Booked k)
                  λ u. Triple-Keeps (Keeps-bind _ _ (Keeps-change _ (λ i. refl)) λ u. Keeps-save))
