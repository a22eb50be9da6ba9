-- ===== src/Oci/Installer/Laws.antt =====
-- What the methods of helper/helper_app/oci/iso_install.py promise, and the thread of the runner that calls them.
use vmware_migration_helper.Base.{
  ◌≡◌, refl, ap, true, false, Option, none, some, List, [], ◌∷◌, ◌++◌, Bool-cases, inl, inr, All,
  String,
}
use vmware_migration_helper.Jobs.Model.{installing, cancelled}
use vmware_migration_helper.Jobs.Actions.{Outcome, ok, raised, ◌>>=◌, skip, try_catch}
use vmware_migration_helper.Jobs.Actions.Hoare.{Pred, Triple, Always, after}
use vmware_migration_helper.Oci.Provision.{is_set}
use vmware_migration_helper.Oci.Installer.{
  Tags, Image, carries, find_image, Cloud, Site, terminate_instance, Event, change, save, get_job,
  request, run, cleanup,
}

-- An image of the list carries all the tags, and none before it does; or none at all does.
abbrev pub Finds : Tags → List Image → Option String → Type 0
Finds tags images none = All (λ i. carries tags i ≡ false) images
Finds tags images (some id) =
    (front : List Image) × (image : Image) × (back : List Image) × (images ≡ front ++ image ∷ back)
    × (carries tags image ≡ true)
    × (image.id ≡ id)
    × (All (λ i. carries tags i ≡ false) front)

later :
    (tags : Tags) (image : Image) (images : List Image) (o : Option String)
    → carries tags image ≡ false
    → Finds tags images o
    → Finds tags (image ∷ images) o
later tags image images none e h = (e, h)
later tags image images (some id) e (front, x, back, split, fits, named, none_before) =
    (image ∷ front, x, back, ap (λ l. image ∷ l) split, fits, named, (e, none_before))

-- `find_image` returns the first image of the list that carries all the tags, and nothing if there is none.
pub find_image-Finds :
    (tags : Tags) (images : List Image) → Finds tags images (find_image tags images)
unfolding find_image
find_image-Finds tags [] = tt
find_image-Finds tags (image ∷ images) = elim (Bool-cases (carries tags image)) [
  | inl e ↦ rw e ([], image, images, refl, e, refl, tt)
  | inr e ↦ rw e (later tags image images _ e (find_image-Finds tags images))
]

-- The installer hands the instance over: the job is in INSTALLING, and saved as it is.
pub record Installed (w : Site) : Type 0 where
  pub phase : w.job.phase ≡ installing
  pub saved : w.saved ≡ w.job

pub run-Installs : (o : Cloud) {P : Pred Site} → Triple P (run o) (λ u. Installed) Always
unfolding run
run-Installs o = after _ λ j. after _ λ iso. after _ λ u. after _ λ u. after _ λ u. after _ λ u.
    after _ λ k.
      after _ λ u.
        unfold change save ◌>>=◌ in record { at = λ w p. record { phase = refl; saved = refl } }

-- The installer gave up the job: it is CANCELLED and saved as it is, and its instance, if it has one, was asked to
-- terminate.
pub record CleansUp (before : Site) (r : Outcome (Unit {0}) × Site) : Type 0 where
  pub returns : r.0 ≡ ok tt
  pub phase : r.1.job.phase ≡ cancelled
  pub saved : r.1.saved ≡ r.1.job
  pub asked :
      is_set before.job.instance_id ≡ true
      → (e : Event) × (e.call ≡ terminate_instance before.job.instance_id)
        × (r.1.trace ≡ e ∷ before.trace)

module _ (o : Cloud) (w : Site) where
  cleanup_answered :
      (r : Outcome (Unit {0}))
      → o.reply w.trace (terminate_instance w.job.instance_id) ≡ r
      → is_set w.job.instance_id ≡ true
      → CleansUp w (cleanup o w)
  unfolding cleanup request change save get_job try_catch skip ◌>>=◌
  cleanup_answered (ok u) e h =
      rw (h, e)
        (record { returns = refl; phase = refl; saved = refl; asked = λ k. (_, refl, refl) })
  cleanup_answered (raised x) e h =
      rw (h, e)
        (record { returns = refl; phase = refl; saved = refl; asked = λ k. (_, refl, refl) })

  -- `cleanup` returns, whatever OCI answers: the job is CANCELLED and saved, and its instance, if it has one, was
  -- asked to terminate.
  pub cleanup-CleansUp : CleansUp w (cleanup o w)
  unfolding cleanup request change save get_job try_catch skip ◌>>=◌
  cleanup-CleansUp = elim (Bool-cases (is_set w.job.instance_id)) [
    | inl h ↦ cleanup_answered (o.reply w.trace (terminate_instance w.job.instance_id)) refl h
    | inr h ↦ rw h (record { returns = refl; phase = refl; saved = refl; asked = λ k. absurd (cc) })
  ]
