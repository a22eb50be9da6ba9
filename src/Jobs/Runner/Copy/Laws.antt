-- ===== src/Jobs/Runner/Copy/Laws.antt =====
-- A copy that returns has left its disk COPIED, and no copy touches the status of another disk.
use vmware_migration_helper.Base.{
  ℕ, zero, suc, ◌+◌, ◌≡◌, refl, ap, ◌∙◌, Bool, true, false, List, [], ◌∷◌, length, All,
}
use vmware_migration_helper.Jobs.Model.{
  Job, DiskState, Exception, job_cancelled, export_error, transfer_error, other_error,
  TransferStats, is_copied,
}
use vmware_migration_helper.Jobs.Actions.{Outcome, ok, raised, lift, ◌>>=◌, ◌>>◌, pure, raise, skip}
use vmware_migration_helper.Jobs.Runner.{
  Chunk, Attempt, Services, World, M, modify, modify_job, modify_disk, modify_transfer, save,
  check_cancel,
}
use vmware_migration_helper.Jobs.Runner.Rules.{Keeps-get_job, runner_rules}
use vmware_migration_helper.Jobs.Actions.Hoare.{
  Pred, Triple, Keeps, Triple-bind, Triple-Keeps, Triple-try_catch, Triple-try_finally, Keeps-bind,
  Keeps-lift, Keeps-skip, Keeps-raise,
}
use vmware_migration_helper.Jobs.Runner.Copy.{
  record_progress, record_azure_progress, copied_disk, copied_gcp_disk, open_writer, chunk_loop,
  cloud_loop, vmware_body, cloud_body, note_failure, handle, on_error, on_gcp_error, attempt_loop,
  export_disk, copy_azure_disk, copy_gcp_disk,
}

abbrev pub AllCopied : List DiskState → Type 0
AllCopied = All (λ d. is_copied d.status ≡ true)

-- The first `k` disks are copied.
abbrev pub CopiedUpTo : ℕ → List DiskState → Type 0
CopiedUpTo zero ds = Unit
CopiedUpTo (suc k) [] = Unit
CopiedUpTo (suc k) (d ∷ ds) = (is_copied d.status ≡ true) × (CopiedUpTo k ds)

-- `n` disks, of which the first `k` are copied; and every call of `prov.finalize` so far found all of
-- its job's disks copied.
pub record CopyInv (k n : ℕ) (w : World) : Type 0 where
  pub count : length w.job.disks ≡ n
  pub before : CopiedUpTo k w.job.disks
  pub finalized_copied : All (λ j. AllCopied j.disks) w.finalized

CopiedUpTo-less : (k : ℕ) (ds : List DiskState) → CopiedUpTo (suc k) ds → CopiedUpTo k ds
CopiedUpTo-less zero ds h = tt
CopiedUpTo-less (suc k) [] h = tt
CopiedUpTo-less (suc k) (d ∷ ds) h = (h.0, CopiedUpTo-less k ds h.1)

length-modify :
    (k : ℕ) (f : DiskState → DiskState) (ds : List DiskState) → length (modify k f ds) ≡ length ds
unfolding modify
length-modify k f [] = refl
length-modify zero f (d ∷ ds) = refl
length-modify (suc k) f (d ∷ ds) = ap suc (length-modify k f ds)

modify-CopiedUpTo :
    (k : ℕ) (f : DiskState → DiskState) (ds : List DiskState)
    → CopiedUpTo k ds
    → CopiedUpTo k (modify k f ds)
unfolding modify
modify-CopiedUpTo zero f ds h = tt
modify-CopiedUpTo (suc k) f [] h = tt
modify-CopiedUpTo (suc k) f (d ∷ ds) h = (h.0, modify-CopiedUpTo k f ds h.1)

modify-CopiedUpTo_next :
    (k : ℕ) (f : DiskState → DiskState) (ds : List DiskState)
    → ((d : DiskState) → is_copied (f d).status ≡ true)
    → CopiedUpTo k ds
    → CopiedUpTo (suc k) (modify k f ds)
unfolding modify
modify-CopiedUpTo_next zero f [] g h = tt
modify-CopiedUpTo_next zero f (d ∷ ds) g h = (g d, tt)
modify-CopiedUpTo_next (suc k) f [] g h = tt
modify-CopiedUpTo_next (suc k) f (d ∷ ds) g h = (h.0, modify-CopiedUpTo_next k f ds g h.1)

module _ (s : Services) {k n : ℕ} where
  pub Keeps-save : Keeps (CopyInv k n) (save s)
  unfolding save
  Keeps-save = record {
    at =
        λ w h. record { count = h.count; before = h.before; finalized_copied = h.finalized_copied };
  }

  pub Keeps-check_cancel : Keeps (CopyInv k n) (check_cancel s)
  unfolding check_cancel
  Keeps-check_cancel = record {
    at =
        λ w h. record { count = h.count; before = h.before; finalized_copied = h.finalized_copied };
  }

module _ {k n : ℕ} where
  -- A change of the job that leaves its disks alone.
  pub Keeps-modify_job :
      (f : Job → Job) → ((j : Job) → (f j).disks ≡ j.disks) → Keeps (CopyInv k n) (modify_job f)
  unfolding modify_job
  Keeps-modify_job f same = record {
    at = λ w h. record {
      count = rw (same w.job) h.count;
      before = rw (same w.job) h.before;
      finalized_copied = h.finalized_copied;
    };
  }

  pub Keeps-modify_transfer :
      (f : TransferStats → TransferStats) → Keeps (CopyInv k n) (modify_transfer f)
  unfolding modify_transfer
  Keeps-modify_transfer f = record {
    at =
        λ w h. record { count = h.count; before = h.before; finalized_copied = h.finalized_copied };
  }

  Keeps-modify_disk : (f : DiskState → DiskState) → Keeps (CopyInv k n) (modify_disk k f)
  unfolding modify_disk
  Keeps-modify_disk f = record {
    at = λ w h. record {
      count = length-modify k f w.job.disks ∙ h.count;
      before = modify-CopiedUpTo k f w.job.disks h.before;
      finalized_copied = h.finalized_copied;
    };
  }

  Keeps-open_writer : (b : Bool) → Keeps (CopyInv k n) (open_writer b)
  Keeps-open_writer true = Keeps-skip
  Keeps-open_writer false = Keeps-raise export_error

  Keeps-record_progress : (r w g b e o : ℕ) → Keeps (CopyInv k n) (record_progress k r w g b e o)
  unfolding record_progress
  Keeps-record_progress r w g b e o =
      search (runner_rules, Keeps-modify_disk, Keeps-modify_transfer)

  Keeps-record_azure_progress :
      (r w c b o : ℕ) → Keeps (CopyInv k n) (record_azure_progress k r w c b o)
  unfolding record_azure_progress
  Keeps-record_azure_progress r w c b o =
      Keeps-bind _ _ (Keeps-modify_disk _) (λ u. Keeps-modify_job _ (λ j. refl))

ruleset copy_rules = (
  runner_rules, Keeps-save, Keeps-check_cancel, Keeps-modify_transfer, Keeps-modify_disk,
  Keeps-open_writer, Keeps-record_progress, Keeps-record_azure_progress,
)

module _ (s : Services) {k n : ℕ} where
  chunk_loop-Keeps : (b r l : ℕ) (cs : List Chunk) → Keeps (CopyInv k n) (chunk_loop s k b r l cs)
  unfolding chunk_loop
  chunk_loop-Keeps b r l [] = search copy_rules
  chunk_loop-Keeps b r l (c ∷ cs) =
      search (copy_rules, λ (x y : ℕ). chunk_loop-Keeps b x y cs) depth 12

  cloud_loop-Keeps :
      (b r o l : ℕ) (cs : List Chunk) → Keeps (CopyInv k n) (cloud_loop s k b r o l cs)
  unfolding cloud_loop
  cloud_loop-Keeps b r o l [] = search copy_rules
  cloud_loop-Keeps b r o l (c ∷ cs) =
      search (copy_rules, λ (x y z : ℕ). cloud_loop-Keeps b x y z cs) depth 12

-- The disk at `k` is copied as well, exactly when the attempt returned true.
abbrev Next : ℕ → ℕ → Bool → Pred World
Next k n true = CopyInv (suc k) n
Next k n false = CopyInv k n

module _ (s : Services) {k n : ℕ} where
  -- The end of each method: the disk is marked, and the job saved.
  mark_copied :
      (f : DiskState → DiskState)
      → ((d : DiskState) → is_copied (f d).status ≡ true)
      → Triple (CopyInv k n) (modify_disk k f >> (save s >> pure true)) (Next k n) (CopyInv k n)
  unfolding modify_disk ◌>>=◌ save pure
  mark_copied f g = record {
    at = λ w h. record {
      count = length-modify k f w.job.disks ∙ h.count;
      before = modify-CopiedUpTo_next k f w.job.disks g h.before;
      finalized_copied = h.finalized_copied;
    };
  }

  vmware_body-Triple :
      (a : Attempt) → Triple (CopyInv k n) (vmware_body s k a) (Next k n) (CopyInv k n)
  unfolding vmware_body
  vmware_body-Triple a =
      Triple-bind (λ u. CopyInv k n) (Triple-Keeps Keeps-get_job)
        λ j.
          Triple-bind (λ u. CopyInv k n) (Triple-Keeps (Keeps-lift _))
            λ u.
              Triple-bind (λ u. CopyInv k n) (Triple-Keeps (chunk_loop-Keeps s _ _ _ _))
                λ r.
                  Triple-bind (λ u. CopyInv k n) (Triple-Keeps (Keeps-lift _))
                    λ t.
                      Triple-bind (λ u. CopyInv k n)
                        (Triple-Keeps (Keeps-record_progress _ _ _ _ _ _))
                        λ u. mark_copied copied_disk (λ d. refl)

  -- What a cloud copy does between the start of its transfer and its end.
  cloud_body-Triple :
      (f : DiskState → DiskState) (a : Attempt)
      → ((d : DiskState) → is_copied (f d).status ≡ true)
      → Triple (CopyInv k n) (cloud_body s f k a) (Next k n) (CopyInv k n)
  unfolding cloud_body
  cloud_body-Triple f a g =
      Triple-bind (λ u. CopyInv k n) (Triple-Keeps Keeps-get_job)
        λ j.
          Triple-bind (λ u. CopyInv k n) (Triple-Keeps (Keeps-lift _))
            λ t.
              Triple-bind (λ u. CopyInv k n) (Triple-Keeps (Keeps-modify_disk _))
                λ u.
                  Triple-bind (λ u. CopyInv k n) (Triple-Keeps (Keeps-save s))
                    λ u.
                      Triple-bind (λ u. CopyInv k n) (Triple-Keeps (cloud_loop-Keeps s _ _ _ _ _))
                        λ u.
                          Triple-bind (λ u. CopyInv k n) (Triple-Keeps (Keeps-lift _))
                            λ t.
                              Triple-bind (λ u. CopyInv k n)
                                (Triple-Keeps (Keeps-record_azure_progress _ _ _ _ _))
                                λ u. mark_copied f g

  -- A handler that goes on has left the disk as a failed one.
  retry :
      (m : M (Unit {0}))
      → Keeps (CopyInv k n) m
      → Triple (CopyInv k n) (m >> pure false) (Next k n) (CopyInv k n)
  retry m h =
      Triple-bind (λ u. CopyInv k n) (Triple-Keeps h) (λ u. unfold pure in record { at = λ w p. p })

  handle-Triple :
      (note : M (Unit {0})) (e : Exception)
      → Keeps (CopyInv k n) note
      → Triple (CopyInv k n) (handle s note k e) (Next k n) (CopyInv k n)
  unfolding handle
  handle-Triple note job_cancelled h =
      Triple-bind (λ u. CopyInv k n) (Triple-Keeps (Keeps-modify_disk _))
        (λ u. unfold raise in record { at = λ w p. p })
  handle-Triple note export_error h = retry _ (search (copy_rules, h))
  handle-Triple note transfer_error h = retry _ (search (copy_rules, h))
  handle-Triple note other_error h = unfold raise in record { at = λ w p. p }

  on_error-Triple : (e : Exception) → Triple (CopyInv k n) (on_error s k e) (Next k n) (CopyInv k n)
  unfolding on_error note_failure
  on_error-Triple e = handle-Triple _ e (search copy_rules)

  on_gcp_error-Triple :
      (e : Exception) → Triple (CopyInv k n) (on_gcp_error s k e) (Next k n) (CopyInv k n)
  unfolding on_gcp_error
  on_gcp_error-Triple e = handle-Triple _ e (search copy_rules)

  decide_next :
      (b : Bool) (again : M (Unit {0}))
      → Triple (CopyInv k n) again (λ u. CopyInv (suc k) n) (CopyInv k n)
      → Triple
          (Next k n b)
          (elim b [ true ↦ skip | false ↦ again ])
          (λ u. CopyInv (suc k) n)
          (CopyInv k n)
  unfolding skip
  decide_next true again h = record { at = λ w p. p }
  decide_next false again h = h

  -- The writer's close may raise after a copy that ended well.
  close_writer :
      (o : Outcome (Unit {0})) (b : Bool)
      → Triple (Next k n b) (lift o) (λ u. Next k n b) (CopyInv k n)
  unfolding lift
  close_writer (ok u) b = record { at = λ w p. p }
  close_writer (raised e) true = record {
    at = λ w h. record {
      count = h.count;
      before = CopiedUpTo-less k w.job.disks h.before;
      finalized_copied = h.finalized_copied;
    };
  }
  close_writer (raised e) false = record { at = λ w h. h }

  attempt_loop-Triple :
      (body : Attempt → M Bool) (handler : Exception → M Bool)
      → ((a : Attempt) → Triple (CopyInv k n) (body a) (Next k n) (CopyInv k n))
      → ((e : Exception) → Triple (CopyInv k n) (handler e) (Next k n) (CopyInv k n))
      → (left number : ℕ)
      → Triple
          (CopyInv k n)
          (attempt_loop s body handler k left number)
          (λ u. CopyInv (suc k) n)
          (CopyInv k n)
  unfolding attempt_loop
  attempt_loop-Triple body handler hb hh zero number = unfold raise in record { at = λ w p. p }
  attempt_loop-Triple body handler hb hh (suc left) number =
      Triple-bind (λ u. CopyInv k n) (Triple-Keeps (Keeps-check_cancel s))
        λ u.
          Triple-bind (λ u. CopyInv k n) (Triple-Keeps (Keeps-modify_disk _))
            λ u.
              Triple-bind (λ u. CopyInv k n) (Triple-Keeps (Keeps-save s))
                λ u.
                  Triple-bind (λ u. CopyInv k n) (Triple-Keeps Keeps-get_job)
                    λ j.
                      Triple-bind (λ u. CopyInv k n) (Triple-Keeps (Keeps-open_writer _))
                        λ u.
                          Triple-bind (Next k n)
                            (Triple-try_finally (Triple-try_catch (CopyInv k n) (hb _) hh)
                              (close_writer _) (Keeps-lift _))
                            λ b.
                              decide_next b _
                                (attempt_loop-Triple body handler hb hh left (number + 1))

-- How a method that copies the disk at `k` ends: with the first `k` disks COPIED before, it returns with
-- the first `k + 1` disks COPIED, or raises with the first `k` disks still COPIED; the number of disks
-- stays the same.
abbrev pub Copies : ℕ → ℕ → M (Unit {0}) → Type 0
Copies k n m = Triple (CopyInv k n) m (λ u. CopyInv (suc k) n) (CopyInv k n)

module _ (s : Services) {k n : ℕ} where
  -- `_export_disk` of the disk at `k` in a job of `n` disks, of which the first `k` are COPIED: it returns with
  -- the first `k + 1` disks COPIED, or raises with the first `k` still COPIED, whatever the attempts meet;
  -- it never adds or drops a disk.
  pub export_disk-Copies : Copies k n (export_disk s k)
  unfolding export_disk
  export_disk-Copies =
      attempt_loop-Triple s _ _ (vmware_body-Triple s) (on_error-Triple s) s.retry_attempts 1

  -- `_copy_azure_disk` of the disk at `k` in a job of `n` disks, of which the first `k` are COPIED: it returns with
  -- the first `k + 1` disks COPIED, or raises with the first `k` still COPIED, whatever the attempts meet;
  -- it never adds or drops a disk.
  pub copy_azure_disk-Copies : Copies k n (copy_azure_disk s k)
  unfolding copy_azure_disk
  copy_azure_disk-Copies =
      attempt_loop-Triple s _ _ (λ a. cloud_body-Triple s copied_disk a (λ d. refl))
        (on_error-Triple s) s.retry_attempts 1

  -- `_copy_gcp_disk` of the disk at `k` in a job of `n` disks, of which the first `k` are COPIED: it returns with
  -- the first `k + 1` disks COPIED, or raises with the first `k` still COPIED, whatever the attempts meet;
  -- it never adds or drops a disk.
  pub copy_gcp_disk-Copies : Copies k n (copy_gcp_disk s k)
  unfolding copy_gcp_disk
  copy_gcp_disk-Copies =
      attempt_loop-Triple s _ _ (λ a. cloud_body-Triple s copied_gcp_disk a (λ d. refl))
        (on_gcp_error-Triple s) s.retry_attempts 1
