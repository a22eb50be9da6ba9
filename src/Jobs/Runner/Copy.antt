-- ===== src/Jobs/Runner/Copy.antt =====
-- The copy of one disk with its retries: `_export_disk`, `_copy_azure_disk`, `_copy_gcp_disk` and their
-- progress figures, of helper/helper_app/jobs/runner.py. `k` is the position of the disk in the job. The
-- progress callbacks of the download threads of a cloud copy hold a lock, and come one after another.
pub mod Laws
use vmware_migration_helper.Base.{
  ℕ, zero, suc, ◌+◌, ◌-◌, ◌*◌, Bool, true, false, ◌&&◌, ◌||◌, Option, none, some, List, [], ◌∷◌,
  leb, ◌==◌, if◌then◌else◌, or_default, sum_by,
}
use vmware_migration_helper.Jobs.Model.{
  Job, DiskState, DiskStatus, Exception, job_cancelled, export_error, transfer_error, other_error,
  TransferStats, percent_of,
}
use vmware_migration_helper.Jobs.Actions.{
  Outcome, ok, raised, ◌>>=◌, ◌>>◌, pure, raise, skip, try_catch, try_finally, lift, when,
}
use vmware_migration_helper.Jobs.Runner.{
  Chunk, CopyStats, Attempt, Services, World, M, get_job, modify, modify_job, modify_disk,
  modify_transfer, save, check_cancel,
}

abbrev pub progress_save_bytes : ℕ
progress_save_bytes = 128 * 1024 * 1024

-- `sum(d.bytes_written for d in job.disks if d is not disk)`
unfoldable pub others_written : ℕ → List DiskState → ℕ
others_written k [] = 0
others_written zero (d ∷ ds) = sum_by (λ e. e.bytes_written) ds
others_written (suc k) (d ∷ ds) = d.bytes_written + others_written k ds

-- `disk.stream_bytes or disk.capacity_bytes`
unfoldable pub stream_total : DiskState → ℕ
stream_total d = let n = or_default d.stream_bytes 0 in if n == 0 then d.capacity_bytes else n

-- What the start of an attempt resets.
abbrev reset_disk : ℕ → DiskState → DiskState
reset_disk n d = record d {
  attempts = n;
  status = DiskStatus.copying;
  bytes_received = 0;
  bytes_written = 0;
  grains_written = 0;
  percent = 0;
  error = none;
}

abbrev live_figures : ℕ → ℕ → ℕ → ℕ → DiskState → DiskState
live_figures received written grains rate d = record d {
  bytes_received = received;
  bytes_written = written;
  grains_written = grains;
  throughput_bps = rate;
  percent = percent_of received (stream_total d);
}

-- `_record_progress`
pub record_progress : ℕ → ℕ → ℕ → ℕ → ℕ → ℕ → ℕ → M (Unit {0})
record_progress k received written grains rate export_percent before = do
  modify_disk k (live_figures received written grains rate)
  modify_transfer (λ t. record t {
    bytes_written = before + written;
    throughput_bps = rate;
    percent = export_percent;
  })

-- `_record_azure_progress`; the percentage of the job counts all its disks.
pub record_azure_progress : ℕ → ℕ → ℕ → ℕ → ℕ → ℕ → M (Unit {0})
record_azure_progress k received written chunks rate before = do
  modify_disk k (live_figures received written chunks rate)
  modify_job (λ j. record j {
    transfer = record (j.transfer) {
      bytes_written = before + written;
      throughput_bps = rate;
      percent = percent_of (others_written k j.disks + written) (sum_by stream_total j.disks);
    };
  })

abbrev pub open_writer : Bool → M (Unit {0})
open_writer true = skip
open_writer false = raise export_error

abbrev transfer_received : ℕ → TransferStats → TransferStats
transfer_received n t = record t { bytes_received = t.bytes_received + n }

-- The figures and the status of a disk whose copy has ended.
abbrev copied_disk : DiskState → DiskState
copied_disk d = record d { percent = 100; throughput_bps = 0; status = DiskStatus.copied }

abbrev copied_gcp_disk : DiskState → DiskState
copied_gcp_disk d = record d { percent = 100; status = DiskStatus.copied }

abbrev failed_disk : Exception → DiskState → DiskState
failed_disk e d = record d { status = DiskStatus.failed; error = some e }

module _ (s : Services) where
  -- The loop over `export.iter_disk`, with the bytes received so far and those at the last save.
  pub chunk_loop : ℕ → ℕ → ℕ → ℕ → List Chunk → M ℕ
  chunk_loop k before received last_saved [] = pure received
  chunk_loop k before received last_saved (c ∷ cs) = do
    check_cancel s
    lift c.fed
    modify_transfer (transfer_received c.len)
    let received' = received + c.len
    let due = leb progress_save_bytes (received' - last_saved) || c.late
    when due (do
      record_progress k received' c.written c.grains c.rate_bps c.export_percent before
      save s)
    chunk_loop k before received' (if due then received' else last_saved) cs

  -- `on_progress` for each chunk of a cloud copy, with the check that a download thread makes before it
  -- fetches the chunk.
  pub cloud_loop : ℕ → ℕ → ℕ → ℕ → ℕ → List Chunk → M (Unit {0})
  cloud_loop k before received count last_saved [] = skip
  cloud_loop k before received count last_saved (c ∷ cs) = do
    check_cancel s
    lift c.fed
    modify_transfer (transfer_received c.len)
    let received' = received + c.len
    let due = leb progress_save_bytes (received' - last_saved) || c.late
    when due (do record_azure_progress k received' received' (count + 1) c.rate_bps before; save s)
    cloud_loop k before received' (count + 1) (if due then received' else last_saved) cs

  -- The `try` body of `_export_disk`, which returns when it reaches its end.
  pub vmware_body : ℕ → Attempt → M Bool
  vmware_body k a = do
    j ← get_job
    let before = others_written k j.disks
    reported ← lift a.start
    received ← chunk_loop k before 0 0 a.chunks
    stats ← lift a.finish
    record_progress k received stats.written stats.grains stats.rate_bps stats.export_percent before
    modify_disk k copied_disk
    save s
    pure true

  -- The bodies of the two cloud copies, with what each writes on the disk at the end.
  pub cloud_body : (DiskState → DiskState) → ℕ → Attempt → M Bool
  cloud_body at_end k a = do
    j ← get_job
    let before = others_written k j.disks
    total ← lift a.start
    modify_disk k (λ d. record d { stream_bytes = total })
    save s
    cloud_loop k before 0 0 0 a.chunks
    stats ← lift a.finish
    record_azure_progress k stats.received stats.written stats.grains stats.rate_bps before
    modify_disk k at_end
    save s
    pure true

  note_failure : ℕ → Exception → M (Unit {0})
  note_failure k e = do
    modify_disk k (λ d. record (failed_disk e d) { throughput_bps = 0 })
    modify_transfer (λ t. record t { throughput_bps = 0 })

  abbrev cancel_copy : ℕ → M Bool
  cancel_copy k = do modify_disk k (failed_disk job_cancelled); raise job_cancelled

  handle : M (Unit {0}) → ℕ → Exception → M Bool
  handle note k job_cancelled = cancel_copy k
  handle note k other_error = raise other_error
  handle note k export_error = (note >> save s) >> pure false
  handle note k transfer_error = (note >> save s) >> pure false

  -- The `except` clauses: a cancelled copy is marked and raised again, an error of the transfer is marked
  -- and the loop goes on, any other exception passes.
  pub on_error : ℕ → Exception → M Bool
  on_error k e = handle (note_failure k e) k e

  -- `_copy_gcp_disk` leaves the throughput as it was.
  pub on_gcp_error : ℕ → Exception → M Bool
  on_gcp_error k e = handle (modify_disk k (failed_disk e)) k e

  -- `for attempt in range(1, disk_retry_attempts + 1)`, with the attempts left and the number of the next.
  pub attempt_loop : (Attempt → M Bool) → (Exception → M Bool) → ℕ → ℕ → ℕ → M (Unit {0})
  attempt_loop body handler k zero n = raise export_error
  attempt_loop body handler k (suc left) n = do
    check_cancel s
    modify_disk k (reset_disk n)
    save s
    j ← get_job
    open_writer (s.attempt j k n).opens
    finished ←
        try_finally (try_catch (body (s.attempt j k n)) handler) (lift (s.attempt j k n).close)
    elim finished [ true ↦ skip | false ↦ attempt_loop body handler k left (n + 1) ]

  unfoldable pub export_disk : ℕ → M (Unit {0})
  export_disk k = attempt_loop (vmware_body k) (on_error k) k s.retry_attempts 1

  unfoldable pub copy_azure_disk : ℕ → M (Unit {0})
  copy_azure_disk k = attempt_loop (cloud_body copied_disk k) (on_error k) k s.retry_attempts 1

  unfoldable pub copy_gcp_disk : ℕ → M (Unit {0})
  copy_gcp_disk k =
      attempt_loop (cloud_body copied_gcp_disk k) (on_gcp_error k) k s.retry_attempts 1
