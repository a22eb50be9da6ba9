-- ===== src/Lib.antt =====
-- vmware-migration-helper: a tool that runs on an OCI instance and migrates virtual machines from vCenter,
-- Azure and Google Cloud. Paths such as jobs/runner.py stand for helper/helper_app/jobs/runner.py, from the root.
--
-- A web request makes a job (models.py), which the store keeps (jobs/store.py), and hands it to the runner
-- with the session of the user (sessions.py). The runner (jobs/runner.py) has a thread for each job:
-- it waits for a migration slot, lets the provisioner make the target and attach its volumes, stops the
-- source, copies every disk with retries, fixes the guest up, and finalizes the target. A VMware disk is a
-- stream that the decoder of disk/vmdk_stream.py turns into writes on the volume; an Azure or Google
-- disk is copied in ranges (disk/vhd_range_copy.py, disk/gcs_range_copy.py).
--
-- Which file models what:
--   Base          numbers, lists, bytes and their lemmas
--   Disk/Vmdk     disk/vmdk_stream.py: SparseExtentHeader with pack and unpack, and its errors; Decoder is
--                 StreamOptimizedDecoder, with one function for each method and branch of `_drain`. The object
--                 is a record; the calls of the sink are the list of its writes. `zlib.decompress` and
--                 whether a write works are parameters. Encoder is encode_stream_optimized with its callers.
--                 Decoder/Reads and Grains say what the decoder makes of each piece of a stream; Rules,
--                 Pieces, RoundTrip and Image, of what the encoder writes.
--   Disk/Ranges   merge_ranges and split_chunks of disk/vhd_range_copy.py, and the ranges of copy_sequential of
--                 disk/gcs_range_copy.py; Pages has list_page_ranges, and Workers the threads of copy_ranges
--                 as a step relation on the queue and the place of each thread
--   Disk/Pipeline disk/pipeline.py: the download and the decoding thread as a step relation on the bounded queue
--   Disk/Writer   write_at of disk/writer.py on a device that is the byte at each position
--   Disk/Devices  wait_for_new_device of disk/devices.py, over the scans that it makes
--   Clouds/Release the release of exports and snapshots of azure/export.py and gcp/export.py
--   Vsphere/Power shut_down of vsphere/power.py: its result and its commands, from what vCenter answers
--   Oci/Mapping   the launch options and volume sizes of oci/mapping.py; Guest has releases and shapes
--   Oci/Provision prepare, finalize and cleanup of oci/provision.py, as actions on the job, the row saved last, and
--                 the calls made so far: what OCI answers to a call is any function of the calls before it.
--                 Prepare and Finish have the code. Ledger, Volumes, Create and Leaks prove what stays on
--                 the job of what was created; Reclaim, Cleanup and History what a cleanup asks for;
--                 Positions, Rounds, Outcomes and Finalize what holds when finalize ends, Under and Attached
--                 what holds when prepare does. Service gives the runner these methods for its services.
--   Oci/Installer run and cleanup of oci/iso_install.py, as actions like the provisioner's; Ledger, Launches and Cancel follow the
--                 instance from its launch, Service gives the runner these methods for its services.
--   Jobs/Model    models.py: Job, DiskState, TransferStats and their enumerations
--   Jobs/Progress jobs/progress.py: the rate meter
--   Jobs/Store    jobs/store.py: the table is the list of its rows
--   Jobs/Runner   jobs/runner.py: actions on the state of a thread, which keep what was written before an
--                 exception. Copy has the copies of a disk, Run the migrations of the three kinds, Safely the
--                 threads with their exception paths, Restart fail_stale_jobs. What the methods call outside (the
--                 provisioner, the clouds, vCenter, the copy of the bytes, the guest fix-up) is the record
--                 Services: any functions of the job. A request to cancel may come before any check.
--   Jobs/Actions  code that changes a state and may raise, for the runner and the provisioner, and in Hoare the
--                 rules for what an action guarantees when it returns and when it raises
--   Jobs/Slots    the slots of jobs/runner.py as a step relation on the count and the threads that hold one
--   Api/Checks    the checks of api/routes_jobs.py before a job is made; what an inspection and OCI answer are arguments
--   Api/Server    the state that requests and threads share: the table, the books of the runner, its pool
--   Api/Create    the handlers that make a job, each as one step, since it does not wait between the test for a job
--                 in flight and the submission; Steps has its `put` and its submission apart. Api/Jobs has those that cancel, finish and resume one: they run in
--                 parallel threads, and each is advanced call by call. Steps has the steps of the whole server, Calls, Handlers,
--                 Pool and Tended what they keep, Alone what a request for a new job leads to, Replies a cancel that
--                 nothing interrupts.
--   Sessions      sessions.py: the sessions, their pins by jobs, and the store; a session that has left
--                 the store is kept, since a thread may still use it
--   Tests         the theorems at concrete inputs
--
-- Fuel: `drain` gets one round more than the bytes in the buffer and the states ahead, since a round takes
-- a byte or moves to a later state. The loop of a range gets as many rounds as the range has bytes, and
-- a chunk size above 0 takes at least one each round. The loops of a copy run over the chunks that arrive, and over
-- the attempts that the settings allow. `write_at` gets a round for each byte, and a round writes one at
-- least. The loop `while True` of a listing gets any number above that of the pages of the service. The loop over
-- an image gets a round for each byte, and one round reads one at least.
--
-- Not modelled: errors of SQLite in the store, so a save never raises; `abort` of the pipeline; messages and steps
-- that only the pages show; times beyond whole seconds; the waits between two attempts; the import of images and the sizing of shapes (oci), vCenter
-- (vsphere), Azure (azure) and Google Cloud (gcp); the programs that change the guest (guest); the web API
-- (api) but for the requests that change jobs, the console (console) and the pages (ui).
pub mod Api
pub mod Base
pub mod Clouds
pub mod Disk
pub mod Jobs
pub mod Oci
pub mod Sessions
pub mod Vsphere
mod Tests
