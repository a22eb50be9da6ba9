-- ===== src/Jobs.antt =====
-- helper/helper_app/jobs, with the job's part of helper/helper_app/models.py.
pub mod Model
pub mod Store
pub mod Slots
pub mod Progress
pub mod Actions
pub mod Runner
