-- ===== src/Api.antt =====
-- helper/helper_app/api: what of the routes decides about jobs.
pub mod Checks
pub mod Server
pub mod Create
pub mod Jobs
