-- ===== src/Clouds.antt =====
-- helper/helper_app/azure and helper/helper_app/gcp: what of the exports needs no answer of a cloud but whether a
-- call worked.
pub mod Release
