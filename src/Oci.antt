-- ===== src/Oci.antt =====
-- helper/helper_app/oci: what of it needs no call of OCI.
pub mod Mapping
pub mod Provision
pub mod Installer
