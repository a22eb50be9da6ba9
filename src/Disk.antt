-- ===== src/Disk.antt =====
-- helper/helper_app/disk: what moves disk bytes onto a block device.
pub mod Ranges
pub mod Vmdk
pub mod Devices
pub mod Pipeline
pub mod Writer
