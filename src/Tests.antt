-- ===== src/Tests.antt =====
-- The theorems at concrete inputs, and runs of the definitions on them.
mod Api
mod Data
mod Devices
mod Disk
mod Encoder
mod Installer
mod Jobs
mod Runner
mod Provision
mod Ranges
mod Pipeline
