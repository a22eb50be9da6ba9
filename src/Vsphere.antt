-- ===== src/Vsphere.antt =====
-- `shut_down` of helper/helper_app/vsphere/power.py. What vCenter answers while the code waits is an
-- argument: the power state at each poll before the deadline, and the one that is read after it.
pub mod Power
