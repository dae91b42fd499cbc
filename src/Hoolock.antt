-- ===== src/Hoolock.antt =====
-- The handover between two slaves: the ioctls make and break of 27/bond_main.c and the packet
-- handler that buffers what comes in between.
pub mod Recv
pub mod Make
pub mod Break
