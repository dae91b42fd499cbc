-- ===== src/Net.antt =====
-- The parts of the network core that the driver works with, 27/dev.c.
pub mod Device
pub mod Receive
