-- ===== src/Bond.antt =====
-- The bonding driver, 27/bond_main.c and 27/bonding.h.
pub mod State
pub mod Slaves
pub mod Active
pub mod Invariant
pub mod Ring
pub mod Vlans
pub mod Enslave
pub mod Release
pub mod Arp
pub mod Notify
pub mod Settings
pub mod Multicast
pub mod Monitor
