-- ===== src/Tests.antt =====
-- Sample data, and the theorems at concrete inputs.
pub mod Received
pub mod Samples
mod Active
mod Arp
mod Client
mod Device
pub mod Enslave
mod Handover
mod HardClient
mod Ioctl
mod Monitor
mod Parameters
mod Ring
mod Run
mod Settings
mod Transmit
