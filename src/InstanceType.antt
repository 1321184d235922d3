-- ===== src/InstanceType.antt =====
-- pkg/providers/instancetype: what an instance type offers, reserves and costs, and which are blocked.
pub mod Kdump
pub mod Level
pub mod Capacity
pub mod Overhead
pub mod New
pub mod Offerings
pub mod Query
pub mod Listing
pub mod Blacklist
