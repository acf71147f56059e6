-- ===== src/Tests.antt =====
-- Concrete runs of the modelled code, and uses of the theorems on them.
pub mod Recovery
pub mod Leases
pub mod Limits
pub mod Watch
pub mod Services
pub mod Reaper
pub mod Stashing
pub mod Scratch
