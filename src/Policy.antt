-- ===== src/Policy.antt =====
-- policy.rs: the `[guard]` section of the policy and the legal range of each of its knobs.
pub mod Knobs
pub mod Float
pub mod Disk
pub mod Limits
pub mod Guard
