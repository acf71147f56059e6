-- ===== src/Reap.antt =====
-- reap.rs and forgotten.rs: abandoned processes and forgotten process trees.
pub mod Proc
pub mod Table
pub mod Browser
pub mod Tree
pub mod Verify
pub mod Kill
pub mod Pass
