-- ===== src/Policy/Guard.antt =====
-- `normalize_guard_policy`: the sections in their order.
pub mod Stable
use dracon_system_disk_proce.Common.{ℕ, Bool, List, ◌++◌, String}
use dracon_system_disk_proce.Policy.Knobs.{Adjusted}
use dracon_system_disk_proce.Policy.Disk.{DiskBands, normalize_disk}
use dracon_system_disk_proce.Policy.Limits.{
  Cadence, normalize_cadence, ProcessLimits, normalize_process, MemoryLimits, normalize_memory,
  CleanupLimits, normalize_cleanup,
}

-- The knobs of `GuardPolicy` that are modelled, by section.
pub record GuardPolicy : Type 0 where
  pub enabled : Bool
  pub cadence : Cadence
  pub disk : DiskBands
  pub process : ProcessLimits
  pub memory : MemoryLimits
  pub cleanup : CleanupLimits

unfoldable pub normalize_guard_policy : GuardPolicy → Adjusted GuardPolicy
normalize_guard_policy policy =
    let (cadence, a1) = normalize_cadence policy.cadence in
    let (disk, a2) = normalize_disk policy.disk in
    let (process, a3) = normalize_process policy.process in
    let (memory, a4) = normalize_memory policy.memory in
    let (cleanup, a5) = normalize_cleanup policy.cleanup in
    (
      record policy {
        cadence = cadence;
        disk = disk;
        process = process;
        memory = memory;
        cleanup = cleanup;
      },
      a1 ++ a2 ++ a3 ++ a4 ++ a5,
    )
