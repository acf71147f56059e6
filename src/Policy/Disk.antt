-- ===== src/Policy/Disk.antt =====
-- The disk bands of `normalize_guard_policy_with_home`.
pub mod Order
use dracon_system_disk_proce.Common.{ℕ, List, ◌++◌, String}
use dracon_system_disk_proce.Policy.Knobs.{Adjusted, floor, ceil, band, below}

-- The percentages (`u8`) of `GuardPolicy` that the disk bands read.
pub record DiskBands : Type 0 where
  pub disk_early_warn_percent : ℕ
  pub disk_warn_percent : ℕ
  pub disk_action_percent : ℕ
  pub disk_critical_percent : ℕ
  pub proactive_cleanup_percent : ℕ
  pub unfreeze_below_percent : ℕ
  pub inode_warn_percent : ℕ
  pub mem_available_warn_percent : ℕ
  pub swap_used_warn_percent : ℕ

unfoldable pub normalize_disk : DiskBands → Adjusted DiskBands
normalize_disk d =
    let (warn, a1) = band "disk_warn_percent" 1 100 d.disk_warn_percent in
    let (early1, a2) = band "disk_early_warn_percent" 1 100 d.disk_early_warn_percent in
    let (early, a3) = ceil "disk_early_warn_percent" warn early1 in
    let (action1, a4) = floor "disk_action_percent" warn d.disk_action_percent in
    let (critical1, a5) = floor "disk_critical_percent" action1 d.disk_critical_percent in
    let (action, a6) = ceil "disk_action_percent" 100 action1 in
    let (critical, a7) = ceil "disk_critical_percent" 100 critical1 in
    let (proactive, a8) = below "proactive_cleanup_percent" action d.proactive_cleanup_percent in
    let (unfreeze1, a9) = band "unfreeze_below_percent" 1 100 d.unfreeze_below_percent in
    let (unfreeze, a10) = below "unfreeze_below_percent" action unfreeze1 in
    let (inode, a11) = band "inode_warn_percent" 1 100 d.inode_warn_percent in
    let (mem, a12) = band "mem_available_warn_percent" 1 100 d.mem_available_warn_percent in
    let (swap, a13) = band "swap_used_warn_percent" 1 100 d.swap_used_warn_percent in
    (
      record {
        disk_early_warn_percent = early;
        disk_warn_percent = warn;
        disk_action_percent = action;
        disk_critical_percent = critical;
        proactive_cleanup_percent = proactive;
        unfreeze_below_percent = unfreeze;
        inode_warn_percent = inode;
        mem_available_warn_percent = mem;
        swap_used_warn_percent = swap;
      },
      a1 ++ a2 ++ a3 ++ a4 ++ a5 ++ a6 ++ a7 ++ a8 ++ a9 ++ a10 ++ a11 ++ a12 ++ a13,
    )
