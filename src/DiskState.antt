-- ===== src/DiskState.antt =====
-- main.rs: the disk state, and the marker that freezes `dracon-sync` while the disk is full.
pub mod Bands
pub mod Freeze
use dracon_system_disk_proce.Common.{ℕ, String, leb, if◌then◌else◌}
use dracon_system_disk_proce.Policy.Disk.{DiskBands}

unfoldable pub disk_state : ℕ → DiskBands → String
disk_state used guard =
    if leb guard.disk_critical_percent used
    then "critical"
    else if leb guard.disk_action_percent used
    then "action"
    else if leb guard.disk_warn_percent used
    then "warn"
    else "ok"
