-- ===== src/Policy/Guard/Stable.antt =====
-- Normalisation of a policy that `normalize_guard_policy` returned.
use dracon_system_disk_proce.Common.{ℕ, ◌≡◌, refl, inl, inr, [], String, arith, Bool-cases}
use dracon_system_disk_proce.Policy.Knobs.{floor, ceil}
use dracon_system_disk_proce.Policy.Disk.Order.{normalize_disk_idem}
use dracon_system_disk_proce.Policy.Limits.{
  Cadence, normalize_cadence, CleanupLimits, normalize_cleanup,
}
use dracon_system_disk_proce.Policy.Limits.Ranges.{normalize_limits_idem}
use dracon_system_disk_proce.Policy.Guard.{GuardPolicy, normalize_guard_policy}

floor-floor : (n : String) (lo v : ℕ) → floor n lo (floor n lo v).0 ≡ ((floor n lo v).0, [])
unfolding floor
floor-floor n lo v = ground arith

ceil-ceil : (n : String) (hi v : ℕ) → ceil n hi (ceil n hi v).0 ≡ ((ceil n hi v).0, [])
unfolding ceil
ceil-ceil n hi v = ground arith

normalize_cadence_idem :
    (c : Cadence) → normalize_cadence (normalize_cadence c).0 ≡ ((normalize_cadence c).0, [])
unfolding normalize_cadence
normalize_cadence_idem c =
    rw
      (
        floor-floor "interval_secs" 5 c.interval_secs,
        floor-floor "auto_cleanup_interval_secs" 60 c.auto_cleanup_interval_secs,
        floor-floor "report_repeat_secs" 60 c.report_repeat_secs,
        floor-floor "proactive_cleanup_interval_cycles" 1 c.proactive_cleanup_interval_cycles,
      )
      refl

normalize_cleanup_idem :
    (c : CleanupLimits) → normalize_cleanup (normalize_cleanup c).0 ≡ ((normalize_cleanup c).0, [])
unfolding normalize_cleanup
normalize_cleanup_idem c = elim (Bool-cases c.reap_stale_dev_servers) [
  | inl e ↦
      rw
        (
          floor-floor "guard_log_max_mb" 1 c.guard_log_max_mb,
          floor-floor "log_max_truncate_mb" 1 c.log_max_truncate_mb,
          ceil-ceil "log_preserve_header_lines" 10000 c.log_preserve_header_lines,
          floor-floor "cleanup_min_size_mb" 1 c.cleanup_min_size_mb,
          floor-floor "rust_target_max_age_days" 1 c.rust_target_max_age_days,
          floor-floor "relocate_min_size_mb" 1 c.relocate_min_size_mb,
          floor-floor "relocate_max_moves_per_pass" 1 c.relocate_max_moves_per_pass,
          e,
          floor-floor "reap_report_min_idle_hours" 1 c.reap_report_min_idle_hours,
        )
        refl
  | inr e ↦
      rw
        (
          floor-floor "guard_log_max_mb" 1 c.guard_log_max_mb,
          floor-floor "log_max_truncate_mb" 1 c.log_max_truncate_mb,
          ceil-ceil "log_preserve_header_lines" 10000 c.log_preserve_header_lines,
          floor-floor "cleanup_min_size_mb" 1 c.cleanup_min_size_mb,
          floor-floor "rust_target_max_age_days" 1 c.rust_target_max_age_days,
          floor-floor "relocate_min_size_mb" 1 c.relocate_min_size_mb,
          floor-floor "relocate_max_moves_per_pass" 1 c.relocate_max_moves_per_pass,
          e,
        )
        refl
]

-- A second pass over a whole policy changes no knob.
pub normalize_guard_policy_idem :
    (p : GuardPolicy)
    → (normalize_guard_policy (normalize_guard_policy p).0).0 ≡ (normalize_guard_policy p).0
unfolding normalize_guard_policy
normalize_guard_policy_idem p =
    let limits = normalize_limits_idem p.process p.memory in
    λ i. record p {
      cadence = (normalize_cadence_idem p.cadence i).0;
      disk = (normalize_disk_idem p.disk).0 i;
      process = (limits.0 i).0;
      memory = (limits.1 i).0;
      cleanup = (normalize_cleanup_idem p.cleanup i).0;
    }
