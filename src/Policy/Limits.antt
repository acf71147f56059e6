-- ===== src/Policy/Limits.antt =====
-- The cadence, process, memory, logging and cleanup limits of `normalize_guard_policy_with_home`.
pub mod Ranges
use dracon_system_disk_proce.Common.{ℕ, Bool, List, [], ◌++◌, String, u64_max, if◌then◌else◌, ◌/◌}
use dracon_system_disk_proce.Common.Signed.{ℤ, pos}
use dracon_system_disk_proce.Policy.Float.{Float, halves}
use dracon_system_disk_proce.Policy.Knobs.{Adjusted, floor, ceil, band, band_ℤ, fband}

pub record Cadence : Type 0 where
  pub interval_secs : ℕ
  pub auto_cleanup_interval_secs : ℕ
  pub report_repeat_secs : ℕ
  pub proactive_cleanup_interval_cycles : ℕ

unfoldable pub normalize_cadence : Cadence → Adjusted Cadence
normalize_cadence c =
    let (interval, a1) = floor "interval_secs" 5 c.interval_secs in
    let (cleanup, a2) = floor "auto_cleanup_interval_secs" 60 c.auto_cleanup_interval_secs in
    let (repeat, a3) = floor "report_repeat_secs" 60 c.report_repeat_secs in
    let (cycles, a4) =
      floor "proactive_cleanup_interval_cycles" 1 c.proactive_cleanup_interval_cycles in
    (
      record {
        interval_secs = interval;
        auto_cleanup_interval_secs = cleanup;
        report_repeat_secs = repeat;
        proactive_cleanup_interval_cycles = cycles;
      },
      a1 ++ a2 ++ a3 ++ a4,
    )

pub record ProcessLimits : Type 0 where
  pub process_cpu_percent : Float
  pub process_rss_mb : ℕ
  pub process_sustain_secs : ℕ
  pub process_stuck_after_secs : ℕ
  pub renice_value : ℤ
  pub release_after_secs : ℕ
  pub notify_cooldown_secs : ℕ

-- `process_stuck_after_secs` has the normalised `process_sustain_secs` for its floor.
pub normalize_process : ProcessLimits → Adjusted ProcessLimits
normalize_process p =
    let (cpu, a1) = fband "process_cpu_percent" (halves 2) (halves 200000) p.process_cpu_percent in
    let (rss, a2) = floor "process_rss_mb" 64 p.process_rss_mb in
    let (sustain, a3) = floor "process_sustain_secs" 5 p.process_sustain_secs in
    let (stuck, a4) = floor "process_stuck_after_secs" sustain p.process_stuck_after_secs in
    let (renice, a5) = band_ℤ "renice_value" (pos 0) (pos 19) p.renice_value in
    let (release, a6) = floor "release_after_secs" 5 p.release_after_secs in
    let (cooldown1, a7) = floor "notify_cooldown_secs" 5 p.notify_cooldown_secs in
    let (cooldown, a8) = ceil "notify_cooldown_secs" 86400 cooldown1 in
    (
      record {
        process_cpu_percent = cpu;
        process_rss_mb = rss;
        process_sustain_secs = sustain;
        process_stuck_after_secs = stuck;
        renice_value = renice;
        release_after_secs = release;
        notify_cooldown_secs = cooldown;
      },
      a1 ++ a2 ++ a3 ++ a4 ++ a5 ++ a6 ++ a7 ++ a8,
    )

pub record MemoryLimits : Type 0 where
  pub mem_psi_full_warn : Float
  pub mem_swapin_warn_pages_per_sec : ℕ
  pub memory_pressure_sustain_secs : ℕ
  pub tmux_persistence_max_save_age_secs : ℕ
  pub service_memory_growth_window_secs : ℕ
  pub service_memory_growth_min_mb : ℕ
  pub cap_offenders_cpu_percent : ℕ
  pub disk_rapid_fill_gbph : Float

pub normalize_memory : MemoryLimits → Adjusted MemoryLimits
normalize_memory m =
    let (psi, a1) = fband "mem_psi_full_warn" (halves 0) (halves 200) m.mem_psi_full_warn in
    let (swapin, a2) = floor "mem_swapin_warn_pages_per_sec" 1 m.mem_swapin_warn_pages_per_sec in
    let (sustain, a3) = floor "memory_pressure_sustain_secs" 30 m.memory_pressure_sustain_secs in
    let (age, a4) =
      band "tmux_persistence_max_save_age_secs" 60 86400 m.tmux_persistence_max_save_age_secs in
    let (window1, a5) =
      floor "service_memory_growth_window_secs" 60 m.service_memory_growth_window_secs in
    let (window, a6) = ceil "service_memory_growth_window_secs" 86400 window1 in
    let (growth1, a7) = floor "service_memory_growth_min_mb" 1 m.service_memory_growth_min_mb in
    let (growth, a8) = ceil "service_memory_growth_min_mb" (u64_max / 1048576) growth1 in
    let (cap, a9) = ceil "cap_offenders_cpu_percent" 100 m.cap_offenders_cpu_percent in
    let (fill, a10) =
      fband "disk_rapid_fill_gbph" (halves 1) (halves 200000) m.disk_rapid_fill_gbph in
    (
      record {
        mem_psi_full_warn = psi;
        mem_swapin_warn_pages_per_sec = swapin;
        memory_pressure_sustain_secs = sustain;
        tmux_persistence_max_save_age_secs = age;
        service_memory_growth_window_secs = window;
        service_memory_growth_min_mb = growth;
        cap_offenders_cpu_percent = cap;
        disk_rapid_fill_gbph = fill;
      },
      a1 ++ a2 ++ a3 ++ a4 ++ a5 ++ a6 ++ a7 ++ a8 ++ a9 ++ a10,
    )

pub record CleanupLimits : Type 0 where
  pub guard_log_max_mb : ℕ
  pub log_max_truncate_mb : ℕ
  pub log_preserve_header_lines : ℕ
  pub cleanup_min_size_mb : ℕ
  pub rust_target_max_age_days : ℕ
  pub relocate_min_size_mb : ℕ
  pub relocate_max_moves_per_pass : ℕ
  pub reap_stale_dev_servers : Bool
  pub reap_report_min_idle_hours : ℕ

unfoldable pub normalize_cleanup : CleanupLimits → Adjusted CleanupLimits
normalize_cleanup c =
    let (log_max, a1) = floor "guard_log_max_mb" 1 c.guard_log_max_mb in
    let (truncate, a2) = floor "log_max_truncate_mb" 1 c.log_max_truncate_mb in
    let (header, a3) = ceil "log_preserve_header_lines" 10000 c.log_preserve_header_lines in
    let (size, a4) = floor "cleanup_min_size_mb" 1 c.cleanup_min_size_mb in
    let (age, a5) = floor "rust_target_max_age_days" 1 c.rust_target_max_age_days in
    let (move_size, a6) = floor "relocate_min_size_mb" 1 c.relocate_min_size_mb in
    let (moves, a7) = floor "relocate_max_moves_per_pass" 1 c.relocate_max_moves_per_pass in
    let (idle, a8) =
      if c.reap_stale_dev_servers
      then floor "reap_report_min_idle_hours" 1 c.reap_report_min_idle_hours
      else (c.reap_report_min_idle_hours, []) in
    (
      record {
        guard_log_max_mb = log_max;
        log_max_truncate_mb = truncate;
        log_preserve_header_lines = header;
        cleanup_min_size_mb = size;
        rust_target_max_age_days = age;
        relocate_min_size_mb = move_size;
        relocate_max_moves_per_pass = moves;
        reap_stale_dev_servers = c.reap_stale_dev_servers;
        reap_report_min_idle_hours = idle;
      },
      a1 ++ a2 ++ a3 ++ a4 ++ a5 ++ a6 ++ a7 ++ a8,
    )
