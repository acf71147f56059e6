-- ===== src/Policy/Limits/Ranges.antt =====
-- The ranges of the process, memory and cleanup limits.
use dracon_system_disk_proce.Common.{
  ◌⊎◌, ℕ, false, ◌≤◌, ◌≡◌, refl, true, Bool-cases, inl, inr, arith, [], ◌/◌, ◌*◌, ◌^◌, u64_max,
}
use dracon_system_disk_proce.Common.Signed.{ℤ, pos, ◌≤ℤ◌}
use dracon_system_disk_proce.Policy.Float.{Within, halves}
use dracon_system_disk_proce.Policy.Knobs.{
  floor, silent-floor, silent-ceil, silent-band, knob_values, fband-Within, silent-fband,
  band_ℤ-range, silent-band_ℤ,
}
use dracon_system_disk_proce.Policy.Limits.{
  ProcessLimits, normalize_process, CleanupLimits, normalize_cleanup, MemoryLimits,
  normalize_memory,
}

-- `n` halves as an integer of units, the value of `halves n`.
abbrev units : ℕ → ℤ
units n = pos (n * 2 ^ 1073)

pub record ProcessInRange (p : ProcessLimits) : Type 0 where
  pub cpu : Within (units 2) (units 200000) p.process_cpu_percent
  pub rss : 64 ≤ p.process_rss_mb
  pub sustain : 5 ≤ p.process_sustain_secs
  pub stuck : p.process_sustain_secs ≤ p.process_stuck_after_secs
  pub renice : (pos 0 ≤ℤ p.renice_value) × (p.renice_value ≤ℤ pos 19)
  pub release : 5 ≤ p.release_after_secs
  pub cooldown : (5 ≤ p.notify_cooldown_secs) × (p.notify_cooldown_secs ≤ 86400)

pub record MemoryInRange (m : MemoryLimits) : Type 0 where
  pub psi : Within (units 0) (units 200) m.mem_psi_full_warn
  pub swapin : 1 ≤ m.mem_swapin_warn_pages_per_sec
  pub sustain : 30 ≤ m.memory_pressure_sustain_secs
  pub save_age :
      (60 ≤ m.tmux_persistence_max_save_age_secs) × (m.tmux_persistence_max_save_age_secs ≤ 86400)
  pub window :
      (60 ≤ m.service_memory_growth_window_secs) × (m.service_memory_growth_window_secs ≤ 86400)
  pub growth_pos : 1 ≤ m.service_memory_growth_min_mb
  -- The growth threshold in bytes fits a `u64`.
  pub growth_fits : m.service_memory_growth_min_mb * 1048576 ≤ u64_max
  pub cap : m.cap_offenders_cpu_percent ≤ 100
  pub fill : Within (units 1) (units 200000) m.disk_rapid_fill_gbph

-- The process limits end in their ranges from any value, a NaN threshold included: the stuck
-- threshold is not below the sustain threshold, and the base nice value is a legal one.
pub normalize_process-InRange : (p : ProcessLimits) → ProcessInRange (normalize_process p).0
unfolding normalize_process halves
normalize_process-InRange p = record {
  cpu = fband-Within _ (units 2) (units 200000) _ refl;
  rss = omega knob_values;
  sustain = omega knob_values;
  stuck = omega knob_values;
  renice = band_ℤ-range _ (pos 0) (pos 19) _ (omega arith);
  release = omega knob_values;
  cooldown = (omega knob_values, omega knob_values);
}

-- The memory limits end in their ranges from any value, a NaN or infinite threshold included, and
-- the growth threshold counted in bytes fits a `u64`.
pub normalize_memory-InRange : (m : MemoryLimits) → MemoryInRange (normalize_memory m).0
unfolding normalize_memory halves
normalize_memory-InRange m = record {
  psi = fband-Within _ (units 0) (units 200) _ refl;
  swapin = omega knob_values;
  sustain = omega knob_values;
  save_age = (omega knob_values, omega knob_values);
  window = (omega knob_values, omega knob_values);
  growth_pos = omega knob_values;
  growth_fits = omega knob_values;
  cap = omega knob_values;
  fill = fband-Within _ (units 1) (units 200000) _ refl;
}

process_settled : (p : ProcessLimits) → ProcessInRange p → normalize_process p ≡ (p, [])
unfolding normalize_process halves
process_settled p r =
    rw
      (
        silent-fband "process_cpu_percent" (units 2) (units 200000) p.process_cpu_percent r.cpu,
        silent-floor "process_rss_mb" 64 p.process_rss_mb r.rss,
        silent-floor "process_sustain_secs" 5 p.process_sustain_secs r.sustain,
        silent-floor "process_stuck_after_secs" p.process_sustain_secs p.process_stuck_after_secs
            r.stuck,
        silent-band_ℤ "renice_value" (pos 0) (pos 19) p.renice_value r.renice.0 r.renice.1,
        silent-floor "release_after_secs" 5 p.release_after_secs r.release,
        silent-floor "notify_cooldown_secs" 5 p.notify_cooldown_secs r.cooldown.0,
        silent-ceil "notify_cooldown_secs" 86400 p.notify_cooldown_secs r.cooldown.1,
      )
      refl

memory_settled : (m : MemoryLimits) → MemoryInRange m → normalize_memory m ≡ (m, [])
unfolding normalize_memory halves
memory_settled m r =
    rw
      (
        silent-fband "mem_psi_full_warn" (units 0) (units 200) m.mem_psi_full_warn r.psi,
        silent-floor "mem_swapin_warn_pages_per_sec" 1 m.mem_swapin_warn_pages_per_sec r.swapin,
        silent-floor "memory_pressure_sustain_secs" 30 m.memory_pressure_sustain_secs r.sustain,
        silent-band "tmux_persistence_max_save_age_secs" 60 86400
            m.tmux_persistence_max_save_age_secs r.save_age.0 r.save_age.1,
        silent-floor "service_memory_growth_window_secs" 60 m.service_memory_growth_window_secs
            r.window.0,
        silent-ceil "service_memory_growth_window_secs" 86400 m.service_memory_growth_window_secs
            r.window.1,
        silent-floor "service_memory_growth_min_mb" 1 m.service_memory_growth_min_mb r.growth_pos,
        silent-ceil "service_memory_growth_min_mb" (u64_max / 1048576)
            m.service_memory_growth_min_mb (omega arith),
        silent-ceil "cap_offenders_cpu_percent" 100 m.cap_offenders_cpu_percent r.cap,
        silent-fband "disk_rapid_fill_gbph" (units 1) (units 200000) m.disk_rapid_fill_gbph r.fill,
      )
      refl

-- A second pass over the process and memory limits changes nothing and reports nothing.
pub normalize_limits_idem :
    (p : ProcessLimits) (m : MemoryLimits)
    → (normalize_process (normalize_process p).0 ≡ ((normalize_process p).0, []))
      × (normalize_memory (normalize_memory m).0 ≡ ((normalize_memory m).0, []))
normalize_limits_idem p m =
    (process_settled _ (normalize_process-InRange p), memory_settled _ (normalize_memory-InRange m))

-- The idle floor of the reaper's policy: at least one hour when the destructive switch is set,
-- and the operator's own value, 0 included, when it is not. No other switch is touched.
pub normalize_cleanup_idle :
    (c : CleanupLimits)
    → (((c.reap_stale_dev_servers ≡ true)
          × (1 ≤ (normalize_cleanup c).0.reap_report_min_idle_hours))
        ⊎ ((c.reap_stale_dev_servers ≡ false)
            × ((normalize_cleanup c).0.reap_report_min_idle_hours ≡ c.reap_report_min_idle_hours)))
      × ((normalize_cleanup c).0.reap_stale_dev_servers ≡ c.reap_stale_dev_servers)
unfolding normalize_cleanup floor
normalize_cleanup_idle c = (
  elim (Bool-cases c.reap_stale_dev_servers) [
    | inl on ↦ inl (on, rw on (ground arith))
    | inr off ↦ inr (off, rw off refl)
  ],
  refl,
)
