-- ===== src/Tests/Limits.antt =====
-- Concrete policies, samples and markers.
use dracon_system_disk_proce.Common.{
  inl, Instant, List, String, [], ap, arith, as_secs, codes, duration_since, false, from_secs, none,
  refl, some, string_eq, true, ℕ, ◌∷◌, ◌≡◌, ◌≢◌, ◌≤◌,
}
use dracon_system_disk_proce.Common.Signed.{negsuc, pos}
use dracon_system_disk_proce.DiskState.Freeze.{
  FreezePolicy, FreezeState, MarkerIo, guard_owns_sync_freeze_marker, is_prefix, manage_sync_freeze,
  marker_text,
}
use dracon_system_disk_proce.DiskState.Freeze.Ownership.{
  manage_sync_freeze_foreign, manage_sync_freeze_takes_over,
}
use dracon_system_disk_proce.Nice.{ProcSample, memory_pressure_footprint_mb}
use dracon_system_disk_proce.Policy.Disk.{DiskBands, normalize_disk}
use dracon_system_disk_proce.Policy.Disk.Order.{
  IsOrdered, normalize_disk-IsOrdered, normalize_disk_noisy,
}
use dracon_system_disk_proce.Policy.Float.{halves, nan, pos_inf}
use dracon_system_disk_proce.Policy.Guard.{GuardPolicy, normalize_guard_policy}
use dracon_system_disk_proce.Policy.Guard.Stable.{normalize_guard_policy_idem}
use dracon_system_disk_proce.Policy.Knobs.{band, below, ceil, floor}
use dracon_system_disk_proce.Policy.Limits.{
  CleanupLimits, MemoryLimits, ProcessLimits, normalize_memory,
}
use dracon_system_disk_proce.Policy.Limits.Ranges.{MemoryInRange, normalize_memory-InRange}
use dracon_system_disk_proce.Pressure.{after, no_pressure, stabilize_memory_pressure_at}
use dracon_system_disk_proce.Pressure.Hysteresis.{
  HeldSince, repeat, sustained_arrives, transition_held,
}

abbrev bands : DiskBands
bands = record {
  disk_early_warn_percent = 95;
  disk_warn_percent = 85;
  disk_action_percent = 80;
  disk_critical_percent = 120;
  proactive_cleanup_percent = 99;
  unfreeze_below_percent = 0;
  inode_warn_percent = 0;
  mem_available_warn_percent = 10;
  swap_used_warn_percent = 255;
}

-- Every threshold at its floor.
abbrev lowest : DiskBands
lowest = record bands { disk_warn_percent = 0; disk_action_percent = 0 }

abbrev wild_process : ProcessLimits
wild_process = record {
  process_cpu_percent = nan;
  process_rss_mb = 0;
  process_sustain_secs = 60;
  process_stuck_after_secs = 10;
  renice_value = negsuc 4;
  release_after_secs = 0;
  notify_cooldown_secs = 100000;
}

abbrev wild_memory : MemoryLimits
wild_memory = record {
  mem_psi_full_warn = pos_inf;
  mem_swapin_warn_pages_per_sec = 0;
  memory_pressure_sustain_secs = 0;
  tmux_persistence_max_save_age_secs = 0;
  service_memory_growth_window_secs = 100000;
  service_memory_growth_min_mb = 18446744073709551615;
  cap_offenders_cpu_percent = 400;
  disk_rapid_fill_gbph = nan;
}

abbrev reaping : CleanupLimits
reaping = record {
  guard_log_max_mb = 0;
  log_max_truncate_mb = 0;
  log_preserve_header_lines = 20000;
  cleanup_min_size_mb = 0;
  rust_target_max_age_days = 0;
  relocate_min_size_mb = 0;
  relocate_max_moves_per_pass = 0;
  reap_stale_dev_servers = true;
  reap_report_min_idle_hours = 0;
}

abbrev wild_policy : GuardPolicy
wild_policy = record {
  enabled = true;
  cadence = record {
    interval_secs = 0;
    auto_cleanup_interval_secs = 0;
    report_repeat_secs = 0;
    proactive_cleanup_interval_cycles = 0;
  };
  disk = bands;
  process = wild_process;
  memory = wild_memory;
  cleanup = reaping;
}

lowest_action : (normalize_disk lowest).0.disk_action_percent ≡ 1
unfolding normalize_disk floor ceil band below
lowest_action = refl

abbrev freezing : FreezePolicy
freezing = record { freeze_sync_at_action = true; unfreeze_below_percent = 80 }

abbrev disk_io : MarkerIo
disk_io = record { write_ok = true; left = none; read_ok = true; remove_ok = true }

-- The text of an operator's marker.
abbrev theirs : List ℕ
theirs = codes "operator"

abbrev thawed : FreezeState
thawed = record { sync_frozen = false; marker = some theirs; events = [] }

abbrev frozen : FreezeState
frozen = record { sync_frozen = true; marker = some theirs; events = [] }

not_ours : guard_owns_sync_freeze_marker disk_io theirs ≡ false
unfolding guard_owns_sync_freeze_marker is_prefix
not_ours = refl

abbrev small : ProcSample
small = record {
  pid = pos 9;
  ppid = pos 1;
  cpu_percent = halves 700;
  rss_mb = 3000;
  swap_mb = none;
  nice = negsuc 4;
  command = "rustc";
  args = "rustc";
  starttime = 3;
}

abbrev large : ProcSample
large = record small { rss_mb = 4000; swap_mb = some 6000 }

larger : memory_pressure_footprint_mb small ≤ memory_pressure_footprint_mb large
unfolding memory_pressure_footprint_mb
larger = omega arith

-- Two observations of "warn", thirty seconds apart.
abbrev warned : List (String × Instant)
warned = ("warn", from_secs 130) ∷ ("warn", from_secs 100) ∷ []

moved_to_warn :
    (stabilize_memory_pressure_at (after 60 warned) "warn" 60 (from_secs 160)).transitioned ≡ true
unfolding stabilize_memory_pressure_at after
moved_to_warn = refl

abbrev warn_name : String
warn_name = "warn"

never_warned : no_pressure.memory_pressure_candidate ≢ "warn"
never_warned e = let clash : true ≡ false = ap (λ s. string_eq.beq s "") e in absurd cc

warn_named : warn_name ≢ ""
warn_named e = let clash : true ≡ false = ap (λ s. string_eq.beq s "warn") e in absurd cc

normalize_disk-IsOrdered_example : IsOrdered (normalize_disk bands).0
normalize_disk-IsOrdered_example = normalize_disk-IsOrdered bands

normalize_disk_noisy_example :
    ((normalize_disk (normalize_disk lowest).0).0 ≡ (normalize_disk lowest).0)
    × ((normalize_disk (normalize_disk lowest).0).1 ≢ [])
normalize_disk_noisy_example = normalize_disk_noisy lowest lowest_action

normalize_memory-InRange_example : MemoryInRange (normalize_memory wild_memory).0
normalize_memory-InRange_example = normalize_memory-InRange wild_memory

normalize_guard_policy_idem_example :
    (normalize_guard_policy (normalize_guard_policy wild_policy).0).0
    ≡ (normalize_guard_policy wild_policy).0
normalize_guard_policy_idem_example = normalize_guard_policy_idem wild_policy

manage_sync_freeze_foreign_example : manage_sync_freeze freezing disk_io 70 "ok" frozen ≡ frozen
manage_sync_freeze_foreign_example =
    manage_sync_freeze_foreign freezing disk_io 70 "ok" frozen theirs refl refl not_ours

manage_sync_freeze_takes_over_example :
    let hot = manage_sync_freeze freezing disk_io 92 "action" thawed in
    let after = manage_sync_freeze freezing disk_io 70 "ok" hot in
    (hot.marker ≡ some (marker_text 92)) × (after.marker ≡ none) × (after.sync_frozen ≡ false)
manage_sync_freeze_takes_over_example =
    manage_sync_freeze_takes_over freezing disk_io 92 70 "action" "ok" thawed theirs refl refl refl
      refl refl refl refl (omega arith)

transition_held_example :
    (s : Instant) × HeldSince "warn" s warned × (60 ≤ as_secs (duration_since (from_secs 160) s))
transition_held_example =
    transition_held 60 warned "warn" (from_secs 160) (omega arith) (inl moved_to_warn)

sustained_arrives_example :
    (repeat "warn" 60
      (stabilize_memory_pressure_at no_pressure "warn" 60 (from_secs 100)).state
      ((from_secs 160) ∷ [])).memory_pressure_state
    ≡ "warn"
sustained_arrives_example =
    sustained_arrives no_pressure "warn" 60 (from_secs 100) (from_secs 160) [] warn_named
      never_warned (omega arith)
