-- ===== src/Tests/Recovery.antt =====
-- Concrete runs of the recovery of process adjustments.
use dracon_system_disk_proce.Runtime.{
  drop_stale_nice_adjustments, remove_legacy_renice, remove_memory_renice,
}
use dracon_system_disk_proce.Process.{same_process_incarnation}
use dracon_system_disk_proce.Common.Table.{remove}
use dracon_system_disk_proce.Common.{
  elem, Bool, List, String, [], any_of, false, nat_eq, none, pair_eq, refl, some, string_eq, true,
  ◌∷◌, ◌≡◌, ◌≢◌, ◌⊎◌,
}
use dracon_system_disk_proce.Common.Signed.{int_eq, pos, ℤ}
use dracon_system_disk_proce.Common.Table.{get}
use dracon_system_disk_proce.DiskState.Freeze.{is_prefix}
use dracon_system_disk_proce.Nice.{ProcSample}
use dracon_system_disk_proce.Oom.{Answers, changed, failed, is_kernel_process}
use dracon_system_disk_proce.Oom.Adopt.{sweep_keeps_debts}
use dracon_system_disk_proce.Oom.Drain.{sweep-drains}
use dracon_system_disk_proce.Oom.File.{AdjFile, Guarded, restore, restore-Guarded}
use dracon_system_disk_proce.Oom.Pending.{IsDebt}
use dracon_system_disk_proce.Oom.Sweep.{deferred, pending_fate, sweep_stranded_oom_descendants}
use dracon_system_disk_proce.Policy.Float.{halves}
use dracon_system_disk_proce.Policy.Guard.{GuardPolicy, normalize_guard_policy}
use dracon_system_disk_proce.Process.{ProcessIdentity, matched, unavailable}
use dracon_system_disk_proce.Runtime.{
  Incarnation, Mitigations, OomPendingDescendant, ReniceState, fresh,
}
use dracon_system_disk_proce.Runtime.Reload.{
  reload_keeps_unread, Binaries, restore_runtime_adjustments, applied, deferred, reload,
  reload_follows_restoration,
}
use dracon_system_disk_proce.Runtime.Restore.{
  Host, done, nothing_tracked, restore_runtime_adjustments_with_samples, transient,
}
use dracon_system_disk_proce.Runtime.Restore.Drained.{restore_runtime_drains}
use dracon_system_disk_proce.Runtime.Restore.Removal.{bias, cap, look}
use dracon_system_disk_proce.Runtime.Restore.Kept.{restore_runtime_keeps_unread}

abbrev node : ProcessIdentity
node = record { comm = "node"; starttime = 7 }

abbrev niced : ReniceState
niced = record { original_nice = pos 0; applied_nice = pos 10; identity = node }

abbrev debt : OomPendingDescendant
debt = record { root_pid = pos 40; original_adj = pos 0; identity = node; attempts = 3 }

abbrev debt_key : Incarnation
debt_key = (pos 60, 7)

-- A niced and biased root, its niced memory twin, a capped process and a debt of a descendant.
abbrev adjusted : Mitigations
adjusted = record (fresh true) {
  reniced_pids = (pos 40, niced) ∷ [];
  memory_reniced_pids = (pos 40, niced) ∷ (pos 41, niced) ∷ [];
  oom_biased_pids = (pos 40, (pos 0, node)) ∷ [];
  oom_pending_descendants = (debt_key, debt) ∷ [];
  capped_pids = (pos 42, ("dracon-cap.service", "app.slice", node)) ∷ [];
}

abbrev answering : Answers
answering = record {
  status = λ pid id. matched;
  is_zombie = λ pid. false;
  read_comm = λ pid. some "node";
  restore = λ pid id adj. changed;
  persist = true;
}

-- `/proc` cannot be read.
abbrev blind : Answers
blind = record answering { status = λ pid id. unavailable }

abbrev child : ProcSample
child = record {
  pid = pos 61;
  ppid = pos 40;
  cpu_percent = halves 4;
  rss_mb = 100;
  swap_mb = none;
  nice = pos 0;
  command = "node";
  args = "node build";
  starttime = 9;
}

abbrev rows : List ProcSample
rows = child ∷ []

abbrev well : Host
well = record {
  proc = answering;
  can_restore_nice_for = λ pid. true;
  renice = λ pid value. done;
  is_lease = λ key. false;
  release = λ key generation. true;
  uncap = λ pid scope cgroup move. true;
}

abbrev unread : Host
unread = record well { proc = blind }

abbrev open_file : AdjFile
open_file = record {
  opens = true;
  status = matched;
  value = some (pos 250);
  takes_write = true;
  reads_back = λ v. some v;
}

abbrev policy_on : GuardPolicy
policy_on = record {
  enabled = true;
  cadence = record {
    interval_secs = 30;
    auto_cleanup_interval_secs = 300;
    report_repeat_secs = 600;
    proactive_cleanup_interval_cycles = 10;
  };
  disk = record {
    disk_early_warn_percent = 80;
    disk_warn_percent = 85;
    disk_action_percent = 90;
    disk_critical_percent = 95;
    proactive_cleanup_percent = 75;
    unfreeze_below_percent = 80;
    inode_warn_percent = 90;
    mem_available_warn_percent = 10;
    swap_used_warn_percent = 80;
  };
  process = record {
    process_cpu_percent = halves 160;
    process_rss_mb = 2048;
    process_sustain_secs = 60;
    process_stuck_after_secs = 300;
    renice_value = pos 10;
    release_after_secs = 120;
    notify_cooldown_secs = 900;
  };
  memory = record {
    mem_psi_full_warn = halves 20;
    mem_swapin_warn_pages_per_sec = 1000;
    memory_pressure_sustain_secs = 60;
    tmux_persistence_max_save_age_secs = 1800;
    service_memory_growth_window_secs = 600;
    service_memory_growth_min_mb = 128;
    cap_offenders_cpu_percent = 50;
    disk_rapid_fill_gbph = halves 40;
  };
  cleanup = record {
    guard_log_max_mb = 50;
    log_max_truncate_mb = 100;
    log_preserve_header_lines = 100;
    cleanup_min_size_mb = 100;
    rust_target_max_age_days = 7;
    relocate_min_size_mb = 500;
    relocate_max_moves_per_pass = 3;
    reap_stale_dev_servers = true;
    reap_report_min_idle_hours = 0;
  };
}

named_node :
    (pid : ℤ) → (comm : String) × (some "node" ≡ some comm) × (is_kernel_process comm ≡ false)
unfolding is_kernel_process is_prefix any_of
named_node pid = ("node", refl, refl)

identified_matched : (pid : ℤ) (id : ProcessIdentity) → answering.status pid id ≢ unavailable
identified_matched pid id = λ e. cc

written_changed : (pid : ℤ) (id : ProcessIdentity) (adj : ℤ) → answering.restore pid id adj ≢ failed
written_changed pid id adj = λ e. cc

niced_done : (pid value : ℤ) → well.renice pid value ≢ transient
niced_done pid value = λ e. cc

uncapped_all :
    (pid : ℤ) (scope cgroup : String) (move : Bool) → well.uncap pid scope cgroup move ≡ true
uncapped_all pid scope cgroup move = refl

not_cap : bias ≢ cap
not_cap = λ e. cc

held_bias : look bias (pos 40) adjusted ≡ some (pos 0, node)
unfolding get
held_bias = refl

owed : get adjusted.oom_pending_descendants debt_key ≡ some debt
unfolding get
owed = refl

abbrev both_found : Binaries
both_found = record { renice = true; systemctl = true }

reload_follows_restoration_example :
    let (left, restored) = restore_runtime_adjustments both_found well adjusted rows in
    let ((g, r), o) = reload both_found well policy_on adjusted policy_on rows in
    ((o ≡ deferred)
      × (g ≡ policy_on)
      × (r ≡ left)
      × (policy_on.enabled ≡ true)
      × ((restored ≡ false) ⊎ (left.mitigation_ledger_unavailable ≡ true)))
    ⊎ ((o ≡ applied)
        × (g ≡ (normalize_guard_policy policy_on).0)
        × (((r ≡ fresh left.persist_mitigations) × (nothing_tracked left ≡ true))
            ⊎ ((r ≡ left) × (policy_on.enabled ≡ false))))
reload_follows_restoration_example =
    reload_follows_restoration both_found well policy_on policy_on adjusted rows

reload_keeps_unread_example :
    let ((g, r), o) = reload both_found unread policy_on adjusted policy_on rows in
    (look bias (pos 40) r ≡ some (pos 0, node))
    × (((o ≡ deferred) × (g ≡ policy_on) × (policy_on.enabled ≡ true))
        ⊎ ((o ≡ applied)
            × (g ≡ (normalize_guard_policy policy_on).0)
            × (policy_on.enabled ≡ false)))
reload_keeps_unread_example =
    reload_keeps_unread both_found unread policy_on policy_on adjusted rows (pos 40) bias
      (pos 0, node) (λ id. refl) not_cap held_bias

restore_runtime_drains_example :
    let (left, restored) = restore_runtime_adjustments_with_samples well adjusted rows in
    (restored ≡ true) × (nothing_tracked left ≡ true)
restore_runtime_drains_example =
    restore_runtime_drains well identified_matched named_node written_changed refl niced_done
      uncapped_all adjusted rows refl

restore_runtime_keeps_unread_example :
    let (left, restored) = restore_runtime_adjustments_with_samples unread adjusted rows in
    (look bias (pos 40) left ≡ some (pos 0, node)) × (restored ≡ false)
restore_runtime_keeps_unread_example =
    restore_runtime_keeps_unread unread (pos 40) (λ id. refl) bias adjusted rows (pos 0, node)
      not_cap held_bias

sweep_keeps_debts_example :
    let left =
      get
        (sweep_stranded_oom_descendants blind rows adjusted []).0.oom_pending_descendants
        debt_key in
    ((blind.persist ≡ false) × (left ≡ some debt))
    ⊎ ((blind.persist ≡ true)
        × (((pending_fate blind [] debt_key.0 debt ≡ deferred) × IsDebt blind [] debt_key debt left)
            ⊎ ((pending_fate blind [] debt_key.0 debt ≢ deferred) × (left ≡ none))))
sweep_keeps_debts_example = sweep_keeps_debts blind rows [] adjusted debt_key debt owed

-- `sshd` is exempt, `node` is not.
node_not_exempt :
    (pid : ℤ)
    → (comm : String) × (some "node" ≡ some comm)
      × (is_kernel_process comm ≡ false)
      × (elem comm ("sshd" ∷ []) ≡ false)
unfolding is_kernel_process is_prefix any_of elem
node_not_exempt pid = ("node", refl, refl, refl)

sweep-drains_example :
    (sweep_stranded_oom_descendants answering rows adjusted ("sshd" ∷ [])).0.oom_pending_descendants
    ≡ []
sweep-drains_example =
    sweep-drains answering ("sshd" ∷ []) identified_matched node_not_exempt written_changed refl
      rows adjusted

restore-Guarded_example : Guarded open_file (pos 0) (restore open_file (pos 0))
restore-Guarded_example = restore-Guarded open_file (pos 0)

-- A process that took over the pid.
abbrev newcomer : ProcessIdentity
newcomer = record { comm = "cargo"; starttime = 8 }

newcomer_untracked :
    (drop_stale_nice_adjustments adjusted (pos 40) newcomer).memory_reniced_pids
    ≡ (pos 41, niced) ∷ []
unfolding drop_stale_nice_adjustments remove_legacy_renice remove_memory_renice
    same_process_incarnation get remove
newcomer_untracked = refl
