-- ===== src/Tests/Leases.antt =====
-- Concrete CPU leases.
use dracon_system_disk_proce.Common.{String, none, refl, some, string_eq, true, ◌≡◌, ◌≢◌, ◌⊎◌}
use dracon_system_disk_proce.Lease.{Lease, World, verified}
use dracon_system_disk_proce.Lease.Cap.{
  Answers, apply_checked, arm_and_apply, cap_new, cap_prepared,
}
use dracon_system_disk_proce.Lease.Cap.Backed.{SafeDuring}
use dracon_system_disk_proce.Lease.Cap.Existing.{
  Reconciled, cap_prepared_backed, cap_prepared_reconciles,
}
use dracon_system_disk_proce.Lease.Release.{ReleaseAnswers, release_with}
use dracon_system_disk_proce.Lease.Release.Compared.{Compared, release_with_compares}

abbrev lent : Lease
lent = record {
  unit = "tmux-spawn-1.scope";
  invocation = "inv";
  original = 18446744073709551615;
  applied = 500000;
  generation = "g1";
  timer = "t1";
  boot_id = "boot";
  armed = true;
  applied_verified = true;
  expires_at_unix_secs = 2000;
}

abbrev uncapped : World
uncapped = record { quota = 18446744073709551615; stored = none; timer = none }

abbrev capped : World
capped = record { quota = 500000; stored = some lent; timer = some "t1" }

-- Every call of `cap_prepared` succeeds.
abbrev granted : Answers
granted = record {
  invocation = some "inv";
  active_state = some "active";
  locked = true;
  readable = true;
  quota_reads = true;
  old_timer_state = some "active";
  remove_file = true;
  save_reused = verified;
  set_original = verified;
  now = 1000;
  generation = "g1";
  timer = "t1";
  save_intent = verified;
  arm = true;
  timer_state = some "active";
  save_armed = verified;
  delegate = some "no";
  workload_valid = true;
  operator = none;
  quota_reads_again = true;
  invocation_again = some "inv";
  now_again = 1001;
  set_applied = verified;
  save_applied = verified;
}

-- Every call succeeds, and the unit is loaded with this invocation.
abbrev all_well : String → ReleaseAnswers
all_well invocation = record {
  locked = true;
  readable = true;
  load_state = some "loaded";
  invocation = some invocation;
  quota_reads = true;
  set_original = verified;
  remove_file = true;
  stops = true;
}

-- A granted cap lends half a CPU, and says so.
cap_granted : (cap_prepared granted uncapped "boot" "tmux-spawn-1.scope" 50 1000).0.quota ≡ 500000
unfolding cap_prepared cap_new arm_and_apply apply_checked
cap_granted = refl

cap_prepared_backed_example :
    SafeDuring granted uncapped (cap_prepared granted uncapped "boot" "tmux-spawn-1.scope" 50 1000)
cap_prepared_backed_example =
    cap_prepared_backed granted uncapped "boot" "tmux-spawn-1.scope" 50 1000 refl

cap_prepared_reconciles_example :
    Reconciled capped lent (cap_prepared granted capped "boot" "tmux-spawn-1.scope" 50 1000)
cap_prepared_reconciles_example =
    cap_prepared_reconciles granted capped "boot" "tmux-spawn-1.scope" 50 1000 lent refl

release_with_compares_example :
    let r = release_with (all_well "inv") capped "boot" "g1" in
    ((lent.generation ≡ "g1") × Compared capped lent r)
    ⊎ ((lent.generation ≢ "g1") × (r.0 ≡ capped))
release_with_compares_example = release_with_compares (all_well "inv") capped lent refl "boot" "g1"
