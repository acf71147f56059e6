-- ===== src/Runtime/Restore.antt =====
-- `restore_runtime_adjustments_with_samples`: leases, sweep, plan and answer.
pub mod Removal
pub mod Effect
pub mod Kept
pub mod Pendings
pub mod Drained
use dracon_system_disk_proce.Common.{
  Bool, true, false, ◌&&◌, ◌≡◌, refl, List, [], ◌∷◌, String, if◌then◌else◌,
}
use dracon_system_disk_proce.Common.Signed.{ℤ}
use dracon_system_disk_proce.Nice.{ProcSample}
use dracon_system_disk_proce.Process.{
  ProcessIdentity, ProcessIdentityStatus, matched, gone, mismatch, unavailable,
}
use dracon_system_disk_proce.Runtime.{
  Mitigations, NiceRestoreScope, remove_nice_scope, remove_oom_bias, remove_cpu_cap,
}
use dracon_system_disk_proce.Runtime.Plan.{
  RuntimeAdjustment, nice, oom_bias, cpu_cap, runtime_adjustment_plan,
}
use dracon_system_disk_proce.Oom.{Answers, RestoreAnswer, changed, unchanged, failed}
use dracon_system_disk_proce.Oom.Sweep.{sweep_stranded_oom_descendants}

-- What the `renice` command answers, a failure split by `nice_restore_failure_is_permanent`.
pub data ReniceAnswer : Type 0 where
  done permanent transient : ReniceAnswer

-- What the system answers in one restoration.
pub record Host : Type 0 where
  pub proc : Answers
  pub can_restore_nice_for : ℤ → Bool
  pub renice : ℤ → ℤ → ReniceAnswer
  pub is_lease : String → Bool
  pub release : String → String → Bool
  pub uncap : ℤ → String → String → Bool → Bool

abbrev pub Capped : Type 0
Capped = ℤ × (String × String × ProcessIdentity)

-- The leases are collected before the first is released.
unfoldable pub release_leases : Host → List Capped → Mitigations → Mitigations
release_leases h [] st = st
release_leases h ((pid, (key, generation, identity)) ∷ t) st =
    release_leases h t
      (if h.is_lease key && h.release key generation then remove_cpu_cap st pid else st)

abbrev pub after_renice : Mitigations → ℤ → NiceRestoreScope → ReniceAnswer → Mitigations
after_renice st pid scope done = remove_nice_scope st pid scope
after_renice st pid scope permanent = remove_nice_scope st pid scope
after_renice st pid scope transient = st

abbrev pub restore_nice :
    Host → Mitigations → ℤ → ℤ → NiceRestoreScope → ProcessIdentityStatus → Mitigations
restore_nice h st pid original_nice scope matched =
    if h.can_restore_nice_for pid
    then after_renice st pid scope (h.renice pid original_nice)
    else remove_nice_scope st pid scope
restore_nice h st pid original_nice scope gone = remove_nice_scope st pid scope
restore_nice h st pid original_nice scope mismatch = remove_nice_scope st pid scope
restore_nice h st pid original_nice scope unavailable = st

abbrev pub after_oom_restore : Mitigations → ℤ → RestoreAnswer → Mitigations
after_oom_restore st pid changed = remove_oom_bias st pid
after_oom_restore st pid unchanged = remove_oom_bias st pid
after_oom_restore st pid failed = st

abbrev pub restore_oom :
    Host → Mitigations → ℤ → ℤ → ProcessIdentity → ProcessIdentityStatus → Mitigations
restore_oom h st pid orig_adj identity matched =
    after_oom_restore st pid (h.proc.restore pid identity orig_adj)
restore_oom h st pid orig_adj identity gone = remove_oom_bias st pid
restore_oom h st pid orig_adj identity mismatch = remove_oom_bias st pid
restore_oom h st pid orig_adj identity unavailable = st

abbrev pub restore_cap :
    Host → Mitigations → ℤ → String → String → ProcessIdentityStatus → Mitigations
restore_cap h st pid scope orig_cgroup matched =
    if h.uncap pid scope orig_cgroup true then remove_cpu_cap st pid else st
restore_cap h st pid scope orig_cgroup gone =
    if h.uncap pid scope orig_cgroup true then remove_cpu_cap st pid else st
restore_cap h st pid scope orig_cgroup mismatch =
    if h.uncap pid scope orig_cgroup false then remove_cpu_cap st pid else st
restore_cap h st pid scope orig_cgroup unavailable = st

-- One arm of the `for` loop.
unfoldable pub restore_adjustment : Host → Mitigations → RuntimeAdjustment → Mitigations
unfolding remove_nice_scope remove_oom_bias remove_cpu_cap
restore_adjustment h st (nice pid original_nice identity scope) =
    restore_nice h st pid original_nice scope (h.proc.status pid identity)
restore_adjustment h st (oom_bias pid orig_adj identity) =
    restore_oom h st pid orig_adj identity (h.proc.status pid identity)
restore_adjustment h st (cpu_cap pid scope orig_cgroup identity) =
    restore_cap h st pid scope orig_cgroup (h.proc.status pid identity)

unfoldable pub restore_all : Host → Mitigations → List RuntimeAdjustment → Mitigations
unfolding restore_adjustment
restore_all h st [] = st
restore_all h st (x ∷ xs) = restore_all h (restore_adjustment h st x) xs

abbrev pub is_empty {ℓ} : {A : Type ℓ} → List A → Bool
is_empty [] = true
is_empty (x ∷ xs) = false

abbrev pub nothing_tracked : Mitigations → Bool
nothing_tracked st =
    is_empty st.reniced_pids
    && (is_empty st.memory_reniced_pids
        && (is_empty st.oom_biased_pids
            && (is_empty st.oom_pending_descendants && is_empty st.capped_pids)))

-- The leases, then the sweep of the descendants.
unfoldable pub before_plan : Host → Mitigations → List ProcSample → Mitigations
unfolding release_leases sweep_stranded_oom_descendants
before_plan h st samples =
    (sweep_stranded_oom_descendants h.proc samples (release_leases h st.capped_pids st) []).0

unfoldable pub restore_runtime_adjustments_with_samples :
    Host → Mitigations → List ProcSample → Mitigations × Bool
unfolding before_plan restore_all runtime_adjustment_plan
restore_runtime_adjustments_with_samples h st samples =
    if st.mitigation_ledger_unavailable
    then (st, false)
    else let ready = before_plan h st samples in
      let left = restore_all h ready (runtime_adjustment_plan ready) in (left, nothing_tracked left)

pub restore_runtime_open :
    (h : Host) (st : Mitigations) (samples : List ProcSample)
    → st.mitigation_ledger_unavailable ≡ false
    → let left =
        restore_all h
          (before_plan h st samples)
          (runtime_adjustment_plan (before_plan h st samples)) in
      restore_runtime_adjustments_with_samples h st samples ≡ (left, nothing_tracked left)
unfolding restore_runtime_adjustments_with_samples
restore_runtime_open h st samples ledger = simp ledger

pub restore_runtime_shut :
    (h : Host) (st : Mitigations) (samples : List ProcSample)
    → st.mitigation_ledger_unavailable ≡ true
    → restore_runtime_adjustments_with_samples h st samples ≡ (st, false)
unfolding restore_runtime_adjustments_with_samples
restore_runtime_shut h st samples ledger = simp ledger
