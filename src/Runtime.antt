-- ===== src/Runtime.antt =====
-- main.rs: the process mitigations that `GuardRuntimeState` holds, and how an entry is dropped.
pub mod Plan
pub mod Restore
pub mod Reload
pub mod Stale
use dracon_system_disk_proce.Common.{
  ℕ, ◌≡◌, Bool, true, false, not, Option, none, some, List, [], ◌∷◌, String, ◌==◌, if◌then◌else◌,
  Instant, any_of, nat_eq, pair_eq,
}
use dracon_system_disk_proce.Common.Signed.{ℤ, int_eq}
use dracon_system_disk_proce.Common.Table.{get, insert, remove, contains_key}
use dracon_system_disk_proce.Process.{ProcessIdentity, same_process_incarnation}

-- `LegacyReniceState` and `MemoryReniceState`, which have the same fields.
pub record ReniceState : Type 0 where
  pub original_nice : ℤ
  pub applied_nice : ℤ
  pub identity : ProcessIdentity

pub record OomPendingDescendant : Type 0 where
  pub root_pid : ℤ
  pub original_adj : ℤ
  pub identity : ProcessIdentity
  pub attempts : ℕ

-- A pid with the start time of its process.
abbrev pub Incarnation : Type 0
Incarnation = ℤ × ℕ

-- The fields of `GuardRuntimeState` that the mitigations use.
pub record Mitigations : Type 0 where
  pub reniced_pids : List (ℤ × ReniceState)
  pub cooled_since : List (ℤ × Instant)
  pub memory_reniced_pids : List (ℤ × ReniceState)
  pub memory_cooled_since : List (ℤ × Instant)
  pub oom_biased_pids : List (ℤ × (ℤ × ProcessIdentity))
  pub oom_known_descendants : List (ℤ × List Incarnation)
  pub oom_pending_descendants : List (Incarnation × OomPendingDescendant)
  pub oom_cooled_since : List (ℤ × Instant)
  pub oom_identity_unavailable_attempts : List (ℤ × ℕ)
  pub capped_pids : List (ℤ × (String × String × ProcessIdentity))
  pub cap_cooled_since : List (ℤ × Instant)
  pub cap_identity_unavailable_attempts : List (ℤ × ℕ)
  pub persist_mitigations : Bool
  pub mitigation_ledger_unavailable : Bool

-- `GuardRuntimeState::default()`, with the flag that the daemon keeps.
abbrev pub fresh : Bool → Mitigations
fresh persist = record {
  reniced_pids = [];
  cooled_since = [];
  memory_reniced_pids = [];
  memory_cooled_since = [];
  oom_biased_pids = [];
  oom_known_descendants = [];
  oom_pending_descendants = [];
  oom_cooled_since = [];
  oom_identity_unavailable_attempts = [];
  capped_pids = [];
  cap_cooled_since = [];
  cap_identity_unavailable_attempts = [];
  persist_mitigations = persist;
  mitigation_ledger_unavailable = false;
}

pub data NiceRestoreScope : Type 0 where
  legacy memory both : NiceRestoreScope

unfoldable pub remove_legacy_renice : Mitigations → ℤ → Mitigations
remove_legacy_renice st pid = record st {
  reniced_pids = remove st.reniced_pids pid;
  cooled_since = remove st.cooled_since pid;
}

unfoldable pub remove_memory_renice : Mitigations → ℤ → Mitigations
remove_memory_renice st pid = record st {
  memory_reniced_pids = remove st.memory_reniced_pids pid;
  memory_cooled_since = remove st.memory_cooled_since pid;
}

unfoldable pub remove_nice_adjustments : Mitigations → ℤ → Mitigations
unfolding remove_legacy_renice remove_memory_renice
remove_nice_adjustments st pid = remove_memory_renice (remove_legacy_renice st pid) pid

unfoldable pub remove_nice_scope : Mitigations → ℤ → NiceRestoreScope → Mitigations
unfolding remove_legacy_renice remove_memory_renice remove_nice_adjustments
remove_nice_scope st pid legacy = remove_legacy_renice st pid
remove_nice_scope st pid memory = remove_memory_renice st pid
remove_nice_scope st pid both = remove_nice_adjustments st pid

abbrev pub is_stale : Option ReniceState → ProcessIdentity → Bool
is_stale none current = false
is_stale (some entry) current = not (same_process_incarnation entry.identity current)

unfoldable pub drop_stale_nice_adjustments : Mitigations → ℤ → ProcessIdentity → Mitigations
unfolding remove_legacy_renice remove_memory_renice
drop_stale_nice_adjustments st pid current_identity =
    let st1 =
      if is_stale (get st.reniced_pids pid) current_identity
      then remove_legacy_renice st pid
      else st in
    if is_stale (get st1.memory_reniced_pids pid) current_identity
    then remove_memory_renice st1 pid
    else st1

unfoldable pub oom_root_has_pending_descendants : Mitigations → ℤ → Bool
oom_root_has_pending_descendants st pid =
    any_of (λ (e : Incarnation × OomPendingDescendant). e.1.root_pid == pid)
      st.oom_pending_descendants

unfoldable pub remove_oom_bias : Mitigations → ℤ → Mitigations
unfolding oom_root_has_pending_descendants
remove_oom_bias st pid =
    let st1 = record st {
      oom_biased_pids = remove st.oom_biased_pids pid;
      oom_cooled_since = remove st.oom_cooled_since pid;
      oom_identity_unavailable_attempts = remove st.oom_identity_unavailable_attempts pid;
    } in
    if not (oom_root_has_pending_descendants st1 pid)
    then record st1 { oom_known_descendants = remove st1.oom_known_descendants pid }
    else st1

unfoldable pub remove_cpu_cap : Mitigations → ℤ → Mitigations
remove_cpu_cap st pid = record st {
  capped_pids = remove st.capped_pids pid;
  cap_cooled_since = remove st.cap_cooled_since pid;
  cap_identity_unavailable_attempts = remove st.cap_identity_unavailable_attempts pid;
}
