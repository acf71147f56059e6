-- ===== src/Oom.antt =====
-- main.rs and oom_restore.rs: steering of the kernel's OOM killer by `oom_score_adj`.
pub mod Sweep
pub mod Pending
pub mod Adopt
pub mod Fields
pub mod Drain
pub mod File
use dracon_system_disk_proce.Common.{
  ℕ, ◌≡◌, Bool, true, false, not, ◌||◌, Option, none, some, List, [], ◌∷◌, String, if◌then◌else◌,
  any_of, codes,
}
use dracon_system_disk_proce.Common.Signed.{ℤ, pos, negsuc, leb_ℤ, beq_ℤ}
use dracon_system_disk_proce.DiskState.Freeze.{is_prefix}
use dracon_system_disk_proce.Process.{ProcessIdentity, ProcessIdentityStatus}

abbrev pub oom_bias_target_adj : ℤ
oom_bias_target_adj = pos 250

-- -500
abbrev pub oom_protected_adj : ℤ
oom_protected_adj = negsuc 499

unfoldable pub oom_bias_target : ℤ → Option ℤ
oom_bias_target current =
    if leb_ℤ oom_bias_target_adj current || leb_ℤ current oom_protected_adj
    then none
    else some oom_bias_target_adj

unfoldable pub recorded_bias_is_stale : Option ℤ → Bool
recorded_bias_is_stale none = false
recorded_bias_is_stale (some live) = not (beq_ℤ live oom_bias_target_adj)

abbrev kernel_process_prefixes : List String
kernel_process_prefixes =
    "kworker" ∷ "ksoftirqd" ∷ "kthreadd" ∷ "kswapd" ∷ "kcompactd" ∷ "rcu_" ∷ "kdevtmpfs" ∷ "kblockd"
    ∷ "khugepaged" ∷ "ksmd" ∷ "kernfs" ∷ "kauditd" ∷ "kstrp" ∷ "mm_percpu" ∷ "oom_reaper" ∷ "kvm"
    ∷ "ktrain" ∷ "kthrotld" ∷ "scsi_" ∷ "nvme" ∷ "irq/" ∷ "watchdog" ∷ []

unfoldable pub is_kernel_process : String → Bool
is_kernel_process command =
    any_of (λ (prefix : String). is_prefix (codes prefix) (codes command)) kernel_process_prefixes

-- What `oom_restore::restore` answers.
pub data RestoreAnswer : Type 0 where
  changed unchanged failed : RestoreAnswer

-- What `/proc` and the ledger file answer in one pass. The answers do not change within the pass.
pub record Answers : Type 0 where
  pub status : ℤ → ProcessIdentity → ProcessIdentityStatus
  pub is_zombie : ℤ → Bool
  pub read_comm : ℤ → Option String
  pub restore : ℤ → ProcessIdentity → ℤ → RestoreAnswer
  pub persist : Bool
