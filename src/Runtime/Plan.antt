-- ===== src/Runtime/Plan.antt =====
-- `runtime_adjustment_plan`.
pub mod NiceTable
pub mod MemoryNice
pub mod Coverage
use dracon_system_disk_proce.Common.{
  Bool, true, false, Option, none, some, List, [], ◌∷◌, ◌++◌, String, if◌then◌else◌,
}
use mathlib.Core.Option
use dracon_system_disk_proce.Common.Signed.{ℤ, int_eq}
use dracon_system_disk_proce.Common.Table.{get, insert}
use dracon_system_disk_proce.Process.{ProcessIdentity, same_process_incarnation}
use dracon_system_disk_proce.Runtime.{
  Mitigations, ReniceState, NiceRestoreScope, legacy, memory, both,
}

pub data RuntimeAdjustment : Type 0 where
  nice : ℤ → ℤ → ProcessIdentity → NiceRestoreScope → RuntimeAdjustment
  oom_bias : ℤ → ℤ → ProcessIdentity → RuntimeAdjustment
  cpu_cap : ℤ → String → String → ProcessIdentity → RuntimeAdjustment

pub record NiceRestore : Type 0 where
  pub original_nice : ℤ
  pub identity : ProcessIdentity
  pub scope : NiceRestoreScope

abbrev pub or_default {ℓ} : {A : Type ℓ} → Option (List A) → List A
or_default none = []
or_default (some xs) = xs

-- `nice_restores.entry(pid).or_default().push(r)`
unfoldable pub push_restore :
    List (ℤ × List NiceRestore) → ℤ → NiceRestore → List (ℤ × List NiceRestore)
push_restore t pid r = insert t pid (or_default (get t pid) ++ (r ∷ []))

unfoldable pub add_legacy :
    List (ℤ × List NiceRestore) → List (ℤ × ReniceState) → List (ℤ × List NiceRestore)
unfolding push_restore
add_legacy t [] = t
add_legacy t ((pid, entry) ∷ entries) =
    add_legacy
      (push_restore t pid
        (record { original_nice = entry.original_nice; identity = entry.identity; scope = legacy }))
      entries

-- The first restore of the same incarnation becomes one for both limiters, if there is one.
unfoldable pub mark_both : ProcessIdentity → List NiceRestore → Option (List NiceRestore)
mark_both identity [] = none
mark_both identity (r ∷ rs) =
    if same_process_incarnation r.identity identity
    then some (record r { scope = both } ∷ rs)
    else Option.map (λ rest. r ∷ rest) (mark_both identity rs)

abbrev put_memory :
    List (ℤ × List NiceRestore)
    → ℤ
    → ReniceState
    → Option (List NiceRestore)
    → List (ℤ × List NiceRestore)
put_memory t pid entry (some rs) = insert t pid rs
put_memory t pid entry none =
    push_restore t pid
      (record { original_nice = entry.original_nice; identity = entry.identity; scope = memory })

unfoldable pub add_memory_entry :
    List (ℤ × List NiceRestore) → ℤ → ReniceState → List (ℤ × List NiceRestore)
unfolding push_restore mark_both
add_memory_entry t pid entry =
    put_memory t pid entry (mark_both entry.identity (or_default (get t pid)))

unfoldable pub add_memory :
    List (ℤ × List NiceRestore) → List (ℤ × ReniceState) → List (ℤ × List NiceRestore)
unfolding add_memory_entry
add_memory t [] = t
add_memory t ((pid, entry) ∷ entries) = add_memory (add_memory_entry t pid entry) entries

unfoldable pub nice_plan_of : ℤ → List NiceRestore → List RuntimeAdjustment
nice_plan_of pid [] = []
nice_plan_of pid (r ∷ rs) = nice pid r.original_nice r.identity r.scope ∷ nice_plan_of pid rs

unfoldable pub nice_plan : List (ℤ × List NiceRestore) → List RuntimeAdjustment
unfolding nice_plan_of
nice_plan [] = []
nice_plan ((pid, rs) ∷ t) = nice_plan_of pid rs ++ nice_plan t

unfoldable pub oom_plan : List (ℤ × (ℤ × ProcessIdentity)) → List RuntimeAdjustment
oom_plan [] = []
oom_plan ((pid, (orig_adj, identity)) ∷ t) = oom_bias pid orig_adj identity ∷ oom_plan t

unfoldable pub cap_plan : List (ℤ × (String × String × ProcessIdentity)) → List RuntimeAdjustment
cap_plan [] = []
cap_plan ((pid, (scope, orig_cgroup, identity)) ∷ t) =
    cpu_cap pid scope orig_cgroup identity ∷ cap_plan t

unfoldable pub runtime_adjustment_plan : Mitigations → List RuntimeAdjustment
unfolding add_legacy add_memory nice_plan oom_plan cap_plan
runtime_adjustment_plan st =
    nice_plan (add_memory (add_legacy [] st.reniced_pids) st.memory_reniced_pids)
    ++ (oom_plan st.oom_biased_pids ++ cap_plan st.capped_pids)
