-- ===== src/Runtime/Restore/Pendings.antt =====
-- The loop over the plan and the obligations of descendants.
use dracon_system_disk_proce.Common.{
  ◌≡◌, refl, ◌∙◌, Bool, true, false, List, [], ◌∷◌, String, if◌then◌else◌,
}
use dracon_system_disk_proce.Common.Signed.{ℤ}
use dracon_system_disk_proce.Process.{
  ProcessIdentity, ProcessIdentityStatus, matched, gone, mismatch, unavailable,
}
use dracon_system_disk_proce.Runtime.{
  Mitigations, NiceRestoreScope, legacy, memory, both, remove_nice_scope, remove_oom_bias,
  remove_cpu_cap, remove_legacy_renice, remove_memory_renice, remove_nice_adjustments,
}
use dracon_system_disk_proce.Runtime.Plan.{RuntimeAdjustment, nice, oom_bias, cpu_cap}
use dracon_system_disk_proce.Oom.{RestoreAnswer, changed, unchanged, failed}
use dracon_system_disk_proce.Runtime.Restore.{
  Host, ReniceAnswer, done, permanent, transient, restore_nice, restore_oom, restore_cap,
  after_renice, after_oom_restore, restore_adjustment, restore_all,
}

abbrev Same : Mitigations → Mitigations → Type 0
Same st st1 = st1.oom_pending_descendants ≡ st.oom_pending_descendants

Same-if :
    (b : Bool) (st st1 st2 : Mitigations)
    → Same st st1
    → Same st st2
    → Same st (if b then st1 else st2)
Same-if true st st1 st2 h g = h
Same-if false st st1 st2 h g = g

remove_nice_scope-Same :
    (st : Mitigations) (pid : ℤ) (scope : NiceRestoreScope)
    → Same st (remove_nice_scope st pid scope)
unfolding remove_nice_scope remove_legacy_renice remove_memory_renice remove_nice_adjustments
remove_nice_scope-Same st pid legacy = refl
remove_nice_scope-Same st pid memory = refl
remove_nice_scope-Same st pid both = refl

remove_oom_bias-Same : (st : Mitigations) (pid : ℤ) → Same st (remove_oom_bias st pid)
unfolding remove_oom_bias
remove_oom_bias-Same st pid = Same-if _ st _ _ refl refl

remove_cpu_cap-Same : (st : Mitigations) (pid : ℤ) → Same st (remove_cpu_cap st pid)
unfolding remove_cpu_cap
remove_cpu_cap-Same st pid = refl

module _ (h : Host) (st : Mitigations) (pid : ℤ) where
  after_renice-Same :
      (scope : NiceRestoreScope) (r : ReniceAnswer) → Same st (after_renice st pid scope r)
  after_renice-Same scope done = remove_nice_scope-Same st pid scope
  after_renice-Same scope permanent = remove_nice_scope-Same st pid scope
  after_renice-Same scope transient = refl

  restore_nice-Same :
      (original : ℤ) (scope : NiceRestoreScope) (s : ProcessIdentityStatus)
      → Same st (restore_nice h st pid original scope s)
  restore_nice-Same original scope matched =
      Same-if (h.can_restore_nice_for pid) st _ _ (after_renice-Same scope (h.renice pid original))
        (remove_nice_scope-Same st pid scope)
  restore_nice-Same original scope gone = remove_nice_scope-Same st pid scope
  restore_nice-Same original scope mismatch = remove_nice_scope-Same st pid scope
  restore_nice-Same original scope unavailable = refl

  after_oom_restore-Same : (r : RestoreAnswer) → Same st (after_oom_restore st pid r)
  after_oom_restore-Same changed = remove_oom_bias-Same st pid
  after_oom_restore-Same unchanged = remove_oom_bias-Same st pid
  after_oom_restore-Same failed = refl

  restore_oom-Same :
      (adj : ℤ) (id : ProcessIdentity) (s : ProcessIdentityStatus)
      → Same st (restore_oom h st pid adj id s)
  restore_oom-Same adj id matched = after_oom_restore-Same (h.proc.restore pid id adj)
  restore_oom-Same adj id gone = remove_oom_bias-Same st pid
  restore_oom-Same adj id mismatch = remove_oom_bias-Same st pid
  restore_oom-Same adj id unavailable = refl

  uncap-Same : (ok : Bool) → Same st (if ok then remove_cpu_cap st pid else st)
  uncap-Same ok = Same-if ok st _ _ (remove_cpu_cap-Same st pid) refl

  restore_cap-Same :
      (scope cgroup : String) (s : ProcessIdentityStatus)
      → Same st (restore_cap h st pid scope cgroup s)
  restore_cap-Same scope cgroup matched = uncap-Same (h.uncap pid scope cgroup true)
  restore_cap-Same scope cgroup gone = uncap-Same (h.uncap pid scope cgroup true)
  restore_cap-Same scope cgroup mismatch = uncap-Same (h.uncap pid scope cgroup false)
  restore_cap-Same scope cgroup unavailable = refl

restore_adjustment-Same :
    (h : Host) (st : Mitigations) (x : RuntimeAdjustment) → Same st (restore_adjustment h st x)
unfolding restore_adjustment
restore_adjustment-Same h st (nice pid original id scope) =
    restore_nice-Same h st pid original scope (h.proc.status pid id)
restore_adjustment-Same h st (oom_bias pid adj id) =
    restore_oom-Same h st pid adj id (h.proc.status pid id)
restore_adjustment-Same h st (cpu_cap pid scope cgroup id) =
    restore_cap-Same h st pid scope cgroup (h.proc.status pid id)

pub restore_all-Same :
    (h : Host) (st : Mitigations) (plan : List RuntimeAdjustment)
    → (restore_all h st plan).oom_pending_descendants ≡ st.oom_pending_descendants
unfolding restore_all
restore_all-Same h st [] = refl
restore_all-Same h st (x ∷ plan) =
    restore_all-Same h (restore_adjustment h st x) plan ∙ restore_adjustment-Same h st x
