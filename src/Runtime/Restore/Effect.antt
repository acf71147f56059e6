-- ===== src/Runtime/Restore/Effect.antt =====
-- The loop over the plan and the tables of adjusted processes.
use dracon_system_disk_proce.Common.{
  ◌≡◌, refl, ◌∙◌, inl, inr, Bool, true, false, ◌&&◌, ◌||◌, Option, none, List, [], ◌∷◌, String,
  ◌==◌, if◌then◌else◌, Bool-cases, any_of,
}
use dracon_system_disk_proce.Common.Signed.{ℤ, int_eq}
use dracon_system_disk_proce.Process.{
  ProcessIdentity, ProcessIdentityStatus, matched, gone, mismatch, unavailable,
}
use dracon_system_disk_proce.Runtime.{Mitigations, NiceRestoreScope, remove_cpu_cap}
use dracon_system_disk_proce.Runtime.Plan.{RuntimeAdjustment, nice, oom_bias, cpu_cap}
use dracon_system_disk_proce.Oom.{RestoreAnswer, changed, unchanged, failed}
use dracon_system_disk_proce.Runtime.Restore.{
  Host, ReniceAnswer, done, permanent, transient, restore_nice, restore_oom, restore_cap,
  after_renice, after_oom_restore, restore_adjustment, restore_all,
}
use dracon_system_disk_proce.Runtime.Restore.Removal.{
  Limiter, cap_ends, covers, covers_bias, covers_cap, ends_tracking, in_scope, look,
  look-remove_cpu_cap, look-remove_nice_scope, look-remove_oom_bias, nice_ends, oom_ends,
  renice_ends, restore_ends,
}

-- An entry that a test removes, under a second test.
module _ (f : Limiter) (h : Host) (k : ℤ) (st : Mitigations) where
  abbrev Left : Bool → Bool → Mitigations → Type 0
  Left mine ends st1 = look f k st1 ≡ (if mine && ends then none else look f k st)

  kept : (mine : Bool) → Left mine false st
  kept true = refl
  kept false = refl

  ended :
      (mine : Bool) (st1 : Mitigations)
      → look f k st1 ≡ (if mine then none else look f k st)
      → Left mine true st1
  ended true st1 e = e
  ended false st1 e = e

  restore_nice-Left :
      (pid original : ℤ) (scope : NiceRestoreScope) (s : ProcessIdentityStatus)
      → Left
          (in_scope f scope && pid == k)
          (nice_ends h pid original s)
          (restore_nice h st pid original scope s)
  restore_nice-Left pid original scope gone =
      ended (in_scope f scope && pid == k) _ (look-remove_nice_scope f st pid k scope)
  restore_nice-Left pid original scope mismatch =
      ended (in_scope f scope && pid == k) _ (look-remove_nice_scope f st pid k scope)
  restore_nice-Left pid original scope unavailable = kept (in_scope f scope && pid == k)
  restore_nice-Left pid original scope matched = elim (Bool-cases (h.can_restore_nice_for pid)) [
    | inr never ↦
        rw never (ended (in_scope f scope && pid == k) _ (look-remove_nice_scope f st pid k scope))
    | inl can ↦ rw can (by_answer (h.renice pid original))
  ]
    where
      by_answer :
          (r : ReniceAnswer)
          → Left (in_scope f scope && pid == k) (renice_ends r) (after_renice st pid scope r)
      by_answer done =
          ended (in_scope f scope && pid == k) _ (look-remove_nice_scope f st pid k scope)
      by_answer permanent =
          ended (in_scope f scope && pid == k) _ (look-remove_nice_scope f st pid k scope)
      by_answer transient = kept (in_scope f scope && pid == k)

  after_oom_restore-Left :
      (pid : ℤ) (r : RestoreAnswer)
      → Left (covers_bias f pid k) (restore_ends r) (after_oom_restore st pid r)
  after_oom_restore-Left pid changed =
      ended (covers_bias f pid k) _ (look-remove_oom_bias f st pid k)
  after_oom_restore-Left pid unchanged =
      ended (covers_bias f pid k) _ (look-remove_oom_bias f st pid k)
  after_oom_restore-Left pid failed = kept (covers_bias f pid k)

  restore_oom-Left :
      (pid adj : ℤ) (id : ProcessIdentity) (s : ProcessIdentityStatus)
      → Left (covers_bias f pid k) (oom_ends h pid adj id s) (restore_oom h st pid adj id s)
  restore_oom-Left pid adj id matched = after_oom_restore-Left pid (h.proc.restore pid id adj)
  restore_oom-Left pid adj id gone = ended (covers_bias f pid k) _ (look-remove_oom_bias f st pid k)
  restore_oom-Left pid adj id mismatch =
      ended (covers_bias f pid k) _ (look-remove_oom_bias f st pid k)
  restore_oom-Left pid adj id unavailable = kept (covers_bias f pid k)

  uncapped-Left :
      (pid : ℤ) (ok : Bool)
      → Left (covers_cap f pid k) ok (if ok then remove_cpu_cap st pid else st)
  uncapped-Left pid true = ended (covers_cap f pid k) _ (look-remove_cpu_cap f st pid k)
  uncapped-Left pid false = kept (covers_cap f pid k)

  restore_cap-Left :
      (pid : ℤ) (scope cgroup : String) (s : ProcessIdentityStatus)
      → Left
          (covers_cap f pid k)
          (cap_ends h pid scope cgroup s)
          (restore_cap h st pid scope cgroup s)
  restore_cap-Left pid scope cgroup matched = uncapped-Left pid (h.uncap pid scope cgroup true)
  restore_cap-Left pid scope cgroup gone = uncapped-Left pid (h.uncap pid scope cgroup true)
  restore_cap-Left pid scope cgroup mismatch = uncapped-Left pid (h.uncap pid scope cgroup false)
  restore_cap-Left pid scope cgroup unavailable = kept (covers_cap f pid k)

  restore_adjustment-Left :
      (x : RuntimeAdjustment) → Left (covers f k x) (ends_tracking h x) (restore_adjustment h st x)
  unfolding restore_adjustment
  restore_adjustment-Left (nice pid original id scope) =
      restore_nice-Left pid original scope (h.proc.status pid id)
  restore_adjustment-Left (oom_bias pid adj id) = restore_oom-Left pid adj id (h.proc.status pid id)
  restore_adjustment-Left (cpu_cap pid scope cgroup id) =
      restore_cap-Left pid scope cgroup (h.proc.status pid id)

removed_twice {ℓ} :
    {A : Type ℓ}
    → (now later : Bool) (y z : Option A) → y ≡ (if now then none else z)
    → (if later then none else y) ≡ (if now || later then none else z)
removed_twice true true y z e = refl
removed_twice true false y z e = e
removed_twice false true y z e = refl
removed_twice false false y z e = e

-- Some adjustment of the plan ends the tracking of this entry.
abbrev pub ended_by : Host → Limiter → ℤ → List RuntimeAdjustment → Bool
ended_by h f k plan = any_of (λ (x : RuntimeAdjustment). covers f k x && ends_tracking h x) plan

-- After the loop an entry is gone if some adjustment of the plan ended it, and as it was if not.
pub look-restore_all :
    (h : Host) (f : Limiter) (k : ℤ) (plan : List RuntimeAdjustment) (st : Mitigations)
    → look f k (restore_all h st plan) ≡ (if ended_by h f k plan then none else look f k st)
unfolding restore_all any_of
look-restore_all h f k [] st = refl
look-restore_all h f k (x ∷ plan) st =
    look-restore_all h f k plan (restore_adjustment h st x)
    ∙ removed_twice (covers f k x && ends_tracking h x) (ended_by h f k plan) _ (look f k st)
        (restore_adjustment-Left f h k st x)
