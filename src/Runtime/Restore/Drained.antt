-- ===== src/Runtime/Restore/Drained.antt =====
-- The restoration where the system answers.
use dracon_system_disk_proce.Common.{
  elem, string_eq, ◌≡◌, refl, ◌∙◌, ap, ◌≢◌, inl, inr, Bool, true, false, none, some, List, [], ◌∷◌,
  String, if◌then◌else◌, Bool-cases, Option-cases, any_of, pair_eq, nat_eq,
}
use dracon_system_disk_proce.Common.Signed.{ℤ, int_eq}
use dracon_system_disk_proce.Common.Table.{get-none→nil}
use dracon_system_disk_proce.Nice.{ProcSample}
use dracon_system_disk_proce.Process.{
  ProcessIdentity, ProcessIdentityStatus, matched, gone, mismatch, unavailable,
}
use dracon_system_disk_proce.Runtime.{Mitigations}
use dracon_system_disk_proce.Runtime.Plan.{
  RuntimeAdjustment, nice, oom_bias, cpu_cap, runtime_adjustment_plan,
}
use dracon_system_disk_proce.Runtime.Plan.Coverage.{covered, runtime_adjustment_plan-covers}
use dracon_system_disk_proce.Oom.{RestoreAnswer, changed, unchanged, failed, is_kernel_process}
use dracon_system_disk_proce.Oom.Drain.{sweep-drains}
use dracon_system_disk_proce.Runtime.Restore.Pendings.{restore_all-Same}
use dracon_system_disk_proce.Runtime.Restore.{
  Host, nothing_tracked, restore_runtime_open, before_plan, ReniceAnswer, done, permanent,
  transient, release_leases, restore_all, restore_runtime_adjustments_with_samples,
}
use dracon_system_disk_proce.Runtime.Restore.Effect.{ended_by, look-restore_all}
use dracon_system_disk_proce.Runtime.Restore.Removal.{
  Limiter, legacy_nice, memory_nice, bias, cap, look, covers, ends_tracking, renice_ends,
  restore_ends, nice_ends, oom_ends, cap_ends,
}

-- If every adjustment ends, a covered entry is ended.
covered-ended :
    (h : Host) (f : Limiter) (k : ℤ) (plan : List RuntimeAdjustment)
    → ((x : RuntimeAdjustment) → ends_tracking h x ≡ true)
    → covered f k plan ≡ true
    → ended_by h f k plan ≡ true
unfolding any_of
covered-ended h f k [] all c = cc
covered-ended h f k (x ∷ plan) all c = elim (Bool-cases (covers f k x)) [
  | inl here ↦ rw (here, all x) refl
  | inr later ↦ rw later (covered-ended h f k plan all (rw later at c))
]

both_same {ℓ} : {A : Type ℓ} → (b : Bool) (a : A) → (if b then a else a) ≡ a
both_same true a = refl
both_same false a = refl

look-drained :
    (h : Host) (st : Mitigations) (f : Limiter) (k : ℤ)
    → ((x : RuntimeAdjustment) → ends_tracking h x ≡ true)
    → look f k (restore_all h st (runtime_adjustment_plan st)) ≡ none
look-drained h st f k all =
    look-restore_all h f k (runtime_adjustment_plan st) st ∙ elim (Option-cases (look f k st)) [
      | inl e ↦ rw e (both_same (ended_by h f k (runtime_adjustment_plan st)) none)
      | inr (e, s) ↦
          rw
            (covered-ended h f k (runtime_adjustment_plan st) all
              (runtime_adjustment_plan-covers st f k e s))
            refl
    ]

-- No name stands on the empty list.
unlisted :
    (h : Host)
    → ((pid : ℤ)
        → (comm : String) × (h.proc.read_comm pid ≡ some comm) × (is_kernel_process comm ≡ false))
    → (pid : ℤ)
    → (comm : String) × (h.proc.read_comm pid ≡ some comm)
      × (is_kernel_process comm ≡ false)
      × (elem comm [] ≡ false)
unfolding elem
unlisted h named pid = let (comm, read, user) = named pid in (comm, read, user, refl)

module _ (h : Host)
    (identified : (pid : ℤ) (id : ProcessIdentity) → h.proc.status pid id ≢ unavailable)
    (named : (pid : ℤ)
      → (comm : String) × (h.proc.read_comm pid ≡ some comm) × (is_kernel_process comm ≡ false))
    (written : (pid : ℤ) (id : ProcessIdentity) (adj : ℤ) → h.proc.restore pid id adj ≢ failed)
    (saved : h.proc.persist ≡ true) (niced : (pid value : ℤ) → h.renice pid value ≢ transient)
    (uncapped : (pid : ℤ) (scope cgroup : String) (move : Bool)
      → h.uncap pid scope cgroup move ≡ true) where
  renice_ends-true : (r : ReniceAnswer) → r ≢ transient → renice_ends r ≡ true
  renice_ends-true done n = refl
  renice_ends-true permanent n = refl
  renice_ends-true transient n = absurd (n refl)

  restore_ends-true : (r : RestoreAnswer) → r ≢ failed → restore_ends r ≡ true
  restore_ends-true changed n = refl
  restore_ends-true unchanged n = refl
  restore_ends-true failed n = absurd (n refl)

  nice_ends-true :
      (pid original : ℤ) (s : ProcessIdentityStatus)
      → s ≢ unavailable
      → nice_ends h pid original s ≡ true
  nice_ends-true pid original gone i = refl
  nice_ends-true pid original mismatch i = refl
  nice_ends-true pid original unavailable i = absurd (i refl)
  nice_ends-true pid original matched i =
      rw (renice_ends-true (h.renice pid original) (niced pid original))
        (elim (Bool-cases (h.can_restore_nice_for pid)) [ inl c ↦ rw c refl | inr c ↦ rw c refl ])

  oom_ends-true :
      (pid adj : ℤ) (id : ProcessIdentity) (s : ProcessIdentityStatus)
      → s ≢ unavailable
      → oom_ends h pid adj id s ≡ true
  oom_ends-true pid adj id matched i =
      restore_ends-true (h.proc.restore pid id adj) (written pid id adj)
  oom_ends-true pid adj id gone i = refl
  oom_ends-true pid adj id mismatch i = refl
  oom_ends-true pid adj id unavailable i = absurd (i refl)

  cap_ends-true :
      (pid : ℤ) (scope cgroup : String) (s : ProcessIdentityStatus)
      → s ≢ unavailable
      → cap_ends h pid scope cgroup s ≡ true
  cap_ends-true pid scope cgroup matched i = uncapped pid scope cgroup true
  cap_ends-true pid scope cgroup gone i = uncapped pid scope cgroup true
  cap_ends-true pid scope cgroup mismatch i = uncapped pid scope cgroup false
  cap_ends-true pid scope cgroup unavailable i = absurd (i refl)

  all_end : (x : RuntimeAdjustment) → ends_tracking h x ≡ true
  all_end (nice pid original id scope) =
      nice_ends-true pid original (h.proc.status pid id) (identified pid id)
  all_end (oom_bias pid adj id) =
      oom_ends-true pid adj id (h.proc.status pid id) (identified pid id)
  all_end (cpu_cap pid scope cgroup id) =
      cap_ends-true pid scope cgroup (h.proc.status pid id) (identified pid id)

  empty_of_look :
      (st : Mitigations)
      → ((f : Limiter) (k : ℤ) → look f k st ≡ none)
      → st.oom_pending_descendants ≡ []
      → nothing_tracked st ≡ true
  empty_of_look st none_found pendings =
      rw
        (
          get-none→nil st.reniced_pids (none_found legacy_nice),
          get-none→nil st.memory_reniced_pids (none_found memory_nice),
          get-none→nil st.oom_biased_pids (none_found bias),
          get-none→nil st.capped_pids (none_found cap),
          pendings,
        )
        refl

  -- If every process can be identified and is named as no kernel process, every OOM write and uncap
  -- works, the ledger is available and saved, and each `renice` works or fails for good, one
  -- restoration leaves nothing tracked, and says so.
  pub restore_runtime_drains :
      (st : Mitigations) (samples : List ProcSample)
      → st.mitigation_ledger_unavailable ≡ false
      → let (left, restored) = restore_runtime_adjustments_with_samples h st samples in
        (restored ≡ true) × (nothing_tracked left ≡ true)
  unfolding before_plan
  restore_runtime_drains st samples ledger =
      let ready = before_plan h st samples in
      let left = restore_all h ready (runtime_adjustment_plan ready) in
      let clear : nothing_tracked left ≡ true =
        empty_of_look left (λ f k. look-drained h ready f k all_end)
          (restore_all-Same h ready (runtime_adjustment_plan ready)
            ∙ sweep-drains h.proc [] identified (unlisted h named) written saved samples
                (release_leases h st.capped_pids st)) in
      let result = restore_runtime_open h st samples ledger in
      (
        ap (λ (r : Mitigations × Bool). r.1) result ∙ clear,
        ap (λ (r : Mitigations × Bool). nothing_tracked r.0) result ∙ clear,
      )
