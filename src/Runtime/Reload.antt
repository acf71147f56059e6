-- ===== src/Runtime/Reload.antt =====
-- `apply_policy_reload`: the decision on a SIGHUP.
use dracon_system_disk_proce.Common.{
  ◌≡◌, refl, sym, ◌∙◌, ap, ◌⊎◌, inl, inr, Bool, true, false, not, ◌&&◌, ◌||◌, List, some, ◌≢◌,
  if◌then◌else◌, Bool-cases, subst,
}
use dracon_system_disk_proce.Nice.{ProcSample}
use dracon_system_disk_proce.Policy.Guard.{GuardPolicy, normalize_guard_policy}
use dracon_system_disk_proce.Common.Signed.{ℤ}
use dracon_system_disk_proce.Process.{ProcessIdentity, unavailable}
use dracon_system_disk_proce.Runtime.{Mitigations, fresh}
use dracon_system_disk_proce.Runtime.Restore.Kept.{restore_runtime_keeps_unread}
use dracon_system_disk_proce.Runtime.Restore.Removal.{Limiter, cap, look, Entry}
use dracon_system_disk_proce.Runtime.Restore.{
  Host, nothing_tracked, restore_runtime_adjustments_with_samples, restore_runtime_open,
  restore_runtime_shut,
}

pub data ReloadOutcome : Type 0 where
  applied deferred : ReloadOutcome

unfoldable pub apply_policy_reload :
    GuardPolicy → Mitigations → GuardPolicy → Bool → (GuardPolicy × Mitigations) × ReloadOutcome
apply_policy_reload guard runtime new_policy adjustments_restored =
    if (not adjustments_restored || runtime.mitigation_ledger_unavailable) && new_policy.enabled
    then ((guard, runtime), deferred)
    else (
      (
        (normalize_guard_policy new_policy).0,
        if adjustments_restored && not runtime.mitigation_ledger_unavailable
            then fresh runtime.persist_mitigations
            else runtime,
      ),
      applied,
    )

-- Whether `renice` and `systemctl` can be resolved; without one of them nothing is restored.
pub record Binaries : Type 0 where
  pub renice : Bool
  pub systemctl : Bool

unfoldable pub restore_runtime_adjustments :
    Binaries → Host → Mitigations → List ProcSample → Mitigations × Bool
restore_runtime_adjustments bins h runtime samples =
    if not bins.renice
    then (runtime, false)
    else if not bins.systemctl
    then (runtime, false)
    else restore_runtime_adjustments_with_samples h runtime samples

-- What the daemon does on the signal: restore under the old policy, then decide.
unfoldable pub reload :
    Binaries
    → Host
    → GuardPolicy
    → Mitigations
    → GuardPolicy
    → List ProcSample
    → (GuardPolicy × Mitigations) × ReloadOutcome
unfolding apply_policy_reload restore_runtime_adjustments
reload bins h guard runtime new_policy samples =
    let (left, restored) = restore_runtime_adjustments bins h runtime samples in
    apply_policy_reload guard left new_policy restored

-- A decision, by its two tests.
abbrev Sound :
    GuardPolicy
    → Mitigations
    → GuardPolicy
    → Bool
    → (GuardPolicy × Mitigations) × ReloadOutcome
    → Type 0
Sound guard left new_policy restored ((g, r), o) =
    ((o ≡ deferred)
      × (g ≡ guard)
      × (r ≡ left)
      × (new_policy.enabled ≡ true)
      × ((restored ≡ false) ⊎ (left.mitigation_ledger_unavailable ≡ true)))
    ⊎ ((o ≡ applied)
        × (g ≡ (normalize_guard_policy new_policy).0)
        × (((r ≡ fresh left.persist_mitigations)
              × (restored ≡ true)
              × (left.mitigation_ledger_unavailable ≡ false))
            ⊎ ((r ≡ left) × (new_policy.enabled ≡ false))))

module _ (guard new_policy : GuardPolicy) (left : Mitigations) where
  deferring :
      (restored : Bool)
      → (restored ≡ false) ⊎ (left.mitigation_ledger_unavailable ≡ true)
      → new_policy.enabled ≡ true
      → apply_policy_reload guard left new_policy restored ≡ ((guard, left), deferred)
  unfolding apply_policy_reload
  deferring restored (inl unpaid) on = simp (unpaid, on)
  deferring true (inr shut) on = simp (shut, on)
  deferring false (inr shut) on = simp on

  stopping :
      (restored : Bool)
      → (restored ≡ false) ⊎ (left.mitigation_ledger_unavailable ≡ true)
      → new_policy.enabled ≡ false
      → apply_policy_reload guard left new_policy restored
        ≡ (((normalize_guard_policy new_policy).0, left), applied)
  unfolding apply_policy_reload
  stopping true (inl unpaid) off = cc
  stopping false (inl unpaid) off = simp off
  stopping true (inr shut) off = simp (shut, off)
  stopping false (inr shut) off = simp off

  adopting :
      left.mitigation_ledger_unavailable ≡ false
      → apply_policy_reload guard left new_policy true
        ≡ (((normalize_guard_policy new_policy).0, fresh left.persist_mitigations), applied)
  unfolding apply_policy_reload
  adopting open_ = simp open_

  refusing-Sound :
      (restored : Bool)
      → (restored ≡ false) ⊎ (left.mitigation_ledger_unavailable ≡ true)
      → Sound guard left new_policy restored (apply_policy_reload guard left new_policy restored)
  refusing-Sound restored owed = elim (Bool-cases new_policy.enabled) [
    | inl on ↦
        subst (Sound guard left new_policy restored) (sym (deferring restored owed on))
          (inl (refl, refl, refl, on, owed))
    | inr off ↦
        subst (Sound guard left new_policy restored) (sym (stopping restored owed off))
          (inr (refl, refl, inr (refl, off)))
  ]

  apply_policy_reload-Sound :
      (restored : Bool)
      → Sound guard left new_policy restored (apply_policy_reload guard left new_policy restored)
  apply_policy_reload-Sound false = refusing-Sound false (inl refl)
  apply_policy_reload-Sound true = elim (Bool-cases left.mitigation_ledger_unavailable) [
    | inl shut ↦ refusing-Sound true (inr shut)
    | inr open_ ↦
        subst (Sound guard left new_policy true) (sym (adopting open_))
          (inr (refl, refl, inl (refl, refl, open_)))
  ]

-- The restoration says that all is restored only if nothing is left tracked.
restored-nothing :
    (h : Host) (st : Mitigations) (samples : List ProcSample)
    → (restore_runtime_adjustments_with_samples h st samples).1 ≡ true
    → nothing_tracked (restore_runtime_adjustments_with_samples h st samples).0 ≡ true
restored-nothing h st samples r = elim (Bool-cases st.mitigation_ledger_unavailable) [
  | inl shut ↦
      let clash : true ≡ false =
        sym r ∙ ap (λ (p : Mitigations × Bool). p.1) (restore_runtime_shut h st samples shut) in
      absurd cc
  | inr open_ ↦
      let same = restore_runtime_open h st samples open_ in
      ap (λ (p : Mitigations × Bool). nothing_tracked p.0) same
      ∙ sym (ap (λ (p : Mitigations × Bool). p.1) same)
      ∙ r
]

-- Either the restoration of the samples is the one that runs, or nothing is touched.
restoration_cases {ℓ} :
    (P : Mitigations × Bool → Type ℓ) (bins : Binaries) (h : Host) (runtime : Mitigations)
    (samples : List ProcSample)
    → P (runtime, false)
    → P (restore_runtime_adjustments_with_samples h runtime samples)
    → P (restore_runtime_adjustments bins h runtime samples)
unfolding restore_runtime_adjustments
restoration_cases P bins h runtime samples none_done done = elim (Bool-cases bins.renice) [
  | inr e ↦ rw e none_done
  | inl e ↦ rw e (elim (Bool-cases bins.systemctl) [ inr s ↦ rw s none_done | inl s ↦ rw s done ])
]

all-nothing :
    (bins : Binaries) (h : Host) (runtime : Mitigations) (samples : List ProcSample)
    → (restore_runtime_adjustments bins h runtime samples).1 ≡ true
    → nothing_tracked (restore_runtime_adjustments bins h runtime samples).0 ≡ true
all-nothing bins h runtime samples =
    restoration_cases (λ r. r.1 ≡ true → nothing_tracked r.0 ≡ true) bins h runtime samples
      (λ e. cc) (restored-nothing h runtime samples)

-- A niced or biased entry of a process that cannot be identified is kept, and not all is restored.
unread-kept :
    (bins : Binaries) (h : Host) (runtime : Mitigations) (samples : List ProcSample) (k : ℤ)
    (f : Limiter) (e : Entry f)
    → ((id : ProcessIdentity) → h.proc.status k id ≡ unavailable)
    → f ≢ cap
    → look f k runtime ≡ some e
    → (look f k (restore_runtime_adjustments bins h runtime samples).0 ≡ some e)
      × ((restore_runtime_adjustments bins h runtime samples).1 ≡ false)
unread-kept bins h runtime samples k f e unread n held =
    restoration_cases (λ r. (look f k r.0 ≡ some e) × (r.1 ≡ false)) bins h runtime samples
      (held, refl) (restore_runtime_keeps_unread h k unread f runtime samples e n held)

-- A reload follows the restoration. A deferred one leaves the policy as it was and keeps what the
-- restoration left, and happens only where the restoration did not report that all is restored, or the
-- ledger is unavailable, and the new policy stays enabled. An applied one adopts the new policy
-- normalised, and clears the runtime state only if nothing is tracked any more; otherwise the new policy
-- is disabled and the state is kept.
pub reload_follows_restoration :
    (bins : Binaries) (h : Host) (guard new_policy : GuardPolicy) (runtime : Mitigations)
    (samples : List ProcSample)
    → let (left, restored) = restore_runtime_adjustments bins h runtime samples in
      let ((g, r), o) = reload bins h guard runtime new_policy samples in
      ((o ≡ deferred)
        × (g ≡ guard)
        × (r ≡ left)
        × (new_policy.enabled ≡ true)
        × ((restored ≡ false) ⊎ (left.mitigation_ledger_unavailable ≡ true)))
      ⊎ ((o ≡ applied)
          × (g ≡ (normalize_guard_policy new_policy).0)
          × (((r ≡ fresh left.persist_mitigations) × (nothing_tracked left ≡ true))
              ⊎ ((r ≡ left) × (new_policy.enabled ≡ false))))
unfolding reload
reload_follows_restoration bins h guard new_policy runtime samples =
    let (left, restored) = restore_runtime_adjustments bins h runtime samples in
    elim (apply_policy_reload-Sound guard new_policy left restored) [
      | inl kept ↦ inl kept
      | inr (o, g, inl (cleared, all, open_)) ↦
          inr (o, g, inl (cleared, all-nothing bins h runtime samples all))
      | inr (o, g, inr off) ↦ inr (o, g, inr off)
    ]

-- Where a niced or biased process cannot be identified, its entry is tracked after a reload with the
-- values it had, also where renice or systemctl cannot be resolved: the reload is deferred and the
-- policy stays as it was, or the new policy is disabled and adopted with the state kept.
pub reload_keeps_unread :
    (bins : Binaries) (h : Host) (guard new_policy : GuardPolicy) (runtime : Mitigations)
    (samples : List ProcSample) (k : ℤ) (f : Limiter) (e : Entry f)
    → ((id : ProcessIdentity) → h.proc.status k id ≡ unavailable)
    → f ≢ cap
    → look f k runtime ≡ some e
    → let ((g, r), o) = reload bins h guard runtime new_policy samples in
      (look f k r ≡ some e)
      × (((o ≡ deferred) × (g ≡ guard) × (new_policy.enabled ≡ true))
          ⊎ ((o ≡ applied)
              × (g ≡ (normalize_guard_policy new_policy).0)
              × (new_policy.enabled ≡ false)))
unfolding reload
reload_keeps_unread bins h guard new_policy runtime samples k f e unread n held =
    let (left, restored) = restore_runtime_adjustments bins h runtime samples in
    let (stays, partly) = unread-kept bins h runtime samples k f e unread n held in
    elim (apply_policy_reload-Sound guard new_policy left restored) [
      | inl (o, g, r, on, why) ↦ (ap (look f k) r ∙ stays, inl (o, g, on))
      | inr (o, g, inl (cleared, all, open_)) ↦
          absurd (let clash : false ≡ true = sym partly ∙ all in cc)
      | inr (o, g, inr (r, off)) ↦ (ap (look f k) r ∙ stays, inr (o, g, off))
    ]
