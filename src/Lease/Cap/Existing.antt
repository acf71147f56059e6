-- ===== src/Lease/Cap/Existing.antt =====
-- `cap_prepared` where an earlier pass left a lease, and as a whole.
use dracon_system_disk_proce.Common.{
  ℕ, ◌≡◌, refl, sym, ◌⊎◌, inl, inr, nat_beq, ltb, Bool, true, false, not, ◌&&◌, ◌||◌, Option, none,
  some, String, if◌then◌else◌, string_eq, if_cases, subst, Bool-cases,
}
use dracon_system_disk_proce.Lease.{
  Lease, World, Write, refused, unverified, verified, reported, set_quota, save, Outcome, ok, err,
  reuse, restore_unprotected, reconcile_intent,
}
use dracon_system_disk_proce.Lease.Cap.{
  Answers, says, cap_prepared, cap_existing, cap_loaded, cap_invoked, act, after_timer, drop_file,
}
use dracon_system_disk_proce.Lease.Cap.Backed.{is_err, nat_beq→≡, SafeDuring, cap_new-Safe}

-- The quota stays, or the lease's own quota is replaced by the one it had replaced; a success is
-- claimed only for a unit that has the lease's quota.
abbrev pub Reconciled : World → Lease → World × Outcome → Type 0
Reconciled w old r =
    ((r.0.quota ≡ w.quota) ⊎ ((w.quota ≡ old.applied) × (r.0.quota ≡ old.original)))
    × ((is_err r.1 ≡ true) ⊎ (r.0.quota ≡ old.applied))

module _ (a : Answers) (w : World) (old : Lease) where
  drop_file-Reconciled :
      (w1 : World) (message : String)
      → (w1.quota ≡ w.quota) ⊎ ((w.quota ≡ old.applied) × (w1.quota ≡ old.original))
      → Reconciled w old (drop_file a w1 message)
  drop_file-Reconciled w1 message h =
      if_cases (Reconciled w old) a.remove_file _ _ (λ e. (h, inl refl)) (λ e. (h, inl refl))

  reuse-Reconciled :
      (x : Write)
      → w.quota ≡ old.applied
      → Reconciled w old (
          let w1 = save x w (record old { applied_verified = true }) in
          if reported x then (w1, ok old.generation) else (w1, err "save"))
  reuse-Reconciled refused q = (inl refl, inl refl)
  reuse-Reconciled unverified q = (inl refl, inl refl)
  reuse-Reconciled verified q = (inl refl, inr q)

  restore-Reconciled :
      (x : Write)
      → w.quota ≡ old.applied
      → Reconciled w old (
          let w1 = set_quota x w old.original in
          if reported x
          then drop_file a w1 "incomplete CPU lease recovered; retry next pass"
          else (w1, err "CPU quota verification failed"))
  restore-Reconciled refused q = (inl refl, inl refl)
  restore-Reconciled unverified q = (inr (q, refl), inl refl)
  restore-Reconciled verified q =
      drop_file-Reconciled (record w { quota = old.original })
        "incomplete CPU lease recovered; retry next pass" (inr (q, refl))

  act-Reconciled :
      (armed : Bool) → Reconciled w old (act a w old (reconcile_intent old w.quota armed))
  unfolding reconcile_intent
  act-Reconciled armed = elim (Bool-cases (nat_beq w.quota old.applied)) [
    | inl own ↦ rw own (by_timer armed (nat_beq→≡ w.quota old.applied own))
    | inr other ↦
        rw other (elim (Bool-cases (nat_beq w.quota old.original && not old.applied_verified)) [
          | inl unapplied ↦
              rw unapplied (
                drop_file-Reconciled w "incomplete CPU lease recovered; retry next pass" (inl refl))
          | inr external ↦ rw external (inl refl, inl refl)
        ])
  ]
    where
      by_timer :
          (armed : Bool)
          → w.quota ≡ old.applied
          → Reconciled w old (act a w old (if armed then reuse else restore_unprotected))
      by_timer true q = reuse-Reconciled a.save_reused q
      by_timer false q = restore-Reconciled a.set_original q

  after_timer-Reconciled : (s : Option String) → Reconciled w old (after_timer a w old s)
  after_timer-Reconciled none = (inl refl, inl refl)
  after_timer-Reconciled (some s) = act-Reconciled (string_eq.beq s "active")

  cap_existing-Reconciled :
      (boot invocation : String) → Reconciled w old (cap_existing a w boot invocation old)
  unfolding cap_existing
  cap_existing-Reconciled boot invocation =
      if_cases (Reconciled w old)
        (not (string_eq.beq old.invocation invocation) || not (string_eq.beq old.boot_id boot)) _ _
        (λ h. drop_file-Reconciled w _ (inl refl))
        (λ h.
          if_cases (Reconciled w old) (not a.quota_reads) _ _ (λ h. (inl refl, inl refl))
            (λ h.
              if_cases (Reconciled w old) (old.armed && ltb a.now old.expires_at_unix_secs) _ _
                (λ h. after_timer-Reconciled a.old_timer_state) (λ h. act-Reconciled false)))

-- A property that a failed call has, and the call with what it loaded, is one of the whole call.
cap_prepared_cases :
    (a : Answers) (w : World) (boot unit : String) (percent lease_seconds : ℕ)
    (P : World × Outcome → Type 0)
    → ((message : String) → P (w, err message))
    → ((invocation : String)
        → P (cap_loaded a w unit boot invocation percent lease_seconds w.stored))
    → P (cap_prepared a w boot unit percent lease_seconds)
unfolding cap_prepared
cap_prepared_cases a w boot unit percent lease_seconds P fails loads = by_invocation a.invocation
  where
    by_invocation : (i : Option String) → P (cap_invoked a w unit boot percent lease_seconds i)
    by_invocation none = fails "InvocationID"
    by_invocation (some invocation) =
        if_cases P (string_eq.beq invocation "" || not (says a.active_state "active")) _ _
          (λ h. fails "workload scope not active")
          (λ h.
            if_cases P (not a.locked) _ _ (λ h. fails "CPU lease busy")
              (λ h. if_cases P (not a.readable) _ _ (λ h. fails "load") (λ h. loads invocation)))

-- Where no lease is on file: if a call ends with the quota changed, whether it reports success or
-- an error, an armed lease is on file that holds the quota which was replaced, and the new quota
-- is lower than that one. The replaced quota is the one before the call, or the one the operator
-- set while the lease was prepared.
pub cap_prepared_backed :
    (a : Answers) (w : World) (boot unit : String) (percent lease_seconds : ℕ)
    → w.stored ≡ none
    → SafeDuring a w (cap_prepared a w boot unit percent lease_seconds)
cap_prepared_backed a w boot unit percent lease_seconds empty =
    cap_prepared_cases a w boot unit percent lease_seconds (λ r. SafeDuring a w r)
      (λ message. inl (inl (refl, refl)))
      (λ invocation.
        subst (λ o. SafeDuring a w (cap_loaded a w unit boot invocation percent lease_seconds o))
          (sym empty) (cap_new-Safe a w unit boot invocation percent lease_seconds))

-- Where a lease is on file: the quota stays, or the lease's own quota is replaced by the recorded
-- original one, so that a quota which anybody else set stays; and a call that does not fail leaves
-- the unit with the lease's quota.
pub cap_prepared_reconciles :
    (a : Answers) (w : World) (boot unit : String) (percent lease_seconds : ℕ) (old : Lease)
    → w.stored ≡ some old
    → Reconciled w old (cap_prepared a w boot unit percent lease_seconds)
cap_prepared_reconciles a w boot unit percent lease_seconds old found =
    cap_prepared_cases a w boot unit percent lease_seconds (λ r. Reconciled w old r)
      (λ message. (inl refl, inl refl))
      (λ invocation.
        subst (λ o. Reconciled w old (cap_loaded a w unit boot invocation percent lease_seconds o))
          (sym found) (cap_existing-Reconciled a w old boot invocation))
