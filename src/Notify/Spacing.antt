-- ===== src/Notify/Spacing.antt =====
-- The cooldown table of `should_notify` under a sequence of operations.
use dracon_system_disk_proce.Common.{
  ℕ, ◌+◌, ◌<◌, ◌≤◌, ◌≡◌, refl, sym, ap, ◌∙◌, inl, inr, max, ltb, lt→ltb, true, false, some, List,
  [], ◌∷◌, String, ◌==◌, string_eq, Instant, from_secs, arith, Bool-cases, ==→≡, ==_refl, All,
}
use dracon_system_disk_proce.Common.Table.{get, get-insert, get-retain}
use dracon_system_disk_proce.Notify.{
  NotifyState, should_notify, suppressed, stale_cutoff, cleanup_stale_cooldowns, NotifyOp, notify,
  cleanup, time_of, notify_step, notify_run,
}

module _ (key : String) (until : Instant) where
  abbrev Cooling : NotifyState → Type 0
  Cooling st = get st.notify_cooldowns key ≡ some until

  cutoff_le : (now : Instant) (cooldown : ℕ) → stale_cutoff now cooldown ≤ now
  cutoff_le now cooldown = ground arith

  should_notify-Cooling :
      (st : NotifyState) (now : Instant) (other : String) (cooldown : ℕ)
      → now < until
      → Cooling st
      → Cooling (should_notify st now other cooldown).0
  unfolding should_notify
  should_notify-Cooling st now other cooldown early cool =
      elim (Bool-cases (suppressed now (get st.notify_cooldowns other))) [
        | inl quiet ↦ rw quiet cool
        | inr loud ↦ rw loud (
            get-insert st.notify_cooldowns other key _ ∙ elim (Bool-cases (other == key)) [
              | inl same ↦
                  let clash : true ≡ false =
                    sym (lt→ltb now until early)
                    ∙ ap (suppressed now)
                        (sym cool ∙ ap (get st.notify_cooldowns) (sym (==→≡ other key same)))
                    ∙ loud in
                  absurd cc
              | inr differs ↦ rw differs cool
            ])
      ]

  cleanup-Cooling :
      (st : NotifyState) (now : Instant) (cooldown : ℕ)
      → now < until
      → Cooling st
      → Cooling (cleanup_stale_cooldowns st now cooldown)
  unfolding cleanup_stale_cooldowns
  cleanup-Cooling st now cooldown early cool =
      get-retain (λ (key : String) (since : Instant). ltb (stale_cutoff now cooldown) since)
        st.notify_cooldowns key until cool
        (lt→ltb (stale_cutoff now cooldown) until (omega (arith, cutoff_le now cooldown, early)))

  notify_run-Cooling :
      (ops : List NotifyOp) (st : NotifyState)
      → All (λ op. time_of op < until) ops
      → Cooling st
      → Cooling (notify_run st ops)
  unfolding notify_run notify_step
  notify_run-Cooling [] st early cool = cool
  notify_run-Cooling (notify now other cooldown ∷ ops) st early cool =
      notify_run-Cooling ops _ early.1 (should_notify-Cooling st now other cooldown early.0 cool)
  notify_run-Cooling (cleanup now cooldown ∷ ops) st early cool =
      notify_run-Cooling ops _ early.1 (cleanup-Cooling st now cooldown early.0 cool)

-- A notification that is made starts its cooldown.
starts :
    (st : NotifyState) (key : String) (cooldown : ℕ) (now : Instant)
    → (should_notify st now key cooldown).1 ≡ true
    → get (should_notify st now key cooldown).0.notify_cooldowns key
      ≡ some (now + from_secs (max cooldown 1))
unfolding should_notify
starts st key cooldown now first =
    elim (Bool-cases (suppressed now (get st.notify_cooldowns key))) [
      | inl quiet ↦ let clash : false ≡ true = rw quiet at first in absurd cc
      | inr loud ↦ rw loud (
          get-insert st.notify_cooldowns key key (now + from_secs (max cooldown 1))
          ∙ rw (==_refl key) refl)
    ]

-- After a key has notified, it stays silent until its cooldown has passed, at least one second:
-- whatever notifications of this and other keys and whatever prunings of the table come between,
-- with whatever cooldowns, if they too come before that time.
pub should_notify_spacing :
    (st : NotifyState) (key : String) (cooldown later_cooldown : ℕ) (now later : Instant)
    (ops : List NotifyOp)
    → (should_notify st now key cooldown).1 ≡ true
    → All (λ op. time_of op < now + from_secs (max cooldown 1)) ops
    → later < now + from_secs (max cooldown 1)
    → let silent = notify_run (should_notify st now key cooldown).0 ops in
      should_notify silent later key later_cooldown ≡ (silent, false)
unfolding should_notify
should_notify_spacing st key cooldown later_cooldown now later ops first early before =
    let until = now + from_secs (max cooldown 1) in
    let cool : get (notify_run (should_notify st now key cooldown).0 ops).notify_cooldowns key
        ≡ some until =
      notify_run-Cooling key until ops (should_notify st now key cooldown).0 early
        (starts st key cooldown now first) in
    simp (cool, lt→ltb later until before)
