-- ===== src/Pressure/Hysteresis.antt =====
-- When the stable pressure state moves.
use dracon_system_disk_proce.Common.{
  ℕ, ◌≤◌, ◌<◌, ◌≡◌, refl, sym, ◌≢◌, ◌⊎◌, inl, inr, true, false, Option, none, some, String, List,
  [], ◌∷◌, some_inj, ◌∙◌, subst, ◌==◌, Bool-cases, Instant, duration_since, as_secs, arith, ==→≡,
  string_eq,
}
use text.Mathlib.TextEquality.{eq_iff}
use dracon_system_disk_proce.Pressure.{
  PressureState, Stabilized, stabilize_memory_pressure_at, stabilize_from, after, started,
  unwrap_or, unmoved, clear_candidate, moved,
}

-- The newest observations are all `c`, back to one made at `s`.
abbrev pub HeldSince : String → Instant → List (String × Instant) → Type 0
HeldSince c s [] = ⊥
HeldSince c s ((o, t) ∷ history) = (o ≡ c) × ((t ≡ s) ⊎ HeldSince c s history)

-- A running candidate timer dates from an observation that has been repeated since.
abbrev Backed : PressureState → List (String × Instant) → Type 0
Backed st history =
    (st.memory_pressure_candidate_since ≡ none)
    ⊎ ((s : Instant) × (st.memory_pressure_candidate_since ≡ some s)
        × HeldSince st.memory_pressure_candidate s history)

-- The four ways through the function.
module _ (st : PressureState) (o : String) (n : ℕ) (now : Instant) where
  stabilize_from_cases {ℓ} :
      (P : Stabilized → Type ℓ)
      → (st.memory_pressure_state ≡ o → P (unmoved (clear_candidate st)))
      → P (
          unmoved (record st {
            memory_pressure_candidate = o;
            memory_pressure_candidate_since = some now;
          }))
      → (st.memory_pressure_candidate ≡ o → P (unmoved st))
      → (st.memory_pressure_state ≢ o
          → st.memory_pressure_candidate ≡ o
          → n ≤ as_secs (duration_since now (unwrap_or st.memory_pressure_candidate_since now))
          → P (moved st o))
      → P (stabilize_from st o n now)
  unfolding stabilize_from
  stabilize_from_cases P same fresh early late =
      ground (arith, eq_iff st.memory_pressure_state o, eq_iff st.memory_pressure_candidate o)

module _ (st : PressureState) (history : List (String × Instant)) (o : String) (now : Instant) where
  started-Backed : Backed st history → Backed (started st) history
  started-Backed b = elim (Bool-cases (st.memory_pressure_state == "")) [
    | inl e ↦ rw e b
    | inr e ↦ rw e b
  ]

  stabilize_from-Backed :
      (n : ℕ) → Backed st history → Backed (stabilize_from st o n now).state ((o, now) ∷ history)
  stabilize_from-Backed n b =
      stabilize_from_cases st o n now (λ r. Backed r.state ((o, now) ∷ history)) (λ _. inl refl)
        (inr (now, refl, (refl, inl refl))) (λ again. kept again b) (λ _ _ _. inl refl)
    where
      kept : st.memory_pressure_candidate ≡ o → Backed st history → Backed st ((o, now) ∷ history)
      kept again (inl e) = inl e
      kept again (inr (s, e, h)) = inr (s, e, (sym again, inr h))

  -- A move needs a candidate timer that has run for `n` seconds, if `n` is positive.
  stabilize_from-moved :
      (n : ℕ)
      → 0 < n
      → (stabilize_from st o n now).transitioned ≡ true
      → (s : Instant) × (st.memory_pressure_candidate_since ≡ some s)
        × (st.memory_pressure_candidate ≡ o)
        × (n ≤ as_secs (duration_since now s))
  stabilize_from-moved n pos =
      stabilize_from_cases st o n now
        (λ r.
          r.transitioned ≡ true
          → (s : Instant) × (st.memory_pressure_candidate_since ≡ some s)
            × (st.memory_pressure_candidate ≡ o)
            × (n ≤ as_secs (duration_since now s)))
        (λ _ h. cc) (λ h. cc) (λ _ h. cc)
        (λ _ again due _. timer st.memory_pressure_candidate_since refl again due)
    where
      timer :
          (since : Option Instant)
          → st.memory_pressure_candidate_since ≡ since
          → st.memory_pressure_candidate ≡ o
          → n ≤ as_secs (duration_since now (unwrap_or st.memory_pressure_candidate_since now))
          → (s : Instant) × (st.memory_pressure_candidate_since ≡ some s)
            × (st.memory_pressure_candidate ≡ o)
            × (n ≤ as_secs (duration_since now s))
      timer none e again due =
          let short : n ≤ as_secs (duration_since now now) = rw e at due in absurd (omega arith)
      timer (some s) e again due = (s, e, again, rw e at due)

stabilize-Backed :
    (st : PressureState) (history : List (String × Instant)) (o : String) (now : Instant) (n : ℕ)
    → Backed st history
    → Backed (stabilize_memory_pressure_at st o n now).state ((o, now) ∷ history)
unfolding stabilize_memory_pressure_at
stabilize-Backed st history o now n b =
    stabilize_from-Backed (started st) history o now n (started-Backed st history o now b)

after-Backed : (n : ℕ) (history : List (String × Instant)) → Backed (after n history) history
unfolding after
after-Backed n [] = inl refl
after-Backed n ((o, now) ∷ history) =
    stabilize-Backed (after n history) history o now n (after-Backed n history)

-- The result names the state that is kept, a move reports the state before it, and without a move
-- the state stays what it was (`ok` at the first call).
pub stabilize_reports :
    (st : PressureState) (o : String) (n : ℕ) (now : Instant)
    → let r = stabilize_memory_pressure_at st o n now in
      (r.stable ≡ r.state.memory_pressure_state)
      × (((r.transitioned ≡ true)
            × (r.stable ≡ o)
            × (r.stable ≢ (started st).memory_pressure_state)
            × (r.previous ≡ some (started st).memory_pressure_state))
          ⊎ ((r.transitioned ≡ false)
              × (r.stable ≡ (started st).memory_pressure_state)
              × (r.previous ≡ none)))
unfolding stabilize_memory_pressure_at
stabilize_reports st o n now =
    stabilize_from_cases (started st) o n now
      (λ r.
        (r.stable ≡ r.state.memory_pressure_state)
        × (((r.transitioned ≡ true)
              × (r.stable ≡ o)
              × (r.stable ≢ (started st).memory_pressure_state)
              × (r.previous ≡ some (started st).memory_pressure_state))
            ⊎ ((r.transitioned ≡ false)
                × (r.stable ≡ (started st).memory_pressure_state)
                × (r.previous ≡ none))))
      (λ _. (refl, inr (refl, refl, refl))) (refl, inr (refl, refl, refl))
      (λ _. (refl, inr (refl, refl, refl)))
      (λ ne _ _. (refl, inl (refl, refl, λ e. ne (sym e), refl)))

-- A state that moves is reported as a transition.
moving-transitions :
    (st : PressureState) (o : String) (n : ℕ) (now : Instant)
    → ((stabilize_memory_pressure_at st o n now).transitioned ≡ true)
      ⊎ ((stabilize_memory_pressure_at st o n now).state.memory_pressure_state
          ≢ (started st).memory_pressure_state)
    → (stabilize_memory_pressure_at st o n now).transitioned ≡ true
moving-transitions st o n now (inl h) = h
moving-transitions st o n now (inr other) =
    let (named, which) = stabilize_reports st o n now in
    elim which [ inl (yes_, _, _, _) ↦ yes_ | inr (_, kept, _) ↦ absurd (other (sym named ∙ kept)) ]

-- The stable pressure state moves only to a state that every observation has shown without a break
-- for at least `memory_pressure_sustain_secs`, if that is positive: one spike never moves it. So it is
-- where a transition is reported, and where the state after a call is another one than before it, which
-- is `ok` at the first call.
pub transition_held :
    (n : ℕ) (history : List (String × Instant)) (o : String) (now : Instant)
    → 0 < n
    → ((stabilize_memory_pressure_at (after n history) o n now).transitioned ≡ true)
      ⊎ ((stabilize_memory_pressure_at (after n history) o n now).state.memory_pressure_state
          ≢ (started (after n history)).memory_pressure_state)
    → (s : Instant) × HeldSince o s history × (n ≤ as_secs (duration_since now s))
unfolding stabilize_memory_pressure_at
transition_held n history o now pos h =
    let st = started (after n history) in
    let (s, since, again, due) =
      stabilize_from-moved st history o now n pos
        (moving-transitions (after n history) o n now h) in
    held (started-Backed (after n history) history o now (after-Backed n history)) s since again due
  where
    held :
        Backed (started (after n history)) history
        → (s : Instant) → (started (after n history)).memory_pressure_candidate_since ≡ some s
        → (started (after n history)).memory_pressure_candidate ≡ o
        → n ≤ as_secs (duration_since now s)
        → (s : Instant) × HeldSince o s history × (n ≤ as_secs (duration_since now s))
    held (inl e) s since again due = cc
    held (inr (r, e, back)) s since again due = (
      s,
      subst (λ (c : String). HeldSince c s history) again
          (subst
            (λ (t : Instant).
              HeldSince (started (after n history)).memory_pressure_candidate t history)
            (some_inj (sym e ∙ since)) back),
      due,
    )

-- `o` is the state, or has been the candidate since `s`.
abbrev IsComing : String → Instant → PressureState → Type 0
IsComing o s st =
    (st.memory_pressure_state ≡ o)
    ⊎ ((st.memory_pressure_candidate ≡ o) × (st.memory_pressure_candidate_since ≡ some s))

-- The state after more observations of `o`, newest first.
pub repeat : String → ℕ → PressureState → List Instant → PressureState
repeat o n st [] = st
repeat o n st (now ∷ ts) = (stabilize_memory_pressure_at (repeat o n st ts) o n now).state

module _ (o : String) (s : Instant) (n : ℕ) where
  -- A call on a started state.
  running :
      (st : PressureState) (now : Instant)
      → st.memory_pressure_state ≢ ""
      → stabilize_memory_pressure_at st o n now ≡ stabilize_from st o n now
  unfolding stabilize_memory_pressure_at
  running st now ne = elim (Bool-cases (st.memory_pressure_state == "")) [
    | inl e ↦ absurd (ne (==→≡ _ _ e))
    | inr e ↦ rw e
  ]

  IsComing-start :
      (st : PressureState)
      → o ≢ ""
      → st.memory_pressure_state ≢ ""
      → st.memory_pressure_candidate ≢ o
      → let r = (stabilize_from st o n s).state in IsComing o s r × (r.memory_pressure_state ≢ "")
  unfolding stabilize_from
  IsComing-start st full ne new =
      ground (arith, eq_iff st.memory_pressure_state o, eq_iff st.memory_pressure_candidate o)

  IsComing-step :
      (st : PressureState) (now : Instant)
      → o ≢ ""
      → st.memory_pressure_state ≢ ""
      → IsComing o s st
      → let r = (stabilize_memory_pressure_at st o n now).state in
        IsComing o s r
        × (r.memory_pressure_state ≢ "")
        × (n ≤ as_secs (duration_since now s) → r.memory_pressure_state ≡ o)
  unfolding stabilize_from
  IsComing-step st now full ne c =
      rw (running st now ne)
        (ground (arith, eq_iff st.memory_pressure_state o, eq_iff st.memory_pressure_candidate o))

  IsComing-repeat :
      (st : PressureState) (ts : List Instant)
      → o ≢ ""
      → st.memory_pressure_state ≢ ""
      → IsComing o s st
      → IsComing o s (repeat o n st ts) × ((repeat o n st ts).memory_pressure_state ≢ "")
  unfolding repeat
  IsComing-repeat st [] full ne c = (c, ne)
  IsComing-repeat st (t ∷ ts) full ne c =
      let r = IsComing-repeat st ts full ne c in
      let next = IsComing-step (repeat o n st ts) t full r.1 r.0 in (next.0, next.1)

ok-ne : string_eq.beq "ok" "" ≡ false
ok-ne = refl

started-ne : (st : PressureState) → (started st).memory_pressure_state ≢ ""
started-ne st = elim (Bool-cases (st.memory_pressure_state == "")) [
  | inl e ↦ rw e (λ h. cc (sym ok-ne ∙ (eq_iff "ok" "").1 h))
  | inr e ↦ rw e (λ h. cc (sym e ∙ (eq_iff st.memory_pressure_state "").1 h))
]

same : (st : PressureState) → (started st).memory_pressure_candidate ≡ st.memory_pressure_candidate
same st = ground arith

-- Pressure that lasts is acted on: once an observation starts a new candidate, and every later one
-- repeats it, the state is that observation from `memory_pressure_sustain_secs` on.
pub sustained_arrives :
    (st : PressureState) (o : String) (n : ℕ) (s now : Instant) (ts : List Instant)
    → o ≢ ""
    → st.memory_pressure_candidate ≢ o
    → n ≤ as_secs (duration_since now s)
    → (repeat o n (stabilize_memory_pressure_at st o n s).state (now ∷ ts)).memory_pressure_state
      ≡ o
unfolding repeat stabilize_memory_pressure_at
sustained_arrives st o n s now ts full new due =
    let first =
      IsComing-start o s n (started st) full (started-ne st) (λ h. new (sym (same st) ∙ h)) in
    let c =
      IsComing-repeat o s n (stabilize_from (started st) o n s).state ts full first.1 first.0 in
    (IsComing-step o s n _ now full c.1 c.0).2 due
