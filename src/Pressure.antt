-- ===== src/Pressure.antt =====
-- main.rs: the memory sample, its classification, and the hysteresis of the pressure state.
pub mod Hysteresis
pub mod Sample
use dracon_system_disk_proce.Common.{
  ℕ, ◌-◌, ◌*◌, ◌/◌, min, ◌≡◌, Bool, true, false, Option, none, some, String, ◌&&◌, ◌||◌, ltb,
  nat_beq, ◌==◌, if◌then◌else◌, saturating_mul, Instant, duration_since, as_secs, List, [], ◌∷◌,
  not, string_eq, is_none,
}

-- `/proc/meminfo` in kB.
pub record MemorySample : Type 0 where
  pub mem_total_kb : ℕ
  pub mem_available_kb : ℕ
  pub swap_total_kb : ℕ
  pub swap_free_kb : ℕ

unfoldable pub mem_available_percent : MemorySample → ℕ
mem_available_percent s =
    if nat_beq s.mem_total_kb 0
    then 0
    else min (saturating_mul s.mem_available_kb 100 / s.mem_total_kb) 100

unfoldable pub swap_used_percent : MemorySample → ℕ
swap_used_percent s =
    if nat_beq s.swap_total_kb 0
    then 0
    else min (saturating_mul (s.swap_total_kb - s.swap_free_kb) 100 / s.swap_total_kb) 100

unfoldable pub classify_memory_pressure : Bool → Bool → Bool → String
classify_memory_pressure mem_low swap_high psi_or_swapin_active =
    if mem_low && (swap_high || psi_or_swapin_active)
    then "critical"
    else if mem_low || psi_or_swapin_active
    then "warn"
    else "ok"

-- The three fields of `GuardRuntimeState` that hold the pressure state.
pub record PressureState : Type 0 where
  pub memory_pressure_state : String
  pub memory_pressure_candidate : String
  pub memory_pressure_candidate_since : Option Instant

-- `GuardRuntimeState::default()`.
abbrev pub no_pressure : PressureState
no_pressure = record {
  memory_pressure_state = "";
  memory_pressure_candidate = "";
  memory_pressure_candidate_since = none;
}

abbrev unwrap_or {ℓ} : {A : Type ℓ} → Option A → A → A
unwrap_or none d = d
unwrap_or (some a) d = a

-- `if state.memory_pressure_state.is_empty() { … = "ok" }`
abbrev pub started : PressureState → PressureState
started st =
    if st.memory_pressure_state == "" then record st { memory_pressure_state = "ok" } else st

abbrev clear_candidate : PressureState → PressureState
clear_candidate st = record st {
  memory_pressure_candidate = "";
  memory_pressure_candidate_since = none;
}

-- What `stabilize_memory_pressure_at` returns, and the state that it leaves.
pub record Stabilized : Type 0 where
  pub state : PressureState
  pub stable : String
  pub previous : Option String
  pub transitioned : Bool

-- The state stays, and no transition is reported.
abbrev unmoved : PressureState → Stabilized
unmoved st = record {
  state = st;
  stable = st.memory_pressure_state;
  previous = none;
  transitioned = false;
}

-- The observation becomes the state.
abbrev moved : PressureState → String → Stabilized
moved st observed = record {
  state = clear_candidate (record st { memory_pressure_state = observed });
  stable = observed;
  previous = some st.memory_pressure_state;
  transitioned = true;
}

-- The part below the `is_empty` test.
unfoldable pub stabilize_from : PressureState → String → ℕ → Instant → Stabilized
stabilize_from st observed sustain_secs now =
    if st.memory_pressure_state == observed
    then unmoved (clear_candidate st)
    else if not (st.memory_pressure_candidate == observed)
    then unmoved (record st {
      memory_pressure_candidate = observed;
      memory_pressure_candidate_since = some now;
    })
    else if ltb (as_secs (duration_since now (unwrap_or st.memory_pressure_candidate_since now)))
        sustain_secs
    then unmoved st
    else moved st observed

unfoldable pub stabilize_memory_pressure_at : PressureState → String → ℕ → Instant → Stabilized
unfolding stabilize_from
stabilize_memory_pressure_at st observed sustain_secs now =
    stabilize_from (started st) observed sustain_secs now

-- The pressure state of the daemon after a history of observations, newest first.
unfoldable pub after : ℕ → List (String × Instant) → PressureState
after sustain_secs [] = no_pressure
after sustain_secs ((observed, now) ∷ history) =
    (stabilize_memory_pressure_at (after sustain_secs history) observed sustain_secs now).state
