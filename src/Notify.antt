-- ===== src/Notify.antt =====
-- main.rs: cooldowns of notifications and repeated reports of a state.
pub mod Spacing
pub mod Repeats
use dracon_system_disk_proce.Common.{
  ℕ, ◌+◌, ◌-◌, max, leb, ltb, Bool, true, false, not, ◌&&◌, ◌||◌, Option, none, some, List, [], ◌∷◌,
  String, ◌==◌, if◌then◌else◌, string_eq, Instant, as_secs, from_secs, saturating_mul, is_none,
}
use dracon_system_disk_proce.Common.Table.{get, insert, retain}

-- `ReportState`
pub record ReportState : Type 0 where
  pub value : String
  pub last_emitted : Option Instant

-- The fields of `GuardRuntimeState` that notifications use.
pub record NotifyState : Type 0 where
  pub notify_cooldowns : List (String × Instant)
  pub report_states : List (String × ReportState)

abbrev pub suppressed : Instant → Option Instant → Bool
suppressed now none = false
suppressed now (some until) = ltb now until

unfoldable pub should_notify : NotifyState → Instant → String → ℕ → NotifyState × Bool
should_notify st now key cooldown_secs =
    if suppressed now (get st.notify_cooldowns key) then (st, false) else (
      record st {
        notify_cooldowns = insert st.notify_cooldowns key (now + from_secs (max cooldown_secs 1));
      },
      true,
    )

-- `Instant::checked_sub`, with the first instant that the clock can represent at 0.
abbrev pub stale_cutoff : Instant → ℕ → Instant
stale_cutoff now cooldown_secs =
    let span = from_secs (saturating_mul cooldown_secs 2) in
    if leb span now then now - span else now

unfoldable pub cleanup_stale_cooldowns : NotifyState → Instant → ℕ → NotifyState
cleanup_stale_cooldowns st now cooldown_secs =
    let cutoff = stale_cutoff now cooldown_secs in
    record st {
      notify_cooldowns =
          retain (λ (key : String) (since : Instant). ltb cutoff since) st.notify_cooldowns;
    }

abbrev pub entry_or_default : Option ReportState → ReportState
entry_or_default none = record { value = ""; last_emitted = none }
entry_or_default (some entry) = entry

abbrev pub previous_of : String → Option String
previous_of value = if string_eq.beq value "" then none else some value

abbrev pub is_value : Option String → String → Bool
is_value none value = false
is_value (some x) value = string_eq.beq x value

abbrev pub repeat_due : Instant → ℕ → Option Instant → Bool
repeat_due now repeat_secs none = true
repeat_due now repeat_secs (some last) = leb (max repeat_secs 1) (as_secs (now - last))

unfoldable pub report_state_transition :
    NotifyState → Instant → String → String → ℕ → NotifyState × (Option String × Bool)
report_state_transition st now key value repeat_secs =
    let entry = entry_or_default (get st.report_states key) in
    let previous = previous_of entry.value in
    let changed = not (is_value previous value) in
    let should_emit =
      changed
      || (not (string_eq.beq value "ok") && repeat_due now repeat_secs entry.last_emitted) in
    (
      record st {
        report_states = insert st.report_states key (record {
          value = value;
          last_emitted = if should_emit then some now else entry.last_emitted;
        });
      },
      (previous, should_emit),
    )

unfoldable pub cooldown_due : Option Instant → ℕ → Instant → Bool
cooldown_due none interval_secs now = true
cooldown_due (some last) interval_secs now = leb (max interval_secs 60) (as_secs (now - last))

-- The operations on the cooldowns, each at its time.
pub data NotifyOp : Type 0 where
  notify : Instant → String → ℕ → NotifyOp
  cleanup : Instant → ℕ → NotifyOp

abbrev pub time_of : NotifyOp → Instant
time_of (notify now key cooldown) = now
time_of (cleanup now cooldown) = now

unfoldable pub notify_step : NotifyState → NotifyOp → NotifyState
unfolding should_notify cleanup_stale_cooldowns
notify_step st (notify now key cooldown) = (should_notify st now key cooldown).0
notify_step st (cleanup now cooldown) = cleanup_stale_cooldowns st now cooldown

unfoldable pub notify_run : NotifyState → List NotifyOp → NotifyState
unfolding notify_step
notify_run st [] = st
notify_run st (op ∷ ops) = notify_run (notify_step st op) ops
