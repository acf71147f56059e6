-- ===== src/Notify/Repeats.antt =====
-- When a reported state is reported again.
use dracon_system_disk_proce.Common.{
  ℕ, ◌-◌, ◌≡◌, ◌≢◌, refl, ◌∙◌, inl, inr, max, leb, true, not, ◌&&◌, some, String, string_eq,
  Instant, as_secs, Bool-cases, ==_refl,
}
use dracon_system_disk_proce.Common.Table.{get, get-insert}
use dracon_system_disk_proce.Notify.{NotifyState, report_state_transition}

recorded :
    (st : NotifyState) (now : Instant) (key value : String) (repeat_secs : ℕ)
    → (report_state_transition st now key value repeat_secs).1.1 ≡ true
    → get (report_state_transition st now key value repeat_secs).0.report_states key
      ≡ some (record { value = value; last_emitted = some now })
unfolding report_state_transition
recorded st now key value repeat_secs emitted =
    get-insert st.report_states key key _ ∙ rw (==_refl key, emitted) refl

again :
    (st : NotifyState) (now later : Instant) (key value : String) (repeat_secs : ℕ)
    → value ≢ ""
    → get st.report_states key ≡ some (record { value = value; last_emitted = some now })
    → (report_state_transition st later key value repeat_secs).1 ≡ (
      some value,
      not (string_eq.beq value "ok") && leb (max repeat_secs 1) (as_secs (later - now)),
    )
unfolding report_state_transition
again st now later key value repeat_secs named e = elim (Bool-cases (string_eq.beq value "")) [
  | inl empty ↦ absurd (named ((string_eq.beq_iff value "").0 empty))
  | inr full ↦ rw (e, full, (string_eq.beq_iff value value).1 refl) refl
]

-- After a state has been reported, the same state is not reported as a change, and is reported
-- again only if it is not "ok" and the repeat interval, of at least one second, has passed.
pub report_state_repeats :
    (st : NotifyState) (now later : Instant) (key value : String) (repeat_secs : ℕ)
    → value ≢ ""
    → (report_state_transition st now key value repeat_secs).1.1 ≡ true
    → (report_state_transition
        (report_state_transition st now key value repeat_secs).0
        later
        key
        value
        repeat_secs).1
      ≡ (
        some value,
        not (string_eq.beq value "ok") && leb (max repeat_secs 1) (as_secs (later - now)),
      )
report_state_repeats st now later key value repeat_secs named emitted =
    again (report_state_transition st now key value repeat_secs).0 now later key value repeat_secs
      named (recorded st now key value repeat_secs emitted)
