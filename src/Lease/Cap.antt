-- ===== src/Lease/Cap.antt =====
-- `cap_prepared`: intent, timer, checks, quota.
pub mod Backed
pub mod Existing
use dracon_system_disk_proce.Common.{
  ℕ, ◌+◌, ◌*◌, min, leb, nat_beq, ltb, Bool, true, false, not, ◌&&◌, ◌||◌, Option, none, some, List,
  [], ◌∷◌, String, ◌==◌, if◌then◌else◌, string_eq, saturating_add,
}
use dracon_system_disk_proce.Lease.{
  Lease, World, Write, refused, unverified, verified, reported, set_quota, save, Outcome, ok, err,
  IntentAction, reuse, restore_unprotected, drop_unapplied, preserve_external, reconcile_intent,
}

-- What the manager, the clock, the files and the caller's check answer, call by call. A read that
-- fails is `none`. The operator may change the quota after the first read.
pub record Answers : Type 0 where
  pub invocation : Option String
  pub active_state : Option String
  pub locked : Bool
  pub readable : Bool
  pub quota_reads : Bool
  pub old_timer_state : Option String
  pub remove_file : Bool
  pub save_reused : Write
  pub set_original : Write
  pub now : ℕ
  pub generation : String
  pub timer : String
  pub save_intent : Write
  pub arm : Bool
  pub timer_state : Option String
  pub save_armed : Write
  pub delegate : Option String
  pub workload_valid : Bool
  pub operator : Option ℕ
  pub quota_reads_again : Bool
  pub invocation_again : Option String
  pub now_again : ℕ
  pub set_applied : Write
  pub save_applied : Write

abbrev pub says : Option String → String → Bool
says none value = false
says (some x) value = string_eq.beq x value

abbrev pub operated : Option ℕ → World → World
operated none w = w
operated (some quota) w = record w { quota = quota }

abbrev pub finish : Write → Write → World → Lease → World × Outcome
finish set_applied save_applied w lease =
    let w1 = set_quota set_applied w lease.applied in
    if not (reported set_applied)
    then (w1, err "CPU quota verification failed")
    else let w2 = save save_applied w1 (record lease { applied_verified = true }) in
      if reported save_applied then (w2, ok lease.generation) else (w2, err "save")

-- The checks between the armed intent and the mutation.
unfoldable pub apply_checked : Answers → World → Lease → World × Outcome
apply_checked a w0 lease =
    let w = operated a.operator w0 in
    if not (says a.delegate "no")
    then (w, err "delegated scopes are unsupported for safe CPU limiting")
    else if not a.workload_valid
    then (w, err "workload")
    else if not (a.quota_reads_again && nat_beq w.quota lease.original)
    then (w, err "CPU quota changed before apply")
    else if not (says a.invocation_again lease.invocation)
    then (w, err "process or unit identity changed before CPU cap")
    else if leb lease.expires_at_unix_secs a.now_again
    then (w, err "CPU lease expired during preparation; quota not applied")
    else finish a.set_applied a.save_applied w lease

unfoldable pub arm_and_apply : Answers → World → Lease → World × Outcome
unfolding apply_checked
arm_and_apply a w lease =
    let w1 = save a.save_intent w lease in
    if not (reported a.save_intent)
    then (w1, err "save")
    else if not a.arm
    then (w1, err "arm")
    else let w2 = record w1 { timer = some lease.timer } in
      if not (says a.timer_state "active")
      then (w2, err "CPU expiry timer is not armed; refusing quota mutation")
      else let armed = record lease { armed = true } in
        let w3 = save a.save_armed w2 armed in
        if reported a.save_armed then apply_checked a w3 armed else (w3, err "save")

abbrev pub new_lease : Answers → World → String → String → String → ℕ → ℕ → Lease
new_lease a w unit boot invocation percent lease_seconds = record {
  unit = unit;
  invocation = invocation;
  original = w.quota;
  applied = min w.quota (percent * 10000);
  generation = a.generation;
  timer = a.timer;
  boot_id = boot;
  armed = false;
  applied_verified = false;
  expires_at_unix_secs = saturating_add a.now lease_seconds;
}

unfoldable pub cap_new : Answers → World → String → String → String → ℕ → ℕ → World × Outcome
unfolding arm_and_apply
cap_new a w unit boot invocation percent lease_seconds =
    if not a.quota_reads
    then (w, err "quota")
    else if leb w.quota (min w.quota (percent * 10000))
    then (w, err "workload already has an equal or stricter CPU quota")
    else arm_and_apply a w (new_lease a w unit boot invocation percent lease_seconds)

abbrev pub drop_file : Answers → World → String → World × Outcome
drop_file a w message =
    if a.remove_file then (record w { stored = none }, err message) else (w, err "remove_file")

abbrev pub act : Answers → World → Lease → IntentAction → World × Outcome
act a w old reuse =
    let w1 = save a.save_reused w (record old { applied_verified = true }) in
    if reported a.save_reused then (w1, ok old.generation) else (w1, err "save")
act a w old restore_unprotected =
    let w1 = set_quota a.set_original w old.original in
    if reported a.set_original
    then drop_file a w1 "incomplete CPU lease recovered; retry next pass"
    else (w1, err "CPU quota verification failed")
act a w old drop_unapplied = drop_file a w "incomplete CPU lease recovered; retry next pass"
act a w old preserve_external =
    (w, err "CPU lease state changed externally; no application claimed")

abbrev pub after_timer : Answers → World → Lease → Option String → World × Outcome
after_timer a w old none = (w, err "timer")
after_timer a w old (some s) = act a w old (reconcile_intent old w.quota (string_eq.beq s "active"))

-- An intent that an earlier pass left. The timer is asked only for an armed lease in its time.
unfoldable pub cap_existing : Answers → World → String → String → Lease → World × Outcome
unfolding reconcile_intent
cap_existing a w boot invocation old =
    if not (string_eq.beq old.invocation invocation) || not (string_eq.beq old.boot_id boot)
    then drop_file a w "stale CPU intent retired without touching replacement unit; retry next pass"
    else if not a.quota_reads
    then (w, err "quota")
    else if old.armed && ltb a.now old.expires_at_unix_secs
    then after_timer a w old a.old_timer_state
    else act a w old (reconcile_intent old w.quota false)

abbrev pub cap_loaded :
    Answers → World → String → String → String → ℕ → ℕ → Option Lease → World × Outcome
cap_loaded a w unit boot invocation percent lease_seconds none =
    cap_new a w unit boot invocation percent lease_seconds
cap_loaded a w unit boot invocation percent lease_seconds (some old) =
    cap_existing a w boot invocation old

abbrev pub cap_invoked : Answers → World → String → String → ℕ → ℕ → Option String → World × Outcome
cap_invoked a w unit boot percent lease_seconds none = (w, err "InvocationID")
cap_invoked a w unit boot percent lease_seconds (some invocation) =
    if string_eq.beq invocation "" || not (says a.active_state "active")
    then (w, err "workload scope not active")
    else if not a.locked
    then (w, err "CPU lease busy")
    else if not a.readable
    then (w, err "load")
    else cap_loaded a w unit boot invocation percent lease_seconds w.stored

unfoldable pub cap_prepared : Answers → World → String → String → ℕ → ℕ → World × Outcome
unfolding cap_new cap_existing
cap_prepared a w boot unit percent lease_seconds =
    cap_invoked a w unit boot percent lease_seconds a.invocation
