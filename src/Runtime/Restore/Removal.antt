-- ===== src/Runtime/Restore/Removal.antt =====
-- What the removals of an adjustment leave in each table of adjusted processes.
use dracon_system_disk_proce.Common.{
  ◌≡◌, refl, ◌∙◌, Bool, true, false, ◌&&◌, not, Option, none, String, ◌==◌, if◌then◌else◌,
}
use dracon_system_disk_proce.Common.Signed.{ℤ, int_eq}
use dracon_system_disk_proce.Common.Table.{get, remove, get-remove}
use dracon_system_disk_proce.Process.{
  ProcessIdentity, ProcessIdentityStatus, matched, gone, mismatch, unavailable,
}
use dracon_system_disk_proce.Runtime.{
  Mitigations, ReniceState, NiceRestoreScope, legacy, memory, both, remove_nice_scope,
  remove_oom_bias, remove_cpu_cap, remove_legacy_renice, remove_memory_renice,
  remove_nice_adjustments, oom_root_has_pending_descendants,
}
use dracon_system_disk_proce.Runtime.Plan.{RuntimeAdjustment, nice, oom_bias, cpu_cap}
use dracon_system_disk_proce.Oom.{RestoreAnswer, failed}
use dracon_system_disk_proce.Runtime.Restore.{Host, ReniceAnswer, transient}

-- The tables of adjusted processes.
pub data Limiter : Type 0 where
  legacy_nice memory_nice bias cap : Limiter

abbrev pub Entry : Limiter → Type 0
Entry legacy_nice = ReniceState
Entry memory_nice = ReniceState
Entry bias = ℤ × ProcessIdentity
Entry cap = String × String × ProcessIdentity

abbrev pub look : (f : Limiter) → ℤ → Mitigations → Option (Entry f)
look legacy_nice k st = get st.reniced_pids k
look memory_nice k st = get st.memory_reniced_pids k
look bias k st = get st.oom_biased_pids k
look cap k st = get st.capped_pids k

abbrev pub in_scope : Limiter → NiceRestoreScope → Bool
in_scope legacy_nice legacy = true
in_scope legacy_nice memory = false
in_scope legacy_nice both = true
in_scope memory_nice legacy = false
in_scope memory_nice memory = true
in_scope memory_nice both = true
in_scope bias scope = false
in_scope cap scope = false

abbrev pub covers_bias : Limiter → ℤ → ℤ → Bool
covers_bias bias pid k = pid == k
covers_bias f pid k = false

abbrev pub covers_cap : Limiter → ℤ → ℤ → Bool
covers_cap cap pid k = pid == k
covers_cap f pid k = false

-- The adjustment is one of this table on this pid.
abbrev pub covers : Limiter → ℤ → RuntimeAdjustment → Bool
covers f k (nice pid original identity scope) = in_scope f scope && pid == k
covers f k (oom_bias pid adj identity) = covers_bias f pid k
covers f k (cpu_cap pid scope cgroup identity) = covers_cap f pid k

abbrev pub renice_ends : ReniceAnswer → Bool
renice_ends transient = false
renice_ends _ = true

abbrev pub restore_ends : RestoreAnswer → Bool
restore_ends failed = false
restore_ends _ = true

abbrev pub nice_ends : Host → ℤ → ℤ → ProcessIdentityStatus → Bool
nice_ends h pid original matched =
    if h.can_restore_nice_for pid then renice_ends (h.renice pid original) else true
nice_ends h pid original gone = true
nice_ends h pid original mismatch = true
nice_ends h pid original unavailable = false

abbrev pub oom_ends : Host → ℤ → ℤ → ProcessIdentity → ProcessIdentityStatus → Bool
oom_ends h pid adj identity matched = restore_ends (h.proc.restore pid identity adj)
oom_ends h pid adj identity gone = true
oom_ends h pid adj identity mismatch = true
oom_ends h pid adj identity unavailable = false

abbrev pub cap_ends : Host → ℤ → String → String → ProcessIdentityStatus → Bool
cap_ends h pid scope cgroup matched = h.uncap pid scope cgroup true
cap_ends h pid scope cgroup gone = h.uncap pid scope cgroup true
cap_ends h pid scope cgroup mismatch = h.uncap pid scope cgroup false
cap_ends h pid scope cgroup unavailable = false

-- The answers end the tracking of the adjustment: it was put back, it cannot be put back by this
-- guard, or its process is gone.
abbrev pub ends_tracking : Host → RuntimeAdjustment → Bool
ends_tracking h (nice pid original identity scope) =
    nice_ends h pid original (h.proc.status pid identity)
ends_tracking h (oom_bias pid adj identity) =
    oom_ends h pid adj identity (h.proc.status pid identity)
ends_tracking h (cpu_cap pid scope cgroup identity) =
    cap_ends h pid scope cgroup (h.proc.status pid identity)

pub look-remove_nice_scope :
    (f : Limiter) (st : Mitigations) (pid k : ℤ) (scope : NiceRestoreScope)
    → look f k (remove_nice_scope st pid scope)
      ≡ (if in_scope f scope && pid == k then none else look f k st)
unfolding remove_nice_scope remove_legacy_renice remove_memory_renice remove_nice_adjustments
look-remove_nice_scope legacy_nice st pid k legacy = get-remove st.reniced_pids pid k
look-remove_nice_scope legacy_nice st pid k memory = refl
look-remove_nice_scope legacy_nice st pid k both = get-remove st.reniced_pids pid k
look-remove_nice_scope memory_nice st pid k legacy = refl
look-remove_nice_scope memory_nice st pid k memory = get-remove st.memory_reniced_pids pid k
look-remove_nice_scope memory_nice st pid k both = get-remove st.memory_reniced_pids pid k
look-remove_nice_scope bias st pid k legacy = refl
look-remove_nice_scope bias st pid k memory = refl
look-remove_nice_scope bias st pid k both = refl
look-remove_nice_scope cap st pid k legacy = refl
look-remove_nice_scope cap st pid k memory = refl
look-remove_nice_scope cap st pid k both = refl

look-forget :
    (f : Limiter) (b : Bool) (st : Mitigations) (pid k : ℤ)
    → look f k (
        if b then record st { oom_known_descendants = remove st.oom_known_descendants pid } else st)
      ≡ look f k st
look-forget legacy_nice true st pid k = refl
look-forget legacy_nice false st pid k = refl
look-forget memory_nice true st pid k = refl
look-forget memory_nice false st pid k = refl
look-forget bias true st pid k = refl
look-forget bias false st pid k = refl
look-forget cap true st pid k = refl
look-forget cap false st pid k = refl

abbrev without_bias : Mitigations → ℤ → Mitigations
without_bias st pid = record st {
  oom_biased_pids = remove st.oom_biased_pids pid;
  oom_cooled_since = remove st.oom_cooled_since pid;
  oom_identity_unavailable_attempts = remove st.oom_identity_unavailable_attempts pid;
}

look-without_bias :
    (f : Limiter) (st : Mitigations) (pid k : ℤ)
    → look f k (without_bias st pid) ≡ (if covers_bias f pid k then none else look f k st)
look-without_bias legacy_nice st pid k = refl
look-without_bias memory_nice st pid k = refl
look-without_bias bias st pid k = get-remove st.oom_biased_pids pid k
look-without_bias cap st pid k = refl

pub look-remove_oom_bias :
    (f : Limiter) (st : Mitigations) (pid k : ℤ)
    → look f k (remove_oom_bias st pid) ≡ (if covers_bias f pid k then none else look f k st)
unfolding remove_oom_bias
look-remove_oom_bias f st pid k =
    look-forget f (not (oom_root_has_pending_descendants (without_bias st pid) pid))
      (without_bias st pid) pid k
    ∙ look-without_bias f st pid k

pub look-remove_cpu_cap :
    (f : Limiter) (st : Mitigations) (pid k : ℤ)
    → look f k (remove_cpu_cap st pid) ≡ (if covers_cap f pid k then none else look f k st)
unfolding remove_cpu_cap
look-remove_cpu_cap legacy_nice st pid k = refl
look-remove_cpu_cap memory_nice st pid k = refl
look-remove_cpu_cap bias st pid k = refl
look-remove_cpu_cap cap st pid k = get-remove st.capped_pids pid k
