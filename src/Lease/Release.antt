-- ===== src/Lease/Release.antt =====
-- `release_with`, which the expiry timer, the guard and the recovery at startup call.
pub mod Compared
use dracon_system_disk_proce.Common.{
  ℕ, ◌≡◌, refl, sym, ap, ◌∙◌, ◌≢◌, ◌⊎◌, inl, inr, nat_beq, Bool, true, false, not, ◌&&◌, Option,
  none, some, String, if◌then◌else◌, string_eq, arith, if_cases, subst, Bool-cases,
}
use dracon_system_disk_proce.Lease.{
  Lease, World, Write, refused, unverified, verified, reported, set_quota, Outcome, ok, err,
  lease_is_owned,
}
use dracon_system_disk_proce.Lease.Cap.Backed.{is_err, nat_beq→≡}

pub record ReleaseAnswers : Type 0 where
  pub locked : Bool
  pub readable : Bool
  pub load_state : Option String
  pub invocation : Option String
  pub quota_reads : Bool
  pub set_original : Write
  pub remove_file : Bool
  pub stops : Bool

-- `systemctl stop` of a lease's own timer; its failure is not looked at.
abbrev pub stop_timer : Bool → String → Option String → Option String
stop_timer stops timer none = none
stop_timer stops timer (some armed) =
    if stops && string_eq.beq armed timer then none else some armed

abbrev pub retire : ReleaseAnswers → World → Lease → World × Outcome
retire a w lease =
    if a.remove_file
    then (record w { stored = none; timer = stop_timer a.stops lease.timer w.timer }, ok "")
    else (w, err "remove_file")

-- Compare and restore.
abbrev pub restore_owned : ReleaseAnswers → Write → World → Lease → World × Outcome
restore_owned a set w lease =
    if not a.quota_reads
    then (w, err "quota")
    else if nat_beq w.quota lease.applied
    then (let w1 = set_quota set w lease.original in
        if reported set then retire a w1 lease else (w1, err "CPU quota verification failed"))
    else retire a w lease

abbrev pub by_ownership : ReleaseAnswers → World → Lease → Option Bool → World × Outcome
by_ownership a w lease none =
    (w, err "unit ownership unavailable; retaining CPU recovery obligation")
by_ownership a w lease (some false) = retire a w lease
by_ownership a w lease (some true) = restore_owned a a.set_original w lease

abbrev pub by_invocation :
    ReleaseAnswers → World → Lease → String → String → Option String → World × Outcome
by_invocation a w lease boot load_state none = (w, err "InvocationID")
by_invocation a w lease boot load_state (some invocation) =
    by_ownership a w lease
      (lease_is_owned lease.boot_id boot lease.invocation invocation load_state)

abbrev pub by_load_state : ReleaseAnswers → World → Lease → String → Option String → World × Outcome
by_load_state a w lease boot none = (w, err "LoadState")
by_load_state a w lease boot (some load_state) =
    by_invocation a w lease boot load_state
      (if string_eq.beq load_state "loaded" then a.invocation else some "")

unfoldable pub release_lease : ReleaseAnswers → World → String → Lease → World × Outcome
unfolding lease_is_owned
release_lease a w boot lease =
    by_load_state a w lease boot
      (if string_eq.beq boot lease.boot_id then a.load_state else some "")

abbrev pub release_loaded :
    ReleaseAnswers → World → String → String → Option Lease → World × Outcome
release_loaded a w boot generation none = (w, ok "")
release_loaded a w boot generation (some lease) =
    if not (string_eq.beq lease.generation generation)
    then (w, ok "")
    else release_lease a w boot lease

unfoldable pub release_with : ReleaseAnswers → World → String → String → World × Outcome
unfolding release_lease
release_with a w boot generation =
    if not a.locked
    then (w, err "CPU lease busy")
    else if not a.readable
    then (w, err "load")
    else release_loaded a w boot generation w.stored
