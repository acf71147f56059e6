-- ===== src/Reap/Verify.antt =====
-- reap.rs: the scans for abandoned servers and pressure orphans, and the checks at kill time.
pub mod Live
pub mod Servers
use dracon_system_disk_proce.Common.{
  ℕ, zero, suc, ◌+◌, ◌/◌, max, Bool, true, false, not, ◌&&◌, ◌||◌, Option, none, some, List, [],
  ◌∷◌, leb, ltb, nat_beq, if◌then◌else◌, saturating_mul, is_none,
}
use dracon_system_disk_proce.Common.Signed.{ℤ, pos, leb_ℤ, beq_ℤ}
use dracon_system_disk_proce.Common.Sort.{sort_by}
use dracon_system_disk_proce.Common.Text.{Text, is_empty, trim, replace_nul, parse_i32}
use dracon_system_disk_proce.Reap.Proc.{
  ProcRoot, ProcDir, ReapPolicy, StatFields, live_stat, elapsed_secs, matches_signature,
  matches_exempt, process_executable_name, rss_mb_from_status, parent_comm_is_systemd,
}
use dracon_system_disk_proce.Reap.Browser.{
  DesktopVerdict, test, desktop, not_a_browser, Usage, driven, undriven, unknown,
  browser_decides_by_veto, classify_desktop_session, tree_usage,
}
use dracon_system_disk_proce.Reap.Tree.{
  TreeMember, ForgottenTree, PassTime, measure_tree_footprint, forgotten_min_tree_age_secs,
}

pub record ReapCandidate : Type 0 where
  pub pid : ℤ
  pub comm : Text
  pub args : Text
  pub idle_hours : ℕ
  pub cpu_seconds : ℕ
  pub rss_mb : ℕ
  pub signature : Text
  pub starttime : ℕ

-- The command line with its NULs as spaces, if it is not empty, and the executable's name.
unfoldable pub command : ProcDir → Option (Text × Text)
command d = elim d.cmdline [
  | none ↦ none
  | some raw ↦
      let args = trim (replace_nul raw) in
      if is_empty args then none else some (args, process_executable_name d raw)
]

-- The allowlist entry that a command line matches, if the executable is not exempt.
unfoldable pub allowlisted : ReapPolicy → Option (Text × Text) → Option (Text × Text)
allowlisted policy none = none
allowlisted policy (some (args, exe)) =
    if matches_exempt exe policy.exempt_names
    then none
    else elim (matches_signature args policy.signatures) [
      | none ↦ none
      | some signature ↦ some (args, signature)
    ]

abbrev pub lifetime_cpu : StatFields → ℕ → ℕ
lifetime_cpu fields ticks_per_sec = fields.cpu_ticks / max ticks_per_sec 1

comm_of : Option Text → Text
comm_of none = []
comm_of (some c) = trim c

unfoldable pub candidate :
    ProcRoot → PassTime → ℤ → StatFields → Option (Text × Text) → Option ReapCandidate
unfolding comm_of
candidate proc time pid fields none = none
candidate proc time pid fields (some (args, signature)) = some (record {
  pid = pid;
  comm = comm_of (proc.dir pid).comm;
  args = args;
  idle_hours = elapsed_secs fields.starttime time.ticks_per_sec time.boot_time time.now / 3600;
  cpu_seconds = lifetime_cpu fields time.ticks_per_sec;
  rss_mb = rss_mb_from_status (proc.dir pid);
  signature = signature;
  starttime = fields.starttime;
})

-- The body of the loop of `scan_reap_candidates`.
unfoldable pub reap_candidate :
    ProcRoot → ReapPolicy → PassTime → ℤ → Option StatFields → Option ReapCandidate
unfolding command allowlisted candidate
reap_candidate proc policy time pid none = none
reap_candidate proc policy time pid (some fields) =
    let found = candidate proc time pid fields (allowlisted policy (command (proc.dir pid))) in
    if not (nat_beq fields.state 83)
    then none
    else if not (beq_ℤ fields.tty_nr (pos 0))
    then none
    else if ltb policy.max_cpu_seconds (lifetime_cpu fields time.ticks_per_sec)
    then none
    else if ltb (elapsed_secs fields.starttime time.ticks_per_sec time.boot_time time.now)
        (saturating_mul policy.min_idle_hours 3600)
    then none
    else found

-- The body of the loop of `scan_pressure_orphans`.
unfoldable pub pressure_orphan :
    ProcRoot → ℤ → ReapPolicy → PassTime → ℤ → Option StatFields → Option ReapCandidate
unfolding command allowlisted candidate
pressure_orphan proc self_pid policy time pid none = none
pressure_orphan proc self_pid policy time pid (some fields) =
    let found = candidate proc time pid fields (allowlisted policy (command (proc.dir pid))) in
    if leb_ℤ pid (pos 1) || beq_ℤ pid self_pid
    then none
    else if not (parent_comm_is_systemd proc fields.ppid)
    then none
    else if not (beq_ℤ fields.tty_nr (pos 0))
    then none
    else found

push_some : Option ReapCandidate → List ReapCandidate → List ReapCandidate
push_some none cs = cs
push_some (some c) cs = c ∷ cs

-- Both scans: every name that is a number, with what the body makes of it.
unfoldable pub scan_names : (ℤ → Option ReapCandidate) → List Text → List ReapCandidate
unfolding push_some
scan_names body [] = []
scan_names body (name ∷ names) =
    push_some (elim (parse_i32 name) [ none ↦ none | some pid ↦ body pid ]) (scan_names body names)

-- By resident size, largest first, then by pid.
abbrev by_rss : ReapCandidate → ReapCandidate → Bool
by_rss a b = ltb b.rss_mb a.rss_mb || (nat_beq a.rss_mb b.rss_mb && leb_ℤ a.pid b.pid)

unfoldable pub listed : ProcRoot → (ℤ → Option ReapCandidate) → List ReapCandidate
unfolding scan_names
listed proc body = elim proc.names [
  | none ↦ []
  | some names ↦ sort_by by_rss (scan_names body names)
]

unfoldable pub scan_reap_candidates : ProcRoot → ReapPolicy → PassTime → List ReapCandidate
unfolding listed reap_candidate
scan_reap_candidates proc policy time =
    listed proc (λ pid. reap_candidate proc policy time pid (live_stat (proc.dir pid)))

unfoldable pub scan_pressure_orphans : ProcRoot → ℤ → ReapPolicy → PassTime → List ReapCandidate
unfolding listed pressure_orphan
scan_pressure_orphans proc self_pid policy time =
    listed proc (λ pid. pressure_orphan proc self_pid policy time pid (live_stat (proc.dir pid)))

unfoldable pub verify_candidate_for_reap : ProcRoot → ℤ → ReapCandidate → ReapPolicy → ℕ → Bool
unfolding command allowlisted
verify_candidate_for_reap proc self_pid c policy ticks_per_sec =
    if leb_ℤ c.pid (pos 1) || beq_ℤ c.pid self_pid
    then false
    else elim (live_stat (proc.dir c.pid)) [
      | none ↦ false
      | some fields ↦
          if not (nat_beq fields.starttime c.starttime)
          then false
          else if not (nat_beq fields.state 83) || not (beq_ℤ fields.tty_nr (pos 0))
          then false
          else if ltb policy.max_cpu_seconds (lifetime_cpu fields ticks_per_sec)
          then false
          else not (is_none (allowlisted policy (command (proc.dir c.pid))))
    ]

unfoldable pub verify_orphan_for_reap : ProcRoot → ℤ → ReapCandidate → ReapPolicy → ℕ → Bool
unfolding command allowlisted
verify_orphan_for_reap proc self_pid c policy ticks_per_sec =
    if leb_ℤ c.pid (pos 1) || beq_ℤ c.pid self_pid
    then false
    else elim (live_stat (proc.dir c.pid)) [
      | none ↦ false
      | some fields ↦
          if not (nat_beq fields.starttime c.starttime)
          then false
          else if not (parent_comm_is_systemd proc fields.ppid)
          then false
          else if not (beq_ℤ fields.tty_nr (pos 0))
          then false
          else not (is_none (allowlisted policy (command (proc.dir c.pid))))
    ]

-- One member of a tree at kill time: whether it is still the same live process and not exempt.
member_command : ReapPolicy → ProcDir → Option Text → Bool
member_command policy d none = false
member_command policy d (some raw) =
    browser_decides_by_veto (trim (replace_nul raw))
    || not (matches_exempt (process_executable_name d raw) policy.exempt_names)

unfoldable pub member_live : ProcRoot → ReapPolicy → TreeMember → Bool
unfolding member_command
member_live proc policy m = elim (live_stat (proc.dir m.pid)) [
  | none ↦ false
  | some fields ↦
      nat_beq fields.starttime m.starttime
      && not (nat_beq fields.state 90 || nat_beq fields.state 88)
      && member_command policy (proc.dir m.pid) (proc.dir m.pid).cmdline
]

pub record VerifiedTree : Type 0 where
  pub members : List TreeMember
  pub skipped : ℕ

-- The loop over the members.
unfoldable pub verify_members : ProcRoot → ReapPolicy → List TreeMember → VerifiedTree
unfolding member_live
verify_members proc policy [] = record { members = []; skipped = 0 }
verify_members proc policy (m ∷ ms) =
    let rest = verify_members proc policy ms in
    if member_live proc policy m
    then record rest { members = m ∷ rest.members }
    else record rest { skipped = rest.skipped + 1 }

-- The gate on the use of the tree.
unfoldable pub usage_allows : ReapPolicy → ℕ → Usage → Bool
usage_allows policy cpu_seconds driven = false
usage_allows policy cpu_seconds unknown = not (ltb policy.max_cpu_seconds cpu_seconds)
usage_allows policy cpu_seconds undriven = true

abbrev pub is_test : DesktopVerdict → Bool
is_test (test why) = true
is_test _ = false

unfoldable pub root_command_allows : ReapPolicy → Option (Text × Text) → Bool
root_command_allows policy none = false
root_command_allows policy (some (args, exe)) =
    not (matches_exempt exe policy.exempt_names && not (browser_decides_by_veto args))
    && is_test (classify_desktop_session args)

-- The gates on the root, live.
unfoldable pub root_allows : ProcRoot → ForgottenTree → ReapPolicy → ℕ → Option StatFields → Bool
unfolding command usage_allows root_command_allows
root_allows proc tree policy ticks_per_sec none = false
root_allows proc tree policy ticks_per_sec (some fields) =
    nat_beq fields.starttime tree.root_starttime
    && parent_comm_is_systemd proc fields.ppid
    && not (not (beq_ℤ fields.tty_nr (pos 0)) || not (nat_beq fields.state 83))
    && usage_allows policy (lifetime_cpu fields ticks_per_sec) (tree_usage proc tree.root_args)
    && not (ltb tree.age_secs forgotten_min_tree_age_secs)
    && root_command_allows policy (command (proc.dir tree.root_pid))

unfoldable pub still_heavy : ProcRoot → ForgottenTree → ReapPolicy → List TreeMember → Bool
still_heavy proc tree policy members =
    let (root_footprint, aggregate) = measure_tree_footprint proc tree.root_pid (0, 0) members in
    not (
      ltb aggregate policy.forgotten_tree_footprint_mb
      && ltb root_footprint policy.forgotten_footprint_mb)

abbrev no_members : List TreeMember → Bool
no_members [] = true
no_members (m ∷ ms) = false

unfoldable pub verify_forgotten_tree_for_reap :
    ProcRoot → ForgottenTree → ReapPolicy → ℕ → Option VerifiedTree
unfolding root_allows verify_members still_heavy
verify_forgotten_tree_for_reap proc tree policy ticks_per_sec =
    let verified = verify_members proc policy tree.members in
    if not (root_allows proc tree policy ticks_per_sec (live_stat (proc.dir tree.root_pid)))
    then none
    else if no_members verified.members
    then none
    else if not (still_heavy proc tree policy verified.members)
    then none
    else some verified
