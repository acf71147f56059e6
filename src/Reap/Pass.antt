-- ===== src/Reap/Pass.antt =====
-- reap.rs: the passes that end what they verified, within their time.
pub mod Signalled
pub mod Rows
pub mod Servers
use dracon_system_disk_proce.Common.{
  ℕ, zero, suc, ◌+◌, ◌-◌, Bool, true, false, not, Option, none, some, List, [], ◌∷◌, leb, ltb,
  codes, ◌||◌, if◌then◌else◌, length, from_secs,
}
use dracon_system_disk_proce.Common.Signed.{ℤ}
use dracon_system_disk_proce.Common.Sort.{sort_by}
use dracon_system_disk_proce.Common.Text.{Text, text_beq}
use dracon_system_disk_proce.Reap.Proc.{ProcRoot, ReapPolicy}
use dracon_system_disk_proce.Reap.Browser.{extract_user_data_dir}
use dracon_system_disk_proce.Reap.Tree.{TreeMember, ForgottenTree}
use dracon_system_disk_proce.Reap.Verify.{
  ReapCandidate, VerifiedTree, verify_candidate_for_reap, verify_orphan_for_reap,
  verify_forgotten_tree_for_reap,
}
use dracon_system_disk_proce.Reap.Kill.{
  Kernel, World, TerminateOutcome, TreeTermination, terminate_process, terminate_tree,
}

pub data ReapDisposition : Type 0 where
  signalled deferred not_verified : ReapDisposition

pub record ReapedProcess : Type 0 where
  pub pid : ℤ
  pub comm : Text
  pub signature : Text
  pub verified : Bool
  pub outcome : Option TerminateOutcome
  pub disposition : ReapDisposition

pub record ReapedTree : Type 0 where
  pub root_pid : ℤ
  pub root_comm : Text
  pub member_count : ℕ
  pub aggregate_footprint_mb : ℕ
  pub verified : Bool
  pub members_ended : ℕ
  pub members_left : ℕ
  pub members_skipped : ℕ
  pub escalated_to_sigkill : Bool
  pub disposition : ReapDisposition
  pub profile_dir : Option Text

abbrev pub reap_pass_budget : ℕ
reap_pass_budget = from_secs 60

abbrev pub proc_ticks_per_sec : ℕ
proc_ticks_per_sec = 100

-- "warn" and "critical" permit the end of a forgotten tree.
unfoldable pub forgotten_reap_allowed_under_pressure : Text → Bool
forgotten_reap_allowed_under_pressure pressure =
    text_beq pressure (codes "warn") || text_beq pressure (codes "critical")

-- The profile that a reaped tree leaves behind.
unfoldable pub tree_yields_profile : ForgottenTree → ℕ → Option Text
tree_yields_profile tree members_left =
    if ltb 0 members_left then none else extract_user_data_dir tree.root_args

abbrev process_row :
    ReapCandidate → Bool → Option TerminateOutcome → ReapDisposition → ReapedProcess
process_row c verified outcome disposition = record {
  pid = c.pid;
  comm = c.comm;
  signature = c.signature;
  verified = verified;
  outcome = outcome;
  disposition = disposition;
}

abbrev untouched : ForgottenTree → ReapDisposition → ReapedTree
untouched t disposition = record {
  root_pid = t.root_pid;
  root_comm = t.root_comm;
  member_count = t.member_count;
  aggregate_footprint_mb = t.aggregate_footprint_mb;
  verified = false;
  members_ended = 0;
  members_left = 0;
  members_skipped = 0;
  escalated_to_sigkill = false;
  disposition = disposition;
  profile_dir = none;
}

-- Deepest first.
abbrev pub deeper : TreeMember → TreeMember → Bool
deeper a b = leb b.depth a.depth

module _ (k : Kernel) where
  open k use {State, proc, instant, self_pid}

  -- The checks that the two passes over single processes make.
  abbrev pub Verifier : Type 0
  Verifier = ProcRoot → ℤ → ReapCandidate → ReapPolicy → ℕ → Bool

  -- The body of the loop: the candidate, and its row.
  unfoldable pub reap_one :
      Verifier → ReapPolicy → ℕ → ℕ → ℕ → World k → ReapCandidate → World k × ReapedProcess
  reap_one verify policy ticks_per_sec budget pass_started w c =
      let (w', outcome) = terminate_process k w c.pid in
      if leb budget (instant w.state - pass_started)
      then (w, process_row c false none deferred)
      else if not (verify (proc w.state) self_pid c policy ticks_per_sec)
      then (w, process_row c false none not_verified)
      else (w', process_row c true (some outcome) signalled)

  unfoldable pub reap_all :
      Verifier
      → ReapPolicy
      → ℕ
      → ℕ
      → ℕ
      → World k
      → List ReapCandidate
      → World k × List ReapedProcess
  unfolding reap_one
  reap_all verify policy ticks_per_sec budget pass_started w [] = (w, [])
  reap_all verify policy ticks_per_sec budget pass_started w (c ∷ cs) =
      let (w1, row) = reap_one verify policy ticks_per_sec budget pass_started w c in
      let (w2, rows) = reap_all verify policy ticks_per_sec budget pass_started w1 cs in
      (w2, row ∷ rows)

  unfoldable pub reap_verified_candidates :
      Verifier → ReapPolicy → ℕ → ℕ → World k → List ReapCandidate → World k × List ReapedProcess
  unfolding reap_all
  reap_verified_candidates verify policy ticks_per_sec budget w =
      reap_all verify policy ticks_per_sec budget (instant w.state) w

  unfoldable pub auto_reap_stale_servers :
      ReapPolicy → World k → List ReapCandidate → ℕ → World k × List ReapedProcess
  auto_reap_stale_servers policy w candidates ticks_per_sec =
      reap_verified_candidates verify_candidate_for_reap policy ticks_per_sec reap_pass_budget w
        candidates

  unfoldable pub reap_pressure_orphans :
      ReapPolicy → World k → List ReapCandidate → ℕ → World k × List ReapedProcess
  reap_pressure_orphans policy w candidates ticks_per_sec =
      reap_verified_candidates verify_orphan_for_reap policy ticks_per_sec reap_pass_budget w
        candidates

  unfoldable pub ended_row : ForgottenTree → VerifiedTree → TreeTermination → ReapedTree
  unfolding tree_yields_profile
  ended_row t verified outcome = record {
    root_pid = t.root_pid;
    root_comm = t.root_comm;
    member_count = t.member_count;
    aggregate_footprint_mb = t.aggregate_footprint_mb;
    verified = true;
    members_ended = outcome.members_ended;
    members_left = outcome.members_left;
    members_skipped = verified.skipped;
    escalated_to_sigkill = outcome.escalated_to_sigkill;
    disposition = signalled;
    profile_dir = tree_yields_profile t outcome.members_left;
  }

  -- The end of a tree, by its verification.
  unfoldable pub reap_verified_tree :
      World k → ForgottenTree → Option VerifiedTree → World k × ReapedTree
  unfolding ended_row
  reap_verified_tree w t none = (w, untouched t not_verified)
  reap_verified_tree w t (some verified) =
      let (w', outcome) = terminate_tree k w (sort_by deeper verified.members) in
      (w', ended_row t verified outcome)

  unfoldable pub reap_one_tree : ReapPolicy → ℕ → ℕ → World k → ForgottenTree → World k × ReapedTree
  unfolding reap_verified_tree
  reap_one_tree policy ticks_per_sec pass_started w t =
      if leb reap_pass_budget (instant w.state - pass_started)
      then (w, untouched t deferred)
      else reap_verified_tree w t
          (verify_forgotten_tree_for_reap (proc w.state) t policy ticks_per_sec)

  unfoldable pub reap_trees :
      ReapPolicy → ℕ → ℕ → World k → List ForgottenTree → World k × List ReapedTree
  unfolding reap_one_tree
  reap_trees policy ticks_per_sec pass_started w [] = (w, [])
  reap_trees policy ticks_per_sec pass_started w (t ∷ ts) =
      let (w1, row) = reap_one_tree policy ticks_per_sec pass_started w t in
      let (w2, rows) = reap_trees policy ticks_per_sec pass_started w1 ts in (w2, row ∷ rows)

  unfoldable pub reap_forgotten_orphan_trees :
      ReapPolicy → World k → List ForgottenTree → ℕ → World k × List ReapedTree
  unfolding reap_trees
  reap_forgotten_orphan_trees policy w trees ticks_per_sec =
      reap_trees policy ticks_per_sec (instant w.state) w trees
