-- ===== src/Reap/Pass/Servers.antt =====
-- reap.rs: whom the passes over single processes signal.
use dracon_system_disk_proce.Common.{◌≡◌, ◌≤◌, ℕ, List, true}
use dracon_system_disk_proce.Common.Signed.{ℤ}
use dracon_system_disk_proce.Reap.Proc.{ReapPolicy, parent_comm_is_systemd}
use dracon_system_disk_proce.Reap.Verify.{
  ReapCandidate, verify_candidate_for_reap, verify_orphan_for_reap, lifetime_cpu,
}
use dracon_system_disk_proce.Reap.Verify.Servers.{
  SameServer, verify_candidate_sound, verify_orphan_sound,
}
use dracon_system_disk_proce.Reap.Kill.{Kernel, World}
use dracon_system_disk_proce.Reap.Kill.Signals.{Ours}
use dracon_system_disk_proce.Reap.Pass.{
  reap_verified_candidates, auto_reap_stale_servers, reap_pressure_orphans, reap_pass_budget,
}
use dracon_system_disk_proce.Reap.Pass.Signalled.{
  CandidatesSignal, CandidatesSignal-mono, all-Target,
}

-- A pid that may be signalled for a candidate in a state: the candidate was there the scanned process
-- itself, without a terminal and on the allowlist, and passed a further test.
pub record ServerTarget (k : Kernel) (policy : ReapPolicy)
    (Passes : (c : ReapCandidate) (s : k.State) → SameServer (k.proc s) policy c → Type 0)
    (state : k.State) (found : ReapCandidate) (pid : ℤ) : Type 0 where
  pub is_pid : found.pid ≡ pid
  pub server : SameServer (k.proc state) policy found
  pub passes : Passes found state server
  pub ours : Ours k pid

abbrev pub StaleServer : (k : Kernel) → ReapPolicy → ℕ → k.State → ReapCandidate → ℤ → Type 0
StaleServer k policy ticks =
    ServerTarget k policy
      (λ c s v. (v.fields.state ≡ 83) × (lifetime_cpu v.fields ticks ≤ policy.max_cpu_seconds))

abbrev pub Orphan : (k : Kernel) → ReapPolicy → k.State → ReapCandidate → ℤ → Type 0
Orphan k policy =
    ServerTarget k policy (λ c s v. parent_comm_is_systemd (k.proc s) v.fields.ppid ≡ true)

-- The signals of the two passes over single processes, whatever the kernel answers and whatever happens
-- between two calls. Each pass goes candidate by candidate, and what it signals for a candidate is that
-- candidate's pid. The pass over stale servers does so only where, in the very state in which it takes
-- the candidate up, it was still the scanned process, asleep, without a terminal, with little CPU in its
-- life, and on the allowlist; the pass over pressure orphans only where it was then still the scanned
-- process, its owner was dead, and it had no terminal and was on the allowlist. Neither signals a
-- reserved pid or the guard.
pub server_passes-ServerTarget :
    (k : Kernel) (policy : ReapPolicy) (w : World k) (cs : List ReapCandidate) (ticks : ℕ)
    → CandidatesSignal k verify_candidate_for_reap policy ticks reap_pass_budget
        (k.instant w.state)
        (StaleServer k policy ticks)
        w
        cs
        (auto_reap_stale_servers k policy w cs ticks).0
      × CandidatesSignal k verify_orphan_for_reap policy ticks reap_pass_budget
          (k.instant w.state)
          (Orphan k policy)
          w
          cs
          (reap_pressure_orphans k policy w cs ticks).0
unfolding auto_reap_stale_servers reap_pressure_orphans reap_verified_candidates
server_passes-ServerTarget k policy w cs ticks = (
  CandidatesSignal-mono k verify_candidate_for_reap policy ticks reap_pass_budget
      (k.instant w.state) _ (StaleServer k policy ticks)
      (λ s c pid t.
        let (server, asleep, little_cpu) =
          verify_candidate_sound (k.proc s) k.self_pid c policy ticks t.verified in
        record { is_pid = t.is_pid; server = server; passes = (asleep, little_cpu); ours = t.ours })
      w cs _
      (all-Target k verify_candidate_for_reap policy ticks reap_pass_budget (k.instant w.state) w
        cs),
  CandidatesSignal-mono k verify_orphan_for_reap policy ticks reap_pass_budget (k.instant w.state) _
      (Orphan k policy)
      (λ s c pid t.
        let (server, dead) = verify_orphan_sound (k.proc s) k.self_pid c policy ticks t.verified in
        record { is_pid = t.is_pid; server = server; passes = dead; ours = t.ours })
      w cs _
      (all-Target k verify_orphan_for_reap policy ticks reap_pass_budget (k.instant w.state) w cs),
)
