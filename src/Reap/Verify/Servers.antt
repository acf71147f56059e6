-- ===== src/Reap/Verify/Servers.antt =====
-- reap.rs: what the kill-time checks of single processes have seen.
use dracon_system_disk_proce.Common.{
  ℕ, ◌≤◌, ◌≡◌, true, false, not, ◌||◌, Option, none, some, ltb, nat_beq, nat_beq_iff, Bool-cases,
  Option-cases, inl, inr, arith, is_none,
}
use dracon_system_disk_proce.Common.Signed.{ℤ, pos, beq_ℤ, beq_ℤ_iff, leb_ℤ}
use dracon_system_disk_proce.Common.Text.{Text}
use dracon_system_disk_proce.Reap.Proc.{
  ProcRoot, ReapPolicy, StatFields, live_stat, parent_comm_is_systemd, matches_exempt,
  matches_signature,
}
use dracon_system_disk_proce.Reap.Verify.{
  ReapCandidate, command, allowlisted, lifetime_cpu, verify_candidate_for_reap,
  verify_orphan_for_reap,
}

-- A command line of the allowlist whose executable is not exempt.
abbrev pub OnList : ReapPolicy → Option (Text × Text) → Type 0
OnList policy none = ⊥
OnList policy (some (args, exe)) =
    (matches_exempt exe policy.exempt_names ≡ false)
    × ((signature : Text) × (matches_signature args policy.signatures ≡ some signature))

-- The scanned process itself, without a terminal, on the allowlist.
pub record SameServer (proc : ProcRoot) (policy : ReapPolicy) (c : ReapCandidate) : Type 0 where
  pub fields : StatFields
  pub read : live_stat (proc.dir c.pid) ≡ some fields
  pub same : fields.starttime ≡ c.starttime
  pub detached : fields.tty_nr ≡ pos 0
  pub on_list : OnList policy (command (proc.dir c.pid))

allowlisted-OnList :
    (policy : ReapPolicy) (o : Option (Text × Text))
    → not (is_none (allowlisted policy o)) ≡ true
    → OnList policy o
unfolding allowlisted
allowlisted-OnList policy none h = absurd (cc)
allowlisted-OnList policy (some (args, exe)) h =
    elim (Bool-cases (matches_exempt exe policy.exempt_names)) [
      | inl e ↦ absurd (let clash : false ≡ true = rw e at h in cc)
      | inr e ↦ elim (Option-cases (matches_signature args policy.signatures)) [
        | inl n ↦ absurd (let clash : false ≡ true = rw (e, n) at h in cc)
        | inr (signature, n) ↦ (e, (signature, n))
      ]
    ]

-- A candidate that verifies is the scanned process itself; it still sleeps, has no terminal, has used
-- little CPU in its life and is on the allowlist.
pub verify_candidate_sound :
    (proc : ProcRoot) (self_pid : ℤ) (c : ReapCandidate) (policy : ReapPolicy) (ticks : ℕ)
    → verify_candidate_for_reap proc self_pid c policy ticks ≡ true
    → (s : SameServer proc policy c) × (s.fields.state ≡ 83)
      × (lifetime_cpu s.fields ticks ≤ policy.max_cpu_seconds)
unfolding verify_candidate_for_reap
verify_candidate_sound proc self_pid c policy ticks h =
    elim (Bool-cases (leb_ℤ c.pid (pos 1) || beq_ℤ c.pid self_pid)) [
      | inl e ↦ absurd (let clash : false ≡ true = rw e at h in cc)
      | inr e ↦ elim (Option-cases (live_stat (proc.dir c.pid))) [
        | inl n ↦ absurd (let clash : false ≡ true = rw (e, n) at h in cc)
        | inr (fields, n) ↦ elim (Bool-cases (nat_beq fields.starttime c.starttime)) [
          | inr s ↦ absurd (let clash : false ≡ true = rw (e, n, s) at h in cc)
          | inl s ↦ elim (Bool-cases (nat_beq fields.state 83)) [
            | inr z ↦ absurd (let clash : false ≡ true = rw (e, n, s, z) at h in cc)
            | inl z ↦ elim (Bool-cases (beq_ℤ fields.tty_nr (pos 0))) [
              | inr t ↦ absurd (let clash : false ≡ true = rw (e, n, s, z, t) at h in cc)
              | inl t ↦ elim (Bool-cases (ltb policy.max_cpu_seconds (lifetime_cpu fields ticks))) [
                | inl u ↦ absurd (let clash : false ≡ true = rw (e, n, s, z, t, u) at h in cc)
                | inr u ↦ (
                  record {
                    fields = fields;
                    read = n;
                    same = (nat_beq_iff fields.starttime c.starttime).0 s;
                    detached = (beq_ℤ_iff fields.tty_nr (pos 0)).0 t;
                    on_list = allowlisted-OnList policy _ (rw (e, n, s, z, t, u) at h);
                  },
                  (nat_beq_iff fields.state 83).0 z,
                  ground arith,
                )
              ]
            ]
          ]
        ]
      ]
    ]

-- An orphan that verifies is the scanned process itself; its owner is still dead, it has no terminal
-- and is on the allowlist.
pub verify_orphan_sound :
    (proc : ProcRoot) (self_pid : ℤ) (c : ReapCandidate) (policy : ReapPolicy) (ticks : ℕ)
    → verify_orphan_for_reap proc self_pid c policy ticks ≡ true
    → (s : SameServer proc policy c) × (parent_comm_is_systemd proc s.fields.ppid ≡ true)
unfolding verify_orphan_for_reap
verify_orphan_sound proc self_pid c policy ticks h =
    elim (Bool-cases (leb_ℤ c.pid (pos 1) || beq_ℤ c.pid self_pid)) [
      | inl e ↦ absurd (let clash : false ≡ true = rw e at h in cc)
      | inr e ↦ elim (Option-cases (live_stat (proc.dir c.pid))) [
        | inl n ↦ absurd (let clash : false ≡ true = rw (e, n) at h in cc)
        | inr (fields, n) ↦ elim (Bool-cases (nat_beq fields.starttime c.starttime)) [
          | inr s ↦ absurd (let clash : false ≡ true = rw (e, n, s) at h in cc)
          | inl s ↦ elim (Bool-cases (parent_comm_is_systemd proc fields.ppid)) [
            | inr z ↦ absurd (let clash : false ≡ true = rw (e, n, s, z) at h in cc)
            | inl z ↦ elim (Bool-cases (beq_ℤ fields.tty_nr (pos 0))) [
              | inr t ↦ absurd (let clash : false ≡ true = rw (e, n, s, z, t) at h in cc)
              | inl t ↦ (
                record {
                  fields = fields;
                  read = n;
                  same = (nat_beq_iff fields.starttime c.starttime).0 s;
                  detached = (beq_ℤ_iff fields.tty_nr (pos 0)).0 t;
                  on_list = allowlisted-OnList policy _ (rw (e, n, s, z, t) at h);
                },
                z,
              )
            ]
          ]
        ]
      ]
    ]
