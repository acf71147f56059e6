-- ===== src/Reap/Verify/Live.antt =====
-- reap.rs: what a verification at kill time has seen.
use dracon_system_disk_proce.Common.{
  ℕ, ◌+◌, ◌≤◌, ◌≡◌, refl, ◌≢◌, ◌⊎◌, inl, inr, Bool, true, false, ◌&&◌, Option, none, some, List, [],
  ◌∷◌, nat_beq_iff, Bool-cases, Option-cases, arith, length, some_inj, subst, sym,
}
use dracon_system_disk_proce.Common.Signed.{pos, beq_ℤ_iff}
use dracon_system_disk_proce.Common.Text.{Text, trim, replace_nul}
use mathlib.Core.List.{Memᴰ}
use mathlib.Core.List.Memᴰ
use dracon_system_disk_proce.Reap.Proc.{
  ProcRoot, ReapPolicy, StatFields, live_stat, parent_comm_is_systemd, matches_exempt,
  process_executable_name,
}
use dracon_system_disk_proce.Reap.Browser.{
  DesktopVerdict, test, desktop, not_a_browser, Usage, driven, undriven, unknown,
  browser_decides_by_veto, classify_desktop_session, tree_usage,
}
use dracon_system_disk_proce.Reap.Tree.{TreeMember, ForgottenTree}
use dracon_system_disk_proce.Reap.Tree.Certified.{Idle}
use dracon_system_disk_proce.Reap.Verify.{
  VerifiedTree, command, member_command, member_live, verify_members, usage_allows,
  root_command_allows, root_allows, still_heavy, verify_forgotten_tree_for_reap, lifetime_cpu,
  is_test, no_members,
}

-- A command line that is a test job.
abbrev pub TestJob : Option (Text × Text) → Type 0
TestJob none = ⊥
TestJob (some (args, exe)) = (why : Text) × (classify_desktop_session args ≡ test why)

-- The root of a tree is still the scanned process, an idle test job whose owner is dead.
pub record Reclaimable (proc : ProcRoot) (tree : ForgottenTree) (policy : ReapPolicy) (ticks : ℕ)
    : Type 0 where
  pub fields : StatFields
  pub read : live_stat (proc.dir tree.root_pid) ≡ some fields
  pub same : fields.starttime ≡ tree.root_starttime
  pub orphaned : parent_comm_is_systemd proc fields.ppid ≡ true
  pub detached : fields.tty_nr ≡ pos 0
  pub asleep : fields.state ≡ 83
  pub idle : Idle policy (lifetime_cpu fields ticks) (tree_usage proc tree.root_args)
  pub aged : 300 ≤ tree.age_secs
  pub test_job : TestJob (command (proc.dir tree.root_pid))

-- A member is still the scanned process, is no zombie, and is a browser's or not exempt.
pub record LiveMember (proc : ProcRoot) (policy : ReapPolicy) (m : TreeMember) : Type 0 where
  pub fields : StatFields
  pub read : live_stat (proc.dir m.pid) ≡ some fields
  pub same : fields.starttime ≡ m.starttime
  pub not_zombie : fields.state ≢ 90
  pub not_dead : fields.state ≢ 88
  pub raw : Text
  pub cmdline : (proc.dir m.pid).cmdline ≡ some raw
  pub ours :
      (browser_decides_by_veto (trim (replace_nul raw)) ≡ true)
      ⊎ (matches_exempt (process_executable_name (proc.dir m.pid) raw) policy.exempt_names ≡ false)

usage_allows-Idle :
    (policy : ReapPolicy) (cpu : ℕ) (u : Usage)
    → usage_allows policy cpu u ≡ true
    → Idle policy cpu u
unfolding usage_allows
usage_allows-Idle policy cpu driven h = absurd (cc)
usage_allows-Idle policy cpu undriven h = tt
usage_allows-Idle policy cpu unknown h = ground arith

is_test-why : (v : DesktopVerdict) → is_test v ≡ true → (why : Text) × (v ≡ test why)
is_test-why (test why) h = (why, refl)
is_test-why (desktop reason) h = absurd (cc)
is_test-why not_a_browser h = absurd (cc)

and_true : (a b : Bool) → (a && b) ≡ true → (a ≡ true) × (b ≡ true)
and_true true b h = (refl, h)
and_true false b h = cc

command-TestJob :
    (policy : ReapPolicy) (c : Option (Text × Text))
    → root_command_allows policy c ≡ true
    → TestJob c
unfolding root_command_allows
command-TestJob policy none h = cc
command-TestJob policy (some (args, exe)) h =
    is_test-why (classify_desktop_session args) ((and_true _ _ h).1)

root_allows-Reclaimable :
    (proc : ProcRoot) (tree : ForgottenTree) (policy : ReapPolicy) (ticks : ℕ)
    (o : Option StatFields)
    → live_stat (proc.dir tree.root_pid) ≡ o
    → root_allows proc tree policy ticks o ≡ true
    → Reclaimable proc tree policy ticks
unfolding root_allows
root_allows-Reclaimable proc tree policy ticks none e h = absurd (cc)
root_allows-Reclaimable proc tree policy ticks (some fields) e h =
    let (l5, h6) = and_true _ _ h in
    let (l4, h5) = and_true _ _ l5 in
    let (l3, h4) = and_true _ _ l4 in
    let (l2, h3) = and_true _ _ l3 in
    let (h1, h2) = and_true _ _ l2 in
    record {
      fields = fields;
      read = e;
      same = (nat_beq_iff fields.starttime tree.root_starttime).0 h1;
      orphaned = h2;
      detached = (beq_ℤ_iff fields.tty_nr (pos 0)).0 (ground arith);
      asleep = (nat_beq_iff fields.state 83).0 (ground arith);
      idle = usage_allows-Idle policy _ _ h4;
      aged = ground arith;
      test_job = command-TestJob policy _ h6;
    }

LiveMember-of :
    (proc : ProcRoot) (policy : ReapPolicy) (m : TreeMember)
    → member_live proc policy m ≡ true
    → LiveMember proc policy m
unfolding member_live member_command
LiveMember-of proc policy m h = elim (Option-cases (live_stat (proc.dir m.pid))) [
  | inl n ↦ let clash : false ≡ true = rw (n, member_live) at h in absurd cc
  | inr (fields, n) ↦ elim (Option-cases (proc.dir m.pid).cmdline) [
    | inl c ↦ let clash = rw (n, c, member_live) at h in absurd (ground arith)
    | inr (raw, c) ↦
        let h' = rw (n, c, member_live) at h in
        let (l, allowed) = and_true _ _ h' in
        let (same, alive) = and_true _ _ l in
        record {
          fields = fields;
          read = n;
          same = (nat_beq_iff fields.starttime m.starttime).0 same;
          not_zombie = ground arith;
          not_dead = ground arith;
          raw = raw;
          cmdline = c;
          ours = elim (Bool-cases (browser_decides_by_veto (trim (replace_nul raw)))) [
            | inl b ↦ inl b
            | inr b ↦ inr (ground arith)
          ];
        }
  ]
]

-- The members kept are live, they are the tree's, and those left out are counted.
verify_members-live :
    (proc : ProcRoot) (policy : ReapPolicy) (ms : List TreeMember) (m : TreeMember)
    → Memᴰ m (verify_members proc policy ms).members
    → Memᴰ m ms × LiveMember proc policy m
unfolding verify_members
verify_members-live proc policy [] m h = elim h [ ]
verify_members-live proc policy (n ∷ ms) m h = elim (Bool-cases (member_live proc policy n)) [
  | inr e ↦
      let (at_m, live) = verify_members-live proc policy ms m (rw e at h) in (Memᴰ.tail at_m, live)
  | inl e ↦ elim (Memᴰ.cases_cons (rw e at h)) [
    | inl same ↦
        (Memᴰ.head same, subst (LiveMember proc policy) (sym same) (LiveMember-of proc policy n e))
    | inr later ↦
        let (at_m, live) = verify_members-live proc policy ms m later in (Memᴰ.tail at_m, live)
  ]
]

verify_members-count :
    (proc : ProcRoot) (policy : ReapPolicy) (ms : List TreeMember)
    → (let v = verify_members proc policy ms in length v.members + v.skipped ≡ length ms)
unfolding verify_members
verify_members-count proc policy [] = omega arith
verify_members-count proc policy (m ∷ ms) = ground (arith, verify_members-count proc policy ms)

-- A tree that verifies at kill time is reclaimable at that moment, the members kept are live members
-- of it, there is one, and every member of the scanned tree is kept or counted as skipped.
pub verify_forgotten_tree_sound :
    (proc : ProcRoot) (tree : ForgottenTree) (policy : ReapPolicy) (ticks : ℕ) (v : VerifiedTree)
    → verify_forgotten_tree_for_reap proc tree policy ticks ≡ some v
    → Reclaimable proc tree policy ticks
      × ((m : TreeMember) → Memᴰ m v.members → Memᴰ m tree.members × LiveMember proc policy m)
      × (1 ≤ length v.members)
      × (length v.members + v.skipped ≡ length tree.members)
unfolding verify_forgotten_tree_for_reap
verify_forgotten_tree_sound proc tree policy ticks v h =
    let kept = verify_members proc policy tree.members in
    elim (Bool-cases (root_allows proc tree policy ticks (live_stat (proc.dir tree.root_pid)))) [
      | inr e ↦ let clash : none ≡ some v = rw e at h in absurd cc
      | inl e ↦ elim (Bool-cases (no_members kept.members)) [
        | inl n ↦ let clash : none ≡ some v = rw (e, n) at h in absurd cc
        | inr n ↦ elim (Bool-cases (still_heavy proc tree policy kept.members)) [
          | inr w ↦ let clash : none ≡ some v = rw (e, n, w) at h in absurd cc
          | inl w ↦
              let same : kept ≡ v = some_inj (rw (e, n, w) at h) in
              subst
                (λ (x : VerifiedTree).
                  Reclaimable proc tree policy ticks
                  × ((m : TreeMember)
                      → Memᴰ m x.members
                      → Memᴰ m tree.members × LiveMember proc policy m)
                  × (1 ≤ length x.members)
                  × (length x.members + x.skipped ≡ length tree.members))
                same
                (
                  root_allows-Reclaimable proc tree policy ticks _ refl e,
                  verify_members-live proc policy tree.members,
                  some_member kept.members n,
                  verify_members-count proc policy tree.members,
                )
        ]
      ]
    ]
  where
    some_member : (ms : List TreeMember) → no_members ms ≡ false → 1 ≤ length ms
    some_member [] e = absurd (cc)
    some_member (m ∷ ms) e = omega arith
