-- ===== src/Reap/Pass/Rows.antt =====
-- reap.rs: what the passes report.
use dracon_system_disk_proce.Common.{
  ℕ, ◌+◌, ◌≤◌, ◌≡◌, refl, ◌⊎◌, inl, inr, true, false, ◌||◌, none, some, List, [], ◌∷◌, Bool-cases,
  length,
}
use dracon_system_disk_proce.Common.Signed.{ℤ, pos, leb_ℤ, beq_ℤ}
use dracon_system_disk_proce.Common.Sort.{sort_by}
use dracon_system_disk_proce.Common.Text.{Text}
use dracon_system_disk_proce.Reap.Proc.{ReapPolicy}
use dracon_system_disk_proce.Reap.Browser.{extract_user_data_dir}
use dracon_system_disk_proce.Reap.Tree.{TreeMember, ForgottenTree}
use dracon_system_disk_proce.Reap.Verify.{VerifiedTree, verify_forgotten_tree_for_reap}
use dracon_system_disk_proce.Reap.Kill.{
  Kernel, World, Round, sigterm, eperm, kill, count_answer, term_member, term_members, settle,
  kill_pending, terminate_tree, pid_is_alive, TreeTermination,
}
use dracon_system_disk_proce.Reap.Kill.Counts.{terms, kills}
use dracon_system_disk_proce.Reap.Pass.{
  ReapedTree, signalled, deferred, not_verified, reap_verified_tree, reap_one_tree, ended_row,
  tree_yields_profile, deeper,
}

module _ (k : Kernel) (policy : ReapPolicy) (ticks : ℕ) where
  -- What a row says of its tree, given the worlds before and after. A tree that was not reached or did not
  -- verify is reported with nothing done to it, and nothing was. The row of a signalled tree has the
  -- counts of `terminate_tree` on its verified members. Those ended, left and skipped and those that
  -- were gone or refused add up to the members of the scan; those ended and left are as many as the
  -- SIGTERMs that were sent; no more are left than SIGKILLs were called; and a profile is named only
  -- if no member was left.
  pub data RowSays (w w' : World k) (t : ForgottenTree) (row : ReapedTree) : Type 0 where
    spared :
        w' ≡ w
        → row.verified ≡ false
        → (row.disposition ≡ deferred)
          ⊎ ((row.disposition ≡ not_verified)
              × (verify_forgotten_tree_for_reap (k.proc w.state) t policy ticks ≡ none))
        → row.members_ended + row.members_left + row.members_skipped ≡ 0
        → row.profile_dir ≡ none
        → RowSays w w' t row
    ended :
        (v : VerifiedTree) (outcome : TreeTermination)
        → verify_forgotten_tree_for_reap (k.proc w.state) t policy ticks ≡ some v
        → terminate_tree k w (sort_by deeper v.members) ≡ (w', outcome)
        → (row.members_ended ≡ outcome.members_ended)
          × (row.members_left ≡ outcome.members_left)
          × (row.members_skipped ≡ v.skipped)
          × (row.escalated_to_sigkill ≡ outcome.escalated_to_sigkill)
        → row.verified ≡ true
        → row.disposition ≡ signalled
        → row.members_ended
            + row.members_left
            + row.members_skipped
            + (outcome.already_gone + outcome.refused)
          ≡ length t.members
        → terms w'.log ≡ terms w.log + (row.members_ended + row.members_left)
        → kills w.log + row.members_left ≤ kills w'.log
        → ((profile : Text) → row.profile_dir ≡ some profile → row.members_left ≡ 0)
        → RowSays w w' t row

  -- One row for each tree, in order, each about the worlds before and after its tree.
  abbrev pub RowsSay : ℕ → World k → List ForgottenTree → List ReapedTree → World k → Type 0
  RowsSay started w [] [] end = end ≡ w
  RowsSay started w (t ∷ ts) (row ∷ rows) end =
      let w1 = (reap_one_tree k policy ticks started w t).0 in
      (row.root_pid ≡ t.root_pid) × RowSays w w1 t row × RowsSay started w1 ts rows end
  RowsSay started w [] (row ∷ rows) end = ⊥
  RowsSay started w (t ∷ ts) [] end = ⊥

-- Where every SIGTERM is answered by EPERM, nothing is listed as signalled.
module _ (k : Kernel) (forbidden : (s : k.State) (pid : ℤ) → (k.send s pid sigterm).1 ≡ eperm) where
  term_member-refused :
      (r : Round k) (pid : ℤ) → r.signalled ≡ [] → (term_member k r pid).signalled ≡ []
  unfolding term_member kill count_answer
  term_member-refused r pid h = elim (Bool-cases (leb_ℤ pid (pos 1) || beq_ℤ pid k.self_pid)) [
    | inl e ↦ rw e h
    | inr e ↦ rw e (elim (Bool-cases (pid_is_alive k r.world.state pid)) [
      | inr a ↦ rw a h
      | inl a ↦ rw (a, forbidden r.world.state pid) h
    ])
  ]

  term_members-refused :
      (r : Round k) (ms : List TreeMember) → r.signalled ≡ [] → (term_members k r ms).signalled ≡ []
  unfolding term_members
  term_members-refused r [] h = h
  term_members-refused r (m ∷ ms) h =
      term_members-refused (term_member k r m.pid) ms (term_member-refused r m.pid h)

  terminate_tree-refused :
      (w : World k) (members : List TreeMember)
      → ((terminate_tree k w members).1.members_ended ≡ 0)
        × ((terminate_tree k w members).1.members_left ≡ 0)
  unfolding terminate_tree settle kill_pending
  terminate_tree-refused w members =
      let start : Round k = record { world = w; signalled = []; already_gone = 0; refused = 0 } in
      rw (term_members-refused start members refl) (refl, refl)

-- A tree that the kernel does not let the guard signal gives up its profile all the same: where every
-- SIGTERM is answered by EPERM, no member of a verified tree is ended, and its row names the profile
-- that the root's command line names.
pub refused_tree_yields_profile :
    (k : Kernel)
    → ((s : k.State) (pid : ℤ) → (k.send s pid sigterm).1 ≡ eperm)
    → (w : World k) (t : ForgottenTree) (v : VerifiedTree) (profile : Text)
    → extract_user_data_dir t.root_args ≡ some profile
    → (let row = (reap_verified_tree k w t (some v)).1 in
        (row.members_ended ≡ 0) × (row.profile_dir ≡ some profile))
unfolding reap_verified_tree ended_row tree_yields_profile
refused_tree_yields_profile k forbidden w t v profile e =
    let (no_end, no_left) = terminate_tree-refused k forbidden w (sort_by deeper v.members) in
    (no_end, rw (no_left, e) refl)
