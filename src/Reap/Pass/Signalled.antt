-- ===== src/Reap/Pass/Signalled.antt =====
-- reap.rs: whom a pass signals.
use dracon_system_disk_proce.Common.{
  ℕ, ◌-◌, ◌≡◌, refl, inl, inr, true, Option, none, some, List, [], ◌∷◌, leb, Bool-cases, sym,
}
use dracon_system_disk_proce.Common.Signed.{ℤ}
use dracon_system_disk_proce.Common.Sort.{sort_by, sort_by-Mem}
use mathlib.Core.List.{Memᴰ}
use dracon_system_disk_proce.Reap.Proc.{ReapPolicy}
use dracon_system_disk_proce.Reap.Tree.{TreeMember, ForgottenTree}
use dracon_system_disk_proce.Reap.Verify.{
  ReapCandidate, VerifiedTree, verify_forgotten_tree_for_reap,
}
use dracon_system_disk_proce.Reap.Verify.Live.{Reclaimable, LiveMember, verify_forgotten_tree_sound}
use dracon_system_disk_proce.Reap.Kill.{Kernel, World}
use dracon_system_disk_proce.Reap.Kill.Signals.{
  Adds, Adds-none, Adds-mono, Ours, terminate_process-Adds,
}
use dracon_system_disk_proce.Reap.Kill.Counts.{terminate_tree-Adds}
use dracon_system_disk_proce.Reap.Pass.{
  Verifier, reap_one, reap_all, reap_verified_tree, reap_one_tree, reap_trees,
  reap_forgotten_orphan_trees, reap_pass_budget, deeper,
}

-- A pid that the pass may signal for a tree that it takes up in a state: a member of the tree, live in
-- that state, where the tree is reclaimable in it; no reserved pid and not the guard.
pub record TreeTarget (k : Kernel) (policy : ReapPolicy) (ticks : ℕ) (state : k.State)
    (tree : ForgottenTree) (pid : ℤ) : Type 0 where
  pub reclaimable : Reclaimable (k.proc state) tree policy ticks
  pub member : TreeMember
  pub in_tree : Memᴰ member tree.members
  pub is_pid : member.pid ≡ pid
  pub live : LiveMember (k.proc state) policy member
  pub ours : Ours k pid

module _ (k : Kernel) (policy : ReapPolicy) (ticks : ℕ) where
  -- The pass from one world to another: tree by tree, and what is signalled for a tree is a target of it
  -- in the state in which the pass takes it up.
  abbrev pub TreesSignal : ℕ → World k → List ForgottenTree → World k → Type 0
  TreesSignal started w [] end = end ≡ w
  TreesSignal started w (t ∷ ts) end =
      let w1 = (reap_one_tree k policy ticks started w t).0 in
      Adds (TreeTarget k policy ticks w.state t) w.log w1.log × TreesSignal started w1 ts end

  abbrev Sent : ForgottenTree → World k → World k → Type 0
  Sent t w w' = Adds (TreeTarget k policy ticks w.state t) w.log w'.log

  verified_tree-Sent :
      (w : World k) (t : ForgottenTree) (o : Option VerifiedTree)
      → verify_forgotten_tree_for_reap (k.proc w.state) t policy ticks ≡ o
      → Sent t w (reap_verified_tree k w t o).0
  unfolding reap_verified_tree
  verified_tree-Sent w t none e = Adds-none _ w.log
  verified_tree-Sent w t (some v) e =
      let (reclaimable, live, _, _) =
        verify_forgotten_tree_sound (k.proc w.state) t policy ticks v e in
      terminate_tree-Adds k (TreeTarget k policy ticks w.state t) w (sort_by deeper v.members)
        (λ n at_n ours.
          let (in_tree, is_live) = live n (sort_by-Mem deeper n v.members at_n) in
          record {
            reclaimable = reclaimable;
            member = n;
            in_tree = in_tree;
            is_pid = refl;
            live = is_live;
            ours = ours;
          })

  one_tree-Sent :
      (started : ℕ) (w : World k) (t : ForgottenTree)
      → Sent t w (reap_one_tree k policy ticks started w t).0
  unfolding reap_one_tree
  one_tree-Sent started w t =
      elim (Bool-cases (leb reap_pass_budget (k.instant w.state - started))) [
        | inl e ↦ rw e (Adds-none _ w.log)
        | inr e ↦ rw e (verified_tree-Sent w t _ refl)
      ]

  trees-Sent :
      (started : ℕ) (w : World k) (ts : List ForgottenTree)
      → TreesSignal started w ts (reap_trees k policy ticks started w ts).0
  unfolding reap_trees
  trees-Sent started w [] = refl
  trees-Sent started w (t ∷ ts) = (
    one_tree-Sent started w t,
    trees-Sent started (reap_one_tree k policy ticks started w t).0 ts,
  )

-- The forgotten-tree pass signals verified processes only: whatever the kernel answers and whatever
-- happens between two calls, the pass goes tree by tree, and every signal that it sends for a tree goes
-- to a member of that tree, where in the very state in which it takes the tree up the tree's root was
-- still the scanned process, an idle test job older than five minutes whose owner is dead and that no
-- client drives, and the member was the scanned process too, not a zombie, a browser's own process or
-- not exempt. It is never a reserved pid or the guard.
pub forgotten_pass-TreeTarget :
    (k : Kernel) (policy : ReapPolicy) (w : World k) (trees : List ForgottenTree) (ticks : ℕ)
    → TreesSignal k policy ticks
        (k.instant w.state)
        w
        trees
        (reap_forgotten_orphan_trees k policy w trees ticks).0
unfolding reap_forgotten_orphan_trees
forgotten_pass-TreeTarget k policy w trees ticks =
    trees-Sent k policy ticks (k.instant w.state) w trees

-- A pid that a pass over single processes may signal for a candidate that it takes up in a state.
pub record ProcessTarget (k : Kernel) (verify : Verifier k) (policy : ReapPolicy) (ticks : ℕ)
    (state : k.State) (found : ReapCandidate) (pid : ℤ) : Type 0 where
  pub is_pid : found.pid ≡ pid
  pub verified : verify (k.proc state) k.self_pid found policy ticks ≡ true
  pub ours : Ours k pid

module _ (k : Kernel) (verify : Verifier k) (policy : ReapPolicy) (ticks budget started : ℕ) where
  -- The pass from one world to another: candidate by candidate, and what is signalled for a candidate
  -- is a target for it in the state in which the pass takes it up.
  abbrev pub CandidatesSignal :
      (k.State → ReapCandidate → ℤ → Type 0) → World k → List ReapCandidate → World k → Type 0
  CandidatesSignal Target w [] end = end ≡ w
  CandidatesSignal Target w (c ∷ cs) end =
      let w1 = (reap_one k verify policy ticks budget started w c).0 in
      Adds (Target w.state c) w.log w1.log × CandidatesSignal Target w1 cs end

  pub CandidatesSignal-mono :
      (P Q : k.State → ReapCandidate → ℤ → Type 0)
      → ((s : k.State) (c : ReapCandidate) (pid : ℤ) → P s c pid → Q s c pid)
      → (w : World k) (cs : List ReapCandidate) (end : World k) → CandidatesSignal P w cs end
      → CandidatesSignal Q w cs end
  CandidatesSignal-mono P Q f w [] end h = h
  CandidatesSignal-mono P Q f w (c ∷ cs) end (h, later) = (
    Adds-mono (P w.state c) (Q w.state c) (f w.state c) h,
    CandidatesSignal-mono P Q f (reap_one k verify policy ticks budget started w c).0 cs end later,
  )

  abbrev Target : k.State → ReapCandidate → ℤ → Type 0
  Target = ProcessTarget k verify policy ticks

  one-Target :
      (w : World k) (c : ReapCandidate)
      → Adds (Target w.state c) w.log (reap_one k verify policy ticks budget started w c).0.log
  unfolding reap_one
  one-Target w c = elim (Bool-cases (leb budget (k.instant w.state - started))) [
    | inl e ↦ rw e (Adds-none _ w.log)
    | inr e ↦ rw e (elim (Bool-cases (verify (k.proc w.state) k.self_pid c policy ticks)) [
      | inr v ↦ rw v (Adds-none _ w.log)
      | inl v ↦ rw v (
          Adds-mono _ (Target w.state c)
            (λ p h. record { is_pid = sym h.0; verified = v; ours = h.1 })
            (terminate_process-Adds k w c.pid))
    ])
  ]

  pub all-Target :
      (w : World k) (cs : List ReapCandidate)
      → CandidatesSignal Target w cs (reap_all k verify policy ticks budget started w cs).0
  unfolding reap_all
  all-Target w [] = refl
  all-Target w (c ∷ cs) =
      (one-Target w c, all-Target (reap_one k verify policy ticks budget started w c).0 cs)
