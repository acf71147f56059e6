-- ===== src/Reap/Kill/Counts.antt =====
-- reap.rs, `terminate_tree`: the counts add up, and the signals go to the members.
use dracon_system_disk_proce.Common.{
  ℕ, zero, suc, ◌+◌, ◌≤◌, ◌≡◌, refl, Bool, false, ◌||◌, List, [], ◌∷◌, length, keep_if, Bool-cases,
  inl, inr, arith, ap, length-append, length-keep_if-le, All, All-append,
}
use dracon_system_disk_proce.Common.Signed.{ℤ, pos, leb_ℤ, beq_ℤ}
use mathlib.Core.List.{Memᴰ}
use dracon_system_disk_proce.Reap.Tree.{TreeMember}
use dracon_system_disk_proce.Reap.Kill.{
  Kernel, sigterm, sigkill, Answer, sent, esrch, eperm, other_error, Log, World, Round,
  pid_is_alive, kill, pause, count_answer, term_member, term_members, settle, kill_pending,
  terminate_tree, is_nil, was_sent, term_grace_polls, kill_grace_polls,
}
use dracon_system_disk_proce.Reap.Kill.Signals.{
  Adds, Adds-none, Adds-one, Adds-trans, Ours, kill-log,
}

module _ (k : Kernel) where
  abbrev counted : Round k → ℕ
  counted r = length r.signalled + r.already_gone + r.refused

  count_answer-counted :
      (r : Round k) (pid : ℤ) (w : World k) (a : Answer)
      → counted (count_answer k r pid w a) ≡ counted r + 1
  unfolding count_answer
  count_answer-counted r pid w sent = omega (arith, length-append r.signalled (pid ∷ []))
  count_answer-counted r pid w esrch = omega arith
  count_answer-counted r pid w eperm = omega arith
  count_answer-counted r pid w other_error = omega arith

  term_member-counted : (r : Round k) (pid : ℤ) → counted (term_member k r pid) ≡ counted r + 1
  unfolding term_member
  term_member-counted r pid = elim (Bool-cases (leb_ℤ pid (pos 1) || beq_ℤ pid k.self_pid)) [
    | inl e ↦ rw e (omega arith)
    | inr e ↦ rw e (elim (Bool-cases (pid_is_alive k r.world.state pid)) [
      | inr a ↦ rw a (omega arith)
      | inl a ↦
          rw a (
            count_answer-counted r pid (kill k r.world pid sigterm).0
              (kill k r.world pid sigterm).1)
    ])
  ]

  term_members-counted :
      (r : Round k) (ms : List TreeMember) → counted (term_members k r ms) ≡ counted r + length ms
  unfolding term_members
  term_members-counted r [] = omega arith
  term_members-counted r (m ∷ ms) =
      omega (arith, term_members-counted (term_member k r m.pid) ms, term_member-counted r m.pid)

  settle-le : (n : ℕ) (w : World k) (ps : List ℤ) → length (settle k n w ps).1 ≤ length ps
  unfolding settle
  settle-le zero w ps = omega arith
  settle-le (suc n) w [] = omega arith
  settle-le (suc n) w (p ∷ ps) =
      let alive = keep_if (pid_is_alive k w.state) (p ∷ ps) in
      elim (Bool-cases (is_nil alive)) [
        | inl e ↦ rw e (length-keep_if-le (pid_is_alive k w.state) (p ∷ ps))
        | inr e ↦ rw e (
            omega (
              arith,
              settle-le n (pause k w) alive,
              length-keep_if-le (pid_is_alive k w.state) (p ∷ ps),
            ))
      ]

-- Every member of a tree is counted once: those ended, those left after SIGKILL, those that were gone
-- before and those the guard refused or was refused add up to the members it was given.
pub terminate_tree-counts :
    (k : Kernel) (w : World k) (members : List TreeMember)
    → (let t = (terminate_tree k w members).1 in
        t.members_ended + t.members_left + t.already_gone + t.refused ≡ length members)
unfolding terminate_tree
terminate_tree-counts k w members =
    let start : Round k = record { world = w; signalled = []; already_gone = 0; refused = 0 } in
    let r = term_members k start members in
    let (w1, pending) = settle k term_grace_polls r.world r.signalled in
    let w2 = (kill_pending k w1 false pending).0 in
    omega (
      arith,
      term_members-counted k start members,
      settle-le k term_grace_polls r.world r.signalled,
      settle-le k kill_grace_polls w2 pending,
    )

-- The SIGTERMs of a log that were sent, and its SIGKILLs, whatever their answers.
abbrev pub terms : Log → ℕ
terms [] = 0
terms ((pid, sigterm, sent) ∷ log) = terms log + 1
terms ((pid, sigterm, esrch) ∷ log) = terms log
terms ((pid, sigterm, eperm) ∷ log) = terms log
terms ((pid, sigterm, other_error) ∷ log) = terms log
terms ((pid, sigkill, a) ∷ log) = terms log

abbrev pub kills : Log → ℕ
kills [] = 0
kills ((pid, sigterm, a) ∷ log) = kills log
kills ((pid, sigkill, a) ∷ log) = kills log + 1

-- Each member that a round lists as signalled has had its SIGTERM sent in it.
module _ (k : Kernel) where
  abbrev Same : ℕ → ℕ → Log → Log → Type 0
  Same before after log log' = (terms log' + before ≡ terms log + after) × (kills log' ≡ kills log)

  count_answer-terms :
      (r : Round k) (pid : ℤ) (w : World k) (a : Answer)
      → w.log ≡ (pid, sigterm, a) ∷ r.world.log
      → Same
          (length r.signalled)
          (length (count_answer k r pid w a).signalled)
          r.world.log
          (count_answer k r pid w a).world.log
  unfolding count_answer
  count_answer-terms r pid w sent h =
      rw h (omega (arith, length-append r.signalled (pid ∷ [])), refl)
  count_answer-terms r pid w esrch h = rw h (refl, refl)
  count_answer-terms r pid w eperm h = rw h (refl, refl)
  count_answer-terms r pid w other_error h = rw h (refl, refl)

  term_member-terms :
      (r : Round k) (pid : ℤ)
      → Same
          (length r.signalled)
          (length (term_member k r pid).signalled)
          r.world.log
          (term_member k r pid).world.log
  unfolding term_member
  term_member-terms r pid = elim (Bool-cases (leb_ℤ pid (pos 1) || beq_ℤ pid k.self_pid)) [
    | inl e ↦ rw e (refl, refl)
    | inr e ↦ rw e (elim (Bool-cases (pid_is_alive k r.world.state pid)) [
      | inr a ↦ rw a (refl, refl)
      | inl a ↦ rw a (
          count_answer-terms r pid (kill k r.world pid sigterm).0 (kill k r.world pid sigterm).1
            (kill-log k r.world pid sigterm))
    ])
  ]

  term_members-terms :
      (r : Round k) (ms : List TreeMember)
      → Same
          (length r.signalled)
          (length (term_members k r ms).signalled)
          r.world.log
          (term_members k r ms).world.log
  unfolding term_members
  term_members-terms r [] = (refl, refl)
  term_members-terms r (m ∷ ms) =
      let (a, b) = term_member-terms r m.pid in
      let (c, d) = term_members-terms (term_member k r m.pid) ms in
      (omega (arith, a, c), omega (arith, b, d))

  settle-log : (n : ℕ) (w : World k) (ps : List ℤ) → (settle k n w ps).0.log ≡ w.log
  unfolding settle pause
  settle-log zero w ps = refl
  settle-log (suc n) w [] = refl
  settle-log (suc n) w (p ∷ ps) =
      let alive = keep_if (pid_is_alive k w.state) (p ∷ ps) in
      elim (Bool-cases (is_nil alive)) [
        | inl e ↦ rw e refl
        | inr e ↦ rw e (settle-log n (pause k w) alive)
      ]

  kill_pending-kills :
      (w : World k) (escalated : Bool) (ps : List ℤ)
      → (terms (kill_pending k w escalated ps).0.log ≡ terms w.log)
        × (kills (kill_pending k w escalated ps).0.log ≡ kills w.log + length ps)
  unfolding kill_pending
  kill_pending-kills w escalated [] = (refl, omega arith)
  kill_pending-kills w escalated (p ∷ ps) =
      let (w', answer) = kill k w p sigkill in
      let (a, b) = kill_pending-kills w' (escalated || was_sent k answer) ps in
      let logged = kill-log k w p sigkill in
      let terms_same : terms w'.log ≡ terms w.log = ap terms logged in
      let one_more : kills w'.log ≡ kills w.log + 1 = ap kills logged in
      (omega (arith, a, terms_same), omega (arith, b, one_more))

-- The members that a tree's end reports as ended or left are those whose SIGTERM was sent in it, and no
-- more members are left than SIGKILLs were called.
pub terminate_tree-terms :
    (k : Kernel) (w : World k) (members : List TreeMember)
    → (let (w', t) = terminate_tree k w members in
        (terms w'.log ≡ terms w.log + (t.members_ended + t.members_left))
        × (kills w.log + t.members_left ≤ kills w'.log))
unfolding terminate_tree
terminate_tree-terms k w members =
    let start : Round k = record { world = w; signalled = []; already_gone = 0; refused = 0 } in
    let r = term_members k start members in
    let w1 = (settle k term_grace_polls r.world r.signalled).0 in
    let pending = (settle k term_grace_polls r.world r.signalled).1 in
    let w2 = (kill_pending k w1 false pending).0 in
    let (termed, none_killed) = term_members-terms k start members in
    let (a, b) = kill_pending-kills k w1 false pending in
    let quiet = ap terms (settle-log k term_grace_polls r.world r.signalled) in
    let quiet' = ap kills (settle-log k term_grace_polls r.world r.signalled) in
    let last = ap terms (settle-log k kill_grace_polls w2 pending) in
    let last' = ap kills (settle-log k kill_grace_polls w2 pending) in
    let fewer = settle-le k term_grace_polls r.world r.signalled in
    let fewest = settle-le k kill_grace_polls w2 pending in
    (
      omega (arith, termed, a, quiet, last, fewer, fewest),
      omega (arith, none_killed, b, quiet', last', fewest),
    )

-- The signals of a tree.
module _ (k : Kernel) (P : ℤ → Type 0) where
  -- What a round has sent, it has sent to such pids, and it lists such pids.
  abbrev Round-Adds : Log → Round k → Type 0
  Round-Adds log r = Adds P log r.world.log × All P r.signalled

  count_answer-Adds :
      (log : Log) (r : Round k) (pid : ℤ) (w : World k) (a : Answer)
      → P pid
      → All P r.signalled
      → Adds P log w.log
      → Round-Adds log (count_answer k r pid w a)
  unfolding count_answer
  count_answer-Adds log r pid w sent p h d = (d, All-append P r.signalled (pid ∷ []) h (p, tt))
  count_answer-Adds log r pid w esrch p h d = (d, h)
  count_answer-Adds log r pid w eperm p h d = (d, h)
  count_answer-Adds log r pid w other_error p h d = (d, h)

  term_member-Adds :
      (log : Log) (r : Round k) (pid : ℤ)
      → (Ours k pid → P pid)
      → Round-Adds log r
      → Round-Adds log (term_member k r pid)
  unfolding term_member kill
  term_member-Adds log r pid f h = elim (Bool-cases (leb_ℤ pid (pos 1))) [
    | inl e ↦ rw e h
    | inr e ↦ rw e (elim (Bool-cases (beq_ℤ pid k.self_pid)) [
      | inl s ↦ rw s h
      | inr s ↦ rw s (elim (Bool-cases (pid_is_alive k r.world.state pid)) [
        | inr a ↦ rw a h
        | inl a ↦ rw a (
            count_answer-Adds log r pid (kill k r.world pid sigterm).0
              (kill k r.world pid sigterm).1 (f (e, s)) h.1
              (Adds-trans P h.0
                (Adds-one P r.world.log pid sigterm (kill k r.world pid sigterm).1 (f (e, s)))))
      ])
    ])
  ]

  term_members-Adds :
      (log : Log) (r : Round k) (ms : List TreeMember)
      → ((m : TreeMember) → Memᴰ m ms → Ours k m.pid → P m.pid)
      → Round-Adds log r
      → Round-Adds log (term_members k r ms)
  unfolding term_members
  term_members-Adds log r [] f h = h
  term_members-Adds log r (m ∷ ms) f h =
      term_members-Adds log (term_member k r m.pid) ms (λ n at_n. f n (Memᴰ.tail at_n))
        (term_member-Adds log r m.pid (f m (Memᴰ.head refl)) h)

  All-keep_if : (p : ℤ → Bool) (xs : List ℤ) → All P xs → All P (keep_if p xs)
  unfolding keep_if
  All-keep_if p [] h = tt
  All-keep_if p (x ∷ xs) h = elim (Bool-cases (p x)) [
    | inl e ↦ rw e (h.0, All-keep_if p xs h.1)
    | inr e ↦ rw e (All-keep_if p xs h.1)
  ]

  -- The polls send nothing and drop pids only.
  settle-Adds :
      (log : Log) (n : ℕ) (w : World k) (ps : List ℤ)
      → Adds P log w.log
      → All P ps
      → Adds P log (settle k n w ps).0.log × All P (settle k n w ps).1
  unfolding settle pause
  settle-Adds log zero w ps d h = (d, h)
  settle-Adds log (suc n) w [] d h = (d, h)
  settle-Adds log (suc n) w (p ∷ ps) d h =
      let alive = keep_if (pid_is_alive k w.state) (p ∷ ps) in
      let kept = All-keep_if (pid_is_alive k w.state) (p ∷ ps) h in
      elim (Bool-cases (is_nil alive)) [
        | inl e ↦ rw e (d, kept)
        | inr e ↦ rw e (settle-Adds log n (pause k w) alive d kept)
      ]

  kill_pending-Adds :
      (log : Log) (w : World k) (escalated : Bool) (ps : List ℤ)
      → Adds P log w.log
      → All P ps
      → Adds P log (kill_pending k w escalated ps).0.log
  unfolding kill_pending kill
  kill_pending-Adds log w escalated [] d h = d
  kill_pending-Adds log w escalated (p ∷ ps) d h =
      let (w', answer) = kill k w p sigkill in
      kill_pending-Adds log w' (escalated || was_sent k answer) ps
        (Adds-trans P d (Adds-one P w.log p sigkill answer h.0)) h.1

  pub terminate_tree-Adds :
      (w : World k) (members : List TreeMember)
      → ((m : TreeMember) → Memᴰ m members → Ours k m.pid → P m.pid)
      → Adds P w.log (terminate_tree k w members).0.log
  unfolding terminate_tree
  terminate_tree-Adds w members f =
      let start : Round k = record { world = w; signalled = []; already_gone = 0; refused = 0 } in
      let r = term_members k start members in
      let (d, h) = term_members-Adds w.log start members f (Adds-none P w.log, tt) in
      let (d1, h1) = settle-Adds w.log term_grace_polls r.world r.signalled d h in
      let w1 = (settle k term_grace_polls r.world r.signalled).0 in
      let pending = (settle k term_grace_polls r.world r.signalled).1 in
      let d2 = kill_pending-Adds w.log w1 false pending d1 h1 in
      (settle-Adds w.log kill_grace_polls (kill_pending k w1 false pending).0 pending d2 h1).0
