-- ===== src/Reap/Kill/Signals.antt =====
-- reap.rs, `terminate_process`: which signals are sent, and what the outcome says of them.
use dracon_system_disk_proce.Common.{
  ℕ, zero, suc, ◌≡◌, refl, ◌⊎◌, inl, inr, Bool, true, false, [], ◌∷◌, Bool-cases, ap, ◌∙◌, All,
  All-append, append_assoc, sym, subst, ◌++◌,
}
use dracon_system_disk_proce.Common.Signed.{ℤ, pos, leb_ℤ, beq_ℤ}
use dracon_system_disk_proce.Reap.Kill.{
  Kernel, Signal, sigterm, sigkill, Answer, sent, esrch, eperm, other_error, reserved_pid,
  will_not_signal_itself, permission_denied, sigterm_failed, sigkill_failed, survived_sigkill,
  TerminateOutcome, signalled, already_gone, refused, failed, Log, World, pid_is_alive, kill, pause,
  poll_gone, after_kill, after_term, terminate_process, term_grace_polls, kill_grace_polls,
}

-- A call is logged with its answer.
pub kill-log :
    (k : Kernel) (w : World k) (pid : ℤ) (sig : Signal)
    → (kill k w pid sig).0.log ≡ (pid, sig, (kill k w pid sig).1) ∷ w.log
unfolding kill
kill-log k w pid sig = refl

module _ (k : Kernel) where
  abbrev alive : World k → ℤ → Bool
  alive w pid = pid_is_alive k w.state pid

  -- The world after so many pauses.
  pub pauses : ℕ → World k → World k
  pauses zero w = w
  pauses (suc n) w = pauses n (pause k w)

  -- The process was seen alive at each of so many polls, a pause apart.
  abbrev pub StillAlive : ℕ → World k → ℤ → Type 0
  StillAlive zero w pid = Unit
  StillAlive (suc n) w pid = (alive w pid ≡ true) × StillAlive n (pause k w) pid

  -- The world after the SIGTERM, and after the SIGKILL that follows when the grace has passed.
  abbrev pub after_sigterm : World k → ℤ → World k
  after_sigterm w pid = (kill k w pid sigterm).0

  abbrev pub after_sigkill : World k → ℤ → World k
  after_sigkill w pid = (kill k (pauses term_grace_polls (after_sigterm w pid)) pid sigkill).0

  -- One SIGTERM, with its answer.
  abbrev pub Termed : ℤ → World k → World k → Answer → Type 0
  Termed pid w w' a = w'.log ≡ (pid, sigterm, a) ∷ w.log

  -- A SIGTERM that was sent to a process seen alive at every poll behind it, then one SIGKILL.
  abbrev pub Killed : ℤ → World k → World k → Answer → Type 0
  Killed pid w w' a =
      (w'.log ≡ (pid, sigkill, a) ∷ (pid, sigterm, sent) ∷ w.log)
      × StillAlive term_grace_polls (after_sigterm w pid) pid

  -- What an outcome says, given the worlds before and after: the signals sent with the kernel's
  -- answers, and when the process was seen alive or gone.
  abbrev pub Says : ℤ → World k → World k → TerminateOutcome → Type 0
  Says pid w w' (signalled false) =
      (Termed pid w w' sent × (alive w' pid ≡ false)) ⊎ Killed pid w w' esrch
  Says pid w w' (signalled true) = Killed pid w w' sent × (alive w' pid ≡ false)
  Says pid w w' already_gone = ((w'.log ≡ w.log) × (alive w pid ≡ false)) ⊎ Termed pid w w' esrch
  Says pid w w' (refused reserved_pid) = (w'.log ≡ w.log) × (leb_ℤ pid (pos 1) ≡ true)
  Says pid w w' (refused will_not_signal_itself) = (w'.log ≡ w.log) × (beq_ℤ pid k.self_pid ≡ true)
  Says pid w w' (refused permission_denied) = Termed pid w w' eperm
  Says pid w w' (failed sigterm_failed) = Termed pid w w' other_error
  Says pid w w' (failed sigkill_failed) = Killed pid w w' eperm ⊎ Killed pid w w' other_error
  Says pid w w' (failed survived_sigkill) =
      Killed pid w w' sent × StillAlive kill_grace_polls (after_sigkill w pid) pid

  -- The polls send nothing, and answer by what they saw.
  pub poll_gone-log :
      (n : ℕ) (w : World k) (pid : ℤ)
      → ((poll_gone k n w pid).0.log ≡ w.log)
        × ((poll_gone k n w pid).1 ≡ true → alive (poll_gone k n w pid).0 pid ≡ false)
  unfolding poll_gone pause
  poll_gone-log zero w pid = (refl, λ e. cc)
  poll_gone-log (suc n) w pid = elim (Bool-cases (alive w pid)) [
    | inl e ↦ rw e (poll_gone-log n (pause k w) pid)
    | inr e ↦ rw e (refl, λ g. e)
  ]

  poll_gone-alive :
      (n : ℕ) (w : World k) (pid : ℤ)
      → (poll_gone k n w pid).1 ≡ false
      → ((poll_gone k n w pid).0 ≡ pauses n w) × StillAlive n w pid
  unfolding poll_gone pauses
  poll_gone-alive zero w pid h = (refl, tt)
  poll_gone-alive (suc n) w pid h = elim (Bool-cases (alive w pid)) [
    | inl e ↦
        let (same, later) = poll_gone-alive n (pause k w) pid (rw e at h) in
        rw e (same, (refl, later))
    | inr e ↦ absurd (let clash : true ≡ false = rw e at h in cc)
  ]

  module _ (w : World k) (pid : ℤ)
      (waited : StillAlive term_grace_polls (after_sigterm w pid) pid) where
    after_kill-Says :
        (a : Answer)
        → (after_sigkill w pid).log ≡ (pid, sigkill, a) ∷ (pid, sigterm, sent) ∷ w.log
        → Says pid w
            (after_kill k kill_grace_polls (after_sigkill w pid) pid a).0
            (after_kill k kill_grace_polls (after_sigkill w pid) pid a).1
    unfolding after_kill
    after_kill-Says esrch h = inr (h, waited)
    after_kill-Says eperm h = inl (h, waited)
    after_kill-Says other_error h = inr (h, waited)
    after_kill-Says sent h =
        let v = after_sigkill w pid in
        let (l, gone) = poll_gone-log kill_grace_polls v pid in
        elim (Bool-cases (poll_gone k kill_grace_polls v pid).1) [
          | inl e ↦ rw e ((l ∙ h, waited), gone e)
          | inr e ↦ rw e ((l ∙ h, waited), (poll_gone-alive kill_grace_polls v pid e).1)
        ]

  after_term-Says :
      (w : World k) (pid : ℤ) (a : Answer)
      → (after_sigterm w pid).log ≡ (pid, sigterm, a) ∷ w.log
      → Says pid w
          (after_term k term_grace_polls kill_grace_polls (after_sigterm w pid) pid a).0
          (after_term k term_grace_polls kill_grace_polls (after_sigterm w pid) pid a).1
  unfolding after_term
  after_term-Says w pid esrch h = inr h
  after_term-Says w pid eperm h = h
  after_term-Says w pid other_error h = h
  after_term-Says w pid sent h =
      let v = after_sigterm w pid in
      let (l, gone) = poll_gone-log term_grace_polls v pid in
      elim (Bool-cases (poll_gone k term_grace_polls v pid).1) [
        | inl e ↦ rw e (inl (l ∙ h, gone e))
        | inr e ↦
            let (same, waited) = poll_gone-alive term_grace_polls v pid e in
            let v' = pauses term_grace_polls v in
            let logged : v'.log ≡ (pid, sigterm, sent) ∷ w.log =
              ap (λ (x : World k). x.log) (sym same) ∙ l ∙ h in
            let answer = (kill k v' pid sigkill).1 in
            rw (e, same)
              (after_kill-Says w pid waited answer
                (kill-log k v' pid sigkill ∙ ap (λ (r : Log). (pid, sigkill, answer) ∷ r) logged))
      ]

-- The signals that a step adds all go to pids with a property.
abbrev pub Adds : (ℤ → Type 0) → Log → Log → Type 0
Adds P log log' = (new : Log) × (log' ≡ new ++ log) × All (λ (s : ℤ × Signal × Answer). P s.0) new

pub Adds-none : (P : ℤ → Type 0) (log : Log) → Adds P log log
Adds-none P log = ([], refl, tt)

pub Adds-one :
    (P : ℤ → Type 0) (log : Log) (pid : ℤ) (sig : Signal) (a : Answer)
    → P pid
    → Adds P log ((pid, sig, a) ∷ log)
Adds-one P log pid sig a h = ((pid, sig, a) ∷ [], refl, (h, tt))

pub Adds-trans : (P : ℤ → Type 0) {a b c : Log} → Adds P a b → Adds P b c → Adds P a c
Adds-trans P {a} (new, e, h) (more, f, g) = (
  more ++ new,
  f ∙ ap (λ r. more ++ r) e ∙ sym (append_assoc more new a),
  All-append _ more new g h,
)

pub Adds-mono :
    (P Q : ℤ → Type 0) {a b : Log} → ((pid : ℤ) → P pid → Q pid) → Adds P a b → Adds Q a b
Adds-mono P Q f (new, e, h) = (new, e, All-map new h)
  where
    All-map :
        (l : Log)
        → All (λ (s : ℤ × Signal × Answer). P s.0) l
        → All (λ (s : ℤ × Signal × Answer). Q s.0) l
    All-map [] h = tt
    All-map ((pid, sig, a) ∷ l) h = (f pid h.0, All-map l h.1)

-- The outcome of ending a process tells the truth, whatever the kernel answers and whatever happens
-- between two calls. A refusal before any signal is for a pid up to 1 or the guard itself, and then
-- nothing was sent; "already gone" means that the process was seen gone with nothing sent, or that the
-- SIGTERM was answered by ESRCH; "permission denied" that it was answered by EPERM, and a failed SIGTERM
-- that it was answered by another error. A SIGKILL follows one SIGTERM that was sent, to a process seen
-- alive at every poll of the grace behind it. "Signalled" means that the process was seen gone after
-- the SIGTERM, or after the SIGKILL that was sent, or that the SIGKILL was answered by ESRCH; a failed
-- SIGKILL was answered by EPERM or another error; and a survivor was seen alive at every poll behind
-- the SIGKILL. No other process is ever signalled, and no signal is sent twice.
pub terminate_process-Says :
    (k : Kernel) (w : World k) (pid : ℤ)
    → Says k pid w (terminate_process k w pid).0 (terminate_process k w pid).1
unfolding terminate_process
terminate_process-Says k w pid = elim (Bool-cases (leb_ℤ pid (pos 1))) [
  | inl e ↦ rw e (refl, e)
  | inr e ↦ rw e (elim (Bool-cases (beq_ℤ pid k.self_pid)) [
    | inl s ↦ rw s (refl, s)
    | inr s ↦ rw s (elim (Bool-cases (pid_is_alive k w.state pid)) [
      | inr a ↦ rw a (inl (refl, a))
      | inl a ↦ rw a (after_term-Says k w pid (kill k w pid sigterm).1 (kill-log k w pid sigterm))
    ])
  ])
]

-- One process that may be signalled: no reserved pid and not the guard.
abbrev pub Ours : Kernel → ℤ → Type 0
Ours k pid = (leb_ℤ pid (pos 1) ≡ false) × (beq_ℤ pid k.self_pid ≡ false)

module _ (k : Kernel) (pid : ℤ) (w w' : World k) where
  abbrev OfPid : Type 0
  OfPid = Adds (λ p. p ≡ pid) w.log w'.log

  one : (a : Answer) → Termed k pid w w' a → OfPid
  one a h = ((pid, sigterm, a) ∷ [], h, (refl, tt))

  two : (a : Answer) → Killed k pid w w' a → OfPid
  two a h = ((pid, sigkill, a) ∷ (pid, sigterm, sent) ∷ [], h.0, (refl, (refl, tt)))

  Says-Adds : (o : TerminateOutcome) → Says k pid w w' o → OfPid
  Says-Adds (signalled false) (inl h) = one sent h.0
  Says-Adds (signalled false) (inr h) = two esrch h
  Says-Adds (signalled true) h = two sent h.0
  Says-Adds already_gone (inl h) = ([], h.0, tt)
  Says-Adds already_gone (inr h) = one esrch h
  Says-Adds (refused reserved_pid) h = ([], h.0, tt)
  Says-Adds (refused will_not_signal_itself) h = ([], h.0, tt)
  Says-Adds (refused permission_denied) h = one eperm h
  Says-Adds (failed sigterm_failed) h = one other_error h
  Says-Adds (failed sigkill_failed) (inl h) = two eperm h
  Says-Adds (failed sigkill_failed) (inr h) = two other_error h
  Says-Adds (failed survived_sigkill) h = two sent h.0

pub terminate_process-Adds :
    (k : Kernel) (w : World k) (pid : ℤ)
    → Adds (λ p. (p ≡ pid) × Ours k p) w.log (terminate_process k w pid).0.log
unfolding terminate_process
terminate_process-Adds k w pid =
    let none_sent = Adds-none (λ p. (p ≡ pid) × Ours k p) w.log in
    elim (Bool-cases (leb_ℤ pid (pos 1))) [
      | inl e ↦ rw e none_sent
      | inr e ↦ rw e (elim (Bool-cases (beq_ℤ pid k.self_pid)) [
        | inl s ↦ rw s none_sent
        | inr s ↦ rw s (elim (Bool-cases (pid_is_alive k w.state pid)) [
          | inr a ↦ rw a none_sent
          | inl a ↦ rw a (
              Adds-mono _ _ (λ p h. (h, subst (Ours k) (sym h) (e, s)))
                (Says-Adds k pid w _ _
                  (after_term-Says k w pid (kill k w pid sigterm).1 (kill-log k w pid sigterm))))
        ])
      ])
    ]
