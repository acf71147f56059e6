-- ===== src/Reap/Kill.antt =====
-- reap.rs: ending one process, and ending a whole tree at once.
pub mod Signals
pub mod Counts
use dracon_system_disk_proce.Common.{
  ℕ, zero, suc, ◌+◌, ◌-◌, Bool, true, false, not, ◌&&◌, ◌||◌, Option, none, some, List, [], ◌∷◌,
  ◌++◌, length, keep_if, nat_beq, if◌then◌else◌,
}
use dracon_system_disk_proce.Common.Signed.{ℤ, pos, leb_ℤ, beq_ℤ}
use dracon_system_disk_proce.Reap.Proc.{ProcRoot, StatFields, parse_stat}
use dracon_system_disk_proce.Reap.Tree.{TreeMember}

pub data Signal : Type 0 where
  sigterm sigkill : Signal

-- What `kill` returns: success, or its error number.
pub data Answer : Type 0 where
  sent esrch eperm other_error : Answer

-- The machine as the pass sees it. Nothing is assumed of what happens between two calls: every call
-- and every pause may find another state.
pub record Kernel : Type 1 where
  pub State : Type 0
  pub proc : State → ProcRoot
  pub exists : State → ℤ → Bool
  pub send : State → ℤ → Signal → State × Answer
  pub sleep : State → State
  pub instant : State → ℕ
  pub self_pid : ℤ

pub data Refusal : Type 0 where
  reserved_pid will_not_signal_itself permission_denied : Refusal

pub data Failure : Type 0 where
  sigterm_failed sigkill_failed survived_sigkill : Failure

pub data TerminateOutcome : Type 0 where
  signalled : Bool → TerminateOutcome
  already_gone : TerminateOutcome
  refused : Refusal → TerminateOutcome
  failed : Failure → TerminateOutcome

abbrev pub term_grace_polls : ℕ
term_grace_polls = 50

abbrev pub kill_grace_polls : ℕ
kill_grace_polls = 20

pub record TreeTermination : Type 0 where
  pub members_ended : ℕ
  pub members_left : ℕ
  pub already_gone : ℕ
  pub refused : ℕ
  pub escalated_to_sigkill : Bool

-- Every `kill` with a signal and its answer, the latest first.
abbrev pub Log : Type 0
Log = List (ℤ × Signal × Answer)

abbrev pub dead_state : Option StatFields → Bool
dead_state none = false
dead_state (some fields) = nat_beq fields.state 90 || nat_beq fields.state 88

abbrev pub is_nil : List ℤ → Bool
is_nil [] = true
is_nil (p ∷ ps) = false

module _ (k : Kernel) where
  open k use {State, proc, exists, send, sleep, self_pid}

  -- The state and the signals so far.
  pub record World : Type 0 where
    pub state : State
    pub log : Log

  unfoldable pub pid_is_alive : State → ℤ → Bool
  pid_is_alive s pid =
      exists s pid
      && elim ((proc s).dir pid).stat [ none ↦ true | some raw ↦ not (dead_state (parse_stat raw)) ]

  unfoldable pub kill : World → ℤ → Signal → World × Answer
  kill w pid sig =
      let (s, answer) = send w.state pid sig in
      (record { state = s; log = (pid, sig, answer) ∷ w.log }, answer)

  unfoldable pub pause : World → World
  pause w = record w { state = sleep w.state }

  -- Up to so many polls: whether the process was seen gone.
  unfoldable pub poll_gone : ℕ → World → ℤ → World × Bool
  unfolding pause
  poll_gone zero w pid = (w, false)
  poll_gone (suc n) w pid =
      let rest = poll_gone n (pause w) pid in
      if not (pid_is_alive w.state pid) then (w, true) else rest

  -- After SIGKILL, by its answer.
  unfoldable pub after_kill : ℕ → World → ℤ → Answer → World × TerminateOutcome
  unfolding poll_gone
  after_kill polls w pid esrch = (w, signalled false)
  after_kill polls w pid eperm = (w, failed sigkill_failed)
  after_kill polls w pid other_error = (w, failed sigkill_failed)
  after_kill polls w pid sent =
      let (w', gone) = poll_gone polls w pid in
      (w', if gone then signalled true else failed survived_sigkill)

  -- After SIGTERM, by its answer.
  unfoldable pub after_term : ℕ → ℕ → World → ℤ → Answer → World × TerminateOutcome
  unfolding poll_gone after_kill kill
  after_term polls kill_polls w pid esrch = (w, already_gone)
  after_term polls kill_polls w pid eperm = (w, refused permission_denied)
  after_term polls kill_polls w pid other_error = (w, failed sigterm_failed)
  after_term polls kill_polls w pid sent =
      let (w', gone) = poll_gone polls w pid in
      let (w'', answer) = kill w' pid sigkill in
      let escalated = after_kill kill_polls w'' pid answer in
      if gone then (w', signalled false) else escalated

  unfoldable pub terminate_process : World → ℤ → World × TerminateOutcome
  unfolding after_term kill
  terminate_process w pid =
      let (w', answer) = kill w pid sigterm in
      let ended = after_term term_grace_polls kill_grace_polls w' pid answer in
      if leb_ℤ pid (pos 1)
      then (w, refused reserved_pid)
      else if beq_ℤ pid self_pid
      then (w, refused will_not_signal_itself)
      else if not (pid_is_alive w.state pid)
      then (w, already_gone)
      else ended

  -- What the first loop of `terminate_tree` has counted.
  pub record Round : Type 0 where
    pub world : World
    pub signalled : List ℤ
    pub already_gone : ℕ
    pub refused : ℕ

  unfoldable pub count_answer : Round → ℤ → World → Answer → Round
  count_answer r pid w sent = record r { world = w; signalled = r.signalled ++ pid ∷ [] }
  count_answer r pid w esrch = record r { world = w; already_gone = r.already_gone + 1 }
  count_answer r pid w eperm = record r { world = w; refused = r.refused + 1 }
  count_answer r pid w other_error = record r { world = w; refused = r.refused + 1 }

  unfoldable pub term_member : Round → ℤ → Round
  unfolding count_answer kill
  term_member r pid =
      let (w, answer) = kill r.world pid sigterm in
      let counted = count_answer r pid w answer in
      if leb_ℤ pid (pos 1) || beq_ℤ pid self_pid
      then record r { refused = r.refused + 1 }
      else if not (pid_is_alive r.world.state pid)
      then record r { already_gone = r.already_gone + 1 }
      else counted

  unfoldable pub term_members : Round → List TreeMember → Round
  unfolding term_member
  term_members r [] = r
  term_members r (m ∷ ms) = term_members (term_member r m.pid) ms

  -- The polls of a round: those still alive.
  unfoldable pub settle : ℕ → World → List ℤ → World × List ℤ
  unfolding pause
  settle zero w pending = (w, pending)
  settle (suc n) w pending =
      let alive = keep_if (pid_is_alive w.state) pending in
      let rest = settle n (pause w) alive in
      if is_nil pending then (w, pending) else if is_nil alive then (w, alive) else rest

  abbrev pub was_sent : Answer → Bool
  was_sent sent = true
  was_sent _ = false

  unfoldable pub kill_pending : World → Bool → List ℤ → World × Bool
  unfolding kill
  kill_pending w escalated [] = (w, escalated)
  kill_pending w escalated (pid ∷ ps) =
      let (w', answer) = kill w pid sigkill in kill_pending w' (escalated || was_sent answer) ps

  unfoldable pub terminate_tree : World → List TreeMember → World × TreeTermination
  unfolding term_members settle kill_pending
  terminate_tree w members =
      let start : Round = record { world = w; signalled = []; already_gone = 0; refused = 0 } in
      let r = term_members start members in
      let (w1, pending) = settle term_grace_polls r.world r.signalled in
      let (w2, escalated) = kill_pending w1 false pending in
      let (w3, survivors) = settle kill_grace_polls w2 pending in
      (
        w3,
        record {
          members_ended = length r.signalled - length survivors;
          members_left = length survivors;
          already_gone = r.already_gone;
          refused = r.refused;
          escalated_to_sigkill = escalated;
        },
      )
