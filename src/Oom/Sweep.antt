-- ===== src/Oom/Sweep.antt =====
-- `sweep_stranded_oom_descendants` and `restore_pending_oom_descendants`.
use dracon_system_disk_proce.Common.{
  ℕ, ◌+◌, Bool, true, false, not, ◌||◌, Option, none, some, List, [], ◌∷◌, ◌++◌, String,
  if◌then◌else◌, elem, length, min, string_eq, nat_eq, pair_eq,
}
use dracon_system_disk_proce.Common.Signed.{ℤ, int_eq}
use dracon_system_disk_proce.Common.Table.{get, insert, remove, contains_key, keys}
use dracon_system_disk_proce.Nice.{ProcSample}
use dracon_system_disk_proce.Process.{
  ProcessIdentity, ProcessIdentityStatus, matched, gone, mismatch, unavailable, Parents, parents_of,
  nearest_biased_ancestor, process_sample_identity,
}
use dracon_system_disk_proce.Runtime.{Mitigations, OomPendingDescendant, Incarnation}
use dracon_system_disk_proce.Runtime.Plan.{or_default}
use dracon_system_disk_proce.Oom.{
  Answers, RestoreAnswer, changed, unchanged, failed, is_kernel_process,
}

-- The descriptions of what was restored (comm and value), and how many obligations are left.
pub record OomSweepResult : Type 0 where
  pub restored : List (String × ℤ)
  pub deferred : ℕ

abbrev pub u32_max : ℕ
u32_max = 4294967295

-- `pending.attempts = pending.attempts.saturating_add(1)`, and the entry is stored again.
unfoldable pub record_oom_retry : Mitigations → Incarnation → OomPendingDescendant → Mitigations
record_oom_retry st key pending = record st {
  oom_pending_descendants =
      insert st.oom_pending_descendants key
        (record pending { attempts = min (pending.attempts + 1) u32_max });
}

unfoldable pub remember_oom_descendant_identity :
    Mitigations → ℤ → ℤ → ProcessIdentity → Mitigations
remember_oom_descendant_identity st root_pid pid identity =
    let known = or_default (get st.oom_known_descendants root_pid) in
    let key : Incarnation = (pid, identity.starttime) in
    record st {
      oom_known_descendants =
          insert st.oom_known_descendants root_pid (if elem key known then known else key ∷ known);
    }

-- What becomes of one obligation.
pub data PendingFate : Type 0 where
  -- The process is gone, replaced or defunct: the entry is dropped.
  discharged : PendingFate
  -- It could not be restored in this pass: the entry is kept for the next.
  deferred : PendingFate
  -- Restored, or found changed by somebody else: the entry is dropped and the child remembered.
  settled : Bool → PendingFate

abbrev pub fate_of_restore : RestoreAnswer → PendingFate
fate_of_restore changed = settled true
fate_of_restore unchanged = settled false
fate_of_restore failed = deferred

abbrev pub fate_of_comm :
    Answers → List String → ℤ → OomPendingDescendant → Option String → PendingFate
fate_of_comm a exempt_names pid pending none = deferred
fate_of_comm a exempt_names pid pending (some comm) =
    if elem comm exempt_names || is_kernel_process comm
    then deferred
    else fate_of_restore (a.restore pid pending.identity pending.original_adj)

abbrev pub fate_of_status :
    Answers → List String → ℤ → OomPendingDescendant → ProcessIdentityStatus → PendingFate
fate_of_status a exempt_names pid pending gone = discharged
fate_of_status a exempt_names pid pending mismatch = discharged
fate_of_status a exempt_names pid pending unavailable = deferred
fate_of_status a exempt_names pid pending matched =
    if a.is_zombie pid
    then discharged
    else fate_of_comm a exempt_names pid pending (a.read_comm pid)

unfoldable pub pending_fate : Answers → List String → ℤ → OomPendingDescendant → PendingFate
pending_fate a exempt_names pid pending =
    fate_of_status a exempt_names pid pending (a.status pid pending.identity)

abbrev note_restored : Bool → OomPendingDescendant → List (String × ℤ)
note_restored true pending = (pending.identity.comm, pending.original_adj) ∷ []
note_restored false pending = []

unfoldable pub apply_fate :
    PendingFate
    → Incarnation
    → OomPendingDescendant
    → Mitigations × OomSweepResult
    → Mitigations × OomSweepResult
unfolding record_oom_retry remember_oom_descendant_identity
apply_fate discharged key pending (st, r) =
    (record st { oom_pending_descendants = remove st.oom_pending_descendants key }, r)
apply_fate deferred key pending (st, r) =
    (record_oom_retry st key pending, record r { deferred = r.deferred + 1 })
apply_fate (settled did) key pending (st, r) = (
  remember_oom_descendant_identity
      (record st { oom_pending_descendants = remove st.oom_pending_descendants key })
      pending.root_pid key.0 pending.identity,
  record r { restored = r.restored ++ note_restored did pending },
)

abbrev pub restore_one :
    Answers
    → List String
    → Incarnation
    → Option OomPendingDescendant
    → Mitigations × OomSweepResult
    → Mitigations × OomSweepResult
restore_one a exempt_names key none s = s
restore_one a exempt_names key (some pending) s =
    apply_fate (pending_fate a exempt_names key.0 pending) key pending s

-- The loop over the keys that were collected first.
unfoldable pub restore_keys :
    Answers
    → List String
    → List Incarnation
    → Mitigations × OomSweepResult
    → Mitigations × OomSweepResult
unfolding apply_fate pending_fate
restore_keys a exempt_names [] s = s
restore_keys a exempt_names (key ∷ rest) s =
    restore_keys a exempt_names rest
      (restore_one a exempt_names key (get s.0.oom_pending_descendants key) s)

abbrev pub nothing_swept : OomSweepResult
nothing_swept = record { restored = []; deferred = 0 }

unfoldable pub restore_pending_oom_descendants :
    Answers → List String → Mitigations → Mitigations × OomSweepResult
unfolding restore_keys
restore_pending_oom_descendants a exempt_names st =
    restore_keys a exempt_names (keys st.oom_pending_descendants) (st, nothing_swept)

abbrev keeps_value : ProcessIdentityStatus → Bool
keeps_value matched = true
keeps_value gone = true
keeps_value _ = false

-- The original values of the biased roots whose incarnation is still there, or gone.
unfoldable pub root_values : Answers → List (ℤ × (ℤ × ProcessIdentity)) → List (ℤ × ℤ)
root_values a [] = []
root_values a ((pid, (adj, identity)) ∷ t) =
    if keeps_value (a.status pid identity)
    then insert (root_values a t) pid adj
    else root_values a t

-- `root_original_adj.entry(pending.root_pid).or_insert(pending.original_adj)`
unfoldable pub add_pending_roots :
    List (ℤ × ℤ) → List (Incarnation × OomPendingDescendant) → List (ℤ × ℤ)
add_pending_roots m [] = m
add_pending_roots m ((key, pending) ∷ t) =
    add_pending_roots
      (if contains_key m pending.root_pid
        then m
        else insert m pending.root_pid pending.original_adj)
      t

abbrev pub knows : Mitigations → ℤ → Incarnation → Bool
knows st root_pid key = elem key (or_default (get st.oom_known_descendants root_pid))

abbrev pub adopt : Mitigations → ProcSample → ℤ → Option ℤ → Mitigations
adopt st child root_pid none = st
adopt st child root_pid (some original_adj) = record st {
  oom_pending_descendants =
      insert st.oom_pending_descendants (child.pid, child.starttime)
        (record {
          root_pid = root_pid;
          original_adj = original_adj;
          identity = process_sample_identity child;
          attempts = 0;
        });
}

abbrev pub adopt_from : Mitigations → List (ℤ × ℤ) → ProcSample → Option ℤ → Mitigations
adopt_from st roots child none = st
adopt_from st roots child (some root_pid) =
    if contains_key st.oom_pending_descendants (child.pid, child.starttime)
      || knows st root_pid (child.pid, child.starttime)
    then st
    else adopt st child root_pid (get roots root_pid)

-- One child of the process table becomes an obligation of its nearest biased root.
unfoldable pub adopt_child :
    List ℤ → List String → List (ℤ × ℤ) → Parents → Mitigations → ProcSample → Mitigations
adopt_child tracked exempt_names roots parents st child =
    if elem child.pid tracked
      || (elem child.command exempt_names || is_kernel_process child.command)
    then st
    else adopt_from st roots child (nearest_biased_ancestor child.pid parents (keys roots))

unfoldable pub adopt_children :
    List ℤ → List String → List (ℤ × ℤ) → Parents → Mitigations → List ProcSample → Mitigations
unfolding adopt_child
adopt_children tracked exempt_names roots parents st [] = st
adopt_children tracked exempt_names roots parents st (child ∷ rest) =
    adopt_children tracked exempt_names roots parents
      (adopt_child tracked exempt_names roots parents st child) rest

unfoldable pub sweep_stranded_oom_descendants :
    Answers → List ProcSample → Mitigations → List String → Mitigations × OomSweepResult
unfolding adopt_children restore_pending_oom_descendants root_values add_pending_roots
sweep_stranded_oom_descendants a samples st exempt_names =
    let roots = add_pending_roots (root_values a st.oom_biased_pids) st.oom_pending_descendants in
    let st1 =
      adopt_children (keys st.oom_biased_pids) exempt_names roots (parents_of [] samples) st
        samples in
    if not a.persist
    then (st1, record { restored = []; deferred = length st1.oom_pending_descendants })
    else restore_pending_oom_descendants a exempt_names st1
