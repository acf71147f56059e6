-- ===== src/Reap/Table.antt =====
-- reap.rs: the processes of one pass, and the walk down from one of them.
pub mod Scanned
pub mod Keyed
pub mod Reachable
use dracon_system_disk_proce.Common.{
  ℕ, zero, suc, ◌+◌, Bool, true, false, Option, none, some, List, [], ◌∷◌, ◌++◌, if◌then◌else◌,
  elem, nat_beq, length,
}
use dracon_system_disk_proce.Common.Signed.{ℤ, pos, leb_ℤ, int_eq}
use dracon_system_disk_proce.Common.Table.{get, insert}
use dracon_system_disk_proce.Common.Text.{Text, trim, replace_nul, is_empty, parse_i32}
use dracon_system_disk_proce.Reap.Proc.{
  ProcRoot, ProcDir, StatFields, live_stat, process_executable_name,
}

pub record ProcEntry : Type 0 where
  pub pid : ℤ
  pub ppid : ℤ
  pub state : ℕ
  pub tty_nr : ℤ
  pub cpu_ticks : ℕ
  pub starttime : ℕ
  pub comm : Text
  pub args : Text
  pub exe : Text

pub record ProcTable : Type 0 where
  pub entries : List (ℤ × ProcEntry)
  pub children : List (ℤ × List ℤ)

-- `.get(&pid).into_iter().flatten()`.
abbrev pub or_empty : Option (List ℤ) → List ℤ
or_empty none = []
or_empty (some cs) = cs

unfoldable pub children_of : ProcTable → ℤ → List ℤ
children_of t pid = or_empty (get t.children pid)

abbrev pub Found : Type 0
Found = ℤ × ℕ

unfoldable pub pids : List Found → List ℤ
pids [] = []
pids ((pid, depth) ∷ r) = pid ∷ pids r

-- One pass over the children of a process: those not seen yet, one level below it, and what has
-- been seen then.
unfoldable pub scan_children : List ℤ → ℕ → List ℤ → List Found × List ℤ
scan_children seen depth [] = ([], seen)
scan_children seen depth (c ∷ cs) =
    let old = scan_children seen depth cs in
    let fresh = scan_children (c ∷ seen) depth cs in
    if elem c seen then old else ((c, depth + 1) ∷ fresh.0, fresh.1)

abbrev pub prepend : List Found → Option (List Found) → Option (List Found)
prepend found none = none
prepend found (some later) = some (found ++ later)

-- The breadth-first loop; `none` is fuel that ran out.
unfoldable pub descend : ProcTable → ℕ → List ℤ → List Found → Option (List Found)
unfolding scan_children children_of
descend t fuel seen [] = some []
descend t zero seen (q ∷ queue) = none
descend t (suc fuel) seen ((pid, depth) ∷ queue) =
    let scanned = scan_children seen depth (children_of t pid) in
    let later = descend t fuel scanned.1 (queue ++ scanned.0) in prepend scanned.0 later

unfoldable pub all_children : List (ℤ × List ℤ) → List ℤ
all_children [] = []
all_children ((pid, cs) ∷ m) = cs ++ all_children m

-- Each edge of the table adds one entry to the queue at most.
unfoldable pub descendants : ProcTable → ℤ → Option (List Found)
unfolding descend all_children
descendants t root = descend t (suc (length (all_children t.children))) (root ∷ []) ((root, 0) ∷ [])

default_comm : Option Text → Text
default_comm none = []
default_comm (some c) = trim c

-- `children.entry(ppid).or_default().push(pid)`.
unfoldable pub push_child : List (ℤ × List ℤ) → ℤ → ℤ → List (ℤ × List ℤ)
push_child m ppid pid = elim (get m ppid) [
  | none ↦ insert m ppid (pid ∷ [])
  | some cs ↦ insert m ppid (cs ++ pid ∷ [])
]

-- One process of the proc root: its entry, if it has a readable stat and a command line.
unfoldable pub proc_entry : ProcRoot → ℤ → Option ProcEntry
unfolding default_comm
proc_entry root pid =
    let d = root.dir pid in
    elim (live_stat d) [
      | none ↦ none
      | some fields ↦ elim d.cmdline [
        | none ↦ none
        | some cmdline_raw ↦
            let args = trim (replace_nul cmdline_raw) in
            if is_empty args
            then none
            else some (record {
              pid = pid;
              ppid = fields.ppid;
              state = fields.state;
              tty_nr = fields.tty_nr;
              cpu_ticks = fields.cpu_ticks;
              starttime = fields.starttime;
              comm = default_comm d.comm;
              args = args;
              exe = process_executable_name d cmdline_raw;
            })
      ]
    ]

unfoldable pub add_entry : ProcTable → Option ProcEntry → ProcTable
unfolding push_child
add_entry t none = t
add_entry t (some e) = record {
  entries = insert t.entries e.pid e;
  children = push_child t.children e.ppid e.pid;
}

-- A name that is no number is no process.
unfoldable pub read_name : ProcRoot → ProcTable → Option ℤ → ProcTable
unfolding add_entry proc_entry
read_name root t none = t
read_name root t (some pid) = add_entry t (proc_entry root pid)

unfoldable pub read_entries : ProcRoot → ProcTable → List Text → ProcTable
unfolding read_name
read_entries root t [] = t
read_entries root t (name ∷ names) = read_entries root (read_name root t (parse_i32 name)) names

unfoldable pub read_proc_table : ProcRoot → ProcTable
unfolding read_entries
read_proc_table root =
    let empty : ProcTable = record { entries = []; children = [] } in
    elim root.names [ none ↦ empty | some names ↦ read_entries root empty names ]
