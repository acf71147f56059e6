-- ===== src/Reap/Proc.antt =====
-- reap.rs: what a pass reads of one process under the proc root, and the names it is known by.
pub mod Exempt
use dracon_system_disk_proce.Common.{
  ℕ, zero, suc, ◌+◌, ◌-◌, ◌/◌, ◌<◌, ◌≡◌, Bool, true, false, not, ◌&&◌, ◌||◌, Option, none, some,
  List, [], ◌∷◌, leb, ltb, nat_beq, if◌then◌else◌, any_of, get_elem?, u64_max, min, max, codes,
  saturating_add, is_none,
}
use dracon_system_disk_proce.Common.Signed.{ℤ, pos, leb_ℤ}
use dracon_system_disk_proce.Common.Text.{
  Text, text_beq, is_empty, strip_prefix, contains, trim, replace_nul, split_whitespace,
  split_first, lines, rsplit_once, split_on, parse_unsigned, parse_i32,
}

-- The files of `/proc/<pid>`; `none` is a file that cannot be read. `exe` is the last component of
-- the link's target.
pub record ProcDir : Type 0 where
  pub stat : Option Text
  pub cmdline : Option Text
  pub comm : Option Text
  pub status : Option Text
  pub exe : Option Text

-- A proc root: the names in it, `none` if it cannot be listed, and the directory of each pid. `tcp`
-- and `tcp6` are the connection tables, `devtools_active_port` the port file of a browser profile.
pub record ProcRoot : Type 0 where
  pub names : Option (List Text)
  pub dir : ℤ → ProcDir
  pub tcp : Option Text
  pub tcp6 : Option Text
  pub devtools_active_port : Text → Option Text

pub record ReapPolicy : Type 0 where
  pub min_idle_hours : ℕ
  pub max_cpu_seconds : ℕ
  pub signatures : List Text
  pub exempt_names : List Text
  pub forgotten_footprint_mb : ℕ
  pub forgotten_tree_footprint_mb : ℕ

pub record StatFields : Type 0 where
  pub state : ℕ
  pub ppid : ℤ
  pub tty_nr : ℤ
  pub cpu_ticks : ℕ
  pub starttime : ℕ

infixl 5 ◌>>=◌
abbrev ◌>>=◌ {ℓ κ} : {A : Type ℓ} {B : Type κ} → Option A → (A → Option B) → Option B
none >>= f = none
some a >>= f = f a

-- The first character of a text.
unfoldable pub first_char : Text → Option ℕ
first_char [] = none
first_char (c ∷ s) = some c

-- `u64::checked_add`.
unfoldable pub checked_add : ℕ → ℕ → Option ℕ
checked_add a b = if leb (a + b) u64_max then some (a + b) else none

unfoldable pub parse_stat : Text → Option StatFields
unfolding first_char checked_add
parse_stat stat = do
  after_comm ← rsplit_once 41 stat
  let fields = split_whitespace after_comm
  field_0 ← get_elem? fields 0
  state ← first_char field_0
  field_1 ← get_elem? fields 1
  ppid ← parse_i32 field_1
  field_4 ← get_elem? fields 4
  tty_nr ← parse_i32 field_4
  field_11 ← get_elem? fields 11
  utime ← parse_unsigned u64_max field_11
  field_12 ← get_elem? fields 12
  stime ← parse_unsigned u64_max field_12
  cpu_ticks ← checked_add utime stime
  field_19 ← get_elem? fields 19
  starttime ← parse_unsigned u64_max field_19
  some (record {
    state = state;
    ppid = ppid;
    tty_nr = tty_nr;
    cpu_ticks = cpu_ticks;
    starttime = starttime;
  })

-- `read_to_string(stat)`, then `parse_stat`.
unfoldable pub live_stat : ProcDir → Option StatFields
unfolding parse_stat
live_stat d = d.stat >>= parse_stat

unfoldable pub elapsed_secs : ℕ → ℕ → ℕ → ℕ → ℕ
elapsed_secs starttime ticks_per_sec boot_time now =
    if nat_beq ticks_per_sec 0
    then 0
    else now - saturating_add boot_time (starttime / ticks_per_sec)

unfoldable pub matches_signature : Text → List Text → Option Text
matches_signature args [] = none
matches_signature args (needle ∷ rest) =
    if not (is_empty needle) && contains args needle
    then some needle
    else matches_signature args rest

-- The first line with the label: the text behind it.
labelled : Text → List Text → Option Text
labelled label [] = none
labelled label (l ∷ ls) =
    let later = labelled label ls in
    elim (strip_prefix label l) [ some rest ↦ some rest | none ↦ later ]

in_mb : Option ℕ → ℕ
in_mb none = 0
in_mb (some kb) = kb / 1024

status_mb : Text → Option Text → ℕ
unfolding labelled in_mb
status_mb label none = 0
status_mb label (some status) = in_mb (
    labelled label (lines status) >>= λ rest.
    get_elem? (split_whitespace rest) 0 >>= parse_unsigned u64_max)

unfoldable pub rss_mb_from_status : ProcDir → ℕ
unfolding status_mb
rss_mb_from_status d = status_mb (codes "VmRSS:") d.status

unfoldable pub swap_mb_from_status : ProcDir → ℕ
unfolding status_mb
swap_mb_from_status d = status_mb (codes "VmSwap:") d.status

-- `Path::file_name`: the last component, where empty ones and `.` do not count, unless it is `..`.
last_component : List Text → Option Text
last_component [] = none
last_component (p ∷ ps) = elim (last_component ps) [
  | some name ↦ some name
  | none ↦ if is_empty p || text_beq p (codes ".") then none else some p
]

unfoldable pub file_name : Text → Option Text
unfolding last_component
file_name path = last_component (split_on 47 path) >>= λ name.
    if text_beq name (codes "..") then none else some name

or_else : Option Text → Text → Text
or_else none d = d
or_else (some t) d = t

unfoldable pub cmdline_executable : Text → Text
unfolding file_name or_else
cmdline_executable raw_cmdline =
    let first = trim (split_first 0 raw_cmdline) in
    if is_empty first
    then []
    else or_else (file_name (or_else (get_elem? (split_whitespace first) 0) first)) []

unfoldable pub proc_exe_name : ProcDir → Option Text
proc_exe_name d = d.exe >>= λ name. if is_empty name then none else some name

unfoldable pub process_executable_name : ProcDir → Text → Text
unfolding proc_exe_name or_else
process_executable_name d raw_cmdline = or_else (proc_exe_name d) (cmdline_executable raw_cmdline)

-- The byte after a prefix of a longer text.
follows_dash : Option Text → Bool
follows_dash none = false
follows_dash (some []) = false
follows_dash (some (c ∷ s)) = nat_beq c 45

covers : Text → Text → Bool
unfolding follows_dash
covers exe exempt =
    not (is_empty exempt) && (text_beq exe exempt || follows_dash (strip_prefix exempt exe))

unfoldable pub matches_exempt : Text → List Text → Bool
unfolding covers
matches_exempt exe = any_of (covers exe)

unfoldable pub parent_comm_is_systemd : ProcRoot → ℤ → Bool
parent_comm_is_systemd proc_root ppid =
    if leb_ℤ ppid (pos 0) then false else elim ((proc_root.dir ppid).comm) [
      | some comm ↦ text_beq (trim comm) (codes "systemd")
      | none ↦ false
    ]
