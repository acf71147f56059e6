-- ===== src/Reap/Browser.antt =====
-- forgotten.rs: whether a command line is a test job, and whether a client still drives a browser.
use dracon_system_disk_proce.Common.{
  ℕ, ◌+◌, ◌-◌, ◌*◌, Bool, true, false, not, ◌&&◌, ◌||◌, Option, none, some, List, [], ◌∷◌, ◌++◌,
  leb, nat_beq, if◌then◌else◌, any_of, get_elem?, codes, length, drop,
}
use dracon_system_disk_proce.Common.Signed.{ℤ}
use dracon_system_disk_proce.Common.Text.{
  Text, text_beq, is_empty, find_after, contains, take_while, is_whitespace, is_digit, trim, lines,
  to_ascii_lowercase, split_whitespace, rsplit_once, parse_unsigned, parse_i32,
}
use dracon_system_disk_proce.Reap.Proc.{ProcRoot}

pub data DesktopVerdict : Type 0 where
  test desktop : Text → DesktopVerdict
  not_a_browser : DesktopVerdict

pub data Usage : Type 0 where
  driven undriven unknown : Usage

infixl 5 ◌>>=◌
abbrev ◌>>=◌ {ℓ κ} : {A : Type ℓ} {B : Type κ} → Option A → (A → Option B) → Option B
none >>= f = none
some a >>= f = f a

abbrev pub headless_markers : List Text
headless_markers = codes "--headless" ∷ codes "headless_shell" ∷ []

abbrev pub test_profile_markers : List Text
test_profile_markers =
    codes "playwright"
    ∷ codes "puppeteer"
    ∷ codes "chromium-"
    ∷ codes "chrome-"
    ∷ codes "headless"
    ∷ codes ".cache"
    ∷ codes "tmp"
    ∷ []

-- The value ends at white space or a quote.
in_value : ℕ → Bool
in_value c = not (is_whitespace c || nat_beq c 34 || nat_beq c 39)

filled : Text → Option Text
filled value = if is_empty value then none else some value

unfoldable pub extract_user_data_dir : Text → Option Text
unfolding filled in_value
extract_user_data_dir args =
    find_after (codes "--user-data-dir=") args >>= λ rest. filled (trim (take_while in_value rest))

unfoldable pub browser_decides_by_veto : Text → Bool
browser_decides_by_veto args = contains (to_ascii_lowercase args) (codes "chrom")

abbrev pub judge_profile : Option Text → DesktopVerdict
judge_profile none = desktop (codes "no --user-data-dir: a normal browser session")
judge_profile (some path) =
    if any_of (contains path) test_profile_markers
    then test (codes "test profile " ++ path)
    else desktop (codes "profile " ++ path ++ codes " is not a test profile")

unfoldable pub classify_desktop_session : Text → DesktopVerdict
classify_desktop_session args =
    let lower = to_ascii_lowercase args in
    if not (contains lower (codes "chrom"))
    then not_a_browser
    else if any_of (contains lower) headless_markers
    then test (codes "headless")
    else judge_profile (extract_user_data_dir lower)

u16_max : ℕ
u16_max = 65535

open_port : ℕ → Option ℕ
open_port port = if nat_beq port 0 then none else some port

unfoldable pub devtools_port : Text → Option ℕ
unfolding u16_max open_port
devtools_port args = find_after (codes "--remote-debugging-port=") args >>= λ rest.
    parse_unsigned u16_max (take_while is_digit rest) >>= open_port

unfoldable pub devtools_port_from_profile : ProcRoot → Text → Option ℕ
unfolding u16_max
devtools_port_from_profile root args = do
  profile ← extract_user_data_dir args
  text ← root.devtools_active_port profile
  line ← get_elem? (lines text) 0
  parse_unsigned u16_max (trim line)

-- `or_else`.
unfoldable pub tree_devtools_port : ProcRoot → Text → Option ℕ
tree_devtools_port root root_args = elim (devtools_port root_args) [
  | some port ↦ some port
  | none ↦ devtools_port_from_profile root root_args
]

is_hex : ℕ → Bool
unfolding is_digit
is_hex c = is_digit c || (leb 65 c && leb c 70) || (leb 97 c && leb c 102)

all_hex : Text → Bool
unfolding is_hex
all_hex [] = true
all_hex (c ∷ s) = is_hex c && all_hex s

hex_digit : ℕ → ℕ
hex_digit c = if leb 97 c then c - 87 else if leb 65 c then c - 55 else c - 48

from_hex : ℕ → Text → ℕ
unfolding hex_digit
from_hex acc [] = acc
from_hex acc (c ∷ s) = from_hex (acc * 16 + hex_digit c) s

unfoldable pub proc_tcp_port : Text → Option ℕ
unfolding all_hex from_hex
proc_tcp_port token = rsplit_once 58 token >>= λ port.
    if nat_beq (length port) 4 && all_hex port then some (from_hex 0 port) else none

-- Three tokens in a row: two addresses and a state.
address_row : Text → Text → Text → Option (ℕ × ℕ × Text)
unfolding all_hex
address_row a b c = do
  local ← proc_tcp_port a
  remote ← proc_tcp_port b
  if nat_beq (length c) 2 && all_hex c then some (local, remote, c) else none

first_row : List Text → Option (ℕ × ℕ × Text)
unfolding address_row
first_row [] = none
first_row (a ∷ []) = none
first_row (a ∷ b ∷ []) = none
first_row (a ∷ b ∷ c ∷ r) = elim (address_row a b c) [
  | some row ↦ some row
  | none ↦ first_row (b ∷ c ∷ r)
]

unfoldable pub parse_proc_tcp_line : Text → Option (ℕ × ℕ × Text)
unfolding first_row
parse_proc_tcp_line line = first_row (split_whitespace line)

connects : ℕ → Option (ℕ × ℕ × Text) → Bool
connects port none = false
connects port (some (local, remote, state)) =
    text_beq state (codes "01") && (nat_beq local port || nat_beq remote port)

unfoldable pub tcp_table_has_established : Option Text → ℕ → Bool
unfolding connects
tcp_table_has_established none port = false
tcp_table_has_established (some text) port =
    any_of (λ line. connects port (parse_proc_tcp_line line)) (drop 1 (lines text))

unfoldable pub port_has_live_client : ProcRoot → ℕ → Bool
port_has_live_client root port =
    tcp_table_has_established root.tcp port || tcp_table_has_established root.tcp6 port

unfoldable pub tree_usage : ProcRoot → Text → Usage
tree_usage root root_args = elim (tree_devtools_port root root_args) [
  | some port ↦ if port_has_live_client root port then driven else undriven
  | none ↦ unknown
]

unfoldable pub crashpad_handler_pid : Text → Option ℤ
crashpad_handler_pid args = find_after (codes "--crashpad-handler-pid=") args >>= λ rest.
    parse_i32 (take_while is_digit rest)
