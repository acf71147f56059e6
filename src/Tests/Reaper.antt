-- ===== src/Tests/Reaper.antt =====
-- A leaked test browser, a desktop session and a stale server in a small process table.
use dracon_system_disk_proce.Reap.Proc.Exempt.{matches_exempt_iff, Covers}
use dracon_system_disk_proce.Reap.Pass.Rows.{refused_tree_yields_profile}
use dracon_system_disk_proce.Reap.Pass.Servers.{StaleServer, Orphan, server_passes-ServerTarget}
use dracon_system_disk_proce.Reap.Pass.Signalled.{
  TreesSignal, CandidatesSignal, forgotten_pass-TreeTarget,
}
use dracon_system_disk_proce.Reap.Pass.{
  reap_pass_budget, reap_forgotten_orphan_trees, reap_verified_tree, auto_reap_stale_servers,
  reap_pressure_orphans, ended_row, reap_all, reap_one, reap_one_tree, reap_trees,
  reap_verified_candidates, tree_yields_profile,
}
use dracon_system_disk_proce.Reap.Verify.{
  verify_orphan_for_reap, ReapCandidate, VerifiedTree, allowlisted, command, member_live,
  root_allows, root_command_allows, still_heavy, usage_allows, verify_candidate_for_reap,
  verify_forgotten_tree_for_reap, verify_members,
}
use dracon_system_disk_proce.Reap.Kill.Signals.{Says, terminate_process-Says}
use dracon_system_disk_proce.Reap.Kill.{
  Kernel, World, Answer, Signal, TerminateOutcome, terminate_process, pid_is_alive, after_kill,
  after_term, count_answer, kill, kill_pending, pause, poll_gone, settle, term_member, term_members,
  terminate_tree,
}
use dracon_system_disk_proce.Reap.Table.Reachable.{descendants_exact}
use dracon_system_disk_proce.Reap.Table.Scanned.{Fresh, Below}
use dracon_system_disk_proce.Reap.Tree.Reported.{Accounted, scan_reports_heavy}
use dracon_system_disk_proce.Reap.Tree.Certified.{Certified, scan-Certified}
use dracon_system_disk_proce.Reap.Table.{
  add_entry, all_children, children_of, descend, descendants, proc_entry, push_child, read_entries,
  read_name, read_proc_table, scan_children, ProcEntry, ProcTable, Found, pids,
}
use dracon_system_disk_proce.Reap.Browser.{
  browser_decides_by_veto, classify_desktop_session, crashpad_handler_pid, devtools_port,
  devtools_port_from_profile, extract_user_data_dir, parse_proc_tcp_line, port_has_live_client,
  proc_tcp_port, tcp_table_has_established, tree_devtools_port, tree_usage, DesktopVerdict,
}
use dracon_system_disk_proce.Common.Table.{get, insert, keys}
use dracon_system_disk_proce.Common.Sort.{insert_by, sort_by}
use dracon_system_disk_proce.Common.{
  ℕ, ◌≡◌, ◌≢◌, refl, true, false, none, some, List, [], ◌∷◌, String, codes, if◌then◌else◌, any_of,
  elem, subst, sym, ◌∙◌, ◌↔◌, ◌⊎◌, All, not, ◌+◌, keep_if,
}
use dracon_system_disk_proce.Common.Signed.{ℤ, pos, beq_ℤ, int_eq}
use dracon_system_disk_proce.Common.Text.{
  Text, contains, drop_while, find_after, is_digit, is_empty, is_whitespace, lines, parse_i32,
  parse_unsigned, replace_nul, rsplit_once, split_first, split_on, split_whitespace, starts_with,
  strip_prefix, take_while, text_beq, to_ascii_lowercase, trim,
}
use mathlib.Core.List.{Memᴰ}
use dracon_system_disk_proce.Reap.Proc.{
  ProcRoot, ProcDir, ReapPolicy, checked_add, cmdline_executable, elapsed_secs, first_char,
  live_stat, matches_exempt, parent_comm_is_systemd, parse_stat, proc_exe_name,
  process_executable_name, rss_mb_from_status, swap_mb_from_status, matches_signature,
}
use dracon_system_disk_proce.Reap.Tree.{
  PassTime, Floors, scan_forgotten_orphan_trees, ForgottenTree, Role, add_descendant,
  add_descendants, add_handler, add_handlers, browser_family_member, build_tree, by_usage, gather,
  heavy, member_exempt, orphan_root, orphan_roots, scan_root, scan_roots, spare, weigh, weigh_root,
  measure_tree_footprint,
}

abbrev no_process : ProcDir
no_process = record { stat = none; cmdline = none; comm = none; status = none; exe = none }

abbrev process : String → String → String → String → ProcDir
process stat cmdline comm status = record {
  stat = some (codes stat);
  cmdline = some (codes cmdline);
  comm = some (codes comm);
  status = some (codes status);
  exe = none;
}

abbrev browser : ProcDir
browser =
    process "42 (chrome) S 9 42 42 0 -1 0 0 0 0 0 5 5 0 0 20 0 1 0 100 0"
      "/opt/chrome --headless --user-data-dir=/tmp/p --remote-debugging-port=9222" "chrome"
      "VmRSS: 307200 kB"

abbrev helper : ProcDir
helper =
    process "43 (chrome) S 42 42 42 0 -1 0 0 0 0 0 1 1 0 0 20 0 1 0 101 0" "/opt/chrome --type=gpu"
      "chrome" "VmRSS: 102400 kB"

abbrev manager : ProcDir
manager =
    process "9 (systemd) S 1 9 9 0 -1 0 0 0 0 0 1 1 0 0 20 0 1 0 1 0" "/lib/systemd" "systemd" ""

abbrev dirs : ℤ → ProcDir
dirs pid =
    if beq_ℤ pid (pos 42)
    then browser
    else if beq_ℤ pid (pos 43)
    then helper
    else if beq_ℤ pid (pos 9)
    then manager
    else no_process

abbrev proc : ProcRoot
proc = record {
  names = some (codes "self" ∷ codes "9" ∷ codes "42" ∷ codes "43" ∷ []);
  dir = dirs;
  tcp = none;
  tcp6 = none;
  devtools_active_port = λ path. none;
}

abbrev policy : ReapPolicy
policy = record {
  min_idle_hours = 24;
  max_cpu_seconds = 60;
  signatures = codes "vite" ∷ [];
  exempt_names = codes "chrome" ∷ [];
  forgotten_footprint_mb = 256;
  forgotten_tree_footprint_mb = 256;
}

abbrev time : PassTime
time = record { boot_time = 1000; now = 9000; ticks_per_sec = 100 }

abbrev floors : Floors
floors = record { per_process_floor_mb = 256; tree_floor_mb = 256 }

abbrev command_line : Text
command_line = codes "/opt/chrome --headless --user-data-dir=/tmp/p --remote-debugging-port=9222"

abbrev leaked : ForgottenTree
leaked = record {
  root_pid = pos 42;
  root_comm = codes "chrome";
  root_args = command_line;
  aggregate_footprint_mb = 400;
  root_footprint_mb = 300;
  member_count = 2;
  age_secs = 7999;
  cpu_seconds = 0;
  why = codes "headless";
  members =
      record {
        pid = pos 42;
        comm = codes "chrome";
        rss_mb = 300;
        swap_mb = 0;
        footprint_mb = 300;
        depth = 0;
        role = Role.root;
        starttime = 100;
      }
      ∷ record {
        pid = pos 43;
        comm = codes "chrome";
        rss_mb = 100;
        swap_mb = 0;
        footprint_mb = 100;
        depth = 1;
        role = Role.descendant;
        starttime = 101;
      }
      ∷ [];
  root_starttime = 100;
}

leaked_found :
    (scan_forgotten_orphan_trees proc (pos 7) policy time floors).candidates ≡ leaked ∷ []
unfolding scan_forgotten_orphan_trees insert_by sort_by get insert keys contains drop_while
    find_after is_digit is_empty is_whitespace lines parse_i32 parse_unsigned replace_nul
    rsplit_once split_first split_on split_whitespace starts_with strip_prefix take_while text_beq
    to_ascii_lowercase trim any_of elem browser_decides_by_veto classify_desktop_session
    crashpad_handler_pid devtools_port devtools_port_from_profile extract_user_data_dir
    parse_proc_tcp_line port_has_live_client proc_tcp_port tcp_table_has_established
    tree_devtools_port tree_usage checked_add cmdline_executable elapsed_secs first_char live_stat
    matches_exempt parent_comm_is_systemd parse_stat proc_exe_name process_executable_name
    rss_mb_from_status swap_mb_from_status add_entry all_children children_of descend descendants
    proc_entry push_child read_entries read_name read_proc_table scan_children add_descendant
    add_descendants add_handler add_handlers browser_family_member build_tree by_usage gather heavy
    member_exempt orphan_root orphan_roots scan_root scan_roots spare weigh weigh_root
leaked_found = refl

leaked_listed : Memᴰ leaked (scan_forgotten_orphan_trees proc (pos 7) policy time floors).candidates
leaked_listed = subst (λ l. Memᴰ leaked l) (sym leaked_found) (Memᴰ.head refl)

scan-Certified_example : Certified proc (read_proc_table proc) policy time floors (pos 7) leaked
scan-Certified_example = scan-Certified proc (pos 7) policy time floors leaked leaked_listed

abbrev browser_entry : ProcEntry
browser_entry = record {
  pid = pos 42;
  ppid = pos 9;
  state = 83;
  tty_nr = pos 0;
  cpu_ticks = 10;
  starttime = 100;
  comm = codes "chrome";
  args = command_line;
  exe = codes "chrome";
}

browser_read : get (read_proc_table proc).entries (pos 42) ≡ some browser_entry
unfolding read_proc_table get parse_i32 live_stat rsplit_once split_whitespace is_empty trim
    drop_while replace_nul insert process_executable_name cmdline_executable split_first split_on
    text_beq
browser_read = refl

browser_orphan : orphan_root proc policy time (pos 7) browser_entry ≡ true
unfolding orphan_root parent_comm_is_systemd text_beq trim drop_while is_whitespace
    browser_decides_by_veto contains to_ascii_lowercase strip_prefix elapsed_secs
browser_orphan = refl

browser_verdict : classify_desktop_session command_line ≡ DesktopVerdict.test (codes "headless")
unfolding classify_desktop_session contains to_ascii_lowercase strip_prefix any_of
browser_verdict = refl

is_browser : classify_desktop_session command_line ≢ DesktopVerdict.not_a_browser
is_browser e =
    let clash : DesktopVerdict.test (codes "headless") ≡ DesktopVerdict.not_a_browser =
      sym browser_verdict ∙ e in
    absurd cc

scan_reports_heavy_example :
    Accounted proc
      (read_proc_table proc)
      policy
      time
      floors
      (scan_forgotten_orphan_trees proc (pos 7) policy time floors)
      (pos 42)
scan_reports_heavy_example =
    scan_reports_heavy proc (pos 7) policy time floors (pos 42) browser_entry browser_read
      browser_orphan is_browser

-- A table whose rows form a cycle.
abbrev cyclic : ProcTable
cyclic = record {
  entries = [];
  children = (pos 1, pos 2 ∷ pos 3 ∷ []) ∷ (pos 2, pos 1 ∷ pos 4 ∷ []) ∷ (pos 1, pos 5 ∷ []) ∷ [];
}

cyclic_walk : descendants cyclic (pos 1) ≡ some ((pos 2, 1) ∷ (pos 3, 1) ∷ (pos 4, 2) ∷ [])
unfolding descendants descend scan_children children_of all_children get elem
cyclic_walk = refl

descendants_exact_example :
    (out : List Found) × (descendants cyclic (pos 1) ≡ some out)
    × Fresh (pos 1 ∷ []) out
    × All (λ (f : Found). Below cyclic (pos 1) f.0 f.1) out
    × ((p : ℤ) (d : ℕ) → Below cyclic (pos 1) p d → (elem p (pids out) ≡ true) ⊎ (p ≡ pos 1))
descendants_exact_example = descendants_exact cyclic (pos 1)

-- Signals end a process at once; the state holds the dead.
abbrev obedient : Kernel
obedient = record {
  State = List ℤ;
  proc = λ s. proc;
  exists = λ s pid. not (elem pid s);
  send = λ s pid sig. (pid ∷ s, Answer.sent);
  sleep = λ s. s;
  instant = λ s. 0;
  self_pid = pos 7;
}

abbrev fresh_world : World obedient
fresh_world = record { state = []; log = [] }

-- The guard may signal nobody.
abbrev forbidding : Kernel
forbidding = record {
  State = ℕ;
  proc = λ s. proc;
  exists = λ s pid. true;
  send = λ s pid sig. (s, Answer.eperm);
  sleep = λ s. s + 1;
  instant = λ s. s;
  self_pid = pos 7;
}

abbrev forbidden_world : World forbidding
forbidden_world = record { state = 0; log = [] }

browser_ended :
    (terminate_process obedient fresh_world (pos 42)).1 ≡ TerminateOutcome.signalled false
unfolding terminate_process pid_is_alive elem parse_stat rsplit_once split_whitespace parse_i32
browser_ended = refl

terminate_process-Says_example :
    Says obedient
      (pos 42)
      fresh_world
      (terminate_process obedient fresh_world (pos 42)).0
      (terminate_process obedient fresh_world (pos 42)).1
terminate_process-Says_example = terminate_process-Says obedient fresh_world (pos 42)

tree_ended :
    (reap_forgotten_orphan_trees obedient policy fresh_world (leaked ∷ []) 100).0.log
    ≡ (pos 42, Signal.sigterm, Answer.sent) ∷ (pos 43, Signal.sigterm, Answer.sent) ∷ []
unfolding reap_forgotten_orphan_trees add_descendant add_descendants add_entry add_handler
    add_handlers after_kill after_term all_children allowlisted any_of browser_decides_by_veto
    browser_family_member build_tree by_usage checked_add children_of classify_desktop_session
    cmdline_executable command contains count_answer crashpad_handler_pid descend descendants
    devtools_port devtools_port_from_profile drop_while elapsed_secs elem ended_row
    extract_user_data_dir find_after first_char gather get heavy insert insert_by is_digit is_empty
    is_whitespace keep_if keys kill kill_pending lines live_stat matches_exempt matches_signature
    measure_tree_footprint member_exempt member_live parent_comm_is_systemd parse_i32
    parse_proc_tcp_line parse_stat parse_unsigned pause pid_is_alive poll_gone port_has_live_client
    proc_entry proc_exe_name proc_tcp_port process_executable_name push_child read_entries read_name
    reap_all reap_one reap_one_tree reap_trees reap_verified_candidates reap_verified_tree
    replace_nul root_allows root_command_allows rsplit_once rss_mb_from_status scan_children
    scan_root settle sort_by spare split_first split_on split_whitespace starts_with still_heavy
    strip_prefix swap_mb_from_status take_while tcp_table_has_established term_member term_members
    terminate_process terminate_tree text_beq to_ascii_lowercase tree_devtools_port tree_usage
    tree_yields_profile trim usage_allows verify_candidate_for_reap verify_forgotten_tree_for_reap
    verify_members weigh weigh_root
tree_ended = refl

forgotten_pass-TreeTarget_example :
    TreesSignal obedient policy 100
      (obedient.instant fresh_world.state)
      fresh_world
      (leaked ∷ [])
      (reap_forgotten_orphan_trees obedient policy fresh_world (leaked ∷ []) 100).0
forgotten_pass-TreeTarget_example =
    forgotten_pass-TreeTarget obedient policy fresh_world (leaked ∷ []) 100

abbrev whole_tree : VerifiedTree
whole_tree = record { members = leaked.members; skipped = 0 }

profile_named : extract_user_data_dir command_line ≡ some (codes "/tmp/p")
unfolding extract_user_data_dir find_after strip_prefix is_empty trim drop_while take_while
    is_whitespace
profile_named = refl

refused_tree_yields_profile_example :
    let row = (reap_verified_tree forbidding forbidden_world leaked (some whole_tree)).1 in
    (row.members_ended ≡ 0) × (row.profile_dir ≡ some (codes "/tmp/p"))
refused_tree_yields_profile_example =
    refused_tree_yields_profile forbidding (λ s pid. refl) forbidden_world leaked whole_tree
      (codes "/tmp/p") profile_named

abbrev stale : ReapCandidate
stale = record {
  pid = pos 43;
  comm = codes "chrome";
  args = codes "/opt/chrome --type=gpu";
  idle_hours = 2;
  cpu_seconds = 0;
  rss_mb = 100;
  signature = codes "gpu";
  starttime = 101;
}

abbrev gpu_policy : ReapPolicy
gpu_policy = record policy { signatures = codes "gpu" ∷ []; exempt_names = [] }

stale_ended :
    (auto_reap_stale_servers obedient gpu_policy fresh_world (stale ∷ []) 100).0.log
    ≡ (pos 43, Signal.sigterm, Answer.sent) ∷ []
unfolding auto_reap_stale_servers add_descendant add_descendants add_entry add_handler add_handlers
    after_kill after_term all_children allowlisted any_of browser_decides_by_veto
    browser_family_member build_tree by_usage checked_add children_of classify_desktop_session
    cmdline_executable command contains count_answer crashpad_handler_pid descend descendants
    devtools_port devtools_port_from_profile drop_while elapsed_secs elem ended_row
    extract_user_data_dir find_after first_char gather get heavy insert insert_by is_digit is_empty
    is_whitespace keep_if keys kill kill_pending lines live_stat matches_exempt matches_signature
    measure_tree_footprint member_exempt member_live parent_comm_is_systemd parse_i32
    parse_proc_tcp_line parse_stat parse_unsigned pause pid_is_alive poll_gone port_has_live_client
    proc_entry proc_exe_name proc_tcp_port process_executable_name push_child read_entries read_name
    reap_all reap_one reap_one_tree reap_trees reap_verified_candidates reap_verified_tree
    replace_nul root_allows root_command_allows rsplit_once rss_mb_from_status scan_children
    scan_root settle sort_by spare split_first split_on split_whitespace starts_with still_heavy
    strip_prefix swap_mb_from_status take_while tcp_table_has_established term_member term_members
    terminate_process terminate_tree text_beq to_ascii_lowercase tree_devtools_port tree_usage
    tree_yields_profile trim usage_allows verify_candidate_for_reap verify_forgotten_tree_for_reap
    verify_members weigh weigh_root
stale_ended = refl

server_passes-ServerTarget_example :
    CandidatesSignal obedient verify_candidate_for_reap gpu_policy 100 reap_pass_budget
      (obedient.instant fresh_world.state)
      (StaleServer obedient gpu_policy 100)
      fresh_world
      (stale ∷ [])
      (auto_reap_stale_servers obedient gpu_policy fresh_world (stale ∷ []) 100).0
    × CandidatesSignal obedient verify_orphan_for_reap gpu_policy 100 reap_pass_budget
        (obedient.instant fresh_world.state)
        (Orphan obedient gpu_policy)
        fresh_world
        (stale ∷ [])
        (reap_pressure_orphans obedient gpu_policy fresh_world (stale ∷ []) 100).0
server_passes-ServerTarget_example =
    server_passes-ServerTarget obedient gpu_policy fresh_world (stale ∷ []) 100

matches_exempt_iff_example :
    (matches_exempt (codes "wezterm-gui") (codes "wezterm" ∷ []) ≡ true)
    ↔ ((exempt : Text) × Memᴰ exempt (codes "wezterm" ∷ []) × Covers exempt (codes "wezterm-gui"))
matches_exempt_iff_example = matches_exempt_iff (codes "wezterm-gui") (codes "wezterm" ∷ [])
