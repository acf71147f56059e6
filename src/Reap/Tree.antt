-- ===== src/Reap/Tree.antt =====
-- forgotten.rs: orphaned test trees, weighed as a whole, and the scan for them.
pub mod Rows
pub mod Root
pub mod Reported
pub mod Certified
use dracon_system_disk_proce.Common.{
  ℕ, zero, suc, ◌+◌, ◌-◌, ◌/◌, max, Bool, true, false, not, ◌&&◌, ◌||◌, Option, none, some, List,
  [], ◌∷◌, ◌++◌, leb, ltb, nat_beq, if◌then◌else◌, codes, length, elem, saturating_add, map, ◌==◌,
}
use dracon_system_disk_proce.Common.Signed.{ℤ, pos, leb_ℤ, beq_ℤ, int_eq}
use dracon_system_disk_proce.Common.Table.{get, keys}
use dracon_system_disk_proce.Common.Text.{Text, text_beq}
use dracon_system_disk_proce.Common.Sort.{sort_by}
use dracon_system_disk_proce.Reap.Proc.{
  ProcRoot, ReapPolicy, rss_mb_from_status, swap_mb_from_status, parent_comm_is_systemd,
  elapsed_secs, matches_exempt,
}
use dracon_system_disk_proce.Reap.Table.{ProcEntry, ProcTable, Found, descendants, read_proc_table}
use dracon_system_disk_proce.Reap.Browser.{
  DesktopVerdict, test, desktop, not_a_browser, Usage, driven, undriven, unknown,
  classify_desktop_session, browser_decides_by_veto, crashpad_handler_pid, tree_usage,
}

pub data Role : Type 0 where
  root descendant crashpad_handler : Role

pub record TreeMember : Type 0 where
  pub pid : ℤ
  pub comm : Text
  pub rss_mb : ℕ
  pub swap_mb : ℕ
  pub footprint_mb : ℕ
  pub depth : ℕ
  pub role : Role
  pub starttime : ℕ

pub record ForgottenTree : Type 0 where
  pub root_pid : ℤ
  pub root_comm : Text
  pub root_args : Text
  pub aggregate_footprint_mb : ℕ
  pub root_footprint_mb : ℕ
  pub member_count : ℕ
  pub age_secs : ℕ
  pub cpu_seconds : ℕ
  pub why : Text
  pub members : List TreeMember
  pub root_starttime : ℕ

-- Why a tree is left alone: a desktop session, a client, or CPU seconds without a port to ask.
pub data Reason : Type 0 where
  veto : Text → Reason
  client_connected : Reason
  busy : ℕ → Reason

-- A vetoed or protected tree in the report.
pub record SparedTree : Type 0 where
  pub root_pid : ℤ
  pub root_comm : Text
  pub aggregate_footprint_mb : ℕ
  pub member_count : ℕ
  pub reason : Reason

pub record ForgottenTreeScan : Type 0 where
  pub candidates : List ForgottenTree
  pub vetoed : List SparedTree
  pub protected : List SparedTree

abbrev pub forgotten_min_tree_age_secs : ℕ
forgotten_min_tree_age_secs = 300

unfoldable pub browser_family_member : ProcEntry → ProcEntry → Bool
browser_family_member owner member =
    browser_decides_by_veto owner.args && text_beq member.exe owner.exe

-- The exemption does not cover the family of a browser.
unfoldable pub member_exempt : ReapPolicy → ProcEntry → ProcEntry → Bool
unfolding browser_family_member
member_exempt policy owner member =
    not (browser_family_member owner member) && matches_exempt member.exe policy.exempt_names

unfoldable pub weigh : ProcRoot → ProcEntry → ℕ → Role → TreeMember
weigh proc e depth role =
    let rss_mb = rss_mb_from_status (proc.dir e.pid) in
    let swap_mb = swap_mb_from_status (proc.dir e.pid) in
    record {
      pid = e.pid;
      comm = e.comm;
      rss_mb = rss_mb;
      swap_mb = swap_mb;
      footprint_mb = saturating_add rss_mb swap_mb;
      depth = depth;
      role = role;
      starttime = e.starttime;
    }

-- The members found so far, the pids seen, and the crashpad handlers that members name.
pub record Gathered : Type 0 where
  pub members : List TreeMember
  pub seen : List ℤ
  pub handler_links : List Found

note_handler : Option ℤ → ℕ → List Found → List Found
note_handler none depth links = links
note_handler (some handler) depth links = links ++ (handler, depth + 1) ∷ []

module _ (proc : ProcRoot) (table : ProcTable) (policy : ReapPolicy) (owner : ProcEntry) where
  -- The first loop, for one descendant.
  unfoldable pub add_descendant : Gathered → Found → Gathered
  unfolding weigh member_exempt note_handler
  add_descendant g (pid, depth) = elim (get table.entries pid) [
    | none ↦ g
    | some entry ↦
        let links = note_handler (crashpad_handler_pid entry.args) depth g.handler_links in
        if member_exempt policy owner entry
        then record g { handler_links = links }
        else if elem pid g.seen
        then record g { handler_links = links }
        else record {
          members = g.members ++ weigh proc entry depth descendant ∷ [];
          seen = pid ∷ g.seen;
          handler_links = links;
        }
  ]

  unfoldable pub add_descendants : Gathered → List Found → Gathered
  unfolding add_descendant
  add_descendants g [] = g
  add_descendants g (f ∷ fs) = add_descendants (add_descendant g f) fs

  -- The second loop, for one handler that a member names.
  unfoldable pub add_handler : Gathered → Found → Gathered
  unfolding weigh member_exempt
  add_handler g (pid, depth) = if elem pid g.seen then g else elim (get table.entries pid) [
    | none ↦ g
    | some handler ↦
        if not (parent_comm_is_systemd proc handler.ppid)
        then g
        else if member_exempt policy owner handler
        then g
        else record g {
          members = g.members ++ weigh proc handler depth crashpad_handler ∷ [];
          seen = pid ∷ g.seen;
        }
  ]

  unfoldable pub add_handlers : Gathered → List Found → Gathered
  unfolding add_handler
  add_handlers g [] = g
  add_handlers g (f ∷ fs) = add_handlers (add_handler g f) fs

or_nothing : Option (List Found) → List Found
or_nothing none = []
or_nothing (some found) = found

sum_footprints : ℕ → List TreeMember → ℕ
sum_footprints acc [] = acc
sum_footprints acc (m ∷ ms) = sum_footprints (saturating_add acc m.footprint_mb) ms

first_footprint : List TreeMember → ℕ
first_footprint [] = 0
first_footprint (m ∷ ms) = m.footprint_mb

-- `descendants` always yields a list (`descendants_exact`).
unfoldable pub gather : ProcRoot → ProcTable → ReapPolicy → ProcEntry → List TreeMember
unfolding or_nothing
gather proc table policy r =
    let start : Gathered = record {
      members = weigh proc r 0 root ∷ [];
      seen = r.pid ∷ [];
      handler_links = [];
    } in
    let below = add_descendants proc table policy r start (or_nothing (descendants table r.pid)) in
    (add_handlers proc table policy r below below.handler_links).members

-- The clock and the boot time of the pass.
pub record PassTime : Type 0 where
  pub boot_time : ℕ
  pub now : ℕ
  pub ticks_per_sec : ℕ

unfoldable pub build_tree : ProcRoot → ProcTable → ProcEntry → ReapPolicy → PassTime → ForgottenTree
unfolding sum_footprints first_footprint gather
build_tree proc table r policy time =
    let members = gather proc table policy r in
    record {
      root_pid = r.pid;
      root_comm = r.comm;
      root_args = r.args;
      aggregate_footprint_mb = sum_footprints 0 members;
      root_footprint_mb = first_footprint members;
      member_count = length members;
      age_secs = elapsed_secs r.starttime time.ticks_per_sec time.boot_time time.now;
      cpu_seconds = r.cpu_ticks / max time.ticks_per_sec 1;
      why = [];
      members = members;
      root_starttime = r.starttime;
    }

-- The live weight of the root, and of all members.
unfoldable pub measure_tree_footprint : ProcRoot → ℤ → ℕ × ℕ → List TreeMember → ℕ × ℕ
measure_tree_footprint proc root_pid acc [] = acc
measure_tree_footprint proc root_pid (root_footprint, aggregate) (m ∷ ms) =
    let footprint =
      saturating_add (rss_mb_from_status (proc.dir m.pid)) (swap_mb_from_status (proc.dir m.pid)) in
    measure_tree_footprint proc root_pid
      (
        if beq_ℤ m.pid root_pid then footprint else root_footprint,
        saturating_add aggregate footprint,
      )
      ms

-- The gates of a root.
unfoldable pub orphan_root : ProcRoot → ReapPolicy → PassTime → ℤ → ProcEntry → Bool
orphan_root proc policy time self_pid e =
    if leb_ℤ e.pid (pos 1) || beq_ℤ e.pid self_pid
    then false
    else if not (parent_comm_is_systemd proc e.ppid)
    then false
    else if not (beq_ℤ e.tty_nr (pos 0))
    then false
    else if not (nat_beq e.state 83)
    then false
    else if not (browser_decides_by_veto e.args) && matches_exempt e.exe policy.exempt_names
    then false
    else not (
        ltb (elapsed_secs e.starttime time.ticks_per_sec time.boot_time time.now)
          forgotten_min_tree_age_secs)

-- `table.entries.values()`, by the keys.
unfoldable pub orphan_roots : ProcRoot → ReapPolicy → PassTime → ℤ → ProcTable → List ℤ → List ℤ
orphan_roots proc policy time self_pid table [] = []
orphan_roots proc policy time self_pid table (k ∷ ks) =
    let rest = orphan_roots proc policy time self_pid table ks in
    elim (get table.entries k) [
      | none ↦ rest
      | some e ↦ if orphan_root proc policy time self_pid e then e.pid ∷ rest else rest
    ]

unfoldable pub heavy : ℕ → ℕ → ForgottenTree → Bool
heavy per_process_floor_mb tree_floor_mb t =
    leb tree_floor_mb t.aggregate_footprint_mb || leb per_process_floor_mb t.root_footprint_mb

unfoldable pub spare : ForgottenTree → Reason → SparedTree
spare t reason = record {
  root_pid = t.root_pid;
  root_comm = t.root_comm;
  aggregate_footprint_mb = t.aggregate_footprint_mb;
  member_count = t.member_count;
  reason = reason;
}

pub record Scanning : Type 0 where
  pub claimed : List ℤ
  pub out : ForgottenTreeScan

abbrev member_pids : List TreeMember → List ℤ
member_pids = map (λ m. m.pid)

-- What becomes of a tree that is heavy enough, by its use.
unfoldable pub by_usage :
    ReapPolicy → ForgottenTreeScan → ForgottenTree → Text → Usage → ForgottenTreeScan
by_usage policy out tree why driven = record out {
  protected = out.protected ++ spare tree client_connected ∷ [];
}
by_usage policy out tree why undriven = record out {
  candidates = out.candidates ++ record tree { why = why } ∷ [];
}
by_usage policy out tree why unknown =
    if ltb policy.max_cpu_seconds tree.cpu_seconds
    then record out { protected = out.protected ++ spare tree (busy tree.cpu_seconds) ∷ [] }
    else record out { candidates = out.candidates ++ record tree { why = why } ∷ [] }

pub record Floors : Type 0 where
  pub per_process_floor_mb : ℕ
  pub tree_floor_mb : ℕ

module _ (proc : ProcRoot) (table : ProcTable) (policy : ReapPolicy) (time : PassTime)
    (floors : Floors) where
  open floors use {per_process_floor_mb, tree_floor_mb}

  -- The weighing of one root, by the verdict on its command line.
  unfoldable pub weigh_root : Scanning → ProcEntry → DesktopVerdict → Scanning
  unfolding by_usage heavy
  weigh_root s r not_a_browser = s
  weigh_root s r (desktop reason) =
      let tree = build_tree proc table r policy time in
      record {
        claimed = member_pids tree.members ++ s.claimed;
        out =
            if heavy per_process_floor_mb tree_floor_mb tree
            then record s.out { vetoed = s.out.vetoed ++ spare tree (veto reason) ∷ [] }
            else s.out;
      }
  weigh_root s r (test why) =
      let tree = build_tree proc table r policy time in
      record {
        claimed = member_pids tree.members ++ s.claimed;
        out =
            if not (heavy per_process_floor_mb tree_floor_mb tree)
            then s.out
            else by_usage policy s.out tree why (tree_usage proc tree.root_args);
      }

  unfoldable pub scan_root : Scanning → ℤ → Scanning
  unfolding weigh_root
  scan_root s root_pid = if elem root_pid s.claimed then s else elim (get table.entries root_pid) [
    | none ↦ s
    | some r ↦ weigh_root s r (classify_desktop_session r.args)
  ]

  unfoldable pub scan_roots : Scanning → List ℤ → Scanning
  unfolding scan_root
  scan_roots s [] = s
  scan_roots s (p ∷ ps) = scan_roots (scan_root s p) ps

abbrev heavier : ForgottenTree → ForgottenTree → Bool
heavier a b = leb b.aggregate_footprint_mb a.aggregate_footprint_mb

abbrev heavier_spared : SparedTree → SparedTree → Bool
heavier_spared a b = leb b.aggregate_footprint_mb a.aggregate_footprint_mb

unfoldable pub scan_forgotten_orphan_trees :
    ProcRoot → ℤ → ReapPolicy → PassTime → Floors → ForgottenTreeScan
unfolding orphan_roots scan_roots
scan_forgotten_orphan_trees proc self_pid policy time floors =
    let table = read_proc_table proc in
    let roots = sort_by leb_ℤ (orphan_roots proc policy time self_pid table (keys table.entries)) in
    let empty : ForgottenTreeScan = record { candidates = []; vetoed = []; protected = [] } in
    let out =
      (scan_roots proc table policy time floors (record { claimed = []; out = empty }) roots).out in
    record {
      candidates = sort_by heavier out.candidates;
      vetoed = sort_by heavier_spared out.vetoed;
      protected = sort_by heavier_spared out.protected;
    }
