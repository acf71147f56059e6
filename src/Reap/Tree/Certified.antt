-- ===== src/Reap/Tree/Certified.antt =====
-- forgotten.rs, the scan: what a candidate for the reaper is known to be.
use dracon_system_disk_proce.Common.{
  ℕ, ◌≤◌, ◌≡◌, refl, ◌⊎◌, inl, inr, true, some, List, [], ◌∷◌, elem, arith, Bool-cases,
  Option-cases, ltb, sym, ◌∙◌, subst,
}
use dracon_system_disk_proce.Common.Signed.{ℤ, int_eq, leb_ℤ}
use dracon_system_disk_proce.Common.Table.{get, keys}
use dracon_system_disk_proce.Common.Text.{Text}
use dracon_system_disk_proce.Common.Sort.{sort_by-Mem}
use mathlib.Core.List.{Memᴰ}
use mathlib.Core.List.Memᴰ
use dracon_system_disk_proce.Reap.Proc.{ProcRoot, ReapPolicy}
use dracon_system_disk_proce.Reap.Table.{ProcEntry, ProcTable, read_proc_table}
use dracon_system_disk_proce.Reap.Browser.{
  DesktopVerdict, test, desktop, not_a_browser, Usage, driven, undriven, unknown,
  classify_desktop_session, tree_usage,
}
use dracon_system_disk_proce.Reap.Tree.{
  ForgottenTree, ForgottenTreeScan, Scanning, PassTime, Floors, by_usage, build_tree, heavy,
  heavier, weigh_root, scan_root, scan_roots, orphan_roots, orphan_root,
  scan_forgotten_orphan_trees,
}
use dracon_system_disk_proce.Reap.Table.Keyed.{Keyed, read_proc_table-Keyed}

-- No client drives it, and where there is no port to ask it has used little CPU.
abbrev pub Idle : ReapPolicy → ℕ → Usage → Type 0
Idle policy cpu_seconds driven = ⊥
Idle policy cpu_seconds undriven = Unit
Idle policy cpu_seconds unknown = cpu_seconds ≤ policy.max_cpu_seconds

by_usage-candidates :
    (policy : ReapPolicy) (out : ForgottenTreeScan) (tree c : ForgottenTree) (why : Text)
    (u : Usage)
    → Memᴰ c (by_usage policy out tree why u).candidates
    → Memᴰ c out.candidates ⊎ ((c ≡ record tree { why = why }) × Idle policy tree.cpu_seconds u)
unfolding by_usage
by_usage-candidates policy out tree c why driven m = inl m
by_usage-candidates policy out tree c why undriven m = elim (Memᴰ.append_cases out.candidates m) [
  | inl k ↦ inl k
  | inr k ↦ inr (Memᴰ.eq_of_singleton k, tt)
]
by_usage-candidates policy out tree c why unknown m =
    elim (Bool-cases (ltb policy.max_cpu_seconds tree.cpu_seconds)) [
      | inl e ↦ inl (rw e at m)
      | inr e ↦ elim (Memᴰ.append_cases out.candidates (rw e at m)) [
        | inl k ↦ inl k
        | inr k ↦ inr (Memᴰ.eq_of_singleton k, ground arith)
      ]
    ]

module _ (proc : ProcRoot) (table : ProcTable) (policy : ReapPolicy) (time : PassTime)
    (floors : Floors) (self_pid : ℤ) where
  -- What holds of a candidate: it is the weighed tree of a process that passes the gates of an orphan
  -- root and whose command line is a test job, it is heavy, and nobody is known to use it.
  pub record Certified (c : ForgottenTree) : Type 0 where
    pub root : ProcEntry
    pub listed : get table.entries c.root_pid ≡ some root
    pub orphan : orphan_root proc policy time self_pid root ≡ true
    pub test_job : classify_desktop_session root.args ≡ test c.why
    pub tree : c ≡ record (build_tree proc table root policy time) { why = c.why }
    pub weight : heavy floors.per_process_floor_mb floors.tree_floor_mb c ≡ true
    pub idle : Idle policy c.cpu_seconds (tree_usage proc c.root_args)

  abbrev AllCertified : Scanning → Type 0
  AllCertified s = (c : ForgottenTree) → Memᴰ c s.out.candidates → Certified c

  certify :
      (r : ProcEntry) (why : Text)
      → get table.entries r.pid ≡ some r
      → orphan_root proc policy time self_pid r ≡ true
      → classify_desktop_session r.args ≡ test why
      → (let t = build_tree proc table r policy time in
          heavy floors.per_process_floor_mb floors.tree_floor_mb t ≡ true
          → Idle policy t.cpu_seconds (tree_usage proc t.root_args)
          → Certified (record t { why = why }))
  unfolding heavy build_tree
  certify r why g o v e i = record {
    root = r;
    listed = g;
    orphan = o;
    test_job = v;
    tree = refl;
    weight = e;
    idle = i;
  }

  weigh_root-Certified :
      (s : Scanning) (r : ProcEntry) (v : DesktopVerdict)
      → get table.entries r.pid ≡ some r
      → orphan_root proc policy time self_pid r ≡ true
      → classify_desktop_session r.args ≡ v
      → AllCertified s
      → AllCertified (weigh_root proc table policy time floors s r v)
  unfolding weigh_root
  weigh_root-Certified s r not_a_browser g o v a = a
  weigh_root-Certified s r (desktop reason) g o v a = λ c m.
      elim (Bool-cases (
        heavy floors.per_process_floor_mb floors.tree_floor_mb
          (build_tree proc table r policy time))) [
            | inl e ↦ a c (rw e at m)
            | inr e ↦ a c (rw e at m)
          ]
  weigh_root-Certified s r (test why) g o v a = λ c m.
      let t = build_tree proc table r policy time in
      elim (Bool-cases (heavy floors.per_process_floor_mb floors.tree_floor_mb t)) [
        | inr e ↦ a c (rw e at m)
        | inl e ↦
            elim (by_usage-candidates policy s.out t c why (tree_usage proc t.root_args)
              (rw e at m)) [
                | inl k ↦ a c k
                | inr (k, i) ↦ subst Certified (sym k) (certify r why g o v e i)
              ]
      ]

  scan_root-Certified :
      (s : Scanning) (q : ℤ) (r : ProcEntry)
      → get table.entries q ≡ some r
      → r.pid ≡ q
      → orphan_root proc policy time self_pid r ≡ true
      → AllCertified s
      → AllCertified (scan_root proc table policy time floors s q)
  unfolding scan_root
  scan_root-Certified s q r g k o a = elim (Bool-cases (elem q s.claimed)) [
    | inl e ↦ rw e a
    | inr e ↦
        rw (e, g)
          (weigh_root-Certified s r (classify_desktop_session r.args)
            (subst (λ p. get table.entries p ≡ some r) (sym k) g) o refl a)
  ]

  -- A root of the list is an entry of the table that passes the gates.
  abbrev IsRoot : ℤ → Type 0
  IsRoot q =
      (r : ProcEntry) × (get table.entries q ≡ some r)
      × (r.pid ≡ q)
      × (orphan_root proc policy time self_pid r ≡ true)

  roots-IsRoot :
      Keyed table
      → (q : ℤ) (ks : List ℤ) → Memᴰ q (orphan_roots proc policy time self_pid table ks)
      → IsRoot q
  unfolding orphan_roots
  roots-IsRoot keyed q [] m = elim m [ ]
  roots-IsRoot keyed q (j ∷ ks) m = elim (Option-cases (get table.entries j)) [
    | inl x ↦ roots-IsRoot keyed q ks (rw (x, orphan_roots) at m)
    | inr (f, x) ↦ elim (Bool-cases (orphan_root proc policy time self_pid f)) [
      | inr y ↦ roots-IsRoot keyed q ks (rw (x, y, orphan_roots) at m)
      | inl y ↦ elim (Memᴰ.cases_cons (rw (x, y, orphan_roots) at m)) [
        | inl e ↦
            let k = keyed j f x in
            (f, subst (λ p. get table.entries p ≡ some f) (sym (e ∙ k)) x, sym e, y)
        | inr later ↦ roots-IsRoot keyed q ks later
      ]
    ]
  ]

  scan_roots-Certified :
      (s : Scanning) (ps : List ℤ)
      → ((q : ℤ) → Memᴰ q ps → IsRoot q)
      → AllCertified s
      → AllCertified (scan_roots proc table policy time floors s ps)
  unfolding scan_roots
  scan_roots-Certified s [] h a = a
  scan_roots-Certified s (p ∷ ps) h a =
      let (r, g, k, o) = h p (Memᴰ.head refl) in
      scan_roots-Certified (scan_root proc table policy time floors s p) ps
        (λ q m. h q (Memᴰ.tail m)) (scan_root-Certified s p r g k o a)

-- Every candidate of a scan is certified: it is the weighed tree of a process of the table whose owner
-- is dead, that has no terminal, sleeps, is not exempt and is old enough, whose command line is a test
-- job, whose tree is heavy by one of the two floors, that no client is connected to, and that has used
-- little CPU where there is no port to ask.
pub scan-Certified :
    (proc : ProcRoot) (self_pid : ℤ) (policy : ReapPolicy) (time : PassTime) (floors : Floors)
    (c : ForgottenTree)
    → Memᴰ c (scan_forgotten_orphan_trees proc self_pid policy time floors).candidates
    → Certified proc (read_proc_table proc) policy time floors self_pid c
unfolding scan_forgotten_orphan_trees
scan-Certified proc self_pid policy time floors c m =
    let table = read_proc_table proc in
    scan_roots-Certified proc table policy time floors self_pid
      (record { claimed = []; out = record { candidates = []; vetoed = []; protected = [] } }) _
      (λ q k.
        roots-IsRoot proc table policy time floors self_pid (read_proc_table-Keyed proc) q
          (keys table.entries) (sort_by-Mem leb_ℤ q _ k))
      (λ x k. elim k [ ]) c (sort_by-Mem heavier c _ m)
