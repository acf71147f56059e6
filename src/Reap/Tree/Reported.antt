-- ===== src/Reap/Tree/Reported.antt =====
-- forgotten.rs, the scan: no heavy tree is passed over in silence.
use dracon_system_disk_proce.Common.{
  ◌≡◌, refl, ◌≢◌, ◌⊎◌, inl, inr, Bool, true, false, some, List, [], ◌∷◌, ◌++◌, elem, Bool-cases,
  Option-cases, elem-append, ◌==◌, map, sym, subst,
}
use dracon_system_disk_proce.Common.Signed.{ℤ, int_eq, beq_ℤ_iff, leb_ℤ}
use dracon_system_disk_proce.Common.Table.{get, keys, elem-keys}
use dracon_system_disk_proce.Common.Sort.{sort_by, Mem-sort_by}
use mathlib.Core.List.{Memᴰ}
use mathlib.Core.List.Memᴰ
use dracon_system_disk_proce.Reap.Proc.{ProcRoot, ReapPolicy}
use dracon_system_disk_proce.Reap.Table.{ProcEntry, ProcTable, read_proc_table}
use dracon_system_disk_proce.Reap.Browser.{
  DesktopVerdict, test, desktop, not_a_browser, classify_desktop_session, tree_usage,
}
use dracon_system_disk_proce.Reap.Tree.{
  ForgottenTree, ForgottenTreeScan, Scanning, TreeMember, PassTime, Floors, build_tree, heavy,
  heavier, heavier_spared, weigh_root, scan_root, scan_roots, orphan_roots, orphan_root,
  scan_forgotten_orphan_trees, spare,
}
use dracon_system_disk_proce.Reap.Table.Keyed.{read_proc_table-Keyed}
use dracon_system_disk_proce.Reap.Tree.Root.{gather-root}
use dracon_system_disk_proce.Reap.Tree.Rows.{
  Row, Grows, Row-Grows, Grows-refl, last, by_usage-Row, by_usage-Grows,
}

module _ (proc : ProcRoot) (table : ProcTable) (policy : ReapPolicy) (time : PassTime)
    (floors : Floors) where
  abbrev tree_of : ProcEntry → ForgottenTree
  tree_of r = build_tree proc table r policy time

  abbrev too_heavy : ProcEntry → Bool
  too_heavy r = heavy floors.per_process_floor_mb floors.tree_floor_mb (tree_of r)

  -- A process stands in a weighed tree, and that tree is in the report if it is heavy.
  abbrev pub Accounted : ForgottenTreeScan → ℤ → Type 0
  Accounted out p =
      (q : ℤ) × (r : ProcEntry) × (get table.entries q ≡ some r)
      × (elem p (map (λ (m : TreeMember). m.pid) (tree_of r).members) ≡ true)
      × (too_heavy r ≡ true → Row out r.pid)

  Accounted-Grows : {a b : ForgottenTreeScan} (p : ℤ) → Grows a b → Accounted a p → Accounted b p
  Accounted-Grows p g (q, r, e, m, h) = (q, r, e, m, λ k. Row-Grows r.pid g (h k))

  weigh_root-Grows :
      (s : Scanning) (r : ProcEntry) (v : DesktopVerdict)
      → Grows s.out (weigh_root proc table policy time floors s r v).out
  unfolding weigh_root
  weigh_root-Grows s r not_a_browser = Grows-refl s.out
  weigh_root-Grows s r (desktop reason) = elim (Bool-cases (too_heavy r)) [
    | inl e ↦ rw e (record {
      candidates = λ c m. m;
      vetoed = λ v m. Memᴰ.append_left _ m;
      protected = λ v m. m;
    })
    | inr e ↦ rw e (Grows-refl s.out)
  ]
  weigh_root-Grows s r (test why) = elim (Bool-cases (too_heavy r)) [
    | inl e ↦
        rw e (by_usage-Grows policy s.out (tree_of r) why (tree_usage proc (tree_of r).root_args))
    | inr e ↦ rw e (Grows-refl s.out)
  ]

  weigh_root-Row :
      (s : Scanning) (r : ProcEntry) (v : DesktopVerdict)
      → v ≢ not_a_browser
      → too_heavy r ≡ true
      → Row (weigh_root proc table policy time floors s r v).out r.pid
  unfolding weigh_root spare build_tree
  weigh_root-Row s r not_a_browser n e = absurd (n refl)
  weigh_root-Row s r (desktop reason) n e = rw e (inr (inl (_, last s.out.vetoed _, refl)))
  weigh_root-Row s r (test why) n e =
      rw e (by_usage-Row policy s.out (tree_of r) why (tree_usage proc (tree_of r).root_args))

  abbrev AllAccounted : Scanning → Type 0
  AllAccounted s = (p : ℤ) → elem p s.claimed ≡ true → Accounted s.out p

  abbrev pids_of : ProcEntry → List ℤ
  pids_of r = map (λ (m : TreeMember). m.pid) (tree_of r).members

  weigh_root-claimed :
      (s : Scanning) (r : ProcEntry) (v : DesktopVerdict)
      → v ≢ not_a_browser
      → (weigh_root proc table policy time floors s r v).claimed ≡ pids_of r ++ s.claimed
  unfolding weigh_root
  weigh_root-claimed s r not_a_browser n = absurd (n refl)
  weigh_root-claimed s r (desktop reason) n = refl
  weigh_root-claimed s r (test why) n = refl

  judged : (v : DesktopVerdict) → (v ≡ not_a_browser) ⊎ (v ≢ not_a_browser)
  judged not_a_browser = inl refl
  judged (desktop reason) = inr (λ e. cc)
  judged (test why) = inr (λ e. cc)

  weigh_root-accounts :
      (s : Scanning) (q : ℤ) (r : ProcEntry) (v : DesktopVerdict)
      → get table.entries q ≡ some r
      → AllAccounted s
      → AllAccounted (weigh_root proc table policy time floors s r v)
  unfolding weigh_root
  weigh_root-accounts s q r v e a = elim (judged v) [
    | inl n ↦ rw n a
    | inr n ↦ λ p c.
        let c' = rw (weigh_root-claimed s r v n, elem-append p (pids_of r) s.claimed) at c in
        elim (Bool-cases (elem p (pids_of r))) [
          | inl m ↦ (q, r, e, m, weigh_root-Row s r v n)
          | inr m ↦ Accounted-Grows p (weigh_root-Grows s r v) (a p (rw m at c'))
        ]
  ]

  -- What one root adds to the scan.
  scan_root-accounts :
      (s : Scanning) (q : ℤ)
      → AllAccounted s
      → AllAccounted (scan_root proc table policy time floors s q)
  unfolding scan_root
  scan_root-accounts s q a = elim (Bool-cases (elem q s.claimed)) [
    | inl e ↦ rw e a
    | inr e ↦ elim (Option-cases (get table.entries q)) [
      | inl n ↦ rw (e, n) a
      | inr (r, g) ↦ rw (e, g) (weigh_root-accounts s q r (classify_desktop_session r.args) g a)
    ]
  ]

  scan_root-Grows :
      (s : Scanning) (q : ℤ) → Grows s.out (scan_root proc table policy time floors s q).out
  unfolding scan_root
  scan_root-Grows s q = elim (Bool-cases (elem q s.claimed)) [
    | inl e ↦ rw e (Grows-refl s.out)
    | inr e ↦ elim (Option-cases (get table.entries q)) [
      | inl n ↦ rw (e, n) (Grows-refl s.out)
      | inr (r, g) ↦ rw (e, g) (weigh_root-Grows s r (classify_desktop_session r.args))
    ]
  ]

  Grows-trans : {a b c : ForgottenTreeScan} → Grows a b → Grows b c → Grows a c
  Grows-trans g h = record {
    candidates = λ c m. h.candidates c (g.candidates c m);
    vetoed = λ v m. h.vetoed v (g.vetoed v m);
    protected = λ v m. h.protected v (g.protected v m);
  }

  scan_roots-Grows :
      (s : Scanning) (ps : List ℤ) → Grows s.out (scan_roots proc table policy time floors s ps).out
  unfolding scan_roots
  scan_roots-Grows s [] = Grows-refl s.out
  scan_roots-Grows s (p ∷ ps) =
      Grows-trans (scan_root-Grows s p)
        (scan_roots-Grows (scan_root proc table policy time floors s p) ps)

  scan_root-own :
      (s : Scanning) (q : ℤ) (r : ProcEntry)
      → AllAccounted s
      → get table.entries q ≡ some r
      → r.pid ≡ q
      → classify_desktop_session r.args ≢ not_a_browser
      → Accounted (scan_root proc table policy time floors s q).out q
  unfolding scan_root build_tree
  scan_root-own s q r a g k n = elim (Bool-cases (elem q s.claimed)) [
    | inl e ↦ rw e (a q e)
    | inr e ↦
        rw (e, g)
          (
            q,
            r,
            g,
            subst (λ x. elem x (pids_of r) ≡ true) k (gather-root proc table policy time r),
            weigh_root-Row s r (classify_desktop_session r.args) n,
          )
  ]

  scan_roots-own :
      (s : Scanning) (ps : List ℤ) (q : ℤ) (r : ProcEntry)
      → AllAccounted s
      → Memᴰ q ps
      → get table.entries q ≡ some r
      → r.pid ≡ q
      → classify_desktop_session r.args ≢ not_a_browser
      → Accounted (scan_roots proc table policy time floors s ps).out q
  unfolding scan_roots
  scan_roots-own s [] q r a m g k n = elim m [ ]
  scan_roots-own s (p ∷ ps) q r a (Memᴰ.head e) g k n =
      let s' = scan_root proc table policy time floors s p in
      Accounted-Grows q (scan_roots-Grows s' ps) (
        subst (λ x. Accounted (scan_root proc table policy time floors s x).out q) e
          (scan_root-own s q r a g k n))
  scan_roots-own s (p ∷ ps) q r a (Memᴰ.tail m) g k n =
      scan_roots-own (scan_root proc table policy time floors s p) ps q r (scan_root-accounts s p a)
        m g k n

  roots-Mem :
      (self_pid q : ℤ) (r : ProcEntry) (ks : List ℤ)
      → elem q ks ≡ true
      → get table.entries q ≡ some r
      → r.pid ≡ q
      → orphan_root proc policy time self_pid r ≡ true
      → Memᴰ q (orphan_roots proc policy time self_pid table ks)
  unfolding orphan_roots elem
  roots-Mem self_pid q r [] m g k o = absurd (cc)
  roots-Mem self_pid q r (j ∷ ks) m g k o = elim (Bool-cases (j == q)) [
    | inl e ↦ let same = (beq_ℤ_iff j q).0 e in rw (same, g, o, orphan_roots) (Memᴰ.head (sym k))
    | inr e ↦
        let later = roots-Mem self_pid q r ks (rw e at m) g k o in
        elim (Option-cases (get table.entries j)) [
          | inl x ↦ rw (x, orphan_roots) later
          | inr (f, x) ↦ elim (Bool-cases (orphan_root proc policy time self_pid f)) [
            | inl y ↦ rw (x, y, orphan_roots) (Memᴰ.tail later)
            | inr y ↦ rw (x, y, orphan_roots) later
          ]
        ]
  ]

Row-sorted :
    (out : ForgottenTreeScan) (pid : ℤ)
    → Row out pid
    → Row
        (record {
          candidates = sort_by heavier out.candidates;
          vetoed = sort_by heavier_spared out.vetoed;
          protected = sort_by heavier_spared out.protected;
        })
        pid
Row-sorted out pid (inl (c, m, e)) = inl (c, Mem-sort_by heavier c out.candidates m, e)
Row-sorted out pid (inr (inl (v, m, e))) =
    inr (inl (v, Mem-sort_by heavier_spared v out.vetoed m, e))
Row-sorted out pid (inr (inr (v, m, e))) =
    inr (inr (v, Mem-sort_by heavier_spared v out.protected m, e))

-- No heavy test tree or desktop session is passed over in silence: every process that passes the
-- gates of an orphan root (owner dead, no terminal, asleep, not exempt by name, old enough) and is a
-- browser stands in the tree of some process of the table, and if that tree is heavy by one of the
-- two floors the report has a row for it, as a candidate, as vetoed or as protected.
pub scan_reports_heavy :
    (proc : ProcRoot) (self_pid : ℤ) (policy : ReapPolicy) (time : PassTime) (floors : Floors)
    (p : ℤ) (r : ProcEntry)
    → get (read_proc_table proc).entries p ≡ some r
    → orphan_root proc policy time self_pid r ≡ true
    → classify_desktop_session r.args ≢ not_a_browser
    → Accounted proc
        (read_proc_table proc)
        policy
        time
        floors
        (scan_forgotten_orphan_trees proc self_pid policy time floors)
        p
unfolding scan_forgotten_orphan_trees elem
scan_reports_heavy proc self_pid policy time floors p r g o n =
    let table = read_proc_table proc in
    let k = read_proc_table-Keyed proc p r g in
    let in_roots =
      Mem-sort_by leb_ℤ p (orphan_roots proc policy time self_pid table (keys table.entries)) (
        roots-Mem proc table policy time floors self_pid p r (keys table.entries)
          (elem-keys table.entries p r g) g k o) in
    let (q, r', g', m, h) =
      scan_roots-own proc table policy time floors
        (record { claimed = []; out = record { candidates = []; vetoed = []; protected = [] } }) _ p
        r (λ x c. absurd (let clash : false ≡ true = c in cc)) in_roots g k n in
    (q, r', g', m, λ big. Row-sorted _ r'.pid (h big))
