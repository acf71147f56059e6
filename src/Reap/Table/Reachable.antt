-- ===== src/Reap/Table/Reachable.antt =====
-- reap.rs, `ProcTable::descendants`: the walk ends, and finds the processes below the root.
use dracon_system_disk_proce.Common.{
  ℕ, zero, suc, ◌+◌, ◌≤◌, ◌≡◌, refl, true, false, ◌||◌, some, List, [], ◌∷◌, ◌++◌, elem, length,
  arith, All, Bool-cases, length-append, elem-append, inl, inr, ◌==◌, sym, All-append, ap,
  length-keep_if-le, ◌⊎◌,
}
use dracon_system_disk_proce.Common.Signed.{ℤ, int_eq, beq_ℤ_iff}
use dracon_system_disk_proce.Reap.Table.{
  ProcTable, Found, pids, children_of, scan_children, descend, all_children, descendants, prepend,
}
use dracon_system_disk_proce.Reap.Table.Scanned.{
  at_root, child, Below, Fresh, scan-seen, scan-Fresh, Fresh-append, elem-push, scan-covers,
  scan-Below, unseen, scan-unseen, child-elem,
}

-- What the loop leaves: the walk has an end, it finds each process once, below the root, and the
-- children of what was waiting and of what it found are all seen.
record Walked (t : ProcTable) (root : ℤ) (seen : List ℤ) (queue out : List Found) : Type 0 where
  fresh : Fresh seen out
  below : All (λ (f : Found). Below t root f.0 f.1) out
  waiting :
      (p c : ℤ)
      → elem p (pids queue) ≡ true
      → elem c (children_of t p) ≡ true
      → (elem c (pids out) || elem c seen) ≡ true
  closed :
      (p c : ℤ)
      → elem p (pids out) ≡ true
      → elem c (children_of t p) ≡ true
      → (elem c (pids out) || elem c seen) ≡ true

pids-append : (xs ys : List Found) → pids (xs ++ ys) ≡ pids xs ++ pids ys
unfolding pids
pids-append [] ys = refl
pids-append ((p, d) ∷ xs) ys = ap (λ r. p ∷ r) (pids-append xs ys)

elem-pids-append :
    (x : ℤ) (xs ys : List Found) → elem x (pids (xs ++ ys)) ≡ (elem x (pids xs) || elem x (pids ys))
elem-pids-append x xs ys = rw (pids-append xs ys) (elem-append x (pids xs) (pids ys))

module _ (t : ProcTable) (root p : ℤ) (d : ℕ) (seen : List ℤ) (queue later : List Found)
    (here : Below t root p d) where
  found : List Found
  found = (scan_children seen d (children_of t p)).0

  all_seen : List ℤ
  all_seen = (scan_children seen d (children_of t p)).1

  -- What the rest of the loop has seen in the end, the whole loop has seen.
  reseen :
      (x : ℤ)
      → (elem x (pids later) || elem x all_seen) ≡ true
      → (elem x (pids (found ++ later)) || elem x seen) ≡ true
  unfolding found all_seen
  reseen x h =
      let e = elem-push x seen found in
      let s = scan-seen seen d (children_of t p) in
      let h' = rw (s, e) at h in rw (elem-pids-append x found later) (ground arith)

  waiting_seen :
      Walked t root all_seen (queue ++ found) later
      → (q c : ℤ) → elem q (pids ((p, d) ∷ queue)) ≡ true
      → elem c (children_of t q) ≡ true
      → (elem c (pids later) || elem c all_seen) ≡ true
  unfolding found all_seen pids elem
  waiting_seen w q c h k = elim (Bool-cases (p == q)) [
    | inl e ↦
        let of_p : elem c (children_of t p) ≡ true = rw ((beq_ℤ_iff p q).0 e) k in
        rw (scan-covers seen d (children_of t p) c (rw of_p refl)) (ground arith)
    | inr e ↦
        w.waiting q c
          (rw
            (
              elem-pids-append q queue found,
              (let in_queue : elem q (pids queue) ≡ true = rw e at h in in_queue),
            )
            refl)
          k
  ]

  closed_seen :
      Walked t root all_seen (queue ++ found) later
      → (q c : ℤ) → elem q (pids (found ++ later)) ≡ true
      → elem c (children_of t q) ≡ true
      → (elem c (pids later) || elem c all_seen) ≡ true
  unfolding found all_seen
  closed_seen w q c h k = elim (Bool-cases (elem q (pids found))) [
    | inl e ↦ w.waiting q c (rw (elem-pids-append q queue found, e) (ground arith)) k
    | inr e ↦ w.closed q c (rw (elem-pids-append q found later, e) at h) k
  ]

  walk_step :
      Walked t root all_seen (queue ++ found) later
      → Walked t root seen ((p, d) ∷ queue) (found ++ later)
  unfolding found all_seen
  walk_step w = record {
    fresh =
        Fresh-append seen found later (scan-Fresh seen d (children_of t p))
          (rw (← scan-seen seen d (children_of t p)) w.fresh);
    below =
        All-append _ found later (scan-Below t root p d here seen (children_of t p) (λ x h. h))
          w.below;
    waiting = λ q c h k. reseen c (waiting_seen w q c h k);
    closed = λ q c h k. reseen c (closed_seen w q c h k);
  }

all-Walked : (t : ProcTable) (root : ℤ) (seen : List ℤ) → Walked t root seen [] []
unfolding pids elem
all-Walked t root seen = record {
  fresh = tt;
  below = tt;
  waiting = λ p c e k. absurd (let clash : false ≡ true = e in cc);
  closed = λ p c e k. absurd (let clash : false ≡ true = e in cc);
}

descend_total :
    (t : ProcTable) (root : ℤ) (fuel : ℕ) (seen : List ℤ) (queue : List Found)
    → All (λ (f : Found). Below t root f.0 f.1) queue
    → length queue + unseen seen (all_children t.children) ≤ fuel
    → (out : List Found) × (descend t fuel seen queue ≡ some out) × Walked t root seen queue out
unfolding descend found all_seen
descend_total t root fuel seen [] b h = ([], refl, all-Walked t root seen)
descend_total t root zero seen (q ∷ queue) b h = absurd (omega arith)
descend_total t root (suc fuel) seen ((p, d) ∷ queue) b h =
    let scanned = scan_children seen d (children_of t p) in
    let (later, e, w) =
      descend_total t root fuel scanned.1 (queue ++ scanned.0)
        (All-append _ queue scanned.0 b.1
          (scan-Below t root p d b.0 seen (children_of t p) (λ x k. k)))
        (omega (
          arith,
          length-append queue scanned.0,
          scan-unseen (all_children t.children) seen d (children_of t p) (child-elem t p),
        )) in
    (scanned.0 ++ later, ap (prepend scanned.0) e, walk_step t root p d seen queue later b.0 w)

unseen-le-length : (seen every : List ℤ) → unseen seen every ≤ length every
unfolding unseen
unseen-le-length seen every = length-keep_if-le _ every

reached :
    (t : ProcTable) (root : ℤ) (out : List Found)
    → Walked t root (root ∷ []) ((root, 0) ∷ []) out
    → {p : ℤ} {d : ℕ} → Below t root p d
    → (elem p (pids out) || elem p (root ∷ [])) ≡ true
unfolding elem pids
reached t root out w at_root = rw ((beq_ℤ_iff root root).1 refl) (ground arith)
reached t root out w (child {p = q} {c = c} b k e) = elim (Bool-cases (elem q (pids out))) [
  | inl found ↦ w.closed q c found k
  | inr other ↦ w.waiting q c (rw other at (reached t root out w b)) k
]

-- The walk down from a process ends, whatever the table, cycles and duplicated rows included: it
-- yields some list, in which no process stands twice and the root not at all, each process of it is
-- below the root at the depth it is given, and every process below the root is in it or is the root.
pub descendants_exact :
    (t : ProcTable) (root : ℤ)
    → (out : List Found) × (descendants t root ≡ some out)
      × Fresh (root ∷ []) out
      × All (λ (f : Found). Below t root f.0 f.1) out
      × ((p : ℤ) (d : ℕ) → Below t root p d → (elem p (pids out) ≡ true) ⊎ (p ≡ root))
unfolding descendants elem
descendants_exact t root =
    let (out, e, w) =
      descend_total t root (suc (length (all_children t.children))) (root ∷ []) ((root, 0) ∷ [])
        (at_root, tt) (omega (arith, unseen-le-length (root ∷ []) (all_children t.children))) in
    (
      out,
      e,
      w.fresh,
      w.below,
      λ p d b. elim (Bool-cases (elem p (pids out))) [
        | inl found ↦ inl found
        | inr other ↦ inr (sym ((beq_ℤ_iff root p).0 (ground (arith, reached t root out w b))))
      ],
    )
