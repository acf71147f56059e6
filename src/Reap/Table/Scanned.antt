-- ===== src/Reap/Table/Scanned.antt =====
-- reap.rs, `descendants`: what one round of the search adds.
use dracon_system_disk_proce.Common.{
  ℕ, ◌+◌, ◌≤◌, ◌<◌, ◌≡◌, refl, true, false, not, ◌||◌, some, List, [], ◌∷◌, ◌++◌, elem, length,
  arith, All, keep_if, Bool-cases, elem-append, Option-cases, inl, inr, some_inj, ◌==◌,
}
use dracon_system_disk_proce.Common.Signed.{ℤ, int_eq, beq_ℤ_iff}
use dracon_system_disk_proce.Common.Table.{get}
use dracon_system_disk_proce.Reap.Table.{
  ProcTable, Found, pids, children_of, scan_children, all_children,
}

-- The processes at a distance below the root.
pub data Below (t : ProcTable) (root : ℤ) : ℤ → ℕ → Type 0 where
  at_root : Below t root root 0
  child :
      {p c : ℤ} {d e : ℕ}
      → Below t root p d
      → elem c (children_of t p) ≡ true
      → e ≡ d + 1
      → Below t root c e

-- No pid of the list was seen before or stands in it twice.
abbrev pub Fresh : List ℤ → List Found → Type 0
Fresh seen [] = Unit
Fresh seen ((p, d) ∷ r) = (elem p seen ≡ false) × Fresh (p ∷ seen) r

pub push : List ℤ → List Found → List ℤ
push seen [] = seen
push seen ((p, d) ∷ r) = push (p ∷ seen) r

pub scan-seen :
    (seen : List ℤ) (d : ℕ) (cs : List ℤ)
    → (scan_children seen d cs).1 ≡ push seen (scan_children seen d cs).0
unfolding scan_children push
scan-seen seen d [] = refl
scan-seen seen d (c ∷ cs) = elim (Bool-cases (elem c seen)) [
  | inl e ↦ rw e (scan-seen seen d cs)
  | inr e ↦ rw e (scan-seen (c ∷ seen) d cs)
]

pub scan-Fresh : (seen : List ℤ) (d : ℕ) (cs : List ℤ) → Fresh seen (scan_children seen d cs).0
unfolding scan_children
scan-Fresh seen d [] = tt
scan-Fresh seen d (c ∷ cs) = elim (Bool-cases (elem c seen)) [
  | inl e ↦ rw e (scan-Fresh seen d cs)
  | inr e ↦ rw e (e, scan-Fresh (c ∷ seen) d cs)
]

pub Fresh-append :
    (seen : List ℤ) (xs ys : List Found)
    → Fresh seen xs
    → Fresh (push seen xs) ys
    → Fresh seen (xs ++ ys)
unfolding push
Fresh-append seen [] ys h k = k
Fresh-append seen ((p, d) ∷ xs) ys h k = (h.0, Fresh-append (p ∷ seen) xs ys h.1 k)

pub elem-push :
    (x : ℤ) (seen : List ℤ) (found : List Found)
    → elem x (push seen found) ≡ (elem x (pids found) || elem x seen)
unfolding push pids elem
elem-push x seen [] = refl
elem-push x seen ((p, d) ∷ r) =
    rw (elem-push x (p ∷ seen) r)
      (ground (arith, Bool-cases (elem x (pids r)), Bool-cases (p == x)))

-- After the pass every child has been seen.
pub scan-covers :
    (seen : List ℤ) (d : ℕ) (cs : List ℤ) (x : ℤ)
    → (elem x cs || elem x seen) ≡ true
    → elem x (scan_children seen d cs).1 ≡ true
unfolding scan_children elem
scan-covers seen d [] x h = h
scan-covers seen d (c ∷ cs) x h = elim (Bool-cases (elem c seen)) [
  | inl e ↦ rw e (scan-covers seen d cs x (ground (arith, beq_ℤ_iff c x)))
  | inr e ↦ rw e (scan-covers (c ∷ seen) d cs x (ground arith))
]

pub scan-Below :
    (t : ProcTable) (root p : ℤ) (d : ℕ)
    → Below t root p d
    → (seen cs : List ℤ) → ((x : ℤ) → elem x cs ≡ true → elem x (children_of t p) ≡ true)
    → All (λ (f : Found). Below t root f.0 f.1) (scan_children seen d cs).0
unfolding scan_children elem
scan-Below t root p d b seen [] h = tt
scan-Below t root p d b seen (c ∷ cs) h =
    let later = λ (x : ℤ) (k : elem x cs ≡ true). h x (rw k (ground arith)) in
    elim (Bool-cases (elem c seen)) [
      | inl e ↦ rw e (scan-Below t root p d b seen cs later)
      | inr e ↦ rw e (
        child b (h c (rw ((beq_ℤ_iff c c).1 refl) refl)) refl,
        scan-Below t root p d b (c ∷ seen) cs later,
      )
    ]

-- How much of the table is still to be seen.
unfoldable pub unseen : List ℤ → List ℤ → ℕ
unseen seen every = length (keep_if (λ x. not (elem x seen)) every)

pub unseen-le : (c : ℤ) (seen every : List ℤ) → unseen (c ∷ seen) every ≤ unseen seen every
unfolding unseen keep_if elem
unseen-le c seen [] = omega arith
unseen-le c seen (x ∷ every) = ground (arith, unseen-le c seen every)

pub unseen-lt :
    (c : ℤ) (seen every : List ℤ)
    → elem c seen ≡ false
    → elem c every ≡ true
    → unseen (c ∷ seen) every < unseen seen every
unfolding unseen keep_if elem
unseen-lt c seen [] h k = cc
unseen-lt c seen (x ∷ every) h k = ground (
  arith,
  unseen-lt c seen every,
  unseen-le c seen every,
  beq_ℤ_iff x c,
  beq_ℤ_iff c x,
  beq_ℤ_iff c c,
)

pub scan-unseen :
    (every seen : List ℤ) (d : ℕ) (cs : List ℤ)
    → ((x : ℤ) → elem x cs ≡ true → elem x every ≡ true)
    → length (scan_children seen d cs).0 + unseen (scan_children seen d cs).1 every
      ≤ unseen seen every
unfolding scan_children elem
scan-unseen every seen d [] h = omega arith
scan-unseen every seen d (c ∷ cs) h =
    let later = λ (x : ℤ) (k : elem x cs ≡ true). h x (rw k (ground arith)) in
    elim (Bool-cases (elem c seen)) [
      | inl e ↦ rw e (scan-unseen every seen d cs later)
      | inr e ↦ rw e (
          omega (
            arith,
            scan-unseen every (c ∷ seen) d cs later,
            unseen-lt c seen every e (h c (rw ((beq_ℤ_iff c c).1 refl) refl)),
          ))
    ]

pub children-elem :
    (m : List (ℤ × List ℤ)) (p : ℤ) (cs : List ℤ) (x : ℤ)
    → get m p ≡ some cs
    → elem x cs ≡ true
    → elem x (all_children m) ≡ true
unfolding get all_children
children-elem [] p cs x h k = cc
children-elem ((q, ds) ∷ m) p cs x h k = elim (Bool-cases (q == p)) [
  | inl e ↦
      let same : ds ≡ cs = some_inj (rw e at h) in
      rw (elem-append x ds (all_children m), same, k) refl
  | inr e ↦
      rw (elem-append x ds (all_children m), children-elem m p cs x (rw e at h) k) (ground arith)
]

pub child-elem :
    (t : ProcTable) (p x : ℤ)
    → elem x (children_of t p) ≡ true
    → elem x (all_children t.children) ≡ true
unfolding elem children_of
child-elem t p x h = elim (Option-cases (get t.children p)) [
  | inl e ↦ let clash : false ≡ true = rw e at h in absurd cc
  | inr (cs, e) ↦ children-elem t.children p cs x e (rw e at h)
]
