-- ===== src/Process/Ancestry.antt =====
-- The walks against the parent relation.
use dracon_system_disk_proce.Common.{
  ℕ, zero, suc, ◌≡◌, refl, sym, ◌∙◌, ◌≢◌, Bool, true, false, none, some, List, [], ◌∷◌, Bool-cases,
  Option-cases, inl, inr, arith, some_inj, elem, ap, All, ◌<◌, ◌≤◌, ◌↔◌, subst, ◌⊎◌, if◌then◌else◌,
  ==→≡, ◌==◌, ◌||◌,
}
use dracon_system_disk_proce.Common.Signed.{ℤ, leb_ℤ, pos, int_eq}
use dracon_system_disk_proce.Common.Table.{get}
use dracon_system_disk_proce.Process.{
  Parents, walk_up, walk_limit, nearest_biased_ancestor, process_is_descendant_of, is_some,
}

-- `r` is the first ancestor of `p` that passes the test.
pub data Climb (parents : Parents) (test : ℤ → Bool) : ℤ → ℤ → Type 0 where
  reach : {p q : ℤ} → get parents p ≡ some q → test q ≡ true → Climb parents test p q
  climb :
      {p q r : ℤ}
      → get parents p ≡ some q
      → test q ≡ false
      → Climb parents test q r
      → Climb parents test p r

module _ (test : ℤ → Bool) (parents : Parents) where
  walk_up-none :
      (rounds : ℕ) (current : ℤ) (seen : List ℤ)
      → get parents current ≡ none
      → walk_up test parents (suc rounds) current seen ≡ none
  unfolding walk_up
  walk_up-none rounds current seen e = rw (e, walk_up) refl

  walk_up-some :
      (rounds : ℕ) (current q : ℤ) (seen : List ℤ)
      → get parents current ≡ some q
      → walk_up test parents (suc rounds) current seen ≡ (
          if test q
          then some q
          else if leb_ℤ q (pos 0) || elem current seen
          then none
          else walk_up test parents rounds q (current ∷ seen))
  unfolding walk_up
  walk_up-some rounds current q seen e = rw (e, walk_up) refl

  walk_up-Climb :
      (rounds : ℕ) (current r : ℤ) (seen : List ℤ)
      → walk_up test parents rounds current seen ≡ some r
      → Climb parents test current r
  walk_up-Climb zero current r seen h = absurd (unfold walk_up in cc h)
  walk_up-Climb (suc rounds) current r seen h =
      up (Option-cases (get parents current)) (λ q. walk_up-Climb rounds q r (current ∷ seen))
    where
      up :
          (get parents current ≡ none) ⊎ ((q : ℤ) × (get parents current ≡ some q))
          → ((q : ℤ)
              → walk_up test parents rounds q (current ∷ seen) ≡ some r
              → Climb parents test q r)
          → Climb parents test current r
      up (inl e) ih = absurd (cc (sym (walk_up-none rounds current seen e) ∙ h))
      up (inr (q, e)) ih =
          let step = sym (walk_up-some rounds current q seen e) ∙ h in
          elim (Bool-cases (test q)) [
            | inl t ↦ subst (Climb parents test current) (some_inj (rw t at step)) (reach e t)
            | inr f ↦ elim (Bool-cases (leb_ℤ q (pos 0) || elem current seen)) [
              | inl stop ↦ absurd (cc (rw (f, stop) at step))
              | inr on ↦ climb e f (ih q (rw (f, on) at step))
            ]
          ]

  -- The first ancestor that passes is unique.
  Climb-unique : {p q r : ℤ} → Climb parents test p q → Climb parents test p r → q ≡ r
  Climb-unique (reach e t) (reach e' t') = some_inj (sym e ∙ e')
  Climb-unique (reach e t) (climb e' f' c') = cc
  Climb-unique (climb e f c) (reach e' t') = cc
  Climb-unique {r = r} (climb e f c) (climb e' f' c') =
      Climb-unique c (subst (λ x. Climb parents test x r) (some_inj (sym e' ∙ e)) c')

  -- The pids that have been passed rank above `n`.
  abbrev Above : (ℤ → ℕ) → ℕ → List ℤ → Type 0
  Above rank n seen = All (λ x. n < rank x) seen

  Above-elem :
      (rank : ℤ → ℕ) (p : ℤ) (seen : List ℤ) → Above rank (rank p) seen → elem p seen ≡ false
  unfolding elem
  Above-elem rank p [] a = refl
  Above-elem rank p (x ∷ seen) a = elim (Bool-cases (x == p)) [
    | inl e ↦ absurd (omega (arith, a.0, ap rank (==→≡ x p e)))
    | inr e ↦ rw e (Above-elem rank p seen a.1)
  ]

  Above-mono :
      (rank : ℤ → ℕ) (m n : ℕ) (seen : List ℤ) → m ≤ n → Above rank n seen → Above rank m seen
  Above-mono rank m n [] h a = tt
  Above-mono rank m n (x ∷ seen) h a = (omega (arith, a.0), Above-mono rank m n seen h a.1)

  -- Where parents rank below their children, and only positive pids have parents, enough rounds find
  -- the ancestor.
  Climb-first : {p r : ℤ} → Climb parents test p r → (q : ℤ) × (get parents p ≡ some q)
  Climb-first (reach {q = q} e t) = (q, e)
  Climb-first (climb {q = q} e f c) = (q, e)

  walk_up-found :
      (rank : ℤ → ℕ)
      → ((p q : ℤ) → get parents p ≡ some q → (rank q < rank p) × (leb_ℤ p (pos 0) ≡ false))
      → (rounds : ℕ) (p r : ℤ) (seen : List ℤ) → rank p < rounds
      → Above rank (rank p) seen
      → Climb parents test p r
      → walk_up test parents rounds p seen ≡ some r
  walk_up-found rank falls zero p r seen lt a c = absurd (omega arith)
  walk_up-found rank falls (suc rounds) p r seen lt a (reach e t) =
      walk_up-some rounds p r seen e ∙ rw t refl
  walk_up-found rank falls (suc rounds) p r seen lt a (climb {q = q} e f c) =
      let below = (falls p q e).0 in
      let (q', e') = Climb-first c in
      let positive = (falls q q' e').1 in
      walk_up-some rounds p q seen e
      ∙ rw (f, positive, Above-elem rank p seen a)
          (walk_up-found rank falls rounds q r (p ∷ seen) (omega arith)
            (below, Above-mono rank (rank q) (rank p) seen (omega arith) a) c)

-- The root that `nearest_biased_ancestor` names is the first biased one on the way up, and the only
-- such.
pub nearest_biased_ancestor_first :
    (pid r : ℤ) (parents : Parents) (roots : List ℤ)
    → nearest_biased_ancestor pid parents roots ≡ some r
    → Climb parents (λ q. elem q roots) pid r
      × ((s : ℤ) → Climb parents (λ q. elem q roots) pid s → s ≡ r)
unfolding nearest_biased_ancestor
nearest_biased_ancestor_first pid r parents roots h =
    let c = walk_up-Climb (λ q. elem q roots) parents walk_limit pid r [] h in
    (c, λ s d. Climb-unique (λ q. elem q roots) parents d c)

module _ (root_pid : ℤ) (parents : Parents) where
  abbrev is_root : ℤ → Bool
  is_root q = q == root_pid

  Climb-root : {p q : ℤ} → Climb parents is_root p q → q ≡ root_pid
  Climb-root (reach {q = q} e t) = ==→≡ q root_pid t
  Climb-root (climb e f c) = Climb-root c

  is_some-Climb :
      (pid : ℤ)
      → is_some (walk_up is_root parents walk_limit pid []) ≡ true
      → Climb parents is_root pid root_pid
  is_some-Climb pid h = found (Option-cases (walk_up is_root parents walk_limit pid []))
    where
      found :
          (walk_up is_root parents walk_limit pid [] ≡ none)
            ⊎ ((r : ℤ) × (walk_up is_root parents walk_limit pid [] ≡ some r))
          → Climb parents is_root pid root_pid
      found (inl e) = absurd (cc (sym (ap is_some e) ∙ h))
      found (inr (r, e)) =
          let c = walk_up-Climb is_root parents walk_limit pid r [] e in
          subst (Climb parents is_root pid) (Climb-root c) c

-- Where the parent links are acyclic (parents rank below children, the pid's rank is below 1024)
-- and only positive pids have a parent in the table, as pid 1 has the parent 0,
-- `process_is_descendant_of` holds exactly for the proper descendants.
pub process_is_descendant_of_iff :
    (rank : ℤ → ℕ) (parents : Parents) (pid root_pid : ℤ)
    → ((p q : ℤ) → get parents p ≡ some q → (rank q < rank p) × (leb_ℤ p (pos 0) ≡ false))
    → rank pid < 1024
    → (process_is_descendant_of pid root_pid parents ≡ true)
      ↔ ((pid ≢ root_pid) × Climb parents (λ q. q == root_pid) pid root_pid)
unfolding process_is_descendant_of
process_is_descendant_of_iff rank parents pid root_pid falls low =
    (λ h. down (Bool-cases (pid == root_pid)) h, λ c. up c.0 c.1)
  where
    down :
        ((pid == root_pid) ≡ true) ⊎ ((pid == root_pid) ≡ false)
        → process_is_descendant_of pid root_pid parents ≡ true
        → (pid ≢ root_pid) × Climb parents (λ q. q == root_pid) pid root_pid
    down (inl e) h = absurd (cc (rw e at h))
    down (inr e) h = (
      λ same. cc (sym e ∙ (int_eq.beq_iff pid root_pid).1 same),
      is_some-Climb root_pid parents pid (rw e at h),
    )

    up :
        pid ≢ root_pid
        → Climb parents (λ q. q == root_pid) pid root_pid
        → process_is_descendant_of pid root_pid parents ≡ true
    up ne c = elim (Bool-cases (pid == root_pid)) [
      | inl e ↦ absurd (ne (==→≡ pid root_pid e))
      | inr e ↦
          rw
            (
              e,
              walk_up-found (λ q. q == root_pid) parents rank falls walk_limit pid root_pid [] low
                  tt c,
            )
            refl
    ]
