-- ===== src/Safety/Allowed.antt =====
-- safety.rs, `check_safe_to_delete_guard`: what the guard may delete.
use dracon_system_disk_proce.Common.{
  ◌≡◌, ◌≢◌, ◌⊎◌, ◌↔◌, inl, inr, refl, false, List, [], ◌∷◌, Bool-cases, All, any_of, arith,
}
use dracon_system_disk_proce.Common.Text.{Text, text_beq}
use dracon_system_disk_proce.Reap.Proc.Exempt.{text_beq_iff}
use dracon_system_disk_proce.Safety.{
  Canon, display, is_protected_ancestor, system_protected, Canonicalized, resolved, not_found,
  unreadable, Files, Refusal, ok, err, is_symlink_kind, note_unresolvable_protected,
  check_user_protected, check_with, check_safe_to_delete_guard,
}
use dracon_system_disk_proce.Safety.Ancestor.{Component, Protects, is_protected_ancestor_iff}

-- `canonicalize` returns an absolute path with no empty component, as the standard library documents.
abbrev pub CanonicalAnswers : Files → Type 0
CanonicalAnswers fs = (t : Text) (c : Canon) → fs.canonicalize t ≡ resolved c → All Component c

-- An entry of the operator's list that does not keep a path from deletion: it names nothing, or it
-- resolves to a path that does not protect this one.
abbrev pub Permits : Files → Canon → Text → Type 0
Permits fs c entry =
    (fs.canonicalize entry ≡ not_found)
    ⊎ ((q : Canon) × (fs.canonicalize entry ≡ resolved q) × (Protects q c → ⊥))

abbrev pub Allowed : Files → Text → List Text → Text → Type 0
Allowed fs path user_protected canon =
    ((fs.canonicalize path ≡ not_found) × (canon ≡ path))
    ⊎ ((c : Canon) × (fs.canonicalize path ≡ resolved c)
        × (canon ≡ display c)
        × (is_symlink_kind (fs.symlink_metadata path) ≡ false)
        × All (λ root. display c ≢ root) system_protected
        × All (Permits fs c) user_protected)

Canonicalized-cases :
    (a : Canonicalized) → ((c : Canon) × (a ≡ resolved c)) ⊎ ((a ≡ not_found) ⊎ (a ≡ unreadable))
Canonicalized-cases (resolved c) = inl (c, refl)
Canonicalized-cases not_found = inr (inl refl)
Canonicalized-cases unreadable = inr (inr refl)

none_equal→ :
    (s : Text) (roots : List Text)
    → any_of (text_beq s) roots ≡ false
    → All (λ root. s ≢ root) roots
unfolding any_of
none_equal→ s [] h = tt
none_equal→ s (r ∷ rs) h = (
  λ e. let clash = (text_beq_iff s r).1 e in absurd (ground arith),
  none_equal→ s rs (ground arith),
)

none_equal← :
    (s : Text) (roots : List Text)
    → All (λ root. s ≢ root) roots
    → any_of (text_beq s) roots ≡ false
unfolding any_of
none_equal← s [] h = refl
none_equal← s (r ∷ rs) h = elim (Bool-cases (text_beq s r)) [
  | inl e ↦ absurd (h.0 ((text_beq_iff s r).0 e))
  | inr e ↦ rw (e, none_equal← s rs h.1) refl
]

module _ (fs : Files) (answers : CanonicalAnswers fs) (c : Canon) (comps : All Component c) where
  user→ :
      (warned entries : List Text) (canon : Text)
      → (check_user_protected fs warned c entries).1 ≡ ok canon
      → (canon ≡ display c) × All (Permits fs c) entries
  unfolding check_user_protected
  user→ warned [] canon h = (cc, tt)
  user→ warned (e ∷ es) canon h = elim (Canonicalized-cases (fs.canonicalize e)) [
    | inr (inr n) ↦ absurd (
        let clash : err Refusal.user_path_unreadable ≡ ok canon =
          rw (n, check_user_protected) at h in
        cc)
    | inr (inl n) ↦
        let (same, rest) =
          user→ (note_unresolvable_protected fs warned e).0 es canon
            (rw (n, check_user_protected) at h) in
        (same, (inl n, rest))
    | inl (q, n) ↦ elim (Bool-cases (is_protected_ancestor (display c) (display q))) [
      | inl p ↦ absurd (
          let clash : err Refusal.user_path ≡ ok canon = rw (n, p, check_user_protected) at h in cc)
      | inr p ↦
          let (same, rest) = user→ warned es canon (rw (n, p, check_user_protected) at h) in
          let spared : Protects q c → ⊥ =
            λ k. let clash = (is_protected_ancestor_iff c q comps (answers e q n)).1 k in cc in
          (same, (inr (q, n, spared), rest))
    ]
  ]

  user← :
      (warned entries : List Text)
      → All (Permits fs c) entries
      → (check_user_protected fs warned c entries).1 ≡ ok (display c)
  unfolding check_user_protected
  user← warned [] h = refl
  user← warned (e ∷ es) (inl n, rest) =
      rw (n, check_user_protected) (user← (note_unresolvable_protected fs warned e).0 es rest)
  user← warned (e ∷ es) (inr (q, n, spared), rest) =
      elim (Bool-cases (is_protected_ancestor (display c) (display q))) [
        | inl p ↦ absurd (spared ((is_protected_ancestor_iff c q comps (answers e q n)).0 p))
        | inr p ↦ rw (n, p, check_user_protected) (user← warned es rest)
      ]

allowed→ :
    (fs : Files)
    → CanonicalAnswers fs
    → (warned : List Text) (path : Text) (user_protected : List Text) (canon : Text)
    → (check_safe_to_delete_guard fs warned path user_protected).1 ≡ ok canon
    → Allowed fs path user_protected canon
unfolding check_safe_to_delete_guard check_with
allowed→ fs answers warned path up canon h = elim (Canonicalized-cases (fs.canonicalize path)) [
  | inr (inr n) ↦
      absurd
        (let clash : err Refusal.cannot_canonicalize ≡ ok canon = rw (n, check_with) at h in cc)
  | inr (inl n) ↦ inl (n, (let same : ok path ≡ ok canon = rw (n, check_with) at h in cc))
  | inl (c, n) ↦ elim (Bool-cases (is_symlink_kind (fs.symlink_metadata path))) [
    | inl s ↦
        absurd (let clash : err Refusal.is_symlink ≡ ok canon = rw (n, s, check_with) at h in cc)
    | inr s ↦ elim (Bool-cases (any_of (text_beq (display c)) system_protected)) [
      | inl p ↦
          absurd
            (let clash : err Refusal.system_path ≡ ok canon = rw (n, s, p, check_with) at h in cc)
      | inr p ↦
          let (same, rest) =
            user→ fs answers c (answers path c n) warned up canon (rw (n, s, p, check_with) at h) in
          inr (c, n, same, s, none_equal→ (display c) system_protected p, rest)
    ]
  ]
]

allowed← :
    (fs : Files)
    → CanonicalAnswers fs
    → (warned : List Text) (path : Text) (user_protected : List Text) (canon : Text)
    → Allowed fs path user_protected canon
    → (check_safe_to_delete_guard fs warned path user_protected).1 ≡ ok canon
unfolding check_safe_to_delete_guard check_with
allowed← fs answers warned path up canon (inl (n, e)) = rw (n, check_with, e) refl
allowed← fs answers warned path up canon (inr (c, n, e, s, p, rest)) =
    rw (n, s, none_equal← (display c) system_protected p, check_with, e)
      (user← fs answers c (answers path c n) warned up rest)

-- The guard's check passes exactly these paths, where `canonicalize` answers as documented: a path that
-- does not exist, as it is given; and a path that resolves, as it resolves, if it is no symlink, no
-- system directory itself, and for every entry of the operator's list the entry names nothing or
-- resolves to a path that does not protect it. Every other path is refused.
pub check_safe_to_delete_guard_iff :
    (fs : Files)
    → CanonicalAnswers fs
    → (warned : List Text) (path : Text) (user_protected : List Text) (canon : Text)
    → ((check_safe_to_delete_guard fs warned path user_protected).1 ≡ ok canon)
      ↔ Allowed fs path user_protected canon
check_safe_to_delete_guard_iff fs answers warned path up canon =
    (allowed→ fs answers warned path up canon, allowed← fs answers warned path up canon)
