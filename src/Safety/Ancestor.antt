-- ===== src/Safety/Ancestor.antt =====
-- safety.rs, `is_protected_ancestor`: the test on texts is ancestry of paths.
use dracon_system_disk_proce.Common.{
  ℕ, ◌≡◌, ◌≢◌, ◌↔◌, inl, inr, refl, true, false, [], ◌∷◌, ◌++◌, nat_beq, nat_beq_iff, Bool-cases,
  All, ap, sym, ◌∙◌, append_assoc, append-nil, Option-cases, subst,
}
use dracon_system_disk_proce.Common.Text.{Text, text_beq, starts_with, strip_prefix}
use dracon_system_disk_proce.Reap.Proc.Exempt.{text_beq_iff, strip_prefix-append, strip_prefix-some}
use dracon_system_disk_proce.Safety.{
  Canon, slashed, display, ends_with_slash, is_protected_ancestor,
}

-- A component is not empty and has no slash.
abbrev pub Component : Text → Type 0
Component c = (c ≢ []) × All (λ d. d ≢ 47) c

-- What follows a component: nothing, or a slash.
abbrev Ends : Text → Type 0
Ends [] = Unit
Ends (x ∷ s) = x ≡ 47

unique :
    (c d s t : Text)
    → All (λ (x : ℕ). x ≢ 47) c
    → All (λ (x : ℕ). x ≢ 47) d
    → Ends s
    → Ends t
    → c ++ s ≡ d ++ t
    → (c ≡ d) × (s ≡ t)
unique [] [] s t h k m n e = (refl, e)
unique [] (y ∷ d) [] t h k m n e = absurd (cc)
unique [] (y ∷ d) (x ∷ s) t h k m n e = absurd (k.0 (cc))
unique (x ∷ c) [] s [] h k m n e = absurd (cc)
unique (x ∷ c) [] s (y ∷ t) h k m n e = absurd (h.0 (cc))
unique (x ∷ c) (y ∷ d) s t h k m n e =
    let (same, rest) = unique c d s t h.1 k.1 m n (cc) in (cc, rest)

slashed-Ends : (p : Canon) → Ends (slashed p)
unfolding slashed
slashed-Ends [] = tt
slashed-Ends (c ∷ cs) = refl

tail-Ends : (p : Canon) (t : Text) → Ends (slashed p ++ 47 ∷ t)
unfolding slashed
tail-Ends [] t = refl
tail-Ends (c ∷ cs) t = refl

slashed_inj : (p q : Canon) → All Component p → All Component q → slashed p ≡ slashed q → p ≡ q
unfolding slashed
slashed_inj [] [] h k e = refl
slashed_inj [] (d ∷ ds) h k e = absurd (cc)
slashed_inj (c ∷ cs) [] h k e = absurd (cc)
slashed_inj (c ∷ cs) (d ∷ ds) h k e =
    let (same, rest) =
      unique c d (slashed cs) (slashed ds) h.0.1 k.0.1 (slashed-Ends cs) (slashed-Ends ds) (cc) in
    let later = slashed_inj cs ds h.1 k.1 rest in cc

below :
    (p q : Canon) (t : Text)
    → All Component p
    → All Component q
    → slashed p ≡ slashed q ++ 47 ∷ t
    → (r : Canon) × (p ≡ q ++ r)
unfolding slashed
below p [] t h k e = (p, refl)
below [] (d ∷ ds) t h k e = absurd (cc)
below (c ∷ cs) (d ∷ ds) t h k e =
    let e' : c ++ slashed cs ≡ d ++ (slashed ds ++ 47 ∷ t) =
      ap (λ l. elim l [ [] ↦ [] | x ∷ xs ↦ xs ]) e ∙ append_assoc d (slashed ds) (47 ∷ t) in
    let (same, rest) =
      unique c d (slashed cs) (slashed ds ++ 47 ∷ t) h.0.1 k.0.1 (slashed-Ends cs) (tail-Ends ds t)
        e' in
    let (r, later) = below cs ds t h.1 k.1 rest in (r, cc)

slashed-append : (q r : Canon) → slashed (q ++ r) ≡ slashed q ++ slashed r
unfolding slashed
slashed-append [] r = refl
slashed-append (c ∷ cs) r =
    ap (λ s. 47 ∷ (c ++ s)) (slashed-append cs r)
    ∙ ap (λ s. 47 ∷ s) (sym (append_assoc c (slashed cs) (slashed r)))

ends-component : (x : ℕ) (c : Text) → All (λ d. d ≢ 47) (x ∷ c) → ends_with_slash (x ∷ c) ≡ false
unfolding ends_with_slash
ends-component x [] h = elim (Bool-cases (nat_beq x 47)) [
  | inl e ↦ absurd (h.0 ((nat_beq_iff x 47).0 e))
  | inr e ↦ e
]
ends-component x (y ∷ c) h = ends-component y c h.1

ends-append : (s : Text) (x : ℕ) (t : Text) → ends_with_slash (s ++ x ∷ t) ≡ ends_with_slash (x ∷ t)
unfolding ends_with_slash
ends-append [] x t = refl
ends-append (y ∷ []) x t = refl
ends-append (y ∷ z ∷ s) x t = ends-append (z ∷ s) x t

ends-slashed :
    (c : Text) (cs : Canon) → All Component (c ∷ cs) → ends_with_slash (slashed (c ∷ cs)) ≡ false
unfolding slashed
ends-slashed [] cs h = absurd (h.0.0 refl)
ends-slashed (x ∷ c) [] h =
    subst (λ s. ends_with_slash (47 ∷ s) ≡ false) (sym (append-nil (x ∷ c)))
      (ends-append (47 ∷ []) x c ∙ ends-component x c h.0.1)
ends-slashed (x ∷ c) (d ∷ ds) h =
    ends-append (47 ∷ x ∷ c) 47 (d ++ slashed ds) ∙ ends-slashed d ds h.1

starts_with-append : (p s : Text) → starts_with p (p ++ s) ≡ true
unfolding starts_with
starts_with-append p s = rw (strip_prefix-append p s) refl

starts_with-some : (p s : Text) → starts_with p s ≡ true → (t : Text) × (s ≡ p ++ t)
unfolding starts_with
starts_with-some p s h = elim (Option-cases (strip_prefix p s)) [
  | inl n ↦ absurd (let clash : false ≡ true = rw n at h in cc)
  | inr (t, e) ↦ (t, strip_prefix-some p s t e)
]

-- No path but the root is shown as a slash.
not_slash : (c : Text) (cs : Canon) → All Component (c ∷ cs) → slashed (c ∷ cs) ≢ 47 ∷ []
unfolding slashed
not_slash [] cs h e = absurd (h.0.0 refl)
not_slash (x ∷ c) cs h e = absurd (cc)

beq_false : (s t : Text) → s ≢ t → text_beq s t ≡ false
beq_false s t n = elim (Bool-cases (text_beq s t)) [
  | inl e ↦ absurd (n ((text_beq_iff s t).0 e))
  | inr e ↦ e
]

-- A path is protected by the root only if it is the root, and by another path if it lies at it or
-- below it.
abbrev pub Protects : Canon → Canon → Type 0
Protects [] p = p ≡ []
Protects (d ∷ ds) p = (r : Canon) × (p ≡ (d ∷ ds) ++ r)

root→ : (p : Canon) → All Component p → is_protected_ancestor (display p) (47 ∷ []) ≡ true → p ≡ []
unfolding is_protected_ancestor display text_beq
root→ [] h e = refl
root→ (c ∷ cs) h e =
    absurd (let clash : false ≡ true = rw (beq_false _ (47 ∷ []) (not_slash c cs h)) at e in cc)

below→ :
    (p : Canon) (d : Text) (ds : Canon)
    → All Component p
    → All Component (d ∷ ds)
    → (t : Text) → display p ≡ slashed (d ∷ ds) ++ 47 ∷ t
    → Protects (d ∷ ds) p
unfolding display
below→ (c ∷ cs) d ds h k t e = below (c ∷ cs) (d ∷ ds) t h k e
below→ [] [] ds h k t e = absurd (k.0.0 refl)
below→ [] (x ∷ d) ds h k t e = absurd (unfold slashed in cc)

same→ :
    (p : Canon) (d : Text) (ds : Canon)
    → All Component p
    → All Component (d ∷ ds)
    → display p ≡ slashed (d ∷ ds)
    → Protects (d ∷ ds) p
unfolding display
same→ (c ∷ cs) d ds h k e = ([], slashed_inj (c ∷ cs) (d ∷ ds) h k e ∙ sym (append-nil (d ∷ ds)))
same→ [] d ds h k e = absurd (not_slash d ds k (sym e))

protected→ :
    (p : Canon) (d : Text) (ds : Canon)
    → All Component p
    → All Component (d ∷ ds)
    → is_protected_ancestor (display p) (slashed (d ∷ ds)) ≡ true
    → Protects (d ∷ ds) p
unfolding is_protected_ancestor
protected→ p d ds h k e = elim (Bool-cases (text_beq (display p) (slashed (d ∷ ds)))) [
  | inl same ↦ same→ p d ds h k ((text_beq_iff _ _).0 same)
  | inr other ↦
      let starts : starts_with (slashed (d ∷ ds) ++ 47 ∷ []) (display p) ≡ true =
        rw (other, beq_false _ (47 ∷ []) (not_slash d ds k), ends-slashed d ds k) at e in
      let (t, shown) = starts_with-some (slashed (d ∷ ds) ++ 47 ∷ []) (display p) starts in
      below→ p d ds h k t (shown ∙ append_assoc (slashed (d ∷ ds)) (47 ∷ []) t)
]

protected← :
    (d : Text) (ds r : Canon)
    → All Component (d ∷ ds)
    → is_protected_ancestor (display ((d ∷ ds) ++ r)) (slashed (d ∷ ds)) ≡ true
unfolding is_protected_ancestor display
protected← d ds [] k = rw (append-nil ds, (text_beq_iff _ _).1 refl) refl
protected← d ds (x ∷ xs) k =
    let shown : slashed ((d ∷ ds) ++ x ∷ xs) ≡ (slashed (d ∷ ds) ++ 47 ∷ []) ++ (x ++ slashed xs) =
      slashed-append (d ∷ ds) (x ∷ xs)
      ∙ sym (append_assoc (slashed (d ∷ ds)) (47 ∷ []) (x ++ slashed xs)) in
    elim (Bool-cases (text_beq (slashed ((d ∷ ds) ++ x ∷ xs)) (slashed (d ∷ ds)))) [
      | inl same ↦ rw same refl
      | inr other ↦
          rw
            (
              other,
              beq_false _ (47 ∷ []) (not_slash d ds k),
              ends-slashed d ds k,
              shown,
              starts_with-append (slashed (d ∷ ds) ++ 47 ∷ []) (x ++ slashed xs),
            )
            refl
    ]

-- The test on the shown texts decides ancestry of canonical paths: it is true exactly where the second
-- path is the root and so is the first, or the second is another path and the first lies at it or
-- below it, component by component, so that /home does not protect /homefoo.
pub is_protected_ancestor_iff :
    (p q : Canon)
    → All Component p
    → All Component q
    → (is_protected_ancestor (display p) (display q) ≡ true) ↔ Protects q p
unfolding display
is_protected_ancestor_iff p [] h k = (
  root→ p h,
  λ e. subst (λ x. is_protected_ancestor (display x) (47 ∷ []) ≡ true) (sym e) root_itself,
)
  where
    root_itself : is_protected_ancestor (47 ∷ []) (47 ∷ []) ≡ true
    root_itself = unfold is_protected_ancestor text_beq in refl
is_protected_ancestor_iff p (d ∷ ds) h k = (
  protected→ p d ds h k,
  λ (r, e).
      subst (λ x. is_protected_ancestor (display x) (slashed (d ∷ ds)) ≡ true) (sym e)
        (protected← d ds r k),
)
