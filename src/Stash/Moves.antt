-- ===== src/Stash/Moves.antt =====
-- Lemmas on the file system of the stash: renames, new folders and what they leave alone.
use dracon_system_disk_proce.Common.{
  ◌≡◌, ◌≢◌, ◌⊎◌, inl, inr, refl, true, false, none, some, [], ◌∷◌, ◌++◌, All, Bool-cases,
  Option-cases, ap, sym, ◌∙◌, append_assoc, append-nil, ◌==◌, nat_eq, subst,
}
use dracon_system_disk_proce.Common.Table.{get, insert, get-insert}
use dracon_system_disk_proce.Common.Text.{Text}
use dracon_system_disk_proce.Safety.{Canon}
use dracon_system_disk_proce.Stash.FileSystem.{
  Disk, Node, folder, list_eq, list_beq_iff, below, rename, create_dir_all, make_folders,
  make_folder, parent,
}

-- A path does not lie at or below another.
abbrev pub Apart : Canon → Canon → Type 0
Apart d p = (r : Canon) → p ≢ d ++ r

pub below-append : (d r : Canon) → below d (d ++ r) ≡ some r
unfolding below
below-append [] r = refl
below-append (c ∷ cs) r = rw ((list_beq_iff c c).1 refl) (below-append cs r)

below-some : (d p r : Canon) → below d p ≡ some r → p ≡ d ++ r
unfolding below
below-some [] p r h = cc
below-some (c ∷ d) [] r h = absurd (cc)
below-some (c ∷ d) (x ∷ p) r h = elim (Bool-cases (c == x)) [
  | inl e ↦ let same = (list_beq_iff c x).0 e in let rest = below-some d p r (rw e at h) in cc
  | inr e ↦ absurd (let clash : none ≡ some r = rw e at h in cc)
]

below-none : (d p : Canon) → Apart d p → below d p ≡ none
below-none d p a = elim (Option-cases (below d p)) [
  | inl n ↦ n
  | inr (r, e) ↦ absurd (a r (below-some d p r e))
]

pub append_cancel : (d r s : Canon) → d ++ r ≡ d ++ s → r ≡ s
append_cancel [] r s e = e
append_cancel (c ∷ d) r s e = append_cancel d r s (cc)

-- No path of the disk lies at or below a given one.
abbrev pub Free : Canon → Disk → Type 0
Free d m = All (λ (row : Canon × Node). Apart d row.0) m

pub neq_false : (x y : Canon) → x ≢ y → (x == y) ≡ false
neq_false x y n = elim (Bool-cases (x == y)) [
  | inl e ↦ absurd (n ((list_beq_iff x y).0 e))
  | inr e ↦ e
]

pub eq_true : (x : Canon) → (x == x) ≡ true
eq_true x = (list_beq_iff x x).1 refl

-- A renamed tree stands at the new place, entry by entry.
pub get-rename :
    (m : Disk) (src dst r : Canon)
    → Free dst m
    → get (rename m src dst) (dst ++ r) ≡ get m (src ++ r)
unfolding get rename
get-rename [] src dst r h = refl
get-rename ((p, node) ∷ m) src dst r h = elim (Option-cases (below src p)) [
  | inl n ↦
      let not_new = neq_false p (dst ++ r) (h.0 r) in
      let not_old =
        neq_false p (src ++ r)
          (λ e. (let clash = below-append src r in let n' = rw e at n in absurd (cc))) in
      rw (n, not_new, not_old) (get-rename m src dst r h.1)
  | inr (s, n) ↦
      let at_p = below-some src p s n in
      elim (Bool-cases (s == r)) [
        | inl e ↦
            let same = (list_beq_iff s r).0 e in
            rw (n, same, eq_true (dst ++ r), at_p ∙ ap (λ x. src ++ x) same, eq_true (src ++ r))
              refl
        | inr e ↦
            let differ : s ≢ r = λ q. let clash = (list_beq_iff s r).1 q in absurd (cc) in
            rw
              (
                n,
                neq_false (dst ++ s) (dst ++ r) (λ q. differ (append_cancel dst s r q)),
                at_p,
                neq_false (src ++ s) (src ++ r) (λ q. differ (append_cancel src s r q)),
              )
              (get-rename m src dst r h.1)
      ]
]

-- Elsewhere a rename changes nothing.
pub get-rename_other :
    (m : Disk) (src dst p : Canon) → Apart src p → Apart dst p → get (rename m src dst) p ≡ get m p
unfolding get rename
get-rename_other [] src dst p a b = refl
get-rename_other ((q, node) ∷ m) src dst p a b = elim (Option-cases (below src q)) [
  | inl n ↦ elim (Bool-cases (q == p)) [
    | inl e ↦ rw (n, e) refl
    | inr e ↦ rw (n, e) (get-rename_other m src dst p a b)
  ]
  | inr (s, n) ↦
      let at_q = below-some src q s n in
      rw (n, neq_false (dst ++ s) p (λ e. b s (sym e)), neq_false q p (λ e. a s (sym e ∙ at_q)))
        (get-rename_other m src dst p a b)
]

-- After a rename nothing is left at the old place, if the new one does not lie there.
pub rename-Free :
    (m : Disk) (src dst : Canon)
    → ((s : Canon) → Apart src (dst ++ s))
    → Free src (rename m src dst)
unfolding rename
rename-Free [] src dst h = tt
rename-Free ((q, node) ∷ m) src dst h = elim (Option-cases (below src q)) [
  | inl n ↦ rw n (
    λ r e.
        let n' = rw e at n in
        let clash : some r ≡ none = sym (below-append src r) ∙ n' in absurd (cc),
    rename-Free m src dst h,
  )
  | inr (s, n) ↦ rw n (h s, rename-Free m src dst h)
]

pub insert-Free :
    (m : Disk) (d p : Canon) (node : Node) → Free d m → Apart d p → Free d (insert m p node)
unfolding insert
insert-Free [] d p node h a = (a, tt)
insert-Free ((q, w) ∷ m) d p node h a = elim (Bool-cases (q == p)) [
  | inl e ↦ rw e (a, h.1)
  | inr e ↦ rw e (h.0, insert-Free m d p node h.1 a)
]

make_folder-Free : (m : Disk) (d p : Canon) → Free d m → Apart d p → Free d (make_folder m p)
unfolding make_folder
make_folder-Free m d p h a = elim (Option-cases (get m p)) [
  | inl n ↦ rw (n, make_folder) (insert-Free m d p folder h a)
  | inr (w, n) ↦ rw (n, make_folder) h
]

pub Apart-prefix : (d p q : Canon) → Apart d (p ++ q) → Apart d p
Apart-prefix d p q a r e = a (r ++ q) (ap (λ x. x ++ q) e ∙ append_assoc d r q)

make_folders-Free :
    (m : Disk) (d done rest : Canon)
    → Free d m
    → Apart d (done ++ rest)
    → Free d (make_folders m done rest)
unfolding make_folders
make_folders-Free m d done [] h a =
    make_folder-Free m d done h (subst (Apart d) (append-nil done) a)
make_folders-Free m d done (c ∷ cs) h a =
    make_folders-Free (make_folder m done) d (done ++ c ∷ []) cs
      (make_folder-Free m d done h (Apart-prefix d done (c ∷ cs) a))
      (subst (Apart d) (sym (append_assoc done (c ∷ []) cs)) a)

-- The folders that are made lie on the way to the path.
get-make_folder : (m : Disk) (p q : Canon) → q ≢ p → get (make_folder m p) q ≡ get m q
unfolding make_folder
get-make_folder m p q n = elim (Option-cases (get m p)) [
  | inl e ↦ rw (e, make_folder, get-insert m p q folder, neq_false p q (λ s. n (sym s))) refl
  | inr (w, e) ↦ rw (e, make_folder) refl
]

get-make_folders :
    (m : Disk) (done rest q : Canon)
    → Apart q (done ++ rest)
    → get (make_folders m done rest) q ≡ get m q
unfolding make_folders
get-make_folders m done [] q a =
    get-make_folder m done q (λ e. a [] (append-nil done ∙ sym e ∙ sym (append-nil q)))
get-make_folders m done (c ∷ cs) q a =
    get-make_folders (make_folder m done) (done ++ c ∷ []) cs q
      (subst (Apart q) (sym (append_assoc done (c ∷ []) cs)) a)
    ∙ get-make_folder m done q (λ e. a (c ∷ cs) (ap (λ x. x ++ c ∷ cs) (sym e)))

pub create_dir_all-Free :
    (m : Disk) (d p : Canon) → Free d m → Apart d p → Free d (create_dir_all m p)
unfolding create_dir_all
create_dir_all-Free m d p h a = make_folders-Free m d [] p h a

pub get-create_dir_all : (m : Disk) (p q : Canon) → Apart q p → get (create_dir_all m p) q ≡ get m q
unfolding create_dir_all
get-create_dir_all m p q a = get-make_folders m [] p q a

-- Two prefixes of one path are prefixes of one another.
pub comparable :
    (a b r s : Canon)
    → a ++ r ≡ b ++ s
    → ((x : Canon) × (b ≡ a ++ x)) ⊎ ((x : Canon) × (a ≡ b ++ x))
comparable [] b r s e = inl (b, refl)
comparable (c ∷ a) [] r s e = inr (c ∷ a, refl)
comparable (c ∷ a) (d ∷ b) r s e = elim (comparable a b r s (cc)) [
  | inl (x, f) ↦ inl (x, (let same : c ≡ d = cc in cc))
  | inr (x, f) ↦ inr (x, (let same : c ≡ d = cc in cc))
]

pub get-Free : (m : Disk) (d : Canon) → Free d m → (r : Canon) → get m (d ++ r) ≡ none
unfolding get
get-Free [] d h r = refl
get-Free ((q, node) ∷ m) d h r = rw (neq_false q (d ++ r) (h.0 r)) (get-Free m d h.1 r)

pub parent-prefix : (p : Canon) → (x : Canon) × (p ≡ parent p ++ x)
unfolding parent
parent-prefix [] = ([], refl)
parent-prefix (c ∷ []) = (c ∷ [], refl)
parent-prefix (c ∷ d ∷ cs) = let (x, e) = parent-prefix (d ∷ cs) in (x, ap (λ p. c ∷ p) e)

pub parent-proper : (p : Canon) → p ≢ [] → (c : Text) × (x : Canon) × (p ≡ parent p ++ c ∷ x)
unfolding parent
parent-proper [] n = absurd (n refl)
parent-proper (c ∷ []) n = (c, [], refl)
parent-proper (c ∷ d ∷ cs) n =
    let (e, x, h) = parent-proper (d ∷ cs) (λ k. cc) in (e, x, ap (λ p. c ∷ p) h)
