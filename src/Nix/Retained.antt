-- ===== src/Nix/Retained.antt =====
-- The generations that pruning deletes, and those that stay.
use native.Mathlib.Nat.{mul-le-mul_right, div-le_of_le-mul}
use dracon_system_disk_proce.Common.{
  ℕ, zero, suc, ◌-◌, ◌*◌, ◌/◌, ◌<◌, ◌≤◌, ◌≡◌, refl, sym, ap, ◌∙◌, ◌⊎◌, inl, inr, leb, ltb, nat_beq,
  Bool, true, false, not, ◌&&◌, ◌||◌, Option, some, List, [], ◌∷◌, ◌++◌, length, get_elem?, elem,
  keep_if, nat_eq, arith, Bool-cases, All, elem-keep_if, elem-append, if_cases, subst, ==_refl,
}
use dracon_system_disk_proce.Nix.{
  pick, insert_sorted, sort_dedup, spread, retain_by_spread, last_of, delete_from,
  nix_generations_to_delete_protecting,
}

get_elem_bounded : (xs : List ℕ) (i : ℕ) → i < length xs → (g : ℕ) × (get_elem? xs i ≡ some g)
get_elem_bounded [] i h = absurd (omega (arith, h))
get_elem_bounded (x ∷ xs) zero h = (x, refl)
get_elem_bounded (x ∷ xs) (suc i) h = get_elem_bounded xs i (omega (arith, h))

index_bounded : (i n keep : ℕ) → 1 ≤ n → 2 ≤ keep → i < keep → i * (n - 1) / (keep - 1) < n
index_bounded i n keep pos two lt =
    let scaled : i * (n - 1) ≤ (keep - 1) * (n - 1) =
      mul-le-mul_right (n - 1) (omega (arith, lt)) in
    omega (arith, div-le_of_le-mul (keep - 1) scaled, pos)

picked :
    {o : Option ℕ} {r : Option (List ℕ)} {g : ℕ} {gs : List ℕ}
    → o ≡ some g
    → r ≡ some gs
    → pick o r ≡ some (g ∷ gs)
picked e f = rw (e, f) refl

spread-total :
    (sorted : List ℕ) (keep i : ℕ)
    → 1 ≤ length sorted
    → 2 ≤ keep
    → i ≤ keep
    → (gs : List ℕ) × (spread sorted keep i ≡ some gs)
unfolding spread
spread-total sorted keep zero pos two le = ([], refl)
spread-total sorted keep (suc i) pos two le =
    let (gs, e) = spread-total sorted keep i pos two (omega (arith, le)) in
    let (g, f) =
      get_elem_bounded sorted (i * (length sorted - 1) / (keep - 1))
        (index_bounded i (length sorted) keep pos two (omega (arith, le))) in
    (g ∷ gs, picked f e)

or_true : (b : Bool) → (b || true) ≡ true
or_true true = refl
or_true false = refl

retain-total :
    (x : ℕ) (xs : List ℕ) (keep : ℕ)
    → (gs : List ℕ) × (retain_by_spread x xs keep ≡ some gs) × (elem (last_of x xs) gs ≡ true)
unfolding retain_by_spread elem
retain-total x xs keep = elim (Bool-cases (leb keep 1)) [
  | inl one ↦ (last_of x xs ∷ [], rw one refl, rw (==_refl (last_of x xs)) refl)
  | inr more ↦
      let (gs, e) =
        spread-total (x ∷ xs) keep keep (omega arith) (leb-two keep more) (omega arith) in
      (
        gs ++ (last_of x xs ∷ []),
        rw (more, e) refl,
        elem-append (last_of x xs) gs (last_of x xs ∷ [])
            ∙ rw (==_refl (last_of x xs)) (or_true (elem (last_of x xs) gs)),
      )
]
  where
    leb-two : (keep : ℕ) → leb keep 1 ≡ false → 2 ≤ keep
    leb-two keep h = ground arith

leb-gt : (m n : ℕ) → leb m n ≡ false → n < m
leb-gt m n h = ground arith

abbrev Increasing : List ℕ → Type 0
Increasing [] = Unit
Increasing (x ∷ xs) = All (λ y. x < y) xs × Increasing xs

insert_sorted-above :
    (z x : ℕ) (ys : List ℕ) → z < x → All (λ y. z < y) ys → All (λ y. z < y) (insert_sorted x ys)
unfolding insert_sorted
insert_sorted-above z x [] lt h = (lt, tt)
insert_sorted-above z x (y ∷ ys) lt h =
    if_cases (All (λ y. z < y)) (ltb x y) _ _ (λ e. (lt, h))
      (λ e.
        if_cases (All (λ y. z < y)) (nat_beq x y) _ _ (λ e. h)
          (λ e. (h.0, insert_sorted-above z x ys lt h.1)))

All-above : (x y : ℕ) (ys : List ℕ) → x < y → All (λ z. y < z) ys → All (λ z. x < z) ys
All-above x y [] lt h = tt
All-above x y (z ∷ ys) lt h = (omega (arith, lt, h.0), All-above x y ys lt h.1)

insert_sorted-Increasing : (x : ℕ) (ys : List ℕ) → Increasing ys → Increasing (insert_sorted x ys)
unfolding insert_sorted
insert_sorted-Increasing x [] h = (tt, tt)
insert_sorted-Increasing x (y ∷ ys) h =
    if_cases Increasing (ltb x y) _ _
      (λ e. let lt : x < y = ground arith in ((lt, All-above x y ys lt h.0), h))
      (λ e.
        if_cases Increasing (nat_beq x y) _ _ (λ e. h)
          (λ f.
            let gt : y < x = ground arith in
            (insert_sorted-above y x ys gt h.0, insert_sorted-Increasing x ys h.1)))

sort_dedup-Increasing : (xs : List ℕ) → Increasing (sort_dedup xs)
unfolding sort_dedup
sort_dedup-Increasing [] = tt
sort_dedup-Increasing (x ∷ xs) =
    insert_sorted-Increasing x (sort_dedup xs) (sort_dedup-Increasing xs)

elem-insert_sorted :
    (d x : ℕ) (ys : List ℕ) → elem d (insert_sorted x ys) ≡ (nat_beq x d || elem d ys)
unfolding insert_sorted elem
elem-insert_sorted d x [] = refl
elem-insert_sorted d x (y ∷ ys) = ground (arith, elem-insert_sorted d x ys)

elem-sort_dedup : (d : ℕ) (xs : List ℕ) → elem d (sort_dedup xs) ≡ elem d xs
unfolding sort_dedup elem
elem-sort_dedup d [] = refl
elem-sort_dedup d (x ∷ xs) =
    elem-insert_sorted d x (sort_dedup xs) ∙ ap (λ b. nat_beq x d || b) (elem-sort_dedup d xs)

-- The last of an increasing list is above the others.
last_beyond : (x y : ℕ) (ys : List ℕ) → All (λ z. x < z) (y ∷ ys) → x < last_of y ys
last_beyond x y [] h = h.0
last_beyond x y (z ∷ ys) h = last_beyond x z ys h.1

last_above :
    (x : ℕ) (xs : List ℕ) (d : ℕ)
    → Increasing (x ∷ xs)
    → elem d (x ∷ xs) ≡ true
    → (d ≡ last_of x xs) ⊎ (d < last_of x xs)
unfolding elem
last_above x [] d inc m = elim (Bool-cases (nat_beq x d)) [
  | inl e ↦ inl (sym ((nat_eq.beq_iff x d).0 e))
  | inr e ↦ let clash : false ≡ true = rw e at m in absurd cc
]
last_above x (y ∷ ys) d inc m = elim (Bool-cases (nat_beq x d)) [
  | inl e ↦
      inr (subst (λ z. z < last_of y ys) ((nat_eq.beq_iff x d).0 e) (last_beyond x y ys inc.0))
  | inr e ↦ last_above y ys d inc.1 (rw e at m)
]

-- What a deleted generation is: one of the given, not protected, and below another that stays.
abbrev pub Prunable : List ℕ → List ℕ → List ℕ → ℕ → Type 0
Prunable generations protected deleted d =
    (elem d generations ≡ true)
    × (elem d protected ≡ false)
    × ((g : ℕ) × (elem g generations ≡ true) × (elem g deleted ≡ false) × (d < g))

last_member : (x : ℕ) (xs : List ℕ) → elem (last_of x xs) (x ∷ xs) ≡ true
unfolding elem
last_member x [] = rw (==_refl x) refl
last_member x (y ∷ ys) = rw (last_member y ys) (or_true (nat_beq x (last_of y ys)))

-- The Boolean content of a filter by what is retained.
unretained :
    (sorted spread protected deleted : Bool)
    → deleted ≡ (sorted && not (spread || (protected && sorted)))
    → deleted ≡ true
    → (sorted ≡ true) × (spread ≡ false) × (protected ≡ false)
unretained true true protected deleted e h = let clash : false ≡ true = sym e ∙ h in absurd cc
unretained true false true deleted e h = let clash : false ≡ true = sym e ∙ h in absurd cc
unretained true false false deleted e h = (refl, refl, refl)
unretained false spread protected deleted e h = let clash : false ≡ true = sym e ∙ h in absurd cc

module _ (x : ℕ) (xs protected gs : List ℕ) (last : elem (last_of x xs) gs ≡ true)
    (inc : Increasing (x ∷ xs)) where
  abbrev sorted : List ℕ
  sorted = x ∷ xs

  abbrev kept : List ℕ
  kept = gs ++ keep_if (λ p. elem p sorted) protected

  abbrev pruned : List ℕ
  pruned = keep_if (λ g. not (elem g kept)) sorted

  elem-pruned :
      (d : ℕ)
      → elem d pruned ≡ (elem d sorted && not (elem d gs || (elem d protected && elem d sorted)))
  elem-pruned d =
      elem-keep_if (λ g. not (elem g kept)) d sorted
      ∙ ap (λ b. elem d sorted && not b)
          (elem-append d gs (keep_if (λ p. elem p sorted) protected)
            ∙ ap (λ b. elem d gs || b) (elem-keep_if (λ p. elem p sorted) d protected))

  pruned-Prunable : (d : ℕ) → elem d pruned ≡ true → Prunable sorted protected pruned d
  pruned-Prunable d m =
      let (given, unspread, free) =
        unretained (elem d sorted) (elem d gs) (elem d protected) (elem d pruned) (elem-pruned d)
          m in
      (
        given,
        free,
        (
          last_of x xs,
          last_member x xs,
          elem-pruned (last_of x xs) ∙ rw (last_member x xs, last) refl,
          elim (last_above x xs d inc given) [
            | inl e ↦
                let clash : false ≡ true = sym unspread ∙ ap (λ i. elem i gs) e ∙ last in absurd cc
            | inr lt ↦ lt
          ],
        ),
      )

delete_from-Prunable :
    (sorted : List ℕ) (keep : ℕ) (protected : List ℕ)
    → Increasing sorted
    → (deleted : List ℕ) × (delete_from sorted keep protected ≡ some deleted)
      × ((keep < length sorted) ⊎ (deleted ≡ []))
      × ((d : ℕ) → elem d deleted ≡ true → Prunable sorted protected deleted d)
unfolding elem
delete_from-Prunable [] keep protected inc = ([], refl, inr refl, λ d m. cc)
delete_from-Prunable (x ∷ xs) keep protected inc = elim (Bool-cases (leb (length (x ∷ xs)) keep)) [
  | inl few ↦ ([], rw few refl, inr refl, λ d m. cc)
  | inr many ↦
      let (gs, e, last) = retain-total x xs keep in
      (
        pruned x xs protected gs last inc,
        rw (many, e) refl,
        inl (leb-gt (length (x ∷ xs)) keep many),
        pruned-Prunable x xs protected gs last inc,
      )
]

All-elem : (P : ℕ → Type 0) (xs : List ℕ) → ((d : ℕ) → elem d xs ≡ true → P d) → All P xs
unfolding elem
All-elem P [] h = tt
All-elem P (x ∷ xs) h =
    (h x (rw (==_refl x) refl), All-elem P xs (λ d m. h d (rw m (or_true (nat_beq x d)))))

-- Pruning never panics on an index, for any `keep`. It deletes nothing where there are no more
-- than `keep` distinct generations, and every generation that it deletes is one of the profile,
-- is not protected, and is below a generation of the profile that stays: so the highest one stays.
pub nix_pruning_safe :
    (generations : List ℕ) (keep : ℕ) (protected : List ℕ)
    → (deleted : List ℕ) × (nix_generations_to_delete_protecting generations keep protected
        ≡ some deleted)
      × ((keep < length (sort_dedup generations)) ⊎ (deleted ≡ []))
      × All (Prunable generations protected deleted) deleted
unfolding nix_generations_to_delete_protecting
nix_pruning_safe generations keep protected =
    let (deleted, e, few, prunable) =
      delete_from-Prunable (sort_dedup generations) keep protected
        (sort_dedup-Increasing generations) in
    (
      deleted,
      e,
      few,
      All-elem _ deleted (λ d m.
          let (given, free, (g, member, stays, lt)) = prunable d m in
          (
            sym (elem-sort_dedup d generations) ∙ given,
            free,
            (g, sym (elem-sort_dedup g generations) ∙ member, stays, lt),
          )),
    )
