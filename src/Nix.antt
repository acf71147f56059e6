-- ===== src/Nix.antt =====
-- main.rs: which generations of a Nix profile are pruned.
pub mod Retained
use dracon_system_disk_proce.Common.{
  ℕ, zero, suc, ◌+◌, ◌-◌, ◌*◌, ◌/◌, leb, ltb, nat_beq, Bool, true, false, not, ◌||◌, Option, none,
  some, List, [], ◌∷◌, ◌++◌, if◌then◌else◌, length, get_elem?, elem, keep_if, nat_eq,
}

-- `sort_unstable` and `dedup`.
unfoldable pub insert_sorted : ℕ → List ℕ → List ℕ
insert_sorted x [] = x ∷ []
insert_sorted x (y ∷ ys) =
    let rest = insert_sorted x ys in
    if ltb x y then x ∷ y ∷ ys else if nat_beq x y then y ∷ ys else y ∷ rest

unfoldable pub sort_dedup : List ℕ → List ℕ
unfolding insert_sorted
sort_dedup [] = []
sort_dedup (x ∷ xs) = insert_sorted x (sort_dedup xs)

abbrev pub pick : Option ℕ → Option (List ℕ) → Option (List ℕ)
pick none gs = none
pick (some g) none = none
pick (some g) (some gs) = some (g ∷ gs)

abbrev pub with_last : ℕ → Option (List ℕ) → Option (List ℕ)
with_last g none = none
with_last g (some gs) = some (gs ++ (g ∷ []))

-- `sorted[i * (sorted.len() - 1) / (keep - 1)]` for the first `rounds` values of `i`, counted
-- down; `none` stands for an index out of bounds, at which the program panics.
unfoldable pub spread : List ℕ → ℕ → ℕ → Option (List ℕ)
spread sorted keep zero = some []
spread sorted keep (suc i) =
    let rest = spread sorted keep i in
    pick (get_elem? sorted (i * (length sorted - 1) / (keep - 1))) rest

abbrev pub last_of : ℕ → List ℕ → ℕ
last_of x [] = x
last_of x (y ∷ ys) = last_of y ys

unfoldable pub retain_by_spread : ℕ → List ℕ → ℕ → Option (List ℕ)
unfolding spread
retain_by_spread x xs keep =
    if leb keep 1
    then some (last_of x xs ∷ [])
    else with_last (last_of x xs) (spread (x ∷ xs) keep keep)

abbrev pub delete_unretained : List ℕ → List ℕ → Option (List ℕ) → Option (List ℕ)
delete_unretained sorted protected none = none
delete_unretained sorted protected (some spread) =
    some (keep_if (λ g. not (elem g (spread ++ keep_if (λ p. elem p sorted) protected))) sorted)

abbrev pub delete_from : List ℕ → ℕ → List ℕ → Option (List ℕ)
delete_from [] keep protected = some []
delete_from (x ∷ xs) keep protected =
    if leb (length (x ∷ xs)) keep
    then some []
    else delete_unretained (x ∷ xs) protected (retain_by_spread x xs keep)

unfoldable pub nix_generations_to_delete_protecting : List ℕ → ℕ → List ℕ → Option (List ℕ)
unfolding sort_dedup retain_by_spread
nix_generations_to_delete_protecting generations keep protected =
    delete_from (sort_dedup generations) keep protected
