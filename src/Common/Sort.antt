-- ===== src/Common/Sort.antt =====
-- `sort_by` as a stable insertion sort: what it moves, it keeps.
use mathlib.Core.Path.{◌≡◌}
use mathlib.Core.Bool.{Bool}
use mathlib.Core.List.{List, [], ◌∷◌, Memᴰ}
use mathlib.Core.Logic.{◌⊎◌, inl, inr}
use dracon_system_disk_proce.Common.Tests.{if◌then◌else◌, Bool-cases}

module _ {ℓ} {A : Type ℓ} where
  unfoldable pub insert_by : (A → A → Bool) → A → List A → List A
  insert_by le x [] = x ∷ []
  insert_by le x (y ∷ ys) = if le x y then x ∷ y ∷ ys else y ∷ insert_by le x ys

  -- `le x y` says that `x` need not stand behind `y`.
  unfoldable pub sort_by : (A → A → Bool) → List A → List A
  unfolding insert_by
  sort_by le [] = []
  sort_by le (x ∷ xs) = insert_by le x (sort_by le xs)

  pub Mem-insert_by :
      (le : A → A → Bool) (a x : A) (ys : List A)
      → ((a ≡ x) ⊎ Memᴰ a ys)
      → Memᴰ a (insert_by le x ys)
  unfolding insert_by
  Mem-insert_by le a x [] (inl e) = Memᴰ.head e
  Mem-insert_by le a x [] (inr m) = elim m [ ]
  Mem-insert_by le a x (y ∷ ys) h = elim (Bool-cases (le x y)) [
    | inl e ↦ rw e (front h)
    | inr e ↦ rw e (back h (λ k. Mem-insert_by le a x ys k))
  ]
    where
      front : (a ≡ x) ⊎ Memᴰ a (y ∷ ys) → Memᴰ a (x ∷ y ∷ ys)
      front (inl e) = Memᴰ.head e
      front (inr m) = Memᴰ.tail m

      back :
          (a ≡ x) ⊎ Memᴰ a (y ∷ ys)
          → ((a ≡ x) ⊎ Memᴰ a ys → Memᴰ a (insert_by le x ys))
          → Memᴰ a (y ∷ insert_by le x ys)
      back (inl e) k = Memᴰ.tail (k (inl e))
      back (inr (Memᴰ.head e)) k = Memᴰ.head e
      back (inr (Memᴰ.tail m)) k = Memᴰ.tail (k (inr m))

  pub Mem-sort_by : (le : A → A → Bool) (a : A) (xs : List A) → Memᴰ a xs → Memᴰ a (sort_by le xs)
  unfolding sort_by
  Mem-sort_by le a [] m = elim m [ ]
  Mem-sort_by le a (x ∷ xs) (Memᴰ.head e) = Mem-insert_by le a x (sort_by le xs) (inl e)
  Mem-sort_by le a (x ∷ xs) (Memᴰ.tail m) =
      Mem-insert_by le a x (sort_by le xs) (inr (Mem-sort_by le a xs m))

  pub insert_by-Mem :
      (le : A → A → Bool) (a x : A) (ys : List A) → Memᴰ a (insert_by le x ys) → (a ≡ x) ⊎ Memᴰ a ys
  unfolding insert_by
  insert_by-Mem le a x [] (Memᴰ.head e) = inl e
  insert_by-Mem le a x [] (Memᴰ.tail m) = inr m
  insert_by-Mem le a x (y ∷ ys) h = elim (Bool-cases (le x y)) [
    | inl e ↦ front (rw e at h)
    | inr e ↦ back (rw e at h) (λ k. insert_by-Mem le a x ys k)
  ]
    where
      front : Memᴰ a (x ∷ y ∷ ys) → (a ≡ x) ⊎ Memᴰ a (y ∷ ys)
      front (Memᴰ.head e) = inl e
      front (Memᴰ.tail m) = inr m

      keep : (a ≡ x) ⊎ Memᴰ a ys → (a ≡ x) ⊎ Memᴰ a (y ∷ ys)
      keep (inl e) = inl e
      keep (inr m) = inr (Memᴰ.tail m)

      back :
          Memᴰ a (y ∷ insert_by le x ys)
          → (Memᴰ a (insert_by le x ys) → (a ≡ x) ⊎ Memᴰ a ys)
          → (a ≡ x) ⊎ Memᴰ a (y ∷ ys)
      back (Memᴰ.head e) k = inr (Memᴰ.head e)
      back (Memᴰ.tail m) k = keep (k m)

  pub sort_by-Mem : (le : A → A → Bool) (a : A) (xs : List A) → Memᴰ a (sort_by le xs) → Memᴰ a xs
  unfolding sort_by
  sort_by-Mem le a [] m = m
  sort_by-Mem le a (x ∷ xs) m = elim (insert_by-Mem le a x (sort_by le xs) m) [
    | inl e ↦ Memᴰ.head e
    | inr k ↦ Memᴰ.tail (sort_by-Mem le a xs k)
  ]
