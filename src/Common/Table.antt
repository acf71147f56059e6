-- ===== src/Common/Table.antt =====
-- `HashMap` as an association list: one entry for each key that was inserted. The order of the
-- entries stands for the iteration order, which the program does not rely on.
use mathlib.Core.Path.{◌≡◌, refl}
use mathlib.Core.Bool.{true, Bool, not}
use mathlib.Core.List.{List, [], ◌∷◌}
use mathlib.Core.Option.{Option, none, some}
use native.Mathlib.Omega.{arith}
use mathlib.Core.Logic.{inl, inr}
use dracon_system_disk_proce.Common.Lists.{elem}
use dracon_system_disk_proce.Common.Tests.{Bool-cases, Eq, ◌==◌, if◌then◌else◌, is_none}

module _ {ℓ κ} {K : Type ℓ} {V : Type κ} ⦃e : Eq K⦄ where
  unfoldable pub get : List (K × V) → K → Option V
  get [] k = none
  get ((j, v) ∷ m) k = if j == k then some v else get m k

  unfoldable pub insert : List (K × V) → K → V → List (K × V)
  insert [] k v = (k, v) ∷ []
  insert ((j, w) ∷ m) k v = if j == k then (k, v) ∷ m else (j, w) ∷ insert m k v

  unfoldable pub remove : List (K × V) → K → List (K × V)
  remove [] k = []
  remove ((j, v) ∷ m) k = if j == k then remove m k else (j, v) ∷ remove m k

  unfoldable pub contains_key : List (K × V) → K → Bool
  unfolding get
  contains_key m k = not (is_none (get m k))

  unfoldable pub retain : (K → V → Bool) → List (K × V) → List (K × V)
  retain p [] = []
  retain p ((j, v) ∷ m) = if p j v then (j, v) ∷ retain p m else retain p m

  unfoldable pub keys : List (K × V) → List K
  keys [] = []
  keys ((j, v) ∷ m) = j ∷ keys m

  pub get-insert :
      (m : List (K × V)) (k j : K) (v : V)
      → get (insert m k v) j ≡ (if k == j then some v else get m j)
  unfolding get insert
  get-insert [] k j v = refl
  get-insert ((i, w) ∷ m) k j v =
      ground (arith, e.beq_iff k j, e.beq_iff i k, e.beq_iff i j, get-insert m k j v)

  pub get-remove :
      (m : List (K × V)) (k j : K) → get (remove m k) j ≡ (if k == j then none else get m j)
  unfolding get remove
  get-remove [] k j = ground arith
  get-remove ((i, w) ∷ m) k j =
      ground (arith, e.beq_iff k j, e.beq_iff i k, e.beq_iff i j, get-remove m k j)

  pub elem-keys : (m : List (K × V)) (k : K) (v : V) → get m k ≡ some v → elem k (keys m) ≡ true
  unfolding get keys elem
  elem-keys [] k v h = cc
  elem-keys ((j, w) ∷ m) k v h = elim (Bool-cases (j == k)) [
    | inl same ↦ rw same refl
    | inr other ↦ rw other (elem-keys m k v (rw other at h))
  ]

  -- A table in which no key is found is empty.
  pub get-none→nil : (m : List (K × V)) → ((k : K) → get m k ≡ none) → m ≡ []
  unfolding get
  get-none→nil [] h = refl
  get-none→nil ((j, w) ∷ m) h = absurd (cc (rw ((e.beq_iff j j).1 refl) at (h j)))

  pub contains_key-get :
      (m : List (K × V)) (k : K) (v : V) → get m k ≡ some v → contains_key m k ≡ true
  unfolding contains_key
  contains_key-get m k v h = rw h refl

  -- An entry that is found and passes the test is still found.
  pub get-retain :
      (p : K → V → Bool) (m : List (K × V)) (k : K) (v : V)
      → get m k ≡ some v
      → p k v ≡ true
      → get (retain p m) k ≡ some v
  unfolding get retain
  get-retain p [] k v h t = cc
  get-retain p ((j, w) ∷ m) k v h t = ground (arith, e.beq_iff j k, get-retain p m k v)
