-- ===== src/Policy/Knobs.antt =====
-- The four macros of `normalize_guard_policy_with_home`. Each returns the value and the names that
-- it pushes onto `adjusted`.
use dracon_system_disk_proce.Common.{
  ℕ, ◌-◌, ◌≤◌, ◌<◌, min, max, ◌≡◌, Bool, true, false, List, [], ◌∷◌, ◌++◌, String, ltb, leb,
  if◌then◌else◌, arith, ◌||◌, refl, subst, inl, inr, Bool-cases,
}
use dracon_system_disk_proce.Common.Signed.{ℤ, ltb_ℤ, max_ℤ, min_ℤ, ◌≤ℤ◌}
use dracon_system_disk_proce.Policy.Float.{
  Float, finite, max_float, min_float, ne_float, Within, min-max-Within, min-max_of_Within,
  ne_float→≡,
}

-- A normalised value with the names pushed onto `adjusted`.
abbrev pub Adjusted : Type 0 → Type 0
Adjusted A = A × List String

unfoldable pub floor : String → ℕ → ℕ → Adjusted ℕ
floor name lo v = if ltb v lo then (lo, name ∷ []) else (v, [])

unfoldable pub ceil : String → ℕ → ℕ → Adjusted ℕ
ceil name hi v = if ltb hi v then (hi, name ∷ []) else (v, [])

unfoldable pub band : String → ℕ → ℕ → ℕ → Adjusted ℕ
band name lo hi v = if ltb v lo || ltb hi v then (min (max v lo) hi, name ∷ []) else (v, [])

unfoldable pub band_ℤ : String → ℤ → ℤ → ℤ → Adjusted ℤ
band_ℤ name lo hi v =
    if ltb_ℤ v lo || ltb_ℤ hi v then (min_ℤ (max_ℤ v lo) hi, name ∷ []) else (v, [])

unfoldable pub fband : String → Float → Float → Float → Adjusted Float
fband name lo hi v =
    let after = min_float (max_float v lo) hi in
    if ne_float after v then (after, name ∷ []) else (v, [])

-- `if v >= limit { push; v = limit.saturating_sub(1).max(1) }`
unfoldable pub below : String → ℕ → ℕ → Adjusted ℕ
below name limit v = if leb limit v then (max (limit - 1) 1, name ∷ []) else (v, [])

pub floor-value : (n : String) (lo v : ℕ) → (floor n lo v).0 ≡ max v lo
unfolding floor
floor-value n lo v = ground arith

pub ceil-value : (n : String) (hi v : ℕ) → (ceil n hi v).0 ≡ min v hi
unfolding ceil
ceil-value n hi v = ground arith

pub band-value : (n : String) (lo hi v : ℕ) → lo ≤ hi → (band n lo hi v).0 ≡ min (max v lo) hi
unfolding band
band-value n lo hi v h = ground arith

-- Nothing is pushed exactly when the value was in range.
pub floor-silent : (n : String) (lo v : ℕ) → (floor n lo v).1 ≡ [] → lo ≤ v
unfolding floor
floor-silent n lo v h = ground arith

pub silent-floor : (n : String) (lo v : ℕ) → lo ≤ v → floor n lo v ≡ (v, [])
unfolding floor
silent-floor n lo v h = ground arith

pub silent-ceil : (n : String) (hi v : ℕ) → v ≤ hi → ceil n hi v ≡ (v, [])
unfolding ceil
silent-ceil n hi v h = ground arith

pub silent-band : (n : String) (lo hi v : ℕ) → lo ≤ v → v ≤ hi → band n lo hi v ≡ (v, [])
unfolding band
silent-band n lo hi v h k = ground arith

pub silent-below : (n : String) (limit v : ℕ) → v < limit → below n limit v ≡ (v, [])
unfolding below
silent-below n limit v h = ground arith

pub below_bound : (n : String) (limit v : ℕ) → 2 ≤ limit → (below n limit v).0 < limit
unfolding below
below_bound n limit v h = ground arith

pub below-pos : (n : String) (limit v : ℕ) → 1 ≤ v → 1 ≤ (below n limit v).0
unfolding below
below-pos n limit v h = ground arith

-- A knob leaves its own result alone.
pub below-below :
    (n : String) (limit v : ℕ) → (below n limit (below n limit v).0).0 ≡ (below n limit v).0
unfolding below
below-below n limit v = ground arith

-- Where nothing is pushed, nothing changes.
pub floor-quiet : (n : String) (lo v : ℕ) → (floor n lo v).1 ≡ [] → (floor n lo v).0 ≡ v
unfolding floor
floor-quiet n lo v h = ground arith

pub ceil-quiet : (n : String) (hi v : ℕ) → (ceil n hi v).1 ≡ [] → (ceil n hi v).0 ≡ v
unfolding ceil
ceil-quiet n hi v h = ground arith

pub band-quiet : (n : String) (lo hi v : ℕ) → (band n lo hi v).1 ≡ [] → (band n lo hi v).0 ≡ v
unfolding band
band-quiet n lo hi v h = ground arith

pub below-quiet : (n : String) (limit v : ℕ) → (below n limit v).1 ≡ [] → (below n limit v).0 ≡ v
unfolding below
below-quiet n limit v h = ground arith

pub ruleset knob_values = (arith, floor-value, ceil-value, band-value, below_bound, below-pos)

pub below-le :
    (n : String) (limit v hi : ℕ) → v ≤ hi → limit ≤ hi → 1 ≤ hi → (below n limit v).0 ≤ hi
unfolding below
below-le n limit v hi h k p = ground arith

pub below-noisy : (n : String) (limit v : ℕ) → limit ≤ v → (below n limit v).1 ≡ n ∷ []
unfolding below
below-noisy n limit v h = ground arith

-- A float knob always ends within its finite bounds, whatever it was: a NaN or an infinity too.
pub fband-Within :
    (n : String) (lo hi : ℤ) (x : Float)
    → ltb_ℤ hi lo ≡ false
    → Within lo hi (fband n (finite lo) (finite hi) x).0
unfolding fband
fband-Within n lo hi x h =
    elim (Bool-cases (ne_float (min_float (max_float x (finite lo)) (finite hi)) x)) [
      | inl e ↦ rw e (min-max-Within lo hi x h)
      | inr e ↦ rw e (subst (Within lo hi) (ne_float→≡ _ x e) (min-max-Within lo hi x h))
    ]

pub silent-fband :
    (n : String) (lo hi : ℤ) (x : Float)
    → Within lo hi x
    → fband n (finite lo) (finite hi) x ≡ (x, [])
unfolding fband
silent-fband n lo hi x w = rw (min-max_of_Within lo hi x w) (rw w.2 refl)

pub band_ℤ-range :
    (n : String) (lo hi v : ℤ)
    → lo ≤ℤ hi
    → (lo ≤ℤ (band_ℤ n lo hi v).0) × ((band_ℤ n lo hi v).0 ≤ℤ hi)
unfolding band_ℤ
band_ℤ-range n lo hi v h = ground arith

pub silent-band_ℤ : (n : String) (lo hi v : ℤ) → lo ≤ℤ v → v ≤ℤ hi → band_ℤ n lo hi v ≡ (v, [])
unfolding band_ℤ
silent-band_ℤ n lo hi v h k = ground arith
