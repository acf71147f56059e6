-- ===== src/Policy/Float.antt =====
-- `f32` and `f64` thresholds as far as comparison, `max` and `min` go. A finite value is a whole
-- multiple of 2^-1074, the spacing of the subnormal `f64` values, so no comparison is rounded.
use dracon_system_disk_proce.Common.{
  ℕ, ◌^◌, ◌*◌, ◌≡◌, refl, Bool, true, false, if◌then◌else◌, arith, not,
}
use dracon_system_disk_proce.Common.Signed.{ℤ, pos, ltb_ℤ, beq_ℤ, beq_ℤ_iff}

pub data Float : Type 0 where
  nan : Float
  neg_inf : Float
  finite : ℤ → Float
  pos_inf : Float

-- `n` halves, in units of 2^-1074.
unfoldable pub halves : ℕ → Float
halves n = finite (pos (n * 2 ^ 1073))

-- `<` of IEEE 754: false at a NaN.
abbrev pub ltb_float : Float → Float → Bool
ltb_float nan b = false
ltb_float neg_inf nan = false
ltb_float neg_inf neg_inf = false
ltb_float neg_inf b = true
ltb_float (finite a) (finite b) = ltb_ℤ a b
ltb_float (finite a) pos_inf = true
ltb_float (finite a) b = false
ltb_float pos_inf b = false

-- `f64::max` and `f64::min` return the operand that is not a NaN.
abbrev pub max_float : Float → Float → Float
max_float nan b = b
max_float a nan = a
max_float a b = if ltb_float a b then b else a

abbrev pub min_float : Float → Float → Float
min_float nan b = b
min_float a nan = a
min_float a b = if ltb_float b a then b else a

-- `!=`: true at a NaN.
abbrev pub ne_float : Float → Float → Bool
ne_float neg_inf neg_inf = false
ne_float pos_inf pos_inf = false
ne_float (finite a) (finite b) = not (beq_ℤ a b)
ne_float a b = true

-- Within finite bounds, neither a NaN nor an infinity.
abbrev pub Within : ℤ → ℤ → Float → Type 0
Within lo hi x =
    (ltb_float x (finite lo) ≡ false) × (ltb_float (finite hi) x ≡ false) × (ne_float x x ≡ false)

pub min-max-Within :
    (lo hi : ℤ) (x : Float)
    → ltb_ℤ hi lo ≡ false
    → Within lo hi (min_float (max_float x (finite lo)) (finite hi))
min-max-Within lo hi nan h = ground (arith, beq_ℤ_iff lo lo, beq_ℤ_iff hi hi)
min-max-Within lo hi neg_inf h = ground (arith, beq_ℤ_iff lo lo, beq_ℤ_iff hi hi)
min-max-Within lo hi (finite a) h = ground (arith, beq_ℤ_iff lo lo, beq_ℤ_iff hi hi, beq_ℤ_iff a a)
min-max-Within lo hi pos_inf h = ground (arith, beq_ℤ_iff lo lo, beq_ℤ_iff hi hi)

pub min-max_of_Within :
    (lo hi : ℤ) (x : Float) → Within lo hi x → min_float (max_float x (finite lo)) (finite hi) ≡ x
min-max_of_Within lo hi nan h = ground arith
min-max_of_Within lo hi neg_inf h = ground arith
min-max_of_Within lo hi (finite a) h = ground arith
min-max_of_Within lo hi pos_inf h = ground arith

pub ne_float→≡ : (x y : Float) → ne_float x y ≡ false → x ≡ y
ne_float→≡ nan y h = ground arith
ne_float→≡ neg_inf neg_inf h = refl
ne_float→≡ neg_inf nan h = ground arith
ne_float→≡ neg_inf (finite b) h = ground arith
ne_float→≡ neg_inf pos_inf h = ground arith
ne_float→≡ (finite a) (finite b) h = ground (arith, beq_ℤ_iff a b)
ne_float→≡ (finite a) nan h = ground arith
ne_float→≡ (finite a) neg_inf h = ground arith
ne_float→≡ (finite a) pos_inf h = ground arith
ne_float→≡ pos_inf pos_inf h = refl
ne_float→≡ pos_inf nan h = ground arith
ne_float→≡ pos_inf neg_inf h = ground arith
ne_float→≡ pos_inf (finite b) h = ground arith

-- `>=` of IEEE 754: false at a NaN.
abbrev pub geb_float : Float → Float → Bool
geb_float nan b = false
geb_float neg_inf nan = false
geb_float (finite a) nan = false
geb_float pos_inf nan = false
geb_float a b = not (ltb_float a b)
