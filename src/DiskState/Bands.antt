-- ===== src/DiskState/Bands.antt =====
-- The disk state under a normalised policy.
use dracon_system_disk_proce.Common.{
  ℕ, ◌≤◌, ◌≡◌, refl, ◌↔◌, inl, inr, String, Bool-cases, leb, string_eq, if◌then◌else◌, arith,
}
use dracon_system_disk_proce.Policy.Disk.{DiskBands, normalize_disk}
use dracon_system_disk_proce.Policy.Disk.Order.{IsOrdered, normalize_disk-IsOrdered}
use dracon_system_disk_proce.DiskState.{disk_state}

-- How bad a state is.
abbrev pub severity : String → ℕ
severity s =
    if string_eq.beq s "critical"
    then 3
    else if string_eq.beq s "action"
    then 2
    else if string_eq.beq s "warn"
    then 1
    else 0

abbrev level : DiskBands → ℕ → ℕ
level g used =
    if leb g.disk_critical_percent used
    then 3
    else if leb g.disk_action_percent used
    then 2
    else if leb g.disk_warn_percent used
    then 1
    else 0

severity-disk_state : (g : DiskBands) (used : ℕ) → severity (disk_state used g) ≡ level g used
unfolding disk_state
severity-disk_state g used = elim (Bool-cases (leb g.disk_critical_percent used)) [
  | inl c ↦ rw c refl
  | inr c ↦ elim (Bool-cases (leb g.disk_action_percent used)) [
    | inl a ↦ rw (c, a) refl
    | inr a ↦ elim (Bool-cases (leb g.disk_warn_percent used)) [
      | inl w ↦ rw (c, a, w) refl
      | inr w ↦ rw (c, a, w) refl
    ]
  ]
]

-- `n` is the level of `used` in the ordered bands `g`.
abbrev Banded : DiskBands → ℕ → ℕ → Type 0
Banded g used n =
    ((3 ≤ n) ↔ (g.disk_critical_percent ≤ used))
    × ((2 ≤ n) ↔ (g.disk_action_percent ≤ used))
    × ((1 ≤ n) ↔ (g.disk_warn_percent ≤ used))

level-Banded : (g : DiskBands) (used : ℕ) → IsOrdered g → Banded g used (level g used)
level-Banded g used o = (
  (λ h. ground arith, λ h. ground arith),
  (λ h. ground arith, λ h. ground arith),
  (λ h. ground arith, λ h. ground arith),
)

level_mono : (g : DiskBands) (used more : ℕ) → used ≤ more → level g used ≤ level g more
level_mono g used more h = ground arith

-- More use is never a milder state, and on a normalised policy the states are exactly the bands
-- between the thresholds.
pub disk_state_bands :
    (d : DiskBands) (used more : ℕ)
    → used ≤ more
    → let g = (normalize_disk d).0 in
      let n = severity (disk_state used g) in
      (n ≤ severity (disk_state more g))
      × ((3 ≤ n) ↔ (g.disk_critical_percent ≤ used))
      × ((2 ≤ n) ↔ (g.disk_action_percent ≤ used))
      × ((1 ≤ n) ↔ (g.disk_warn_percent ≤ used))
disk_state_bands d used more h =
    let g = (normalize_disk d).0 in
    let b : Banded g used (severity (disk_state used g)) =
      rw (severity-disk_state g used) (level-Banded g used (normalize_disk-IsOrdered d)) in
    (
      rw (severity-disk_state g used, severity-disk_state g more) (level_mono g used more h),
      b.0,
      b.1,
      b.2,
    )
