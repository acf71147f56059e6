-- ===== src/Nice/Floors.antt =====
-- The range and the monotony of `graduated_nice_value` and `memory_offender_nice_value`.
use dracon_system_disk_proce.Common.{◌<◌, leb, ℕ, ◌≤◌, ◌≡◌, ◌⊎◌, arith, Bool-cases, inl, inr}
use dracon_system_disk_proce.Common.Signed.{ℤ, pos, ◌≤ℤ◌}
use dracon_system_disk_proce.Policy.Float.{Float}
use dracon_system_disk_proce.Nice.{
  ProcSample, graduated_nice_value, memory_offender_nice_value, cpu_nice, mem_nice,
  memory_pressure_footprint_mb, combine_nice,
}

mem_nice-tiers :
    (footprint : ℕ)
    → (8192 ≤ footprint → pos 10 ≤ℤ mem_nice footprint)
      × (4096 ≤ footprint → pos 5 ≤ℤ mem_nice footprint)
      × (mem_nice footprint ≤ℤ pos 19)
unfolding mem_nice
mem_nice-tiers footprint = (λ h. ground arith, λ h. ground arith, ground arith)

mem_nice-mono : (m n : ℕ) → m ≤ n → mem_nice m ≤ℤ mem_nice n
unfolding mem_nice
mem_nice-mono m n h = ground arith

combine_nice-range :
    (a b current : ℤ)
    → current ≤ℤ pos 19
    → let target = combine_nice a b current in
      (current ≤ℤ target) × (pos 0 ≤ℤ target) × (target ≤ℤ pos 19) × (b ≤ℤ pos 19 → b ≤ℤ target)
unfolding combine_nice
combine_nice-range a b current h = (ground arith, ground arith, ground arith, λ k. ground arith)

combine_nice-mono :
    (a b c current : ℤ) → b ≤ℤ c → combine_nice a b current ≤ℤ combine_nice a c current
unfolding combine_nice
combine_nice-mono a b c current h = ground arith

tier : {P : Type 0} → (limit footprint : ℕ) → (limit ≤ footprint → P) → (footprint < limit) ⊎ P
tier limit footprint f = elim (Bool-cases (leb limit footprint)) [
  | inl e ↦ inr (f (ground arith))
  | inr e ↦ inl (ground arith)
]

-- For a process whose nice value is at most 19, the target is a legal nice value that is not below
-- the current one, and at least 10 from 8192 MiB and 5 from 4096 MiB.
pub graduated_nice_value_range :
    (cpu : Float) (footprint : ℕ) (base current : ℤ)
    → current ≤ℤ pos 19
    → let target = graduated_nice_value cpu footprint base current in
      (current ≤ℤ target)
      × (pos 0 ≤ℤ target)
      × (target ≤ℤ pos 19)
      × ((footprint < 8192) ⊎ (pos 10 ≤ℤ target))
      × ((footprint < 4096) ⊎ (pos 5 ≤ℤ target))
unfolding graduated_nice_value
graduated_nice_value_range cpu footprint base current h =
    let r = combine_nice-range (cpu_nice cpu base) (mem_nice footprint) current h in
    let t = mem_nice-tiers footprint in
    (
      r.0,
      r.1,
      r.2,
      tier 8192 footprint (λ k. omega (arith, t.0 k, r.3 t.2)),
      tier 4096 footprint (λ k. omega (arith, t.1 k, r.3 t.2)),
    )

-- Of two processes with the same CPU use and nice value, the one with the larger footprint never
-- gets the smaller target.
pub memory_offender_nice_value_mono :
    (p q : ProcSample) (base : ℤ)
    → p.cpu_percent ≡ q.cpu_percent
    → p.nice ≡ q.nice
    → memory_pressure_footprint_mb p ≤ memory_pressure_footprint_mb q
    → memory_offender_nice_value p base ≤ℤ memory_offender_nice_value q base
unfolding memory_offender_nice_value graduated_nice_value memory_pressure_footprint_mb
memory_offender_nice_value_mono p q base e f h =
    rw (e, f) (combine_nice-mono (cpu_nice q.cpu_percent base) _ _ q.nice (mem_nice-mono _ _ h))
