-- ===== src/Pressure/Sample.antt =====
-- The percentages of a memory sample, and its classification.
use dracon_system_disk_proce.Common.{
  ℕ, ◌≤◌, ◌≡◌, refl, Bool, true, false, min, arith, if_cases, nat_beq,
}
use dracon_system_disk_proce.Pressure.{
  MemorySample, mem_available_percent, swap_used_percent, classify_memory_pressure,
}

min_right : (m n : ℕ) → min m n ≤ n
min_right m n = omega arith

-- Both percentages are at most 100, whatever the kernel reports.
percents_bounded :
    (s : MemorySample) → (mem_available_percent s ≤ 100) × (swap_used_percent s ≤ 100)
unfolding mem_available_percent swap_used_percent
percents_bounded s = (
  if_cases (λ n. n ≤ 100) (nat_beq s.mem_total_kb 0) _ _ (λ h. omega arith) (λ h. min_right _ 100),
  if_cases (λ n. n ≤ 100) (nat_beq s.swap_total_kb 0) _ _ (λ h. omega arith) (λ h. min_right _ 100),
)

-- Swap occupancy alone is no pressure.
swap_alone : (swap_high : Bool) → classify_memory_pressure false swap_high false ≡ "ok"
unfolding classify_memory_pressure
swap_alone true = refl
swap_alone false = refl
