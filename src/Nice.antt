-- ===== src/Nice.antt =====
-- main.rs: the nice value that the guard gives to a heavy process.
pub mod Floors
use dracon_system_disk_proce.Common.{
  ℕ, ◌+◌, ◌≡◌, Option, none, some, String, leb, if◌then◌else◌, saturating_add,
}
use dracon_system_disk_proce.Common.Signed.{ℤ, pos, max_ℤ, clamp}
use dracon_system_disk_proce.Policy.Float.{Float, halves, geb_float}

-- One row of the process table. `swap_mb` is `none` where the swap could not be measured.
pub record ProcSample : Type 0 where
  pub pid : ℤ
  pub ppid : ℤ
  pub cpu_percent : Float
  pub rss_mb : ℕ
  pub swap_mb : Option ℕ
  pub nice : ℤ
  pub command : String
  pub args : String
  pub starttime : ℕ

abbrev known_swap : Option ℕ → ℕ
known_swap none = 0
known_swap (some mb) = mb

unfoldable pub memory_pressure_footprint_mb : ProcSample → ℕ
memory_pressure_footprint_mb p = saturating_add p.rss_mb (known_swap p.swap_mb)

-- The first CPU tier that is reached, or the base value.
unfoldable pub cpu_nice : Float → ℤ → ℤ
cpu_nice cpu base =
    if geb_float cpu (halves 1000)
    then pos 15
    else if geb_float cpu (halves 600)
    then pos 10
    else if geb_float cpu (halves 360)
    then pos 5
    else base

unfoldable pub mem_nice : ℕ → ℤ
mem_nice footprint_mb =
    if leb 8192 footprint_mb then pos 10 else if leb 4096 footprint_mb then pos 5 else pos 0

-- `cpu_nice.max(mem_nice).clamp(0, 19).max(current_nice)`
unfoldable pub combine_nice : ℤ → ℤ → ℤ → ℤ
combine_nice cpu mem current_nice = max_ℤ (clamp (pos 0) (pos 19) (max_ℤ cpu mem)) current_nice

unfoldable pub graduated_nice_value : Float → ℕ → ℤ → ℤ → ℤ
graduated_nice_value cpu_percent footprint_mb base_nice current_nice =
    combine_nice (cpu_nice cpu_percent base_nice) (mem_nice footprint_mb) current_nice

unfoldable pub memory_offender_nice_value : ProcSample → ℤ → ℤ
memory_offender_nice_value p base_nice =
    graduated_nice_value p.cpu_percent (memory_pressure_footprint_mb p) base_nice p.nice
