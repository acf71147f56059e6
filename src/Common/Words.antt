-- ===== src/Common/Words.antt =====
-- Saturating arithmetic of `u64`, instants in nanoseconds, and the characters of a text.
use Prim.Native.Nat.{ℕ, ◌+◌, ◌-◌, ◌*◌, ◌/◌, min}
use Prim.Native.String.{String}
use Prim.Native.Char.{code}
use mathlib.Core.List.{List, [], ◌∷◌}

abbrev pub u64_max : ℕ
u64_max = 18446744073709551615

abbrev pub saturating_add : ℕ → ℕ → ℕ
saturating_add a b = min (a + b) u64_max

abbrev pub saturating_mul : ℕ → ℕ → ℕ
saturating_mul a b = min (a * b) u64_max

-- An `Instant` is its distance in nanoseconds from the clock's start; `duration_since` is 0 for a
-- later argument, as the standard library documents.
abbrev pub Instant : Type 0
Instant = ℕ

abbrev pub nanos_per_sec : ℕ
nanos_per_sec = 1000000000

abbrev pub duration_since : Instant → Instant → ℕ
duration_since now before = now - before

-- `Duration::as_secs` drops the fraction.
abbrev pub as_secs : ℕ → ℕ
as_secs nanos = nanos / nanos_per_sec

abbrev pub from_secs : ℕ → ℕ
from_secs secs = secs * nanos_per_sec

-- The code points of a text: its bytes, if it is ASCII.
abbrev pub codes : String → List ℕ
codes String.[] = []
codes (String.◌∷◌ c s) = code c ∷ codes s
