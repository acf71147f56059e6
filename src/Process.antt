-- ===== src/Process.antt =====
-- main.rs: process identities, and walks up the parent links of a process table.
pub mod Ancestry
use dracon_system_disk_proce.Common.{
  ℕ, zero, suc, ◌≡◌, Bool, true, false, not, ◌&&◌, ◌||◌, Option, none, some, List, [], ◌∷◌, String,
  ◌==◌, if◌then◌else◌, nat_beq, elem, keep_if, map, string_eq,
}
use dracon_system_disk_proce.Common.Signed.{ℤ, pos, leb_ℤ, int_eq}
use dracon_system_disk_proce.Common.Table.{get, insert}
use dracon_system_disk_proce.Nice.{ProcSample}

-- `/proc/<pid>/comm` and field 22 of `/proc/<pid>/stat`.
pub record ProcessIdentity : Type 0 where
  pub comm : String
  pub starttime : ℕ

pub data ProcessIdentityStatus : Type 0 where
  matched gone mismatch unavailable : ProcessIdentityStatus

unfoldable pub same_process_incarnation : ProcessIdentity → ProcessIdentity → Bool
same_process_incarnation left right =
    not (nat_beq left.starttime 0) && nat_beq left.starttime right.starttime

abbrev pub process_sample_identity : ProcSample → ProcessIdentity
process_sample_identity p = record { comm = p.command; starttime = p.starttime }

-- The parent of each pid.
abbrev pub Parents : Type 0
Parents = List (ℤ × ℤ)

-- `samples.iter().map(|sample| (sample.pid, sample.ppid)).collect()`: a later row wins.
unfoldable pub parents_of : Parents → List ProcSample → Parents
parents_of m [] = m
parents_of m (p ∷ ps) = parents_of (insert m p.pid p.ppid) ps

-- The bounded walk: up to the first ancestor that passes the test.
unfoldable pub walk_up : (ℤ → Bool) → Parents → ℕ → ℤ → List ℤ → Option ℤ
walk_up test parents zero current seen = none
walk_up test parents (suc rounds) current seen = elim (get parents current) [
  | none ↦ none
  | some parent ↦
      let rest = walk_up test parents rounds parent (current ∷ seen) in
      if test parent
      then some parent
      else if leb_ℤ parent (pos 0) || elem current seen
      then none
      else rest
]

abbrev pub walk_limit : ℕ
walk_limit = 1024

unfoldable pub nearest_biased_ancestor : ℤ → Parents → List ℤ → Option ℤ
nearest_biased_ancestor pid parents biased_roots =
    walk_up (λ q. elem q biased_roots) parents walk_limit pid []

abbrev is_some : Option ℤ → Bool
is_some none = false
is_some (some q) = true

unfoldable pub process_is_descendant_of : ℤ → ℤ → Parents → Bool
process_is_descendant_of pid root_pid parents =
    not (pid == root_pid) && is_some (walk_up (λ q. q == root_pid) parents walk_limit pid [])

unfoldable pub process_descendant_samples : List ProcSample → ℤ → List ProcSample
process_descendant_samples samples root_pid =
    keep_if (λ p. process_is_descendant_of p.pid root_pid (parents_of [] samples)) samples
