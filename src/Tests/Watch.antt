-- ===== src/Tests/Watch.antt =====
-- Concrete notifications, profiles and process trees.
use dracon_system_disk_proce.Common.{
  All, Bool-cases, List, String, [], ap, arith, elem, false, from_secs, inl, inr, keep_if, length,
  nat_eq, none, refl, some, some_inj, string_eq, sym, true, ℕ, ◌<◌, ◌==◌, ◌↔◌, ◌∷◌, ◌≡◌, ◌≢◌, ◌⊎◌,
}
use dracon_system_disk_proce.Common.Signed.{beq_ℤ, beq_ℤ_iff, int_eq, leb_ℤ, negsuc, pos, ℤ}
use dracon_system_disk_proce.Common.Table.{get}
use dracon_system_disk_proce.Nix.{
  insert_sorted, nix_generations_to_delete_protecting, retain_by_spread, sort_dedup, spread,
}
use dracon_system_disk_proce.Nix.Retained.{Prunable, nix_pruning_safe}
use dracon_system_disk_proce.Notify.{
  NotifyOp, NotifyState, cleanup, notify, notify_run, report_state_transition, should_notify,
}
use dracon_system_disk_proce.Notify.Spacing.{should_notify_spacing}
use dracon_system_disk_proce.Process.{
  Parents, nearest_biased_ancestor, process_is_descendant_of, walk_up,
}
use dracon_system_disk_proce.Process.Ancestry.{Climb, process_is_descendant_of_iff}

abbrev quiet : NotifyState
quiet = record { notify_cooldowns = []; report_states = [] }

-- Another key, and a pruning of the table.
abbrev between : List NotifyOp
between = notify (from_secs 101) "inode" 5 ∷ cleanup (from_secs 102) 1 ∷ []

first_time : (should_notify quiet (from_secs 100) "disk" 60).1 ≡ true
unfolding should_notify get
first_time = refl

first_report : (report_state_transition quiet (from_secs 100) "disk" "warn" 60).1.1 ≡ true
unfolding report_state_transition get
first_report = refl

abbrev warn_name : String
warn_name = "warn"

warn_full : warn_name ≢ ""
warn_full e = let clash : true ≡ false = ap (λ s. string_eq.beq s "warn") e in absurd cc

-- Eight generations, of which three are kept and the booted one is protected.
eight_pruned :
    nix_generations_to_delete_protecting (1 ∷ 2 ∷ 3 ∷ 4 ∷ 5 ∷ 6 ∷ 7 ∷ 8 ∷ []) 3 (5 ∷ [])
    ≡ some (2 ∷ 3 ∷ 6 ∷ 7 ∷ [])
unfolding nix_generations_to_delete_protecting sort_dedup insert_sorted retain_by_spread spread elem
    keep_if
eight_pruned = refl

-- 30 is the child of 20, which is the child of 10, below pid 1; pids 1 and 2 have the parent 0.
abbrev tree : Parents
tree = (pos 1, pos 0) ∷ (pos 2, pos 0) ∷ (pos 10, pos 1) ∷ (pos 20, pos 10) ∷ (pos 30, pos 20) ∷ []

found_root : nearest_biased_ancestor (pos 30) tree (pos 10 ∷ []) ≡ some (pos 10)
unfolding nearest_biased_ancestor walk_up get elem
found_root = refl

abbrev rank : ℤ → ℕ
rank (pos n) = n
rank (negsuc n) = 0

abbrev Falls : Parents → Type 0
Falls t = (p q : ℤ) → get t p ≡ some q → (rank q < rank p) × (leb_ℤ p (pos 0) ≡ false)

Falls-cons :
    (c d : ℤ) (t : Parents)
    → rank d < rank c
    → leb_ℤ c (pos 0) ≡ false
    → Falls t
    → Falls ((c, d) ∷ t)
unfolding get
Falls-cons c d t low positive later p q h = elim (Bool-cases (beq_ℤ c p)) [
  | inl e ↦ rw (sym ((beq_ℤ_iff c p).0 e), sym (some_inj (rw e at h))) (low, positive)
  | inr e ↦ later p q (rw e at h)
]

Falls-nil : Falls []
unfolding get
Falls-nil p q h = let clash : none ≡ some q = h in absurd cc

falling : Falls tree
falling = Falls-cons _ _ _ (omega arith) refl (
    Falls-cons _ _ _ (omega arith) refl (
      Falls-cons _ _ _ (omega arith) refl
        (Falls-cons _ _ _ (omega arith) refl (Falls-cons _ _ _ (omega arith) refl Falls-nil))))

should_notify_spacing_example :
    let silent = notify_run (should_notify quiet (from_secs 100) "disk" 60).0 between in
    should_notify silent (from_secs 159) "disk" 5 ≡ (silent, false)
should_notify_spacing_example =
    should_notify_spacing quiet "disk" 60 5 (from_secs 100) (from_secs 159) between first_time
      (omega arith, (omega arith, tt)) (omega arith)

nix_pruning_safe_example :
    (deleted : List ℕ) × (nix_generations_to_delete_protecting (1 ∷ 2 ∷ 3 ∷ []) 1 (2 ∷ [])
      ≡ some deleted)
    × ((1 < length (sort_dedup (1 ∷ 2 ∷ 3 ∷ []))) ⊎ (deleted ≡ []))
    × All (Prunable (1 ∷ 2 ∷ 3 ∷ []) (2 ∷ []) deleted) deleted
nix_pruning_safe_example = nix_pruning_safe (1 ∷ 2 ∷ 3 ∷ []) 1 (2 ∷ [])

process_is_descendant_of_iff_example :
    (process_is_descendant_of (pos 30) (pos 10) tree ≡ true)
    ↔ (((pos 30) ≢ (pos 10)) × Climb tree (λ q. q == (pos 10)) (pos 30) (pos 10))
process_is_descendant_of_iff_example =
    process_is_descendant_of_iff rank tree (pos 30) (pos 10) falling (omega arith)
