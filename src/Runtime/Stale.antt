-- ===== src/Runtime/Stale.antt =====
-- What `drop_stale_nice_adjustments` leaves tracked on a pid that may have been reused.
use dracon_system_disk_proce.Common.{
  ◌≡◌, refl, ◌∙◌, ◌⊎◌, inl, inr, Bool, true, false, not, Option, none, some, if◌then◌else◌,
  if_cases, ==_refl,
}
use dracon_system_disk_proce.Common.Signed.{ℤ, int_eq}
use dracon_system_disk_proce.Common.Table.{get, get-remove}
use dracon_system_disk_proce.Process.{ProcessIdentity, same_process_incarnation}
use dracon_system_disk_proce.Runtime.{
  Mitigations, ReniceState, is_stale, remove_legacy_renice, remove_memory_renice,
  drop_stale_nice_adjustments,
}

-- Nothing is tracked, or an adjustment of this very incarnation.
abbrev pub Current : ProcessIdentity → Option ReniceState → Type 0
Current id o =
    (o ≡ none)
    ⊎ ((e : ReniceState) × (o ≡ some e) × (same_process_incarnation e.identity id ≡ true))

affirm : (b : Bool) → not b ≡ false → b ≡ true
affirm true h = refl
affirm false h = cc

fresh-Current :
    (id : ProcessIdentity) (o : Option ReniceState) → is_stale o id ≡ false → Current id o
fresh-Current id none h = inl refl
fresh-Current id (some e) h = inr (e, refl, affirm (same_process_incarnation e.identity id) h)

module _ (pid : ℤ) (id : ProcessIdentity) where
  abbrev after_legacy : Mitigations → Mitigations
  after_legacy st =
      if is_stale (get st.reniced_pids pid) id then remove_legacy_renice st pid else st

  abbrev after_memory : Mitigations → Mitigations
  after_memory st =
      if is_stale (get st.memory_reniced_pids pid) id then remove_memory_renice st pid else st

  legacy-Current : (st : Mitigations) → Current id (get (after_legacy st).reniced_pids pid)
  unfolding remove_legacy_renice
  legacy-Current st =
      if_cases (λ (s : Mitigations). Current id (get s.reniced_pids pid))
        (is_stale (get st.reniced_pids pid) id) _ _
        (λ stale. inl (get-remove st.reniced_pids pid pid ∙ rw (==_refl pid) refl))
        (λ current. fresh-Current id (get st.reniced_pids pid) current)

  memory-Current : (st : Mitigations) → Current id (get (after_memory st).memory_reniced_pids pid)
  unfolding remove_memory_renice
  memory-Current st =
      if_cases (λ (s : Mitigations). Current id (get s.memory_reniced_pids pid))
        (is_stale (get st.memory_reniced_pids pid) id) _ _
        (λ stale. inl (get-remove st.memory_reniced_pids pid pid ∙ rw (==_refl pid) refl))
        (λ current. fresh-Current id (get st.memory_reniced_pids pid) current)

  -- The second removal does not touch the first table.
  memory-legacy : (st : Mitigations) → (after_memory st).reniced_pids ≡ st.reniced_pids
  unfolding remove_memory_renice
  memory-legacy st =
      if_cases (λ (s : Mitigations). s.reniced_pids ≡ st.reniced_pids)
        (is_stale (get st.memory_reniced_pids pid) id) _ _ (λ stale. refl) (λ current. refl)

  -- Before a pid is reniced again, no adjustment of another incarnation is left on it: in either
  -- table nothing is tracked, or an adjustment of the process that has the pid now.
  pub drop_stale_nice_adjustments-Current :
      (st : Mitigations)
      → let left = drop_stale_nice_adjustments st pid id in
        Current id (get left.reniced_pids pid) × Current id (get left.memory_reniced_pids pid)
  unfolding drop_stale_nice_adjustments
  drop_stale_nice_adjustments-Current st =
      (rw (memory-legacy (after_legacy st)) (legacy-Current st), memory-Current (after_legacy st))
