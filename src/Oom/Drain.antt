-- ===== src/Oom/Drain.antt =====
-- The sweep where `/proc`, the files and the ledger answer.
use dracon_system_disk_proce.Common.{
  ◌≡◌, refl, ◌≢◌, inl, inr, true, false, some, List, [], String, Bool-cases, Option-cases, elem,
  nat_eq, pair_eq, string_eq,
}
use dracon_system_disk_proce.Common.Signed.{ℤ, int_eq}
use dracon_system_disk_proce.Common.Table.{get, keys, get-none→nil}
use dracon_system_disk_proce.Nice.{ProcSample}
use dracon_system_disk_proce.Process.{
  ProcessIdentity, ProcessIdentityStatus, matched, gone, mismatch, unavailable, parents_of,
}
use dracon_system_disk_proce.Runtime.{Mitigations, OomPendingDescendant}
use dracon_system_disk_proce.Oom.{
  Answers, RestoreAnswer, changed, unchanged, failed, is_kernel_process,
}
use dracon_system_disk_proce.Oom.Pending.{restore_pending_debts, restore_keys-none}
use dracon_system_disk_proce.Oom.Sweep.{
  deferred, pending_fate, fate_of_status, fate_of_comm, fate_of_restore,
  sweep_stranded_oom_descendants, restore_pending_oom_descendants, nothing_swept, adopt_children,
  root_values, add_pending_roots,
}

module _ (a : Answers) (exempt : List String)
    (identified : (pid : ℤ) (id : ProcessIdentity) → a.status pid id ≢ unavailable)
    (named : (pid : ℤ)
      → (comm : String) × (a.read_comm pid ≡ some comm)
        × (is_kernel_process comm ≡ false)
        × (elem comm exempt ≡ false))
    (written : (pid : ℤ) (id : ProcessIdentity) (adj : ℤ) → a.restore pid id adj ≢ failed)
    (saved : a.persist ≡ true) where
  fate_of_restore-paid : (r : RestoreAnswer) → r ≢ failed → fate_of_restore r ≢ deferred
  fate_of_restore-paid changed w = λ e. cc
  fate_of_restore-paid unchanged w = λ e. cc
  fate_of_restore-paid failed w = absurd (w refl)

  fate_of_comm-paid :
      (pid : ℤ) (p : OomPendingDescendant)
      → fate_of_comm a exempt pid p (a.read_comm pid) ≢ deferred
  unfolding elem
  fate_of_comm-paid pid p =
      let (comm, read, user, other) = named pid in
      rw (read, user, other)
        (fate_of_restore-paid (a.restore pid p.identity p.original_adj)
          (written pid p.identity p.original_adj))

  fate_of_status-paid :
      (pid : ℤ) (p : OomPendingDescendant) (s : ProcessIdentityStatus)
      → s ≢ unavailable
      → fate_of_status a exempt pid p s ≢ deferred
  fate_of_status-paid pid p gone i = λ e. cc
  fate_of_status-paid pid p mismatch i = λ e. cc
  fate_of_status-paid pid p unavailable i = absurd (i refl)
  fate_of_status-paid pid p matched i = elim (Bool-cases (a.is_zombie pid)) [
    | inl dead ↦ rw dead (λ e. cc)
    | inr alive ↦ rw alive (fate_of_comm-paid pid p)
  ]

  pending_fate-paid : (pid : ℤ) (p : OomPendingDescendant) → pending_fate a exempt pid p ≢ deferred
  unfolding pending_fate
  pending_fate-paid pid p =
      fate_of_status-paid pid p (a.status pid p.identity) (identified pid p.identity)

  restore_pending-drains :
      (st : Mitigations)
      → (restore_pending_oom_descendants a exempt st).0.oom_pending_descendants ≡ []
  unfolding restore_pending_oom_descendants
  restore_pending-drains st = get-none→nil _ (λ k.
      elim (Option-cases (get st.oom_pending_descendants k)) [
        | inl e ↦
            restore_keys-none a exempt k (keys st.oom_pending_descendants) (st, nothing_swept) e
        | inr (p, e) ↦ elim (restore_pending_debts a exempt st k p e) [
          | inl (owed, debt) ↦ absurd (pending_fate-paid k.0 p owed)
          | inr (paid, left) ↦ left
        ]
      ])

  -- If every process can be identified and named, is no kernel process and stands not on the exempt
  -- list, every write works and the ledger is saved, one sweep leaves no restoration debt, neither an
  -- old one nor one that it took on itself.
  pub sweep-drains :
      (samples : List ProcSample) (st : Mitigations)
      → (sweep_stranded_oom_descendants a samples st exempt).0.oom_pending_descendants ≡ []
  unfolding sweep_stranded_oom_descendants
  sweep-drains samples st = rw saved (
      restore_pending-drains (
        adopt_children (keys st.oom_biased_pids) exempt
          (add_pending_roots (root_values a st.oom_biased_pids) st.oom_pending_descendants)
          (parents_of [] samples) st samples))
