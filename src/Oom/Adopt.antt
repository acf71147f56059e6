-- ===== src/Oom/Adopt.antt =====
-- The obligations before and after `sweep_stranded_oom_descendants`.
use dracon_system_disk_proce.Common.{
  ◌≡◌, sym, ◌∙◌, ap, ◌≢◌, ◌⊎◌, inl, inr, true, false, ◌||◌, Option, none, some, List, [], ◌∷◌,
  String, ◌==◌, Bool-cases, elem, ==→≡, nat_eq, pair_eq, string_eq,
}
use dracon_system_disk_proce.Common.Signed.{ℤ, int_eq}
use dracon_system_disk_proce.Common.Table.{get, contains_key, keys, get-insert, contains_key-get}
use dracon_system_disk_proce.Nice.{ProcSample}
use dracon_system_disk_proce.Process.{Parents, parents_of, nearest_biased_ancestor}
use dracon_system_disk_proce.Runtime.{Mitigations, OomPendingDescendant, Incarnation}
use dracon_system_disk_proce.Oom.{Answers, is_kernel_process}
use dracon_system_disk_proce.Oom.Sweep.{
  pending_fate, deferred, adopt_child, adopt_children, adopt_from, adopt, knows,
  sweep_stranded_oom_descendants, root_values, add_pending_roots,
}
use dracon_system_disk_proce.Oom.Pending.{IsDebt, restore_pending_debts}

abbrev pendings : Mitigations → List (Incarnation × OomPendingDescendant)
pendings st = st.oom_pending_descendants

module _ (k : Incarnation) (p : OomPendingDescendant) where
  abbrev Owes : Mitigations → Type 0
  Owes st = get (pendings st) k ≡ some p

  -- An incarnation that is owed is in the table.
  taken :
      (st : Mitigations) (key : Incarnation)
      → key ≡ k
      → contains_key (pendings st) key ≡ false
      → Owes st
      → true ≡ false
  taken st key same new e =
      sym (contains_key-get (pendings st) k p e) ∙ ap (contains_key (pendings st)) (sym same) ∙ new

  adopt-keeps :
      (st : Mitigations) (child : ProcSample) (root_pid : ℤ) (adj : Option ℤ)
      → contains_key (pendings st) (child.pid, child.starttime) ≡ false
      → Owes st
      → Owes (adopt st child root_pid adj)
  adopt-keeps st child root_pid none new e = e
  adopt-keeps st child root_pid (some adj) new e =
      let key : Incarnation = (child.pid, child.starttime) in
      get-insert (pendings st) key k _ ∙ elim (Bool-cases (key == k)) [
        | inl same ↦ let clash = taken st key (==→≡ key k same) new e in absurd cc
        | inr other ↦ rw other e
      ]

  adopt_from-keeps :
      (st : Mitigations) (roots : List (ℤ × ℤ)) (child : ProcSample) (root : Option ℤ)
      → Owes st
      → Owes (adopt_from st roots child root)
  adopt_from-keeps st roots child none e = e
  adopt_from-keeps st roots child (some root_pid) e =
      let key : Incarnation = (child.pid, child.starttime) in
      elim (Bool-cases (contains_key (pendings st) key)) [
        | inl old ↦ rw old e
        | inr new ↦ elim (Bool-cases (knows st root_pid key)) [
          | inl known ↦ rw (new, known) e
          | inr unknown ↦
              rw (new, unknown) (adopt-keeps st child root_pid (get roots root_pid) new e)
        ]
      ]

  adopt_children-keeps :
      (tracked : List ℤ) (exempt : List String) (roots : List (ℤ × ℤ)) (parents : Parents)
      (st : Mitigations) (samples : List ProcSample)
      → Owes st
      → Owes (adopt_children tracked exempt roots parents st samples)
  unfolding adopt_children
  adopt_children-keeps tracked exempt roots parents st [] e = e
  adopt_children-keeps tracked exempt roots parents st (child ∷ rest) e =
      adopt_children-keeps tracked exempt roots parents
        (adopt_child tracked exempt roots parents st child) rest
        (elim (Bool-cases (
          elem child.pid tracked
          || (elem child.command exempt || is_kernel_process child.command))) [
            | inl skip ↦ rw skip e
            | inr take ↦ rw take (
                adopt_from-keeps st roots child
                  (nearest_biased_ancestor child.pid parents (keys roots)) e)
          ])

-- A restoration debt survives the whole sweep unless it is met in it. If the ledger cannot be
-- written, the entry stays as it is. If it can, an obligation that is to be deferred is still owed
-- after the sweep, with the same root, original value and process, and any other one is dropped.
pub sweep_keeps_debts :
    (a : Answers) (samples : List ProcSample) (exempt : List String) (st : Mitigations)
    (k : Incarnation) (p : OomPendingDescendant)
    → get st.oom_pending_descendants k ≡ some p
    → let left =
        get (sweep_stranded_oom_descendants a samples st exempt).0.oom_pending_descendants k in
      ((a.persist ≡ false) × (left ≡ some p))
      ⊎ ((a.persist ≡ true)
          × (((pending_fate a exempt k.0 p ≡ deferred) × IsDebt a exempt k p left)
              ⊎ ((pending_fate a exempt k.0 p ≢ deferred) × (left ≡ none))))
unfolding sweep_stranded_oom_descendants
sweep_keeps_debts a samples exempt st k p e =
    let roots = add_pending_roots (root_values a st.oom_biased_pids) st.oom_pending_descendants in
    let st1 =
      adopt_children (keys st.oom_biased_pids) exempt roots (parents_of [] samples) st samples in
    let owes : get st1.oom_pending_descendants k ≡ some p =
      adopt_children-keeps k p (keys st.oom_biased_pids) exempt roots (parents_of [] samples) st
        samples e in
    elim (Bool-cases a.persist) [
      | inr off ↦ inl (off, rw off owes)
      | inl on ↦ inr (on, rw on (restore_pending_debts a exempt st1 k p owes))
    ]
