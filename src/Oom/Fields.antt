-- ===== src/Oom/Fields.antt =====
-- The sweep and the tables of adjusted processes.
use dracon_system_disk_proce.Common.{
  ◌≡◌, refl, ◌∙◌, inl, inr, ◌||◌, Option, none, some, List, [], ◌∷◌, String, Bool-cases, elem,
  string_eq, nat_eq, pair_eq,
}
use dracon_system_disk_proce.Common.Signed.{ℤ, int_eq}
use dracon_system_disk_proce.Common.Table.{get, contains_key, keys}
use dracon_system_disk_proce.Nice.{ProcSample}
use dracon_system_disk_proce.Process.{ProcessIdentity, Parents, parents_of, nearest_biased_ancestor}
use dracon_system_disk_proce.Runtime.{Mitigations, ReniceState, OomPendingDescendant, Incarnation}
use dracon_system_disk_proce.Oom.{Answers, is_kernel_process}
use dracon_system_disk_proce.Oom.Sweep.{
  OomSweepResult, PendingFate, discharged, deferred, settled, pending_fate, apply_fate, restore_one,
  restore_keys, restore_pending_oom_descendants, record_oom_retry, remember_oom_descendant_identity,
  adopt_child, adopt_children, adopt_from, adopt, knows, sweep_stranded_oom_descendants,
  root_values, add_pending_roots, nothing_swept,
}

-- The four tables of adjusted processes.
abbrev pub Tracked : Type 0
Tracked =
    List (ℤ × ReniceState)
    × List (ℤ × ReniceState)
    × List (ℤ × (ℤ × ProcessIdentity))
    × List (ℤ × (String × String × ProcessIdentity))

abbrev pub tracked : Mitigations → Tracked
tracked st = (st.reniced_pids, st.memory_reniced_pids, st.oom_biased_pids, st.capped_pids)

module _ (a : Answers) (exempt : List String) where
  tracked-apply_fate :
      (fate : PendingFate) (k : Incarnation) (p : OomPendingDescendant)
      (s : Mitigations × OomSweepResult)
      → tracked (apply_fate fate k p s).0 ≡ tracked s.0
  unfolding apply_fate record_oom_retry remember_oom_descendant_identity
  tracked-apply_fate discharged k p s = refl
  tracked-apply_fate deferred k p s = refl
  tracked-apply_fate (settled did) k p s = refl

  tracked-restore_one :
      (k : Incarnation) (o : Option OomPendingDescendant) (s : Mitigations × OomSweepResult)
      → tracked (restore_one a exempt k o s).0 ≡ tracked s.0
  tracked-restore_one k none s = refl
  tracked-restore_one k (some p) s = tracked-apply_fate (pending_fate a exempt k.0 p) k p s

  tracked-restore_keys :
      (ks : List Incarnation) (s : Mitigations × OomSweepResult)
      → tracked (restore_keys a exempt ks s).0 ≡ tracked s.0
  unfolding restore_keys
  tracked-restore_keys [] s = refl
  tracked-restore_keys (k ∷ ks) s =
      tracked-restore_keys ks (restore_one a exempt k (get s.0.oom_pending_descendants k) s)
      ∙ tracked-restore_one k (get s.0.oom_pending_descendants k) s

  module _ (biased : List ℤ) (roots : List (ℤ × ℤ)) (parents : Parents) where
    tracked-adopt :
        (st : Mitigations) (child : ProcSample) (root : ℤ) (adj : Option ℤ)
        → tracked (adopt st child root adj) ≡ tracked st
    tracked-adopt st child root none = refl
    tracked-adopt st child root (some adj) = refl

    tracked-adopt_from :
        (st : Mitigations) (child : ProcSample) (root : Option ℤ)
        → tracked (adopt_from st roots child root) ≡ tracked st
    tracked-adopt_from st child none = refl
    tracked-adopt_from st child (some root) =
        elim (Bool-cases (
          contains_key st.oom_pending_descendants (child.pid, child.starttime)
          || knows st root (child.pid, child.starttime))) [
            | inl old ↦ rw old refl
            | inr new ↦ rw new (tracked-adopt st child root (get roots root))
          ]

    tracked-adopt_children :
        (st : Mitigations) (samples : List ProcSample)
        → tracked (adopt_children biased exempt roots parents st samples) ≡ tracked st
    unfolding adopt_children
    tracked-adopt_children st [] = refl
    tracked-adopt_children st (child ∷ rest) =
        tracked-adopt_children (adopt_child biased exempt roots parents st child) rest
        ∙ elim (Bool-cases (
            elem child.pid biased
            || (elem child.command exempt || is_kernel_process child.command))) [
              | inl skip ↦ rw skip refl
              | inr take ↦ rw take (
                  tracked-adopt_from st child
                    (nearest_biased_ancestor child.pid parents (keys roots)))
            ]

  pub tracked-sweep :
      (samples : List ProcSample) (st : Mitigations)
      → tracked (sweep_stranded_oom_descendants a samples st exempt).0 ≡ tracked st
  unfolding sweep_stranded_oom_descendants restore_pending_oom_descendants
  tracked-sweep samples st =
      let roots = add_pending_roots (root_values a st.oom_biased_pids) st.oom_pending_descendants in
      let biased = keys st.oom_biased_pids in
      let st1 = adopt_children biased exempt roots (parents_of [] samples) st samples in
      let same : tracked st1 ≡ tracked st =
        tracked-adopt_children biased roots (parents_of [] samples) st samples in
      elim (Bool-cases a.persist) [
        | inr off ↦ rw off same
        | inl on ↦
            rw on
              (tracked-restore_keys (keys st1.oom_pending_descendants) (st1, nothing_swept) ∙ same)
      ]
