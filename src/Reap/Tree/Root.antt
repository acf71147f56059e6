-- ===== src/Reap/Tree/Root.antt =====
-- forgotten.rs, `build_tree`: the root stands among the members of its tree.
use dracon_system_disk_proce.Common.{
  ◌≡◌, refl, inl, inr, true, List, [], ◌∷◌, ◌++◌, elem, arith, Bool-cases, Option-cases, map,
}
use dracon_system_disk_proce.Common.Signed.{ℤ, int_eq, beq_ℤ_iff}
use dracon_system_disk_proce.Common.Table.{get}
use dracon_system_disk_proce.Reap.Proc.{ProcRoot, ReapPolicy, parent_comm_is_systemd}
use dracon_system_disk_proce.Reap.Table.{ProcEntry, ProcTable, Found}
use dracon_system_disk_proce.Reap.Tree.{
  TreeMember, PassTime, gather, Gathered, add_descendant, add_descendants, add_handler,
  add_handlers, weigh, member_exempt,
}

-- The root stands among the members of its own tree.
module _ (proc : ProcRoot) (table : ProcTable) (policy : ReapPolicy) (owner : ProcEntry)
    (p : ℤ) where
  abbrev Has : Gathered → Type 0
  Has g = elem p (map (λ (m : TreeMember). m.pid) g.members) ≡ true

  kept :
      (ms : List TreeMember) (m : TreeMember)
      → elem p (map (λ (m : TreeMember). m.pid) ms) ≡ true
      → elem p (map (λ (m : TreeMember). m.pid) (ms ++ m ∷ [])) ≡ true
  unfolding elem
  kept [] m h = cc
  kept (n ∷ ms) m h = ground (arith, kept ms m)

  add_descendant-Has :
      (g : Gathered) (f : Found) → Has g → Has (add_descendant proc table policy owner g f)
  unfolding add_descendant
  add_descendant-Has g (pid, depth) h = elim (Option-cases (get table.entries pid)) [
    | inl n ↦ rw (n, add_descendant) h
    | inr (e, n) ↦
        rw (n, add_descendant)
          (elim (Bool-cases (member_exempt policy owner e)) [
            | inl x ↦ rw x h
            | inr x ↦ rw x (elim (Bool-cases (elem pid g.seen)) [
              | inl y ↦ rw y h
              | inr y ↦ rw y (kept g.members _ h)
            ])
          ])
  ]

  add_descendants-Has :
      (g : Gathered) (fs : List Found) → Has g → Has (add_descendants proc table policy owner g fs)
  unfolding add_descendants
  add_descendants-Has g [] h = h
  add_descendants-Has g (f ∷ fs) h =
      add_descendants-Has (add_descendant proc table policy owner g f) fs (add_descendant-Has g f h)

  add_handler-Has :
      (g : Gathered) (f : Found) → Has g → Has (add_handler proc table policy owner g f)
  unfolding add_handler
  add_handler-Has g (pid, depth) h = elim (Bool-cases (elem pid g.seen)) [
    | inl y ↦ rw y h
    | inr y ↦ rw y (elim (Option-cases (get table.entries pid)) [
      | inl n ↦ rw n h
      | inr (e, n) ↦ rw n (elim (Bool-cases (parent_comm_is_systemd proc e.ppid)) [
        | inr z ↦ rw z h
        | inl z ↦ rw z (elim (Bool-cases (member_exempt policy owner e)) [
          | inl x ↦ rw x h
          | inr x ↦ rw x (kept g.members _ h)
        ])
      ])
    ])
  ]

  add_handlers-Has :
      (g : Gathered) (fs : List Found) → Has g → Has (add_handlers proc table policy owner g fs)
  unfolding add_handlers
  add_handlers-Has g [] h = h
  add_handlers-Has g (f ∷ fs) h =
      add_handlers-Has (add_handler proc table policy owner g f) fs (add_handler-Has g f h)

module _ (proc : ProcRoot) (table : ProcTable) (policy : ReapPolicy) (time : PassTime) where
  pub gather-root :
      (r : ProcEntry)
      → elem r.pid (map (λ (m : TreeMember). m.pid) (gather proc table policy r)) ≡ true
  unfolding gather elem weigh
  gather-root r =
      add_handlers-Has proc table policy r r.pid _ _ (
        add_descendants-Has proc table policy r r.pid _ _
          (rw ((beq_ℤ_iff r.pid r.pid).1 refl) refl))
