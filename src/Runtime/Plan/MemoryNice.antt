-- ===== src/Runtime/Plan/MemoryNice.antt =====
-- What the entries of the memory limiter add to the table of nice restores.
use dracon_system_disk_proce.Common.{
  ◌≡◌, refl, sym, ◌∙◌, ap, subst, inl, inr, ◌⊎◌, true, false, some, none, List, [], ◌∷◌, ◌==◌,
  Bool-cases, Option-cases, ==→≡, some_inj, if◌then◌else◌,
}
use mathlib.Core.List.{Memᴰ}
use dracon_system_disk_proce.Common.Signed.{ℤ, int_eq}
use dracon_system_disk_proce.Common.Table.{get, get-insert}
use dracon_system_disk_proce.Process.{same_process_incarnation}
use dracon_system_disk_proce.Runtime.{ReniceState, NiceRestoreScope, memory, both}
use dracon_system_disk_proce.Runtime.Plan.{
  NiceRestore, or_default, push_restore, mark_both, add_memory_entry, add_memory,
}
use dracon_system_disk_proce.Runtime.Restore.Removal.{Limiter, memory_nice, in_scope}
use dracon_system_disk_proce.Runtime.Plan.NiceTable.{
  RestoresTable, restore_in, restores_at, mark_both-keeps, mark_both-marks, restores_at-push,
  push-keeps, push-adds,
}

module _ (k : ℤ) where
  -- The restores of this value and incarnation serve the limiter.
  abbrev pub IsHeld : Limiter → ReniceState → RestoresTable → Type 0
  IsHeld f e t =
      (s : NiceRestoreScope) × (in_scope f s ≡ true) × Memᴰ (restore_in s e) (restores_at k t)

  restores_at-marked :
      (t : RestoresTable) (pid : ℤ) (e : ReniceState) (qs : List NiceRestore)
      → mark_both e.identity (or_default (get t pid)) ≡ some qs
      → restores_at k (add_memory_entry t pid e) ≡ (if pid == k then qs else restores_at k t)
  unfolding add_memory_entry
  restores_at-marked t pid e qs n = rw n (
      ap or_default (get-insert t pid k qs)
      ∙ elim (Bool-cases (pid == k)) [ inl same ↦ rw same refl | inr other ↦ rw other refl ])

  restores_at-unmarked :
      (t : RestoresTable) (pid : ℤ) (e : ReniceState)
      → mark_both e.identity (or_default (get t pid)) ≡ none
      → restores_at k (add_memory_entry t pid e)
        ≡ restores_at k (push_restore t pid (restore_in memory e))
  unfolding add_memory_entry
  restores_at-unmarked t pid e n = rw n refl

  add_memory_entry-keeps :
      (f : Limiter) (t : RestoresTable) (pid : ℤ) (x e : ReniceState)
      → in_scope f both ≡ true
      → IsHeld f e t
      → IsHeld f e (add_memory_entry t pid x)
  add_memory_entry-keeps f t pid x e b (s, i, m) =
      elim (Option-cases (mark_both x.identity (or_default (get t pid)))) [
        | inl n ↦ (
          s,
          i,
          subst (Memᴰ (restore_in s e)) (sym (restores_at-unmarked t pid x n))
              (push-keeps k t pid (restore_in memory x) (restore_in s e) m),
        )
        | inr (qs, n) ↦ elim (Bool-cases (pid == k)) [
          | inl same ↦
              elim (mark_both-keeps x.identity (restores_at k t) qs (restore_in s e) (at_k same n)
                m) [ inl a ↦ (s, i, marked same n a) | inr a ↦ (both, b, marked same n a) ]
          | inr other ↦ (
            s,
            i,
            subst (Memᴰ (restore_in s e)) (sym (restores_at-marked t pid x qs n)) (rw other m),
          )
        ]
      ]
    where
      at_k :
          {qs : List NiceRestore}
          → (pid == k) ≡ true
          → mark_both x.identity (or_default (get t pid)) ≡ some qs
          → mark_both x.identity (restores_at k t) ≡ some qs
      at_k same n =
          ap (λ (j : ℤ). mark_both x.identity (or_default (get t j))) (sym (==→≡ pid k same)) ∙ n

      marked :
          {qs : List NiceRestore} {r : NiceRestore}
          → (pid == k) ≡ true
          → mark_both x.identity (or_default (get t pid)) ≡ some qs
          → Memᴰ r qs
          → Memᴰ r (restores_at k (add_memory_entry t pid x))
      marked {qs} {r} same n a = subst (Memᴰ r) (sym (restores_at-marked t pid x qs n)) (rw same a)

  pub add_memory-keeps :
      (f : Limiter) (es : List (ℤ × ReniceState)) (t : RestoresTable) (e : ReniceState)
      → in_scope f both ≡ true
      → IsHeld f e t
      → IsHeld f e (add_memory t es)
  unfolding add_memory
  add_memory-keeps f [] t e b m = m
  add_memory-keeps f ((pid, x) ∷ es) t e b m =
      add_memory-keeps f es (add_memory_entry t pid x) e b (add_memory_entry-keeps f t pid x e b m)

  restores_at-elsewhere :
      (t : RestoresTable) (pid : ℤ) (x : ReniceState)
      → (pid == k) ≡ false
      → restores_at k (add_memory_entry t pid x) ≡ restores_at k t
  restores_at-elsewhere t pid x other =
      elim (Option-cases (mark_both x.identity (or_default (get t pid)))) [
        | inl n ↦
            restores_at-unmarked t pid x n
            ∙ restores_at-push k t pid (restore_in memory x)
            ∙ rw other refl
        | inr (qs, n) ↦ restores_at-marked t pid x qs n ∙ rw other refl
      ]

  abbrev entry_of : NiceRestore → ReniceState
  entry_of r = record {
    original_nice = r.original_nice;
    applied_nice = r.original_nice;
    identity = r.identity;
  }

  -- The entry has its own restore, or shares that of a restore of the same incarnation.
  abbrev pub IsServed : ReniceState → List NiceRestore → RestoresTable → Type 0
  IsServed e before t =
      IsHeld memory_nice e t
      ⊎ ((r : NiceRestore) × Memᴰ r before
          × (same_process_incarnation r.identity e.identity ≡ true)
          × (s : NiceRestoreScope) × (in_scope memory_nice s ≡ true)
          × Memᴰ (record r { scope = s }) (restores_at k t))

  add_memory_entry-adds :
      (t : RestoresTable) (pid : ℤ) (e : ReniceState)
      → (pid == k) ≡ true
      → IsServed e (restores_at k t) (add_memory_entry t pid e)
  add_memory_entry-adds t pid e same =
      elim (Option-cases (mark_both e.identity (or_default (get t pid)))) [
        | inl n ↦ inl (
          memory,
          refl,
          subst (Memᴰ (restore_in memory e)) (sym (restores_at-unmarked t pid e n))
              (push-adds k t pid (restore_in memory e) same),
        )
        | inr (qs, n) ↦
            let (r, m, i, q) = mark_both-marks e.identity (or_default (get t pid)) qs n in
            inr (
              r,
              subst (λ (j : ℤ). Memᴰ r (restores_at j t)) (==→≡ pid k same) m,
              i,
              both,
              refl,
              subst (Memᴰ (record r { scope = both })) (sym (restores_at-marked t pid e qs n))
                  (rw same q),
            )
      ]

  pub add_memory-adds :
      (es : List (ℤ × ReniceState)) (t : RestoresTable) (e : ReniceState)
      → get es k ≡ some e
      → IsServed e (restores_at k t) (add_memory t es)
  unfolding add_memory get
  add_memory-adds [] t e h = cc
  add_memory-adds ((pid, x) ∷ es) t e h = elim (Bool-cases (pid == k)) [
    | inl same ↦
        let served : IsServed e (restores_at k t) (add_memory_entry t pid x) =
          subst (λ (y : ReniceState). IsServed y (restores_at k t) (add_memory_entry t pid x))
            (some_inj (rw same at h)) (add_memory_entry-adds t pid x same) in
        elim served [
          | inl own ↦ inl (add_memory-keeps memory_nice es (add_memory_entry t pid x) e refl own)
          | inr (r, m, i, s, j, q) ↦
              let (s1, j1, q1) =
                add_memory-keeps memory_nice es (add_memory_entry t pid x) (entry_of r) refl
                  (s, j, q) in
              inr (r, m, i, s1, j1, q1)
        ]
    | inr other ↦
        subst (λ l. IsServed e l (add_memory (add_memory_entry t pid x) es))
          (restores_at-elsewhere t pid x other)
          (add_memory-adds es (add_memory_entry t pid x) e (rw other at h))
  ]
