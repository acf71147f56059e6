-- ===== src/Runtime/Plan/NiceTable.antt =====
-- The restores of one pid in the table of nice restores, with their values and identities.
use dracon_system_disk_proce.Common.{
  ◌≡◌, refl, sym, ◌∙◌, ap, subst, inl, inr, ◌⊎◌, true, some, List, [], ◌∷◌, ◌++◌, ◌==◌, Bool-cases,
  Option-cases, ==→≡, some_inj, if◌then◌else◌,
}
use mathlib.Core.List.{Memᴰ}
use mathlib.Core.List.Memᴰ
use dracon_system_disk_proce.Common.Signed.{ℤ, int_eq}
use dracon_system_disk_proce.Common.Table.{get, get-insert}
use dracon_system_disk_proce.Process.{ProcessIdentity, same_process_incarnation}
use dracon_system_disk_proce.Runtime.{ReniceState, NiceRestoreScope, legacy, both}
use dracon_system_disk_proce.Runtime.Plan.{
  nice, NiceRestore, or_default, push_restore, add_legacy, mark_both, nice_plan_of, nice_plan,
}

abbrev pub RestoresTable : Type 0
RestoresTable = List (ℤ × List NiceRestore)

abbrev pub restore_of : ℤ → ProcessIdentity → NiceRestoreScope → NiceRestore
restore_of v id s = record { original_nice = v; identity = id; scope = s }

abbrev pub restore_in : NiceRestoreScope → ReniceState → NiceRestore
restore_in s e = restore_of e.original_nice e.identity s

-- Marking keeps every restore, its scope aside, and marks one of the same incarnation.
pub mark_both-keeps :
    (id : ProcessIdentity) (rs qs : List NiceRestore) (r : NiceRestore)
    → mark_both id rs ≡ some qs
    → Memᴰ r rs
    → Memᴰ r qs ⊎ Memᴰ (record r { scope = both }) qs
unfolding mark_both
mark_both-keeps id [] qs r h m = elim m [ ]
mark_both-keeps id (x ∷ rs) qs r h m = elim (Bool-cases (same_process_incarnation x.identity id)) [
  | inl same ↦
      let e = some_inj (rw same at h) in
      elim (Memᴰ.cases_cons m) [
        | inl i ↦
            inr
              (subst (Memᴰ _) e (Memᴰ.head (ap (λ (q : NiceRestore). record q { scope = both }) i)))
        | inr t ↦ inl (subst (Memᴰ _) e (Memᴰ.tail t))
      ]
  | inr other ↦ elim (Option-cases (mark_both id rs)) [
    | inl n ↦ cc (rw (other, n) at h)
    | inr (ps, s) ↦
        let e = some_inj (rw (other, s) at h) in
        elim (Memᴰ.cases_cons m) [
          | inl i ↦ inl (subst (Memᴰ _) e (Memᴰ.head i))
          | inr t ↦ elim (mark_both-keeps id rs ps r s t) [
            | inl a ↦ inl (subst (Memᴰ _) e (Memᴰ.tail a))
            | inr b ↦ inr (subst (Memᴰ _) e (Memᴰ.tail b))
          ]
        ]
  ]
]

pub mark_both-marks :
    (id : ProcessIdentity) (rs qs : List NiceRestore)
    → mark_both id rs ≡ some qs
    → (r : NiceRestore) × Memᴰ r rs
      × (same_process_incarnation r.identity id ≡ true)
      × Memᴰ (record r { scope = both }) qs
unfolding mark_both
mark_both-marks id [] qs h = cc
mark_both-marks id (x ∷ rs) qs h = elim (Bool-cases (same_process_incarnation x.identity id)) [
  | inl same ↦ (x, Memᴰ.head refl, same, subst (Memᴰ _) (some_inj (rw same at h)) (Memᴰ.head refl))
  | inr other ↦ elim (Option-cases (mark_both id rs)) [
    | inl n ↦ cc (rw (other, n) at h)
    | inr (ps, s) ↦
        let (r, m, i, q) = mark_both-marks id rs ps s in
        (r, Memᴰ.tail m, i, subst (Memᴰ _) (some_inj (rw (other, s) at h)) (Memᴰ.tail q))
  ]
]

module _ (k : ℤ) where
  -- The restores of the pid in the table of nice restores.
  abbrev pub restores_at : RestoresTable → List NiceRestore
  restores_at t = or_default (get t k)

  nice_plan_of-Mem :
      (rs : List NiceRestore) (r : NiceRestore)
      → Memᴰ r rs
      → Memᴰ (nice k r.original_nice r.identity r.scope) (nice_plan_of k rs)
  unfolding nice_plan_of
  nice_plan_of-Mem [] r m = elim m [ ]
  nice_plan_of-Mem (x ∷ rs) r m = elim (Memᴰ.cases_cons m) [
    | inl e ↦ rw e (Memᴰ.head refl)
    | inr t ↦ Memᴰ.tail (nice_plan_of-Mem rs r t)
  ]

  pub nice_plan-Mem :
      (t : RestoresTable) (r : NiceRestore)
      → Memᴰ r (restores_at t)
      → Memᴰ (nice k r.original_nice r.identity r.scope) (nice_plan t)
  unfolding nice_plan get
  nice_plan-Mem [] r m = elim m [ ]
  nice_plan-Mem ((pid, rs) ∷ t) r m = elim (Bool-cases (pid == k)) [
    | inl same ↦ Memᴰ.append_left (nice_plan t) (
        subst (λ i. Memᴰ (nice k r.original_nice r.identity r.scope) (nice_plan_of i rs))
          (sym (==→≡ pid k same)) (nice_plan_of-Mem rs r (rw same at m)))
    | inr other ↦ Memᴰ.append_right (nice_plan_of pid rs) (nice_plan-Mem t r (rw other at m))
  ]

  pub restores_at-push :
      (t : RestoresTable) (pid : ℤ) (r : NiceRestore)
      → restores_at (push_restore t pid r)
        ≡ (if pid == k then restores_at t ++ (r ∷ []) else restores_at t)
  unfolding push_restore
  restores_at-push t pid r =
      ap or_default (get-insert t pid k (or_default (get t pid) ++ (r ∷ [])))
      ∙ elim (Bool-cases (pid == k)) [
        | inl same ↦ rw (same, ==→≡ pid k same) refl
        | inr other ↦ rw other refl
      ]

  pub push-keeps :
      (t : RestoresTable) (pid : ℤ) (r q : NiceRestore)
      → Memᴰ q (restores_at t)
      → Memᴰ q (restores_at (push_restore t pid r))
  push-keeps t pid r q m =
      subst (Memᴰ q) (sym (restores_at-push t pid r)) (elim (Bool-cases (pid == k)) [
        | inl same ↦ rw same (Memᴰ.append_left (r ∷ []) m)
        | inr other ↦ rw other m
      ])

  pub push-adds :
      (t : RestoresTable) (pid : ℤ) (r : NiceRestore)
      → (pid == k) ≡ true
      → Memᴰ r (restores_at (push_restore t pid r))
  push-adds t pid r same =
      subst (Memᴰ r) (sym (restores_at-push t pid r))
        (rw same (Memᴰ.append_right (restores_at t) (Memᴰ.head refl)))

  pub add_legacy-keeps :
      (es : List (ℤ × ReniceState)) (t : RestoresTable) (q : NiceRestore)
      → Memᴰ q (restores_at t)
      → Memᴰ q (restores_at (add_legacy t es))
  unfolding add_legacy
  add_legacy-keeps [] t q m = m
  add_legacy-keeps ((pid, x) ∷ es) t q m =
      add_legacy-keeps es (push_restore t pid (restore_in legacy x)) q
        (push-keeps t pid (restore_in legacy x) q m)

  pub add_legacy-adds :
      (es : List (ℤ × ReniceState)) (t : RestoresTable) (e : ReniceState)
      → get es k ≡ some e
      → Memᴰ (restore_in legacy e) (restores_at (add_legacy t es))
  unfolding add_legacy get
  add_legacy-adds [] t e h = cc
  add_legacy-adds ((pid, x) ∷ es) t e h = elim (Bool-cases (pid == k)) [
    | inl same ↦
        add_legacy-keeps es (push_restore t pid (restore_in legacy x)) (restore_in legacy e) (
          subst
            (λ (y : ReniceState).
              Memᴰ (restore_in legacy y) (restores_at (push_restore t pid (restore_in legacy x))))
            (some_inj (rw same at h)) (push-adds t pid (restore_in legacy x) same))
    | inr other ↦ add_legacy-adds es (push_restore t pid (restore_in legacy x)) e (rw other at h)
  ]

  pub add_legacy-from :
      (es : List (ℤ × ReniceState)) (t : RestoresTable) (q : NiceRestore)
      → Memᴰ q (restores_at (add_legacy t es))
      → Memᴰ q (restores_at t) ⊎ ((e : ReniceState) × Memᴰ (k, e) es × (q ≡ restore_in legacy e))
  unfolding add_legacy
  add_legacy-from [] t q m = inl m
  add_legacy-from ((pid, x) ∷ es) t q m =
      elim (add_legacy-from es (push_restore t pid (restore_in legacy x)) q m) [
        | inr (e, n, s) ↦ inr (e, Memᴰ.tail n, s)
        | inl n ↦ elim (Bool-cases (pid == k)) [
          | inl same ↦ elim (Memᴰ.append_cases (restores_at t) (pushed same n)) [
            | inl o ↦ inl o
            | inr i ↦ elim (Memᴰ.cases_cons i) [
              | inl s ↦ inr (x, Memᴰ.head (ap (λ (j : ℤ). (j, x)) (sym (==→≡ pid k same))), s)
              | inr z ↦ elim z [ ]
            ]
          ]
          | inr other ↦
              inl (rw other at (subst (Memᴰ q) (restores_at-push t pid (restore_in legacy x)) n))
        ]
      ]
    where
      pushed :
          (pid == k) ≡ true
          → Memᴰ q (restores_at (push_restore t pid (restore_in legacy x)))
          → Memᴰ q (restores_at t ++ (restore_in legacy x ∷ []))
      pushed same n = rw same at (subst (Memᴰ q) (restores_at-push t pid (restore_in legacy x)) n)
