-- ===== src/Runtime/Plan/Coverage.antt =====
-- `runtime_adjustment_plan` against the tables of adjusted processes.
use dracon_system_disk_proce.Common.{
  ◌≡◌, refl, sym, inl, inr, ◌⊎◌, Bool, true, some, List, [], ◌∷◌, ◌++◌, String, ◌==◌, Bool-cases,
  any_of, ==→≡, ==_refl, some_inj,
}
use mathlib.Core.List.{Memᴰ}
use mathlib.Core.List.Memᴰ
use dracon_system_disk_proce.Common.Signed.{ℤ, int_eq}
use dracon_system_disk_proce.Common.Table.{get}
use dracon_system_disk_proce.Process.{ProcessIdentity, same_process_incarnation}
use dracon_system_disk_proce.Runtime.{Mitigations, ReniceState, NiceRestoreScope, legacy}
use dracon_system_disk_proce.Runtime.Plan.{
  RuntimeAdjustment, nice, oom_bias, cpu_cap, add_legacy, add_memory, nice_plan, oom_plan, cap_plan,
  runtime_adjustment_plan,
}
use dracon_system_disk_proce.Runtime.Restore.Removal.{
  Limiter, legacy_nice, memory_nice, bias, cap, look, Entry, in_scope, covers,
}
use dracon_system_disk_proce.Runtime.Plan.NiceTable.{
  restore_in, add_legacy-adds, add_legacy-from, nice_plan-Mem,
}
use dracon_system_disk_proce.Runtime.Plan.MemoryNice.{add_memory-keeps, add_memory-adds}

oom_plan-Mem :
    (es : List (ℤ × (ℤ × ProcessIdentity))) (k : ℤ) (e : ℤ × ProcessIdentity)
    → get es k ≡ some e
    → Memᴰ (oom_bias k e.0 e.1) (oom_plan es)
unfolding oom_plan get
oom_plan-Mem [] k e h = cc
oom_plan-Mem ((pid, x) ∷ es) k e h = elim (Bool-cases (pid == k)) [
  | inl same ↦ rw (==→≡ pid k same, some_inj (rw same at h)) (Memᴰ.head refl)
  | inr other ↦ Memᴰ.tail (oom_plan-Mem es k e (rw other at h))
]

cap_plan-Mem :
    (es : List (ℤ × (String × String × ProcessIdentity))) (k : ℤ)
    (e : String × String × ProcessIdentity)
    → get es k ≡ some e
    → Memᴰ (cpu_cap k e.0 e.1 e.2) (cap_plan es)
unfolding cap_plan get
cap_plan-Mem [] k e h = cc
cap_plan-Mem ((pid, x) ∷ es) k e h = elim (Bool-cases (pid == k)) [
  | inl same ↦ rw (==→≡ pid k same, some_inj (rw same at h)) (Memᴰ.head refl)
  | inr other ↦ Memᴰ.tail (cap_plan-Mem es k e (rw other at h))
]

-- The plan gives the pid back the nice value of this entry, for this limiter.
abbrev pub HasNice : Limiter → ℤ → ReniceState → List RuntimeAdjustment → Type 0
HasNice f k e plan =
    (s : NiceRestoreScope) × (in_scope f s ≡ true) × Memᴰ (nice k e.original_nice e.identity s) plan

-- The restoration that an entry of each table has: its own value under its own identity, where an
-- entry of the memory limiter may share that of a legacy entry of the same incarnation.
abbrev pub IsRestored : (f : Limiter) → Mitigations → ℤ → Entry f → Type 0
IsRestored legacy_nice st k e = HasNice legacy_nice k e (runtime_adjustment_plan st)
IsRestored memory_nice st k e =
    HasNice memory_nice k e (runtime_adjustment_plan st)
    ⊎ ((r : ReniceState) × Memᴰ (k, r) st.reniced_pids
        × (same_process_incarnation r.identity e.identity ≡ true)
        × HasNice memory_nice k r (runtime_adjustment_plan st))
IsRestored bias st k e = Memᴰ (oom_bias k e.0 e.1) (runtime_adjustment_plan st)
IsRestored cap st k e = Memᴰ (cpu_cap k e.0 e.1 e.2) (runtime_adjustment_plan st)

module _ (st : Mitigations) (k : ℤ) where
  planned :
      (f : Limiter) (e : ReniceState) (s : NiceRestoreScope)
      → in_scope f s ≡ true
      → Memᴰ
          (nice k e.original_nice e.identity s)
          (nice_plan (add_memory (add_legacy [] st.reniced_pids) st.memory_reniced_pids))
      → HasNice f k e (runtime_adjustment_plan st)
  unfolding runtime_adjustment_plan
  planned f e s i m =
      (s, i, Memᴰ.append_left (oom_plan st.oom_biased_pids ++ cap_plan st.capped_pids) m)

pub runtime_adjustment_plan-IsRestored :
    (st : Mitigations) (f : Limiter) (k : ℤ) (e : Entry f)
    → look f k st ≡ some e
    → IsRestored f st k e
unfolding runtime_adjustment_plan get
runtime_adjustment_plan-IsRestored st legacy_nice k e h =
    let t = add_legacy [] st.reniced_pids in
    let (s, i, m) =
      add_memory-keeps k legacy_nice st.memory_reniced_pids t e refl
        (legacy, refl, add_legacy-adds k st.reniced_pids [] e h) in
    planned st k legacy_nice e s i
      (nice_plan-Mem k (add_memory t st.memory_reniced_pids) (restore_in s e) m)
runtime_adjustment_plan-IsRestored st memory_nice k e h =
    let t = add_legacy [] st.reniced_pids in
    let u = add_memory t st.memory_reniced_pids in
    elim (add_memory-adds k st.memory_reniced_pids t e h) [
      | inl (s, i, m) ↦ inl (planned st k memory_nice e s i (nice_plan-Mem k u (restore_in s e) m))
      | inr (r, m, i, s, j, q) ↦ elim (add_legacy-from k st.reniced_pids [] r m) [
        | inl z ↦ elim z [ ]
        | inr (x, n, w) ↦ inr (
          x,
          n,
          rw w at i,
          planned st k memory_nice x s j (nice_plan-Mem k u (restore_in s x) (rw w at q)),
        )
      ]
    ]
runtime_adjustment_plan-IsRestored st bias k e h =
    Memᴰ.append_right
      (nice_plan (add_memory (add_legacy [] st.reniced_pids) st.memory_reniced_pids))
      (Memᴰ.append_left (cap_plan st.capped_pids) (oom_plan-Mem st.oom_biased_pids k e h))
runtime_adjustment_plan-IsRestored st cap k e h =
    Memᴰ.append_right
      (nice_plan (add_memory (add_legacy [] st.reniced_pids) st.memory_reniced_pids))
      (Memᴰ.append_right (oom_plan st.oom_biased_pids) (cap_plan-Mem st.capped_pids k e h))

-- Some adjustment of the plan is one of this table on this pid.
abbrev pub covered : Limiter → ℤ → List RuntimeAdjustment → Bool
covered f k plan = any_of (λ (x : RuntimeAdjustment). covers f k x) plan

covered-Mem :
    (f : Limiter) (k : ℤ) (x : RuntimeAdjustment) (plan : List RuntimeAdjustment)
    → covers f k x ≡ true
    → Memᴰ x plan
    → covered f k plan ≡ true
unfolding any_of
covered-Mem f k x [] c m = elim m [ ]
covered-Mem f k x (y ∷ plan) c m = elim (Memᴰ.cases_cons m) [
  | inl e ↦ rw (sym e, c) refl
  | inr t ↦ elim (Bool-cases (covers f k y)) [
    | inl b ↦ rw b refl
    | inr b ↦ rw b (covered-Mem f k x plan c t)
  ]
]

covered-HasNice :
    (f : Limiter) (k : ℤ) (e : ReniceState) (plan : List RuntimeAdjustment)
    → HasNice f k e plan
    → covered f k plan ≡ true
covered-HasNice f k e plan (s, i, m) =
    covered-Mem f k (nice k e.original_nice e.identity s) plan (rw (i, ==_refl k) refl) m

-- Every entry of the four tables has an adjustment of its table and pid in the plan.
pub runtime_adjustment_plan-covers :
    (st : Mitigations) (f : Limiter) (k : ℤ) (e : Entry f)
    → look f k st ≡ some e
    → covered f k (runtime_adjustment_plan st) ≡ true
runtime_adjustment_plan-covers st legacy_nice k e h =
    covered-HasNice legacy_nice k e (runtime_adjustment_plan st)
      (runtime_adjustment_plan-IsRestored st legacy_nice k e h)
runtime_adjustment_plan-covers st memory_nice k e h =
    elim (runtime_adjustment_plan-IsRestored st memory_nice k e h) [
      | inl own ↦ covered-HasNice memory_nice k e (runtime_adjustment_plan st) own
      | inr (r, m, i, shared) ↦ covered-HasNice memory_nice k r (runtime_adjustment_plan st) shared
    ]
runtime_adjustment_plan-covers st bias k e h =
    covered-Mem bias k (oom_bias k e.0 e.1) (runtime_adjustment_plan st) (==_refl k)
      (runtime_adjustment_plan-IsRestored st bias k e h)
runtime_adjustment_plan-covers st cap k e h =
    covered-Mem cap k (cpu_cap k e.0 e.1 e.2) (runtime_adjustment_plan st) (==_refl k)
      (runtime_adjustment_plan-IsRestored st cap k e h)
