-- ===== src/Runtime/Restore/Kept.antt =====
-- The restoration and a process that cannot be identified.
use dracon_system_disk_proce.Common.{
  ◌≡◌, refl, sym, ◌∙◌, ap, ◌≢◌, ◌⊎◌, inl, inr, Bool, true, false, ◌&&◌, Option, some, List, [], ◌∷◌,
  ◌==◌, Bool-cases, ==→≡, any_of,
}
use dracon_system_disk_proce.Common.Signed.{ℤ, int_eq}
use dracon_system_disk_proce.Common.Table.{get}
use dracon_system_disk_proce.Nice.{ProcSample}
use dracon_system_disk_proce.Process.{ProcessIdentity, ProcessIdentityStatus, unavailable}
use dracon_system_disk_proce.Runtime.{Mitigations, remove_cpu_cap}
use dracon_system_disk_proce.Runtime.Plan.{
  RuntimeAdjustment, nice, oom_bias, cpu_cap, runtime_adjustment_plan,
}
use dracon_system_disk_proce.Oom.Fields.{Tracked, tracked, tracked-sweep}
use dracon_system_disk_proce.Runtime.Restore.{
  Host, Capped, release_leases, restore_all, before_plan, restore_runtime_adjustments_with_samples,
  nothing_tracked, is_empty, restore_runtime_open, restore_runtime_shut,
}
use dracon_system_disk_proce.Runtime.Restore.Effect.{ended_by, look-restore_all}
use dracon_system_disk_proce.Runtime.Restore.Removal.{
  Limiter, legacy_nice, memory_nice, bias, cap, Entry, look, in_scope, covers, covers_bias,
  covers_cap, ends_tracking, nice_ends, oom_ends, cap_ends, look-remove_cpu_cap,
}

get-nonempty {ℓ} :
    {V : Type ℓ} → (m : List (ℤ × V)) (k : ℤ) (v : V) → get m k ≡ some v → is_empty m ≡ false
unfolding get
get-nonempty [] k v h = cc
get-nonempty (x ∷ m) k v h = refl

and_false : (b : Bool) → (b && false) ≡ false
and_false true = refl
and_false false = refl

and_four : (a b c d e : Bool) → (c ≡ false) ⊎ (e ≡ false) → (a && (b && (c && (d && e)))) ≡ false
and_four false b c d e h = refl
and_four true false c d e h = refl
and_four true true false d e h = refl
and_four true true true false e h = refl
and_four true true true true e (inl h) = cc
and_four true true true true e (inr h) = h

module _ (h : Host) (k : ℤ)
    (unread : (id : ProcessIdentity) → h.proc.status k id ≡ unavailable) where
  -- A test on the pid and an answer about the pid.
  not_both :
      (pid : ℤ) (here : Bool) (id : ProcessIdentity) (ends : ProcessIdentityStatus → Bool)
      → ends unavailable ≡ false
      → (here ≡ true → pid ≡ k)
      → (here && ends (h.proc.status pid id)) ≡ false
  not_both pid false id ends u e = refl
  not_both pid true id ends u e =
      ap (λ (i : ℤ). ends (h.proc.status i id)) (e refl) ∙ ap ends (unread id) ∙ u

  in_scope_here : (b : Bool) (pid : ℤ) → (b && pid == k) ≡ true → pid ≡ k
  in_scope_here true pid e = ==→≡ pid k e
  in_scope_here false pid e = cc

  bias_here : (f : Limiter) (pid : ℤ) → covers_bias f pid k ≡ true → pid ≡ k
  bias_here bias pid e = ==→≡ pid k e
  bias_here legacy_nice pid e = cc
  bias_here memory_nice pid e = cc
  bias_here cap pid e = cc

  cap_here : (f : Limiter) (pid : ℤ) → covers_cap f pid k ≡ true → pid ≡ k
  cap_here cap pid e = ==→≡ pid k e
  cap_here legacy_nice pid e = cc
  cap_here memory_nice pid e = cc
  cap_here bias pid e = cc

  never_ends : (f : Limiter) (x : RuntimeAdjustment) → (covers f k x && ends_tracking h x) ≡ false
  never_ends f (nice pid original id scope) =
      not_both pid (in_scope f scope && pid == k) id (nice_ends h pid original) refl
        (in_scope_here (in_scope f scope) pid)
  never_ends f (oom_bias pid adj id) =
      not_both pid (covers_bias f pid k) id (oom_ends h pid adj id) refl (bias_here f pid)
  never_ends f (cpu_cap pid scope cgroup id) =
      not_both pid (covers_cap f pid k) id (cap_ends h pid scope cgroup) refl (cap_here f pid)

  never_ended : (f : Limiter) (plan : List RuntimeAdjustment) → ended_by h f k plan ≡ false
  unfolding any_of
  never_ended f [] = refl
  never_ended f (x ∷ plan) = rw (never_ends f x, never_ended f plan) refl

  look-release_leases :
      (f : Limiter) (cs : List Capped) (st : Mitigations)
      → f ≢ cap
      → look f k (release_leases h cs st) ≡ look f k st
  unfolding release_leases
  look-release_leases f [] st n = refl
  look-release_leases f ((pid, (key, generation, id)) ∷ cs) st n =
      elim (Bool-cases (h.is_lease key && h.release key generation)) [
        | inl released ↦
            rw released
              (look-release_leases f cs (remove_cpu_cap st pid) n ∙ look-uncapped f pid st n)
        | inr held ↦ rw held (look-release_leases f cs st n)
      ]
    where
      look-uncapped :
          (f : Limiter) (pid : ℤ) (st : Mitigations)
          → f ≢ cap
          → look f k (remove_cpu_cap st pid) ≡ look f k st
      look-uncapped legacy_nice pid st n = look-remove_cpu_cap legacy_nice st pid k
      look-uncapped memory_nice pid st n = look-remove_cpu_cap memory_nice st pid k
      look-uncapped bias pid st n = look-remove_cpu_cap bias st pid k
      look-uncapped cap pid st n = absurd (n refl)

  abbrev found : (f : Limiter) → Tracked → Option (Entry f)
  found legacy_nice t = get t.0 k
  found memory_nice t = get t.1 k
  found bias t = get t.2 k
  found cap t = get t.3 k

  found-tracked : (f : Limiter) (st : Mitigations) → found f (tracked st) ≡ look f k st
  found-tracked legacy_nice st = refl
  found-tracked memory_nice st = refl
  found-tracked bias st = refl
  found-tracked cap st = refl

  look-before_plan :
      (f : Limiter) (st : Mitigations) (samples : List ProcSample)
      → f ≢ cap
      → look f k (before_plan h st samples) ≡ look f k st
  unfolding before_plan
  look-before_plan f st samples n =
      sym (found-tracked f (before_plan h st samples))
      ∙ ap (found f) (tracked-sweep h.proc [] samples (release_leases h st.capped_pids st))
      ∙ found-tracked f (release_leases h st.capped_pids st)
      ∙ look-release_leases f st.capped_pids st n

  tracks_some :
      (f : Limiter) (st : Mitigations) (e : Entry f)
      → look f k st ≡ some e
      → nothing_tracked st ≡ false
  tracks_some legacy_nice st e h = rw (get-nonempty st.reniced_pids k e h) refl
  tracks_some memory_nice st e h =
      rw (get-nonempty st.memory_reniced_pids k e h) (and_false (is_empty st.reniced_pids))
  tracks_some bias st e h =
      and_four (is_empty st.reniced_pids) (is_empty st.memory_reniced_pids) _
        (is_empty st.oom_pending_descendants) (is_empty st.capped_pids)
        (inl (get-nonempty st.oom_biased_pids k e h))
  tracks_some cap st e h =
      and_four (is_empty st.reniced_pids) (is_empty st.memory_reniced_pids)
        (is_empty st.oom_biased_pids) (is_empty st.oom_pending_descendants) _
        (inr (get-nonempty st.capped_pids k e h))

  -- Whatever else the restoration does, it keeps the niced and biased entries of a process that
  -- cannot be identified, with their recorded original values, and then reports that it has not
  -- restored everything.
  pub restore_runtime_keeps_unread :
      (f : Limiter) (st : Mitigations) (samples : List ProcSample) (e : Entry f)
      → f ≢ cap
      → look f k st ≡ some e
      → let (left, restored) = restore_runtime_adjustments_with_samples h st samples in
        (look f k left ≡ some e) × (restored ≡ false)
  restore_runtime_keeps_unread f st samples e n held =
      elim (Bool-cases st.mitigation_ledger_unavailable) [
        | inl shut ↦
            let result = restore_runtime_shut h st samples shut in
            (
              ap (λ (r : Mitigations × Bool). look f k r.0) result ∙ held,
              ap (λ (r : Mitigations × Bool). r.1) result,
            )
        | inr open_ ↦
            let ready = before_plan h st samples in
            let left = restore_all h ready (runtime_adjustment_plan ready) in
            let result = restore_runtime_open h st samples open_ in
            let stays : look f k left ≡ some e =
              look-restore_all h f k (runtime_adjustment_plan ready) ready
              ∙ rw (never_ended f (runtime_adjustment_plan ready))
                  (look-before_plan f st samples n ∙ held) in
            (
              ap (λ (r : Mitigations × Bool). look f k r.0) result ∙ stays,
              ap (λ (r : Mitigations × Bool). r.1) result ∙ tracks_some f left e stays,
            )
      ]
