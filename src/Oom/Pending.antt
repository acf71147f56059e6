-- ===== src/Oom/Pending.antt =====
-- The obligations before and after `restore_pending_oom_descendants`.
use dracon_system_disk_proce.Common.{
  ◌+◌, ◌≡◌, refl, sym, ◌∙◌, ap, ◌≢◌, ◌⊎◌, inl, inr, true, Option, none, some, List, [], ◌∷◌, String,
  ◌==◌, if◌then◌else◌, Bool-cases, elem, ==→≡, min, nat_eq, pair_eq,
}
use dracon_system_disk_proce.Common.Signed.{int_eq}
use dracon_system_disk_proce.Common.Table.{get, keys, get-insert, get-remove, elem-keys}
use dracon_system_disk_proce.Runtime.{Mitigations, OomPendingDescendant, Incarnation}
use dracon_system_disk_proce.Oom.{Answers}
use dracon_system_disk_proce.Oom.Sweep.{
  OomSweepResult, PendingFate, discharged, deferred, settled, pending_fate, apply_fate, restore_one,
  restore_keys, restore_pending_oom_descendants, record_oom_retry, remember_oom_descendant_identity,
  u32_max, nothing_swept,
}

abbrev pendings : Mitigations → List (Incarnation × OomPendingDescendant)
pendings st = st.oom_pending_descendants

abbrev bump : OomPendingDescendant → OomPendingDescendant
bump p = record p { attempts = min (p.attempts + 1) u32_max }

-- The entry of a key after its fate.
abbrev kept_by : PendingFate → OomPendingDescendant → Option OomPendingDescendant
kept_by deferred p = some (bump p)
kept_by discharged p = none
kept_by (settled did) p = none

fate-cases : (fate : PendingFate) → (fate ≡ deferred) ⊎ (fate ≢ deferred)
fate-cases deferred = inl refl
fate-cases discharged = inr (λ e. cc)
fate-cases (settled did) = inr (λ e. cc)

kept_by-none :
    (fate : PendingFate) (p : OomPendingDescendant) → fate ≢ deferred → kept_by fate p ≡ none
kept_by-none deferred p h = absurd (h refl)
kept_by-none discharged p h = refl
kept_by-none (settled did) p h = refl

module _ (a : Answers) (exempt : List String) where
  abbrev kept : Incarnation → Option OomPendingDescendant → Option OomPendingDescendant
  kept key none = none
  kept key (some p) = kept_by (pending_fate a exempt key.0 p) p

  get-apply_fate :
      (fate : PendingFate) (j k : Incarnation) (p : OomPendingDescendant)
      (s : Mitigations × OomSweepResult)
      → get (pendings (apply_fate fate j p s).0) k
        ≡ (if j == k then kept_by fate p else get (pendings s.0) k)
  unfolding apply_fate record_oom_retry remember_oom_descendant_identity
  get-apply_fate discharged j k p s = get-remove (pendings s.0) j k
  get-apply_fate deferred j k p s = get-insert (pendings s.0) j k (bump p)
  get-apply_fate (settled did) j k p s = get-remove (pendings s.0) j k

  get-restore_one :
      (j k : Incarnation) (s : Mitigations × OomSweepResult) (o : Option OomPendingDescendant)
      → get (pendings s.0) j ≡ o
      → get (pendings (restore_one a exempt j o s).0) k
        ≡ (if j == k then kept j o else get (pendings s.0) k)
  get-restore_one j k s none e = elim (Bool-cases (j == k)) [
    | inl same ↦ rw same (ap (get (pendings s.0)) (sym (==→≡ j k same)) ∙ e)
    | inr other ↦ rw other refl
  ]
  get-restore_one j k s (some p) e = get-apply_fate (pending_fate a exempt j.0 p) j k p s

  get-step :
      (j k : Incarnation) (s : Mitigations × OomSweepResult)
      → get (pendings (restore_one a exempt j (get (pendings s.0) j) s).0) k
        ≡ (if j == k then kept k (get (pendings s.0) k) else get (pendings s.0) k)
  get-step j k s = get-restore_one j k s (get (pendings s.0) j) refl ∙ elim (Bool-cases (j == k)) [
    | inl same ↦ rw same (ap (λ (i : Incarnation). kept i (get (pendings s.0) i)) (==→≡ j k same))
    | inr other ↦ rw other refl
  ]

  module _ (k : Incarnation) where
    -- A key that is not pending does not become so.
    pub restore_keys-none :
        (js : List Incarnation) (s : Mitigations × OomSweepResult)
        → get (pendings s.0) k ≡ none
        → get (pendings (restore_keys a exempt js s).0) k ≡ none
    unfolding restore_keys
    restore_keys-none [] s e = e
    restore_keys-none (j ∷ js) s e =
        restore_keys-none js (restore_one a exempt j (get (pendings s.0) j) s) (
          get-step j k s ∙ elim (Bool-cases (j == k)) [
            | inl same ↦ rw (same, e) refl
            | inr other ↦ rw (other, e) refl
          ])

    -- The debt of an entry: all but its count of attempts.
    abbrev pub IsDebt : OomPendingDescendant → Option OomPendingDescendant → Type 0
    IsDebt p o =
        (q : OomPendingDescendant) × (o ≡ some q)
        × (q.root_pid ≡ p.root_pid)
        × (q.original_adj ≡ p.original_adj)
        × (q.identity ≡ p.identity)

    fate_of_debt :
        (p q : OomPendingDescendant)
        → q.original_adj ≡ p.original_adj
        → q.identity ≡ p.identity
        → pending_fate a exempt k.0 q ≡ pending_fate a exempt k.0 p
    unfolding pending_fate
    fate_of_debt p q e f =
        λ i. pending_fate a exempt k.0 (record p { original_adj = e i; identity = f i })

    restore_keys-deferred :
        (js : List Incarnation) (s : Mitigations × OomSweepResult) (p : OomPendingDescendant)
        → pending_fate a exempt k.0 p ≡ deferred
        → IsDebt p (get (pendings s.0) k)
        → IsDebt p (get (pendings (restore_keys a exempt js s).0) k)
    unfolding restore_keys
    restore_keys-deferred [] s p d debt = debt
    restore_keys-deferred (j ∷ js) s p d (q, e, root, adj, id) =
        restore_keys-deferred js (restore_one a exempt j (get (pendings s.0) j) s) p d (
          rw (get-step j k s, e)
            (elim (Bool-cases (j == k)) [
              | inl same ↦ rw (same, fate_of_debt p q adj id, d) (bump q, refl, root, adj, id)
              | inr other ↦ rw other (q, refl, root, adj, id)
            ]))

    restore_keys-dropped :
        (js : List Incarnation) (s : Mitigations × OomSweepResult) (p : OomPendingDescendant)
        → pending_fate a exempt k.0 p ≢ deferred
        → elem k js ≡ true
        → get (pendings s.0) k ≡ some p
        → get (pendings (restore_keys a exempt js s).0) k ≡ none
    unfolding restore_keys elem
    restore_keys-dropped [] s p d m e = cc
    restore_keys-dropped (j ∷ js) s p d m e = elim (Bool-cases (j == k)) [
      | inl same ↦
          restore_keys-none js (restore_one a exempt j (get (pendings s.0) j) s)
            (get-step j k s ∙ rw (same, e) (kept_by-none (pending_fate a exempt k.0 p) p d))
      | inr other ↦
          restore_keys-dropped js (restore_one a exempt j (get (pendings s.0) j) s) p d
            (rw other at m) (get-step j k s ∙ rw (other, e) refl)
    ]

  -- After the retry pass an obligation that could not be met in it is still owed, with its root, its
  -- original value and its process; every other obligation is dropped.
  pub restore_pending_debts :
      (st : Mitigations) (k : Incarnation) (p : OomPendingDescendant)
      → get (pendings st) k ≡ some p
      → let left = get (pendings (restore_pending_oom_descendants a exempt st).0) k in
        ((pending_fate a exempt k.0 p ≡ deferred) × IsDebt k p left)
        ⊎ ((pending_fate a exempt k.0 p ≢ deferred) × (left ≡ none))
  unfolding restore_pending_oom_descendants
  restore_pending_debts st k p e = elim (fate-cases (pending_fate a exempt k.0 p)) [
    | inl d ↦ inl (
      d,
      restore_keys-deferred k (keys (pendings st)) (st, nothing_swept) p d (p, e, refl, refl, refl),
    )
    | inr d ↦ inr (
      d,
      restore_keys-dropped k (keys (pendings st)) (st, nothing_swept) p d
          (elem-keys (pendings st) k p e) e,
    )
  ]
