-- ===== src/Oom/File.antt =====
-- `oom_restore::restore` on one open `oom_score_adj` file.
use dracon_system_disk_proce.Common.{
  if_cases, ap, ◌∙◌, ◌≡◌, refl, sym, subst, ◌≢◌, ◌⊎◌, inl, inr, Bool, true, false, not, Option,
  none, some, if◌then◌else◌, Bool-cases,
}
use dracon_system_disk_proce.Common.Signed.{ℤ, beq_ℤ, beq_ℤ_iff}
use dracon_system_disk_proce.Process.{ProcessIdentityStatus, matched, gone, mismatch, unavailable}
use dracon_system_disk_proce.Oom.{oom_bias_target_adj, RestoreAnswer, changed, unchanged, failed}

-- The file of a pid while it is held open: whether it opens, the identity check made after the
-- open, its value (`none`: not a number), whether the kernel takes a write, and what the file
-- reads after a value was written.
pub record AdjFile : Type 0 where
  pub opens : Bool
  pub status : ProcessIdentityStatus
  pub value : Option ℤ
  pub takes_write : Bool
  pub reads_back : ℤ → Option ℤ

abbrev is_match : ProcessIdentityStatus → Bool
is_match matched = true
is_match _ = false

abbrev is_value : Option ℤ → ℤ → Bool
is_value none original = false
is_value (some v) original = beq_ℤ v original

abbrev verify : AdjFile → ℤ → Option ℤ → AdjFile × RestoreAnswer
verify f original back =
    if is_value back original
    then (record f { value = back }, changed)
    else (record f { value = back }, failed)

unfoldable pub restore_value : AdjFile → ℤ → Option ℤ → AdjFile × RestoreAnswer
restore_value f original none = (f, failed)
restore_value f original (some current) =
    if not (beq_ℤ current oom_bias_target_adj)
    then (f, unchanged)
    else if f.takes_write
    then verify f original (f.reads_back original)
    else (f, failed)

unfoldable pub restore : AdjFile → ℤ → AdjFile × RestoreAnswer
unfolding restore_value
restore f original =
    if not f.opens
    then (f, failed)
    else if not (is_match f.status)
    then (f, failed)
    else restore_value f original f.value

-- Nothing was written and no change is claimed, or the bias target was replaced by the original
-- value; a change is claimed only if the file then reads that value.
abbrev pub Guarded : AdjFile → ℤ → AdjFile × RestoreAnswer → Type 0
Guarded f original r =
    ((r.0.value ≡ f.value) × (r.1 ≢ changed))
    ⊎ ((f.opens ≡ true)
        × (f.status ≡ matched)
        × (f.value ≡ some oom_bias_target_adj)
        × (r.0.value ≡ f.reads_back original)
        × ((r.1 ≡ failed) ⊎ ((r.1 ≡ changed) × (r.0.value ≡ some original))))

module _ (f : AdjFile) (original : ℤ) (o : f.opens ≡ true) (m : f.status ≡ matched)
    (e : f.value ≡ some oom_bias_target_adj) where
  verify-Guarded :
      (back : Option ℤ) → f.reads_back original ≡ back → Guarded f original (verify f original back)
  verify-Guarded none b = inr (o, m, e, sym b, inl refl)
  verify-Guarded (some v) b = elim (Bool-cases (beq_ℤ v original)) [
    | inl same ↦ rw same (inr (o, m, e, sym b, inr (refl, ap some ((beq_ℤ_iff v original).0 same))))
    | inr other ↦ rw other (inr (o, m, e, sym b, inl refl))
  ]

affirm : (b : Bool) → not b ≡ false → b ≡ true
affirm true h = refl
affirm false h = cc

restore_value-Guarded :
    (f : AdjFile) (original : ℤ) (v : Option ℤ)
    → f.opens ≡ true
    → f.status ≡ matched
    → f.value ≡ v
    → Guarded f original (restore_value f original v)
unfolding restore_value
restore_value-Guarded f original none o m e = inl (refl, λ h. cc)
restore_value-Guarded f original (some current) o m e =
    if_cases (Guarded f original) (not (beq_ℤ current oom_bias_target_adj)) _ _
      (λ other. inl (refl, λ h. cc))
      (λ ours.
        if_cases (Guarded f original) f.takes_write _ _
          (λ open_.
            verify-Guarded f original o m
              (e ∙ ap some ((beq_ℤ_iff current oom_bias_target_adj).0 (affirm _ ours)))
              (f.reads_back original) refl)
          (λ shut. inl (refl, λ h. cc)))

is_match→≡ : (s : ProcessIdentityStatus) → is_match s ≡ true → s ≡ matched
is_match→≡ matched h = refl
is_match→≡ gone h = cc
is_match→≡ mismatch h = cc
is_match→≡ unavailable h = cc

restore_open :
    (f : AdjFile) (original : ℤ)
    → f.opens ≡ true
    → is_match f.status ≡ true
    → restore f original ≡ restore_value f original f.value
unfolding restore
restore_open f original o m = simp (o, m)

-- Compare and restore: the value is written only where the file opened, the process is still the
-- recorded one and the live value is the bias target, and what is written is the original value; a
-- change is claimed only if the file then reads it. Any other value, set by the operator or another
-- tool, stays, and no change is claimed.
pub restore-Guarded : (f : AdjFile) (original : ℤ) → Guarded f original (restore f original)
unfolding restore
restore-Guarded f original = elim (Bool-cases f.opens) [
  | inr shut ↦ rw shut (inl (refl, λ h. cc))
  | inl open_ ↦ elim (Bool-cases (is_match f.status)) [
    | inr other ↦ rw (open_, other) (inl (refl, λ h. cc))
    | inl same ↦
        subst (Guarded f original) (sym (restore_open f original open_ same))
          (restore_value-Guarded f original f.value open_ (is_match→≡ f.status same) refl)
  ]
]
