-- ===== src/Lease/Release/Compared.antt =====
-- The branches of `release_with`.
use dracon_system_disk_proce.Common.{
  ℕ, ◌≡◌, refl, sym, ap, ◌∙◌, ◌≢◌, ◌⊎◌, inl, inr, nat_beq, Bool, true, false, not, Option, none,
  some, String, if◌then◌else◌, string_eq, arith, if_cases, subst, Bool-cases,
}
use dracon_system_disk_proce.Lease.{
  Lease, World, Write, refused, unverified, verified, reported, set_quota, Outcome, err,
  lease_is_owned,
}
use dracon_system_disk_proce.Lease.Cap.Backed.{is_err, nat_beq→≡}
use dracon_system_disk_proce.Lease.Release.{
  ReleaseAnswers, retire, restore_owned, by_ownership, by_invocation, by_load_state, release_lease,
  release_loaded, release_with,
}

refute : (b : Bool) → not b ≡ true → b ≡ true → ⊥
refute true h g = cc
refute false h g = cc

affirm : (b : Bool) → not b ≡ false → b ≡ true
affirm true h = refl
affirm false h = cc

nat_beq_refl : (n : ℕ) → nat_beq n n ≡ true
nat_beq_refl n = ground arith

-- A release that fails keeps the lease on file; one that succeeds removes it. Either way the
-- quota stays, or the lease's own quota is replaced by the one it had replaced.
abbrev pub Compared : World → Lease → World × Outcome → Type 0
Compared w lease r =
    ((r.0.quota ≡ w.quota) ⊎ ((w.quota ≡ lease.applied) × (r.0.quota ≡ lease.original)))
    × (((is_err r.1 ≡ true) × (r.0.stored ≡ some lease))
        ⊎ ((is_err r.1 ≡ false) × (r.0.stored ≡ none)))

module _ (a : ReleaseAnswers) (w : World) (lease : Lease) (stored : w.stored ≡ some lease) where
  retire-Compared :
      (w1 : World)
      → w1.stored ≡ w.stored
      → (w1.quota ≡ w.quota) ⊎ ((w.quota ≡ lease.applied) × (w1.quota ≡ lease.original))
      → Compared w lease (retire a w1 lease)
  retire-Compared w1 s q =
      if_cases (Compared w lease) a.remove_file _ _ (λ h. (q, inr (refl, refl)))
        (λ h. (q, inl (refl, s ∙ stored)))

  restore_owned-Compared : (set : Write) → Compared w lease (restore_owned a set w lease)
  restore_owned-Compared set =
      if_cases (Compared w lease) (not a.quota_reads) _ _ (λ h. (inl refl, inl (refl, stored)))
        (λ h.
          if_cases (Compared w lease) (nat_beq w.quota lease.applied) _ _
            (λ own. written set (nat_beq→≡ w.quota lease.applied own))
            (λ other. retire-Compared w refl (inl refl)))
    where
      written :
          (set : Write)
          → w.quota ≡ lease.applied
          → Compared w lease (
              let w1 = set_quota set w lease.original in
              if reported set then retire a w1 lease else (w1, err "CPU quota verification failed"))
      written refused q = (inl refl, inl (refl, stored))
      written unverified q = (inr (q, refl), inl (refl, stored))
      written verified q =
          retire-Compared (record w { quota = lease.original }) refl (inr (q, refl))

  by_ownership-Compared : (o : Option Bool) → Compared w lease (by_ownership a w lease o)
  by_ownership-Compared none = (inl refl, inl (refl, stored))
  by_ownership-Compared (some false) = retire-Compared w refl (inl refl)
  by_ownership-Compared (some true) = restore_owned-Compared a.set_original

  by_invocation-Compared :
      (boot load_state : String) (i : Option String)
      → Compared w lease (by_invocation a w lease boot load_state i)
  by_invocation-Compared boot load_state none = (inl refl, inl (refl, stored))
  by_invocation-Compared boot load_state (some i) =
      by_ownership-Compared (lease_is_owned lease.boot_id boot lease.invocation i load_state)

  by_load_state-Compared :
      (boot : String) (s : Option String) → Compared w lease (by_load_state a w lease boot s)
  by_load_state-Compared boot none = (inl refl, inl (refl, stored))
  by_load_state-Compared boot (some s) =
      by_invocation-Compared boot s (if string_eq.beq s "loaded" then a.invocation else some "")

  release_lease-Compared : (boot : String) → Compared w lease (release_lease a w boot lease)
  unfolding release_lease
  release_lease-Compared boot =
      by_load_state-Compared boot
        (if string_eq.beq boot lease.boot_id then a.load_state else some "")

  loaded_eq :
      (boot generation : String)
      → release_loaded a w boot generation w.stored
        ≡ release_loaded a w boot generation (some lease)
  loaded_eq boot generation = ap (release_loaded a w boot generation) stored

  of_generation :
      (boot generation : String)
      → lease.generation ≡ generation
      → Compared w lease (release_with a w boot generation)
  unfolding release_with
  of_generation boot generation same =
      if_cases (Compared w lease) (not a.locked) _ _ (λ h. (inl refl, inl (refl, stored)))
        (λ h.
          if_cases (Compared w lease) (not a.readable) _ _ (λ h. (inl refl, inl (refl, stored)))
            (λ h. subst (Compared w lease) (sym (loaded_eq boot generation)) (
              if_cases (Compared w lease) (not (string_eq.beq lease.generation generation)) _ _
                (λ differs.
                  absurd
                    (refute _ differs ((string_eq.beq_iff lease.generation generation).1 same)))
                (λ h. release_lease-Compared boot))))

  of_another :
      (boot generation : String)
      → lease.generation ≢ generation
      → (release_with a w boot generation).0 ≡ w
  unfolding release_with
  of_another boot generation differs =
      if_cases (λ (r : World × Outcome). r.0 ≡ w) (not a.locked) _ _ (λ h. refl)
        (λ h.
          if_cases (λ (r : World × Outcome). r.0 ≡ w) (not a.readable) _ _ (λ h. refl)
            (λ h.
              subst (λ (r : World × Outcome). r.0 ≡ w) (sym (loaded_eq boot generation))
                (if_cases (λ (r : World × Outcome). r.0 ≡ w)
                  (not (string_eq.beq lease.generation generation)) _ _ (λ h. refl)
                  (λ same. absurd (
                    differs ((string_eq.beq_iff lease.generation generation).0 (affirm _ same)))))))

  -- A release compares before it restores. Of a lease on file with its generation, it replaces the
  -- quota only where the unit still has the lease's own quota, and by the recorded original one; an
  -- error keeps the lease on file, a success removes it. A release of another generation changes
  -- nothing.
  pub release_with_compares :
      (boot generation : String)
      → let r = release_with a w boot generation in
        ((lease.generation ≡ generation) × Compared w lease r)
        ⊎ ((lease.generation ≢ generation) × (r.0 ≡ w))
  release_with_compares boot generation =
      elim (Bool-cases (string_eq.beq lease.generation generation)) [
        | inl e ↦
            let same = (string_eq.beq_iff lease.generation generation).0 e in
            inl (same, of_generation boot generation same)
        | inr e ↦
            let differs : lease.generation ≢ generation = λ same.
              refute _ (ap not e) ((string_eq.beq_iff lease.generation generation).1 same) in
            inr (differs, of_another boot generation differs)
      ]
