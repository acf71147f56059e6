-- ===== src/Lease/Cap/Backed.antt =====
-- `cap_prepared` where no lease is on file.
use dracon_system_disk_proce.Common.{
  ℕ, ◌*◌, ◌<◌, ◌≡◌, refl, sym, ◌∙◌, ◌⊎◌, inl, inr, min, leb, nat_beq, Bool, true, false, not, ◌&&◌,
  Option, none, some, String, string_eq, arith, if_cases, subst,
}
use dracon_system_disk_proce.Lease.{
  Lease, World, Write, refused, unverified, verified, reported, save, Outcome, ok, err,
}
use dracon_system_disk_proce.Lease.Cap.{
  Answers, operated, says, finish, apply_checked, arm_and_apply, new_lease, cap_new,
}

abbrev pub is_err : Outcome → Bool
is_err (ok g) = false
is_err (err m) = true

-- The lease on file is armed, holds the quota that was replaced, and lowered it.
abbrev pub Backed : ℕ → World → Type 0
Backed before w1 =
    (l : Lease) × (w1.stored ≡ some l)
    × (l.armed ≡ true)
    × (l.original ≡ before)
    × (l.applied ≡ w1.quota)
    × (w1.quota < before)

-- The result of a new lease: an error with the quota as it stood, or a backed change.
abbrev pub Safe : ℕ → World × Outcome → Type 0
Safe before r = ((r.0.quota ≡ before) × (is_err r.1 ≡ true)) ⊎ Backed before r.0

module _ (lease : Lease) (w : World) (stored : w.stored ≡ some lease) (armed : lease.armed ≡ true)
    (original : lease.original ≡ w.quota) (lower : lease.applied < w.quota) where
  finish-Safe :
      (set_applied save_applied : Write) → Safe w.quota (finish set_applied save_applied w lease)
  finish-Safe refused s = inl (refl, refl)
  finish-Safe unverified s = inr (lease, stored, armed, original, refl, lower)
  finish-Safe verified refused = inr (lease, stored, armed, original, refl, lower)
  finish-Safe verified unverified =
      inr (record lease { applied_verified = true }, refl, armed, original, refl, lower)
  finish-Safe verified verified =
      inr (record lease { applied_verified = true }, refl, armed, original, refl, lower)

operated-stored : (o : Option ℕ) (w : World) → (operated o w).stored ≡ w.stored
operated-stored none w = refl
operated-stored (some q) w = refl

and_second : (a b : Bool) → (a && b) ≡ true → b ≡ true
and_second true b h = h
and_second false b h = cc

affirm : (b : Bool) → not b ≡ false → b ≡ true
affirm true h = refl
affirm false h = cc

pub nat_beq→≡ : (m n : ℕ) → nat_beq m n ≡ true → m ≡ n
nat_beq→≡ m n h = ground arith

leb-gt : (m n : ℕ) → leb m n ≡ false → n < m
leb-gt m n h = ground arith

module _ (a : Answers) where
  apply_checked-Safe :
      (w : World) (lease : Lease)
      → w.stored ≡ some lease
      → lease.armed ≡ true
      → lease.applied < lease.original
      → Safe (operated a.operator w).quota (apply_checked a w lease)
  unfolding apply_checked
  apply_checked-Safe w lease stored armed lower =
      let now = operated a.operator w in
      if_cases (Safe now.quota) (not (says a.delegate "no")) _ _ (λ h. inl (refl, refl))
        (λ h.
          if_cases (Safe now.quota) (not a.workload_valid) _ _ (λ h. inl (refl, refl))
            (λ h.
              if_cases (Safe now.quota)
                (not (a.quota_reads_again && nat_beq now.quota lease.original)) _ _
                (λ h. inl (refl, refl))
                (λ same.
                  let q : now.quota ≡ lease.original =
                    nat_beq→≡ now.quota lease.original
                      (and_second a.quota_reads_again _ (affirm _ same)) in
                  if_cases (Safe now.quota) (not (says a.invocation_again lease.invocation)) _ _
                    (λ h. inl (refl, refl))
                    (λ h.
                      if_cases (Safe now.quota) (leb lease.expires_at_unix_secs a.now_again) _ _
                        (λ h. inl (refl, refl))
                        (λ h.
                          finish-Safe lease now (operated-stored a.operator w ∙ stored) armed
                            (sym q) (omega (arith, q, lower)) a.set_applied a.save_applied)))))

  operated-quota :
      (o : Option ℕ) (w w1 : World)
      → w1.quota ≡ w.quota
      → (operated o w1).quota ≡ (operated o w).quota
  operated-quota none w w1 h = h
  operated-quota (some q) w w1 h = refl

  -- What a write of a lease leaves of the quota, and what a reported one leaves on file.
  save-quota : (x : Write) (w : World) (l : Lease) → (save x w l).quota ≡ w.quota
  save-quota refused w l = refl
  save-quota unverified w l = refl
  save-quota verified w l = refl

  save-stored :
      (x : Write) (w : World) (l : Lease) → reported x ≡ true → (save x w l).stored ≡ some l
  save-stored refused w l h = cc
  save-stored unverified w l h = cc
  save-stored verified w l h = refl

  -- Relative to the quota before the call, or to the one the operator set during it.
  abbrev pub SafeDuring : World → World × Outcome → Type 0
  SafeDuring w r = Safe w.quota r ⊎ Safe (operated a.operator w).quota r

  arm_and_apply-Safe :
      (w : World) (lease : Lease)
      → lease.applied < lease.original
      → SafeDuring w (arm_and_apply a w lease)
  unfolding arm_and_apply
  arm_and_apply-Safe w lease lower =
      let w1 = save a.save_intent w lease in
      let q1 : w1.quota ≡ w.quota = save-quota a.save_intent w lease in
      let w2 = record w1 { timer = some lease.timer } in
      let armed = record lease { armed = true } in
      let w3 = save a.save_armed w2 armed in
      let q3 : w3.quota ≡ w.quota = save-quota a.save_armed w2 armed ∙ q1 in
      if_cases (SafeDuring w) (not (reported a.save_intent)) _ _ (λ h. inl (inl (q1, refl)))
        (λ h.
          if_cases (SafeDuring w) (not a.arm) _ _ (λ h. inl (inl (q1, refl)))
            (λ h.
              if_cases (SafeDuring w) (not (says a.timer_state "active")) _ _
                (λ h. inl (inl (q1, refl)))
                (λ h.
                  if_cases (SafeDuring w) (reported a.save_armed) _ _
                    (λ kept. inr (
                      subst (λ q. Safe q (apply_checked a w3 armed))
                        (operated-quota a.operator w w3 q3)
                        (apply_checked-Safe w3 armed (save-stored a.save_armed w2 armed kept) refl
                          lower)))
                    (λ h. inl (inl (q3, refl))))))

  pub cap_new-Safe :
      (w : World) (unit boot invocation : String) (percent lease_seconds : ℕ)
      → SafeDuring w (cap_new a w unit boot invocation percent lease_seconds)
  unfolding cap_new
  cap_new-Safe w unit boot invocation percent lease_seconds =
      if_cases (SafeDuring w) (not a.quota_reads) _ _ (λ h. inl (inl (refl, refl)))
        (λ h.
          if_cases (SafeDuring w) (leb w.quota (min w.quota (percent * 10000))) _ _
            (λ h. inl (inl (refl, refl)))
            (λ strict.
              arm_and_apply-Safe w (new_lease a w unit boot invocation percent lease_seconds)
                (leb-gt w.quota (min w.quota (percent * 10000)) strict)))
