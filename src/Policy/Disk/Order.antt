-- ===== src/Policy/Disk/Order.antt =====
-- What the disk bands promise their readers.
use dracon_system_disk_proce.Common.{
  ◌⊎◌, inl, inr, Bool-cases, leb, leb→le, leb→gt, ◌≤◌, ◌<◌, ◌≡◌, refl, ap, ◌≢◌, [], ◌∙◌, sym,
  length, length-append, ◌++◌, List, String, arith, append-nil,
}
use dracon_system_disk_proce.Policy.Knobs.{
  below, silent-floor, silent-ceil, silent-band, silent-below, below-noisy, below_bound, below-pos,
  below-le, below-below, knob_values,
}
use dracon_system_disk_proce.Policy.Disk.{DiskBands, normalize_disk}

pub record IsOrdered (d : DiskBands) : Type 0 where
  pub early_pos : 1 ≤ d.disk_early_warn_percent
  pub early_le_warn : d.disk_early_warn_percent ≤ d.disk_warn_percent
  pub warn_le_action : d.disk_warn_percent ≤ d.disk_action_percent
  pub action_le_critical : d.disk_action_percent ≤ d.disk_critical_percent
  pub critical_le_full : d.disk_critical_percent ≤ 100
  pub proactive_below :
      2 ≤ d.disk_action_percent → d.proactive_cleanup_percent < d.disk_action_percent
  pub unfreeze_pos : 1 ≤ d.unfreeze_below_percent
  pub unfreeze_le_full : d.unfreeze_below_percent ≤ 100
  pub unfreeze_below : 2 ≤ d.disk_action_percent → d.unfreeze_below_percent < d.disk_action_percent
  pub inode_range : (1 ≤ d.inode_warn_percent) × (d.inode_warn_percent ≤ 100)
  pub mem_range : (1 ≤ d.mem_available_warn_percent) × (d.mem_available_warn_percent ≤ 100)
  pub swap_range : (1 ≤ d.swap_used_warn_percent) × (d.swap_used_warn_percent ≤ 100)

-- After normalisation the early, warn, action and critical thresholds rise in this order within
-- 1..=100, and the two gates that act before `action` lie below it unless `action` is 1.
pub normalize_disk-IsOrdered : (d : DiskBands) → IsOrdered (normalize_disk d).0
unfolding normalize_disk
normalize_disk-IsOrdered d = record {
  early_pos = omega knob_values;
  early_le_warn = omega knob_values;
  warn_le_action = omega knob_values;
  action_le_critical = omega knob_values;
  critical_le_full = omega knob_values;
  proactive_below = λ h. below_bound _ _ _ h;
  unfreeze_pos = below-pos _ _ _ (omega knob_values);
  unfreeze_le_full = below-le _ _ _ _ (omega knob_values) (omega knob_values) (omega arith);
  unfreeze_below = λ h. below_bound _ _ _ h;
  inode_range = (omega knob_values, omega knob_values);
  mem_range = (omega knob_values, omega knob_values);
  swap_range = (omega knob_values, omega knob_values);
}

-- What the two gates push when their values are already settled.
abbrev gates : DiskBands → List String
gates d =
    (below "proactive_cleanup_percent" d.disk_action_percent d.proactive_cleanup_percent).1
    ++ (below "unfreeze_below_percent" d.disk_action_percent d.unfreeze_below_percent).1

module _ (d : DiskBands) (o : IsOrdered d) where
  open d use {
    disk_early_warn_percent as early, disk_warn_percent as warn, disk_action_percent as action,
    disk_critical_percent as critical, proactive_cleanup_percent as proactive,
    unfreeze_below_percent as unfreeze, inode_warn_percent as inode,
    mem_available_warn_percent as mem, swap_used_warn_percent as swap,
  }

  -- Ordered bands whose gates are settled are left alone, and only the gates may be reported.
  normalize_disk-settled :
      (below "proactive_cleanup_percent" action proactive).0 ≡ proactive
      → (below "unfreeze_below_percent" action unfreeze).0 ≡ unfreeze
      → normalize_disk d ≡ (d, gates d)
  unfolding normalize_disk
  normalize_disk-settled hp hu =
      rw
        (
          silent-band "disk_warn_percent" 1 100 warn (omega arith) (omega arith),
          silent-band "disk_early_warn_percent" 1 100 early (omega arith) (omega arith),
          silent-ceil "disk_early_warn_percent" warn early (omega arith),
          silent-floor "disk_action_percent" warn action (omega arith),
          silent-floor "disk_critical_percent" action critical (omega arith),
          silent-ceil "disk_action_percent" 100 action (omega arith),
          silent-ceil "disk_critical_percent" 100 critical (omega arith),
          silent-band "unfreeze_below_percent" 1 100 unfreeze (omega arith) (omega arith),
          silent-band "inode_warn_percent" 1 100 inode (omega arith) (omega arith),
          silent-band "mem_available_warn_percent" 1 100 mem (omega arith) (omega arith),
          silent-band "swap_used_warn_percent" 1 100 swap (omega arith) (omega arith),
          hp,
          hu,
        )
        (simp append-nil refl)

-- A second pass changes no value, and reports what its two gates report.
normalize_disk_twice :
    (d : DiskBands) → let d' = (normalize_disk d).0 in normalize_disk d' ≡ (d', gates d')
normalize_disk_twice d =
    normalize_disk-settled (normalize_disk d).0 (normalize_disk-IsOrdered d)
      (unfold normalize_disk in below-below _ _ _) (unfold normalize_disk in below-below _ _ _)

-- Normalising the disk bands twice gives the values of normalising them once, for every policy;
-- the second pass reports nothing unless the first left `disk_action_percent` below 2.
pub normalize_disk_idem :
    (d : DiskBands)
    → ((normalize_disk (normalize_disk d).0).0 ≡ (normalize_disk d).0)
      × (((normalize_disk d).0.disk_action_percent < 2)
          ⊎ ((normalize_disk (normalize_disk d).0).1 ≡ []))
normalize_disk_idem d =
    let o = normalize_disk-IsOrdered d in
    (
      ap (λ (r : DiskBands × List String). r.0) (normalize_disk_twice d),
      elim (Bool-cases (leb 2 (normalize_disk d).0.disk_action_percent)) [
        | inr low ↦ inl (leb→gt 2 (normalize_disk d).0.disk_action_percent low)
        | inl high ↦
            let h : 2 ≤ (normalize_disk d).0.disk_action_percent =
              leb→le 2 (normalize_disk d).0.disk_action_percent high in
            inr (
              ap (λ (r : DiskBands × List String). r.1) (normalize_disk_twice d)
              ∙ rw
                  (
                    silent-below "proactive_cleanup_percent" _ _ (o.proactive_below h),
                    silent-below "unfreeze_below_percent" _ _ (o.unfreeze_below h),
                  )
                  refl)
      ],
    )

-- A policy whose `disk_action_percent` is normalised to 1 is reported as clamped on every later
-- pass too, though that pass changes no value.
pub normalize_disk_noisy :
    (d : DiskBands)
    → (normalize_disk d).0.disk_action_percent ≡ 1
    → ((normalize_disk (normalize_disk d).0).0 ≡ (normalize_disk d).0)
      × ((normalize_disk (normalize_disk d).0).1 ≢ [])
normalize_disk_noisy d h = ((normalize_disk_idem d).0, noisy)
  where
    o : IsOrdered (normalize_disk d).0
    o = normalize_disk-IsOrdered d

    noisy : (normalize_disk (normalize_disk d).0).1 ≢ []
    noisy e = absurd (
        omega (
          arith,
          ap length (sym (ap (λ (r : DiskBands × List String). r.1) (normalize_disk_twice d)) ∙ e),
          length-append
              (below "proactive_cleanup_percent" (normalize_disk d).0.disk_action_percent
                (normalize_disk d).0.proactive_cleanup_percent).1
              (below "unfreeze_below_percent" (normalize_disk d).0.disk_action_percent
                (normalize_disk d).0.unfreeze_below_percent).1,
          ap length (
              below-noisy "unfreeze_below_percent" (normalize_disk d).0.disk_action_percent
                (normalize_disk d).0.unfreeze_below_percent (omega (arith, o.unfreeze_pos))),
        ))
