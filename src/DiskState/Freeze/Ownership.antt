-- ===== src/DiskState/Freeze/Ownership.antt =====
-- Whose marker the guard touches.
use dracon_system_disk_proce.Common.{
  ℕ, ◌≤◌, ◌≡◌, refl, inl, inr, true, false, none, some, List, [], ◌∷◌, ◌++◌, String, Bool-cases,
  arith, ap, ◌∙◌, leb, ◌&&◌, if◌then◌else◌, le→leb, nat_beq_iff,
}
use dracon_system_disk_proce.DiskState.Freeze.{
  FreezePolicy, FreezeState, MarkerIo, manage_sync_freeze, freeze, unfreeze, wants_freeze,
  guard_owns_sync_freeze_marker, marker_text, is_prefix, guard_freeze_marker_prefix,
}

is_prefix-append : (p r : List ℕ) → is_prefix p (p ++ r) ≡ true
unfolding is_prefix
is_prefix-append [] r = refl
is_prefix-append (c ∷ p) r = ground (arith, is_prefix-append p r, nat_beq_iff c c)

-- The text that the guard writes passes its own ownership test.
own_marker :
    (io : MarkerIo) (used : ℕ)
    → io.read_ok ≡ true
    → guard_owns_sync_freeze_marker io (marker_text used) ≡ true
unfolding guard_owns_sync_freeze_marker
own_marker io used h = rw h (is_prefix-append guard_freeze_marker_prefix _)

unfreeze_foreign :
    (io : MarkerIo) (used : ℕ) (s : FreezeState) (text : List ℕ)
    → guard_owns_sync_freeze_marker io text ≡ false
    → unfreeze io used (some text) s ≡ s
unfolding unfreeze
unfreeze_foreign io used s text h = rw h refl

calm_pass :
    (guard : FreezePolicy) (io : MarkerIo) (used : ℕ) (dstate : String) (s : FreezeState)
    → wants_freeze guard dstate ≡ false
    → manage_sync_freeze guard io used dstate s ≡ (
        if s.sync_frozen && leb used guard.unfreeze_below_percent
        then unfreeze io used s.marker s
        else s)
unfolding manage_sync_freeze
calm_pass guard io used dstate s calm = rw calm refl

hot_pass :
    (guard : FreezePolicy) (io : MarkerIo) (used : ℕ) (dstate : String) (s : FreezeState)
    → wants_freeze guard dstate ≡ true
    → manage_sync_freeze guard io used dstate s ≡ freeze io used s
unfolding manage_sync_freeze
hot_pass guard io used dstate s hot = rw hot refl

-- A pass that does not want the freeze changes nothing, its own flag included, while the marker is
-- another owner's.
pub manage_sync_freeze_foreign :
    (guard : FreezePolicy) (io : MarkerIo) (used : ℕ) (dstate : String) (s : FreezeState)
    (text : List ℕ)
    → wants_freeze guard dstate ≡ false
    → s.marker ≡ some text
    → guard_owns_sync_freeze_marker io text ≡ false
    → manage_sync_freeze guard io used dstate s ≡ s
manage_sync_freeze_foreign guard io used dstate s text calm m foreign =
    rw (calm_pass guard io used dstate s calm)
      (elim (Bool-cases (s.sync_frozen && leb used guard.unfreeze_below_percent)) [
        | inl e ↦ rw e (ap (λ o. unfreeze io used o s) m ∙ unfreeze_foreign io used s text foreign)
        | inr e ↦ rw e refl
      ])

freeze_writes :
    (io : MarkerIo) (used : ℕ) (s : FreezeState)
    → io.write_ok ≡ true
    → s.sync_frozen ≡ false
    → ((freeze io used s).sync_frozen ≡ true)
      × ((freeze io used s).marker ≡ some (marker_text used))
unfolding freeze
freeze_writes io used s w f = (rw (f, w) refl, rw (f, w) refl)

unfreeze_removes :
    (io : MarkerIo) (used : ℕ) (s : FreezeState) (text : List ℕ)
    → guard_owns_sync_freeze_marker io text ≡ true
    → io.remove_ok ≡ true
    → ((unfreeze io used (some text) s).marker ≡ none)
      × ((unfreeze io used (some text) s).sync_frozen ≡ false)
unfolding unfreeze
unfreeze_removes io used s text own d = (rw (own, d) refl, rw (own, d) refl)

-- A marker that was there before the guard froze, an operator's included, does not survive the
-- freeze: the freeze overwrites it, and the next calm pass at or below the unfreeze threshold
-- removes it, if reads, writes and removals succeed.
pub manage_sync_freeze_takes_over :
    (guard : FreezePolicy) (io : MarkerIo) (used calm_used : ℕ) (dstate calm : String)
    (s : FreezeState) (text : List ℕ)
    → io.write_ok ≡ true
    → io.read_ok ≡ true
    → io.remove_ok ≡ true
    → s.sync_frozen ≡ false
    → s.marker ≡ some text
    → wants_freeze guard dstate ≡ true
    → wants_freeze guard calm ≡ false
    → calm_used ≤ guard.unfreeze_below_percent
    → let hot = manage_sync_freeze guard io used dstate s in
      let after = manage_sync_freeze guard io calm_used calm hot in
      (hot.marker ≡ some (marker_text used)) × (after.marker ≡ none) × (after.sync_frozen ≡ false)
unfolding freeze
manage_sync_freeze_takes_over guard io used calm_used dstate calm s text w r d f m hot cold low =
    let (frozen, mark) = freeze_writes io used s w f in
    let (gone, thawed) =
      unfreeze_removes io calm_used (freeze io used s) (marker_text used) (own_marker io used r)
        d in
    rw
      (
        hot_pass guard io used dstate s hot,
        calm_pass guard io calm_used calm _ cold,
        frozen,
        le→leb _ _ low,
        mark,
      )
      (refl, gone, thawed)
