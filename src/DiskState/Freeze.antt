-- ===== src/DiskState/Freeze.antt =====
-- `manage_sync_freeze`: the marker file is shared with `dracon-sync pause`.
pub mod Ownership
use dracon_system_disk_proce.Common.{
  ℕ, ◌+◌, ◌/◌, ◌%◌, Bool, true, false, not, ◌&&◌, ◌||◌, Option, none, some, List, [], ◌∷◌, ◌++◌,
  String, ltb, leb, nat_beq, if◌then◌else◌, codes, string_eq,
}

-- The first bytes of `text` are `prefix`.
unfoldable pub is_prefix : List ℕ → List ℕ → Bool
is_prefix [] text = true
is_prefix (c ∷ prefix) [] = false
is_prefix (c ∷ prefix) (t ∷ text) = nat_beq c t && is_prefix prefix text

abbrev pub guard_freeze_marker_prefix : List ℕ
guard_freeze_marker_prefix = codes "dracon-system guard freeze:"

-- A `u8` in decimal.
abbrev pub decimal : ℕ → List ℕ
decimal n =
    if ltb n 10
    then (48 + n) ∷ []
    else if ltb n 100
    then (48 + n / 10) ∷ (48 + n % 10) ∷ []
    else (48 + n / 100) ∷ (48 + n / 10 % 10) ∷ (48 + n % 10) ∷ []

-- `format!("dracon-system guard freeze: disk={}%\n", used)`
abbrev pub marker_text : ℕ → List ℕ
marker_text used =
    guard_freeze_marker_prefix ++ (codes " disk=" ++ (decimal used ++ (37 ∷ 10 ∷ [])))

-- What the file system answers in one pass. A write that fails leaves `left` in the marker's place.
pub record MarkerIo : Type 0 where
  pub write_ok : Bool
  pub left : Option (List ℕ)
  pub read_ok : Bool
  pub remove_ok : Bool

-- The events that are emitted.
pub data FreezeEvent : Type 0 where
  frozen_at : ℕ → FreezeEvent
  already_cleared : ℕ → FreezeEvent
  unfrozen_at : ℕ → FreezeEvent

-- The daemon's flag, the marker file's bytes (`none`: no file), and the events so far.
pub record FreezeState : Type 0 where
  pub sync_frozen : Bool
  pub marker : Option (List ℕ)
  pub events : List FreezeEvent

pub record FreezePolicy : Type 0 where
  pub freeze_sync_at_action : Bool
  pub unfreeze_below_percent : ℕ

unfoldable pub guard_owns_sync_freeze_marker : MarkerIo → List ℕ → Bool
guard_owns_sync_freeze_marker io text = io.read_ok && is_prefix guard_freeze_marker_prefix text

abbrev pub wants_freeze : FreezePolicy → String → Bool
wants_freeze guard dstate =
    guard.freeze_sync_at_action
    && (string_eq.beq dstate "action" || string_eq.beq dstate "critical")

unfoldable pub freeze : MarkerIo → ℕ → FreezeState → FreezeState
freeze io used s =
    if s.sync_frozen
    then s
    else if io.write_ok
    then (record {
      sync_frozen = true;
      marker = some (marker_text used);
      events = frozen_at used ∷ s.events;
    })
    else record s { marker = io.left }

unfoldable pub unfreeze : MarkerIo → ℕ → Option (List ℕ) → FreezeState → FreezeState
unfreeze io used none s = record s { sync_frozen = false; events = already_cleared used ∷ s.events }
unfreeze io used (some text) s =
    if not (guard_owns_sync_freeze_marker io text)
    then s
    else if io.remove_ok
    then (record { sync_frozen = false; marker = none; events = unfrozen_at used ∷ s.events })
    else s

unfoldable pub manage_sync_freeze : FreezePolicy → MarkerIo → ℕ → String → FreezeState → FreezeState
manage_sync_freeze guard io used dstate s =
    if wants_freeze guard dstate
    then freeze io used s
    else if s.sync_frozen && leb used guard.unfreeze_below_percent
    then unfreeze io used s.marker s
    else s
