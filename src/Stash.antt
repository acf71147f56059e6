-- ===== src/Stash.antt =====
-- stash.rs: moving a directory into the stash, and back.
pub mod Renamed
pub mod FileSystem
pub mod Moves
pub mod Roundtrip
pub mod Listing
pub mod Expiry
use dracon_system_disk_proce.Common.{
  ℕ, ◌+◌, Bool, true, false, not, ◌&&◌, ◌||◌, Option, none, some, List, [], ◌∷◌, ◌++◌, nat_beq,
  if◌then◌else◌, codes, any_of, nat_eq,
}
use dracon_system_disk_proce.Common.Table.{get, insert}
use dracon_system_disk_proce.Common.Text.{Text, text_beq, is_empty}
use dracon_system_disk_proce.Safety.{Canon, starts_with_path}
use dracon_system_disk_proce.Stash.FileSystem.{
  Disk, Node, folder, file, link, special, StashManifest, Io, rename, remove_dir_all, remove_file,
  create_dir_all, copy_tree, walk_stats, walk_stats_strict, parent, list_eq,
}

abbrev pub manifest_name : Text
manifest_name = codes ".stash.json"

pub data StashError : Type 0 where
  cannot_inspect symlink_refused not_a_directory unsafe reserved_name metadata_unreadable nested
        unreadable copy_failed verification_unreadable verification_failed origin_not_removed
        moved_back stranded invalid_name no_such_entry no_manifest origin_exists entry_not_removed :
      StashError

pub data Result {ℓ} (A : Type ℓ) : Type ℓ where
  ok : A → Result A
  err : StashError → Result A

unfoldable pub read_manifest : Disk → Canon → Option StashManifest
read_manifest disk entry_dir = elim (get disk (entry_dir ++ manifest_name ∷ [])) [
  | none ↦ none
  | some node ↦ elim node [
    | file bytes parsed ↦ parsed
    | folder ↦ none
    | link ↦ none
    | special ↦ none
  ]
]

-- The publication of the manifest, and the move back where it fails.
unfoldable pub publish : Io → Disk → Canon → Canon → StashManifest → Disk × Result StashManifest
publish io disk canon_origin entry_dir manifest =
    if io.publishes
    then (
      insert disk (entry_dir ++ manifest_name ∷ []) (file io.manifest_bytes (some manifest)),
      ok manifest,
    )
    else if io.moves_back
    then (rename disk entry_dir canon_origin, err moved_back)
    else (disk, err stranded)

-- The copy where the rename failed, with its verification; `true` is a success.
unfoldable pub verify_copy :
    Io → Disk → Canon → Canon → ℕ × ℕ → Option (ℕ × ℕ) → Disk × Result (Unit {0})
verify_copy io disk canon_origin entry_dir stats none =
    ((remove_dir_all io.cleanup_survives disk entry_dir).0, err verification_unreadable)
verify_copy io disk canon_origin entry_dir (files, bytes) (some (got_files, got_bytes)) =
    let (cleaned, _) = remove_dir_all io.cleanup_survives disk entry_dir in
    let (removed, complete) = remove_dir_all io.origin_survives disk canon_origin in
    if not (nat_beq got_files files) || not (nat_beq got_bytes bytes)
    then (cleaned, err verification_failed)
    else if complete
    then (removed, ok tt)
    else (removed, err origin_not_removed)

unfoldable pub copy_across : Io → Disk → Canon → Canon → ℕ × ℕ → Disk × Result (Unit {0})
unfolding verify_copy
copy_across io disk canon_origin entry_dir stats =
    let (copied, complete) = copy_tree io.copies disk canon_origin entry_dir in
    let cleaned = (remove_dir_all io.cleanup_survives copied entry_dir).0 in
    if complete
    then verify_copy io copied canon_origin entry_dir stats
        (walk_stats_strict io.verify_reads copied entry_dir)
    else (cleaned, err copy_failed)

unfoldable pub transfer : Io → Disk → Canon → Canon → ℕ × ℕ → Disk × Result (Unit {0})
unfolding copy_across
transfer io disk canon_origin entry_dir stats =
    if io.renames
    then (rename disk canon_origin entry_dir, ok tt)
    else copy_across io disk canon_origin entry_dir stats

abbrev publish_after :
    Io → Canon → Canon → StashManifest → Disk × Result (Unit {0}) → Disk × Result StashManifest
publish_after io canon_origin entry_dir manifest (disk, ok u) =
    publish io disk canon_origin entry_dir manifest
publish_after io canon_origin entry_dir manifest (disk, err e) = (disk, err e)

-- What is moved, where to, and when. `name` is the free name that `entry_dir_for` finds.
pub record Request : Type 0 where
  pub root : Canon
  pub name : Text
  pub now : ℕ
  pub auto : Bool

-- From the tally of the origin on.
unfoldable pub move_counted :
    Io → Disk → Request → Canon → Option (ℕ × ℕ) → Disk × Result StashManifest
unfolding transfer publish
move_counted io disk q canon_origin none = (disk, err unreadable)
move_counted io disk q canon_origin (some (files, bytes)) =
    let entry_dir = q.root ++ q.name ∷ [] in
    let manifest : StashManifest = record {
      name = q.name;
      origin = canon_origin;
      moved_at_unix = q.now;
      bytes = bytes;
      files = files;
      auto = q.auto;
    } in
    publish_after io canon_origin entry_dir manifest
      (transfer io disk canon_origin entry_dir (files, bytes))

-- From the resolved origin on.
unfoldable pub move_checked : Io → Disk → Request → Canon → Disk × Result StashManifest
unfolding move_counted
move_checked io disk q canon_origin =
    let created = create_dir_all disk q.root in
    let moved =
      move_counted io created q canon_origin
        (walk_stats_strict io.origin_reads created canon_origin) in
    elim (get disk (canon_origin ++ manifest_name ∷ [])) [
      | some node ↦ (disk, err reserved_name)
      | none ↦
          if not io.metadata_readable
          then (disk, err metadata_unreadable)
          else if starts_with_path canon_origin q.root || starts_with_path q.root canon_origin
          then (created, err nested)
          else moved
    ]

-- `check` is `check_safe_to_delete_guard` with the operator's list: the resolved path, or a refusal.
unfoldable pub stash_move_inner :
    (Canon → Option Canon) → Io → Disk → Request → Canon → Disk × Result StashManifest
unfolding move_checked
stash_move_inner check io disk q origin = elim (get disk origin) [
  | none ↦ (disk, err cannot_inspect)
  | some node ↦ elim node [
    | link ↦ (disk, err symlink_refused)
    | file bytes parsed ↦ (disk, err not_a_directory)
    | special ↦ (disk, err not_a_directory)
    | folder ↦ elim (check origin) [
      | none ↦ (disk, err unsafe)
      | some canon_origin ↦ move_checked io disk q canon_origin
    ]
  ]
]

-- `/`, `\` or NUL.
abbrev separator : ℕ → Bool
separator c = nat_beq c 47 || nat_beq c 92 || nat_beq c 0

unfoldable pub valid_name : Text → Bool
valid_name name = not (
    is_empty name
    || text_beq name (codes ".")
    || text_beq name (codes "..")
    || any_of separator name)

unfoldable pub resolve_entry_dir : Disk → Canon → Text → Result Canon
unfolding valid_name
resolve_entry_dir disk root name =
    if not (valid_name name) then err invalid_name else elim (get disk (root ++ name ∷ [])) [
      | none ↦ err no_such_entry
      | some node ↦ elim node [
        | folder ↦ ok (root ++ name ∷ [])
        | link ↦ err symlink_refused
        | file bytes parsed ↦ err no_such_entry
        | special ↦ err no_such_entry
      ]
    ]

-- The copy back, verified against the manifest.
unfoldable pub restore_verified :
    Io → Disk → Canon → Canon → StashManifest → Option (ℕ × ℕ) → Disk × Result Canon
restore_verified io disk entry_dir origin manifest none = (disk, err verification_unreadable)
restore_verified io disk entry_dir origin manifest (some (got_files, got_bytes)) =
    let cleaned = (remove_dir_all io.cleanup_survives disk origin).0 in
    let (removed, complete) = remove_dir_all io.entry_survives disk entry_dir in
    if not (nat_beq got_files manifest.files) || not (nat_beq got_bytes manifest.bytes)
    then (cleaned, err verification_failed)
    else if complete
    then (removed, ok origin)
    else (removed, err entry_not_removed)

unfoldable pub restore_copy : Io → Disk → Canon → Canon → StashManifest → Disk × Result Canon
unfolding restore_verified
restore_copy io disk entry_dir origin manifest =
    let (copied, complete) = copy_tree io.copies disk entry_dir origin in
    let cleaned = (remove_dir_all io.cleanup_survives copied origin).0 in
    let dropped = remove_file io.unlinks copied (origin ++ manifest_name ∷ []) in
    if complete
    then restore_verified io dropped entry_dir origin manifest
        (walk_stats_strict io.verify_reads dropped origin)
    else (cleaned, err copy_failed)

unfoldable pub restore_entry : Io → Disk → Canon → Option StashManifest → Disk × Result Canon
unfolding restore_copy
restore_entry io disk entry_dir none = (disk, err no_manifest)
restore_entry io disk entry_dir (some manifest) =
    let origin = manifest.origin in
    let prepared = create_dir_all disk (parent origin) in
    elim (get disk origin) [
      | some node ↦ (disk, err origin_exists)
      | none ↦
          if io.renames
          then (
            remove_file io.unlinks (rename prepared entry_dir origin)
                (origin ++ manifest_name ∷ []),
            ok origin,
          )
          else restore_copy io prepared entry_dir origin manifest
    ]

abbrev restore_resolved : Io → Disk → Result Canon → Disk × Result Canon
restore_resolved io disk (err e) = (disk, err e)
restore_resolved io disk (ok entry_dir) =
    restore_entry io disk entry_dir (read_manifest disk entry_dir)

unfoldable pub stash_restore : Io → Disk → Canon → Text → Disk × Result Canon
unfolding restore_entry resolve_entry_dir read_manifest
stash_restore io disk root name = restore_resolved io disk (resolve_entry_dir disk root name)
