-- ===== src/Stash/Listing.antt =====
-- stash.rs: the list of the stash, its expiry, and the removal of single entries.
use dracon_system_disk_proce.Common.{
  ℕ, ◌+◌, ◌-◌, ◌/◌, Bool, true, false, not, ◌&&◌, ◌||◌, Option, none, some, List, [], ◌∷◌, nat_beq,
  ltb, if◌then◌else◌, saturating_mul, is_none, nat_eq,
}
use dracon_system_disk_proce.Common.Sort.{sort_by}
use dracon_system_disk_proce.Common.Text.{Text, text_beq}
use dracon_system_disk_proce.Safety.{Canon}
use dracon_system_disk_proce.Stash.FileSystem.{
  Disk, StashManifest, remove_dir_all, walk_stats, parent, list_eq, list_beq,
}
use dracon_system_disk_proce.Stash.{StashError, Result, ok, err, read_manifest, resolve_entry_dir}

-- A directory of the stash root as one pass finds it: its name, its size, and its manifest, if that
-- can be read.
pub record EntryDir : Type 0 where
  pub name : Text
  pub bytes : ℕ
  pub manifest : Option StashManifest

pub record StashEntry : Type 0 where
  pub name : Text
  pub origin : Option Canon
  pub moved_at_unix : Option ℕ
  pub age_days : Option ℕ
  pub bytes : ℕ
  pub expired : Bool
  pub pinned : Bool

pub record StashList : Type 0 where
  pub ttl_days : ℕ
  pub entries : List StashEntry
  pub total_bytes : ℕ
  pub expired_bytes : ℕ
  pub pinned : List Text
  pub pinned_bytes : ℕ

unfoldable pub has_expired : ℕ → ℕ → StashManifest → Bool
has_expired ttl_days now m =
    ltb 0 ttl_days && ltb (saturating_mul ttl_days 86400) (now - m.moved_at_unix)

unfoldable pub list_entry : ℕ → ℕ → EntryDir → Option StashManifest → StashEntry
unfolding has_expired
list_entry ttl_days now d none = record {
  name = d.name;
  origin = none;
  moved_at_unix = none;
  age_days = none;
  bytes = d.bytes;
  expired = false;
  pinned = true;
}
list_entry ttl_days now d (some m) = record {
  name = d.name;
  origin = some m.origin;
  moved_at_unix = some m.moved_at_unix;
  age_days = some ((now - m.moved_at_unix) / 86400);
  bytes = d.bytes;
  expired = has_expired ttl_days now m;
  pinned = false;
}

unfoldable pub list_entries : ℕ → ℕ → List EntryDir → List StashEntry
unfolding list_entry
list_entries ttl_days now [] = []
list_entries ttl_days now (d ∷ ds) =
    list_entry ttl_days now d d.manifest ∷ list_entries ttl_days now ds

bytes_where : (StashEntry → Bool) → List StashEntry → ℕ
bytes_where p [] = 0
bytes_where p (e ∷ es) = let rest = bytes_where p es in if p e then e.bytes + rest else rest

pinned_names : List StashEntry → List Text
pinned_names [] = []
pinned_names (e ∷ es) = let rest = pinned_names es in if e.pinned then e.name ∷ rest else rest

-- `str::cmp`.
unfoldable pub text_leb : Text → Text → Bool
text_leb [] t = true
text_leb (c ∷ s) [] = false
text_leb (c ∷ s) (d ∷ t) = ltb c d || (nat_beq c d && text_leb s t)

abbrev pub by_name : StashEntry → StashEntry → Bool
by_name a b = text_leb a.name b.name

unfoldable pub stash_list : ℕ → ℕ → List EntryDir → StashList
unfolding list_entries bytes_where pinned_names
stash_list ttl_days now dirs =
    let entries = list_entries ttl_days now dirs in
    record {
      ttl_days = ttl_days;
      entries = sort_by by_name entries;
      total_bytes = bytes_where (λ e. true) entries;
      expired_bytes = bytes_where (λ e. e.expired) entries;
      pinned = sort_by text_leb (pinned_names entries);
      pinned_bytes = bytes_where (λ e. e.pinned) entries;
    }

pub record ExpiredEntry : Type 0 where
  pub name : Text
  pub origin : Option Canon
  pub bytes : ℕ

-- The pass over the expired entries: what it reports, `none` where a removal failed, and the paths
-- that it handed to the removal. `canonicalize` resolves an entry's name under the root.
pub record Expiring : Type 0 where
  pub removed : Option (List ExpiredEntry)
  pub deleted : List Canon

-- With what is pinned; `none` stands for the error that a failed removal returns instead.
pub record ExpireOutcome : Type 0 where
  pub removed : Option (List ExpiredEntry)
  pub pinned : List Text
  pub pinned_bytes : ℕ
  pub deleted : List Canon

abbrev pub directly_under : Canon → Canon → Bool
directly_under root [] = false
directly_under root (c ∷ cs) = list_beq (parent (c ∷ cs)) root

reported : StashEntry → Option (List ExpiredEntry) → Option (List ExpiredEntry)
reported e none = none
reported e (some r) = some (record { name = e.name; origin = e.origin; bytes = e.bytes } ∷ r)

module _ (canonicalize : Text → Option Canon) (removes : Canon → Bool) (root : Canon)
    (apply : Bool) where
  unfoldable pub expire_entries : List StashEntry → Expiring
  unfolding reported
  expire_entries [] = record { removed = some []; deleted = [] }
  expire_entries (e ∷ es) =
      let rest = expire_entries es in
      if not e.expired then rest else elim (canonicalize e.name) [
        | none ↦ rest
        | some canon ↦
            if not (directly_under root canon)
            then rest
            else if not apply
            then record { removed = reported e rest.removed; deleted = rest.deleted }
            else if not (removes canon)
            then record { removed = none; deleted = canon ∷ [] }
            else record { removed = reported e rest.removed; deleted = canon ∷ rest.deleted }
      ]

  unfoldable pub stash_expire_detailed : ℕ → ℕ → List EntryDir → ExpireOutcome
  unfolding expire_entries stash_list
  stash_expire_detailed ttl_days now dirs =
      let list = stash_list ttl_days now dirs in
      let pass = expire_entries list.entries in
      record {
        removed = pass.removed;
        pinned = list.pinned;
        pinned_bytes = list.pinned_bytes;
        deleted = pass.deleted;
      }

-- One entry that the operator names.
unfoldable pub stash_purge :
    (Canon → Bool) → (Canon → Bool) → Disk → Canon → Text → Bool → Disk × Result (ℕ × ℕ × Bool)
unfolding resolve_entry_dir read_manifest
stash_purge reads survives disk root name apply = elim (resolve_entry_dir disk root name) [
  | err e ↦ (disk, err e)
  | ok entry_dir ↦
      let (files, bytes) = walk_stats reads disk entry_dir in
      let report : Result (ℕ × ℕ × Bool) =
        ok (files, bytes, is_none (read_manifest disk entry_dir)) in
      let (left, complete) = remove_dir_all survives disk entry_dir in
      if not apply
      then (disk, report)
      else if complete
      then (left, report)
      else (left, err StashError.entry_not_removed)
]

abbrev supersedes : StashManifest → Option StashManifest → Bool
supersedes new none = false
supersedes new (some m) = m.auto && list_beq m.origin new.origin

abbrev is_ok : Result Canon → Bool
is_ok (ok p) = true
is_ok (err e) = false

-- The names of the older automatic generations of an origin that were removed.
unfoldable pub older_generations :
    (Text → Bool) → Disk → Canon → StashManifest → List EntryDir → List Text
unfolding resolve_entry_dir
older_generations removes disk root new [] = []
older_generations removes disk root new (d ∷ ds) =
    let rest = older_generations removes disk root new ds in
    if text_beq d.name new.name
    then rest
    else if not (supersedes new d.manifest)
    then rest
    else if not (is_ok (resolve_entry_dir disk root d.name))
    then rest
    else if removes d.name
    then d.name ∷ rest
    else rest

unfoldable pub replace_older_auto_generations :
    (Text → Bool) → Disk → Canon → StashManifest → List EntryDir → List Text
unfolding older_generations
replace_older_auto_generations removes disk root new dirs =
    sort_by text_leb (older_generations removes disk root new dirs)
