-- ===== src/Tests/Stashing.antt =====
-- safety.rs and stash.rs on a small disk: a project of two files is stashed, restored and expired.
use dracon_system_disk_proce.Common.Sort.{sort_by}
use dracon_system_disk_proce.Common.{
  ◌≢◌, ◌⊎◌, inl, inr, ◌≡◌, ◌↔◌, refl, true, false, Option, none, some, [], ◌∷◌, ◌++◌, codes, All,
  arith, Bool-cases, subst, sym, if◌then◌else◌, nat_eq, any_of,
}
use dracon_system_disk_proce.Common.Table.{get, insert}
use dracon_system_disk_proce.Common.Text.{Text, text_beq, is_empty}
use mathlib.Core.List.{Memᴰ}
use dracon_system_disk_proce.Safety.{
  Canon, display, is_protected_ancestor, Canonicalized, resolved, not_found, Files, directory, ok,
  check_safe_to_delete_guard, starts_with_path,
}
use dracon_system_disk_proce.Safety.Ancestor.{Component, Protects, is_protected_ancestor_iff}
use dracon_system_disk_proce.Safety.Allowed.{
  CanonicalAnswers, Allowed, check_safe_to_delete_guard_iff,
}
use dracon_system_disk_proce.Stash.FileSystem.{
  list_eq, Disk, folder, file, StashManifest, Io, walk_stats_strict, create_dir_all, parent,
}
use dracon_system_disk_proce.Stash.{
  manifest_name, Result, Request, stash_move_inner, stash_restore, valid_name,
}
use dracon_system_disk_proce.Stash.Moves.{Apart, Free}
use dracon_system_disk_proce.Stash.Roundtrip.{stash_restore-stash_move}
use dracon_system_disk_proce.Stash.Listing.{EntryDir, stash_expire_detailed}
use dracon_system_disk_proce.Stash.Expiry.{Due, stash_expire-Due}

abbrev home : Canon
home = codes "home" ∷ []

abbrev project : Canon
project = codes "home" ∷ codes "p" ∷ []

abbrev root : Canon
root = codes "stash" ∷ []

abbrev entry : Canon
entry = codes "stash" ∷ codes "p" ∷ []

home-Component : All Component home
home-Component = ground arith

project-Component : All Component project
project-Component = ground arith

is_protected_ancestor_iff_example :
    (is_protected_ancestor (display project) (display home) ≡ true) ↔ Protects home project
is_protected_ancestor_iff_example =
    is_protected_ancestor_iff project home project-Component home-Component

abbrev answer : Text → Canonicalized
answer t =
    if text_beq t (codes "/home/p")
    then resolved project
    else if text_beq t (codes "/home/q")
    then resolved (codes "home" ∷ codes "q" ∷ [])
    else not_found

abbrev files : Files
files = record { canonicalize = answer; symlink_metadata = λ t. some directory }

files-CanonicalAnswers : CanonicalAnswers files
files-CanonicalAnswers t c h = elim (Bool-cases (text_beq t (codes "/home/p"))) [
  | inl p ↦
      let same : resolved project ≡ resolved c = rw p at h in
      subst (All Component) (let s : project ≡ c = cc in s) project-Component
  | inr p ↦ elim (Bool-cases (text_beq t (codes "/home/q"))) [
    | inl q ↦
        let same : resolved (codes "home" ∷ codes "q" ∷ []) ≡ resolved c = rw (p, q) at h in
        subst (All Component) (let s : codes "home" ∷ codes "q" ∷ [] ≡ c = cc in s) (ground arith)
    | inr q ↦ absurd (let clash : not_found ≡ resolved c = rw (p, q) at h in cc)
  ]
]

check_safe_to_delete_guard_iff_example :
    ((check_safe_to_delete_guard files [] (codes "/home/p") (codes "/home/q" ∷ [])).1
      ≡ ok (codes "/home/p"))
    ↔ Allowed files (codes "/home/p") (codes "/home/q" ∷ []) (codes "/home/p")
check_safe_to_delete_guard_iff_example =
    check_safe_to_delete_guard_iff files files-CanonicalAnswers [] (codes "/home/p")
      (codes "/home/q" ∷ []) (codes "/home/p")

abbrev disk : Disk
disk =
    (project, folder)
    ∷ (codes "home" ∷ codes "p" ∷ codes "a" ∷ [], file 3 none)
    ∷ (codes "home" ∷ codes "p" ∷ codes "b" ∷ [], file 4 none)
    ∷ []

abbrev io : Io
io = record {
  renames = true;
  metadata_readable = true;
  origin_reads = λ p. true;
  verify_reads = λ p. true;
  copies = λ p. true;
  cleanup_survives = λ p. false;
  origin_survives = λ p. false;
  entry_survives = λ p. false;
  publishes = true;
  manifest_bytes = 90;
  moves_back = true;
  unlinks = true;
}

abbrev request : Request
request = record { root = root; name = codes "p"; now = 1000; auto = false }

abbrev manifest : StashManifest
manifest = record {
  name = codes "p";
  origin = project;
  moved_at_unix = 1000;
  bytes = 7;
  files = 2;
  auto = false;
}

abbrev allow : Canon → Option Canon
allow p = some p

at_project : get disk project ≡ some folder
unfolding get
at_project = refl

entry_Free : Free (root ++ codes "p" ∷ []) disk
entry_Free = (λ r e. absurd (cc), (λ r e. absurd (cc), (λ r e. absurd (cc), tt)))

name_valid : valid_name (codes "p") ≡ true
unfolding valid_name is_empty text_beq any_of
name_valid = refl

moved_ok : (stash_move_inner allow io disk request project).1 ≡ Result.ok manifest
unfolding stash_move_inner get starts_with_path text_beq walk_stats_strict any_of create_dir_all
    insert
moved_ok = refl

stash_restore-stash_move_example :
    let moved = (stash_move_inner allow io disk request project).0 in
    let restored = stash_restore io moved root (codes "p") in
    (restored.1 ≡ Result.ok project)
    × ((r : Canon)
        → (io.unlinks ≡ true) ⊎ (r ≢ manifest_name ∷ [])
        → get restored.0 (project ++ r) ≡ get disk (project ++ r))
    × ((p : Canon)
        → Apart project p
        → Apart (root ++ codes "p" ∷ []) p
        → Apart p root
        → Apart p project
        → get restored.0 p ≡ get disk p)
stash_restore-stash_move_example =
    stash_restore-stash_move allow io io disk request project project manifest refl at_project
      at_project entry_Free name_valid refl refl moved_ok

abbrev under_root : Text → Option Canon
under_root t = some (root ++ t ∷ [])

abbrev old_entry : EntryDir
old_entry = record { name = codes "p"; bytes = 7; manifest = some manifest }

expires :
    (stash_expire_detailed under_root (λ p. true) root true 7 700000 (old_entry ∷ [])).deleted
    ≡ entry ∷ []
unfolding stash_expire_detailed sort_by parent
expires = refl

stash_expire-Due_example : (true ≡ true) × Due under_root root 7 700000 (old_entry ∷ []) entry
stash_expire-Due_example =
    stash_expire-Due under_root (λ p. true) root true 7 700000 (old_entry ∷ []) entry
      (subst (Memᴰ entry) (sym expires) (Memᴰ.head refl))
