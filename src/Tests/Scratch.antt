-- ===== src/Tests/Scratch.antt =====
-- git_temp.rs on a root with one repository that holds an old scratch pack and a fresh object.
use dracon_system_disk_proce.Common.{
  elem, ℕ, ◌≡◌, ◌↔◌, refl, Bool, true, false, not, ◌&&◌, Option, some, List, [], ◌∷◌, ◌++◌, codes,
  keep_if, subst, sym, any_of,
}
use dracon_system_disk_proce.Common.Text.{
  Text, text_beq, starts_with, strip_prefix, trim, drop_while, is_whitespace, split_on,
  parse_unsigned, is_digit, is_empty,
}
use dracon_system_disk_proce.Reap.Proc.{file_name}
use mathlib.Core.List.{Memᴰ}
use dracon_system_disk_proce.Safety.{Canon, starts_with_path}
use dracon_system_disk_proce.GitTemp.{GitTempFile, Listing, nothing, folder, file}
use dracon_system_disk_proce.GitTemp.Scan.{
  find_git_temp_files, collect_git_temp_files, git_dirs, subdirs, scan_git_dir, scan_fanout,
  scan_flat_dir, read_dir, is_git_temp_name, age_hours,
}
use dracon_system_disk_proce.GitTemp.Owner.{
  GitProc, live_git_owners, git_owner, git_owner_for, repo_root_for_git_path, owner_of,
  is_git_process_name, argv_writes_packs,
}
use dracon_system_disk_proce.GitTemp.Clean.{
  git_temp_pass, candidates, clean_git_temp_files, is_expired,
}
use dracon_system_disk_proce.GitTemp.Found.{Repo, find_git_temp_files_iff}
use dracon_system_disk_proce.GitTemp.Store.{Scratch}
use dracon_system_disk_proce.GitTemp.Safe.{Stale, git_temp_pass-Stale}

-- Ten hours after the start of the clock.
abbrev now : ℕ
now = 36000000000000

abbrev named : List ℕ → Option Text
named t = some t

abbrev packs : Listing
packs = file (named (codes "tmp_pack_a")) (some (500, some 0)) nothing

abbrev fresh : Listing
fresh = file (named (codes "tmp_obj_b")) (some (7, some now)) nothing

abbrev store : Listing
store = folder (named (codes "pack")) packs (folder (named (codes "c6")) fresh nothing)

abbrev git : Listing
git = folder (named (codes "objects")) store nothing

abbrev repository : Listing
repository = folder (named (codes ".git")) git nothing

abbrev shown : Listing
shown = folder (named (codes "repo")) repository nothing

abbrev roots : List (Canon × Listing)
roots = (codes "dev" ∷ [], shown) ∷ []

abbrev elsewhere : GitProc
elsewhere = record {
  entry_name = codes "9";
  comm = some (codes "git");
  cwd = some (codes "other" ∷ []);
  cmdline = some (codes "git" ++ 0 ∷ codes "gc");
}

abbrev old_pack : GitTempFile
old_pack = record {
  path =
      codes "dev"
      ∷ codes "repo"
      ∷ codes ".git"
      ∷ codes "objects"
      ∷ codes "pack"
      ∷ codes "tmp_pack_a"
      ∷ [];
  bytes = 500;
  age_hours = some 10;
}

abbrev all_removed : Canon → Bool
all_removed p = true

cleans : (git_temp_pass all_removed now roots (elsewhere ∷ []) 6 true).cleaned ≡ old_pack ∷ []
unfolding git_temp_pass candidates clean_git_temp_files is_expired find_git_temp_files
    collect_git_temp_files git_dirs subdirs scan_git_dir scan_fanout scan_flat_dir read_dir
    is_git_temp_name age_hours live_git_owners git_owner git_owner_for repo_root_for_git_path
    owner_of is_git_process_name argv_writes_packs file_name starts_with_path text_beq starts_with
    strip_prefix trim drop_while is_whitespace split_on parse_unsigned is_digit is_empty any_of
    keep_if elem
cleans = refl

find_git_temp_files_iff_example :
    Memᴰ old_pack (find_git_temp_files now (codes "dev" ∷ []) 4 shown) ↔ (
      (repo : Canon) × (g : Listing) × Repo 4 (codes "dev" ∷ []) 0 shown repo g
      × Scratch now repo g old_pack)
find_git_temp_files_iff_example = find_git_temp_files_iff now (codes "dev" ∷ []) 4 shown old_pack

git_temp_pass-Stale_example :
    Stale (elsewhere ∷ []) 6 old_pack × ((true && not (all_removed old_pack.path)) ≡ false)
git_temp_pass-Stale_example =
    git_temp_pass-Stale all_removed now roots (elsewhere ∷ []) 6 true old_pack
      (subst (Memᴰ old_pack) (sym cleans) (Memᴰ.head refl))

-- The root is searched twice, so the old pack is a candidate twice.
abbrev overlapping : List (Canon × Listing)
overlapping = (codes "dev" ∷ [], shown) ∷ (codes "dev" ∷ [], shown) ∷ []
