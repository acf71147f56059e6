-- ===== src/GitTemp/Owner.antt =====
-- git_temp.rs: the live git processes, and the repository that a scratch file belongs to.
use dracon_system_disk_proce.Common.{
  ℕ, Bool, false, not, ◌&&◌, ◌||◌, Option, none, some, List, [], ◌∷◌, if◌then◌else◌, codes, any_of,
  keep_if,
}
use dracon_system_disk_proce.Common.Text.{
  Text, text_beq, starts_with, trim, split_on, parse_unsigned, is_empty,
}
use dracon_system_disk_proce.Reap.Proc.{file_name}
use dracon_system_disk_proce.Safety.{Canon, starts_with_path}
use dracon_system_disk_proce.GitTemp.Scan.{git_name}

-- One entry of the proc root: its name, and what the reads of its files return.
pub record GitProc : Type 0 where
  pub entry_name : Text
  pub comm : Option Text
  pub cwd : Option Canon
  pub cmdline : Option Text

pub record GitOwner : Type 0 where
  pub pid : ℕ
  pub name : Text
  pub cwd : Option Canon
  pub writes_packs : Bool

abbrev or_whole : Text → Option Text → Text
or_whole s none = s
or_whole s (some t) = t

unfoldable pub is_git_process_name : Text → Bool
unfolding file_name
is_git_process_name name =
    let base = or_whole name (file_name name) in
    text_beq base (codes "git") || starts_with (codes "git-") base

abbrev pack_writing_subcommands : List Text
pack_writing_subcommands =
    codes "gc"
    ∷ codes "repack"
    ∷ codes "pack-objects"
    ∷ codes "index-pack"
    ∷ codes "prune"
    ∷ codes "unpack-objects"
    ∷ []

ends_with : Text → Text → Bool
ends_with p [] = is_empty p
ends_with p (c ∷ s) = text_beq p (c ∷ s) || ends_with p s

abbrev is_helper : Text → Bool
is_helper base =
    starts_with (codes "git-remote-") base
    || text_beq base (codes "git-upload-pack")
    || text_beq base (codes "git-receive-pack")

first_is_helper : List Text → Bool
unfolding file_name
first_is_helper [] = false
first_is_helper (a ∷ argv) = is_helper (or_whole a (file_name a))

unfoldable pub argv_writes_packs : List Text → Bool
unfolding ends_with first_is_helper
argv_writes_packs argv =
    any_of (λ a. any_of (λ sub. text_beq a sub || ends_with (47 ∷ sub) a) pack_writing_subcommands)
      argv
    || first_is_helper argv

abbrev pub argv_of : Option Text → List Text
argv_of none = []
argv_of (some raw) = keep_if (λ chunk. not (is_empty chunk)) (split_on 0 raw)

-- One entry of the loop over the proc root.
unfoldable pub git_owner : GitProc → Option GitOwner
git_owner p = elim (parse_unsigned 4294967295 p.entry_name) [
  | none ↦ none
  | some pid ↦ elim p.comm [
    | none ↦ none
    | some comm ↦
        if not (is_git_process_name (trim comm))
        then none
        else some (record {
          pid = pid;
          name = trim comm;
          cwd = p.cwd;
          writes_packs = argv_writes_packs (argv_of p.cmdline);
        })
  ]
]

abbrev with_owner : Option GitOwner → List GitOwner → List GitOwner
with_owner none owners = owners
with_owner (some o) owners = o ∷ owners

unfoldable pub live_git_owners : List GitProc → List GitOwner
unfolding git_owner
live_git_owners [] = []
live_git_owners (p ∷ ps) = with_owner (git_owner p) (live_git_owners ps)

-- `Path::starts_with` holds of equal paths, so the source's test for equality is part of it.
abbrev pub is_within : Option Canon → Canon → Bool
is_within none repo = false
is_within (some cwd) repo = starts_with_path cwd repo

unfoldable pub git_owner_for : List GitOwner → Canon → Option GitOwner
git_owner_for [] repo = none
git_owner_for (o ∷ os) repo =
    let later = git_owner_for os repo in
    if o.writes_packs && is_within o.cwd repo then some o else later

-- What stands before the last `.git`. Paths are absolute, so the source's test for a path that starts
-- with `.git` is never met.
unfoldable pub repo_root_for_git_path : Canon → Option Canon
repo_root_for_git_path [] = none
repo_root_for_git_path (c ∷ cs) = elim (repo_root_for_git_path cs) [
  | some root ↦ some (c ∷ root)
  | none ↦ if text_beq c git_name then some [] else none
]

-- The owner that the passes look for.
unfoldable pub owner_of : List GitOwner → Canon → Option GitOwner
unfolding repo_root_for_git_path git_owner_for
owner_of owners candidate = elim (repo_root_for_git_path candidate) [
  | none ↦ none
  | some repo ↦ git_owner_for owners repo
]
