-- ===== src/GitTemp/Clean.antt =====
-- git_temp.rs, `clean_git_temp_files`, and the pass of main.rs that calls it.
use dracon_system_disk_proce.Common.{
  elem, nat_eq, ℕ, ◌+◌, Bool, false, not, ◌&&◌, Option, none, some, List, [], ◌∷◌, ◌++◌, leb,
  if◌then◌else◌, is_none,
}
use dracon_system_disk_proce.Safety.{Canon}
use dracon_system_disk_proce.Stash.FileSystem.{list_eq}
use dracon_system_disk_proce.GitTemp.{GitTempFile, Listing}
use dracon_system_disk_proce.GitTemp.Scan.{find_git_temp_files}
use dracon_system_disk_proce.GitTemp.Owner.{GitProc, live_git_owners, owner_of}

pub record GitTempCleanupOutcome : Type 0 where
  pub cleaned : List GitTempFile
  pub skipped_fresh : List GitTempFile
  pub skipped_owned : List GitTempFile
  pub reclaimed_bytes : ℕ

unfoldable pub is_expired : GitTempFile → ℕ → Bool
is_expired f min_age_hours = elim f.age_hours [ none ↦ false | some age ↦ leb min_age_hours age ]

-- `removes` says which paths `remove_file` can remove, `gone` which it has removed in this pass: a path
-- that is a candidate twice can be removed once.
abbrev pub unlinks : (Canon → Bool) → List Canon → Canon → Bool
unlinks removes gone p = removes p && not (elem p gone)

module _ {ℓ} {A : Type ℓ} (removes : Canon → Bool) (min_age_hours : ℕ) (owner : Canon → Option A)
    (apply : Bool) where
  unfoldable pub clean_git_temp_files : List Canon → List GitTempFile → GitTempCleanupOutcome
  unfolding is_expired
  clean_git_temp_files gone [] = record {
    cleaned = [];
    skipped_fresh = [];
    skipped_owned = [];
    reclaimed_bytes = 0;
  }
  clean_git_temp_files gone (f ∷ fs) =
      let rest = clean_git_temp_files gone fs in
      let cleared = clean_git_temp_files (if apply then f.path ∷ gone else gone) fs in
      if not (is_none (owner f.path))
      then record rest { skipped_owned = f ∷ rest.skipped_owned }
      else if not (is_expired f min_age_hours)
      then record rest { skipped_fresh = f ∷ rest.skipped_fresh }
      else if apply && not (unlinks removes gone f.path)
      then rest
      else record cleared {
        cleaned = f ∷ cleared.cleaned;
        reclaimed_bytes = f.bytes + cleared.reclaimed_bytes;
      }

-- The candidates of all roots, one after another.
unfoldable pub candidates : ℕ → List (Canon × Listing) → List GitTempFile
unfolding find_git_temp_files
candidates now [] = []
candidates now ((root, shown) ∷ roots) =
    find_git_temp_files now root 4 shown ++ candidates now roots

unfoldable pub git_temp_pass :
    (Canon → Bool) → ℕ → List (Canon × Listing) → List GitProc → ℕ → Bool → GitTempCleanupOutcome
unfolding clean_git_temp_files candidates
git_temp_pass removes now roots procs min_age_hours apply =
    clean_git_temp_files removes min_age_hours (owner_of (live_git_owners procs)) apply []
      (candidates now roots)
