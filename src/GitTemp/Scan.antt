-- ===== src/GitTemp/Scan.antt =====
-- git_temp.rs, `find_git_temp_files`: the walk over the roots.
use dracon_system_disk_proce.Common.{
  ℕ, ◌+◌, ◌/◌, Bool, not, ◌&&◌, ◌||◌, Option, none, some, List, [], ◌∷◌, ◌++◌, nat_beq, ltb, leb,
  if◌then◌else◌, codes, any_of, length, as_secs, duration_since,
}
use dracon_system_disk_proce.Common.Text.{Text, text_beq, starts_with}
use dracon_system_disk_proce.Safety.{Canon}
use dracon_system_disk_proce.GitTemp.{GitTempFile, Listing, nothing, folder, link, file, other}

abbrev pub tmp_prefixes : List Text
tmp_prefixes = codes "tmp_pack_" ∷ codes "tmp_idx_" ∷ codes "tmp_obj_" ∷ []

unfoldable pub is_git_temp_name : Text → Bool
is_git_temp_name name =
    any_of (λ prefix. starts_with prefix name && ltb (length prefix) (length name)) tmp_prefixes

-- A time in the future counts as now.
unfoldable pub age_hours : ℕ → Option ℕ → Option ℕ
age_hours now none = none
age_hours now (some modified) = some (as_secs (duration_since now modified) / 3600)

-- Which directory `read_dir` finds by its name. The path is followed through a link.
unfoldable pub read_dir : Text → Listing → Listing
read_dir name nothing = nothing
read_dir name (folder none sub rest) = read_dir name rest
read_dir name (folder (some n) sub rest) = if text_beq n name then sub else read_dir name rest
read_dir name (link none sub rest) = read_dir name rest
read_dir name (link (some n) sub rest) = if text_beq n name then sub else read_dir name rest
read_dir name (file n meta rest) = read_dir name rest
read_dir name (other n rest) = read_dir name rest

unfoldable pub scan_flat_dir : ℕ → Canon → Listing → List GitTempFile
unfolding age_hours
scan_flat_dir now dir nothing = []
scan_flat_dir now dir (folder n sub rest) = scan_flat_dir now dir rest
scan_flat_dir now dir (link n sub rest) = scan_flat_dir now dir rest
scan_flat_dir now dir (other n rest) = scan_flat_dir now dir rest
scan_flat_dir now dir (file none meta rest) = scan_flat_dir now dir rest
scan_flat_dir now dir (file (some n) none rest) = scan_flat_dir now dir rest
scan_flat_dir now dir (file (some n) (some (bytes, modified)) rest) =
    let later = scan_flat_dir now dir rest in
    if not (is_git_temp_name n)
    then later
    else record { path = dir ++ n ∷ []; bytes = bytes; age_hours = age_hours now modified } ∷ later

abbrev is_ascii_hexdigit : ℕ → Bool
is_ascii_hexdigit c = (leb 48 c && leb c 57) || (leb 65 c && leb c 70) || (leb 97 c && leb c 102)

abbrev pub is_fanout : Text → Bool
is_fanout name = nat_beq (length name) 2 && not (any_of (λ c. not (is_ascii_hexdigit c)) name)

-- The loop over the entries of `objects`.
unfoldable pub scan_fanout : ℕ → Canon → Listing → List GitTempFile
unfolding scan_flat_dir
scan_fanout now dir nothing = []
scan_fanout now dir (link n sub rest) = scan_fanout now dir rest
scan_fanout now dir (file n meta rest) = scan_fanout now dir rest
scan_fanout now dir (other n rest) = scan_fanout now dir rest
scan_fanout now dir (folder none sub rest) = scan_fanout now dir rest
scan_fanout now dir (folder (some n) sub rest) =
    let later = scan_fanout now dir rest in
    if is_fanout n then scan_flat_dir now (dir ++ n ∷ []) sub ++ later else later

abbrev pub git_name : Text
git_name = codes ".git"

abbrev pub objects : Text
objects = codes "objects"

abbrev pub pack : Text
pack = codes "pack"

unfoldable pub scan_git_dir : ℕ → Canon → Listing → List GitTempFile
unfolding scan_flat_dir scan_fanout
scan_git_dir now git_dir shown =
    let objects_dir = git_dir ++ objects ∷ [] in
    scan_flat_dir now (objects_dir ++ pack ∷ []) (read_dir pack (read_dir objects shown))
    ++ scan_fanout now objects_dir (read_dir objects shown)

-- The first loop of `collect_git_temp_files`: the entries named `.git`.
unfoldable pub git_dirs : ℕ → Canon → Listing → List GitTempFile
unfolding scan_git_dir
git_dirs now dir nothing = []
git_dirs now dir (link n sub rest) = git_dirs now dir rest
git_dirs now dir (file n meta rest) = git_dirs now dir rest
git_dirs now dir (other n rest) = git_dirs now dir rest
git_dirs now dir (folder none sub rest) = git_dirs now dir rest
git_dirs now dir (folder (some n) sub rest) =
    let later = git_dirs now dir rest in
    if text_beq n git_name then scan_git_dir now (dir ++ n ∷ []) sub ++ later else later

-- The second loop: the other folders, each as a whole.
unfoldable pub subdirs : ℕ → Canon → ℕ → ℕ → Listing → List GitTempFile
unfolding git_dirs
subdirs now dir depth max_depth nothing = []
subdirs now dir depth max_depth (link n sub rest) = subdirs now dir depth max_depth rest
subdirs now dir depth max_depth (file n meta rest) = subdirs now dir depth max_depth rest
subdirs now dir depth max_depth (other n rest) = subdirs now dir depth max_depth rest
subdirs now dir depth max_depth (folder none sub rest) = subdirs now dir depth max_depth rest
subdirs now dir depth max_depth (folder (some n) sub rest) =
    let later = subdirs now dir depth max_depth rest in
    let within =
      git_dirs now (dir ++ n ∷ []) sub ++ subdirs now (dir ++ n ∷ []) (depth + 1) max_depth sub in
    if text_beq n git_name then later else if ltb depth max_depth then within ++ later else later

unfoldable pub collect_git_temp_files : ℕ → Canon → ℕ → ℕ → Listing → List GitTempFile
unfolding git_dirs subdirs
collect_git_temp_files now dir depth max_depth shown =
    git_dirs now dir shown ++ subdirs now dir depth max_depth shown

unfoldable pub find_git_temp_files : ℕ → Canon → ℕ → Listing → List GitTempFile
unfolding collect_git_temp_files
find_git_temp_files now root max_depth shown = collect_git_temp_files now root 0 max_depth shown
