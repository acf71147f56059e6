-- ===== src/Stash/FileSystem.antt =====
-- The file system as stash.rs and the helpers of relocate.rs use it.
use dracon_system_disk_proce.Common.{
  ℕ, ◌+◌, ◌≡◌, Bool, true, false, not, ◌&&◌, ◌||◌, Option, none, some, List, [], ◌∷◌, ◌++◌,
  if◌then◌else◌, keep_if, any_of, ◌==◌, Eq, ◌↔◌, arith, is_none, nat_eq,
}
use dracon_system_disk_proce.Common.Table.{get, insert, remove}
use dracon_system_disk_proce.Common.Text.{Text}
use dracon_system_disk_proce.Safety.{Canon}

module _ {ℓ} {A : Type ℓ} ⦃e : Eq A⦄ where
  abbrev pub list_beq : List A → List A → Bool
  list_beq [] [] = true
  list_beq (x ∷ xs) (y ∷ ys) = x == y && list_beq xs ys
  list_beq _ _ = false

  pub list_beq_iff : (xs ys : List A) → (list_beq xs ys ≡ true) ↔ (xs ≡ ys)
  list_beq_iff [] [] = ground arith
  list_beq_iff [] (y ∷ ys) = ground arith
  list_beq_iff (x ∷ xs) [] = ground arith
  list_beq_iff (x ∷ xs) (y ∷ ys) = ground (arith, e.beq_iff x y, list_beq_iff xs ys)

  -- Paths are compared by components, and components by characters.
  instance abbrev pub list_eq : Eq (List A)
  list_eq = record { beq = list_beq; beq_iff = list_beq_iff }

pub record StashManifest : Type 0 where
  pub name : Text
  pub origin : Canon
  pub moved_at_unix : ℕ
  pub bytes : ℕ
  pub files : ℕ
  pub auto : Bool

-- A file has its size, and the manifest that its text parses to, if it does.
pub data Node : Type 0 where
  folder : Node
  file : ℕ → Option StashManifest → Node
  link special : Node

-- One row for each path that exists.
abbrev pub Disk : Type 0
Disk = List (Canon × Node)

-- The answers of the file system to one operation. Which entries survive a removal, which can be
-- copied and read, and whether the calls succeed.
pub record Io : Type 0 where
  pub renames : Bool
  pub metadata_readable : Bool
  pub origin_reads : Canon → Bool
  pub verify_reads : Canon → Bool
  pub copies : Canon → Bool
  pub cleanup_survives : Canon → Bool
  pub origin_survives : Canon → Bool
  pub entry_survives : Canon → Bool
  pub publishes : Bool
  pub manifest_bytes : ℕ
  pub moves_back : Bool
  pub unlinks : Bool

-- What a path is below another.
unfoldable pub below : Canon → Canon → Option Canon
below [] p = some p
below (d ∷ ds) [] = none
below (d ∷ ds) (c ∷ cs) = if d == c then below ds cs else none

unfoldable pub is_below : Canon → Canon → Bool
unfolding below
is_below d p = not (is_none (below d p))

abbrev pub rekeyed : Canon → Canon → Option Canon → Canon
rekeyed p dst none = p
rekeyed p dst (some r) = dst ++ r

-- `fs::rename` of a directory to a free path.
unfoldable pub rename : Disk → Canon → Canon → Disk
unfolding below
rename [] src dst = []
rename ((p, node) ∷ m) src dst = (rekeyed p dst (below src p), node) ∷ rename m src dst

-- What is left, and whether nothing is.
unfoldable pub remove_dir_all : (Canon → Bool) → Disk → Canon → Disk × Bool
unfolding is_below
remove_dir_all survives disk d = (
  keep_if (λ row. not (is_below d row.0) || survives row.0) disk,
  not (any_of (λ row. is_below d row.0 && survives row.0) disk),
)

-- `fs::remove_file`, which fails where it does not remove.
unfoldable pub remove_file : Bool → Disk → Canon → Disk
remove_file removes disk p = if removes then remove disk p else disk

unfoldable pub parent : Canon → Canon
parent [] = []
parent (c ∷ []) = []
parent (c ∷ d ∷ cs) = c ∷ parent (d ∷ cs)

-- The missing folders on the way to a path.
unfoldable pub make_folder : Disk → Canon → Disk
make_folder disk p = elim (get disk p) [ none ↦ insert disk p folder | some node ↦ disk ]

unfoldable pub make_folders : Disk → Canon → Canon → Disk
unfolding make_folder
make_folders disk done [] = make_folder disk done
make_folders disk done (c ∷ cs) = make_folders (make_folder disk done) (done ++ c ∷ []) cs

unfoldable pub create_dir_all : Disk → Canon → Disk
unfolding make_folders
create_dir_all disk p = make_folders disk [] p

-- The copy of one entry: what it adds, and whether it succeeded. A special file is skipped.
unfoldable pub copy_node : (Canon → Bool) → Disk → Canon → Canon → Node → Disk × Bool
copy_node copies disk p target special = (disk, true)
copy_node copies disk p target folder =
    if copies p then (insert disk target folder, true) else (disk, false)
copy_node copies disk p target link =
    if copies p then (insert disk target link, true) else (disk, false)
copy_node copies disk p target (file bytes parsed) =
    if copies p then (insert disk target (file bytes parsed), true) else (disk, false)

-- The walk over the entries below the source; it stops at the first failure.
unfoldable pub copy_rows : (Canon → Bool) → Disk → Canon → Canon → Disk → Disk × Bool
unfolding copy_node below
copy_rows copies disk src dst [] = (disk, true)
copy_rows copies disk src dst ((p, node) ∷ rows) = elim (below src p) [
  | none ↦ copy_rows copies disk src dst rows
  | some r ↦
      let (copied, done) = copy_node copies disk p (dst ++ r) node in
      let later = copy_rows copies copied src dst rows in if done then later else (copied, false)
]

unfoldable pub copy_tree : (Canon → Bool) → Disk → Canon → Canon → Disk × Bool
unfolding copy_rows
copy_tree copies disk src dst = copy_rows copies (create_dir_all disk dst) src dst disk

-- The number of regular files below a path and their size.
unfoldable pub tally : Disk → Canon → (Canon → Bool) → ℕ × ℕ
unfolding is_below
tally [] d counted = (0, 0)
tally ((p, node) ∷ m) d counted =
    let (files, bytes) = tally m d counted in
    if is_below d p && counted p
    then elim node [
      | file size parsed ↦ (files + 1, bytes + size)
      | folder ↦ (files, bytes)
      | link ↦ (files, bytes)
      | special ↦ (files, bytes)
    ]
    else (files, bytes)

unfoldable pub walk_stats : (Canon → Bool) → Disk → Canon → ℕ × ℕ
unfolding tally
walk_stats reads disk d = tally disk d reads

unfoldable pub walk_stats_strict : (Canon → Bool) → Disk → Canon → Option (ℕ × ℕ)
unfolding tally is_below
walk_stats_strict reads disk d =
    if any_of (λ row. is_below d row.0 && not (reads row.0)) disk
    then none
    else some (tally disk d (λ p. true))
