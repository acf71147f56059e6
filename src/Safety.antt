-- ===== src/Safety.antt =====
-- safety.rs: the checks that a path must pass before the guard deletes it.
pub mod Ancestor
pub mod Allowed
use dracon_system_disk_proce.Common.{
  ℕ, Bool, true, false, not, ◌&&◌, ◌||◌, Option, none, some, List, [], ◌∷◌, ◌++◌, nat_beq,
  if◌then◌else◌, codes, any_of,
}
use dracon_system_disk_proce.Common.Text.{Text, text_beq, starts_with}

-- A canonical path: the components below the root.
abbrev pub Canon : Type 0
Canon = List Text

slashed : Canon → Text
slashed [] = []
slashed (c ∷ cs) = 47 ∷ (c ++ slashed cs)

-- `display`.
unfoldable pub display : Canon → Text
unfolding slashed
display [] = 47 ∷ []
display (c ∷ cs) = slashed (c ∷ cs)

-- `Path::starts_with`: by components.
unfoldable pub starts_with_path : Canon → Canon → Bool
starts_with_path p [] = true
starts_with_path [] (d ∷ ds) = false
starts_with_path (c ∷ cs) (d ∷ ds) = text_beq c d && starts_with_path cs ds

unfoldable pub ends_with_slash : Text → Bool
ends_with_slash [] = false
ends_with_slash (c ∷ []) = nat_beq c 47
ends_with_slash (c ∷ d ∷ s) = ends_with_slash (d ∷ s)

unfoldable pub is_protected_ancestor : Text → Text → Bool
unfolding ends_with_slash
is_protected_ancestor path protected =
    if text_beq path protected
    then true
    else if text_beq protected (47 ∷ [])
    then text_beq path (47 ∷ [])
    else starts_with (if ends_with_slash protected then protected else protected ++ 47 ∷ []) path

abbrev pub system_protected : List Text
system_protected =
    codes "/"
    ∷ codes "/home"
    ∷ codes "/etc"
    ∷ codes "/usr"
    ∷ codes "/var"
    ∷ codes "/boot"
    ∷ codes "/nix"
    ∷ codes "/run"
    ∷ codes "/sys"
    ∷ codes "/dev"
    ∷ codes "/proc"
    ∷ []

-- The answers of the file system: `canonicalize`, and the kind that `symlink_metadata` shows.
pub data Canonicalized : Type 0 where
  resolved : Canon → Canonicalized
  not_found unreadable : Canonicalized

pub data Kind : Type 0 where
  symlink directory other : Kind

pub record Files : Type 0 where
  pub canonicalize : Text → Canonicalized
  pub symlink_metadata : Text → Option Kind

pub data Refusal : Type 0 where
  cannot_canonicalize is_symlink system_path user_path user_path_unreadable outside_tmp_root
        cannot_inspect not_a_directory :
      Refusal

pub data Checked : Type 0 where
  ok : Text → Checked
  err : Refusal → Checked

abbrev pub is_symlink_kind : Option Kind → Bool
is_symlink_kind (some symlink) = true
is_symlink_kind _ = false

-- The loop over `user_protected`. `warned` is the set of entries reported as unresolvable, which
-- `note_unresolvable_protected` fills.
module _ (fs : Files) where
  unfoldable pub note_unresolvable_protected : List Text → Text → List Text × Bool
  note_unresolvable_protected warned entry =
      if any_of (text_beq entry) warned then (warned, false) else (entry ∷ warned, true)

  unfoldable pub check_user_protected : List Text → Canon → List Text → List Text × Checked
  unfolding note_unresolvable_protected
  check_user_protected warned canon [] = (warned, ok (display canon))
  check_user_protected warned canon (user_prot ∷ rest) = elim (fs.canonicalize user_prot) [
    | unreadable ↦ (warned, err user_path_unreadable)
    | not_found ↦ check_user_protected (note_unresolvable_protected warned user_prot).0 canon rest
    | resolved prot ↦
        let later = check_user_protected warned canon rest in
        if is_protected_ancestor (display canon) (display prot)
        then (warned, err user_path)
        else later
  ]

  -- The two checks differ in what they compare with the system roots.
  unfoldable pub check_with :
      (Text → Text → Bool) → List Text → Text → List Text → List Text × Checked
  unfolding check_user_protected
  check_with under warned path user_protected = elim (fs.canonicalize path) [
    | not_found ↦ (warned, ok path)
    | unreadable ↦ (warned, err cannot_canonicalize)
    | resolved canon ↦
        if is_symlink_kind (fs.symlink_metadata path)
        then (warned, err is_symlink)
        else if any_of (under (display canon)) system_protected
        then (warned, err system_path)
        else check_user_protected warned canon user_protected
  ]

  unfoldable pub check_safe_to_delete : List Text → Text → List Text → List Text × Checked
  unfolding check_with
  check_safe_to_delete = check_with is_protected_ancestor

  unfoldable pub check_safe_to_delete_guard : List Text → Text → List Text → List Text × Checked
  unfolding check_with
  check_safe_to_delete_guard = check_with text_beq

  unfoldable pub check_safe_tmp_root : Text → Checked
  check_safe_tmp_root path = elim (fs.symlink_metadata path) [
    | none ↦ err cannot_inspect
    | some kind ↦ elim kind [
      | symlink ↦ err is_symlink
      | other ↦ err not_a_directory
      | directory ↦ elim (fs.canonicalize path) [
        | not_found ↦ err cannot_canonicalize
        | unreadable ↦ err cannot_canonicalize
        | resolved canon ↦
            if starts_with_path canon (codes "tmp" ∷ [])
            then ok (display canon)
            else err outside_tmp_root
      ]
    ]
  ]

  -- `Path::starts_with` on a text, by its components.
  unfoldable pub check_safe_to_delete_tmp_entry :
      (Text → Canon) → List Text → Text → Canon → List Text → List Text × Checked
  unfolding check_safe_to_delete_guard
  check_safe_to_delete_tmp_entry components warned path tmp_root user_protected =
      let (warned', checked) = check_safe_to_delete_guard warned path user_protected in
      (
        warned',
        elim checked [
          | err e ↦ err e
          | ok canon ↦
              if starts_with_path (components canon) tmp_root
              then ok canon
              else err outside_tmp_root
        ],
      )
