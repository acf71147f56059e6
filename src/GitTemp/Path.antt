-- ===== src/GitTemp/Path.antt =====
-- git_temp.rs, `repo_root_for_git_path`: the repository of a found file is found from its path.
use dracon_system_disk_proce.Common.{
  ℕ, ◌≡◌, ◌≢◌, ◌⊎◌, inl, inr, refl, true, false, none, some, [], ◌∷◌, ◌++◌, Bool-cases, sym, subst,
  ap, ◌∙◌, any_of,
}
use dracon_system_disk_proce.Common.Text.{Text, text_beq, starts_with, strip_prefix}
use dracon_system_disk_proce.Reap.Proc.Exempt.{text_beq_iff}
use mathlib.Core.List.{Memᴰ}
use dracon_system_disk_proce.Safety.{Canon}
use dracon_system_disk_proce.GitTemp.{GitTempFile, Listing}
use dracon_system_disk_proce.GitTemp.Scan.{
  is_git_temp_name, is_fanout, git_name, objects, pack, find_git_temp_files,
}
use dracon_system_disk_proce.GitTemp.Owner.{repo_root_for_git_path}
use dracon_system_disk_proce.GitTemp.Store.{Flat}
use dracon_system_disk_proce.GitTemp.Found.{find_git_temp_files_iff}

-- A scratch file of a repository, by its path.
pub record ScratchPath (repo path : Canon) : Type 0 where
  pub folder : Text
  pub name : Text
  pub path_is : path ≡ repo ++ git_name ∷ objects ∷ folder ∷ name ∷ []
  pub in_store : (folder ≡ pack) ⊎ (is_fanout folder ≡ true)
  pub named : is_git_temp_name name ≡ true

-- The path of a found file, component by component.
path_of :
    (repo : Canon) (d n : Text)
    → (((repo ++ git_name ∷ []) ++ objects ∷ []) ++ d ∷ []) ++ n ∷ []
      ≡ repo ++ git_name ∷ objects ∷ d ∷ n ∷ []
path_of [] d n = refl
path_of (c ∷ repo) d n = ap (λ p. c ∷ p) (path_of repo d n)

Flat-ScratchPath :
    (now : ℕ) (repo : Canon) (d : Text) (l : Listing) (f : GitTempFile)
    → ((d ≡ pack) ⊎ (is_fanout d ≡ true))
    → Flat now (((repo ++ git_name ∷ []) ++ objects ∷ []) ++ d ∷ []) l f
    → ScratchPath repo f.path
Flat-ScratchPath now repo d l f store t = record {
  folder = d;
  name = t.name;
  path_is = ap (λ (g : GitTempFile). g.path) t.same ∙ path_of repo d t.name;
  in_store = store;
  named = t.named;
}

pub found-ScratchPath :
    (now : ℕ) (root : Canon) (max_depth : ℕ) (shown : Listing) (f : GitTempFile)
    → Memᴰ f (find_git_temp_files now root max_depth shown)
    → (repo : Canon) × ScratchPath repo f.path
found-ScratchPath now root max_depth shown f m =
    let (repo, git, within, t) = (find_git_temp_files_iff now root max_depth shown f).0 m in
    elim t [
      | inl flat ↦ (repo, Flat-ScratchPath now repo pack _ f (inl refl) flat)
      | inr (d, sub, e, h, flat) ↦ (repo, Flat-ScratchPath now repo d sub f (inr e) flat)
    ]

not_git : (s : Text) → s ≢ git_name → text_beq s git_name ≡ false
not_git s n = elim (Bool-cases (text_beq s git_name)) [
  | inl e ↦ absurd (n ((text_beq_iff s git_name).0 e))
  | inr e ↦ e
]

git_not_temp : is_git_temp_name git_name ≡ false
unfolding is_git_temp_name starts_with strip_prefix any_of
git_not_temp = refl

repo_root_at :
    (repo rest : Canon)
    → repo_root_for_git_path rest ≡ none
    → repo_root_for_git_path (repo ++ git_name ∷ rest) ≡ some repo
unfolding repo_root_for_git_path
repo_root_at [] rest h = rw (h, (text_beq_iff git_name git_name).1 refl) refl
repo_root_at (c ∷ repo) rest h = rw (repo_root_at repo rest h) refl

no_git :
    (c : Text) (rest : Canon)
    → text_beq c git_name ≡ false
    → repo_root_for_git_path rest ≡ none
    → repo_root_for_git_path (c ∷ rest) ≡ none
unfolding repo_root_for_git_path
no_git c rest e h = rw (h, e) refl

pack_not : text_beq pack git_name ≡ false
unfolding text_beq
pack_not = refl

objects_not : text_beq objects git_name ≡ false
unfolding text_beq
objects_not = refl

git_not_fanout : is_fanout git_name ≡ false
git_not_fanout = refl

store_not : (d : Text) → (d ≡ pack) ⊎ (is_fanout d ≡ true) → text_beq d git_name ≡ false
store_not d (inl p) = subst (λ x. text_beq x git_name ≡ false) (sym p) pack_not
store_not d (inr p) = not_git d (λ e.
    let clash : false ≡ true = sym git_not_fanout ∙ subst (λ n. is_fanout n ≡ true) e p in
    absurd (cc))

name_not : (n : Text) → is_git_temp_name n ≡ true → text_beq n git_name ≡ false
name_not n p = not_git n (λ e.
    let clash : false ≡ true = sym git_not_temp ∙ subst (λ x. is_git_temp_name x ≡ true) e p in
    absurd (cc))

none_at_end : repo_root_for_git_path [] ≡ none
unfolding repo_root_for_git_path
none_at_end = refl

-- The repository of a scratch file is found from its path.
pub repo_root-ScratchPath :
    (repo path : Canon) → ScratchPath repo path → repo_root_for_git_path path ≡ some repo
repo_root-ScratchPath repo path s =
    ap repo_root_for_git_path s.path_is
    ∙ repo_root_at repo (objects ∷ s.folder ∷ s.name ∷ []) (
        no_git objects (s.folder ∷ s.name ∷ []) objects_not (
          no_git s.folder (s.name ∷ []) (store_not s.folder s.in_store)
            (no_git s.name [] (name_not s.name s.named) none_at_end)))
