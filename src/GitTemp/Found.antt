-- ===== src/GitTemp/Found.antt =====
-- git_temp.rs: what the walk of `find_git_temp_files` finds.
use dracon_system_disk_proce.Common.{
  ℕ, ◌+◌, ◌<◌, ◌≡◌, ◌≢◌, ◌↔◌, inl, inr, refl, none, some, [], ◌∷◌, ◌++◌, Bool-cases, ltb, ltb→lt,
  lt→ltb, subst, ap,
}
use dracon_system_disk_proce.Common.Text.{Text, text_beq}
use dracon_system_disk_proce.Reap.Proc.Exempt.{text_beq_iff}
use mathlib.Core.List.{Memᴰ}
use mathlib.Core.List.Memᴰ
use dracon_system_disk_proce.Safety.{Canon}
use dracon_system_disk_proce.GitTemp.{GitTempFile, Listing, nothing, folder, link, file, other}
use dracon_system_disk_proce.GitTemp.Scan.{
  git_name, scan_git_dir, git_dirs, subdirs, collect_git_temp_files, find_git_temp_files,
}
use dracon_system_disk_proce.GitTemp.Store.{HasFolder, Scratch, scan_git_dir→, scan_git_dir←}

-- A repository, whose `.git` shows `git`, at or below a directory: reached through folders alone, none
-- of them named `.git`, and not deeper than the limit.
pub data Repo (max_depth : ℕ) : Canon → ℕ → Listing → Canon → Listing → Type 0 where
  at :
      {dir : Canon} {depth : ℕ} {shown git : Listing}
      → HasFolder git_name git shown
      → Repo max_depth dir depth shown dir git
  down :
      {dir repo : Canon} {depth : ℕ} {shown sub git : Listing} (n : Text)
      → HasFolder n sub shown
      → n ≢ git_name
      → depth < max_depth
      → Repo max_depth (dir ++ n ∷ []) (depth + 1) sub repo git
      → Repo max_depth dir depth shown repo git

module _ (now : ℕ) (f : GitTempFile) where
  -- A folder named `.git` of the directory, with what is found in it.
  abbrev InGit : Canon → Listing → Type 0
  InGit dir l = (git : Listing) × HasFolder git_name git l × Scratch now dir git f

  git_dirs→ : (dir : Canon) (l : Listing) → Memᴰ f (git_dirs now dir l) → InGit dir l
  unfolding git_dirs
  git_dirs→ dir nothing m = elim m [ ]
  git_dirs→ dir (link n sub rest) m = git_dirs→ dir rest m
  git_dirs→ dir (file n meta rest) m = git_dirs→ dir rest m
  git_dirs→ dir (other n rest) m = git_dirs→ dir rest m
  git_dirs→ dir (folder none sub rest) m = let (git, h, t) = git_dirs→ dir rest m in (git, inr h, t)
  git_dirs→ dir (folder (some n) sub rest) m = elim (Bool-cases (text_beq n git_name)) [
    | inr e ↦ let (git, h, t) = git_dirs→ dir rest (rw e at m) in (git, inr h, t)
    | inl e ↦
        let named : n ≡ git_name = (text_beq_iff n git_name).0 e in
        let k : Memᴰ f (scan_git_dir now (dir ++ n ∷ []) sub ++ git_dirs now dir rest) =
          rw e at m in
        elim (Memᴰ.append_cases (scan_git_dir now (dir ++ n ∷ []) sub) k) [
          | inl w ↦ (
            sub,
            inl (ap some named, refl),
            scan_git_dir→ now f dir sub
                (subst (λ x. Memᴰ f (scan_git_dir now (dir ++ x ∷ []) sub)) named w),
          )
          | inr w ↦ let (git, h, t) = git_dirs→ dir rest w in (git, inr h, t)
        ]
  ]

  git_dirs← :
      (dir : Canon) (l git : Listing)
      → HasFolder git_name git l
      → Scratch now dir git f
      → Memᴰ f (git_dirs now dir l)
  unfolding git_dirs
  git_dirs← dir nothing git h t = absurd h
  git_dirs← dir (link n s rest) git h t = git_dirs← dir rest git h t
  git_dirs← dir (file n meta rest) git h t = git_dirs← dir rest git h t
  git_dirs← dir (other n rest) git h t = git_dirs← dir rest git h t
  git_dirs← dir (folder none s rest) git (inl (a, b)) t = absurd (cc)
  git_dirs← dir (folder none s rest) git (inr h) t = git_dirs← dir rest git h t
  git_dirs← dir (folder (some n) s rest) git (inl (a, b)) t =
      let same : n ≡ git_name = cc in
      rw (same, b, (text_beq_iff git_name git_name).1 refl)
        (Memᴰ.append_left (git_dirs now dir rest) (scan_git_dir← now f dir git t))
  git_dirs← dir (folder (some n) s rest) git (inr h) t = elim (Bool-cases (text_beq n git_name)) [
    | inl q ↦
        rw q (Memᴰ.append_right (scan_git_dir now (dir ++ n ∷ []) s) (git_dirs← dir rest git h t))
    | inr q ↦ rw q (git_dirs← dir rest git h t)
  ]

  module _ (max_depth : ℕ) where
    -- A repository of the directory, with what is found in it.
    abbrev InRepo : Canon → ℕ → Listing → Type 0
    InRepo dir depth l =
        (repo : Canon) × (git : Listing) × Repo max_depth dir depth l repo git
        × Scratch now repo git f

    Repo-later :
        (dir : Canon) (depth : ℕ) (a b : Listing)
        → ((n : Text) (s : Listing) → HasFolder n s a → HasFolder n s b)
        → InRepo dir depth a
        → InRepo dir depth b
    Repo-later dir depth a b g (repo, git, at h, t) = (repo, git, at (g git_name git h), t)
    Repo-later dir depth a b g (repo, git, down n h ne lt r, t) =
        (repo, git, down n (g n _ h) ne lt r, t)

    subdirs→ :
        (dir : Canon) (depth : ℕ) (l : Listing)
        → Memᴰ f (subdirs now dir depth max_depth l)
        → InRepo dir depth l
    unfolding subdirs
    subdirs→ dir depth nothing m = elim m [ ]
    subdirs→ dir depth (link n sub rest) m =
        Repo-later dir depth rest (link n sub rest) (λ _ _ h. h) (subdirs→ dir depth rest m)
    subdirs→ dir depth (file n meta rest) m =
        Repo-later dir depth rest (file n meta rest) (λ _ _ h. h) (subdirs→ dir depth rest m)
    subdirs→ dir depth (other n rest) m =
        Repo-later dir depth rest (other n rest) (λ _ _ h. h) (subdirs→ dir depth rest m)
    subdirs→ dir depth (folder none sub rest) m =
        Repo-later dir depth rest (folder none sub rest) (λ _ _ h. inr h)
          (subdirs→ dir depth rest m)
    subdirs→ dir depth (folder (some n) sub rest) m =
        let later = λ (k : Memᴰ f (subdirs now dir depth max_depth rest)).
          Repo-later dir depth rest (folder (some n) sub rest) (λ _ _ h. inr h)
            (subdirs→ dir depth rest k) in
        let inside : Canon = dir ++ n ∷ [] in
        elim (Bool-cases (text_beq n git_name)) [
          | inl e ↦ later (rw e at m)
          | inr e ↦ elim (Bool-cases (ltb depth max_depth)) [
            | inr q ↦ later (rw (e, q) at m)
            | inl q ↦
                let other_name : n ≢ git_name =
                  λ s. let clash = (text_beq_iff n git_name).1 s in absurd (cc) in
                let k : Memᴰ f (
                    (git_dirs now inside sub ++ subdirs now inside (depth + 1) max_depth sub)
                    ++ subdirs now dir depth max_depth rest) =
                  rw (e, q) at m in
                let enter = λ (r : InRepo inside (depth + 1) sub).
                  let (repo, git, within, t) = r in
                  let found : InRepo dir depth (folder (some n) sub rest) = (
                    repo,
                    git,
                    down n (inl (refl, refl)) other_name (ltb→lt depth max_depth q) within,
                    t,
                  ) in
                  found in
                elim (Memᴰ.append_cases
                  (git_dirs now inside sub ++ subdirs now inside (depth + 1) max_depth sub) k) [
                    | inr w ↦ later w
                    | inl w ↦ elim (Memᴰ.append_cases (git_dirs now inside sub) w) [
                      | inl v ↦
                          let (git, h, t) = git_dirs→ inside sub v in enter (inside, git, at h, t)
                      | inr v ↦ enter (subdirs→ inside (depth + 1) sub v)
                    ]
                  ]
          ]
        ]

    subdirs← :
        (dir : Canon) (depth : ℕ) (l : Listing) (n : Text) (sub : Listing)
        → HasFolder n sub l
        → n ≢ git_name
        → depth < max_depth
        → Memᴰ f (collect_git_temp_files now (dir ++ n ∷ []) (depth + 1) max_depth sub)
        → Memᴰ f (subdirs now dir depth max_depth l)
    unfolding subdirs collect_git_temp_files
    subdirs← dir depth nothing n sub h ne lt m = absurd h
    subdirs← dir depth (link k s rest) n sub h ne lt m = subdirs← dir depth rest n sub h ne lt m
    subdirs← dir depth (file k meta rest) n sub h ne lt m = subdirs← dir depth rest n sub h ne lt m
    subdirs← dir depth (other k rest) n sub h ne lt m = subdirs← dir depth rest n sub h ne lt m
    subdirs← dir depth (folder none s rest) n sub (inl (a, b)) ne lt m = absurd (cc)
    subdirs← dir depth (folder none s rest) n sub (inr h) ne lt m =
        subdirs← dir depth rest n sub h ne lt m
    subdirs← dir depth (folder (some k) s rest) n sub (inl (a, b)) ne lt m =
        let same : k ≡ n = cc in
        elim (Bool-cases (text_beq n git_name)) [
          | inl e ↦ absurd (ne ((text_beq_iff n git_name).0 e))
          | inr e ↦
              rw (same, b, e, lt→ltb depth max_depth lt)
                (Memᴰ.append_left (subdirs now dir depth max_depth rest) m)
        ]
    subdirs← dir depth (folder (some k) s rest) n sub (inr h) ne lt m =
        let later = subdirs← dir depth rest n sub h ne lt m in
        elim (Bool-cases (text_beq k git_name)) [
          | inl e ↦ rw e later
          | inr e ↦ elim (Bool-cases (ltb depth max_depth)) [
            | inr q ↦ rw (e, q) later
            | inl q ↦
                rw (e, q)
                  (Memᴰ.append_right
                    (git_dirs now (dir ++ k ∷ []) s
                      ++ subdirs now (dir ++ k ∷ []) (depth + 1) max_depth s)
                    later)
          ]
        ]

    collect→ :
        (dir : Canon) (depth : ℕ) (l : Listing)
        → Memᴰ f (collect_git_temp_files now dir depth max_depth l)
        → InRepo dir depth l
    unfolding collect_git_temp_files
    collect→ dir depth l m = elim (Memᴰ.append_cases (git_dirs now dir l) m) [
      | inl w ↦ let (git, h, t) = git_dirs→ dir l w in (dir, git, at h, t)
      | inr w ↦ subdirs→ dir depth l w
    ]

    collect← :
        (dir : Canon) (depth : ℕ) (l : Listing) (repo : Canon) (git : Listing)
        → Repo max_depth dir depth l repo git
        → Scratch now repo git f
        → Memᴰ f (collect_git_temp_files now dir depth max_depth l)
    unfolding collect_git_temp_files
    collect← dir depth l repo git (at h) t =
        Memᴰ.append_left (subdirs now dir depth max_depth l) (git_dirs← dir l git h t)
    collect← dir depth l repo git (down n h ne lt r) t =
        Memᴰ.append_right (git_dirs now dir l)
          (subdirs← dir depth l n _ h ne lt (collect← (dir ++ n ∷ []) (depth + 1) _ repo git r t))

-- The walk finds exactly the scratch files of the repositories within the limit: the regular files with
-- the name of a scratch file in `objects/pack`, or in a folder of `objects` named by two hex digits,
-- where the way from the root to the `.git` folder goes through folders alone, that are not named `.git`.
pub find_git_temp_files_iff :
    (now : ℕ) (root : Canon) (max_depth : ℕ) (shown : Listing) (f : GitTempFile)
    → Memᴰ f (find_git_temp_files now root max_depth shown) ↔ (
        (repo : Canon) × (git : Listing) × Repo max_depth root 0 shown repo git
        × Scratch now repo git f)
unfolding find_git_temp_files
find_git_temp_files_iff now root max_depth shown f = (
  collect→ now f max_depth root 0 shown,
  λ (repo, git, r, t). collect← now f max_depth root 0 shown repo git r t,
)
