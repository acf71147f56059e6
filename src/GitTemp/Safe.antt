-- ===== src/GitTemp/Safe.antt =====
-- git_temp.rs, `clean_git_temp_files`: what a pass deletes.
use dracon_system_disk_proce.Common.{
  arith, if◌then◌else◌, nat_eq, not, ◌+◌, ℕ, ◌≤◌, ◌≡◌, inl, inr, refl, Bool, true, false, ◌&&◌,
  Option, none, some, List, [], ◌∷◌, Bool-cases, Option-cases, leb→le, sym, subst, ◌∙◌,
}
use mathlib.Core.List.{Memᴰ}
use mathlib.Core.List.Memᴰ
use dracon_system_disk_proce.Safety.{Canon}
use dracon_system_disk_proce.Stash.FileSystem.{list_eq}
use dracon_system_disk_proce.GitTemp.{GitTempFile, Listing}
use dracon_system_disk_proce.GitTemp.Scan.{find_git_temp_files}
use dracon_system_disk_proce.GitTemp.Owner.{
  GitProc, GitOwner, git_owner, live_git_owners, is_within, git_owner_for, repo_root_for_git_path,
  owner_of,
}
use dracon_system_disk_proce.GitTemp.Clean.{
  unlinks, GitTempCleanupOutcome, is_expired, clean_git_temp_files, candidates, git_temp_pass,
}
use dracon_system_disk_proce.GitTemp.Path.{ScratchPath, found-ScratchPath, repo_root-ScratchPath}

-- A file that may go: a scratch file of a repository in which no live git process that writes packs
-- works, of a known age of at least the limit.
pub record Stale (procs : List GitProc) (min_age_hours : ℕ) (f : GitTempFile) : Type 0 where
  pub repo : Canon
  pub scratch : ScratchPath repo f.path
  pub age : ℕ
  pub known : f.age_hours ≡ some age
  pub old : min_age_hours ≤ age
  pub unowned :
      (p : GitProc) (o : GitOwner)
      → Memᴰ p procs
      → git_owner p ≡ some o
      → o.writes_packs ≡ true
      → is_within o.cwd repo ≡ false

module _ {ℓ} {A : Type ℓ} (removes : Canon → Bool) (min_age_hours : ℕ) (owner : Canon → Option A)
    (apply : Bool) where
  cleaned→ :
      (f : GitTempFile) (gone : List Canon) (fs : List GitTempFile)
      → Memᴰ f (clean_git_temp_files removes min_age_hours owner apply gone fs).cleaned
      → Memᴰ f fs
        × (owner f.path ≡ none)
        × (is_expired f min_age_hours ≡ true)
        × ((apply && not (removes f.path)) ≡ false)
  unfolding clean_git_temp_files
  cleaned→ f gone [] m = elim m [ ]
  cleaned→ f gone (g ∷ fs) m =
      let later =
        λ (l : List Canon)
            (k : Memᴰ f (clean_git_temp_files removes min_age_hours owner apply l fs).cleaned).
          let (w, a, b, c) = cleaned→ f l fs k in
          let found : Memᴰ f (g ∷ fs)
              × (owner f.path ≡ none)
              × (is_expired f min_age_hours ≡ true)
              × ((apply && not (removes f.path)) ≡ false) =
            (Memᴰ.tail w, a, b, c) in
          found in
      let left : List Canon = if apply then g.path ∷ gone else gone in
      elim (Option-cases (owner g.path)) [
        | inr (o, e) ↦ later gone (rw e at m)
        | inl e ↦ elim (Bool-cases (is_expired g min_age_hours)) [
          | inr x ↦ later gone (rw (e, x) at m)
          | inl x ↦ elim (Bool-cases (apply && not (unlinks removes gone g.path))) [
            | inl r ↦ later gone (rw (e, x, r) at m)
            | inr r ↦
                let k : Memᴰ f
                    (g ∷ (clean_git_temp_files removes min_age_hours owner apply left fs).cleaned) =
                  rw (e, x, r) at m in
                elim (Memᴰ.cases_cons k) [
                  | inr w ↦ later left w
                  | inl s ↦ rw s (Memᴰ.head refl, e, x, allowed gone g.path r)
                ]
          ]
        ]
      ]
    where
      allowed :
          (gone : List Canon) (p : Canon)
          → (apply && not (unlinks removes gone p)) ≡ false
          → (apply && not (removes p)) ≡ false
      allowed gone p h = ground arith

-- The files whose removal works, each path once.
unfoldable pub first_removals : (Canon → Bool) → List Canon → List GitTempFile → List GitTempFile
first_removals removes gone [] = []
first_removals removes gone (f ∷ fs) =
    let rest = first_removals removes gone fs in
    let others = first_removals removes (f.path ∷ gone) fs in
    if unlinks removes gone f.path then f ∷ others else rest

unfoldable pub total_bytes : List GitTempFile → ℕ
total_bytes [] = 0
total_bytes (f ∷ fs) = f.bytes + total_bytes fs

abbrev pub Agrees :
    (Canon → Bool) → List Canon → GitTempCleanupOutcome → GitTempCleanupOutcome → Type 0
Agrees removes gone dry real =
    (real.cleaned ≡ first_removals removes gone dry.cleaned)
    × (real.skipped_fresh ≡ dry.skipped_fresh)
    × (real.skipped_owned ≡ dry.skipped_owned)
    × (dry.reclaimed_bytes ≡ total_bytes dry.cleaned)
    × (real.reclaimed_bytes ≡ total_bytes real.cleaned)

candidates→ :
    (now : ℕ) (f : GitTempFile) (roots : List (Canon × Listing))
    → Memᴰ f (candidates now roots)
    → (root : Canon) × (shown : Listing) × Memᴰ f (find_git_temp_files now root 4 shown)
unfolding candidates
candidates→ now f [] m = elim m [ ]
candidates→ now f ((root, shown) ∷ roots) m =
    elim (Memᴰ.append_cases (find_git_temp_files now root 4 shown) m) [
      | inl w ↦ (root, shown, w)
      | inr w ↦ candidates→ now f roots w
    ]

owner_of-repo :
    (owners : List GitOwner) (repo path : Canon)
    → repo_root_for_git_path path ≡ some repo
    → owner_of owners path ≡ git_owner_for owners repo
unfolding owner_of
owner_of-repo owners repo path e = rw (owner_of, e) refl

unowned→ :
    (repo : Canon) (o : GitOwner) (owners : List GitOwner)
    → git_owner_for owners repo ≡ none
    → Memᴰ o owners
    → (o.writes_packs && is_within o.cwd repo) ≡ false
unfolding git_owner_for
unowned→ repo o [] h m = elim m [ ]
unowned→ repo o (q ∷ qs) h m = elim (Bool-cases (q.writes_packs && is_within q.cwd repo)) [
  | inl e ↦ absurd (let clash : some q ≡ none = rw e at h in cc)
  | inr e ↦ elim (Memᴰ.cases_cons m) [ inl s ↦ rw s e | inr w ↦ unowned→ repo o qs (rw e at h) w ]
]

live-Mem :
    (p : GitProc) (o : GitOwner) (ps : List GitProc)
    → Memᴰ p ps
    → git_owner p ≡ some o
    → Memᴰ o (live_git_owners ps)
unfolding live_git_owners
live-Mem p o [] m e = elim m [ ]
live-Mem p o (q ∷ qs) m e = elim (Memᴰ.cases_cons m) [
  | inl s ↦
      let at_q : git_owner q ≡ some o = subst (λ x. git_owner x ≡ some o) s e in
      rw at_q (Memᴰ.head refl)
  | inr w ↦ elim (Option-cases (git_owner q)) [
    | inl n ↦ rw n (live-Mem p o qs w e)
    | inr (r, n) ↦ rw n (Memᴰ.tail (live-Mem p o qs w e))
  ]
]

expired→ :
    (f : GitTempFile) (min_age_hours : ℕ)
    → is_expired f min_age_hours ≡ true
    → (age : ℕ) × (f.age_hours ≡ some age) × (min_age_hours ≤ age)
unfolding is_expired
expired→ f min_age_hours h = elim (Option-cases f.age_hours) [
  | inl n ↦ absurd (let clash : false ≡ true = rw n at h in cc)
  | inr (age, n) ↦ (age, n, leb→le min_age_hours age (rw n at h))
]

-- A pass cleans only stale scratch files: each has the path of a scratch file of a repository, an age
-- that is known and at least the limit, and no process of the proc root that is a git process that
-- writes packs works in that repository or below it; with `apply`, its removal succeeded.
pub git_temp_pass-Stale :
    (removes : Canon → Bool) (now : ℕ) (roots : List (Canon × Listing)) (procs : List GitProc)
    → (min_age_hours : ℕ) (apply : Bool) (f : GitTempFile)
    → Memᴰ f (git_temp_pass removes now roots procs min_age_hours apply).cleaned
    → Stale procs min_age_hours f × ((apply && not (removes f.path)) ≡ false)
unfolding git_temp_pass
git_temp_pass-Stale removes now roots procs min_age_hours apply f m =
    let (w, free, x, removed) =
      cleaned→ removes min_age_hours (owner_of (live_git_owners procs)) apply f []
        (candidates now roots) m in
    let (root, shown, k) = candidates→ now f roots w in
    let (repo, scratch) = found-ScratchPath now root 4 shown f k in
    let (age, known, old) = expired→ f min_age_hours x in
    let none_owns : git_owner_for (live_git_owners procs) repo ≡ none =
      sym (
        owner_of-repo (live_git_owners procs) repo f.path
          (repo_root-ScratchPath repo f.path scratch))
      ∙ free in
    (
      record {
        repo = repo;
        scratch = scratch;
        age = age;
        known = known;
        old = old;
        unowned = λ p o at_p e writes.
            let spared =
              unowned→ repo o (live_git_owners procs) none_owns (live-Mem p o procs at_p e) in
            (rw writes at spared);
      },
      removed,
    )
