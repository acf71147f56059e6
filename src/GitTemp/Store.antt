-- ===== src/GitTemp/Store.antt =====
-- git_temp.rs, `scan_git_dir`: what the scan of one repository finds.
use dracon_system_disk_proce.Common.{
  ℕ, ◌≡◌, ◌⊎◌, inl, inr, refl, true, Option, none, some, [], ◌∷◌, ◌++◌, Bool-cases, sym, subst,
}
use dracon_system_disk_proce.Common.Text.{Text}
use mathlib.Core.List.{Memᴰ}
use mathlib.Core.List.Memᴰ
use dracon_system_disk_proce.Safety.{Canon}
use dracon_system_disk_proce.GitTemp.{GitTempFile, Listing, nothing, folder, link, file, other}
use dracon_system_disk_proce.GitTemp.Scan.{
  is_git_temp_name, age_hours, read_dir, scan_flat_dir, is_fanout, scan_fanout, git_name, objects,
  pack, scan_git_dir,
}

-- A directory has a folder, that is no link, of this name with these contents.
abbrev pub HasFolder : Text → Listing → Listing → Type 0
HasFolder n sub nothing = ⊥
HasFolder n sub (folder m s rest) = ((m ≡ some n) × (s ≡ sub)) ⊎ HasFolder n sub rest
HasFolder n sub (link m s rest) = HasFolder n sub rest
HasFolder n sub (file m meta rest) = HasFolder n sub rest
HasFolder n sub (other m rest) = HasFolder n sub rest

-- A directory has a regular file of this name, size and time.
abbrev pub HasFile : Text → ℕ × Option ℕ → Listing → Type 0
HasFile n meta nothing = ⊥
HasFile n meta (folder m s rest) = HasFile n meta rest
HasFile n meta (link m s rest) = HasFile n meta rest
HasFile n meta (file m t rest) = ((m ≡ some n) × (t ≡ some meta)) ⊎ HasFile n meta rest
HasFile n meta (other m rest) = HasFile n meta rest

-- A file with the name of a scratch file in a directory.
pub record Flat (now : ℕ) (dir : Canon) (shown : Listing) (f : GitTempFile) : Type 0 where
  pub name : Text
  pub bytes : ℕ
  pub modified : Option ℕ
  pub has : HasFile name (bytes, modified) shown
  pub named : is_git_temp_name name ≡ true
  pub same :
      f ≡ record { path = dir ++ name ∷ []; bytes = bytes; age_hours = age_hours now modified }

-- A scratch file of a repository: in `objects/pack`, or in a folder of `objects` with a name of two hex
-- digits. `objects` and `pack` are found by their paths, so they may be links.
abbrev pub Scratch : ℕ → Canon → Listing → GitTempFile → Type 0
Scratch now repo git f =
    Flat now (((repo ++ git_name ∷ []) ++ objects ∷ []) ++ pack ∷ [])
      (read_dir pack (read_dir objects git)) f
    ⊎ ((d : Text) × (sub : Listing) × (is_fanout d ≡ true)
        × HasFolder d sub (read_dir objects git)
        × Flat now (((repo ++ git_name ∷ []) ++ objects ∷ []) ++ d ∷ []) sub f)

module _ (now : ℕ) (f : GitTempFile) where
  Flat-later :
      {dir : Canon} {a b : Listing}
      → ((n : Text) (m : ℕ × Option ℕ) → HasFile n m a → HasFile n m b)
      → Flat now dir a f
      → Flat now dir b f
  Flat-later g t = record {
    name = t.name;
    bytes = t.bytes;
    modified = t.modified;
    has = g t.name (t.bytes, t.modified) t.has;
    named = t.named;
    same = t.same;
  }

  flat→ : (dir : Canon) (l : Listing) → Memᴰ f (scan_flat_dir now dir l) → Flat now dir l f
  unfolding scan_flat_dir
  flat→ dir nothing m = elim m [ ]
  flat→ dir (folder n sub rest) m = Flat-later (λ _ _ h. h) (flat→ dir rest m)
  flat→ dir (link n sub rest) m = Flat-later (λ _ _ h. h) (flat→ dir rest m)
  flat→ dir (other n rest) m = Flat-later (λ _ _ h. h) (flat→ dir rest m)
  flat→ dir (file none meta rest) m = Flat-later (λ _ _ h. inr h) (flat→ dir rest m)
  flat→ dir (file (some n) none rest) m = Flat-later (λ _ _ h. inr h) (flat→ dir rest m)
  flat→ dir (file (some n) (some (bytes, modified)) rest) m =
      elim (Bool-cases (is_git_temp_name n)) [
        | inr e ↦ Flat-later (λ _ _ h. inr h) (flat→ dir rest (rw e at m))
        | inl e ↦
            let k : Memᴰ f (
                record { path = dir ++ n ∷ []; bytes = bytes; age_hours = age_hours now modified }
                ∷ scan_flat_dir now dir rest) =
              rw e at m in
            elim (Memᴰ.cases_cons k) [
              | inl s ↦ record {
                name = n;
                bytes = bytes;
                modified = modified;
                has = inl (refl, refl);
                named = e;
                same = s;
              }
              | inr w ↦ Flat-later (λ _ _ h. inr h) (flat→ dir rest w)
            ]
      ]

  flat← : (dir : Canon) (l : Listing) (t : Flat now dir l f) → Memᴰ f (scan_flat_dir now dir l)
  unfolding scan_flat_dir
  flat← dir l t = subst (λ g. Memᴰ g (scan_flat_dir now dir l)) (sym t.same) (go l t.has)
    where
      go :
          (l : Listing)
          → HasFile t.name (t.bytes, t.modified) l
          → Memᴰ
              (record {
                path = dir ++ t.name ∷ [];
                bytes = t.bytes;
                age_hours = age_hours now t.modified;
              })
              (scan_flat_dir now dir l)
      go nothing h = absurd h
      go (folder n sub rest) h = go rest h
      go (link n sub rest) h = go rest h
      go (other n rest) h = go rest h
      go (file none meta rest) (inl (a, b)) = absurd (cc)
      go (file none meta rest) (inr h) = go rest h
      go (file (some n) none rest) (inl (a, b)) = absurd (cc)
      go (file (some n) none rest) (inr h) = go rest h
      go (file (some n) (some (bytes, modified)) rest) (inl (a, b)) =
          let na : n ≡ t.name = cc in
          let nb : bytes ≡ t.bytes = cc in
          let nm : modified ≡ t.modified = cc in rw (na, nb, nm, t.named) (Memᴰ.head refl)
      go (file (some n) (some (bytes, modified)) rest) (inr h) =
          elim (Bool-cases (is_git_temp_name n)) [
            | inl e ↦ rw e (Memᴰ.tail (go rest h))
            | inr e ↦ rw e (go rest h)
          ]

  -- A scratch file in a folder of `objects` whose name is two hex digits.
  abbrev InFanout : Canon → Listing → Type 0
  InFanout dir l =
      (d : Text) × (sub : Listing) × (is_fanout d ≡ true)
      × HasFolder d sub l
      × Flat now (dir ++ d ∷ []) sub f

  fanout-later :
      (dir : Canon) (n : Option Text) (s rest : Listing)
      → InFanout dir rest
      → InFanout dir (folder n s rest)
  fanout-later dir n s rest (d, sub, e, h, t) = (d, sub, e, inr h, t)

  fanout→ : (dir : Canon) (l : Listing) → Memᴰ f (scan_fanout now dir l) → InFanout dir l
  unfolding scan_fanout
  fanout→ dir nothing m = elim m [ ]
  fanout→ dir (link n sub rest) m = fanout→ dir rest m
  fanout→ dir (file n meta rest) m = fanout→ dir rest m
  fanout→ dir (other n rest) m = fanout→ dir rest m
  fanout→ dir (folder none sub rest) m = fanout-later dir none sub rest (fanout→ dir rest m)
  fanout→ dir (folder (some n) sub rest) m = elim (Bool-cases (is_fanout n)) [
    | inr e ↦ fanout-later dir (some n) sub rest (fanout→ dir rest (rw e at m))
    | inl e ↦
        let k : Memᴰ f (scan_flat_dir now (dir ++ n ∷ []) sub ++ scan_fanout now dir rest) =
          rw e at m in
        elim (Memᴰ.append_cases (scan_flat_dir now (dir ++ n ∷ []) sub) k) [
          | inl w ↦ (n, sub, e, inl (refl, refl), flat→ (dir ++ n ∷ []) sub w)
          | inr w ↦ fanout-later dir (some n) sub rest (fanout→ dir rest w)
        ]
  ]

  fanout← :
      (dir : Canon) (l : Listing) (d : Text) (sub : Listing)
      → is_fanout d ≡ true
      → HasFolder d sub l
      → Flat now (dir ++ d ∷ []) sub f
      → Memᴰ f (scan_fanout now dir l)
  unfolding scan_fanout
  fanout← dir nothing d sub e h t = absurd h
  fanout← dir (link n s rest) d sub e h t = fanout← dir rest d sub e h t
  fanout← dir (file n meta rest) d sub e h t = fanout← dir rest d sub e h t
  fanout← dir (other n rest) d sub e h t = fanout← dir rest d sub e h t
  fanout← dir (folder none s rest) d sub e (inl (a, b)) t = absurd (cc)
  fanout← dir (folder none s rest) d sub e (inr h) t = fanout← dir rest d sub e h t
  fanout← dir (folder (some n) s rest) d sub e (inl (a, b)) t =
      let same : n ≡ d = cc in
      rw (same, b, e) (Memᴰ.append_left (scan_fanout now dir rest) (flat← (dir ++ d ∷ []) sub t))
  fanout← dir (folder (some n) s rest) d sub e (inr h) t = elim (Bool-cases (is_fanout n)) [
    | inl q ↦
        rw q
          (Memᴰ.append_right (scan_flat_dir now (dir ++ n ∷ []) s) (fanout← dir rest d sub e h t))
    | inr q ↦ rw q (fanout← dir rest d sub e h t)
  ]

  pub scan_git_dir→ :
      (repo : Canon) (git : Listing)
      → Memᴰ f (scan_git_dir now (repo ++ git_name ∷ []) git)
      → Scratch now repo git f
  unfolding scan_git_dir
  scan_git_dir→ repo git m =
      let objects_dir = (repo ++ git_name ∷ []) ++ objects ∷ [] in
      elim (Memᴰ.append_cases
        (scan_flat_dir now (objects_dir ++ pack ∷ []) (read_dir pack (read_dir objects git))) m) [
          | inl w ↦ inl (flat→ (objects_dir ++ pack ∷ []) (read_dir pack (read_dir objects git)) w)
          | inr w ↦ inr (fanout→ objects_dir (read_dir objects git) w)
        ]

  pub scan_git_dir← :
      (repo : Canon) (git : Listing)
      → Scratch now repo git f
      → Memᴰ f (scan_git_dir now (repo ++ git_name ∷ []) git)
  unfolding scan_git_dir
  scan_git_dir← repo git (inl t) =
      let objects_dir = (repo ++ git_name ∷ []) ++ objects ∷ [] in
      Memᴰ.append_left (scan_fanout now objects_dir (read_dir objects git))
        (flat← (objects_dir ++ pack ∷ []) (read_dir pack (read_dir objects git)) t)
  scan_git_dir← repo git (inr (d, sub, e, h, t)) =
      let objects_dir = (repo ++ git_name ∷ []) ++ objects ∷ [] in
      Memᴰ.append_right
        (scan_flat_dir now (objects_dir ++ pack ∷ []) (read_dir pack (read_dir objects git)))
        (fanout← objects_dir (read_dir objects git) d sub e h t)
