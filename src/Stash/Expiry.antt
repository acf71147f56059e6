-- ===== src/Stash/Expiry.antt =====
-- stash.rs, `stash_expire_detailed`: which entries an expiry deletes.
use dracon_system_disk_proce.Common.{
  ℕ, ◌-◌, ◌<◌, ◌≡◌, ◌⊎◌, inl, inr, refl, Bool, true, false, Option, none, some, List, [], ◌∷◌,
  Bool-cases, Option-cases, arith, saturating_mul, ltb→lt, lt→ltb, sym, ap, subst,
}
use dracon_system_disk_proce.Common.Sort.{sort_by-Mem}
use dracon_system_disk_proce.Common.Text.{Text}
use mathlib.Core.List.{Memᴰ}
use dracon_system_disk_proce.Safety.{Canon}
use dracon_system_disk_proce.Stash.FileSystem.{StashManifest}
use dracon_system_disk_proce.Stash.Listing.{
  EntryDir, StashEntry, has_expired, list_entry, list_entries, stash_list, by_name, directly_under,
  expire_entries, stash_expire_detailed,
}

-- A directory of the root whose manifest can be read and is older than the TTL, which is not 0, and
-- that resolves to a path directly under the root.
pub record Due (canonicalize : Text → Option Canon) (root : Canon) (ttl_days now : ℕ)
    (dirs : List EntryDir) (p : Canon) : Type 0 where
  pub dir : EntryDir
  pub in_root : Memᴰ dir dirs
  pub manifest : StashManifest
  pub readable : dir.manifest ≡ some manifest
  pub has_ttl : 0 < ttl_days
  pub old : saturating_mul ttl_days 86400 < now - manifest.moved_at_unix
  pub resolves : canonicalize dir.name ≡ some p
  pub directly : directly_under root p ≡ true

module _ (ttl_days now : ℕ) where
  -- The row of a directory.
  abbrev row : EntryDir → StashEntry
  row d = list_entry ttl_days now d d.manifest

  entries→ :
      (e : StashEntry) (ds : List EntryDir)
      → Memᴰ e (list_entries ttl_days now ds)
      → (d : EntryDir) × Memᴰ d ds × (e ≡ row d)
  unfolding list_entries
  entries→ e [] m = elim m [ ]
  entries→ e (d ∷ ds) (Memᴰ.head h) = (d, Memᴰ.head refl, h)
  entries→ e (d ∷ ds) (Memᴰ.tail m) = let (f, at, h) = entries→ e ds m in (f, Memᴰ.tail at, h)

  entries← :
      (d : EntryDir) (ds : List EntryDir) → Memᴰ d ds → Memᴰ (row d) (list_entries ttl_days now ds)
  unfolding list_entries
  entries← d [] m = elim m [ ]
  entries← d (f ∷ ds) (Memᴰ.head h) = Memᴰ.head (ap row h)
  entries← d (f ∷ ds) (Memᴰ.tail m) = Memᴰ.tail (entries← d ds m)

  expired→ :
      (d : EntryDir) (o : Option StashManifest)
      → d.manifest ≡ o
      → (list_entry ttl_days now d o).expired ≡ true
      → (m : StashManifest) × (d.manifest ≡ some m)
        × (0 < ttl_days)
        × (saturating_mul ttl_days 86400 < now - m.moved_at_unix)
  unfolding list_entry has_expired
  expired→ d none e h = absurd (let clash : false ≡ true = h in cc)
  expired→ d (some m) e h = (m, e, ltb→lt _ _ (ground arith), ltb→lt _ _ (ground arith))

  row-name : (d : EntryDir) (o : Option StashManifest) → (list_entry ttl_days now d o).name ≡ d.name
  unfolding list_entry
  row-name d none = refl
  row-name d (some m) = refl

  row-expired :
      (d : EntryDir) (m : StashManifest)
      → d.manifest ≡ some m
      → 0 < ttl_days
      → saturating_mul ttl_days 86400 < now - m.moved_at_unix
      → (row d).expired ≡ true
  unfolding list_entry has_expired
  row-expired d m e t o = rw (e, list_entry, lt→ltb _ _ t, lt→ltb _ _ o) refl

module _ (canonicalize : Text → Option Canon) (removes : Canon → Bool) (root : Canon) (apply : Bool)
    (p : Canon) where
  -- An entry that the pass deletes at the path.
  abbrev Hit : StashEntry → Type 0
  Hit e = (e.expired ≡ true) × (canonicalize e.name ≡ some p) × (directly_under root p ≡ true)

  first_or_later : {c : Canon} {l : List Canon} → Memᴰ p (c ∷ l) → (c ≡ p) ⊎ Memᴰ p l
  first_or_later (Memᴰ.head h) = inl (sym h)
  first_or_later (Memᴰ.tail k) = inr k

  only : {c : Canon} → Memᴰ p (c ∷ []) → c ≡ p
  only (Memᴰ.head h) = sym h
  only (Memᴰ.tail k) = elim k [ ]

  deleted→ :
      (es : List StashEntry)
      → Memᴰ p (expire_entries canonicalize removes root apply es).deleted
      → (apply ≡ true) × ((e : StashEntry) × Memᴰ e es × Hit e)
  unfolding expire_entries
  deleted→ [] m = elim m [ ]
  deleted→ (e ∷ es) m =
      let later = λ (k : Memᴰ p (expire_entries canonicalize removes root apply es).deleted).
        let found = deleted→ es k in
        let result : (apply ≡ true) × ((f : StashEntry) × Memᴰ f (e ∷ es) × Hit f) =
          (found.0, (found.1.0, Memᴰ.tail found.1.1, found.1.2)) in
        result in
      elim (Bool-cases e.expired) [
        | inr x ↦ later (rw x at m)
        | inl x ↦ elim (Option-cases (canonicalize e.name)) [
          | inl n ↦ later (rw (x, n) at m)
          | inr (c, n) ↦ elim (Bool-cases (directly_under root c)) [
            | inr u ↦ later (rw (x, n, u) at m)
            | inl u ↦ elim (Bool-cases apply) [
              | inr a ↦ later (rw (x, n, u, a) at m)
              | inl a ↦
                  let here : (c ≡ p)
                      → (apply ≡ true) × ((f : StashEntry) × Memᴰ f (e ∷ es) × Hit f) =
                    λ s. (
                      a,
                      (
                        e,
                        Memᴰ.head refl,
                        (
                          x,
                          subst (λ z. canonicalize e.name ≡ some z) s n,
                          subst (λ z. directly_under root z ≡ true) s u,
                        ),
                      ),
                    ) in
                  elim (Bool-cases (removes c)) [
                    | inr r ↦ here (only (rw (x, n, u, a, r) at m))
                    | inl r ↦
                        let k : Memᴰ p
                            (c ∷ (expire_entries canonicalize removes root apply es).deleted) =
                          rw (x, n, u, a, r) at m in
                        elim (first_or_later k) [ inl s ↦ here s | inr w ↦ later w ]
                  ]
            ]
          ]
        ]
      ]

-- An expiry deletes only with `apply`, and only paths directly under the stash root: each is what a
-- directory of the root resolves to whose manifest can be read and was written more than the TTL ago,
-- and the TTL is not 0. So an entry without a readable manifest is never deleted, nor is anything
-- outside the root.
pub stash_expire-Due :
    (canonicalize : Text → Option Canon) (removes : Canon → Bool) (root : Canon) (apply : Bool)
    → (ttl_days now : ℕ) (dirs : List EntryDir) (p : Canon)
    → Memᴰ p (stash_expire_detailed canonicalize removes root apply ttl_days now dirs).deleted
    → (apply ≡ true) × Due canonicalize root ttl_days now dirs p
unfolding stash_expire_detailed stash_list
stash_expire-Due canonicalize removes root apply ttl_days now dirs p m =
    let (a, (e, at, (x, n, u))) =
      deleted→ canonicalize removes root apply p (stash_list ttl_days now dirs).entries m in
    let (d, within, same) =
      entries→ ttl_days now e dirs (sort_by-Mem by_name e (list_entries ttl_days now dirs) at) in
    let (manifest, readable, t, o) =
      expired→ ttl_days now d d.manifest refl
        (subst (λ (f : StashEntry). f.expired ≡ true) same x) in
    (
      a,
      record {
        dir = d;
        in_root = within;
        manifest = manifest;
        readable = readable;
        has_ttl = t;
        old = o;
        resolves =
            subst (λ z. canonicalize z ≡ some p) (row-name ttl_days now d d.manifest)
              (subst (λ (f : StashEntry). canonicalize f.name ≡ some p) same n);
        directly = u;
      },
    )
