-- ===== src/Stash/Roundtrip.antt =====
-- stash.rs: a directory that is moved into the stash and restored is back as it was.
use dracon_system_disk_proce.Common.{
  ◌⊎◌, inl, inr, ◌≡◌, ◌≢◌, refl, true, false, Option, none, some, [], ◌∷◌, ◌++◌, Bool-cases, ap,
  sym, ◌∙◌, append_assoc, append-nil, ◌==◌, nat_eq, subst,
}
use dracon_system_disk_proce.Common.Table.{get, get-insert, get-remove}
use dracon_system_disk_proce.Common.Text.{Text}
use dracon_system_disk_proce.Safety.{Canon, starts_with_path}
use dracon_system_disk_proce.Stash.FileSystem.{
  Disk, folder, file, StashManifest, Io, list_eq, list_beq_iff, rename, create_dir_all, remove_file,
  parent,
}
use dracon_system_disk_proce.Stash.{
  Result, ok, Request, manifest_name, read_manifest, stash_move_inner, valid_name,
  resolve_entry_dir, restore_entry, stash_restore,
}
use dracon_system_disk_proce.Stash.Moves.{
  Apart, Free, append_cancel, neq_false, eq_true, get-rename, get-rename_other, rename-Free,
  insert-Free, create_dir_all-Free, get-create_dir_all, comparable, get-Free, parent-prefix,
  parent-proper, Apart-prefix,
}
use dracon_system_disk_proce.Stash.Renamed.{
  starts_with_path-append, entry_of, moved_disk, checked-Renamed,
}

-- The moved directory and the stash lie apart.
module _ (q : Request) (canon : Canon) (not_below : starts_with_path canon q.root ≡ false)
    (not_above : starts_with_path q.root canon ≡ false) where
  root-Apart : Apart canon q.root
  root-Apart r e =
      let clash : starts_with_path q.root canon ≡ true =
        subst (λ x. starts_with_path x canon ≡ true) (sym e) (starts_with_path-append canon r) in
      absurd (cc)

  canon-Apart : Apart q.root canon
  canon-Apart r e =
      let clash : starts_with_path canon q.root ≡ true =
        subst (λ x. starts_with_path x q.root ≡ true) (sym e) (starts_with_path-append q.root r) in
      absurd (cc)

  entry-Apart : (s : Canon) → Apart canon (entry_of q ++ s)
  entry-Apart s r e =
      elim (comparable q.root canon (q.name ∷ s) r
        (sym (append_assoc q.root (q.name ∷ []) s) ∙ e)) [
          | inl (x, f) ↦ canon-Apart x f
          | inr (x, f) ↦ root-Apart x f
        ]

  below-Apart : (r : Canon) → Apart (entry_of q) (canon ++ r)
  below-Apart r s e = entry-Apart s r (sym e)

  -- A path below one of the two does not lie on the way to the other.
  below-canon-root : (r : Canon) → Apart (canon ++ r) q.root
  below-canon-root r x e = root-Apart (r ++ x) (e ∙ append_assoc canon r x)

  below-entry-canon : (r : Canon) → Apart (entry_of q ++ r) canon
  below-entry-canon r x e =
      canon-Apart (q.name ∷ (r ++ x))
        (e ∙ append_assoc (entry_of q) r x ∙ append_assoc q.root (q.name ∷ []) (r ++ x))

restore_entry-renames :
    (io : Io) (disk : Disk) (entry : Canon) (manifest : StashManifest)
    → io.renames ≡ true
    → get disk manifest.origin ≡ none
    → restore_entry io disk entry (some manifest) ≡ (
      remove_file io.unlinks
          (rename (create_dir_all disk (parent manifest.origin)) entry manifest.origin)
          (manifest.origin ++ manifest_name ∷ []),
      ok manifest.origin,
    )
unfolding restore_entry
restore_entry-renames io disk entry manifest r n = rw (n, r, restore_entry) refl

restore_entry-at :
    (io : Io) (disk : Disk) (entry origin : Canon) (manifest : StashManifest)
    → io.renames ≡ true
    → manifest.origin ≡ origin
    → get disk origin ≡ none
    → restore_entry io disk entry (some manifest) ≡ (
      remove_file io.unlinks
          (rename (create_dir_all disk (parent origin)) entry origin)
          (origin ++ manifest_name ∷ []),
      ok origin,
    )
restore_entry-at io disk entry origin manifest r e n =
    restore_entry-renames io disk entry manifest r (subst (λ o. get disk o ≡ none) (sym e) n)
    ∙ ap
        (λ (o : Canon).
          let result : Disk × Result Canon = (
            remove_file io.unlinks (rename (create_dir_all disk (parent o)) entry o)
                (o ++ manifest_name ∷ []),
            ok o,
          ) in
          result)
        e

module _ (io io' : Io) (disk : Disk) (q : Request) (canon : Canon) (manifest : StashManifest)
    (not_below : starts_with_path canon q.root ≡ false)
    (not_above : starts_with_path q.root canon ≡ false) (fresh : Free (entry_of q) disk) where
  abbrev entry : Canon
  entry = entry_of q

  abbrev created : Disk
  created = create_dir_all disk q.root

  abbrev moved : Disk
  moved = moved_disk io disk q canon manifest

  abbrev prepared : Disk
  prepared = create_dir_all moved (parent canon)

  entry-root : Apart entry q.root
  entry-root r e =
      let clash : [] ≡ q.name ∷ r =
        append_cancel q.root [] (q.name ∷ r)
          (append-nil q.root ∙ e ∙ append_assoc q.root (q.name ∷ []) r) in
      absurd (cc)

  created-fresh : Free entry created
  created-fresh = create_dir_all-Free disk entry q.root fresh entry-root

  -- The moved tree, but for the manifest.
  get-moved : (r : Canon) → r ≢ manifest_name ∷ [] → get moved (entry ++ r) ≡ get disk (canon ++ r)
  get-moved r n =
      get-insert (rename created canon entry) (entry ++ manifest_name ∷ []) (entry ++ r) _
      ∙ (rw
            (neq_false (entry ++ manifest_name ∷ []) (entry ++ r)
              (λ e. n (sym (append_cancel entry _ r e))))
            (get-rename created canon entry r created-fresh)
          ∙ get-create_dir_all disk q.root (canon ++ r)
              (below-canon-root q canon not_below not_above r))

  manifest_read : read_manifest moved entry ≡ some manifest
  unfolding read_manifest
  manifest_read =
      rw
        (
          get-insert (rename created canon entry) (entry ++ manifest_name ∷ [])
              (entry ++ manifest_name ∷ []) (file io.manifest_bytes (some manifest)),
          eq_true (entry ++ manifest_name ∷ []),
          read_manifest,
        )
        refl

  moved-Free : Free canon moved
  moved-Free =
      insert-Free (rename created canon entry) canon (entry ++ manifest_name ∷ []) _
        (rename-Free created canon entry (entry-Apart q canon not_below not_above))
        (entry-Apart q canon not_below not_above (manifest_name ∷ []))

  origin_gone : get moved canon ≡ none
  origin_gone =
      subst (λ p. get moved p ≡ none) (append-nil canon) (get-Free moved canon moved-Free [])

  parent-Apart : (p : Canon) → Apart p canon → Apart p (parent canon)
  parent-Apart p a =
      let (x, e) = parent-prefix canon in Apart-prefix p (parent canon) x (subst (Apart p) e a)

  -- No path is a proper continuation of itself.
  shrink : (p : Canon) (c : Text) (r x : Canon) → p ≢ (p ++ c ∷ r) ++ x
  shrink p c r x e =
      let clash : [] ≡ c ∷ (r ++ x) =
        append_cancel p [] (c ∷ (r ++ x)) (append-nil p ∙ e ∙ append_assoc p (c ∷ r) x) in
      absurd (cc)

  canon_full : canon ≢ []
  canon_full e =
      let clash : starts_with_path q.root canon ≡ true =
        subst (λ x. starts_with_path q.root x ≡ true) (sym e) (starts_with_path-append [] q.root) in
      absurd (cc)

  prepared-Free : Free canon prepared
  prepared-Free =
      let (c, x, e) = parent-proper canon canon_full in
      create_dir_all-Free moved canon (parent canon) moved-Free
        (λ r k. shrink (parent canon) c x r (k ∙ ap (λ p. p ++ r) e))

  abbrev restored_tree : Disk
  restored_tree = rename prepared entry canon

  abbrev back : Disk
  back = remove_file io'.unlinks restored_tree (canon ++ manifest_name ∷ [])

  -- The restored tree, but for the manifest, whether or not that is removed.
  get-restored_tree :
      (r : Canon) → r ≢ manifest_name ∷ [] → get restored_tree (canon ++ r) ≡ get disk (canon ++ r)
  get-restored_tree r differ =
      get-rename prepared entry canon r prepared-Free
      ∙ get-create_dir_all moved (parent canon) (entry ++ r)
          (parent-Apart (entry ++ r) (below-entry-canon q canon not_below not_above r))
      ∙ get-moved r differ

  get-back_but :
      (r : Canon) → r ≢ manifest_name ∷ [] → get back (canon ++ r) ≡ get disk (canon ++ r)
  unfolding remove_file
  get-back_but r differ = elim (Bool-cases io'.unlinks) [
    | inr e ↦ rw e (get-restored_tree r differ)
    | inl e ↦ rw e (
        get-remove restored_tree (canon ++ manifest_name ∷ []) (canon ++ r)
        ∙ rw
            (neq_false (canon ++ manifest_name ∷ []) (canon ++ r)
              (λ k. differ (sym (append_cancel canon _ r k))))
            (get-restored_tree r differ))
  ]

  get-back_manifest :
      get disk (canon ++ manifest_name ∷ []) ≡ none
      → io'.unlinks ≡ true
      → get back (canon ++ manifest_name ∷ []) ≡ get disk (canon ++ manifest_name ∷ [])
  unfolding remove_file
  get-back_manifest unreserved e = rw e (
      get-remove restored_tree (canon ++ manifest_name ∷ []) (canon ++ manifest_name ∷ [])
      ∙ rw (eq_true (canon ++ manifest_name ∷ [])) (sym unreserved))

  get-back :
      get disk (canon ++ manifest_name ∷ []) ≡ none
      → (r : Canon) → (io'.unlinks ≡ true) ⊎ (r ≢ manifest_name ∷ [])
      → get back (canon ++ r) ≡ get disk (canon ++ r)
  get-back unreserved r (inr differ) = get-back_but r differ
  get-back unreserved r (inl e) = elim (Bool-cases (r == manifest_name ∷ [])) [
    | inl same ↦
        subst (λ x. get back (canon ++ x) ≡ get disk (canon ++ x))
          (sym ((list_beq_iff r (manifest_name ∷ [])).0 same)) (get-back_manifest unreserved e)
    | inr other ↦
        get-back_but r (λ k. let clash = (list_beq_iff r (manifest_name ∷ [])).1 k in absurd (cc))
  ]

  get-elsewhere :
      (p : Canon)
      → Apart canon p
      → Apart entry p
      → Apart p q.root
      → Apart p canon
      → get back p ≡ get disk p
  unfolding remove_file
  get-elsewhere p a b c d =
      elsewhere (Bool-cases io'.unlinks)
      ∙ (get-rename_other prepared entry canon p b a
          ∙ get-create_dir_all moved (parent canon) p (parent-Apart p d)
          ∙ get-insert (rename created canon entry) (entry ++ manifest_name ∷ []) p _
          ∙ rw (neq_false (entry ++ manifest_name ∷ []) p (λ e. b _ (sym e)))
              (get-rename_other created canon entry p a b ∙ get-create_dir_all disk q.root p c))
    where
      elsewhere : (io'.unlinks ≡ true) ⊎ (io'.unlinks ≡ false) → get back p ≡ get restored_tree p
      elsewhere (inl e) = rw e (
          get-remove restored_tree (canon ++ manifest_name ∷ []) p
          ∙ rw (neq_false (canon ++ manifest_name ∷ []) p (λ k. a _ (sym k))) refl)
      elsewhere (inr e) = rw e refl

  -- The restore finds the entry, and its manifest.
  restored :
      valid_name q.name ≡ true
      → get disk canon ≡ some folder
      → manifest.origin ≡ canon
      → io'.renames ≡ true
      → stash_restore io' moved q.root q.name ≡ (back, ok canon)
  unfolding stash_restore resolve_entry_dir
  restored valid dir from r =
      let at_entry : get moved entry ≡ some folder =
        subst (λ p. get moved p ≡ some folder) (append-nil entry)
          (get-moved [] (λ e. absurd (cc)) ∙ (rw (append-nil canon) dir)) in
      rw (valid, at_entry, manifest_read)
        (restore_entry-at io' moved entry canon manifest r from origin_gone)

-- What is stashed by a rename comes back: where a move of a resolved directory to a free entry, whose
-- name is one that resolve_entry_dir accepts, succeeds by rename, restoring the entry by its name with a
-- working rename succeeds and names the origin. Then every path at or below the origin, but for the
-- place of the manifest, is what it was before the move; that place is free again too, if the removal
-- of the manifest works. So is every other path what it was, save the entry itself and the folders on
-- the way to the stash root and to the origin.
pub stash_restore-stash_move :
    (check : Canon → Option Canon) (io io' : Io) (disk : Disk) (q : Request) (origin canon : Canon)
    (manifest : StashManifest)
    → check origin ≡ some canon
    → get disk origin ≡ some folder
    → get disk canon ≡ some folder
    → Free (q.root ++ q.name ∷ []) disk
    → valid_name q.name ≡ true
    → io.renames ≡ true
    → io'.renames ≡ true
    → (stash_move_inner check io disk q origin).1 ≡ ok manifest
    → (let moved = (stash_move_inner check io disk q origin).0 in
        let restored = stash_restore io' moved q.root q.name in
        (restored.1 ≡ ok canon)
        × ((r : Canon)
            → (io'.unlinks ≡ true) ⊎ (r ≢ manifest_name ∷ [])
            → get restored.0 (canon ++ r) ≡ get disk (canon ++ r))
        × ((p : Canon)
            → Apart canon p
            → Apart (q.root ++ q.name ∷ []) p
            → Apart p q.root
            → Apart p canon
            → get restored.0 p ≡ get disk p))
unfolding stash_move_inner
stash_restore-stash_move check io io' disk q origin canon manifest checked at_origin dir fresh valid
      r r' h =
    let f =
      checked-Renamed io disk q canon manifest r (rw (at_origin, checked, stash_move_inner) at h) in
    let done =
      restored io io' disk q canon manifest f.not_below f.not_above fresh valid dir f.from r' in
    rw (at_origin, checked, stash_move_inner, f.now_at, done)
      (
        refl,
        get-back io io' disk q canon manifest f.not_below f.not_above fresh f.unreserved,
        get-elsewhere io io' disk q canon manifest f.not_below f.not_above fresh,
      )
