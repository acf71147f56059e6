-- ===== src/Stash/Renamed.antt =====
-- stash.rs, `stash_move_inner`: what a move by rename has found and done.
use dracon_system_disk_proce.Common.{
  ℕ, ◌≡◌, inl, inr, refl, true, false, Option, none, some, [], ◌∷◌, ◌++◌, Bool-cases, Option-cases,
  ap, sym, nat_eq,
}
use dracon_system_disk_proce.Common.Table.{get, insert}
use dracon_system_disk_proce.Reap.Proc.Exempt.{text_beq_iff}
use dracon_system_disk_proce.Safety.{Canon, starts_with_path}
use dracon_system_disk_proce.Stash.FileSystem.{
  Disk, file, StashManifest, Io, list_eq, rename, create_dir_all, walk_stats_strict,
}
use dracon_system_disk_proce.Stash.{
  StashError, ok, err, Request, manifest_name, publish, transfer, move_counted, move_checked,
}

pub starts_with_path-append : (p x : Canon) → starts_with_path (p ++ x) p ≡ true
unfolding starts_with_path
starts_with_path-append [] x = unfold starts_with_path in nil x
  where
    nil : (x : Canon) → starts_with_path x [] ≡ true
    nil [] = refl
    nil (c ∷ cs) = refl
starts_with_path-append (c ∷ p) x = rw ((text_beq_iff c c).1 refl) (starts_with_path-append p x)

abbrev pub entry_of : Request → Canon
entry_of q = q.root ++ q.name ∷ []

-- The disk after a move by rename.
abbrev pub moved_disk : Io → Disk → Request → Canon → StashManifest → Disk
moved_disk io disk q canon manifest =
    insert (rename (create_dir_all disk q.root) canon (entry_of q))
      (entry_of q ++ manifest_name ∷ []) (file io.manifest_bytes (some manifest))

-- What a successful move by rename has found and done.
pub record Renamed (io : Io) (disk : Disk) (q : Request) (canon : Canon) (result : Disk)
    (manifest : StashManifest) : Type 0 where
  pub unreserved : get disk (canon ++ manifest_name ∷ []) ≡ none
  pub not_below : starts_with_path canon q.root ≡ false
  pub not_above : starts_with_path q.root canon ≡ false
  pub now_at : result ≡ moved_disk io disk q canon manifest
  pub from : manifest.origin ≡ canon

abbrev pub manifest_of : Request → Canon → ℕ → ℕ → StashManifest
manifest_of q canon files bytes = record {
  name = q.name;
  origin = canon;
  moved_at_unix = q.now;
  bytes = bytes;
  files = files;
  auto = q.auto;
}

pub ok_inj {ℓ} : {A : Type ℓ} {a b : A} → ok a ≡ ok b → a ≡ b
ok_inj h = cc

pub counted-Renamed :
    (io : Io) (created : Disk) (q : Request) (canon : Canon) (stats : Option (ℕ × ℕ))
    (manifest : StashManifest)
    → io.renames ≡ true
    → (move_counted io created q canon stats).1 ≡ ok manifest
    → ((move_counted io created q canon stats).0
        ≡ insert
            (rename created canon (entry_of q))
            (entry_of q ++ manifest_name ∷ [])
            (file io.manifest_bytes (some manifest)))
      × (manifest.origin ≡ canon)
unfolding move_counted transfer publish
counted-Renamed io created q canon none manifest r h =
    absurd (let clash : err StashError.unreadable ≡ ok manifest = h in cc)
counted-Renamed io created q canon (some (files, bytes)) manifest r h =
    elim (Bool-cases io.publishes) [
      | inl p ↦
          let same : manifest_of q canon files bytes ≡ manifest = ok_inj (rw (r, p) at h) in
          rw (r, p)
            (
              ap
                  (λ (m : StashManifest).
                    insert (rename created canon (entry_of q)) (entry_of q ++ manifest_name ∷ [])
                      (file io.manifest_bytes (some m)))
                  same,
              sym (ap (λ (m : StashManifest). m.origin) same),
            )
      | inr p ↦ elim (Bool-cases io.moves_back) [
        | inl b ↦
            absurd (let clash : err StashError.moved_back ≡ ok manifest = rw (r, p, b) at h in cc)
        | inr b ↦
            absurd (let clash : err StashError.stranded ≡ ok manifest = rw (r, p, b) at h in cc)
      ]
    ]

pub checked-Renamed :
    (io : Io) (disk : Disk) (q : Request) (canon : Canon) (manifest : StashManifest)
    → io.renames ≡ true
    → (move_checked io disk q canon).1 ≡ ok manifest
    → Renamed io disk q canon (move_checked io disk q canon).0 manifest
unfolding move_checked
checked-Renamed io disk q canon manifest r h =
    let created = create_dir_all disk q.root in
    let stats = walk_stats_strict io.origin_reads created canon in
    elim (Option-cases (get disk (canon ++ manifest_name ∷ []))) [
      | inr (node, n) ↦
          absurd (
            let clash : err StashError.reserved_name ≡ ok manifest = rw (n, move_checked) at h in
            cc)
      | inl n ↦ elim (Bool-cases io.metadata_readable) [
        | inr m ↦ absurd (
            let clash : err StashError.metadata_unreadable ≡ ok manifest =
              rw (n, m, move_checked) at h in
            cc)
        | inl m ↦ elim (Bool-cases (starts_with_path canon q.root)) [
          | inl a ↦ absurd (
              let clash : err StashError.nested ≡ ok manifest = rw (n, m, a, move_checked) at h in
              cc)
          | inr a ↦ elim (Bool-cases (starts_with_path q.root canon)) [
            | inl b ↦ absurd (
                let clash : err StashError.nested ≡ ok manifest =
                  rw (n, m, a, b, move_checked) at h in
                cc)
            | inr b ↦
                let (at, from) =
                  counted-Renamed io created q canon stats manifest r
                    (rw (n, m, a, b, move_checked) at h) in
                record {
                  unreserved = n;
                  not_below = a;
                  not_above = b;
                  now_at = rw (n, m, a, b, move_checked) at;
                  from = from;
                }
          ]
        ]
      ]
    ]
