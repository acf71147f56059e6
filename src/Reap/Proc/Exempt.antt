-- ===== src/Reap/Proc/Exempt.antt =====
-- reap.rs, `matches_exempt`: which executables an exempt list covers.
use dracon_system_disk_proce.Common.{
  ◌≡◌, ◌≢◌, ◌⊎◌, inl, inr, ◌↔◌, ◌++◌, refl, true, false, some, List, [], ◌∷◌, any_of, nat_beq_iff,
  Bool-cases, nat_beq, Option-cases, arith, ap, subst, ◌∙◌,
}
use dracon_system_disk_proce.Common.Text.{Text, text_beq, is_empty, strip_prefix}
use mathlib.Core.List.{Memᴰ}
use dracon_system_disk_proce.Reap.Proc.{matches_exempt, covers, follows_dash}

pub text_beq_iff : (s t : Text) → (text_beq s t ≡ true) ↔ (s ≡ t)
unfolding text_beq
text_beq_iff [] [] = ground arith
text_beq_iff [] (d ∷ t) = ground arith
text_beq_iff (c ∷ s) [] = ground arith
text_beq_iff (c ∷ s) (d ∷ t) = ground (arith, text_beq_iff s t, nat_beq_iff c d)

pub strip_prefix-append : (p s : Text) → strip_prefix p (p ++ s) ≡ some s
unfolding strip_prefix
strip_prefix-append [] s = refl
strip_prefix-append (c ∷ p) s = ground (arith, strip_prefix-append p s)

pub strip_prefix-some : (p s t : Text) → strip_prefix p s ≡ some t → s ≡ p ++ t
unfolding strip_prefix
strip_prefix-some [] s t h = ground arith
strip_prefix-some (c ∷ p) [] t h = ground arith
strip_prefix-some (c ∷ p) (d ∷ s) t h = ground (arith, nat_beq_iff c d, strip_prefix-some p s t)

-- A listed name, alone or extended by a dash.
abbrev pub Covers : Text → Text → Type 0
Covers exempt exe = (exempt ≢ []) × ((exe ≡ exempt) ⊎ ((s : Text) × (exe ≡ exempt ++ 45 ∷ s)))

is_empty_iff : (s : Text) → (is_empty s ≡ true) ↔ (s ≡ [])
unfolding is_empty
is_empty_iff [] = ground arith
is_empty_iff (c ∷ s) = ground arith

dashed :
    (exe exempt : Text)
    → follows_dash (strip_prefix exempt exe) ≡ true
    → (s : Text) × (exe ≡ exempt ++ 45 ∷ s)
unfolding follows_dash
dashed exe exempt h = elim (Option-cases (strip_prefix exempt exe)) [
  | inl e ↦ let clash : false ≡ true = rw e at h in absurd cc
  | inr ([], e) ↦ let clash : false ≡ true = rw e at h in absurd cc
  | inr (c ∷ s, e) ↦
      let is_dash : nat_beq c 45 ≡ true = rw e at h in
      (
        s,
        strip_prefix-some exempt exe (c ∷ s) e
            ∙ ap (λ d. exempt ++ d ∷ s) ((nat_beq_iff c 45).0 is_dash),
      )
]

covers→ : (exe exempt : Text) → covers exe exempt ≡ true → Covers exempt exe
unfolding covers
covers→ exe exempt h =
    let filled : is_empty exempt ≡ false = ground arith in
    let full : exempt ≢ [] = λ e. let clash = (is_empty_iff exempt).1 e in absurd cc in
    elim (Bool-cases (text_beq exe exempt)) [
      | inl same ↦ (full, inl ((text_beq_iff exe exempt).0 same))
      | inr other ↦ (full, inr (dashed exe exempt (ground arith)))
    ]

covers← : (exe exempt : Text) → Covers exempt exe → covers exe exempt ≡ true
unfolding covers follows_dash
covers← exe exempt (full, inl same) =
    let filled : is_empty exempt ≡ false = elim (Bool-cases (is_empty exempt)) [
      | inl e ↦ absurd (full ((is_empty_iff exempt).0 e))
      | inr e ↦ e
    ] in
    rw (filled, (text_beq_iff exe exempt).1 same) refl
covers← exe exempt (full, inr (s, e)) =
    let filled : is_empty exempt ≡ false = elim (Bool-cases (is_empty exempt)) [
      | inl n ↦ absurd (full ((is_empty_iff exempt).0 n))
      | inr n ↦ n
    ] in
    rw (e, filled, strip_prefix-append exempt (45 ∷ s)) (ground arith)

exempt→ :
    (exe : Text) (names : List Text)
    → any_of (covers exe) names ≡ true
    → (exempt : Text) × Memᴰ exempt names × Covers exempt exe
unfolding any_of
exempt→ exe [] h = cc
exempt→ exe (n ∷ ns) h = elim (Bool-cases (covers exe n)) [
  | inl e ↦ (n, Memᴰ.head refl, covers→ exe n e)
  | inr e ↦ let (m, at_m, c) = exempt→ exe ns (rw e at h) in (m, Memᴰ.tail at_m, c)
]

exempt← :
    (exe : Text) (names : List Text) (exempt : Text)
    → Memᴰ exempt names
    → Covers exempt exe
    → any_of (covers exe) names ≡ true
unfolding any_of
exempt← exe [] exempt m c = elim m [ ]
exempt← exe (n ∷ ns) exempt (Memᴰ.head e) c =
    rw (covers← exe n (subst (λ t. Covers t exe) e c)) refl
exempt← exe (n ∷ ns) exempt (Memᴰ.tail m) c = rw (exempt← exe ns exempt m c) (ground arith)

-- A process is exempt exactly when some name of the list is not empty and is its executable's name,
-- or that name continues it with a dash.
pub matches_exempt_iff :
    (exe : Text) (names : List Text)
    → (matches_exempt exe names ≡ true) ↔ ((exempt : Text) × Memᴰ exempt names × Covers exempt exe)
unfolding matches_exempt
matches_exempt_iff exe names =
    (exempt→ exe names, λ found. exempt← exe names found.0 found.1 found.2)
