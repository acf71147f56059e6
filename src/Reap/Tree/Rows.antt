-- ===== src/Reap/Tree/Rows.antt =====
-- forgotten.rs, `scan_forgotten_orphan_trees`: a tree that is weighed gets its row, and no row is lost.
use dracon_system_disk_proce.Common.{◌≡◌, refl, ◌⊎◌, inl, inr, List, [], ◌∷◌, ◌++◌, Bool-cases, ltb}
use dracon_system_disk_proce.Common.Signed.{ℤ, int_eq}
use dracon_system_disk_proce.Common.Text.{Text}
use mathlib.Core.List.{Memᴰ}
use mathlib.Core.List.Memᴰ
use dracon_system_disk_proce.Reap.Proc.{ReapPolicy}
use dracon_system_disk_proce.Reap.Browser.{Usage, driven, undriven, unknown}
use dracon_system_disk_proce.Reap.Tree.{
  ForgottenTree, ForgottenTreeScan, SparedTree, by_usage, spare,
}

-- The report has a row for the root.
abbrev pub Row : ForgottenTreeScan → ℤ → Type 0
Row out pid =
    ((c : ForgottenTree) × Memᴰ c out.candidates × (c.root_pid ≡ pid))
    ⊎ ((v : SparedTree) × Memᴰ v out.vetoed × (v.root_pid ≡ pid))
    ⊎ ((v : SparedTree) × Memᴰ v out.protected × (v.root_pid ≡ pid))

pub record Grows (a b : ForgottenTreeScan) : Type 0 where
  pub candidates : (c : ForgottenTree) → Memᴰ c a.candidates → Memᴰ c b.candidates
  pub vetoed : (v : SparedTree) → Memᴰ v a.vetoed → Memᴰ v b.vetoed
  pub protected : (v : SparedTree) → Memᴰ v a.protected → Memᴰ v b.protected

pub Row-Grows : {a b : ForgottenTreeScan} (pid : ℤ) → Grows a b → Row a pid → Row b pid
Row-Grows pid g (inl (c, m, e)) = inl (c, g.candidates c m, e)
Row-Grows pid g (inr (inl (v, m, e))) = inr (inl (v, g.vetoed v m, e))
Row-Grows pid g (inr (inr (v, m, e))) = inr (inr (v, g.protected v m, e))

pub Grows-refl : (a : ForgottenTreeScan) → Grows a a
Grows-refl a = record { candidates = λ c m. m; vetoed = λ v m. m; protected = λ v m. m }

pub last {ℓ} : {A : Type ℓ} (xs : List A) (x : A) → Memᴰ x (xs ++ x ∷ [])
last xs x = Memᴰ.append_right xs (Memᴰ.head refl)

pub by_usage-Row :
    (policy : ReapPolicy) (out : ForgottenTreeScan) (tree : ForgottenTree) (why : Text) (u : Usage)
    → Row (by_usage policy out tree why u) tree.root_pid
unfolding by_usage spare
by_usage-Row policy out tree why driven = inr (inr (_, last out.protected _, refl))
by_usage-Row policy out tree why undriven = inl (_, last out.candidates _, refl)
by_usage-Row policy out tree why unknown =
    elim (Bool-cases (ltb policy.max_cpu_seconds tree.cpu_seconds)) [
      | inl e ↦ rw e (inr (inr (_, last out.protected _, refl)))
      | inr e ↦ rw e (inl (_, last out.candidates _, refl))
    ]

pub by_usage-Grows :
    (policy : ReapPolicy) (out : ForgottenTreeScan) (tree : ForgottenTree) (why : Text) (u : Usage)
    → Grows out (by_usage policy out tree why u)
unfolding by_usage
by_usage-Grows policy out tree why driven = record {
  candidates = λ c m. m;
  vetoed = λ v m. m;
  protected = λ v m. Memᴰ.append_left _ m;
}
by_usage-Grows policy out tree why undriven = record {
  candidates = λ c m. Memᴰ.append_left _ m;
  vetoed = λ v m. m;
  protected = λ v m. m;
}
by_usage-Grows policy out tree why unknown =
    elim (Bool-cases (ltb policy.max_cpu_seconds tree.cpu_seconds)) [
      | inl e ↦ rw e (record {
        candidates = λ c m. m;
        vetoed = λ v m. m;
        protected = λ v m. Memᴰ.append_left _ m;
      })
      | inr e ↦ rw e (record {
        candidates = λ c m. Memᴰ.append_left _ m;
        vetoed = λ v m. m;
        protected = λ v m. m;
      })
    ]
