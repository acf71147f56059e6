-- ===== src/Reap/Table/Keyed.antt =====
-- reap.rs, `read_proc_table`: the table has one entry for each process.
use dracon_system_disk_proce.Common.{
  ◌≡◌, inl, inr, Option, none, some, List, [], ◌∷◌, Bool-cases, Option-cases, ◌==◌, some_inj, subst,
}
use dracon_system_disk_proce.Common.Signed.{ℤ, int_eq, beq_ℤ_iff}
use dracon_system_disk_proce.Common.Table.{get, insert, get-insert}
use dracon_system_disk_proce.Common.Text.{Text, parse_i32}
use dracon_system_disk_proce.Reap.Proc.{ProcRoot}
use dracon_system_disk_proce.Reap.Table.{
  ProcEntry, ProcTable, read_proc_table, read_entries, read_name, add_entry, proc_entry,
}

-- In the table that a pass reads, an entry stands under its own pid.
abbrev pub Keyed : ProcTable → Type 0
Keyed t = (k : ℤ) (e : ProcEntry) → get t.entries k ≡ some e → e.pid ≡ k

pub added :
    (t : ProcTable) (e : ProcEntry) (k : ℤ) (f : ProcEntry)
    → Keyed t
    → get (insert t.entries e.pid e) k ≡ some f
    → f.pid ≡ k
added t e k f h g = elim (Bool-cases (e.pid == k)) [
  | inl s ↦
      let g' = rw (get-insert t.entries e.pid k e, s) at g in
      let same : e ≡ f = some_inj g' in
      subst (λ (x : ProcEntry). x.pid ≡ k) same ((beq_ℤ_iff e.pid k).0 s)
  | inr s ↦ h k f (rw (get-insert t.entries e.pid k e, s) at g)
]

pub add_entry-Keyed : (t : ProcTable) (e : Option ProcEntry) → Keyed t → Keyed (add_entry t e)
unfolding add_entry
add_entry-Keyed t none h = h
add_entry-Keyed t (some e) h = λ k f g. added t e k f h g

pub read_name-Keyed :
    (proc : ProcRoot) (t : ProcTable) (pid : Option ℤ) → Keyed t → Keyed (read_name proc t pid)
unfolding read_name
read_name-Keyed proc t none h = h
read_name-Keyed proc t (some pid) h = add_entry-Keyed t (proc_entry proc pid) h

pub read_entries-Keyed :
    (proc : ProcRoot) (t : ProcTable) (names : List Text)
    → Keyed t
    → Keyed (read_entries proc t names)
unfolding read_entries
read_entries-Keyed proc t [] h = h
read_entries-Keyed proc t (name ∷ names) h =
    read_entries-Keyed proc (read_name proc t (parse_i32 name)) names
      (read_name-Keyed proc t (parse_i32 name) h)

pub read_proc_table-Keyed : (proc : ProcRoot) → Keyed (read_proc_table proc)
unfolding read_proc_table get
read_proc_table-Keyed proc = elim (Option-cases proc.names) [
  | inl n ↦ rw (n, read_proc_table) (λ k e g. cc)
  | inr (names, n) ↦
      rw (n, read_proc_table)
        (read_entries-Keyed proc (record { entries = []; children = [] }) names (λ k e g. cc))
]
