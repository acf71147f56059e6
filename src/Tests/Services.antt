-- ===== src/Tests/Services.antt =====
-- Concrete histories of a service.
use dracon_system_disk_proce.Common.{[], arith, from_secs, refl, some, ℕ, ◌∷◌, ◌≡◌}
use dracon_system_disk_proce.Common.Signed.{pos}
use dracon_system_disk_proce.Growth.{
  Generation, History, Point, observe, pop_old, reset_reason, same_generation,
}
use dracon_system_disk_proce.Growth.Bounded.{IsHistory, observe-IsHistory}

abbrev service : Generation
service = record {
  boot = "b";
  target = "user:x.service";
  user_uid = some 1000;
  invocation = "i";
  group = "g";
  device = 1;
  inode = 2;
  pid = pos 50;
  identity = record { comm = "x"; starttime = 9 };
}

abbrev row_at : ℕ → ℕ → Point
row_at secs total = record { at_time = from_secs secs; resident = total; swap = 0; total = total }

abbrev measured : History
measured = record {
  generation = service;
  last = row_at 110 600;
  points = row_at 100 500 ∷ row_at 110 600 ∷ [];
}

measured-IsHistory : IsHistory measured
measured-IsHistory = record {
  some_points = omega arith;
  few_points = omega arith;
  rising = (
    (omega arith, omega arith),
    ((omega arith, omega arith), tt),
    ((omega arith, omega arith), tt, tt),
  );
}

-- A row within the spacing replaces the last one; a smaller footprint starts the history again.
row_kept :
    observe 600 (some measured) service (row_at 115 700)
    ≡ some (record measured { last = row_at 115 700 })
unfolding observe reset_reason same_generation pop_old
row_kept = refl

row_restarts :
    observe 600 (some measured) service (row_at 115 10)
    ≡ some (record { generation = service; last = row_at 115 10; points = row_at 115 10 ∷ [] })
unfolding observe reset_reason same_generation pop_old
row_restarts = refl

observe-IsHistory_example :
    (h : History) × (observe 600 (some measured) service (row_at 120 900) ≡ some h)
    × IsHistory h
    × (h.last ≡ row_at 120 900)
observe-IsHistory_example =
    observe-IsHistory 600 (some measured) service (row_at 120 900) measured-IsHistory
