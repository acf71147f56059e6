-- ===== src/Growth.antt =====
-- service_growth.rs: the history that `Tracker::observe` keeps of one service's footprint.
pub mod Bounded
use dracon_system_disk_proce.Common.{
  ℕ, zero, suc, ◌+◌, ◌-◌, ◌*◌, ◌/◌, Bool, true, false, not, ◌&&◌, Option, none, some, List, [], ◌∷◌,
  ◌++◌, String, ltb, leb, nat_beq, if◌then◌else◌, length, drop, Instant, from_secs, string_eq, max,
  min,
}
use dracon_system_disk_proce.Common.Signed.{ℤ, beq_ℤ}
use dracon_system_disk_proce.Process.{ProcessIdentity}

pub record Generation : Type 0 where
  pub boot : String
  pub target : String
  pub user_uid : Option ℕ
  pub invocation : String
  pub group : String
  pub device : ℕ
  pub inode : ℕ
  pub pid : ℤ
  pub identity : ProcessIdentity

abbrev same_uid : Option ℕ → Option ℕ → Bool
same_uid none none = true
same_uid (some a) (some b) = nat_beq a b
same_uid _ _ = false

-- The derived `PartialEq`.
unfoldable pub same_generation : Generation → Generation → Bool
same_generation a b =
    string_eq.beq a.boot b.boot
    && (string_eq.beq a.target b.target
        && (same_uid a.user_uid b.user_uid
            && (string_eq.beq a.invocation b.invocation
                && (string_eq.beq a.group b.group
                    && (nat_beq a.device b.device
                        && (nat_beq a.inode b.inode
                            && (beq_ℤ a.pid b.pid
                                && (string_eq.beq a.identity.comm b.identity.comm
                                    && nat_beq a.identity.starttime b.identity.starttime))))))))

pub record Point : Type 0 where
  pub at_time : Instant
  pub resident : ℕ
  pub swap : ℕ
  pub total : ℕ

-- The points are listed oldest first.
pub record History : Type 0 where
  pub generation : Generation
  pub last : Point
  pub points : List Point

pub data Reset : Type 0 where
  incarnation_changed clock_not_increasing sampling_gap footprint_decreased : Reset

abbrev pub max_history : ℕ
max_history = 32

-- The window in nanoseconds, from the policy's value clamped to 60..=86400 seconds.
abbrev pub window_of : ℕ → ℕ
window_of window_secs = from_secs (min (max window_secs 60) 86400)

-- `settings.0.div_ceil(MAX_HISTORY - 2)`
abbrev pub spacing_of : ℕ → ℕ
spacing_of window_secs = from_secs ((min (max window_secs 60) 86400 + 29) / 30)

unfoldable pub reset_reason : ℕ → History → Generation → Point → Option Reset
unfolding same_generation
reset_reason window h generation point =
    if not (same_generation h.generation generation)
    then some incarnation_changed
    else if leb point.at_time h.last.at_time
    then some clock_not_increasing
    else if ltb (window / 2) (point.at_time - h.last.at_time)
    then some sampling_gap
    else if ltb point.total h.last.total
    then some footprint_decreased
    else none

abbrev pub started_at : Generation → Point → History
started_at generation point = record { generation = generation; last = point; points = point ∷ [] }

abbrev pub back_time : Point → List Point → Instant
back_time p [] = p.at_time
back_time p (q ∷ ps) = back_time q ps

-- `none` stands for the `unwrap` of an empty queue, at which the program panics.
abbrev pub push_spaced : ℕ → Point → List Point → Option (List Point)
push_spaced spacing point [] = none
push_spaced spacing point (p ∷ ps) =
    if leb spacing (point.at_time - back_time p ps)
    then some ((p ∷ ps) ++ (point ∷ []))
    else some (p ∷ ps)

-- While the second point is at least a window old, the first is dropped.
unfoldable pub pop_old : ℕ → Instant → List Point → List Point
pop_old window now [] = []
pop_old window now (p ∷ []) = p ∷ []
pop_old window now (p ∷ q ∷ ps) =
    let rest = pop_old window now (q ∷ ps) in
    if leb window (now - q.at_time) then rest else p ∷ q ∷ ps

abbrev pub trim : List Point → List Point
trim ps = drop (length ps - max_history) ps

abbrev pub kept_history : Option Reset → History → Generation → Point → History
kept_history none h generation point = h
kept_history (some reason) h generation point = started_at generation point

abbrev pub tracked_history : ℕ → Option History → Generation → Point → History
tracked_history window none generation point = started_at generation point
tracked_history window (some h) generation point =
    kept_history (reset_reason window h generation point) h generation point

abbrev pub settled : ℕ → History → Point → Option (List Point) → Option History
settled window h point none = none
settled window h point (some ps) =
    some (record h { last = point; points = trim (pop_old window point.at_time ps) })

-- The history of a service after one measured row.
unfoldable pub observe : ℕ → Option History → Generation → Point → Option History
unfolding reset_reason pop_old
observe window_secs old generation point =
    let h = tracked_history (window_of window_secs) old generation point in
    settled (window_of window_secs) h point (push_spaced (spacing_of window_secs) point h.points)
