-- ===== src/Growth/Bounded.antt =====
-- The invariant of a history.
use dracon_system_disk_proce.Common.{
  ℕ, zero, suc, ◌-◌, ◌/◌, ◌<◌, ◌≤◌, ◌≡◌, refl, ap, ◌∙◌, Bool, true, false, not, Option, none, some,
  List, [], ◌∷◌, ◌++◌, inl, inr, ltb, leb, if◌then◌else◌, length, drop, Instant, arith, All,
  Bool-cases, if_cases, leb→gt,
}
use dracon_system_disk_proce.Growth.{
  Generation, Point, History, Reset, incarnation_changed, clock_not_increasing, sampling_gap,
  footprint_decreased, max_history, window_of, spacing_of, reset_reason, started_at, back_time,
  push_spaced, pop_old, trim, kept_history, tracked_history, settled, observe, same_generation,
}

-- `q` was measured after `p`, with no smaller footprint.
abbrev Follows : Point → Point → Type 0
Follows p q = (p.at_time < q.at_time) × (p.total ≤ q.total)

-- The points rise in time and footprint, up to the last measurement.
abbrev pub Rising : List Point → Point → Type 0
Rising [] last = Unit
Rising (p ∷ ps) last =
    ((p.at_time ≤ last.at_time) × (p.total ≤ last.total)) × All (Follows p) ps × Rising ps last

pub record IsHistory (h : History) : Type 0 where
  pub some_points : 1 ≤ length h.points
  pub few_points : length h.points ≤ max_history
  pub rising : Rising h.points h.last

module _ (last point : Point) (later : last.at_time < point.at_time)
    (larger : last.total ≤ point.total) where
  Rising-later : (ps : List Point) → Rising ps last → Rising ps point
  Rising-later [] r = tt
  Rising-later (p ∷ ps) r =
      ((omega (arith, r.0.0, later), omega (arith, r.0.1, larger)), r.1, Rising-later ps r.2)

  All-push :
      (p : Point) (ps : List Point)
      → Follows p point
      → All (Follows p) ps
      → All (Follows p) (ps ++ (point ∷ []))
  All-push p [] f a = (f, tt)
  All-push p (q ∷ ps) f a = (a.0, All-push p ps f a.1)

  Rising-push : (ps : List Point) → Rising ps last → Rising (ps ++ (point ∷ [])) point
  Rising-push [] r = ((omega arith, omega arith), tt, tt)
  Rising-push (p ∷ ps) r = (
    (omega (arith, r.0.0, later), omega (arith, r.0.1, larger)),
    All-push p ps (omega (arith, r.0.0, later), omega (arith, r.0.1, larger)) r.1,
    Rising-push ps r.2,
  )

abbrev Good : Point → List Point → Type 0
Good last ps = (1 ≤ length ps) × Rising ps last

pop_old-Good :
    (window : ℕ) (now : Instant) (last : Point) (ps : List Point)
    → Good last ps
    → Good last (pop_old window now ps)
unfolding pop_old
pop_old-Good window now last [] g = g
pop_old-Good window now last (p ∷ []) g = g
pop_old-Good window now last (p ∷ q ∷ ps) g =
    if_cases (Good last) (leb window (now - q.at_time)) _ _
      (λ h. pop_old-Good window now last (q ∷ ps) (omega arith, g.1.2)) (λ h. g)

Rising-drop : (n : ℕ) (last : Point) (ps : List Point) → Rising ps last → Rising (drop n ps) last
Rising-drop zero last ps r = r
Rising-drop (suc n) last [] r = r
Rising-drop (suc n) last (p ∷ ps) r = Rising-drop n last ps r.2

length-drop : (n : ℕ) (ps : List Point) → length (drop n ps) ≡ length ps - n
length-drop zero ps = omega arith
length-drop (suc n) [] = omega arith
length-drop (suc n) (p ∷ ps) = length-drop n ps ∙ omega arith

trim-Good :
    (last : Point) (ps : List Point)
    → Good last ps
    → Good last (trim ps) × (length (trim ps) ≤ max_history)
trim-Good last ps g = (
  (
    omega (arith, length-drop (length ps - max_history) ps, g.0),
    Rising-drop (length ps - max_history) last ps g.1,
  ),
  omega (arith, length-drop (length ps - max_history) ps),
)

-- What the queue holds after the push.
push_spaced-Good :
    (spacing : ℕ) (last point : Point) (ps : List Point)
    → last.at_time < point.at_time
    → last.total ≤ point.total
    → Good last ps
    → (qs : List Point) × (push_spaced spacing point ps ≡ some qs) × Good point qs
push_spaced-Good spacing last point [] later larger g = absurd (omega (arith, g.0))
push_spaced-Good spacing last point (p ∷ ps) later larger g =
    elim (Bool-cases (leb spacing (point.at_time - back_time p ps))) [
      | inl due ↦ (
        (p ∷ ps) ++ (point ∷ []),
        rw due refl,
        (omega arith, Rising-push last point later larger (p ∷ ps) g.1),
      )
      | inr early ↦
          (p ∷ ps, rw early refl, (omega arith, Rising-later last point later larger (p ∷ ps) g.1))
    ]

abbrev Pushed : ℕ → Point → History → Type 0
Pushed spacing point h =
    (qs : List Point) × (push_spaced spacing point h.points ≡ some qs) × Good point qs

started-Pushed :
    (window_secs : ℕ) (generation : Generation) (point : Point)
    → Pushed (spacing_of window_secs) point (started_at generation point)
started-Pushed window_secs generation point = (
  point ∷ [],
  rw (early window_secs point.at_time) refl,
  (omega arith, ((omega arith, omega arith), tt, tt)),
)
  where
    early : (w : ℕ) (now : Instant) → leb (spacing_of w) (now - now) ≡ false
    early w now = ground arith

not_less : (m n : ℕ) → ltb m n ≡ false → n ≤ m
not_less m n h = ground arith

no_reset :
    (same stale gap less : Bool)
    → (if not same
        then some incarnation_changed
        else if stale
        then some clock_not_increasing
        else if gap
        then some sampling_gap
        else if less
        then some footprint_decreased
        else none)
      ≡ none
    → (stale ≡ false) × (less ≡ false)
no_reset false stale gap less h = cc
no_reset true true gap less h = cc
no_reset true false true less h = cc
no_reset true false false true h = cc
no_reset true false false false h = (refl, refl)

-- Without a reason to reset, the row is later than the last one and not smaller.
kept-ordered :
    (window : ℕ) (h : History) (generation : Generation) (point : Point)
    → reset_reason window h generation point ≡ none
    → (h.last.at_time < point.at_time) × (h.last.total ≤ point.total)
unfolding reset_reason
kept-ordered window h generation point e =
    let (later, larger) =
      no_reset (same_generation h.generation generation) (leb point.at_time h.last.at_time)
        (ltb (window / 2) (point.at_time - h.last.at_time)) (ltb point.total h.last.total) e in
    (leb→gt point.at_time h.last.at_time later, not_less point.total h.last.total larger)

tracked-Pushed :
    (window_secs : ℕ) (h : History) (generation : Generation) (point : Point)
    (reason : Option Reset)
    → reset_reason (window_of window_secs) h generation point ≡ reason
    → IsHistory h
    → Pushed (spacing_of window_secs) point (kept_history reason h generation point)
tracked-Pushed window_secs h generation point (some reason) e inv =
    started-Pushed window_secs generation point
tracked-Pushed window_secs h generation point none e inv =
    let (later, larger) = kept-ordered (window_of window_secs) h generation point e in
    push_spaced-Good (spacing_of window_secs) h.last point h.points later larger
      (inv.some_points, inv.rising)

-- A history, if there is one, is in order.
abbrev pub Tracked : Option History → Type 0
Tracked none = Unit
Tracked (some h) = IsHistory h

history-Pushed :
    (window_secs : ℕ) (old : Option History) (generation : Generation) (point : Point)
    → Tracked old
    → Pushed
        (spacing_of window_secs)
        point
        (tracked_history (window_of window_secs) old generation point)
history-Pushed window_secs none generation point inv = started-Pushed window_secs generation point
history-Pushed window_secs (some h) generation point inv =
    tracked-Pushed window_secs h generation point
      (reset_reason (window_of window_secs) h generation point) refl inv

-- An observation never fails on an empty queue and leaves a history in order: it ends with the
-- measured row, holds between 1 and 32 points, and its points rise in time without a drop of the
-- footprint, so that the growth over them is never a difference that went below zero.
pub observe-IsHistory :
    (window_secs : ℕ) (old : Option History) (generation : Generation) (point : Point)
    → Tracked old
    → (h : History) × (observe window_secs old generation point ≡ some h)
      × IsHistory h
      × (h.last ≡ point)
unfolding observe
observe-IsHistory window_secs old generation point inv =
    let h = tracked_history (window_of window_secs) old generation point in
    let (qs, e, good) = history-Pushed window_secs old generation point inv in
    let popped = pop_old (window_of window_secs) point.at_time qs in
    let (kept, few) =
      trim-Good point popped (pop_old-Good (window_of window_secs) point.at_time point qs good) in
    (
      record h { last = point; points = trim popped },
      ap (settled (window_of window_secs) h point) e,
      record { some_points = kept.0; few_points = few; rising = kept.1 },
      refl,
    )
