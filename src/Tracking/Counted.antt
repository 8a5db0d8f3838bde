-- ===== src/Tracking/Counted.antt =====
-- What the filtered distance counts of each segment, whatever the window rule does.
use delivery_tracking.Prelude.{
  ℕ, inl, inr, Bool-cases, ◌||◌, ◌+◌, ◌≤◌, if◌then◌else◌, List, [], ◌∷◌, arith,
}
use delivery_tracking.Tracking.Fixes.{Fix, Distance}
use delivery_tracking.Tracking.Stops.{collapse_stationary_windows}
use delivery_tracking.Tracking.Filter.{
  Sum, empty_sum, elapsed, is_speed_trusted, capped, is_unusable, segment, gated, extend_window,
  add_segment, add_segments, sum_distance, compute_filtered_distance,
}

abbrev pub along : (Fix → Fix → ℕ) → Fix → List Fix → ℕ
along f p1 [] = 0
along f p1 (p2 ∷ ps) = f p1 p2 + along f p2 ps

abbrev pub path : (Fix → Fix → ℕ) → List Fix → ℕ
path f [] = 0
path f (p ∷ ps) = along f p ps

module _ (distance : Distance) where
  -- What a segment may count at most, and what it counts whatever comes before and after it.
  pub allowance : Fix → Fix → ℕ
  allowance p1 p2 =
      if is_unusable p1 p2
      then 0
      else if is_speed_trusted p1 || is_speed_trusted p2
      then capped (elapsed p1 p2) p1 p2 (segment distance p1 p2)
      else segment distance p1 p2

  pub assured : Fix → Fix → ℕ
  unfolding allowance
  assured p1 p2 =
      if is_speed_trusted p1 || is_speed_trusted p2 || gated distance (segment distance p1 p2) p1 p2
      then allowance p1 p2
      else 0

  step-le :
      (p1 p2 : Fix) (s : Sum)
      → (add_segment distance p1 p2 s).total + (add_segment distance p1 p2 s).run_pending
        ≤ s.total + s.run_pending + allowance p1 p2
  unfolding add_segment allowance
  step-le p1 p2 s = ground arith

  extend_window-ge : (p1 p2 : Fix) (s : Sum) → s.total ≤ (extend_window distance p1 p2 s).total
  unfolding extend_window
  extend_window-ge p1 p2 s = ground arith

  step-ge : (p1 p2 : Fix) (s : Sum) → s.total + assured p1 p2 ≤ (add_segment distance p1 p2 s).total
  unfolding add_segment assured
  step-ge p1 p2 s = elim (Bool-cases (is_unusable p1 p2)) [
    | inl e ↦ rw e (ground arith)
    | inr e ↦ elim (Bool-cases (is_speed_trusted p1 || is_speed_trusted p2)) [
      | inl moving ↦ rw (e, moving) (omega arith)
      | inr slow ↦ elim (Bool-cases (gated distance (segment distance p1 p2) p1 p2)) [
        | inl far ↦ rw (e, slow, far) (ground arith)
        | inr near ↦ rw (e, slow, near) (ground (arith, extend_window-ge p1 p2 s))
      ]
    ]
  ]

  along-le :
      (p : Fix) (ps : List Fix) (s : Sum)
      → (add_segments distance p ps s).total ≤ s.total + s.run_pending + along allowance p ps
  unfolding add_segments
  along-le p [] s = omega arith
  along-le p (q ∷ ps) s = omega (arith, step-le p q s, along-le q ps (add_segment distance p q s))

  along-ge :
      (p : Fix) (ps : List Fix) (s : Sum)
      → s.total + along assured p ps ≤ (add_segments distance p ps s).total
  unfolding add_segments
  along-ge p [] s = omega arith
  along-ge p (q ∷ ps) s = omega (arith, step-ge p q s, along-ge q ps (add_segment distance p q s))

  sum_bounds :
      (ps : List Fix)
      → (path assured ps ≤ sum_distance distance ps)
        × (sum_distance distance ps ≤ path allowance ps)
  unfolding sum_distance
  sum_bounds [] = (omega arith, omega arith)
  sum_bounds (p ∷ ps) =
      (omega (arith, along-ge p ps empty_sum), omega (arith, along-le p ps empty_sum))

  -- The filtered distance lies between two sums over the segments of the collapsed sequence: of
  -- those that count by themselves, for a reliable speed or a length beyond the noise, and of all
  -- of them, where a segment between two unusable fixes has none and one with a reliable speed at
  -- most what the speed allows. So the window rule counts no segment twice.
  pub compute_filtered_distance_bounds :
      (positions : List Fix)
      → (path assured (collapse_stationary_windows distance positions)
          ≤ compute_filtered_distance distance positions)
        × (compute_filtered_distance distance positions
            ≤ path allowance (collapse_stationary_windows distance positions))
  unfolding compute_filtered_distance
  compute_filtered_distance_bounds positions =
      sum_bounds (collapse_stationary_windows distance positions)
