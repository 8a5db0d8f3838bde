-- ===== src/Tracking/Stops.antt =====
-- The stops in a sequence of fixes: detectStopWindows and collapseStationaryWindows of
-- backend/src/common/geo/geo.utils.ts. The index `i` of the source is the list of the fixes from
-- there on, with its offset in the sequence.
use delivery_tracking.Prelude.{
  ℕ, zero, suc, Option, none, some, Bool, ◌&&◌, ◌||◌, ◌+◌, ◌-◌, ◌*◌, ◌/◌, ltb, leb, if◌then◌else◌,
  is_none, List, [], ◌∷◌, ◌++◌, length, take, drop, get_elem?, any,
}
use delivery_tracking.Tracking.Fixes.{
  Fix, Distance, time, exceeds, is_accuracy_trustworthy, movement_speed_threshold,
  stationary_max_sample_gap, stop_cluster_radius, stop_cluster_min_duration,
}

pub record StopWindow : Type 0 where
  pub start_index : ℕ
  pub end_index : ℕ
  pub latitude : ℕ
  pub longitude : ℕ
  pub duration : ℕ

-- The running centre of a group of fixes, with their number.
pub record Centre : Type 0 where
  pub latitude : ℕ
  pub longitude : ℕ
  pub count : ℕ

abbrev pub centre_of : Fix → Centre
centre_of f = record { latitude = f.latitude; longitude = f.longitude; count = 1 }

unfoldable pub move_centre : Centre → Fix → Centre
move_centre c f = record {
  latitude = (c.latitude * c.count + f.latitude) / (c.count + 1);
  longitude = (c.longitude * c.count + f.longitude) / (c.count + 1);
  count = c.count + 1;
}

abbrev pub is_moving : Fix → Bool
is_moving f = exceeds f.speed movement_speed_threshold && is_accuracy_trustworthy f.accuracy

-- A group as the inner loop leaves it: its centre, its last fix and the fixes after it.
pub record Group : Type 0 where
  pub centre : Centre
  pub last : Fix
  pub rest : List Fix

module _ (distance : Distance) where
  abbrev pub leaves : Fix → Centre → Fix → Bool
  leaves previous c f =
      ltb (time previous + stationary_max_sample_gap) (time f)
      || is_moving f
      || ltb stop_cluster_radius (distance c.latitude c.longitude f.latitude f.longitude)

  unfoldable pub grow : Fix → Centre → List Fix → Group
  grow previous c [] = record { centre = c; last = previous; rest = [] }
  grow previous c (f ∷ fs) =
      if leaves previous c f
      then record { centre = c; last = previous; rest = f ∷ fs }
      else grow f (move_centre c f) fs

  abbrev pub is_confirmed : Fix → Group → Bool
  is_confirmed first g =
      ltb 1 g.centre.count && leb (time first + stop_cluster_min_duration) (time g.last)

  abbrev pub window : ℕ → Fix → Group → StopWindow
  window i first g = record {
    start_index = i;
    end_index = i + g.centre.count - 1;
    latitude = g.centre.latitude;
    longitude = g.centre.longitude;
    duration = time g.last - time first;
  }

  -- The outer loop, on fuel: each round goes at least one fix ahead.
  unfoldable pub detect_from : ℕ → ℕ → List Fix → List StopWindow
  unfolding grow move_centre
  detect_from zero i fs = []
  detect_from (suc fuel) i [] = []
  detect_from (suc fuel) i (f ∷ fs) =
      let g = grow f (centre_of f) fs in
      let after = detect_from fuel (i + g.centre.count) g.rest in
      let next = detect_from fuel (i + 1) fs in
      if is_confirmed f g then window i f g ∷ after else next

  unfoldable pub detect_stop_windows : List Fix → List StopWindow
  unfolding detect_from
  detect_stop_windows positions =
      if ltb (length positions) 3 || any (λ p. is_none p.timestamp) positions
      then []
      else detect_from (length positions) 0 positions

-- The fix that stands for a stop.
abbrev pub centred : Fix → ℕ → ℕ → Fix
centred f lat lng = record f { latitude = lat; longitude = lng }

abbrev stand_in : StopWindow → Option Fix → List Fix
stand_in w none = []
stand_in w (some f) = centred f w.latitude w.longitude ∷ []

-- The list is what is left of the sequence from index `k` on.
unfoldable pub collapse_from : ℕ → List Fix → List StopWindow → List Fix
collapse_from k fs [] = fs
collapse_from k fs (w ∷ ws) =
    take (w.start_index - k) fs
    ++ (stand_in w (get_elem? fs (w.end_index - k))
        ++ collapse_from (w.end_index + 1) (drop (w.end_index + 1 - k) fs) ws)

unfoldable pub collapse_stationary_windows : Distance → List Fix → List Fix
unfolding detect_stop_windows collapse_from
collapse_stationary_windows distance positions =
    collapse_from 0 positions (detect_stop_windows distance positions)
