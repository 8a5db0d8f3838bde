-- ===== src/Tracking/Filter.antt =====
-- The filtered distance of a sequence of fixes: computeFilteredDistance of
-- backend/src/common/geo/geo.utils.ts. A difference of instants that the source raises to one
-- second is a truncated difference here, which is raised to the same.
use delivery_tracking.Prelude.{
  ℕ, Option, none, some, Bool, true, not, ◌&&◌, ◌||◌, ◌+◌, ◌-◌, ◌*◌, ◌/◌, ltb, leb, if◌then◌else◌,
  is_none, List, [], ◌∷◌,
}
use delivery_tracking.Tracking.Fixes.{
  Fix, Distance, time, exceeds, accuracy_or_fallback, reaches_noise_gate, stationary_speed,
  movement_speed_threshold, movement_trust_max_accuracy, stationary_max_sample_gap,
}
use delivery_tracking.Tracking.Stops.{collapse_stationary_windows}
use delivery_tracking.Tracking.Wake.{max}

abbrev pub gps_unusable_accuracy : ℕ
gps_unusable_accuracy = 80 * 1000

abbrev pub speed_trust_max_accuracy : ℕ
speed_trust_max_accuracy = 70 * 1000

abbrev pub min : ℕ → ℕ → ℕ
min a b = if ltb b a then b else a

-- The sum, and the window of segments below the noise that may still count.
pub record Sum : Type 0 where
  pub total : ℕ
  pub run_start : Option Fix
  pub run_pending : ℕ

abbrev pub empty_sum : Sum
empty_sum = record { total = 0; run_start = none; run_pending = 0 }

-- Counts a length, and forgets the window.
abbrev pub count_segment : ℕ → Sum → Sum
count_segment d s = record { total = s.total + d; run_start = none; run_pending = 0 }

abbrev pub accuracy_of : Fix → ℕ
accuracy_of f = accuracy_or_fallback f.accuracy

-- Milliseconds between two fixes, at least one second.
abbrev elapsed_of : Option ℕ → Option ℕ → Option ℕ
elapsed_of (some t1) (some t2) = some (max 1000 (t2 - t1))
elapsed_of (some t1) none = none
elapsed_of none t2 = none

abbrev pub elapsed : Fix → Fix → Option ℕ
elapsed p1 p2 = elapsed_of p1.timestamp p2.timestamp

abbrev pub is_speed_trusted : Fix → Bool
is_speed_trusted f =
    leb (accuracy_of f) speed_trust_max_accuracy && exceeds f.speed movement_speed_threshold

abbrev speed_or_zero : Option ℕ → ℕ
speed_or_zero none = 0
speed_or_zero (some v) = v

-- `maxSpeed * dtSec * SPEED_DISTANCE_CAP_MULT`, the bound of a segment with a reliable speed.
abbrev pub capped : Option ℕ → Fix → Fix → ℕ → ℕ
capped none p1 p2 d = d
capped (some dt) p1 p2 d =
    min d (max (speed_or_zero p1.speed) (speed_or_zero p2.speed) * dt * 3 / 2000)

abbrev pub is_unusable : Fix → Fix → Bool
is_unusable p1 p2 =
    ltb gps_unusable_accuracy (accuracy_of p1) && ltb gps_unusable_accuracy (accuracy_of p2)

abbrev pub is_corroborated : Fix → Fix → Bool
is_corroborated p1 p2 =
    exceeds p1.speed stationary_speed
    || exceeds p2.speed stationary_speed
    || leb (accuracy_of p1) movement_trust_max_accuracy
      && leb (accuracy_of p2) movement_trust_max_accuracy

abbrev too_old : Option ℕ → Fix → Bool
too_old none p2 = true
too_old (some t) p2 = ltb (t + stationary_max_sample_gap) (time p2)

-- The window of the sum, or a new one that begins with the segment.
abbrev window_start : Option Fix → Fix → Fix → Fix
window_start none p1 p2 = p1
window_start (some r) p1 p2 = if too_old r.timestamp p2 then p1 else r

abbrev window_pending : Sum → Fix → ℕ
window_pending s p2 = elim s.run_start [
  | none ↦ 0
  | some r ↦ if too_old r.timestamp p2 then 0 else s.run_pending
]

module _ (distance : Distance) where
  abbrev pub segment : Fix → Fix → ℕ
  segment p1 p2 = distance p1.latitude p1.longitude p2.latitude p2.longitude

  abbrev pub gated : ℕ → Fix → Fix → Bool
  gated d p1 p2 = reaches_noise_gate d (some (accuracy_of p1)) (some (accuracy_of p2))

  -- Rule 4: a window of segments below the noise counts when its net length passes the gate.
  unfoldable pub extend_window : Fix → Fix → Sum → Sum
  extend_window p1 p2 s =
      let start = window_start s.run_start p1 p2 in
      let pending = window_pending s p2 + segment p1 p2 in
      if gated (segment start p2) start p2
      then record { total = s.total + pending; run_start = some p2; run_pending = 0 }
      else record { total = s.total; run_start = some start; run_pending = pending }

  unfoldable pub add_segment : Fix → Fix → Sum → Sum
  unfolding extend_window
  add_segment p1 p2 s =
      if is_unusable p1 p2
      then count_segment 0 s
      else if is_speed_trusted p1 || is_speed_trusted p2
      then count_segment (capped (elapsed p1 p2) p1 p2 (segment p1 p2)) s
      else if gated (segment p1 p2) p1 p2
      then count_segment (segment p1 p2) s
      else if is_none (elapsed p1 p2) || not (is_corroborated p1 p2)
      then s
      else extend_window p1 p2 s

  unfoldable pub add_segments : Fix → List Fix → Sum → Sum
  unfolding add_segment
  add_segments p1 [] s = s
  add_segments p1 (p2 ∷ ps) s = add_segments p2 ps (add_segment p1 p2 s)

  unfoldable pub sum_distance : List Fix → ℕ
  unfolding add_segments
  sum_distance [] = 0
  sum_distance (p ∷ ps) = (add_segments p ps empty_sum).total

  unfoldable pub compute_filtered_distance : List Fix → ℕ
  unfolding sum_distance collapse_stationary_windows
  compute_filtered_distance positions =
      sum_distance (collapse_stationary_windows distance positions)
