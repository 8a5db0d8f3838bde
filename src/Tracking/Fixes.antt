-- ===== src/Tracking/Fixes.antt =====
-- The fixes that the filters of backend/src/common/geo/geo.utils.ts read, and the thresholds that
-- the filters share. Instants are in milliseconds, distances and accuracies in millimetres, speeds
-- in millimetres per second; a coordinate is a natural number in fixed point, counted from the
-- south pole or the date line. A speed or an accuracy below zero counts as zero, which every test of
-- the source treats alike.
use delivery_tracking.Prelude.{
  ℕ, Option, none, some, Bool, true, false, ◌&&◌, ◌+◌, ◌*◌, ltb, leb, if◌then◌else◌,
}

pub record Fix : Type 0 where
  pub latitude : ℕ
  pub longitude : ℕ
  pub timestamp : Option ℕ
  pub speed : Option ℕ
  pub accuracy : Option ℕ

-- haversineDistance, in millimetres.
abbrev pub Distance : Type 0
Distance = ℕ → ℕ → ℕ → ℕ → ℕ

abbrev pub movement_trust_max_accuracy : ℕ
movement_trust_max_accuracy = 30 * 1000

abbrev pub movement_speed_threshold : ℕ
movement_speed_threshold = 1000

abbrev pub stationary_speed : ℕ
stationary_speed = 500

abbrev pub stationary_max_sample_gap : ℕ
stationary_max_sample_gap = 60 * 1000

abbrev pub stop_cluster_radius : ℕ
stop_cluster_radius = 50 * 1000

abbrev pub stop_cluster_min_duration : ℕ
stop_cluster_min_duration = 60 * 1000

abbrev pub is_accuracy_trustworthy : Option ℕ → Bool
is_accuracy_trustworthy none = true
is_accuracy_trustworthy (some a) = leb a movement_trust_max_accuracy

abbrev pub gps_accuracy_fallback : ℕ
gps_accuracy_fallback = 25 * 1000

-- `accuracy != null && accuracy > 0 ? accuracy : GPS_ACCURACY_FALLBACK_M`.
abbrev pub accuracy_or_fallback : Option ℕ → ℕ
accuracy_or_fallback none = gps_accuracy_fallback
accuracy_or_fallback (some a) = if ltb 0 a then a else gps_accuracy_fallback

abbrev pub gps_noise_floor : ℕ
gps_noise_floor = 4 * 1000

-- `d >= combinedGpsNoiseGate(a1, a2)`, with both sides of the comparison squared: the gate is the
-- larger of the floor and 2 * hypot(a1, a2) / sqrt 2.
abbrev pub reaches_noise_gate : ℕ → Option ℕ → Option ℕ → Bool
reaches_noise_gate d accuracy1 accuracy2 =
    let a1 = accuracy_or_fallback accuracy1 in
    let a2 = accuracy_or_fallback accuracy2 in
    leb gps_noise_floor d && leb (2 * (a1 * a1 + a2 * a2)) (d * d)

abbrev pub exceeds : Option ℕ → ℕ → Bool
exceeds none limit = false
exceeds (some v) limit = ltb limit v

-- `timestamp!.getTime()`, read where the timestamp is known to be there.
abbrev pub time : Fix → ℕ
time f = elim f.timestamp [ none ↦ 0 | some t ↦ t ]
