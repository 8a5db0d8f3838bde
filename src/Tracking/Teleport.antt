-- ===== src/Tracking/Teleport.antt =====
-- The detection of impossible jumps: evaluateTeleportation of
-- backend/src/common/geo/teleportation.utils.ts, in the units of Tracking.Fixes.
use delivery_tracking.Prelude.{
  ℕ, Option, none, some, Bool, true, false, ◌&&◌, ◌-◌, ◌*◌, ◌/◌, ltb, leb, if◌then◌else◌,
}
use delivery_tracking.Tracking.Fixes.{Distance, movement_trust_max_accuracy}
use delivery_tracking.Tracking.Speed.{gate_below}
use delivery_tracking.Tracking.Filter.{min}
use delivery_tracking.Tracking.Wake.{max}

-- 55.56 m/s is 5556 hundredths.
abbrev pub teleport_speed_threshold : ℕ
teleport_speed_threshold = 5556

abbrev pub teleport_distance_threshold : ℕ
teleport_distance_threshold = 5000 * 1000

abbrev pub teleport_time_threshold : ℕ
teleport_time_threshold = 10 * 1000

abbrev pub incoherent_jump_max_dt : ℕ
incoherent_jump_max_dt = 30 * 1000

abbrev pub incoherent_jump_min_speed : ℕ
incoherent_jump_min_speed = 8000

pub record TeleportReference : Type 0 where
  pub latitude : ℕ
  pub longitude : ℕ
  pub timestamp : ℕ
  pub speed : Option ℕ
  pub accuracy : Option ℕ

pub data TeleportReason : Type 0 where
  non_croissant vitesse saut_court saut_incoherent : TeleportReason

-- The distance threshold times the scale of the accuracy, between 1 and 1.5.
abbrev pub adjusted_threshold : Option ℕ → ℕ
adjusted_threshold none = teleport_distance_threshold
adjusted_threshold (some a) = teleport_distance_threshold * max 10000 (min a 15000) / 10000

abbrev is_precise : ℕ → Bool
is_precise a = ltb 0 a && leb a movement_trust_max_accuracy

abbrev is_absent_or_precise : Option ℕ → Bool
is_absent_or_precise none = true
is_absent_or_precise (some a) = is_precise a

abbrev known_or_zero : Option ℕ → ℕ
known_or_zero none = 0
known_or_zero (some v) = v

abbrev or_else : Option ℕ → ℕ → Option ℕ
or_else none a = some a
or_else (some b) a = some b

-- `distance > plausible`, for the speeds that the two fixes announce.
abbrev is_incoherent : ℕ → ℕ → TeleportReference → Option ℕ → Option ℕ → Bool
is_incoherent d dt r none speed = false
is_incoherent d dt r (some a) none = false
is_incoherent d dt r (some a) (some v) =
    leb 1000 dt
    && leb dt incoherent_jump_max_dt
    && is_precise a
    && is_absent_or_precise r.accuracy
    && gate_below 3000
        (1000 * d - max (max v (known_or_zero r.speed)) incoherent_jump_min_speed * dt * 2)
        (or_else r.accuracy a) (some a)

-- The reason for which the fix is suspect, `none` if it is not.
unfoldable pub evaluate_teleportation :
    Distance → TeleportReference → ℕ → ℕ → ℕ → Option ℕ → Option ℕ → Option TeleportReason
evaluate_teleportation distance r latitude longitude timestamp accuracy speed =
    let dt = timestamp - r.timestamp in
    let d = distance r.latitude r.longitude latitude longitude in
    if leb timestamp r.timestamp
    then some non_croissant
    else if ltb (teleport_speed_threshold * dt) (d * 100)
    then some vitesse
    else if ltb (adjusted_threshold accuracy) d && ltb dt teleport_time_threshold
    then some saut_court
    else if is_incoherent d dt r accuracy speed
    then some saut_incoherent
    else none
