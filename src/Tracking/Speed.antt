-- ===== src/Tracking/Speed.antt =====
-- The ground speed of a fix: resolveGroundSpeed and selectSpeedWindowRef of
-- backend/src/common/geo/geo.utils.ts. Every number is finite here. A test that the source makes on
-- a quotient or on combinedGpsNoiseGate is made on the products and squares that it stands for; a
-- speed that is returned is rounded down to a millimetre per second.
use delivery_tracking.Prelude.{
  ℕ, Option, none, some, Bool, true, false, not, ◌&&◌, ◌||◌, ◌+◌, ◌-◌, ◌*◌, ◌/◌, ltb, leb,
  if◌then◌else◌, List, [], ◌∷◌,
}
use delivery_tracking.Tracking.Fixes.{
  Distance, accuracy_or_fallback, gps_noise_floor, reaches_noise_gate, is_accuracy_trustworthy,
  stationary_speed,
}
use delivery_tracking.Tracking.Wake.{max}

abbrev pub reliable_reported_speed : ℕ
reliable_reported_speed = 3000

abbrev pub speed_window_min : ℕ
speed_window_min = 12 * 1000

abbrev pub speed_window_pair_min : ℕ
speed_window_pair_min = 1000

abbrev pub ground_speed_min_dt : ℕ
ground_speed_min_dt = 1000

abbrev pub ground_speed_max_dt : ℕ
ground_speed_max_dt = 120 * 1000

pub record GroundSpeedRef : Type 0 where
  pub latitude : ℕ
  pub longitude : ℕ
  pub timestamp : ℕ
  pub accuracy : Option ℕ

-- `k * combinedGpsNoiseGate(a1, a2) < n`.
abbrev pub gate_below : ℕ → ℕ → Option ℕ → Option ℕ → Bool
gate_below k n accuracy1 accuracy2 =
    let a1 = accuracy_or_fallback accuracy1 in
    let a2 = accuracy_or_fallback accuracy2 in
    ltb (k * gps_noise_floor) n && ltb (k * k * (2 * (a1 * a1 + a2 * a2))) (n * n)

-- The most recent fix of the history that is neither too recent nor too old; `best` is the fix kept
-- so far.
abbrev pub is_window_ref : ℕ → GroundSpeedRef → Bool
is_window_ref now f =
    leb (f.timestamp + speed_window_min) now && leb now (f.timestamp + ground_speed_max_dt)

abbrev better : Option GroundSpeedRef → GroundSpeedRef → Bool
better none f = true
better (some b) f = ltb b.timestamp f.timestamp

unfoldable pub select_from : Option GroundSpeedRef → List GroundSpeedRef → ℕ → Option GroundSpeedRef
select_from best [] now = best
select_from best (f ∷ fs) now =
    select_from (if is_window_ref now f && better best f then some f else best) fs now

unfoldable pub select_speed_window_ref : List GroundSpeedRef → ℕ → Option GroundSpeedRef
unfolding select_from
select_speed_window_ref history now = select_from none history now

pub data GroundSpeedSource : Type 0 where
  measured derived clamped_zero unknown : GroundSpeedSource

pub record GroundSpeed : Type 0 where
  pub speed : ℕ
  pub source : GroundSpeedSource

pub record GroundSpeedInput : Type 0 where
  pub reported : Option ℕ
  pub previous : Option GroundSpeedRef
  pub current : GroundSpeedRef
  pub is_server_fallback : Bool
  pub window_previous : Option GroundSpeedRef

abbrev moved_to : ℕ → GroundSpeedSource → GroundSpeed
moved_to v s = record { speed = v; source = s }

abbrev positive : Option ℕ → Option ℕ
positive none = none
positive (some v) = if ltb 0 v then some v else none

module _ (distance : Distance) where
  abbrev moved : GroundSpeedRef → GroundSpeedRef → ℕ
  moved p c = distance p.latitude p.longitude c.latitude c.longitude

  -- `demonstrablyStationary`.
  unfoldable pub is_stationary : GroundSpeedInput → Bool
  is_stationary i = elim i.previous [
    | none ↦ false
    | some p ↦
        let c = i.current in
        let dt = c.timestamp - p.timestamp in
        not i.is_server_fallback
        && ltb p.timestamp c.timestamp
        && (not (reaches_noise_gate (moved p c) p.accuracy c.accuracy)
            || gate_below 2 (dt - 2 * moved p c) p.accuracy c.accuracy)
  ]

  -- The step from the previous fix is at least as fast as SPEED_WINDOW_PAIR_MIN_MS.
  unfoldable pub is_moving_now : GroundSpeedInput → Bool
  is_moving_now i = elim i.previous [
    | none ↦ false
    | some p ↦
        let dt = i.current.timestamp - p.timestamp in
        ltb p.timestamp i.current.timestamp
        && leb (speed_window_pair_min * dt) (1000 * moved p i.current)
  ]

  -- `windowSpeedMs`.
  unfoldable pub window_speed : GroundSpeedInput → Option ℕ
  unfolding is_moving_now
  window_speed i = elim i.window_previous [
    | none ↦ none
    | some w ↦
        let c = i.current in
        let dt = c.timestamp - w.timestamp in
        if not i.is_server_fallback
          && is_window_ref c.timestamp w
          && gate_below 1 (moved w c) w.accuracy c.accuracy
          && leb (stationary_speed * dt) (1000 * moved w c)
          && is_moving_now i
        then some (1000 * moved w c / dt)
        else none
  ]

  -- A reported speed that the positions do not contradict.
  unfoldable pub is_not_contradicted : GroundSpeedInput → ℕ → Bool
  is_not_contradicted i v = elim i.previous [
    | none ↦ true
    | some p ↦
        let c = i.current in
        let dt = c.timestamp - p.timestamp in
        not (gate_below 1000 (v * dt - 1000 * moved p c) p.accuracy c.accuracy)
  ]

  unfoldable pub resolve_reported : GroundSpeedInput → ℕ → GroundSpeed
  unfolding is_stationary window_speed is_not_contradicted
  resolve_reported i v =
      if is_stationary i
      then elim (window_speed i) [
        | some w ↦ moved_to (max v w) measured
        | none ↦
            if leb reliable_reported_speed v && is_not_contradicted i v
            then moved_to v measured
            else moved_to 0 clamped_zero
      ]
      else if ltb v stationary_speed
      then moved_to 0 clamped_zero
      else moved_to v measured

  -- A speed derived from two consecutive fixes.
  unfoldable pub derive_pair : GroundSpeedInput → GroundSpeed
  derive_pair i = elim i.previous [
    | none ↦ moved_to 0 unknown
    | some p ↦
        let c = i.current in
        let dt = c.timestamp - p.timestamp in
        if not i.is_server_fallback
          && leb (p.timestamp + ground_speed_min_dt) c.timestamp
          && leb c.timestamp (p.timestamp + ground_speed_max_dt)
          && reaches_noise_gate (moved p c) p.accuracy c.accuracy
          && is_accuracy_trustworthy p.accuracy
          && is_accuracy_trustworthy c.accuracy
        then if ltb (1000 * moved p c) (stationary_speed * dt)
          then moved_to 0 clamped_zero
          else moved_to (1000 * moved p c / dt) derived
        else moved_to 0 clamped_zero
  ]

  is_trusted : Option GroundSpeedRef → GroundSpeedRef → Bool
  is_trusted none c = is_accuracy_trustworthy c.accuracy
  is_trusted (some w) c = is_accuracy_trustworthy w.accuracy && is_accuracy_trustworthy c.accuracy

  unfoldable pub derive_speed : GroundSpeedInput → GroundSpeed
  unfolding window_speed derive_pair is_trusted
  derive_speed i = elim (window_speed i) [
    | none ↦ derive_pair i
    | some w ↦ if is_trusted i.window_previous i.current then moved_to w derived else derive_pair i
  ]

  unfoldable pub resolve_ground_speed : GroundSpeedInput → GroundSpeed
  unfolding resolve_reported derive_speed
  resolve_ground_speed i = elim (positive i.reported) [
    | some v ↦ resolve_reported i v
    | none ↦ derive_speed i
  ]
