-- ===== src/Tracking/Batch.antt =====
-- The positions that the driver's app sends after a time without network: saveBatch of
-- backend/src/modules/tracking/tracking.service.ts, in the units of Tracking.Fixes. A map of the
-- source is a function from identifiers. The counters of the metrics are left out.
use delivery_tracking.Prelude.{
  ℕ, Option, none, some, Bool, false, not, ◌&&◌, ◌||◌, ◌+◌, ◌-◌, ltb, leb, ◌==◌, is_value,
  if◌then◌else◌, is_none, List, [], ◌∷◌, ◌++◌, length, drop, any,
}
use delivery_tracking.Tracking.Speed.{GroundSpeedRef, select_speed_window_ref, resolve_ground_speed}
use delivery_tracking.Tracking.Teleport.{TeleportReference, evaluate_teleportation}
use delivery_tracking.Tracking.Rows.{
  UpdatePositionDto, ValidPosition, GpsPosition, Db, Sender, Progress,
}

abbrev pub set_at {ℓ} : {A : Type ℓ} → (ℕ → A) → ℕ → A → ℕ → A
set_at f k a j = if j == k then a else f j

-- `distinct` on rows from the newest: the newest row of the vehicle.
unfoldable pub newest : ℕ → List GpsPosition → Option GpsPosition
newest id [] = none
newest id (r ∷ rs) =
    let found = newest id rs in
    if r.vehicle_id == id
    then elim found [
      | none ↦ some r
      | some n ↦ if leb n.timestamp r.timestamp then some r else some n
    ]
    else found

abbrev pub reference : GpsPosition → TeleportReference
reference r = record {
  latitude = r.latitude;
  longitude = r.longitude;
  timestamp = r.timestamp;
  speed = r.speed;
  accuracy = r.accuracy;
}

abbrev pub reference_of : Option GpsPosition → Option TeleportReference
reference_of none = none
reference_of (some r) = some (reference r)

-- At most DEDUP_CLOCK_SKEW_S apart.
abbrev pub is_near : ℕ → ℕ → Bool
is_near t u = leb t (u + 1000) && leb u (t + 1000)

abbrev pub is_near_to : Option TeleportReference → ℕ → Bool
is_near_to none t = false
is_near_to (some l) t = is_near t l.timestamp

abbrev pub ground_ref : TeleportReference → GroundSpeedRef
ground_ref l = record {
  latitude = l.latitude;
  longitude = l.longitude;
  timestamp = l.timestamp;
  accuracy = l.accuracy;
}

abbrev pub ground_ref_of : Option TeleportReference → Option GroundSpeedRef
ground_ref_of none = none
ground_ref_of (some l) = some (ground_ref l)

-- At most thirty fixes are remembered.
abbrev pub remember : List GroundSpeedRef → GroundSpeedRef → List GroundSpeedRef
remember h f = let h' = h ++ (f ∷ []) in drop (length h' - 30) h'

abbrev pub reached : ValidPosition → ℕ → TeleportReference
reached p speed = record {
  latitude = p.latitude;
  longitude = p.longitude;
  timestamp = p.timestamp;
  speed = some speed;
  accuracy = p.accuracy;
}

unfoldable pub advance : Progress → ValidPosition → ℕ → Bool → Progress
advance s p speed suspect = record {
  last = set_at s.last p.vehicle_id (some (reached p speed));
  history =
      if suspect
      then s.history
      else set_at s.history p.vehicle_id
          (remember (s.history p.vehicle_id) (ground_ref (reached p speed)));
}

module _ (sender : Sender) (db : Db) where
  abbrev pub is_verified : ℕ → Bool
  is_verified id =
      any
        (λ d.
          d.id == id
          && is_none d.deleted_at
          && (is_value d.assigned_driver_id sender.user_id
              || is_value d.driver_id sender.driver_id))
        db.deliveries

  abbrev pub accepts : ℕ → Bool
  accepts id =
      any
        (λ v.
          v.id == id
          && is_none v.deleted_at
          && v.is_active
          && v.is_phone
          && v.company_id == sender.company_id)
        db.vehicles

  -- A delivery that is not the driver's is detached, and the position is kept.
  abbrev pub effective_delivery : Option ℕ → Option ℕ
  effective_delivery none = none
  effective_delivery (some id) = if is_verified id && sender.is_long id then some id else none

  abbrev pub valid_for : UpdatePositionDto → ℕ → ValidPosition
  valid_for p id = record {
    latitude = p.latitude;
    longitude = p.longitude;
    speed = p.speed;
    heading = p.heading;
    altitude = p.altitude;
    accuracy = p.accuracy;
    timestamp = p.timestamp;
    delivery_id = effective_delivery p.delivery_id;
    vehicle_id = id;
  }

  unfoldable pub valid_positions : List UpdatePositionDto → List ValidPosition
  valid_positions [] = []
  valid_positions (p ∷ ps) =
      let rest = valid_positions ps in
      elim p.vehicle_id [
        | none ↦ rest
        | some id ↦ if sender.is_long id && accepts id then valid_for p id ∷ rest else rest
      ]

  unfoldable pub db_last : ℕ → Option TeleportReference
  unfolding newest
  db_last id = reference_of (newest id db.positions)

  unfoldable pub resolved_speed : Progress → ValidPosition → ℕ
  unfolding resolve_ground_speed select_speed_window_ref
  resolved_speed s p =
      (resolve_ground_speed sender.distance (record {
        reported = p.speed;
        previous = ground_ref_of (s.last p.vehicle_id);
        current = record {
          latitude = p.latitude;
          longitude = p.longitude;
          timestamp = p.timestamp;
          accuracy = p.accuracy;
        };
        is_server_fallback = false;
        window_previous = select_speed_window_ref (s.history p.vehicle_id) p.timestamp;
      })).speed

  unfoldable pub is_suspect : Progress → ValidPosition → ℕ → Bool
  unfolding evaluate_teleportation
  is_suspect s p speed = elim (s.last p.vehicle_id) [
    | none ↦ false
    | some l ↦
        ltb l.timestamp p.timestamp
        && not (
            is_none (
              evaluate_teleportation sender.distance l p.latitude p.longitude p.timestamp p.accuracy
                (some speed)))
  ]

  abbrev pub row_of : ValidPosition → ℕ → Bool → GpsPosition
  row_of p speed suspect = record {
    latitude = p.latitude;
    longitude = p.longitude;
    speed = some speed;
    heading = p.heading;
    altitude = p.altitude;
    accuracy = p.accuracy;
    suspect = suspect;
    timestamp = p.timestamp;
    company_id = sender.company_id;
    delivery_id = p.delivery_id;
    vehicle_id = p.vehicle_id;
    driver_id = some sender.driver_id;
  }

  abbrev pub is_dup : Progress → ValidPosition → Bool
  is_dup s p =
      is_near_to (s.last p.vehicle_id) p.timestamp || is_near_to (db_last p.vehicle_id) p.timestamp

  -- One round of the loop: the rows that it adds to `toInsert`.
  unfoldable pub take_position : Progress → ValidPosition → Progress × List GpsPosition
  unfolding resolved_speed is_suspect advance
  take_position s p =
      if is_dup s p
      then (s, [])
      else let speed = resolved_speed s p in
        let suspect = is_suspect s p speed in
        (advance s p speed suspect, row_of p speed suspect ∷ [])

  unfoldable pub to_insert : Progress → List ValidPosition → List GpsPosition
  unfolding take_position
  to_insert s [] = []
  to_insert s (p ∷ ps) = let (s', rows) = take_position s p in rows ++ to_insert s' ps
