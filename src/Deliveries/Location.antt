-- ===== src/Deliveries/Location.antt =====
-- `verifyDeliveryLocation` of backend/src/modules/deliveries/deliveries.service.ts: the proof of
-- location at completion, checked against the destination and against the recorded GPS trace.
use text.Mathlib.Text.{◌==◌ as str_eq}
use delivery_tracking.Prelude.{
  ℕ, ◌+◌, ◌*◌, ◌==◌, Bool, true, false, not, ◌&&◌, ◌||◌, Option, none, some, List, [], ◌∷◌, ltb,
  leb, is_none, is_value, if◌then◌else◌, pure, modify, ◌>>=◌, ◌>>◌,
}
use delivery_tracking.Prelude.Table.{update_first}
use delivery_tracking.Deliveries.Status.{is_fuel_report_trigger_status}
use delivery_tracking.Deliveries.Model.{
  Delivery, GpsPosition, UpdateDeliveryStatusDto, distance, no_coords, DeliveryMismatchInfo,
  ProofData, Field, undefined, null, value, field_or, Method, Coordinates, Env, override, get_or,
}

pub record Verification : Type 0 where
  pub proof_data : ProofData
  pub mismatch : DeliveryMismatchInfo

abbrev pub both : Option ℕ → Option ℕ → Option Coordinates
both (some a) (some b) = some (record { lat = a; lng = b })
both (some a) none = none
both none b = none

-- What a coordinate of the request counts as in arithmetic.
abbrev pub degrees : Env → Field ℕ → Option ℕ
degrees env undefined = none
degrees env null = some env.zero_degrees
degrees env (value x) = some x

-- The place of the proof, unless a coordinate is `undefined`.
abbrev pub proof_point : Env → UpdateDeliveryStatusDto → Option Coordinates
proof_point env dto = both (degrees env dto.latitude) (degrees env dto.longitude)

abbrev pub no_proof : ProofData
no_proof = record {
  delivery_proof_lat = undefined;
  delivery_proof_lng = undefined;
  delivery_proof_accuracy = undefined;
  delivery_proof_distance = none;
  location_mismatch = none;
  mismatch_resolved = none;
}

abbrev pub no_mismatch : DeliveryMismatchInfo
no_mismatch = record { mismatched = false; reason = none; distance_meters = 0 }

-- `Number(...) || 30`, for a setting that is 0 where it is no number
abbrev pub gps_window : ℕ → ℕ
gps_window minutes = if minutes == 0 then 30 else minutes

-- the `where` of the GPS query
abbrev pub is_recent_fix : Env → ℕ → ℕ → GpsPosition → Bool
is_recent_fix env now id g =
    is_value g.delivery_id id
    && not g.suspect
    && leb now (g.timestamp + gps_window env.gps_proof_window_min * 60 * 1000)

-- its `orderBy: { timestamp: 'desc' }`, over the rows that match
unfoldable pub latest_fix : (GpsPosition → Bool) → List GpsPosition → Option GpsPosition
latest_fix p [] = none
latest_fix p (g ∷ gs) =
    let rest = latest_fix p gs in
    if p g
    then elim rest [
      | none ↦ some g
      | some h ↦ if ltb g.timestamp h.timestamp then some h else some g
    ]
    else rest

unfoldable pub last_gps : Env → ℕ → ℕ → List GpsPosition → Option GpsPosition
last_gps env now id gs =
    if env.gps_query_fails then none else latest_fix (is_recent_fix env now id) gs

-- What the search of the address gives, stored with the delivery.
unfoldable pub store_results : Delivery → Option (List Coordinates) → Method (Option Coordinates)
store_results d none = pure none
store_results d (some []) = pure none
store_results d (some (c ∷ _)) = do
  modify (λ db. record db {
    deliveries =
        update_first (λ r. r.id == d.id)
          (λ r. record r { delivery_lat = some c.lat; delivery_lng = some c.lng }) db.deliveries;
  })
  pure (some c)

-- The destination, looked up and stored if the delivery has an address and no coordinates.
unfoldable pub destination : Env → Delivery → Method (Option Coordinates)
unfolding store_results
destination env d =
    if is_none d.delivery_lat && is_none d.delivery_lng && not (str_eq d.delivery_address "")
    then store_results d (env.search d.delivery_address)
    else pure (both d.delivery_lat d.delivery_lng)

abbrev pub distance_to : Env → Coordinates → Option Coordinates → ℕ
distance_to env p none = 0
distance_to env p (some c) = env.haversine_distance p.lat p.lng c.lat c.lng

abbrev pub gps_distance : Env → Coordinates → Option GpsPosition → Option ℕ
gps_distance env p none = none
gps_distance env p (some g) = some (env.haversine_distance p.lat p.lng g.latitude g.longitude)

abbrev pub exceeds : Option ℕ → ℕ → Bool
exceeds none threshold = false
exceeds (some n) threshold = ltb threshold n

-- The verdict on a proof, from the two distances.
unfoldable pub judge : Env → UpdateDeliveryStatusDto → ℕ → Option ℕ → Verification
judge env dto to_destination to_gps =
    let far = exceeds to_gps env.location_mismatch_threshold_m in
    let mismatch = ltb env.location_mismatch_threshold_m to_destination || far in
    record {
      proof_data = record {
        delivery_proof_lat = dto.latitude;
        delivery_proof_lng = dto.longitude;
        delivery_proof_accuracy = dto.accuracy;
        delivery_proof_distance = some to_destination;
        location_mismatch = some mismatch;
        mismatch_resolved = some false;
      };
      mismatch =
          if mismatch
          then record {
            mismatched = true;
            reason = some distance;
            distance_meters = if far then get_or to_gps 0 else to_destination;
          }
          else no_mismatch;
    }

abbrev pub without_coordinates : Verification
without_coordinates = record {
  proof_data = record no_proof { location_mismatch = some true; mismatch_resolved = some false };
  mismatch = record { mismatched = true; reason = some no_coords; distance_meters = 0 };
}

unfoldable pub verify_delivery_location :
    Env → ℕ → Delivery → UpdateDeliveryStatusDto → Method Verification
unfolding destination judge last_gps
verify_delivery_location env now d dto =
    if not (is_fuel_report_trigger_status dto.status)
    then pure (record { proof_data = no_proof; mismatch = no_mismatch })
    else elim (proof_point env dto) [
      | none ↦ pure without_coordinates
      | some p ↦ do
        dest ← destination env d
        λ db.
            pure
              (judge env dto (distance_to env p dest)
                (gps_distance env p (last_gps env now d.id db.gps_positions)))
              db
    ]

-- `{ ...proofData }` in an update
abbrev pub apply_proof : ProofData → Delivery → Delivery
apply_proof p d = record d {
  delivery_proof_lat = field_or p.delivery_proof_lat d.delivery_proof_lat;
  delivery_proof_lng = field_or p.delivery_proof_lng d.delivery_proof_lng;
  delivery_proof_accuracy = field_or p.delivery_proof_accuracy d.delivery_proof_accuracy;
  delivery_proof_distance = override p.delivery_proof_distance d.delivery_proof_distance;
  location_mismatch = get_or p.location_mismatch d.location_mismatch;
  mismatch_resolved = get_or p.mismatch_resolved d.mismatch_resolved;
}
