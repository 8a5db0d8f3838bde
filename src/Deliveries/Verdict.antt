-- ===== src/Deliveries/Verdict.antt =====
-- When a completion is flagged as a location mismatch.
use text.Mathlib.Text.{◌==◌ as str_eq}
use delivery_tracking.Prelude.{
  ℕ, ◌<◌, ◌≤◌, ◌≡◌, ◌⊎◌, ◌↔◌, inl, inr, Bool, true, false, not, ◌&&◌, Option, none, some, List, [],
  ◌∷◌, arith, ok, err, if◌then◌else◌, ltb, is_none, Result, All, Bool-cases, tests,
}
use delivery_tracking.Deliveries.Status.{is_fuel_report_trigger_status}
use delivery_tracking.Deliveries.Model.{
  Delivery, UpdateDeliveryStatusDto, GpsPosition, Error, Db, Env, Coordinates, get_or,
}
use delivery_tracking.Deliveries.Location.{
  is_recent_fix, Verification, both, proof_point, verify_delivery_location, latest_fix, last_gps,
}

-- No fix passes the test, or the one that is found passes and none that passes is later.
abbrev pub IsLatest : (GpsPosition → Bool) → List GpsPosition → Option GpsPosition → Type 0
IsLatest p gs none = All (λ h. p h ≡ false) gs
IsLatest p gs (some g) = (p g ≡ true) × All (λ h. p h ≡ true → h.timestamp ≤ g.timestamp) gs

weaken :
    (p : GpsPosition → Bool) (gs : List GpsPosition) (g h : GpsPosition)
    → g.timestamp ≤ h.timestamp
    → All (λ k. p k ≡ true → k.timestamp ≤ g.timestamp) gs
    → All (λ k. p k ≡ true → k.timestamp ≤ h.timestamp) gs
weaken p [] g h le a = tt
weaken p (k ∷ gs) g h le a = ((λ e. omega (arith, a.0 e)), weaken p gs g h le a.1)

none_passes :
    (p : GpsPosition → Bool) (gs : List GpsPosition) (g : GpsPosition)
    → All (λ k. p k ≡ false) gs
    → All (λ k. p k ≡ true → k.timestamp ≤ g.timestamp) gs
none_passes p [] g a = tt
none_passes p (k ∷ gs) g a = ((λ e. cc a.0), none_passes p gs g a.1)

-- The fix that `orderBy: timestamp desc` puts first.
latest_fix-IsLatest :
    (p : GpsPosition → Bool) (gs : List GpsPosition) → IsLatest p gs (latest_fix p gs)
unfolding latest_fix
latest_fix-IsLatest p [] = tt
latest_fix-IsLatest p (g ∷ gs) =
    step (latest_fix p gs) (latest_fix-IsLatest p gs) (Bool-cases (p g))
  where
    step :
        (o : Option GpsPosition)
        → IsLatest p gs o
        → (p g ≡ true) ⊎ (p g ≡ false)
        → IsLatest p (g ∷ gs) (
            if p g
            then elim o [
              | none ↦ some g
              | some h ↦ if ltb g.timestamp h.timestamp then some h else some g
            ]
            else o)
    step none a (inl e) = rw e (e, ((λ _. omega arith), none_passes p gs g a))
    step none a (inr e) = rw e (e, a)
    step (some h) a (inl e) = elim (Bool-cases (ltb g.timestamp h.timestamp)) [
      | inl later ↦ rw (e, later) (a.0, ((λ _. omega tests), a.1))
      | inr earlier ↦ rw (e, earlier) (e, ((λ _. omega arith), weaken p gs h g (ground arith) a.1))
    ]
    step (some h) a (inr e) = rw e (a.0, ((λ k. cc), a.1))

-- Where the delivery should have ended: its coordinates, or else the first result for its address.
abbrev pub stated_destination : Env → Delivery → Option Coordinates
stated_destination env d =
    if is_none d.delivery_lat && is_none d.delivery_lng && not (str_eq d.delivery_address "")
    then elim (env.search d.delivery_address) [
      | none ↦ none
      | some [] ↦ none
      | some (c ∷ _) ↦ some c
    ]
    else both d.delivery_lat d.delivery_lng

abbrev pub IsFar : Env → Coordinates → Coordinates → Type 0
IsFar env p c = env.location_mismatch_threshold_m < env.haversine_distance p.lat p.lng c.lat c.lng

abbrev pub FarFrom : Env → Coordinates → Option Coordinates → Type 0
FarFrom env p none = ⊥
FarFrom env p (some c) = IsFar env p c

abbrev pub fix_point : Option GpsPosition → Option Coordinates
fix_point none = none
fix_point (some g) = some (record { lat = g.latitude; lng = g.longitude })

-- A proof of completion is suspicious if it has no coordinates, or if it lies too far from the
-- destination or from the last recent fix.
abbrev pub Suspicious : Env → Option Coordinates → Option Coordinates → Option GpsPosition → Type 0
Suspicious env none dest fix = Unit
Suspicious env (some p) dest fix = FarFrom env p dest ⊎ FarFrom env p (fix_point fix)

abbrev pub flagged : Result Error Verification → Bool
flagged (ok v) = get_or v.proof_data.location_mismatch false
flagged (err _) = false

abbrev pub notified_mismatch : Result Error Verification → Bool
notified_mismatch (ok v) = v.mismatch.mismatched
notified_mismatch (err _) = false

-- The positions that the query reads: none if it throws.
abbrev pub readable : Env → List GpsPosition → List GpsPosition
readable env gs = if env.gps_query_fails then [] else gs

last_gps-IsLatest :
    (env : Env) (now id : ℕ) (gs : List GpsPosition)
    → IsLatest (is_recent_fix env now id) (readable env gs) (last_gps env now id gs)
unfolding last_gps
last_gps-IsLatest env now id gs = elim (Bool-cases env.gps_query_fails) [
  | inl fails ↦ rw fails tt
  | inr reads ↦ rw reads (latest_fix-IsLatest (is_recent_fix env now id) gs)
]

module _ (env : Env) (now : ℕ) (d : Delivery) (dto : UpdateDeliveryStatusDto) (db : Db) where
  flagged_iff :
      is_fuel_report_trigger_status dto.status ≡ true
      → ((flagged (verify_delivery_location env now d dto db).0 ≡ true)
          ↔ Suspicious env
              (proof_point env dto)
              (stated_destination env d)
              (last_gps env now d.id db.gps_positions))
        × (notified_mismatch (verify_delivery_location env now d dto db).0
            ≡ flagged (verify_delivery_location env now d dto db).0)
  unfolding verify_delivery_location
  flagged_iff h = ground arith

  -- A request for `delivered` or `failed` is flagged, in the row and alike in the notification,
  -- exactly when its proof is suspicious: a coordinate is undefined, or they lie, with null as 0,
  -- farther than the threshold from the destination or from the last fix; and that fix is the latest
  -- of the delivery's recent fixes that are not suspect, if the query can be read.
  pub verify-flagged :
      is_fuel_report_trigger_status dto.status ≡ true
      → ((flagged (verify_delivery_location env now d dto db).0 ≡ true)
          ↔ Suspicious env
              (proof_point env dto)
              (stated_destination env d)
              (last_gps env now d.id db.gps_positions))
        × (notified_mismatch (verify_delivery_location env now d dto db).0
            ≡ flagged (verify_delivery_location env now d dto db).0)
        × IsLatest
            (is_recent_fix env now d.id)
            (readable env db.gps_positions)
            (last_gps env now d.id db.gps_positions)
  verify-flagged h =
      ((flagged_iff h).0, (flagged_iff h).1, last_gps-IsLatest env now d.id db.gps_positions)
