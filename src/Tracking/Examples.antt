-- ===== src/Tracking/Examples.antt =====
-- The theorems about positions, at concrete inputs.
use delivery_tracking.Prelude.{
  ◌↔◌, ℕ, none, some, true, false, ◌+◌, ◌-◌, ◌*◌, ◌≡◌, ◌≢◌, ◌≤◌, refl, List, [], ◌∷◌, any, arith,
}
use delivery_tracking.Tracking.Wake.{TraccarFix, handle_all}
use delivery_tracking.Tracking.Released.{handle_all-releases, handle_all-starves}
use delivery_tracking.Tracking.Fixes.{Fix}
use delivery_tracking.Tracking.Stops.{collapse_stationary_windows}
use delivery_tracking.Tracking.Runs.{Collapsed}
use delivery_tracking.Tracking.Collapsed.{collapse_stationary_windows-Collapsed}
use delivery_tracking.Tracking.Filter.{compute_filtered_distance}
use delivery_tracking.Tracking.Counted.{allowance, assured, path, compute_filtered_distance_bounds}
use delivery_tracking.Tracking.Rows.{UpdatePositionDto, GpsPosition, Vehicle, Db, Sender}
use delivery_tracking.Tracking.Save.{save_batch}
use delivery_tracking.Tracking.Arrival.{Rearranged, save_batch-Rearranged}
use delivery_tracking.Tracking.Covers.{covers}
use delivery_tracking.Tracking.Kept.{save_batch-covers}

-- A fix with seven satellites, for a vehicle with no row.
abbrev weak : ℕ → TraccarFix
weak t = record {
  time = t;
  has_coordinates = true;
  valid = true;
  sat = some 7;
  has_vehicle = true;
  last_db = none;
}

abbrev minute : ℕ → TraccarFix
minute n = weak (n * 60000)

third_is_saved : handle_all 4 none (minute 10 ∷ minute 11 ∷ minute 12 ∷ []) ≡ 720000 ∷ []
unfolding handle_all
third_is_saved = refl

handle_all-releases_example : handle_all 4 none (minute 10 ∷ minute 11 ∷ minute 12 ∷ []) ≢ []
handle_all-releases_example =
    handle_all-releases 4 none (minute 10) (minute 11 ∷ minute 12 ∷ []) tt (omega arith)
      (refl, (refl, (refl, tt))) (omega arith)

-- A fix every quarter of an hour.
handle_all-starves_example : handle_all 4 none (minute 15 ∷ minute 30 ∷ minute 45 ∷ []) ≡ []
handle_all-starves_example =
    handle_all-starves 4 0 (minute 15 ∷ minute 30 ∷ minute 45 ∷ []) (omega arith)
      ((refl, tt), ((refl, tt), ((refl, tt), tt))) (refl, (refl, (refl, tt))) none tt

abbrev apart : ℕ → ℕ → ℕ
apart a b = (a - b) + (b - a)

abbrev blocks : ℕ → ℕ → ℕ → ℕ → ℕ
blocks a b c d = apart a c + apart b d

abbrev fix : ℕ → ℕ → Fix
fix t x = record {
  latitude = x;
  longitude = 0;
  timestamp = some t;
  speed = none;
  accuracy = some 8000;
}

-- A minute at one place, then a step of a hundred metres.
abbrev trace : List Fix
trace = fix 0 1000 ∷ fix 30000 4000 ∷ fix 60000 2000 ∷ fix 90000 102000 ∷ []

stop_is_one_fix : collapse_stationary_windows blocks trace ≡ fix 60000 2333 ∷ fix 90000 102000 ∷ []
unfolding collapse_stationary_windows
stop_is_one_fix = refl

drift_is_not_counted : compute_filtered_distance blocks trace ≡ 99667
unfolding compute_filtered_distance
drift_is_not_counted = refl

collapse_stationary_windows-Collapsed_example :
    Collapsed blocks trace (collapse_stationary_windows blocks trace)
    ↔ (collapse_stationary_windows blocks trace ≡ collapse_stationary_windows blocks trace)
collapse_stationary_windows-Collapsed_example =
    collapse_stationary_windows-Collapsed blocks trace (collapse_stationary_windows blocks trace)
      (omega arith) refl (omega arith)

compute_filtered_distance_bounds_example :
    (path (assured blocks) (collapse_stationary_windows blocks trace)
      ≤ compute_filtered_distance blocks trace)
    × (compute_filtered_distance blocks trace
        ≤ path (allowance blocks) (collapse_stationary_windows blocks trace))
compute_filtered_distance_bounds_example = compute_filtered_distance_bounds blocks trace

abbrev phone : Sender
phone = record {
  user_id = 1;
  driver_id = 2;
  company_id = 3;
  is_long = λ id. true;
  distance = blocks;
}

abbrev lorry : Vehicle
lorry = record { id = 9; company_id = 3; deleted_at = none; is_active = true; is_phone = true }

abbrev row : ℕ → GpsPosition
row t = record {
  latitude = 1000;
  longitude = 0;
  speed = some 0;
  heading = none;
  altitude = none;
  accuracy = some 8000;
  suspect = false;
  timestamp = t;
  company_id = 3;
  delivery_id = none;
  vehicle_id = 9;
  driver_id = some 2;
}

abbrev stored : Db
stored = record { deliveries = []; vehicles = lorry ∷ []; positions = row 100000 ∷ [] }

abbrev sent : ℕ → UpdatePositionDto
sent t = record {
  latitude = 1000;
  longitude = 0;
  speed = none;
  heading = none;
  altitude = none;
  accuracy = some 8000;
  timestamp = t;
  delivery_id = some 5;
  vehicle_id = some 9;
}

-- The first position is a retransmission of the stored row, the last one is older than it.
abbrev batch : List UpdatePositionDto
batch = sent 100500 ∷ sent 130000 ∷ sent 40000 ∷ []

two_are_saved : (save_batch phone stored batch).saved ≡ row 40000 ∷ row 130000 ∷ []
unfolding save_batch
two_are_saved = refl

-- The position that is checked for proximity is the first of the vehicle.
first_is_checked : (save_batch phone stored batch).proximity ≡ row 40000 ∷ []
unfolding save_batch
first_is_checked = refl

batch_swapped : Rearranged batch (sent 100500 ∷ sent 40000 ∷ sent 130000 ∷ [])
batch_swapped =
    Rearranged.skip (sent 100500) _ _
      (Rearranged.swap (sent 130000) (sent 40000) [] (λ e. omega arith))

save_batch-Rearranged_example :
    save_batch phone stored batch
    ≡ save_batch phone stored (sent 100500 ∷ sent 40000 ∷ sent 130000 ∷ [])
save_batch-Rearranged_example = save_batch-Rearranged phone stored batch _ batch_swapped

save_batch-covers_example :
    any (covers 9 130000) (save_batch phone stored batch).db.positions ≡ true
save_batch-covers_example =
    save_batch-covers phone stored batch 1 0 (sent 130000) lorry refl refl refl refl refl refl refl
      refl
