-- ===== src/Deliveries/Examples.antt =====
-- Two deliveries of a company, for the examples.
mod Batches
mod Edits
mod Statuses
use delivery_tracking.Prelude.{ℕ, ◌+◌, ◌-◌, false, true, none, some, List, [], ◌∷◌}
use delivery_tracking.Deliveries.Status.{DeliveryStatus, pending, in_progress, delivered}
use delivery_tracking.Deliveries.Model.{Delivery, Driver, Db, Env}

abbrev distance_between : ℕ → ℕ → ℕ → ℕ → ℕ
distance_between a b c d = (a - c) + (c - a) + ((b - d) + (d - b))

abbrev pub env : Env
env = record {
  search = λ _. none;
  haversine_distance = distance_between;
  zero_degrees = 0;
  location_mismatch_threshold_m = 200;
  gps_proof_window_min = 30;
  gps_query_fails = false;
  queue_available = true;
}

-- Delivery `id` of company 7, driven by driver 5, whose account is 50.
abbrev pub parcel : ℕ → DeliveryStatus → Delivery
parcel id status = record {
  id = id;
  company_id = 7;
  status = status;
  title = "parcel";
  description = none;
  pickup_address = "depot";
  pickup_lat = none;
  pickup_lng = none;
  pickup_location_label = none;
  delivery_address = "Analakely";
  delivery_lat = some 1000;
  delivery_lng = some 2000;
  delivery_location_label = none;
  scheduled_date = none;
  completed_at = none;
  delivery_proof_lat = none;
  delivery_proof_lng = none;
  delivery_proof_distance = none;
  delivery_proof_accuracy = none;
  location_mismatch = false;
  mismatch_resolved = false;
  notes = none;
  client_phone = none;
  amount = none;
  article_price = none;
  product_description = none;
  external_order_ref = some "240101-00001";
  tour_sequence = none;
  deleted_at = none;
  vehicle_id = none;
  driver_id = some 5;
  assigned_driver_id = some 50;
  client_id = none;
}

abbrev driver_row : Driver
driver_row = record { id = 5; company_id = 7; user_id = some 50; deleted_at = none }

abbrev pub with_rows : List Delivery → Db
with_rows ds = record {
  deliveries = ds;
  vehicles = [];
  drivers = driver_row ∷ [];
  gps_positions = [];
  sent = [];
}

abbrev pub two_rows : Db
two_rows = with_rows (parcel 1 in_progress ∷ parcel 2 pending ∷ [])

-- Another request has delivered the first row in the meantime.
abbrev pub closed_rows : Db
closed_rows =
    with_rows (record (parcel 1 delivered) { completed_at = some 900 } ∷ parcel 2 pending ∷ [])
