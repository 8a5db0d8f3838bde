-- ===== src/Deliveries/Edit.antt =====
-- `create` and `update` of backend/src/modules/deliveries/deliveries.service.ts. An update is in two
-- halves, as a status change is: its write has no lock on the status that was read.
use text.Mathlib.Text.{◌==◌ as str_eq}
use delivery_tracking.Prelude.{
  ℕ, ◌==◌, String, Bool, true, false, not, ◌&&◌, Option, none, some, List, [], ◌∷◌, is_none,
  is_value, if◌then◌else◌, pure, or_throw, throw_if, when, ◌>>=◌, ◌>>◌,
}
use delivery_tracking.Prelude.Table.{find?}
use delivery_tracking.Deliveries.Status.{
  DeliveryStatus, in_progress, same_status, includes, transition_matrix,
  is_fuel_report_trigger_status, is_terminal,
}
use delivery_tracking.Deliveries.Model.{
  Delivery, Vehicle, Driver, Field, undefined, null, value, CreateDeliveryDto, UpdateDeliveryDto,
  notify, status_changed, driver_assigned, bus_status, bus_assigned, vehicle_not_found,
  driver_not_found, terminal_status, transition_refused, Method, Coordinates, Env, field_or, get_or,
}
use delivery_tracking.Deliveries.Location.{no_mismatch}
use delivery_tracking.Deliveries.Service.{
  find_one, insert_row, update_row, send, dispatch_daily_fuel_report_recompute, completed,
  build_delivery_status_notification, dispatch_webhook,
}

abbrev pub is_undefined : {A : Type 0} → Field A → Bool
is_undefined undefined = true
is_undefined null = false
is_undefined (value _) = false

abbrev pub of_option : {A : Type 0} → Option A → Field A
of_option none = null
of_option (some a) = value a

abbrev pub is_fleet_row : ℕ → ℕ → Vehicle → Bool
is_fleet_row company_id id v = v.id == id && v.company_id == company_id && is_none v.deleted_at

abbrev pub is_driver_row : ℕ → ℕ → Driver → Bool
is_driver_row company_id id d = d.id == id && d.company_id == company_id && is_none d.deleted_at

-- `if (dto.vehicleId) { ... }`
unfoldable pub check_vehicle : ℕ → Option ℕ → Method (Unit {0})
check_vehicle company_id none db = pure tt db
check_vehicle company_id (some id) db =
    throw_if (is_none (find? (is_fleet_row company_id id) db.vehicles)) vehicle_not_found db

unfoldable pub find_driver : ℕ → ℕ → Method Driver
find_driver company_id id db =
    or_throw (find? (is_driver_row company_id id) db.drivers) driver_not_found db

-- `if (dto.driverId) { ... }`, which gives the user account of the driver.
unfoldable pub check_driver : ℕ → Option ℕ → Method (Field ℕ)
unfolding find_driver
check_driver company_id none = pure undefined
check_driver company_id (some id) = do d ← find_driver company_id id; pure (of_option d.user_id)

-- The best-effort lookup of an address.
abbrev pub first_result : Option (List Coordinates) → Option Coordinates
first_result none = none
first_result (some []) = none
first_result (some (c ∷ _)) = some c

abbrev pub located : Option Coordinates → Field ℕ → (Coordinates → ℕ) → Field ℕ
located none given part = given
located (some c) given part = value (part c)

abbrev pub as_option : {A : Type 0} → Field A → Option A
as_option f = field_or f none

unfoldable pub geocode_new : Env → CreateDeliveryDto → Option Coordinates
geocode_new env dto =
    if is_undefined dto.delivery_lat
      && is_undefined dto.delivery_lng
      && not (str_eq dto.delivery_address "")
    then first_result (env.search dto.delivery_address)
    else none

-- The row that `create` inserts, under the key that the database gives it.
unfoldable pub new_delivery : ℕ → ℕ → CreateDeliveryDto → Option Coordinates → Option ℕ → Delivery
new_delivery new_id company_id dto found user_id = record {
  id = new_id;
  company_id = company_id;
  status = in_progress;
  title = dto.title;
  description = dto.description;
  pickup_address = dto.pickup_address;
  pickup_lat = dto.pickup_lat;
  pickup_lng = dto.pickup_lng;
  pickup_location_label = dto.pickup_location_label;
  delivery_address = dto.delivery_address;
  delivery_lat = as_option (located found dto.delivery_lat (λ c. c.lat));
  delivery_lng = as_option (located found dto.delivery_lng (λ c. c.lng));
  delivery_location_label = dto.delivery_location_label;
  scheduled_date = dto.scheduled_date;
  completed_at = none;
  delivery_proof_lat = none;
  delivery_proof_lng = none;
  delivery_proof_distance = none;
  delivery_proof_accuracy = none;
  location_mismatch = false;
  mismatch_resolved = false;
  notes = dto.notes;
  client_phone = none;
  amount = none;
  article_price = none;
  product_description = none;
  external_order_ref = none;
  tour_sequence = none;
  deleted_at = none;
  vehicle_id = dto.vehicle_id;
  driver_id = dto.driver_id;
  assigned_driver_id = user_id;
  client_id = none;
}

abbrev pub is_terminal_request : Option DeliveryStatus → Bool
is_terminal_request none = false
is_terminal_request (some s) = is_terminal s

abbrev pub announce_created : ℕ → Delivery → Method Delivery
announce_created company_id d = do
  send (status_changed company_id d.id d.status)
  send (bus_status company_id d.id d.status)
  pure d

unfoldable pub insert_delivery : ℕ → Delivery → Method Delivery
unfolding insert_row
insert_delivery company_id d = do insert_row d; announce_created company_id d

unfoldable pub create : Env → ℕ → ℕ → CreateDeliveryDto → Method Delivery
unfolding check_vehicle check_driver geocode_new new_delivery insert_delivery
create env new_id company_id dto = do
  check_vehicle company_id dto.vehicle_id
  user_id ← check_driver company_id dto.driver_id
  throw_if (is_terminal_request dto.status) terminal_status
  insert_delivery company_id
      (new_delivery new_id company_id dto (geocode_new env dto) (as_option user_id))

-- What `update` has found out before it writes.
pub record Planned : Type 0 where
  pub delivery : Delivery
  pub found : Option Coordinates
  pub assigned : Field ℕ

abbrev pub address_changes : Option String → String → Bool
address_changes none old = false
address_changes (some a) old = not (str_eq a "") && not (str_eq a old)

unfoldable pub geocode_changed : Env → UpdateDeliveryDto → Delivery → Option Coordinates
geocode_changed env dto d =
    if is_undefined dto.delivery_lat
      && is_undefined dto.delivery_lng
      && address_changes dto.delivery_address d.delivery_address
    then first_result (env.search (get_or dto.delivery_address ""))
    else none

-- `dto.status && dto.status !== delivery.status`
abbrev pub changes_status : Option DeliveryStatus → DeliveryStatus → Bool
changes_status none old = false
changes_status (some s) old = not (same_status s old)

-- `driverChanged && dto.driverId`
abbrev pub new_driver : Field ℕ → Option ℕ → Option ℕ
new_driver undefined old = none
new_driver null old = none
new_driver (value id) old = if is_value old id then none else some id

unfoldable pub check_update : Env → ℕ → ℕ → UpdateDeliveryDto → Method Planned
unfolding find_one check_vehicle check_driver transition_matrix geocode_changed
check_update env company_id id dto = do
  d ← find_one none none company_id id
  let found = geocode_changed env dto d
  check_vehicle company_id (as_option dto.vehicle_id)
  assigned ← check_driver company_id (as_option dto.driver_id)
  let status = get_or dto.status d.status
  throw_if
      (changes_status dto.status d.status && not (includes (transition_matrix d.status) status))
      (transition_refused d.status status)
  pure (record { delivery = d; found = found; assigned = assigned })

-- The columns that `update` writes.
unfoldable pub update_change : ℕ → UpdateDeliveryDto → Planned → Delivery → Delivery
update_change now dto p r = record r {
  title = get_or dto.title r.title;
  description = field_or dto.description r.description;
  status = get_or dto.status r.status;
  pickup_address = get_or dto.pickup_address r.pickup_address;
  pickup_lat = field_or dto.pickup_lat r.pickup_lat;
  pickup_lng = field_or dto.pickup_lng r.pickup_lng;
  pickup_location_label = field_or dto.pickup_location_label r.pickup_location_label;
  delivery_address = get_or dto.delivery_address r.delivery_address;
  delivery_lat = field_or (located p.found dto.delivery_lat (λ c. c.lat)) r.delivery_lat;
  delivery_lng = field_or (located p.found dto.delivery_lng (λ c. c.lng)) r.delivery_lng;
  delivery_location_label = field_or dto.delivery_location_label r.delivery_location_label;
  scheduled_date = field_or dto.scheduled_date r.scheduled_date;
  completed_at =
      if changes_status dto.status p.delivery.status
      then completed now (get_or dto.status r.status) r.completed_at
      else r.completed_at;
  notes = field_or dto.notes r.notes;
  vehicle_id = field_or dto.vehicle_id r.vehicle_id;
  driver_id = field_or dto.driver_id r.driver_id;
  assigned_driver_id = field_or p.assigned r.assigned_driver_id;
}

unfoldable pub announce_driver : ℕ → ℕ → Option ℕ → Method (Unit {0})
announce_driver company_id id none = pure tt
announce_driver company_id id (some driver_id) = do
  send (driver_assigned company_id id driver_id)
  send (bus_assigned company_id id driver_id)

-- `dto.driverId ?? delivery.driverId`
abbrev pub driver_after : Field ℕ → Option ℕ → Option ℕ
driver_after undefined old = old
driver_after null old = old
driver_after (value d) old = some d

unfoldable pub commit_update : Env → ℕ → ℕ → ℕ → UpdateDeliveryDto → Planned → Method Delivery
unfolding update_row update_change dispatch_daily_fuel_report_recompute
    build_delivery_status_notification dispatch_webhook announce_driver
commit_update env now company_id id dto p = do
  let status = get_or dto.status p.delivery.status
  let status_changes = changes_status dto.status p.delivery.status
  when (status_changes && is_fuel_report_trigger_status status) (
      dispatch_daily_fuel_report_recompute env company_id
        (driver_after dto.driver_id p.delivery.driver_id) status)
  updated ← update_row id (update_change now dto p)
  when status_changes (do
    send (
        notify (
          build_delivery_status_notification company_id id status no_mismatch
            updated.assigned_driver_id))
    dispatch_webhook now company_id updated status
    send (bus_status company_id id status))
  announce_driver company_id id (new_driver dto.driver_id p.delivery.driver_id)
  pure updated

unfoldable pub update : Env → ℕ → ℕ → ℕ → UpdateDeliveryDto → Method Delivery
unfolding check_update commit_update
update env now company_id id dto = do
  p ← check_update env company_id id dto
  commit_update env now company_id id dto p
