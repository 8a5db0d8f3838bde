-- ===== src/Drivers/Service.antt =====
-- `create`, `update` and `remove` of backend/src/modules/drivers/drivers.service.ts.
use text.Mathlib.Text.{◌==◌ as str_eq}
use delivery_tracking.Prelude.{
  ℕ, ◌==◌, String, Bool, true, false, not, ◌&&◌, ◌||◌, Option, none, some, List, [], ◌∷◌, ◌++◌, any,
  is_none, is_value, if◌then◌else◌, ok, err, pure, or_throw, modify, throw_if, transaction, ◌>>=◌,
  ◌>>◌,
}
use delivery_tracking.Prelude.Table.{find?, update_first}
use delivery_tracking.Deliveries.Status.{in_progress, same_status}
use delivery_tracking.Deliveries.Model.{
  Delivery, Vehicle, Field, undefined, null, value, field_or, get_or,
}
use delivery_tracking.Drivers.Model.{
  Driver, CreateDriverDto, UpdateDriverDto, license_exists, vehicle_not_found, vehicle_taken,
  driver_not_found, driver_on_the_road, unique_violation, record_not_found, DriverAction, created,
  updated, deleted, Method,
}
use delivery_tracking.Drivers.History.{History, assign, unassign}

abbrev pub has_license : ℕ → String → Driver → Bool
has_license company_id license d =
    d.company_id == company_id && str_eq d.license_number license && is_none d.deleted_at

abbrev pub is_live_driver : ℕ → ℕ → Driver → Bool
is_live_driver company_id id d = d.id == id && d.company_id == company_id && is_none d.deleted_at

abbrev pub is_fleet_vehicle : ℕ → ℕ → Vehicle → Bool
is_fleet_vehicle company_id id v = v.id == id && v.company_id == company_id && is_none v.deleted_at

abbrev pub drives : ℕ → Driver → Bool
drives vehicle_id d = is_value d.vehicle_id vehicle_id && is_none d.deleted_at

abbrev pub same_vehicle : Option ℕ → Option ℕ → Bool
same_vehicle (some v) (some w) = v == w
same_vehicle (some v) none = false
same_vehicle none w = false

-- The unique indexes of `drivers`: the key, the licence number in a company, and the vehicle. Rows
-- that were deleted softly count.
abbrev pub conflicts : Driver → Driver → Bool
conflicts d r =
    r.company_id == d.company_id && str_eq r.license_number d.license_number
    || same_vehicle r.vehicle_id d.vehicle_id

abbrev pub on_history : History (Unit {0}) → Method (Unit {0})
on_history m db = let (r, h) = m db.history in (r, record db { history = h })

abbrev pub emit : DriverAction → ℕ → Method (Unit {0})
emit action id = modify (λ db. record db { sent = (action, id) ∷ db.sent })

unfoldable pub find_one : ℕ → ℕ → Method Driver
find_one company_id id db =
    or_throw (find? (is_live_driver company_id id) db.drivers) driver_not_found db

unfoldable pub check_vehicle : ℕ → Option ℕ → (Driver → Bool) → Method (Unit {0})
check_vehicle company_id none other db = pure tt db
check_vehicle company_id (some v) other db =
    if is_none (find? (is_fleet_vehicle company_id v) db.vehicles)
    then (err vehicle_not_found, db)
    else throw_if (any (λ d. drives v d && other d) db.drivers) vehicle_taken db

unfoldable pub insert_driver : Driver → Method (Unit {0})
insert_driver d = do
  drivers ← (λ db. (ok db.drivers, db))
  throw_if (any (λ r. r.id == d.id || conflicts d r) drivers) unique_violation
  modify (λ db. record db { drivers = db.drivers ++ d ∷ [] })

-- `tx.driver.update({ where: { id } })`, which an index may refuse.
unfoldable pub update_driver_row : ℕ → (Driver → Driver) → Method Driver
update_driver_row id change db = elim (find? (λ d. d.id == id) db.drivers) [
  | none ↦ (err record_not_found, db)
  | some d ↦
      if any (λ r. not (r.id == id) && conflicts (change d) r) db.drivers
      then (err unique_violation, db)
      else (ok (change d), record db { drivers = update_first (λ r. r.id == id) change db.drivers })
]

-- The history's part of a transaction, by the vehicle that the request names.
unfoldable pub record_assignment : ℕ → ℕ → ℕ → ℕ → Field ℕ → Method (Unit {0})
unfolding assign unassign
record_assignment new_id company_id driver_id now undefined = pure tt
record_assignment new_id company_id driver_id now null = on_history (unassign driver_id now)
record_assignment new_id company_id driver_id now (value v) =
    on_history (assign new_id company_id driver_id v now)

abbrev pub as_field : Option ℕ → Field ℕ
as_field none = undefined
as_field (some v) = value v

-- The transactions of the three requests.
unfoldable pub add_driver : ℕ → ℕ → Driver → Method (Unit {0})
unfolding insert_driver record_assignment
add_driver history_id now d = do
  insert_driver d
  record_assignment history_id d.company_id d.id now (as_field d.vehicle_id)

unfoldable pub move_driver : ℕ → ℕ → ℕ → ℕ → (Driver → Driver) → Field ℕ → Method Driver
unfolding update_driver_row record_assignment
move_driver history_id now company_id id change vehicle_id = do
  row ← update_driver_row id change
  record_assignment history_id company_id id now vehicle_id
  pure row

-- `new_id` and `history_id` are the keys that the database gives.
unfoldable pub create : ℕ → ℕ → ℕ → ℕ → CreateDriverDto → Method Driver
unfolding check_vehicle add_driver
create new_id history_id now company_id dto = do
  drivers ← (λ db. (ok db.drivers, db))
  throw_if (any (has_license company_id dto.license_number) drivers) license_exists
  check_vehicle company_id dto.vehicle_id (λ _. true)
  let d : Driver = record {
    id = new_id;
    company_id = company_id;
    license_number = dto.license_number;
    vehicle_id = dto.vehicle_id;
    deleted_at = none;
  }
  transaction (add_driver history_id now d)
  emit created new_id
  pure d

abbrev pub license_taken : ℕ → ℕ → Option String → List Driver → Bool
license_taken company_id id none drivers = false
license_taken company_id id (some license) drivers =
    if str_eq license "" then false else elim (find? (has_license company_id license) drivers) [
      | none ↦ false
      | some d ↦ not (d.id == id)
    ]

abbrev pub driver_change : UpdateDriverDto → Driver → Driver
driver_change dto d = record d {
  license_number = get_or dto.license_number d.license_number;
  vehicle_id = field_or dto.vehicle_id d.vehicle_id;
}

unfoldable pub update : ℕ → ℕ → ℕ → ℕ → UpdateDriverDto → Method Driver
unfolding find_one check_vehicle move_driver
update history_id now company_id id dto = do
  find_one company_id id
  drivers ← (λ db. (ok db.drivers, db))
  throw_if (license_taken company_id id dto.license_number drivers) license_exists
  check_vehicle company_id (field_or dto.vehicle_id none) (λ d. not (d.id == id))
  d ← transaction (move_driver history_id now company_id id (driver_change dto) dto.vehicle_id)
  emit updated id
  pure d

abbrev pub is_driven_by : ℕ → Delivery → Bool
is_driven_by driver_id d =
    is_value d.driver_id driver_id && same_status d.status in_progress && is_none d.deleted_at

-- `existing?.vehicleId`
abbrev pub vehicle_of : Option Driver → Option ℕ
vehicle_of none = none
vehicle_of (some d) = d.vehicle_id

abbrev pub retired : ℕ → Option ℕ → Driver → Driver
retired now vehicle_id d = record d {
  deleted_at = some now;
  vehicle_id = if is_none vehicle_id then d.vehicle_id else none;
}

abbrev pub freed : Option ℕ → Field ℕ
freed none = undefined
freed (some _) = null

unfoldable pub remove : ℕ → ℕ → ℕ → Method Driver
unfolding find_one move_driver
remove now company_id id = do
  find_one company_id id
  deliveries ← (λ db. (ok db.deliveries, db))
  throw_if (any (is_driven_by id) deliveries) driver_on_the_road
  drivers ← (λ db. (ok db.drivers, db))
  let vehicle_id = vehicle_of (find? (is_live_driver company_id id) drivers)
  d ← transaction (move_driver 0 now company_id id (retired now vehicle_id) (freed vehicle_id))
  emit deleted id
  pure d
