-- ===== src/Drivers/Model.antt =====
-- The rows that backend/src/modules/drivers/drivers.service.ts reads and writes, its requests and its
-- exceptions. Identifiers and instants are numbers; names, e-mail and telephone are left out.
use delivery_tracking.Prelude.{ℕ, String, Option, List, Action}
use delivery_tracking.Deliveries.Model.{Delivery, Vehicle, Field}

pub record Driver : Type 0 where
  pub id : ℕ
  pub company_id : ℕ
  pub license_number : String
  pub vehicle_id : Option ℕ
  pub deleted_at : Option ℕ

-- A row of `vehicle_assignment_history`, open as long as `unassigned_at` is null.
pub record Assignment : Type 0 where
  pub id : ℕ
  pub company_id : ℕ
  pub vehicle_id : ℕ
  pub driver_id : ℕ
  pub assigned_at : ℕ
  pub unassigned_at : Option ℕ

pub record CreateDriverDto : Type 0 where
  pub license_number : String
  pub vehicle_id : Option ℕ

pub record UpdateDriverDto : Type 0 where
  pub license_number : Option String
  pub vehicle_id : Field ℕ

pub data Error : Type 0 where
  license_exists vehicle_not_found vehicle_taken driver_not_found driver_on_the_road : Error
  unique_violation record_not_found : Error

pub data DriverAction : Type 0 where
  created updated deleted : DriverAction

pub record Db : Type 0 where
  pub drivers : List Driver
  pub vehicles : List Vehicle
  pub deliveries : List Delivery
  pub history : List Assignment
  pub sent : List (DriverAction × ℕ)

abbrev pub Method : Type 0 → Type 0
Method A = Action Db Error A
