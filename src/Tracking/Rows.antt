-- ===== src/Tracking/Rows.antt =====
-- The rows and requests of saveBatch in backend/src/modules/tracking/tracking.service.ts, in the
-- units of Tracking.Fixes. The source text of a location and the constant source of a row are left
-- out.
use delivery_tracking.Prelude.{ℕ, Option, Bool, List}
use delivery_tracking.Deliveries.Model.{Delivery}
use delivery_tracking.Tracking.Fixes.{Distance}
use delivery_tracking.Tracking.Speed.{GroundSpeedRef}
use delivery_tracking.Tracking.Teleport.{TeleportReference}

-- UpdatePositionDto, after its validation.
pub record UpdatePositionDto : Type 0 where
  pub latitude : ℕ
  pub longitude : ℕ
  pub speed : Option ℕ
  pub heading : Option ℕ
  pub altitude : Option ℕ
  pub accuracy : Option ℕ
  pub timestamp : ℕ
  pub delivery_id : Option ℕ
  pub vehicle_id : Option ℕ

-- A position with a vehicle that accepts it, and its delivery if that is verified.
pub record ValidPosition : Type 0 where
  pub latitude : ℕ
  pub longitude : ℕ
  pub speed : Option ℕ
  pub heading : Option ℕ
  pub altitude : Option ℕ
  pub accuracy : Option ℕ
  pub timestamp : ℕ
  pub delivery_id : Option ℕ
  pub vehicle_id : ℕ

pub record GpsPosition : Type 0 where
  pub latitude : ℕ
  pub longitude : ℕ
  pub speed : Option ℕ
  pub heading : Option ℕ
  pub altitude : Option ℕ
  pub accuracy : Option ℕ
  pub suspect : Bool
  pub timestamp : ℕ
  pub company_id : ℕ
  pub delivery_id : Option ℕ
  pub vehicle_id : ℕ
  pub driver_id : Option ℕ

pub record Vehicle : Type 0 where
  pub id : ℕ
  pub company_id : ℕ
  pub deleted_at : Option ℕ
  pub is_active : Bool
  pub is_phone : Bool

pub record Db : Type 0 where
  pub deliveries : List Delivery
  pub vehicles : List Vehicle
  pub positions : List GpsPosition

-- The account, the driver and the company that the positions come from, which a caller may leave out
-- in the source but does not here, whether an identifier has
-- the length of a key, and the distance function.
pub record Sender : Type 0 where
  pub user_id : ℕ
  pub driver_id : ℕ
  pub company_id : ℕ
  pub is_long : ℕ → Bool
  pub distance : Distance

-- The maps `lastPositions` with `lastAccuracy`, and `speedHistory`.
pub record Progress : Type 0 where
  pub last : ℕ → Option TeleportReference
  pub history : ℕ → List GroundSpeedRef
