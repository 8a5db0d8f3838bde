-- ===== src/Deliveries/Model.antt =====
-- The rows that backend/src/modules/deliveries/deliveries.service.ts reads and writes (the models
-- of backend/prisma/schema.prisma), its requests, its exceptions and the messages that it sends.
--
-- An identifier, a coordinate and an instant in milliseconds are numbers; a coordinate is only
-- stored and handed to the distance function of `Env`.
use delivery_tracking.Prelude.{ℕ, String, Bool, Option, none, some, List, Action}
use delivery_tracking.Deliveries.Status.{DeliveryStatus}

pub record Delivery : Type 0 where
  pub id : ℕ
  pub company_id : ℕ
  pub status : DeliveryStatus
  pub title : String
  pub description : Option String
  pub pickup_address : String
  pub pickup_lat : Option ℕ
  pub pickup_lng : Option ℕ
  pub pickup_location_label : Option String
  pub delivery_address : String
  pub delivery_lat : Option ℕ
  pub delivery_lng : Option ℕ
  pub delivery_location_label : Option String
  pub scheduled_date : Option ℕ
  pub completed_at : Option ℕ
  pub delivery_proof_lat : Option ℕ
  pub delivery_proof_lng : Option ℕ
  pub delivery_proof_distance : Option ℕ
  pub delivery_proof_accuracy : Option ℕ
  pub location_mismatch : Bool
  pub mismatch_resolved : Bool
  pub notes : Option String
  pub client_phone : Option String
  pub amount : Option ℕ
  pub article_price : Option ℕ
  pub product_description : Option String
  pub external_order_ref : Option String
  pub tour_sequence : Option ℕ
  pub deleted_at : Option ℕ
  pub vehicle_id : Option ℕ
  pub driver_id : Option ℕ
  pub assigned_driver_id : Option ℕ
  pub client_id : Option ℕ

pub record Vehicle : Type 0 where
  pub id : ℕ
  pub company_id : ℕ
  pub deleted_at : Option ℕ

pub record Driver : Type 0 where
  pub id : ℕ
  pub company_id : ℕ
  pub user_id : Option ℕ
  pub deleted_at : Option ℕ

pub record GpsPosition : Type 0 where
  pub delivery_id : Option ℕ
  pub suspect : Bool
  pub timestamp : ℕ
  pub latitude : ℕ
  pub longitude : ℕ

pub data Role : Type 0 where
  admin dispatcher driver client : Role

-- An optional property of a request: absent, `null`, or a value.
pub data Field (A : Type 0) : Type 0 where
  undefined null : Field A
  value : A → Field A

pub record CreateDeliveryDto : Type 0 where
  pub title : String
  pub description : Option String
  pub status : Option DeliveryStatus
  pub pickup_address : String
  pub pickup_lat : Option ℕ
  pub pickup_lng : Option ℕ
  pub pickup_location_label : Option String
  pub delivery_address : String
  pub delivery_lat : Field ℕ
  pub delivery_lng : Field ℕ
  pub delivery_location_label : Option String
  pub scheduled_date : Option ℕ
  pub notes : Option String
  pub vehicle_id : Option ℕ
  pub driver_id : Option ℕ

pub record UpdateDeliveryDto : Type 0 where
  pub title : Option String
  pub description : Field String
  pub status : Option DeliveryStatus
  pub pickup_address : Option String
  pub pickup_lat : Field ℕ
  pub pickup_lng : Field ℕ
  pub pickup_location_label : Field String
  pub delivery_address : Option String
  pub delivery_lat : Field ℕ
  pub delivery_lng : Field ℕ
  pub delivery_location_label : Field String
  pub scheduled_date : Field ℕ
  pub notes : Field String
  pub vehicle_id : Field ℕ
  pub driver_id : Field ℕ

-- `@IsOptional` lets null pass.
pub record UpdateDeliveryStatusDto : Type 0 where
  pub status : DeliveryStatus
  pub latitude : Field ℕ
  pub longitude : Field ℕ
  pub accuracy : Field ℕ

pub data MismatchReason : Type 0 where
  distance no_coords : MismatchReason

pub record DeliveryMismatchInfo : Type 0 where
  pub mismatched : Bool
  pub reason : Option MismatchReason
  pub distance_meters : ℕ

-- The columns of `proofData`; an absent one is left as it stands.
pub record ProofData : Type 0 where
  pub delivery_proof_lat : Field ℕ
  pub delivery_proof_lng : Field ℕ
  pub delivery_proof_accuracy : Field ℕ
  pub delivery_proof_distance : Option ℕ
  pub location_mismatch : Option Bool
  pub mismatch_resolved : Option Bool

pub data NotificationType : Type 0 where
  delivery_status location_mismatch : NotificationType

pub data NotificationPriority : Type 0 where
  low medium high : NotificationPriority

pub record Notification : Type 0 where
  pub company_id : ℕ
  pub kind : NotificationType
  pub priority : NotificationPriority
  pub delivery_id : ℕ
  pub status : DeliveryStatus
  pub reason : Option MismatchReason
  pub distance_meters : ℕ
  pub user_id : Option ℕ

-- What a request sends out: a job of the queue `fuel-analysis`, a notification, a webhook, or an
-- update on the bus.
pub data Message : Type 0 where
  recompute_driver_report : (company_id driver_id : ℕ) → DeliveryStatus → Message
  notify : Notification → Message
  status_changed : (company_id delivery_id : ℕ) → DeliveryStatus → Message
  delivered_event : (company_id delivery_id completed_at : ℕ) → Message
  driver_assigned : (company_id delivery_id driver_id : ℕ) → Message
  bus_status : (company_id delivery_id : ℕ) → DeliveryStatus → Message
  bus_assigned : (company_id delivery_id driver_id : ℕ) → Message

pub data Error : Type 0 where
  delivery_not_found vehicle_not_found driver_not_found : Error
  terminal_status not_assigned_to_you stale_status record_not_found : Error
  no_driver_provided unknown_action unique_violation routing_failed : Error
  unreadable_file empty_file value_out_of_range : Error
  no_location_mismatch delivery_in_progress too_few_deliveries too_few_coordinates : Error
  transition_refused : (from to : DeliveryStatus) → Error

-- The tables, and the messages sent so far, the newest first.
pub record Db : Type 0 where
  pub deliveries : List Delivery
  pub vehicles : List Vehicle
  pub drivers : List Driver
  pub gps_positions : List GpsPosition
  pub sent : List Message

abbrev pub Method : Type 0 → Type 0
Method A = Action Db Error A

pub record Coordinates : Type 0 where
  pub lat : ℕ
  pub lng : ℕ

-- What the service is given: `geocoding.search` (`none` if it throws), the rounded
-- `haversineDistance`, the number that stands for 0 degrees, which is what null counts as in
-- arithmetic, the two settings of the location check, whether the GPS query throws, and
-- whether the queue is configured and takes the job.
pub record Env : Type 0 where
  pub search : String → Option (List Coordinates)
  pub haversine_distance : ℕ → ℕ → ℕ → ℕ → ℕ
  pub zero_degrees : ℕ
  pub location_mismatch_threshold_m : ℕ
  pub gps_proof_window_min : ℕ
  pub gps_query_fails : Bool
  pub queue_available : Bool

abbrev pub field_or : {A : Type 0} → Field A → Option A → Option A
field_or undefined old = old
field_or null old = none
field_or (value a) old = some a

abbrev pub get_or : {A : Type 0} → Option A → A → A
get_or none old = old
get_or (some a) old = a

abbrev pub override : {A : Type 0} → Option A → Option A → Option A
override none old = old
override (some a) old = some a
