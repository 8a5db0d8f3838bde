-- ===== src/Deliveries/Service.antt =====
-- The requests of backend/src/modules/deliveries/deliveries.service.ts on one delivery. A status
-- change reads the row, checks the proof of location and then writes: the two halves are definitions
-- of their own, since other requests may run between them.
use text.Mathlib.Text.{◌==◌ as str_eq}
use delivery_tracking.Prelude.{
  String, any, ◌++◌, ◌||◌, [], false, ℕ, ◌==◌, Bool, true, not, ◌&&◌, Option, none, some, ◌∷◌,
  is_none, is_value, if◌then◌else◌, ok, err, pure, or_throw, modify, throw_if, when, ◌>>=◌, ◌>>◌,
}
use delivery_tracking.Prelude.Table.{find?, update_first}
use delivery_tracking.Deliveries.Status.{
  DeliveryStatus, in_progress, delivered, failed, same_status, includes, transition_matrix,
  driver_allowed, is_fuel_report_trigger_status,
}
use delivery_tracking.Deliveries.Model.{
  Delivery, Role, client, driver, UpdateDeliveryStatusDto, DeliveryMismatchInfo, location_mismatch,
  delivery_status, low, medium, high, Notification, Message, recompute_driver_report, notify,
  status_changed, delivered_event, bus_status, delivery_not_found, not_assigned_to_you,
  stale_status, unique_violation, record_not_found, no_location_mismatch, delivery_in_progress,
  transition_refused, Method, Env,
}
use delivery_tracking.Deliveries.Location.{Verification, verify_delivery_location, apply_proof}

-- A filter of a `where` clause that is `undefined` filters nothing.
abbrev pub matches_user : Option ℕ → Option ℕ → Bool
matches_user none column = true
matches_user (some user) column = is_value column user

abbrev pub is_visible_to : Option Role → Option ℕ → Delivery → Bool
is_visible_to (some client) user d = matches_user user d.client_id
is_visible_to (some driver) user d = matches_user user d.assigned_driver_id
is_visible_to _ user d = true

abbrev pub is_live_in : ℕ → ℕ → Delivery → Bool
is_live_in company_id id d = d.id == id && d.company_id == company_id && is_none d.deleted_at

unfoldable pub find_one : Option Role → Option ℕ → ℕ → ℕ → Method Delivery
find_one role user company_id id db =
    or_throw (find? (λ d. is_live_in company_id id d && is_visible_to role user d) db.deliveries)
      delivery_not_found db

abbrev pub send : Message → Method (Unit {0})
send m = modify (λ db. record db { sent = m ∷ db.sent })

-- `prisma.delivery.update({ where: { id } })`: it throws where no row is found.
unfoldable pub update_row : ℕ → (Delivery → Delivery) → Method Delivery
update_row id change db = elim (find? (λ d. d.id == id) db.deliveries) [
  | none ↦ (err record_not_found, db)
  | some d ↦ (
    ok (change d),
    record db { deliveries = update_first (λ r. r.id == id) change db.deliveries },
  )
]

-- The unique indexes of the table: the key, and the order reference within a company. A reference that
-- is null conflicts with none, and a row that was deleted softly still counts.
abbrev pub same_reference : Option String → Option String → Bool
same_reference (some a) (some b) = str_eq a b
same_reference (some a) none = false
same_reference none b = false

abbrev pub conflicts : Delivery → Delivery → Bool
conflicts d r =
    r.id == d.id
    || r.company_id == d.company_id && same_reference r.external_order_ref d.external_order_ref

unfoldable pub insert_row : Delivery → Method (Unit {0})
insert_row d db =
    if any (conflicts d) db.deliveries
    then (err unique_violation, db)
    else (ok tt, record db { deliveries = db.deliveries ++ d ∷ [] })

abbrev pub is_at : ℕ → DeliveryStatus → Delivery → Bool
is_at id expected d = d.id == id && same_status d.status expected

unfoldable pub update_with_optimistic_lock :
    ℕ → DeliveryStatus → (Delivery → Delivery) → Method Delivery
update_with_optimistic_lock id expected change db = elim (find? (is_at id expected) db.deliveries) [
  | none ↦ (err stale_status, db)
  | some d ↦ (
    ok (change d),
    record db { deliveries = update_first (is_at id expected) change db.deliveries },
  )
]

-- The job is added if there is a driver; a queue that is not there, or throws, is passed over.
unfoldable pub dispatch_daily_fuel_report_recompute :
    Env → ℕ → Option ℕ → DeliveryStatus → Method (Unit {0})
dispatch_daily_fuel_report_recompute env company_id none status = pure tt
dispatch_daily_fuel_report_recompute env company_id (some driver_id) status =
    when env.queue_available (send (recompute_driver_report company_id driver_id status))

unfoldable pub build_delivery_status_notification :
    ℕ → ℕ → DeliveryStatus → DeliveryMismatchInfo → Option ℕ → Notification
build_delivery_status_notification company_id id status mismatch user_id =
    if mismatch.mismatched
    then record {
      company_id = company_id;
      kind = location_mismatch;
      priority = high;
      delivery_id = id;
      status = status;
      reason = mismatch.reason;
      distance_meters = mismatch.distance_meters;
      user_id = user_id;
    }
    else record {
      company_id = company_id;
      kind = delivery_status;
      priority =
          if same_status status delivered
          then low
          else if same_status status failed
          then high
          else medium;
      delivery_id = id;
      status = status;
      reason = none;
      distance_meters = 0;
      user_id = user_id;
    }

unfoldable pub dispatch_webhook : ℕ → ℕ → Delivery → DeliveryStatus → Method (Unit {0})
dispatch_webhook now company_id d status = do
  send (status_changed company_id d.id status)
  when (same_status status delivered) (send (delivered_event company_id d.id now))

-- The columns that a status change writes.
abbrev pub completed : ℕ → DeliveryStatus → Option ℕ → Option ℕ
completed now status old = if same_status status delivered then some now else old

abbrev pub status_change : ℕ → DeliveryStatus → Verification → Delivery → Delivery
status_change now status v d =
    let e = apply_proof v.proof_data d in
    record e { status = status; completed_at = completed now status e.completed_at }

-- What the first half hands to the second.
pub record Checked : Type 0 where
  pub delivery : Delivery
  pub verification : Verification

-- `updateStatus` and `updateDriverStatus` write and send alike, but for the notification's addressee.
unfoldable pub commit_status :
    Env → ℕ → ℕ → ℕ → UpdateDeliveryStatusDto → (Delivery → Option ℕ) → Checked → Method Delivery
unfolding update_with_optimistic_lock dispatch_daily_fuel_report_recompute
    build_delivery_status_notification dispatch_webhook
commit_status env now company_id id dto addressee c = do
  updated ←
      update_with_optimistic_lock id c.delivery.status (status_change now dto.status c.verification)
  when (is_fuel_report_trigger_status dto.status)
      (dispatch_daily_fuel_report_recompute env company_id c.delivery.driver_id dto.status)
  send (
      notify (
        build_delivery_status_notification company_id id dto.status c.verification.mismatch
          (addressee updated)))
  dispatch_webhook now company_id updated dto.status
  send (bus_status company_id id dto.status)
  pure updated

unfoldable pub check_status : Env → ℕ → ℕ → ℕ → UpdateDeliveryStatusDto → Method Checked
unfolding find_one verify_delivery_location transition_matrix
check_status env now company_id id dto = do
  d ← find_one none none company_id id
  throw_if (not (includes (transition_matrix d.status) dto.status))
      (transition_refused d.status dto.status)
  v ← verify_delivery_location env now d dto
  pure (record { delivery = d; verification = v })

unfoldable pub check_driver_status : Env → ℕ → ℕ → ℕ → ℕ → UpdateDeliveryStatusDto → Method Checked
unfolding find_one verify_delivery_location driver_allowed
check_driver_status env now company_id id user_id dto = do
  d ← find_one none none company_id id
  throw_if (not (is_value d.assigned_driver_id user_id)) not_assigned_to_you
  throw_if (not (includes (driver_allowed d.status) dto.status))
      (transition_refused d.status dto.status)
  v ← verify_delivery_location env now d dto
  pure (record { delivery = d; verification = v })

abbrev pub to_assigned_driver : Delivery → Option ℕ
to_assigned_driver d = d.assigned_driver_id

abbrev pub to_company : Delivery → Option ℕ
to_company d = none

unfoldable pub update_status : Env → ℕ → ℕ → ℕ → UpdateDeliveryStatusDto → Method Delivery
unfolding check_status commit_status
update_status env now company_id id dto = do
  c ← check_status env now company_id id dto
  commit_status env now company_id id dto to_assigned_driver c

unfoldable pub update_driver_status :
    Env → ℕ → ℕ → ℕ → ℕ → UpdateDeliveryStatusDto → Method Delivery
unfolding check_driver_status commit_status
update_driver_status env now company_id id user_id dto = do
  c ← check_driver_status env now company_id id user_id dto
  commit_status env now company_id id dto to_company c

unfoldable pub resolve_mismatch : ℕ → ℕ → Method Delivery
unfolding find_one update_row
resolve_mismatch company_id id = do
  d ← find_one none none company_id id
  throw_if (not d.location_mismatch) no_location_mismatch
  update_row id (λ r. record r { mismatch_resolved = true })

unfoldable pub remove : ℕ → ℕ → ℕ → Method Delivery
unfolding find_one update_row
remove now company_id id = do
  d ← find_one none none company_id id
  throw_if (same_status d.status in_progress) delivery_in_progress
  update_row id (λ r. record r { deleted_at = some now })
