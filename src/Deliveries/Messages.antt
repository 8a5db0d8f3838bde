-- ===== src/Deliveries/Messages.antt =====
-- What a status change sends out.
use delivery_tracking.Prelude.{
  ℕ, ◌+◌, ◌≡◌, Bool, true, false, Option, List, [], ◌∷◌, arith, ok, is_none, not, ◌&&◌,
}
use delivery_tracking.Deliveries.Status.{delivered, same_status, is_fuel_report_trigger_status}
use delivery_tracking.Deliveries.Model.{
  Delivery, UpdateDeliveryStatusDto, Message, notify, recompute_driver_report, status_changed,
  delivered_event, bus_status, Db, Env,
}
use delivery_tracking.Deliveries.Service.{Checked, commit_status}

abbrev pub is_notification : Message → Bool
is_notification (notify _) = true
is_notification _ = false

abbrev pub is_status_webhook : Message → Bool
is_status_webhook (status_changed _ _ _) = true
is_status_webhook _ = false

abbrev pub is_delivered_webhook : Message → Bool
is_delivered_webhook (delivered_event _ _ _) = true
is_delivered_webhook _ = false

abbrev pub is_fuel_job : Message → Bool
is_fuel_job (recompute_driver_report _ _ _) = true
is_fuel_job _ = false

abbrev pub is_bus_update : Message → Bool
is_bus_update (bus_status _ _ _) = true
is_bus_update _ = false

abbrev pub one_if : Bool → ℕ
one_if true = 1
one_if false = 0

abbrev pub count : (Message → Bool) → List Message → ℕ
count p [] = 0
count p (m ∷ ms) = one_if (p m) + count p ms

-- The messages of `after` are those of `before` and, in number, these more.
pub record HasSent (fuel delivered_webhooks : ℕ) (before after : List Message) : Type 0 where
  pub notifications : count is_notification after ≡ 1 + count is_notification before
  pub status_webhooks : count is_status_webhook after ≡ 1 + count is_status_webhook before
  pub bus_updates : count is_bus_update after ≡ 1 + count is_bus_update before
  pub fuel_jobs : count is_fuel_job after ≡ fuel + count is_fuel_job before
  pub delivered_events :
      count is_delivered_webhook after ≡ delivered_webhooks + count is_delivered_webhook before

module _ (env : Env) (now company_id id : ℕ) (dto : UpdateDeliveryStatusDto)
    (addressee : Delivery → Option ℕ) (c : Checked) (db : Db) where
  -- A status change that is written sends one notification, one `delivery.status_changed` webhook
  -- and one bus update; a `delivery.delivered` webhook exactly for `delivered`; and a fuel report
  -- job exactly for `delivered` or `failed` with a driver and with the queue at hand.
  pub commit_status-HasSent :
      (d : Delivery)
      → (commit_status env now company_id id dto addressee c db).0 ≡ ok d
      → HasSent
          (one_if (
            is_fuel_report_trigger_status dto.status
            && (not (is_none c.delivery.driver_id) && env.queue_available)))
          (one_if (same_status dto.status delivered))
          db.sent
          (commit_status env now company_id id dto addressee c db).1.sent
  unfolding commit_status
  commit_status-HasSent d h = ground arith
