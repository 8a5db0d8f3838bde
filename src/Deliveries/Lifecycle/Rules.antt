-- ===== src/Deliveries/Lifecycle/Rules.antt =====
-- Methods that take a keyed table to one that extends it, wherever they start: a rule for each way
-- to build a method.
use delivery_tracking.Prelude.{
  arith, ◌∷◌, ℕ, refl, Bool, true, false, Option, none, some, pure, throw, or_throw, throw_if, when,
  ◌>>=◌,
}
use delivery_tracking.Deliveries.Status.{DeliveryStatus}
use delivery_tracking.Deliveries.Model.{
  Delivery, Role, UpdateDeliveryStatusDto, Message, Error, Db, Method, Env,
}
use delivery_tracking.Deliveries.Location.{verify_delivery_location}
use delivery_tracking.Deliveries.Service.{
  find_one, insert_row, update_row, send, dispatch_daily_fuel_report_recompute, dispatch_webhook,
}
use delivery_tracking.Deliveries.Edit.{check_vehicle, find_driver, check_driver, announce_driver}
use delivery_tracking.Deliveries.Lifecycle.Next.{IsDated, IsNext, Advances, Advances-same}
use delivery_tracking.Deliveries.Lifecycle.Parts.{
  Advances-bind, Advances-update_row, Advances-insert_row, Advances-verify,
}

pub record Safe {A : Type 0} (m : Method A) : Type 0 where
  pub at : (db : Db) → Advances db (m db).1

module _ {A : Type 0} where
  pub Safe-pure : (a : A) → Safe (pure {E = Error} a)
  Safe-pure a = record { at = λ db. Advances-same db db refl }

  pub Safe-throw : (e : Error) → Safe (throw {A = A} e)
  Safe-throw e = record { at = λ db. Advances-same db db refl }

  pub Safe-or_throw : (o : Option A) (e : Error) → Safe (or_throw o e)
  Safe-or_throw none e = record { at = λ db. Advances-same db db refl }
  Safe-or_throw (some a) e = record { at = λ db. Advances-same db db refl }

pub Safe-bind :
    {A B : Type 0} (m : Method A) (f : A → Method B)
    → Safe m
    → ((a : A) → Safe (f a))
    → Safe (m >>= f)
Safe-bind m f h k = record { at = λ db. Advances-bind m f db (h.at db) (λ a _. (k a).at (m db).1) }

pub Safe-throw_if : (b : Bool) (e : Error) → Safe (throw_if b e)
Safe-throw_if true e = record { at = λ db. Advances-same db db refl }
Safe-throw_if false e = record { at = λ db. Advances-same db db refl }

pub Safe-send : (m : Message) → Safe (send m)
Safe-send m = record { at = λ db. Advances-same db (record db { sent = m ∷ db.sent }) refl }

pub Safe-when : (b : Bool) (m : Method (Unit {0})) → Safe m → Safe (when b m)
Safe-when true m h = record { at = λ db. h.at db }
Safe-when false m h = record { at = λ db. Advances-same db db refl }

pub Safe-find_one :
    (role : Option Role) (user : Option ℕ) (company_id id : ℕ)
    → Safe (find_one role user company_id id)
Safe-find_one role user company_id id = record {
  at = λ db.
      Advances-same db (find_one role user company_id id db).1 (unfold find_one in ground arith);
}

pub Safe-update_row :
    (id : ℕ) (change : Delivery → Delivery)
    → ((d : Delivery) → IsNext d (change d))
    → Safe (update_row id change)
Safe-update_row id change h = record { at = λ db. Advances-update_row id change db (λ d _ _. h d) }

pub Safe-insert_row : (d : Delivery) → IsDated d → Safe (insert_row d)
Safe-insert_row d h = record { at = λ db. Advances-insert_row d db h }

pub Safe-verify :
    (env : Env) (now : ℕ) (d : Delivery) (dto : UpdateDeliveryStatusDto)
    → Safe (verify_delivery_location env now d dto)
Safe-verify env now d dto = record { at = λ db. Advances-verify env now d dto db }

pub Safe-dispatch_daily_fuel_report_recompute :
    (env : Env) (company_id : ℕ) (driver_id : Option ℕ) (status : DeliveryStatus)
    → Safe (dispatch_daily_fuel_report_recompute env company_id driver_id status)
unfolding dispatch_daily_fuel_report_recompute
Safe-dispatch_daily_fuel_report_recompute env company_id none status = Safe-pure tt
Safe-dispatch_daily_fuel_report_recompute env company_id (some d) status =
    search (Safe-when, Safe-send)

pub Safe-dispatch_webhook :
    (now company_id : ℕ) (d : Delivery) (status : DeliveryStatus)
    → Safe (dispatch_webhook now company_id d status)
unfolding dispatch_webhook
Safe-dispatch_webhook now company_id d status = search (Safe-bind, Safe-when, Safe-send)

pub Safe-check_vehicle :
    (company_id : ℕ) (vehicle_id : Option ℕ) → Safe (check_vehicle company_id vehicle_id)
Safe-check_vehicle company_id none = record {
  at = λ db. Advances-same db (check_vehicle company_id none db).1 (unfold check_vehicle in refl);
}
Safe-check_vehicle company_id (some id) = record {
  at = λ db.
      Advances-same db (check_vehicle company_id (some id) db).1
        (unfold check_vehicle in ground arith);
}

pub Safe-find_driver : (company_id id : ℕ) → Safe (find_driver company_id id)
Safe-find_driver company_id id = record {
  at = λ db. Advances-same db (find_driver company_id id db).1 (unfold find_driver in ground arith);
}

pub Safe-check_driver :
    (company_id : ℕ) (driver_id : Option ℕ) → Safe (check_driver company_id driver_id)
unfolding check_driver
Safe-check_driver company_id none = search Safe-pure
Safe-check_driver company_id (some id) = search (Safe-bind, Safe-find_driver, Safe-pure)

pub Safe-announce_driver :
    (company_id id : ℕ) (driver_id : Option ℕ) → Safe (announce_driver company_id id driver_id)
unfolding announce_driver
Safe-announce_driver company_id id none = search Safe-pure
Safe-announce_driver company_id id (some d) = search (Safe-bind, Safe-send)

pub ruleset safe_rules = (
  Safe-pure, Safe-throw, Safe-or_throw, Safe-bind, Safe-throw_if, Safe-send, Safe-when,
  Safe-find_one, Safe-update_row, Safe-insert_row, Safe-verify,
  Safe-dispatch_daily_fuel_report_recompute, Safe-dispatch_webhook, Safe-check_vehicle,
  Safe-find_driver, Safe-check_driver, Safe-announce_driver,
)
