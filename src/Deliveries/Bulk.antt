-- ===== src/Deliveries/Bulk.antt =====
-- `bulkAction` of backend/src/modules/deliveries/deliveries.service.ts.
use delivery_tracking.Prelude.{
  ℕ, not, Option, none, some, List, [], ◌∷◌, ◌++◌, ok, err, Result, Action, when, ◌>>◌,
  if◌then◌else◌,
}
use delivery_tracking.Prelude.Table.{find?}
use delivery_tracking.Deliveries.Status.{
  DeliveryStatus, in_progress, same_status, includes, transition_matrix,
  is_fuel_report_trigger_status,
}
use delivery_tracking.Deliveries.Model.{
  Delivery, Error, status_changed, driver_assigned, bus_status, bus_assigned, delivery_not_found,
  no_driver_provided, driver_not_found, unknown_action, delivery_in_progress, transition_refused,
  Db, Method, Env,
}
use delivery_tracking.Deliveries.Service.{
  is_live_in, update_row, send, dispatch_daily_fuel_report_recompute, completed,
}
use delivery_tracking.Deliveries.Edit.{is_driver_row}

pub data BulkActionName : Type 0 where
  delete update_status assign_driver : BulkActionName

pub record BulkActionDto : Type 0 where
  pub ids : List ℕ
  pub action : BulkActionName
  pub status : Option DeliveryStatus
  pub driver_id : Option ℕ

pub record BulkResult : Type 0 where
  pub succeeded : List ℕ
  pub failed : List (ℕ × Error)

abbrev pub soft_delete : ℕ → Delivery → Delivery
soft_delete now d = record d { deleted_at = some now }

abbrev pub set_status : ℕ → DeliveryStatus → Delivery → Delivery
set_status now status d = record d {
  status = status;
  completed_at = completed now status d.completed_at;
}

abbrev pub set_driver : ℕ → Option ℕ → Delivery → Delivery
set_driver driver_id user_id d = record d {
  driver_id = some driver_id;
  assigned_driver_id = user_id;
}

-- The report and the tables, which a row of the loop may change both.
abbrev pub Row : Type 0 → Type 0
Row A = Action (BulkResult × Db) Error A

abbrev pub on_tables : {A : Type 0} → Method A → Row A
on_tables m (r, db) = let (outcome, db') = m db in (outcome, (r, db'))

abbrev pub add_succeeded : ℕ → BulkResult → BulkResult
add_succeeded id r = record r { succeeded = r.succeeded ++ (id ∷ []) }

abbrev pub add_failed : ℕ → Error → BulkResult → BulkResult
add_failed id e r = record r { failed = r.failed ++ ((id, e) ∷ []) }

-- `result.succeeded.push` and `result.failed.push`.
abbrev pub push_succeeded : ℕ → Row (Unit {0})
push_succeeded id (r, db) = (ok tt, (add_succeeded id r, db))

abbrev pub push_failed : ℕ → Error → Row (Unit {0})
push_failed id e (r, db) = (ok tt, (add_failed id e r, db))

-- The branches on a row `d` of the snapshot: a `continue` after a push is the end of a branch.
unfoldable pub bulk_delete : ℕ → ℕ → Delivery → Row (Unit {0})
unfolding update_row
bulk_delete now id d =
    if same_status d.status in_progress
    then push_failed id delivery_in_progress
    else do on_tables (update_row id (soft_delete now)); push_succeeded id

-- The writes and messages of a change of status.
unfoldable pub write_status : Env → ℕ → ℕ → ℕ → DeliveryStatus → Delivery → Method (Unit {0})
unfolding update_row dispatch_daily_fuel_report_recompute
write_status env now company_id id status d = do
  when (is_fuel_report_trigger_status status)
      (dispatch_daily_fuel_report_recompute env company_id d.driver_id status)
  update_row id (set_status now status)
  send (status_changed company_id id status)
  send (bus_status company_id id status)

unfoldable pub bulk_status : Env → ℕ → ℕ → ℕ → Option DeliveryStatus → Delivery → Row (Unit {0})
unfolding write_status transition_matrix
bulk_status env now company_id id none d = push_failed id unknown_action
bulk_status env now company_id id (some status) d =
    if not (includes (transition_matrix d.status) status)
    then push_failed id (transition_refused d.status status)
    else do on_tables (write_status env now company_id id status d); push_succeeded id

unfoldable pub write_driver : ℕ → ℕ → ℕ → Option ℕ → Method (Unit {0})
unfolding update_row
write_driver company_id id driver_id user_id = do
  update_row id (set_driver driver_id user_id)
  send (driver_assigned company_id id driver_id)
  send (bus_assigned company_id id driver_id)

unfoldable pub bulk_driver : ℕ → ℕ → Option ℕ → Row (Unit {0})
unfolding write_driver find?
bulk_driver company_id id none w = push_failed id no_driver_provided w
bulk_driver company_id id (some driver_id) (r, db) =
    elim (find? (is_driver_row company_id driver_id) db.drivers)
      as (λ _. Result Error (Unit {0}) × (BulkResult × Db)) [
        | none ↦ push_failed id driver_not_found (r, db)
        | some driver ↦
            (do on_tables (write_driver company_id id driver_id driver.user_id); push_succeeded id)
              (r, db)
      ]

unfoldable pub bulk_dispatch :
    Env → ℕ → ℕ → BulkActionDto → ℕ → BulkActionName → Delivery → Row (Unit {0})
unfolding bulk_delete bulk_status bulk_driver
bulk_dispatch env now company_id dto id delete d = bulk_delete now id d
bulk_dispatch env now company_id dto id update_status d =
    bulk_status env now company_id id dto.status d
bulk_dispatch env now company_id dto id assign_driver d = bulk_driver company_id id dto.driver_id

-- The body of the `try`.
unfoldable pub bulk_try : Env → ℕ → ℕ → BulkActionDto → List Delivery → ℕ → Row (Unit {0})
unfolding bulk_dispatch find?
bulk_try env now company_id dto snapshot id = elim (find? (is_live_in company_id id) snapshot) [
  | none ↦ push_failed id delivery_not_found
  | some d ↦ bulk_dispatch env now company_id dto id dto.action d
]

-- What was pushed and written before an exception stands, and the handler pushes a failure.
abbrev pub caught : ℕ → Result Error (Unit {0}) → BulkResult × Db → BulkResult × Db
caught id (ok _) w = w
caught id (err e) (r, db) = (add_failed id e r, db)

unfoldable pub bulk_row :
    Env → ℕ → ℕ → BulkActionDto → List Delivery → ℕ → BulkResult × Db → BulkResult × Db
unfolding bulk_try
bulk_row env now company_id dto snapshot id w =
    let (outcome, w') = bulk_try env now company_id dto snapshot id w in caught id outcome w'

unfoldable pub bulk_loop :
    Env → ℕ → ℕ → BulkActionDto → List Delivery → List ℕ → BulkResult × Db → BulkResult × Db
unfolding bulk_row
bulk_loop env now company_id dto snapshot [] w = w
bulk_loop env now company_id dto snapshot (id ∷ ids) w =
    bulk_loop env now company_id dto snapshot ids (bulk_row env now company_id dto snapshot id w)

abbrev pub empty_result : BulkResult
empty_result = record { succeeded = []; failed = [] }

-- The rows are read once, before the loop.
unfoldable pub bulk_action : Env → ℕ → ℕ → BulkActionDto → Db → BulkResult × Db
unfolding bulk_loop
bulk_action env now company_id dto db =
    bulk_loop env now company_id dto db.deliveries dto.ids (empty_result, db)
