-- ===== src/Deliveries/Reachable.antt =====
-- The requests of the deliveries service as one command language:
-- backend/src/modules/deliveries/deliveries.service.ts.
mod Batches
mod Imports
use delivery_tracking.Prelude.{
  ℕ, String, ◌≡◌, refl, Bool, true, false, Option, some, none, List, [], ◌∷◌, All, is_none, arith,
}
use delivery_tracking.Prelude.Table.{Rows}
use delivery_tracking.Deliveries.Status.{DeliveryStatus, is_terminal}
use delivery_tracking.Deliveries.Model.{
  Delivery, CreateDeliveryDto, UpdateDeliveryDto, UpdateDeliveryStatusDto, Db, Env, Coordinates,
}
use delivery_tracking.Deliveries.Service.{
  update_status, update_driver_status, resolve_mismatch, remove,
}
use delivery_tracking.Deliveries.Edit.{create, update}
use delivery_tracking.Deliveries.Bulk.{BulkActionDto, bulk_action}
use delivery_tracking.Deliveries.Tour.{Trip, optimize_tour}
use delivery_tracking.Deliveries.Import.{Mode, RawImportRow, import_deliveries_file}
use delivery_tracking.Deliveries.Lifecycle.{
  IsDated, IsNext, IsNext-refl, IsKeyed, Extends, Extends-IsDated, Advances, Advances-same,
  Advances-trans, Safe-create, Safe-update, Safe-update_status, Safe-update_driver_status,
  Safe-resolve_mismatch, Safe-remove,
}
use Batches.{Advances-bulk_action, Advances-optimize_tour}
use Imports.{Safe-import_deliveries_file}

-- A request, with the instant at which it runs and the keys that the database gives.
pub data Request : Type 0 where
  create_delivery : (new_id company_id : ℕ) → CreateDeliveryDto → Request
  update_delivery : (now company_id id : ℕ) → UpdateDeliveryDto → Request
  change_status : (now company_id id : ℕ) → UpdateDeliveryStatusDto → Request
  change_driver_status : (now company_id id user_id : ℕ) → UpdateDeliveryStatusDto → Request
  resolve : (company_id id : ℕ) → Request
  delete_delivery : (now company_id id : ℕ) → Request
  bulk : (now company_id : ℕ) → BulkActionDto → Request
  optimize : (company_id : ℕ) → List ℕ → Request
  import_file : (ℕ → ℕ) → (company_id : ℕ) → Option (List RawImportRow) → String → Mode → Request

module _ (env : Env) (optimize_trip : List Coordinates → Option Trip) where
  -- The database after a request.
  unfoldable pub serve : Request → Db → Db
  unfolding create update update_status update_driver_status resolve_mismatch remove bulk_action
      optimize_tour import_deliveries_file
  serve (create_delivery new_id company_id dto) db = (create env new_id company_id dto db).1
  serve (update_delivery now company_id id dto) db = (update env now company_id id dto db).1
  serve (change_status now company_id id dto) db = (update_status env now company_id id dto db).1
  serve (change_driver_status now company_id id user_id dto) db =
      (update_driver_status env now company_id id user_id dto db).1
  serve (resolve company_id id) db = (resolve_mismatch company_id id db).1
  serve (delete_delivery now company_id id) db = (remove now company_id id db).1
  serve (bulk now company_id dto) db = (bulk_action env now company_id dto db).1
  serve (optimize company_id ids) db = (optimize_tour optimize_trip company_id ids db).1
  serve (import_file keys company_id rows pickup_address mode) db =
      (import_deliveries_file keys company_id rows pickup_address mode db).1

  unfoldable pub serve_all : List Request → Db → Db
  unfolding serve
  serve_all [] db = db
  serve_all (r ∷ rs) db = serve_all rs (serve r db)

  Advances-serve : (r : Request) (db : Db) → Advances db (serve r db)
  unfolding serve
  Advances-serve (create_delivery new_id company_id dto) db =
      (Safe-create env new_id company_id dto).at db
  Advances-serve (update_delivery now company_id id dto) db =
      (Safe-update env now company_id id dto).at db
  Advances-serve (change_status now company_id id dto) db =
      (Safe-update_status env now company_id id dto).at db
  Advances-serve (change_driver_status now company_id id user_id dto) db =
      (Safe-update_driver_status env now company_id id user_id dto).at db
  Advances-serve (resolve company_id id) db = (Safe-resolve_mismatch company_id id).at db
  Advances-serve (delete_delivery now company_id id) db = (Safe-remove now company_id id).at db
  Advances-serve (bulk now company_id dto) db = Advances-bulk_action env now company_id dto db
  Advances-serve (optimize company_id ids) db =
      Advances-optimize_tour optimize_trip company_id ids db
  Advances-serve (import_file keys company_id rows pickup_address mode) db =
      (Safe-import_deliveries_file keys company_id pickup_address mode rows).at db

  Advances-serve_all : (rs : List Request) (db : Db) → Advances db (serve_all rs db)
  unfolding serve_all
  Advances-serve_all [] db = Advances-same db db refl
  Advances-serve_all (r ∷ rs) db =
      Advances-trans db (serve r db) (serve_all rs (serve r db)) (Advances-serve r db)
        (Advances-serve_all rs (serve r db))

  -- Requests one after the other, of any kind and in any number, from a table whose keys are
  -- distinct: the rows stay in their places with their keys and companies, a row that is delivered,
  -- failed or cancelled keeps its status and its date of completion, new rows come only at the end,
  -- and the keys are distinct again.
  pub serve_all-Extends :
      (rs : List Request) (db : Db)
      → IsKeyed db.deliveries
      → Extends db.deliveries (serve_all rs db).deliveries × IsKeyed (serve_all rs db).deliveries
  serve_all-Extends rs db keyed = Advances-serve_all rs db keyed

  -- If moreover every delivered row has its date of completion, then so it is after the requests.
  pub serve_all-IsDated :
      (rs : List Request) (db : Db)
      → IsKeyed db.deliveries
      → All IsDated db.deliveries
      → All IsDated (serve_all rs db).deliveries
  serve_all-IsDated rs db keyed dated =
      Extends-IsDated db.deliveries (serve_all rs db).deliveries (serve_all-Extends rs db keyed).0
        dated
