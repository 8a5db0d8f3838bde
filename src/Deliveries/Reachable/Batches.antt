-- ===== src/Deliveries/Reachable/Batches.antt =====
-- The requests on several deliveries, as steps of the table.
use delivery_tracking.Prelude.{
  ℕ, ◌+◌, ◌≡◌, refl, inl, inr, Option, none, some, List, [], ◌∷◌, arith, ok, err, Result, Bool,
  true, false, if◌then◌else◌, ◌>>=◌, Option-cases,
}
use delivery_tracking.Prelude.Table.{Rows, find?}
use delivery_tracking.Deliveries.Status.{DeliveryStatus, in_progress, same_status, terminal-refuses}
use delivery_tracking.Deliveries.Model.{
  Error, driver_not_found, no_driver_provided, unknown_action, delivery_in_progress,
  delivery_not_found, Method, Delivery, Db, Env, Coordinates,
}
use delivery_tracking.Deliveries.Service.{update_row, is_live_in}
use delivery_tracking.Deliveries.Edit.{is_driver_row}
use delivery_tracking.Deliveries.Bulk.{
  BulkActionName, delete, update_status, assign_driver, BulkActionDto, BulkResult, Row, on_tables,
  push_succeeded, push_failed, caught, empty_result, soft_delete, set_driver, write_driver,
  bulk_try, bulk_row, bulk_delete, bulk_status, bulk_driver, bulk_dispatch, bulk_loop, bulk_action,
}
use delivery_tracking.Deliveries.Tour.{
  Trip, write_sequence, optimize_tour, set_sequence, transaction, Stops, tour_of_stops,
  collect_stops,
}
use delivery_tracking.Deliveries.Lifecycle.{
  IsNext, IsNext-refl, keeps-IsNext, Advances, Advances-Rows, Advances-same, Advances-trans, Safe,
  safe_rules, Safe-bind, Safe-update_row,
}
use delivery_tracking.Deliveries.BulkLaws.Matrix.{IsBulkStep, bulk_action-follows_matrix}

IsBulkStep-IsNext :
    (now : ℕ) (to : DeliveryStatus) (d e : Delivery) → IsBulkStep now to d e → IsNext d e
IsBulkStep-IsNext now to d e (inl same) = rw same (IsNext-refl d)
IsBulkStep-IsNext now to d e (inr (valid, made)) = rw made (record {
  same_id = refl;
  same_company = refl;
  frozen = λ t. cc (terminal-refuses d.status to t);
  dated = λ h k. ground arith;
})

Rows-IsNext :
    (now : ℕ) (to : DeliveryStatus) (xs ys : List Delivery)
    → Rows (IsBulkStep now to) xs ys
    → Rows IsNext xs ys
Rows-IsNext now to [] [] h = tt
Rows-IsNext now to [] (y ∷ ys) h = absurd h
Rows-IsNext now to (x ∷ xs) [] h = absurd h
Rows-IsNext now to (x ∷ xs) (y ∷ ys) h =
    (IsBulkStep-IsNext now to x y h.0, Rows-IsNext now to xs ys h.1)

-- A row of the loop that steps the table, with whatever report it starts.
SafeRow : Row (Unit {0}) → Type 0
SafeRow m = (r : BulkResult) (db : Db) → Advances db (m (r, db)).1.1

SafeRow-push_failed : (id : ℕ) (e : Error) → SafeRow (push_failed id e)
unfolding SafeRow
SafeRow-push_failed id e r db = Advances-same db db refl

push_after :
    {A : Type 0} (id : ℕ) (r : BulkResult) (db : Db) (done : Result Error A × Db)
    → Advances db done.1
    → Advances db
        (elim done.0 as (λ _. Result Error (Unit {0}) × (BulkResult × Db)) [
          | ok _ ↦ push_succeeded id (r, done.1)
          | err e ↦ (err e, (r, done.1))
        ]).1.1
push_after id r db (ok _, t) h = h
push_after id r db (err e, t) h = h

SafeRow-on_tables :
    {A : Type 0} (id : ℕ) (m : Method A) → Safe m → SafeRow (on_tables m >>= λ _. push_succeeded id)
unfolding SafeRow
SafeRow-on_tables id m h r db = push_after id r db (m db) (h.at db)

SafeRow-if :
    (b : Bool) (m k : Row (Unit {0})) → SafeRow m → SafeRow k → SafeRow (if b then m else k)
SafeRow-if true m k p q = p
SafeRow-if false m k p q = q

SafeRow-bulk_delete : (now id : ℕ) (d : Delivery) → SafeRow (bulk_delete now id d)
unfolding bulk_delete
SafeRow-bulk_delete now id d =
    SafeRow-if (same_status d.status in_progress) (push_failed id delivery_in_progress)
      (on_tables (update_row id (soft_delete now)) >>= λ _. push_succeeded id)
      (SafeRow-push_failed id delivery_in_progress)
      (SafeRow-on_tables id (update_row id (soft_delete now)) (
        Safe-update_row id (soft_delete now)
          (λ (r : Delivery). keeps-IsNext r (soft_delete now r) refl refl refl refl)))

Safe-write_driver :
    (company_id id driver_id : ℕ) (user_id : Option ℕ)
    → Safe (write_driver company_id id driver_id user_id)
unfolding write_driver
Safe-write_driver company_id id driver_id user_id =
    search
      (
        safe_rules,
        λ (r : Delivery). keeps-IsNext r (set_driver driver_id user_id r) refl refl refl refl,
      )
      depth 9

SafeRow-bulk_driver :
    (company_id id : ℕ) (driver_id : Option ℕ) → SafeRow (bulk_driver company_id id driver_id)
unfolding bulk_driver SafeRow
SafeRow-bulk_driver company_id id none r db = SafeRow-push_failed id no_driver_provided r db
SafeRow-bulk_driver company_id id (some driver_id) r db =
    elim (Option-cases (find? (is_driver_row company_id driver_id) db.drivers)) [
      | inl gone ↦ rw (gone, bulk_driver) (SafeRow-push_failed id driver_not_found r db)
      | inr (driver, found) ↦
          rw (found, bulk_driver)
            (SafeRow-on_tables id (write_driver company_id id driver_id driver.user_id)
              (Safe-write_driver company_id id driver_id driver.user_id) r db)
    ]

SafeRow-bulk_status-none :
    (env : Env) (now company_id id : ℕ) (d : Delivery)
    → SafeRow (bulk_status env now company_id id none d)
unfolding bulk_status
SafeRow-bulk_status-none env now company_id id d = SafeRow-push_failed id unknown_action

-- What an exception leaves is what stood before it.
caught-tables :
    (id : ℕ) (outcome : Result Error (Unit {0})) (w : BulkResult × Db)
    → (caught id outcome w).1 ≡ w.1
caught-tables id (ok _) w = refl
caught-tables id (err e) w = refl

module _ (env : Env) (now company_id : ℕ) (dto : BulkActionDto) (snapshot : List Delivery) where
  SafeRow-bulk_try :
      ((id : ℕ) (d : Delivery) → SafeRow (bulk_dispatch env now company_id dto id dto.action d))
      → (id : ℕ) → SafeRow (bulk_try env now company_id dto snapshot id)
  unfolding bulk_try SafeRow
  SafeRow-bulk_try each id r db = elim (Option-cases (find? (is_live_in company_id id) snapshot)) [
    | inl gone ↦ rw (gone, bulk_try) (SafeRow-push_failed id delivery_not_found r db)
    | inr (d, found) ↦ rw (found, bulk_try) (each id d r db)
  ]

  Advances-bulk_loop :
      ((id : ℕ) → SafeRow (bulk_try env now company_id dto snapshot id))
      → (ids : List ℕ) (w : BulkResult × Db)
      → Advances w.1 (bulk_loop env now company_id dto snapshot ids w).1
  unfolding bulk_loop bulk_row SafeRow
  Advances-bulk_loop each [] w = Advances-same w.1 w.1 refl
  Advances-bulk_loop each (id ∷ ids) w =
      let t = bulk_row env now company_id dto snapshot id w in
      let tried = bulk_try env now company_id dto snapshot id w in
      Advances-trans w.1 t.1 (bulk_loop env now company_id dto snapshot ids t).1
        (rw (caught-tables id tried.0 tried.1) (each id w.0 w.1)) (Advances-bulk_loop each ids t)

module _ (env : Env) (now company_id : ℕ) (dto : BulkActionDto) (db : Db) where
  bulk_by_action :
      (action : BulkActionName) (status : Option DeliveryStatus)
      → dto.action ≡ action
      → dto.status ≡ status
      → Advances db (bulk_action env now company_id dto db).1
  unfolding bulk_action bulk_dispatch
  bulk_by_action delete status a s =
      Advances-bulk_loop env now company_id dto db.deliveries
        (SafeRow-bulk_try env now company_id dto db.deliveries
          (λ id d. rw a (SafeRow-bulk_delete now id d)))
        dto.ids (empty_result, db)
  bulk_by_action assign_driver status a s =
      Advances-bulk_loop env now company_id dto db.deliveries
        (SafeRow-bulk_try env now company_id dto db.deliveries
          (λ id d. rw a (SafeRow-bulk_driver company_id id dto.driver_id)))
        dto.ids (empty_result, db)
  bulk_by_action update_status none a s =
      Advances-bulk_loop env now company_id dto db.deliveries
        (SafeRow-bulk_try env now company_id dto db.deliveries
          (λ id d. rw (a, s) (SafeRow-bulk_status-none env now company_id id d)))
        dto.ids (empty_result, db)
  bulk_by_action update_status (some to) a s =
      Advances-Rows db (bulk_action env now company_id dto db).1 (λ keyed.
        Rows-IsNext now to db.deliveries (bulk_action env now company_id dto db).1.deliveries
          (bulk_action-follows_matrix env now company_id dto to db a s keyed))

  pub Advances-bulk_action : Advances db (bulk_action env now company_id dto db).1
  Advances-bulk_action = bulk_by_action dto.action dto.status refl refl

Safe-write_sequence : (n : ℕ) (ids : List ℕ) → Safe (write_sequence n ids)
unfolding write_sequence
Safe-write_sequence n [] = search safe_rules
Safe-write_sequence n (id ∷ ids) =
    Safe-bind _ _
      (Safe-update_row id (set_sequence (n + 1))
        (λ d. keeps-IsNext d (record d { tour_sequence = some (n + 1) }) refl refl refl refl))
      (λ _. Safe-write_sequence (n + 1) ids)

transaction_result :
    {A : Type 0} (db : Db) (r : Result Error A × Db)
    → Advances db r.1
    → Advances db
        (elim r.0 as (λ _. Result Error A × Db) [ ok a ↦ (ok a, r.1) | err e ↦ (err e, db) ]).1
transaction_result db (ok a, t) h = h
transaction_result db (err e, t) h = Advances-same db db refl

Safe-transaction : {A : Type 0} (m : Method A) → Safe m → Safe (transaction m)
Safe-transaction m h = record { at = λ db. transaction_result db (m db) (h.at db) }

Safe-tour_of_stops :
    (optimize_trip : List Coordinates → Option Trip) (ids : List ℕ) (stops : Stops)
    → Safe (tour_of_stops optimize_trip ids stops)
unfolding tour_of_stops
Safe-tour_of_stops optimize_trip ids stops =
    search (safe_rules, Safe-transaction, Safe-write_sequence) depth 12

pub Advances-optimize_tour :
    (optimize_trip : List Coordinates → Option Trip) (company_id : ℕ) (ids : List ℕ) (db : Db)
    → Advances db (optimize_tour optimize_trip company_id ids db).1
unfolding optimize_tour
Advances-optimize_tour optimize_trip company_id ids db =
    (Safe-tour_of_stops optimize_trip ids (collect_stops company_id db.deliveries ids)).at db
