-- ===== src/Deliveries/BulkLaws/Pushes.antt =====
-- The entries that the loop of bulkAction, in deliveries.service.ts, pushes to its report.
use delivery_tracking.Prelude.{
  ℕ, ◌+◌, ◌==◌, ◌≡◌, refl, not, ◌⊎◌, inl, inr, Bool, true, false, Option, none, some, List, [], ◌∷◌,
  ◌++◌, arith, ok, err, Result, if◌then◌else◌, ◌>>=◌, Option-cases,
}
use delivery_tracking.Prelude.Table.{find?}
use delivery_tracking.Deliveries.Status.{
  DeliveryStatus, in_progress, same_status, includes, transition_matrix,
}
use delivery_tracking.Deliveries.Model.{
  Delivery, Error, driver_not_found, no_driver_provided, unknown_action, transition_refused,
  delivery_in_progress, delivery_not_found, Db, Env, Method,
}
use delivery_tracking.Deliveries.Service.{is_live_in, update_row}
use delivery_tracking.Deliveries.Edit.{is_driver_row}
use delivery_tracking.Deliveries.Bulk.{
  BulkActionName, delete, update_status, assign_driver, BulkActionDto, BulkResult, Row, on_tables,
  push_succeeded, push_failed, add_succeeded, add_failed, bulk_delete, bulk_status, bulk_driver,
  bulk_dispatch, bulk_try, bulk_row, bulk_loop, write_driver, write_status, soft_delete,
}

abbrev pub occurrences : ℕ → List ℕ → ℕ
occurrences id [] = 0
occurrences id (x ∷ xs) = (if x == id then 1 else 0) + occurrences id xs

abbrev pub failed_ids : List (ℕ × Error) → List ℕ
failed_ids [] = []
failed_ids ((id, _) ∷ r) = id ∷ failed_ids r

-- The entries for an identifier, among those that succeeded and those that failed.
abbrev pub reported : ℕ → BulkResult → ℕ
reported id r = occurrences id r.succeeded + occurrences id (failed_ids r.failed)

occurrences-append :
    (id x : ℕ) (xs : List ℕ)
    → occurrences id (xs ++ x ∷ []) ≡ (if x == id then 1 else 0) + occurrences id xs
occurrences-append id x [] = refl
occurrences-append id x (y ∷ xs) = omega (arith, occurrences-append id x xs)

pub other_entry :
    (id x : ℕ) (xs : List ℕ) → (id == x) ≡ false → occurrences x (xs ++ id ∷ []) ≡ occurrences x xs
other_entry id x [] other = rw other refl
other_entry id x (y ∷ xs) other = rw (other_entry id x xs other) refl

failed_ids-append :
    (id x : ℕ) (e : Error) (xs : List (ℕ × Error))
    → occurrences id (failed_ids (xs ++ (x, e) ∷ []))
      ≡ (if x == id then 1 else 0) + occurrences id (failed_ids xs)
failed_ids-append id x e [] = refl
failed_ids-append id x e (y ∷ xs) = omega (arith, failed_ids-append id x e xs)

-- The body of the `try`, started with the report `r`, returns after one push, or throws before any.
abbrev IsOnePush : ℕ → BulkResult → Result Error (Unit {0}) × (BulkResult × Db) → Type 0
IsOnePush id r (outcome, (after, _)) =
    ((outcome ≡ ok tt)
      × ((after ≡ add_succeeded id r) ⊎ ((e : Error) × (after ≡ add_failed id e r))))
    ⊎ ((e : Error) × (outcome ≡ err e) × (after ≡ r))

abbrev PushesOnce : ℕ → Row (Unit {0}) → Type 0
PushesOnce id m = (r : BulkResult) (db : Db) → IsOnePush id r (m (r, db))

PushesOnce-push_failed : (id : ℕ) (e : Error) → PushesOnce id (push_failed id e)
PushesOnce-push_failed id e r db = inl (refl, inr (e, refl))

push_after :
    {A : Type 0} (id : ℕ) (r : BulkResult) (done : Result Error A × Db)
    → IsOnePush id r (elim done.0 as (λ _. Result Error (Unit {0}) × (BulkResult × Db)) [
      | ok _ ↦ push_succeeded id (r, done.1)
      | err e ↦ (err e, (r, done.1))
    ])
push_after id r (ok _, db) = inl (refl, inl refl)
push_after id r (err e, db) = inr (e, refl, refl)

PushesOnce-on_tables :
    {A : Type 0} (id : ℕ) (m : Method A) → PushesOnce id (on_tables m >>= λ _. push_succeeded id)
PushesOnce-on_tables id m r db = push_after id r (m db)

PushesOnce-if :
    (id : ℕ) (b : Bool) (m k : Row (Unit {0}))
    → PushesOnce id m
    → PushesOnce id k
    → PushesOnce id (if b then m else k)
PushesOnce-if id true m k p q = p
PushesOnce-if id false m k p q = q

PushesOnce-bulk_delete : (now id : ℕ) (d : Delivery) → PushesOnce id (bulk_delete now id d)
unfolding bulk_delete
PushesOnce-bulk_delete now id d =
    PushesOnce-if id (same_status d.status in_progress) (push_failed id delivery_in_progress)
      (on_tables (update_row id (soft_delete now)) >>= λ _. push_succeeded id)
      (PushesOnce-push_failed id delivery_in_progress)
      (PushesOnce-on_tables id (update_row id (soft_delete now)))

PushesOnce-bulk_status :
    (env : Env) (now company_id id : ℕ) (status : Option DeliveryStatus) (d : Delivery)
    → PushesOnce id (bulk_status env now company_id id status d)
unfolding bulk_status
PushesOnce-bulk_status env now company_id id none d = PushesOnce-push_failed id unknown_action
PushesOnce-bulk_status env now company_id id (some status) d =
    let write = write_status env now company_id id status d in
    PushesOnce-if id (not (includes (transition_matrix d.status) status))
      (push_failed id (transition_refused d.status status))
      (on_tables write >>= λ _. push_succeeded id)
      (PushesOnce-push_failed id (transition_refused d.status status))
      (PushesOnce-on_tables id write)

PushesOnce-bulk_driver :
    (company_id id : ℕ) (driver_id : Option ℕ) → PushesOnce id (bulk_driver company_id id driver_id)
unfolding bulk_driver
PushesOnce-bulk_driver company_id id none r db = PushesOnce-push_failed id no_driver_provided r db
PushesOnce-bulk_driver company_id id (some driver_id) r db =
    elim (Option-cases (find? (is_driver_row company_id driver_id) db.drivers)) [
      | inl gone ↦ rw (gone, bulk_driver) (PushesOnce-push_failed id driver_not_found r db)
      | inr (driver, found) ↦
          rw (found, bulk_driver)
            (PushesOnce-on_tables id (write_driver company_id id driver_id driver.user_id) r db)
    ]

module _ (env : Env) (now company_id : ℕ) (dto : BulkActionDto) (snapshot : List Delivery) where
  PushesOnce-bulk_dispatch :
      (id : ℕ) (action : BulkActionName) (d : Delivery)
      → PushesOnce id (bulk_dispatch env now company_id dto id action d)
  unfolding bulk_dispatch
  PushesOnce-bulk_dispatch id delete d = PushesOnce-bulk_delete now id d
  PushesOnce-bulk_dispatch id update_status d =
      PushesOnce-bulk_status env now company_id id dto.status d
  PushesOnce-bulk_dispatch id assign_driver d = PushesOnce-bulk_driver company_id id dto.driver_id

  PushesOnce-bulk_try : (id : ℕ) → PushesOnce id (bulk_try env now company_id dto snapshot id)
  unfolding bulk_try
  PushesOnce-bulk_try id r db = elim (Option-cases (find? (is_live_in company_id id) snapshot)) [
    | inl gone ↦ rw (gone, bulk_try) (PushesOnce-push_failed id delivery_not_found r db)
    | inr (d, found) ↦ rw (found, bulk_try) (PushesOnce-bulk_dispatch id dto.action d r db)
  ]

  -- A row adds one entry, for its identifier.
  pub IsOneMore-bulk_row :
      (id : ℕ) (r : BulkResult) (db : Db)
      → let after = (bulk_row env now company_id dto snapshot id (r, db)).0 in
        (after ≡ add_succeeded id r) ⊎ ((e : Error) × (after ≡ add_failed id e r))
  unfolding bulk_row
  IsOneMore-bulk_row id r db = elim (PushesOnce-bulk_try id r db) [
    | inl (returned, pushed) ↦ rw returned pushed
    | inr (e, thrown, same) ↦ inr (e, rw (thrown, same) refl)
  ]

  reported-bulk_row :
      (x id : ℕ) (r : BulkResult) (db : Db)
      → reported x (bulk_row env now company_id dto snapshot id (r, db)).0
        ≡ (if id == x then 1 else 0) + reported x r
  reported-bulk_row x id r db = elim (IsOneMore-bulk_row id r db) [
    | inl e ↦ rw e (omega (arith, occurrences-append x id r.succeeded))
    | inr (reason, e) ↦ rw e (omega (arith, failed_ids-append x id reason r.failed))
  ]

  pub reported-bulk_loop :
      (x : ℕ) (ids : List ℕ) (w : BulkResult × Db)
      → reported x (bulk_loop env now company_id dto snapshot ids w).0
        ≡ occurrences x ids + reported x w.0
  unfolding bulk_loop
  reported-bulk_loop x [] w = omega arith
  reported-bulk_loop x (id ∷ ids) w = omega (
    arith,
    reported-bulk_loop x ids (bulk_row env now company_id dto snapshot id w),
    reported-bulk_row x id w.0 w.1,
  )
