-- ===== src/Deliveries/Transitions.antt =====
-- Which status changes reach the table, whatever other requests did since the status was read.
use delivery_tracking.Prelude.{
  ℕ, ◌≡◌, refl, ◌⊎◌, inl, inr, true, Option, some, arith, ok, Option-cases,
}
use delivery_tracking.Prelude.Table.{find?, find?-holds, Rows, Rows-refl, Rows-update_first}
use delivery_tracking.Deliveries.Status.{
  DeliveryStatus, same_status_iff, is_valid_transition, driver_allowed_lem, is_driver_status,
}
use delivery_tracking.Deliveries.Model.{Delivery, UpdateDeliveryStatusDto, Db, Env}
use delivery_tracking.Deliveries.Location.{Verification}
use delivery_tracking.Deliveries.Service.{
  is_at, update_with_optimistic_lock, status_change, Checked, commit_status, check_status,
  check_driver_status, find_one, to_assigned_driver, to_company,
}

-- A row is as it was, or has made a step of the matrix and carries the proof of location.
abbrev pub IsStep : ℕ → DeliveryStatus → Verification → Delivery → Delivery → Type 0
IsStep now status v d e =
    (e ≡ d) ⊎ ((is_valid_transition d.status status ≡ true) × (e ≡ status_change now status v d))

-- A row that the lock finds has the status that was read.
status-is_at :
    (id : ℕ) (from : DeliveryStatus) (d : Delivery) → is_at id from d ≡ true → d.status ≡ from
status-is_at id from d h = ground (arith, same_status_iff d.status from)

-- The lock writes only at a row that still has the status that was read.
lock-Rows :
    (now id : ℕ) (from to : DeliveryStatus) (v : Verification) (db : Db)
    → is_valid_transition from to ≡ true
    → Rows
        (IsStep now to v)
        db.deliveries
        (update_with_optimistic_lock id from (status_change now to v) db).1.deliveries
unfolding update_with_optimistic_lock
lock-Rows now id from to v db h = elim (Option-cases (find? (is_at id from) db.deliveries)) [
  | inl gone ↦
      rw (gone, update_with_optimistic_lock)
        (Rows-refl (IsStep now to v) (λ x. inl refl) db.deliveries)
  | inr (d, found) ↦
      rw (found, update_with_optimistic_lock)
        (Rows-update_first (IsStep now to v) (λ x. inl refl) (is_at id from)
          (status_change now to v) db.deliveries
          (λ x e.
            inr (
              rw (status-is_at id from x (find?-holds (is_at id from) db.deliveries x e)) h,
              refl,
            )))
]

-- What is sent after the lock does not touch the table.
commit-deliveries :
    (env : Env) (now company_id id : ℕ) (dto : UpdateDeliveryStatusDto)
    (addressee : Delivery → Option ℕ) (c : Checked) (db : Db)
    → (commit_status env now company_id id dto addressee c db).1.deliveries
      ≡ (update_with_optimistic_lock id c.delivery.status
          (status_change now dto.status c.verification)
          db).1.deliveries
unfolding commit_status
commit-deliveries env now company_id id dto addressee c db = ground arith

-- A check that passes has found a step of the matrix, for an administrator and for a driver.
module _ (env : Env) (now company_id id : ℕ) (dto : UpdateDeliveryStatusDto) (db : Db)
    (c : Checked) where
  check_status-valid :
      (check_status env now company_id id dto db).0 ≡ ok c
      → is_valid_transition c.delivery.status dto.status ≡ true
  unfolding check_status is_valid_transition find_one
  check_status-valid h = ground arith

  check_driver_status-valid :
      (user_id : ℕ)
      → (check_driver_status env now company_id id user_id dto db).0 ≡ ok c
      → is_valid_transition c.delivery.status dto.status ≡ true
  unfolding check_driver_status find_one
  check_driver_status-valid user_id h =
      ground (arith, driver_allowed_lem c.delivery.status dto.status)

  check_driver_status-assigned :
      (user_id : ℕ)
      → (check_driver_status env now company_id id user_id dto db).0 ≡ ok c
      → c.delivery.assigned_driver_id ≡ some user_id
  unfolding check_driver_status find_one
  check_driver_status-assigned user_id h = ground arith

  check_driver_status-driver :
      (user_id : ℕ)
      → (check_driver_status env now company_id id user_id dto db).0 ≡ ok c
      → is_driver_status dto.status ≡ true
  unfolding check_driver_status find_one
  check_driver_status-driver user_id h =
      ground (arith, driver_allowed_lem c.delivery.status dto.status)

-- An administrator's status change, checked at one moment and written at another, with the database
-- changed in any way in between: each row stays as it was, or makes a step of the transition matrix
-- from the status that it has at the moment of the write, and takes exactly the columns of the
-- change.
pub update_status-follows_matrix :
    (env : Env) (now company_id id : ℕ) (dto : UpdateDeliveryStatusDto) (before at_write : Db)
    (c : Checked)
    → (check_status env now company_id id dto before).0 ≡ ok c
    → Rows
        (IsStep now dto.status c.verification)
        at_write.deliveries
        (commit_status env now company_id id dto to_assigned_driver c at_write).1.deliveries
update_status-follows_matrix env now company_id id dto before at_write c h =
    rw (commit-deliveries env now company_id id dto to_assigned_driver c at_write) (
      lock-Rows now id c.delivery.status dto.status c.verification at_write
        (check_status-valid env now company_id id dto before c h))

-- The same for a driver, who reaches this point only for a delivery that was assigned to him when
-- it was read, and only with `in_progress`, `delivered` or `failed`.
pub update_driver_status-follows_matrix :
    (env : Env) (now company_id id user_id : ℕ) (dto : UpdateDeliveryStatusDto)
    (before at_write : Db) (c : Checked)
    → (check_driver_status env now company_id id user_id dto before).0 ≡ ok c
    → Rows
        (IsStep now dto.status c.verification)
        at_write.deliveries
        (commit_status env now company_id id dto to_company c at_write).1.deliveries
      × (c.delivery.assigned_driver_id ≡ some user_id)
      × (is_driver_status dto.status ≡ true)
update_driver_status-follows_matrix env now company_id id user_id dto before at_write c h = (
  rw (commit-deliveries env now company_id id dto to_company c at_write) (
      lock-Rows now id c.delivery.status dto.status c.verification at_write
        (check_driver_status-valid env now company_id id dto before c user_id h)),
  check_driver_status-assigned env now company_id id dto before c user_id h,
  check_driver_status-driver env now company_id id dto before c user_id h,
)
