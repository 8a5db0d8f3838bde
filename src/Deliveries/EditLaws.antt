-- ===== src/Deliveries/EditLaws.antt =====
-- What `create` and `update` write.
use delivery_tracking.Prelude.{
  ℕ, ◌==◌, ◌≡◌, ◌≢◌, ◌||◌, refl, inl, inr, true, false, Option, none, some, arith, ok, err,
  Option-cases, Result-cases,
}
use delivery_tracking.Prelude.Table.{find?, find?-holds, find?-update_first}
use delivery_tracking.Deliveries.Status.{
  DeliveryStatus, in_progress, is_terminal, same_status, is_valid_transition, terminal-refuses,
}
use delivery_tracking.Deliveries.Model.{
  Delivery, Driver, CreateDeliveryDto, UpdateDeliveryDto, Db, Env, null, undefined, Field, Error,
}
use delivery_tracking.Deliveries.Service.{update_row, find_one}
use delivery_tracking.Deliveries.Edit.{
  Planned, check_update, commit_update, update_change, create, is_driver_row, new_delivery,
  check_driver, as_option, geocode_new,
}
use delivery_tracking.Deliveries.Lifecycle.{commit_update-deliveries}

-- The account that a driver of the company, who is not deleted, logs in with.
abbrev pub IsAssigned : ℕ → Db → Option ℕ → Option ℕ → Type 0
IsAssigned company_id db none user_id = user_id ≡ none
IsAssigned company_id db (some id) user_id =
    (driver : Driver) × (find? (is_driver_row company_id id) db.drivers ≡ some driver)
    × (user_id ≡ driver.user_id)

module _ (env : Env) (new_id company_id : ℕ) (dto : CreateDeliveryDto) (db : Db) where
  IsAssigned-by_driver :
      (asked : Option ℕ) (user : Field ℕ)
      → (check_driver company_id asked db).0 ≡ ok user
      → IsAssigned company_id db asked (as_option user)
  unfolding check_driver
  IsAssigned-by_driver none user h = ground arith
  IsAssigned-by_driver (some id) user h =
      elim (Option-cases (find? (is_driver_row company_id id) db.drivers)) [
        | inl gone ↦ absurd (ground arith)
        | inr (driver, found) ↦ (driver, found, ground arith)
      ]

  created :
      (d : Delivery) (user : Field ℕ)
      → (create env new_id company_id dto db).0 ≡ ok d
      → (check_driver company_id dto.driver_id db).0 ≡ ok user
      → d ≡ new_delivery new_id company_id dto (geocode_new env dto) (as_option user)
  unfolding create
  created d user h checked = ground arith

  not_created :
      (d : Delivery) (e : Error)
      → (create env new_id company_id dto db).0 ≡ ok d
      → (check_driver company_id dto.driver_id db).0 ≡ err e
      → ⊥
  unfolding create
  not_created d e h refused = ground arith

  -- A delivery that is created is in progress, belongs to the company, has no completion, and is
  -- assigned to the user account of its driver, who is a driver of the company that is not deleted;
  -- with no driver it is assigned to nobody.
  pub create-born :
      (d : Delivery)
      → (create env new_id company_id dto db).0 ≡ ok d
      → (d.status ≡ in_progress)
        × (d.company_id ≡ company_id)
        × (d.completed_at ≡ none)
        × (d.driver_id ≡ dto.driver_id)
        × IsAssigned company_id db dto.driver_id d.assigned_driver_id
  unfolding create
  create-born d h = elim (Result-cases (check_driver company_id dto.driver_id db).0) [
    | inl (user, checked) ↦
        let made = created d user h checked in
        rw made (
          unfold new_delivery in
          (refl, refl, refl, refl, IsAssigned-by_driver dto.driver_id user checked))
    | inr (e, refused) ↦ absurd (not_created d e h refused)
  ]

-- The write of an update reaches the row of the key, whatever has become of its status.
module _ (env : Env) (now company_id id : ℕ) (dto : UpdateDeliveryDto) (p : Planned) (at_write : Db)
    (d : Delivery) where
  commit_update-writes :
      find? (λ r. r.id == id) at_write.deliveries ≡ some d
      → find? (λ r. r.id == id) (commit_update env now company_id id dto p at_write).1.deliveries
        ≡ some (update_change now dto p d)
  unfolding update_row update_change
  commit_update-writes found = rw (commit_update-deliveries env now company_id id dto p at_write) (
      rw (found, update_row)
        (find?-update_first (λ r. r.id == id) (update_change now dto p) at_write.deliveries d found
          (find?-holds (λ r. r.id == id) at_write.deliveries d found)))

null-unassigned :
    (env : Env) (company_id id : ℕ) (dto : UpdateDeliveryDto) (p : Planned) (db : Db)
    → (check_update env company_id id dto db).0 ≡ ok p
    → dto.driver_id ≡ null
    → p.assigned ≡ undefined
unfolding check_update find_one
null-unassigned env company_id id dto p db checked off = ground arith

-- The status that passed the check is that of the row which the check read, or a step of the matrix
-- from it.
checked_step :
    (env : Env) (company_id id : ℕ) (dto : UpdateDeliveryDto) (p : Planned) (db : Db)
    (s : DeliveryStatus)
    → (check_update env company_id id dto db).0 ≡ ok p
    → dto.status ≡ some s
    → (same_status p.delivery.status s || is_valid_transition p.delivery.status s) ≡ true
unfolding check_update find_one is_valid_transition
checked_step env company_id id dto p db s checked asked = ground arith

-- An update that passed its check on a delivery which was still open then, and is written after
-- another request has closed the delivery with another status, takes it out of its terminal status: a
-- change that the matrix refuses, where the check saw none or one that the matrix allows. The write has
-- no lock, unlike that of the status requests.
pub update-leaves_terminal :
    (env : Env) (now company_id id : ℕ) (dto : UpdateDeliveryDto) (before at_write : Db)
    (p : Planned) (d : Delivery) (s : DeliveryStatus)
    → (check_update env company_id id dto before).0 ≡ ok p
    → is_terminal p.delivery.status ≡ false
    → dto.status ≡ some s
    → find? (λ r. r.id == id) at_write.deliveries ≡ some d
    → is_terminal d.status ≡ true
    → s ≢ d.status
    → (e : Delivery) × (find?
          (λ r. r.id == id)
          (commit_update env now company_id id dto p at_write).1.deliveries
        ≡ some e)
      × (e.status ≡ s)
      × (e.status ≢ d.status)
      × (is_valid_transition d.status e.status ≡ false)
      × ((same_status p.delivery.status e.status || is_valid_transition p.delivery.status e.status)
          ≡ true)
update-leaves_terminal env now company_id id dto before at_write p d s checked begun asked found
      closed other =
    let written : (update_change now dto p d).status ≡ s = unfold update_change in rw asked in
    (
      update_change now dto p d,
      commit_update-writes env now company_id id dto p at_write d found,
      written,
      rw written other,
      rw written (terminal-refuses d.status s closed),
      rw written (checked_step env company_id id dto p before s checked asked),
    )

-- An update that takes the driver off a delivery (`driverId: null`) leaves the user account that it
-- was assigned to: the driver who was taken off still passes the test of `updateDriverStatus`.
pub update-null_driver :
    (env : Env) (now company_id id : ℕ) (dto : UpdateDeliveryDto) (p : Planned) (db : Db)
    (d : Delivery)
    → (check_update env company_id id dto db).0 ≡ ok p
    → dto.driver_id ≡ null
    → find? (λ r. r.id == id) db.deliveries ≡ some d
    → (e : Delivery) × (find?
          (λ r. r.id == id)
          (commit_update env now company_id id dto p db).1.deliveries
        ≡ some e)
      × (e.driver_id ≡ none)
      × (e.assigned_driver_id ≡ d.assigned_driver_id)
update-null_driver env now company_id id dto p db d checked off found = (
  update_change now dto p d,
  commit_update-writes env now company_id id dto p db d found,
  unfold update_change in rw off,
  unfold update_change in rw (null-unassigned env company_id id dto p db checked off),
)
