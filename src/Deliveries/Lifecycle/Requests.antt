-- ===== src/Deliveries/Lifecycle/Requests.antt =====
-- Each request on one delivery, as a step of the table.
use mathlib.Core.Path.{subst}
use delivery_tracking.Prelude.{
  ℕ, ◌==◌, ◌≡◌, refl, inl, inr, true, false, Option, none, some, List, [], ◌∷◌, arith, ok,
  Bool-cases,
}
use delivery_tracking.Prelude.Table.{find?, Rows}
use delivery_tracking.Deliveries.Status.{
  DeliveryStatus, same_status_iff, is_valid_transition, terminal-refuses,
}
use delivery_tracking.Deliveries.Model.{
  terminal_status, Delivery, Coordinates, CreateDeliveryDto, UpdateDeliveryDto,
  UpdateDeliveryStatusDto, Db, Env, get_or,
}
use delivery_tracking.Deliveries.Location.{Verification}
use delivery_tracking.Deliveries.Service.{
  find_one, is_live_in, update_row, check_status, check_driver_status, commit_status, update_status,
  update_driver_status, resolve_mismatch, remove, to_company, to_assigned_driver,
}
use delivery_tracking.Deliveries.Edit.{
  insert_delivery, as_option, is_terminal_request, geocode_new, create, Planned, check_update,
  commit_update, update, update_change, changes_status, new_delivery,
}
use delivery_tracking.Deliveries.Transitions.{
  IsStep, update_status-follows_matrix, update_driver_status-follows_matrix,
}
use delivery_tracking.Deliveries.Lifecycle.Next.{
  IsDated, IsNext, Advances, Advances-Rows, Advances-cong, find?-key,
}
use delivery_tracking.Deliveries.Lifecycle.Rules.{
  Safe, safe_rules, Safe-bind, Safe-check_vehicle, Safe-check_driver, Safe-throw_if,
}
use delivery_tracking.Deliveries.Lifecycle.Parts.{Advances-bind, Advances-update_row, IsStep-IsNext}

-- A change of columns other than the key, the company, the status and the date of completion.
pub keeps-IsNext :
    (d e : Delivery)
    → e.id ≡ d.id
    → e.company_id ≡ d.company_id
    → e.status ≡ d.status
    → e.completed_at ≡ d.completed_at
    → IsNext d e
keeps-IsNext d e i c s t = record {
  same_id = i;
  same_company = c;
  frozen = λ _. (s, t);
  dated = λ h k. rw t (h (cc (s, k)));
}

Rows-IsNext :
    (now : ℕ) (to : DeliveryStatus) (v : Verification) (xs ys : List Delivery)
    → Rows (IsStep now to v) xs ys
    → Rows IsNext xs ys
Rows-IsNext now to v [] [] h = tt
Rows-IsNext now to v [] (y ∷ ys) h = absurd h
Rows-IsNext now to v (x ∷ xs) [] h = absurd h
Rows-IsNext now to v (x ∷ xs) (y ∷ ys) h =
    (IsStep-IsNext now to v x y h.0, Rows-IsNext now to v xs ys h.1)

pub Safe-remove : (now company_id id : ℕ) → Safe (remove now company_id id)
unfolding remove
Safe-remove now company_id id = search (
  safe_rules,
  λ (d : Delivery). keeps-IsNext d (record d { deleted_at = some now }) refl refl refl refl,
)

pub Safe-resolve_mismatch : (company_id id : ℕ) → Safe (resolve_mismatch company_id id)
unfolding resolve_mismatch
Safe-resolve_mismatch company_id id = search (
  safe_rules,
  λ (d : Delivery). keeps-IsNext d (record d { mismatch_resolved = true }) refl refl refl refl,
)

Safe-check_status :
    (env : Env) (now company_id id : ℕ) (dto : UpdateDeliveryStatusDto)
    → Safe (check_status env now company_id id dto)
unfolding check_status
Safe-check_status env now company_id id dto = search safe_rules

Safe-check_driver_status :
    (env : Env) (now company_id id user_id : ℕ) (dto : UpdateDeliveryStatusDto)
    → Safe (check_driver_status env now company_id id user_id dto)
unfolding check_driver_status
Safe-check_driver_status env now company_id id user_id dto = search safe_rules depth 8

pub Safe-update_status :
    (env : Env) (now company_id id : ℕ) (dto : UpdateDeliveryStatusDto)
    → Safe (update_status env now company_id id dto)
unfolding update_status
Safe-update_status env now company_id id dto = record {
  at = λ db.
      Advances-bind (check_status env now company_id id dto)
        (commit_status env now company_id id dto to_assigned_driver) db
        ((Safe-check_status env now company_id id dto).at db)
        (λ c h.
          let t = (check_status env now company_id id dto db).1 in
          Advances-Rows t (commit_status env now company_id id dto to_assigned_driver c t).1 (λ _.
            Rows-IsNext now dto.status c.verification t.deliveries
              (commit_status env now company_id id dto to_assigned_driver c t).1.deliveries
              (update_status-follows_matrix env now company_id id dto db t c h)));
}

pub Safe-update_driver_status :
    (env : Env) (now company_id id user_id : ℕ) (dto : UpdateDeliveryStatusDto)
    → Safe (update_driver_status env now company_id id user_id dto)
unfolding update_driver_status
Safe-update_driver_status env now company_id id user_id dto = record {
  at = λ db.
      Advances-bind (check_driver_status env now company_id id user_id dto)
        (commit_status env now company_id id dto to_company) db
        ((Safe-check_driver_status env now company_id id user_id dto).at db)
        (λ c h.
          let t = (check_driver_status env now company_id id user_id dto db).1 in
          Advances-Rows t (commit_status env now company_id id dto to_company c t).1 (λ _.
            Rows-IsNext now dto.status c.verification t.deliveries
              (commit_status env now company_id id dto to_company c t).1.deliveries
              (update_driver_status-follows_matrix env now company_id id user_id dto db t c h).0));
}

new_delivery-IsDated :
    (new_id company_id : ℕ) (dto : CreateDeliveryDto) (found : Option Coordinates) (user : Option ℕ)
    → IsDated (new_delivery new_id company_id dto found user)
unfolding new_delivery
new_delivery-IsDated new_id company_id dto found user h = cc

Safe-insert_delivery :
    (company_id : ℕ) (d : Delivery) → IsDated d → Safe (insert_delivery company_id d)
unfolding insert_delivery
Safe-insert_delivery company_id d h = search safe_rules

pub Safe-create :
    (env : Env) (new_id company_id : ℕ) (dto : CreateDeliveryDto)
    → Safe (create env new_id company_id dto)
unfolding create
Safe-create env new_id company_id dto =
    Safe-bind _ _ (Safe-check_vehicle company_id dto.vehicle_id) λ _.
      Safe-bind _ _ (Safe-check_driver company_id dto.driver_id) λ user.
        Safe-bind _ _ (Safe-throw_if (is_terminal_request dto.status) terminal_status) λ _.
          Safe-insert_delivery company_id
            (new_delivery new_id company_id dto (geocode_new env dto) (as_option user))
            (new_delivery-IsDated new_id company_id dto (geocode_new env dto) (as_option user))

Safe-check_update :
    (env : Env) (company_id id : ℕ) (dto : UpdateDeliveryDto)
    → Safe (check_update env company_id id dto)
unfolding check_update
Safe-check_update env company_id id dto = search safe_rules depth 9

-- A check of an update that passes changes nothing, has found the row, and allows its new status.
module _ (env : Env) (company_id id : ℕ) (dto : UpdateDeliveryDto) (db : Db) (p : Planned) where
  check_update-found :
      (check_update env company_id id dto db).0 ≡ ok p
      → find? (is_live_in company_id id) db.deliveries ≡ some p.delivery
  unfolding check_update find_one
  check_update-found h = ground arith

  check_update-same :
      (check_update env company_id id dto db).0 ≡ ok p
      → (check_update env company_id id dto db).1 ≡ db
  unfolding check_update find_one
  check_update-same h = ground arith

  check_update-valid :
      (check_update env company_id id dto db).0 ≡ ok p
      → changes_status dto.status p.delivery.status ≡ true
      → is_valid_transition p.delivery.status (get_or dto.status p.delivery.status) ≡ true
  unfolding check_update is_valid_transition find_one
  check_update-valid h k = ground arith

unchanged_status :
    (asked : Option DeliveryStatus) (s : DeliveryStatus)
    → changes_status asked s ≡ false
    → get_or asked s ≡ s
unchanged_status none s h = refl
unchanged_status (some t) s h = ground (arith, same_status_iff t s)

-- What `update` writes to the row that it has read.
update_change-IsNext :
    (now : ℕ) (dto : UpdateDeliveryDto) (p : Planned)
    → (changes_status dto.status p.delivery.status ≡ true
        → is_valid_transition p.delivery.status (get_or dto.status p.delivery.status) ≡ true)
    → IsNext p.delivery (update_change now dto p p.delivery)
unfolding update_change
update_change-IsNext now dto p valid =
    elim (Bool-cases (changes_status dto.status p.delivery.status)) [
      | inr same ↦
          keeps-IsNext p.delivery (update_change now dto p p.delivery) refl refl
            (unchanged_status dto.status p.delivery.status same) (rw same)
      | inl other ↦ record {
        same_id = refl;
        same_company = refl;
        frozen = λ t. cc (
          valid other,
          terminal-refuses p.delivery.status (get_or dto.status p.delivery.status) t,
        );
        dated = λ h k. rw (other, k);
      }
    ]

pub commit_update-deliveries :
    (env : Env) (now company_id id : ℕ) (dto : UpdateDeliveryDto) (p : Planned) (db : Db)
    → (commit_update env now company_id id dto p db).1.deliveries
      ≡ (update_row id (update_change now dto p) db).1.deliveries
unfolding commit_update
commit_update-deliveries env now company_id id dto p db = ground arith

pub live-key :
    (company_id id : ℕ) (d : Delivery) → is_live_in company_id id d ≡ true → (d.id == id) ≡ true
live-key company_id id d h = ground arith

pub same_row : (o : Option Delivery) (a b : Delivery) → o ≡ some a → o ≡ some b → a ≡ b
same_row o a b h k = cc

-- With nothing in between, the row that is written is the row that was read.
Advances-commit_update :
    (env : Env) (now company_id id : ℕ) (dto : UpdateDeliveryDto) (db : Db) (p : Planned)
    → (check_update env company_id id dto db).0 ≡ ok p
    → Advances db (commit_update env now company_id id dto p db).1
Advances-commit_update env now company_id id dto db p h =
    Advances-cong db (update_row id (update_change now dto p) db).1
      (commit_update env now company_id id dto p db).1
      (commit_update-deliveries env now company_id id dto p db)
      (Advances-update_row id (update_change now dto p) db (λ d keyed found.
        subst (λ x. IsNext x (update_change now dto p x))
          (same_row (find? (λ r. r.id == id) db.deliveries) p.delivery d
            (find?-key id (is_live_in company_id id) db.deliveries p.delivery
              (live-key company_id id) keyed (check_update-found env company_id id dto db p h))
            found)
          (update_change-IsNext now dto p (check_update-valid env company_id id dto db p h))))

pub Safe-update :
    (env : Env) (now company_id id : ℕ) (dto : UpdateDeliveryDto)
    → Safe (update env now company_id id dto)
unfolding update
Safe-update env now company_id id dto = record {
  at = λ db.
      Advances-bind (check_update env company_id id dto) (commit_update env now company_id id dto)
        db ((Safe-check_update env company_id id dto).at db)
        (λ p h.
          rw (check_update-same env company_id id dto db p h)
            (Advances-commit_update env now company_id id dto db p h));
}
