-- ===== src/Drivers/History.antt =====
-- `assign` and `unassign` of
-- backend/src/common/vehicle-assignment/vehicle-assignment-history.service.ts, on the table that the
-- caller's transaction works on.
use delivery_tracking.Prelude.{
  ℕ, ◌==◌, Bool, ◌&&◌, ◌||◌, Option, none, some, List, [], ◌∷◌, ◌++◌, any, is_none, if◌then◌else◌,
  Action, ok, err,
}
use delivery_tracking.Prelude.Table.{find?, update_first, update_all}
use delivery_tracking.Drivers.Model.{Assignment, Error, unique_violation}

abbrev pub History : Type 0 → Type 0
History A = Action (List Assignment) Error A

abbrev pub is_open : Assignment → Bool
is_open a = is_none a.unassigned_at

abbrev pub open_for_vehicle : ℕ → Assignment → Bool
open_for_vehicle vehicle_id a = a.vehicle_id == vehicle_id && is_open a

abbrev pub open_for_driver : ℕ → Assignment → Bool
open_for_driver driver_id a = a.driver_id == driver_id && is_open a

abbrev pub close : ℕ → Assignment → Assignment
close at a = record a { unassigned_at = some at }

-- The key, and the two partial unique indexes of the migration.
abbrev pub clashes : Assignment → Assignment → Bool
clashes a b = is_open b && (b.vehicle_id == a.vehicle_id || b.driver_id == a.driver_id)

unfoldable pub insert_open : Assignment → History (Unit {0})
insert_open a h =
    if any (λ b. b.id == a.id || clashes a b) h
    then (err unique_violation, h)
    else (ok tt, h ++ a ∷ [])

abbrev pub close_found : ℕ → Option Assignment → History (Unit {0})
close_found at none h = (ok tt, h)
close_found at (some r) h = (ok tt, update_first (λ b. b.id == r.id) (close at) h)

-- The rest of `assign`, after the return of the no-op.
unfoldable pub reassign : ℕ → ℕ → ℕ → ℕ → ℕ → Option Assignment → History (Unit {0})
unfolding insert_open
reassign new_id company_id driver_id vehicle_id at current h =
    let h1 = (close_found at current h).1 in
    let h2 = (close_found at (find? (open_for_driver driver_id) h1) h1).1 in
    insert_open
      (record {
        id = new_id;
        company_id = company_id;
        vehicle_id = vehicle_id;
        driver_id = driver_id;
        assigned_at = at;
        unassigned_at = none;
      })
      h2

abbrev pub is_held_by : ℕ → Option Assignment → Bool
is_held_by driver_id none = Bool.false
is_held_by driver_id (some r) = r.driver_id == driver_id

unfoldable pub assign : ℕ → ℕ → ℕ → ℕ → ℕ → History (Unit {0})
unfolding reassign
assign new_id company_id driver_id vehicle_id at h =
    let current = find? (open_for_vehicle vehicle_id) h in
    if is_held_by driver_id current
    then (ok tt, h)
    else reassign new_id company_id driver_id vehicle_id at current h

unfoldable pub unassign : ℕ → ℕ → History (Unit {0})
unassign driver_id at h = (ok tt, update_all (open_for_driver driver_id) (close at) h)
