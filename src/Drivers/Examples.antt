-- ===== src/Drivers/Examples.antt =====
-- The theorems about drivers and their vehicles, at concrete inputs.
use delivery_tracking.Prelude.{ℕ, String, ◌≡◌, refl, Option, none, some, List, [], ◌∷◌, arith}
use delivery_tracking.Prelude.Table.{find?, update_first, update_all}
use delivery_tracking.Deliveries.Model.{Vehicle, value}
use delivery_tracking.Drivers.Model.{Driver, Assignment, CreateDriverDto, UpdateDriverDto, Db}
use delivery_tracking.Drivers.History.{assign}
use delivery_tracking.Drivers.Service.{update, remove}
use delivery_tracking.Drivers.Exclusive.{IsExclusive}
use delivery_tracking.Drivers.Refinement.{vehicle_now, taken_over}
use delivery_tracking.Drivers.Assign.{Implements, assign-Implements}
use delivery_tracking.Drivers.Agreement.{vehicle_in, IsAgreed}
use delivery_tracking.Drivers.Reachable.{
  Request, creates, updates, removes, serve, serve_all, HasNewKeys, serve_all-IsAgreed,
}

abbrev driver : ℕ → String → Option ℕ → Driver
driver id license vehicle_id = record {
  id = id;
  company_id = 7;
  license_number = license;
  vehicle_id = vehicle_id;
  deleted_at = none;
}

abbrev vehicle : ℕ → Vehicle
vehicle id = record { id = id; company_id = 7; deleted_at = none }

abbrev row : ℕ → ℕ → ℕ → Option ℕ → Assignment
row id vehicle_id driver_id unassigned_at = record {
  id = id;
  company_id = 7;
  vehicle_id = vehicle_id;
  driver_id = driver_id;
  assigned_at = 5;
  unassigned_at = unassigned_at;
}

-- Driver 1 has vehicle 10, which driver 2 had before.
abbrev fleet : Db
fleet = record {
  drivers = driver 1 "A" (some 10) ∷ driver 2 "B" none ∷ [];
  vehicles = vehicle 10 ∷ vehicle 11 ∷ [];
  deliveries = [];
  history = row 100 10 2 (some 6) ∷ row 101 10 1 none ∷ [];
  sent = [];
}

fleet-IsExclusive : IsExclusive fleet.history
fleet-IsExclusive = ((refl, tt), ((λ h. absurd (cc h)), (tt, ((λ _. tt), tt))))

fleet-IsAgreed : IsAgreed fleet.drivers fleet.history
unfolding vehicle_now vehicle_in find?
fleet-IsAgreed = record { exclusive = fleet-IsExclusive; same = λ x. ground arith }

-- Driver 2 takes the vehicle of driver 1.
assign-Implements_example :
    Implements
      (assign 102 7 2 10 9 fleet.history)
      (taken_over 2 10 (λ y. vehicle_now y fleet.history))
assign-Implements_example =
    assign-Implements 102 7 2 10 9 fleet.history fleet-IsExclusive (refl, (refl, tt))

abbrev change : UpdateDriverDto
change = record { license_number = none; vehicle_id = value 11 }

-- The update moves driver 1 from one vehicle to the other.
update_works :
    (update 102 9 7 1 change fleet).1.history
    ≡ row 100 10 2 (some 6)
      ∷ row 101 10 1 (some 9)
      ∷ record (row 102 11 1 none) { assigned_at = 9 }
      ∷ []
unfolding update find? update_first
update_works = refl

abbrev newcomer : CreateDriverDto
newcomer = record { license_number = "C"; vehicle_id = some 11 }

-- Driver 1 changes the vehicle and is removed, and driver 3 comes for the vehicle that is free.
abbrev turnover : List Request
turnover = updates 102 9 7 1 change ∷ (removes 10 7 1 ∷ (creates 3 103 11 7 newcomer ∷ []))

turnover-HasNewKeys : HasNewKeys turnover fleet
unfolding serve update remove find? update_first update_all
turnover-HasNewKeys = ((refl, (refl, tt)), (tt, ((refl, (refl, (refl, tt))), tt)))

serve_all-IsAgreed_example :
    IsAgreed (serve_all turnover fleet).drivers (serve_all turnover fleet).history
serve_all-IsAgreed_example = serve_all-IsAgreed turnover fleet fleet-IsAgreed turnover-HasNewKeys
