-- ===== src/Drivers/Requests.antt =====
-- The requests of the drivers' service, against the agreement of the rows and the history.
use mathlib.Core.Path.{subst}
use delivery_tracking.Prelude.{
  transaction, ℕ, ◌==◌, ◌≡◌, refl, sym, ap, ◌∙◌, ◌⊎◌, inl, inr, Bool, true, false, not, ◌&&◌, ◌||◌,
  Option, none, some, List, [], ◌∷◌, ◌++◌, ==_iff, any, arith, Bool-cases, Option-cases,
  Result-cases, if◌then◌else◌, ok, err, Result,
}
use delivery_tracking.Prelude.Table.{find?}
use delivery_tracking.Deliveries.Model.{field_or}
use delivery_tracking.Drivers.Model.{
  unique_violation, Driver, Assignment, Error, Db, CreateDriverDto, UpdateDriverDto,
}
use delivery_tracking.Drivers.Service.{
  conflicts, insert_driver, record_assignment, add_driver, move_driver, as_field, vehicle_of,
  find_one, check_vehicle, is_live_driver, driver_change, license_taken, retired, freed,
  has_license, is_driven_by, create, update, remove,
}
use delivery_tracking.Drivers.Agreement.{
  vehicle_in, IsAgreed, moved, HasKey, Agrees, neither, nobody_else, vehicle_in-append,
  record_assignment_lem, transaction-Agrees,
}

-- The two tables are those of the one database or those of the other.
abbrev Either : Db → Db → Db → Type 0
Either db after result =
    ((result.drivers ≡ db.drivers) × (result.history ≡ db.history))
    ⊎ ((result.drivers ≡ after.drivers) × (result.history ≡ after.history))

Either-Agrees :
    (db after result : Db) → Either db after result → Agrees db → Agrees after → Agrees result
Either-Agrees db after result (inl (d, h)) k l = rw (d, h) k
Either-Agrees db after result (inr (d, h)) k l = rw (d, h) l

check_vehicle-state :
    (company_id : ℕ) (v : Option ℕ) (other : Driver → Bool) (db : Db)
    → (check_vehicle company_id v other db).1 ≡ db
unfolding check_vehicle
check_vehicle-state company_id none other db = refl
check_vehicle-state company_id (some v) other db = ground arith

update-Either :
    (history_id now company_id id : ℕ) (dto : UpdateDriverDto) (db : Db)
    → Either db
        (transaction
          (move_driver history_id now company_id id (driver_change dto) dto.vehicle_id)
          db).1
        (update history_id now company_id id dto db).1
unfolding update find_one
update-Either history_id now company_id id dto db =
    let chosen = field_or dto.vehicle_id none in
    let other : Driver → Bool = λ d. not (d.id == id) in
    let state = check_vehicle-state company_id chosen other db in
    elim (Option-cases (find? (is_live_driver company_id id) db.drivers)) [
      | inl gone ↦ inl (ground arith, ground arith)
      | inr (d, found) ↦
          elim (Bool-cases (license_taken company_id id dto.license_number db.drivers)) [
            | inl taken ↦ inl (ground arith, ground arith)
            | inr free ↦ elim (Result-cases (check_vehicle company_id chosen other db).0) [
              | inr (e, refused) ↦ inl (ground (arith, state), ground (arith, state))
              | inl (u, passed) ↦ inr (ground (arith, state), ground (arith, state))
            ]
          ]
    ]

-- An update, with the key of the history's next row being new: the rows of the drivers and the open
-- rows of the history go on naming the same vehicle for every driver, and no vehicle and no driver
-- has two open rows, whatever the request names and however it ends.
pub update-IsAgreed :
    (history_id now company_id id : ℕ) (dto : UpdateDriverDto) (db : Db)
    → IsAgreed db.drivers db.history
    → HasKey dto.vehicle_id history_id db.history
    → IsAgreed
        (update history_id now company_id id dto db).1.drivers
        (update history_id now company_id id dto db).1.history
update-IsAgreed history_id now company_id id dto db agreed fresh =
    Either-Agrees db
      (transaction (move_driver history_id now company_id id (driver_change dto) dto.vehicle_id)
        db).1
      (update history_id now company_id id dto db).1
      (update-Either history_id now company_id id dto db) agreed
      (transaction-Agrees history_id now company_id id (driver_change dto) dto.vehicle_id db
        (λ r. refl) (λ d found. refl) agreed fresh)

remove-Either :
    (now company_id id : ℕ) (db : Db)
    → let v = vehicle_of (find? (is_live_driver company_id id) db.drivers) in
      Either db
        (transaction (move_driver 0 now company_id id (retired now v) (freed v)) db).1
        (remove now company_id id db).1
unfolding remove find_one
remove-Either now company_id id db =
    elim (Option-cases (find? (is_live_driver company_id id) db.drivers)) [
      | inl gone ↦ inl (ground arith, ground arith)
      | inr (d, found) ↦ elim (Bool-cases (any (is_driven_by id) db.deliveries)) [
        | inl busy ↦ inl (ground arith, ground arith)
        | inr free ↦ inr (ground arith, ground arith)
      ]
    ]

freed-HasKey : (v : Option ℕ) (h : List Assignment) → HasKey (freed v) 0 h
freed-HasKey none h = tt
freed-HasKey (some v) h = tt

freed-retired :
    (now : ℕ) (v : Option ℕ) (d : Driver)
    → (retired now v d).vehicle_id ≡ field_or (freed v) d.vehicle_id
freed-retired now none d = refl
freed-retired now (some v) d = refl

-- The removal of a driver keeps the agreement: the driver's open row, if there is one, is closed.
pub remove-IsAgreed :
    (now company_id id : ℕ) (db : Db)
    → IsAgreed db.drivers db.history
    → IsAgreed (remove now company_id id db).1.drivers (remove now company_id id db).1.history
remove-IsAgreed now company_id id db agreed =
    let v = vehicle_of (find? (is_live_driver company_id id) db.drivers) in
    Either-Agrees db (transaction (move_driver 0 now company_id id (retired now v) (freed v)) db).1
      (remove now company_id id db).1 (remove-Either now company_id id db) agreed
      (transaction-Agrees 0 now company_id id (retired now v) (freed v) db (λ r. refl)
        (λ d found. freed-retired now v d) agreed (freed-HasKey v db.history))

no_row :
    (d : Driver) (ds : List Driver)
    → any (λ r. r.id == d.id || conflicts d r) ds ≡ false
    → vehicle_in ds d.id ≡ none
unfolding vehicle_in find?
no_row d [] free = refl
no_row d (r ∷ ds) free =
    let (here, rest) = neither (r.id == d.id || conflicts d r) _ free in
    let (other, _) = neither (r.id == d.id) (conflicts d r) here in
    ground (arith, other, no_row d ds rest)

fewer :
    (d : Driver) (ds : List Driver)
    → any (λ r. r.id == d.id || conflicts d r) ds ≡ false
    → any (λ r. not (r.id == d.id) && conflicts d r) ds ≡ false
fewer d [] free = refl
fewer d (r ∷ ds) free =
    let (here, rest) = neither (r.id == d.id || conflicts d r) _ free in
    let (other, clear) = neither (r.id == d.id) (conflicts d r) here in
    rw (other, clear) (fewer d ds rest)

moved-append :
    (x : ℕ) (d : Driver) (ds : List Driver)
    → any (λ r. r.id == d.id || conflicts d r) ds ≡ false
    → (v : Option ℕ) → d.vehicle_id ≡ v
    → moved (as_field v) d.id (vehicle_in ds) x ≡ (if x == d.id then v else vehicle_in ds x)
moved-append x d ds free none e = elim (Bool-cases (x == d.id)) [
  | inl self ↦ rw self (ap (vehicle_in ds) ((==_iff x d.id).0 self) ∙ no_row d ds free)
  | inr other ↦ rw other refl
]
moved-append x d ds free (some v) e = elim (Bool-cases (x == d.id)) [
  | inl self ↦ rw self refl
  | inr other ↦ rw other (nobody_else d.id v x d ds e (fewer d ds free) other)
]

inserted :
    (d : Driver) (db : Db)
    → any (λ r. r.id == d.id || conflicts d r) db.drivers ≡ false
    → insert_driver d db ≡ (ok tt, record db { drivers = db.drivers ++ d ∷ [] })
unfolding insert_driver
inserted d db free = rw free refl

not_inserted :
    (d : Driver) (db : Db)
    → any (λ r. r.id == d.id || conflicts d r) db.drivers ≡ true
    → insert_driver d db ≡ (err unique_violation, db)
unfolding insert_driver
not_inserted d db taken = rw taken refl

-- The transaction, by how its insert ends.
added :
    (history_id now : ℕ) (d : Driver) (db db1 : Db) (r : Result Error (Unit {0}))
    → insert_driver d db ≡ (r, db1)
    → add_driver history_id now d db ≡ (elim r as (λ _. Result Error (Unit {0}) × Db) [
      | ok _ ↦ record_assignment history_id d.company_id d.id now (as_field d.vehicle_id) db1
      | err e ↦ (err e, db1)
    ])
unfolding add_driver
added history_id now d db db1 r e =
    ap
      (λ t. elim t.0 as (λ _. Result Error (Unit {0}) × Db) [
        | ok _ ↦ record_assignment history_id d.company_id d.id now (as_field d.vehicle_id) t.1
        | err e ↦ (err e, t.1)
      ])
      e

add_driver-Agrees :
    (history_id now : ℕ) (d : Driver) (db : Db)
    → Agrees db
    → HasKey (as_field d.vehicle_id) history_id db.history
    → Agrees (add_driver history_id now d db).1
add_driver-Agrees history_id now d db agreed fresh =
    elim (Bool-cases (any (λ r. r.id == d.id || conflicts d r) db.drivers)) [
      | inl taken ↦
          subst (λ t. Agrees t.1)
            (sym (added history_id now d db db (err unique_violation) (not_inserted d db taken)))
            agreed
      | inr free ↦
          let db1 : Db = record db { drivers = db.drivers ++ d ∷ [] } in
          let (wrote, (kept, (k, told))) =
            record_assignment_lem history_id d.company_id d.id now (as_field d.vehicle_id)
              (vehicle_in db.drivers) db1 agreed.exclusive fresh agreed.same in
          subst (λ t. Agrees t.1) (sym (added history_id now d db db1 (ok tt) (inserted d db free)))
            (record {
              exclusive = k;
              same = λ x.
                  told x
                  ∙ moved-append x d db.drivers free d.vehicle_id refl
                  ∙ sym (vehicle_in-append x d db.drivers free)
                  ∙ ap (λ ds. vehicle_in ds x) (sym kept);
            })
    ]

abbrev pub created_row : ℕ → ℕ → CreateDriverDto → Driver
created_row new_id company_id dto = record {
  id = new_id;
  company_id = company_id;
  license_number = dto.license_number;
  vehicle_id = dto.vehicle_id;
  deleted_at = none;
}

create-Either :
    (new_id history_id now company_id : ℕ) (dto : CreateDriverDto) (db : Db)
    → Either db
        (transaction (add_driver history_id now (created_row new_id company_id dto)) db).1
        (create new_id history_id now company_id dto db).1
unfolding create
create-Either new_id history_id now company_id dto db =
    let other : Driver → Bool = λ _. true in
    let state = check_vehicle-state company_id dto.vehicle_id other db in
    elim (Bool-cases (any (has_license company_id dto.license_number) db.drivers)) [
      | inl taken ↦ inl (ground arith, ground arith)
      | inr free ↦ elim (Result-cases (check_vehicle company_id dto.vehicle_id other db).0) [
        | inr (e, refused) ↦ inl (ground (arith, state), ground (arith, state))
        | inl (u, passed) ↦ inr (ground (arith, state), ground (arith, state))
      ]
    ]

-- The creation of a driver, under keys that are new, keeps the agreement.
pub create-IsAgreed :
    (new_id history_id now company_id : ℕ) (dto : CreateDriverDto) (db : Db)
    → IsAgreed db.drivers db.history
    → HasKey (as_field dto.vehicle_id) history_id db.history
    → IsAgreed
        (create new_id history_id now company_id dto db).1.drivers
        (create new_id history_id now company_id dto db).1.history
create-IsAgreed new_id history_id now company_id dto db agreed fresh =
    let d = created_row new_id company_id dto in
    Either-Agrees db (transaction (add_driver history_id now d) db).1
      (create new_id history_id now company_id dto db).1
      (create-Either new_id history_id now company_id dto db) agreed
      (taken_back (add_driver history_id now d db)
        (add_driver-Agrees history_id now d db agreed fresh))
  where
    taken_back :
        (r : Result Error (Unit {0}) × Db)
        → Agrees r.1
        → Agrees
            (elim r.0 as (λ _. Result Error (Unit {0}) × Db) [
              | ok a ↦ (ok a, r.1)
              | err e ↦ (err e, db)
            ]).1
    taken_back (ok a, t) h = h
    taken_back (err e, t) h = agreed
