-- ===== src/Drivers/Agreement.antt =====
-- When a driver's row and the history name the same vehicle.
use mathlib.Core.Path.{subst}
use delivery_tracking.Prelude.{
  transaction, ℕ, ◌==◌, ◌≡◌, refl, sym, ap, ◌∙◌, inl, inr, Bool, true, false, not, ◌&&◌, ◌||◌,
  Option, none, some, List, [], ◌∷◌, ◌++◌, ==_iff, any, arith, Bool-cases, Option-cases,
  Result-cases, if◌then◌else◌, ok, err, Result,
}
use delivery_tracking.Prelude.Table.{find?, update_first}
use delivery_tracking.Deliveries.Model.{Field, undefined, null, value, field_or}
use delivery_tracking.Drivers.Model.{Driver, Assignment, Error, Db}
use delivery_tracking.Drivers.Service.{
  conflicts, update_driver_row, record_assignment, move_driver, vehicle_of,
}
use delivery_tracking.Drivers.Exclusive.{IsExclusive, IsFreshKey}
use delivery_tracking.Drivers.Refinement.{vehicle_now, without_vehicle, taken_over, set_free}
use delivery_tracking.Drivers.Assign.{assign-Implements, unassign-Implements}

unfoldable pub vehicle_in : List Driver → ℕ → Option ℕ
vehicle_in ds x = vehicle_of (find? (λ d. d.id == x) ds)

-- The history is exclusive, and the two tables name the same vehicle for every driver.
pub record IsAgreed (ds : List Driver) (h : List Assignment) : Type 0 where
  pub exclusive : IsExclusive h
  pub same : (x : ℕ) → vehicle_now x h ≡ vehicle_in ds x

abbrev pub moved : Field ℕ → ℕ → (ℕ → Option ℕ) → ℕ → Option ℕ
moved undefined id m x = m x
moved null id m x = set_free id m x
moved (value v) id m x = taken_over id v m x

-- The history wants a new key where it gets a row.
abbrev pub HasKey : Field ℕ → ℕ → List Assignment → Type 0
HasKey undefined history_id h = Unit
HasKey null history_id h = Unit
HasKey (value _) history_id h = IsFreshKey history_id h

pub neither : (a b : Bool) → (a || b) ≡ false → (a ≡ false) × (b ≡ false)
neither a b h = (ground arith, ground arith)

vehicle_in-update :
    (id x : ℕ) (f : Driver → Driver) (ds : List Driver) (d : Driver)
    → ((r : Driver) → (f r).id ≡ r.id)
    → find? (λ r. r.id == id) ds ≡ some d
    → vehicle_in (update_first (λ r. r.id == id) f ds) x
      ≡ (if x == id then (f d).vehicle_id else vehicle_in ds x)
unfolding vehicle_in find? update_first
vehicle_in-update id x f [] d same found = absurd (cc found)
vehicle_in-update id x f (r ∷ ds) d same found = elim (Bool-cases (r.id == id)) [
  | inl t ↦ ground (arith, t, found, same r)
  | inr other ↦ ground (arith, other, vehicle_in-update id x f ds d same (rw other at found))
]

pub nobody_else :
    (id v x : ℕ) (d : Driver) (ds : List Driver)
    → d.vehicle_id ≡ some v
    → any (λ r. not (r.id == id) && conflicts d r) ds ≡ false
    → (x == id) ≡ false
    → without_vehicle v (vehicle_in ds x) ≡ vehicle_in ds x
unfolding vehicle_in find?
nobody_else id v x d [] e free ne = refl
nobody_else id v x d (r ∷ ds) e free ne =
    let (here, rest) = neither (not (r.id == id) && conflicts d r) _ free in
    ground (arith, e, here, ne, nobody_else id v x d ds e rest ne)

pub vehicle_in-append :
    (x : ℕ) (d : Driver) (ds : List Driver)
    → any (λ r. r.id == d.id || conflicts d r) ds ≡ false
    → vehicle_in (ds ++ d ∷ []) x ≡ (if x == d.id then d.vehicle_id else vehicle_in ds x)
unfolding vehicle_in find?
vehicle_in-append x d [] free = ground arith
vehicle_in-append x d (r ∷ ds) free =
    let (here, rest) = neither (r.id == d.id || conflicts d r) _ free in
    let (other, _) = neither (r.id == d.id) (conflicts d r) here in
    ground (arith, other, vehicle_in-append x d ds rest)

-- The history's part of a transaction, in a database whose history agrees with the map `m`.
pub record_assignment_lem :
    (history_id company_id id now : ℕ) (field : Field ℕ) (m : ℕ → Option ℕ) (db : Db)
    → IsExclusive db.history
    → HasKey field history_id db.history
    → ((x : ℕ) → vehicle_now x db.history ≡ m x)
    → ((record_assignment history_id company_id id now field db).0 ≡ ok tt)
      × (((record_assignment history_id company_id id now field db).1.drivers ≡ db.drivers)
          × (IsExclusive (record_assignment history_id company_id id now field db).1.history
              × ((x : ℕ)
                  → vehicle_now x
                      (record_assignment history_id company_id id now field db).1.history
                    ≡ moved field id m x)))
unfolding record_assignment
record_assignment_lem history_id company_id id now undefined m db k fresh same =
    (refl, (refl, (k, same)))
record_assignment_lem history_id company_id id now null m db k fresh same =
    let (done, (k', as_told)) = unassign-Implements id now db.history k in
    (done, (refl, (k', λ x. as_told x ∙ ap (λ o. if x == id then none else o) (same x))))
record_assignment_lem history_id company_id id now (value v) m db k fresh same =
    let (done, (k', as_told)) =
      assign-Implements history_id company_id id v now db.history k fresh in
    (
      done,
      (
        refl,
        (k', λ x. as_told x ∙ ap (λ o. if x == id then some v else without_vehicle v o) (same x)),
      ),
    )

-- The row's part of a transaction.
update_driver_row_lem :
    (id : ℕ) (change : Driver → Driver) (db : Db) (row : Driver)
    → (update_driver_row id change db).0 ≡ ok row
    → (d : Driver) × ((find? (λ r. r.id == id) db.drivers ≡ some d)
        × ((row ≡ change d)
            × ((any (λ r. not (r.id == id) && conflicts (change d) r) db.drivers ≡ false)
                × ((update_driver_row id change db).1
                    ≡ record db { drivers = update_first (λ r. r.id == id) change db.drivers }))))
unfolding update_driver_row
update_driver_row_lem id change db row h =
    elim (Option-cases (find? (λ r. r.id == id) db.drivers)) [
      | inl gone ↦ absurd (ground arith)
      | inr (d, found) ↦
          elim (Bool-cases (any (λ r. not (r.id == id) && conflicts (change d) r) db.drivers)) [
            | inl taken ↦ absurd (ground arith)
            | inr free ↦ (d, (found, (ground arith, (free, ground arith))))
          ]
    ]

-- The map of the changed rows is the map as the field tells.
moved-vehicle_in :
    (id x : ℕ) (field : Field ℕ) (change : Driver → Driver) (ds : List Driver) (d : Driver)
    → ((r : Driver) → (change r).id ≡ r.id)
    → (change d).vehicle_id ≡ field_or field d.vehicle_id
    → find? (λ r. r.id == id) ds ≡ some d
    → any (λ r. not (r.id == id) && conflicts (change d) r) ds ≡ false
    → moved field id (vehicle_in ds) x ≡ vehicle_in (update_first (λ r. r.id == id) change ds) x
moved-vehicle_in id x field change ds d keeps becomes found free =
    by_field field becomes ∙ sym (vehicle_in-update id x change ds d keeps found)
  where
    of_found : vehicle_in ds id ≡ d.vehicle_id
    of_found = unfold vehicle_in in rw found refl

    at_id : (x == id) ≡ true → vehicle_in ds x ≡ d.vehicle_id
    at_id self = ap (vehicle_in ds) ((==_iff x id).0 self) ∙ of_found

    by_field :
        (field : Field ℕ)
        → (change d).vehicle_id ≡ field_or field d.vehicle_id
        → moved field id (vehicle_in ds) x
          ≡ (if x == id then (change d).vehicle_id else vehicle_in ds x)
    by_field undefined e = elim (Bool-cases (x == id)) [
      | inl self ↦ rw self (at_id self ∙ sym e)
      | inr other ↦ rw other refl
    ]
    by_field null e = ap (λ o. if x == id then o else vehicle_in ds x) (sym e)
    by_field (value v) e = elim (Bool-cases (x == id)) [
      | inl self ↦ rw self (sym e)
      | inr other ↦ rw other (nobody_else id v x (change d) ds e free other)
    ]

abbrev pub Agrees : Db → Type 0
Agrees db = IsAgreed db.drivers db.history

moved_on :
    (history_id now company_id id : ℕ) (change : Driver → Driver) (field : Field ℕ) (db db1 : Db)
    (row : Driver)
    → update_driver_row id change db ≡ (ok row, db1)
    → (record_assignment history_id company_id id now field db1).0 ≡ ok tt
    → move_driver history_id now company_id id change field db
      ≡ (ok row, (record_assignment history_id company_id id now field db1).1)
unfolding move_driver
moved_on history_id now company_id id change field db db1 row done wrote =
    ground (arith, done, wrote)

move_driver-Agrees :
    (history_id now company_id id : ℕ) (change : Driver → Driver) (field : Field ℕ) (db : Db)
    → ((r : Driver) → (change r).id ≡ r.id)
    → ((d : Driver)
        → find? (λ r. r.id == id) db.drivers ≡ some d
        → (change d).vehicle_id ≡ field_or field d.vehicle_id)
    → Agrees db
    → HasKey field history_id db.history
    → (row : Driver) → (update_driver_row id change db).0 ≡ ok row
    → Agrees (move_driver history_id now company_id id change field db).1
move_driver-Agrees history_id now company_id id change field db keeps becomes agreed fresh row
      done =
    let (d, (found, (made, (free, after)))) = update_driver_row_lem id change db row done in
    let db1 : Db = record db { drivers = update_first (λ r. r.id == id) change db.drivers } in
    let (wrote, (kept, (k, told))) =
      record_assignment_lem history_id company_id id now field (vehicle_in db.drivers) db1
        agreed.exclusive fresh agreed.same in
    subst (λ r. Agrees r.1)
      (sym (moved_on history_id now company_id id change field db db1 row (both done after) wrote))
      (record {
        exclusive = k;
        same = λ x.
            told x
            ∙ moved-vehicle_in id x field change db.drivers d keeps (becomes d found) found free
            ∙ ap (λ ds. vehicle_in ds x) (sym kept);
      })
  where
    both : {A B : Type 0} {a : A} {b : B} {r : A × B} → r.0 ≡ a → r.1 ≡ b → r ≡ (a, b)
    both e f = cc (e, f)

move_refused :
    (history_id now company_id id : ℕ) (change : Driver → Driver) (field : Field ℕ) (db : Db)
    (e : Error)
    → (update_driver_row id change db).0 ≡ err e
    → (move_driver history_id now company_id id change field db).0 ≡ err e
unfolding move_driver
move_refused history_id now company_id id change field db e h = ground arith

-- A transaction whose parts keep the agreement, or that is taken back.
pub transaction-Agrees :
    (history_id now company_id id : ℕ) (change : Driver → Driver) (field : Field ℕ) (db : Db)
    → ((r : Driver) → (change r).id ≡ r.id)
    → ((d : Driver)
        → find? (λ r. r.id == id) db.drivers ≡ some d
        → (change d).vehicle_id ≡ field_or field d.vehicle_id)
    → Agrees db
    → HasKey field history_id db.history
    → Agrees (transaction (move_driver history_id now company_id id change field) db).1
transaction-Agrees history_id now company_id id change field db keeps becomes agreed fresh =
    elim (Result-cases (update_driver_row id change db).0) [
      | inl (row, done) ↦ by_result (move_driver history_id now company_id id change field db) (
          move_driver-Agrees history_id now company_id id change field db keeps becomes agreed fresh
            row done)
      | inr (e, refused) ↦
          by_error (move_driver history_id now company_id id change field db)
            (move_refused history_id now company_id id change field db e refused)
    ]
  where
    undo : Result Error Driver × Db → Result Error Driver × Db
    undo r = elim r.0 as (λ _. Result Error Driver × Db) [
      | ok a ↦ (ok a, r.1)
      | err e ↦ (err e, db)
    ]

    by_result : (r : Result Error Driver × Db) → Agrees r.1 → Agrees (undo r).1
    by_result (ok row, t) h = h
    by_result (err e, t) h = agreed

    by_error : (r : Result Error Driver × Db) {e : Error} → r.0 ≡ err e → Agrees (undo r).1
    by_error (ok row, t) h = absurd (cc h)
    by_error (err e, t) h = agreed
