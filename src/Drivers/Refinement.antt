-- ===== src/Drivers/Refinement.antt =====
-- The history as a map from drivers to vehicles.
use delivery_tracking.Prelude.{
  ℕ, ◌==◌, ◌≡◌, refl, inl, inr, Bool, true, false, ◌||◌, Option, none, some, List, [], ◌∷◌, ◌++◌,
  All, any, arith, Bool-cases, is_value, if◌then◌else◌, ok,
}
use delivery_tracking.Prelude.Table.{find?, update_all}
use delivery_tracking.Drivers.Model.{Assignment}
use delivery_tracking.Drivers.History.{
  is_open, open_for_vehicle, open_for_driver, close, clashes, insert_open,
}
use delivery_tracking.Drivers.Exclusive.{IsFreshKey, IsExclusive}

abbrev pub vehicle_of_row : Option Assignment → Option ℕ
vehicle_of_row none = none
vehicle_of_row (some a) = some a.vehicle_id

-- The vehicle that a driver has now.
unfoldable pub vehicle_now : ℕ → List Assignment → Option ℕ
vehicle_now driver_id h = vehicle_of_row (find? (open_for_driver driver_id) h)

-- The map after `driver_id` takes `vehicle_id`: nobody else has the vehicle.
abbrev pub without_vehicle : ℕ → Option ℕ → Option ℕ
without_vehicle vehicle_id o = if is_value o vehicle_id then none else o

abbrev pub taken_over : ℕ → ℕ → (ℕ → Option ℕ) → ℕ → Option ℕ
taken_over driver_id vehicle_id m x =
    if x == driver_id then some vehicle_id else without_vehicle vehicle_id (m x)

abbrev pub set_free : ℕ → (ℕ → Option ℕ) → ℕ → Option ℕ
set_free driver_id m x = if x == driver_id then none else m x

none_open :
    (a : Assignment) (h : List Assignment)
    → All (λ b. clashes a b ≡ false) h
    → vehicle_now a.driver_id h ≡ none
unfolding vehicle_now find?
none_open a [] free = refl
none_open a (b ∷ h) free = ground (arith, none_open a h free.1, free.0)

driver_none :
    (x : ℕ) (a : Assignment) (h : List Assignment)
    → a.driver_id ≡ x
    → vehicle_now a.driver_id h ≡ none
    → vehicle_now x h ≡ none
driver_none x a h same none_left = rw same at none_left

-- A vehicle is taken from whoever has it.
pub vehicle_now-close_vehicle :
    (v at x : ℕ) (h : List Assignment)
    → IsExclusive h
    → vehicle_now x (update_all (open_for_vehicle v) (close at) h)
      ≡ without_vehicle v (vehicle_now x h)
unfolding vehicle_now find? update_all
vehicle_now-close_vehicle v at x [] k = refl
vehicle_now-close_vehicle v at x (a ∷ h) k =
    let rest = vehicle_now-close_vehicle v at x h k.1.1 in
    elim (Bool-cases (open_for_driver x a)) [
      | inr other ↦ ground (arith, rest, other)
      | inl mine ↦ elim (Bool-cases (a.vehicle_id == v)) [
        | inr elsewhere ↦ ground (arith, mine, elsewhere)
        | inl same ↦
            let gone : vehicle_now x h ≡ none =
              driver_none x a h (ground arith) (none_open a h (k.1.0 (ground arith))) in
            ground (arith, rest, gone, mine, same)
      ]
    ]

pub vehicle_now-close_driver :
    (d at x : ℕ) (h : List Assignment)
    → vehicle_now x (update_all (open_for_driver d) (close at) h)
      ≡ set_free d (λ y. vehicle_now y h) x
unfolding vehicle_now find? update_all
vehicle_now-close_driver d at x [] = ground arith
vehicle_now-close_driver d at x (a ∷ h) = ground (arith, vehicle_now-close_driver d at x h)

abbrev pub or_else : Option ℕ → Option ℕ → Option ℕ
or_else none other = other
or_else (some v) other = some v

pub vehicle_now-append :
    (x : ℕ) (h : List Assignment) (a : Assignment)
    → is_open a ≡ true
    → vehicle_now x (h ++ a ∷ [])
      ≡ or_else (vehicle_now x h) (if a.driver_id == x then some a.vehicle_id else none)
unfolding vehicle_now find?
vehicle_now-append x [] a o = ground (arith, o)
vehicle_now-append x (b ∷ h) a o = ground (arith, vehicle_now-append x h a o)

-- Closing rows keeps the history exclusive.
pub update_all-fresh :
    (p : Assignment → Bool) (at id : ℕ) (h : List Assignment)
    → IsFreshKey id h
    → IsFreshKey id (update_all p (close at) h)
unfolding update_all
update_all-fresh p at id [] k = tt
update_all-fresh p at id (a ∷ h) k = (ground (arith, k.0), update_all-fresh p at id h k.1)

update_all-clear :
    (p : Assignment → Bool) (at : ℕ) (a : Assignment) (h : List Assignment)
    → All (λ b. clashes a b ≡ false) h
    → All (λ b. clashes a b ≡ false) (update_all p (close at) h)
unfolding update_all
update_all-clear p at a [] k = tt
update_all-clear p at a (b ∷ h) k = (ground (arith, k.0), update_all-clear p at a h k.1)

pub update_all-IsExclusive :
    (p : Assignment → Bool) (at : ℕ) (h : List Assignment)
    → IsExclusive h
    → IsExclusive (update_all p (close at) h)
unfolding update_all
update_all-IsExclusive p at [] k = tt
update_all-IsExclusive p at (a ∷ h) k = elim (Bool-cases (p a)) [
  | inl t ↦ rw t (
    update_all-fresh p at a.id h k.0,
    ((λ o. absurd (cc o)), update_all-IsExclusive p at h k.1.1),
  )
  | inr f ↦ rw f (
    update_all-fresh p at a.id h k.0,
    ((λ o. update_all-clear p at a h (k.1.0 o)), update_all-IsExclusive p at h k.1.1),
  )
]

-- What both closings leave has neither the vehicle nor the driver.
pub closed-clear :
    (v d at : ℕ) (a : Assignment) (h : List Assignment)
    → a.vehicle_id ≡ v
    → a.driver_id ≡ d
    → All
        (λ b. clashes a b ≡ false)
        (update_all (open_for_driver d) (close at) (update_all (open_for_vehicle v) (close at) h))
unfolding update_all
closed-clear v d at a [] e f = tt
closed-clear v d at a (b ∷ h) e f = (ground (arith, e, f), closed-clear v d at a h e f)

pub insert_open-ok :
    (a : Assignment) (h : List Assignment)
    → IsFreshKey a.id h
    → All (λ b. clashes a b ≡ false) h
    → insert_open a h ≡ (ok tt, h ++ a ∷ [])
unfolding insert_open
insert_open-ok a h fresh free = rw (none_clashing h fresh free) refl
  where
    none_clashing :
        (h : List Assignment)
        → IsFreshKey a.id h
        → All (λ b. clashes a b ≡ false) h
        → any (λ b. b.id == a.id || clashes a b) h ≡ false
    none_clashing [] k l = refl
    none_clashing (b ∷ h) k l = rw (k.0, l.0) (none_clashing h k.1 l.1)

pub append-IsExclusive :
    (a : Assignment) (h : List Assignment)
    → IsExclusive h
    → IsFreshKey a.id h
    → All (λ b. clashes a b ≡ false) h
    → is_open a ≡ true
    → IsExclusive (h ++ a ∷ [])
append-IsExclusive a [] k fresh free o = (tt, ((λ _. tt), tt))
append-IsExclusive a (b ∷ h) k fresh free o = (
  All-snoc (λ c. (c.id == b.id) ≡ false) h a k.0 (flip b.id a.id fresh.0),
  (
    (λ p. All-snoc (λ c. clashes b c ≡ false) h a (k.1.0 p) (turn p free.0)),
    append-IsExclusive a h k.1.1 fresh.1 free.1 o,
  ),
)
  where
    All-snoc :
        (P : Assignment → Type 0) (xs : List Assignment) (x : Assignment)
        → All P xs
        → P x
        → All P (xs ++ x ∷ [])
    All-snoc P [] x k l = (l, tt)
    All-snoc P (y ∷ xs) x k l = (k.0, All-snoc P xs x k.1 l)

    flip : (m n : ℕ) → (m == n) ≡ false → (n == m) ≡ false
    flip m n e = ground arith

    turn : is_open b ≡ true → clashes a b ≡ false → clashes b a ≡ false
    turn p e = ground arith
