-- ===== src/Drivers/Assign.antt =====
-- `assign` and `unassign`, against the two operations of the map from drivers to vehicles.
use mathlib.Core.Path.{subst}
use delivery_tracking.Prelude.{
  ℕ, ◌==◌, ◌≡◌, refl, sym, ap, ◌∙◌, inl, inr, Bool, true, false, Option, none, some, List, [], ◌∷◌,
  ◌++◌, ==_iff, All, arith, Bool-cases, Option-cases, if◌then◌else◌, ok, Result,
}
use delivery_tracking.Prelude.Table.{find?, find?-holds, update_all}
use delivery_tracking.Drivers.Model.{Assignment, Error}
use delivery_tracking.Drivers.History.{
  is_open, open_for_vehicle, open_for_driver, close, clashes, close_found, insert_open, reassign,
  assign, unassign, is_held_by,
}
use delivery_tracking.Drivers.Exclusive.{
  IsFreshKey, IsExclusive, Picks, Picks-vehicle, Picks-driver, none_found, close_by_key,
}
use delivery_tracking.Drivers.Refinement.{
  vehicle_now, without_vehicle, taken_over, set_free, or_else, vehicle_now-close_vehicle,
  vehicle_now-close_driver, vehicle_now-append, update_all-IsExclusive, update_all-fresh,
  closed-clear, insert_open-ok, append-IsExclusive,
}

close_found_lem :
    (p : Assignment → Bool) (at : ℕ) (h : List Assignment)
    → Picks p
    → IsExclusive h
    → (close_found at (find? p h) h).1 ≡ update_all p (close at) h
close_found_lem p at h k x = elim (Option-cases (find? p h)) [
  | inl gone ↦ rw gone (sym (none_found p (close at) h gone))
  | inr (r, found) ↦ rw found (close_by_key p (close at) h r k x found)
]

found_All :
    (P : Assignment → Type 0) (p : Assignment → Bool) (h : List Assignment) (r : Assignment)
    → All P h
    → find? p h ≡ some r
    → P r
unfolding find?
found_All P p [] r a e = absurd (cc e)
found_All P p (b ∷ h) r a e = elim (Bool-cases (p b)) [
  | inl t ↦ subst P (some_row b r (rw t at e)) a.0
  | inr f ↦ found_All P p h r a.1 (rw f at e)
]
  where
    some_row : (x y : Assignment) → some x ≡ some y → x ≡ y
    some_row x y e = cc e

-- Nobody in the rest has the vehicle of an open row.
rest_without :
    (v x : ℕ) (a : Assignment) (h : List Assignment)
    → a.vehicle_id ≡ v
    → All (λ b. clashes a b ≡ false) h
    → without_vehicle v (vehicle_now x h) ≡ vehicle_now x h
unfolding vehicle_now find?
rest_without v x a [] e free = refl
rest_without v x a (b ∷ h) e free = ground (arith, rest_without v x a h e free.1, free.0, e)

-- A driver who holds the vehicle has taken it over already.
held :
    (v x : ℕ) (h : List Assignment) (r : Assignment)
    → IsExclusive h
    → find? (open_for_vehicle v) h ≡ some r
    → vehicle_now x h ≡ taken_over r.driver_id v (λ y. vehicle_now y h) x
unfolding vehicle_now find?
held v x [] r k e = absurd (cc e)
held v x (a ∷ h) r k e = elim (Bool-cases (open_for_vehicle v a)) [
  | inl t ↦
      let same : a ≡ r = ground arith in
      let rest = rest_without v x a h (ground arith) (k.1.0 (ground arith)) in
      subst
        (λ z.
          vehicle_now x (a ∷ h)
          ≡ taken_over (Assignment.driver_id z) v (λ y. vehicle_now y (a ∷ h)) x)
        same (ground (arith, t, rest))
  | inr f ↦
      let e' : find? (open_for_vehicle v) h ≡ some r = rw f at e in
      let rest = held v x h r k.1.1 e' in
      let yes_open = find?-holds (open_for_vehicle v) h r e' in
      elim (Bool-cases (is_open a)) [
        | inr shut ↦ ground (arith, rest, shut)
        | inl o ↦
            let apart =
              found_All (λ b. clashes a b ≡ false) (open_for_vehicle v) h r (k.1.0 o) e' in
            ground (arith, rest, apart, yes_open, o, f)
      ]
]

abbrev opened : ℕ → ℕ → ℕ → ℕ → ℕ → Assignment
opened new_id company_id d v at = record {
  id = new_id;
  company_id = company_id;
  vehicle_id = v;
  driver_id = d;
  assigned_at = at;
  unassigned_at = none;
}

-- The table after both closings.
abbrev both_closed : ℕ → ℕ → ℕ → List Assignment → List Assignment
both_closed d v at h =
    update_all (open_for_driver d) (close at) (update_all (open_for_vehicle v) (close at) h)

module _ (new_id company_id d v at : ℕ) (h : List Assignment) (k : IsExclusive h)
    (fresh : IsFreshKey new_id h) where
  closed-IsExclusive : IsExclusive (both_closed d v at h)
  closed-IsExclusive =
      update_all-IsExclusive (open_for_driver d) at (update_all (open_for_vehicle v) (close at) h)
        (update_all-IsExclusive (open_for_vehicle v) at h k)

  closed-fresh : IsFreshKey new_id (both_closed d v at h)
  closed-fresh =
      update_all-fresh (open_for_driver d) at new_id (update_all (open_for_vehicle v) (close at) h)
        (update_all-fresh (open_for_vehicle v) at new_id h fresh)

  closed_twice :
      (close_found at
        (find? (open_for_driver d) (close_found at (find? (open_for_vehicle v) h) h).1)
        (close_found at (find? (open_for_vehicle v) h) h).1).1
      ≡ both_closed d v at h
  closed_twice = rw (close_found_lem (open_for_vehicle v) at h (Picks-vehicle v) k) (
      close_found_lem (open_for_driver d) at (update_all (open_for_vehicle v) (close at) h)
        (Picks-driver d) (update_all-IsExclusive (open_for_vehicle v) at h k))

  reassign_lem :
      reassign new_id company_id d v at (find? (open_for_vehicle v) h) h
      ≡ (ok tt, both_closed d v at h ++ opened new_id company_id d v at ∷ [])
  unfolding reassign
  reassign_lem =
      ap (λ t. insert_open (opened new_id company_id d v at) t) closed_twice
      ∙ insert_open-ok (opened new_id company_id d v at) (both_closed d v at h) closed-fresh
          (closed-clear v d at (opened new_id company_id d v at) h refl refl)

  reassigned :
      (x : ℕ)
      → vehicle_now x (both_closed d v at h ++ opened new_id company_id d v at ∷ [])
        ≡ taken_over d v (λ y. vehicle_now y h) x
  reassigned x =
      vehicle_now-append x (both_closed d v at h) (opened new_id company_id d v at) refl
      ∙ combine (x == d) (d == x) (vehicle_now x (both_closed d v at h))
          (without_vehicle v (vehicle_now x h)) (flip x d)
          (vehicle_now-close_driver d at x (update_all (open_for_vehicle v) (close at) h)
            ∙ ap (λ o. if x == d then none else o) (vehicle_now-close_vehicle v at x h k))
    where
      flip : (m n : ℕ) → (m == n) ≡ (n == m)
      flip m n = ground arith

      combine :
          (p q : Bool) (now spec : Option ℕ)
          → p ≡ q
          → now ≡ (if p then none else spec)
          → or_else now (if q then some v else none) ≡ (if p then some v else spec)
      combine p q now spec same e = ground (arith, same, e)

-- What an operation on the history promises: it succeeds, the history stays exclusive, and the map
-- from drivers to vehicles is changed as told.
abbrev pub Implements : Result Error (Unit {0}) × List Assignment → (ℕ → Option ℕ) → Type 0
Implements r m = (r.0 ≡ ok tt) × (IsExclusive r.1 × ((x : ℕ) → vehicle_now x r.1 ≡ m x))

assign_held :
    (new_id company_id d v at : ℕ) (h : List Assignment)
    → is_held_by d (find? (open_for_vehicle v) h) ≡ true
    → assign new_id company_id d v at h ≡ (ok tt, h)
unfolding assign
assign_held new_id company_id d v at h e = rw e refl

assign_other :
    (new_id company_id d v at : ℕ) (h : List Assignment)
    → is_held_by d (find? (open_for_vehicle v) h) ≡ false
    → assign new_id company_id d v at h
      ≡ reassign new_id company_id d v at (find? (open_for_vehicle v) h) h
unfolding assign
assign_other new_id company_id d v at h e = rw e refl

held_already :
    (d v x : ℕ) (h : List Assignment)
    → IsExclusive h
    → is_held_by d (find? (open_for_vehicle v) h) ≡ true
    → vehicle_now x h ≡ taken_over d v (λ y. vehicle_now y h) x
held_already d v x h k e = elim (Option-cases (find? (open_for_vehicle v) h)) [
  | inl gone ↦ absurd (cc (rw gone at e))
  | inr (r, found) ↦
      subst (λ z. vehicle_now x h ≡ taken_over z v (λ y. vehicle_now y h) x)
        ((==_iff r.driver_id d).0 (rw found at e)) (held v x h r k found)
]

-- Assigning a vehicle to a driver, in a history where no vehicle and no driver has two open rows and
-- under a key that is new: it succeeds, whatever rows are open, the unique indexes are respected, the
-- driver then has the vehicle, whoever had it has none, and every other driver has the same vehicle
-- as before.
pub assign-Implements :
    (new_id company_id d v at : ℕ) (h : List Assignment)
    → IsExclusive h
    → IsFreshKey new_id h
    → Implements (assign new_id company_id d v at h) (taken_over d v (λ y. vehicle_now y h))
assign-Implements new_id company_id d v at h k fresh =
    let promise : Result Error (Unit {0}) × List Assignment → Type 0 =
      λ r. Implements r (taken_over d v (λ y. vehicle_now y h)) in
    elim (Bool-cases (is_held_by d (find? (open_for_vehicle v) h))) [
      | inl same ↦
          subst promise (sym (assign_held new_id company_id d v at h same))
            (refl, (k, λ x. held_already d v x h k same))
      | inr other ↦
          let a = opened new_id company_id d v at in
          subst promise
            (sym (
              assign_other new_id company_id d v at h other
              ∙ reassign_lem new_id company_id d v at h k fresh))
            (
              refl,
              (
                append-IsExclusive a (both_closed d v at h)
                    (closed-IsExclusive new_id company_id d v at h k fresh)
                    (closed-fresh new_id company_id d v at h k fresh)
                    (closed-clear v d at a h refl refl) refl,
                λ x. reassigned new_id company_id d v at h k fresh x,
              ),
            )
    ]

-- Taking the vehicle from a driver.
pub unassign-Implements :
    (d at : ℕ) (h : List Assignment)
    → IsExclusive h
    → Implements (unassign d at h) (set_free d (λ y. vehicle_now y h))
unfolding unassign
unassign-Implements d at h k = (
  refl,
  (update_all-IsExclusive (open_for_driver d) at h k, λ x. vehicle_now-close_driver d at x h),
)
