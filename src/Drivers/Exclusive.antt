-- ===== src/Drivers/Exclusive.antt =====
-- Histories with at most one open row for a vehicle and for a driver.
use delivery_tracking.Prelude.{
  ℕ, ◌==◌, ◌≡◌, refl, ap, inl, inr, Bool, true, false, none, some, List, [], ◌∷◌, All, arith,
  Bool-cases,
}
use delivery_tracking.Prelude.Table.{find?, update_first, update_all}
use delivery_tracking.Drivers.Model.{Assignment}
use delivery_tracking.Drivers.History.{is_open, open_for_vehicle, open_for_driver, clashes}

abbrev pub IsFreshKey : ℕ → List Assignment → Type 0
IsFreshKey id h = All (λ a. (a.id == id) ≡ false) h

-- Keys are distinct, and no two open rows have a vehicle or a driver in common.
abbrev pub IsExclusive : List Assignment → Type 0
IsExclusive [] = Unit
IsExclusive (a ∷ h) =
    (All (λ b. (b.id == a.id) ≡ false) h)
    × ((is_open a ≡ true → All (λ b. clashes a b ≡ false) h) × IsExclusive h)

-- The tests that pick open rows which would clash.
pub record Picks (p : Assignment → Bool) : Type 0 where
  pub opens : (a : Assignment) → p a ≡ true → is_open a ≡ true
  pub pair : (a b : Assignment) → p a ≡ true → p b ≡ true → clashes a b ≡ true

pub Picks-vehicle : (v : ℕ) → Picks (open_for_vehicle v)
Picks-vehicle v = record { opens = λ a h. ground arith; pair = λ a b h k. ground arith }

pub Picks-driver : (d : ℕ) → Picks (open_for_driver d)
Picks-driver d = record { opens = λ a h. ground arith; pair = λ a b h k. ground arith }

none_left :
    (p : Assignment → Bool) (f : Assignment → Assignment) (a : Assignment) (h : List Assignment)
    → Picks p
    → p a ≡ true
    → All (λ b. clashes a b ≡ false) h
    → update_all p f h ≡ h
unfolding update_all
none_left p f a [] k t free = refl
none_left p f a (b ∷ h) k t free = elim (Bool-cases (p b)) [
  | inl also ↦ absurd (cc (k.pair a b t also, free.0))
  | inr other ↦ rw other (ap (λ r. b ∷ r) (none_left p f a h k t free.1))
]

pub none_found :
    (p : Assignment → Bool) (f : Assignment → Assignment) (h : List Assignment)
    → find? p h ≡ none
    → update_all p f h ≡ h
unfolding update_all find?
none_found p f [] e = refl
none_found p f (b ∷ h) e = elim (Bool-cases (p b)) [
  | inl t ↦ absurd (ground arith)
  | inr other ↦ rw other (ap (λ r. b ∷ r) (none_found p f h (rw other at e)))
]

found_key :
    (p : Assignment → Bool) (id : ℕ) (h : List Assignment) (r : Assignment)
    → find? p h ≡ some r
    → IsFreshKey id h
    → (id == r.id) ≡ false
unfolding find?
found_key p id [] r e fresh = cc e
found_key p id (b ∷ h) r e fresh = elim (Bool-cases (p b)) [
  | inl t ↦ ground (arith, fresh.0)
  | inr other ↦ found_key p id h r (rw other at e) fresh.1
]

-- To close the row that was found, by its key, is to close all that the test picks.
pub close_by_key :
    (p : Assignment → Bool) (f : Assignment → Assignment) (h : List Assignment) (r : Assignment)
    → Picks p
    → IsExclusive h
    → find? p h ≡ some r
    → update_first (λ b. b.id == r.id) f h ≡ update_all p f h
unfolding update_first update_all find?
close_by_key p f [] r k x e = refl
close_by_key p f (a ∷ h) r k x e = elim (Bool-cases (p a)) [
  | inl t ↦ let rest = none_left p f a h k t (x.1.0 (k.opens a t)) in ground (arith, rest)
  | inr other ↦
      let e' : find? p h ≡ some r = rw other at e in
      rw (other, found_key p a.id h r e' x.0) (ap (λ t. a ∷ t) (close_by_key p f h r k x.1.1 e'))
]
