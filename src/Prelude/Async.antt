-- ===== src/Prelude/Async.antt =====
-- An asynchronous method of a service: it reads and changes the state that it shares with the other
-- requests, and returns a value or throws. What was written before an exception stays written.
use mathlib.Core.Path.{◌≡◌, refl}
use mathlib.Core.Logic.{◌⊎◌, inl, inr}
use mathlib.Core.Bool.{Bool, true, false}
use mathlib.Core.Option.{Option, none, some}

pub data Result (E A : Type 0) : Type 0 where
  ok : A → Result E A
  err : E → Result E A

abbrev pub Action : Type 0 → Type 0 → Type 0 → Type 0
Action W E A = W → Result E A × W

module _ {W E A : Type 0} where
  abbrev pub pure : A → Action W E A
  pure a w = (ok a, w)

  abbrev pub throw : E → Action W E A
  throw e w = (err e, w)

  abbrev pub or_throw : Option A → E → Action W E A
  or_throw none e w = (err e, w)
  or_throw (some a) e w = (ok a, w)

  abbrev pub gets : (W → A) → Action W E A
  gets f w = (ok (f w), w)

infixl 5 ◌>>=◌ ◌>>◌
abbrev pub ◌>>=◌ : {W E A B : Type 0} → Action W E A → (A → Action W E B) → Action W E B
◌>>=◌ m f w = let (r, w') = m w in elim r [ ok a ↦ f a w' | err e ↦ (err e, w') ]

abbrev pub ◌>>◌ : {W E A B : Type 0} → Action W E A → Action W E B → Action W E B
m >> k = m >>= λ _. k

module _ {W E : Type 0} where
  abbrev pub modify : (W → W) → Action W E (Unit {0})
  modify f w = (ok tt, f w)

  abbrev pub throw_if : Bool → E → Action W E (Unit {0})
  throw_if true e w = (err e, w)
  throw_if false e w = (ok tt, w)

  abbrev pub when : Bool → Action W E (Unit {0}) → Action W E (Unit {0})
  when true m w = m w
  when false m w = (ok tt, w)

-- `$transaction`: an exception takes back what was written before it.
abbrev pub transaction : {W E A : Type 0} → Action W E A → Action W E A
transaction m w = let (r, w') = m w in elim r [ ok a ↦ (ok a, w') | err e ↦ (err e, w) ]

-- To split on how a method ended and keep the equation.
pub Result-cases :
    {E A : Type 0} (r : Result E A) → ((a : A) × (r ≡ ok a)) ⊎ ((e : E) × (r ≡ err e))
Result-cases (ok a) = inl (a, refl)
Result-cases (err e) = inr (e, refl)
