-- ===== src/Prelude/Keyed.antt =====
-- A table whose keys are distinct.
use mathlib.Core.Path.{◌≡◌, refl, ap}
use mathlib.Core.Logic.{inl, inr}
use mathlib.Core.Bool.{Bool, false}
use mathlib.Core.Option.{some}
use mathlib.Core.List.{List, [], ◌∷◌}
use native.Mathlib.Omega.{arith}
use Prim.Native.Nat.{ℕ}
use delivery_tracking.Prelude.Lists.{All}
use delivery_tracking.Prelude.Tests.{Bool-cases, ◌==◌}
use delivery_tracking.Prelude.Table.{find?, update_first}

module _ {A : Type 0} (key : A → ℕ) where
  abbrev pub HasDistinctKeys : List A → Type 0
  HasDistinctKeys [] = Unit
  HasDistinctKeys (x ∷ xs) = All (λ y. (key y == key x) ≡ false) xs × HasDistinctKeys xs

  found_elsewhere :
      (p : A → Bool) (n : ℕ) (xs : List A) (r : A)
      → find? p xs ≡ some r
      → All (λ y. (key y == n) ≡ false) xs
      → (n == key r) ≡ false
  unfolding find?
  found_elsewhere p n [] r e other = absurd (cc e)
  found_elsewhere p n (x ∷ xs) r e other = elim (Bool-cases (p x)) [
    | inl t ↦ ground (arith, other.0)
    | inr f ↦ found_elsewhere p n xs r (rw f at e) other.1
  ]

  -- To update the row that a test found, by its key, is to update it by the test.
  pub update_first-key :
      (p : A → Bool) (f : A → A) (xs : List A) (r : A)
      → HasDistinctKeys xs
      → find? p xs ≡ some r
      → update_first (λ y. key y == key r) f xs ≡ update_first p f xs
  unfolding find? update_first
  update_first-key p f [] r k e = refl
  update_first-key p f (x ∷ xs) r k e = elim (Bool-cases (p x)) [
    | inl t ↦ ground arith
    | inr other ↦
        let e' : find? p xs ≡ some r = rw other at e in
        rw (other, found_elsewhere p (key x) xs r e' k.0)
          (ap (λ t. x ∷ t) (update_first-key p f xs r k.1 e'))
  ]
