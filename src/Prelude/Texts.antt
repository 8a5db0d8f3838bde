-- ===== src/Prelude/Texts.antt =====
-- Texts, as lists of their codes.
use mathlib.Core.Path.{◌≡◌, refl}
use mathlib.Core.Bool.{Bool, true, false, ◌&&◌}
use mathlib.Core.List.{List, [], ◌∷◌}
use native.Mathlib.Omega.{arith}
use Prim.Native.Nat.{ℕ}
use delivery_tracking.Prelude.Tests.{◌==◌, ==_iff}

unfoldable pub same : List ℕ → List ℕ → Bool
same [] [] = true
same [] (y ∷ ys) = false
same (x ∷ xs) [] = false
same (x ∷ xs) (y ∷ ys) = x == y && same xs ys

pub same_refl : (xs : List ℕ) → same xs xs ≡ true
unfolding same
same_refl [] = refl
same_refl (x ∷ xs) = ground (arith, same_refl xs, (==_iff x x).1 refl)

pub same-sym : (xs ys : List ℕ) → same xs ys ≡ same ys xs
unfolding same
same-sym [] [] = refl
same-sym [] (y ∷ ys) = refl
same-sym (x ∷ xs) [] = refl
same-sym (x ∷ xs) (y ∷ ys) = ground (arith, same-sym xs ys)
