-- ===== src/Prelude/Unique.antt =====
-- A unique index on a table: no two rows of it clash.
use mathlib.Core.Path.{◌≡◌, subst}
use mathlib.Core.Logic.{inl, inr}
use mathlib.Core.Bool.{Bool, true, false}
use mathlib.Core.List.{List, [], ◌∷◌, ◌++◌}
use mathlib.Core.Option.{some}
use native.Mathlib.Omega.{arith}
use delivery_tracking.Prelude.Lists.{All, any}
use delivery_tracking.Prelude.Tests.{Bool-cases}
use delivery_tracking.Prelude.Table.{find?, update_first}

module _ {A : Type 0} (clash : A → A → Bool) where
  abbrev pub IsUnique : List A → Type 0
  IsUnique [] = Unit
  IsUnique (x ∷ xs) = All (λ y. clash x y ≡ false) xs × IsUnique xs

  -- The change of a row makes no clash that there was not.
  abbrev pub IsSafe : (A → A) → Type 0
  IsSafe f =
      ((x y : A) → clash x y ≡ false → clash (f x) y ≡ false)
      × ((x y : A) → clash x y ≡ false → clash x (f y) ≡ false)

  All-safe :
      (f : A → A) (test : A → Bool) (x : A) (ys : List A)
      → IsSafe f
      → All (λ y. clash x y ≡ false) ys
      → All (λ y. clash x y ≡ false) (update_first test f ys)
  unfolding update_first
  All-safe f test x [] k h = tt
  All-safe f test x (y ∷ ys) k h = elim (Bool-cases (test y)) [
    | inl t ↦ rw t (k.1 x y h.0, h.1)
    | inr o ↦ rw o (h.0, All-safe f test x ys k h.1)
  ]

  All-changed :
      (f : A → A) (x : A) (ys : List A)
      → IsSafe f
      → All (λ y. clash x y ≡ false) ys
      → All (λ y. clash (f x) y ≡ false) ys
  All-changed f x [] k h = tt
  All-changed f x (y ∷ ys) k h = (k.0 x y h.0, All-changed f x ys k h.1)

  pub update_first-IsUnique :
      (f : A → A) (test : A → Bool) (xs : List A)
      → IsSafe f
      → IsUnique xs
      → IsUnique (update_first test f xs)
  unfolding update_first
  update_first-IsUnique f test [] k h = tt
  update_first-IsUnique f test (x ∷ xs) k h = elim (Bool-cases (test x)) [
    | inl t ↦ rw t (All-changed f x xs k h.0, h.1)
    | inr o ↦ rw o (All-safe f test x xs k h.0, update_first-IsUnique f test xs k h.1)
  ]

  All-snoc :
      (x y : A) (xs : List A)
      → All (λ z. clash x z ≡ false) xs
      → clash x y ≡ false
      → All (λ z. clash x z ≡ false) (xs ++ y ∷ [])
  All-snoc x y [] h k = (k, tt)
  All-snoc x y (z ∷ xs) h k = (h.0, All-snoc x y xs h.1 k)

  -- A row joins that clashes with none.
  pub append-IsUnique :
      ((x y : A) → clash x y ≡ clash y x)
      → (x : A) (xs : List A) → any (clash x) xs ≡ false
      → IsUnique xs
      → IsUnique (xs ++ x ∷ [])
  append-IsUnique s x [] free h = (tt, tt)
  append-IsUnique s x (y ∷ xs) free h = (
    All-snoc y x xs h.0 (ground (arith, free, s x y)),
    append-IsUnique s x xs (ground (arith, free)) h.1,
  )

  find?-All :
      (P : A → Type 0) (q : A → Bool) (xs : List A) (y : A) → All P xs → find? q xs ≡ some y → P y
  unfolding find?
  find?-All P q [] y h e = absurd (cc e)
  find?-All P q (x ∷ xs) y h e = elim (Bool-cases (q x)) [
    | inl t ↦ (let same : x ≡ y = ground (arith, t, e) in subst P same h.0)
    | inr f ↦ find?-All P q xs y h.1 (rw f at e)
  ]

  -- Two tests that find rows which clash find the same row.
  pub find?-same :
      ((x y : A) → clash x y ≡ clash y x)
      → (p q : A → Bool) (xs : List A) (x y : A) → IsUnique xs
      → find? p xs ≡ some x
      → find? q xs ≡ some y
      → clash x y ≡ true
      → x ≡ y
  unfolding find?
  find?-same s p q [] x y h e k c = absurd (cc e)
  find?-same s p q (z ∷ xs) x y h e k c = elim (Bool-cases (p z)) [
    | inl t ↦ elim (Bool-cases (q z)) [
      | inl u ↦ cc (e, k, t, u)
      | inr u ↦ ground (arith, e, k, t, u, c, find?-All (λ (w : A). clash z w ≡ false) q xs y h.0)
    ]
    | inr t ↦ elim (Bool-cases (q z)) [
      | inl u ↦
          ground (arith, e, k, t, u, c, s x y, find?-All (λ (w : A). clash z w ≡ false) p xs x h.0)
      | inr u ↦ find?-same s p q xs x y h.1 (ground (arith, e, t)) (ground (arith, k, u)) c
    ]
  ]
