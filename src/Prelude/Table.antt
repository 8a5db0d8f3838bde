-- ===== src/Prelude/Table.antt =====
-- A table of the database: its rows, in the order of insertion. `find?` is `findFirst` or
-- `findUnique`, `update_first` is `update`, `update_all` is `updateMany`, for the `where` clause
-- that the test stands for.
use mathlib.Core.Path.{◌≡◌, refl}
use mathlib.Core.Logic.{inl, inr}
use mathlib.Core.Bool.{Bool, true, false}
use mathlib.Core.Option.{Option, none, some}
use mathlib.Core.List.{List, [], ◌∷◌, ◌++◌}
use native.Mathlib.Omega.{arith}
use delivery_tracking.Prelude.Lists.{length, any}
use delivery_tracking.Prelude.Tests.{if◌then◌else◌, Bool-cases}

module _ {A : Type 0} where
  unfoldable pub find? : (A → Bool) → List A → Option A
  find? p [] = none
  find? p (x ∷ xs) = if p x then some x else find? p xs

  unfoldable pub update_first : (A → Bool) → (A → A) → List A → List A
  update_first p f [] = []
  update_first p f (x ∷ xs) = if p x then f x ∷ xs else x ∷ update_first p f xs

  unfoldable pub update_all : (A → Bool) → (A → A) → List A → List A
  update_all p f [] = []
  update_all p f (x ∷ xs) = (if p x then f x else x) ∷ update_all p f xs

  unfoldable pub delete_all : (A → Bool) → List A → List A
  delete_all p [] = []
  delete_all p (x ∷ xs) = let rest = delete_all p xs in if p x then rest else x ∷ rest

  -- The row that is found passes the test.
  pub find?-holds : (p : A → Bool) (xs : List A) (x : A) → find? p xs ≡ some x → p x ≡ true
  unfolding find?
  find?-holds p [] x h = cc
  find?-holds p (y ∷ xs) x h = ground (arith, find?-holds p xs x)

  -- An update that keeps the test true is what the test then finds.
  pub find?-update_first :
      (p : A → Bool) (f : A → A) (xs : List A) (x : A)
      → find? p xs ≡ some x
      → p (f x) ≡ true
      → find? p (update_first p f xs) ≡ some (f x)
  unfolding find? update_first
  find?-update_first p f [] x h k = cc
  find?-update_first p f (y ∷ xs) x h k = ground (arith, find?-update_first p f xs x)

  pub find?-append :
      (p : A → Bool) (xs ys : List A) (x : A) → find? p xs ≡ some x → find? p (xs ++ ys) ≡ some x
  unfolding find?
  find?-append p [] ys x e = cc
  find?-append p (z ∷ xs) ys x e = ground (arith, find?-append p xs ys x)

  -- A row that passes joins rows that do not.
  pub find?-append_new :
      (p : A → Bool) (xs : List A) (x : A)
      → find? p xs ≡ none
      → p x ≡ true
      → find? p (xs ++ (x ∷ [])) ≡ some x
  unfolding find?
  find?-append_new p [] x e k = rw k refl
  find?-append_new p (z ∷ xs) x e k = ground (arith, k, find?-append_new p xs x)

  -- The row that is found fails a test that all rows fail.
  pub find?-misses :
      (p q : A → Bool) (xs : List A) (x : A) → any p xs ≡ false → find? q xs ≡ some x → p x ≡ false
  unfolding find?
  find?-misses p q [] x n e = cc
  find?-misses p q (z ∷ xs) x n e = ground (arith, find?-misses p q xs x)

  -- An update that misses the row that is found, and makes no other row pass.
  pub find?-skips :
      (p test : A → Bool) (f : A → A) (xs : List A) (x : A)
      → ((y : A) → test y ≡ true → p y ≡ false → p (f y) ≡ false)
      → find? p xs ≡ some x
      → test x ≡ false
      → find? p (update_first test f xs) ≡ some x
  unfolding find? update_first
  find?-skips p test f [] x k e m = cc
  find?-skips p test f (z ∷ xs) x k e m = ground (arith, k z, find?-skips p test f xs x k)

  pub length-update_first :
      (p : A → Bool) (f : A → A) (xs : List A) → length (update_first p f xs) ≡ length xs
  unfolding update_first
  length-update_first p f [] = refl
  length-update_first p f (x ∷ xs) = ground (arith, length-update_first p f xs)

  -- Two tables with the same rows, each changed as the relation allows.
  abbrev pub Rows : (A → A → Type 0) → List A → List A → Type 0
  Rows R [] [] = Unit
  Rows R [] (y ∷ ys) = ⊥
  Rows R (x ∷ xs) [] = ⊥
  Rows R (x ∷ xs) (y ∷ ys) = R x y × Rows R xs ys

module _ {A : Type 0} (R : A → A → Type 0) (reflexive : (x : A) → R x x) where
  pub Rows-refl : (xs : List A) → Rows R xs xs
  Rows-refl [] = tt
  Rows-refl (x ∷ xs) = (reflexive x, Rows-refl xs)

  -- An update of one row relates the tables, if it relates the row that is found.
  pub Rows-update_first :
      (p : A → Bool) (f : A → A) (xs : List A)
      → ((x : A) → find? p xs ≡ some x → R x (f x))
      → Rows R xs (update_first p f xs)
  unfolding find? update_first
  Rows-update_first p f [] h = tt
  Rows-update_first p f (x ∷ xs) h = elim (Bool-cases (p x)) [
    | inl e ↦ rw e (h x (rw e), Rows-refl xs)
    | inr e ↦ rw e (reflexive x, Rows-update_first p f xs (λ y k. h y (rw e k)))
  ]

  -- So does an update of all the rows that pass, if it relates each of those.
  pub Rows-update_all :
      (p : A → Bool) (f : A → A) (xs : List A)
      → ((x : A) → p x ≡ true → R x (f x))
      → Rows R xs (update_all p f xs)
  unfolding update_all
  Rows-update_all p f [] h = tt
  Rows-update_all p f (x ∷ xs) h = elim (Bool-cases (p x)) [
    | inl e ↦ rw e (h x e, Rows-update_all p f xs h)
    | inr e ↦ rw e (reflexive x, Rows-update_all p f xs h)
  ]

module _ {A : Type 0} (R : A → A → Type 0) where
  pub Rows-trans :
      ((x y z : A) → R x y → R y z → R x z)
      → (xs ys zs : List A) → Rows R xs ys
      → Rows R ys zs
      → Rows R xs zs
  Rows-trans t [] [] [] h k = tt
  Rows-trans t [] [] (z ∷ zs) h k = absurd k
  Rows-trans t [] (y ∷ ys) zs h k = absurd h
  Rows-trans t (x ∷ xs) [] zs h k = absurd h
  Rows-trans t (x ∷ xs) (y ∷ ys) [] h k = absurd k
  Rows-trans t (x ∷ xs) (y ∷ ys) (z ∷ zs) h k = (t x y z h.0 k.0, Rows-trans t xs ys zs h.1 k.1)
