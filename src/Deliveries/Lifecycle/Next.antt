-- ===== src/Deliveries/Lifecycle/Next.antt =====
-- How a row may change from one request to the next, and the table with it.
use mathlib.Core.Path.{subst}
use delivery_tracking.Prelude.{
  ℕ, ◌==◌, ◌≡◌, refl, inl, inr, Bool, true, false, none, some, List, [], ◌∷◌, All, is_none,
  Bool-cases, ==_iff,
}
use delivery_tracking.Prelude.Table.{find?, Rows, Rows-refl}
use delivery_tracking.Deliveries.Status.{delivered, is_terminal}
use delivery_tracking.Deliveries.Model.{Delivery, Db}

-- A delivered row has the date of its completion.
abbrev pub IsDated : Delivery → Type 0
IsDated d = d.status ≡ delivered → is_none d.completed_at ≡ false

-- The row keeps its key and its company; once terminal, it keeps its status and its date of
-- completion; and it is dated if it was.
pub record IsNext (d e : Delivery) : Type 0 where
  pub same_id : e.id ≡ d.id
  pub same_company : e.company_id ≡ d.company_id
  pub frozen :
      is_terminal d.status ≡ true → (e.status ≡ d.status) × (e.completed_at ≡ d.completed_at)
  pub dated : IsDated d → IsDated e

pub IsNext-refl : (d : Delivery) → IsNext d d
IsNext-refl d = record {
  same_id = refl;
  same_company = refl;
  frozen = λ _. (refl, refl);
  dated = λ h. h;
}

pub IsNext-trans : (a b c : Delivery) → IsNext a b → IsNext b c → IsNext a c
IsNext-trans a b c h k = record {
  same_id = cc (h.same_id, k.same_id);
  same_company = cc (h.same_company, k.same_company);
  frozen = λ t. let u = h.frozen t in let v = k.frozen (rw u.0 t) in (cc (u.0, v.0), cc (u.1, v.1));
  dated = λ d. k.dated (h.dated d);
}

-- The rows of the first table, each moved on, and then rows that are new.
abbrev pub Extends : List Delivery → List Delivery → Type 0
Extends [] ys = All IsDated ys
Extends (x ∷ xs) [] = ⊥
Extends (x ∷ xs) (y ∷ ys) = IsNext x y × Extends xs ys

abbrev pub IsNewId : ℕ → List Delivery → Type 0
IsNewId id xs = All (λ d. (d.id == id) ≡ false) xs

-- No two rows have the same key.
abbrev pub IsKeyed : List Delivery → Type 0
IsKeyed [] = Unit
IsKeyed (x ∷ xs) = IsNewId x.id xs × IsKeyed xs

pub Rows-Extends : (xs ys : List Delivery) → Rows IsNext xs ys → Extends xs ys
Rows-Extends [] [] h = tt
Rows-Extends [] (y ∷ ys) h = absurd h
Rows-Extends (x ∷ xs) [] h = absurd h
Rows-Extends (x ∷ xs) (y ∷ ys) h = (h.0, Rows-Extends xs ys h.1)

All-IsDated : (xs ys : List Delivery) → All IsDated xs → Extends xs ys → All IsDated ys
All-IsDated [] ys a h = h
All-IsDated (x ∷ xs) [] a h = absurd h
All-IsDated (x ∷ xs) (y ∷ ys) a h = (h.0.dated a.0, All-IsDated xs ys a.1 h.1)

pub Extends-trans : (xs ys zs : List Delivery) → Extends xs ys → Extends ys zs → Extends xs zs
Extends-trans [] ys zs h k = All-IsDated ys zs h k
Extends-trans (x ∷ xs) [] zs h k = absurd h
Extends-trans (x ∷ xs) (y ∷ ys) [] h k = absurd k
Extends-trans (x ∷ xs) (y ∷ ys) (z ∷ zs) h k =
    (IsNext-trans x y z h.0 k.0, Extends-trans xs ys zs h.1 k.1)

pub Extends-IsDated : (xs ys : List Delivery) → Extends xs ys → All IsDated xs → All IsDated ys
Extends-IsDated xs ys h a = All-IsDated xs ys a h

Rows-IsNewId : (id : ℕ) (xs ys : List Delivery) → Rows IsNext xs ys → IsNewId id xs → IsNewId id ys
Rows-IsNewId id [] [] h k = tt
Rows-IsNewId id [] (y ∷ ys) h k = absurd h
Rows-IsNewId id (x ∷ xs) [] h k = absurd h
Rows-IsNewId id (x ∷ xs) (y ∷ ys) h k = (rw h.0.same_id k.0, Rows-IsNewId id xs ys h.1 k.1)

pub Rows-IsKeyed : (xs ys : List Delivery) → Rows IsNext xs ys → IsKeyed xs → IsKeyed ys
Rows-IsKeyed [] [] h k = tt
Rows-IsKeyed [] (y ∷ ys) h k = absurd h
Rows-IsKeyed (x ∷ xs) [] h k = absurd h
Rows-IsKeyed (x ∷ xs) (y ∷ ys) h k =
    (rw h.0.same_id (Rows-IsNewId x.id xs ys h.1 k.0), Rows-IsKeyed xs ys h.1 k.1)

-- A request takes a keyed table to a keyed table that extends it.
abbrev pub Advances : Db → Db → Type 0
Advances s t = IsKeyed s.deliveries → Extends s.deliveries t.deliveries × IsKeyed t.deliveries

pub Advances-Rows :
    (s t : Db) → (IsKeyed s.deliveries → Rows IsNext s.deliveries t.deliveries) → Advances s t
Advances-Rows s t h k =
    (Rows-Extends s.deliveries t.deliveries (h k), Rows-IsKeyed s.deliveries t.deliveries (h k) k)

pub Advances-same : (s t : Db) → t.deliveries ≡ s.deliveries → Advances s t
Advances-same s t e = Advances-Rows s t (λ _. rw e (Rows-refl IsNext IsNext-refl s.deliveries))

pub Advances-cong : (s t u : Db) → u.deliveries ≡ t.deliveries → Advances s t → Advances s u
Advances-cong s t u e h keyed = rw e (h keyed)

pub Advances-trans : (s t u : Db) → Advances s t → Advances t u → Advances s u
Advances-trans s t u h k keyed =
    let a = h keyed in
    let b = k a.1 in (Extends-trans s.deliveries t.deliveries u.deliveries a.0 b.0, b.1)

-- The row that a test on its key and more finds is the row of that key.
pub absent :
    (id : ℕ) (q : Delivery → Bool) (xs : List Delivery)
    → IsNewId id xs
    → ((x : Delivery) → q x ≡ true → (x.id == id) ≡ true)
    → find? q xs ≡ none
unfolding find?
absent id q [] h k = refl
absent id q (x ∷ xs) h k = elim (Bool-cases (q x)) [
  | inl e ↦ cc (k x e, h.0)
  | inr e ↦ rw e (absent id q xs h.1 k)
]

pub find?-key :
    (id : ℕ) (q : Delivery → Bool) (xs : List Delivery) (d : Delivery)
    → ((x : Delivery) → q x ≡ true → (x.id == id) ≡ true)
    → IsKeyed xs
    → find? q xs ≡ some d
    → find? (λ r. r.id == id) xs ≡ some d
unfolding find?
find?-key id q [] d k keyed h = cc
find?-key id q (x ∷ xs) d k keyed h = elim (Bool-cases (q x)) [
  | inl e ↦ rw (k x e) (rw e at h)
  | inr e ↦ elim (Bool-cases (x.id == id)) [
    | inl same ↦
        cc (
          absent id q xs (subst (λ n. IsNewId n xs) ((==_iff x.id id).0 same) keyed.0) k,
          rw e at h,
        )
    | inr other ↦ rw other (find?-key id q xs d k keyed.1 (rw e at h))
  ]
]
