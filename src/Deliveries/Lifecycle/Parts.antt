-- ===== src/Deliveries/Lifecycle/Parts.antt =====
-- The reads and writes that the requests are made of, each as a step of the table.
use text.Mathlib.Text.{◌==◌ as str_eq}
use delivery_tracking.Prelude.{
  ◌⊎◌, ℕ, ◌==◌, ◌≡◌, refl, inl, inr, false, not, ◌&&◌, Option, none, some, List, [], ◌∷◌, ◌++◌, any,
  arith, ok, err, is_none, Bool-cases, Option-cases, Result, ◌>>=◌,
}
use delivery_tracking.Prelude.Table.{find?, Rows-update_first, update_first}
use delivery_tracking.Deliveries.Status.{
  is_fuel_report_trigger_status, DeliveryStatus, terminal-refuses,
}
use delivery_tracking.Deliveries.Model.{
  Delivery, UpdateDeliveryStatusDto, Error, Db, Method, Env, Coordinates,
}
use delivery_tracking.Deliveries.Location.{
  Verification, verify_delivery_location, destination, store_results, proof_point,
}
use delivery_tracking.Deliveries.Service.{conflicts, insert_row, update_row}
use delivery_tracking.Deliveries.Transitions.{IsStep}
use delivery_tracking.Deliveries.Lifecycle.Next.{
  IsDated, IsNext, IsNext-refl, Extends, IsNewId, IsKeyed, Advances, Advances-Rows, Advances-same,
  Advances-trans,
}

after_result :
    {A B : Type 0} (r : Result Error A × Db) (f : A → Method B) (db : Db)
    → Advances db r.1
    → ((a : A) → r.0 ≡ ok a → Advances r.1 (f a r.1).1)
    → Advances db
        (elim r.0 as (λ _. Result Error B × Db) [ ok a ↦ f a r.1 | err e ↦ (err e, r.1) ]).1
after_result (ok a, t) f db h k = Advances-trans db t (f a t).1 h (k a refl)
after_result (err e, t) f db h k = h

-- The part before a bind, and then the rest if it returned.
pub Advances-bind :
    {A B : Type 0} (m : Method A) (f : A → Method B) (db : Db)
    → Advances db (m db).1
    → ((a : A) → (m db).0 ≡ ok a → Advances (m db).1 (f a (m db).1).1)
    → Advances db ((m >>= f) db).1
Advances-bind m f db h k = after_result (m db) f db h k

pub Advances-update_row :
    (id : ℕ) (change : Delivery → Delivery) (db : Db)
    → ((d : Delivery)
        → IsKeyed db.deliveries
        → find? (λ r. r.id == id) db.deliveries ≡ some d
        → IsNext d (change d))
    → Advances db (update_row id change db).1
unfolding update_row
Advances-update_row id change db h = elim (Option-cases (find? (λ r. r.id == id) db.deliveries)) [
  | inl gone ↦ rw (gone, update_row) (Advances-same db db refl)
  | inr (d, found) ↦
      rw (found, update_row)
        (Advances-Rows db
          (record db { deliveries = update_first (λ r. r.id == id) change db.deliveries })
          (λ keyed.
            Rows-update_first IsNext IsNext-refl (λ r. r.id == id) change db.deliveries
              (λ x e. h x keyed e)))
]

-- A new row at the end, with a key of its own.
Extends-append : (d : Delivery) (xs : List Delivery) → IsDated d → Extends xs (xs ++ d ∷ [])
Extends-append d [] h = (h, tt)
Extends-append d (x ∷ xs) h = (IsNext-refl x, Extends-append d xs h)

IsNewId-append :
    (id : ℕ) (d : Delivery) (xs : List Delivery)
    → IsNewId id xs
    → (d.id == id) ≡ false
    → IsNewId id (xs ++ d ∷ [])
IsNewId-append id d [] h e = (e, tt)
IsNewId-append id d (x ∷ xs) h e = (h.0, IsNewId-append id d xs h.1 e)

IsKeyed-append :
    (d : Delivery) (xs : List Delivery)
    → IsKeyed xs
    → any (conflicts d) xs ≡ false
    → IsKeyed (xs ++ d ∷ [])
IsKeyed-append d [] h e = (tt, tt)
IsKeyed-append d (x ∷ xs) h e =
    (IsNewId-append x.id d xs h.0 (ground arith), IsKeyed-append d xs h.1 (ground arith))

pub Advances-insert_row : (d : Delivery) (db : Db) → IsDated d → Advances db (insert_row d db).1
unfolding insert_row
Advances-insert_row d db h = elim (Bool-cases (any (conflicts d) db.deliveries)) [
  | inl taken ↦ rw (taken, insert_row) (Advances-same db db refl)
  | inr free ↦
      rw (free, insert_row)
        (λ keyed. (Extends-append d db.deliveries h, IsKeyed-append d db.deliveries keyed free))
]

-- The location check stores at most the coordinates of the destination.
located-IsNext :
    (d : Delivery) (lat lng : Option ℕ)
    → IsNext d (record d { delivery_lat = lat; delivery_lng = lng })
located-IsNext d lat lng = record {
  same_id = refl;
  same_company = refl;
  frozen = λ _. (refl, refl);
  dated = λ h. h;
}

Advances-located :
    (id : ℕ) (lat lng : Option ℕ) (db : Db)
    → Advances db (record db {
      deliveries =
          update_first
            (λ r. r.id == id)
            (λ r. record r { delivery_lat = lat; delivery_lng = lng })
            db.deliveries;
    })
Advances-located id lat lng db =
    Advances-Rows db
      (record db {
        deliveries =
            update_first (λ r. r.id == id)
              (λ r. record r { delivery_lat = lat; delivery_lng = lng }) db.deliveries;
      })
      (λ _.
        Rows-update_first IsNext IsNext-refl (λ r. r.id == id)
          (λ r. record r { delivery_lat = lat; delivery_lng = lng }) db.deliveries
          (λ x _. located-IsNext x lat lng))

Advances-results :
    (d : Delivery) (db : Db) (found : Option (List Coordinates))
    → Advances db (store_results d found db).1
unfolding store_results
Advances-results d db none = Advances-same db db refl
Advances-results d db (some []) = Advances-same db db refl
Advances-results d db (some (c ∷ _)) = Advances-located d.id (some c.lat) (some c.lng) db

Advances-destination : (env : Env) (d : Delivery) (db : Db) → Advances db (destination env d db).1
unfolding destination
Advances-destination env d db =
    elim (Bool-cases
      (is_none d.delivery_lat && is_none d.delivery_lng && not (str_eq d.delivery_address ""))) [
        | inl e ↦ rw (e, destination) (Advances-results d db (env.search d.delivery_address))
        | inr e ↦ rw (e, destination) (Advances-same db db refl)
      ]

verify-db :
    (env : Env) (now : ℕ) (d : Delivery) (dto : UpdateDeliveryStatusDto) (db : Db)
    → ((verify_delivery_location env now d dto db).1 ≡ db)
      ⊎ ((verify_delivery_location env now d dto db).1 ≡ (destination env d db).1)
unfolding verify_delivery_location
verify-db env now d dto db = elim (Bool-cases (is_fuel_report_trigger_status dto.status)) [
  | inr e ↦ inl (rw (e, verify_delivery_location))
  | inl e ↦ elim (Option-cases (proof_point env dto)) [
    | inl n ↦ inl (ground arith)
    | inr (p, n) ↦ inr (ground arith)
  ]
]

pub Advances-verify :
    (env : Env) (now : ℕ) (d : Delivery) (dto : UpdateDeliveryStatusDto) (db : Db)
    → Advances db (verify_delivery_location env now d dto db).1
Advances-verify env now d dto db = elim (verify-db env now d dto db) [
  | inl e ↦ rw e (Advances-same db db refl)
  | inr e ↦ rw e (Advances-destination env d db)
]

-- A step of the matrix is a step of the life cycle.
pub IsStep-IsNext :
    (now : ℕ) (to : DeliveryStatus) (v : Verification) (d e : Delivery)
    → IsStep now to v d e
    → IsNext d e
IsStep-IsNext now to v d e (inl same) = rw same (IsNext-refl d)
IsStep-IsNext now to v d e (inr (valid, made)) = rw made (record {
  same_id = refl;
  same_company = refl;
  frozen = λ t. cc (terminal-refuses d.status to t);
  dated = λ h k. ground arith;
})
