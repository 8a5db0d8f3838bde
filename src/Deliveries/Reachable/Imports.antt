-- ===== src/Deliveries/Reachable/Imports.antt =====
-- An import, as a step of the table.
use delivery_tracking.Prelude.{
  ◌>>=◌, ◌&&◌, pure, ℕ, ◌==◌, ◌≡◌, refl, inl, inr, Bool, false, Option, none, some, List, [], ◌∷◌,
  arith, Bool-cases, String,
}
use mathlib.Core.Path.{subst}
use delivery_tracking.Prelude.Table.{find?}
use delivery_tracking.Deliveries.Model.{Delivery, Db, Error}
use delivery_tracking.Deliveries.Service.{update_row}
use delivery_tracking.Deliveries.Import.{
  Mode, create_only, upsert, RawImportRow, truthy, is_import_match, not_started, upsert_change,
  imported_delivery, upsert_row, create_row, create_delivery, fits, fits_column, import_row,
  import_rows, import_deliveries_file, upsert_write, import_delivery, import_fields, add_outcome,
  updated,
}
use delivery_tracking.Deliveries.Lifecycle.{
  IsDated, IsNext, keeps-IsNext, IsNewId, IsKeyed, Advances, Advances-same, Advances-bind,
  Advances-update_row, Advances-insert_row, Safe, safe_rules, Safe-bind, Safe-pure, same_row,
}

-- A row that is found anywhere in a keyed table is the row of its own key.
found_elsewhere :
    (id : ℕ) (q : Delivery → Bool) (xs : List Delivery) (e : Delivery)
    → IsNewId id xs
    → find? q xs ≡ some e
    → (e.id == id) ≡ false
unfolding find?
found_elsewhere id q [] e h found = cc
found_elsewhere id q (x ∷ xs) e h found = elim (Bool-cases (q x)) [
  | inl t ↦ ground (arith, h.0)
  | inr t ↦ found_elsewhere id q xs e h.1 (rw t at found)
]

own_key :
    (q : Delivery → Bool) (xs : List Delivery) (e : Delivery)
    → IsKeyed xs
    → find? q xs ≡ some e
    → find? (λ r. r.id == e.id) xs ≡ some e
unfolding find?
own_key q [] e keyed found = cc
own_key q (x ∷ xs) e keyed found = elim (Bool-cases (q x)) [
  | inl t ↦ ground (arith)
  | inr t ↦
      rw (flip e.id x.id (found_elsewhere x.id q xs e keyed.0 (rw t at found)))
        (own_key q xs e keyed.1 (rw t at found))
]
  where
    flip : (a b : ℕ) → (a == b) ≡ false → (b == a) ≡ false
    flip a b h = ground arith

upsert-IsNext :
    (pickup_address lieu : String) (raw : RawImportRow) (d : Delivery)
    → IsNext d (upsert_write pickup_address lieu raw d.status d)
unfolding upsert_write
upsert-IsNext pickup_address lieu raw d = elim (Bool-cases (not_started d.status)) [
  | inr begun ↦
      rw begun (keeps-IsNext d (upsert_change pickup_address lieu raw d) refl refl refl refl)
  | inl waiting ↦ rw waiting (record {
    same_id = refl;
    same_company = refl;
    frozen = λ t. ground arith;
    dated = λ h k. cc;
  })
]

Advances-upsert_write :
    (pickup_address lieu : String) (raw : RawImportRow) (existing : Delivery) (q : Delivery → Bool)
    (db : Db)
    → find? q db.deliveries ≡ some existing
    → Advances db
        ((update_row existing.id (upsert_write pickup_address lieu raw existing.status)
            >>= (λ _. pure {E = Error} updated))
          db).1
Advances-upsert_write pickup_address lieu raw existing q db found =
    let write = upsert_write pickup_address lieu raw existing.status in
    Advances-bind (update_row existing.id write) (λ _. pure updated) db
      (Advances-update_row existing.id write db (λ d keyed here.
        subst (λ r. IsNext r (write r))
          (same_row (find? (λ r. r.id == existing.id) db.deliveries) existing d
            (own_key q db.deliveries existing keyed found) here)
          (upsert-IsNext pickup_address lieu raw existing)))
      (λ _ _.
        Advances-same (update_row existing.id write db).1 (update_row existing.id write db).1 refl)

Advances-upsert_row :
    (pickup_address lieu : String) (raw : RawImportRow) (existing : Delivery) (q : Delivery → Bool)
    (db : Db)
    → find? q db.deliveries ≡ some existing
    → Advances db (upsert_row pickup_address lieu raw existing db).1
unfolding upsert_row
Advances-upsert_row pickup_address lieu raw existing q db found = elim (Bool-cases (fits raw)) [
  | inr f ↦ rw f (Advances-same db db refl)
  | inl t ↦ rw t (Advances-upsert_write pickup_address lieu raw existing q db found)
]

Advances-create_row :
    (order_ref : String) (d : Delivery) (db : Db)
    → IsDated d
    → Advances db (create_row order_ref d db).1
unfolding create_row create_delivery
Advances-create_row order_ref d db h =
    elim (Bool-cases (fits_column d.amount && fits_column d.article_price)) [
      | inl t ↦ rw (t, create_delivery) (Advances-insert_row d db h)
      | inr f ↦ rw (f, create_delivery) (Advances-same db db refl)
    ]

imported_delivery-IsDated :
    (new_id company_id : ℕ) (pickup_address order_ref lieu : String) (raw : RawImportRow)
    → IsDated (imported_delivery new_id company_id pickup_address order_ref lieu raw)
unfolding imported_delivery
imported_delivery-IsDated new_id company_id pickup_address order_ref lieu raw h = cc

Advances-import_delivery :
    (mode : Mode) (pickup_address order_ref lieu : String) (raw : RawImportRow) (new : Delivery)
    (o : Option Delivery) (q : Delivery → Bool) (db : Db)
    → IsDated new
    → find? q db.deliveries ≡ o
    → Advances db (import_delivery mode pickup_address order_ref lieu raw new o db).1
unfolding import_delivery
Advances-import_delivery create_only pickup_address order_ref lieu raw new none q db h e =
    Advances-create_row order_ref new db h
Advances-import_delivery upsert pickup_address order_ref lieu raw new none q db h e =
    Advances-create_row order_ref new db h
Advances-import_delivery create_only pickup_address order_ref lieu raw new (some existing) q db h
      e =
    Advances-same db db refl
Advances-import_delivery upsert pickup_address order_ref lieu raw new (some existing) q db h e =
    Advances-upsert_row pickup_address lieu raw existing q db e

module _ (keys : ℕ → ℕ) (company_id : ℕ) (pickup_address : String) (mode : Mode) where
  Safe-import_fields :
      (raw : RawImportRow) (order_ref lieu : Option String)
      → Safe (import_fields keys company_id pickup_address mode raw order_ref lieu)
  unfolding import_fields
  Safe-import_fields raw none lieu = record { at = λ db. Advances-same db db refl }
  Safe-import_fields raw (some order_ref) none = record { at = λ db. Advances-same db db refl }
  Safe-import_fields raw (some order_ref) (some lieu) = record {
    at = λ db.
        Advances-import_delivery mode pickup_address order_ref lieu raw
          (imported_delivery (keys raw.row) company_id pickup_address order_ref lieu raw)
          (find? (is_import_match company_id order_ref) db.deliveries)
          (is_import_match company_id order_ref) db
          (imported_delivery-IsDated (keys raw.row) company_id pickup_address order_ref lieu raw)
          refl;
  }

  Safe-import_row : (raw : RawImportRow) → Safe (import_row keys company_id pickup_address mode raw)
  unfolding import_row
  Safe-import_row raw = Safe-import_fields raw (truthy raw.order_ref) (truthy raw.lieu)

  Safe-import_rows :
      (raws : List RawImportRow) → Safe (import_rows keys company_id pickup_address mode raws)
  unfolding import_rows
  Safe-import_rows [] = search safe_rules
  Safe-import_rows (raw ∷ raws) = Safe-bind _ _ (Safe-import_row raw) (λ outcome.
      Safe-bind _ _ (Safe-import_rows raws)
        (λ result. Safe-pure (add_outcome raw.row outcome result)))

  pub Safe-import_deliveries_file :
      (rows : Option (List RawImportRow))
      → Safe (import_deliveries_file keys company_id rows pickup_address mode)
  unfolding import_deliveries_file
  Safe-import_deliveries_file none = search safe_rules
  Safe-import_deliveries_file (some []) = search safe_rules
  Safe-import_deliveries_file (some (raw ∷ raws)) = Safe-import_rows (raw ∷ raws)
