-- ===== src/Deliveries/ImportLaws.antt =====
-- What an import reports and which rows it leaves alone.
use delivery_tracking.Prelude.{
  ℕ, suc, ◌+◌, ◌==◌, ◌≡◌, ◌⊎◌, All, refl, inl, inr, Bool, true, false, ◌&&◌, ◌||◌, Option, none,
  some, List, [], ◌∷◌, arith, ok, Bool-cases, length, String, any,
}
use delivery_tracking.Prelude.Table.{find?}
use delivery_tracking.Deliveries.Model.{Delivery, Db}
use delivery_tracking.Deliveries.Service.{conflicts, same_reference, insert_row}
use delivery_tracking.Deliveries.Import.{
  fits, fits_column, Mode, create_only, upsert, RawImportRow, RowOutcome, ImportResult, truthy,
  is_import_match, imported_delivery, import_row, import_rows, import_fields, import_delivery,
  add_outcome, skipped, create_row, create_delivery,
}

-- The rows that a report speaks of.
abbrev pub accounted : ImportResult → ℕ
accounted r = r.created + r.updated + length r.skipped + length r.errors

accounted-add_outcome :
    (row : ℕ) (o : RowOutcome) (r : ImportResult)
    → accounted (add_outcome row o r) ≡ suc (accounted r)
accounted-add_outcome row RowOutcome.created r = omega arith
accounted-add_outcome row RowOutcome.updated r = omega arith
accounted-add_outcome row (skipped s) r = omega arith
accounted-add_outcome row (RowOutcome.failed e) r = omega arith

-- A row that is found by any test is found by its key, or another of that key is.
known_key :
    (q : Delivery → Bool) (xs : List Delivery) (e : Delivery)
    → find? q xs ≡ some e
    → (d : Delivery) × (find? (λ r. r.id == e.id) xs ≡ some d)
unfolding find?
known_key q [] e h = absurd (cc)
known_key q (x ∷ xs) e h = elim (Bool-cases (x.id == e.id)) [
  | inl same ↦ (x, rw same)
  | inr other ↦ elim (Bool-cases (q x)) [
    | inl t ↦ absurd (ground arith)
    | inr t ↦ rw other (known_key q xs e (rw t at h))
  ]
]

-- An upsert of a row that is there needs amounts that fit.
abbrev pub MayFit : Mode → RawImportRow → Type 0
MayFit mode raw = (mode ≡ create_only) ⊎ (fits raw ≡ true)

import_delivery-total :
    (mode : Mode) (pickup_address order_ref lieu : String) (raw : RawImportRow) (new : Delivery)
    (o : Option Delivery) (q : Delivery → Bool) (db : Db)
    → MayFit mode raw
    → find? q db.deliveries ≡ o
    → (out : RowOutcome) × ((import_delivery mode pickup_address order_ref lieu raw new o db).0
        ≡ ok out)
unfolding import_delivery
import_delivery-total create_only pickup_address order_ref lieu raw new none q db m h = (_, refl)
import_delivery-total upsert pickup_address order_ref lieu raw new none q db m h = (_, refl)
import_delivery-total create_only pickup_address order_ref lieu raw new (some e) q db m h =
    (_, refl)
import_delivery-total upsert pickup_address order_ref lieu raw new (some e) q db (inl c) h =
    absurd (cc c)
import_delivery-total upsert pickup_address order_ref lieu raw new (some e) q db (inr t) h =
    let (d, k) = known_key q db.deliveries e h in (RowOutcome.updated, ground arith)

module _ (keys : ℕ → ℕ) (company_id : ℕ) (pickup_address : String) (mode : Mode) where
  import_fields-total :
      (raw : RawImportRow) (order_ref lieu : Option String) (db : Db)
      → MayFit mode raw
      → (out : RowOutcome) × ((import_fields keys company_id pickup_address mode raw order_ref lieu
            db).0
          ≡ ok out)
  unfolding import_fields
  import_fields-total raw none lieu db m = (_, refl)
  import_fields-total raw (some order_ref) none db m = (_, refl)
  import_fields-total raw (some order_ref) (some lieu) db m =
      import_delivery-total mode pickup_address order_ref lieu raw
        (imported_delivery (keys raw.row) company_id pickup_address order_ref lieu raw)
        (find? (is_import_match company_id order_ref) db.deliveries)
        (is_import_match company_id order_ref) db m refl

  import_row-total :
      (raw : RawImportRow) (db : Db)
      → MayFit mode raw
      → (out : RowOutcome) × ((import_row keys company_id pickup_address mode raw db).0 ≡ ok out)
  unfolding import_row
  import_row-total raw db m = import_fields-total raw (truthy raw.order_ref) (truthy raw.lieu) db m

  -- An import that only creates, or one whose rows have amounts that fit 32 bits, comes to its end,
  -- and its report speaks of each row of the file exactly once: as created, as updated, as skipped,
  -- or as an error.
  pub import_rows-accounted :
      (raws : List RawImportRow) (db : Db)
      → All (MayFit mode) raws
      → (r : ImportResult) × ((import_rows keys company_id pickup_address mode raws db).0 ≡ ok r)
        × (accounted r ≡ length raws)
  unfolding import_rows
  import_rows-accounted [] db m = (_, refl, refl)
  import_rows-accounted (raw ∷ raws) db m =
      let (out, e) = import_row-total raw db m.0 in
      let after = (import_row keys company_id pickup_address mode raw db).1 in
      let (r, f, n) = import_rows-accounted raws after m.1 in
      (
        add_outcome raw.row out r,
        ground (arith, e, f),
        omega (arith, accounted-add_outcome raw.row out r, n),
      )

any_mono :
    (p q : Delivery → Bool) (xs : List Delivery)
    → ((x : Delivery) → p x ≡ true → q x ≡ true)
    → any p xs ≡ true
    → any q xs ≡ true
any_mono p q [] h e = e
any_mono p q (x ∷ xs) h e = elim (Bool-cases (p x)) [
  | inl t ↦ rw (h x t)
  | inr t ↦ or_true (q x) (any q xs) (any_mono p q xs h (rw t at e))
]
  where
    or_true : (a b : Bool) → b ≡ true → (a || b) ≡ true
    or_true true b k = refl
    or_true false b k = k

abbrev pub has_reference : ℕ → String → Delivery → Bool
has_reference company_id order_ref d =
    d.company_id == company_id && same_reference d.external_order_ref (some order_ref)

taken :
    (new_id company_id : ℕ) (pickup_address order_ref lieu : String) (raw : RawImportRow)
    (xs : List Delivery)
    → any (has_reference company_id order_ref) xs ≡ true
    → any (conflicts (imported_delivery new_id company_id pickup_address order_ref lieu raw)) xs
      ≡ true
unfolding imported_delivery
taken new_id company_id pickup_address order_ref lieu raw xs there =
    any_mono (has_reference company_id order_ref)
      (conflicts (imported_delivery new_id company_id pickup_address order_ref lieu raw)) xs
      (λ x h. ground arith) there

-- An insert that a unique index refuses is a duplicate.
refused :
    (mode : Mode) (pickup_address order_ref lieu : String) (raw : RawImportRow) (new : Delivery)
    (db : Db)
    → (fits_column new.amount && fits_column new.article_price) ≡ true
    → any (conflicts new) db.deliveries ≡ true
    → import_delivery mode pickup_address order_ref lieu raw new none db
      ≡ (ok (skipped order_ref), db)
unfolding import_delivery create_row create_delivery insert_row
refused create_only pickup_address order_ref lieu raw new db t h = rw (t, h) refl
refused upsert pickup_address order_ref lieu raw new db t h = rw (t, h) refl

-- A reference that only a deleted delivery of the company has, with amounts that fit 32 bits, is
-- never imported again, in neither mode: the row is skipped as a duplicate and nothing is written,
-- since the unique index counts rows that are deleted softly and `findFirst` does not see them.
pub import_row-tombstone :
    (keys : ℕ → ℕ) (company_id : ℕ) (pickup_address : String) (mode : Mode) (raw : RawImportRow)
    (order_ref lieu : String) (db : Db)
    → truthy raw.order_ref ≡ some order_ref
    → truthy raw.lieu ≡ some lieu
    → fits raw ≡ true
    → find? (is_import_match company_id order_ref) db.deliveries ≡ none
    → any (has_reference company_id order_ref) db.deliveries ≡ true
    → import_row keys company_id pickup_address mode raw db ≡ (ok (skipped order_ref), db)
unfolding import_row
import_row-tombstone keys company_id pickup_address mode raw order_ref lieu db a b t gone there =
    rw (a, b, import_fields)
      (rw (gone, import_fields)
        (refused mode pickup_address order_ref lieu raw
          (imported_delivery (keys raw.row) company_id pickup_address order_ref lieu raw) db
          (unfold imported_delivery in t)
          (taken (keys raw.row) company_id pickup_address order_ref lieu raw db.deliveries there)))
