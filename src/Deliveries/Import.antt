-- ===== src/Deliveries/Import.antt =====
-- `importDeliveriesFile` of backend/src/modules/deliveries/deliveries.service.ts, from the rows that
-- the parser of the Excel or PDF file gives.
use Prim.Native.String.{String, ◌++◌}
use text.Mathlib.Text.{◌==◌ as str_eq}
use delivery_tracking.Prelude.{
  ℕ, suc, ◌==◌, leb, Bool, true, false, not, throw_if, ◌&&◌, ◌||◌, Option, none, some, List, [],
  ◌∷◌, is_none, if◌then◌else◌, ok, err, pure, throw, ◌>>=◌, ◌>>◌,
}
use delivery_tracking.Prelude.Table.{find?}
use delivery_tracking.Deliveries.Status.{
  DeliveryStatus, pending, assigned, in_progress, same_status,
}
use delivery_tracking.Deliveries.Model.{
  Delivery, Error, unique_violation, unreadable_file, empty_file, value_out_of_range, Method,
  override,
}
use delivery_tracking.Deliveries.Service.{same_reference, insert_row, update_row}
use delivery_tracking.Deliveries.Amount.{codes, parse_amount}

pub data Mode : Type 0 where
  create_only upsert : Mode

pub record RawImportRow : Type 0 where
  pub row : ℕ
  pub order_ref : Option String
  pub lieu : Option String
  pub adresse : Option String
  pub telephone : Option String
  pub montant : Option String
  pub prix : Option String
  pub produits : Option String
  pub observation : Option String
  pub notes : Option String

pub data RowError : Type 0 where
  missing_order_ref missing_lieu : RowError
  refused : Error → RowError

pub record ImportResult : Type 0 where
  pub created : ℕ
  pub updated : ℕ
  pub skipped : List (ℕ × String)
  pub errors : List (ℕ × RowError)

pub data RowOutcome : Type 0 where
  created updated : RowOutcome
  skipped : String → RowOutcome
  failed : RowError → RowOutcome

-- `text || undefined`
abbrev pub truthy : Option String → Option String
truthy none = none
truthy (some s) = if str_eq s "" then none else some s

abbrev pub amount_of : Option String → Option ℕ
amount_of none = parse_amount none
amount_of (some s) = parse_amount (some (codes s))

-- `[notes, observation && ...].filter(Boolean).join('\n') || undefined`
abbrev pub join_notes : Option String → Option String → Option String
join_notes none none = none
join_notes (some n) none = some n
join_notes none (some o) = some ("Observation: " ++ o)
join_notes (some n) (some o) = some (n ++ "\n" ++ "Observation: " ++ o)

abbrev pub notes_of : RawImportRow → Option String
notes_of raw = join_notes (truthy raw.notes) (truthy raw.observation)

abbrev pub is_import_match : ℕ → String → Delivery → Bool
is_import_match company_id order_ref d =
    d.company_id == company_id
    && same_reference d.external_order_ref (some order_ref)
    && is_none d.deleted_at

abbrev pub not_started : DeliveryStatus → Bool
not_started s = same_status s pending || same_status s assigned

-- The columns that an upsert writes; one that is undefined is left as it stands.
unfoldable pub upsert_change : String → String → RawImportRow → Delivery → Delivery
upsert_change pickup_address lieu raw d = record d {
  delivery_address = lieu;
  delivery_location_label = override raw.adresse d.delivery_location_label;
  client_phone = override raw.telephone d.client_phone;
  amount = override (amount_of raw.montant) d.amount;
  article_price = override (amount_of raw.prix) d.article_price;
  product_description = override raw.produits d.product_description;
  description = override (truthy raw.produits) d.description;
  notes = override (notes_of raw) d.notes;
  pickup_address = pickup_address;
}

-- The columns of amounts are integers of 32 bits, and Prisma throws where a value does not fit.
abbrev pub fits_column : Option ℕ → Bool
fits_column none = true
fits_column (some n) = leb n 2147483647

abbrev pub fits : RawImportRow → Bool
fits raw = fits_column (amount_of raw.montant) && fits_column (amount_of raw.prix)

abbrev pub start : Delivery → Delivery
start d = record d { status = in_progress }

unfoldable pub imported_delivery : ℕ → ℕ → String → String → String → RawImportRow → Delivery
imported_delivery new_id company_id pickup_address order_ref lieu raw = record {
  id = new_id;
  company_id = company_id;
  status = in_progress;
  title = order_ref;
  description = truthy raw.produits;
  pickup_address = pickup_address;
  pickup_lat = none;
  pickup_lng = none;
  pickup_location_label = none;
  delivery_address = lieu;
  delivery_lat = none;
  delivery_lng = none;
  delivery_location_label = raw.adresse;
  scheduled_date = none;
  completed_at = none;
  delivery_proof_lat = none;
  delivery_proof_lng = none;
  delivery_proof_distance = none;
  delivery_proof_accuracy = none;
  location_mismatch = false;
  mismatch_resolved = false;
  notes = notes_of raw;
  client_phone = raw.telephone;
  amount = amount_of raw.montant;
  article_price = amount_of raw.prix;
  product_description = raw.produits;
  external_order_ref = some order_ref;
  tour_sequence = none;
  deleted_at = none;
  vehicle_id = none;
  driver_id = none;
  assigned_driver_id = none;
  client_id = none;
}

-- `existing.status` decides whether the status is written too.
unfoldable pub upsert_write : String → String → RawImportRow → DeliveryStatus → Delivery → Delivery
unfolding upsert_change
upsert_write pickup_address lieu raw status d =
    let e = upsert_change pickup_address lieu raw d in if not_started status then start e else e

unfoldable pub upsert_row : String → String → RawImportRow → Delivery → Method RowOutcome
unfolding update_row upsert_write
upsert_row pickup_address lieu raw existing = do
  throw_if (not (fits raw)) value_out_of_range
  update_row existing.id (upsert_write pickup_address lieu raw existing.status)
  pure updated

abbrev pub create_refused : String → Error → RowOutcome
create_refused order_ref unique_violation = skipped order_ref
create_refused order_ref e = failed (refused e)

-- `prisma.delivery.create`.
unfoldable pub create_delivery : Delivery → Method (Unit {0})
create_delivery d db =
    if fits_column d.amount && fits_column d.article_price
    then insert_row d db
    else (err value_out_of_range, db)

-- Any refusal of the insert is caught; that of a unique index counts as a duplicate.
unfoldable pub create_row : String → Delivery → Method RowOutcome
unfolding create_delivery
create_row order_ref d db =
    let (r, db') = create_delivery d db in
    (ok (elim r [ ok _ ↦ created | err e ↦ create_refused order_ref e ]), db')

-- A row whose reference and place are there, by what `findFirst` gives for the reference.
unfoldable pub import_delivery :
    Mode → String → String → String → RawImportRow → Delivery → Option Delivery → Method RowOutcome
unfolding upsert_row create_row
import_delivery mode pickup_address order_ref lieu raw new none = create_row order_ref new
import_delivery create_only pickup_address order_ref lieu raw new (some existing) =
    pure (skipped order_ref)
import_delivery upsert pickup_address order_ref lieu raw new (some existing) =
    upsert_row pickup_address lieu raw existing

unfoldable pub import_fields :
    (ℕ → ℕ) → ℕ → String → Mode → RawImportRow → Option String → Option String → Method RowOutcome
unfolding import_delivery imported_delivery
import_fields keys company_id pickup_address mode raw none lieu db =
    pure (failed missing_order_ref) db
import_fields keys company_id pickup_address mode raw (some order_ref) none db =
    pure (failed missing_lieu) db
import_fields keys company_id pickup_address mode raw (some order_ref) (some lieu) db =
    import_delivery mode pickup_address order_ref lieu raw
      (imported_delivery (keys raw.row) company_id pickup_address order_ref lieu raw)
      (find? (is_import_match company_id order_ref) db.deliveries) db

-- `keys` stands for the keys that the database gives to new rows.
unfoldable pub import_row : (ℕ → ℕ) → ℕ → String → Mode → RawImportRow → Method RowOutcome
unfolding import_fields
import_row keys company_id pickup_address mode raw =
    import_fields keys company_id pickup_address mode raw (truthy raw.order_ref) (truthy raw.lieu)

abbrev pub add_outcome : ℕ → RowOutcome → ImportResult → ImportResult
add_outcome row created r = record r { created = suc r.created }
add_outcome row updated r = record r { updated = suc r.updated }
add_outcome row (skipped order_ref) r = record r { skipped = (row, order_ref) ∷ r.skipped }
add_outcome row (failed e) r = record r { errors = (row, e) ∷ r.errors }

unfoldable pub import_rows : (ℕ → ℕ) → ℕ → String → Mode → List RawImportRow → Method ImportResult
import_rows keys company_id pickup_address mode [] =
    pure (record { created = 0; updated = 0; skipped = []; errors = [] })
import_rows keys company_id pickup_address mode (raw ∷ raws) = do
  outcome ← import_row keys company_id pickup_address mode raw
  result ← import_rows keys company_id pickup_address mode raws
  pure (add_outcome raw.row outcome result)

unfoldable pub import_deliveries_file :
    (ℕ → ℕ) → ℕ → Option (List RawImportRow) → String → Mode → Method ImportResult
unfolding import_rows
import_deliveries_file keys company_id none pickup_address mode = throw unreadable_file
import_deliveries_file keys company_id (some []) pickup_address mode = throw empty_file
import_deliveries_file keys company_id (some (raw ∷ raws)) pickup_address mode =
    import_rows keys company_id pickup_address mode (raw ∷ raws)
