-- ===== src/Deliveries/Examples/Edits.antt =====
-- The theorems about creations, updates and imports, at concrete inputs.
use delivery_tracking.Prelude.{
  ◌==◌, ◌||◌, ◌≡◌, ◌≢◌, refl, true, false, none, some, [], ◌∷◌, ok, inr,
}
use delivery_tracking.Prelude.Table.{find?}
use delivery_tracking.Deliveries.Status.{
  in_progress, delivered, failed, same_status, is_valid_transition,
}
use delivery_tracking.Deliveries.Model.{
  Delivery, undefined, null, value, CreateDeliveryDto, UpdateDeliveryDto, Db,
}
use delivery_tracking.Deliveries.Amount.{parse_amount}
use delivery_tracking.Deliveries.Edit.{Planned, check_update, commit_update, create, new_delivery}
use delivery_tracking.Deliveries.Import.{
  is_import_match, RawImportRow, upsert, import_rows, import_row, skipped, ImportResult, fits,
}
use delivery_tracking.Deliveries.EditLaws.{update-leaves_terminal}
use delivery_tracking.Deliveries.ImportLaws.{accounted, import_rows-accounted, import_row-tombstone}
use delivery_tracking.Deliveries.Examples.{env, parcel, with_rows, two_rows, closed_rows}

abbrev for_driver : CreateDeliveryDto
for_driver = record {
  title = "parcel";
  description = none;
  status = none;
  pickup_address = "depot";
  pickup_lat = none;
  pickup_lng = none;
  pickup_location_label = none;
  delivery_address = "Analakely";
  delivery_lat = value 1000;
  delivery_lng = value 2000;
  delivery_location_label = none;
  scheduled_date = none;
  notes = none;
  vehicle_id = none;
  driver_id = some 5;
}

abbrev born : Delivery
born = new_delivery 3 7 for_driver none (some 50)

create_works : (create env 3 7 for_driver two_rows).0 ≡ ok born
unfolding create find? new_delivery
create_works = refl

abbrev patch : UpdateDeliveryDto
patch = record {
  title = none;
  description = undefined;
  status = none;
  pickup_address = none;
  pickup_lat = undefined;
  pickup_lng = undefined;
  pickup_location_label = undefined;
  delivery_address = none;
  delivery_lat = undefined;
  delivery_lng = undefined;
  delivery_location_label = undefined;
  scheduled_date = undefined;
  notes = undefined;
  vehicle_id = undefined;
  driver_id = undefined;
}

abbrev fail_it : UpdateDeliveryDto
fail_it = record patch { status = some failed }

abbrev planned : Planned
planned = record { delivery = parcel 1 in_progress; found = none; assigned = undefined }

fail_checked : (check_update env 7 1 fail_it two_rows).0 ≡ ok planned
unfolding check_update find?
fail_checked = refl

first_closed :
    find? (λ r. r.id == 1) closed_rows.deliveries
    ≡ some (record (parcel 1 delivered) { completed_at = some 900 })
unfolding find?
first_closed = refl

failed-other : failed ≢ delivered
failed-other = λ e. cc

update-leaves_terminal_example :
    (e : Delivery) × (find?
        (λ r. r.id == 1)
        (commit_update env 1000 7 1 fail_it planned closed_rows).1.deliveries
      ≡ some e)
    × (e.status ≡ failed)
    × (e.status ≢ delivered)
    × (is_valid_transition delivered e.status ≡ false)
    × ((same_status in_progress e.status || is_valid_transition in_progress e.status) ≡ true)
update-leaves_terminal_example =
    update-leaves_terminal env 1000 7 1 fail_it two_rows closed_rows planned
      (record (parcel 1 delivered) { completed_at = some 900 }) failed fail_checked refl refl
      first_closed refl failed-other

abbrev take_off : UpdateDeliveryDto
take_off = record patch { driver_id = null }

take_off_checked : (check_update env 7 1 take_off two_rows).0 ≡ ok planned
unfolding check_update find?
take_off_checked = refl

first_open : find? (λ r. r.id == 1) two_rows.deliveries ≡ some (parcel 1 in_progress)
unfolding find?
first_open = refl

abbrev order_row : RawImportRow
order_row = record {
  row = 4;
  order_ref = some "240101-00001";
  lieu = some "Analakely";
  adresse = none;
  telephone = none;
  montant = some "12 000 Ar";
  prix = none;
  produits = some "shoes";
  observation = none;
  notes = none;
}

-- The only delivery with the reference was deleted.
abbrev deleted_rows : Db
deleted_rows = with_rows (record (parcel 1 failed) { deleted_at = some 500 } ∷ [])

row_fits : fits order_row ≡ true
unfolding parse_amount
row_fits = refl

import_rows-accounted_example :
    (r : ImportResult) × ((import_rows
        (λ row. row)
        7
        "depot"
        upsert
        (order_row ∷ order_row ∷ [])
        two_rows).0
      ≡ ok r)
    × (accounted r ≡ 2)
import_rows-accounted_example =
    import_rows-accounted (λ row. row) 7 "depot" upsert (order_row ∷ order_row ∷ []) two_rows
      (inr row_fits, (inr row_fits, tt))

deleted_hidden : find? (is_import_match 7 "240101-00001") deleted_rows.deliveries ≡ none
unfolding find?
deleted_hidden = refl

import_row-tombstone_example :
    import_row (λ row. row) 7 "depot" upsert order_row deleted_rows
    ≡ (ok (skipped "240101-00001"), deleted_rows)
import_row-tombstone_example =
    import_row-tombstone (λ row. row) 7 "depot" upsert order_row "240101-00001" "Analakely"
      deleted_rows refl refl row_fits deleted_hidden refl
