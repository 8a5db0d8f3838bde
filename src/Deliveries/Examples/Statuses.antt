-- ===== src/Deliveries/Examples/Statuses.antt =====
-- The theorems about the requests on one delivery, at concrete inputs.
use delivery_tracking.Prelude.{ℕ, ◌≡◌, ◌↔◌, refl, true, false, Option, none, some, [], ok}
use delivery_tracking.Prelude.Table.{Rows, find?}
use delivery_tracking.Deliveries.Status.{in_progress, delivered, is_driver_status}
use delivery_tracking.Deliveries.Model.{UpdateDeliveryStatusDto, undefined, null, value}
use delivery_tracking.Deliveries.Location.{
  both, without_coordinates, verify_delivery_location, last_gps, is_recent_fix, latest_fix,
}
use delivery_tracking.Deliveries.Service.{
  Checked, check_status, check_driver_status, commit_status, to_assigned_driver, to_company,
}
use delivery_tracking.Deliveries.Transitions.{
  IsStep, update_status-follows_matrix, update_driver_status-follows_matrix,
}
use delivery_tracking.Deliveries.Verdict.{
  flagged, notified_mismatch, Suspicious, stated_destination, IsLatest, readable, verify-flagged,
}
use delivery_tracking.Deliveries.Messages.{HasSent, commit_status-HasSent}
use delivery_tracking.Deliveries.Examples.{env, parcel, two_rows, closed_rows}

abbrev deliver : UpdateDeliveryStatusDto
deliver = record {
  status = delivered;
  latitude = undefined;
  longitude = undefined;
  accuracy = undefined;
}

abbrev checked : Checked
checked = record { delivery = parcel 1 in_progress; verification = without_coordinates }

checked_by_admin : (check_status env 1000 7 1 deliver two_rows).0 ≡ ok checked
unfolding check_status find?
checked_by_admin = refl

checked_by_driver : (check_driver_status env 1000 7 1 50 deliver two_rows).0 ≡ ok checked
unfolding check_driver_status find?
checked_by_driver = refl

update_status-follows_matrix_example :
    Rows
      (IsStep 1000 delivered without_coordinates)
      closed_rows.deliveries
      (commit_status env 1000 7 1 deliver to_assigned_driver checked closed_rows).1.deliveries
update_status-follows_matrix_example =
    update_status-follows_matrix env 1000 7 1 deliver two_rows closed_rows checked checked_by_admin

update_driver_status-follows_matrix_example :
    Rows
      (IsStep 1000 delivered without_coordinates)
      two_rows.deliveries
      (commit_status env 1000 7 1 deliver to_company checked two_rows).1.deliveries
    × (◌≡◌ {A = Option ℕ} (some 50) (some 50))
    × (is_driver_status delivered ≡ true)
update_driver_status-follows_matrix_example =
    update_driver_status-follows_matrix env 1000 7 1 50 deliver two_rows two_rows checked
      checked_by_driver

commit_wins :
    (commit_status env 1000 7 1 deliver to_company checked two_rows).0
    ≡ ok (record (parcel 1 delivered) { completed_at = some 1000; location_mismatch = true })
unfolding commit_status find?
commit_wins = refl

commit_status-HasSent_example :
    HasSent 1 1 [] (commit_status env 1000 7 1 deliver to_company checked two_rows).1.sent
commit_status-HasSent_example =
    commit_status-HasSent env 1000 7 1 deliver to_company checked two_rows
      (record (parcel 1 delivered) { completed_at = some 1000; location_mismatch = true })
      commit_wins

-- A proof 300 m off the destination.
abbrev far_proof : UpdateDeliveryStatusDto
far_proof = record {
  status = delivered;
  latitude = value 1300;
  longitude = value 2000;
  accuracy = undefined;
}

verify-flagged_example :
    ((flagged (verify_delivery_location env 1000 (parcel 1 in_progress) far_proof two_rows).0
        ≡ true)
      ↔ Suspicious env
          (both (some 1300) (some 2000))
          (stated_destination env (parcel 1 in_progress))
          (last_gps env 1000 1 []))
    × (notified_mismatch
          (verify_delivery_location env 1000 (parcel 1 in_progress) far_proof two_rows).0
        ≡ flagged (verify_delivery_location env 1000 (parcel 1 in_progress) far_proof two_rows).0)
    × IsLatest (is_recent_fix env 1000 1) (readable env []) (last_gps env 1000 1 [])
verify-flagged_example = verify-flagged env 1000 (parcel 1 in_progress) far_proof two_rows refl

far_is_flagged :
    flagged (verify_delivery_location env 1000 (parcel 1 in_progress) far_proof two_rows).0 ≡ true
unfolding verify_delivery_location
far_is_flagged = refl

-- A proof whose coordinates are null is not flagged where there is neither a destination nor a trace.
null_is_not_flagged :
    flagged
      (verify_delivery_location env 1000
        (record (parcel 1 in_progress) { delivery_lat = none; delivery_address = "" })
        (record far_proof { latitude = null; longitude = null })
        two_rows).0
    ≡ false
unfolding verify_delivery_location latest_fix
null_is_not_flagged = refl
