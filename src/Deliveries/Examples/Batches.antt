-- ===== src/Deliveries/Examples/Batches.antt =====
-- The theorems about sequences of requests, bulk actions and tours, at concrete inputs.
use delivery_tracking.Prelude.{◌≤◌, ◌≡◌, refl, Option, none, some, List, [], ◌∷◌, ok, err, All}
use delivery_tracking.Prelude.Table.{find?, update_first}
use delivery_tracking.Deliveries.Status.{delivered, failed, is_valid_transition}
use delivery_tracking.Deliveries.Model.{
  undefined, Coordinates, delivery_in_progress, too_few_deliveries,
}
use delivery_tracking.Deliveries.Bulk.{
  BulkActionDto, empty_result, update_status, delete, bulk_row, bulk_action,
}
use delivery_tracking.Deliveries.Tour.{Trip, Tour, optimize_tour}
use delivery_tracking.Deliveries.Lifecycle.{IsDated, Extends, IsKeyed}
use delivery_tracking.Deliveries.BulkLaws.Partition.{bulk_action-partition}
use delivery_tracking.Deliveries.BulkLaws.Pushes.{occurrences, reported}
use delivery_tracking.Deliveries.Reachable.{
  Request, change_status, bulk, delete_delivery, serve_all, serve_all-Extends, serve_all-IsDated,
}
use delivery_tracking.Deliveries.TourLaws.{HasPlace, optimize_tour-places}
use delivery_tracking.Deliveries.Examples.{env, two_rows}

-- A route that takes the stops in the reverse of the order given, for two stops.
abbrev reverse_trip : List Coordinates → Option Trip
reverse_trip _ = some (record { order = 1 ∷ 0 ∷ []; distance = 900; duration = 60 })

abbrev fail_all : BulkActionDto
fail_all = record {
  ids = 1 ∷ 2 ∷ 1 ∷ 9 ∷ [];
  action = update_status;
  status = some failed;
  driver_id = none;
}

abbrev delete_all : BulkActionDto
delete_all = record { ids = 1 ∷ 2 ∷ []; action = delete; status = none; driver_id = none }

abbrev requests : List Request
requests =
    change_status 1000 7 1 (record {
      status = delivered;
      latitude = undefined;
      longitude = undefined;
      accuracy = undefined;
    })
    ∷ bulk 2000 7 fail_all
    ∷ delete_delivery 3000 7 2
    ∷ []

two_rows-IsKeyed : IsKeyed two_rows.deliveries
two_rows-IsKeyed = ((refl, tt), (tt, tt))

two_rows-IsDated : All IsDated two_rows.deliveries
two_rows-IsDated = (λ h. absurd (cc h), (λ h. absurd (cc h), tt))

serve_all-Extends_example :
    Extends two_rows.deliveries (serve_all env reverse_trip requests two_rows).deliveries
    × IsKeyed (serve_all env reverse_trip requests two_rows).deliveries
serve_all-Extends_example = serve_all-Extends env reverse_trip requests two_rows two_rows-IsKeyed

serve_all-IsDated_example : All IsDated (serve_all env reverse_trip requests two_rows).deliveries
serve_all-IsDated_example =
    serve_all-IsDated env reverse_trip requests two_rows two_rows-IsKeyed two_rows-IsDated

bulk_action-partition_example :
    (reported 1 (bulk_action env 2000 7 fail_all two_rows).0 ≡ 2)
    × (occurrences 1 (bulk_action env 2000 7 fail_all two_rows).0.succeeded ≤ 2)
unfolding find? is_valid_transition
bulk_action-partition_example = bulk_action-partition env 2000 7 fail_all two_rows 1

running_is_kept :
    bulk_row env 2000 7 delete_all two_rows.deliveries 1 (empty_result, two_rows)
    ≡ (record { succeeded = []; failed = (1, delivery_in_progress) ∷ [] }, two_rows)
unfolding bulk_row find?
running_is_kept = refl

abbrev reversed : Tour
reversed = record { order = (2, 1) ∷ (1, 2) ∷ []; distance = 900; duration = 60; skipped = [] }

reverse_works : (optimize_tour reverse_trip 7 (1 ∷ 2 ∷ []) two_rows).0 ≡ ok reversed
unfolding optimize_tour find? update_first
reverse_works = refl

optimize_tour-places_example :
    All (HasPlace (optimize_tour reverse_trip 7 (1 ∷ 2 ∷ []) two_rows).1) reversed.order
optimize_tour-places_example =
    optimize_tour-places reverse_trip 7 (1 ∷ 2 ∷ []) two_rows reversed reverse_works
      ((refl, tt), (tt, tt))

one_is_too_few : (optimize_tour reverse_trip 7 (1 ∷ []) two_rows).0 ≡ err too_few_deliveries
unfolding optimize_tour find?
one_is_too_few = refl
