-- ===== src/Deliveries/Tour.antt =====
-- `optimizeTour` of backend/src/modules/deliveries/deliveries.service.ts.
use delivery_tracking.Prelude.{
  ℕ, ◌+◌, Option, none, some, List, [], ◌∷◌, map, length, get_elem?, ltb, ok, err, pure, or_throw,
  throw_if, ◌>>=◌, ◌>>◌,
}
use delivery_tracking.Prelude.Table.{find?}
use delivery_tracking.Deliveries.Model.{
  Delivery, too_few_deliveries, too_few_coordinates, routing_failed, Method, Coordinates,
}
use delivery_tracking.Deliveries.Location.{both}
use delivery_tracking.Deliveries.Service.{is_live_in, update_row}

pub data SkipReason : Type 0 where
  not_found no_coordinates : SkipReason

pub record Stop : Type 0 where
  pub id : ℕ
  pub at : Coordinates

pub record Stops : Type 0 where
  pub skipped : List (ℕ × SkipReason)
  pub valid : List Stop

-- The answer of `routing.optimizeTrip`: the indices of the stops in the order of the tour.
pub record Trip : Type 0 where
  pub order : List ℕ
  pub distance : ℕ
  pub duration : ℕ

pub record Tour : Type 0 where
  pub order : List (ℕ × ℕ)
  pub distance : ℕ
  pub duration : ℕ
  pub skipped : List (ℕ × SkipReason)

abbrev pub add_stop : ℕ → Option Delivery → Stops → Stops
add_stop id none s = record s { skipped = (id, not_found) ∷ s.skipped }
add_stop id (some d) s = elim (both d.delivery_lat d.delivery_lng) [
  | none ↦ record s { skipped = (id, no_coordinates) ∷ s.skipped }
  | some c ↦ record s { valid = record { id = id; at = c } ∷ s.valid }
]

unfoldable pub collect_stops : ℕ → List Delivery → List ℕ → Stops
collect_stops company_id deliveries [] = record { skipped = []; valid = [] }
collect_stops company_id deliveries (id ∷ ids) =
    add_stop id (find? (is_live_in company_id id) deliveries)
      (collect_stops company_id deliveries ids)

-- `trip.order.map((i) => valid[i].id)`, which throws on an index that is out of range.
unfoldable pub ordered_ids : List Stop → List ℕ → Option (List ℕ)
ordered_ids valid [] = some []
ordered_ids valid (i ∷ is) = elim (get_elem? valid i) [
  | none ↦ none
  | some s ↦ elim (ordered_ids valid is) [ none ↦ none | some ids ↦ some (s.id ∷ ids) ]
]

abbrev pub set_sequence : ℕ → Delivery → Delivery
set_sequence n d = record d { tour_sequence = some n }

-- The updates of the transaction, from position `n`.
unfoldable pub write_sequence : ℕ → List ℕ → Method (Unit {0})
write_sequence n [] = pure tt
write_sequence n (id ∷ ids) = do update_row id (set_sequence (n + 1)); write_sequence (n + 1) ids

-- `$transaction`: an update that throws takes the others back.
abbrev pub transaction : {A : Type 0} → Method A → Method A
transaction m db = let (r, db') = m db in elim r [ ok a ↦ (ok a, db') | err e ↦ (err e, db) ]

abbrev pub numbered : ℕ → List ℕ → List (ℕ × ℕ)
numbered n [] = []
numbered n (id ∷ ids) = (id, n + 1) ∷ numbered (n + 1) ids

unfoldable pub tour_of_stops : (List Coordinates → Option Trip) → List ℕ → Stops → Method Tour
unfolding ordered_ids write_sequence update_row
tour_of_stops optimize_trip ids stops = do
  throw_if (ltb (length ids) 2) too_few_deliveries
  throw_if (ltb (length stops.valid) 2) too_few_coordinates
  trip ← or_throw (optimize_trip (map (λ s. s.at) stops.valid)) routing_failed
  ordered ← or_throw (ordered_ids stops.valid trip.order) routing_failed
  transaction (write_sequence 0 ordered)
  pure (record {
    order = numbered 0 ordered;
    distance = trip.distance;
    duration = trip.duration;
    skipped = stops.skipped;
  })

unfoldable pub optimize_tour : (List Coordinates → Option Trip) → ℕ → List ℕ → Method Tour
unfolding collect_stops tour_of_stops
optimize_tour optimize_trip company_id ids db =
    tour_of_stops optimize_trip ids (collect_stops company_id db.deliveries ids) db
