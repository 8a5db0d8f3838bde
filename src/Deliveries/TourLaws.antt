-- ===== src/Deliveries/TourLaws.antt =====
-- What the optimisation of a tour writes.
use mathlib.Core.Path.{subst}
use delivery_tracking.Prelude.{
  ℕ, ◌+◌, ◌==◌, ◌≡◌, refl, ap, sym, inl, inr, false, Option, some, List, [], ◌∷◌, arith, ok, err,
  All, Option-cases, Result-cases, ◌∙◌, map,
}
use delivery_tracking.Prelude.Table.{find?, find?-holds, find?-update_first, update_first}
use delivery_tracking.Deliveries.Model.{Delivery, Db, Error, Coordinates}
use delivery_tracking.Deliveries.Service.{update_row}
use delivery_tracking.Deliveries.Tour.{
  Trip, Tour, Stops, set_sequence, write_sequence, numbered, tour_of_stops, ordered_ids,
  optimize_tour, collect_stops,
}

abbrev pub IsAbsent : ℕ → List ℕ → Type 0
IsAbsent id ids = All (λ j. (j == id) ≡ false) ids

abbrev pub IsDistinct : List ℕ → Type 0
IsDistinct [] = Unit
IsDistinct (id ∷ ids) = IsAbsent id ids × IsDistinct ids

abbrev pub ids_of : List (ℕ × ℕ) → List ℕ
ids_of [] = []
ids_of ((id, _) ∷ r) = id ∷ ids_of r

-- The row of the identifier has the place that the answer tells.
abbrev pub HasPlace : Db → ℕ × ℕ → Type 0
HasPlace db entry =
    (d : Delivery) × (find? (λ r. r.id == entry.0) db.deliveries ≡ some d)
    × (d.tour_sequence ≡ some entry.1)

find?-other :
    (id j n : ℕ) (xs : List Delivery)
    → (j == id) ≡ false
    → find? (λ r. r.id == id) (update_first (λ r. r.id == j) (set_sequence n) xs)
      ≡ find? (λ r. r.id == id) xs
unfolding find? update_first
find?-other id j n [] ne = refl
find?-other id j n (x ∷ xs) ne = ground (arith, find?-other id j n xs ne)

row_other :
    (id j n : ℕ) (db : Db)
    → (j == id) ≡ false
    → find? (λ r. r.id == id) (update_row j (set_sequence n) db).1.deliveries
      ≡ find? (λ r. r.id == id) db.deliveries
unfolding update_row
row_other id j n db ne = elim (Option-cases (find? (λ r. r.id == j) db.deliveries)) [
  | inl gone ↦ rw (gone, update_row)
  | inr (d, found) ↦ rw (found, update_row) (find?-other id j n db.deliveries ne)
]

row_self :
    (id n : ℕ) (db : Db) (d : Delivery)
    → (update_row id (set_sequence n) db).0 ≡ ok d
    → find? (λ r. r.id == id) (update_row id (set_sequence n) db).1.deliveries ≡ some d
      × (d.tour_sequence ≡ some n)
unfolding update_row
row_self id n db d h = elim (Option-cases (find? (λ r. r.id == id) db.deliveries)) [
  | inl gone ↦ absurd (ground arith)
  | inr (r, found) ↦
      let made : d ≡ set_sequence n r = ground arith in
      rw (found, update_row)
        (rw made (
          find?-update_first (λ x. x.id == id) (set_sequence n) db.deliveries r found
              (find?-holds (λ x. x.id == id) db.deliveries r found),
          refl,
        ))
]

-- The transaction's step at one identifier, by how it ends.
write_next :
    (n j : ℕ) (ids : List ℕ) (db : Db) (d : Delivery)
    → (update_row j (set_sequence (n + 1)) db).0 ≡ ok d
    → write_sequence n (j ∷ ids) db
      ≡ write_sequence (n + 1) ids (update_row j (set_sequence (n + 1)) db).1
unfolding write_sequence
write_next n j ids db d e = ground arith

write_stop :
    (n j : ℕ) (ids : List ℕ) (db : Db) (x : Error)
    → (update_row j (set_sequence (n + 1)) db).0 ≡ err x
    → write_sequence n (j ∷ ids) db ≡ (err x, (update_row j (set_sequence (n + 1)) db).1)
unfolding write_sequence
write_stop n j ids db x e = ground arith

-- The writes of the other places keep the row.
write-other :
    (id n : ℕ) (ids : List ℕ) (db : Db)
    → IsAbsent id ids
    → find? (λ r. r.id == id) (write_sequence n ids db).1.deliveries
      ≡ find? (λ r. r.id == id) db.deliveries
write-other id n [] db a = unfold write_sequence in refl
write-other id n (j ∷ ids) db a = elim (Result-cases (update_row j (set_sequence (n + 1)) db).0) [
  | inl (d, e) ↦ rw (write_next n j ids db d e) (
      write-other id (n + 1) ids (update_row j (set_sequence (n + 1)) db).1 a.1
      ∙ row_other id j (n + 1) db a.0)
  | inr (x, e) ↦ rw (write_stop n j ids db x e) (row_other id j (n + 1) db a.0)
]

write-places :
    (n : ℕ) (ids : List ℕ) (db : Db)
    → IsDistinct ids
    → (write_sequence n ids db).0 ≡ ok tt
    → All (HasPlace (write_sequence n ids db).1) (numbered n ids)
write-places n [] db distinct h = tt
write-places n (id ∷ ids) db distinct h =
    elim (Result-cases (update_row id (set_sequence (n + 1)) db).0) [
      | inl (d, e) ↦
          let after = (update_row id (set_sequence (n + 1)) db).1 in
          let self = row_self id (n + 1) db d e in
          let next = write_next n id ids db d e in
          (
            (
              d,
              ap (λ t. find? (λ r. r.id == id) t.1.deliveries) next
                  ∙ write-other id (n + 1) ids after distinct.0
                  ∙ self.0,
              self.1,
            ),
            subst (λ t. All (HasPlace t.1) (numbered (n + 1) ids)) (sym next)
                (write-places (n + 1) ids after distinct.1 (ap (λ t. t.0) (sym next) ∙ h)),
          )
      | inr (x, e) ↦ absurd (cc (write_stop n id ids db x e, h))
    ]

ids_of-numbered : (n : ℕ) (ids : List ℕ) → ids_of (numbered n ids) ≡ ids
ids_of-numbered n [] = refl
ids_of-numbered n (id ∷ ids) = ap (λ r. id ∷ r) (ids_of-numbered (n + 1) ids)

-- The transaction behind an answer.
pub record Wrote (db after : Db) (t : Tour) : Type 0 where
  pub ordered : List ℕ
  pub answered : t.order ≡ numbered 0 ordered
  pub committed : (write_sequence 0 ordered db).0 ≡ ok tt
  pub stored : after ≡ (write_sequence 0 ordered db).1

tour-Wrote :
    (optimize_trip : List Coordinates → Option Trip) (ids : List ℕ) (stops : Stops) (db : Db)
    (t : Tour)
    → (tour_of_stops optimize_trip ids stops db).0 ≡ ok t
    → Wrote db (tour_of_stops optimize_trip ids stops db).1 t
unfolding tour_of_stops
tour-Wrote optimize_trip ids stops db t h =
    elim (Option-cases (optimize_trip (map (λ s. s.at) stops.valid))) [
      | inl missing ↦ absurd (ground arith)
      | inr (trip, e) ↦ elim (Option-cases (ordered_ids stops.valid trip.order)) [
        | inl missing ↦ absurd (ground arith)
        | inr (ordered, f) ↦ record {
          ordered = ordered;
          answered = ground arith;
          committed = ground arith;
          stored = ground arith;
        }
      ]
    ]

places :
    (db after : Db) (t : Tour)
    → Wrote db after t
    → IsDistinct (ids_of t.order)
    → All (HasPlace after) t.order
places db after t w distinct =
    rw (w.answered, w.stored)
      (write-places 0 w.ordered db
        (subst IsDistinct (ap ids_of w.answered ∙ ids_of-numbered 0 w.ordered) distinct)
        w.committed)

module _ (optimize_trip : List Coordinates → Option Trip) (company_id : ℕ) (ids : List ℕ)
    (db : Db) where
  -- A tour that is optimised leaves each delivery of the answer with the place, counted from 1, that
  -- the answer tells, if the answer names no delivery twice.
  pub optimize_tour-places :
      (t : Tour)
      → (optimize_tour optimize_trip company_id ids db).0 ≡ ok t
      → IsDistinct (ids_of t.order)
      → All (HasPlace (optimize_tour optimize_trip company_id ids db).1) t.order
  unfolding optimize_tour
  optimize_tour-places t h distinct =
      let w = tour-Wrote optimize_trip ids (collect_stops company_id db.deliveries ids) db t h in
      places db (optimize_tour optimize_trip company_id ids db).1 t w distinct

  -- A tour that fails, for too few deliveries, for want of a route or at any of its writes, changes
  -- nothing.
  pub optimize_tour-atomic :
      (e : Error)
      → (optimize_tour optimize_trip company_id ids db).0 ≡ err e
      → (optimize_tour optimize_trip company_id ids db).1 ≡ db
  unfolding optimize_tour
  optimize_tour-atomic e h = ground arith
