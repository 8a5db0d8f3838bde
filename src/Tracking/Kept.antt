-- ===== src/Tracking/Kept.antt =====
-- What becomes of the valid positions of a batch.
use delivery_tracking.Prelude.{
  zero, suc, none, some, get_elem?, ==_iff, Option, if◌then◌else◌, ◌&&◌, ℕ, Bool, true, false, inl,
  inr, Bool-cases, ◌≡◌, refl, sym, ◌==◌, leb, List, [], ◌∷◌, ◌++◌, any, All, arith,
}
use mathlib.Core.Path.{subst}
use mathlib.Core.List.{append_assoc}
use delivery_tracking.Tracking.Rows.{
  UpdatePositionDto, ValidPosition, GpsPosition, Vehicle, Db, Sender, Progress,
}
use delivery_tracking.Tracking.Batch.{
  is_near, is_near_to, db_last, is_dup, resolved_speed, is_suspect, advance, row_of, take_position,
  to_insert, valid_positions, accepts, valid_for,
}
use delivery_tracking.Tracking.Save.{
  insert_by_time, sort_by_time, create_many, start, save_sorted, save_batch,
}
use delivery_tracking.Tracking.Covers.{
  covers, IsCovered, any-append_left, any-append_middle, create_many-covers, reference_of-covers,
}

module _ (P : ValidPosition → Type 0) where
  All-insert :
      (p : ValidPosition) (ps : List ValidPosition) → All P (insert_by_time p ps) → P p × All P ps
  unfolding insert_by_time
  All-insert p [] h = h
  All-insert p (q ∷ ps) h = elim (Bool-cases (leb p.timestamp q.timestamp)) [
    | inl e ↦ rw e at h
    | inr e ↦
        let k : P q × All P (insert_by_time p ps) = rw e at h in
        let (a, b) = All-insert p ps k.1 in (a, (k.0, b))
  ]

  All-sort : (ps : List ValidPosition) → All P (sort_by_time ps) → All P ps
  unfolding sort_by_time
  All-sort [] h = tt
  All-sort (p ∷ ps) h = let (a, b) = All-insert p (sort_by_time ps) h in (a, All-sort ps b)

module _ (sender : Sender) (db : Db) where
  db_last-covers :
      (v t : ℕ) → is_near_to (db_last sender db v) t ≡ true → any (covers v t) db.positions ≡ true
  unfolding db_last
  db_last-covers v t h = reference_of-covers v t db.positions _ refl h

  -- Whatever is near the last position that the maps name is covered.
  abbrev IsKnown : Progress → List GpsPosition → Type 0
  IsKnown s rows = (v t : ℕ) → is_near_to (s.last v) t ≡ true → any (covers v t) rows ≡ true

  row_of-covers :
      (p : ValidPosition) (v t speed : ℕ) (suspect : Bool)
      → (v == p.vehicle_id) ≡ true
      → is_near t p.timestamp ≡ true
      → covers v t (row_of sender db p speed suspect) ≡ true
  row_of-covers p v t speed suspect mine near = ground arith

  IsKnown-advance :
      (s : Progress) (rows : List GpsPosition) (p : ValidPosition) (speed : ℕ) (suspect : Bool)
      → IsKnown s rows
      → IsKnown (advance s p speed suspect) (rows ++ (row_of sender db p speed suspect ∷ []))
  unfolding advance
  IsKnown-advance s rows p speed suspect known v t h = elim (Bool-cases (v == p.vehicle_id)) [
    | inl mine ↦
        any-append_middle (covers v t) rows [] (row_of sender db p speed suspect)
          (row_of-covers p v t speed suspect mine (rw (mine, is_near_to) at h))
    | inr other ↦ any-append_left (covers v t) rows _ (known v t (rw (other, is_near_to) at h))
  ]

  dup-covers :
      (s : Progress) (rows : List GpsPosition) (p : ValidPosition)
      → IsKnown s rows
      → IsKnown (start sender db) rows
      → is_dup sender db s p ≡ true
      → IsCovered rows p
  dup-covers s rows p known old h =
      elim (Bool-cases (is_near_to (s.last p.vehicle_id) p.timestamp)) [
        | inl e ↦ known p.vehicle_id p.timestamp e
        | inr e ↦ old p.vehicle_id p.timestamp (ground arith)
      ]

  to_insert-dup :
      (s : Progress) (p : ValidPosition) (ps : List ValidPosition)
      → is_dup sender db s p ≡ true
      → to_insert sender db s (p ∷ ps) ≡ to_insert sender db s ps
  unfolding to_insert take_position
  to_insert-dup s p ps h = rw h

  next : Progress → ValidPosition → Progress
  next s p =
      let speed = resolved_speed sender db s p in advance s p speed (is_suspect sender db s p speed)

  next_row : Progress → ValidPosition → GpsPosition
  next_row s p =
      let speed = resolved_speed sender db s p in
      row_of sender db p speed (is_suspect sender db s p speed)

  to_insert-new :
      (s : Progress) (p : ValidPosition) (ps : List ValidPosition)
      → is_dup sender db s p ≡ false
      → to_insert sender db s (p ∷ ps) ≡ next_row s p ∷ to_insert sender db (next s p) ps
  unfolding to_insert take_position next next_row
  to_insert-new s p ps h = rw h

  next_row-covers :
      (s : Progress) (p : ValidPosition) → covers p.vehicle_id p.timestamp (next_row s p) ≡ true
  unfolding next_row
  next_row-covers s p = ground arith

  IsKnown-next :
      (s : Progress) (rows : List GpsPosition) (p : ValidPosition)
      → IsKnown s rows
      → IsKnown (next s p) (rows ++ (next_row s p ∷ []))
  unfolding next next_row
  IsKnown-next s rows p known = IsKnown-advance s rows p _ _ known

  IsKnown-append :
      (s : Progress) (rows more : List GpsPosition) → IsKnown s rows → IsKnown s (rows ++ more)
  IsKnown-append s rows more known v t h = any-append_left (covers v t) rows more (known v t h)

  to_insert-covers :
      (s : Progress) (ps : List ValidPosition) (rows : List GpsPosition)
      → IsKnown s rows
      → IsKnown (start sender db) rows
      → All (IsCovered (rows ++ to_insert sender db s ps)) ps
  to_insert-covers s [] rows known old = tt
  to_insert-covers s (p ∷ ps) rows known old = elim (Bool-cases (is_dup sender db s p)) [
    | inl e ↦
        subst (λ l. All (IsCovered (rows ++ l)) (p ∷ ps)) (sym (to_insert-dup s p ps e))
          (
            any-append_left (covers p.vehicle_id p.timestamp) rows _
                (dup-covers s rows p known old e),
            to_insert-covers s ps rows known old,
          )
    | inr e ↦
        let row = next_row s p in
        let rest = to_insert sender db (next s p) ps in
        let ih : All (IsCovered ((rows ++ (row ∷ [])) ++ rest)) ps =
          to_insert-covers (next s p) ps (rows ++ (row ∷ [])) (IsKnown-next s rows p known)
            (IsKnown-append (start sender db) rows (row ∷ []) old) in
        subst (λ l. All (IsCovered (rows ++ l)) (p ∷ ps)) (sym (to_insert-new s p ps e))
          (
            any-append_middle (covers p.vehicle_id p.timestamp) rows rest row (next_row-covers s p),
            subst (λ l. All (IsCovered l) ps) (append_assoc rows (row ∷ []) rest) ih,
          )
  ]

  All-create_many :
      (table rows : List GpsPosition) (ps : List ValidPosition)
      → All (IsCovered (table ++ rows)) ps
      → All (IsCovered (create_many table rows).0) ps
  All-create_many table rows [] h = tt
  All-create_many table rows (p ∷ ps) h = (
    create_many-covers p.vehicle_id p.timestamp table rows h.0,
    All-create_many table rows ps h.1,
  )

  save_sorted-covers :
      (ps : List ValidPosition) → All (IsCovered (save_sorted sender db ps).db.positions) ps
  unfolding save_sorted
  save_sorted-covers ps =
      All-create_many db.positions _ ps
        (to_insert-covers (start sender db) ps db.positions db_last-covers db_last-covers)

  valid-covers :
      (positions : List UpdatePositionDto)
      → All
          (IsCovered (save_batch sender db positions).db.positions)
          (valid_positions sender db positions)
  unfolding save_batch
  valid-covers positions =
      All-sort (IsCovered _) (valid_positions sender db positions) (save_sorted-covers _)

  any_at :
      (q : Vehicle → Bool) (ws : List Vehicle) (n : ℕ) (w : Vehicle)
      → get_elem? ws n ≡ some w
      → q w ≡ true
      → any q ws ≡ true
  any_at q [] n w e h = absurd (cc e)
  any_at q (x ∷ ws) zero w e h = ground (arith, e, h)
  any_at q (x ∷ ws) (suc n) w e h = ground (arith, any_at q ws n w e h)

  -- A position of the batch with a vehicle of its own is among the valid ones.
  found_valid :
      (rows : List GpsPosition) (positions : List UpdatePositionDto) (n id : ℕ)
      (p : UpdatePositionDto)
      → get_elem? positions n ≡ some p
      → p.vehicle_id ≡ some id
      → (sender.is_long id && accepts sender db id) ≡ true
      → All (IsCovered rows) (valid_positions sender db positions)
      → any (covers id p.timestamp) rows ≡ true
  unfolding valid_positions
  found_valid rows [] n id p e v a h = absurd (cc e)
  found_valid rows (q ∷ positions) zero id p e v a h =
      let same : q ≡ p = cc e in
      let h' : All (IsCovered rows) (valid_positions sender db (p ∷ positions)) =
        subst (λ r. All (IsCovered rows) (valid_positions sender db (r ∷ positions))) same h in
      (rw (v, a) at h').0
  found_valid rows (q ∷ positions) (suc n) id p e v a h =
      found_valid rows positions n id p e v a (later q.vehicle_id h)
    where
      later :
          (o : Option ℕ)
          → All (IsCovered rows) (elim o [
            | none ↦ valid_positions sender db positions
            | some i ↦
                if sender.is_long i && accepts sender db i
                then valid_for sender db q i ∷ valid_positions sender db positions
                else valid_positions sender db positions
          ])
          → All (IsCovered rows) (valid_positions sender db positions)
      later none h = h
      later (some i) h = elim (Bool-cases (sender.is_long i && accepts sender db i)) [
        | inl t ↦ (rw t at h).1
        | inr f ↦ rw f at h
      ]

  -- No position of a vehicle that can take it is lost, whatever its delivery: after a batch, each
  -- position whose vehicle is a row of the company that is not deleted, is active and is followed by
  -- telephone, and whose key has the length of one, has a row of its vehicle within a second of its
  -- instant.
  pub save_batch-covers :
      (positions : List UpdatePositionDto) (n m : ℕ) (p : UpdatePositionDto) (w : Vehicle)
      → get_elem? positions n ≡ some p
      → get_elem? db.vehicles m ≡ some w
      → p.vehicle_id ≡ some w.id
      → sender.is_long w.id ≡ true
      → w.deleted_at ≡ none
      → w.is_active ≡ true
      → w.is_phone ≡ true
      → w.company_id ≡ sender.company_id
      → any (covers w.id p.timestamp) (save_batch sender db positions).db.positions ≡ true
  save_batch-covers positions n m p w e there v long live active phone company =
      let accepted : accepts sender db w.id ≡ true =
        any_at _ db.vehicles m w there (
          ground (arith, live, active, phone, (==_iff w.id w.id).1 refl, (==_iff _ _).1 company)) in
      found_valid _ positions n w.id p e v (rw (long, accepted) refl) (valid-covers positions)
