-- ===== src/Tracking/Arrival.antt =====
-- The order in which the positions of a batch arrive.
use delivery_tracking.Prelude.{
  ℕ, Option, none, some, inl, inr, Bool-cases, Option-cases, ◌&&◌, ◌≡◌, ◌≢◌, refl, ap, sym, ◌∙◌,
  if◌then◌else◌, List, [], ◌∷◌, arith,
}
use delivery_tracking.Tracking.Rows.{UpdatePositionDto, ValidPosition, Db, Sender}
use delivery_tracking.Tracking.Batch.{accepts, valid_for, valid_positions}
use delivery_tracking.Tracking.Save.{insert_by_time, sort_by_time, save_sorted, save_batch}

-- The same positions in another order, where positions of the same instant keep theirs.
pub data Rearranged : List UpdatePositionDto → List UpdatePositionDto → Type 0 where
  same : (ps : List UpdatePositionDto) → Rearranged ps ps
  swap :
      (p q : UpdatePositionDto) (ps : List UpdatePositionDto)
      → p.timestamp ≢ q.timestamp
      → Rearranged (p ∷ q ∷ ps) (q ∷ p ∷ ps)
  skip :
      (p : UpdatePositionDto) (ps qs : List UpdatePositionDto)
      → Rearranged ps qs
      → Rearranged (p ∷ ps) (p ∷ qs)
  then_also :
      (ps qs rs : List UpdatePositionDto) → Rearranged ps qs → Rearranged qs rs → Rearranged ps rs

insert_by_time_comm :
    (p q : ValidPosition) (qs : List ValidPosition)
    → p.timestamp ≢ q.timestamp
    → insert_by_time p (insert_by_time q qs) ≡ insert_by_time q (insert_by_time p qs)
unfolding insert_by_time
insert_by_time_comm p q [] h = ground arith
insert_by_time_comm p q (r ∷ qs) h = ground (arith, insert_by_time_comm p q qs h)

module _ (sender : Sender) (db : Db) where
  sorted : List UpdatePositionDto → List ValidPosition
  sorted ps = sort_by_time (valid_positions sender db ps)

  -- The first position of the list is inserted or left out.
  add : UpdatePositionDto → Option ℕ → List ValidPosition → List ValidPosition
  add p none l = l
  add p (some id) l =
      if sender.is_long id && accepts sender db id
      then insert_by_time (valid_for sender db p id) l
      else l

  sorted-cons :
      (p : UpdatePositionDto) (ps : List UpdatePositionDto)
      → sorted (p ∷ ps) ≡ add p p.vehicle_id (sorted ps)
  unfolding sorted valid_positions sort_by_time add
  sorted-cons p ps = elim (Option-cases p.vehicle_id) [
    | inl e ↦ rw e
    | inr (id, e) ↦ rw e (elim (Bool-cases (sender.is_long id && accepts sender db id)) [
      | inl t ↦ rw t
      | inr f ↦ rw f
    ])
  ]

  add_comm :
      (p q : UpdatePositionDto) (a b : Option ℕ) (l : List ValidPosition)
      → p.timestamp ≢ q.timestamp
      → add p a (add q b l) ≡ add q b (add p a l)
  unfolding add
  add_comm p q none b l h = refl
  add_comm p q (some x) none l h = refl
  add_comm p q (some x) (some y) l h = elim (Bool-cases (sender.is_long x && accepts sender db x)) [
    | inr f ↦ rw f
    | inl t ↦ elim (Bool-cases (sender.is_long y && accepts sender db y)) [
      | inr g ↦ rw (t, g)
      | inl u ↦
          rw (t, u) (insert_by_time_comm (valid_for sender db p x) (valid_for sender db q y) l h)
    ]
  ]

  sorted-Rearranged : {ps qs : List UpdatePositionDto} → Rearranged ps qs → sorted ps ≡ sorted qs
  sorted-Rearranged (same ps) = refl
  sorted-Rearranged (swap p q ps h) =
      rw (sorted-cons, sorted-cons, sorted-cons, sorted-cons)
        (add_comm p q p.vehicle_id q.vehicle_id (sorted ps) h)
  sorted-Rearranged (skip p ps qs r) =
      sorted-cons p ps ∙ ap (add p p.vehicle_id) (sorted-Rearranged r) ∙ sym (sorted-cons p qs)
  sorted-Rearranged (then_also ps qs rs r t) = sorted-Rearranged r ∙ sorted-Rearranged t

  -- The order of arrival does not matter: what a batch writes, returns and starts is the same for
  -- the same positions in another order, where positions of the same instant keep theirs.
  pub save_batch-Rearranged :
      (ps qs : List UpdatePositionDto)
      → Rearranged ps qs
      → save_batch sender db ps ≡ save_batch sender db qs
  unfolding save_batch sorted
  save_batch-Rearranged ps qs r = ap (save_sorted sender db) (sorted-Rearranged r)
