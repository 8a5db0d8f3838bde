-- ===== src/Deliveries/BulkLaws/Matrix.antt =====
-- Which rows a bulk change of status writes.
use mathlib.Core.Path.{subst}
use delivery_tracking.Prelude.{
  ℕ, ◌==◌, ◌≡◌, refl, ◌⊎◌, inl, inr, sym, Bool, true, false, some, List, [], ◌∷◌, arith,
  Option-cases, Bool-cases,
}
use delivery_tracking.Prelude.Table.{find?, Rows, Rows-refl, update_first}
use delivery_tracking.Deliveries.Status.{
  DeliveryStatus, is_valid_transition, transition_matrix, includes,
}
use delivery_tracking.Deliveries.Model.{Delivery, Db, Env}
use delivery_tracking.Deliveries.Service.{is_live_in}
use delivery_tracking.Deliveries.Bulk.{
  BulkActionDto, BulkResult, empty_result, update_status, set_status, bulk_row, bulk_loop,
  bulk_action,
}
use delivery_tracking.Deliveries.Lifecycle.{IsKeyed, find?-key, live-key}

-- A row of the snapshot stands as it stood, or has made one step of the matrix.
abbrev pub IsBulkStep : ℕ → DeliveryStatus → Delivery → Delivery → Type 0
IsBulkStep now to s x =
    (x ≡ s) ⊎ ((is_valid_transition s.status to ≡ true) × (x ≡ set_status now to s))

same-id : (now : ℕ) (to : DeliveryStatus) (s x : Delivery) → IsBulkStep now to s x → x.id ≡ s.id
same-id now to s x (inl e) = rw e
same-id now to s x (inr (v, e)) = rw e

-- A row that was written before is written alike once more.
again :
    (now : ℕ) (to : DeliveryStatus) (s x : Delivery)
    → is_valid_transition s.status to ≡ true
    → IsBulkStep now to s x
    → IsBulkStep now to s (set_status now to x)
again now to s x v (inl e) = rw e (inr (v, refl))
again now to s x v (inr (_, e)) = rw e (inr (v, ground arith))

same_test : (s x : Delivery) (id : ℕ) (b : Bool) → x.id ≡ s.id → (s.id == id) ≡ b → (x.id == id) ≡ b
same_test s x id b e h = rw e h

head_found :
    (s d : Delivery) (ss : List Delivery) (id : ℕ)
    → (s.id == id) ≡ true
    → find? (λ r. r.id == id) (s ∷ ss) ≡ some d
    → d ≡ s
unfolding find?
head_found s d ss id same found = sym (some_row s d (rw same at found))
  where
    some_row : (a b : Delivery) → some a ≡ some b → a ≡ b
    some_row a b e = cc

Rows-set_status :
    (now id : ℕ) (to : DeliveryStatus) (d : Delivery) (ss xs : List Delivery)
    → find? (λ r. r.id == id) ss ≡ some d
    → is_valid_transition d.status to ≡ true
    → Rows (IsBulkStep now to) ss xs
    → Rows (IsBulkStep now to) ss (update_first (λ r. r.id == id) (set_status now to) xs)
unfolding find? update_first
Rows-set_status now id to d [] [] found valid h = tt
Rows-set_status now id to d [] (x ∷ xs) found valid h = absurd h
Rows-set_status now id to d (s ∷ ss) [] found valid h = absurd h
Rows-set_status now id to d (s ∷ ss) (x ∷ xs) found valid h = elim (Bool-cases (s.id == id)) [
  | inl same ↦ rw (same_test s x id true (same-id now to s x h.0) same) (
    again now to s x
        (subst (λ r. is_valid_transition r.status to ≡ true) (head_found s d ss id same found)
          valid)
        h.0,
    h.1,
  )
  | inr other ↦
      rw (same_test s x id false (same-id now to s x h.0) other)
        (h.0, Rows-set_status now id to d ss xs (rw other at found) valid h.1)
]

module _ (env : Env) (now company_id : ℕ) (dto : BulkActionDto) (to : DeliveryStatus)
    (action : dto.action ≡ update_status) (status : dto.status ≡ some to)
    (snapshot : List Delivery) where
  -- One identifier: nothing is written, or the row that the snapshot holds under it is.
  effect :
      (id : ℕ) (r : BulkResult) (db : Db)
      → ((bulk_row env now company_id dto snapshot id (r, db)).1.deliveries ≡ db.deliveries)
        ⊎ ((d : Delivery) × (find? (is_live_in company_id id) snapshot ≡ some d)
            × (is_valid_transition d.status to ≡ true)
            × ((bulk_row env now company_id dto snapshot id (r, db)).1.deliveries
                ≡ update_first (λ r. r.id == id) (set_status now to) db.deliveries))
  unfolding bulk_row is_valid_transition
  effect id r db = elim (Option-cases (find? (is_live_in company_id id) snapshot)) [
    | inl gone ↦ inl (ground arith)
    | inr (d, found) ↦ elim (Bool-cases (includes (transition_matrix d.status) to)) [
      | inr refused ↦ inl (ground arith)
      | inl valid ↦ elim (Option-cases (find? (λ r. r.id == id) db.deliveries)) [
        | inl lost ↦ inl (ground arith)
        | inr (e, here) ↦ inr (d, found, valid, ground arith)
      ]
    ]
  ]

  Rows-bulk_row :
      (id : ℕ) (w : BulkResult × Db)
      → IsKeyed snapshot
      → Rows (IsBulkStep now to) snapshot w.1.deliveries
      → Rows
          (IsBulkStep now to)
          snapshot
          (bulk_row env now company_id dto snapshot id w).1.deliveries
  Rows-bulk_row id w keyed h = elim (effect id w.0 w.1) [
    | inl same ↦ rw same h
    | inr (d, found, valid, e) ↦ rw e (
        Rows-set_status now id to d snapshot w.1.deliveries
          (find?-key id (is_live_in company_id id) snapshot d (live-key company_id id) keyed found)
          valid h)
  ]

  Rows-bulk_loop :
      (ids : List ℕ) (w : BulkResult × Db)
      → IsKeyed snapshot
      → Rows (IsBulkStep now to) snapshot w.1.deliveries
      → Rows
          (IsBulkStep now to)
          snapshot
          (bulk_loop env now company_id dto snapshot ids w).1.deliveries
  unfolding bulk_loop
  Rows-bulk_loop [] w keyed h = h
  Rows-bulk_loop (id ∷ ids) w keyed h =
      Rows-bulk_loop ids (bulk_row env now company_id dto snapshot id w) keyed
        (Rows-bulk_row id w keyed h)

-- A bulk change of status, with any list of identifiers, repeated ones included: each row stays as
-- it was or makes one step of the transition matrix, from the status that it had before the call.
pub bulk_action-follows_matrix :
    (env : Env) (now company_id : ℕ) (dto : BulkActionDto) (to : DeliveryStatus) (db : Db)
    → dto.action ≡ update_status
    → dto.status ≡ some to
    → IsKeyed db.deliveries
    → Rows (IsBulkStep now to) db.deliveries (bulk_action env now company_id dto db).1.deliveries
unfolding bulk_action
bulk_action-follows_matrix env now company_id dto to db action status keyed =
    Rows-bulk_loop env now company_id dto to action status db.deliveries dto.ids (empty_result, db)
      keyed (Rows-refl (IsBulkStep now to) (λ x. inl refl) db.deliveries)
