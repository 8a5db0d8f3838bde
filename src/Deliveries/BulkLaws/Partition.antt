-- ===== src/Deliveries/BulkLaws/Partition.antt =====
-- What bulkAction of deliveries.service.ts reports.
use delivery_tracking.Prelude.{
  ℕ, ◌==◌, ◌≡◌, refl, not, inl, inr, Bool, true, false, Option, none, some, List, [], ◌∷◌, arith,
  if◌then◌else◌, Bool-cases, Option-cases, ◌∙◌, ==_iff, ◌≤◌,
}
use delivery_tracking.Prelude.Table.{find?}
use delivery_tracking.Deliveries.Status.{
  DeliveryStatus, is_valid_transition, in_progress, same_status,
}
use delivery_tracking.Deliveries.Model.{
  Delivery, Error, no_driver_provided, unknown_action, transition_refused, delivery_in_progress,
  delivery_not_found, Db, Env,
}
use delivery_tracking.Deliveries.Service.{is_live_in}
use delivery_tracking.Deliveries.Bulk.{
  BulkActionName, delete, update_status, assign_driver, BulkActionDto, BulkResult, push_failed,
  add_failed, bulk_delete, bulk_status, bulk_driver, bulk_dispatch, bulk_try, bulk_row, bulk_loop,
  bulk_action, empty_result,
}
use delivery_tracking.Deliveries.BulkLaws.Pushes.{
  occurrences, reported, other_entry, IsOneMore-bulk_row, reported-bulk_loop,
}

-- Which rows an action is for, by the row as it stood before the call.
abbrev pub is_allowed : BulkActionName → Option DeliveryStatus → Option ℕ → Delivery → Bool
is_allowed delete status driver_id d = not (same_status d.status in_progress)
is_allowed update_status none driver_id d = false
is_allowed update_status (some status) driver_id d = is_valid_transition d.status status
is_allowed assign_driver status none d = false
is_allowed assign_driver status (some _) d = true

module _ (env : Env) (now company_id : ℕ) (dto : BulkActionDto) (snapshot : List Delivery) where
  -- A row that the action is not for.
  abbrev IsRefused : ℕ → Type 0
  IsRefused id =
      (d : Delivery)
      → find? (is_live_in company_id id) snapshot ≡ some d
      → is_allowed dto.action dto.status dto.driver_id d ≡ false

  refused_status :
      (id : ℕ) (status : Option DeliveryStatus) (d : Delivery) (w : BulkResult × Db)
      → is_allowed update_status status dto.driver_id d ≡ false
      → (e : Error) × (bulk_status env now company_id id status d w ≡ push_failed id e w)
  unfolding bulk_status is_valid_transition
  refused_status id none d w h = (unknown_action, refl)
  refused_status id (some status) d w h = (transition_refused d.status status, rw h refl)

  refused_driver :
      (id : ℕ) (driver_id : Option ℕ) (d : Delivery) (w : BulkResult × Db)
      → is_allowed assign_driver dto.status driver_id d ≡ false
      → (e : Error) × (bulk_driver company_id id driver_id w ≡ push_failed id e w)
  unfolding bulk_driver
  refused_driver id none d w h = (no_driver_provided, refl)
  refused_driver id (some driver_id) d w h = absurd (cc h)

  refused_delete :
      (id : ℕ) (d : Delivery) (w : BulkResult × Db)
      → is_allowed delete dto.status dto.driver_id d ≡ false
      → (e : Error) × (bulk_delete now id d w ≡ push_failed id e w)
  unfolding bulk_delete
  refused_delete id d w h = elim (Bool-cases (same_status d.status in_progress)) [
    | inl running ↦ (delivery_in_progress, rw running refl)
    | inr other ↦ absurd (cc (h, other))
  ]

  refused_dispatch :
      (id : ℕ) (action : BulkActionName) (d : Delivery) (w : BulkResult × Db)
      → is_allowed action dto.status dto.driver_id d ≡ false
      → (e : Error) × (bulk_dispatch env now company_id dto id action d w ≡ push_failed id e w)
  unfolding bulk_dispatch
  refused_dispatch id delete d w h = refused_delete id d w h
  refused_dispatch id update_status d w h = refused_status id dto.status d w h
  refused_dispatch id assign_driver d w h = refused_driver id dto.driver_id d w h

  refused_try :
      (id : ℕ) (w : BulkResult × Db)
      → IsRefused id
      → (e : Error) × (bulk_try env now company_id dto snapshot id w ≡ push_failed id e w)
  unfolding bulk_try
  refused_try id w h = elim (Option-cases (find? (is_live_in company_id id) snapshot)) [
    | inl gone ↦ (delivery_not_found, rw (gone, bulk_try) refl)
    | inr (d, found) ↦
        let (e, failed) = refused_dispatch id dto.action d w (h d found) in
        (e, rw (found, bulk_try) failed)
  ]

  refused_row :
      (id : ℕ) (r : BulkResult) (db : Db)
      → IsRefused id
      → (e : Error) × (bulk_row env now company_id dto snapshot id (r, db)
          ≡ (add_failed id e r, db))
  unfolding bulk_row
  refused_row id r db h =
      let (e, failed) = refused_try id (r, db) h in (e, rw (failed, bulk_row) refl)

  -- The successes of an identifier are as many as before the row.
  refused-succeeded :
      (id x : ℕ) (r : BulkResult) (db : Db)
      → IsRefused x
      → occurrences x (bulk_row env now company_id dto snapshot id (r, db)).0.succeeded
        ≡ occurrences x r.succeeded
  refused-succeeded id x r db h = elim (Bool-cases (id == x)) [
    | inl same ↦ let (e, failed) = refused_row x r db h in rw ((==_iff id x).0 same, failed) refl
    | inr other ↦ elim (IsOneMore-bulk_row env now company_id dto snapshot id r db) [
      | inl e ↦ rw e (other_entry id x r.succeeded other)
      | inr (reason, e) ↦ rw e refl
    ]
  ]

  refused-bulk_loop :
      (x : ℕ) (ids : List ℕ) (w : BulkResult × Db)
      → IsRefused x
      → occurrences x (bulk_loop env now company_id dto snapshot ids w).0.succeeded
        ≡ occurrences x w.0.succeeded
  unfolding bulk_loop
  refused-bulk_loop x [] w h = refl
  refused-bulk_loop x (id ∷ ids) w h =
      refused-bulk_loop x ids (bulk_row env now company_id dto snapshot id w) h
      ∙ refused-succeeded id x w.0 w.1 h

-- The snapshot has a live delivery of the company under the identifier, and the action is for it.
abbrev pub is_accepted : ℕ → BulkActionDto → List Delivery → ℕ → Bool
is_accepted company_id dto snapshot id = elim (find? (is_live_in company_id id) snapshot) [
  | none ↦ false
  | some d ↦ is_allowed dto.action dto.status dto.driver_id d
]

not_accepted :
    (env : Env) (now company_id : ℕ) (dto : BulkActionDto) (snapshot : List Delivery) (id : ℕ)
    → is_accepted company_id dto snapshot id ≡ false
    → IsRefused env now company_id dto snapshot id
not_accepted env now company_id dto snapshot id h d found = rw (found, is_accepted) at h

-- Every identifier of the request is reported as often as it was given, as a success or as a
-- failure, and no other identifier is: each turn of the loop, whichever branch it takes and whether
-- or not it throws, pushes one entry. Only an identifier of a delivery of the company that is not
-- deleted and that the action is for has successes: one to delete that is not in progress, one to
-- move along the matrix, or one to assign to a driver who is named.
pub bulk_action-partition :
    (env : Env) (now company_id : ℕ) (dto : BulkActionDto) (db : Db) (id : ℕ)
    → (reported id (bulk_action env now company_id dto db).0 ≡ occurrences id dto.ids)
      × (occurrences id (bulk_action env now company_id dto db).0.succeeded
          ≤ (if is_accepted company_id dto db.deliveries id then occurrences id dto.ids else 0))
unfolding bulk_action
bulk_action-partition env now company_id dto db id =
    let counted =
      reported-bulk_loop env now company_id dto db.deliveries id dto.ids (empty_result, db) in
    (
      omega (arith, counted),
      elim (Bool-cases (is_accepted company_id dto db.deliveries id)) [
        | inl accepted ↦ rw accepted (omega (arith, counted))
        | inr other ↦ rw other (
            omega (
              arith,
              refused-bulk_loop env now company_id dto db.deliveries id dto.ids (empty_result, db)
                  (not_accepted env now company_id dto db.deliveries id other),
            ))
      ],
    )
