-- ===== src/Webhooks/Deleted.antt =====
-- Nothing is posted for a company that is deleted.
use mathlib.Core.Path.{subst}
use delivery_tracking.Prelude.{
  ℕ, ◌==◌, ==_iff, ◌≡◌, refl, sym, ◌∙◌, leb, true, false, not, ◌||◌, Option, none, some, List, [],
  ◌∷◌, arith, inl, inr, Bool-cases, Option-cases,
}
use delivery_tracking.Prelude.Table.{
  find?, update_first, find?-holds, find?-update_first, find?-skips,
}
use delivery_tracking.Webhooks.Model.{Webhook, WebhookDelivery, Db, Call}
use delivery_tracking.Webhooks.Service.{Env}
use delivery_tracking.Webhooks.Retry.{
  is_success, has_id, is_of_deleted, given_up, attempted, retry, process,
}
use delivery_tracking.Webhooks.Attempts.{posted}

-- The key finds a delivery of a webhook whose company is deleted.
pub record IsOfDeleted (id : ℕ) (w : Webhook) (db : Db) (d : WebhookDelivery) : Type 0 where
  pub found : find? (has_id id) db.deliveries ≡ some d
  pub hook : find? (λ r. r.id == d.webhook_id) db.webhooks ≡ some w
  pub deleted : is_of_deleted db w ≡ true

-- Jobs of any deliveries, one after the other.
abbrev pub work : Env → List (Call × ℕ) → Db → Db
work v [] db = db
work v ((c, id) ∷ js) db = work v js (process v c id db)

module _ (v : Env) (id : ℕ) (w : Webhook) where
  -- A change that keeps the keys keeps the row, but for what it changes.
  updated :
      (id' : ℕ) (f : WebhookDelivery → WebhookDelivery) (ds : List WebhookDelivery)
      (d : WebhookDelivery)
      → ((r : WebhookDelivery) → (f r).id ≡ r.id)
      → ((r : WebhookDelivery) → (f r).webhook_id ≡ r.webhook_id)
      → find? (has_id id) ds ≡ some d
      → (d' : WebhookDelivery) × (find? (has_id id) (update_first (has_id id') f ds) ≡ some d')
        × (d'.webhook_id ≡ d.webhook_id)
  updated id' f ds d k h e = elim (Bool-cases (id' == id)) [
    | inl same ↦
        let s : id' ≡ id = (==_iff id' id).0 same in
        (
          f d,
          rw s
              (find?-update_first (has_id id) f ds d e (rw (k d) (find?-holds (has_id id) ds d e))),
          h d,
        )
    | inr other ↦
        let own = (==_iff d.id id).0 (find?-holds (has_id id) ds d e) in
        (
          d,
          find?-skips (has_id id) (has_id id') f ds d (λ y _ n. rw (k y) n) e
              (ground (arith, own, other, ==_iff d.id id', ==_iff id' id)),
          refl,
        )
  ]

  -- Nothing was posted for the delivery, and its webhook is still that of a deleted company.
  abbrev Silent : Db → WebhookDelivery → Db → Type 0
  Silent db d db' =
      (d' : WebhookDelivery) × (posted id db'.posts ≡ posted id db.posts) × IsOfDeleted id w db' d'

  changed :
      (id' : ℕ) (f : WebhookDelivery → WebhookDelivery) (db : Db) (d : WebhookDelivery)
      → ((r : WebhookDelivery) → (f r).id ≡ r.id)
      → ((r : WebhookDelivery) → (f r).webhook_id ≡ r.webhook_id)
      → IsOfDeleted id w db d
      → (d' : WebhookDelivery) × IsOfDeleted id w
          (record db { deliveries = update_first (has_id id') f db.deliveries })
          d'
  changed id' f db d k h t =
      let (d', e, s) = updated id' f db.deliveries d k h t.found in
      (d', record { found = e; hook = rw s t.hook; deleted = t.deleted })

  retry-Silent :
      (c : Call) (r : WebhookDelivery) (o : Option Webhook) (db : Db) (d : WebhookDelivery)
      → IsOfDeleted id w db d
      → (r.id ≡ id → o ≡ some w)
      → Silent db d (retry v c r o db)
  retry-Silent c r none db d t k = (d, refl, t)
  retry-Silent c r (some w') db d t k = elim (Bool-cases (is_of_deleted db w' || not c.is_safe)) [
    | inl stop ↦
        let (d', t') = changed r.id given_up db d (λ y. refl) (λ y. refl) t in
        rw stop (d', refl, t')
    | inr go ↦ elim (Bool-cases (r.id == id)) [
      | inl own ↦ absurd (mine own go)
      | inr other ↦
          let (d', t') = changed r.id (attempted v c r) db d (λ y. refl) (λ y. refl) t in
          rw (go, other)
            (d', refl, record { found = t'.found; hook = t'.hook; deleted = t'.deleted })
    ]
  ]
    where
      mine : (r.id == id) ≡ true → (is_of_deleted db w' || not c.is_safe) ≡ false → ⊥
      mine own go =
          let e : some w' ≡ some w = k ((==_iff r.id id).0 own) in ground (arith, e, t.deleted, go)

  same_row :
      (id' : ℕ) (r : WebhookDelivery) (db : Db) (d : WebhookDelivery)
      → IsOfDeleted id w db d
      → find? (has_id id') db.deliveries ≡ some r
      → r.id ≡ id
      → r ≡ d
  same_row id' r db d t e k =
      let own : r.id ≡ id' = (==_iff r.id id').0 (find?-holds (has_id id') db.deliveries r e) in
      let s : id' ≡ id = sym own ∙ k in
      let e' : find? (has_id id) db.deliveries ≡ some r =
        subst (λ n. find? (has_id n) db.deliveries ≡ some r) s e in
      cc (e', t.found)

  process-Silent :
      (c : Call) (id' : ℕ) (db : Db) (d : WebhookDelivery)
      → IsOfDeleted id w db d
      → Silent db d (process v c id' db)
  unfolding process
  process-Silent c id' db d t = elim (Option-cases (find? (has_id id') db.deliveries)) [
    | inl e ↦ rw e (d, refl, t)
    | inr (r, e) ↦ rw e (elim (Bool-cases (is_success r.status || leb r.max_attempts r.attempts)) [
      | inl stop ↦ rw stop (d, refl, t)
      | inr go ↦ rw go (
          retry-Silent c r (find? (λ h. h.id == r.webhook_id) db.webhooks) db d t
            (λ k. rw (same_row id' r db d t e k) t.hook))
    ])
  ]

  -- Whatever jobs are worked, with whatever answers, no further POST is made for a delivery of a
  -- webhook whose company is deleted.
  pub work-posts_none :
      (js : List (Call × ℕ)) (db : Db) (d : WebhookDelivery)
      → IsOfDeleted id w db d
      → posted id (work v js db).posts ≡ posted id db.posts
  work-posts_none [] db d t = refl
  work-posts_none ((c, id') ∷ js) db d t =
      let (d', e, t') = process-Silent c id' db d t in
      work-posts_none js (process v c id' db) d' t' ∙ e
