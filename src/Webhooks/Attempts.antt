-- ===== src/Webhooks/Attempts.antt =====
-- A delivery and its retries, from the first attempt to the last.
use delivery_tracking.Prelude.{
  ℕ, zero, suc, ◌+◌, ◌==◌, ==_iff, ◌≡◌, ◌∙◌, ap, refl, ltb, leb, Bool, true, false, ◌&&◌, ◌||◌,
  none, some, List, [], ◌∷◌, ◌++◌, any, All, take, arith, inl, inr, if◌then◌else◌, Bool-cases,
}
use delivery_tracking.Prelude.Table.{
  find?, update_first, find?-holds, find?-update_first, find?-append_new,
}
use delivery_tracking.Webhooks.Model.{
  Webhook, WebhookDelivery, Post, Db, Response, answers, aborts, fails, Call,
}
use delivery_tracking.Webhooks.Service.{Env, outcome, post, first_attempt, deliver, status_of}
use delivery_tracking.Webhooks.Retry.{is_success, has_id, is_of_deleted, attempted, process}

-- An endpoint took the delivery.
abbrev pub is_2xx : Response → Bool
is_2xx (answers s text) = leb 200 s && ltb s 300
is_2xx (aborts m) = false
is_2xx (fails m) = false

abbrev pub succeeds : Call → Bool
succeeds c = is_2xx c.response

-- How many of the calls are made, of at most so many: up to the first that succeeds.
abbrev pub tries : ℕ → List Call → ℕ
tries zero cs = 0
tries (suc n) [] = 0
tries (suc n) (c ∷ cs) = let rest = tries n cs in if succeeds c then 1 else suc rest

abbrev pub posted : ℕ → List Post → ℕ
posted id [] = 0
posted id (p ∷ ps) = let rest = posted id ps in if p.delivery_id == id then suc rest else rest

outcome-is_2xx : (n u : List ℕ) (r : Response) → (outcome n u r).successful ≡ is_2xx r
outcome-is_2xx n u (answers s text) = ground arith
outcome-is_2xx n u (aborts m) = refl
outcome-is_2xx n u (fails m) = refl

is_success-status_of : (b : Bool) → is_success (status_of b) ≡ b
is_success-status_of true = refl
is_success-status_of false = refl

-- The jobs of a delivery, one after the other.
abbrev pub retries : Env → ℕ → List Call → Db → Db
retries v id [] db = db
retries v id (c ∷ cs) db = retries v id cs (process v c id db)

module _ (v : Env) (id : ℕ) (w : Webhook) where
  -- The row of the delivery, whose webhook is there and belongs to a company that is not deleted.
  pub record Tracks (db : Db) (d : WebhookDelivery) : Type 0 where
    pub found : find? (has_id id) db.deliveries ≡ some d
    pub hook : find? (λ r. r.id == d.webhook_id) db.webhooks ≡ some w
    pub live : is_of_deleted db w ≡ false
    pub maximum : d.max_attempts ≡ 5

  -- The database after a further attempt.
  abbrev after : Call → WebhookDelivery → Db → Db
  after c d db = record db {
    posts = post v id w d.event d.payload ∷ db.posts;
    deliveries = update_first (has_id id) (attempted v c d) db.deliveries;
  }

  own_key : (db : Db) (d : WebhookDelivery) → Tracks db d → d.id ≡ id
  own_key db d t = (==_iff d.id id).0 (find?-holds (has_id id) db.deliveries d t.found)

  process-posts :
      (c : Call) (db : Db) (d : WebhookDelivery)
      → Tracks db d
      → is_success d.status ≡ false
      → leb 5 d.attempts ≡ false
      → c.is_safe ≡ true
      → process v c id db ≡ after c d db
  unfolding process
  process-posts c db d t o n s = ground (arith, t.found, t.hook, t.live, t.maximum, own_key db d t)

  process-rests :
      (c : Call) (db : Db) (d : WebhookDelivery)
      → Tracks db d
      → (is_success d.status || leb 5 d.attempts) ≡ true
      → process v c id db ≡ db
  unfolding process
  process-rests c db d t o = ground (arith, t.found, t.maximum)

  after-Tracks :
      (c : Call) (db : Db) (d : WebhookDelivery)
      → Tracks db d
      → Tracks (after c d db) (attempted v c d d)
  after-Tracks c db d t = record {
    found =
        find?-update_first (has_id id) (attempted v c d) db.deliveries d t.found
          ((==_iff d.id id).1 (own_key db d t));
    hook = t.hook;
    live = t.live;
    maximum = t.maximum;
  }

  retries-rest :
      (cs : List Call) (db : Db) (d : WebhookDelivery)
      → Tracks db d
      → (is_success d.status || leb 5 d.attempts) ≡ true
      → retries v id cs db ≡ db
  retries-rest [] db d t o = refl
  retries-rest (c ∷ cs) db d t o = rw (process-rests c db d t o) (retries-rest cs db d t o)

  -- How the retries end, from a row with so many attempts left.
  pub record Ends (n : ℕ) (cs : List Call) (db : Db) (d : WebhookDelivery) (db' : Db)
      (d' : WebhookDelivery) : Type 0 where
    pub found : find? (has_id id) db'.deliveries ≡ some d'
    pub status : is_success d'.status ≡ any succeeds (take n cs)
    pub attempts : d'.attempts ≡ d.attempts + tries n cs
    pub posts : posted id db'.posts ≡ posted id db.posts + tries n cs

  retries-Ends :
      (n : ℕ) (cs : List Call) (db : Db) (d : WebhookDelivery)
      → Tracks db d
      → is_success d.status ≡ false
      → d.attempts + n ≡ 5
      → All (λ c. c.is_safe ≡ true) cs
      → (d' : WebhookDelivery) × Ends n cs db d (retries v id cs db) d'
  retries-Ends zero cs db d t o k s =
      let e = retries-rest cs db d t (ground (arith, k)) in
      (
        d,
        rw e (record { found = t.found; status = o; attempts = omega arith; posts = omega arith }),
      )
  retries-Ends (suc n) [] db d t o k s =
      (d, record { found = t.found; status = o; attempts = omega arith; posts = omega arith })
  retries-Ends (suc n) (c ∷ cs) db d t o k s =
      let p = process-posts c db d t o (ground (arith, k)) s.0 in
      let d1 = attempted v c d d in
      let db1 = after c d db in
      let t1 = after-Tracks c db d t in
      let verdict : is_success d1.status ≡ succeeds c =
        is_success-status_of _ ∙ outcome-is_2xx v.no_redirects v.unknown_error c.response in
      let more : posted id db1.posts ≡ suc (posted id db.posts) =
        ground (arith, (==_iff id id).1 refl) in
      elim (Bool-cases (succeeds c)) [
        | inl good ↦
            let e =
              ap (retries v id cs) p ∙ retries-rest cs db1 d1 t1 (ground (arith, verdict, good)) in
            (
              d1,
              rw e (record {
                found = t1.found;
                status = ground (arith, verdict, good);
                attempts = ground (arith, good);
                posts = ground (arith, more, good);
              }),
            )
        | inr bad ↦
            let (d', r) =
              retries-Ends n cs db1 d1 t1 (ground (arith, verdict, bad)) (omega (arith, k)) s.1 in
            (
              d',
              rw p (record {
                found = r.found;
                status = ground (arith, r.status, bad);
                attempts = ground (arith, r.attempts, bad);
                posts = ground (arith, r.posts, more, bad);
              }),
            )
      ]

  delivered-Tracks :
      (c : Call) (event : ℕ) (payload : List ℕ) (db : Db)
      → find? (λ r. r.id == w.id) db.webhooks ≡ some w
      → is_of_deleted db w ≡ false
      → find? (has_id id) db.deliveries ≡ none
      → c.is_safe ≡ true
      → (deliver v c id w.id event payload db ≡ record db {
        posts = post v id w event payload ∷ db.posts;
        deliveries = db.deliveries ++ (first_attempt v c id w.id event payload ∷ []);
      })
        × Tracks (deliver v c id w.id event payload db) (first_attempt v c id w.id event payload)
  unfolding deliver
  delivered-Tracks c event payload db h l n s = (
    ground (arith, h, s),
    rw (h, s)
        (record {
          found =
              find?-append_new (has_id id) db.deliveries (first_attempt v c id w.id event payload) n
                ((==_iff id id).1 refl);
          hook = h;
          live = l;
          maximum = refl;
        }),
  )

  -- A delivery under a new key, to a webhook of a company that is not deleted, and the jobs of its
  -- retries, all with an address that passes the check: it ends as a success exactly if one of its
  -- first five calls is answered with a status of 2xx, and is posted, as often as its row counts, up
  -- to the first such answer and at most five times.
  pub deliver-retries :
      (c : Call) (cs : List Call) (event : ℕ) (payload : List ℕ) (db : Db)
      → find? (λ r. r.id == w.id) db.webhooks ≡ some w
      → is_of_deleted db w ≡ false
      → find? (has_id id) db.deliveries ≡ none
      → posted id db.posts ≡ 0
      → All (λ c. c.is_safe ≡ true) (c ∷ cs)
      → let db' = retries v id cs (deliver v c id w.id event payload db) in
        (d : WebhookDelivery) × (find? (has_id id) db'.deliveries ≡ some d)
        × (is_success d.status ≡ any succeeds (take 5 (c ∷ cs)))
        × (d.attempts ≡ tries 5 (c ∷ cs))
        × (posted id db'.posts ≡ tries 5 (c ∷ cs))
  deliver-retries c cs event payload db h l n z s =
      let d0 = first_attempt v c id w.id event payload in
      let (e0, t) = delivered-Tracks c event payload db h l n s.0 in
      let db0 = deliver v c id w.id event payload db in
      let more : posted id db0.posts ≡ 1 = ground (arith, e0, z, (==_iff id id).1 refl) in
      let verdict : is_success d0.status ≡ succeeds c =
        is_success-status_of _ ∙ outcome-is_2xx v.no_redirects v.unknown_error c.response in
      elim (Bool-cases (succeeds c)) [
        | inl good ↦
            let e = retries-rest cs db0 d0 t (ground (arith, verdict, good)) in
            rw e (
              d0,
              t.found,
              ground (arith, verdict, good),
              ground (arith, good),
              ground (arith, more, good),
            )
        | inr bad ↦
            let (d', r) = retries-Ends 4 cs db0 d0 t (ground (arith, verdict, bad)) refl s.1 in
            (
              d',
              r.found,
              ground (arith, r.status, bad),
              ground (arith, r.attempts, bad),
              ground (arith, r.posts, more, bad),
            )
      ]
