-- ===== src/Billing/Redeem.antt =====
-- What a redeemed activation code changes.
use delivery_tracking.Prelude.{
  ℕ, ◌+◌, ◌==◌, ◌≡◌, ◌≤◌, refl, sym, ap, ◌∙◌, ◌⊎◌, inl, inr, Bool, true, false, Option, none, some,
  List, [], ◌∷◌, ◌++◌, ◌↔◌, arith, is_none, is_value, ok, err, Bool-cases, Option-cases,
  Result-cases,
}
use delivery_tracking.Prelude.Table.{find?, find?-holds, find?-update_first, update_first}
use delivery_tracking.Prelude.Keyed.{HasDistinctKeys, update_first-key}
use delivery_tracking.Billing.Model.{
  SubscriptionStatus, active, Subscription, PaymentProof, Error, invalid_code, already_redeemed, Db,
}
use delivery_tracking.Billing.Service.{
  is_past, redeem, activated, new_subscription, upsert_subscription, paid_subscription_duration_ms,
}
use delivery_tracking.Billing.Guard.{Context, can_activate}
use delivery_tracking.Billing.Access.{subscription_of, IsAdmitted, can_activate_iff}

-- What `redeem` has done when it returns.
pub record Redeemed (new_id now company_id hash : ℕ) (db after : Db) : Type 0 where
  pub proof : PaymentProof
  pub found : find? (λ p. is_value p.activation_code_hash hash) db.proofs ≡ some proof
  pub own : (proof.company_id == company_id) ≡ true
  pub unused : is_none proof.redeemed_at ≡ true
  pub in_time : is_past proof.activation_expires_at now ≡ false
  pub proofs :
      after.proofs
      ≡ update_first (λ p. p.id == proof.id) (λ p. record p { redeemed_at = some now }) db.proofs
  pub subscriptions :
      after.subscriptions
      ≡ upsert_subscription new_id now company_id proof.claimed_plan_id db.subscriptions

redeem-Redeemed :
    (new_id now company_id hash : ℕ) (db : Db)
    → (redeem new_id now company_id hash db).0 ≡ ok tt
    → Redeemed new_id now company_id hash db (redeem new_id now company_id hash db).1
unfolding redeem
redeem-Redeemed new_id now company_id hash db done =
    elim (Option-cases (find? (λ p. is_value p.activation_code_hash hash) db.proofs)) [
      | inl gone ↦ absurd (ground arith)
      | inr (p, found) ↦ elim (Option-cases (find? (λ r. r.id == p.id) db.proofs)) [
        | inl lost ↦ absurd (ground arith)
        | inr (r, here) ↦ record {
          proof = p;
          found = found;
          own = ground arith;
          unused = ground arith;
          in_time = ground arith;
          proofs = ground arith;
          subscriptions = ground arith;
        }
      ]
    ]

-- An insert behind a table, and an update of one company's row, as another company sees them.
find_last :
    (company_id : ℕ) (ss : List Subscription) (s : Subscription)
    → find? (λ r. r.company_id == company_id) ss ≡ none
    → (s.company_id == company_id) ≡ true
    → find? (λ r. r.company_id == company_id) (ss ++ s ∷ []) ≡ some s
unfolding find?
find_last company_id [] s gone own = ground arith
find_last company_id (x ∷ ss) s gone own = ground (arith, find_last company_id ss s, gone, own)

find_before :
    (other : ℕ) (ss : List Subscription) (s : Subscription)
    → (s.company_id == other) ≡ false
    → find? (λ r. r.company_id == other) (ss ++ s ∷ []) ≡ find? (λ r. r.company_id == other) ss
unfolding find?
find_before other [] s apart = ground arith
find_before other (x ∷ ss) s apart = ground (arith, find_before other ss s apart)

find_beside :
    (company_id other now plan_id : ℕ) (ss : List Subscription)
    → (company_id == other) ≡ false
    → find?
        (λ r. r.company_id == other)
        (update_first (λ r. r.company_id == company_id) (activated now plan_id) ss)
      ≡ find? (λ r. r.company_id == other) ss
unfolding find? update_first
find_beside company_id other now plan_id [] apart = refl
find_beside company_id other now plan_id (x ∷ ss) apart =
    ground (arith, find_beside company_id other now plan_id ss apart)

-- The subscription of the company after the upsert.
pub record IsOpened (now plan_id : ℕ) (o : Option Subscription) : Type 0 where
  pub subscription : Subscription
  pub there : o ≡ some subscription
  pub is_active : subscription.status ≡ active
  pub plan : subscription.plan_id ≡ plan_id
  pub period : subscription.current_period_end ≡ now + paid_subscription_duration_ms

upsert-IsOpened :
    (new_id now company_id plan_id : ℕ) (ss : List Subscription)
    → IsOpened now plan_id (
        find?
          (λ r. r.company_id == company_id)
          (upsert_subscription new_id now company_id plan_id ss))
upsert-IsOpened new_id now company_id plan_id ss =
    elim (Option-cases (find? (λ r. r.company_id == company_id) ss)) [
      | inl gone ↦ rw gone (record {
        subscription = new_subscription new_id now company_id plan_id;
        there =
            find_last company_id ss (new_subscription new_id now company_id plan_id) gone
              (ground arith);
        is_active = refl;
        plan = refl;
        period = refl;
      })
      | inr (s, found) ↦ rw found (record {
        subscription = activated now plan_id s;
        there =
            find?-update_first (λ r. r.company_id == company_id) (activated now plan_id) ss s found
              (find?-holds (λ r. r.company_id == company_id) ss s found);
        is_active = refl;
        plan = refl;
        period = refl;
      })
    ]

upsert-other :
    (new_id now company_id plan_id other : ℕ) (ss : List Subscription)
    → (company_id == other) ≡ false
    → find? (λ r. r.company_id == other) (upsert_subscription new_id now company_id plan_id ss)
      ≡ find? (λ r. r.company_id == other) ss
upsert-other new_id now company_id plan_id other ss apart =
    elim (Option-cases (find? (λ r. r.company_id == company_id) ss)) [
      | inl gone ↦
          rw gone (find_before other ss (new_subscription new_id now company_id plan_id) apart)
      | inr (s, found) ↦ rw found (find_beside company_id other now plan_id ss apart)
    ]

-- A request of a user of the company.
abbrev pub request_of : ℕ → Context
request_of company_id = record {
  skip = false;
  payload = some (record { is_platform_admin = false; company_id = some company_id });
}

opened_iff :
    (t end company_id : ℕ) (db : Db) (s : Subscription)
    → subscription_of company_id db ≡ some s
    → s.status ≡ active
    → s.current_period_end ≡ end
    → IsAdmitted t (request_of company_id) db ↔ (t ≤ end)
opened_iff t end company_id db s found running until = (
  λ a. elim a [
    | inl never ↦ absurd (cc never)
    | inr (inl never) ↦ absurd (cc never)
    | inr (inr (s', (found', entitled))) ↦
        let same : s' ≡ s = one_row s' s (sym found' ∙ found) in
        elim entitled [
          | inl (trial, _) ↦ absurd (apart (sym trial ∙ ap (λ r. r.status) same ∙ running))
          | inr (_, in_period) ↦
              omega (arith, in_period, until, ap (λ r. r.current_period_end) same)
        ]
  ],
  λ le. inr (inr (s, (found, inr (running, omega (arith, le, until))))),
)
  where
    one_row : (a b : Subscription) → some a ≡ some b → a ≡ b
    one_row a b e = cc e

    apart : SubscriptionStatus.trialing ≡ active → ⊥
    apart e = cc e

-- A code that is redeemed opens the company's access for thirty days: the guard lets a user of the
-- company through at any time until then, and at none after.
pub redeem-opens :
    (new_id now company_id hash : ℕ) (db : Db) (t : ℕ)
    → (redeem new_id now company_id hash db).0 ≡ ok tt
    → ((can_activate t (request_of company_id) (redeem new_id now company_id hash db).1).0 ≡ ok tt)
      ↔ (t ≤ now + paid_subscription_duration_ms)
redeem-opens new_id now company_id hash db t done =
    let after = (redeem new_id now company_id hash db).1 in
    let r = redeem-Redeemed new_id now company_id hash db done in
    let o = upsert-IsOpened new_id now company_id r.proof.claimed_plan_id db.subscriptions in
    let there = ap (find? (λ s. s.company_id == company_id)) r.subscriptions ∙ o.there in
    let guard = can_activate_iff t (request_of company_id) after in
    let spec =
      opened_iff t (now + paid_subscription_duration_ms) company_id after o.subscription there
        o.is_active o.period in
    (λ h. spec.0 (guard.0 h), λ h. guard.1 (spec.1 h))

used_refused :
    (new_id later company_id hash : ℕ) (db : Db) (p : PaymentProof)
    → find? (λ p. is_value p.activation_code_hash hash) db.proofs ≡ some p
    → is_none p.redeemed_at ≡ false
    → ((redeem new_id later company_id hash db).0 ≡ err invalid_code)
      ⊎ ((redeem new_id later company_id hash db).0 ≡ err already_redeemed)
unfolding redeem
used_refused new_id later company_id hash db p found used =
    elim (Bool-cases (p.company_id == company_id)) [
      | inl own ↦ inr (ground arith)
      | inr other ↦ inl (ground arith)
    ]

-- A code can be redeemed once: after that it is refused to every company at any time, where the keys
-- of the proofs are distinct.
pub redeem-once :
    (new_id now company_id hash : ℕ) (db : Db) (new_id' later company_id' : ℕ)
    → HasDistinctKeys (λ p. PaymentProof.id p) db.proofs
    → (redeem new_id now company_id hash db).0 ≡ ok tt
    → ((redeem new_id' later company_id' hash (redeem new_id now company_id hash db).1).0
        ≡ err invalid_code)
      ⊎ ((redeem new_id' later company_id' hash (redeem new_id now company_id hash db).1).0
          ≡ err already_redeemed)
redeem-once new_id now company_id hash db new_id' later company_id' k done =
    let after = (redeem new_id now company_id hash db).1 in
    let r = redeem-Redeemed new_id now company_id hash db done in
    let test : PaymentProof → Bool = λ p. is_value p.activation_code_hash hash in
    let mark : PaymentProof → PaymentProof = λ p. record p { redeemed_at = some now } in
    used_refused new_id' later company_id' hash after (mark r.proof)
      (ap (find? test) (
          r.proofs
          ∙ update_first-key (λ p. PaymentProof.id p) test mark db.proofs r.proof k r.found)
        ∙ find?-update_first test mark db.proofs r.proof r.found
            (find?-holds test db.proofs r.proof r.found))
      refl

refused-subscriptions :
    (new_id now company_id hash : ℕ) (db : Db) (e : Error)
    → (redeem new_id now company_id hash db).0 ≡ err e
    → (redeem new_id now company_id hash db).1.subscriptions ≡ db.subscriptions
unfolding redeem
refused-subscriptions new_id now company_id hash db e h = ground arith

-- A code that leaks is of no use: redeeming one, whatever comes of it, changes no other company's
-- subscription, and it succeeds only for the company that submitted the proof.
pub redeem-tenant :
    (new_id now company_id hash : ℕ) (db : Db) (other : ℕ)
    → (company_id == other) ≡ false
    → (subscription_of other (redeem new_id now company_id hash db).1 ≡ subscription_of other db)
      × ((redeem new_id now company_id hash db).0 ≡ ok tt
          → (p : PaymentProof) × ((find? (λ p. is_value p.activation_code_hash hash) db.proofs
                ≡ some p)
              × ((p.company_id == company_id) ≡ true)))
redeem-tenant new_id now company_id hash db other apart = (
  elim (Result-cases (redeem new_id now company_id hash db).0) [
    | inr (e, refused) ↦
        ap (find? (λ s. s.company_id == other))
          (refused-subscriptions new_id now company_id hash db e refused)
    | inl (tt, done) ↦
        let r = redeem-Redeemed new_id now company_id hash db done in
        ap (find? (λ s. s.company_id == other)) r.subscriptions
        ∙ upsert-other new_id now company_id r.proof.claimed_plan_id other db.subscriptions apart
  ],
  λ done. let r = redeem-Redeemed new_id now company_id hash db done in (r.proof, (r.found, r.own)),
)
