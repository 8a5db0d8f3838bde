-- ===== src/Billing/Refusal.antt =====
-- The guard after a refusal.
use mathlib.Core.Path.{subst}
use delivery_tracking.Prelude.{
  ℕ, ◌==◌, ◌≡◌, refl, sym, ap, ◌∙◌, inl, inr, Bool, true, false, Option, none, some, ltb, err,
  Bool-cases, Option-cases,
}
use delivery_tracking.Prelude.Table.{find?, find?-holds, find?-update_first}
use delivery_tracking.Prelude.Keyed.{HasDistinctKeys, update_first-key}
use delivery_tracking.Billing.Model.{
  SubscriptionStatus, active, trialing, past_due, canceled, incomplete, unpaid, Subscription, Error,
  payment_required, Db,
}
use delivery_tracking.Billing.Service.{is_past}
use delivery_tracking.Billing.Guard.{
  JwtPayload, Context, set_past_due, close_if, check_status, check_company, check_payload,
  check_token, can_activate,
}
use delivery_tracking.Billing.Access.{subscription_of, check_found, check_missing}

-- A subscription that grants nothing, at any time.
abbrev IsClosed : SubscriptionStatus → Type 0
IsClosed trialing = ⊥
IsClosed active = ⊥
IsClosed _ = Unit

closed_refuses :
    (later : ℕ) (s : Subscription) (status : SubscriptionStatus) (db : Db)
    → IsClosed status
    → (check_status later s status db).0 ≡ err payment_required
closed_refuses later s trialing db k = absurd k
closed_refuses later s active db k = absurd k
closed_refuses later s canceled db k = refl
closed_refuses later s past_due db k = refl
closed_refuses later s incomplete db k = refl
closed_refuses later s unpaid db k = refl

closed_company :
    (later company_id : ℕ) (db : Db) (s : Subscription)
    → subscription_of company_id db ≡ some s
    → IsClosed s.status
    → (check_company later company_id db).0 ≡ err payment_required
closed_company later company_id db s found k =
    ap (λ t. t.0) (check_found later company_id db s found) ∙ closed_refuses later s s.status db k

-- Once it is marked, the row that the company finds is closed.
marked_row :
    (company_id : ℕ) (db : Db) (s : Subscription)
    → HasDistinctKeys (λ r. Subscription.id r) db.subscriptions
    → subscription_of company_id db ≡ some s
    → subscription_of company_id (set_past_due s.id db).1 ≡ some (record s { status = past_due })
unfolding set_past_due
marked_row company_id db s k found =
    ap (λ ss. find? (λ r. r.company_id == company_id) ss)
      (update_first-key (λ r. Subscription.id r) (λ r. r.company_id == company_id)
        (λ r. record r { status = past_due }) db.subscriptions s k found)
    ∙ find?-update_first (λ r. r.company_id == company_id) (λ r. record r { status = past_due })
        db.subscriptions s found
        (find?-holds (λ r. r.company_id == company_id) db.subscriptions s found)

after_close :
    (later company_id : ℕ) (b : Bool) (db : Db) (s : Subscription) (e : Error)
    → HasDistinctKeys (λ r. Subscription.id r) db.subscriptions
    → subscription_of company_id db ≡ some s
    → (close_if b s.id db).0 ≡ err e
    → (check_company later company_id (close_if b s.id db).1).0 ≡ err payment_required
unfolding set_past_due
after_close later company_id true db s e k found refused =
    closed_company later company_id (set_past_due s.id db).1 (record s { status = past_due })
      (marked_row company_id db s k found) tt
after_close later company_id false db s e k found refused = absurd (cc refused)

after_status :
    (now later company_id : ℕ) (s : Subscription) (status : SubscriptionStatus) (db : Db)
    (e : Error)
    → s.status ≡ status
    → HasDistinctKeys (λ r. Subscription.id r) db.subscriptions
    → subscription_of company_id db ≡ some s
    → (check_status now s status db).0 ≡ err e
    → (check_company later company_id (check_status now s status db).1).0 ≡ err payment_required
after_status now later company_id s trialing db e same k found refused =
    after_close later company_id (is_past s.trial_ends_at now) db s e k found refused
after_status now later company_id s active db e same k found refused =
    after_close later company_id (ltb s.current_period_end now) db s e k found refused
after_status now later company_id s canceled db e same k found refused =
    closed_company later company_id db s found (subst IsClosed (sym same) tt)
after_status now later company_id s past_due db e same k found refused =
    closed_company later company_id db s found (subst IsClosed (sym same) tt)
after_status now later company_id s incomplete db e same k found refused =
    closed_company later company_id db s found (subst IsClosed (sym same) tt)
after_status now later company_id s unpaid db e same k found refused =
    closed_company later company_id db s found (subst IsClosed (sym same) tt)

after_company :
    (now later company_id : ℕ) (db : Db) (e : Error)
    → HasDistinctKeys (λ r. Subscription.id r) db.subscriptions
    → (check_company now company_id db).0 ≡ err e
    → (check_company later company_id (check_company now company_id db).1).0 ≡ err payment_required
after_company now later company_id db e k refused =
    elim (Option-cases (subscription_of company_id db)) [
      | inl gone ↦
          subst (λ t. (check_company later company_id t.1).0 ≡ err payment_required)
            (sym (check_missing now company_id db gone))
            (ap (λ t. t.0) (check_missing later company_id db gone))
      | inr (s, found) ↦
          let step = check_found now company_id db s found in
          subst (λ t. (check_company later company_id t.1).0 ≡ err payment_required) (sym step)
            (after_status now later company_id s s.status db e refl k found
              (ap (λ t. t.0) (sym step) ∙ refused))
    ]

after_payload :
    (now later : ℕ) (is_admin : Bool) (company_id : Option ℕ) (db : Db) (e : Error)
    → HasDistinctKeys (λ r. Subscription.id r) db.subscriptions
    → (check_payload now is_admin company_id db).0 ≡ err e
    → (check_payload later is_admin company_id (check_payload now is_admin company_id db).1).0
      ≡ err payment_required
after_payload now later true company_id db e k refused = absurd (cc refused)
after_payload now later false none db e k refused = absurd (cc refused)
after_payload now later false (some company_id) db e k refused =
    after_company now later company_id db e k refused

after_token :
    (now later : ℕ) (payload : Option JwtPayload) (db : Db) (e : Error)
    → HasDistinctKeys (λ r. Subscription.id r) db.subscriptions
    → (check_token now payload db).0 ≡ err e
    → (check_token later payload (check_token now payload db).1).0 ≡ err payment_required
after_token now later none db e k refused = absurd (cc refused)
after_token now later (some p) db e k refused =
    after_payload now later p.is_platform_admin p.company_id db e k refused

-- A request that the guard refuses is refused at any other time too, earlier or later, as long as
-- nothing else changes the subscriptions: the end of a trial or of a period is written down. The keys
-- of the subscriptions are distinct.
pub can_activate-refuses :
    (now later : ℕ) (c : Context) (db : Db) (e : Error)
    → HasDistinctKeys (λ r. Subscription.id r) db.subscriptions
    → (can_activate now c db).0 ≡ err e
    → (can_activate later c (can_activate now c db).1).0 ≡ err payment_required
unfolding can_activate
can_activate-refuses now later c db e k refused = elim (Bool-cases c.skip) [
  | inl skipped ↦ absurd (cc (rw skipped at refused))
  | inr checked ↦ rw checked (after_token now later c.payload db e k (rw checked at refused))
]
