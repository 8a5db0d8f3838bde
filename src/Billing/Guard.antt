-- ===== src/Billing/Guard.antt =====
-- `canActivate` of backend/src/common/guards/subscription.guard.ts.
use delivery_tracking.Prelude.{
  ℕ, ◌==◌, Bool, true, false, Option, none, some, ltb, if◌then◌else◌, ok, pure, throw, or_throw,
  modify, ◌>>=◌, ◌>>◌,
}
use delivery_tracking.Prelude.Table.{find?, update_first}
use delivery_tracking.Billing.Model.{
  SubscriptionStatus, active, canceled, past_due, incomplete, unpaid, trialing, Subscription,
  payment_required, Db, Method,
}
use delivery_tracking.Billing.Service.{is_past}

-- What the guard reads of a verified token.
pub record JwtPayload : Type 0 where
  pub is_platform_admin : Bool
  pub company_id : Option ℕ

-- A request: whether its handler skips the check, and the token, if it bears one that verifies.
pub record Context : Type 0 where
  pub skip : Bool
  pub payload : Option JwtPayload

unfoldable pub set_past_due : ℕ → Method (Unit {0})
set_past_due id = modify (λ db. record db {
  subscriptions =
      update_first (λ s. s.id == id) (λ s. record s { status = past_due }) db.subscriptions;
})

abbrev pub close_if : Bool → ℕ → Method (Unit {0})
close_if true id = do set_past_due id; throw payment_required
close_if false id = pure tt

abbrev pub check_status : ℕ → Subscription → SubscriptionStatus → Method (Unit {0})
check_status now s trialing = close_if (is_past s.trial_ends_at now) s.id
check_status now s active = close_if (ltb s.current_period_end now) s.id
check_status now s canceled = throw payment_required
check_status now s past_due = throw payment_required
check_status now s incomplete = throw payment_required
check_status now s unpaid = throw payment_required

unfoldable pub check_company : ℕ → ℕ → Method (Unit {0})
unfolding set_past_due
check_company now company_id = do
  subscriptions ← (λ db. (ok (Db.subscriptions db), db))
  s ← or_throw (find? (λ s. s.company_id == company_id) subscriptions) payment_required
  check_status now s s.status

abbrev pub check_payload : ℕ → Bool → Option ℕ → Method (Unit {0})
check_payload now true company_id = pure tt
check_payload now false none = pure tt
check_payload now false (some company_id) = check_company now company_id

abbrev pub check_token : ℕ → Option JwtPayload → Method (Unit {0})
check_token now none = pure tt
check_token now (some p) = check_payload now p.is_platform_admin p.company_id

unfoldable pub can_activate : ℕ → Context → Method (Unit {0})
unfolding check_company
can_activate now c = if c.skip then pure tt else check_token now c.payload
