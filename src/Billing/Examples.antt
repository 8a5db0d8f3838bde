-- ===== src/Billing/Examples.antt =====
-- The theorems about manual payment, at concrete inputs.
use delivery_tracking.Prelude.{
  ℕ, ◌+◌, ◌≡◌, ◌≤◌, ◌↔◌, ◌⊎◌, refl, true, Option, none, some, List, [], ◌∷◌, ok, err, is_value,
  ◌==◌,
}
use delivery_tracking.Prelude.Table.{find?}
use delivery_tracking.Billing.Trim.{trim}
use delivery_tracking.Billing.Model.{
  trialing, pending, approved, PaymentProof, PaymentProofStatus, invalid_code, already_redeemed,
  payment_required, Db,
}
use delivery_tracking.Billing.Service.{redeem, paid_subscription_duration_ms}
use delivery_tracking.Billing.Guard.{can_activate}
use delivery_tracking.Billing.Access.{subscription_of, IsAdmitted, can_activate_iff}
use delivery_tracking.Billing.Refusal.{can_activate-refuses}
use delivery_tracking.Billing.Redeem.{request_of, redeem-opens, redeem-once, redeem-tenant}
use delivery_tracking.Billing.Pending.{IsSinglePending}
use delivery_tracking.Billing.Requests.{
  Request, submit, approval, redemption, serve_all, serve_all-IsSinglePending,
}

abbrev proof : ℕ → ℕ → PaymentProofStatus → Option ℕ → PaymentProof
proof id company_id status hash = record {
  id = id;
  company_id = company_id;
  submitted_by_id = 50;
  claimed_plan_id = 2;
  claimed_amount = 40000;
  payment_method_id = 1;
  reference = "MVola 123";
  status = status;
  reviewed_by_id = none;
  reviewed_at = none;
  rejection_reason = none;
  activation_code_hash = hash;
  activation_expires_at = some 5000;
  redeemed_at = none;
}

-- Company 7 has a trial until 900, an approved proof with the code of hash 42, and a proof that waits.
abbrev office : Db
office = record {
  plans = [];
  methods = [];
  proofs = proof 1 7 approved (some 42) ∷ proof 2 7 pending none ∷ [];
  subscriptions =
      record {
        id = 3;
        company_id = 7;
        plan_id = 1;
        status = trialing;
        is_manual = true;
        current_period_start = 0;
        current_period_end = 900;
        trial_ends_at = some 900;
      }
      ∷ [];
}

can_activate_iff_example :
    ((can_activate 800 (request_of 7) office).0 ≡ ok tt) ↔ IsAdmitted 800 (request_of 7) office
can_activate_iff_example = can_activate_iff 800 (request_of 7) office

trial_is_over : (can_activate 1000 (request_of 7) office).0 ≡ err payment_required
unfolding can_activate find?
trial_is_over = refl

can_activate-refuses_example :
    (can_activate 800 (request_of 7) (can_activate 1000 (request_of 7) office).1).0
    ≡ err payment_required
can_activate-refuses_example =
    can_activate-refuses 1000 800 (request_of 7) office payment_required (tt, tt) trial_is_over

code_works : (redeem 4 1000 7 42 office).0 ≡ ok tt
unfolding redeem find?
code_works = refl

redeem-opens_example :
    ((can_activate 2000 (request_of 7) (redeem 4 1000 7 42 office).1).0 ≡ ok tt)
    ↔ (2000 ≤ 1000 + paid_subscription_duration_ms)
redeem-opens_example = redeem-opens 4 1000 7 42 office 2000 code_works

redeem-once_example :
    ((redeem 5 1001 7 42 (redeem 4 1000 7 42 office).1).0 ≡ err invalid_code)
    ⊎ ((redeem 5 1001 7 42 (redeem 4 1000 7 42 office).1).0 ≡ err already_redeemed)
redeem-once_example = redeem-once 4 1000 7 42 office 5 1001 7 ((refl, tt), (tt, tt)) code_works

-- Company 8 tries the code of company 7.
redeem-tenant_example :
    (subscription_of 7 (redeem 4 1000 8 42 office).1 ≡ subscription_of 7 office)
    × ((redeem 4 1000 8 42 office).0 ≡ ok tt
        → (p : PaymentProof) × ((find? (λ p. is_value p.activation_code_hash 42) office.proofs
              ≡ some p)
            × ((p.company_id == 8) ≡ true)))
redeem-tenant_example = redeem-tenant 4 1000 8 42 office 7 refl

abbrev requests : List Request
requests =
    submit 9 7 50 (record { claimed_plan_id = 2; payment_method_id = 1; reference = "again" }) none
    ∷ approval 100 2 60 43
    ∷ redemption 4 200 7 43
    ∷ []

office-IsSinglePending : IsSinglePending office.proofs
office-IsSinglePending = ((refl, tt), (tt, tt))

serve_all-IsSinglePending_example : IsSinglePending (serve_all requests office).proofs
serve_all-IsSinglePending_example = serve_all-IsSinglePending requests office office-IsSinglePending

trims_both_ends : trim " PAY 12 " ≡ "PAY 12"
unfolding trim
trims_both_ends = refl
