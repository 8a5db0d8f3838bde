-- ===== src/Billing/Access.antt =====
-- When the guard lets a request through.
use mathlib.Core.Path.{subst}
use delivery_tracking.Prelude.{
  ℕ, ◌==◌, ◌≡◌, ◌≤◌, ◌↔◌, refl, sym, ap, ◌∙◌, ◌⊎◌, inl, inr, Bool, true, false, Option, none, some,
  arith, ltb, ok, err, Bool-cases, Option-cases,
}
use delivery_tracking.Prelude.Table.{find?}
use delivery_tracking.Billing.Model.{
  SubscriptionStatus, active, trialing, past_due, canceled, incomplete, unpaid, Subscription,
  payment_required, Db,
}
use delivery_tracking.Billing.Service.{is_past}
use delivery_tracking.Billing.Guard.{
  close_if, JwtPayload, Context, set_past_due, check_status, check_company, check_payload,
  check_token, can_activate,
}

-- A trial that has not ended, or a paid period that has not.
abbrev pub IsEntitled : ℕ → Subscription → Type 0
IsEntitled now s =
    ((s.status ≡ trialing) × (is_past s.trial_ends_at now ≡ false))
    ⊎ ((s.status ≡ active) × (now ≤ s.current_period_end))

abbrev pub subscription_of : ℕ → Db → Option Subscription
subscription_of company_id db = find? (λ s. s.company_id == company_id) db.subscriptions

abbrev pub IsAdmittedCompany : ℕ → Option ℕ → Db → Type 0
IsAdmittedCompany now none db = Unit
IsAdmittedCompany now (some company_id) db =
    (s : Subscription) × ((subscription_of company_id db ≡ some s) × IsEntitled now s)

-- A request that skips the check, that bears no token, that is the platform's administrator's or
-- nobody's, or whose company is entitled.
abbrev pub IsAdmittedToken : ℕ → Option JwtPayload → Db → Type 0
IsAdmittedToken now none db = Unit
IsAdmittedToken now (some p) db =
    (p.is_platform_admin ≡ true) ⊎ IsAdmittedCompany now p.company_id db

abbrev pub IsAdmitted : ℕ → Context → Db → Type 0
IsAdmitted now c db = (c.skip ≡ true) ⊎ IsAdmittedToken now c.payload db

close_if_iff : (b : Bool) (id : ℕ) (db : Db) → ((close_if b id db).0 ≡ ok tt) ↔ (b ≡ false)
unfolding set_past_due
close_if_iff true id db = (λ h. absurd (cc h), λ h. absurd (cc h))
close_if_iff false id db = (λ _. refl, λ _. refl)

not_entitled :
    (now : ℕ) (s : Subscription)
    → ((s.status ≡ trialing) → ⊥)
    → ((s.status ≡ active) → ⊥)
    → IsEntitled now s
    → ⊥
not_entitled now s no_trial no_plan (inl (t, _)) = no_trial t
not_entitled now s no_trial no_plan (inr (t, _)) = no_plan t

check_status_iff :
    (now : ℕ) (s : Subscription) (status : SubscriptionStatus) (db : Db)
    → s.status ≡ status
    → ((check_status now s status db).0 ≡ ok tt) ↔ IsEntitled now s
check_status_iff now s trialing db e =
    let closes = close_if_iff (is_past s.trial_ends_at now) s.id db in
    (
      λ h. inl (e, closes.0 h),
      λ k. elim k [ inl (_, running) ↦ closes.1 running | inr (t, _) ↦ absurd (cc (e, t)) ],
    )
check_status_iff now s active db e =
    let closes = close_if_iff (ltb s.current_period_end now) s.id db in
    (
      λ h. inr (e, in_period s.current_period_end now (closes.0 h)),
      λ k. elim k [
        | inl (t, _) ↦ absurd (cc (e, t))
        | inr (_, running) ↦ closes.1 (not_after s.current_period_end now running)
      ],
    )
  where
    in_period : (a b : ℕ) → ltb a b ≡ false → b ≤ a
    in_period a b h = ground arith

    not_after : (a b : ℕ) → b ≤ a → ltb a b ≡ false
    not_after a b h = ground arith
check_status_iff now s canceled db e =
    (λ h. absurd (cc h), λ k. absurd (not_entitled now s (λ t. cc (e, t)) (λ t. cc (e, t)) k))
check_status_iff now s past_due db e =
    (λ h. absurd (cc h), λ k. absurd (not_entitled now s (λ t. cc (e, t)) (λ t. cc (e, t)) k))
check_status_iff now s incomplete db e =
    (λ h. absurd (cc h), λ k. absurd (not_entitled now s (λ t. cc (e, t)) (λ t. cc (e, t)) k))
check_status_iff now s unpaid db e =
    (λ h. absurd (cc h), λ k. absurd (not_entitled now s (λ t. cc (e, t)) (λ t. cc (e, t)) k))

-- The check of a company, by what its subscription is.
pub check_found :
    (now company_id : ℕ) (db : Db) (s : Subscription)
    → subscription_of company_id db ≡ some s
    → check_company now company_id db ≡ check_status now s s.status db
unfolding check_company
check_found now company_id db s found = rw found refl

pub check_missing :
    (now company_id : ℕ) (db : Db)
    → subscription_of company_id db ≡ none
    → check_company now company_id db ≡ (err payment_required, db)
unfolding check_company
check_missing now company_id db gone = rw gone refl

check_company_iff :
    (now company_id : ℕ) (db : Db)
    → ((check_company now company_id db).0 ≡ ok tt) ↔ IsAdmittedCompany now (some company_id) db
check_company_iff now company_id db = elim (Option-cases (subscription_of company_id db)) [
  | inl gone ↦ (
    λ h. absurd (cc (check_missing now company_id db gone, h)),
    λ k. let (s, (found, _)) = k in absurd (cc (gone, found)),
  )
  | inr (s, found) ↦
      let as_status = check_status_iff now s s.status db refl in
      let e = ap (λ t. t.0) (check_found now company_id db s found) in
      (
        λ h. (s, (found, as_status.0 (sym e ∙ h))),
        λ k.
            let (s', (found', entitled)) = k in
            e ∙ as_status.1 (subst (IsEntitled now) (one_row s' s (sym found' ∙ found)) entitled),
      )
]
  where
    one_row : (a b : Subscription) → some a ≡ some b → a ≡ b
    one_row a b e = cc e

check_payload_iff :
    (now : ℕ) (is_admin : Bool) (company_id : Option ℕ) (db : Db)
    → ((check_payload now is_admin company_id db).0 ≡ ok tt)
      ↔ ((is_admin ≡ true) ⊎ IsAdmittedCompany now company_id db)
check_payload_iff now true company_id db = (λ _. inl refl, λ _. refl)
check_payload_iff now false none db = (λ _. inr tt, λ _. refl)
check_payload_iff now false (some company_id) db = (
  λ h. inr ((check_company_iff now company_id db).0 h),
  λ k. elim k [ inl never ↦ absurd (cc never) | inr a ↦ (check_company_iff now company_id db).1 a ],
)

check_token_iff :
    (now : ℕ) (payload : Option JwtPayload) (db : Db)
    → ((check_token now payload db).0 ≡ ok tt) ↔ IsAdmittedToken now payload db
check_token_iff now none db = (λ _. tt, λ _. refl)
check_token_iff now (some p) db = check_payload_iff now p.is_platform_admin p.company_id db

-- The guard lets a request through exactly if its handler skips the check, it bears no token that
-- verifies, it is the platform's administrator's or names no company, or its company has a trial or
-- a paid period that has not ended.
pub can_activate_iff :
    (now : ℕ) (c : Context) (db : Db) → ((can_activate now c db).0 ≡ ok tt) ↔ IsAdmitted now c db
unfolding can_activate
can_activate_iff now c db = elim (Bool-cases c.skip) [
  | inl skipped ↦ rw skipped (λ _. inl refl, λ _. refl)
  | inr checked ↦
      let token = check_token_iff now c.payload db in
      rw checked
        (λ h. inr (token.0 h), λ k. elim k [ inl never ↦ absurd (cc never) | inr a ↦ token.1 a ])
]
