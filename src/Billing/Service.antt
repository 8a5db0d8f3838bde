-- ===== src/Billing/Service.antt =====
-- `submitProof` and `redeem` of backend/src/modules/manual-billing/manual-billing.service.ts, and
-- `approve` and `reject` of backend/src/modules/platform-admin/payment-proofs.service.ts.
use delivery_tracking.Prelude.{
  ℕ, ◌+◌, ◌==◌, String, Bool, true, false, not, ◌&&◌, Option, none, some, List, [], ◌∷◌, ◌++◌, any,
  is_none, is_value, ltb, if◌then◌else◌, ok, pure, throw, or_throw, modify, throw_if, ◌>>=◌, ◌>>◌,
}
use delivery_tracking.Prelude.Table.{find?, update_first}
use delivery_tracking.Billing.Trim.{trim}
use delivery_tracking.Billing.Model.{
  Subscription, active, PaymentProof, PaymentProofStatus, pending, approved, rejected, BillingPlan,
  PaymentMethod, ProofFile, SubmitPaymentProofDto, file_required, bad_file_type, file_too_large,
  plan_not_found, method_not_found, already_pending, proof_not_found, already_reviewed,
  unique_violation, invalid_code, already_redeemed, code_expired, record_not_found, Method,
}

abbrev pub max_proof_image_bytes : ℕ
max_proof_image_bytes = 5242880

abbrev pub paid_subscription_duration_ms : ℕ
paid_subscription_duration_ms = 2592000000

abbrev pub activation_code_validity_ms : ℕ
activation_code_validity_ms = 1209600000

abbrev pub is_pending : PaymentProofStatus → Bool
is_pending pending = true
is_pending approved = false
is_pending rejected = false

abbrev pub is_pending_of : ℕ → PaymentProof → Bool
is_pending_of company_id p = p.company_id == company_id && is_pending p.status

abbrev pub is_plan : ℕ → BillingPlan → Bool
is_plan id p = p.id == id && p.is_active && not p.is_free

abbrev pub is_method : ℕ → PaymentMethod → Bool
is_method id m = m.id == id && m.is_active

abbrev pub check_file : Option ProofFile → Method (Unit {0})
check_file none = throw file_required
check_file (some f) = do
  throw_if (not f.is_allowed_image) bad_file_type
  throw_if (ltb max_proof_image_bytes f.size) file_too_large

-- The key and the partial unique index on pending proofs; a violation of the latter is caught.
unfoldable pub insert_proof : PaymentProof → Method PaymentProof
insert_proof p = do
  proofs ← (λ db. (ok db.proofs, db))
  throw_if (any (λ r. r.id == p.id) proofs) unique_violation
  throw_if (any (is_pending_of p.company_id) proofs) already_pending
  modify (λ db. record db { proofs = db.proofs ++ p ∷ [] })
  pure p

unfoldable pub submit_proof :
    ℕ → ℕ → ℕ → SubmitPaymentProofDto → Option ProofFile → Method PaymentProof
unfolding insert_proof trim
submit_proof new_id company_id user_id dto file = do
  check_file file
  db ← (λ db. (ok db, db))
  plan ← or_throw (find? (is_plan dto.claimed_plan_id) db.plans) plan_not_found
  method ← or_throw (find? (is_method dto.payment_method_id) db.methods) method_not_found
  throw_if (any (is_pending_of company_id) db.proofs) already_pending
  insert_proof (record {
    id = new_id;
    company_id = company_id;
    submitted_by_id = user_id;
    claimed_plan_id = plan.id;
    claimed_amount = plan.price;
    payment_method_id = method.id;
    reference = trim dto.reference;
    status = pending;
    reviewed_by_id = none;
    reviewed_at = none;
    rejection_reason = none;
    activation_code_hash = none;
    activation_expires_at = none;
    redeemed_at = none;
  })

-- `prisma.paymentProof.update({ where: { id } })`
unfoldable pub update_proof : ℕ → (PaymentProof → PaymentProof) → Method (Unit {0})
update_proof id change = do
  proofs ← (λ db. (ok db.proofs, db))
  throw_if (is_none (find? (λ p. p.id == id) proofs)) record_not_found
  modify (λ db. record db { proofs = update_first (λ p. p.id == id) change db.proofs })

unfoldable pub find_pending : ℕ → Method PaymentProof
find_pending id = do
  proofs ← (λ db. (ok db.proofs, db))
  proof ← or_throw (find? (λ p. p.id == id) proofs) proof_not_found
  throw_if (not (is_pending proof.status)) already_reviewed
  pure proof

abbrev pub approved_proof : ℕ → ℕ → ℕ → PaymentProof → PaymentProof
approved_proof now admin_id hash p = record p {
  status = approved;
  reviewed_by_id = some admin_id;
  reviewed_at = some now;
  activation_code_hash = some hash;
  activation_expires_at = some (now + activation_code_validity_ms);
}

-- `hash` is that of the code that was generated; its column has a unique index.
unfoldable pub approve : ℕ → ℕ → ℕ → ℕ → Method (Unit {0})
unfolding find_pending update_proof
approve now id admin_id hash = do
  find_pending id
  proofs ← (λ db. (ok db.proofs, db))
  throw_if (any (λ p. is_value p.activation_code_hash hash && not (p.id == id)) proofs)
      unique_violation
  update_proof id (approved_proof now admin_id hash)

abbrev pub rejected_proof : ℕ → ℕ → String → PaymentProof → PaymentProof
rejected_proof now admin_id reason p = record p {
  status = rejected;
  reviewed_by_id = some admin_id;
  reviewed_at = some now;
  rejection_reason = some reason;
}

unfoldable pub reject : ℕ → ℕ → ℕ → String → Method (Unit {0})
unfolding find_pending update_proof
reject now id admin_id reason = do
  find_pending id
  update_proof id (rejected_proof now admin_id reason)

abbrev pub is_past : Option ℕ → ℕ → Bool
is_past none now = false
is_past (some t) now = ltb t now

unfoldable pub check_redeem : ℕ → ℕ → ℕ → Method PaymentProof
check_redeem now company_id hash = do
  proofs ← (λ db. (ok db.proofs, db))
  proof ← or_throw (find? (λ p. is_value p.activation_code_hash hash) proofs) invalid_code
  throw_if (not (proof.company_id == company_id)) invalid_code
  throw_if (not (is_none proof.redeemed_at)) already_redeemed
  throw_if (is_past proof.activation_expires_at now) code_expired
  pure proof

abbrev pub activated : ℕ → ℕ → Subscription → Subscription
activated now plan_id s = record s {
  plan_id = plan_id;
  status = active;
  is_manual = true;
  current_period_start = now;
  current_period_end = now + paid_subscription_duration_ms;
}

abbrev pub new_subscription : ℕ → ℕ → ℕ → ℕ → Subscription
new_subscription new_id now company_id plan_id = record {
  id = new_id;
  company_id = company_id;
  plan_id = plan_id;
  status = active;
  is_manual = true;
  current_period_start = now;
  current_period_end = now + paid_subscription_duration_ms;
  trial_ends_at = none;
}

-- `subscription.upsert({ where: { companyId } })`
abbrev pub upsert_subscription : ℕ → ℕ → ℕ → ℕ → List Subscription → List Subscription
upsert_subscription new_id now company_id plan_id ss =
    if is_none (find? (λ s. s.company_id == company_id) ss)
    then ss ++ new_subscription new_id now company_id plan_id ∷ []
    else update_first (λ s. s.company_id == company_id) (activated now plan_id) ss

abbrev pub activate_subscription : ℕ → ℕ → ℕ → ℕ → Method (Unit {0})
activate_subscription new_id now company_id plan_id = modify (λ db. record db {
  subscriptions = upsert_subscription new_id now company_id plan_id db.subscriptions;
})

-- The transaction: the proof's update comes first, and throws before the upsert is run.
unfoldable pub commit_redeem : ℕ → ℕ → ℕ → PaymentProof → Method (Unit {0})
unfolding update_proof
commit_redeem new_id now company_id proof = do
  update_proof proof.id (λ p. record p { redeemed_at = some now })
  activate_subscription new_id now company_id proof.claimed_plan_id

-- `hash` is that of the code that the client typed; `new_id` the key of a new subscription.
unfoldable pub redeem : ℕ → ℕ → ℕ → ℕ → Method (Unit {0})
unfolding check_redeem commit_redeem
redeem new_id now company_id hash = do
  proof ← check_redeem now company_id hash
  commit_redeem new_id now company_id proof
